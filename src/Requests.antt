-- ===== src/Requests.antt =====
-- Requests to a mail server and their checks (whisperv6/doc.go).
use whisper.Base.{
  ℕ, List, not, Option, none, some, ltb, ◌==◌, ◌≡◌, ◌↔◌, ◌≤◌, ◌<◌, ◌≢◌, if◌then◌else◌, length,
  arith,
}
use whisper.Constants.{hash_length, max_limit_in_messages_request, max_limit_in_sync_mail_request}

-- `MessagesRequest`
pub record MessagesRequest : Type 0 where
  pub id : List ℕ
  pub from : ℕ
  pub to : ℕ
  pub limit : ℕ
  pub cursor : List ℕ
  pub bloom : List ℕ

-- `SyncMailRequest`
pub record SyncMailRequest : Type 0 where
  pub lower : ℕ
  pub upper : ℕ
  pub bloom : List ℕ
  pub limit : ℕ
  pub cursor : List ℕ

pub data RequestError : Type 0 where
  invalid_id invalid_from invalid_limit zero_limit invalid_bloom invalid_lower : RequestError

-- `MessagesRequest.Validate`; `none` is a nil error.
unfoldable pub validate_messages_request : MessagesRequest → Option RequestError
validate_messages_request r =
    if not (length r.id == hash_length)
    then some invalid_id
    else if ltb r.to r.from
    then some invalid_from
    else if ltb max_limit_in_messages_request r.limit
    then some invalid_limit
    else if length r.bloom == 0
    then some invalid_bloom
    else none

-- `SyncMailRequest.Validate`
unfoldable pub validate_sync_mail_request : SyncMailRequest → Option RequestError
validate_sync_mail_request r =
    if r.limit == 0
    then some zero_limit
    else if ltb max_limit_in_sync_mail_request r.limit
    then some invalid_limit
    else if ltb r.upper r.lower
    then some invalid_lower
    else none

-- A request for messages passes exactly with an identifier of 32 bytes, a time range that is not
-- reversed, a limit of at most 1000, which it may reach, and a bloom filter that is not empty.
pub validate_messages_request_iff :
    (r : MessagesRequest)
    → (validate_messages_request r ≡ none)
      ↔ ((length r.id ≡ 32) × (r.from ≤ r.to) × (r.limit ≤ 1000) × (length r.bloom ≢ 0))
unfolding validate_messages_request
validate_messages_request_iff r =
    (λ h. (ground arith, ground arith, ground arith, ground arith), λ h. ground arith)

-- A request to sync passes exactly with a limit from 1 to 1000 and a range that is not reversed.
pub validate_sync_mail_request_iff :
    (r : SyncMailRequest)
    → (validate_sync_mail_request r ≡ none)
      ↔ ((0 < r.limit) × (r.limit ≤ 1000) × (r.lower ≤ r.upper))
unfolding validate_sync_mail_request
validate_sync_mail_request_iff r =
    (λ h. (ground arith, ground arith, ground arith), λ h. ground arith)
