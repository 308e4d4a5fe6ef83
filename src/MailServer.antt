-- ===== src/MailServer.antt =====
-- The payload of a mail server's answer (whisperv6/mailserver_response.go). Here a hash is its 32
-- bytes, a text the list of its bytes, and a nil cursor `none`.
pub mod Roundtrip
use whisper.Base.{
  ℕ, ◌+◌, ◌-◌, List, [], ◌∷◌, ◌++◌, Bool, true, false, ◌&&◌, Option, none, some, ltb, leb, ◌==◌,
  if◌then◌else◌, length, take, drop,
}
use whisper.Bytes.{slice}
use whisper.Constants.{hash_length, cursor_size}

-- "ERROR="
abbrev pub failed_prefix : List ℕ
failed_prefix = 69 ∷ 82 ∷ 82 ∷ 79 ∷ 82 ∷ 61 ∷ []

abbrev pub prefix_length : ℕ
prefix_length = 6

-- bytes.Equal
abbrev pub bytes_equal : List ℕ → List ℕ → Bool
bytes_equal [] [] = true
bytes_equal [] (y ∷ ys) = false
bytes_equal (x ∷ xs) [] = false
bytes_equal (x ∷ xs) (y ∷ ys) = (x == y) && bytes_equal xs ys

-- The event that a payload turns into: the hash of the request, and what the server says.
pub data Answer : Type 0 where
  failed : List ℕ → Answer
  completed : List ℕ → Option (List ℕ) → Answer

pub record MailServerEvent : Type 0 where
  pub peer : ℕ
  pub request_id : List ℕ
  pub answer : Answer

-- A parser returns an event, nothing, an error that names the size, or panics.
pub data Parsed : Type 0 where
  event : MailServerEvent → Parsed
  no_event : Parsed
  bad_size : ℕ → Parsed
  crash : Parsed

-- `CreateMailServerRequestCompletedPayload`
unfoldable pub completed_payload : List ℕ → List ℕ → List ℕ → List ℕ
completed_payload request_id last_envelope_hash cursor =
    request_id ++ (last_envelope_hash ++ cursor)

-- `CreateMailServerRequestFailedPayload`, of the error's text.
unfoldable pub failed_payload : List ℕ → List ℕ → List ℕ
failed_payload request_id text = failed_prefix ++ (request_id ++ text)

-- `extractPrefix`; `none` is the panic of a payload that is too short.
unfoldable pub extract_prefix : List ℕ → ℕ → Option (List ℕ × List ℕ)
extract_prefix payload size =
    if leb size (length payload) then some (take size payload, drop size payload) else none

-- `extractHash`: the hash has as many bytes as were cut off.
abbrev pub extract_hash : List ℕ → Option (List ℕ × List ℕ)
extract_hash payload = extract_prefix payload hash_length

-- `tryCreateMailServerRequestFailedEvent`
unfoldable pub try_failed_event : ℕ → List ℕ → Parsed
try_failed_event node payload =
    if ltb (length payload) (hash_length + prefix_length)
    then no_event
    else elim (extract_prefix payload prefix_length) [
      | none ↦ crash
      | some (prefix, remainder) ↦
          if bytes_equal prefix failed_prefix
          then elim (extract_hash remainder) [
            | none ↦ crash
            | some (request_id, text) ↦
                event (record { peer = node; request_id = request_id; answer = failed text })
          ]
          else no_event
    ]

-- The zero hash.
abbrev pub zero_hash : List ℕ
zero_hash =
    0 ∷ 0 ∷ 0 ∷ 0 ∷ 0 ∷ 0 ∷ 0 ∷ 0 ∷ 0 ∷ 0 ∷ 0 ∷ 0 ∷ 0 ∷ 0 ∷ 0 ∷ 0 ∷ 0 ∷ 0 ∷ 0 ∷ 0 ∷ 0 ∷ 0 ∷ 0 ∷ 0
    ∷ 0 ∷ 0 ∷ 0 ∷ 0 ∷ 0 ∷ 0 ∷ 0 ∷ 0 ∷ []

abbrev pub cursor_of : List ℕ → Option (List ℕ)
cursor_of remainder = if leb cursor_size (length remainder) then some remainder else none

-- `tryCreateMailServerRequestCompletedEvent` behind its check, from what follows the request's hash.
unfoldable pub completed_event : ℕ → List ℕ → List ℕ → Parsed
completed_event node request_id remainder =
    if leb hash_length (length remainder)
    then elim (extract_hash remainder) [
      | none ↦ crash
      | some (last, rest) ↦ event (record {
        peer = node;
        request_id = request_id;
        answer = completed last (cursor_of rest);
      })
    ]
    else event (record {
      peer = node;
      request_id = request_id;
      answer = completed zero_hash (cursor_of remainder);
    })

unfoldable pub try_completed_event : ℕ → List ℕ → Parsed
try_completed_event node payload =
    if ltb (hash_length + hash_length + cursor_size) (length payload)
    then bad_size (length payload)
    else elim (extract_hash payload) [
      | none ↦ crash
      | some (request_id, remainder) ↦ completed_event node request_id remainder
    ]

-- `CreateMailServerEvent`
unfoldable pub create_mail_server_event : ℕ → List ℕ → Parsed
create_mail_server_event node payload =
    if ltb (length payload) hash_length
    then bad_size (length payload)
    else elim (try_failed_event node payload) [
      | event e ↦ event e
      | bad_size n ↦ bad_size n
      | crash ↦ crash
      | no_event ↦ try_completed_event node payload
    ]
