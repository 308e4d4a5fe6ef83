-- ===== src/Examples/Requests.antt =====
-- A request, and answers of a mail server.
use whisper.Base.{ℕ, ◌≡◌, ◌≢◌, ◌≤◌, ◌↔◌, refl, List, [], ◌∷◌, ◌++◌, some, none, length, replicate}
use whisper.Requests.{MessagesRequest, validate_messages_request, validate_messages_request_iff}
use whisper.MailServer.{
  completed_payload, failed_payload, create_mail_server_event, event, failed, completed,
  failed_prefix,
}
use whisper.MailServer.Roundtrip.{failed_roundtrip, completed_roundtrip, completed_misread}

abbrev request : MessagesRequest
request = record {
  id = replicate 32 1;
  from = 5;
  to = 9;
  limit = 1000;
  cursor = [];
  bloom = replicate 64 0;
}

validate_messages_request_iff_example : (validate_messages_request request ≡ none) ↔ (
    (length request.id ≡ 32)
    × (request.from ≤ request.to)
    × (request.limit ≤ 1000)
    × (length request.bloom ≢ 0))
validate_messages_request_iff_example = validate_messages_request_iff request

abbrev hash_of_ones : List ℕ
hash_of_ones = replicate 32 1

abbrev cursor : List ℕ
cursor = replicate 36 3

-- A hash that begins with the bytes of `ERROR=`.
abbrev unlucky : List ℕ
unlucky = failed_prefix ++ replicate 26 1

failed_roundtrip_example :
    create_mail_server_event 4 (failed_payload hash_of_ones (110 ∷ 111 ∷ []))
    ≡ event (record { peer = 4; request_id = hash_of_ones; answer = failed (110 ∷ 111 ∷ []) })
failed_roundtrip_example = failed_roundtrip 4 hash_of_ones (110 ∷ 111 ∷ []) refl

completed_roundtrip_example :
    create_mail_server_event 4 (completed_payload hash_of_ones hash_of_ones cursor)
    ≡ event (record {
      peer = 4;
      request_id = hash_of_ones;
      answer = completed hash_of_ones (some cursor);
    })
unfolding completed_payload
completed_roundtrip_example =
    completed_roundtrip 4 hash_of_ones hash_of_ones cursor refl refl refl refl

completed_misread_example :
    (id text : List ℕ) × (create_mail_server_event 4 (completed_payload unlucky hash_of_ones cursor)
      ≡ event (record { peer = 4; request_id = id; answer = failed text }))
unfolding completed_payload
completed_misread_example = completed_misread 4 unlucky hash_of_ones cursor refl refl refl refl
