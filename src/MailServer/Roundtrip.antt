-- ===== src/MailServer/Roundtrip.antt =====
-- What the client reads of the payloads that a mail server makes.
use whisper.Base.{
  ℕ, ◌+◌, ◌≡◌, refl, List, ◌++◌, true, false, some, arith, ltb, leb, length, take, drop,
  length-append, take-length_append, drop-length_append, length-drop,
}
use whisper.Constants.{hash_length, cursor_size}
use whisper.MailServer.{
  failed_prefix, prefix_length, bytes_equal, failed, completed, event, no_event, completed_payload,
  failed_payload, extract_prefix, try_failed_event, completed_event, try_completed_event,
  create_mail_server_event,
}

extract-append : (a b : List ℕ) (n : ℕ) → length a ≡ n → extract_prefix (a ++ b) n ≡ some (a, b)
unfolding extract_prefix
extract-append a b n e =
    let l = length-append a b in
    let t : take n (a ++ b) ≡ a = rw (← e) (take-length_append a b) in
    let d : drop n (a ++ b) ≡ b = rw (← e) (drop-length_append a b) in
    let fits : leb n (length (a ++ b)) ≡ true = ground arith in rw (fits, t, d) refl

-- The client reads a failure back: the request and the text of the error, whatever it is.
pub failed_roundtrip :
    (node : ℕ) (request_id text : List ℕ)
    → length request_id ≡ hash_length
    → create_mail_server_event node (failed_payload request_id text)
      ≡ event (record { peer = node; request_id = request_id; answer = failed text })
unfolding create_mail_server_event try_failed_event failed_payload
failed_roundtrip node request_id text l =
    let payload : List ℕ = failed_prefix ++ (request_id ++ text) in
    let lp = length-append failed_prefix (request_id ++ text) in
    let lr = length-append request_id text in
    let long : ltb (length payload) hash_length ≡ false = ground arith in
    let longer : ltb (length payload) (hash_length + prefix_length) ≡ false = ground arith in
    rw
      (
        long,
        longer,
        extract-append failed_prefix (request_id ++ text) prefix_length refl,
        extract-append request_id text hash_length l,
      )
      refl

module _ (node : ℕ) (request_id last cursor : List ℕ) (id_length : length request_id ≡ hash_length)
    (last_length : length last ≡ hash_length) (cursor_length : length cursor ≡ cursor_size) where
  payload_length : length (request_id ++ (last ++ cursor)) ≡ 100
  payload_length =
      omega (arith, length-append request_id (last ++ cursor), length-append last cursor)

  completed_lem :
      try_completed_event node (request_id ++ (last ++ cursor))
      ≡ event
          (record { peer = node; request_id = request_id; answer = completed last (some cursor) })
  unfolding try_completed_event completed_event
  completed_lem =
      let pl = payload_length in
      let lr = length-append last cursor in
      let fits : ltb 100 (length (request_id ++ (last ++ cursor))) ≡ false = ground arith in
      let more : leb hash_length (length (last ++ cursor)) ≡ true = ground arith in
      let has_cursor : leb cursor_size (length cursor) ≡ true = ground arith in
      rw
        (
          fits,
          extract-append request_id (last ++ cursor) hash_length id_length,
          more,
          extract-append last cursor hash_length last_length,
          has_cursor,
        )
        refl

  not_failed :
      bytes_equal (take prefix_length (request_id ++ (last ++ cursor))) failed_prefix ≡ false
      → try_failed_event node (request_id ++ (last ++ cursor)) ≡ no_event
  unfolding try_failed_event extract_prefix
  not_failed other =
      let pl = payload_length in
      let long : ltb (length (request_id ++ (last ++ cursor))) (hash_length + prefix_length)
          ≡ false =
        ground arith in
      let six : leb prefix_length (length (request_id ++ (last ++ cursor))) ≡ true = ground arith in
      rw (long, six, other) refl

  -- The client reads a completed request with a cursor of 36 bytes back, unless the payload, and so
  -- the hash of the request, begins with the six bytes that mark a failure.
  pub completed_roundtrip :
      bytes_equal (take prefix_length (completed_payload request_id last cursor)) failed_prefix
        ≡ false
      → create_mail_server_event node (completed_payload request_id last cursor)
        ≡ event
            (record { peer = node; request_id = request_id; answer = completed last (some cursor) })
  unfolding create_mail_server_event completed_payload
  completed_roundtrip other =
      let pl = payload_length in
      let long : ltb (length (request_id ++ (last ++ cursor))) hash_length ≡ false = ground arith in
      rw (long, not_failed other, completed_lem) refl

  -- A hash of a request that does begin with them makes the client take success for failure.
  pub completed_misread :
      bytes_equal (take prefix_length (completed_payload request_id last cursor)) failed_prefix
        ≡ true
      → (id text : List ℕ) × (create_mail_server_event node
            (completed_payload request_id last cursor)
          ≡ event (record { peer = node; request_id = id; answer = failed text }))
  unfolding create_mail_server_event completed_payload try_failed_event extract_prefix
  completed_misread same =
      let pl = payload_length in
      let payload : List ℕ = request_id ++ (last ++ cursor) in
      let dl = length-drop 6 payload in
      let long : ltb (length payload) hash_length ≡ false = ground arith in
      let longer : ltb (length payload) (hash_length + prefix_length) ≡ false = ground arith in
      let six : leb prefix_length (length payload) ≡ true = ground arith in
      let more : leb hash_length (length (drop prefix_length payload)) ≡ true = ground arith in
      (
        take hash_length (drop prefix_length payload),
        drop hash_length (drop prefix_length payload),
        rw (long, longer, six, same, more) refl,
      )
