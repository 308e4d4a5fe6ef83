-- ===== src/Received/Roundtrip.antt =====
-- `ValidateAndParse` takes apart what `NewSentMessage` and `sign` put together.
use mathlib.Core.List.{append_assoc, append-nil}
use whisper.Base.{
  ℕ, suc, ◌+◌, ◌-◌, ◌<◌, ◌≡◌, refl, sym, List, [], ◌∷◌, ◌++◌, true, false, Option, none, some,
  arith, length, ◌∙◌, ap, bit_or, bit_and, ◌==◌, ltb, leb, length-append, take-length_append,
  drop-length_append,
}
use whisper.Base.Outcome.{ok}
use whisper.Bytes.{slice}
use whisper.Constants.{signature_length, size_mask, signature_flag}
use whisper.Platform.{Platform}
use whisper.Message.{ReceivedMessage, MessageParams, is_message_signed, new_sent_message, sign}
use whisper.Message.Sizes.{SizeField, size_field}
use whisper.Message.Build.{Padded, unsigned_flags, signed_flags, new_sent_message-ok, sign-ok}
use whisper.Received.{
  parse_padding, parse_sized, parse_payload, parse_signed, parse_from, validate_and_parse,
  sig_to_pub_key, hash,
}
use whisper.Received.Total.{slice-some}

slice-append : (a b c : List ℕ) → slice (a ++ (b ++ c)) (length a) (length a + length b) ≡ some b
slice-append a b c =
    let l = length-append a (b ++ c) in
    let m = length-append b c in
    let e : length a + length b - length a ≡ length b = omega arith in
    slice-some (a ++ (b ++ c)) (length a) (length a + length b) (omega arith) (omega arith)
    ∙ rw (e, drop-length_append a (b ++ c), take-length_append b c)

slice_at :
    (a b c : List ℕ) {lo hi : ℕ} {raw : List ℕ}
    → raw ≡ a ++ (b ++ c)
    → lo ≡ length a
    → hi ≡ length a + length b
    → slice raw lo hi ≡ some b
slice_at a b c e p q = rw (e, p, q) (slice-append a b c)

module _ (P : Platform) where
  -- The body of a message, whatever follows it.
  parse_payload-layout :
      (msg : ReceivedMessage P) (flags end : ℕ) {size : ℕ} {field payload : List ℕ}
      (pad tail : List ℕ)
      → SizeField (length payload) size field
      → bit_and flags size_mask ≡ size
      → msg.raw ≡ flags ∷ (field ++ (payload ++ (pad ++ tail)))
      → end ≡ suc (length field + (length payload + length pad))
      → parse_payload P msg flags end ≡ some (record msg { payload = payload; padding = pad }, true)
  unfolding parse_payload parse_sized parse_padding
  parse_payload-layout msg flags end {size} {field} {payload} pad tail f fl raw e =
      let len = f.length_eq in
      let three = f.size_one_to_three in
      let n = length payload in
      let pos : (size == 0) ≡ false = ground arith in
      let fits : ltb end (1 + size) ≡ false = ground arith in
      let fits' : ltb end (1 + size + n) ≡ false = ground arith in
      let regroup : flags ∷ (field ++ (payload ++ (pad ++ tail)))
          ≡ (flags ∷ (field ++ payload)) ++ (pad ++ tail) =
        ap (λ l. flags ∷ l) (sym (append_assoc field payload (pad ++ tail))) in
      let l = length-append field payload in
      let s1 : slice msg.raw 1 (1 + size) ≡ some field =
        slice_at (flags ∷ []) field (payload ++ (pad ++ tail)) raw refl (omega arith) in
      let s2 : slice msg.raw (1 + size) (1 + size + n) ≡ some payload =
        slice_at (flags ∷ field) payload (pad ++ tail) raw (omega arith) (omega arith) in
      let s3 : slice msg.raw (1 + size + n) end ≡ some pad =
        slice_at (flags ∷ (field ++ payload)) pad tail (raw ∙ regroup) (omega arith)
          (omega arith) in
      rw (fl, pos, fits, s1, f.value_eq, fits', s2, s3) refl

  parse_from-unsigned :
      (msg : ReceivedMessage P) {raw rest : List ℕ} (flags : ℕ)
      → raw ≡ flags ∷ rest
      → is_message_signed flags ≡ false
      → parse_from P raw msg ≡ parse_payload P msg flags (suc (length rest))
  unfolding parse_from
  parse_from-unsigned msg flags e u = ap (λ r. parse_from P r msg) e ∙ rw u

  parse_from-signed :
      (msg : ReceivedMessage P) {raw rest : List ℕ} (flags : ℕ)
      → raw ≡ flags ∷ rest
      → is_message_signed flags ≡ true
      → parse_from P raw msg ≡ parse_signed P msg flags (suc (length rest) - signature_length)
  unfolding parse_from
  parse_from-signed msg flags e u = ap (λ r. parse_from P r msg) e ∙ rw u

  -- A message that nobody signed: the receiver gets the payload and the padding back, and takes
  -- the sender for unknown.
  pub parse-new_sent_message :
      (random : ℕ → Option (List ℕ)) (params : MessageParams P) (msg : ReceivedMessage P)
      → length params.payload < 16777216
      → new_sent_message P random params ≡ ok msg.raw
      → (pad : List ℕ) × Padded P params pad
        × (validate_and_parse P msg
            ≡ some (record msg { payload = params.payload; padding = pad }, true))
  unfolding validate_and_parse
  parse-new_sent_message random params msg small sent =
      let (size, field, f) = size_field (length params.payload) small in
      let (pad, how, e) = new_sent_message-ok P random params f sent in
      let (_, unsigned, fl) = unsigned_flags size f.size_one_to_three in
      let e' : msg.raw ≡ size ∷ (field ++ (params.payload ++ (pad ++ []))) = rw append-nil e in
      let l : suc (length (field ++ (params.payload ++ pad)))
          ≡ suc (length field + (length params.payload + length pad)) =
        omega
          (arith, length-append field (params.payload ++ pad), length-append params.payload pad) in
      (
        pad,
        how,
        parse_from-unsigned msg size e unsigned ∙ parse_payload-layout msg size _ pad [] f fl e' l,
      )

  hash-signed :
      {raw : List ℕ} (flags : ℕ) (body sig : List ℕ)
      → raw ≡ flags ∷ (body ++ sig)
      → is_message_signed flags ≡ true
      → length sig ≡ signature_length
      → hash P raw ≡ some (P.keccak256 (flags ∷ body))
  unfolding hash
  hash-signed {raw} flags body sig e signed l =
      let s : slice (flags ∷ (body ++ sig)) 0 (suc (length (body ++ sig)) - signature_length)
          ≡ some (flags ∷ body) =
        slice_at [] (flags ∷ body) sig refl refl (omega (arith, length-append body sig)) in
      ap (hash P) e ∙ rw (signed, s) refl

  -- The signature that a signed message carries at its end, and the key that it stands for.
  parse_signed-layout :
      (msg : ReceivedMessage P) (flags end : ℕ) (body sig : List ℕ) {k : P.PublicKey}
      → msg.raw ≡ flags ∷ (body ++ sig)
      → is_message_signed flags ≡ true
      → length sig ≡ signature_length
      → end ≡ suc (length body)
      → 0 < length body
      → P.recover_key (P.keccak256 (flags ∷ body)) sig ≡ some k
      → parse_signed P msg flags end
        ≡ parse_payload P (record msg { signature = sig; src = some k }) flags end
  unfolding parse_signed sig_to_pub_key
  parse_signed-layout msg flags end body sig {k} raw signed l e pos rec =
      let long : leb end 1 ≡ false = ground arith in
      let tail : msg.raw ≡ (flags ∷ body) ++ (sig ++ []) = rw append-nil raw in
      let s : slice msg.raw end (end + signature_length) ≡ some sig =
        slice_at (flags ∷ body) sig [] tail e (omega arith) in
      rw (long, s, hash-signed flags body sig raw signed l, rec) refl

  -- A signed message: besides payload and padding the receiver gets the signature, and the
  -- signer's public key for the sender. Assumed of crypto.Sign and crypto.SigToPub: a signature
  -- has 65 bytes, and the key recovered from it is the signer's.
  pub parse-sign :
      (random : ℕ → Option (List ℕ)) (params : MessageParams P) (msg : ReceivedMessage P)
      (unsigned : List ℕ) (key : P.PrivateKey)
      → ((h : ℕ) (k : P.PrivateKey) (s : List ℕ)
          → P.ec_sign h k ≡ some s
          → (length s ≡ signature_length) × (P.recover_key h s ≡ some (P.public_key k)))
      → length params.payload < 16777216
      → new_sent_message P random params ≡ ok unsigned
      → sign P unsigned key ≡ some (msg.raw, none)
      → (pad signature : List ℕ) × Padded P params pad
        × (validate_and_parse P msg
            ≡ some (
              record msg {
                payload = params.payload;
                padding = pad;
                signature = signature;
                src = some (P.public_key key);
              },
              true,
            ))
  unfolding validate_and_parse
  parse-sign random params msg unsigned key law small sent signed =
      let (size, field, f) = size_field (length params.payload) small in
      let (pad, how, e) = new_sent_message-ok P random params f sent in
      let (_, u, _) = unsigned_flags size f.size_one_to_three in
      let (v, fl) = signed_flags size f.size_one_to_three in
      let body : List ℕ = field ++ (params.payload ++ pad) in
      let (sig, made, raw) = sign-ok P size body key u (rw e at signed) in
      let (len, rec) = law _ key sig made in
      let flags : ℕ = bit_or size signature_flag in
      let ll = length-append field (params.payload ++ pad) in
      let lp = length-append params.payload pad in
      let lb = length-append body sig in
      let m : ReceivedMessage P = record msg { signature = sig; src = some (P.public_key key) } in
      let raw' : msg.raw ≡ flags ∷ (field ++ (params.payload ++ (pad ++ sig))) =
        raw
        ∙ ap (λ l. flags ∷ l)
            (append_assoc field (params.payload ++ pad) sig
              ∙ ap (λ l. field ++ l) (append_assoc params.payload pad sig)) in
      let end : ℕ = suc (length (body ++ sig)) - signature_length in
      let e1 : end ≡ suc (length body) = omega arith in
      let three = f.size_one_to_three in
      let fieldlen = f.length_eq in
      let pos : 0 < length body = omega arith in
      (
        pad,
        sig,
        how,
        parse_from-signed msg flags raw v
            ∙ parse_signed-layout msg flags end body sig raw v len e1 pos rec
            ∙ parse_payload-layout m flags end pad sig f fl raw' (omega arith),
      )
