-- ===== src/Received/Total.antt =====
-- `ValidateAndParse` never indexes out of range.
use whisper.Base.{
  List-cases, ℕ, suc, ◌+◌, ◌-◌, ◌≤◌, ◌<◌, ◌≡◌, refl, List, [], ◌∷◌, Bool, true, false, none, some,
  arith, ltb, leb, length, take, drop, Option, Bool-cases, some_inj, sym, ◌∙◌, Option-cases, inl,
  inr, ◌==◌, bit_and, ap,
}
use whisper.Bytes.{slice, bytes_to_uint_little_endian}
use whisper.Constants.{signature_length, size_mask}
use whisper.Platform.{Platform}
use whisper.Message.{ReceivedMessage, is_message_signed}
use whisper.Received.{
  parse_padding, parse_sized, parse_payload, parse_signed, parse_from, validate_and_parse,
  sig_to_pub_key, ◌>>=◌,
}

pub slice-some :
    (b : List ℕ) (lo hi : ℕ)
    → lo ≤ hi
    → hi ≤ length b
    → slice b lo hi ≡ some (take (hi - lo) (drop lo b))
unfolding slice
slice-some b lo hi p q = ground arith

module _ (P : Platform) where
  not_parsed :
      {m r : ReceivedMessage P}
      → ◌≡◌ {A = Option (ReceivedMessage P × Bool)} (some (m, false)) (some (r, true))
      → ⊥
  not_parsed h =
      let x = ap (λ (y : ReceivedMessage P × Bool). y.1) (some_inj h) in absurd (ground (arith, x))

  parse_padding_total :
      (msg : ReceivedMessage P) (beg end : ℕ)
      → beg ≤ end
      → end ≤ length msg.raw
      → (r : ReceivedMessage P) × (b : Bool) × (parse_padding P msg beg end ≡ some (r, b))
        × (r.raw ≡ msg.raw)
  unfolding parse_padding
  parse_padding_total msg beg end p q = (
    record msg { padding = take (end - beg) (drop beg msg.raw) },
    true,
    rw (slice-some msg.raw beg end p q),
    refl,
  )

  -- The payload slice is in range when both tests before it fail.
  parse_sized_total :
      (msg : ReceivedMessage P) (size end : ℕ)
      → end ≤ length msg.raw
      → 1 + size ≤ end
      → (r : ReceivedMessage P) × (b : Bool) × (parse_sized P msg size end ≡ some (r, b))
        × (r.raw ≡ msg.raw)
  unfolding parse_sized
  parse_sized_total msg size end q h =
      let field : List ℕ = take (1 + size - 1) (drop 1 msg.raw) in
      let n : ℕ = bytes_to_uint_little_endian field in
      let payload : List ℕ = take (1 + size + n - (1 + size)) (drop (1 + size) msg.raw) in
      rw (slice-some msg.raw 1 (1 + size) (omega arith) (omega arith))
        (elim (Bool-cases (ltb end (1 + size + n))) [
          | inl g ↦ (msg, false, rw (g, ◌>>=◌), refl)
          | inr g ↦
              let fits : 1 + size + n ≤ end = ground arith in
              rw (g, slice-some msg.raw (1 + size) (1 + size + n) (omega arith) (omega arith))
                (parse_padding_total (record msg { payload = payload }) (1 + size + n) end fits q)
        ])

  parse_payload_total :
      (msg : ReceivedMessage P) (flags end : ℕ)
      → 1 ≤ end
      → end ≤ length msg.raw
      → (r : ReceivedMessage P) × (b : Bool) × (parse_payload P msg flags end ≡ some (r, b))
        × (r.raw ≡ msg.raw)
  unfolding parse_payload
  parse_payload_total msg flags end p q =
      let size : ℕ = bit_and flags size_mask in
      elim (Bool-cases (size == 0)) [
        | inl e ↦ rw e (parse_padding_total msg 1 end p q)
        | inr e ↦ elim (Bool-cases (ltb end (1 + size))) [
          | inl f ↦ (msg, false, rw (e, f), refl)
          | inr f ↦ rw (e, f) (parse_sized_total msg size end q (ground arith))
        ]
      ]

  parse_signed_total :
      (msg : ReceivedMessage P) (flags end : ℕ)
      → end ≡ length msg.raw - signature_length
      → (r : ReceivedMessage P) × (b : Bool) × (parse_signed P msg flags end ≡ some (r, b))
        × (r.raw ≡ msg.raw)
  unfolding parse_signed
  parse_signed_total msg flags end p = elim (Bool-cases (leb end 1)) [
    | inl e ↦ (msg, false, rw e, refl)
    | inr e ↦
        let long : 1 < end = ground arith in
        let sig : List ℕ = take (end + signature_length - end) (drop end msg.raw) in
        let m : ReceivedMessage P = record msg { signature = sig } in
        rw (e, slice-some msg.raw end (end + signature_length) (omega arith) (omega arith))
          (elim (Option-cases (sig_to_pub_key P m)) [
            | inl f ↦ (record m { src = none }, false, rw (f, ◌>>=◌), refl)
            | inr (k, f) ↦
                rw (f, ◌>>=◌)
                  (parse_payload_total (record m { src = some k }) flags end (omega arith)
                    (omega arith))
          ])
  ]

  parse_from_total :
      (raw : List ℕ) (msg : ReceivedMessage P)
      → msg.raw ≡ raw
      → (r : ReceivedMessage P) × (b : Bool) × (parse_from P raw msg ≡ some (r, b))
        × (r.raw ≡ msg.raw)
  unfolding parse_from
  parse_from_total [] msg e = (msg, false, refl, refl)
  parse_from_total (flags ∷ rest) msg e =
      let l : length msg.raw ≡ suc (length rest) = ap length e in
      elim (Bool-cases (is_message_signed flags)) [
        | inl s ↦ rw s (parse_signed_total msg flags _ (omega arith))
        | inr s ↦ rw s (parse_payload_total msg flags _ (omega arith) (omega arith))
      ]

  -- A message that parses has a byte of flags.
  pub validate_and_parse-full :
      (msg r : ReceivedMessage P) → validate_and_parse P msg ≡ some (r, true) → 1 ≤ length r.raw
  unfolding validate_and_parse
  validate_and_parse-full msg r h = elim (List-cases msg.raw) [
    | inl n ↦ absurd (not_parsed (rw (n, validate_and_parse, parse_from) at h))
    | inr (flags, rest, n) ↦
        let (r', b, e, same) = parse_from_total msg.raw msg refl in
        let x = ap (λ (y : ReceivedMessage P × Bool). y.0) (some_inj (sym e ∙ h)) in
        let raw : r.raw ≡ flags ∷ rest = rw (← x) (same ∙ n) in rw raw (omega arith)
  ]

  -- Whatever the decrypted bytes are, `ValidateAndParse` returns: no index is out of range.
  pub validate_and_parse_total :
      (msg : ReceivedMessage P)
      → (r : ReceivedMessage P) × (b : Bool) × (validate_and_parse P msg ≡ some (r, b))
  unfolding validate_and_parse
  validate_and_parse_total msg = let (r, b, e, _) = parse_from_total msg.raw msg refl in (r, b, e)
