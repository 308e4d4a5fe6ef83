-- ===== src/Encryption/Roundtrip.antt =====
-- What the sender encrypts with a key, the receiver decrypts with it.
use whisper.Base.{
  ℕ, ◌-◌, ◌≡◌, refl, sym, ap, ◌∙◌, some_inj, none_is_some, List, ◌++◌, true, false, not, Option,
  none, some, ltb, arith, Bool-cases, inl, inr, if◌then◌else◌, length, take, drop, length-append,
  take-length_append, drop-length_append,
}
use whisper.Bytes.{validate_data_integrity}
use whisper.Constants.{aes_key_length, aes_nonce_length}
use whisper.Encryption.{generate_secure_random_data, xor_all, encrypt_symmetric, decrypt_symmetric}
use whisper.Message.{ReceivedMessage}
use whisper.Platform.{Platform}

checked_length :
    (res salt : List ℕ) (n : ℕ)
    → (if not (validate_data_integrity res n) then none else some res) ≡ some salt
    → length salt ≡ n
unfolding validate_data_integrity
checked_length res salt n e = ground arith

-- What passes for random data has the length that was asked for.
pub generate-length :
    (n : ℕ) (x y : Option (List ℕ)) (salt : List ℕ)
    → generate_secure_random_data n x y ≡ some salt
    → length salt ≡ n
unfolding generate_secure_random_data
generate-length n none y salt e = absurd (none_is_some e)
generate-length n (some x) none salt e = absurd (none_is_some e)
generate-length n (some x) (some y) salt e = elim (Bool-cases (validate_data_integrity x n)) [
  | inr c ↦ absurd (none_is_some (rw c at e))
  | inl c ↦ elim (Bool-cases (validate_data_integrity y n)) [
    | inr d ↦ absurd (none_is_some (rw (c, d) at e))
    | inl d ↦ checked_length (xor_all x y) salt n (rw (c, d) at e)
  ]
]

module _ (P : Platform) where
  decrypt_sealed :
      (salt key sealed text : List ℕ) (msg : ReceivedMessage P)
      → length salt ≡ aes_nonce_length
      → P.accepts_key key ≡ true
      → P.gcm_open key salt sealed ≡ some text
      → msg.raw ≡ sealed ++ salt
      → decrypt_symmetric P key msg ≡ some (record msg { raw = text; salt = salt })
  unfolding decrypt_symmetric
  decrypt_sealed salt key sealed text msg l a o e =
      let la = length-append sealed salt in
      let cut : length (sealed ++ salt) - aes_nonce_length ≡ length sealed = omega arith in
      let long : ltb (length msg.raw) aes_nonce_length ≡ false = rw e (ground arith) in
      let d : drop (length msg.raw - aes_nonce_length) msg.raw ≡ salt =
        rw (e, cut) (drop-length_append sealed salt) in
      let t : take (length msg.raw - aes_nonce_length) msg.raw ≡ sealed =
        rw (e, cut) (take-length_append sealed salt) in
      rw (long, d, t, a, o) (ap (λ x. some (record msg { raw = text; salt = x })) d)

  -- A message that was encrypted with a symmetric key and a fresh nonce is decrypted with that key
  -- to the same bytes, and its salt is the nonce. The cipher is assumed to open what it sealed with
  -- the same key and nonce.
  pub decrypt-encrypt_symmetric :
      (key raw encrypted : List ℕ) (x y salt : Option (List ℕ)) (msg : ReceivedMessage P)
      → ((k nonce text : List ℕ) → P.gcm_open k nonce (P.gcm_seal k nonce text) ≡ some text)
      → generate_secure_random_data aes_nonce_length x y ≡ salt
      → encrypt_symmetric P salt key raw ≡ some encrypted
      → msg.raw ≡ encrypted
      → (nonce : List ℕ) × (salt ≡ some nonce)
        × (decrypt_symmetric P key msg ≡ some (record msg { raw = raw; salt = nonce }))
  unfolding encrypt_symmetric
  decrypt-encrypt_symmetric key raw encrypted x y none msg law g e m = absurd (ground (arith, e))
  decrypt-encrypt_symmetric key raw encrypted x y (some s) msg law g e m =
      elim (Bool-cases (validate_data_integrity key aes_key_length)) [
        | inr c ↦ absurd (none_is_some (rw c at e))
        | inl c ↦ elim (Bool-cases (P.accepts_key key)) [
          | inr d ↦ absurd (none_is_some (rw (c, d) at e))
          | inl d ↦
              let same : P.gcm_seal key s raw ++ s ≡ encrypted = some_inj (rw (c, d) at e) in
              (
                s,
                refl,
                decrypt_sealed s key (P.gcm_seal key s raw) raw msg
                    (generate-length aes_nonce_length x y s g) d (law key s raw) (m ∙ sym same),
              )
        ]
      ]
