-- ===== src/Encryption.antt =====
-- Encryption of messages (whisperv6/message.go) and what opening an envelope decrypts
-- (whisperv6/envelope.go).
pub mod Roundtrip
use whisper.Base.{
  ℕ, ◌-◌, bit_xor, List, [], ◌∷◌, ◌++◌, Bool, true, false, not, Option, none, some, ltb,
  if◌then◌else◌, length, take, drop,
}
use whisper.Bytes.{validate_data_integrity}
use whisper.Constants.{aes_key_length, aes_nonce_length}
use whisper.Envelope.{Envelope}
use whisper.Message.{ReceivedMessage}
use whisper.Platform.{Platform}
use whisper.Topic.{Topic}

-- The loop that mixes the two slices, of one length.
abbrev pub xor_all : List ℕ → List ℕ → List ℕ
xor_all [] y = []
xor_all (a ∷ x) [] = []
xor_all (a ∷ x) (b ∷ y) = bit_xor a b ∷ xor_all x y

-- `generateSecureRandomData`, of what the two generators gave; `none` is an error.
unfoldable pub generate_secure_random_data : ℕ → Option (List ℕ) → Option (List ℕ) → Option (List ℕ)
generate_secure_random_data n none y = none
generate_secure_random_data n (some x) none = none
generate_secure_random_data n (some x) (some y) =
    if not (validate_data_integrity x n)
    then none
    else if not (validate_data_integrity y n)
    then none
    else let res = xor_all x y in if not (validate_data_integrity res n) then none else some res

module _ (P : Platform) where
  -- `encryptAsymmetric` of the message's bytes; `none` is an error.
  unfoldable pub encrypt_asymmetric : ℕ → P.PublicKey → List ℕ → Option (List ℕ)
  encrypt_asymmetric seed key raw =
      if not (P.validate_public_key key) then none else P.ecies_encrypt seed key raw

  -- `encryptSymmetric`, where `salt` is what `generateSecureRandomData` gave.
  unfoldable pub encrypt_symmetric : Option (List ℕ) → List ℕ → List ℕ → Option (List ℕ)
  encrypt_symmetric salt key raw =
      if not (validate_data_integrity key aes_key_length)
      then none
      else if not (P.accepts_key key)
      then none
      else elim salt [ none ↦ none | some s ↦ some (P.gcm_seal key s raw ++ s) ]

  -- `decryptSymmetric`; `none` is an error.
  unfoldable pub decrypt_symmetric : List ℕ → ReceivedMessage P → Option (ReceivedMessage P)
  decrypt_symmetric key msg =
      if ltb (length msg.raw) aes_nonce_length
      then none
      else let cut = length msg.raw - aes_nonce_length in
        let salt = drop cut msg.raw in
        if not (P.accepts_key key) then none else elim (P.gcm_open key salt (take cut msg.raw)) [
          | none ↦ none
          | some decrypted ↦ some (record msg { raw = decrypted; salt = salt })
        ]

  -- `decryptAsymmetric`
  unfoldable pub decrypt_asymmetric : P.PrivateKey → ReceivedMessage P → Option (ReceivedMessage P)
  decrypt_asymmetric key msg = elim (P.ecies_decrypt key msg.raw) [
    | none ↦ none
    | some decrypted ↦ some (record msg { raw = decrypted })
  ]

  -- `&ReceivedMessage{Raw: e.Data}`
  abbrev pub message_of : Envelope P → ReceivedMessage P
  message_of e = record {
    raw = e.content;
    payload = [];
    padding = [];
    signature = [];
    salt = [];
    pow = P.zero_pow;
    sent = 0;
    ttl = 0;
    src = none;
    dst = none;
    topic = record { b0 = 0; b1 = 0; b2 = 0; b3 = 0 };
    sym_key_hash = 0;
    envelope_hash = 0;
    p2p = false;
  }

  -- `OpenAsymmetric`; `none` is an error.
  unfoldable pub open_asymmetric : P.PrivateKey → Envelope P → Option (ReceivedMessage P)
  unfolding decrypt_asymmetric
  open_asymmetric key e = decrypt_asymmetric key (message_of e)

  -- `OpenSymmetric`
  unfoldable pub open_symmetric : List ℕ → Envelope P → Option (ReceivedMessage P)
  unfolding decrypt_symmetric
  open_symmetric key e = decrypt_symmetric key (message_of e)
