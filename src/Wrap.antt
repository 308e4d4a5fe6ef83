-- ===== src/Wrap.antt =====
-- The sender's side from message to envelope: `Wrap` of whisperv6/message.go.
pub mod Steps
pub mod Roundtrip
use whisper.Base.{ℕ, List, Bool, Option, none, some, ◌==◌, if◌then◌else◌}
use whisper.Constants.{default_ttl}
use whisper.Encryption.{encrypt_asymmetric, encrypt_symmetric}
use whisper.Envelope.{Envelope, new_envelope}
use whisper.Message.{MessageParams, SendError, sign}
use whisper.Platform.{Platform}
use whisper.Seal.{Sealed, sealed, too_slow, unfinished, seal}

pub data WrapError : Type 0 where
  unsigned : SendError → WrapError
  unencrypted no_proof_of_work : WrapError

-- What `Wrap` returns; it panics where `sign` does, and `still_sealing` is the end of the fuel.
pub data Wrapped (P : Platform) : Type 0 where
  wrapped : Envelope P → Wrapped P
  failed : WrapError → Wrapped P
  crashed : Wrapped P
  still_sealing : Wrapped P

-- What one call takes from outside: the seed of ecies, the salt of `encryptSymmetric`, the clock.
pub record Surroundings : Type 0 where
  pub seed : ℕ
  pub salt : Option (List ℕ)
  pub now : ℕ
  pub clock : ℕ → ℕ
  pub fuel : ℕ

module _ (P : Platform) where
  -- `options.TTL`, after the default is set.
  abbrev pub with_ttl : MessageParams P → MessageParams P
  with_ttl options = record options { ttl = if options.ttl == 0 then default_ttl else options.ttl }

  -- The signature, if there is a key for it: the message's bytes, with the error if there is one.
  unfoldable pub sign_for : MessageParams P → List ℕ → Option (List ℕ × Option SendError)
  sign_for options raw = elim options.src [ none ↦ some (raw, none) | some key ↦ sign P raw key ]

  -- The encryption; `none` is an error.
  unfoldable pub encrypt_for : Surroundings → MessageParams P → List ℕ → Option (List ℕ)
  encrypt_for around options raw = elim options.dst [
    | some key ↦ encrypt_asymmetric P around.seed key raw
    | none ↦ elim options.key_sym [
      | some key ↦ encrypt_symmetric P around.salt key raw
      | none ↦ none
    ]
  ]

  abbrev pub of_sealed : Sealed P → Wrapped P
  of_sealed (sealed e) = wrapped e
  of_sealed (too_slow e) = failed no_proof_of_work
  of_sealed unfinished = still_sealing

  -- What follows the signature.
  unfoldable pub wrap_signed : Surroundings → MessageParams P → List ℕ → Wrapped P
  unfolding encrypt_for
  wrap_signed around options raw = elim (encrypt_for around options raw) [
    | none ↦ failed unencrypted
    | some content ↦ of_sealed (
        seal P around.fuel around.clock options
          (new_envelope P options.ttl options.topic content around.now))
  ]

  -- `Wrap` of a message's bytes.
  unfoldable pub wrap : Surroundings → MessageParams P → List ℕ → Wrapped P
  unfolding sign_for wrap_signed
  wrap around options raw = elim (sign_for (with_ttl options) raw) [
    | none ↦ crashed
    | some (raw', some e) ↦ failed (unsigned e)
    | some (raw', none) ↦ wrap_signed around (with_ttl options) raw'
  ]
