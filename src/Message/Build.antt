-- ===== src/Message/Build.antt =====
-- What `NewSentMessage` and `sign` lay out (whisperv6/message.go).
use mathlib.Core.List.{append_assoc}
use whisper.Base.{
  ℕ, ◌+◌, ◌-◌, ◌%◌, ◌≤◌, ◌<◌, ◌≡◌, ◌≢◌, refl, List, [], ◌∷◌, ◌++◌, true, false, Option, none, some,
  arith, length, take, if◌then◌else◌, ◌∙◌, ap, ◌⊎◌, inl, inr, bit_or, bit_and, ◌==◌, Bool-cases,
  Option-cases, length-append,
}
use whisper.Base.Outcome.{ok}
use whisper.Bytes.{slice, validate_data_integrity}
use whisper.Constants.{signature_length, pad_size_limit, signature_flag}
use whisper.Platform.{Platform}
use whisper.Message.{
  get_size_of_payload_size_field, put_uint32, add_payload_size_field, MessageParams, is_some,
  raw_size, append_padding, new_sent_message, is_message_signed, sign,
}
use whisper.Message.Sizes.{SizeField, size_field, get_size_of_payload_size_field_lem}

-- The flag byte of a message with a size field of `size` bytes, unsigned and signed.
pub unsigned_flags :
    (size : ℕ)
    → (size ≡ 1) ⊎ ((size ≡ 2) ⊎ (size ≡ 3))
    → (bit_or 0 (size % 256) ≡ size) × (is_message_signed size ≡ false) × (bit_and size 3 ≡ size)
unfolding is_message_signed
unsigned_flags size (inl e) = rw e (refl, refl, refl)
unsigned_flags size (inr (inl e)) = rw e (refl, refl, refl)
unsigned_flags size (inr (inr e)) = rw e (refl, refl, refl)

pub signed_flags :
    (size : ℕ)
    → (size ≡ 1) ⊎ ((size ≡ 2) ⊎ (size ≡ 3))
    → (is_message_signed (bit_or size 4) ≡ true) × (bit_and (bit_or size 4) 3 ≡ size)
unfolding is_message_signed
signed_flags size (inl e) = rw e (refl, refl)
signed_flags size (inr (inl e)) = rw e (refl, refl)
signed_flags size (inr (inr e)) = rw e (refl, refl)

field_slice :
    (n size : ℕ)
    → (size ≡ 1) ⊎ ((size ≡ 2) ⊎ (size ≡ 3))
    → slice (put_uint32 n) 0 size ≡ some (take size (put_uint32 n))
unfolding slice
field_slice n size (inl e) = rw e
field_slice n size (inr (inl e)) = rw e
field_slice n size (inr (inr e)) = rw e

add_field :
    {size : ℕ} {field : List ℕ} (payload : List ℕ)
    → SizeField (length payload) size field
    → add_payload_size_field (0 ∷ []) payload ≡ ok (size ∷ field)
unfolding add_payload_size_field
add_field {size} {field} payload f =
    rw
      (
        f.size_eq,
        field_slice (length payload) size f.size_one_to_three,
        ← f.field_eq,
        (unsigned_flags size f.size_one_to_three).0,
      )
      refl

raw_size_lem :
    (P : Platform) (params : MessageParams P) {size : ℕ}
    → get_size_of_payload_size_field (length params.payload) ≡ size
    → raw_size P params
      ≡ 1 + size + length params.payload + (if is_some params.src then signature_length else 0)
unfolding raw_size
raw_size_lem P params e = rw e (ground arith)

signed_four : is_message_signed signature_flag ≡ true
unfolding is_message_signed
signed_four = refl

add_four :
    (payload : List ℕ)
    → get_size_of_payload_size_field (length payload) ≡ 4
    → add_payload_size_field (0 ∷ []) payload ≡ ok (4 ∷ put_uint32 (length payload))
unfolding add_payload_size_field slice
add_four payload e = rw e

sign_four :
    (P : Platform) (rest : List ℕ) (key : P.PrivateKey)
    → sign P (signature_flag ∷ rest) key ≡ some (signature_flag ∷ rest, none)
unfolding sign is_message_signed
sign_four P rest key = refl

-- The padding that a message gets: the given one, or random bytes up to the next multiple of 256.
pub data Padded (P : Platform) (params : MessageParams P) (pad : List ℕ) : Type 0 where
  given : length params.padding ≢ 0 → pad ≡ params.padding → Padded P params pad
  filled :
      length params.padding ≡ 0
      → length pad ≡ pad_size_limit - raw_size P params % pad_size_limit
      → Padded P params pad

validate-length : (k : List ℕ) (n : ℕ) → validate_data_integrity k n ≡ true → length k ≡ n
unfolding validate_data_integrity
validate-length k n h = ground arith

module _ (P : Platform) (random : ℕ → Option (List ℕ)) (params : MessageParams P) where
  append_padding-ok :
      (raw : List ℕ) {r : List ℕ}
      → append_padding P random raw params ≡ ok r
      → (pad : List ℕ) × Padded P params pad × (r ≡ raw ++ pad)
  unfolding append_padding
  append_padding-ok raw {r} h = elim (Bool-cases (length params.padding == 0)) [
    | inr e ↦ (params.padding, given (ground arith) refl, ground arith)
    | inl e ↦
        let n : ℕ = pad_size_limit - raw_size P params % pad_size_limit in
        elim (Option-cases (random n)) [
          | inl f ↦ absurd (ground arith)
          | inr (pad, f) ↦ elim (Bool-cases (validate_data_integrity pad n)) [
            | inl g ↦ (pad, filled (ground arith) (validate-length pad n g), ground arith)
            | inr g ↦ absurd (ground arith)
          ]
        ]
  ]

  -- The layout of a message below 2^24 bytes of payload.
  pub new_sent_message-ok :
      {size : ℕ} {field raw : List ℕ}
      → SizeField (length params.payload) size field
      → new_sent_message P random params ≡ ok raw
      → (pad : List ℕ) × Padded P params pad × (raw ≡ size ∷ (field ++ (params.payload ++ pad)))
  unfolding new_sent_message
  new_sent_message-ok {size} {field} {raw} f h =
      let h' : append_padding P random (size ∷ (field ++ params.payload)) params ≡ ok raw =
        (rw (add_field params.payload f) at h) in
      let (pad, how, e) = append_padding-ok (size ∷ (field ++ params.payload)) h' in
      (pad, how, e ∙ ap (λ l. size ∷ l) (append_assoc field params.payload pad))

-- A message without a signature, and the signature that was put on it.
pub sign-ok :
    (P : Platform) (flags : ℕ) (rest : List ℕ) {raw : List ℕ} (key : P.PrivateKey)
    → is_message_signed flags ≡ false
    → sign P (flags ∷ rest) key ≡ some (raw, none)
    → (signature : List ℕ) × (P.ec_sign (P.keccak256 (bit_or flags signature_flag ∷ rest)) key
        ≡ some signature)
      × (raw ≡ bit_or flags signature_flag ∷ (rest ++ signature))
unfolding sign
sign-ok P flags rest {raw} key u h =
    elim (Option-cases (P.ec_sign (P.keccak256 (bit_or flags signature_flag ∷ rest)) key)) [
      | inl e ↦ absurd (ground arith)
      | inr (sig, e) ↦ (sig, e, ground arith)
    ]

-- A message without padding of its own is filled up so that with its signature it comes to whole
-- blocks of 256 bytes.
pub length-new_sent_message :
    (P : Platform) (random : ℕ → Option (List ℕ)) (params : MessageParams P) (raw : List ℕ)
    → length params.payload < 16777216
    → length params.padding ≡ 0
    → new_sent_message P random params ≡ ok raw
    → (length raw + (if is_some params.src then signature_length else 0)) % pad_size_limit ≡ 0
length-new_sent_message P random params raw small none_given sent =
    let (size, field, f) = size_field (length params.payload) small in
    let (pad, how, e) = new_sent_message-ok P random params f sent in
    let l = length-append field (params.payload ++ pad) in
    let l' = length-append params.payload pad in
    let l'' = ap length e in
    let len = f.length_eq in
    let rs : raw_size P params
        ≡ 1 + size + length params.payload + (if is_some params.src then signature_length else 0) =
      raw_size_lem P params f.size_eq in
    elim how [
      | given h _ ↦ absurd (h none_given)
      | filled _ h ↦ omega (arith, h, rs, l, l', l'', len)
    ]

-- From 2^24 bytes of payload on the size field takes four bytes, and its size, written over the
-- flags, is the signature flag: a message that nobody signed, here one with a padding of its own,
-- claims to be signed, and `sign` leaves it as it is and reports no error.
pub oversized_payload :
    (P : Platform) (random : ℕ → Option (List ℕ)) (params : MessageParams P)
    → 16777216 ≤ length params.payload
    → length params.payload < 4294967296
    → length params.padding ≢ 0
    → (rest : List ℕ) × (new_sent_message P random params ≡ ok (signature_flag ∷ rest))
      × (is_message_signed signature_flag ≡ true)
      × ((key : P.PrivateKey)
          → sign P (signature_flag ∷ rest) key ≡ some (signature_flag ∷ rest, none))
unfolding new_sent_message append_padding
oversized_payload P random params big bound own =
    let n = length params.payload in
    let four : get_size_of_payload_size_field n ≡ 4 =
      get_size_of_payload_size_field_lem n bound ∙ ground arith in
    let rest : List ℕ = (put_uint32 n ++ params.payload) ++ params.padding in
    let given_padding : (length params.padding == 0) ≡ false = ground arith in
    (
      rest,
      rw (add_four params.payload four, given_padding) refl,
      signed_four,
      λ key. sign_four P rest key,
    )
