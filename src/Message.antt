-- ===== src/Message.antt =====
-- Messages (whisperv6/message.go): how the sender lays a message out, and how the receiver takes
-- the decrypted bytes apart. Cryptography and randomness are arguments.
pub mod Sizes
pub mod Build
use whisper.Base.{
  ℕ, zero, suc, ◌+◌, ◌-◌, ◌*◌, ◌/◌, ◌%◌, bit_and, bit_or, bit_xor, List, [], ◌∷◌, ◌++◌, Bool, true,
  false, not, ◌&&◌, ◌||◌, Option, none, some, ltb, leb, ◌==◌, if◌then◌else◌, length, take,
}
use whisper.Base.Outcome.{Outcome, ok, err, panic, ◌>>=◌, ◌>>◌}
use whisper.Bytes.{slice, validate_data_integrity, bytes_to_uint_little_endian}
use whisper.Constants.{flags_length, signature_length, signature_flag, size_mask, pad_size_limit}
use whisper.Platform.{Platform}
use whisper.Topic.{Topic}

-- `isMessageSigned`
unfoldable pub is_message_signed : ℕ → Bool
is_message_signed flags = not (bit_and flags signature_flag == 0)

-- `for i := len(payload); i >= 256; i /= 256 { s++ }` on fuel.
size_loop : ℕ → ℕ → ℕ → ℕ
size_loop zero i s = s
size_loop (suc fuel) i s =
    let rest = size_loop fuel (i / 256) (s + 1) in if leb 256 i then rest else s

-- `getSizeOfPayloadSizeField`, of the payload's length, which is fuel enough.
unfoldable pub get_size_of_payload_size_field : ℕ → ℕ
unfolding size_loop
get_size_of_payload_size_field len = size_loop len len 1

-- `binary.LittleEndian.PutUint32`
abbrev pub put_uint32 : ℕ → List ℕ
put_uint32 v = v % 256 ∷ v / 256 % 256 ∷ v / 65536 % 256 ∷ v / 16777216 % 256 ∷ []

pub data SendError : Type 0 where
  random_failed random_weak sign_failed : SendError

-- `msg.Raw[0] |= f`
abbrev pub set_flag : ℕ → List ℕ → Outcome SendError (List ℕ)
set_flag f [] = panic
set_flag f (flags ∷ rest) = ok (bit_or flags f ∷ rest)

abbrev pub or_panic : Option (List ℕ) → Outcome SendError (List ℕ)
or_panic none = panic
or_panic (some b) = ok b

-- `addPayloadSizeField`; `field[:fieldSize]` panics beyond the four bytes.
unfoldable pub add_payload_size_field : List ℕ → List ℕ → Outcome SendError (List ℕ)
add_payload_size_field raw payload = do
  let field_size = get_size_of_payload_size_field (length payload)
  field ← or_panic (slice (put_uint32 (length payload)) 0 field_size)
  set_flag (field_size % 256) (raw ++ field)

-- `MessageParams`, but for the floating point of `PoW`, which the layout does not read.
pub record MessageParams (P : Platform) : Type 0 where
  pub ttl : ℕ
  pub src : Option P.PrivateKey
  pub dst : Option P.PublicKey
  pub key_sym : Option (List ℕ)
  pub topic : Topic
  pub work_time : ℕ
  pub pow : P.Float
  pub payload : List ℕ
  pub padding : List ℕ

abbrev pub is_some {ℓ} : {A : Type ℓ} → Option A → Bool
is_some none = false
is_some (some a) = true

module _ (P : Platform) where
  -- `rawSize` of `appendPadding`
  unfoldable pub raw_size : MessageParams P → ℕ
  raw_size params =
      let size =
        flags_length
        + get_size_of_payload_size_field (length params.payload)
        + length params.payload in
      if is_some params.src then size + signature_length else size

  -- `appendPadding`; `random n` is what `crand.Read` fills a slice of `n` bytes with, if it does.
  unfoldable pub append_padding :
      (ℕ → Option (List ℕ)) → List ℕ → MessageParams P → Outcome SendError (List ℕ)
  append_padding random raw params =
      if not (length params.padding == 0)
      then ok (raw ++ params.padding)
      else let padding_size = pad_size_limit - raw_size params % pad_size_limit in
        elim (random padding_size) [
          | none ↦ err random_failed
          | some pad ↦
              if validate_data_integrity pad padding_size then ok (raw ++ pad) else err random_weak
        ]

  -- `NewSentMessage`
  unfoldable pub new_sent_message :
      (ℕ → Option (List ℕ)) → MessageParams P → Outcome SendError (List ℕ)
  new_sent_message random params = do
    raw ← add_payload_size_field (0 ∷ []) params.payload
    append_padding random (raw ++ params.payload) params

  -- What `sign` does to an unsigned message: the bytes afterwards, with the error if there is one.
  unfoldable pub sign_unsigned : ℕ → List ℕ → P.PrivateKey → List ℕ × Option SendError
  sign_unsigned flags rest key =
      let raw = bit_or flags signature_flag ∷ rest in
      elim (P.ec_sign (P.keccak256 raw) key) [
        | none ↦ (
          bit_and (bit_or flags signature_flag) (bit_xor 0xff signature_flag) ∷ rest,
          some sign_failed,
        )
        | some signature ↦ (raw ++ signature, none)
      ]

  -- `(*sentMessage).sign`; `none` is the panic at a message of no byte.
  unfoldable pub sign : List ℕ → P.PrivateKey → Option (List ℕ × Option SendError)
  unfolding sign_unsigned
  sign [] key = none
  sign (flags ∷ rest) key =
      some (if is_message_signed flags then (flags ∷ rest, none) else sign_unsigned flags rest key)

-- `ReceivedMessage`
pub record ReceivedMessage (P : Platform) : Type 0 where
  pub raw : List ℕ
  pub payload : List ℕ
  pub padding : List ℕ
  pub signature : List ℕ
  pub salt : List ℕ
  pub pow : P.Float
  pub sent : ℕ
  pub ttl : ℕ
  pub src : Option P.PublicKey
  pub dst : Option P.PublicKey
  pub topic : Topic
  pub sym_key_hash : ℕ
  pub envelope_hash : ℕ
  pub p2p : Bool
