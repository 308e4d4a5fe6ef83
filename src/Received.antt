-- ===== src/Received.antt =====
-- The receiver's side of whisperv6/message.go: `ValidateAndParse`, `SigToPubKey` and `hash`.
-- `none` as a result is a panic.
pub mod Total
pub mod Roundtrip
use whisper.Base.{
  ℕ, suc, ◌+◌, ◌-◌, bit_and, List, [], ◌∷◌, Bool, true, false, ◌||◌, Option, none, some, ltb, leb,
  ◌==◌, if◌then◌else◌, length,
}
use whisper.Bytes.{slice, bytes_to_uint_little_endian}
use whisper.Constants.{signature_length, size_mask}
use whisper.Platform.{Platform}
use whisper.Message.{ReceivedMessage, is_message_signed}

infixl 5 ◌>>=◌
abbrev ◌>>=◌ : {A B : Type 0} → Option A → (A → Option B) → Option B
none >>= f = none
some a >>= f = f a

module _ (P : Platform) where
  -- `(*ReceivedMessage).hash`, of the message's bytes
  unfoldable pub hash : List ℕ → Option ℕ
  hash [] = none
  hash (flags ∷ rest) =
      let raw = flags ∷ rest in
      if is_message_signed flags
      then (do sz ← slice raw 0 (length raw - signature_length); some (P.keccak256 sz))
      else some (P.keccak256 raw)

  -- `SigToPubKey`
  unfoldable pub sig_to_pub_key : ReceivedMessage P → Option P.PublicKey
  sig_to_pub_key msg = do h ← hash msg.raw; P.recover_key h msg.signature

  -- The end of `ValidateAndParse`: the padding is what the payload leaves.
  unfoldable pub parse_padding : ReceivedMessage P → ℕ → ℕ → Option (ReceivedMessage P × Bool)
  parse_padding msg beg end = do
    padding ← slice msg.raw beg end
    some (record msg { padding = padding }, true)

  -- Its middle: the payload, if a size field of `size` bytes announces one.
  unfoldable pub parse_sized : ReceivedMessage P → ℕ → ℕ → Option (ReceivedMessage P × Bool)
  parse_sized msg size end = do
    field ← slice msg.raw 1 (1 + size)
    let payload_size = bytes_to_uint_little_endian field
    let beg = 1 + size
    if ltb end (beg + payload_size) then some (msg, false) else do
      payload ← slice msg.raw beg (beg + payload_size)
      parse_padding (record msg { payload = payload }) (beg + payload_size) end

  unfoldable pub parse_payload : ReceivedMessage P → ℕ → ℕ → Option (ReceivedMessage P × Bool)
  parse_payload msg flags end =
      let size = bit_and flags size_mask in
      if size == 0
      then parse_padding msg 1 end
      else if ltb end (1 + size)
      then some (msg, false)
      else parse_sized msg size end

  -- Its signed case. `end` is an int in the source; where it would be negative there, it is 0
  -- here, and the test `end <= 1` answers the same.
  unfoldable pub parse_signed : ReceivedMessage P → ℕ → ℕ → Option (ReceivedMessage P × Bool)
  parse_signed msg flags end = if leb end 1 then some (msg, false) else do
    signature ← slice msg.raw end (end + signature_length)
    let msg' = record msg { signature = signature }
    elim (sig_to_pub_key msg') [
      | none ↦ some (record msg' { src = none }, false)
      | some src ↦ parse_payload (record msg' { src = some src }) flags end
    ]

  parse_from : List ℕ → ReceivedMessage P → Option (ReceivedMessage P × Bool)
  parse_from [] msg = some (msg, false)
  parse_from (flags ∷ rest) msg =
      if is_message_signed flags
      then parse_signed msg flags (suc (length rest) - signature_length)
      else parse_payload msg flags (suc (length rest))

  -- `ValidateAndParse`: the message with the fields that were set, and what it returned.
  unfoldable pub validate_and_parse : ReceivedMessage P → Option (ReceivedMessage P × Bool)
  unfolding parse_from
  validate_and_parse msg = parse_from msg.raw msg
