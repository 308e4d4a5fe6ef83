-- ===== src/Examples/Messages.antt =====
-- Messages at concrete parameters.
use whisper.Base.{
  ℕ, ◌+◌, ◌%◌, ◌≡◌, refl, length-replicate, List, [], ◌∷◌, Bool, true, false, Option, none, some,
  arith, length, replicate, if◌then◌else◌,
}
use whisper.Base.Outcome.{ok}
use whisper.Bytes.{slice, validate_data_integrity, contains_only_zeros}
use whisper.Constants.{signature_flag, signature_length, pad_size_limit}
use whisper.Message.{
  MessageParams, ReceivedMessage, new_sent_message, sign, is_some, get_size_of_payload_size_field,
  add_payload_size_field, append_padding, raw_size, is_message_signed,
}
use whisper.Message.Build.{Padded, length-new_sent_message, oversized_payload}
use whisper.Received.{validate_and_parse}
use whisper.Received.Roundtrip.{parse-sign}
use whisper.Received.Total.{validate_and_parse_total}
use whisper.Topic.{Topic}
use whisper.Examples.Values.{numbers}

abbrev topic : Topic
topic = record { b0 = 1; b1 = 2; b2 = 3; b3 = 4 }

abbrev params : MessageParams numbers
params = record {
  ttl = 10;
  src = some 5;
  dst = none;
  key_sym = none;
  topic = topic;
  work_time = 1;
  pow = 1;
  payload = 8 ∷ 9 ∷ [];
  padding = 1 ∷ 2 ∷ 3 ∷ [];
}

abbrev unpadded : MessageParams numbers
unpadded = record params { padding = [] }

abbrev ones : ℕ → Option (List ℕ)
ones n = some (replicate n 1)

abbrev received : List ℕ → ReceivedMessage numbers
received raw = record {
  raw = raw;
  payload = [];
  padding = [];
  signature = [];
  salt = [];
  pow = 0;
  sent = 0;
  ttl = 0;
  src = none;
  dst = none;
  topic = topic;
  sym_key_hash = 0;
  envelope_hash = 0;
  p2p = false;
}

abbrev laid_out : List ℕ
laid_out = 1 ∷ 2 ∷ 8 ∷ 9 ∷ 1 ∷ 2 ∷ 3 ∷ []

abbrev signed : List ℕ
signed = 5 ∷ 2 ∷ 8 ∷ 9 ∷ 1 ∷ 2 ∷ 3 ∷ 5 ∷ replicate 64 7

laid_out_is : new_sent_message numbers ones params ≡ ok laid_out
unfolding new_sent_message add_payload_size_field slice get_size_of_payload_size_field
    append_padding
laid_out_is = refl

abbrev filled_up : List ℕ
filled_up = 1 ∷ 2 ∷ 8 ∷ 9 ∷ replicate 187 1

filled_up_is : new_sent_message numbers ones unpadded ≡ ok filled_up
unfolding new_sent_message add_payload_size_field slice get_size_of_payload_size_field
    append_padding validate_data_integrity raw_size contains_only_zeros
filled_up_is = refl

signed_is : sign numbers laid_out 5 ≡ some (signed, none)
unfolding sign is_message_signed
signed_is = refl

signature_law :
    (h k : ℕ) (s : List ℕ)
    → numbers.ec_sign h k ≡ some s
    → (length s ≡ signature_length) × (numbers.recover_key h s ≡ some (numbers.public_key k))
signature_law h k s e = (ground arith, ground arith)

parse-sign_example :
    (pad signature : List ℕ) × Padded numbers params pad
    × (validate_and_parse numbers (received signed)
        ≡ some (
          record (received signed) {
            payload = 8 ∷ 9 ∷ [];
            padding = pad;
            signature = signature;
            src = some 5;
          },
          true,
        ))
parse-sign_example =
    parse-sign numbers ones params (received signed) laid_out 5 signature_law (omega arith)
      laid_out_is signed_is

validate_and_parse_total_example :
    (r : ReceivedMessage numbers) × (b : Bool) × (validate_and_parse numbers
        (received (7 ∷ 250 ∷ []))
      ≡ some (r, b))
validate_and_parse_total_example = validate_and_parse_total numbers (received (7 ∷ 250 ∷ []))

length-new_sent_message_example :
    (length filled_up + (if is_some unpadded.src then signature_length else 0)) % pad_size_limit ≡ 0
length-new_sent_message_example =
    length-new_sent_message numbers ones unpadded filled_up (omega arith) refl filled_up_is

-- Sixteen mebibytes of zeros; shut, so that nothing computes with it.
huge : List ℕ
huge = replicate 16777216 0

length-huge : length huge ≡ 16777216
unfolding huge
length-huge = length-replicate {A = ℕ} 16777216 0

abbrev huge_params : MessageParams numbers
huge_params = record params { payload = huge }

oversized_payload_example :
    (rest : List ℕ) × (new_sent_message numbers ones huge_params ≡ ok (signature_flag ∷ rest))
    × (is_message_signed signature_flag ≡ true)
    × ((key : ℕ) → sign numbers (signature_flag ∷ rest) key ≡ some (signature_flag ∷ rest, none))
oversized_payload_example =
    oversized_payload numbers ones huge_params (omega (arith, length-huge))
      (omega (arith, length-huge)) (omega arith)
