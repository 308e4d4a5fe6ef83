-- ===== src/Message/Sizes.antt =====
-- The size field of whisperv6/message.go: how many bytes it takes, and what it says.
use whisper.Base.{
  ℕ, zero, suc, ◌+◌, ◌-◌, ◌/◌, ◌≤◌, ◌<◌, ◌≡◌, refl, List, arith, leb, length, take, if◌then◌else◌,
  ◌∙◌, ◌⊎◌, inl, inr,
}
use native.Mathlib.Decide.{dec_lt}
use whisper.Bytes.{bytes_to_uint_little_endian}
use whisper.Bytes.Endian.{little_endian_value}
use whisper.Message.{size_loop, get_size_of_payload_size_field, put_uint32}

size_loop_done : (fuel i s : ℕ) → i < 256 → size_loop fuel i s ≡ s
unfolding size_loop
size_loop_done zero i s h = refl
size_loop_done (suc f) i s h = ground arith

size_loop_more :
    (fuel i s : ℕ)
    → 256 ≤ i
    → 0 < fuel
    → size_loop fuel i s ≡ size_loop (fuel - 1) (i / 256) (s + 1)
unfolding size_loop
size_loop_more zero i s h p = absurd (omega arith)
size_loop_more (suc f) i s h p = let e : suc f - 1 ≡ f = omega arith in rw e (ground arith)

-- The payload's length is fuel enough, and the field is the shortest that holds it.
pub get_size_of_payload_size_field_lem :
    (n : ℕ)
    → n < 4294967296
    → get_size_of_payload_size_field n
      ≡ (if leb 16777216 n then 4 else if leb 65536 n then 3 else if leb 256 n then 2 else 1)
unfolding get_size_of_payload_size_field
get_size_of_payload_size_field_lem n h = ground (
  arith,
  size_loop_done n n 1,
  size_loop_more n n 1,
  size_loop_done (n - 1) (n / 256) 2,
  size_loop_more (n - 1) (n / 256) 2,
  size_loop_done (n - 1 - 1) (n / 256 / 256) 3,
  size_loop_more (n - 1 - 1) (n / 256 / 256) 3,
  size_loop_done (n - 1 - 1 - 1) (n / 256 / 256 / 256) 4,
)

-- A payload below 2^24 bytes takes a field of one to three bytes, which spells its length.
pub record SizeField (n size : ℕ) (field : List ℕ) : Type 0 where
  pub size_eq : get_size_of_payload_size_field n ≡ size
  pub size_one_to_three : (size ≡ 1) ⊎ ((size ≡ 2) ⊎ (size ≡ 3))
  pub field_eq : field ≡ take size (put_uint32 n)
  pub length_eq : length field ≡ size
  pub value_eq : bytes_to_uint_little_endian field ≡ n

one_byte : (n : ℕ) → n < 256 → SizeField n 1 (take 1 (put_uint32 n))
one_byte n h = record {
  size_eq = ground (arith, get_size_of_payload_size_field_lem n);
  size_one_to_three = inl refl;
  field_eq = refl;
  length_eq = refl;
  value_eq = little_endian_value (take 1 (put_uint32 n)) (omega arith) (omega arith) ∙ omega arith;
}

two_bytes : (n : ℕ) → 256 ≤ n → n < 65536 → SizeField n 2 (take 2 (put_uint32 n))
two_bytes n l h = record {
  size_eq = ground (arith, get_size_of_payload_size_field_lem n);
  size_one_to_three = inr (inl refl);
  field_eq = refl;
  length_eq = refl;
  value_eq = little_endian_value (take 2 (put_uint32 n)) (omega arith) (omega arith) ∙ omega arith;
}

three_bytes : (n : ℕ) → 65536 ≤ n → n < 16777216 → SizeField n 3 (take 3 (put_uint32 n))
three_bytes n l h = record {
  size_eq = ground (arith, get_size_of_payload_size_field_lem n);
  size_one_to_three = inr (inr refl);
  field_eq = refl;
  length_eq = refl;
  value_eq = little_endian_value (take 3 (put_uint32 n)) (omega arith) (omega arith) ∙ omega arith;
}

pub size_field : (n : ℕ) → n < 16777216 → (size : ℕ) × (field : List ℕ) × SizeField n size field
size_field n h = elim (dec_lt n 256) [
  | yes a ↦ (1, take 1 (put_uint32 n), one_byte n a)
  | no a ↦ elim (dec_lt n 65536) [
    | yes b ↦ (2, take 2 (put_uint32 n), two_bytes n (omega arith) b)
    | no b ↦ (3, take 3 (put_uint32 n), three_bytes n (omega arith) h)
  ]
]
