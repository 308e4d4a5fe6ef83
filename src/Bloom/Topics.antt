-- ===== src/Bloom/Topics.antt =====
-- What `TopicToBloom` (whisperv6/envelope.go) sets, byte by byte.
use Prim.Native.Nat.{bit_and-bitwise}
use whisper.Base.{
  bit_and, ℕ, zero, suc, ◌/◌, ◌%◌, ◌^◌, ◌<◌, ◌≡◌, refl, ◌∙◌, Bool, true, false, not, ◌&&◌, ◌||◌,
  List, arith, length, get_or, set, replicate, ◌==◌, ==_iff, if◌then◌else◌, length-set,
  length-replicate, get_or-set_self, get_or-set_ne, get_or-replicate, Bool-cases, inl, inr,
}
use whisper.Bloom.{bit_index, test_bit, put_bit, topic_to_bloom}
use whisper.Constants.{bloom_filter_size}
use whisper.Topic.{Topic, IsByteTopic}

-- The three bit positions of a topic in the 512 bits.
abbrev pub index0 : Topic → ℕ
index0 t = bit_index t.b3 0 t.b0

abbrev pub index1 : Topic → ℕ
index1 t = bit_index t.b3 1 t.b1

abbrev pub index2 : Topic → ℕ
index2 t = bit_index t.b3 2 t.b2

bit_index-lt : (flags j b : ℕ) → b < 256 → bit_index flags j b < 512
unfolding bit_index
bit_index-lt flags j b h = elim (Bool-cases (test_bit flags j)) [
  | inl e ↦ rw e (omega arith)
  | inr e ↦ rw e (omega arith)
]

pub length-topic_to_bloom : (t : Topic) → length (topic_to_bloom t) ≡ bloom_filter_size
unfolding topic_to_bloom
length-topic_to_bloom t =
    length-set (set (set (replicate 64 0) _ _) _ _) _ _
    ∙ length-set (set (replicate 64 0) _ _) _ _
    ∙ length-set (replicate 64 0) _ _
    ∙ length-replicate {A = ℕ} 64 0

get_or-set :
    (xs : List ℕ) (i k v : ℕ)
    → i < length xs
    → get_or (set xs i v) k 0 ≡ (if i == k then v else get_or xs k 0)
get_or-set xs i k v h = elim (Bool-cases (i == k)) [
  | inl e ↦ rw e (let p : i ≡ k = (==_iff i k).0 e in rw (← p) (get_or-set_self xs i v 0 h))
  | inr e ↦ rw e (get_or-set_ne xs i k v 0 (λ p. ground arith))
]

-- Byte `k` of a topic's bloom filter is the bit of the last of the three indices that fall into
-- it, and 0 if none does.
pub topic_to_bloom_byte :
    (t : Topic) (k : ℕ)
    → IsByteTopic t
    → get_or (topic_to_bloom t) k 0 ≡ (
        if index2 t / 8 == k
        then 2 ^ (index2 t % 8)
        else if index1 t / 8 == k
        then 2 ^ (index1 t % 8)
        else if index0 t / 8 == k
        then 2 ^ (index0 t % 8)
        else 0)
unfolding topic_to_bloom
topic_to_bloom_byte t k h =
    let z : List ℕ = replicate 64 0 in
    let a : List ℕ = put_bit z (index0 t) in
    let b : List ℕ = put_bit a (index1 t) in
    let lz : length z ≡ 64 = length-replicate {A = ℕ} 64 0 in
    let la : length a ≡ 64 = length-set z _ _ ∙ lz in
    let lb : length b ≡ 64 = length-set a _ _ ∙ la in
    rw
      (
        get_or-set b (index2 t / 8) k (2 ^ (index2 t % 8))
            (omega (arith, bit_index-lt t.b3 2 t.b2)),
        get_or-set a (index1 t / 8) k (2 ^ (index1 t % 8))
            (omega (arith, bit_index-lt t.b3 1 t.b1)),
        get_or-set z (index0 t / 8) k (2 ^ (index0 t % 8))
            (omega (arith, bit_index-lt t.b3 0 t.b0)),
        get_or-replicate {A = ℕ} 64 k 0,
      )
      refl

-- The bit at a position of the 512 is set.
abbrev pub has_bit : List ℕ → ℕ → Bool
has_bit bloom index = test_bit (get_or bloom (index / 8) 0) (index % 8)

-- A test holds at every number under a bound.
holds_under : (ℕ → Bool) → ℕ → Bool
holds_under test zero = true
holds_under test (suc top) = holds_under test top && test top

holds_at : (test : ℕ → Bool) (top k : ℕ) → k < top → holds_under test top ≡ true → test k ≡ true
unfolding holds_under
holds_at test zero k small all = absurd (omega arith)
holds_at test (suc top) k small all = ground (arith, holds_at test top k)

one_bit_row : ℕ → Bool
one_bit_row i =
    holds_under
      (λ j. ((i == j) && test_bit (2 ^ i) j) || (not (i == j) && not (test_bit (2 ^ i) j))) 8

one_bit_table : holds_under one_bit_row 8 ≡ true
unfolding holds_under one_bit_row test_bit
one_bit_table = refl

same_test : (a b : Bool) → ((a && b) || (not a && not b)) ≡ true → b ≡ a
same_test a b h = ground arith

test_one_bit : (i j : ℕ) → i < 8 → j < 8 → test_bit (2 ^ i) j ≡ (i == j)
unfolding one_bit_row
test_one_bit i j p q =
    same_test (i == j) (test_bit (2 ^ i) j)
      (holds_at _ 8 j q (holds_at one_bit_row 8 i p one_bit_table))

same_byte : (i p : ℕ) → (i / 8 == p / 8) ≡ true → test_bit (2 ^ (i % 8)) (p % 8) ≡ (i == p)
same_byte i p e = rw (test_one_bit (i % 8) (p % 8) (omega arith) (omega arith)) (ground arith)

zero-bit_and : (b : ℕ) → bit_and 0 b ≡ 0
zero-bit_and b = bit_and-bitwise 0 b

zero_bit : (j : ℕ) → test_bit 0 j ≡ false
unfolding test_bit
zero_bit j = rw (zero-bit_and (2 ^ j), test_bit)

-- What the three writes leave at a position.
kept : (i0 i1 i2 p : ℕ) → Bool
kept i0 i1 i2 p =
    if i2 / 8 == p / 8
    then i2 == p
    else if i1 / 8 == p / 8
    then i1 == p
    else if i0 / 8 == p / 8
    then i0 == p
    else false

kept_lem :
    (i0 i1 i2 p : ℕ)
    → test_bit
        (if i2 / 8 == p / 8
          then 2 ^ (i2 % 8)
          else if i1 / 8 == p / 8
          then 2 ^ (i1 % 8)
          else if i0 / 8 == p / 8
          then 2 ^ (i0 % 8)
          else 0)
        (p % 8)
      ≡ kept i0 i1 i2 p
unfolding kept
kept_lem i0 i1 i2 p = elim (Bool-cases (i2 / 8 == p / 8)) [
  | inl e ↦ rw e (same_byte i2 p e)
  | inr e ↦ rw e (elim (Bool-cases (i1 / 8 == p / 8)) [
    | inl f ↦ rw f (same_byte i1 p f)
    | inr f ↦ rw f (elim (Bool-cases (i0 / 8 == p / 8)) [
      | inl g ↦ rw g (same_byte i0 p g)
      | inr g ↦ rw g (zero_bit (p % 8))
    ])
  ])
]

has_bit-kept :
    (t : Topic) (p : ℕ)
    → IsByteTopic t
    → has_bit (topic_to_bloom t) p ≡ kept (index0 t) (index1 t) (index2 t) p
has_bit-kept t p h =
    rw (topic_to_bloom_byte t (p / 8) h) (kept_lem (index0 t) (index1 t) (index2 t) p)

-- The bit that a topic sets for its index `j` stays in the filter exactly when no later index
-- falls into another bit of its byte: the last index is always there, the second one unless the
-- third overwrites its byte, the first one unless one of the other two does.
pub topic_to_bloom_bits :
    (t : Topic)
    → IsByteTopic t
    → (has_bit (topic_to_bloom t) (index2 t) ≡ true)
      × (has_bit (topic_to_bloom t) (index1 t)
          ≡ (if index2 t / 8 == index1 t / 8 then index2 t == index1 t else true))
      × (has_bit (topic_to_bloom t) (index0 t) ≡ (
          if index2 t / 8 == index0 t / 8
          then index2 t == index0 t
          else if index1 t / 8 == index0 t / 8
          then index1 t == index0 t
          else true))
unfolding kept
topic_to_bloom_bits t h = (
  rw (has_bit-kept t (index2 t) h) (ground arith),
  rw (has_bit-kept t (index1 t) h) (ground arith),
  rw (has_bit-kept t (index0 t) h) (ground arith),
)
