-- ===== src/Bloom.antt =====
-- Bloom filters: `TopicToBloom` of whisperv6/envelope.go, `isFullNode`, `BloomFilterMatch` and
-- `addBloom` of whisperv6/whisper.go, `MakeFullNodeBloom` of whisperv6/peer.go.
-- A byte slice is a list, a slice that may be nil an Option; `none` as a result is the panic of an
-- index out of range.
pub mod Match
pub mod Topics
use mathlib.Core.Option
use whisper.Base.{
  bit_and, ℕ, zero, suc, ◌+◌, ◌/◌, ◌%◌, ◌^◌, bit_or, List, [], ◌∷◌, Bool, true, false, Option, none,
  some, ◌==◌, if◌then◌else◌, set, replicate,
}
use whisper.Constants.{bloom_filter_size}
use whisper.Topic.{Topic}

-- The loop of `BloomFilterMatch` over the rounds that are left: the slices from index `i` on.
unfoldable pub match_loop : ℕ → List ℕ → List ℕ → Option Bool
match_loop zero filter sample = some true
match_loop (suc n) [] sample = none
match_loop (suc n) (f ∷ fs) [] = none
match_loop (suc n) (f ∷ fs) (s ∷ ss) =
    let rest = match_loop n fs ss in if bit_or f s == f then rest else some false

-- `BloomFilterMatch`
unfoldable pub bloom_filter_match : Option (List ℕ) → List ℕ → Option Bool
unfolding match_loop
bloom_filter_match none sample = some true
bloom_filter_match (some filter) sample = match_loop bloom_filter_size filter sample

add_loop : ℕ → List ℕ → List ℕ → Option (List ℕ)
add_loop zero a b = some []
add_loop (suc n) [] b = none
add_loop (suc n) (x ∷ a) [] = none
add_loop (suc n) (x ∷ a) (y ∷ b) = Option.map (λ c. bit_or x y ∷ c) (add_loop n a b)

-- `addBloom`
unfoldable pub add_bloom : List ℕ → List ℕ → Option (List ℕ)
unfolding add_loop
add_bloom a b = add_loop bloom_filter_size a b

unfoldable pub all_ones : List ℕ → Bool
all_ones [] = true
all_ones (b ∷ bs) = let rest = all_ones bs in if b == 255 then rest else false

-- `isFullNode`
unfoldable pub is_full_node : Option (List ℕ) → Bool
unfolding all_ones
is_full_node none = true
is_full_node (some bloom) = all_ones bloom

-- `MakeFullNodeBloom`
unfoldable pub make_full_node_bloom : List ℕ
make_full_node_bloom = replicate bloom_filter_size 255

-- `topic[3] & (1 << j) != 0`
unfoldable pub test_bit : ℕ → ℕ → Bool
test_bit b j = elim (bit_and b (2 ^ j) == 0) [ true ↦ false | false ↦ true ]

-- `index[j]`, where `b` is `topic[j]` and `flags` is `topic[3]`
unfoldable pub bit_index : ℕ → ℕ → ℕ → ℕ
unfolding test_bit
bit_index flags j b = if test_bit flags j then b + 256 else b

-- `b[index/8] = 1 << (index%8)`
abbrev pub put_bit : List ℕ → ℕ → List ℕ
put_bit b index = set b (index / 8) (2 ^ (index % 8))

-- `TopicToBloom`
unfoldable pub topic_to_bloom : Topic → List ℕ
unfolding bit_index
topic_to_bloom t =
    let b = replicate bloom_filter_size 0 in
    let b = put_bit b (bit_index t.b3 0 t.b0) in
    let b = put_bit b (bit_index t.b3 1 t.b1) in put_bit b (bit_index t.b3 2 t.b2)
