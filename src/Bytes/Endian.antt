-- ===== src/Bytes/Endian.antt =====
-- The two integer decoders of whisperv6/whisper.go against positional notation.
use mathlib.Core.List.{reverse}
use whisper.Base.{ℕ, ◌+◌, ◌*◌, ◌<◌, ◌≤◌, ◌≡◌, List, [], ◌∷◌, arith, length, All}
use whisper.Bytes.{bytes_to_uint_little_endian, bytes_to_uint_big_endian}

abbrev pub IsBytes : List ℕ → Type 0
IsBytes = All (λ b. b < 256)

-- The number that the bytes spell, the lowest first.
abbrev pub little_value : List ℕ → ℕ
little_value [] = 0
little_value (b ∷ bs) = b + 256 * little_value bs

-- Up to eight bytes the little-endian decoder does not wrap.
pub little_endian_value :
    (b : List ℕ) → length b ≤ 8 → IsBytes b → bytes_to_uint_little_endian b ≡ little_value b
unfolding bytes_to_uint_little_endian
little_endian_value [] l h = omega arith
little_endian_value (a ∷ []) l h = omega arith
little_endian_value (a ∷ b ∷ []) l h = omega arith
little_endian_value (a ∷ b ∷ c ∷ []) l h = omega arith
little_endian_value (a ∷ b ∷ c ∷ d ∷ []) l h = omega arith
little_endian_value (a ∷ b ∷ c ∷ d ∷ e ∷ []) l h = omega arith
little_endian_value (a ∷ b ∷ c ∷ d ∷ e ∷ f ∷ []) l h = omega arith
little_endian_value (a ∷ b ∷ c ∷ d ∷ e ∷ f ∷ g ∷ []) l h = omega arith
little_endian_value (a ∷ b ∷ c ∷ d ∷ e ∷ f ∷ g ∷ i ∷ []) l h = omega arith
little_endian_value (a ∷ b ∷ c ∷ d ∷ e ∷ f ∷ g ∷ i ∷ j ∷ r) l h = absurd (omega arith)

-- The big-endian decoder reads the same number from the bytes in reverse.
pub big_endian_reverse :
    (b : List ℕ)
    → length b ≤ 8
    → IsBytes b
    → bytes_to_uint_big_endian (reverse b) ≡ bytes_to_uint_little_endian b
unfolding bytes_to_uint_little_endian bytes_to_uint_big_endian
big_endian_reverse [] l h = omega arith
big_endian_reverse (a ∷ []) l h = omega arith
big_endian_reverse (a ∷ b ∷ []) l h = omega arith
big_endian_reverse (a ∷ b ∷ c ∷ []) l h = omega arith
big_endian_reverse (a ∷ b ∷ c ∷ d ∷ []) l h = omega arith
big_endian_reverse (a ∷ b ∷ c ∷ d ∷ e ∷ []) l h = omega arith
big_endian_reverse (a ∷ b ∷ c ∷ d ∷ e ∷ f ∷ []) l h = omega arith
big_endian_reverse (a ∷ b ∷ c ∷ d ∷ e ∷ f ∷ g ∷ []) l h = omega arith
big_endian_reverse (a ∷ b ∷ c ∷ d ∷ e ∷ f ∷ g ∷ i ∷ []) l h = omega arith
big_endian_reverse (a ∷ b ∷ c ∷ d ∷ e ∷ f ∷ g ∷ i ∷ j ∷ r) l h = absurd (omega arith)
