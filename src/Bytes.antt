-- ===== src/Bytes.antt =====
-- Byte slices: `validateDataIntegrity`, `containsOnlyZeros`, `bytesToUintLittleEndian` and
-- `BytesToUintBigEndian` of whisperv6/whisper.go, and the slice expressions of the language.
pub mod Endian
use whisper.Base.{
  ℕ, zero, suc, ◌+◌, ◌-◌, ◌*◌, ◌%◌, ◌^◌, List, [], ◌∷◌, Bool, true, false, not, ◌&&◌, Option, none,
  some, ltb, leb, ◌==◌, if◌then◌else◌, length, take, drop,
}

-- `b[lo:hi]`; `none` is the panic of a bound out of range. A capacity beyond the length is not used.
unfoldable pub slice : List ℕ → ℕ → ℕ → Option (List ℕ)
slice b lo hi = if leb lo hi && leb hi (length b) then some (take (hi - lo) (drop lo b)) else none

-- `containsOnlyZeros`
unfoldable pub contains_only_zeros : List ℕ → Bool
contains_only_zeros [] = true
contains_only_zeros (b ∷ data') =
    let rest = contains_only_zeros data' in if b == 0 then rest else false

-- `validateDataIntegrity`
unfoldable pub validate_data_integrity : List ℕ → ℕ → Bool
validate_data_integrity k expected_size =
    if not (length k == expected_size)
    then false
    else if ltb 3 expected_size && contains_only_zeros k
    then false
    else true

abbrev u64 : ℕ → ℕ
u64 n = n % 2 ^ 64

unfoldable pub little_loop : ℕ → ℕ → List ℕ → ℕ
little_loop res mul [] = res
little_loop res mul (b ∷ bs) = little_loop (u64 (res + u64 (b * mul))) (u64 (mul * 256)) bs

-- `bytesToUintLittleEndian`
unfoldable pub bytes_to_uint_little_endian : List ℕ → ℕ
unfolding little_loop
bytes_to_uint_little_endian b = little_loop 0 1 b

unfoldable pub big_loop : ℕ → List ℕ → ℕ
big_loop res [] = res
big_loop res (b ∷ bs) = big_loop (u64 (u64 (res * 256) + b)) bs

-- `BytesToUintBigEndian`
unfoldable pub bytes_to_uint_big_endian : List ℕ → ℕ
unfolding big_loop
bytes_to_uint_big_endian b = big_loop 0 b
