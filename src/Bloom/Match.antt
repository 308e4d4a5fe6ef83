-- ===== src/Bloom/Match.antt =====
-- Matching and joining bloom filters.
use whisper.Base.{
  ℕ, zero, suc, ◌≡◌, refl, ap, bit_or, List, [], ◌∷◌, Bool, true, false, none, some, arith, length,
  ◌==◌, inl, inr, Bool-cases, ==_iff,
}
use whisper.Base.BitOr.{bit_or_absorb_left, bit_or_absorb_right, bit_or_trans, bit_or_self}
use whisper.Bloom.{match_loop, bloom_filter_match, add_loop, add_bloom}
use whisper.Constants.{bloom_filter_size}

-- Every byte of the sample adds no bit to the filter's byte.
abbrev pub Covers : List ℕ → List ℕ → Type 0
Covers [] _ = Unit
Covers (f ∷ fs) [] = Unit
Covers (f ∷ fs) (s ∷ ss) = (bit_or f s ≡ f) × Covers fs ss

pub match_loop_total :
    (n : ℕ) (f s : List ℕ) → length f ≡ n → length s ≡ n → (b : Bool) × (match_loop n f s ≡ some b)
unfolding match_loop
match_loop_total zero f s p q = (true, refl)
match_loop_total (suc n) [] s p q = absurd (omega arith)
match_loop_total (suc n) (f ∷ fs) [] p q = absurd (omega arith)
match_loop_total (suc n) (f ∷ fs) (s ∷ ss) p q = elim (Bool-cases (bit_or f s == f)) [
  | inl e ↦ rw e (match_loop_total n fs ss (omega arith) (omega arith))
  | inr e ↦ (false, rw e)
]

pub match_loop-Covers :
    (n : ℕ) (f s : List ℕ) → length f ≡ n → match_loop n f s ≡ some true → Covers f s
unfolding match_loop
match_loop-Covers n [] s p h = tt
match_loop-Covers n (f ∷ fs) [] p h = tt
match_loop-Covers zero (f ∷ fs) (s ∷ ss) p h = absurd (omega arith)
match_loop-Covers (suc n) (f ∷ fs) (s ∷ ss) p h =
    (ground arith, match_loop-Covers n fs ss (omega arith) (ground arith))

pub Covers-match_loop :
    (n : ℕ) (f s : List ℕ) → length f ≡ n → length s ≡ n → Covers f s → match_loop n f s ≡ some true
unfolding match_loop
Covers-match_loop zero f s p q h = refl
Covers-match_loop (suc n) [] s p q h = absurd (omega arith)
Covers-match_loop (suc n) (f ∷ fs) [] p q h = absurd (omega arith)
Covers-match_loop (suc n) (f ∷ fs) (s ∷ ss) p q h =
    rw ((==_iff (bit_or f s) f).1 h.0) (Covers-match_loop n fs ss (omega arith) (omega arith) h.1)

pub Covers-trans : (f g h : List ℕ) → length f ≡ length g → Covers f g → Covers g h → Covers f h
Covers-trans [] g h e p q = tt
Covers-trans (x ∷ f) g [] e p q = tt
Covers-trans (x ∷ f) [] (z ∷ h) e p q = absurd (omega arith)
Covers-trans (x ∷ f) (y ∷ g) (z ∷ h) e p q =
    (bit_or_trans x y z p.0 q.0, Covers-trans f g h (omega arith) p.1 q.1)

pub Covers-refl : (f : List ℕ) → Covers f f
Covers-refl [] = tt
Covers-refl (x ∷ f) = (bit_or_self x, Covers-refl f)

-- The join, as a function on lists of one length.
abbrev pub join : List ℕ → List ℕ → List ℕ
join [] b = []
join (x ∷ a) [] = []
join (x ∷ a) (y ∷ b) = bit_or x y ∷ join a b

add_loop-join :
    (n : ℕ) (a b : List ℕ) → length a ≡ n → length b ≡ n → add_loop n a b ≡ some (join a b)
unfolding add_loop
add_loop-join zero [] b p q = refl
add_loop-join zero (x ∷ a) b p q = absurd (omega arith)
add_loop-join (suc n) [] b p q = absurd (omega arith)
add_loop-join (suc n) (x ∷ a) [] p q = absurd (omega arith)
add_loop-join (suc n) (x ∷ a) (y ∷ b) p q = rw (add_loop-join n a b (omega arith) (omega arith))

pub length-join : (a b : List ℕ) → length a ≡ length b → length (join a b) ≡ length a
length-join [] b e = refl
length-join (x ∷ a) [] e = absurd (omega arith)
length-join (x ∷ a) (y ∷ b) e = ap suc (length-join a b (omega arith))

pub join-Covers : (a b : List ℕ) → Covers (join a b) a × Covers (join a b) b
join-Covers [] b = (tt, tt)
join-Covers (x ∷ a) [] = (tt, tt)
join-Covers (x ∷ a) (y ∷ b) =
    ((bit_or_absorb_left x y, (join-Covers a b).0), (bit_or_absorb_right x y, (join-Covers a b).1))

-- Joining two filters of the right size does not panic, and the result has the right size and
-- matches both.
pub add_bloom_matches :
    (a b : List ℕ)
    → length a ≡ bloom_filter_size
    → length b ≡ bloom_filter_size
    → (c : List ℕ) × (add_bloom a b ≡ some c)
      × (length c ≡ bloom_filter_size)
      × (bloom_filter_match (some c) a ≡ some true)
      × (bloom_filter_match (some c) b ≡ some true)
unfolding add_bloom bloom_filter_match
add_bloom_matches a b p q =
    let l = length-join a b (omega arith) in
    let l64 : length (join a b) ≡ bloom_filter_size = omega arith in
    (
      join a b,
      add_loop-join bloom_filter_size a b p q,
      l64,
      Covers-match_loop bloom_filter_size (join a b) a l64 p (join-Covers a b).0,
      Covers-match_loop bloom_filter_size (join a b) b l64 q (join-Covers a b).1,
    )

-- Matching is transitive: a filter that matches a wider filter matches what that one matches.
pub bloom_filter_match_trans :
    (f g h : List ℕ)
    → length f ≡ bloom_filter_size
    → length g ≡ bloom_filter_size
    → length h ≡ bloom_filter_size
    → bloom_filter_match (some f) g ≡ some true
    → bloom_filter_match (some g) h ≡ some true
    → bloom_filter_match (some f) h ≡ some true
unfolding bloom_filter_match
bloom_filter_match_trans f g h p q r m n = Covers-match_loop bloom_filter_size f h p r (
    Covers-trans f g h (omega arith) (match_loop-Covers bloom_filter_size f g p m)
      (match_loop-Covers bloom_filter_size g h q n))

pub bloom_match_refl :
    (f : List ℕ) → length f ≡ bloom_filter_size → bloom_filter_match (some f) f ≡ some true
unfolding bloom_filter_match
bloom_match_refl f l = Covers-match_loop bloom_filter_size f f l l (Covers-refl f)

pub bloom_match_total :
    (f s : List ℕ)
    → length f ≡ bloom_filter_size
    → length s ≡ bloom_filter_size
    → (b : Bool) × (bloom_filter_match (some f) s ≡ some b)
unfolding bloom_filter_match
bloom_match_total f s p q = match_loop_total bloom_filter_size f s p q

pub bloom_match_nil : (s : List ℕ) → bloom_filter_match none s ≡ some true
unfolding bloom_filter_match
bloom_match_nil s = refl
