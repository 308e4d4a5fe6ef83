-- ===== src/Base/BitOr.antt =====
-- Bitwise or at variables: commutative, associative, idempotent, and within a byte.
use Prim.Native.Nat.{
  ℕ, zero, suc, ◌+◌, ◌*◌, ◌/◌, ◌%◌, ◌≤◌, ◌<◌, ◌^◌, max, bit_or, digits, bit_or-bitwise,
}
use mathlib.Core.Path.{◌≡◌, refl, sym, ◌∙◌, ap}
use native.Mathlib.Nat.{pow-suc}
use native.Mathlib.Omega.{arith}

abbrev or_digits : ℕ → ℕ → ℕ → ℕ
or_digits n a b = digits (λ b. b) max n a b

or_digits_fuel : (n m a b : ℕ) → a ≤ n → a ≤ m → or_digits n a b ≡ or_digits m a b
or_digits_fuel zero zero a b p q = refl
or_digits_fuel zero (suc m) zero b p q = refl
or_digits_fuel zero (suc m) (suc a) b p q = absurd (omega arith)
or_digits_fuel (suc n) zero zero b p q = refl
or_digits_fuel (suc n) zero (suc a) b p q = absurd (omega arith)
or_digits_fuel (suc n) (suc m) zero b p q = refl
or_digits_fuel (suc n) (suc m) (suc a) b p q =
    omega (arith, or_digits_fuel n m (suc a / 2) (b / 2) (omega arith) (omega arith))

zero-bit_or : (b : ℕ) → bit_or 0 b ≡ b
zero-bit_or b = bit_or-bitwise 0 b

-- The law of the lowest digit.
pub bit_or_step : (a b : ℕ) → bit_or a b ≡ bit_or (a / 2) (b / 2) * 2 + max (a % 2) (b % 2)
bit_or_step zero b = omega (arith, zero-bit_or b, zero-bit_or (b / 2))
bit_or_step (suc a) b = omega (
  arith,
  bit_or-bitwise (suc a) b,
  bit_or-bitwise (suc a / 2) (b / 2),
  or_digits_fuel a (suc a / 2) (suc a / 2) (b / 2) (omega arith) (omega arith),
)

comm_below : (n a b : ℕ) → a + b ≤ n → bit_or a b ≡ bit_or b a
comm_below zero a b h = omega (
  arith,
  zero-bit_or b,
  zero-bit_or a,
  ap (λ t. bit_or t b) {x = a} {y = 0} (omega arith),
  ap (λ t. bit_or t a) {x = b} {y = 0} (omega arith),
)
comm_below (suc n) zero zero h = refl
comm_below (suc n) zero (suc b) h =
    omega (
      arith,
      bit_or_step 0 (suc b),
      bit_or_step (suc b) 0,
      comm_below n 0 (suc b / 2) (omega arith),
    )
comm_below (suc n) (suc a) b h = omega (
  arith,
  bit_or_step (suc a) b,
  bit_or_step b (suc a),
  comm_below n (suc a / 2) (b / 2) (omega arith),
)

pub bit_or_comm : (a b : ℕ) → bit_or a b ≡ bit_or b a
bit_or_comm a b = comm_below (a + b) a b (omega arith)

self_below : (n a : ℕ) → a ≤ n → bit_or a a ≡ a
self_below zero zero h = refl
self_below zero (suc a) h = absurd (omega arith)
self_below (suc n) zero h = refl
self_below (suc n) (suc a) h =
    omega (arith, bit_or_step (suc a) (suc a), self_below n (suc a / 2) (omega arith))

pub bit_or_self : (a : ℕ) → bit_or a a ≡ a
bit_or_self a = self_below a a (omega arith)

assoc_below : (n a b c : ℕ) → a + b + c ≤ n → bit_or (bit_or a b) c ≡ bit_or a (bit_or b c)
assoc_below zero zero b c h = simp (zero-bit_or)
assoc_below zero (suc a) b c h = absurd (omega arith)
assoc_below (suc n) zero b c h = simp (zero-bit_or)
assoc_below (suc n) (suc a) b c h = omega (
  arith,
  bit_or_step (suc a) b,
  bit_or_step b c,
  bit_or_step (bit_or (suc a) b) c,
  bit_or_step (suc a) (bit_or b c),
  ap (λ t. bit_or t (c / 2)) {x = bit_or (suc a) b / 2} {y = bit_or (suc a / 2) (b / 2)}
      (omega (arith, bit_or_step (suc a) b)),
  ap (λ t. bit_or (suc a / 2) t) {x = bit_or b c / 2} {y = bit_or (b / 2) (c / 2)}
      (omega (arith, bit_or_step b c)),
  assoc_below n (suc a / 2) (b / 2) (c / 2) (omega arith),
)

pub bit_or_assoc : (a b c : ℕ) → bit_or (bit_or a b) c ≡ bit_or a (bit_or b c)
bit_or_assoc a b c = assoc_below (a + b + c) a b c (omega arith)

pub bit_or_absorb_right : (a b : ℕ) → bit_or (bit_or a b) b ≡ bit_or a b
bit_or_absorb_right a b = rw (bit_or_assoc, bit_or_self)

pub bit_or_absorb_left : (a b : ℕ) → bit_or (bit_or a b) a ≡ bit_or a b
bit_or_absorb_left a b = rw (bit_or_comm (bit_or a b) a, ← bit_or_assoc, bit_or_self)

pub bit_or_trans : (f s t : ℕ) → bit_or f s ≡ f → bit_or s t ≡ s → bit_or f t ≡ f
bit_or_trans f s t p q =
    ap (λ x. bit_or x t) (sym p) ∙ bit_or_assoc f s t ∙ ap (λ x. bit_or f x) q ∙ p

pub bit_or_lt : (k a b : ℕ) → a < 2 ^ k → b < 2 ^ k → bit_or a b < 2 ^ k
bit_or_lt zero a b p q =
    omega (arith, zero-bit_or b, ap (λ t. bit_or t b) {x = a} {y = 0} (omega arith))
bit_or_lt (suc k) a b p q = omega (
  arith,
  bit_or_step a b,
  pow-suc 2 k,
  bit_or_lt k (a / 2) (b / 2) (omega (arith, pow-suc 2 k)) (omega (arith, pow-suc 2 k)),
)
