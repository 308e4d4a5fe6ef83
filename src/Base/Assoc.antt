-- ===== src/Base/Assoc.antt =====
-- Go maps as association lists, and their laws.
use whisper.Base.Tests.{◌==◌, if◌then◌else◌, Bool-cases}
use Prim.Native.Nat.{ℕ, ◌+◌}
use mathlib.Core.Path.{◌≡◌, refl, ◌∙◌}
use mathlib.Core.Logic.{inl, inr}
use mathlib.Core.List.{List, [], ◌∷◌}
use mathlib.Core.Option.{Option, none, some}
use native.Mathlib.Omega.{arith}

abbrev pub Assoc {ℓ} : Type ℓ → Type ℓ
Assoc V = List (ℕ × V)

module _ {ℓ} {V : Type ℓ} where
  unfoldable pub lookup : ℕ → Assoc V → Option V
  lookup k [] = none
  lookup k ((j, v) ∷ m) = if j == k then some v else lookup k m

  -- `delete(m, k)`
  unfoldable pub remove : ℕ → Assoc V → Assoc V
  remove k [] = []
  remove k ((j, v) ∷ m) = let rest = remove k m in if j == k then rest else (j, v) ∷ rest

  -- `m[k] = v`
  unfoldable pub insert : ℕ → V → Assoc V → Assoc V
  unfolding remove
  insert k v m = (k, v) ∷ remove k m

  pub lookup-remove :
      (k j : ℕ) (m : Assoc V) → lookup j (remove k m) ≡ (if k == j then none else lookup j m)
  unfolding lookup remove
  lookup-remove k j [] = ground arith
  lookup-remove k j ((i, v) ∷ m) = ground (arith, lookup-remove k j m)

  pub lookup-insert :
      (k j : ℕ) (v : V) (m : Assoc V)
      → lookup j (insert k v m) ≡ (if k == j then some v else lookup j m)
  unfolding insert lookup
  lookup-insert k j v m = ground (arith, lookup-remove k j m)

  -- No key stands twice.
  abbrev pub Unique : Assoc V → Type ℓ
  Unique [] = Unit
  Unique ((k, v) ∷ m) = (lookup k m ≡ none) × Unique m

  pub remove-Unique : (k : ℕ) (m : Assoc V) → Unique m → Unique (remove k m)
  unfolding remove
  remove-Unique k [] u = tt
  remove-Unique k ((j, v) ∷ m) u = elim (Bool-cases (j == k)) [
    | inl e ↦ rw e (remove-Unique k m u.1)
    | inr e ↦ rw e (lookup-remove k j m ∙ ground (arith, u.0), remove-Unique k m u.1)
  ]

  pub insert-Unique : (k : ℕ) (v : V) (m : Assoc V) → Unique m → Unique (insert k v m)
  unfolding insert
  insert-Unique k v m u = (lookup-remove k k m ∙ ground arith, remove-Unique k m u)

  -- What the values add up to.
  unfoldable pub total : (V → ℕ) → Assoc V → ℕ
  total f [] = 0
  total f ((k, v) ∷ m) = f v + total f m

  remove_absent : (k : ℕ) (m : Assoc V) → lookup k m ≡ none → remove k m ≡ m
  unfolding lookup remove
  remove_absent k [] h = refl
  remove_absent k ((j, v) ∷ m) h = elim (Bool-cases (j == k)) [
    | inl e ↦ absurd (ground arith)
    | inr e ↦ rw (e, remove_absent k m (ground arith))
  ]

  pub total-remove :
      (f : V → ℕ) (k : ℕ) (v : V) (m : Assoc V)
      → Unique m
      → lookup k m ≡ some v
      → f v + total f (remove k m) ≡ total f m
  unfolding lookup remove total
  total-remove f k v [] u h = absurd (ground arith)
  total-remove f k v ((j, w) ∷ m) u h = elim (Bool-cases (j == k)) [
    | inl e ↦ rw (e, remove_absent k m (ground arith)) (ground arith)
    | inr e ↦ rw e (ground (arith, total-remove f k v m u.1))
  ]

  pub total-insert :
      (f : V → ℕ) (k : ℕ) (v : V) (m : Assoc V)
      → lookup k m ≡ none
      → total f (insert k v m) ≡ f v + total f m
  unfolding insert total
  total-insert f k v m h = rw (remove_absent k m h)
