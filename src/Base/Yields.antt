-- ===== src/Base/Yields.antt =====
-- Postconditions of the Go functions that return a value and an error.
use mathlib.Core.Path.{◌≡◌, refl, subst}
use whisper.Base.Outcome.{Outcome, ok, err, panic, ◌>>=◌}

-- The value, if there is one, has a property.
abbrev pub Yields : {E A : Type 0} → (A → Type 0) → Outcome E A → Type 0
Yields Q (ok a) = Q a
Yields Q (err e) = Unit
Yields Q panic = Unit

module _ {E A B : Type 0} (R : A → Type 0) (Q : B → Type 0) where
  pub Yields-then :
      (m : Outcome E A) (f : A → Outcome E B)
      → Yields R m
      → ((a : A) → R a → Yields Q (f a))
      → Yields Q (m >>= f)
  Yields-then (ok a) f h k = k a h
  Yields-then (err e) f h k = tt
  Yields-then panic f h k = tt

module _ {E A : Type 0} (Q : A → Type 0) where
  pub Yields-ok : (m : Outcome E A) {a : A} → m ≡ ok a → Yields Q m → Q a
  Yields-ok m h k = subst (Yields Q) h k

  pub Yields-of : (m : Outcome E A) → ((a : A) → m ≡ ok a → Q a) → Yields Q m
  Yields-of (ok a) h = h a refl
  Yields-of (err e) h = tt
  Yields-of panic h = tt
