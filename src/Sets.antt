-- ===== src/Sets.antt =====
-- The calls of the hash-set package (mapset) that the program makes, as an interface. `each` calls
-- its argument on the elements in some order and stops at the first call that returns true; this
-- and the laws of the other operations are the package's documentation.
use whisper.Base.{ℕ, List, [], ◌∷◌, Bool, false, ◌||◌, ◌≡◌, ◌==◌, if◌then◌else◌, not, ◌&&◌}

abbrev pub elem : ℕ → List ℕ → Bool
elem h [] = false
elem h (k ∷ ks) = (k == h) || elem h ks

abbrev pub Distinct : List ℕ → Type 0
Distinct [] = Unit
Distinct (k ∷ ks) = (elem k ks ≡ false) × Distinct ks

-- A traversal that stops at the first element at which the call returns true.
abbrev pub each_until : {A : Type 0} → List ℕ → (ℕ → A → A × Bool) → A → A
each_until [] f a = a
each_until (k ∷ ks) f a =
    let (a', stop) = f k a in let rest = each_until ks f a' in if stop then a' else rest

pub record Sets : Type 1 where
  pub HashSet : Type 0
  pub new_set : HashSet
  pub add : ℕ → HashSet → HashSet
  pub discard : ℕ → HashSet → HashSet
  pub contains : ℕ → HashSet → Bool
  -- The elements, in the order of a traversal.
  pub elements : HashSet → List ℕ
  pub each : (A : Type 0) → HashSet → (ℕ → A → A × Bool) → A → A
  pub contains-new_set : (h : ℕ) → contains h new_set ≡ false
  pub contains-add : (h k : ℕ) (s : HashSet) → contains h (add k s) ≡ ((k == h) || contains h s)
  pub contains-discard :
      (h k : ℕ) (s : HashSet) → contains h (discard k s) ≡ (not (k == h) && contains h s)
  pub elem-elements : (h : ℕ) (s : HashSet) → elem h (elements s) ≡ contains h s
  pub elements-Distinct : (s : HashSet) → Distinct (elements s)
  pub each_elements :
      (A : Type 0) (s : HashSet) (f : ℕ → A → A × Bool) (a : A)
      → each A s f a ≡ each_until (elements s) f a
