-- ===== src/Filters/Stocked.antt =====
-- What the filters' stores hold (whisperv6/filter.go).
use whisper.Base.{ℕ, List, [], ◌∷◌, ◌==◌, All, Bool-cases, inl, inr, ==_iff}
use whisper.Base.Assoc.{lookup, insert, remove}
use whisper.Filters.{Filter, is_set, store_message}
use whisper.Filters.Polls.{IsKeyed, store_message-IsKeyed, empty-IsKeyed, pop-empties}
use whisper.Filters.Store.{Store, Stores, pop, put_store, trigger, trigger_all, retrieve}
use whisper.Message.{ReceivedMessage}
use whisper.Platform.{Platform}
use mathlib.Core.Path.{subst}

module _ (P : Platform) (Q : ℕ → ReceivedMessage P → Type 0) where
  abbrev pub Stock : ℕ → Store P → Type 0
  Stock a s = All (λ (e : ℕ × ReceivedMessage P). Q a e.1) s

  -- Each message stands once, under its hash, and is as `Q` asks at its address.
  pub record IsStocked (ss : Stores P) : Type 0 where
    pub keyed : (a : ℕ) → IsKeyed P (ss a)
    pub stock : (a : ℕ) → Stock a (ss a)

  remove-Stock : (a k : ℕ) (s : Store P) → Stock a s → Stock a (remove k s)
  unfolding remove
  remove-Stock a k [] x = tt
  remove-Stock a k ((j, m) ∷ s) x = elim (Bool-cases (j == k)) [
    | inl c ↦ rw c (remove-Stock a k s x.1)
    | inr c ↦ rw c (x.0, remove-Stock a k s x.1)
  ]

  store_message-Stock :
      (a : ℕ) (m : ReceivedMessage P) (s : Store P)
      → Q a m
      → Stock a s
      → Stock a (store_message P m s)
  unfolding store_message insert
  store_message-Stock a m s q x = elim (Bool-cases (is_set (lookup m.envelope_hash s))) [
    | inl c ↦ rw (c, store_message) x
    | inr c ↦ rw (c, store_message) (q, remove-Stock a m.envelope_hash s x)
  ]

  pub put_store-IsStocked :
      (a : ℕ) (s : Store P) (ss : Stores P)
      → IsKeyed P s
      → Stock a s
      → IsStocked ss
      → IsStocked (put_store P a s ss)
  unfolding put_store
  put_store-IsStocked a s ss k x all = record {
    keyed = λ b. elim (Bool-cases (a == b)) [
      | inl c ↦ rw (c, put_store) k
      | inr c ↦ rw (c, put_store) (all.keyed b)
    ];
    stock = λ b. elim (Bool-cases (a == b)) [
      | inl c ↦ rw (c, put_store) (subst (λ i. Stock i s) ((==_iff a b).0 c) x)
      | inr c ↦ rw (c, put_store) (all.stock b)
    ];
  }

  pub trigger_all-IsStocked :
      (out : List (Filter P × ReceivedMessage P)) (ss : Stores P)
      → All (λ (d : Filter P × ReceivedMessage P). Q d.0.at d.1) out
      → IsStocked ss
      → IsStocked (trigger_all P out ss)
  unfolding trigger_all trigger
  trigger_all-IsStocked [] ss q all = all
  trigger_all-IsStocked ((f, m) ∷ out) ss (q, qs) all = trigger_all-IsStocked out _ qs (
      put_store-IsStocked f.at (store_message P m (ss f.at)) ss
        (store_message-IsKeyed P m (ss f.at) (all.keyed f.at))
        (store_message-Stock f.at m (ss f.at) q (all.stock f.at)) all)

  -- What a poll returns, and the stores then.
  pop-Stock : (a : ℕ) (s : Store P) → Stock a s → All (Q a) (pop P s).0
  unfolding pop
  pop-Stock a [] x = tt
  pop-Stock a ((h, m) ∷ s) x = (x.0, pop-Stock a s x.1)

  pub retrieve-IsStocked :
      (f : Filter P) (ss : Stores P)
      → IsStocked ss
      → All (Q f.at) (retrieve P f ss).0 × IsStocked (retrieve P f ss).1
  unfolding retrieve
  retrieve-IsStocked f ss all = (
    pop-Stock f.at (ss f.at) (all.stock f.at),
    put_store-IsStocked f.at _ ss (rw (pop-empties P (ss f.at)) (empty-IsKeyed P))
        (rw (pop-empties P (ss f.at)) tt) all,
  )

-- What holds at each address may change as long as nothing there loses it.
pub Stocked-map :
    (P : Platform) (Q R : ℕ → ReceivedMessage P → Type 0) (ss : Stores P)
    → ((a : ℕ)
        → All (λ (e : ℕ × ReceivedMessage P). Q a e.1) (ss a)
        → All (λ (e : ℕ × ReceivedMessage P). R a e.1) (ss a))
    → IsStocked P Q ss
    → IsStocked P R ss
Stocked-map P Q R ss keep k = record { keyed = k.keyed; stock = λ a. keep a (k.stock a) }
