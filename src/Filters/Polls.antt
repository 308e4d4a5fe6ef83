-- ===== src/Filters/Polls.antt =====
-- What polling a filter gives, whatever was triggered and polled before (whisperv6/filter.go).
use whisper.Base.{
  ℕ, ◌≡◌, refl, sym, ap, ◌∙◌, List, [], ◌∷◌, Option, none, some, ◌==◌, if◌then◌else◌, All,
  Bool-cases, Option-cases, inl, inr, ==_iff, none_is_some,
}
use whisper.Base.Assoc.{lookup, insert, remove, Unique, lookup-insert, insert-Unique}
use whisper.Filters.{Filter, is_set, store_message}
use whisper.Filters.Store.{Store, Stores, pop, put_store, trigger, retrieve}
use whisper.Message.{ReceivedMessage}
use whisper.Platform.{Platform}

-- A call on the filters' stores.
pub data Call (P : Platform) : Type 0 where
  triggers : Filter P → ReceivedMessage P → Call P
  retrieves : Filter P → Call P

module _ (P : Platform) where
  abbrev pub Wanted : Type 0
  Wanted = ℕ → Option (ReceivedMessage P)

  -- The messages by the hash of their envelope, as a map.
  abbrev pub by_hash : List (ReceivedMessage P) → Store P
  by_hash [] = []
  by_hash (m ∷ ms) = (m.envelope_hash, m) ∷ by_hash ms

  -- The calls, as the code makes them: what each retrieval gave, and the stores then.
  unfoldable pub run : List (Call P) → Stores P → List (List (ReceivedMessage P)) × Stores P
  unfolding trigger retrieve
  run [] ss = ([], ss)
  run (triggers f m ∷ calls) ss = run calls (trigger P f m ss)
  run (retrieves f ∷ calls) ss =
      let (out, ss') = retrieve P f ss in let (outs, last) = run calls ss' in (out ∷ outs, last)

  -- The same calls on a function: for a filter and a hash, the first message that came since the
  -- last retrieval.
  abbrev pub keep : ReceivedMessage P → ℕ → Option (ReceivedMessage P) → Option (ReceivedMessage P)
  keep m h (some x) = some x
  keep m h none = if m.envelope_hash == h then some m else none

  abbrev pub keep_first : ReceivedMessage P → Wanted → Wanted
  keep_first m v h = keep m h (v h)

  abbrev pub at_address : ℕ → Wanted → (ℕ → Wanted) → ℕ → Wanted
  at_address a v vs b = if a == b then v else vs b

  unfoldable pub replay : List (Call P) → (ℕ → Wanted) → List Wanted
  replay [] vs = []
  replay (triggers f m ∷ calls) vs = replay calls (at_address f.at (keep_first m (vs f.at)) vs)
  replay (retrieves f ∷ calls) vs = vs f.at ∷ replay calls (at_address f.at (λ h. none) vs)

  -- Every message is stored once, under its own hash.
  pub record IsKeyed (s : Store P) : Type 0 where
    pub unique : Unique s
    pub keyed : All (λ (e : ℕ × ReceivedMessage P). e.1.envelope_hash ≡ e.0) s

  pub empty-IsKeyed : IsKeyed []
  empty-IsKeyed = record { unique = tt; keyed = tt }

  remove-keyed :
      (k : ℕ) (s : Store P)
      → All (λ (e : ℕ × ReceivedMessage P). e.1.envelope_hash ≡ e.0) s
      → All (λ (e : ℕ × ReceivedMessage P). e.1.envelope_hash ≡ e.0) (remove k s)
  unfolding remove
  remove-keyed k [] a = tt
  remove-keyed k ((j, m) ∷ s) a = elim (Bool-cases (j == k)) [
    | inl c ↦ rw c (remove-keyed k s a.1)
    | inr c ↦ rw c (a.0, remove-keyed k s a.1)
  ]

  insert-IsKeyed :
      (m : ReceivedMessage P) (s : Store P) → IsKeyed s → IsKeyed (insert m.envelope_hash m s)
  unfolding insert
  insert-IsKeyed m s k = record {
    unique = insert-Unique m.envelope_hash m s k.unique;
    keyed = (refl, remove-keyed m.envelope_hash s k.keyed);
  }

  pub store_message-IsKeyed :
      (m : ReceivedMessage P) (s : Store P) → IsKeyed s → IsKeyed (store_message P m s)
  unfolding store_message
  store_message-IsKeyed m s k = elim (Bool-cases (is_set (lookup m.envelope_hash s))) [
    | inl c ↦ rw (c, store_message) k
    | inr c ↦ rw (c, store_message) (insert-IsKeyed m s k)
  ]

  -- A store that has a message keeps it.
  keep_same :
      (m x : ReceivedMessage P) (s : Store P) (h : ℕ)
      → lookup m.envelope_hash s ≡ some x
      → lookup h s ≡ keep m h (lookup h s)
  keep_same m x s h y = elim (Option-cases (lookup h s)) [
    | inr (z, n) ↦ rw n refl
    | inl n ↦ elim (Bool-cases (m.envelope_hash == h)) [
      | inl c ↦
          let e : m.envelope_hash ≡ h = (==_iff m.envelope_hash h).0 c in
          absurd (none_is_some (sym n ∙ ap (λ j. lookup j s) (sym e) ∙ y))
      | inr c ↦ rw (n, c) refl
    ]
  ]

  keep_new :
      (m : ReceivedMessage P) (s : Store P) (h : ℕ)
      → lookup m.envelope_hash s ≡ none
      → (if m.envelope_hash == h then some m else lookup h s) ≡ keep m h (lookup h s)
  keep_new m s h y = elim (Bool-cases (m.envelope_hash == h)) [
    | inl c ↦
        let e : m.envelope_hash ≡ h = (==_iff m.envelope_hash h).0 c in
        let n : lookup h s ≡ none = ap (λ j. lookup j s) (sym e) ∙ y in rw (n, c) refl
    | inr c ↦ elim (Option-cases (lookup h s)) [
      | inl n ↦ rw (n, c) refl
      | inr (z, n) ↦ rw (n, c) refl
    ]
  ]

  pub lookup-store_message :
      (m : ReceivedMessage P) (s : Store P) (h : ℕ)
      → lookup h (store_message P m s) ≡ keep m h (lookup h s)
  unfolding store_message
  lookup-store_message m s h = elim (Option-cases (lookup m.envelope_hash s)) [
    | inr (x, y) ↦ rw (y, store_message) (keep_same m x s h y)
    | inl y ↦ rw (y, store_message) (lookup-insert m.envelope_hash h m s ∙ keep_new m s h y)
  ]

  by_hash-pop : (s : Store P) → IsKeyed s → by_hash (pop P s).0 ≡ s
  unfolding pop
  by_hash-pop [] k = refl
  by_hash-pop ((h, m) ∷ s) k =
      rw (k.keyed.0, by_hash-pop s (record { unique = k.unique.1; keyed = k.keyed.1 })) refl

  pub pop-empties : (s : Store P) → (pop P s).1 ≡ []
  unfolding pop
  pop-empties [] = refl
  pop-empties ((h, m) ∷ s) = pop-empties s

  -- A list of polled messages is the map that it should be.
  abbrev pub Matches : List (List (ReceivedMessage P)) → List Wanted → Type 0
  Matches [] [] = Unit
  Matches [] (v ∷ vs) = ⊥
  Matches (o ∷ os) [] = ⊥
  Matches (o ∷ os) (v ∷ vs) =
      Unique (by_hash o) × ((h : ℕ) → lookup h (by_hash o) ≡ v h) × Matches os vs

  -- The stores hold what the function says.
  pub record Holds (ss : Stores P) (vs : ℕ → Wanted) : Type 0 where
    pub are_keyed : (a : ℕ) → IsKeyed (ss a)
    pub agree : (a h : ℕ) → lookup h (ss a) ≡ vs a h

  put-Holds :
      (a : ℕ) (s : Store P) (v : Wanted) (ss : Stores P) (vs : ℕ → Wanted)
      → IsKeyed s
      → ((h : ℕ) → lookup h s ≡ v h)
      → Holds ss vs
      → Holds (put_store P a s ss) (at_address a v vs)
  unfolding put_store
  put-Holds a s v ss vs k e held = record {
    are_keyed = λ b. elim (Bool-cases (a == b)) [
      | inl c ↦ rw (c, put_store) k
      | inr c ↦ rw (c, put_store) (held.are_keyed b)
    ];
    agree = λ b h. elim (Bool-cases (a == b)) [
      | inl c ↦ rw (c, put_store) (e h)
      | inr c ↦ rw (c, put_store) (held.agree b h)
    ];
  }

  keep_first-agrees :
      (m : ReceivedMessage P) (s : Store P) (v : Wanted) (h : ℕ)
      → lookup h s ≡ v h
      → lookup h (store_message P m s) ≡ keep_first m v h
  keep_first-agrees m s v h e = lookup-store_message m s h ∙ ap (keep m h) e

  -- Whatever messages were triggered and whichever filters were polled, in any order: each poll of
  -- `Retrieve` gives, for its own filter only, no two messages of one envelope, and for each envelope
  -- hash the first message that was triggered since the last poll of this filter, or none if there
  -- was none.
  pub run-Matches :
      (calls : List (Call P)) (ss : Stores P) (vs : ℕ → Wanted)
      → Holds ss vs
      → Matches (run calls ss).0 (replay calls vs)
  unfolding run replay trigger retrieve lookup
  run-Matches [] ss vs held = tt
  run-Matches (triggers f m ∷ calls) ss vs held = run-Matches calls _ _ (
      put-Holds f.at (store_message P m (ss f.at)) (keep_first m (vs f.at)) ss vs
        (store_message-IsKeyed m (ss f.at) (held.are_keyed f.at))
        (λ h. keep_first-agrees m (ss f.at) (vs f.at) h (held.agree f.at h)) held)
  run-Matches (retrieves f ∷ calls) ss vs held =
      let k = held.are_keyed f.at in
      let same = by_hash-pop (ss f.at) k in
      let gone = pop-empties (ss f.at) in
      (
        rw same k.unique,
        λ h. rw same (held.agree f.at h),
        run-Matches calls _ _ (
            put-Holds f.at (pop P (ss f.at)).1 (λ h. none) ss vs (rw gone empty-IsKeyed)
              (λ h. rw gone refl) held),
      )
