-- ===== src/Peer/Broadcast.antt =====
-- What `broadcast` of whisperv6/peer.go sends, and what it remembers of it.
use whisper.Base.{
  some_inj, none_is_some, ℕ, suc, ◌≡◌, refl, sym, ap, ◌∙◌, List, [], ◌∷◌, Bool, true, false, arith,
  Option, none, some, ◌==◌, Bool-cases, inl, inr, map, length,
}
use whisper.Platform.{Platform}
use whisper.Envelope.{Envelope}
use whisper.Peer.{
  Peer, pick, wants, bloom_match, mark, marked, mark_all, hash_of, broadcast, sent_event,
}
use whisper.Sets.{Sets, elem}

module _ (P : Platform) (S : Sets) where
  hashes : List (Envelope P) → List ℕ
  hashes es = map (hash_of P S) es

  abbrev pub add_all : List (Envelope P) → S.HashSet → S.HashSet
  add_all [] known = known
  add_all (e ∷ es) known = add_all es (S.add (hash_of P S e) known)

  pub mark_all_lem :
      (es : List (Envelope P)) (p : Peer P S)
      → mark_all P S es p ≡ record p { known = add_all es p.known }
  unfolding mark_all mark
  mark_all_lem [] p = refl
  mark_all_lem (e ∷ es) p = mark_all_lem es (mark P S e p)

  pub contains-add_all_known :
      (es : List (Envelope P)) (known : S.HashSet) (h : ℕ)
      → S.contains h known ≡ true
      → S.contains h (add_all es known) ≡ true
  contains-add_all_known [] known h c = c
  contains-add_all_known (e ∷ es) known h c =
      contains-add_all_known es (S.add (hash_of P S e) known) h
        (S.contains-add h (hash_of P S e) known ∙ ground (arith, c))

  pub contains-add_all :
      (es : List (Envelope P)) (known : S.HashSet) (h : ℕ)
      → elem h (map (hash_of P S) es) ≡ true
      → S.contains h (add_all es known) ≡ true
  contains-add_all [] known h m = absurd (ground (arith, m))
  contains-add_all (e ∷ es) known h m = elim (Bool-cases (hash_of P S e == h)) [
    | inl c ↦
        contains-add_all_known es (S.add (hash_of P S e) known) h
          (S.contains-add h (hash_of P S e) known ∙ rw c refl)
    | inr c ↦ contains-add_all es (S.add (hash_of P S e) known) h (sym (rw c refl) ∙ m)
  ]

  abbrev Covers : S.HashSet → List ℕ → S.HashSet → Type 0
  Covers known sent after =
      ((h : ℕ) → S.contains h known ≡ true → S.contains h after ≡ true)
      × ((h : ℕ) → elem h sent ≡ true → S.contains h after ≡ true)

  pub wants_marked :
      (p : Peer P S) (x : Envelope P)
      → S.contains (hash_of P S x) p.known ≡ true
      → wants P S p x ≡ some false
  unfolding wants marked
  wants_marked p x m = rw m refl

  wants_still :
      (p : Peer P S) (x : Envelope P) (after : S.HashSet)
      → wants P S p x ≡ some false
      → S.contains (hash_of P S x) p.known ≡ false
      → S.contains (hash_of P S x) after ≡ false
      → wants P S (record p { known = after }) x ≡ some false
  unfolding wants marked bloom_match
  wants_still p x after e m n = rw n (sym (rw m refl) ∙ e)

  wants_again :
      (p : Peer P S) (x : Envelope P) (after : S.HashSet) (bundle : List (Envelope P))
      → Covers p.known (map (hash_of P S) bundle) after
      → wants P S p x ≡ some false
      → wants P S (record p { known = after }) x ≡ some false
  wants_again p x after bundle c e = elim (Bool-cases (S.contains (hash_of P S x) after)) [
    | inl n ↦ wants_marked (record p { known = after }) x n
    | inr n ↦ elim (Bool-cases (S.contains (hash_of P S x) p.known)) [
      | inl m ↦ absurd (ground (arith, c.0 (hash_of P S x) m, n))
      | inr m ↦ wants_still p x after e m n
    ]
  ]

  step_result : Envelope P → Option (List (Envelope P)) → Option Bool → Option (List (Envelope P))
  step_result x none w = none
  step_result x (some bundle) none = none
  step_result x (some bundle) (some true) = some (x ∷ bundle)
  step_result x (some bundle) (some false) = some bundle

  pick-step_result :
      (p : Peer P S) (x : Envelope P) (es : List (Envelope P)) (o : Option (List (Envelope P)))
      → pick P S p es ≡ o
      → pick P S p (x ∷ es) ≡ step_result x o (wants P S p x)
  unfolding pick step_result
  pick-step_result p x es none e = rw e refl
  pick-step_result p x es (some bundle) e =
      rw e (elim (wants P S p x) [ none ↦ refl | some true ↦ refl | some false ↦ refl ])

  pick_cons :
      (p : Peer P S) (x : Envelope P) (es : List (Envelope P)) (o : Option (List (Envelope P)))
      (w : Option Bool)
      → pick P S p es ≡ o
      → wants P S p x ≡ w
      → pick P S p (x ∷ es) ≡ step_result x o w
  pick_cons p x es o w e f = pick-step_result p x es o e ∙ ap (step_result x o) f

  not_empty : (n : ℕ) → (suc n == 0) ≡ false
  not_empty n = ground arith

  again_case :
      (x : Envelope P) (es : List (Envelope P)) (p : Peer P S) (after : S.HashSet)
      (bundle : List (Envelope P)) (o : Option (List (Envelope P))) (w : Option Bool)
      → pick P S p es ≡ o
      → wants P S p x ≡ w
      → pick P S p (x ∷ es) ≡ some bundle
      → Covers p.known (map (hash_of P S) bundle) after
      → ((rest : List (Envelope P))
          → pick P S p es ≡ some rest
          → Covers p.known (map (hash_of P S) rest) after
          → pick P S (record p { known = after }) es ≡ some [])
      → pick P S (record p { known = after }) (x ∷ es) ≡ some []
  unfolding step_result
  again_case x es p after bundle none w r v e c ih =
      absurd (none_is_some (sym (pick_cons p x es none w r v) ∙ e))
  again_case x es p after bundle (some rest) none r v e c ih =
      absurd (none_is_some (sym (pick_cons p x es (some rest) none r v) ∙ e))
  again_case x es p after bundle (some rest) (some true) r v e c ih =
      let same : x ∷ rest ≡ bundle =
        some_inj (sym (pick_cons p x es (some rest) (some true) r v) ∙ e) in
      let sent : (h : ℕ)
          → elem h (map (hash_of P S) (x ∷ rest)) ≡ true
          → S.contains h after ≡ true =
        λ h m. c.1 h (ap (λ l. elem h (map (hash_of P S) l)) (sym same) ∙ m) in
      pick_cons (record p { known = after }) x es (some []) (some false)
        (ih rest r (c.0, λ h m. sent h (ground (arith, m))))
        (wants_marked (record p { known = after }) x (sent (hash_of P S x) (ground arith)))
  again_case x es p after bundle (some rest) (some false) r v e c ih =
      let same : rest ≡ bundle =
        some_inj (sym (pick_cons p x es (some rest) (some false) r v) ∙ e) in
      pick_cons (record p { known = after }) x es (some []) (some false)
        (ih bundle (r ∙ ap some same) c) (wants_again p x after bundle c v)

  pick_again :
      (es : List (Envelope P)) (p : Peer P S) (after : S.HashSet) (bundle : List (Envelope P))
      → pick P S p es ≡ some bundle
      → Covers p.known (map (hash_of P S) bundle) after
      → pick P S (record p { known = after }) es ≡ some []
  unfolding pick
  pick_again [] p after bundle e c = refl
  pick_again (x ∷ es) p after bundle e c =
      again_case x es p after bundle (pick P S p es) (wants P S p x) refl refl e c
        (λ rest r d. pick_again es p after rest r d)

  sent_again :
      (es : List (Envelope P)) (p : Peer P S) (bundle : List (Envelope P))
      → pick P S p es ≡ some bundle
      → pick P S (mark_all P S bundle p) es ≡ some []
  sent_again es p bundle e =
      ap (λ q. pick P S q es) (mark_all_lem bundle p)
      ∙ pick_again es p (add_all bundle p.known) bundle e (
        λ h c. contains-add_all_known bundle p.known h c,
        λ h m. contains-add_all bundle p.known h m,
      )

  -- Once a broadcast's bundle was sent, a broadcast of the same envelopes to the same peer sends
  -- nothing, reports nothing and leaves the peer as it is, whatever the connection does.
  pub broadcast_once :
      (deliver again : List (Envelope P) → Option ℕ) (es : List (Envelope P)) (p : Peer P S)
      (bundle : List (Envelope P)) (batch : ℕ)
      → pick P S p es ≡ some bundle
      → deliver bundle ≡ some batch
      → (q : Peer P S) × (broadcast P S deliver es p
          ≡ some (record {
            peer = q;
            bundle = bundle;
            events = map (sent_event P S p batch) bundle;
            failure = false;
          }))
        × (broadcast P S again es q
            ≡ some (record { peer = q; bundle = []; events = []; failure = false }))
  unfolding broadcast
  broadcast_once deliver again es p [] batch e d =
      (p, rw (e, broadcast) refl, rw (e, broadcast) refl)
  broadcast_once deliver again es p (x ∷ rest) batch e d = (
    mark_all P S (x ∷ rest) p,
    rw (e, d, not_empty (length rest), broadcast) refl,
    rw (sent_again es p (x ∷ rest) e, broadcast) refl,
  )
