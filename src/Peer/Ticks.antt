-- ===== src/Peer/Ticks.antt =====
-- The updater of a peer (`update` of whisperv6/peer.go) over the ticks of its two timers.
use whisper.Base.{
  List-cases, ℕ, ◌≡◌, refl, sym, ap, ◌∙◌, List, [], ◌∷◌, map, Bool, true, false, ◌&&◌, ◌||◌, Option,
  none, some, some_inj, none_is_some, All, arith, length, ◌==◌, if◌then◌else◌, Bool-cases,
  Option-cases, inl, inr, ==_iff,
}
use whisper.Envelope.{Envelope}
use whisper.Peer.{Peer, Broadcasted, expire, broadcast, pick, wants, mark_all, hash_of}
use whisper.Peer.Broadcast.{
  add_all, mark_all_lem, contains-add_all_known, contains-add_all, wants_marked,
}
use whisper.Peer.Forget.{expire_first_only}
use whisper.Platform.{Platform}
use whisper.Sets.{Sets, elem}

-- A tick of the expiry timer, with what the host caches then; one of the transmission timer, with the
-- connection and the host's envelopes then; or the end.
pub data PeerTick (P : Platform) : Type 0 where
  expire_tick : (ℕ → Bool) → PeerTick P
  transmit_tick : (List (Envelope P) → Option ℕ) → List (Envelope P) → PeerTick P
  quit_tick : PeerTick P

-- The ticks that were served, each with the bundle that was sent.
abbrev pub Log : Platform → Type 0
Log P = List (PeerTick P × List (Envelope P))

module _ (P : Platform) (S : Sets) where
  abbrev pub logged :
      PeerTick P → List (Envelope P) → Option (Peer P S × Log P) → Option (Peer P S × Log P)
  logged t bundle none = none
  logged t bundle (some (p, log)) = some (p, (t, bundle) ∷ log)

  -- `update`: it ends at a broadcast that fails, or when it is told to; `none` is a panic.
  unfoldable pub update : List (PeerTick P) → Peer P S → Option (Peer P S × Log P)
  unfolding expire broadcast
  update [] p = some (p, [])
  update (expire_tick c ∷ ts) p = logged (expire_tick c) [] (update ts (expire P S c p))
  update (transmit_tick deliver es ∷ ts) p = elim (broadcast P S deliver es p) [
    | none ↦ none
    | some r ↦
        let rest = update ts r.peer in
        if r.failure then some (r.peer, []) else logged (transmit_tick deliver es) r.bundle rest
  ]
  update (quit_tick ∷ ts) p = some (p, [])

  -- No bundle has an envelope that an earlier one had, or that was known before, unless the host did
  -- not cache it any more at a tick of the expiry timer between the two.
  abbrev pub NoRepeats : (ℕ → Bool) → Log P → Type 0
  NoRepeats seen [] = Unit
  NoRepeats seen ((expire_tick c, bundle) ∷ log) = NoRepeats (λ h. seen h && c h) log
  NoRepeats seen ((quit_tick, bundle) ∷ log) = NoRepeats seen log
  NoRepeats seen ((transmit_tick deliver es, bundle) ∷ log) =
      All (λ e. seen (hash_of P S e) ≡ false) bundle
      × NoRepeats (λ h. seen h || elem h (map (hash_of P S) bundle)) log

  not_wanted : some false ≡ some true → ⊥
  not_wanted h = absurd (ground (arith, some_inj h))

  wants_unknown :
      (p : Peer P S) (e : Envelope P)
      → wants P S p e ≡ some true
      → S.contains (hash_of P S e) p.known ≡ false
  wants_unknown p e h = elim (Bool-cases (S.contains (hash_of P S e) p.known)) [
    | inl m ↦ absurd (not_wanted (sym (wants_marked P S p e m) ∙ h))
    | inr m ↦ m
  ]

  abbrev Unknown : Peer P S → Envelope P → Type 0
  Unknown p e = S.contains (hash_of P S e) p.known ≡ false

  pick-Unknown :
      (p : Peer P S) (es bundle : List (Envelope P))
      → pick P S p es ≡ some bundle
      → All (Unknown p) bundle
  unfolding pick
  pick-Unknown p [] bundle h = rw (← some_inj h) tt
  pick-Unknown p (e ∷ es) bundle h = elim (Option-cases (pick P S p es)) [
    | inl n ↦ absurd (none_is_some (rw (n, pick) at h))
    | inr (rest, r) ↦
        let k = pick-Unknown p es rest r in
        elim (Option-cases (wants P S p e)) [
          | inl n ↦ absurd (none_is_some (rw (r, n, pick) at h))
          | inr (true, n) ↦ rw (← some_inj (rw (r, n, pick) at h)) (wants_unknown p e n, k)
          | inr (false, n) ↦ rw (← some_inj (rw (r, n, pick) at h)) k
        ]
  ]

  -- What a broadcast that succeeds sends, and what is known after it.
  record Sends (p : Peer P S) (r : Broadcasted P S) : Type 0 where
    pub unknown : All (Unknown p) r.bundle
    pub keeps : (h : ℕ) → S.contains h p.known ≡ true → S.contains h r.peer.known ≡ true
    pub learns :
        (h : ℕ) → elem h (map (hash_of P S) r.bundle) ≡ true → S.contains h r.peer.known ≡ true

  mark_all-known :
      (p : Peer P S) (es : List (Envelope P)) → (mark_all P S es p).known ≡ add_all P S es p.known
  mark_all-known p es = ap (λ (q : Peer P S). q.known) (mark_all_lem P S es p)

  broadcast-Sends :
      (deliver : List (Envelope P) → Option ℕ) (es : List (Envelope P)) (p : Peer P S)
      {r : Broadcasted P S}
      → broadcast P S deliver es p ≡ some r
      → r.failure ≡ false
      → Sends p r
  unfolding broadcast
  broadcast-Sends deliver es p {r} h ok = elim (Option-cases (pick P S p es)) [
    | inl n ↦ absurd (none_is_some (rw (n, broadcast) at h))
    | inr (bundle, b) ↦ elim (Bool-cases (length bundle == 0)) [
      | inl c ↦
          rw (← some_inj (rw (b, c, broadcast) at h))
            (record { unknown = tt; keeps = λ i k. k; learns = λ i m. absurd (ground (arith, m)) })
      | inr c ↦ elim (Option-cases (deliver bundle)) [
        | inl n ↦
            let x = some_inj (rw (b, c, n, broadcast) at h) in
            let y : true ≡ r.failure = ap (λ (z : Broadcasted P S). z.failure) x in
            absurd (ground (arith, y, ok))
        | inr (batch, y) ↦ rw (← some_inj (rw (b, c, y, broadcast) at h)) (record {
          unknown = pick-Unknown p es bundle b;
          keeps =
              λ i k. rw (mark_all-known p bundle) (contains-add_all_known P S bundle p.known i k);
          learns = λ i m. rw (mark_all-known p bundle) (contains-add_all P S bundle p.known i m);
        })
      ]
    ]
  ]

  -- What the host still caches is not forgotten.
  expire_keeps :
      (c : ℕ → Bool) (p : Peer P S) (h : ℕ)
      → S.contains h p.known ≡ true
      → c h ≡ true
      → S.contains h (expire P S c p).known ≡ true
  expire_keeps c p h k cached = elim (List-cases (S.elements p.known)) [
    | inl n ↦
        let x : elem h [] ≡ true = ap (elem h) (sym n) ∙ S.elem-elements h p.known ∙ k in
        absurd (ground (arith, x))
    | inr (j, rest, n) ↦ expire_first_only P S c p j rest n h ∙ elim (Bool-cases (h == j)) [
      | inl e ↦ rw e (ap c (sym ((==_iff h j).0 e)) ∙ cached)
      | inr e ↦ rw e k
    ]
  ]

  logged_inj :
      (t : PeerTick P) (b : List (Envelope P)) (o : Option (Peer P S × Log P)) {q : Peer P S}
      {log : Log P}
      → logged t b o ≡ some (q, log)
      → (rest : Log P) × (o ≡ some (q, rest)) × ((t, b) ∷ rest ≡ log)
  logged_inj t b none h = absurd (none_is_some h)
  logged_inj t b (some (p, rest)) {q} {log} h =
      let x : ◌≡◌ {A = Peer P S × Log P} (p, (t, b) ∷ rest) (q, log) = some_inj h in
      let same : p ≡ q = ap (λ (y : Peer P S × Log P). y.0) x in
      (rest, rw same refl, ap (λ (y : Peer P S × Log P). y.1) x)

  All-unseen :
      (seen : ℕ → Bool) (p : Peer P S) (es : List (Envelope P))
      → ((h : ℕ) → seen h ≡ true → S.contains h p.known ≡ true)
      → All (Unknown p) es
      → All (λ e. seen (hash_of P S e) ≡ false) es
  All-unseen seen p [] k a = tt
  All-unseen seen p (e ∷ es) k (u, a) = (
    elim (Bool-cases (seen (hash_of P S e))) [
      | inl s ↦ absurd (ground (arith, k (hash_of P S e) s, u))
      | inr s ↦ s
    ],
    All-unseen seen p es k a,
  )

  runs-NoRepeats :
      (ts : List (PeerTick P)) (p : Peer P S) (seen : ℕ → Bool)
      → ((h : ℕ) → seen h ≡ true → S.contains h p.known ≡ true)
      → {q : Peer P S} → {log : Log P} → update ts p ≡ some (q, log)
      → NoRepeats seen log
  unfolding update
  runs-NoRepeats [] p seen k {q} {log} h =
      let x : ◌≡◌ {A = Log P} [] log = ap (λ (y : Peer P S × Log P). y.1) (some_inj h) in
      rw (← x) tt
  runs-NoRepeats (quit_tick ∷ ts) p seen k {q} {log} h =
      let x : ◌≡◌ {A = Log P} [] log = ap (λ (y : Peer P S × Log P). y.1) (some_inj h) in
      rw (← x) tt
  runs-NoRepeats (expire_tick c ∷ ts) p seen k h =
      let (rest, o, same) = logged_inj (expire_tick c) [] (update ts (expire P S c p)) h in
      rw (← same) (
        runs-NoRepeats ts (expire P S c p) (λ i. seen i && c i)
          (λ i s. expire_keeps c p i (k i (ground (arith, s))) (ground (arith, s))) o)
  runs-NoRepeats (transmit_tick deliver es ∷ ts) p seen k {q} {log} h =
      elim (Option-cases (broadcast P S deliver es p)) [
        | inl n ↦ absurd (none_is_some (rw (n, update) at h))
        | inr (r, b) ↦ elim (Bool-cases r.failure) [
          | inl f ↦
              let y : ◌≡◌ {A = Option (Peer P S × Log P)} (some (r.peer, [])) (some (q, log)) =
                rw (b, f, update) at h in
              let x : ◌≡◌ {A = Log P} [] log = ap (λ (z : Peer P S × Log P). z.1) (some_inj y) in
              rw (← x) tt
          | inr f ↦
              let s = broadcast-Sends deliver es p b f in
              let (rest, o, same) =
                logged_inj (transmit_tick deliver es) r.bundle (update ts r.peer)
                  (rw (b, f, update) at h) in
              rw (← same) (
                All-unseen seen p r.bundle k s.unknown,
                runs-NoRepeats ts r.peer (λ i. seen i || elem i (map (hash_of P S) r.bundle))
                    (λ i x. elim (Bool-cases (seen i)) [
                      | inl y ↦ s.keeps i (k i y)
                      | inr y ↦ s.learns i (ground (arith, x, y))
                    ])
                    o,
              )
        ]
      ]

  -- In any order of the ticks of a peer's updater that ends without a panic, no envelope is sent to
  -- the peer that it was known to have, or that was sent to it before, unless the host did not cache
  -- the envelope any more at a tick of the expiry timer since then.
  pub update-NoRepeats :
      (ts : List (PeerTick P)) (p q : Peer P S) (log : Log P)
      → update ts p ≡ some (q, log)
      → NoRepeats (λ h. S.contains h p.known) log
  update-NoRepeats ts p q log h = runs-NoRepeats ts p (λ i. S.contains i p.known) (λ i k. k) h
