-- ===== src/Filters/Housed.antt =====
-- The filters behind the addresses (whisperv6/filter.go): each stands at its own, and so does each
-- watcher.
use whisper.Base.{
  ℕ, ◌≡◌, refl, sym, ap, ◌∙◌, List, [], ◌∷◌, Bool, true, false, ◌&&◌, Option, none, some, some_inj,
  none_is_some, ◌==◌, arith, if◌then◌else◌, length, All, Bool-cases, Option-cases, inl, inr, ==_iff,
}
use whisper.Base.Assoc.{lookup, insert, lookup-insert, lookup-remove}
use whisper.Base.Outcome.{ok_inj, ok}
use whisper.Envelope.{Envelope}
use whisper.Filters.{
  Filter, Filters, is_set, add_topic_matcher, with_id, remove_from_topic_matchers,
  get_watchers_by_topic, install, uninstall, offer, notify, deref, notify_watchers,
}
use whisper.Filters.Total.{heap-add_matcher}
use whisper.Message.{ReceivedMessage}
use whisper.Platform.{Platform}

module _ {P : Platform} where
  -- The filter is the one behind its own address.
  abbrev pub AtHome : Filters P → Filter P → Type 0
  AtHome fs f = lookup f.at fs.heap ≡ some f

  -- A pointer leads to a filter of that address, and each watcher is what its pointer leads to.
  pub record IsHoused (fs : Filters P) : Type 0 where
    pub addressed : (a : ℕ) (f : Filter P) → lookup a fs.heap ≡ some f → f.at ≡ a
    pub watched : (id : ℕ) (f : Filter P) → lookup id fs.watchers ≡ some f → AtHome fs f

module _ (P : Platform) where
  deref-AtHome :
      (fs : Filters P) (l : List ℕ) {found : List (Filter P)}
      → IsHoused fs
      → deref P fs.heap l ≡ some found
      → All (AtHome fs) found
  unfolding deref
  deref-AtHome fs [] k h = rw (← some_inj h) tt
  deref-AtHome fs (a ∷ l) k h = elim (Option-cases (lookup a fs.heap)) [
    | inl n ↦ absurd (none_is_some (rw (n, deref) at h))
    | inr (f, n) ↦ elim (Option-cases (deref P fs.heap l)) [
      | inl d ↦ absurd (none_is_some (rw (n, d, deref) at h))
      | inr (rest, d) ↦
          rw (← some_inj (rw (n, d, deref) at h))
            (ap (λ i. lookup i fs.heap) (k.addressed a f n) ∙ n, deref-AtHome fs l k d)
    ]
  ]

  -- Only the candidates are given messages.
  notify-All :
      (Q : Filter P → Type 0) (p2p : Bool) (e : Envelope P) (fs : List (Filter P))
      (msg : Option (ReceivedMessage P)) {out : List (Filter P × ReceivedMessage P)}
      → All Q fs
      → notify P p2p e fs msg ≡ some out
      → All (λ (d : Filter P × ReceivedMessage P). Q d.0) out
  unfolding notify
  notify-All Q p2p e [] msg q h = rw (← some_inj h) tt
  notify-All Q p2p e (f ∷ fs) msg (q, qs) h = elim (Option-cases (offer P p2p e f msg)) [
    | inl n ↦ absurd (none_is_some (rw (n, notify) at h))
    | inr ((none, got), o) ↦ notify-All Q p2p e fs none qs (rw (o, notify) at h)
    | inr ((some m, got), o) ↦ elim (Option-cases (notify P p2p e fs (some m))) [
      | inl n ↦ absurd (none_is_some (rw (o, n, notify) at h))
      | inr (rest, r) ↦
          let a = notify-All Q p2p e fs (some m) qs r in
          elim (Bool-cases got) [
            | inl g ↦ rw (← some_inj (rw (o, r, g, notify) at h)) (q, a)
            | inr g ↦ rw (← some_inj (rw (o, r, g, notify) at h)) a
          ]
    ]
  ]

  pub notify_watchers-AtHome :
      (p2p : Bool) (e : Envelope P) (fs : Filters P) {out : List (Filter P × ReceivedMessage P)}
      → IsHoused fs
      → notify_watchers P p2p e fs ≡ some out
      → All (λ (d : Filter P × ReceivedMessage P). AtHome fs d.0) out
  unfolding notify_watchers
  notify_watchers-AtHome p2p e fs k h =
      elim (Option-cases (deref P fs.heap (get_watchers_by_topic P e.topic fs))) [
        | inl n ↦ absurd (none_is_some (rw (n, notify_watchers) at h))
        | inr (candidates, d) ↦
            notify-All (AtHome fs) p2p e candidates none (deref-AtHome fs _ k d)
              (rw (d, notify_watchers) at h)
      ]

  watchers-add_matcher :
      (f : Filter P) (fs : Filters P) → (add_topic_matcher P f fs).watchers ≡ fs.watchers
  unfolding add_topic_matcher
  watchers-add_matcher f fs = elim (Bool-cases (length f.topics == 0)) [
    | inl c ↦ rw c refl
    | inr c ↦ rw c refl
  ]

  -- What `Install` does to the watchers and to the addresses.
  pub record Installed (f : Filter P) (fs fs' : Filters P) : Type 0 where
    pub id : ℕ
    pub heap_eq : fs'.heap ≡ insert f.at (with_id P id f) fs.heap
    pub watchers_eq : fs'.watchers ≡ insert id (with_id P id f) fs.watchers

  pub install-Installed :
      (random : Option ℕ) (f : Filter P) (fs : Filters P) {r : Filters P × ℕ}
      → install P random f fs ≡ ok r
      → Installed f fs r.0
  unfolding install
  install-Installed random f fs {r} h = elim (Bool-cases (is_set f.key_sym && is_set f.key_asym)) [
    | inl c ↦ absurd (ground (arith, rw (c, install) at h))
    | inr c ↦ elim (Option-cases random) [
      | inl n ↦ absurd (ground (arith, rw (c, n, install) at h))
      | inr (id, n) ↦ elim (Bool-cases (is_set (lookup id fs.watchers))) [
        | inl w ↦ absurd (ground (arith, rw (c, n, w, install) at h))
        | inr w ↦ rw (← ok_inj (rw (c, n, w, install) at h)) (record {
          id = id;
          heap_eq = heap-add_matcher P (with_id P id f) _;
          watchers_eq = watchers-add_matcher (with_id P id f) _;
        })
      ]
    ]
  ]

  -- The address of a new filter is free.
  pub Installed-IsHoused :
      (f : Filter P) (fs : Filters P) {fs' : Filters P}
      → Installed f fs fs'
      → lookup f.at fs.heap ≡ none
      → IsHoused fs
      → IsHoused fs'
  Installed-IsHoused f fs x free k = record {
    addressed = λ a g h.
        let y : (if f.at == a then some (with_id P x.id f) else lookup a fs.heap) ≡ some g =
          sym (ap (λ m. lookup a m) x.heap_eq ∙ lookup-insert f.at a _ fs.heap) ∙ h in
        elim (Bool-cases (f.at == a)) [
          | inl c ↦
              let z : some (with_id P x.id f) ≡ some g = rw c at y in
              ap (λ (i : Filter P). i.at) (sym (some_inj z)) ∙ (==_iff f.at a).0 c
          | inr c ↦ k.addressed a g (rw c at y)
        ];
    watched = λ id g h.
        let y : (if x.id == id then some (with_id P x.id f) else lookup id fs.watchers) ≡ some g =
          sym (ap (λ m. lookup id m) x.watchers_eq ∙ lookup-insert x.id id _ fs.watchers) ∙ h in
        ap (λ m. lookup g.at m) x.heap_eq
        ∙ lookup-insert f.at g.at _ fs.heap
        ∙ elim (Bool-cases (x.id == id)) [
          | inl c ↦
              let z : some (with_id P x.id f) ≡ some g = rw c at y in
              rw (← some_inj z) (ground arith)
          | inr c ↦
              let home : AtHome fs g = k.watched id g (rw c at y) in
              elim (Bool-cases (f.at == g.at)) [
                | inl d ↦ absurd (
                    none_is_some
                      (sym free ∙ ap (λ i. lookup i fs.heap) ((==_iff f.at g.at).0 d) ∙ home))
                | inr d ↦ rw d home
              ]
        ];
  }

  left :
      (b : Bool) (o : Option (Filter P)) (f : Filter P)
      → (if b then none else o) ≡ some f
      → o ≡ some f
  left true o f h = absurd (none_is_some h)
  left false o f h = h

  pub uninstall-IsHoused : (id : ℕ) (fs : Filters P) → IsHoused fs → IsHoused (uninstall P id fs).0
  unfolding uninstall remove_from_topic_matchers
  uninstall-IsHoused id fs k = elim (Option-cases (lookup id fs.watchers)) [
    | inl n ↦ rw (n, uninstall) k
    | inr (f, n) ↦
        rw (n, uninstall)
          (record {
            addressed = k.addressed;
            watched = λ j g h. k.watched j g (
                left (id == j) (lookup j fs.watchers) g (sym (lookup-remove id j fs.watchers) ∙ h));
          })
  ]

  pub heap-uninstall : (id : ℕ) (fs : Filters P) → (uninstall P id fs).0.heap ≡ fs.heap
  unfolding uninstall remove_from_topic_matchers
  heap-uninstall id fs = elim (Option-cases (lookup id fs.watchers)) [
    | inl n ↦ rw (n, uninstall) refl
    | inr (f, n) ↦ rw (n, uninstall) refl
  ]
