-- ===== src/Host/Callers.antt =====
-- The calls of users that change filters and settings keep a node in order (whisperv6/whisper.go).
use whisper.Base.{
  ℕ, ◌≡◌, ◌∙◌, refl, sym, ap, List, [], ◌∷◌, Bool, true, false, Option, none, replicate, arith, All,
  ◌==◌, ==_iff, Bool-cases, Option-cases, inl, inr,
}
use mathlib.Core.Path.{subst}
use whisper.Base.Assoc.{lookup, lookup-insert}
use whisper.Base.Outcome.{Outcome, ok, err, panic}
use whisper.Base.Yields.{Yields, Yields-then, Yields-ok, Yields-of}
use whisper.Api.{relabel, filter_error}
use whisper.Api.Criteria.{subscribe, unsubscribe}
use whisper.Api.Service.{Client, install_filter}
use whisper.Bloom.{add_bloom, bloom_filter_match}
use whisper.Constants.{bloom_filter_size}
use whisper.Filters.{Filter, Filters, FilterError, install}
use whisper.Filters.Polls.{empty-IsKeyed}
use whisper.Filters.Housed.{
  IsHoused, Installed, install-Installed, Installed-IsHoused, uninstall-IsHoused, heap-uninstall,
}
use whisper.Filters.Store.{Store, Stores, put_store, retrieve, new_memory_message_store}
use whisper.Filters.Stocked.{IsStocked, Stocked-map, put_store-IsStocked, retrieve-IsStocked}
use whisper.Filters.Total.{IsBacked, install-IsBacked, uninstall-IsBacked}
use whisper.Host.{Host}
use whisper.Host.Notices.{
  with_settings, notify_each, notify_peers_about_pow, notify_peers_about_bloom,
  notify_about_pow_requirement_change, notify_about_bloom_filter_change, announce_minimum_pow,
  announce_bloom_filter, widen_advertised, update_advertised_bloom,
}
use whisper.Host.Orderly.{IsOrderly, Fit, sending-IsOrderly}
use whisper.Message.{ReceivedMessage}
use whisper.Peer.{Peer}
use whisper.Platform.{Platform}
use whisper.Settings.{
  Settings, SettingError, set_minimum_pow, set_bloom_filter, aggregate, default_to,
}
use whisper.Sets.{Sets}

module _ (P : Platform) (S : Sets) where
  pub settings-IsOrderly :
      (s : Settings P) (w : Host P S) → IsOrderly w → IsOrderly (with_settings P S s w)
  settings-IsOrderly s w k = record {
    valid = k.valid;
    testable = k.testable;
    bounded = record { messages = k.bounded.messages; directs = k.bounded.directs };
    fair = k.fair;
    backed = k.backed;
    housed = k.housed;
    stocked = k.stocked;
  }

  pub filters-IsOrderly :
      (fs : Filters P) (ss : Stores P) (w : Host P S)
      → IsBacked fs
      → IsHoused fs
      → IsStocked P (Fit P fs.heap) ss
      → IsOrderly w
      → IsOrderly (record w { filters = fs; stores = ss })
  filters-IsOrderly fs ss w b d s k = record {
    valid = k.valid;
    testable = k.testable;
    bounded = k.bounded;
    fair = k.fair;
    backed = b;
    housed = d;
    stocked = s;
  }

  notify_each-IsOrderly :
      (tell : ℕ → Bool → Host P S → Host P S) (tries : ℕ → Bool × Bool) (ps : List (Peer P S))
      (w : Host P S)
      → ((i : ℕ) (b : Bool) (u : Host P S) → IsOrderly u → IsOrderly (tell i b u))
      → IsOrderly w
      → IsOrderly (notify_each P S tell tries ps w)
  unfolding notify_each
  notify_each-IsOrderly tell tries [] w keeps k = k
  notify_each-IsOrderly tell tries (p ∷ ps) w keeps k =
      notify_each-IsOrderly tell tries ps _ keeps (elim (Bool-cases (tries p.id).0) [
        | inl c ↦ rw c (keeps p.id true w k)
        | inr c ↦ rw c (keeps p.id (tries p.id).1 w k)
      ])

  pow_notice-IsOrderly :
      (tries : ℕ → Bool × Bool) (pow : P.Float) (w : Host P S)
      → IsOrderly w
      → IsOrderly (notify_peers_about_pow P S tries pow w)
  unfolding notify_peers_about_pow notify_about_pow_requirement_change
  pow_notice-IsOrderly tries pow w k =
      notify_each-IsOrderly (notify_about_pow_requirement_change P S pow) tries w.peers w
        (λ i b u o. sending-IsOrderly P S i _ b u o) k

  bloom_notice-IsOrderly :
      (tries : ℕ → Bool × Bool) (bloom : List ℕ) (w : Host P S)
      → IsOrderly w
      → IsOrderly (notify_peers_about_bloom P S tries bloom w)
  unfolding notify_peers_about_bloom notify_about_bloom_filter_change
  bloom_notice-IsOrderly tries bloom w k =
      notify_each-IsOrderly (notify_about_bloom_filter_change P S bloom) tries w.peers w
        (λ i b u o. sending-IsOrderly P S i _ b u o) k

  abbrev Kept : {E : Type 0} → Outcome E (Host P S) → Type 0
  Kept = Yields IsOrderly

  Yields-any : {E A : Type 0} (m : Outcome E A) → Yields (λ a. Unit) m
  Yields-any (ok a) = tt
  Yields-any (err e) = tt
  Yields-any panic = tt

  announce_pow-Kept :
      (tries : ℕ → Bool × Bool) (val : P.Float) (w : Host P S)
      → IsOrderly w
      → Kept (announce_minimum_pow P S tries val w)
  unfolding announce_minimum_pow
  announce_pow-Kept tries val w k =
      Yields-then (λ s. Unit) IsOrderly (set_minimum_pow P val w.node.settings) _ (Yields-any _)
        (λ s u. pow_notice-IsOrderly tries val _ (settings-IsOrderly s w k))

  announce_bloom-Kept :
      (tries : ℕ → Bool × Bool) (bloom : List ℕ) (w : Host P S)
      → IsOrderly w
      → Kept (announce_bloom_filter P S tries bloom w)
  unfolding announce_bloom_filter
  announce_bloom-Kept tries bloom w k =
      Yields-then (λ s. Unit) IsOrderly (set_bloom_filter P bloom w.node.settings) _ (Yields-any _)
        (λ s u. bloom_notice-IsOrderly tries bloom _ (settings-IsOrderly s w k))

  -- An error of `SetBloomFilter` leaves the node as it was.
  dropped-Kept :
      (o : Outcome SettingError (Host P S)) (w : Host P S)
      → IsOrderly w
      → Kept o
      → Kept (elim o as (λ x. Outcome SettingError (Host P S)) [
        | ok w' ↦ ok w'
        | err e ↦ ok w
        | panic ↦ panic
      ])
  dropped-Kept (ok u) w k h = h
  dropped-Kept (err e) w k h = k
  dropped-Kept panic w k h = tt

  widen-Kept :
      (tries : ℕ → Bool × Bool) (agg : List ℕ) (w : Host P S)
      → IsOrderly w
      → Kept (widen_advertised P S tries agg w)
  unfolding widen_advertised
  widen-Kept tries agg w k =
      elim (Option-cases (bloom_filter_match w.node.settings.bloom_filter agg)) [
        | inl n ↦ rw (n, widen_advertised) tt
        | inr (true, n) ↦ rw (n, widen_advertised) k
        | inr (false, n) ↦
            elim (Option-cases (add_bloom (default_to [] w.node.settings.bloom_filter) agg)) [
              | inl a ↦ rw (n, a, widen_advertised) tt
              | inr (wide, a) ↦
                  rw (n, a, widen_advertised)
                    (dropped-Kept (announce_bloom_filter P S tries wide w) w k
                      (announce_bloom-Kept tries wide w k))
            ]
      ]

  update_bloom-Kept :
      (tries : ℕ → Bool × Bool) (topics : List (List ℕ)) (w : Host P S)
      → IsOrderly w
      → Kept (update_advertised_bloom P S tries topics w)
  unfolding update_advertised_bloom
  update_bloom-Kept tries topics w k =
      Yields-then (λ s. Unit) IsOrderly (aggregate P topics (replicate bloom_filter_size 0)) _
        (Yields-any _) (λ agg u. widen-Kept tries agg w k)

  -- The end of `Subscribe`, whatever the bloom filter's update gives.
  told-Kept :
      (o : Outcome SettingError (Host P S)) (w : Host P S) (id : ℕ)
      → IsOrderly w
      → Kept o
      → Yields {E = FilterError}
          (λ (x : Host P S × ℕ). IsOrderly x.0)
          (elim o as (λ y. Outcome FilterError (Host P S × ℕ)) [
            | panic ↦ panic
            | err _ ↦ ok (w, id)
            | ok w' ↦ ok (w', id)
          ])
  told-Kept (ok u) w id k h = h
  told-Kept (err e) w id k h = k
  told-Kept panic w id k h = tt

  at_new_heap :
      (f : Filter P) (fs : Filters P) {fs' : Filters P} (a : ℕ)
      → Installed P f fs fs'
      → (f.at == a) ≡ false
      → lookup a fs'.heap ≡ lookup a fs.heap
  at_new_heap f fs a x c =
      ap (λ m. lookup a m) x.heap_eq ∙ lookup-insert f.at a _ fs.heap ∙ rw c refl

  Fit-kept :
      (f : Filter P) (fs : Filters P) {fs' : Filters P} (a : ℕ) (s : Store P)
      → Installed P f fs fs'
      → (f.at == a) ≡ false
      → All (λ (e : ℕ × ReceivedMessage P). Fit P fs.heap a e.1) s
      → All (λ (e : ℕ × ReceivedMessage P). Fit P fs'.heap a e.1) s
  Fit-kept f fs a [] x c h = tt
  Fit-kept f fs a (e ∷ s) x c (q, qs) = (
    record {
      reader = q.reader;
      reader_is = at_new_heap f fs a x c ∙ q.reader_is;
      is_fair = q.is_fair;
      is_full = q.is_full;
    },
    Fit-kept f fs a s x c qs,
  )

  -- A new filter's store is empty, and the others keep their filters.
  Installed-IsStocked :
      (f : Filter P) (fs : Filters P) {fs' : Filters P} (ss : Stores P)
      → Installed P f fs fs'
      → ss f.at ≡ []
      → IsStocked P (Fit P fs.heap) ss
      → IsStocked P (Fit P fs'.heap) ss
  Installed-IsStocked f fs {fs'} ss x empty =
      Stocked-map P (Fit P fs.heap) (Fit P fs'.heap) ss (λ a k. elim (Bool-cases (f.at == a)) [
        | inl c ↦ rw (ap ss (sym ((==_iff f.at a).0 c)) ∙ empty) tt
        | inr c ↦ Fit-kept f fs a (ss a) x c k
      ])

  subscribe-Kept :
      (tries : ℕ → Bool × Bool) (random : Option ℕ) (f : Filter P) (w : Host P S)
      → lookup f.at w.filters.heap ≡ none
      → w.stores f.at ≡ []
      → IsOrderly w
      → Yields (λ (x : Host P S × ℕ). IsOrderly x.0) (subscribe P S tries random f w)
  unfolding subscribe
  subscribe-Kept tries random f w free empty k =
      let Q = λ (r : Filters P × ℕ). IsBacked r.0 × Installed P f w.filters r.0 in
      Yields-then Q (λ (x : Host P S × ℕ). IsOrderly x.0) (install P random f w.filters) _
        (Yields-of Q (install P random f w.filters) (λ r h. (
          install-IsBacked P random f w.filters h k.backed,
          install-Installed P random f w.filters h,
        )))
        (λ r b.
          let o =
            filters-IsOrderly r.0 w.stores w b.0
              (Installed-IsHoused P f w.filters b.1 free k.housed)
              (Installed-IsStocked f w.filters w.stores b.1 empty k.stocked) k in
          told-Kept (update_advertised_bloom P S tries f.topics (record w { filters = r.0 })) _ r.1
            o (update_bloom-Kept tries f.topics _ o))

  relabel-Yields :
      {E F A : Type 0} (Q : A → Type 0) (g : E → F) (m : Outcome E A)
      → Yields Q m
      → Yields Q (relabel g m)
  relabel-Yields Q g (ok a) h = h
  relabel-Yields Q g (err e) h = tt
  relabel-Yields Q g panic h = tt

  emptied : (f : Filter P) (ss : Stores P) → put_store P f.at [] ss f.at ≡ []
  unfolding put_store
  emptied f ss = let same : (f.at == f.at) ≡ true = ground arith in rw same refl

  pub install_filter-IsOrderly :
      (c : Client P) (f : Filter P) (w : Host P S) {r : Host P S × ℕ}
      → lookup f.at w.filters.heap ≡ none
      → install_filter P S c f w ≡ ok r
      → IsOrderly w
      → IsOrderly r.0
  unfolding install_filter new_memory_message_store put_store
  install_filter-IsOrderly c f w free h k =
      let fresh : IsOrderly (record w { stores = put_store P f.at [] w.stores }) =
        filters-IsOrderly w.filters (put_store P f.at [] w.stores) w k.backed k.housed
          (put_store-IsStocked P (Fit P w.filters.heap) f.at [] w.stores (empty-IsKeyed P) tt
            k.stocked)
          k in
      Yields-ok (λ (x : Host P S × ℕ). IsOrderly x.0) _ h
        (relabel-Yields (λ (x : Host P S × ℕ). IsOrderly x.0) filter_error _
          (subscribe-Kept c.tries c.random f _ free (emptied f w.stores) fresh))

  pub unsubscribe-IsOrderly :
      (id : ℕ) (w : Host P S) → IsOrderly w → IsOrderly (unsubscribe P S id w).0
  unfolding unsubscribe
  unsubscribe-IsOrderly id w k =
      filters-IsOrderly _ w.stores w (uninstall-IsBacked P id w.filters k.backed)
        (uninstall-IsHoused P id w.filters k.housed)
        (subst (λ h. IsStocked P (Fit P h) w.stores) (sym (heap-uninstall P id w.filters))
          k.stocked)
        k

  pub retrieve-IsOrderly :
      (f : Filter P) (w : Host P S)
      → IsOrderly w
      → IsOrderly (record w { stores = (retrieve P f w.stores).1 })
  retrieve-IsOrderly f w k =
      filters-IsOrderly w.filters _ w k.backed k.housed
        (retrieve-IsStocked P (Fit P w.filters.heap) f w.stores k.stocked).1 k

  pub announce_pow-IsOrderly :
      (tries : ℕ → Bool × Bool) (val : P.Float) (w : Host P S) {u : Host P S}
      → announce_minimum_pow P S tries val w ≡ ok u
      → IsOrderly w
      → IsOrderly u
  announce_pow-IsOrderly tries val w h k = Yields-ok IsOrderly _ h (announce_pow-Kept tries val w k)

  pub announce_bloom-IsOrderly :
      (tries : ℕ → Bool × Bool) (bloom : List ℕ) (w : Host P S) {u : Host P S}
      → announce_bloom_filter P S tries bloom w ≡ ok u
      → IsOrderly w
      → IsOrderly u
  announce_bloom-IsOrderly tries bloom w h k =
      Yields-ok IsOrderly _ h (announce_bloom-Kept tries bloom w k)
