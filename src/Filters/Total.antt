-- ===== src/Filters/Total.antt =====
-- `NotifyWatchers` of whisperv6/filter.go meets no nil pointer and no slice out of range.
use whisper.Base.{
  ℕ, ◌≡◌, refl, sym, ap, ◌∙◌, List, [], ◌∷◌, Bool, true, false, not, ◌&&◌, ◌||◌, Option, none, some,
  ◌==◌, arith, if◌then◌else◌, length, Bool-cases, Option-cases, inl, inr, ==_iff,
}
use whisper.Base.Assoc.{lookup, insert, lookup-insert}
use whisper.Base.Outcome.{ok_inj, ok}
use whisper.Envelope.{Envelope}
use whisper.Filters.{
  Filter, Filters, is_set, add_topic_matcher, with_id, remove_from_topic_matchers,
  get_watchers_by_topic, install, uninstall, match_message, match_envelope, decrypt_for, open_for,
  offer, notify, deref, notify_watchers,
}
use whisper.Filters.Install.{elem-add_topic_matcher, elem-remove_matcher, elem-watchers, has_topic}
use whisper.Message.{ReceivedMessage}
use whisper.Platform.{Platform}
use whisper.Received.Total.{validate_and_parse_total}
use whisper.Sets.{elem}
use whisper.Topic.{Topic}

module _ {P : Platform} where
  -- Every pointer in a topic matcher is that of a filter.
  pub record IsBacked (fs : Filters P) : Type 0 where
    pub backed :
        (t : Topic) (a : ℕ)
        → elem a (get_watchers_by_topic P t fs) ≡ true
        → is_set (lookup a fs.heap) ≡ true

module _ (P : Platform) where
  open_for_total :
      (f : Filter P) (e : Envelope P) → (m : Option (ReceivedMessage P)) × (open_for P f e ≡ some m)
  unfolding open_for
  open_for_total f e = elim (Option-cases (decrypt_for P f e)) [
    | inl n ↦ rw (n, open_for) (_, refl)
    | inr (msg, d) ↦
        let (parsed, b, v) = validate_and_parse_total P msg in
        elim (Bool-cases b) [
          | inl y ↦ rw (d, v, y, open_for) (_, refl)
          | inr y ↦ rw (d, v, y, open_for) (_, refl)
        ]
  ]

  offer_total :
      (p2p : Bool) (e : Envelope P) (f : Filter P) (msg : Option (ReceivedMessage P))
      → (r : Option (ReceivedMessage P) × Bool) × (offer P p2p e f msg ≡ some r)
  unfolding offer
  offer_total p2p e f msg = elim (Bool-cases (p2p && not f.allow_p2p)) [
    | inl c ↦ rw (c, offer) (_, refl)
    | inr c ↦ elim (Option-cases msg) [
      | inr (m, y) ↦ elim (Bool-cases (match_message P f m)) [
        | inl k ↦ rw (c, y, k, offer) (_, refl)
        | inr k ↦ rw (c, y, k, offer) (_, refl)
      ]
      | inl y ↦ elim (Bool-cases (match_envelope P f e)) [
        | inr k ↦ rw (c, y, k, offer) (_, refl)
        | inl k ↦
            let (r, o) = open_for_total f e in
            elim (Option-cases r) [
              | inl n ↦ rw (c, y, k, o, n, offer) (_, refl)
              | inr (m, n) ↦ rw (c, y, k, o, n, offer) (_, refl)
            ]
      ]
    ]
  ]

  pub notify_total :
      (p2p : Bool) (e : Envelope P) (fs : List (Filter P)) (msg : Option (ReceivedMessage P))
      → (out : List (Filter P × ReceivedMessage P)) × (notify P p2p e fs msg ≡ some out)
  unfolding notify
  notify_total p2p e [] msg = ([], refl)
  notify_total p2p e (f ∷ fs) msg =
      let ((m, got), o) = offer_total p2p e f msg in
      elim (Option-cases m) [
        | inl n ↦ let (out, x) = notify_total p2p e fs none in rw (o, n, notify) (out, x)
        | inr (m', n) ↦
            let (out, x) = notify_total p2p e fs (some m') in
            elim (Bool-cases got) [
              | inl g ↦ rw (o, n, x, g, notify) (_, refl)
              | inr g ↦ rw (o, n, x, g, notify) (_, refl)
            ]
      ]

  deref_total :
      (fs : Filters P) (l : List ℕ)
      → ((a : ℕ) → elem a l ≡ true → is_set (lookup a fs.heap) ≡ true)
      → (found : List (Filter P)) × (deref P fs.heap l ≡ some found)
  unfolding deref
  deref_total fs [] back = ([], refl)
  deref_total fs (a ∷ l) back =
      let (rest, r) = deref_total fs l (λ b h. back b (ground (arith, h))) in
      elim (Option-cases (lookup a fs.heap)) [
        | inl n ↦ absurd (ground (arith, back a (ground arith), n))
        | inr (f, n) ↦ rw (n, r, deref) (_, refl)
      ]

  -- `NotifyWatchers` returns, whatever the envelope holds.
  pub notify_watchers_total :
      (p2p : Bool) (e : Envelope P) (fs : Filters P)
      → IsBacked fs
      → (out : List (Filter P × ReceivedMessage P)) × (notify_watchers P p2p e fs ≡ some out)
  unfolding notify_watchers
  notify_watchers_total p2p e fs back =
      let (found, d) = deref_total fs (get_watchers_by_topic P e.topic fs) (back.backed e.topic) in
      let (out, n) = notify_total p2p e found none in (out, rw (d, notify_watchers) n)

  pub heap-add_matcher : (f : Filter P) (fs : Filters P) → (add_topic_matcher P f fs).heap ≡ fs.heap
  unfolding add_topic_matcher
  heap-add_matcher f fs = elim (Bool-cases (length f.topics == 0)) [
    | inl c ↦ rw c refl
    | inr c ↦ rw c refl
  ]

  kept :
      (f : Filter P) (b : Bool) (o : Option (Filter P))
      → is_set o ≡ true
      → is_set (if b then some f else o) ≡ true
  kept f true o h = refl
  kept f false o h = h

  heap_put-IsBacked :
      (id : ℕ) (f : Filter P) (fs : Filters P)
      → IsBacked fs
      → IsBacked (record fs {
        watchers = insert id (with_id P id f) fs.watchers;
        heap = insert f.at (with_id P id f) fs.heap;
      })
  unfolding get_watchers_by_topic
  heap_put-IsBacked id f fs back = record {
    backed = λ t a h.
        ap is_set (lookup-insert f.at a (with_id P id f) fs.heap)
        ∙ kept (with_id P id f) (f.at == a) (lookup a fs.heap) (back.backed t a h);
  }

  added_or_there :
      (a t old : Bool) {b set : Bool}
      → b ≡ ((a && t) || old)
      → b ≡ true
      → (a ≡ true → set ≡ true)
      → (old ≡ true → set ≡ true)
      → set ≡ true
  added_or_there true t old e h x y = x refl
  added_or_there false t true e h x y = y refl
  added_or_there false t false e h x y = absurd (ground (arith, e, h))

  add_matcher-IsBacked :
      (f : Filter P) (fs : Filters P)
      → IsBacked fs
      → is_set (lookup f.at fs.heap) ≡ true
      → IsBacked (add_topic_matcher P f fs)
  add_matcher-IsBacked f fs back here = record {
    backed = λ t a h.
        ap (λ m. is_set (lookup a m)) (heap-add_matcher f fs)
        ∙ added_or_there (f.at == a) (length f.topics == 0 || has_topic f.topics t)
            (elem a (get_watchers_by_topic P t fs)) (elem-add_topic_matcher P f fs a t) h
            (λ c. ap (λ i. is_set (lookup i fs.heap)) (sym ((==_iff f.at a).0 c)) ∙ here)
            (back.backed t a);
  }

  -- What is taken out of the matchers leaves no new pointer.
  left_was_there :
      (c d e all some_topic : Bool) {b w : Bool}
      → b ≡ ((not c && all) || (not (d && e) && some_topic))
      → w ≡ (all || some_topic)
      → b ≡ true
      → w ≡ true
  left_was_there c d e all some_topic x y h = ground (arith, x, y, h)

  remove_matcher-IsBacked :
      (f : Filter P) (fs : Filters P) → IsBacked fs → IsBacked (remove_from_topic_matchers P f fs)
  unfolding remove_from_topic_matchers
  remove_matcher-IsBacked f fs back = record {
    backed = λ t a h. back.backed t a (
        left_was_there (f.at == a) (f.at == a) (has_topic f.topics t) (elem a fs.all_topics_matcher)
          (elem a (fs.topic_matcher t)) (elem-remove_matcher P f fs a t) (elem-watchers P a t fs)
          h);
  }

  pub install-IsBacked :
      (random : Option ℕ) (f : Filter P) (fs : Filters P) {r : Filters P × ℕ}
      → install P random f fs ≡ ok r
      → IsBacked fs
      → IsBacked r.0
  unfolding install
  install-IsBacked random f fs {r} h back =
      elim (Bool-cases (is_set f.key_sym && is_set f.key_asym)) [
        | inl c ↦ absurd (ground (arith, rw (c, install) at h))
        | inr c ↦ elim (Option-cases random) [
          | inl n ↦ absurd (ground (arith, rw (c, n, install) at h))
          | inr (id, n) ↦ elim (Bool-cases (is_set (lookup id fs.watchers))) [
            | inl w ↦ absurd (ground (arith, rw (c, n, w, install) at h))
            | inr w ↦ rw (← ok_inj (rw (c, n, w, install) at h)) (
                add_matcher-IsBacked (with_id P id f) _ (heap_put-IsBacked id f fs back)
                  (ap is_set (lookup-insert f.at f.at (with_id P id f) fs.heap) ∙ ground arith))
          ]
        ]
      ]

  pub uninstall-IsBacked : (id : ℕ) (fs : Filters P) → IsBacked fs → IsBacked (uninstall P id fs).0
  unfolding uninstall get_watchers_by_topic
  uninstall-IsBacked id fs back = elim (Option-cases (lookup id fs.watchers)) [
    | inl n ↦ rw (n, uninstall) back
    | inr (f, n) ↦
        let k = remove_matcher-IsBacked f fs back in
        rw (n, uninstall) (record { backed = k.backed })
  ]
