-- ===== src/Filters/Delivery.antt =====
-- Which filters `NotifyWatchers` of whisperv6/filter.go serves.
use whisper.Base.{
  ◌≡◌, refl, ap, List, [], ◌∷◌, Bool, true, false, not, ◌&&◌, ◌||◌, Option, none, some, some_inj,
  none_is_some, Bool-cases, Option-cases, inl, inr, arith, All,
}
use whisper.Envelope.{Envelope}
use whisper.Filters.{
  Filter, Filters, match_message, match_envelope, open_for, wants_src, offer, notify, deref,
  get_watchers_by_topic, notify_watchers,
}
use whisper.Message.{ReceivedMessage}
use whisper.Platform.{Platform}

module _ (P : Platform) where
  -- A message that a filter gets: it says whether it came directly, the filter takes direct messages
  -- if it did, and its sender is the filter's, if the filter names one.
  pub record Served (p2p : Bool) (d : Filter P × ReceivedMessage P) : Type 0 where
    pub flag_eq : d.1.p2p ≡ p2p
    pub allowed : (not p2p || d.0.allow_p2p) ≡ true
    pub src_fits : wants_src P d.0 d.1 ≡ true

  abbrev Offered : Type 0
  Offered = Option (Option (ReceivedMessage P) × Bool)

  offered_inj :
      {m m' : ReceivedMessage P} {b c : Bool}
      → ◌≡◌ {A = Offered} (some (some m, b)) (some (some m', c))
      → (m ≡ m') × (b ≡ c)
  offered_inj {m} {m'} {b} {c} h =
      let x : ◌≡◌ {A = Option (ReceivedMessage P) × Bool} (some m, b) (some m', c) = some_inj h in
      (
        some_inj (ap (λ (y : Option (ReceivedMessage P) × Bool). y.0) x),
        ap (λ (y : Option (ReceivedMessage P) × Bool). y.1) x,
      )

  -- The end of a round that gives a message.
  given-Served :
      (p2p : Bool) (f : Filter P) (m m' : ReceivedMessage P)
      → p2p && not f.allow_p2p ≡ false
      → ◌≡◌ {A = Offered}
          (some (some (record m { p2p = p2p }), wants_src P f m))
          (some (some m', true))
      → Served p2p (f, m')
  unfolding wants_src
  given-Served p2p f m m' c h =
      let (same, got) = offered_inj h in
      rw (← same) (record { flag_eq = refl; allowed = ground arith; src_fits = got })

  opened-Served :
      (p2p : Bool) (e : Envelope P) (f : Filter P) (m' : ReceivedMessage P)
      → p2p && not f.allow_p2p ≡ false
      → offer P p2p e f none ≡ some (some m', true)
      → Served p2p (f, m')
  unfolding offer
  opened-Served p2p e f m' c h = elim (Bool-cases (match_envelope P f e)) [
    | inr n ↦
        let x : ◌≡◌ {A = Offered} (some (none, false)) (some (some m', true)) =
          rw (c, n, offer) at h in
        absurd (ground (arith, x))
    | inl y ↦ elim (Option-cases (open_for P f e)) [
      | inl o ↦
          let x : ◌≡◌ {A = Offered} none (some (some m', true)) = rw (c, y, o, offer) at h in
          absurd (ground (arith, x))
      | inr (none, o) ↦
          let x : ◌≡◌ {A = Offered} (some (none, false)) (some (some m', true)) =
            rw (c, y, o, offer) at h in
          absurd (ground (arith, x))
      | inr (some m, o) ↦ given-Served p2p f m m' c (rw (c, y, o, offer) at h)
    ]
  ]

  offer-Served :
      (p2p : Bool) (e : Envelope P) (f : Filter P) (msg : Option (ReceivedMessage P))
      (m' : ReceivedMessage P)
      → offer P p2p e f msg ≡ some (some m', true)
      → Served p2p (f, m')
  unfolding offer
  offer-Served p2p e f msg m' h = elim (Bool-cases (p2p && not f.allow_p2p)) [
    | inl c ↦
        let x : ◌≡◌ {A = Offered} (some (msg, false)) (some (some m', true)) = rw (c, offer) at h in
        absurd (ground (arith, x))
    | inr c ↦ elim (Option-cases msg) [
      | inl n ↦ opened-Served p2p e f m' c (rw n at h)
      | inr (m, y) ↦ elim (Bool-cases (match_message P f m)) [
        | inl k ↦ given-Served p2p f m m' c (rw (c, y, k, offer) at h)
        | inr k ↦
            let x : ◌≡◌ {A = Offered} (some (some m, false)) (some (some m', true)) =
              rw (c, y, k, offer) at h in
            absurd (ground (arith, x))
      ]
    ]
  ]

  notify-Served :
      (p2p : Bool) (e : Envelope P) (fs : List (Filter P)) (msg : Option (ReceivedMessage P))
      (out : List (Filter P × ReceivedMessage P))
      → notify P p2p e fs msg ≡ some out
      → All (Served p2p) out
  unfolding notify
  notify-Served p2p e [] msg out h = rw (← some_inj h) tt
  notify-Served p2p e (f ∷ fs) msg out h = elim (Option-cases (offer P p2p e f msg)) [
    | inl n ↦ absurd (none_is_some (rw (n, notify) at h))
    | inr ((none, got), o) ↦ notify-Served p2p e fs none out (rw (o, notify) at h)
    | inr ((some m, got), o) ↦ elim (Option-cases (notify P p2p e fs (some m))) [
      | inl n ↦ absurd (none_is_some (rw (o, n, notify) at h))
      | inr (rest, r) ↦
          let k = notify-Served p2p e fs (some m) rest r in
          elim (Bool-cases got) [
            | inl g ↦
                rw (← some_inj (rw (o, r, g, notify) at h))
                  (offer-Served p2p e f msg m (rw g at o), k)
            | inr g ↦ rw (← some_inj (rw (o, r, g, notify) at h)) k
          ]
    ]
  ]

  -- Every filter that `NotifyWatchers` gives a message to, whatever the envelope holds: the message
  -- says whether it came directly from a trusted peer; a filter gets a direct message only if it
  -- takes such messages; and a filter that names a sender gets only messages of a valid key that is
  -- the same point.
  pub notify_watchers-Served :
      (p2p : Bool) (e : Envelope P) (fs : Filters P) (out : List (Filter P × ReceivedMessage P))
      → notify_watchers P p2p e fs ≡ some out
      → All (Served p2p) out
  unfolding notify_watchers
  notify_watchers-Served p2p e fs out h =
      elim (Option-cases (deref P fs.heap (get_watchers_by_topic P e.topic fs))) [
        | inl n ↦ absurd (none_is_some (rw (n, notify_watchers) at h))
        | inr (candidates, d) ↦
            notify-Served p2p e candidates none out (rw (d, notify_watchers) at h)
      ]
