-- ===== src/Filters/Full.antt =====
-- The messages that `NotifyWatchers` of whisperv6/filter.go gives to filters have a byte of flags.
use whisper.Base.{
  ◌≡◌, ◌≤◌, List, [], ◌∷◌, Bool, not, ◌&&◌, Option, none, some, some_inj, none_is_some, Bool-cases,
  Option-cases, inl, inr, All, length,
}
use whisper.Envelope.{Envelope}
use whisper.Filters.{
  Filter, Filters, match_message, match_envelope, decrypt_for, open_for, offer, notify, deref,
  get_watchers_by_topic, notify_watchers,
}
use whisper.Message.{ReceivedMessage}
use whisper.Platform.{Platform}
use whisper.Received.Total.{validate_and_parse_total, validate_and_parse-full}

module _ (P : Platform) where
  pub data Full : Option (ReceivedMessage P) → Type 0 where
    no_message : Full none
    full : {m : ReceivedMessage P} → 1 ≤ length m.raw → Full (some m)

  pub Full-raw : {m : ReceivedMessage P} → Full (some m) → 1 ≤ length m.raw
  Full-raw (full h) = h

  abbrev Opened : Option (Option (ReceivedMessage P)) → Type 0
  Opened none = Unit
  Opened (some m) = Full m

  open_for-Opened : (f : Filter P) (e : Envelope P) → Opened (open_for P f e)
  unfolding open_for
  open_for-Opened f e = elim (Option-cases (decrypt_for P f e)) [
    | inl n ↦ rw (n, open_for) no_message
    | inr (msg, d) ↦
        let (parsed, b, v) = validate_and_parse_total P msg in
        elim (Bool-cases b) [
          | inl y ↦ rw (d, v, y, open_for) (full (validate_and_parse-full P msg parsed (rw y at v)))
          | inr y ↦ rw (d, v, y, open_for) no_message
        ]
  ]

  abbrev Offer : Option (Option (ReceivedMessage P) × Bool) → Type 0
  Offer none = Unit
  Offer (some (m, got)) = Full m

  offer-Full :
      (p2p : Bool) (e : Envelope P) (f : Filter P) (msg : Option (ReceivedMessage P))
      → Full msg
      → Offer (offer P p2p e f msg)
  unfolding offer
  offer-Full p2p e f msg k = elim (Bool-cases (p2p && not f.allow_p2p)) [
    | inl c ↦ rw (c, offer) k
    | inr c ↦ elim (Option-cases msg) [
      | inr (m, y) ↦
          let m_full : 1 ≤ length m.raw = Full-raw (rw y at k) in
          elim (Bool-cases (match_message P f m)) [
            | inl g ↦ rw (c, y, g, offer) (full m_full)
            | inr g ↦ rw (c, y, g, offer) (full m_full)
          ]
      | inl y ↦ elim (Bool-cases (match_envelope P f e)) [
        | inr g ↦ rw (c, y, g, offer) no_message
        | inl g ↦ elim (Option-cases (open_for P f e)) [
          | inl o ↦ rw (c, y, g, o, offer) tt
          | inr (none, o) ↦ rw (c, y, g, o, offer) no_message
          | inr (some m, o) ↦
              let x : Opened (some (some m)) = rw o at (open_for-Opened f e) in
              rw (c, y, g, o, offer) (full (Full-raw x))
        ]
      ]
    ]
  ]

  abbrev pub IsFull : Filter P × ReceivedMessage P → Type 0
  IsFull d = 1 ≤ length d.1.raw

  notify-IsFull :
      (p2p : Bool) (e : Envelope P) (fs : List (Filter P)) (msg : Option (ReceivedMessage P))
      (out : List (Filter P × ReceivedMessage P))
      → Full msg
      → notify P p2p e fs msg ≡ some out
      → All IsFull out
  unfolding notify
  notify-IsFull p2p e [] msg out k h = rw (← some_inj h) tt
  notify-IsFull p2p e (f ∷ fs) msg out k h = elim (Option-cases (offer P p2p e f msg)) [
    | inl n ↦ absurd (none_is_some (rw (n, notify) at h))
    | inr ((none, got), o) ↦ notify-IsFull p2p e fs none out no_message (rw (o, notify) at h)
    | inr ((some m, got), o) ↦
        let x : Offer (some (some m, got)) = rw o at (offer-Full p2p e f msg k) in
        elim (Option-cases (notify P p2p e fs (some m))) [
          | inl n ↦ absurd (none_is_some (rw (o, n, notify) at h))
          | inr (rest, r) ↦
              let a = notify-IsFull p2p e fs (some m) rest x r in
              elim (Bool-cases got) [
                | inl g ↦ rw (← some_inj (rw (o, r, g, notify) at h)) (Full-raw x, a)
                | inr g ↦ rw (← some_inj (rw (o, r, g, notify) at h)) a
              ]
        ]
  ]

  pub notify_watchers-IsFull :
      (p2p : Bool) (e : Envelope P) (fs : Filters P) (out : List (Filter P × ReceivedMessage P))
      → notify_watchers P p2p e fs ≡ some out
      → All IsFull out
  unfolding notify_watchers
  notify_watchers-IsFull p2p e fs out h =
      elim (Option-cases (deref P fs.heap (get_watchers_by_topic P e.topic fs))) [
        | inl n ↦ absurd (none_is_some (rw (n, notify_watchers) at h))
        | inr (candidates, d) ↦
            notify-IsFull p2p e candidates none out no_message (rw (d, notify_watchers) at h)
      ]
