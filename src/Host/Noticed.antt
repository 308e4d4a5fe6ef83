-- ===== src/Host/Noticed.antt =====
-- A requirement on the proof of work reaches the peers and is met by what they broadcast
-- (whisperv6/whisper.go, whisperv6/peer.go).
use whisper.Base.{
  ℕ, ◌≡◌, refl, sym, ◌∙◌, List, [], ◌∷◌, ◌++◌, Bool, true, false, ◌||◌, Option, none, some,
  some_inj, none_is_some, All, arith, ltb, if◌then◌else◌, length, ◌==◌, Bool-cases, Option-cases,
  inl, inr,
}
use mathlib.Core.List.{append-nil, append_assoc}
use whisper.Base.Outcome.{ok_inj, Outcome, ok, err}
use whisper.Envelope.{Envelope, with_pow}
use whisper.Envelope.Wire.{Fields, fields_of, encoding, decode_rlp, blank}
use whisper.Host.{Host, Sent, pow_requirement}
use whisper.Host.Arrived.{Timely, decoded, NoLowPow, add-NoLowPow}
use whisper.Host.Notices.{
  with_settings, notify_each, notify_about_pow_requirement_change, notify_peers_about_pow,
  announce_minimum_pow,
}
use whisper.Node.{Node, done, add}
use whisper.Packets.{Session, Outside, pow_requirement_body}
use whisper.Packets.Cases.{handle_packet, handle_pow_requirement}
use whisper.Peer.{Peer, Broadcasted, wants, marked, pick, broadcast}
use whisper.Platform.{Platform}
use whisper.Settings.{min_pow, set_minimum_pow, light_client_mode}
use whisper.Sets.{Sets}

not_wanted : some false ≡ some true → ⊥
not_wanted h = absurd (ground (arith, some_inj h))

module _ (P : Platform) (S : Sets) where
  -- The peers that a send reaches at the first try or at the second, with what they get.
  abbrev pub reached : (ℕ → Bool × Bool) → Sent P → List (Peer P S) → List (ℕ × Sent P)
  reached tries m [] = []
  reached tries m (p ∷ ps) =
      if (tries p.id).0 || (tries p.id).1
      then (p.id, m) ∷ reached tries m ps
      else reached tries m ps

  sent-notify_each :
      (tries : ℕ → Bool × Bool) (pow : P.Float) (ps : List (Peer P S)) (w : Host P S)
      → (notify_each P S (notify_about_pow_requirement_change P S pow) tries ps w).sent
        ≡ w.sent ++ reached tries (pow_requirement (P.float_bits pow)) ps
  unfolding notify_each notify_about_pow_requirement_change
  sent-notify_each tries pow [] w = sym (append-nil w.sent)
  sent-notify_each tries pow (p ∷ ps) w =
      sent-notify_each tries pow ps _ ∙ elim (Bool-cases (tries p.id).0) [
        | inl c ↦ rw (c, append_assoc) refl
        | inr c ↦ elim (Bool-cases (tries p.id).1) [
          | inl d ↦ rw (c, d, append_assoc) refl
          | inr d ↦ rw (c, d) refl
        ]
      ]

  settings-notify_each :
      (tries : ℕ → Bool × Bool) (pow : P.Float) (ps : List (Peer P S)) (w : Host P S)
      → (notify_each P S (notify_about_pow_requirement_change P S pow) tries ps w).node ≡ w.node
  unfolding notify_each notify_about_pow_requirement_change
  settings-notify_each tries pow [] w = refl
  settings-notify_each tries pow (p ∷ ps) w =
      settings-notify_each tries pow ps _ ∙ elim (Bool-cases (tries p.id).0) [
        | inl c ↦ rw c refl
        | inr c ↦ elim (Bool-cases (tries p.id).1) [
          | inl d ↦ rw (c, d) refl
          | inr d ↦ rw (c, d) refl
        ]
      ]

  -- What a peer wants has the proof of work that it asks for.
  wants_pow :
      (p : Peer P S) (e : Envelope P)
      → wants P S p e ≡ some true
      → P.le p.pow_requirement (with_pow P e).pow ≡ true
  unfolding wants
  wants_pow p e h = elim (Bool-cases (marked P S p e)) [
    | inl m ↦ absurd (not_wanted (rw (m, wants) at h))
    | inr m ↦ elim (Bool-cases (P.le p.pow_requirement (with_pow P e).pow)) [
      | inl c ↦ c
      | inr c ↦ absurd (not_wanted (rw (m, c, wants) at h))
    ]
  ]

  abbrev pub HasPow : P.Float → Envelope P → Type 0
  HasPow val e = P.le val (with_pow P e).pow ≡ true

  -- A bundle is of envelopes with enough proof of work, and of those at hand.
  pick-HasPow :
      (Q : Envelope P → Type 0) (p : Peer P S) (es bundle : List (Envelope P))
      → All Q es
      → pick P S p es ≡ some bundle
      → All (λ e. HasPow p.pow_requirement e × Q e) bundle
  unfolding pick
  pick-HasPow Q p [] bundle q h = rw (← some_inj h) tt
  pick-HasPow Q p (e ∷ es) bundle (x, q) h = elim (Option-cases (pick P S p es)) [
    | inl n ↦ absurd (none_is_some (rw (n, pick) at h))
    | inr (rest, r) ↦
        let k = pick-HasPow Q p es rest q r in
        elim (Option-cases (wants P S p e)) [
          | inl n ↦ absurd (none_is_some (rw (r, n, pick) at h))
          | inr (true, n) ↦ rw (← some_inj (rw (r, n, pick) at h)) ((wants_pow p e n, x), k)
          | inr (false, n) ↦ rw (← some_inj (rw (r, n, pick) at h)) k
        ]
  ]

  broadcast-HasPow :
      (Q : Envelope P → Type 0) (deliver : List (Envelope P) → Option ℕ) (es : List (Envelope P))
      (p : Peer P S) {r : Broadcasted P S}
      → All Q es
      → broadcast P S deliver es p ≡ some r
      → All (λ e. HasPow p.pow_requirement e × Q e) r.bundle
  unfolding broadcast
  broadcast-HasPow Q deliver es p q h = elim (Option-cases (pick P S p es)) [
    | inl n ↦ absurd (none_is_some (rw (n, broadcast) at h))
    | inr (bundle, b) ↦
        let k = pick-HasPow Q p es bundle q b in
        elim (Bool-cases (length bundle == 0)) [
          | inl c ↦ rw (← some_inj (rw (b, c, broadcast) at h)) tt
          | inr c ↦ elim (Option-cases (deliver bundle)) [
            | inl n ↦ rw (← some_inj (rw (b, c, n, broadcast) at h)) k
            | inr (batch, y) ↦ rw (← some_inj (rw (b, c, y, broadcast) at h)) k
          ]
        ]
  ]

  -- An envelope that is not sent after the time at hand, and that is decoded as it was encoded.
  pub record Travels (decode : List ℕ → Option Fields) (now : ℕ) (e : Envelope P) : Type 0 where
    pub timely : Timely P now e
    pub law : decode (encoding P (fields_of P e)) ≡ some (fields_of P e)

  -- What a node decodes of the envelope, and that `add` does not refuse it for its proof of work.
  abbrev pub Welcome : (List ℕ → Option Fields) → ℕ → Node P S → Envelope P → Type 0
  Welcome decode now n e =
      (d : Envelope P) × (decode_rlp P decode (some (encoding P (fields_of P e))) (blank P)
        ≡ some d)
      × NoLowPow P S (add P S now (light_client_mode P n.settings) d n)

  All-Welcome :
      (order : (a b : P.Float) → P.le a b ≡ true → P.lt b a ≡ false)
      (zero : P.eq P.zero_pow P.zero_pow ≡ true) (decode : List ℕ → Option Fields) (now : ℕ)
      (val : P.Float) (n : Node P S) (es : List (Envelope P))
      → min_pow P n.settings ≡ val
      → All (λ e. HasPow val e × Travels decode now e) es
      → All (Welcome decode now n) es
  unfolding decode_rlp light_client_mode
  All-Welcome order zero decode now val n [] m a = tt
  All-Welcome order zero decode now val n (e ∷ es) m ((h, k), a) =
      let hash = P.keccak256 (encoding P (fields_of P e)) in
      (
        (
          decoded P hash e,
          rw (k.law, decode_rlp) refl,
          add-NoLowPow P S now (light_client_mode P n.settings) e n hash zero k.timely
              (rw m (order _ _ h)),
        ),
        All-Welcome order zero decode now val n es m a,
      )

  announced :
      (tries : ℕ → Bool × Bool) (val : P.Float) (w : Host P S) {u : Host P S}
      → announce_minimum_pow P S tries val w ≡ ok u
      → (P.lt val P.zero_pow ≡ false)
        × (min_pow P u.node.settings ≡ val)
        × (u.sent ≡ w.sent ++ reached tries (pow_requirement (P.float_bits val)) w.peers)
  unfolding announce_minimum_pow notify_peers_about_pow set_minimum_pow min_pow
  announced tries val w {u} h = elim (Bool-cases (P.lt val P.zero_pow)) [
    | inl c ↦
        let x : ◌≡◌ {A = Outcome _ (Host P S)} (err _) (ok u) =
          rw (c, announce_minimum_pow, set_minimum_pow) at h in
        absurd (ground (arith, x))
    | inr c ↦
        let s = record w.node.settings { min_pow = some val } in
        let x = ok_inj (rw (c, announce_minimum_pow, set_minimum_pow) at h) in
        (
          c,
          rw (← x, settings-notify_each tries val w.peers (with_settings P S s w)) refl,
          rw (← x) (sent-notify_each tries val w.peers (with_settings P S s w)),
        )
  ]

  handled :
      (law : (v : P.Float) → P.float_from_bits (P.float_bits v) ≡ v) (val : P.Float)
      (around : Outside) (size : ℕ) (s : Session P S)
      → P.is_inf val ≡ false
      → P.is_nan val ≡ false
      → P.lt val P.zero_pow ≡ false
      → ltb s.node.settings.max_size size ≡ false
      → handle_packet P S around
          (record { size = size; body = pow_requirement_body (some (P.float_bits val)) })
          s
        ≡ done (record s { peer = record s.peer { pow_requirement = val } }, none)
  unfolding handle_packet handle_pow_requirement
  handled law val around size s i n l z = rw (z, law val, i, n, l) refl

  -- Where SetMinimumPoW of a finite number succeeds, every peer that a first or a second send
  -- reaches, and no other, is sent the requirement, which holds from then on. A node that gets the
  -- packet and does not find it oversized keeps the session. If it then broadcasts envelopes to the
  -- first node, none of which was sent after the first node's time or has a cached proof of work for
  -- a difference of time, every envelope of the bundle that arrives is one that `add` of the first
  -- node does not refuse for its proof of work. The comparison of floats is an order in which 0
  -- equals itself, Float64frombits is the inverse of Float64bits, and the decoder gives back the
  -- fields that were encoded.
  pub announced_pow_respected :
      (law : (v : P.Float) → P.float_from_bits (P.float_bits v) ≡ v)
      (order : (a b : P.Float) → P.le a b ≡ true → P.lt b a ≡ false)
      (zero : P.eq P.zero_pow P.zero_pow ≡ true) (decode : List ℕ → Option Fields)
      (tries : ℕ → Bool × Bool) (val : P.Float) (w u : Host P S) (around : Outside) (size now : ℕ)
      (s : Session P S) (deliver : List (Envelope P) → Option ℕ) (es : List (Envelope P))
      (r : Broadcasted P S)
      → announce_minimum_pow P S tries val w ≡ ok u
      → P.is_inf val ≡ false
      → P.is_nan val ≡ false
      → ltb s.node.settings.max_size size ≡ false
      → broadcast P S deliver es (record s.peer { pow_requirement = val }) ≡ some r
      → All (Travels decode now) es
      → (u.sent ≡ w.sent ++ reached tries (pow_requirement (P.float_bits val)) w.peers)
        × (min_pow P u.node.settings ≡ val)
        × (handle_packet P S around
              (record { size = size; body = pow_requirement_body (some (P.float_bits val)) })
              s
            ≡ done (record s { peer = record s.peer { pow_requirement = val } }, none))
        × All (Welcome decode now u.node) r.bundle
  announced_pow_respected law order zero decode tries val w u around size now s deliver es r h i n z
        b k =
      let (l, m, told) = announced tries val w h in
      (
        told,
        m,
        handled law val around size s i n l z,
        All-Welcome order zero decode now val u.node r.bundle m (
            broadcast-HasPow (Travels decode now) deliver es
              (record s.peer { pow_requirement = val }) k b),
      )
