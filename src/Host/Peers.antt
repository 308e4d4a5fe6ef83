-- ===== src/Host/Peers.antt =====
-- The peers of a node (whisperv6/whisper.go): what the changes to them keep.
use mathlib.Core.Path.{subst}
use whisper.Base.{
  ℕ, ◌≡◌, refl, List, [], ◌∷◌, ◌==◌, Option, some, some_inj, none_is_some, All, Bool-cases,
  Option-cases, inl, inr, length,
}
use whisper.Envelope.{Envelope}
use whisper.Host.{get_peer, put_peer, drop_peer}
use whisper.Peer.{Peer, mark_all, mark, broadcast, pick, Broadcasted}
use whisper.Peer.Filter.{IsTestable}
use whisper.Platform.{Platform}
use whisper.Protocol.Quiet.{SamePeer}
use whisper.Sets.{Sets}

module _ (P : Platform) (S : Sets) where
  pub get_peer-All :
      (i : ℕ) (ps : List (Peer P S)) {p : Peer P S}
      → All IsTestable ps
      → get_peer P S i ps ≡ some p
      → IsTestable p
  unfolding get_peer
  get_peer-All i [] a h = absurd (none_is_some h)
  get_peer-All i (q ∷ ps) a h = elim (Bool-cases (q.id == i)) [
    | inl c ↦ subst IsTestable (some_inj (rw (c, get_peer) at h)) a.0
    | inr c ↦ get_peer-All i ps a.1 (rw (c, get_peer) at h)
  ]

  pub put_peer-All :
      (q : Peer P S) (ps : List (Peer P S))
      → All IsTestable ps
      → IsTestable q
      → All IsTestable (put_peer P S q ps)
  unfolding put_peer
  put_peer-All q [] a f = tt
  put_peer-All q (p ∷ ps) a f = elim (Bool-cases (p.id == q.id)) [
    | inl c ↦ rw (c, put_peer) (f, a.1)
    | inr c ↦ rw (c, put_peer) (a.0, put_peer-All q ps a.1 f)
  ]

  pub drop_peer-All :
      (i : ℕ) (ps : List (Peer P S)) → All IsTestable ps → All IsTestable (drop_peer P S i ps)
  unfolding drop_peer
  drop_peer-All i [] a = tt
  drop_peer-All i (p ∷ ps) a = elim (Bool-cases (p.id == i)) [
    | inl c ↦ rw (c, drop_peer) a.1
    | inr c ↦ rw (c, drop_peer) (a.0, drop_peer-All i ps a.1)
  ]

  mark_all-SamePeer : (es : List (Envelope P)) (p : Peer P S) → SamePeer p (mark_all P S es p)
  unfolding mark_all mark
  mark_all-SamePeer [] p = record { same_trusted = refl; same_full = refl; same_bloom = refl }
  mark_all-SamePeer (e ∷ es) p =
      let k = mark_all-SamePeer es (mark P S e p) in
      record { same_trusted = k.same_trusted; same_full = k.same_full; same_bloom = k.same_bloom }

  pub broadcast-SamePeer :
      (deliver : List (Envelope P) → Option ℕ) (es : List (Envelope P)) (p : Peer P S)
      {r : Broadcasted P S}
      → broadcast P S deliver es p ≡ some r
      → SamePeer p r.peer
  unfolding broadcast
  broadcast-SamePeer deliver es p h = elim (Option-cases (pick P S p es)) [
    | inl n ↦ absurd (none_is_some (rw (n, broadcast) at h))
    | inr (bundle, b) ↦ elim (Bool-cases (length bundle == 0)) [
      | inl c ↦
          rw (← some_inj (rw (b, c, broadcast) at h))
            (record { same_trusted = refl; same_full = refl; same_bloom = refl })
      | inr c ↦ elim (Option-cases (deliver bundle)) [
        | inl n ↦
            rw (← some_inj (rw (b, c, n, broadcast) at h))
              (record { same_trusted = refl; same_full = refl; same_bloom = refl })
        | inr (batch, y) ↦
            rw (← some_inj (rw (b, c, y, broadcast) at h)) (mark_all-SamePeer bundle p)
      ]
    ]
  ]
