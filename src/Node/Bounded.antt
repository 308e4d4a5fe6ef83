-- ===== src/Node/Bounded.antt =====
-- `add` and `postP2P` of whisperv6/whisper.go never fill a queue beyond its capacity.
use whisper.Base.{
  ℕ, ◌≡◌, ◌≤◌, List, [], ◌∷◌, ◌++◌, Bool, true, false, inl, inr, arith, ltb, length, length-append,
  Bool-cases,
}
use whisper.Constants.{message_queue_limit}
use whisper.Envelope.{Envelope, with_hash}
use whisper.Node.{
  Node, Effect, done, Added, P2pItem, envelope_item, enqueue, post_p2p, post_event, archive,
  add_checked, add,
}
use whisper.Node.Add.{went_on, refused, ignored, add-Cases, add_checked-done, bind-done}
use whisper.Platform.{Platform}
use whisper.Pool.{Pool, cache_envelope}
use whisper.Sets.{Sets}

pub record IsBounded {P : Platform} {S : Sets} (w : Node P S) : Type 0 where
  pub messages : length w.message_queue ≤ message_queue_limit
  pub directs : length w.p2p_msg_queue ≤ message_queue_limit

enqueue-bound :
    {A : Type 0} (q : List A) (a : A) (r : List A)
    → enqueue q a ≡ done r
    → length r ≤ message_queue_limit
enqueue-bound q a r h = elim (Bool-cases (ltb (length q) message_queue_limit)) [
  | inl c ↦
      let x : ◌≡◌ {A = Effect (List _)} (done (q ++ a ∷ [])) (done r) = rw c at h in
      ground (arith, x, length-append q (a ∷ []))
  | inr c ↦ absurd (ground (arith, h, c))
]

module _ (P : Platform) (S : Sets) where
  pub post_p2p-IsBounded :
      (item : P2pItem P) (w : Node P S) {w' : Node P S}
      → post_p2p P S item w ≡ done w'
      → IsBounded w
      → IsBounded w'
  unfolding post_p2p
  post_p2p-IsBounded item w {w'} h k =
      let (q, e, x) = bind-done (enqueue w.p2p_msg_queue item) _ h in
      let b = enqueue-bound w.p2p_msg_queue item q e in
      record { messages = ground (arith, x, k.messages); directs = ground (arith, x, b) }

  post_event-IsBounded :
      (e : Envelope P) (b : Bool) (w : Node P S) {w' : Node P S}
      → post_event P S e b w ≡ done w'
      → IsBounded w
      → IsBounded w'
  unfolding post_event
  post_event-IsBounded e true w h k = post_p2p-IsBounded (envelope_item e) w h k
  post_event-IsBounded e false w h k =
      let (q, m, x) = bind-done (enqueue w.message_queue e) _ h in
      let b = enqueue-bound w.message_queue e q m in
      record { messages = ground (arith, x, b); directs = ground (arith, x, k.directs) }

  archive-IsBounded : (e : Envelope P) (w : Node P S) → IsBounded w → IsBounded (archive P S e w)
  unfolding archive
  archive-IsBounded e w k = elim (Bool-cases w.mail_server) [
    | inl c ↦ rw (c, archive) (record { messages = k.messages; directs = k.directs })
    | inr c ↦ rw (c, archive) (record { messages = k.messages; directs = k.directs })
  ]

  add_checked-IsBounded :
      (b : Bool) (e0 : Envelope P) (w : Node P S) {r : Added P S}
      → add_checked P S b e0 w ≡ done r
      → IsBounded w
      → IsBounded r.node
  add_checked-IsBounded b e0 w h k =
      let e : Envelope P = with_hash P e0 in
      let c : Pool P S × Bool = cache_envelope P S e.hash e w.pool in
      let k' : IsBounded (record w { pool = c.0 }) = record {
        messages = k.messages;
        directs = k.directs;
      } in
      elim (add_checked-done P S b e0 w h) [
        | inl (old, x) ↦ rw x k'
        | inr (w', new, posted, x) ↦
            rw x (
              archive-IsBounded e w' (post_event-IsBounded e b (record w { pool = c.0 }) posted k'))
      ]

  pub add-IsBounded :
      (now : ℕ) (b : Bool) (e : Envelope P) (w : Node P S) {r : Added P S}
      → add P S now b e w ≡ done r
      → IsBounded w
      → IsBounded r.node
  add-IsBounded now b e w h k = elim (add-Cases P S now b e w h) [
    | went_on e' _ x ↦ add_checked-IsBounded b e' w x k
    | refused _ _ x ↦ rw x k
    | ignored _ x ↦ rw x k
  ]
