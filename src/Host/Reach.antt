-- ===== src/Host/Reach.antt =====
-- Every run of the node, from any order of its steps (whisperv6/whisper.go).
use mathlib.Core.Path.{subst}
use whisper.Base.{
  ℕ, ◌≡◌, ◌⊎◌, refl, ap, sym, ◌∙◌, List, ◌∷◌, Bool, false, Option, none, some, some_inj, All,
  Option-cases, inl, inr,
}
use whisper.Envelope.{Envelope}
use whisper.Host.{Host, open_session}
use whisper.Host.Steps.{
  Step, Reach, receives, sends, expires, delivers, delivers_p2p, connects, leaves, broadcasts,
  allows, requests, asks, subscribes, unsubscribes, polls, announces_pow, announces_bloom,
  settles_pow, settles_bloom, stays, steps, session,
}
use whisper.Host.Peers.{get_peer-All, put_peer-All, drop_peer-All, broadcast-SamePeer}
use whisper.Node.{Added, Node, done, send, add}
use whisper.Node.Add.{done_inj, bind-done, add-IsValid}
use whisper.Node.Bounded.{IsBounded, add-IsBounded}
use whisper.Packets.Bounded.{bounded-Closed, Within}
use whisper.Packets.Closed.{packet_keeps}
use whisper.Packets.Sound.{IsSound, IsSound-Closed, same-IsTestable}
use whisper.Peer.{
  HandshakeError, StatusPacket, Peer, Handshake, connected, failed, handshake, new_peer,
}
use whisper.Peer.Filter.{IsTestable, Ends, handshake-Ends, new_peer-IsTestable}
use whisper.Platform.{Platform}
use whisper.Pool.Expire.{expire_exact}
use whisper.Pool.Invariant.{IsValid}
use whisper.Sets.{Sets}
use whisper.Host.Callers.{
  settings-IsOrderly, install_filter-IsOrderly, unsubscribe-IsOrderly, retrieve-IsOrderly,
  announce_pow-IsOrderly, announce_bloom-IsOrderly,
}
use whisper.Host.Orderly.{
  IsOrderly, process_queue-IsOrderly, process_p2p-IsOrderly, allow_p2p-IsOrderly, request-IsOrderly,
  ask-IsOrderly,
}

module _ (P : Platform) (S : Sets) where
  -- A change of the node that keeps the pool and the queues in order.
  node-IsOrderly :
      (n : Node P S) (w : Host P S)
      → IsValid n.pool
      → IsBounded n
      → IsOrderly w
      → IsOrderly (record w { node = n })
  node-IsOrderly n w v b k = record {
    valid = v;
    testable = k.testable;
    bounded = b;
    fair = k.fair;
    backed = k.backed;
    housed = k.housed;
    stocked = k.stocked;
  }

  peers-IsOrderly :
      (ps : List (Peer P S)) (w : Host P S)
      → All IsTestable ps
      → IsOrderly w
      → IsOrderly (record w { peers = ps })
  peers-IsOrderly ps w a k = record {
    valid = k.valid;
    testable = a;
    bounded = k.bounded;
    fair = k.fair;
    backed = k.backed;
    housed = k.housed;
    stocked = k.stocked;
  }

  sent_node :
      {r : Node P S × Bool} (a : Added P S)
      → done (elim a.error [ none ↦ (a.node, a.cached) | some _ ↦ (a.node, false) ]) ≡ done r
      → a.node ≡ r.0
  sent_node {r} a x = elim (Option-cases a.error) [
    | inl n ↦ ap (λ (y : Node P S × Bool). y.0) (done_inj (rw n at x))
    | inr (e, n) ↦ ap (λ (y : Node P S × Bool). y.0) (done_inj (rw n at x))
  ]

  pub send-IsOrderly :
      (now : ℕ) (e : Envelope P) (w : Host P S) {r : Node P S × Bool}
      → send P S now e w.node ≡ done r
      → IsOrderly w
      → IsOrderly (record w { node = r.0 })
  unfolding send
  send-IsOrderly now e w {r} h k =
      let (a, added, x) = bind-done (add P S now false e w.node) _ h in
      let v = add-IsValid P S now false e w.node k.valid added in
      let b = add-IsBounded P S now false e w.node added k.bounded in
      let same : a.node ≡ r.0 = sent_node a x in
      node-IsOrderly r.0 w (rw (← same) v) (rw (← same) b) k

  Handshake-cases :
      (x : Handshake P S)
      → ((p : Peer P S) × (x ≡ connected p)) ⊎ ((e : HandshakeError) × (x ≡ failed e))
  Handshake-cases (connected p) = inl (p, refl)
  Handshake-cases (failed e) = inr (e, refl)

  open_session-IsOrderly :
      (i : ℕ) (packet : Option StatusPacket) (own_sent : Bool) (w : Host P S)
      → IsOrderly w
      → IsOrderly (open_session P S i packet own_sent w).0
  unfolding open_session
  open_session-IsOrderly i packet own_sent w k =
      let x = handshake P S w.node.settings packet own_sent (new_peer P S i) in
      let t : Ends P S x =
        handshake-Ends P S w.node.settings packet own_sent (new_peer P S i)
          (new_peer-IsTestable P S i) in
      elim (Handshake-cases x) [
        | inl (p, c) ↦
            rw (c, open_session)
              (peers-IsOrderly (p ∷ w.peers) w (subst (Ends P S) c t, k.testable) k)
        | inr (e, c) ↦ rw (c, open_session) k
      ]

  Step-IsOrderly : (w : Host P S) {u : Host P S} → Step P S w u → IsOrderly w → IsOrderly u
  Step-IsOrderly w (receives around packet i p s o g h) k =
      let sound =
        packet_keeps IsSound (IsSound-Closed P S) around packet (session P S w p) h
          (record { valid = k.valid; testable = get_peer-All P S i w.peers k.testable g }) in
      let b =
        packet_keeps (Within P S) (bounded-Closed P S) around packet (session P S w p) h
          k.bounded in
      record {
        valid = sound.valid;
        testable = put_peer-All P S s.peer w.peers k.testable sound.testable;
        bounded = b;
        fair = k.fair;
        backed = k.backed;
        housed = k.housed;
        stocked = k.stocked;
      }
  Step-IsOrderly w (sends now e r h) k = send-IsOrderly now e w h k
  Step-IsOrderly w (expires now p h) k =
      let (q, run, v, _, _, _, _) = expire_exact P S now w.node.pool k.valid in
      let same : q ≡ p = some_inj (sym run ∙ h) in
      node-IsOrderly (record w.node { pool = p }) w (rw (← same) v)
        (record { messages = k.bounded.messages; directs = k.bounded.directs }) k
  Step-IsOrderly w (delivers w' h) k = process_queue-IsOrderly P S w h k
  Step-IsOrderly w (delivers_p2p w' h) k = process_p2p-IsOrderly P S w h k
  Step-IsOrderly w (connects i packet own_sent) k = open_session-IsOrderly i packet own_sent w k
  Step-IsOrderly w (leaves i) k = peers-IsOrderly _ w (drop_peer-All P S i w.peers k.testable) k
  Step-IsOrderly w (broadcasts i p deliver es r g h) k =
      peers-IsOrderly _ w
        (put_peer-All P S r.peer w.peers k.testable (
          same-IsTestable P S p r.peer (broadcast-SamePeer P S deliver es p h)
            (get_peer-All P S i w.peers k.testable g)))
        k
  Step-IsOrderly w (allows i w' h) k = allow_p2p-IsOrderly P S i w h k
  Step-IsOrderly w (requests i e b) k = request-IsOrderly P S i e b w k
  Step-IsOrderly w (asks i r b) k = ask-IsOrderly P S i r b w k
  Step-IsOrderly w (subscribes c f r free h) k = install_filter-IsOrderly P S c f w free h k
  Step-IsOrderly w (unsubscribes id) k = unsubscribe-IsOrderly P S id w k
  Step-IsOrderly w (polls f) k = retrieve-IsOrderly P S f w k
  Step-IsOrderly w (announces_pow tries val w' h) k = announce_pow-IsOrderly P S tries val w h k
  Step-IsOrderly w (announces_bloom tries b w' h) k = announce_bloom-IsOrderly P S tries b w h k
  Step-IsOrderly w (settles_pow val) k = settings-IsOrderly P S _ w k
  Step-IsOrderly w (settles_bloom bloom) k = settings-IsOrderly P S _ w k

  -- In every order of packets from peers, sends, expiry, deliveries from the two queues, peers that
  -- come and go, broadcasts, requests, filters that are installed, polled and removed, and changed
  -- settings: a node that begins orderly stays so. That is, its pool is well formed, every envelope
  -- can be tested against each peer's bloom filter, neither queue holds more than 1024 items, each
  -- message that a filter was given it may have (a direct one only if it takes them, and from the
  -- sender that it names), each store holds only messages that the filter behind its address may
  -- have, no two of an envelope and none without a byte, each pointer in a topic matcher is that of
  -- a filter, and each watcher is the filter behind its own address. A new filter gets an address
  -- that is free.
  pub Reach-IsOrderly : (w : Host P S) {u : Host P S} → Reach P S w u → IsOrderly w → IsOrderly u
  Reach-IsOrderly w stays k = k
  Reach-IsOrderly w (steps v u r x) k = Step-IsOrderly v x (Reach-IsOrderly w r k)
