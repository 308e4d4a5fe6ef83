-- ===== src/Packets/Untrusted.antt =====
-- What a peer that is not trusted cannot do to the node in `runMessageLoop` (whisperv6/whisper.go).
use whisper.Base.{◌≡◌, refl, ◌∙◌, List, true, false, arith}
use whisper.Node.{done, P2pItem}
use whisper.Packets.{Packet, LoopError, Session, Outside}
use whisper.Packets.Cases.{run_message_loop}
use whisper.Packets.Closed.{Closed, Leaves, start, run_message_loop-Leaves}
use whisper.Peer.{set_bloom_filter}
use whisper.Platform.{Platform}
use whisper.Protocol.Quiet.{receive_loop-SamePeer, receive_loop-Quiet}
use whisper.Settings.{light_client_mode}
use whisper.Sets.{Sets}
use mathlib.Core.Path.{subst}

module _ (P : Platform) (S : Sets) where
  -- The peer is not trusted, the node is no light client, and its queue of direct messages is given.
  record Barred (q : List (P2pItem P)) (s : Session P S) : Type 0 where
    pub untrusted : s.peer.trusted ≡ false
    pub forwarding : light_client_mode P s.node.settings ≡ false
    pub queue_eq : s.node.p2p_msg_queue ≡ q

  trust_no : {A : Type 0} (s : Session P S) → s.peer.trusted ≡ false → s.peer.trusted ≡ true → A
  trust_no s u t = absurd (ground (arith, u, t))

  Barred-Closed : (q : List (P2pItem P)) → Closed P S (Barred q)
  unfolding set_bloom_filter light_client_mode
  Barred-Closed q = record {
    with_event = λ e s k. record {
      untrusted = k.untrusted;
      forwarding = k.forwarding;
      queue_eq = k.queue_eq;
    };
    talking = λ o c s k. record {
      untrusted = k.untrusted;
      forwarding = k.forwarding;
      queue_eq = k.queue_eq;
    };
    archiving = λ l s t k. record {
      untrusted = k.untrusted;
      forwarding = k.forwarding;
      queue_eq = k.queue_eq;
    };
    requiring = λ f s k. record {
      untrusted = k.untrusted;
      forwarding = k.forwarding;
      queue_eq = k.queue_eq;
    };
    filtering = λ b s l k. record {
      untrusted = k.untrusted;
      forwarding = k.forwarding;
      queue_eq = k.queue_eq;
    };
    posting = λ item s w t h k. trust_no s k.untrusted t;
    receiving = λ describe es s b h k.
        let p = receive_loop-SamePeer P S describe es (start P S s) h in
        let n = receive_loop-Quiet P S describe es (start P S s) k.forwarding h in
        record {
          untrusted = p.same_trusted ∙ k.untrusted;
          forwarding = rw n.same_light k.forwarding;
          queue_eq = n.same_p2p ∙ k.queue_eq;
        };
  }

  -- The packets of a peer that is not trusted, whatever they are, put nothing into the queue of
  -- direct messages of a node that is not in light client mode, and they do not make the peer
  -- trusted. The queue is what filters that take direct messages are served from, without a check
  -- of expiry or proof of work.
  pub untrusted_posts_nothing :
      (around : Outside) (ps : List (Packet P)) (s : Session P S) {r : Session P S × LoopError}
      → s.peer.trusted ≡ false
      → light_client_mode P s.node.settings ≡ false
      → run_message_loop P S around ps s ≡ done r
      → (r.0.peer.trusted ≡ false) × (r.0.node.p2p_msg_queue ≡ s.node.p2p_msg_queue)
  untrusted_posts_nothing around ps s u l h =
      let start : Barred s.node.p2p_msg_queue s = record {
        untrusted = u;
        forwarding = l;
        queue_eq = refl;
      } in
      let k = subst (Leaves P S (Barred s.node.p2p_msg_queue)) h (
        run_message_loop-Leaves (Barred s.node.p2p_msg_queue) (Barred-Closed s.node.p2p_msg_queue)
          around ps s start) in
      (k.untrusted, k.queue_eq)
