-- ===== src/Protocol/Quiet.antt =====
-- The reception of a batch (whisperv6/whisper.go) and what it leaves alone.
use whisper.Base.{ℕ, ◌≡◌, refl, ◌∙◌, ap, List, [], ◌∷◌, false, Option, none, some, arith}
use whisper.Admission.{AddError}
use whisper.Envelope.{Envelope, with_hash}
use whisper.Node.{Node, done, Added, add}
use whisper.Node.Add.{bind-done}
use whisper.Node.Quiet.{Quiet, add-Quiet}
use whisper.Peer.{Peer, mark}
use whisper.Platform.{Platform}
use whisper.Protocol.{Batch, note_error, note_received, receive_loop}
use whisper.Settings.{light_client_mode}
use whisper.Sets.{Sets}

-- The peer is the same but for the envelopes that it is known to have.
pub record SamePeer {P : Platform} {S : Sets} (p p' : Peer P S) : Type 0 where
  pub same_trusted : p'.trusted ≡ p.trusted
  pub same_full : p'.full_node ≡ p.full_node
  pub same_bloom : p'.bloom_filter ≡ p.bloom_filter

module _ (P : Platform) (S : Sets) where
  note_received-SamePeer :
      (r : Added P S) (b : Batch P S) → SamePeer b.peer (note_received P S r b).peer
  unfolding note_received mark
  note_received-SamePeer r b = record {
    same_trusted = ground arith;
    same_full = ground arith;
    same_bloom = ground arith;
  }

  note_error-same :
      (describe : AddError → List ℕ) (o : Option AddError) (h : ℕ) (b : Batch P S)
      → ((note_error P S describe o h b).node ≡ b.node)
        × ((note_error P S describe o h b).peer ≡ b.peer)
  unfolding note_error
  note_error-same describe none h b = (refl, refl)
  note_error-same describe (some e) h b = (refl, refl)

  note_received-node : (r : Added P S) (b : Batch P S) → Quiet b.node (note_received P S r b).node
  unfolding note_received
  note_received-node r b = record { same_p2p = refl; same_light = refl }

  -- A batch that is received to its end leaves the peer's trust and bloom filter as they are.
  pub receive_loop-SamePeer :
      (describe : AddError → List ℕ) (es : List (ℕ × Envelope P)) (b : Batch P S) {c : Batch P S}
      → receive_loop P S describe es b ≡ done c
      → SamePeer b.peer c.peer
  unfolding receive_loop
  receive_loop-SamePeer describe [] b {c} h =
      let same : b ≡ c = ground (arith, h) in
      rw (← same) (record { same_trusted = refl; same_full = refl; same_bloom = refl })
  receive_loop-SamePeer describe ((now, e) ∷ es) b h =
      let (r, added, rest) =
        bind-done (add P S now (light_client_mode P b.node.settings) e b.node) _ h in
      let noted =
        note_error P S describe r.error (with_hash P r.envelope).hash
          (record b { node = r.node }) in
      let a = note_received-SamePeer r noted in
      let n =
        note_error-same describe r.error (with_hash P r.envelope).hash
          (record b { node = r.node }) in
      let k = receive_loop-SamePeer describe es (note_received P S r noted) rest in
      record {
        same_trusted = k.same_trusted ∙ a.same_trusted ∙ ap (λ (p : Peer P S). p.trusted) n.1;
        same_full = k.same_full ∙ a.same_full ∙ ap (λ (p : Peer P S). p.full_node) n.1;
        same_bloom = k.same_bloom ∙ a.same_bloom ∙ ap (λ (p : Peer P S). p.bloom_filter) n.1;
      }

  -- Outside light client mode a batch posts nothing to the queue of direct messages.
  pub receive_loop-Quiet :
      (describe : AddError → List ℕ) (es : List (ℕ × Envelope P)) (b : Batch P S) {c : Batch P S}
      → light_client_mode P b.node.settings ≡ false
      → receive_loop P S describe es b ≡ done c
      → Quiet b.node c.node
  unfolding receive_loop light_client_mode
  receive_loop-Quiet describe [] b {c} l h =
      let same : b ≡ c = ground (arith, h) in
      rw (← same) (record { same_p2p = refl; same_light = refl })
  receive_loop-Quiet describe ((now, e) ∷ es) b l h =
      let (r, added, rest) =
        bind-done (add P S now (light_client_mode P b.node.settings) e b.node) _ h in
      let noted =
        note_error P S describe r.error (with_hash P r.envelope).hash
          (record b { node = r.node }) in
      let q = add-Quiet P S now e b.node (rw l at added) in
      let n =
        note_error-same describe r.error (with_hash P r.envelope).hash
          (record b { node = r.node }) in
      let a = note_received-node r noted in
      let light =
        a.same_light ∙ ap (λ (w : Node P S). w.settings.light_client) n.0 ∙ q.same_light in
      let k = receive_loop-Quiet describe es (note_received P S r noted) (rw light l) rest in
      record {
        same_p2p =
            k.same_p2p ∙ a.same_p2p ∙ ap (λ (w : Node P S). w.p2p_msg_queue) n.0 ∙ q.same_p2p;
        same_light = k.same_light ∙ light;
      }
