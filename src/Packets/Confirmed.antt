-- ===== src/Packets/Confirmed.antt =====
-- The confirmation of a batch, on both sides (whisperv6/peer.go, whisperv6/whisper.go).
use whisper.Base.{
  ℕ, ◌≡◌, refl, ap, sym, ◌∙◌, List, [], ◌∷◌, ◌++◌, map, Bool, true, false, Option, none, some,
  some_inj, none_is_some, All, arith, length, ◌==◌, Bool-cases, Option-cases, inl, inr,
}
use whisper.Admission.{AddError}
use whisper.Envelope.{Envelope, with_hash}
use whisper.Events.{EnvelopeEvent, EnvelopeError, hash_event, batch_acknowledged}
use whisper.Node.{Node, Effect, done, Added, post_event, archive, add_checked, add}
use whisper.Node.Add.{went_on, refused, ignored, add-Cases, add_checked-done, bind-done, done_inj}
use whisper.Packets.{
  Session, Outside, LoopError, new_messages_response, message_response_out, batch_acknowledged_out,
}
use whisper.Packets.Cases.{
  handle_messages, send_confirmation, handle_batch_acknowledged, with_event,
}
use whisper.Peer.{Peer, Broadcasted, pick, broadcast, sent_event}
use whisper.Peer.Bundle.{send_bundle, bundle_data}
use whisper.Platform.{Platform}
use whisper.Pool.{Pool, cache_envelope}
use whisper.Protocol.{Batch, note_error, note_received, receive_loop}
use whisper.Settings.{check_overflow, light_client_mode}
use whisper.Sets.{Sets}

module _ (P : Platform) (S : Sets) where
  -- Whether confirmations are sent does not change while a batch is received.
  post_event-flag :
      (e : Envelope P) (b : Bool) (w : Node P S) {w' : Node P S}
      → post_event P S e b w ≡ done w'
      → w'.disable_confirmations ≡ w.disable_confirmations
  unfolding post_event check_overflow whisper.Node.post_p2p
  post_event-flag e true w h = ground arith
  post_event-flag e false w h = ground arith

  archive-flag :
      (e : Envelope P) (w : Node P S)
      → (archive P S e w).disable_confirmations ≡ w.disable_confirmations
  unfolding archive
  archive-flag e w = ground arith

  add_checked-flag :
      (b : Bool) (e0 : Envelope P) (w : Node P S) {r : Added P S}
      → add_checked P S b e0 w ≡ done r
      → r.node.disable_confirmations ≡ w.disable_confirmations
  add_checked-flag b e0 w {r} h =
      let e : Envelope P = with_hash P e0 in
      let c : Pool P S × Bool = cache_envelope P S e.hash e w.pool in
      elim (add_checked-done P S b e0 w h) [
        | inl (old, x) ↦ rw x refl
        | inr (w', new, posted, x) ↦
            let q = post_event-flag e b (record w { pool = c.0 }) posted in
            rw x (archive-flag e w' ∙ q)
      ]

  add-flag :
      (now : ℕ) (b : Bool) (e : Envelope P) (w : Node P S) {r : Added P S}
      → add P S now b e w ≡ done r
      → r.node.disable_confirmations ≡ w.disable_confirmations
  add-flag now b e w h = elim (add-Cases P S now b e w h) [
    | went_on e' _ x ↦ add_checked-flag b e' w x
    | refused _ _ x ↦ rw x refl
    | ignored _ x ↦ rw x refl
  ]

  note_error-flag :
      (describe : AddError → List ℕ) (o : Option AddError) (h : ℕ) (b : Batch P S)
      → (note_error P S describe o h b).node ≡ b.node
  unfolding note_error
  note_error-flag describe none h b = refl
  note_error-flag describe (some e) h b = refl

  pub receive_loop-flag :
      (describe : AddError → List ℕ) (es : List (ℕ × Envelope P)) (b : Batch P S) {c : Batch P S}
      → receive_loop P S describe es b ≡ done c
      → c.node.disable_confirmations ≡ b.node.disable_confirmations
  unfolding receive_loop note_received
  receive_loop-flag describe [] b {c} h =
      ap (λ (x : Batch P S). x.node.disable_confirmations) (sym (done_inj h))
  receive_loop-flag describe ((now, e) ∷ es) b h =
      let (r, added, rest) =
        bind-done (add P S now (light_client_mode P b.node.settings) e b.node) _ h in
      let noted =
        note_error P S describe r.error (with_hash P r.envelope).hash
          (record b { node = r.node }) in
      receive_loop-flag describe es (note_received P S r noted) rest
      ∙ ap (λ (n : Node P S). n.disable_confirmations)
          (note_error-flag describe r.error (with_hash P r.envelope).hash
            (record b { node = r.node }))
      ∙ add-flag now (light_client_mode P b.node.settings) e b.node added

  abbrev pub OfBatch : ℕ → EnvelopeEvent → Type 0
  OfBatch batch ev = ev.batch ≡ batch

  events-OfBatch :
      (p : Peer P S) (batch : ℕ) (es : List (Envelope P))
      → p.confirmations_enabled ≡ true
      → All (OfBatch batch) (map (sent_event P S p batch) es)
  events-OfBatch p batch [] c = tt
  events-OfBatch p batch (e ∷ es) c = (rw c refl, events-OfBatch p batch es c)

  broadcast-OfBatch :
      (es : List (Envelope P)) (p : Peer P S) {r : Broadcasted P S}
      → broadcast P S (send_bundle P true) es p ≡ some r
      → p.confirmations_enabled ≡ true
      → All (OfBatch (P.keccak256 (bundle_data P r.bundle))) r.events
  unfolding broadcast send_bundle
  broadcast-OfBatch es p {r} h c = elim (Option-cases (pick P S p es)) [
    | inl n ↦ absurd (none_is_some (rw (n, broadcast) at h))
    | inr (bundle, b) ↦ elim (Bool-cases (length bundle == 0)) [
      | inl z ↦ rw (← some_inj (rw (b, z, broadcast) at h)) tt
      | inr z ↦
          rw (← some_inj (rw (b, z, broadcast, send_bundle) at h))
            (events-OfBatch p (P.keccak256 (bundle_data P bundle)) bundle c)
    ]
  ]

  -- The two confirmations, whether or not an envelope of the batch was refused.
  handle_messages-confirms :
      (around : Outside) (batch : ℕ) (xs : List (ℕ × Envelope P)) (s s' : Session P S)
      (o : Option LoopError)
      → s.node.disable_confirmations ≡ false
      → handle_messages P S around (some (batch, xs)) s ≡ done (s', o)
      → (errors : List EnvelopeError) × (s'.outgoing
          ≡ s.outgoing
            ++ message_response_out (new_messages_response batch errors)
              ∷ batch_acknowledged_out batch
              ∷ [])
  unfolding handle_messages send_confirmation
  handle_messages-confirms around batch xs s s' o c h =
      let (b, received, x) =
        bind-done
          (receive_loop P S around.describe xs
            (record { node = s.node; peer = s.peer; errors = []; trouble = false }))
          _ h in
      let on : b.node.disable_confirmations ≡ false =
        receive_loop-flag around.describe xs
          (record { node = s.node; peer = s.peer; errors = []; trouble = false }) received
        ∙ c in
      elim (Bool-cases b.trouble) [
        | inl t ↦
            let y = done_inj (rw (on, t) at x) in
            (b.errors, ap (λ (z : Session P S × Option LoopError). z.0.outgoing) (sym y))
        | inr t ↦
            let y = done_inj (rw (on, t) at x) in
            (b.errors, ap (λ (z : Session P S × Option LoopError). z.0.outgoing) (sym y))
      ]

  -- A broadcast that is written to a peer with confirmations, and the reception of its data by a
  -- node that has not disabled them, whatever envelopes it decodes and accepts: the receiver answers
  -- with a response and an acknowledgement of the hash of this data, and when the sender gets the
  -- acknowledgement, it reports it under the very hash under which it reported each envelope of the
  -- bundle as sent.
  pub batch_confirmed :
      (es : List (Envelope P)) (p : Peer P S) (r : Broadcasted P S) (around : Outside)
      (xs : List (ℕ × Envelope P)) (s s' t : Session P S) (o : Option LoopError)
      → p.confirmations_enabled ≡ true
      → s.node.disable_confirmations ≡ false
      → broadcast P S (send_bundle P true) es p ≡ some r
      → handle_messages P S around (some (P.keccak256 (bundle_data P r.bundle), xs)) s
        ≡ done (s', o)
      → ((errors : List EnvelopeError) × (s'.outgoing
            ≡ s.outgoing
              ++ message_response_out
                  (new_messages_response (P.keccak256 (bundle_data P r.bundle)) errors)
                ∷ batch_acknowledged_out (P.keccak256 (bundle_data P r.bundle))
                ∷ []))
        × ((ev : EnvelopeEvent) × (handle_batch_acknowledged P S
                (some (P.keccak256 (bundle_data P r.bundle)))
                t
              ≡ done (with_event P S ev t, none))
            × (ev.peer ≡ t.peer.id)
            × All (OfBatch ev.batch) r.events)
  unfolding handle_batch_acknowledged
  batch_confirmed es p r around xs s s' t o c on b h = (
    handle_messages-confirms around _ xs s s' o on h,
    (
      record (hash_event batch_acknowledged 0) {
        batch = P.keccak256 (bundle_data P r.bundle);
        peer = t.peer.id;
      },
      refl,
      refl,
      broadcast-OfBatch es p b c,
    ),
  )
