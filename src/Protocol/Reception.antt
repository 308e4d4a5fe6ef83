-- ===== src/Protocol/Reception.antt =====
-- The reception of a batch (whisperv6/whisper.go) keeps the pool well formed.
use whisper.Base.{ℕ, ◌≡◌, List, [], ◌∷◌, Option, none, some}
use whisper.Admission.{AddError}
use whisper.Envelope.{Envelope, with_hash}
use whisper.Events.{EnvelopeEvent}
use whisper.Node.{done, Added, add}
use whisper.Node.Add.{add-IsValid, bind-done, done_inj}
use whisper.Platform.{Platform}
use whisper.Pool.{Pool}
use whisper.Pool.Invariant.{IsValid}
use whisper.Protocol.{Batch, note_error, note_received, receive_loop}
use whisper.Settings.{light_client_mode}
use whisper.Sets.{Sets}

module _ (P : Platform) (S : Sets) where
  pub with_feed-IsValid :
      (p : Pool P S) (events : List EnvelopeEvent)
      → IsValid p
      → IsValid (record p { feed = events })
  with_feed-IsValid p events v = record {
    unique_envelopes = v.unique_envelopes;
    unique_expirations = v.unique_expirations;
    tracked = v.tracked;
    cached = v.cached;
    accounted = v.accounted;
  }

  note-IsValid :
      (describe : AddError → List ℕ) (r : Added P S) (o : Option AddError) (h : ℕ) (b : Batch P S)
      → IsValid r.node.pool
      → IsValid
          (note_received P S r (note_error P S describe o h (record b { node = r.node }))).node.pool
  unfolding note_received note_error
  note-IsValid describe r none h b v = with_feed-IsValid r.node.pool _ v
  note-IsValid describe r (some e) h b v = with_feed-IsValid r.node.pool _ v

  -- A batch that is received to its end, whatever the envelopes are, leaves a well-formed pool well
  -- formed.
  pub receive_loop-IsValid :
      (describe : AddError → List ℕ) (es : List (ℕ × Envelope P)) (b : Batch P S) {c : Batch P S}
      → IsValid b.node.pool
      → receive_loop P S describe es b ≡ done c
      → IsValid c.node.pool
  unfolding receive_loop
  receive_loop-IsValid describe [] b {c} v h = let same : b ≡ c = done_inj h in rw (← same) v
  receive_loop-IsValid describe ((now, e) ∷ es) b {c} v h =
      let (r, added, rest) =
        bind-done (add P S now (light_client_mode P b.node.settings) e b.node) _ h in
      let i = (with_hash P r.envelope).hash in
      receive_loop-IsValid describe es _
        (note-IsValid describe r r.error i b
          (add-IsValid P S now (light_client_mode P b.node.settings) e b.node v added))
        rest
