-- ===== src/Protocol.antt =====
-- The reception of a batch of envelopes: the case `messagesCode` of `runMessageLoop`
-- (whisperv6/whisper.go) and `ErrorToEnvelopeError` (whisperv6/doc.go).
pub mod Reception
pub mod Quiet
pub mod Reported
use whisper.Base.{
  ℕ, List, [], ◌∷◌, ◌++◌, Bool, true, false, not, ◌||◌, Option, none, some, if◌then◌else◌,
}
use whisper.Admission.{AddError}
use whisper.Constants.{envelope_time_not_synced, envelope_other_error}
use whisper.Envelope.{Envelope, with_hash}
use whisper.Events.{EnvelopeError, hash_event, envelope_received}
use whisper.Node.{Node, Effect, done, waits, panics, ◌>>=◌, Added, add}
use whisper.Peer.{Peer, mark}
use whisper.Platform.{Platform}
use whisper.Settings.{light_client_mode}
use whisper.Sets.{Sets}

-- `err.(TimeSyncError)`: the type is declared as `error`, an interface, so the assertion holds for
-- every error that is not nil.
unfoldable pub is_time_sync_error : AddError → Bool
is_time_sync_error e = true

-- `ErrorToEnvelopeError`; `describe` is the text of an error.
unfoldable pub error_to_envelope_error : (AddError → List ℕ) → ℕ → AddError → EnvelopeError
unfolding is_time_sync_error
error_to_envelope_error describe h e = record {
  hash = h;
  code = if is_time_sync_error e then envelope_time_not_synced else envelope_other_error;
  description = describe e;
}

-- What the loop over the envelopes has so far.
pub record Batch (P : Platform) (S : Sets) : Type 0 where
  pub node : Node P S
  pub peer : Peer P S
  pub errors : List EnvelopeError
  pub trouble : Bool

module _ (P : Platform) (S : Sets) where
  -- The errors and the flag after the result of one `add`.
  unfoldable pub note_error : (AddError → List ℕ) → Option AddError → ℕ → Batch P S → Batch P S
  unfolding is_time_sync_error error_to_envelope_error
  note_error describe none h b = b
  note_error describe (some e) h b = record b {
    trouble = if not (is_time_sync_error e) then true else b.trouble;
    errors = b.errors ++ error_to_envelope_error describe h e ∷ [];
  }

  -- The rest of the round: the event, and the mark on the peer.
  unfoldable pub note_received : Added P S → Batch P S → Batch P S
  note_received r b =
      let e = with_hash P r.envelope in
      record b {
        node = record b.node {
          pool = record b.node.pool {
            feed =
                b.node.pool.feed
                ++ record (hash_event envelope_received e.hash) {
                  topic = e.topic;
                  peer = b.peer.id;
                }
                  ∷ [];
          };
        };
        peer = if r.cached then mark P S e b.peer else b.peer;
      }

  -- The loop over the envelopes, each with the time at which `add` is called for it.
  unfoldable pub receive_loop :
      (AddError → List ℕ) → List (ℕ × Envelope P) → Batch P S → Effect (Batch P S)
  unfolding note_error note_received
  receive_loop describe [] b = done b
  receive_loop describe ((now, e) ∷ es) b = do
    r ← add P S now (light_client_mode P b.node.settings) e b.node
    receive_loop describe es (
        note_received r
          (note_error describe r.error (with_hash P r.envelope).hash (record b { node = r.node })))
