-- ===== src/Packets/Refusals.antt =====
-- What a peer is told of the envelopes that were refused (whisperv6/whisper.go).
use whisper.Base.{
  ℕ, ◌≡◌, sym, ap, ◌∙◌, List, [], ◌∷◌, ◌++◌, false, Option, none, some, Bool-cases, inl, inr,
  if◌then◌else◌,
}
use mathlib.Core.Path.{subst}
use whisper.Envelope.{Envelope}
use whisper.Node.{Node, Effect, done, Added}
use whisper.Node.Add.{bind-done, done_inj}
use whisper.Packets.{
  LoopError, Session, Outside, new_messages_response, message_response_out, batch_acknowledged_out,
}
use whisper.Packets.Cases.{handle_messages, send_confirmation}
use whisper.Packets.Confirmed.{receive_loop-flag}
use whisper.Platform.{Platform}
use whisper.Protocol.{Batch, receive_loop}
use whisper.Protocol.Reported.{Adds, reports, receive_loop-Ran}
use whisper.Sets.{Sets}

module _ (P : Platform) (S : Sets) where
  at_end :
      (Q : Node P S → Type 0) (v : Session P S) {s' : Session P S} {o : Option LoopError}
      → Q v.node
      → ◌≡◌ {A = Effect (Session P S × Option LoopError)} (done (v, none)) (done (s', o))
      → Q s'.node × (o ≡ none) × (s'.outgoing ≡ v.outgoing)
  at_end Q v run y =
      let left = ap (λ (z : Session P S × Option LoopError). z.0) (done_inj y) in
      (
        subst (λ (u : Session P S). Q u.node) left run,
        sym (ap (λ (z : Session P S × Option LoopError). z.1) (done_inj y)),
        sym (ap (λ (u : Session P S). u.outgoing) left),
      )

  -- A batch of envelopes that a peer sends and that is received to its end: the envelopes are added
  -- one after another, each to the node that the one before left; the loop goes on, whatever `add`
  -- refused; and unless the node has disabled confirmations, the peer is sent the batch's
  -- acknowledgement and before it a response that has one error for each envelope that `add` refused,
  -- in order, with the envelope's hash, and always with the code of clock skew.
  pub refusals_told :
      (around : Outside) (batch : ℕ) (xs : List (ℕ × Envelope P)) (s s' : Session P S)
      (o : Option LoopError)
      → handle_messages P S around (some (batch, xs)) s ≡ done (s', o)
      → (rs : List (Added P S)) × Adds P S s.peer.id s.node xs rs s'.node
        × (o ≡ none)
        × (s'.outgoing ≡ (
            if s.node.disable_confirmations
            then s.outgoing
            else s.outgoing
              ++ message_response_out (new_messages_response batch (reports P S around.describe rs))
                ∷ batch_acknowledged_out batch
                ∷ []))
  unfolding handle_messages send_confirmation
  refusals_told around batch xs s s' o h =
      let b0 : Batch P S = record { node = s.node; peer = s.peer; errors = []; trouble = false } in
      let (b, received, x) = bind-done (receive_loop P S around.describe xs b0) _ h in
      let (rs, run, errors, trouble) = receive_loop-Ran P S around.describe xs b0 received in
      let flag = receive_loop-flag P S around.describe xs b0 received in
      elim (Bool-cases s.node.disable_confirmations) [
        | inl c ↦
            let (ran, goes_on, out) =
              at_end (Adds P S s.peer.id s.node xs rs) _ run (rw (flag ∙ c, trouble) at x) in
            (rs, ran, goes_on, rw c out)
        | inr c ↦
            let (ran, goes_on, out) =
              at_end (Adds P S s.peer.id s.node xs rs) _ run (rw (flag ∙ c, trouble) at x) in
            (rs, ran, goes_on, rw (c, sym errors) out)
      ]
