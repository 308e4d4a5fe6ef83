-- ===== src/Protocol/Reported.antt =====
-- The reception of a batch (whisperv6/whisper.go) as a run of `add`, and what is reported of it.
use mathlib.Core.List.{append-nil, append_assoc}
use mathlib.Core.Path.{subst}
use whisper.Base.{
  ℕ, ◌≡◌, refl, sym, ap, ◌∙◌, List, [], ◌∷◌, ◌++◌, Option, none, some, Bool-cases, inl, inr,
}
use whisper.Admission.{AddError}
use whisper.Constants.{envelope_time_not_synced}
use whisper.Envelope.{Envelope, with_hash}
use whisper.Events.{EnvelopeError, hash_event, envelope_received}
use whisper.Node.{Node, done, Added, add}
use whisper.Node.Add.{bind-done, done_inj}
use whisper.Peer.{mark}
use whisper.Platform.{Platform}
use whisper.Protocol.{Batch, note_error, note_received, receive_loop}
use whisper.Settings.{light_client_mode}
use whisper.Sets.{Sets}

module _ (P : Platform) (S : Sets) where
  -- The node after an envelope of a peer: `add` has run, and the envelope is announced.
  abbrev pub heard : ℕ → Added P S → Node P S
  heard peer r =
      let e = with_hash P r.envelope in
      record r.node {
        pool = record r.node.pool {
          feed =
              r.node.pool.feed
              ++ record (hash_event envelope_received e.hash) { topic = e.topic; peer = peer } ∷ [];
        };
      }

  -- From a node to a node by one `add` after another, each with its result.
  abbrev pub Adds : ℕ → Node P S → List (ℕ × Envelope P) → List (Added P S) → Node P S → Type 0
  Adds peer n [] [] n' = n ≡ n'
  Adds peer n [] (r ∷ rs) n' = ⊥
  Adds peer n (x ∷ xs) [] n' = ⊥
  Adds peer n ((now, e) ∷ xs) (r ∷ rs) n' =
      (add P S now (light_client_mode P n.settings) e n ≡ done r)
      × Adds peer (heard peer r) xs rs n'

  -- The report of one result, and those of a run: one for each error of `add`, whichever it is.
  abbrev pub report : (AddError → List ℕ) → Option AddError → ℕ → List EnvelopeError
  report describe none h = []
  report describe (some x) h =
      record { hash = h; code = envelope_time_not_synced; description = describe x } ∷ []

  abbrev pub reports : (AddError → List ℕ) → List (Added P S) → List EnvelopeError
  reports describe [] = []
  reports describe (r ∷ rs) =
      report describe r.error (with_hash P r.envelope).hash ++ reports describe rs

  -- What a round leaves.
  record Noted (describe : AddError → List ℕ) (o : Option AddError) (h : ℕ) (r : Added P S)
      (b b' : Batch P S) : Type 0 where
    node_eq : b'.node ≡ heard b.peer.id r
    peer_eq : b'.peer.id ≡ b.peer.id
    errors_eq : b'.errors ≡ b.errors ++ report describe o h
    trouble_eq : b'.trouble ≡ b.trouble

  note-Noted :
      (describe : AddError → List ℕ) (o : Option AddError) (h : ℕ) (r : Added P S) (b : Batch P S)
      → Noted describe o h r b
          (note_received P S r (note_error P S describe o h (record b { node = r.node })))
  unfolding note_received note_error mark
  note-Noted describe none h r b = record {
    node_eq = refl;
    peer_eq = elim (Bool-cases r.cached) [ inl c ↦ rw c refl | inr c ↦ rw c refl ];
    errors_eq = sym (append-nil b.errors);
    trouble_eq = refl;
  }
  note-Noted describe (some x) h r b = record {
    node_eq = refl;
    peer_eq = elim (Bool-cases r.cached) [ inl c ↦ rw c refl | inr c ↦ rw c refl ];
    errors_eq = refl;
    trouble_eq = refl;
  }

  -- What holds of the rest of a batch is carried over a round.
  abbrev pub Ran : (AddError → List ℕ) → List (ℕ × Envelope P) → Batch P S → Batch P S → Type 0
  Ran describe xs b c =
      (rs : List (Added P S)) × Adds b.peer.id b.node xs rs c.node
      × (c.errors ≡ b.errors ++ reports describe rs)
      × (c.trouble ≡ b.trouble)

  round-Ran :
      (describe : AddError → List ℕ) (now : ℕ) (e : Envelope P) (xs : List (ℕ × Envelope P))
      (r : Added P S) (b b' c : Batch P S)
      → add P S now (light_client_mode P b.node.settings) e b.node ≡ done r
      → Noted describe r.error (with_hash P r.envelope).hash r b b'
      → Ran describe xs b' c
      → Ran describe ((now, e) ∷ xs) b c
  round-Ran describe now e xs r b b' c added k (rs, run, errors, trouble) =
      let i = (with_hash P r.envelope).hash in
      let run' : Adds b.peer.id b'.node xs rs c.node =
        subst (λ p. Adds p b'.node xs rs c.node) k.peer_eq run in
      (
        r ∷ rs,
        (added, subst (λ n. Adds b.peer.id n xs rs c.node) k.node_eq run'),
        errors
            ∙ ap (λ l. l ++ reports describe rs) k.errors_eq
            ∙ append_assoc b.errors (report describe r.error i) (reports describe rs),
        trouble ∙ k.trouble_eq,
      )

  -- A batch that is received to its end: its envelopes are added one after another, and every error
  -- of `add` is in the reports, with the envelope's hash.
  pub receive_loop-Ran :
      (describe : AddError → List ℕ) (xs : List (ℕ × Envelope P)) (b : Batch P S) {c : Batch P S}
      → receive_loop P S describe xs b ≡ done c
      → Ran describe xs b c
  unfolding receive_loop
  receive_loop-Ran describe [] b {c} h =
      let same : b ≡ c = done_inj h in rw (← same) ([], refl, sym (append-nil b.errors), refl)
  receive_loop-Ran describe ((now, e) ∷ xs) b {c} h =
      let (r, added, rest) =
        bind-done (add P S now (light_client_mode P b.node.settings) e b.node) _ h in
      let i = (with_hash P r.envelope).hash in
      round-Ran describe now e xs r b _ c added (note-Noted describe r.error i r b)
        (receive_loop-Ran describe xs _ rest)
