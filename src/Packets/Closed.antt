-- ===== src/Packets/Closed.antt =====
-- What every case of `runMessageLoop` (whisperv6/whisper.go) keeps, by the changes that the cases
-- are made of.
use mathlib.Core.Path.{subst}
use whisper.Base.{
  ℕ, ◌≡◌, refl, List, [], ◌∷◌, ◌++◌, Bool, true, false, not, ◌&&◌, ◌||◌, Option, none, some, ltb,
  ◌==◌, if◌then◌else◌, length, Option-cases, inl, inr, arith,
}
use whisper.Admission.{AddError}
use whisper.Constants.{bloom_filter_size}
use whisper.Envelope.{Envelope}
use whisper.Events.{EnvelopeEvent}
use whisper.MailServer.{Parsed, event, no_event, bad_size, crash, create_mail_server_event}
use whisper.Node.{
  Node, Effect, done, waits, panics, ◌>>=◌, P2pItem, event_item, envelope_item, post_p2p,
}
use whisper.Node.Add.{bind-done}
use whisper.Peer.{set_bloom_filter}
use whisper.Platform.{Platform}
use whisper.Protocol.{Batch, receive_loop}
use whisper.Requests.{SyncMailRequest, validate_sync_mail_request}
use whisper.Sets.{Sets}
use whisper.Packets.{
  SyncResponse, MessagesResponse, Direct, several, single, neither, MailRequest, deprecated,
  request, invalid, Body, status_body, unknown_body, messages_body, message_response_body,
  batch_acknowledged_body, pow_requirement_body, bloom_filter_ex_body, p2p_message_body,
  p2p_sync_request_body, p2p_sync_response_body, p2p_request_body, p2p_request_complete_body,
  Packet, LoopError, Outgoing, MailCall, Session, Outside,
}
use whisper.Packets.Cases.{
  answered, answer_event, with_event, send_confirmation, handle_messages, handle_message_response,
  handle_batch_acknowledged, handle_pow_requirement, handle_bloom_filter_ex, post_all,
  handle_p2p_message, handle_sync_request, handle_sync_response, handle_p2p_request,
  handle_request_complete, handle_body, handle_packet, run_message_loop,
}

module _ (P : Platform) (S : Sets) where
  -- The batch at the start of the loop over its envelopes.
  abbrev pub start : Session P S → Batch P S
  start s = record { node = s.node; peer = s.peer; errors = []; trouble = false }

  -- A predicate on sessions that the changes keep. Only a trusted peer's packets post and archive.
  pub record Closed (Q : Session P S → Type 0) : Type 0 where
    pub with_event : (e : EnvelopeEvent) (s : Session P S) → Q s → Q (with_event P S e s)
    pub talking :
        (o : List (Outgoing P)) (c : List (MailCall P)) (s : Session P S)
        → Q s
        → Q (record s { outgoing = o; calls = c })
    pub archiving :
        (l : List (Envelope P)) (s : Session P S)
        → s.peer.trusted ≡ true
        → Q s
        → Q (record s { node = record s.node { archived = l } })
    pub requiring :
        (f : P.Float) (s : Session P S)
        → Q s
        → Q (record s { peer = record s.peer { pow_requirement = f } })
    pub filtering :
        (b : List ℕ) (s : Session P S)
        → length b ≡ bloom_filter_size
        → Q s
        → Q (record s { peer = set_bloom_filter P S (some b) s.peer })
    pub posting :
        (item : P2pItem P) (s : Session P S) (w : Node P S)
        → s.peer.trusted ≡ true
        → post_p2p P S item s.node ≡ done w
        → Q s
        → Q (record s { node = w })
    pub receiving :
        (describe : AddError → List ℕ) (es : List (ℕ × Envelope P)) (s : Session P S)
        (b : Batch P S)
        → receive_loop P S describe es (start s) ≡ done b
        → Q s
        → Q (record s { node = b.node; peer = b.peer })

  -- A predicate on the session that a step leaves, if it returns.
  abbrev pub Leaves : {B : Type 0} → (Session P S → Type 0) → Effect (Session P S × B) → Type 0
  Leaves Q (done r) = Q r.0
  Leaves Q waits = Unit
  Leaves Q panics = Unit

  Leaves-bind :
      {A B : Type 0} (Q : Session P S → Type 0) (m : Effect A) (f : A → Effect (Session P S × B))
      → ((a : A) → m ≡ done a → Leaves Q (f a))
      → Leaves Q (m >>= f)
  Leaves-bind Q (done a) f h = h a refl
  Leaves-bind Q waits f h = tt
  Leaves-bind Q panics f h = tt

  Leaves-if :
      {B : Type 0} (Q : Session P S → Type 0) (b : Bool) (x y : Effect (Session P S × B))
      → (b ≡ true → Leaves Q x)
      → (b ≡ false → Leaves Q y)
      → Leaves Q (if b then x else y)
  Leaves-if Q true x y f g = f refl
  Leaves-if Q false x y f g = g refl

module _ {P : Platform} {S : Sets} (Q : Session P S → Type 0) (c : Closed P S Q) where
  Q-if : (b : Bool) (x y : Session P S) → Q x → Q y → Q (if b then x else y)
  Q-if true x y f g = f
  Q-if false x y f g = g

  post_all_keeps :
      (es : List (Envelope P)) (s : Session P S) (w : Node P S)
      → s.peer.trusted ≡ true
      → post_all P S es s.node ≡ done w
      → Q s
      → Q (record s { node = w })
  unfolding post_all
  post_all_keeps [] s w t h q = let same : s.node ≡ w = ground (arith, h) in rw (← same) q
  post_all_keeps (e ∷ es) s w t h q =
      let (w', p, r) = bind-done (post_p2p P S (envelope_item e) s.node) (post_all P S es) h in
      post_all_keeps es (record s { node = w' }) w t r (c.posting (envelope_item e) s w' t p q)

  handle_messages-Leaves :
      (around : Outside) (b : Option (ℕ × List (ℕ × Envelope P))) (s : Session P S)
      → Q s
      → Leaves P S Q (handle_messages P S around b s)
  unfolding handle_messages send_confirmation
  handle_messages-Leaves around none s q = q
  handle_messages-Leaves around (some (batch, es)) s q =
      Leaves-bind P S Q (receive_loop P S around.describe es (start P S s)) _ (λ b h.
        let k = c.receiving around.describe es s b h q in
        let k' = Q-if b.node.disable_confirmations _ _ k (c.talking _ s.calls _ k) in
        Leaves-if P S Q b.trouble _ _ (λ _. k') (λ _. k'))

  handle_message_response-Leaves :
      (b : Option (ℕ × MessagesResponse)) (s : Session P S)
      → Q s
      → Leaves P S Q (handle_message_response P S b s)
  unfolding handle_message_response
  handle_message_response-Leaves none s q = q
  handle_message_response-Leaves (some (version, r)) s q =
      Leaves-if P S Q (version == 1) _ _ (λ _. c.with_event _ s q) (λ _. q)

  handle_batch_acknowledged-Leaves :
      (b : Option ℕ) (s : Session P S) → Q s → Leaves P S Q (handle_batch_acknowledged P S b s)
  unfolding handle_batch_acknowledged
  handle_batch_acknowledged-Leaves none s q = q
  handle_batch_acknowledged-Leaves (some b) s q = c.with_event _ s q

  handle_pow_requirement-Leaves :
      (b : Option ℕ) (s : Session P S) → Q s → Leaves P S Q (handle_pow_requirement P S b s)
  unfolding handle_pow_requirement
  handle_pow_requirement-Leaves none s q = q
  handle_pow_requirement-Leaves (some i) s q =
      let f = P.float_from_bits i in
      Leaves-if P S Q (P.is_inf f || P.is_nan f || P.lt f P.zero_pow) _ _ (λ _. q)
        (λ _. c.requiring f s q)

  handle_bloom_filter_ex-Leaves :
      (b : Option (List ℕ)) (s : Session P S) → Q s → Leaves P S Q (handle_bloom_filter_ex P S b s)
  unfolding handle_bloom_filter_ex
  handle_bloom_filter_ex-Leaves none s q = q
  handle_bloom_filter_ex-Leaves (some b) s q =
      Leaves-if P S Q (not (length b == bloom_filter_size)) _ _ (λ _. q)
        (λ n. c.filtering b s (ground arith) q)

  handle_p2p_message-Leaves :
      (b : Option (Direct P)) (s : Session P S) → Q s → Leaves P S Q (handle_p2p_message P S b s)
  unfolding handle_p2p_message
  handle_p2p_message-Leaves none s q = Leaves-if P S Q (not s.peer.trusted) _ _ (λ _. q) (λ _. q)
  handle_p2p_message-Leaves (some neither) s q =
      Leaves-if P S Q (not s.peer.trusted) _ _ (λ _. q) (λ _. q)
  handle_p2p_message-Leaves (some (several es)) s q =
      Leaves-if P S Q (not s.peer.trusted) _ _ (λ _. q)
        (λ n.
          Leaves-bind P S Q (post_all P S es s.node) _
            (λ w h. post_all_keeps es s w (ground arith) h q))
  handle_p2p_message-Leaves (some (single e)) s q =
      Leaves-if P S Q (not s.peer.trusted) _ _ (λ _. q)
        (λ n.
          Leaves-bind P S Q (post_p2p P S (envelope_item e) s.node) _
            (λ w h. c.posting (envelope_item e) s w (ground arith) h q))

  sync_mail-Leaves :
      (around : Outside) (r : SyncMailRequest) (s : Session P S)
      → Q s
      → Leaves P S Q (handle_sync_request P S around (some r) s)
  unfolding handle_sync_request
  sync_mail-Leaves around r s q =
      Leaves-if P S Q (not s.node.mail_server) _ _ (λ _. q)
        (λ n. elim (Option-cases (validate_sync_mail_request r)) [
          | inr (e, v) ↦ rw v q
          | inl v ↦ elim (Option-cases (around.sync_error r)) [
            | inl x ↦ rw (v, x) (c.talking s.outgoing _ s q)
            | inr (text, x) ↦ rw (v, x) (c.talking _ _ s q)
          ]
        ])

  handle_sync_request-Leaves :
      (around : Outside) (b : Option SyncMailRequest) (s : Session P S)
      → Q s
      → Leaves P S Q (handle_sync_request P S around b s)
  unfolding handle_sync_request
  handle_sync_request-Leaves around none s q =
      Leaves-if P S Q (not s.node.mail_server) _ _ (λ _. q) (λ _. q)
  handle_sync_request-Leaves around (some r) s q = sync_mail-Leaves around r s q

  handle_sync_response-Leaves :
      (b : Option (SyncResponse P)) (s : Session P S)
      → Q s
      → Leaves P S Q (handle_sync_response P S b s)
  unfolding handle_sync_response
  handle_sync_response-Leaves none s q =
      Leaves-if P S Q (not (s.peer.trusted && s.node.mail_server)) _ _ (λ _. q) (λ _. q)
  handle_sync_response-Leaves (some r) s q =
      Leaves-if P S Q (not (s.peer.trusted && s.node.mail_server)) _ _ (λ _. q)
        (λ n.
          let k = c.archiving (s.node.archived ++ r.envelopes) s (ground arith) q in
          Leaves-if P S Q (not (length r.error == 0) || r.final) _ _ (λ _. c.with_event _ _ k)
            (λ _. k))

  handle_p2p_request-Leaves :
      (b : Option (MailRequest P)) (s : Session P S)
      → Q s
      → Leaves P S Q (handle_p2p_request P S b s)
  unfolding handle_p2p_request
  handle_p2p_request-Leaves none s q =
      Leaves-if P S Q (not s.node.mail_server) _ _ (λ _. q) (λ _. q)
  handle_p2p_request-Leaves (some invalid) s q =
      Leaves-if P S Q (not s.node.mail_server) _ _ (λ _. q) (λ _. q)
  handle_p2p_request-Leaves (some (deprecated e)) s q =
      Leaves-if P S Q (not s.node.mail_server) _ _ (λ _. q) (λ _. c.talking s.outgoing _ s q)
  handle_p2p_request-Leaves (some (request r)) s q =
      Leaves-if P S Q (not s.node.mail_server) _ _ (λ _. q) (λ _. c.talking s.outgoing _ s q)

  answered-Leaves :
      (x : Parsed) (s : Session P S) → s.peer.trusted ≡ true → Q s → Leaves P S Q (answered P S x s)
  unfolding answered
  answered-Leaves crash s t q = tt
  answered-Leaves (bad_size n) s t q = q
  answered-Leaves no_event s t q = q
  answered-Leaves (event e) s t q =
      Leaves-bind P S Q (post_p2p P S (event_item (answer_event P e)) s.node) _
        (λ w h. c.posting (event_item (answer_event P e)) s w t h q)

  handle_request_complete-Leaves :
      (b : Option (List ℕ)) (s : Session P S) → Q s → Leaves P S Q (handle_request_complete P S b s)
  unfolding handle_request_complete
  handle_request_complete-Leaves none s q =
      Leaves-if P S Q (not s.peer.trusted) _ _ (λ _. q) (λ _. q)
  handle_request_complete-Leaves (some payload) s q =
      Leaves-if P S Q (not s.peer.trusted) _ _ (λ _. q)
        (λ n. answered-Leaves (create_mail_server_event s.peer.id payload) s (ground arith) q)

  handle_body-Leaves :
      (around : Outside) (b : Body P) (s : Session P S)
      → Q s
      → Leaves P S Q (handle_body P S around b s)
  unfolding handle_body
  handle_body-Leaves around status_body s q = q
  handle_body-Leaves around unknown_body s q = q
  handle_body-Leaves around (messages_body b) s q = handle_messages-Leaves around b s q
  handle_body-Leaves around (message_response_body b) s q = handle_message_response-Leaves b s q
  handle_body-Leaves around (batch_acknowledged_body b) s q = handle_batch_acknowledged-Leaves b s q
  handle_body-Leaves around (pow_requirement_body b) s q = handle_pow_requirement-Leaves b s q
  handle_body-Leaves around (bloom_filter_ex_body b) s q = handle_bloom_filter_ex-Leaves b s q
  handle_body-Leaves around (p2p_message_body b) s q = handle_p2p_message-Leaves b s q
  handle_body-Leaves around (p2p_sync_request_body b) s q = handle_sync_request-Leaves around b s q
  handle_body-Leaves around (p2p_sync_response_body b) s q = handle_sync_response-Leaves b s q
  handle_body-Leaves around (p2p_request_body b) s q = handle_p2p_request-Leaves b s q
  handle_body-Leaves around (p2p_request_complete_body b) s q = handle_request_complete-Leaves b s q

  handle_packet-Leaves :
      (around : Outside) (p : Packet P) (s : Session P S)
      → Q s
      → Leaves P S Q (handle_packet P S around p s)
  unfolding handle_packet
  handle_packet-Leaves around p s q =
      Leaves-if P S Q (ltb s.node.settings.max_size p.size) _ _ (λ _. q)
        (λ _. handle_body-Leaves around p.body s q)

  pub packet_keeps :
      (around : Outside) (p : Packet P) (s : Session P S) {r : Session P S × Option LoopError}
      → handle_packet P S around p s ≡ done r
      → Q s
      → Q r.0
  packet_keeps around p s h q = subst (Leaves P S Q) h (handle_packet-Leaves around p s q)

  pub run_message_loop-Leaves :
      (around : Outside) (ps : List (Packet P)) (s : Session P S)
      → Q s
      → Leaves P S Q (run_message_loop P S around ps s)
  unfolding run_message_loop
  run_message_loop-Leaves around [] s q = q
  run_message_loop-Leaves around (p ∷ ps) s q =
      Leaves-bind P S Q (handle_packet P S around p s) _ (λ r h. elim (Option-cases r.1) [
        | inl n ↦ rw n (run_message_loop-Leaves around ps r.0 (packet_keeps around p s h q))
        | inr (e, n) ↦ rw n (packet_keeps around p s h q)
      ])
