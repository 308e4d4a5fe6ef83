-- ===== src/Packets/Cases.antt =====
-- The cases of `runMessageLoop` (whisperv6/whisper.go) by the packet's code, and the loop.
use whisper.Base.{
  ℕ, List, [], ◌∷◌, ◌++◌, false, not, ◌&&◌, ◌||◌, Option, none, some, ltb, ◌==◌, if◌then◌else◌,
  length,
}
use whisper.Constants.{bloom_filter_size}
use whisper.Envelope.{Envelope}
use whisper.Events.{
  EnvelopeEvent, EnvelopeError, hash_event, batch_acknowledged, envelope_errors,
  mail_server_response, sync_response, mail_server_request_completed, mail_server_sync_finished,
}
use whisper.MailServer.{
  Parsed, MailServerEvent, failed, completed, event, no_event, bad_size, crash,
  create_mail_server_event,
}
use whisper.Node.{Node, Effect, done, panics, ◌>>=◌, envelope_item, event_item, post_p2p}
use whisper.Peer.{set_bloom_filter}
use whisper.Platform.{Platform}
use whisper.Protocol.{receive_loop}
use whisper.Requests.{SyncMailRequest, validate_sync_mail_request}
use whisper.Sets.{Sets}
use whisper.Packets.{
  SyncResponse, MessagesResponse, new_messages_response, Direct, several, single, neither,
  MailRequest, deprecated, request, invalid, Body, status_body, unknown_body, messages_body,
  message_response_body, batch_acknowledged_body, pow_requirement_body, bloom_filter_ex_body,
  p2p_message_body, p2p_sync_request_body, p2p_sync_response_body, p2p_request_body,
  p2p_request_complete_body, Packet, LoopError, no_packet, oversized, invalid_envelopes,
  invalid_envelope, invalid_response, invalid_confirmation, invalid_pow_requirement,
  invalid_bloom_filter, invalid_direct_messages, undecodable_request, undecodable_response,
  invalid_p2p_request, invalid_request, sync_failed, invalid_response_size, message_response_out,
  batch_acknowledged_out, sync_response_out, deliver_mail, deliver, sync_mail, Session, Outside,
}

module _ (P : Platform) where
  -- `EnvelopeEvent` of a mail server's answer.
  unfoldable pub answer_event : MailServerEvent → EnvelopeEvent
  answer_event e =
      let about = record (hash_event mail_server_request_completed (P.bytes_to_hash e.request_id)) {
        peer = e.peer;
      } in
      elim e.answer [
        | failed text ↦ record about {
          content =
              mail_server_response
                (record { last_envelope_hash = 0; cursor = none; error = some text });
        }
        | completed last cursor ↦ record about {
          content =
              mail_server_response (record {
                last_envelope_hash = P.bytes_to_hash last;
                cursor = cursor;
                error = none;
              });
        }
      ]

module _ (P : Platform) (S : Sets) where
  -- The end of a case: the session, with an error if the loop ends.
  abbrev pub Handled : Type 0
  Handled = Effect (Session P S × Option LoopError)

  abbrev pub goes_on : Session P S → Handled
  goes_on s = done (s, none)

  abbrev pub ends : LoopError → Session P S → Handled
  ends e s = done (s, some e)

  abbrev pub with_event : EnvelopeEvent → Session P S → Session P S
  with_event e s = record s {
    node = record s.node { pool = record s.node.pool { feed = s.node.pool.feed ++ e ∷ [] } };
  }

  -- `sendConfirmation`: the second packet is sent whether or not the first one was.
  unfoldable pub send_confirmation : ℕ → List EnvelopeError → Session P S → Session P S
  send_confirmation batch errors s = record s {
    outgoing =
        s.outgoing
        ++ message_response_out (new_messages_response batch errors)
          ∷ batch_acknowledged_out batch
          ∷ [];
  }

  -- `messagesCode`
  unfoldable pub handle_messages :
      Outside → Option (ℕ × List (ℕ × Envelope P)) → Session P S → Handled
  unfolding send_confirmation
  handle_messages around none s = ends invalid_envelopes s
  handle_messages around (some (batch, envelopes)) s = do
    b ←
        receive_loop P S around.describe envelopes
          (record { node = s.node; peer = s.peer; errors = []; trouble = false })
    let s' = record s { node = b.node; peer = b.peer }
    let s'' = if b.node.disable_confirmations then s' else send_confirmation batch b.errors s'
    if b.trouble then ends invalid_envelope s'' else goes_on s''

  -- `messageResponseCode`
  unfoldable pub handle_message_response : Option (ℕ × MessagesResponse) → Session P S → Handled
  handle_message_response none s = ends invalid_response s
  handle_message_response (some (version, response)) s =
      if version == 1
      then goes_on (
          with_event
            (record (hash_event batch_acknowledged 0) {
              batch = response.hash;
              peer = s.peer.id;
              content = envelope_errors response.errors;
            })
            s)
      else goes_on s

  -- `batchAcknowledgedCode`
  unfoldable pub handle_batch_acknowledged : Option ℕ → Session P S → Handled
  handle_batch_acknowledged none s = ends invalid_confirmation s
  handle_batch_acknowledged (some batch) s =
      goes_on (
        with_event (record (hash_event batch_acknowledged 0) { batch = batch; peer = s.peer.id }) s)

  -- `powRequirementCode`
  unfoldable pub handle_pow_requirement : Option ℕ → Session P S → Handled
  handle_pow_requirement none s = ends invalid_pow_requirement s
  handle_pow_requirement (some i) s =
      let f = P.float_from_bits i in
      if P.is_inf f || P.is_nan f || P.lt f P.zero_pow
      then ends invalid_pow_requirement s
      else goes_on (record s { peer = record s.peer { pow_requirement = f } })

  -- `bloomFilterExCode`
  unfoldable pub handle_bloom_filter_ex : Option (List ℕ) → Session P S → Handled
  handle_bloom_filter_ex none s = ends invalid_bloom_filter s
  handle_bloom_filter_ex (some bloom) s =
      if not (length bloom == bloom_filter_size)
      then ends invalid_bloom_filter s
      else goes_on (record s { peer = set_bloom_filter P S (some bloom) s.peer })

  -- `postP2P` of each envelope in turn.
  unfoldable pub post_all : List (Envelope P) → Node P S → Effect (Node P S)
  post_all [] w = done w
  post_all (e ∷ es) w = do w' ← post_p2p P S (envelope_item e) w; post_all es w'

  -- `p2pMessageCode`
  unfoldable pub handle_p2p_message : Option (Direct P) → Session P S → Handled
  unfolding post_all
  handle_p2p_message body s = if not s.peer.trusted then goes_on s else elim body [
    | none ↦ ends invalid_direct_messages s
    | some neither ↦ ends invalid_direct_messages s
    | some (several envelopes) ↦ do w ← post_all envelopes s.node; goes_on (record s { node = w })
    | some (single envelope) ↦ do
      w ← post_p2p P S (envelope_item envelope) s.node
      goes_on (record s { node = w })
  ]

  -- `p2pSyncRequestCode`
  unfoldable pub handle_sync_request : Outside → Option SyncMailRequest → Session P S → Handled
  handle_sync_request around body s = if not s.node.mail_server then goes_on s else elim body [
    | none ↦ ends undecodable_request s
    | some r ↦ elim (validate_sync_mail_request r) [
      | some e ↦ ends (invalid_request e) s
      | none ↦
          let s' = record s { calls = s.calls ++ sync_mail r ∷ [] } in
          elim (around.sync_error r) [
            | none ↦ goes_on s'
            | some text ↦ ends (sync_failed text) (record s' {
              outgoing =
                  s.outgoing
                  ++ sync_response_out
                      (record { envelopes = []; cursor = []; final = false; error = text })
                    ∷ [];
            })
          ]
    ]
  ]

  -- `p2pSyncResponseCode`
  unfoldable pub handle_sync_response : Option (SyncResponse P) → Session P S → Handled
  handle_sync_response body s =
      if not (s.peer.trusted && s.node.mail_server) then goes_on s else elim body [
        | none ↦ ends undecodable_response s
        | some r ↦
            let s' = record s {
              node = record s.node { archived = s.node.archived ++ r.envelopes };
            } in
            if not (length r.error == 0) || r.final
            then goes_on (
                with_event
                  (record (hash_event mail_server_sync_finished 0) {
                    peer = s.peer.id;
                    content = sync_response r.cursor r.error;
                  })
                  s')
            else goes_on s'
      ]

  -- `p2pRequestCode`
  unfoldable pub handle_p2p_request : Option (MailRequest P) → Session P S → Handled
  handle_p2p_request body s = if not s.node.mail_server then goes_on s else elim body [
    | none ↦ ends invalid_direct_messages s
    | some (deprecated e) ↦ goes_on (record s { calls = s.calls ++ deliver_mail e ∷ [] })
    | some (request r) ↦ goes_on (record s { calls = s.calls ++ deliver r ∷ [] })
    | some invalid ↦ ends invalid_p2p_request s
  ]

  -- What is done with what `CreateMailServerEvent` returns.
  unfoldable pub answered : Parsed → Session P S → Handled
  unfolding answer_event
  answered crash s = panics
  answered (bad_size n) s = ends (invalid_response_size n) s
  answered no_event s = goes_on s
  answered (event e) s = do
    w ← post_p2p P S (event_item (answer_event P e)) s.node
    goes_on (record s { node = w })

  -- `p2pRequestCompleteCode`
  unfoldable pub handle_request_complete : Option (List ℕ) → Session P S → Handled
  unfolding answered
  handle_request_complete body s = if not s.peer.trusted then goes_on s else elim body [
    | none ↦ ends undecodable_response s
    | some payload ↦ answered (create_mail_server_event s.peer.id payload) s
  ]

  -- The `switch` over the packet's code.
  unfoldable pub handle_body : Outside → Body P → Session P S → Handled
  unfolding handle_messages handle_message_response handle_batch_acknowledged handle_pow_requirement
      handle_bloom_filter_ex handle_p2p_message handle_sync_request handle_sync_response
      handle_p2p_request handle_request_complete
  handle_body around status_body s = goes_on s
  handle_body around unknown_body s = goes_on s
  handle_body around (messages_body b) s = handle_messages around b s
  handle_body around (message_response_body b) s = handle_message_response b s
  handle_body around (batch_acknowledged_body b) s = handle_batch_acknowledged b s
  handle_body around (pow_requirement_body b) s = handle_pow_requirement b s
  handle_body around (bloom_filter_ex_body b) s = handle_bloom_filter_ex b s
  handle_body around (p2p_message_body b) s = handle_p2p_message b s
  handle_body around (p2p_sync_request_body b) s = handle_sync_request around b s
  handle_body around (p2p_sync_response_body b) s = handle_sync_response b s
  handle_body around (p2p_request_body b) s = handle_p2p_request b s
  handle_body around (p2p_request_complete_body b) s = handle_request_complete b s

  -- One packet.
  unfoldable pub handle_packet : Outside → Packet P → Session P S → Handled
  unfolding handle_body
  handle_packet around p s =
      if ltb s.node.settings.max_size p.size then ends oversized s else handle_body around p.body s

  -- `runMessageLoop` over the packets that arrive until a read fails.
  unfoldable pub run_message_loop :
      Outside → List (Packet P) → Session P S → Effect (Session P S × LoopError)
  unfolding handle_packet
  run_message_loop around [] s = done (s, no_packet)
  run_message_loop around (p ∷ ps) s = do
    r ← handle_packet around p s
    elim r.1 [ none ↦ run_message_loop around ps r.0 | some e ↦ done (r.0, e) ]
