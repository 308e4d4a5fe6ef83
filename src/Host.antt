-- ===== src/Host.antt =====
-- The node with its peers and filters (`Whisper` of whisperv6/whisper.go): the queues that
-- `processQueue` and `processP2P` empty, the sessions of `HandlePeer`, and the calls that talk to one
-- peer. A peer is found by its number; a send succeeds or fails as the given Boolean says.
pub mod Steps
pub mod Peers
pub mod Notices
pub mod Callers
pub mod Drains
pub mod Arrived
pub mod Noticed
pub mod Answers
pub mod Orderly
pub mod Reach
use whisper.Base.{
  ℕ, List, [], ◌∷◌, ◌++◌, Bool, true, false, not, Option, none, some, ◌==◌, if◌then◌else◌, length,
}
use whisper.Base.Outcome.{Outcome, ok, err, panic, ◌>>=◌}
use whisper.Envelope.{Envelope, with_hash}
use whisper.Events.{
  EnvelopeEvent, hash_event, envelope_available, mail_server_request_sent,
  mail_server_request_expired,
}
use whisper.Filters.{Filter, Filters, notify_watchers}
use whisper.Filters.Store.{Stores, trigger_all}
use whisper.Message.{ReceivedMessage}
use whisper.Node.{Node, Effect, done, waits, panics, P2pItem, envelope_item, event_item}
use whisper.Packets.{SyncResponse}
use whisper.Peer.{
  Peer, StatusPacket, Handshake, HandshakeError, connected, failed, new_peer, handshake,
}
use whisper.Platform.{Platform}
use whisper.Requests.{
  MessagesRequest, SyncMailRequest, RequestError, validate_messages_request,
  validate_sync_mail_request,
}
use whisper.Sets.{Sets}

-- `RawSyncResponse`: envelopes as their encodings.
pub record RawSyncResponse : Type 0 where
  pub raw_envelopes : List (List ℕ)
  pub raw_cursor : List ℕ
  pub raw_final : Bool
  pub raw_error : List ℕ

-- What the calls send to a peer.
pub data Sent (P : Platform) : Type 0 where
  historic_request : Envelope P → Sent P
  messages_request : MessagesRequest → Sent P
  sync_request : SyncMailRequest → Sent P
  direct_one : Envelope P → Sent P
  direct_many : List (Envelope P) → Sent P
  pow_requirement : ℕ → Sent P
  request_complete : List ℕ → Sent P
  sync_response_to : SyncResponse P → Sent P
  raw_sync_response : RawSyncResponse → Sent P
  raw_one : List ℕ → Sent P
  raw_many : List (List ℕ) → Sent P
  bloom_filter_ex : List ℕ → Sent P

-- `inbox` are the messages that the filters were given, in order; `stores` those that each filter
-- still holds, by its address; `sent` what went out, by peer.
pub record Host (P : Platform) (S : Sets) : Type 0 where
  pub node : Node P S
  pub peers : List (Peer P S)
  pub filters : Filters P
  pub inbox : List (Filter P × ReceivedMessage P)
  pub stores : Stores P
  pub sent : List (ℕ × Sent P)

pub data HostError : Type 0 where
  no_such_peer not_sent no_mail_server : HostError
  bad_request : RequestError → HostError

module _ (P : Platform) (S : Sets) where
  -- `getPeer`
  unfoldable pub get_peer : ℕ → List (Peer P S) → Option (Peer P S)
  get_peer i [] = none
  get_peer i (p ∷ ps) = if p.id == i then some p else get_peer i ps

  -- A change of the peer that `getPeer` finds.
  unfoldable pub put_peer : Peer P S → List (Peer P S) → List (Peer P S)
  put_peer q [] = []
  put_peer q (p ∷ ps) = if p.id == q.id then q ∷ ps else p ∷ put_peer q ps

  abbrev pub with_host_event : EnvelopeEvent → Host P S → Host P S
  with_host_event e w = record w {
    node = record w.node { pool = record w.node.pool { feed = w.node.pool.feed ++ e ∷ [] } };
  }

  -- A peer as trusted, and what is sent to it.
  abbrev pub trusting : Peer P S → Host P S → Host P S
  trusting p w = record w { peers = put_peer (record p { trusted = true }) w.peers }

  abbrev pub sending : ℕ → Sent P → Bool → Host P S → Host P S
  sending i m sent_ok w = if sent_ok then record w { sent = w.sent ++ (i, m) ∷ [] } else w

  -- What `NotifyWatchers` and the event after it do.
  unfoldable pub serve : Bool → Envelope P → Host P S → Effect (Host P S)
  serve p2p e w = elim (notify_watchers P p2p e w.filters) [
    | none ↦ panics
    | some out ↦ done (
        with_host_event
          (record (hash_event envelope_available (with_hash P e).hash) { topic = e.topic })
          (record w { inbox = w.inbox ++ out; stores = trigger_all P out w.stores }))
  ]

  -- One round of `processQueue`, which waits at an empty queue.
  unfoldable pub process_queue : Host P S → Effect (Host P S)
  unfolding serve
  process_queue w = elim w.node.message_queue [
    | [] ↦ waits
    | e ∷ q ↦ serve false e (record w { node = record w.node { message_queue = q } })
  ]

  -- One round of `processP2P`.
  unfoldable pub process_p2p : Host P S → Effect (Host P S)
  unfolding serve
  process_p2p w = elim w.node.p2p_msg_queue [
    | [] ↦ waits
    | envelope_item e ∷ q ↦ serve true e (record w { node = record w.node { p2p_msg_queue = q } })
    | event_item e ∷ q ↦
        done (with_host_event e (record w { node = record w.node { p2p_msg_queue = q } }))
  ]

  -- `HandlePeer` up to the message loop: a peer whose handshake fails is deleted again.
  unfoldable pub open_session :
      ℕ → Option StatusPacket → Bool → Host P S → Host P S × Option HandshakeError
  open_session i packet own_sent w =
      elim (handshake P S w.node.settings packet own_sent (new_peer P S i)) [
        | connected p ↦ (record w { peers = p ∷ w.peers }, none)
        | failed e ↦ (w, some e)
      ]

  -- The end of `HandlePeer`.
  unfoldable pub drop_peer : ℕ → List (Peer P S) → List (Peer P S)
  drop_peer i [] = []
  drop_peer i (p ∷ ps) = if p.id == i then ps else p ∷ drop_peer i ps

  -- `AllowP2PMessagesFromPeer`
  unfoldable pub allow_p2p : ℕ → Host P S → Outcome HostError (Host P S)
  allow_p2p i w = elim (get_peer i w.peers) [ none ↦ err no_such_peer | some p ↦ ok (trusting p w) ]

  -- `RequestHistoricMessagesWithTimeout`, without the timer: the host then, and whether the send
  -- failed.
  unfoldable pub request_historic_messages :
      ℕ → Envelope P → Bool → Host P S → Host P S × Option HostError
  request_historic_messages i e sent_ok w = elim (get_peer i w.peers) [
    | none ↦ (w, some no_such_peer)
    | some p ↦ (
      sending i (historic_request e) sent_ok (
          trusting p (
            with_host_event
              (record (hash_event mail_server_request_sent (with_hash P e).hash) {
                peer = p.id;
                topic = e.topic;
              })
              w)),
      if sent_ok then none else some not_sent,
    )
  ]

  -- `expireRequestHistoricMessages` when the timer fires.
  unfoldable pub expire_request : ℕ → ℕ → Host P S → Host P S
  expire_request i h w =
      with_host_event (record (hash_event mail_server_request_expired h) { peer = i }) w

  -- `SendMessagesRequest`
  unfoldable pub send_messages_request :
      ℕ → MessagesRequest → Bool → Host P S → Host P S × Option HostError
  send_messages_request i r sent_ok w = elim (validate_messages_request r) [
    | some e ↦ (w, some (bad_request e))
    | none ↦ elim (get_peer i w.peers) [
      | none ↦ (w, some no_such_peer)
      | some p ↦
          let w' = sending i (messages_request r) sent_ok (trusting p w) in
          if sent_ok
          then (
            with_host_event
                (record (hash_event mail_server_request_sent (P.bytes_to_hash r.id)) {
                  peer = p.id;
                })
                w',
            none,
          )
          else (w', some not_sent)
    ]
  ]

  -- `SyncMessages`
  unfoldable pub sync_messages : ℕ → SyncMailRequest → Bool → Host P S → Host P S × Option HostError
  sync_messages i r sent_ok w =
      if not w.node.mail_server then (w, some no_mail_server) else elim (get_peer i w.peers) [
        | none ↦ (w, some no_such_peer)
        | some p ↦ elim (validate_sync_mail_request r) [
          | some e ↦ (w, some (bad_request e))
          | none ↦ (sending i (sync_request r) sent_ok w, if sent_ok then none else some not_sent)
        ]
      ]

  -- `SendP2PDirect`: a single envelope goes out as itself, not as a list.
  unfoldable pub send_p2p_direct :
      ℕ → List (Envelope P) → Bool → Host P S → Host P S × Option HostError
  send_p2p_direct i [] sent_ok w =
      (sending i (direct_many []) sent_ok w, if sent_ok then none else some not_sent)
  send_p2p_direct i (e ∷ []) sent_ok w =
      (sending i (direct_one e) sent_ok w, if sent_ok then none else some not_sent)
  send_p2p_direct i (e ∷ f ∷ es) sent_ok w =
      (sending i (direct_many (e ∷ f ∷ es)) sent_ok w, if sent_ok then none else some not_sent)

  -- `SendP2PMessage`
  unfoldable pub send_p2p_message :
      ℕ → List (Envelope P) → Bool → Host P S → Host P S × Option HostError
  unfolding send_p2p_direct
  send_p2p_message i es sent_ok w = elim (get_peer i w.peers) [
    | none ↦ (w, some no_such_peer)
    | some p ↦ send_p2p_direct i es sent_ok w
  ]
