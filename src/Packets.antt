-- ===== src/Packets.antt =====
-- The message loop of a session with a peer, `runMessageLoop` of whisperv6/whisper.go, and
-- the responses of whisperv6/doc.go. Decoding is RLP's: a packet
-- is what its decoder gave, or none where it gave an error.
pub mod Cases
pub mod Closed
pub mod Sound
pub mod Untrusted
pub mod Bounded
pub mod Confirmed
pub mod Refusals
use whisper.Base.{
  ℕ, List, [], ◌∷◌, ◌++◌, Bool, true, false, not, ◌&&◌, ◌||◌, Option, none, some, ltb, ◌==◌,
  if◌then◌else◌, length,
}
use whisper.Admission.{AddError}
use whisper.Constants.{bloom_filter_size}
use whisper.Envelope.{Envelope}
use whisper.Events.{
  EnvelopeEvent, EnvelopeError, MailServerResponse, hash_event, batch_acknowledged, no_data,
  envelope_errors, mail_server_response, sync_response, mail_server_request_completed,
  mail_server_sync_finished,
}
use whisper.MailServer.{
  MailServerEvent, Answer, failed, completed, Parsed, event, no_event, bad_size, crash,
  create_mail_server_event,
}
use whisper.Node.{Node, Effect, done, waits, panics, ◌>>=◌, envelope_item, event_item, post_p2p}
use whisper.Peer.{Peer, set_bloom_filter}
use whisper.Platform.{Platform}
use whisper.Protocol.{Batch, receive_loop}
use whisper.Requests.{MessagesRequest, SyncMailRequest, RequestError, validate_sync_mail_request}
use whisper.Sets.{Sets}

-- `SyncResponse`
pub record SyncResponse (P : Platform) : Type 0 where
  pub envelopes : List (Envelope P)
  pub cursor : List ℕ
  pub final : Bool
  pub error : List ℕ

-- `MessagesResponse`
pub record MessagesResponse : Type 0 where
  pub hash : ℕ
  pub errors : List EnvelopeError

-- `Version1MessageResponse`
pub record Version1MessageResponse : Type 0 where
  pub version : ℕ
  pub response : MessagesResponse

-- `NewMessagesResponse`
unfoldable pub new_messages_response : ℕ → List EnvelopeError → Version1MessageResponse
new_messages_response batch errors = record {
  version = 1;
  response = record { hash = batch; errors = errors };
}

-- The two attempts of the case `p2pMessageCode`: a list of envelopes, else a single one.
pub data Direct (P : Platform) : Type 0 where
  several : List (Envelope P) → Direct P
  single : Envelope P → Direct P
  neither : Direct P

-- Those of the case `p2pRequestCode`.
pub data MailRequest (P : Platform) : Type 0 where
  deprecated : Envelope P → MailRequest P
  request : MessagesRequest → MailRequest P
  invalid : MailRequest P

-- The payload of a packet by its code. Of a batch it is the hash of the data and the envelopes, each
-- with the time at which `add` gets to it; of a message response the version, and what
-- `DecodeResponse1` returns, whether with an error or not.
pub data Body (P : Platform) : Type 0 where
  status_body unknown_body : Body P
  messages_body : Option (ℕ × List (ℕ × Envelope P)) → Body P
  message_response_body : Option (ℕ × MessagesResponse) → Body P
  batch_acknowledged_body : Option ℕ → Body P
  pow_requirement_body : Option ℕ → Body P
  bloom_filter_ex_body : Option (List ℕ) → Body P
  p2p_message_body : Option (Direct P) → Body P
  p2p_sync_request_body : Option SyncMailRequest → Body P
  p2p_sync_response_body : Option (SyncResponse P) → Body P
  p2p_request_body : Option (MailRequest P) → Body P
  p2p_request_complete_body : Option (List ℕ) → Body P

pub record Packet (P : Platform) : Type 0 where
  pub size : ℕ
  pub body : Body P

-- Why the loop ends.
pub data LoopError : Type 0 where
  no_packet oversized invalid_envelopes invalid_envelope invalid_response : LoopError
  invalid_confirmation invalid_pow_requirement invalid_bloom_filter : LoopError
  invalid_direct_messages undecodable_request undecodable_response invalid_p2p_request : LoopError
  invalid_request : RequestError → LoopError
  sync_failed : List ℕ → LoopError
  invalid_response_size : ℕ → LoopError

-- What the node sends to the peer, and what it asks of its mail server.
pub data Outgoing (P : Platform) : Type 0 where
  message_response_out : Version1MessageResponse → Outgoing P
  batch_acknowledged_out : ℕ → Outgoing P
  sync_response_out : SyncResponse P → Outgoing P

pub data MailCall (P : Platform) : Type 0 where
  deliver_mail : Envelope P → MailCall P
  deliver : MessagesRequest → MailCall P
  sync_mail : SyncMailRequest → MailCall P

pub record Session (P : Platform) (S : Sets) : Type 0 where
  pub node : Node P S
  pub peer : Peer P S
  pub outgoing : List (Outgoing P)
  pub calls : List (MailCall P)

-- What a session takes from outside: the texts of errors, and the error of the mail server's
-- `SyncMail`, if there is one.
pub record Outside : Type 0 where
  pub describe : AddError → List ℕ
  pub sync_error : SyncMailRequest → Option (List ℕ)
