-- ===== src/Events.antt =====
-- Envelope events (whisperv6/events.go). The envelope feed is a list that grows at its end.
use whisper.Base.{ℕ, List, Option}
use whisper.Topic.{Topic}

-- `EventType`
pub data EventType : Type 0 where
  envelope_sent envelope_expired envelope_received batch_acknowledged envelope_available : EventType
  mail_server_request_sent mail_server_request_completed mail_server_request_expired : EventType
  mail_server_envelope_archived mail_server_sync_finished : EventType

-- `EnvelopeError` of whisperv6/doc.go; the description is its text.
pub record EnvelopeError : Type 0 where
  pub hash : ℕ
  pub code : ℕ
  pub description : List ℕ

-- `MailServerResponse` of whisperv6/whisper.go; its error is the text of the error.
pub record MailServerResponse : Type 0 where
  pub last_envelope_hash : ℕ
  pub cursor : Option (List ℕ)
  pub error : Option (List ℕ)

-- What the field `Data` of an event holds.
pub data EventData : Type 0 where
  no_data : EventData
  envelope_errors : List EnvelopeError → EventData
  mail_server_response : MailServerResponse → EventData
  sync_response : List ℕ → List ℕ → EventData

-- `EnvelopeEvent`
pub record EnvelopeEvent : Type 0 where
  pub event : EventType
  pub topic : Topic
  pub hash : ℕ
  pub batch : ℕ
  pub peer : ℕ
  pub content : EventData

abbrev pub zero_topic : Topic
zero_topic = record { b0 = 0; b1 = 0; b2 = 0; b3 = 0 }

-- An event of which only the kind and the hash are given.
abbrev pub hash_event : EventType → ℕ → EnvelopeEvent
hash_event kind h = record {
  event = kind;
  topic = zero_topic;
  hash = h;
  batch = 0;
  peer = 0;
  content = no_data;
}
