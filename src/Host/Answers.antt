-- ===== src/Host/Answers.antt =====
-- What a mail server sends, and the small calls on a node (whisperv6/whisper.go). A send succeeds or
-- fails as the given Boolean says.
use whisper.Base.{ℕ, List, [], ◌∷◌, Bool, true, Option, none, some, if◌then◌else◌}
use whisper.Base.Assoc.{lookup}
use whisper.Base.Dict.{Text}
use whisper.Envelope.{Envelope}
use whisper.Filters.{Filters}
use whisper.Host.{
  Host, HostError, not_sent, Sent, RawSyncResponse, request_complete, sync_response_to,
  raw_sync_response, raw_one, raw_many, sending, request_historic_messages,
}
use whisper.Keys.{KeyStore}
use whisper.Packets.{SyncResponse}
use whisper.Platform.{Platform}
use whisper.Pool.{Statistics}
use whisper.Sets.{Sets}

module _ (P : Platform) (S : Sets) where
  -- A packet to a peer, and whether that failed.
  abbrev pub reply : ℕ → Sent P → Bool → Host P S → Host P S × Option HostError
  reply i m sent_ok w = (sending P S i m sent_ok w, if sent_ok then none else some not_sent)

  -- `SendHistoricMessageResponse`
  unfoldable pub send_historic_message_response :
      ℕ → List ℕ → Bool → Host P S → Host P S × Option HostError
  send_historic_message_response i payload sent_ok w = reply i (request_complete payload) sent_ok w

  -- `SendSyncResponse`
  unfoldable pub send_sync_response :
      ℕ → SyncResponse P → Bool → Host P S → Host P S × Option HostError
  send_sync_response i data_ sent_ok w = reply i (sync_response_to data_) sent_ok w

  -- `SendRawSyncResponse`
  unfoldable pub send_raw_sync_response :
      ℕ → RawSyncResponse → Bool → Host P S → Host P S × Option HostError
  send_raw_sync_response i data_ sent_ok w = reply i (raw_sync_response data_) sent_ok w

  -- `SendRawP2PDirect`: a single envelope goes out as itself, not as a list.
  unfoldable pub send_raw_p2p_direct :
      ℕ → List (List ℕ) → Bool → Host P S → Host P S × Option HostError
  send_raw_p2p_direct i [] sent_ok w = reply i (raw_many []) sent_ok w
  send_raw_p2p_direct i (e ∷ []) sent_ok w = reply i (raw_one e) sent_ok w
  send_raw_p2p_direct i (e ∷ f ∷ es) sent_ok w = reply i (raw_many (e ∷ f ∷ es)) sent_ok w

  -- `RequestHistoricMessages`: with no timeout, no timer is set.
  unfoldable pub request_without_timeout :
      ℕ → Envelope P → Bool → Host P S → Host P S × Option HostError
  unfolding request_historic_messages
  request_without_timeout i e sent_ok w = request_historic_messages P S i e sent_ok w

  -- `RegisterServer`
  unfoldable pub register_server : Host P S → Host P S
  register_server w = record w { node = record w.node { mail_server = true } }

  -- `GetEnvelope`
  unfoldable pub get_envelope : ℕ → Host P S → Option (Envelope P)
  get_envelope h w = lookup h w.node.pool.envelopes

  -- `Stats`
  unfoldable pub stats : Host P S → Statistics
  stats w = w.node.pool.stats

module _ (P : Platform) where
  -- `NewFilters`
  unfoldable pub new_filters : Filters P
  new_filters = record {
    watchers = [];
    topic_matcher = λ t. [];
    all_topics_matcher = [];
    heap = [];
  }

  -- `SelectedKeyPairID`: some identifier of the store, or the empty text.
  unfoldable pub selected_key_pair_id : KeyStore P → Text
  selected_key_pair_id ks = elim ks.private_keys [ [] ↦ [] | (id, key) ∷ rest ↦ id ]
