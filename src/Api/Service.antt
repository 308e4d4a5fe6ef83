-- ===== src/Api/Service.antt =====
-- `PublicWhisperAPI` of whisperv6/api.go: the filters that clients poll and subscribe to, and the
-- calls that read and change the node.
pub mod Polled
pub mod Delivered
pub mod Local
use whisper.Base.{ℕ, List, [], ◌∷◌, ◌++◌, ◌+◌, Bool, true, false, not, Option, none, some, length}
use whisper.Base.Assoc.{Assoc, lookup, insert, remove}
use whisper.Base.Dict.{Text}
use whisper.Base.Outcome.{Outcome, ok, err, panic, ◌>>=◌}
use whisper.Api.{
  ApiError, unknown_target_peer, filter_not_found, filter_error, setting_error, peer_error, relabel,
}
use whisper.Api.Criteria.{
  Criteria, Message, polled_filter, subscribed_filter, to_whisper_message, subscribe, unsubscribe,
}
use whisper.Filters.{Filter}
use whisper.Filters.Store.{retrieve, new_memory_message_store, put_store}
use whisper.Host.{Host, allow_p2p}
use whisper.Host.Notices.{announce_minimum_pow, announce_bloom_filter, with_settings}
use whisper.Keys.{KeyStore}
use whisper.Message.{ReceivedMessage}
use whisper.Platform.{Platform}
use whisper.Pool.{Pool}
use whisper.Sets.{Sets}
use whisper.Settings.{min_pow, set_max_message_size, set_light_client_mode, light_client_mode}

-- `PublicWhisperAPI` with its node; `last_used` is the time of a filter's last poll.
pub record Service (P : Platform) (S : Sets) : Type 0 where
  pub host : Host P S
  pub keys : KeyStore P
  pub last_used : Assoc ℕ

-- `Info`
pub record Info (P : Platform) : Type 0 where
  pub memory : ℕ
  pub messages : ℕ
  pub min_pow_of : P.Float
  pub max_size : ℕ

-- What the filter calls take from outside: crypto.UnmarshalPubkey, the address of a new filter, the
-- random identifier, the time, and how the peers can be told of a new bloom filter.
pub record Client (P : Platform) : Type 0 where
  pub unmarshal : List ℕ → Option P.PublicKey
  pub at : ℕ
  pub random : Option ℕ
  pub now : ℕ
  pub tries : ℕ → Bool × Bool

module _ (P : Platform) (S : Sets) where
  -- `NewPublicWhisperAPI`
  unfoldable pub new_public_whisper_api : Host P S → KeyStore P → Service P S
  new_public_whisper_api w ks = record { host = w; keys = ks; last_used = [] }

  -- `GetFilter`
  unfoldable pub get_filter : ℕ → Host P S → Option (Filter P)
  get_filter id w = lookup id w.filters.watchers

  -- A new filter with its new store, subscribed.
  unfoldable pub install_filter : Client P → Filter P → Host P S → Outcome ApiError (Host P S × ℕ)
  unfolding subscribe
  install_filter c f w = relabel filter_error (
      subscribe P S c.tries c.random f
        (record w { stores = put_store P f.at (new_memory_message_store P) w.stores }))

  -- `NewMessageFilter`
  unfoldable pub new_message_filter :
      Client P → Criteria P → Service P S → Outcome ApiError (Service P S × ℕ)
  unfolding install_filter
  new_message_filter c req sv = do
    f ← polled_filter P c.unmarshal c.at req sv.keys
    r ← install_filter c f sv.host
    ok (record sv { host = r.0; last_used = insert r.1 c.now sv.last_used }, r.1)

  -- `Messages`, on a connection that supports subscriptions, up to its goroutine.
  unfoldable pub messages : Client P → Criteria P → Service P S → Outcome ApiError (Service P S × ℕ)
  unfolding install_filter
  messages c crit sv = do
    f ← subscribed_filter P c.unmarshal c.at crit sv.keys
    r ← install_filter c f sv.host
    ok (record sv { host = r.0 }, r.1)

  -- `toMessage`; `none` is the panic of one message.
  unfoldable pub to_message : List (ReceivedMessage P) → Option (List (Message P))
  to_message [] = some []
  to_message (m ∷ ms) = elim (to_whisper_message P m) [
    | none ↦ none
    | some r ↦ elim (to_message ms) [ none ↦ none | some rs ↦ some (r ∷ rs) ]
  ]

  -- A filter's messages, taken from its store; `none` is a panic.
  unfoldable pub take_messages : Filter P → Host P S → Option (Host P S × List (Message P))
  unfolding to_message
  take_messages f w =
      let (all, stores) = retrieve P f w.stores in
      elim (to_message all) [ none ↦ none | some ms ↦ some (record w { stores = stores }, ms) ]

  -- One tick of the goroutine of `Messages`: what it notifies its client of.
  unfoldable pub notify_subscriber : ℕ → Host P S → Option (Host P S × List (Message P))
  unfolding get_filter take_messages
  notify_subscriber id w = elim (get_filter id w) [
    | none ↦ some (w, [])
    | some f ↦ take_messages f w
  ]

  -- `GetFilterMessages`
  unfoldable pub get_filter_messages :
      ℕ → ℕ → Service P S → Outcome ApiError (Service P S × List (Message P))
  unfolding get_filter take_messages
  get_filter_messages now id sv = elim (get_filter id sv.host) [
    | none ↦ err filter_not_found
    | some f ↦ elim (take_messages f sv.host) [
      | none ↦ panic
      | some (w, ms) ↦ ok (record sv { host = w; last_used = insert id now sv.last_used }, ms)
    ]
  ]

  -- `DeleteMessageFilter`: it always says true, beside the error that there was no such filter.
  unfoldable pub delete_message_filter : ℕ → Service P S → Service P S × Bool × Option ApiError
  delete_message_filter id sv =
      let (w, was) = unsubscribe P S id sv.host in
      (
        record sv { host = w; last_used = remove id sv.last_used },
        true,
        elim was [ true ↦ none | false ↦ some filter_not_found ],
      )

  -- `UninstallFilter` and `Unsubscribe` of the API, which drop that error.
  unfoldable pub uninstall_filter : ℕ → Service P S → Service P S
  uninstall_filter id sv = record sv { host = (unsubscribe P S id sv.host).0 }

  -- `Info`
  unfoldable pub info : Service P S → Info P
  info sv =
      let n = sv.host.node in
      record {
        memory = n.pool.stats.memory_used;
        messages = length n.message_queue + length n.p2p_msg_queue;
        min_pow_of = min_pow P n.settings;
        max_size = n.settings.max_size;
      }

  -- `SetMaxMessageSize` of the API; its Boolean is always true.
  unfoldable pub api_set_max_message_size : ℕ → Service P S → Outcome ApiError (Service P S)
  unfolding set_max_message_size
  api_set_max_message_size size sv = do
    s ← relabel setting_error (set_max_message_size P size sv.host.node.settings)
    ok (record sv { host = with_settings P S s sv.host })

  -- `SetMinPoW` of the API
  unfoldable pub api_set_min_pow :
      (ℕ → Bool × Bool) → P.Float → Service P S → Outcome ApiError (Service P S)
  unfolding announce_minimum_pow
  api_set_min_pow tries pow sv = do
    w ← relabel setting_error (announce_minimum_pow P S tries pow sv.host)
    ok (record sv { host = w })

  -- `SetBloomFilter` of the API
  unfoldable pub api_set_bloom_filter :
      (ℕ → Bool × Bool) → List ℕ → Service P S → Outcome ApiError (Service P S)
  unfolding announce_bloom_filter
  api_set_bloom_filter tries bloom sv = do
    w ← relabel setting_error (announce_bloom_filter P S tries bloom sv.host)
    ok (record sv { host = w })

  -- `MarkTrustedPeer`, of what enode.Parse finds in the text.
  unfoldable pub mark_trusted_peer : Option ℕ → Service P S → Outcome ApiError (Service P S)
  unfolding allow_p2p
  mark_trusted_peer none sv = err unknown_target_peer
  mark_trusted_peer (some i) sv = do
    w ← relabel peer_error (allow_p2p P S i sv.host)
    ok (record sv { host = w })

  -- `MakeLightClient`
  unfoldable pub make_light_client : Service P S → Service P S × Bool
  unfolding set_light_client_mode light_client_mode
  make_light_client sv =
      let s = set_light_client_mode P true sv.host.node.settings in
      (record sv { host = with_settings P S s sv.host }, light_client_mode P s)

  -- `CancelLightClient`
  unfoldable pub cancel_light_client : Service P S → Service P S × Bool
  unfolding set_light_client_mode light_client_mode
  cancel_light_client sv =
      let s = set_light_client_mode P false sv.host.node.settings in
      (record sv { host = with_settings P S s sv.host }, not (light_client_mode P s))
