-- ===== src/Api.antt =====
-- The public API (whisperv6/api.go): posting a message, and the filters of subscriptions and polls.
-- The key of a given length zero is one that was not given.
pub mod Criteria
pub mod Aliased
pub mod Slices
pub mod Posted
pub mod Service
pub mod KeyCalls
use whisper.Base.{
  ℕ, List, [], ◌∷◌, Bool, true, false, not, ◌&&◌, ◌||◌, Option, none, some, ◌==◌, if◌then◌else◌,
  length,
}
use whisper.Base.Dict.{Text}
use whisper.Base.Outcome.{Outcome, ok, err, panic, ◌>>=◌}
use whisper.Bytes.{validate_data_integrity}
use whisper.Constants.{aes_key_length}
use whisper.Envelope.{Envelope, with_hash}
use whisper.Events.{zero_topic}
use whisper.Filters.{FilterError}
use whisper.Host.{Host, HostError, send_p2p_message}
use whisper.Keys.{KeyError, KeyStore, get_private_key, get_sym_key}
use whisper.Message.{MessageParams, SendError, new_sent_message}
use whisper.Node.{Node, Effect, done, waits, panics, send}
use whisper.Platform.{Platform}
use whisper.Settings.{SettingError, min_pow}
use whisper.Sets.{Sets}
use whisper.Topic.{Topic, topic_eq}
use whisper.Wrap.{WrapError, Wrapped, wrapped, failed, crashed, still_sealing, Surroundings, wrap}

-- `NewMessage`
pub record NewMessage (P : Platform) : Type 0 where
  pub sym_key_id : Text
  pub public_key : List ℕ
  pub sig : Text
  pub ttl : ℕ
  pub topic : Topic
  pub payload : List ℕ
  pub padding : List ℕ
  pub pow_time : ℕ
  pub pow_target : P.Float
  pub target_peer : Text

-- The errors of the API, and those it passes on.
pub data ApiError : Type 0 where
  sym_asym invalid_symmetric_key invalid_public_key invalid_signing_pub_key too_low_pow : ApiError
  no_topics unknown_target_peer not_sent filter_not_found invalid_private_key no_key_pair : ApiError
  key_error : KeyError → ApiError
  message_error : SendError → ApiError
  wrap_error : WrapError → ApiError
  peer_error : HostError → ApiError
  filter_error : FilterError → ApiError
  setting_error : SettingError → ApiError

-- What a call takes from outside: crypto.UnmarshalPubkey, the node that enode.Parse finds in a text,
-- the random padding, what `Wrap` needs, the time, and whether a send to a peer succeeds.
pub record Elsewhere (P : Platform) : Type 0 where
  pub unmarshal_pubkey : List ℕ → Option P.PublicKey
  pub parse_node : Text → Option ℕ
  pub random : ℕ → Option (List ℕ)
  pub around : Surroundings
  pub now : ℕ
  pub sent_ok : Bool

-- How `Post` ends: with the hash, with an error, waiting, or with a panic.
pub data Posting (P : Platform) (S : Sets) : Type 0 where
  posted : Host P S → ℕ → Posting P S
  refused : Host P S → ApiError → Posting P S
  stuck : Posting P S
  panicked : Posting P S

abbrev pub given : {A : Type 0} → List A → Bool
given l = not (length l == 0)

-- The error of a call as one of the API.
abbrev pub relabel : {E F A : Type 0} → (E → F) → Outcome E A → Outcome F A
relabel f (ok a) = ok a
relabel f (err e) = err (f e)
relabel f panic = panic

module _ (P : Platform) where
  -- A symmetric key by its identifier, checked.
  unfoldable pub checked_sym_key : Text → KeyStore P → Outcome ApiError (List ℕ)
  checked_sym_key id ks = do
    key ← relabel key_error (get_sym_key P id ks)
    if not (validate_data_integrity key aes_key_length) then err invalid_symmetric_key else ok key

  -- The key to sign with.
  unfoldable pub signing_key : Text → KeyStore P → Outcome ApiError (Option P.PrivateKey)
  signing_key id ks =
      if not (given id)
      then ok none
      else do key ← relabel key_error (get_private_key P id ks); ok (some key)

  -- The symmetric key to encrypt with; topics are mandatory with it.
  unfoldable pub encryption_key : Topic → Text → KeyStore P → Outcome ApiError (Option (List ℕ))
  unfolding checked_sym_key
  encryption_key topic id ks =
      if not (given id)
      then ok none
      else if topic_eq topic zero_topic
      then err no_topics
      else do key ← checked_sym_key id ks; ok (some key)

  -- A public key, if one is given, or the error for one that is not valid.
  unfoldable pub unmarshalled :
      (List ℕ → Option P.PublicKey) → ApiError → List ℕ → Outcome ApiError (Option P.PublicKey)
  unmarshalled unmarshal e bytes =
      if not (given bytes)
      then ok none
      else elim (unmarshal bytes) [ none ↦ err e | some k ↦ ok (some k) ]

  -- The keys and the parameters of a request that names one kind of key.
  unfoldable pub keyed_params :
      Elsewhere P → NewMessage P → KeyStore P → Outcome ApiError (MessageParams P)
  unfolding signing_key encryption_key unmarshalled
  keyed_params out req ks = do
    src ← signing_key req.sig ks
    key ← encryption_key req.topic req.sym_key_id ks
    dst ← unmarshalled out.unmarshal_pubkey invalid_public_key req.public_key
    ok (record {
      ttl = req.ttl;
      src = src;
      dst = dst;
      key_sym = key;
      topic = req.topic;
      work_time = req.pow_time;
      pow = req.pow_target;
      payload = req.payload;
      padding = req.padding;
    })

  -- The parameters that `Post` makes of a request.
  unfoldable pub post_params :
      Elsewhere P → NewMessage P → KeyStore P → Outcome ApiError (MessageParams P)
  unfolding keyed_params
  post_params out req ks =
      let sym = given req.sym_key_id in
      let pub_key = given req.public_key in
      if (sym && pub_key) || (not sym && not pub_key) then err sym_asym else keyed_params out req ks

module _ (P : Platform) (S : Sets) where
  -- The end of `Post`: to one peer, without a check of the proof of work, or into the network.
  unfoldable pub post_envelope : Elsewhere P → NewMessage P → Envelope P → Host P S → Posting P S
  post_envelope out req e w =
      if given req.target_peer
      then elim (out.parse_node req.target_peer) [
        | none ↦ refused w unknown_target_peer
        | some i ↦
            let (w', o) = send_p2p_message P S i (e ∷ []) out.sent_ok w in
            elim o [ none ↦ posted w' (with_hash P e).hash | some x ↦ refused w' (peer_error x) ]
      ]
      else if P.lt req.pow_target (min_pow P w.node.settings)
      then refused w too_low_pow
      else elim (send P S out.now e w.node) [
        | waits ↦ stuck
        | panics ↦ panicked
        | done (n, true) ↦ posted (record w { node = n }) (with_hash P e).hash
        | done (n, false) ↦ refused (record w { node = n }) not_sent
      ]

  -- `Post` of a request, from its parameters on.
  unfoldable pub post_message :
      Elsewhere P → NewMessage P → MessageParams P → Host P S → Posting P S
  unfolding post_envelope
  post_message out req params w = elim (new_sent_message P out.random params) [
    | err e ↦ refused w (message_error e)
    | panic ↦ panicked
    | ok raw ↦ elim (wrap P out.around params raw) [
      | failed e ↦ refused w (wrap_error e)
      | crashed ↦ panicked
      | still_sealing ↦ stuck
      | wrapped e ↦ post_envelope out req e w
    ]
  ]

  -- `Post`
  unfoldable pub post : Elsewhere P → NewMessage P → KeyStore P → Host P S → Posting P S
  unfolding post_params post_message
  post out req ks w = elim (post_params P out req ks) [
    | err e ↦ refused w e
    | panic ↦ panicked
    | ok params ↦ post_message out req params w
  ]
