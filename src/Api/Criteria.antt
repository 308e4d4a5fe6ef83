-- ===== src/Api/Criteria.antt =====
-- The filters that `NewMessageFilter` and `Messages` of whisperv6/api.go make of their criteria, with
-- `Subscribe` and `Unsubscribe` of whisperv6/whisper.go, and the messages that polls get.
use whisper.Base.{
  ℕ, List, [], ◌∷◌, Bool, not, ◌&&◌, ◌||◌, Option, none, some, ◌==◌, if◌then◌else◌, length,
}
use whisper.Api.{
  ApiError, sym_asym, no_topics, invalid_public_key, invalid_signing_pub_key, key_error, given,
  relabel, checked_sym_key, unmarshalled,
}
use whisper.Api.Slices.{subscribed_topics, polled_topics}
use whisper.Base.Dict.{Text}
use whisper.Base.Outcome.{Outcome, ok, err, panic, ◌>>=◌}
use whisper.Filters.{Filter, FilterError, install, uninstall}
use whisper.Host.{Host}
use whisper.Keys.{KeyError, KeyStore, get_private_key}
use whisper.Message.{ReceivedMessage, is_message_signed}
use whisper.Platform.{Platform}
use whisper.Received.{sig_to_pub_key}
use whisper.Host.Notices.{update_advertised_bloom}
use whisper.Sets.{Sets}
use whisper.Topic.{Topic}

-- `Criteria`
pub record Criteria (P : Platform) : Type 0 where
  pub sym_key_id : Text
  pub private_key_id : Text
  pub sig : List ℕ
  pub min_pow : P.Float
  pub topics : List Topic
  pub allow_p2p : Bool

-- `Message`
pub record Message (P : Platform) : Type 0 where
  pub sig : List ℕ
  pub ttl : ℕ
  pub timestamp : ℕ
  pub topic : Topic
  pub payload : List ℕ
  pub padding : List ℕ
  pub pow : P.Float
  pub hash : ℕ
  pub dst : List ℕ
  pub p2p : Bool

module _ (P : Platform) where
  -- The symmetric key by an identifier that may not be given.
  unfoldable pub sym_key_for : Text → KeyStore P → Outcome ApiError (Option (List ℕ))
  sym_key_for id ks =
      if not (given id) then ok none else do key ← checked_sym_key P id ks; ok (some key)

  -- The private key likewise; `relabelled` is the error of the API for one that is not found.
  unfoldable pub private_key_for :
      (KeyError → ApiError) → Text → KeyStore P → Outcome ApiError (Option P.PrivateKey)
  private_key_for relabelled id ks =
      if not (given id)
      then ok none
      else do key ← relabel relabelled (get_private_key P id ks); ok (some key)

  -- The filter of `NewMessageFilter`, at a given address.
  unfoldable pub polled_filter :
      (List ℕ → Option P.PublicKey) → ℕ → Criteria P → KeyStore P → Outcome ApiError (Filter P)
  unfolding polled_topics sym_key_for private_key_for
  polled_filter unmarshal at crit ks =
      let sym = given crit.sym_key_id in
      let asym = given crit.private_key_id in
      if (sym && asym) || (not sym && not asym) then err sym_asym else do
        src ← unmarshalled P unmarshal invalid_signing_pub_key crit.sig
        key_sym ← sym_key_for crit.sym_key_id ks
        key_asym ← private_key_for key_error crit.private_key_id ks
        ok (record {
          at = at;
          src = src;
          key_asym = key_asym;
          key_sym = key_sym;
          topics = polled_topics crit.topics;
          pow = crit.min_pow;
          allow_p2p = crit.allow_p2p;
          sym_key_hash = 0;
          id = 0;
        })

  -- The filter of `Messages`, on a connection that supports subscriptions.
  unfoldable pub subscribed_filter :
      (List ℕ → Option P.PublicKey) → ℕ → Criteria P → KeyStore P → Outcome ApiError (Filter P)
  unfolding subscribed_topics sym_key_for private_key_for
  subscribed_filter unmarshal at crit ks =
      let sym = given crit.sym_key_id in
      let asym = given crit.private_key_id in
      if (sym && asym) || (not sym && not asym) then err sym_asym else do
        src ← unmarshalled P unmarshal invalid_signing_pub_key crit.sig
        key_sym ←
            if sym && (length (subscribed_topics crit.topics) == 0)
            then err no_topics
            else sym_key_for crit.sym_key_id ks
        key_asym ← private_key_for (λ _. invalid_public_key) crit.private_key_id ks
        ok (record {
          at = at;
          src = src;
          key_asym = key_asym;
          key_sym = key_sym;
          topics = subscribed_topics crit.topics;
          pow = crit.min_pow;
          allow_p2p = crit.allow_p2p;
          sym_key_hash = elim key_sym [ none ↦ 0 | some key ↦ P.keccak256 key ];
          id = 0;
        })

  -- `ToWhisperMessage`; `none` is its panic at a message of no byte.
  unfoldable pub to_whisper_message : ReceivedMessage P → Option (Message P)
  to_whisper_message m = elim m.raw [
    | [] ↦ none
    | flags ∷ _ ↦ some (record {
      sig =
          if is_message_signed flags
          then elim (sig_to_pub_key P m) [ none ↦ [] | some k ↦ P.public_key_bytes k ]
          else [];
      ttl = m.ttl;
      timestamp = m.sent;
      topic = m.topic;
      payload = m.payload;
      padding = m.padding;
      pow = m.pow;
      hash = m.envelope_hash;
      dst = elim m.dst [ none ↦ [] | some k ↦ P.public_key_bytes k ];
      p2p = m.p2p;
    })
  ]

module _ (P : Platform) (S : Sets) where
  -- `Subscribe`; `tries` is how the peers can be told of a new bloom filter.
  unfoldable pub subscribe :
      (ℕ → Bool × Bool) → Option ℕ → Filter P → Host P S → Outcome FilterError (Host P S × ℕ)
  subscribe tries random f w = do
    r ← install P random f w.filters
    elim (update_advertised_bloom P S tries f.topics (record w { filters = r.0 })) [
      | panic ↦ panic
      | err _ ↦ ok (record w { filters = r.0 }, r.1)
      | ok w' ↦ ok (w', r.1)
    ]

  -- `Unsubscribe`: whether there was a filter with this identifier.
  unfoldable pub unsubscribe : ℕ → Host P S → Host P S × Bool
  unsubscribe id w = let (fs, was) = uninstall P id w.filters in (record w { filters = fs }, was)
