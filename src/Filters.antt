-- ===== src/Filters.antt =====
-- Message filters (whisperv6/filter.go) and opening an envelope for one (whisperv6/envelope.go).
-- A filter has its address `at`, which is what the maps to its pointer hold.
pub mod Housed
pub mod Install
pub mod Delivery
pub mod Store
pub mod Polls
pub mod Total
pub mod Stocked
pub mod Full
use whisper.Base.{
  ℕ, List, [], ◌∷◌, ◌++◌, Bool, true, false, not, ◌&&◌, ◌||◌, Option, none, some, ◌==◌,
  if◌then◌else◌, length,
}
use whisper.Base.Assoc.{Assoc, lookup, insert, remove}
use whisper.Base.Outcome.{Outcome, ok, err, panic}
use whisper.Encryption.{open_asymmetric, open_symmetric}
use whisper.Envelope.{Envelope, sub32, with_pow, with_hash}
use whisper.Message.{ReceivedMessage}
use whisper.Platform.{Platform}
use whisper.Received.{validate_and_parse}
use whisper.Sets.{elem}
use whisper.Topic.{Topic, topic_eq, bytes_to_topic}

-- `Filter`; its store of messages is `MemoryMessageStore`.
pub record Filter (P : Platform) : Type 0 where
  pub at : ℕ
  pub src : Option P.PublicKey
  pub key_asym : Option P.PrivateKey
  pub key_sym : Option (List ℕ)
  pub topics : List (List ℕ)
  pub pow : P.Float
  pub allow_p2p : Bool
  pub sym_key_hash : ℕ
  pub id : ℕ

pub data FilterError : Type 0 where
  two_keys no_random id_in_use : FilterError

-- `Filters`. A set of pointers is a list of addresses; a topic with no set has the empty one.
pub record Filters (P : Platform) : Type 0 where
  pub watchers : Assoc (Filter P)
  pub topic_matcher : Topic → List ℕ
  pub all_topics_matcher : List ℕ
  -- The filters by address.
  pub heap : Assoc (Filter P)

abbrev pub put_in : ℕ → List ℕ → List ℕ
put_in a s = if elem a s then s else a ∷ s

abbrev pub take_out : ℕ → List ℕ → List ℕ
take_out a [] = []
take_out a (k ∷ s) = let rest = take_out a s in if k == a then rest else k ∷ rest

abbrev pub is_set : {A : Type 0} → Option A → Bool
is_set none = false
is_set (some a) = true

module _ (P : Platform) where
  -- `addTopicMatcher`: the loop over the topics.
  unfoldable pub add_topics : ℕ → List (List ℕ) → (Topic → List ℕ) → Topic → List ℕ
  add_topics a [] m = m
  add_topics a (t ∷ ts) m =
      add_topics a ts (λ u. if topic_eq u (bytes_to_topic t) then put_in a (m u) else m u)

  unfoldable pub remove_topics : ℕ → List (List ℕ) → (Topic → List ℕ) → Topic → List ℕ
  remove_topics a [] m = m
  remove_topics a (t ∷ ts) m =
      remove_topics a ts (λ u. if topic_eq u (bytes_to_topic t) then take_out a (m u) else m u)

  -- `addTopicMatcher`
  unfoldable pub add_topic_matcher : Filter P → Filters P → Filters P
  add_topic_matcher f fs =
      if length f.topics == 0
      then record fs { all_topics_matcher = put_in f.at fs.all_topics_matcher }
      else record fs { topic_matcher = add_topics f.at f.topics fs.topic_matcher }

  -- `removeFromTopicMatchers`
  unfoldable pub remove_from_topic_matchers : Filter P → Filters P → Filters P
  remove_from_topic_matchers f fs = record fs {
    all_topics_matcher = take_out f.at fs.all_topics_matcher;
    topic_matcher = remove_topics f.at f.topics fs.topic_matcher;
  }

  -- `getWatchersByTopic`
  unfoldable pub get_watchers_by_topic : Topic → Filters P → List ℕ
  get_watchers_by_topic t fs = fs.all_topics_matcher ++ fs.topic_matcher t

  -- The filter as `Install` leaves it.
  abbrev pub with_id : ℕ → Filter P → Filter P
  with_id id f = record f {
    sym_key_hash = elim f.key_sym [ none ↦ f.sym_key_hash | some k ↦ P.keccak256 k ];
    id = id;
  }

  -- `Install`, of what `GenerateRandomID` gave.
  unfoldable pub install : Option ℕ → Filter P → Filters P → Outcome FilterError (Filters P × ℕ)
  unfolding add_topic_matcher
  install random f fs =
      if is_set f.key_sym && is_set f.key_asym then err two_keys else elim random [
        | none ↦ err no_random
        | some id ↦
            if is_set (lookup id fs.watchers)
            then err id_in_use
            else ok (
              add_topic_matcher (with_id id f) (record fs {
                watchers = insert id (with_id id f) fs.watchers;
                heap = insert f.at (with_id id f) fs.heap;
              }),
              id,
            )
      ]

  -- `Uninstall`
  unfoldable pub uninstall : ℕ → Filters P → Filters P × Bool
  unfolding remove_from_topic_matchers
  uninstall id fs = elim (lookup id fs.watchers) [
    | none ↦ (fs, false)
    | some f ↦
        let fs' = remove_from_topic_matchers f fs in
        (record fs' { watchers = remove id fs'.watchers }, true)
  ]

  -- `IsPubKeyEqual`; a nil key is not valid.
  unfoldable pub is_pub_key_equal : Option P.PublicKey → Option P.PublicKey → Bool
  is_pub_key_equal none b = false
  is_pub_key_equal (some a) none = false
  is_pub_key_equal (some a) (some b) =
      P.validate_public_key a && P.validate_public_key b && P.same_point a b

  -- The second half of `MatchMessage`.
  unfoldable pub match_symmetric : Filter P → ReceivedMessage P → Bool
  match_symmetric f msg =
      if is_set f.key_sym && not (msg.sym_key_hash == 0)
      then f.sym_key_hash == msg.sym_key_hash
      else false

  -- `MatchMessage`
  unfoldable pub match_message : Filter P → ReceivedMessage P → Bool
  match_message f msg =
      if P.lt P.zero_pow f.pow && P.lt msg.pow f.pow then false else elim f.key_asym [
        | some key ↦
            if is_set msg.dst
            then is_pub_key_equal (some (P.public_key key)) msg.dst
            else match_symmetric f msg
        | none ↦ match_symmetric f msg
      ]

  -- `MatchEnvelope`, which reads the cached proof of work.
  unfoldable pub match_envelope : Filter P → Envelope P → Bool
  match_envelope f e = P.le f.pow P.zero_pow || P.le f.pow e.pow

  -- What `Open` decrypts.
  unfoldable pub decrypt_for : Filter P → Envelope P → Option (ReceivedMessage P)
  decrypt_for f e = elim f.key_asym [
    | some key ↦ elim f.key_sym [
      | some _ ↦ none
      | none ↦ elim (open_asymmetric P key e) [
        | none ↦ none
        | some msg ↦ some (record msg { dst = some (P.public_key key) })
      ]
    ]
    | none ↦ elim f.key_sym [
      | none ↦ none
      | some key ↦ elim (open_symmetric P key e) [
        | none ↦ none
        | some msg ↦ some (record msg { sym_key_hash = P.keccak256 key })
      ]
    ]
  ]

  -- `Open`: the message, if there is one; `none` outside is a panic.
  unfoldable pub open_for : Filter P → Envelope P → Option (Option (ReceivedMessage P))
  unfolding decrypt_for
  open_for f e = elim (decrypt_for f e) [
    | none ↦ some none
    | some msg ↦ elim (validate_and_parse P msg) [
      | none ↦ none
      | some (parsed, false) ↦ some none
      | some (parsed, true) ↦ some (
          some (record parsed {
            topic = e.topic;
            pow = (with_pow P e).pow;
            ttl = e.ttl;
            sent = sub32 e.expiry e.ttl;
            envelope_hash = (with_hash P e).hash;
          }))
    ]
  ]

  -- `watcher.Src == nil || IsPubKeyEqual(msg.Src, watcher.Src)`
  unfoldable pub wants_src : Filter P → ReceivedMessage P → Bool
  wants_src f msg = not (is_set f.src) || is_pub_key_equal msg.src f.src

  -- One round of `NotifyWatchers`, from the message that was opened so far: the message then, and
  -- whether the filter gets it.
  unfoldable pub offer :
      Bool
      → Envelope P
      → Filter P
      → Option (ReceivedMessage P)
      → Option (Option (ReceivedMessage P) × Bool)
  unfolding open_for
  offer p2p e f msg = if p2p && not f.allow_p2p then some (msg, false) else elim msg [
    | some m ↦
        if match_message f m
        then some (some (record m { p2p = p2p }), wants_src f m)
        else some (some m, false)
    | none ↦
        if match_envelope f e
        then elim (open_for f e) [
          | none ↦ none
          | some none ↦ some (none, false)
          | some (some m) ↦ some (some (record m { p2p = p2p }), wants_src f m)
        ]
        else some (none, false)
  ]

  -- `NotifyWatchers` over the candidates: which filter gets what, in order.
  unfoldable pub notify :
      Bool
      → Envelope P
      → List (Filter P)
      → Option (ReceivedMessage P)
      → Option (List (Filter P × ReceivedMessage P))
  unfolding offer
  notify p2p e [] msg = some []
  notify p2p e (f ∷ fs) msg = elim (offer p2p e f msg) [
    | none ↦ none
    | some (none, got) ↦ notify p2p e fs none
    | some (some m, got) ↦ elim (notify p2p e fs (some m)) [
      | none ↦ none
      | some out ↦ if got then some ((f, m) ∷ out) else some out
    ]
  ]

  -- The filters at some addresses; `none` is a nil pointer.
  unfoldable pub deref : Assoc (Filter P) → List ℕ → Option (List (Filter P))
  deref heap [] = some []
  deref heap (a ∷ rest) = elim (lookup a heap) [
    | none ↦ none
    | some f ↦ elim (deref heap rest) [ none ↦ none | some fs ↦ some (f ∷ fs) ]
  ]

  -- `NotifyWatchers`
  unfoldable pub notify_watchers :
      Bool → Envelope P → Filters P → Option (List (Filter P × ReceivedMessage P))
  unfolding get_watchers_by_topic
  notify_watchers p2p e fs = elim (deref fs.heap (get_watchers_by_topic e.topic fs)) [
    | none ↦ none
    | some candidates ↦ notify p2p e candidates none
  ]

  -- `MemoryMessageStore.Add`
  unfoldable pub store_message :
      ReceivedMessage P → Assoc (ReceivedMessage P) → Assoc (ReceivedMessage P)
  store_message msg store =
      if is_set (lookup msg.envelope_hash store) then store else insert msg.envelope_hash msg store
