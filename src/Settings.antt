-- ===== src/Settings.antt =====
-- The settings of a node (whisperv6/whisper.go and whisperv6/config.go): what `settings` stores,
-- the functions that read it and those that write it. Telling the peers is modelled with the
-- peers; the goroutine that sets a tolerance after the allowance is `settle_bloom_filter` and
-- `settle_minimum_pow`, which take the value that the goroutine holds.
pub mod Subscription
use whisper.Base.{
  ℕ, suc, List, [], ◌∷◌, Bool, true, false, not, Option, none, some, ltb, leb, ◌==◌, if◌then◌else◌,
  length, take, replicate,
}
use whisper.Base.Outcome.{Outcome, ok, err, panic, ◌>>=◌}
use whisper.Bloom.{bloom_filter_match, add_bloom, topic_to_bloom}
use whisper.Constants.{bloom_filter_size, max_message_size, message_queue_limit}
use whisper.Platform.{Platform}
use whisper.Topic.{Topic, bytes_to_topic}

-- A setting that was never stored is `none`; `max_message_size` and `overflow` `New` stores.
pub record Settings (P : Platform) : Type 0 where
  pub min_pow : Option P.Float
  pub min_pow_tolerance : Option P.Float
  pub bloom_filter : Option (List ℕ)
  pub bloom_filter_tolerance : Option (List ℕ)
  pub max_size : ℕ
  pub overflow : Bool
  pub light_client : Option Bool
  pub restrict_light_clients : Option Bool

-- `Config`
pub record Config (P : Platform) : Type 0 where
  pub max_message_size : ℕ
  pub minimum_accepted_pow : P.Float
  pub restrict_connection_between_light_clients : Bool
  pub disable_confirmations : Bool

pub data SettingError : Type 0 where
  message_size_too_large invalid_bloom_size invalid_pow : SettingError

abbrev pub default_to {ℓ} : {A : Type ℓ} → A → Option A → A
default_to d none = d
default_to d (some a) = a

module _ (P : Platform) where
  -- The settings that `New` stores.
  unfoldable pub initial_settings : Config P → Settings P
  initial_settings cfg = record {
    min_pow = some cfg.minimum_accepted_pow;
    min_pow_tolerance = none;
    bloom_filter = none;
    bloom_filter_tolerance = none;
    max_size = cfg.max_message_size;
    overflow = false;
    light_client = none;
    restrict_light_clients = some cfg.restrict_connection_between_light_clients;
  }

  -- `MinPow`
  unfoldable pub min_pow : Settings P → P.Float
  min_pow s = default_to P.default_minimum_pow s.min_pow

  -- `MinPowTolerance`
  unfoldable pub min_pow_tolerance : Settings P → P.Float
  min_pow_tolerance s = default_to P.default_minimum_pow s.min_pow_tolerance

  -- `SetMaxMessageSize`
  unfoldable pub set_max_message_size : ℕ → Settings P → Outcome SettingError (Settings P)
  set_max_message_size size s =
      if ltb max_message_size size
      then err message_size_too_large
      else ok (record s { max_size = size })

  -- `SetBloomFilter`, which copies a filter of the right size.
  unfoldable pub set_bloom_filter : List ℕ → Settings P → Outcome SettingError (Settings P)
  set_bloom_filter bloom s =
      if not (length bloom == bloom_filter_size)
      then err invalid_bloom_size
      else ok (record s { bloom_filter = some bloom })

  unfoldable pub settle_bloom_filter : List ℕ → Settings P → Settings P
  settle_bloom_filter bloom s = record s { bloom_filter_tolerance = some bloom }

  -- `SetMinimumPoW`
  unfoldable pub set_minimum_pow : P.Float → Settings P → Outcome SettingError (Settings P)
  set_minimum_pow val s =
      if P.lt val P.zero_pow then err invalid_pow else ok (record s { min_pow = some val })

  unfoldable pub settle_minimum_pow : P.Float → Settings P → Settings P
  settle_minimum_pow val s = record s { min_pow_tolerance = some val }

  -- `SetMinimumPowTest`
  unfoldable pub set_minimum_pow_test : P.Float → Settings P → Settings P
  set_minimum_pow_test val s = record s { min_pow = some val; min_pow_tolerance = some val }

  -- `SetLightClientMode`
  unfoldable pub set_light_client_mode : Bool → Settings P → Settings P
  set_light_client_mode v s = record s { light_client = some v }

  -- `LightClientMode`
  unfoldable pub light_client_mode : Settings P → Bool
  light_client_mode s = default_to false s.light_client

  -- `LightClientModeConnectionRestricted`
  unfoldable pub light_client_mode_connection_restricted : Settings P → Bool
  light_client_mode_connection_restricted s = default_to false s.restrict_light_clients

  -- `checkOverflow`, of the length of the message queue.
  unfoldable pub check_overflow : ℕ → Settings P → Settings P
  check_overflow queue_size s =
      if queue_size == message_queue_limit
      then record s { overflow = true }
      else if leb queue_size 512
      then record s { overflow = false }
      else s

  -- The loop of `updateBloomFilter` over a filter's topics.
  unfoldable pub aggregate : List (List ℕ) → List ℕ → Outcome SettingError (List ℕ)
  aggregate [] acc = ok acc
  aggregate (t ∷ topics) acc = elim (add_bloom acc (topic_to_bloom (bytes_to_topic t))) [
    | none ↦ panic
    | some acc' ↦ aggregate topics acc'
  ]

  -- Its end: the filter is widened if it does not match the aggregate. An error of
  -- `SetBloomFilter` is dropped.
  unfoldable pub widen : List ℕ → Settings P → Outcome SettingError (Settings P)
  widen agg s = elim (bloom_filter_match s.bloom_filter agg) [
    | none ↦ panic
    | some true ↦ ok s
    | some false ↦ elim (add_bloom (default_to [] s.bloom_filter) agg) [
      | none ↦ panic
      | some wide ↦ elim (set_bloom_filter wide s) [ ok s' ↦ ok s' | err e ↦ ok s | panic ↦ panic ]
    ]
  ]

  -- `updateBloomFilter`, of the topics of the new filter.
  unfoldable pub update_bloom_filter :
      List (List ℕ) → Settings P → Outcome SettingError (Settings P)
  unfolding aggregate widen
  update_bloom_filter topics s = do
    agg ← aggregate topics (replicate bloom_filter_size 0)
    widen agg s
