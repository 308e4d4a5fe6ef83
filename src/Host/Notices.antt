-- ===== src/Host/Notices.antt =====
-- The settings that a node tells its peers of (whisperv6/whisper.go), with the notifications of
-- whisperv6/peer.go. The answers of a peer are whether a first send and a second one succeed.
use whisper.Base.{ℕ, List, [], ◌∷◌, Bool, true, false, none, some, if◌then◌else◌, replicate}
use whisper.Base.Outcome.{Outcome, ok, err, panic, ◌>>=◌}
use whisper.Bloom.{add_bloom, bloom_filter_match}
use whisper.Constants.{bloom_filter_size}
use whisper.Host.{Host, pow_requirement, bloom_filter_ex, sending}
use whisper.Peer.{Peer}
use whisper.Platform.{Platform}
use whisper.Sets.{Sets}
use whisper.Settings
use whisper.Settings.{Settings, SettingError, aggregate, default_to}

module _ (P : Platform) (S : Sets) where
  abbrev pub with_settings : Settings P → Host P S → Host P S
  with_settings s w = record w { node = record w.node { settings = s } }

  -- `notifyAboutPowRequirementChange`, if the send succeeds.
  unfoldable pub notify_about_pow_requirement_change : P.Float → ℕ → Bool → Host P S → Host P S
  notify_about_pow_requirement_change pow i sent_ok w =
      sending P S i (pow_requirement (P.float_bits pow)) sent_ok w

  -- `notifyAboutBloomFilterChange`
  unfoldable pub notify_about_bloom_filter_change : List ℕ → ℕ → Bool → Host P S → Host P S
  notify_about_bloom_filter_change bloom i sent_ok w =
      sending P S i (bloom_filter_ex bloom) sent_ok w

  -- The loop over `getPeers`, with one retry.
  unfoldable pub notify_each :
      (ℕ → Bool → Host P S → Host P S) → (ℕ → Bool × Bool) → List (Peer P S) → Host P S → Host P S
  notify_each tell tries [] w = w
  notify_each tell tries (p ∷ ps) w =
      let (first, second) = tries p.id in
      notify_each tell tries ps (if first then tell p.id first w else tell p.id second w)

  -- `notifyPeersAboutPowRequirementChange`
  unfoldable pub notify_peers_about_pow : (ℕ → Bool × Bool) → P.Float → Host P S → Host P S
  unfolding notify_each notify_about_pow_requirement_change
  notify_peers_about_pow tries pow w =
      notify_each (notify_about_pow_requirement_change pow) tries w.peers w

  -- `notifyPeersAboutBloomFilterChange`
  unfoldable pub notify_peers_about_bloom : (ℕ → Bool × Bool) → List ℕ → Host P S → Host P S
  unfolding notify_each notify_about_bloom_filter_change
  notify_peers_about_bloom tries bloom w =
      notify_each (notify_about_bloom_filter_change bloom) tries w.peers w

  -- `SetMinimumPoW`, up to the wait after which the old requirement is tolerated no more.
  unfoldable pub announce_minimum_pow :
      (ℕ → Bool × Bool) → P.Float → Host P S → Outcome SettingError (Host P S)
  unfolding notify_peers_about_pow Settings.set_minimum_pow
  announce_minimum_pow tries val w = do
    s ← Settings.set_minimum_pow P val w.node.settings
    ok (notify_peers_about_pow tries val (with_settings s w))

  -- `SetMinimumPowTest`
  unfoldable pub announce_minimum_pow_test : (ℕ → Bool × Bool) → P.Float → Host P S → Host P S
  unfolding notify_peers_about_pow Settings.set_minimum_pow_test
  announce_minimum_pow_test tries val w =
      notify_peers_about_pow tries val
        (with_settings (Settings.set_minimum_pow_test P val w.node.settings) w)

  -- `SetBloomFilter`, up to the same wait.
  unfoldable pub announce_bloom_filter :
      (ℕ → Bool × Bool) → List ℕ → Host P S → Outcome SettingError (Host P S)
  unfolding notify_peers_about_bloom Settings.set_bloom_filter
  announce_bloom_filter tries bloom w = do
    s ← Settings.set_bloom_filter P bloom w.node.settings
    ok (notify_peers_about_bloom tries bloom (with_settings s w))

  -- The end of `updateBloomFilter`, which drops an error of `SetBloomFilter`.
  unfoldable pub widen_advertised :
      (ℕ → Bool × Bool) → List ℕ → Host P S → Outcome SettingError (Host P S)
  unfolding announce_bloom_filter
  widen_advertised tries agg w = elim (bloom_filter_match w.node.settings.bloom_filter agg) [
    | none ↦ panic
    | some true ↦ ok w
    | some false ↦ elim (add_bloom (default_to [] w.node.settings.bloom_filter) agg) [
      | none ↦ panic
      | some wide ↦ elim (announce_bloom_filter tries wide w) [
        | ok w' ↦ ok w'
        | err e ↦ ok w
        | panic ↦ panic
      ]
    ]
  ]

  -- `updateBloomFilter`
  unfoldable pub update_advertised_bloom :
      (ℕ → Bool × Bool) → List (List ℕ) → Host P S → Outcome SettingError (Host P S)
  unfolding widen_advertised
  update_advertised_bloom tries topics w = do
    agg ← aggregate P topics (replicate bloom_filter_size 0)
    widen_advertised tries agg w
