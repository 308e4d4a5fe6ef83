-- ===== src/Settings/Subscription.antt =====
-- `updateBloomFilter` of whisperv6/whisper.go: a subscription widens the node's bloom filter.
use whisper.Base.{
  ℕ, ◌≡◌, refl, ap, ◌∙◌, List, [], ◌∷◌, true, false, Option, none, some, arith, length, All, ◌==◌,
  replicate, length-replicate, Bool-cases, inl, inr,
}
use whisper.Base.Outcome.{ok}
use whisper.Bloom.{bloom_filter_match, add_bloom, topic_to_bloom}
use whisper.Bloom.Match.{
  add_bloom_matches, bloom_filter_match_trans, bloom_match_total, bloom_match_refl, bloom_match_nil,
}
use whisper.Bloom.Topics.{length-topic_to_bloom}
use whisper.Constants.{bloom_filter_size}
use whisper.Platform.{Platform}
use whisper.Settings.{Settings, aggregate, widen, update_bloom_filter, set_bloom_filter, default_to}
use whisper.Topic.{bytes_to_topic}

-- A filter is nil or has 64 bytes.
abbrev pub IsSized : Option (List ℕ) → Type 0
IsSized none = Unit
IsSized (some b) = length b ≡ bloom_filter_size

abbrev topic_bloom : List ℕ → List ℕ
topic_bloom t = topic_to_bloom (bytes_to_topic t)

module _ (P : Platform) where
  aggregate_lem :
      (topics : List (List ℕ)) (acc : List ℕ)
      → length acc ≡ bloom_filter_size
      → (agg : List ℕ) × (aggregate P topics acc ≡ ok agg)
        × (length agg ≡ bloom_filter_size)
        × (bloom_filter_match (some agg) acc ≡ some true)
        × All (λ t. bloom_filter_match (some agg) (topic_bloom t) ≡ some true) topics
  unfolding aggregate
  aggregate_lem [] acc l = (acc, refl, l, bloom_match_refl acc l, tt)
  aggregate_lem (t ∷ topics) acc l =
      let lt = length-topic_to_bloom (bytes_to_topic t) in
      let (c, added, lc, ma, mb) = add_bloom_matches acc (topic_bloom t) l lt in
      let (agg, run, la, mc, all) = aggregate_lem topics c lc in
      (
        agg,
        rw (added, aggregate) run,
        la,
        bloom_filter_match_trans agg c acc la lc l mc ma,
        (bloom_filter_match_trans agg c (topic_bloom t) la lc lt mc mb, all),
      )

  -- What the new settings promise: their filter is sized, matches the aggregate, and matches
  -- whatever the old one matched.
  record Widened (agg : List ℕ) (s s' : Settings P) : Type 0 where
    sized : IsSized s'.bloom_filter
    matches : bloom_filter_match s'.bloom_filter agg ≡ some true
    keeps :
        (sample : List ℕ)
        → length sample ≡ bloom_filter_size
        → bloom_filter_match s.bloom_filter sample ≡ some true
        → bloom_filter_match s'.bloom_filter sample ≡ some true

  set_sized :
      (wide : List ℕ) (s : Settings P)
      → length wide ≡ bloom_filter_size
      → set_bloom_filter P wide s ≡ ok (record s { bloom_filter = some wide })
  unfolding set_bloom_filter
  set_sized wide s l = let e : (length wide == bloom_filter_size) ≡ true = ground arith in rw e

  widen_same :
      (agg : List ℕ) (s : Settings P)
      → bloom_filter_match s.bloom_filter agg ≡ some true
      → widen P agg s ≡ ok s
  unfolding widen
  widen_same agg s m = rw (m, widen)

  widen_new :
      (agg wide : List ℕ) (s : Settings P)
      → bloom_filter_match s.bloom_filter agg ≡ some false
      → add_bloom (default_to [] s.bloom_filter) agg ≡ some wide
      → length wide ≡ bloom_filter_size
      → widen P agg s ≡ ok (record s { bloom_filter = some wide })
  unfolding widen
  widen_new agg wide s m a l = rw (m, a, set_sized wide s l, widen)

  widen_by :
      (o : Option (List ℕ)) (agg : List ℕ) (s : Settings P)
      → s.bloom_filter ≡ o
      → IsSized o
      → length agg ≡ bloom_filter_size
      → (s' : Settings P) × (widen P agg s ≡ ok s') × Widened agg s s'
  widen_by none agg s e z l =
      let m : bloom_filter_match s.bloom_filter agg ≡ some true = rw e (bloom_match_nil agg) in
      (s, widen_same agg s m, record { sized = rw e z; matches = m; keeps = λ x y k. k })
  widen_by (some f) agg s e z l =
      let (b, m) = bloom_match_total f agg z l in
      elim (Bool-cases b) [
        | inl t ↦
            let m' : bloom_filter_match s.bloom_filter agg ≡ some true = rw e (m ∙ ap some t) in
            (s, widen_same agg s m', record { sized = rw e z; matches = m'; keeps = λ x y k. k })
        | inr t ↦
            let (wide, added, lw, mf, ma) = add_bloom_matches f agg z l in
            (
              record s { bloom_filter = some wide },
              widen_new agg wide s (rw e (m ∙ ap some t)) (rw e added) lw,
              record {
                sized = lw;
                matches = ma;
                keeps = λ x lx k. bloom_filter_match_trans wide f x lw z lx mf (rw e at k);
              },
            )
      ]

  All-covered :
      (s' : Settings P) (agg : List ℕ) (topics : List (List ℕ))
      → IsSized s'.bloom_filter
      → length agg ≡ bloom_filter_size
      → bloom_filter_match s'.bloom_filter agg ≡ some true
      → All (λ t. bloom_filter_match (some agg) (topic_bloom t) ≡ some true) topics
      → All (λ t. bloom_filter_match s'.bloom_filter (topic_bloom t) ≡ some true) topics
  All-covered s' agg [] z l m all = tt
  All-covered s' agg (t ∷ topics) z l m all =
      (covered s'.bloom_filter z m, All-covered s' agg topics z l m all.1)
    where
      covered :
          (o : Option (List ℕ))
          → IsSized o
          → bloom_filter_match o agg ≡ some true
          → bloom_filter_match o (topic_bloom t) ≡ some true
      covered none z m = bloom_match_nil (topic_bloom t)
      covered (some f) z m =
          bloom_filter_match_trans f agg (topic_bloom t) z l
            (length-topic_to_bloom (bytes_to_topic t)) m all.0

  -- Subscribing to topics never panics or fails on the bloom filter: afterwards the node's filter
  -- still is nil or has 64 bytes, it matches the filter of every topic subscribed to, and it
  -- matches every sample of 64 bytes that it matched before.
  pub update_bloom_filter_covers :
      (topics : List (List ℕ)) (s : Settings P)
      → IsSized s.bloom_filter
      → (s' : Settings P) × (update_bloom_filter P topics s ≡ ok s')
        × IsSized s'.bloom_filter
        × All
            (λ t.
              bloom_filter_match s'.bloom_filter (topic_to_bloom (bytes_to_topic t)) ≡ some true)
            topics
        × ((sample : List ℕ)
            → length sample ≡ bloom_filter_size
            → bloom_filter_match s.bloom_filter sample ≡ some true
            → bloom_filter_match s'.bloom_filter sample ≡ some true)
  unfolding update_bloom_filter
  update_bloom_filter_covers topics s z =
      let (agg, run, l, _, all) =
        aggregate_lem topics (replicate bloom_filter_size 0) (length-replicate {A = ℕ} 64 0) in
      let (s', step, w) = widen_by s.bloom_filter agg s refl z l in
      (s', rw run step, w.sized, All-covered s' agg topics w.sized l w.matches all, w.keeps)
