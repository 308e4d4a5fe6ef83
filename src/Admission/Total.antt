-- ===== src/Admission/Total.antt =====
-- The checks of `add` do not panic where the bloom filters have 64 bytes (whisperv6/whisper.go).
use whisper.Base.{
  ℕ, ◌+◌, ◌≡◌, List, Bool, true, false, ◌&&◌, Option, none, some, ltb, if◌then◌else◌, Option-cases,
  inl, inr, ◌≢◌, arith, length,
}
use whisper.Admission.{
  low_pow, oversized, very_old, in_future, AddError, Verdict, dropped, rejected, crashed,
  check_bloom, check_pow, check_size, check_age, check_envelope,
}
use whisper.Bloom.{bloom_filter_match}
use whisper.Bloom.Match.{bloom_match_total, bloom_match_nil}
use whisper.Constants.{bloom_filter_size, default_sync_allowance}
use whisper.Envelope.{Envelope, size, sub32, u32, with_bloom, with_pow, calculate_pow}
use whisper.Platform.{Platform}
use whisper.Settings.{Settings, min_pow, min_pow_tolerance}
use whisper.Settings.Subscription.{IsSized}
use whisper.Bloom.Topics.{length-topic_to_bloom}

sized_match :
    (f : Option (List ℕ)) (b : List ℕ)
    → IsSized f
    → length b ≡ bloom_filter_size
    → (r : Bool) × (bloom_filter_match f b ≡ some r)
sized_match none b s l = (true, bloom_match_nil b)
sized_match (some f) b s l = bloom_match_total f b s l

bloom_length :
    {P : Platform} (e : Envelope P)
    → IsSized e.bloom
    → length (with_bloom P e).1 ≡ bloom_filter_size
unfolding with_bloom
bloom_length {P} e z = elim (Option-cases e.bloom) [
  | inl n ↦ rw (n, with_bloom) (length-topic_to_bloom e.topic)
  | inr (b, n) ↦ rw (n, with_bloom) (rw n at z)
]

choose-ne :
    {P : Platform} (b : Bool) (v w : Verdict P)
    → v ≢ crashed
    → w ≢ crashed
    → (if b then v else w) ≢ crashed
choose-ne true v w c d = c
choose-ne false v w c d = d

rejected-ne : {P : Platform} (x : AddError) → ◌≢◌ {A = Verdict P} (rejected x) crashed
rejected-ne x h = ground (arith, h)

dropped-ne : {P : Platform} → ◌≢◌ {A = Verdict P} dropped crashed
dropped-ne h = ground (arith, h)

module _ (P : Platform) (s : Settings P) (sized : IsSized s.bloom_filter)
    (tolerated : IsSized s.bloom_filter_tolerance) where
  check_bloom-ne : (e : Envelope P) → IsSized e.bloom → check_bloom P s e ≢ crashed
  unfolding check_bloom
  check_bloom-ne e z =
      let l = bloom_length e z in
      let (_, m) = sized_match s.bloom_filter (with_bloom P e).1 sized l in
      let (_, n) = sized_match s.bloom_filter_tolerance (with_bloom P e).1 tolerated l in
      λ h. ground (arith, m, n, h)

  bloom-with_pow : (e : Envelope P) → (with_pow P e).bloom ≡ e.bloom
  unfolding with_pow calculate_pow
  bloom-with_pow e = ground arith

  check_pow-ne : (e : Envelope P) → IsSized e.bloom → check_pow P s e ≢ crashed
  unfolding check_pow
  check_pow-ne e z =
      choose-ne (P.lt e.pow (min_pow P s) && P.lt e.pow (min_pow_tolerance P s)) _ _
        (rejected-ne low_pow) (check_bloom-ne e z)

  check_size-ne : (e : Envelope P) → IsSized e.bloom → check_size P s e ≢ crashed
  unfolding check_size
  check_size-ne e z =
      choose-ne (ltb s.max_size (u32 (size P e))) _ _ (rejected-ne oversized)
        (check_pow-ne (with_pow P e) (rw (bloom-with_pow e) z))

  check_age-ne : (now : ℕ) (e : Envelope P) → IsSized e.bloom → check_age P now s e ≢ crashed
  unfolding check_age
  check_age-ne now e z =
      choose-ne (ltb e.expiry now) _ _
        (choose-ne (ltb (u32 (e.expiry + (default_sync_allowance + default_sync_allowance))) now) _
          _ (rejected-ne very_old) dropped-ne)
        (check_size-ne e z)

  -- No check panics, on any envelope whose own filter is not computed yet or has 64 bytes.
  pub check_envelope-ne :
      (now : ℕ) (e : Envelope P) → IsSized e.bloom → check_envelope P now s e ≢ crashed
  unfolding check_envelope calculate_pow
  check_envelope-ne now e z =
      choose-ne (ltb now (sub32 e.expiry e.ttl)) _ _
        (choose-ne (ltb now (sub32 (sub32 e.expiry e.ttl) default_sync_allowance)) _ _
          (rejected-ne in_future)
          (check_age-ne now (calculate_pow P (u32 (sub32 (sub32 e.expiry e.ttl) now + 1)) e) z))
        (check_age-ne now e z)
