-- ===== src/Admission/Accepted.antt =====
-- Which envelopes `add` lets through (whisperv6/whisper.go).
use whisper.Base.{
  ℕ, ◌+◌, ◌≤◌, ◌<◌, ◌≡◌, List, true, false, some, ltb, arith, Bool-cases, inl, inr, ◌⊎◌,
}
use whisper.Bloom.{bloom_filter_match}
use whisper.Constants.{default_sync_allowance}
use whisper.Envelope.{Envelope, u32, sub32, size, calculate_pow, with_pow, with_bloom}
use whisper.Envelope.Caches.{
  SameText, SameText-trans, calculate_pow-SameText, with_pow-SameText, with_bloom-SameText,
  pow-with_bloom, with_bloom_twice,
}
use whisper.Platform.{Platform}
use whisper.Settings.{Settings, min_pow, min_pow_tolerance}
use whisper.Admission.{accepted, check_bloom, check_pow, check_size, check_age, check_envelope}

-- The bloom filter of an envelope: the cached one, or that of its topic.
abbrev pub bloom_of : {P : Platform} → Envelope P → List ℕ
bloom_of {P} e = (with_bloom P e).1

-- The conditions under which an envelope `e` becomes `r` in the pool.
pub record Admitted (P : Platform) (now : ℕ) (s : Settings P) (e r : Envelope P) : Type 0 where
  pub not_future : sub32 e.expiry e.ttl ≤ now + default_sync_allowance
  pub not_expired : now ≤ e.expiry
  pub not_oversized : u32 (size P e) ≤ s.max_size
  pub enough_pow : (P.lt r.pow (min_pow P s) ≡ false) ⊎ (P.lt r.pow (min_pow_tolerance P s) ≡ false)
  pub in_bloom :
      (bloom_filter_match s.bloom_filter (bloom_of r) ≡ some true)
      ⊎ (bloom_filter_match s.bloom_filter_tolerance (bloom_of r) ≡ some true)
  pub same_text : SameText e r

module _ (P : Platform) (s : Settings P) where
  check_bloom-accepted :
      (e : Envelope P) {r : Envelope P}
      → check_bloom P s e ≡ accepted r
      → (r ≡ (with_bloom P e).0)
        × ((bloom_filter_match s.bloom_filter (bloom_of e) ≡ some true)
            ⊎ (bloom_filter_match s.bloom_filter_tolerance (bloom_of e) ≡ some true))
  unfolding check_bloom
  check_bloom-accepted e h = ground arith

  -- The last two checks, of what the envelope is after them.
  record Passed (e r : Envelope P) : Type 0 where
    text : SameText e r
    pow : (P.lt r.pow (min_pow P s) ≡ false) ⊎ (P.lt r.pow (min_pow_tolerance P s) ≡ false)
    bloom :
        (bloom_filter_match s.bloom_filter (bloom_of r) ≡ some true)
        ⊎ (bloom_filter_match s.bloom_filter_tolerance (bloom_of r) ≡ some true)

  check_pow-accepted :
      (e : Envelope P) {r : Envelope P}
      → check_pow P s e ≡ accepted r
      → ((P.lt e.pow (min_pow P s) ≡ false) ⊎ (P.lt e.pow (min_pow_tolerance P s) ≡ false))
        × (check_bloom P s e ≡ accepted r)
  unfolding check_pow
  check_pow-accepted e h = ground arith

  Passed-of :
      (e r : Envelope P)
      → r ≡ (with_bloom P e).0
      → (P.lt e.pow (min_pow P s) ≡ false) ⊎ (P.lt e.pow (min_pow_tolerance P s) ≡ false)
      → (bloom_filter_match s.bloom_filter (bloom_of e) ≡ some true)
        ⊎ (bloom_filter_match s.bloom_filter_tolerance (bloom_of e) ≡ some true)
      → Passed e r
  Passed-of e r x p b = rw x (record {
    text = with_bloom-SameText P e;
    pow = rw (pow-with_bloom P e) p;
    bloom = rw (with_bloom_twice P e) b;
  })

  check_size-accepted :
      (e : Envelope P) {r : Envelope P}
      → check_size P s e ≡ accepted r
      → (u32 (size P e) ≤ s.max_size) × (check_pow P s (with_pow P e) ≡ accepted r)
  unfolding check_size
  check_size-accepted e h = (ground arith, ground arith)

  check_age-accepted :
      (now : ℕ) (e : Envelope P) {r : Envelope P}
      → check_age P now s e ≡ accepted r
      → (now ≤ e.expiry) × (check_size P s e ≡ accepted r)
  unfolding check_age
  check_age-accepted now e h = (ground arith, ground arith)

  aged :
      (now : ℕ) (e : Envelope P) {r : Envelope P}
      → check_age P now s e ≡ accepted r
      → (now ≤ e.expiry) × (u32 (size P e) ≤ s.max_size) × Passed e r
  aged now e {r} h =
      let (a, h1) = check_age-accepted now e h in
      let (b, h2) = check_size-accepted e h1 in
      let (c, h3) = check_pow-accepted (with_pow P e) h2 in
      let (x, d) = check_bloom-accepted (with_pow P e) h3 in
      let q = Passed-of (with_pow P e) r x c d in
      (
        a,
        b,
        record {
          text = SameText-trans (with_pow-SameText P e) q.text;
          pow = q.pow;
          bloom = q.bloom;
        },
      )

  size_same : (e r : Envelope P) → SameText e r → size P r ≡ size P e
  unfolding size
  size_same e r t = rw t.content

  sent_close :
      (sent now : ℕ)
      → sent < 4294967296
      → now + default_sync_allowance < 4294967296
      → ltb now (sub32 sent default_sync_allowance) ≡ false
      → sent ≤ now + default_sync_allowance
  sent_close sent now p q g = ground arith

  -- An envelope that `add` lets through was not sent from the future beyond the allowance, has not
  -- expired, is not oversized, and has the proof of work and the topic that the node asks for or
  -- asked for lately; the checks filled its caches and left the rest of it alone.
  pub check_envelope-accepted :
      (now : ℕ) (e r : Envelope P)
      → now + default_sync_allowance < 4294967296
      → check_envelope P now s e ≡ accepted r
      → Admitted P now s e r
  unfolding check_envelope
  check_envelope-accepted now e r bound h =
      let sent : ℕ = sub32 e.expiry e.ttl in
      elim (Bool-cases (ltb now sent)) [
        | inr f ↦
            let (a, b, q) = aged now e (rw f at h) in
            record {
              not_future = ground arith;
              not_expired = a;
              not_oversized = b;
              enough_pow = q.pow;
              in_bloom = q.bloom;
              same_text = q.text;
            }
        | inl f ↦ elim (Bool-cases (ltb now (sub32 sent default_sync_allowance))) [
          | inl g ↦ absurd (ground arith)
          | inr g ↦
              let d : ℕ = u32 (sub32 sent now + 1) in
              let e' : Envelope P = calculate_pow P d e in
              let t = calculate_pow-SameText P d e in
              let (a, b, q) = aged now e' (rw (f, g) at h) in
              let sz = size_same e e' t in
              record {
                not_future = sent_close sent now (omega arith) bound g;
                not_expired = ground (arith, t.expiry);
                not_oversized = ground (arith, sz);
                enough_pow = q.pow;
                in_bloom = q.bloom;
                same_text = SameText-trans t q.text;
              }
        ]
      ]
