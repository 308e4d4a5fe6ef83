-- ===== src/Host/Arrived.antt =====
-- The proof of work of an envelope that another node has sent, as `add` of whisperv6/whisper.go
-- computes and judges it.
use whisper.Base.{
  ℕ, ◌+◌, ◌≡◌, ◌≢◌, refl, sym, ◌∙◌, Bool, true, false, ltb, none, some, arith, Bool-cases,
  Option-cases, inl, inr, some_inj,
}
use whisper.Admission.{
  low_pow, Verdict, accepted, dropped, rejected, crashed, check_bloom, check_pow, check_size,
  check_age, check_envelope,
}
use whisper.Bloom.{bloom_filter_match}
use whisper.Constants.{default_sync_allowance}
use whisper.Envelope.{Envelope, u32, sub32, size, calculate_pow, with_pow, with_bloom}
use whisper.Node.{Node, Effect, done, waits, panics, Added, add, add_checked}
use whisper.Node.Add.{error_none}
use whisper.Platform.{Platform}
use whisper.Settings.{Settings, min_pow}
use whisper.Sets.{Sets}

module _ (P : Platform) where
  -- It may be refused, but not for its proof of work.
  abbrev EnoughPow : Verdict P → Type 0
  EnoughPow (accepted e) = Unit
  EnoughPow dropped = Unit
  EnoughPow (rejected x) = x ≢ low_pow
  EnoughPow crashed = Unit

  check_bloom-EnoughPow : (s : Settings P) (e : Envelope P) → EnoughPow (check_bloom P s e)
  unfolding check_bloom
  check_bloom-EnoughPow s e =
      let b = (with_bloom P e).1 in
      elim (Option-cases (bloom_filter_match s.bloom_filter b)) [
        | inl n ↦ rw (n, check_bloom) tt
        | inr (true, n) ↦ rw (n, check_bloom) tt
        | inr (false, n) ↦ elim (Option-cases (bloom_filter_match s.bloom_filter_tolerance b)) [
          | inl m ↦ rw (n, m, check_bloom) tt
          | inr (true, m) ↦ rw (n, m, check_bloom) tt
          | inr (false, m) ↦ rw (n, m, check_bloom) (λ h. absurd (ground (arith, h)))
        ]
      ]

  check_size-EnoughPow :
      (s : Settings P) (e : Envelope P)
      → P.lt (with_pow P e).pow (min_pow P s) ≡ false
      → EnoughPow (check_size P s e)
  unfolding check_size check_pow
  check_size-EnoughPow s e h = elim (Bool-cases (ltb s.max_size (u32 (size P e)))) [
    | inl c ↦ rw (c, check_size) (λ h. absurd (ground (arith, h)))
    | inr c ↦ rw (c, h, check_size, check_pow) (check_bloom-EnoughPow s (with_pow P e))
  ]

  check_age-EnoughPow :
      (now : ℕ) (s : Settings P) (e : Envelope P)
      → P.lt (with_pow P e).pow (min_pow P s) ≡ false
      → EnoughPow (check_age P now s e)
  unfolding check_age
  check_age-EnoughPow now s e h = elim (Bool-cases (ltb e.expiry now)) [
    | inr c ↦ rw (c, check_age) (check_size-EnoughPow s e h)
    | inl c ↦
        elim (Bool-cases
          (ltb (u32 (e.expiry + (default_sync_allowance + default_sync_allowance))) now)) [
            | inl d ↦ rw (c, d, check_age) (λ h. absurd (ground (arith, h)))
            | inr d ↦ rw (c, d, check_age) tt
          ]
  ]

  check_envelope-EnoughPow :
      (now : ℕ) (s : Settings P) (e : Envelope P)
      → ltb now (sub32 e.expiry e.ttl) ≡ false
      → P.lt (with_pow P e).pow (min_pow P s) ≡ false
      → EnoughPow (check_envelope P now s e)
  unfolding check_envelope
  check_envelope-EnoughPow now s e t h = rw (t, check_envelope) (check_age-EnoughPow now s e h)

  -- Not sent after the time at hand, and with a cached proof of work, if any, that is the one for no
  -- difference of time.
  pub record Timely (now : ℕ) (e : Envelope P) : Type 0 where
    pub sent_before : ltb now (sub32 e.expiry e.ttl) ≡ false
    pub pow_eq : (with_pow P e).pow ≡ (calculate_pow P 0 e).pow

  -- The envelope as a node decodes it, whose proof of work is computed anew.
  abbrev pub decoded : ℕ → Envelope P → Envelope P
  decoded h e = record e { pow = P.zero_pow; hash = h; bloom = none }

  pow-decoded :
      (h : ℕ) (e : Envelope P)
      → P.eq P.zero_pow P.zero_pow ≡ true
      → (with_pow P (decoded h e)).pow ≡ (calculate_pow P 0 e).pow
  unfolding with_pow calculate_pow
  pow-decoded h e zero = rw (zero, with_pow) refl

module _ (P : Platform) (S : Sets) where
  -- A call of `add` that does not return the error of a low proof of work.
  abbrev pub NoLowPow : Effect (Added P S) → Type 0
  NoLowPow (done r) = r.error ≢ some low_pow
  NoLowPow waits = Unit
  NoLowPow panics = Unit

  after_add_checked :
      (b : Bool) (e : Envelope P) (n : Node P S) (m : Effect (Added P S))
      → add_checked P S b e n ≡ m
      → NoLowPow m
  after_add_checked b e n (done r) g = rw (error_none P S b e n g) (λ h. absurd (ground (arith, h)))
  after_add_checked b e n waits g = tt
  after_add_checked b e n panics g = tt

  after_checks :
      (now : ℕ) (b : Bool) (e : Envelope P) (n : Node P S) (v : Verdict P)
      → check_envelope P now n.settings e ≡ v
      → EnoughPow P v
      → NoLowPow (add P S now b e n)
  unfolding add
  after_checks now b e n (accepted e') x k = rw (x, add) (after_add_checked b e' n _ refl)
  after_checks now b e n dropped x k = rw (x, add) (λ h. absurd (ground (arith, h)))
  after_checks now b e n (rejected y) x k = rw (x, add) (λ h. k (some_inj h))
  after_checks now b e n crashed x k = rw (x, add) tt

  pub add-NoLowPow :
      (now : ℕ) (b : Bool) (e : Envelope P) (n : Node P S) (h : ℕ)
      → P.eq P.zero_pow P.zero_pow ≡ true
      → Timely P now e
      → P.lt (with_pow P e).pow (min_pow P n.settings) ≡ false
      → NoLowPow (add P S now b (decoded P h e) n)
  add-NoLowPow now b e n h zero k low = after_checks now b (decoded P h e) n _ refl (
      check_envelope-EnoughPow P now n.settings (decoded P h e) k.sent_before
        (rw (pow-decoded P h e zero ∙ sym k.pow_eq) low))
