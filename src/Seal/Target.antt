-- ===== src/Seal/Target.antt =====
-- What `Seal` of whisperv6/envelope.go leaves in the envelope: the nonce that it found.
use whisper.Base.{
  ℕ, zero, suc, ◌+◌, ◌*◌, ◌%◌, ◌≤◌, ◌<◌, ◌≡◌, refl, ap, false, ◌&&◌, ltb, leb, arith, Bool-cases,
  inl, inr,
}
use mathlib.Core.Path.{subst}
use whisper.Envelope.{Envelope}
use whisper.Message.{MessageParams}
use whisper.Platform.{Platform}
use whisper.Seal.{
  Search, Round, found, goes_on, mine, Mined, returned, timed_out, running, mine_until, Sealed,
  sealed, too_slow, Round-cases, zeros_of, pow_to_first_bit, finish_seal, search_nonce, seal,
}

module _ (zeros : ℕ → ℕ) (target : ℕ) where
  -- The best count is that of the nonce in the envelope, or less.
  abbrev Backed : Search → Type 0
  Backed s = s.best ≤ zeros s.chosen

  abbrev MeetsRound : Round → Type 0
  MeetsRound (goes_on s) = Backed s
  MeetsRound (found s) = Backed s × (target ≤ s.best)

  abbrev MeetsMined : Mined → Type 0
  MeetsMined running = Unit
  MeetsMined (timed_out s) = Backed s
  MeetsMined (returned s) = Backed s × (target ≤ s.best)

  mine-MeetsRound : (rounds : ℕ) (s : Search) → Backed s → MeetsRound (mine zeros target rounds s)
  unfolding mine
  mine-MeetsRound zero s h = h
  mine-MeetsRound (suc rounds) s h = elim (Bool-cases (ltb s.best (zeros s.nonce))) [
    | inr worse ↦
        rw (worse, mine)
          (mine-MeetsRound rounds (record s { nonce = (s.nonce + 1) % 18446744073709551616 }) h)
    | inl better ↦ elim (Bool-cases (ltb 0 target && leb target (zeros s.nonce))) [
      | inl hit ↦ rw (better, hit, mine) (omega arith, ground arith)
      | inr miss ↦
          rw (better, miss, mine)
            (mine-MeetsRound rounds
              (record {
                nonce = (s.nonce + 1) % 18446744073709551616;
                chosen = s.nonce;
                best = zeros s.nonce;
              })
              (omega arith))
    ]
  ]

  mine_until-MeetsMined :
      (clock : ℕ → ℕ) (finish fuel k : ℕ) (s : Search)
      → Backed s
      → MeetsMined (mine_until zeros target clock finish fuel k s)
  unfolding mine_until
  mine_until-MeetsMined clock finish zero k s h = tt
  mine_until-MeetsMined clock finish (suc fuel) k s h =
      let b = mine-MeetsRound 1024 s h in
      elim (Bool-cases (ltb (clock k) finish)) [
        | inr late ↦ rw (late, mine_until) h
        | inl early ↦ elim (Round-cases (mine zeros target 1024 s)) [
          | inl (s', e) ↦ rw (early, e, mine_until) (subst MeetsRound e b)
          | inr (s', e) ↦
              rw (early, e, mine_until)
                (mine_until-MeetsMined clock finish fuel (suc k) s' (subst MeetsRound e b))
        ]
      ]

module _ (P : Platform) where
  sealed_inj : {e e' : Envelope P} → sealed e ≡ sealed e' → e ≡ e'
  sealed_inj {e} x = ap (λ (r : Sealed P). elim r [ sealed e' ↦ e' | _ ↦ e ]) x

  -- The envelope with another nonce.
  reaches :
      (target n : ℕ) (e e' : Envelope P)
      → record e { nonce = n } ≡ e'
      → target ≤ zeros_of P e n
      → (target ≤ zeros_of P e e'.nonce) × (e' ≡ record e { nonce = e'.nonce })
  reaches target n e e' x h = rw (← x) (h, refl)

  finish_seal-sealed :
      (target : ℕ) (e e' : Envelope P) (m : Mined)
      → 0 < target
      → MeetsMined (zeros_of P e) target m
      → finish_seal P target e m ≡ sealed e'
      → (target ≤ zeros_of P e e'.nonce) × (e' ≡ record e { nonce = e'.nonce })
  unfolding finish_seal
  finish_seal-sealed target e e' running z h x = absurd (ground (arith, x))
  finish_seal-sealed target e e' (returned s) z h x =
      reaches target s.chosen e e' (sealed_inj x) (omega arith)
  finish_seal-sealed target e e' (timed_out s) z h x =
      elim (Bool-cases (ltb 0 target && ltb s.best target)) [
        | inl slow ↦
            let y : ◌≡◌ {A = Sealed P} (too_slow (record e { nonce = s.chosen })) (sealed e') =
              rw slow at x in
            absurd (ground (arith, y))
        | inr enough ↦ reaches target s.chosen e e' (sealed_inj (rw enough at x)) (ground arith)
      ]

  first_bit_pos : (pow : P.Float) (e : Envelope P) → 0 < pow_to_first_bit P pow e
  unfolding pow_to_first_bit
  first_bit_pos pow e = ground arith

  zeros_of_nonce :
      (e e' : Envelope P)
      → e' ≡ record e { nonce = e'.nonce }
      → zeros_of P e' e'.nonce ≡ zeros_of P e e'.nonce
  zeros_of_nonce e e' same = ap (λ x. zeros_of P x e'.nonce) same

  -- Where a proof of work is asked for and `Seal` returns no error, the hash with the nonce that it
  -- leaves has the leading zeros that `powToFirstBit` asks for, and it changed nothing else.
  pub seal_meets_target :
      (fuel : ℕ) (clock : ℕ → ℕ) (options : MessageParams P) (e e' : Envelope P)
      → P.eq options.pow P.zero_pow ≡ false
      → P.lt options.pow P.zero_pow ≡ false
      → seal P fuel clock options e ≡ sealed e'
      → (pow_to_first_bit P options.pow e ≤ zeros_of P e' e'.nonce)
        × (e' ≡ record e { nonce = e'.nonce })
  unfolding seal search_nonce
  seal_meets_target fuel clock options e e' asked positive h =
      let target = pow_to_first_bit P options.pow e in
      let start : Search = record { nonce = 0; chosen = e.nonce; best = 0 } in
      let finish = clock 0 + options.work_time * 1000000000 in
      let mined = mine_until (zeros_of P e) target clock finish fuel 1 start in
      let x : finish_seal P target e mined ≡ sealed e' = rw (asked, positive) at h in
      let (z, same) =
        finish_seal-sealed target e e' mined (first_bit_pos options.pow e)
          (mine_until-MeetsMined (zeros_of P e) target clock finish fuel 1 start (omega arith)) x in
      (rw (zeros_of_nonce e e' same) z, same)
