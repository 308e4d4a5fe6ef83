-- ===== src/Seal/Ends.antt =====
-- `Seal` of whisperv6/envelope.go ends, by its clock.
use whisper.Base.{
  ℕ, zero, suc, ◌+◌, ◌*◌, ◌≤◌, ◌<◌, ◌≡◌, ◌≢◌, ap, true, ◌&&◌, ◌==◌, ==_iff, ltb, arith, Bool-cases,
  inl, inr, refl,
}
use whisper.Envelope.{Envelope, u32}
use whisper.Message.{MessageParams}
use whisper.Platform.{Platform}
use whisper.Seal.{
  Search, mine, Mined, returned, timed_out, running, mine_until, unfinished, Round-cases, zeros_of,
  pow_to_first_bit, finish_seal, search_nonce, seal,
}

module _ (zeros : ℕ → ℕ) (target : ℕ) (clock : ℕ → ℕ) (finish : ℕ) where
  early_lt : (k n : ℕ) → k ≤ n → ltb (clock k) finish ≡ true → finish ≤ clock n → k < n
  early_lt k n h early late = elim (Bool-cases (k == n)) [
    | inr ne ↦ ground arith
    | inl same ↦ let e : clock k ≡ clock n = ap clock ((==_iff k n).0 same) in absurd (ground arith)
  ]

  -- Fuel up to a reading of the clock past the limit is enough.
  mine_until-ne :
      (fuel k n : ℕ) (s : Search)
      → k ≤ n
      → n < k + fuel
      → finish ≤ clock n
      → mine_until zeros target clock finish fuel k s ≢ running
  unfolding mine_until
  mine_until-ne zero k n s h i late = absurd (omega arith)
  mine_until-ne (suc fuel) k n s h i late = elim (Bool-cases (ltb (clock k) finish)) [
    | inr out ↦ rw (out, mine_until) (λ x. ground (arith, x))
    | inl early ↦ elim (Round-cases (mine zeros target 1024 s)) [
      | inl (s', e) ↦ rw (early, e, mine_until) (λ x. ground (arith, x))
      | inr (s', e) ↦
          rw (early, e, mine_until)
            (mine_until-ne fuel (suc k) n s' (early_lt k n h early late) (omega arith) late)
    ]
  ]

module _ (P : Platform) where
  finish_seal-ne :
      (target : ℕ) (e : Envelope P) (m : Mined)
      → m ≢ running
      → finish_seal P target e m ≢ unfinished
  unfolding finish_seal
  finish_seal-ne target e running n = absurd (n refl)
  finish_seal-ne target e (returned s) n = λ x. ground (arith, x)
  finish_seal-ne target e (timed_out s) n = elim (Bool-cases (ltb 0 target && ltb s.best target)) [
    | inl slow ↦ rw slow (λ x. ground (arith, x))
    | inr fast ↦ rw fast (λ x. ground (arith, x))
  ]

  search_nonce-ne :
      (fuel : ℕ) (clock : ℕ → ℕ) (work_time target n : ℕ) (e : Envelope P)
      → 0 < n
      → n ≤ fuel
      → clock 0 + work_time * 1000000000 ≤ clock n
      → search_nonce P fuel clock work_time target e ≢ unfinished
  unfolding search_nonce
  search_nonce-ne fuel clock work_time target n e z h late =
      let start : Search = record { nonce = 0; chosen = e.nonce; best = 0 } in
      let finish = clock 0 + work_time * 1000000000 in
      finish_seal-ne target e (mine_until (zeros_of P e) target clock finish fuel 1 start) (
        mine_until-ne (zeros_of P e) target clock finish fuel 1 n start (omega arith) (omega arith)
          late)

  -- `Seal` ends, and not later than at the first reading of the clock past its time limit: fuel for
  -- as many readings is enough, whether or not a proof of work is asked for.
  pub seal_ends :
      (fuel : ℕ) (clock : ℕ → ℕ) (options : MessageParams P) (e : Envelope P) (n : ℕ)
      → 0 < n
      → n ≤ fuel
      → clock 0 + options.work_time * 1000000000 ≤ clock n
      → seal P fuel clock options e ≢ unfinished
  unfolding seal
  seal_ends fuel clock options e n z h late = elim (Bool-cases (P.eq options.pow P.zero_pow)) [
    | inl unasked ↦ rw unasked (λ x. ground (arith, x))
    | inr asked ↦ elim (Bool-cases (P.lt options.pow P.zero_pow)) [
      | inl free ↦
          let e' : Envelope P = record e { expiry = u32 (e.expiry + options.work_time) } in
          rw (asked, free) (search_nonce-ne fuel clock options.work_time 0 n e' z h late)
      | inr bound ↦
          let target = pow_to_first_bit P options.pow e in
          rw (asked, bound) (search_nonce-ne fuel clock options.work_time target n e z h late)
    ]
  ]
