-- ===== src/Seal.antt =====
-- The search for a proof of work: `Seal` and `powToFirstBit` of whisperv6/envelope.go.
pub mod Target
pub mod Ends
use whisper.Base.{
  ℕ, zero, suc, ◌+◌, ◌-◌, ◌*◌, ◌%◌, ◌++◌, Bool, true, false, ◌&&◌, ltb, leb, if◌then◌else◌, length,
  ◌≡◌, ◌⊎◌, inl, inr, refl,
}
use whisper.Envelope.{Envelope, u32, size, without_nonce, big_bytes, bit_len}
use whisper.Message.{MessageParams}
use whisper.Platform.{Platform}

-- The variables of the two loops: the next nonce, the one in the envelope, and its leading zeros.
pub record Search : Type 0 where
  pub nonce : ℕ
  pub chosen : ℕ
  pub best : ℕ

-- Whether the search has ended with `return nil` inside the loops.
pub data Round : Type 0 where
  found : Search → Round
  goes_on : Search → Round

pub Round-cases : (r : Round) → ((s : Search) × (r ≡ found s)) ⊎ ((s : Search) × (r ≡ goes_on s))
Round-cases (found s) = inl (s, refl)
Round-cases (goes_on s) = inr (s, refl)

-- The inner loop, over the rounds that are left; `zeros` are the leading zeros of the hash with a
-- nonce.
unfoldable pub mine : (ℕ → ℕ) → ℕ → ℕ → Search → Round
mine zeros target zero s = goes_on s
mine zeros target (suc rounds) s = elim (ltb s.best (zeros s.nonce)) [
  | false ↦ mine zeros target rounds (record s { nonce = (s.nonce + 1) % 18446744073709551616 })
  | true ↦ elim (ltb 0 target && leb target (zeros s.nonce)) [
    | true ↦ found (record s { chosen = s.nonce; best = zeros s.nonce })
    | false ↦ mine zeros target rounds (record {
      nonce = (s.nonce + 1) % 18446744073709551616;
      chosen = s.nonce;
      best = zeros s.nonce;
    })
  ]
]

-- How the outer loop ends: inside, at the time limit, or it is still running when the fuel is used up.
pub data Mined : Type 0 where
  returned : Search → Mined
  timed_out : Search → Mined
  running : Mined

-- The outer loop; `clock k` is the `k`-th reading of the clock.
unfoldable pub mine_until : (ℕ → ℕ) → ℕ → (ℕ → ℕ) → ℕ → ℕ → ℕ → Search → Mined
unfolding mine
mine_until zeros target clock finish zero k s = running
mine_until zeros target clock finish (suc fuel) k s = elim (ltb (clock k) finish) [
  | false ↦ timed_out s
  | true ↦ elim (mine zeros target 1024 s) [
    | found s' ↦ returned s'
    | goes_on s' ↦ mine_until zeros target clock finish fuel (suc k) s'
  ]
]

pub data Sealed (P : Platform) : Type 0 where
  sealed : Envelope P → Sealed P
  too_slow : Envelope P → Sealed P
  unfinished : Sealed P

module _ (P : Platform) where
  -- `256 - asAnInt.BitLen()` for the hash of the envelope with a nonce.
  abbrev pub zeros_of : Envelope P → ℕ → ℕ
  zeros_of e nonce = 256 - bit_len 256 (P.keccak256 (without_nonce P e ++ big_bytes 8 nonce))

  -- `powToFirstBit`
  unfoldable pub pow_to_first_bit : P.Float → Envelope P → ℕ
  unfolding size
  pow_to_first_bit pow e =
      let x = P.mul (P.mul pow (P.of_uint (size P e))) (P.of_uint e.ttl) in
      if ltb (P.ceil_log2 x) 1 then 1 else P.ceil_log2 x

  -- What `Seal` does after its loops.
  unfoldable pub finish_seal : ℕ → Envelope P → Mined → Sealed P
  finish_seal target e running = unfinished
  finish_seal target e (returned s) = sealed (record e { nonce = s.chosen })
  finish_seal target e (timed_out s) =
      if ltb 0 target && ltb s.best target
      then too_slow (record e { nonce = s.chosen })
      else sealed (record e { nonce = s.chosen })

  -- The loops, for a target, or none as 0.
  unfoldable pub search_nonce : ℕ → (ℕ → ℕ) → ℕ → ℕ → Envelope P → Sealed P
  unfolding mine_until finish_seal
  search_nonce fuel clock work_time target e = finish_seal target e (
      mine_until (zeros_of e) target clock (clock 0 + work_time * 1000000000) fuel 1
        (record { nonce = 0; chosen = e.nonce; best = 0 }))

  -- `Seal`. The first reading of the clock sets the time limit.
  unfoldable pub seal : ℕ → (ℕ → ℕ) → MessageParams P → Envelope P → Sealed P
  unfolding search_nonce pow_to_first_bit
  seal fuel clock options e =
      if P.eq options.pow P.zero_pow
      then sealed e
      else if P.lt options.pow P.zero_pow
      then search_nonce fuel clock options.work_time 0
          (record e { expiry = u32 (e.expiry + options.work_time) })
      else search_nonce fuel clock options.work_time (pow_to_first_bit options.pow e) e
