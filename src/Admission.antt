-- ===== src/Admission.antt =====
-- The checks that `add` of whisperv6/whisper.go makes before it caches an envelope, in its order.
pub mod Accepted
pub mod Total
use whisper.Base.{
  ℕ, suc, ◌+◌, ◌-◌, List, Bool, true, false, ◌&&◌, Option, none, some, ltb, if◌then◌else◌,
}
use whisper.Bloom.{bloom_filter_match}
use whisper.Constants.{default_sync_allowance}
use whisper.Envelope.{Envelope, u32, sub32, size, calculate_pow, with_pow, with_bloom}
use whisper.Platform.{Platform}
use whisper.Settings.{Settings, min_pow, min_pow_tolerance}

pub data AddError : Type 0 where
  in_future very_old oversized low_pow no_bloom_match : AddError

-- What the checks say of an envelope: it goes on, with its caches filled, it is dropped without an
-- error, it is refused, or a check panics.
pub data Verdict (P : Platform) : Type 0 where
  accepted : Envelope P → Verdict P
  dropped : Verdict P
  rejected : AddError → Verdict P
  crashed : Verdict P

module _ (P : Platform) where
  -- A filter that was just replaced is tolerated.
  unfoldable pub check_bloom : Settings P → Envelope P → Verdict P
  check_bloom s e =
      let (e', b) = with_bloom P e in
      elim (bloom_filter_match s.bloom_filter b) [
        | none ↦ crashed
        | some true ↦ accepted e'
        | some false ↦ elim (bloom_filter_match s.bloom_filter_tolerance b) [
          | none ↦ crashed
          | some true ↦ accepted e'
          | some false ↦ rejected no_bloom_match
        ]
      ]

  -- So is a proof of work that was enough before.
  unfoldable pub check_pow : Settings P → Envelope P → Verdict P
  unfolding min_pow min_pow_tolerance
  check_pow s e =
      if P.lt e.pow (min_pow P s) && P.lt e.pow (min_pow_tolerance P s)
      then rejected low_pow
      else check_bloom s e

  unfoldable pub check_size : Settings P → Envelope P → Verdict P
  unfolding size
  check_size s e =
      if ltb s.max_size (u32 (size P e)) then rejected oversized else check_pow s (with_pow P e)

  unfoldable pub check_age : ℕ → Settings P → Envelope P → Verdict P
  check_age now s e =
      if ltb e.expiry now
      then if ltb (u32 (e.expiry + (default_sync_allowance + default_sync_allowance))) now
        then rejected very_old
        else dropped
      else check_size s e

  -- `sent` and the differences are uint32.
  unfoldable pub check_envelope : ℕ → Settings P → Envelope P → Verdict P
  check_envelope now s e =
      let sent = sub32 e.expiry e.ttl in
      if ltb now sent
      then if ltb now (sub32 sent default_sync_allowance)
        then rejected in_future
        else check_age now s (calculate_pow P (u32 (sub32 sent now + 1)) e)
      else check_age now s e
