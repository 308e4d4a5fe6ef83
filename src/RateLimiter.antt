-- ===== src/RateLimiter.antt =====
-- The rate limiter (whisperv6/rate_limiter.go): what stands between a peer and the message loop. The
-- token buckets of the tb package are an interface; the limits are taken as not negative.
pub mod Relay
pub mod Decorate
use whisper.Base.{
  ℕ, suc, ◌-◌, List, [], ◌∷◌, ◌++◌, Bool, true, false, ◌||◌, Option, none, some, ◌==◌,
  if◌then◌else◌, length, take, replicate,
}
use whisper.Base.Dict.{Text, text_eq}

-- `Throttler`: `halt` takes a key, an amount and a rate, and says whether to halt.
pub record Throttler : Type 1 where
  pub Buckets : Type 0
  pub halt : Buckets → Text → ℕ → ℕ → Buckets × Bool

-- `PeerRateLimiter`, with the three counters of its handler.
pub record PeerRateLimiter (T : Throttler) : Type 0 where
  pub peer_id_throttler : T.Buckets
  pub ip_throttler : T.Buckets
  pub limit_per_sec_ip : ℕ
  pub limit_per_sec_peer_id : ℕ
  pub whitelisted_peer_ids : List (List ℕ)
  pub whitelisted_ips : List Text
  pub processed : ℕ
  pub exceeded_peer_limit : ℕ
  pub exceeded_ip_limit : ℕ

-- `stringSliceContains`; also `enodeIDSliceContains`, of identifiers as their bytes.
unfoldable pub slice_contains : List Text → Text → Bool
slice_contains [] searched = false
slice_contains (item ∷ s) searched = text_eq item searched || slice_contains s searched

-- `copy(id[:], peerID)` into an array of 32 bytes.
abbrev pub enode_id : List ℕ → List ℕ
enode_id b = take 32 (b ++ replicate 32 0)

module _ (T : Throttler) where
  -- `throttleIP`
  unfoldable pub throttle_ip : Text → PeerRateLimiter T → PeerRateLimiter T × Bool
  throttle_ip ip r =
      if r.limit_per_sec_ip == 0
      then (r, false)
      else if slice_contains r.whitelisted_ips ip
      then (r, false)
      else let (b, halted) = T.halt r.ip_throttler ip 1 r.limit_per_sec_ip in
        (record r { ip_throttler = b }, halted)

  -- `throttlePeer`, where `text` is `id.String()`.
  unfoldable pub throttle_peer :
      (List ℕ → Text) → List ℕ → PeerRateLimiter T → PeerRateLimiter T × Bool
  throttle_peer text peer_id r =
      if r.limit_per_sec_ip == 0
      then (r, false)
      else if slice_contains r.whitelisted_peer_ids (enode_id peer_id)
      then (r, false)
      else let (b, halted) =
          T.halt r.peer_id_throttler (text (enode_id peer_id)) 1 r.limit_per_sec_peer_id in
        (record r { peer_id_throttler = b }, halted)

  abbrev pub count_ip : PeerRateLimiter T × Bool → PeerRateLimiter T
  count_ip (r, halted) =
      if halted then record r { exceeded_ip_limit = suc r.exceeded_ip_limit } else r

  abbrev pub count_peer : PeerRateLimiter T × Bool → PeerRateLimiter T
  count_peer (r, halted) =
      if halted then record r { exceeded_peer_limit = suc r.exceeded_peer_limit } else r

  -- What the first goroutine of `decorate` does with a packet before it writes it to the pipe.
  unfoldable pub admit : (List ℕ → Text) → Text → List ℕ → PeerRateLimiter T → PeerRateLimiter T
  unfolding throttle_ip throttle_peer
  admit text ip peer_id r =
      let counted = record r { processed = suc r.processed } in
      count_peer (throttle_peer text peer_id (count_ip (throttle_ip ip counted)))

  -- The packets that reach the message loop.
  unfoldable pub relay :
      {A : Type 0}
      → (List ℕ → Text)
      → Text
      → List ℕ
      → List A
      → PeerRateLimiter T
      → PeerRateLimiter T × List A
  unfolding admit
  relay text ip peer_id [] r = (r, [])
  relay text ip peer_id (packet ∷ packets) r =
      let (r', rest) = relay text ip peer_id packets (admit text ip peer_id r) in
      (r', packet ∷ rest)
