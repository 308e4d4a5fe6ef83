-- ===== src/RateLimiter/Relay.antt =====
-- What `decorate` of whisperv6/rate_limiter.go lets through, and what it counts.
use whisper.Base.{
  ℕ, suc, ◌+◌, ◌≡◌, refl, ap, ◌∙◌, List, [], ◌∷◌, Bool, true, false, ◌==◌, length, arith,
  if◌then◌else◌,
}
use whisper.Base.Dict.{Text}
use whisper.RateLimiter.{
  Throttler, PeerRateLimiter, throttle_ip, throttle_peer, admit, relay, count_ip, count_peer,
}

if_true : {A : Type 0} (b : Bool) (x y : A) → b ≡ true → (if b then x else y) ≡ x
if_true b x y c = rw c refl

module _ (T : Throttler) (text : List ℕ → Text) (ip : Text) (peer_id : List ℕ) where
  relay_packets :
      {A : Type 0} (packets : List A) (r : PeerRateLimiter T)
      → (relay T text ip peer_id packets r).1 ≡ packets
  unfolding relay
  relay_packets [] r = refl
  relay_packets (p ∷ ps) r = ap (λ l. p ∷ l) (relay_packets ps (admit T text ip peer_id r))

  throttle_ip_unlimited :
      (r : PeerRateLimiter T) → (r.limit_per_sec_ip == 0) ≡ true → throttle_ip T ip r ≡ (r, false)
  unfolding throttle_ip
  throttle_ip_unlimited r c = if_true _ _ _ c

  throttle_peer_unlimited :
      (r : PeerRateLimiter T)
      → (r.limit_per_sec_ip == 0) ≡ true
      → throttle_peer T text peer_id r ≡ (r, false)
  unfolding throttle_peer
  throttle_peer_unlimited r c = if_true _ _ _ c

  admit_unlimited :
      (r : PeerRateLimiter T)
      → r.limit_per_sec_ip ≡ 0
      → admit T text ip peer_id r ≡ record r { processed = suc r.processed }
  unfolding admit
  admit_unlimited r z =
      let c : (r.limit_per_sec_ip == 0) ≡ true = ground arith in
      let r' : PeerRateLimiter T = record r { processed = suc r.processed } in
      ap (λ x. count_peer T (throttle_peer T text peer_id (count_ip T x)))
        (throttle_ip_unlimited r' c)
      ∙ ap (count_peer T) (throttle_peer_unlimited r' c)

  relay_unlimited :
      {A : Type 0} (packets : List A) (r : PeerRateLimiter T)
      → r.limit_per_sec_ip ≡ 0
      → (relay T text ip peer_id packets r).0
        ≡ record r { processed = length packets + r.processed }
  unfolding relay
  relay_unlimited [] r z =
      let n : r.processed ≡ 0 + r.processed = omega arith in ap (λ k. record r { processed = k }) n
  relay_unlimited (p ∷ ps) r z =
      let r' : PeerRateLimiter T = record r { processed = suc r.processed } in
      let n : length ps + suc r.processed ≡ suc (length ps) + r.processed = omega arith in
      ap (λ s. (relay T text ip peer_id ps s).0) (admit_unlimited r z)
      ∙ relay_unlimited ps r' z
      ∙ ap (λ k. record r { processed = k }) n

-- Whatever the token buckets answer, every packet reaches the message loop, in order: a limit that is
-- exceeded is only counted. And with a limit of 0 for addresses neither limit is looked at, whatever
-- the limit for peers is: the packets are counted as processed and nothing else changes.
pub relay_forwards :
    {A : Type 0} (T : Throttler) (text : List ℕ → Text) (ip : Text) (peer_id : List ℕ)
    (packets : List A) (r s : PeerRateLimiter T)
    → s.limit_per_sec_ip ≡ 0
    → ((relay T text ip peer_id packets r).1 ≡ packets)
      × ((relay T text ip peer_id packets s).0
          ≡ record s { processed = length packets + s.processed })
relay_forwards T text ip peer_id packets r s z =
    (relay_packets T text ip peer_id packets r, relay_unlimited T text ip peer_id packets s z)
