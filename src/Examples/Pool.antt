-- ===== src/Examples/Pool.antt =====
-- A pool with one envelope of expiry 20.
use whisper.Base.{ℕ, suc, ◌+◌, ◌≡◌, [], ◌∷◌, none, some}
use whisper.Base.Assoc.{lookup}
use whisper.Envelope.{Envelope}
use whisper.Pool.{Pool, empty_pool, cache_envelope, expire}
use whisper.Pool.Expire.{expire_exact, unexpired}
use whisper.Pool.Invariant.{IsValid, empty_pool-IsValid, cache_envelope-IsValid}
use whisper.Examples.Values.{numbers, lists}

abbrev envelope : Envelope numbers
envelope = record {
  expiry = 20;
  ttl = 10;
  topic = record { b0 = 1; b1 = 2; b2 = 3; b3 = 4 };
  content = 1 ∷ 2 ∷ 3 ∷ [];
  nonce = 0;
  pow = 5;
  hash = 77;
  bloom = none;
}

pool : Pool numbers lists
pool = (cache_envelope numbers lists 77 envelope (empty_pool numbers lists)).0

pool-IsValid : IsValid pool
unfolding pool
pool-IsValid =
    cache_envelope-IsValid numbers lists 77 envelope (empty_pool numbers lists)
      (empty_pool-IsValid numbers lists)

expire_exact_example :
    (q : Pool numbers lists) × (expire numbers lists 21 pool ≡ some q)
    × IsValid q
    × ((h : ℕ) → lookup h q.envelopes ≡ unexpired numbers lists 21 (lookup h pool.envelopes))
    × (q.stats.memory_used + q.stats.memory_cleared ≡ pool.stats.memory_used)
    × (q.stats.cycles ≡ suc pool.stats.cycles)
    × (q.stats.total_messages_cleared
        ≡ pool.stats.total_messages_cleared + pool.stats.messages_cleared)
expire_exact_example = expire_exact numbers lists 21 pool pool-IsValid
