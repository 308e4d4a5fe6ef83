-- ===== src/Examples/Running.antt =====
-- Sessions and runs of a node.
use whisper.Base.{
  ℕ, ◌≡◌, ◌+◌, ltb, refl, none_is_some, List, [], ◌∷◌, Bool, true, false, Option, none, some, arith,
  All, length, replicate,
}
use whisper.Envelope.{Envelope}
use whisper.Filters.{get_watchers_by_topic}
use whisper.Filters.Polls.{empty-IsKeyed}
use whisper.Host.{Host}
use whisper.Host.Orderly.{IsOrderly}
use whisper.Host.Reach.{Reach-IsOrderly}
use whisper.Host.Steps.{sends, stays, steps}
use whisper.Node.{Node, Added, Effect, done, add, send}
use whisper.Node.Total.{add_total}
use whisper.Packets.{
  Packet, p2p_message_body, messages_body, bloom_filter_ex_body, single, Session, Outside,
  LoopError,
}
use whisper.Packets.Cases.{run_message_loop}
use whisper.Packets.Sound.{IsSound, run_message_loop-IsSound}
use whisper.Packets.Untrusted.{untrusted_posts_nothing}
use whisper.Peer.{new_peer}
use whisper.Peer.Filter.{new_peer-IsTestable}
use whisper.Pool.Invariant.{empty_pool-IsValid}
use whisper.RateLimiter.{Throttler, PeerRateLimiter, relay}
use whisper.RateLimiter.Relay.{relay_forwards}
use whisper.Examples.Nodes.{letter, node}
use whisper.Examples.Values.{numbers, lists}

add_total_example : (r : Added numbers lists) × (add numbers lists 15 true letter node ≡ done r)
add_total_example =
    add_total numbers lists 15 true letter node refl tt refl
      (record { message_room = omega arith; p2p_room = omega arith })

abbrev around : Outside
around = record { describe = λ e. []; sync_error = λ r. none }

abbrev session : Session numbers lists
session = record { node = node; peer = new_peer numbers lists 4; outgoing = []; calls = [] }

-- A direct message, a batch, and a bloom filter of a wrong size, which ends the session.
abbrev packets : List (Packet numbers)
packets =
    record { size = 3; body = p2p_message_body (some (single letter)) }
    ∷ record { size = 3; body = messages_body (some (9, (15, letter) ∷ [])) }
    ∷ record { size = 3; body = bloom_filter_ex_body (some (1 ∷ [])) }
    ∷ []

runs :
    (r : Session numbers lists × LoopError) × (run_message_loop numbers lists around packets session
      ≡ done r)
unfolding run_message_loop new_peer whisper.Protocol.receive_loop add
    whisper.Admission.check_envelope whisper.Admission.check_age whisper.Admission.check_size
    whisper.Admission.check_pow whisper.Envelope.with_pow whisper.Admission.check_bloom
    whisper.Bloom.bloom_filter_match whisper.Envelope.with_bloom whisper.Node.add_checked
    whisper.Pool.cache_envelope whisper.Base.Assoc.lookup whisper.Node.post_event
    whisper.Settings.light_client_mode whisper.Node.archive whisper.Settings.check_overflow
runs = (_, refl)

session-IsSound : IsSound session
session-IsSound = record {
  valid = empty_pool-IsValid numbers lists;
  testable = new_peer-IsTestable numbers lists 4;
}

run_message_loop-IsSound_example : IsSound runs.0.0
unfolding runs
run_message_loop-IsSound_example =
    run_message_loop-IsSound numbers lists around packets session session-IsSound runs.1

untrusted_posts_nothing_example :
    (runs.0.0.peer.trusted ≡ false) × (runs.0.0.node.p2p_msg_queue ≡ [])
unfolding runs new_peer whisper.Settings.light_client_mode
untrusted_posts_nothing_example =
    untrusted_posts_nothing numbers lists around packets session refl refl runs.1

abbrev host : Host numbers lists
host = record {
  node = node;
  peers = [];
  filters = record { watchers = []; topic_matcher = λ t. []; all_topics_matcher = []; heap = [] };
  inbox = [];
  stores = λ a. [];
  sent = [];
}

host-IsOrderly : IsOrderly host
unfolding get_watchers_by_topic whisper.Base.Assoc.lookup
host-IsOrderly = record {
  valid = empty_pool-IsValid numbers lists;
  testable = tt;
  bounded = record { messages = omega arith; directs = omega arith };
  fair = tt;
  backed = record { backed = λ t a h. absurd (ground (arith, h)) };
  housed = record {
    addressed = λ a f h. absurd (none_is_some h);
    watched = λ id f h. absurd (none_is_some h);
  };
  stocked = record { keyed = λ a. empty-IsKeyed numbers; stock = λ a. tt };
}

sends_letter : (r : Node numbers lists × Bool) × (send numbers lists 15 letter node ≡ done r)
unfolding send whisper.Admission.check_envelope whisper.Admission.check_age
    whisper.Admission.check_size whisper.Admission.check_pow whisper.Envelope.with_pow
    whisper.Admission.check_bloom whisper.Bloom.bloom_filter_match whisper.Envelope.with_bloom
    whisper.Node.add_checked whisper.Pool.cache_envelope whisper.Base.Assoc.lookup
    whisper.Node.post_event
sends_letter = (_, refl)

Reach-IsOrderly_example : IsOrderly (record host { node = sends_letter.0.0 })
Reach-IsOrderly_example =
    Reach-IsOrderly numbers lists host
      (steps host (record host { node = sends_letter.0.0 }) stays
        (sends 15 letter sends_letter.0 sends_letter.1))
      host-IsOrderly

-- Buckets that count their calls and let one through.
abbrev one_each : Throttler
one_each = record { Buckets = ℕ; halt = λ n key amount rate. (n + amount, ltb 0 n) }

abbrev limiter : PeerRateLimiter one_each
limiter = record {
  peer_id_throttler = 0;
  ip_throttler = 0;
  limit_per_sec_ip = 10;
  limit_per_sec_peer_id = 5;
  whitelisted_peer_ids = [];
  whitelisted_ips = [];
  processed = 0;
  exceeded_peer_limit = 0;
  exceeded_ip_limit = 0;
}

abbrev peers_only : PeerRateLimiter one_each
peers_only = record limiter { limit_per_sec_ip = 0 }

abbrev numbered : List ℕ
numbered = 7 ∷ 8 ∷ 9 ∷ []

relay_forwards_example :
    ((relay one_each (λ b. b) (1 ∷ []) (2 ∷ []) numbered limiter).1 ≡ numbered)
    × ((relay one_each (λ b. b) (1 ∷ []) (2 ∷ []) numbered peers_only).0
        ≡ record peers_only { processed = 3 })
relay_forwards_example =
    relay_forwards one_each (λ b. b) (1 ∷ []) (2 ∷ []) numbered limiter peers_only refl
