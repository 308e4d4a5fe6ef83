-- ===== src/Examples/Nodes.antt =====
-- A node that admits one envelope.
use whisper.Base.{
  ℕ, ◌+◌, ◌≡◌, ◌≤◌, ◌<◌, ◌⊎◌, refl, List, [], ◌∷◌, Bool, true, false, Option, none, some, arith,
  replicate, length, All,
}
use whisper.Base.Outcome.{ok}
use whisper.Admission.{check_envelope, accepted}
use whisper.Admission.Accepted.{Admitted, check_envelope-accepted}
use whisper.Bloom.{bloom_filter_match, topic_to_bloom}
use whisper.Constants.{bloom_filter_size}
use whisper.Envelope.{Envelope}
use whisper.Node.{envelope_item, Node, Added, Effect, done, add}
use whisper.Node.Add.{Posted, add_outcome}
use whisper.Pool.{empty_pool, cache_envelope}
use whisper.Settings.{Settings, update_bloom_filter}
use whisper.Settings.Subscription.{IsSized, update_bloom_filter_covers}
use whisper.Topic.{bytes_to_topic}
use whisper.Examples.Values.{numbers, lists}

abbrev pub settings : Settings numbers
settings = record {
  min_pow = some 2;
  min_pow_tolerance = none;
  bloom_filter = some (replicate 64 255);
  bloom_filter_tolerance = none;
  max_size = 1000;
  overflow = false;
  light_client = none;
  restrict_light_clients = none;
}

abbrev pub letter : Envelope numbers
letter = record {
  expiry = 20;
  ttl = 10;
  topic = record { b0 = 1; b1 = 2; b2 = 3; b3 = 4 };
  content = 1 ∷ 2 ∷ 3 ∷ [];
  nonce = 0;
  pow = 5;
  hash = 77;
  bloom = some (replicate 64 1);
}

abbrev pub node : Node numbers lists
node = record {
  settings = settings;
  pool = empty_pool numbers lists;
  message_queue = [];
  p2p_msg_queue = [];
  mail_server = true;
  archived = [];
  disable_confirmations = false;
}

letter_accepted : check_envelope numbers 15 settings letter ≡ accepted letter
unfolding check_envelope whisper.Admission.check_age whisper.Admission.check_size
    whisper.Admission.check_pow whisper.Envelope.with_pow whisper.Admission.check_bloom
    bloom_filter_match whisper.Envelope.with_bloom
letter_accepted = refl

check_envelope-accepted_example : Admitted numbers 15 settings letter letter
check_envelope-accepted_example =
    check_envelope-accepted numbers settings 15 letter letter (omega arith) letter_accepted

adds : (r : Added numbers lists) × (add numbers lists 15 true letter node ≡ done r)
unfolding add check_envelope whisper.Admission.check_age whisper.Admission.check_size
    whisper.Admission.check_pow whisper.Envelope.with_pow whisper.Admission.check_bloom
    bloom_filter_match whisper.Envelope.with_bloom whisper.Node.add_checked
    whisper.Pool.cache_envelope whisper.Base.Assoc.lookup whisper.Node.post_event
    whisper.Node.post_p2p
adds = (_, refl)

add_outcome_example :
    ((adds.0.cached ≡ false) × (adds.0.node ≡ node))
    ⊎ ((adds.0.cached ≡ true) × Posted numbers lists true node adds.0)
unfolding adds
add_outcome_example = add_outcome numbers lists 15 true letter node adds.1

abbrev topics : List (List ℕ)
topics = (1 ∷ 2 ∷ 3 ∷ 4 ∷ []) ∷ (9 ∷ []) ∷ []

abbrev unset : Settings numbers
unset = record settings { bloom_filter = some (replicate 64 0) }

update_bloom_filter_covers_example :
    (s' : Settings numbers) × (update_bloom_filter numbers topics unset ≡ ok s')
    × IsSized s'.bloom_filter
    × All
        (λ t. bloom_filter_match s'.bloom_filter (topic_to_bloom (bytes_to_topic t)) ≡ some true)
        topics
    × ((sample : List ℕ)
        → length sample ≡ bloom_filter_size
        → bloom_filter_match unset.bloom_filter sample ≡ some true
        → bloom_filter_match s'.bloom_filter sample ≡ some true)
update_bloom_filter_covers_example = update_bloom_filter_covers numbers topics unset refl
