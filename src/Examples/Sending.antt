-- ===== src/Examples/Sending.antt =====
-- Keys, the search for a proof of work, a message that is posted, and the filters of the API.
use whisper.Base.{
  ℕ, suc, ◌+◌, ◌*◌, ◌≡◌, ◌≢◌, ◌≤◌, refl, List, [], ◌∷◌, Bool, true, false, Option, none, some,
  arith, All, length, replicate, map, if◌then◌else◌,
}
use whisper.Api.{Elsewhere, NewMessage, Posting, posted, post}
use whisper.Api.Aliased.{subscribed_topics_alias}
use whisper.Api.Criteria.{Criteria, polled_filter, subscribed_filter}
use whisper.Api.Slices.{topic_bytes}
use whisper.Api.Posted.{post_delivers}
use whisper.Base.Dict.{Text, find, text_eq}
use whisper.Base.Outcome.{ok}
use whisper.Constants.{signature_length}
use whisper.Encryption.{generate_secure_random_data}
use whisper.Envelope.{Envelope, with_hash}
use whisper.Filters.{Filter, open_for, notify_watchers}
use whisper.Filters.Delivery.{Served, notify_watchers-Served}
use whisper.Host.{Host}
use whisper.Keys.{
  KeyStore, add_key_pair, add_sym_key, add_sym_key_direct, get_private_key, get_sym_key,
  delete_key_pair,
}
use whisper.Keys.Pairs.{add_key_pair_lem}
use whisper.Keys.Symmetric.{direct, Fresh, AddedBy-Fresh}
use whisper.Message.{MessageParams, ReceivedMessage, new_sent_message}
use whisper.Node.{done, send}
use whisper.Seal.{sealed, unfinished, seal, zeros_of, pow_to_first_bit}
use whisper.Seal.Ends.{seal_ends}
use whisper.Seal.Target.{seal_meets_target}
use whisper.Topic.{Topic}
use whisper.Wrap.{wrapped, Surroundings, wrap}
use whisper.Wrap.Roundtrip.{Delivered, open-wrap}
use whisper.Examples.Nodes.{node}
use whisper.Examples.Values.{numbers, lists, length-double}

abbrev no_keys : KeyStore numbers
no_keys = record { private_keys = []; sym_keys = [] }

abbrev pub sym_key : List ℕ
sym_key = replicate 32 1

adds_pair : (r : KeyStore numbers × Text) × (add_key_pair numbers 5 no_keys ≡ ok r)
unfolding add_key_pair whisper.Keys.make_deterministic_id whisper.Bytes.validate_data_integrity
    whisper.Bytes.contains_only_zeros whisper.Keys.has_key_pair whisper.Keys.to_deterministic_id
    find
adds_pair = (_, refl)

add_key_pair_lem_example :
    (length adds_pair.0.1 ≡ 64)
    × (get_private_key numbers adds_pair.0.1 adds_pair.0.0 ≡ ok 5)
    × ((j : Text)
        → text_eq adds_pair.0.1 j ≡ false
        → find j adds_pair.0.0.private_keys ≡ find j no_keys.private_keys)
    × (add_key_pair numbers 5 adds_pair.0.0 ≡ ok adds_pair.0)
    × ((delete_key_pair numbers adds_pair.0.1 adds_pair.0.0).1 ≡ true)
    × ((j : Text)
        → find j (delete_key_pair numbers adds_pair.0.1 adds_pair.0.0).0.private_keys
          ≡ (if text_eq adds_pair.0.1 j then none else find j no_keys.private_keys))
unfolding find
add_key_pair_lem_example =
    add_key_pair_lem numbers length-double 5 no_keys adds_pair.0.0 adds_pair.0.1 adds_pair.1

abbrev random_id : List ℕ
random_id = replicate 32 2

adds_key :
    (r : KeyStore numbers × Text) × (add_sym_key_direct numbers
        (some random_id)
        (some sym_key)
        sym_key
        no_keys
      ≡ ok r)
unfolding add_sym_key_direct whisper.Keys.generate_random_id
    whisper.Encryption.generate_secure_random_data whisper.Bytes.validate_data_integrity
    whisper.Bytes.contains_only_zeros whisper.Keys.put_sym_key find
adds_key = (_, refl)

AddedBy-Fresh_example : Fresh numbers no_keys (some sym_key) adds_key.0.0 adds_key.0.1
AddedBy-Fresh_example =
    AddedBy-Fresh numbers (direct (some random_id) (some sym_key) sym_key adds_key.1)

abbrev topic : Topic
topic = record { b0 = 1; b1 = 2; b2 = 3; b3 = 4 }

abbrev options : MessageParams numbers
options = record {
  ttl = 3;
  src = none;
  dst = none;
  key_sym = some sym_key;
  topic = topic;
  work_time = 1;
  pow = 2;
  payload = 8 ∷ 9 ∷ [];
  padding = 1 ∷ 2 ∷ 3 ∷ [];
}

abbrev unsealed : Envelope numbers
unsealed = record {
  expiry = 13;
  ttl = 3;
  topic = topic;
  content = 1 ∷ 2 ∷ [];
  nonce = 7;
  pow = 0;
  hash = 0;
  bloom = none;
}

-- A clock that stands still, and one that runs a second between two readings.
abbrev slow : ℕ → ℕ
slow k = 5

abbrev fast : ℕ → ℕ
fast k = k * 1000000000

seals : (e : Envelope numbers) × (seal numbers 1 slow options unsealed ≡ sealed e)
unfolding seal whisper.Envelope.bit_len
seals = (_, refl)

seal_meets_target_example :
    (pow_to_first_bit numbers 2 unsealed ≤ zeros_of numbers seals.0 seals.0.nonce)
    × (seals.0 ≡ record unsealed { nonce = seals.0.nonce })
seal_meets_target_example =
    seal_meets_target numbers 1 slow options unsealed seals.0 refl refl seals.1

seal_ends_example : seal numbers 3 fast options unsealed ≢ unfinished
seal_ends_example =
    seal_ends numbers 3 fast options unsealed 1 (omega arith) (omega arith) (omega arith)

abbrev surroundings : Surroundings
surroundings = record { seed = 1; salt = some (replicate 12 3); now = 10; clock = slow; fuel = 1 }

abbrev ones : ℕ → Option (List ℕ)
ones n = some (replicate n 1)

abbrev laid_out : List ℕ
laid_out = 1 ∷ 2 ∷ 8 ∷ 9 ∷ 1 ∷ 2 ∷ 3 ∷ []

laid_out_is : new_sent_message numbers ones options ≡ ok laid_out
unfolding new_sent_message whisper.Message.add_payload_size_field whisper.Bytes.slice
    whisper.Message.get_size_of_payload_size_field whisper.Message.append_padding
laid_out_is = refl

wraps : (e : Envelope numbers) × (wrap numbers surroundings options laid_out ≡ wrapped e)
unfolding wrap whisper.Encryption.encrypt_symmetric whisper.Bytes.validate_data_integrity
    whisper.Bytes.contains_only_zeros seal whisper.Envelope.bit_len whisper.Envelope.new_envelope
wraps = (_, refl)

abbrev pub filter : Filter numbers
filter = record {
  at = 9;
  src = none;
  key_asym = none;
  key_sym = some sym_key;
  topics = (1 ∷ 2 ∷ 3 ∷ 4 ∷ []) ∷ [];
  pow = 0;
  allow_p2p = true;
  sym_key_hash = 0;
  id = 5;
}

pub signature_law :
    (h k : ℕ) (s : List ℕ)
    → numbers.ec_sign h k ≡ some s
    → (length s ≡ signature_length) × (numbers.recover_key h s ≡ some (numbers.public_key k))
signature_law h k s e = (ground arith, ground arith)

pub salt_is :
    generate_secure_random_data 12 (some (replicate 12 1)) (some (replicate 12 2))
    ≡ some (replicate 12 3)
unfolding generate_secure_random_data whisper.Bytes.validate_data_integrity
    whisper.Bytes.contains_only_zeros
salt_is = refl

open-wrap_example :
    (m : ReceivedMessage numbers) × (open_for numbers filter wraps.0 ≡ some (some m))
    × Delivered numbers options m
open-wrap_example =
    open-wrap numbers signature_law ones options surroundings sym_key laid_out
      (some (replicate 12 1)) (some (replicate 12 2)) wraps.0 filter (λ k n text. refl)
      (omega arith) refl refl refl refl salt_is laid_out_is wraps.1

abbrev pub keys : KeyStore numbers
keys = record { private_keys = []; sym_keys = (1 ∷ [], some sym_key) ∷ [] }

abbrev pub elsewhere : Elsewhere numbers
elsewhere = record {
  unmarshal_pubkey = λ b. none;
  parse_node = λ t. none;
  random = ones;
  around = surroundings;
  now = 10;
  sent_ok = true;
}

abbrev pub request : NewMessage numbers
request = record {
  sym_key_id = 1 ∷ [];
  public_key = [];
  sig = [];
  ttl = 3;
  topic = topic;
  payload = 8 ∷ 9 ∷ [];
  padding = 1 ∷ 2 ∷ 3 ∷ [];
  pow_time = 1;
  pow_target = 2;
  target_peer = [];
}

abbrev pub host : Host numbers lists
host = record {
  node = node;
  peers = [];
  filters = record {
    watchers = (5, filter) ∷ [];
    topic_matcher = λ t. 9 ∷ [];
    all_topics_matcher = [];
    heap = (9, filter) ∷ [];
  };
  inbox = [];
  stores = λ a. [];
  sent = [];
}

pub posts :
    (r : Host numbers lists × ℕ) × (post numbers lists elsewhere request keys host ≡ posted r.0 r.1)
unfolding post get_sym_key find text_eq whisper.Bytes.validate_data_integrity
    whisper.Bytes.contains_only_zeros new_sent_message whisper.Message.add_payload_size_field
    whisper.Bytes.slice whisper.Message.get_size_of_payload_size_field
    whisper.Message.append_padding wrap whisper.Encryption.encrypt_symmetric seal
    whisper.Envelope.bit_len whisper.Envelope.new_envelope whisper.Settings.min_pow send
    whisper.Admission.check_envelope whisper.Admission.check_age whisper.Admission.check_size
    whisper.Admission.check_pow whisper.Envelope.with_pow whisper.Admission.check_bloom
    whisper.Bloom.bloom_filter_match whisper.Envelope.with_bloom whisper.Node.add_checked
    whisper.Pool.cache_envelope whisper.Base.Assoc.lookup whisper.Node.post_event
    whisper.Settings.check_overflow whisper.Node.archive with_hash whisper.Bloom.topic_to_bloom
    whisper.Bloom.bit_index whisper.Envelope.calculate_pow whisper.Envelope.size
posts = (_, refl)

pub finds_key : get_sym_key numbers (1 ∷ []) keys ≡ ok sym_key
unfolding get_sym_key find text_eq
finds_key = refl

post_delivers_example :
    (e : Envelope numbers) × (posts.0.1 ≡ (with_hash numbers e).hash)
    × (send numbers lists 10 e node ≡ done (posts.0.0.node, true))
    × ((m : ReceivedMessage numbers) × (open_for numbers filter e ≡ some (some m))
        × (m.payload ≡ request.payload)
        × (m.topic ≡ request.topic))
post_delivers_example =
    post_delivers numbers lists elsewhere request keys host posts.0.0 posts.0.1 sym_key
      (some (replicate 12 1)) (some (replicate 12 2)) filter signature_law (λ k n text. refl)
      (omega arith) refl refl finds_key refl refl salt_is posts.1

notified :
    (out : List (Filter numbers × ReceivedMessage numbers)) × (notify_watchers numbers true wraps.0
        host.filters
      ≡ some out)
unfolding notify_watchers whisper.Filters.deref whisper.Base.Assoc.lookup whisper.Filters.notify
    whisper.Filters.match_envelope whisper.Encryption.open_symmetric wraps
    whisper.Received.validate_and_parse whisper.Message.is_message_signed
    whisper.Received.parse_payload whisper.Received.parse_sized whisper.Bytes.slice
    whisper.Bytes.bytes_to_uint_little_endian whisper.Received.parse_padding
    whisper.Filters.wants_src
notified = (_, refl)

notify_watchers-Served_example : All (Served numbers true) notified.0
notify_watchers-Served_example =
    notify_watchers-Served numbers true wraps.0 host.filters notified.0 notified.1

abbrev other_topic : Topic
other_topic = record { b0 = 5; b1 = 6; b2 = 7; b3 = 8 }

abbrev criteria : Criteria numbers
criteria = record {
  sym_key_id = 1 ∷ [];
  private_key_id = [];
  sig = [];
  min_pow = 0;
  topics = topic ∷ other_topic ∷ [];
  allow_p2p = false;
}

polls : (g : Filter numbers) × (polled_filter numbers (λ b. none) 9 criteria keys ≡ ok g)
unfolding polled_filter whisper.Api.unmarshalled whisper.Api.checked_sym_key get_sym_key find
    text_eq whisper.Bytes.validate_data_integrity whisper.Bytes.contains_only_zeros
polls = (_, refl)

subscribes : (f : Filter numbers) × (subscribed_filter numbers (λ b. none) 9 criteria keys ≡ ok f)
unfolding subscribed_filter whisper.Api.unmarshalled whisper.Api.checked_sym_key get_sym_key find
    text_eq whisper.Bytes.validate_data_integrity whisper.Bytes.contains_only_zeros
subscribes = (_, refl)

subscribed_topics_alias_example :
    (polls.0.topics ≡ map topic_bytes (topic ∷ other_topic ∷ []))
    × (length subscribes.0.topics ≡ 2)
    × All (λ b. b ≡ topic_bytes other_topic) subscribes.0.topics
subscribed_topics_alias_example =
    subscribed_topics_alias numbers (λ b. none) 9 criteria keys topic (other_topic ∷ [])
      subscribes.0 polls.0 refl polls.1 subscribes.1
