-- ===== src/Examples/Polling.antt =====
-- A node with a filter, a queued envelope and a message that waits for its poll.
use whisper.Base.{
  ◌≡◌, refl, sym, ap, ◌∙◌, some_inj, none_is_some, List, [], ◌∷◌, true, false, none, some, arith,
  All, length, replicate, Bool-cases, inl, inr, ◌==◌,
}
use whisper.Api.Service.{Service, get_filter, get_filter_messages}
use whisper.Api.Service.Delivered.{Polled, queue_to_client}
use whisper.Api.Service.Polled.{AllReported, after_poll, get_filter_messages_returns}
use whisper.Api.Criteria.{Message}
use whisper.Base.Assoc.{lookup}
use whisper.Base.Outcome.{ok}
use whisper.Envelope.{Envelope}
use whisper.Filters.{
  Filter, Filters, wants_src, deref, open_for, match_envelope, get_watchers_by_topic,
}
use whisper.Filters.Polls.{
  Matches, Holds, triggers, retrieves, run, replay, empty-IsKeyed, run-Matches,
}
use whisper.Filters.Store.{put_store, retrieve}
use whisper.Filters.Stocked.{put_store-IsStocked}
use whisper.Filters.Housed.{IsHoused}
use whisper.Filters.Total.{IsBacked}
use whisper.Host.{Host, process_queue}
use whisper.Host.Callers.{filters-IsOrderly}
use whisper.Host.Drains.{rounds, Drained, process_queue_drains}
use whisper.Host.Orderly.{IsOrderly, Fair, Fit}
use whisper.Message.{ReceivedMessage}
use whisper.Node.{done, waits}
use whisper.Peer.{new_peer}
use whisper.Peer.Filter.{new_peer-IsTestable}
use whisper.Pool.Invariant.{empty_pool-IsValid}
use whisper.Examples.Nodes.{letter, node}
use whisper.Examples.Values.{numbers, lists}

abbrev reader : Filter numbers
reader = record {
  at = 9;
  src = none;
  key_asym = none;
  key_sym = some (replicate 32 1);
  topics = (1 ∷ 2 ∷ 3 ∷ 4 ∷ []) ∷ [];
  pow = 0;
  allow_p2p = true;
  sym_key_hash = 33;
  id = 5;
}

abbrev collection : Filters numbers
collection = record {
  watchers = (5, reader) ∷ [];
  topic_matcher = λ t. 9 ∷ [];
  all_topics_matcher = [];
  heap = (9, reader) ∷ [];
}

abbrev note : ReceivedMessage numbers
note = record {
  raw = 8 ∷ 9 ∷ [];
  payload = 9 ∷ [];
  padding = [];
  signature = [];
  salt = [];
  pow = 0;
  sent = 0;
  ttl = 0;
  src = none;
  dst = none;
  topic = record { b0 = 1; b1 = 2; b2 = 3; b3 = 4 };
  sym_key_hash = 33;
  envelope_hash = 6;
  p2p = false;
}

abbrev pub queued : Host numbers lists
queued = record {
  node = record node { message_queue = letter ∷ [] };
  peers = new_peer numbers lists 4 ∷ [];
  filters = collection;
  inbox = [];
  stores = λ a. [];
  sent = [];
}

collection-IsBacked : IsBacked collection
unfolding get_watchers_by_topic lookup
collection-IsBacked = record {
  backed = λ t a h. elim (Bool-cases (9 == a)) [
    | inl c ↦ rw c refl
    | inr c ↦ absurd (ground (arith, c, h))
  ];
}

collection-IsHoused : IsHoused collection
unfolding lookup
collection-IsHoused = record {
  addressed = λ a f h. elim (Bool-cases (9 == a)) [
    | inl c ↦
        let same : some reader ≡ some f = rw c at h in
        ap (λ (i : Filter numbers). i.at) (sym (some_inj same)) ∙ ground (arith, c)
    | inr c ↦ absurd (none_is_some (rw c at h))
  ];
  watched = λ id f h. elim (Bool-cases (5 == id)) [
    | inl c ↦ let same : some reader ≡ some f = rw c at h in rw (← some_inj same) refl
    | inr c ↦ absurd (none_is_some (rw c at h))
  ];
}

queued-IsOrderly : IsOrderly queued
queued-IsOrderly = record {
  valid = empty_pool-IsValid numbers lists;
  testable = (new_peer-IsTestable numbers lists 4, tt);
  bounded = record { messages = omega arith; directs = omega arith };
  fair = tt;
  backed = collection-IsBacked;
  housed = collection-IsHoused;
  stocked = record { keyed = λ a. empty-IsKeyed numbers; stock = λ a. tt };
}

process_queue_drains_example :
    (u : Host numbers lists) × (rounds numbers lists (length queued.node.message_queue) queued
      ≡ done u)
    × Drained numbers lists queued.node.message_queue queued u
    × (process_queue numbers lists u ≡ waits)
process_queue_drains_example = process_queue_drains numbers lists queued queued-IsOrderly

abbrev holding : Host numbers lists
holding = record queued { stores = put_store numbers 9 ((6, note) ∷ []) (λ a. []) }

holding-IsOrderly : IsOrderly holding
unfolding lookup wants_src
holding-IsOrderly =
    filters-IsOrderly numbers lists collection (put_store numbers 9 ((6, note) ∷ []) (λ a. []))
      queued collection-IsBacked collection-IsHoused
      (put_store-IsStocked numbers (Fit numbers collection.heap) 9 ((6, note) ∷ []) (λ a. [])
        (record { unique = (refl, tt); keyed = (refl, tt) })
        (
          record {
            reader = reader;
            reader_is = refl;
            is_fair = record { allowed = refl; src_fits = refl };
            is_full = omega arith;
          },
          tt,
        )
        (record { keyed = λ a. empty-IsKeyed numbers; stock = λ a. tt }))
      queued-IsOrderly

abbrev service : Service numbers lists
service = record {
  host = holding;
  keys = record { private_keys = []; sym_keys = [] };
  last_used = [];
}

finds_reader : get_filter numbers lists 5 holding ≡ some reader
unfolding get_filter lookup
finds_reader = refl

get_filter_messages_returns_example :
    (rs : List (Message numbers)) × (get_filter_messages numbers lists 20 5 service
      ≡ ok (after_poll numbers lists 20 5 reader service, rs))
    × AllReported numbers (retrieve numbers reader holding.stores).0 rs
    × All (λ m. Fair (reader, m)) (retrieve numbers reader holding.stores).0
    × IsOrderly (after_poll numbers lists 20 5 reader service).host
    × (get_filter_messages numbers lists 21 5 (after_poll numbers lists 20 5 reader service)
        ≡ ok (
          after_poll numbers lists 21 5 reader (after_poll numbers lists 20 5 reader service),
          [],
        ))
get_filter_messages_returns_example =
    get_filter_messages_returns numbers lists 20 21 5 service reader holding-IsOrderly finds_reader

abbrev other_note : ReceivedMessage numbers
other_note = record note { payload = 7 ∷ [] }

empty-Holds : Holds numbers (λ a. []) (λ a h. none)
unfolding lookup
empty-Holds = record { are_keyed = λ a. empty-IsKeyed numbers; agree = λ a h. refl }

-- Two messages of one envelope, of which the poll gives the first; a second poll gives nothing.
run-Matches_example :
    Matches numbers
      (run numbers
        (triggers reader note
          ∷ triggers reader other_note
          ∷ retrieves reader
          ∷ retrieves reader
          ∷ [])
        (λ a. [])).0
      (replay numbers
        (triggers reader note
          ∷ triggers reader other_note
          ∷ retrieves reader
          ∷ retrieves reader
          ∷ [])
        (λ a h. none))
run-Matches_example =
    run-Matches numbers
      (triggers reader note ∷ triggers reader other_note ∷ retrieves reader ∷ retrieves reader ∷ [])
      (λ a. []) (λ a h. none) empty-Holds

-- An envelope that the filter opens, in the queue.
abbrev parcel : Envelope numbers
parcel = record letter { content = 1 ∷ 1 ∷ 9 ∷ replicate 12 3 }

abbrev mailed : Service numbers lists
mailed = record service {
  host = record queued { node = record node { message_queue = parcel ∷ [] } };
}

mailed-IsOrderly : IsOrderly mailed.host
mailed-IsOrderly = record {
  valid = empty_pool-IsValid numbers lists;
  testable = (new_peer-IsTestable numbers lists 4, tt);
  bounded = record { messages = omega arith; directs = omega arith };
  fair = tt;
  backed = collection-IsBacked;
  housed = collection-IsHoused;
  stocked = record { keyed = λ a. empty-IsKeyed numbers; stock = λ a. tt };
}

finds_candidates :
    deref numbers collection.heap (get_watchers_by_topic numbers parcel.topic collection)
    ≡ some (reader ∷ [])
unfolding deref lookup get_watchers_by_topic
finds_candidates = refl

opens : (m : ReceivedMessage numbers) × (open_for numbers reader parcel ≡ some (some m))
unfolding open_for whisper.Encryption.open_symmetric whisper.Received.validate_and_parse
    whisper.Message.is_message_signed whisper.Received.parse_payload whisper.Received.parse_sized
    whisper.Bytes.slice whisper.Bytes.bytes_to_uint_little_endian whisper.Received.parse_padding
opens = (_, refl)

matches : match_envelope numbers reader parcel ≡ true
unfolding match_envelope
matches = refl

from_anyone : wants_src numbers reader opens.0 ≡ true
unfolding wants_src
from_anyone = refl

nothing_yet : lookup opens.0.envelope_hash (mailed.host.stores 9) ≡ none
unfolding lookup
nothing_yet = refl

finds_mailed : get_filter numbers lists 5 mailed.host ≡ some reader
unfolding get_filter lookup
finds_mailed = refl

queue_to_client_example :
    (u : Host numbers lists) × (process_queue numbers lists mailed.host ≡ done u)
    × ((rs : List (Message numbers)) × (get_filter_messages numbers lists 20 5
            (record mailed { host = u })
          ≡ ok (after_poll numbers lists 20 5 reader (record mailed { host = u }), rs))
        × Polled numbers lists opens.0 rs)
queue_to_client_example =
    queue_to_client numbers lists 20 5 mailed parcel [] [] reader [] opens.0 mailed-IsOrderly refl
      finds_candidates tt finds_mailed matches opens.1 from_anyone nothing_yet
