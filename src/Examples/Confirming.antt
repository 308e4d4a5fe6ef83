-- ===== src/Examples/Confirming.antt =====
-- A bundle that is sent and confirmed, and packets that pass the rate limiter.
use whisper.Base.{
  ℕ, ◌≡◌, refl, List, [], ◌∷◌, ◌++◌, Bool, true, false, Option, none, some, All, ltb, ◌+◌, inl,
}
use whisper.Api.KeyCalls.{
  add_private_key, api_get_private_key, api_get_public_key, api_delete_key_pair,
  add_private_key_lem,
}
use whisper.Api.Service.{Service}
use whisper.Base.Dict.{Text, find}
use whisper.Base.Outcome.{ok}
use whisper.Bloom.{topic_to_bloom}
use whisper.Envelope.{Envelope, with_hash, with_bloom}
use whisper.Envelope.Wire.{Fields, fields_of, encoding, decode_rlp, blank, decode-encode}
use whisper.Events.{EnvelopeEvent, EnvelopeError}
use whisper.Node.{done}
use whisper.Packets.{
  Session, Outside, LoopError, new_messages_response, message_response_out, batch_acknowledged_out,
}
use whisper.Packets.Cases.{handle_messages, handle_batch_acknowledged, with_event}
use whisper.Packets.Confirmed.{OfBatch, batch_confirmed}
use whisper.Peer.{Peer, Broadcasted, broadcast, new_peer}
use whisper.Peer.Bundle.{send_bundle, bundle_data}
use whisper.Peer.Ticks.{
  PeerTick, transmit_tick, expire_tick, quit_tick, Log, update, NoRepeats, update-NoRepeats,
}
use whisper.RateLimiter.{Throttler}
use whisper.RateLimiter.Decorate.{
  PipeEvent, packet_in, packet_out, read_failed, Piped, new_peer_rate_limiter,
}
use whisper.Examples.Nodes.{letter, node}
use whisper.Examples.Values.{numbers, lists, length-double}

abbrev confirming : Peer numbers lists
confirming = record {
  id = 4;
  trusted = false;
  pow_requirement = 2;
  bloom_filter = none;
  full_node = true;
  confirmations_enabled = true;
  known = lists.new_set;
}

bundles :
    (r : Broadcasted numbers lists) × (broadcast numbers lists
        (send_bundle numbers true)
        (letter ∷ [])
        confirming
      ≡ some r)
unfolding broadcast send_bundle whisper.Peer.pick whisper.Peer.wants whisper.Peer.marked
    whisper.Envelope.with_pow whisper.Peer.bloom_match
bundles = (_, refl)

abbrev session : Session numbers lists
session = record { node = node; peer = new_peer numbers lists 8; outgoing = []; calls = [] }

abbrev around : Outside
around = record { describe = λ e. []; sync_error = λ r. none }

receives :
    (r : Session numbers lists × Option LoopError) × (handle_messages numbers lists around
        (some (numbers.keccak256 (bundle_data numbers bundles.0.bundle), (15, letter) ∷ []))
        session
      ≡ done r)
unfolding handle_messages whisper.Protocol.receive_loop whisper.Node.add
    whisper.Admission.check_envelope whisper.Admission.check_age whisper.Admission.check_size
    whisper.Admission.check_pow whisper.Envelope.with_pow whisper.Admission.check_bloom
    whisper.Bloom.bloom_filter_match whisper.Envelope.with_bloom whisper.Node.add_checked
    whisper.Pool.cache_envelope whisper.Base.Assoc.lookup whisper.Node.post_event
    whisper.Settings.light_client_mode
receives = (_, refl)

batch_confirmed_example :
    ((errors : List EnvelopeError) × (receives.0.0.outgoing
        ≡ session.outgoing
          ++ message_response_out (
              new_messages_response
                (numbers.keccak256 (bundle_data numbers bundles.0.bundle))
                errors)
            ∷ batch_acknowledged_out (numbers.keccak256 (bundle_data numbers bundles.0.bundle))
            ∷ []))
    × ((ev : EnvelopeEvent) × (handle_batch_acknowledged numbers lists
            (some (numbers.keccak256 (bundle_data numbers bundles.0.bundle)))
            session
          ≡ done (with_event numbers lists ev session, none))
        × (ev.peer ≡ session.peer.id)
        × All (OfBatch numbers lists ev.batch) bundles.0.events)
unfolding new_peer
batch_confirmed_example =
    batch_confirmed numbers lists (letter ∷ []) confirming bundles.0 around ((15, letter) ∷ [])
      session receives.0.0 session receives.0.1 refl refl bundles.1 receives.1

-- Buckets that count their calls and let one through.
abbrev one_each : Throttler
one_each = record { Buckets = ℕ; halt = λ b key amount rate. (b + amount, ltb 0 b) }

abbrev piped : Piped one_each ℕ
piped = record { limiter = new_peer_rate_limiter one_each 0 0 none; to_loop = []; to_peer = [] }

abbrev happenings : List (PipeEvent ℕ ℕ)
happenings = packet_in 7 ∷ packet_out 3 ∷ packet_in 8 ∷ read_failed ∷ packet_in 9 ∷ []

-- Two transmissions with a tick between them at which the host caches all: the second sends nothing.
abbrev ticks : List (PeerTick numbers)
ticks =
    transmit_tick (λ b. some 8) (letter ∷ [])
    ∷ expire_tick (λ h. true)
    ∷ transmit_tick (λ b. some 8) (letter ∷ [])
    ∷ quit_tick
    ∷ []

ticks_run :
    (r : Peer numbers lists × Log numbers) × (update numbers lists ticks confirming ≡ some r)
unfolding update whisper.Peer.pick whisper.Peer.wants whisper.Peer.marked whisper.Envelope.with_pow
    whisper.Peer.bloom_match whisper.Peer.mark_all whisper.Peer.collect_stale
    whisper.Envelope.with_hash
ticks_run = (_, refl)

update-NoRepeats_example :
    NoRepeats numbers lists (λ h. lists.contains h confirming.known) ticks_run.0.1
update-NoRepeats_example =
    update-NoRepeats numbers lists ticks confirming ticks_run.0.0 ticks_run.0.1 ticks_run.1

abbrev fresh_letter : Envelope numbers
fresh_letter = record letter { hash = 0 }

-- A decoder that knows one encoding.
abbrev knows_letter : List ℕ → Option Fields
knows_letter raw = some (fields_of numbers fresh_letter)

decode-encode_example :
    (d : Envelope numbers) × (decode_rlp numbers knows_letter
        (some (encoding numbers (fields_of numbers fresh_letter)))
        (blank numbers)
      ≡ some d)
    × (fields_of numbers d ≡ fields_of numbers fresh_letter)
    × ((with_hash numbers d).hash ≡ (with_hash numbers fresh_letter).hash)
    × ((with_bloom numbers d).1 ≡ topic_to_bloom fresh_letter.topic)
decode-encode_example = decode-encode numbers knows_letter fresh_letter refl (inl refl)

-- An API without a filter or a key, which imports a key.
abbrev bare : Service numbers lists
bare = record {
  host = record {
    node = node;
    peers = [];
    filters = record { watchers = []; topic_matcher = λ t. []; all_topics_matcher = []; heap = [] };
    inbox = [];
    stores = λ a. [];
    sent = [];
  };
  keys = record { private_keys = []; sym_keys = [] };
  last_used = [];
}

abbrev key_bytes : ℕ → List ℕ
key_bytes k = k ∷ []

abbrev bytes_key : List ℕ → Option ℕ
bytes_key b = some 5

imports :
    (r : Service numbers lists × Text) × (add_private_key numbers lists bytes_key (5 ∷ []) bare
      ≡ ok r)
unfolding add_private_key whisper.Keys.add_key_pair whisper.Keys.make_deterministic_id
    whisper.Bytes.validate_data_integrity whisper.Bytes.contains_only_zeros
    whisper.Keys.has_key_pair whisper.Keys.to_deterministic_id find
imports = (_, refl)

free_before : find imports.0.1 bare.keys.private_keys ≡ none
unfolding find
free_before = refl

add_private_key_lem_example :
    (api_get_private_key numbers lists key_bytes imports.0.1 imports.0.0 ≡ ok (5 ∷ []))
    × (api_get_public_key numbers lists imports.0.1 imports.0.0
        ≡ ok (numbers.public_key_bytes (numbers.public_key 5)))
    × (imports.0.0.host ≡ bare.host)
    × (imports.0.0.last_used ≡ bare.last_used)
    × ((api_delete_key_pair numbers lists imports.0.1 imports.0.0).1 ≡ none)
    × (find imports.0.1
          (api_delete_key_pair numbers lists imports.0.1 imports.0.0).0.keys.private_keys
        ≡ none)
add_private_key_lem_example =
    add_private_key_lem numbers lists key_bytes bytes_key length-double (5 ∷ []) 5 bare imports.0.0
      imports.0.1 refl refl free_before imports.1
