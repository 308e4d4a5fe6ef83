-- ===== src/Examples/Peers.antt =====
-- A peer that knows two envelopes.
use whisper.Base.{
  ◌≡◌, refl, List, [], ◌∷◌, ◌++◌, Option, true, false, none, some, ◌==◌, if◌then◌else◌, map,
  replicate,
}
use whisper.Envelope.{Envelope}
use whisper.Peer.{
  Peer, Broadcasted, Handshake, StatusPacket, connected, new_peer, pick, mark_all, hash_of,
  broadcast, sent_event, expire, bloom_match, handshake,
}
use whisper.Peer.Broadcast.{broadcast_once}
use whisper.Peer.Forget.{expire_first_only}
use whisper.Examples.Values.{numbers, lists}
use whisper.Node.{done, Added}
use whisper.Packets.{
  LoopError, Session, Outside, new_messages_response, message_response_out, batch_acknowledged_out,
}
use whisper.Packets.Cases.{handle_messages}
use whisper.Packets.Refusals.{refusals_told}
use whisper.Protocol.{receive_loop}
use whisper.Protocol.Reported.{Adds, reports}
use whisper.Examples.Nodes.{letter, settings, node}

abbrev peer : Peer numbers lists
peer = record {
  id = 4;
  trusted = false;
  pow_requirement = 2;
  bloom_filter = some (replicate 64 255);
  full_node = true;
  confirmations_enabled = true;
  known = lists.add 6 (lists.add 5 lists.new_set);
}

-- Neither hash is cached any more, but only 6 is forgotten.
expire_first_only_example :
    lists.contains 5 (expire numbers lists (λ h. false) peer).known
    ≡ (if 5 == 6 then false else lists.contains 5 peer.known)
expire_first_only_example = expire_first_only numbers lists (λ h. false) peer 6 (5 ∷ []) refl 5

picked : pick numbers lists peer (letter ∷ []) ≡ some (letter ∷ [])
unfolding pick whisper.Peer.wants whisper.Peer.marked whisper.Envelope.with_hash
    whisper.Envelope.with_pow bloom_match
picked = refl

broadcast_once_example :
    (q : Peer numbers lists) × (broadcast numbers lists (λ b. some 8) (letter ∷ []) peer
      ≡ some (record {
        peer = q;
        bundle = letter ∷ [];
        events = map (sent_event numbers lists peer 8) (letter ∷ []);
        failure = false;
      }))
    × (broadcast numbers lists (λ b. none) (letter ∷ []) q
        ≡ some (record { peer = q; bundle = []; events = []; failure = false }))
broadcast_once_example =
    broadcast_once numbers lists (λ b. some 8) (λ b. none) (letter ∷ []) peer (letter ∷ []) 8 picked
      refl

abbrev status : StatusPacket
status = record {
  code = 0;
  is_list = true;
  version = some 6;
  pow = some 3;
  bloom = some (replicate 64 1);
  light = true;
  confirmations = some true;
}

abbrev greeted : Peer numbers lists
greeted = record {
  id = 4;
  trusted = false;
  pow_requirement = 3;
  bloom_filter = some (replicate 64 1);
  full_node = false;
  confirmations_enabled = true;
  known = lists.new_set;
}

greets :
    handshake numbers lists settings (some status) true (new_peer numbers lists 4)
    ≡ connected greeted
unfolding handshake whisper.Peer.receive_pow whisper.Peer.finish_handshake
    whisper.Peer.set_bloom_filter new_peer whisper.Bloom.is_full_node
greets = refl

-- The envelope of expiry 20 is very old at 100.
abbrev calling : Session numbers lists
calling = record { node = node; peer = peer; outgoing = []; calls = [] }

abbrev quiet : Outside
quiet = record { describe = λ e. []; sync_error = λ r. none }

handles_late :
    (v : Session numbers lists) × (handle_messages numbers lists quiet
        (some (7, (100, letter) ∷ []))
        calling
      ≡ done (v, none))
unfolding handle_messages receive_loop whisper.Node.add whisper.Admission.check_envelope
    whisper.Admission.check_age whisper.Packets.Cases.send_confirmation
handles_late = (_, refl)

refusals_told_example :
    (rs : List (Added numbers lists)) × Adds numbers lists 4 node
      ((100, letter) ∷ [])
      rs
      handles_late.0.node
    × (◌≡◌ {A = Option LoopError} none none)
    × (handles_late.0.outgoing ≡ (
        if node.disable_confirmations
        then []
        else []
          ++ message_response_out
              (new_messages_response 7 (reports numbers lists quiet.describe rs))
            ∷ batch_acknowledged_out 7
            ∷ []))
refusals_told_example =
    refusals_told numbers lists quiet 7 ((100, letter) ∷ []) calling handles_late.0 none
      handles_late.1
