-- ===== src/Examples/Announcing.antt =====
-- A requirement on the proof of work that is announced to a peer.
use whisper.Base.{
  ℕ, ◌≡◌, refl, List, [], ◌∷◌, ◌++◌, Bool, true, false, Option, none, some, arith, All,
}
use whisper.Base.Outcome.{ok}
use whisper.Envelope.{Envelope, with_pow, calculate_pow}
use whisper.Envelope.Wire.{Fields, fields_of}
use whisper.Host.{Host, pow_requirement}
use whisper.Host.Notices.{announce_minimum_pow}
use whisper.Host.Noticed.{reached, Travels, Welcome, announced_pow_respected}
use whisper.Node.{done}
use whisper.Packets.{Session, Outside, pow_requirement_body}
use whisper.Packets.Cases.{handle_packet}
use whisper.Peer.{Peer, Broadcasted, broadcast, new_peer}
use whisper.Settings.{min_pow}
use whisper.Examples.Nodes.{letter, node}
use whisper.Examples.Values.{numbers, lists}
use whisper.Examples.Polling.{queued}

-- The one peer is told at the second try.
abbrev second_try : ℕ → Bool × Bool
second_try i = (false, true)

announces :
    (u : Host numbers lists) × (announce_minimum_pow numbers lists second_try 3 queued ≡ ok u)
unfolding announce_minimum_pow
announces = (_, refl)

abbrev session : Session numbers lists
session = record { node = node; peer = new_peer numbers lists 8; outgoing = []; calls = [] }

abbrev around : Outside
around = record { describe = λ e. []; sync_error = λ r. none }

-- Its proof of work is not computed yet.
abbrev unworked : Envelope numbers
unworked = record letter { pow = 0 }

broadcasts :
    (r : Broadcasted numbers lists) × (broadcast numbers lists
        (λ b. some 8)
        (unworked ∷ [])
        (record session.peer { pow_requirement = 3 })
      ≡ some r)
unfolding broadcast new_peer whisper.Peer.pick whisper.Peer.wants whisper.Peer.marked with_pow
    whisper.Peer.bloom_match whisper.Envelope.calculate_pow whisper.Envelope.bit_len
broadcasts = (_, refl)

-- The decoder of the one envelope.
abbrev reads : List ℕ → Option Fields
reads b = some (fields_of numbers unworked)

unworked-Travels : Travels numbers lists reads 15 unworked
unfolding with_pow calculate_pow
unworked-Travels = record { timely = record { sent_before = refl; pow_eq = refl }; law = refl }

announced_pow_respected_example :
    (announces.0.sent ≡ [] ++ reached numbers lists second_try (pow_requirement 3) queued.peers)
    × (min_pow numbers announces.0.node.settings ≡ 3)
    × (handle_packet numbers lists around
          (record { size = 2; body = pow_requirement_body (some 3) })
          session
        ≡ done (record session { peer = record session.peer { pow_requirement = 3 } }, none))
    × All (Welcome numbers lists reads 15 announces.0.node) broadcasts.0.bundle
announced_pow_respected_example =
    announced_pow_respected numbers lists (λ v. refl) (λ a b h. ground (arith, h)) refl reads
      second_try 3 queued announces.0 around 2 15 session (λ b. some 8) (unworked ∷ []) broadcasts.0
      announces.1 refl refl refl broadcasts.1 (unworked-Travels, tt)
