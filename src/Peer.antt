-- ===== src/Peer.antt =====
-- A remote peer (whisperv6/peer.go). The hash set of known envelopes is an interface, `Sets`.
pub mod Broadcast
pub mod Bundle
pub mod Ticks
pub mod Forget
pub mod Filter
use whisper.Base.{
  ℕ, List, [], ◌∷◌, ◌++◌, Bool, true, false, not, ◌&&◌, ◌||◌, Option, none, some, ltb, ◌==◌,
  if◌then◌else◌, length, map,
}
use whisper.Bloom.{bloom_filter_match, is_full_node, make_full_node_bloom}
use whisper.Constants.{bloom_filter_size, status_code}
use whisper.Envelope.{Envelope, with_pow, with_hash, with_bloom}
use whisper.Events.{EnvelopeEvent, hash_event, envelope_sent}
use whisper.Platform.{Platform}
use whisper.Settings.{Settings, light_client_mode, light_client_mode_connection_restricted}
use whisper.Sets.{Sets}

-- `Peer`
pub record Peer (P : Platform) (S : Sets) : Type 0 where
  pub id : ℕ
  pub trusted : Bool
  pub pow_requirement : P.Float
  pub bloom_filter : Option (List ℕ)
  pub full_node : Bool
  pub confirmations_enabled : Bool
  pub known : S.HashSet

-- The status message as the handshake decodes it: each part is what its decoder gave. `light` is
-- false where it could not be decoded.
pub record StatusPacket : Type 0 where
  pub code : ℕ
  pub is_list : Bool
  pub version : Option ℕ
  pub pow : Option ℕ
  pub bloom : Option (List ℕ)
  pub light : Bool
  pub confirmations : Option Bool

pub data HandshakeError : Type 0 where
  unreadable not_status bad_status version_mismatch bad_pow bad_bloom_size : HandshakeError
  two_light_clients send_failed : HandshakeError

pub data Handshake (P : Platform) (S : Sets) : Type 0 where
  connected : Peer P S → Handshake P S
  failed : HandshakeError → Handshake P S

-- The result of a broadcast: the peer, the bundle that was sent, and whether the sending failed.
pub record Broadcasted (P : Platform) (S : Sets) : Type 0 where
  pub peer : Peer P S
  pub bundle : List (Envelope P)
  pub events : List EnvelopeEvent
  pub failure : Bool

module _ (P : Platform) (S : Sets) where
  -- `newPeer`
  unfoldable pub new_peer : ℕ → Peer P S
  new_peer id = record {
    id = id;
    trusted = false;
    pow_requirement = P.zero_pow;
    bloom_filter = some make_full_node_bloom;
    full_node = true;
    confirmations_enabled = false;
    known = S.new_set;
  }

  -- `setBloomFilter`
  unfoldable pub set_bloom_filter : Option (List ℕ) → Peer P S → Peer P S
  set_bloom_filter bloom p =
      let full = is_full_node bloom in
      record p {
        bloom_filter = elim bloom [
          | none ↦ if full then some make_full_node_bloom else none
          | some b ↦ some b
        ];
        full_node = full;
      }

  -- `bloomMatch`; `none` is the panic of `BloomFilterMatch`.
  unfoldable pub bloom_match : Peer P S → Envelope P → Option Bool
  bloom_match p e =
      if p.full_node then some true else bloom_filter_match p.bloom_filter (with_bloom P e).1

  abbrev pub hash_of : Envelope P → ℕ
  hash_of e = (with_hash P e).hash

  -- `mark`
  unfoldable pub mark : Envelope P → Peer P S → Peer P S
  mark e p = record p { known = S.add (hash_of e) p.known }

  -- `marked`
  unfoldable pub marked : Peer P S → Envelope P → Bool
  marked p e = S.contains (hash_of e) p.known

  -- The call that `expire` makes for each known hash.
  unfoldable pub collect_stale : (ℕ → Bool) → ℕ → List ℕ → List ℕ × Bool
  collect_stale is_cached h unmark = (if is_cached h then unmark else h ∷ unmark, true)

  abbrev discard_all : List ℕ → S.HashSet → S.HashSet
  discard_all [] known = known
  discard_all (h ∷ hs) known = discard_all hs (S.discard h known)

  -- `expire`, where `is_cached` is the host's `isEnvelopeCached`.
  unfoldable pub expire : (ℕ → Bool) → Peer P S → Peer P S
  unfolding collect_stale
  expire is_cached p = record p {
    known = discard_all (S.each (List ℕ) p.known (collect_stale is_cached) []) p.known;
  }

  -- The test in the loop of `broadcast`: whether the peer lacks and wants an envelope.
  unfoldable pub wants : Peer P S → Envelope P → Option Bool
  wants p e =
      if marked p e
      then some false
      else if not (P.le p.pow_requirement (with_pow P e).pow)
      then some false
      else bloom_match p e

  -- The loop of `broadcast`.
  unfoldable pub pick : Peer P S → List (Envelope P) → Option (List (Envelope P))
  pick p [] = some []
  pick p (e ∷ rest) = elim (pick p rest) [
    | none ↦ none
    | some bundle ↦ elim (wants p e) [
      | none ↦ none
      | some true ↦ some (e ∷ bundle)
      | some false ↦ some bundle
    ]
  ]

  -- `peer.mark` for the whole bundle.
  unfoldable pub mark_all : List (Envelope P) → Peer P S → Peer P S
  unfolding mark
  mark_all [] p = p
  mark_all (e ∷ es) p = mark_all es (mark e p)

  abbrev pub sent_event : Peer P S → ℕ → Envelope P → EnvelopeEvent
  sent_event p batch e = record (hash_event envelope_sent (hash_of e)) {
    peer = p.id;
    batch = if p.confirmations_enabled then batch else 0;
  }

  -- `broadcast` of the host's envelopes. `deliver` is `sendBundle`: the hash of the batch, or
  -- `none` for an error; `none` as a result is a panic.
  unfoldable pub broadcast :
      (List (Envelope P) → Option ℕ) → List (Envelope P) → Peer P S → Option (Broadcasted P S)
  broadcast deliver envelopes p = elim (pick p envelopes) [
    | none ↦ none
    | some bundle ↦
        if length bundle == 0
        then some (record { peer = p; bundle = []; events = []; failure = false })
        else elim (deliver bundle) [
          | none ↦ some (record { peer = p; bundle = bundle; events = []; failure = true })
          | some batch ↦ some (record {
            peer = mark_all bundle p;
            bundle = bundle;
            events = map (sent_event p batch) bundle;
            failure = false;
          })
        ]
  ]

  -- The end of `handshake`: light clients, confirmations, and whether the own status was sent.
  unfoldable pub finish_handshake : Settings P → StatusPacket → Bool → Peer P S → Handshake P S
  unfolding light_client_mode light_client_mode_connection_restricted
  finish_handshake s packet own_sent p =
      if packet.light && light_client_mode P s && light_client_mode_connection_restricted P s
      then failed two_light_clients
      else if not own_sent
      then failed send_failed
      else connected (elim packet.confirmations [
        | none ↦ p
        | some true ↦ record p { confirmations_enabled = true }
        | some false ↦ p
      ])

  -- Its middle: the optional proof of work and, only behind that, the optional bloom filter.
  unfoldable pub receive_pow : Settings P → StatusPacket → Bool → Peer P S → Handshake P S
  receive_pow s packet own_sent p = elim packet.pow [
    | none ↦ finish_handshake s packet own_sent p
    | some raw ↦
        let pow = P.float_from_bits raw in
        if P.is_inf pow || P.is_nan pow || P.lt pow P.zero_pow
        then failed bad_pow
        else let p' = record p { pow_requirement = pow } in
          elim packet.bloom [
            | none ↦ finish_handshake s packet own_sent p'
            | some bloom ↦
                if not (length bloom == bloom_filter_size) && not (length bloom == 0)
                then failed bad_bloom_size
                else finish_handshake s packet own_sent (set_bloom_filter (some bloom) p')
          ]
  ]

  -- `handshake`; `none` for the packet is a read that failed.
  unfoldable pub handshake : Settings P → Option StatusPacket → Bool → Peer P S → Handshake P S
  handshake s none own_sent p = failed unreadable
  handshake s (some packet) own_sent p =
      if not (packet.code == status_code)
      then failed not_status
      else if not packet.is_list
      then failed bad_status
      else elim packet.version [
        | none ↦ failed bad_status
        | some version ↦
            if not (version == 6) then failed version_mismatch else receive_pow s packet own_sent p
      ]
