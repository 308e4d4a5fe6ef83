-- ===== src/Host/Steps.antt =====
-- The steps of a running node (whisperv6/whisper.go): what its goroutines and callers do to it, one
-- after another in any order.
use whisper.Base.{ℕ, ◌≡◌, List, Bool, Option, none, some}
use whisper.Base.Assoc.{lookup}
use whisper.Envelope.{Envelope}
use whisper.Api.Criteria.{unsubscribe}
use whisper.Api.Service.{Client, install_filter}
use whisper.Filters.{Filter}
use whisper.Filters.Store.{retrieve}
use whisper.Host.Notices.{announce_minimum_pow, announce_bloom_filter, with_settings}
use whisper.Settings.{settle_minimum_pow, settle_bloom_filter}
use whisper.Host.{
  Host, get_peer, put_peer, drop_peer, process_queue, process_p2p, open_session, allow_p2p,
  request_historic_messages, send_messages_request,
}
use whisper.Node.{Node, done, send}
use whisper.Packets.{Packet, LoopError, Session, Outside}
use whisper.Packets.Cases.{handle_packet}
use whisper.Peer.{Peer, StatusPacket, broadcast, Broadcasted}
use whisper.Platform.{Platform}
use whisper.Pool.{Pool, expire}
use whisper.Requests.{MessagesRequest}
use whisper.Sets.{Sets}
use whisper.Base.Outcome.{ok}

module _ (P : Platform) (S : Sets) where
  -- A session of the node with one of its peers.
  abbrev pub session : Host P S → Peer P S → Session P S
  session w p = record { node = w.node; peer = p; outgoing = List.[]; calls = List.[] }

  -- The host after a session changed its node and that peer.
  abbrev pub after : Session P S → Host P S → Host P S
  after s w = record w { node = s.node; peers = put_peer P S s.peer w.peers }

  -- One step, to the host it leaves.
  pub data Step (w : Host P S) : Host P S → Type 0 where
    -- A packet from a peer, by `runMessageLoop`.
    receives :
        (around : Outside) (packet : Packet P) (i : ℕ) (p : Peer P S) (s : Session P S)
        (o : Option LoopError)
        → get_peer P S i w.peers ≡ some p
        → handle_packet P S around packet (session w p) ≡ done (s, o)
        → Step w (after s w)
    -- A call of `Send`.
    sends :
        (now : ℕ) (e : Envelope P) (r : Node P S × Bool)
        → send P S now e w.node ≡ done r
        → Step w (record w { node = r.0 })
    -- The ticker of `update`.
    expires :
        (now : ℕ) (p : Pool P S)
        → expire P S now w.node.pool ≡ some p
        → Step w (record w { node = record w.node { pool = p } })
    -- The two queues.
    delivers : (w' : Host P S) → process_queue P S w ≡ done w' → Step w w'
    delivers_p2p : (w' : Host P S) → process_p2p P S w ≡ done w' → Step w w'
    -- A peer comes and goes.
    connects :
        (i : ℕ) (packet : Option StatusPacket) (own_sent : Bool)
        → Step w (open_session P S i packet own_sent w).0
    leaves : (i : ℕ) → Step w (record w { peers = drop_peer P S i w.peers })
    -- The ticker of a peer's `update`: a broadcast of the pooled envelopes.
    broadcasts :
        (i : ℕ) (p : Peer P S) (deliver : List (Envelope P) → Option ℕ) (es : List (Envelope P))
        (r : Broadcasted P S)
        → get_peer P S i w.peers ≡ some p
        → broadcast P S deliver es p ≡ some r
        → Step w (record w { peers = put_peer P S r.peer w.peers })
    -- The calls of the node's users.
    allows : (i : ℕ) (w' : Host P S) → allow_p2p P S i w ≡ ok w' → Step w w'
    requests :
        (i : ℕ) (e : Envelope P) (sent_ok : Bool)
        → Step w (request_historic_messages P S i e sent_ok w).0
    asks :
        (i : ℕ) (r : MessagesRequest) (sent_ok : Bool)
        → Step w (send_messages_request P S i r sent_ok w).0
    -- Filters come and go, and are polled. A new one is allocated at an address that is free.
    subscribes :
        (c : Client P) (f : Filter P) (r : Host P S × ℕ)
        → lookup f.at w.filters.heap ≡ none
        → install_filter P S c f w ≡ ok r
        → Step w r.0
    unsubscribes : (id : ℕ) → Step w (unsubscribe P S id w).0
    polls : (f : Filter P) → Step w (record w { stores = (retrieve P f w.stores).1 })
    -- The settings change, the peers are told, and in the end the old ones are tolerated no more.
    announces_pow :
        (tries : ℕ → Bool × Bool) (val : P.Float) (w' : Host P S)
        → announce_minimum_pow P S tries val w ≡ ok w'
        → Step w w'
    announces_bloom :
        (tries : ℕ → Bool × Bool) (bloom : List ℕ) (w' : Host P S)
        → announce_bloom_filter P S tries bloom w ≡ ok w'
        → Step w w'
    settles_pow :
        (val : P.Float) → Step w (with_settings P S (settle_minimum_pow P val w.node.settings) w)
    settles_bloom :
        (bloom : List ℕ)
        → Step w (with_settings P S (settle_bloom_filter P bloom w.node.settings) w)

  -- Any number of steps.
  pub data Reach (w : Host P S) : Host P S → Type 0 where
    stays : Reach w w
    steps : (v u : Host P S) → Reach w v → Step v u → Reach w u
