-- ===== src/Host/Orderly.antt =====
-- What every run of the node keeps (whisperv6/whisper.go).
use whisper.Base.{
  List-cases, ℕ, suc, ◌≡◌, ◌≤◌, List, [], ◌∷◌, ◌++◌, Bool, true, false, not, ◌||◌, some, arith, All,
  All-append, Bool-cases, Option-cases, inl, inr, length,
}
use whisper.Base.Assoc.{Assoc, lookup}
use whisper.Base.Outcome.{ok_inj, ok}
use whisper.Constants.{message_queue_limit}
use whisper.Envelope.{Envelope}
use whisper.Events.{EnvelopeEvent}
use whisper.Filters.{Filter, Filters, notify_watchers, wants_src}
use whisper.Filters.Delivery.{Served, notify_watchers-Served}
use whisper.Filters.Full.{IsFull, notify_watchers-IsFull}
use whisper.Filters.Housed.{AtHome, IsHoused, notify_watchers-AtHome}
use whisper.Filters.Store.{trigger_all}
use whisper.Filters.Stocked.{IsStocked, trigger_all-IsStocked}
use whisper.Filters.Total.{IsBacked}
use whisper.Host.{
  Host, Sent, messages_request, get_peer, with_host_event, trusting, sending, serve, process_queue,
  process_p2p, allow_p2p, request_historic_messages, send_messages_request,
}
use whisper.Host.Peers.{get_peer-All, put_peer-All}
use whisper.Message.{ReceivedMessage}
use whisper.Node.{Effect, done, envelope_item, event_item, P2pItem}
use whisper.Node.Add.{done_inj}
use whisper.Node.Bounded.{IsBounded}
use whisper.Peer.{Peer}
use whisper.Peer.Filter.{IsTestable}
use whisper.Platform.{Platform}
use whisper.Pool.Invariant.{IsValid}
use whisper.Protocol.Reception.{with_feed-IsValid}
use whisper.Requests.{MessagesRequest, validate_messages_request}
use whisper.Sets.{Sets}

-- A message that a filter was given and may have: a direct one only if the filter takes them, and
-- from the sender that the filter names.
pub record Fair {P : Platform} (d : Filter P × ReceivedMessage P) : Type 0 where
  pub allowed : (not d.1.p2p || d.0.allow_p2p) ≡ true
  pub src_fits : wants_src P d.0 d.1 ≡ true

-- A message that the filter behind an address may have, and that has a byte of flags.
pub record Fit (P : Platform) (heap : Assoc (Filter P)) (a : ℕ) (m : ReceivedMessage P)
    : Type 0 where
  pub reader : Filter P
  pub reader_is : lookup a heap ≡ some reader
  pub is_fair : Fair (reader, m)
  pub is_full : 1 ≤ length m.raw

-- The pool is well formed, the peers' bloom filters can be tested, the queues are within their
-- capacity, the filters got only what they may have, each pointer in a topic matcher is that of a
-- filter, each watcher is the filter behind its own address, and each store holds a message of an
-- envelope once, and only messages that the filter behind its address may have.
pub record IsOrderly {P : Platform} {S : Sets} (w : Host P S) : Type 0 where
  pub valid : IsValid w.node.pool
  pub testable : All IsTestable w.peers
  pub bounded : IsBounded w.node
  pub fair : All Fair w.inbox
  pub backed : IsBacked w.filters
  pub housed : IsHoused w.filters
  pub stocked : IsStocked P (Fit P w.filters.heap) w.stores

module _ (P : Platform) (S : Sets) where
  trusted-IsTestable : (p : Peer P S) → IsTestable p → IsTestable (record p { trusted = true })
  unfolding IsTestable
  trusted-IsTestable p k = k

  event-IsOrderly :
      (e : EnvelopeEvent) (w : Host P S) → IsOrderly w → IsOrderly (with_host_event P S e w)
  event-IsOrderly e w k = record {
    valid = with_feed-IsValid P S w.node.pool _ k.valid;
    testable = k.testable;
    bounded = record { messages = k.bounded.messages; directs = k.bounded.directs };
    fair = k.fair;
    backed = k.backed;
    housed = k.housed;
    stocked = k.stocked;
  }

  Served-Fair :
      (p2p : Bool) (out : List (Filter P × ReceivedMessage P))
      → All (Served P p2p) out
      → All Fair out
  Served-Fair p2p [] a = tt
  Served-Fair p2p (d ∷ out) (s, a) =
      (record { allowed = rw s.flag_eq s.allowed; src_fits = s.src_fits }, Served-Fair p2p out a)

  All-Fit :
      (fs : Filters P) (out : List (Filter P × ReceivedMessage P))
      → All Fair out
      → All (IsFull P) out
      → All (λ (d : Filter P × ReceivedMessage P). AtHome fs d.0) out
      → All (λ (d : Filter P × ReceivedMessage P). Fit P fs.heap d.0.at d.1) out
  All-Fit fs [] a b c = tt
  All-Fit fs (d ∷ out) (x, a) (y, b) (z, c) =
      (record { reader = d.0; reader_is = z; is_fair = x; is_full = y }, All-Fit fs out a b c)

  serve-IsOrderly :
      (p2p : Bool) (e : Envelope P) (w : Host P S) {w' : Host P S}
      → serve P S p2p e w ≡ done w'
      → IsOrderly w
      → IsOrderly w'
  unfolding serve
  serve-IsOrderly p2p e w {w'} h k = elim (Option-cases (notify_watchers P p2p e w.filters)) [
    | inl n ↦ absurd (ground (arith, rw (n, serve) at h))
    | inr (out, n) ↦
        let x : ◌≡◌ {A = Effect (Host P S)} (done _) (done w') = rw (n, serve) at h in
        rw (← done_inj x) (
          event-IsOrderly _
            (record w { inbox = w.inbox ++ out; stores = trigger_all P out w.stores })
            (record {
              valid = k.valid;
              testable = k.testable;
              bounded = k.bounded;
              fair =
                  All-append Fair w.inbox out k.fair
                    (Served-Fair p2p out (notify_watchers-Served P p2p e w.filters out n));
              backed = k.backed;
              housed = k.housed;
              stocked =
                  trigger_all-IsStocked P (Fit P w.filters.heap) out w.stores
                    (All-Fit w.filters out
                      (Served-Fair p2p out (notify_watchers-Served P p2p e w.filters out n))
                      (notify_watchers-IsFull P p2p e w.filters out n)
                      (notify_watchers-AtHome P p2p e w.filters k.housed n))
                    k.stocked;
            }))
  ]

  -- The host with shorter queues.
  taken-IsOrderly :
      (m : List (Envelope P)) (q : List (P2pItem P)) (w : Host P S)
      → length m ≤ message_queue_limit
      → length q ≤ message_queue_limit
      → IsOrderly w
      → IsOrderly (record w { node = record w.node { message_queue = m; p2p_msg_queue = q } })
  taken-IsOrderly m q w a b k = record {
    valid = k.valid;
    testable = k.testable;
    bounded = record { messages = a; directs = b };
    fair = k.fair;
    backed = k.backed;
    housed = k.housed;
    stocked = k.stocked;
  }

  pub process_queue-IsOrderly :
      (w : Host P S) {w' : Host P S} → process_queue P S w ≡ done w' → IsOrderly w → IsOrderly w'
  unfolding process_queue
  process_queue-IsOrderly w h k = elim (List-cases w.node.message_queue) [
    | inl n ↦ absurd (ground (arith, rw (n, process_queue) at h))
    | inr (e, q, n) ↦
        let m : suc (length q) ≤ message_queue_limit = rw n at k.bounded.messages in
        serve-IsOrderly false e (record w { node = record w.node { message_queue = q } })
          (rw (n, process_queue) at h)
          (taken-IsOrderly q w.node.p2p_msg_queue w (omega arith) k.bounded.directs k)
  ]

  pub process_p2p-IsOrderly :
      (w : Host P S) {w' : Host P S} → process_p2p P S w ≡ done w' → IsOrderly w → IsOrderly w'
  unfolding process_p2p
  process_p2p-IsOrderly w h k = elim (List-cases w.node.p2p_msg_queue) [
    | inl n ↦ absurd (ground (arith, rw (n, process_p2p) at h))
    | inr (envelope_item e, q, n) ↦
        let m : suc (length q) ≤ message_queue_limit = rw n at k.bounded.directs in
        serve-IsOrderly true e (record w { node = record w.node { p2p_msg_queue = q } })
          (rw (n, process_p2p) at h)
          (taken-IsOrderly w.node.message_queue q w k.bounded.messages (omega arith) k)
    | inr (event_item e, q, n) ↦
        let m : suc (length q) ≤ message_queue_limit = rw n at k.bounded.directs in
        rw (← done_inj (rw (n, process_p2p) at h)) (
          event-IsOrderly e (record w { node = record w.node { p2p_msg_queue = q } })
            (taken-IsOrderly w.node.message_queue q w k.bounded.messages (omega arith) k))
  ]

  trusting-IsOrderly :
      (i : ℕ) (p : Peer P S) (w : Host P S)
      → get_peer P S i w.peers ≡ some p
      → IsOrderly w
      → IsOrderly (trusting P S p w)
  trusting-IsOrderly i p w g k = record {
    valid = k.valid;
    testable =
        put_peer-All P S (record p { trusted = true }) w.peers k.testable
          (trusted-IsTestable p (get_peer-All P S i w.peers k.testable g));
    bounded = k.bounded;
    fair = k.fair;
    backed = k.backed;
    housed = k.housed;
    stocked = k.stocked;
  }

  pub sending-IsOrderly :
      (i : ℕ) (m : Sent P) (b : Bool) (w : Host P S) → IsOrderly w → IsOrderly (sending P S i m b w)
  sending-IsOrderly i m true w k = record {
    valid = k.valid;
    testable = k.testable;
    bounded = k.bounded;
    fair = k.fair;
    backed = k.backed;
    housed = k.housed;
    stocked = k.stocked;
  }
  sending-IsOrderly i m false w k = k

  pub allow_p2p-IsOrderly :
      (i : ℕ) (w : Host P S) {w' : Host P S}
      → allow_p2p P S i w ≡ ok w'
      → IsOrderly w
      → IsOrderly w'
  unfolding allow_p2p
  allow_p2p-IsOrderly i w h k = elim (Option-cases (get_peer P S i w.peers)) [
    | inl n ↦ absurd (ground (arith, rw (n, allow_p2p) at h))
    | inr (p, g) ↦ rw (← ok_inj (rw (g, allow_p2p) at h)) (trusting-IsOrderly i p w g k)
  ]

  pub request-IsOrderly :
      (i : ℕ) (e : Envelope P) (b : Bool) (w : Host P S)
      → IsOrderly w
      → IsOrderly (request_historic_messages P S i e b w).0
  unfolding request_historic_messages
  request-IsOrderly i e b w k = elim (Option-cases (get_peer P S i w.peers)) [
    | inl n ↦ rw (n, request_historic_messages) k
    | inr (p, g) ↦
        rw (g, request_historic_messages)
          (sending-IsOrderly i _ b _ (trusting-IsOrderly i p _ g (event-IsOrderly _ w k)))
  ]

  pub ask-IsOrderly :
      (i : ℕ) (r : MessagesRequest) (b : Bool) (w : Host P S)
      → IsOrderly w
      → IsOrderly (send_messages_request P S i r b w).0
  unfolding send_messages_request
  ask-IsOrderly i r b w k = elim (Option-cases (validate_messages_request r)) [
    | inr (x, v) ↦ rw (v, send_messages_request) k
    | inl v ↦ elim (Option-cases (get_peer P S i w.peers)) [
      | inl n ↦ rw (v, n, send_messages_request) k
      | inr (p, g) ↦
          let t =
            sending-IsOrderly i (messages_request r) b (trusting P S p w)
              (trusting-IsOrderly i p w g k) in
          elim (Bool-cases b) [
            | inl y ↦ rw (v, g, y, send_messages_request) (event-IsOrderly _ _ (rw y at t))
            | inr y ↦ rw (v, g, y, send_messages_request) (rw y at t)
          ]
    ]
  ]
