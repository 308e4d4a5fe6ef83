-- ===== src/Node.antt =====
-- The node's state (`Whisper` of whisperv6/whisper.go) as `add` sees it, `add` itself with the
-- queues it posts to, and `Send`.
pub mod Add
pub mod Total
pub mod Quiet
pub mod Bounded
use whisper.Base.{
  ℕ, List, [], ◌∷◌, ◌++◌, Bool, true, false, Option, none, some, ltb, if◌then◌else◌, length,
}
use whisper.Constants.{message_queue_limit}
use whisper.Envelope.{Envelope, with_hash}
use whisper.Events.{EnvelopeEvent, hash_event, mail_server_envelope_archived}
use whisper.Platform.{Platform}
use whisper.Pool.{Pool, cache_envelope}
use whisper.Admission.{AddError, Verdict, accepted, dropped, rejected, crashed, check_envelope}
use whisper.Settings.{Settings, check_overflow}
use whisper.Sets.{Sets}

-- What the p2p queue carries.
pub data P2pItem (P : Platform) : Type 0 where
  envelope_item : Envelope P → P2pItem P
  event_item : EnvelopeEvent → P2pItem P

-- `archived` are the envelopes that the mail server was given, if `mail_server` says that one is
-- registered.
pub record Node (P : Platform) (S : Sets) : Type 0 where
  pub pool : Pool P S
  pub settings : Settings P
  pub message_queue : List (Envelope P)
  pub p2p_msg_queue : List (P2pItem P)
  pub mail_server : Bool
  pub archived : List (Envelope P)
  pub disable_confirmations : Bool

-- A step of the node returns, waits for room in a full queue, or panics.
pub data Effect (A : Type 0) : Type 0 where
  done : A → Effect A
  waits : Effect A
  panics : Effect A

infixl 5 ◌>>=◌
abbrev pub ◌>>=◌ : {A B : Type 0} → Effect A → (A → Effect B) → Effect B
done a >>= f = f a
waits >>= f = waits
panics >>= f = panics

-- A send on a channel of the queues' capacity.
abbrev pub enqueue : {A : Type 0} → List A → A → Effect (List A)
enqueue q a = if ltb (length q) message_queue_limit then done (q ++ a ∷ []) else waits

-- What `add` returns, with the envelope as its caches are then.
pub record Added (P : Platform) (S : Sets) : Type 0 where
  pub node : Node P S
  pub envelope : Envelope P
  pub cached : Bool
  pub error : Option AddError

module _ (P : Platform) (S : Sets) where
  -- `postP2P`
  unfoldable pub post_p2p : P2pItem P → Node P S → Effect (Node P S)
  post_p2p item w = do q ← enqueue w.p2p_msg_queue item; done (record w { p2p_msg_queue = q })

  -- `postEvent`
  unfoldable pub post_event : Envelope P → Bool → Node P S → Effect (Node P S)
  post_event e true w = post_p2p (envelope_item e) w
  post_event e false w = do
    let s = check_overflow P (length w.message_queue) w.settings
    q ← enqueue w.message_queue e
    done (record w { settings = s; message_queue = q })

  -- The mail server's part of `add`.
  unfoldable pub archive : Envelope P → Node P S → Node P S
  archive e w =
      if w.mail_server
      then record w {
        archived = w.archived ++ e ∷ [];
        pool = record w.pool {
          feed =
              w.pool.feed
              ++ record (hash_event mail_server_envelope_archived e.hash) { topic = e.topic } ∷ [];
        };
      }
      else w

  -- `add` behind its checks.
  unfoldable pub add_checked : Bool → Envelope P → Node P S → Effect (Added P S)
  add_checked is_p2p e0 w =
      let e = with_hash P e0 in
      let (pool, already_cached) = cache_envelope P S e.hash e w.pool in
      let w' = record w { pool = pool } in
      if already_cached
      then done (record { node = w'; envelope = e; cached = true; error = none })
      else do
        w'' ← post_event e is_p2p w'
        done (record { node = archive e w''; envelope = e; cached = true; error = none })

  -- `add`
  unfoldable pub add : ℕ → Bool → Envelope P → Node P S → Effect (Added P S)
  add now is_p2p e w = elim (check_envelope P now w.settings e) [
    | crashed ↦ panics
    | rejected r ↦ done (record { node = w; envelope = e; cached = false; error = some r })
    | dropped ↦ done (record { node = w; envelope = e; cached = false; error = none })
    | accepted e' ↦ add_checked is_p2p e' w
  ]

  -- `Send`: `false` is an error, that of `add` or "failed to add envelope".
  unfoldable pub send : ℕ → Envelope P → Node P S → Effect (Node P S × Bool)
  unfolding add
  send now e w = do
    r ← add now false e w
    done (elim r.error [ none ↦ (r.node, r.cached) | some _ ↦ (r.node, false) ])
