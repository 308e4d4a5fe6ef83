-- ===== src/RateLimiter/Decorate.antt =====
-- The rate limiter between a connection and the message loop (whisperv6/rate_limiter.go): what
-- passes in both directions until the first of its three goroutines ends.
use whisper.Base.{ℕ, ◌≡◌, sym, ◌∙◌, List, [], ◌∷◌, ◌++◌, Option, none, some}
use mathlib.Core.List.{append-nil, append_assoc}
use whisper.Base.Dict.{Text}
use whisper.Settings.{default_to}
use whisper.RateLimiter.{Throttler, PeerRateLimiter, admit}

-- `PeerRateLimiterConfig`
pub record PeerRateLimiterConfig : Type 0 where
  pub limit_ip : ℕ
  pub limit_peer_id : ℕ
  pub allowed_ips : List Text
  pub allowed_peer_ids : List (List ℕ)

-- `peerRateLimiterDefaults`
abbrev pub peer_rate_limiter_defaults : PeerRateLimiterConfig
peer_rate_limiter_defaults = record {
  limit_ip = 10;
  limit_peer_id = 5;
  allowed_ips = [];
  allowed_peer_ids = [];
}

-- What happens at the pipe: a packet or an error is read from the connection; a packet that was read
-- cannot be written to the pipe; the message loop writes a packet, which then is or is not written to
-- the connection; the pipe cannot be read; or the message loop returns.
pub data PipeEvent (A E : Type 0) : Type 0 where
  packet_in packet_lost packet_out packet_stuck : A → PipeEvent A E
  read_failed pipe_read_failed : PipeEvent A E
  loop_returned : E → PipeEvent A E

pub data DecorateError (E : Type 0) : Type 0 where
  failed_read failed_pipe_write failed_pipe_read failed_write : DecorateError E
  from_loop : E → DecorateError E

-- The limiter, and what was written to the message loop and to the connection.
pub record Piped (T : Throttler) (A : Type 0) : Type 0 where
  pub limiter : PeerRateLimiter T
  pub to_loop : List A
  pub to_peer : List A

-- The packets of the events before the first that ends the session, by direction.
abbrev pub read_in : {A E : Type 0} → List (PipeEvent A E) → List A
read_in [] = []
read_in (packet_in a ∷ xs) = a ∷ read_in xs
read_in (packet_out a ∷ xs) = read_in xs
read_in (packet_lost a ∷ xs) = []
read_in (packet_stuck a ∷ xs) = []
read_in (read_failed ∷ xs) = []
read_in (pipe_read_failed ∷ xs) = []
read_in (loop_returned e ∷ xs) = []

abbrev pub written_out : {A E : Type 0} → List (PipeEvent A E) → List A
written_out [] = []
written_out (packet_in a ∷ xs) = written_out xs
written_out (packet_out a ∷ xs) = a ∷ written_out xs
written_out (packet_lost a ∷ xs) = []
written_out (packet_stuck a ∷ xs) = []
written_out (read_failed ∷ xs) = []
written_out (pipe_read_failed ∷ xs) = []
written_out (loop_returned e ∷ xs) = []

module _ (T : Throttler) where
  -- `NewPeerRateLimiter`, of two throttlers that tb.NewThrottler made.
  unfoldable pub new_peer_rate_limiter :
      T.Buckets → T.Buckets → Option PeerRateLimiterConfig → PeerRateLimiter T
  new_peer_rate_limiter a b given =
      let cfg : PeerRateLimiterConfig = default_to peer_rate_limiter_defaults given in
      record {
        peer_id_throttler = a;
        ip_throttler = b;
        limit_per_sec_ip = cfg.limit_ip;
        limit_per_sec_peer_id = cfg.limit_peer_id;
        whitelisted_peer_ids = cfg.allowed_peer_ids;
        whitelisted_ips = cfg.allowed_ips;
        processed = 0;
        exceeded_peer_limit = 0;
        exceeded_ip_limit = 0;
      }

  module _ {A E : Type 0} (text : List ℕ → Text) (ip : Text) (peer_id : List ℕ) where
    -- One event at the pipe: the state then, and the error that ends the session.
    unfoldable pub pipe : PipeEvent A E → Piped T A → Piped T A × Option (DecorateError E)
    unfolding admit
    pipe (packet_in a) s = (
      record s { limiter = admit T text ip peer_id s.limiter; to_loop = s.to_loop ++ a ∷ [] },
      none,
    )
    pipe (packet_lost a) s =
        (record s { limiter = admit T text ip peer_id s.limiter }, some failed_pipe_write)
    pipe (packet_out a) s = (record s { to_peer = s.to_peer ++ a ∷ [] }, none)
    pipe (packet_stuck a) s = (s, some failed_write)
    pipe read_failed s = (s, some failed_read)
    pipe pipe_read_failed s = (s, some failed_pipe_read)
    pipe (loop_returned e) s = (s, some (from_loop e))

    -- `decorate`: the first error is the result; `none` while the session goes on.
    unfoldable pub decorate :
        List (PipeEvent A E) → Piped T A → Piped T A × Option (DecorateError E)
    unfolding pipe
    decorate [] s = (s, none)
    decorate (x ∷ xs) s =
        let (s', o) = pipe x s in
        let rest = decorate xs s' in elim o [ none ↦ rest | some e ↦ (s', some e) ]

    -- Whatever the order of the events and whatever the limits: the message loop is given exactly
    -- the packets that were read before the session ended, in their order, and the connection those
    -- that the message loop wrote and that could be written.
    pub decorate_passes :
        (xs : List (PipeEvent A E)) (s : Piped T A)
        → ((decorate xs s).0.to_loop ≡ s.to_loop ++ read_in xs)
          × ((decorate xs s).0.to_peer ≡ s.to_peer ++ written_out xs)
    unfolding decorate
    decorate_passes [] s = (sym (append-nil s.to_loop), sym (append-nil s.to_peer))
    decorate_passes (packet_in a ∷ xs) s =
        let (l, p) = decorate_passes xs (pipe (packet_in a) s).0 in
        (l ∙ append_assoc s.to_loop (a ∷ []) (read_in xs), p)
    decorate_passes (packet_out a ∷ xs) s =
        let (l, p) = decorate_passes xs (pipe (packet_out a) s).0 in
        (l, p ∙ append_assoc s.to_peer (a ∷ []) (written_out xs))
    decorate_passes (packet_lost a ∷ xs) s =
        (sym (append-nil s.to_loop), sym (append-nil s.to_peer))
    decorate_passes (packet_stuck a ∷ xs) s =
        (sym (append-nil s.to_loop), sym (append-nil s.to_peer))
    decorate_passes (read_failed ∷ xs) s = (sym (append-nil s.to_loop), sym (append-nil s.to_peer))
    decorate_passes (pipe_read_failed ∷ xs) s =
        (sym (append-nil s.to_loop), sym (append-nil s.to_peer))
    decorate_passes (loop_returned e ∷ xs) s =
        (sym (append-nil s.to_loop), sym (append-nil s.to_peer))
