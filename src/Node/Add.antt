-- ===== src/Node/Add.antt =====
-- `add` and `Send` of whisperv6/whisper.go, on every branch.
use whisper.Base.{
  ap, ℕ, ◌≡◌, refl, ◌∙◌, sym, [], ◌∷◌, ◌++◌, Bool, true, false, none, some, arith, if◌then◌else◌,
  Bool-cases, Option-cases, inl, inr, ◌⊎◌,
}
use whisper.Base.Assoc.{lookup, lookup-insert}
use whisper.Envelope.{Envelope, with_hash}
use whisper.Platform.{Platform}
use whisper.Pool.{Pool, cache_envelope, store_envelope, is_envelope_cached}
use whisper.Pool.Invariant.{IsValid, cache_envelope-IsValid}
use whisper.Admission.{AddError, Verdict, accepted, dropped, rejected, crashed, check_envelope}
use whisper.Sets.{Sets}
use whisper.Node.{
  Node, Effect, done, waits, panics, Added, envelope_item, post_p2p, post_event, archive,
  add_checked, add, ◌>>=◌,
}

pub done_inj : {A : Type 0} {a b : A} → done a ≡ done b → a ≡ b
done_inj {A} {a} h = ap (λ (x : Effect A). elim x [ done b ↦ b | _ ↦ a ]) h

pub bind-done :
    {A B : Type 0} (m : Effect A) (f : A → Effect B) {b : B}
    → (m >>= f) ≡ done b
    → (a : A) × (m ≡ done a) × (f a ≡ done b)
bind-done (done a) f h = (a, refl, h)
bind-done waits f h = absurd (ground arith)
bind-done panics f h = absurd (ground arith)

module _ (P : Platform) (S : Sets) where
  -- A pool whose feed alone has grown is as good.
  archive-IsValid :
      (e : Envelope P) (w : Node P S) → IsValid w.pool → IsValid (archive P S e w).pool
  unfolding archive
  archive-IsValid e w v = elim (Bool-cases w.mail_server) [
    | inl m ↦
        rw (m, archive)
          (record {
            unique_envelopes = v.unique_envelopes;
            unique_expirations = v.unique_expirations;
            tracked = v.tracked;
            cached = v.cached;
            accounted = v.accounted;
          })
    | inr m ↦ rw (m, archive) v
  ]

  post_event-pool :
      (e : Envelope P) (b : Bool) (w : Node P S) {w' : Node P S}
      → post_event P S e b w ≡ done w'
      → w'.pool ≡ w.pool
  unfolding post_event post_p2p
  post_event-pool e true w h = ground arith
  post_event-pool e false w h = ground arith

  -- What follows the checks, taken apart: the envelope was there, or it was stored and posted.
  pub add_checked-done :
      (b : Bool) (e0 : Envelope P) (w : Node P S) {r : Added P S}
      → add_checked P S b e0 w ≡ done r
      → let e = with_hash P e0 in
        let c = cache_envelope P S e.hash e w.pool in
        ((c.1 ≡ true)
          × (r ≡ record {
            node = record w { pool = c.0 };
            envelope = e;
            cached = true;
            error = none;
          }))
        ⊎ ((w' : Node P S) × (c.1 ≡ false)
            × (post_event P S e b (record w { pool = c.0 }) ≡ done w')
            × (r ≡ record { node = archive P S e w'; envelope = e; cached = true; error = none }))
  unfolding add_checked
  add_checked-done b e0 w {r} h =
      let e : Envelope P = with_hash P e0 in
      let c : Pool P S × Bool = cache_envelope P S e.hash e w.pool in
      elim (Bool-cases c.1) [
        | inl old ↦ inl (old, ground (arith, old))
        | inr new ↦
            let (w', posted, last) =
              bind-done (post_event P S e b (record w { pool = c.0 })) _ (rw new at h) in
            inr (w', new, posted, ground arith)
      ]

  pub cached_true :
      (b : Bool) (e0 : Envelope P) (w : Node P S) {r : Added P S}
      → add_checked P S b e0 w ≡ done r
      → r.cached ≡ true
  cached_true b e0 w h = elim (add_checked-done b e0 w h) [
    | inl (_, x) ↦ rw x refl
    | inr (_, _, _, x) ↦ rw x refl
  ]

  pub error_none :
      (b : Bool) (e0 : Envelope P) (w : Node P S) {r : Added P S}
      → add_checked P S b e0 w ≡ done r
      → r.error ≡ none
  error_none b e0 w h = elim (add_checked-done b e0 w h) [
    | inl (_, x) ↦ rw x refl
    | inr (_, _, _, x) ↦ rw x refl
  ]

  add_checked-IsValid :
      (b : Bool) (e0 : Envelope P) (w : Node P S) {r : Added P S}
      → IsValid w.pool
      → add_checked P S b e0 w ≡ done r
      → IsValid r.node.pool
  add_checked-IsValid b e0 w {r} v h =
      let e : Envelope P = with_hash P e0 in
      let c : Pool P S × Bool = cache_envelope P S e.hash e w.pool in
      let v' : IsValid c.0 = cache_envelope-IsValid P S e.hash e w.pool v in
      elim (add_checked-done b e0 w h) [
        | inl (old, x) ↦ rw x v'
        | inr (w', new, posted, x) ↦
            rw x
              (archive-IsValid e w' (rw (post_event-pool e b (record w { pool = c.0 }) posted) v'))
      ]

  pub data Cases (now : ℕ) (b : Bool) (e : Envelope P) (w : Node P S) (r : Added P S) : Type 0 where
    went_on :
        (e' : Envelope P)
        → check_envelope P now w.settings e ≡ accepted e'
        → add_checked P S b e' w ≡ done r
        → Cases now b e w r
    refused :
        (x : AddError)
        → check_envelope P now w.settings e ≡ rejected x
        → r ≡ record { node = w; envelope = e; cached = false; error = some x }
        → Cases now b e w r
    ignored :
        check_envelope P now w.settings e ≡ dropped
        → r ≡ record { node = w; envelope = e; cached = false; error = none }
        → Cases now b e w r

  pub add-Cases :
      (now : ℕ) (b : Bool) (e : Envelope P) (w : Node P S) {r : Added P S}
      → add P S now b e w ≡ done r
      → Cases now b e w r
  unfolding add
  add-Cases now b e w {r} h = go (check_envelope P now w.settings e) refl
    where
      go : (x : Verdict P) → check_envelope P now w.settings e ≡ x → Cases now b e w r
      go (accepted e') x = went_on e' x (rw (x, add) at h)
      go (rejected y) x = refused y x (ground arith)
      go dropped x = ignored x (ground arith)
      go crashed x = absurd (ground arith)

  -- Whatever `add` answers, it leaves the pool well formed.
  pub add-IsValid :
      (now : ℕ) (b : Bool) (e : Envelope P) (w : Node P S) {r : Added P S}
      → IsValid w.pool
      → add P S now b e w ≡ done r
      → IsValid r.node.pool
  add-IsValid now b e w v h = elim (add-Cases now b e w h) [
    | went_on e' _ x ↦ add_checked-IsValid b e' w v x
    | refused _ _ x ↦ rw x v
    | ignored _ x ↦ rw x v
  ]

  cache_envelope-cached :
      (h : ℕ) (e : Envelope P) (p : Pool P S)
      → (is_envelope_cached P S h (cache_envelope P S h e p).0 ≡ true)
        × ((cache_envelope P S h e p).1 ≡ is_envelope_cached P S h p)
  unfolding cache_envelope is_envelope_cached store_envelope
  cache_envelope-cached h e p = elim (Option-cases (lookup h p.envelopes)) [
    | inl x ↦ (ground (arith, lookup-insert h h e p.envelopes), ground arith)
    | inr (d, x) ↦ (ground arith, ground arith)
  ]

  -- Where a call of `add` ends with the envelope cached, it was in the pool before and nothing is
  -- posted, or it was not, and exactly one queue got it, once: the one for peer-to-peer messages
  -- if the envelope is not to be forwarded, the message queue otherwise.
  pub record Posted (b : Bool) (w : Node P S) (r : Added P S) : Type 0 where
    pub pooled : is_envelope_cached P S r.envelope.hash r.node.pool ≡ true
    pub no_error : r.error ≡ none
    pub queues :
        ((is_envelope_cached P S r.envelope.hash w.pool ≡ true)
          × (r.node.message_queue ≡ w.message_queue)
          × (r.node.p2p_msg_queue ≡ w.p2p_msg_queue))
        ⊎ ((is_envelope_cached P S r.envelope.hash w.pool ≡ false)
            × (r.node.message_queue
                ≡ (if b then w.message_queue else w.message_queue ++ r.envelope ∷ []))
            × (r.node.p2p_msg_queue ≡ (
                if b then w.p2p_msg_queue ++ envelope_item r.envelope ∷ [] else w.p2p_msg_queue)))

  archive_same :
      (e : Envelope P) (w : Node P S)
      → ((archive P S e w).message_queue ≡ w.message_queue)
        × ((archive P S e w).p2p_msg_queue ≡ w.p2p_msg_queue)
        × ((h : ℕ)
            → is_envelope_cached P S h (archive P S e w).pool ≡ is_envelope_cached P S h w.pool)
  unfolding archive is_envelope_cached
  archive_same e w = (ground arith, ground arith, λ h. ground arith)

  post_event_queues :
      (e : Envelope P) (b : Bool) (w : Node P S) {w' : Node P S}
      → post_event P S e b w ≡ done w'
      → (w'.message_queue ≡ (if b then w.message_queue else w.message_queue ++ e ∷ []))
        × (w'.p2p_msg_queue
            ≡ (if b then w.p2p_msg_queue ++ envelope_item e ∷ [] else w.p2p_msg_queue))
  unfolding post_event post_p2p
  post_event_queues e true w h = (ground arith, ground arith)
  post_event_queues e false w h = (ground arith, ground arith)

  add_checked-Posted :
      (b : Bool) (e0 : Envelope P) (w : Node P S) {r : Added P S}
      → add_checked P S b e0 w ≡ done r
      → Posted b w r
  add_checked-Posted b e0 w {r} h =
      let e : Envelope P = with_hash P e0 in
      let c : Pool P S × Bool = cache_envelope P S e.hash e w.pool in
      let (now_in, was) = cache_envelope-cached e.hash e w.pool in
      elim (add_checked-done b e0 w h) [
        | inl (old, x) ↦
            rw x (record {
              pooled = now_in;
              no_error = refl;
              queues = inl (sym was ∙ old, refl, refl);
            })
        | inr (w', new, posted, x) ↦
            let (m, p) = post_event_queues e b (record w { pool = c.0 }) posted in
            let (am, ap2p, ac) = archive_same e w' in
            let same = post_event-pool e b (record w { pool = c.0 }) posted in
            rw x (record {
              pooled = ac e.hash ∙ rw same now_in;
              no_error = refl;
              queues = inr (sym was ∙ new, am ∙ m, ap2p ∙ p);
            })
      ]

  -- A call of `add` that returns either changes nothing, and then it reports the envelope as not
  -- cached; or the envelope is in the pool, there is no error, and a queue got the envelope if and
  -- only if it was new: the peer-to-peer queue if it is not to be forwarded, otherwise the message
  -- queue, and the other queue stays as it was.
  pub add_outcome :
      (now : ℕ) (b : Bool) (e : Envelope P) (w : Node P S) {r : Added P S}
      → add P S now b e w ≡ done r
      → ((r.cached ≡ false) × (r.node ≡ w)) ⊎ ((r.cached ≡ true) × Posted b w r)
  add_outcome now b e w {r} h = elim (add-Cases now b e w h) [
    | went_on e' _ x ↦ inr (cached_true b e' w x, add_checked-Posted b e' w x)
    | refused _ _ x ↦ inl (rw x refl, rw x refl)
    | ignored _ x ↦ inl (rw x refl, rw x refl)
  ]
