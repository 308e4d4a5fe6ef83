-- ===== src/Host/Drains.antt =====
-- `processQueue` of whisperv6/whisper.go empties its queue.
use whisper.Base.{
  ℕ, zero, suc, ◌≡◌, refl, ap, sym, ◌∙◌, List, [], ◌∷◌, ◌++◌, map, Option, none, some, length,
  false,
}
use mathlib.Core.List.{append-nil, append_assoc}
use whisper.Envelope.{Envelope, with_hash}
use whisper.Events.{EnvelopeEvent, hash_event, envelope_available}
use whisper.Filters.{Filter, Filters, notify_watchers}
use whisper.Filters.Store.{Stores, trigger, trigger_all}
use whisper.Filters.Total.{notify_watchers_total}
use whisper.Host.{Host, serve, process_queue}
use whisper.Host.Orderly.{IsOrderly, process_queue-IsOrderly}
use whisper.Message.{ReceivedMessage}
use whisper.Node.{Effect, done, waits, ◌>>=◌}
use whisper.Platform.{Platform}
use whisper.Sets.{Sets}

module _ (P : Platform) (S : Sets) where
  -- As many rounds of the loop of `processQueue`.
  unfoldable pub rounds : ℕ → Host P S → Effect (Host P S)
  unfolding process_queue
  rounds zero w = done w
  rounds (suc n) w = do w' ← process_queue P S w; rounds n w'

  abbrev pub available : Envelope P → EnvelopeEvent
  available e = record (hash_event envelope_available (with_hash P e).hash) { topic = e.topic }

  -- What the filters are given for some envelopes, each on its own.
  abbrev pub served : Filters P → List (Envelope P) → Option (List (Filter P × ReceivedMessage P))
  served fs [] = some []
  served fs (e ∷ es) = elim (notify_watchers P false e fs) [
    | none ↦ none
    | some out ↦ elim (served fs es) [ none ↦ none | some rest ↦ some (out ++ rest) ]
  ]

  served-cons :
      (fs : Filters P) (e : Envelope P) (es : List (Envelope P))
      (out rest : List (Filter P × ReceivedMessage P))
      → notify_watchers P false e fs ≡ some out
      → served fs es ≡ some rest
      → served fs (e ∷ es) ≡ some (out ++ rest)
  served-cons fs e es out rest h r = rw (h, r, served) refl

  trigger_all-append :
      (xs ys : List (Filter P × ReceivedMessage P)) (ss : Stores P)
      → trigger_all P (xs ++ ys) ss ≡ trigger_all P ys (trigger_all P xs ss)
  unfolding trigger_all
  trigger_all-append [] ys ss = refl
  trigger_all-append ((f, m) ∷ xs) ys ss = trigger_all-append xs ys (trigger P f m ss)

  -- The node after it emptied the queue `q`, and what the filters were given for it.
  pub record Drained (q : List (Envelope P)) (w u : Host P S) : Type 0 where
    pub empty : u.node.message_queue ≡ []
    pub out : List (Filter P × ReceivedMessage P)
    pub gave : served w.filters q ≡ some out
    pub inbox_eq : u.inbox ≡ w.inbox ++ out
    pub stores_eq : u.stores ≡ trigger_all P out w.stores
    pub told : u.node.pool.feed ≡ w.node.pool.feed ++ map available q

  -- One round.
  pub record Round (e : Envelope P) (q : List (Envelope P)) (w : Host P S) : Type 0 where
    pub after : Host P S
    pub ran : process_queue P S w ≡ done after
    pub queue : after.node.message_queue ≡ q
    pub filters_eq : after.filters ≡ w.filters
    pub given : List (Filter P × ReceivedMessage P)
    pub gave : notify_watchers P false e w.filters ≡ some given
    pub inbox_eq : after.inbox ≡ w.inbox ++ given
    pub stores_eq : after.stores ≡ trigger_all P given w.stores
    pub told : after.node.pool.feed ≡ w.node.pool.feed ++ available e ∷ []

  pub one_round :
      (e : Envelope P) (q : List (Envelope P)) (w : Host P S)
      → w.node.message_queue ≡ e ∷ q
      → IsOrderly w
      → Round e q w
  unfolding process_queue serve
  one_round e q w same k =
      let (out, n) = notify_watchers_total P false e w.filters k.backed in
      record {
        after = record w {
          node = record w.node {
            message_queue = q;
            pool = record w.node.pool { feed = w.node.pool.feed ++ available e ∷ [] };
          };
          inbox = w.inbox ++ out;
          stores = trigger_all P out w.stores;
        };
        ran = rw (same, n, process_queue, serve) refl;
        queue = refl;
        filters_eq = refl;
        given = out;
        gave = n;
        inbox_eq = refl;
        stores_eq = refl;
        told = refl;
      }

  drain :
      (q : List (Envelope P)) (w : Host P S)
      → w.node.message_queue ≡ q
      → IsOrderly w
      → (u : Host P S) × (rounds (length q) w ≡ done u) × Drained q w u × IsOrderly u
  unfolding rounds trigger_all
  drain [] w same k = (
    w,
    refl,
    record {
      empty = same;
      out = [];
      gave = refl;
      inbox_eq = sym (append-nil w.inbox);
      stores_eq = refl;
      told = sym (append-nil w.node.pool.feed);
    },
    k,
  )
  drain (e ∷ q) w same k =
      let r = one_round e q w same k in
      let (u, ran, d, o) = drain q r.after r.queue (process_queue-IsOrderly P S w r.ran k) in
      (
        u,
        rw (r.ran, rounds) ran,
        record {
          empty = d.empty;
          out = r.given ++ d.out;
          gave =
              served-cons w.filters e q r.given d.out r.gave
                (ap (λ fs. served fs q) (sym r.filters_eq) ∙ d.gave);
          inbox_eq = d.inbox_eq ∙ rw (r.inbox_eq, append_assoc) refl;
          stores_eq = d.stores_eq ∙ rw (r.stores_eq, trigger_all-append) refl;
          told = d.told ∙ rw (r.told, append_assoc) refl;
        },
        o,
      )

  -- From any orderly node, as many rounds of `processQueue` as its queue is long end without a panic
  -- or a wait, and the queue is then empty: every queued envelope was given, in the order of the
  -- queue, to the filters that `NotifyWatchers` finds for it, whose messages are in their stores, and
  -- was reported as available. The next round waits.
  pub process_queue_drains :
      (w : Host P S)
      → IsOrderly w
      → (u : Host P S) × (rounds (length w.node.message_queue) w ≡ done u)
        × Drained w.node.message_queue w u
        × (process_queue P S u ≡ waits)
  unfolding process_queue
  process_queue_drains w k =
      let (u, ran, d, o) = drain w.node.message_queue w refl k in
      (u, ran, d, rw (d.empty, process_queue) refl)
