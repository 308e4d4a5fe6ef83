-- ===== src/Api/Service/Delivered.antt =====
-- From the queue of envelopes to the client that polls (whisperv6/whisper.go, filter.go, api.go).
use whisper.Base.{
  ℕ, ◌≡◌, refl, sym, ap, ◌∙◌, List, [], ◌∷◌, ◌++◌, ◌==◌, none, some, some_inj, none_is_some, true,
  false, arith, All, Bool-cases, inl, inr, ==_iff,
}
use mathlib.Core.List.{Memᴰ}
use whisper.Base.Assoc.{lookup}
use whisper.Base.Outcome.{ok}
use whisper.Api.Criteria.{Message}
use whisper.Api.Service.{Service, get_filter, get_filter_messages}
use whisper.Api.Service.Polled.{AllReported, Reports, after_poll, get_filter_messages_returns}
use whisper.Envelope.{Envelope}
use whisper.Filters.{
  Filter, match_envelope, open_for, wants_src, offer, notify, deref, notify_watchers,
  get_watchers_by_topic,
}
use whisper.Filters.Polls.{keep, lookup-store_message}
use whisper.Filters.Store.{Store, Stores, pop, put_store, retrieve, trigger_all, trigger}
use whisper.Filters.Total.{notify_total}
use whisper.Host.{Host, process_queue}
use whisper.Host.Drains.{one_round}
use whisper.Host.Orderly.{IsOrderly, process_queue-IsOrderly}
use whisper.Message.{ReceivedMessage}
use whisper.Node.{done}
use whisper.Platform.{Platform}
use whisper.Sets.{Sets}

module _ (P : Platform) where
  -- A filter that makes nothing of an envelope.
  abbrev pub IsSilent : Envelope P → Filter P → Type 0
  IsSilent e g = offer P false e g none ≡ some (none, false)

  abbrev forwarded : ReceivedMessage P → ReceivedMessage P
  forwarded m = record m { p2p = false }

  offer-opens :
      (e : Envelope P) (f : Filter P) (m : ReceivedMessage P)
      → match_envelope P f e ≡ true
      → open_for P f e ≡ some (some m)
      → wants_src P f m ≡ true
      → offer P false e f none ≡ some (some (forwarded m), true)
  unfolding offer wants_src
  offer-opens e f m k o s = rw (k, o, s, offer) refl

  -- Behind filters that are silent, a filter that opens the envelope gets the message.
  notify-first :
      (e : Envelope P) (pre : List (Filter P)) (f : Filter P) (post : List (Filter P))
      (m : ReceivedMessage P)
      → All (IsSilent e) pre
      → offer P false e f none ≡ some (some m, true)
      → (rest : List (Filter P × ReceivedMessage P)) × (notify P false e (pre ++ f ∷ post) none
          ≡ some ((f, m) ∷ rest))
  unfolding notify
  notify-first e [] f post m quiet o =
      let (rest, n) = notify_total P false e post (some m) in (rest, rw (o, n, notify) refl)
  notify-first e (g ∷ pre) f post m quiet o =
      let (rest, n) = notify-first e pre f post m quiet.1 o in (rest, rw (quiet.0, notify) n)

  trigger-keeps :
      (f : Filter P) (x m : ReceivedMessage P) (a h : ℕ) (ss : Stores P)
      → lookup h (ss a) ≡ some m
      → lookup h (trigger P f x ss a) ≡ some m
  unfolding trigger put_store
  trigger-keeps f x m a h ss e = elim (Bool-cases (f.at == a)) [
    | inl c ↦
        let same : f.at ≡ a = (==_iff f.at a).0 c in
        rw c (
          lookup-store_message P x (ss f.at) h
          ∙ ap (keep P x h) (ap (λ i. lookup h (ss i)) same ∙ e))
    | inr c ↦ rw c e
  ]

  trigger_all-keeps :
      (out : List (Filter P × ReceivedMessage P)) (m : ReceivedMessage P) (a h : ℕ) (ss : Stores P)
      → lookup h (ss a) ≡ some m
      → lookup h (trigger_all P out ss a) ≡ some m
  unfolding trigger_all
  trigger_all-keeps [] m a h ss e = e
  trigger_all-keeps ((f, x) ∷ out) m a h ss e =
      trigger_all-keeps out m a h (trigger P f x ss) (trigger-keeps f x m a h ss e)

  trigger-new :
      (f : Filter P) (m : ReceivedMessage P) (ss : Stores P)
      → lookup m.envelope_hash (ss f.at) ≡ none
      → lookup m.envelope_hash (trigger P f m ss f.at) ≡ some m
  unfolding trigger put_store
  trigger-new f m ss e =
      let c : (f.at == f.at) ≡ true = ground arith in
      let d : (m.envelope_hash == m.envelope_hash) ≡ true = ground arith in
      rw c (
        lookup-store_message P m (ss f.at) m.envelope_hash
        ∙ ap (keep P m m.envelope_hash) e
        ∙ rw d refl)

  -- What a store holds is reported when it is popped.
  popped :
      (s : Store P) (h : ℕ) (m : ReceivedMessage P) (rs : List (Message P))
      → lookup h s ≡ some m
      → AllReported P (pop P s).0 rs
      → (r : Message P) × Memᴰ r rs × Reports P m r
  unfolding lookup pop
  popped [] h m rs e all = absurd (none_is_some e)
  popped ((j, x) ∷ s) h m [] e all = absurd all
  popped ((j, x) ∷ s) h m (r ∷ rs) e all = elim (Bool-cases (j == h)) [
    | inl c ↦ (r, Memᴰ.head refl, rw (some_inj (rw c at e)) at all.0)
    | inr c ↦ let (r', mem, k) = popped s h m rs (rw c at e) all.1 in (r', Memᴰ.tail mem, k)
  ]

module _ (P : Platform) (S : Sets) where
  -- The message that a poll of the filter reports.
  pub record Polled (m : ReceivedMessage P) (rs : List (Message P)) : Type 0 where
    pub report : Message P
    pub among : Memᴰ report rs
    pub payload_eq : report.payload ≡ m.payload
    pub topic_eq : report.topic ≡ m.topic
    pub hash_eq : report.hash ≡ m.envelope_hash

  -- An orderly node whose queue begins with an envelope that an installed filter matches, opens and
  -- takes from its sender, where the filters that are tried before it make nothing of the envelope,
  -- and where the filter's store has no message of this envelope yet: the next round of
  -- `processQueue` ends, and GetFilterMessages of the filter then returns and reports the message.
  pub queue_to_client :
      (now id : ℕ) (sv : Service P S) (e : Envelope P) (q : List (Envelope P))
      (pre : List (Filter P)) (f : Filter P) (post : List (Filter P)) (m : ReceivedMessage P)
      → IsOrderly sv.host
      → sv.host.node.message_queue ≡ e ∷ q
      → deref P sv.host.filters.heap (get_watchers_by_topic P e.topic sv.host.filters)
        ≡ some (pre ++ f ∷ post)
      → All (IsSilent P e) pre
      → get_filter P S id sv.host ≡ some f
      → match_envelope P f e ≡ true
      → open_for P f e ≡ some (some m)
      → wants_src P f m ≡ true
      → lookup m.envelope_hash (sv.host.stores f.at) ≡ none
      → (u : Host P S) × (process_queue P S sv.host ≡ done u)
        × ((rs : List (Message P)) × (get_filter_messages P S now id (record sv { host = u })
              ≡ ok (after_poll P S now id f (record sv { host = u }), rs))
            × Polled m rs)
  unfolding notify_watchers trigger_all get_filter retrieve
  queue_to_client now id sv e q pre f post m k queue candidates quiet found matched opened src new =
      let m' = forwarded P m in
      let r = one_round P S e q sv.host queue k in
      let (rest, n) =
        notify-first P e pre f post m' quiet (offer-opens P e f m matched opened src) in
      let given : notify_watchers P false e sv.host.filters ≡ some ((f, m') ∷ rest) =
        rw (candidates, notify_watchers) n in
      let same : r.given ≡ (f, m') ∷ rest = some_inj (sym r.gave ∙ given) in
      let stored : lookup m.envelope_hash (r.after.stores f.at) ≡ some m' =
        ap (λ ss. lookup m.envelope_hash (ss f.at))
          (r.stores_eq ∙ ap (λ out. trigger_all P out sv.host.stores) same)
        ∙ trigger_all-keeps P rest m' f.at m.envelope_hash (trigger P f m' sv.host.stores)
            (trigger-new P f m' sv.host.stores new) in
      let found' : get_filter P S id r.after ≡ some f =
        ap (λ fs. lookup id fs.watchers) r.filters_eq ∙ found in
      let (rs, got, all, _, _, _) =
        get_filter_messages_returns P S now now id (record sv { host = r.after }) f
          (process_queue-IsOrderly P S sv.host r.ran k) found' in
      let (report, among, t) = popped P (r.after.stores f.at) m.envelope_hash m' rs stored all in
      (
        r.after,
        r.ran,
        (
          rs,
          got,
          record {
            report = report;
            among = among;
            payload_eq = t.payload_eq;
            topic_eq = t.topic_eq;
            hash_eq = t.hash_eq;
          },
        ),
      )
