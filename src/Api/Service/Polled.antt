-- ===== src/Api/Service/Polled.antt =====
-- What a poll of a filter gives its client (whisperv6/api.go).
use mathlib.Core.Path.{subst}
use whisper.Base.{
  List-cases, ℕ, ◌≡◌, ◌≤◌, refl, ap, sym, ◌∙◌, some_inj, List, [], ◌∷◌, ◌==◌, some, true, length,
  arith, All, inl, inr,
}
use whisper.Base.Assoc.{Assoc, insert}
use whisper.Base.Outcome.{ok}
use whisper.Api.Criteria.{Message, to_whisper_message}
use whisper.Api.Service.{Service, get_filter, to_message, take_messages, get_filter_messages}
use whisper.Filters.{Filter, Filters}
use whisper.Filters.Housed.{AtHome}
use whisper.Filters.Polls.{pop-empties}
use whisper.Filters.Store.{Stores, pop, put_store, retrieve}
use whisper.Filters.Stocked.{retrieve-IsStocked}
use whisper.Host.Callers.{retrieve-IsOrderly}
use whisper.Host.Orderly.{IsOrderly, Fair, Fit}
use whisper.Message.{ReceivedMessage}
use whisper.Platform.{Platform}
use whisper.Sets.{Sets}

module _ (P : Platform) where
  -- A client's message that is one of the store.
  pub record Reports (m : ReceivedMessage P) (r : Message P) : Type 0 where
    pub hash_eq : r.hash ≡ m.envelope_hash
    pub payload_eq : r.payload ≡ m.payload
    pub topic_eq : r.topic ≡ m.topic
    pub p2p_eq : r.p2p ≡ m.p2p

  -- One for one, in order.
  abbrev pub AllReported : List (ReceivedMessage P) → List (Message P) → Type 0
  AllReported [] [] = Unit
  AllReported [] (r ∷ rs) = ⊥
  AllReported (m ∷ ms) [] = ⊥
  AllReported (m ∷ ms) (r ∷ rs) = Reports m r × AllReported ms rs

  to_whisper_message_total :
      (m : ReceivedMessage P)
      → 1 ≤ length m.raw
      → (r : Message P) × (to_whisper_message P m ≡ some r) × Reports m r
  unfolding to_whisper_message
  to_whisper_message_total m h = elim (List-cases m.raw) [
    | inl n ↦
        let x : 1 ≤ length m.raw = h in
        let y : length m.raw ≡ 0 = ap length n in absurd (omega arith)
    | inr (flags, rest, n) ↦
        rw (n, to_whisper_message)
          (_, refl, record { hash_eq = refl; payload_eq = refl; topic_eq = refl; p2p_eq = refl })
  ]

  to_message_total :
      (S : Sets) (heap : Assoc (Filter P)) (a : ℕ) (ms : List (ReceivedMessage P))
      → All (Fit P heap a) ms
      → (rs : List (Message P)) × (to_message P S ms ≡ some rs) × AllReported ms rs
  unfolding to_message
  to_message_total S heap a [] f = ([], refl, tt)
  to_message_total S heap a (m ∷ ms) (f, fs) =
      let (r, e, k) = to_whisper_message_total m f.is_full in
      let (rs, es, ks) = to_message_total S heap a ms fs in
      (r ∷ rs, rw (e, es, to_message) refl, (k, ks))

module _ (P : Platform) (S : Sets) where
  -- The service after a poll.
  abbrev pub after_poll : ℕ → ℕ → Filter P → Service P S → Service P S
  after_poll now id f sv = record sv {
    host = record sv.host { stores = (retrieve P f sv.host.stores).1 };
    last_used = insert id now sv.last_used;
  }

  poll_returns :
      (now id : ℕ) (sv : Service P S) (f : Filter P)
      → IsOrderly sv.host
      → get_filter P S id sv.host ≡ some f
      → (rs : List (Message P)) × (get_filter_messages P S now id sv
          ≡ ok (after_poll now id f sv, rs))
        × AllReported P (retrieve P f sv.host.stores).0 rs
  unfolding get_filter_messages take_messages get_filter
  poll_returns now id sv f k found =
      let fits = (retrieve-IsStocked P (Fit P sv.host.filters.heap) f sv.host.stores k.stocked).0 in
      let (rs, e, all) =
        to_message_total P S sv.host.filters.heap f.at (retrieve P f sv.host.stores).0 fits in
      (rs, rw (found, e, get_filter_messages, take_messages) refl, all)

  nothing_left : (f : Filter P) (ss : Stores P) → (retrieve P f (retrieve P f ss).1).0 ≡ []
  unfolding retrieve put_store pop
  nothing_left f ss =
      let same : (f.at == f.at) ≡ true = ground arith in rw (pop-empties P (ss f.at), same) refl

  found_after :
      (now id : ℕ) (sv : Service P S) (f : Filter P)
      → get_filter P S id sv.host ≡ some f
      → get_filter P S id (after_poll now id f sv).host ≡ some f
  unfolding get_filter
  found_after now id sv f h = h

  -- What the filter behind an address may have, if it is this one.
  own_messages :
      (f : Filter P) (fs : Filters P) (ms : List (ReceivedMessage P))
      → AtHome fs f
      → All (Fit P fs.heap f.at) ms
      → All (λ m. Fair (f, m)) ms
  own_messages f fs [] home a = tt
  own_messages f fs (m ∷ ms) home (x, a) = (
    subst (λ i. Fair (i, m)) (some_inj (sym x.reader_is ∙ home)) x.is_fair,
    own_messages f fs ms home a,
  )

  none_reported : (rs : List (Message P)) → AllReported P [] rs → rs ≡ []
  none_reported [] a = refl
  none_reported (r ∷ rs) a = absurd a

  -- On every orderly node, GetFilterMessages of an installed filter returns: no message makes it
  -- panic. It reports the messages of the filter's store, one for one, each of which this filter may
  -- have (a direct one only if it takes them, and from the sender that it names); the node stays
  -- orderly; and a second poll with nothing in between reports
  -- no message.
  pub get_filter_messages_returns :
      (now later id : ℕ) (sv : Service P S) (f : Filter P)
      → IsOrderly sv.host
      → get_filter P S id sv.host ≡ some f
      → (rs : List (Message P)) × (get_filter_messages P S now id sv
          ≡ ok (after_poll now id f sv, rs))
        × AllReported P (retrieve P f sv.host.stores).0 rs
        × All (λ m. Fair (f, m)) (retrieve P f sv.host.stores).0
        × IsOrderly (after_poll now id f sv).host
        × (get_filter_messages P S later id (after_poll now id f sv)
            ≡ ok (after_poll later id f (after_poll now id f sv), []))
  unfolding get_filter
  get_filter_messages_returns now later id sv f k found =
      let (rs, e, all) = poll_returns now id sv f k found in
      let k' = retrieve-IsOrderly P S f sv.host k in
      let (rs', e', all') =
        poll_returns later id (after_poll now id f sv) f k' (found_after now id sv f found) in
      (
        rs,
        e,
        all,
        own_messages f sv.host.filters (retrieve P f sv.host.stores).0 (k.housed.watched id f found)
            (retrieve-IsStocked P (Fit P sv.host.filters.heap) f sv.host.stores k.stocked).0,
        k',
        rw (none_reported rs' (rw (nothing_left f sv.host.stores) at all')) at e',
      )
