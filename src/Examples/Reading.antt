-- ===== src/Examples/Reading.antt =====
-- A message that is posted on a node and read by a client of the same node.
use whisper.Base.{
  ◌≡◌, refl, sym, ap, ◌∙◌, some_inj, none_is_some, List, [], ◌∷◌, false, none, some, arith,
  replicate, Bool-cases, inl, inr, ◌==◌,
}
use mathlib.Core.List.{Memᴰ}
use whisper.Api.Criteria.{Message}
use whisper.Api.Service.{Service, get_filter, get_filter_messages}
use whisper.Api.Service.Local.{post_to_client}
use whisper.Api.Service.Polled.{after_poll}
use whisper.Base.Assoc.{lookup}
use whisper.Base.Outcome.{ok}
use whisper.Filters.{Filter, deref, get_watchers_by_topic}
use whisper.Filters.Polls.{empty-IsKeyed}
use whisper.Filters.Housed.{IsHoused}
use whisper.Filters.Total.{IsBacked}
use whisper.Host.{Host, process_queue}
use whisper.Host.Orderly.{IsOrderly}
use whisper.Node.{done}
use whisper.Pool.{is_envelope_cached}
use whisper.Pool.Invariant.{empty_pool-IsValid}
use whisper.Examples.Sending.{
  elsewhere, request, keys, host, filter, posts, signature_law, salt_is, finds_key, sym_key,
}
use whisper.Examples.Values.{numbers, lists}

abbrev service : Service numbers lists
service = record { host = host; keys = keys; last_used = [] }

watched-IsBacked : IsBacked host.filters
unfolding get_watchers_by_topic lookup
watched-IsBacked = record {
  backed = λ t a h. elim (Bool-cases (9 == a)) [
    | inl c ↦ rw c refl
    | inr c ↦ absurd (ground (arith, c, h))
  ];
}

watched-IsHoused : IsHoused host.filters
unfolding lookup
watched-IsHoused = record {
  addressed = λ a f h. elim (Bool-cases (9 == a)) [
    | inl c ↦
        let same : some filter ≡ some f = rw c at h in
        ap (λ (i : Filter numbers). i.at) (sym (some_inj same)) ∙ ground (arith, c)
    | inr c ↦ absurd (none_is_some (rw c at h))
  ];
  watched = λ id f h. elim (Bool-cases (5 == id)) [
    | inl c ↦ let same : some filter ≡ some f = rw c at h in rw (← some_inj same) refl
    | inr c ↦ absurd (none_is_some (rw c at h))
  ];
}

host-IsOrderly : IsOrderly host
host-IsOrderly = record {
  valid = empty_pool-IsValid numbers lists;
  testable = tt;
  bounded = record { messages = omega arith; directs = omega arith };
  fair = tt;
  backed = watched-IsBacked;
  housed = watched-IsHoused;
  stocked = record { keyed = λ a. empty-IsKeyed numbers; stock = λ a. tt };
}

finds_filter : get_filter numbers lists 5 host ≡ some filter
unfolding get_filter lookup
finds_filter = refl

finds_watchers :
    deref numbers host.filters.heap (get_watchers_by_topic numbers request.topic host.filters)
    ≡ some (filter ∷ [])
unfolding deref lookup get_watchers_by_topic
finds_watchers = refl

not_cached : is_envelope_cached numbers lists posts.0.1 host.node.pool ≡ false
unfolding is_envelope_cached lookup
not_cached = refl

no_message : lookup posts.0.1 (host.stores 9) ≡ none
unfolding lookup
no_message = refl

post_to_client_example :
    (u : Host numbers lists) × (process_queue numbers lists posts.0.0 ≡ done u)
    × ((rs : List (Message numbers)) × (get_filter_messages numbers lists 20 5
            (record service { host = u })
          ≡ ok (after_poll numbers lists 20 5 filter (record service { host = u }), rs))
        × ((r : Message numbers) × Memᴰ r rs
            × (r.payload ≡ request.payload)
            × (r.topic ≡ request.topic)
            × (r.hash ≡ posts.0.1)))
post_to_client_example =
    post_to_client numbers lists elsewhere request service posts.0.0 posts.0.1 sym_key
      (some (replicate 12 1)) (some (replicate 12 2)) filter [] 20 5 signature_law
      (λ k n text. refl) (omega arith) (omega arith) refl refl finds_key salt_is host-IsOrderly refl
      refl refl refl refl finds_filter finds_watchers posts.1 not_cached no_message
