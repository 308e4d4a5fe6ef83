-- ===== src/Filters/Install.antt =====
-- What `Install` and `Uninstall` of whisperv6/filter.go do to the topic matchers.
use whisper.Base.{
  ℕ, ◌≡◌, refl, sym, ap, ◌∙◌, List, [], ◌∷◌, ◌++◌, Bool, true, false, not, ◌&&◌, ◌||◌, ◌==◌, arith,
  if◌then◌else◌, length, Bool-cases, inl, inr, ==_iff,
}
use whisper.Base.Assoc.{insert}
use whisper.Filters.{
  Filter, Filters, put_in, take_out, add_topics, remove_topics, add_topic_matcher, with_id,
  remove_from_topic_matchers, get_watchers_by_topic,
}
use whisper.Platform.{Platform}
use whisper.Sets.{elem}
use whisper.Topic.{Topic, topic_eq, bytes_to_topic}

-- Whether one of the topics of a filter is a given one.
abbrev pub has_topic : List (List ℕ) → Topic → Bool
has_topic [] u = false
has_topic (t ∷ ts) u = topic_eq u (bytes_to_topic t) || has_topic ts u

elem-put_in : (a b : ℕ) (s : List ℕ) → elem b (put_in a s) ≡ ((a == b) || elem b s)
elem-put_in a b s = elim (Bool-cases (elem a s)) [
  | inl c ↦ elim (Bool-cases (a == b)) [
    | inl d ↦ rw (c, d) (ap (λ i. elem i s) (sym ((==_iff a b).0 d)) ∙ c)
    | inr d ↦ rw (c, d) refl
  ]
  | inr c ↦ rw c refl
]

elem-take_out : (a b : ℕ) (s : List ℕ) → elem b (take_out a s) ≡ (not (a == b) && elem b s)
elem-take_out a b [] = ground arith
elem-take_out a b (k ∷ s) = ground (arith, elem-take_out a b s)

elem-append : (b : ℕ) (s t : List ℕ) → elem b (s ++ t) ≡ (elem b s || elem b t)
elem-append b [] t = refl
elem-append b (k ∷ s) t = ground (arith, elem-append b s t)

add_step :
    (a b : ℕ) (here rest : Bool) (s : List ℕ)
    → (((a == b) && rest) || elem b (if here then put_in a s else s))
      ≡ (((a == b) && (here || rest)) || elem b s)
add_step a b true rest s = rw (elem-put_in a b s) (ground arith)
add_step a b false rest s = ground arith

remove_step :
    (a b : ℕ) (here rest : Bool) (s : List ℕ)
    → (not ((a == b) && rest) && elem b (if here then take_out a s else s))
      ≡ (not ((a == b) && (here || rest)) && elem b s)
remove_step a b true rest s = rw (elem-take_out a b s) (ground arith)
remove_step a b false rest s = ground arith

module _ (P : Platform) where
  elem-add_topics :
      (a b : ℕ) (ts : List (List ℕ)) (m : Topic → List ℕ) (u : Topic)
      → elem b (add_topics P a ts m u) ≡ (((a == b) && has_topic ts u) || elem b (m u))
  unfolding add_topics
  elem-add_topics a b [] m u = ground arith
  elem-add_topics a b (t ∷ ts) m u =
      elem-add_topics a b ts (λ u. if topic_eq u (bytes_to_topic t) then put_in a (m u) else m u) u
      ∙ add_step a b (topic_eq u (bytes_to_topic t)) (has_topic ts u) (m u)

  elem-remove_topics :
      (a b : ℕ) (ts : List (List ℕ)) (m : Topic → List ℕ) (u : Topic)
      → elem b (remove_topics P a ts m u) ≡ (not ((a == b) && has_topic ts u) && elem b (m u))
  unfolding remove_topics
  elem-remove_topics a b [] m u = ground arith
  elem-remove_topics a b (t ∷ ts) m u =
      elem-remove_topics a b ts
        (λ u. if topic_eq u (bytes_to_topic t) then take_out a (m u) else m u) u
      ∙ remove_step a b (topic_eq u (bytes_to_topic t)) (has_topic ts u) (m u)

  -- The filters that get_watchers_by_topic finds after a matcher was added.
  pub elem-add_topic_matcher :
      (f : Filter P) (fs : Filters P) (b : ℕ) (t : Topic)
      → elem b (get_watchers_by_topic P t (add_topic_matcher P f fs)) ≡ (
          ((f.at == b) && (length f.topics == 0 || has_topic f.topics t))
          || elem b (get_watchers_by_topic P t fs))
  unfolding add_topic_matcher get_watchers_by_topic
  elem-add_topic_matcher f fs b t = elim (Bool-cases (length f.topics == 0)) [
    | inl c ↦
        rw
          (
            c,
            elem-append b (put_in f.at fs.all_topics_matcher) (fs.topic_matcher t),
            elem-append b fs.all_topics_matcher (fs.topic_matcher t),
            elem-put_in f.at b fs.all_topics_matcher,
          )
          (ground arith)
    | inr c ↦
        rw
          (
            c,
            elem-append b fs.all_topics_matcher (add_topics P f.at f.topics fs.topic_matcher t),
            elem-append b fs.all_topics_matcher (fs.topic_matcher t),
            elem-add_topics f.at b f.topics fs.topic_matcher t,
          )
          (ground arith)
  ]

  pub elem-watchers :
      (b : ℕ) (t : Topic) (fs : Filters P)
      → elem b (get_watchers_by_topic P t fs)
        ≡ (elem b fs.all_topics_matcher || elem b (fs.topic_matcher t))
  unfolding get_watchers_by_topic
  elem-watchers b t fs = elem-append b fs.all_topics_matcher (fs.topic_matcher t)

  pub elem-remove_matcher :
      (f : Filter P) (fs : Filters P) (b : ℕ) (t : Topic)
      → elem b (get_watchers_by_topic P t (remove_from_topic_matchers P f fs)) ≡ (
          (not (f.at == b) && elem b fs.all_topics_matcher)
          || (not ((f.at == b) && has_topic f.topics t) && elem b (fs.topic_matcher t)))
  unfolding remove_from_topic_matchers
  elem-remove_matcher f fs b t =
      elem-watchers b t (remove_from_topic_matchers P f fs)
      ∙ rw
          (
            elem-take_out f.at b fs.all_topics_matcher,
            elem-remove_topics f.at b f.topics fs.topic_matcher t,
          )
          refl

  pub watchers-add_matcher :
      (f : Filter P) (fs : Filters P) → (add_topic_matcher P f fs).watchers ≡ fs.watchers
  unfolding add_topic_matcher
  watchers-add_matcher f fs = elim (Bool-cases (length f.topics == 0)) [
    | inl c ↦ rw c refl
    | inr c ↦ rw c refl
  ]

  -- The collection that `Install` stores the filter in, before the matchers are set.
  abbrev stored : ℕ → Filter P → Filters P → Filters P
  stored id f fs = record fs {
    watchers = insert id (with_id P id f) fs.watchers;
    heap = insert f.at (with_id P id f) fs.heap;
  }

  abbrev installed : ℕ → Filter P → Filters P → Filters P
  installed id f fs = add_topic_matcher P (with_id P id f) (stored id f fs)
