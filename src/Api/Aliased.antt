-- ===== src/Api/Aliased.antt =====
-- The topics of the filters that `Messages` and `NewMessageFilter` of whisperv6/api.go install.
use whisper.Base.{
  ℕ, ◌≡◌, ◌≤◌, refl, ap, sym, ◌∙◌, arith, All-append, List, [], ◌∷◌, ◌++◌, Bool, true, false, not,
  ◌&&◌, ◌||◌, Option, ◌==◌, if◌then◌else◌, length, map, All, suc,
}
use mathlib.Core.List.{append-nil, append_assoc, map-append}
use mathlib.Core.Path.{subst}
use whisper.Api.{
  invalid_signing_pub_key, invalid_public_key, no_topics, key_error, given, unmarshalled,
}
use whisper.Api.Criteria.{Criteria, polled_filter, subscribed_filter, sym_key_for, private_key_for}
use whisper.Api.Slices.{
  topic_bytes, Arrays, fresh_arrays, write, append_slices, append_copies, contents,
  subscribed_topics, polled_topics,
}
use whisper.Base.Outcome.{Outcome, ok, err, panic, ◌>>=◌}
use whisper.Filters.{Filter}
use whisper.Keys.{KeyStore}
use whisper.Platform.{Platform}
use whisper.Topic.{Topic}

-- What holds of the value, if there is one.
abbrev Yields : {E A : Type 0} → (A → Type 0) → Outcome E A → Type 0
Yields Q (ok a) = Q a
Yields Q (err e) = Unit
Yields Q panic = Unit

Yields-bind :
    {E A B : Type 0} (Q : B → Type 0) (m : Outcome E A) (f : A → Outcome E B)
    → ((a : A) → Yields Q (f a))
    → Yields Q (m >>= f)
Yields-bind Q (ok a) f h = h a
Yields-bind Q (err e) f h = tt
Yields-bind Q panic f h = tt

Yields-if :
    {E A : Type 0} (Q : A → Type 0) (b : Bool) (e : E) (m : Outcome E A)
    → Yields Q m
    → Yields Q (if b then err e else m)
Yields-if Q true e m h = tt
Yields-if Q false e m h = h

module _ (P : Platform) (unmarshal : List ℕ → Option P.PublicKey) (at : ℕ) (crit : Criteria P)
    (ks : KeyStore P) where
  subscribed_topics_of :
      Yields
        (λ (f : Filter P). f.topics ≡ subscribed_topics crit.topics)
        (subscribed_filter P unmarshal at crit ks)
  unfolding subscribed_filter
  subscribed_topics_of =
      let Q = λ (f : Filter P). f.topics ≡ subscribed_topics crit.topics in
      let sym = given crit.sym_key_id in
      let asym = given crit.private_key_id in
      Yields-if Q ((sym && asym) || (not sym && not asym)) _ _ (
        Yields-bind Q (unmarshalled P unmarshal invalid_signing_pub_key crit.sig) _ λ src.
          Yields-bind Q
            (if sym && (length (subscribed_topics crit.topics) == 0)
              then err no_topics
              else sym_key_for P crit.sym_key_id ks)
            _
            λ key_sym.
              Yields-bind Q (private_key_for P (λ _. invalid_public_key) crit.private_key_id ks) _
                λ key_asym. refl)

  polled_topics_of :
      Yields
        (λ (f : Filter P). f.topics ≡ polled_topics crit.topics)
        (polled_filter P unmarshal at crit ks)
  unfolding polled_filter
  polled_topics_of =
      let Q = λ (f : Filter P). f.topics ≡ polled_topics crit.topics in
      let sym = given crit.sym_key_id in
      let asym = given crit.private_key_id in
      Yields-if Q ((sym && asym) || (not sym && not asym)) _ _ (
        Yields-bind Q (unmarshalled P unmarshal invalid_signing_pub_key crit.sig) _ λ src.
          Yields-bind Q (sym_key_for P crit.sym_key_id ks) _ λ key_sym.
            Yields-bind Q (private_key_for P key_error crit.private_key_id ks) _ λ key_asym. refl)

-- The last of some topics, or the one at hand where there is none.
abbrev pub last_topic : Topic → List Topic → Topic
last_topic t [] = t
last_topic t (u ∷ us) = last_topic u us

-- Every slice is one of the loop variable.
slices-append_slices :
    (ts : List Topic) (s : Arrays)
    → (append_slices ts s).slices ≡ s.slices ++ map (λ (t : Topic). 0) ts
unfolding append_slices
slices-append_slices [] s = sym (append-nil s.slices)
slices-append_slices (t ∷ ts) s =
    slices-append_slices ts _ ∙ append_assoc s.slices (0 ∷ []) (map (λ (t : Topic). 0) ts)

variable-append_slices :
    (t : Topic) (ts : List Topic) (s : Arrays)
    → (append_slices (t ∷ ts) s).array 0 ≡ topic_bytes (last_topic t ts)
unfolding append_slices
variable-append_slices t [] s = refl
variable-append_slices t (u ∷ us) s = variable-append_slices u us _

All-zero :
    (f : ℕ → List ℕ) (b : List ℕ) (ts : List Topic)
    → f 0 ≡ b
    → All (λ c. c ≡ b) (map f (map (λ (t : Topic). 0) ts))
All-zero f b [] h = tt
All-zero f b (t ∷ ts) h = (h, All-zero f b ts h)

length-map_zero :
    (f : ℕ → List ℕ) (ts : List Topic) → length (map f (map (λ (t : Topic). 0) ts)) ≡ length ts
length-map_zero f [] = refl
length-map_zero f (t ∷ ts) = ap suc (length-map_zero f ts)

-- The slices of the copies are at addresses that were taken from the free ones.
abbrev Taken : Arrays → Type 0
Taken s = All (λ a. (1 ≤ a) × (suc a ≤ s.next)) s.slices

kept_array :
    (s : Arrays) (v c : List ℕ) (l : List ℕ)
    → All (λ a. (1 ≤ a) × (suc a ≤ s.next)) l
    → map (write s.next c (write 0 v s)).array l ≡ map s.array l
kept_array s v c [] h = refl
kept_array s v c (a ∷ l) ((low, high), h) =
    let apart : (s.next == a) ≡ false = ground arith in
    let not_variable : (0 == a) ≡ false = ground arith in
    rw (apart, not_variable, kept_array s v c l h) refl

All-higher :
    (n : ℕ) (l : List ℕ)
    → All (λ a. (1 ≤ a) × (suc a ≤ n)) l
    → All (λ a. (1 ≤ a) × (suc a ≤ suc n)) l
All-higher n [] h = tt
All-higher n (a ∷ l) ((low, high), h) = ((low, omega arith), All-higher n l h)

contents-copy :
    (t : Topic) (s : Arrays)
    → Taken s
    → map (write s.next (topic_bytes t) (write 0 (topic_bytes t) s)).array (s.slices ++ s.next ∷ [])
      ≡ contents s ++ topic_bytes t ∷ []
contents-copy t s k =
    let f = (write s.next (topic_bytes t) (write 0 (topic_bytes t) s)).array in
    let own : (s.next == s.next) ≡ true = ground arith in
    let its : f s.next ≡ topic_bytes t = rw own refl in
    map-append f s.slices (s.next ∷ [])
    ∙ ap (λ l. l ++ f s.next ∷ []) (kept_array s (topic_bytes t) (topic_bytes t) s.slices k)
    ∙ ap (λ b. contents s ++ b ∷ []) its

contents-append_copies :
    (ts : List Topic) (s : Arrays)
    → 1 ≤ s.next
    → Taken s
    → contents (append_copies ts s) ≡ contents s ++ map topic_bytes ts
unfolding append_copies
contents-append_copies [] s n k = sym (append-nil (contents s))
contents-append_copies (t ∷ ts) s n k =
    contents-append_copies ts _ (omega arith) (
      All-append (λ a. (1 ≤ a) × (suc a ≤ suc s.next)) s.slices (s.next ∷ [])
        (All-higher s.next s.slices k) ((n, omega arith), tt))
    ∙ ap (λ l. l ++ map topic_bytes ts) (contents-copy t s k)
    ∙ append_assoc (contents s) (topic_bytes t ∷ []) (map topic_bytes ts)

-- With the same criteria, the filter that `NewMessageFilter` makes has the topics that were asked
-- for, in order; the one that `Messages` makes has as many topics, but each of them is the last one
-- that was asked for.
pub subscribed_topics_alias :
    (P : Platform) (unmarshal : List ℕ → Option P.PublicKey) (at : ℕ) (crit : Criteria P)
    (ks : KeyStore P) (t : Topic) (ts : List Topic) (f g : Filter P)
    → crit.topics ≡ t ∷ ts
    → polled_filter P unmarshal at crit ks ≡ ok g
    → subscribed_filter P unmarshal at crit ks ≡ ok f
    → (g.topics ≡ map topic_bytes (t ∷ ts))
      × (length f.topics ≡ suc (length ts))
      × All (λ b. b ≡ topic_bytes (last_topic t ts)) f.topics
unfolding polled_topics subscribed_topics
subscribed_topics_alias P unmarshal at crit ks t ts f g c p s =
    let a = append_slices (t ∷ ts) fresh_arrays in
    let x : f.topics ≡ map a.array (map (λ (t : Topic). 0) (t ∷ ts)) =
      subst (Yields (λ (f : Filter P). f.topics ≡ subscribed_topics crit.topics)) s
        (subscribed_topics_of P unmarshal at crit ks)
      ∙ ap subscribed_topics c
      ∙ ap (map a.array) (slices-append_slices (t ∷ ts) fresh_arrays) in
    let y : g.topics ≡ map topic_bytes (t ∷ ts) =
      subst (Yields (λ (f : Filter P). f.topics ≡ polled_topics crit.topics)) p
        (polled_topics_of P unmarshal at crit ks)
      ∙ ap polled_topics c
      ∙ contents-append_copies (t ∷ ts) fresh_arrays (omega arith) tt in
    (
      y,
      rw x (length-map_zero a.array (t ∷ ts)),
      rw x (All-zero a.array _ (t ∷ ts) (variable-append_slices t ts fresh_arrays)),
    )
