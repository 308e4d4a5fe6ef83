-- ===== src/Pool/Expire.antt =====
-- `expire` of whisperv6/whisper.go.
use whisper.Base.{
  ℕ, suc, ◌+◌, ◌≡◌, refl, sym, ap, ◌∙◌, true, false, [], ◌∷◌, Option, none, some, arith, ◌==◌,
  ==_iff, if◌then◌else◌, ◌&&◌, Bool-cases, Option-cases, inl, inr, ltb,
}
use whisper.Base.Assoc.{Assoc, lookup, remove, Unique, lookup-remove, remove-Unique}
use whisper.Envelope.{Envelope}
use whisper.Message.{is_some}
use whisper.Platform.{Platform}
use whisper.Pool.{Pool, drop_bucket, expire_hash, expire_bucket, expire_loop, expire, reset}
use whisper.Pool.Invariant.{IsValid}
use whisper.Pool.Sweep.{Swept, sweep}
use whisper.Sets.{Sets, elem}

module _ (P : Platform) (S : Sets) where
  -- `q` is the valid pool `p` without the envelopes of the buckets in `l` that are due.
  abbrev survives : ℕ → Assoc S.HashSet → Option (Envelope P) → Option (Envelope P)
  survives now l none = none
  survives now l (some e) = if ltb e.expiry now && is_some (lookup e.expiry l) then none else some e

  -- An envelope that is not of expiry `t`.
  abbrev unless_at : ℕ → Option (Envelope P) → Option (Envelope P)
  unless_at t none = none
  unless_at t (some e) = if e.expiry == t then none else some e

  record Expired (now : ℕ) (l : Assoc S.HashSet) (p q : Pool P S) : Type 0 where
    valid : IsValid q
    left : (h : ℕ) → lookup h q.envelopes ≡ survives now l (lookup h p.envelopes)
    balance :
        q.stats.memory_used + q.stats.memory_cleared ≡ p.stats.memory_used + p.stats.memory_cleared
    same_counts :
        (q.stats.cycles ≡ p.stats.cycles)
        × (q.stats.total_messages_cleared ≡ p.stats.total_messages_cleared)

  record Dropped (t : ℕ) (p q : Pool P S) : Type 0 where
    valid : IsValid q
    left : (h : ℕ) → lookup h q.envelopes ≡ unless_at t (lookup h p.envelopes)
    buckets : (j : ℕ) → lookup j q.expirations ≡ (if t == j then none else lookup j p.expirations)
    balance :
        q.stats.memory_used + q.stats.memory_cleared ≡ p.stats.memory_used + p.stats.memory_cleared
    same_counts :
        (q.stats.cycles ≡ p.stats.cycles)
        × (q.stats.total_messages_cleared ≡ p.stats.total_messages_cleared)

  -- A bucket that is due goes, and its envelopes with it.
  module _ (now t : ℕ) (s : S.HashSet) (p : Pool P S) (v : IsValid p)
      (has : lookup t p.expirations ≡ some s) where
    Swept-bucket :
        (q : Pool P S) × (S.each (Option (Pool P S)) s (expire_hash P S) (some p) ≡ some q)
        × Swept (S.elements s) p q
    Swept-bucket =
        let (q, run, w) =
          sweep P S (S.elements s) p (S.elements-Distinct s) present v.unique_envelopes
            v.accounted in
        (q, S.each_elements (Option (Pool P S)) s (expire_hash P S) (some p) ∙ run, w)
      where
        present :
            (k : ℕ)
            → elem k (S.elements s) ≡ true
            → (e : Envelope P) × (lookup k p.envelopes ≡ some e)
        present k x = let (e, le, _) = v.cached t k s has (sym (S.elem-elements k s) ∙ x) in (e, le)

    -- The bucket's set has exactly the hashes of the cached envelopes of its expiry.
    in_bucket :
        (h : ℕ) (e : Envelope P)
        → lookup h p.envelopes ≡ some e
        → elem h (S.elements s) ≡ (e.expiry == t)
    in_bucket h e le = S.elem-elements h s ∙ elim (Bool-cases (S.contains h s)) [
      | inl c ↦ let (d, ld, de) = v.cached t h s has c in ground (arith, le, ld, de)
      | inr c ↦
          let (s', ls, c') = v.tracked h e le in
          elim (Bool-cases (e.expiry == t)) [
            | inl at ↦ absurd (
                let same : lookup e.expiry p.expirations ≡ some s =
                  ap (λ j. lookup j p.expirations) ((==_iff e.expiry t).0 at) ∙ has in
                let ss : s' ≡ s = cc (same, ls) in
                ground (arith, c, sym (ap (S.contains h) ss) ∙ c'))
            | inr away ↦ rw away c
          ]
    ]

    module _ (q : Pool P S) (w : Swept (S.elements s) p q) where
      left_at : (h : ℕ) → lookup h q.envelopes ≡ unless_at t (lookup h p.envelopes)
      left_at h = w.left h ∙ elim (Option-cases (lookup h p.envelopes)) [
        | inl x ↦ rw x (ground arith)
        | inr (e, x) ↦ rw (x, in_bucket h e x)
      ]

      kept :
          (h : ℕ) (e : Envelope P)
          → lookup h q.envelopes ≡ some e
          → (lookup h p.envelopes ≡ some e) × ((e.expiry == t) ≡ false)
      kept h e x = elim (Option-cases (lookup h p.envelopes)) [
        | inl y ↦ absurd (ground (arith, left_at h))
        | inr (d, y) ↦ elim (Bool-cases (d.expiry == t)) [
          | inl z ↦ absurd (ground (arith, left_at h))
          | inr z ↦ (ground (arith, left_at h), ground (arith, left_at h))
        ]
      ]

      bucket_at :
          (j : ℕ)
          → lookup j (remove t q.expirations) ≡ (if t == j then none else lookup j p.expirations)
      bucket_at j = lookup-remove t j q.expirations ∙ rw w.same_expirations refl

      dropped_tracked :
          (h : ℕ) (e : Envelope P)
          → lookup h q.envelopes ≡ some e
          → (r : S.HashSet) × (lookup e.expiry (remove t q.expirations) ≡ some r)
            × (S.contains h r ≡ true)
      dropped_tracked h e x =
          let (le, away) = kept h e x in
          let (r, ls, c) = v.tracked h e le in (r, bucket_at e.expiry ∙ ground arith, c)

      dropped_cached :
          (j h : ℕ) (r : S.HashSet)
          → lookup j (remove t q.expirations) ≡ some r
          → S.contains h r ≡ true
          → (e : Envelope P) × (lookup h q.envelopes ≡ some e) × (e.expiry ≡ j)
      dropped_cached j h r x c = elim (Bool-cases (t == j)) [
        | inl same ↦ absurd (ground (arith, bucket_at j))
        | inr other ↦
            let (e, le, ee) = v.cached j h r (ground (arith, bucket_at j)) c in
            (e, left_at h ∙ rw le (ground arith), ee)
      ]

      Swept-Dropped : Dropped t p (drop_bucket P S t q)
      Swept-Dropped = record {
        valid = record {
          unique_envelopes = w.still_unique;
          unique_expirations =
              remove-Unique t q.expirations (rw w.same_expirations v.unique_expirations);
          tracked = dropped_tracked;
          cached = dropped_cached;
          accounted = w.still_accounted;
        };
        left = left_at;
        buckets = bucket_at;
        balance = w.balance;
        same_counts = w.same_counts;
      }

  drop_due :
      (now t : ℕ) (s : S.HashSet) (p : Pool P S)
      → IsValid p
      → lookup t p.expirations ≡ some s
      → ltb t now ≡ true
      → (q : Pool P S) × (expire_bucket P S now t s p ≡ some q) × Dropped t p q
  unfolding expire_bucket
  drop_due now t s p v has due =
      let (q, run, w) = Swept-bucket now t s p v has in
      (drop_bucket P S t q, rw (due, run), Swept-Dropped now t s p v has q w)

  later :
      (now t : ℕ) (s : S.HashSet) (p : Pool P S)
      → ltb t now ≡ false
      → expire_bucket P S now t s p ≡ some p
  unfolding expire_bucket
  later now t s p h = rw h

  survives_due :
      (now t : ℕ) (s : S.HashSet) (l : Assoc S.HashSet) (o : Option (Envelope P))
      → ltb t now ≡ true
      → survives now l (unless_at t o) ≡ survives now ((t, s) ∷ l) o
  unfolding lookup
  survives_due now t s l none due = refl
  survives_due now t s l (some e) due = elim (Bool-cases (e.expiry == t)) [
    | inl at ↦ rw at (ground arith)
    | inr away ↦ rw away (ground arith)
  ]

  survives_later :
      (now t : ℕ) (s : S.HashSet) (l : Assoc S.HashSet) (o : Option (Envelope P))
      → ltb t now ≡ false
      → survives now l o ≡ survives now ((t, s) ∷ l) o
  unfolding lookup
  survives_later now t s l none due = refl
  survives_later now t s l (some e) due = ground arith

  survives_all : (now : ℕ) (o : Option (Envelope P)) → o ≡ survives now [] o
  unfolding lookup
  survives_all now none = refl
  survives_all now (some e) = ground arith

  other_key :
      (t j : ℕ) (l : Assoc S.HashSet) {r : S.HashSet}
      → lookup t l ≡ none
      → lookup j l ≡ some r
      → (t == j) ≡ false
  other_key t j l x y = elim (Bool-cases (t == j)) [
    | inl same ↦ absurd (ground (arith, ap (λ i. lookup i l) ((==_iff t j).0 same)))
    | inr other ↦ other
  ]

  behind :
      (t j : ℕ) (s : S.HashSet) (l : Assoc S.HashSet) {r : S.HashSet}
      → lookup t l ≡ none
      → lookup j l ≡ some r
      → lookup j ((t, s) ∷ l) ≡ some r
  unfolding lookup
  behind t j s l x y = rw (other_key t j l x y) y

  at_head : (t : ℕ) (s : S.HashSet) (l : Assoc S.HashSet) → lookup t ((t, s) ∷ l) ≡ some s
  unfolding lookup
  at_head t s l = ground arith

  -- The traversal of a snapshot `l` of the buckets.
  expire_loop-Expired :
      (now : ℕ) (l : Assoc S.HashSet) (p : Pool P S)
      → IsValid p
      → Unique l
      → ((t : ℕ) (s : S.HashSet) → lookup t l ≡ some s → lookup t p.expirations ≡ some s)
      → (q : Pool P S) × (expire_loop P S now l p ≡ some q) × Expired now l p q
  unfolding expire_loop lookup
  expire_loop-Expired now [] p v u sub = (
    p,
    refl,
    record {
      valid = v;
      left = λ h. survives_all now (lookup h p.envelopes);
      balance = refl;
      same_counts = (refl, refl);
    },
  )
  expire_loop-Expired now ((t, s) ∷ l) p v u sub = elim (Bool-cases (ltb t now)) [
    | inr notdue ↦
        let (q, run, x) =
          expire_loop-Expired now l p v u.1 (λ j r y. sub j r (behind t j s l u.0 y)) in
        (
          q,
          rw (later now t s p notdue, expire_loop) run,
          record {
            valid = x.valid;
            left = λ h. x.left h ∙ survives_later now t s l (lookup h p.envelopes) notdue;
            balance = x.balance;
            same_counts = x.same_counts;
          },
        )
    | inl due ↦
        let (m, first, d) = drop_due now t s p v (sub t s (at_head t s l)) due in
        let (q, run, x) =
          expire_loop-Expired now l m d.valid u.1
            (λ j r y. d.buckets j ∙ rw (other_key t j l u.0 y) (sub j r (behind t j s l u.0 y))) in
        (
          q,
          rw (first, expire_loop) run,
          record {
            valid = x.valid;
            left = λ h.
                x.left h
                ∙ ap (survives now l) (d.left h)
                ∙ survives_due now t s l (lookup h p.envelopes) due;
            balance = x.balance ∙ d.balance;
            same_counts = (x.same_counts.0 ∙ d.same_counts.0, x.same_counts.1 ∙ d.same_counts.1);
          },
        )
  ]

  -- An envelope that has not expired at `now`.
  abbrev pub unexpired : ℕ → Option (Envelope P) → Option (Envelope P)
  unexpired now none = none
  unexpired now (some e) = if ltb e.expiry now then none else some e

  survives-unexpired :
      (now : ℕ) (p : Pool P S) (o : Option (Envelope P))
      → ((e : Envelope P) → o ≡ some e → (s : S.HashSet) × (lookup e.expiry p.expirations ≡ some s))
      → survives now p.expirations o ≡ unexpired now o
  survives-unexpired now p none h = refl
  survives-unexpired now p (some e) h = let (s, x) = h e refl in rw x (ground arith)

  -- `expire` meets no nil envelope, keeps the pool well formed, and leaves exactly the envelopes
  -- that have not expired. The memory that it reports as cleared is what the use of memory fell
  -- by, and one more cycle is counted.
  pub expire_exact :
      (now : ℕ) (p : Pool P S)
      → IsValid p
      → (q : Pool P S) × (expire P S now p ≡ some q)
        × IsValid q
        × ((h : ℕ) → lookup h q.envelopes ≡ unexpired now (lookup h p.envelopes))
        × (q.stats.memory_used + q.stats.memory_cleared ≡ p.stats.memory_used)
        × (q.stats.cycles ≡ suc p.stats.cycles)
        × (q.stats.total_messages_cleared
            ≡ p.stats.total_messages_cleared + p.stats.messages_cleared)
  unfolding expire reset
  expire_exact now p v =
      let p0 : Pool P S = record p { stats = reset p.stats } in
      let v0 : IsValid p0 = record {
        unique_envelopes = v.unique_envelopes;
        unique_expirations = v.unique_expirations;
        tracked = v.tracked;
        cached = v.cached;
        accounted = v.accounted;
      } in
      let (q, run, x) =
        expire_loop-Expired now p.expirations p0 v0 v.unique_expirations (λ t s y. y) in
      (
        q,
        run,
        x.valid,
        (λ h.
            x.left h
            ∙ survives-unexpired now p (lookup h p.envelopes)
                (λ e y. let (s, z, _) = v.tracked h e y in (s, z))),
        x.balance ∙ omega arith,
        x.same_counts.0,
        x.same_counts.1,
      )
