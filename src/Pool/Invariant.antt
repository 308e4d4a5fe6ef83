-- ===== src/Pool/Invariant.antt =====
-- What holds of the pool between two operations, and that `add` keeps it.
use whisper.Base.{
  ℕ, ◌≡◌, refl, ap, ◌∙◌, true, false, Option, none, some, arith, ◌==◌, Bool-cases, Option-cases,
  inl, inr, ◌||◌, ==_iff,
}
use whisper.Base.Assoc.{lookup, insert, Unique, total, lookup-insert, insert-Unique, total-insert}
use whisper.Envelope.{Envelope, size}
use whisper.Platform.{Platform}
use whisper.Pool.{Pool, empty_pool, bucket, put, store_envelope, cache_envelope}
use whisper.Sets.{Sets}

-- Each cached envelope is tracked under its expiry, each tracked hash is cached with that expiry,
-- and the memory used is the size of what is cached.
pub record IsValid {P : Platform} {S : Sets} (p : Pool P S) : Type 0 where
  pub unique_envelopes : Unique p.envelopes
  pub unique_expirations : Unique p.expirations
  pub tracked :
      (h : ℕ) (e : Envelope P)
      → lookup h p.envelopes ≡ some e
      → (s : S.HashSet) × (lookup e.expiry p.expirations ≡ some s) × (S.contains h s ≡ true)
  pub cached :
      (t h : ℕ) (s : S.HashSet)
      → lookup t p.expirations ≡ some s
      → S.contains h s ≡ true
      → (e : Envelope P) × (lookup h p.envelopes ≡ some e) × (e.expiry ≡ t)
  pub accounted : p.stats.memory_used ≡ total (size P) p.envelopes

module _ (P : Platform) (S : Sets) where
  pub empty_pool-IsValid : IsValid (empty_pool P S)
  unfolding lookup total
  empty_pool-IsValid = record {
    unique_envelopes = tt;
    unique_expirations = tt;
    tracked = λ h e x. absurd (ground arith);
    cached = λ t h s x y. absurd (ground arith);
    accounted = refl;
  }

  contains-put :
      (h k : ℕ) (s : S.HashSet) → S.contains k (put P S h s) ≡ ((h == k) || S.contains k s)
  unfolding put
  contains-put h k s = elim (Bool-cases (S.contains h s)) [
    | inl e ↦ rw e (ground arith)
    | inr e ↦ rw e (S.contains-add k h s)
  ]

  contains-bucket :
      (k : ℕ) (o : Option S.HashSet)
      → S.contains k (bucket P S o) ≡ true
      → (s : S.HashSet) × (o ≡ some s) × (S.contains k s ≡ true)
  contains-bucket k none h = absurd (ground (arith, S.contains-new_set k))
  contains-bucket k (some s) h = (s, refl, h)

  module _ (h : ℕ) (e : Envelope P) (p : Pool P S) (v : IsValid p)
      (fresh : lookup h p.envelopes ≡ none) where
    new_bucket : S.HashSet
    new_bucket = put P S h (bucket P S (lookup e.expiry p.expirations))

    store_tracked :
        (k : ℕ) (d : Envelope P)
        → lookup k (insert h e p.envelopes) ≡ some d
        → (s : S.HashSet) × (lookup d.expiry (insert e.expiry new_bucket p.expirations) ≡ some s)
          × (S.contains k s ≡ true)
    unfolding new_bucket
    store_tracked k d x = elim (Bool-cases (h == k)) [
      | inl same ↦
          let ed : e ≡ d = ground (arith, lookup-insert h k e p.envelopes) in
          (
            new_bucket,
            lookup-insert e.expiry d.expiry new_bucket p.expirations ∙ rw ed (ground arith),
            contains-put h k (bucket P S (lookup e.expiry p.expirations)) ∙ ground arith,
          )
      | inr other ↦
          let (s, ls, c) = v.tracked k d (ground (arith, lookup-insert h k e p.envelopes)) in
          elim (Bool-cases (e.expiry == d.expiry)) [
            | inl t ↦ (
              new_bucket,
              lookup-insert e.expiry d.expiry new_bucket p.expirations ∙ rw t,
              contains-put h k (bucket P S (lookup e.expiry p.expirations))
                  ∙ let le : lookup e.expiry p.expirations ≡ some s =
                      ap (λ j. lookup j p.expirations) ((==_iff e.expiry d.expiry).0 t) ∙ ls in
                    rw (le, other) c,
            )
            | inr t ↦ (s, lookup-insert e.expiry d.expiry new_bucket p.expirations ∙ rw t ls, c)
          ]
    ]

    old_hash :
        (k : ℕ)
        → (h == k) ≡ false
        → S.contains k new_bucket ≡ true
        → S.contains k (bucket P S (lookup e.expiry p.expirations)) ≡ true
    unfolding new_bucket
    old_hash k other c =
        ground (arith, contains-put h k (bucket P S (lookup e.expiry p.expirations)))

    old_set :
        (t : ℕ) (s : S.HashSet)
        → (e.expiry == t) ≡ false
        → lookup t (insert e.expiry new_bucket p.expirations) ≡ some s
        → lookup t p.expirations ≡ some s
    old_set t s away x = ground (arith, lookup-insert e.expiry t new_bucket p.expirations)

    stale : (k : ℕ) (d : Envelope P) → (h == k) ≡ true → lookup k p.envelopes ≡ some d → ⊥
    stale k d same x = ground (arith, ap (λ j. lookup j p.envelopes) ((==_iff h k).0 same))

    store_cached :
        (t k : ℕ) (s : S.HashSet)
        → lookup t (insert e.expiry new_bucket p.expirations) ≡ some s
        → S.contains k s ≡ true
        → (d : Envelope P) × (lookup k (insert h e p.envelopes) ≡ some d) × (d.expiry ≡ t)
    unfolding new_bucket
    store_cached t k s x c = elim (Bool-cases (e.expiry == t)) [
      | inl at ↦ elim (Bool-cases (h == k)) [
        | inl same ↦ (e, lookup-insert h k e p.envelopes ∙ rw same, (==_iff e.expiry t).0 at)
        | inr other ↦
            let set_eq : new_bucket ≡ s =
              ground (arith, lookup-insert e.expiry t new_bucket p.expirations) in
            let c' : S.contains k (bucket P S (lookup e.expiry p.expirations)) ≡ true =
              old_hash k other (ap (S.contains k) set_eq ∙ c) in
            let (s0, ls, c0) = contains-bucket k (lookup e.expiry p.expirations) c' in
            let (d, ld, de) = v.cached e.expiry k s0 ls c0 in
            (d, lookup-insert h k e p.envelopes ∙ rw other ld, de ∙ (==_iff e.expiry t).0 at)
      ]
      | inr away ↦
          let (d, ld, de) = v.cached t k s (old_set t s away x) c in
          elim (Bool-cases (h == k)) [
            | inl same ↦ absurd (stale k d same ld)
            | inr other ↦ (d, lookup-insert h k e p.envelopes ∙ rw other ld, de)
          ]
    ]

    store_envelope-IsValid : IsValid (store_envelope P S h e p)
    unfolding store_envelope new_bucket
    store_envelope-IsValid = record {
      unique_envelopes = insert-Unique h e p.envelopes v.unique_envelopes;
      unique_expirations = insert-Unique e.expiry new_bucket p.expirations v.unique_expirations;
      tracked = store_tracked;
      cached = store_cached;
      accounted = ground (arith, v.accounted, total-insert (size P) h e p.envelopes);
    }

  -- `add` keeps the pool well formed, whether the envelope is new or not.
  pub cache_envelope-IsValid :
      (h : ℕ) (e : Envelope P) (p : Pool P S) → IsValid p → IsValid (cache_envelope P S h e p).0
  unfolding cache_envelope
  cache_envelope-IsValid h e p v = elim (Option-cases (lookup h p.envelopes)) [
    | inr (old, x) ↦ rw (x, cache_envelope) v
    | inl x ↦ rw (x, cache_envelope) (store_envelope-IsValid h e p v x)
  ]
