-- ===== src/Pool/Sweep.antt =====
-- One bucket of `expire`: what the calls that `Each` makes leave of the pool.
use whisper.Base.{
  ℕ, ◌+◌, ◌≡◌, refl, ap, ◌∙◌, true, false, List, [], ◌∷◌, none, some, arith, ◌==◌, if◌then◌else◌,
  Bool-cases, inl, inr, ==_iff,
}
use whisper.Base.Assoc.{lookup, remove, Unique, total, lookup-remove, remove-Unique, total-remove}
use whisper.Envelope.{Envelope, size}
use whisper.Platform.{Platform}
use whisper.Pool.{Pool, clear_envelope, expire_hash}
use whisper.Sets.{Sets, elem, Distinct, each_until}

-- `q` is `p` without the envelopes of the hashes `ks`.
pub record Swept {P : Platform} {S : Sets} (ks : List ℕ) (p q : Pool P S) : Type 0 where
  pub same_expirations : q.expirations ≡ p.expirations
  pub still_unique : Unique q.envelopes
  pub left : (h : ℕ) → lookup h q.envelopes ≡ (if elem h ks then none else lookup h p.envelopes)
  pub still_accounted : q.stats.memory_used ≡ total (size P) q.envelopes
  pub balance :
      q.stats.memory_used + q.stats.memory_cleared ≡ p.stats.memory_used + p.stats.memory_cleared
  pub same_counts :
      (q.stats.cycles ≡ p.stats.cycles)
      × (q.stats.total_messages_cleared ≡ p.stats.total_messages_cleared)

module _ (P : Platform) (S : Sets) where
  clear :
      (k : ℕ) {e : Envelope P} (p : Pool P S)
      → lookup k p.envelopes ≡ some e
      → expire_hash P S k (some p) ≡ (some (clear_envelope P S k e p), false)
  unfolding expire_hash
  clear k p le = rw (le, expire_hash)

  -- Under the conditions no call of the traversal meets a nil envelope.
  pub sweep :
      (ks : List ℕ) (p : Pool P S)
      → Distinct ks
      → ((k : ℕ) → elem k ks ≡ true → (e : Envelope P) × (lookup k p.envelopes ≡ some e))
      → Unique p.envelopes
      → p.stats.memory_used ≡ total (size P) p.envelopes
      → (q : Pool P S) × (each_until ks (expire_hash P S) (some p) ≡ some q) × Swept ks p q
  sweep [] p d present u m = (
    p,
    refl,
    record {
      same_expirations = refl;
      still_unique = u;
      left = λ h. refl;
      still_accounted = m;
      balance = refl;
      same_counts = (refl, refl);
    },
  )
  sweep (k ∷ ks) p d present u m =
      let (e, le) = present k (ground arith) in
      let p' : Pool P S = clear_envelope P S k e p in
      let tr = total-remove (size P) k e p.envelopes u le in
      let (q, run, w) =
        sweep ks p' d.1 (λ j x. still j x) (remove-Unique k p.envelopes u) (omega (arith, tr)) in
      (
        q,
        rw (clear k p le) run,
        record {
          same_expirations = w.same_expirations;
          still_unique = w.still_unique;
          left = λ h. w.left h ∙ ground (arith, lookup-remove k h p.envelopes);
          still_accounted = w.still_accounted;
          balance = w.balance ∙ omega (arith, tr);
          same_counts = w.same_counts;
        },
      )
    where
      still :
          (j : ℕ)
          → elem j ks ≡ true
          → (e' : Envelope P) × (lookup j (remove k p.envelopes) ≡ some e')
      still j x = elim (Bool-cases (k == j)) [
        | inl same ↦ absurd (ground (arith, d.0, ap (λ i. elem i ks) ((==_iff k j).0 same)))
        | inr other ↦
            let (e', l) = present j (rw other x) in (e', lookup-remove k j p.envelopes ∙ rw other l)
      ]
