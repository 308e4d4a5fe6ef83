-- ===== src/Pool.antt =====
-- The envelope pool of whisperv6/whisper.go: what `add` does to it under `poolMu`, and `expire`.
-- A map is an association list, and a traversal meets its entries in the list's order; a theorem
-- about every list is one about every order. `none` is the panic of a nil envelope.
pub mod Sweep
pub mod Invariant
pub mod Expire
use mathlib.Core.Option
use whisper.Base.{
  ℕ, suc, ◌+◌, ◌-◌, List, [], ◌∷◌, ◌++◌, Bool, true, false, Option, none, some, ltb, if◌then◌else◌,
}
use whisper.Base.Assoc.{Assoc, lookup, insert, remove}
use whisper.Envelope.{Envelope, size}
use whisper.Events.{EnvelopeEvent, hash_event, envelope_expired}
use whisper.Platform.{Platform}
use whisper.Sets.{Sets}

-- `Statistics`
pub record Statistics : Type 0 where
  pub messages_cleared : ℕ
  pub memory_cleared : ℕ
  pub memory_used : ℕ
  pub cycles : ℕ
  pub total_messages_cleared : ℕ

-- `(*Statistics).reset`
unfoldable pub reset : Statistics → Statistics
reset s = record s {
  cycles = suc s.cycles;
  total_messages_cleared = s.total_messages_cleared + s.messages_cleared;
  memory_cleared = 0;
  messages_cleared = 0;
}

-- The fields of `Whisper` that `poolMu` and `statsMu` guard, and what was sent to the feed.
pub record Pool (P : Platform) (S : Sets) : Type 0 where
  pub envelopes : Assoc (Envelope P)
  pub expirations : Assoc S.HashSet
  pub stats : Statistics
  pub feed : List EnvelopeEvent

abbrev pub empty_statistics : Statistics
empty_statistics = record {
  messages_cleared = 0;
  memory_cleared = 0;
  memory_used = 0;
  cycles = 0;
  total_messages_cleared = 0;
}

module _ (P : Platform) (S : Sets) where
  -- The pool that `New` makes.
  abbrev pub empty_pool : Pool P S
  empty_pool = record { envelopes = []; expirations = []; stats = empty_statistics; feed = [] }

  -- The set of an expiry time, made if there is none.
  abbrev pub bucket : Option S.HashSet → S.HashSet
  bucket none = S.new_set
  bucket (some s) = s

  -- A set with a hash added, unless it has it.
  unfoldable pub put : ℕ → S.HashSet → S.HashSet
  put h s = if S.contains h s then s else S.add h s

  unfoldable pub store_envelope : ℕ → Envelope P → Pool P S → Pool P S
  store_envelope h e p = record p {
    envelopes = insert h e p.envelopes;
    expirations = insert e.expiry (put h (bucket (lookup e.expiry p.expirations))) p.expirations;
    stats = record p.stats { memory_used = p.stats.memory_used + size P e };
  }

  -- The locked part of `add`, with the count of the memory used: the pool, and whether the envelope
  -- was there already. `h` is the envelope's hash.
  unfoldable pub cache_envelope : ℕ → Envelope P → Pool P S → Pool P S × Bool
  cache_envelope h e p = elim (lookup h p.envelopes) [
    | some _ ↦ (p, true)
    | none ↦ (store_envelope h e p, false)
  ]

  -- `isEnvelopeCached`
  unfoldable pub is_envelope_cached : ℕ → Pool P S → Bool
  is_envelope_cached h p = elim (lookup h p.envelopes) [ none ↦ false | some _ ↦ true ]

  abbrev values : Assoc (Envelope P) → List (Envelope P)
  values [] = []
  values ((h, e) ∷ m) = e ∷ values m

  -- `Envelopes`
  unfoldable pub pooled_envelopes : Pool P S → List (Envelope P)
  pooled_envelopes p = values p.envelopes

  -- An expired envelope leaves the pool. A counter of memory stays at 0 where Go's would turn
  -- negative.
  abbrev pub clear_envelope : ℕ → Envelope P → Pool P S → Pool P S
  clear_envelope h e p = record p {
    envelopes = remove h p.envelopes;
    stats = record p.stats {
      messages_cleared = suc p.stats.messages_cleared;
      memory_cleared = p.stats.memory_cleared + size P e;
      memory_used = p.stats.memory_used - size P e;
    };
    feed = p.feed ++ hash_event envelope_expired h ∷ [];
  }

  -- The function that `expire` hands to `Each`.
  unfoldable pub expire_hash : ℕ → Option (Pool P S) → Option (Pool P S) × Bool
  expire_hash h none = (none, true)
  expire_hash h (some p) = elim (lookup h p.envelopes) [
    | none ↦ (none, true)
    | some e ↦ (some (clear_envelope h e p), false)
  ]

  abbrev drop_bucket : ℕ → Pool P S → Pool P S
  drop_bucket t p = record p { expirations = remove t p.expirations }

  unfoldable pub expire_bucket : ℕ → ℕ → S.HashSet → Pool P S → Option (Pool P S)
  expire_bucket now t s p =
      if ltb t now
      then Option.map (drop_bucket t) (S.each (Option (Pool P S)) s expire_hash (some p))
      else some p

  unfoldable pub expire_loop : ℕ → Assoc S.HashSet → Pool P S → Option (Pool P S)
  expire_loop now [] p = some p
  expire_loop now ((t, s) ∷ rest) p = elim (expire_bucket now t s p) [
    | none ↦ none
    | some q ↦ expire_loop now rest q
  ]

  -- `expire`
  unfoldable pub expire : ℕ → Pool P S → Option (Pool P S)
  expire now p = expire_loop now p.expirations (record p { stats = reset p.stats })
