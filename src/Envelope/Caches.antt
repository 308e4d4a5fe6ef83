-- ===== src/Envelope/Caches.antt =====
-- The caches of an envelope (whisperv6/envelope.go) never change what the envelope says.
use whisper.Base.{ℕ, ◌≡◌, refl, arith, Bool-cases, inl, inr, ◌∙◌}
use whisper.Envelope.{Envelope, calculate_pow, with_pow, with_bloom}
use whisper.Platform.{Platform}

pub record SameText {P : Platform} (e r : Envelope P) : Type 0 where
  pub expiry : r.expiry ≡ e.expiry
  pub ttl : r.ttl ≡ e.ttl
  pub topic : r.topic ≡ e.topic
  pub content : r.content ≡ e.content
  pub nonce : r.nonce ≡ e.nonce
  pub hash : r.hash ≡ e.hash

pub SameText-refl : {P : Platform} (e : Envelope P) → SameText e e
SameText-refl e = record {
  expiry = refl;
  ttl = refl;
  topic = refl;
  content = refl;
  nonce = refl;
  hash = refl;
}

pub SameText-trans :
    {P : Platform} {a b c : Envelope P} → SameText a b → SameText b c → SameText a c
SameText-trans p q = record {
  expiry = q.expiry ∙ p.expiry;
  ttl = q.ttl ∙ p.ttl;
  topic = q.topic ∙ p.topic;
  content = q.content ∙ p.content;
  nonce = q.nonce ∙ p.nonce;
  hash = q.hash ∙ p.hash;
}

module _ (P : Platform) where
  pub calculate_pow-SameText : (d : ℕ) (e : Envelope P) → SameText e (calculate_pow P d e)
  unfolding calculate_pow
  calculate_pow-SameText d e = record {
    expiry = refl;
    ttl = refl;
    topic = refl;
    content = refl;
    nonce = refl;
    hash = refl;
  }

  pub with_pow-SameText : (e : Envelope P) → SameText e (with_pow P e)
  unfolding with_pow
  with_pow-SameText e = elim (Bool-cases (P.eq e.pow P.zero_pow)) [
    | inl h ↦ rw (h, with_pow) (calculate_pow-SameText 0 e)
    | inr h ↦ rw (h, with_pow) (SameText-refl e)
  ]

  pub with_bloom-SameText : (e : Envelope P) → SameText e (with_bloom P e).0
  unfolding with_bloom
  with_bloom-SameText e = record {
    expiry = ground arith;
    ttl = ground arith;
    topic = ground arith;
    content = ground arith;
    nonce = ground arith;
    hash = ground arith;
  }

  pub pow-with_bloom : (e : Envelope P) → (with_bloom P e).0.pow ≡ e.pow
  unfolding with_bloom
  pow-with_bloom e = ground arith

  -- The filter is computed once.
  pub with_bloom_twice : (e : Envelope P) → (with_bloom P (with_bloom P e).0).1 ≡ (with_bloom P e).1
  unfolding with_bloom
  with_bloom_twice e = ground arith
