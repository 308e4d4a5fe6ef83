-- ===== src/Envelope/Wire.antt =====
-- An envelope between two nodes: `DecodeRLP` of whisperv6/envelope.go. rlp.DecodeBytes into the
-- public fields is a parameter.
use whisper.Base.{
  ℕ, ◌≡◌, ◌⊎◌, refl, sym, ◌∙◌, List, [], true, arith, Option, none, some, ◌==◌, Bool-cases, inl,
  inr,
}
use whisper.Bloom.{topic_to_bloom}
use whisper.Envelope.{Envelope, with_hash, with_bloom}
use whisper.Platform.{Platform}
use whisper.Topic.{Topic}

-- The public fields.
pub record Fields : Type 0 where
  pub expiry : ℕ
  pub ttl : ℕ
  pub topic : Topic
  pub content : List ℕ
  pub nonce : ℕ

module _ (P : Platform) where
  abbrev pub fields_of : Envelope P → Fields
  fields_of e = record {
    expiry = e.expiry;
    ttl = e.ttl;
    topic = e.topic;
    content = e.content;
    nonce = e.nonce;
  }

  abbrev pub encoding : Fields → List ℕ
  encoding f = P.rlp_envelope f.expiry f.ttl f.topic f.content f.nonce

  -- `DecodeRLP` of what `Stream.Raw` gave, into an envelope; `none` is an error. The hash is that of
  -- the bytes, and the caches of the proof of work and the bloom filter stay.
  unfoldable pub decode_rlp :
      (List ℕ → Option Fields) → Option (List ℕ) → Envelope P → Option (Envelope P)
  decode_rlp decode none e = none
  decode_rlp decode (some raw) e = elim (decode raw) [
    | none ↦ none
    | some f ↦ some (record e {
      expiry = f.expiry;
      ttl = f.ttl;
      topic = f.topic;
      content = f.content;
      nonce = f.nonce;
      hash = P.keccak256 raw;
    })
  ]

  -- The envelope into which the list decoder decodes.
  abbrev pub blank : Envelope P
  blank = record {
    expiry = 0;
    ttl = 0;
    topic = record { b0 = 0; b1 = 0; b2 = 0; b3 = 0 };
    content = [];
    nonce = 0;
    pow = P.zero_pow;
    hash = 0;
    bloom = none;
  }

  own_hash :
      (e : Envelope P)
      → e.hash ≡ P.keccak256 (encoding (fields_of e))
      → (with_hash P e).hash ≡ e.hash
  unfolding with_hash
  own_hash e h = elim (Bool-cases (e.hash == 0)) [
    | inl c ↦ rw (c, with_hash) (sym h)
    | inr c ↦ rw (c, with_hash) refl
  ]

  hash_of_fields :
      (e : Envelope P)
      → (e.hash ≡ 0) ⊎ (e.hash ≡ P.keccak256 (encoding (fields_of e)))
      → (with_hash P e).hash ≡ P.keccak256 (encoding (fields_of e))
  unfolding with_hash
  hash_of_fields e (inl z) =
      let c : (e.hash == 0) ≡ true = ground (arith, z) in rw (c, with_hash) refl
  hash_of_fields e (inr h) = own_hash e h ∙ h

  -- An envelope whose hash is not cached yet or is its own, encoded by one node and decoded by
  -- another, arrives with the same public fields, and both nodes know it by the same hash. No bloom
  -- filter travels with it: the receiver's is that of the topic. The decoder is assumed to give back
  -- the fields that the encoder was given.
  pub decode-encode :
      (decode : List ℕ → Option Fields) (e : Envelope P)
      → decode (encoding (fields_of e)) ≡ some (fields_of e)
      → (e.hash ≡ 0) ⊎ (e.hash ≡ P.keccak256 (encoding (fields_of e)))
      → (d : Envelope P) × (decode_rlp decode (some (encoding (fields_of e))) blank ≡ some d)
        × (fields_of d ≡ fields_of e)
        × ((with_hash P d).hash ≡ (with_hash P e).hash)
        × ((with_bloom P d).1 ≡ topic_to_bloom e.topic)
  unfolding decode_rlp with_bloom
  decode-encode decode e law own =
      let d : Envelope P = record e {
        pow = P.zero_pow;
        hash = P.keccak256 (encoding (fields_of e));
        bloom = none;
      } in
      (d, rw (law, decode_rlp) refl, refl, own_hash d refl ∙ sym (hash_of_fields e own), refl)
