-- ===== src/Envelope.antt =====
-- Envelopes (whisperv6/envelope.go). The cached fields are set by the functions that fill them, so
-- each of these returns the envelope with its caches. The uint32 fields wrap at 2^32.
pub mod Caches
pub mod Wire
use whisper.Base.{
  ℕ, zero, suc, ◌+◌, ◌-◌, ◌*◌, ◌/◌, ◌%◌, ◌^◌, List, [], ◌∷◌, ◌++◌, Bool, true, false, Option, none,
  some, ◌==◌, leb, if◌then◌else◌, length,
}
use whisper.Bloom.{topic_to_bloom}
use whisper.Constants.{envelope_header_length, u32_modulus}
use whisper.Platform.{Platform}
use whisper.Topic.{Topic}

-- `Envelope`; a hash of 0 and a nil bloom are caches not yet filled.
pub record Envelope (P : Platform) : Type 0 where
  pub expiry : ℕ
  pub ttl : ℕ
  pub topic : Topic
  pub content : List ℕ
  pub nonce : ℕ
  pub pow : P.Float
  pub hash : ℕ
  pub bloom : Option (List ℕ)

abbrev pub u32 : ℕ → ℕ
u32 n = n % u32_modulus

-- `a - b` on uint32.
abbrev pub sub32 : ℕ → ℕ → ℕ
sub32 a b = (a + u32_modulus - b) % u32_modulus

-- `binary.BigEndian.PutUint64`, of the lowest `n` bytes.
abbrev pub big_bytes : ℕ → ℕ → List ℕ
big_bytes zero v = []
big_bytes (suc n) v = v / 256 ^ n % 256 ∷ big_bytes n v

-- `BitLen` of a number below 2 ^ fuel.
unfoldable pub bit_len : ℕ → ℕ → ℕ
bit_len zero n = 0
bit_len (suc fuel) n = let rest = bit_len fuel (n / 2) in if n == 0 then 0 else suc rest

module _ (P : Platform) where
  -- `(*Envelope).size`
  unfoldable pub size : Envelope P → ℕ
  size e = envelope_header_length + length e.content

  -- `NewEnvelope`; `now` is the Unix time.
  unfoldable pub new_envelope : ℕ → Topic → List ℕ → ℕ → Envelope P
  new_envelope ttl topic raw now = record {
    expiry = u32 (now + ttl);
    ttl = ttl;
    topic = topic;
    content = raw;
    nonce = 0;
    pow = P.zero_pow;
    hash = 0;
    bloom = none;
  }

  -- `rlpWithoutNonce`
  abbrev pub without_nonce : Envelope P → List ℕ
  without_nonce e = P.rlp_without_nonce e.expiry e.ttl e.topic e.content

  -- `calculatePoW`
  unfoldable pub calculate_pow : ℕ → Envelope P → Envelope P
  unfolding bit_len
  calculate_pow diff e =
      let rlp = without_nonce e in
      let h = P.keccak256 (rlp ++ big_bytes 8 e.nonce) in
      let leading_zeroes = 256 - bit_len 256 h in
      let x = P.div (P.pow2 leading_zeroes) (P.of_uint (length rlp)) in
      record e { pow = P.div x (P.of_uint (u32 (e.ttl + diff))) }

  -- `PoW`, which the envelope's field `pow` holds afterwards.
  unfoldable pub with_pow : Envelope P → Envelope P
  unfolding calculate_pow
  with_pow e = if P.eq e.pow P.zero_pow then calculate_pow 0 e else e

  -- `Hash`, likewise.
  unfoldable pub with_hash : Envelope P → Envelope P
  with_hash e =
      if e.hash == 0
      then record e { hash = P.keccak256 (P.rlp_envelope e.expiry e.ttl e.topic e.content e.nonce) }
      else e

  -- `Bloom`: the envelope and its filter.
  unfoldable pub with_bloom : Envelope P → Envelope P × List ℕ
  with_bloom e = elim e.bloom [
    | none ↦ (record e { bloom = some (topic_to_bloom e.topic) }, topic_to_bloom e.topic)
    | some b ↦ (e, b)
  ]
