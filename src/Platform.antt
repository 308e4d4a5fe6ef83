-- ===== src/Platform.antt =====
-- What the program takes from Go's floating point and from packages outside the repository's own
-- code: keys, signatures, hashing, encryption, randomness. No law is assumed here; a theorem that
-- needs one names it as a hypothesis. A hash or digest of 32 bytes is the number that they spell.
use whisper.Base.{ℕ, List, Bool, Option}
use whisper.Topic.{Topic}

pub record Platform : Type 1 where
  -- *ecdsa.PublicKey and *ecdsa.PrivateKey, not nil.
  pub PublicKey : Type 0
  pub PrivateKey : Type 0
  -- float64 with the operations that the source uses; `lt` and `le` are false at a NaN.
  pub Float : Type 0
  pub zero_pow : Float
  pub lt : Float → Float → Bool
  pub le : Float → Float → Bool
  pub eq : Float → Float → Bool
  pub of_uint : ℕ → Float
  pub mul : Float → Float → Float
  pub div : Float → Float → Float
  pub pow2 : ℕ → Float
  -- `int(math.Ceil(math.Log2(x)))`, or 0 where that is less.
  pub ceil_log2 : Float → ℕ
  pub is_inf : Float → Bool
  pub is_nan : Float → Bool
  pub float_bits : Float → ℕ
  pub float_from_bits : ℕ → Float
  pub default_minimum_pow : Float
  -- crypto.Keccak256, crypto.Sign, crypto.SigToPub (`none` also where it panics).
  pub keccak256 : List ℕ → ℕ
  pub ec_sign : ℕ → PrivateKey → Option (List ℕ)
  pub recover_key : ℕ → List ℕ → Option PublicKey
  -- rlp.EncodeToBytes of [Expiry, TTL, Topic, Data], of an envelope's public fields with the nonce,
  -- and of a list of envelopes, each given by its own encoding.
  pub rlp_without_nonce : ℕ → ℕ → Topic → List ℕ → List ℕ
  pub rlp_envelope : ℕ → ℕ → Topic → List ℕ → ℕ → List ℕ
  pub rlp_bundle : List (List ℕ) → List ℕ
  -- `&key.PublicKey`; ValidatePublicKey; equality of the points.
  pub public_key : PrivateKey → PublicKey
  pub validate_public_key : PublicKey → Bool
  pub same_point : PublicKey → PublicKey → Bool
  -- aes.NewCipher followed by cipher.NewGCM, its Seal and its Open by nonce.
  pub accepts_key : List ℕ → Bool
  pub gcm_seal : List ℕ → List ℕ → List ℕ → List ℕ
  pub gcm_open : List ℕ → List ℕ → List ℕ → Option (List ℕ)
  -- ecies.Encrypt (from a random seed) and Decrypt.
  pub ecies_encrypt : ℕ → PublicKey → List ℕ → Option (List ℕ)
  pub ecies_decrypt : PrivateKey → List ℕ → Option (List ℕ)
  -- common.BytesToHash
  pub bytes_to_hash : List ℕ → ℕ
  -- pbkdf2.Key with no salt and SHA-256, of a password, a count of rounds and a length;
  -- common.ToHex; common.Bytes2Hex; crypto.FromECDSAPub; whether the secret of a key is 0 or nil.
  pub pbkdf2 : List ℕ → ℕ → ℕ → List ℕ
  pub to_hex : List ℕ → List ℕ
  pub bytes_to_hex : List ℕ → List ℕ
  pub public_key_bytes : PublicKey → List ℕ
  pub zero_secret : PrivateKey → Bool
