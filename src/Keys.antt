-- ===== src/Keys.antt =====
-- The keys of a node: the key stores of whisperv6/whisper.go and the identifiers by which they are
-- looked up. What a random generator gives is an argument.
pub mod Pairs
pub mod Symmetric
use whisper.Base.{
  ℕ, ◌*◌, List, Bool, true, false, not, ◌&&◌, ◌||◌, Option, none, some, ◌==◌, if◌then◌else◌, length,
}
use whisper.Base.Dict.{Text, Dict, find, erase, store}
use whisper.Base.Outcome.{Outcome, ok, err, panic, ◌>>=◌}
use whisper.Bytes.{validate_data_integrity}
use whisper.Constants.{key_id_size, aes_key_length}
use whisper.Encryption.{generate_secure_random_data}
use whisper.Platform.{Platform}

pub data KeyError : Type 0 where
  no_id no_key invalid_key id_in_use unknown_id wrong_key_size : KeyError

-- The two stores. A symmetric key is a slice, `none` where it is nil.
pub record KeyStore (P : Platform) : Type 0 where
  pub private_keys : Dict P.PrivateKey
  pub sym_keys : Dict (Option (List ℕ))

-- Whether an entry is there and not nil.
abbrev pub present : {A : Type 0} → Option A → Bool
present none = false
present (some a) = true

-- An entry of the map of slices, read with its zero value.
abbrev pub flat : {A : Type 0} → Option (Option A) → Option A
flat none = none
flat (some a) = a

module _ (P : Platform) where
  -- `GenerateRandomID`, of what the two generators gave.
  unfoldable pub generate_random_id : Option (List ℕ) → Option (List ℕ) → Outcome KeyError Text
  generate_random_id x y = elim (generate_secure_random_data key_id_size x y) [
    | none ↦ err no_id
    | some buf ↦
        if not (validate_data_integrity buf key_id_size) then err no_id else ok (P.bytes_to_hex buf)
  ]

  -- `makeDeterministicID`
  unfoldable pub make_deterministic_id : Text → ℕ → Outcome KeyError Text
  make_deterministic_id input key_len =
      let buf = P.pbkdf2 input 4096 key_len in
      if not (validate_data_integrity buf key_id_size) then err no_id else ok (P.bytes_to_hex buf)

  -- `toDeterministicID`
  unfoldable pub to_deterministic_id : Text → ℕ → Outcome KeyError Text
  to_deterministic_id id expected_len =
      if not (length id == expected_len * 2) then make_deterministic_id id expected_len else ok id

  -- `common.ToHex(crypto.FromECDSAPub(&key.PublicKey))`
  abbrev pub public_hex : P.PrivateKey → Text
  public_hex key = P.to_hex (P.public_key_bytes (P.public_key key))

  -- `validatePrivateKey` of a key that is not nil.
  unfoldable pub validate_private_key : P.PrivateKey → Bool
  validate_private_key k = if P.zero_secret k then false else P.validate_public_key (P.public_key k)

  -- The key of `NewKeyPair`, of what the first call of the generator and the retry give.
  unfoldable pub generate_valid :
      Option P.PrivateKey → Option P.PrivateKey → Outcome KeyError P.PrivateKey
  unfolding validate_private_key
  generate_valid first retry =
      let again : Outcome KeyError P.PrivateKey = elim retry [
        | none ↦ err no_key
        | some k ↦ if not (validate_private_key k) then err invalid_key else ok k
      ] in
      elim first [ none ↦ again | some k ↦ if validate_private_key k then ok k else again ]

  -- `NewKeyPair`
  unfoldable pub new_key_pair :
      Option P.PrivateKey → Option P.PrivateKey → KeyStore P → Outcome KeyError (KeyStore P × Text)
  unfolding generate_valid
  new_key_pair first retry ks = do
    key ← generate_valid first retry
    id ← to_deterministic_id (public_hex key) key_id_size
    if present (find id ks.private_keys)
        then err id_in_use
        else ok (record ks { private_keys = store id key ks.private_keys }, id)

  -- `DeleteKeyPair`
  unfoldable pub delete_key_pair : Text → KeyStore P → KeyStore P × Bool
  delete_key_pair key ks = elim (to_deterministic_id key key_id_size) [
    | ok id ↦
        if present (find id ks.private_keys)
        then (record ks { private_keys = erase id ks.private_keys }, true)
        else (ks, false)
    | err e ↦ (ks, false)
    | panic ↦ (ks, false)
  ]

  -- `HasKeyPair`
  unfoldable pub has_key_pair : Text → KeyStore P → Bool
  has_key_pair id ks = elim (to_deterministic_id id key_id_size) [
    | ok i ↦ present (find i ks.private_keys)
    | err e ↦ false
    | panic ↦ false
  ]

  -- `AddKeyPair`
  unfoldable pub add_key_pair : P.PrivateKey → KeyStore P → Outcome KeyError (KeyStore P × Text)
  add_key_pair key ks = do
    id ← make_deterministic_id (public_hex key) key_id_size
    if has_key_pair id ks
        then ok (ks, id)
        else ok (record ks { private_keys = store id key ks.private_keys }, id)

  -- `SelectKeyPair`
  unfoldable pub select_key_pair : P.PrivateKey → KeyStore P → Outcome KeyError (KeyStore P)
  select_key_pair key ks = do
    id ← make_deterministic_id (public_hex key) key_id_size
    ok (record ks { private_keys = store id key List.[] })

  -- `DeleteKeyPairs`
  unfoldable pub delete_key_pairs : KeyStore P → KeyStore P
  delete_key_pairs ks = record ks { private_keys = List.[] }

  -- `GetPrivateKey`
  unfoldable pub get_private_key : Text → KeyStore P → Outcome KeyError P.PrivateKey
  get_private_key id ks = do
    i ← to_deterministic_id id key_id_size
    elim (find i ks.private_keys) [ none ↦ err unknown_id | some key ↦ ok key ]

  -- The write that ends the functions that add a symmetric key.
  unfoldable pub put_sym_key :
      Text → Option (List ℕ) → KeyStore P → Outcome KeyError (KeyStore P × Text)
  put_sym_key id key ks =
      if present (flat (find id ks.sym_keys))
      then err id_in_use
      else ok (record ks { sym_keys = store id key ks.sym_keys }, id)

  -- `GenerateSymKey`, of what the generators gave for the key and for the identifier.
  unfoldable pub generate_sym_key :
      Option (List ℕ)
      → Option (List ℕ)
      → Option (List ℕ)
      → Option (List ℕ)
      → KeyStore P
      → Outcome KeyError (KeyStore P × Text)
  generate_sym_key kx ky x y ks = elim (generate_secure_random_data aes_key_length kx ky) [
    | none ↦ err no_key
    | some key ↦
        if not (validate_data_integrity key aes_key_length)
        then err no_key
        else do id ← generate_random_id x y; put_sym_key id (some key) ks
  ]

  -- `AddSymKey`
  unfoldable pub add_sym_key :
      Text → Option (List ℕ) → KeyStore P → Outcome KeyError (KeyStore P × Text)
  add_sym_key id key ks = do i ← to_deterministic_id id key_id_size; put_sym_key i key ks

  -- `AddSymKeyDirect` of a slice that is not nil; a nil one has the wrong size.
  unfoldable pub add_sym_key_direct :
      Option (List ℕ) → Option (List ℕ) → List ℕ → KeyStore P → Outcome KeyError (KeyStore P × Text)
  add_sym_key_direct x y key ks =
      if not (length key == aes_key_length)
      then err wrong_key_size
      else do id ← generate_random_id x y; put_sym_key id (some key) ks

  -- `AddSymKeyFromPassword`; the store is looked up twice, before and after the derivation.
  unfoldable pub add_sym_key_from_password :
      Option (List ℕ) → Option (List ℕ) → Text → KeyStore P → Outcome KeyError (KeyStore P × Text)
  add_sym_key_from_password x y password ks = do
    id ← generate_random_id x y
    if present (flat (find id ks.sym_keys))
        then err id_in_use
        else put_sym_key id (some (P.pbkdf2 password 65356 aes_key_length)) ks

  -- `HasSymKey`
  unfoldable pub has_sym_key : Text → KeyStore P → Bool
  has_sym_key id ks = present (flat (find id ks.sym_keys))

  -- `DeleteSymKey`
  unfoldable pub delete_sym_key : Text → KeyStore P → KeyStore P × Bool
  delete_sym_key id ks =
      if present (flat (find id ks.sym_keys))
      then (record ks { sym_keys = erase id ks.sym_keys }, true)
      else (ks, false)

  -- `GetSymKey`
  unfoldable pub get_sym_key : Text → KeyStore P → Outcome KeyError (List ℕ)
  get_sym_key id ks = elim (flat (find id ks.sym_keys)) [
    | none ↦ err unknown_id
    | some key ↦ ok key
  ]
