-- ===== src/Keys/Pairs.antt =====
-- Key pairs by their identifiers (whisperv6/whisper.go).
use whisper.Base.{
  ℕ, ◌*◌, ◌≡◌, refl, sym, ap, ◌∙◌, List, true, false, none, some, arith, if◌then◌else◌, length,
  Bool-cases, Option-cases, inl, inr,
}
use whisper.Base.Dict.{
  Text, find, store, erase, find-store, find-erase, text_eq, text_eq_iff, text_eq_refl,
}
use whisper.Base.Outcome.{ok}
use whisper.Bytes.{validate_data_integrity}
use whisper.Constants.{key_id_size}
use whisper.Keys.{
  KeyStore, present, make_deterministic_id, to_deterministic_id, public_hex, add_key_pair,
  has_key_pair, get_private_key, delete_key_pair,
}
use whisper.Platform.{Platform}
use whisper.Settings.{default_to}

valid_length : (b : List ℕ) → validate_data_integrity b key_id_size ≡ true → length b ≡ key_id_size
unfolding validate_data_integrity
valid_length b h = ground arith

module _ (P : Platform) (hex_length : (b : List ℕ) → length (P.bytes_to_hex b) ≡ 2 * length b) where
  length-make_id :
      (input id : Text) → make_deterministic_id P input key_id_size ≡ ok id → length id ≡ 64
  unfolding make_deterministic_id
  length-make_id input id h =
      let buf : List ℕ = P.pbkdf2 input 4096 key_id_size in
      elim (Bool-cases (validate_data_integrity buf key_id_size)) [
        | inl c ↦ ground (arith, hex_length buf, valid_length buf c, rw c at h)
        | inr c ↦ absurd (ground (arith, rw c at h))
      ]

  -- An identifier stands for itself.
  to_id_same : (id : Text) → length id ≡ 64 → to_deterministic_id P id key_id_size ≡ ok id
  unfolding to_deterministic_id
  to_id_same id l = ground arith

  has_key_pair_id :
      (id : Text) (ks : KeyStore P)
      → length id ≡ 64
      → has_key_pair P id ks ≡ present (find id ks.private_keys)
  unfolding has_key_pair
  has_key_pair_id id ks l = rw (to_id_same id l, has_key_pair) refl

  get_private_key_id :
      (id : Text) (ks : KeyStore P) (key : P.PrivateKey)
      → length id ≡ 64
      → find id ks.private_keys ≡ some key
      → get_private_key P id ks ≡ ok key
  unfolding get_private_key
  get_private_key_id id ks key l f = ground (arith, to_id_same id l)

  -- The store after `AddKeyPair`: a key that is there stays.
  abbrev added : P.PrivateKey → Text → KeyStore P → KeyStore P
  added key id ks =
      if has_key_pair P id ks then ks else record ks { private_keys = store id key ks.private_keys }

  add_key_pair-ok :
      (key : P.PrivateKey) (ks ks' : KeyStore P) (id : Text)
      → add_key_pair P key ks ≡ ok (ks', id)
      → (make_deterministic_id P (public_hex P key) key_id_size ≡ ok id) × (ks' ≡ added key id ks)
  unfolding add_key_pair
  add_key_pair-ok key ks ks' id h = ground arith

  found_same :
      (ks : KeyStore P) (id j : Text) (k : P.PrivateKey)
      → find id ks.private_keys ≡ some k
      → find j ks.private_keys ≡ (if text_eq id j then some k else find j ks.private_keys)
  found_same ks id j k n = elim (Bool-cases (text_eq id j)) [
    | inl c ↦ rw c (ap (λ i. find i ks.private_keys) (sym ((text_eq_iff id j).0 c)) ∙ n)
    | inr c ↦ rw c refl
  ]

  find-added :
      (key : P.PrivateKey) (ks : KeyStore P) (id j : Text)
      → length id ≡ 64
      → find j (added key id ks).private_keys ≡ (
          if text_eq id j
          then some (default_to key (find id ks.private_keys))
          else find j ks.private_keys)
  find-added key ks id j l =
      rw (has_key_pair_id id ks l) (elim (Option-cases (find id ks.private_keys)) [
        | inl n ↦ rw n (find-store id j key ks.private_keys)
        | inr (k, n) ↦ rw n (found_same ks id j k n)
      ])

  delete_key_pair_id :
      (id : Text) (ks : KeyStore P) (key : P.PrivateKey)
      → length id ≡ 64
      → find id ks.private_keys ≡ some key
      → delete_key_pair P id ks ≡ (record ks { private_keys = erase id ks.private_keys }, true)
  unfolding delete_key_pair
  delete_key_pair_id id ks key l f = ground (arith, to_id_same id l)

  add_again :
      (key : P.PrivateKey) (ks : KeyStore P) (id : Text) (kept : P.PrivateKey)
      → length id ≡ 64
      → make_deterministic_id P (public_hex P key) key_id_size ≡ ok id
      → find id ks.private_keys ≡ some kept
      → add_key_pair P key ks ≡ ok (ks, id)
  unfolding add_key_pair
  add_again key ks id kept l made here = ground (arith, made, has_key_pair_id id ks l)

  -- What `AddKeyPair` returns is an identifier of 64 characters under which the node has a key: the
  -- one that it had under it, or else the new one. All other identifiers keep their keys, and
  -- adding the key again changes nothing. Deleting by that identifier succeeds and takes away that
  -- key alone. Bytes2Hex is assumed to give two characters for a byte.
  pub add_key_pair_lem :
      (key : P.PrivateKey) (ks ks' : KeyStore P) (id : Text)
      → add_key_pair P key ks ≡ ok (ks', id)
      → (length id ≡ 64)
        × (get_private_key P id ks' ≡ ok (default_to key (find id ks.private_keys)))
        × ((j : Text) → text_eq id j ≡ false → find j ks'.private_keys ≡ find j ks.private_keys)
        × (add_key_pair P key ks' ≡ ok (ks', id))
        × ((delete_key_pair P id ks').1 ≡ true)
        × ((j : Text)
            → find j (delete_key_pair P id ks').0.private_keys
              ≡ (if text_eq id j then none else find j ks.private_keys))
  add_key_pair_lem key ks ks' id h =
      let (made, e) = add_key_pair-ok key ks ks' id h in
      let l = length-make_id (public_hex P key) id made in
      let kept : P.PrivateKey = default_to key (find id ks.private_keys) in
      let all : (j : Text)
          → find j ks'.private_keys ≡ (if text_eq id j then some kept else find j ks.private_keys) =
        λ j. rw e (find-added key ks id j l) in
      let here : find id ks'.private_keys ≡ some kept = all id ∙ rw (text_eq_refl id) refl in
      let gone = delete_key_pair_id id ks' kept l here in
      let after : (j : Text)
          → (if text_eq id j then none else find j ks'.private_keys)
            ≡ (if text_eq id j then none else find j ks.private_keys) =
        λ j. elim (Bool-cases (text_eq id j)) [
          | inl c ↦ rw c refl
          | inr c ↦ rw c (all j ∙ rw c refl)
        ] in
      (
        l,
        get_private_key_id id ks' kept l here,
        λ j n. all j ∙ rw n refl,
        add_again key ks' id kept l made here,
        ap (λ r. r.1) gone,
        λ j. ap (λ r. find j r.0.private_keys) gone ∙ (find-erase id j ks'.private_keys ∙ after j),
      )
