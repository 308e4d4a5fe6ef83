-- ===== src/Keys/Symmetric.antt =====
-- Symmetric keys by their identifiers (whisperv6/whisper.go).
use whisper.Base.{
  ℕ, ◌≡◌, refl, sym, ap, ◌∙◌, List, Bool, true, false, Option, some, ◌==◌, arith, if◌then◌else◌,
  length, Bool-cases, inl, inr,
}
use whisper.Base.Dict.{Text, find, find-store, store, text_eq}
use whisper.Base.Outcome.{Outcome, ok, err, panic, ◌>>=◌}
use whisper.Bytes.{validate_data_integrity}
use whisper.Constants.{aes_key_length}
use whisper.Encryption.{generate_secure_random_data}
use whisper.Keys.{
  KeyError, id_in_use, KeyStore, present, flat, generate_random_id, to_deterministic_id,
  put_sym_key, generate_sym_key, add_sym_key, add_sym_key_direct, add_sym_key_from_password,
  has_sym_key,
}
use whisper.Platform.{Platform}

flat_if :
    (b : Bool) (key : Option (List ℕ)) (o : Option (Option (List ℕ)))
    → flat (if b then some key else o) ≡ (if b then key else flat o)
flat_if true key o = refl
flat_if false key o = refl

pub bind_ok :
    {E A B : Type 0} (m : Outcome E A) (f : A → Outcome E B) {b : B}
    → (m >>= f) ≡ ok b
    → (a : A) × (m ≡ ok a) × (f a ≡ ok b)
bind_ok (ok a) f h = (a, refl, h)
bind_ok (err e) f h = absurd (ground (arith, h))
bind_ok panic f h = absurd (ground (arith, h))

module _ (P : Platform) where
  -- `id` was free, and now it alone has another key.
  pub record Fresh (ks : KeyStore P) (key : Option (List ℕ)) (ks' : KeyStore P) (id : Text)
      : Type 0 where
    pub free : has_sym_key P id ks ≡ false
    pub keys :
        (j : Text)
        → flat (find j ks'.sym_keys) ≡ (if text_eq id j then key else flat (find j ks.sym_keys))
    pub pairs : ks'.private_keys ≡ ks.private_keys

  put_sym_key-Fresh :
      (name : Text) (key : Option (List ℕ)) (ks ks' : KeyStore P) (id : Text)
      → put_sym_key P name key ks ≡ ok (ks', id)
      → Fresh ks key ks' id
  unfolding put_sym_key has_sym_key
  put_sym_key-Fresh name key ks ks' id h =
      elim (Bool-cases (present (flat (find name ks.sym_keys)))) [
        | inl c ↦ absurd (ground (arith, rw c at h))
        | inr c ↦
            let stored : ◌≡◌ {A = Outcome KeyError (KeyStore P × Text)}
                (ok (record ks { sym_keys = store name key ks.sym_keys }, name)) (ok (ks', id)) =
              rw c at h in
            let same : name ≡ id = ground arith in
            let state : record ks { sym_keys = store name key ks.sym_keys } ≡ ks' = ground arith in
            rw (sym same, sym state)
              (record {
                free = c;
                keys = λ j.
                    ap flat (find-store name j key ks.sym_keys)
                    ∙ flat_if (text_eq name j) key (find j ks.sym_keys);
                pairs = refl;
              })
      ]

  generate_sym_key-Fresh :
      (kx ky x y : Option (List ℕ)) (key : List ℕ) (ks ks' : KeyStore P) (id : Text)
      → generate_secure_random_data aes_key_length kx ky ≡ some key
      → generate_sym_key P kx ky x y ks ≡ ok (ks', id)
      → Fresh ks (some key) ks' id
  unfolding generate_sym_key
  generate_sym_key-Fresh kx ky x y key ks ks' id n h =
      elim (Bool-cases (validate_data_integrity key aes_key_length)) [
        | inr c ↦ absurd (ground (arith, rw (n, c, generate_sym_key) at h))
        | inl c ↦
            let (i, _, q) =
              bind_ok (generate_random_id P x y) (λ i. put_sym_key P i (some key) ks)
                (rw (n, c, generate_sym_key) at h) in
            put_sym_key-Fresh i (some key) ks ks' id q
      ]

  add_sym_key-Fresh :
      (name : Text) (key : Option (List ℕ)) (ks ks' : KeyStore P) (id : Text)
      → add_sym_key P name key ks ≡ ok (ks', id)
      → Fresh ks key ks' id
  unfolding add_sym_key
  add_sym_key-Fresh name key ks ks' id h =
      let (i, _, q) = bind_ok (to_deterministic_id P name 32) (λ i. put_sym_key P i key ks) h in
      put_sym_key-Fresh i key ks ks' id q

  add_sym_key_direct-Fresh :
      (x y : Option (List ℕ)) (key : List ℕ) (ks ks' : KeyStore P) (id : Text)
      → add_sym_key_direct P x y key ks ≡ ok (ks', id)
      → Fresh ks (some key) ks' id
  unfolding add_sym_key_direct
  add_sym_key_direct-Fresh x y key ks ks' id h = elim (Bool-cases (length key == aes_key_length)) [
    | inr c ↦ absurd (ground (arith, rw c at h))
    | inl c ↦
        let (i, _, q) =
          bind_ok (generate_random_id P x y) (λ i. put_sym_key P i (some key) ks) (rw c at h) in
        put_sym_key-Fresh i (some key) ks ks' id q
  ]

  add_sym_key_from_password-Fresh :
      (x y : Option (List ℕ)) (password : Text) (ks ks' : KeyStore P) (id : Text)
      → add_sym_key_from_password P x y password ks ≡ ok (ks', id)
      → Fresh ks (some (P.pbkdf2 password 65356 aes_key_length)) ks' id
  unfolding add_sym_key_from_password
  add_sym_key_from_password-Fresh x y password ks ks' id h =
      let key : Option (List ℕ) = some (P.pbkdf2 password 65356 aes_key_length) in
      let (i, _, q) =
        bind_ok (generate_random_id P x y)
          (λ i.
            if present (flat (find i ks.sym_keys)) then err id_in_use else put_sym_key P i key ks)
          h in
      elim (Bool-cases (present (flat (find i ks.sym_keys)))) [
        | inl c ↦ absurd (ground (arith, rw c at q))
        | inr c ↦ put_sym_key-Fresh i key ks ks' id (rw c at q)
      ]

  -- A call that adds a symmetric key and succeeds, with the key that it stores.
  pub data AddedBy (ks ks' : KeyStore P) (id : Text) : Option (List ℕ) → Type 0 where
    generated :
        (kx ky x y : Option (List ℕ)) (key : List ℕ)
        → generate_secure_random_data aes_key_length kx ky ≡ some key
        → generate_sym_key P kx ky x y ks ≡ ok (ks', id)
        → AddedBy ks ks' id (some key)
    imported :
        (name : Text) (key : Option (List ℕ))
        → add_sym_key P name key ks ≡ ok (ks', id)
        → AddedBy ks ks' id key
    direct :
        (x y : Option (List ℕ)) (key : List ℕ)
        → add_sym_key_direct P x y key ks ≡ ok (ks', id)
        → AddedBy ks ks' id (some key)
    from_password :
        (x y : Option (List ℕ)) (password : Text)
        → add_sym_key_from_password P x y password ks ≡ ok (ks', id)
        → AddedBy ks ks' id (some (P.pbkdf2 password 65356 aes_key_length))

  -- Each of the four functions that add a symmetric key, where it succeeds, returns an identifier
  -- that was free, stores the key under it, and leaves every other key of either kind as it was.
  pub AddedBy-Fresh :
      {ks ks' : KeyStore P} {id : Text} {key : Option (List ℕ)}
      → AddedBy ks ks' id key
      → Fresh ks key ks' id
  AddedBy-Fresh {ks} {ks'} {id} (generated kx ky x y key n h) =
      generate_sym_key-Fresh kx ky x y key ks ks' id n h
  AddedBy-Fresh {ks} {ks'} {id} (imported name key h) = add_sym_key-Fresh name key ks ks' id h
  AddedBy-Fresh {ks} {ks'} {id} (direct x y key h) = add_sym_key_direct-Fresh x y key ks ks' id h
  AddedBy-Fresh {ks} {ks'} {id} (from_password x y password h) =
      add_sym_key_from_password-Fresh x y password ks ks' id h
