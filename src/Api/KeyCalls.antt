-- ===== src/Api/KeyCalls.antt =====
-- The calls of whisperv6/api.go that pass on to the key stores. crypto.ToECDSA and crypto.FromECDSA are
-- parameters.
use whisper.Base.{
  ℕ, ◌*◌, ◌≡◌, refl, ◌∙◌, ap, List, Bool, true, false, Option, none, some, length, arith,
}
use whisper.Api.{ApiError, key_error, invalid_private_key, no_key_pair, relabel}
use whisper.Api.Service.{Service}
use whisper.Base.Dict.{Text, find, text_eq_refl}
use whisper.Base.Outcome.{ok_inj, Outcome, ok, err, panic, ◌>>=◌}
use whisper.Keys.{
  KeyStore, new_key_pair, add_key_pair, delete_key_pair, has_key_pair, get_private_key,
  generate_sym_key, add_sym_key_direct, add_sym_key_from_password, has_sym_key, delete_sym_key,
  get_sym_key,
}
use whisper.Keys.Pairs.{add_key_pair_lem}
use whisper.Keys.Symmetric.{bind_ok}
use whisper.Platform.{Platform}
use whisper.Sets.{Sets}

module _ (P : Platform) (S : Sets) where
  -- The service with other keys, and what the call returned.
  abbrev pub with_keys : Service P S → KeyStore P × Text → Service P S × Text
  with_keys sv (ks, id) = (record sv { keys = ks }, id)

  -- `NewKeyPair`, of the two keys that crypto.GenerateKey gives.
  unfoldable pub api_new_key_pair :
      Option P.PrivateKey
      → Option P.PrivateKey
      → Service P S
      → Outcome ApiError (Service P S × Text)
  api_new_key_pair x y sv = do
    r ← relabel key_error (new_key_pair P x y sv.keys)
    ok (with_keys sv r)

  -- `AddPrivateKey`
  unfoldable pub add_private_key :
      (List ℕ → Option P.PrivateKey) → List ℕ → Service P S → Outcome ApiError (Service P S × Text)
  add_private_key to_ecdsa bytes sv = elim (to_ecdsa bytes) [
    | none ↦ err invalid_private_key
    | some key ↦ do r ← relabel key_error (add_key_pair P key sv.keys); ok (with_keys sv r)
  ]

  -- `DeleteKeyPair`
  unfoldable pub api_delete_key_pair : Text → Service P S → Service P S × Option ApiError
  api_delete_key_pair key sv =
      let (ks, done) = delete_key_pair P key sv.keys in
      (record sv { keys = ks }, elim done [ true ↦ none | false ↦ some no_key_pair ])

  -- `HasKeyPair`
  unfoldable pub api_has_key_pair : Text → Service P S → Bool
  api_has_key_pair id sv = has_key_pair P id sv.keys

  -- `GetPublicKey`
  unfoldable pub api_get_public_key : Text → Service P S → Outcome ApiError (List ℕ)
  api_get_public_key id sv = do
    key ← relabel key_error (get_private_key P id sv.keys)
    ok (P.public_key_bytes (P.public_key key))

  -- `GetPrivateKey`
  unfoldable pub api_get_private_key :
      (P.PrivateKey → List ℕ) → Text → Service P S → Outcome ApiError (List ℕ)
  api_get_private_key from_ecdsa id sv = do
    key ← relabel key_error (get_private_key P id sv.keys)
    ok (from_ecdsa key)

  -- `HasSymKey`
  unfoldable pub api_has_sym_key : Text → Service P S → Bool
  api_has_sym_key id sv = has_sym_key P id sv.keys

  -- `GetSymKey`
  unfoldable pub api_get_sym_key : Text → Service P S → Outcome ApiError (List ℕ)
  api_get_sym_key id sv = relabel key_error (get_sym_key P id sv.keys)

  -- `DeleteSymKey`
  unfoldable pub api_delete_sym_key : Text → Service P S → Service P S × Bool
  api_delete_sym_key id sv =
      let (ks, done) = delete_sym_key P id sv.keys in (record sv { keys = ks }, done)

  -- `NewSymKey`, of what the random generators give for the key and for its identifier.
  unfoldable pub api_new_sym_key :
      Option (List ℕ)
      → Option (List ℕ)
      → Option (List ℕ)
      → Option (List ℕ)
      → Service P S
      → Outcome ApiError (Service P S × Text)
  api_new_sym_key kx ky x y sv = do
    r ← relabel key_error (generate_sym_key P kx ky x y sv.keys)
    ok (with_keys sv r)

  -- `AddSymKey`; the two arguments before the key are the random bytes of its identifier.
  unfoldable pub api_add_sym_key :
      Option (List ℕ)
      → Option (List ℕ)
      → List ℕ
      → Service P S
      → Outcome ApiError (Service P S × Text)
  api_add_sym_key x y key sv = do
    r ← relabel key_error (add_sym_key_direct P x y key sv.keys)
    ok (with_keys sv r)

  -- `GenerateSymKeyFromPassword`
  unfoldable pub generate_sym_key_from_password :
      Option (List ℕ) → Option (List ℕ) → Text → Service P S → Outcome ApiError (Service P S × Text)
  generate_sym_key_from_password x y passwd sv = do
    r ← relabel key_error (add_sym_key_from_password P x y passwd sv.keys)
    ok (with_keys sv r)

  relabel_ok :
      {E F A : Type 0} (g : E → F) (m : Outcome E A) {a : A} → relabel g m ≡ ok a → m ≡ ok a
  relabel_ok g (ok b) h = ap ok (ok_inj h)
  relabel_ok g (err e) h = absurd (ground (arith, h))
  relabel_ok g panic h = absurd (ground (arith, h))

  -- The pair that `AddKeyPair` made, and the service with it.
  added_pair :
      (to_ecdsa : List ℕ → Option P.PrivateKey) (bytes : List ℕ) (key : P.PrivateKey)
      (sv sv' : Service P S) (id : Text)
      → to_ecdsa bytes ≡ some key
      → add_private_key to_ecdsa bytes sv ≡ ok (sv', id)
      → (ks : KeyStore P) × (add_key_pair P key sv.keys ≡ ok (ks, id))
        × (record sv { keys = ks } ≡ sv')
  unfolding add_private_key
  added_pair to_ecdsa bytes key sv sv' id t h =
      let ((ks, made), e, x) =
        bind_ok (relabel key_error (add_key_pair P key sv.keys)) (λ r. ok (with_keys sv r))
          (rw (t, add_private_key) at h) in
      let y : ◌≡◌ {A = Service P S × Text} (record sv { keys = ks }, made) (sv', id) = ok_inj x in
      let same : made ≡ id = ap (λ (z : Service P S × Text). z.1) y in
      (
        ks,
        rw (← same) (relabel_ok key_error (add_key_pair P key sv.keys) e),
        ap (λ (z : Service P S × Text). z.0) y,
      )

  -- Where AddPrivateKey of some bytes succeeds and its identifier was free, GetPrivateKey of the
  -- identifier returns these bytes and GetPublicKey those of the public key; the node and the times of
  -- polls are as they were; and DeleteKeyPair of the identifier succeeds, after which GetPrivateKey
  -- finds nothing. FromECDSA is assumed to be the inverse of ToECDSA, and Bytes2Hex to give two
  -- characters for a byte.
  pub add_private_key_lem :
      (from_ecdsa : P.PrivateKey → List ℕ) (to_ecdsa : List ℕ → Option P.PrivateKey)
      (hex : (b : List ℕ) → length (P.bytes_to_hex b) ≡ 2 * length b) (bytes : List ℕ)
      (key : P.PrivateKey) (sv sv' : Service P S) (id : Text)
      → to_ecdsa bytes ≡ some key
      → from_ecdsa key ≡ bytes
      → find id sv.keys.private_keys ≡ none
      → add_private_key to_ecdsa bytes sv ≡ ok (sv', id)
      → (api_get_private_key from_ecdsa id sv' ≡ ok bytes)
        × (api_get_public_key id sv' ≡ ok (P.public_key_bytes (P.public_key key)))
        × (sv'.host ≡ sv.host)
        × (sv'.last_used ≡ sv.last_used)
        × ((api_delete_key_pair id sv').1 ≡ none)
        × (find id (api_delete_key_pair id sv').0.keys.private_keys ≡ none)
  unfolding add_private_key api_get_private_key api_get_public_key api_delete_key_pair
  add_private_key_lem from_ecdsa to_ecdsa hex bytes key sv sv' id t f free h =
      let (ks, added, same) = added_pair to_ecdsa bytes key sv sv' id t h in
      let (_, got, _, _, deleted, gone) = add_key_pair_lem P hex key sv.keys ks id added in
      let its : get_private_key P id ks ≡ ok key = rw free at got in
      let left : find id (delete_key_pair P id ks).0.private_keys ≡ none =
        gone id ∙ rw (text_eq_refl id) refl in
      rw (← same)
        (rw (its, f) refl, rw its refl, refl, refl, rw (deleted, api_delete_key_pair) refl, left)
