-- ===== src/Wrap/Roundtrip.antt =====
-- What `Wrap` puts into an envelope, `Open` of a filter with the key takes out.
use whisper.Base.{
  ℕ, ◌<◌, ◌≡◌, refl, ap, ◌∙◌, List, true, Option, none, some, Option-cases, inl, inr, length,
  if◌then◌else◌, ◌==◌, some_inj,
}
use whisper.Base.Outcome.{ok}
use whisper.Constants.{signature_length, aes_nonce_length, default_ttl}
use whisper.Encryption.{
  generate_secure_random_data, encrypt_symmetric, decrypt_symmetric, open_symmetric, message_of,
}
use whisper.Encryption.Roundtrip.{decrypt-encrypt_symmetric}
use whisper.Envelope.{Envelope, with_pow, with_hash, sub32}
use whisper.Filters.{Filter, decrypt_for, open_for}
use whisper.Message.{MessageParams, ReceivedMessage, new_sent_message}
use whisper.Platform.{Platform}
use whisper.Received.{validate_and_parse}
use whisper.Received.Roundtrip.{parse-new_sent_message, parse-sign}
use whisper.Wrap.{wrapped, Surroundings, with_ttl, sign_for, encrypt_for, wrap}
use whisper.Wrap.Steps.{wrap-Did}

some_pair :
    {A B : Type 0} {a a' : A} {b b' : B}
    → ◌≡◌ {A = Option (A × B)} (some (a, b)) (some (a', b'))
    → a ≡ a'
some_pair h = ap (λ p. p.0) (some_inj h)

module _ (P : Platform) where
  -- The sender that a message states.
  abbrev signer : MessageParams P → Option P.PublicKey
  signer params = elim params.src [ none ↦ none | some key ↦ some (P.public_key key) ]

  -- What the receiver has to find in a message.
  pub record Delivered (params : MessageParams P) (m : ReceivedMessage P) : Type 0 where
    pub payload_eq : m.payload ≡ params.payload
    pub src_eq : m.src ≡ signer params
    pub topic_eq : m.topic ≡ params.topic
    pub ttl_eq : m.ttl ≡ (if params.ttl == 0 then default_ttl else params.ttl)

  pub record Parsed (params : MessageParams P) (msg : ReceivedMessage P) : Type 0 where
    pub parsed : ReceivedMessage P
    pub how : validate_and_parse P msg ≡ some (parsed, true)
    pub payload_eq : parsed.payload ≡ params.payload
    pub src_eq : parsed.src ≡ signer params

module _ (P : Platform)
    (sign_law : (h : ℕ) (k : P.PrivateKey) (s : List ℕ)
      → P.ec_sign h k ≡ some s
      → (length s ≡ signature_length) × (P.recover_key h s ≡ some (P.public_key k))) where
  parse-sign_for :
      (random : ℕ → Option (List ℕ)) (params : MessageParams P) (raw : List ℕ)
      (msg : ReceivedMessage P)
      → length params.payload < 16777216
      → new_sent_message P random params ≡ ok raw
      → sign_for P params raw ≡ some (msg.raw, none)
      → msg.src ≡ none
      → Parsed P params msg
  unfolding sign_for
  parse-sign_for random params raw msg small sent signed unknown = elim (Option-cases params.src) [
    | inl n ↦
        let same : raw ≡ msg.raw = some_pair (rw n at signed) in
        let (pad, _, e) = parse-new_sent_message P random params msg small (sent ∙ ap ok same) in
        record {
          parsed = record msg { payload = params.payload; padding = pad };
          how = e;
          payload_eq = refl;
          src_eq = unknown ∙ rw n refl;
        }
    | inr (key, k) ↦
        let (pad, sig, _, e) =
          parse-sign P random params msg raw key sign_law small sent (rw k at signed) in
        record { parsed = _; how = e; payload_eq = refl; src_eq = rw k refl }
  ]

  open-parsed :
      (f : Filter P) (e : Envelope P) (msg : ReceivedMessage P) (params : MessageParams P)
      → decrypt_for P f e ≡ some msg
      → Parsed P params msg
      → e.topic ≡ params.topic
      → e.ttl ≡ (if params.ttl == 0 then default_ttl else params.ttl)
      → (m : ReceivedMessage P) × (open_for P f e ≡ some (some m)) × Delivered P params m
  unfolding open_for
  open-parsed f e msg params d p topic ttl = (
    record p.parsed {
      topic = e.topic;
      pow = (with_pow P e).pow;
      ttl = e.ttl;
      sent = sub32 e.expiry e.ttl;
      envelope_hash = (with_hash P e).hash;
    },
    rw (d, p.how, open_for) refl,
    record { payload_eq = p.payload_eq; src_eq = p.src_eq; topic_eq = topic; ttl_eq = ttl },
  )

  -- The symmetric key of a filter opens what was encrypted with it.
  decrypt_for-symmetric :
      (f : Filter P) (e : Envelope P) (key : List ℕ) (msg : ReceivedMessage P)
      → f.key_asym ≡ none
      → f.key_sym ≡ some key
      → decrypt_symmetric P key (message_of P e) ≡ some msg
      → decrypt_for P f e ≡ some (record msg { sym_key_hash = P.keccak256 key })
  unfolding decrypt_for open_symmetric
  decrypt_for-symmetric f e key msg a s d = rw (a, s, d) refl

  encrypt_for-symmetric :
      (around : Surroundings) (params : MessageParams P) (key text content : List ℕ)
      → params.dst ≡ none
      → params.key_sym ≡ some key
      → encrypt_for P around params text ≡ some content
      → encrypt_symmetric P around.salt key text ≡ some content
  unfolding encrypt_for
  encrypt_for-symmetric around params key text content d k e = rw (d, k) at e

  -- A message that is laid out by `NewSentMessage`, signed if there is a key for it, and wrapped
  -- with a symmetric key is opened by every filter with that key: the filter gets the payload, the
  -- topic, the time to live, which is 50 where none was given, and as the sender the signer's public
  -- key, or none for a message that nobody signed. Assumed are a payload below 2^24 bytes, that the
  -- cipher opens what it sealed with the same key and nonce, and that a signature has 65 bytes and
  -- the key recovered from it is the signer's.
  pub open-wrap :
      (random : ℕ → Option (List ℕ)) (params : MessageParams P) (around : Surroundings)
      (key raw : List ℕ) (x y : Option (List ℕ)) (e : Envelope P) (f : Filter P)
      → ((k nonce text : List ℕ) → P.gcm_open k nonce (P.gcm_seal k nonce text) ≡ some text)
      → length params.payload < 16777216
      → params.dst ≡ none
      → params.key_sym ≡ some key
      → f.key_asym ≡ none
      → f.key_sym ≡ some key
      → generate_secure_random_data aes_nonce_length x y ≡ around.salt
      → new_sent_message P random params ≡ ok raw
      → wrap P around params raw ≡ wrapped e
      → (m : ReceivedMessage P) × (open_for P f e ≡ some (some m)) × Delivered P params m
  unfolding sign_for
  open-wrap random params around key raw x y e f law small d k fa fs salt sent w =
      let did = wrap-Did P around params raw e w in
      let enc =
        encrypt_for-symmetric around (with_ttl P params) key did.text e.content d k
          did.content_eq in
      let (nonce, _, dec) =
        decrypt-encrypt_symmetric P key did.text e.content x y around.salt (message_of P e) law salt
          enc refl in
      let opened = decrypt_for-symmetric f e key _ fa fs dec in
      let parsed =
        parse-sign_for random params raw
          (record (message_of P e) { raw = did.text; salt = nonce; sym_key_hash = P.keccak256 key })
          small sent did.signed refl in
      open-parsed f e _ params opened parsed did.topic_eq did.ttl_eq
