-- ===== src/Api/Posted.antt =====
-- What a call of `Post` of whisperv6/api.go that succeeds has done, from the request to a filter of a
-- receiver.
use whisper.Base.{
  ℕ, ◌≡◌, ◌<◌, refl, ap, ◌∙◌, sym, List, Bool, true, false, not, ◌&&◌, ◌||◌, Option, none, some,
  length, arith, Bool-cases, inl, inr, ◌⊎◌,
}
use whisper.Api.{
  keyed_params, NewMessage, ApiError, not_sent, sym_asym, Elsewhere, Posting, posted, refused,
  stuck, panicked, given, checked_sym_key, signing_key, encryption_key, unmarshalled, post_params,
  post_envelope, post_message, post, invalid_public_key, no_topics, invalid_symmetric_key,
}
use whisper.Base.Outcome.{ok_inj, Outcome, ok, err, panic}
use whisper.Bytes.{validate_data_integrity}
use whisper.Constants.{aes_key_length, aes_nonce_length, signature_length}
use whisper.Encryption.{generate_secure_random_data}
use whisper.Envelope.{Envelope, with_hash}
use whisper.Events.{zero_topic}
use whisper.Filters.{Filter, open_for}
use whisper.Host.{Host}
use whisper.Keys.{KeyStore, get_sym_key}
use whisper.Keys.Symmetric.{bind_ok}
use whisper.Message.{MessageParams, ReceivedMessage, new_sent_message}
use whisper.Node.{Node, Effect, done, waits, panics, send}
use whisper.Platform.{Platform}
use whisper.Settings.{min_pow}
use whisper.Sets.{Sets}
use whisper.Topic.{topic_eq}
use whisper.Wrap.{Wrapped, wrapped, failed, crashed, still_sealing, wrap}
use whisper.Wrap.Roundtrip.{open-wrap}

Outcome-cases :
    {E A : Type 0} (m : Outcome E A)
    → ((a : A) × (m ≡ ok a)) ⊎ (((e : E) × (m ≡ err e)) ⊎ (m ≡ panic))
Outcome-cases (ok a) = inl (a, refl)
Outcome-cases (err e) = inr (inl (e, refl))
Outcome-cases panic = inr (inr refl)

module _ (P : Platform) (S : Sets) where
  is_posted : Posting P S → Bool
  is_posted (posted w h) = true
  is_posted (refused w e) = false
  is_posted stuck = false
  is_posted panicked = false

  -- The stages of a call that succeeds.
  record Went (out : Elsewhere P) (req : NewMessage P) (ks : KeyStore P) (w w' : Host P S) (h : ℕ)
      : Type 0 where
    pub params : MessageParams P
    pub raw : List ℕ
    pub e : Envelope P
    pub params_eq : post_params P out req ks ≡ ok params
    pub raw_eq : new_sent_message P out.random params ≡ ok raw
    pub wrapped_eq : wrap P out.around params raw ≡ wrapped e
    pub end_eq : post_envelope P S out req e w ≡ posted w' h

  no_post : {A : Type 0} (x y : Posting P S) → x ≡ y → is_posted x ≡ false → is_posted y ≡ true → A
  no_post x y e f t = absurd (ground (arith, sym f ∙ ap is_posted e ∙ t))

  wrap-Went :
      (out : Elsewhere P) (req : NewMessage P) (ks : KeyStore P) (w : Host P S) {w' : Host P S}
      {h : ℕ} (params : MessageParams P) (raw : List ℕ)
      → post_params P out req ks ≡ ok params
      → new_sent_message P out.random params ≡ ok raw
      → post_message P S out req params w ≡ posted w' h
      → (x : Wrapped P) → wrap P out.around params raw ≡ x
      → Went out req ks w w' h
  unfolding post_message is_posted
  wrap-Went out req ks w params raw p n g (wrapped e) x = record {
    params = params;
    raw = raw;
    e = e;
    params_eq = p;
    raw_eq = n;
    wrapped_eq = x;
    end_eq = rw (n, x, post_message) at g;
  }
  wrap-Went out req ks w params raw p n g (failed e) x =
      no_post _ _ (rw (n, x, post_message) at g) refl refl
  wrap-Went out req ks w params raw p n g crashed x =
      no_post _ _ (rw (n, x, post_message) at g) refl refl
  wrap-Went out req ks w params raw p n g still_sealing x =
      no_post _ _ (rw (n, x, post_message) at g) refl refl

  post-Went :
      (out : Elsewhere P) (req : NewMessage P) (ks : KeyStore P) (w : Host P S) {w' : Host P S}
      {h : ℕ}
      → post P S out req ks w ≡ posted w' h
      → Went out req ks w w' h
  unfolding post post_message is_posted
  post-Went out req ks w g = elim (Outcome-cases (post_params P out req ks)) [
    | inr (inl (e, p)) ↦ no_post _ _ (rw (p, post) at g) refl refl
    | inr (inr p) ↦ no_post _ _ (rw (p, post) at g) refl refl
    | inl (params, p) ↦ elim (Outcome-cases (new_sent_message P out.random params)) [
      | inr (inl (e, n)) ↦ no_post _ _ (rw (p, n, post, post_message) at g) refl refl
      | inr (inr n) ↦ no_post _ _ (rw (p, n, post, post_message) at g) refl refl
      | inl (raw, n) ↦
          wrap-Went out req ks w params raw p n (rw (p, post) at g) (wrap P out.around params raw)
            refl
    ]
  ]

  posted_inj : {w w' : Host P S} {h h' : ℕ} → posted w h ≡ posted w' h' → (w ≡ w') × (h ≡ h')
  posted_inj {w} {w'} {h} {h'} x = (
    ap (λ (y : Posting P S). elim y [ posted v i ↦ v | _ ↦ w ]) x,
    ap (λ (y : Posting P S). elim y [ posted v i ↦ i | _ ↦ h ]) x,
  )

  after_send :
      (out : Elsewhere P) (e : Envelope P) (w : Host P S) {w' : Host P S} {h : ℕ}
      (r : Effect (Node P S × Bool))
      → send P S out.now e w.node ≡ r
      → elim r [
        | waits ↦ stuck
        | panics ↦ panicked
        | done (n, true) ↦ posted (record w { node = n }) (with_hash P e).hash
        | done (n, false) ↦ refused (record w { node = n }) not_sent
      ]
        ≡ posted w' h
      → (h ≡ (with_hash P e).hash)
        × (send P S out.now e w.node ≡ done (w'.node, true))
        × (w' ≡ record w { node = w'.node })
  unfolding is_posted
  after_send out e w waits s g = no_post _ _ g refl refl
  after_send out e w panics s g = no_post _ _ g refl refl
  after_send out e w (done (n, false)) s g = no_post _ _ g refl refl
  after_send out e w (done (n, true)) s g =
      let (a, b) = posted_inj g in
      (sym b, s ∙ ap (λ (v : Host P S). done (v.node, true)) a, rw (← a) refl)

  -- Without a target peer the envelope goes into the network.
  sent_on :
      (out : Elsewhere P) (req : NewMessage P) (e : Envelope P) (w : Host P S) {w' : Host P S}
      {h : ℕ}
      → given req.target_peer ≡ false
      → post_envelope P S out req e w ≡ posted w' h
      → (h ≡ (with_hash P e).hash)
        × (send P S out.now e w.node ≡ done (w'.node, true))
        × (w' ≡ record w { node = w'.node })
  unfolding post_envelope is_posted
  sent_on out req e w none_given g =
      elim (Bool-cases (P.lt req.pow_target (min_pow P w.node.settings))) [
        | inl low ↦ no_post _ _ (rw (none_given, low, post_envelope) at g) refl refl
        | inr enough ↦
            after_send out e w (send P S out.now e w.node) refl
              (rw (none_given, enough, post_envelope) at g)
      ]

  -- The parameters of a request with a symmetric key.
  record Symmetric (req : NewMessage P) (key : List ℕ) (params : MessageParams P) : Type 0 where
    pub same_payload : params.payload ≡ req.payload
    pub same_topic : params.topic ≡ req.topic
    pub no_dst : params.dst ≡ none
    pub its_key : params.key_sym ≡ some key

  encryption_key-some :
      (req : NewMessage P) (ks : KeyStore P) (key : List ℕ) {o : Option (List ℕ)}
      → given req.sym_key_id ≡ true
      → get_sym_key P req.sym_key_id ks ≡ ok key
      → encryption_key P req.topic req.sym_key_id ks ≡ ok o
      → o ≡ some key
  unfolding encryption_key checked_sym_key
  encryption_key-some req ks key {o} s k x = elim (Bool-cases (topic_eq req.topic zero_topic)) [
    | inl z ↦
        let y : ◌≡◌ {A = Outcome ApiError (Option (List ℕ))} (err no_topics) (ok o) =
          rw (s, z, encryption_key) at x in
        absurd (ground (arith, y))
    | inr z ↦ elim (Bool-cases (validate_data_integrity key aes_key_length)) [
      | inr v ↦
          let y : ◌≡◌ {A = Outcome ApiError (Option (List ℕ))} (err invalid_symmetric_key) (ok o) =
            rw (s, z, k, v, encryption_key, checked_sym_key) at x in
          absurd (ground (arith, y))
      | inl v ↦
          let y : ◌≡◌ {A = Outcome ApiError (Option (List ℕ))} (ok (some key)) (ok o) =
            rw (s, z, k, v, encryption_key, checked_sym_key) at x in
          ground (arith, y)
    ]
  ]

  unmarshalled-none :
      (unmarshal : List ℕ → Option P.PublicKey) (x : ApiError) (bytes : List ℕ)
      {o : Option P.PublicKey}
      → given bytes ≡ false
      → unmarshalled P unmarshal x bytes ≡ ok o
      → o ≡ none
  unfolding unmarshalled
  unmarshalled-none unmarshal x bytes {o} n h =
      let y : ◌≡◌ {A = Outcome ApiError (Option P.PublicKey)} (ok none) (ok o) =
        rw (n, unmarshalled) at h in
      sym (ok_inj y)

  keyed_params-Symmetric :
      (out : Elsewhere P) (req : NewMessage P) (ks : KeyStore P) (key : List ℕ)
      {params : MessageParams P}
      → given req.sym_key_id ≡ true
      → given req.public_key ≡ false
      → get_sym_key P req.sym_key_id ks ≡ ok key
      → keyed_params P out req ks ≡ ok params
      → Symmetric req key params
  unfolding keyed_params
  keyed_params-Symmetric out req ks key s n k x =
      let (src, _, a) = bind_ok (signing_key P req.sig ks) _ x in
      let (o, found, b) = bind_ok (encryption_key P req.topic req.sym_key_id ks) _ a in
      let (d, dst, c) =
        bind_ok (unmarshalled P out.unmarshal_pubkey invalid_public_key req.public_key) _ b in
      let key_eq = encryption_key-some req ks key s k found in
      let dst_eq = unmarshalled-none out.unmarshal_pubkey invalid_public_key req.public_key n dst in
      rw (← ok_inj c)
        (record { same_payload = refl; same_topic = refl; no_dst = dst_eq; its_key = key_eq })

  post_params-Symmetric :
      (out : Elsewhere P) (req : NewMessage P) (ks : KeyStore P) (key : List ℕ)
      {params : MessageParams P}
      → given req.sym_key_id ≡ true
      → get_sym_key P req.sym_key_id ks ≡ ok key
      → post_params P out req ks ≡ ok params
      → Symmetric req key params
  unfolding post_params
  post_params-Symmetric out req ks key {params} s k x =
      let sym_given = given req.sym_key_id in
      let pub_given = given req.public_key in
      elim (Bool-cases pub_given) [
        | inl both ↦
            let c : ((sym_given && pub_given) || (not sym_given && not pub_given)) ≡ true =
              rw (s, both) refl in
            let y : ◌≡◌ {A = Outcome ApiError (MessageParams P)} (err sym_asym) (ok params) =
              rw (c, post_params) at x in
            absurd (ground (arith, y))
        | inr one ↦
            let c : ((sym_given && pub_given) || (not sym_given && not pub_given)) ≡ false =
              rw (s, one) refl in
            keyed_params-Symmetric out req ks key s one k (rw (c, post_params) at x)
      ]

  -- Without a target peer nothing but the node's own state changes.
  pub post-host :
      (out : Elsewhere P) (req : NewMessage P) (ks : KeyStore P) (w w' : Host P S) (h : ℕ)
      → given req.target_peer ≡ false
      → post P S out req ks w ≡ posted w' h
      → w' ≡ record w { node = w'.node }
  post-host out req ks w w' h t g =
      let went = post-Went out req ks w g in (sent_on out req went.e w t went.end_eq).2

  -- A call of `Post` with a symmetric key and no target peer that succeeds: `Send` took an envelope
  -- with the hash that is returned, and every filter with the key opens this envelope to the payload
  -- and the topic of the request. Assumed are a payload below 2^24 bytes, that the cipher opens what
  -- it sealed with the same key and nonce, and that a signature has 65 bytes and the key recovered
  -- from it is the signer's.
  pub post_delivers :
      (out : Elsewhere P) (req : NewMessage P) (ks : KeyStore P) (w w' : Host P S) (h : ℕ)
      (key : List ℕ) (x y : Option (List ℕ)) (f : Filter P)
      → ((h : ℕ) (k : P.PrivateKey) (s : List ℕ)
          → P.ec_sign h k ≡ some s
          → (length s ≡ signature_length) × (P.recover_key h s ≡ some (P.public_key k)))
      → ((k nonce text : List ℕ) → P.gcm_open k nonce (P.gcm_seal k nonce text) ≡ some text)
      → length req.payload < 16777216
      → given req.sym_key_id ≡ true
      → given req.target_peer ≡ false
      → get_sym_key P req.sym_key_id ks ≡ ok key
      → f.key_asym ≡ none
      → f.key_sym ≡ some key
      → generate_secure_random_data aes_nonce_length x y ≡ out.around.salt
      → post P S out req ks w ≡ posted w' h
      → (e : Envelope P) × (h ≡ (with_hash P e).hash)
        × (send P S out.now e w.node ≡ done (w'.node, true))
        × ((m : ReceivedMessage P) × (open_for P f e ≡ some (some m))
            × (m.payload ≡ req.payload)
            × (m.topic ≡ req.topic))
  post_delivers out req ks w w' h key x y f sign law small s t k fa fs salt g =
      let went = post-Went out req ks w g in
      let p = post_params-Symmetric out req ks key s k went.params_eq in
      let small' : length went.params.payload < 16777216 = rw p.same_payload small in
      let (m, opened, d) =
        open-wrap P sign out.random went.params out.around key went.raw x y went.e f law small'
          p.no_dst p.its_key fa fs salt went.raw_eq went.wrapped_eq in
      let (hash_eq, sent, _) = sent_on out req went.e w t went.end_eq in
      (went.e, hash_eq, sent, (m, opened, d.payload_eq ∙ p.same_payload, d.topic_eq ∙ p.same_topic))
