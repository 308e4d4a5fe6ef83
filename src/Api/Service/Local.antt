-- ===== src/Api/Service/Local.antt =====
-- A message that is posted and polled on the same node (whisperv6/api.go, whisperv6/whisper.go).
use whisper.Base.{
  ℕ, ◌≡◌, ◌<◌, ◌+◌, refl, sym, ap, ◌∙◌, List, [], ◌∷◌, ◌++◌, Bool, true, false, Option, none, some,
  some_inj, none_is_some, ◌==◌, arith, Bool-cases, Option-cases, inl, inr, length,
}
use mathlib.Core.List.{Memᴰ}
use mathlib.Core.Path.{subst}
use whisper.Api.{Elsewhere, NewMessage, posted, post, given}
use whisper.Api.Criteria.{Message}
use whisper.Api.Posted.{post_delivers, post-host}
use whisper.Api.Service.{Service, get_filter, get_filter_messages}
use whisper.Api.Service.Delivered.{queue_to_client}
use whisper.Api.Service.Polled.{after_poll}
use whisper.Base.Assoc.{lookup}
use whisper.Base.Outcome.{ok}
use whisper.Constants.{default_sync_allowance, signature_length, aes_nonce_length}
use whisper.Encryption.{generate_secure_random_data}
use whisper.Host.{Host, process_queue}
use whisper.Host.Orderly.{IsOrderly}
use whisper.Host.Reach.{send-IsOrderly}
use whisper.Keys.{get_sym_key}
use whisper.Admission.Accepted.{check_envelope-accepted}
use whisper.Encryption.{open_asymmetric, open_symmetric}
use whisper.Envelope.{Envelope, with_hash}
use whisper.Envelope.Caches.{SameText}
use whisper.Filters.{
  Filter, decrypt_for, open_for, match_envelope, wants_src, deref, get_watchers_by_topic,
}
use whisper.Message.{ReceivedMessage}
use whisper.Node.{Node, Effect, done, Added, add, send}
use whisper.Node.Add.{
  went_on, refused, ignored, add-Cases, add_checked-done, add_outcome, Posted, cached_true,
  bind-done, done_inj,
}
use whisper.Platform.{Platform}
use whisper.Pool.{is_envelope_cached}
use whisper.Received.Total.{validate_and_parse_total}
use whisper.Sets.{Sets}

module _ (P : Platform) where
  rehashed :
      (e : Envelope P)
      → (with_hash P (record e {
        hash = P.keccak256 (P.rlp_envelope e.expiry e.ttl e.topic e.content e.nonce);
      })).hash
        ≡ P.keccak256 (P.rlp_envelope e.expiry e.ttl e.topic e.content e.nonce)
  unfolding with_hash
  rehashed e =
      elim (Bool-cases
        (P.keccak256 (P.rlp_envelope e.expiry e.ttl e.topic e.content e.nonce) == 0)) [
          | inl c ↦ rw (c, with_hash) refl
          | inr c ↦ rw (c, with_hash) refl
        ]

  -- The cache of the hash changes no more than itself, and holds the hash for good.
  with_hash_same :
      (e : Envelope P)
      → ((with_hash P e).content ≡ e.content)
        × ((with_hash P e).topic ≡ e.topic)
        × ((with_hash P (with_hash P e)).hash ≡ (with_hash P e).hash)
  unfolding with_hash
  with_hash_same e = elim (Bool-cases (e.hash == 0)) [
    | inl c ↦ rw (c, with_hash) (refl, refl, rehashed e)
    | inr c ↦ rw (c, with_hash) (refl, refl, rw (c, with_hash) refl)
  ]

  hash-SameText : (e r : Envelope P) → SameText e r → (with_hash P r).hash ≡ (with_hash P e).hash
  unfolding with_hash
  hash-SameText e r t = elim (Bool-cases (e.hash == 0)) [
    | inl c ↦
        let d : (r.hash == 0) ≡ true = rw t.hash c in
        rw (c, d, with_hash, t.expiry, t.ttl, t.topic, t.content, t.nonce) refl
    | inr c ↦ let d : (r.hash == 0) ≡ false = rw t.hash c in rw (c, d, with_hash) t.hash
  ]

  decrypt_for_copy :
      (f : Filter P) (e c : Envelope P)
      → c.content ≡ e.content
      → decrypt_for P f c ≡ decrypt_for P f e
  unfolding decrypt_for open_asymmetric open_symmetric
  decrypt_for_copy f e c same = ap (λ b. decrypt_for P f (record e { content = b })) same

  -- What a filter opens of an envelope depends on its bytes.
  open_for_copy :
      (f : Filter P) (e c : Envelope P) (m : ReceivedMessage P)
      → c.content ≡ e.content
      → c.topic ≡ e.topic
      → open_for P f e ≡ some (some m)
      → (m' : ReceivedMessage P) × (open_for P f c ≡ some (some m'))
        × (m'.payload ≡ m.payload)
        × (m'.topic ≡ m.topic)
        × (m'.topic ≡ c.topic)
        × (m'.envelope_hash ≡ (with_hash P c).hash)
  unfolding open_for
  open_for_copy f e c m same topic h =
      let d : decrypt_for P f c ≡ decrypt_for P f e = decrypt_for_copy f e c same in
      elim (Option-cases (decrypt_for P f e)) [
        | inl n ↦
            let x : ◌≡◌ {A = Option (Option (ReceivedMessage P))} (some none) (some (some m)) =
              rw (n, open_for) at h in
            absurd (none_is_some (some_inj x))
        | inr (msg, n) ↦
            let (parsed, b, v) = validate_and_parse_total P msg in
            elim (Bool-cases b) [
              | inl y ↦
                  let x = some_inj (some_inj (rw (n, v, y, open_for) at h)) in
                  rw (d, n, v, y, open_for)
                    (
                      _,
                      refl,
                      ap (λ (z : ReceivedMessage P). z.payload) x,
                      topic ∙ ap (λ (z : ReceivedMessage P). z.topic) x,
                      refl,
                      refl,
                    )
              | inr y ↦
                  let x : ◌≡◌ {A = Option (Option (ReceivedMessage P))} (some none)
                      (some (some m)) =
                    rw (n, v, y, open_for) at h in
                  absurd (none_is_some (some_inj x))
            ]
      ]

module _ (P : Platform) (S : Sets) where
  -- The envelope as `Send` queues it.
  pub record Queued (e : Envelope P) (w n : Node P S) : Type 0 where
    pub copy : Envelope P
    pub queue_eq : n.message_queue ≡ w.message_queue ++ copy ∷ []
    pub content_eq : copy.content ≡ e.content
    pub topic_eq : copy.topic ≡ e.topic
    pub hash_eq : (with_hash P copy).hash ≡ (with_hash P e).hash

  not_sent :
      {n n' : Node P S} → ◌≡◌ {A = Effect (Node P S × Bool)} (done (n, false)) (done (n', true)) → ⊥
  not_sent {n} {n'} h =
      let x = ap (λ (y : Node P S × Bool). y.1) (done_inj h) in absurd (ground (arith, x))

  checked-Queued :
      (e e' : Envelope P) (w n : Node P S) (r : Added P S)
      → SameText e e'
      → is_envelope_cached P S (with_hash P e).hash w.pool ≡ false
      → r.envelope ≡ with_hash P e'
      → r.node ≡ n
      → Posted P S false w r
      → Queued e w n
  checked-Queued e e' w n r t new same node p =
      let (c, u, i) = with_hash_same P e' in
      let h : r.envelope.hash ≡ (with_hash P e).hash =
        ap (λ (x : Envelope P). x.hash) same ∙ hash-SameText P e e' t in
      elim p.queues [
        | inl (old, _, _) ↦
            let x = ap (λ i. is_envelope_cached P S i w.pool) (sym h) ∙ old in
            absurd (ground (arith, new, x))
        | inr (_, q, _) ↦ record {
          copy = r.envelope;
          queue_eq = ap (λ (x : Node P S). x.message_queue) (sym node) ∙ q;
          content_eq = ap (λ (x : Envelope P). x.content) same ∙ c ∙ t.content;
          topic_eq = ap (λ (x : Envelope P). x.topic) same ∙ u ∙ t.topic;
          hash_eq = ap (λ (x : Envelope P). (with_hash P x).hash) same ∙ i ∙ hash-SameText P e e' t;
        }
      ]

  send-Queued :
      (now : ℕ) (e : Envelope P) (w n : Node P S)
      → now + default_sync_allowance < 4294967296
      → is_envelope_cached P S (with_hash P e).hash w.pool ≡ false
      → send P S now e w ≡ done (n, true)
      → Queued e w n
  unfolding send
  send-Queued now e w n bound new h =
      let (r, added, x) = bind-done (add P S now false e w) _ h in
      elim (add-Cases P S now false e w added) [
        | refused y _ z ↦ absurd (not_sent (rw z at x))
        | ignored _ z ↦
            let error_eq : r.error ≡ none = ap (λ (v : Added P S). v.error) z in
            let cached_eq : r.cached ≡ false = ap (λ (v : Added P S). v.cached) z in
            let y = ap (λ (v : Node P S × Bool). v.1) (done_inj (rw error_eq at x)) in
            absurd (ground (arith, y, cached_eq))
        | went_on e' c y ↦
            let t = (check_envelope-accepted P w.settings now e e' bound c).same_text in
            let env : r.envelope ≡ with_hash P e' = elim (add_checked-done P S false e' w y) [
              | inl (_, z) ↦ rw z refl
              | inr (_, _, _, z) ↦ rw z refl
            ] in
            elim (add_outcome P S now false e w added) [
              | inl (never, _) ↦ absurd (ground (arith, never, cached_true P S false e' w y))
              | inr (_, p) ↦
                  let node : r.node ≡ n =
                    ap (λ (z : Node P S × Bool). z.0) (done_inj (rw p.no_error at x)) in
                  checked-Queued e e' w n r t new env node p
            ]
      ]

  matches_free :
      (f : Filter P) (e : Envelope P) → P.le f.pow P.zero_pow ≡ true → match_envelope P f e ≡ true
  unfolding match_envelope
  matches_free f e h = rw h refl

  wants_anyone : (f : Filter P) (m : ReceivedMessage P) → f.src ≡ none → wants_src P f m ≡ true
  unfolding wants_src
  wants_anyone f m h = rw h refl

  -- A call of `Post` with a symmetric key and no target peer that succeeds, on an orderly node whose
  -- message queue is empty and whose pool does not have the envelope yet; and a filter of the same
  -- node with that key, for messages of any sender and any proof of work, that is tried first for the
  -- topic and has no message of the envelope yet: the next round of `processQueue` ends, and
  -- GetFilterMessages of the filter returns and reports a message with the payload and the topic of
  -- the request and the hash that `Post` returned. The clock is below 2^32 - 10; the payload and the
  -- ciphers are as for `post_delivers`.
  pub post_to_client :
      (out : Elsewhere P) (req : NewMessage P) (sv : Service P S) (w' : Host P S) (h : ℕ)
      (key : List ℕ) (x y : Option (List ℕ)) (f : Filter P) (rest : List (Filter P)) (later id : ℕ)
      → ((h : ℕ) (k : P.PrivateKey) (s : List ℕ)
          → P.ec_sign h k ≡ some s
          → (length s ≡ signature_length) × (P.recover_key h s ≡ some (P.public_key k)))
      → ((k nonce text : List ℕ) → P.gcm_open k nonce (P.gcm_seal k nonce text) ≡ some text)
      → length req.payload < 16777216
      → out.now + default_sync_allowance < 4294967296
      → given req.sym_key_id ≡ true
      → given req.target_peer ≡ false
      → get_sym_key P req.sym_key_id sv.keys ≡ ok key
      → generate_secure_random_data aes_nonce_length x y ≡ out.around.salt
      → IsOrderly sv.host
      → sv.host.node.message_queue ≡ []
      → f.key_asym ≡ none
      → f.key_sym ≡ some key
      → f.src ≡ none
      → P.le f.pow P.zero_pow ≡ true
      → get_filter P S id sv.host ≡ some f
      → deref P sv.host.filters.heap (get_watchers_by_topic P req.topic sv.host.filters)
        ≡ some (f ∷ rest)
      → post P S out req sv.keys sv.host ≡ posted w' h
      → is_envelope_cached P S h sv.host.node.pool ≡ false
      → lookup h (sv.host.stores f.at) ≡ none
      → (u : Host P S) × (process_queue P S w' ≡ done u)
        × ((rs : List (Message P)) × (get_filter_messages P S later id (record sv { host = u })
              ≡ ok (after_poll P S later id f (record sv { host = u }), rs))
            × ((r : Message P) × Memᴰ r rs
                × (r.payload ≡ req.payload)
                × (r.topic ≡ req.topic)
                × (r.hash ≡ h)))
  unfolding get_filter get_watchers_by_topic
  post_to_client out req sv w' h key x y f rest later id sign law small bound s t found_key salt k
        empty fa fs src pow found candidates g new fresh =
      let w = sv.host in
      let (e, hash_eq, sent, (m, opened, pay, top)) =
        post_delivers P S out req sv.keys w w' h key x y f sign law small s t found_key fa fs salt
          g in
      let same = post-host P S out req sv.keys w w' h t g in
      let q =
        send-Queued out.now e w.node w'.node bound
          (ap (λ i. is_envelope_cached P S i w.node.pool) (sym hash_eq) ∙ new) sent in
      let (m', opened', pay', top', its_topic, its_hash) =
        open_for_copy P f e q.copy m q.content_eq q.topic_eq opened in
      let orderly : IsOrderly w' =
        subst IsOrderly (sym same) (send-IsOrderly P S out.now e w sent k) in
      let hash' : m'.envelope_hash ≡ h = its_hash ∙ q.hash_eq ∙ sym hash_eq in
      let topic' : q.copy.topic ≡ req.topic = sym its_topic ∙ top' ∙ top in
      let (u, ran, (rs, got, p)) =
        queue_to_client P S later id (record sv { host = w' }) q.copy [] [] f rest m' orderly
          (q.queue_eq ∙ ap (λ l. l ++ q.copy ∷ []) empty)
          (ap
              (λ (v : Host P S).
                deref P v.filters.heap (get_watchers_by_topic P q.copy.topic v.filters))
              same
            ∙ ap (λ i. deref P w.filters.heap (get_watchers_by_topic P i w.filters)) topic'
            ∙ candidates)
          tt (ap (λ (v : Host P S). get_filter P S id v) same ∙ found) (matches_free f q.copy pow)
          opened' (wants_anyone f m' src)
          (ap (λ (v : Host P S). lookup m'.envelope_hash (v.stores f.at)) same
            ∙ ap (λ i. lookup i (w.stores f.at)) hash'
            ∙ fresh) in
      (
        u,
        ran,
        (
          rs,
          got,
          (
            p.report,
            p.among,
            p.payload_eq ∙ pay' ∙ pay,
            p.topic_eq ∙ top' ∙ top,
            p.hash_eq ∙ hash',
          ),
        ),
      )
