-- ===== src/Peer/Filter.antt =====
-- The bloom filter and the settings of a peer after a handshake (whisperv6/peer.go).
use whisper.Base.{
  ℕ, ◌≡◌, refl, List, [], ◌∷◌, Bool, true, false, not, ◌&&◌, ◌||◌, arith, Option, none, some, ◌==◌,
  Bool-cases, Option-cases, inl, inr, if◌then◌else◌, length, ◌⊎◌,
}
use whisper.Bloom.{is_full_node}
use whisper.Bloom.Match.{bloom_match_total}
use whisper.Bloom.Topics.{length-topic_to_bloom}
use whisper.Constants.{bloom_filter_size, status_code}
use whisper.Envelope.{Envelope, with_bloom}
use whisper.Peer.{
  Peer, StatusPacket, Handshake, connected, failed, HandshakeError, not_status, bad_status,
  version_mismatch, bad_pow, bad_bloom_size, two_light_clients, send_failed, new_peer,
  set_bloom_filter, bloom_match, finish_handshake, receive_pow, handshake,
}
use whisper.Platform.{Platform}
use whisper.Settings.{Settings, light_client_mode, light_client_mode_connection_restricted}
use whisper.Sets.{Sets}

-- A bloom filter against which every envelope can be tested: none is needed, or it has 64 bytes.
unfoldable pub IsTestable : {P : Platform} {S : Sets} → Peer P S → Type 0
IsTestable p =
    (p.full_node ≡ true)
    ⊎ ((b : List ℕ) × (p.bloom_filter ≡ some b) × (length b ≡ bloom_filter_size))

module _ (P : Platform) (S : Sets) where
  testable_bloom_match :
      (p : Peer P S) (e : Envelope P)
      → IsTestable p
      → e.bloom ≡ none
      → (b : Bool) × (bloom_match P S p e ≡ some b)
  unfolding bloom_match IsTestable with_bloom
  testable_bloom_match p e (inl f) n = (true, rw f refl)
  testable_bloom_match p e (inr (b, f, l)) n = elim (Bool-cases p.full_node) [
    | inl c ↦ (true, rw c refl)
    | inr c ↦
        let (r, m) =
          bloom_match_total b (with_bloom P e).1 l (rw n (length-topic_to_bloom e.topic)) in
        (r, rw (c, f) m)
  ]

  -- A handshake that succeeds leaves such a filter.
  abbrev pub Ends : Handshake P S → Type 0
  Ends (connected q) = IsTestable q
  Ends (failed e) = Unit

  choose-Ends :
      (b : Bool) (x : HandshakeError) (h : Handshake P S)
      → (b ≡ false → Ends h)
      → Ends (if b then failed x else h)
  choose-Ends true x h t = tt
  choose-Ends false x h t = t refl

  finish-Ends :
      (s : Settings P) (k : StatusPacket) (own : Bool) (p : Peer P S)
      → IsTestable p
      → Ends (finish_handshake P S s k own p)
  unfolding finish_handshake IsTestable
  finish-Ends s k own p t =
      choose-Ends (k.light && light_client_mode P s && light_client_mode_connection_restricted P s)
        two_light_clients _
        λ _. choose-Ends (not own) send_failed _ λ _.
          elim k.confirmations
            as (λ c. Ends (
              connected (elim c [
                | none ↦ p
                | some true ↦ record p { confirmations_enabled = true }
                | some false ↦ p
              ]))) [ none ↦ t | some true ↦ t | some false ↦ t ]

  set_bloom_filter-IsTestable :
      (b : List ℕ) (p : Peer P S)
      → (not (length b == bloom_filter_size) && not (length b == 0)) ≡ false
      → IsTestable (set_bloom_filter P S (some b) p)
  unfolding set_bloom_filter IsTestable is_full_node
  set_bloom_filter-IsTestable [] p h = inl refl
  set_bloom_filter-IsTestable (x ∷ b) p h = inr (x ∷ b, refl, ground arith)

  receive_pow-Ends :
      (s : Settings P) (k : StatusPacket) (own : Bool) (p : Peer P S)
      → IsTestable p
      → Ends (receive_pow P S s k own p)
  unfolding receive_pow IsTestable
  receive_pow-Ends s k own p t = elim (Option-cases k.pow) [
    | inl c ↦ rw (c, receive_pow) (finish-Ends s k own p t)
    | inr (raw, c) ↦
        rw (c, receive_pow)
          (let pow = P.float_from_bits raw in
            choose-Ends (P.is_inf pow || P.is_nan pow || P.lt pow P.zero_pow) bad_pow _ λ _.
              elim (Option-cases k.bloom) [
                | inl d ↦ rw d (finish-Ends s k own (record p { pow_requirement = pow }) t)
                | inr (b, d) ↦ rw d (
                    choose-Ends (not (length b == bloom_filter_size) && not (length b == 0))
                      bad_bloom_size _
                      λ h.
                        finish-Ends s k own
                          (set_bloom_filter P S (some b) (record p { pow_requirement = pow }))
                          (set_bloom_filter-IsTestable b (record p { pow_requirement = pow }) h))
              ])
  ]

  pub handshake-Ends :
      (s : Settings P) (packet : Option StatusPacket) (own : Bool) (p : Peer P S)
      → IsTestable p
      → Ends (handshake P S s packet own p)
  unfolding handshake
  handshake-Ends s none own p t = tt
  handshake-Ends s (some k) own p t = choose-Ends (not (k.code == status_code)) not_status _ λ _.
      choose-Ends (not k.is_list) bad_status _ λ _. elim (Option-cases k.version) [
        | inl c ↦ rw c tt
        | inr (v, c) ↦
            rw c (choose-Ends (not (v == 6)) version_mismatch _ λ _. receive_pow-Ends s k own p t)
      ]

  pub new_peer-IsTestable : (id : ℕ) → IsTestable (new_peer P S id)
  unfolding new_peer IsTestable
  new_peer-IsTestable id = inl refl

  -- After a handshake with a new peer, testing an envelope whose bloom filter has not been computed
  -- yet against the peer's bloom filter does not go out of range, whatever the peer sent.
  pub handshake-bloom_match :
      (s : Settings P) (packet : Option StatusPacket) (own : Bool) (id : ℕ) (q : Peer P S)
      (e : Envelope P)
      → handshake P S s packet own (new_peer P S id) ≡ connected q
      → e.bloom ≡ none
      → (b : Bool) × (bloom_match P S q e ≡ some b)
  handshake-bloom_match s packet own id q e h n =
      testable_bloom_match q e
        (rw h at (handshake-Ends s packet own (new_peer P S id) (new_peer-IsTestable id))) n
