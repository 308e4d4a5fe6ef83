-- ===== src/Wrap/Steps.antt =====
-- What a call of `Wrap` of whisperv6/message.go that succeeds has done.
use whisper.Base.{
  ℕ, ◌+◌, ◌*◌, ◌≡◌, refl, sym, ap, ◌∙◌, List, ◌&&◌, none, some, ltb, arith, Bool-cases,
  Option-cases, inl, inr,
}
use whisper.Envelope.{Envelope, new_envelope, u32}
use whisper.Message.{MessageParams}
use whisper.Platform.{Platform}
use whisper.Seal.{
  Mined, returned, timed_out, running, finish_seal, search_nonce, seal, Search, mine_until,
  zeros_of, pow_to_first_bit,
}
use whisper.Wrap.{
  Wrapped, wrapped, failed, unsigned, unencrypted, no_proof_of_work, crashed, Surroundings,
  with_ttl, sign_for, encrypt_for, of_sealed, wrap_signed, wrap,
}

module _ (P : Platform) where
  -- The envelope that `Seal` gives back carries the same message.
  record SameMessage (e e' : Envelope P) : Type 0 where
    pub same_content : e'.content ≡ e.content
    pub same_topic : e'.topic ≡ e.topic
    pub same_ttl : e'.ttl ≡ e.ttl

  wrapped_inj : {e e' : Envelope P} → wrapped e ≡ wrapped e' → e ≡ e'
  wrapped_inj {e} x = ap (λ (r : Wrapped P). elim r [ wrapped e' ↦ e' | _ ↦ e ]) x

  with_nonce :
      (e e' : Envelope P) (n : ℕ) → wrapped (record e { nonce = n }) ≡ wrapped e' → SameMessage e e'
  with_nonce e e' n x =
      rw (← wrapped_inj x) (record { same_content = refl; same_topic = refl; same_ttl = refl })

  finish_seal-SameMessage :
      (target : ℕ) (e e' : Envelope P) (m : Mined)
      → of_sealed P (finish_seal P target e m) ≡ wrapped e'
      → SameMessage e e'
  unfolding finish_seal
  finish_seal-SameMessage target e e' running x = absurd (ground (arith, x))
  finish_seal-SameMessage target e e' (returned s) x = with_nonce e e' s.chosen x
  finish_seal-SameMessage target e e' (timed_out s) x =
      elim (Bool-cases (ltb 0 target && ltb s.best target)) [
        | inl slow ↦
            let y : ◌≡◌ {A = Wrapped P} (failed no_proof_of_work) (wrapped e') = rw slow at x in
            absurd (ground (arith, y))
        | inr enough ↦ with_nonce e e' s.chosen (rw enough at x)
      ]

  search_nonce-SameMessage :
      (fuel : ℕ) (clock : ℕ → ℕ) (work_time target : ℕ) (e e' : Envelope P)
      → of_sealed P (search_nonce P fuel clock work_time target e) ≡ wrapped e'
      → SameMessage e e'
  unfolding search_nonce
  search_nonce-SameMessage fuel clock work_time target e e' x =
      let start : Search = record { nonce = 0; chosen = e.nonce; best = 0 } in
      let finish = clock 0 + work_time * 1000000000 in
      finish_seal-SameMessage target e e'
        (mine_until (zeros_of P e) target clock finish fuel 1 start) x

  seal-SameMessage :
      (fuel : ℕ) (clock : ℕ → ℕ) (options : MessageParams P) (e e' : Envelope P)
      → of_sealed P (seal P fuel clock options e) ≡ wrapped e'
      → SameMessage e e'
  unfolding seal
  seal-SameMessage fuel clock options e e' x = elim (Bool-cases (P.eq options.pow P.zero_pow)) [
    | inl unasked ↦
        rw (← wrapped_inj (rw unasked at x))
          (record { same_content = refl; same_topic = refl; same_ttl = refl })
    | inr asked ↦ elim (Bool-cases (P.lt options.pow P.zero_pow)) [
      | inl free ↦
          let k =
            search_nonce-SameMessage fuel clock options.work_time 0
              (record e { expiry = u32 (e.expiry + options.work_time) }) e'
              (rw (asked, free) at x) in
          record { same_content = k.same_content; same_topic = k.same_topic; same_ttl = k.same_ttl }
      | inr bound ↦
          search_nonce-SameMessage fuel clock options.work_time (pow_to_first_bit P options.pow e) e
            e' (rw (asked, bound) at x)
    ]
  ]

  -- What a call of `Wrap` that succeeds has done.
  pub record Did (around : Surroundings) (options : MessageParams P) (raw : List ℕ) (e : Envelope P)
      : Type 0 where
    pub text : List ℕ
    pub signed : sign_for P options raw ≡ some (text, none)
    pub content_eq : encrypt_for P around options text ≡ some e.content
    pub topic_eq : e.topic ≡ options.topic
    pub ttl_eq : e.ttl ≡ options.ttl

  wrap_signed-Did :
      (around : Surroundings) (options : MessageParams P) (raw text : List ℕ) (e : Envelope P)
      → sign_for P options raw ≡ some (text, none)
      → wrap_signed P around options text ≡ wrapped e
      → Did around options raw e
  unfolding wrap_signed new_envelope
  wrap_signed-Did around options raw text e s x =
      elim (Option-cases (encrypt_for P around options text)) [
        | inl n ↦
            let y : ◌≡◌ {A = Wrapped P} (failed unencrypted) (wrapped e) =
              rw (n, wrap_signed) at x in
            absurd (ground (arith, y))
        | inr (content, c) ↦
            let k =
              seal-SameMessage around.fuel around.clock options
                (new_envelope P options.ttl options.topic content around.now) e
                (rw (c, wrap_signed) at x) in
            record {
              text = text;
              signed = s;
              content_eq = c ∙ ap some (sym k.same_content);
              topic_eq = k.same_topic;
              ttl_eq = k.same_ttl;
            }
      ]

  pub wrap-Did :
      (around : Surroundings) (options : MessageParams P) (raw : List ℕ) (e : Envelope P)
      → wrap P around options raw ≡ wrapped e
      → Did around (with_ttl P options) raw e
  unfolding wrap
  wrap-Did around options raw e x = elim (Option-cases (sign_for P (with_ttl P options) raw)) [
    | inl n ↦
        let y : ◌≡◌ {A = Wrapped P} crashed (wrapped e) = rw (n, wrap) at x in
        absurd (ground (arith, y))
    | inr ((text, some bad), s) ↦
        let y : ◌≡◌ {A = Wrapped P} (failed (unsigned bad)) (wrapped e) = rw (s, wrap) at x in
        absurd (ground (arith, y))
    | inr ((text, none), s) ↦
        wrap_signed-Did around (with_ttl P options) raw text e s (rw (s, wrap) at x)
  ]
