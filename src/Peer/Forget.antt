-- ===== src/Peer/Forget.antt =====
-- What `expire` of whisperv6/peer.go forgets.
use whisper.Base.{
  ℕ, ◌≡◌, refl, sym, ap, ◌∙◌, List, [], ◌∷◌, Bool, true, false, not, ◌&&◌, arith, ◌==◌, ==_iff,
  Bool-cases, inl, inr, if◌then◌else◌,
}
use whisper.Platform.{Platform}
use whisper.Peer.{Peer, collect_stale, expire}
use whisper.Sets.{Sets, each_until}

module _ (P : Platform) (S : Sets) where
  stale_of : (is_cached : ℕ → Bool) → ℕ → List ℕ
  stale_of is_cached h = if is_cached h then [] else h ∷ []

  first_only :
      (is_cached : ℕ → Bool) (k : ℕ) (rest : List ℕ)
      → each_until (k ∷ rest) (collect_stale P S is_cached) [] ≡ stale_of is_cached k
  unfolding collect_stale stale_of
  first_only is_cached k rest = refl

  known_case :
      (p : Peer P S) (k h : ℕ)
      → S.contains k p.known ≡ true
      → S.contains h p.known ≡ (if h == k then true else S.contains h p.known)
  known_case p k h known_k = elim (Bool-cases (h == k)) [
    | inl e ↦ ap (λ i. S.contains i p.known) ((==_iff h k).0 e) ∙ known_k ∙ rw e refl
    | inr e ↦ rw e refl
  ]

  if_not : (h k : ℕ) (known : Bool) → (not (k == h) && known) ≡ (if h == k then false else known)
  if_not h k known = ground arith

  -- The call that `expire` hands to `Each` returns true, so the traversal ends with the first known
  -- hash: that one is forgotten if the host no longer caches it, and every other hash stays
  -- known, stale or not.
  pub expire_first_only :
      (is_cached : ℕ → Bool) (p : Peer P S) (k : ℕ) (rest : List ℕ)
      → S.elements p.known ≡ k ∷ rest
      → (h : ℕ)
      → S.contains h (expire P S is_cached p).known
        ≡ (if h == k then is_cached k else S.contains h p.known)
  unfolding expire stale_of
  expire_first_only is_cached p k rest e h =
      let run =
        S.each_elements (List ℕ) p.known (collect_stale P S is_cached) []
        ∙ ap (λ l. each_until l (collect_stale P S is_cached) []) e
        ∙ first_only is_cached k rest in
      let known_k : S.contains k p.known ≡ true =
        sym (S.elem-elements k p.known) ∙ rw e (ground arith) in
      rw run (elim (Bool-cases (is_cached k)) [
        | inl c ↦ rw c (known_case p k h known_k)
        | inr c ↦ rw c (S.contains-discard h k p.known ∙ if_not h k (S.contains h p.known))
      ])
