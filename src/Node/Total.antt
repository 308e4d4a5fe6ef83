-- ===== src/Node/Total.antt =====
-- `add` of whisperv6/whisper.go returns.
use whisper.Base.{
  ℕ, ◌<◌, ◌≡◌, ◌≢◌, refl, Bool, true, false, arith, ltb, length, Bool-cases, inl, inr,
}
use whisper.Admission.{Verdict, accepted, dropped, rejected, crashed, check_envelope}
use whisper.Admission.Total.{check_envelope-ne}
use whisper.Constants.{message_queue_limit}
use whisper.Envelope.{Envelope, with_hash}
use whisper.Node.{Node, done, Added, post_p2p, post_event, add_checked, add}
use whisper.Platform.{Platform}
use whisper.Pool.{cache_envelope}
use whisper.Settings.Subscription.{IsSized}
use whisper.Sets.{Sets}

-- The queues have room.
pub record HasRoom {P : Platform} {S : Sets} (w : Node P S) : Type 0 where
  pub message_room : length w.message_queue < message_queue_limit
  pub p2p_room : length w.p2p_msg_queue < message_queue_limit

module _ (P : Platform) (S : Sets) where
  post_event_total :
      (e : Envelope P) (b : Bool) (w : Node P S)
      → HasRoom w
      → (w' : Node P S) × (post_event P S e b w ≡ done w')
  unfolding post_event post_p2p
  post_event_total e true w r =
      let room : ltb (length w.p2p_msg_queue) message_queue_limit ≡ true = ground arith in
      rw room (_, refl)
  post_event_total e false w r =
      let room : ltb (length w.message_queue) message_queue_limit ≡ true = ground arith in
      rw room (_, refl)

  add_checked_total :
      (b : Bool) (e : Envelope P) (w : Node P S)
      → HasRoom w
      → (r : Added P S) × (add_checked P S b e w ≡ done r)
  unfolding add_checked
  add_checked_total b e0 w r =
      let e : Envelope P = with_hash P e0 in
      let c = cache_envelope P S e.hash e w.pool in
      elim (Bool-cases c.1) [
        | inl old ↦ rw old (_, refl)
        | inr new ↦
            let (w', posted) =
              post_event_total e b (record w { pool = c.0 })
                (record { message_room = r.message_room; p2p_room = r.p2p_room }) in
            rw (new, posted) (_, refl)
      ]

  add_cases :
      (now : ℕ) (b : Bool) (e : Envelope P) (w : Node P S) (v : Verdict P)
      → check_envelope P now w.settings e ≡ v
      → v ≢ crashed
      → HasRoom w
      → (r : Added P S) × (add P S now b e w ≡ done r)
  unfolding add
  add_cases now b e w crashed x n r = absurd (n refl)
  add_cases now b e w (rejected y) x n r = rw (x, add) (_, refl)
  add_cases now b e w dropped x n r = rw (x, add) (_, refl)
  add_cases now b e w (accepted e') x n r =
      let (a, y) = add_checked_total b e' w r in (a, rw (x, add) y)

  -- `add` returns wherever the node's bloom filters and the envelope's are nil or of 64 bytes and
  -- the queues have room: it neither panics nor waits.
  pub add_total :
      (now : ℕ) (b : Bool) (e : Envelope P) (w : Node P S)
      → IsSized w.settings.bloom_filter
      → IsSized w.settings.bloom_filter_tolerance
      → IsSized e.bloom
      → HasRoom w
      → (r : Added P S) × (add P S now b e w ≡ done r)
  add_total now b e w f g z r =
      add_cases now b e w (check_envelope P now w.settings e) refl
        (check_envelope-ne P w.settings f g now e z) r
