-- ===== src/Node/Quiet.antt =====
-- `add` of whisperv6/whisper.go for an envelope that is to be forwarded: what it leaves alone.
use whisper.Base.{ℕ, ◌≡◌, refl, ◌∙◌, Bool, false, inl, inr, arith}
use whisper.Envelope.{Envelope, with_hash}
use whisper.Node.{Node, done, Added, post_event, archive, add_checked, add}
use whisper.Node.Add.{went_on, refused, ignored, add-Cases, add_checked-done}
use whisper.Platform.{Platform}
use whisper.Pool.{Pool, cache_envelope}
use whisper.Settings.{check_overflow}
use whisper.Sets.{Sets}

-- The queue of direct messages and the light client's setting are as they were.
pub record Quiet {P : Platform} {S : Sets} (w w' : Node P S) : Type 0 where
  pub same_p2p : w'.p2p_msg_queue ≡ w.p2p_msg_queue
  pub same_light : w'.settings.light_client ≡ w.settings.light_client

module _ (P : Platform) (S : Sets) where
  post_event-Quiet :
      (e : Envelope P) (w : Node P S) {w' : Node P S}
      → post_event P S e false w ≡ done w'
      → Quiet w w'
  unfolding post_event check_overflow
  post_event-Quiet e w h = record { same_p2p = ground arith; same_light = ground arith }

  archive-Quiet : (e : Envelope P) (w : Node P S) → Quiet w (archive P S e w)
  unfolding archive
  archive-Quiet e w = record { same_p2p = ground arith; same_light = ground arith }

  add_checked-Quiet :
      (e0 : Envelope P) (w : Node P S) {r : Added P S}
      → add_checked P S false e0 w ≡ done r
      → Quiet w r.node
  add_checked-Quiet e0 w {r} h =
      let e : Envelope P = with_hash P e0 in
      let c : Pool P S × Bool = cache_envelope P S e.hash e w.pool in
      elim (add_checked-done P S false e0 w h) [
        | inl (old, x) ↦ rw x (record { same_p2p = refl; same_light = refl })
        | inr (w', new, posted, x) ↦
            let q = post_event-Quiet e (record w { pool = c.0 }) posted in
            let a = archive-Quiet e w' in
            rw x (record {
              same_p2p = a.same_p2p ∙ q.same_p2p;
              same_light = a.same_light ∙ q.same_light;
            })
      ]

  pub add-Quiet :
      (now : ℕ) (e : Envelope P) (w : Node P S) {r : Added P S}
      → add P S now false e w ≡ done r
      → Quiet w r.node
  add-Quiet now e w h = elim (add-Cases P S now false e w h) [
    | went_on e' _ x ↦ add_checked-Quiet e' w x
    | refused _ _ x ↦ rw x (record { same_p2p = refl; same_light = refl })
    | ignored _ x ↦ rw x (record { same_p2p = refl; same_light = refl })
  ]
