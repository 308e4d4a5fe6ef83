-- ===== src/Packets/Sound.antt =====
-- A session of `runMessageLoop` (whisperv6/whisper.go) stays sound.
use whisper.Base.{ℕ, ◌≡◌, refl, ◌∙◌, List, some, length, arith, inl, inr}
use whisper.Constants.{bloom_filter_size}
use whisper.Node.{Node, done, P2pItem, post_p2p}
use whisper.Packets.{Packet, LoopError, Session, Outside}
use whisper.Packets.Cases.{run_message_loop}
use whisper.Packets.Closed.{Closed, Leaves, start, run_message_loop-Leaves}
use whisper.Peer.{Peer, set_bloom_filter}
use whisper.Peer.Filter.{IsTestable}
use whisper.Platform.{Platform}
use whisper.Pool.Invariant.{IsValid}
use whisper.Protocol.Quiet.{SamePeer, receive_loop-SamePeer}
use whisper.Protocol.Reception.{receive_loop-IsValid, with_feed-IsValid}
use whisper.Sets.{Sets}
use mathlib.Core.Path.{subst}

-- The node's pool is well formed, and every envelope can be tested against the peer's bloom filter.
pub record IsSound {P : Platform} {S : Sets} (s : Session P S) : Type 0 where
  pub valid : IsValid s.node.pool
  pub testable : IsTestable s.peer

module _ (P : Platform) (S : Sets) where
  pub same-IsTestable : (p p' : Peer P S) → SamePeer p p' → IsTestable p → IsTestable p'
  unfolding IsTestable
  same-IsTestable p p' k (inl f) = inl (k.same_full ∙ f)
  same-IsTestable p p' k (inr (b, f, l)) = inr (b, k.same_bloom ∙ f, l)

  filter-IsTestable :
      (b : List ℕ) (p : Peer P S)
      → length b ≡ bloom_filter_size
      → IsTestable (set_bloom_filter P S (some b) p)
  unfolding IsTestable set_bloom_filter
  filter-IsTestable b p l = inr (b, refl, l)

  post_p2p-pool :
      (item : P2pItem P) (w : Node P S) {w' : Node P S}
      → post_p2p P S item w ≡ done w'
      → w'.pool ≡ w.pool
  unfolding post_p2p
  post_p2p-pool item w h = ground arith

  pub IsSound-Closed : Closed P S IsSound
  IsSound-Closed = record {
    with_event = λ e s k. record {
      valid = with_feed-IsValid P S s.node.pool _ k.valid;
      testable = k.testable;
    };
    talking = λ o c s k. record { valid = k.valid; testable = k.testable };
    archiving = λ l s t k. record { valid = k.valid; testable = k.testable };
    requiring = λ f s k. record {
      valid = k.valid;
      testable =
          same-IsTestable s.peer _
            (record { same_trusted = refl; same_full = refl; same_bloom = refl }) k.testable;
    };
    filtering = λ b s l k. record { valid = k.valid; testable = filter-IsTestable b s.peer l };
    posting = λ item s w t h k. record {
      valid = rw (post_p2p-pool item s.node h) k.valid;
      testable = k.testable;
    };
    receiving = λ describe es s b h k. record {
      valid = receive_loop-IsValid P S describe es (start P S s) k.valid h;
      testable =
          same-IsTestable s.peer b.peer (receive_loop-SamePeer P S describe es (start P S s) h)
            k.testable;
    };
  }

  -- Whatever packets arrive, if the loop returns, it leaves the pool well formed and the peer with a
  -- bloom filter against which every envelope can be tested, if it began so.
  pub run_message_loop-IsSound :
      (around : Outside) (ps : List (Packet P)) (s : Session P S) {r : Session P S × LoopError}
      → IsSound s
      → run_message_loop P S around ps s ≡ done r
      → IsSound r.0
  run_message_loop-IsSound around ps s k h =
      subst (Leaves P S IsSound) h (run_message_loop-Leaves IsSound IsSound-Closed around ps s k)
