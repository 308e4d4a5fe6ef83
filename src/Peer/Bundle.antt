-- ===== src/Peer/Bundle.antt =====
-- `sendBundle` of whisperv6/peer.go. The encoder's failure and that of the connection are one Boolean.
use whisper.Base.{ℕ, List, Bool, Option, none, some, map, if◌then◌else◌}
use whisper.Envelope.{Envelope}
use whisper.Platform.{Platform}

module _ (P : Platform) where
  -- The data of the packet.
  unfoldable pub bundle_data : List (Envelope P) → List ℕ
  bundle_data es =
      P.rlp_bundle (map (λ e. P.rlp_envelope e.expiry e.ttl e.topic e.content e.nonce) es)

  -- `sendBundle`: the hash of the data, if it was written.
  unfoldable pub send_bundle : Bool → List (Envelope P) → Option ℕ
  unfolding bundle_data
  send_bundle written es = if written then some (P.keccak256 (bundle_data es)) else none
