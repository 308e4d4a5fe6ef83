-- ===== src/Packets/Bounded.antt =====
-- No packet fills a queue of the node beyond its capacity (`runMessageLoop` of
-- whisperv6/whisper.go).
use whisper.Base.{ℕ, ◌≡◌, List, [], ◌∷◌, Option, none, some, arith}
use whisper.Admission.{AddError}
use whisper.Envelope.{Envelope, with_hash}
use whisper.Node.{done, Added, add}
use whisper.Node.Add.{bind-done}
use whisper.Node.Bounded.{IsBounded, post_p2p-IsBounded, add-IsBounded}
use whisper.Packets.{Session}
use whisper.Packets.Closed.{Closed, start}
use whisper.Platform.{Platform}
use whisper.Protocol.{Batch, note_error, note_received, receive_loop}
use whisper.Settings.{light_client_mode}
use whisper.Sets.{Sets}

module _ (P : Platform) (S : Sets) where
  noted-IsBounded :
      (describe : AddError → List ℕ) (o : Option AddError) (h : ℕ) (r : Added P S) (b : Batch P S)
      → IsBounded b.node
      → IsBounded (note_received P S r (note_error P S describe o h b)).node
  unfolding note_error note_received
  noted-IsBounded describe none h r b k = record { messages = k.messages; directs = k.directs }
  noted-IsBounded describe (some e) h r b k = record { messages = k.messages; directs = k.directs }

  receive_loop-IsBounded :
      (describe : AddError → List ℕ) (es : List (ℕ × Envelope P)) (b : Batch P S) {c : Batch P S}
      → receive_loop P S describe es b ≡ done c
      → IsBounded b.node
      → IsBounded c.node
  unfolding receive_loop
  receive_loop-IsBounded describe [] b {c} h k =
      let same : b ≡ c = ground (arith, h) in rw (← same) k
  receive_loop-IsBounded describe ((now, e) ∷ es) b h k =
      let light = light_client_mode P b.node.settings in
      let (r, added, rest) = bind-done (add P S now light e b.node) _ h in
      let k' = add-IsBounded P S now light e b.node added k in
      receive_loop-IsBounded describe es _ rest (
        noted-IsBounded describe r.error (with_hash P r.envelope).hash r
          (record b { node = r.node }) k')

  abbrev pub Within : Session P S → Type 0
  Within s = IsBounded s.node

  pub bounded-Closed : Closed P S Within
  bounded-Closed = record {
    with_event = λ e s k. record { messages = k.messages; directs = k.directs };
    talking = λ o c s k. k;
    archiving = λ l s t k. record { messages = k.messages; directs = k.directs };
    requiring = λ f s k. k;
    filtering = λ b s l k. k;
    posting = λ item s w t h k. post_p2p-IsBounded P S item s.node h k;
    receiving = λ describe es s b h k. receive_loop-IsBounded describe es (start P S s) h k;
  }
