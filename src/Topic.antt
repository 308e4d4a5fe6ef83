-- ===== src/Topic.antt =====
-- Topics (whisperv6/topic.go): an array of four bytes is a record of four numbers.
use whisper.Base.{ℕ, List, Bool, ◌&&◌, ◌==◌, ◌<◌, ◌≡◌, ◌↔◌, arith, get_or}

pub record Topic : Type 0 where
  pub b0 : ℕ
  pub b1 : ℕ
  pub b2 : ℕ
  pub b3 : ℕ

abbrev pub IsByteTopic : Topic → Type 0
IsByteTopic t = (t.b0 < 256) × (t.b1 < 256) × (t.b2 < 256) × (t.b3 < 256)

-- Equality of the arrays, as a map's key or by `==`.
abbrev pub topic_eq : Topic → Topic → Bool
topic_eq s t = (s.b0 == t.b0) && (s.b1 == t.b1) && (s.b2 == t.b2) && (s.b3 == t.b3)

pub topic_eq_iff : (s t : Topic) → (topic_eq s t ≡ Bool.true) ↔ (s ≡ t)
topic_eq_iff s t = ground arith

-- `BytesToTopic`: the first four bytes, and 0 where there are fewer.
unfoldable pub bytes_to_topic : List ℕ → Topic
bytes_to_topic b = record {
  b0 = get_or b 0 0;
  b1 = get_or b 1 0;
  b2 = get_or b 2 0;
  b3 = get_or b 3 0;
}
