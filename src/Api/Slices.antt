-- ===== src/Api/Slices.antt =====
-- The loops over the topics of `Messages` and `NewMessageFilter` (whisperv6/api.go), with the arrays
-- that their slices point to. Under the go.mod's version of Go a loop has one variable, which every
-- round assigns.
use whisper.Base.{ℕ, suc, List, [], ◌∷◌, ◌++◌, ◌==◌, if◌then◌else◌, map}
use whisper.Topic.{Topic}

-- `topic[:]`
abbrev pub topic_bytes : Topic → List ℕ
topic_bytes t = t.b0 ∷ t.b1 ∷ t.b2 ∷ t.b3 ∷ []

-- The arrays by address, the next free address, and the slices so far, each the address of the array
-- that it spans. The loop variable is at 0.
pub record Arrays : Type 0 where
  pub next : ℕ
  pub array : ℕ → List ℕ
  pub slices : List ℕ

abbrev pub fresh_arrays : Arrays
fresh_arrays = record { next = 1; array = λ a. []; slices = [] }

-- `copy`, or an assignment of the array.
abbrev pub write : ℕ → List ℕ → Arrays → Arrays
write a b s = record s { array = λ i. if a == i then b else s.array i }

-- `filter.Topics = append(filter.Topics, bt[:])`, for each topic `bt`.
unfoldable pub append_slices : List Topic → Arrays → Arrays
append_slices [] s = s
append_slices (t ∷ ts) s =
    let assigned = write 0 (topic_bytes t) s in
    append_slices ts (record assigned { slices = s.slices ++ 0 ∷ [] })

-- `topics[i] = make([]byte, TopicLength)` and `copy(topics[i], topic[:])`, for each `topic`.
unfoldable pub append_copies : List Topic → Arrays → Arrays
append_copies [] s = s
append_copies (t ∷ ts) s =
    let assigned = write 0 (topic_bytes t) s in
    let copied = write s.next (assigned.array 0) assigned in
    append_copies ts (record copied { next = suc s.next; slices = s.slices ++ s.next ∷ [] })

-- What the slices hold when they are read.
abbrev pub contents : Arrays → List (List ℕ)
contents s = map s.array s.slices

-- The topics that `Messages` gives its filter.
unfoldable pub subscribed_topics : List Topic → List (List ℕ)
unfolding append_slices
subscribed_topics ts = contents (append_slices ts fresh_arrays)

-- Those of `NewMessageFilter`.
unfoldable pub polled_topics : List Topic → List (List ℕ)
unfolding append_copies
polled_topics ts = contents (append_copies ts fresh_arrays)
