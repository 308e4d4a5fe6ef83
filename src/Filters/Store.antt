-- ===== src/Filters/Store.antt =====
-- The messages that a filter keeps until they are polled: `MemoryMessageStore`, `Trigger` and
-- `Retrieve` of whisperv6/filter.go. A store is found by the address of its filter. Go's range over a
-- map leaves the order open; here `Pop` gives the order of the association list.
use whisper.Base.{ℕ, List, [], ◌∷◌, ◌==◌, if◌then◌else◌}
use whisper.Base.Assoc.{Assoc}
use whisper.Filters.{Filter, store_message}
use whisper.Message.{ReceivedMessage}
use whisper.Platform.{Platform}

abbrev pub Store : Platform → Type 0
Store P = Assoc (ReceivedMessage P)

abbrev pub Stores : Platform → Type 0
Stores P = ℕ → Store P

module _ (P : Platform) where
  -- `NewMemoryMessageStore`
  unfoldable pub new_memory_message_store : Store P
  new_memory_message_store = []

  -- `MemoryMessageStore.Pop`: the messages, and the store after each was deleted.
  unfoldable pub pop : Store P → List (ReceivedMessage P) × Store P
  pop [] = ([], [])
  pop ((h, msg) ∷ rest) = let (all, left) = pop rest in (msg ∷ all, left)

  -- The store of one filter, changed.
  unfoldable pub put_store : ℕ → Store P → Stores P → Stores P
  put_store a s ss b = if a == b then s else ss b

  -- `Trigger`
  unfoldable pub trigger : Filter P → ReceivedMessage P → Stores P → Stores P
  unfolding put_store
  trigger f msg ss = put_store f.at (store_message P msg (ss f.at)) ss

  -- `Retrieve`
  unfoldable pub retrieve : Filter P → Stores P → List (ReceivedMessage P) × Stores P
  unfolding put_store
  retrieve f ss = let (all, left) = pop (ss f.at) in (all, put_store f.at left ss)

  -- The calls of `Trigger` that `NotifyWatchers` makes.
  unfoldable pub trigger_all : List (Filter P × ReceivedMessage P) → Stores P → Stores P
  unfolding trigger
  trigger_all [] ss = ss
  trigger_all ((f, msg) ∷ out) ss = trigger_all out (trigger f msg ss)
