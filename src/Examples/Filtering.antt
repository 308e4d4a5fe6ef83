-- ===== src/Examples/Filtering.antt =====
-- A filter in an empty collection, and a message that is encrypted and decrypted.
use whisper.Base.{
  List, [], ◌∷◌, ◌++◌, Bool, true, false, Option, none, some, replicate, sym, bit_xor,
}
use whisper.Filters.{Filter, Filters}
use whisper.Topic.{Topic}
use whisper.Examples.Values.{numbers}

abbrev filter : Filter numbers
filter = record {
  at = 9;
  src = none;
  key_asym = none;
  key_sym = some (replicate 32 1);
  topics = (1 ∷ 2 ∷ 3 ∷ 4 ∷ []) ∷ [];
  pow = 0;
  allow_p2p = true;
  sym_key_hash = 0;
  id = 0;
}

abbrev no_filters : Filters numbers
no_filters = record { watchers = []; topic_matcher = λ t. []; all_topics_matcher = []; heap = [] }
