-- ===== src/Examples/Bloom.antt =====
-- Bloom filters at concrete topics.
use whisper.Base.{◌≡◌, false, arith}
use whisper.Bloom.{topic_to_bloom}
use whisper.Bloom.Topics.{index0, has_bit, topic_to_bloom_bits}
use whisper.Topic.{Topic}

abbrev red : Topic
red = record { b0 = 16; b1 = 17; b2 = 200; b3 = 4 }

abbrev blue : Topic
blue = record { b0 = 1; b1 = 90; b2 = 33; b3 = 0 }

-- The first two indices of `red` share a byte, and the first bit is lost.
topic_to_bloom_bits_example : has_bit (topic_to_bloom red) (index0 red) ≡ false
unfolding topic_to_bloom
topic_to_bloom_bits_example = (topic_to_bloom_bits red (omega arith)).2
