-- ===== src/Entropy/RansBit/Values/Tests.antt =====
-- Concrete values of the rANS bit coder.
use go_draco.Common.{◌≡◌, refl, [], ◌∷◌, ◌++◌, none, some, arith}
use go_draco.Common.Int.{ℤ}
use go_draco.Entropy.RansBit.{RansBitDecoder, cleared, decode_next_bit, read, refill}
use go_draco.Entropy.RansBit.Packing.{IsOpen, held, cleared-IsOpen}
use go_draco.Entropy.RansBit.RoundTrip.{decode_bits}
use go_draco.Entropy.RansBit.Values.{
  encode_least_significant_bits32, decode_least_significant_bits32,
}
use go_draco.Entropy.RansBit.Values.Digits.{high_bits}
use go_draco.Entropy.RansBit.Values.Packing.{held-encode_least_significant_bits32}
use go_draco.Entropy.RansBit.Values.Reading.{decode_least_significant_bits32-high_bits}

held-encode_least_significant_bits32_example :
    IsOpen (encode_least_significant_bits32 (ℤ.pos 5) 19 cleared)
    × (held (encode_least_significant_bits32 (ℤ.pos 5) 19 cleared) ≡ held cleared ++ high_bits 5 19)
held-encode_least_significant_bits32_example =
    held-encode_least_significant_bits32 5 19 cleared (omega arith) (omega arith) cleared-IsOpen

abbrev even_odds : RansBitDecoder
even_odds = record { prob_zero = 128; buf = 7 ∷ []; buf_offset = 1; state = 4096; error = none }

decode_least_significant_bits32-high_bits_example :
    decode_least_significant_bits32 (ℤ.pos 2) even_odds ≡ (some 3, (decode_bits 2 even_odds).1)
unfolding decode_bits decode_next_bit read refill high_bits
decode_least_significant_bits32-high_bits_example =
    decode_least_significant_bits32-high_bits 2 3 even_odds (decode_bits 2 even_odds).1
      (omega arith) (omega arith) refl refl
