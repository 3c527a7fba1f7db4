-- ===== src/Entropy/FoldedBit/Tests.antt =====
-- Concrete runs of the folded coder over the rANS bit coder.
use go_draco.Common.{
  ℕ, ◌+◌, ◌*◌, ◌/◌, ◌^◌, ◌<◌, ◌≡◌, refl, true, List, [], ◌∷◌, ◌++◌, some, length, arith, ok,
  invalid_number_of_bits,
}
use go_draco.Entropy.BitCoder.{BitCoder}
use go_draco.Entropy.FoldedBit.{
  FoldedBit32Encoder, FoldedBit32Decoder, start_encoding, encode_bit,
  encode_least_significant_bits32, end_encoding, start_decoding,
}
use go_draco.Common.Int.{ℤ}
use go_draco.Entropy.FoldedBit.Columns.{Call, bit, value, one_bit, width, encode_calls}
use go_draco.Entropy.FoldedBit.Decoding.{decode_calls}
use go_draco.Entropy.FoldedBit.RoundTrip.{decode_calls-encode_calls}
use go_draco.Entropy.RansBit.Coder.{rans_coder, rans_keeps_bits}
use go_draco.Entropy.RansBit.{RansBitEncoder, RansBitDecoder}
use go_draco.Core.Reader.{Reader, AtHand, moved, remaining}
use go_draco.Core.Writer.{new_writer}

-- The share of zeros rounded to the nearest of 256 parts.
nearest : ℕ → ℕ → ℕ
nearest zeros total = (zeros * 512 + total) / (total * 2)

abbrev coder : BitCoder RansBitEncoder RansBitDecoder
coder = rans_coder nearest

-- A width of 0 sets the error, and later calls change nothing.
stopped :
    encode_bit coder true (encode_least_significant_bits32 coder (ℤ.pos 0) 5 (start_encoding coder))
    ≡ record {
      folded = (start_encoding coder).folded;
      bits = (start_encoding coder).bits;
      error = some invalid_number_of_bits;
    }
unfolding encode_bit encode_least_significant_bits32 start_encoding
stopped = refl

abbrev some_calls : List Call
some_calls = value 3 5 ∷ bit true ∷ value 1 0 ∷ []

decode_calls-encode_calls_example :
    (bytes : List ℕ) × (e : FoldedBit32Encoder RansBitEncoder) × (end_encoding coder
        (encode_calls coder some_calls (start_encoding coder), new_writer 0)
      ≡ (ok tt, (e, record { buf = (new_writer 0).buf ++ bytes })))
    × ((r : Reader) (rest : List ℕ)
        → AtHand bytes rest r
        → remaining r < 2 ^ 32
        → (d d' : FoldedBit32Decoder RansBitDecoder) × (start_decoding coder r
            ≡ (ok d, moved (length bytes) r))
          × (decode_calls coder (width 3 ∷ one_bit ∷ width 1 ∷ []) d ≡ (some some_calls, d')))
decode_calls-encode_calls_example =
    decode_calls-encode_calls coder (rans_keeps_bits nearest) some_calls (new_writer 0)
      (omega arith)
      ((omega arith, omega arith, omega arith), (tt, ((omega arith, omega arith, omega arith), tt)))
