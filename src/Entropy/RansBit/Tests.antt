-- ===== src/Entropy/RansBit/Tests.antt =====
-- Concrete runs of the rANS bit coder.
use go_draco.Common.{
  ℕ, ◌+◌, ◌*◌, ◌/◌, ◌^◌, ◌<◌, ◌≡◌, Bool, true, false, List, [], ◌∷◌, ◌++◌, length, arith, ltb, ok,
}
use go_draco.Core.Reader.{Reader, AtHand, moved, remaining}
use go_draco.Core.Writer.{new_writer}
use go_draco.Entropy.RansBit.{
  RansBitDecoder, cleared, end_encoding, start_decoding, end_decoding, zero_probability,
}
use go_draco.Entropy.RansBit.Packing.{encode_bits}
use go_draco.Entropy.RansBit.RoundTrip.{decode_bits, last_of}
use go_draco.Entropy.RansBit.Step.{share_of}
use go_draco.Entropy.RansBit.Stream.{decode_bits-encode_bits}

-- The share of zeros rounded to the nearest of 256 parts.
nearest : ℕ → ℕ → ℕ
nearest zeros total = (zeros * 512 + total) / (total * 2)

abbrev later_bits : List Bool
later_bits = false ∷ true ∷ false ∷ []

decode_bits-encode_bits_example :
    (bytes : List ℕ) × (end_encoding nearest
        (encode_bits (false ∷ later_bits) cleared, new_writer 0)
      ≡ (ok tt, (cleared, record { buf = (new_writer 0).buf ++ bytes })))
    × ((r : Reader) (rest : List ℕ)
        → AtHand bytes rest r
        → remaining r < 2 ^ 32
        → (d d' : RansBitDecoder) × (start_decoding r ≡ (ok d, moved (length bytes) r))
          × (decode_bits 4 d ≡ (false ∷ later_bits, d'))
          × (end_decoding d'
              ≡ ltb 1 (
                  share_of
                    (last_of false later_bits)
                    (zero_probability nearest (encode_bits (false ∷ later_bits) cleared)))))
decode_bits-encode_bits_example =
    decode_bits-encode_bits nearest false later_bits (new_writer 0) (omega arith)
