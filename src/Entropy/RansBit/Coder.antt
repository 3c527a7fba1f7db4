-- ===== src/Entropy/RansBit/Coder.antt =====
-- The rANS bit coder as the coder of NewFoldedRAnsBit32Encoder and NewFoldedRAnsBit32Decoder of
-- internal/entropy/folded_bit.go.
use go_draco.Common.{
  ℕ, zero, suc, ◌^◌, ◌<◌, ◌≡◌, refl, ap, ◌∙◌, Bool, List, [], ◌∷◌, ◌++◌, length, arith, ok,
}
use go_draco.Entropy.BitCoder.{BitCoder, encode_all, decode_all, Restores, KeepsBits}
use go_draco.Entropy.RansBit.{
  RansBitEncoder, RansBitDecoder, cleared, encode_bit, end_encoding, start_decoding,
  decode_next_bit, end_decoding, zero_probability,
}
use go_draco.Entropy.RansBit.Stream.{
  decode_bits-encode_bits, held-all, end_encoding-held, start_decoding-packed, packed, start,
  start-InInterval,
}
use go_draco.Entropy.RansBit.Tail.{started, end-Ends}
use go_draco.Entropy.RansBit.Digits.{write_list}
use go_draco.Entropy.RansBit.Packing.{encode_bits}
use go_draco.Entropy.RansBit.RoundTrip.{decode_bits}
use go_draco.Core.Varint.Laws.{decode-encode_var_uint32}
use go_draco.Core.Writer.{Writer}

-- The share of zeros is rounded by `scaled`.
abbrev pub rans_coder : (ℕ → ℕ → ℕ) → BitCoder RansBitEncoder RansBitDecoder
rans_coder scaled = record {
  start = cleared;
  encode_bit = encode_bit;
  end_encoding = end_encoding scaled;
  start_decoding = start_decoding;
  decode_next_bit = decode_next_bit;
  end_decoding = end_decoding;
}

module _ (scaled : ℕ → ℕ → ℕ) where
  encode_all-encode_bits :
      (bs : List Bool) (e : RansBitEncoder) → encode_all (rans_coder scaled) bs e ≡ encode_bits bs e
  unfolding encode_all encode_bits
  encode_all-encode_bits [] e = refl
  encode_all-encode_bits (b ∷ bs) e = encode_all-encode_bits bs (encode_bit b e)

  decode_all-decode_bits :
      (n : ℕ) (d : RansBitDecoder) → decode_all (rans_coder scaled) n d ≡ decode_bits n d
  unfolding decode_all decode_bits
  decode_all-decode_bits zero d = refl
  decode_all-decode_bits (suc n) d =
      ap (λ (t : List Bool × RansBitDecoder). ((decode_next_bit d).0 ∷ t.0, t.1))
        (decode_all-decode_bits n (decode_next_bit d).1)

  abbrev Kept : List Bool → Writer → Type 0
  Kept bs w =
      (bytes : List ℕ) × (e : RansBitEncoder) × (end_encoding scaled
          (encode_all (rans_coder scaled) bs cleared, w)
        ≡ (ok tt, (e, record { buf = w.buf ++ bytes })))
      × Restores (rans_coder scaled) bytes bs

  -- A stream of no bits.
  none-Kept : (w : Writer) → Kept [] w
  unfolding encode_all decode_all encode_bits write_list
  none-Kept w =
      let p0 = zero_probability scaled cleared in
      let (tail, ends, some_tail, short, starts) = end-Ends p0 start start-InInterval in
      let (size_bytes, v, v') = decode-encode_var_uint32 (length tail) (omega (arith, short)) in
      (
        packed p0 size_bytes tail,
        cleared,
        end_encoding-held scaled cleared w [] tail size_bytes refl (held-all []).1 ends
            (omega (arith, short)) v,
        λ r rest h small. (
          started p0 start tail,
          start_decoding-packed p0 size_bytes tail (started p0 start tail) r rest v' starts h small,
          (started p0 start tail, refl),
        ),
      )

  some-Kept : (b : Bool) (bs : List Bool) (w : Writer) → suc (length bs) < 2 ^ 31 → Kept (b ∷ bs) w
  some-Kept b bs w few =
      let (bytes, eq, back) = decode_bits-encode_bits scaled b bs w few in
      (
        bytes,
        cleared,
        ap (λ e. end_encoding scaled (e, w)) (encode_all-encode_bits (b ∷ bs) cleared) ∙ eq,
        λ r rest h small.
            let (d, d', starts, reads, ended) = back r rest h small in
            (d, starts, (d', decode_all-decode_bits (suc (length bs)) d ∙ reads)),
      )

  pub rans-Kept : (bs : List Bool) (w : Writer) → length bs < 2 ^ 31 → Kept bs w
  rans-Kept [] w few = none-Kept w
  rans-Kept (b ∷ bs) w few = some-Kept b bs w few

  -- The rANS bit coder keeps fewer than 2^31 bits.
  abbrev pub rans_keeps_bits : KeepsBits (rans_coder scaled)
  rans_keeps_bits = record { capacity = 2 ^ 31; keeps = rans-Kept }
