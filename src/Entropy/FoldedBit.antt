-- ===== src/Entropy/FoldedBit.antt =====
-- internal/entropy/folded_bit.go: FoldedBit32Encoder and FoldedBit32Decoder over any bit coder. The
-- arrays of 32 coders are lists; a value of n bits goes to the first n of them, a bit each.
mod Columns
mod Decoding
pub mod RoundTrip
mod Tests
use go_draco.Common.Int.{ℤ}
use go_draco.Common.{
  ℕ, zero, suc, ◌+◌, ◌*◌, ◌/◌, ◌%◌, ◌^◌, Bool, true, false, ◌&&◌, List, [], ◌∷◌, Option, none, some,
  replicate, ◌==◌, M, Error, Result, ok, err, ◌>>=◌, pure, invalid_number_of_bits,
}
use go_draco.Entropy.RansBit.Values.{valid_width}
use go_draco.Entropy.RansBit.{bool_to_bit}
use go_draco.Common.Int.{ℤ}
use go_draco.Core.Writer.{Writer}
use go_draco.Core.Reader.{Reader}
use go_draco.Entropy.BitCoder.{BitCoder}

pub record FoldedBit32Encoder (E : Type 0) : Type 0 where
  pub folded : List E
  pub bits : E
  pub error : Option Error

pub record FoldedBit32Decoder (D : Type 0) : Type 0 where
  pub folded : List D
  pub bits : D
  pub error : Option Error

module _ {E D : Type 0} (coder : BitCoder E D) where
  -- A new encoder after StartEncoding, and any encoder after Clear.
  unfoldable pub start_encoding : FoldedBit32Encoder E
  start_encoding = record { folded = replicate 32 coder.start; bits = coder.start; error = none }

  unfoldable pub encode_bit : Bool → FoldedBit32Encoder E → FoldedBit32Encoder E
  encode_bit bit e = elim e.error [
    | none ↦ record e { bits = coder.encode_bit bit e.bits }
    | some x ↦ e
  ]

  -- The loop over the bits of a value, the highest first.
  unfoldable pub encode_each : ℕ → ℕ → List E → List E
  encode_each zero value es = es
  encode_each (suc n) value [] = []
  encode_each (suc n) value (e ∷ es) =
      coder.encode_bit (value / 2 ^ n % 2 == 1) e ∷ encode_each n value es

  abbrev pub encode_width : Option ℕ → ℕ → FoldedBit32Encoder E → FoldedBit32Encoder E
  encode_width none value e = record e { error = some invalid_number_of_bits }
  encode_width (some n) value e = record e { folded = encode_each n value e.folded }

  unfoldable pub encode_least_significant_bits32 :
      ℤ → ℕ → FoldedBit32Encoder E → FoldedBit32Encoder E
  encode_least_significant_bits32 nbits value e = elim e.error [
    | none ↦ encode_width (valid_width nbits) value e
    | some x ↦ e
  ]

  -- The loop of EndEncoding, which stops at the first coder that fails.
  unfoldable pub end_each : List E → Writer → Result (Unit {0}) × (List E × Writer)
  end_each [] w = (ok tt, ([], w))
  end_each (e ∷ es) w =
      let ended = coder.end_encoding (e, w) in
      let rest = end_each es ended.1.1 in
      elim ended.0 [
        | ok t ↦ (rest.0, (ended.1.0 ∷ rest.1.0, rest.1.1))
        | err x ↦ (err x, (ended.1.0 ∷ es, ended.1.1))
      ]

  unfoldable pub end_all : M (FoldedBit32Encoder E × Writer) (Unit {0})
  end_all (e, w) =
      let each = end_each e.folded w in
      let last = coder.end_encoding (e.bits, each.1.1) in
      elim each.0 [
        | ok t ↦ (last.0, (record e { folded = each.1.0; bits = last.1.0 }, last.1.1))
        | err x ↦ (err x, (record e { folded = each.1.0 }, each.1.1))
      ]

  unfoldable pub end_encoding : M (FoldedBit32Encoder E × Writer) (Unit {0})
  end_encoding (e, w) = elim e.error [
    | none ↦ end_all (e, w)
    | some x ↦ (err x, (start_encoding, w))
  ]

  unfoldable pub start_each : ℕ → M Reader (List D)
  start_each zero = pure []
  start_each (suc n) = do d ← coder.start_decoding; ds ← start_each n; pure (d ∷ ds)

  unfoldable pub start_decoding : M Reader (FoldedBit32Decoder D)
  start_decoding = do
    ds ← start_each 32
    d ← coder.start_decoding
    pure (record { folded = ds; bits = d; error = none })

  unfoldable pub decode_next_bit : FoldedBit32Decoder D → Bool × FoldedBit32Decoder D
  decode_next_bit d = elim d.error [
    | none ↦ let (bit, bits) = coder.decode_next_bit d.bits in (bit, record d { bits = bits })
    | some x ↦ (false, d)
  ]

  unfoldable pub decode_each : ℕ → ℕ → List D → ℕ × List D
  decode_each zero result ds = (result, ds)
  decode_each (suc n) result [] = (result, [])
  decode_each (suc n) result (d ∷ ds) =
      let (bit, d') = coder.decode_next_bit d in
      let (value, ds') = decode_each n ((result * 2 + bool_to_bit bit) % 2 ^ 32) ds in
      (value, d' ∷ ds')

  abbrev pub decode_width : Option ℕ → FoldedBit32Decoder D → Option ℕ × FoldedBit32Decoder D
  decode_width none d = (none, record d { error = some invalid_number_of_bits })
  decode_width (some n) d =
      let (value, ds) = decode_each n 0 d.folded in (some value, record d { folded = ds })

  unfoldable pub decode_least_significant_bits32 :
      ℤ → FoldedBit32Decoder D → Option ℕ × FoldedBit32Decoder D
  decode_least_significant_bits32 nbits d = elim d.error [
    | none ↦ decode_width (valid_width nbits) d
    | some x ↦ (none, d)
  ]

  unfoldable all_ended : List D → Bool
  all_ended [] = true
  all_ended (d ∷ ds) = coder.end_decoding d && all_ended ds

  unfoldable end_decoding : FoldedBit32Decoder D → Bool
  end_decoding d = elim d.error [
    | none ↦ all_ended d.folded && coder.end_decoding d.bits
    | some x ↦ false
  ]
