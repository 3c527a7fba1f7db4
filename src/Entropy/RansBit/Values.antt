-- ===== src/Entropy/RansBit/Values.antt =====
-- internal/entropy/rans_bit.go: values of up to 32 bits, `EncodeLeastSignificantBits32` and
-- `DecodeLeastSignificantBits32`.
pub mod Digits
pub mod Packing
pub mod Reading
mod Tests
use go_draco.Common.{
  ℕ, zero, suc, ◌+◌, ◌-◌, ◌*◌, ◌/◌, ◌%◌, ◌^◌, ◌||◌, Bool, true, false, List, [], ◌∷◌, ◌++◌, Option,
  none, some, ltb, leb, ◌==◌, if◌then◌else◌, bit_and, bit_or, Error, invalid_number_of_bits,
}
use go_draco.Common.Int.{ℤ}
use go_draco.Entropy.RansBit.{RansBitEncoder, RansBitDecoder, flush, decode_next_bit, bool_to_bit}

-- `*dst |= ((src >> srcOffset) & mask) << dstOffset`
unfoldable pub copy_bits32 : ℕ → ℕ → ℕ → ℕ → ℕ → ℕ
copy_bits32 dst dst_offset src src_offset num_bits =
    let mask = if ltb num_bits 32 then 2 ^ num_bits - 1 else 2 ^ 32 - 1 in
    if num_bits == 0
    then dst
    else bit_or dst (bit_and (src / 2 ^ src_offset) mask * 2 ^ dst_offset % 2 ^ 32)

-- The `n` low bits of `v` in the opposite order; bits.Reverse32 is the case of 32.
unfoldable pub reverse_bits : ℕ → ℕ → ℕ
reverse_bits zero v = 0
reverse_bits (suc n) v = v / 2 ^ n % 2 + reverse_bits n v * 2

unfoldable pub ones_count : ℕ → ℕ → ℕ
ones_count zero v = 0
ones_count (suc n) v = v % 2 + ones_count n (v / 2)

-- The end of EncodeLeastSignificantBits32: `reversed` goes into the current word and, where it does
-- not fit, into the next one.
unfoldable pub put_bits : ℕ → ℕ → RansBitEncoder → RansBitEncoder
put_bits nbits reversed e =
    let room = 32 - e.num_local_bits in
    if leb nbits room
    then flush (record e {
      local_bits = copy_bits32 e.local_bits e.num_local_bits reversed 0 nbits;
      num_local_bits = e.num_local_bits + nbits;
    })
    else record e {
      bits = e.bits ++ (copy_bits32 e.local_bits e.num_local_bits reversed 0 room ∷ []);
      local_bits = copy_bits32 0 0 reversed room (nbits - room);
      num_local_bits = nbits - room;
    }

abbrev pub valid_width : ℤ → Option ℕ
valid_width (ℤ.pos n) = if leb n 0 || ltb 32 n then none else some n
valid_width (ℤ.negsuc n) = none

abbrev pub encode_width : Option ℕ → ℕ → RansBitEncoder → RansBitEncoder
encode_width none value e = record e { error = some invalid_number_of_bits }
encode_width (some nbits) value e =
    let reversed = reverse_bits 32 value / 2 ^ (32 - nbits) in
    let ones = ones_count 32 reversed in
    put_bits nbits reversed
      (record e { zeros = (e.zeros + (nbits - ones)) % 2 ^ 64; ones = (e.ones + ones) % 2 ^ 64 })

unfoldable pub encode_least_significant_bits32 : ℤ → ℕ → RansBitEncoder → RansBitEncoder
encode_least_significant_bits32 nbits value e = elim e.error [
  | none ↦ encode_width (valid_width nbits) value e
  | some x ↦ e
]

-- `for nbits > 0`, on the result so far.
unfoldable pub decode_loop : ℕ → ℕ → RansBitDecoder → ℕ × RansBitDecoder
decode_loop zero result d = (result, d)
decode_loop (suc n) result d =
    let (bit, d') = decode_next_bit d in decode_loop n ((result * 2 + bool_to_bit bit) % 2 ^ 32) d'

abbrev pub decode_width : Option ℕ → RansBitDecoder → Option ℕ × RansBitDecoder
decode_width none d = (none, record d { error = some invalid_number_of_bits })
decode_width (some nbits) d = (some (decode_loop nbits 0 d).0, (decode_loop nbits 0 d).1)

-- The value written through the pointer, `none` where the call returns false.
unfoldable pub decode_least_significant_bits32 : ℤ → RansBitDecoder → Option ℕ × RansBitDecoder
decode_least_significant_bits32 nbits d = elim d.error [
  | none ↦ decode_width (valid_width nbits) d
  | some x ↦ (none, d)
]
