-- ===== src/Entropy/DirectBit.antt =====
-- internal/entropy/direct_bit.go: `DirectBitEncoder` and `DirectBitDecoder`, bits in 32-bit words,
-- the highest first. A word past the end of the data, where the source panics, reads 0.
use go_draco.Common.{
  ℕ, ◌+◌, ◌-◌, ◌*◌, ◌/◌, ◌%◌, ◌^◌, ◌||◌, Bool, true, false, not, List, [], ◌∷◌, ◌++◌, length, take,
  drop, Option, none, some, ltb, leb, ◌==◌, if◌then◌else◌, bit_and, bit_or, M, Result, ok, err,
  Error, ◌>>=◌, ◌>>◌, pure, fail, invalid_number_of_bits, on_right, direct_bit_payload_size,
  direct_bit_payload_exceeds,
}
use go_draco.Common.Int.{ℤ}
use go_draco.Core.Words.{little_endian}
use go_draco.Core.Reader.{Reader, remaining, read_uint32, read_bytes_view}
use go_draco.Core.Writer.{Writer, write_uint32}

pub record DirectBitEncoder : Type 0 where
  pub bits : List ℕ
  pub local_bits : ℕ
  pub num_local_bits : ℕ
  pub error : Option Error

abbrev pub cleared : DirectBitEncoder
cleared = record { bits = []; local_bits = 0; num_local_bits = 0; error = none }

unfoldable pub flush : DirectBitEncoder → DirectBitEncoder
flush e =
    if e.num_local_bits == 32
    then record e { bits = e.bits ++ (e.local_bits ∷ []); local_bits = 0; num_local_bits = 0 }
    else e

abbrev pub add_bit : Bool → DirectBitEncoder → DirectBitEncoder
add_bit true e = record e {
  local_bits = bit_or e.local_bits (2 ^ (31 - e.num_local_bits));
  num_local_bits = e.num_local_bits + 1;
}
add_bit false e = record e { num_local_bits = e.num_local_bits + 1 }

unfoldable pub encode_bit : Bool → DirectBitEncoder → DirectBitEncoder
encode_bit bit e = elim e.error [ none ↦ flush (add_bit bit e) | some x ↦ e ]

abbrev pub valid_width : ℤ → Option ℕ
valid_width (ℤ.pos n) = if leb n 0 || ltb 32 n then none else some n
valid_width (ℤ.negsuc n) = none

-- The end of EncodeLeastSignificantBits32: `top` is the value in the top bits of a word.
unfoldable pub put_bits : ℕ → ℕ → DirectBitEncoder → DirectBitEncoder
put_bits nbits top e =
    let remaining = 32 - e.num_local_bits in
    let low = top / 2 ^ (32 - nbits) in
    let rest = nbits - remaining in
    if leb nbits remaining
    then flush (record e {
      local_bits = bit_or e.local_bits (top / 2 ^ e.num_local_bits);
      num_local_bits = e.num_local_bits + nbits;
    })
    else record e {
      bits = e.bits ++ (bit_or e.local_bits (low / 2 ^ rest) ∷ []);
      local_bits = low * 2 ^ (32 - rest) % 2 ^ 32;
      num_local_bits = rest;
    }

abbrev pub encode_width : Option ℕ → ℕ → DirectBitEncoder → DirectBitEncoder
encode_width none value e = record e { error = some invalid_number_of_bits }
encode_width (some nbits) value e = put_bits nbits (value * 2 ^ (32 - nbits) % 2 ^ 32) e

unfoldable pub encode_least_significant_bits32 : ℤ → ℕ → DirectBitEncoder → DirectBitEncoder
encode_least_significant_bits32 nbits value e = elim e.error [
  | none ↦ encode_width (valid_width nbits) value e
  | some x ↦ e
]

unfoldable pub write_words : List ℕ → M Writer (Unit {0})
write_words [] = pure tt
write_words (word ∷ words) = write_uint32 word >> write_words words

unfoldable pub write_payload : List ℕ → M Writer (Unit {0})
write_payload words = write_uint32 (length words * 4 % 2 ^ 32) >> write_words words

abbrev pub clear_if_ok :
    DirectBitEncoder
    → Result (Unit {0}) × (DirectBitEncoder × Writer)
    → Result (Unit {0}) × (DirectBitEncoder × Writer)
clear_if_ok e (ok t, (e', w)) = (ok t, (cleared, w))
clear_if_ok e (err x, (e', w)) = (err x, (e, w))

unfoldable pub end_encoding : M (DirectBitEncoder × Writer) (Unit {0})
end_encoding (e, w) = elim e.error [
  | some x ↦ (err x, (cleared, w))
  | none ↦
      let e' = record e { bits = e.bits ++ (e.local_bits ∷ []) } in
      clear_if_ok e' (on_right (write_payload e'.bits) (e', w))
]

pub record DirectBitDecoder : Type 0 where
  pub content : List ℕ
  pub at : ℕ
  pub num_used_bits : ℕ
  pub error : Option Error

-- StartDecoding on a cleared decoder. The caller drops a decoder that fails to start.
unfoldable pub start_decoding : M Reader DirectBitDecoder
start_decoding = do
  size ← read_uint32
  left ← λ r. (ok (remaining r), r)
  let payload =
      (read_bytes_view (ℤ.pos size) >>= λ view.
      pure (record { content = view; at = 0; num_used_bits = 0; error = none }))
  let checked = (if ltb left size then fail direct_bit_payload_exceeds else payload)
  if size == 0 || not (bit_and size 3 == 0) then fail direct_bit_payload_size else checked

unfoldable pub word_at : DirectBitDecoder → ℕ → ℕ
word_at d k = little_endian (take 4 (drop k d.content))

-- The cursor moves by `n` bits inside its word.
unfoldable pub use_bits : ℕ → DirectBitDecoder → DirectBitDecoder
use_bits n d =
    if d.num_used_bits + n == 32
    then record d { at = d.at + 4; num_used_bits = 0 }
    else record d { num_used_bits = d.num_used_bits + n }

unfoldable pub decode_next_bit : DirectBitDecoder → Bool × DirectBitDecoder
decode_next_bit d = elim d.error [
  | some x ↦ (false, d)
  | none ↦
      if leb (length d.content) d.at
      then (false, d)
      else (not (bit_and (word_at d d.at) (2 ^ (31 - d.num_used_bits)) == 0), use_bits 1 d)
]

abbrev pub decode_width : Option ℕ → DirectBitDecoder → Option ℕ × DirectBitDecoder
decode_width none d = (none, record d { error = some invalid_number_of_bits })
decode_width (some nbits) d =
    let remaining = 32 - d.num_used_bits in
    let used = nbits - remaining in
    let left = word_at d d.at * 2 ^ d.num_used_bits % 2 ^ 32 in
    if leb nbits remaining
    then (if leb (length d.content) d.at
        then (none, d)
        else (some (left / 2 ^ (32 - nbits)), use_bits nbits d))
    else if leb (length d.content) (d.at + 4)
    then (none, d)
    else (
      some (bit_or (left / 2 ^ (32 - used - remaining)) (word_at d (d.at + 4) / 2 ^ (32 - used))),
      record d { at = d.at + 4; num_used_bits = used },
    )

unfoldable pub decode_least_significant_bits32 : ℤ → DirectBitDecoder → Option ℕ × DirectBitDecoder
decode_least_significant_bits32 nbits d = elim d.error [
  | none ↦ decode_width (valid_width nbits) d
  | some x ↦ (none, d)
]

unfoldable pub end_decoding : DirectBitDecoder → Bool
end_decoding d = elim d.error [ none ↦ true | some x ↦ false ]
