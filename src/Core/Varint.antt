-- ===== src/Core/Varint.antt =====
-- internal/core/varint.go: integers in groups of seven bits, lowest group first; the top bit of a
-- byte says that another follows. A negative int32 is coded through its zigzag symbol.
pub mod Laws
mod Tests
use go_draco.Common.{
  ℕ, zero, suc, ◌+◌, ◌*◌, ◌/◌, ◌%◌, ◌^◌, bit_and, bit_or, ◌==◌, if◌then◌else◌, M, Error, ◌>>=◌,
  ◌>>◌, pure, fail, invalid_uint32_varint, invalid_uint64_varint, out_of_fuel,
}
use go_draco.Common.Int.{ℤ, pos, negsuc, to_int32}
use go_draco.Core.Reader.{Reader, read_uint8}
use go_draco.Core.Writer.{Writer, write_uint8}

-- The loop of both encoders, which differ in the type of `v` alone. Each round drops seven bits, so
-- 5 rounds are enough for 32 bits and 10 for 64.
unfoldable pub encode_var_loop : ℕ → ℕ → M Writer (Unit {0})
encode_var_loop zero v = fail out_of_fuel
encode_var_loop (suc fuel) v =
    let out = bit_and v 0x7f % 256 in
    let v' = v / 2 ^ 7 in
    let rest = encode_var_loop fuel v' in
    do write_uint8 (if v' == 0 then out else bit_or out 0x80); if v' == 0 then pure tt else rest

unfoldable pub encode_var_uint32 : ℕ → M Writer (Unit {0})
encode_var_uint32 v = encode_var_loop 5 v

unfoldable pub encode_var_uint64 : ℕ → M Writer (Unit {0})
encode_var_uint64 v = encode_var_loop 10 v

-- The loop of both decoders: `rounds` that are left, the width of `value`, and the error after them.
unfoldable pub decode_var_loop : ℕ → ℕ → Error → ℕ → ℕ → M Reader ℕ
decode_var_loop zero width e value shift = fail e
decode_var_loop (suc rounds) width e value shift = do
  b ← read_uint8
  let value' = bit_or value (bit_and b 0x7f * 2 ^ shift % 2 ^ width)
  let rest = decode_var_loop rounds width e value' (shift + 7)
  if bit_and b 0x80 == 0 then pure value' else rest

unfoldable pub decode_var_uint32 : M Reader ℕ
decode_var_uint32 = decode_var_loop 5 32 invalid_uint32_varint 0 0

unfoldable pub decode_var_uint64 : M Reader ℕ
decode_var_uint64 = decode_var_loop 10 64 invalid_uint64_varint 0 0

-- `-(v + 1)` of `negsuc n` is `n`.
unfoldable pub convert_signed_int32_to_symbol : ℤ → ℕ
convert_signed_int32_to_symbol (pos n) = n * 2 % 2 ^ 32
convert_signed_int32_to_symbol (negsuc n) = bit_or (n * 2 % 2 ^ 32) 1

-- `-int32(v >> 1) - 1` is `negsuc (v / 2)`, since the shifted value is not negative.
unfoldable pub convert_symbol_to_signed_int32 : ℕ → ℤ
convert_symbol_to_signed_int32 v = if bit_and v 1 == 0 then pos (v / 2) else negsuc (v / 2)

unfoldable pub encode_var_int32 : ℤ → M Writer (Unit {0})
encode_var_int32 v = encode_var_uint32 (convert_signed_int32_to_symbol v)

unfoldable pub decode_var_int32 : M Reader ℤ
decode_var_int32 = do value ← decode_var_uint32; pure (convert_symbol_to_signed_int32 value)
