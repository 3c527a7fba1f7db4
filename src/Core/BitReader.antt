-- ===== src/Core/BitReader.antt =====
-- internal/core/reader.go: `BitReader`, a cursor over the bits of a byte slice, lowest bit first.
-- The flag that a read returns beside its value is an Option here.
use go_draco.Common.Int.{ℤ, negsuc, pos}
use go_draco.Common.{
  ℕ, zero, suc, ◌+◌, ◌-◌, ◌*◌, ◌/◌, ◌%◌, ◌^◌, ◌||◌, List, Option, none, some, length, get_or, ltb,
  leb, ◌==◌, if◌then◌else◌, bit_and, bit_or,
}

pub record BitReader : Type 0 where
  pub buf : List ℕ
  pub bit_offset : ℕ

unfoldable pub new_bit_reader : List ℕ → BitReader
new_bit_reader buf = record { buf = buf; bit_offset = 0 }

unfoldable pub read_bit_lsb : BitReader → Option ℕ × BitReader
read_bit_lsb r = if leb (length r.buf * 8) r.bit_offset then (none, r) else (
  some (bit_and (get_or r.buf (r.bit_offset / 2 ^ 3) 0 / 2 ^ bit_and r.bit_offset 0x7) 1),
  record r { bit_offset = r.bit_offset + 1 },
)

-- `for loadedBits := ...; loadedBits < neededBits; loadedBits += 8`, which fills a uint64.
unfoldable pub load_bytes : ℕ → List ℕ → ℕ → ℕ → ℕ → ℕ → ℕ
load_bytes zero buf byte_offset loaded_bits needed_bits bits = bits
load_bytes (suc fuel) buf byte_offset loaded_bits needed_bits bits =
    let more =
      load_bytes fuel buf (byte_offset + 1) (loaded_bits + 8) needed_bits
        (bit_or bits (get_or buf byte_offset 0 * 2 ^ loaded_bits % 2 ^ 64)) in
    if ltb loaded_bits needed_bits then more else bits

-- 32 bits and a shift below 8 lie in five bytes.
abbrev pub load_fuel : ℕ
load_fuel = 5

-- The value of a read that is in range, which readTaggedBitsLSB of symbols.go computes too.
unfoldable pub bits_at : List ℕ → ℕ → ℕ → ℕ
bits_at buf offset n =
    let byte_offset = offset / 2 ^ 3 in
    let shift = bit_and offset 0x7 in
    if leb (shift + n) 8
    then bit_and (get_or buf byte_offset 0 / 2 ^ shift) (2 ^ n - 1)
    else bit_and (load_bytes load_fuel buf byte_offset 0 (n + shift) 0 / 2 ^ shift) (2 ^ n - 1)
      % 2 ^ 32

unfoldable pub read_bits_lsb : ℤ → BitReader → Option ℕ × BitReader
read_bits_lsb (negsuc n) r = (none, r)
read_bits_lsb (pos n) r =
    let total_bits = length r.buf * 8 in
    if ltb 32 n
    then (none, r)
    else if n == 0
    then (some 0, r)
    else if ltb total_bits r.bit_offset || ltb (total_bits - r.bit_offset) n
    then (none, r)
    else (some (bits_at r.buf r.bit_offset n), record r { bit_offset = r.bit_offset + n })

unfoldable pub bytes_read : BitReader → ℕ
bytes_read r = (r.bit_offset + 7) / 8
