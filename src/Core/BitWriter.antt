-- ===== src/Core/BitWriter.antt =====
-- internal/core/writer.go: `BitWriter`, which packs bits into bytes, lowest bit first.
use go_draco.Common.Int.{ℤ, negsuc, pos}
use go_draco.Common.{
  ℕ, zero, suc, ◌+◌, ◌/◌, ◌^◌, Bool, true, false, List, [], ◌∷◌, ◌++◌, length, get_or, set, ltb,
  leb, ◌==◌, if◌then◌else◌, bit_and, bit_or,
}

pub record BitWriter : Type 0 where
  pub buf : List ℕ
  pub bit_offset : ℕ

-- The expected number of bits is a capacity only.
unfoldable pub new_bit_writer : ℕ → BitWriter
new_bit_writer expected_bits = record { buf = []; bit_offset = 0 }

-- One round of the loop of WriteBitsLSB.
unfoldable pub write_bit : ℕ → ℕ → BitWriter → BitWriter
write_bit value bit w =
    let at = w.bit_offset / 2 ^ 3 in
    let grown = if leb (length w.buf) at then w.buf ++ (0 ∷ []) else w.buf in
    let buf =
      if bit_and (value / 2 ^ bit) 1 == 0
      then grown
      else set grown at (bit_or (get_or grown at 0) (2 ^ bit_and w.bit_offset 0x7)) in
    record { buf = buf; bit_offset = w.bit_offset + 1 }

-- The rounds left, from `bit` on.
unfoldable pub write_bits : ℕ → ℕ → ℕ → BitWriter → BitWriter
unfolding write_bit
write_bits zero value bit w = w
write_bits (suc n) value bit w = write_bits n value (bit + 1) (write_bit value bit w)

unfoldable pub write_bits_lsb : ℕ → ℤ → BitWriter → Bool × BitWriter
unfolding write_bits
write_bits_lsb value (negsuc n) w = (false, w)
write_bits_lsb value (pos n) w = if ltb 32 n then (false, w) else (true, write_bits n value 0 w)

unfoldable pub bytes : BitWriter → List ℕ
bytes w = w.buf

unfoldable pub bytes_written : BitWriter → ℕ
bytes_written w = length w.buf
