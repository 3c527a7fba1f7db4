-- ===== src/Core/BitPacking/Tests.antt =====
-- Packed bits at concrete values.
use go_draco.Core.BitWriter.{bytes}
use go_draco.Core.BitWriter.{write_bits_lsb}
use go_draco.Core.BitPacking.RoundTrip.{widths, values, read_fields-write_fields}
use go_draco.Core.BitPacking.RoundTrip.{total_width}
use go_draco.Core.BitPacking.Reading.{read_bits_lsb-field}
use go_draco.Core.Words.{little_endian}
use go_draco.Core.BitWriter.{new_bit_writer, bytes_written}
use go_draco.Core.BitPacking.{write_fields, Field, pos, BitReader}
use go_draco.Core.BitReader.{read_bits_lsb, new_bit_reader, bits_at, load_bytes, bytes_read}
use go_draco.Core.BitPacking.{read_fields}
use go_draco.Common.{◌+◌, ◌/◌, ◌%◌, ◌^◌, ◌≡◌, refl, true, List, [], ◌∷◌, ◌++◌, none, some, arith}

abbrev three_fields : List Field
three_fields =
    record { value = 5; width = 3 }
    ∷ record { value = 700; width = 10 }
    ∷ record { value = 4294967295; width = 32 }
    ∷ []

test_bytes :
    bytes (write_fields three_fields (new_bit_writer 45)).1
    ≡ (0xe5 ∷ 0xf5 ∷ 0xff ∷ 0xff ∷ 0xff ∷ 0x1f ∷ [])
unfolding bytes write_fields write_bits_lsb new_bit_writer
test_bytes = refl

test_short : (read_fields (3 ∷ 6 ∷ []) (new_bit_reader (0xff ∷ []))).0 ≡ none
unfolding read_fields read_bits_lsb new_bit_reader bits_at load_bytes
test_short = refl

read_bits_lsb-field_example :
    read_bits_lsb (pos 5) (record { buf = 0xe5 ∷ 0xf5 ∷ []; bit_offset = 6 }) ≡ (
      some (little_endian (0xe5 ∷ 0xf5 ∷ []) / 2 ^ 6 % 2 ^ 5),
      record { buf = 0xe5 ∷ 0xf5 ∷ []; bit_offset = 11 },
    )
read_bits_lsb-field_example =
    read_bits_lsb-field (record { buf = 0xe5 ∷ 0xf5 ∷ []; bit_offset = 6 }) 5
      (omega arith, (omega arith, tt)) (omega arith) (omega arith)

read_fields-write_fields_example :
    ((write_fields three_fields (new_bit_writer 45)).0 ≡ true)
    × (bytes_written (write_fields three_fields (new_bit_writer 45)).1
        ≡ (total_width three_fields + 7) / 8)
    × (r : BitReader) × (read_fields
          (widths three_fields)
          (new_bit_reader (bytes (write_fields three_fields (new_bit_writer 45)).1 ++ (9 ∷ [])))
        ≡ (some (values three_fields), r))
    × (bytes_read r ≡ (total_width three_fields + 7) / 8)
read_fields-write_fields_example =
    read_fields-write_fields three_fields 45
      ((omega arith, omega arith), ((omega arith, omega arith), ((omega arith, omega arith), tt)))
      (9 ∷ []) (omega arith, tt)
