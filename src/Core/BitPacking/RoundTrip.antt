-- ===== src/Core/BitPacking/RoundTrip.antt =====
-- BitReader after BitWriter, field by field.
use mathlib.Core.Path.{subst}
use mathlib.Core.Option
use go_draco.Core.BitPacking.Reading.{read_bits_lsb-field}
use go_draco.Core.BitWriter.{write_bits_lsb, write_bits}
use native.Mathlib.Nat.{add-mul-div_right, div-eq_of_lt, add_assoc, div-one, add-mul-mod_self_left}
use go_draco.Core.BitPacking.Writing.{new_bit_writer-Holds, Holds, write_bits-Holds}
use native.Mathlib.Nat.{
  add-mul-mod_self_right, mul_assoc, mod-eq_of_lt, mul_comm, pow-le-pow_right, add-mul-div_right,
}
use native.Mathlib.Nat.{add-mul}
use go_draco.Core.BitReader.{new_bit_reader, bytes_read}
use go_draco.Core.BitWriter.{new_bit_writer, bytes, bytes_written}
use go_draco.Core.Words.{
  IsByte, little_endian, le_bytes, little_endian-append, length-le_bytes, little_endian-le_bytes,
  le_bytes-IsByte,
}
use go_draco.Core.Fields.{
  shifted-lt, pow_add, mod-mod_pow, div-pow_add, pow-bytes, field_low, pow_positive,
}
use go_draco.Core.BitPacking.{read_fields, write_bits_lsb, BitReader, BitWriter, read_bits_lsb, pos}
use go_draco.Core.BitPacking.{write_fields}
use go_draco.Core.BitPacking.{Field}
use go_draco.Common.{
  ℕ, ◌+◌, ◌-◌, ◌*◌, ◌/◌, ◌%◌, ◌^◌, ◌≤◌, ◌<◌, ◌≡◌, refl, sym, ap, ◌∙◌, true, List, [], ◌∷◌, ◌++◌,
  Option, none, some, length, All, length-append, arith, ge→ltb, All-append, map,
}

-- All fields as one number, the first lowest.
pub pack : List Field → ℕ
pack [] = 0
pack (f ∷ fs) = f.value + pack fs * 2 ^ f.width

unfoldable pub total_width : List Field → ℕ
total_width [] = 0
total_width (f ∷ fs) = f.width + total_width fs

-- The value fits in its width, which is 32 at most.
abbrev pub Fits : Field → Type 0
Fits f = (f.value < 2 ^ f.width) × (f.width ≤ 32)

abbrev pub widths : List Field → List ℕ
widths fs = map (λ f. f.width) fs

abbrev pub values : List Field → List ℕ
values fs = map (λ f. f.value) fs

pack-lt : (fs : List Field) → All Fits fs → pack fs < 2 ^ total_width fs
unfolding pack total_width
pack-lt [] h = omega arith
pack-lt (f ∷ fs) (h, hs) = shifted-lt f.width (total_width fs) f.value (pack fs) h.0 (pack-lt fs hs)

on_top : (v x p off n : ℕ) → v + x * 2 ^ off + p * 2 ^ (off + n) ≡ v + (x + p * 2 ^ n) * 2 ^ off
on_top v x p off n = rw (pow_add off n) (
    omega (
      arith,
      add-mul x (p * 2 ^ n) (2 ^ off),
      mul_assoc p (2 ^ n) (2 ^ off),
      ap (λ y. p * y) (mul_comm (2 ^ n) (2 ^ off)),
    ))

write_fields-Holds :
    (fs : List Field) (v : ℕ) (w : BitWriter)
    → All Fits fs
    → Holds v w
    → ((write_fields fs w).0 ≡ true)
      × Holds (v + pack fs * 2 ^ w.bit_offset) (write_fields fs w).1
      × ((write_fields fs w).1.bit_offset ≡ w.bit_offset + total_width fs)
unfolding write_fields pack total_width write_bits_lsb
write_fields-Holds [] v w hs h = (refl, subst (λ x. Holds x w) (omega arith) h, omega arith)
write_fields-Holds (f ∷ fs) v w ((small, few), hs) h =
    let w' = write_bits f.width f.value 0 w in
    let field : f.value / 1 % 2 ^ f.width ≡ f.value = rw (div-one f.value) (mod-eq_of_lt small) in
    let (held', next) = write_bits-Holds f.width v f.value 0 w h in
    let held = subst (λ x. Holds (v + x * 2 ^ w.bit_offset) w') field held' in
    let (done, rest, count) = write_fields-Holds fs (v + f.value * 2 ^ w.bit_offset) w' hs held in
    let number : v + f.value * 2 ^ w.bit_offset + pack fs * 2 ^ w'.bit_offset
        ≡ v + (f.value + pack fs * 2 ^ f.width) * 2 ^ w.bit_offset =
      ap (λ k. v + f.value * 2 ^ w.bit_offset + pack fs * 2 ^ k) next
      ∙ on_top v f.value (pack fs) w.bit_offset f.width in
    rw (ge→ltb 32 f.width few)
      (done, subst (λ x. Holds x (write_fields fs w').1) number rest, omega (arith, count, next))

read_fields-step :
    (n : ℕ) (ns : List ℕ) (r r' : BitReader) {x : ℕ}
    → read_bits_lsb (pos n) r ≡ (some x, r')
    → read_fields (n ∷ ns) r ≡ (Option.map (◌∷◌ x) (read_fields ns r').0, (read_fields ns r').1)
unfolding read_fields
read_fields-step n ns r r' e =
    ap
      (λ (p : Option ℕ × BitReader). elim p.0 as (λ y. Option (List ℕ) × BitReader) [
        | none ↦ (none, p.1)
        | some y ↦ (Option.map (◌∷◌ y) (read_fields ns p.1).0, (read_fields ns p.1).1)
      ])
      e

-- The fields are what comes next from the offset on.
pub record Pending (buf : List ℕ) (offset : ℕ) (fs : List Field) : Type 0 where
  pub number : little_endian buf / 2 ^ offset % 2 ^ total_width fs ≡ pack fs
  pub inside : offset + total_width fs ≤ 8 * length buf

-- The first field, and the others after it.
pub Pending-step :
    (buf : List ℕ) (offset : ℕ) (f : Field) (fs : List Field)
    → Fits f
    → Pending buf offset (f ∷ fs)
    → (little_endian buf / 2 ^ offset % 2 ^ f.width ≡ f.value)
      × (offset + f.width ≤ 8 * length buf)
      × Pending buf (offset + f.width) fs
unfolding pack total_width
Pending-step buf offset f fs (small, few) h =
    let x = little_endian buf / 2 ^ offset in
    let n = h.number in
    (
      sym (mod-mod_pow f.width (total_width fs) x)
          ∙ rw n (add-mul-mod_self_right f.value (pack fs) (2 ^ f.width) ∙ mod-eq_of_lt small),
      omega (arith, h.inside),
      record {
        number =
            ap (λ q. q % 2 ^ total_width fs) (div-pow_add offset f.width (little_endian buf))
            ∙ sym (field_low f.width (total_width fs) x)
            ∙ rw n (
                add-mul-div_right f.value (pack fs) (pow_positive f.width)
                ∙ rw (div-eq_of_lt small) (omega arith));
        inside = omega (arith, h.inside);
      },
    )

-- The reads return the values of the fields that come next.
read_fields-values :
    (fs : List Field) (r : BitReader)
    → All Fits fs
    → All IsByte r.buf
    → Pending r.buf r.bit_offset fs
    → read_fields (widths fs) r
      ≡ (some (values fs), record r { bit_offset = r.bit_offset + total_width fs })
unfolding read_fields total_width
read_fields-values [] r hs bytes h = λ i. (some [], record r { bit_offset = same i })
  where
    same : r.bit_offset ≡ r.bit_offset + 0
    same = omega arith
read_fields-values (f ∷ fs) r ((small, few), hs) bytes h =
    let r' : BitReader = record r { bit_offset = r.bit_offset + f.width } in
    let (first, inside, others) = Pending-step r.buf r.bit_offset f fs (small, few) h in
    let read = read_bits_lsb-field r f.width bytes few inside in
    read_fields-step f.width (widths fs) r r' read
    ∙ rw (first, read_fields-values fs r' hs bytes others)
        (λ i. (
          some (f.value ∷ values fs),
          record r { bit_offset = add_assoc r.bit_offset f.width (total_width fs) i },
        ))

-- How many bytes the fields fill.
abbrev byte_count : List Field → ℕ
byte_count fs = (total_width fs + 7) / 8

-- The number of the fields lies in the low bits, whatever follows.
low_part : (m k x y : ℕ) → m ≤ k → x < 2 ^ m → (x + 2 ^ k * y) % 2 ^ m ≡ x
low_part m k x y h small =
    let product : 2 ^ k * y ≡ 2 ^ m * (2 ^ (k - m) * y) =
      ap (λ p. p * y) (ap (λ j. 2 ^ j) (omega (arith, h)) ∙ pow_add m (k - m))
      ∙ mul_assoc (2 ^ m) (2 ^ (k - m)) y in
    ap (λ p. (x + p) % 2 ^ m) product
    ∙ add-mul-mod_self_left x (2 ^ m) (2 ^ (k - m) * y)
    ∙ mod-eq_of_lt small

module _ (fs : List Field) (n : ℕ) (hs : All Fits fs) where
  abbrev pub final : BitWriter
  final = (write_fields fs (new_bit_writer n)).1

  written :
      ((write_fields fs (new_bit_writer n)).0 ≡ true)
      × (final.buf ≡ le_bytes (byte_count fs) (pack fs))
  unfolding new_bit_writer
  written =
      let (done, held, count') =
        write_fields-Holds fs 0 (new_bit_writer n) hs (new_bit_writer-Holds n) in
      let count : final.bit_offset ≡ total_width fs = count' ∙ omega arith in
      (
        done,
        held.packed
            ∙ ap (λ o. le_bytes ((o + 7) / 8) (0 + pack fs * 1)) count
            ∙ ap (le_bytes (byte_count fs)) (omega arith),
      )

  pack-bytes : pack fs < 256 ^ byte_count fs
  pack-bytes =
      let k = byte_count fs in
      rw (pow-bytes k) (
        omega (
          arith,
          pack-lt fs hs,
          pow-le-pow_right {n = 2} (omega arith) {i = total_width fs} {j = 8 * k} (omega arith),
        ))

  spelled :
      (rest : List ℕ)
      → little_endian (final.buf ++ rest) ≡ pack fs + 2 ^ (8 * byte_count fs) * little_endian rest
  spelled rest =
      let k = byte_count fs in
      little_endian-append final.buf rest
      ∙ rw
          (
            written.1,
            length-le_bytes k (pack fs),
            little_endian-le_bytes k (pack fs) pack-bytes,
            pow-bytes k,
          )
          refl

  pub written-length : length final.buf ≡ byte_count fs
  written-length = ap length written.1 ∙ length-le_bytes (byte_count fs) (pack fs)

  -- The bytes of the writer, with any bytes after them, have all the fields.
  pub written-Pending : (rest : List ℕ) → Pending (final.buf ++ rest) 0 fs
  written-Pending rest = record {
    number =
        ap (λ x. x % 2 ^ total_width fs)
          (div-one (little_endian (final.buf ++ rest)) ∙ spelled rest)
        ∙ low_part (total_width fs) (8 * byte_count fs) (pack fs) (little_endian rest) (omega arith)
            (pack-lt fs hs);
    inside = omega (arith, length-append final.buf rest, written-length);
  }

  pub written-IsByte : All IsByte final.buf
  written-IsByte = rw written.1 (le_bytes-IsByte (byte_count fs) (pack fs))

  pub written_done : (write_fields fs (new_bit_writer n)).0 ≡ true
  written_done = written.0

  -- Values below the bounds of their widths, which are 32 at most, are all written, and the writer
  -- then holds as many bytes as the widths need. A reader at the start of these bytes, with any
  -- bytes after them, reads the values back and ends at the byte after them.
  pub read_fields-write_fields :
      (rest : List ℕ)
      → All IsByte rest
      → ((write_fields fs (new_bit_writer n)).0 ≡ true)
        × (bytes_written (write_fields fs (new_bit_writer n)).1 ≡ (total_width fs + 7) / 8)
        × (r : BitReader) × (read_fields
              (widths fs)
              (new_bit_reader (bytes (write_fields fs (new_bit_writer n)).1 ++ rest))
            ≡ (some (values fs), r))
        × (bytes_read r ≡ (total_width fs + 7) / 8)
  unfolding new_bit_reader bytes bytes_read bytes_written
  read_fields-write_fields rest bs =
      let read =
        read_fields-values fs (new_bit_reader (final.buf ++ rest)) hs
          (All-append IsByte final.buf rest written-IsByte bs) (written-Pending rest) in
      (written.0, written-length, _, read, ap (λ o. (o + 7) / 8) (omega arith))
