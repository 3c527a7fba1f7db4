-- ===== src/Entropy/SymbolEncoding.antt =====
-- internal/entropy/symbol_encoding.go: the encoders of symbols. Lengths and sums of bits stay in
-- memory sizes, so 64-bit counts do not wrap here.
use go_draco.Core.Varint.{encode_var_uint64}
use go_draco.Entropy.ProbabilityTable.{encode_rans_probability_table}
use go_draco.Core.BitPacking.{Field, write_fields}
use go_draco.Entropy.Symbols.{compute_rans_precision_bits, lift}
use go_draco.Core.Writer.{Writer, write_uint8, write_bytes}
use go_draco.Entropy.RansEncoder.{RansEncoder, write_symbols, new_rans_encoder}
use go_draco.Entropy.Probabilities.{FloatOps, build_rans_probability_table}
use go_draco.Core.BitWriter
use go_draco.Core.BitWriter.{new_bit_writer}
use go_draco.Entropy.RansEncoder.{bytes, reset}
use go_draco.Common.Int.{ℤ, pos, negsuc, ltb_ℤ, to_uint8, ◌+ℤ◌}
use go_draco.Common.{
  ℕ, zero, suc, ◌+◌, ◌-◌, ◌*◌, ◌/◌, ◌%◌, Bool, true, false, ◌||◌, List, [], ◌∷◌, ◌++◌, Option, none,
  some, length, get_or, set, take, drop, replicate, ltb, ◌==◌, if◌then◌else◌, M, Result, ok, err,
  ◌>>=◌, ◌>>◌, pure, fail, out_of_fuel, raw_symbol_too_wide, map, unsupported_symbol_scheme,
  symbol_count_not_divisible, tagged_bits_unwritable,
}

-- bits.Len32, and 1 for a zero.
unfoldable pub len_bits : ℕ → ℕ → ℕ
len_bits zero v = 0
len_bits (suc fuel) v = let rest = suc (len_bits fuel (v / 2)) in if v == 0 then 0 else rest

unfoldable pub positive_len : ℕ → ℕ
unfolding len_bits
positive_len v = if len_bits 32 v == 0 then 1 else len_bits 32 v

unfoldable pub max_of : List ℕ → ℕ
max_of [] = 0
max_of (x ∷ xs) = if ltb x (max_of xs) then max_of xs else x

-- computeBitLengths: one bit length for the largest of each group of components. Each group takes
-- some symbols, so as many rounds as symbols are enough.
unfoldable pub group_lengths : ℕ → ℕ → List ℕ → List ℕ
group_lengths zero num_components symbols = []
group_lengths (suc fuel) num_components symbols =
    let rest = group_lengths fuel num_components (drop num_components symbols) in
    if length symbols == 0 then [] else positive_len (max_of (take num_components symbols)) ∷ rest

unfoldable pub bit_lengths_of : ℕ → List ℕ → List ℕ
unfolding group_lengths max_of positive_len
bit_lengths_of num_components symbols = group_lengths (length symbols) num_components symbols

-- `for _, symbol := range symbols { frequencies[symbol]++ }`
unfoldable pub tally : List ℕ → List ℕ → List ℕ
tally frequencies [] = frequencies
tally frequencies (s ∷ ss) = tally (set frequencies s (get_or frequencies s 0 + 1)) ss

unfoldable pub frequencies_of : ℕ → List ℕ → List ℕ
unfolding tally
frequencies_of max_value symbols = tally (replicate (max_value + 1) 0) symbols

unfoldable pub count_positive : List ℕ → ℕ
count_positive [] = 0
count_positive (f ∷ fs) = if f == 0 then count_positive fs else suc (count_positive fs)

unfoldable pub num_unique_symbols : List ℕ → ℕ → ℕ
unfolding count_positive frequencies_of
num_unique_symbols symbols max_value =
    if length symbols == 0 then 0 else count_positive (frequencies_of max_value symbols)

-- A difference below zero is -1 at least, and -1/64 is 0 in the source as 0/64 is here.
unfoldable pub approximate_rans_frequency_table_bits : ℕ → ℕ → ℕ
approximate_rans_frequency_table_bits max_value num_unique =
    8 * num_unique + 8 * (num_unique + (max_value - num_unique) / 64)

abbrev pub total_of : List ℕ → ℕ
total_of [] = 0
total_of (x ∷ xs) = x + total_of xs

abbrev pub max_raw_encoding_bit_length : ℕ
max_raw_encoding_bit_length = 18

unfoldable pub bounded_bits : ℕ → ℕ
bounded_bits bits =
    if ltb bits 1
    then 1
    else if ltb max_raw_encoding_bit_length bits
    then max_raw_encoding_bit_length
    else bits

-- The switch on the compression level, and the bounds 1 and 18 after it. The least value before
-- the bounds is -1, which they treat as 0.
unfoldable pub unique_symbols_bit_length : ℕ → ℤ → ℕ
unfolding positive_len
unique_symbols_bit_length num_unique level =
    let bits = positive_len num_unique in
    let bits' =
      if ltb_ℤ level (pos 4)
      then bits - 2
      else if ltb_ℤ level (pos 6)
      then bits - 1
      else if ltb_ℤ (pos 9) level
      then bits + 2
      else if ltb_ℤ (pos 7) level
      then bits + 1
      else bits in
    bounded_bits bits'

-- The symbols of each group in the width of its bit length.
unfoldable pub group_fields : ℕ → List ℕ → List ℕ → List Field
group_fields num_components symbols [] = []
group_fields num_components symbols (n ∷ ns) =
    map (λ v. record { value = v; width = n }) (take num_components symbols)
    ++ group_fields num_components (drop num_components symbols) ns

abbrev payload_of : Option RansEncoder → Result (List ℕ)
payload_of none = err out_of_fuel
payload_of (some e) = ok (bytes e)

module _ (ops : FloatOps) where
  unfoldable pub compute_shannon_entropy : List ℕ → ℕ → ℤ
  unfolding frequencies_of
  compute_shannon_entropy symbols max_value =
      if length symbols == 0
      then pos 0
      else ops.entropy_bits (frequencies_of max_value symbols) (length symbols)

  unfoldable pub approximate_tagged_scheme_bits : List ℕ → ℕ → ℤ
  unfolding compute_shannon_entropy approximate_rans_frequency_table_bits num_unique_symbols max_of
  approximate_tagged_scheme_bits bit_lengths num_components =
      let unique = num_unique_symbols bit_lengths (max_of bit_lengths) in
      compute_shannon_entropy bit_lengths (max_of bit_lengths)
      +ℤ pos (approximate_rans_frequency_table_bits unique unique)
      +ℤ pos (total_of bit_lengths * num_components)

  unfoldable pub approximate_raw_scheme_bits : List ℕ → ℕ → ℤ
  unfolding compute_shannon_entropy approximate_rans_frequency_table_bits num_unique_symbols
  approximate_raw_scheme_bits symbols max_value =
      compute_shannon_entropy symbols max_value
      +ℤ pos
          (approximate_rans_frequency_table_bits max_value (num_unique_symbols symbols max_value))

  -- The table of the frequencies, its bytes, then the symbols' bytes with their number in front.
  unfoldable pub encode_with_table : List ℕ → ℕ → List ℕ → M Writer (Unit {0})
  encode_with_table frequencies precision_bits symbols = do
    table ← lift (build_rans_probability_table ops frequencies precision_bits)
    encode_rans_probability_table table
    payload ← lift (
        payload_of
          (write_symbols table symbols (reset (length symbols) (new_rans_encoder precision_bits))))
    encode_var_uint64 (length payload)
    write_bytes payload

  unfoldable pub encode_raw_symbols : List ℕ → ℕ → ℕ → ℤ → M Writer (Unit {0})
  encode_raw_symbols symbols max_value num_unique level =
      let bits = unique_symbols_bit_length num_unique level in
      if ltb max_raw_encoding_bit_length (len_bits 32 max_value)
      then fail raw_symbol_too_wide
      else do
        write_uint8 (bits % 256)
        encode_with_table (frequencies_of max_value symbols) (compute_rans_precision_bits bits)
            symbols

  unfoldable pub encode_tagged_symbols : List ℕ → ℕ → List ℕ → M Writer (Unit {0})
  encode_tagged_symbols symbols num_components bit_lengths = do
    encode_with_table (tally (replicate 33 0) bit_lengths) (compute_rans_precision_bits 5)
        bit_lengths
    let written =
        write_fields (group_fields num_components symbols bit_lengths)
          (new_bit_writer (total_of bit_lengths * num_components))
    if written.0 then write_bytes (BitWriter.bytes written.1) else fail tagged_bits_unwritable

pub record EncodeOptions : Type 0 where
  pub coding_method : ℤ
  pub compression_level : ℤ

abbrev pub symbol_coding_auto : ℤ
symbol_coding_auto = negsuc 0

abbrev pub positive_components : ℤ → ℕ
positive_components (negsuc n) = 1
positive_components (pos zero) = 1
positive_components (pos (suc n)) = suc n

-- SymbolCodingAuto compares the estimates of both schemes; one for raw symbols is made only if they
-- are not too wide, and else stands for the largest int64.
unfoldable pub choose_method : FloatOps → List ℕ → ℕ → List ℕ → ℤ
unfolding approximate_tagged_scheme_bits approximate_raw_scheme_bits positive_len
choose_method ops symbols num_components bit_lengths =
    let tagged = approximate_tagged_scheme_bits ops bit_lengths num_components in
    let raw = approximate_raw_scheme_bits ops symbols (max_of symbols) in
    if ltb max_raw_encoding_bit_length (positive_len (max_of symbols)) || ltb_ℤ tagged raw
    then pos 0
    else pos 1

unfoldable pub run_method : FloatOps → List ℕ → ℕ → List ℕ → ℤ → ℤ → M Writer (Unit {0})
run_method ops symbols num_components bit_lengths level (negsuc n) = fail unsupported_symbol_scheme
run_method ops symbols num_components bit_lengths level (pos zero) =
    encode_tagged_symbols ops symbols num_components bit_lengths
run_method ops symbols num_components bit_lengths level (pos (suc zero)) =
    let max_value = max_of symbols in
    encode_raw_symbols ops symbols max_value
      (if ltb max_raw_encoding_bit_length (positive_len max_value)
        then 0
        else num_unique_symbols symbols max_value)
      level
run_method ops symbols num_components bit_lengths level (pos (suc (suc n))) =
    fail unsupported_symbol_scheme

-- The options that EncodeSymbols uses: those that are given, or automatic coding at level 7.
abbrev pub options_or_default : Option EncodeOptions → EncodeOptions
options_or_default none = record { coding_method = symbol_coding_auto; compression_level = pos 7 }
options_or_default (some o) = o

abbrev pub is_auto : ℤ → Bool
is_auto (negsuc zero) = true
is_auto (negsuc (suc n)) = false
is_auto (pos n) = false

unfoldable pub encode_symbols : FloatOps → List ℕ → ℤ → Option EncodeOptions → M Writer (Unit {0})
encode_symbols ops symbols num_components options =
    let c = positive_components num_components in
    let bit_lengths = bit_lengths_of c symbols in
    let o = options_or_default options in
    let m =
      if is_auto o.coding_method
      then choose_method ops symbols c bit_lengths
      else o.coding_method in
    let run = (do
      write_uint8 (to_uint8 m)
      run_method ops symbols c bit_lengths o.compression_level m) in
    if length symbols == 0
    then pure tt
    else if length symbols % c == 0
    then run
    else fail symbol_count_not_divisible
