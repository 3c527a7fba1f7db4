-- ===== src/Entropy/SymbolCoding/Tests.antt =====
-- Symbols coded by both schemes at concrete inputs.
use go_draco.Entropy.ProbabilityTable.Laws.{probs, IsOversized}
use go_draco.Entropy.ProbabilityTable.Laws.{read_probabilities-encode_rans_probability_table}
use go_draco.Entropy.SymbolCoding.RoundTrip.{decode-encode_symbols}
use go_draco.Entropy.Symbols.{decode_symbols, read_probabilities}
use go_draco.Entropy.Probabilities.Table.{IsTable, build_rans_probability_table-ends}
use go_draco.Entropy.SymbolCoding.Scratch.{Yields}
use go_draco.Entropy.Rans.Lookup.{shares, sum}
use go_draco.Entropy.ProbabilityTable.{encode_rans_probability_table}
use go_draco.Entropy.RansDecoder.{RansSym}
use go_draco.Core.Codec.{RoundTrip, Writes}
use go_draco.Entropy.SymbolCoding.Table.{Refuses}
use go_draco.Entropy.SymbolEncoding.{encode_symbols, EncodeOptions}
use native.Mathlib.Nat.{div-mul-le_self, mul-div_cancel_left}
use go_draco.Common.Int.{pos}
use go_draco.Entropy.Probabilities.Frequencies.{IsRounding}
use go_draco.Entropy.Probabilities.{FloatOps, build_rans_probability_table}
use go_draco.Common.{
  ℕ, ◌-◌, ◌*◌, ◌/◌, ◌^◌, ◌≤◌, ◌≡◌, ◌⊎◌, refl, false, List, [], ◌∷◌, Option, some, arith, ok, err,
  invalid_rans_normalization,
}

-- The share of a frequency in exact arithmetic, rounded down.
abbrev exact : FloatOps
exact = record {
  share = λ freq total precision. freq * precision / total;
  excess = λ start precision p. p - p * precision / start;
  entropy_bits = λ frequencies n. pos (8 * n);
}

exact-IsRounding : IsRounding exact
exact-IsRounding = record {
  close = λ freq total precision h small. omega (arith, div-mul-le_self (freq * precision) total);
  whole = λ total precision positive small. mul-div_cancel_left precision positive;
}

abbrev four_symbols : List ℕ
four_symbols = 3 ∷ 1 ∷ 3 ∷ 0 ∷ []

abbrev tagged_options : Option EncodeOptions
tagged_options = some (record { coding_method = pos 0; compression_level = pos 7 })

decode-encode_symbols_example :
    Refuses invalid_rans_normalization (encode_symbols exact four_symbols (pos 2) tagged_options)
    ⊎ ((bs : List ℕ) × Writes bs (encode_symbols exact four_symbols (pos 2) tagged_options)
        × Yields bs (decode_symbols 4 2 false false) (λ a. a ≡ four_symbols))
decode-encode_symbols_example =
    decode-encode_symbols exact exact-IsRounding four_symbols (pos 2) false (omega arith)
      (omega arith, (omega arith, (omega arith, (omega arith, tt)))) refl tagged_options tt

build_rans_probability_table-ends_example :
    (build_rans_probability_table exact (1 ∷ 0 ∷ 2 ∷ 0 ∷ []) 12 ≡ err invalid_rans_normalization)
    ⊎ ((ps : List ℕ) × (build_rans_probability_table exact (1 ∷ 0 ∷ 2 ∷ 0 ∷ []) 12
          ≡ ok (shares 0 ps))
        × IsTable (1 ∷ 0 ∷ 2 ∷ 0 ∷ []) (2 ^ 12) ps)
unfolding sum
build_rans_probability_table-ends_example =
    build_rans_probability_table-ends exact exact-IsRounding 12 (omega arith) (1 ∷ 0 ∷ 2 ∷ 0 ∷ [])
      (omega arith) (omega arith) (omega arith)

abbrev three_entries : List RansSym
three_entries =
    record { prob = 100; cum_prob = 0 }
    ∷ record { prob = 0; cum_prob = 100 }
    ∷ record { prob = 3996; cum_prob = 100 }
    ∷ []

read_probabilities-encode_rans_probability_table_example :
    ((3 ≤ 2 ^ 27)
      × RoundTrip
          (encode_rans_probability_table three_entries)
          (read_probabilities false)
          (probs three_entries))
    ⊎ IsOversized three_entries
read_probabilities-encode_rans_probability_table_example =
    read_probabilities-encode_rans_probability_table three_entries (omega arith) (omega arith)
      (omega arith, (omega arith, (omega arith, tt)))
