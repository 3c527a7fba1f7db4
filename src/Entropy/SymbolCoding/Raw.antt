-- ===== src/Entropy/SymbolCoding/Raw.antt =====
-- The raw scheme: decodeRawSymbols on what encodeRawSymbols writes.
use go_draco.Core.Reader.Laws.{read_uint8-Reads}
use go_draco.Core.Reader.{read_uint8}
use go_draco.Core.Writer.Laws.{write_uint8-Writes}
use go_draco.Core.Writer.{write_uint8}
use mathlib.Core.Path.{subst}
use go_draco.Entropy.SymbolCoding.Counts.{
  max_of-lt, Counted, tally-Counted, All-weaken, max_of-bounds, len_bits-le_of_lt,
}
use go_draco.Entropy.RansDecoder.{RansDecoder}
use go_draco.Entropy.SymbolCoding.Scratch.{
  Yields, Streams, read_all-symbols, keep_decoder-Sound, read_all-Serving, Yields-bind,
  Yields-Reads,
}
use go_draco.Core.Codec.{Writes, Writes-then}
use go_draco.Entropy.SymbolCoding.Table.{Refuses, encode_with_table-trip, Refuses-then}
use go_draco.Entropy.Symbols.{
  decode_raw_symbols, guard_symbol_output_allocation, State, max_decode_scratch_bytes, output,
  read_all, keep_decoder, create_symbol_decoder, compute_rans_precision_bits, read_and_keep,
}
use go_draco.Entropy.Probabilities.Frequencies.{IsRounding}
use go_draco.Common.Int.{ℤ}
use go_draco.Entropy.Probabilities.{FloatOps}
use go_draco.Entropy.SymbolEncoding.{
  unique_symbols_bit_length, encode_raw_symbols, max_of, bounded_bits, frequencies_of, len_bits,
}
use go_draco.Common.{
  ℕ, ◌+◌, ◌*◌, ◌%◌, ◌^◌, ◌≤◌, ◌<◌, ◌≡◌, ◌⊎◌, refl, sym, ◌∙◌, inl, inr, Bool, true, false, List, [],
  ◌∷◌, append-nil, length, All, arith, ltb, ge→ltb, M, ok, ◌>>=◌, ◌>>◌, on_left,
  invalid_rans_normalization,
}

bounded_bits-byte : (bits : ℕ) → bounded_bits bits % 256 ≡ bounded_bits bits
unfolding bounded_bits
bounded_bits-byte bits = ground arith

unique_symbols_bit_length-byte :
    (unique : ℕ) (level : ℤ)
    → unique_symbols_bit_length unique level % 256 ≡ unique_symbols_bit_length unique level
unfolding unique_symbols_bit_length
unique_symbols_bit_length-byte unique level = bounded_bits-byte _

frequencies_of-Counted : (ss : List ℕ) → Counted (max_of ss + 1) (frequencies_of (max_of ss) ss) ss
unfolding frequencies_of
frequencies_of-Counted ss =
    tally-Counted (max_of ss + 1) ss (All-weaken (λ x h. omega (arith, h)) ss (max_of-bounds ss))

-- What is left to do when the decoder of the symbols is there.
finish-Yields :
    (bits : ℕ) (ss : List ℕ) (d : RansDecoder)
    → Streams bits ss d
    → Yields [] (read_and_keep bits (length ss) d) (λ a. a ≡ ss)
finish-Yields bits ss d (reads, v) r s rest at sound = (
  (read_all (length ss) d).0,
  keep_decoder bits (read_all (length ss) d).1 s,
  (λ i. (
    ok (read_all (length ss) d).0,
    (record r { pos = same i }, keep_decoder bits (read_all (length ss) d).1 s),
  )),
  read_all-symbols (length ss) d ∙ reads,
  keep_decoder-Sound bits (read_all (length ss) d).1 s (read_all-Serving bits (length ss) d v)
      sound,
)
  where
    same : r.pos ≡ r.pos + 0
    same = omega arith

pub guard-passes :
    {B : Type 0} (n : ℕ) (m : M State B) → n ≤ 2 ^ 27 → (guard_symbol_output_allocation n >> m) ≡ m
unfolding guard_symbol_output_allocation
guard-passes n m h = rw (ge→ltb max_decode_scratch_bytes (n * 4) (omega (arith, h))) refl

pub output-passes :
    {B : Type 0} (transient : Bool) (n : ℕ) (m : M State B)
    → n ≤ 2 ^ 27
    → (output transient n >> m) ≡ m
output-passes true n m h = guard-passes n m h
output-passes false n m h = refl

module _ (ops : FloatOps) (rounding : IsRounding ops) where
  -- The encoder refuses the normalisation, or the decoder reads the symbols back.
  pub raw-trip :
      (ss : List ℕ) (unique : ℕ) (level : ℤ) (transient : Bool)
      → 0 < length ss
      → length ss ≤ 2 ^ 27
      → All (λ x. x < 2 ^ 18) ss
      → Refuses invalid_rans_normalization (encode_raw_symbols ops ss (max_of ss) unique level)
        ⊎ ((bs : List ℕ) × Writes bs (encode_raw_symbols ops ss (max_of ss) unique level)
            × Yields bs (decode_raw_symbols (length ss) false transient) (λ a. a ≡ ss))
  unfolding encode_raw_symbols decode_raw_symbols
  raw-trip ss unique level transient some_symbol few narrow =
      let n = unique_symbols_bit_length unique level in
      let below = max_of-lt ss (2 ^ 18) (omega arith) narrow in
      let c = frequencies_of-Counted ss in
      let trip =
        encode_with_table-trip ops rounding (frequencies_of (max_of ss) ss) ss n
          (omega (arith, c.count, some_symbol)) (omega (arith, c.size, below))
          (omega (arith, c.count, few)) c.known few in
      let byte = unique_symbols_bit_length-byte unique level in
      let plain : ltb 18 (len_bits 32 (max_of ss)) ≡ false =
        ge→ltb 18 _ (len_bits-le_of_lt 32 (max_of ss) 18 below) in
      elim trip [
        | inl refuses ↦
            rw (plain, byte)
              (inl (Refuses-then (n ∷ []) _ (write_uint8 n) _ (write_uint8-Writes n) refuses))
        | inr (bs, writes, yields) ↦
            rw (plain, byte)
              (inr (
                n ∷ bs,
                Writes-then (n ∷ []) bs (write_uint8-Writes n) writes,
                Yields-bind (n ∷ []) bs (on_left read_uint8) _ (λ x. x ≡ n) (λ a. a ≡ ss)
                    (Yields-Reads (n ∷ []) read_uint8 n (read_uint8-Reads n))
                    (λ x same. rw same (after_table n bs yields)),
              ))
      ]
    where
      after_table :
          (n : ℕ) (bs : List ℕ)
          → Yields bs (create_symbol_decoder n false) (Streams (compute_rans_precision_bits n) ss)
          → Yields bs
              (create_symbol_decoder n false >>= λ d.
                output transient (length ss)
                >> read_and_keep (compute_rans_precision_bits n) (length ss) d)
              (λ a. a ≡ ss)
      after_table n bs yields =
          let bits = compute_rans_precision_bits n in
          let next : RansDecoder → M State (List ℕ) =
            λ d. output transient (length ss) >> read_and_keep bits (length ss) d in
          subst (λ cs. Yields cs (create_symbol_decoder n false >>= next) (λ a. a ≡ ss))
            (append-nil bs)
            (Yields-bind bs [] (create_symbol_decoder n false) next (Streams bits ss) (λ a. a ≡ ss)
              yields
              (λ d streams.
                subst (λ m. Yields [] m (λ a. a ≡ ss))
                  (sym (output-passes transient (length ss) (read_and_keep bits (length ss) d) few))
                  (finish-Yields bits ss d streams)))
