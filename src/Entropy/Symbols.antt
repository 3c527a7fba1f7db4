-- ===== src/Entropy/Symbols.antt =====
-- internal/entropy/symbols.go: the decoders of symbols, over the rANS decoder of their precision.
-- Where a slice of the source is reused scratch memory, its length alone is visible; what stays is the
-- list of decoders. A write past the end of the output panics, which is index_out_of_range.
use go_draco.Entropy.RansDecoder.{init, clear_input}
use mathlib.Core.Option
use go_draco.Common.Int.{ℤ}
use go_draco.Entropy.ProbabilityTable.{read_entries}
use go_draco.Core.Varint.{decode_var_uint32}
use go_draco.Core.Varint.{decode_var_uint64}
use go_draco.Core.BitReader.{bits_at}
use go_draco.Core.Reader.{
  Reader, read_uint64, read_uint32, read_uint8, remaining, read_bytes_view, remaining_bytes,
  advance,
}
use go_draco.Entropy.RansDecoder.{RansDecoder, new_rans_decoder, build_lookup, read_symbol}
use go_draco.Common.{
  ℕ, zero, suc, ◌+◌, ◌-◌, ◌*◌, ◌/◌, ◌%◌, ◌^◌, Bool, ◌||◌, List, [], ◌∷◌, ◌++◌, Option, none, some,
  length, get_or, set, replicate, ltb, leb, ◌==◌, if◌then◌else◌, M, Result, ok, err, ◌>>=◌, ◌>>◌,
  pure, fail, on_left, on_right, probability_allocation, symbol_allocation, map,
  tagged_bits_exhausted, index_out_of_range, invalid_rans_payload_size, out_of_fuel,
  unsupported_symbol_scheme, invalid_tag_bit_length,
}

-- For the bit length of a byte or of a tag.
unfoldable pub compute_rans_precision_bits : ℕ → ℕ
compute_rans_precision_bits unique_symbols_bit_length =
    let bits = 3 * unique_symbols_bit_length / 2 in
    if ltb bits 12 then 12 else if ltb 20 bits then 20 else bits

abbrev pub max_decode_scratch_bytes : ℕ
max_decode_scratch_bytes = 512 * 2 ^ 20

-- An int holds every uint32, so the first test of both guards never fails.
unfoldable pub guard_probability_scratch : {S : Type 0} → ℕ → M S (Unit {0})
guard_probability_scratch n =
    if ltb max_decode_scratch_bytes (n * 4) then fail probability_allocation else pure tt

unfoldable pub guard_symbol_output_allocation : {S : Type 0} → ℕ → M S (Unit {0})
guard_symbol_output_allocation n =
    if ltb max_decode_scratch_bytes (n * 4) then fail symbol_allocation else pure tt

-- The decoders by precision, 0 to 20; a nil scratch is `none`.
pub record DecodeScratch : Type 0 where
  pub decoders : List (Option RansDecoder)

abbrev pub Scratch : Type 0
Scratch = Option DecodeScratch

unfoldable pub decoder : ℕ → Scratch → RansDecoder
decoder bits none = new_rans_decoder bits
decoder bits (some s) =
    if leb (length s.decoders) bits
    then new_rans_decoder bits
    else elim (get_or s.decoders bits none) [ none ↦ new_rans_decoder bits | some d ↦ d ]

-- The scratch and its user share the decoder: what the user does to it is kept. A write out of range
-- changes nothing, as no decoder of such a precision is kept.
unfoldable pub keep_decoder : ℕ → RansDecoder → Scratch → Scratch
keep_decoder bits d none = none
keep_decoder bits d (some s) = some (record s { decoders = set s.decoders bits (some d) })

-- DecodeScratch.Reset clears the inputs of the decoders.
unfoldable pub reset : Scratch → Scratch
reset none = none
reset (some s) = some (record s { decoders = map (Option.map clear_input) s.decoders })

abbrev pub State : Type 0
State = Reader × Scratch

-- BuildLookup and Init, on the decoder of the scratch.
unfoldable pub set_up : ℕ → List ℕ → List ℕ → M Scratch RansDecoder
set_up bits probabilities payload s =
    let started = (build_lookup probabilities >> init payload) (decoder bits s) in
    let s' = keep_decoder bits started.1 s in
    elim started.0 [ ok u ↦ (ok started.1, s') | err e ↦ (err e, s') ]

unfoldable pub read_size : Bool → M Reader ℕ
read_size legacy = do
  size ← if legacy then read_uint64 else decode_var_uint64
  bytes_left ← λ (r : Reader). (ok (remaining r), r)
  if ltb bytes_left size then fail invalid_rans_payload_size else pure size

-- The count of the probabilities, the slice for them, and the loop that fills it.
unfoldable pub read_probabilities : Bool → M Reader (List ℕ)
read_probabilities legacy = do
  num_symbols ← if legacy then read_uint32 else decode_var_uint32
  guard_probability_scratch num_symbols
  read_entries num_symbols 0

unfoldable pub create_symbol_decoder : ℕ → Bool → M State RansDecoder
unfolding set_up read_size read_probabilities
create_symbol_decoder unique_symbols_bit_length legacy = do
  probabilities ← on_left (read_probabilities legacy)
  size ← on_left (read_size legacy)
  payload ← on_left (read_bytes_view (ℤ.pos size))
  on_right (set_up (compute_rans_precision_bits unique_symbols_bit_length) probabilities payload)

-- `n` calls of ReadSymbol.
unfoldable pub read_all : ℕ → RansDecoder → List ℕ × RansDecoder
read_all zero d = ([], d)
read_all (suc n) d = let (s, d') = read_symbol d in let rest = read_all n d' in (s ∷ rest.0, rest.1)

-- Transient output is scratch memory, which symbolsSlice guards.
abbrev pub output : Bool → ℕ → M State (Unit {0})
output transient n = if transient then guard_symbol_output_allocation n else pure tt

-- The reads of `n` symbols, with the decoder of the scratch after them.
abbrev pub read_and_keep : ℕ → ℕ → RansDecoder → M State (List ℕ)
read_and_keep bits n d s =
    let (symbols, d') = read_all n d in (ok symbols, (s.0, keep_decoder bits d' s.1))

unfoldable pub decode_raw_symbols : ℕ → Bool → Bool → M State (List ℕ)
decode_raw_symbols num_values legacy transient = do
  max_bit_length ← on_left read_uint8
  d ← create_symbol_decoder max_bit_length legacy
  output transient num_values
  read_and_keep (compute_rans_precision_bits max_bit_length) num_values d

-- readTaggedBitsLSB: the value with the offset after it, by the same steps as ReadBitsLSB.
unfoldable pub read_tagged_bits_lsb : List ℕ → ℕ → ℕ → ℕ → Option (ℕ × ℕ)
read_tagged_bits_lsb bit_data total_bits offset n =
    if n == 0
    then some (0, offset)
    else if ltb total_bits offset || ltb (total_bits - offset) n
    then none
    else some (bits_at bit_data offset n, offset + n)

abbrev pub cons_value : ℕ → Result (List ℕ × ℕ) → Result (List ℕ × ℕ)
cons_value value (ok (values, offset)) = ok (value ∷ values, offset)
cons_value value (err e) = err e

-- The loop over the components of one tag; `room` is how much of the output is left.
unfoldable pub read_components : ℕ → List ℕ → ℕ → ℕ → ℕ → Result (List ℕ × ℕ)
read_components zero bit_data bit_length room offset = ok ([], offset)
read_components (suc n) bit_data bit_length zero offset =
    elim (read_tagged_bits_lsb bit_data (length bit_data * 8) offset bit_length) [
      | none ↦ err tagged_bits_exhausted
      | some read ↦ err index_out_of_range
    ]
read_components (suc n) bit_data bit_length (suc room) offset =
    let rest = λ (o : ℕ). read_components n bit_data bit_length room o in
    elim (read_tagged_bits_lsb bit_data (length bit_data * 8) offset bit_length) [
      | none ↦ err tagged_bits_exhausted
      | some read ↦ cons_value read.0 (rest read.1)
    ]

abbrev pub lift : {S A : Type 0} → Result A → M S A
lift r s = (r, s)

abbrev pub next_symbol : M RansDecoder ℕ
next_symbol d = (ok (read_symbol d).0, (read_symbol d).1)

-- The loop over the tags: `i` is a uint32. Each round takes `num_components` values, so as many rounds
-- as values are enough, unless there are no components and the source does not end.
unfoldable pub tagged_loop : ℕ → ℕ → List ℕ → ℕ → ℕ → ℕ → ℕ → M RansDecoder (List ℕ × ℕ)
tagged_loop num_values num_components bit_data zero i room offset =
    if leb num_values i then pure ([], offset) else fail out_of_fuel
tagged_loop num_values num_components bit_data (suc fuel) i room offset =
    let more = (do
      bit_length ← next_symbol
      if ltb 32 bit_length then fail invalid_tag_bit_length else pure tt
      first ← lift (read_components num_components bit_data bit_length room offset)
      rest ←
          tagged_loop num_values num_components bit_data fuel ((i + num_components) % 2 ^ 32)
            (room - num_components) first.1
      pure (first.0 ++ rest.0, rest.1)) in
    if leb num_values i then pure ([], offset) else more

-- The output is made of zeros, of which the loop overwrites the first ones.
abbrev pub filled : ℕ → List ℕ → List ℕ
filled num_values values = values ++ replicate (num_values - length values) 0

-- The loop, on the decoder of the scratch.
abbrev pub run_tags : ℕ → ℕ → List ℕ → RansDecoder → M State (List ℕ × ℕ)
run_tags num_values num_components bit_data d s =
    let (r, d') = tagged_loop num_values num_components bit_data num_values 0 num_values 0 d in
    (r, (s.0, keep_decoder (compute_rans_precision_bits 5) d' s.1))

-- decodeTaggedSymbols from the values on.
unfoldable pub read_tagged_values : ℕ → ℕ → RansDecoder → M State (List ℕ)
read_tagged_values num_values num_components d = do
  bit_data ← λ (s : State). (ok (remaining_bytes s.0), s)
  values ← run_tags num_values num_components bit_data d
  on_left (advance (ℤ.pos ((values.1 + 7) / 8)))
  pure (filled num_values values.0)

unfoldable pub decode_tagged_symbols : ℕ → ℕ → Bool → Bool → M State (List ℕ)
decode_tagged_symbols num_values num_components legacy transient = do
  d ← create_symbol_decoder 5 legacy
  output transient num_values
  read_tagged_values num_values num_components d

-- DecodeSymbols and its variants: `legacy` for the old integer forms, `transient` for output in
-- scratch memory. A nil slice is an empty one.
unfoldable pub decode_symbols : ℕ → ℕ → Bool → Bool → M State (List ℕ)
decode_symbols num_values num_components legacy transient =
    let run = (do
      guard_symbol_output_allocation num_values
      scheme ← on_left read_uint8
      if scheme == 0
          then decode_tagged_symbols num_values num_components legacy transient
          else if scheme == 1
          then decode_raw_symbols num_values legacy transient
          else fail unsupported_symbol_scheme) in
    if num_values == 0 then pure [] else run
