-- ===== src/Entropy/RansDecoder.antt =====
-- internal/entropy/rans.go: `RansDecoder`, its lookup table with the cache of eight, and its input.
-- An index out of range, where the source panics, reads 0 here.
use Prim.Native.Nat.{bit_xor}
use go_draco.Common.{
  ℕ, zero, suc, ◌+◌, ◌-◌, ◌*◌, ◌/◌, ◌%◌, ◌^◌, ◌&&◌, List, [], ◌∷◌, ◌++◌, length, get_or, set, take,
  replicate, slices_equal, Option, none, some, ltb, leb, ◌==◌, if◌then◌else◌, bit_and, bit_or, M,
  Result, ok, err, fail, invalid_rans_buffer, invalid_rans_state_size, invalid_rans_state,
  rans_cumulative_probability, rans_precision_sum,
}

pub record RansSym : Type 0 where
  pub prob : ℕ
  pub cum_prob : ℕ

abbrev pub zero_sym : RansSym
zero_sym = record { prob = 0; cum_prob = 0 }

pub record RansLookupCacheEntry : Type 0 where
  pub hash : ℕ
  pub probabilities : List ℕ
  pub lut_table : List ℕ
  pub prob_table : List RansSym

pub record RansDecoder : Type 0 where
  pub buf : List ℕ
  pub buf_offset : ℕ
  pub state : ℕ
  pub precision : ℕ
  pub shift : ℕ
  pub mask : ℕ
  pub l_base : ℕ
  pub lut_table : List ℕ
  pub prob_table : List RansSym
  pub lut_work : List ℕ
  pub lookup_cache : List RansLookupCacheEntry
  pub next_cache : ℕ

abbrev pub empty_entry : RansLookupCacheEntry
empty_entry = record { hash = 0; probabilities = []; lut_table = []; prob_table = [] }

unfoldable pub new_rans_decoder : ℕ → RansDecoder
new_rans_decoder precision_bits =
    let precision = 2 ^ precision_bits % 2 ^ 32 in
    record {
      buf = [];
      buf_offset = 0;
      state = 0;
      precision = precision;
      shift = precision_bits;
      mask = (precision + 2 ^ 32 - 1) % 2 ^ 32;
      l_base = precision * 4 % 2 ^ 32;
      lut_table = [];
      prob_table = [];
      lut_work = [];
      lookup_cache = replicate 8 empty_entry;
      next_cache = 0;
    }

unfoldable pub clear_input : RansDecoder → RansDecoder
clear_input d = record d { buf = []; buf_offset = 0; state = 0 }

-- The switch on the tag in the two top bits of the last byte: how many bytes hold the state, and
-- the state in them. A tag of a byte is below 4, so the default case is not reached.
abbrev pub tail_state : List ℕ → ℕ → ℕ → Result (ℕ × ℕ)
tail_state buf offset tag =
    let at = λ (k : ℕ). get_or buf (offset - k) 0 in
    let top = bit_and (at 1) 0x3f in
    if tag == 0
    then ok (offset - 1, top)
    else if tag == 1
    then (if ltb offset 2
        then err invalid_rans_state_size
        else ok (offset - 2, bit_or (at 2) (top * 2 ^ 8)))
    else if tag == 2
    then (if ltb offset 3
        then err invalid_rans_state_size
        else ok (offset - 3, bit_or (bit_or (at 3) (at 2 * 2 ^ 8)) (top * 2 ^ 16)))
    else if ltb offset 4
    then err invalid_rans_state_size
    else ok
        (offset - 4, bit_or (bit_or (bit_or (at 4) (at 3 * 2 ^ 8)) (at 2 * 2 ^ 16)) (top * 2 ^ 24))

-- The end of Init: the base is added, and a state past the coder's interval is refused.
abbrev pub start_state : ℕ × ℕ → M RansDecoder (Unit {0})
start_state (offset, low) d =
    let state = (low + d.l_base) % 2 ^ 32 in
    let d' = record d { buf_offset = offset; state = state } in
    if leb (d.l_base * 256 % 2 ^ 32) state then (err invalid_rans_state, d') else (ok tt, d')

abbrev pub or_fail : Result (ℕ × ℕ) → M RansDecoder (Unit {0})
or_fail (ok t) = start_state t
or_fail (err e) = fail e

unfoldable pub init : List ℕ → M RansDecoder (Unit {0})
init buf d =
    let offset = length buf in
    if ltb offset 1
    then (err invalid_rans_buffer, d)
    else or_fail (tail_state buf offset (get_or buf (offset - 1) 0 / 2 ^ 6))
        (record d { buf = buf })

unfoldable pub hash_from : ℕ → List ℕ → ℕ
hash_from hash [] = hash
hash_from hash (p ∷ ps) = hash_from (bit_xor hash p * 1099511628211 % 2 ^ 64) ps

unfoldable pub hash_rans_probabilities : List ℕ → ℕ
hash_rans_probabilities ps = bit_xor (hash_from 1469598103934665603 ps) (length ps)

-- `for j := from; j < from + n; j++ { lut[j] = i }`
unfoldable pub fill : ℕ → ℕ → ℕ → List ℕ → List ℕ
fill zero from i lut = lut
fill (suc n) from i lut = fill n (from + 1) i (set lut from i)

-- The loop over the probabilities, from the `i`th on. `cum` is both cumProb and actProb, which agree
-- at the start of a round; `syms` is the part of probWork that is written. The source converts the
-- index `i` to uint32, which keeps it in a table of fewer than 2^32 entries; createSymbolDecoder allows
-- 2^27.
unfoldable pub build_loop :
    ℕ → List ℕ → ℕ → ℕ → List ℕ → List RansSym → Result (ℕ × List ℕ × List RansSym)
build_loop precision [] i cum lut syms = ok (cum, lut, syms)
build_loop precision (prob ∷ ps) i cum lut syms =
    let cum' = (cum + prob) % 2 ^ 32 in
    let rest =
      build_loop precision ps (i + 1) cum' (fill (cum' - cum) cum i lut)
        (syms ++ (record { prob = prob; cum_prob = cum } ∷ [])) in
    if ltb precision cum' then err rans_cumulative_probability else rest

abbrev pub check_sum : ℕ → Result (ℕ × List ℕ × List RansSym) → Result (List ℕ × List RansSym)
check_sum precision (ok (cum, lut, syms)) =
    if cum == precision then ok (lut, syms) else err rans_precision_sum
check_sum precision (err e) = err e

-- BuildLookup without its cache. `work` is what the work slice held.
unfoldable pub build_tables : ℕ → List ℕ → List ℕ → Result (List ℕ × List RansSym)
build_tables precision work ps =
    check_sum precision
      (build_loop precision ps 0 0 (take precision (work ++ replicate precision 0)) [])

unfoldable pub find_cached : ℕ → List ℕ → List RansLookupCacheEntry → Option RansLookupCacheEntry
find_cached hash ps [] = none
find_cached hash ps (entry ∷ rest) =
    if entry.hash == hash && slices_equal entry.probabilities ps
    then some entry
    else find_cached hash ps rest

abbrev pub cache_slots : ℕ
cache_slots = 8

-- After an error no table is read until the next BuildLookup sets both, so they stay as they were.
abbrev pub install : ℕ → List ℕ → Result (List ℕ × List RansSym) → M RansDecoder (Unit {0})
install hash ps (err e) d = (err e, d)
install hash ps (ok (lut, syms)) d =
    let d' = record d { lut_table = lut; prob_table = syms; lut_work = lut } in
    let entry : RansLookupCacheEntry = record {
      hash = hash;
      probabilities = ps;
      lut_table = lut;
      prob_table = syms;
    } in
    let cached = record d' {
      lookup_cache = set d.lookup_cache (d.next_cache % cache_slots) entry;
      next_cache = d.next_cache + 1;
    } in
    (ok tt, if leb d.precision 4096 then cached else d')

abbrev pub build_or_use : ℕ → List ℕ → Option RansLookupCacheEntry → M RansDecoder (Unit {0})
build_or_use hash ps (some entry) d =
    (ok tt, record d { lut_table = entry.lut_table; prob_table = entry.prob_table })
build_or_use hash ps none d = install hash ps (build_tables d.precision d.lut_work ps) d

unfoldable pub build_lookup : List ℕ → M RansDecoder (Unit {0})
build_lookup ps d =
    let hash = if leb d.precision 4096 then hash_rans_probabilities ps else 0 in
    build_or_use hash ps (if leb d.precision 4096 then find_cached hash ps d.lookup_cache else none)
      d

-- `for d.state < d.lBase && d.bufOffset > 0`, by recursion on bufOffset.
unfoldable pub refill : List ℕ → ℕ → ℕ → ℕ → ℕ × ℕ
refill buf l_base zero state = (zero, state)
refill buf l_base (suc offset) state =
    let more = refill buf l_base offset ((state * 256 + get_or buf offset 0) % 2 ^ 32) in
    if ltb state l_base then more else (suc offset, state)

-- ReadSymbol after its loop.
unfoldable pub take_symbol : ℕ × ℕ → RansDecoder → ℕ × RansDecoder
take_symbol (offset, state) d =
    let rem = bit_and state d.mask in
    let symbol = get_or d.lut_table rem 0 in
    let sym = get_or d.prob_table symbol zero_sym in
    let next = (state / 2 ^ d.shift * sym.prob + rem + (2 ^ 32 - sym.cum_prob)) % 2 ^ 32 in
    (symbol, record d { buf_offset = offset; state = next })

unfoldable pub read_symbol : RansDecoder → ℕ × RansDecoder
unfolding take_symbol
read_symbol d = take_symbol (refill d.buf d.l_base d.buf_offset d.state) d
