-- ===== src/Entropy/RansEncoder.antt =====
-- internal/entropy/rans_encoder.go: `RansEncoder`.
use go_draco.Common.{
  ℕ, zero, suc, ◌+◌, ◌-◌, ◌*◌, ◌/◌, ◌%◌, ◌^◌, List, [], ◌∷◌, ◌++◌, get_or, Option, none, some, ltb,
  leb, if◌then◌else◌, bit_and, bit_or,
}
use go_draco.Entropy.RansDecoder.{RansSym, zero_sym}
use mathlib.Core.Option

pub record RansEncoder : Type 0 where
  pub state : ℕ
  pub precision : ℕ
  pub l_base : ℕ
  pub buf : List ℕ

unfoldable pub new_rans_encoder : ℕ → RansEncoder
new_rans_encoder precision_bits =
    let precision = 2 ^ precision_bits % 2 ^ 32 in
    record {
      state = precision * 4 % 2 ^ 32;
      precision = precision;
      l_base = precision * 4 % 2 ^ 32;
      buf = [];
    }

-- The expected size is a capacity only.
unfoldable pub reset : ℕ → RansEncoder → RansEncoder
reset expected_bytes e = record e { state = e.l_base; buf = [] }

-- The loop of WriteSymbol: the bytes that it appends, and the state after it. The state has 32 bits,
-- so with a positive threshold five tests end it; `none` is a loop that does not end.
unfoldable pub shrink : ℕ → ℕ → ℕ → Option (List ℕ × ℕ)
shrink zero threshold state = none
shrink (suc fuel) threshold state =
    let more =
      Option.map (λ (t : List ℕ × ℕ). ((state % 256) ∷ t.0, t.1))
        (shrink fuel threshold (state / 256)) in
    if leb threshold state then more else some ([], state)

abbrev pub shrink_fuel : ℕ
shrink_fuel = 5

-- WriteSymbol after its loop.
unfoldable pub put_symbol : RansSym → RansEncoder → List ℕ × ℕ → RansEncoder
put_symbol sym e (emitted, state) = record e {
  buf = e.buf ++ emitted;
  state = (state / sym.prob * e.precision + state % sym.prob + sym.cum_prob) % 2 ^ 32;
}

unfoldable pub write_symbol : RansSym → RansEncoder → Option RansEncoder
unfolding put_symbol
write_symbol sym e =
    Option.map (put_symbol sym e)
      (shrink shrink_fuel (e.l_base / e.precision * 256 * sym.prob % 2 ^ 32) e.state)

-- The state less its base, in as many bytes as its size asks for. Past 30 bits nothing is written.
unfoldable pub state_bytes : ℕ → List ℕ
state_bytes state =
    if ltb state (2 ^ 6)
    then state ∷ []
    else if ltb state (2 ^ 14)
    then (state % 256) ∷ bit_or (2 ^ 6) (bit_and (state / 2 ^ 8) 0x3f) ∷ []
    else if ltb state (2 ^ 22)
    then (state % 256)
      ∷ (state / 2 ^ 8 % 256)
      ∷ bit_or (2 * 2 ^ 6) (bit_and (state / 2 ^ 16) 0x3f)
      ∷ []
    else if ltb state (2 ^ 30)
    then (state % 256)
      ∷ (state / 2 ^ 8 % 256)
      ∷ (state / 2 ^ 16 % 256)
      ∷ bit_or (3 * 2 ^ 6) (bit_and (state / 2 ^ 24) 0x3f)
      ∷ []
    else []

unfoldable pub bytes : RansEncoder → List ℕ
unfolding state_bytes
bytes e = e.buf ++ state_bytes ((e.state + 2 ^ 32 - e.l_base) % 2 ^ 32)

-- The loop of the callers, `for i := len(symbols) - 1; i >= 0; i-- { e.WriteSymbol(table[symbols[i]]) }`.
unfoldable pub write_symbols : List RansSym → List ℕ → RansEncoder → Option RansEncoder
write_symbols table [] e = some e
write_symbols table (s ∷ ss) e =
    Option.bind (write_symbols table ss e) (write_symbol (get_or table s zero_sym))
