-- ===== src/Entropy/Rans/Step.antt =====
-- One symbol, ReadSymbol against WriteSymbol.
use go_draco.Common.Bits.{bit_and_mask}
use go_draco.Entropy.Rans.Renormalise.{shrink_ends, shrink_bounds, refill-shrink, refill_stop}
use go_draco.Common.{
  ℕ, ◌+◌, ◌-◌, ◌*◌, ◌/◌, ◌%◌, ◌^◌, ◌≤◌, ◌<◌, ◌≡◌, ◌∙◌, inl, inr, List, ◌++◌, some, length, get_or,
  arith, bit_and, append_assoc, length-append,
}
use go_draco.Entropy.RansDecoder.{RansSym, zero_sym, RansDecoder, refill, read_symbol}
use go_draco.Entropy.RansEncoder.{RansEncoder, write_symbol, put_symbol, shrink, shrink_fuel}
use native.Mathlib.Nat.{
  mul-le-mul_right, mod-eq_of_lt, mod-lt, div-add-mod', div-lt_iff_lt-mul, mul-add-div_right,
  mul-add-mod_self_right, div-eq_of_lt, add-zero, add_assoc, mul-div_cancel_left,
}

-- A symbol with a share of the 2^bits slots.
pub record HasShare (bits : ℕ) (sym : RansSym) : Type 0 where
  pub positive : 0 < sym.prob
  pub inside : sym.cum_prob + sym.prob ≤ 2 ^ bits

-- An encoder of that precision, its state in the coder's interval.
pub record EncoderReady (bits : ℕ) (e : RansEncoder) : Type 0 where
  pub precision_bits : e.precision ≡ 2 ^ bits
  pub base : e.l_base ≡ 2 ^ bits * 4
  pub low : 2 ^ bits * 4 ≤ e.state
  pub high : e.state < 2 ^ bits * 4 * 256

pub record DecoderReady (bits : ℕ) (d : RansDecoder) : Type 0 where
  pub shift_bits : d.shift ≡ bits
  pub mask_bits : d.mask ≡ 2 ^ bits - 1
  pub base : d.l_base ≡ 2 ^ bits * 4

pub DecoderReady-moved :
    (bits offset state : ℕ) (d : RansDecoder)
    → DecoderReady bits d
    → DecoderReady bits (record d { buf_offset = offset; state = state })
DecoderReady-moved bits offset state d r = record {
  shift_bits = r.shift_bits;
  mask_bits = r.mask_bits;
  base = r.base;
}

-- The decoder, once it has refilled, stands where the encoder stands.
pub record Tracks (e : RansEncoder) (d : RansDecoder) : Type 0 where
  pub more : List ℕ
  pub input : d.buf ≡ e.buf ++ more
  pub at : refill d.buf d.l_base d.buf_offset d.state ≡ (length e.buf, e.state)

-- The slots of `sym` are mapped to the symbol `s`, and `s` to `sym`.
pub record Owns (lut : List ℕ) (entries : List RansSym) (s : ℕ) (sym : RansSym) : Type 0 where
  pub slots : (rem : ℕ) → sym.cum_prob ≤ rem → rem < sym.cum_prob + sym.prob → get_or lut rem 0 ≡ s
  pub entry : get_or entries s zero_sym ≡ sym

below_top : (m q t : ℕ) → q < 1024 → t < m → q * m + t < m * 4 * 256
below_top m q t hq ht = omega (arith, mul-le-mul_right m hq)

-- The state after coding a symbol from the state `s`, and what the decoder sees of it.
module _ (m prob cum s : ℕ) (pos : 0 < prob) (inside : cum + prob ≤ m) (low : 4 * prob ≤ s)
    (high : s < 1024 * prob) where
  coded : ℕ
  coded = s / prob * m + s % prob + cum

  slot-lt : s % prob + cum < m
  slot-lt = omega (arith, mod-lt s pos)

  quotient_bounds : (4 ≤ s / prob) × (s / prob < 1024)
  quotient_bounds =
      (grind (arith, div-add-mod' s prob, mod-lt s pos), (div-lt_iff_lt-mul pos).1 high)

  coded_bounds : (m * 4 ≤ coded) × (coded < m * 4 * 256)
  unfolding coded
  coded_bounds =
      let (lo, hi) = quotient_bounds in
      (grind arith, grind (arith, slot-lt, below_top m (s / prob) (s % prob + cum) hi slot-lt))

  coded-div : coded / m ≡ s / prob
  unfolding coded
  coded-div = rw (
    add_assoc (s / prob * m) (s % prob) cum,
    mul-add-div_right {m = m} (omega (arith, slot-lt)) (s / prob) (s % prob + cum),
    div-eq_of_lt slot-lt,
    add-zero,
  )

  coded-mod : coded % m ≡ s % prob + cum
  unfolding coded
  coded-mod =
      rw
        (
          add_assoc (s / prob * m) (s % prob) cum,
          mul-add-mod_self_right (s / prob) m (s % prob + cum),
        )
        (mod-eq_of_lt slot-lt)

module _ (bits : ℕ) (small : 2 ^ bits ≤ 2 ^ 20) (e : RansEncoder) (r : EncoderReady bits e)
    (sym : RansSym) (h : HasShare bits sym) where
  threshold : e.l_base / e.precision * 256 * sym.prob % 2 ^ 32 ≡ 1024 * sym.prob
  threshold =
      rw
        (
          r.base,
          r.precision_bits,
          mul-div_cancel_left 4 {n = 2 ^ bits} (omega (arith, h.positive, h.inside)),
        )
        (mod-eq_of_lt (omega (arith, h.inside)) ∙ omega arith)

  -- WriteSymbol ends, with a state cut down to the interval of the symbol.
  pub write_symbol-ends :
      (t : List ℕ × ℕ) × (shrink shrink_fuel (1024 * sym.prob) e.state ≡ some t)
      × (write_symbol sym e ≡ some (put_symbol sym e t))
      × (4 * sym.prob ≤ t.1)
      × (t.1 < 1024 * sym.prob)
  unfolding write_symbol
  write_symbol-ends =
      let (t, ends) =
        shrink_ends 4 (1024 * sym.prob) e.state (omega (arith, h.positive))
          (omega (arith, r.high)) in
      let (lt, cut) = shrink_bounds 5 (1024 * sym.prob) e.state t ends in
      (
        t,
        ends,
        rw (threshold, ends),
        elim cut [ inl same ↦ omega (arith, r.low, h.inside) | inr big ↦ omega arith ],
        lt,
      )

  module _ (t : List ℕ × ℕ) (low : 4 * sym.prob ≤ t.1) (high : t.1 < 1024 * sym.prob) where
    put_symbol-state :
        (put_symbol sym e t).state
        ≡ coded (2 ^ bits) sym.prob sym.cum_prob t.1 h.positive h.inside low high
    unfolding put_symbol coded
    put_symbol-state =
        let (lo, hi) =
          coded_bounds (2 ^ bits) sym.prob sym.cum_prob t.1 h.positive h.inside low high in
        rw r.precision_bits (mod-eq_of_lt (omega (arith, hi)))

    pub put_symbol-EncoderReady : EncoderReady bits (put_symbol sym e t)
    unfolding put_symbol
    put_symbol-EncoderReady =
        let (lo, hi) =
          coded_bounds (2 ^ bits) sym.prob sym.cum_prob t.1 h.positive h.inside low high in
        record {
          precision_bits = r.precision_bits;
          base = r.base;
          low = rw put_symbol-state lo;
          high = rw put_symbol-state hi;
        }

    -- ReadSymbol, at what WriteSymbol left, returns the symbol and comes back to the state before.
    module _ (ends : shrink shrink_fuel (1024 * sym.prob) e.state ≡ some t) (d : RansDecoder)
        (dr : DecoderReady bits d) (s : ℕ) (o : Owns d.lut_table d.prob_table s sym)
        (k : Tracks (put_symbol sym e t) d) where
      slot : bit_and (put_symbol sym e t).state d.mask ≡ t.1 % sym.prob + sym.cum_prob
      slot =
          rw (dr.mask_bits, bit_and_mask bits (put_symbol sym e t).state, put_symbol-state)
            (coded-mod (2 ^ bits) sym.prob sym.cum_prob t.1 h.positive h.inside low high)

      quotient : (put_symbol sym e t).state / 2 ^ d.shift ≡ t.1 / sym.prob
      quotient =
          rw (dr.shift_bits, put_symbol-state)
            (coded-div (2 ^ bits) sym.prob sym.cum_prob t.1 h.positive h.inside low high)

      symbol : get_or d.lut_table (t.1 % sym.prob + sym.cum_prob) 0 ≡ s
      symbol = o.slots _ (omega arith) (omega (arith, mod-lt t.1 h.positive))

      uncoded :
          (t.1 / sym.prob * sym.prob + (t.1 % sym.prob + sym.cum_prob) + (2 ^ 32 - sym.cum_prob))
            % 2 ^ 32
          ≡ t.1
      uncoded = omega (arith, div-add-mod' t.1 sym.prob, h.inside, r.high)

      pub read_symbol-eq :
          read_symbol d
          ≡ (s, record d { buf_offset = length (put_symbol sym e t).buf; state = t.1 })
      unfolding read_symbol
      read_symbol-eq = rw (k.at, slot, quotient, symbol, o.entry, uncoded)

      input : d.buf ≡ e.buf ++ (t.0 ++ k.more)
      unfolding put_symbol
      input = k.input ∙ append_assoc e.buf t.0 k.more

      pub read_symbol-Tracks :
          Tracks e (record d { buf_offset = length (put_symbol sym e t).buf; state = t.1 })
      unfolding put_symbol
      read_symbol-Tracks = record {
        more = t.0 ++ k.more;
        input = input;
        at =
            rw (dr.base, input, length-append e.buf t.0)
              (refill-shrink shrink_fuel (1024 * sym.prob) (2 ^ bits * 4) e.state t e.buf k.more
                  (omega arith) r.high ends
                ∙ refill_stop (e.buf ++ (t.0 ++ k.more)) (2 ^ bits * 4) (length e.buf) e.state
                    r.low);
      }
