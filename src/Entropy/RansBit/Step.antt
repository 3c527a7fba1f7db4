-- ===== src/Entropy/RansBit/Step.antt =====
-- One bit of the rANS bit coder, read against write.
use native.Mathlib.Nat.{mod-lt, div-lt_iff_lt-mul, add-zero, mul-add}
use native.Mathlib.Nat.{div-add-mod'}
use go_draco.Common.{
  ℕ, ◌+◌, ◌-◌, ◌*◌, ◌/◌, ◌%◌, ◌^◌, ◌≤◌, ◌<◌, ◌≡◌, refl, sym, ap, ◌∙◌, inl, inr, Bool, true, false,
  Bool-cases, List, [], ◌∷◌, ◌++◌, append_assoc, length, get_or, length-append, arith, ltb, leb,
  lt→ltb, ge→ltb, get_or-append_at,
}
use go_draco.Entropy.RansBit.{RansBitWriter, RansBitDecoder, emit, refill, write, bool_to_bit, read}

refill-buf : (d : RansBitDecoder) → (refill d).buf ≡ d.buf
unfolding refill
refill-buf d = ground arith

-- The writer's state is in the coder's interval.
abbrev pub InInterval : RansBitWriter → Type 0
InInterval w = (4096 ≤ w.state) × (w.state < 2 ^ 20)

-- The share of a bit out of 256.
abbrev pub share_of : Bool → ℕ → ℕ
share_of true p0 = 256 - p0
share_of false p0 = p0

-- The decoder, once it has refilled, stands where the writer stands.
pub record Tracks (w : RansBitWriter) (d : RansBitDecoder) : Type 0 where
  pub more : List ℕ
  pub input : d.buf ≡ w.buf ++ more
  pub at_state : (refill d).state ≡ w.state
  pub at_offset : (refill d).buf_offset ≡ length w.buf

-- The state after coding a bit with the share `l`, whose slots begin at `base`.
module _ (l base s : ℕ) (pos : 0 < l) (inside : base + l ≤ 256) (low : 16 * l ≤ s)
    (high : s < 4096 * l) where
  coded : ℕ
  coded = s / l * 256 + s % l + base

  quotient_bounds : (16 ≤ s / l) × (s / l < 4096)
  quotient_bounds = (grind (arith, div-add-mod' s l, mod-lt s pos), (div-lt_iff_lt-mul pos).1 high)

  coded_bounds : (4096 ≤ coded) × (coded < 2 ^ 20)
  unfolding coded
  coded_bounds = (omega (arith, quotient_bounds.0), omega (arith, quotient_bounds.1, mod-lt s pos))

  coded-div : coded / 256 ≡ s / l
  unfolding coded
  coded-div = omega (arith, mod-lt s pos)

  coded-mod : coded % 256 ≡ s % l + base
  unfolding coded
  coded-mod = omega (arith, mod-lt s pos)

module _ (w : RansBitWriter) (i : InInterval w) (l : ℕ) (pos : 0 < l) (small : l < 256) where
  -- After emit, the state is low enough to code a bit of that share.
  emit_bounds : (16 * l ≤ (emit l w).state) × ((emit l w).state < 4096 * l)
  unfolding emit
  emit_bounds = ground (arith, i.0, i.1)

  -- A decoder that has the state after emit refills to the state before it.
  refill-emit :
      (d : RansBitDecoder) (more : List ℕ)
      → d.buf ≡ (emit l w).buf ++ more
      → d.state ≡ (emit l w).state
      → d.buf_offset ≡ length (emit l w).buf
      → Tracks w d
  unfolding emit refill
  refill-emit d more b s o = elim (Bool-cases (leb (4096 * l) w.state)) [
    | inr kept ↦
        let s' : d.state ≡ w.state = rw kept at s in
        let full : ltb d.state 4096 ≡ false = ge→ltb d.state 4096 (omega (arith, s', i.0)) in
        record {
          more = more;
          input = rw kept at b;
          at_state = rw full s';
          at_offset = rw full (rw kept at o);
        }
    | inl emitted ↦
        let b' : d.buf ≡ (w.buf ++ (w.state % 256 ∷ [])) ++ more = rw emitted at b in
        let s' : d.state ≡ w.state / 256 = rw emitted at s in
        let o' : d.buf_offset ≡ length w.buf + 1 =
          (rw emitted at o) ∙ length-append w.buf (w.state % 256 ∷ []) in
        let input : d.buf ≡ w.buf ++ (w.state % 256 ∷ more) =
          b' ∙ append_assoc w.buf (w.state % 256 ∷ []) more in
        let low : ltb d.state 4096 ≡ true = lt→ltb d.state 4096 (omega (arith, s', i.1)) in
        let some_left : ltb 0 d.buf_offset ≡ true = lt→ltb 0 d.buf_offset (omega (arith, o')) in
        let back : d.buf_offset - 1 ≡ length w.buf = omega (arith, o') in
        let byte : get_or d.buf (d.buf_offset - 1) 0 ≡ w.state % 256 =
          rw (back, input)
            (rw (add-zero (length w.buf)) at (get_or-append_at w.buf (w.state % 256 ∷ more) 0 0)) in
        record {
          more = w.state % 256 ∷ more;
          input = input;
          at_state = rw (low, some_left, byte) (omega (arith, s'));
          at_offset = rw (low, some_left) back;
        }
  ]

split : (q p : ℕ) → p < 256 → q * (256 - p) + q * p ≡ q * 256
split q p h = sym (mul-add q (256 - p) p) ∙ ap (λ x. q * x) (omega arith)

-- A decoder whose refilled state is that of a coded bit reads the bit and is left with the state
-- before it.
module _ (p0 : ℕ) (pos : 0 < p0) (small : p0 < 256) (d : RansBitDecoder) (s : ℕ) where
  read-one :
      16 * (256 - p0) ≤ s
      → s < 4096 * (256 - p0)
      → (refill d).state ≡ s / (256 - p0) * 256 + s % (256 - p0)
      → read p0 d ≡ (1, record (refill d) { state = s })
  unfolding read coded
  read-one low high at =
      let l = 256 - p0 in
      let q = coded-div l 0 s (omega arith) (omega arith) low high in
      let r = coded-mod l 0 s (omega arith) (omega arith) low high in
      let lt = mod-lt s {m = l} (omega arith) in
      let q' : (refill d).state / 256 ≡ s / l = rw at (omega (arith, q)) in
      let r' : (refill d).state % 256 ≡ s % l = rw at (omega (arith, r)) in
      rw (q', r', lt→ltb (s % l) l lt) (rw (div-add-mod' s l) refl)

  read-zero :
      16 * p0 ≤ s
      → s < 4096 * p0
      → (refill d).state ≡ s / p0 * 256 + s % p0 + (256 - p0)
      → read p0 d ≡ (0, record (refill d) { state = s })
  unfolding read coded
  read-zero low high at =
      let q = coded-div p0 (256 - p0) s pos (omega arith) low high in
      let r = coded-mod p0 (256 - p0) s pos (omega arith) low high in
      let q' : (refill d).state / 256 ≡ s / p0 = ap (λ x. x / 256) at ∙ q in
      let r' : (refill d).state % 256 ≡ s % p0 + (256 - p0) = ap (λ x. x % 256) at ∙ r in
      let back : (refill d).state - s / p0 * (256 - p0) - (256 - p0) ≡ s =
        omega (arith, at, split (s / p0) p0 small, div-add-mod' s p0) in
      rw (q', r', ge→ltb (s % p0 + (256 - p0)) (256 - p0) (omega arith), back) refl

module _ (p0 : ℕ) (pos : 0 < p0) (small : p0 < 256) (w : RansBitWriter) (i : InInterval w) where
  pub write-InInterval : (bit : Bool) → InInterval (write (bool_to_bit bit) p0 w)
  unfolding write coded bool_to_bit
  write-InInterval true =
      let (lo, hi) = emit_bounds w i (256 - p0) (omega arith) (omega arith) in
      let b =
        coded_bounds (256 - p0) 0 (emit (256 - p0) w).state (omega arith) (omega arith) lo hi in
      (omega (arith, b.0), omega (arith, b.1))
  write-InInterval false =
      let (lo, hi) = emit_bounds w i p0 pos small in
      coded_bounds p0 (256 - p0) (emit p0 w).state pos (omega arith) lo hi

  -- read returns the bit that was written last, and then tracks the writer before that bit.
  pub read-write :
      (bit : Bool) (d : RansBitDecoder)
      → Tracks (write (bool_to_bit bit) p0 w) d
      → ((read p0 d).0 ≡ bool_to_bit bit)
        × ((read p0 d).1.state ≡ (emit (share_of bit p0) w).state)
        × Tracks w (read p0 d).1
  unfolding write bool_to_bit
  read-write true d t =
      let l = 256 - p0 in
      let (lo, hi) = emit_bounds w i l (omega arith) (omega arith) in
      let eq = read-one p0 pos small d (emit l w).state lo hi t.at_state in
      rw eq (
        refl,
        refl,
        refill-emit w i l (omega arith) (omega arith) _ t.more (refill-buf d ∙ t.input) refl
            t.at_offset,
      )
  read-write false d t =
      let (lo, hi) = emit_bounds w i p0 pos small in
      let eq = read-zero p0 pos small d (emit p0 w).state lo hi t.at_state in
      rw eq (
        refl,
        refl,
        refill-emit w i p0 pos small _ t.more (refill-buf d ∙ t.input) refl t.at_offset,
      )

  pub length-write : (bit : Bool) → length (write (bool_to_bit bit) p0 w).buf ≤ length w.buf + 1
  unfolding write emit bool_to_bit
  length-write true = ground (arith, length-append w.buf (w.state % 256 ∷ []))
  length-write false = ground (arith, length-append w.buf (w.state % 256 ∷ []))

-- Reading keeps the probability and the error.
pub read-keeps :
    (p0 : ℕ) (d : RansBitDecoder)
    → ((read p0 d).1.prob_zero ≡ d.prob_zero) × ((read p0 d).1.error ≡ d.error)
unfolding read refill
read-keeps p0 d = ground arith
