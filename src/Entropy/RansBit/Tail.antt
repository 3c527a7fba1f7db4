-- ===== src/Entropy/RansBit/Tail.antt =====
-- The final state of the rANS bit coder: init against end, in each of three sizes.
use go_draco.Common.{
  ℕ, ◌+◌, ◌-◌, ◌*◌, ◌/◌, ◌%◌, ◌^◌, ◌≤◌, ◌<◌, ◌≡◌, refl, inl, inr, false, Bool-cases, List, [], ◌∷◌,
  ◌++◌, none, length, get_or, length-append, arith, ltb, ltb→lt, lt→ltb, ge→ltb, lt→leb_false, ok,
  get_or-append_at,
}
use go_draco.Common.Bits.{bit_or_shifted, bit_and_mask}
use mathlib.Core.Path.{subst}
use go_draco.Entropy.RansBit.{RansBitWriter, RansBitDecoder, end, init, tail_state, refill}
use go_draco.Entropy.RansBit.Step.{InInterval, Tracks}

at_end :
    (pre bs : List ℕ) (j : ℕ)
    → j ≤ length bs
    → get_or (pre ++ bs) (length (pre ++ bs) - j) 0 ≡ get_or bs (length bs - j) 0
at_end pre bs j h =
    rw (length-append pre bs) (rw (← at) (get_or-append_at pre bs (length bs - j) 0))
  where
    at : length pre + (length bs - j) ≡ length pre + length bs - j
    at = omega arith

abbrev Recovers : List ℕ → ℕ → Type 0
Recovers bs x =
    (pre : List ℕ)
    → tail_state (pre ++ bs) (length (pre ++ bs))
        (get_or (pre ++ bs) (length (pre ++ bs) - 1) 0 / 2 ^ 6)
      ≡ ok (length pre, x)

one_byte : (x : ℕ) → x < 64 → Recovers (x ∷ []) x
unfolding tail_state
one_byte x h pre =
    let bs : List ℕ = x ∷ [] in
    rw (at_end pre bs 1 (omega arith), length-append pre bs, bit_and_mask 6 x) (ground arith)

two_bytes : (a b : ℕ) → a < 256 → b < 64 → Recovers (a ∷ (64 + b) ∷ []) (a + b * 256)
unfolding tail_state
two_bytes a b ha hb pre =
    let bs : List ℕ = a ∷ (64 + b) ∷ [] in
    rw
      (
        at_end pre bs 1 (omega arith),
        at_end pre bs 2 (omega arith),
        length-append pre bs,
        bit_or_shifted 8 a (64 + b) ha,
        bit_and_mask 14 (a + (64 + b) * 256),
      )
      (ground arith)

three_bytes :
    (a b c : ℕ)
    → a < 256
    → b < 256
    → c < 64
    → Recovers (a ∷ b ∷ (128 + c) ∷ []) (a + b * 256 + c * 65536)
unfolding tail_state
three_bytes a b c ha hb hc pre =
    let bs : List ℕ = a ∷ b ∷ (128 + c) ∷ [] in
    rw
      (
        at_end pre bs 1 (omega arith),
        at_end pre bs 2 (omega arith),
        at_end pre bs 3 (omega arith),
        length-append pre bs,
        bit_or_shifted 8 a b ha,
        bit_or_shifted 16 (a + b * 256) (128 + c) (omega arith),
        bit_and_mask 22 (a + b * 256 + (128 + c) * 65536),
      )
      (ground arith)

-- What init gives on the bytes of `w`.
abbrev pub started : ℕ → RansBitWriter → List ℕ → RansBitDecoder
started p0 w bs = record {
  prob_zero = p0;
  buf = bs;
  buf_offset = length w.buf;
  state = w.state;
  error = none;
}

-- end succeeds on a state in the interval, and init on its bytes is back at that state.
abbrev pub Ends : ℕ → RansBitWriter → Type 0
Ends p0 w =
    (tail : List ℕ) × (end w ≡ ok (w.buf ++ tail))
    × (1 ≤ length tail)
    × (length tail ≤ 3)
    × (init p0 (w.buf ++ tail) ≡ ok (started p0 w (w.buf ++ tail)))

module _ (p0 : ℕ) (w : RansBitWriter) (i : InInterval w) where
  recovered :
      (tail : List ℕ) (x : ℕ)
      → Recovers tail x
      → 1 ≤ length tail
      → x + 4096 ≡ w.state
      → init p0 (w.buf ++ tail) ≡ ok (started p0 w (w.buf ++ tail))
  unfolding init
  recovered tail x rec some_tail e =
      rw
        (
          ge→ltb (length (w.buf ++ tail)) 1 (omega (arith, length-append w.buf tail)),
          rec w.buf,
          e,
          lt→leb_false 1048576 w.state (i.1),
        )
        refl

  pub end-Ends : Ends p0 w
  unfolding end
  end-Ends =
      let x = w.state - 4096 in
      let back : x + 4096 ≡ w.state = omega (arith, i.0) in
      elim (Bool-cases (ltb x 64)) [
        | inl one ↦
            let small = ltb→lt x 64 one in
            let tail : List ℕ = x ∷ [] in
            rw one (
              tail,
              refl,
              omega arith,
              omega arith,
              recovered tail x (one_byte x small) (omega arith) back,
            )
        | inr more1 ↦ elim (Bool-cases (ltb x 16384)) [
          | inl two ↦
              let small = ltb→lt x 16384 two in
              let tail : List ℕ = (16384 + x) % 256 ∷ (16384 + x) / 256 % 256 ∷ [] in
              let top : (16384 + x) / 256 % 256 ≡ 64 + x / 256 = omega arith in
              rw (more1, two)
                (
                  tail,
                  refl,
                  omega arith,
                  omega arith,
                  recovered tail x
                      (rw top (
                        subst (Recovers ((16384 + x) % 256 ∷ (64 + x / 256) ∷ [])) (omega arith)
                          (two_bytes ((16384 + x) % 256) (x / 256) (omega arith) (omega arith))))
                      (omega arith) back,
                )
          | inr more2 ↦
              let small : x < 4194304 = omega (arith, i.1) in
              let tail : List ℕ =
                (8388608 + x) % 256
                ∷ (8388608 + x) / 256 % 256
                ∷ (8388608 + x) / 65536 % 256
                ∷ [] in
              let top : (8388608 + x) / 65536 % 256 ≡ 128 + x / 65536 = omega arith in
              rw (more1, more2, lt→ltb x 4194304 small)
                (
                  tail,
                  refl,
                  omega arith,
                  omega arith,
                  recovered tail x
                      (rw top (
                        subst
                          (Recovers (
                            (8388608 + x) % 256
                            ∷ (8388608 + x) / 256 % 256
                            ∷ (128 + x / 65536)
                            ∷ []))
                          (omega arith)
                          (three_bytes ((8388608 + x) % 256) ((8388608 + x) / 256 % 256) (x / 65536)
                            (omega arith) (omega arith) (omega arith))))
                      (omega arith) back,
                )
        ]
      ]

  pub started-Tracks : (tail : List ℕ) → Tracks w (started p0 w (w.buf ++ tail))
  unfolding refill
  started-Tracks tail = record {
    more = tail;
    input = refl;
    at_state = rw full refl;
    at_offset = rw full refl;
  }
    where
      full : ltb w.state 4096 ≡ false
      full = ge→ltb w.state 4096 i.0
