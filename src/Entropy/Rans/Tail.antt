-- ===== src/Entropy/Rans/Tail.antt =====
-- The final state of the rANS symbol coder: Init against Bytes, in each of four sizes.
use go_draco.Common.{
  ℕ, ◌+◌, ◌-◌, ◌*◌, ◌/◌, ◌%◌, ◌^◌, ◌≤◌, ◌<◌, ◌≡◌, refl, inl, inr, false, Bool-cases, List, [], ◌∷◌,
  ◌++◌, length, get_or, length-append, arith, ltb, leb, ltb→lt, lt→ltb, ge→ltb, lt→leb_false,
  bit_or, ok, get_or-append_at,
}
use mathlib.Core.Path.{subst}
use go_draco.Common.Bits.{bit_or_tag1, bit_or_tag2, bit_or_tag3, low_six, bit_or_shifted}
use go_draco.Entropy.RansDecoder.{tail_state, RansDecoder, init}
use go_draco.Entropy.RansEncoder.{RansEncoder, state_bytes, bytes}
use go_draco.Entropy.Rans.Step.{EncoderReady, DecoderReady, Tracks}
use go_draco.Entropy.Rans.Renormalise.{refill_stop}

at_end :
    (pre bs : List ℕ) (j : ℕ)
    → j ≤ length bs
    → get_or (pre ++ bs) (length (pre ++ bs) - j) 0 ≡ get_or bs (length bs - j) 0
at_end pre bs j h =
    rw (length-append pre bs) (rw (← at) (get_or-append_at pre bs (length bs - j) 0))
  where
    at : length pre + (length bs - j) ≡ length pre + length bs - j
    at = omega arith

abbrev Recovers : List ℕ → ℕ → Type 0
Recovers bs x =
    (pre : List ℕ)
    → tail_state (pre ++ bs) (length (pre ++ bs))
        (get_or (pre ++ bs) (length (pre ++ bs) - 1) 0 / 2 ^ 6)
      ≡ ok (length pre, x)

one_byte : (x : ℕ) → x < 64 → Recovers (x ∷ []) x
one_byte x h pre =
    let bs : List ℕ = x ∷ [] in
    rw (at_end pre bs 1 (omega arith), length-append pre bs, low_six x) (ground arith)

two_bytes : (a b : ℕ) → a < 256 → b < 64 → Recovers (a ∷ bit_or 64 b ∷ []) (a + b * 256)
two_bytes a b ha hb pre =
    let bs : List ℕ = a ∷ bit_or 64 b ∷ [] in
    rw
      (
        at_end pre bs 1 (omega arith),
        at_end pre bs 2 (omega arith),
        length-append pre bs,
        bit_or_tag1 b hb,
        low_six (64 + b),
      )
      (ground (arith, bit_or_shifted 8 a b))

three_bytes :
    (a b c : ℕ)
    → a < 256
    → b < 256
    → c < 64
    → Recovers (a ∷ b ∷ bit_or 128 c ∷ []) (a + b * 256 + c * 65536)
three_bytes a b c ha hb hc pre =
    let bs : List ℕ = a ∷ b ∷ bit_or 128 c ∷ [] in
    rw
      (
        at_end pre bs 1 (omega arith),
        at_end pre bs 2 (omega arith),
        at_end pre bs 3 (omega arith),
        length-append pre bs,
        bit_or_tag2 c hc,
        low_six (128 + c),
      )
      (ground (arith, bit_or_shifted 8 a b, bit_or_shifted 16 (a + b * 256) c))

four_bytes :
    (a b c d : ℕ)
    → a < 256
    → b < 256
    → c < 256
    → d < 64
    → Recovers (a ∷ b ∷ c ∷ bit_or 192 d ∷ []) (a + b * 256 + c * 65536 + d * 16777216)
four_bytes a b c d ha hb hc hd pre =
    let bs : List ℕ = a ∷ b ∷ c ∷ bit_or 192 d ∷ [] in
    rw
      (
        at_end pre bs 1 (omega arith),
        at_end pre bs 2 (omega arith),
        at_end pre bs 3 (omega arith),
        at_end pre bs 4 (omega arith),
        length-append pre bs,
        bit_or_tag3 d hd,
        low_six (192 + d),
      )
      (ground (
        arith,
        bit_or_shifted 8 a b,
        bit_or_shifted 16 (a + b * 256) c,
        bit_or_shifted 24 (a + b * 256 + c * 65536) d,
      ))

two_digits : (x : ℕ) → x < 16384 → x % 256 + x / 256 % 64 * 256 ≡ x
two_digits x h = omega arith

three_digits : (x : ℕ) → x < 4194304 → x % 256 + x / 256 % 256 * 256 + x / 65536 % 64 * 65536 ≡ x
three_digits x h = omega arith

four_digits :
    (x : ℕ)
    → x < 2 ^ 30
    → x % 256 + x / 256 % 256 * 256 + x / 65536 % 256 * 65536 + x / 16777216 % 64 * 16777216 ≡ x
four_digits x h = omega arith

-- The tail holds every state below 2^30.
state_bytes-Recovers : (x : ℕ) → x < 2 ^ 30 → Recovers (state_bytes x) x
unfolding state_bytes
state_bytes-Recovers x h = elim (Bool-cases (ltb x 64)) [
  | inl one ↦ rw one (one_byte x (ltb→lt _ _ one))
  | inr more1 ↦ elim (Bool-cases (ltb x 16384)) [
    | inl two ↦
        let lt : x < 16384 = ltb→lt _ _ two in
        rw (more1, two, low_six (x / 256))
          (subst (Recovers ((x % 256) ∷ bit_or 64 (x / 256 % 64) ∷ [])) (two_digits x lt)
            (two_bytes (x % 256) (x / 256 % 64) (omega arith) (omega arith)))
    | inr more2 ↦ elim (Bool-cases (ltb x 4194304)) [
      | inl three ↦
          let lt : x < 4194304 = ltb→lt _ _ three in
          rw (more1, more2, three, low_six (x / 65536))
            (subst (Recovers ((x % 256) ∷ (x / 256 % 256) ∷ bit_or 128 (x / 65536 % 64) ∷ []))
              (three_digits x lt)
              (three_bytes (x % 256) (x / 256 % 256) (x / 65536 % 64) (omega arith) (omega arith)
                (omega arith)))
      | inr four ↦
          rw (more1, more2, four, lt→ltb x 1073741824 h, low_six (x / 16777216))
            (subst
              (Recovers (
                (x % 256)
                ∷ (x / 256 % 256)
                ∷ (x / 65536 % 256)
                ∷ bit_or 192 (x / 16777216 % 64)
                ∷ []))
              (four_digits x h)
              (four_bytes (x % 256) (x / 256 % 256) (x / 65536 % 256) (x / 16777216 % 64)
                (omega arith) (omega arith) (omega arith) (omega arith)))
    ]
  ]
]

state_bytes-nonempty : (x : ℕ) → x < 2 ^ 30 → 1 ≤ length (state_bytes x)
unfolding state_bytes
state_bytes-nonempty x h = ground arith

-- What Init leaves where it succeeds.
abbrev pub started : RansEncoder → RansDecoder → RansDecoder
started e d = record d { buf = bytes e; buf_offset = length e.buf; state = e.state }

module _ (bits : ℕ) (small : 2 ^ bits ≤ 2 ^ 20) (e : RansEncoder) (r : EncoderReady bits e)
    (d : RansDecoder) (dr : DecoderReady bits d) where
  excess : ℕ
  excess = (e.state + 2 ^ 32 - e.l_base) % 2 ^ 32

  excess-eq : excess ≡ e.state - 2 ^ bits * 4
  unfolding excess
  excess-eq = rw r.base (omega (arith, r.low, r.high))

  excess-lt : excess < 2 ^ 30
  excess-lt = omega (arith, excess-eq, r.high)

  restored : (excess + d.l_base) % 2 ^ 32 ≡ e.state
  restored = rw dr.base (omega (arith, excess-eq, r.low, r.high))

  below_top : leb (d.l_base * 256 % 2 ^ 32) e.state ≡ false
  below_top =
      rw dr.base (lt→leb_false (2 ^ bits * 4 * 256 % 2 ^ 32) e.state (omega (arith, r.high)))

  -- Init on the bytes of a ready encoder succeeds, at the encoder's state.
  pub init-bytes : init (bytes e) d ≡ (ok tt, started e d)
  unfolding init bytes excess
  init-bytes = rw (
    ge→ltb (length (e.buf ++ state_bytes excess)) 1 (
        omega
          (arith, length-append e.buf (state_bytes excess), state_bytes-nonempty excess excess-lt)),
    state_bytes-Recovers excess excess-lt e.buf,
    restored,
    below_top,
  )

  pub started-Tracks : Tracks e (started e d)
  unfolding bytes excess
  started-Tracks = record {
    more = state_bytes excess;
    input = refl;
    at = rw dr.base (refill_stop _ _ _ _ r.low);
  }
