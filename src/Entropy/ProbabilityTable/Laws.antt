-- ===== src/Entropy/ProbabilityTable/Laws.antt =====
-- What createSymbolDecoder reads from a table that encodeRansProbabilityTable wrote.
use go_draco.Core.Varint.Laws.{decode-encode_var_uint32}
use go_draco.Core.Reader.Laws.{read_uint8-Reads}
use go_draco.Core.Reader.{read_uint8}
use go_draco.Core.Writer.{write_uint8}
use go_draco.Core.Varint.{decode_var_uint32, encode_var_uint32}
use mathlib.Core.Path.{subst, subst₂}
use go_draco.Core.Fields.{pow_positive, mod-pow_add}
use go_draco.Core.Writer.Laws.{write_uint8-Writes}
use go_draco.Core.Writer.Laws.{write_uint8-Writes}
use go_draco.Core.Fields.{pow_positive}
use go_draco.Core.Codec.{
  Writes, RoundTrip, Reads, Writes-nil, Writes-then, Reads-pure, Reads-map, Reads-bind,
  RoundTrip-then,
}
use native.Mathlib.Nat.{mod-eq_of_lt, mul-le-mul_right, mod-lt, suc-mul}
use go_draco.Common.Bits.{bit_and_mask, bit_or_low, bit_or_shifted}
use native.Mathlib.Nat.{pow-le-pow_right}
use go_draco.Entropy.RansDecoder.{RansSym}
use go_draco.Entropy.ProbabilityTable.{
  write_entries, read_extra, read_entries, encode_rans_probability_table,
}
use go_draco.Entropy.ProbabilityTable.{zero_run}
use go_draco.Entropy.ProbabilityTable.{write_probability}
use go_draco.Entropy.ProbabilityTable.{extra_bytes}
use go_draco.Entropy.ProbabilityTable.{write_extra}
use go_draco.Entropy.Symbols.{
  read_probabilities, guard_probability_scratch, max_decode_scratch_bytes,
}
use go_draco.Core.Reader.{Reader, AtHand, moved}
use go_draco.Common.{
  ℕ, zero, suc, ◌+◌, ◌-◌, ◌*◌, ◌/◌, ◌%◌, ◌^◌, ◌≤◌, ◌<◌, ◌≡◌, ◌⊎◌, refl, sym, ap, ◌∙◌, inl, inr,
  true, false, Bool-cases, List, [], ◌∷◌, ◌++◌, append_assoc, some, length, All, arith, ltb, ◌==◌,
  ltb→lt, ltb→ge, lt→ltb, ge→ltb, lt→leb_false, ==_iff, bit_and, bit_or, err, pure, bind_ok,
  probability_allocation, map,
}

byte_fits : (y s : ℕ) → s ≤ 14 → y % 256 * 2 ^ s < 2 ^ 32
byte_fits y s h = omega (
  arith,
  pow-le-pow_right {n = 2} (omega arith) {i = s} {j = 14} h,
  mul-le-mul_right (2 ^ s) (mod-lt y {m = 256} (omega arith)),
  suc-mul (y % 256) (2 ^ s),
  pow_positive s,
)

low_two : (n : ℕ) → n ≤ 2 → bit_and n 3 ≡ n
low_two n h = bit_and_mask 2 n ∙ mod-eq_of_lt (omega (arith, h))

extra_trip :
    (n b p : ℕ)
    → n + b ≤ 2
    → RoundTrip
        (write_extra n b p)
        (read_extra n b (p % 2 ^ (8 * b + 6)))
        (p % 2 ^ (8 * (b + n) + 6))
unfolding write_extra read_extra
extra_trip zero b p h = (
  [],
  Writes-nil,
  subst (Reads [] (pure (p % 2 ^ (8 * b + 6)))) (ap (λ k. p % 2 ^ k) (omega arith))
      (Reads-pure (p % 2 ^ (8 * b + 6))),
)
extra_trip (suc n) b p h =
    let byte = p / 2 ^ (8 * (b + 1) - 2) % 256 in
    let shift : 8 * (b + 1) - 2 ≡ 8 * b + 6 = omega arith in
    let value : bit_or (p % 2 ^ (8 * b + 6)) (byte * 2 ^ (8 * (b + 1) - 2) % 2 ^ 32)
        ≡ p % 2 ^ (8 * (b + 1) + 6) =
      rw (shift, mod-eq_of_lt (byte_fits (p / 2 ^ (8 * b + 6)) (8 * b + 6) (omega (arith, h))))
        (bit_or_shifted (8 * b + 6) (p % 2 ^ (8 * b + 6)) (p / 2 ^ (8 * b + 6) % 256)
            (mod-lt p (pow_positive (8 * b + 6)))
          ∙ sym (mod-pow_add (8 * b + 6) 8 p)
          ∙ ap (λ k. p % 2 ^ k) (omega arith)) in
    RoundTrip-then (write_uint8 byte) (write_extra n (b + 1) p) read_uint8 _ byte
      (p % 2 ^ (8 * (b + suc n) + 6)) (byte ∷ [], write_uint8-Writes byte, read_uint8-Reads byte)
      (subst₂ (λ v x. RoundTrip (write_extra n (b + 1) p) (read_extra n (b + 1) v) x) (sym value)
        (ap (λ k. p % 2 ^ k) (omega arith)) (extra_trip n (b + 1) p (omega (arith, h))))

extra_bytes-le : (p : ℕ) → extra_bytes p ≤ 2
unfolding extra_bytes
extra_bytes-le p = ground arith

extra_bytes-enough : (p : ℕ) → p < 2 ^ 22 → p % 2 ^ (8 * (0 + extra_bytes p) + 6) ≡ p
unfolding extra_bytes
extra_bytes-enough p h = elim (Bool-cases (ltb p (2 ^ 6))) [
  | inl one ↦ rw one (mod-eq_of_lt (ltb→lt p (2 ^ 6) one))
  | inr more ↦ elim (Bool-cases (ltb p (2 ^ 14))) [
    | inl two ↦ rw (more, two) (mod-eq_of_lt (ltb→lt p (2 ^ 14) two))
    | inr three ↦ rw (more, three) (mod-eq_of_lt h)
  ]
]

-- The bytes of one probability.
one_probability :
    (p : ℕ)
    → p < 2 ^ 22
    → (b : ℕ) × (bs : List ℕ) × Writes (b ∷ bs) (write_probability p)
      × ((bit_and b 3 == 3) ≡ false)
      × Reads bs (read_extra (bit_and b 3) 0 (b / 2 ^ 2)) p
unfolding write_probability
one_probability p h =
    let n = extra_bytes p in
    let few : n ≤ 2 = extra_bytes-le p in
    let b = bit_or (p * 4 % 2 ^ 32) (bit_and n 3) % 256 in
    let byte : b ≡ (n + p * 4) % 256 =
      rw
        (
          low_two n few,
          mod-eq_of_lt {n = p * 4} {m = 2 ^ 32} (omega (arith, h)),
          bit_or_low 2 n p (omega (arith, few)),
        )
        refl in
    let token : bit_and b 3 ≡ n = bit_and_mask 2 b ∙ omega (arith, byte, few) in
    let low : b / 2 ^ 2 ≡ p % 2 ^ 6 = omega (arith, byte, few) in
    let (bs, w, r) = extra_trip n 0 p (omega (arith, few)) in
    (
      b,
      bs,
      rw (lt→leb_false (2 ^ 22) p h) (Writes-then (b ∷ []) bs (write_uint8-Writes b) w),
      rw token (ground (arith, few)),
      subst₂ (λ k v. Reads bs (read_extra k 0 v) p) (sym token) (sym low)
          (subst (Reads bs (read_extra n 0 (p % 2 ^ 6))) (extra_bytes-enough p h) r),
    )

-- A run of zeros in the table, as the reader passes over it.
abbrev pub probs : List RansSym → List ℕ
probs table = map (λ s. s.prob) table

-- The first `n` entries are zeros.
abbrev StartsZero : ℕ → List RansSym → Type 0
StartsZero zero table = Unit {0}
StartsZero (suc n) [] = ⊥
StartsZero (suc n) (s ∷ table) = (s.prob ≡ 0) × StartsZero n table

-- The last entry is not zero, which holds of every table of a nonempty alphabet.
abbrev pub EndsPositive : List RansSym → Type 0
EndsPositive [] = Unit {0}
EndsPositive (s ∷ []) = 0 < s.prob
EndsPositive (s ∷ t ∷ table) = EndsPositive (t ∷ table)

rest_full :
    (s : RansSym) (table : List RansSym) → EndsPositive (s ∷ table) → s.prob ≡ 0 → 0 < length table
rest_full s [] h z = absurd (omega (arith, h, z))
rest_full s (t ∷ table) h z = omega arith

zero_run-finds :
    (n : ℕ) (table : List RansSym)
    → EndsPositive table
    → 0 < length table
    → (k : ℕ) × (zero_run n table ≡ some k) × (k ≤ n) × (k < length table) × StartsZero k table
unfolding zero_run
zero_run-finds zero table h full = (0, refl, omega arith, full, tt)
zero_run-finds (suc n) [] h full = absurd (omega arith)
zero_run-finds (suc n) (s ∷ []) h full = rw (lt→ltb 0 s.prob h) (0, refl, omega arith, full, tt)
zero_run-finds (suc n) (s ∷ t ∷ table) h full = elim (Bool-cases (ltb 0 s.prob)) [
  | inl positive ↦ rw positive (0, refl, omega arith, full, tt)
  | inr z ↦
      let (k, found, le, lt, all) = zero_run-finds n (t ∷ table) h (omega arith) in
      rw (z, found)
        (suc k, refl, omega (arith, le), omega (arith, lt), (omega (arith, ltb→ge 0 s.prob z), all))
]

EndsPositive-tail :
    (s : RansSym) (table : List RansSym) → EndsPositive (s ∷ table) → EndsPositive table
EndsPositive-tail s [] h = tt
EndsPositive-tail s (t ∷ table) h = h

-- The byte of a run.
run_byte : (k : ℕ) → k ≤ 63 → bit_or (k * 4) 3 % 256 ≡ 3 + k * 4
run_byte k h = rw (bit_or_low 2 3 k (omega arith)) (mod-eq_of_lt (omega (arith, h)))

entries_trip :
    (table : List RansSym) (skip : ℕ)
    → EndsPositive table
    → All (λ s. s.prob < 2 ^ 22) table
    → StartsZero skip table
    → RoundTrip (write_entries skip table) (read_entries (length table) skip) (probs table)
unfolding write_entries read_entries
entries_trip [] skip e small z = ([], Writes-nil, Reads-pure [])
entries_trip (s ∷ table) (suc skip) e (p, ps) (z, zs) =
    let (bs, w, r) = entries_trip table skip (EndsPositive-tail s table e) ps zs in
    (
      bs,
      w,
      Reads-map bs (read_entries (length table) skip) _ (probs table) (s.prob ∷ probs table) r
          (λ t. rw z refl),
    )
entries_trip (s ∷ table) zero e (p, ps) z = elim (Bool-cases (s.prob == 0)) [
  | inr positive ↦
      let (b, bs, w, token, r) = one_probability s.prob p in
      let (cs, w', r') = entries_trip table 0 (EndsPositive-tail s table e) ps tt in
      rw positive (
        (b ∷ bs) ++ cs,
        Writes-then (b ∷ bs) cs w w',
        Reads-bind (b ∷ []) (bs ++ cs) read_uint8 _ b (s.prob ∷ probs table) (read_uint8-Reads b) (
            rw token (
              Reads-bind bs cs (read_extra (bit_and b 3) 0 (b / 2 ^ 2)) _ s.prob
                (s.prob ∷ probs table) r
                (Reads-map cs (read_entries (length table) 0) _ (probs table) (s.prob ∷ probs table)
                  r' (λ t. refl)))),
      )
  | inl none_here ↦
      let nothing : s.prob ≡ 0 = (==_iff s.prob 0).0 none_here in
      let (k, found, le, lt, all) =
        zero_run-finds 63 table (EndsPositive-tail s table e) (rest_full s table e nothing) in
      let (cs, w', r') = entries_trip table k (EndsPositive-tail s table e) ps all in
      let b = bit_or (k * 4) 3 % 256 in
      let token : bit_and b 3 ≡ 3 = bit_and_mask 2 b ∙ omega (arith, run_byte k le) in
      let offset : b / 2 ^ 2 ≡ k = omega (arith, run_byte k le) in
      rw (none_here, found)
        (
          (b ∷ []) ++ cs,
          Writes-then (b ∷ []) cs (write_uint8-Writes b) w',
          Reads-bind (b ∷ []) cs read_uint8 _ b (s.prob ∷ probs table) (read_uint8-Reads b) (
              rw (token, offset, lt→leb_false (suc (length table)) k (omega (arith, lt)))
                (Reads-map cs (read_entries (length table) k) _ (probs table) (s.prob ∷ probs table)
                  r' (λ t. rw nothing refl))),
        )
]

-- The bytes of the table, of which the reader takes the count and then fails.
abbrev pub IsOversized : List RansSym → Type 0
IsOversized table =
    (2 ^ 27 < length table)
    × (bs : List ℕ) × Writes bs (encode_rans_probability_table table)
    × ((r : Reader) (rest : List ℕ)
        → AtHand bs rest r
        → (r' : Reader) × (read_probabilities false r ≡ (err probability_allocation, r')))

module _ (table : List RansSym) (short : length table < 2 ^ 32) (e : EndsPositive table)
    (small : All (λ s. s.prob < 2 ^ 22) table) where
  -- The count before the table.
  counted : RoundTrip (encode_var_uint32 (length table % 2 ^ 32)) decode_var_uint32 (length table)
  counted =
      subst (λ n. RoundTrip (encode_var_uint32 n) decode_var_uint32 (length table))
        (sym (mod-eq_of_lt short)) (decode-encode_var_uint32 (length table) short)

  -- A slice that the guard allows is filled with the probabilities.
  pub probabilities_trip :
      length table ≤ 2 ^ 27
      → RoundTrip (encode_rans_probability_table table) (read_probabilities false) (probs table)
  unfolding encode_rans_probability_table read_probabilities guard_probability_scratch
  probabilities_trip few =
      let allowed : ltb max_decode_scratch_bytes (length table * 4) ≡ false =
        ge→ltb _ _ (omega (arith, few)) in
      RoundTrip-then (encode_var_uint32 (length table % 2 ^ 32)) _ decode_var_uint32 _
        (length table) (probs table) counted (rw allowed (entries_trip table 0 e small tt))

  oversized : 2 ^ 27 < length table → IsOversized table
  unfolding encode_rans_probability_table read_probabilities guard_probability_scratch
  oversized many =
      let refused : ltb max_decode_scratch_bytes (length table * 4) ≡ true =
        lt→ltb _ _ (omega (arith, many)) in
      let (lbs, lw, lr) = counted in
      let (ebs, ew, er) = entries_trip table 0 e small tt in
      (
        many,
        lbs ++ ebs,
        Writes-then lbs ebs lw ew,
        λ r rest (v, h). (
          moved (length lbs) r,
          bind_ok decode_var_uint32 _ r (lr r (ebs ++ rest) (v, h ∙ append_assoc lbs ebs rest))
              ∙ rw refused,
        ),
      )

  -- A table of 32-bit length whose probabilities are below 2^22 and whose last one is not zero is
  -- written without an error. If it has at most 2^27 entries, createSymbolDecoder reads its probabilities
  -- back from exactly the bytes that were written, whatever follows them. If it has more, its guard
  -- on the allocation refuses the count in front of them.
  pub read_probabilities-encode_rans_probability_table :
      ((length table ≤ 2 ^ 27)
        × RoundTrip (encode_rans_probability_table table) (read_probabilities false) (probs table))
      ⊎ IsOversized table
  read_probabilities-encode_rans_probability_table =
      elim (Bool-cases (ltb (2 ^ 27) (length table))) [
        | inl many ↦ inr (oversized (ltb→lt (2 ^ 27) (length table) many))
        | inr few ↦
            let bound = ltb→ge (2 ^ 27) (length table) few in inl (bound, probabilities_trip bound)
      ]
