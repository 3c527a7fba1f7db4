-- ===== src/Entropy/Probabilities/Table.antt =====
-- The table that buildRansProbabilityTable returns.
use mathlib.Core.Path.{subst}
use go_draco.Entropy.Probabilities.Frequencies.{
  raised, sort_from-All, sum_mod-eq, valid_part-EndsNonzero, raised_positive, cumulate-shares,
  get_or-le-sum, descending-cons, length-sorted,
}
use go_draco.Entropy.Probabilities.Pass.{Covers, get_or-set-positive, normalise-ends}
use go_draco.Core.Fields.{pow_positive}
use go_draco.Entropy.ProbabilityTable.Laws.{EndsPositive}
use native.Mathlib.Nat.{pow-le-pow_right}
use go_draco.Common.Int.{pos_part, to_int32}
use go_draco.Entropy.Probabilities.Frequencies.{
  EndsNonzero, initial_bound, initial-positive, sum-valid_part, single-initial, length-valid_part,
  get_or-valid_part, sum-nil, length-map, last_of-All, small_int32, raised,
}
use go_draco.Entropy.Probabilities.Frequencies.{IsRounding}
use go_draco.Entropy.Rans.Lookup.{sum, shares}
use go_draco.Entropy.Probabilities.{
  FloatOps, valid_part, sorted, adjust, build_rans_probability_table, initial, last_of,
}
use go_draco.Common.{
  ℕ, suc, ◌+◌, ◌-◌, ◌%◌, ◌^◌, ◌≤◌, ◌<◌, ◌≡◌, ◌⊎◌, refl, sym, ◌∙◌, inl, inr, false, Bool-cases, List,
  [], ◌∷◌, length, All, get_or, length-set, arith, ltb, ◌==◌, ltb→lt, ltb→ge, ==_iff, ok, err,
  ne→==_false, eq→==, map, invalid_rans_normalization,
}

-- What the caller of buildRansProbabilityTable gets.
pub record IsTable (frequencies : List ℕ) (precision : ℕ) (ps : List ℕ) : Type 0 where
  pub total : sum ps ≡ precision
  pub count : length ps ≡ length (valid_part frequencies)
  pub positive : (s : ℕ) → 0 < get_or frequencies s 0 → 0 < get_or ps s 0

module _ (ops : FloatOps) (rounding : IsRounding ops) (bits : ℕ) (small : bits ≤ 20)
    (frequencies : List ℕ) (some_freq : 0 < sum frequencies) (short : length frequencies ≤ 2 ^ 20)
    (no_wrap : sum frequencies < 2 ^ 64) where
  abbrev first_shares : List ℕ
  first_shares = map (initial ops (2 ^ bits) (sum frequencies)) (valid_part frequencies)

  power : 2 ^ bits ≤ 2 ^ 20
  power = pow-le-pow_right {n = 2} (omega arith) {i = bits} {j = 20} small

  first_bound : sum first_shares < 2 ^ 23
  first_bound =
      initial_bound ops rounding (2 ^ bits) (sum frequencies) power some_freq
        (valid_part frequencies) (sum-valid_part frequencies)
        (omega (arith, length-valid_part frequencies, short))

  first-positive : (s : ℕ) → 0 < get_or frequencies s 0 → 0 < get_or first_shares s 0
  first-positive s h =
      initial-positive ops (2 ^ bits) (sum frequencies) (valid_part frequencies) s
        (rw (get_or-valid_part frequencies s) h)

  some_share : 0 < length first_shares
  some_share = elim (Bool-cases (ltb 0 (length first_shares))) [
    | inl h ↦ ltb→lt 0 _ h
    | inr h ↦ absurd (
        omega (
          arith,
          some_freq,
          sum-valid_part frequencies,
          sum-nil (valid_part frequencies) (
              omega (
                arith,
                ltb→ge 0 _ h,
                length-map (initial ops (2 ^ bits) (sum frequencies)) (valid_part frequencies),
              )),
        ))
  ]

  largest-lt : last_of (sorted first_shares) < length first_shares
  unfolding sorted
  largest-lt = last_of-All (length first_shares) (sorted first_shares) some_share (
      subst (λ m. All (λ j. j < m) (sorted first_shares)) (omega arith)
        (sort_from-All first_shares (length first_shares) 0))

  two_shares : (sum first_shares == 2 ^ bits) ≡ false → 1 < length first_shares
  two_shares other = elim (Bool-cases (ltb 1 (length first_shares))) [
    | inl h ↦ ltb→lt 1 _ h
    | inr h ↦ absurd (
        cc (
          sym other,
          eq→== _ _ (
              single-initial ops rounding (2 ^ bits) (sum frequencies) power some_freq
                (valid_part frequencies) (pow_positive bits) (sum-valid_part frequencies)
                (omega (
                  arith,
                  some_share,
                  ltb→ge 1 _ h,
                  length-map (initial ops (2 ^ bits) (sum frequencies)) (valid_part frequencies),
                ))),
        ))
  ]

  error-int32 : pos_part (to_int32 (sum first_shares - 2 ^ bits)) ≡ sum first_shares - 2 ^ bits
  error-int32 = small_int32 (sum first_shares - 2 ^ bits) (omega (arith, first_bound))

  adjust-ends :
      (adjust ops (2 ^ bits) first_shares (sum first_shares) ≡ err invalid_rans_normalization)
      ⊎ ((ps : List ℕ) × (adjust ops (2 ^ bits) first_shares (sum first_shares) ≡ ok ps)
          × (sum ps ≡ 2 ^ bits)
          × Covers first_shares ps)
  unfolding adjust
  adjust-ends = elim (Bool-cases (sum first_shares == 2 ^ bits)) [
    | inl same ↦ rw same (inr (first_shares, refl, (==_iff _ _).0 same, (refl, λ i h. h)))
    | inr other ↦ elim (Bool-cases (ltb (sum first_shares) (2 ^ bits))) [
      | inl below ↦
          rw (other, below)
            (inr (
              _,
              refl,
              raised first_shares (last_of (sorted first_shares)) (2 ^ bits) largest-lt
                  (ltb→lt _ _ below) (omega (arith, power)),
              (
                length-set first_shares _ _,
                λ i h.
                    get_or-set-positive first_shares _ _ i
                      (raised_positive (get_or first_shares (last_of (sorted first_shares)) 0)
                        (2 ^ bits - sum first_shares) (omega (arith, ltb→lt _ _ below))
                        (omega (
                          arith,
                          get_or-le-sum first_shares (last_of (sorted first_shares)),
                          ltb→lt _ _ below,
                          power,
                        )))
                      h,
              ),
            ))
      | inr above ↦
          let (id, ids, shape) =
            descending-cons (sorted first_shares)
              (rw (length-sorted first_shares) (two_shares other)) in
          rw (other, above, shape, error-int32)
            (normalise-ends ops (2 ^ bits) (sum first_shares - 2 ^ bits) id ids
              (record {
                probs = first_shares;
                total = sum first_shares;
                error = sum first_shares - 2 ^ bits;
              })
              (record { summed = refl; above = omega (arith, ltb→ge _ _ above) }) (omega arith))
    ]
  ]

  -- Frequencies of at most 2^20 symbols, not all zero, whose sum is a uint64, with a precision of at
  -- most 20 bits and float64 arithmetic that rounds as it should: buildRansProbabilityTable ends. It
  -- refuses the normalisation, or returns probabilities with their running sums that add up to the
  -- precision, go up to the last symbol that occurs, and are positive for each symbol that occurs.
  pub build_rans_probability_table-ends :
      (build_rans_probability_table ops frequencies bits ≡ err invalid_rans_normalization)
      ⊎ ((ps : List ℕ) × (build_rans_probability_table ops frequencies bits ≡ ok (shares 0 ps))
          × IsTable frequencies (2 ^ bits) ps)
  unfolding build_rans_probability_table
  build_rans_probability_table-ends =
      let precise : 2 ^ bits % 2 ^ 32 ≡ 2 ^ bits = omega (arith, power) in
      let freq = sum_mod-eq (2 ^ 64) frequencies no_wrap in
      let share = sum_mod-eq (2 ^ 32) first_shares (omega (arith, first_bound)) in
      let full : 0 < length (valid_part frequencies) = omega (
        arith,
        some_share,
        length-map (initial ops (2 ^ bits) (sum frequencies)) (valid_part frequencies),
      ) in
      rw
        (
          precise,
          freq,
          ne→==_false (sum frequencies) 0 (λ e. absurd (omega (arith, e, some_freq))),
          ne→==_false (length (valid_part frequencies)) 0 (λ e. absurd (omega (arith, e, full))),
          share,
        )
        (elim adjust-ends [
          | inl refused ↦ rw refused (inl refl)
          | inr (ps, ends, total, covers) ↦
              rw
                (
                  ends,
                  sum_mod-eq (2 ^ 32) ps (omega (arith, total, power)),
                  total,
                  eq→== (2 ^ bits) (2 ^ bits) refl,
                  cumulate-shares 0 ps (omega (arith, total, power)),
                )
                (inr (
                  ps,
                  refl,
                  record {
                    total = total;
                    count =
                        covers.0
                        ∙ length-map (initial ops (2 ^ bits) (sum frequencies))
                            (valid_part frequencies);
                    positive = λ s h. covers.1 s (first-positive s h);
                  },
                ))
        ])

EndsNonzero-covered :
    (c : ℕ) (fs ps : List ℕ)
    → EndsNonzero fs
    → length ps ≡ length fs
    → ((s : ℕ) → 0 < get_or fs s 0 → 0 < get_or ps s 0)
    → EndsPositive (shares c ps)
unfolding shares
EndsNonzero-covered c fs [] e same h = tt
EndsNonzero-covered c [] (p ∷ ps) e same h = absurd (omega (arith, same))
EndsNonzero-covered c (f ∷ []) (p ∷ []) e same h = h 0 e
EndsNonzero-covered c (f ∷ g ∷ fs) (p ∷ []) e same h = absurd (omega (arith, same))
EndsNonzero-covered c (f ∷ []) (p ∷ q ∷ ps) e same h = absurd (omega (arith, same))
EndsNonzero-covered c (f ∷ g ∷ fs) (p ∷ q ∷ ps) e same h =
    EndsNonzero-covered (c + p) (g ∷ fs) (q ∷ ps) e (omega (arith, same)) (λ s k. h (suc s) k)

-- Such a table can be written: its last entry is positive.
pub IsTable-EndsPositive :
    (frequencies : List ℕ) (precision : ℕ) (ps : List ℕ)
    → IsTable frequencies precision ps
    → EndsPositive (shares 0 ps)
IsTable-EndsPositive frequencies precision ps t =
    EndsNonzero-covered 0 (valid_part frequencies) ps (valid_part-EndsNonzero frequencies) t.count
      (λ s h. t.positive s (rw (← get_or-valid_part frequencies s) h))
