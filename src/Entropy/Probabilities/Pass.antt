-- ===== src/Entropy/Probabilities/Pass.antt =====
-- The inner loop of the normalisation and the loop around it.
use go_draco.Entropy.Probabilities.{FloatOps, fix_for, pass, normalise}
use go_draco.Entropy.Rans.Lookup.{sum}
use go_draco.Entropy.Probabilities.{Normalising}
use go_draco.Common.{
  ℕ, zero, suc, ◌+◌, ◌-◌, ◌≤◌, ◌<◌, ◌≡◌, ◌⊎◌, refl, ◌∙◌, inl, inr, true, false, Bool-cases, List,
  [], ◌∷◌, length, get_or, set, length-set, arith, leb, ◌==◌, ==_iff, ok, err, leb→gt, eq→==,
  invalid_rans_normalization,
}

-- What both loops keep: the total is the sum, and it is above the precision by the error.
pub record Balanced (precision : ℕ) (n : Normalising) : Type 0 where
  pub summed : n.total ≡ sum n.probs
  pub above : n.total ≡ precision + n.error

-- Positive where the first list is positive.
abbrev pub Covers : List ℕ → List ℕ → Type 0
Covers ps qs = (length qs ≡ length ps) × ((i : ℕ) → 0 < get_or ps i 0 → 0 < get_or qs i 0)

pub sum-set :
    (ps : List ℕ) (i v : ℕ) → i < length ps → sum (set ps i v) + get_or ps i 0 ≡ sum ps + v
unfolding sum
sum-set [] i v h = absurd (omega (arith, h))
sum-set (p ∷ ps) zero v h = omega arith
sum-set (p ∷ ps) (suc i) v h = omega (arith, sum-set ps i v (omega (arith, h)))

in_range : (ps : List ℕ) (i : ℕ) → 0 < get_or ps i 0 → i < length ps
in_range [] i h = absurd (omega (arith, h))
in_range (p ∷ ps) zero h = omega arith
in_range (p ∷ ps) (suc i) h = omega (arith, in_range ps i h)

pub get_or-set-positive :
    (ps : List ℕ) (j v i : ℕ) → 0 < v → 0 < get_or ps i 0 → 0 < get_or (set ps j v) i 0
get_or-set-positive [] j v i h k = k
get_or-set-positive (p ∷ ps) zero v zero h k = h
get_or-set-positive (p ∷ ps) zero v (suc i) h k = k
get_or-set-positive (p ∷ ps) (suc j) v zero h k = k
get_or-set-positive (p ∷ ps) (suc j) v (suc i) h k = get_or-set-positive ps j v i h k

module _ (ops : FloatOps) (precision : ℕ) where
  -- The fix is positive, leaves the probability positive and is at most the error.
  fix_for_bounds :
      (start p error : ℕ)
      → 1 < p
      → 0 < error
      → (0 < fix_for ops precision start p error)
        × (fix_for ops precision start p error < p)
        × (fix_for ops precision start p error ≤ error)
  unfolding fix_for
  fix_for_bounds start p error h k = ground arith

  -- What a round makes of the state.
  record Progress (n n' : Normalising) : Type 0 where
    balanced : Balanced precision n'
    covers : Covers n.probs n'.probs
    no_more : n'.error ≤ n.error

  Progress-refl : (n : Normalising) → Balanced precision n → Progress n n
  Progress-refl n b = record { balanced = b; covers = (refl, λ i h. h); no_more = omega arith }

  Progress-trans : (n m k : Normalising) → Progress n m → Progress m k → Progress n k
  Progress-trans n m k p q = record {
    balanced = q.balanced;
    covers = (q.covers.0 ∙ p.covers.0, λ i h. q.covers.1 i (p.covers.1 i h));
    no_more = omega (arith, p.no_more, q.no_more);
  }

  module _ (start id : ℕ) (n : Normalising) where
    abbrev fix : ℕ
    fix = fix_for ops precision start (get_or n.probs id 0) n.error

    abbrev after : Normalising
    after = record {
      probs = set n.probs id (get_or n.probs id 0 - fix);
      total = n.total - fix;
      error = n.error - fix;
    }

    after-Progress :
        Balanced precision n
        → 0 < n.error
        → 1 < get_or n.probs id 0
        → Progress n after × (after.error < n.error)
    after-Progress b e h =
        let (positive, below, most) = fix_for_bounds start (get_or n.probs id 0) n.error h e in
        let changed =
          sum-set n.probs id (get_or n.probs id 0 - fix) (in_range n.probs id (omega (arith, h))) in
        (
          record {
            balanced = record {
              summed = omega (arith, changed, b.summed, below);
              above = omega (arith, b.above, most);
            };
            covers = (
              length-set n.probs id _,
              λ i k. get_or-set-positive n.probs id _ i (omega (arith, below)) k,
            );
            no_more = omega arith;
          },
          omega (arith, positive, most),
        )

    -- Where the total is not the precision yet, some error is left.
    after_more : Balanced precision after → (after.total == precision) ≡ false → 0 < after.error
    after_more b more = ground (arith, b.above)

  later_passes :
      (start : ℕ) (ids : List ℕ) (n : Normalising)
      → Balanced precision n
      → 0 < n.error
      → (n' : Normalising) × (pass ops precision start false ids n ≡ ok n') × Progress n n'
  unfolding pass
  later_passes start [] n b e = (n, refl, Progress-refl n b)
  later_passes start (id ∷ ids) n b e = elim (Bool-cases (leb (get_or n.probs id 0) 1)) [
    | inl small ↦ rw small (n, refl, Progress-refl n b)
    | inr large ↦
        let (step, less) = after-Progress start id n b e (leb→gt (get_or n.probs id 0) 1 large) in
        elim (Bool-cases ((after start id n).total == precision)) [
          | inl done ↦ rw (large, done) (after start id n, refl, step)
          | inr more ↦
              let (n', ends, steps) =
                later_passes start ids (after start id n) step.balanced
                  (after_more start id n step.balanced more) in
              rw (large, more) (n', ends, Progress-trans n (after start id n) n' step steps)
        ]
  ]

  -- The loop over an alphabet of two or more symbols lowers the error or refuses the table.
  first_pass :
      (start id : ℕ) (ids : List ℕ) (n : Normalising)
      → Balanced precision n
      → 0 < n.error
      → (pass ops precision start true (id ∷ ids) n ≡ err invalid_rans_normalization)
        ⊎ ((n' : Normalising) × (pass ops precision start true (id ∷ ids) n ≡ ok n')
            × Progress n n'
            × (n'.error < n.error))
  unfolding pass
  first_pass start id ids n b e = elim (Bool-cases (leb (get_or n.probs id 0) 1)) [
    | inl small ↦ inl (rw small refl)
    | inr large ↦
        let (step, less) = after-Progress start id n b e (leb→gt (get_or n.probs id 0) 1 large) in
        elim (Bool-cases ((after start id n).total == precision)) [
          | inl done ↦ rw (large, done) (inr (after start id n, refl, step, less))
          | inr more ↦
              let (n', ends, steps) =
                later_passes start ids (after start id n) step.balanced
                  (after_more start id n step.balanced more) in
              rw (large, more)
                (inr (
                  n',
                  ends,
                  Progress-trans n (after start id n) n' step steps,
                  omega (arith, less, steps.no_more),
                ))
        ]
  ]

  -- As many rounds as the error are enough: the loop refuses the table, or ends with probabilities
  -- that add up to the precision and are positive where they were.
  pub normalise-ends :
      (fuel id : ℕ) (ids : List ℕ) (n : Normalising)
      → Balanced precision n
      → n.error ≤ fuel
      → (normalise ops precision fuel (id ∷ ids) n ≡ err invalid_rans_normalization)
        ⊎ ((ps : List ℕ) × (normalise ops precision fuel (id ∷ ids) n ≡ ok ps)
            × (sum ps ≡ precision)
            × Covers n.probs ps)
  unfolding normalise
  normalise-ends zero id ids n b h =
      rw (eq→== n.error 0 (omega (arith, h)))
        (inr (n.probs, refl, omega (arith, b.summed, b.above, h), (refl, λ i k. k)))
  normalise-ends (suc fuel) id ids n b h = elim (Bool-cases (n.error == 0)) [
    | inl done ↦ rw done (
        inr (
          n.probs,
          refl,
          omega (arith, b.summed, b.above, (==_iff n.error 0).0 done),
          (refl, λ i k. k),
        ))
    | inr more ↦ elim (first_pass n.total id ids n b (ground arith)) [
      | inl refused ↦ rw (more, refused) (inl refl)
      | inr (n', ends, step, less) ↦
          elim (normalise-ends fuel id ids n' step.balanced (omega (arith, less, h))) [
            | inl refused ↦ rw (more, ends, refused) (inl refl)
            | inr (ps, rest, total, covers) ↦
                rw (more, ends, rest)
                  (inr (
                    ps,
                    refl,
                    total,
                    (covers.0 ∙ step.covers.0, λ i k. covers.1 i (step.covers.1 i k)),
                  ))
          ]
    ]
  ]
