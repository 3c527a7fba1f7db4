-- ===== src/Entropy/Probabilities/Frequencies.antt =====
-- Frequencies, their first shares and the order of the symbols.
use go_draco.Common.Int.{pos_part, to_int32}
use go_draco.Entropy.Probabilities.Pass.{sum-set}
use mathlib.Core.Path.{subst}
use mathlib.Core.List.{reverse-cons}
use native.Mathlib.Nat.{mod-eq_of_lt, add-mul, mul-le-mul_right, suc-mul, mul_comm}
use go_draco.Entropy.Rans.Lookup.{shares}
use go_draco.Entropy.Rans.Lookup.{sum}
use go_draco.Entropy.Probabilities.{
  cumulate, initial, keep, insert_by, sort_from, last_of, descending, reverse, sorted,
}
use go_draco.Entropy.Probabilities.{sum_mod}
use go_draco.Entropy.Probabilities.{valid_part}
use go_draco.Entropy.Probabilities.{FloatOps}
use go_draco.Common.{
  ℕ, zero, suc, ◌+◌, ◌-◌, ◌*◌, ◌%◌, ◌^◌, ◌≤◌, ◌<◌, ◌≡◌, refl, sym, ap, inl, inr, Bool-cases, List,
  [], ◌∷◌, length, All, get_or, set, length-append, arith, ltb, ◌==◌, ltb→lt, ltb→ge, ==_iff,
  ne→==_false, map,
}

-- What float64 arithmetic gives: the share is off by less than one, and the share of the only
-- symbol is the precision.
pub record IsRounding (ops : FloatOps) : Type 0 where
  pub close :
      (freq total precision : ℕ)
      → freq ≤ total
      → precision ≤ 2 ^ 20
      → ops.share freq total precision * total ≤ freq * precision + total
  pub whole :
      (total precision : ℕ)
      → 0 < total
      → precision ≤ 2 ^ 20
      → ops.share total total precision ≡ precision

get_or-keep :
    (f : ℕ) (rs fs : List ℕ)
    → ((i : ℕ) → get_or rs i 0 ≡ get_or fs i 0)
    → (i : ℕ) → get_or (keep f rs) i 0 ≡ get_or (f ∷ fs) i 0
unfolding keep
get_or-keep f (r ∷ rs) fs h zero = refl
get_or-keep f (r ∷ rs) fs h (suc i) = h i
get_or-keep f [] fs h i = elim (Bool-cases (f == 0)) [
  | inl z ↦ rw z (none_left ((==_iff f 0).0 z) i)
  | inr positive ↦ rw positive (one_left i)
]
  where
    none_left : f ≡ 0 → (i : ℕ) → 0 ≡ get_or (f ∷ fs) i 0
    none_left z zero = sym z
    none_left z (suc i) = h i

    one_left : (i : ℕ) → get_or (f ∷ []) i 0 ≡ get_or (f ∷ fs) i 0
    one_left zero = refl
    one_left (suc i) = h i

pub get_or-valid_part : (fs : List ℕ) (i : ℕ) → get_or (valid_part fs) i 0 ≡ get_or fs i 0
unfolding valid_part
get_or-valid_part [] i = refl
get_or-valid_part (f ∷ fs) i = get_or-keep f (valid_part fs) fs (get_or-valid_part fs) i

pub sum-valid_part : (fs : List ℕ) → sum (valid_part fs) ≡ sum fs
unfolding valid_part sum
sum-valid_part [] = refl
sum-valid_part (f ∷ fs) = omega (arith, sum-keep f (valid_part fs), sum-valid_part fs)
  where
    sum-keep : (f : ℕ) (rs : List ℕ) → sum (keep f rs) ≡ f + sum rs
    sum-keep f [] = ground arith
    sum-keep f (r ∷ rs) = refl

pub length-valid_part : (fs : List ℕ) → length (valid_part fs) ≤ length fs
unfolding valid_part
length-valid_part [] = omega arith
length-valid_part (f ∷ fs) = omega (arith, length-keep f (valid_part fs), length-valid_part fs)
  where
    length-keep : (f : ℕ) (rs : List ℕ) → length (keep f rs) ≤ suc (length rs)
    length-keep f [] = ground arith
    length-keep f (r ∷ rs) = omega arith

-- The last frequency is positive.
abbrev pub EndsNonzero : List ℕ → Type 0
EndsNonzero [] = Unit {0}
EndsNonzero (f ∷ []) = 0 < f
EndsNonzero (f ∷ g ∷ fs) = EndsNonzero (g ∷ fs)

pub valid_part-EndsNonzero : (fs : List ℕ) → EndsNonzero (valid_part fs)
unfolding valid_part
valid_part-EndsNonzero [] = tt
valid_part-EndsNonzero (f ∷ fs) = keep-Ends f (valid_part fs) (valid_part-EndsNonzero fs)
  where
    keep-Ends : (f : ℕ) (rs : List ℕ) → EndsNonzero rs → EndsNonzero (keep f rs)
    keep-Ends f (r ∷ rs) h = h
    keep-Ends f [] h = elim (Bool-cases (f == 0)) [
      | inl z ↦ rw z tt
      | inr positive ↦ rw positive (ground arith)
    ]

pub sum_mod-eq : (limit : ℕ) (xs : List ℕ) → sum xs < limit → sum_mod limit xs ≡ sum xs
unfolding sum_mod sum
sum_mod-eq limit [] h = refl
sum_mod-eq limit (x ∷ xs) h =
    rw (sum_mod-eq limit xs (omega (arith, h))) (mod-eq_of_lt {n = x + sum xs} {m = limit} h)

pub cumulate-shares :
    (cum : ℕ) (ps : List ℕ) → cum + sum ps < 2 ^ 32 → cumulate cum ps ≡ shares cum ps
unfolding cumulate shares sum
cumulate-shares cum [] h = refl
cumulate-shares cum (p ∷ ps) h = rw (mod-eq_of_lt {n = cum + p} {m = 2 ^ 32} (omega (arith, h))) (
    ap (◌∷◌ (record { prob = p; cum_prob = cum }))
      (cumulate-shares (cum + p) ps (omega (arith, h))))

module _ (ops : FloatOps) (rounding : IsRounding ops) (precision total : ℕ)
    (small : precision ≤ 2 ^ 20) (some_freq : 0 < total) where
  initial-le : (f : ℕ) → initial ops precision total f ≤ ops.share f total precision + 1
  initial-le f = ground arith

  sum-initial :
      (fs : List ℕ)
      → sum fs ≤ total
      → sum (map (initial ops precision total) fs) * total
        ≤ sum fs * precision + length fs * (2 * total)
  unfolding sum
  sum-initial [] h = omega arith
  sum-initial (f ∷ fs) h =
      let this = mul-le-mul_right total (initial-le f) in
      omega (
        arith,
        sum-initial fs (omega (arith, h)),
        rounding.close f total precision (omega (arith, h)) small,
        this,
        add-mul (ops.share f total precision) 1 total,
        add-mul (initial ops precision total f) (sum (map (initial ops precision total) fs)) total,
        add-mul f (sum fs) precision,
        suc-mul (length fs) (2 * total),
      )

  -- So the sum of the first shares does not wrap.
  pub initial_bound :
      (fs : List ℕ)
      → sum fs ≡ total
      → length fs ≤ 2 ^ 20
      → sum (map (initial ops precision total) fs) < 2 ^ 23
  initial_bound fs h short =
      let s = sum (map (initial ops precision total) fs) in
      let close : s * total ≤ 2 ^ 20 * total + 2 ^ 20 * (2 * total) = omega (
        arith,
        sum-initial fs (omega (arith, h)),
        mul_comm (sum fs) precision,
        ap (λ x. precision * x) h,
        mul-le-mul_right total small,
        mul-le-mul_right (2 * total) short,
      ) in
      elim (Bool-cases (ltb s (2 ^ 23))) [
        | inl below ↦ ltb→lt s (2 ^ 23) below
        | inr above ↦
            absurd
              (omega (arith, close, some_freq, mul-le-mul_right total (ltb→ge s (2 ^ 23) above)))
      ]

pub initial-positive :
    (ops : FloatOps) (precision total : ℕ) (fs : List ℕ) (i : ℕ)
    → 0 < get_or fs i 0
    → 0 < get_or (map (initial ops precision total) fs) i 0
initial-positive ops precision total [] i h = h
initial-positive ops precision total (f ∷ fs) zero h = ground arith
initial-positive ops precision total (f ∷ fs) (suc i) h =
    initial-positive ops precision total fs i h

pub length-map : (g : ℕ → ℕ) (xs : List ℕ) → length (map g xs) ≡ length xs
length-map g [] = refl
length-map g (x ∷ xs) = ap suc (length-map g xs)

-- The sorted indices.
length-insert_by :
    (ps : List ℕ) (i : ℕ) (js : List ℕ) → length (insert_by ps i js) ≡ suc (length js)
unfolding insert_by
length-insert_by ps i [] = refl
length-insert_by ps i (j ∷ js) = ground (arith, length-insert_by ps i js)

length-sort_from : (ps : List ℕ) (n i : ℕ) → length (sort_from ps n i) ≡ n
unfolding sort_from
length-sort_from ps zero i = refl
length-sort_from ps (suc n) i =
    omega (arith, length-insert_by ps i (sort_from ps n (i + 1)), length-sort_from ps n (i + 1))

insert_by-All :
    (ps : List ℕ) (m i : ℕ) (js : List ℕ)
    → i < m
    → All (λ j. j < m) js
    → All (λ j. j < m) (insert_by ps i js)
unfolding insert_by
insert_by-All ps m i [] h k = (h, tt)
insert_by-All ps m i (j ∷ js) h (k, ks) = elim (Bool-cases (ltb (get_or ps j 0) (get_or ps i 0))) [
  | inl before ↦ rw before (k, insert_by-All ps m i js h ks)
  | inr here ↦ rw here (h, (k, ks))
]

pub sort_from-All : (ps : List ℕ) (n i : ℕ) → All (λ j. j < i + n) (sort_from ps n i)
unfolding sort_from
sort_from-All ps zero i = tt
sort_from-All ps (suc n) i = insert_by-All ps (i + suc n) i (sort_from ps n (i + 1)) (omega arith) (
    subst (λ m. All (λ j. j < m) (sort_from ps n (i + 1))) (omega arith)
      (sort_from-All ps n (i + 1)))

pub last_of-All : (m : ℕ) (js : List ℕ) → 0 < m → All (λ j. j < m) js → last_of js < m
last_of-All m [] h k = h
last_of-All m (j ∷ []) h (k, ks) = k
last_of-All m (i ∷ j ∷ js) h (k, ks) = last_of-All m (j ∷ js) h ks

pub nonempty : (xs : List ℕ) → 0 < length xs → (y : ℕ) × (ys : List ℕ) × (xs ≡ y ∷ ys)
nonempty [] h = absurd (omega (arith, h))
nonempty (x ∷ xs) h = (x, xs, refl)

-- Two or more symbols leave one to start with.
pub descending-cons :
    (js : List ℕ) → 1 < length js → (y : ℕ) × (ys : List ℕ) × (descending js ≡ y ∷ ys)
descending-cons [] h = absurd (omega (arith, h))
descending-cons (i ∷ []) h = absurd (omega (arith, h))
descending-cons (i ∷ j ∷ js) h =
    nonempty (reverse (j ∷ js))
      (rw (reverse-cons j js) (omega (arith, length-append (reverse js) (j ∷ []))))

pub sum-nil : (fs : List ℕ) → length fs ≡ 0 → sum fs ≡ 0
unfolding sum
sum-nil [] h = refl
sum-nil (f ∷ fs) h = absurd (omega (arith, h))

pub small_int32 : (x : ℕ) → x < 2 ^ 31 → pos_part (to_int32 x) ≡ x
small_int32 x h = ground arith

pub length-sorted : (ps : List ℕ) → length (sorted ps) ≡ length ps
unfolding sorted
length-sorted ps = length-sort_from ps (length ps) 0

-- The only symbol gets the precision.
pub single-initial :
    (ops : FloatOps)
    → IsRounding ops
    → (precision total : ℕ) → precision ≤ 2 ^ 20
    → 0 < total
    → (fs : List ℕ) → 0 < precision
    → sum fs ≡ total
    → length fs ≡ 1
    → sum (map (initial ops precision total) fs) ≡ precision
unfolding sum
single-initial ops rounding precision total small t [] p h one = absurd (omega (arith, one))
single-initial ops rounding precision total small t (f ∷ g ∷ fs) p h one =
    absurd (omega (arith, one))
single-initial ops rounding precision total small t (f ∷ []) p h one =
    let only : f ≡ total = omega (arith, h) in
    let share = rounding.whole total precision t small in
    rw (only, share, ne→==_false precision 0 (λ e. absurd (omega (arith, e, p)))) (omega arith)

pub get_or-le-sum : (ps : List ℕ) (i : ℕ) → get_or ps i 0 ≤ sum ps
unfolding sum
get_or-le-sum [] i = omega arith
get_or-le-sum (p ∷ ps) zero = omega arith
get_or-le-sum (p ∷ ps) (suc i) = omega (arith, get_or-le-sum ps i)

pub raised_positive : (p d : ℕ) → 0 < d → p + d < 2 ^ 32 → 0 < (p + d) % 2 ^ 32
raised_positive p d h k = rw (mod-eq_of_lt {n = p + d} {m = 2 ^ 32} k) (omega (arith, h))

-- The largest share is raised by what is missing.
pub raised :
    (ps : List ℕ) (i precision : ℕ)
    → i < length ps
    → sum ps < precision
    → precision < 2 ^ 32
    → sum (set ps i ((get_or ps i 0 + (precision - sum ps)) % 2 ^ 32)) ≡ precision
raised ps i precision h less small =
    let one = get_or-le-sum ps i in
    rw
      (mod-eq_of_lt {n = get_or ps i 0 + (precision - sum ps)} {m = 2 ^ 32}
        (omega (arith, one, less, small)))
      (omega (arith, sum-set ps i (get_or ps i 0 + (precision - sum ps)) h, less))
