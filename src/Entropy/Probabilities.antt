-- ===== src/Entropy/Probabilities.antt =====
-- internal/entropy/rans_encoder.go, buildRansProbabilityTable: probabilities that add up to the
-- precision, from the frequencies of the symbols. What is computed in float64 is a parameter.
pub mod Pass
pub mod Frequencies
pub mod Table
use mathlib.Core.List.{reverse}
use go_draco.Entropy.RansDecoder.{RansSym}
use go_draco.Common.Int.{pos_part, to_int32}
use go_draco.Common.Int.{ℤ}
use go_draco.Common.{
  ℕ, zero, suc, ◌+◌, ◌-◌, ◌*◌, ◌/◌, ◌%◌, ◌^◌, ◌≤◌, ◌<◌, ◌≡◌, ◌≢◌, ◌↔◌, ◌⊎◌, refl, sym, ap, ◌∙◌, inl,
  inr, Bool, true, false, not, ◌&&◌, ◌||◌, Bool-cases, Option-cases, List, [], ◌∷◌, ◌++◌,
  append-nil, append_assoc, Option, none, some, length, All, get_or, set, take, drop, replicate,
  length-append, length-set, length-drop, take-append, drop-append, get_or-drop, drop-drop,
  get_or-append, get_or-append_end, arith, ltb, leb, ◌==◌, if◌then◌else◌, ltb→lt, ltb→ge, lt→ltb,
  ge→ltb, leb→le, le→leb, lt→leb_false, ==_iff, bit_and, bit_or, M, Error, Result, ok, err, ◌>>=◌,
  ◌>>◌, pure, fail, bind_ok, bind_err, on_left, on_right, slices_equal, slices_equal→eq,
  get_or-append_at, leb→gt, none≢some, some_inv, length-take, length-replicate, ne→==_false, eq→==,
  bind-inv, All-append, invalid_rans_normalization, out_of_fuel, rans_precision_total, map,
  empty_rans_alphabet,
}

pub record FloatOps : Type 0 where
  -- uint32(float64(freq)/float64(total)*float64(precision) + 0.5)
  pub share : ℕ → ℕ → ℕ → ℕ
  -- int32(prob) - int32(math.Floor(float64(precision)/float64(total)*float64(prob))), which is not
  -- negative: this is computed for a total above the precision only.
  pub excess : ℕ → ℕ → ℕ → ℕ
  -- int64(-totalBits) of computeShannonEntropy, from the frequencies and the number of symbols.
  pub entropy_bits : List ℕ → ℕ → ℤ

-- The frequencies up to the last one that is positive.
unfoldable pub keep : ℕ → List ℕ → List ℕ
keep f [] = if f == 0 then [] else f ∷ []
keep f (r ∷ rs) = f ∷ r ∷ rs

unfoldable pub valid_part : List ℕ → List ℕ
unfolding keep
valid_part [] = []
valid_part (f ∷ fs) = keep f (valid_part fs)

unfoldable pub sum_mod : ℕ → List ℕ → ℕ
sum_mod limit [] = 0
sum_mod limit (x ∷ xs) = (x + sum_mod limit xs) % limit

-- `sort.SliceStable` on indices by their probability: an index goes before those that are not less.
unfoldable pub insert_by : List ℕ → ℕ → List ℕ → List ℕ
insert_by probs i [] = i ∷ []
insert_by probs i (j ∷ js) =
    if ltb (get_or probs j 0) (get_or probs i 0) then j ∷ insert_by probs i js else i ∷ j ∷ js

unfoldable pub sort_from : List ℕ → ℕ → ℕ → List ℕ
sort_from probs zero i = []
sort_from probs (suc n) i = insert_by probs i (sort_from probs n (i + 1))

unfoldable pub sorted : List ℕ → List ℕ
unfolding sort_from insert_by
sorted probs = sort_from probs (length probs) 0

pub record Normalising : Type 0 where
  pub probs : List ℕ
  pub total : ℕ
  pub error : ℕ

-- The indices from the last of the sorted ones down to the second.
abbrev pub descending : List ℕ → List ℕ
descending [] = []
descending (i ∷ is) = reverse is

abbrev pub last_of : List ℕ → ℕ
last_of [] = 0
last_of (i ∷ []) = i
last_of (i ∷ j ∷ js) = last_of (j ∷ js)

unfoldable pub cumulate : ℕ → List ℕ → List RansSym
cumulate cum [] = []
cumulate cum (p ∷ ps) = record { prob = p; cum_prob = cum } ∷ cumulate ((cum + p) % 2 ^ 32) ps

module _ (ops : FloatOps) (precision : ℕ) where
  unfoldable pub fix_for : ℕ → ℕ → ℕ → ℕ
  fix_for start p error =
      let fix = ops.excess start precision p in
      let at_least = if fix == 0 then 1 else fix in
      let below = if leb p at_least then p - 1 else at_least in
      if ltb error below then error else below

  -- The inner loop over the sorted symbols, from the last one down to the second; `first` says that
  -- none is done yet, and `start` is the total before the loop.
  unfoldable pub pass : ℕ → Bool → List ℕ → Normalising → Result Normalising
  unfolding fix_for
  pass start first [] n = ok n
  pass start first (id ∷ ids) n =
      let p = get_or n.probs id 0 in
      let fix = fix_for start p n.error in
      let n' : Normalising = record {
        probs = set n.probs id (p - fix);
        total = n.total - fix;
        error = n.error - fix;
      } in
      let rest = pass start false ids n' in
      if leb p 1
      then (if first then err invalid_rans_normalization else ok n)
      else if n'.total == precision
      then ok n'
      else rest

  -- `for errorProb > 0`. Each round of an alphabet of two or more symbols lowers the error.
  unfoldable pub normalise : ℕ → List ℕ → Normalising → Result (List ℕ)
  unfolding pass
  normalise zero ids n = if n.error == 0 then ok n.probs else err out_of_fuel
  normalise (suc fuel) ids n =
      let rest = elim (pass n.total true ids n) as (λ r. Result (List ℕ)) [
        | ok n' ↦ normalise fuel ids n'
        | err e ↦ err e
      ] in
      if n.error == 0 then ok n.probs else rest

  abbrev pub initial : ℕ → ℕ → ℕ
  initial total_freq freq =
      let prob = ops.share freq total_freq precision in if prob == 0 && ltb 0 freq then 1 else prob

  -- A negative errorProb, as an int32, skips the loop.
  unfoldable pub adjust : List ℕ → ℕ → Result (List ℕ)
  unfolding normalise
  adjust probs total =
      let largest = last_of (sorted probs) in
      let error = pos_part (to_int32 (total - precision)) in
      let start : Normalising = record { probs = probs; total = total; error = error } in
      if total == precision
      then ok probs
      else if ltb total precision
      then ok (set probs largest ((get_or probs largest 0 + (precision - total)) % 2 ^ 32))
      else normalise error (descending (sorted probs)) start

  abbrev pub check_total : Result (List ℕ) → Result (List RansSym)
  check_total (err e) = err e
  check_total (ok probs) =
      if sum_mod (2 ^ 32) probs == precision
      then ok (cumulate 0 probs)
      else err rans_precision_total

unfoldable pub build_rans_probability_table : FloatOps → List ℕ → ℕ → Result (List RansSym)
unfolding adjust cumulate
build_rans_probability_table ops frequencies precision_bits =
    let precision = 2 ^ precision_bits % 2 ^ 32 in
    let total_freq = sum_mod (2 ^ 64) frequencies in
    let probs = map (initial ops precision total_freq) (valid_part frequencies) in
    if total_freq == 0 || length (valid_part frequencies) == 0
    then err empty_rans_alphabet
    else check_total ops precision (adjust ops precision probs (sum_mod (2 ^ 32) probs))
