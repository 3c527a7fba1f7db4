-- ===== src/Entropy/Rans/Shares.antt =====
-- The tables of a list of probabilities, as the symbol coder sees them.
use native.Mathlib.Nat.{add-zero, add_assoc}
use go_draco.Common.{
  ℕ, zero, suc, ◌+◌, ◌-◌, ◌^◌, ◌≤◌, ◌<◌, ◌≡◌, sym, ap, ◌∙◌, List, [], ◌∷◌, get_or, take, arith,
  ge→ltb,
}
use go_draco.Entropy.RansDecoder.{RansSym, zero_sym}
use go_draco.Entropy.Rans.Lookup.{sum, shares, locate, Represents}
use go_draco.Entropy.Rans.Step.{Owns, HasShare}

locate-within : (ps : List ℕ) (s k : ℕ) → k < get_or ps s 0 → locate ps (sum (take s ps) + k) ≡ s
unfolding locate sum
locate-within [] s k h = absurd (omega arith)
locate-within (p ∷ ps) zero k h = ground arith
locate-within (p ∷ ps) (suc s) k h =
    rw (ge→ltb (p + sum (take s ps) + k) p (omega arith), rest, locate-within ps s k h)
  where
    rest : p + sum (take s ps) + k - p ≡ sum (take s ps) + k
    rest = omega arith

within_total : (ps : List ℕ) (s : ℕ) → 0 < get_or ps s 0 → sum (take s ps) + get_or ps s 0 ≤ sum ps
unfolding sum
within_total [] s h = absurd (omega arith)
within_total (p ∷ ps) zero h = omega arith
within_total (p ∷ ps) (suc s) h = omega (arith, within_total ps s h)

abbrev share : ℕ → List ℕ → ℕ → RansSym
share cum ps s = record { prob = get_or ps s 0; cum_prob = cum + sum (take s ps) }

get_or-shares :
    (ps : List ℕ) (cum s : ℕ)
    → 0 < get_or ps s 0
    → get_or (shares cum ps) s zero_sym ≡ share cum ps s
unfolding shares sum
get_or-shares [] cum s h = absurd (omega arith)
get_or-shares (p ∷ ps) cum zero h = λ k. record { prob = p; cum_prob = sym (add-zero cum) k }
get_or-shares (p ∷ ps) cum (suc s) h =
    get_or-shares ps (cum + p) s h
    ∙ (λ k. record { prob = get_or ps s 0; cum_prob = add_assoc cum p (sum (take s ps)) k })

module _ (bits : ℕ) (ps : List ℕ) (total : sum ps ≡ 2 ^ bits) (s : ℕ)
    (positive : 0 < get_or ps s 0) where
  pub shares-HasShare : HasShare bits (get_or (shares 0 ps) s zero_sym)
  shares-HasShare =
      rw (get_or-shares ps 0 s positive)
        (record { positive = positive; inside = omega (arith, within_total ps s positive, total) })

  pub Represents-Owns :
      (lut : List ℕ) (syms : List RansSym)
      → Represents (2 ^ bits) ps lut syms
      → Owns lut syms s (get_or (shares 0 ps) s zero_sym)
  Represents-Owns lut syms r =
      rw (r.entries, get_or-shares ps 0 s positive)
        (record {
          slots = λ rem low high.
              r.slots rem (omega (arith, within_total ps s positive, total))
              ∙ ap (locate ps) (split rem (omega (arith, low)))
              ∙ locate-within ps s (rem - sum (take s ps)) (omega arith);
          entry = get_or-shares ps 0 s positive;
        })
    where
      split : (rem : ℕ) → sum (take s ps) ≤ rem → rem ≡ sum (take s ps) + (rem - sum (take s ps))
      split rem h = omega arith
