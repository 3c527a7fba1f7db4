-- ===== src/Entropy/SymbolCoding/Counts.antt =====
-- Frequencies of symbols, the largest symbol and its length in bits.
use native.Mathlib.Nat.{pow-suc}
use go_draco.Entropy.Probabilities.Pass.{get_or-set-positive}
use go_draco.Entropy.Probabilities.Pass.{sum-set}
use mathlib.Core.Path.{subst}
use go_draco.Entropy.SymbolEncoding.{positive_len}
use go_draco.Entropy.SymbolEncoding.{len_bits}
use go_draco.Entropy.SymbolEncoding.{max_of}
use go_draco.Entropy.Rans.Lookup.{sum}
use go_draco.Entropy.SymbolEncoding.{tally}
use go_draco.Common.{
  ℕ, zero, suc, ◌+◌, ◌/◌, ◌^◌, ◌≤◌, ◌<◌, ◌≡◌, refl, sym, ◌∙◌, inl, inr, Bool-cases, List, [], ◌∷◌,
  length, All, get_or, set, replicate, length-set, arith, ◌==◌, ==_iff, length-replicate, eq→==,
}

length-tally : (fs ss : List ℕ) → length (tally fs ss) ≡ length fs
unfolding tally
length-tally fs [] = refl
length-tally fs (s ∷ ss) = length-tally (set fs s (get_or fs s 0 + 1)) ss ∙ length-set fs s _

All-length-set :
    (fs ss : List ℕ) (s v : ℕ) → All (λ x. x < length fs) ss → All (λ x. x < length (set fs s v)) ss
All-length-set fs ss s v h = subst (λ n. All (λ x. x < n) ss) (sym (length-set fs s v)) h

sum-tally : (fs ss : List ℕ) → All (λ x. x < length fs) ss → sum (tally fs ss) ≡ sum fs + length ss
unfolding tally
sum-tally fs [] h = omega arith
sum-tally fs (s ∷ ss) (h, hs) = omega (
  arith,
  sum-tally (set fs s (get_or fs s 0 + 1)) ss (All-length-set fs ss s _ hs),
  sum-set fs s (get_or fs s 0 + 1) h,
)

tally-keeps : (fs ss : List ℕ) (i : ℕ) → 0 < get_or fs i 0 → 0 < get_or (tally fs ss) i 0
unfolding tally
tally-keeps fs [] i h = h
tally-keeps fs (s ∷ ss) i h =
    tally-keeps (set fs s (get_or fs s 0 + 1)) ss i (get_or-set-positive fs s _ i (omega arith) h)

get_or-set_self : (fs : List ℕ) (i v : ℕ) → i < length fs → get_or (set fs i v) i 0 ≡ v
get_or-set_self [] i v h = absurd (omega (arith, h))
get_or-set_self (f ∷ fs) zero v h = refl
get_or-set_self (f ∷ fs) (suc i) v h = get_or-set_self fs i v (omega (arith, h))

tally-counts :
    (fs ss : List ℕ) → All (λ x. x < length fs) ss → All (λ x. 0 < get_or (tally fs ss) x 0) ss
unfolding tally
tally-counts fs [] h = tt
tally-counts fs (s ∷ ss) (h, hs) = (
  tally-keeps (set fs s (get_or fs s 0 + 1)) ss s
      (rw (get_or-set_self fs s (get_or fs s 0 + 1) h) (omega arith)),
  tally-counts (set fs s (get_or fs s 0 + 1)) ss (All-length-set fs ss s _ hs),
)

sum-zeros : (n : ℕ) → sum (replicate n 0) ≡ 0
unfolding sum
sum-zeros zero = refl
sum-zeros (suc n) = omega (arith, sum-zeros n)

-- What a tally over `n` zeros gives.
pub record Counted (n : ℕ) (fs ss : List ℕ) : Type 0 where
  pub count : sum fs ≡ length ss
  pub size : length fs ≡ n
  pub known : All (λ x. 0 < get_or fs x 0) ss

pub tally-Counted :
    (n : ℕ) (ss : List ℕ) → All (λ x. x < n) ss → Counted n (tally (replicate n 0) ss) ss
tally-Counted n ss h =
    let inside = subst (λ k. All (λ x. x < k) ss) (sym (length-replicate n 0)) h in
    record {
      count = sum-tally (replicate n 0) ss inside ∙ omega (arith, sum-zeros n);
      size = length-tally (replicate n 0) ss ∙ length-replicate n 0;
      known = tally-counts (replicate n 0) ss inside;
    }

pub All-weaken : {P Q : ℕ → Type 0} (f : (x : ℕ) → P x → Q x) (xs : List ℕ) → All P xs → All Q xs
All-weaken f [] h = tt
All-weaken f (x ∷ xs) (h, hs) = (f x h, All-weaken f xs hs)

pub max_of-bounds : (xs : List ℕ) → All (λ x. x ≤ max_of xs) xs
unfolding max_of
max_of-bounds [] = tt
max_of-bounds (x ∷ xs) =
    let first : x ≤ max_of (x ∷ xs) = ground arith in
    let others : max_of xs ≤ max_of (x ∷ xs) = ground arith in
    (first, All-weaken (λ y h. omega (arith, h, others)) xs (max_of-bounds xs))

pub max_of-lt : (xs : List ℕ) (n : ℕ) → 0 < n → All (λ x. x < n) xs → max_of xs < n
unfolding max_of
max_of-lt [] n p h = p
max_of-lt (x ∷ xs) n p (h, hs) = ground (arith, max_of-lt xs n p hs)

lt-len_bits : (fuel v : ℕ) → v < 2 ^ fuel → v < 2 ^ len_bits fuel v
unfolding len_bits
lt-len_bits zero v h = h
lt-len_bits (suc fuel) v h = elim (Bool-cases (v == 0)) [
  | inl z ↦ rw z (omega (arith, (==_iff v 0).0 z))
  | inr more ↦ rw more (
      omega (
        arith,
        pow-suc 2 (len_bits fuel (v / 2)),
        lt-len_bits fuel (v / 2) (omega (arith, h, pow-suc 2 fuel)),
      ))
]

len_bits-le : (fuel v : ℕ) → len_bits fuel v ≤ fuel
unfolding len_bits
len_bits-le zero v = omega arith
len_bits-le (suc fuel) v = ground (arith, len_bits-le fuel (v / 2))

-- The length of a 32-bit number holds it, and is from 1 to 32.
pub positive_len_bounds :
    (v : ℕ) → v < 2 ^ 32 → (v < 2 ^ positive_len v) × (0 < positive_len v) × (positive_len v ≤ 32)
unfolding positive_len
positive_len_bounds v h = elim (Bool-cases (len_bits 32 v == 0)) [
  | inl z ↦
      let none_set = (==_iff (len_bits 32 v) 0).0 z in
      rw z (
        omega (arith, subst (λ k. v < 2 ^ k) none_set (lt-len_bits 32 v h)),
        omega arith,
        omega arith,
      )
  | inr more ↦ rw more (lt-len_bits 32 v h, ground arith, len_bits-le 32 v)
]

-- A number below 2^k has k bits at most.
pub len_bits-le_of_lt : (fuel v k : ℕ) → v < 2 ^ k → len_bits fuel v ≤ k
unfolding len_bits
len_bits-le_of_lt zero v k h = omega arith
len_bits-le_of_lt (suc fuel) v zero h = rw (eq→== v 0 (omega (arith, h))) (omega arith)
len_bits-le_of_lt (suc fuel) v (suc k) h =
    ground (arith, len_bits-le_of_lt fuel (v / 2) k (omega (arith, h, pow-suc 2 k)))
