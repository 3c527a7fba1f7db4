-- ===== src/Entropy/Rans/Lookup.antt =====
-- BuildLookup without its cache: the table of slots and symbols.
use native.Mathlib.Nat.{add-zero, mod-eq_of_lt, add_assoc}
use go_draco.Common.{
  ℕ, zero, suc, ◌+◌, ◌-◌, ◌^◌, ◌≤◌, ◌<◌, ◌≡◌, ◌≢◌, refl, sym, ◌∙◌, inl, inr, ◌&&◌, Bool-cases, List,
  [], ◌∷◌, ◌++◌, append-nil, append_assoc, length, All, get_or, set, take, replicate, length-append,
  length-set, arith, ltb, leb, ◌==◌, if◌then◌else◌, ltb→lt, ltb→ge, ge→ltb, Error, ok, err,
  length-take, length-replicate, ne→==_false, eq→==, rans_cumulative_probability,
  rans_precision_sum,
}
use go_draco.Entropy.RansDecoder.{RansSym, fill, build_loop, build_tables}

unfoldable pub sum : List ℕ → ℕ
sum [] = 0
sum (p ∷ ps) = p + sum ps

-- The probabilities with their running sums, from `cum` on.
unfoldable pub shares : ℕ → List ℕ → List RansSym
shares cum [] = []
shares cum (p ∷ ps) = record { prob = p; cum_prob = cum } ∷ shares (cum + p) ps

-- The symbol whose share holds the slot `rem`.
unfoldable pub locate : List ℕ → ℕ → ℕ
locate [] rem = 0
locate (p ∷ ps) rem = let later = locate ps (rem - p) in if ltb rem p then 0 else suc later

-- The tables of the probabilities `ps`, which add up to the precision.
pub record Represents (precision : ℕ) (ps : List ℕ) (lut : List ℕ) (syms : List RansSym)
    : Type 0 where
  pub total : sum ps ≡ precision
  pub entries : syms ≡ shares 0 ps
  pub slots : (rem : ℕ) → rem < precision → get_or lut rem 0 ≡ locate ps rem

length-fill : (n from i : ℕ) (lut : List ℕ) → length (fill n from i lut) ≡ length lut
unfolding fill
length-fill zero from i lut = refl
length-fill (suc n) from i lut = length-fill n (from + 1) i (set lut from i) ∙ length-set lut from i

get_or-set :
    (lut : List ℕ) (j i k : ℕ)
    → k < length lut
    → get_or (set lut j i) k 0 ≡ (if k == j then i else get_or lut k 0)
get_or-set [] j i k h = absurd (omega arith)
get_or-set (x ∷ lut) zero i zero h = refl
get_or-set (x ∷ lut) zero i (suc k) h = ground arith
get_or-set (x ∷ lut) (suc j) i zero h = ground arith
get_or-set (x ∷ lut) (suc j) i (suc k) h = ground (arith, get_or-set lut j i k)

-- The inner loop writes its range and nothing else.
get_or-fill :
    (n from i : ℕ) (lut : List ℕ) (k : ℕ)
    → k < length lut
    → get_or (fill n from i lut) k 0
      ≡ (if leb from k && ltb k (from + n) then i else get_or lut k 0)
unfolding fill
get_or-fill zero from i lut k h = ground arith
get_or-fill (suc n) from i lut k h = ground (
  arith,
  get_or-fill n (from + 1) i (set lut from i) k,
  length-set lut from i,
  get_or-set lut from i k,
)

-- What the outer loop makes of the table.
paint : List ℕ → ℕ → ℕ → List ℕ → List ℕ
paint [] i cum lut = lut
paint (p ∷ ps) i cum lut = paint ps (i + 1) (cum + p) (fill p cum i lut)

build_loop-ok :
    (precision : ℕ) (ps : List ℕ) (i cum : ℕ) (lut : List ℕ) (syms : List RansSym)
    → precision < 2 ^ 31
    → cum + sum ps ≤ precision
    → build_loop precision ps i cum lut syms
      ≡ ok (cum + sum ps, paint ps i cum lut, syms ++ shares cum ps)
unfolding build_loop sum paint shares
build_loop-ok precision [] i cum lut syms small h =
    λ k. ok (sym (add-zero cum) k, lut, sym (append-nil syms) k)
build_loop-ok precision (p ∷ ps) i cum lut syms small h =
    rw
      (
        mod-eq_of_lt {n = cum + p} {m = 2 ^ 32} (omega arith),
        ge→ltb precision (cum + p) (omega arith),
        added,
        build_loop-ok precision ps (i + 1) (cum + p) (fill p cum i lut)
            (syms ++ (record { prob = p; cum_prob = cum } ∷ [])) small (omega arith),
      )
      (λ k. ok (
        add_assoc cum p (sum ps) k,
        paint ps (i + 1) (cum + p) (fill p cum i lut),
        append_assoc syms (record { prob = p; cum_prob = cum } ∷ []) (shares (cum + p) ps) k,
      ))
  where
    added : cum + p - cum ≡ p
    added = omega arith

build_loop-over :
    (precision : ℕ) (ps : List ℕ) (i cum : ℕ) (lut : List ℕ) (syms : List RansSym)
    → precision < 2 ^ 31
    → All (λ p. p < 2 ^ 31) ps
    → cum ≤ precision
    → precision < cum + sum ps
    → build_loop precision ps i cum lut syms ≡ err rans_cumulative_probability
unfolding build_loop sum
build_loop-over precision [] i cum lut syms small k le over = absurd (omega arith)
build_loop-over precision (p ∷ ps) i cum lut syms small (k, ks) le over =
    rw (mod-eq_of_lt {n = cum + p} {m = 2 ^ 32} (omega arith))
      (elim (Bool-cases (ltb precision (cum + p))) [
        | inl past ↦ rw past
        | inr within ↦ rw within (
            build_loop-over precision ps (i + 1) (cum + p) (fill (cum + p - cum) cum i lut)
              (syms ++ (record { prob = p; cum_prob = cum } ∷ [])) small ks (ltb→ge _ _ within)
              (omega arith))
      ])

get_or-paint :
    (ps : List ℕ) (i cum : ℕ) (lut : List ℕ) (k : ℕ)
    → k < length lut
    → get_or (paint ps i cum lut) k 0
      ≡ (if leb cum k && ltb k (cum + sum ps) then i + locate ps (k - cum) else get_or lut k 0)
unfolding paint sum locate
get_or-paint [] i cum lut k h = ground arith
get_or-paint (p ∷ ps) i cum lut k h = ground (
  arith,
  get_or-paint ps (i + 1) (cum + p) (fill p cum i lut) k,
  length-fill p cum i lut,
  get_or-fill p cum i lut k,
)

length-work :
    (precision : ℕ) (work : List ℕ)
    → length (take precision (work ++ replicate precision 0)) ≡ precision
length-work precision work = length-take precision (work ++ replicate precision 0) (
    omega (arith, length-append work (replicate precision 0), length-replicate {A = ℕ} precision 0))

-- Without the cache, BuildLookup accepts probabilities that add up to the precision, whatever the
-- work slice held.
pub build_tables-Represents :
    (precision : ℕ) (work ps : List ℕ)
    → precision < 2 ^ 31
    → sum ps ≡ precision
    → (lut : List ℕ) × (syms : List RansSym) × (build_tables precision work ps ≡ ok (lut, syms))
      × Represents precision ps lut syms
unfolding build_tables
build_tables-Represents precision work ps small total =
    let blank = take precision (work ++ replicate precision 0) in
    (
      paint ps 0 0 blank,
      shares 0 ps,
      rw
          (
            build_loop-ok precision ps 0 0 blank [] small (omega arith),
            eq→== (0 + sum ps) precision (omega (arith, total)),
          )
          refl,
      record {
        total = total;
        entries = refl;
        slots = λ rem h. ground (arith, get_or-paint ps 0 0 blank rem, length-work precision work);
      },
    )

-- It refuses all others, with the error that says on which side they are.
abbrev pub sum_error : ℕ → ℕ → Error
sum_error precision total =
    if ltb precision total then rans_cumulative_probability else rans_precision_sum

pub build_tables-refused :
    (precision : ℕ) (work ps : List ℕ)
    → precision < 2 ^ 31
    → All (λ p. p < 2 ^ 31) ps
    → sum ps ≢ precision
    → build_tables precision work ps ≡ err (sum_error precision (sum ps))
unfolding build_tables
build_tables-refused precision work ps small each other =
    let blank = take precision (work ++ replicate precision 0) in
    elim (Bool-cases (ltb precision (sum ps))) [
      | inl over ↦ rw (
        over,
        build_loop-over precision ps 0 0 blank [] small each (omega arith)
            (omega (arith, ltb→lt _ _ over)),
      )
      | inr within ↦ rw (
        within,
        build_loop-ok precision ps 0 0 blank [] small (omega (arith, ltb→ge _ _ within)),
        ne→==_false (0 + sum ps) precision (λ e. other (omega (arith, e))),
      )
    ]
