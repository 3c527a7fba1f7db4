-- ===== src/Transform/Wrap/Bounds.antt =====
-- The bounds of `Wrap` after its initialisations, and corrections near the limits of int32.
use go_draco.Common.{
  ℕ, ◌+◌, ◌-◌, ◌/◌, ◌%◌, ◌^◌, ◌<◌, ◌≡◌, ◌≢◌, refl, sym, inl, inr, true, false, Bool-cases, List, [],
  ◌∷◌, All, arith, ◌==◌, if◌then◌else◌, lt→ltb, ge→ltb, lt→leb_false, bit_and, Result, ok,
}
use mathlib.Core.Path.{subst₂}
use go_draco.Common.Bits.{bit_and_one}
use go_draco.Common.Int.{
  ℤ, pos, negsuc, pos_part, neg_part, ◌+ℤ◌, ◌-ℤ◌, ◌≤ℤ◌, ◌<ℤ◌, ◌≈ℤ◌, IsInt32, int_laws, to_int32,
  to_uint32, ltb_ℤ, wrap32, ≈_of_eq, wrap32_id, eq_of_parts,
}
use go_draco.Transform.Wrap.{
  Wrap, corrections, set_bounds, value_range, init_from_values, original_value, clamp, init,
  correction,
}
use go_draco.Transform.Wrap.Laws.{Corrects, correction-Corrects, IsReady, InRange}

-- The bounds are accepted: the derived fields are ready for use.
abbrev pub Accepts : ℤ → ℤ → Wrap → (Result (Unit {0}) × Wrap) → Type 0
Accepts lo hi w r =
    (r.0 ≡ ok tt)
    × IsReady r.1
    × (r.1.min_value ≡ lo)
    × (r.1.max_value ≡ hi)
    × (r.1.num_components ≡ w.num_components)

of_nonneg : (a : ℤ) → neg_part a ≡ 0 → a ≡ pos (pos_part a)
of_nonneg (pos n) h = refl
of_nonneg (negsuc n) h = absurd (omega arith)

neg_part-sub : (a b : ℤ) → b ≤ℤ a → neg_part (a -ℤ b) ≡ 0
unfolding ◌-ℤ◌
neg_part-sub a b h = ground arith

module _ (d : ℕ) (lo hi : ℤ) (w : Wrap) (l : IsInt32 lo) (h : IsInt32 hi) where
  abbrev low_end : ℤ
  low_end = pos 0 -ℤ pos ((1 + d) / 2)

  IsReady-made :
      (mx : ℤ)
      → hi -ℤ lo ≈ℤ pos d
      → d < 2 ^ 31 - 1
      → mx -ℤ low_end +ℤ pos 1 ≈ℤ pos (1 + d)
      → mx +ℤ low_end ≤ℤ pos 0
      → pos 0 ≤ℤ mx
      → IsReady (record w {
        min_value = lo;
        max_value = hi;
        max_dif = pos (1 + d);
        max_correction = mx;
        min_correction = low_end;
      })
  IsReady-made mx e narrow span balanced upper = record {
    min32 = l;
    max32 = h;
    dif = omega int_laws;
    positive = omega arith;
    narrow = omega arith;
    span = span;
    lower = omega int_laws;
    upper = upper;
    balanced = balanced;
  }

  corrections-IsReady :
      hi -ℤ lo ≈ℤ pos d
      → d < 2 ^ 31 - 1
      → IsReady (corrections d (record w { min_value = lo; max_value = hi }))
  corrections-IsReady e narrow =
      let half = (1 + d) / 2 in
      elim (Bool-cases (bit_and (1 + d) 1 == 0)) [
        | inl even ↦
            let two : (1 + d) % 2 ≡ 0 = ground (arith, bit_and_one (1 + d)) in
            rw even (
              IsReady-made (pos half -ℤ pos 1) e narrow (omega int_laws) (omega int_laws)
                (omega int_laws))
        | inr odd ↦
            let one : (1 + d) % 2 ≡ 1 = ground (arith, bit_and_one (1 + d)) in
            rw odd
              (IsReady-made (pos half) e narrow (omega int_laws) (omega int_laws) (omega int_laws))
      ]

set_bounds-Accepts :
    (lo hi : ℤ) (w : Wrap)
    → IsInt32 lo
    → IsInt32 hi
    → lo ≤ℤ hi
    → hi -ℤ lo <ℤ pos (2 ^ 31 - 1)
    → Accepts lo hi w (set_bounds lo hi w)
unfolding set_bounds
set_bounds-Accepts lo hi w l h le narrow =
    let flat = neg_part-sub hi lo le in
    rw
      (
        of_nonneg (hi -ℤ lo) (neg_part-sub hi lo le),
        lt→leb_false (2 ^ 31 - 1) (pos_part (hi -ℤ lo)) (omega int_laws),
      )
      (
        refl,
        corrections-IsReady (pos_part (hi -ℤ lo)) lo hi w l h (omega arith) (omega int_laws),
        refl,
        refl,
        refl,
      )

abbrev pub Between : ℤ → ℤ → ℤ → Type 0
Between lo hi v = (lo ≤ℤ v) × (v ≤ℤ hi)

All-weaken :
    (a b lo hi : ℤ) (vs : List ℤ)
    → a ≤ℤ lo
    → hi ≤ℤ b
    → All (Between lo hi) vs
    → All (Between a b) vs
All-weaken a b lo hi [] p q h = tt
All-weaken a b lo hi (v ∷ vs) p q (h, hs) = (omega arith, All-weaken a b lo hi vs p q hs)

-- The range found covers the start and every value, and is no wider than any range that does.
value_range-covers :
    (lo hi : ℤ) (vs : List ℤ)
    → lo ≤ℤ hi
    → ((value_range lo hi vs).0 ≤ℤ lo)
      × (hi ≤ℤ (value_range lo hi vs).1)
      × All (Between (value_range lo hi vs).0 (value_range lo hi vs).1) vs
unfolding value_range
value_range-covers lo hi [] h = (omega arith, omega arith, tt)
value_range-covers lo hi (v ∷ vs) h =
    let (a, b, hs) = value_range-covers lo' hi' vs (ground arith) in
    (ground arith, ground arith, ((ground arith, ground arith), hs))
  where
    lo' : ℤ
    lo' = if ltb_ℤ v lo then v else lo

    hi' : ℤ
    hi' = if ltb_ℤ v lo then hi else if ltb_ℤ hi v then v else hi

value_range-tight :
    (l h lo hi : ℤ) (vs : List ℤ)
    → l ≤ℤ lo
    → hi ≤ℤ h
    → All (Between l h) vs
    → (l ≤ℤ (value_range lo hi vs).0) × ((value_range lo hi vs).1 ≤ℤ h)
unfolding value_range
value_range-tight l h lo hi [] p q k = (p, q)
value_range-tight l h lo hi (v ∷ vs) p q (k, ks) =
    value_range-tight l h (if ltb_ℤ v lo then v else lo)
      (if ltb_ℤ v lo then hi else if ltb_ℤ hi v then v else hi) vs (ground arith) (ground arith) ks

-- On int32 values, one at least, that lie between two bounds less than 2^31 - 1 apart,
-- InitFromValues succeeds, its transform is ready, its range covers every value, and it has the
-- number of components that was asked for.
pub init_from_values-InRange :
    (l h v : ℤ) (vs : List ℤ) (n : ℕ) (w : Wrap)
    → IsInt32 l
    → IsInt32 h
    → h -ℤ l <ℤ pos (2 ^ 31 - 1)
    → All (Between l h) (v ∷ vs)
    → ((init_from_values (v ∷ vs) n w).0 ≡ ok tt)
      × IsReady (init_from_values (v ∷ vs) n w).1
      × All (InRange (init_from_values (v ∷ vs) n w).1) (v ∷ vs)
      × ((init_from_values (v ∷ vs) n w).1.num_components ≡ n)
unfolding init_from_values init
init_from_values-InRange l h v vs n w l32 h32 narrow (k, ks) =
    let (a, b, cover) = value_range-covers v v vs (omega arith) in
    let (lo, hi) = value_range-tight l h v v vs k.0 k.1 ks in
    let (done, ready, min, max, comps) =
      set_bounds-Accepts (value_range v v vs).0 (value_range v v vs).1 (init n w) (omega arith)
        (omega arith) (omega arith) (omega int_laws) in
    (
      done,
      ready,
      subst₂ (λ x y. All (Between x y) (v ∷ vs)) (sym min) (sym max) ((a, b), cover),
      comps,
    )

to_int32-add_high :
    (a b : ℤ)
    → IsInt32 a
    → IsInt32 b
    → pos (2 ^ 31 - 1) <ℤ a +ℤ b
    → to_int32 (to_uint32 a + to_uint32 b) ≈ℤ a +ℤ b -ℤ pos (2 ^ 32)
unfolding ◌+ℤ◌ ◌-ℤ◌
to_int32-add_high (pos a) (pos b) h k l = ground arith
to_int32-add_high (pos a) (negsuc b) h k l = ground arith
to_int32-add_high (negsuc a) (pos b) h k l = ground arith
to_int32-add_high (negsuc a) (negsuc b) h k l = ground arith

clamp-max : (w : Wrap) → w.min_value ≤ℤ w.max_value → clamp w w.max_value ≡ w.max_value
unfolding clamp
clamp-max w h = ground arith

module _ (w : Wrap) (r : IsReady w)
    (over : pos (2 ^ 31 - 1) <ℤ w.max_value +ℤ w.max_correction) where
  lost_value : ℤ
  lost_value = w.max_value +ℤ w.max_correction -ℤ w.max_dif

  lost-correction : correction w lost_value w.max_value ≈ℤ w.max_correction
  unfolding lost_value
  lost-correction =
      corrects (correction-Corrects w lost_value w.max_value r (omega int_laws) (omega int_laws))
    where
      corrects :
          Corrects w lost_value w.max_value (correction w lost_value w.max_value)
          → correction w lost_value w.max_value ≈ℤ w.max_correction
      corrects (inl h) = omega int_laws
      corrects (inr (inl h)) = omega int_laws
      corrects (inr (inr h)) = omega int_laws

  original_value-wraps :
      (c : ℤ)
      → c ≈ℤ w.max_correction
      → original_value w w.max_value c ≈ℤ w.max_value +ℤ c -ℤ pos (2 ^ 32) +ℤ w.max_dif
  unfolding original_value
  original_value-wraps c h =
      let s = to_int32 (to_uint32 w.max_value + to_uint32 c) in
      let sum : s ≈ℤ w.max_value +ℤ c -ℤ pos (2 ^ 32) =
        to_int32-add_high w.max_value c (omega arith) (omega int_laws) (omega int_laws) in
      let not_high : ltb_ℤ w.max_value s ≡ false = ge→ltb _ _ (omega int_laws) in
      let low : ltb_ℤ s w.min_value ≡ true = lt→ltb _ _ (omega int_laws) in
      let out : wrap32 (s +ℤ w.max_dif) ≡ s +ℤ w.max_dif = wrap32_id _ (omega int_laws) in
      rw (not_high, low, out) (omega int_laws)

-- In a ready transform whose largest correction is positive and, added to the largest value, leaves
-- int32, there is a value in range whose correction from the largest value as prediction is the
-- largest correction, and ComputeOriginalValue does not give this value back.
pub original_value-lost :
    (w : Wrap)
    → IsReady w
    → pos 1 ≤ℤ w.max_correction
    → pos (2 ^ 31 - 1) <ℤ w.max_value +ℤ w.max_correction
    → (o : ℤ) × InRange w o
      × (correction w o (clamp w w.max_value) ≡ w.max_correction)
      × (original_value w (clamp w w.max_value) (correction w o (clamp w w.max_value)) ≢ o)
unfolding lost_value
original_value-lost w r one over =
    let at : correction w (lost_value w r over) w.max_value ≡ w.max_correction =
      eq_of_parts _ _ (lost-correction w r over) in
    (
      lost_value w r over,
      omega int_laws,
      rw (clamp-max w (omega int_laws)) at,
      rw (clamp-max w (omega int_laws), at)
          (λ e.
            let wraps = original_value-wraps w r over w.max_correction refl in
            omega (int_laws, ≈_of_eq e)),
    )
