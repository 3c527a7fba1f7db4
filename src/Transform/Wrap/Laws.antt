-- ===== src/Transform/Wrap/Laws.antt =====
-- Corrections against predictions, for one value and for a row.
use go_draco.Common.{
  ℕ, zero, suc, ◌+◌, ◌-◌, ◌^◌, ◌≡◌, ◌⊎◌, refl, inl, inr, true, false, Bool-cases, List, [], ◌∷◌,
  some, length, All, arith, ltb→lt, ltb→ge, lt→ltb, ge→ltb,
}
use go_draco.Common.Int.{
  ℤ, pos, negsuc, ◌+ℤ◌, ◌-ℤ◌, ◌≤ℤ◌, ◌<ℤ◌, ◌≈ℤ◌, ltb_ℤ, to_int32, to_uint32, wrap32_id, IsInt32,
  int_laws, ≈_of_eq,
}
use go_draco.Transform.Wrap.{
  Wrap, clamp, correction, original_value, each_component, compute_correction,
  compute_original_value,
}

-- What `set_bounds` leaves where it succeeds.
pub record IsReady (w : Wrap) : Type 0 where
  pub min32 : IsInt32 w.min_value
  pub max32 : IsInt32 w.max_value
  pub dif : w.max_dif ≈ℤ w.max_value -ℤ w.min_value +ℤ pos 1
  pub positive : pos 1 ≤ℤ w.max_dif
  pub narrow : w.max_dif ≤ℤ pos (2 ^ 31 - 1)
  -- maxCorrection - minCorrection = maxDif - 1, and they differ in size by one at most
  pub span : w.max_correction -ℤ w.min_correction +ℤ pos 1 ≈ℤ w.max_dif
  pub lower : w.min_correction ≤ℤ pos 0
  pub upper : pos 0 ≤ℤ w.max_correction
  pub balanced : w.max_correction +ℤ w.min_correction ≤ℤ pos 0

abbrev pub InRange : Wrap → ℤ → Type 0
InRange w o = (w.min_value ≤ℤ o) × (o ≤ℤ w.max_value)

-- A value and a correction add up inside int32.
pub record HasRoom (w : Wrap) : Type 0 where
  pub above : w.max_value +ℤ w.max_correction ≤ℤ pos (2 ^ 31 - 1)
  pub below : negsuc (2 ^ 31 - 1) ≤ℤ w.min_value +ℤ w.min_correction

to_int32-add :
    (a b : ℤ)
    → IsInt32 a
    → IsInt32 b
    → IsInt32 (a +ℤ b)
    → to_int32 (to_uint32 a + to_uint32 b) ≡ a +ℤ b
unfolding ◌+ℤ◌
to_int32-add (pos a) (pos b) h k l = ground arith
to_int32-add (pos a) (negsuc b) h k l = ground arith
to_int32-add (negsuc a) (pos b) h k l = ground arith
to_int32-add (negsuc a) (negsuc b) h k l = ground arith

clamp-InRange : (w : Wrap) (p : ℤ) → w.min_value ≤ℤ w.max_value → InRange w (clamp w p)
unfolding clamp
clamp-InRange w p h = ground arith

-- How a correction `c` of the value `o` and the prediction `p` relates to their difference.
abbrev pub Corrects : Wrap → ℤ → ℤ → ℤ → Type 0
Corrects w o p c =
    ((o -ℤ p <ℤ w.min_correction) × (c ≈ℤ o -ℤ p +ℤ w.max_dif))
    ⊎ (((w.max_correction <ℤ o -ℤ p) × (c ≈ℤ o -ℤ p -ℤ w.max_dif))
        ⊎ ((w.min_correction ≤ℤ o -ℤ p) × (o -ℤ p ≤ℤ w.max_correction) × (c ≈ℤ o -ℤ p)))

module _ (w : Wrap) (o p : ℤ) (r : IsReady w) (ho : InRange w o) (hp : InRange w p) where
  pub correction-Corrects : Corrects w o p (correction w o p)
  unfolding correction
  correction-Corrects =
      rw (wrap32_id (o -ℤ p) fits) (elim (Bool-cases (ltb_ℤ (o -ℤ p) w.min_correction)) [
        | inl low ↦
            let lt : o -ℤ p <ℤ w.min_correction = ltb→lt _ _ low in
            inl (lt, rw low (≈_of_eq (wrap32_id (o -ℤ p +ℤ w.max_dif) (omega int_laws))))
        | inr not_low ↦ elim (Bool-cases (ltb_ℤ w.max_correction (o -ℤ p))) [
          | inl high ↦
              let lt : w.max_correction <ℤ o -ℤ p = ltb→lt _ _ high in
              inr (
                inl (
                  lt,
                  rw (not_low, high) (≈_of_eq (wrap32_id (o -ℤ p -ℤ w.max_dif) (omega int_laws))),
                ))
          | inr not_high ↦
              inr (inr (ltb→ge _ _ not_low, ltb→ge _ _ not_high, rw (not_low, not_high) refl))
        ]
      ])
    where
      fits : IsInt32 (o -ℤ p)
      fits = omega int_laws

  -- A correction stays between the correction bounds.
  pub correction-bounds :
      (c : ℤ) → Corrects w o p c → (w.min_correction ≤ℤ c) × (c ≤ℤ w.max_correction)
  correction-bounds c (inl h) = omega int_laws
  correction-bounds c (inr (inl h)) = omega int_laws
  correction-bounds c (inr (inr h)) = omega int_laws

  module _ (room : HasRoom w) (c : ℤ) where
    sum_fits : Corrects w o p c → to_int32 (to_uint32 p + to_uint32 c) ≡ p +ℤ c
    sum_fits k =
        let (lo, hi) = correction-bounds c k in
        to_int32-add p c (omega int_laws) (omega int_laws) (omega int_laws)

    original_value-undoes : Corrects w o p c → original_value w p c ≡ o
    unfolding original_value
    original_value-undoes (inl h) =
        let high : ltb_ℤ w.max_value (p +ℤ c) ≡ true = lt→ltb _ _ (omega int_laws) in
        rw (sum_fits (inl h), high, wrap32_id (p +ℤ c -ℤ w.max_dif) (omega int_laws))
          (omega int_laws)
    original_value-undoes (inr (inl h)) =
        let not_high : ltb_ℤ w.max_value (p +ℤ c) ≡ false = ge→ltb _ _ (omega int_laws) in
        let low : ltb_ℤ (p +ℤ c) w.min_value ≡ true = lt→ltb _ _ (omega int_laws) in
        rw (sum_fits (inr (inl h)), not_high, low, wrap32_id (p +ℤ c +ℤ w.max_dif) (omega int_laws))
          (omega int_laws)
    original_value-undoes (inr (inr h)) =
        let not_high : ltb_ℤ w.max_value (p +ℤ c) ≡ false = ge→ltb _ _ (omega int_laws) in
        let not_low : ltb_ℤ (p +ℤ c) w.min_value ≡ false = ge→ltb _ _ (omega int_laws) in
        rw (sum_fits (inr (inr h)), not_high, not_low) (omega int_laws)

-- What a correction undoes: on every value in range, for any prediction.
pub original_value-correction :
    (w : Wrap) (o p : ℤ)
    → IsReady w
    → HasRoom w
    → InRange w o
    → original_value w (clamp w p) (correction w o (clamp w p)) ≡ o
original_value-correction w o p r room ho =
    let hp : InRange w (clamp w p) = clamp-InRange w p (omega int_laws) in
    original_value-undoes w o (clamp w p) r ho hp room _
      (correction-Corrects w o (clamp w p) r ho hp)

module _ (w : Wrap) (r : IsReady w) (room : HasRoom w) where
  components :
      (n : ℕ) (os ps : List ℤ)
      → All (InRange w) os
      → length os ≡ n
      → length ps ≡ n
      → (cs : List ℤ) × (each_component (λ o p. correction w o (clamp w p)) n os ps ≡ some cs)
        × (each_component (λ p c. original_value w (clamp w p) c) n ps cs ≡ some os)
  unfolding each_component
  components zero [] ps h e f = ([], refl, refl)
  components zero (o ∷ os) ps h e f = absurd (omega (arith, e))
  components (suc n) [] ps h e f = absurd (omega (arith, e))
  components (suc n) (o ∷ os) [] h e f = absurd (omega (arith, f))
  components (suc n) (o ∷ os) (p ∷ ps) (ho, hs) e f =
      let (cs, there, back) = components n os ps hs (omega arith) (omega arith) in
      (
        correction w o (clamp w p) ∷ cs,
        rw there,
        rw (back, original_value-correction w o p r room ho),
      )

  -- For a ready transform whose range and corrections add up inside int32, values in its range and
  -- any predictions: ComputeCorrection succeeds, and ComputeOriginalValue returns the values.
  pub compute_original-correction :
      (os ps : List ℤ)
      → All (InRange w) os
      → length os ≡ w.num_components
      → length ps ≡ w.num_components
      → (cs : List ℤ) × (compute_correction w os ps ≡ some cs)
        × (compute_original_value w ps cs ≡ some os)
  unfolding compute_correction compute_original_value
  compute_original-correction os ps = components w.num_components os ps
