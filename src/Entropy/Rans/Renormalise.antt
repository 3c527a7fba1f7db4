-- ===== src/Entropy/Rans/Renormalise.antt =====
-- The byte loops of ReadSymbol and WriteSymbol.
use go_draco.Common.{
  ℕ, zero, suc, ◌+◌, ◌*◌, ◌/◌, ◌%◌, ◌^◌, ◌≤◌, ◌<◌, ◌≡◌, ◌⊎◌, refl, sym, ap, ◌∙◌, inl, inr,
  Bool-cases, Option-cases, List, [], ◌∷◌, ◌++◌, append_assoc, some, length, length-append,
  get_or-append_end, arith, leb, lt→ltb, ge→ltb, leb→le, lt→leb_false, leb→gt, none≢some, some_inv,
}
use go_draco.Entropy.RansDecoder.{refill}
use go_draco.Entropy.RansEncoder.{shrink}
use mathlib.Core.Path.{ap₂}
use native.Mathlib.Nat.{mod-eq_of_lt, add-zero}

-- `refill` stops at once where the state is in the coder's interval, or where no byte is left.
pub refill_stop :
    (buf : List ℕ) (l_base offset state : ℕ)
    → l_base ≤ state
    → refill buf l_base offset state ≡ (offset, state)
unfolding refill
refill_stop buf l_base zero state h = refl
refill_stop buf l_base (suc offset) state h = rw (ge→ltb _ _ h)

refill_step :
    (pre rest : List ℕ) (l_base state b : ℕ)
    → state < l_base
    → state * 256 + b < 2 ^ 32
    → refill (pre ++ (b ∷ rest)) l_base (suc (length pre)) state
      ≡ refill (pre ++ (b ∷ rest)) l_base (length pre) (state * 256 + b)
unfolding refill
refill_step pre rest l_base state b h fits =
    rw (lt→ltb _ _ h, get_or-append_end pre (b ∷ rest) 0, mod-eq_of_lt fits)

-- With a positive threshold, enough rounds end the loop.
pub shrink_ends :
    (fuel threshold state : ℕ)
    → 0 < threshold
    → state < 256 ^ fuel
    → (t : List ℕ × ℕ) × (shrink (suc fuel) threshold state ≡ some t)
unfolding shrink
shrink_ends zero threshold state pos h =
    (([], state), rw (lt→leb_false threshold state (omega arith)))
shrink_ends (suc fuel) threshold state pos h = elim (Bool-cases (leb threshold state)) [
  | inl more ↦
      let (t, e) = shrink_ends fuel threshold (state / 256) pos (omega arith) in
      (((state % 256) ∷ t.0, t.1), rw (more, e))
  | inr done ↦ (([], state), rw done)
]

-- The two ways in which a run of the loop that ends goes on.
abbrev Shrinks : ℕ → ℕ → ℕ → List ℕ × ℕ → Type 0
Shrinks fuel threshold state t =
    ((state < threshold) × (t ≡ ([], state)))
    ⊎ ((u : List ℕ × ℕ) × (threshold ≤ state)
        × (shrink fuel threshold (state / 256) ≡ some u)
        × (t ≡ ((state % 256) ∷ u.0, u.1)))

shrink_inv :
    (fuel threshold state : ℕ) (t : List ℕ × ℕ)
    → shrink (suc fuel) threshold state ≡ some t
    → Shrinks fuel threshold state t
unfolding shrink
shrink_inv fuel threshold state t e = elim (Bool-cases (leb threshold state)) [
  | inl more ↦ elim (Option-cases (shrink fuel threshold (state / 256))) [
    | inl out ↦ absurd (none≢some (rw (more, out) at e))
    | inr (u, rest) ↦ inr (u, leb→le _ _ more, rest, sym (some_inv (rw (more, rest) at e)))
  ]
  | inr done ↦ inl (leb→gt _ _ done, sym (some_inv (rw done at e)))
]

-- What the loop leaves: below the threshold, and large enough to have been cut only when needed.
pub shrink_bounds :
    (fuel threshold state : ℕ) (t : List ℕ × ℕ)
    → shrink fuel threshold state ≡ some t
    → (t.1 < threshold) × ((t.1 ≡ state) ⊎ (threshold ≤ t.1 * 256 + 255))
unfolding shrink
shrink_bounds zero threshold state t e = absurd (none≢some e)
shrink_bounds (suc fuel) threshold state t e = elim (shrink_inv fuel threshold state t e) [
  | inl (lt, p) ↦ rw p (lt, inl refl)
  | inr (u, ge, rest, p) ↦
      let (lt, cut) = shrink_bounds fuel threshold (state / 256) u rest in
      rw p (lt, elim cut [ inl same ↦ inr (omega arith) | inr big ↦ inr big ])
]

-- The decoder, at what the loop left and behind the bytes that it emitted, comes back to the state
-- before the loop and to the bytes before those.
pub refill-shrink :
    (fuel threshold l_base state : ℕ) (t : List ℕ × ℕ) (pre more : List ℕ)
    → l_base * 256 ≤ 2 ^ 32
    → state < l_base * 256
    → shrink fuel threshold state ≡ some t
    → refill (pre ++ (t.0 ++ more)) l_base (length pre + length t.0) t.1
      ≡ refill (pre ++ (t.0 ++ more)) l_base (length pre) state
unfolding shrink
refill-shrink zero threshold l_base state t pre more fits h e = absurd (none≢some e)
refill-shrink (suc fuel) threshold l_base state t pre more fits h e =
    elim (shrink_inv fuel threshold state t e) [
      | inl (lt, p) ↦ rw (p, add-zero)
      | inr (u, ge, rest, p) ↦ rw p (
          ap₂ (λ buf n. refill buf l_base n u.1) (regroup u.0)
            (omega (arith, length-append pre (b ∷ [])))
          ∙ refill-shrink fuel threshold l_base (state / 256) u (pre ++ (b ∷ [])) more fits
              (omega arith) rest
          ∙ ap₂ (λ buf n. refill buf l_base n (state / 256)) (sym (regroup u.0))
              (omega (arith, length-append pre (b ∷ [])))
          ∙ refill_step pre (u.0 ++ more) l_base (state / 256) b (omega arith) (omega arith)
          ∙ ap (refill (pre ++ (b ∷ (u.0 ++ more))) l_base (length pre)) (omega arith))
    ]
  where
    b : ℕ
    b = state % 256

    regroup : (bs : List ℕ) → pre ++ (b ∷ (bs ++ more)) ≡ (pre ++ (b ∷ [])) ++ (bs ++ more)
    regroup bs = sym (append_assoc pre (b ∷ []) (bs ++ more))
