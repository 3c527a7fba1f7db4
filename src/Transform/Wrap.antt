-- ===== src/Transform/Wrap.antt =====
-- internal/transform/wrap.go: `Wrap`, which keeps corrections inside the range of the values.
-- The scratch slices hold no state between calls, and are left out. Where a slice is shorter than
-- the number of components, the source panics and the model returns `none`.
pub mod Laws
pub mod Bounds
mod Tests
use go_draco.Common.{
  ℕ, zero, suc, ◌+◌, ◌-◌, ◌/◌, ◌^◌, ◌==◌, List, [], ◌∷◌, Option, none, some, bit_and, leb,
  if◌then◌else◌, M, ok, err, ◌>>=◌, ◌>>◌, pure, fail, on_left, on_right, invalid_wrap_range,
  invalid_wrap_bounds,
}
use go_draco.Common.Int.{ℤ, pos, negsuc, ◌+ℤ◌, ◌-ℤ◌, ltb_ℤ, to_int32, to_uint32, wrap32}
use go_draco.Core.Reader.{Reader, read_int32}
use go_draco.Core.Writer.{Writer, write_int32}
use mathlib.Core.Option

pub record Wrap : Type 0 where
  pub num_components : ℕ
  pub min_value : ℤ
  pub max_value : ℤ
  pub max_dif : ℤ
  pub max_correction : ℤ
  pub min_correction : ℤ

-- `var t Wrap`
abbrev pub zero_wrap : Wrap
zero_wrap = record {
  num_components = 0;
  min_value = pos 0;
  max_value = pos 0;
  max_dif = pos 0;
  max_correction = pos 0;
  min_correction = pos 0;
}

unfoldable pub init : ℕ → Wrap → Wrap
init n w = record w { num_components = n }

-- The fields that follow from the two bounds; `half` is `maxDif / 2` of a positive `maxDif`.
abbrev corrections : ℕ → Wrap → Wrap
corrections dif w =
    let half = (1 + dif) / 2 in
    record w {
      max_dif = pos (1 + dif);
      max_correction = if bit_and (1 + dif) 1 == 0 then pos half -ℤ pos 1 else pos half;
      min_correction = pos 0 -ℤ pos half;
    }

abbrev check_dif : ℤ → M Wrap (Unit {0})
check_dif (negsuc n) w = (err invalid_wrap_range, w)
check_dif (pos dif) w =
    if leb (2 ^ 31 - 1) dif then (err invalid_wrap_range, w) else (ok tt, corrections dif w)

-- The end of InitFromValues and of Decode: the bounds stand, also where their range is refused.
unfoldable pub set_bounds : ℤ → ℤ → M Wrap (Unit {0})
set_bounds lo hi w = check_dif (hi -ℤ lo) (record w { min_value = lo; max_value = hi })

-- The loop over `values[1:]`.
unfoldable pub value_range : ℤ → ℤ → List ℤ → ℤ × ℤ
value_range lo hi [] = (lo, hi)
value_range lo hi (v ∷ vs) =
    value_range (if ltb_ℤ v lo then v else lo)
      (if ltb_ℤ v lo then hi else if ltb_ℤ hi v then v else hi) vs

unfoldable pub init_from_values : List ℤ → ℕ → M Wrap (Unit {0})
init_from_values [] n w = (ok tt, init n w)
init_from_values (v ∷ vs) n w = let (lo, hi) = value_range v v vs in set_bounds lo hi (init n w)

unfoldable pub decode : M (Wrap × Reader) (Unit {0})
decode = do
  lo ← on_right read_int32
  hi ← on_right read_int32
  if ltb_ℤ hi lo then fail invalid_wrap_bounds else on_left (set_bounds lo hi)

unfoldable pub encode : Wrap → M Writer (Unit {0})
encode w = do write_int32 w.min_value; write_int32 w.max_value

unfoldable pub clamp : Wrap → ℤ → ℤ
clamp w p =
    if ltb_ℤ w.max_value p then w.max_value else if ltb_ℤ p w.min_value then w.min_value else p

-- One component of ComputeCorrection, with `p` clamped.
unfoldable pub correction : Wrap → ℤ → ℤ → ℤ
correction w o p =
    let out = wrap32 (o -ℤ p) in
    if ltb_ℤ out w.min_correction
    then wrap32 (out +ℤ w.max_dif)
    else if ltb_ℤ w.max_correction out
    then wrap32 (out -ℤ w.max_dif)
    else out

-- One component of ComputeOriginalValue, with `p` clamped.
unfoldable pub original_value : Wrap → ℤ → ℤ → ℤ
original_value w p c =
    let out = to_int32 (to_uint32 p + to_uint32 c) in
    if ltb_ℤ w.max_value out
    then wrap32 (out -ℤ w.max_dif)
    else if ltb_ℤ out w.min_value
    then wrap32 (out +ℤ w.max_dif)
    else out

-- `f` at each of the first `n` pairs.
unfoldable pub each_component : (ℤ → ℤ → ℤ) → ℕ → List ℤ → List ℤ → Option (List ℤ)
each_component f zero xs ys = some []
each_component f (suc n) [] ys = none
each_component f (suc n) (x ∷ xs) [] = none
each_component f (suc n) (x ∷ xs) (y ∷ ys) = Option.map (◌∷◌ (f x y)) (each_component f n xs ys)

unfoldable pub compute_correction : Wrap → List ℤ → List ℤ → Option (List ℤ)
compute_correction w original predicted =
    each_component (λ o p. correction w o (clamp w p)) w.num_components original predicted

unfoldable pub compute_original_value : Wrap → List ℤ → List ℤ → Option (List ℤ)
compute_original_value w predicted corr =
    each_component (λ p c. original_value w (clamp w p) c) w.num_components predicted corr
