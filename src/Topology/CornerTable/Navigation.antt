-- ===== src/Topology/CornerTable/Navigation.antt =====
-- Next and Previous in the corner table.
use go_draco.Common.{ℕ, ◌+◌, ◌-◌, ◌/◌, ◌%◌, ◌<◌, ◌≡◌, sym, ap, ◌∙◌, arith, ◌==◌, if◌then◌else◌}
use go_draco.Common.Int.{pos}
use go_draco.Topology.CornerTable.{CornerTable, next, previous, face, corner_count}

module _ (t : CornerTable) (whole : corner_count t % 3 ≡ 0) (c : ℕ) (h : c < corner_count t) where
  next-at : next t (pos c) ≡ pos (if c % 3 == 2 then c - 2 else c + 1)
  unfolding next corner_count
  next-at = ground (arith, h)

  previous-at : previous t (pos c) ≡ pos (if c % 3 == 0 then c + 2 else c - 1)
  unfolding previous corner_count
  previous-at = ground (arith, h)

  next-lt : (if c % 3 == 2 then c - 2 else c + 1) < corner_count t
  next-lt = ground (arith, h, whole)

  previous-lt : (if c % 3 == 0 then c + 2 else c - 1) < corner_count t
  previous-lt = ground (arith, h, whole)

  face-at : face t (pos c) ≡ pos (c / 3)
  unfolding face corner_count
  face-at = ground (arith, h)

-- In a table of whole faces, on a corner of the table: Next and Previous undo each other, three times
-- Next is the corner again, and Next stays in the face.
pub next-previous :
    (t : CornerTable) (c : ℕ)
    → corner_count t % 3 ≡ 0
    → c < corner_count t
    → (next t (previous t (pos c)) ≡ pos c)
      × (previous t (next t (pos c)) ≡ pos c)
      × (next t (next t (next t (pos c))) ≡ pos c)
      × (face t (next t (pos c)) ≡ face t (pos c))
next-previous t c whole h =
    let n = if c % 3 == 2 then c - 2 else c + 1 in
    let n_lt = next-lt t whole c h in
    let p_lt = previous-lt t whole c h in
    let m = if n % 3 == 2 then n - 2 else n + 1 in
    (
      ap (next t) (previous-at t whole c h) ∙ next-at t whole _ p_lt ∙ ap pos (ground arith),
      ap (previous t) (next-at t whole c h) ∙ previous-at t whole n n_lt ∙ ap pos (ground arith),
      ap (λ x. next t (next t x)) (next-at t whole c h)
          ∙ ap (next t) (next-at t whole n n_lt)
          ∙ next-at t whole m (next-lt t whole n n_lt)
          ∙ ap pos (ground arith),
      ap (face t) (next-at t whole c h)
          ∙ face-at t whole n n_lt
          ∙ ap pos (ground arith)
          ∙ sym (face-at t whole c h),
    )
