-- ===== src/Topology/CornerTable/Growth/Links.antt =====
-- AddFace, as to opposite corners.
use mathlib.Core.Path.{subst}
use go_draco.Common.{
  ℕ, zero, suc, ◌+◌, ◌/◌, ◌%◌, ◌<◌, ◌≡◌, refl, sym, ap, ◌∙◌, inl, inr, not, ◌||◌, Bool-cases, List,
  [], ◌∷◌, ◌++◌, Option, none, some, length, get_or, set, length-append, length-set, arith, ok,
  ◌>>◌, pure, none≢some, some_inv, bind-inv,
}
use go_draco.Common.Int.{ℤ, pos}
use go_draco.Topology.CornerTable.{
  Face, CornerTable, invalid_corner, is_invalid, is_degenerate_face, same_key, swing_left,
  make_edge_key, edge_vertices, zero_face,
}
use go_draco.Topology.CornerTable.Links.{Linked, both, both-Linked, Linked-suc, err≢ok, ok_inv}
use go_draco.Topology.CornerTable.Growth.{
  add_face, link_all, link_new, link_scanned, scan, append_corner, with_corners, in_range,
}

-- Every corner has an opposite entry, and opposites go both ways.
pub record IsLinked (t : CornerTable) : Type 0 where
  pub sizes : length t.opposites ≡ length t.corner_vertex
  pub linked : Linked (length t.corner_vertex) t.opposites

scan-lt :
    (faces : List Face) (key : ℕ × ℕ) (count other o : ℕ)
    → scan faces key count other ≡ some o
    → o < other + count
unfolding scan
scan-lt faces key zero other o e = absurd (none≢some e)
scan-lt faces key (suc count) other o e =
    elim (Bool-cases (
      same_key key
        (make_edge_key (edge_vertices (get_or faces (other / 3) zero_face) (other % 3))))) [
          | inl here ↦ let at : other ≡ o = some_inv (rw here at e) in omega (arith, at)
          | inr later ↦
              let rest : o < other + 1 + count =
                scan-lt faces key count (other + 1) o (rw later at e) in
              omega (arith, rest)
        ]

append_corner-facts :
    (v : ℕ) (t : CornerTable)
    → ((append_corner v t).opposites ≡ t.opposites ++ (invalid_corner ∷ []))
      × (length (append_corner v t).corner_vertex ≡ length t.corner_vertex + 1)
unfolding append_corner
append_corner-facts v t =
    let old = get_or t.vertex_corners v invalid_corner in
    let t1 = record t {
      corner_vertex = t.corner_vertex ++ (pos v ∷ []);
      opposites = t.opposites ++ (invalid_corner ∷ []);
    } in
    elim (Bool-cases (is_invalid old || not (is_invalid (swing_left t1 old)))) [
      | inl moves ↦ rw moves (refl, length-append t.corner_vertex (pos v ∷ []))
      | inr stays ↦ rw stays (refl, length-append t.corner_vertex (pos v ∷ []))
    ]

get_or-append_invalid :
    (xs : List ℤ) (c : ℕ)
    → get_or (xs ++ (invalid_corner ∷ [])) c invalid_corner ≡ get_or xs c invalid_corner
get_or-append_invalid [] zero = refl
get_or-append_invalid [] (suc c) = refl
get_or-append_invalid (x ∷ xs) zero = refl
get_or-append_invalid (x ∷ xs) (suc c) = get_or-append_invalid xs c

Linked-append : (k : ℕ) (opp : List ℤ) → Linked k opp → Linked k (opp ++ (invalid_corner ∷ []))
Linked-append k opp l c d e =
    let (back, c_lt, d_lt, differ) = l c d (sym (get_or-append_invalid opp c) ∙ e) in
    (get_or-append_invalid opp d ∙ back, c_lt, d_lt, differ)

-- A new corner `k` that AddFace links, or not, in a table of `total` corners.
abbrev Steps : ℕ → ℕ → CornerTable → CornerTable → Type 0
Steps total k t t' =
    (length t'.opposites ≡ total) × Linked k t'.opposites × (t'.corner_vertex ≡ t.corner_vertex)

link_scanned-Steps :
    (total k : ℕ) (o : Option ℕ) (t t' : CornerTable)
    → k < total
    → ((other : ℕ) → o ≡ some other → other < k)
    → length t.opposites ≡ total
    → Linked k t.opposites
    → link_scanned k o t ≡ (ok tt, t')
    → Steps total (suc k) t t'
unfolding both
link_scanned-Steps total k none t t' room old size l e =
    subst (Steps total (suc k) t) (ap (λ p. p.1) e) (size, Linked-suc k t.opposites l, refl)
link_scanned-Steps total k (some o) t t' room old size l e =
    elim (Bool-cases (is_invalid (get_or t.opposites o invalid_corner))) [
      | inl free ↦ subst (Steps total (suc k) t) (ap (λ p. p.1) (rw free at e)) (
        length-set (set t.opposites k (pos o)) o (pos k) ∙ length-set t.opposites k (pos o) ∙ size,
        both-Linked t.opposites k o l (omega (arith, room, size)) (old o refl) free,
        refl,
      )
      | inr taken ↦ absurd (err≢ok (ap (λ p. p.0) (rw taken at e)))
    ]

link_new-Steps :
    (total first local : ℕ) (f : Face) (t t' : CornerTable)
    → first + local < total
    → length t.opposites ≡ total
    → Linked (first + local) t.opposites
    → link_new f first local t ≡ (ok tt, t')
    → Steps total (suc (first + local)) t t'
unfolding link_new
link_new-Steps total first local f t t' room size l e =
    let key = make_edge_key (edge_vertices f local) in
    link_scanned-Steps total (first + local) (scan t.faces key first 0) t t' room
      (λ o found. omega (arith, scan-lt t.faces key first 0 o found)) size l e

zero_on : (k : ℕ) → k ≡ k + 0
zero_on k = omega arith

one_on : (k : ℕ) → suc (k + 0) ≡ k + 1
one_on k = omega arith

two_on : (k : ℕ) → suc (k + 1) ≡ k + 2
two_on k = omega arith

three_on : (k : ℕ) → suc (k + 2) ≡ k + 3
three_on k = omega arith

link_all-Steps :
    (first : ℕ) (f : Face) (t t' : CornerTable)
    → length t.opposites ≡ first + 3
    → Linked first t.opposites
    → link_all f first t ≡ (ok tt, t')
    → Steps (first + 3) (first + 3) t t'
unfolding link_all
link_all-Steps first f t t' size l e =
    let (u2, t2, e2, e3) =
      bind-inv (link_new f first 0 >> link_new f first 1) (λ u. link_new f first 2) t e in
    let (u1, t1, e0, e1) = bind-inv (link_new f first 0) (λ u. link_new f first 1) t e2 in
    let (z1, l1, c1) =
      link_new-Steps (first + 3) first 0 f t t1 (omega arith) size
        (subst (λ k. Linked k t.opposites) (zero_on first) l) e0 in
    let (z2, l2, c2) =
      link_new-Steps (first + 3) first 1 f t1 t2 (omega arith) z1
        (subst (λ k. Linked k t1.opposites) (one_on first) l1) e1 in
    let (z3, l3, c3) =
      link_new-Steps (first + 3) first 2 f t2 t' (omega arith) z2
        (subst (λ k. Linked k t2.opposites) (two_on first) l2) e3 in
    (z3, subst (λ k. Linked k t'.opposites) (three_on first) l3, c3 ∙ c2 ∙ c1)

with_corners-facts :
    (f : Face) (t : CornerTable)
    → IsLinked t
    → (length (with_corners f t).opposites ≡ length t.corner_vertex + 3)
      × Linked (length t.corner_vertex) (with_corners f t).opposites
      × (length (with_corners f t).corner_vertex ≡ length t.corner_vertex + 3)
with_corners-facts f t h =
    let t0 = record t { faces = t.faces ++ (f ∷ []) } in
    let t1 = append_corner f.first t0 in
    let t2 = append_corner f.second t1 in
    let (o1, c1) = append_corner-facts f.first t0 in
    let (o2, c2) = append_corner-facts f.second t1 in
    let (o3, c3) = append_corner-facts f.third t2 in
    let k = length t.corner_vertex in
    let whole =
      o3
      ∙ ap (λ xs. xs ++ (invalid_corner ∷ [])) (o2 ∙ ap (λ xs. xs ++ (invalid_corner ∷ [])) o1) in
    (
      ap length whole
          ∙ length-append ((t.opposites ++ (invalid_corner ∷ [])) ++ (invalid_corner ∷ []))
              (invalid_corner ∷ [])
          ∙ omega (
            arith,
            length-append (t.opposites ++ (invalid_corner ∷ [])) (invalid_corner ∷ []),
            length-append t.opposites (invalid_corner ∷ []),
            h.sizes,
          ),
      subst (Linked k) (sym whole)
          (Linked-append k _ (Linked-append k _ (Linked-append k _ h.linked))),
      omega (arith, c1, c2, c3),
    )

-- In a table in which every corner has an opposite entry and opposites go both ways, AddFace where it
-- succeeds returns the number of faces before it, and leaves such a table with three more corners.
pub add_face-IsLinked :
    (f : Face) (t t' : CornerTable) (id : ℕ)
    → IsLinked t
    → add_face f t ≡ (ok id, t')
    → (id ≡ length t.faces) × (length t'.corner_vertex ≡ length t.corner_vertex + 3) × IsLinked t'
unfolding add_face
add_face-IsLinked f t t' id h e = elim (Bool-cases (in_range t f)) [
  | inr out ↦ absurd (err≢ok (ap (λ p. p.0) (rw out at e)))
  | inl within ↦ elim (Bool-cases (is_degenerate_face f)) [
    | inl bad ↦ absurd (err≢ok (ap (λ p. p.0) (rw (within, bad) at e)))
    | inr good ↦
        let k = length t.corner_vertex in
        let (u, s, ran, ended) =
          bind-inv (link_all f k) (λ x. pure (length t.faces)) (with_corners f t)
            (rw (within, good) at e) in
        let (size, l, count) = with_corners-facts f t h in
        let (size', l', same) = link_all-Steps k f (with_corners f t) s size l ran in
        let total : length s.corner_vertex ≡ k + 3 = ap length same ∙ count in
        let last : s ≡ t' = ap (λ p. p.1) ended in
        (
          sym (ok_inv (ap (λ p. p.0) ended)),
          ap (λ x. length x.corner_vertex) (sym last) ∙ total,
          subst IsLinked last (record {
            sizes = size' ∙ sym total;
            linked = subst (λ n. Linked n s.opposites) (sym total) l';
          }),
        )
  ]
]
