-- ===== src/Topology/CornerTable/Growth.antt =====
-- internal/topology/corner_table.go: a table around given slices, the faces around a face or a
-- vertex, and `AddFace`.
pub mod Links
mod Tests
use go_draco.Common.{
  ℕ, zero, suc, ◌+◌, ◌-◌, ◌*◌, ◌/◌, ◌%◌, ◌^◌, ◌≤◌, ◌<◌, ◌≡◌, ◌≢◌, ◌↔◌, ◌⊎◌, refl, sym, ap, ◌∙◌, inl,
  inr, Bool, true, false, not, ◌&&◌, ◌||◌, Bool-cases, Option-cases, List, [], ◌∷◌, ◌++◌,
  append-nil, append_assoc, Option, none, some, length, All, get_or, set, take, drop, replicate,
  length-append, length-set, length-drop, take-append, drop-append, get_or-drop, drop-drop,
  get_or-append, get_or-append_end, arith, ltb, leb, ◌==◌, if◌then◌else◌, ltb→lt, ltb→ge, lt→ltb,
  ge→ltb, leb→le, le→leb, lt→leb_false, ==_iff, bit_and, bit_or, M, Error, Result, ok, err, ◌>>=◌,
  ◌>>◌, pure, fail, bind_ok, bind_err, on_left, on_right, slices_equal, slices_equal→eq,
  get_or-append_at, leb→gt, none≢some, some_inv, length-take, length-replicate, ne→==_false, eq→==,
  bind-inv, degenerate_face, corner_out_of_range, non_manifold_edge,
}
use go_draco.Common.Int.{ℤ, pos, negsuc}
use go_draco.Topology.CornerTable.{
  Face, CornerTable, invalid_corner, zero_face, is_invalid, opposite, face, first_corner,
  swing_left, is_degenerate_face, edge_vertices, make_edge_key, same_key, face_vertex,
}

unfoldable pub new_corner_table_from_connectivity : List ℤ → List ℤ → List ℤ → CornerTable
new_corner_table_from_connectivity corner_vertex opposites vertex_corners = record {
  faces = [];
  corner_vertex = corner_vertex;
  opposites = opposites;
  vertex_corners = vertex_corners;
}

unfoldable pub all_corners : CornerTable → ℤ → ℤ × ℤ × ℤ
all_corners t f = elim (first_corner t f) [
  | pos c ↦ (pos c, pos (c + 1), pos (c + 2))
  | negsuc n ↦ (invalid_corner, invalid_corner, invalid_corner)
]

abbrev neighbor : CornerTable → ℤ → ℤ
neighbor t corner =
    let other = opposite t corner in if is_invalid other then invalid_corner else face t other

unfoldable pub face_neighbors : CornerTable → ℤ → ℤ × ℤ × ℤ
face_neighbors t f = elim (first_corner t f) [
  | pos c ↦ (neighbor t (pos c), neighbor t (pos (c + 1)), neighbor t (pos (c + 2)))
  | negsuc n ↦ (invalid_corner, invalid_corner, invalid_corner)
]

-- One corner of AddFace's first loop.
unfoldable pub append_corner : ℕ → CornerTable → CornerTable
append_corner v t =
    let corner = length t.corner_vertex in
    let t' = record t {
      corner_vertex = t.corner_vertex ++ (pos v ∷ []);
      opposites = t.opposites ++ (invalid_corner ∷ []);
    } in
    let old = get_or t.vertex_corners v invalid_corner in
    if is_invalid old || not (is_invalid (swing_left t' old))
    then record t' { vertex_corners = set t.vertex_corners v (pos corner) }
    else t'

-- The first of `count` corners from `other` on whose edge has the key.
unfoldable pub scan : List Face → ℕ × ℕ → ℕ → ℕ → Option ℕ
scan faces key zero other = none
scan faces key (suc count) other =
    let later = scan faces key count (other + 1) in
    let here = make_edge_key (edge_vertices (get_or faces (other / 3) zero_face) (other % 3)) in
    if same_key key here then some other else later

abbrev pub link_scanned : ℕ → Option ℕ → M CornerTable (Unit {0})
link_scanned corner none t = (ok tt, t)
link_scanned corner (some other) t =
    if is_invalid (get_or t.opposites other invalid_corner)
    then (
      ok tt,
      record t { opposites = set (set t.opposites corner (pos other)) other (pos corner) },
    )
    else (err non_manifold_edge, t)

-- One corner of AddFace's second loop.
unfoldable pub link_new : Face → ℕ → ℕ → M CornerTable (Unit {0})
link_new f first local t =
    link_scanned (first + local) (scan t.faces (make_edge_key (edge_vertices f local)) first 0) t

unfoldable pub link_all : Face → ℕ → M CornerTable (Unit {0})
link_all f first = link_new f first 0 >> link_new f first 1 >> link_new f first 2

abbrev pub in_range : CornerTable → Face → Bool
in_range t f = let n = length t.vertex_corners in ltb f.first n && ltb f.second n && ltb f.third n

abbrev pub with_corners : Face → CornerTable → CornerTable
with_corners f t =
    append_corner f.third
      (append_corner f.second (append_corner f.first (record t { faces = t.faces ++ (f ∷ []) })))

unfoldable pub add_face : Face → M CornerTable ℕ
add_face f t =
    let linked : M CornerTable ℕ = link_all f (length t.corner_vertex) >> pure (length t.faces) in
    if not (in_range t f)
    then (err corner_out_of_range, t)
    else if is_degenerate_face f
    then (err degenerate_face, t)
    else linked (with_corners f t)

unfoldable pub reset_corner_table_from_connectivity :
    CornerTable → List ℤ → List ℤ → List ℤ → CornerTable
reset_corner_table_from_connectivity t corner_vertex opposites vertex_corners = record t {
  faces = [];
  corner_vertex = corner_vertex;
  opposites = opposites;
  vertex_corners = vertex_corners;
}

-- The source's `%` keeps the sign of a negative corner, of which -1 is the only one in use.
unfoldable pub local_index : ℤ → ℤ
local_index (pos c) = pos (c % 3)
local_index (negsuc zero) = negsuc 0
local_index (negsuc (suc n)) = let r = (n + 2) % 3 in if r == 0 then pos 0 else negsuc (r - 1)

-- The set of Valence, as a list without repeats.
abbrev contains : ℕ → List ℕ → Bool
contains v [] = false
contains v (u ∷ us) = u == v || contains v us

abbrev insert : ℕ → List ℕ → List ℕ
insert v us = if contains v us then us else v ∷ us

abbrev around : Face → ℕ → ℕ → List ℕ → List ℕ
around f v local us =
    if face_vertex f local == v
    then insert (face_vertex f ((local + 2) % 3)) (insert (face_vertex f ((local + 1) % 3)) us)
    else us

unfoldable pub neighbors : List Face → ℕ → List ℕ → List ℕ
neighbors [] v us = us
neighbors (f ∷ fs) v us = neighbors fs v (around f v 2 (around f v 1 (around f v 0 us)))

unfoldable pub valence : CornerTable → ℤ → ℤ
valence t (negsuc n) = negsuc 0
valence t (pos v) =
    if leb (length t.vertex_corners) v then negsuc 0 else pos (length (neighbors t.faces v []))
