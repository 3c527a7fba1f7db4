-- ===== src/Topology/CornerTable.antt =====
-- internal/topology/corner_table.go: `CornerTable`, its navigation and `BuildCornerTable`.
-- Corner 3 f + i is the i-th corner of face f; -1 is no corner. The table is never nil here. A slice
-- index out of range, where the source panics, reads -1 or writes nothing.
pub mod Navigation
mod Links
pub mod Opposite
pub mod Growth
mod Tests
use go_draco.Common.{
  ℕ, zero, suc, ◌+◌, ◌-◌, ◌*◌, ◌/◌, ◌%◌, ◌&&◌, ◌||◌, Bool, true, false, not, List, [], ◌∷◌, ◌++◌,
  length, get_or, set, replicate, Option, none, some, ltb, leb, ◌==◌, if◌then◌else◌, Result, ok,
  err, invalid_vertex_count, degenerate_face, corner_out_of_range, non_manifold_edge,
}
use go_draco.Common.Int.{ℤ, pos, negsuc}

abbrev pub invalid_corner : ℤ
invalid_corner = negsuc 0

pub record Face : Type 0 where
  pub first : ℕ
  pub second : ℕ
  pub third : ℕ

abbrev pub zero_face : Face
zero_face = record { first = 0; second = 0; third = 0 }

unfoldable pub face_vertex : Face → ℕ → ℕ
face_vertex f zero = f.first
face_vertex f (suc zero) = f.second
face_vertex f (suc (suc i)) = f.third

pub record CornerTable : Type 0 where
  pub faces : List Face
  pub corner_vertex : List ℤ
  pub opposites : List ℤ
  pub vertex_corners : List ℤ

unfoldable pub is_invalid : ℤ → Bool
is_invalid (pos n) = false
is_invalid (negsuc zero) = true
is_invalid (negsuc (suc n)) = false

unfoldable pub vertex_count : CornerTable → ℕ
vertex_count t = length t.vertex_corners

unfoldable pub face_count : CornerTable → ℕ
face_count t = length t.faces

unfoldable pub corner_count : CornerTable → ℕ
corner_count t = length t.corner_vertex

unfoldable pub opposite : CornerTable → ℤ → ℤ
opposite t (negsuc n) = invalid_corner
opposite t (pos c) =
    if leb (length t.opposites) c then invalid_corner else get_or t.opposites c invalid_corner

unfoldable pub next : CornerTable → ℤ → ℤ
next t (negsuc n) = invalid_corner
next t (pos c) =
    if leb (length t.corner_vertex) c
    then invalid_corner
    else if c % 3 == 2
    then pos (c - 2)
    else pos (c + 1)

unfoldable pub previous : CornerTable → ℤ → ℤ
previous t (negsuc n) = invalid_corner
previous t (pos c) =
    if leb (length t.corner_vertex) c
    then invalid_corner
    else if c % 3 == 0
    then pos (c + 2)
    else pos (c - 1)

unfoldable pub vertex : CornerTable → ℤ → ℤ
vertex t (negsuc n) = invalid_corner
vertex t (pos c) =
    if leb (length t.corner_vertex) c
    then invalid_corner
    else get_or t.corner_vertex c invalid_corner

unfoldable pub face : CornerTable → ℤ → ℤ
face t (negsuc n) = invalid_corner
face t (pos c) = if leb (length t.corner_vertex) c then invalid_corner else pos (c / 3)

unfoldable pub first_corner : CornerTable → ℤ → ℤ
first_corner t (negsuc n) = invalid_corner
first_corner t (pos f) = if leb (length t.faces) f then invalid_corner else pos (f * 3)

unfoldable pub left_most_corner : CornerTable → ℤ → ℤ
left_most_corner t (negsuc n) = invalid_corner
left_most_corner t (pos v) =
    if leb (length t.vertex_corners) v
    then invalid_corner
    else get_or t.vertex_corners v invalid_corner

unfoldable pub swing_right : CornerTable → ℤ → ℤ
swing_right t c = previous t (opposite t (previous t c))

unfoldable pub swing_left : CornerTable → ℤ → ℤ
swing_left t c = next t (opposite t (next t c))

unfoldable pub left_corner : CornerTable → ℤ → ℤ
left_corner t c = if is_invalid c then invalid_corner else opposite t (previous t c)

unfoldable pub right_corner : CornerTable → ℤ → ℤ
right_corner t c = if is_invalid c then invalid_corner else opposite t (next t c)

unfoldable pub is_boundary_vertex : CornerTable → ℤ → Bool
is_boundary_vertex t v =
    let corner = left_most_corner t v in
    if is_invalid corner then false else is_invalid (swing_left t corner)

unfoldable pub add_vertex : CornerTable → ℕ × CornerTable
add_vertex t = (
  length t.vertex_corners,
  record t { vertex_corners = t.vertex_corners ++ (invalid_corner ∷ []) },
)

unfoldable pub is_degenerate_face : Face → Bool
is_degenerate_face f = f.first == f.second || f.second == f.third || f.first == f.third

unfoldable pub edge_vertices : Face → ℕ → ℕ × ℕ
edge_vertices f local = (face_vertex f ((local + 1) % 3), face_vertex f ((local + 2) % 3))

unfoldable pub make_edge_key : ℕ × ℕ → ℕ × ℕ
make_edge_key (a, b) = if ltb b a then (b, a) else (a, b)

-- The map from edges to the corner that saw the edge first.
abbrev pub Edges : Type 0
Edges = List ((ℕ × ℕ) × ℕ)

abbrev pub same_key : ℕ × ℕ → ℕ × ℕ → Bool
same_key (a, b) (c, d) = a == c && b == d

unfoldable pub find_edge : ℕ × ℕ → Edges → Option ℕ
find_edge key [] = none
find_edge key ((k, corner) ∷ rest) = if same_key k key then some corner else find_edge key rest

-- One corner of the loop over the vertices of a face.
unfoldable pub place_corner : ℕ → ℕ → CornerTable → Result CornerTable
place_corner corner v t =
    let t' = record t { corner_vertex = set t.corner_vertex corner (pos v) } in
    if leb (length t.vertex_corners) v
    then err corner_out_of_range
    else ok (
        if is_invalid (get_or t.vertex_corners v invalid_corner)
        then record t' { vertex_corners = set t.vertex_corners v (pos corner) }
        else t')

-- One corner of the loop over the edges of a face.
abbrev pub link_found : ℕ → ℕ × ℕ → Option ℕ → CornerTable × Edges → Result (CornerTable × Edges)
link_found corner key none (t, edges) = ok (t, (key, corner) ∷ edges)
link_found corner key (some other) (t, edges) =
    if is_invalid (get_or t.opposites other invalid_corner)
    then ok (
      record t { opposites = set (set t.opposites corner (pos other)) other (pos corner) },
      edges,
    )
    else err non_manifold_edge

unfoldable pub link_corner : ℕ → ℕ × ℕ → CornerTable × Edges → Result (CornerTable × Edges)
link_corner corner key (t, edges) = link_found corner key (find_edge key edges) (t, edges)

unfoldable pub then_ok : {A B : Type 0} → Result A → (A → Result B) → Result B
then_ok (ok a) f = f a
then_ok (err e) f = err e

-- The round of BuildCornerTable's first loop for the face whose first corner is `corner`.
unfoldable pub build_face : ℕ → Face → CornerTable × Edges → Result (CornerTable × Edges)
build_face corner f (t, edges) =
    if is_degenerate_face f
    then err degenerate_face
    else then_ok (place_corner corner f.first t) (λ t0.
      then_ok (place_corner (corner + 1) f.second t0) (λ t1.
        then_ok (place_corner (corner + 2) f.third t1) (λ t2.
          then_ok (link_corner corner (make_edge_key (edge_vertices f 0)) (t2, edges)) (λ s0.
            then_ok (link_corner (corner + 1) (make_edge_key (edge_vertices f 1)) s0)
              (λ s1. link_corner (corner + 2) (make_edge_key (edge_vertices f 2)) s1)))))

unfoldable pub build_faces : ℕ → List Face → CornerTable × Edges → Result (CornerTable × Edges)
build_faces corner [] s = ok s
build_faces corner (f ∷ fs) s = then_ok (build_face corner f s) (build_faces (corner + 3) fs)

-- The first corner of the vertex without a left neighbour, or `best`.
unfoldable pub left_most : CornerTable → ℕ → List ℤ → ℕ → ℤ → ℤ
left_most t v [] corner best = best
left_most t v (mapped ∷ rest) corner best =
    let later = left_most t v rest (corner + 1) best in
    let here = is_invalid (swing_left t (pos corner)) in
    elim mapped [ pos u ↦ if u == v && here then pos corner else later | negsuc n ↦ later ]

-- The second loop, over the vertices from `v` on. swing_left does not read vertex_corners, so the
-- table of before the loop serves all rounds.
unfoldable pub left_most_corners : CornerTable → ℕ → List ℤ → List ℤ
left_most_corners t v [] = []
left_most_corners t v (best ∷ rest) =
    (if is_invalid best then best else left_most t v t.corner_vertex 0 best)
    ∷ left_most_corners t (v + 1) rest

abbrev pub blank : ℕ → List Face → CornerTable
blank vertices fs = record {
  faces = fs;
  corner_vertex = replicate (length fs * 3) (pos 0);
  opposites = replicate (length fs * 3) invalid_corner;
  vertex_corners = replicate vertices invalid_corner;
}

abbrev pub finish : CornerTable × Edges → Result CornerTable
finish (t, edges) = ok (record t { vertex_corners = left_most_corners t 0 t.vertex_corners })

unfoldable pub build_corner_table : ℤ → List Face → Result CornerTable
build_corner_table (negsuc n) fs = err invalid_vertex_count
build_corner_table (pos n) fs = then_ok (build_faces 0 fs (blank n fs, [])) finish
