-- ===== src/Topology/CornerTable/Growth/Tests.antt =====
-- A table that grows from nothing to two triangles that share an edge.
use go_draco.Topology.CornerTable.Opposite.{negsuc≢pos}
use go_draco.Common.{◌+◌, ◌≡◌, refl, [], ◌∷◌, length, ok}
use go_draco.Common.Int.{pos}
use go_draco.Topology.CornerTable.{
  CornerTable, Face, invalid_corner, next, opposite, swing_left, is_invalid, is_degenerate_face,
  edge_vertices, face_vertex, make_edge_key,
}
use go_draco.Topology.CornerTable.Growth.{add_face, link_all, link_new, scan, append_corner}
use go_draco.Topology.CornerTable.Growth.Links.{IsLinked, add_face-IsLinked}

abbrev lower : Face
lower = record { first = 0; second = 1; third = 2 }

abbrev upper : Face
upper = record { first = 2; second = 1; third = 3 }

abbrev points : CornerTable
points = record {
  faces = [];
  corner_vertex = [];
  opposites = [];
  vertex_corners = invalid_corner ∷ invalid_corner ∷ invalid_corner ∷ invalid_corner ∷ [];
}

abbrev triangle : CornerTable
triangle = record {
  faces = lower ∷ [];
  corner_vertex = pos 0 ∷ pos 1 ∷ pos 2 ∷ [];
  opposites = invalid_corner ∷ invalid_corner ∷ invalid_corner ∷ [];
  vertex_corners = pos 0 ∷ pos 1 ∷ pos 2 ∷ invalid_corner ∷ [];
}

abbrev pair : CornerTable
pair = record {
  faces = lower ∷ upper ∷ [];
  corner_vertex = pos 0 ∷ pos 1 ∷ pos 2 ∷ pos 2 ∷ pos 1 ∷ pos 3 ∷ [];
  opposites =
      pos 5 ∷ invalid_corner ∷ invalid_corner ∷ invalid_corner ∷ invalid_corner ∷ pos 0 ∷ [];
  vertex_corners = pos 0 ∷ pos 1 ∷ pos 2 ∷ pos 5 ∷ [];
}

add_lower : add_face lower points ≡ (ok 0, triangle)
unfolding add_face link_all link_new scan append_corner is_invalid is_degenerate_face edge_vertices
    face_vertex make_edge_key swing_left next opposite
add_lower = refl

add_upper : add_face upper triangle ≡ (ok 1, pair)
unfolding add_face link_all link_new scan append_corner is_invalid is_degenerate_face edge_vertices
    face_vertex make_edge_key swing_left next opposite
add_upper = refl

points-IsLinked : IsLinked points
points-IsLinked = record { sizes = refl; linked = λ c d e. absurd (negsuc≢pos e) }

triangle-IsLinked : IsLinked triangle
triangle-IsLinked = (add_face-IsLinked lower points triangle 0 points-IsLinked add_lower).2

add_face-IsLinked_example :
    (1 ≡ length triangle.faces)
    × (length pair.corner_vertex ≡ length triangle.corner_vertex + 3)
    × IsLinked pair
add_face-IsLinked_example = add_face-IsLinked upper triangle pair 1 triangle-IsLinked add_upper
