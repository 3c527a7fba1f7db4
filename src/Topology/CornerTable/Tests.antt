-- ===== src/Topology/CornerTable/Tests.antt =====
-- Two triangles that share an edge.
use go_draco.Common.{ℕ, ◌*◌, ◌<◌, ◌≡◌, ◌≢◌, refl, List, [], ◌∷◌, length, arith, ok}
use go_draco.Common.Int.{pos, negsuc}
use go_draco.Topology.CornerTable.{
  CornerTable, Face, build_corner_table, opposite, next, previous, face, corner_count, then_ok,
  build_faces, build_face, is_degenerate_face, place_corner, is_invalid, link_corner, find_edge,
  make_edge_key, edge_vertices, face_vertex, left_most_corners, left_most, swing_left,
}
use go_draco.Topology.CornerTable.Navigation.{next-previous}
use go_draco.Topology.CornerTable.Opposite.{opposite-opposite}

abbrev triangles : List Face
triangles =
    record { first = 0; second = 1; third = 2 } ∷ record { first = 2; second = 1; third = 3 } ∷ []

abbrev square : CornerTable
square = record {
  faces = triangles;
  corner_vertex = pos 0 ∷ pos 1 ∷ pos 2 ∷ pos 2 ∷ pos 1 ∷ pos 3 ∷ [];
  opposites = pos 5 ∷ negsuc 0 ∷ negsuc 0 ∷ negsuc 0 ∷ negsuc 0 ∷ pos 0 ∷ [];
  vertex_corners = pos 0 ∷ pos 1 ∷ pos 3 ∷ pos 5 ∷ [];
}

build_square : build_corner_table (pos 4) triangles ≡ ok square
unfolding build_corner_table then_ok build_faces build_face is_degenerate_face place_corner
    is_invalid link_corner find_edge make_edge_key edge_vertices face_vertex left_most_corners
    left_most swing_left next opposite
build_square = refl

opposite-opposite_example :
    (opposite square (pos 5) ≡ pos 0)
    × (◌≢◌ {A = ℕ} 0 5)
    × (0 < length triangles * 3)
    × (5 < length triangles * 3)
unfolding opposite
opposite-opposite_example = opposite-opposite (pos 4) triangles square 0 5 build_square refl

next-previous_example :
    (next square (previous square (pos 3)) ≡ pos 3)
    × (previous square (next square (pos 3)) ≡ pos 3)
    × (next square (next square (next square (pos 3))) ≡ pos 3)
    × (face square (next square (pos 3)) ≡ face square (pos 3))
unfolding corner_count
next-previous_example = next-previous square 3 refl (omega arith)
