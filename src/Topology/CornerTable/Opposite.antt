-- ===== src/Topology/CornerTable/Opposite.antt =====
-- BuildCornerTable, from its loop over the faces on, as to opposite corners.
use go_draco.Common.{
  ℕ, zero, suc, ◌+◌, ◌*◌, ◌≤◌, ◌<◌, ◌≡◌, ◌≢◌, refl, sym, ap, ◌∙◌, inl, inr, Bool-cases, List, [],
  ◌∷◌, some, length, get_or, replicate, arith, leb, leb→le, Result, ok, err, none≢some,
  length-replicate,
}
use mathlib.Core.Path.{subst}
use go_draco.Common.Int.{ℤ, pos, negsuc}
use go_draco.Topology.CornerTable.{
  CornerTable, Face, Edges, is_invalid, opposite, invalid_corner, find_edge, link_corner,
  place_corner, then_ok, build_face, build_faces, build_corner_table, blank, is_degenerate_face,
  make_edge_key, edge_vertices,
}
use go_draco.Topology.CornerTable.Links.{Linked, Keeps, Stays, link_corner-Keeps, err≢ok, ok_inv}

place_corner-opposites :
    (corner v : ℕ) (t t' : CornerTable)
    → place_corner corner v t ≡ ok t'
    → t'.opposites ≡ t.opposites
unfolding place_corner
place_corner-opposites corner v t t' e = elim (Bool-cases (leb (length t.vertex_corners) v)) [
  | inl out ↦ absurd (err≢ok (rw out at e))
  | inr in_range ↦ elim (Bool-cases (is_invalid (get_or t.vertex_corners v invalid_corner))) [
    | inl new ↦ sym (ap (λ x. x.opposites) (ok_inv (rw (in_range, new) at e)))
    | inr old ↦ sym (ap (λ x. x.opposites) (ok_inv (rw (in_range, old) at e)))
  ]
]

-- A chain that ends well has passed its first call.
then_ok-inv :
    {A B : Type 0} (r : Result A) (f : A → Result B) (b : B)
    → then_ok r f ≡ ok b
    → (a : A) × (r ≡ ok a) × (f a ≡ ok b)
unfolding then_ok
then_ok-inv (ok a) f b e = (a, refl, e)
then_ok-inv (err x) f b e = absurd (err≢ok e)

one : (k : ℕ) → k + 1 ≡ suc k
one k = omega arith

two : (k : ℕ) → k + 2 ≡ suc (suc k)
two k = omega arith

three : (k : ℕ) → suc (suc (suc k)) ≡ k + 3
three k = omega arith

renumber :
    {j k : ℕ} (key : ℕ × ℕ) (s : CornerTable × Edges) {s' : CornerTable × Edges}
    → j ≡ k
    → link_corner j key s ≡ ok s'
    → link_corner k key s ≡ ok s'
renumber {j} {k} key s {s'} q e = subst (λ n. link_corner n key s ≡ ok s') q e

build_face-Keeps :
    (total k : ℕ) (f : Face) (s : CornerTable × Edges)
    → k + 3 ≤ total
    → Keeps total k s
    → Stays total (k + 3) (build_face k f s)
unfolding build_face
build_face-Keeps total k f (t, edges) room h s' e = elim (Bool-cases (is_degenerate_face f)) [
  | inl bad ↦ absurd (err≢ok (rw bad at e))
  | inr good ↦
      let (t0, p0, e0) = then_ok-inv _ _ s' (rw good at e) in
      let (t1, p1, e1) = then_ok-inv _ _ s' e0 in
      let (t2, p2, e2) = then_ok-inv _ _ s' e1 in
      let (s0, l0, e3) = then_ok-inv _ _ s' e2 in
      let (s1, l1, e4) = then_ok-inv _ _ s' e3 in
      let same : t2.opposites ≡ t.opposites =
        place_corner-opposites (k + 2) f.third t1 t2 p2
        ∙ place_corner-opposites (k + 1) f.second t0 t1 p1
        ∙ place_corner-opposites k f.first t t0 p0 in
      let h0 : Keeps total k (t2, edges) = record {
        size = ap length same ∙ h.size;
        linked = subst (Linked k) (sym same) h.linked;
        seen = h.seen;
      } in
      let h1 = link_corner-Keeps total k _ (t2, edges) (omega (arith, room)) h0 s0 l0 in
      let h2 =
        link_corner-Keeps total (suc k) _ s0 (omega (arith, room)) h1 s1
          (renumber (make_edge_key (edge_vertices f 1)) s0 (one k) l1) in
      let h3 =
        link_corner-Keeps total (suc (suc k)) _ s1 (omega (arith, room)) h2 s'
          (renumber (make_edge_key (edge_vertices f 2)) s1 (two k) e4) in
      subst (λ n. Keeps total n s') (three k) h3
]

build_faces-Keeps :
    (total k : ℕ) (fs : List Face) (s : CornerTable × Edges)
    → k + length fs * 3 ≡ total
    → Keeps total k s
    → Stays total total (build_faces k fs s)
unfolding build_faces
build_faces-Keeps total k [] s all h s' e =
    let end : k ≡ total = omega (arith, all) in
    subst (λ n. Keeps total n s') end (subst (Keeps total k) (ok_inv e) h)
build_faces-Keeps total k (f ∷ fs) s all h s' e =
    let (s1, p, e1) = then_ok-inv _ _ s' e in
    build_faces-Keeps total (k + 3) fs s1 (omega (arith, all))
      (build_face-Keeps total k f s (omega (arith, all)) h s1 p) s' e1

get_or-replicate : (n c : ℕ) → get_or (replicate n invalid_corner) c invalid_corner ≡ invalid_corner
get_or-replicate zero c = refl
get_or-replicate (suc n) zero = refl
get_or-replicate (suc n) (suc c) = get_or-replicate n c

pub negsuc≢pos : {n d : ℕ} → negsuc n ≡ pos d → ⊥
negsuc≢pos e = cc

none_found : (key : ℕ × ℕ) {o : ℕ} → find_edge key [] ≡ some o → ⊥
unfolding find_edge
none_found key e = none≢some e

blank-Keeps : (n : ℕ) (fs : List Face) → Keeps (length fs * 3) 0 (blank n fs, [])
blank-Keeps n fs = record {
  size = length-replicate (length fs * 3) invalid_corner;
  linked = λ c d e. absurd (negsuc≢pos (sym (get_or-replicate (length fs * 3) c) ∙ e));
  seen = λ key o e. absurd (none_found key e);
}

get_or-past : (xs : List ℤ) (c : ℕ) → length xs ≤ c → get_or xs c invalid_corner ≡ invalid_corner
get_or-past [] c h = refl
get_or-past (x ∷ xs) zero h = absurd (omega arith)
get_or-past (x ∷ xs) (suc c) h = get_or-past xs c (omega arith)

opposite-at : (t : CornerTable) (c : ℕ) → opposite t (pos c) ≡ get_or t.opposites c invalid_corner
unfolding opposite
opposite-at t c = elim (Bool-cases (leb (length t.opposites) c)) [
  | inl out ↦ rw out (sym (get_or-past t.opposites c (leb→le _ _ out)))
  | inr in_range ↦ rw in_range refl
]

-- In a table that BuildCornerTable returns, opposite corners are opposite both ways, are different,
-- and are corners of the faces given.
pub opposite-opposite :
    (vertices : ℤ) (fs : List Face) (t : CornerTable) (c d : ℕ)
    → build_corner_table vertices fs ≡ ok t
    → opposite t (pos c) ≡ pos d
    → (opposite t (pos d) ≡ pos c) × (c ≢ d) × (c < length fs * 3) × (d < length fs * 3)
unfolding build_corner_table
opposite-opposite (negsuc n) fs t c d built e = absurd (err≢ok built)
opposite-opposite (pos n) fs t c d built e =
    let (s, p, q) = then_ok-inv _ _ t built in
    let kept =
      build_faces-Keeps (length fs * 3) 0 fs (blank n fs, []) (omega arith) (blank-Keeps n fs) s
        p in
    let same : s.0.opposites ≡ t.opposites = ap (λ x. x.opposites) (ok_inv q) in
    let (back, c_lt, d_lt, differ) =
      subst (Linked (length fs * 3)) same kept.linked c d (sym (opposite-at t c) ∙ e) in
    (opposite-at t d ∙ back, differ, c_lt, d_lt)
