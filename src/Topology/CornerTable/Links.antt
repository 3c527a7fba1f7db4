-- ===== src/Topology/CornerTable/Links.antt =====
-- The links that BuildCornerTable makes between the corners opposite an edge.
use go_draco.Common.{
  ℕ, zero, suc, ◌<◌, ◌≡◌, ◌≢◌, ◌⊎◌, refl, sym, ap, ◌∙◌, inl, inr, true, false, Bool-cases,
  Option-cases, List, [], ◌∷◌, some, length, get_or, set, length-set, arith, ◌==◌, ==_iff, Error,
  Result, ok, err, some_inv, eq→==,
}
use mathlib.Core.Path.{subst}
use go_draco.Common.Int.{ℤ, pos}
use go_draco.Topology.CornerTable.{
  CornerTable, Edges, is_invalid, invalid_corner, find_edge, link_corner, same_key,
}

-- Opposites go both ways, and join different corners below `k`.
abbrev pub Linked : ℕ → List ℤ → Type 0
Linked k opposites =
    (c d : ℕ)
    → get_or opposites c invalid_corner ≡ pos d
    → (get_or opposites d invalid_corner ≡ pos c) × (c < k) × (d < k) × (c ≢ d)

get_or-set_same :
    (xs : List ℤ) (j : ℕ) (v : ℤ) → j < length xs → get_or (set xs j v) j invalid_corner ≡ v
get_or-set_same [] j v h = absurd (omega arith)
get_or-set_same (x ∷ xs) zero v h = refl
get_or-set_same (x ∷ xs) (suc j) v h = get_or-set_same xs j v (omega arith)

get_or-set_other :
    (xs : List ℤ) (j k : ℕ) (v : ℤ)
    → k ≢ j
    → get_or (set xs j v) k invalid_corner ≡ get_or xs k invalid_corner
get_or-set_other [] j k v h = refl
get_or-set_other (x ∷ xs) zero zero v h = absurd (h refl)
get_or-set_other (x ∷ xs) zero (suc k) v h = refl
get_or-set_other (x ∷ xs) (suc j) zero v h = refl
get_or-set_other (x ∷ xs) (suc j) (suc k) v h = get_or-set_other xs j k v (λ e. h (ap suc e))

pos-injective : {a b : ℕ} → pos a ≡ pos b → a ≡ b
pos-injective e = cc

pub true≢false : true ≡ false → ⊥
true≢false e = cc

pub ok_inv : {A : Type 0} {a b : A} → ok a ≡ ok b → a ≡ b
ok_inv e = cc

pub err≢ok : {A : Type 0} {x : Error} {a : A} → err x ≡ ok a → ⊥
err≢ok e = cc

valid-pos : {x : ℤ} {d : ℕ} → x ≡ pos d → is_invalid x ≡ false
unfolding is_invalid
valid-pos {x} {d} e = rw e refl

nat_eq : (a b : ℕ) → (a ≡ b) ⊎ (a ≢ b)
nat_eq a b = elim (Bool-cases (a == b)) [
  | inl same ↦ inl ((==_iff a b).0 same)
  | inr other ↦ inr (λ e. absurd (true≢false (sym (eq→== a b e) ∙ other)))
]

-- Linking the new corner `k` with an old one that is free.
module _ (opp : List ℤ) (k o : ℕ) (linked : Linked k opp) (room : k < length opp) (old : o < k)
    (free : is_invalid (get_or opp o invalid_corner) ≡ true) where
  unfoldable pub both : List ℤ
  both = set (set opp k (pos o)) o (pos k)

  at_old : get_or both o invalid_corner ≡ pos k
  unfolding both
  at_old =
      get_or-set_same (set opp k (pos o)) o (pos k)
        (omega (arith, length-set opp k (pos o), old, room))

  at_new : get_or both k invalid_corner ≡ pos o
  unfolding both
  at_new =
      get_or-set_other (set opp k (pos o)) o k (pos k) (λ e. absurd (omega (arith, e, old)))
      ∙ get_or-set_same opp k (pos o) room

  elsewhere : (c : ℕ) → c ≢ o → c ≢ k → get_or both c invalid_corner ≡ get_or opp c invalid_corner
  unfolding both
  elsewhere c ne_o ne_k =
      get_or-set_other (set opp k (pos o)) o c (pos k) ne_o ∙ get_or-set_other opp k c (pos o) ne_k

  pub both-Linked : Linked (suc k) both
  both-Linked c d e = elim (nat_eq c o) [
    | inl same ↦
        let new : d ≡ k =
          pos-injective (sym e ∙ ap (λ x. get_or both x invalid_corner) same ∙ at_old) in
        (
          ap (λ x. get_or both x invalid_corner) new ∙ at_new ∙ ap pos (sym same),
          omega (arith, same, old),
          omega (arith, new),
          λ q. absurd (omega (arith, q, same, new, old)),
        )
    | inr ne_o ↦ elim (nat_eq c k) [
      | inl same ↦
          let was : d ≡ o =
            pos-injective (sym e ∙ ap (λ x. get_or both x invalid_corner) same ∙ at_new) in
          (
            ap (λ x. get_or both x invalid_corner) was ∙ at_old ∙ ap pos (sym same),
            omega (arith, same),
            omega (arith, was, old),
            λ q. absurd (omega (arith, q, same, was, old)),
          )
      | inr ne_k ↦
          let (back, c_lt, d_lt, differ) = linked c d (sym (elsewhere c ne_o ne_k) ∙ e) in
          let d_ne_o : d ≢ o = λ q. absurd (
            true≢false
              (sym free ∙ valid-pos (ap (λ x. get_or opp x invalid_corner) (sym q) ∙ back))) in
          let d_ne_k : d ≢ k = λ q. absurd (omega (arith, q, d_lt)) in
          (elsewhere d d_ne_o d_ne_k ∙ back, omega (arith, c_lt), omega (arith, d_lt), differ)
    ]
  ]

-- What the loop keeps before corner `k`, in a table of `total` corners.
pub record Keeps (total k : ℕ) (s : CornerTable × Edges) : Type 0 where
  pub size : length s.0.opposites ≡ total
  pub linked : Linked k s.0.opposites
  pub seen : (key : ℕ × ℕ) (o : ℕ) → find_edge key s.1 ≡ some o → o < k

-- What a step keeps where it succeeds.
abbrev pub Stays : ℕ → ℕ → Result (CornerTable × Edges) → Type 0
Stays total k r = (s : CornerTable × Edges) → r ≡ ok s → Keeps total k s

pub Linked-suc : (k : ℕ) (opp : List ℤ) → Linked k opp → Linked (suc k) opp
Linked-suc k opp l c d e =
    let (back, c_lt, d_lt, differ) = l c d e in
    (back, omega (arith, c_lt), omega (arith, d_lt), differ)

seen-cons :
    (k : ℕ) (key : ℕ × ℕ) (edges : Edges)
    → ((key' : ℕ × ℕ) (o : ℕ) → find_edge key' edges ≡ some o → o < k)
    → (key' : ℕ × ℕ) (o : ℕ) → find_edge key' ((key, k) ∷ edges) ≡ some o
    → o < suc k
unfolding find_edge
seen-cons k key edges seen key' o e = elim (Bool-cases (same_key key key')) [
  | inl same ↦ let at : k ≡ o = some_inv (rw same at e) in omega (arith, at)
  | inr other ↦ let before : o < k = seen key' o (rw other at e) in omega (arith, before)
]

pub link_corner-Keeps :
    (total k : ℕ) (key : ℕ × ℕ) (s : CornerTable × Edges)
    → k < total
    → Keeps total k s
    → Stays total (suc k) (link_corner k key s)
unfolding link_corner both
link_corner-Keeps total k key (t, edges) room h s' e = elim (Option-cases (find_edge key edges)) [
  | inl new ↦ subst (Keeps total (suc k)) (ok_inv (rw new at e)) (record {
    size = h.size;
    linked = Linked-suc k t.opposites h.linked;
    seen = seen-cons k key edges h.seen;
  })
  | inr (o, found) ↦ elim (Bool-cases (is_invalid (get_or t.opposites o invalid_corner))) [
    | inl free ↦ subst (Keeps total (suc k)) (ok_inv (rw (found, free) at e)) (record {
      size =
          length-set (set t.opposites k (pos o)) o (pos k)
          ∙ length-set t.opposites k (pos o)
          ∙ h.size;
      linked =
          both-Linked t.opposites k o h.linked (omega (arith, room, h.size)) (h.seen key o found)
            free;
      seen = λ key' o' q. omega (arith, h.seen key' o' q);
    })
    | inr taken ↦ absurd (err≢ok (rw (found, taken) at e))
  ]
]
