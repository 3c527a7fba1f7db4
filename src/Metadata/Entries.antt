-- ===== src/Metadata/Entries.antt =====
-- What the entries of an element are after one is set.
use mathlib.Core.Path.{subst}
use go_draco.Common.{
  ℕ, ◌^◌, ◌≤◌, ◌<◌, ◌≡◌, refl, sym, ap, ◌∙◌, inl, inr, Bool, true, false, Bool-cases, List, [], ◌∷◌,
  Option, none, some, length, arith, ltb, ◌==◌, if◌then◌else◌, ltb→ge, ge→ltb, Error, Result, ok,
  err, slices_equal, slices_equal→eq, ne→==_false, eq→==, metadata_key_length, metadata_empty_value,
  duplicate_metadata_key,
}
use go_draco.Common.Int.{ℤ, to_uint32, to_int32, IsInt32, pos, negsuc}
use go_draco.Core.Words.{le_bytes, length-le_bytes, little_endian-le_bytes}
use go_draco.Metadata.{
  Entry, Element, element, Children, after_first, entry_index, at_index, entry, put_at,
  set_entry_value, set_int, int_of, int, contains, validate_entries, and_also, validate,
  validate_children,
}

put : Entry → List Entry → List Entry
put e es = put_at (entry_index e.key es) e es

entry-cons :
    (key : List ℕ) (e : Entry) (es : List Entry)
    → entry key (e ∷ es) ≡ (if slices_equal e.key key then some e else entry key es)
unfolding entry entry_index
entry-cons key e es = elim (Bool-cases (slices_equal e.key key)) [
  | inl same ↦ rw same refl
  | inr other ↦ rw other (later (entry_index key es))
]
  where
    later : (i : Option ℕ) → at_index (e ∷ es) (after_first i) ≡ at_index es i
    later none = refl
    later (some i) = refl

put-cons :
    (n e : Entry) (es : List Entry)
    → put n (e ∷ es) ≡ (if slices_equal e.key n.key then n ∷ es else e ∷ put n es)
unfolding put entry_index
put-cons n e es = elim (Bool-cases (slices_equal e.key n.key)) [
  | inl same ↦ rw same refl
  | inr other ↦ rw other (later (entry_index n.key es))
]
  where
    later : (i : Option ℕ) → put_at (after_first i) n (e ∷ es) ≡ e ∷ put_at i n es
    later none = refl
    later (some i) = refl

put-nil : (n : Entry) → put n [] ≡ n ∷ []
unfolding put entry_index
put-nil n = refl

same_key : (xs : List ℕ) → slices_equal xs xs ≡ true
same_key [] = refl
same_key (x ∷ xs) = ground (arith, same_key xs)

if_twice :
    {A : Type 0} (b : Bool) (x y z : A)
    → (if b then x else z) ≡ (if b then x else if b then y else z)
if_twice true x y z = refl
if_twice false x y z = refl

if_apart :
    {A : Type 0} (b c : Bool) (x y z : A)
    → (b ≡ true → c ≡ true → ⊥)
    → (if b then x else if c then y else z) ≡ (if c then y else if b then x else z)
if_apart true true x y z h = absurd (h refl refl)
if_apart true false x y z h = refl
if_apart false true x y z h = refl
if_apart false false x y z h = refl

-- The entry that was set, and the others as they were.
entry-put :
    (key : List ℕ) (n : Entry) (es : List Entry)
    → entry key (put n es) ≡ (if slices_equal n.key key then some n else entry key es)
entry-put key n [] = ap (entry key) (put-nil n) ∙ entry-cons key n []
entry-put key n (e ∷ es) = elim (Bool-cases (slices_equal e.key n.key)) [
  | inl same ↦
      rw
        (
          put-cons n e es,
          same,
          entry-cons key n es,
          entry-cons key e es,
          slices_equal→eq e.key n.key same,
        )
        (if_twice (slices_equal n.key key) (some n) (some (record { key = n.key; value = e.value }))
          (entry key es))
  | inr other ↦
      rw
        (
          put-cons n e es,
          other,
          entry-cons key e (put n es),
          entry-cons key e es,
          entry-put key n es,
        )
        (if_apart (slices_equal e.key key) (slices_equal n.key key) (some e) (some n) (entry key es)
          (apart other))
]
  where
    apart :
        slices_equal e.key n.key ≡ false
        → slices_equal e.key key ≡ true
        → slices_equal n.key key ≡ true
        → ⊥
    apart other a b =
        let both : e.key ≡ n.key =
          slices_equal→eq e.key key a ∙ sym (slices_equal→eq n.key key b) in
        let same : slices_equal e.key n.key ≡ true =
          subst (λ k. slices_equal e.key k ≡ true) both (same_key e.key) in
        ground (arith, other, same)

set_entry_value-put :
    (key value : List ℕ) (es : List Entry) (cs : Children)
    → length key ≤ 255
    → 0 < length value
    → set_entry_value key value (element es cs)
      ≡ (ok tt, element (put (record { key = key; value = value }) es) cs)
unfolding set_entry_value put
set_entry_value-put key value es cs short some_value =
    rw
      (
        ge→ltb 255 (length key) short,
        ne→==_false (length value) 0 (λ e. omega (arith, e, some_value)),
      )
      refl

int_of-if :
    (b : Bool) (x y : Option Entry)
    → int_of (if b then x else y) ≡ (if b then int_of x else int_of y)
int_of-if true x y = refl
int_of-if false x y = refl

int_bytes-back :
    (key : List ℕ) (v : ℤ)
    → IsInt32 v
    → int_of (some (record { key = key; value = le_bytes 4 (to_uint32 v) })) ≡ some v
int_bytes-back key v h =
    rw
      (
        eq→== (length (le_bytes 4 (to_uint32 v))) 4 (length-le_bytes 4 (to_uint32 v)),
        little_endian-le_bytes 4 (to_uint32 v) (below v),
      )
      (ap some (signed_back v h))
  where
    below : (z : ℤ) → to_uint32 z < 256 ^ 4
    below (pos n) = omega arith
    below (negsuc n) = omega arith

    signed_back : (z : ℤ) → IsInt32 z → to_int32 (to_uint32 z) ≡ z
    signed_back (pos n) k = ground arith
    signed_back (negsuc n) k = ground arith

-- For a key of at most 255 bytes and an int32 value, SetInt succeeds, and after it Int returns that
-- value under that key and what it returned before under every other key.
pub int-set_int :
    (key other : List ℕ) (v : ℤ) (e : Element)
    → length key ≤ 255
    → IsInt32 v
    → (e' : Element) × (set_int key v e ≡ (ok tt, e'))
      × (int other e' ≡ (if slices_equal key other then some v else int other e))
unfolding set_int int
int-set_int key other v (element es cs) short h =
    let n : Entry = record { key = key; value = le_bytes 4 (to_uint32 v) } in
    (
      element (put n es) cs,
      set_entry_value-put key (le_bytes 4 (to_uint32 v)) es cs short
          (omega (arith, length-le_bytes 4 (to_uint32 v))),
      ap int_of (entry-put other n es)
          ∙ int_of-if (slices_equal key other) (some n) (entry other es)
          ∙ ap (λ x. if slices_equal key other then x else int_of (entry other es))
              (int_bytes-back key v h),
    )

positive : (m : ℕ) → (m == 0) ≡ false → 0 < m
positive m b = ground (arith, b)

pub guarded :
    (b : Bool) (x : Error) (r : Result (Unit {0}))
    → (if b then err x else r) ≡ ok tt
    → (b ≡ false) × (r ≡ ok tt)
guarded true x r h = cc
guarded false x r h = (refl, h)

-- What the guards of Validate have shown.
pub first_checks :
    (seen : List (List ℕ)) (e : Entry) (es : List Entry)
    → validate_entries seen (e ∷ es) ≡ ok tt
    → (length e.key ≤ 255)
      × (0 < length e.value)
      × (contains e.key seen ≡ false)
      × (validate_entries (e.key ∷ seen) es ≡ ok tt)
unfolding validate_entries
first_checks seen e es h =
    let (a, h1) = guarded (ltb 255 (length e.key)) metadata_key_length _ h in
    let (b, h2) = guarded (length e.value == 0) metadata_empty_value _ h1 in
    let (c, h3) = guarded (contains e.key seen) duplicate_metadata_key _ h2 in
    (ltb→ge 255 (length e.key) a, positive (length e.value) b, c, h3)

checked :
    (seen : List (List ℕ)) (e : Entry) (es : List Entry)
    → length e.key ≤ 255
    → 0 < length e.value
    → contains e.key seen ≡ false
    → validate_entries (e.key ∷ seen) es ≡ ok tt
    → validate_entries seen (e ∷ es) ≡ ok tt
unfolding validate_entries
checked seen e es short some_value new rest =
    rw
      (
        ge→ltb 255 (length e.key) short,
        ne→==_false (length e.value) 0 (λ z. omega (arith, z, some_value)),
        new,
      )
      rest

validate_entries-put :
    (seen : List (List ℕ)) (n : Entry) (es : List Entry)
    → length n.key ≤ 255
    → 0 < length n.value
    → contains n.key seen ≡ false
    → validate_entries seen es ≡ ok tt
    → validate_entries seen (put n es) ≡ ok tt
unfolding validate_entries
validate_entries-put seen n [] short some_value new h =
    subst (λ l. validate_entries seen l ≡ ok tt) (sym (put-nil n))
      (checked seen n [] short some_value new refl)
validate_entries-put seen n (e ∷ es) short some_value new h =
    let (short', some', new', rest) = first_checks seen e es h in
    elim (Bool-cases (slices_equal e.key n.key)) [
      | inl same ↦
          rw (put-cons n e es, same)
            (checked seen n es short some_value new (
              subst (λ k. validate_entries (k ∷ seen) es ≡ ok tt) (slices_equal→eq e.key n.key same)
                rest))
      | inr other ↦
          rw (put-cons n e es, other)
            (checked seen e (put n es) short' some' new' (
              validate_entries-put (e.key ∷ seen) n es short some_value (ground (arith, other, new))
                rest))
    ]

pub both_ok : (r s : Result (Unit {0})) → and_also r s ≡ ok tt → (r ≡ ok tt) × (s ≡ ok tt)
both_ok (ok t) s h = (refl, h)
both_ok (err x) s h = cc

-- Setting an entry, whether it succeeds or fails, leaves an element that Validate accepts if it
-- accepted the one before.
pub validate-set_entry_value :
    (key value : List ℕ) (e : Element)
    → validate e ≡ ok tt
    → validate (set_entry_value key value e).1 ≡ ok tt
unfolding set_entry_value validate put
validate-set_entry_value key value (element es cs) h = elim (Bool-cases (ltb 255 (length key))) [
  | inl long ↦ rw long h
  | inr short ↦ elim (Bool-cases (length value == 0)) [
    | inl empty ↦ rw (short, empty) h
    | inr some_value ↦
        let n : Entry = record { key = key; value = value } in
        let (a, b) = both_ok (validate_entries [] es) _ h in
        rw (short, some_value)
          (ap (λ r. and_also r (validate_children [] cs))
              (validate_entries-put [] n es (ltb→ge 255 (length key) short)
                (positive (length value) some_value) refl a)
            ∙ b)
  ]
]
