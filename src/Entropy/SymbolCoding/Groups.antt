-- ===== src/Entropy/SymbolCoding/Groups.antt =====
-- The groups of the tagged scheme, and the loops of decodeTaggedSymbols over them.
use go_draco.Entropy.RansDecoder.{RansDecoder, read_symbol}
use native.Mathlib.Nat.{add_assoc, mod-eq_of_lt}
use go_draco.Core.BitPacking.Reading.{bits_at-append, bits_at-eq}
use go_draco.Entropy.Rans.RoundTrip.{read_symbols}
use mathlib.Core.Path.{subst}
use go_draco.Entropy.Symbols.{tagged_loop, read_all, cons_value}
use go_draco.Entropy.Symbols.{read_components}
use go_draco.Entropy.Symbols.{read_tagged_bits_lsb}
use go_draco.Core.Words.{IsByte}
use go_draco.Core.BitPacking.RoundTrip.{Fits, total_width, Pending, Pending-step}
use go_draco.Core.BitPacking.{Field}
use go_draco.Entropy.SymbolEncoding.{group_fields}
use go_draco.Common.{
  ℕ, zero, suc, ◌+◌, ◌-◌, ◌*◌, ◌%◌, ◌^◌, ◌≤◌, ◌<◌, ◌≡◌, refl, ap, ◌∙◌, List, [], ◌∷◌, ◌++◌, Option,
  none, some, length, All, take, drop, length-append, length-drop, arith, ge→ltb, le→leb,
  lt→leb_false, Result, ok, err, bind_ok, length-take, ne→==_false, All-append, map,
  tagged_bits_exhausted,
}

-- The symbols in groups of `c`, each with a width that holds its symbols.
abbrev pub Groups : ℕ → List ℕ → List ℕ → Type 0
Groups c ss [] = ss ≡ []
Groups c ss (n ∷ ns) =
    ((0 < n) × (n ≤ 32))
    × All (λ v. v < 2 ^ n) (take c ss)
    × (c ≤ length ss)
    × Groups c (drop c ss) ns

abbrev fields : ℕ → List ℕ → List Field
fields n vs = map (λ v. record { value = v; width = n }) vs

fields-Fits : (n : ℕ) (vs : List ℕ) → n ≤ 32 → All (λ v. v < 2 ^ n) vs → All Fits (fields n vs)
fields-Fits n [] few h = tt
fields-Fits n (v ∷ vs) few (h, hs) = ((h, few), fields-Fits n vs few hs)

pub group_fields-Fits : (c : ℕ) (ss ns : List ℕ) → Groups c ss ns → All Fits (group_fields c ss ns)
unfolding group_fields
group_fields-Fits c ss [] g = tt
group_fields-Fits c ss (n ∷ ns) ((some_bit, few), hs, room, g) =
    All-append Fits (fields n (take c ss)) (group_fields c (drop c ss) ns)
      (fields-Fits n (take c ss) few hs) (group_fields-Fits c (drop c ss) ns g)

take-drop : (n : ℕ) (xs : List ℕ) → take n xs ++ drop n xs ≡ xs
take-drop zero xs = refl
take-drop (suc n) [] = refl
take-drop (suc n) (x ∷ xs) = ap (◌∷◌ x) (take-drop n xs)

components-step :
    (n : ℕ) (buf : List ℕ) (w room offset : ℕ) {v o : ℕ}
    → read_tagged_bits_lsb buf (length buf * 8) offset w ≡ some (v, o)
    → read_components (suc n) buf w (suc room) offset
      ≡ cons_value v (read_components n buf w room o)
unfolding read_components
components-step n buf w room offset e =
    ap
      (λ (x : Option (ℕ × ℕ)). elim x as (λ y. Result (List ℕ × ℕ)) [
        | none ↦ err tagged_bits_exhausted
        | some read ↦ cons_value read.0 (read_components n buf w room read.1)
      ])
      e

-- A read of a field that comes next, whatever follows the bytes.
head_eq : {x y : ℕ} {xs ys : List ℕ} → x ∷ xs ≡ y ∷ ys → x ≡ y
head_eq e = cc

tail_eq : {x y : ℕ} {xs ys : List ℕ} → x ∷ xs ≡ y ∷ ys → xs ≡ ys
tail_eq e = cc

module _ (xs rest : List ℕ) (bytes : All IsByte xs) where
  tagged_read :
      (n v offset : ℕ) (fs : List Field)
      → 0 < n
      → n ≤ 32
      → v < 2 ^ n
      → Pending xs offset (record { value = v; width = n } ∷ fs)
      → (read_tagged_bits_lsb (xs ++ rest) (length (xs ++ rest) * 8) offset n
          ≡ some (v, offset + n))
        × Pending xs (offset + n) fs
  unfolding read_tagged_bits_lsb
  tagged_read zero v offset fs some_bit few small h = absurd (omega (arith, some_bit))
  tagged_read (suc n) v offset fs some_bit few small h =
      let (first, inside, others) =
        Pending-step xs offset (record { value = v; width = suc n }) fs (small, few) h in
      let size = length-append xs rest in
      (
        rw
            (
              ne→==_false (suc n) 0 (λ e. absurd (omega (arith, e))),
              ge→ltb (length (xs ++ rest) * 8) offset (omega (arith, inside, size)),
              ge→ltb (length (xs ++ rest) * 8 - offset) (suc n) (omega (arith, inside, size)),
              bits_at-append xs rest offset n inside,
              bits_at-eq xs offset (suc n) bytes few,
              first,
            )
            refl,
        others,
      )

  components_read :
      (n : ℕ) (vs : List ℕ) (room offset : ℕ) (fs : List Field)
      → 0 < n
      → n ≤ 32
      → All (λ v. v < 2 ^ n) vs
      → length vs ≤ room
      → Pending xs offset (fields n vs ++ fs)
      → (read_components (length vs) (xs ++ rest) n room offset
          ≡ ok (vs, offset + total_width (fields n vs)))
        × Pending xs (offset + total_width (fields n vs)) fs
  unfolding read_components total_width
  components_read n [] room offset fs some_bit few hs enough h =
      (λ i. ok ([], same i), subst (λ o. Pending xs o fs) same h)
    where
      same : offset ≡ offset + 0
      same = omega arith
  components_read n (v ∷ vs) zero offset fs some_bit few (small, hs) enough h =
      absurd (omega (arith, enough))
  components_read n (v ∷ vs) (suc room) offset fs some_bit few (small, hs) enough h =
      let (read, after) = tagged_read n v offset (fields n vs ++ fs) some_bit few small h in
      let (others, end) =
        components_read n vs room (offset + n) fs some_bit few hs (omega (arith, enough)) after in
      let total = add_assoc offset n (total_width (fields n vs)) in
      (
        components-step (length vs) (xs ++ rest) n room offset read
            ∙ rw others (λ i. ok (v ∷ vs, total i)),
        subst (λ o. Pending xs o fs) total end,
      )

  total_width-append :
      (fs gs : List Field) → total_width (fs ++ gs) ≡ total_width fs + total_width gs
  unfolding total_width
  total_width-append [] gs = omega arith
  total_width-append (f ∷ fs) gs = omega (arith, total_width-append fs gs)

  -- The loop over the tags returns the symbols.
  pub tagged_loop-symbols :
      (c n : ℕ) (ns ss : List ℕ) (fuel i offset : ℕ) (d : RansDecoder)
      → 0 < c
      → n ≤ 2 ^ 27
      → i + length ss ≡ n
      → length ns ≤ fuel
      → Groups c ss ns
      → read_symbols (length ns) d ≡ ns
      → Pending xs offset (group_fields c ss ns)
      → tagged_loop n c (xs ++ rest) fuel i (length ss) offset d
        ≡ (ok (ss, offset + total_width (group_fields c ss ns)), (read_all (length ns) d).1)
  unfolding tagged_loop group_fields total_width read_all read_symbols
  tagged_loop-symbols c n [] ss fuel i offset d some_c few count enough g reads h =
      rw g (loop-done fuel (omega (arith, count, ap length g)) ∙ (λ j. (ok ([], same j), d)))
    where
      same : offset ≡ offset + 0
      same = omega arith

      loop-done :
          (fuel : ℕ) → n ≤ i → tagged_loop n c (xs ++ rest) fuel i 0 offset d ≡ (ok ([], offset), d)
      loop-done zero done = rw (le→leb n i done) refl
      loop-done (suc fuel) done = rw (le→leb n i done) refl
  tagged_loop-symbols c n (w ∷ ns) ss zero i offset d some_c few count enough g reads h =
      absurd (omega (arith, enough))
  tagged_loop-symbols c n (w ∷ ns) ss (suc fuel) i offset d some_c few count enough
        ((some_bit, wide), hs, room, g) reads h =
      let d1 = (read_symbol d).1 in
      let this = fields w (take c ss) in
      let others = group_fields c (drop c ss) ns in
      let taken = length-take c ss room in
      let left = length-drop c ss in
      let (components, after) =
        components_read w (take c ss) (length ss) offset others some_bit wide hs
          (omega (arith, taken, room)) h in
      let components' : read_components c (xs ++ rest) w (length ss) offset
          ≡ ok (take c ss, offset + total_width this) =
        subst
          (λ k.
            read_components k (xs ++ rest) w (length ss) offset
            ≡ ok (take c ss, offset + total_width this))
          taken components in
      let next : (i + c) % 2 ^ 32 ≡ i + c = mod-eq_of_lt (omega (arith, count, few, room)) in
      let loop =
        tagged_loop-symbols c n ns (drop c ss) fuel (i + c) (offset + total_width this) d1 some_c
          few (omega (arith, count, left, room)) (omega (arith, enough)) g (tail_eq reads) after in
      let total : offset + total_width this + total_width others
          ≡ offset + total_width (this ++ others) =
        omega (arith, total_width-append this others) in
      rw
        (
          lt→leb_false n i (omega (arith, count, room, some_c)),
          head_eq reads,
          ge→ltb 32 w wide,
          components',
          next,
          ← left,
        )
        (bind_ok
            (tagged_loop n c (xs ++ rest) fuel (i + c) (length (drop c ss))
              (offset + total_width this))
            _ d1 loop
          ∙ (λ j. (ok (take-drop c ss j, total j), (read_all (length ns) d1).1)))
