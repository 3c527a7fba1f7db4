-- ===== src/Entropy/FoldedBit/Decoding.antt =====
-- FoldedBit32Decoder over decoders that give their columns.
use go_draco.Core.Fields.{pow_positive}
use native.Mathlib.Nat.{mod-eq_of_lt}
use go_draco.Common.{
  ℕ, zero, suc, ◌+◌, ◌-◌, ◌*◌, ◌/◌, ◌%◌, ◌^◌, ◌≤◌, ◌<◌, ◌≡◌, refl, ap, ◌∙◌, Bool, List, [], ◌∷◌,
  Option, none, some, length, All, get_or, drop, arith, ◌==◌,
}
use go_draco.Entropy.BitCoder.{BitCoder, decode_all, Gives}
use go_draco.Entropy.FoldedBit.{
  FoldedBit32Decoder, decode_next_bit, decode_each, decode_width, decode_least_significant_bits32,
}
use go_draco.Entropy.RansBit.{bool_to_bit}
use go_draco.Common.Int.{ℤ}
use go_draco.Entropy.RansBit.Values.Packing.{valid}
use go_draco.Entropy.RansBit.Values.Digits.{high_bits}
use go_draco.Entropy.RansBit.Values.Reading.{from_high, from_high-high_bits}
use go_draco.Entropy.FoldedBit.Columns.{
  Call, bit, value, Shape, one_bit, width, shapes, Fits, push_each, columns, plain, length-columns,
}

head_is : (b c : Bool) (bs cs : List Bool) → b ∷ bs ≡ c ∷ cs → b ≡ c
head_is b c bs cs h = ap (λ (l : List Bool). get_or l 0 b) h

tail_is : (b c : Bool) (bs cs : List Bool) → b ∷ bs ≡ c ∷ cs → bs ≡ cs
tail_is b c bs cs h = ap (drop 1) h

module _ {E D : Type 0} (coder : BitCoder E D) where
  unfoldable pub decode_call : Shape → FoldedBit32Decoder D → Option Call × FoldedBit32Decoder D
  decode_call one_bit d = let (b, d') = decode_next_bit coder d in (some (bit b), d')
  decode_call (width n) d =
      let (v, d') = decode_least_significant_bits32 coder (ℤ.pos n) d in
      (elim v [ none ↦ none | some x ↦ some (value n x) ], d')

  abbrev and_then : Option Call → Option (List Call) → Option (List Call)
  and_then none calls = none
  and_then (some call) none = none
  and_then (some call) (some calls) = some (call ∷ calls)

  -- All the answers, where no call fails.
  unfoldable pub decode_calls :
      List Shape → FoldedBit32Decoder D → Option (List Call) × FoldedBit32Decoder D
  decode_calls [] d = (some [], d)
  decode_calls (s ∷ ss) d =
      let (call, d') = decode_call s d in
      let (calls, d'') = decode_calls ss d' in (and_then call calls, d'')

  -- Every decoder gives its column.
  unfoldable pub AllGive : List D → List (List Bool) → Type 0
  AllGive [] [] = Unit {0}
  AllGive [] (c ∷ cs) = ⊥
  AllGive (d ∷ ds) [] = ⊥
  AllGive (d ∷ ds) (c ∷ cs) = Gives coder d c × AllGive ds cs

  -- The first bit that a decoder gives.
  Gives-first :
      (d : D) (b : Bool) (bs : List Bool)
      → Gives coder d (b ∷ bs)
      → ((coder.decode_next_bit d).0 ≡ b) × Gives coder (coder.decode_next_bit d).1 bs
  unfolding decode_all
  Gives-first d b bs (d', h) =
      let next = coder.decode_next_bit d in
      let rest = decode_all coder (length bs) next.1 in
      let first = ap (λ (t : List Bool × D). t.0) h in
      (
        head_is next.0 b rest.0 bs first,
        (d', λ i. (tail_is next.0 b rest.0 bs first i, (ap (λ (t : List Bool × D). t.1) h) i)),
      )

  decode_each-columns :
      (n v result : ℕ) (cs : List (List Bool)) (ds : List D)
      → n ≤ length cs
      → AllGive ds (push_each n v cs)
      → (ds' : List D) × (decode_each coder n result ds ≡ (from_high result (high_bits n v), ds'))
        × AllGive ds' cs
  unfolding decode_each from_high high_bits push_each AllGive
  decode_each-columns zero v result cs ds h g = (ds, refl, g)
  decode_each-columns (suc n) v result [] ds h g = absurd (omega (arith, h))
  decode_each-columns (suc n) v result (c ∷ cs) [] h g = absurd g
  decode_each-columns (suc n) v result (c ∷ cs) (d ∷ ds) h (g, gs) =
      let (first, later) = Gives-first d (v / 2 ^ n % 2 == 1) c g in
      let next = coder.decode_next_bit d in
      let r = (result * 2 + bool_to_bit (v / 2 ^ n % 2 == 1)) % 2 ^ 32 in
      let (ds', eq, gs') = decode_each-columns n v r cs ds (omega (arith, h)) gs in
      (
        next.1 ∷ ds',
        ap
              (λ b. (
                (decode_each coder n ((result * 2 + bool_to_bit b) % 2 ^ 32) ds).0,
                next.1 ∷ (decode_each coder n ((result * 2 + bool_to_bit b) % 2 ^ 32) ds).1,
              ))
              first
            ∙ ap (λ (t : ℕ × List D). (t.0, next.1 ∷ t.1)) eq,
        (later, gs'),
      )

  -- A decoder with no error.
  abbrev pub reading : List D → D → FoldedBit32Decoder D
  reading ds d = record { folded = ds; bits = d; error = none }

  decode_value :
      (n v : ℕ) (cs : List (List Bool)) (ds : List D) (d : D)
      → length cs ≡ 32
      → (0 < n) × (n ≤ 32) × (v < 2 ^ n)
      → AllGive ds (push_each n v cs)
      → (ds' : List D) × (decode_call (width n) (reading ds d) ≡ (some (value n v), reading ds' d))
        × AllGive ds' cs
  unfolding decode_call decode_least_significant_bits32
  decode_value n v cs ds d all (positive, few, small) g =
      let (ds', eq, g') = decode_each-columns n v 0 cs ds (omega (arith, all, few)) g in
      let whole : from_high 0 (high_bits n v) ≡ v =
        from_high-high_bits n 0 v few (pow_positive (32 - n)) ∙ whole_value in
      (
        ds',
        ap (λ (o : Option ℕ). answer (decode_width coder o (reading ds d))) (valid n positive few)
            ∙ ap (λ (t : ℕ × List D). (some (value n t.0), reading t.1 d))
                (eq ∙ λ i. (whole i, ds')),
        g',
      )
    where
      answer : Option ℕ × FoldedBit32Decoder D → Option Call × FoldedBit32Decoder D
      answer (o, e) = (elim o [ none ↦ none | some x ↦ some (value n x) ], e)

      whole_value : 0 * 2 ^ n + v % 2 ^ n ≡ v
      whole_value = omega (arith, mod-eq_of_lt {n = v} {m = 2 ^ n} small)

  -- A run of calls takes the columns off the decoders.
  pub decode_calls-columns :
      (calls : List Call) (ds : List D) (d : D)
      → All Fits calls
      → AllGive ds (columns calls)
      → Gives coder d (plain calls)
      → (d' : FoldedBit32Decoder D) × (decode_calls (shapes calls) (reading ds d)
          ≡ (some calls, d'))
  unfolding decode_calls columns plain decode_call decode_next_bit
  decode_calls-columns [] ds d h g p = (reading ds d, refl)
  decode_calls-columns (bit b ∷ calls) ds d (h, hs) g p =
      let (first, later) = Gives-first d b (plain calls) p in
      let (d', eq) = decode_calls-columns calls ds (coder.decode_next_bit d).1 hs g later in
      (d', step b (coder.decode_next_bit d).1 first eq)
    where
      step :
          (c : Bool) (e : D) {d' : FoldedBit32Decoder D}
          → (coder.decode_next_bit d).0 ≡ c
          → decode_calls (shapes calls) (reading ds (coder.decode_next_bit d).1) ≡ (some calls, d')
          → decode_calls (one_bit ∷ shapes calls) (reading ds d) ≡ (some (bit c ∷ calls), d')
      step c e {d'} first eq =
          ap
            (λ (t : Option (List Call) × FoldedBit32Decoder D).
              (and_then (some (bit (coder.decode_next_bit d).0)) t.0, t.1))
            eq
          ∙ λ i. (some (bit (first i) ∷ calls), d')
  decode_calls-columns (value n v ∷ calls) ds d (h, hs) g p =
      let (ds', eq, g') = decode_value n v (columns calls) ds d (length-columns calls) h g in
      let (d', eq') = decode_calls-columns calls ds' d hs g' p in
      (
        d',
        ap
              (λ (t : Option Call × FoldedBit32Decoder D). (
                and_then t.0 (decode_calls (shapes calls) t.1).0,
                (decode_calls (shapes calls) t.1).1,
              ))
              eq
            ∙ ap
                (λ (t : Option (List Call) × FoldedBit32Decoder D).
                  (and_then (some (value n v)) t.0, t.1))
                eq',
      )
