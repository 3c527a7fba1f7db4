-- ===== src/Entropy/FoldedBit/Columns.antt =====
-- The bits that each of the coders of FoldedBit32Encoder is given by a run of calls.
use go_draco.Common.{
  ℕ, zero, suc, ◌/◌, ◌%◌, ◌^◌, ◌≤◌, ◌<◌, ◌≡◌, refl, sym, ap, ◌∙◌, Bool, List, [], ◌∷◌, none, length,
  All, replicate, arith, ◌==◌,
}
use go_draco.Entropy.BitCoder.{BitCoder, encode_all}
use go_draco.Entropy.FoldedBit.{
  FoldedBit32Encoder, encode_bit, encode_each, encode_width, encode_least_significant_bits32,
}
use go_draco.Common.Int.{ℤ}
use go_draco.Entropy.RansBit.Values.Packing.{valid}

-- A call of EncodeBit, or of EncodeLeastSignificantBits32 with a width and a value.
pub data Call : Type 0 where
  bit : Bool → Call
  value : ℕ → ℕ → Call

-- What the decoder is asked for.
pub data Shape : Type 0 where
  one_bit : Shape
  width : ℕ → Shape

abbrev pub shapes : List Call → List Shape
shapes [] = []
shapes (bit b ∷ calls) = one_bit ∷ shapes calls
shapes (value n v ∷ calls) = width n ∷ shapes calls

-- The value has the width that it is written with.
abbrev pub Fits : Call → Type 0
Fits (bit b) = Unit {0}
Fits (value n v) = (0 < n) × (n ≤ 32) × (v < 2 ^ n)

-- The bits of a value before those that come later.
unfoldable pub push_each : ℕ → ℕ → List (List Bool) → List (List Bool)
push_each zero v cs = cs
push_each (suc n) v [] = []
push_each (suc n) v (c ∷ cs) = ((v / 2 ^ n % 2 == 1) ∷ c) ∷ push_each n v cs

unfoldable pub columns : List Call → List (List Bool)
columns [] = replicate 32 []
columns (bit b ∷ calls) = columns calls
columns (value n v ∷ calls) = push_each n v (columns calls)

unfoldable pub plain : List Call → List Bool
plain [] = []
plain (bit b ∷ calls) = b ∷ plain calls
plain (value n v ∷ calls) = plain calls

-- No column is longer than the bound.
abbrev pub AllBelow : ℕ → List (List Bool) → Type 0
AllBelow m cs = All (λ c. length c ≤ m) cs

length-push_each : (n v : ℕ) (cs : List (List Bool)) → length (push_each n v cs) ≡ length cs
unfolding push_each
length-push_each zero v cs = refl
length-push_each (suc n) v [] = refl
length-push_each (suc n) v (c ∷ cs) = ap suc (length-push_each n v cs)

pub length-columns : (calls : List Call) → length (columns calls) ≡ 32
unfolding columns
length-columns [] = refl
length-columns (bit b ∷ calls) = length-columns calls
length-columns (value n v ∷ calls) = length-push_each n v (columns calls) ∙ length-columns calls

AllBelow-suc : (m : ℕ) (cs : List (List Bool)) → AllBelow m cs → AllBelow (suc m) cs
AllBelow-suc m [] h = h
AllBelow-suc m (c ∷ cs) (h, hs) = (omega (arith, h), AllBelow-suc m cs hs)

push_each-AllBelow :
    (m n v : ℕ) (cs : List (List Bool)) → AllBelow m cs → AllBelow (suc m) (push_each n v cs)
unfolding push_each
push_each-AllBelow m zero v cs h = AllBelow-suc m cs h
push_each-AllBelow m (suc n) v [] h = h
push_each-AllBelow m (suc n) v (c ∷ cs) (h, hs) = (omega (arith, h), push_each-AllBelow m n v cs hs)

replicate-AllBelow : (k : ℕ) → AllBelow 0 (replicate k [])
replicate-AllBelow zero = tt
replicate-AllBelow (suc k) = (omega arith, replicate-AllBelow k)

pub columns-AllBelow : (calls : List Call) → AllBelow (length calls) (columns calls)
unfolding columns
columns-AllBelow [] = replicate-AllBelow 32
columns-AllBelow (bit b ∷ calls) =
    AllBelow-suc (length calls) (columns calls) (columns-AllBelow calls)
columns-AllBelow (value n v ∷ calls) =
    push_each-AllBelow (length calls) n v (columns calls) (columns-AllBelow calls)

pub length-plain : (calls : List Call) → length (plain calls) ≤ length calls
unfolding plain
length-plain [] = omega arith
length-plain (bit b ∷ calls) = omega (arith, length-plain calls)
length-plain (value n v ∷ calls) = omega (arith, length-plain calls)

module _ {E D : Type 0} (coder : BitCoder E D) where
  unfoldable pub encode_call : Call → FoldedBit32Encoder E → FoldedBit32Encoder E
  encode_call (bit b) e = encode_bit coder b e
  encode_call (value n v) e = encode_least_significant_bits32 coder (ℤ.pos n) v e

  unfoldable pub encode_calls : List Call → FoldedBit32Encoder E → FoldedBit32Encoder E
  encode_calls [] e = e
  encode_calls (call ∷ calls) e = encode_calls calls (encode_call call e)

  -- Every coder is given its column.
  unfoldable pub encode_columns : List (List Bool) → List E → List E
  encode_columns [] es = es
  encode_columns (c ∷ cs) [] = []
  encode_columns (c ∷ cs) (e ∷ es) = encode_all coder c e ∷ encode_columns cs es

  -- An encoder with no error.
  abbrev pub holding : List E → E → FoldedBit32Encoder E
  holding es e = record { folded = es; bits = e; error = none }

  encode_columns-empty :
      (k : ℕ) (es : List E) → length es ≡ k → encode_columns (replicate k []) es ≡ es
  unfolding encode_columns encode_all
  encode_columns-empty zero es h = refl
  encode_columns-empty (suc k) [] h = refl
  encode_columns-empty (suc k) (e ∷ es) h =
      ap (λ l. e ∷ l) (encode_columns-empty k es (omega (arith, h)))

  encode_columns-push :
      (n v : ℕ) (cs : List (List Bool)) (es : List E)
      → length cs ≡ length es
      → encode_columns (push_each n v cs) es ≡ encode_columns cs (encode_each coder n v es)
  unfolding encode_columns push_each encode_each encode_all
  encode_columns-push zero v cs es h = refl
  encode_columns-push (suc n) v [] [] h = refl
  encode_columns-push (suc n) v [] (e ∷ es) h = absurd (omega (arith, h))
  encode_columns-push (suc n) v (c ∷ cs) [] h = absurd (omega (arith, h))
  encode_columns-push (suc n) v (c ∷ cs) (e ∷ es) h =
      ap (λ l. encode_all coder c (coder.encode_bit (v / 2 ^ n % 2 == 1) e) ∷ l)
        (encode_columns-push n v cs es (omega (arith, h)))

  length-encode_each : (n v : ℕ) (es : List E) → length (encode_each coder n v es) ≡ length es
  unfolding encode_each
  length-encode_each zero v es = refl
  length-encode_each (suc n) v [] = refl
  length-encode_each (suc n) v (e ∷ es) = ap suc (length-encode_each n v es)

  encode_value :
      (n v : ℕ) (es : List E) (e : E)
      → (0 < n) × (n ≤ 32) × (v < 2 ^ n)
      → encode_least_significant_bits32 coder (ℤ.pos n) v (holding es e)
        ≡ holding (encode_each coder n v es) e
  unfolding encode_least_significant_bits32
  encode_value n v es e (positive, few, small) =
      ap (λ o. encode_width coder o v (holding es e)) (valid n positive few)

  -- A run of calls gives every coder its column.
  pub encode_calls-columns :
      (calls : List Call) (es : List E) (e : E)
      → All Fits calls
      → length es ≡ 32
      → encode_calls calls (holding es e)
        ≡ holding (encode_columns (columns calls) es) (encode_all coder (plain calls) e)
  unfolding encode_calls encode_call columns plain encode_all encode_bit
  encode_calls-columns [] es e h all = λ i. holding (sym (encode_columns-empty 32 es all) i) e
  encode_calls-columns (bit b ∷ calls) es e (h, hs) all =
      encode_calls-columns calls es (coder.encode_bit b e) hs all
  encode_calls-columns (value n v ∷ calls) es e (h, hs) all =
      ap (encode_calls calls) (encode_value n v es e h)
      ∙ encode_calls-columns calls (encode_each coder n v es) e hs (length-encode_each n v es ∙ all)
      ∙ λ i.
          holding
            (sym (encode_columns-push n v (columns calls) es (length-columns calls ∙ sym all)) i)
            (encode_all coder (plain calls) e)
