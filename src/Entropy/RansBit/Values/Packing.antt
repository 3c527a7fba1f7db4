-- ===== src/Entropy/RansBit/Values/Packing.antt =====
-- EncodeLeastSignificantBits32 on the bits that the encoder holds.
use go_draco.Core.Fields.{pow_positive, pow_add}
use go_draco.Core.Fields.{shifted-lt}
use go_draco.Entropy.RansBit.Packing.{IsOpen, held, flush-IsOpen, flush-held}
use native.Mathlib.Nat.{div-one, add_comm, mod-eq_of_lt, pow-le-pow_right, div-lt_iff_lt-mul}
use native.Mathlib.Nat.{mod-lt}
use go_draco.Common.{
  ℕ, ◌+◌, ◌-◌, ◌*◌, ◌/◌, ◌%◌, ◌^◌, ◌≤◌, ◌<◌, ◌≡◌, refl, sym, ap, ◌∙◌, inl, inr, Bool-cases, ◌++◌,
  append_assoc, Option, none, some, arith, ltb, ltb→lt, ltb→ge, ge→ltb, le→leb, lt→leb_false, Error,
}
use mathlib.Core.Path.{subst}
use go_draco.Entropy.RansBit.{RansBitEncoder, ℤ}
use go_draco.Entropy.RansBit.Digits.{low_bits, words_bits, words_bits-snoc}
use go_draco.Entropy.RansBit.Values.{
  copy_bits32, reverse_bits, put_bits, valid_width, encode_least_significant_bits32, encode_width,
  ones_count,
}
use go_draco.Entropy.RansBit.Values.Digits.{
  low_bits-reverse_bits, reverse_bits-lt, reverse_bits-div, low_bits-split, low_bits-join,
  low_bits-mod, copy_bits32-eq, high_bits,
}

-- `n` bits go to an encoder whose current word has room for some.
module _ (e : RansBitEncoder) (o : IsOpen e) (n reversed : ℕ) (few : n ≤ 32)
    (small : reversed < 2 ^ n) where
  abbrev Puts : RansBitEncoder → Type 0
  Puts e' = IsOpen e' × (held e' ≡ held e ++ low_bits n reversed)

  word_limit : (k : ℕ) → k ≤ 32 → 2 ^ k ≤ 2 ^ 32
  word_limit k h = pow-le-pow_right {n = 2} (omega arith) h

  pub put_bits-fit : e.num_local_bits + n ≤ 32 → Puts (put_bits n reversed e)
  unfolding put_bits held
  put_bits-fit le =
      rw (le→leb n (32 - e.num_local_bits) (omega (arith, le, o.room)), copied)
        (
          flush-IsOpen e' (record { room = le; fits = fits; no_error = o.no_error }),
          flush-held e'
              ∙ ap (◌++◌ (words_bits e.bits))
                  (low_bits-join e.num_local_bits n e.local_bits reversed o.fits)
              ∙ sym (
                  append_assoc (words_bits e.bits) (low_bits e.num_local_bits e.local_bits)
                    (low_bits n reversed)),
        )
    where
      fits : e.local_bits + reversed * 2 ^ e.num_local_bits < 2 ^ (e.num_local_bits + n)
      fits = shifted-lt e.num_local_bits n e.local_bits reversed o.fits small

      same : reversed / 2 ^ 0 % 2 ^ n ≡ reversed
      same = ap (λ x. x % 2 ^ n) (div-one reversed) ∙ mod-eq_of_lt {n = reversed} {m = 2 ^ n} small

      copied :
          copy_bits32 e.local_bits e.num_local_bits reversed 0 n
          ≡ e.local_bits + reversed * 2 ^ e.num_local_bits
      copied =
          copy_bits32-eq e.num_local_bits n e.local_bits reversed 0 few
            (rw same (omega (arith, fits, word_limit (e.num_local_bits + n) le))) o.fits
          ∙ ap (λ x. e.local_bits + x * 2 ^ e.num_local_bits) same

      e' : RansBitEncoder
      e' = record e {
        local_bits = e.local_bits + reversed * 2 ^ e.num_local_bits;
        num_local_bits = e.num_local_bits + n;
      }

-- The bits are split over two words where the current one has less room than `n`.
module _ (num room rest v n reversed : ℕ) (full : num + room ≡ 32) (all : room + rest ≡ n)
    (few : n ≤ 32) (fits : v < 2 ^ num) (small : reversed < 2 ^ n) where
  low-lt : reversed % 2 ^ room < 2 ^ room
  low-lt = mod-lt reversed (pow_positive room)

  high-lt : reversed / 2 ^ room < 2 ^ rest
  high-lt = (div-lt_iff_lt-mul (pow_positive room)).1 (
      subst (λ x. reversed < x) (ap (λ k. 2 ^ k) (sym all ∙ add_comm room rest) ∙ pow_add rest room)
        small)

  first_word : copy_bits32 v num reversed 0 room ≡ v + reversed % 2 ^ room * 2 ^ num
  first_word =
      copy_bits32-eq num room v reversed 0 (omega (arith, all, few))
        (rw same (
          omega (
            arith,
            subst (λ k. v + reversed % 2 ^ room * 2 ^ num < 2 ^ k) full
                (shifted-lt num room v (reversed % 2 ^ room) fits low-lt),
          )))
        fits
      ∙ ap (λ x. v + x * 2 ^ num) same
    where
      same : reversed / 2 ^ 0 % 2 ^ room ≡ reversed % 2 ^ room
      same = ap (λ x. x % 2 ^ room) (div-one reversed)

  second_word : copy_bits32 0 0 reversed room rest ≡ reversed / 2 ^ room
  second_word =
      copy_bits32-eq 0 rest 0 reversed room (omega (arith, all, few))
        (rw same (
          omega (
            arith,
            high-lt,
            pow-le-pow_right {n = 2} (omega arith) {i = rest} {j = 32} (omega (arith, all, few)),
          )))
        (omega arith)
      ∙ rw same (omega arith)
    where
      same : reversed / 2 ^ room % 2 ^ rest ≡ reversed / 2 ^ room
      same = mod-eq_of_lt {n = reversed / 2 ^ room} {m = 2 ^ rest} high-lt

  split_bits :
      low_bits 32 (v + reversed % 2 ^ room * 2 ^ num) ++ low_bits rest (reversed / 2 ^ room)
      ≡ low_bits num v ++ low_bits n reversed
  split_bits =
      ap
        (λ k. low_bits k (v + reversed % 2 ^ room * 2 ^ num) ++ low_bits rest (reversed / 2 ^ room))
        (sym full)
      ∙ ap (λ bs. bs ++ low_bits rest (reversed / 2 ^ room))
          (low_bits-join num room v (reversed % 2 ^ room) fits
            ∙ ap (◌++◌ (low_bits num v)) (low_bits-mod room reversed))
      ∙ append_assoc (low_bits num v) (low_bits room reversed) (low_bits rest (reversed / 2 ^ room))
      ∙ ap (◌++◌ (low_bits num v))
          (sym (low_bits-split room rest reversed) ∙ ap (λ k. low_bits k reversed) all)

pub put_bits-over :
    (e : RansBitEncoder) (n reversed : ℕ)
    → IsOpen e
    → n ≤ 32
    → reversed < 2 ^ n
    → 32 < e.num_local_bits + n
    → IsOpen (put_bits n reversed e)
      × (held (put_bits n reversed e) ≡ held e ++ low_bits n reversed)
unfolding put_bits held
put_bits-over e n reversed o few small gt =
    let num = e.num_local_bits in
    let room = 32 - num in
    let rest = n - room in
    let full : num + room ≡ 32 = omega (arith, o.room) in
    let all : room + rest ≡ n = omega (arith, gt) in
    let w1 = first_word num room rest e.local_bits n reversed full all few o.fits small in
    let w2 = second_word num room rest e.local_bits n reversed full all few o.fits small in
    let h = high-lt num room rest e.local_bits n reversed full all few o.fits small in
    rw (lt→leb_false n room (omega (arith, gt, o.room)), w1, w2)
      (
        record { room = omega (arith, few, o.room); fits = h; no_error = o.no_error },
        ap (λ bs. bs ++ low_bits rest (reversed / 2 ^ room))
              (words_bits-snoc e.bits (e.local_bits + reversed % 2 ^ room * 2 ^ num))
            ∙ append_assoc (words_bits e.bits)
                (low_bits 32 (e.local_bits + reversed % 2 ^ room * 2 ^ num))
                (low_bits rest (reversed / 2 ^ room))
            ∙ ap (◌++◌ (words_bits e.bits))
                (split_bits num room rest e.local_bits n reversed full all few o.fits small)
            ∙ sym (
                append_assoc (words_bits e.bits) (low_bits num e.local_bits) (low_bits n reversed)),
      )

pub valid : (n : ℕ) → 0 < n → n ≤ 32 → valid_width (ℤ.pos n) ≡ some n
valid n pos few = rw (lt→leb_false n 0 pos, ge→ltb 32 n few) refl

encode-eq :
    (nbits : ℤ) (v : ℕ) (e : RansBitEncoder)
    → e.error ≡ none
    → encode_least_significant_bits32 nbits v e ≡ encode_width (valid_width nbits) v e
unfolding encode_least_significant_bits32
encode-eq nbits v e h =
    ap
      (λ (x : Option Error). elim x as (λ y. RansBitEncoder) [
        | none ↦ encode_width (valid_width nbits) v e
        | some y ↦ e
      ])
      h

put_bits-Puts :
    (e : RansBitEncoder) (n reversed : ℕ)
    → IsOpen e
    → n ≤ 32
    → reversed < 2 ^ n
    → IsOpen (put_bits n reversed e)
      × (held (put_bits n reversed e) ≡ held e ++ low_bits n reversed)
put_bits-Puts e n reversed o few small = elim (Bool-cases (ltb 32 (e.num_local_bits + n))) [
  | inl over ↦ put_bits-over e n reversed o few small (ltb→lt _ _ over)
  | inr fit ↦ put_bits-fit e o n reversed few small (ltb→ge _ _ fit)
]

-- On an encoder with no error and room in its current word, EncodeLeastSignificantBits32 with a width
-- from 1 to 32 adds the low bits of the value, the highest of them first, to the bits that EncodeBit
-- has added, and leaves an encoder with no error and room in its current word.
pub held-encode_least_significant_bits32 :
    (n v : ℕ) (e : RansBitEncoder)
    → 0 < n
    → n ≤ 32
    → IsOpen e
    → IsOpen (encode_least_significant_bits32 (ℤ.pos n) v e)
      × (held (encode_least_significant_bits32 (ℤ.pos n) v e) ≡ held e ++ high_bits n v)
unfolding held
held-encode_least_significant_bits32 n v e pos few o =
    rw (encode-eq (ℤ.pos n) v e o.no_error, valid n pos few, reversed)
      (rw (low_bits-reverse_bits n v) at (
        put_bits-Puts
          (record e {
            zeros = (e.zeros + (n - ones_count 32 (reverse_bits n v))) % 2 ^ 64;
            ones = (e.ones + ones_count 32 (reverse_bits n v)) % 2 ^ 64;
          })
          n (reverse_bits n v) (record { room = o.room; fits = o.fits; no_error = o.no_error }) few
          (reverse_bits-lt n v)))
  where
    width : 32 - n + n ≡ 32
    width = omega (arith, few)

    reversed : reverse_bits 32 v / 2 ^ (32 - n) ≡ reverse_bits n v
    reversed = ap (λ k. reverse_bits k v / 2 ^ (32 - n)) (sym width) ∙ reverse_bits-div (32 - n) n v
