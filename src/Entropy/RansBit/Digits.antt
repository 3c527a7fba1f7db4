-- ===== src/Entropy/RansBit/Digits.antt =====
-- The words of RansBitEncoder as lists of bits, the lowest first.
use native.Mathlib.Nat.{div-eq_of_lt, pow-succ', mul_assoc, mul-add-div_right, div-one}
use native.Mathlib.Nat.{add_comm}
use native.Mathlib.Nat.{pow-suc}
use native.Mathlib.Nat.{div-div-eq-div-mul}
use go_draco.Common.{
  ℕ, zero, suc, ◌+◌, ◌*◌, ◌/◌, ◌%◌, ◌^◌, ◌<◌, ◌≡◌, refl, sym, ap, ◌∙◌, Bool, true, false, List, [],
  ◌∷◌, ◌++◌, append-nil, append_assoc, arith, ◌==◌, bit_or,
}
use go_draco.Common.Bits.{bit_or_shifted}
use go_draco.Entropy.RansBit.{RansBitWriter, write, write_word, write_words, bool_to_bit}

unfoldable pub low_bits : ℕ → ℕ → List Bool
low_bits zero v = []
low_bits (suc n) v = (v % 2 == 1) ∷ low_bits n (v / 2)

pub low_bits-snoc : (n v : ℕ) → low_bits (suc n) v ≡ low_bits n v ++ ((v / 2 ^ n % 2 == 1) ∷ [])
unfolding low_bits
low_bits-snoc zero v = ap (λ q. (q % 2 == 1) ∷ []) (sym (div-one v))
low_bits-snoc (suc n) v = ap (◌∷◌ (v % 2 == 1)) (
    low_bits-snoc n (v / 2)
    ∙ ap (λ q. low_bits n (v / 2) ++ ((q % 2 == 1) ∷ []))
        (div-div-eq-div-mul v 2 (2 ^ n) ∙ ap (λ x. v / x) (sym (pow-succ' 2 n))))

-- Only the low digits matter.
pub low_bits-above : (n v k : ℕ) → low_bits n (v + k * 2 ^ n) ≡ low_bits n v
unfolding low_bits
low_bits-above zero v k = refl
low_bits-above (suc n) v k =
    rw (double, low, high) (ap (◌∷◌ (v % 2 == 1)) (low_bits-above n (v / 2) k))
  where
    double : k * 2 ^ suc n ≡ k * 2 ^ n * 2
    double = ap (λ x. k * x) (pow-suc 2 n) ∙ sym (mul_assoc k (2 ^ n) 2)

    low : (v + k * 2 ^ n * 2) % 2 ≡ v % 2
    low = omega arith

    high : (v + k * 2 ^ n * 2) / 2 ≡ v / 2 + k * 2 ^ n
    high = omega arith

-- Setting the next digit.
pub low_bits-one :
    (n v : ℕ) → v < 2 ^ n → low_bits (suc n) (bit_or v (2 ^ n)) ≡ low_bits n v ++ (true ∷ [])
low_bits-one n v h =
    rw set_bit (low_bits-snoc n (v + 1 * 2 ^ n) ∙ rw (low_bits-above n v 1, top) refl)
  where
    set_bit : bit_or v (2 ^ n) ≡ v + 1 * 2 ^ n
    set_bit = ap (bit_or v) (omega arith) ∙ bit_or_shifted n v 1 h

    positive : 0 < 2 ^ n
    positive = omega (arith, h)

    top : (v + 1 * 2 ^ n) / 2 ^ n ≡ 1
    top =
        ap (λ x. x / 2 ^ n) (add_comm v (1 * 2 ^ n))
        ∙ mul-add-div_right positive 1 v
        ∙ ap (λ x. 1 + x) (div-eq_of_lt h)

pub low_bits-zero : (n v : ℕ) → v < 2 ^ n → low_bits (suc n) v ≡ low_bits n v ++ (false ∷ [])
low_bits-zero n v h = low_bits-snoc n v ∙ rw (div-eq_of_lt h) refl

-- The bits written from the last to the first.
unfoldable pub write_list : List Bool → ℕ → RansBitWriter → RansBitWriter
write_list [] p0 w = w
write_list (b ∷ bs) p0 w = write (bool_to_bit b) p0 (write_list bs p0 w)

pub write_list-append :
    (bs cs : List Bool) (p0 : ℕ) (w : RansBitWriter)
    → write_list (bs ++ cs) p0 w ≡ write_list bs p0 (write_list cs p0 w)
unfolding write_list
write_list-append [] cs p0 w = refl
write_list-append (b ∷ bs) cs p0 w = ap (write (bool_to_bit b) p0) (write_list-append bs cs p0 w)

pub digit : (q : ℕ) → bool_to_bit (q % 2 == 1) ≡ q % 2
unfolding bool_to_bit
digit q = ground arith

pub write_word-list :
    (n v p0 : ℕ) (w : RansBitWriter) → write_word n v p0 w ≡ write_list (low_bits n v) p0 w
unfolding write_word write_list low_bits
write_word-list zero v p0 w = refl
write_word-list (suc n) v p0 w =
    write_word-list n v p0 (write (v / 2 ^ n % 2) p0 w)
    ∙ ap (λ q. write_list (low_bits n v) p0 (write q p0 w)) (sym (digit (v / 2 ^ n)))
    ∙ sym (write_list-append (low_bits n v) ((v / 2 ^ n % 2 == 1) ∷ []) p0 w)
    ∙ ap (λ bs. write_list bs p0 w) (sym (low_bits-snoc n v))

unfoldable pub words_bits : List ℕ → List Bool
words_bits [] = []
words_bits (word ∷ words) = low_bits 32 word ++ words_bits words

pub words_bits-snoc :
    (words : List ℕ) (word : ℕ)
    → words_bits (words ++ (word ∷ [])) ≡ words_bits words ++ low_bits 32 word
unfolding words_bits
words_bits-snoc [] word = append-nil (low_bits 32 word)
words_bits-snoc (x ∷ xs) word =
    ap (◌++◌ (low_bits 32 x)) (words_bits-snoc xs word)
    ∙ sym (append_assoc (low_bits 32 x) (words_bits xs) (low_bits 32 word))

pub write_words-list :
    (words : List ℕ) (p0 : ℕ) (w : RansBitWriter)
    → write_words words p0 w ≡ write_list (words_bits words) p0 w
unfolding write_words words_bits write_list
write_words-list [] p0 w = refl
write_words-list (word ∷ words) p0 w =
    write_word-list 32 word p0 (write_words words p0 w)
    ∙ ap (write_list (low_bits 32 word) p0) (write_words-list words p0 w)
    ∙ sym (write_list-append (low_bits 32 word) (words_bits words) p0 w)
