-- ===== src/Core/Reader/Laws.antt =====
-- What each method of `Reader` returns where its bytes are at hand.
use go_draco.Common.{
  ℕ, ◌+◌, ◌^◌, ◌<◌, ◌≡◌, refl, sym, ap, ◌∙◌, List, [], ◌∷◌, ltb, length, get_or, take, drop,
  length-append, length-drop, take-append, get_or-drop, ge→ltb, ok, arith, false,
}
use native.Mathlib.Nat.{add-zero}
use mathlib.Core.Path.{subst₂}
use go_draco.Common.Int.{ℤ, to_int32, to_int8}
use go_draco.Core.Words.{little_endian, le_bytes, little_endian-le_bytes, length-le_bytes}
use go_draco.Core.Codec.{Reads, Reads-map}
use go_draco.Core.Reader.{
  Reader, AtHand, moved, remaining_bytes, read_bytes_view, read_uint8, read_int8, read_word,
  read_uint16, read_uint32, read_uint64, read_int32,
}

module _ (r : Reader) (bs rest : List ℕ) (h : AtHand bs rest r) where
  room : ltb (length r.buf) (r.pos + length bs) ≡ false
  unfolding remaining_bytes
  room = ge→ltb _ _ (omega (arith, ap length h.1, length-drop r.pos r.buf, length-append bs rest))

  prefix : take (length bs) (drop r.pos r.buf) ≡ bs
  unfolding remaining_bytes
  prefix = ap (take (length bs)) h.1 ∙ take-append bs rest

pub read_bytes_view-Reads : (bs : List ℕ) → Reads bs (read_bytes_view (ℤ.pos (length bs))) bs
unfolding read_bytes_view
read_bytes_view-Reads bs r rest h = rw (room r bs rest h, prefix r bs rest h)

pub read_word-Reads : (bs : List ℕ) → Reads bs (read_word (length bs)) (little_endian bs)
unfolding read_word
read_word-Reads bs r rest h = rw (room r bs rest h, prefix r bs rest h)

pub read_uint8-Reads : (b : ℕ) → Reads (b ∷ []) read_uint8 b
unfolding read_uint8 remaining_bytes
read_uint8-Reads b r rest h = rw (room r (b ∷ []) rest h) (λ i. (ok (first i), moved 1 r))
  where
    first : get_or r.buf r.pos 0 ≡ b
    first =
        ap (λ k. get_or r.buf k 0) (sym (add-zero r.pos))
        ∙ sym (get_or-drop r.pos 0 r.buf 0)
        ∙ ap (λ l. get_or l 0 0) h.1

pub read_int8-Reads : (b : ℕ) → Reads (b ∷ []) read_int8 (to_int8 b)
unfolding read_int8
read_int8-Reads b = Reads-map (b ∷ []) read_uint8 _ b (to_int8 b) (read_uint8-Reads b) (λ s. refl)

-- A word of `n` bytes reads back as the number that was written.
pub word-Reads : (n v : ℕ) → v < 256 ^ n → Reads (le_bytes n v) (read_word n) v
word-Reads n v h =
    subst₂ (λ k a. Reads (le_bytes n v) (read_word k) a) (length-le_bytes n v)
      (little_endian-le_bytes n v h) (read_word-Reads (le_bytes n v))

pub read_uint16-Reads : (v : ℕ) → v < 2 ^ 16 → Reads (le_bytes 2 v) read_uint16 v
unfolding read_uint16
read_uint16-Reads v h = word-Reads 2 v h

pub read_uint32-Reads : (v : ℕ) → v < 2 ^ 32 → Reads (le_bytes 4 v) read_uint32 v
unfolding read_uint32
read_uint32-Reads v h = word-Reads 4 v h

pub read_uint64-Reads : (v : ℕ) → v < 2 ^ 64 → Reads (le_bytes 8 v) read_uint64 v
unfolding read_uint64
read_uint64-Reads v h = word-Reads 8 v h

pub read_int32-Reads : (v : ℕ) → v < 2 ^ 32 → Reads (le_bytes 4 v) read_int32 (to_int32 v)
unfolding read_int32
read_int32-Reads v h =
    Reads-map (le_bytes 4 v) (read_word 4) _ v (to_int32 v) (word-Reads 4 v h) (λ s. refl)
