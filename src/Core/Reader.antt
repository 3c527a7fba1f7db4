-- ===== src/Core/Reader.antt =====
-- internal/core/reader.go: `Reader`, a cursor over a byte slice.
-- A float32 is its IEEE 754 bit pattern, so math.Float32frombits is the identity.
pub mod Laws
use go_draco.Common.{
  ℕ, ◌+◌, ◌-◌, ◌≤◌, ◌≡◌, ◌++◌, List, ltb, if◌then◌else◌, length, get_or, take, drop, M, ok, err,
  ◌>>=◌, pure, unexpected_eof, invalid_advance_size, invalid_read_size,
}
use go_draco.Common.Int.{ℤ, negsuc, to_int32, to_int8}
use go_draco.Core.Words.{little_endian}

pub record Reader : Type 0 where
  pub buf : List ℕ
  pub pos : ℕ

unfoldable pub new_reader : List ℕ → Reader
new_reader bytes = record { buf = bytes; pos = 0 }

unfoldable pub remaining : Reader → ℕ
remaining r = length r.buf - r.pos

unfoldable pub remaining_bytes : Reader → List ℕ
remaining_bytes r = drop r.pos r.buf

-- The cursor moved by `n` bytes.
abbrev pub moved : ℕ → Reader → Reader
moved n r = record r { pos = r.pos + n }

-- The cursor is inside the slice; every method keeps it there.
abbrev pub IsValid : Reader → Type 0
IsValid r = r.pos ≤ length r.buf

-- The bytes `bs` come next, and `rest` after them.
abbrev pub AtHand : List ℕ → List ℕ → Reader → Type 0
AtHand bs rest r = IsValid r × (remaining_bytes r ≡ bs ++ rest)

unfoldable pub advance : ℤ → M Reader (Unit {0})
advance (ℤ.pos n) r =
    if ltb (length r.buf) (r.pos + n) then (err invalid_advance_size, r) else (ok tt, moved n r)
advance (negsuc n) r = (err invalid_advance_size, r)

unfoldable pub read_bytes_view : ℤ → M Reader (List ℕ)
read_bytes_view (negsuc n) r = (err invalid_read_size, r)
read_bytes_view (ℤ.pos n) r =
    if ltb (length r.buf) (r.pos + n)
    then (err unexpected_eof, r)
    else (ok (take n (drop r.pos r.buf)), moved n r)

-- The copy of the slice is the same list.
unfoldable pub read_bytes : ℤ → M Reader (List ℕ)
unfolding read_bytes_view
read_bytes n = do out ← read_bytes_view n; pure out

unfoldable pub read_uint8 : M Reader ℕ
read_uint8 r =
    if ltb (length r.buf) (r.pos + 1)
    then (err unexpected_eof, r)
    else (ok (get_or r.buf r.pos 0), moved 1 r)

unfoldable pub read_int8 : M Reader ℤ
read_int8 = do v ← read_uint8; pure (to_int8 v)

-- The shape of ReadUint16, ReadUint32 and ReadUint64: `n` bytes as a little-endian word.
unfoldable pub read_word : ℕ → M Reader ℕ
read_word n r =
    if ltb (length r.buf) (r.pos + n)
    then (err unexpected_eof, r)
    else (ok (little_endian (take n (drop r.pos r.buf))), moved n r)

unfoldable pub read_uint16 : M Reader ℕ
read_uint16 = read_word 2

unfoldable pub read_uint32 : M Reader ℕ
read_uint32 = read_word 4

unfoldable pub read_uint64 : M Reader ℕ
read_uint64 = read_word 8

unfoldable pub read_int32 : M Reader ℤ
read_int32 = do v ← read_word 4; pure (to_int32 v)

unfoldable pub read_float32 : M Reader ℕ
read_float32 = do v ← read_uint32; pure v
