-- ===== src/Core/BitPacking.antt =====
-- BitWriter and BitReader over sequences of fields: values with their widths.
pub mod Writing
pub mod Reading
pub mod RoundTrip
mod Tests
use mathlib.Core.Option
use go_draco.Core.BitReader.{BitReader, read_bits_lsb}
use go_draco.Core.BitWriter.{BitWriter, write_bits_lsb}
use go_draco.Common.Int.{pos}
use go_draco.Common.{
  ℕ, zero, suc, ◌+◌, ◌-◌, ◌*◌, ◌/◌, ◌%◌, ◌^◌, ◌≤◌, ◌<◌, ◌≡◌, ◌≢◌, ◌↔◌, ◌⊎◌, refl, sym, ap, ◌∙◌, inl,
  inr, Bool, true, false, not, ◌&&◌, ◌||◌, Bool-cases, Option-cases, List, [], ◌∷◌, ◌++◌,
  append-nil, append_assoc, Option, none, some, length, All, get_or, set, take, drop, replicate,
  length-append, length-set, length-drop, take-append, drop-append, get_or-drop, drop-drop,
  get_or-append, get_or-append_end, arith, ltb, leb, ◌==◌, if◌then◌else◌, ltb→lt, ltb→ge, lt→ltb,
  ge→ltb, leb→le, le→leb, lt→leb_false, ==_iff, bit_and, bit_or, M, Error, Result, ok, err, ◌>>=◌,
  ◌>>◌, pure, fail, bind_ok, bind_err, on_left, on_right, slices_equal, slices_equal→eq,
  get_or-append_at, leb→gt, none≢some, some_inv, length-take, length-replicate, ne→==_false, eq→==,
  bind-inv, All-append,
}

pub record Field : Type 0 where
  pub value : ℕ
  pub width : ℕ

-- The calls of WriteBitsLSB for each field in turn; all of them succeed with widths up to 32.
unfoldable pub write_fields : List Field → BitWriter → Bool × BitWriter
write_fields [] w = (true, w)
write_fields (f ∷ fs) w =
    let (done, w') = write_bits_lsb f.value (pos f.width) w in
    if done then write_fields fs w' else (false, w')

-- The calls of ReadBitsLSB for each width in turn, up to the first that fails.
unfoldable pub read_fields : List ℕ → BitReader → Option (List ℕ) × BitReader
read_fields [] r = (some [], r)
read_fields (n ∷ ns) r =
    let (value, r') = read_bits_lsb (pos n) r in
    let rest = read_fields ns r' in
    elim value [ none ↦ (none, r') | some x ↦ (Option.map (◌∷◌ x) rest.0, rest.1) ]
