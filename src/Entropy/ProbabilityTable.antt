-- ===== src/Entropy/ProbabilityTable.antt =====
-- internal/entropy/rans_encoder.go, encodeRansProbabilityTable, and its reader in createSymbolDecoder
-- of internal/entropy/symbols.go: probabilities in one to three bytes, and runs of zeros.
pub mod Laws
use mathlib.Core.Option
use go_draco.Core.Varint.{encode_var_uint32}
use go_draco.Core.Reader.{Reader, read_uint8}
use go_draco.Core.Writer.{Writer, write_uint8}
use go_draco.Entropy.RansDecoder.{RansSym}
use go_draco.Common.{
  ℕ, zero, suc, ◌+◌, ◌-◌, ◌*◌, ◌/◌, ◌%◌, ◌^◌, ◌≤◌, ◌<◌, ◌≡◌, ◌≢◌, ◌↔◌, ◌⊎◌, refl, sym, ap, ◌∙◌, inl,
  inr, Bool, true, false, not, ◌&&◌, ◌||◌, Bool-cases, Option-cases, List, [], ◌∷◌, ◌++◌,
  append-nil, append_assoc, Option, none, some, length, All, get_or, set, take, drop, replicate,
  length-append, length-set, length-drop, take-append, drop-append, get_or-drop, drop-drop,
  get_or-append, get_or-append_end, arith, ltb, leb, ◌==◌, if◌then◌else◌, ltb→lt, ltb→ge, lt→ltb,
  ge→ltb, leb→le, le→leb, lt→leb_false, ==_iff, bit_and, bit_or, M, Error, Result, ok, err, ◌>>=◌,
  ◌>>◌, pure, fail, bind_ok, bind_err, on_left, on_right, slices_equal, slices_equal→eq,
  get_or-append_at, leb→gt, none≢some, some_inv, length-take, length-replicate, ne→==_false, eq→==,
  bind-inv, All-append, rans_probability_range, index_out_of_range, invalid_zero_run,
}

-- `for ; offset < (1<<6)-1; offset++`: how many zeros follow, up to `n`. Past the end of the table
-- the index is out of range and the source panics, which is `none`.
unfoldable pub zero_run : ℕ → List RansSym → Option ℕ
zero_run zero rest = some 0
zero_run (suc n) [] = none
zero_run (suc n) (sym ∷ rest) =
    let more = Option.map suc (zero_run n rest) in if ltb 0 sym.prob then some 0 else more

-- `for b := b; b < b + n; b++ { w.WriteUint8(uint8(prob >> (8*(b+1) - 2))) }`
unfoldable pub write_extra : ℕ → ℕ → ℕ → M Writer (Unit {0})
write_extra zero b prob = pure tt
write_extra (suc n) b prob = do
  write_uint8 (prob / 2 ^ (8 * (b + 1) - 2) % 256)
  write_extra n (b + 1) prob

unfoldable pub extra_bytes : ℕ → ℕ
extra_bytes prob = if ltb prob (2 ^ 6) then 0 else if ltb prob (2 ^ 14) then 1 else 2

unfoldable pub write_probability : ℕ → M Writer (Unit {0})
unfolding extra_bytes write_extra
write_probability prob = if leb (2 ^ 22) prob then fail rans_probability_range else do
  write_uint8 (bit_or (prob * 4 % 2 ^ 32) (bit_and (extra_bytes prob) 3) % 256)
  write_extra (extra_bytes prob) 0 prob

-- The rest of the loop over the table, of which `skip` entries are in a run that is written:
-- `i += offset` passes over them.
unfoldable pub write_entries : ℕ → List RansSym → M Writer (Unit {0})
write_entries skip [] = pure tt
write_entries (suc skip) (sym ∷ rest) = write_entries skip rest
write_entries zero (sym ∷ rest) =
    let run =
      λ (offset : ℕ). (do write_uint8 (bit_or (offset * 4) 3 % 256); write_entries offset rest) in
    let one = (do write_probability sym.prob; write_entries 0 rest) in
    if sym.prob == 0
    then elim (zero_run 63 rest) [ none ↦ fail index_out_of_range | some offset ↦ run offset ]
    else one

unfoldable pub encode_rans_probability_table : List RansSym → M Writer (Unit {0})
unfolding write_entries
encode_rans_probability_table table = do
  encode_var_uint32 (length table % 2 ^ 32)
  write_entries 0 table

-- `for b := 0; b < int(token); b++`, from `b` on.
unfoldable pub read_extra : ℕ → ℕ → ℕ → M Reader ℕ
read_extra zero b prob = pure prob
read_extra (suc n) b prob = do
  extra ← read_uint8
  read_extra n (b + 1) (bit_or prob (extra * 2 ^ (8 * (b + 1) - 2) % 2 ^ 32))

-- The rest of the loop, with `left` entries to fill, of which the first `pending` are in a run of zeros.
-- The sum `i+offset` does not wrap, since the number of entries is bounded before.
unfoldable pub read_entries : ℕ → ℕ → M Reader (List ℕ)
read_entries zero pending = pure []
read_entries (suc left) (suc pending) = do rest ← read_entries left pending; pure (0 ∷ rest)
read_entries (suc left) zero = do
  data_byte ← read_uint8
  let token = bit_and data_byte 3
  let offset = data_byte / 2 ^ 2
  let run = (do rest ← read_entries left offset; pure (0 ∷ rest))
  let one = (do
    prob ← read_extra token 0 (data_byte / 2 ^ 2)
    rest ← read_entries left 0
    pure (prob ∷ rest))
  if token == 3 then if leb (suc left) offset then fail invalid_zero_run else run else one
