-- ===== src/Entropy/RansBit.antt =====
-- internal/entropy/rans_bit.go: `RansBitEncoder`, `ransBitWriter` and `RansBitDecoder`.
-- The buffer of ransBitWriter is the bytes written so far; an index out of range of the decoder's
-- buffer, where the source panics, reads 0. States stay below 2^20, so no uint32 product wraps.
mod Digits
mod Step
mod Tail
mod Packing
mod RoundTrip
mod Stream
pub mod Coder
pub mod Values
mod Tests
use go_draco.Common.{
  ℕ, zero, suc, ◌+◌, ◌-◌, ◌*◌, ◌/◌, ◌%◌, ◌^◌, ◌≤◌, ◌<◌, ◌≡◌, ◌≢◌, ◌↔◌, ◌⊎◌, refl, sym, ap, ◌∙◌, inl,
  inr, Bool, true, false, not, ◌&&◌, ◌||◌, Bool-cases, Option-cases, List, [], ◌∷◌, ◌++◌,
  append-nil, append_assoc, Option, none, some, length, All, get_or, set, take, drop, replicate,
  length-append, length-set, length-drop, take-append, drop-append, get_or-drop, drop-drop,
  get_or-append, get_or-append_end, arith, ltb, leb, ◌==◌, if◌then◌else◌, ltb→lt, ltb→ge, lt→ltb,
  ge→ltb, leb→le, le→leb, lt→leb_false, ==_iff, bit_and, bit_or, M, Error, Result, ok, err, ◌>>=◌,
  ◌>>◌, pure, fail, bind_ok, bind_err, on_left, on_right, slices_equal, slices_equal→eq,
  get_or-append_at, leb→gt, none≢some, some_inv, length-take, length-replicate, ne→==_false, eq→==,
  invalid_number_of_bits, rans_state_too_large, invalid_rans_state_size, invalid_rans_state,
  invalid_rans_buffer, rans_bit_payload_size, invalid_rans_state_tag,
}
use go_draco.Common.Int.{ℤ}
use go_draco.Core.Reader.{Reader, remaining, read_uint8, read_uint32, read_bytes_view}
use go_draco.Core.Writer.{Writer, write_uint8, write_bytes}
use go_draco.Core.Varint.{encode_var_uint32, decode_var_uint32}

abbrev pub rans_bit_precision : ℕ
rans_bit_precision = 256

abbrev pub rans_bit_l_base : ℕ
rans_bit_l_base = 4096

abbrev pub rans_bit_io_base : ℕ
rans_bit_io_base = 256

-- `bits` are whole words, and `local_bits` the word that is being filled.
pub record RansBitEncoder : Type 0 where
  pub zeros : ℕ
  pub ones : ℕ
  pub bits : List ℕ
  pub local_bits : ℕ
  pub num_local_bits : ℕ
  pub error : Option Error

abbrev pub cleared : RansBitEncoder
cleared = record {
  zeros = 0;
  ones = 0;
  bits = [];
  local_bits = 0;
  num_local_bits = 0;
  error = none;
}

unfoldable pub bool_to_bit : Bool → ℕ
bool_to_bit true = 1
bool_to_bit false = 0

-- A full word goes to the list.
unfoldable pub flush : RansBitEncoder → RansBitEncoder
flush e =
    if e.num_local_bits == 32
    then record e { bits = e.bits ++ (e.local_bits ∷ []); local_bits = 0; num_local_bits = 0 }
    else e

abbrev pub count_bit : Bool → RansBitEncoder → RansBitEncoder
count_bit true e = record e {
  ones = (e.ones + 1) % 2 ^ 64;
  local_bits = bit_or e.local_bits (2 ^ e.num_local_bits);
  num_local_bits = e.num_local_bits + 1;
}
count_bit false e = record e {
  zeros = (e.zeros + 1) % 2 ^ 64;
  num_local_bits = e.num_local_bits + 1;
}

unfoldable pub encode_bit : Bool → RansBitEncoder → RansBitEncoder
encode_bit bit e = elim e.error [ none ↦ flush (count_bit bit e) | some x ↦ e ]

pub record RansBitWriter : Type 0 where
  pub buf : List ℕ
  pub state : ℕ

-- The one byte that write may emit before it codes a bit of probability l / 256.
unfoldable pub emit : ℕ → RansBitWriter → RansBitWriter
emit l w =
    if leb (rans_bit_l_base / rans_bit_precision * rans_bit_io_base * l) w.state
    then record w {
      buf = w.buf ++ (w.state % rans_bit_io_base ∷ []);
      state = w.state / rans_bit_io_base;
    }
    else w

unfoldable pub write : ℕ → ℕ → RansBitWriter → RansBitWriter
write val p0 w =
    let p = rans_bit_precision - p0 in
    let l = if val == 0 then p0 else p in
    let w' = emit l w in
    let coded = w'.state / l * rans_bit_precision + w'.state % l in
    record w' { state = if val == 0 then coded + p else coded }

-- `for i := n - 1; i >= 0; i--`, a bit of the word at a time.
unfoldable pub write_word : ℕ → ℕ → ℕ → RansBitWriter → RansBitWriter
write_word zero word p0 w = w
write_word (suc i) word p0 w = write_word i word p0 (write (word / 2 ^ i % 2) p0 w)

-- The words, last first.
unfoldable pub write_words : List ℕ → ℕ → RansBitWriter → RansBitWriter
write_words [] p0 w = w
write_words (word ∷ words) p0 w = write_word 32 word p0 (write_words words p0 w)

-- The state less its base in one to three bytes, with the number of further bytes on top.
unfoldable pub end : RansBitWriter → Result (List ℕ)
end w =
    let state = w.state - rans_bit_l_base in
    if ltb state (2 ^ 6)
    then ok (w.buf ++ (state ∷ []))
    else if ltb state (2 ^ 14)
    then ok (w.buf ++ ((2 ^ 14 + state) % 256 ∷ (2 ^ 14 + state) / 2 ^ 8 % 256 ∷ []))
    else if ltb state (2 ^ 22)
    then ok (
        w.buf
        ++ ((2 * 2 ^ 22 + state) % 256
            ∷ (2 * 2 ^ 22 + state) / 2 ^ 8 % 256
            ∷ (2 * 2 ^ 22 + state) / 2 ^ 16 % 256
            ∷ []))
    else err rans_state_too_large

-- The float64 expression for 256 times the share of zeros, rounded, is the argument `scaled`.
unfoldable pub zero_probability : (ℕ → ℕ → ℕ) → RansBitEncoder → ℕ
zero_probability scaled e =
    let sum = (e.zeros + e.ones) % 2 ^ 64 in
    let total = if sum == 0 then 1 else sum in
    let raw = scaled e.zeros total in
    let prob = if ltb raw 255 then raw else 255 in if prob == 0 then 1 else prob

-- What EndEncoding writes after the loops.
unfoldable pub write_payload : ℕ → Result (List ℕ) → M Writer (Unit {0})
write_payload zero_prob (err e) = fail e
write_payload zero_prob (ok bs) =
    write_uint8 zero_prob >> encode_var_uint32 (length bs % 2 ^ 32) >> write_bytes bs

abbrev pub clear_if_ok :
    Result (Unit {0}) × (RansBitEncoder × Writer) → Result (Unit {0}) × (RansBitEncoder × Writer)
clear_if_ok (ok t, (e, w)) = (ok t, (cleared, w))
clear_if_ok (err x, (e, w)) = (err x, (e, w))

unfoldable pub end_encoding : (ℕ → ℕ → ℕ) → M (RansBitEncoder × Writer) (Unit {0})
end_encoding scaled (e, w) = elim e.error [
  | some x ↦ (err x, (cleared, w))
  | none ↦
      let p0 = zero_probability scaled e in
      let start : RansBitWriter = record { buf = []; state = rans_bit_l_base } in
      let ans = write_words e.bits p0 (write_word e.num_local_bits e.local_bits p0 start) in
      clear_if_ok (on_right (write_payload p0 (end ans)) (e, w))
]

pub record RansBitDecoder : Type 0 where
  pub prob_zero : ℕ
  pub buf : List ℕ
  pub buf_offset : ℕ
  pub state : ℕ
  pub error : Option Error

abbrev pub idle : RansBitDecoder
idle = record { prob_zero = 0; buf = []; buf_offset = 0; state = 0; error = none }

-- The switch of init on the tag of the last byte: the offset and the state.
unfoldable pub tail_state : List ℕ → ℕ → ℕ → Result (ℕ × ℕ)
tail_state buf offset tag =
    let at = λ (k : ℕ). get_or buf (offset - k) 0 in
    if tag == 0
    then ok (offset - 1, bit_and (at 1) 0x3f)
    else if tag == 1
    then (if ltb offset 2
        then err invalid_rans_state_size
        else ok (offset - 2, bit_and (bit_or (at 2) (at 1 * 2 ^ 8)) 0x3fff))
    else if tag == 2
    then (if ltb offset 3
        then err invalid_rans_state_size
        else ok
            (offset - 3, bit_and (bit_or (bit_or (at 3) (at 2 * 2 ^ 8)) (at 1 * 2 ^ 16)) 0x3fffff))
    else err invalid_rans_state_tag

abbrev pub start_state : ℕ → List ℕ → Result (ℕ × ℕ) → Result RansBitDecoder
start_state prob_zero buf (err e) = err e
start_state prob_zero buf (ok (offset, low)) =
    let state = low + rans_bit_l_base in
    if leb (rans_bit_l_base * rans_bit_io_base) state
    then err invalid_rans_state
    else ok (record {
      prob_zero = prob_zero;
      buf = buf;
      buf_offset = offset;
      state = state;
      error = none;
    })

-- init on a cleared decoder. What it leaves in the decoder when it fails is not modelled: the caller
-- clears the decoder before it uses it again.
unfoldable pub init : ℕ → List ℕ → Result RansBitDecoder
init prob_zero buf =
    let offset = length buf in
    if ltb offset 1
    then err invalid_rans_buffer
    else start_state prob_zero buf (tail_state buf offset (get_or buf (offset - 1) 0 / 2 ^ 6))

abbrev pub lift : {S A : Type 0} → Result A → M S A
lift r s = (r, s)

unfoldable pub start_decoding_versioned : Bool → M Reader RansBitDecoder
start_decoding_versioned legacy = do
  prob_zero ← read_uint8
  size ← if legacy then read_uint32 else decode_var_uint32
  left ← λ r. (ok (remaining r), r)
  let payload = (read_bytes_view (ℤ.pos size) >>= λ view. lift (init prob_zero view))
  if ltb (left % 2 ^ 32) size then fail rans_bit_payload_size else payload

unfoldable pub start_decoding : M Reader RansBitDecoder
start_decoding = start_decoding_versioned false

-- At most one byte comes back before a bit.
unfoldable pub refill : RansBitDecoder → RansBitDecoder
refill d =
    if ltb d.state rans_bit_l_base && ltb 0 d.buf_offset
    then record d {
      state = d.state * rans_bit_io_base + get_or d.buf (d.buf_offset - 1) 0;
      buf_offset = d.buf_offset - 1;
    }
    else d

unfoldable pub read : ℕ → RansBitDecoder → ℕ × RansBitDecoder
read p0 d =
    let p = rans_bit_precision - p0 in
    let d' = refill d in
    let x = d'.state in
    let xn = x / rans_bit_precision * p in
    if ltb (x % rans_bit_precision) p
    then (1, record d' { state = xn + x % rans_bit_precision })
    else (0, record d' { state = x - xn - p })

unfoldable pub decode_next_bit : RansBitDecoder → Bool × RansBitDecoder
decode_next_bit d = elim d.error [
  | none ↦ (ltb 0 (read d.prob_zero d).0, (read d.prob_zero d).1)
  | some x ↦ (false, d)
]

unfoldable pub end_decoding : RansBitDecoder → Bool
end_decoding d = elim d.error [ none ↦ d.state == rans_bit_l_base | some x ↦ false ]
