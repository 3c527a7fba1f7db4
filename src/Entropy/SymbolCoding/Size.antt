-- ===== src/Entropy/SymbolCoding/Size.antt =====
-- How many bytes RansEncoder writes for a number of symbols.
use mathlib.Core.Option
use go_draco.Entropy.RansDecoder.{RansSym, zero_sym}
use mathlib.Core.Path.{subst}
use go_draco.Entropy.RansEncoder
use go_draco.Entropy.RansEncoder.{
  shrink, write_symbol, put_symbol, write_symbols, state_bytes, new_rans_encoder, RansEncoder,
}
use go_draco.Common.{
  ℕ, zero, suc, ◌+◌, ◌-◌, ◌*◌, ◌/◌, ◌%◌, ◌^◌, ◌≤◌, ◌≡◌, sym, inl, inr, Bool-cases, Option-cases,
  List, [], ◌∷◌, some, length, get_or, length-append, arith, leb, none≢some, some_inv,
}

length-shrink :
    (fuel threshold state : ℕ) (t : List ℕ × ℕ)
    → shrink fuel threshold state ≡ some t
    → length t.0 ≤ fuel
unfolding shrink
length-shrink zero threshold state t h = absurd (none≢some h)
length-shrink (suc fuel) threshold state t h = elim (Bool-cases (leb threshold state)) [
  | inr done ↦
      subst (λ (u : List ℕ × ℕ). length u.0 ≤ suc fuel) (some_inv (rw done at h)) (omega arith)
  | inl more ↦ elim (Option-cases (shrink fuel threshold (state / 256))) [
    | inl stuck ↦ absurd (none≢some (rw (more, stuck) at h))
    | inr (u, ends) ↦
        subst (λ (u : List ℕ × ℕ). length u.0 ≤ suc fuel) (some_inv (rw (more, ends) at h))
          (omega (arith, length-shrink fuel threshold (state / 256) u ends))
  ]
]

write_symbol-length :
    (sym : RansSym) (e e' : RansEncoder)
    → write_symbol sym e ≡ some e'
    → length e'.buf ≤ length e.buf + 5
unfolding write_symbol put_symbol
write_symbol-length sym e e' h =
    elim (Option-cases (shrink 5 (e.l_base / e.precision * 256 * sym.prob % 2 ^ 32) e.state)) [
      | inl stuck ↦ absurd (none≢some (rw stuck at h))
      | inr (t, ends) ↦
          subst (λ (x : RansEncoder). length x.buf ≤ length e.buf + 5) (some_inv (rw ends at h))
            (omega (arith, length-append e.buf t.0, length-shrink 5 _ e.state t ends))
    ]

write_symbols-length :
    (table : List RansSym) (ss : List ℕ) (e e' : RansEncoder)
    → write_symbols table ss e ≡ some e'
    → length e'.buf ≤ length e.buf + 5 * length ss
unfolding write_symbols Option.bind
write_symbols-length table [] e e' h =
    subst (λ (x : RansEncoder). length x.buf ≤ length e.buf + 0) (some_inv h) (omega arith)
write_symbols-length table (s ∷ ss) e e' h = elim (Option-cases (write_symbols table ss e)) [
  | inl stuck ↦ absurd (none≢some (rw stuck at h))
  | inr (f, ends) ↦ omega (
    arith,
    write_symbol-length (get_or table s zero_sym) f e' (rw ends at h),
    write_symbols-length table ss e f ends,
  )
]

state_bytes-length : (state : ℕ) → length (state_bytes state) ≤ 4
unfolding state_bytes
state_bytes-length state = ground arith

pub payload-length :
    (table : List RansSym) (ss : List ℕ) (bits : ℕ) (e : RansEncoder)
    → write_symbols table ss (RansEncoder.reset (length ss) (new_rans_encoder bits)) ≡ some e
    → length (RansEncoder.bytes e) ≤ 5 * length ss + 4
unfolding RansEncoder.bytes RansEncoder.reset
payload-length table ss bits e h = omega (
  arith,
  write_symbols-length table ss (RansEncoder.reset (length ss) (new_rans_encoder bits)) e h,
  length-append e.buf (state_bytes ((e.state + 2 ^ 32 - e.l_base) % 2 ^ 32)),
  state_bytes-length ((e.state + 2 ^ 32 - e.l_base) % 2 ^ 32),
)
