-- ===== src/Entropy/SymbolCoding/Scratch.antt =====
-- The decoders of a scratch, and what a decoder of symbols does with a scratch that is sound.
use go_draco.Entropy.RansEncoder
use go_draco.Entropy.RansEncoder.{RansEncoder, write_symbols, new_rans_encoder}
use go_draco.Entropy.Rans.Lookup.{sum, shares}
use go_draco.Entropy.Rans.RoundTrip.{read_symbols}
use mathlib.Core.Path.{subst}
use go_draco.Core.Codec.{Reads, AtHand-moved}
use go_draco.Entropy.Rans.Session.{Serving, new_rans_decoder-Serving, read_symbols-write_symbols}
use go_draco.Core.Reader.{Reader, AtHand, moved}
use go_draco.Entropy.Rans.Session.{read_symbols-write_symbols}
use go_draco.Entropy.RansDecoder.{init, RansDecoder, read_symbol, build_lookup, new_rans_decoder}
use go_draco.Entropy.Symbols.{compute_rans_precision_bits, State, set_up}
use go_draco.Entropy.Symbols.{read_all}
use go_draco.Entropy.Symbols.{keep_decoder}
use go_draco.Entropy.Symbols.{decoder}
use go_draco.Entropy.Symbols.{Scratch}
use go_draco.Common.{
  ℕ, zero, suc, ◌+◌, ◌^◌, ◌≤◌, ◌<◌, ◌≡◌, ◌⊎◌, refl, sym, ap, ◌∙◌, inl, inr, Bool-cases,
  Option-cases, List, [], ◌∷◌, ◌++◌, append_assoc, Option, none, some, length, All, get_or, set,
  length-append, arith, leb, M, Result, ok, err, ◌>>=◌, bind_ok, on_left, some_inv,
}

-- Each decoder that is kept is one of its precision with a sound cache.
abbrev pub Sound : Scratch → Type 0
Sound none = Unit {0}
Sound (some s) =
    (bits : ℕ) (d : RansDecoder) → bits ≤ 20 → get_or s.decoders bits none ≡ some d → Serving bits d

-- Where `bs` comes next and the scratch is sound, `m` returns some `a` with `P a`, moves past `bs`
-- and leaves a sound scratch.
abbrev pub Yields : {A : Type 0} → List ℕ → M State A → (A → Type 0) → Type 0
Yields {A} bs m P =
    (r : Reader) (s : Scratch) (rest : List ℕ)
    → AtHand bs rest r
    → Sound s
    → (a : A) × (s' : Scratch) × (m (r, s) ≡ (ok a, (moved (length bs) r, s'))) × P a × Sound s'

pub Yields-Reads :
    {A : Type 0} (bs : List ℕ) (m : M Reader A) (a : A)
    → Reads bs m a
    → Yields bs (on_left m) (λ x. x ≡ a)
Yields-Reads bs m a h r s rest at v =
    (a, s, (λ i. ((h r rest at i).0, ((h r rest at i).1, s))), refl, v)

pub Yields-bind :
    {A B : Type 0} (bs cs : List ℕ) (m : M State A) (f : A → M State B) (P : A → Type 0)
    (Q : B → Type 0)
    → Yields bs m P
    → ((a : A) → P a → Yields cs (f a) Q)
    → Yields (bs ++ cs) (m >>= f) Q
Yields-bind bs cs m f P Q p q r s rest h v =
    let (a, s1, first, pa, v1) = p r s (cs ++ rest) h' v in
    let (b, s2, second, qb, v2) =
      q a pa (moved (length bs) r) s1 rest (AtHand-moved r bs (cs ++ rest) h') v1 in
    (
      b,
      s2,
      bind_ok m f (r, s) first ∙ second ∙ (λ i. (ok b, (record r { pos = total i }, s2))),
      qb,
      v2,
    )
  where
    h' : AtHand bs (cs ++ rest) r
    h' = (h.0, h.1 ∙ append_assoc bs cs rest)

    total : r.pos + length bs + length cs ≡ r.pos + length (bs ++ cs)
    total = omega (arith, length-append bs cs)

decoder-Serving : (bits : ℕ) (s : Scratch) → bits ≤ 20 → Sound s → Serving bits (decoder bits s)
unfolding decoder
decoder-Serving bits none h v = new_rans_decoder-Serving bits h
decoder-Serving bits (some s) h v = elim (Bool-cases (leb (length s.decoders) bits)) [
  | inl outside ↦ rw outside (new_rans_decoder-Serving bits h)
  | inr inside ↦ elim (Option-cases (get_or s.decoders bits none)) [
    | inl missing ↦ rw (inside, missing) (new_rans_decoder-Serving bits h)
    | inr (d, kept) ↦ rw (inside, kept) (v bits d h kept)
  ]
]

set_cases :
    (xs : List (Option RansDecoder)) (i : ℕ) (x : Option RansDecoder) (j : ℕ) (e : RansDecoder)
    → get_or (set xs i x) j none ≡ some e
    → ((j ≡ i) × (x ≡ some e)) ⊎ (get_or xs j none ≡ some e)
set_cases [] i x j e h = inr h
set_cases (y ∷ ys) zero x zero e h = inl (refl, h)
set_cases (y ∷ ys) zero x (suc j) e h = inr h
set_cases (y ∷ ys) (suc i) x zero e h = inr h
set_cases (y ∷ ys) (suc i) x (suc j) e h = elim (set_cases ys i x j e h) [
  | inl (same, new) ↦ inl (ap suc same, new)
  | inr old ↦ inr old
]

pub keep_decoder-Sound :
    (bits : ℕ) (d : RansDecoder) (s : Scratch)
    → Serving bits d
    → Sound s
    → Sound (keep_decoder bits d s)
unfolding keep_decoder
keep_decoder-Sound bits d none h v = tt
keep_decoder-Sound bits d (some s) h v = λ b e le k.
    elim (set_cases s.decoders bits (some d) b e k) [
      | inl (here, new) ↦
          subst (λ x. Serving b x) (some_inv new) (subst (λ x. Serving x d) (sym here) h)
      | inr old ↦ v b e le old
    ]

-- A read leaves the decoder ready for the next stream.
read_symbol-Serving : (bits : ℕ) (d : RansDecoder) → Serving bits d → Serving bits (read_symbol d).1
unfolding read_symbol
read_symbol-Serving bits d v = record {
  precision_bits = v.precision_bits;
  ready = record {
    shift_bits = v.ready.shift_bits;
    mask_bits = v.ready.mask_bits;
    base = v.ready.base;
  };
  cache = v.cache;
}

pub read_all-Serving :
    (bits n : ℕ) (d : RansDecoder) → Serving bits d → Serving bits (read_all n d).1
unfolding read_all
read_all-Serving bits zero d v = v
read_all-Serving bits (suc n) d v =
    read_all-Serving bits n (read_symbol d).1 (read_symbol-Serving bits d v)

pub read_all-symbols : (n : ℕ) (d : RansDecoder) → (read_all n d).0 ≡ read_symbols n d
unfolding read_all read_symbols
read_all-symbols zero d = refl
read_all-symbols (suc n) d = ap (◌∷◌ (read_symbol d).0) (read_all-symbols n (read_symbol d).1)

pub compute_rans_precision_bits_bounds :
    (n : ℕ) → (12 ≤ compute_rans_precision_bits n) × (compute_rans_precision_bits n ≤ 20)
unfolding compute_rans_precision_bits
compute_rans_precision_bits_bounds n = ground arith

set_up-eq :
    (bits : ℕ) (ps payload : List ℕ) (s : Scratch) (d1 d2 : RansDecoder)
    → build_lookup ps (decoder bits s) ≡ (ok tt, d1)
    → init payload d1 ≡ (ok tt, d2)
    → set_up bits ps payload s ≡ (ok d2, keep_decoder bits d2 s)
unfolding set_up
set_up-eq bits ps payload s d1 d2 built ready =
    ap
      (λ (t : Result (Unit {0}) × RansDecoder). elim t.0 as (λ r. Result RansDecoder × Scratch) [
        | ok u ↦ (ok t.1, keep_decoder bits t.1 s)
        | err e ↦ (err e, keep_decoder bits t.1 s)
      ])
      (bind_ok (build_lookup ps) (λ u. init payload) (decoder bits s) built ∙ ready)

-- What a stream of symbols is for its table: the decoder that reads it is ready for the symbols.
abbrev pub Streams : ℕ → List ℕ → RansDecoder → Type 0
Streams bits ss d = (read_symbols (length ss) d ≡ ss) × Serving bits d

-- The payload of the symbols for a table with positive shares for them.
pub set_up-Streams :
    (bits : ℕ) (small : bits ≤ 20) (ps ss : List ℕ)
    → sum ps ≡ 2 ^ bits
    → All (λ x. 0 < get_or ps x 0) ss
    → (e : RansEncoder) × (write_symbols
          (shares 0 ps)
          ss
          (RansEncoder.reset (length ss) (new_rans_encoder bits))
        ≡ some e)
      × ((s : Scratch)
          → Sound s
          → (d : RansDecoder) × (s' : Scratch) × (set_up bits ps (RansEncoder.bytes e) s
              ≡ (ok d, s'))
            × Streams bits ss d
            × Sound s')
set_up-Streams bits small ps ss total positive =
    let (e, d1, d2, writes, built, started, back, v) =
      read_symbols-write_symbols bits small ps ss (length ss) (new_rans_decoder bits) total positive
        (new_rans_decoder-Serving bits small) in
    (
      e,
      writes,
      λ s sound.
          let (e', d1', d2', writes', built', started', back', v') =
            read_symbols-write_symbols bits small ps ss (length ss) (decoder bits s) total positive
              (decoder-Serving bits s small sound) in
          let same : e' ≡ e = some_inv (sym writes' ∙ writes) in
          (
            d2',
            keep_decoder bits d2' s,
            set_up-eq bits ps (RansEncoder.bytes e) s d1' d2' built'
                (subst (λ x. init (RansEncoder.bytes x) d1' ≡ (ok tt, d2')) same started'),
            (back', v'),
            keep_decoder-Sound bits d2' s v' sound,
          ),
    )
