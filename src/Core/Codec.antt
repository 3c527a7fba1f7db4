-- ===== src/Core/Codec.antt =====
-- What it means that an encoder writes some bytes and that a decoder reads them back, with the
-- rules that put a composed encoder's bytes together from those of its calls.
use go_draco.Common.{
  ℕ, ◌+◌, ◌≡◌, sym, ap, ◌∙◌, List, [], ◌++◌, append-nil, append_assoc, length, drop, length-append,
  drop-drop, drop-append, length-drop, M, ok, ◌>>=◌, ◌>>◌, pure, bind_ok, arith,
}
use go_draco.Core.Reader.{Reader, AtHand, moved, remaining_bytes}
use go_draco.Core.Writer.{Writer}

-- `m` succeeds and appends exactly `bs`.
abbrev pub Writes : List ℕ → M Writer (Unit {0}) → Type 0
Writes bs m = (w : Writer) → m w ≡ (ok tt, record w { buf = w.buf ++ bs })

-- Where `bs` comes next, `m` returns `a` and moves past `bs`, whatever follows.
abbrev pub Reads : {A : Type 0} → List ℕ → M Reader A → A → Type 0
Reads bs m a = (r : Reader) (rest : List ℕ) → AtHand bs rest r → m r ≡ (ok a, moved (length bs) r)

-- The encoder succeeds, and the decoder reads back `a` from exactly the bytes that it appended.
abbrev pub RoundTrip : {A : Type 0} → M Writer (Unit {0}) → M Reader A → A → Type 0
RoundTrip enc dec a = (bs : List ℕ) × Writes bs enc × Reads bs dec a

pub AtHand-moved :
    (r : Reader) (bs rest : List ℕ) → AtHand bs rest r → AtHand [] rest (moved (length bs) r)
unfolding remaining_bytes
AtHand-moved r bs rest (v, h) = (
  omega (arith, ap length h, length-drop r.pos r.buf, length-append bs rest),
  sym (drop-drop r.pos (length bs) r.buf) ∙ ap (drop (length bs)) h ∙ drop-append bs rest,
)

pub Writes-nil : Writes [] (pure tt)
Writes-nil w = λ i. (ok tt, record w { buf = sym (append-nil w.buf) i })

pub Writes-then :
    (bs cs : List ℕ) {m k : M Writer (Unit {0})}
    → Writes bs m
    → Writes cs k
    → Writes (bs ++ cs) (m >> k)
Writes-then bs cs {m} {k} p q w =
    bind_ok m (λ _. k) w (p w) ∙ q _ ∙ λ i. (ok tt, record w { buf = append_assoc w.buf bs cs i })

pub Reads-pure : {A : Type 0} (a : A) → Reads [] (pure a) a
Reads-pure a r rest h = λ i. (ok a, record r { pos = sym (add_zero r.pos) i })
  where
    add_zero : (n : ℕ) → n + 0 ≡ n
    add_zero n = omega arith

pub Reads-bind :
    {A B : Type 0} (bs cs : List ℕ) (m : M Reader A) (f : A → M Reader B) (a : A) (b : B)
    → Reads bs m a
    → Reads cs (f a) b
    → Reads (bs ++ cs) (m >>= f) b
Reads-bind bs cs m f a b p q r rest h =
    bind_ok m f r (p r (cs ++ rest) h')
    ∙ q (moved (length bs) r) rest (AtHand-moved r bs (cs ++ rest) h')
    ∙ λ i. (ok b, record r { pos = total i })
  where
    h' : AtHand bs (cs ++ rest) r
    h' = (h.0, h.1 ∙ append_assoc bs cs rest)

    total : r.pos + length bs + length cs ≡ r.pos + length (bs ++ cs)
    total = omega (arith, length-append bs cs)

pub Reads-map :
    {A B : Type 0} (bs : List ℕ) (m : M Reader A) (f : A → M Reader B) (a : A) (b : B)
    → Reads bs m a
    → ((s : Reader) → f a s ≡ (ok b, s))
    → Reads bs (m >>= f) b
Reads-map bs m f a b p q r rest h = bind_ok m f r (p r rest h) ∙ q (moved (length bs) r)

pub RoundTrip-then :
    {A B : Type 0} (enc enc' : M Writer (Unit {0})) (dec : M Reader A) (f : A → M Reader B) (a : A)
    (b : B)
    → RoundTrip enc dec a
    → RoundTrip enc' (f a) b
    → RoundTrip (enc >> enc') (dec >>= f) b
RoundTrip-then enc enc' dec f a b (bs, w, r) (cs, w', r') =
    (bs ++ cs, Writes-then bs cs w w', Reads-bind bs cs dec f a b r r')
