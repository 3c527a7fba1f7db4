-- ===== src/Entropy/Rans/Cache.antt =====
-- BuildLookup with its cache of tables.
use go_draco.Common.{
  ℕ, zero, suc, ◌%◌, ◌^◌, ◌<◌, ◌≡◌, ◌≢◌, ◌⊎◌, refl, sym, ap, ◌∙◌, inl, inr, Bool-cases,
  Option-cases, List, [], ◌∷◌, some, All, set, arith, leb, ◌==◌, ==_iff, ok, err, slices_equal,
  slices_equal→eq, none≢some, some_inv,
}
use mathlib.Core.Path.{subst}
use go_draco.Entropy.RansDecoder.{
  RansDecoder, RansLookupCacheEntry, empty_entry, hash_from, hash_rans_probabilities, find_cached,
  build_lookup, new_rans_decoder, build_tables, install, cache_slots,
}
use go_draco.Entropy.Rans.Lookup.{
  sum, Represents, build_tables-Represents, sum_error, build_tables-refused,
}

-- A free slot, or one that holds the tables of its probabilities.
abbrev pub EntrySound : ℕ → RansLookupCacheEntry → Type 0
EntrySound precision entry =
    ((entry.hash ≡ 0) × (entry.probabilities ≡ []))
    ⊎ Represents precision entry.probabilities entry.lut_table entry.prob_table

abbrev pub CacheSound : RansDecoder → Type 0
CacheSound d = All (EntrySound d.precision) d.lookup_cache

-- The fields that a decoder keeps from its construction on.
pub record SameCoder (d d' : RansDecoder) : Type 0 where
  pub precision : d'.precision ≡ d.precision
  pub shift : d'.shift ≡ d.shift
  pub mask : d'.mask ≡ d.mask
  pub l_base : d'.l_base ≡ d.l_base

hash-nil : hash_rans_probabilities [] ≢ 0
unfolding hash_rans_probabilities hash_from
hash-nil = λ e. absurd (omega (arith, e))

-- A free slot is never a hit: no hash of an empty slice is 0.
not_free :
    (precision : ℕ) (ps : List ℕ) (entry : RansLookupCacheEntry)
    → EntrySound precision entry
    → entry.hash ≡ hash_rans_probabilities ps
    → entry.probabilities ≡ ps
    → Represents precision ps entry.lut_table entry.prob_table
not_free precision ps entry (inr r) e k =
    subst (λ qs. Represents precision qs entry.lut_table entry.prob_table) k r
not_free precision ps entry (inl (zero_hash, empty)) e k =
    absurd (hash-nil (ap hash_rans_probabilities (sym empty ∙ k) ∙ sym e ∙ zero_hash))

-- A hit in a sound cache holds the tables of the probabilities it was asked for.
find_cached-Represents :
    (precision : ℕ) (ps : List ℕ) (cache : List RansLookupCacheEntry) (entry : RansLookupCacheEntry)
    → All (EntrySound precision) cache
    → find_cached (hash_rans_probabilities ps) ps cache ≡ some entry
    → Represents precision ps entry.lut_table entry.prob_table
unfolding find_cached
find_cached-Represents precision ps [] entry h hit = absurd (none≢some hit)
find_cached-Represents precision ps (first ∷ rest) entry (h, hs) hit =
    elim (Bool-cases (first.hash == hash_rans_probabilities ps)) [
      | inr other ↦ find_cached-Represents precision ps rest entry hs (rw other at hit)
      | inl same ↦ elim (Bool-cases (slices_equal first.probabilities ps)) [
        | inr other ↦ find_cached-Represents precision ps rest entry hs (rw (same, other) at hit)
        | inl equal ↦
            subst (λ e. Represents precision ps e.lut_table e.prob_table)
              (some_inv (rw (same, equal) at hit))
              (not_free precision ps first h
                ((==_iff first.hash (hash_rans_probabilities ps)).0 same)
                (slices_equal→eq _ _ equal))
      ]
    ]

set-All :
    (P : RansLookupCacheEntry → Type 0) (cache : List RansLookupCacheEntry) (i : ℕ)
    (entry : RansLookupCacheEntry)
    → All P cache
    → P entry
    → All P (set cache i entry)
set-All P [] i entry h k = h
set-All P (x ∷ xs) zero entry (h, hs) k = (k, hs)
set-All P (x ∷ xs) (suc i) entry (h, hs) k = (h, set-All P xs i entry hs k)

-- A new decoder's cache holds free slots only.
pub new_rans_decoder-CacheSound : (bits : ℕ) → CacheSound (new_rans_decoder bits)
unfolding new_rans_decoder
new_rans_decoder-CacheSound bits =
    let free : EntrySound (2 ^ bits % 2 ^ 32) empty_entry = inl (refl, refl) in
    (free, (free, (free, (free, (free, (free, (free, (free, tt))))))))

-- What BuildLookup leaves where it succeeds.
abbrev pub Loaded : List ℕ → RansDecoder → RansDecoder → Type 0
Loaded ps d d' =
    Represents d.precision ps d'.lut_table d'.prob_table × CacheSound d' × SameCoder d d'

module _ (ps : List ℕ) (d : RansDecoder) (small : d.precision < 2 ^ 31) (sound : CacheSound d) where
  install-Loaded :
      sum ps ≡ d.precision
      → (hash : ℕ)
      → (d' : RansDecoder) × (install hash ps (build_tables d.precision d.lut_work ps) d
          ≡ (ok tt, d'))
        × Loaded ps d d'
  install-Loaded total hash =
      let (lut, syms, built, r) = build_tables-Represents d.precision d.lut_work ps small total in
      elim (Bool-cases (leb d.precision 4096)) [
        | inl cached ↦
            rw (built, cached)
              (
                _,
                refl,
                (
                  r,
                  set-All (EntrySound d.precision) d.lookup_cache (d.next_cache % cache_slots) _
                      sound (inr r),
                  record { precision = refl; shift = refl; mask = refl; l_base = refl },
                ),
              )
        | inr plain ↦
            rw (built, plain)
              (
                _,
                refl,
                (r, sound, record { precision = refl; shift = refl; mask = refl; l_base = refl }),
              )
      ]

  -- With a precision below 2^31 and a sound cache, BuildLookup accepts probabilities that add up to
  -- the precision: whether it builds the tables or finds them in the cache, they map each slot to the
  -- symbol whose share holds it, and the cache is sound again.
  pub build_lookup-Loaded :
      sum ps ≡ d.precision → (d' : RansDecoder) × (build_lookup ps d ≡ (ok tt, d')) × Loaded ps d d'
  unfolding build_lookup
  build_lookup-Loaded total = elim (Bool-cases (leb d.precision 4096)) [
    | inr plain ↦ rw plain (install-Loaded total 0)
    | inl cached ↦
        elim (Option-cases (find_cached (hash_rans_probabilities ps) ps d.lookup_cache)) [
          | inl miss ↦ rw (cached, miss) (install-Loaded total (hash_rans_probabilities ps))
          | inr (entry, hit) ↦
              rw (cached, hit)
                (
                  _,
                  refl,
                  (
                    find_cached-Represents d.precision ps d.lookup_cache entry sound hit,
                    sound,
                    record { precision = refl; shift = refl; mask = refl; l_base = refl },
                  ),
                )
        ]
  ]

  -- With a precision below 2^31 and a sound cache, BuildLookup refuses probabilities below 2^31 that
  -- do not add up to the precision: with the cumulative error if they add up to more and with the
  -- sum error if to less. The cache is the one of before.
  pub build_lookup-refused :
      All (λ p. p < 2 ^ 31) ps
      → sum ps ≢ d.precision
      → (d' : RansDecoder) × (build_lookup ps d ≡ (err (sum_error d.precision (sum ps)), d'))
        × (d'.lookup_cache ≡ d.lookup_cache)
        × (d'.next_cache ≡ d.next_cache)
  unfolding build_lookup
  build_lookup-refused each other =
      let refused = build_tables-refused d.precision d.lut_work ps small each other in
      elim (Bool-cases (leb d.precision 4096)) [
        | inr plain ↦ rw (plain, refused) (d, refl, refl, refl)
        | inl cached ↦
            elim (Option-cases (find_cached (hash_rans_probabilities ps) ps d.lookup_cache)) [
              | inl miss ↦ rw (cached, miss, refused) (d, refl, refl, refl)
              | inr (entry, hit) ↦ absurd (
                  other
                    (find_cached-Represents d.precision ps d.lookup_cache entry sound hit).total)
            ]
      ]
