-- ===== src/Excel/Ole2/Chains.antt =====
-- The chain of sectors of a directory, as the table of the file links them, excel/ole2.py.
use finance_context_builder.Base.{
  ℕ, suc, ◌/◌, ◌%◌, ◌≡◌, ◌⊎◌, inl, inr, refl, sym, subst, List, [], ◌++◌, none, some, arith,
  get_elem?, Option-cases, Bool-cases,
}
use finance_context_builder.Base.Eq.{◌==◌, nat_eq, list_eq}
use finance_context_builder.Base.Dict.{get, put, get-put}
use finance_context_builder.Base.Text.{Text}
use finance_context_builder.Excel.Ole2.{
  Fault, Read, failed, read, outside_fat, FatCache, read_sector, next, words, byte_at, end_of_chain,
  sector_names,
}

-- `_Sectors.next` without the cache: the word of the table is read from the file.
unfoldable pub table_word : List ℕ → ℕ → List ℕ → ℕ → Read ℕ
unfolding byte_at words
table_word file size fat sector = elim (get_elem? fat (sector / (size / 4))) [
  | none ↦ failed outside_fat
  | some sid ↦ elim (read_sector file size sid) [
    | failed fault ↦ failed fault
    | read bytes ↦ read (byte_at (words bytes) (sector % (size / 4)))
  ]
]

abbrev pub value_of : Read (ℕ × FatCache) → Read ℕ
value_of (failed fault) = failed fault
value_of (read (word, _)) = read word

abbrev pub cache_of : FatCache → Read (ℕ × FatCache) → FatCache
cache_of cache (failed fault) = cache
cache_of cache (read (_, after)) = after

pub Read-cases :
    {A : Type 0} (r : Read A) → ((f : Fault) × (r ≡ failed f)) ⊎ ((x : A) × (r ≡ read x))
Read-cases (failed fault) = inl (fault, refl)
Read-cases (read x) = inr (x, refl)

module _ (file : List ℕ) (size : ℕ) (fat : List ℕ) where
  -- Every entry holds the words of the sector that the table names there.
  pub record IsCoherent (cache : FatCache) : Type 0 where
    pub at_index :
        (k : ℕ) (values : List ℕ)
        → get cache k ≡ some values
        → (sid : ℕ) × (bytes : List ℕ) × (get_elem? fat k ≡ some sid)
          × (read_sector file size sid ≡ read bytes)
          × (values ≡ words bytes)

  put-IsCoherent :
      (cache : FatCache) (index sid : ℕ) (bytes : List ℕ)
      → IsCoherent cache
      → get_elem? fat index ≡ some sid
      → read_sector file size sid ≡ read bytes
      → IsCoherent (put cache index (words bytes))
  put-IsCoherent cache index sid bytes h place found = record {
    at_index = λ k values e. elim (Bool-cases (index == k)) [
      | inl same ↦
          let here : index ≡ k = ground arith in
          let stored : words bytes ≡ values = ground (arith, get-put cache index k (words bytes)) in
          (sid, bytes, subst (λ i. get_elem? fat i ≡ some sid) here place, found, sym stored)
      | inr other ↦ h.at_index k values (ground (arith, get-put cache index k (words bytes)))
    ];
  }

  pub next_lem :
      (sector : ℕ) (cache : FatCache)
      → IsCoherent cache
      → (value_of (next file size fat sector cache) ≡ table_word file size fat sector)
        × IsCoherent (cache_of cache (next file size fat sector cache))
  unfolding next table_word
  next_lem sector cache h =
      let index = sector / (size / 4) in
      elim (Option-cases (get_elem? fat index)) [
        | inl outside ↦ rw (value_of, cache_of, next, table_word, outside) (refl, h)
        | inr (sid, place) ↦ elim (Option-cases (get cache index)) [
          | inl miss ↦ elim (Read-cases (read_sector file size sid)) [
            | inl (fault, bad) ↦
                rw (value_of, cache_of, next, table_word, place, miss, bad) (refl, h)
            | inr (bytes, good) ↦
                rw (value_of, cache_of, next, table_word, place, miss, good)
                  (refl, put-IsCoherent cache index sid bytes h place good)
          ]
          | inr (values, hit) ↦
              let (sid', bytes, place', good, same) = h.at_index index values hit in
              let one : sid ≡ sid' = ground arith in
              rw (value_of, cache_of, next, table_word, place, hit, one, good, same) (refl, h)
        ]
      ]

  -- The names along the chain from a sector to its end, of so many sectors.
  pub data Chain (decode : List ℕ → Text) : ℕ → ℕ → List Text → Type 0 where
    done : Chain decode 0 end_of_chain []
    link :
        {n sector after : ℕ} {bytes : List ℕ} {names : List Text}
        → read_sector file size sector ≡ read bytes
        → table_word file size fat sector ≡ read after
        → Chain decode n after names
        → Chain decode (suc n) sector (sector_names decode bytes ++ names)
