-- ===== src/Excel/Columns/Cache.antt =====
-- The cache of `index_to_col`, excel/a1.py.
use finance_context_builder.Base.{ℕ, ◌≡◌, some, arith, max, Option-cases, inl, inr, []}
use finance_context_builder.Base.Eq.{nat_eq}
use finance_context_builder.Base.Dict.{get, get-put}
use finance_context_builder.Base.Text.{Text}
use finance_context_builder.Excel.Columns.{ColumnCache, cached_col, index_to_col, col_letters}

-- What a run of the program stores: each entry is the spelling of its key.
record IsCoherent (cache : ColumnCache) : Type 0 where
  at_key : (k : ℕ) (t : Text) → get cache k ≡ some t → t ≡ index_to_col k

clamp_twice : (n : ℕ) → max (max n 1) 1 ≡ max n 1
clamp_twice n = omega arith

coherent_entry :
    (cache : ColumnCache) (n : ℕ)
    → IsCoherent cache
    → (k : ℕ) (t : Text) → get (cached_col cache n).1 k ≡ some t
    → t ≡ index_to_col k
unfolding cached_col index_to_col
coherent_entry cache n h k t e =
    let value = max n 1 in
    ground (arith, h.at_key k t, clamp_twice n, get-put cache value k (col_letters value value []))

-- From a coherent cache the result is that of an empty one, and the cache stays coherent.
cached_col_lem :
    (cache : ColumnCache) (n : ℕ)
    → IsCoherent cache
    → ((cached_col cache n).0 ≡ index_to_col n) × IsCoherent (cached_col cache n).1
unfolding cached_col index_to_col
cached_col_lem cache n h = (
  elim (Option-cases (get cache (max n 1))) [
    | inl miss ↦ ground arith
    | inr (found, hit) ↦ ground (arith, h.at_key (max n 1) found hit, clamp_twice n)
  ],
  record { at_key = coherent_entry cache n h },
)
