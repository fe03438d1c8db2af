-- ===== src/Excel/Columns.antt =====
-- Column letters of excel/a1.py: `col_to_index`, `in_grid`, and `index_to_col` with its cache.
pub mod Letters
pub mod Cache
use finance_context_builder.Base.{
  ℕ, zero, suc, ◌+◌, ◌-◌, ◌*◌, ◌/◌, ◌%◌, ◌≤◌, ◌<◌, max, Bool, true, false, ◌&&◌, [], ◌∷◌, leb,
  if◌then◌else◌, Option, none, some,
}
use finance_context_builder.Base.Eq.{◌==◌, nat_eq}
use finance_context_builder.Base.Dict.{Dict, get, put}
use finance_context_builder.Base.Text.{Text}

abbrev pub max_col : ℕ
max_col = 16_384

abbrev pub max_row : ℕ
max_row = 1_048_576

-- str.upper of one ASCII character; the callers pass ASCII letters
unfoldable pub upper : ℕ → ℕ
upper c = if leb b'a' c && leb c b'z' then c - 32 else c

-- the `for` loop of `col_to_index`
unfoldable pub col_loop : ℕ → Text → ℕ
col_loop n [] = n
col_loop n (ch ∷ rest) = col_loop (n * 26 + (upper ch - 64)) rest

unfoldable pub col_to_index : Text → ℕ
unfolding col_loop
col_to_index col = col_loop 0 col

unfoldable pub in_grid : ℕ → ℕ → Bool
in_grid col row = leb 1 col && leb col max_col && (leb 1 row && leb row max_row)

-- The `while value:` loop of `index_to_col`. `chars` is kept in reverse, so it ends as the text.
-- Each round divides `value`, so a fuel of `value` rounds is enough (`Letters`).
unfoldable pub col_letters : ℕ → ℕ → Text → Text
col_letters zero value chars = chars
col_letters (suc fuel) value chars = elim (value == 0) [
  | true ↦ chars
  | false ↦ col_letters fuel ((value - 1) / 26) ((65 + (value - 1) % 26) ∷ chars)
]

-- `index_to_col` on an empty cache. A negative index is clamped to 1 there, as 0 is here.
unfoldable pub index_to_col : ℕ → Text
unfolding col_letters
index_to_col n = let value = max n 1 in col_letters value value []

-- `_COL_LETTERS`
abbrev pub ColumnCache : Type 0
ColumnCache = Dict ℕ Text

-- The whole function: a hit returns what is stored, a miss computes and stores.
unfoldable pub cached_col : ColumnCache → ℕ → Text × ColumnCache
unfolding col_letters
cached_col cache n =
    let value = max n 1 in
    elim (get cache value) [
      | some found ↦ (found, cache)
      | none ↦ let found = col_letters value value [] in (found, put cache value found)
    ]
