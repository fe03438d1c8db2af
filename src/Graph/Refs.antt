-- ===== src/Graph/Refs.antt =====
-- The sheet, column and row of a node id: `parse_node_id` of graph/refs.py, and `_resolve_origin` of
-- graph/trace.py.
use finance_context_builder.Base.{
  ℕ, Bool, true, false, ◌&&◌, ◌||◌, not, List, [], ◌∷◌, Option, none, some, ◌>>=◌, if◌then◌else◌,
  ltb,
}
use finance_context_builder.Base.Eq.{◌==◌, nat_eq, list_eq}
use finance_context_builder.Base.Dict.{Dict, get}
use finance_context_builder.Base.Text.{Text}
use finance_context_builder.Excel.Addresses.{parse_addr}
use finance_context_builder.Formulas.Characters.{Characters, span}
use finance_context_builder.Formulas.Known.{split_last}
use finance_context_builder.Graph.Trace.{Meta, member}

-- text.lstrip and text.rstrip of the characters that pass a test
unfoldable pub drop_start : (ℕ → Bool) → Text → Text
drop_start test [] = []
drop_start test (c ∷ rest) = if test c then drop_start test rest else c ∷ rest

unfoldable pub drop_end : (ℕ → Bool) → Text → Text
drop_end test [] = []
drop_end test (c ∷ rest) = elim (drop_end test rest) [
  | [] ↦ if test c then [] else c ∷ []
  | d ∷ more ↦ c ∷ d ∷ more
]

unfoldable pub strip : (ℕ → Bool) → Text → Text
unfolding drop_start drop_end
strip test text = drop_end test (drop_start test text)

-- text.replace("''", "'")
unfoldable pub single_quotes : Text → Text
single_quotes [] = []
single_quotes (c ∷ []) = c ∷ []
single_quotes (c ∷ d ∷ rest) = elim (c == 39 && d == 39) [
  | true ↦ 39 ∷ single_quotes rest
  | false ↦ c ∷ single_quotes (d ∷ rest)
]

-- text.replace("$", "")
unfoldable pub without_dollars : Text → Text
without_dollars [] = []
without_dollars (c ∷ rest) = if c == b'$' then without_dollars rest else c ∷ without_dollars rest

-- text.split(":")[0]
unfoldable pub before_colon : Text → Text
unfolding span
before_colon text = (span (λ c. not (c == b':')) text).0

module _ (u : Characters) where
  -- The name of a sheet as the code reads it off an id.
  unfoldable pub clean_sheet : Text → Text
  unfolding strip single_quotes
  clean_sheet sheet = single_quotes (strip (λ c. c == 39) (strip u.is_space sheet))

  -- `if not sheet: return None`
  abbrev pub on_named : Text → ℕ × ℕ → Option (Text × ℕ × ℕ)
  on_named [] place = none
  on_named (c ∷ sheet) (col, row) = some (c ∷ sheet, col, row)

  -- `parse_node_id`
  unfoldable pub parse_node_id : Text → Option (Text × ℕ × ℕ)
  unfolding split_last clean_sheet before_colon without_dollars
  parse_node_id ref = split_last ref >>= λ (sheet, addr).
      parse_addr u.digits (without_dollars (before_colon addr)) >>= λ place.
      on_named (clean_sheet sheet) place

-- "|" in text
unfoldable pub has_char : ℕ → Text → Bool
has_char c [] = false
has_char c (d ∷ text) = d == c || has_char c text

-- Python's `<` on texts
unfoldable pub text_before : Text → Text → Bool
text_before [] [] = false
text_before [] (d ∷ ys) = true
text_before (c ∷ xs) [] = false
text_before (c ∷ xs) (d ∷ ys) = ltb c d || c == d && text_before xs ys

unfoldable pub insert_text : Text → List Text → List Text
unfolding text_before
insert_text x [] = x ∷ []
insert_text x (y ∷ ys) = if text_before y x then y ∷ insert_text x ys else x ∷ y ∷ ys

-- The ids of the index whose row key passes a test, sorted.
unfoldable pub ids_by_row : (Option Text → Bool) → Dict Text Meta → List Text
unfolding insert_text
ids_by_row test [] = []
ids_by_row test ((id, meta) ∷ index) =
    let more = ids_by_row test index in if test meta.row_key then insert_text id more else more

-- `row.get("row_key") == text` and `row.get("row_key") in keys`
abbrev pub is_key : Text → Option Text → Bool
is_key text none = false
is_key text (some key) = key == text

abbrev pub in_keys : List Text → Option Text → Bool
in_keys keys none = false
in_keys keys (some key) = member key keys

-- `_resolve_origin` of a stripped origin; `label_keys` is what the context file says of a label.
unfoldable pub resolve_origin : (Text → List Text) → Dict Text Meta → Text → List Text
unfolding ids_by_row has_char
resolve_origin label_keys index [] = []
resolve_origin label_keys index (c ∷ text) = elim (get index (c ∷ text)) [
  | some _ ↦ (c ∷ text) ∷ []
  | none ↦
      if has_char b'|' (c ∷ text)
      then ids_by_row (is_key (c ∷ text)) index
      else ids_by_row (in_keys (label_keys (c ∷ text))) index
]
