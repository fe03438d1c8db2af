-- ===== src/Formulas/Known.antt =====
-- The index of known cells, formulas/known.py, and `canonical_node_id` of formulas/stage.py.
-- `_closed` and `_rows` are dictionaries by sheet of dictionaries by column, read and written only
-- through both; here the pair of sheet and column is one key, as it is in `_open`.
pub mod View
pub mod Queries
pub mod Refinement
use finance_context_builder.Base.{
  ℕ, zero, suc, ◌+◌, ◌-◌, Bool, true, false, ◌&&◌, ◌||◌, not, List, [], ◌∷◌, ◌++◌, leb, ltb,
  if◌then◌else◌, Option, none, some,
}
use finance_context_builder.Base.Eq.{◌==◌, nat_eq, list_eq, pair_eq}
use finance_context_builder.Base.Dict.{Dict, get, put}
use finance_context_builder.Base.Text.{Text, Unicode}
use finance_context_builder.Excel.Addresses.{parse_addr, format_addr}
use finance_context_builder.Formulas.Spans.{Span, span_has}
use finance_context_builder.Formulas.RunTables.{
  runs_at, extend_runs, close_all, merge_all, move_back, all_lengths,
}

abbrev pub Column : Type 0
Column = Text × ℕ

pub record KnownNodes : Type 0 where
  pub opened : Dict Column Span
  pub closed : Dict Column (List Span)
  pub literals : List Text
  pub rows : Dict Column (List Span)
  pub ready : Bool

-- `__init__`
abbrev pub empty : KnownNodes
empty = record { opened = []; closed = []; literals = []; rows = []; ready = false }

-- the two bounds of a run after the row joins it
abbrev pub widen : Span → ℕ → Span
widen (lo, hi) row = (if ltb row lo then row else lo, if ltb hi row then row else hi)

-- `row <= run[1] + 1 and row + 1 >= run[0]`
abbrev pub touches : Span → ℕ → Bool
touches (lo, hi) row = leb row (hi + 1) && leb lo (row + 1)

unfoldable pub touch : KnownNodes → Text → ℕ → ℕ → KnownNodes
unfolding extend_runs
touch s sheet col row =
    let key : Column = (sheet, col) in
    elim (get s.opened key) [
      | none ↦ record s { opened = put s.opened key (row, row) }
      | some run ↦
          if touches run row
          then record s { opened = put s.opened key (widen run row) }
          else record s {
            closed = extend_runs s.closed key (run ∷ []);
            opened = put s.opened key (row, row);
          }
    ]

unfoldable pub finalize : KnownNodes → KnownNodes
unfolding close_all merge_all
finalize s = if s.ready then s else record s {
  opened = [];
  rows = merge_all (close_all s.opened s.closed);
  closed = [];
  ready = true;
}

unfoldable pub reopen : KnownNodes → KnownNodes
unfolding move_back
reopen s = record s { closed = move_back s.rows s.closed; rows = []; ready = false }

-- the first lines of `add`
unfoldable pub writable : KnownNodes → KnownNodes
unfolding reopen
writable s = if s.ready then reopen s else s

-- f"{sheet}!{addr}"
abbrev pub node_text : Text → Text → Text
node_text sheet addr = sheet ++ b'!' ∷ addr

-- item.rsplit("!", 1), for an item with "!" in it
unfoldable pub split_last : Text → Option (Text × Text)
split_last [] = none
split_last (c ∷ rest) = elim (split_last rest) [
  | some (sheet, body) ↦ some (c ∷ sheet, body)
  | none ↦ if c == b'!' then some ([], rest) else none
]

abbrev pub elem : List Text → Text → Bool
elem [] item = false
elem (x ∷ xs) item = x == item || elem xs item

-- A set of texts is a list in which no text stands twice.
abbrev pub set_add : List Text → Text → List Text
set_add xs x = if elem xs x then xs else x ∷ xs

module _ (u : Unicode) where
  unfoldable pub canonical_node_id : Text → Text → Text
  canonical_node_id sheet addr = elim (parse_addr u addr) [
    | none ↦ node_text sheet addr
    | some (col, row) ↦ node_text sheet (format_addr col row)
  ]

  unfoldable pub add : KnownNodes → Text → Text → KnownNodes
  unfolding touch writable
  add s sheet addr =
      let s' = writable s in
      elim (parse_addr u addr) [
        | none ↦ record s' { literals = set_add s'.literals (node_text sheet addr) }
        | some (col, row) ↦ touch s' sheet col row
      ]

  -- what `_in_runs` does with the parsed body
  unfoldable pub in_runs_body : KnownNodes → Text → Text → Bool
  in_runs_body s sheet body = elim (parse_addr u body) [
    | none ↦ false
    | some (col, row) ↦
        if not (format_addr col row == body)
        then false
        else span_has (runs_at s.rows (sheet, col)) row
  ]

  unfoldable pub in_runs : KnownNodes → Text → Bool
  unfolding in_runs_body
  in_runs s item = elim (split_last item) [
    | none ↦ false
    | some (sheet, body) ↦ in_runs_body s sheet body
  ]

  -- `__contains__` of a text: the answer, and the index that `_finalize` leaves. `split_last` finds
  -- no split exactly where "!" is not in the item.
  unfoldable pub contains : KnownNodes → Text → Bool × KnownNodes
  unfolding in_runs finalize
  contains s item = elim (split_last item) [
    | none ↦ (false, s)
    | some _ ↦ let s' = finalize s in (if elem s'.literals item then true else in_runs s' item, s')
  ]

  -- the literals that the runs do not hold
  unfoldable pub loose : KnownNodes → List Text → ℕ
  loose s [] = 0
  loose s (literal ∷ rest) = (if in_runs s literal then 0 else 1) + loose s rest

  -- `__len__`
  unfoldable pub len : KnownNodes → ℕ × KnownNodes
  unfolding all_lengths loose finalize
  len s = let s' = finalize s in (all_lengths s'.rows + loose s' s'.literals, s')

abbrev filled {ℓ} : {A : Type ℓ} → List A → Bool
filled [] = false
filled (x ∷ xs) = true

-- `clear`
abbrev pub clear : KnownNodes → KnownNodes
clear s = empty

-- `__bool__`
unfoldable pub is_filled : KnownNodes → Bool
is_filled s = filled s.literals || filled s.opened || filled s.closed || filled s.rows
