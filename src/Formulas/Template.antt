-- ===== src/Formulas/Template.antt =====
-- The template of a formula, relative to its cell: `_render` of formulas/render.py. What a float
-- prints as is the host's.
pub mod Ambiguous
pub mod Shifted
use finance_context_builder.Base.{
  ℕ, zero, suc, ◌+◌, ◌-◌, Bool, true, false, ◌&&◌, ◌||◌, not, List, [], ◌∷◌, ◌++◌, map, Option,
  none, some, leb, ltb, if◌then◌else◌,
}
use finance_context_builder.Base.Eq.{◌==◌, nat_eq}
use finance_context_builder.Base.Text
use finance_context_builder.Base.Text.{Text}
use finance_context_builder.Formulas.Syntax.{
  Op, concat, eq, ne, lt, gt, le, ge, plus, minus, times, over, power, percent_sign, Ast, Asts,
  Rows, num, str, err, named, cell, bin, unary, percent, func, array, named_range, no_more,
  and_then, no_row, row,
}
use finance_context_builder.Formulas.Characters.{span}
use finance_context_builder.Formulas.References.{
  Coordinate, Point, Body, Place, Node, one, block, columns, rows, refer, deleted, deleted_text,
  filled,
}

-- str(position - origin)
unfoldable pub difference : ℕ → ℕ → Text
difference position origin =
    if leb origin position
    then Text.str (position - origin)
    else b'-' ∷ Text.str (origin - position)

-- One half of `_r1c1`, with the letter R or C.
unfoldable pub half : ℕ → ℕ → Coordinate → Text
unfolding difference
half letter origin c =
    if c.fixed
    then letter ∷ Text.str c.index
    else letter ∷ b'[' ∷ difference c.index origin ++ b']' ∷ []

unfoldable pub r1c1 : ℕ → ℕ → Point → Text
unfolding half
r1c1 ocol orow point = half b'R' orow point.row ++ half b'C' ocol point.col

-- `node.get("sheet")` where an empty text counts as none
abbrev pub present : Option Text → Option Text
present none = none
present (some text) = filled text

-- `_sheet_prefix`
unfoldable pub sheet_prefix : Place → Text
sheet_prefix place =
    let extra : Text = elim (present place.external) [
      | none ↦ []
      | some book ↦ b'[' ∷ book ++ b']' ∷ []
    ] in
    elim (present place.sheet) [ none ↦ extra | some sheet ↦ extra ++ sheet ++ b'!' ∷ [] ]

-- The text before the first C, and from it on.
unfoldable pub split_at_c : Text → Text × Text
unfolding span
split_at_c text = span (λ c. not (c == b'C')) text

abbrev pub first_line : Coordinate
first_line = record { index = 1; fixed = false }

-- `_render_ref` and `_render_range` behind the prefix
unfoldable pub render_body : ℕ → ℕ → Body → Text
render_body ocol orow (one point) = r1c1 ocol orow point
render_body ocol orow (block start end) = r1c1 ocol orow start ++ b':' ∷ r1c1 ocol orow end
render_body ocol orow (columns start end) =
    (split_at_c (r1c1 ocol orow (record { col = start; row = first_line }))).1
    ++ b':' ∷ (split_at_c (r1c1 ocol orow (record { col = end; row = first_line }))).1
render_body ocol orow (rows start end) =
    (split_at_c (r1c1 ocol orow (record { col = first_line; row = start }))).0
    ++ b':' ∷ (split_at_c (r1c1 ocol orow (record { col = first_line; row = end }))).0

unfoldable pub render_node : ℕ → ℕ → Node → Text
unfolding sheet_prefix render_body
render_node ocol orow (refer place body) = sheet_prefix place ++ render_body ocol orow body
render_node ocol orow deleted = deleted_text

-- `node["kind"]`
abbrev pub op_text : Op → Text
op_text concat = b'&' ∷ []
op_text eq = b'=' ∷ []
op_text ne = b'<' ∷ b'>' ∷ []
op_text lt = b'<' ∷ []
op_text gt = b'>' ∷ []
op_text le = b'<' ∷ b'=' ∷ []
op_text ge = b'>' ∷ b'=' ∷ []
op_text plus = b'+' ∷ []
op_text minus = b'-' ∷ []
op_text times = b'*' ∷ []
op_text over = b'/' ∷ []
op_text power = b'^' ∷ []
op_text percent_sign = b'%' ∷ []

-- The table of `_prec`.
abbrev pub op_prec : Op → ℕ
op_prec power = 5
op_prec times = 4
op_prec over = 4
op_prec plus = 3
op_prec minus = 3
op_prec concat = 1
op_prec percent_sign = 0
op_prec _ = 2

-- `op in {"-", "/", "*"}`
abbrev pub keeps_right : Op → Bool
keeps_right minus = true
keeps_right over = true
keeps_right times = true
keeps_right _ = false

abbrev pub in_parens : Text → Text
in_parens text = b'(' ∷ text ++ b')' ∷ []

-- value.replace('"', '""')
unfoldable pub double_quotes : Text → Text
double_quotes [] = []
double_quotes (c ∷ rest) =
    if c == b'"' then b'"' ∷ b'"' ∷ double_quotes rest else c ∷ double_quotes rest

-- What Python prints of a float: `str(int(value))` where it is whole, and `str(value)`.
pub record Floats (Number : Type 0) : Type 0 where
  pub whole_text : Number → Option Text
  pub text : Number → Text

module _ {Number : Type 0} where
  -- `_prec`
  unfoldable pub prec : Ast Number Node → ℕ
  prec (bin kind left right) = op_prec kind
  prec (unary kind expr) = 6
  prec (percent expr) = 7
  prec _ = 8

  -- `_paren`
  unfoldable pub paren : Ast Number Node → Text → ℕ → Bool → Op → Text
  unfolding prec
  paren child text parent_prec right kind =
      if ltb (prec child) parent_prec || right && prec child == parent_prec && keeps_right kind
      then in_parens text
      else text

  module _ (f : Floats Number) (sep decimal : ℕ) where
    unfoldable pub render_number : Number → Text
    render_number value = elim (f.whole_text value) [
      | some text ↦ text
      | none ↦
          if decimal == b','
          then map (λ c. if c == b'.' then b',' else c) (f.text value)
          else f.text value
    ]

    unfoldable mutual
      unfolding render_node prec paren render_number double_quotes

      -- `_render`
      pub render : ℕ → ℕ → Ast Number Node → Text
      render ocol orow (num value) = render_number value
      render ocol orow (str text) = b'"' ∷ double_quotes text ++ b'"' ∷ []
      render ocol orow (err text) = text
      render ocol orow (named text) = text
      render ocol orow (cell node) = render_node ocol orow node
      render ocol orow (bin kind left right) =
          paren left (render ocol orow left) (op_prec kind) false kind
          ++ op_text kind
          ++ paren right (render ocol orow right) (op_prec kind) true kind
      render ocol orow (unary kind expr) =
          op_text kind
          ++ (if ltb (prec expr) 6
              then in_parens (render ocol orow expr)
              else render ocol orow expr)
      render ocol orow (percent expr) = render ocol orow expr ++ b'%' ∷ []
      render ocol orow (func name args) = name ++ in_parens (render_args ocol orow args)
      render ocol orow (array cells) = b'{' ∷ render_rows ocol orow cells ++ b'}' ∷ []
      render ocol orow (named_range start end) = start ++ b':' ∷ end

      -- sep.join(...)
      pub render_args : ℕ → ℕ → Asts Number Node → Text
      render_args ocol orow no_more = []
      render_args ocol orow (and_then last no_more) = render ocol orow last
      render_args ocol orow (and_then first (and_then second others)) =
          render ocol orow first ++ sep ∷ render_args ocol orow (and_then second others)

      -- ";".join(rows)
      pub render_rows : ℕ → ℕ → Rows Number Node → Text
      render_rows ocol orow no_row = []
      render_rows ocol orow (row last no_row) = render_args ocol orow last
      render_rows ocol orow (row first (row second others)) =
          render_args ocol orow first ++ b';' ∷ render_rows ocol orow (row second others)
