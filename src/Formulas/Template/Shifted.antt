-- ===== src/Formulas/Template/Shifted.antt =====
-- The template of a formula that is copied to another cell with its references moved.
use finance_context_builder.Base.{
  ℕ, ◌+◌, ◌-◌, ◌<◌, ◌≡◌, refl, Bool, true, false, ◌&&◌, ◌||◌, [], ◌∷◌, ◌++◌, inl, inr, arith, leb,
  ltb, Bool-cases, All, All-append,
}
use finance_context_builder.Base.Eq.{◌==◌, nat_eq}
use finance_context_builder.Base.Text
use finance_context_builder.Base.Text.{Text, IsAsciiDigit, str-digits}
use finance_context_builder.Formulas.Syntax.{
  Op, Ast, Asts, num, str, err, named, cell, bin, unary, percent, func, array, named_range, no_more,
  and_then, Rows, no_row, row,
}
use finance_context_builder.Formulas.Characters.{span}
use finance_context_builder.Formulas.References.{
  Coordinate, Point, Body, Node, one, block, columns, rows, refer, deleted,
}
use finance_context_builder.Formulas.Shift.{
  offset, moved, shift_coordinate, shift_point, shift_node, shift_ast, shift_asts,
}
use finance_context_builder.Formulas.Template.{
  difference, half, r1c1, split_at_c, first_line, render_body, render_node, prec, paren, Floats,
  render, render_args, render_rows, op_prec,
}

-- A relative coordinate keeps within the sheet when its cell moves: it is not cut to 1.
unfoldable pub stays : ℕ → ℕ → Coordinate → Bool
stays from to c = c.fixed || ltb from (c.index + to)

difference-moved :
    (from to index : ℕ)
    → from < index + to
    → difference (moved index (offset to from)) to ≡ difference index from
unfolding difference moved offset
difference-moved from to index h = ground arith

half-shift :
    (letter from to : ℕ) (c : Coordinate)
    → stays from to c ≡ true
    → half letter to (shift_coordinate (offset to from) c) ≡ half letter from c
unfolding half shift_coordinate stays
half-shift letter from to c h = ground (arith, difference-moved from to c.index)

&&-true : (a b : Bool) → (a && b) ≡ true → (a ≡ true) × (b ≡ true)
&&-true a b h = ground arith

-- No character of the text is a C.
abbrev HasNoC : Text → Type 0
HasNoC text = All (λ c. (c == b'C') ≡ false) text

digits-HasNoC : (text : Text) → All IsAsciiDigit text → HasNoC text
digits-HasNoC [] h = tt
digits-HasNoC (c ∷ text) h = (ground arith, digits-HasNoC text h.1)

difference-HasNoC : (position origin : ℕ) → HasNoC (difference position origin)
unfolding difference
difference-HasNoC position origin = elim (Bool-cases (leb origin position)) [
  | inl ahead ↦
      rw (ahead, All)
        (digits-HasNoC (Text.str (position - origin)) (str-digits (position - origin)))
  | inr behind ↦
      rw (behind, All)
        (refl, digits-HasNoC (Text.str (origin - position)) (str-digits (origin - position)))
]

half-HasNoC : (origin : ℕ) (c : Coordinate) → HasNoC (half b'R' origin c)
unfolding half
half-HasNoC origin c = elim (Bool-cases c.fixed) [
  | inl fixed ↦ rw (fixed, All) (refl, digits-HasNoC (Text.str c.index) (str-digits c.index))
  | inr relative ↦
      rw (relative, All)
        (
          refl,
          (
            refl,
            All-append _ (difference c.index origin) (b']' ∷ []) (difference-HasNoC c.index origin)
                (refl, tt),
          ),
        )
]

split-append :
    (front back : Text) → HasNoC front → split_at_c (front ++ b'C' ∷ back) ≡ (front, b'C' ∷ back)
unfolding split_at_c span
split-append [] back h = refl
split-append (c ∷ front) back h = ground (arith, split-append front back h.1)

half-head : (origin : ℕ) (c : Coordinate) → (rest : Text) × (half b'C' origin c ≡ b'C' ∷ rest)
unfolding half
half-head origin c = elim (Bool-cases c.fixed) [
  | inl fixed ↦ (Text.str c.index, rw fixed)
  | inr relative ↦ (b'[' ∷ difference c.index origin ++ b']' ∷ [], rw relative)
]

-- The slices of `_render_range` are the halves.
split-r1c1 :
    (ocol orow : ℕ) (point : Point)
    → split_at_c (r1c1 ocol orow point) ≡ (half b'R' orow point.row, half b'C' ocol point.col)
unfolding r1c1
split-r1c1 ocol orow point =
    let (rest, e) = half-head ocol point.col in
    rw e (split-append (half b'R' orow point.row) rest (half-HasNoC orow point.row))

-- What an array constant holds: numbers, texts, errors and names, and percentages of these.
unfoldable pub is_constant : {Number : Type 0} → Ast Number Node → Bool
is_constant (num n) = true
is_constant (str text) = true
is_constant (err text) = true
is_constant (named text) = true
is_constant (percent item) = is_constant item
is_constant _ = false

unfoldable pub are_constant : {Number : Type 0} → Asts Number Node → Bool
unfolding is_constant
are_constant no_more = true
are_constant (and_then first others) = is_constant first && are_constant others

unfoldable pub rows_constant : {Number : Type 0} → Rows Number Node → Bool
unfolding are_constant
rows_constant no_row = true
rows_constant (row first others) = are_constant first && rows_constant others

module _ {Number : Type 0} (f : Floats Number) (sep decimal ocol orow pcol prow : ℕ) where
  render-constant :
      (ast : Ast Number Node)
      → is_constant ast ≡ true
      → render f sep decimal ocol orow ast ≡ render f sep decimal pcol prow ast
  unfolding render is_constant
  render-constant (num n) h = refl
  render-constant (str text) h = refl
  render-constant (err text) h = refl
  render-constant (named text) h = refl
  render-constant (percent item) h = ground (arith, render-constant item h)
  render-constant _ h = cc

  render_args-constant :
      (args : Asts Number Node)
      → are_constant args ≡ true
      → render_args f sep decimal ocol orow args ≡ render_args f sep decimal pcol prow args
  unfolding render_args are_constant
  render_args-constant no_more h = refl
  render_args-constant (and_then last no_more) h = ground (arith, render-constant last)
  render_args-constant (and_then first (and_then second others)) h =
      ground (arith, render-constant first, render_args-constant (and_then second others))

  render_rows-constant :
      (cells : Rows Number Node)
      → rows_constant cells ≡ true
      → render_rows f sep decimal ocol orow cells ≡ render_rows f sep decimal pcol prow cells
  unfolding render_rows rows_constant
  render_rows-constant no_row h = refl
  render_rows-constant (row last no_row) h = ground (arith, render_args-constant last)
  render_rows-constant (row first (row second others)) h =
      ground (arith, render_args-constant first, render_rows-constant (row second others))

module _ (from_col from_row to_col to_row : ℕ) where
  unfoldable pub stays_point : Point → Bool
  unfolding stays
  stays_point point = stays from_col to_col point.col && stays from_row to_row point.row

  unfoldable pub stays_body : Body → Bool
  unfolding stays_point
  stays_body (one point) = stays_point point
  stays_body (block start end) = stays_point start && stays_point end
  stays_body (columns start end) = stays from_col to_col start && stays from_col to_col end
  stays_body (rows start end) = stays from_row to_row start && stays from_row to_row end

  unfoldable pub stays_node : Node → Bool
  unfolding stays_body
  stays_node (refer place body) = stays_body body
  stays_node deleted = true

  r1c1-shift :
      (point : Point)
      → stays_point point ≡ true
      → r1c1 to_col to_row (shift_point (offset to_col from_col) (offset to_row from_row) point)
        ≡ r1c1 from_col from_row point
  unfolding r1c1 shift_point stays_point
  r1c1-shift point h =
      ground (
        arith,
        half-shift b'R' from_row to_row point.row,
        half-shift b'C' from_col to_col point.col,
      )

  render_node-shift :
      (node : Node)
      → stays_node node ≡ true
      → render_node to_col to_row
          (shift_node (offset to_col from_col) (offset to_row from_row) node)
        ≡ render_node from_col from_row node
  unfolding render_node render_body shift_node stays_node
  render_node-shift deleted h = refl
  render_node-shift (refer place (one point)) h = ground (arith, r1c1-shift point)
  render_node-shift (refer place (block start end)) h =
      ground (arith, r1c1-shift start, r1c1-shift end)
  render_node-shift (refer place (columns start end)) h =
      let across : Coordinate → Point = λ c. record { col = c; row = first_line } in
      ground (
        arith,
        split-r1c1 to_col to_row (across (shift_coordinate (offset to_col from_col) start)),
        split-r1c1 to_col to_row (across (shift_coordinate (offset to_col from_col) end)),
        split-r1c1 from_col from_row (across start),
        split-r1c1 from_col from_row (across end),
        half-shift b'C' from_col to_col start,
        half-shift b'C' from_col to_col end,
      )
  render_node-shift (refer place (rows start end)) h =
      let along : Coordinate → Point = λ c. record { col = first_line; row = c } in
      ground (
        arith,
        split-r1c1 to_col to_row (along (shift_coordinate (offset to_row from_row) start)),
        split-r1c1 to_col to_row (along (shift_coordinate (offset to_row from_row) end)),
        split-r1c1 from_col from_row (along start),
        split-r1c1 from_col from_row (along end),
        half-shift b'R' from_row to_row start,
        half-shift b'R' from_row to_row end,
      )

  module _ {Number : Type 0} where
    unfoldable mutual
      unfolding stays_node rows_constant

      -- Every relative coordinate of the tree keeps within the sheet, and arrays hold constants.
      pub stays_ast : Ast Number Node → Bool
      stays_ast (cell node) = stays_node node
      stays_ast (bin kind left right) = stays_ast left && stays_ast right
      stays_ast (unary kind expr) = stays_ast expr
      stays_ast (percent expr) = stays_ast expr
      stays_ast (func name args) = stays_asts args
      stays_ast (num n) = true
      stays_ast (str text) = true
      stays_ast (err text) = true
      stays_ast (named text) = true
      stays_ast (array cells) = rows_constant cells
      stays_ast (named_range start end) = true

      pub stays_asts : Asts Number Node → Bool
      stays_asts no_more = true
      stays_asts (and_then first others) = stays_ast first && stays_asts others

    abbrev shifted : Ast Number Node → Ast Number Node
    shifted = shift_ast (offset to_col from_col) (offset to_row from_row)

    prec-shift : (ast : Ast Number Node) → prec (shifted ast) ≡ prec ast
    unfolding prec shift_ast
    prec-shift (num n) = refl
    prec-shift _ = refl

    paren-shift :
        (ast : Ast Number Node) (text : Text) (parent : ℕ) (right : Bool) (kind : Op)
        → paren (shifted ast) text parent right kind ≡ paren ast text parent right kind
    unfolding paren
    paren-shift ast text parent right kind = rw (prec-shift ast)

    module _ (f : Floats Number) (sep decimal : ℕ) where
      mutual
        unfolding render shift_ast stays_ast

        render-shift_go :
            (ast : Ast Number Node)
            → stays_ast ast ≡ true
            → render f sep decimal to_col to_row (shifted ast)
              ≡ render f sep decimal from_col from_row ast
        render-shift_go (num n) h = refl
        render-shift_go (str text) h = refl
        render-shift_go (err text) h = refl
        render-shift_go (named text) h = refl
        render-shift_go (array cells) h =
            ground (arith, render_rows-constant f sep decimal to_col to_row from_col from_row cells)
        render-shift_go (named_range start end) h = refl
        render-shift_go (cell node) h = render_node-shift node h
        render-shift_go (bin kind left right) h =
            let (left_stays, right_stays) = &&-true (stays_ast left) (stays_ast right) h in
            let left_text = render f sep decimal from_col from_row left in
            let right_text = render f sep decimal from_col from_row right in
            rw (
              render-shift_go left left_stays,
              render-shift_go right right_stays,
              paren-shift left left_text (op_prec kind) false kind,
              paren-shift right right_text (op_prec kind) true kind,
            )
        render-shift_go (unary kind expr) h = ground (arith, prec-shift expr, render-shift_go expr)
        render-shift_go (percent expr) h = ground (arith, render-shift_go expr)
        render-shift_go (func name args) h = ground (arith, render_args-shift args)

        render_args-shift :
            (args : Asts Number Node)
            → stays_asts args ≡ true
            → render_args f sep decimal to_col to_row
                (shift_asts (offset to_col from_col) (offset to_row from_row) args)
              ≡ render_args f sep decimal from_col from_row args
        render_args-shift no_more h = refl
        render_args-shift (and_then last no_more) h = ground (arith, render-shift_go last)
        render_args-shift (and_then first (and_then second others)) h =
            ground (arith, render-shift_go first, render_args-shift (and_then second others))

      -- When a formula is copied to another cell, its references move with it and none is cut at the
      -- first row or column, the copy has the template of the formula.
      pub render-shift :
          (ast : Ast Number Node)
          → stays_ast ast ≡ true
          → render f sep decimal to_col to_row
              (shift_ast (offset to_col from_col) (offset to_row from_row) ast)
            ≡ render f sep decimal from_col from_row ast
      render-shift ast h = render-shift_go ast h
