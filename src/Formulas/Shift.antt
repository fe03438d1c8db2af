-- ===== src/Formulas/Shift.antt =====
-- Moving the references of a syntax tree, `_shift_point` and `_shift_ast` of formulas/render.py.
use finance_context_builder.Base.{ℕ, suc, ◌+◌, ◌-◌, max, leb, if◌then◌else◌}
use finance_context_builder.Formulas.Syntax.{
  Ast, Asts, num, str, err, named, cell, bin, unary, percent, func, array, named_range, no_more,
  and_then,
}
use finance_context_builder.Formulas.References.{
  Coordinate, Point, Body, Node, one, block, columns, rows, refer, deleted,
}

-- An offset of a row or a column: `down n` is n + 1 to the front.
pub data Offset : Type 0 where
  up down : ℕ → Offset

-- to - from
unfoldable pub offset : ℕ → ℕ → Offset
offset to from = if leb from to then up (to - from) else down (from - to - 1)

-- max(index + offset, 1)
unfoldable pub moved : ℕ → Offset → ℕ
moved index (up n) = max (index + n) 1
moved index (down n) = max (index - suc n) 1

-- One coordinate of `_shift_point`.
unfoldable pub shift_coordinate : Offset → Coordinate → Coordinate
unfolding moved
shift_coordinate d c = if c.fixed then c else record c { index = moved c.index d }

unfoldable pub shift_point : Offset → Offset → Point → Point
unfolding shift_coordinate
shift_point dc dr point = record {
  col = shift_coordinate dc point.col;
  row = shift_coordinate dr point.row;
}

unfoldable pub shift_body : Offset → Offset → Body → Body
unfolding shift_point
shift_body dc dr (one point) = one (shift_point dc dr point)
shift_body dc dr (block start end) = block (shift_point dc dr start) (shift_point dc dr end)
shift_body dc dr (columns start end) = columns (shift_coordinate dc start) (shift_coordinate dc end)
shift_body dc dr (rows start end) = rows (shift_coordinate dr start) (shift_coordinate dr end)

unfoldable pub shift_node : Offset → Offset → Node → Node
unfolding shift_body
shift_node dc dr (refer place body) = refer place (shift_body dc dr body)
shift_node dc dr deleted = deleted

module _ {Number : Type 0} where
  unfoldable mutual
    unfolding shift_node

    -- `_shift_ast`; an array holds no references and is left as it is.
    pub shift_ast : Offset → Offset → Ast Number Node → Ast Number Node
    shift_ast dc dr (num n) = num n
    shift_ast dc dr (str text) = str text
    shift_ast dc dr (err text) = err text
    shift_ast dc dr (named text) = named text
    shift_ast dc dr (cell node) = cell (shift_node dc dr node)
    shift_ast dc dr (bin kind left right) = bin kind (shift_ast dc dr left) (shift_ast dc dr right)
    shift_ast dc dr (unary kind expr) = unary kind (shift_ast dc dr expr)
    shift_ast dc dr (percent expr) = percent (shift_ast dc dr expr)
    shift_ast dc dr (func name args) = func name (shift_asts dc dr args)
    shift_ast dc dr (array cells) = array cells
    shift_ast dc dr (named_range start end) = named_range start end

    pub shift_asts : Offset → Offset → Asts Number Node → Asts Number Node
    shift_asts dc dr no_more = no_more
    shift_asts dc dr (and_then first others) =
        and_then (shift_ast dc dr first) (shift_asts dc dr others)
