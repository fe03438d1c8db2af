-- ===== src/Formulas/Engine.antt =====
-- Formulas from their text: the class FormulaEngine and `shift_parsed` of formulas/engine.py.
-- FormulaSyntaxError and ValueError are both caught there, and fuel never runs out (Tokenizer.Total
-- and Parser.Total).
pub mod Copies
use finance_context_builder.Base.{
  ℕ, Bool, true, false, ◌&&◌, List, [], ◌∷◌, ◌++◌, Option, none, some, all, if◌then◌else◌,
}
use finance_context_builder.Base.Eq.{◌==◌, nat_eq}
use finance_context_builder.Base.Text.{Text}
use finance_context_builder.Excel.Addresses.{starts_with, parse_addr, format_addr}
use finance_context_builder.Formulas.Syntax.{Ast}
use finance_context_builder.Formulas.Characters.{Characters}
use finance_context_builder.Formulas.References.{Node}
use finance_context_builder.Formulas.Tokenizer.{tokenize, done, syntax_error, value_error, stuck}
use finance_context_builder.Formulas.Parser.{ok, fail, parse_formula}
use finance_context_builder.Formulas.Shift.{shift_ast, offset}
use finance_context_builder.Formulas.Template.{present, Floats, render}
use finance_context_builder.Formulas.Edges.{Edge, collect_edges}

-- What the host does to texts and numbers.
pub record Host (Number : Type 0) : Type 0 where
  pub characters : Characters
  pub lower : Text → Text
  pub upper : Text → Text
  pub float : Text → Option Number
  pub negate : Number → Number
  pub floats : Floats Number

pub record ParsedFormula (Number : Type 0) : Type 0 where
  pub ast : Option (Ast Number Node)
  pub template : Option Text
  pub unparsed : Bool
  pub edges : List Edge

-- `self.decimal` and `self.sep`
pub record FormulaEngine : Type 0 where
  pub decimal : ℕ
  pub sep : ℕ

module _ {Number : Type 0} (host : Host Number) where
  -- `FormulaEngine.__init__`
  unfoldable pub engine : Option Text → FormulaEngine
  unfolding starts_with
  engine hint =
      let text : Text = elim (present hint) [ none ↦ b'e' ∷ b'n' ∷ [] | some given ↦ given ] in
      if starts_with (host.lower text) (b'r' ∷ b'u' ∷ [])
      then record { decimal = b','; sep = b';' }
      else record { decimal = b'.'; sep = b',' }

  abbrev pub unparsed_formula : ParsedFormula Number
  unparsed_formula = record { ast = none; template = none; unparsed = true; edges = [] }

  -- `f"{sheet}!{addr}"`
  abbrev pub source_of : Text → Text → Text
  source_of sheet addr = sheet ++ b'!' ∷ addr

  -- The edges and the template of a tree at a cell.
  unfoldable pub formula_at :
      FormulaEngine → Ast Number Node → Text → Text → ℕ → ℕ → ParsedFormula Number
  formula_at e ast sheet addr col row = record {
    ast = some ast;
    template = some (b'=' ∷ render host.floats e.sep e.decimal col row ast);
    unparsed = false;
    edges = collect_edges host.lower host.upper ast sheet (source_of sheet addr) false;
  }

  -- `formula[1:] if formula.startswith("=") else formula`
  unfoldable pub without_equals : Text → Text
  without_equals [] = []
  without_equals (c ∷ rest) = if c == b'=' then rest else c ∷ rest

  -- `_tokenize` and `_Parser(tokens)`; `none` is an exception.
  unfoldable pub ast_of : FormulaEngine → Text → Option (Ast Number Node)
  ast_of e text = elim (tokenize host.characters host.float e.decimal e.sep text) [
    | done tokens ↦ elim (parse_formula host.negate host.upper host.lower tokens) [
      | ok ast ↦ some ast
      | _ ↦ none
    ]
    | _ ↦ none
  ]

  -- `FormulaEngine.parse`
  unfoldable pub parse : FormulaEngine → Text → Text → Text → ParsedFormula Number
  unfolding ast_of without_equals formula_at
  parse e formula sheet addr =
      let text = without_equals formula in
      if all host.characters.is_space text then unparsed_formula else elim (ast_of e text) [
        | none ↦ unparsed_formula
        | some ast ↦ elim (parse_addr host.characters.digits addr) [
          | none ↦ unparsed_formula
          | some (col, row) ↦ formula_at e ast sheet addr col row
        ]
      ]

  -- `shift_parsed`; `_shift_ast` is skipped for a move to the same cell.
  unfoldable pub shift_parsed :
      FormulaEngine
      → ParsedFormula Number
      → Text
      → (from_col from_row to_col to_row : ℕ) → ParsedFormula Number
  unfolding formula_at
  shift_parsed e parsed sheet from_col from_row to_col to_row = elim parsed.ast [
    | none ↦ unparsed_formula
    | some ast ↦
        if parsed.unparsed
        then unparsed_formula
        else formula_at e
            (if to_col == from_col && to_row == from_row
              then ast
              else shift_ast (offset to_col from_col) (offset to_row from_row) ast)
            sheet (format_addr to_col to_row) to_col to_row
  ]
