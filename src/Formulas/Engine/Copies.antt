-- ===== src/Formulas/Engine/Copies.antt =====
-- Formulas copied to another cell, `shift_parsed` of formulas/engine.py.
use finance_context_builder.Base.{
  ℕ, ◌≡◌, ap, true, ◌&&◌, ◌∷◌, some, inl, inr, arith, Bool-cases, Option-cases, all,
}
use finance_context_builder.Base.Eq.{◌==◌, nat_eq}
use finance_context_builder.Base.Text.{Text}
use finance_context_builder.Excel.Addresses.{parse_addr}
use finance_context_builder.Formulas.Syntax.{Ast}
use finance_context_builder.Formulas.References.{Node}
use finance_context_builder.Formulas.Template.Shifted.{stays_ast, render-shift}
use finance_context_builder.Formulas.Engine.{
  Host, FormulaEngine, formula_at, ast_of, without_equals, parse, shift_parsed,
}

module _ {Number : Type 0} (host : Host Number) (e : FormulaEngine) where
  -- What `parse` returns with a tree.
  parse-of_ast :
      (formula sheet addr : Text) (ast : Ast Number Node) (col row : ℕ)
      → parse_addr host.characters.digits addr ≡ some (col, row)
      → (parse host e formula sheet addr).ast ≡ some ast
      → parse host e formula sheet addr ≡ formula_at host e ast sheet addr col row
  unfolding parse formula_at
  parse-of_ast formula sheet addr ast col row at found =
      elim (Bool-cases (all host.characters.is_space (without_equals host formula))) [
        | inl blank ↦ absurd (ground arith)
        | inr text ↦ elim (Option-cases (ast_of host e (without_equals host formula))) [
          | inl failed ↦ absurd (ground arith)
          | inr (tree, scanned) ↦ ground arith
        ]
      ]

  -- The formula of one cell is parsed and moved to another. When none of its relative references
  -- is cut at the first row or column, and its array constants hold numbers, texts, errors, names and
  -- percentages of these, the template stays the same.
  pub template-shift_parsed :
      (formula sheet addr : Text) (ast : Ast Number Node) (from_col from_row to_col to_row : ℕ)
      → parse_addr host.characters.digits addr ≡ some (from_col, from_row)
      → (parse host e formula sheet addr).ast ≡ some ast
      → stays_ast from_col from_row to_col to_row ast ≡ true
      → (shift_parsed host e
          (parse host e formula sheet addr)
          sheet
          from_col
          from_row
          to_col
          to_row).template
        ≡ (parse host e formula sheet addr).template
  unfolding shift_parsed formula_at
  template-shift_parsed formula sheet addr ast from_col from_row to_col to_row at found stay =
      rw (parse-of_ast formula sheet addr ast from_col from_row at found)
        (elim (Bool-cases (to_col == from_col && to_row == from_row)) [
          | inl still ↦ ground arith
          | inr moves ↦ rw moves (
              ap (λ text. some (b'=' ∷ text))
                (render-shift from_col from_row to_col to_row host.floats e.sep e.decimal ast stay))
        ])
