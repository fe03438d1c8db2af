-- ===== src/Formulas/EngineExamples.antt =====
-- The engine on concrete formulas: numbers are natural numbers.
use finance_context_builder.Base.{ℕ, ◌≡◌, ◌≢◌, refl, true, false, some, none, inl, [], ◌∷◌, arith}
use finance_context_builder.Base.Text.{Text, str, int}
use finance_context_builder.Excel.Columns.{col_to_index, upper}
use finance_context_builder.Excel.Addresses.{parse_addr}
use finance_context_builder.Formulas.Syntax.{
  Ast, num, bin, cell, func, percent, plus, power, and_then, no_more,
}
use finance_context_builder.Formulas.References.{Node, tail_of, quoted, refer, one, here}
use finance_context_builder.Formulas.Scan.{scan_reference, scan_number}
use finance_context_builder.Formulas.Tokenizer.{
  tokenize, stuck, scan_round, scan_word, scan_float, scan_sign, find_error,
}
use finance_context_builder.Formulas.Tokenizer.Total.{tokenize_total}
use finance_context_builder.Formulas.Parser.{parse_formula, canonical_func_name}
use finance_context_builder.Formulas.Template.{render, prec, r1c1}
use finance_context_builder.Formulas.Template.Shifted.{stays_ast}
use finance_context_builder.Formulas.Template.Ambiguous.{render_ambiguous}
use finance_context_builder.Formulas.Edges.{dynamic, collect_edges}
use finance_context_builder.Formulas.Edges.Suppressed.{indirect_text, collect_edges-dynamic}
use finance_context_builder.Formulas.Engine.{Host, FormulaEngine, parse, shift_parsed}
use finance_context_builder.Formulas.Engine.Copies.{template-shift_parsed}
use finance_context_builder.Formulas.ScanExamples.{codes, ascii, whole}

abbrev same : Text → Text
same text = text

abbrev host : Host ℕ
host = record {
  characters = ascii;
  lower = same;
  upper = same;
  float = whole;
  negate = λ n. n;
  floats = record { whole_text = λ n. some (str n); text = λ n. str n };
}

abbrev english : FormulaEngine
english = record { decimal = b'.'; sep = b',' }

-- A relative and an absolute reference, in the fourth row of the third column.
abbrev tree : Ast ℕ Node
tree =
    bin plus
      (cell (
        refer here (
          one (record {
            col = record { index = 1; fixed = false };
            row = record { index = 1; fixed = false };
          }))))
      (cell (
        refer here (
          one (record {
            col = record { index = 2; fixed = true };
            row = record { index = 3; fixed = true };
          }))))

abbrev sum_text : Text
sum_text = codes "=A1+$B$3"

reads : (parse host english sum_text (codes "S") (codes "C4")).ast ≡ some tree
unfolding parse tokenize scan_round scan_word scan_reference scan_float scan_number scan_sign quoted
    find_error int col_to_index upper tail_of parse_formula parse_addr
reads = refl

relative :
    (parse host english sum_text (codes "S") (codes "C4")).template
    ≡ some (codes "=R[-3]C[-2]+R3C2")
unfolding parse tokenize scan_round scan_word scan_reference scan_float scan_number scan_sign quoted
    find_error int col_to_index upper tail_of parse_formula parse_addr render str r1c1
relative = refl

at_c4 : parse_addr ascii.digits (codes "C4") ≡ some (3, 4)
unfolding parse_addr int col_to_index upper
at_c4 = refl

stay : stays_ast 3 4 5 9 tree ≡ true
unfolding stays_ast
stay = refl

template-shift_parsed_example :
    (shift_parsed host english
      (parse host english sum_text (codes "S") (codes "C4"))
      (codes "S")
      3
      4
      5
      9).template
    ≡ (parse host english sum_text (codes "S") (codes "C4")).template
template-shift_parsed_example =
    template-shift_parsed host english sum_text (codes "S") (codes "C4") tree 3 4 5 9 at_c4 reads
      stay

tokenize_total_example : tokenize ascii whole b'.' b',' (codes "SUM(A1:B2)+1.5") ≢ stuck
tokenize_total_example = tokenize_total ascii whole b'.' b',' (codes "SUM(A1:B2)+1.5")

render_ambiguous_example :
    (render host.floats b',' b'.' 1 1 (percent (bin plus (num 1) (num 2)))
      ≡ render host.floats b',' b'.' 1 1 (bin plus (num 1) (percent (num 2))))
    × (render host.floats b',' b'.' 1 1 (bin power (num 1) (bin power (num 2) (num 3)))
        ≡ render host.floats b',' b'.' 1 1 (bin power (bin power (num 1) (num 2)) (num 3)))
unfolding prec
render_ambiguous_example =
    render_ambiguous host.floats b',' b'.' 1 1 (num 1) (num 2) (num 3) (omega arith)

indirect_called : canonical_func_name same (codes "INDIRECT") ≡ indirect_text
unfolding canonical_func_name
indirect_called = refl

collect_edges-dynamic_example :
    collect_edges same same
      (func (codes "INDIRECT") (and_then tree no_more))
      (codes "S")
      (codes "S!C4")
      false
    ≡ record {
      kind = dynamic;
      source = codes "S!C4";
      target = none;
      unresolved = true;
      truncated = false;
      abs_col = none;
      abs_row = none;
      abs_col_end = none;
      abs_row_end = none;
      named = false;
    }
      ∷ []
collect_edges-dynamic_example =
    collect_edges-dynamic same same (codes "INDIRECT") (codes "S") (codes "S!C4")
      (and_then tree no_more) false (inl indirect_called)
