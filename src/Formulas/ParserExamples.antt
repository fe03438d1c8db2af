-- ===== src/Formulas/ParserExamples.antt =====
-- The parser on concrete tokens: numbers are natural numbers, and references too.
use finance_context_builder.Base.{ℕ, ◌≡◌, ◌≢◌, refl, List, [], ◌∷◌}
use finance_context_builder.Base.Text.{Text}
use finance_context_builder.Formulas.Syntax.{
  Token, Ast, num, bin, unary, percent, func, cell, and_then, no_more, number, op, plus, minus,
  times, power, percent_sign,
}
use finance_context_builder.Formulas.Parser.{ok, stuck, parse_formula, canonical_func_name}
use finance_context_builder.Formulas.Parser.Total.{parse_formula_total}
use finance_context_builder.Formulas.Parser.Printing.{print, IsPlain}
use finance_context_builder.Formulas.Parser.RoundTrip.{parse_formula-print}

abbrev same_text : Text → Text
same_text text = text

abbrev flip : ℕ → ℕ
flip n = n

-- -1 + 2 * 3 ^ 4%
abbrev tokens : List (Token ℕ ℕ)
tokens =
    op minus
    ∷ number 1
    ∷ op plus
    ∷ number 2
    ∷ op times
    ∷ number 3
    ∷ op power
    ∷ number 4
    ∷ op percent_sign
    ∷ []

binds :
    parse_formula flip same_text same_text tokens
    ≡ ok (bin plus (unary minus (num 1)) (bin times (num 2) (bin power (num 3) (percent (num 4)))))
unfolding parse_formula
binds = refl

abbrev squares : List (Token ℕ ℕ)
squares = op minus ∷ number 2 ∷ op power ∷ number 2 ∷ []

-- The sign binds tighter than the power: -2 ^ 2
sign_first :
    parse_formula flip same_text same_text squares ≡ ok (bin power (unary minus (num 2)) (num 2))
unfolding parse_formula
sign_first = refl

parse_formula_total_example : parse_formula flip same_text same_text tokens ≢ stuck
parse_formula_total_example = parse_formula_total flip same_text same_text tokens

abbrev sum_name : Text
sum_name = b'_' ∷ b'x' ∷ b'l' ∷ b'f' ∷ b'n' ∷ b'.' ∷ b'S' ∷ []

abbrev tree : Ast ℕ ℕ
tree =
    bin plus (unary minus (num 1)) (func (b'S' ∷ []) (and_then (cell 3) (and_then (num 2) no_more)))

parse_formula-print_example : parse_formula flip same_text same_text (print tree []) ≡ ok tree
unfolding IsPlain canonical_func_name
parse_formula-print_example =
    parse_formula-print flip same_text same_text tree (refl, (refl, tt), (refl, (tt, (tt, tt))))
