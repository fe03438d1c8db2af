-- ===== src/Formulas/Parser.antt =====
-- The recursive-descent parser of formulas/parse.py. A parser takes the tokens that are left,
-- `self.tokens[self.i:]`, and returns a tree and the tokens after it. `fail` is FormulaSyntaxError,
-- and `stuck` is fuel that ran out, which the code has no counterpart of. Recursion has a stack without
-- a bound: RecursionError is not in the model.
pub mod Loops
pub mod Total
pub mod Levels
pub mod Binary
pub mod Printing
pub mod RoundTrip
pub mod Names
use finance_context_builder.Base.{
  ℕ, zero, suc, ◌+◌, Bool, true, false, ◌&&◌, ◌||◌, not, List, [], ◌∷◌, ◌++◌, length, all, drop,
  if◌then◌else◌,
}
use finance_context_builder.Base.Eq.{◌==◌, nat_eq, list_eq}
use finance_context_builder.Base.Text.{Text}
use finance_context_builder.Formulas.Syntax
use finance_context_builder.Formulas.Syntax.{
  Op, Token, Ast, Asts, Rows, concat, eq, ne, lt, gt, le, ge, plus, minus, times, over, power,
  percent_sign, number, string, error_token, name, ref, op, lparen, rparen, lbrace, rbrace, sep,
  rowsep, colon, num, str, err, named, cell, bin, unary, percent, func, array, named_range, no_more,
  and_then, no_row, row,
}

pub data Result (A : Type 0) : Type 0 where
  ok : A → Result A
  fail stuck : Result A

infixl 5 ◌>>=◌
abbrev pub ◌>>=◌ : {A B : Type 0} → Result A → (A → Result B) → Result B
ok a >>= f = f a
fail >>= f = fail
stuck >>= f = stuck

-- The operators of each loop.
abbrev pub is_concat : Op → Bool
is_concat concat = true
is_concat _ = false

abbrev pub is_compare : Op → Bool
is_compare eq = true
is_compare ne = true
is_compare lt = true
is_compare gt = true
is_compare le = true
is_compare ge = true
is_compare _ = false

abbrev pub is_add : Op → Bool
is_add plus = true
is_add minus = true
is_add _ = false

abbrev pub is_mul : Op → Bool
is_mul times = true
is_mul over = true
is_mul _ = false

abbrev is_prefix : Text → Text → Bool
is_prefix [] text = true
is_prefix (c ∷ cs) [] = false
is_prefix (c ∷ cs) (d ∷ text) = c == d && is_prefix cs text

-- "_xlfn." and "_xlws."
abbrev xlfn : Text
xlfn = b'_' ∷ b'x' ∷ b'l' ∷ b'f' ∷ b'n' ∷ b'.' ∷ []

abbrev xlws : Text
xlws = b'_' ∷ b'x' ∷ b'l' ∷ b'w' ∷ b's' ∷ b'.' ∷ []

abbrev pub has_prefix : Text → Bool
has_prefix lowered = is_prefix xlfn lowered || is_prefix xlws lowered

module _ (lower : Text → Text) where
  -- `_canonical_func_name`: every round takes six characters off, so the length bounds the rounds.
  unfoldable pub canonical_loop : ℕ → Text → Text
  canonical_loop zero text = text
  canonical_loop (suc fuel) text = elim (has_prefix (lower text)) [
    | true ↦ canonical_loop fuel (drop 6 text)
    | false ↦ text
  ]

  unfoldable pub canonical_func_name : Text → Text
  unfolding canonical_loop
  canonical_func_name text = canonical_loop (length text) text

abbrev pub true_text : Text
true_text = b'T' ∷ b'R' ∷ b'U' ∷ b'E' ∷ []

abbrev pub false_text : Text
false_text = b'F' ∷ b'A' ∷ b'L' ∷ b'S' ∷ b'E' ∷ []

-- The lists of the code as the lists of a tree.
abbrev pub asts_of : {Number Ref : Type 0} → List (Ast Number Ref) → Asts Number Ref
asts_of [] = no_more
asts_of (x ∷ xs) = and_then x (asts_of xs)

abbrev pub rows_of : {Number Ref : Type 0} → List (List (Ast Number Ref)) → Rows Number Ref
rows_of [] = no_row
rows_of (x ∷ xs) = row (asts_of x) (rows_of xs)

abbrev pub Tokens : Type 0 → Type 0 → Type 0
Tokens Number Ref = List (Token Number Ref)

-- What a parser of an `A` returns.
abbrev pub Parsed : Type 0 → Type 0 → Type 0 → Type 0
Parsed Number Ref A = Result (A × Tokens Number Ref)

abbrev pub Parser : Type 0 → Type 0 → Type 0
Parser Number Ref = Tokens Number Ref → Parsed Number Ref (Ast Number Ref)

module _ {Number Ref : Type 0} where
  -- `self.eat("RPAREN")` after the expression in parentheses
  abbrev pub close_paren : Ast Number Ref → Parser Number Ref
  close_paren node (rparen ∷ tokens) = ok (node, tokens)
  close_paren node tokens = fail

  abbrev pub with_percent : Ast Number Ref → Tokens Number Ref → Ast Number Ref × Tokens Number Ref
  with_percent node (op percent_sign ∷ tokens) = (percent node, tokens)
  with_percent node tokens = (node, tokens)

  abbrev pub wrap_unary :
      Op → Parsed Number Ref (Ast Number Ref) → Parsed Number Ref (Ast Number Ref)
  wrap_unary kind result = do (node, rest) ← result; ok (unary kind node, rest)

  -- the end of `_parse_pow`
  abbrev pub pow_tail : Parser Number Ref → Ast Number Ref → Parser Number Ref
  pow_tail again node (op power ∷ tokens) = do
    (right, rest) ← again tokens
    ok (bin power node right, rest)
  pow_tail again node tokens = ok (node, tokens)

module _ {Number Ref : Type 0} (negate : Number → Number) (upper lower : Text → Text) where
  -- A loop of a binary level: `node` grows to the left while the next token is an operator of the
  -- level. A round takes a token at least, so the number of tokens bounds the rounds.
  unfoldable pub left_loop :
      (Op → Bool) → Parser Number Ref → ℕ → Ast Number Ref → Parser Number Ref
  left_loop level operand zero node tokens = stuck
  left_loop level operand (suc fuel) node [] = ok (node, [])
  left_loop level operand (suc fuel) node (op kind ∷ tokens) = elim (level kind) [
    | true ↦ do
      (right, rest) ← operand tokens
      left_loop level operand fuel (bin kind node right) rest
    | false ↦ ok (node, op kind ∷ tokens)
  ]
  left_loop level operand (suc fuel) node (token ∷ tokens) = ok (node, token ∷ tokens)

  unfoldable pub left_assoc : (Op → Bool) → Parser Number Ref → Parser Number Ref
  unfolding left_loop
  left_assoc level operand tokens = do
    (node, rest) ← operand tokens
    left_loop level operand (suc (length rest)) node rest

  -- `_array_number`
  unfoldable pub array_number : Number → Tokens Number Ref → Ast Number Ref × Tokens Number Ref
  array_number value (op percent_sign ∷ tokens) = (percent (num value), tokens)
  array_number value tokens = (num value, tokens)

  -- `_parse_array_item`
  unfoldable pub parse_array_item : Parser Number Ref
  unfolding array_number
  parse_array_item (op plus ∷ number value ∷ tokens) = ok (array_number value tokens)
  parse_array_item (op minus ∷ number value ∷ tokens) = ok (array_number (negate value) tokens)
  parse_array_item (number value ∷ tokens) = ok (array_number value tokens)
  parse_array_item (string value ∷ tokens) = ok (str value, tokens)
  parse_array_item (error_token value ∷ tokens) = ok (err value, tokens)
  parse_array_item (name value ∷ tokens) =
      if upper value == true_text || upper value == false_text
      then ok (named (upper value), tokens)
      else fail
  parse_array_item tokens = fail

  -- `len({len(row) for row in rows}) != 1`, for at least one row
  abbrev pub is_ragged : List (List (Ast Number Ref)) → Bool
  is_ragged [] = true
  is_ragged (first ∷ rows) = not (all (λ r. length r == length first) rows)

  -- The loop of `_parse_array`: the rows before the last one, and the last one.
  unfoldable pub array_loop :
      ℕ → List (List (Ast Number Ref)) → List (Ast Number Ref) → Parser Number Ref
  unfolding parse_array_item
  array_loop zero rows last tokens = stuck
  array_loop (suc fuel) rows last (sep ∷ tokens) = do
    (item, rest) ← parse_array_item tokens
    array_loop fuel rows (last ++ item ∷ []) rest
  array_loop (suc fuel) rows last (rowsep ∷ tokens) = do
    (item, rest) ← parse_array_item tokens
    array_loop fuel (rows ++ last ∷ []) (item ∷ []) rest
  array_loop (suc fuel) rows last (rbrace ∷ tokens) =
      if is_ragged (rows ++ last ∷ [])
      then fail
      else ok (array (rows_of (rows ++ last ∷ [])), tokens)
  array_loop (suc fuel) rows last tokens = fail

  -- `_parse_array`, after "{"
  unfoldable pub parse_array : Parser Number Ref
  unfolding array_loop parse_array_item
  parse_array tokens = do
    (item, rest) ← parse_array_item tokens
    array_loop (suc (length rest)) [] (item ∷ []) rest

  -- `_parse_named_range`, after ":"
  unfoldable pub parse_named_range : Text → Parser Number Ref
  parse_named_range start (name end ∷ tokens) = ok (named_range start end, tokens)
  parse_named_range start tokens = fail

  module _ (parse_expr : Parser Number Ref) where
    -- The loop of `_parse_call`: `sep` and an argument, or the closing parenthesis.
    unfoldable pub args_loop :
        ℕ → List (Ast Number Ref) → Tokens Number Ref → Parsed Number Ref (List (Ast Number Ref))
    args_loop zero args tokens = stuck
    args_loop (suc fuel) args (sep ∷ tokens) = do
      (arg, rest) ← parse_expr tokens
      args_loop fuel (args ++ arg ∷ []) rest
    args_loop (suc fuel) args (rparen ∷ tokens) = ok (args, tokens)
    args_loop (suc fuel) args tokens = fail

    -- The arguments of `_parse_call`, after "(".
    unfoldable pub parse_args : Tokens Number Ref → Parsed Number Ref (List (Ast Number Ref))
    unfolding args_loop
    parse_args [] = fail
    parse_args (rparen ∷ tokens) = ok ([], tokens)
    parse_args tokens = do
      (arg, rest) ← parse_expr tokens
      args_loop (suc (length rest)) (arg ∷ []) rest

    unfoldable pub parse_call : Text → Parser Number Ref
    unfolding parse_args canonical_func_name
    parse_call called tokens = do
      (args, rest) ← parse_args tokens
      ok (func (canonical_func_name lower called) (asts_of args), rest)

    unfoldable pub parse_primary : Parser Number Ref
    unfolding parse_call parse_named_range parse_array
    parse_primary (number value ∷ tokens) = ok (num value, tokens)
    parse_primary (string value ∷ tokens) = ok (str value, tokens)
    parse_primary (error_token value ∷ tokens) = ok (err value, tokens)
    parse_primary (ref value ∷ tokens) = ok (cell value, tokens)
    parse_primary (name value ∷ lparen ∷ tokens) = parse_call value tokens
    parse_primary (name value ∷ colon ∷ tokens) = parse_named_range value tokens
    parse_primary (name value ∷ tokens) = ok (named value, tokens)
    parse_primary (lparen ∷ tokens) = do (node, rest) ← parse_expr tokens; close_paren node rest
    parse_primary (lbrace ∷ tokens) = parse_array tokens
    parse_primary tokens = fail

    unfoldable pub parse_postfix : Parser Number Ref
    unfolding parse_primary
    parse_postfix tokens = do (node, rest) ← parse_primary tokens; ok (with_percent node rest)

    unfoldable pub parse_unary : Parser Number Ref
    unfolding parse_postfix
    parse_unary (op plus ∷ tokens) = wrap_unary plus (parse_unary tokens)
    parse_unary (op minus ∷ tokens) = wrap_unary minus (parse_unary tokens)
    parse_unary tokens = parse_postfix tokens

    -- `_parse_pow` calls itself after a "^", so the number of tokens bounds the calls.
    unfoldable pub pow_loop : ℕ → Parser Number Ref
    unfolding parse_unary
    pow_loop zero tokens = stuck
    pow_loop (suc fuel) tokens = do
      (node, rest) ← parse_unary tokens
      pow_tail (pow_loop fuel) node rest

    unfoldable pub parse_pow : Parser Number Ref
    unfolding pow_loop
    parse_pow tokens = pow_loop (suc (length tokens)) tokens

    unfoldable pub parse_mul : Parser Number Ref
    unfolding left_assoc parse_pow
    parse_mul = left_assoc is_mul parse_pow

    unfoldable pub parse_add : Parser Number Ref
    unfolding left_assoc parse_mul
    parse_add = left_assoc is_add parse_mul

    unfoldable pub parse_compare : Parser Number Ref
    unfolding left_assoc parse_add
    parse_compare = left_assoc is_compare parse_add

    unfoldable pub parse_concat : Parser Number Ref
    unfolding left_assoc parse_compare
    parse_concat = left_assoc is_concat parse_compare

  -- `parse_expr`; the fuel bounds how deep parentheses and calls nest
  unfoldable pub expr_loop : ℕ → Parser Number Ref
  unfolding parse_concat
  expr_loop zero tokens = stuck
  expr_loop (suc fuel) tokens = parse_concat (expr_loop fuel) tokens

  unfoldable pub parse_expr : Parser Number Ref
  unfolding expr_loop
  parse_expr tokens = expr_loop (suc (length tokens)) tokens

  -- `FormulaEngine.parse` on the tokens: an expression and nothing after it
  unfoldable pub parse_formula : Tokens Number Ref → Result (Ast Number Ref)
  unfolding parse_expr
  parse_formula tokens = do
    (ast, rest) ← parse_expr tokens
    elim rest [ [] ↦ ok ast | _ ∷ _ ↦ fail ]
