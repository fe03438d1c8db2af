-- ===== src/Formulas/Parser/Total.antt =====
-- The fuel of the parser, formulas/parse.py, on any tokens.
use finance_context_builder.Base.{ℕ, zero, suc, ◌≤◌, ◌<◌, ◌≢◌, List, [], ◌∷◌, ◌++◌, length, arith}
use finance_context_builder.Base.Eq.{nat_eq, list_eq}
use finance_context_builder.Base.Text.{Text}
use finance_context_builder.Formulas.Syntax.{
  Op, Ast, number, string, error_token, name, ref, op, lparen, rparen, lbrace, sep, colon, plus,
  minus, percent_sign, power,
}
use finance_context_builder.Formulas.Parser.{
  ok, fail, stuck, ◌>>=◌, Tokens, Parsed, Parser, args_loop, parse_args, parse_call, parse_primary,
  parse_postfix, parse_unary, pow_loop, parse_pow, parse_mul, parse_add, parse_compare,
  parse_concat, expr_loop, parse_expr, parse_formula, close_paren, with_percent, wrap_unary,
  pow_tail, is_mul, is_add, is_compare, is_concat,
}
use finance_context_builder.Formulas.Parser.Loops.{
  Within, Takes, Within-mono, bind-Within, left_assoc-Takes, parse_array-Takes,
  parse_named_range-Takes,
}

module _ {Number Ref : Type 0} (negate : Number → Number) (upper lower : Text → Text) where
  module _ (expr : Parser Number Ref) (n : ℕ)
      (takes : (tokens : Tokens Number Ref)
        → length tokens < n
        → Within (length tokens) (expr tokens)) where
    args_loop-Within :
        (fuel : ℕ) (args : List (Ast Number Ref)) (tokens : Tokens Number Ref)
        → length tokens ≤ n
        → length tokens < fuel
        → Within (suc (length tokens)) (args_loop negate upper lower expr fuel args tokens)
    unfolding args_loop
    args_loop-Within zero args tokens h enough = absurd (omega arith)
    args_loop-Within (suc fuel) args (sep ∷ tokens) h enough =
        bind-Within (length tokens) (suc (suc (length tokens))) (expr tokens) _
          (takes tokens (omega arith))
          (λ arg rest shorter.
            Within-mono (suc (length rest)) (suc (suc (length tokens))) _ (omega arith)
              (args_loop-Within fuel (args ++ arg ∷ []) rest (omega arith) (omega arith)))
    args_loop-Within (suc fuel) args (rparen ∷ tokens) h enough = omega arith
    args_loop-Within (suc fuel) args tokens h enough = tt

    parse_args_first :
        (tokens : Tokens Number Ref)
        → length tokens < n
        → Within (length tokens) (do
          (arg, rest) ← expr tokens
          args_loop negate upper lower expr (suc (length rest)) (arg ∷ []) rest)
    parse_args_first tokens h =
        bind-Within (length tokens) (length tokens) (expr tokens) _ (takes tokens h)
          (λ arg rest shorter.
            Within-mono (suc (length rest)) (length tokens) _ (omega arith)
              (args_loop-Within (suc (length rest)) (arg ∷ []) rest (omega arith) (omega arith)))

    parse_args-Within :
        (tokens : Tokens Number Ref)
        → length tokens < n
        → Within (length tokens) (parse_args negate upper lower expr tokens)
    unfolding parse_args
    parse_args-Within [] h = tt
    parse_args-Within (rparen ∷ tokens) h = omega arith
    parse_args-Within (token ∷ tokens) h = parse_args_first (token ∷ tokens) h

    parse_call-Within :
        (called : Text) (tokens : Tokens Number Ref)
        → length tokens < n
        → Within (length tokens) (parse_call negate upper lower expr called tokens)
    unfolding parse_call
    parse_call-Within called tokens h =
        bind-Within (length tokens) (length tokens) (parse_args negate upper lower expr tokens) _
          (parse_args-Within tokens h) (λ args rest shorter. shorter)

    close_paren-Within :
        (node : Ast Number Ref) (tokens : Tokens Number Ref)
        → Within (suc (length tokens)) (close_paren node tokens)
    close_paren-Within node [] = tt
    close_paren-Within node (rparen ∷ tokens) = omega arith
    close_paren-Within node (token ∷ tokens) = tt

    parse_primary-Takes : Takes n (parse_primary negate upper lower expr)
    unfolding parse_primary
    parse_primary-Takes (number value ∷ tokens) h = omega arith
    parse_primary-Takes (string value ∷ tokens) h = omega arith
    parse_primary-Takes (error_token value ∷ tokens) h = omega arith
    parse_primary-Takes (ref value ∷ tokens) h = omega arith
    parse_primary-Takes (name value ∷ lparen ∷ tokens) h =
        Within-mono (length tokens) (suc (suc (length tokens))) _ (omega arith)
          (parse_call-Within value tokens (omega arith))
    parse_primary-Takes (name value ∷ colon ∷ tokens) h =
        Within-mono (length tokens) (suc (suc (length tokens))) _ (omega arith)
          (parse_named_range-Takes negate upper lower n value tokens (omega arith))
    parse_primary-Takes (name value ∷ tokens) h = omega arith
    parse_primary-Takes (lparen ∷ tokens) h =
        bind-Within (length tokens) (suc (length tokens)) (expr tokens) _
          (takes tokens (omega arith))
          (λ node rest shorter.
            Within-mono (suc (length rest)) (suc (length tokens)) _ (omega arith)
              (close_paren-Within node rest))
    parse_primary-Takes (lbrace ∷ tokens) h =
        Within-mono (length tokens) (suc (length tokens)) _ (omega arith)
          (parse_array-Takes negate upper lower n tokens (omega arith))
    parse_primary-Takes tokens h = tt

    with_percent-shorter :
        (node : Ast Number Ref) (tokens : Tokens Number Ref)
        → length (with_percent node tokens).1 ≤ length tokens
    with_percent-shorter node [] = omega arith
    with_percent-shorter node (op percent_sign ∷ tokens) = omega arith
    with_percent-shorter node (token ∷ tokens) = omega arith

    parse_postfix-Takes : Takes n (parse_postfix negate upper lower expr)
    unfolding parse_postfix
    parse_postfix-Takes tokens h =
        bind-Within (length tokens) (length tokens) (parse_primary negate upper lower expr tokens) _
          (parse_primary-Takes tokens h)
          (λ node rest shorter. omega (arith, with_percent-shorter node rest))

    wrap_unary-Within :
        (kind : Op) (m : ℕ) (r : Parsed Number Ref (Ast Number Ref))
        → Within m r
        → Within m (wrap_unary kind r)
    wrap_unary-Within kind m r w = bind-Within m m r _ w (λ node rest shorter. shorter)

    parse_unary-Takes : Takes n (parse_unary negate upper lower expr)
    unfolding parse_unary
    parse_unary-Takes (op plus ∷ tokens) h =
        Within-mono (length tokens) (suc (length tokens)) _ (omega arith)
          (wrap_unary-Within plus (length tokens) _ (parse_unary-Takes tokens (omega arith)))
    parse_unary-Takes (op minus ∷ tokens) h =
        Within-mono (length tokens) (suc (length tokens)) _ (omega arith)
          (wrap_unary-Within minus (length tokens) _ (parse_unary-Takes tokens (omega arith)))
    parse_unary-Takes tokens h = parse_postfix-Takes tokens h

    pow_tail-Within :
        (again : Parser Number Ref) (m : ℕ) (node : Ast Number Ref) (tokens : Tokens Number Ref)
        → Takes m again
        → length tokens ≤ suc m
        → Within (suc (length tokens)) (pow_tail again node tokens)
    pow_tail-Within again m node [] t h = omega arith
    pow_tail-Within again m node (op power ∷ tokens) t h =
        bind-Within (length tokens) (suc (suc (length tokens))) (again tokens) _
          (t tokens (omega arith)) (λ right rest shorter. omega arith)
    pow_tail-Within again m node (token ∷ tokens) t h = omega arith

    pow_loop-Within :
        (fuel : ℕ) (tokens : Tokens Number Ref)
        → length tokens ≤ n
        → length tokens < fuel
        → Within (length tokens) (pow_loop negate upper lower expr fuel tokens)
    unfolding pow_loop
    pow_loop-Within zero tokens h enough = absurd (omega arith)
    pow_loop-Within (suc fuel) tokens h enough =
        bind-Within (length tokens) (length tokens) (parse_unary negate upper lower expr tokens) _
          (parse_unary-Takes tokens h)
          (λ node rest shorter. Within-mono (suc (length rest)) (length tokens) _ (omega arith) (
            pow_tail-Within (pow_loop negate upper lower expr fuel) (length rest) node rest
              (λ more shorter'. pow_loop-Within fuel more (omega arith) (omega arith))
              (omega arith)))

    parse_concat-Takes : Takes n (parse_concat negate upper lower expr)
    unfolding parse_concat parse_compare parse_add parse_mul
    parse_concat-Takes = left_assoc-Takes negate upper lower is_concat _ n (
        left_assoc-Takes negate upper lower is_compare _ n (
          left_assoc-Takes negate upper lower is_add _ n (
            left_assoc-Takes negate upper lower is_mul _ n (λ tokens h.
              unfold parse_pow in pow_loop-Within (suc (length tokens)) tokens h (omega arith)))))

  expr_loop-Takes :
      (fuel : ℕ) (tokens : Tokens Number Ref)
      → length tokens < fuel
      → Within (length tokens) (expr_loop negate upper lower fuel tokens)
  unfolding expr_loop
  expr_loop-Takes zero tokens h = absurd (omega arith)
  expr_loop-Takes (suc fuel) tokens h =
      parse_concat-Takes (expr_loop negate upper lower fuel) fuel
        (λ more shorter. expr_loop-Takes fuel more shorter) tokens (omega arith)

  whole_total :
      (n : ℕ) (r : Parsed Number Ref (Ast Number Ref))
      → Within n r
      → (r >>= λ (ast, rest). elim rest [ [] ↦ ok ast | _ ∷ _ ↦ fail ]) ≢ stuck
  whole_total n (ok (ast, [])) w e = absurd (ground arith)
  whole_total n (ok (ast, token ∷ rest)) w e = absurd (ground arith)
  whole_total n fail w e = absurd (ground arith)
  whole_total n stuck w e = w

  -- On every list of tokens the parser, on a stack without a bound, returns a tree or raises
  -- FormulaSyntaxError.
  pub parse_formula_total :
      (tokens : Tokens Number Ref) → parse_formula negate upper lower tokens ≢ stuck
  unfolding parse_formula parse_expr
  parse_formula_total tokens e =
      whole_total (length tokens) (expr_loop negate upper lower (suc (length tokens)) tokens)
        (expr_loop-Takes (suc (length tokens)) tokens (omega arith)) e
