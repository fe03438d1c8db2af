-- ===== src/Formulas/Parser/RoundTrip.antt =====
-- The parser on trees written with parentheses around every operator.
use finance_context_builder.Base.{
  ℕ, zero, suc, ◌≤◌, ◌<◌, ◌≡◌, refl, Bool, true, false, List, [], ◌∷◌, ◌++◌, length, arith,
}
use finance_context_builder.Base.Eq.{nat_eq, list_eq}
use finance_context_builder.Base.Text.{Text}
use finance_context_builder.Formulas.Syntax.{Op, Ast, op, rparen, plus, minus, percent_sign, bin}
use finance_context_builder.Formulas.Parser.{
  ok, Tokens, parse_named_range, args_loop, parse_args, parse_call, parse_primary, parse_postfix,
  parse_unary, expr_loop, parse_expr, parse_formula, is_add,
}
use finance_context_builder.Base.{append-nil, append_assoc, ap, ◌∙◌, sym}
use finance_context_builder.Formulas.Syntax.{
  Asts, num, str, err, named, cell, unary, percent, func, array, named_range, no_more, and_then,
}
use finance_context_builder.Formulas.Parser.Levels.{is_percent, heads, unary_lem, postfix_lem}
use finance_context_builder.Formulas.Parser.Binary.{bin_lem, top_lem}
use finance_context_builder.Formulas.Parser.Printing.{
  print, print_args, print_more, nest, nest_args, print-longer, IsPlain, ArePlain, list_of,
  asts_of-list_of, ends_name, named_lem, parse_args-print, more-heads, more-ends_name,
}

module _ {Number Ref : Type 0} (negate : Number → Number) (upper lower : Text → Text) where
  abbrev Reads : ℕ → Ast Number Ref → Tokens Number Ref → Type 0
  Reads fuel a rest =
      parse_primary negate upper lower (expr_loop negate upper lower fuel) (print a rest)
      ≡ ok (a, rest)

  -- A primary in front of what is no operator is a whole expression.
  expr_lem :
      (fuel : ℕ) (tokens : Tokens Number Ref) (a : Ast Number Ref) (rest : Tokens Number Ref)
      → parse_primary negate upper lower (expr_loop negate upper lower fuel) tokens ≡ ok (a, rest)
      → ((level : Op → Bool) → heads negate upper lower level rest ≡ false)
      → expr_loop negate upper lower (suc fuel) tokens ≡ ok (a, rest)
  unfolding expr_loop
  expr_lem fuel tokens a rest e stops =
      let expr = expr_loop negate upper lower fuel in
      top_lem negate upper lower expr tokens a rest
        (unary_lem negate upper lower expr tokens a a rest rest e
          (postfix_lem negate upper lower expr tokens a rest e (stops is_percent)))
        stops

  expr_bin :
      (fuel : ℕ) (kind : Op) (left right : Ast Number Ref) (rest : Tokens Number Ref)
      → is_percent kind ≡ false
      → Reads fuel left (op kind ∷ print right (rparen ∷ rest))
      → Reads fuel right (rparen ∷ rest)
      → expr_loop negate upper lower (suc fuel) (print left (op kind ∷ print right (rparen ∷ rest)))
        ≡ ok (bin kind left right, rparen ∷ rest)
  unfolding expr_loop
  expr_bin fuel kind left right rest h e e' =
      bin_lem negate upper lower (expr_loop negate upper lower fuel) kind
        (print left (op kind ∷ print right (rparen ∷ rest))) left right
        (print right (rparen ∷ rest)) rest h e e'

  expr_unary :
      (fuel : ℕ) (kind : Op) (node : Ast Number Ref) (rest : Tokens Number Ref)
      → is_add kind ≡ true
      → Reads fuel node (rparen ∷ rest)
      → expr_loop negate upper lower (suc fuel) (op kind ∷ print node (rparen ∷ rest))
        ≡ ok (unary kind node, rparen ∷ rest)
  unfolding expr_loop parse_unary
  expr_unary fuel kind node rest h e =
      let expr = expr_loop negate upper lower fuel in
      let tokens = print node (rparen ∷ rest) in
      let inner =
        unary_lem negate upper lower expr tokens node node (rparen ∷ rest) (rparen ∷ rest) e
          (postfix_lem negate upper lower expr tokens node (rparen ∷ rest) e refl) in
      top_lem negate upper lower expr (op kind ∷ tokens) (unary kind node) (rparen ∷ rest)
        (signed kind h inner) (λ level. refl)
    where
      signed :
          (k : Op)
          → is_add k ≡ true
          → parse_unary negate upper lower
              (expr_loop negate upper lower fuel)
              (print node (rparen ∷ rest))
            ≡ ok (node, rparen ∷ rest)
          → parse_unary negate upper lower
              (expr_loop negate upper lower fuel)
              (op k ∷ print node (rparen ∷ rest))
            ≡ ok (unary k node, rparen ∷ rest)
      signed plus h i = rw i refl
      signed minus h i = rw i refl
      signed _ h i = absurd (ground arith)

  expr_percent :
      (fuel : ℕ) (node : Ast Number Ref) (rest : Tokens Number Ref)
      → Reads fuel node (op percent_sign ∷ rparen ∷ rest)
      → expr_loop negate upper lower (suc fuel) (print node (op percent_sign ∷ rparen ∷ rest))
        ≡ ok (percent node, rparen ∷ rest)
  unfolding expr_loop parse_postfix
  expr_percent fuel node rest e =
      let expr = expr_loop negate upper lower fuel in
      let tokens = print node (op percent_sign ∷ rparen ∷ rest) in
      top_lem negate upper lower expr tokens (percent node) (rparen ∷ rest)
        (unary_lem negate upper lower expr tokens node (percent node)
          (op percent_sign ∷ rparen ∷ rest) (rparen ∷ rest) e (rw e refl))
        (λ level. refl)

  mutual
    unfolding print nest IsPlain parse_primary parse_call parse_named_range parse_args args_loop

    primary-print :
        (fuel : ℕ) (a : Ast Number Ref) (rest : Tokens Number Ref)
        → nest a ≤ fuel
        → IsPlain negate upper lower a
        → ends_name negate upper lower rest ≡ true
        → Reads fuel a rest
    primary-print fuel (num value) rest h p q = refl
    primary-print fuel (str value) rest h p q = refl
    primary-print fuel (err value) rest h p q = refl
    primary-print fuel (named value) rest h p q =
        named_lem negate upper lower (expr_loop negate upper lower fuel) value rest q
    primary-print fuel (cell value) rest h p q = refl
    primary-print zero (bin kind left right) rest h p q = absurd (omega arith)
    primary-print (suc fuel) (bin kind left right) rest h p q =
        rw
          (expr_bin fuel kind left right rest p.0
            (primary-print fuel left (op kind ∷ print right (rparen ∷ rest)) (omega arith) p.1 refl)
            (primary-print fuel right (rparen ∷ rest) (omega arith) p.2 refl))
          refl
    primary-print zero (unary kind node) rest h p q = absurd (omega arith)
    primary-print (suc fuel) (unary kind node) rest h p q =
        rw
          (expr_unary fuel kind node rest p.0
            (primary-print fuel node (rparen ∷ rest) (omega arith) p.1 refl))
          refl
    primary-print zero (percent node) rest h p q = absurd (omega arith)
    primary-print (suc fuel) (percent node) rest h p q =
        rw
          (expr_percent fuel node rest
            (primary-print fuel node (op percent_sign ∷ rparen ∷ rest) (omega arith) p refl))
          refl
    primary-print zero (func called args) rest h p q = absurd (omega arith)
    primary-print (suc fuel) (func called args) rest h p q =
        rw
          (
            args-print fuel args rest (omega arith) p.1,
            p.0,
            asts_of-list_of negate upper lower args,
          )
          refl
    primary-print fuel (array rows) rest h p q = absurd p
    primary-print fuel (named_range start end) rest h p q = refl

    args-print :
        (fuel : ℕ) (args : Asts Number Ref) (rest : Tokens Number Ref)
        → nest_args args ≤ fuel
        → ArePlain negate upper lower args
        → parse_args negate upper lower
            (expr_loop negate upper lower (suc fuel))
            (print_args args (rparen ∷ rest))
          ≡ ok (list_of negate upper lower args, rest)
    args-print fuel no_more rest h p = refl
    args-print fuel (and_then arg args) rest h p =
        parse_args-print negate upper lower (expr_loop negate upper lower (suc fuel)) arg arg
          (print_more args (rparen ∷ rest)) (print_more args (rparen ∷ rest))
          (arg ∷ list_of negate upper lower args, rest) p.0
          (expr_lem fuel (print arg (print_more args (rparen ∷ rest))) arg
            (print_more args (rparen ∷ rest))
            (primary-print fuel arg (print_more args (rparen ∷ rest)) (omega arith) p.0
              (more-ends_name negate upper lower args rest))
            (more-heads negate upper lower args rest))
          (more-print fuel (suc (length (print_more args (rparen ∷ rest)))) (arg ∷ []) args rest
            (omega arith) p.1 (omega arith))

    more-print :
        (fuel steps : ℕ) (before : List (Ast Number Ref)) (args : Asts Number Ref)
        (rest : Tokens Number Ref)
        → nest_args args ≤ fuel
        → ArePlain negate upper lower args
        → length (print_more args (rparen ∷ rest)) < steps
        → args_loop negate upper lower
            (expr_loop negate upper lower (suc fuel))
            steps
            before
            (print_more args (rparen ∷ rest))
          ≡ ok (before ++ list_of negate upper lower args, rest)
    more-print fuel zero before args rest h p enough = absurd (omega arith)
    more-print fuel (suc steps) before no_more rest h p enough =
        ap (λ xs. ok (xs, rest)) (sym (append-nil before))
    more-print fuel (suc steps) before (and_then arg args) rest h p enough =
        let tokens = print_more args (rparen ∷ rest) in
        let first =
          expr_lem fuel (print arg tokens) arg tokens
            (primary-print fuel arg tokens (omega arith) p.0
              (more-ends_name negate upper lower args rest))
            (more-heads negate upper lower args rest) in
        let later =
          more-print fuel steps (before ++ arg ∷ []) args rest (omega arith) p.1
            (omega (arith, print-longer arg tokens)) in
        rw first (
          later
          ∙ ap (λ xs. ok (xs, rest))
              (append_assoc before (arg ∷ []) (list_of negate upper lower args)))

  -- The parser reads a printed tree back as that tree.
  pub parse_formula-print :
      (a : Ast Number Ref)
      → IsPlain negate upper lower a
      → parse_formula negate upper lower (print a []) ≡ ok a
  unfolding parse_formula parse_expr
  parse_formula-print a p =
      rw
        (expr_lem (length (print a [])) (print a []) a []
          (primary-print (length (print a [])) a [] (omega (arith, print-longer a [])) p refl)
          (λ level. refl))
        refl
