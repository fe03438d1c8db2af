-- ===== src/Formulas/Parser/Printing.antt =====
-- Trees written with parentheses around every operator, and what the tokens begin with.
use finance_context_builder.Base.{
  ℕ, suc, ◌+◌, ◌≤◌, ◌≡◌, refl, Bool, true, false, List, [], ◌∷◌, length, arith,
}
use finance_context_builder.Base.Eq.{nat_eq, list_eq}
use finance_context_builder.Base.Text.{Text}
use finance_context_builder.Formulas.Syntax.{
  Op, Ast, number, string, error_token, name, ref, op, lparen, rparen, sep, colon, percent_sign,
  bin,
}
use finance_context_builder.Formulas.Parser.{
  ok, Tokens, Parser, args_loop, parse_args, parse_primary, is_add,
}
use finance_context_builder.Base.{max, ap}
use finance_context_builder.Formulas.Syntax.{
  Asts, num, str, err, named, cell, unary, percent, func, array, named_range, no_more, and_then,
}
use finance_context_builder.Formulas.Parser.{canonical_func_name, asts_of}
use finance_context_builder.Formulas.Parser.Levels.{is_percent, heads}

-- A tree in tokens, in front of others.
unfoldable mutual
  pub print : {Number Ref : Type 0} → Ast Number Ref → Tokens Number Ref → Tokens Number Ref
  print (num value) rest = number value ∷ rest
  print (str value) rest = string value ∷ rest
  print (err value) rest = error_token value ∷ rest
  print (named value) rest = name value ∷ rest
  print (cell value) rest = ref value ∷ rest
  print (bin kind left right) rest = lparen ∷ print left (op kind ∷ print right (rparen ∷ rest))
  print (unary kind node) rest = lparen ∷ op kind ∷ print node (rparen ∷ rest)
  print (percent node) rest = lparen ∷ print node (op percent_sign ∷ rparen ∷ rest)
  print (func called args) rest = name called ∷ lparen ∷ print_args args (rparen ∷ rest)
  print (array rows) rest = rest
  print (named_range start end) rest = name start ∷ colon ∷ name end ∷ rest

  pub print_args : {Number Ref : Type 0} → Asts Number Ref → Tokens Number Ref → Tokens Number Ref
  print_args no_more rest = rest
  print_args (and_then arg args) rest = print arg (print_more args rest)

  pub print_more : {Number Ref : Type 0} → Asts Number Ref → Tokens Number Ref → Tokens Number Ref
  print_more no_more rest = rest
  print_more (and_then arg args) rest = sep ∷ print arg (print_more args rest)

-- how deep operators and calls nest
unfoldable mutual
  pub nest : {Number Ref : Type 0} → Ast Number Ref → ℕ
  nest (bin kind left right) = suc (max (nest left) (nest right))
  nest (unary kind node) = suc (nest node)
  nest (percent node) = suc (nest node)
  nest (func called args) = suc (nest_args args)
  nest _ = 0

  pub nest_args : {Number Ref : Type 0} → Asts Number Ref → ℕ
  nest_args no_more = 0
  nest_args (and_then arg args) = max (nest arg) (nest_args args)

mutual
  unfolding print nest

  pub print-longer :
      {Number Ref : Type 0} (a : Ast Number Ref) (rest : Tokens Number Ref)
      → nest a + length rest ≤ length (print a rest)
  print-longer (num value) rest = omega arith
  print-longer (str value) rest = omega arith
  print-longer (err value) rest = omega arith
  print-longer (named value) rest = omega arith
  print-longer (cell value) rest = omega arith
  print-longer (bin kind left right) rest = omega (
    arith,
    print-longer left (op kind ∷ print right (rparen ∷ rest)),
    print-longer right (rparen ∷ rest),
  )
  print-longer (unary kind node) rest = omega (arith, print-longer node (rparen ∷ rest))
  print-longer (percent node) rest =
      omega (arith, print-longer node (op percent_sign ∷ rparen ∷ rest))
  print-longer (func called args) rest = omega (arith, print_args-longer args (rparen ∷ rest))
  print-longer (array rows) rest = omega arith
  print-longer (named_range start end) rest = omega arith

  pub print_args-longer :
      {Number Ref : Type 0} (args : Asts Number Ref) (rest : Tokens Number Ref)
      → nest_args args + length rest ≤ length (print_args args rest)
  print_args-longer no_more rest = omega arith
  print_args-longer (and_then arg args) rest =
      omega (arith, print-longer arg (print_more args rest), print_more-longer args rest)

  pub print_more-longer :
      {Number Ref : Type 0} (args : Asts Number Ref) (rest : Tokens Number Ref)
      → nest_args args + length rest ≤ length (print_more args rest)
  print_more-longer no_more rest = omega arith
  print_more-longer (and_then arg args) rest =
      omega (arith, print-longer arg (print_more args rest), print_more-longer args rest)

module _ {Number Ref : Type 0} (negate : Number → Number) (upper lower : Text → Text) where
  -- A tree that the parser can build, without array constants: signs and operators in their
  -- places, and the names of functions without a prefix.
  unfoldable mutual
    pub IsPlain : Ast Number Ref → Type 0
    IsPlain (bin kind left right) = (is_percent kind ≡ false) × IsPlain left × IsPlain right
    IsPlain (unary kind node) = (is_add kind ≡ true) × IsPlain node
    IsPlain (percent node) = IsPlain node
    IsPlain (func called args) = (canonical_func_name lower called ≡ called) × ArePlain args
    IsPlain (array rows) = ⊥
    IsPlain _ = Unit

    pub ArePlain : Asts Number Ref → Type 0
    ArePlain no_more = Unit
    ArePlain (and_then arg args) = IsPlain arg × ArePlain args

  abbrev pub list_of : Asts Number Ref → List (Ast Number Ref)
  list_of no_more = []
  list_of (and_then arg args) = arg ∷ list_of args

  pub asts_of-list_of : (args : Asts Number Ref) → asts_of (list_of args) ≡ args
  asts_of-list_of no_more = refl
  asts_of-list_of (and_then arg args) = ap (and_then arg) (asts_of-list_of args)

  -- After a name comes neither a parenthesis nor a colon.
  abbrev pub ends_name : Tokens Number Ref → Bool
  ends_name (lparen ∷ rest) = false
  ends_name (colon ∷ rest) = false
  ends_name rest = true

  pub named_lem :
      (expr : Parser Number Ref) (value : Text) (rest : Tokens Number Ref)
      → ends_name rest ≡ true
      → parse_primary negate upper lower expr (name value ∷ rest) ≡ ok (named value, rest)
  unfolding parse_primary
  named_lem expr value [] h = refl
  named_lem expr value (lparen ∷ rest) h = absurd (ground arith)
  named_lem expr value (colon ∷ rest) h = absurd (ground arith)
  named_lem expr value (token ∷ rest) h = refl

  -- The first token of a tree does not close a call.
  pub parse_args-print :
      (expr : Parser Number Ref) (a arg : Ast Number Ref) (rest rest' : Tokens Number Ref)
      (result : List (Ast Number Ref) × Tokens Number Ref)
      → IsPlain a
      → expr (print a rest) ≡ ok (arg, rest')
      → args_loop negate upper lower expr (suc (length rest')) (arg ∷ []) rest' ≡ ok result
      → parse_args negate upper lower expr (print a rest) ≡ ok result
  unfolding parse_args print IsPlain
  parse_args-print expr (array rows) arg rest rest' result p e h = absurd p
  parse_args-print expr (num value) arg rest rest' result p e h = rw e h
  parse_args-print expr (str value) arg rest rest' result p e h = rw e h
  parse_args-print expr (err value) arg rest rest' result p e h = rw e h
  parse_args-print expr (named value) arg rest rest' result p e h = rw e h
  parse_args-print expr (cell value) arg rest rest' result p e h = rw e h
  parse_args-print expr (bin kind left right) arg rest rest' result p e h = rw e h
  parse_args-print expr (unary kind node) arg rest rest' result p e h = rw e h
  parse_args-print expr (percent node) arg rest rest' result p e h = rw e h
  parse_args-print expr (func called args) arg rest rest' result p e h = rw e h
  parse_args-print expr (named_range start end) arg rest rest' result p e h = rw e h

  pub more-heads :
      (args : Asts Number Ref) (rest : Tokens Number Ref) (level : Op → Bool)
      → heads negate upper lower level (print_more args (rparen ∷ rest)) ≡ false
  unfolding print_more
  more-heads no_more rest level = refl
  more-heads (and_then arg args) rest level = refl

  pub more-ends_name :
      (args : Asts Number Ref) (rest : Tokens Number Ref)
      → ends_name (print_more args (rparen ∷ rest)) ≡ true
  unfolding print_more
  more-ends_name no_more rest = refl
  more-ends_name (and_then arg args) rest = refl
