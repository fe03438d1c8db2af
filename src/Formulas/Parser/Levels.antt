-- ===== src/Formulas/Parser/Levels.antt =====
-- The levels of precedence: what a level makes of operands that the levels below it read.
use finance_context_builder.Base.{ℕ, suc, ◌≡◌, refl, Bool, true, false, [], ◌∷◌, length, arith}
use finance_context_builder.Base.Eq.{nat_eq, list_eq}
use finance_context_builder.Base.Text.{Text}
use finance_context_builder.Formulas.Syntax.{
  Op, Ast, op, rparen, plus, minus, percent_sign, power, bin,
}
use finance_context_builder.Formulas.Parser.{
  ok, Tokens, Parser, left_loop, left_assoc, parse_primary, parse_postfix, parse_unary, pow_loop,
  parse_pow, parse_mul, parse_add, parse_compare, parse_concat, with_percent, pow_tail, is_mul,
  is_add, is_compare, is_concat,
}

abbrev pub is_percent : Op → Bool
is_percent percent_sign = true
is_percent _ = false

abbrev pub is_power : Op → Bool
is_power power = true
is_power _ = false

module _ {Number Ref : Type 0} (negate : Number → Number) (upper lower : Text → Text) where
  -- the next token is an operator that passes the test
  abbrev pub heads : (Op → Bool) → Tokens Number Ref → Bool
  heads level (op kind ∷ rest) = level kind
  heads level rest = false

  left_loop-stop :
      (level : Op → Bool) (operand : Parser Number Ref) (fuel : ℕ) (node : Ast Number Ref)
      (rest : Tokens Number Ref)
      → heads level rest ≡ false
      → left_loop negate upper lower level operand (suc fuel) node rest ≡ ok (node, rest)
  unfolding left_loop
  left_loop-stop level operand fuel node [] h = refl
  left_loop-stop level operand fuel node (op kind ∷ rest) h = rw (left_loop, h) refl
  left_loop-stop level operand fuel node (token ∷ rest) h = refl

  -- One operand and no operator of the level.
  left_assoc-stop :
      (level : Op → Bool) (operand : Parser Number Ref) (tokens : Tokens Number Ref)
      (node : Ast Number Ref) (rest : Tokens Number Ref)
      → operand tokens ≡ ok (node, rest)
      → heads level rest ≡ false
      → left_assoc negate upper lower level operand tokens ≡ ok (node, rest)
  unfolding left_assoc
  left_assoc-stop level operand tokens node rest e h =
      rw e (left_loop-stop level operand (length rest) node rest h)

  -- Two operands and an operator of the level between.
  left_assoc-once :
      (level : Op → Bool) (operand : Parser Number Ref) (tokens : Tokens Number Ref) (kind : Op)
      (left right : Ast Number Ref) (mid rest : Tokens Number Ref)
      → operand tokens ≡ ok (left, op kind ∷ mid)
      → level kind ≡ true
      → operand mid ≡ ok (right, rest)
      → heads level rest ≡ false
      → left_assoc negate upper lower level operand tokens ≡ ok (bin kind left right, rest)
  unfolding left_assoc left_loop
  left_assoc-once level operand tokens kind left right mid rest e mine e' h =
      rw (e, left_loop, mine, e')
        (left_loop-stop level operand (length mid) (bin kind left right) rest h)

  module _ (expr : Parser Number Ref) where
    -- the tokens are read as the tree, and the rest stays
    abbrev pub Reads :
        (Parser Number Ref → Parser Number Ref)
        → Tokens Number Ref
        → Ast Number Ref
        → Tokens Number Ref
        → Type 0
    Reads p tokens node rest = p expr tokens ≡ ok (node, rest)

    abbrev pub IsPrimary : Tokens Number Ref → Ast Number Ref → Tokens Number Ref → Type 0
    IsPrimary = Reads (parse_primary negate upper lower)

    with_percent-stop :
        (node : Ast Number Ref) (rest : Tokens Number Ref)
        → heads is_percent rest ≡ false
        → with_percent node rest ≡ (node, rest)
    with_percent-stop node [] h = refl
    with_percent-stop node (op percent_sign ∷ rest) h = absurd (ground arith)
    with_percent-stop node (token ∷ rest) h = refl

    pub postfix_lem :
        (tokens : Tokens Number Ref) (node : Ast Number Ref) (rest : Tokens Number Ref)
        → IsPrimary tokens node rest
        → heads is_percent rest ≡ false
        → Reads (parse_postfix negate upper lower) tokens node rest
    unfolding parse_postfix
    postfix_lem tokens node rest e h = rw (e, with_percent-stop node rest h) refl

    -- What starts a primary is no sign.
    pub unary_lem :
        (tokens : Tokens Number Ref) (node after : Ast Number Ref) (rest rest' : Tokens Number Ref)
        → IsPrimary tokens node rest
        → parse_postfix negate upper lower expr tokens ≡ ok (after, rest')
        → parse_unary negate upper lower expr tokens ≡ ok (after, rest')
    unfolding parse_unary parse_primary
    unary_lem (op plus ∷ tokens) node after rest rest' e h = absurd (ground arith)
    unary_lem (op minus ∷ tokens) node after rest rest' e h = absurd (ground arith)
    unary_lem tokens node after rest rest' e h = h

    pow_tail-stop :
        (again : Parser Number Ref) (node : Ast Number Ref) (rest : Tokens Number Ref)
        → heads is_power rest ≡ false
        → pow_tail again node rest ≡ ok (node, rest)
    pow_tail-stop again node [] h = refl
    pow_tail-stop again node (op power ∷ rest) h = absurd (ground arith)
    pow_tail-stop again node (token ∷ rest) h = refl

    pub pow_loop-stop :
        (fuel : ℕ) (tokens : Tokens Number Ref) (node : Ast Number Ref) (rest : Tokens Number Ref)
        → parse_unary negate upper lower expr tokens ≡ ok (node, rest)
        → heads is_power rest ≡ false
        → pow_loop negate upper lower expr (suc fuel) tokens ≡ ok (node, rest)
    unfolding pow_loop
    pow_loop-stop fuel tokens node rest e h =
        rw e (pow_tail-stop (pow_loop negate upper lower expr fuel) node rest h)

    pub pow_stop :
        (tokens : Tokens Number Ref) (node : Ast Number Ref) (rest : Tokens Number Ref)
        → IsPrimary tokens node rest
        → heads is_percent rest ≡ false
        → heads is_power rest ≡ false
        → Reads (parse_pow negate upper lower) tokens node rest
    unfolding parse_pow
    pow_stop tokens node rest e h h' =
        pow_loop-stop (length tokens) tokens node rest
          (unary_lem tokens node node rest rest e (postfix_lem tokens node rest e h)) h'

    pub pow_once :
        (tokens : Tokens Number Ref) (left right : Ast Number Ref) (mid rest : Tokens Number Ref)
        → IsPrimary tokens left (op power ∷ mid)
        → IsPrimary mid right (rparen ∷ rest)
        → Reads (parse_pow negate upper lower) tokens (bin power left right) (rparen ∷ rest)
    unfolding parse_pow pow_loop parse_primary
    pow_once [] left right mid rest e e' = absurd (ground arith)
    pow_once (token ∷ tokens) left right mid rest e e' =
        let first =
          unary_lem (token ∷ tokens) left left (op power ∷ mid) (op power ∷ mid) e
            (postfix_lem (token ∷ tokens) left (op power ∷ mid) e refl) in
        let second =
          unary_lem mid right right (rparen ∷ rest) (rparen ∷ rest) e'
            (postfix_lem mid right (rparen ∷ rest) e' refl) in
        rw (first, pow_loop-stop (length tokens) mid right (rparen ∷ rest) second refl) refl

    -- From one level to the top, in front of a closing parenthesis.
    pub from_compare :
        (tokens : Tokens Number Ref) (node : Ast Number Ref) (rest : Tokens Number Ref)
        → heads is_concat rest ≡ false
        → Reads (parse_compare negate upper lower) tokens node rest
        → Reads (parse_concat negate upper lower) tokens node rest
    unfolding parse_concat
    from_compare tokens node rest h e =
        left_assoc-stop is_concat (parse_compare negate upper lower expr) tokens node rest e h

    pub from_add :
        (tokens : Tokens Number Ref) (node : Ast Number Ref) (rest : Tokens Number Ref)
        → heads is_compare rest ≡ false
        → Reads (parse_add negate upper lower) tokens node rest
        → Reads (parse_compare negate upper lower) tokens node rest
    unfolding parse_compare
    from_add tokens node rest h e =
        left_assoc-stop is_compare (parse_add negate upper lower expr) tokens node rest e h

    pub from_mul :
        (tokens : Tokens Number Ref) (node : Ast Number Ref) (rest : Tokens Number Ref)
        → heads is_add rest ≡ false
        → Reads (parse_mul negate upper lower) tokens node rest
        → Reads (parse_add negate upper lower) tokens node rest
    unfolding parse_add
    from_mul tokens node rest h e =
        left_assoc-stop is_add (parse_mul negate upper lower expr) tokens node rest e h

    pub from_pow :
        (tokens : Tokens Number Ref) (node : Ast Number Ref) (rest : Tokens Number Ref)
        → heads is_mul rest ≡ false
        → Reads (parse_pow negate upper lower) tokens node rest
        → Reads (parse_mul negate upper lower) tokens node rest
    unfolding parse_mul
    from_pow tokens node rest h e =
        left_assoc-stop is_mul (parse_pow negate upper lower expr) tokens node rest e h

    pub mul_once :
        (kind : Op) (tokens : Tokens Number Ref) (left right : Ast Number Ref)
        (mid rest : Tokens Number Ref)
        → is_mul kind ≡ true
        → Reads (parse_pow negate upper lower) tokens left (op kind ∷ mid)
        → Reads (parse_pow negate upper lower) mid right (rparen ∷ rest)
        → Reads (parse_mul negate upper lower) tokens (bin kind left right) (rparen ∷ rest)
    unfolding parse_mul
    mul_once kind tokens left right mid rest mine e e' =
        left_assoc-once is_mul (parse_pow negate upper lower expr) tokens kind left right mid
          (rparen ∷ rest) e mine e' refl

    pub add_once :
        (kind : Op) (tokens : Tokens Number Ref) (left right : Ast Number Ref)
        (mid rest : Tokens Number Ref)
        → is_add kind ≡ true
        → Reads (parse_mul negate upper lower) tokens left (op kind ∷ mid)
        → Reads (parse_mul negate upper lower) mid right (rparen ∷ rest)
        → Reads (parse_add negate upper lower) tokens (bin kind left right) (rparen ∷ rest)
    unfolding parse_add
    add_once kind tokens left right mid rest mine e e' =
        left_assoc-once is_add (parse_mul negate upper lower expr) tokens kind left right mid
          (rparen ∷ rest) e mine e' refl

    pub compare_once :
        (kind : Op) (tokens : Tokens Number Ref) (left right : Ast Number Ref)
        (mid rest : Tokens Number Ref)
        → is_compare kind ≡ true
        → Reads (parse_add negate upper lower) tokens left (op kind ∷ mid)
        → Reads (parse_add negate upper lower) mid right (rparen ∷ rest)
        → Reads (parse_compare negate upper lower) tokens (bin kind left right) (rparen ∷ rest)
    unfolding parse_compare
    compare_once kind tokens left right mid rest mine e e' =
        left_assoc-once is_compare (parse_add negate upper lower expr) tokens kind left right mid
          (rparen ∷ rest) e mine e' refl

    pub concat_once :
        (kind : Op) (tokens : Tokens Number Ref) (left right : Ast Number Ref)
        (mid rest : Tokens Number Ref)
        → is_concat kind ≡ true
        → Reads (parse_compare negate upper lower) tokens left (op kind ∷ mid)
        → Reads (parse_compare negate upper lower) mid right (rparen ∷ rest)
        → Reads (parse_concat negate upper lower) tokens (bin kind left right) (rparen ∷ rest)
    unfolding parse_concat
    concat_once kind tokens left right mid rest mine e e' =
        left_assoc-once is_concat (parse_compare negate upper lower expr) tokens kind left right mid
          (rparen ∷ rest) e mine e' refl
