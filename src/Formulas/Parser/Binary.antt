-- ===== src/Formulas/Parser/Binary.antt =====
-- Two operands and an operator, read at the level of the operator and passed up to the top.
use finance_context_builder.Base.{◌≡◌, refl, Bool, true, false, ◌∷◌, length, arith}
use finance_context_builder.Base.Eq.{nat_eq, list_eq}
use finance_context_builder.Base.Text.{Text}
use finance_context_builder.Formulas.Syntax.{
  Op, Ast, op, rparen, plus, minus, percent_sign, power, bin, concat, eq, ne, lt, gt, le, ge, times,
  over,
}
use finance_context_builder.Formulas.Parser.{
  Tokens, Parser, parse_unary, parse_pow, parse_mul, parse_add, parse_compare, parse_concat, is_mul,
  is_add, is_compare, is_concat,
}
use finance_context_builder.Formulas.Parser.Levels.{
  is_percent, is_power, heads, Reads, IsPrimary, pow_loop-stop, pow_stop, pow_once, from_compare,
  from_add, from_mul, from_pow, mul_once, add_once, compare_once, concat_once,
}

module _ {Number Ref : Type 0} (negate : Number → Number) (upper lower : Text → Text)
    (expr : Parser Number Ref) where
  bin_power :
      (tokens : Tokens Number Ref) (left right : Ast Number Ref) (mid rest : Tokens Number Ref)
      → IsPrimary negate upper lower expr tokens left (op power ∷ mid)
      → IsPrimary negate upper lower expr mid right (rparen ∷ rest)
      → Reads negate upper lower expr
          (parse_concat negate upper lower)
          tokens
          (bin power left right)
          (rparen ∷ rest)
  bin_power tokens left right mid rest e e' =
      let node = bin power left right in
      from_compare negate upper lower expr tokens node (rparen ∷ rest) refl (
        from_add negate upper lower expr tokens node (rparen ∷ rest) refl (
          from_mul negate upper lower expr tokens node (rparen ∷ rest) refl (
            from_pow negate upper lower expr tokens node (rparen ∷ rest) refl
              (pow_once negate upper lower expr tokens left right mid rest e e'))))

  bin_mul :
      (kind : Op) (tokens : Tokens Number Ref) (left right : Ast Number Ref)
      (mid rest : Tokens Number Ref)
      → is_mul kind ≡ true
      → (is_percent kind ≡ false) × (is_power kind ≡ false)
      → IsPrimary negate upper lower expr tokens left (op kind ∷ mid)
      → IsPrimary negate upper lower expr mid right (rparen ∷ rest)
      → Reads negate upper lower expr
          (parse_concat negate upper lower)
          tokens
          (bin kind left right)
          (rparen ∷ rest)
  bin_mul kind tokens left right mid rest mine stops e e' =
      let node = bin kind left right in
      from_compare negate upper lower expr tokens node (rparen ∷ rest) refl (
        from_add negate upper lower expr tokens node (rparen ∷ rest) refl (
          from_mul negate upper lower expr tokens node (rparen ∷ rest) refl (
            mul_once negate upper lower expr kind tokens left right mid rest mine
              (pow_stop negate upper lower expr tokens left (op kind ∷ mid) e stops.0 stops.1)
              (pow_stop negate upper lower expr mid right (rparen ∷ rest) e' refl refl))))

  mul_stop :
      (tokens : Tokens Number Ref) (node : Ast Number Ref) (rest : Tokens Number Ref)
      → IsPrimary negate upper lower expr tokens node rest
      → (heads negate upper lower is_percent rest ≡ false)
        × (heads negate upper lower is_power rest ≡ false)
        × (heads negate upper lower is_mul rest ≡ false)
      → Reads negate upper lower expr (parse_mul negate upper lower) tokens node rest
  mul_stop tokens node rest e stops =
      from_pow negate upper lower expr tokens node rest stops.2
        (pow_stop negate upper lower expr tokens node rest e stops.0 stops.1)

  bin_add :
      (kind : Op) (tokens : Tokens Number Ref) (left right : Ast Number Ref)
      (mid rest : Tokens Number Ref)
      → is_add kind ≡ true
      → (is_percent kind ≡ false) × (is_power kind ≡ false) × (is_mul kind ≡ false)
      → IsPrimary negate upper lower expr tokens left (op kind ∷ mid)
      → IsPrimary negate upper lower expr mid right (rparen ∷ rest)
      → Reads negate upper lower expr
          (parse_concat negate upper lower)
          tokens
          (bin kind left right)
          (rparen ∷ rest)
  bin_add kind tokens left right mid rest mine stops e e' =
      let node = bin kind left right in
      from_compare negate upper lower expr tokens node (rparen ∷ rest) refl (
        from_add negate upper lower expr tokens node (rparen ∷ rest) refl (
          add_once negate upper lower expr kind tokens left right mid rest mine
            (mul_stop tokens left (op kind ∷ mid) e stops)
            (mul_stop mid right (rparen ∷ rest) e' (refl, refl, refl))))

  add_stop :
      (tokens : Tokens Number Ref) (node : Ast Number Ref) (rest : Tokens Number Ref)
      → IsPrimary negate upper lower expr tokens node rest
      → (heads negate upper lower is_percent rest ≡ false)
        × (heads negate upper lower is_power rest ≡ false)
        × (heads negate upper lower is_mul rest ≡ false)
        × (heads negate upper lower is_add rest ≡ false)
      → Reads negate upper lower expr (parse_add negate upper lower) tokens node rest
  add_stop tokens node rest e stops =
      from_mul negate upper lower expr tokens node rest stops.3
        (mul_stop tokens node rest e (stops.0, stops.1, stops.2))

  bin_compare :
      (kind : Op) (tokens : Tokens Number Ref) (left right : Ast Number Ref)
      (mid rest : Tokens Number Ref)
      → is_compare kind ≡ true
      → (is_percent kind ≡ false)
        × (is_power kind ≡ false)
        × (is_mul kind ≡ false)
        × (is_add kind ≡ false)
      → IsPrimary negate upper lower expr tokens left (op kind ∷ mid)
      → IsPrimary negate upper lower expr mid right (rparen ∷ rest)
      → Reads negate upper lower expr
          (parse_concat negate upper lower)
          tokens
          (bin kind left right)
          (rparen ∷ rest)
  bin_compare kind tokens left right mid rest mine stops e e' =
      let node = bin kind left right in
      from_compare negate upper lower expr tokens node (rparen ∷ rest) refl (
        compare_once negate upper lower expr kind tokens left right mid rest mine
          (add_stop tokens left (op kind ∷ mid) e stops)
          (add_stop mid right (rparen ∷ rest) e' (refl, refl, refl, refl)))

  compare_stop :
      (tokens : Tokens Number Ref) (node : Ast Number Ref) (rest : Tokens Number Ref)
      → IsPrimary negate upper lower expr tokens node rest
      → (heads negate upper lower is_percent rest ≡ false)
        × (heads negate upper lower is_power rest ≡ false)
        × (heads negate upper lower is_mul rest ≡ false)
        × (heads negate upper lower is_add rest ≡ false)
        × (heads negate upper lower is_compare rest ≡ false)
      → Reads negate upper lower expr (parse_compare negate upper lower) tokens node rest
  compare_stop tokens node rest e stops =
      from_add negate upper lower expr tokens node rest stops.4
        (add_stop tokens node rest e (stops.0, stops.1, stops.2, stops.3))

  bin_concat :
      (tokens : Tokens Number Ref) (left right : Ast Number Ref) (mid rest : Tokens Number Ref)
      → IsPrimary negate upper lower expr tokens left (op concat ∷ mid)
      → IsPrimary negate upper lower expr mid right (rparen ∷ rest)
      → Reads negate upper lower expr
          (parse_concat negate upper lower)
          tokens
          (bin concat left right)
          (rparen ∷ rest)
  bin_concat tokens left right mid rest e e' =
      concat_once negate upper lower expr concat tokens left right mid rest refl
        (compare_stop tokens left (op concat ∷ mid) e (refl, refl, refl, refl, refl))
        (compare_stop mid right (rparen ∷ rest) e' (refl, refl, refl, refl, refl))

  -- Two primaries and an operator between them, in front of a closing parenthesis.
  pub bin_lem :
      (kind : Op) (tokens : Tokens Number Ref) (left right : Ast Number Ref)
      (mid rest : Tokens Number Ref)
      → is_percent kind ≡ false
      → IsPrimary negate upper lower expr tokens left (op kind ∷ mid)
      → IsPrimary negate upper lower expr mid right (rparen ∷ rest)
      → Reads negate upper lower expr
          (parse_concat negate upper lower)
          tokens
          (bin kind left right)
          (rparen ∷ rest)
  bin_lem concat t l r m rest h e e' = bin_concat t l r m rest e e'
  bin_lem eq t l r m rest h e e' = bin_compare eq t l r m rest refl (refl, refl, refl, refl) e e'
  bin_lem ne t l r m rest h e e' = bin_compare ne t l r m rest refl (refl, refl, refl, refl) e e'
  bin_lem lt t l r m rest h e e' = bin_compare lt t l r m rest refl (refl, refl, refl, refl) e e'
  bin_lem gt t l r m rest h e e' = bin_compare gt t l r m rest refl (refl, refl, refl, refl) e e'
  bin_lem le t l r m rest h e e' = bin_compare le t l r m rest refl (refl, refl, refl, refl) e e'
  bin_lem ge t l r m rest h e e' = bin_compare ge t l r m rest refl (refl, refl, refl, refl) e e'
  bin_lem plus t l r m rest h e e' = bin_add plus t l r m rest refl (refl, refl, refl) e e'
  bin_lem minus t l r m rest h e e' = bin_add minus t l r m rest refl (refl, refl, refl) e e'
  bin_lem times t l r m rest h e e' = bin_mul times t l r m rest refl (refl, refl) e e'
  bin_lem over t l r m rest h e e' = bin_mul over t l r m rest refl (refl, refl) e e'
  bin_lem power t l r m rest h e e' = bin_power t l r m rest e e'
  bin_lem percent_sign t l r m rest h e e' = absurd (ground arith)

  -- What the unary level reads is what the top level reads, where no operator follows.
  pub top_lem :
      (tokens : Tokens Number Ref) (node : Ast Number Ref) (rest : Tokens Number Ref)
      → Reads negate upper lower expr (parse_unary negate upper lower) tokens node rest
      → ((level : Op → Bool) → heads negate upper lower level rest ≡ false)
      → Reads negate upper lower expr (parse_concat negate upper lower) tokens node rest
  unfolding parse_pow
  top_lem tokens node rest e stops =
      from_compare negate upper lower expr tokens node rest (stops is_concat) (
        from_add negate upper lower expr tokens node rest (stops is_compare) (
          from_mul negate upper lower expr tokens node rest (stops is_add) (
            from_pow negate upper lower expr tokens node rest (stops is_mul) (
              pow_loop-stop negate upper lower expr (length tokens) tokens node rest e
                (stops is_power)))))
