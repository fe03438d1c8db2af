-- ===== src/Formulas/Tokenizer.antt =====
-- The scanner's loop, `_tokenize` of formulas/scan.py. `float` is the host's, a parameter.
pub mod Total
use finance_context_builder.Base.{
  ℕ, zero, suc, Bool, true, false, ◌&&◌, ◌||◌, not, List, [], ◌∷◌, ◌++◌, map, Option, none, some,
  ◌>>=◌, if◌then◌else◌, length,
}
use finance_context_builder.Base.Eq.{◌==◌, nat_eq}
use finance_context_builder.Base.Text.{Text}
use finance_context_builder.Excel.Addresses.{starts_with}
use finance_context_builder.Formulas.Syntax.{
  Op, Token, concat, eq, ne, lt, gt, le, ge, plus, minus, times, over, power, percent_sign, number,
  string, error_token, name, ref, op, lparen, rparen, lbrace, rbrace, sep, rowsep, colon,
}
use finance_context_builder.Formulas.Characters.{Characters, at_head, span, is_word_or_dot}
use finance_context_builder.Formulas.References.{Node, Scan, quoted, tail_of, quote}
use finance_context_builder.Formulas.Scan.{scan_reference, scan_number}

-- One round of the loop: white space, a token, or an exception. FormulaSyntaxError is `refused`,
-- and `not_a_number` is the ValueError of `float`.
pub data Step (Number : Type 0) : Type 0 where
  skipped : Text → Step Number
  made : Token Number Node → Text → Step Number
  refused not_a_number : Step Number

-- What the scanner returns; `stuck` is fuel that ran out, which the code has no counterpart of.
pub data Outcome (A : Type 0) : Type 0 where
  done : A → Outcome A
  syntax_error value_error stuck : Outcome A

-- `_ERRORS`
abbrev pub errors : List Text
errors =
    (b'#' ∷ b'G' ∷ b'E' ∷ b'T' ∷ b'T' ∷ b'I' ∷ b'N' ∷ b'G' ∷ b'_' ∷ b'D' ∷ b'A' ∷ b'T' ∷ b'A' ∷ b'!'
      ∷ [])
    ∷ (b'#' ∷ b'D' ∷ b'I' ∷ b'V' ∷ b'/' ∷ b'0' ∷ b'!' ∷ [])
    ∷ (b'#' ∷ b'V' ∷ b'A' ∷ b'L' ∷ b'U' ∷ b'E' ∷ b'!' ∷ [])
    ∷ (b'#' ∷ b'N' ∷ b'U' ∷ b'L' ∷ b'L' ∷ b'!' ∷ [])
    ∷ (b'#' ∷ b'N' ∷ b'A' ∷ b'M' ∷ b'E' ∷ b'?' ∷ [])
    ∷ (b'#' ∷ b'N' ∷ b'U' ∷ b'M' ∷ b'!' ∷ [])
    ∷ (b'#' ∷ b'N' ∷ b'/' ∷ b'A' ∷ [])
    ∷ (b'#' ∷ b'R' ∷ b'E' ∷ b'F' ∷ b'!' ∷ [])
    ∷ []

-- The text after a prefix, where the text has it.
unfoldable pub after_prefix : Text → Text → Option Text
after_prefix [] text = some text
after_prefix (p ∷ prefix) [] = none
after_prefix (p ∷ prefix) (c ∷ text) = if p == c then after_prefix prefix text else none

-- The first error text that the text starts with.
unfoldable pub find_error : List Text → Text → Option (Text × Text)
unfolding after_prefix
find_error [] text = none
find_error (e ∷ rest) text = elim (after_prefix e text) [
  | some after ↦ some (e, after)
  | none ↦ find_error rest text
]

-- `<>`, `<=` and `>=`
abbrev pub two_signs : ℕ → ℕ → Option Op
two_signs c d =
    if c == b'<' && d == b'>'
    then some ne
    else if c == b'<' && d == b'='
    then some le
    else if c == b'>' && d == b'='
    then some ge
    else none

unfoldable pub find_two_signs : Text → Option (Op × Text)
find_two_signs (c ∷ d ∷ rest) = two_signs c d >>= λ kind. some (kind, rest)
find_two_signs _ = none

-- `ch in "+-*/^&=<>%"`
unfoldable pub find_sign : ℕ → Option Op
find_sign c =
    if c == b'+'
    then some plus
    else if c == b'-'
    then some minus
    else if c == b'*'
    then some times
    else if c == b'/'
    then some over
    else if c == b'^'
    then some power
    else if c == b'&'
    then some concat
    else if c == b'='
    then some eq
    else if c == b'<'
    then some lt
    else if c == b'>'
    then some gt
    else if c == b'%'
    then some percent_sign
    else none

module _ {Number : Type 0} where
  -- The tests on the character alone, after those for operators.
  unfoldable pub punctuation : ℕ → Option (Token Number Node)
  punctuation c =
      if c == b':'
      then some colon
      else if c == b'('
      then some lparen
      else if c == b')'
      then some rparen
      else if c == b'{'
      then some lbrace
      else if c == b'}'
      then some rbrace
      else none

  -- A token and the text after it, or FormulaSyntaxError.
  abbrev pub made_or_refused : Option (Token Number Node × Text) → Step Number
  made_or_refused none = refused
  made_or_refused (some (token, rest)) = made token rest

  -- The branches of the loop from the separator on; `sign` is the separator of the locale.
  unfoldable pub scan_sign : ℕ → ℕ → Text → Step Number
  unfolding find_two_signs find_sign punctuation
  scan_sign sign c rest =
      if c == sign
      then made sep rest
      else if c == b';'
      then made rowsep rest
      else elim (find_two_signs (c ∷ rest)) [
        | some (kind, after) ↦ made (op kind) after
        | none ↦ elim (find_sign c) [
          | some kind ↦ made (op kind) rest
          | none ↦ made_or_refused (punctuation c >>= λ token. some (token, rest))
        ]
      ]

  module _ (u : Characters) (float : Text → Option Number) (decimal sign : ℕ) where
    -- `ch.isalpha() or ch == "_"`
    abbrev pub starts_name : ℕ → Bool
    starts_name c = u.is_alpha c || c == b'_'

    -- `text[j].isalnum() or text[j] in "_."`
    abbrev pub continues_name : ℕ → Bool
    continues_name c = u.is_alnum c || (c == b'_' || c == b'.')

    -- A reference, else a name, else FormulaSyntaxError.
    unfoldable pub scan_word : ℕ → Text → Step Number
    unfolding span
    scan_word c rest = elim (scan_reference u (c ∷ rest)) [
      | some (node, after) ↦ made (ref node) after
      | none ↦
          let (more, after) = span continues_name rest in
          if starts_name c then made (name (c ∷ more)) after else refused
    ]

    -- `tokens.append(Token("NUMBER", *_scan_number(text, i, decimal)))`
    unfoldable pub scan_float : Text → Step Number
    scan_float text =
        let (raw, after) = scan_number u decimal text in
        elim (float raw) [ some value ↦ made (number value) after | none ↦ not_a_number ]

    -- `ch.isdigit() or (ch == decimal and text[i + 1].isdigit())`
    unfoldable pub starts_number : ℕ → Text → Bool
    unfolding at_head
    starts_number c rest = u.digits.is_digit c || c == decimal && at_head u.digits.is_digit rest

    -- The body of the loop at the character `c`.
    unfoldable pub scan_round : ℕ → Text → Step Number
    unfolding starts_number
    scan_round c rest =
        if u.is_space c
        then skipped rest
        else if c == b'"'
        then made_or_refused (quoted b'"' rest >>= λ (inside, after). some (string inside, after))
        else if c == b'#'
        then made_or_refused
            (find_error errors (c ∷ rest) >>= λ (text, after). some (error_token text, after))
        else if starts_number c rest
        then scan_float (c ∷ rest)
        else if c == quote || (c == b'[' || c == b'$') || starts_name c
        then scan_word c rest
        else scan_sign sign c rest

    -- The `while` loop. A round takes a character at least, so the length of the text bounds them.
    unfoldable pub tokenize_loop :
        ℕ → Text → List (Token Number Node) → Outcome (List (Token Number Node))
    tokenize_loop fuel [] tokens = done tokens
    tokenize_loop zero (c ∷ rest) tokens = stuck
    tokenize_loop (suc fuel) (c ∷ rest) tokens = elim (scan_round c rest) [
      | skipped after ↦ tokenize_loop fuel after tokens
      | made token after ↦ tokenize_loop fuel after (tokens ++ token ∷ [])
      | refused ↦ syntax_error
      | not_a_number ↦ value_error
    ]

    unfoldable pub tokenize : Text → Outcome (List (Token Number Node))
    unfolding tokenize_loop
    tokenize text = tokenize_loop (length text) text []
