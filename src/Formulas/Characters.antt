-- ===== src/Formulas/Characters.antt =====
-- What the scanner of formulas/scan.py asks of one character, and the prefixes that its regular
-- expressions match. A text is what is left of the formula, `text[i:]`.
pub mod Lengths
use finance_context_builder.Base.{
  ℕ, zero, suc, ◌+◌, ◌*◌, Bool, true, false, ◌&&◌, ◌||◌, not, List, [], ◌∷◌, Option, none, some,
  if◌then◌else◌,
}
use finance_context_builder.Base.Eq.{◌==◌, nat_eq}
use finance_context_builder.Base.Text.{Text, Unicode}
use finance_context_builder.Excel.Addresses.{is_letter}

-- `str.isspace`, `str.isalpha` and `str.isalnum` of one character, beside the digits.
pub record Characters : Type 0 where
  pub digits : Unicode
  pub is_space : ℕ → Bool
  pub is_alpha : ℕ → Bool
  pub is_alnum : ℕ → Bool

-- What a test on one character says of `text[i]`, false past the end.
unfoldable pub at_head : (ℕ → Bool) → Text → Bool
at_head test [] = false
at_head test (c ∷ rest) = test c

-- The longest prefix that passes a test, and the rest.
unfoldable pub span : (ℕ → Bool) → Text → Text × Text
span test [] = ([], [])
span test (c ∷ rest) =
    let (more, tail) = span test rest in if test c then (c ∷ more, tail) else ([], c ∷ rest)

-- The same, of at most so many characters.
unfoldable pub span_upto : ℕ → (ℕ → Bool) → Text → Text × Text
span_upto zero test text = ([], text)
span_upto (suc n) test [] = ([], [])
span_upto (suc n) test (c ∷ rest) =
    let (more, tail) = span_upto n test rest in if test c then (c ∷ more, tail) else ([], c ∷ rest)

-- `(\$?)`: whether there is one, and the rest.
unfoldable pub dollar : Text → Bool × Text
dollar [] = (false, [])
dollar (c ∷ rest) = if c == b'$' then (true, rest) else (false, c ∷ rest)

-- `[A-Za-z]{1,3}`, empty where it does not match
unfoldable pub column_letters : Text → Text × Text
unfolding is_letter span_upto
column_letters text = span_upto 3 is_letter text

-- What `int` makes of the values of digits.
unfoldable pub number_of : ℕ → List ℕ → ℕ
number_of n [] = n
number_of n (d ∷ ds) = number_of (n * 10 + d) ds

module _ (u : Characters) where
  -- `\w`
  unfoldable pub is_word : ℕ → Bool
  is_word c = u.is_alnum c || c == b'_'

  -- `[\w.]`
  unfoldable pub is_word_or_dot : ℕ → Bool
  unfolding is_word
  is_word_or_dot c = is_word c || c == b'.'

  -- `[^\W\d]`
  unfoldable pub is_word_start : ℕ → Bool
  unfolding is_word
  is_word_start c = is_word c && elim (u.digits.decimal c) [ none ↦ true | some d ↦ false ]

  -- `[\w.(\[]`, which the lookahead after a cell refuses
  unfoldable pub goes_on : ℕ → Bool
  unfolding is_word_or_dot
  goes_on c = is_word_or_dot c || (c == b'(' || c == b'[')

  -- `\d+` by the values of its digits, and the rest; no value where it does not match
  unfoldable pub decimals : Text → List ℕ × Text
  decimals [] = ([], [])
  decimals (c ∷ rest) =
      let (more, tail) = decimals rest in
      elim (u.digits.decimal c) [ none ↦ ([], c ∷ rest) | some d ↦ (d ∷ more, tail) ]
