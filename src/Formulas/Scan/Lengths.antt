-- ===== src/Formulas/Scan/Lengths.antt =====
-- How many characters a reference and a number take off a text.
use finance_context_builder.Base.{
  ℕ, ◌+◌, ◌≤◌, ◌<◌, ◌≡◌, refl, true, ◌&&◌, ◌||◌, [], ◌∷◌, none, some, inl, inr, arith, length,
  Bool-cases, Option-cases,
}
use finance_context_builder.Base.Eq.{◌==◌, nat_eq}
use finance_context_builder.Base.Text.{Text}
use finance_context_builder.Formulas.Characters.{Characters, at_head, is_word_or_dot, span}
use finance_context_builder.Formulas.Characters.Lengths.{length-span}
use finance_context_builder.Formulas.References.{
  Scan, Body, Node, quoted, bracketed, scan_deleted_ref, skip_bang, tail_of, quote, unquoted_sheet,
  scan_range_body, refer, on_sheet,
}
use finance_context_builder.Formulas.References.Lengths.{
  Leaves, Leaves-mono, Leaves-bind, longer, length-tail_of, length-skip_bang,
  scan_deleted_ref-Leaves, bracketed-Leaves, quoted-Leaves, unquoted_sheet-Leaves,
  scan_range_body-Leaves,
}
use finance_context_builder.Formulas.Scan.{
  place_or_deleted, quoted_place, scan_quoted_ref, bracket_sheet, scan_bracket_ref, scan_reference,
  exponent_sign, fraction, exponent, scan_number,
}

place_or_deleted-Leaves :
    (n : ℕ) (s : Scan Body) (at : Body → Node) (text : Text)
    → length text ≤ n
    → Leaves (length text) s
    → Leaves n (place_or_deleted s at text)
place_or_deleted-Leaves n none at text le h =
    Leaves-mono (length text) n (scan_deleted_ref text) le (scan_deleted_ref-Leaves text)
place_or_deleted-Leaves n (some (body, rest)) at text le h = omega arith

module _ (u : Characters) where
  scan_quoted_ref-Leaves : (text : Text) → Leaves (length text) (scan_quoted_ref u text)
  unfolding scan_quoted_ref
  scan_quoted_ref-Leaves text = Leaves-bind (length text) (quoted quote text) _ λ inside after e.
      let shorter =
        longer (length text) (length text) (quoted quote text) (omega arith) e
          (quoted-Leaves quote text) in
      let body_text = (skip_bang after).1 in
      elim (Bool-cases (skip_bang after).0) [
        | inl bang ↦
            rw (bang, Leaves)
              (place_or_deleted-Leaves (length text) (scan_range_body u body_text)
                (refer (quoted_place inside)) body_text (omega (arith, length-skip_bang after))
                (scan_range_body-Leaves u body_text))
        | inr plain ↦ rw (plain, Leaves) tt
      ]

  length-bracket_sheet : (text : Text) → length (bracket_sheet u text).1 ≤ length text
  unfolding bracket_sheet
  length-bracket_sheet text = ground (arith, length-span (is_word_or_dot u) text)

  scan_bracket_ref-Leaves : (text : Text) → Leaves (length text) (scan_bracket_ref u text)
  unfolding scan_bracket_ref
  scan_bracket_ref-Leaves text = Leaves-bind (length text) (bracketed text) _ λ book after e.
      let shorter =
        longer (length text) (length text) (bracketed text) (omega arith) e
          (bracketed-Leaves text) in
      let after_sheet = (bracket_sheet u after).1 in
      let body_text = (skip_bang after_sheet).1 in
      let within = length-skip_bang after_sheet in
      let sheet_within = length-bracket_sheet after in
      elim (Option-cases (scan_range_body u body_text)) [
        | inr ((body, rest), found) ↦
            rw (found, Leaves)
              (longer (length body_text) (length text) (scan_range_body u body_text) (omega arith)
                found (scan_range_body-Leaves u body_text))
        | inl missing ↦ elim (Bool-cases (skip_bang after_sheet).0) [
          | inl bang ↦
              rw (missing, bang, Leaves)
                (Leaves-mono (length body_text) (length text) (scan_deleted_ref body_text)
                  (omega arith) (scan_deleted_ref-Leaves body_text))
          | inr plain ↦ rw (missing, plain, Leaves) tt
        ]
      ]

  -- A reference takes a character at least.
  pub scan_reference-Leaves : (text : Text) → Leaves (length text) (scan_reference u text)
  unfolding scan_reference
  scan_reference-Leaves text = elim (Bool-cases (at_head (λ c. c == quote) text)) [
    | inl in_quotes ↦
        rw (in_quotes, Leaves)
          (Leaves-mono _ (length text) (scan_quoted_ref u (tail_of text)) (length-tail_of text)
            (scan_quoted_ref-Leaves (tail_of text)))
    | inr no_quote ↦ elim (Bool-cases (at_head (λ c. c == b'[') text)) [
      | inl in_bracket ↦
          rw (no_quote, in_bracket, Leaves)
            (Leaves-mono _ (length text) (scan_bracket_ref u (tail_of text)) (length-tail_of text)
              (scan_bracket_ref-Leaves (tail_of text)))
      | inr plain ↦ elim (Option-cases (unquoted_sheet u text)) [
        | inr ((found, body_text), e) ↦
            rw (no_quote, plain, e, Leaves)
              (place_or_deleted-Leaves (length text) (scan_range_body u body_text) (on_sheet found)
                body_text
                (omega (
                  arith,
                  longer (length text) (length text) (unquoted_sheet u text) (omega arith) e
                      (unquoted_sheet-Leaves u text),
                ))
                (scan_range_body-Leaves u body_text))
        | inl missing ↦
            rw (no_quote, plain, missing, Leaves)
              (Leaves-bind (length text) (scan_range_body u text) _ λ body rest found.
                longer (length text) (length text) (scan_range_body u text) (omega arith) found
                  (scan_range_body-Leaves u text))
      ]
    ]
  ]

  length-fraction :
      (mark : ℕ) (text : Text)
      → length (fraction u mark text).0 + length (fraction u mark text).1 ≡ length text
  unfolding fraction
  length-fraction mark [] = refl
  length-fraction mark (c ∷ rest) = ground (arith, length-span u.digits.is_digit rest)

  length-exponent : (text : Text) → length (exponent u text).1 ≤ length text
  unfolding exponent exponent_sign
  length-exponent [] = omega arith
  length-exponent (c ∷ rest) =
      ground
        (arith, length-exponent_sign rest, length-span u.digits.is_digit (exponent_sign rest).1)
    where
      length-exponent_sign : (text : Text) → length (exponent_sign text).1 ≤ length text
      length-exponent_sign [] = omega arith
      length-exponent_sign (c ∷ rest) = ground arith

  length-after_fraction :
      (decimal : ℕ) (text : Text)
      → length (scan_number u decimal text).1
        ≤ length (fraction u decimal (span u.digits.is_digit text).1).1
  unfolding scan_number
  length-after_fraction decimal text =
      let after_whole = (span u.digits.is_digit text).1 in
      let (part, after_part) = fraction u decimal after_whole in
      ground (
        arith,
        length-fraction b'.' after_part,
        length-exponent after_part,
        length-exponent (fraction u b'.' after_part).1,
      )

  length-fraction-span :
      (decimal c : ℕ) (rest : Text)
      → (u.digits.is_digit c || c == decimal && at_head u.digits.is_digit rest) ≡ true
      → length (fraction u decimal (span u.digits.is_digit (c ∷ rest)).1).1 < length (c ∷ rest)
  unfolding span fraction
  length-fraction-span decimal c rest h = elim (Bool-cases (u.digits.is_digit c)) [
    | inl digit ↦
        rw (digit, span)
          (omega (
            arith,
            length-span u.digits.is_digit rest,
            length-fraction decimal (span u.digits.is_digit rest).1,
          ))
    | inr sign ↦ ground (arith, length-span u.digits.is_digit rest)
  ]

  -- A number takes the digits it begins with, or the decimal sign before a digit.
  pub length-scan_number :
      (decimal c : ℕ) (rest : Text)
      → (u.digits.is_digit c || c == decimal && at_head u.digits.is_digit rest) ≡ true
      → length (scan_number u decimal (c ∷ rest)).1 < length (c ∷ rest)
  length-scan_number decimal c rest h =
      omega (arith, length-after_fraction decimal (c ∷ rest), length-fraction-span decimal c rest h)
