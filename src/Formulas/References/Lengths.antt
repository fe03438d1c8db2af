-- ===== src/Formulas/References/Lengths.antt =====
-- How many characters a reference takes off a text.
use finance_context_builder.Base.{
  ℕ, ◌≤◌, ◌<◌, ◌≡◌, refl, true, ◌&&◌, List, [], ◌∷◌, none, some, inl, inr, arith, length, ◌>>=◌,
  Bool-cases, Option-cases,
}
use finance_context_builder.Base.Eq.{◌==◌, nat_eq}
use finance_context_builder.Base.Text.{Text}
use finance_context_builder.Excel.Columns.{in_grid}
use finance_context_builder.Formulas.Characters.{
  Characters, at_head, is_word_or_dot, span, dollar, column_letters, decimals,
}
use finance_context_builder.Formulas.Characters.Lengths.{
  length-span, length-column_letters, length-dollar, length-decimals,
}
use finance_context_builder.Formulas.References.{
  Scan, rows, quoted, bracketed, scan_deleted_ref, skip_bang, nonempty, tail_of, quote, cell_body,
  grid_cell, column_pair, row_pair, unquoted_sheet, skip_sheet_qualifier, second_cell, scan_pairs,
  scan_range_body,
}

-- What a scan leaves has fewer characters than the bound.
abbrev pub Leaves : {A : Type 0} → ℕ → Scan A → Type 0
Leaves n none = Unit
Leaves n (some (a, rest)) = length rest < n

pub Leaves-mono : {A : Type 0} (n m : ℕ) (s : Scan A) → n ≤ m → Leaves n s → Leaves m s
Leaves-mono n m none le h = tt
Leaves-mono n m (some (a, rest)) le h = omega arith

pub Leaves-bind :
    {A B : Type 0} (n : ℕ) (s : Scan A) (f : A × Text → Scan B)
    → ((a : A) (rest : Text) → s ≡ some (a, rest) → Leaves n (f (a, rest)))
    → Leaves n (s >>= f)
Leaves-bind n none f k = tt
Leaves-bind n (some (a, rest)) f k = k a rest refl

pub longer :
    {A : Type 0} (n m : ℕ) (s : Scan A) {a : A} {rest : Text}
    → n ≤ m
    → s ≡ some (a, rest)
    → Leaves n s
    → length rest < m
longer n m none le e h = ground arith
longer n m (some (a, rest)) le e h = ground arith

pub length-tail_of : (text : Text) → length (tail_of text) ≤ length text
unfolding tail_of
length-tail_of [] = omega arith
length-tail_of (c ∷ rest) = omega arith

pub length-skip_bang : (text : Text) → length (skip_bang text).1 ≤ length text
unfolding skip_bang
length-skip_bang [] = omega arith
length-skip_bang (c ∷ rest) = ground arith

pub length-of_skipped_bang :
    (text : Text) → (skip_bang text).0 ≡ true → length (skip_bang text).1 < length text
unfolding skip_bang
length-of_skipped_bang [] h = ground arith
length-of_skipped_bang (c ∷ rest) h = ground arith

pub nonempty-length : {A : Type 0} (xs : List A) → nonempty xs ≡ true → 0 < length xs
nonempty-length [] h = ground arith
nonempty-length (x ∷ xs) h = omega arith

pub scan_deleted_ref-Leaves : (text : Text) → Leaves (length text) (scan_deleted_ref text)
unfolding scan_deleted_ref
scan_deleted_ref-Leaves [] = tt
scan_deleted_ref-Leaves (a ∷ []) = tt
scan_deleted_ref-Leaves (a ∷ b ∷ []) = tt
scan_deleted_ref-Leaves (a ∷ b ∷ c ∷ []) = tt
scan_deleted_ref-Leaves (a ∷ b ∷ c ∷ d ∷ []) = tt
scan_deleted_ref-Leaves (a ∷ b ∷ c ∷ d ∷ e ∷ rest) = ground arith

pub bracketed-Leaves : (text : Text) → Leaves (length text) (bracketed text)
unfolding bracketed
bracketed-Leaves [] = tt
bracketed-Leaves (c ∷ rest) = ground (arith, bracketed-Leaves rest)

pub quoted-Leaves : (q : ℕ) (text : Text) → Leaves (length text) (quoted q text)
unfolding quoted
quoted-Leaves q [] = tt
quoted-Leaves q (c ∷ []) = ground arith
quoted-Leaves q (c ∷ d ∷ rest) = elim (Bool-cases (c == q)) [
  | inl closing ↦ elim (Bool-cases (d == q)) [
    | inl doubled ↦
        rw (closing, doubled, quoted, Leaves)
          (Leaves-bind _ (quoted q rest) _ λ text tail e.
            longer (length rest) (length (c ∷ d ∷ rest)) (quoted q rest) (omega arith) e
              (quoted-Leaves q rest))
    | inr last ↦ rw (closing, last, quoted, Leaves) (omega arith)
  ]
  | inr inner ↦
      rw (inner, quoted, Leaves)
        (Leaves-bind _ (quoted q (d ∷ rest)) _ λ text tail e.
          longer (length (d ∷ rest)) (length (c ∷ d ∷ rest)) (quoted q (d ∷ rest)) (omega arith) e
            (quoted-Leaves q (d ∷ rest)))
]

module _ (u : Characters) where
  pub cell_body-Leaves : (text : Text) → Leaves (length text) (cell_body u text)
  unfolding cell_body
  cell_body-Leaves text =
      let after_sign = (dollar text).1 in
      let after_letters = (column_letters after_sign).1 in
      let after_second = (dollar after_letters).1 in
      ground (
        arith,
        length-dollar text,
        length-column_letters after_sign,
        length-dollar after_letters,
        length-decimals u after_second,
        nonempty-length (column_letters after_sign).0,
      )

  pub grid_cell-Leaves : (text : Text) → Leaves (length text) (grid_cell u text)
  unfolding grid_cell
  grid_cell-Leaves text = ground (arith, cell_body-Leaves text)

  pub column_pair-Leaves : (text : Text) → Leaves (length text) (column_pair u text)
  unfolding column_pair
  column_pair-Leaves text =
      let after_sign = (dollar text).1 in
      let after_first = (column_letters after_sign).1 in
      let after_colon = tail_of after_first in
      let after_second = (dollar after_colon).1 in
      ground (
        arith,
        length-dollar text,
        length-column_letters after_sign,
        length-tail_of after_first,
        length-dollar after_colon,
        length-column_letters after_second,
        nonempty-length (column_letters after_sign).0,
      )

  pub row_pair-Leaves : (text : Text) → Leaves (length text) (row_pair u text)
  unfolding row_pair
  row_pair-Leaves text =
      let after_sign = (dollar text).1 in
      let after_first = (decimals u after_sign).1 in
      let after_colon = tail_of after_first in
      let after_second = (dollar after_colon).1 in
      ground (
        arith,
        length-dollar text,
        length-decimals u after_sign,
        length-tail_of after_first,
        length-dollar after_colon,
        length-decimals u after_second,
        nonempty-length (decimals u after_sign).0,
      )

  pub unquoted_sheet-Leaves : (text : Text) → Leaves (length text) (unquoted_sheet u text)
  unfolding unquoted_sheet
  unquoted_sheet-Leaves text =
      let after_name = (span (is_word_or_dot u) text).1 in
      ground (arith, length-span (is_word_or_dot u) text, length-of_skipped_bang after_name)

  pub length-skip_sheet_qualifier :
      (text : Text) → length (skip_sheet_qualifier u text) ≤ length text
  unfolding skip_sheet_qualifier
  length-skip_sheet_qualifier text = elim (Bool-cases (at_head (λ c. c == quote) text)) [
    | inl begins ↦ elim (Option-cases (quoted quote (tail_of text))) [
      | inl open_end ↦ rw (begins, open_end) (omega arith)
      | inr ((inside, after_quote), e) ↦
          let shorter =
            longer (length (tail_of text)) (length (tail_of text)) (quoted quote (tail_of text))
              (omega arith) e (quoted-Leaves quote (tail_of text)) in
          rw (begins, e) (ground (arith, length-tail_of text, length-skip_bang after_quote))
    ]
    | inr plain ↦ elim (Option-cases (unquoted_sheet u text)) [
      | inl no_sheet ↦ rw (plain, no_sheet) (omega arith)
      | inr ((found, rest), e) ↦
          let shorter =
            longer (length text) (length text) (unquoted_sheet u text) (omega arith) e
              (unquoted_sheet-Leaves text) in
          rw (plain, e) (omega arith)
    ]
  ]

  pub second_cell-Leaves : (text : Text) → Leaves (length text) (second_cell u text)
  unfolding second_cell
  second_cell-Leaves text =
      let after_colon = tail_of text in
      let cell_text = skip_sheet_qualifier u after_colon in
      elim (Bool-cases (at_head (λ c. c == b':') text)) [
        | inl goes ↦ rw goes (
            Leaves-mono (length cell_text) (length text) (grid_cell u cell_text)
              (omega (arith, length-tail_of text, length-skip_sheet_qualifier after_colon))
              (grid_cell-Leaves cell_text))
        | inr stops ↦ rw stops tt
      ]

  row_body-Leaves :
      (text : Text)
      → Leaves
          (length text)
          (row_pair u text >>= λ ((first, last), rest). some (rows first last, rest))
  row_body-Leaves text = Leaves-bind (length text) (row_pair u text) _ λ (first, last) rest e.
      longer (length text) (length text) (row_pair u text) (omega arith) e (row_pair-Leaves text)

  pub scan_pairs-Leaves : (text : Text) → Leaves (length text) (scan_pairs u text)
  unfolding scan_pairs
  scan_pairs-Leaves text = elim (Option-cases (column_pair u text)) [
    | inl no_columns ↦ rw (no_columns, Leaves) (row_body-Leaves text)
    | inr (((first, last), rest), e) ↦
        let shorter =
          longer (length text) (length text) (column_pair u text) (omega arith) e
            (column_pair-Leaves text) in
        elim (Bool-cases (in_grid first.index 1 && in_grid last.index 1)) [
          | inl inside ↦ rw (e, inside, Leaves) (omega arith)
          | inr outside ↦ rw (e, outside, Leaves) (row_body-Leaves text)
        ]
  ]

  pub scan_range_body-Leaves : (text : Text) → Leaves (length text) (scan_range_body u text)
  unfolding scan_range_body
  scan_range_body-Leaves text = elim (Option-cases (grid_cell u text)) [
    | inl no_cell ↦ rw (no_cell, Leaves) (scan_pairs-Leaves text)
    | inr ((start, after), e) ↦
        let shorter =
          longer (length text) (length text) (grid_cell u text) (omega arith) e
            (grid_cell-Leaves text) in
        elim (Option-cases (second_cell u after)) [
          | inl alone ↦ rw (e, alone, Leaves) (omega arith)
          | inr ((end, rest), second) ↦
              rw (e, second, Leaves)
                (omega (
                  arith,
                  longer (length after) (length after) (second_cell u after) (omega arith) second
                      (second_cell-Leaves after),
                ))
        ]
  ]
