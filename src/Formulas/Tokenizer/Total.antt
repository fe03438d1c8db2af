-- ===== src/Formulas/Tokenizer/Total.antt =====
-- The rounds of the scanner's loop, formulas/scan.py.
use finance_context_builder.Base.{
  ℕ, zero, suc, ◌+◌, ◌≤◌, ◌<◌, ◌≡◌, ◌≢◌, ◌⊎◌, refl, true, List, [], ◌∷◌, ◌++◌, Option, none, some,
  inl, inr, arith, length, ◌>>=◌, Option-cases,
}
use finance_context_builder.Base.Eq.{nat_eq}
use finance_context_builder.Base.Text.{Text}
use finance_context_builder.Formulas.Syntax.{Token, string, error_token}
use finance_context_builder.Formulas.Characters.{Characters}
use finance_context_builder.Formulas.Characters.Lengths.{length-span}
use finance_context_builder.Formulas.References.{Node, quoted}
use finance_context_builder.Formulas.References.Lengths.{Leaves, Leaves-bind, longer, quoted-Leaves}
use finance_context_builder.Formulas.Scan.{scan_reference}
use finance_context_builder.Formulas.Scan.Lengths.{scan_reference-Leaves, length-scan_number}
use finance_context_builder.Formulas.Tokenizer.{
  Step, skipped, made, refused, not_a_number, stuck, errors, after_prefix, find_error,
  find_two_signs, made_or_refused, scan_sign, continues_name, scan_word, scan_float, starts_number,
  scan_round, tokenize_loop, tokenize,
}

-- What a round leaves has fewer characters than the bound.
abbrev Progress : {Number : Type 0} → ℕ → Step Number → Type 0
Progress n (skipped after) = length after < n
Progress n (made token after) = length after < n
Progress n refused = Unit
Progress n not_a_number = Unit

length-after_prefix :
    (prefix text after : Text)
    → after_prefix prefix text ≡ some after
    → length prefix + length after ≡ length text
unfolding after_prefix
length-after_prefix [] text after e = ground arith
length-after_prefix (p ∷ prefix) [] after e = ground arith
length-after_prefix (p ∷ prefix) (c ∷ text) after e =
    ground (arith, length-after_prefix prefix text after)

-- No error text is empty.
abbrev AreFilled : List Text → Type 0
AreFilled [] = Unit
AreFilled (e ∷ es) = (0 < length e) × AreFilled es

find_error-Leaves :
    (es : List Text) (text : Text) → AreFilled es → Leaves (length text) (find_error es text)
unfolding find_error
find_error-Leaves [] text h = tt
find_error-Leaves (e ∷ es) text h = elim (Option-cases (after_prefix e text)) [
  | inl other ↦ rw (other, Leaves) (find_error-Leaves es text h.1)
  | inr (after, found) ↦
      rw (found, Leaves) (omega (arith, h.0, length-after_prefix e text after found))
]

find_two_signs-Leaves : (text : Text) → Leaves (length text) (find_two_signs text)
unfolding find_two_signs
find_two_signs-Leaves [] = tt
find_two_signs-Leaves (c ∷ []) = tt
find_two_signs-Leaves (c ∷ d ∷ rest) = ground arith

scan_sign-Progress :
    (Number : Type 0) (sign c : ℕ) (rest : Text)
    → Progress {Number = Number} (suc (length rest)) (scan_sign sign c rest)
unfolding scan_sign
scan_sign-Progress Number sign c rest = ground (arith, find_two_signs-Leaves (c ∷ rest))

-- A round by its constructor, with what it leaves.
Step-cases :
    {Number : Type 0} {n : ℕ} (r : Step Number)
    → Progress n r
    → ((after : Text) × (r ≡ skipped after) × (length after < n))
      ⊎ ((token : Token Number Node) × (after : Text) × (r ≡ made token after) × (length after < n))
      ⊎ (r ≡ refused)
      ⊎ (r ≡ not_a_number)
Step-cases (skipped after) p = inl (after, refl, p)
Step-cases (made token after) p = inr (inl (token, after, refl, p))
Step-cases refused p = inr (inr (inl refl))
Step-cases not_a_number p = inr (inr (inr refl))

module _ {Number : Type 0} where
  made-Progress :
      (n : ℕ) (s : Option (Token Number Node × Text)) → Leaves n s → Progress n (made_or_refused s)
  made-Progress n none h = tt
  made-Progress n (some (token, rest)) h = h

  module _ (u : Characters) (float : Text → Option Number) (decimal sign : ℕ) where
    scan_word-Progress :
        (c : ℕ) (rest : Text) → Progress (suc (length rest)) (scan_word u float decimal sign c rest)
    unfolding scan_word
    scan_word-Progress c rest = elim (Option-cases (scan_reference u (c ∷ rest))) [
      | inr ((node, after), found) ↦
          rw (found, Progress)
            (longer _ _ (scan_reference u (c ∷ rest)) (omega arith) found
              (scan_reference-Leaves u (c ∷ rest)))
      | inl missing ↦
          rw (missing, Progress)
            (ground (arith, length-span (continues_name u float decimal sign) rest))
    ]

    scan_float-Progress :
        (c : ℕ) (rest : Text)
        → starts_number u float decimal sign c rest ≡ true
        → Progress (suc (length rest)) (scan_float u float decimal sign (c ∷ rest))
    unfolding scan_float starts_number
    scan_float-Progress c rest h = ground (arith, length-scan_number u decimal c rest)

    string-Progress :
        (rest : Text)
        → Progress {Number = Number}
            (suc (length rest))
            (made_or_refused (quoted b'"' rest >>= λ (inside, after). some (string inside, after)))
    string-Progress rest =
        made-Progress _ (quoted b'"' rest >>= λ (inside, after). some (string inside, after)) (
          Leaves-bind _ (quoted b'"' rest) _ λ inside after e.
            longer (length rest) _ (quoted b'"' rest) (omega arith) e (quoted-Leaves b'"' rest))

    error-Progress :
        (c : ℕ) (rest : Text)
        → Progress {Number = Number} (suc (length rest)) (
            made_or_refused
              (find_error errors (c ∷ rest) >>= λ (text, after). some (error_token text, after)))
    error-Progress c rest =
        made-Progress _
          (find_error errors (c ∷ rest) >>= λ (text, after). some (error_token text, after))
          (Leaves-bind _ (find_error errors (c ∷ rest)) _ λ text after e.
            longer (suc (length rest)) _ (find_error errors (c ∷ rest)) (omega arith) e
              (find_error-Leaves errors (c ∷ rest) (omega arith)))

    scan_round-Progress :
        (c : ℕ) (rest : Text)
        → Progress (suc (length rest)) (scan_round u float decimal sign c rest)
    unfolding scan_round
    scan_round-Progress c rest = ground (
      arith,
      string-Progress rest,
      error-Progress c rest,
      scan_float-Progress c rest,
      scan_word-Progress c rest,
      scan_sign-Progress Number sign c rest,
    )

    tokenize_loop-ne-stuck :
        (fuel : ℕ) (text : Text) (tokens : List (Token Number Node))
        → length text ≤ fuel
        → tokenize_loop u float decimal sign fuel text tokens ≢ stuck
    unfolding tokenize_loop
    tokenize_loop-ne-stuck zero [] tokens h = cc
    tokenize_loop-ne-stuck (suc fuel) [] tokens h = cc
    tokenize_loop-ne-stuck zero (c ∷ rest) tokens h = absurd (omega arith)
    tokenize_loop-ne-stuck (suc fuel) (c ∷ rest) tokens h =
        elim (Step-cases (scan_round u float decimal sign c rest) (scan_round-Progress c rest)) [
          | inl (after, e, p) ↦
              rw (e, tokenize_loop) (tokenize_loop-ne-stuck fuel after tokens (omega arith))
          | inr (inl (token, after, e, p)) ↦
              rw (e, tokenize_loop)
                (tokenize_loop-ne-stuck fuel after (tokens ++ token ∷ []) (omega arith))
          | inr (inr (inl e)) ↦ rw (e, tokenize_loop) (cc)
          | inr (inr (inr e)) ↦ rw (e, tokenize_loop) (cc)
        ]

    -- On every text the scanner returns tokens, or raises FormulaSyntaxError or ValueError.
    pub tokenize_total : (text : Text) → tokenize u float decimal sign text ≢ stuck
    unfolding tokenize
    tokenize_total text = tokenize_loop-ne-stuck (length text) text [] (omega arith)
