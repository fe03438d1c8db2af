-- ===== src/Formulas/Characters/Lengths.antt =====
-- How many characters a prefix takes off a text.
use finance_context_builder.Base.{
  ℕ, zero, suc, ◌+◌, ◌≤◌, ◌≡◌, refl, Bool, [], ◌∷◌, inl, inr, arith, length, Option-cases,
}
use finance_context_builder.Base.Text.{Text}
use finance_context_builder.Formulas.Characters.{
  Characters, span, span_upto, dollar, column_letters, decimals,
}

pub length-span :
    (test : ℕ → Bool) (text : Text)
    → length (span test text).0 + length (span test text).1 ≡ length text
unfolding span
length-span test [] = refl
length-span test (c ∷ rest) = ground (arith, length-span test rest)

pub length-span_upto :
    (n : ℕ) (test : ℕ → Bool) (text : Text)
    → length (span_upto n test text).0 + length (span_upto n test text).1 ≡ length text
unfolding span_upto
length-span_upto zero test text = omega arith
length-span_upto (suc n) test [] = refl
length-span_upto (suc n) test (c ∷ rest) = ground (arith, length-span_upto n test rest)

pub length-column_letters :
    (text : Text) → length (column_letters text).0 + length (column_letters text).1 ≡ length text
unfolding column_letters
length-column_letters text = length-span_upto 3 _ text

pub length-dollar : (text : Text) → length (dollar text).1 ≤ length text
unfolding dollar
length-dollar [] = omega arith
length-dollar (c ∷ rest) = ground arith

pub length-decimals :
    (u : Characters) (text : Text)
    → length (decimals u text).0 + length (decimals u text).1 ≡ length text
unfolding decimals
length-decimals u [] = refl
length-decimals u (c ∷ rest) = elim (Option-cases (u.digits.decimal c)) [
  | inl missing ↦ ground arith
  | inr (d, found) ↦ ground (arith, length-decimals u rest)
]
