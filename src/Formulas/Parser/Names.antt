-- ===== src/Formulas/Parser/Names.antt =====
-- The name of a function without its prefixes.
use finance_context_builder.Base.{
  ℕ, zero, suc, ◌≤◌, ◌≡◌, refl, ap, false, [], ◌∷◌, length, drop, arith, Bool-cases, inl, inr, List,
}
use finance_context_builder.Base.Text.{Text}
use finance_context_builder.Formulas.Parser.{has_prefix, canonical_loop, canonical_func_name}

drop-shorter :
    {A : Type 0} (n : ℕ) (x : A) (xs : List A) → length (drop (suc n) (x ∷ xs)) ≤ length xs
drop-shorter zero x xs = omega arith
drop-shorter (suc n) x [] = omega arith
drop-shorter (suc n) x (y ∷ xs) = omega (arith, drop-shorter n y xs)

module _ (lower : Text → Text) (lower_empty : lower [] ≡ []) where
  canonical_loop-empty : (fuel : ℕ) → canonical_loop lower fuel [] ≡ []
  unfolding canonical_loop
  canonical_loop-empty zero = refl
  canonical_loop-empty (suc fuel) = rw (canonical_loop, lower_empty) refl

  canonical_loop-done :
      (fuel : ℕ) (text : Text)
      → length text ≤ fuel
      → has_prefix (lower (canonical_loop lower fuel text)) ≡ false
  unfolding canonical_loop
  canonical_loop-done zero [] h = ap has_prefix lower_empty
  canonical_loop-done zero (c ∷ text) h = absurd (omega arith)
  canonical_loop-done (suc fuel) [] h =
      let none_left : has_prefix (lower []) ≡ false = ap has_prefix lower_empty in
      ground (arith, canonical_loop-empty fuel)
  canonical_loop-done (suc fuel) (c ∷ text) h = elim (Bool-cases (has_prefix (lower (c ∷ text)))) [
    | inl more ↦
        ground (
          arith,
          canonical_loop-done fuel (drop 6 (c ∷ text)) (omega (arith, drop-shorter 5 c text)),
        )
    | inr done ↦ ground arith
  ]

  -- Where the lower case of the empty text is empty, the lower case of a canonical name starts with
  -- neither prefix.
  canonical_func_name-done :
      (text : Text) → has_prefix (lower (canonical_func_name lower text)) ≡ false
  unfolding canonical_func_name
  canonical_func_name-done text = canonical_loop-done (length text) text (omega arith)
