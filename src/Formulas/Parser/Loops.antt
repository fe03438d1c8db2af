-- ===== src/Formulas/Parser/Loops.antt =====
-- The fuel of the loops of the parser, formulas/parse.py.
use finance_context_builder.Base.{
  ℕ, zero, suc, ◌≤◌, ◌<◌, Bool, ◌||◌, List, [], ◌∷◌, ◌++◌, length, arith, Bool-cases, inl, inr,
}
use finance_context_builder.Base.Eq.{◌==◌, nat_eq, list_eq}
use finance_context_builder.Base.Text.{Text}
use finance_context_builder.Formulas.Syntax.{
  Op, Ast, number, string, error_token, name, op, rbrace, sep, rowsep, plus, minus, percent_sign,
  bin,
}
use finance_context_builder.Formulas.Parser.{
  ok, fail, stuck, ◌>>=◌, Tokens, Parsed, Parser, left_loop, left_assoc, array_number,
  parse_array_item, array_loop, parse_array, parse_named_range, is_ragged, true_text, false_text,
}

module _ {Number Ref : Type 0} where
  -- The result is not `stuck`, and fewer than n tokens are left.
  abbrev pub Within : {A : Type 0} → ℕ → Parsed Number Ref A → Type 0
  Within n (ok (a, rest)) = length rest < n
  Within n fail = Unit
  Within n stuck = ⊥

  pub Within-mono :
      {A : Type 0} (m n : ℕ) (r : Parsed Number Ref A) → m ≤ n → Within m r → Within n r
  Within-mono m n (ok (a, rest)) h w = omega arith
  Within-mono m n fail h w = tt
  Within-mono m n stuck h w = w

  pub bind-Within :
      {A B : Type 0} (n m : ℕ) (r : Parsed Number Ref A)
      (next : A × Tokens Number Ref → Parsed Number Ref B)
      → Within n r
      → ((a : A) (rest : Tokens Number Ref) → length rest < n → Within m (next (a, rest)))
      → Within m (r >>= next)
  bind-Within n m (ok (a, rest)) next w k = k a rest w
  bind-Within n m fail next w k = tt
  bind-Within n m stuck next w k = absurd w

  -- On at most n tokens, the parser takes one at least and is not stuck.
  abbrev pub Takes : {A : Type 0} → ℕ → (Tokens Number Ref → Parsed Number Ref A) → Type 0
  Takes n p = (tokens : Tokens Number Ref) → length tokens ≤ n → Within (length tokens) (p tokens)

  module _ (negate : Number → Number) (upper lower : Text → Text) where
    left_loop-Within :
        (level : Op → Bool) (operand : Parser Number Ref) (m fuel : ℕ) (node : Ast Number Ref)
        (tokens : Tokens Number Ref)
        → Takes m operand
        → length tokens ≤ m
        → length tokens < fuel
        → Within (suc (length tokens)) (left_loop negate upper lower level operand fuel node tokens)
    unfolding left_loop
    left_loop-Within level operand m zero node tokens takes h enough = absurd (omega arith)
    left_loop-Within level operand m (suc fuel) node [] takes h enough = omega arith
    left_loop-Within level operand m (suc fuel) node (op kind ∷ tokens) takes h enough =
        elim (Bool-cases (level kind)) [
          | inl mine ↦
              rw (mine, Within)
                (bind-Within (length tokens) (suc (suc (length tokens))) (operand tokens) _
                  (takes tokens (omega arith))
                  (λ right rest shorter.
                    Within-mono (suc (length rest)) (suc (suc (length tokens))) _ (omega arith) (
                      left_loop-Within level operand m fuel (bin kind node right) rest takes
                        (omega arith) (omega arith))))
          | inr other ↦ rw (other, Within) (omega arith)
        ]
    left_loop-Within level operand m (suc fuel) node (token ∷ tokens) takes h enough = omega arith

    pub left_assoc-Takes :
        (level : Op → Bool) (operand : Parser Number Ref) (m : ℕ)
        → Takes m operand
        → Takes m (left_assoc negate upper lower level operand)
    unfolding left_assoc
    left_assoc-Takes level operand m takes tokens h =
        bind-Within (length tokens) (length tokens) (operand tokens) _ (takes tokens h)
          (λ node rest shorter. Within-mono (suc (length rest)) (length tokens) _ (omega arith) (
            left_loop-Within level operand m (suc (length rest)) node rest takes (omega arith)
              (omega arith)))

    array_number-shorter :
        (value : Number) (tokens : Tokens Number Ref)
        → length (array_number negate upper lower value tokens).1 ≤ length tokens
    unfolding array_number
    array_number-shorter value [] = omega arith
    array_number-shorter value (op percent_sign ∷ tokens) = omega arith
    array_number-shorter value (token ∷ tokens) = omega arith

    parse_array_item-Takes : (m : ℕ) → Takes m (parse_array_item negate upper lower)
    unfolding parse_array_item
    parse_array_item-Takes m (op plus ∷ number value ∷ tokens) h =
        omega (arith, array_number-shorter value tokens)
    parse_array_item-Takes m (op minus ∷ number value ∷ tokens) h =
        omega (arith, array_number-shorter (negate value) tokens)
    parse_array_item-Takes m (number value ∷ tokens) h =
        omega (arith, array_number-shorter value tokens)
    parse_array_item-Takes m (string value ∷ tokens) h = omega arith
    parse_array_item-Takes m (error_token value ∷ tokens) h = omega arith
    parse_array_item-Takes m (name value ∷ tokens) h =
        elim (Bool-cases (upper value == true_text || upper value == false_text)) [
          | inl constant ↦ rw (constant, Within) (omega arith)
          | inr other ↦ rw (other, Within) tt
        ]
    parse_array_item-Takes m tokens h = tt

    array_loop-Within :
        (fuel : ℕ) (rows : List (List (Ast Number Ref))) (last : List (Ast Number Ref))
        (tokens : Tokens Number Ref)
        → length tokens < fuel
        → Within (suc (length tokens)) (array_loop negate upper lower fuel rows last tokens)
    unfolding array_loop
    array_loop-Within zero rows last tokens enough = absurd (omega arith)
    array_loop-Within (suc fuel) rows last (sep ∷ tokens) enough =
        bind-Within (length tokens) (suc (suc (length tokens)))
          (parse_array_item negate upper lower tokens) _
          (parse_array_item-Takes (length tokens) tokens (omega arith))
          (λ item rest shorter.
            Within-mono (suc (length rest)) (suc (suc (length tokens))) _ (omega arith)
              (array_loop-Within fuel rows (last ++ item ∷ []) rest (omega arith)))
    array_loop-Within (suc fuel) rows last (rowsep ∷ tokens) enough =
        bind-Within (length tokens) (suc (suc (length tokens)))
          (parse_array_item negate upper lower tokens) _
          (parse_array_item-Takes (length tokens) tokens (omega arith))
          (λ item rest shorter.
            Within-mono (suc (length rest)) (suc (suc (length tokens))) _ (omega arith)
              (array_loop-Within fuel (rows ++ last ∷ []) (item ∷ []) rest (omega arith)))
    array_loop-Within (suc fuel) rows last (rbrace ∷ tokens) enough =
        elim (Bool-cases (is_ragged negate upper lower (rows ++ last ∷ []))) [
          | inl bad ↦ rw (bad, Within) tt
          | inr good ↦ rw (good, Within) (omega arith)
        ]
    array_loop-Within (suc fuel) rows last tokens enough = tt

    pub parse_array-Takes : (m : ℕ) → Takes m (parse_array negate upper lower)
    unfolding parse_array
    parse_array-Takes m tokens h =
        bind-Within (length tokens) (length tokens) (parse_array_item negate upper lower tokens) _
          (parse_array_item-Takes (length tokens) tokens (omega arith))
          (λ item rest shorter.
            Within-mono (suc (length rest)) (length tokens) _ (omega arith)
              (array_loop-Within (suc (length rest)) [] (item ∷ []) rest (omega arith)))

    pub parse_named_range-Takes :
        (m : ℕ) (start : Text) → Takes m (parse_named_range negate upper lower start)
    unfolding parse_named_range
    parse_named_range-Takes m start (name end ∷ tokens) h = omega arith
    parse_named_range-Takes m start tokens h = tt
