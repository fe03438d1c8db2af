-- ===== src/Formulas/Template/Ambiguous.antt =====
-- Trees that `_render` of formulas/render.py writes alike.
use finance_context_builder.Base.{ℕ, ◌≤◌, ◌≡◌, true, false, arith, append_assoc}
use finance_context_builder.Base.Text.{Text}
use finance_context_builder.Formulas.Syntax.{Ast, bin, percent, plus, power}
use finance_context_builder.Formulas.References.{Node}
use finance_context_builder.Formulas.Template.{Floats, render, prec, paren}

paren-plus :
    {Number : Type 0} (b : Ast Number Node) (text : Text)
    → 3 ≤ prec b
    → paren b text 3 true plus ≡ text
unfolding paren
paren-plus b text h = ground arith

paren-power :
    {Number : Type 0} (b : Ast Number Node) (text : Text)
    → paren b text 5 true power ≡ paren b text 5 false power
unfolding paren
paren-power b text = ground arith

module _ {Number : Type 0} (f : Floats Number) (sep decimal ocol orow : ℕ) where
  -- A percentage of a sum has the template of a sum whose last operand is a percentage, and a power
  -- to a power that of a power of a power.
  pub render_ambiguous :
      (a b c : Ast Number Node)
      → 3 ≤ prec b
      → (render f sep decimal ocol orow (percent (bin plus a b))
          ≡ render f sep decimal ocol orow (bin plus a (percent b)))
        × (render f sep decimal ocol orow (bin power a (bin power b c))
            ≡ render f sep decimal ocol orow (bin power (bin power a b) c))
  unfolding render
  render_ambiguous a b c h = (
    simp (paren-plus b (render f sep decimal ocol orow b) h, append_assoc),
    simp (paren-power b, append_assoc),
  )
