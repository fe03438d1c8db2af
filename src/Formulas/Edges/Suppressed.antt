-- ===== src/Formulas/Edges/Suppressed.antt =====
-- The edges of the arguments of a dynamic function.
use finance_context_builder.Base.{
  ◌≡◌, ◌⊎◌, inl, inr, refl, Bool, true, false, [], ◌∷◌, none, if◌then◌else◌, arith,
}
use finance_context_builder.Base.Eq.{nat_eq, list_eq}
use finance_context_builder.Base.Text.{Text}
use finance_context_builder.Formulas.Syntax.{
  Ast, Asts, num, str, err, named, cell, bin, unary, percent, func, array, named_range, no_more,
  and_then,
}
use finance_context_builder.Formulas.References.{Node}
use finance_context_builder.Formulas.Parser.{canonical_func_name}
use finance_context_builder.Formulas.Edges.{
  dynamic, is_dynamic, dynamic_edge, collect_edges, collect_all,
}

-- INDIRECT and OFFSET
abbrev pub indirect_text : Text
indirect_text = b'I' ∷ b'N' ∷ b'D' ∷ b'I' ∷ b'R' ∷ b'E' ∷ b'C' ∷ b'T' ∷ []

abbrev pub offset_text : Text
offset_text = b'O' ∷ b'F' ∷ b'F' ∷ b'S' ∷ b'E' ∷ b'T' ∷ []

is_dynamic-known :
    (lower upper : Text → Text) (name : Text)
    → (upper (canonical_func_name lower name) ≡ indirect_text)
      ⊎ (upper (canonical_func_name lower name) ≡ offset_text)
    → is_dynamic lower upper name ≡ true
unfolding is_dynamic
is_dynamic-known lower upper name (inl is_indirect) = rw (is_dynamic, is_indirect) refl
is_dynamic-known lower upper name (inr is_offset) = rw (is_dynamic, is_offset) refl

module _ {Number : Type 0} (lower upper : Text → Text) where
  mutual
    unfolding collect_edges dynamic_edge

    suppressed :
        (ast : Ast Number Node) (current source : Text)
        → collect_edges lower upper ast current source true ≡ []
    suppressed (num n) current source = refl
    suppressed (str text) current source = refl
    suppressed (err text) current source = refl
    suppressed (named text) current source = refl
    suppressed (cell node) current source = refl
    suppressed (array cells) current source = refl
    suppressed (named_range start end) current source = refl
    suppressed (bin kind left right) current source =
        ground (arith, suppressed left current source, suppressed right current source)
    suppressed (unary kind expr) current source = suppressed expr current source
    suppressed (percent expr) current source = suppressed expr current source
    suppressed (func name args) current source = ground (arith, all_suppressed args current source)

    all_suppressed :
        (args : Asts Number Node) (current source : Text)
        → collect_all lower upper args current source true ≡ []
    all_suppressed no_more current source = refl
    all_suppressed (and_then first others) current source =
        ground (arith, suppressed first current source, all_suppressed others current source)

  -- A call of INDIRECT or OFFSET has one edge, of the kind dynamic, unresolved and without a target,
  -- whatever its arguments are; inside the arguments of another such call it has none.
  pub collect_edges-dynamic :
      (name current source : Text) (args : Asts Number Node) (suppress : Bool)
      → (upper (canonical_func_name lower name) ≡ indirect_text)
        ⊎ (upper (canonical_func_name lower name) ≡ offset_text)
      → collect_edges lower upper (func name args) current source suppress ≡ (
          if suppress
          then []
          else record {
            kind = dynamic;
            source = source;
            target = none;
            unresolved = true;
            truncated = false;
            abs_col = none;
            abs_row = none;
            abs_col_end = none;
            abs_row_end = none;
            named = false;
          }
            ∷ [])
  unfolding collect_edges dynamic_edge
  collect_edges-dynamic name current source args suppress h =
      ground (arith, all_suppressed args current source, is_dynamic-known lower upper name h)
