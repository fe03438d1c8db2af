-- ===== src/Formulas/Known/Refinement.antt =====
-- The index of formulas/known.py and a set of texts, over runs of operations.
use finance_context_builder.Base.{◌≡◌, ◌∙◌, List, [], ◌∷◌, arith, Option-cases, inl, inr}
use finance_context_builder.Base.Eq.{list_eq, nat_eq}
use finance_context_builder.Base.Dict.{get}
use finance_context_builder.Excel.Addresses.{parse_addr}
use finance_context_builder.Base.Text.{Text, Unicode}
use finance_context_builder.Formulas.Known.{
  KnownNodes, empty, split_last, elem, canonical_node_id, add, contains, clear, len,
}
use finance_context_builder.Formulas.Known.View.{IsValid, empty-IsValid, finalize-IsValid}
use finance_context_builder.Formulas.Known.Queries.{
  knows, contains-eq-knows, knows-add, add-IsValid, knows-finalize,
}

-- What a client does with the index.
pub data Use : Type 0 where
  insert : Text → Text → Use
  query : Text → Use
  count reset : Use

module _ (u : Unicode) where
  unfoldable pub step : KnownNodes → Use → KnownNodes
  step s (insert sheet addr) = add u s sheet addr
  step s (query item) = (contains u s item).1
  step s count = (len u s).1
  step s reset = clear s

  unfoldable pub run : KnownNodes → List Use → KnownNodes
  unfolding step
  run s [] = s
  run s (x ∷ xs) = run (step s x) xs

  -- The same on a set of canonical ids.
  abbrev pub set_step : List Text → Use → List Text
  set_step ids (insert sheet addr) = canonical_node_id u sheet addr ∷ ids
  set_step ids (query item) = ids
  set_step ids count = ids
  set_step ids reset = []

  abbrev pub set_run : List Text → List Use → List Text
  set_run ids [] = ids
  set_run ids (x ∷ xs) = set_run (set_step ids x) xs

  record Refines (s : KnownNodes) (ids : List Text) : Type 0 where
    valid : IsValid s
    same : (item : Text) → knows u s item ≡ elem ids item

  nothing : (item : Text) → knows u empty item ≡ elem [] item
  unfolding get
  nothing item = elim (Option-cases (split_last item)) [
    | inl no_split ↦ ground arith
    | inr (p, split) ↦ elim (Option-cases (parse_addr u p.1)) [
      | inl bad ↦ ground arith
      | inr (cell, good) ↦ ground arith
    ]
  ]

  step-Refines :
      (s : KnownNodes) (ids : List Text) (x : Use)
      → Refines s ids
      → Refines (step s x) (set_step ids x)
  unfolding step
  step-Refines s ids (insert sheet addr) r = record {
    valid = add-IsValid u s sheet addr r.valid;
    same = λ item. ground (arith, knows-add u s sheet addr item r.valid, r.same item);
  }
  step-Refines s ids (query item) r =
      let (_, valid, kept) = contains-eq-knows u s item r.valid in
      record { valid = valid; same = λ other. kept other ∙ r.same other }
  step-Refines s ids count r = record {
    valid = unfold len in (finalize-IsValid s r.valid).0;
    same = λ item. unfold len in knows-finalize u s item r.valid ∙ r.same item;
  }
  step-Refines s ids reset r = record { valid = empty-IsValid; same = nothing }

  run-Refines :
      (s : KnownNodes) (ids : List Text) (xs : List Use)
      → Refines s ids
      → Refines (run s xs) (set_run ids xs)
  unfolding run
  run-Refines s ids [] r = r
  run-Refines s ids (x ∷ xs) r = run-Refines (step s x) (set_step ids x) xs (step-Refines s ids x r)

  -- After any use of a new index, `in` answers as it would on the set of the canonical ids added
  -- since the last `clear`.
  pub contains-run :
      (xs : List Use) (item : Text) → (contains u (run empty xs) item).0 ≡ elem (set_run [] xs) item
  contains-run xs item =
      let r = run-Refines empty [] xs (record { valid = empty-IsValid; same = nothing }) in
      (contains-eq-knows u (run empty xs) item r.valid).0 ∙ r.same item
