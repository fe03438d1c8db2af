-- ===== src/Formulas/RunTables.antt =====
-- The dictionaries of row runs of formulas/known.py: the loops of `_finalize`, `_reopen` and `__len__`.
pub mod Covering
use finance_context_builder.Base.{ℕ, ◌+◌, ◌-◌, List, [], ◌∷◌, ◌++◌, none, some}
use finance_context_builder.Base.Eq.{HasEq}
use finance_context_builder.Base.Dict.{Dict, get, put}
use finance_context_builder.Formulas.Spans.{Span, merge_spans}

-- `sum(end - start + 1 …)`
unfoldable pub run_lengths : List Span → ℕ
run_lengths [] = 0
run_lengths ((start, end) ∷ rest) = end + 1 - start + run_lengths rest

module _ {K : Type 0} ⦃e : HasEq K⦄ where
  -- `d.get(sheet, {}).get(col, ())`
  abbrev pub runs_at : Dict K (List Span) → K → List Span
  runs_at d k = elim (get d k) [ none ↦ [] | some spans ↦ spans ]

  -- `d.setdefault(sheet, {}).setdefault(col, []).extend(spans)`, also `append` of one run
  unfoldable pub extend_runs : Dict K (List Span) → K → List Span → Dict K (List Span)
  extend_runs d k spans = put d k (runs_at d k ++ spans)

  -- the loop of `_finalize` that closes the open runs
  unfoldable pub close_all : Dict K Span → Dict K (List Span) → Dict K (List Span)
  unfolding extend_runs
  close_all [] closed = closed
  close_all ((key, run) ∷ rest) closed = close_all rest (extend_runs closed key (run ∷ []))

  unfoldable pub merge_all : Dict K (List Span) → Dict K (List Span)
  merge_all [] = []
  merge_all ((key, spans) ∷ rest) = (key, merge_spans spans) ∷ merge_all rest

  -- the loop of `_reopen`
  unfoldable pub move_back : Dict K (List Span) → Dict K (List Span) → Dict K (List Span)
  unfolding extend_runs
  move_back [] closed = closed
  move_back ((key, spans) ∷ rest) closed = move_back rest (extend_runs closed key spans)

  unfoldable pub all_lengths : Dict K (List Span) → ℕ
  unfolding run_lengths
  all_lengths [] = 0
  all_lengths ((key, spans) ∷ rest) = run_lengths spans + all_lengths rest
