-- ===== src/Formulas/RunTables/Covering.antt =====
-- Closing, merging and moving back, and what a column covers.
use finance_context_builder.Base.{
  ℕ, ◌+◌, ◌≡◌, refl, Bool, false, ◌||◌, ◌&&◌, List, [], ◌∷◌, ◌++◌, arith, All, All-append, none,
  some, if◌then◌else◌, Option-cases, inl, inr,
}
use finance_context_builder.Base.Eq.{HasEq, ◌==◌, nat_eq}
use finance_context_builder.Base.Dict.{Dict, get, get-put, Distinct, put-Distinct, All-get, put-All}
use finance_context_builder.Formulas.Spans.{Span, holds, covers, merge_spans, RunsFrom}
use finance_context_builder.Formulas.Spans.Sorting.{IsRun}
use finance_context_builder.Formulas.Spans.Merging.{merge_spans-RunsFrom}
use finance_context_builder.Formulas.RunTables.{
  runs_at, extend_runs, close_all, merge_all, move_back,
}

pub covers-append :
    (xs ys : List Span) (row : ℕ) → covers (xs ++ ys) row ≡ (covers xs row || covers ys row)
covers-append [] ys row = refl
covers-append (x ∷ xs) ys row = ground (arith, covers-append xs ys row)

RunsFrom-All : (low : ℕ) (spans : List Span) → RunsFrom low spans → All IsRun spans
RunsFrom-All low [] r = tt
RunsFrom-All low (x ∷ spans) r = (r.1, RunsFrom-All (x.1 + 2) spans r.2)

module _ {K : Type 0} ⦃e : HasEq K⦄ where
  -- One key gains the runs, the others stay.
  pub runs_at-extend_runs :
      (d : Dict K (List Span)) (k j : K) (spans : List Span)
      → runs_at (extend_runs d k spans) j ≡ (if k == j then runs_at d k ++ spans else runs_at d j)
  unfolding extend_runs
  runs_at-extend_runs d k j spans = ground (arith, get-put d k j (runs_at d k ++ spans))

  pub covers-extend_runs :
      (d : Dict K (List Span)) (k j : K) (spans : List Span) (row : ℕ)
      → covers (runs_at (extend_runs d k spans) j) row
        ≡ (covers (runs_at d j) row || (k == j && covers spans row))
  covers-extend_runs d k j spans row = ground (
    arith,
    runs_at-extend_runs d k j spans,
    covers-append (runs_at d k) spans row,
    e.equal_iff k j,
  )

  -- What an open run holds.
  abbrev pub open_holds : Dict K Span → K → ℕ → Bool
  open_holds d k row = elim (get d k) [ none ↦ false | some run ↦ holds run row ]

  pub covers-close_all :
      (d : Dict K Span) (closed : Dict K (List Span)) (k : K) (row : ℕ)
      → Distinct d
      → covers (runs_at (close_all d closed) k) row
        ≡ (covers (runs_at closed k) row || open_holds d k row)
  unfolding close_all get
  covers-close_all [] closed k row h = ground arith
  covers-close_all ((j, run) ∷ d) closed k row h = ground (
    arith,
    covers-close_all d (extend_runs closed j (run ∷ [])) k row h.1,
    covers-extend_runs closed j k (run ∷ []) row,
    e.equal_iff j k,
  )

  pub covers-move_back :
      (d closed : Dict K (List Span)) (k : K) (row : ℕ)
      → Distinct d
      → covers (runs_at (move_back d closed) k) row
        ≡ (covers (runs_at closed k) row || covers (runs_at d k) row)
  unfolding move_back get
  covers-move_back [] closed k row h = ground arith
  covers-move_back ((j, spans) ∷ d) closed k row h = ground (
    arith,
    covers-move_back d (extend_runs closed j spans) k row h.1,
    covers-extend_runs closed j k spans row,
    e.equal_iff j k,
  )

  pub runs_at-merge_all :
      (d : Dict K (List Span)) (k : K) → runs_at (merge_all d) k ≡ merge_spans (runs_at d k)
  unfolding merge_all get merge_spans
  runs_at-merge_all [] k = refl
  runs_at-merge_all ((j, spans) ∷ d) k = ground (arith, runs_at-merge_all d k)

  -- Every run of every key holds its start.
  abbrev pub HasRuns : Dict K (List Span) → Type 0
  HasRuns d = All (λ x. All IsRun x.1) d

  pub runs_at-All : (d : Dict K (List Span)) (k : K) → HasRuns d → All IsRun (runs_at d k)
  runs_at-All d k h = elim (Option-cases (get d k)) [
    | inl missing ↦ rw (missing, runs_at, All) tt
    | inr (spans, found) ↦ rw (found, runs_at) (All-get (All IsRun) d k spans h found)
  ]

  extend_runs-HasRuns :
      (d : Dict K (List Span)) (k : K) (spans : List Span)
      → HasRuns d
      → All IsRun spans
      → HasRuns (extend_runs d k spans)
  unfolding extend_runs
  extend_runs-HasRuns d k spans h hs =
      put-All (All IsRun) d k (runs_at d k ++ spans) h
        (All-append IsRun (runs_at d k) spans (runs_at-All d k h) hs)

  -- A table in which no key stands twice and every run holds its start.
  pub record IsTable (d : Dict K (List Span)) : Type 0 where
    pub distinct : Distinct d
    pub runs : HasRuns d

  pub extend_runs-IsTable :
      (d : Dict K (List Span)) (k : K) (spans : List Span)
      → IsTable d
      → All IsRun spans
      → IsTable (extend_runs d k spans)
  unfolding extend_runs
  extend_runs-IsTable d k spans h hs = record {
    distinct = put-Distinct d k (runs_at d k ++ spans) h.distinct;
    runs = extend_runs-HasRuns d k spans h.runs hs;
  }

  pub close_all-IsTable :
      (d : Dict K Span) (closed : Dict K (List Span))
      → All (λ x. IsRun x.1) d
      → IsTable closed
      → IsTable (close_all d closed)
  unfolding close_all
  close_all-IsTable [] closed h t = t
  close_all-IsTable ((j, run) ∷ d) closed h t =
      close_all-IsTable d (extend_runs closed j (run ∷ [])) h.1
        (extend_runs-IsTable closed j (run ∷ []) t (h.0, tt))

  pub move_back-IsTable :
      (d closed : Dict K (List Span)) → HasRuns d → IsTable closed → IsTable (move_back d closed)
  unfolding move_back
  move_back-IsTable [] closed h t = t
  move_back-IsTable ((j, spans) ∷ d) closed h t =
      move_back-IsTable d (extend_runs closed j spans) h.1
        (extend_runs-IsTable closed j spans t h.0)

  get-merge_all : (d : Dict K (List Span)) (k : K) → get d k ≡ none → get (merge_all d) k ≡ none
  unfolding get merge_all
  get-merge_all [] k h = refl
  get-merge_all ((j, spans) ∷ d) k h = ground (arith, get-merge_all d k)

  -- A table whose runs are in order and apart, as `_merge_spans` leaves them.
  pub record IsMerged (d : Dict K (List Span)) : Type 0 where
    pub distinct : Distinct d
    pub ordered : All (λ x. RunsFrom 0 x.1) d

  pub merge_all-IsMerged : (d : Dict K (List Span)) → IsTable d → IsMerged (merge_all d)
  unfolding merge_all merge_spans
  merge_all-IsMerged [] h = record { distinct = tt; ordered = tt }
  merge_all-IsMerged ((j, spans) ∷ d) h =
      let rest = merge_all-IsMerged d (record { distinct = h.distinct.1; runs = h.runs.1 }) in
      record {
        distinct = (get-merge_all d j h.distinct.0, rest.distinct);
        ordered = (merge_spans-RunsFrom spans h.runs.0, rest.ordered);
      }

  pub ordered-HasRuns : (d : Dict K (List Span)) → All (λ x. RunsFrom 0 x.1) d → HasRuns d
  ordered-HasRuns [] h = tt
  ordered-HasRuns (x ∷ d) h = (RunsFrom-All 0 x.1 h.0, ordered-HasRuns d h.1)

  pub runs_at-RunsFrom : (d : Dict K (List Span)) (k : K) → IsMerged d → RunsFrom 0 (runs_at d k)
  runs_at-RunsFrom d k h = elim (Option-cases (get d k)) [
    | inl missing ↦ rw (missing, runs_at, RunsFrom) tt
    | inr (spans, found) ↦ rw (found, runs_at) (All-get (RunsFrom 0) d k spans h.ordered found)
  ]
