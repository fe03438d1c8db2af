-- ===== src/Formulas/Known/View.antt =====
-- The cells that an index stands for, and what its operations do to them.
use finance_context_builder.Base.{
  ℕ, ◌≡◌, refl, Bool, true, false, ◌||◌, ◌&&◌, List, [], ◌∷◌, arith, All, ◌↔◌, subst, Option-cases,
  Bool-cases, inl, inr,
}
use finance_context_builder.Base.Eq.{◌==◌, nat_eq, list_eq, pair_eq, pair_beq_iff}
use finance_context_builder.Base.Dict.{
  Dict, get, put, get-put, Distinct, put-Distinct, All-get, put-All,
}
use finance_context_builder.Base.Text.{Text}
use finance_context_builder.Formulas.Spans.{Span, holds, covers}
use finance_context_builder.Formulas.Spans.Sorting.{IsRun}
use finance_context_builder.Formulas.Spans.Merging.{covers-merge_spans}
use finance_context_builder.Formulas.RunTables.{runs_at, extend_runs, close_all, merge_all}
use finance_context_builder.Formulas.RunTables.Covering.{
  open_holds, covers-extend_runs, covers-close_all, covers-move_back, runs_at-merge_all, IsTable,
  IsMerged, extend_runs-IsTable, close_all-IsTable, move_back-IsTable, merge_all-IsMerged,
  ordered-HasRuns,
}
use finance_context_builder.Formulas.Known.{
  Column, KnownNodes, empty, widen, touches, touch, finalize, reopen,
}

-- The rows of a column that some run holds, wherever the index keeps it.
abbrev pub view : KnownNodes → Column → ℕ → Bool
view s k row =
    open_holds s.opened k row || (covers (runs_at s.closed k) row || covers (runs_at s.rows k) row)

pub record IsValid (s : KnownNodes) : Type 0 where
  pub distinct_open : Distinct s.opened
  pub open_runs : All (λ x. IsRun x.1) s.opened
  pub closed_runs : IsTable s.closed
  pub merged_rows : IsMerged s.rows
  pub when_ready : s.ready ≡ true → (s.opened ≡ []) × (s.closed ≡ [])
  pub when_open : s.ready ≡ false → s.rows ≡ []

pub empty-IsValid : IsValid empty
empty-IsValid = record {
  distinct_open = tt;
  open_runs = tt;
  closed_runs = record { distinct = tt; runs = tt };
  merged_rows = record { distinct = tt; ordered = tt };
  when_ready = λ h. (refl, refl);
  when_open = λ h. refl;
}

holds-widen :
    (run : Span) (row r : ℕ)
    → IsRun run
    → touches run row ≡ true
    → holds (widen run row) r ≡ (holds run r || row == r)
holds-widen (lo, hi) row r h t = ground arith

widen-IsRun : (run : Span) (row : ℕ) → IsRun run → IsRun (widen run row)
widen-IsRun (lo, hi) row h = ground arith

holds_one : (row r : ℕ) → holds (row, row) r ≡ (row == r)
holds_one row r = ground arith

-- Touching a cell adds that cell and no other.
pub view-touch :
    (s : KnownNodes) (sheet : Text) (col row : ℕ) (k : Column) (r : ℕ)
    → IsValid s
    → view (touch s sheet col row) k r ≡ (view s k r || ((sheet, col) == k && row == r))
unfolding touch
view-touch s sheet col row k r v = elim (Option-cases (get s.opened key)) [
  | inl new ↦ ground (arith, get-put s.opened key k (row, row), holds_one row r, key_iff)
  | inr (run, found) ↦
      let is_run = All-get IsRun s.opened key run v.open_runs found in
      ground (
        arith,
        get-put s.opened key k (row, row),
        get-put s.opened key k (widen run row),
        holds_one row r,
        holds-widen run row r is_run,
        covers-extend_runs s.closed key k (run ∷ []) r,
        key_iff,
      )
]
  where
    key : Column
    key = (sheet, col)

    key_iff : ((key == k) ≡ true) ↔ (key ≡ k)
    key_iff = pair_beq_iff key k

-- A state whose open and closed runs are new, and whose merged rows are still empty.
building :
    (s : KnownNodes) (opened' : Dict Column Span) (closed' : Dict Column (List Span))
    → IsValid s
    → s.ready ≡ false
    → Distinct opened'
    → All (λ x. IsRun x.1) opened'
    → IsTable closed'
    → IsValid (record s { opened = opened'; closed = closed' })
building s opened' closed' v not_ready d runs t = record {
  distinct_open = d;
  open_runs = runs;
  closed_runs = t;
  merged_rows = v.merged_rows;
  when_ready = λ h. cc;
  when_open = v.when_open;
}

pub touch-IsValid :
    (s : KnownNodes) (sheet : Text) (col row : ℕ)
    → IsValid s
    → s.ready ≡ false
    → IsValid (touch s sheet col row)
unfolding touch
touch-IsValid s sheet col row v not_ready = elim (Option-cases (get s.opened key)) [
  | inl new ↦
      let done : record s { opened = fresh } ≡ touch s sheet col row = ground arith in
      subst IsValid done
        (building s fresh s.closed v not_ready fresh_distinct fresh_runs v.closed_runs)
  | inr (run, found) ↦
      let is_run = All-get IsRun s.opened key run v.open_runs found in
      elim (Bool-cases (touches run row)) [
        | inl joins ↦
            let wide = put s.opened key (widen run row) in
            let done : record s { opened = wide } ≡ touch s sheet col row = ground arith in
            subst IsValid done (
              building s wide s.closed v not_ready
                (put-Distinct s.opened key (widen run row) v.distinct_open)
                (put-All IsRun s.opened key (widen run row) v.open_runs
                  (widen-IsRun run row is_run))
                v.closed_runs)
        | inr apart ↦
            let closed' = extend_runs s.closed key (run ∷ []) in
            let done : record s { opened = fresh; closed = closed' } ≡ touch s sheet col row =
              ground arith in
            subst IsValid done (
              building s fresh closed' v not_ready fresh_distinct fresh_runs
                (extend_runs-IsTable s.closed key (run ∷ []) v.closed_runs (is_run, tt)))
      ]
]
  where
    key : Column
    key = (sheet, col)

    fresh : Dict Column Span
    fresh = put s.opened key (row, row)

    fresh_distinct : Distinct fresh
    fresh_distinct = put-Distinct s.opened key (row, row) v.distinct_open

    fresh_runs : All (λ x. IsRun x.1) fresh
    fresh_runs = put-All IsRun s.opened key (row, row) v.open_runs (omega arith)

pub view-finalize :
    (s : KnownNodes) (k : Column) (r : ℕ) → IsValid s → view (finalize s) k r ≡ view s k r
unfolding finalize get
view-finalize s k r v = elim (Bool-cases s.ready) [
  | inl ready ↦ ground arith
  | inr not_ready ↦ ground (
    arith,
    v.when_open not_ready,
    runs_at-merge_all (close_all s.opened s.closed) k,
    covers-merge_spans (runs_at (close_all s.opened s.closed) k) r,
    covers-close_all s.opened s.closed k r v.distinct_open,
  )
]

abbrev settled : KnownNodes → KnownNodes
settled s = record s {
  opened = [];
  rows = merge_all (close_all s.opened s.closed);
  closed = [];
  ready = true;
}

settled-IsValid : (s : KnownNodes) → IsValid s → IsValid (settled s)
settled-IsValid s v = record {
  distinct_open = tt;
  open_runs = tt;
  closed_runs = record { distinct = tt; runs = tt };
  merged_rows =
      merge_all-IsMerged (close_all s.opened s.closed)
        (close_all-IsTable s.opened s.closed v.open_runs v.closed_runs);
  when_ready = λ h. (refl, refl);
  when_open = λ h. cc;
}

pub finalize-IsValid :
    (s : KnownNodes) → IsValid s → IsValid (finalize s) × ((finalize s).ready ≡ true)
unfolding finalize
finalize-IsValid s v = elim (Bool-cases s.ready) [
  | inl ready ↦ let done : s ≡ finalize s = ground arith in (subst IsValid done v, ground arith)
  | inr not_ready ↦
      let done : settled s ≡ finalize s = ground arith in
      (subst IsValid done (settled-IsValid s v), ground arith)
]

pub view-reopen :
    (s : KnownNodes) (k : Column) (r : ℕ) → IsValid s → view (reopen s) k r ≡ view s k r
unfolding reopen
view-reopen s k r v = ground (arith, covers-move_back s.rows s.closed k r v.merged_rows.distinct)

pub reopen-IsValid : (s : KnownNodes) → IsValid s → IsValid (reopen s)
unfolding reopen
reopen-IsValid s v = record {
  distinct_open = v.distinct_open;
  open_runs = v.open_runs;
  closed_runs =
      move_back-IsTable s.rows s.closed (ordered-HasRuns s.rows v.merged_rows.ordered)
        v.closed_runs;
  merged_rows = record { distinct = tt; ordered = tt };
  when_ready = λ h. cc;
  when_open = λ h. refl;
}
