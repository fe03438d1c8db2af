-- ===== src/Formulas/Spans/Merging.antt =====
-- The merging of row runs, `_merge_spans` of formulas/csr.py.
use finance_context_builder.Base.{ℕ, ◌+◌, ◌≤◌, ◌≡◌, refl, ◌∙◌, ◌||◌, List, [], ◌∷◌, arith, All, max}
use finance_context_builder.Base.Eq.{nat_eq}
use finance_context_builder.Formulas.Spans.{
  Span, holds, absorb, merge_sorted, merge_spans, sort_spans, covers, RunsFrom,
}
use finance_context_builder.Formulas.Spans.Sorting.{
  IsRun, SortedFrom, covers-sort_spans, sort_spans-SortedFrom, sort_spans-All,
}

SortedFrom-le :
    (low low' : ℕ) (xs : List Span) → low ≤ low' → SortedFrom low' xs → SortedFrom low xs
SortedFrom-le low low' [] h s = tt
SortedFrom-le low low' (x ∷ xs) h s = (omega arith, s.1)

covers-absorb :
    (start end : ℕ) (rest : List Span) (row : ℕ)
    → SortedFrom start rest
    → covers (absorb start end rest) row ≡ (holds (start, end) row || covers rest row)
unfolding absorb
covers-absorb start end [] row s = refl
covers-absorb start end ((a, b) ∷ rest) row s = ground (
  arith,
  covers-absorb start (max end b) rest row,
  covers-absorb a b rest row s.1,
  SortedFrom-le start a rest s.0 s.1,
)

covers-merge_sorted :
    (xs : List Span) (row : ℕ) → SortedFrom 0 xs → covers (merge_sorted xs) row ≡ covers xs row
unfolding merge_sorted
covers-merge_sorted [] row s = refl
covers-merge_sorted ((start, end) ∷ rest) row s = covers-absorb start end rest row s.1

-- the merged runs cover exactly the rows of the runs that went in.
pub covers-merge_spans : (xs : List Span) (row : ℕ) → covers (merge_spans xs) row ≡ covers xs row
unfolding merge_spans
covers-merge_spans xs row =
    covers-merge_sorted (sort_spans xs) row (sort_spans-SortedFrom xs) ∙ covers-sort_spans xs row

absorb-RunsFrom :
    (low start end : ℕ) (rest : List Span)
    → low ≤ start
    → start ≤ end
    → SortedFrom start rest
    → All IsRun rest
    → RunsFrom low (absorb start end rest)
unfolding absorb
absorb-RunsFrom low start end [] h r s a = (h, r, tt)
absorb-RunsFrom low start end ((c, d) ∷ rest) h r s a = ground (
  arith,
  absorb-RunsFrom low start (max end d) rest,
  absorb-RunsFrom (end + 2) c d rest,
  SortedFrom-le start c rest s.0 s.1,
)

merge_sorted-RunsFrom :
    (xs : List Span) → SortedFrom 0 xs → All IsRun xs → RunsFrom 0 (merge_sorted xs)
unfolding merge_sorted
merge_sorted-RunsFrom [] s h = tt
merge_sorted-RunsFrom ((start, end) ∷ rest) s h =
    absorb-RunsFrom 0 start end rest (omega arith) h.0 s.1 h.1

-- the merged runs are in order, not empty, and never touch
pub merge_spans-RunsFrom : (xs : List Span) → All IsRun xs → RunsFrom 0 (merge_spans xs)
unfolding merge_spans
merge_spans-RunsFrom xs h =
    merge_sorted-RunsFrom (sort_spans xs) (sort_spans-SortedFrom xs) (sort_spans-All xs h)

-- Of runs that hold their start, `_merge_spans` makes runs in increasing order that are not empty
-- and have a row at least between them, and that hold exactly the rows that some run held.
pub merge_spans_lem :
    (xs : List Span)
    → All IsRun xs
    → RunsFrom 0 (merge_spans xs) × ((row : ℕ) → covers (merge_spans xs) row ≡ covers xs row)
merge_spans_lem xs h = (merge_spans-RunsFrom xs h, covers-merge_spans xs)
