-- ===== src/Formulas/Spans/Sorting.antt =====
-- The sorting of row runs, in formulas/csr.py.
use finance_context_builder.Base.{ℕ, ◌≤◌, ◌≡◌, refl, ◌||◌, List, [], ◌∷◌, arith, All}
use finance_context_builder.Base.Eq.{nat_eq}
use finance_context_builder.Formulas.Spans.{Span, holds, insert_span, sort_spans, covers}

-- A run that holds its own start.
abbrev pub IsRun : Span → Type 0
IsRun (start, end) = start ≤ end

abbrev pub SortedFrom : ℕ → List Span → Type 0
SortedFrom low [] = Unit
SortedFrom low ((start, end) ∷ rest) = (low ≤ start) × SortedFrom start rest

covers-insert_span :
    (x : Span) (ys : List Span) (row : ℕ)
    → covers (insert_span x ys) row ≡ (holds x row || covers ys row)
unfolding insert_span
covers-insert_span x [] row = refl
covers-insert_span x (y ∷ ys) row = ground (arith, covers-insert_span x ys row)

pub covers-sort_spans : (xs : List Span) (row : ℕ) → covers (sort_spans xs) row ≡ covers xs row
unfolding sort_spans
covers-sort_spans [] row = refl
covers-sort_spans (x ∷ xs) row =
    ground (arith, covers-insert_span x (sort_spans xs) row, covers-sort_spans xs row)

insert_span-SortedFrom :
    (low : ℕ) (x : Span) (ys : List Span)
    → low ≤ x.0
    → SortedFrom low ys
    → SortedFrom low (insert_span x ys)
unfolding insert_span
insert_span-SortedFrom low (a, b) [] h s = (h, tt)
insert_span-SortedFrom low (a, b) ((c, d) ∷ ys) h s =
    ground (arith, insert_span-SortedFrom c (a, b) ys)

pub sort_spans-SortedFrom : (xs : List Span) → SortedFrom 0 (sort_spans xs)
unfolding sort_spans
sort_spans-SortedFrom [] = tt
sort_spans-SortedFrom (x ∷ xs) =
    insert_span-SortedFrom 0 x (sort_spans xs) (omega arith) (sort_spans-SortedFrom xs)

insert_span-All :
    (x : Span) (ys : List Span) → IsRun x → All IsRun ys → All IsRun (insert_span x ys)
unfolding insert_span
insert_span-All x [] h hs = (h, tt)
insert_span-All x (y ∷ ys) h hs = ground (arith, insert_span-All x ys h hs.1)

pub sort_spans-All : (xs : List Span) → All IsRun xs → All IsRun (sort_spans xs)
unfolding sort_spans
sort_spans-All [] h = tt
sort_spans-All (x ∷ xs) h = insert_span-All x (sort_spans xs) h.0 (sort_spans-All xs h.1)
