-- ===== src/Formulas/Spans.antt =====
-- Row runs of formulas/csr.py: `_merge_spans`, `_span_has`, `_span_overlap`, `_first_span_row`.
pub mod Sorting
pub mod Merging
pub mod Search
pub mod Counting
use finance_context_builder.Base.{
  ℕ, zero, suc, ◌+◌, ◌-◌, ◌/◌, ◌≤◌, min, max, Bool, true, false, ◌&&◌, ◌||◌, List, [], ◌∷◌, leb,
  ltb, length, if◌then◌else◌, Option, none, some,
}
use finance_context_builder.Base.Eq.{◌==◌, nat_eq}

-- An inclusive run of rows: its start and its end.
abbrev pub Span : Type 0
Span = ℕ × ℕ

-- `start <= row <= end`
abbrev pub holds : Span → ℕ → Bool
holds (start, end) row = leb start row && leb row end

-- The order of pairs, `a <= b`.
unfoldable pub span_le : Span → Span → Bool
span_le (a, b) (c, d) = ltb a c || a == c && leb b d

unfoldable pub insert_span : Span → List Span → List Span
unfolding span_le
insert_span x [] = x ∷ []
insert_span x (y ∷ ys) = if span_le x y then x ∷ y ∷ ys else y ∷ insert_span x ys

-- `items.sort()`
unfoldable pub sort_spans : List Span → List Span
unfolding insert_span
sort_spans [] = []
sort_spans (x ∷ xs) = insert_span x (sort_spans xs)

-- The loop of `_merge_spans`: `prev_start`, `prev_end` are `merged[-1]`, which the next run widens
-- or closes.
unfoldable pub absorb : ℕ → ℕ → List Span → List Span
absorb prev_start prev_end [] = (prev_start, prev_end) ∷ []
absorb prev_start prev_end ((start, end) ∷ rest) =
    let widened = absorb prev_start (max prev_end end) rest in
    let closed = absorb start end rest in
    if leb start (prev_end + 1) then widened else (prev_start, prev_end) ∷ closed

unfoldable pub merge_sorted : List Span → List Span
unfolding absorb
merge_sorted [] = []
merge_sorted ((start, end) ∷ rest) = absorb start end rest

unfoldable pub merge_spans : List Span → List Span
unfolding sort_spans merge_sorted
merge_spans items = merge_sorted (sort_spans items)

abbrev pub span_at : List Span → ℕ → Span
span_at [] i = (0, 0)
span_at (x ∷ xs) zero = x
span_at (x ∷ xs) (suc i) = span_at xs i

-- bisect.bisect_right with `key`: the loop over `lo` and `hi`, which ends within `hi - lo` rounds.
unfoldable pub bisect_loop : ℕ → (ℕ → ℕ) → ℕ → ℕ → ℕ → ℕ
bisect_loop zero key x lo hi = lo
bisect_loop (suc fuel) key x lo hi =
    let mid = (lo + hi) / 2 in
    let left = bisect_loop fuel key x lo mid in
    let right = bisect_loop fuel key x (mid + 1) hi in
    if ltb lo hi then (if ltb x (key mid) then left else right) else lo

unfoldable pub bisect_right : List Span → ℕ → ℕ
unfolding bisect_loop
bisect_right spans row = bisect_loop (length spans) (λ i. (span_at spans i).0) row 0 (length spans)

-- `index` is one less than the insertion point, so 0 there is the test `index < 0`.
unfoldable pub span_has : List Span → ℕ → Bool
unfolding bisect_right
span_has [] row = false
span_has (x ∷ xs) row = elim (bisect_right (x ∷ xs) row) [
  | zero ↦ false
  | suc index ↦ holds (span_at (x ∷ xs) index) row
]

-- The loop of `_span_overlap` after `total`.
unfoldable pub span_overlap : List Span → ℕ → ℕ → ℕ
span_overlap [] lo hi = 0
span_overlap ((start, end) ∷ rest) lo hi =
    let more = span_overlap rest lo hi in
    if ltb end lo then more else if ltb hi start then 0 else min end hi + 1 - max start lo + more

unfoldable pub first_span_row : List Span → ℕ → ℕ → Option ℕ
first_span_row [] lo hi = none
first_span_row ((start, end) ∷ rest) lo hi =
    if ltb end lo
    then first_span_row rest lo hi
    else if ltb hi start
    then none
    else some (max start lo)

-- What a list of runs stands for: the rows that some run holds.
abbrev pub covers : List Span → ℕ → Bool
covers [] row = false
covers (x ∷ xs) row = holds x row || covers xs row

-- Runs from `low` on that are not empty, in order, with a gap of at least one row between.
abbrev pub RunsFrom : ℕ → List Span → Type 0
RunsFrom low [] = Unit
RunsFrom low ((start, end) ∷ rest) = (low ≤ start) × (start ≤ end) × RunsFrom (end + 2) rest
