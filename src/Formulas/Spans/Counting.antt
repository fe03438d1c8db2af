-- ===== src/Formulas/Spans/Counting.antt =====
-- The counting of `_span_overlap` and the first row of `_first_span_row`, formulas/csr.py.
use finance_context_builder.Base.{
  ◌&&◌, leb, Option, Option-cases, ℕ, zero, suc, ◌+◌, ◌-◌, ◌≤◌, ◌<◌, ◌≡◌, refl, true, false, List,
  [], ◌∷◌, arith, min, max, none, some, if◌then◌else◌, Bool, sym, ltb, inl, inr, Bool-cases,
}
use finance_context_builder.Formulas.Spans.Search.{covers-beyond}
use finance_context_builder.Formulas.Spans.{
  Span, holds, span_overlap, first_span_row, covers, RunsFrom,
}

-- How many of the `n` rows from `lo` on pass a test.
abbrev pub count_rows : (ℕ → Bool) → ℕ → ℕ → ℕ
count_rows p lo zero = 0
count_rows p lo (suc n) = (if p lo then 1 else 0) + count_rows p (lo + 1) n

count_rows-none : (lo n : ℕ) → count_rows (λ _. false) lo n ≡ 0
count_rows-none lo zero = refl
count_rows-none lo (suc n) = omega (arith, count_rows-none (lo + 1) n)

-- The rows of one run inside an interval.
count_rows-holds :
    (start end lo n : ℕ)
    → count_rows (holds (start, end)) lo n ≡ min (end + 1) (lo + n) - max start lo
count_rows-holds start end lo zero = omega arith
count_rows-holds start end lo (suc n) = ground (arith, count_rows-holds start end (lo + 1) n)

-- Runs with no row in common are counted one by one.
count_rows-disjoint :
    (x : Span) (rest : List Span) (lo n : ℕ)
    → RunsFrom (x.1 + 2) rest
    → count_rows (covers (x ∷ rest)) lo n
      ≡ count_rows (holds x) lo n + count_rows (covers rest) lo n
count_rows-disjoint x rest lo zero r = refl
count_rows-disjoint x rest lo (suc n) r =
    ground (arith, count_rows-disjoint x rest (lo + 1) n, covers-beyond (x.1 + 2) rest lo r)

count_rows-beyond :
    (low : ℕ) (spans : List Span) (lo n : ℕ)
    → RunsFrom low spans
    → lo + n ≤ low
    → count_rows (covers spans) lo n ≡ 0
count_rows-beyond low spans lo zero r h = refl
count_rows-beyond low spans lo (suc n) r h =
    ground (arith, covers-beyond low spans lo r, count_rows-beyond low spans (lo + 1) n r)

-- The overlap with an interval is the number of its rows that some run holds.
pub span_overlap-count :
    (low : ℕ) (spans : List Span) (lo n : ℕ)
    → RunsFrom low spans
    → 0 < n
    → span_overlap spans lo (lo + n - 1) ≡ count_rows (covers spans) lo n
unfolding span_overlap
span_overlap-count low [] lo n r h = sym (count_rows-none lo n)
span_overlap-count low ((start, end) ∷ rest) lo n r h = ground (
  arith,
  span_overlap-count (end + 2) rest lo n r.2 h,
  count_rows-disjoint (start, end) rest lo n r.2,
  count_rows-holds start end lo n,
  count_rows-beyond (end + 2) rest lo n r.2,
)

first_span_row-ge :
    (low : ℕ) (spans : List Span) (lo hi row : ℕ)
    → RunsFrom low spans
    → first_span_row spans lo hi ≡ some row
    → low ≤ row
unfolding first_span_row
first_span_row-ge low [] lo hi row r h = absurd (ground arith)
first_span_row-ge low (x ∷ rest) lo hi row r h =
    ground (arith, first_span_row-ge (x.1 + 2) rest lo hi row r.2)

-- The first row found is covered and inside the interval, and no covered row of it comes before.
pub first_span_row-first :
    (low : ℕ) (spans : List Span) (lo hi row : ℕ)
    → RunsFrom low spans
    → lo ≤ hi
    → first_span_row spans lo hi ≡ some row
    → (covers spans row ≡ true)
      × (lo ≤ row)
      × (row ≤ hi)
      × ((k : ℕ) → lo ≤ k → k < row → covers spans k ≡ false)
unfolding first_span_row
first_span_row-first low [] lo hi row r h e = absurd (ground arith)
first_span_row-first low ((start, end) ∷ rest) lo hi row r h e = elim (Bool-cases (ltb end lo)) [
  | inl before ↦
      let (c, a, b, none_before) =
        first_span_row-first (end + 2) rest lo hi row r.2 h (ground arith) in
      (ground arith, a, b, λ k p q. ground (arith, none_before k p q))
  | inr reaches ↦
      let found : row ≡ max start lo = ground arith in
      let inside : start ≤ hi = ground arith in
      (
        ground arith,
        omega arith,
        ground arith,
        λ k p q. ground (arith, covers-beyond (end + 2) rest k r.2),
      )
]

-- No row found means that no row of the interval is covered.
pub first_span_row-none :
    (low : ℕ) (spans : List Span) (lo hi k : ℕ)
    → RunsFrom low spans
    → first_span_row spans lo hi ≡ none
    → lo ≤ k
    → k ≤ hi
    → covers spans k ≡ false
unfolding first_span_row
first_span_row-none low [] lo hi k r e p q = refl
first_span_row-none low (x ∷ rest) lo hi k r e p q =
    ground
      (arith, first_span_row-none (x.1 + 2) rest lo hi k r.2, covers-beyond (x.1 + 2) rest k r.2)

-- What a search for the first held row of an interval returns.
abbrev pub IsFirst : List Span → ℕ → ℕ → Option ℕ → Type 0
IsFirst spans lo hi none = (k : ℕ) → (leb lo k && leb k hi && covers spans k) ≡ false
IsFirst spans lo hi (some row) =
    (covers spans row ≡ true)
    × (lo ≤ row)
    × (row ≤ hi)
    × ((k : ℕ) → (leb lo k && ltb k row && covers spans k) ≡ false)

-- On runs in order and apart, and an interval that is not empty, the row returned is held by a run,
-- is inside the interval, and no row of the interval before it is held; None is returned only when
-- no row of the interval is held.
pub first_span_row_lem :
    (low : ℕ) (spans : List Span) (lo hi : ℕ)
    → RunsFrom low spans
    → lo ≤ hi
    → IsFirst spans lo hi (first_span_row spans lo hi)
first_span_row_lem low spans lo hi r h = elim (Option-cases (first_span_row spans lo hi)) [
  | inl e ↦ rw (e, IsFirst) (λ k. ground (arith, first_span_row-none low spans lo hi k r e))
  | inr (row, e) ↦
      let (held, above, below, least) = first_span_row-first low spans lo hi row r h e in
      rw (e, IsFirst) (held, above, below, λ k. ground (arith, least k))
]
