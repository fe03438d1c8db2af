-- ===== src/Formulas/Spans/Search.antt =====
-- The binary search of `_span_has`, formulas/csr.py, and the runs.
use finance_context_builder.Base.{
  ℕ, zero, suc, ◌+◌, ◌-◌, ◌/◌, ◌≤◌, ◌<◌, ◌≡◌, refl, false, List, [], ◌∷◌, arith, leb, ltb, length,
  if◌then◌else◌, Bool, ap, ◌∙◌, sym, Bool-cases, inl, inr,
}
use finance_context_builder.Base.Eq.{nat_eq}
use finance_context_builder.Formulas.Spans.{
  Span, holds, span_at, bisect_loop, bisect_right, span_has, covers, RunsFrom,
}

-- How many runs start at the row or before it.
lead : List Span → ℕ → ℕ
lead [] row = 0
lead ((start, end) ∷ rest) row = if leb start row then suc (lead rest row) else 0

abbrev starts : List Span → ℕ → ℕ
starts spans i = (span_at spans i).0

lead-le-length : (spans : List Span) (row : ℕ) → lead spans row ≤ length spans
unfolding lead
lead-le-length [] row = omega arith
lead-le-length (x ∷ spans) row = ground (arith, lead-le-length spans row)

starts-ge :
    (low : ℕ) (spans : List Span) (i : ℕ)
    → RunsFrom low spans
    → i < length spans
    → low ≤ starts spans i
starts-ge low [] i r h = absurd (omega arith)
starts-ge low (x ∷ spans) zero r h = r.0
starts-ge low (x ∷ spans) (suc i) r h = omega (arith, starts-ge (x.1 + 2) spans i r.2 (omega arith))

-- The starts of the leading runs, and no others, are at most the row.
lead-start :
    (low : ℕ) (spans : List Span) (row i : ℕ)
    → RunsFrom low spans
    → i < length spans
    → ltb row (starts spans i) ≡ leb (lead spans row) i
unfolding lead
lead-start low [] row i r h = absurd (omega arith)
lead-start low (x ∷ spans) row zero r h = ground arith
lead-start low (x ∷ spans) row (suc i) r h =
    ground (arith, lead-start (x.1 + 2) spans row i r.2, starts-ge (x.1 + 2) spans i r.2)

module _ (spans : List Span) (row : ℕ) (runs : RunsFrom 0 spans) where
  bisect_loop-eq-lead :
      (fuel lo hi : ℕ)
      → lo ≤ lead spans row
      → lead spans row ≤ hi
      → hi ≤ length spans
      → hi - lo ≤ fuel
      → bisect_loop fuel (starts spans) row lo hi ≡ lead spans row
  unfolding bisect_loop
  bisect_loop-eq-lead zero lo hi a b c d = omega arith
  bisect_loop-eq-lead (suc fuel) lo hi a b c d = ground (
    arith,
    lead-start 0 spans row ((lo + hi) / 2) runs,
    bisect_loop-eq-lead fuel lo ((lo + hi) / 2),
    bisect_loop-eq-lead fuel ((lo + hi) / 2 + 1) hi,
  )

  -- The search returns the number of runs that start at the row or before it.
  bisect_right-eq-lead : bisect_right spans row ≡ lead spans row
  unfolding bisect_right
  bisect_right-eq-lead =
      bisect_loop-eq-lead (length spans) 0 (length spans) (omega arith) (lead-le-length spans row)
        (omega arith) (omega arith)

abbrev tested : List Span → ℕ → ℕ → Bool
tested spans row n = elim n [ zero ↦ false | suc index ↦ holds (span_at spans index) row ]

pub covers-beyond :
    (low : ℕ) (spans : List Span) (row : ℕ)
    → RunsFrom low spans
    → row < low
    → covers spans row ≡ false
covers-beyond low [] row r h = refl
covers-beyond low (x ∷ spans) row r h = ground (arith, covers-beyond (x.1 + 2) spans row r.2)

lead-low :
    (low : ℕ) (spans : List Span) (row k : ℕ)
    → RunsFrom low spans
    → lead spans row ≡ suc k
    → low ≤ row
unfolding lead
lead-low low [] row k r h = absurd (omega arith)
lead-low low (x ∷ spans) row k r h = ground arith

tested-lead_step :
    (x : Span) (spans : List Span) (row n : ℕ)
    → lead spans row ≡ n
    → x.0 ≤ x.1
    → RunsFrom (x.1 + 2) spans
    → tested spans row (lead spans row) ≡ covers spans row
    → tested (x ∷ spans) row (lead (x ∷ spans) row) ≡ covers (x ∷ spans) row
unfolding lead
tested-lead_step x spans row zero e run r ih = ground (arith, covers-beyond (x.1 + 2) spans row r)
tested-lead_step x spans row (suc k) e run r ih =
    let low = lead-low (x.1 + 2) spans row k r e in
    elim (Bool-cases (leb x.0 row)) [
      | inl starts_before ↦
          let more : lead (x ∷ spans) row ≡ suc (suc k) = ground arith in
          let rest : covers spans row ≡ covers (x ∷ spans) row = ground arith in
          ap (tested (x ∷ spans) row) more ∙ sym (ap (tested spans row) e) ∙ ih ∙ rest
      | inr starts_after ↦ absurd (ground arith)
    ]

-- Only the last run that starts at the row or before it can hold the row.
tested-lead :
    (low : ℕ) (spans : List Span) (row : ℕ)
    → RunsFrom low spans
    → tested spans row (lead spans row) ≡ covers spans row
unfolding lead
tested-lead low [] row r = refl
tested-lead low (x ∷ spans) row r =
    tested-lead_step x spans row (lead spans row) refl r.1 r.2 (tested-lead (x.1 + 2) spans row r.2)

-- On merged runs the search decides whether some run holds the row.
pub span_has-eq-covers :
    (spans : List Span) (row : ℕ) → RunsFrom 0 spans → span_has spans row ≡ covers spans row
unfolding span_has
span_has-eq-covers [] row r = refl
span_has-eq-covers (x ∷ spans) row r =
    ap (tested (x ∷ spans) row) (bisect_right-eq-lead (x ∷ spans) row r)
    ∙ tested-lead 0 (x ∷ spans) row r
