-- ===== src/Graph/Segments.antt =====
-- The segments of a balanced tree that cover an interval: `_cover` of graph/ranges.py.
use finance_context_builder.Base.{
  ℕ, zero, suc, ◌+◌, ◌-◌, ◌*◌, ◌/◌, ◌≤◌, ◌<◌, min, max, ◌≡◌, refl, true, false, ◌&&◌, ◌||◌, List,
  [], ◌∷◌, leb, ltb, arith, Bool-cases, inl, inr,
}
use finance_context_builder.Formulas.Spans.{Span, covers}

-- Every round pops a segment; `fuel` bounds the rounds.
unfoldable pub cover_loop : ℕ → List Span → ℕ → ℕ → List Span
cover_loop zero stack want_lo want_hi = []
cover_loop (suc fuel) [] want_lo want_hi = []
cover_loop (suc fuel) ((a, b) ∷ stack) want_lo want_hi = elim (ltb b want_lo || ltb want_hi a) [
  | true ↦ cover_loop fuel stack want_lo want_hi
  | false ↦ elim (leb want_lo a && leb b want_hi) [
    | true ↦ (a, b) ∷ cover_loop fuel stack want_lo want_hi
    | false ↦
        let mid = (a + b) / 2 in cover_loop fuel ((a, mid) ∷ (mid + 1, b) ∷ stack) want_lo want_hi
  ]
]

-- A segment of n cells has 2 n - 1 segments in its tree.
unfoldable pub cover : ℕ → ℕ → ℕ → ℕ → List Span
unfolding cover_loop
cover lo hi want_lo want_hi = cover_loop (2 * (hi - lo) + 1) ((lo, hi) ∷ []) want_lo want_hi

-- Segments from `low` on that are not empty and follow each other without an overlap.
abbrev pub Ascending : ℕ → List Span → Type 0
Ascending low [] = Unit
Ascending low ((a, b) ∷ rest) = (low ≤ a) × (a ≤ b) × Ascending (b + 1) rest

-- the rounds that a stack takes at most
abbrev rounds : List Span → ℕ
rounds [] = 0
rounds ((a, b) ∷ rest) = 2 * (b - a) + 1 + rounds rest

-- A segment that is split is not a single cell, and its halves take the rounds that are left.
halves_lem :
    (fuel low a b : ℕ) (stack : List Span) (p q : ℕ)
    → Ascending low ((a, b) ∷ stack)
    → rounds ((a, b) ∷ stack) ≤ suc fuel
    → p ≤ q
    → (ltb b p || ltb q a) ≡ false
    → (leb p a && leb b q) ≡ false
    → (a < b)
      × Ascending low ((a, (a + b) / 2) ∷ ((a + b) / 2 + 1, b) ∷ stack)
      × (rounds ((a, (a + b) / 2) ∷ ((a + b) / 2 + 1, b) ∷ stack) ≤ fuel)
halves_lem fuel low a b stack p q asc enough h meets splits =
    let wide : a < b = ground arith in
    (wide, (asc.0, omega arith, (omega arith, omega arith, asc.2)), omega arith)

Ascending-lower :
    (high low : ℕ) (xs : List Span) → low ≤ high → Ascending high xs → Ascending low xs
Ascending-lower high low [] h asc = tt
Ascending-lower high low ((a, b) ∷ xs) h asc = (omega arith, asc.1, asc.2)

cover_loop-covers :
    (fuel low : ℕ) (stack : List Span) (want_lo want_hi row : ℕ)
    → Ascending low stack
    → rounds stack ≤ fuel
    → want_lo ≤ want_hi
    → covers (cover_loop fuel stack want_lo want_hi) row
      ≡ (covers stack row && (leb want_lo row && leb row want_hi))
unfolding cover_loop
cover_loop-covers zero low [] p q row asc enough h = refl
cover_loop-covers zero low ((a, b) ∷ stack) p q row asc enough h = absurd (omega arith)
cover_loop-covers (suc fuel) low [] p q row asc enough h = refl
cover_loop-covers (suc fuel) low ((a, b) ∷ stack) p q row asc enough h =
    elim (Bool-cases (ltb b p || ltb q a)) [
      | inl apart ↦
          ground (arith, cover_loop-covers fuel (b + 1) stack p q row asc.2 (omega arith) h)
      | inr meets ↦ elim (Bool-cases (leb p a && leb b q)) [
        | inl inside ↦
            ground (arith, cover_loop-covers fuel (b + 1) stack p q row asc.2 (omega arith) h)
        | inr splits ↦
            let (mid, asc', enough') =
              halves_lem fuel low a b stack p q asc enough h meets splits in
            ground (
              arith,
              cover_loop-covers fuel low ((a, (a + b) / 2) ∷ ((a + b) / 2 + 1, b) ∷ stack) p q row
                  asc' enough' h,
            )
      ]
    ]

cover_loop-Ascending :
    (fuel low : ℕ) (stack : List Span) (want_lo want_hi : ℕ)
    → Ascending low stack
    → rounds stack ≤ fuel
    → want_lo ≤ want_hi
    → Ascending low (cover_loop fuel stack want_lo want_hi)
unfolding cover_loop
cover_loop-Ascending zero low stack p q asc enough h = tt
cover_loop-Ascending (suc fuel) low [] p q asc enough h = tt
cover_loop-Ascending (suc fuel) low ((a, b) ∷ stack) p q asc enough h =
    let rest : Ascending (b + 1) (cover_loop fuel stack p q) =
      cover_loop-Ascending fuel (b + 1) stack p q asc.2 (omega arith) h in
    elim (Bool-cases (ltb b p || ltb q a)) [
      | inl apart ↦
          rw (apart, Ascending)
            (Ascending-lower (b + 1) low (cover_loop fuel stack p q) (omega arith) rest)
      | inr meets ↦ elim (Bool-cases (leb p a && leb b q)) [
        | inl inside ↦ rw (meets, inside, Ascending) (asc.0, asc.1, rest)
        | inr splits ↦
            let (mid, asc', enough') =
              halves_lem fuel low a b stack p q asc enough h meets splits in
            rw (meets, splits, Ascending)
              (cover_loop-Ascending fuel low ((a, (a + b) / 2) ∷ ((a + b) / 2 + 1, b) ∷ stack) p q
                asc' enough' h)
      ]
    ]

-- The segments that `_cover` yields are in order, do not overlap, and hold exactly the wanted rows
-- of the whole segment.
pub cover_lem :
    (lo hi want_lo want_hi : ℕ)
    → lo ≤ hi
    → want_lo ≤ want_hi
    → Ascending lo (cover lo hi want_lo want_hi)
      × ((row : ℕ)
          → covers (cover lo hi want_lo want_hi) row
            ≡ (leb (max lo want_lo) row && leb row (min hi want_hi)))
unfolding cover
cover_lem lo hi p q h w =
    let asc : Ascending lo ((lo, hi) ∷ []) = (omega arith, h, tt) in
    (
      cover_loop-Ascending (2 * (hi - lo) + 1) lo ((lo, hi) ∷ []) p q asc (omega arith) w,
      λ row. ground (
        arith,
        cover_loop-covers (2 * (hi - lo) + 1) lo ((lo, hi) ∷ []) p q row asc (omega arith) w,
      ),
    )
