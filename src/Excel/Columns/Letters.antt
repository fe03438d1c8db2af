-- ===== src/Excel/Columns/Letters.antt =====
-- The letters of a column and its number, `col_to_index` and `index_to_col` of excel/a1.py.
use finance_context_builder.Base.{
  ℕ, zero, suc, ◌+◌, ◌-◌, ◌*◌, ◌/◌, ◌%◌, ◌≤◌, ◌<◌, max, ◌≡◌, ◌⊎◌, refl, ◌∙◌, [], ◌∷◌, ◌++◌, map,
  arith, All, append_assoc, append-nil, subst, Bool-cases, inl, inr, ◌==◌,
}
use finance_context_builder.Base.Text.{Text}
use finance_context_builder.Excel.Columns.{upper, col_loop, col_to_index, col_letters, index_to_col}

abbrev pub IsLetter : ℕ → Type 0
IsLetter c = ((b'A' ≤ c) × (c ≤ b'Z')) ⊎ ((b'a' ≤ c) × (c ≤ b'z'))

abbrev pub IsCapital : ℕ → Type 0
IsCapital c = (b'A' ≤ c) × (c ≤ b'Z')

col_loop-col_letters :
    (fuel value : ℕ) (chars : Text)
    → value ≤ fuel
    → col_loop 0 (col_letters fuel value chars) ≡ col_loop value chars
unfolding col_loop col_letters upper
col_loop-col_letters zero value chars h = ground arith
col_loop-col_letters (suc fuel) value chars h =
    ground (arith, col_loop-col_letters fuel ((value - 1) / 26) ((65 + (value - 1) % 26) ∷ chars))

-- The letters of a column index read back as that index; 0 stands for column 1.
pub col_to_index-index_to_col : (n : ℕ) → col_to_index (index_to_col n) ≡ max n 1
unfolding col_to_index index_to_col
col_to_index-index_to_col n = col_loop-col_letters (max n 1) (max n 1) [] (omega arith)

col_letters-fuel :
    (f g value : ℕ) (chars : Text)
    → value ≤ f
    → value ≤ g
    → col_letters f value chars ≡ col_letters g value chars
unfolding col_letters
col_letters-fuel zero zero value chars p q = refl
col_letters-fuel zero (suc g) value chars p q = ground arith
col_letters-fuel (suc f) zero value chars p q = ground arith
col_letters-fuel (suc f) (suc g) value chars p q =
    ground (arith, col_letters-fuel f g ((value - 1) / 26) ((65 + (value - 1) % 26) ∷ chars))

col_letters-append :
    (f value : ℕ) (chars more : Text)
    → col_letters f value (chars ++ more) ≡ col_letters f value chars ++ more
unfolding col_letters
col_letters-append zero value chars more = refl
col_letters-append (suc f) value chars more =
    ground (arith, col_letters-append f ((value - 1) / 26) ((65 + (value - 1) % 26) ∷ chars) more)

col_letters-step :
    (f n d : ℕ) (chars : Text)
    → 0 < d
    → d ≤ 26
    → n * 26 + d ≤ f
    → col_letters f (n * 26 + d) chars ≡ col_letters n n ((64 + d) ∷ chars)
unfolding col_letters
col_letters-step zero n d chars p q h = absurd (omega arith)
col_letters-step (suc f) n d chars p q h =
    let quotient : (n * 26 + d - 1) / 26 ≡ n = omega arith in
    let letter : 65 + (n * 26 + d - 1) % 26 ≡ 64 + d = omega arith in
    ground (arith, col_letters-fuel f n n ((64 + d) ∷ chars))

letters_snoc :
    (n d : ℕ)
    → 0 < d
    → d ≤ 26
    → col_letters (n * 26 + d) (n * 26 + d) [] ≡ col_letters n n [] ++ (64 + d) ∷ []
letters_snoc n d p q =
    col_letters-step (n * 26 + d) n d [] p q (omega arith)
    ∙ col_letters-append n n [] ((64 + d) ∷ [])

upper_range : (c : ℕ) → IsLetter c → IsCapital (upper c)
unfolding upper
upper_range c h = ground arith

letters-col_loop :
    (n : ℕ) (col : Text)
    → All IsLetter col
    → col_letters (col_loop n col) (col_loop n col) [] ≡ col_letters n n [] ++ map upper col
unfolding col_loop
letters-col_loop n [] h = ground (arith, append-nil (col_letters n n []))
letters-col_loop n (c ∷ col) h =
    let range = upper_range c h.0 in
    let d : ℕ = upper c - 64 in
    let letter : 64 + d ≡ upper c = omega arith in
    let ih = letters-col_loop (n * 26 + d) col h.1 in
    ground (
      arith,
      ih,
      letters_snoc n d (omega arith) (omega arith),
      append_assoc (col_letters n n []) ((64 + d) ∷ []) (map upper col),
    )

col_loop-le : (n : ℕ) (col : Text) → All IsLetter col → n ≤ col_loop n col
unfolding col_loop
col_loop-le n [] h = omega arith
col_loop-le n (c ∷ col) h =
    omega (arith, col_loop-le (n * 26 + (upper c - 64)) col h.1, upper_range c h.0)

-- A column of letters has an index of at least 1.
pub col_to_index-pos : (c : ℕ) (col : Text) → All IsLetter (c ∷ col) → 0 < col_to_index (c ∷ col)
unfolding col_to_index col_loop
col_to_index-pos c col h =
    omega (arith, col_loop-le (0 * 26 + (upper c - 64)) col h.1, upper_range c h.0)

-- The index of a column of letters prints as those letters in capitals.
pub index_to_col-col_to_index :
    (c : ℕ) (col : Text)
    → All IsLetter (c ∷ col)
    → index_to_col (col_to_index (c ∷ col)) ≡ map upper (c ∷ col)
unfolding index_to_col col_to_index
index_to_col-col_to_index c col h =
    let pos = col_to_index-pos c col h in
    let clamp : max (col_loop 0 (c ∷ col)) 1 ≡ col_loop 0 (c ∷ col) = omega arith in
    ground (arith, letters-col_loop 0 (c ∷ col) h)

col_letters-capitals :
    (f value : ℕ) (chars : Text) → All IsCapital chars → All IsCapital (col_letters f value chars)
unfolding col_letters
col_letters-capitals zero value chars h = h
col_letters-capitals (suc f) value chars h = elim (Bool-cases (value == 0)) [
  | inl stop ↦
      let done : chars ≡ col_letters (suc f) value chars = ground arith in
      subst (All IsCapital) done h
  | inr go_on ↦
      let c = 65 + (value - 1) % 26 in
      let next : col_letters f ((value - 1) / 26) (c ∷ chars) ≡ col_letters (suc f) value chars =
        ground arith in
      subst (All IsCapital) next
        (col_letters-capitals f ((value - 1) / 26) (c ∷ chars) (omega arith, h))
]

col_letters-zero : (f : ℕ) (chars : Text) → col_letters f 0 chars ≡ chars
unfolding col_letters
col_letters-zero zero chars = refl
col_letters-zero (suc f) chars = refl

col_letters-cons :
    (f value : ℕ) (chars : Text)
    → 0 < value
    → value ≤ f
    → (c : ℕ) × (rest : Text) × (col_letters f value chars ≡ c ∷ rest)
unfolding col_letters
col_letters-cons zero value chars p h = absurd (omega arith)
col_letters-cons (suc f) value chars p h = elim (Bool-cases ((value - 1) / 26 == 0)) [
  | inl last ↦
      let quotient : (value - 1) / 26 ≡ 0 = ground arith in
      let stop = col_letters-zero f ((65 + (value - 1) % 26) ∷ chars) in
      (65 + (value - 1) % 26, chars, ground arith)
  | inr more ↦
      let (c, rest, e) =
        col_letters-cons f ((value - 1) / 26) ((65 + (value - 1) % 26) ∷ chars) (ground arith)
          (omega arith) in
      (c, rest, ground arith)
]

-- A column is spelled in capitals, at least one.
pub index_to_col-capitals :
    (n : ℕ) → (c : ℕ) × (rest : Text) × (index_to_col n ≡ c ∷ rest) × All IsCapital (c ∷ rest)
unfolding index_to_col
index_to_col-capitals n =
    let (c, rest, e) = col_letters-cons (max n 1) (max n 1) [] (omega arith) (omega arith) in
    (c, rest, e, subst (All IsCapital) e (col_letters-capitals (max n 1) (max n 1) [] tt))
