-- ===== src/Excel/Addresses/Derived.antt =====
-- The test `is_derived_addr` of excel/a1.py, on ASCII and on other digits.
use finance_context_builder.Base.{
  ℕ, zero, suc, ◌<◌, ◌≤◌, ◌≡◌, ◌≢◌, refl, sym, subst, ◌∙◌, Bool, not, ◌||◌, List-cases, true, false,
  [], ◌∷◌, ◌++◌, arith, All, some, none, inl, inr, Bool-cases, ap, length, length-append, drop, all,
  leb,
}
use finance_context_builder.Base.Eq.{◌==◌, nat_eq, list_eq, list_beq_iff}
use finance_context_builder.Base.Text.{
  IsAsciiDigit, Text, Unicode, str, int, int-str, int-ascii, all-is_digit, str_of_int, str-digits,
  str-head,
}
use finance_context_builder.Excel.Columns.{index_to_col}
use finance_context_builder.Excel.Addresses.{
  starts_with, format_addr, has_leading_zero, derived_tail, is_derived_addr,
}

starts_with-append : (p t : Text) → starts_with (p ++ t) p ≡ true
unfolding starts_with
starts_with-append [] t = ground arith
starts_with-append (c ∷ p) t = ground (arith, starts_with-append p t)

starts_with-eq : (text p : Text) → starts_with text p ≡ true → text ≡ p ++ drop (length p) text
unfolding starts_with
starts_with-eq text [] h = refl
starts_with-eq [] (c ∷ p) h = ground arith
starts_with-eq (x ∷ text) (c ∷ p) h = ground (arith, starts_with-eq text p)

drop-append : (p t : Text) → drop (length p) (p ++ t) ≡ t
drop-append [] t = refl
drop-append (c ∷ p) t = drop-append p t

All-drop : (n : ℕ) (t : Text) → All (λ c. c < 128) t → All (λ c. c < 128) (drop n t)
All-drop zero t h = h
All-drop (suc n) [] h = tt
All-drop (suc n) (c ∷ t) h = All-drop n t h.1

append_cancel : (p s t : Text) → p ++ s ≡ p ++ t → s ≡ t
append_cancel p s t e = sym (drop-append p s) ∙ ap (drop (length p)) e ∙ drop-append p t

has_leading_zero-str :
    (c : ℕ) (t : Text) (row : ℕ) → c ∷ t ≡ str row → has_leading_zero (c ∷ t) ≡ false
unfolding has_leading_zero
has_leading_zero-str c t row e =
    let (d, rest, numeral, alone) = str-head row in ground (arith, alone)

beq-append : (p s t : Text) → (p ++ s == p ++ t) ≡ (s == t)
beq-append [] s t = refl
beq-append (c ∷ p) s t = ground (arith, beq-append p s t)

-- The width and prefix tests let through exactly the texts that go on after the letters.
abbrev rejects : Text → Text → Bool
rejects addr letters = leb (length addr) (length letters) || not (starts_with addr letters)

rejects-append : (p : Text) (c : ℕ) (t : Text) → rejects (p ++ c ∷ t) p ≡ false
rejects-append p c t = ground (arith, starts_with-append p (c ∷ t), length-append p (c ∷ t))

passes-append :
    (addr p : Text) → rejects addr p ≡ false → (c : ℕ) × (t : Text) × (addr ≡ p ++ c ∷ t)
passes-append addr p h = elim (List-cases (drop (length p) addr)) [
  | inl nothing ↦
      let split : addr ≡ p ++ [] = ground (arith, starts_with-eq addr p) in
      absurd (ground (arith, length-append p [], ap length split))
  | inr (c, t, e) ↦ (c, t, ground (arith, starts_with-eq addr p))
]

leading_zero_alone : (c : ℕ) (t : Text) → has_leading_zero (c ∷ t) ≡ false → c ≡ 48 → t ≡ []
unfolding has_leading_zero
leading_zero_alone c [] h e = refl
leading_zero_alone c (d ∷ t) h e = ground arith

module _ (u : Unicode) where
  numeral_passes :
      (c : ℕ) (t : Text) (row : ℕ)
      → c ∷ t ≡ str row
      → (all u.is_digit (c ∷ t) ≡ true)
        × (has_leading_zero (c ∷ t) ≡ false)
        × (int u (c ∷ t) ≡ some row)
  numeral_passes c t row e = (
    all-is_digit u (c ∷ t) (subst (All IsAsciiDigit) (sym e) (str-digits row)),
    has_leading_zero-str c t row e,
    subst (λ x. int u x ≡ some row) (sym e) (int-str u row),
  )

  passes_numeral :
      (c : ℕ) (t : Text)
      → All (λ x. x < 128) (c ∷ t)
      → all u.is_digit (c ∷ t) ≡ true
      → has_leading_zero (c ∷ t) ≡ false
      → (v : ℕ) × (int u (c ∷ t) ≡ some v) × (str v ≡ c ∷ t)
  passes_numeral c t h digits no_zero =
      let (v, e) = int-ascii u c t h digits in
      (v, e, str_of_int u c v t h (leading_zero_alone c t no_zero) e)

  -- On an ASCII tail the tests decide whether it is the numeral of the row.
  derived_tail_lem :
      (c : ℕ) (t : Text) (row : ℕ)
      → All (λ x. x < 128) (c ∷ t)
      → derived_tail u (c ∷ t) row ≡ some (c ∷ t == str row)
  unfolding derived_tail
  derived_tail_lem c t row h = elim (Bool-cases (c ∷ t == str row)) [
    | inl same ↦
        let (digits, no_zero, value) =
          numeral_passes c t row ((list_beq_iff (c ∷ t) (str row)).0 same) in
        ground arith
    | inr other ↦ elim (Bool-cases (all u.is_digit (c ∷ t))) [
      | inl digits ↦ elim (Bool-cases (has_leading_zero (c ∷ t))) [
        | inl zero_first ↦ ground arith
        | inr no_zero ↦
            let (v, value, numeral) = passes_numeral c t h digits no_zero in
            ground (arith, list_beq_iff (c ∷ t) (str row))
      ]
      | inr not_digits ↦ ground arith
    ]
  ]

  -- `is_derived_addr` on a text that starts with the letters.
  is_derived_addr-append :
      (col : ℕ) (c : ℕ) (tail : Text) (row : ℕ)
      → is_derived_addr u (index_to_col col ++ c ∷ tail) col row ≡ derived_tail u (c ∷ tail) row
  unfolding is_derived_addr
  is_derived_addr-append col c tail row =
      let p = index_to_col col in
      ground (
        arith,
        starts_with-append p (c ∷ tail),
        drop-append p (c ∷ tail),
        length-append p (c ∷ tail),
      )

  -- On ASCII texts `is_derived_addr` never raises, and is true of the formatted address alone.
  pub is_derived_addr_ascii :
      (addr : Text) (col row : ℕ)
      → All (λ c. c < 128) addr
      → is_derived_addr u addr col row ≡ some (addr == format_addr col row)
  unfolding is_derived_addr format_addr
  is_derived_addr_ascii addr col row h =
      let p = index_to_col col in
      let (d, digits, numeral, _) = str-head row in
      elim (Bool-cases (rejects addr p)) [
        | inl reject ↦ ground (arith, list_beq_iff addr (p ++ str row), rejects-append p d digits)
        | inr pass ↦
            let (c, t, split) = passes-append addr p pass in
            let tail : All (λ x. x < 128) (c ∷ t) =
              subst (All (λ x. x < 128)) (drop-append p (c ∷ t))
                (All-drop (length p) (p ++ c ∷ t) (subst (All (λ x. x < 128)) split h)) in
            subst (λ a. is_derived_addr u a col row ≡ some (a == p ++ str row)) (sym split)
              (is_derived_addr-append col c t row
                ∙ derived_tail_lem c t row tail
                ∙ ap some (sym (beq-append p (c ∷ t) (str row))))
      ]

  -- A digit of another script passes for the row, though the address is not the formatted one.
  pub is_derived_addr_other_digit :
      (col row ch : ℕ)
      → 128 ≤ ch
      → u.decimal ch ≡ some row
      → (is_derived_addr u (index_to_col col ++ ch ∷ []) col row ≡ some true)
        × (index_to_col col ++ ch ∷ [] ≢ format_addr col row)
  unfolding derived_tail has_leading_zero format_addr int
  is_derived_addr_other_digit col row ch h e = (
    is_derived_addr-append col ch [] row ∙ ground (arith, u.decimal_digit ch row e),
    λ same.
        let tail = append_cancel (index_to_col col) (ch ∷ []) (str row) same in
        let digits = subst (All IsAsciiDigit) (sym tail) (str-digits row) in absurd (omega arith),
  )

  -- A character that `str.isdigit` takes and `int` does not makes the call raise ValueError.
  pub is_derived_addr_raises :
      (col row ch : ℕ)
      → u.is_digit ch ≡ true
      → u.decimal ch ≡ none
      → is_derived_addr u (index_to_col col ++ ch ∷ []) col row ≡ none
  unfolding derived_tail has_leading_zero int
  is_derived_addr_raises col row ch d e = is_derived_addr-append col ch [] row ∙ ground arith
