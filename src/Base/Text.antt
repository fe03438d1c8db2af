-- ===== src/Base/Text.antt =====
-- Python text as code points, decimal numerals (`str(n)`, `int(text)`), and the character classes
-- that depend on the Unicode database.
use finance_context_builder.Base.Tests.{ltb, Bool-cases, Option-cases}
use finance_context_builder.Base.Lists.{All, all}
use Prim.Native.Nat.{ℕ, zero, suc, ◌+◌, ◌-◌, ◌*◌, ◌/◌, ◌%◌, ◌≤◌, ◌<◌}
use mathlib.Core.Path.{◌≡◌, refl, ◌∙◌, subst}
use mathlib.Core.Logic.{inl, inr}
use mathlib.Core.Bool.{Bool, true, false}
use mathlib.Core.Option.{Option, none, some}
use mathlib.Core.List.{List, [], ◌∷◌, ◌++◌, append-nil, append_assoc}
use native.Mathlib.Omega.{arith}

abbrev pub Text : Type 0
Text = List ℕ

-- `decimal` is the class `\d` with the value that `int` reads, `is_digit` is `str.isdigit` of one
-- character. Both know more than the ASCII digits, and `is_digit` more than `decimal`.
pub record Unicode : Type 0 where
  pub decimal : ℕ → Option ℕ
  pub is_digit : ℕ → Bool
  pub decimal_ascii : (d : ℕ) → d < 10 → decimal (48 + d) ≡ some d
  pub decimal_range : (c d : ℕ) → decimal c ≡ some d → d < 10
  pub decimal_below : (c d : ℕ) → c < 128 → decimal c ≡ some d → c ≡ 48 + d
  pub decimal_digit : (c d : ℕ) → decimal c ≡ some d → is_digit c ≡ true
  pub digit_below : (c : ℕ) → c < 128 → is_digit c ≡ true → (d : ℕ) × (decimal c ≡ some d)

-- str(n)
str_loop : ℕ → ℕ → Text → Text
str_loop zero n acc = (48 + n) ∷ acc
str_loop (suc fuel) n acc = elim (ltb n 10) [
  | true ↦ (48 + n) ∷ acc
  | false ↦ str_loop fuel (n / 10) ((48 + n % 10) ∷ acc)
]

unfoldable pub str : ℕ → Text
unfolding str_loop
str n = str_loop n n []

str_loop-cons :
    (fuel n : ℕ) (acc : Text) → (c : ℕ) × (rest : Text) × (str_loop fuel n acc ≡ c ∷ rest)
unfolding str_loop
str_loop-cons zero n acc = (48 + n, acc, refl)
str_loop-cons (suc fuel) n acc = elim (Bool-cases (ltb n 10)) [
  | inl small ↦ (48 + n, acc, ground arith)
  | inr large ↦
      let (c, rest, e) = str_loop-cons fuel (n / 10) ((48 + n % 10) ∷ acc) in
      (c, rest, ground arith)
]

abbrev pub IsAsciiDigit : ℕ → Type 0
IsAsciiDigit c = (48 ≤ c) × (c < 58)

module _ (u : Unicode) where
  -- int(text) for a text of decimals: `none` is ValueError
  int_loop : ℕ → Text → Option ℕ
  int_loop n [] = some n
  int_loop n (c ∷ rest) = elim (u.decimal c) [ none ↦ none | some d ↦ int_loop (n * 10 + d) rest ]

  unfoldable pub int : Text → Option ℕ
  unfolding int_loop
  int [] = none
  int (c ∷ rest) = int_loop 0 (c ∷ rest)

  int_loop-str_loop :
      (fuel n : ℕ) (acc : Text) → n ≤ fuel → int_loop 0 (str_loop fuel n acc) ≡ int_loop n acc
  unfolding int_loop str_loop
  int_loop-str_loop zero n acc h =
      let e : n ≡ 0 = omega arith in rw (e, u.decimal_ascii 0 (omega arith))
  int_loop-str_loop (suc fuel) n acc h = ground (
    arith,
    u.decimal_ascii n,
    u.decimal_ascii (n % 10),
    int_loop-str_loop fuel (n / 10) ((48 + n % 10) ∷ acc),
  )

  -- `int` reads back what `str` writes.
  pub int-str : (n : ℕ) → int (str n) ≡ some n
  unfolding int str int_loop
  int-str n = let (c, rest, e) = str_loop-cons n n [] in ground (arith, int_loop-str_loop n n [])

-- The digits of a number, read from the left.
str_loop-fuel : (f g n : ℕ) (acc : Text) → n ≤ f → n ≤ g → str_loop f n acc ≡ str_loop g n acc
unfolding str_loop
str_loop-fuel zero zero n acc p q = refl
str_loop-fuel zero (suc g) n acc p q = ground arith
str_loop-fuel (suc f) zero n acc p q = ground arith
str_loop-fuel (suc f) (suc g) n acc p q =
    ground (arith, str_loop-fuel f g (n / 10) ((48 + n % 10) ∷ acc))

str_loop-append :
    (f n : ℕ) (acc more : Text) → str_loop f n (acc ++ more) ≡ str_loop f n acc ++ more
unfolding str_loop
str_loop-append zero n acc more = refl
str_loop-append (suc f) n acc more =
    ground (arith, str_loop-append f (n / 10) ((48 + n % 10) ∷ acc) more)

str_loop-step :
    (f n d : ℕ) (acc : Text)
    → 0 < n
    → d < 10
    → n * 10 + d ≤ f
    → str_loop f (n * 10 + d) acc ≡ str_loop n n ((48 + d) ∷ acc)
unfolding str_loop
str_loop-step zero n d acc p q h = absurd (omega arith)
str_loop-step (suc f) n d acc p q h =
    let quotient : (n * 10 + d) / 10 ≡ n = omega arith in
    let digit : (n * 10 + d) % 10 ≡ d = omega arith in
    ground (arith, str_loop-fuel f n n ((48 + d) ∷ acc))

-- The last digit stands last.
pub str_snoc : (n d : ℕ) → 0 < n → d < 10 → str (n * 10 + d) ≡ str n ++ (48 + d) ∷ []
unfolding str
str_snoc n d p q =
    str_loop-step (n * 10 + d) n d [] p q (omega arith) ∙ str_loop-append n n [] ((48 + d) ∷ [])

pub str_one : (d : ℕ) → d < 10 → str d ≡ (48 + d) ∷ []
unfolding str str_loop
str_one zero h = refl
str_one (suc d) h = ground arith

str_loop-digits :
    (f n : ℕ) (acc : Text) → n ≤ f → All IsAsciiDigit acc → All IsAsciiDigit (str_loop f n acc)
unfolding str_loop
str_loop-digits zero n acc h digits = (omega arith, digits)
str_loop-digits (suc f) n acc h digits = elim (Bool-cases (ltb n 10)) [
  | inl small ↦
      let one : (48 + n) ∷ acc ≡ str_loop (suc f) n acc = ground arith in
      subst (All IsAsciiDigit) one (ground arith, digits)
  | inr large ↦
      let more : str_loop f (n / 10) ((48 + n % 10) ∷ acc) ≡ str_loop (suc f) n acc =
        ground arith in
      subst (All IsAsciiDigit) more
        (str_loop-digits f (n / 10) ((48 + n % 10) ∷ acc) (omega arith) (omega arith, digits))
]

-- Every character of a numeral is an ASCII digit.
pub str-digits : (n : ℕ) → All IsAsciiDigit (str n)
unfolding str
str-digits n = str_loop-digits n n [] (omega arith) tt

str_loop-head :
    (f n : ℕ) (acc : Text)
    → 0 < n
    → n ≤ f
    → (c : ℕ) × (rest : Text) × (str_loop f n acc ≡ c ∷ rest) × (48 < c)
unfolding str_loop
str_loop-head zero n acc p h = absurd (omega arith)
str_loop-head (suc f) n acc p h = elim (Bool-cases (ltb n 10)) [
  | inl small ↦ (48 + n, acc, ground arith, omega arith)
  | inr large ↦
      let (c, rest, e, nonzero) =
        str_loop-head f (n / 10) ((48 + n % 10) ∷ acc) (ground arith) (omega arith) in
      (c, rest, ground arith, nonzero)
]

-- Only the numeral of zero starts with the digit zero, and that one has one digit.
pub str-head : (n : ℕ) → (c : ℕ) × (rest : Text) × (str n ≡ c ∷ rest) × (c ≡ 48 → rest ≡ [])
unfolding str
str-head zero = (48, [], str_one 0 (omega arith), λ _. refl)
str-head (suc n) =
    let (c, rest, e, nonzero) = str_loop-head (suc n) (suc n) [] (omega arith) (omega arith) in
    (c, rest, e, λ z. absurd (omega arith))

module _ (u : Unicode) where
  int_loop-numeral :
      (n r : ℕ) (rest : Text)
      → 0 < n
      → All (λ c. c < 128) rest
      → int_loop u n rest ≡ some r
      → str r ≡ str n ++ rest
  unfolding int_loop
  int_loop-numeral n r [] p h e = ground (arith, append-nil (str n))
  int_loop-numeral n r (c ∷ rest) p h e = elim (Option-cases (u.decimal c)) [
    | inl missing ↦ absurd (ground arith)
    | inr (d, found) ↦
        let d_range = u.decimal_range c d found in
        let ascii = u.decimal_below c d h.0 found in
        let ih : str r ≡ str (n * 10 + d) ++ rest =
          int_loop-numeral (n * 10 + d) r rest (omega arith) h.1 (ground arith) in
        ground (arith, str_snoc n d p d_range, append_assoc (str n) ((48 + d) ∷ []) rest)
  ]

  -- A numeral in ASCII without a leading zero is the one that `str` writes.
  pub str_of_int :
      (c r : ℕ) (rest : Text)
      → All (λ x. x < 128) (c ∷ rest)
      → (c ≡ 48 → rest ≡ [])
      → int u (c ∷ rest) ≡ some r
      → str r ≡ c ∷ rest
  unfolding int int_loop
  str_of_int c r rest h zero_alone e = elim (Option-cases (u.decimal c)) [
    | inl missing ↦ absurd (ground arith)
    | inr (d, found) ↦
        let d_range = u.decimal_range c d found in
        let ascii = u.decimal_below c d h.0 found in
        let reads : int_loop u d rest ≡ some r = ground arith in
        elim (Bool-cases (ltb 0 d)) [
          | inl pos ↦
              let ih = int_loop-numeral d r rest (ground arith) h.1 reads in
              ground (arith, str_one d d_range)
          | inr zero_digit ↦
              let alone = zero_alone (ground arith) in ground (arith, str_one 0 (omega arith))
        ]
  ]

  int_loop-ascii :
      (n : ℕ) (t : Text)
      → All (λ c. c < 128) t
      → all u.is_digit t ≡ true
      → (v : ℕ) × (int_loop u n t ≡ some v)
  unfolding int_loop
  int_loop-ascii n [] h d = (n, refl)
  int_loop-ascii n (c ∷ t) h d =
      let (k, e) = u.digit_below c h.0 (ground arith) in
      let (v, rest) = int_loop-ascii (n * 10 + k) t h.1 (ground arith) in (v, ground arith)

  -- A text of ASCII digits has a value.
  pub int-ascii :
      (c : ℕ) (t : Text)
      → All (λ x. x < 128) (c ∷ t)
      → all u.is_digit (c ∷ t) ≡ true
      → (v : ℕ) × (int u (c ∷ t) ≡ some v)
  unfolding int
  int-ascii c t h d = int_loop-ascii 0 (c ∷ t) h d

  pub all-is_digit : (t : Text) → All IsAsciiDigit t → all u.is_digit t ≡ true
  all-is_digit [] h = refl
  all-is_digit (c ∷ t) h =
      let d : ℕ = c - 48 in
      let e : 48 + d ≡ c = omega arith in
      let known : u.decimal c ≡ some d =
        subst (λ x. u.decimal x ≡ some d) e (u.decimal_ascii d (omega arith)) in
      ground (arith, all-is_digit t h.1, u.decimal_digit c d known)
