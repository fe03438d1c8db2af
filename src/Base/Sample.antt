-- ===== src/Base/Sample.antt =====
-- A small part of the Unicode database: the digits of ASCII and of the Arabic script, and the
-- superscript two, which `str.isdigit` takes and `int` does not.
use finance_context_builder.Base.Tests.{◌==◌, leb, if◌then◌else◌}
use finance_context_builder.Base.Text.{Unicode}
use Prim.Native.Nat.{ℕ, ◌+◌, ◌-◌, ◌<◌}
use mathlib.Core.Path.{◌≡◌}
use mathlib.Core.Bool.{Bool, true, ◌&&◌, ◌||◌}
use mathlib.Core.Option.{Option, none, some}
use native.Mathlib.Omega.{arith}

abbrev sample_decimal : ℕ → Option ℕ
sample_decimal c =
    if leb 48 c && leb c 57
    then some (c - 48)
    else if leb 1632 c && leb c 1641
    then some (c - 1632)
    else none

abbrev sample_digit : ℕ → Bool
sample_digit c = leb 48 c && leb c 57 || leb 1632 c && leb c 1641 || c == 178

pub sample_ascii : (d : ℕ) → d < 10 → sample_decimal (48 + d) ≡ some d
sample_ascii d h = ground arith

pub sample_range : (c d : ℕ) → sample_decimal c ≡ some d → d < 10
sample_range c d h = ground arith

pub sample_below : (c d : ℕ) → c < 128 → sample_decimal c ≡ some d → c ≡ 48 + d
sample_below c d h e = ground arith

pub sample_decimal_digit : (c d : ℕ) → sample_decimal c ≡ some d → sample_digit c ≡ true
sample_decimal_digit c d h = ground arith

pub sample_digit_below :
    (c : ℕ) → c < 128 → sample_digit c ≡ true → (d : ℕ) × (sample_decimal c ≡ some d)
sample_digit_below c h e = (c - 48, ground arith)

abbrev pub sample : Unicode
sample = record {
  decimal = sample_decimal;
  is_digit = sample_digit;
  decimal_ascii = sample_ascii;
  decimal_range = sample_range;
  decimal_below = sample_below;
  decimal_digit = sample_decimal_digit;
  digit_below = sample_digit_below;
}
