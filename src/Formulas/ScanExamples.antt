-- ===== src/Formulas/ScanExamples.antt =====
-- The scanner on concrete formulas.
use finance_context_builder.Base.{ℕ, ◌≡◌, refl, true, false, ◌||◌, ◌&&◌, [], ◌∷◌, Option, leb}
use finance_context_builder.Base.Eq.{◌==◌, nat_eq}
use finance_context_builder.Base.Text.{Text, int}
use finance_context_builder.Base.Sample.{sample}
use finance_context_builder.Excel.Columns.{col_to_index, upper}
use finance_context_builder.Formulas.Syntax.{number, string, name, ref, op, le, lparen, rparen, sep}
use finance_context_builder.Formulas.Characters.{Characters}
use finance_context_builder.Formulas.References.{quoted, tail_of, refer, block, here}
use finance_context_builder.Formulas.Scan.{scan_reference, scan_number}
use finance_context_builder.Formulas.Tokenizer.{
  tokenize, scan_round, scan_word, scan_float, scan_sign, find_error, done,
}
use Prim.Native.String.{String}
use Prim.Native.Char.{code}

abbrev pub codes : String → Text
codes String.[] = []
codes (String.◌∷◌ c s) = code c ∷ codes s

-- White space, letters and digits of ASCII.
abbrev pub ascii : Characters
ascii = record {
  digits = sample;
  is_space = λ c. c == 32;
  is_alpha = λ c. leb b'A' c && leb c b'Z' || leb b'a' c && leb c b'z';
  is_alnum = λ c. leb b'A' c && leb c b'Z' || leb b'a' c && leb c b'z' || leb 48 c && leb c 57;
}

-- Whole numbers, in place of floats.
abbrev pub whole : Text → Option ℕ
whole text = int sample text

sums :
    tokenize ascii whole b'.' b',' (codes "SUM($B$2:B7, \"a\"\"b\")<=12")
    ≡ done (
        name (codes "SUM")
        ∷ lparen
        ∷ ref (
            refer here (
              block
                (record {
                  col = record { index = 2; fixed = true };
                  row = record { index = 2; fixed = true };
                })
                (record {
                  col = record { index = 2; fixed = false };
                  row = record { index = 7; fixed = false };
                })))
        ∷ sep
        ∷ string (codes "a\"b")
        ∷ rparen
        ∷ op le
        ∷ number 12
        ∷ [])
unfolding tokenize scan_round scan_word scan_reference scan_float scan_number scan_sign quoted
    find_error int col_to_index upper tail_of
sums = refl
