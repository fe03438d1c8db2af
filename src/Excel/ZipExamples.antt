-- ===== src/Excel/ZipExamples.antt =====
-- The archive checks on concrete members.
use finance_context_builder.Base.{◌≤◌, ◌≡◌, ◌↔◌, refl, true, false, [], ◌∷◌, some, all}
use finance_context_builder.Base.Text.{Text}
use finance_context_builder.Excel.ZipGuard.{
  passed, refused, ZipInfo, PackageFile, zip_or_other, zip_slip, compression_ratio, check_zip_info,
  is_missing, open_xlsx_zip,
}
use finance_context_builder.Excel.ZipGuard.Accepted.{
  is_plain, is_safe, total_size, open_xlsx_zip_lem,
}

abbrev same_text : Text → Text
same_text text = text

-- xl/a.xml
abbrev part : ZipInfo
part = record {
  filename = b'x' ∷ b'l' ∷ b'/' ∷ b'a' ∷ b'.' ∷ b'x' ∷ b'm' ∷ b'l' ∷ [];
  file_size = 100_000;
  compress_size = 1000;
}

-- a\..\b
abbrev outside : ZipInfo
outside = record {
  filename = b'a' ∷ b'\\' ∷ b'.' ∷ b'.' ∷ b'\\' ∷ b'b' ∷ [];
  file_size = 1;
  compress_size = 1;
}

abbrev bomb : ZipInfo
bomb = record part { compress_size = 500 }

-- Below 4096 bytes the ratio is not looked at.
abbrev small : ZipInfo
small = record part { file_size = 4000; compress_size = 10 }

exempt : check_zip_info same_text true small 5 ≡ passed 4005
unfolding check_zip_info
exempt = refl

checks :
    (check_zip_info same_text true part 5 ≡ passed 100_005)
    × (check_zip_info same_text true outside 5 ≡ refused zip_slip)
    × (check_zip_info same_text true bomb 5 ≡ refused compression_ratio)
unfolding check_zip_info
checks = (refl, refl, refl)

abbrev book : PackageFile
book = record { size = some 9000; kind = zip_or_other; members = some (part ∷ []) }

open_xlsx_zip_lem_example : (open_xlsx_zip same_text true book ≡ passed (part ∷ [])) ↔ (
    (is_missing book.size ≡ false)
    × (book.kind ≡ zip_or_other)
    × (book.members ≡ some (part ∷ []))
    × (all is_plain (part ∷ []) ≡ true)
    × (all (is_safe same_text true) (part ∷ []) ≡ true)
    × (total_size (part ∷ []) ≤ 2_147_483_648))
open_xlsx_zip_lem_example = open_xlsx_zip_lem same_text true book (part ∷ [])
