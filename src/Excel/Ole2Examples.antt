-- ===== src/Excel/Ole2Examples.antt =====
-- A file of two sectors: the table, and a directory with the stream of a legacy workbook.
use finance_context_builder.Base.{
  ◌==◌, ℕ, zero, suc, ◌≡◌, ◌↔◌, refl, List, [], ◌∷◌, ◌++◌, arith, length, if◌then◌else◌,
}
use finance_context_builder.Base.Dict.{get}
use finance_context_builder.Base.Text.{Text}
use finance_context_builder.Excel.ZipGuard.{
  reject_ole2, passed, refused, encrypted_workbook, legacy_xls, unknown_ole2,
}
use finance_context_builder.Excel.Ole2.{
  failed, read, open_sectors, entry_names, file_kind, signature, chain_endless,
}
use finance_context_builder.Excel.Ole2.Chains.{Chain}
use finance_context_builder.Excel.Ole2.Directory.{entry_names_lem}
use finance_context_builder.Excel.Ole2.Kinds.{
  HasSignature, HasStream, encryption_info, encrypted_package, workbook_stream, book_stream,
  reject_ole2-file_kind,
}

abbrev fill : ℕ → ℕ → List ℕ
fill byte zero = []
fill byte (suc count) = byte ∷ fill byte count

-- Every other byte, which is UTF-16 of ASCII.
abbrev decode : List ℕ → Text
decode (a ∷ b ∷ rest) = a ∷ decode rest
decode _ = []

-- str.casefold of "Book"
abbrev casefold : Text → Text
casefold [] = []
casefold (c ∷ text) = (if c == b'B' then b'b' else c) ∷ text

-- The table is sector 0, the directory sector 1.
abbrev header : List ℕ
header =
    signature
    ++ (fill 0 22
        ++ (9 ∷ 0 ∷ fill 0 12
            ++ (1 ∷ 0 ∷ 0 ∷ 0 ∷ 1 ∷ 0 ∷ 0 ∷ 0 ∷ fill 0 16
                ++ (fill 255 4 ++ (fill 0 8 ++ fill 255 432)))))

abbrev entry : List ℕ
entry = b'B' ∷ 0 ∷ b'o' ∷ 0 ∷ b'o' ∷ 0 ∷ b'k' ∷ 0 ∷ fill 0 56 ++ (10 ∷ 0 ∷ 2 ∷ fill 0 61)

abbrev file : List ℕ
file = header ++ ((fill 255 4 ++ (254 ∷ 255 ∷ 255 ∷ 255 ∷ fill 255 504)) ++ (entry ++ fill 0 384))

abbrev book : Text
book = b'B' ∷ b'o' ∷ b'o' ∷ b'k' ∷ []

len : length file ≡ 1536
len = refl

opened : open_sectors decode file ≡ read (512, 0 ∷ [], 1)
unfolding open_sectors
opened = refl

found : entry_names decode file ≡ read (book ∷ [])
unfolding entry_names get
found = refl

entry_names_lem_example :
    ((names : List Text)
      → (entry_names decode file ≡ read names)
        ↔ ((n : ℕ) × Chain file 512 (0 ∷ []) decode n 1 names))
    × ¬ (entry_names decode file ≡ failed chain_endless)
entry_names_lem_example = entry_names_lem decode file 512 (0 ∷ []) 1 opened (omega arith)

reject_ole2-file_kind_example :
    ((reject_ole2 (file_kind decode casefold file) ≡ passed tt)
      ↔ (¬ HasSignature decode casefold file))
    × ((reject_ole2 (file_kind decode casefold file) ≡ refused encrypted_workbook)
        ↔ HasStream decode casefold file encryption_info encrypted_package)
    × ((reject_ole2 (file_kind decode casefold file) ≡ refused legacy_xls) ↔ (
        HasStream decode casefold file workbook_stream book_stream
        × ¬ HasStream decode casefold file encryption_info encrypted_package))
    × ((reject_ole2 (file_kind decode casefold file) ≡ refused unknown_ole2) ↔ (
        HasSignature decode casefold file
        × (¬ HasStream decode casefold file encryption_info encrypted_package)
        × (¬ HasStream decode casefold file workbook_stream book_stream)))
reject_ole2-file_kind_example = reject_ole2-file_kind decode casefold file

legacy : reject_ole2 (file_kind decode casefold file) ≡ refused legacy_xls
unfolding file_kind reject_ole2 get
legacy = refl
