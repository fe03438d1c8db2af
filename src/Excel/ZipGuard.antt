-- ===== src/Excel/ZipGuard.antt =====
-- The checks on a workbook's archive, excel/zip_guard.py. A ContextError is a value.
pub mod Accepted
use finance_context_builder.Base.{
  ℕ, zero, suc, ◌+◌, ◌*◌, Bool, true, false, ◌&&◌, ◌||◌, not, List, [], ◌∷◌, leb, ltb,
  if◌then◌else◌, Option, none, some,
}
use finance_context_builder.Base.Eq.{◌==◌, nat_eq, list_eq}
use finance_context_builder.Base.Text.{Text}

-- "zip_rejected" with its details, and the other codes.
pub data Refusal : Type 0 where
  absolute_path zip_slip part_too_large archive_too_large compression_ratio not_a_zip : Refusal
  empty_file encrypted_workbook legacy_xls unknown_ole2 : Refusal

pub data Checked (A : Type 0) : Type 0 where
  passed : A → Checked A
  refused : Refusal → Checked A

infixl 5 ◌>>=◌ ◌>>◌
abbrev pub ◌>>=◌ : {A B : Type 0} → Checked A → (A → Checked B) → Checked B
passed a >>= f = f a
refused why >>= f = refused why

abbrev pub ◌>>◌ : {A B : Type 0} → Checked A → Checked B → Checked B
first >> second = first >>= λ done. second

-- zipfile.ZipInfo
pub record ZipInfo : Type 0 where
  pub filename : Text
  pub file_size : ℕ
  pub compress_size : ℕ

abbrev pub max_part_bytes : ℕ
max_part_bytes = 536_870_912

abbrev pub max_total_bytes : ℕ
max_total_bytes = 2_147_483_648

abbrev pub max_compression_ratio : ℕ
max_compression_ratio = 50

abbrev pub xml_max_compression_ratio : ℕ
xml_max_compression_ratio = 200

abbrev pub ratio_min_uncompressed : ℕ
ratio_min_uncompressed = 4096

-- name.replace("\\", "/")
unfoldable pub slashes : Text → Text
slashes [] = []
slashes (c ∷ rest) = (if c == b'\\' then b'/' else c) ∷ slashes rest

unfoldable pub starts_with : Text → Text → Bool
starts_with text [] = true
starts_with [] (c ∷ prefix) = false
starts_with (d ∷ text) (c ∷ prefix) = d == c && starts_with text prefix

unfoldable pub ends_with : Text → Text → Bool
ends_with [] suffix = [] == suffix
ends_with (c ∷ text) suffix = (c ∷ text) == suffix || ends_with text suffix

-- "xl/", "xl/worksheets/" and ".xml"
abbrev xl_part : Text
xl_part = b'x' ∷ b'l' ∷ b'/' ∷ []

abbrev sheets_part : Text
sheets_part =
    b'x' ∷ b'l' ∷ b'/' ∷ b'w' ∷ b'o' ∷ b'r' ∷ b'k' ∷ b's' ∷ b'h' ∷ b'e' ∷ b'e' ∷ b't' ∷ b's' ∷ b'/'
    ∷ []

abbrev xml_suffix : Text
xml_suffix = b'.' ∷ b'x' ∷ b'm' ∷ b'l' ∷ []

-- text.split("/"): the part before the first slash, and the parts after it
unfoldable pub split_slash : Text → Text × List Text
split_slash [] = ([], [])
split_slash (c ∷ rest) =
    let (part, parts) = split_slash rest in
    if c == b'/' then ([], part ∷ parts) else (c ∷ part, parts)

abbrev pub dot_dot : Text
dot_dot = b'.' ∷ b'.' ∷ []

unfoldable pub mentions : List Text → Text → Bool
mentions [] text = false
mentions (x ∷ xs) text = x == text || mentions xs text

abbrev pub starts_at_root : Text → Bool
starts_at_root [] = false
starts_at_root (c ∷ rest) = c == b'/' || c == b'\\'

unfoldable pub has_dot_dot : Text → Bool
unfolding split_slash mentions
has_dot_dot normalized =
    let (part, parts) = split_slash normalized in part == dot_dot || mentions parts dot_dot

unfoldable pub check_zip_name : Text → Checked Unit
unfolding slashes has_dot_dot
check_zip_name name =
    let normalized = slashes name in
    if starts_at_root normalized
    then refused absolute_path
    else if has_dot_dot normalized
    then refused zip_slip
    else passed tt

abbrev last_or : Text → List Text → Text
last_or text [] = text
last_or text (x ∷ xs) = last_or x xs

-- text.rsplit("/", 1)[-1]
unfoldable pub last_part : Text → Text
unfolding split_slash
last_part text = let (part, parts) = split_slash text in last_or part parts

-- "EncryptedPackage" and "EncryptionInfo"
abbrev encrypted_package : Text
encrypted_package =
    b'E' ∷ b'n' ∷ b'c' ∷ b'r' ∷ b'y' ∷ b'p' ∷ b't' ∷ b'e' ∷ b'd' ∷ b'P' ∷ b'a' ∷ b'c' ∷ b'k' ∷ b'a'
    ∷ b'g' ∷ b'e' ∷ []

abbrev encryption_info : Text
encryption_info =
    b'E' ∷ b'n' ∷ b'c' ∷ b'r' ∷ b'y' ∷ b'p' ∷ b't' ∷ b'i' ∷ b'o' ∷ b'n' ∷ b'I' ∷ b'n' ∷ b'f' ∷ b'o'
    ∷ []

-- `names` of `open_xlsx_zip` holds one of the two
unfoldable pub is_encrypted : List ZipInfo → Bool
unfolding last_part slashes
is_encrypted [] = false
is_encrypted (info ∷ rest) =
    last_part (slashes info.filename) == encrypted_package
    || last_part (slashes info.filename) == encryption_info
    || is_encrypted rest

-- What `is_ole2_file` and `ole2_kind` say of the file.
pub data Ole2Kind : Type 0 where
  zip_or_other encrypted xls other_ole2 : Ole2Kind

-- The file at the path: its size when it exists, its kind, and the members when it is a zip.
pub record PackageFile : Type 0 where
  pub size : Option ℕ
  pub kind : Ole2Kind
  pub members : Option (List ZipInfo)

unfoldable pub reject_ole2 : Ole2Kind → Checked Unit
reject_ole2 zip_or_other = passed tt
reject_ole2 encrypted = refused encrypted_workbook
reject_ole2 xls = refused legacy_xls
reject_ole2 other_ole2 = refused unknown_ole2

-- `not path.exists() or path.stat().st_size == 0`
abbrev pub is_missing : Option ℕ → Bool
is_missing none = true
is_missing (some size) = size == 0

module _ (lower : Text → Text) (streaming : Bool) where
  -- None is no limit
  unfoldable pub max_ratio : Text → Option ℕ
  unfolding slashes starts_with ends_with
  max_ratio name =
      let normalized = lower (slashes name) in
      if starts_with normalized sheets_part && ends_with normalized xml_suffix
      then if streaming then none else some max_compression_ratio
      else if starts_with normalized xl_part && ends_with normalized xml_suffix
      then some xml_max_compression_ratio
      else some max_compression_ratio

  -- `compressed <= 0 or file_size / compressed >= limit`. A part that gets here has at most 2^29
  -- bytes, so the rounded float quotient reaches the whole limit exactly where the sizes do.
  abbrev pub over_ratio : ZipInfo → Option ℕ → Bool
  over_ratio info none = false
  over_ratio info (some limit) =
      leb ratio_min_uncompressed info.file_size
      && (info.compress_size == 0 || leb (limit * info.compress_size) info.file_size)

  unfoldable pub check_zip_info : ZipInfo → ℕ → Checked ℕ
  unfolding check_zip_name max_ratio
  check_zip_info info running_total = do
    check_zip_name info.filename
    let total = running_total + info.file_size in
        if ltb max_part_bytes info.file_size
        then refused part_too_large
        else if ltb max_total_bytes total
        then refused archive_too_large
        else if over_ratio info (max_ratio info.filename)
        then refused compression_ratio
        else passed total

  -- the loop of `open_xlsx_zip` over the members
  unfoldable pub check_members : List ZipInfo → ℕ → Checked ℕ
  unfolding check_zip_info
  check_members [] total = passed total
  check_members (info ∷ rest) total = do
    total' ← check_zip_info info total
    check_members rest total'

  -- the members of the archive that it opens
  unfoldable pub open_xlsx_zip : PackageFile → Checked (List ZipInfo)
  unfolding reject_ole2 is_encrypted check_members
  open_xlsx_zip file = if is_missing file.size then refused empty_file else do
    reject_ole2 file.kind
    elim file.members [
      | none ↦ refused not_a_zip
      | some infos ↦
          if is_encrypted infos
          then refused encrypted_workbook
          else do check_members infos 0; passed infos
    ]
