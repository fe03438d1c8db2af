-- ===== src/Excel/ZipGuard/Accepted.antt =====
-- Which archives the checks accept.
use finance_context_builder.Base.{
  ◌++◌, Bool-cases, ℕ, ◌+◌, ◌≤◌, ◌≡◌, ◌↔◌, ◌⊎◌, refl, Bool, true, false, ◌&&◌, not, List, [], ◌∷◌,
  leb, some, arith, Option-cases, inl, inr, all, if◌then◌else◌, ltb, ◌||◌, ◌*◌, Option, none,
}
use finance_context_builder.Base.Eq.{◌==◌, nat_eq, list_eq}
use finance_context_builder.Base.Text.{Text}
use finance_context_builder.Excel.ZipGuard.{
  dot_dot, mentions, split_slash, Checked, passed, refused, ZipInfo, PackageFile, slashes,
  starts_at_root, has_dot_dot, check_zip_name, max_ratio, over_ratio, check_zip_info, check_members,
  is_encrypted, reject_ole2, is_missing, open_xlsx_zip, zip_or_other, last_part, last_or,
  starts_with, ends_with, Refusal,
}

-- The parts of a name between slashes of either kind: the first one, and the ones after it.
abbrev is_separator : ℕ → Bool
is_separator c = c == b'/' || c == b'\\'

unfoldable pub parts_of : Text → Text × List Text
parts_of [] = ([], [])
parts_of (c ∷ rest) =
    if is_separator c
    then ([], (parts_of rest).0 ∷ (parts_of rest).1)
    else (c ∷ (parts_of rest).0, (parts_of rest).1)

abbrev pub is_parent : Text → Bool
is_parent part = part == b'.' ∷ b'.' ∷ []

abbrev pub is_rooted : Text → Bool
is_rooted [] = false
is_rooted (c ∷ rest) = is_separator c

-- A name that stays below the directory it is written to.
unfoldable pub is_inside : Text → Bool
unfolding parts_of
is_inside name =
    not (is_rooted name)
    && (not (is_parent (parts_of name).0) && all (λ part. not (is_parent part)) (parts_of name).1)

parts_of-slashes : (name : Text) → split_slash (slashes name) ≡ parts_of name
unfolding split_slash slashes parts_of
parts_of-slashes [] = refl
parts_of-slashes (c ∷ rest) = elim (Bool-cases (c == b'\\')) [
  | inl back ↦ ground (arith, parts_of-slashes rest)
  | inr other ↦ ground (arith, parts_of-slashes rest)
]

mentions-all :
    (parts : List Text) → mentions parts dot_dot ≡ not (all (λ part. not (is_parent part)) parts)
unfolding mentions
mentions-all [] = refl
mentions-all (part ∷ parts) = ground (arith, mentions-all parts)

starts_at_root-slashes : (name : Text) → starts_at_root (slashes name) ≡ is_rooted name
unfolding slashes
starts_at_root-slashes [] = refl
starts_at_root-slashes (c ∷ rest) = ground arith

check_zip_name_lem : (name : Text) → (check_zip_name name ≡ passed tt) ↔ (is_inside name ≡ true)
unfolding check_zip_name has_dot_dot is_inside
check_zip_name_lem name =
    rw (starts_at_root-slashes name, parts_of-slashes name, mentions-all)
      (ground (arith, mentions-all (parts_of name).1))

abbrev pub last_in : Text → List Text → Text
last_in first [] = first
last_in first (next ∷ parts) = last_in next parts

abbrev is_encryption_part : Text → Bool
is_encryption_part part =
    part
      == b'E' ∷ b'n' ∷ b'c' ∷ b'r' ∷ b'y' ∷ b'p' ∷ b't' ∷ b'e' ∷ b'd' ∷ b'P' ∷ b'a' ∷ b'c' ∷ b'k'
        ∷ b'a' ∷ b'g' ∷ b'e' ∷ []
    || part
      == b'E' ∷ b'n' ∷ b'c' ∷ b'r' ∷ b'y' ∷ b'p' ∷ b't' ∷ b'i' ∷ b'o' ∷ b'n' ∷ b'I' ∷ b'n' ∷ b'f'
        ∷ b'o' ∷ []

-- A member whose last part is not one that an encrypted workbook has.
unfoldable pub is_plain : ZipInfo → Bool
unfolding parts_of
is_plain info =
    not (is_encryption_part (last_in (parts_of info.filename).0 (parts_of info.filename).1))

last_or_lem : (first : Text) (parts : List Text) → last_or first parts ≡ last_in first parts
last_or_lem first [] = refl
last_or_lem first (next ∷ parts) = last_or_lem next parts

last_part-slashes :
    (name : Text) → last_part (slashes name) ≡ last_in (parts_of name).0 (parts_of name).1
unfolding last_part
last_part-slashes name =
    rw (parts_of-slashes name) (last_or_lem (parts_of name).0 (parts_of name).1)

is_encrypted_lem : (infos : List ZipInfo) → is_encrypted infos ≡ not (all is_plain infos)
unfolding is_encrypted is_plain
is_encrypted_lem [] = refl
is_encrypted_lem (info ∷ infos) =
    rw (is_encrypted, last_part-slashes info.filename, is_encrypted_lem infos) (ground arith)

-- The limit of the ratio: of a sheet 50, or none where the sheets are streamed, of another XML part
-- 200, and of any other member 50.
unfoldable pub ratio_limit : (Text → Text) → Bool → Text → Option ℕ
ratio_limit lower streaming name =
    let text = lower (slashes name) in
    let is_xml = ends_with text (b'.' ∷ b'x' ∷ b'm' ∷ b'l' ∷ []) in
    if not (is_xml && starts_with text (b'x' ∷ b'l' ∷ b'/' ∷ []))
    then some 50
    else if not (
        starts_with text (
          b'x' ∷ b'l' ∷ b'/' ∷ b'w' ∷ b'o' ∷ b'r' ∷ b'k' ∷ b's' ∷ b'h' ∷ b'e' ∷ b'e' ∷ b't' ∷ b's'
          ∷ b'/' ∷ []))
    then some 200
    else if streaming
    then none
    else some 50

-- A member below 4096 bytes is exempt; another one that has a limit is compressed to some bytes, and
-- its size is below so many times theirs.
unfoldable pub is_below : Option ℕ → ZipInfo → Bool
is_below none info = true
is_below (some limit) info =
    ltb info.file_size 4096
    || ltb 0 info.compress_size && ltb info.file_size (limit * info.compress_size)

over_ratio_lem :
    (lower : Text → Text) (streaming : Bool) (info : ZipInfo) (limit : Option ℕ)
    → over_ratio lower streaming info limit ≡ not (is_below limit info)
unfolding is_below
over_ratio_lem lower streaming info none = refl
over_ratio_lem lower streaming info (some limit) = ground arith

starts_with-append :
    (text prefix more : Text)
    → starts_with text (prefix ++ more) ≡ true
    → starts_with text prefix ≡ true
unfolding starts_with
starts_with-append text [] more h = refl
starts_with-append [] (c ∷ prefix) more h = absurd (ground arith)
starts_with-append (d ∷ text) (c ∷ prefix) more h =
    ground (arith, starts_with-append text prefix more)

-- The two orders of the tests give the same limit, since a sheet is an XML part.
limit_choice :
    (is_sheet is_part is_xml streaming : Bool) (usual larger : Option ℕ)
    → (is_sheet ≡ true → is_part ≡ true)
    → (if is_sheet && is_xml
        then if streaming then none else usual
        else if is_part && is_xml
        then larger
        else usual)
      ≡ (if not (is_xml && is_part)
          then usual
          else if not is_sheet
          then larger
          else if streaming
          then none
          else usual)
limit_choice true true true streaming usual larger h = refl
limit_choice true true false streaming usual larger h = refl
limit_choice true false is_xml streaming usual larger h = absurd (ground arith)
limit_choice false true true streaming usual larger h = refl
limit_choice false true false streaming usual larger h = refl
limit_choice false false true streaming usual larger h = refl
limit_choice false false false streaming usual larger h = refl

max_ratio_lem :
    (lower : Text → Text) (streaming : Bool) (name : Text)
    → max_ratio lower streaming name ≡ ratio_limit lower streaming name
unfolding max_ratio ratio_limit
max_ratio_lem lower streaming name =
    let text = lower (slashes name) in
    limit_choice
      (starts_with text (
        b'x' ∷ b'l' ∷ b'/' ∷ b'w' ∷ b'o' ∷ b'r' ∷ b'k' ∷ b's' ∷ b'h' ∷ b'e' ∷ b'e' ∷ b't' ∷ b's'
        ∷ b'/' ∷ []))
      (starts_with text (b'x' ∷ b'l' ∷ b'/' ∷ [])) (ends_with text (b'.' ∷ b'x' ∷ b'm' ∷ b'l' ∷ []))
      streaming (some 50) (some 200)
      (starts_with-append text (b'x' ∷ b'l' ∷ b'/' ∷ [])
        (b'w' ∷ b'o' ∷ b'r' ∷ b'k' ∷ b's' ∷ b'h' ∷ b'e' ∷ b'e' ∷ b't' ∷ b's' ∷ b'/' ∷ []))

abbrev pub total_size : List ZipInfo → ℕ
total_size [] = 0
total_size (info ∷ rest) = info.file_size + total_size rest

Checked-cases :
    {A : Type 0} (c : Checked A)
    → ((a : A) × (c ≡ passed a)) ⊎ ((why : Refusal) × (c ≡ refused why))
Checked-cases (passed a) = inl (a, refl)
Checked-cases (refused why) = inr (why, refl)

module _ (lower : Text → Text) (streaming : Bool) where
  -- A member that is acceptable by itself.
  abbrev pub is_safe : ZipInfo → Bool
  is_safe info =
      is_inside info.filename
      && leb info.file_size 536_870_912
      && is_below (ratio_limit lower streaming info.filename) info

  check_zip_info_lem :
      (info : ZipInfo) (total total' : ℕ)
      → (check_zip_info lower streaming info total ≡ passed total') ↔ (
          (is_safe info ≡ true)
          × (total + info.file_size ≤ 2_147_483_648)
          × (total' ≡ total + info.file_size))
  unfolding check_zip_info
  check_zip_info_lem info total total' = rw (max_ratio_lem lower streaming info.filename) (
      ground (
        arith,
        check_zip_name_lem info.filename,
        over_ratio_lem lower streaming info (ratio_limit lower streaming info.filename),
      ))

  check_members_lem :
      (infos : List ZipInfo) (total total' : ℕ)
      → total ≤ 2_147_483_648
      → (check_members lower streaming infos total ≡ passed total') ↔ (
          (all is_safe infos ≡ true)
          × (total + total_size infos ≤ 2_147_483_648)
          × (total' ≡ total + total_size infos))
  unfolding check_members
  check_members_lem [] total total' h = ground arith
  check_members_lem (info ∷ rest) total total' h =
      elim (Checked-cases (check_zip_info lower streaming info total)) [
        | inl (total1, good) ↦
            let one = check_zip_info_lem info total total1 in
            ground (arith, one, check_members_lem rest total1 total')
        | inr (why, bad) ↦ ground (arith, check_zip_info_lem info total (total + info.file_size))
      ]

  -- The archive is opened exactly when the file exists and is not empty, is no OLE2 file but a zip
  -- without the parts of an encrypted workbook, and every member is inside its directory, not too
  -- large and not compressed too well, and the sizes add up to at most the limit.
  pub open_xlsx_zip_lem :
      (file : PackageFile) (infos : List ZipInfo)
      → (open_xlsx_zip lower streaming file ≡ passed infos) ↔ (
          (is_missing file.size ≡ false)
          × (file.kind ≡ zip_or_other)
          × (file.members ≡ some infos)
          × (all is_plain infos ≡ true)
          × (all is_safe infos ≡ true)
          × (total_size infos ≤ 2_147_483_648))
  unfolding open_xlsx_zip reject_ole2
  open_xlsx_zip_lem file infos = elim (Option-cases file.members) [
    | inl no_zip ↦ ground arith
    | inr (found, is_zip) ↦ elim (Checked-cases (check_members lower streaming found 0)) [
      | inl (total, good) ↦ ground (arith, check_members_lem found 0 total, is_encrypted_lem found)
      | inr (why, bad) ↦
          ground (arith, check_members_lem found 0 (total_size found), is_encrypted_lem found)
    ]
  ]
