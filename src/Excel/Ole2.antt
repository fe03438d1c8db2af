-- ===== src/Excel/Ole2.antt =====
-- The names in the directory of an OLE2 file, excel/ole2.py. The file is its bytes; str.casefold and
-- the decoding of UTF-16 are parameters.
pub mod Chains
pub mod Rounds
pub mod Walks
pub mod Directory
pub mod Kinds
use finance_context_builder.Base.{
  ℕ, zero, suc, ◌+◌, ◌-◌, ◌*◌, ◌/◌, ◌%◌, min, Bool, true, false, ◌&&◌, ◌||◌, not, List, [], ◌∷◌,
  ◌++◌, map, Option, none, some, if◌then◌else◌, leb, ltb, length, take, drop, get_elem?,
}
use finance_context_builder.Base.Eq.{◌==◌, nat_eq, list_eq}
use finance_context_builder.Base.Dict.{Dict, get, put}
use finance_context_builder.Base.Text.{Text}
use finance_context_builder.Excel.ZipGuard.{Ole2Kind, zip_or_other, encrypted, xls, other_ole2}

-- The places that raise ValueError.
pub data Fault : Type 0 where
  not_ole2 sector_size chain_loops chain_endless out_of_range short_sector outside_fat difat_loops :
      Fault

pub data Read (A : Type 0) : Type 0 where
  failed : Fault → Read A
  read : A → Read A

abbrev pub signature : List ℕ
signature = 208 ∷ 207 ∷ 17 ∷ 224 ∷ 161 ∷ 177 ∷ 26 ∷ 225 ∷ []

abbrev pub header_size : ℕ
header_size = 512

abbrev pub dir_entry : ℕ
dir_entry = 128

abbrev pub max_sector : ℕ
max_sector = 4294967290

abbrev pub end_of_chain : ℕ
end_of_chain = 4294967294

-- "workbook", "book", "encryptioninfo" and "encryptedpackage"
abbrev pub xls_streams : List Text
xls_streams =
    (b'w' ∷ b'o' ∷ b'r' ∷ b'k' ∷ b'b' ∷ b'o' ∷ b'o' ∷ b'k' ∷ [])
    ∷ (b'b' ∷ b'o' ∷ b'o' ∷ b'k' ∷ [])
    ∷ []

abbrev pub encryption_streams : List Text
encryption_streams =
    (b'e' ∷ b'n' ∷ b'c' ∷ b'r' ∷ b'y' ∷ b'p' ∷ b't' ∷ b'i' ∷ b'o' ∷ b'n' ∷ b'i' ∷ b'n' ∷ b'f' ∷ b'o'
      ∷ [])
    ∷ (b'e' ∷ b'n' ∷ b'c' ∷ b'r' ∷ b'y' ∷ b'p' ∷ b't' ∷ b'e' ∷ b'd' ∷ b'p' ∷ b'a' ∷ b'c' ∷ b'k'
        ∷ b'a' ∷ b'g' ∷ b'e' ∷ [])
    ∷ []

-- data[start : start + count]
abbrev pub slice : ℕ → ℕ → List ℕ → List ℕ
slice start count bytes = take count (drop start bytes)

-- data[i], of an index within the data
unfoldable pub byte_at : List ℕ → ℕ → ℕ
byte_at bytes i = elim (get_elem? bytes i) [ none ↦ 0 | some byte ↦ byte ]

-- "<H" and "<I" of struct, at an offset within the data
unfoldable pub u16 : List ℕ → ℕ → ℕ
unfolding byte_at
u16 bytes i = byte_at bytes i + 256 * byte_at bytes (i + 1)

unfoldable pub u32 : List ℕ → ℕ → ℕ
unfolding u16
u32 bytes i = u16 bytes i + 65536 * u16 bytes (i + 2)

-- "<nI" of struct
unfoldable pub words : List ℕ → List ℕ
words (a ∷ b ∷ c ∷ d ∷ rest) = (a + 256 * b + 65536 * (c + 256 * d)) ∷ words rest
words _ = []

unfoldable pub is_ole2 : List ℕ → Bool
is_ole2 head = take 8 head == signature

unfoldable pub has_sector : ℕ → List ℕ → Bool
has_sector sector [] = false
has_sector sector (other ∷ others) = other == sector || has_sector sector others

-- `_Sectors.count`
abbrev pub sector_count : List ℕ → ℕ → ℕ
sector_count file size = length file / size

-- `_Sectors.read`
unfoldable pub read_sector : List ℕ → ℕ → ℕ → Read (List ℕ)
read_sector file size sector =
    if ltb max_sector sector || ltb (length file) ((sector + 2) * size)
    then failed out_of_range
    else let bytes = slice ((sector + 1) * size) size file in
      if not (length bytes == size) then failed short_sector else read bytes

-- `_Sectors._fat`
abbrev pub FatCache : Type 0
FatCache = Dict ℕ (List ℕ)

-- `_Sectors.next`, with the cache after it
unfoldable pub next : List ℕ → ℕ → List ℕ → ℕ → FatCache → Read (ℕ × FatCache)
unfolding byte_at words
next file size fat sector cache =
    let index = sector / (size / 4) in
    let place = sector % (size / 4) in
    elim (get_elem? fat index) [
      | none ↦ failed outside_fat
      | some sid ↦ elim (get cache index) [
        | some values ↦ read (byte_at values place, cache)
        | none ↦ elim (read_sector file size sid) [
          | failed fault ↦ failed fault
          | read bytes ↦ read (byte_at (words bytes) place, put cache index (words bytes))
        ]
      ]
    ]

-- `sid <= _MAX_SECTOR` of a list
unfoldable pub in_range : List ℕ → List ℕ
in_range [] = []
in_range (sid ∷ sids) = if leb sid max_sector then sid ∷ in_range sids else in_range sids

-- values[:-1] and values[-1]
unfoldable pub without_last : List ℕ → List ℕ
without_last [] = []
without_last (_ ∷ []) = []
without_last (x ∷ y ∷ rest) = x ∷ without_last (y ∷ rest)

unfoldable pub last_of : List ℕ → ℕ
last_of [] = 0
last_of (x ∷ []) = x
last_of (_ ∷ y ∷ rest) = last_of (y ∷ rest)

-- The `while` loop of `_fat_sectors`, by `remaining`.
unfoldable pub difat_loop : List ℕ → ℕ → ℕ → ℕ → ℕ → List ℕ → List ℕ → Read (List ℕ)
unfolding words in_range without_last last_of has_sector
difat_loop file size count zero sector seen found = read found
difat_loop file size count (suc remaining) sector seen found =
    elim (ltb max_sector sector || leb count (length found)) [
      | true ↦ read found
      | false ↦ elim (has_sector sector seen) [
        | true ↦ failed difat_loops
        | false ↦ elim (read_sector file size sector) [
          | failed fault ↦ failed fault
          | read bytes ↦
              difat_loop file size count remaining (last_of (words bytes)) (sector ∷ seen)
                (found ++ in_range (without_last (words bytes)))
        ]
      ]
    ]

unfoldable pub fat_sectors : List ℕ → List ℕ → ℕ → Read (List ℕ)
unfolding u32 words in_range difat_loop
fat_sectors header file size =
    let limit = sector_count file size in
    let count = min (u32 header 44) limit in
    elim (difat_loop file size count (min (u32 header 72) limit) (u32 header 68) []
      (in_range (words (slice 76 436 header)))) [
        | failed fault ↦ failed fault
        | read found ↦ read (take count found)
      ]

abbrev pub is_entry_type : ℕ → Bool
is_entry_type kind = kind == 1 || (kind == 2 || kind == 5)

abbrev pub is_wanted : List Text → Text → Bool
is_wanted [] name = false
is_wanted (other ∷ others) name = other == name || is_wanted others name

-- A set of names is the list of them in the order of the file.
abbrev pub has_name : List Text → List Text → Bool
has_name wanted [] = false
has_name wanted (name ∷ names) = is_wanted wanted name || has_name wanted names

module _ (decode : List ℕ → Text) where
  -- `_entry_name`
  unfoldable pub entry_name : List ℕ → Option Text
  unfolding byte_at u16
  entry_name entry =
      if ltb (length entry) dir_entry || not (is_entry_type (byte_at entry 66))
      then none
      else let length = u16 entry 64 in
        if not (leb 2 length && leb length 64) || not (length % 2 == 0)
        then none
        else some (decode (take (length - 2) entry))

  abbrev pub with_name : Option Text → List Text → List Text
  with_name none names = names
  with_name (some name) names = name ∷ names

  -- The names of a sector, in rounds of an entry each.
  unfoldable pub entries : ℕ → List ℕ → List Text
  unfolding entry_name
  entries zero bytes = []
  entries (suc rounds) [] = []
  entries (suc rounds) (byte ∷ bytes) =
      with_name (entry_name (take dir_entry (byte ∷ bytes)))
        (entries rounds (drop dir_entry (byte ∷ bytes)))

  unfoldable pub sector_names : List ℕ → List Text
  unfolding entries
  sector_names bytes = entries (length bytes) bytes

  -- The `for` loop of `_entry_names`; the fuel is its rounds.
  unfoldable pub chain_loop :
      List ℕ → ℕ → List ℕ → ℕ → ℕ → List ℕ → List Text → FatCache → Read (List Text)
  unfolding has_sector read_sector next sector_names
  chain_loop file size fat zero sector seen names cache = failed chain_endless
  chain_loop file size fat (suc rounds) sector seen names cache = elim (sector == end_of_chain) [
    | true ↦ read names
    | false ↦ elim (ltb max_sector sector || has_sector sector seen) [
      | true ↦ failed chain_loops
      | false ↦ elim (read_sector file size sector) [
        | failed fault ↦ failed fault
        | read bytes ↦ elim (next file size fat sector cache) [
          | failed fault ↦ failed fault
          | read (after, kept) ↦
              chain_loop file size fat rounds after (sector ∷ seen) (names ++ sector_names bytes)
                kept
        ]
      ]
    ]
  ]

  -- What is read of the header: the size of a sector, the sectors of the table, the first sector.
  unfoldable pub open_sectors : List ℕ → Read (ℕ × List ℕ × ℕ)
  unfolding is_ole2 u16 u32 fat_sectors
  open_sectors file =
      let header = take header_size file in
      let shift = u16 header 30 in
      if ltb (length header) header_size || not (is_ole2 header)
      then failed not_ole2
      else if not (shift == 9 || shift == 12)
      then failed sector_size
      else let size = if shift == 9 then 512 else 4096 in
        elim (fat_sectors header file size) [
          | failed fault ↦ failed fault
          | read fat ↦ read (size, fat, u32 header 48)
        ]

  -- `_entry_names`
  unfoldable pub entry_names : List ℕ → Read (List Text)
  unfolding open_sectors chain_loop
  entry_names file = elim (open_sectors file) [
    | failed fault ↦ failed fault
    | read (size, fat, start) ↦ chain_loop file size fat (sector_count file size) start [] [] []
  ]

  module _ (casefold : Text → Text) where
    -- `ole2_kind`
    unfoldable pub ole2_kind : List ℕ → Ole2Kind
    unfolding entry_names
    ole2_kind file = elim (entry_names file) [
      | failed _ ↦ other_ole2
      | read found ↦
          let names = map casefold found in
          if has_name encryption_streams names
          then encrypted
          else if has_name xls_streams names
          then xls
          else other_ole2
    ]

    -- What `reject_ole2` of zip_guard.py asks of a file.
    unfoldable pub file_kind : List ℕ → Ole2Kind
    unfolding is_ole2 ole2_kind
    file_kind file = if is_ole2 (take 8 file) then ole2_kind file else zip_or_other
