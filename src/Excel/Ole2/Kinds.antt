-- ===== src/Excel/Ole2/Kinds.antt =====
-- What reject_ole2 of excel/zip_guard.py answers on an OLE2 file, excel/ole2.py.
use finance_context_builder.Base.{
  ◌+◌, ◌*◌, ◌||◌, false, subst, ◌↔◌, ◌⊎◌, Memᴰ, ℕ, zero, suc, ◌≡◌, ◌≤◌, refl, sym, ap, ◌∙◌, true,
  List, [], ◌∷◌, map, arith, length, take, Bool-cases, inl, inr,
}
use finance_context_builder.Base.Eq.{list_beq_iff, ◌==◌, nat_eq, list_eq}
use finance_context_builder.Base.Text.{Text}
use finance_context_builder.Excel.ZipGuard.{
  Checked, passed, reject_ole2, refused, encrypted_workbook, legacy_xls, unknown_ole2,
}
use finance_context_builder.Excel.Ole2.{
  failed, sector_count, Fault, Read, chain_loop, read, open_sectors, is_ole2, entry_names,
  file_kind, ole2_kind, has_name, encryption_streams, xls_streams,
}
use finance_context_builder.Excel.Ole2.Chains.{Chain, Read-cases}
use finance_context_builder.Excel.Ole2.Rounds.{Chain-cases, read_sector_bounds}
use finance_context_builder.Excel.Ole2.Walks.{chain_loop_sound}
use finance_context_builder.Excel.Ole2.Directory.{
  entry_names_lem, nothing_stored, open_sectors-IsSectorSize,
}

take-take : {A : Type 0} (n m : ℕ) (xs : List A) → n ≤ m → take n (take m xs) ≡ take n xs
take-take zero m xs h = refl
take-take (suc n) zero xs h = absurd (omega arith)
take-take (suc n) (suc m) [] h = refl
take-take (suc n) (suc m) (x ∷ xs) h = ap (λ ys. x ∷ ys) (take-take n m xs (omega arith))

is_ole2_head : (file : List ℕ) → is_ole2 (take 512 file) ≡ is_ole2 (take 8 file)
unfolding is_ole2
is_ole2_head file = rw (take-take 8 512 file (omega arith), take-take 8 8 file (omega arith)) refl

-- The names that the case fold of a stream's name is compared with.
abbrev pub encryption_info : Text
encryption_info =
    b'e' ∷ b'n' ∷ b'c' ∷ b'r' ∷ b'y' ∷ b'p' ∷ b't' ∷ b'i' ∷ b'o' ∷ b'n' ∷ b'i' ∷ b'n' ∷ b'f' ∷ b'o'
    ∷ []

abbrev pub encrypted_package : Text
encrypted_package =
    b'e' ∷ b'n' ∷ b'c' ∷ b'r' ∷ b'y' ∷ b'p' ∷ b't' ∷ b'e' ∷ b'd' ∷ b'p' ∷ b'a' ∷ b'c' ∷ b'k' ∷ b'a'
    ∷ b'g' ∷ b'e' ∷ []

abbrev pub workbook_stream : Text
workbook_stream = b'w' ∷ b'o' ∷ b'r' ∷ b'k' ∷ b'b' ∷ b'o' ∷ b'o' ∷ b'k' ∷ []

abbrev pub book_stream : Text
book_stream = b'b' ∷ b'o' ∷ b'o' ∷ b'k' ∷ []

has_name-mem :
    (one other name : Text) (names : List Text)
    → Memᴰ name names
    → (name ≡ one) ⊎ (name ≡ other)
    → has_name (one ∷ other ∷ []) names ≡ true
has_name-mem one other name [] there which = elim there [ ]
has_name-mem one other name (x ∷ names) (Memᴰ.head same) which =
    let here : (one == x) || ((other == x) || false) ≡ true =
      ground (arith, list_beq_iff one x, list_beq_iff other x) in
    rw here refl
has_name-mem one other name (x ∷ names) (Memᴰ.tail there) which =
    ground (arith, has_name-mem one other name names there which)

mem-has_name :
    (one other : Text) (names : List Text)
    → has_name (one ∷ other ∷ []) names ≡ true
    → (name : Text) × Memᴰ name names × ((name ≡ one) ⊎ (name ≡ other))
mem-has_name one other [] h = absurd (ground arith)
mem-has_name one other (x ∷ names) h = elim (Bool-cases (one == x)) [
  | inl is_one ↦ (x, Memᴰ.head refl, inl (sym ((list_beq_iff one x).0 is_one)))
  | inr not_one ↦ elim (Bool-cases (other == x)) [
    | inl is_other ↦ (x, Memᴰ.head refl, inr (sym ((list_beq_iff other x).0 is_other)))
    | inr not_other ↦
        let (name, there, which) = mem-has_name one other names (ground arith) in
        (name, Memᴰ.tail there, which)
  ]
]

no_member : {name : Text} → ¬ Memᴰ name []
no_member h = elim h [ ]

-- One of the four answers, with what holds then of the signature and the streams.
abbrev IsAnswer : Checked Unit → Type 0 → Type 0 → Type 0 → Type 0
IsAnswer r signed encrypted_book old_book =
    ((r ≡ passed tt) × (¬ signed) × (¬ encrypted_book) × (¬ old_book))
    ⊎ ((r ≡ refused encrypted_workbook) × signed × encrypted_book)
    ⊎ ((r ≡ refused legacy_xls) × signed × (¬ encrypted_book) × old_book)
    ⊎ ((r ≡ refused unknown_ole2) × signed × (¬ encrypted_book) × (¬ old_book))

answers :
    (r : Checked Unit) (signed encrypted_book old_book : Type 0)
    → IsAnswer r signed encrypted_book old_book
    → ((r ≡ passed tt) ↔ (¬ signed))
      × ((r ≡ refused encrypted_workbook) ↔ encrypted_book)
      × ((r ≡ refused legacy_xls) ↔ (old_book × ¬ encrypted_book))
      × ((r ≡ refused unknown_ole2) ↔ (signed × (¬ encrypted_book) × (¬ old_book)))
answers r signed encrypted_book old_book (inl (e, no_sign, no_enc, no_old)) = (
  (λ _. no_sign, λ _. e),
  (λ e'. absurd (ground arith), λ enc. absurd (no_enc enc)),
  (λ e'. absurd (ground arith), λ (old, _). absurd (no_old old)),
  (λ e'. absurd (ground arith), λ (sign, _, _). absurd (no_sign sign)),
)
answers r signed encrypted_book old_book (inr (inl (e, sign, enc))) = (
  (λ e'. absurd (ground arith), λ no_sign. absurd (no_sign sign)),
  (λ _. enc, λ _. e),
  (λ e'. absurd (ground arith), λ (_, no_enc). absurd (no_enc enc)),
  (λ e'. absurd (ground arith), λ (_, no_enc, _). absurd (no_enc enc)),
)
answers r signed encrypted_book old_book (inr (inr (inl (e, sign, no_enc, old)))) = (
  (λ e'. absurd (ground arith), λ no_sign. absurd (no_sign sign)),
  (λ e'. absurd (ground arith), λ enc. absurd (no_enc enc)),
  (λ _. (old, no_enc), λ _. e),
  (λ e'. absurd (ground arith), λ (_, _, no_old). absurd (no_old old)),
)
answers r signed encrypted_book old_book (inr (inr (inr (e, sign, no_enc, no_old)))) = (
  (λ e'. absurd (ground arith), λ no_sign. absurd (no_sign sign)),
  (λ e'. absurd (ground arith), λ enc. absurd (no_enc enc)),
  (λ e'. absurd (ground arith), λ (old, _). absurd (no_old old)),
  (λ _. (sign, no_enc, no_old), λ _. e),
)

read_inj : {A : Type 0} {x y : A} → read x ≡ read y → x ≡ y
read_inj {A} {x} e = ap (λ (r : Read A). elim r [ failed _ ↦ x | read z ↦ z ]) e

module _ (decode : List ℕ → Text) (casefold : Text → Text) (file : List ℕ) where
  -- The directory of the file: its header and its table can be read, and the chain of its sectors
  -- ends.
  pub record Directory (names : List Text) : Type 0 where
    pub size : ℕ
    pub fat : List ℕ
    pub start : ℕ
    pub sectors : ℕ
    pub opened : open_sectors decode file ≡ read (size, fat, start)
    pub chain : Chain file size fat decode sectors start names

  -- The directory has a stream whose folded name is one of two.
  abbrev pub HasStream : Text → Text → Type 0
  HasStream one other =
      (names : List Text) × Directory names
      × ((name : Text) × Memᴰ name (map casefold names) × ((name ≡ one) ⊎ (name ≡ other)))

  open_sectors-is_ole2 :
      (size : ℕ) (fat : List ℕ) (start : ℕ)
      → open_sectors decode file ≡ read (size, fat, start)
      → is_ole2 (take 8 file) ≡ true
  unfolding open_sectors
  open_sectors-is_ole2 size fat start e = elim (Bool-cases (is_ole2 (take 512 file))) [
    | inl good ↦ sym (is_ole2_head file) ∙ good
    | inr bad ↦ absurd (ground arith)
  ]

  entry_names-Directory :
      (names : List Text) (name : Text)
      → Directory names
      → Memᴰ name (map casefold names)
      → entry_names decode file ≡ read names
  entry_names-Directory names name d there = elim (Chain-cases file d.size d.fat decode d.chain) [
    | inl (_, _, nothing) ↦
        absurd (no_member (subst (λ xs. Memᴰ name (map casefold xs)) nothing there))
    | inr (_, _, bytes, _, _, e, _, _, _) ↦
        let block = (read_sector_bounds file d.size d.start bytes e).1 in
        let fits : d.size ≤ length file =
          elim (open_sectors-IsSectorSize decode file d.size d.fat d.start d.opened) [
            | inl small ↦
                let room : (d.start + 2) * 512 ≤ length file =
                  subst (λ k. (d.start + 2) * k ≤ length file) small block in
                omega arith
            | inr large ↦
                let room : (d.start + 2) * 4096 ≤ length file =
                  subst (λ k. (d.start + 2) * k ≤ length file) large block in
                omega arith
          ] in
        ((entry_names_lem decode file d.size d.fat d.start d.opened fits).0 names).1
          (d.sectors, d.chain)
  ]

  Directory-entry_names :
      (found : List Text) → entry_names decode file ≡ read found → Directory found
  unfolding entry_names
  Directory-entry_names found e = elim (Read-cases (open_sectors decode file)) [
    | inl (fault, bad) ↦ absurd (ground arith)
    | inr ((size, fat, start), opened) ↦
        let walked : chain_loop decode file size fat (sector_count file size) start [] [] []
            ≡ read found =
          sym (rw (entry_names, opened) refl) ∙ e in
        let (n, rest, c, same) =
          chain_loop_sound decode file size fat (sector_count file size) start [] [] found []
            (nothing_stored decode file size fat) walked in
        record {
          size = size;
          fat = fat;
          start = start;
          sectors = n;
          opened = opened;
          chain = subst (Chain file size fat decode n start) (sym same) c;
        }
  ]

  has_name-HasStream :
      (one other : Text) (found : List Text)
      → entry_names decode file ≡ read found
      → HasStream one other ↔ (has_name (one ∷ other ∷ []) (map casefold found) ≡ true)
  has_name-HasStream one other found e = (
    λ (names, d, (name, there, which)).
        let same : names ≡ found = read_inj (sym (entry_names-Directory names name d there) ∙ e) in
        has_name-mem one other name (map casefold found)
          (subst (λ xs. Memᴰ name (map casefold xs)) same there) which,
    λ h. (found, Directory-entry_names found e, mem-has_name one other (map casefold found) h),
  )

  failed-HasStream :
      (one other : Text) (fault : Fault)
      → entry_names decode file ≡ failed fault
      → ¬ HasStream one other
  failed-HasStream one other fault e (names, d, (name, there, which)) =
      let read_out = entry_names-Directory names name d there in absurd (ground arith)

  -- The first eight bytes of the format.
  abbrev pub HasSignature : Type 0
  HasSignature = take 8 file ≡ 208 ∷ 207 ∷ 17 ∷ 224 ∷ 161 ∷ 177 ∷ 26 ∷ 225 ∷ []

  is_ole2-HasSignature : (is_ole2 (take 8 file) ≡ true) ↔ HasSignature
  unfolding is_ole2
  is_ole2-HasSignature = rw (take-take 8 8 file (omega arith)) (list_beq_iff (take 8 file) _)

  unsigned-HasStream : (one other : Text) → is_ole2 (take 8 file) ≡ false → ¬ HasStream one other
  unsigned-HasStream one other bad (names, d, (name, there, which)) =
      let good = open_sectors-is_ole2 d.size d.fat d.start d.opened in absurd (ground arith)

  file_kind-IsAnswer :
      IsAnswer
        (reject_ole2 (file_kind decode casefold file))
        HasSignature
        (HasStream encryption_info encrypted_package)
        (HasStream workbook_stream book_stream)
  unfolding file_kind ole2_kind reject_ole2
  file_kind-IsAnswer = elim (Bool-cases (is_ole2 (take 8 file))) [
    | inr bad ↦ inl (
      rw (file_kind, bad) refl,
      λ sign. absurd (ground (arith, is_ole2-HasSignature.1 sign)),
      unsigned-HasStream encryption_info encrypted_package bad,
      unsigned-HasStream workbook_stream book_stream bad,
    )
    | inl good ↦
        let sign = is_ole2-HasSignature.0 good in
        elim (Read-cases (entry_names decode file)) [
          | inl (fault, e) ↦ inr (
              inr (
                inr (
                  rw (file_kind, good, ole2_kind, e) refl,
                  sign,
                  failed-HasStream encryption_info encrypted_package fault e,
                  failed-HasStream workbook_stream book_stream fault e,
                )))
          | inr (found, e) ↦
              let enc = has_name-HasStream encryption_info encrypted_package found e in
              let old = has_name-HasStream workbook_stream book_stream found e in
              elim (Bool-cases (has_name encryption_streams (map casefold found))) [
                | inl has_enc ↦
                    inr
                      (inl (rw (file_kind, good, ole2_kind, e, has_enc) refl, sign, enc.1 has_enc))
                | inr no_enc ↦
                    let not_enc : ¬ HasStream encryption_info encrypted_package =
                      λ h. absurd (ground (arith, enc.0 h)) in
                    elim (Bool-cases (has_name xls_streams (map casefold found))) [
                      | inl has_old ↦ inr (
                          inr (
                            inl (
                              rw (file_kind, good, ole2_kind, e, no_enc, has_old) refl,
                              sign,
                              not_enc,
                              old.1 has_old,
                            )))
                      | inr no_old ↦ inr (
                          inr (
                            inr (
                              rw (file_kind, good, ole2_kind, e, no_enc, no_old) refl,
                              sign,
                              not_enc,
                              λ h. absurd (ground (arith, old.0 h)),
                            )))
                    ]
              ]
        ]
  ]

  -- reject_ole2 lets a file pass exactly when it does not begin with the signature. It refuses the
  -- file as encrypted exactly when its directory can be read and has a stream EncryptionInfo or
  -- EncryptedPackage, as a legacy workbook exactly when it has none of these and a stream Workbook
  -- or Book, and as no workbook exactly when it begins with the signature and has no such stream.
  pub reject_ole2-file_kind :
      ((reject_ole2 (file_kind decode casefold file) ≡ passed tt) ↔ (¬ HasSignature))
      × ((reject_ole2 (file_kind decode casefold file) ≡ refused encrypted_workbook)
          ↔ HasStream encryption_info encrypted_package)
      × ((reject_ole2 (file_kind decode casefold file) ≡ refused legacy_xls)
          ↔ (HasStream workbook_stream book_stream × ¬ HasStream encryption_info encrypted_package))
      × ((reject_ole2 (file_kind decode casefold file) ≡ refused unknown_ole2) ↔ (
          HasSignature
          × (¬ HasStream encryption_info encrypted_package)
          × (¬ HasStream workbook_stream book_stream)))
  reject_ole2-file_kind =
      answers (reject_ole2 (file_kind decode casefold file)) HasSignature
        (HasStream encryption_info encrypted_package) (HasStream workbook_stream book_stream)
        file_kind-IsAnswer
