-- ===== src/Excel/Ole2/Directory.antt =====
-- The names of the directory against the chain that the table of the file links, excel/ole2.py.
use finance_context_builder.Base.{
  ℕ, ◌≡◌, ◌<◌, ◌≤◌, ◌↔◌, inl, inr, sym, subst, List, [], arith, length, take, Bool-cases,
}
use finance_context_builder.Base.Eq.{◌==◌, nat_eq}
use finance_context_builder.Base.Dict.{get}
use finance_context_builder.Base.Text.{Text}
use finance_context_builder.Excel.Ole2.{
  failed, read, chain_endless, sector_count, open_sectors, u16, entry_names, fat_sectors,
}
use finance_context_builder.Excel.Ole2.Chains.{IsCoherent, Chain, Read-cases}
use finance_context_builder.Excel.Ole2.Walks.{
  IsSectorSize, unseen, unseen_none, chain_loop-ends, chain_loop_sound, chain_loop_complete, room,
}

module _ (decode : List ℕ → Text) (file : List ℕ) where
  pub open_sectors-IsSectorSize :
      (size : ℕ) (fat : List ℕ) (start : ℕ)
      → open_sectors decode file ≡ read (size, fat, start)
      → IsSectorSize size
  unfolding open_sectors
  open_sectors-IsSectorSize size fat start e =
      let header = take 512 file in
      elim (Bool-cases (u16 header 30 == 9)) [
        | inl nine ↦ elim (Read-cases (fat_sectors header file 512)) [
          | inl (fault, bad) ↦ absurd (ground arith)
          | inr (found, good) ↦ inl (ground arith)
        ]
        | inr other ↦ elim (Read-cases (fat_sectors header file 4096)) [
          | inl (fault, bad) ↦ absurd (ground arith)
          | inr (found, good) ↦ inr (ground arith)
        ]
      ]

  pub nothing_stored : (size : ℕ) (fat : List ℕ) → IsCoherent file size fat []
  unfolding get
  nothing_stored size fat = record { at_index = λ k values e. absurd (ground arith) }

  whole_sector :
      (size : ℕ) (fat : List ℕ)
      → IsSectorSize size
      → size ≤ length file
      → unseen [] (room decode file size fat) < sector_count file size
  whole_sector size fat known fits = elim known [
    | inl small ↦
        let one : 512 ≤ length file = subst (λ k. k ≤ length file) small fits in
        rw (small, unseen_none) (omega arith)
    | inr large ↦
        let one : 4096 ≤ length file = subst (λ k. k ≤ length file) large fits in
        rw (large, unseen_none) (omega arith)
  ]

  -- In a file with a whole sector, whose header and table can be read, the directory has the names
  -- found exactly where the table links its first sector to the end of the chain by sectors that can
  -- be read, and these are the names along it. The loop never runs out of rounds.
  pub entry_names_lem :
      (size : ℕ) (fat : List ℕ) (start : ℕ)
      → open_sectors decode file ≡ read (size, fat, start)
      → size ≤ length file
      → ((found : List Text)
          → (entry_names decode file ≡ read found)
            ↔ ((n : ℕ) × Chain file size fat decode n start found))
        × ¬ (entry_names decode file ≡ failed chain_endless)
  unfolding entry_names
  entry_names_lem size fat start e fits =
      let known = open_sectors-IsSectorSize size fat start e in
      let enough : unseen [] (room decode file size fat) < sector_count file size =
        whole_sector size fat known fits in
      rw (entry_names, e)
        (
          λ found. (
            λ got.
                let (n, rest, c, same) =
                  chain_loop_sound decode file size fat (sector_count file size) start [] [] found
                    [] (nothing_stored size fat) got in
                (n, subst (Chain file size fat decode n start) (sym same) c),
            λ (n, c).
                chain_loop_complete decode file size fat known (sector_count file size) start [] []
                  [] n found (nothing_stored size fat) enough tt c,
          ),
          chain_loop-ends decode file size fat known (sector_count file size) start [] [] []
              (nothing_stored size fat) enough,
        )
