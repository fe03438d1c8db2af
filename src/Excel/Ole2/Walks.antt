-- ===== src/Excel/Ole2/Walks.antt =====
-- The loop over the chain of a directory finds the names of the chain, excel/ole2.py.
use finance_context_builder.Base.{
  ℕ, zero, suc, ◌+◌, ◌-◌, ◌*◌, ◌≡◌, ◌<◌, ◌≤◌, ◌⊎◌, inl, inr, refl, sym, ap, ◌∙◌, subst, false, List,
  [], ◌∷◌, ◌++◌, arith, length, Bool-cases, if◌then◌else◌, All, append-nil, append_assoc,
}
use finance_context_builder.Base.Eq.{◌==◌, nat_eq}
use finance_context_builder.Base.Text.{Text}
use finance_context_builder.Excel.Ole2.{
  failed, read, chain_endless, FatCache, has_sector, chain_loop, sector_count, end_of_chain,
  sector_names, read_sector,
}
use finance_context_builder.Excel.Ole2.Chains.{IsCoherent, Chain, done, link}
use finance_context_builder.Excel.Ole2.Rounds.{
  read_sector_bounds, Chain-cases, ended, stopped, onward, chain_loop_round,
}

-- How many of the first sectors were not seen.
unfoldable pub unseen : List ℕ → ℕ → ℕ
unseen seen zero = 0
unseen seen (suc n) = (if has_sector n seen then 0 else 1) + unseen seen n

pub unseen_none : (n : ℕ) → unseen [] n ≡ n
unfolding unseen has_sector
unseen_none zero = refl
unseen_none (suc n) = ground (arith, unseen_none n)

unseen_le : (seen : List ℕ) (sector n : ℕ) → unseen (sector ∷ seen) n ≤ unseen seen n
unfolding unseen has_sector
unseen_le seen sector zero = omega arith
unseen_le seen sector (suc n) = ground (arith, unseen_le seen sector n)

unseen_lt :
    (seen : List ℕ) (sector n : ℕ)
    → sector < n
    → has_sector sector seen ≡ false
    → unseen (sector ∷ seen) n < unseen seen n
unfolding unseen has_sector
unseen_lt seen sector zero h new = absurd (omega arith)
unseen_lt seen sector (suc n) h new = elim (Bool-cases (sector == n)) [
  | inl same ↦
      let here : has_sector n seen ≡ false =
        subst (λ k. has_sector k seen ≡ false) (ground arith) new in
      ground (arith, unseen_le seen sector n)
  | inr other ↦ ground (arith, unseen_lt seen sector n (ground arith) new)
]

abbrev pub IsSectorSize : ℕ → Type 0
IsSectorSize size = (size ≡ 512) ⊎ (size ≡ 4096)

module _ (decode : List ℕ → Text) (file : List ℕ) (size : ℕ) (fat : List ℕ) where
  -- A sector begins chains of one length only.
  Chain-length :
      {n m sector : ℕ} {names names' : List Text}
      → Chain file size fat decode n sector names
      → Chain file size fat decode m sector names'
      → n ≡ m
  Chain-length done c = elim (Chain-cases file size fat decode c) [
    | inl (none_left, _, _) ↦ sym none_left
    | inr (_, _, bytes, _, _, e, _, _, _) ↦
        let low = (read_sector_bounds file size end_of_chain bytes e).0 in absurd (omega arith)
  ]
  Chain-length (link {sector = sector} {bytes = bytes} r t c) c' =
      elim (Chain-cases file size fat decode c') [
        | inl (_, last, _) ↦
            let low = (read_sector_bounds file size sector bytes r).0 in absurd (omega arith)
        | inr (m', after', bytes', rest', more, r', t', c'', _) ↦
            ap suc (
              Chain-length c
                (subst (λ a. Chain file size fat decode m' a rest') (ground arith) c''))
            ∙ sym more
      ]

  -- Every sector begins a longer chain than this.
  abbrev AreLonger : ℕ → List ℕ → Type 0
  AreLonger n seen =
      All (λ x. (m : ℕ) × (names : List Text) × Chain file size fat decode m x names × (n < m)) seen

  longer-new :
      (seen : List ℕ) {n sector : ℕ} {names : List Text}
      → Chain file size fat decode n sector names
      → AreLonger n seen
      → has_sector sector seen ≡ false
  unfolding has_sector
  longer-new [] c h = refl
  longer-new (x ∷ seen) {n} {sector} c ((m, names', c', lt), h) = elim (Bool-cases (x == sector)) [
    | inl same ↦
        let one =
          Chain-length c (subst (λ y. Chain file size fat decode m y names') (ground arith) c') in
        absurd (omega arith)
    | inr other ↦ ground (arith, longer-new seen c h)
  ]

  AreLonger-le : (n m : ℕ) (seen : List ℕ) → m ≤ n → AreLonger n seen → AreLonger m seen
  AreLonger-le n m [] le h = tt
  AreLonger-le n m (x ∷ seen) le ((k, names, c, lt), h) =
      ((k, names, c, omega arith), AreLonger-le n m seen le h)

  abbrev pub room : ℕ
  room = sector_count file size - 1

  module _ (known : IsSectorSize size) where
    sector_room :
        (sector : ℕ) (bytes : List ℕ) → read_sector file size sector ≡ read bytes → sector < room
    sector_room sector bytes e =
        let fits = (read_sector_bounds file size sector bytes e).1 in
        elim known [
          | inl small ↦
              let blocks : (sector + 2) * 512 ≤ length file =
                subst (λ k. (sector + 2) * k ≤ length file) small fits in
              rw small (omega arith)
          | inr large ↦
              let blocks : (sector + 2) * 4096 ≤ length file =
                subst (λ k. (sector + 2) * k ≤ length file) large fits in
              rw large (omega arith)
        ]

    pub chain_loop-ends :
        (rounds sector : ℕ) (seen : List ℕ) (names : List Text) (cache : FatCache)
        → IsCoherent file size fat cache
        → unseen seen room < rounds
        → ¬ (chain_loop decode file size fat rounds sector seen names cache ≡ failed chain_endless)
    chain_loop-ends zero sector seen names cache h enough e = absurd (omega arith)
    chain_loop-ends (suc rounds) sector seen names cache h enough e =
        elim (chain_loop_round file size fat decode rounds sector seen names cache h) [
          | ended last found ↦ ground arith
          | stopped fault other more bad _ ↦ other (ground arith)
          | onward bytes after kept more r t ok new goes ↦
              let less = unseen_lt seen sector room (sector_room sector bytes r) new in
              chain_loop-ends rounds after (sector ∷ seen) (names ++ sector_names decode bytes) kept
                ok (omega arith) (sym goes ∙ e)
        ]

    pub chain_loop_complete :
        (rounds sector : ℕ) (seen : List ℕ) (names : List Text) (cache : FatCache) (n : ℕ)
        (rest : List Text)
        → IsCoherent file size fat cache
        → unseen seen room < rounds
        → AreLonger n seen
        → Chain file size fat decode n sector rest
        → chain_loop decode file size fat rounds sector seen names cache ≡ read (names ++ rest)
    chain_loop_complete zero sector seen names cache n rest h enough longer c = absurd (omega arith)
    chain_loop_complete (suc rounds) sector seen names cache n rest h enough longer c =
        elim (chain_loop_round file size fat decode rounds sector seen names cache h) [
          | ended last found ↦ elim (Chain-cases file size fat decode c) [
            | inl (_, _, nothing) ↦ rw nothing (found ∙ ap read (sym (append-nil names)))
            | inr (_, _, bytes, _, _, e, _, _, _) ↦
                let low = (read_sector_bounds file size sector bytes e).0 in absurd (omega arith)
          ]
          | stopped fault other more bad begun ↦
              let old = begun n rest c in
              let new = longer-new seen c longer in absurd (ground arith)
          | onward bytes after kept more r t ok new goes ↦
              elim (Chain-cases file size fat decode c) [
                | inl (_, last, _) ↦ absurd (more last)
                | inr (m, after', bytes', rest', one, r', t', c', joined) ↦
                    let same : after' ≡ after = ground arith in
                    let alike : bytes' ≡ bytes = ground arith in
                    let less = unseen_lt seen sector room (sector_room sector bytes r) new in
                    let tail =
                      chain_loop_complete rounds after (sector ∷ seen)
                        (names ++ sector_names decode bytes) kept m rest' ok (omega arith)
                        ((n, rest, c, omega arith), AreLonger-le n m seen (omega arith) longer)
                        (subst (λ a. Chain file size fat decode m a rest') same c') in
                    goes
                    ∙ tail
                    ∙ ap read (
                        append_assoc names (sector_names decode bytes) rest'
                        ∙ ap (λ b. names ++ (sector_names decode b ++ rest')) (sym alike)
                        ∙ ap (λ xs. names ++ xs) (sym joined))
              ]
        ]

  pub chain_loop_sound :
      (rounds sector : ℕ) (seen : List ℕ) (names found : List Text) (cache : FatCache)
      → IsCoherent file size fat cache
      → chain_loop decode file size fat rounds sector seen names cache ≡ read found
      → (n : ℕ) × (rest : List Text) × Chain file size fat decode n sector rest
        × (found ≡ names ++ rest)
  unfolding chain_loop
  chain_loop_sound zero sector seen names found cache h e = absurd (ground arith)
  chain_loop_sound (suc rounds) sector seen names found cache h e =
      elim (chain_loop_round file size fat decode rounds sector seen names cache h) [
        | ended last got ↦ (
          0,
          [],
          subst (λ s. Chain file size fat decode 0 s []) (sym last) done,
          ground arith ∙ sym (append-nil names),
        )
        | stopped fault other more bad _ ↦ absurd (ground arith)
        | onward bytes after kept more r t ok new goes ↦
            let (n, rest, c, joined) =
              chain_loop_sound rounds after (sector ∷ seen) (names ++ sector_names decode bytes)
                found kept ok (sym goes ∙ e) in
            (
              suc n,
              sector_names decode bytes ++ rest,
              link r t c,
              joined ∙ append_assoc names (sector_names decode bytes) rest,
            )
      ]
