-- ===== src/Excel/Ole2/Rounds.antt =====
-- A round of the loop over the chain of a directory, excel/ole2.py.
use finance_context_builder.Base.{
  ℕ, suc, ◌+◌, ◌*◌, ◌≡◌, ◌≤◌, ◌⊎◌, inl, inr, refl, sym, ap, ◌∙◌, subst, true, false, ◌||◌, List, [],
  ◌∷◌, ◌++◌, arith, ltb, length, Bool-cases, get_elem?, Option-cases, ◌/◌,
}
use finance_context_builder.Base.Eq.{◌==◌, nat_eq}
use finance_context_builder.Base.Text.{Text}
use finance_context_builder.Excel.Ole2.{
  Fault, chain_endless, chain_loops, failed, read, FatCache, read_sector, next, max_sector,
  end_of_chain, sector_names, has_sector, chain_loop,
}
use finance_context_builder.Excel.Ole2.Chains.{
  table_word, value_of, cache_of, IsCoherent, next_lem, Chain, done, link, Read-cases,
}

module _ (file : List ℕ) (size : ℕ) where
  pub read_sector_bounds :
      (sector : ℕ) (bytes : List ℕ)
      → read_sector file size sector ≡ read bytes
      → (sector ≤ max_sector) × ((sector + 2) * size ≤ length file)
  unfolding read_sector
  read_sector_bounds sector bytes e = (ground arith, ground arith)

  read_sector_fault : (sector : ℕ) → ¬ (read_sector file size sector ≡ failed chain_endless)
  unfolding read_sector
  read_sector_fault sector e = ground arith

  module _ (fat : List ℕ) where
    table_word_fault : (sector : ℕ) → ¬ (table_word file size fat sector ≡ failed chain_endless)
    unfolding table_word
    table_word_fault sector e = elim (Option-cases (get_elem? fat (sector / (size / 4)))) [
      | inl outside ↦ absurd (ground arith)
      | inr (sid, place) ↦ elim (Read-cases (read_sector file size sid)) [
        | inl (fault, bad) ↦ read_sector_fault sid (ground arith)
        | inr (bytes, good) ↦ absurd (ground arith)
      ]
    ]

    module _ (decode : List ℕ → Text) where
      -- A chain is at its end, or goes on from a sector that can be read.
      pub Chain-cases :
          {n sector : ℕ} {names : List Text}
          → Chain file size fat decode n sector names
          → ((n ≡ 0) × (sector ≡ end_of_chain) × (names ≡ []))
            ⊎ ((m : ℕ) × (after : ℕ) × (bytes : List ℕ) × (rest : List Text) × (n ≡ suc m)
                × (read_sector file size sector ≡ read bytes)
                × (table_word file size fat sector ≡ read after)
                × Chain file size fat decode m after rest
                × (names ≡ sector_names decode bytes ++ rest))
      Chain-cases done = inl (refl, refl, refl)
      Chain-cases (link {n} {sector} {after} {bytes} {names} r t c) =
          inr (n, after, bytes, names, refl, r, t, c, refl)

      seen-Chain :
          (sector : ℕ) (seen : List ℕ) (n : ℕ) (rest : List Text)
          → Chain file size fat decode n sector rest
          → ¬ (sector ≡ end_of_chain)
          → (ltb max_sector sector || has_sector sector seen) ≡ true
          → has_sector sector seen ≡ true
      seen-Chain sector seen n rest c more bad = elim (Chain-cases c) [
        | inl (_, last, _) ↦ absurd (more last)
        | inr (_, _, bytes, _, _, e, _, _, _) ↦ ground (arith, read_sector_bounds sector bytes e)
      ]

      Chain-read :
          (sector n : ℕ) (rest : List Text) (fault : Fault)
          → Chain file size fat decode n sector rest
          → ¬ (sector ≡ end_of_chain)
          → ¬ (read_sector file size sector ≡ failed fault)
      Chain-read sector n rest fault c more bad = elim (Chain-cases c) [
        | inl (_, last, _) ↦ more last
        | inr (_, _, bytes, _, _, e, _, _, _) ↦ ground arith
      ]

      Chain-word :
          (sector n : ℕ) (rest : List Text) (fault : Fault)
          → Chain file size fat decode n sector rest
          → ¬ (sector ≡ end_of_chain)
          → ¬ (table_word file size fat sector ≡ failed fault)
      Chain-word sector n rest fault c more bad = elim (Chain-cases c) [
        | inl (_, last, _) ↦ more last
        | inr (_, _, bytes, _, _, _, e, _, _) ↦ ground arith
      ]

      -- What a round does: it returns the names, fails, or goes on to the next sector. It fails on
      -- a sector that begins a chain only where the sector was seen.
      pub data Round (rounds sector : ℕ) (seen : List ℕ) (names : List Text) (cache : FatCache)
          : Type 0 where
        ended :
            sector ≡ end_of_chain
            → chain_loop decode file size fat (suc rounds) sector seen names cache ≡ read names
            → Round rounds sector seen names cache
        stopped :
            (fault : Fault)
            → ¬ (fault ≡ chain_endless)
            → ¬ (sector ≡ end_of_chain)
            → chain_loop decode file size fat (suc rounds) sector seen names cache ≡ failed fault
            → ((n : ℕ) (rest : List Text)
                → Chain file size fat decode n sector rest
                → has_sector sector seen ≡ true)
            → Round rounds sector seen names cache
        onward :
            (bytes : List ℕ) (after : ℕ) (kept : FatCache)
            → ¬ (sector ≡ end_of_chain)
            → read_sector file size sector ≡ read bytes
            → table_word file size fat sector ≡ read after
            → IsCoherent file size fat kept
            → has_sector sector seen ≡ false
            → chain_loop decode file size fat (suc rounds) sector seen names cache
              ≡ chain_loop decode file size fat rounds after
                  (sector ∷ seen)
                  (names ++ sector_names decode bytes)
                  kept
            → Round rounds sector seen names cache

      pub chain_loop_round :
          (rounds sector : ℕ) (seen : List ℕ) (names : List Text) (cache : FatCache)
          → IsCoherent file size fat cache
          → Round rounds sector seen names cache
      unfolding chain_loop
      chain_loop_round rounds sector seen names cache h =
          elim (Bool-cases (sector == end_of_chain)) [
            | inl last ↦ ended (ground arith) (rw (chain_loop, last) refl)
            | inr more ↦ elim (Bool-cases (ltb max_sector sector || has_sector sector seen)) [
              | inl bad ↦
                  stopped chain_loops (λ e. ground arith) (ground arith)
                    (rw (chain_loop, more, bad) refl)
                    (λ n rest c. seen-Chain sector seen n rest c (ground arith) bad)
              | inr fresh ↦ elim (Read-cases (read_sector file size sector)) [
                | inl (fault, e) ↦
                    stopped fault (λ e'. read_sector_fault sector (e ∙ ap failed e')) (ground arith)
                      (rw (chain_loop, more, fresh, e) refl)
                      (λ n rest c. absurd (Chain-read sector n rest fault c (ground arith) e))
                | inr (bytes, e) ↦
                    let (same, ok) = next_lem file size fat sector cache h in
                    elim (Read-cases (next file size fat sector cache)) [
                      | inl (fault, e') ↦
                          stopped fault
                            (λ e''.
                              table_word_fault sector (sym same ∙ ap value_of e' ∙ ap failed e''))
                            (ground arith) (rw (chain_loop, more, fresh, e, e') refl)
                            (λ n rest c. absurd (
                              Chain-word sector n rest fault c (ground arith)
                                (sym same ∙ ap value_of e')))
                      | inr ((after, kept), e') ↦
                          onward bytes after kept (ground arith) e (sym same ∙ ap value_of e')
                            (subst (λ r. IsCoherent file size fat (cache_of cache r)) e' ok)
                            (ground arith) (rw (chain_loop, more, fresh, e, e') refl)
                    ]
              ]
            ]
          ]
