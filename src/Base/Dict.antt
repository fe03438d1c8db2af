-- ===== src/Base/Dict.antt =====
-- Python's `dict`: an association list, in the order of insertion.
use mathlib.Core.Path.{◌≡◌, refl, ◌∙◌, subst}
use mathlib.Core.Logic.{inl, inr}
use mathlib.Core.Option.{Option, none, some}
use mathlib.Core.List.{List, [], ◌∷◌, ◌++◌}
use native.Mathlib.Omega.{arith}
use finance_context_builder.Base.Tests.{if◌then◌else◌, Bool-cases}
use finance_context_builder.Base.Lists.{All}
use finance_context_builder.Base.Eq.{HasEq, ◌==◌}

abbrev pub Dict {ℓ} : Type ℓ → Type ℓ → Type ℓ
Dict K V = List (K × V)

module _ {ℓ} {K V : Type ℓ} ⦃e : HasEq K⦄ where
  -- d.get(k)
  unfoldable pub get : Dict K V → K → Option V
  get [] k = none
  get ((j, v) ∷ d) k = if j == k then some v else get d k

  -- d[k] = v, which keeps the place of a key that is there
  unfoldable pub put : Dict K V → K → V → Dict K V
  put [] k v = (k, v) ∷ []
  put ((j, w) ∷ d) k v = if j == k then (j, v) ∷ d else (j, w) ∷ put d k v

  pub get-put :
      (d : Dict K V) (written key : K) (new : V)
      → get (put d written new) key ≡ (if written == key then some new else get d key)
  unfolding get put
  get-put [] written key new = refl
  get-put ((own, old) ∷ rest) written key new = ground (
    arith,
    e.equal_iff written key,
    e.equal_iff own written,
    e.equal_iff own key,
    get-put rest written key new,
  )

  -- No key stands twice.
  abbrev pub Distinct : Dict K V → Type ℓ
  Distinct [] = Unit
  Distinct ((k, v) ∷ d) = (get d k ≡ none) × Distinct d

  pub put-Distinct : (d : Dict K V) (k : K) (v : V) → Distinct d → Distinct (put d k v)
  unfolding get put
  put-Distinct [] k v h = (refl, tt)
  put-Distinct ((j, w) ∷ d) k v h = elim (Bool-cases (j == k)) [
    | inl same ↦ rw (same, Distinct) h
    | inr other ↦
        rw (other, Distinct)
          (
            get-put d k j v ∙ ground (arith, e.equal_iff k j, e.equal_iff j k),
            put-Distinct d k v h.1,
          )
  ]

  -- What holds of every value holds of the one found.
  pub All-get {κ} :
      (P : V → Type κ) (d : Dict K V) (k : K) (v : V) → All (λ x. P x.1) d → get d k ≡ some v → P v
  unfolding get
  All-get P [] k v h e = absurd (ground arith)
  All-get P ((j, w) ∷ d) k v h e = elim (Bool-cases (j == k)) [
    | inl same ↦ subst P (ground arith) h.0
    | inr other ↦ All-get P d k v h.1 (ground arith)
  ]

  pub put-All {κ} :
      (P : V → Type κ) (d : Dict K V) (k : K) (v : V)
      → All (λ x. P x.1) d
      → P v
      → All (λ x. P x.1) (put d k v)
  unfolding put
  put-All P [] k v h p = (p, tt)
  put-All P ((j, w) ∷ d) k v h p = elim (Bool-cases (j == k)) [
    | inl same ↦ rw (same, All) (p, h.1)
    | inr other ↦ rw (other, All) (h.0, put-All P d k v h.1 p)
  ]

module _ {ℓ} {K A : Type ℓ} ⦃e : HasEq K⦄ where
  -- d.get(k, []), for a dictionary of lists
  abbrev pub list_at : Dict K (List A) → K → List A
  list_at d k = elim (get d k) [ none ↦ [] | some xs ↦ xs ]

  -- d.setdefault(k, []).append(x)
  unfoldable pub append_at : Dict K (List A) → K → A → Dict K (List A)
  append_at d k x = put d k (list_at d k ++ x ∷ [])

  pub list_at-append_at :
      (d : Dict K (List A)) (k j : K) (x : A)
      → list_at (append_at d k x) j ≡ (if k == j then list_at d j ++ x ∷ [] else list_at d j)
  unfolding append_at
  list_at-append_at d k j x = ground (arith, get-put d k j (list_at d k ++ x ∷ []), e.equal_iff k j)
