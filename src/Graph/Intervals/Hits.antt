-- ===== src/Graph/Intervals/Hits.antt =====
-- What a query passes over and what it yields, node by node.
use finance_context_builder.Base.{
  ℕ, zero, suc, ◌+◌, ◌-◌, ◌*◌, ◌≤◌, ◌<◌, ◌≡◌, refl, sym, ap, ◌∙◌, true, false, ◌||◌, ◌&&◌, List, [],
  ◌∷◌, ◌++◌, append_assoc, leb, ltb, length, if◌then◌else◌, Option, none, some, get_elem?, arith,
  Bool-cases, Option-cases, inl, inr,
}
use finance_context_builder.Base.Eq.{nat_eq}
use finance_context_builder.Graph.Intervals.{Item, Node, max_end, below, Intervals}
use finance_context_builder.Graph.Intervals.Slots.{power, power-pos, IsHeap}

le-mul : (a p : ℕ) → 0 < p → a ≤ a * p
le-mul a zero h = absurd (omega arith)
le-mul a (suc p) h = omega arith

-- The slots of the halves of a node.
pub left_slot : (slot h n : ℕ) → slot * power (suc h) ≡ n → 2 * slot * power h ≡ n
left_slot slot h n e = omega arith

pub right_slot : (slot h n : ℕ) → slot * power (suc h) ≡ n → (2 * slot + 1) * power h ≡ n + power h
right_slot slot h n e = omega arith

pub slot-bounds :
    (slot h size lo : ℕ)
    → slot * power (suc h) ≡ size + lo
    → lo + power (suc h) ≤ size
    → (0 < slot) × (slot < size)
slot-bounds zero h size lo e room = absurd (omega (arith, power-pos h))
slot-bounds (suc k) h size lo e room =
    (omega arith, omega (arith, le-mul (suc k) (power h) (power-pos h), power-pos h))

below-max_end :
    (a b : Option ℕ) (row : ℕ)
    → below (max_end a b) row ≡ true
    → (below a row ≡ true) × (below b row ≡ true)
below-max_end none b row h = (refl, h)
below-max_end (some a) none row h = (h, refl)
below-max_end (some a) (some b) row h = (ground arith, ground arith)

get_elem?-length : {A : Type 0} (xs : List A) (i : ℕ) → get_elem? xs i ≡ none → i < length xs → ⊥
get_elem?-length [] i h b = omega arith
get_elem?-length (x ∷ xs) zero h b = absurd (ground arith)
get_elem?-length (x ∷ xs) (suc i) h b = get_elem?-length xs i h (omega arith)

module _ {A : Type 0} (s : Intervals A) (limit row : ℕ) where
  -- the payload of one item, when the query takes it
  abbrev pub hit : ℕ → List A
  hit i = elim (get_elem? s.items i) [
    | none ↦ []
    | some item ↦ if ltb i limit && leb row item.1 then item.2 ∷ [] else []
  ]

  abbrev pub hits : ℕ → ℕ → List A
  hits lo zero = []
  hits lo (suc n) = hit lo ++ hits (suc lo) n

  pub hits-add : (lo m n : ℕ) → hits lo (m + n) ≡ hits lo m ++ hits (lo + m) n
  hits-add lo zero n =
      let left : 0 + n ≡ n = omega arith in
      let right : lo + 0 ≡ lo = omega arith in rw (left, right) refl
  hits-add lo (suc m) n =
      let shift : suc lo + m ≡ lo + suc m = omega arith in
      let count : suc m + n ≡ suc (m + n) = omega arith in
      ap (λ k. hits lo k) count
      ∙ ap (λ xs. hit lo ++ xs)
          (hits-add (suc lo) m n ∙ ap (λ i. hits (suc lo) m ++ hits i n) shift)
      ∙ sym (append_assoc (hit lo) (hits (suc lo) m) (hits (lo + suc m) n))

  pub hits-none : (lo n : ℕ) → ((i : ℕ) → lo ≤ i → i < lo + n → hit i ≡ []) → hits lo n ≡ []
  hits-none lo zero h = refl
  hits-none lo (suc n) h =
      rw (h lo (omega arith) (omega arith))
        (hits-none (suc lo) n (λ i a b. h i (omega arith) (omega arith)))

  -- the slot of a node is the one of its rows in the tree
  abbrev pub IsNode : ℕ → ℕ → ℕ → Type 0
  IsNode slot lo h = (slot * power h ≡ s.size + lo) × (lo + power h ≤ s.size)

  -- A node whose slot is below the row holds no item that the query takes.
  pub hit-below :
      (h slot lo : ℕ)
      → IsHeap s
      → IsNode slot lo h
      → below (s.tree slot) row ≡ true
      → (i : ℕ) → lo ≤ i
      → i < lo + power h
      → hit i ≡ []
  hit-below zero slot lo heap node low i a b = elim (Option-cases (get_elem? s.items i)) [
    | inl outside ↦ ground arith
    | inr (item, found) ↦
        let same : slot ≡ s.size + i = omega arith in
        let leaf = heap.leaf i item found in ground arith
  ]
  hit-below (suc h) slot lo heap node low i a b =
      let (pos, inside) = slot-bounds slot h s.size lo node.0 node.1 in
      let inner = heap.inner slot pos inside in
      let left : IsNode (2 * slot) lo h = (left_slot slot h (s.size + lo) node.0, omega arith) in
      let right : IsNode (2 * slot + 1) (lo + power h) h =
        (right_slot slot h (s.size + lo) node.0 ∙ omega arith, omega arith) in
      let both =
        below-max_end (s.tree (2 * slot)) (s.tree (2 * slot + 1)) row
          (ap (λ t. below t row) (sym inner) ∙ low) in
      elim (Bool-cases (ltb i (lo + power h))) [
        | inl first ↦ hit-below h (2 * slot) lo heap left both.0 i a (ground arith)
        | inr second ↦
            hit-below h (2 * slot + 1) (lo + power h) heap right both.1 i (ground arith)
              (omega arith)
      ]

  -- What the nodes of a stack stand for.
  abbrev pub IsStack : List Node → Type 0
  IsStack [] = Unit
  IsStack ((slot, lo, hi) ∷ rest) =
      ((h : ℕ) × IsNode slot lo h × (hi + 1 ≡ lo + power h)) × IsStack rest

  abbrev pub wanted : List Node → List A
  wanted [] = []
  wanted ((slot, lo, hi) ∷ rest) = hits lo (hi + 1 - lo) ++ wanted rest

  abbrev pub rounds : List Node → ℕ
  rounds [] = 0
  rounds ((slot, lo, hi) ∷ rest) = 2 * (hi - lo) + 1 + rounds rest

  -- a node that the query passes over
  pub pass_over :
      (h slot lo hi : ℕ)
      → IsHeap s
      → IsNode slot lo h
      → hi + 1 ≡ lo + power h
      → (leb limit lo || below (s.tree slot) row) ≡ true
      → hits lo (hi + 1 - lo) ≡ []
  pass_over h slot lo hi heap node e pass = hits-none lo (hi + 1 - lo) (λ i a b.
      elim (Bool-cases (below (s.tree slot) row)) [
        | inl low ↦ hit-below h slot lo heap node low i a (omega arith)
        | inr high ↦ elim (Option-cases (get_elem? s.items i)) [
          | inl outside ↦ ground arith
          | inr (item, found) ↦ ground arith
        ]
      ])

  -- a leaf that the query yields
  pub yield_leaf :
      (slot lo : ℕ)
      → IsHeap s
      → IsNode slot lo 0
      → limit ≤ length s.items
      → (leb limit lo || below (s.tree slot) row) ≡ false
      → (item : Item A) × (get_elem? s.items lo ≡ some item) × (hits lo 1 ≡ item.2 ∷ [])
  yield_leaf slot lo heap node room open_node = elim (Option-cases (get_elem? s.items lo)) [
    | inl outside ↦ absurd (get_elem?-length s.items lo outside (ground arith))
    | inr (item, found) ↦
        let same : slot ≡ s.size + lo = omega arith in
        let leaf = heap.leaf lo item found in (item, found, ground arith)
  ]
