-- ===== src/Graph/Intervals/Slots.antt =====
-- The slots of the tree of `_Intervals`, graph/ranges.py.
use finance_context_builder.Base.{
  ℕ, zero, suc, ◌+◌, ◌-◌, ◌*◌, ◌≤◌, ◌<◌, ◌≡◌, refl, ap, ◌∙◌, max, List, [], ◌∷◌, ltb, length, none,
  some, get_elem?, arith, Bool-cases, inl, inr,
}
use finance_context_builder.Base.Eq.{◌==◌, nat_eq}
use finance_context_builder.Graph.Intervals.{
  Item, Tree, assign, max_end, size_loop, fill_inner, fill_leaves, build, Intervals, sort_items,
}

abbrev pub power : ℕ → ℕ
power zero = 1
power (suc h) = 2 * power h

pub power-pos : (h : ℕ) → 0 < power h
power-pos zero = omega arith
power-pos (suc h) = omega (arith, power-pos h)

-- The size is a power of two that is enough.
pub size_loop_lem :
    (fuel wanted h : ℕ)
    → wanted ≤ power h + fuel
    → (k : ℕ) × (size_loop fuel wanted (power h) ≡ power k) × (wanted ≤ power k)
unfolding size_loop
size_loop_lem zero wanted h enough = (h, refl, omega arith)
size_loop_lem (suc fuel) wanted h enough = elim (Bool-cases (ltb (power h) wanted)) [
  | inl small ↦
      let doubled : power h * 2 ≡ power (suc h) = omega arith in
      let (k, e, big) = size_loop_lem fuel wanted (suc h) (omega (arith, power-pos h)) in
      let step : size_loop (suc fuel) wanted (power h) ≡ size_loop fuel wanted (power h * 2) =
        ground arith in
      (k, step ∙ ap (size_loop fuel wanted) doubled ∙ e, big)
  | inr large ↦ (h, ground arith, ground arith)
]

-- An inner slot from `index` down holds the greater of its two, and the slots above stay.
fill_inner-above : (index : ℕ) (tree : Tree) (j : ℕ) → index < j → fill_inner index tree j ≡ tree j
unfolding fill_inner
fill_inner-above zero tree j h = refl
fill_inner-above (suc index) tree j h = ground (
  arith,
  fill_inner-above index
      (assign tree (suc index) (max_end (tree (2 * suc index)) (tree (2 * suc index + 1)))) j,
)

pub fill_inner-max :
    (index : ℕ) (tree : Tree) (j : ℕ)
    → 0 < j
    → j ≤ index
    → fill_inner index tree j
      ≡ max_end (fill_inner index tree (2 * j)) (fill_inner index tree (2 * j + 1))
unfolding fill_inner
fill_inner-max zero tree j p h = absurd (omega arith)
fill_inner-max (suc index) tree j p h =
    let tree' =
      assign tree (suc index) (max_end (tree (2 * suc index)) (tree (2 * suc index + 1))) in
    elim (Bool-cases (suc index == j)) [
      | inl here ↦ ground (
        arith,
        fill_inner-above index tree' j,
        fill_inner-above index tree' (2 * j),
        fill_inner-above index tree' (2 * j + 1),
      )
      | inr later ↦ fill_inner-max index tree' j p (ground arith)
    ]

module _ {A : Type 0} where
  pub fill_leaves-before :
      (items : List (Item A)) (slot : ℕ) (tree : Tree) (j : ℕ)
      → j < slot
      → fill_leaves items slot tree j ≡ tree j
  unfolding fill_leaves
  fill_leaves-before [] slot tree j h = refl
  fill_leaves-before ((start, end, payload) ∷ rest) slot tree j h =
      ground (arith, fill_leaves-before rest (suc slot) (assign tree slot (some end)) j)

  -- The leaf of an item holds its end.
  pub fill_leaves-end :
      (items : List (Item A)) (slot : ℕ) (tree : Tree) (i : ℕ) (item : Item A)
      → get_elem? items i ≡ some item
      → fill_leaves items slot tree (slot + i) ≡ some item.1
  unfolding fill_leaves
  fill_leaves-end [] slot tree i item h = absurd (ground arith)
  fill_leaves-end ((start, end, payload) ∷ rest) slot tree zero item h =
      ground (arith, fill_leaves-before rest (suc slot) (assign tree slot (some end)) slot)
  fill_leaves-end ((start, end, payload) ∷ rest) slot tree (suc i) item h =
      let same : suc slot + i ≡ slot + suc i = omega arith in
      ground (arith, fill_leaves-end rest (suc slot) (assign tree slot (some end)) i item)

-- What the two loops of `__init__` make of the tree.
pub record IsHeap {A : Type 0} (s : Intervals A) : Type 0 where
  pub leaf :
      (i : ℕ) (item : Item A) → get_elem? s.items i ≡ some item → s.tree (s.size + i) ≡ some item.1
  pub inner :
      (j : ℕ) → 0 < j → j < s.size → s.tree j ≡ max_end (s.tree (2 * j)) (s.tree (2 * j + 1))
  pub height : (h : ℕ) × (s.size ≡ power h)
  pub room : length s.items ≤ s.size

pub build-IsHeap : {A : Type 0} (items : List (Item A)) → IsHeap (build items)
unfolding build
build-IsHeap items =
    let sorted = sort_items items in
    let (h, e, big) = size_loop_lem (length sorted) (max 1 (length sorted)) 0 (omega arith) in
    let size = size_loop (length sorted) (max 1 (length sorted)) 1 in
    let leaves = fill_leaves sorted size (λ slot. none) in
    let pos = power-pos h in
    record {
      leaf = λ i item found.
          fill_inner-above (size - 1) leaves (size + i) (omega (arith, pos, e))
          ∙ fill_leaves-end sorted size (λ slot. none) i item found;
      inner = λ j p q. fill_inner-max (size - 1) leaves j p (omega arith);
      height = (h, e);
      room = omega (arith, e, big);
    }
