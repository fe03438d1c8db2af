-- ===== src/Graph/Intervals.antt =====
-- Row intervals with payloads, the class `_Intervals` of graph/ranges.py. The list `tree` is a
-- function from the slot, which the loops of `__init__` update; -1 is `none`, and a slot outside the
-- list is no error.
pub mod Slots
pub mod Hits
pub mod Queries
use finance_context_builder.Base.{
  ℕ, zero, suc, ◌+◌, ◌-◌, ◌*◌, ◌/◌, max, Bool, true, false, ◌||◌, List, [], ◌∷◌, leb, ltb, length,
  if◌then◌else◌, Option, none, some, get_elem?,
}
use finance_context_builder.Base.Eq.{◌==◌, nat_eq}
use finance_context_builder.Formulas.Spans.{bisect_loop}

-- start, end and payload
abbrev pub Item : Type 0 → Type 0
Item A = ℕ × ℕ × A

abbrev pub Tree : Type 0
Tree = ℕ → Option ℕ

abbrev pub assign : Tree → ℕ → Option ℕ → Tree
assign tree slot value = λ j. if slot == j then value else tree j

-- max of two ends, where -1 is below every end
abbrev pub max_end : Option ℕ → Option ℕ → Option ℕ
max_end none b = b
max_end (some a) none = some a
max_end (some a) (some b) = some (max a b)

-- `tree[slot] < row`
abbrev pub below : Option ℕ → ℕ → Bool
below none row = true
below (some end) row = ltb end row

-- `while size < max(1, len(items)): size *= 2`; the size doubles, so `len(items)` rounds are enough
unfoldable pub size_loop : ℕ → ℕ → ℕ → ℕ
size_loop zero wanted size = size
size_loop (suc fuel) wanted size = elim (ltb size wanted) [
  | true ↦ size_loop fuel wanted (size * 2)
  | false ↦ size
]

-- `for index in range(size - 1, 0, -1)`, from the index on
unfoldable pub fill_inner : ℕ → Tree → Tree
fill_inner zero tree = tree
fill_inner (suc index) tree =
    fill_inner index
      (assign tree (suc index) (max_end (tree (2 * suc index)) (tree (2 * suc index + 1))))

module _ {A : Type 0} where
  unfoldable pub insert_item : Item A → List (Item A) → List (Item A)
  insert_item x [] = x ∷ []
  insert_item x (y ∷ ys) = if leb x.0 y.0 then x ∷ y ∷ ys else y ∷ insert_item x ys

  -- `items.sort(key=start)`, which keeps the order of equal starts
  unfoldable pub sort_items : List (Item A) → List (Item A)
  unfolding insert_item
  sort_items [] = []
  sort_items (x ∷ xs) = insert_item x (sort_items xs)

  -- `for index, end in enumerate(self.ends)`
  unfoldable pub fill_leaves : List (Item A) → ℕ → Tree → Tree
  fill_leaves [] slot tree = tree
  fill_leaves ((start, end, payload) ∷ rest) slot tree =
      fill_leaves rest (suc slot) (assign tree slot (some end))

  abbrev pub start_at : List (Item A) → ℕ → ℕ
  start_at items i = elim (get_elem? items i) [ none ↦ 0 | some item ↦ item.0 ]

-- starts, ends and payloads in one list, the size and the tree
pub record Intervals (A : Type 0) : Type 0 where
  pub items : List (Item A)
  pub size : ℕ
  pub tree : Tree

abbrev pub Node : Type 0
Node = ℕ × ℕ × ℕ

module _ {A : Type 0} where
  -- `__init__`
  unfoldable pub build : List (Item A) → Intervals A
  unfolding sort_items fill_leaves fill_inner size_loop
  build unsorted =
      let sorted = sort_items unsorted in
      let size = size_loop (length sorted) (max 1 (length sorted)) 1 in
      record {
        items = sorted;
        size = size;
        tree = fill_inner (size - 1) (fill_leaves sorted size (λ slot. none));
      }

  -- the payload at `lo`; `none` is IndexError
  abbrev yielded : Option (Item A) → Option (List A) → Option (List A)
  yielded none rest = none
  yielded (some item) none = none
  yielded (some item) (some rest) = some (item.2 ∷ rest)

  -- the loop of `covering` over the stack, every round of which pops a node
  unfoldable pub covering_loop : Intervals A → ℕ → ℕ → ℕ → List Node → Option (List A)
  covering_loop s limit row zero stack = some []
  covering_loop s limit row (suc fuel) [] = some []
  covering_loop s limit row (suc fuel) ((slot, lo, hi) ∷ stack) =
      elim (leb limit lo || below (s.tree slot) row) [
        | true ↦ covering_loop s limit row fuel stack
        | false ↦ elim (lo == hi) [
          | true ↦ yielded (get_elem? s.items lo) (covering_loop s limit row fuel stack)
          | false ↦
              let mid = (lo + hi) / 2 in
              covering_loop s limit row fuel
                ((2 * slot, lo, mid) ∷ (2 * slot + 1, mid + 1, hi) ∷ stack)
        ]
      ]

  unfoldable pub covering : Intervals A → ℕ → Option (List A)
  unfolding covering_loop bisect_loop
  covering s row =
      let limit = bisect_loop (length s.items) (start_at s.items) row 0 (length s.items) in
      if limit == 0
      then some []
      else covering_loop s limit row (2 * s.size) ((1, 0, s.size - 1) ∷ [])
