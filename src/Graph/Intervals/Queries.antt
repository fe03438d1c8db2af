-- ===== src/Graph/Intervals/Queries.antt =====
-- The query `covering` of `_Intervals`, graph/ranges.py.
use finance_context_builder.Base.{
  ℕ, zero, suc, ◌+◌, ◌-◌, ◌*◌, ◌/◌, ◌≤◌, ◌<◌, ◌≡◌, refl, sym, ap, ◌∙◌, subst, false, ◌||◌, ◌&&◌,
  List, [], ◌∷◌, ◌++◌, append_assoc, append-nil, leb, ltb, length, if◌then◌else◌, none, some,
  get_elem?, arith, Bool-cases, Option-cases, inl, inr, ◌⊎◌,
}
use finance_context_builder.Base.Eq.{◌==◌, nat_eq}
use finance_context_builder.Formulas.Spans.{bisect_loop}
use finance_context_builder.Graph.Intervals.{
  Item, Node, below, build, Intervals, covering_loop, covering, start_at, sort_items, insert_item,
}
use finance_context_builder.Graph.Intervals.Slots.{power, power-pos, IsHeap, build-IsHeap}
use finance_context_builder.Graph.Intervals.Hits.{
  hits, hits-add, hits-none, IsNode, IsStack, wanted, rounds, pass_over, yield_leaf, left_slot,
  right_slot,
}

height-cases : (h : ℕ) → (h ≡ 0) ⊎ ((k : ℕ) × (h ≡ suc k))
height-cases zero = inl refl
height-cases (suc k) = inr (k, refl)

module _ {A : Type 0} (s : Intervals A) (limit row : ℕ) (heap : IsHeap s)
    (room : limit ≤ length s.items) where
  -- The halves of a node stand for the same items and take the rounds that are left.
  halves_lem :
      (k slot lo hi fuel : ℕ) (stack : List Node)
      → IsNode s limit row slot lo (suc k)
      → hi + 1 ≡ lo + power (suc k)
      → IsStack s limit row stack
      → rounds s limit row ((slot, lo, hi) ∷ stack) ≤ suc fuel
      → ((lo == hi) ≡ false)
        × IsStack s limit row
            ((2 * slot, lo, (lo + hi) / 2) ∷ (2 * slot + 1, (lo + hi) / 2 + 1, hi) ∷ stack)
        × (rounds s limit row
              ((2 * slot, lo, (lo + hi) / 2) ∷ (2 * slot + 1, (lo + hi) / 2 + 1, hi) ∷ stack)
            ≤ fuel)
        × (wanted s limit row
              ((2 * slot, lo, (lo + hi) / 2) ∷ (2 * slot + 1, (lo + hi) / 2 + 1, hi) ∷ stack)
            ≡ wanted s limit row ((slot, lo, hi) ∷ stack))
  halves_lem k slot lo hi fuel stack node e valid enough =
      let p = power-pos k in
      let mid : (lo + hi) / 2 + 1 ≡ lo + power k = omega arith in
      let left : IsNode s limit row (2 * slot) lo k =
        (left_slot slot k (s.size + lo) node.0, omega arith) in
      let right : IsNode s limit row (2 * slot + 1) ((lo + hi) / 2 + 1) k =
        (right_slot slot k (s.size + lo) node.0 ∙ omega arith, omega arith) in
      let all : hi + 1 - lo ≡ power k + power k = omega arith in
      let first : (lo + hi) / 2 + 1 - lo ≡ power k = omega arith in
      let second : hi + 1 - ((lo + hi) / 2 + 1) ≡ power k = omega arith in
      (
        ground arith,
        ((k, left, mid), ((k, right, omega arith), valid)),
        omega arith,
        rw (all, second, first, mid)
            (sym (
                append_assoc (hits s limit row lo (power k))
                  (hits s limit row (lo + power k) (power k)) (wanted s limit row stack))
              ∙ ap (λ xs. xs ++ wanted s limit row stack)
                  (sym (hits-add s limit row lo (power k) (power k)))),
      )

  covering_loop-wanted :
      (fuel : ℕ) (stack : List Node)
      → IsStack s limit row stack
      → rounds s limit row stack ≤ fuel
      → covering_loop s limit row fuel stack ≡ some (wanted s limit row stack)
  unfolding covering_loop
  covering_loop-wanted zero [] valid enough = refl
  covering_loop-wanted zero ((slot, lo, hi) ∷ stack) valid enough = absurd (omega arith)
  covering_loop-wanted (suc fuel) [] valid enough = refl
  covering_loop-wanted (suc fuel) ((slot, lo, hi) ∷ stack) ((h, node, e), valid) enough =
      let ih = covering_loop-wanted fuel stack valid (omega arith) in
      elim (Bool-cases (leb limit lo || below (s.tree slot) row)) [
        | inl pass ↦
            let nothing = pass_over s limit row h slot lo hi heap node e pass in ground arith
        | inr open_node ↦ elim (height-cases h) [
          | inl leaf ↦
              let here : IsNode s limit row slot lo 0 =
                subst (IsNode s limit row slot lo) leaf node in
              let one : power h ≡ 1 = ap power leaf in
              let same : hi ≡ lo = omega arith in
              let (item, found, taken) = yield_leaf s limit row slot lo heap here room open_node in
              let count : hi + 1 - lo ≡ 1 = omega arith in
              let all : hits s limit row lo (hi + 1 - lo) ≡ item.2 ∷ [] =
                ap (hits s limit row lo) count ∙ taken in
              ground arith
          | inr (k, inner) ↦
              let here : IsNode s limit row slot lo (suc k) =
                subst (IsNode s limit row slot lo) inner node in
              let (split, valid', enough', same) =
                halves_lem k slot lo hi fuel stack here (e ∙ ap (λ n. lo + power n) inner) valid
                  enough in
              let deep =
                covering_loop-wanted fuel
                  ((2 * slot, lo, (lo + hi) / 2) ∷ (2 * slot + 1, (lo + hi) / 2 + 1, hi) ∷ stack)
                  valid' enough' in
              ground arith
        ]
      ]

-- The insertion point of a binary search on keys that do not decrease.
bisect_loop-splits :
    (key : ℕ → ℕ) (x n fuel lo hi : ℕ)
    → ((i j : ℕ) → i ≤ j → j < n → key i ≤ key j)
    → lo ≤ hi
    → hi ≤ n
    → hi - lo ≤ fuel
    → ((i : ℕ) → i < lo → key i ≤ x)
    → ((i : ℕ) → hi ≤ i → i < n → x < key i)
    → (bisect_loop fuel key x lo hi ≤ n)
      × ((i : ℕ) → i < n → ltb i (bisect_loop fuel key x lo hi) ≡ leb (key i) x)
unfolding bisect_loop
bisect_loop-splits key x n zero lo hi mono a b c before after =
    (omega arith, λ i p. ground (arith, before i, after i))
bisect_loop-splits key x n (suc fuel) lo hi mono a b c before after =
    let mid = (lo + hi) / 2 in
    elim (Bool-cases (ltb lo hi)) [
      | inr done ↦ rw done (omega arith, λ i p. ground (arith, before i, after i))
      | inl open_gap ↦ elim (Bool-cases (ltb x (key mid))) [
        | inl left ↦
            let ih =
              bisect_loop-splits key x n fuel lo mid mono (omega arith) (ground arith)
                (ground arith) before (λ i p q. ground (arith, mono mid i)) in
            rw (open_gap, left) ih
        | inr right ↦
            let ih =
              bisect_loop-splits key x n fuel (mid + 1) hi mono (ground arith) b (ground arith)
                (λ i p. ground (arith, mono i mid)) after in
            rw (open_gap, right) ih
      ]
    ]

module _ {A : Type 0} where
  abbrev Sorted : ℕ → List (Item A) → Type 0
  Sorted low [] = Unit
  Sorted low ((start, end, payload) ∷ rest) = (low ≤ start) × Sorted start rest

  insert_item-Sorted :
      (low : ℕ) (x : Item A) (ys : List (Item A))
      → low ≤ x.0
      → Sorted low ys
      → Sorted low (insert_item x ys)
  unfolding insert_item
  insert_item-Sorted low x [] h sorted = (h, tt)
  insert_item-Sorted low x (y ∷ ys) h sorted = elim (Bool-cases (leb x.0 y.0)) [
    | inl first ↦ rw (first, Sorted) (h, (ground arith, sorted.1))
    | inr later ↦ rw (later, Sorted) (sorted.0, insert_item-Sorted y.0 x ys (ground arith) sorted.1)
  ]

  sort_items-Sorted : (xs : List (Item A)) → Sorted 0 (sort_items xs)
  unfolding sort_items
  sort_items-Sorted [] = tt
  sort_items-Sorted (x ∷ xs) =
      insert_item-Sorted 0 x (sort_items xs) (omega arith) (sort_items-Sorted xs)

  start_at-low :
      (low : ℕ) (xs : List (Item A)) (i : ℕ) → Sorted low xs → i < length xs → low ≤ start_at xs i
  start_at-low low [] i sorted h = absurd (omega arith)
  start_at-low low (x ∷ xs) zero sorted h = sorted.0
  start_at-low low (x ∷ xs) (suc i) sorted h =
      omega (arith, start_at-low x.0 xs i sorted.1 (omega arith))

  start_at_mono :
      (low : ℕ) (xs : List (Item A)) (i j : ℕ)
      → Sorted low xs
      → i ≤ j
      → j < length xs
      → start_at xs i ≤ start_at xs j
  start_at_mono low [] i j sorted p h = absurd (omega arith)
  start_at_mono low (x ∷ xs) zero zero sorted p h = omega arith
  start_at_mono low (x ∷ xs) (suc i) zero sorted p h = absurd (omega arith)
  start_at_mono low (x ∷ xs) zero (suc j) sorted p h = start_at-low x.0 xs j sorted.1 (omega arith)
  start_at_mono low (x ∷ xs) (suc i) (suc j) sorted p h =
      start_at_mono x.0 xs i j sorted.1 (omega arith) (omega arith)

  -- The payloads of the items whose rows hold the row, in the order of the list.
  abbrev pub payloads : ℕ → List (Item A) → List A
  payloads row [] = []
  payloads row ((start, end, payload) ∷ rest) =
      if leb start row && leb row end then payload ∷ payloads row rest else payloads row rest

  hits-payloads :
      (s : Intervals A) (limit row lo n : ℕ) (xs : List (Item A))
      → ((i : ℕ) → get_elem? s.items (lo + i) ≡ get_elem? xs i)
      → ((i : ℕ) → i < length s.items → ltb i limit ≡ leb (start_at s.items i) row)
      → lo + length xs ≡ length s.items
      → length xs ≤ n
      → hits s limit row lo n ≡ payloads row xs
  hits-payloads s limit row lo zero [] same split count room = refl
  hits-payloads s limit row lo zero (x ∷ xs) same split count room = absurd (omega arith)
  hits-payloads s limit row lo (suc n) [] same split count room =
      hits-none s limit row lo (suc n) (λ i p q.
        let at : lo + (i - lo) ≡ i = omega arith in
        let beyond : get_elem? s.items i ≡ none = ap (get_elem? s.items) (sym at) ∙ same (i - lo) in
        ground arith)
  hits-payloads s limit row lo (suc n) (x ∷ xs) same split count room =
      let zero_add : lo + 0 ≡ lo = omega arith in
      let here : get_elem? s.items lo ≡ some x = ap (get_elem? s.items) (sym zero_add) ∙ same 0 in
      let start = split lo (omega arith) in
      let rest =
        hits-payloads s limit row (suc lo) n xs
          (λ i. ap (get_elem? s.items) (omega arith) ∙ same (suc i)) split (omega arith)
          (omega arith) in
      ground arith

  -- `covering(row)` of new intervals raises nothing and yields the payloads of exactly the items
  -- whose rows hold the row, ordered by their starts.
  pub covering-build :
      (items : List (Item A)) (row : ℕ)
      → covering (build items) row ≡ some (payloads row (sort_items items))
  covering-build items row =
      let s = build items in
      let heap = build-IsHeap items in
      let (h, size) = heap.height in
      let pos = power-pos h in
      let n = length s.items in
      let limit = bisect_loop n (start_at s.items) row 0 n in
      let sorted : Sorted 0 s.items = unfold build in sort_items-Sorted items in
      let (room, split) =
        bisect_loop-splits (start_at s.items) row n n 0 n
          (λ i j p q. start_at_mono 0 s.items i j sorted p q) (omega arith) (omega arith)
          (omega arith) (λ i p. absurd (omega arith)) (λ i p q. absurd (omega arith)) in
      let all : hits s limit row 0 s.size ≡ payloads row s.items =
        hits-payloads s limit row 0 s.size s.items (λ i. ap (get_elem? s.items) (omega arith)) split
          (omega arith) heap.room in
      let root : IsStack s limit row ((1, 0, s.size - 1) ∷ []) =
        ((h, (omega arith, omega arith), omega arith), tt) in
      let loop =
        covering_loop-wanted s limit row heap room (2 * s.size) ((1, 0, s.size - 1) ∷ []) root
          (omega arith) in
      let count : s.size - 1 + 1 - 0 ≡ s.size = omega arith in
      let same : s.items ≡ sort_items items = unfold build in refl in
      let code : covering s row ≡ (
          if limit == 0
          then some []
          else covering_loop s limit row (2 * s.size) ((1, 0, s.size - 1) ∷ [])) =
        unfold covering in refl in
      let reached : hits s limit row 0 (s.size - 1 + 1 - 0) ++ [] ≡ payloads row s.items =
        append-nil (hits s limit row 0 (s.size - 1 + 1 - 0))
        ∙ ap (hits s limit row 0) count
        ∙ all in
      elim (Bool-cases (limit == 0)) [
        | inl none_start ↦
            let nothing : hits s limit row 0 s.size ≡ [] = hits-none s limit row 0 s.size (λ i p q.
              elim (Option-cases (get_elem? s.items i)) [
                | inl outside ↦ ground arith
                | inr (item, found) ↦ ground arith
              ]) in
            ground arith
        | inr some_start ↦ ground arith
      ]
