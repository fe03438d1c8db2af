-- ===== src/Formulas/Known/Queries.antt =====
-- What `__contains__` answers, and what `add` changes of the answers.
use finance_context_builder.Base.{
  ℕ, ◌≤◌, ◌<◌, ◌≡◌, refl, sym, ap, ◌∙◌, Bool, true, false, ◌||◌, ◌&&◌, List, [], ◌∷◌, arith, All,
  All-append, none, some, subst, Option-cases, Bool-cases, inl, inr, max, ◌↔◌,
}
use finance_context_builder.Base.Eq.{
  ◌==◌, nat_eq, list_eq, pair_eq, list_beq, list_beq_iff, pair_beq, pair_beq_iff,
}
use finance_context_builder.Base.Dict.{get}
use finance_context_builder.Base.Text.{Text, Unicode, str, str-digits, IsAsciiDigit}
use finance_context_builder.Excel.Columns.{index_to_col}
use finance_context_builder.Excel.Columns.Letters.{IsCapital, index_to_col-capitals}
use finance_context_builder.Excel.Addresses.{parse_addr, format_addr}
use finance_context_builder.Excel.Addresses.RoundTrip.{parse_addr-format_addr, parse_addr_normal}
use finance_context_builder.Formulas.Spans.{span_has}
use finance_context_builder.Formulas.Spans.Search.{span_has-eq-covers}
use finance_context_builder.Formulas.RunTables.{runs_at}
use finance_context_builder.Formulas.RunTables.Covering.{runs_at-RunsFrom}
use finance_context_builder.Formulas.Known.{
  Column, KnownNodes, node_text, split_last, elem, set_add, canonical_node_id, add, in_runs_body,
  in_runs, contains, finalize, reopen, touch, writable,
}
use finance_context_builder.Formulas.Known.View.{
  view, IsValid, view-touch, touch-IsValid, view-finalize, finalize-IsValid, view-reopen,
  reopen-IsValid,
}

-- No "!" at or below the digits: every character of a formatted address.
abbrev NoBang : Text → Type 0
NoBang t = All (λ c. 48 ≤ c) t

split_last-NoBang : (body : Text) → NoBang body → split_last body ≡ none
unfolding split_last
split_last-NoBang [] h = refl
split_last-NoBang (c ∷ body) h = ground (arith, split_last-NoBang body h.1)

split_last-node_text :
    (sheet body : Text) → NoBang body → split_last (node_text sheet body) ≡ some (sheet, body)
unfolding split_last
split_last-node_text [] body h = ground (arith, split_last-NoBang body h)
split_last-node_text (c ∷ sheet) body h = ground (arith, split_last-node_text sheet body h)

split_last-some :
    (sheet body : Text) → (p : Text × Text) × (split_last (node_text sheet body) ≡ some p)
unfolding split_last
split_last-some [] body = elim (Option-cases (split_last body)) [
  | inl missing ↦ (([], body), ground arith)
  | inr (p, found) ↦ ((b'!' ∷ p.0, p.1), ground arith)
]
split_last-some (c ∷ sheet) body =
    let (p, found) = split_last-some sheet body in ((c ∷ p.0, p.1), ground arith)

split_last-eq :
    (item sheet body : Text) → split_last item ≡ some (sheet, body) → item ≡ node_text sheet body
unfolding split_last
split_last-eq [] sheet body h = absurd (ground arith)
split_last-eq (c ∷ rest) sheet body h = elim (Option-cases (split_last rest)) [
  | inl missing ↦ ground arith
  | inr (p, found) ↦ ground (arith, split_last-eq rest p.0 p.1 found)
]

All-map : (P Q : ℕ → Type 0) (t : Text) → ((c : ℕ) → P c → Q c) → All P t → All Q t
All-map P Q [] f h = tt
All-map P Q (c ∷ t) f h = (f c h.0, All-map P Q t f h.1)

format_addr-NoBang : (col row : ℕ) → NoBang (format_addr col row)
unfolding format_addr
format_addr-NoBang col row =
    let (c, rest, e, capitals) = index_to_col-capitals col in
    All-append (λ x. 48 ≤ x) (index_to_col col) (str row)
      (subst NoBang (sym e)
        (All-map IsCapital (λ x. 48 ≤ x) (c ∷ rest) (λ x h. omega arith) capitals))
      (All-map IsAsciiDigit (λ x. 48 ≤ x) (str row) (λ x h. omega arith) (str-digits row))

elem-set_add :
    (xs : List Text) (x item : Text) → elem (set_add xs x) item ≡ (x == item || elem xs item)
elem-set_add xs x item = elim (Bool-cases (elem xs x)) [
  | inl old ↦
      let known = λ (e : x ≡ item). subst (λ t. elem xs t ≡ true) e old in
      elim (Bool-cases (list_beq x item)) [
        | inl same ↦ let at = known ((list_beq_iff x item).0 same) in ground arith
        | inr other ↦ ground arith
      ]
  | inr new ↦ rw (new, set_add)
]

literals-finalize : (s : KnownNodes) → (finalize s).literals ≡ s.literals
unfolding finalize
literals-finalize s = ground arith

literals-reopen : (s : KnownNodes) → (reopen s).literals ≡ s.literals
unfolding reopen
literals-reopen s = refl

literals-touch :
    (s : KnownNodes) (sheet : Text) (col row : ℕ) → (touch s sheet col row).literals ≡ s.literals
unfolding touch
literals-touch s sheet col row = ground arith

-- Two tests and a third that means both of them, as they meet in a query.
add_to_view :
    (formatted in_view same_cell is_id : Bool)
    → (is_id ≡ true → (formatted ≡ true) × (same_cell ≡ true))
    → (formatted ≡ true → same_cell ≡ true → is_id ≡ true)
    → (formatted && (in_view || same_cell)) ≡ (is_id || formatted && in_view)
add_to_view formatted in_view same_cell is_id to from = ground arith

not_true : (b : Bool) → ¬ (b ≡ true) → b ≡ false
not_true true h = absurd (h refl)
not_true false h = refl

writable-IsValid :
    (s : KnownNodes) → IsValid s → IsValid (writable s) × ((writable s).ready ≡ false)
unfolding writable
writable-IsValid s v = elim (Bool-cases s.ready) [
  | inl ready ↦
      let same : reopen s ≡ writable s = ground arith in
      (subst IsValid same (reopen-IsValid s v), unfold reopen in ground arith)
  | inr not_ready ↦ let same : s ≡ writable s = ground arith in (subst IsValid same v, ground arith)
]

module _ (u : Unicode) where
  -- The cell that a canonical id of a cell names, looked up in the view.
  abbrev body_known : KnownNodes → Text → Text → Bool
  body_known s sheet body = elim (parse_addr u body) [
    | none ↦ false
    | some (col, row) ↦ format_addr col row == body && view s (sheet, col) row
  ]

  abbrev pub knows : KnownNodes → Text → Bool
  knows s item = elim (split_last item) [
    | none ↦ false
    | some (sheet, body) ↦ elem s.literals item || body_known s sheet body
  ]

  ready_view :
      (s : KnownNodes) (k : Column) (row : ℕ)
      → IsValid s
      → s.ready ≡ true
      → span_has (runs_at s.rows k) row ≡ view s k row
  unfolding get
  ready_view s k row v h =
      let (no_open, no_closed) = v.when_ready h in
      ground
        (arith, span_has-eq-covers (runs_at s.rows k) row (runs_at-RunsFrom s.rows k v.merged_rows))

  in_runs_body-eq :
      (s : KnownNodes) (sheet body : Text)
      → IsValid s
      → s.ready ≡ true
      → in_runs_body u s sheet body ≡ body_known s sheet body
  unfolding in_runs_body
  in_runs_body-eq s sheet body v h = elim (Option-cases (parse_addr u body)) [
    | inl bad ↦ ground arith
    | inr (cell, good) ↦ ground (arith, ready_view s (sheet, cell.0) cell.1 v h)
  ]

  pub knows-finalize :
      (s : KnownNodes) (item : Text) → IsValid s → knows (finalize s) item ≡ knows s item
  knows-finalize s item v = elim (Option-cases (split_last item)) [
    | inl no_split ↦ ground arith
    | inr (p, split) ↦ elim (Option-cases (parse_addr u p.1)) [
      | inl bad ↦ ground (arith, literals-finalize s)
      | inr (cell, good) ↦
          ground (arith, literals-finalize s, view-finalize s (p.0, cell.0) cell.1 v)
    ]
  ]

  -- On a valid index a query answers what the view knows, and leaves a valid index with that view.
  pub contains-eq-knows :
      (s : KnownNodes) (item : Text)
      → IsValid s
      → ((contains u s item).0 ≡ knows s item)
        × IsValid (contains u s item).1
        × ((other : Text) → knows (contains u s item).1 other ≡ knows s other)
  unfolding contains in_runs
  contains-eq-knows s item v = elim (Option-cases (split_last item)) [
    | inl no_split ↦
        let same : s ≡ (contains u s item).1 = ground arith in
        (ground arith, subst IsValid same v, λ other. ap (λ t. knows t other) (sym same))
    | inr (p, split) ↦
        let same : finalize s ≡ (contains u s item).1 = ground arith in
        let (valid, ready) = finalize-IsValid s v in
        (
          ground (arith, knows-finalize s item v, in_runs_body-eq (finalize s) p.0 p.1 valid ready),
          subst IsValid same valid,
          λ other. ap (λ t. knows t other) (sym same) ∙ knows-finalize s other v,
        )
  ]

  knows-reopen : (s : KnownNodes) (item : Text) → IsValid s → knows (reopen s) item ≡ knows s item
  knows-reopen s item v = elim (Option-cases (split_last item)) [
    | inl no_split ↦ ground arith
    | inr (p, split) ↦ elim (Option-cases (parse_addr u p.1)) [
      | inl bad ↦ ground (arith, literals-reopen s)
      | inr (cell, good) ↦ ground (arith, literals-reopen s, view-reopen s (p.0, cell.0) cell.1 v)
    ]
  ]

  -- An item is the id of a cell exactly when it splits at the sheet and at the formatted address.
  cell_id_iff :
      (sheet : Text) (col row : ℕ) (item sheet' body : Text)
      → split_last item ≡ some (sheet', body)
      → (node_text sheet (format_addr col row) ≡ item)
        ↔ ((sheet ≡ sheet') × (format_addr col row ≡ body))
  cell_id_iff sheet col row item sheet' body split = (
    λ e.
        let at = split_last-node_text sheet (format_addr col row) (format_addr-NoBang col row) in
        let parts : Text × Text = (sheet, format_addr col row) in
        let parts' : Text × Text = (sheet', body) in
        let both : some parts ≡ some parts' = sym at ∙ ap split_last e ∙ split in ground arith,
    λ h. cc (split_last-eq item sheet' body split),
  )

  -- A parsed body that is the formatted address of a cell has that cell's column and row.
  parsed_cell :
      (col row c r : ℕ) (body : Text)
      → 0 < col
      → format_addr col row ≡ body
      → parse_addr u body ≡ some (c, r)
      → (c ≡ col) × (r ≡ row)
  parsed_cell col row c r body pos e good =
      let wanted : ℕ × ℕ = (max col 1, row) in
      let found : ℕ × ℕ = (c, r) in
      let same : some found ≡ some wanted =
        sym good ∙ ap (parse_addr u) (sym e) ∙ parse_addr-format_addr u col row in
      let clamp : max col 1 ≡ col = omega arith in ground arith

  body_known-touch :
      (s : KnownNodes) (sheet : Text) (col row : ℕ) (item sheet' body : Text)
      → IsValid s
      → 0 < col
      → split_last item ≡ some (sheet', body)
      → body_known (touch s sheet col row) sheet' body
        ≡ (list_beq (node_text sheet (format_addr col row)) item || body_known s sheet' body)
  body_known-touch s sheet col row item sheet' body v pos split =
      let cell_id = node_text sheet (format_addr col row) in
      let id_iff = cell_id_iff sheet col row item sheet' body split in
      let same_iff = list_beq_iff cell_id item in
      elim (Option-cases (parse_addr u body)) [
        | inl bad ↦
            let not_id = λ (h : list_beq cell_id item ≡ true).
              let wanted : ℕ × ℕ = (max col 1, row) in
              let parsed : some wanted ≡ none =
                sym (parse_addr-format_addr u col row)
                ∙ ap (parse_addr u) (id_iff.0 (same_iff.0 h)).1
                ∙ bad in
              let never : ⊥ = cc in never in
            let differs : list_beq cell_id item ≡ false = not_true (list_beq cell_id item) not_id in
            ground arith
        | inr (cell, good) ↦
            let key : Column = (sheet, col) in
            let key' : Column = (sheet', cell.0) in
            let formatted_iff = list_beq_iff (format_addr cell.0 cell.1) body in
            let parts = λ (h : format_addr col row ≡ body).
              parsed_cell col row cell.0 cell.1 body pos h good in
            let is_cell : cell_id ≡ item
                → (list_beq (format_addr cell.0 cell.1) body ≡ true)
                  × ((pair_beq key key' && row == cell.1) ≡ true) =
              λ e.
                let (same_sheet, formatted) = id_iff.0 e in
                let (same_col, same_row) = parts formatted in
                let at : format_addr cell.0 cell.1 ≡ body = cc in
                ground (arith, pair_beq_iff key key') in
            let is_item : list_beq (format_addr cell.0 cell.1) body ≡ true
                → (pair_beq key key' && row == cell.1) ≡ true
                → list_beq cell_id item ≡ true =
              λ f c.
                let same_key : key ≡ key' = ground (arith, pair_beq_iff key key') in
                let same_row : row ≡ cell.1 = ground arith in
                let at : format_addr cell.0 cell.1 ≡ body = formatted_iff.0 f in
                let here : format_addr col row ≡ body = ground arith in
                let sheets : sheet ≡ sheet' = ground arith in
                same_iff.1 (id_iff.1 (sheets, here)) in
            let joined =
              add_to_view (list_beq (format_addr cell.0 cell.1) body) (view s key' cell.1)
                (pair_beq key key' && row == cell.1) (list_beq cell_id item)
                (λ h. is_cell (same_iff.0 h)) (λ f c. is_item f c) in
            ground (arith, view-touch s sheet col row key' cell.1 v, joined)
      ]

  knows-touch :
      (s : KnownNodes) (sheet : Text) (col row : ℕ) (item : Text)
      → IsValid s
      → 0 < col
      → knows (touch s sheet col row) item
        ≡ (list_beq (node_text sheet (format_addr col row)) item || knows s item)
  knows-touch s sheet col row item v pos = elim (Option-cases (split_last item)) [
    | inl no_split ↦
        let (p, split) = split_last-some sheet (format_addr col row) in
        ground (
          arith,
          list_beq_iff (node_text sheet (format_addr col row)) item,
          ap split_last {x = item},
        )
    | inr (p, split) ↦ ground (
      arith,
      literals-touch s sheet col row,
      body_known-touch s sheet col row item p.0 p.1 v pos split,
    )
  ]

  knows-writable :
      (s : KnownNodes) (item : Text) → IsValid s → knows (writable s) item ≡ knows s item
  unfolding writable
  knows-writable s item v = elim (Bool-cases s.ready) [
    | inl ready ↦
        let same : reopen s ≡ writable s = ground arith in
        ap (λ t. knows t item) (sym same) ∙ knows-reopen s item v
    | inr not_ready ↦ let same : s ≡ writable s = ground arith in ap (λ t. knows t item) (sym same)
  ]

  knows-literal :
      (s : KnownNodes) (sheet addr item : Text)
      → knows (record s { literals = set_add s.literals (node_text sheet addr) }) item
        ≡ (list_beq (node_text sheet addr) item || knows s item)
  knows-literal s sheet addr item = elim (Option-cases (split_last item)) [
    | inl no_split ↦
        let (p, split) = split_last-some sheet addr in
        ground (arith, list_beq_iff (node_text sheet addr) item, ap split_last {x = item})
    | inr (p, split) ↦ ground (arith, elem-set_add s.literals (node_text sheet addr) item)
  ]

  -- Adding a cell or a literal makes its canonical id known, and no other text.
  pub knows-add :
      (s : KnownNodes) (sheet addr item : Text)
      → IsValid s
      → knows (add u s sheet addr) item ≡ (canonical_node_id u sheet addr == item || knows s item)
  unfolding add canonical_node_id
  knows-add s sheet addr item v = elim (Option-cases (parse_addr u addr)) [
    | inl bad ↦
        let next = record (writable s) {
          literals = set_add (writable s).literals (node_text sheet addr);
        } in
        let same : next ≡ add u s sheet addr = ground arith in
        ap (λ t. knows t item) (sym same)
        ∙ ground (arith, knows-literal (writable s) sheet addr item, knows-writable s item v)
    | inr (cell, good) ↦
        let same : touch (writable s) sheet cell.0 cell.1 ≡ add u s sheet addr = ground arith in
        let (pos, _) = parse_addr_normal u addr cell.0 cell.1 good in
        ap (λ t. knows t item) (sym same)
        ∙ ground (
          arith,
          knows-touch (writable s) sheet cell.0 cell.1 item (writable-IsValid s v).0 pos,
          knows-writable s item v,
        )
  ]

  literal-IsValid :
      (s : KnownNodes) (xs : List Text) → IsValid s → IsValid (record s { literals = xs })
  literal-IsValid s xs v = record {
    distinct_open = v.distinct_open;
    open_runs = v.open_runs;
    closed_runs = v.closed_runs;
    merged_rows = v.merged_rows;
    when_ready = v.when_ready;
    when_open = v.when_open;
  }

  pub add-IsValid : (s : KnownNodes) (sheet addr : Text) → IsValid s → IsValid (add u s sheet addr)
  unfolding add
  add-IsValid s sheet addr v = elim (Option-cases (parse_addr u addr)) [
    | inl bad ↦
        let literals' = set_add (writable s).literals (node_text sheet addr) in
        let same : record (writable s) { literals = literals' } ≡ add u s sheet addr =
          ground arith in
        subst IsValid same (literal-IsValid (writable s) literals' (writable-IsValid s v).0)
    | inr (cell, good) ↦
        let same : touch (writable s) sheet cell.0 cell.1 ≡ add u s sheet addr = ground arith in
        let (valid, not_ready) = writable-IsValid s v in
        subst IsValid same (touch-IsValid (writable s) sheet cell.0 cell.1 valid not_ready)
  ]
