-- ===== src/Jobs/Bus/Growth.antt =====
-- How one operation changes the record of a job.
use finance_context_builder.Base.{
  ℕ, ◌<◌, ◌≡◌, refl, ap, ◌∙◌, sym, subst, true, false, ◌||◌, not, ◌&&◌, List, [], ◌∷◌, arith,
  Option, none, some, ◌⊎◌, ◌↔◌, inl, inr, Bool-cases, Option-cases,
}
use finance_context_builder.Base.Eq.{nat_eq, list_eq, ◌==◌}
use finance_context_builder.Base.Dict.{get, put, get-put}
use finance_context_builder.Base.Text.{Text}
use finance_context_builder.Jobs.Bus.{
  Bus, JobRecord, Status, new_record, queued, next_generation, is_live, Action, act, enqueue_job,
  report, give_up, time_out, finish, enqueue, set_progress, abandon, expire, set_terminal, ensure,
  found_or, or_zero, stale, running, failed, failed_text, timeout_text, act_all,
}

-- A later record of the job: of a newer run, or of the same run, cancelled if it was, and the same
-- record if it had ended.
abbrev pub Later : JobRecord → JobRecord → Type 0
Later r s =
    (r.generation < s.generation)
    ⊎ ((r.generation ≡ s.generation)
        × (r.cancel ≡ true → s.cancel ≡ true)
        × (is_live r.status ≡ false → s ≡ r))

pub Later-refl : (r : JobRecord) → Later r r
Later-refl r = inr (refl, (λ h. h), λ h. refl)

pub Later-trans : (r s t : JobRecord) → Later r s → Later s t → Later r t
Later-trans r s t p q = elim p [
  | inl newer ↦ elim q [ inl again ↦ inl (omega arith) | inr (same, _, _) ↦ inl (omega arith) ]
  | inr (same, kept, over) ↦ elim q [
    | inl newer ↦ inl (omega arith)
    | inr (same', kept', over') ↦ inr (
      same ∙ same',
      (λ h. kept' (kept h)),
      λ ended.
          let stays : s ≡ r = over ended in
          over' (ap (λ x. is_live x.status) stays ∙ ended) ∙ stays,
    )
  ]
]

-- The job has a record in the bus that is later than `r`.
abbrev pub Follows : Bus → Text → JobRecord → Type 0
Follows bus id r = (s : JobRecord) × (get bus id ≡ some s) × Later r s

put-Follows :
    (bus : Bus) (key id : Text) (r new : JobRecord)
    → get bus id ≡ some r
    → (key ≡ id → Later r new)
    → Follows (put bus key new) id r
put-Follows bus key id r new h later = elim (Bool-cases (key == id)) [
  | inl hit ↦
      (new, get-put bus key id new ∙ ground (arith), later ((list_eq.equal_iff key id).0 hit))
  | inr miss ↦ (r, get-put bus key id new ∙ ground (arith), Later-refl r)
]

enqueue-Follows :
    (bus : Bus) (key id : Text) (minimum : ℕ) (r : JobRecord)
    → get bus id ≡ some r
    → Follows (enqueue bus key minimum).1 id r
unfolding enqueue
enqueue-Follows bus key id minimum r h = elim (Option-cases (get bus key)) [
  | inl fresh ↦
      let added : (enqueue bus key minimum).1
          ≡ put bus key (new_record key queued (next_generation none minimum)) =
        ground arith in
      subst (λ b. Follows b id r) (sym added)
        (put-Follows bus key id r (new_record key queued (next_generation none minimum)) h
          (λ same. absurd (ground arith)))
  | inr (old, found) ↦ elim (Bool-cases (is_live old.status)) [
    | inl live ↦ (r, ground arith, Later-refl r)
    | inr over ↦
        let new = new_record key queued (next_generation (some old) minimum) in
        let added : (enqueue bus key minimum).1 ≡ put bus key new = ground arith in
        subst (λ b. Follows b id r) (sym added)
          (put-Follows bus key id r new h (λ same.
            let here : old ≡ r = ground arith in
            subst (λ x. Later x new) here (inl (ground arith))))
  ]
]

-- `ensure` leaves the records that are there.
ensure-get :
    (bus : Bus) (key id : Text) (fresh r : JobRecord)
    → get bus id ≡ some r
    → get (ensure bus key fresh) id ≡ some r
unfolding ensure
ensure-get bus key id fresh r h = elim (Option-cases (get bus key)) [
  | inl missing ↦
      let exact : ((key == id) ≡ true) ↔ (key ≡ id) = list_eq.equal_iff key id in
      ground (arith, get-put bus key id fresh)
  | inr (old, found) ↦ ground arith
]

found-eq :
    (bus : Bus) (key id : Text) (fresh r : JobRecord)
    → get bus id ≡ some r
    → key ≡ id
    → found_or (get bus key) fresh ≡ r
found-eq bus key id fresh r h same = ground arith

update-Follows :
    (bus : Bus) (key id : Text) (fresh r new : JobRecord)
    → get bus id ≡ some r
    → Later (found_or (get bus key) fresh) new
    → Follows (put (ensure bus key fresh) key new) id r
update-Follows bus key id fresh r new h later =
    put-Follows (ensure bus key fresh) key id r new (ensure-get bus key id fresh r h)
      (λ same. subst (λ x. Later x new) (found-eq bus key id fresh r h same) later)

set_progress-Follows :
    (bus : Bus) (key stage : Text) (generation : Option ℕ) (id : Text) (r : JobRecord)
    → get bus id ≡ some r
    → Follows (set_progress bus key stage generation) id r
unfolding set_progress
set_progress-Follows bus key stage generation id r h =
    let fresh = new_record key running (or_zero generation) in
    let rec = found_or (get bus key) fresh in
    let unchanged : Follows (ensure bus key fresh) id r =
      (r, ensure-get bus key id fresh r h, Later-refl r) in
    elim (Bool-cases (stale generation rec)) [
      | inl old ↦ rw old unchanged
      | inr current ↦ elim (Bool-cases (rec.cancel || not (is_live rec.status))) [
        | inl over ↦ rw (current, over) unchanged
        | inr open_run ↦
            rw (current, open_run)
              (update-Follows bus key id fresh r _ h
                (inr (refl, (λ c. c), λ ended. absurd (ground arith))))
      ]
    ]

set_terminal-Follows :
    (bus : Bus) (key : Text) (status : Status) (stage : Text) (error : Option Text)
    (generation : Option ℕ) (id : Text) (r : JobRecord)
    → get bus id ≡ some r
    → Follows (set_terminal bus key status stage error generation) id r
unfolding set_terminal
set_terminal-Follows bus key status stage error generation id r h =
    let fresh = new_record key queued (or_zero generation) in
    let rec = found_or (get bus key) fresh in
    let unchanged : Follows (ensure bus key fresh) id r =
      (r, ensure-get bus key id fresh r h, Later-refl r) in
    elim (Bool-cases (stale generation rec)) [
      | inl old ↦ rw old unchanged
      | inr current ↦ elim (Bool-cases (is_live rec.status)) [
        | inl open_run ↦
            rw (current, open_run)
              (update-Follows bus key id fresh r _ h
                (inr (refl, (λ c. c), λ ended. absurd (ground arith))))
        | inr over ↦ rw (current, over) unchanged
      ]
    ]

abandon-Follows :
    (bus : Bus) (key : Text) (generation : ℕ) (error : Text) (id : Text) (r : JobRecord)
    → get bus id ≡ some r
    → Follows (abandon bus key generation error).1 id r
unfolding abandon
abandon-Follows bus key generation error id r h = elim (Option-cases (get bus key)) [
  | inl missing ↦ (r, ground arith, Later-refl r)
  | inr (rec, found) ↦ elim (Bool-cases (rec.generation == generation && is_live rec.status)) [
    | inl mine ↦
        let new : JobRecord = record rec {
          cancel = true;
          status = failed;
          stage = failed_text;
          error = some error;
        } in
        let given_up : put bus key new ≡ (abandon bus key generation error).1 = ground arith in
        subst (λ b. Follows b id r) given_up
          (put-Follows bus key id r new h (λ same.
            let here : rec ≡ r = ground arith in
            subst (λ x. Later x new) here
              (inr (refl, (λ c. refl), λ ended. absurd (ground arith)))))
    | inr not_mine ↦ (r, ground arith, Later-refl r)
  ]
]

-- Whatever an operation does, a record that is there is followed by a later one.
pub act-Follows :
    (bus : Bus) (x : Action) (id : Text) (r : JobRecord)
    → get bus id ≡ some r
    → Follows (act bus x) id r
unfolding act
act-Follows bus (enqueue_job key minimum) id r h = enqueue-Follows bus key id minimum r h
act-Follows bus (report key stage generation) id r h =
    set_progress-Follows bus key stage generation id r h
act-Follows bus (give_up key generation error) id r h =
    abandon-Follows bus key generation error id r h
act-Follows bus (time_out key generation) id r h =
    unfold expire in abandon-Follows bus key generation timeout_text id r h
act-Follows bus (finish key status stage error generation) id r h =
    set_terminal-Follows bus key status stage error generation id r h

pub act_all-Follows :
    (bus : Bus) (xs : List Action) (id : Text) (r : JobRecord)
    → get bus id ≡ some r
    → Follows (act_all bus xs) id r
unfolding act_all
act_all-Follows bus [] id r h = (r, h, Later-refl r)
act_all-Follows bus (x ∷ xs) id r h =
    let (s, found, later) = act-Follows bus x id r h in
    let (t, found', later') = act_all-Follows (act bus x) xs id s found in
    (t, found', Later-trans r s t later later')
