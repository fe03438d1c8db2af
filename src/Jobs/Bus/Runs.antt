-- ===== src/Jobs/Bus/Runs.antt =====
-- Runs of a job: what holds over any sequence of operations on the bus.
use finance_context_builder.Base.{
  ℕ, ◌<◌, ◌≤◌, ◌≡◌, refl, ◌∙◌, sym, Bool, true, false, List, [], ◌∷◌, arith, Option, some, ◌⊎◌, inl,
  inr, if◌then◌else◌, Bool-cases, Option-cases,
}
use finance_context_builder.Base.Eq.{nat_eq, list_eq, ◌==◌, equal_refl}
use finance_context_builder.Base.Dict.{get, put, get-put}
use finance_context_builder.Base.Text.{Text}
use finance_context_builder.Jobs.Bus.{
  Bus, JobRecord, Status, is_live, live_record, Action, act, report, give_up, time_out, finish,
  act_all, new_record, queued, failed, failed_text, next_generation, live_record, enqueue,
  set_progress, abandon, expire, set_terminal, ensure, is_cancelled, current_generation,
}
use finance_context_builder.Jobs.Bus.Growth.{act_all-Follows}

-- No sequence of operations lowers the generation of a job.
pub current_generation-act_all :
    (bus : Bus) (xs : List Action) (id : Text)
    → current_generation bus id ≤ current_generation (act_all bus xs) id
unfolding current_generation
current_generation-act_all bus xs id = elim (Option-cases (get bus id)) [
  | inl missing ↦ ground arith
  | inr (r, found) ↦ let (s, found', later) = act_all-Follows bus xs id r found in ground arith
]

-- A run that the bus once reported as cancelled, of a generation that the job has reached, is
-- reported as cancelled after any further operations.
pub is_cancelled-act_all :
    (bus : Bus) (xs : List Action) (id : Text) (generation : ℕ)
    → 0 < generation
    → generation ≤ current_generation bus id
    → is_cancelled bus id generation ≡ true
    → is_cancelled (act_all bus xs) id generation ≡ true
unfolding current_generation is_cancelled
is_cancelled-act_all bus xs id generation p q h = elim (Option-cases (get bus id)) [
  | inl missing ↦ absurd (ground arith)
  | inr (r, found) ↦ let (s, found', later) = act_all-Follows bus xs id r found in ground arith
]

-- The record of a run that has ended stays as it is until a run of a higher generation begins.
pub act_all-ended :
    (bus : Bus) (xs : List Action) (id : Text) (r s : JobRecord)
    → get bus id ≡ some r
    → is_live r.status ≡ false
    → get (act_all bus xs) id ≡ some s
    → (s ≡ r) ⊎ (r.generation < s.generation)
act_all-ended bus xs id r s found over found' =
    let (t, there, later) = act_all-Follows bus xs id r found in
    let same : t ≡ s = ground arith in
    elim later [ inl newer ↦ inr (ground arith) | inr (_, _, kept) ↦ inl (sym same ∙ kept over) ]

-- what a refusal leaves
abbrev pub IsRefused : Bus → Text → Bool × Bus → Type 0
IsRefused bus id result = (result ≡ (false, bus)) × (live_record (get bus id) ≡ true)

-- what a new run leaves
abbrev pub IsStarted : Bus → Text → ℕ → Bool × Bus → Type 0
IsStarted bus id minimum result =
    (result.0 ≡ true)
    × (live_record (get bus id) ≡ false)
    × (generation : ℕ) × (current_generation bus id < generation)
    × (minimum < generation)
    × ((other : Text)
        → get result.1 other
          ≡ (if id == other then some (new_record id queued generation) else get bus other))

-- `enqueue` refuses a job that is queued or running and leaves the bus as it is. Otherwise the job
-- gets a queued record that is not cancelled, of a generation above its last one and above the
-- stored one, and the records of other jobs stay.
pub enqueue_lem :
    (bus : Bus) (id : Text) (minimum : ℕ)
    → IsRefused bus id (enqueue bus id minimum) ⊎ IsStarted bus id minimum (enqueue bus id minimum)
unfolding enqueue current_generation
enqueue_lem bus id minimum =
    let generation = next_generation (get bus id) minimum in
    let new = new_record id queued generation in
    elim (Bool-cases (live_record (get bus id))) [
      | inl live ↦ inl (ground arith, live)
      | inr over ↦ inr (
        ground arith,
        over,
        generation,
        ground arith,
        ground arith,
        λ other. ground (arith, get-put bus id other new),
      )
    ]

-- What the worker of a run of a job may ask of the bus.
pub data Request : Type 0 where
  reports : Text → Request
  gives_up : Text → Request
  times_out : Request
  finishes : Status → Text → Option Text → Request

abbrev pub action_of : Text → ℕ → Request → Action
action_of id generation (reports stage) = report id stage (some generation)
action_of id generation (gives_up error) = give_up id generation error
action_of id generation times_out = time_out id generation
action_of id generation (finishes status stage error) =
    finish id status stage error (some generation)

-- Operations of any kind, and among them the requests of that run.
abbrev pub Mixed : Type 0
Mixed = List (Action ⊎ Request)

abbrev pub all_of : Text → ℕ → Mixed → List Action
all_of id generation [] = []
all_of id generation (inl x ∷ xs) = x ∷ all_of id generation xs
all_of id generation (inr request ∷ xs) = action_of id generation request ∷ all_of id generation xs

abbrev pub without_run : Mixed → List Action
without_run [] = []
without_run (inl x ∷ xs) = x ∷ without_run xs
without_run (inr request ∷ xs) = without_run xs

act-action_of :
    (bus : Bus) (id : Text) (generation : ℕ) (request : Request)
    → generation < current_generation bus id
    → act bus (action_of id generation request) ≡ bus
unfolding act current_generation set_progress set_terminal abandon expire ensure
act-action_of bus id generation (reports stage) old = ground arith
act-action_of bus id generation (gives_up error) old = ground arith
act-action_of bus id generation times_out old = ground arith
act-action_of bus id generation (finishes status stage error) old = ground arith

-- When a job has reached a later generation, what the worker of an older run asks of the bus has no
-- effect, wherever it comes among any operations: the bus ends as without it.
pub stale_ignored :
    (bus : Bus) (id : Text) (generation : ℕ) (xs : Mixed)
    → generation < current_generation bus id
    → act_all bus (all_of id generation xs) ≡ act_all bus (without_run xs)
unfolding act_all
stale_ignored bus id generation [] old = refl
stale_ignored bus id generation (inl x ∷ xs) old =
    let later = current_generation-act_all bus (x ∷ []) id in
    stale_ignored (act bus x) id generation xs (omega arith)
stale_ignored bus id generation (inr request ∷ xs) old =
    rw (act_all, act-action_of bus id generation request old)
      (stale_ignored bus id generation xs old)

-- An abandoned run is cancelled and the job can be enqueued again.
pub enqueue-abandon :
    (bus : Bus) (id : Text) (generation : ℕ) (why : Text) (minimum : ℕ)
    → (abandon bus id generation why).0 ≡ true
    → (is_cancelled (abandon bus id generation why).1 id generation ≡ true)
      × ((enqueue (abandon bus id generation why).1 id minimum).0 ≡ true)
unfolding abandon is_cancelled enqueue
enqueue-abandon bus id generation why minimum h = elim (Option-cases (get bus id)) [
  | inl missing ↦ absurd (ground arith)
  | inr (rec, found) ↦
      let new : JobRecord = record rec {
        cancel = true;
        status = failed;
        stage = failed_text;
        error = some why;
      } in
      let here : (id == id) ≡ true = equal_refl id in
      let stored : get (put bus id new) id ≡ some new = get-put bus id id new ∙ rw here refl in
      let result : (abandon bus id generation why).1 ≡ put bus id new = ground arith in
      rw (result, stored) (ground arith, refl)
]
