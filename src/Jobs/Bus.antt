-- ===== src/Jobs/Bus.antt =====
-- The job bus, adapters/memory_bus.py: the live record of every job. The lock makes each operation
-- one step; a run of the bus is a list of operations, in the order in which they take the lock.
pub mod Growth
pub mod Runs
use finance_context_builder.Base.{
  ℕ, zero, suc, ◌+◌, Bool, true, false, ◌&&◌, ◌||◌, not, List, [], ◌∷◌, ltb, if◌then◌else◌, Option,
  none, some,
}
use finance_context_builder.Base.Eq.{◌==◌, nat_eq, list_eq}
use finance_context_builder.Base.Dict.{Dict, get, put}
use finance_context_builder.Base.Text.{Text}

pub data Status : Type 0 where
  queued running succeeded degraded needs_input failed : Status

pub record JobRecord : Type 0 where
  pub job_id : Text
  pub status : Status
  pub stage : Text
  pub error : Option Text
  pub cancel : Bool
  pub generation : ℕ

abbrev pub Bus : Type 0
Bus = Dict Text JobRecord

-- "queued", "failed", "TimeoutError"
abbrev pub queued_text : Text
queued_text = b'q' ∷ b'u' ∷ b'e' ∷ b'u' ∷ b'e' ∷ b'd' ∷ []

abbrev pub failed_text : Text
failed_text = b'f' ∷ b'a' ∷ b'i' ∷ b'l' ∷ b'e' ∷ b'd' ∷ []

abbrev pub timeout_text : Text
timeout_text =
    b'T' ∷ b'i' ∷ b'm' ∷ b'e' ∷ b'o' ∷ b'u' ∷ b't' ∷ b'E' ∷ b'r' ∷ b'r' ∷ b'o' ∷ b'r' ∷ []

-- JobRecord(job_id=…, status=…, generation=…), the other fields at their defaults
abbrev pub new_record : Text → Status → ℕ → JobRecord
new_record id status generation = record {
  job_id = id;
  status = status;
  stage = queued_text;
  error = none;
  cancel = false;
  generation = generation;
}

-- status in {"queued", "running"}
abbrev pub is_live : Status → Bool
is_live queued = true
is_live running = true
is_live succeeded = false
is_live degraded = false
is_live needs_input = false
is_live failed = false

abbrev pub live_record : Option JobRecord → Bool
live_record none = false
live_record (some rec) = is_live rec.status

abbrev pub next_generation : Option JobRecord → ℕ → ℕ
next_generation rec minimum =
    let nxt : ℕ = elim rec [ none ↦ 1 | some r ↦ r.generation + 1 ] in
    let floor : ℕ = if ltb 0 minimum then minimum + 1 else 1 in if ltb floor nxt then nxt else floor

unfoldable pub enqueue : Bus → Text → ℕ → Bool × Bus
enqueue bus id minimum =
    let rec = get bus id in
    if live_record rec
    then (false, bus)
    else (true, put bus id (new_record id queued (next_generation rec minimum)))

unfoldable pub current_generation : Bus → Text → ℕ
current_generation bus id = elim (get bus id) [ none ↦ 0 | some rec ↦ rec.generation ]

unfoldable pub owns : Bus → Text → ℕ → Bool
owns bus id generation = elim (get bus id) [
  | none ↦ false
  | some rec ↦ rec.generation == generation
]

unfoldable pub is_cancelled : Bus → Text → ℕ → Bool
is_cancelled bus id generation = elim (get bus id) [
  | none ↦ true
  | some rec ↦ if not (rec.generation == generation) then true else rec.cancel
]

-- `generation or 0`
abbrev pub or_zero : Option ℕ → ℕ
or_zero none = 0
or_zero (some generation) = generation

-- `generation is not None and rec.generation != generation`
abbrev pub stale : Option ℕ → JobRecord → Bool
stale none rec = false
stale (some generation) rec = not (rec.generation == generation)

-- the record, which the bus gets when it has none
abbrev pub found_or : Option JobRecord → JobRecord → JobRecord
found_or none fresh = fresh
found_or (some rec) fresh = rec

unfoldable pub ensure : Bus → Text → JobRecord → Bus
ensure bus id fresh = elim (get bus id) [ none ↦ put bus id fresh | some rec ↦ bus ]

unfoldable pub set_progress : Bus → Text → Text → Option ℕ → Bus
unfolding ensure
set_progress bus id stage generation =
    let fresh = new_record id running (or_zero generation) in
    let rec = found_or (get bus id) fresh in
    let bus' = ensure bus id fresh in
    if stale generation rec
    then bus'
    else if rec.cancel || not (is_live rec.status)
    then bus'
    else put bus' id (record rec { stage = stage; status = running })

unfoldable pub abandon : Bus → Text → ℕ → Text → Bool × Bus
abandon bus id generation error = elim (get bus id) [
  | none ↦ (false, bus)
  | some rec ↦
      if not (rec.generation == generation)
      then (false, bus)
      else if not (is_live rec.status)
      then (false, bus)
      else (
        true,
        put bus id (record rec {
          cancel = true;
          status = failed;
          stage = failed_text;
          error = some error;
        }),
      )
]

unfoldable pub expire : Bus → Text → ℕ → Bool × Bus
unfolding abandon
expire bus id generation = abandon bus id generation timeout_text

unfoldable pub set_terminal : Bus → Text → Status → Text → Option Text → Option ℕ → Bus
unfolding ensure
set_terminal bus id status stage error generation =
    let fresh = new_record id queued (or_zero generation) in
    let rec = found_or (get bus id) fresh in
    let bus' = ensure bus id fresh in
    if stale generation rec
    then bus'
    else if not (is_live rec.status)
    then bus'
    else put bus' id (record rec { status = status; stage = stage; error = error })

-- `JobProgress`: the bus seen from one run of a job.
pub record JobProgress : Type 0 where
  pub job_id : Text
  pub generation : ℕ

unfoldable pub progress : Bus → JobProgress → Text → Bus
unfolding set_progress
progress bus handle stage = set_progress bus handle.job_id stage (some handle.generation)

unfoldable pub cancelled : Bus → JobProgress → Bool
unfolding is_cancelled
cancelled bus handle = is_cancelled bus handle.job_id handle.generation

-- The operations that may change the bus.
pub data Action : Type 0 where
  enqueue_job : Text → ℕ → Action
  report : Text → Text → Option ℕ → Action
  give_up : Text → ℕ → Text → Action
  time_out : Text → ℕ → Action
  finish : Text → Status → Text → Option Text → Option ℕ → Action

unfoldable pub act : Bus → Action → Bus
unfolding enqueue set_progress abandon expire set_terminal
act bus (enqueue_job id minimum) = (enqueue bus id minimum).1
act bus (report id stage generation) = set_progress bus id stage generation
act bus (give_up id generation error) = (abandon bus id generation error).1
act bus (time_out id generation) = (expire bus id generation).1
act bus (finish id status stage error generation) =
    set_terminal bus id status stage error generation

unfoldable pub act_all : Bus → List Action → Bus
unfolding act
act_all bus [] = bus
act_all bus (x ∷ xs) = act_all (act bus x) xs
