-- ===== src/Jobs/Examples.antt =====
-- The job bus on a concrete sequence of operations.
use finance_context_builder.Base.{
  ◌<◌, ◌≤◌, ◌≡◌, refl, true, false, List, [], ◌∷◌, arith, none, some, ◌⊎◌, inl, inr,
}
use finance_context_builder.Base.Eq.{nat_eq, list_eq}
use finance_context_builder.Base.Dict.{get, put}
use finance_context_builder.Base.Text.{Text}
use finance_context_builder.Jobs.Bus.{
  Bus, JobRecord, failed, succeeded, Action, act_all, enqueue_job, report, time_out, finish,
  enqueue, abandon, running, is_cancelled, current_generation, failed_text, timeout_text,
}
use finance_context_builder.Jobs.Bus.Runs.{
  IsRefused, IsStarted, current_generation-act_all, is_cancelled-act_all, act_all-ended,
  enqueue_lem, stale_ignored, enqueue-abandon, Mixed, reports, gives_up, finishes, all_of,
  without_run,
}

abbrev job : Text
job = b'j' ∷ []

abbrev stage : Text
stage = b's' ∷ []

-- A run that timed out and was started again.
abbrev bus : Bus
bus = act_all [] (enqueue_job job 0 ∷ report job stage (some 1) ∷ time_out job 1 ∷ [])

abbrev again : List Action
again =
    enqueue_job job 3 ∷ finish job succeeded stage none (some 1) ∷ report job stage (some 4) ∷ []

restarts : current_generation (act_all bus again) job ≡ 4
unfolding current_generation act_all get put
restarts = refl

current_generation-act_all_example :
    current_generation bus job ≤ current_generation (act_all bus again) job
current_generation-act_all_example = current_generation-act_all bus again job

is_cancelled-act_all_example : is_cancelled (act_all bus again) job 1 ≡ true
unfolding is_cancelled act_all current_generation get put
is_cancelled-act_all_example = is_cancelled-act_all bus again job 1 (omega arith) (omega arith) refl

abbrev ended : JobRecord
ended = record {
  job_id = job;
  status = failed;
  stage = failed_text;
  error = some timeout_text;
  cancel = true;
  generation = 1;
}

abbrev renewed : JobRecord
renewed = record ended {
  status = running;
  stage = stage;
  error = none;
  cancel = false;
  generation = 4;
}

act_all-ended_example : (renewed ≡ ended) ⊎ (1 < 4)
unfolding act_all get put
act_all-ended_example = act_all-ended bus again job ended renewed refl refl refl

enqueue_lem_example :
    IsRefused bus job (enqueue bus job 3) ⊎ IsStarted bus job 3 (enqueue bus job 3)
enqueue_lem_example = enqueue_lem bus job 3

-- The first run still reports, and a second one begins, reports and ends.
abbrev mixed : Mixed
mixed =
    inr (reports stage)
    ∷ inl (enqueue_job job 0)
    ∷ inr (gives_up stage)
    ∷ inl (report job stage (some 4))
    ∷ inr (finishes succeeded stage none)
    ∷ []

abbrev twice : Bus
twice = act_all bus again

stale_ignored_example : act_all twice (all_of job 1 mixed) ≡ act_all twice (without_run mixed)
unfolding act_all current_generation get put
stale_ignored_example = stale_ignored twice job 1 mixed (omega arith)

abbrev running_bus : Bus
running_bus = act_all [] (enqueue_job job 0 ∷ report job stage none ∷ [])

enqueue-abandon_example :
    (is_cancelled (abandon running_bus job 1 stage).1 job 1 ≡ true)
    × ((enqueue (abandon running_bus job 1 stage).1 job 0).0 ≡ true)
unfolding abandon act_all get put
enqueue-abandon_example = enqueue-abandon running_bus job 1 stage 0 refl
