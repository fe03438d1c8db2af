-- ===== src/Jobs/WorkerExamples.antt =====
-- The watch of a child and the worker's decisions on concrete inputs.
use finance_context_builder.Base.{
  ◌-◌, ◌<◌, ◌≡◌, ◌≢◌, ◌⊎◌, refl, min, Option, Bool, true, false, List, [], ◌∷◌, some, none,
}
use finance_context_builder.Base.Text.{Text}
use finance_context_builder.Jobs.Bus.{running, queued_text}
use finance_context_builder.Jobs.Child.{ChildResult, Round, plain, killed_by, unknown, watch_child}
use finance_context_builder.Jobs.Child.Causes.{causes, seen, explains, watch_child_lem}
use finance_context_builder.Jobs.Worker.{
  Limits, Meta, RqJob, Retry, count, busy_seen, rq_seen, is_terminal, execute_job, busy_results,
}
use finance_context_builder.Jobs.Horse.{HorseMeta, Target, target_of_meta, on_horse_killed, remains}
use finance_context_builder.Jobs.Worker.Retries.{busy_results_lem, execute_job-retry}
use finance_context_builder.Jobs.Worker.Endings.{execute_job-terminal, on_horse_killed_lem}

abbrev quiet : Round
quiet = record {
  now = 5;
  exits = false;
  alive = true;
  rss = some 100;
  oom_kills = some 3;
  code = unknown;
}

abbrev rounds : List Round
rounds =
    quiet
    ∷ record quiet { now = 9; exits = true; alive = false; oom_kills = some 4; code = killed_by 9 }
    ∷ []

abbrev lost : ChildResult
lost = record plain { kernel_oom = true }

watches : watch_child (some 60) (some 500) (some 3) rounds ≡ some lost
unfolding watch_child
watches = refl

watch_child_lem_example :
    ((causes lost ≡ 0) ⊎ (causes lost ≡ 1))
    × (seen (explains (some 60) (some 500) (some 3) lost) rounds ≡ true)
unfolding watch_child
watch_child_lem_example = watch_child_lem (some 60) (some 500) (some 3) rounds lost refl

abbrev limits : Limits
limits = record { busy_max_retries = 5; busy_retry_sec = 0; admission_retry_sec = 10 }

abbrev job : Text
job = b'j' ∷ []

abbrev document : Meta
document = record {
  job_id = job;
  status = some running;
  stage = queued_text;
  error = none;
  detail = none;
  generation = some 2;
  publisher = none;
  stages = none;
  busy_retries = count 3;
}

abbrev rq_job : RqJob
rq_job = record { number_of_retries = some 7; retries_left = some 1 }

abbrev busy : ChildResult
busy = record plain { shared_cache_busy = true }

busy_results_lem_example :
    busy_results limits job false job 2 9 (some rq_job) document ≡ min 9 (5 - busy_seen (count 3))
busy_results_lem_example = busy_results_lem limits job false job 2 9 (some rq_job) document

abbrev eighth : Retry
eighth = record { max_retries = 8; interval = 1 }

execute_job-retry_example : (rq_seen (some rq_job) < 8) × (0 < 1)
unfolding execute_job
execute_job-retry_example =
    execute_job-retry limits job false job 2 false busy job (some rq_job) document eighth refl

execute_job-terminal_example :
    is_terminal (execute_job limits job false job 2 false lost job (some rq_job) document).1.status
    ≡ true
unfolding execute_job
execute_job-terminal_example =
    execute_job-terminal limits job false job 2 false lost job (some rq_job) document refl refl

-- The directory of a job, and a horse that was killed for its memory.
abbrev job_dir : Text → Text → Text → Option Text
job_dir data_dir book session = some book

abbrev never : Text → Bool
never place = false

abbrev horse : HorseMeta
horse = record {
  oom_kill_before = some 1;
  data_dir = some [];
  session_id = some [];
  book_job_id = some job;
  generation = some 2;
}

abbrev run_of_job : Target
run_of_job = record { place = job; book_id = job; generation = 2 }

abbrev documents : Text → Meta
documents place = document

-- A meta that names no run leaves every document as it is.
unnamed :
    on_horse_killed job_dir never
      (some 9)
      (some 2)
      none
      none
      (record rq_job { retries_left = none })
      documents
    ≡ (record rq_job { retries_left = none }, documents)
unfolding on_horse_killed target_of_meta
unnamed = refl

on_horse_killed_lem_example :
    (((on_horse_killed job_dir never (some 9) (some 2) none (some horse) rq_job documents
          ≡ (rq_job, documents))
        × (remains (some 1) ≡ true))
      ⊎ (is_terminal
            ((on_horse_killed job_dir never (some 9) (some 2) none (some horse) rq_job documents).1
              job).status
          ≡ true))
    × ((other : Text)
        → other ≢ job
        → (on_horse_killed job_dir never (some 9) (some 2) none (some horse) rq_job documents).1
            other
          ≡ document)
unfolding target_of_meta
on_horse_killed_lem_example =
    on_horse_killed_lem job_dir never (some 9) (some 2) none (some horse) rq_job documents
      run_of_job refl refl
