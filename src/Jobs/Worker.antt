-- ===== src/Jobs/Worker.antt =====
-- What the worker decides about a job, jobqueue/jobs.py, and `mark_job_failed` of app/pipeline.py.
-- The document meta.json and the queue's job are values; `ready` says that the artifacts of the job
-- are on disk. Logging and progress events are not modelled.
pub mod Retries
pub mod Endings
use finance_context_builder.Base.{
  ℕ, zero, suc, ◌+◌, ◌%◌, max, Bool, true, false, ◌&&◌, ◌||◌, not, ltb, leb, if◌then◌else◌, Option,
  none, some, [],
}
use finance_context_builder.Base.Eq.{◌==◌, nat_eq}
use finance_context_builder.Base.Text.{Text}
use finance_context_builder.Jobs.Bus.{Status, failed, failed_text, is_live}
use finance_context_builder.Jobs.Child.{ChildResult, oom_increased, sigkill}

-- The error of a job: one of the worker's, or a text that the pipeline wrote.
pub data ErrorCode : Type 0 where
  oom_killed workbook_too_large timed_out shared_cache_busy process_lost pipeline_failed : ErrorCode
  own : Text → ErrorCode

-- `meta.get("shared_cache_busy_retries")`: an integer from 0 on, or something else
pub data RawCount : Type 0 where
  no_count : RawCount
  count : ℕ → RawCount

pub record Meta : Type 0 where
  pub job_id : Text
  pub status : Option Status
  pub stage : Text
  pub error : Option ErrorCode
  pub detail : Option Text
  pub generation : Option ℕ
  pub publisher : Option Text
  pub stages : Option Text
  pub busy_retries : RawCount

-- status in {"succeeded", "degraded", "needs_input", "failed"}
abbrev pub is_terminal : Option Status → Bool
is_terminal none = false
is_terminal (some status) = not (is_live status)

-- `seen is not None and seen != generation`
abbrev pub is_other_run : Option ℕ → ℕ → Bool
is_other_run none generation = false
is_other_run (some seen) generation = not (seen == generation)

-- `if detail: failed["detail"] = detail`
abbrev pub or_old : Option Text → Option Text → Option Text
or_old none old = old
or_old (some detail) old = some detail

-- `mutate` of `mark_job_failed`
unfoldable pub mark_job_failed : Bool → Text → ErrorCode → ℕ → Option Text → Meta → Meta
mark_job_failed ready id error generation detail meta =
    if is_other_run meta.generation generation
    then meta
    else if ready && is_terminal meta.status
    then meta
    else record meta {
      publisher = none;
      stages = none;
      job_id = id;
      status = some failed;
      stage = failed_text;
      error = some error;
      generation = some generation;
      detail = or_old detail meta.detail;
    }

-- The job of the queue: `number_of_retries` and `retries_left`, which may be None.
pub record RqJob : Type 0 where
  pub number_of_retries : Option ℕ
  pub retries_left : Option ℕ

pub record Retry : Type 0 where
  pub max_retries : ℕ
  pub interval : ℕ

unfoldable pub busy_seen : RawCount → ℕ
busy_seen no_count = 0
busy_seen (count n) = n

-- `current is not None and current.number_of_retries`, else 0
abbrev pub rq_seen : Option RqJob → ℕ
rq_seen none = 0
rq_seen (some job) = elim job.number_of_retries [ none ↦ 0 | some n ↦ n ]

-- the settings that the decisions read
pub record Limits : Type 0 where
  pub busy_max_retries : ℕ
  pub busy_retry_sec : ℕ
  pub admission_retry_sec : ℕ

-- `meta.get("error") or "pipeline_failed"`
abbrev pub error_or : Option ErrorCode → ErrorCode
error_or none = pipeline_failed
error_or (some (own [])) = pipeline_failed
error_or (some error) = error

-- `current.retries_left = 0`
abbrev pub give_up_retries : Option RqJob → Option RqJob
give_up_retries none = none
give_up_retries (some job) = some (record job { retries_left = some 0 })

module _ (limits : Limits) (busy_detail : Text) (ready : Bool) (id : Text) (run : ℕ) where
  unfoldable pub requeue_shared_cache : Option RqJob → Meta → Option Retry × Meta
  unfolding busy_seen mark_job_failed
  requeue_shared_cache current meta =
      let seen = busy_seen meta.busy_retries in
      if leb limits.busy_max_retries seen
      then (none, mark_job_failed ready id shared_cache_busy run (some busy_detail) meta)
      else (
        some (record { max_retries = rq_seen current + 1; interval = max 1 limits.busy_retry_sec }),
        record meta { busy_retries = count (seen + 1) },
      )

  -- `_finish`, with the text of `over_rss_detail`
  unfoldable pub finish : ChildResult → Text → Option RqJob → Meta → Option RqJob × Meta
  unfolding mark_job_failed
  finish result too_large current meta =
      if result.kernel_oom
      then (give_up_retries current, mark_job_failed ready id oom_killed run none meta)
      else if result.over_budget
      then (current, mark_job_failed ready id workbook_too_large run (some too_large) meta)
      else if result.timed_out
      then (current, mark_job_failed ready id timed_out run none meta)
      else if is_terminal meta.status
      then (current, meta)
      else (current, mark_job_failed ready id (error_or meta.error) run none meta)

  -- The decisions of `execute_job`: `waiting` is `_admission_waiting`, and the document is the one
  -- that the child left.
  unfoldable pub execute_job : Bool → ChildResult → Text → Option RqJob → Meta → Option Retry × Meta
  unfolding requeue_shared_cache finish
  execute_job waiting result too_large current meta =
      if waiting
      then (
        some (record {
          max_retries = rq_seen current + 1;
          interval = max 1 limits.admission_retry_sec;
        }),
        meta,
      )
      else if result.shared_cache_busy
      then requeue_shared_cache current meta
      else (none, (finish result too_large current meta).1)

  -- Busy results one after another: how many of them were given a retry.
  unfoldable pub busy_results : ℕ → Option RqJob → Meta → ℕ
  unfolding requeue_shared_cache
  busy_results zero current meta = 0
  busy_results (suc k) current meta =
      let (retry, meta') = requeue_shared_cache current meta in
      elim retry [ none ↦ 0 | some _ ↦ suc (busy_results k current meta') ]
