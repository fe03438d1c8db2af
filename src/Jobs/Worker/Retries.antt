-- ===== src/Jobs/Worker/Retries.antt =====
-- How often a job is given another try.
use finance_context_builder.Base.{
  ℕ, zero, suc, ◌+◌, ◌-◌, ◌<◌, ◌≡◌, min, Bool, leb, Option, some, arith, Bool-cases, inl, inr,
}
use finance_context_builder.Base.Text.{Text}
use finance_context_builder.Jobs.Worker.{
  Limits, Meta, RqJob, Retry, count, busy_seen, rq_seen, requeue_shared_cache, busy_results,
  execute_job,
}
use finance_context_builder.Jobs.Child.{ChildResult}

module _ (limits : Limits) (busy_detail : Text) (ready : Bool) (id : Text) (run : ℕ) where
  -- Of k busy results one after another, as many are given a retry as the limit leaves.
  pub busy_results_lem :
      (k : ℕ) (current : Option RqJob) (meta : Meta)
      → busy_results limits busy_detail ready id run k current meta
        ≡ min k (limits.busy_max_retries - busy_seen meta.busy_retries)
  unfolding busy_results requeue_shared_cache busy_seen
  busy_results_lem zero current meta = omega arith
  busy_results_lem (suc k) current meta =
      elim (Bool-cases (leb limits.busy_max_retries (busy_seen meta.busy_retries))) [
        | inl spent ↦ ground arith
        | inr left_over ↦
            let next : Meta = record meta {
              busy_retries = count (busy_seen meta.busy_retries + 1);
            } in
            let later : busy_results limits busy_detail ready id run k current next
                ≡ min k (limits.busy_max_retries - (busy_seen meta.busy_retries + 1)) =
              busy_results_lem k current next in
            ground arith
      ]

  -- A retry that the worker asks for waits a second at least, and allows more tries than the queue
  -- has counted, so the queue does not fail the job in its place.
  pub execute_job-retry :
      (waiting : Bool) (result : ChildResult) (too_large : Text) (current : Option RqJob)
      (meta : Meta) (retry : Retry)
      → (execute_job limits busy_detail ready id run waiting result too_large current meta).0
        ≡ some retry
      → (rq_seen current < retry.max_retries) × (0 < retry.interval)
  unfolding execute_job requeue_shared_cache
  execute_job-retry waiting result too_large current meta retry e = ground arith
