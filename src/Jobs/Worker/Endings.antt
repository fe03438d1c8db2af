-- ===== src/Jobs/Worker/Endings.antt =====
-- The ends of a job in the worker, jobqueue/jobs.py.
use finance_context_builder.Base.{
  ℕ, ◌≡◌, ◌≢◌, refl, Bool, true, false, ◌&&◌, Option, none, some, arith, ◌⊎◌, inl, inr, Bool-cases,
}
use finance_context_builder.Base.Eq.{◌==◌, nat_eq, list_eq, list_beq_iff, equal_refl}
use finance_context_builder.Base.Text.{Text}
use finance_context_builder.Jobs.Worker.{
  Limits, Meta, RqJob, ErrorCode, shared_cache_busy, oom_killed, workbook_too_large, timed_out,
  process_lost, error_or, is_terminal, is_other_run, mark_job_failed, requeue_shared_cache, finish,
  execute_job,
}
use finance_context_builder.Jobs.Horse.{
  HorseMeta, Documents, Target, target_of_meta, refreshed_meta, write_at, mark_from_meta,
  on_horse_killed, sigkill_wait_status, remains,
}
use finance_context_builder.Jobs.Child.{ChildResult, oom_increased}

mark_job_failed-terminal :
    (ready : Bool) (id : Text) (error : ErrorCode) (run : ℕ) (detail : Option Text) (meta : Meta)
    → is_other_run meta.generation run ≡ false
    → is_terminal (mark_job_failed ready id error run detail meta).status ≡ true
unfolding mark_job_failed
mark_job_failed-terminal ready id error run detail meta h = ground arith

module _ (limits : Limits) (busy_detail : Text) (ready : Bool) (id : Text) (run : ℕ) where
  -- When the document is not of another run and `execute_job` asks for no retry, the status in the
  -- document is a final one.
  pub execute_job-terminal :
      (waiting : Bool) (result : ChildResult) (too_large : Text) (current : Option RqJob)
      (meta : Meta)
      → is_other_run meta.generation run ≡ false
      → (execute_job limits busy_detail ready id run waiting result too_large current meta).0 ≡ none
      → is_terminal
          (execute_job limits busy_detail ready id run waiting result too_large current
            meta).1.status
        ≡ true
  unfolding execute_job requeue_shared_cache finish
  execute_job-terminal waiting result too_large current meta h e = ground (
    arith,
    mark_job_failed-terminal ready id shared_cache_busy run (some busy_detail) meta h,
    mark_job_failed-terminal ready id oom_killed run none meta h,
    mark_job_failed-terminal ready id workbook_too_large run (some too_large) meta h,
    mark_job_failed-terminal ready id timed_out run none meta h,
    mark_job_failed-terminal ready id (error_or meta.error) run none meta h,
  )

module _ (session_job_dir : Text → Text → Text → Option Text) (ready : Text → Bool) where
  mark_from_meta_lem :
      (meta : HorseMeta) (error : ErrorCode) (documents : Documents) (target : Target)
      → target_of_meta session_job_dir ready meta ≡ some target
      → is_other_run (documents target.place).generation target.generation ≡ false
      → (is_terminal (mark_from_meta session_job_dir ready meta error documents target.place).status
          ≡ true)
        × ((other : Text)
            → other ≢ target.place
            → mark_from_meta session_job_dir ready meta error documents other ≡ documents other)
  unfolding mark_from_meta write_at
  mark_from_meta_lem meta error documents target named h =
      let place = target.place in
      (
        rw (mark_from_meta, named, write_at, equal_refl place)
            (mark_job_failed-terminal (ready place) target.book_id error target.generation none
              (documents place) h),
        λ other apart. elim (Bool-cases (other == place)) [
          | inl same ↦ absurd (apart ((list_beq_iff other place).0 same))
          | inr differs ↦ rw (mark_from_meta, named, write_at, differs) refl
        ],
      )

  -- When the meta of the queue's job, reloaded or else the one held, names a document and its run,
  -- and the document is not of another run: the death of the work horse leaves the job and all
  -- documents as they are and retries of the queue, or the status in the document is a final one. No
  -- other document changes.
  pub on_horse_killed_lem :
      (status after : Option ℕ) (loaded held : Option HorseMeta) (job : RqJob)
      (documents : Documents) (target : Target)
      → target_of_meta session_job_dir ready (refreshed_meta loaded held) ≡ some target
      → is_other_run (documents target.place).generation target.generation ≡ false
      → (((on_horse_killed session_job_dir ready status after loaded held job documents
              ≡ (job, documents))
            × (remains job.retries_left ≡ true))
          ⊎ (is_terminal
                ((on_horse_killed session_job_dir ready status after loaded held job documents).1
                  target.place).status
              ≡ true))
        × ((other : Text)
            → other ≢ target.place
            → (on_horse_killed session_job_dir ready status after loaded held job documents).1 other
              ≡ documents other)
  unfolding on_horse_killed
  on_horse_killed_lem status after loaded held job documents target named h =
      let meta = refreshed_meta loaded held in
      let killed = mark_from_meta_lem meta oom_killed documents target named h in
      let lost = mark_from_meta_lem meta process_lost documents target named h in
      elim (Bool-cases (sigkill_wait_status status && oom_increased meta.oom_kill_before after)) [
        | inl oom ↦ rw (on_horse_killed, oom) (inr killed.0, killed.1)
        | inr other_death ↦ elim (Bool-cases (remains job.retries_left)) [
          | inl again ↦
              rw (on_horse_killed, other_death, again) (inl (refl, refl), λ other apart. refl)
          | inr spent ↦ rw (on_horse_killed, other_death, spent) (inr lost.0, lost.1)
        ]
      ]
