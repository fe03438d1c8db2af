-- ===== src/Jobs/Horse.antt =====
-- The death of the work horse, on_horse_killed of jobqueue/jobs.py. The documents meta.json are a
-- function from their directories, and `ready` says where the artifacts of a job are on disk;
-- session_job_dir is an argument, and `none` where it raises, which ends the handler.
use finance_context_builder.Base.{
  ℕ, ◌%◌, Bool, false, ◌&&◌, not, ltb, if◌then◌else◌, Option, none, some, ◌>>=◌,
}
use finance_context_builder.Base.Eq.{◌==◌, nat_eq, list_eq}
use finance_context_builder.Base.Text.{Text}
use finance_context_builder.Jobs.Child.{oom_increased, sigkill}
use finance_context_builder.Jobs.Worker.{
  Meta, RqJob, ErrorCode, oom_killed, process_lost, mark_job_failed,
}

-- An `os.wait4` status reports SIGKILL: its low seven bits are the signal. `none` is no integer.
abbrev pub sigkill_wait_status : Option ℕ → Bool
sigkill_wait_status none = false
sigkill_wait_status (some status) = not (status == 0) && status % 128 == sigkill

abbrev pub remains : Option ℕ → Bool
remains none = false
remains (some n) = ltb 0 n

-- The meta of the queue's job, `none` where an entry is missing or of another type.
pub record HorseMeta : Type 0 where
  pub oom_kill_before : Option ℕ
  pub data_dir : Option Text
  pub session_id : Option Text
  pub book_job_id : Option Text
  pub generation : Option ℕ

abbrev pub no_horse_meta : HorseMeta
no_horse_meta = record {
  oom_kill_before = none;
  data_dir = none;
  session_id = none;
  book_job_id = none;
  generation = none;
}

-- `_refreshed_meta`: what the queue returns, `none` where it fails or returns no dict, and else what
-- the job holds from before the fork.
abbrev pub refreshed_meta : Option HorseMeta → Option HorseMeta → HorseMeta
refreshed_meta (some loaded) held = loaded
refreshed_meta none (some meta) = meta
refreshed_meta none none = no_horse_meta

-- The document and its run that `_mark_from_meta` finds.
pub record Target : Type 0 where
  pub place : Text
  pub book_id : Text
  pub generation : ℕ

abbrev pub Documents : Type 0
Documents = Text → Meta

unfoldable pub write_at : Documents → Text → Meta → Documents
write_at documents place meta other = if other == place then meta else documents other

module _ (session_job_dir : Text → Text → Text → Option Text) (ready : Text → Bool) where
  unfoldable pub target_of_meta : HorseMeta → Option Target
  target_of_meta meta = do
    data_dir ← meta.data_dir
    session_id ← meta.session_id
    book_id ← meta.book_job_id
    generation ← meta.generation
    place ← session_job_dir data_dir book_id session_id
    some (record { place = place; book_id = book_id; generation = generation })

  -- `_mark_from_meta`
  unfoldable pub mark_from_meta : HorseMeta → ErrorCode → Documents → Documents
  unfolding target_of_meta write_at mark_job_failed
  mark_from_meta meta error documents = elim (target_of_meta meta) [
    | none ↦ documents
    | some target ↦ write_at documents target.place (
        mark_job_failed (ready target.place) target.book_id error target.generation none
          (documents target.place))
  ]

  -- `on_horse_killed`: the status of the horse, the counter of the cgroup now, and the two metas
  unfoldable pub on_horse_killed :
      Option ℕ
      → Option ℕ
      → Option HorseMeta
      → Option HorseMeta
      → RqJob
      → Documents
      → RqJob × Documents
  unfolding oom_increased mark_from_meta
  on_horse_killed status after loaded held job documents =
      let meta = refreshed_meta loaded held in
      if sigkill_wait_status status && oom_increased meta.oom_kill_before after
      then (record job { retries_left = some 0 }, mark_from_meta meta oom_killed documents)
      else if remains job.retries_left
      then (job, documents)
      else (job, mark_from_meta meta process_lost documents)
