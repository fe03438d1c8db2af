-- ===== src/Jobs/Child.antt =====
-- Watching the child process of a job, jobqueue/spawn.py. What the loop of `watch_child` sees of the
-- clock, the process and the cgroup in a round is a Round; the process itself is outside.
pub mod Causes
use finance_context_builder.Base.{
  ℕ, Bool, true, false, ◌&&◌, ◌||◌, not, List, [], ◌∷◌, ltb, leb, if◌then◌else◌, Option, none, some,
}
use finance_context_builder.Base.Eq.{◌==◌, nat_eq}

-- `Process.exitcode`: none yet, an exit status, or a signal, which Python writes as its negative.
pub data ExitCode : Type 0 where
  unknown : ExitCode
  exited : ℕ → ExitCode
  killed_by : ℕ → ExitCode

abbrev pub sigkill : ℕ
sigkill = 9

abbrev pub shared_cache_busy_exit : ℕ
shared_cache_busy_exit = 75

pub record ChildResult : Type 0 where
  pub timed_out : Bool
  pub over_budget : Bool
  pub rss_bytes : ℕ
  pub kernel_oom : Bool
  pub shared_cache_busy : Bool

-- ChildResult()
abbrev pub plain : ChildResult
plain = record {
  timed_out = false;
  over_budget = false;
  rss_bytes = 0;
  kernel_oom = false;
  shared_cache_busy = false;
}

-- the counter now, for `cgroup_oom_kill_count()`
unfoldable pub oom_increased : Option ℕ → Option ℕ → Bool
oom_increased none after = false
oom_increased (some before) none = false
oom_increased (some before) (some after) = ltb before after

abbrev pub is_busy_exit : ExitCode → Bool
is_busy_exit (exited status) = status == shared_cache_busy_exit
is_busy_exit _ = false

abbrev pub is_sigkill : ExitCode → Bool
is_sigkill (killed_by number) = number == sigkill
is_sigkill _ = false

-- `_with_oom`, with the counter before and now
unfoldable pub with_oom : ChildResult → Option ℕ → Option ℕ → ExitCode → ChildResult
unfolding oom_increased
with_oom result before now code =
    if is_busy_exit code
    then record plain { shared_cache_busy = true }
    else if result.over_budget || not (oom_increased before now)
    then result
    else if not (is_sigkill code)
    then result
    else record plain { kernel_oom = true; rss_bytes = result.rss_bytes }

-- One round of the loop: the clock, whether the wait ended with an exit, whether the process is
-- alive, its memory, the counter of the cgroup, and the exit code when the process is gone.
pub record Round : Type 0 where
  pub now : ℕ
  pub exits : Bool
  pub alive : Bool
  pub rss : Option ℕ
  pub oom_kills : Option ℕ
  pub code : ExitCode

-- `remaining <= 0`, without a deadline never
abbrev pub is_past : Option ℕ → ℕ → Bool
is_past none now = false
is_past (some deadline) now = leb deadline now

-- `rss is not None and rss > budget_bytes`, with a budget
abbrev pub is_over : Option ℕ → Option ℕ → Bool
is_over none rss = false
is_over (some budget) none = false
is_over (some budget) (some rss) = ltb budget rss

abbrev pub bytes_of : Option ℕ → ℕ
bytes_of none = 0
bytes_of (some rss) = rss

-- The loop of `watch_child` on the rounds it sees; `none` when the child outlives them.
unfoldable pub watch_child : Option ℕ → Option ℕ → Option ℕ → List Round → Option ChildResult
unfolding with_oom oom_increased
watch_child deadline budget before [] = none
watch_child deadline budget before (r ∷ rest) =
    let later = watch_child deadline budget before rest in
    if is_past deadline r.now
    then some (with_oom (record plain { timed_out = true }) before r.oom_kills r.code)
    else if r.exits || not r.alive
    then some (with_oom plain before r.oom_kills r.code)
    else if is_over budget r.rss
    then (if oom_increased before r.oom_kills
        then some (record plain { kernel_oom = true; rss_bytes = bytes_of r.rss })
        else some (record plain { over_budget = true; rss_bytes = bytes_of r.rss }))
    else later
