-- ===== src/Jobs/Child/Causes.antt =====
-- Why the watch of a child ended.
use finance_context_builder.Base.{
  ℕ, ◌+◌, ◌≡◌, ◌⊎◌, Bool, true, false, ◌&&◌, ◌||◌, not, List, [], ◌∷◌, if◌then◌else◌, Option, some,
  arith,
}
use finance_context_builder.Base.Eq.{nat_eq}
use finance_context_builder.Jobs.Child.{
  ChildResult, Round, oom_increased, is_busy_exit, is_sigkill, with_oom, is_past, is_over,
  watch_child,
}

-- at most one of the causes
abbrev bit : Bool → ℕ
bit true = 1
bit false = 0

abbrev pub causes : ChildResult → ℕ
causes r = bit r.timed_out + bit r.over_budget + bit r.kernel_oom + bit r.shared_cache_busy

-- Some round saw the test hold.
abbrev pub seen : (Round → Bool) → List Round → Bool
seen test [] = false
seen test (r ∷ rest) = test r || seen test rest

-- What a round must have seen for a result.
abbrev pub explains : Option ℕ → Option ℕ → Option ℕ → ChildResult → Round → Bool
explains deadline budget before result r =
    if result.kernel_oom
    then oom_increased before r.oom_kills && (is_sigkill r.code || is_over budget r.rss)
    else if result.shared_cache_busy
    then is_busy_exit r.code
    else if result.timed_out
    then is_past deadline r.now
    else if result.over_budget
    then is_over budget r.rss && not (oom_increased before r.oom_kills)
    else r.exits || not r.alive

-- A result names at most one cause, and a round saw it: an out-of-memory kill needs the counter of
-- the cgroup to have moved and this child killed or over its budget, a busy cache its exit status, a
-- timeout the deadline, an exceeded budget the memory; and without a cause the child had exited.
pub watch_child_lem :
    (deadline budget before : Option ℕ) (rounds : List Round) (result : ChildResult)
    → watch_child deadline budget before rounds ≡ some result
    → ((causes result ≡ 0) ⊎ (causes result ≡ 1))
      × (seen (explains deadline budget before result) rounds ≡ true)
unfolding watch_child with_oom
watch_child_lem deadline budget before [] result e = absurd (ground arith)
watch_child_lem deadline budget before (r ∷ rest) result e =
    ground (arith, watch_child_lem deadline budget before rest result)
