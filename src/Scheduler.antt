-- ===== src/Scheduler.antt =====
-- The interval scheduler of backend/monitoring_scheduler.py. Times are in a unit as fine as the
-- clock's; `tick` is the number of units in 0.01 seconds, the shortest interval and wait.
pub mod Names
pub mod Overlap
pub mod Due
use home_lab_hq.Base.{
  ℕ, ◌+◌, ◌-◌, ◌*◌, String, Bool, true, false, Option, none, some, List, [], ◌∷◌, ◌++◌, ◌==◌, ◌&&◌,
  not, ltb, if◌then◌else◌, is_in, ◌≡◌, All,
}
use home_lab_hq.Dict.{Dict, lookup, map_items}
use home_lab_hq.Dict.Laws.{IsDict}
use home_lab_hq.Prune.Named.{AreNamed}

-- `ScheduledJob`; `locked` says whether its lock is held.
pub record ScheduledJob : Type 0 where
  pub name : String
  pub interval : ℕ
  pub initial_delay : ℕ
  pub next_run : ℕ
  pub locked : Bool

-- The jobs by name, and the worker threads by the names of their jobs: those that hold the lock
-- of their job, up to its release, and those that have released it and are still in `on_result`.
pub record IntervalScheduler : Type 0 where
  pub jobs : Dict ScheduledJob
  pub running : List String
  pub reporting : List String

abbrev pub is_due : ℕ → ScheduledJob → Bool
is_due now job = not (ltb now job.next_run)

-- `max(0.01, n)`
abbrev pub at_least : ℕ → ℕ → ℕ
at_least tick n = if ltb n tick then tick else n

-- One turn of the loop of `dispatch_due`: a due job is put off, and its lock is held afterwards.
unfoldable pub dispatch_job : ℕ → ℕ → String → ScheduledJob → ScheduledJob
dispatch_job tick now key job =
    if is_due now job
    then record job { next_run = now + at_least tick job.interval; locked = true }
    else job

-- The lock is free, so the turn starts a worker.
abbrev pub starts_worker : ℕ → ScheduledJob → Bool
starts_worker now job = is_due now job && not job.locked

unfoldable pub started_names : ℕ → Dict ScheduledJob → List String
started_names now [] = []
started_names now ((key, job) ∷ jobs) =
    let rest = started_names now jobs in if starts_worker now job then job.name ∷ rest else rest

-- `dispatch_due`: the names of the jobs that it starts, and the scheduler. A turn of the loop reads
-- and takes the lock of its own job only, so a lock that is released during the loop is released
-- before or after that job's turn.
unfoldable pub dispatch_due : ℕ → ℕ → IntervalScheduler → List String × IntervalScheduler
unfolding started_names dispatch_job
dispatch_due tick now s =
    let names = started_names now s.jobs in
    (
      names,
      record s { jobs = map_items (dispatch_job tick now) s.jobs; running = names ++ s.running },
    )

unfoldable pub release_job : String → String → ScheduledJob → ScheduledJob
release_job name key job = if key == name then record job { locked = false } else job

unfoldable pub discard : String → List String → List String
discard name [] = []
discard name (x ∷ xs) = let rest = discard name xs in if x == name then rest else x ∷ rest

-- The runner of a job has returned or raised, and `_execute` releases the job's lock.
unfoldable pub runner_ends : String → IntervalScheduler → IntervalScheduler
unfolding release_job discard
runner_ends name s = record {
  jobs = map_items (release_job name) s.jobs;
  running = discard name s.running;
  reporting = name ∷ s.reporting;
}

-- `self._workers.discard(worker)`, for one of the threads of a job.
unfoldable pub discard_one : String → List String → List String
discard_one name [] = []
discard_one name (x ∷ xs) = let rest = discard_one name xs in if x == name then xs else x ∷ rest

-- `_finished`, after `on_result` has returned or raised.
unfoldable pub finished : String → IntervalScheduler → IntervalScheduler
unfolding discard_one
finished name s = record s { reporting = discard_one name s.reporting }

initialize_job : ℕ → String → ScheduledJob → ScheduledJob
initialize_job now key job = record job { next_run = now + job.initial_delay }

-- `_initialize_jobs`
unfoldable pub initialize_jobs : ℕ → IntervalScheduler → IntervalScheduler
unfolding initialize_job
initialize_jobs now s = record s { jobs = map_items (initialize_job now) s.jobs }

-- `min((job.next_run for job in jobs), default=now + 1)`: one second is a hundred ticks.
unfoldable pub next_of : ℕ → ℕ → Dict ScheduledJob → ℕ
next_of tick now [] = now + 100 * tick
next_of tick now ((key, job) ∷ []) = job.next_run
next_of tick now ((key, job) ∷ item ∷ jobs) =
    let rest = next_of tick now (item ∷ jobs) in
    if ltb rest job.next_run then rest else job.next_run

-- The wait of `_loop` after a dispatch at `now`.
unfoldable pub wait_time : ℕ → ℕ → Dict ScheduledJob → ℕ
unfolding next_of
wait_time tick now jobs = at_least tick (next_of tick now jobs - now)

-- One step: the loop dispatches, a worker releases its lock, or one that has done so is finished.
pub data Step (tick : ℕ) : IntervalScheduler → IntervalScheduler → Type 0 where
  dispatches : (now : ℕ) (s : IntervalScheduler) → Step tick s (dispatch_due tick now s).1
  releases :
      (name : String) (s : IntervalScheduler)
      → is_in name s.running ≡ true
      → Step tick s (runner_ends name s)
  finishes :
      (name : String) (s : IntervalScheduler)
      → is_in name s.reporting ≡ true
      → Step tick s (finished name s)

-- A scheduler before its first dispatch: no worker is there and no lock is held.
pub record IsFresh (s : IntervalScheduler) : Type 0 where
  pub keys : IsDict s.jobs
  pub names : AreNamed (λ item. item.1.name) s.jobs
  pub idle : s.running ≡ []
  pub unlocked : All (λ item. item.1.locked ≡ false) s.jobs

pub data IsReachable (tick : ℕ) (s : IntervalScheduler) : IntervalScheduler → Type 0 where
  initial : (now : ℕ) → IsReachable tick s (initialize_jobs now s)
  then_step :
      {before next : IntervalScheduler}
      → IsReachable tick s before
      → Step tick before next
      → IsReachable tick s next
