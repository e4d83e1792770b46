-- ===== src/Scheduler/Due.antt =====
-- The due jobs of a dispatch, and the wait of the loop.
use home_lab_hq.Base.{ℕ, ◌+◌, ◌≤◌, ◌<◌, String, ◌≡◌, true, false, some, not, is_in}
use home_lab_hq.Dict.{Dict, lookup}
use home_lab_hq.Scheduler.{ScheduledJob, IntervalScheduler, is_due, dispatch_due, wait_time}

-- What a dispatch at `now` makes of a job, given the names that it starts.
pub record IsDispatched (tick now : ℕ) (s : IntervalScheduler) (k : String) (job : ScheduledJob)
    : Type 0 where
  pub due :
      is_due now job ≡ true
      → (is_in k (dispatch_due tick now s).1.running ≡ true)
        × (is_in k (dispatch_due tick now s).0 ≡ not (is_in k s.running))
  pub early :
      is_due now job ≡ false
      → (lookup k (dispatch_due tick now s).1.jobs ≡ some job)
        × (is_in k (dispatch_due tick now s).0 ≡ false)

-- A job is due after `now`, and the wait of a loop that has just dispatched does not last until
-- `tick` after it is due, nor beyond the time at which it is due if that is `tick` away.
pub record IsWokenFor (tick now : ℕ) (jobs : Dict ScheduledJob) (job : ScheduledJob) : Type 0 where
  pub later : now < job.next_run
  pub soon : now + wait_time tick now jobs < job.next_run + tick
  pub in_time : now + tick ≤ job.next_run → now + wait_time tick now jobs ≤ job.next_run
