-- ===== src/Tests/Scheduler.antt =====
-- Concrete runs of the model of the interval scheduler.
use home_lab_hq.Base.{ℕ, String, ◌≡◌, refl, false, [], ◌∷◌}
use home_lab_hq.Dict.{Dict}
use home_lab_hq.Scheduler.{
  ScheduledJob, IntervalScheduler, dispatch_due, runner_ends, initialize_jobs, finished,
}

abbrev job : String → ℕ → ℕ → ScheduledJob
job name interval delay = record {
  name = name;
  interval = interval;
  initial_delay = delay;
  next_run = 0;
  locked = false;
}

abbrev fresh : IntervalScheduler
fresh = record {
  jobs = ("poll", job "poll" 500 0) ∷ ("scan", job "scan" 0 300) ∷ [];
  running = [];
  reporting = [];
}

abbrev started_one : IntervalScheduler
started_one = (dispatch_due 1 100 (initialize_jobs 0 fresh)).1

-- Only the first job is due at first; later the second is, while the first one still runs.
first_run : (dispatch_due 1 100 (initialize_jobs 0 fresh)).0 ≡ "poll" ∷ []
unfolding dispatch_due initialize_jobs home_lab_hq.Dict.map_items
first_run = refl

second_run : (dispatch_due 1 700 started_one).0 ≡ "scan" ∷ []
unfolding dispatch_due home_lab_hq.Dict.map_items initialize_jobs
second_run = refl

third_run : (dispatch_due 1 700 (runner_ends "poll" started_one)).0 ≡ "poll" ∷ "scan" ∷ []
unfolding dispatch_due runner_ends home_lab_hq.Dict.map_items initialize_jobs
third_run = refl

-- Between the release of its lock and its end a worker may meet a second one of its job.
abbrev started_again : IntervalScheduler
started_again = (dispatch_due 1 700 (runner_ends "poll" started_one)).1

two_workers :
    (started_again.running ≡ "poll" ∷ "scan" ∷ []) × (started_again.reporting ≡ "poll" ∷ [])
unfolding dispatch_due runner_ends home_lab_hq.Dict.map_items initialize_jobs
two_workers = (refl, refl)

one_left : (finished "poll" started_again).reporting ≡ []
unfolding finished dispatch_due runner_ends home_lab_hq.Dict.map_items initialize_jobs
one_left = refl
