-- ===== src/Scheduler/Overlap.antt =====
-- The locks and the workers of the scheduler's jobs.
use home_lab_hq.Base.{
  ℕ, String, ◌≡◌, refl, sym, ap, ◌∙◌, inl, inr, true, false, Option, none, some, [], ◌∷◌, ◌||◌,
  ◌&&◌, not, arith, ◌==◌, is_in-append, Bool-cases, Option-cases, is_in, AllDistinct, All,
}
use home_lab_hq.Dict.{Dict, lookup, map_items}
use home_lab_hq.Dict.Laws.{IsDict, lookup-map_items, map_items-IsDict, mapped}
use home_lab_hq.Prune.Named.{map_items-AreNamed}
use home_lab_hq.Scheduler.{
  ScheduledJob, IntervalScheduler, is_due, starts_worker, dispatch_job, started_names, dispatch_due,
  release_job, runner_ends, finished, initialize_jobs, initialize_job, Step, dispatches, releases,
  finishes, IsFresh, IsReachable, initial, then_step,
}
use home_lab_hq.Scheduler.Names.{
  starts_of, HaveNames, append-AllDistinct, is_in-started_names, started_names-AllDistinct,
  is_in-discard, discard-AllDistinct,
}

-- A lock is held exactly while a worker of its job has not released it, and no job has two of them.
pub record IsExclusive (s : IntervalScheduler) : Type 0 where
  pub keys : IsDict s.jobs
  pub names : HaveNames s.jobs
  pub one_runner : AllDistinct s.running
  pub locks :
      (k : String) (job : ScheduledJob)
      → lookup k s.jobs ≡ some job
      → job.locked ≡ is_in k s.running

-- A job after each value is replaced was there before.
pub mapped_was :
    (f : String → ScheduledJob → ScheduledJob) (k : String) (job : ScheduledJob)
    (d : Dict ScheduledJob)
    → lookup k (map_items f d) ≡ some job
    → (old : ScheduledJob) × (lookup k d ≡ some old) × (job ≡ f k old)
mapped_was f k job d e = elim (Option-cases (lookup k d)) [
  | inl absent ↦ absurd (cc (sym (lookup-map_items f k d ∙ ap (mapped (f k)) absent) ∙ e))
  | inr (old, was) ↦
      let both : some (f k old) ≡ some job =
        sym (lookup-map_items f k d ∙ ap (mapped (f k)) was) ∙ e in
      (old, was, cc both)
]

dispatch_job-name :
    (tick now : ℕ) (k : String) (job : ScheduledJob) → (dispatch_job tick now k job).name ≡ job.name
unfolding dispatch_job
dispatch_job-name tick now k job = elim (Bool-cases (is_due now job)) [
  | inl due ↦ rw due refl
  | inr early ↦ rw early refl
]

dispatch_job-locked :
    (tick now : ℕ) (k : String) (job : ScheduledJob)
    → (dispatch_job tick now k job).locked ≡ (starts_worker now job || job.locked)
unfolding dispatch_job
dispatch_job-locked tick now k job = elim (Bool-cases (is_due now job)) [
  | inl due ↦ rw due (ground arith)
  | inr early ↦ rw early refl
]

pub dispatch_due-IsExclusive :
    (tick now : ℕ) (s : IntervalScheduler) → IsExclusive s → IsExclusive (dispatch_due tick now s).1
unfolding dispatch_due
dispatch_due-IsExclusive tick now s good = record {
  keys = map_items-IsDict (dispatch_job tick now) s.jobs good.keys;
  names =
      map_items-AreNamed (λ item. item.1.name) (dispatch_job tick now) s.jobs
        (dispatch_job-name tick now) good.names;
  one_runner =
      append-AllDistinct (started_names now s.jobs) s.running
        (started_names-AllDistinct now s.jobs good.keys good.names) good.one_runner not_running;
  locks = λ k job e.
      let (old, was, is) = mapped_was (dispatch_job tick now) k job s.jobs e in
      ap ScheduledJob.locked is
      ∙ dispatch_job-locked tick now k old
      ∙ ap (λ b. starts_worker now old || b) (good.locks k old was)
      ∙ ap (λ o. starts_of now o || is_in k s.running) (sym was)
      ∙ ap (λ b. b || is_in k s.running)
          (sym (is_in-started_names now k s.jobs good.keys good.names))
      ∙ sym (is_in-append k (started_names now s.jobs) s.running);
}
  where
    not_running :
        (k : String) → is_in k (started_names now s.jobs) ≡ true → is_in k s.running ≡ false
    not_running k starts = go (lookup k s.jobs) refl
      where
        go : (o : Option ScheduledJob) → lookup k s.jobs ≡ o → is_in k s.running ≡ false
        go none e = absurd (
            cc (
              sym (is_in-started_names now k s.jobs good.keys good.names) ∙ starts,
              ap (starts_of now) e,
            ))
        go (some job) e =
            let is : starts_worker now job ≡ true =
              ap (starts_of now) (sym e)
              ∙ sym (is_in-started_names now k s.jobs good.keys good.names)
              ∙ starts in
            sym (good.locks k job e) ∙ ground (arith, is)

release_job-name : (name k : String) (job : ScheduledJob) → (release_job name k job).name ≡ job.name
unfolding release_job
release_job-name name k job = elim (Bool-cases (k == name)) [
  | inl its ↦ rw its refl
  | inr other ↦ rw other refl
]

release_job-locked :
    (name k : String) (job : ScheduledJob)
    → (release_job name k job).locked ≡ (not (k == name) && job.locked)
unfolding release_job
release_job-locked name k job = elim (Bool-cases (k == name)) [
  | inl its ↦ rw its refl
  | inr other ↦ rw other refl
]

runner_ends-IsExclusive :
    (name : String) (s : IntervalScheduler) → IsExclusive s → IsExclusive (runner_ends name s)
unfolding runner_ends
runner_ends-IsExclusive name s good = record {
  keys = map_items-IsDict (release_job name) s.jobs good.keys;
  names =
      map_items-AreNamed (λ item. item.1.name) (release_job name) s.jobs (release_job-name name)
        good.names;
  one_runner = discard-AllDistinct name s.running good.one_runner;
  locks = λ k job e.
      let (old, was, is) = mapped_was (release_job name) k job s.jobs e in
      ap ScheduledJob.locked is
      ∙ release_job-locked name k old
      ∙ ap (λ b. not (k == name) && b) (good.locks k old was)
      ∙ sym (is_in-discard k name s.running);
}

unlocked_at :
    (k : String) (job : ScheduledJob) (d : Dict ScheduledJob)
    → All (λ item. item.1.locked ≡ false) d
    → lookup k d ≡ some job
    → job.locked ≡ false
unfolding lookup
unlocked_at k job [] h e = absurd (cc e)
unlocked_at k job ((j, first) ∷ d) h e = elim (Bool-cases (j == k)) [
  | inl here ↦
      let is : some first ≡ some job = rw here at e in
      let same : first ≡ job = cc is in rw (← same) h.0
  | inr other ↦ unlocked_at k job d h.1 (rw other at e)
]

initialize_jobs-IsExclusive :
    (now : ℕ) (s : IntervalScheduler) → IsFresh s → IsExclusive (initialize_jobs now s)
unfolding initialize_jobs initialize_job
initialize_jobs-IsExclusive now s fresh = record {
  keys = map_items-IsDict (initialize_job now) s.jobs fresh.keys;
  names =
      map_items-AreNamed (λ item. item.1.name) (initialize_job now) s.jobs (λ k job. refl)
        fresh.names;
  one_runner = rw fresh.idle tt;
  locks = λ k job e.
      let (old, was, is) = mapped_was (initialize_job now) k job s.jobs e in
      ap ScheduledJob.locked is
      ∙ unlocked_at k old s.jobs fresh.unlocked was
      ∙ ap (is_in k) (sym fresh.idle);
}

finished-IsExclusive :
    (name : String) (s : IntervalScheduler) → IsExclusive s → IsExclusive (finished name s)
unfolding finished
finished-IsExclusive name s good = record {
  keys = good.keys;
  names = good.names;
  one_runner = good.one_runner;
  locks = good.locks;
}

Step-IsExclusive :
    {tick : ℕ} {s next : IntervalScheduler} → Step tick s next → IsExclusive s → IsExclusive next
Step-IsExclusive {tick = tick} (dispatches now s) good = dispatch_due-IsExclusive tick now s good
Step-IsExclusive (releases name s running) good = runner_ends-IsExclusive name s good
Step-IsExclusive (finishes name s reporting) good = finished-IsExclusive name s good

pub reachable-IsExclusive :
    {tick : ℕ} {start s : IntervalScheduler}
    → IsFresh start
    → IsReachable tick start s
    → IsExclusive s
reachable-IsExclusive {start = start} fresh (initial now) =
    initialize_jobs-IsExclusive now start fresh
reachable-IsExclusive fresh (then_step reached step) =
    Step-IsExclusive step (reachable-IsExclusive fresh reached)
