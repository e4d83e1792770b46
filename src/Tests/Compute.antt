-- ===== src/Tests/Compute.antt =====
-- Concrete runs of the model of the maintenance jobs.
use home_lab_hq.Base.{String, ◌≡◌, ◌⊎◌, refl, true, false, none, some, List, [], ◌∷◌, map}
use home_lab_hq.Dict.{Dict, lookup, insert, keys, values}
use home_lab_hq.Dict.Laws.{IsDict}
use home_lab_hq.Compute.Jobs.{
  Job, Jobs, JobRequest, JobOutput, JobState, queued, running, successful, failed, incomplete,
  is_active, is_busy, queued_job, start_jobs, Started, started, conflict, bound_jobs, add_jobs,
  recover_interrupted_jobs,
}
use home_lab_hq.Compute.Jobs.Bound.{HaveJobIds}
use home_lab_hq.Compute.Jobs.Start.{StartJobs, start_jobs_lem}
use home_lab_hq.Compute.Jobs.Recovery.{IsInterrupted, recover_interrupted_jobs_lem}
use home_lab_hq.Compute.Threads.{
  System, raised, begin_run, new_thread, ids_of, AreFresh, IsReachable, empty, then_step, starts,
  begins,
}
use home_lab_hq.Compute.Threads.Turn.{IsSerial}
use home_lab_hq.Compute.Threads.Serial.{running_one}
use home_lab_hq.Compute.Sequences.{Run, run_job_sequence}
use home_lab_hq.Compute.Sequences.Progress.{start_again}

abbrev request : String → JobRequest
request operation = record {
  controller_id = "c";
  target = "host";
  operation = operation;
  playbook_operation = "play";
  playbook = "play.yml";
  mode = none;
  requested_by = "u1";
  allow_reboot = false;
  project_id = none;
  project_name = none;
  variables = "{}";
}

abbrev check : Job
check = queued_job 10 "j1" "vm" (request "os_check") none

abbrev health : Job
health = queued_job 10 "j2" "vm" (request "appliance_health") (some 900)

abbrev old : Job
old = record (queued_job 1 "j0" "vm" (request "os_check") none) {
  state = failed;
  finished_at = some 2;
}

abbrev other : Job
other = record (queued_job 3 "j3" "nas" (request "os_update") none) {
  state = running;
  started_at = some 4;
}

abbrev stored : Jobs
stored = ("j0", old) ∷ ("j3", other) ∷ []

stored-IsDict : IsDict stored
unfolding lookup
stored-IsDict = (refl, (refl, tt))

stored-HaveJobIds : HaveJobIds stored
unfolding queued_job
stored-HaveJobIds = (refl, (refl, tt))

abbrev jobs_of : Started → Jobs
jobs_of (started jobs) = jobs
jobs_of _ = []

-- With room for three jobs, the finished one goes.
start_run : keys (jobs_of (start_jobs 3 (check ∷ health ∷ []) stored)) ≡ "j3" ∷ "j1" ∷ "j2" ∷ []
unfolding start_jobs queued_job insert home_lab_hq.Prune.drop_chosen home_lab_hq.Dict.erase
start_run = refl

-- The instance of a running job accepts no start.
conflict_run :
    start_jobs 3 (queued_job 10 "j9" "nas" (request "os_check") none ∷ []) stored ≡ conflict
unfolding start_jobs queued_job
conflict_run = refl

start_jobs_example :
    ((start_jobs 3 (check ∷ health ∷ []) stored ≡ conflict)
      × ((k : String) × (j : Job) × (lookup k stored ≡ some j)
          × (is_busy check.instance_id j ≡ true)))
    ⊎ (((k : String) (j : Job) → lookup k stored ≡ some j → is_busy check.instance_id j ≡ false)
        × ((after : Jobs) × (start_jobs 3 (check ∷ health ∷ []) stored ≡ started after)
            × StartJobs 3 (check ∷ health ∷ []) stored after))
unfolding lookup queued_job
start_jobs_example =
    start_jobs_lem 3 check (health ∷ []) stored (refl, (refl, tt)) stored-IsDict stored-HaveJobIds
      refl

recover_run : map Job.state (values (recover_interrupted_jobs 20 stored).1) ≡ failed ∷ failed ∷ []
unfolding recover_interrupted_jobs queued_job home_lab_hq.Dict.map_items
    home_lab_hq.Compute.Jobs.interrupt
recover_run = refl

recover_example :
    ((k : String) (i : Job)
      → lookup k stored ≡ some i
      → (is_active i.state ≡ false → lookup k (recover_interrupted_jobs 20 stored).1 ≡ some i)
        × (is_active i.state ≡ true
            → (j : Job) × (lookup k (recover_interrupted_jobs 20 stored).1 ≡ some j)
              × IsInterrupted 20 i j))
    × (recover_interrupted_jobs 30 (recover_interrupted_jobs 20 stored).1
        ≡ (0, (recover_interrupted_jobs 20 stored).1))
recover_example = recover_interrupted_jobs_lem 20 30 stored

abbrev both : List Job
both = check ∷ health ∷ []

abbrev nothing : System
nothing = record { jobs = []; threads = [] }

abbrev begun : System
begun = record {
  jobs = bound_jobs 3 (add_jobs both []);
  threads = insert "j1" (new_thread both) [];
}

nothing-AreFresh : AreFresh both nothing
unfolding lookup queued_job
nothing-AreFresh = record {
  distinct = (refl, (refl, tt));
  jobs = λ k e. refl;
  names = λ k e. refl;
  left = λ k name t e there. absurd (cc there);
}

begun-IsReachable : IsReachable 3 begun
unfolding start_jobs queued_job
begun-IsReachable = then_step empty (
    starts check (health ∷ []) (bound_jobs 3 (add_jobs both [])) nothing (refl, (refl, tt))
      nothing-AreFresh refl)

abbrev first_runs : System
first_runs = begin_run "j1" "j1" ("j2" ∷ []) 11 begun

first_runs-IsReachable : IsReachable 3 first_runs
unfolding insert lookup queued_job
first_runs-IsReachable = then_step begun-IsReachable (begins "j1" "j1" ("j2" ∷ []) 11 begun refl)

running_one_example :
    ((k l : String) (i j : Job)
      → lookup k first_runs.jobs ≡ some i
      → lookup l first_runs.jobs ≡ some j
      → i.state ≡ running
      → j.state ≡ running
      → i.instance_id ≡ j.instance_id
      → k ≡ l)
    × IsSerial first_runs
running_one_example = running_one 3 first_runs first_runs-IsReachable

abbrev runs : String → Run
runs id = record { began = 11; finished = 12; result = raised "no route" }

abbrev mid : Jobs
mid = bound_jobs 3 (add_jobs both stored)

start_again_example :
    (after : Jobs) × (start_jobs 3 (check ∷ []) (run_job_sequence runs (ids_of both) mid)
      ≡ started after)
unfolding lookup queued_job start_jobs
start_again_example =
    start_again 3 check check (health ∷ []) [] stored mid runs (refl, (refl, tt)) (refl, tt)
      stored-IsDict stored-HaveJobIds refl refl refl
