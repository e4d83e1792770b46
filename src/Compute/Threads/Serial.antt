-- ===== src/Compute/Threads/Serial.antt =====
-- The running jobs of every reachable system.
use home_lab_hq.Base.{
  ℕ, String, ◌≡◌, refl, sym, ap, ◌∙◌, inl, inr, Option, none, some, List, [], ◌∷◌, Bool-cases, All,
  any,
}
use home_lab_hq.Dict.{lookup, insert}
use home_lab_hq.Dict.Laws.{IsDict, map_items-IsDict}
use home_lab_hq.Prune.Newest.{erase_all-IsDict}
use home_lab_hq.Prune.Named.{erase_all-AreNamed, map_items-AreNamed}
use home_lab_hq.Compute.Jobs.{
  Job, Jobs, is_active, elsewhere, running, start_jobs, started, interrupt,
  recover_interrupted_jobs,
}
use home_lab_hq.Compute.Jobs.Bound.{HaveJobIds}
use home_lab_hq.Compute.Jobs.Start.{StartJobs, start_jobs_lem, start_jobs-mixed}
use home_lab_hq.Compute.Discovery.Effects.{set_job-IsDict, set_job-HaveJobIds}
use home_lab_hq.Compute.Threads.{
  Thread, System, new_thread, IsQueued, AreFresh, Step, starts, begins, ends, restarts, deletes,
  IsReachable, empty, then_step, begin_found, begin_run, end_run, run_begins, run_ends, RunResult,
  ran, raised,
}
use home_lab_hq.Compute.Threads.Turn.{IsSerial, current-in}
use home_lab_hq.Compute.Threads.Start.{started-IsSerial}
use home_lab_hq.Compute.Threads.Steps.{
  begin_run-IsSerial, end_run-IsSerial, restarted-IsSerial, deleted-IsSerial,
}

-- The document of a reachable system and what its threads have left to run.
pub record IsSound (sys : System) : Type 0 where
  pub keys : IsDict sys.jobs
  pub ids : HaveJobIds sys.jobs
  pub serial : IsSerial sys

start-IsSound :
    (limit : ℕ) (first : Job) (more : List Job) (sys : System) (after : Jobs)
    → All IsQueued (first ∷ more)
    → AreFresh (first ∷ more) sys
    → start_jobs limit (first ∷ more) sys.jobs ≡ started after
    → IsSound sys
    → IsSound
        (record { jobs = after; threads = insert first.id (new_thread (first ∷ more)) sys.threads })
start-IsSound limit first more sys after all_queued fresh e good =
    elim (Bool-cases (any (elsewhere first.instance_id) (first ∷ more))) [
      | inl mixed ↦ absurd (cc (sym (start_jobs-mixed limit first more sys.jobs mixed) ∙ e))
      | inr one ↦
          elim (start_jobs_lem limit first more sys.jobs fresh.distinct good.keys good.ids one) [
            | inl (refused, busy) ↦ absurd (cc (sym refused ∙ e))
            | inr (none_busy, made) ↦
                let (got, is, start) = made in
                let both : started got ≡ started after = sym is ∙ e in
                let same : got ≡ after = cc both in
                let here : StartJobs limit (first ∷ more) sys.jobs after = rw (← same) start in
                record {
                  keys = here.keys;
                  ids = here.ids;
                  serial =
                      started-IsSerial limit first more sys after all_queued fresh one none_busy
                        here good.serial;
                }
          ]
    ]

pub run_ends-id :
    (began finished : ℕ) (result : RunResult) (job : Job)
    → (run_ends began finished result job).id ≡ job.id
unfolding run_ends
run_ends-id began finished (ran out) job = refl
run_ends-id began finished (raised message) job = refl

pub run_begins-id : (now : ℕ) (job : Job) → (run_begins now job).id ≡ job.id
unfolding run_begins
run_begins-id now job = refl

interrupt-id : (now : ℕ) (k : String) (job : Job) → (interrupt now k job).id ≡ job.id
unfolding interrupt
interrupt-id now k job = elim (Bool-cases (is_active job.state)) [
  | inl busy ↦ rw busy refl
  | inr idle ↦ rw idle refl
]

begun-IsSound :
    (name k : String) (rest : List String) (now : ℕ) (o : Option Job) (sys : System)
    → IsSound sys
    → IsSerial (begin_found name k rest now o sys)
    → IsSound (begin_found name k rest now o sys)
begun-IsSound name k rest now none sys good serial = record {
  keys = good.keys;
  ids = good.ids;
  serial = serial;
}
begun-IsSound name k rest now (some job) sys good serial = record {
  keys = set_job-IsDict k (run_begins now) sys.jobs good.keys;
  ids = set_job-HaveJobIds k (run_begins now) (run_begins-id now) sys.jobs good.ids;
  serial = serial;
}

Step-IsSound : (limit : ℕ) {sys next : System} → Step limit sys next → IsSound sys → IsSound next
unfolding begin_run end_run recover_interrupted_jobs
Step-IsSound limit (starts first more jobs sys all_queued fresh e) good =
    start-IsSound limit first more sys jobs all_queued fresh e good
Step-IsSound limit (begins name k rest now sys there) good =
    begun-IsSound name k rest now (lookup k sys.jobs) sys good
      (begin_run-IsSerial sys name k rest good.serial now there)
Step-IsSound limit (ends name k rest began finished result sys there) good = record {
  keys = set_job-IsDict k (run_ends began finished result) sys.jobs good.keys;
  ids =
      set_job-HaveJobIds k (run_ends began finished result) (run_ends-id began finished result)
        sys.jobs good.ids;
  serial = end_run-IsSerial sys name k rest good.serial began finished result there;
}
Step-IsSound limit (restarts now sys) good = record {
  keys = map_items-IsDict (interrupt now) sys.jobs good.keys;
  ids = map_items-AreNamed (λ item. item.1.id) (interrupt now) sys.jobs (interrupt-id now) good.ids;
  serial = restarted-IsSerial now sys;
}
Step-IsSound limit (deletes ids sys) good = record {
  keys = erase_all-IsDict ids sys.jobs good.keys;
  ids = erase_all-AreNamed (λ item. item.1.id) ids sys.jobs good.ids;
  serial = deleted-IsSerial ids sys good.serial;
}

empty-IsSound : IsSound (record { jobs = []; threads = [] })
unfolding lookup
empty-IsSound = record {
  keys = tt;
  ids = tt;
  serial = record {
    owned = λ k j e. absurd (cc e);
    current = λ k j e. absurd (cc e);
    active = λ n k t j none_there. absurd (cc none_there);
    apart = λ m n k l s t i j none_there. absurd (cc none_there);
    distinct = λ n t none_there. absurd (cc none_there);
  };
}

pub reachable-IsSound : (limit : ℕ) {sys : System} → IsReachable limit sys → IsSound sys
reachable-IsSound limit empty = empty-IsSound
reachable-IsSound limit (then_step reached step) =
    Step-IsSound limit step (reachable-IsSound limit reached)

one_runs :
    (sys : System) (k l : String) (i j : Job)
    → IsSerial sys
    → lookup k sys.jobs ≡ some i
    → lookup l sys.jobs ≡ some j
    → i.state ≡ running
    → j.state ≡ running
    → i.instance_id ≡ j.instance_id
    → k ≡ l
one_runs sys k l i j good ek el runs_k runs_l same =
    let (m, s, em, now_k) = good.current k i ek runs_k in
    let (n, t, en, now_l) = good.current l j el runs_l in
    let one : m ≡ n =
      good.apart m n k l s t i j em en (current-in s k now_k) (current-in t l now_l) ek el same in
    let there : lookup n sys.threads ≡ some s = rw one at em in
    let thread : s ≡ t = cc (there, en) in
    let both : some k ≡ some l = sym now_k ∙ ap Thread.current thread ∙ now_l in cc both

-- In every system that starts, turns of threads, restarts and deletions reach from an empty
-- document: two running jobs of one compute instance are the same job; the queued and running
-- jobs are exactly those of the document that a thread has left to run, a running one being the
-- thread's current job; and no two threads have jobs of one instance left.
pub running_one :
    (limit : ℕ) (sys : System)
    → IsReachable limit sys
    → ((k l : String) (i j : Job)
        → lookup k sys.jobs ≡ some i
        → lookup l sys.jobs ≡ some j
        → i.state ≡ running
        → j.state ≡ running
        → i.instance_id ≡ j.instance_id
        → k ≡ l)
      × IsSerial sys
running_one limit sys reached = (
  (λ k l i j. one_runs sys k l i j (reachable-IsSound limit reached).serial),
  (reachable-IsSound limit reached).serial,
)
