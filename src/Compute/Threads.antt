-- ===== src/Compute/Threads.antt =====
-- The threads that run maintenance jobs: `_run_job` and `_run_job_sequence` of
-- backend/compute_maintenance.py beside `_start_jobs` and `recover_interrupted_jobs`.
pub mod Turn
pub mod Steps
pub mod Start
pub mod Serial
use home_lab_hq.Base.{
  is_in, AllDistinct, ℕ, ◌+◌, ◌-◌, ◌<◌, String, ◌≡◌, Bool, true, false, Option, none, some, List,
  [], ◌∷◌, ◌==◌, ◌&&◌, ◌||◌, not, ltb, if◌then◌else◌, is_some, any, All, clip,
}
use home_lab_hq.Dict.{Dict, lookup, insert, keep_items}
use home_lab_hq.Dict.Laws.{IsDict}
use home_lab_hq.Prune.{erase_all}
use home_lab_hq.Compute.Jobs.{
  Job, Jobs, JobOutput, JobState, queued, running, successful, incomplete, failed, unreachable,
  start_jobs, started, recover_interrupted_jobs,
}
use home_lab_hq.Compute.Jobs.Start.{by_id}
use home_lab_hq.Compute.Discovery.{set_job}

-- What the playbook's run and the parsers of its output answer. `missing_result` is the answer of
-- `_missing_result_summary`, and `failure_summary` that of `_ansible_failure_summary`.
pub record RunOutput : Type 0 where
  pub exit_status : String
  pub nonzero : Bool
  pub recap : String
  pub unreachable_hosts : ℕ
  pub failed_hosts : ℕ
  pub structured_result : Option String
  pub source : Option String
  pub parse_error : Option String
  pub stdout : String
  pub stderr : String
  pub failure_summary : String
  pub missing_result : Option String

-- A run that answers, or one that raises with a sanitized message.
pub data RunResult : Type 0 where
  ran : RunOutput → RunResult
  raised : String → RunResult

-- The state of a job whose playbook ran.
unfoldable pub result_state : RunOutput → JobState
result_state out =
    if ltb 0 out.unreachable_hosts
    then unreachable
    else if out.nonzero || ltb 0 out.failed_hosts
    then failed
    else if is_some out.missing_result
    then incomplete
    else successful

result_summary : RunOutput → String
result_summary out =
    if ltb 0 out.unreachable_hosts
    then "Ansible target was unreachable"
    else if out.nonzero || ltb 0 out.failed_hosts
    then out.failure_summary
    else elim out.missing_result [
      | none ↦ "Maintenance completed successfully"
      | some missing ↦ missing
    ]

-- `s.removeprefix(prefix)`, with the whole of `s` beside it.
remove_prefix : String → String → String → String
remove_prefix whole String.[] s = s
remove_prefix whole (String.◌∷◌ p prefix) String.[] = whole
remove_prefix whole (String.◌∷◌ p prefix) (String.◌∷◌ c s) =
    let rest = remove_prefix whole prefix s in
    if String.◌∷◌ p String.[] == String.◌∷◌ c String.[] then rest else whole

error_of : JobState → String → RunOutput → Option String
unfolding remove_prefix
error_of incomplete summary out = some (remove_prefix summary "Playbook completed but " summary)
error_of _ summary out = out.parse_error

follow_up_of : JobState → String → Option String → Option String
follow_up_of incomplete operation before =
    if operation == "os_update" then some "os_check" else before
follow_up_of _ operation before = before

-- `job.update(…)` where `_run_job` begins.
unfoldable pub run_begins : ℕ → Job → Job
run_begins now job = record job { state = running; started_at = some now }

-- `job.update(…)` where `_run_job` ends, the recommended check of an incomplete update included.
unfoldable pub run_ends : ℕ → ℕ → RunResult → Job → Job
unfolding result_state result_summary error_of follow_up_of
run_ends began finished (ran out) job =
    let state = result_state out in
    let summary = result_summary out in
    record job {
      state = state;
      finished_at = some finished;
      duration = some (finished - began);
      output = record {
        exit_status = some out.exit_status;
        recap = out.recap;
        structured_result = out.structured_result;
        structured_result_source = out.source;
        structured_result_error = error_of state summary out;
        stdout = out.stdout;
        stderr = out.stderr;
      };
      summary = summary;
      follow_up = follow_up_of state job.request.operation job.follow_up;
    }
run_ends began finished (raised message) job =
    let said = clip 500 message in
    record job {
      state = failed;
      finished_at = some finished;
      duration = some (finished - began);
      output = record {
        exit_status = none;
        recap = "{}";
        structured_result = none;
        structured_result_source = none;
        structured_result_error = some said;
        stdout = "";
        stderr = "";
      };
      summary = said;
    }

-- A thread of `_run_job_sequence`: the job in `_run_job`, and the ids after it.
pub record Thread : Type 0 where
  pub current : Option String
  pub pending : List String

-- The jobs of the document, and the threads by the ids that they are named after.
pub record System : Type 0 where
  pub jobs : Jobs
  pub threads : Dict Thread

abbrev pub ids_of : List Job → List String
ids_of [] = []
ids_of (job ∷ more) = job.id ∷ ids_of more

abbrev pub members : Thread → List String
members t = elim t.current [ none ↦ t.pending | some k ↦ k ∷ t.pending ]

abbrev begin_found : String → String → List String → ℕ → Option Job → System → System
begin_found name k rest now none sys = record sys {
  threads = insert name (record { current = none; pending = rest }) sys.threads;
}
begin_found name k rest now (some job) sys = record {
  jobs = (set_job k (run_begins now) sys.jobs).1;
  threads = insert name (record { current = some k; pending = rest }) sys.threads;
}

-- The thread takes its next job, and skips one that is gone.
unfoldable pub begin_run : String → String → List String → ℕ → System → System
begin_run name k rest now sys = begin_found name k rest now (lookup k sys.jobs) sys

unfoldable pub end_run : String → String → List String → ℕ → ℕ → RunResult → System → System
end_run name k rest began finished result sys = record {
  jobs = (set_job k (run_ends began finished result) sys.jobs).1;
  threads = insert name (record { current = none; pending = rest }) sys.threads;
}

-- The thread of newly started jobs.
abbrev pub new_thread : List Job → Thread
new_thread new = record { current = none; pending = ids_of new }

abbrev pub IsQueued : Job → Type 0
IsQueued job = job.state ≡ queued

-- Random ids: none is that of a job in the document or of one that a thread has left to run, nor
-- names a thread.
pub record AreFresh (new : List Job) (sys : System) : Type 0 where
  pub distinct : IsDict (by_id new)
  pub jobs : (k : String) → is_in k (ids_of new) ≡ true → lookup k sys.jobs ≡ none
  pub names : (k : String) → is_in k (ids_of new) ≡ true → lookup k sys.threads ≡ none
  pub left :
      (k name : String) (t : Thread)
      → is_in k (ids_of new) ≡ true
      → lookup name sys.threads ≡ some t
      → is_in k (members t) ≡ false

-- One step: a start, a turn of a thread, a restart of the program, or a deletion of jobs with
-- their device.
pub data Step (limit : ℕ) : System → System → Type 0 where
  starts :
      (first : Job) (more : List Job) (after : Jobs) (sys : System)
      → All IsQueued (first ∷ more)
      → AreFresh (first ∷ more) sys
      → start_jobs limit (first ∷ more) sys.jobs ≡ started after
      → Step limit sys (record {
        jobs = after;
        threads = insert first.id (new_thread (first ∷ more)) sys.threads;
      })
  begins :
      (name k : String) (rest : List String) (now : ℕ) (sys : System)
      → lookup name sys.threads ≡ some (record { current = none; pending = k ∷ rest })
      → Step limit sys (begin_run name k rest now sys)
  ends :
      (name k : String) (rest : List String) (began finished : ℕ) (result : RunResult)
      (sys : System)
      → lookup name sys.threads ≡ some (record { current = some k; pending = rest })
      → Step limit sys (end_run name k rest began finished result sys)
  restarts :
      (now : ℕ) (sys : System)
      → Step limit sys (record { jobs = (recover_interrupted_jobs now sys.jobs).1; threads = [] })
  deletes :
      (ids : List String) (sys : System)
      → Step limit sys (record sys { jobs = erase_all ids sys.jobs })

-- The systems that the program reaches from an empty document.
pub data IsReachable (limit : ℕ) : System → Type 0 where
  empty : IsReachable limit (record { jobs = []; threads = [] })
  then_step :
      {before sys : System}
      → IsReachable limit before
      → Step limit before sys
      → IsReachable limit sys
