-- ===== src/Compute/Jobs.antt =====
-- The maintenance jobs of backend/compute_maintenance.py: their states, `_new_job`, `_start_jobs`,
-- `start_job`, `_set_job` and `recover_interrupted_jobs`.
pub mod Bound
pub mod Start
pub mod Recovery
use home_lab_hq.Base.{
  ℕ, zero, suc, ◌+◌, ◌-◌, String, Bool, true, false, Option, none, some, List, [], ◌∷◌, ◌==◌, ◌&&◌,
  ◌||◌, not, ltb, nat_eq, if◌then◌else◌, length, any, or_default, keep,
}
use home_lab_hq.Dict.{Dict, lookup, insert, values, keep_items, map_items}
use home_lab_hq.Prune.{text_lt, take, sort_items, drop_chosen}

pub data JobState : Type 0 where
  queued running successful incomplete failed unreachable cancelled : JobState

-- `state in ACTIVE_STATES`
abbrev pub is_active : JobState → Bool
is_active queued = true
is_active running = true
is_active _ = false

-- `state in TERMINAL_STATES`
abbrev pub is_terminal : JobState → Bool
is_terminal queued = false
is_terminal running = false
is_terminal _ = true

abbrev pub is_successful : JobState → Bool
is_successful successful = true
is_successful _ = false

-- What the job took from the approved mapping when it was made, which nothing changes later.
-- `variables` is only copied, so it stands as its text.
pub record JobRequest : Type 0 where
  pub controller_id : String
  pub target : String
  pub operation : String
  pub playbook_operation : String
  pub playbook : String
  pub mode : Option String
  pub requested_by : String
  pub allow_reboot : Bool
  pub project_id : Option String
  pub project_name : Option String
  pub variables : String

-- The output that a run collects. The nested values stand as their texts.
pub record JobOutput : Type 0 where
  pub exit_status : Option String
  pub recap : String
  pub structured_result : Option String
  pub structured_result_source : Option String
  pub structured_result_error : Option String
  pub stdout : String
  pub stderr : String

pub record Job : Type 0 where
  pub id : String
  pub instance_id : String
  pub request : JobRequest
  pub state : JobState
  pub created_at : ℕ
  pub started_at : Option ℕ
  pub finished_at : Option ℕ
  pub duration : Option ℕ
  pub output : JobOutput
  pub summary : String
  pub details_retained : Bool
  pub integration_timeout : Option ℕ
  pub follow_up : Option String

abbrev pub Jobs : Type 0
Jobs = Dict Job

abbrev no_output : JobOutput
no_output = record {
  exit_status = none;
  recap = "{}";
  structured_result = none;
  structured_result_source = none;
  structured_result_error = none;
  stdout = "";
  stderr = "";
}

-- `max(1, min(300, timeout))`
clamp_timeout : Option ℕ → Option ℕ
clamp_timeout none = none
clamp_timeout (some t) = some (if ltb t 1 then 1 else if ltb 300 t then 300 else t)

-- The record that `_new_job` makes of a request that is allowed.
unfoldable pub queued_job : ℕ → String → String → JobRequest → Option ℕ → Job
unfolding clamp_timeout
queued_job now id instance_id request timeout = record {
  id = id;
  instance_id = instance_id;
  request = request;
  state = queued;
  created_at = now;
  started_at = none;
  finished_at = none;
  duration = none;
  output = no_output;
  summary = "Queued";
  details_retained = true;
  integration_timeout = clamp_timeout timeout;
  follow_up = none;
}

-- `job.get("finishedAt") or job.get("createdAt", 0)`
abbrev pub ended_at : Job → ℕ
ended_at job = elim job.finished_at [
  | none ↦ job.created_at
  | some zero ↦ job.created_at
  | some (suc t) ↦ suc t
]

-- The order of the sort key `(finishedAt or createdAt, id)`.
unfoldable pub ended_before : String × Job → String × Job → Bool
ended_before x y =
    ltb (ended_at x.1) (ended_at y.1)
    || (nat_eq (ended_at x.1) (ended_at y.1) && text_lt x.1.id y.1.id)

abbrev pub terminal_item : String → Job → Bool
terminal_item key job = is_terminal job.state

abbrev pub is_busy : String → Job → Bool
is_busy instance_id job = job.instance_id == instance_id && is_active job.state

unfoldable pub add_jobs : List Job → Jobs → Jobs
add_jobs [] jobs = jobs
add_jobs (job ∷ more) jobs = add_jobs more (insert job.id job jobs)

-- The oldest terminal jobs go where the jobs exceed the limit.
unfoldable pub bound_jobs : ℕ → Jobs → Jobs
bound_jobs limit jobs =
    if ltb limit (length jobs)
    then drop_chosen ended_before (λ item. item.1.id) terminal_item (length jobs - limit) jobs
    else jobs

-- What starting jobs comes to: a `ValueError`, a `Conflict`, or the new jobs in the document.
pub data Started : Type 0 where
  rejected conflict : Started
  started : Jobs → Started

abbrev pub elsewhere : String → Job → Bool
elsewhere instance_id job = not (job.instance_id == instance_id)

-- The empty list starts nothing and succeeds.
unfoldable pub start_jobs : ℕ → List Job → Jobs → Started
unfolding add_jobs bound_jobs
start_jobs limit [] jobs = started jobs
start_jobs limit (first ∷ more) jobs =
    if any (elsewhere first.instance_id) (first ∷ more)
    then rejected
    else if any (is_busy first.instance_id) (values jobs)
    then conflict
    else started (bound_jobs limit (add_jobs (first ∷ more) jobs))

-- `list_jobs` before its copies: a stable sort by creation, newest first.
insert_newest : Job → List Job → List Job
insert_newest job [] = job ∷ []
insert_newest job (other ∷ rest) =
    let later = insert_newest job rest in
    if ltb job.created_at other.created_at then other ∷ later else job ∷ other ∷ rest

newest_first : List Job → List Job
unfolding insert_newest
newest_first [] = []
newest_first (job ∷ rest) = insert_newest job (newest_first rest)

unfoldable pub list_jobs : String → ℕ → Jobs → List Job
unfolding newest_first
list_jobs instance_id limit jobs =
    take
      (if ltb (if ltb limit 100 then limit else 100) 1
        then 1
        else if ltb limit 100
        then limit
        else 100)
      (newest_first (keep (λ job. Job.instance_id job == instance_id) (values jobs)))

-- One turn of the loop of `recover_interrupted_jobs`.
unfoldable pub interrupt : ℕ → String → Job → Job
interrupt now key job =
    if is_active job.state
    then record job {
      state = failed;
      finished_at = some now;
      duration = some (now - since job.started_at);
      summary = "HomelabHQ restarted before the job result was collected";
    }
    else job
  where
    since : Option ℕ → ℕ
    since none = now
    since (some zero) = now
    since (some (suc t)) = suc t

-- The number of recovered jobs, and the jobs.
unfoldable pub recover_interrupted_jobs : ℕ → Jobs → ℕ × Jobs
recover_interrupted_jobs now jobs =
    (length (keep (λ job. is_active (Job.state job)) (values jobs)), map_items (interrupt now) jobs)
