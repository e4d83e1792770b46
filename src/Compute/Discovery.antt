-- ===== src/Compute/Discovery.antt =====
-- `compact_compute_discovery_history` of backend/store.py, and `_set_job` of
-- backend/compute_maintenance.py, which calls it.
pub mod Effects
use home_lab_hq.Base.{
  ℕ, String, Bool, true, false, Option, none, some, List, [], ◌∷◌, ◌==◌, ◌&&◌, ◌||◌, not, ltb,
  nat_eq, if◌then◌else◌, length, is_some,
}
use home_lab_hq.Dict.{Dict, lookup, insert, keep_items, map_items}
use home_lab_hq.Prune.{text_lt}
use home_lab_hq.Compute.Jobs.{Job, Jobs, JobOutput, JobState, is_successful}

-- A successful discovery of a named instance.
unfoldable pub is_discovery : String → Job → Bool
is_discovery key job =
    job.request.operation == "docker_discovery"
    && is_successful job.state
    && not (job.instance_id == "")

-- `_history_timestamp_key` on a missing time and on a number.
stamp_lt : Option ℕ → Option ℕ → Bool
stamp_lt none none = false
stamp_lt none (some b) = true
stamp_lt (some a) none = false
stamp_lt (some a) (some b) = ltb a b

stamp_eq : Option ℕ → Option ℕ → Bool
stamp_eq none none = true
stamp_eq (some a) (some b) = nat_eq a b
stamp_eq _ _ = false

-- The order of `(finished, created, id, key)`.
order_lt : String × Job → String × Job → Bool
unfolding stamp_lt stamp_eq
order_lt x y =
    stamp_lt x.1.finished_at y.1.finished_at
    || (stamp_eq x.1.finished_at y.1.finished_at
        && (ltb x.1.created_at y.1.created_at
            || (nat_eq x.1.created_at y.1.created_at
                && (text_lt x.1.id y.1.id || (x.1.id == y.1.id && text_lt x.0 y.0)))))

-- `newest_by_instance[instance_id]` after the loop.
newest_of : String → Option (String × Job) → Jobs → Option (String × Job)
unfolding order_lt is_discovery
newest_of instance_id current [] = current
newest_of instance_id current ((key, job) ∷ rest) =
    let unchanged = newest_of instance_id current rest in
    let replaced = newest_of instance_id (some (key, job)) rest in
    if is_discovery key job && job.instance_id == instance_id && is_newer (key, job) current
    then replaced
    else unchanged
  where
    is_newer : String × Job → Option (String × Job) → Bool
    is_newer x none = true
    is_newer x (some y) = order_lt y x

is_newest : String → Option (String × Job) → Bool
is_newest key none = false
is_newest key (some x) = x.0 == key

-- A discovery that a newer one of its instance supersedes.
is_superseded : Jobs → String → Job → Bool
unfolding newest_of is_discovery is_newest
is_superseded jobs key job =
    is_discovery key job && not (is_newest key (newest_of job.instance_id none jobs))

unfoldable pub without_details : Job → Job
without_details job = record job {
  output = record job.output { stdout = ""; stderr = ""; structured_result = none };
  details_retained = false;
}

has_details : Job → Bool
has_details job =
    not (job.output.stdout == "")
    || not (job.output.stderr == "")
    || is_some job.output.structured_result
    || job.details_retained

compact_job : Jobs → String → Job → Job
unfolding is_superseded without_details
compact_job jobs key job = if is_superseded jobs key job then without_details job else job

-- The number of jobs that change, and the jobs.
unfoldable pub compact_compute_discovery_history : Jobs → ℕ × Jobs
unfolding compact_job is_superseded has_details
compact_compute_discovery_history jobs = (
  length (keep_items (λ key job. is_superseded jobs key job && has_details job) jobs),
  map_items (compact_job jobs) jobs,
)

-- Whether a change of a job makes a discovery successful.
finishes_discovery : Job → Job → Bool
finishes_discovery before after =
    after.request.operation == "docker_discovery"
    && not (is_successful before.state)
    && is_successful after.state

-- `_set_job` on the job that is found; it answers the stored job.
set_found : String → (Job → Job) → Option Job → Jobs → Option Job × Jobs
unfolding compact_compute_discovery_history finishes_discovery
set_found id changes none jobs = (none, jobs)
set_found id changes (some job) jobs =
    let stored = insert id (changes job) jobs in
    let compacted = (compact_compute_discovery_history stored).1 in
    let after = if finishes_discovery job (changes job) then compacted else stored in
    (lookup id after, after)

-- `_set_job`: none for a job that is not there, which writes nothing.
unfoldable pub set_job : String → (Job → Job) → Jobs → Option Job × Jobs
unfolding set_found
set_job id changes jobs = set_found id changes (lookup id jobs) jobs
