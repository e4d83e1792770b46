-- ===== src/Compute/Sequences.antt =====
-- `_run_job` and `_run_job_sequence` of backend/compute_maintenance.py without interruption, and
-- the start after them.
pub mod Progress
use home_lab_hq.Base.{
  is_in, AllDistinct, ℕ, String, ◌≡◌, ◌⊎◌, refl, sym, ap, ◌∙◌, inl, inr, Bool, true, false, Option,
  none, some, List, [], ◌∷◌, arith, ◌==◌, ◌||◌, eq_iff, eq_refl, if◌then◌else◌, Bool-cases,
  Option-cases, All, any, is_some,
}
use home_lab_hq.Dict.{Dict, lookup}
use home_lab_hq.Dict.Laws.{IsDict}
use home_lab_hq.Compute.Jobs.{
  Job, Jobs, JobState, is_active, is_busy, elsewhere, start_jobs, Started, started,
}
use home_lab_hq.Compute.Jobs.Bound.{HaveJobIds}
use home_lab_hq.Compute.Jobs.Start.{by_id, or_else, StartJobs, start_jobs_lem, start_jobs-mixed}
use home_lab_hq.Compute.Discovery.{set_job}
use home_lab_hq.Compute.Discovery.Effects.{set_job-IsDict, set_job-HaveJobIds}
use home_lab_hq.Compute.Threads.{RunResult, run_begins, run_ends, ids_of}
use home_lab_hq.Compute.Threads.Steps.{changed_was, run_ends-idle, run_ends-instance_id}
use home_lab_hq.Compute.Threads.Serial.{run_ends-id, run_begins-id}
use home_lab_hq.Compute.Threads.Start.{is_in-ids_of}

-- When a run of a job begins and ends, and what it comes to.
pub record Run : Type 0 where
  pub began : ℕ
  pub finished : ℕ
  pub result : RunResult

run_found : String → Run → Option Job → Jobs → Jobs
run_found id run none jobs = jobs
run_found id run (some job) jobs =
    (set_job id (run_ends run.began run.finished run.result)
      (set_job id (run_begins run.began) jobs).1).1

unfoldable pub run_job : String → Run → Jobs → Jobs
unfolding run_found
run_job id run jobs = run_found id run (lookup id jobs) jobs

-- The runs of the jobs are given by their ids.
unfoldable pub run_job_sequence : (String → Run) → List String → Jobs → Jobs
run_job_sequence runs [] jobs = jobs
run_job_sequence runs (id ∷ ids) jobs = run_job_sequence runs ids (run_job id (runs id) jobs)

-- What a job was before some of the jobs ran.
pub record WasBefore (ran : Bool) (d : Jobs) (k : String) (j : Job) : Type 0 where
  pub job : Job
  pub there : lookup k d ≡ some job
  pub instance_id : j.instance_id ≡ job.instance_id
  pub ends : ran ≡ true → is_active j.state ≡ false
  pub stays : ran ≡ false → j.state ≡ job.state

run_found_was :
    (id : String) (run : Run) (o : Option Job) (d : Jobs) (k : String) (j : Job)
    → lookup id d ≡ o
    → lookup k (run_found id run o d) ≡ some j
    → WasBefore (id == k) d k j
unfolding run_found run_begins
run_found_was id run none d k j it e = record {
  job = j;
  there = e;
  instance_id = refl;
  ends = λ same.
      let gone : lookup k d ≡ none = rw (← (eq_iff id k).0 same) it in absurd (cc (gone, e));
  stays = λ other. refl;
}
run_found_was id run (some i) d k j it e =
    let mid = (set_job id (run_begins run.began) d).1 in
    let (h, there, same, how) =
      changed_was id (run_ends run.began run.finished run.result) mid k j
        (run_ends-instance_id run.began run.finished run.result) e in
    let (g, was, before, begun) = changed_was id (run_begins run.began) d k h (λ i. refl) there in
    record {
      job = g;
      there = was;
      instance_id = same ∙ before;
      ends = λ here. elim how [
        | inl (one, state) ↦ ap is_active state ∙ run_ends-idle run.began run.finished run.result h
        | inr (other, state) ↦ absurd (cc (here, other))
      ];
      stays = λ there. elim how [
        | inl (one, state) ↦ absurd (cc ((eq_iff id k).1 one, there))
        | inr (other, state) ↦ elim begun [
          | inl (one, now) ↦ absurd (cc ((eq_iff id k).1 one, other))
          | inr (still, now) ↦ state ∙ now
        ]
      ];
    }

-- Running jobs one after the other ends each of them in a finished state, whatever the runs come
-- to, and leaves the state of every other job.
pub run_job_sequence_was :
    (runs : String → Run) (ids : List String) (d : Jobs) (k : String) (j : Job)
    → lookup k (run_job_sequence runs ids d) ≡ some j
    → WasBefore (is_in k ids) d k j
unfolding run_job_sequence run_job
run_job_sequence_was runs [] d k j e = record {
  job = j;
  there = e;
  instance_id = refl;
  ends = λ never. absurd (cc never);
  stays = λ always. refl;
}
run_job_sequence_was runs (id ∷ ids) d k j e =
    let last = run_job_sequence_was runs ids (run_job id (runs id) d) k j e in
    let one = run_found_was id (runs id) (lookup id d) d k last.job refl last.there in
    record {
      job = one.job;
      there = one.there;
      instance_id = last.instance_id ∙ one.instance_id;
      ends = λ mine. elim (Bool-cases (is_in k ids)) [
        | inl later ↦ last.ends later
        | inr not_later ↦
            ap is_active (last.stays not_later) ∙ one.ends (ground (arith, mine, not_later))
      ];
      stays = λ other. last.stays (ground arith) ∙ one.stays (ground arith);
    }
