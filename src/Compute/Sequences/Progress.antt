-- ===== src/Compute/Sequences/Progress.antt =====
-- A start after the jobs of an earlier one have run.
use home_lab_hq.Base.{
  is_in, ℕ, String, ◌≡◌, sym, ap, ◌∙◌, inl, inr, true, false, Option, none, some, List, [], ◌∷◌,
  arith, eq_iff, Bool-cases, Option-cases, any, is_some,
}
use home_lab_hq.Dict.{lookup}
use home_lab_hq.Dict.Laws.{IsDict}
use home_lab_hq.Compute.Jobs.{Job, Jobs, is_active, is_busy, elsewhere, start_jobs, started}
use home_lab_hq.Compute.Jobs.Bound.{HaveJobIds}
use home_lab_hq.Compute.Jobs.Start.{by_id, or_else, StartJobs, start_jobs_lem, start_jobs-mixed}
use home_lab_hq.Compute.Discovery.{set_job}
use home_lab_hq.Compute.Discovery.Effects.{set_job-IsDict, set_job-HaveJobIds}
use home_lab_hq.Compute.Threads.{run_begins, run_ends, ids_of}
use home_lab_hq.Compute.Threads.Serial.{run_ends-id, run_begins-id}
use home_lab_hq.Compute.Threads.Start.{is_in-ids_of}
use home_lab_hq.Compute.Sequences.{Run, run_found, run_job, run_job_sequence, run_job_sequence_was}

run_found-IsDict :
    (id : String) (run : Run) (o : Option Job) (d : Jobs)
    → IsDict d
    → HaveJobIds d
    → IsDict (run_found id run o d) × HaveJobIds (run_found id run o d)
unfolding run_found
run_found-IsDict id run none d h ids = (h, ids)
run_found-IsDict id run (some job) d h ids =
    let begins = run_begins run.began in
    let ends = run_ends run.began run.finished run.result in
    (
      set_job-IsDict id ends (set_job id begins d).1 (set_job-IsDict id begins d h),
      set_job-HaveJobIds id ends (run_ends-id run.began run.finished run.result)
          (set_job id begins d).1 (set_job-HaveJobIds id begins (run_begins-id run.began) d ids),
    )

run_job_sequence-IsDict :
    (runs : String → Run) (ids : List String) (d : Jobs)
    → IsDict d
    → HaveJobIds d
    → IsDict (run_job_sequence runs ids d) × HaveJobIds (run_job_sequence runs ids d)
unfolding run_job_sequence run_job
run_job_sequence-IsDict runs [] d h named = (h, named)
run_job_sequence-IsDict runs (id ∷ ids) d h named =
    let one = run_found-IsDict id (runs id) (lookup id d) d h named in
    run_job_sequence-IsDict runs ids (run_job id (runs id) d) one.0 one.1

-- A job that is not new was there before the start.
old_job :
    (k : String) (j : Job) (new : List Job) (d : Jobs)
    → is_in k (ids_of new) ≡ false
    → or_else (lookup k (by_id new)) (lookup k d) ≡ some j
    → lookup k d ≡ some j
old_job k j new d not_new e = elim (Option-cases (lookup k (by_id new))) [
  | inl absent ↦ sym (ap (λ o. or_else o (lookup k d)) absent) ∙ e
  | inr (i, found) ↦ absurd (cc (is_in-ids_of k new ∙ ap is_some found, not_new))
]

busy_parts :
    (instance_id : String) (j : Job)
    → is_busy instance_id j ≡ true
    → (j.instance_id ≡ instance_id) × (is_active j.state ≡ true)
busy_parts instance_id j h = ground (arith, eq_iff j.instance_id instance_id)

busy_whole :
    (instance_id : String) (j : Job)
    → j.instance_id ≡ instance_id
    → is_active j.state ≡ true
    → is_busy instance_id j ≡ true
busy_whole instance_id j same active = ground (arith, eq_iff j.instance_id instance_id)

module _ (limit : ℕ) (first : Job) (more : List Job) (d mid : Jobs) (runs : String → Run)
    (none_busy : (k : String) (j : Job) → lookup k d ≡ some j → is_busy first.instance_id j ≡ false)
    (start : StartJobs limit (first ∷ more) d mid) where
  -- No job of the instance is busy any more.
  idle_again :
      (k : String) (j : Job)
      → lookup k (run_job_sequence runs (ids_of (first ∷ more)) mid) ≡ some j
      → is_busy first.instance_id j ≡ false
  idle_again k j e = elim (Bool-cases (is_busy first.instance_id j)) [
    | inr idle ↦ idle
    | inl busy ↦
        let was = run_job_sequence_was runs (ids_of (first ∷ more)) mid k j e in
        let (same, active) = busy_parts first.instance_id j busy in
        elim (Bool-cases (is_in k (ids_of (first ∷ more)))) [
          | inl mine ↦ absurd (cc (was.ends mine, active))
          | inr other ↦
              let before =
                old_job k was.job (first ∷ more) d other (start.was k was.job was.there) in
              let still =
                busy_whole first.instance_id was.job (sym was.instance_id ∙ same)
                  (ap is_active (sym (was.stays other)) ∙ active) in
              absurd (cc (none_busy k was.job before, still))
        ]
  ]

-- Whatever the runs of the started jobs come to, once they have run one after the other the next
-- start of jobs for the same compute instance succeeds.
pub start_again :
    (limit : ℕ) (first next : Job) (more others : List Job) (d mid : Jobs) (runs : String → Run)
    → IsDict (by_id (first ∷ more))
    → IsDict (by_id (next ∷ others))
    → IsDict d
    → HaveJobIds d
    → start_jobs limit (first ∷ more) d ≡ started mid
    → next.instance_id ≡ first.instance_id
    → any (elsewhere next.instance_id) (next ∷ others) ≡ false
    → (after : Jobs) × (start_jobs limit
          (next ∷ others)
          (run_job_sequence runs (ids_of (first ∷ more)) mid)
        ≡ started after)
start_again limit first next more others d mid runs distinct distinct_next h named e same one =
    elim (Bool-cases (any (elsewhere first.instance_id) (first ∷ more))) [
      | inl mixed ↦ absurd (cc (sym (start_jobs-mixed limit first more d mixed) ∙ e))
      | inr one_first ↦ elim (start_jobs_lem limit first more d distinct h named one_first) [
        | inl (refused, busy) ↦ absurd (cc (sym refused ∙ e))
        | inr (none_busy, (got, is, start)) ↦
            let both : started got ≡ started mid = sym is ∙ e in
            let here : got ≡ mid = cc both in again none_busy (rw (← here) start)
      ]
    ]
  where
    again :
        ((k : String) (j : Job) → lookup k d ≡ some j → is_busy first.instance_id j ≡ false)
        → StartJobs limit (first ∷ more) d mid
        → (after : Jobs) × (start_jobs limit
              (next ∷ others)
              (run_job_sequence runs (ids_of (first ∷ more)) mid)
            ≡ started after)
    again none_busy start =
        let ran = run_job_sequence runs (ids_of (first ∷ more)) mid in
        let good = run_job_sequence-IsDict runs (ids_of (first ∷ more)) mid start.keys start.ids in
        elim (start_jobs_lem limit next others ran distinct_next good.0 good.1 one) [
          | inl (refused, (k, j, found, busy)) ↦
              let idle = idle_again limit first more d mid runs none_busy start k j found in
              absurd (cc (same, busy, idle))
          | inr (none_now, (after, is, kept)) ↦ (after, is)
        ]
