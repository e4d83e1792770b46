-- ===== src/Compute/Jobs/Start.antt =====
-- Starting jobs: when it is refused, and what it leaves of the earlier jobs.
use home_lab_hq.Base.{
  ℕ, ◌≤◌, String, ◌≡◌, ◌⊎◌, refl, sym, ap, ◌∙◌, inl, inr, true, false, Option, none, some, List, [],
  ◌∷◌, arith, ◌==◌, eq_iff, eq_refl, length, any, Bool-cases,
}
use home_lab_hq.Dict.{lookup, insert, values, keep_items}
use home_lab_hq.Dict.Laws.{IsDict, lookup-insert, insert-IsDict}
use home_lab_hq.Prune.Named.{insert-AreNamed}
use home_lab_hq.Compute.Jobs.{
  Job, Jobs, is_terminal, is_busy, elsewhere, ended_at, terminal_item, add_jobs, bound_jobs,
  start_jobs, rejected, conflict, started,
}
use home_lab_hq.Compute.Jobs.Bound.{HaveJobIds, bound_jobs-BoundJobs}

-- The new jobs by their ids.
abbrev pub by_id : List Job → Jobs
by_id [] = []
by_id (job ∷ more) = (job.id, job) ∷ by_id more

-- A job of the first kind, or else one of the second.
abbrev pub or_else : Option Job → Option Job → Option Job
or_else none o = o
or_else (some job) o = some job

lookup-add_jobs :
    (k : String) (new : List Job) (d : Jobs)
    → IsDict (by_id new)
    → lookup k (add_jobs new d) ≡ or_else (lookup k (by_id new)) (lookup k d)
unfolding add_jobs lookup
lookup-add_jobs k [] d h = refl
lookup-add_jobs k (job ∷ more) d h =
    lookup-add_jobs k more (insert job.id job d) h.1 ∙ elim (Bool-cases (job.id == k)) [
      | inl same ↦
          let absent : lookup k (by_id more) ≡ none = rw (← (eq_iff job.id k).0 same) h.0 in
          rw (absent, lookup-insert k job.id job d, same) refl
      | inr other ↦ rw (lookup-insert k job.id job d, other) refl
    ]

add_jobs-IsDict : (new : List Job) (d : Jobs) → IsDict d → IsDict (add_jobs new d)
unfolding add_jobs
add_jobs-IsDict [] d h = h
add_jobs-IsDict (job ∷ more) d h =
    add_jobs-IsDict more (insert job.id job d) (insert-IsDict job.id job d h)

add_jobs-HaveJobIds : (new : List Job) (d : Jobs) → HaveJobIds d → HaveJobIds (add_jobs new d)
unfolding add_jobs
add_jobs-HaveJobIds [] d h = h
add_jobs-HaveJobIds (job ∷ more) d h =
    add_jobs-HaveJobIds more (insert job.id job d)
      (insert-AreNamed (λ item. item.1.id) job.id job d (λ j e. sym e) h)

-- What starting the jobs `new` makes of the jobs `d`.
pub record StartJobs (limit : ℕ) (new : List Job) (d after : Jobs) : Type 0 where
  pub keys : IsDict after
  pub ids : HaveJobIds after
  pub bound : (length after ≤ limit) ⊎ (length (keep_items terminal_item after) ≡ 0)
  pub was :
      (k : String) (j : Job)
      → lookup k after ≡ some j
      → or_else (lookup k (by_id new)) (lookup k d) ≡ some j
  pub active :
      (k : String) (j : Job)
      → or_else (lookup k (by_id new)) (lookup k d) ≡ some j
      → is_terminal j.state ≡ false
      → lookup k after ≡ some j
  pub oldest :
      (k l : String) (i j : Job)
      → lookup k d ≡ some i
      → lookup k (by_id new) ≡ none
      → lookup k after ≡ none
      → lookup l after ≡ some j
      → is_terminal j.state ≡ true
      → ended_at i ≤ ended_at j

bound_jobs-StartJobs :
    (limit : ℕ) (new : List Job) (d : Jobs)
    → IsDict (by_id new)
    → IsDict d
    → HaveJobIds d
    → StartJobs limit new d (bound_jobs limit (add_jobs new d))
bound_jobs-StartJobs limit new d distinct h ids =
    let added = lookup-add_jobs in
    let it =
      bound_jobs-BoundJobs limit (add_jobs new d) (add_jobs-IsDict new d h)
        (add_jobs-HaveJobIds new d ids) in
    record {
      keys = it.keys;
      ids = it.ids;
      bound = it.bound;
      was = λ k j e. sym (added k new d distinct) ∙ it.was k j e;
      active = λ k j e idle. it.active k j (added k new d distinct ∙ e) idle;
      oldest = λ k l i j e new_not gone stays over.
          it.oldest k l i j (added k new d distinct ∙ ap (λ o. or_else o (lookup k d)) new_not ∙ e)
            gone stays over;
    }

busy_found :
    (instance_id k : String) (j : Job) (d : Jobs)
    → lookup k d ≡ some j
    → is_busy instance_id j ≡ true
    → any (is_busy instance_id) (values d) ≡ true
unfolding lookup
busy_found instance_id k j [] e h = cc
busy_found instance_id k j ((l, i) ∷ d) e h = ground (arith, busy_found instance_id k j d)

none_busy :
    (instance_id k : String) (j : Job) (d : Jobs)
    → lookup k d ≡ some j
    → any (is_busy instance_id) (values d) ≡ false
    → is_busy instance_id j ≡ false
none_busy instance_id k j d e idle = elim (Bool-cases (is_busy instance_id j)) [
  | inl busy ↦ absurd (cc (busy_found instance_id k j d e busy, idle))
  | inr it ↦ it
]

busy_witness :
    (instance_id : String) (d : Jobs)
    → IsDict d
    → any (is_busy instance_id) (values d) ≡ true
    → (k : String) × (j : Job) × (lookup k d ≡ some j) × (is_busy instance_id j ≡ true)
unfolding lookup
busy_witness instance_id [] h b = absurd (cc b)
busy_witness instance_id ((l, i) ∷ d) h b = elim (Bool-cases (is_busy instance_id i)) [
  | inl busy ↦ (l, i, rw (eq_refl l) refl, busy)
  | inr idle ↦
      let (k, j, e, busy) = busy_witness instance_id d h.1 (rw idle at b) in
      (k, j, ground (arith, h.0, e, eq_iff l k), busy)
]

pub start_jobs-mixed :
    (limit : ℕ) (first : Job) (more : List Job) (d : Jobs)
    → any (elsewhere first.instance_id) (first ∷ more) ≡ true
    → start_jobs limit (first ∷ more) d ≡ rejected
unfolding start_jobs
start_jobs-mixed limit first more d mixed = rw mixed refl

-- Jobs of one instance are started exactly if no job of that instance is queued or running, and a
-- refused start changes nothing. A start keeps every queued or running job and adds the new jobs
-- as they are; then at most the limit of jobs is left, or no finished one; and of the earlier
-- jobs a dropped one ended no later than any finished job that stays.
pub start_jobs_lem :
    (limit : ℕ) (first : Job) (more : List Job) (d : Jobs)
    → IsDict (by_id (first ∷ more))
    → IsDict d
    → HaveJobIds d
    → any (elsewhere first.instance_id) (first ∷ more) ≡ false
    → ((start_jobs limit (first ∷ more) d ≡ conflict)
        × ((k : String) × (j : Job) × (lookup k d ≡ some j) × (is_busy first.instance_id j ≡ true)))
      ⊎ (((k : String) (j : Job) → lookup k d ≡ some j → is_busy first.instance_id j ≡ false)
          × ((after : Jobs) × (start_jobs limit (first ∷ more) d ≡ started after)
              × StartJobs limit (first ∷ more) d after))
unfolding start_jobs
start_jobs_lem limit first more d distinct h ids one =
    elim (Bool-cases (any (is_busy first.instance_id) (values d))) [
      | inl busy ↦ inl (rw (one, busy) refl, busy_witness first.instance_id d h busy)
      | inr idle ↦ inr (
        (λ k j e. none_busy first.instance_id k j d e idle),
        (
          bound_jobs limit (add_jobs (first ∷ more) d),
          rw (one, idle) refl,
          bound_jobs-StartJobs limit (first ∷ more) d distinct h ids,
        ),
      )
    ]
