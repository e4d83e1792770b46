-- ===== src/Compute/Jobs/Recovery.antt =====
-- The jobs after a restart: `recover_interrupted_jobs` of backend/compute_maintenance.py.
use home_lab_hq.Base.{
  ℕ, String, ◌≡◌, refl, sym, ap, ◌∙◌, inl, inr, true, false, Option, none, some, [], ◌∷◌, length,
  keep, Bool-cases,
}
use home_lab_hq.Dict.{lookup, map_items, values}
use home_lab_hq.Dict.Laws.{lookup-map_items, mapped}
use home_lab_hq.Compute.Jobs.{Job, Jobs, is_active, failed, interrupt, recover_interrupted_jobs}

interrupt_idle :
    (now : ℕ) (k : String) (i : Job) → is_active i.state ≡ false → interrupt now k i ≡ i
unfolding interrupt
interrupt_idle now k i h = rw h refl

interrupt_stops : (now : ℕ) (k : String) (i : Job) → is_active (interrupt now k i).state ≡ false
unfolding interrupt
interrupt_stops now k i = elim (Bool-cases (is_active i.state)) [
  | inl busy ↦ rw busy refl
  | inr idle ↦ rw idle idle
]

-- A restarted job is failed at the time of the restart, and asks for what it asked for.
pub record IsInterrupted (now : ℕ) (i j : Job) : Type 0 where
  pub state : j.state ≡ failed
  pub finished_at : j.finished_at ≡ some now
  pub id : j.id ≡ i.id
  pub instance_id : j.instance_id ≡ i.instance_id
  pub request : j.request ≡ i.request
  pub created_at : j.created_at ≡ i.created_at

interrupt-IsInterrupted :
    (now : ℕ) (k : String) (i : Job)
    → is_active i.state ≡ true
    → IsInterrupted now i (interrupt now k i)
unfolding interrupt
interrupt-IsInterrupted now k i h = rw h (record {
  state = refl;
  finished_at = refl;
  id = refl;
  instance_id = refl;
  request = refl;
  created_at = refl;
})

lookup-recovered :
    (now : ℕ) (d : Jobs) (k : String) (i : Job)
    → lookup k d ≡ some i
    → lookup k (recover_interrupted_jobs now d).1 ≡ some (interrupt now k i)
unfolding recover_interrupted_jobs
lookup-recovered now d k i e =
    lookup-map_items (interrupt now) k d ∙ ap (mapped (interrupt now k)) e

nothing_left :
    (now : ℕ) (d : Jobs)
    → length (keep (λ job. is_active (Job.state job)) (values (map_items (interrupt now) d))) ≡ 0
unfolding map_items
nothing_left now [] = refl
nothing_left now ((k, i) ∷ d) = rw (interrupt_stops now k i) (nothing_left now d)

stays :
    (now later : ℕ) (d : Jobs)
    → map_items (interrupt later) (map_items (interrupt now) d) ≡ map_items (interrupt now) d
unfolding map_items
stays now later [] = refl
stays now later ((k, i) ∷ d) =
    rw (interrupt_idle later k (interrupt now k i) (interrupt_stops now k i), stays now later d)
      refl

-- No job is active after a recovery.
pub recovered-idle :
    (now : ℕ) (d : Jobs) (k : String) (j : Job)
    → lookup k (recover_interrupted_jobs now d).1 ≡ some j
    → is_active j.state ≡ false
unfolding recover_interrupted_jobs
recovered-idle now d k j e = go (lookup k d) (sym (lookup-map_items (interrupt now) k d) ∙ e)
  where
    go : (o : Option Job) → mapped (interrupt now k) o ≡ some j → is_active j.state ≡ false
    go none h = absurd (cc h)
    go (some i) h = let same : interrupt now k i ≡ j = cc h in rw (← same) (interrupt_stops now k i)

-- The recovery after a restart fails every active job at the time of the restart and leaves every
-- other job as it is; a second recovery, at any time, finds no job to recover and changes none.
pub recover_interrupted_jobs_lem :
    (now later : ℕ) (d : Jobs)
    → ((k : String) (i : Job)
        → lookup k d ≡ some i
        → (is_active i.state ≡ false → lookup k (recover_interrupted_jobs now d).1 ≡ some i)
          × (is_active i.state ≡ true
              → (j : Job) × (lookup k (recover_interrupted_jobs now d).1 ≡ some j)
                × IsInterrupted now i j))
      × (recover_interrupted_jobs later (recover_interrupted_jobs now d).1
          ≡ (0, (recover_interrupted_jobs now d).1))
unfolding recover_interrupted_jobs
recover_interrupted_jobs_lem now later d = (
  λ k i e. (
    (λ idle. lookup-recovered now d k i e ∙ ap some (interrupt_idle now k i idle)),
    (λ busy.
        (interrupt now k i, lookup-recovered now d k i e, interrupt-IsInterrupted now k i busy)),
  ),
  rw (nothing_left now d, stays now later d) refl,
)
