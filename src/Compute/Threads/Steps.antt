-- ===== src/Compute/Threads/Steps.antt =====
-- The threads after the beginning and the end of a run, a restart and a deletion.
use home_lab_hq.Base.{
  is_in, ℕ, String, ◌≡◌, ◌⊎◌, refl, sym, ap, ◌∙◌, inl, inr, Bool, true, false, Option, none, some,
  List, [], ◌∷◌, arith, ◌==◌, eq_iff, eq_refl, if◌then◌else◌, Bool-cases,
}
use home_lab_hq.Dict.{lookup}
use home_lab_hq.Prune.{erase_all}
use home_lab_hq.Prune.Newest.{erase_all_was}
use home_lab_hq.Compute.Jobs.{Job, Jobs, is_active, running, recover_interrupted_jobs}
use home_lab_hq.Compute.Jobs.Recovery.{recovered-idle}
use home_lab_hq.Compute.Discovery.{set_job}
use home_lab_hq.Compute.Discovery.Effects.{changed, set_job_was}
use home_lab_hq.Compute.Threads.{
  Thread, System, members, run_begins, run_ends, result_state, RunResult, ran, raised, begin_found,
  begin_run, end_run,
}
use home_lab_hq.Compute.Threads.Turn.{IsSerial, IsTurn, turned-IsSerial}

-- A run ends in a finished state.
pub run_ends-idle :
    (began finished : ℕ) (result : RunResult) (job : Job)
    → is_active (run_ends began finished result job).state ≡ false
unfolding run_ends result_state
run_ends-idle began finished (ran out) job = ground arith
run_ends-idle began finished (raised message) job = refl

pub run_ends-instance_id :
    (began finished : ℕ) (result : RunResult) (job : Job)
    → (run_ends began finished result job).instance_id ≡ job.instance_id
unfolding run_ends
run_ends-instance_id began finished (ran out) job = refl
run_ends-instance_id began finished (raised message) job = refl

-- The jobs after one of them changes: each is of its instance, and only that one has a new state.
pub changed_was :
    (id : String) (changes : Job → Job) (d : Jobs) (k : String) (j : Job)
    → ((i : Job) → (changes i).instance_id ≡ i.instance_id)
    → lookup k (set_job id changes d).1 ≡ some j
    → (i : Job) × (lookup k d ≡ some i)
      × (j.instance_id ≡ i.instance_id)
      × (((id ≡ k) × (j.state ≡ (changes i).state)) ⊎ ((id == k) ≡ false) × (j.state ≡ i.state))
changed_was id changes d k j keeps e =
    let (i, was, same) = set_job_was id changes d k j e in
    elim (Bool-cases (id == k)) [
      | inl here ↦
          let now = at_key i true here in
          (
            i,
            was,
            same.instance_id ∙ ap Job.instance_id now ∙ keeps i,
            inl ((eq_iff id k).0 here, same.state ∙ ap Job.state now),
          )
      | inr other ↦
          let now = at_key i false other in
          (
            i,
            was,
            same.instance_id ∙ ap Job.instance_id now,
            inr (other, same.state ∙ ap Job.state now),
          )
    ]
  where
    at_key :
        (i : Job) (b : Bool) → (id == k) ≡ b → changed id changes k i ≡ (if b then changes i else i)
    at_key i b e = ap (λ b. if b then changes i else i) e

module _ (sys : System) (name k : String) (rest : List String) (good : IsSerial sys) where
  abbrev waiting : Thread
  waiting = record { current = none; pending = k ∷ rest }

  abbrev running_k : Thread
  running_k = record { current = some k; pending = rest }

  abbrev idle : Thread
  idle = record { current = none; pending = rest }

  -- A running job is the current one of the thread that has it.
  is_current :
      (t : Thread) (l : String) (i : Job)
      → lookup name sys.threads ≡ some t
      → is_in l (members t) ≡ true
      → lookup l sys.jobs ≡ some i
      → i.state ≡ running
      → t.current ≡ some l
  is_current t l i there mine is runs =
      let (n, s, e, now) = good.current l i is runs in
      let one : n ≡ name =
        good.apart n name l l s t i i e there (rw now (ground (arith, eq_refl l))) mine is is
          refl in
      let both : lookup name sys.threads ≡ some s = rw one at e in
      let same : s ≡ t = cc (both, there) in ap Thread.current (sym same) ∙ now

  begin_present :
      (now : ℕ)
      → lookup name sys.threads ≡ some waiting
      → IsTurn sys name waiting running_k (set_job k (run_begins now) sys.jobs).1
  unfolding run_begins
  begin_present now there = record {
    there = there;
    was = λ l j e.
        let (i, was, same, how) = changed_was k (run_begins now) sys.jobs l j (λ i. refl) e in
        elim how [
          | inl (here, state) ↦
              (i, was, same, λ out. absurd (ground (arith, out, eq_iff k l, here)))
          | inr (other, state) ↦ (i, was, same, λ out. state)
        ];
    fewer = λ l inside. inside;
    left = λ l j mine e busy. mine;
    busy = λ l j mine e.
        let (i, was, same, how) = changed_was k (run_begins now) sys.jobs l j (λ i. refl) e in
        elim how [
          | inl (here, state) ↦ ap is_active state
          | inr (other, state) ↦ ap is_active state ∙ good.active name l waiting i there mine was
        ];
    runs = λ l j mine e runs.
        let (i, was, same, how) = changed_was k (run_begins now) sys.jobs l j (λ i. refl) e in
        elim how [
          | inl (here, state) ↦ ap some here
          | inr (other, state) ↦
              absurd (cc (is_current waiting l i there mine was (sym state ∙ runs)))
        ];
    distinct = good.distinct name waiting there;
  }

  begin_missing :
      lookup name sys.threads ≡ some waiting
      → lookup k sys.jobs ≡ none
      → IsTurn sys name waiting idle sys.jobs
  begin_missing there missing = record {
    there = there;
    was = λ l j e. (j, e, refl, λ out. refl);
    fewer = λ l inside. ground arith;
    left = λ l j mine e busy. elim (Bool-cases (k == l)) [
      | inl here ↦
          let gone : lookup l sys.jobs ≡ none = rw (← (eq_iff k l).0 here) missing in
          absurd (cc (gone, e))
      | inr other ↦ rw other at mine
    ];
    busy = λ l j mine e. good.active name l waiting j there (ground (arith, mine)) e;
    runs = λ l j mine e runs. absurd (cc (is_current waiting l j there mine e runs));
    distinct = (good.distinct name waiting there).1;
  }

  end-IsTurn :
      (began finished : ℕ) (result : RunResult)
      → lookup name sys.threads ≡ some running_k
      → IsTurn sys name running_k idle (set_job k (run_ends began finished result) sys.jobs).1
  end-IsTurn began finished result there = record {
    there = there;
    was = λ l j e.
        let (i, was, same, how) = changed l j e in
        elim how [
          | inl (here, state) ↦
              (i, was, same, λ out. absurd (ground (arith, out, eq_iff k l, here)))
          | inr (other, state) ↦ (i, was, same, λ out. state)
        ];
    fewer = λ l inside. ground arith;
    left = λ l j mine e busy.
        let (i, was, same, how) = changed l j e in
        elim how [
          | inl (here, state) ↦
              absurd (cc (ap is_active state, run_ends-idle began finished result i, busy))
          | inr (other, state) ↦ rw other at mine
        ];
    busy = λ l j mine e.
        let (i, was, same, how) = changed l j e in
        elim how [
          | inl (here, state) ↦ absurd (cc (here, (good.distinct name running_k there).0, mine))
          | inr (other, state) ↦
              ap is_active state ∙ good.active name l running_k i there (ground (arith, mine)) was
        ];
    runs = λ l j mine e runs.
        let (i, was, same, how) = changed l j e in
        elim how [
          | inl (here, state) ↦
              absurd (cc (ap is_active (sym state ∙ runs), run_ends-idle began finished result i))
          | inr (other, state) ↦
              let here : some k ≡ some l =
                is_current running_k l i there mine was (sym state ∙ runs) in
              let one : k ≡ l = cc here in absurd (cc ((eq_iff k l).1 one, other))
        ];
    distinct = (good.distinct name running_k there).1;
  }
    where
      changed :
          (l : String) (j : Job)
          → lookup l (set_job k (run_ends began finished result) sys.jobs).1 ≡ some j
          → (i : Job) × (lookup l sys.jobs ≡ some i)
            × (j.instance_id ≡ i.instance_id)
            × (((k ≡ l) × (j.state ≡ (run_ends began finished result i).state))
                ⊎ ((k == l) ≡ false) × (j.state ≡ i.state))
      changed l j e =
          changed_was k (run_ends began finished result) sys.jobs l j
            (run_ends-instance_id began finished result) e

  begin_found-IsSerial :
      (now : ℕ) (o : Option Job)
      → lookup k sys.jobs ≡ o
      → lookup name sys.threads ≡ some waiting
      → IsSerial (begin_found name k rest now o sys)
  begin_found-IsSerial now none missing there =
      turned-IsSerial sys name waiting idle sys.jobs (begin_missing there missing) good
  begin_found-IsSerial now (some job) found there =
      turned-IsSerial sys name waiting running_k (set_job k (run_begins now) sys.jobs).1
        (begin_present now there) good

  pub begin_run-IsSerial :
      (now : ℕ) → lookup name sys.threads ≡ some waiting → IsSerial (begin_run name k rest now sys)
  unfolding begin_run
  begin_run-IsSerial now there = begin_found-IsSerial now (lookup k sys.jobs) refl there

  pub end_run-IsSerial :
      (began finished : ℕ) (result : RunResult)
      → lookup name sys.threads ≡ some running_k
      → IsSerial (end_run name k rest began finished result sys)
  unfolding end_run
  end_run-IsSerial began finished result there =
      turned-IsSerial sys name running_k idle
        (set_job k (run_ends began finished result) sys.jobs).1
        (end-IsTurn began finished result there) good

-- A restart leaves no thread and no active job.
pub restarted-IsSerial :
    (now : ℕ) (sys : System)
    → IsSerial (record { jobs = (recover_interrupted_jobs now sys.jobs).1; threads = [] })
unfolding lookup
restarted-IsSerial now sys = record {
  owned = λ k j e busy. absurd (cc (recovered-idle now sys.jobs k j e, busy));
  current = λ k j e runs. absurd (cc (recovered-idle now sys.jobs k j e, ap is_active runs));
  active = λ n k t j none_there. absurd (cc none_there);
  apart = λ m n k l s t i j none_there. absurd (cc none_there);
  distinct = λ n t none_there. absurd (cc none_there);
}

pub deleted-IsSerial :
    (ids : List String) (sys : System)
    → IsSerial sys
    → IsSerial (record sys { jobs = erase_all ids sys.jobs })
deleted-IsSerial ids sys good = record {
  owned = λ k j e. good.owned k j (erase_all_was k j ids sys.jobs e);
  current = λ k j e. good.current k j (erase_all_was k j ids sys.jobs e);
  active =
      λ n k t j there mine e. good.active n k t j there mine (erase_all_was k j ids sys.jobs e);
  apart = λ m n k l s t i j es et ks lt ei ej.
      good.apart m n k l s t i j es et ks lt (erase_all_was k i ids sys.jobs ei)
        (erase_all_was l j ids sys.jobs ej);
  distinct = good.distinct;
}
