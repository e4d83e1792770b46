-- ===== src/Updates/Lease.antt =====
-- `_acquire`, `_renew_lock` and `_release` of backend/morning_updates.py, and the writes by which
-- `_persist_phase` and `_execute` change the state of a run, on the runs and the lock of the
-- document. Of a run its identity, its trigger and its state are kept; the copied configuration
-- and the counters of its report are left out.
pub mod Exclusion
pub mod Changes
pub mod Unique
pub mod Once
pub mod Holding
use home_lab_hq.Base.{
  ℕ, ◌+◌, ◌-◌, String, Bool, true, false, Option, none, some, List, [], ◌∷◌, ◌==◌, ◌&&◌, ◌||◌, not,
  any, keep, map, length, ltb, if◌then◌else◌, or_default,
}
use home_lab_hq.Dict.{Dict, lookup, insert, values}
use home_lab_hq.Errors.{Outcome, ok, error, conflict}
use home_lab_hq.Prune.{text_lt, take, erase_all}

pub record UpdateRun : Type 0 where
  pub id : String
  pub trigger : String
  pub requested_by : String
  pub scheduled_for : String
  pub started_at : String
  pub completed_at : String
  pub status : String
  pub fatal_error : String

pub record Lock : Type 0 where
  pub run_id : String
  pub token : String
  pub expires_at : ℕ

-- `morningUpdateRuns`, and `morningUpdateLock` of `meta`.
pub record UpdateDoc : Type 0 where
  pub runs : Dict UpdateRun
  pub lock : Option Lock

-- The settings LOCK_LEASE_SECONDS and MAX_RUNS, and what the clock and `secrets` give.
pub record Attempt : Type 0 where
  pub lease : ℕ
  pub max_runs : ℕ
  pub run_id : String
  pub token : String
  pub now : ℕ
  pub iso : String

unfoldable pub is_terminal : UpdateRun → Bool
is_terminal run = run.status == "successful" || run.status == "partial" || run.status == "failed"

-- `item.get("completedAt") or item.get("startedAt") or ""`
unfoldable pub ended_at : UpdateRun → String
ended_at run = if run.completed_at == "" then run.started_at else run.completed_at

-- The order of the sort key of the finished runs.
unfoldable pub ends_before : UpdateRun → UpdateRun → Bool
unfolding ended_at text_lt
ends_before a b =
    text_lt (ended_at a) (ended_at b) || (ended_at a == ended_at b && text_lt a.id b.id)

unfoldable pub insert_run : UpdateRun → List UpdateRun → List UpdateRun
unfolding ends_before
insert_run x [] = x ∷ []
insert_run x (y ∷ ys) =
    let rest = insert_run x ys in if ends_before x y then x ∷ y ∷ ys else y ∷ rest

unfoldable pub sort_runs : List UpdateRun → List UpdateRun
unfolding insert_run
sort_runs [] = []
sort_runs (x ∷ xs) = insert_run x (sort_runs xs)

-- The finished runs that the bound on the runs drops, oldest first.
unfoldable pub dropped_runs : ℕ → Dict UpdateRun → List String
unfolding is_terminal sort_runs
dropped_runs max_runs runs =
    map UpdateRun.id (take (length runs - max_runs) (sort_runs (keep is_terminal (values runs))))

-- A run whose process stopped is marked as failed.
unfoldable pub abandon : String → String → Dict UpdateRun → Dict UpdateRun
abandon iso run_id runs = if run_id == "" then runs else elim (lookup run_id runs) [
  | none ↦ runs
  | some run ↦
      if run.status == "running"
      then insert run_id
          (record run {
            status = "failed";
            completed_at = iso;
            fatal_error = "The previous process stopped before the run completed";
          })
          runs
      else runs
]

unfoldable pub new_run : Attempt → String → String → String → UpdateRun
new_run attempt trigger requested_by scheduled_for = record {
  id = attempt.run_id;
  trigger = trigger;
  requested_by = requested_by;
  scheduled_for = scheduled_for;
  started_at = attempt.iso;
  completed_at = "";
  status = "running";
  fatal_error = "";
}

-- `scheduled_for and any(…)`; no schedule is the empty text.
unfoldable pub already_ran : String → Dict UpdateRun → Bool
already_ran scheduled_for runs =
    not (scheduled_for == "")
    && any (λ r. UpdateRun.trigger r == "scheduled" && UpdateRun.scheduled_for r == scheduled_for)
        (values runs)

-- The rest of `_acquire`, on the runs of a document whose lock is free.
unfoldable pub start_run :
    Attempt → String → String → String → Dict UpdateRun → UpdateDoc → Outcome UpdateRun × UpdateDoc
unfolding already_ran new_run dropped_runs
start_run attempt trigger requested_by scheduled_for runs doc =
    let run = new_run attempt trigger requested_by scheduled_for in
    let added = insert attempt.run_id run runs in
    if already_ran scheduled_for runs then (error conflict, doc) else (
      ok run,
      record {
        runs = erase_all (dropped_runs attempt.max_runs added) added;
        lock = some (record {
          run_id = attempt.run_id;
          token = attempt.token;
          expires_at = attempt.now + attempt.lease;
        });
      },
    )

-- The mutator of `_acquire`, under the lock of the document.
unfoldable pub acquire_under :
    Attempt → String → String → String → UpdateDoc → Option Lock → Outcome UpdateRun × UpdateDoc
unfolding abandon start_run
acquire_under attempt trigger requested_by scheduled_for doc none =
    start_run attempt trigger requested_by scheduled_for doc.runs doc
acquire_under attempt trigger requested_by scheduled_for doc (some lock) =
    if ltb attempt.now lock.expires_at
    then (error conflict, doc)
    else start_run attempt trigger requested_by scheduled_for
        (abandon attempt.iso lock.run_id doc.runs) doc

unfoldable pub acquire :
    Attempt → String → String → String → UpdateDoc → Outcome UpdateRun × UpdateDoc
unfolding acquire_under
acquire attempt trigger requested_by scheduled_for doc =
    acquire_under attempt trigger requested_by scheduled_for doc doc.lock

-- Whether the lock is that of the run with the token.
unfoldable pub is_held_by : String → String → Option Lock → Bool
is_held_by run_id token none = false
is_held_by run_id token (some lock) = lock.run_id == run_id && lock.token == token

unfoldable pub renew : ℕ → String → String → ℕ → UpdateDoc → UpdateDoc
unfolding is_held_by
renew lease run_id token now doc =
    if is_held_by run_id token doc.lock
    then record doc {
      lock = some (record { run_id = run_id; token = token; expires_at = now + lease });
    }
    else doc

unfoldable pub release : String → String → UpdateDoc → UpdateDoc
unfolding is_held_by
release run_id token doc =
    if is_held_by run_id token doc.lock then record doc { lock = none } else doc

-- Changing the run with an identity, where it is stored.
abbrev pub change_found :
    (UpdateRun → UpdateRun) → String → Dict UpdateRun → Option UpdateRun → Dict UpdateRun
change_found f run_id runs none = runs
change_found f run_id runs (some run) = insert run_id (f run) runs

unfoldable pub change_run : (UpdateRun → UpdateRun) → String → Dict UpdateRun → Dict UpdateRun
change_run f run_id runs = change_found f run_id runs (lookup run_id runs)

-- The write of `_persist_phase`; `status` is the one that `aggregate` gives for the results so far.
unfoldable pub persist_phase : String → String → UpdateDoc → UpdateDoc
unfolding change_run
persist_phase run_id status doc = record doc {
  runs = change_run (λ run. record run { status = status }) run_id doc.runs;
}

-- `complete` of `_execute`, again with the status that `aggregate` gives.
unfoldable pub complete : String → String → String → UpdateDoc → UpdateDoc
unfolding change_run
complete run_id status iso doc = record doc {
  runs = change_run (λ run. record run { status = status; completed_at = iso }) run_id doc.runs;
}

-- `fail` of `_execute`.
unfoldable pub fail : String → String → String → UpdateDoc → UpdateDoc
unfolding change_run
fail run_id iso message doc = record doc {
  runs =
      change_run
        (λ run. record run { status = "failed"; completed_at = iso; fatal_error = message }) run_id
        doc.runs;
}

-- One write of the runs or of their lock, by any thread.
pub data Event : Type 0 where
  attempted : (attempt : Attempt) (trigger requested_by scheduled_for : String) → Event
  renewed : (lease : ℕ) (run_id token : String) (now : ℕ) → Event
  released : (run_id token : String) → Event
  persisted : (run_id status : String) → Event
  completed : (run_id status iso : String) → Event
  failed : (run_id iso message : String) → Event

unfoldable pub apply : Event → UpdateDoc → UpdateDoc
unfolding acquire renew release persist_phase complete fail
apply (attempted attempt trigger requested_by scheduled_for) doc =
    (acquire attempt trigger requested_by scheduled_for doc).1
apply (renewed lease run_id token now) doc = renew lease run_id token now doc
apply (released run_id token) doc = release run_id token doc
apply (persisted run_id status) doc = persist_phase run_id status doc
apply (completed run_id status iso) doc = complete run_id status iso doc
apply (failed run_id iso message) doc = fail run_id iso message doc

unfoldable pub apply_all : List Event → UpdateDoc → UpdateDoc
unfolding apply
apply_all [] doc = doc
apply_all (event ∷ events) doc = apply_all events (apply event doc)
