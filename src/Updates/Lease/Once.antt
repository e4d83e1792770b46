-- ===== src/Updates/Lease/Once.antt =====
-- The runs that are stored for a schedule, over all writes of the runs and of the lock.
use home_lab_hq.Base.{
  ℕ, ◌-◌, ◌<◌, String, ◌≡◌, ◌≢◌, refl, sym, ap, ◌∙◌, inl, inr, false, Option, none, some, List, [],
  ◌∷◌, arith, ◌==◌, eq_iff, ltb, length, is_some, Bool-cases,
}
use mathlib.Core.Path.{subst}
use home_lab_hq.Dict.{Dict, lookup, insert, contains}
use home_lab_hq.Dict.Laws.{lookup-insert, length-insert}
use home_lab_hq.Errors.{error, conflict}
use home_lab_hq.Updates.Lease.{
  UpdateRun, Lock, UpdateDoc, Attempt, Event, attempted, renewed, released, persisted, completed,
  failed, dropped_runs, abandon, new_run, already_ran, start_run, acquire_under, acquire, renew,
  release, persist_phase, complete, fail, apply, apply_all,
}
use home_lab_hq.Updates.Lease.Changes.{
  Traces, Traces-refl, AreKept, change_run-AreKept, abandon-AreKept, AreKept-absent, keys-length,
}
use home_lab_hq.Updates.Lease.Unique.{
  already_ran_found, already_ran_refuses, IsUnique, Traces-IsUnique, acquire-IsUnique,
}

module _ (attempt : Attempt) (trigger requested_by scheduled_for : String) where
  -- With room for one more run and an unused identity, a start drops no stored run.
  start_run-keeps :
      (runs : Dict UpdateRun) (doc : UpdateDoc)
      → length runs < attempt.max_runs
      → contains attempt.run_id runs ≡ false
      → Traces doc.runs runs
      → Traces (start_run attempt trigger requested_by scheduled_for runs doc).1.runs runs
  unfolding start_run new_run dropped_runs
  start_run-keeps runs doc room fresh onto = elim (Bool-cases (already_ran scheduled_for runs)) [
    | inl ran ↦ rw ran onto
    | inr new ↦
        let run = new_run attempt trigger requested_by scheduled_for in
        let added = insert attempt.run_id run runs in
        let none_over : length added - attempt.max_runs ≡ 0 =
          omega (arith, room, length-insert attempt.run_id run runs) in
        rw (new, none_over) (λ k r e. (r, stays run k r e, refl, refl))
  ]
    where
      stays :
          (run : UpdateRun) (k : String) (r : UpdateRun)
          → lookup k runs ≡ some r
          → lookup k (insert attempt.run_id run runs) ≡ some r
      stays run k r e = elim (Bool-cases (attempt.run_id == k)) [
        | inl here ↦
            let is : lookup attempt.run_id runs ≡ some r =
              ap (λ i. lookup i runs) ((eq_iff attempt.run_id k).0 here) ∙ e in
            absurd (cc (fresh, ap is_some is))
        | inr other ↦ lookup-insert k attempt.run_id run runs ∙ rw other e
      ]

  acquire-keeps :
      (doc : UpdateDoc)
      → length doc.runs < attempt.max_runs
      → contains attempt.run_id doc.runs ≡ false
      → Traces (acquire attempt trigger requested_by scheduled_for doc).1.runs doc.runs
  unfolding acquire acquire_under
  acquire-keeps doc room fresh = under doc.lock
    where
      under :
          (o : Option Lock)
          → Traces (acquire_under attempt trigger requested_by scheduled_for doc o).1.runs doc.runs
      under none = start_run-keeps doc.runs doc room fresh (Traces-refl doc.runs)
      under (some lock) = elim (Bool-cases (ltb attempt.now lock.expires_at)) [
        | inl live ↦ rw live (Traces-refl doc.runs)
        | inr dead ↦
            let runs = abandon attempt.iso lock.run_id doc.runs in
            let kept = abandon-AreKept attempt.iso lock.run_id doc.runs in
            rw dead (λ k r e.
              let (s, is, by, for_it) = kept.to_after k r e in
              let (t, was, by_it, for_that) =
                start_run-keeps runs doc
                  (subst (λ n. n < attempt.max_runs) (keys-length doc.runs runs (sym kept.keys))
                    room)
                  (AreKept-absent attempt.run_id doc.runs runs kept fresh) kept.from_before k s
                  is in
              (t, was, by ∙ by_it, for_it ∙ for_that))
      ]

-- Whether a write cannot drop a run: it is no start, or there is room and its identity is unused.
abbrev pub HasRoom : Event → UpdateDoc → Type 0
HasRoom (attempted attempt trigger requested_by scheduled_for) doc =
    (length doc.runs < attempt.max_runs) × (contains attempt.run_id doc.runs ≡ false)
HasRoom (renewed lease run_id token now) doc = Unit
HasRoom (released run_id token) doc = Unit
HasRoom (persisted run_id status) doc = Unit
HasRoom (completed run_id status iso) doc = Unit
HasRoom (failed run_id iso message) doc = Unit

renew-runs :
    (lease : ℕ) (run_id token : String) (now : ℕ) (doc : UpdateDoc)
    → (renew lease run_id token now doc).runs ≡ doc.runs
unfolding renew
renew-runs lease run_id token now doc = ground arith

release-runs :
    (run_id token : String) (doc : UpdateDoc) → (release run_id token doc).runs ≡ doc.runs
unfolding release
release-runs run_id token doc = ground arith

module _ (doc : UpdateDoc) where
  apply-IsUnique : (event : Event) → IsUnique doc.runs → IsUnique (apply event doc).runs
  unfolding apply persist_phase complete fail
  apply-IsUnique (attempted attempt trigger requested_by scheduled_for) only =
      acquire-IsUnique attempt trigger requested_by scheduled_for doc only
  apply-IsUnique (renewed lease run_id token now) only =
      subst IsUnique (sym (renew-runs lease run_id token now doc)) only
  apply-IsUnique (released run_id token) only =
      subst IsUnique (sym (release-runs run_id token doc)) only
  apply-IsUnique (persisted run_id status) only =
      Traces-IsUnique doc.runs _
        (AreKept.from_before (change_run-AreKept _ run_id doc.runs (λ r. (refl, refl)))) only
  apply-IsUnique (completed run_id status iso) only =
      Traces-IsUnique doc.runs _
        (AreKept.from_before (change_run-AreKept _ run_id doc.runs (λ r. (refl, refl)))) only
  apply-IsUnique (failed run_id iso message) only =
      Traces-IsUnique doc.runs _
        (AreKept.from_before (change_run-AreKept _ run_id doc.runs (λ r. (refl, refl)))) only

  apply-keeps : (event : Event) → HasRoom event doc → Traces (apply event doc).runs doc.runs
  unfolding apply persist_phase complete fail
  apply-keeps (attempted attempt trigger requested_by scheduled_for) room =
      acquire-keeps attempt trigger requested_by scheduled_for doc room.0 room.1
  apply-keeps (renewed lease run_id token now) room =
      subst (λ runs. Traces runs doc.runs) (sym (renew-runs lease run_id token now doc))
        (Traces-refl doc.runs)
  apply-keeps (released run_id token) room =
      subst (λ runs. Traces runs doc.runs) (sym (release-runs run_id token doc))
        (Traces-refl doc.runs)
  apply-keeps (persisted run_id status) room =
      AreKept.to_after (change_run-AreKept _ run_id doc.runs (λ r. (refl, refl)))
  apply-keeps (completed run_id status iso) room =
      AreKept.to_after (change_run-AreKept _ run_id doc.runs (λ r. (refl, refl)))
  apply-keeps (failed run_id iso message) room =
      AreKept.to_after (change_run-AreKept _ run_id doc.runs (λ r. (refl, refl)))

apply_all-IsUnique :
    (events : List Event) (doc : UpdateDoc)
    → IsUnique doc.runs
    → IsUnique (apply_all events doc).runs
unfolding apply_all
apply_all-IsUnique [] doc only = only
apply_all-IsUnique (event ∷ events) doc only =
    apply_all-IsUnique events (apply event doc) (apply-IsUnique doc event only)

-- After any writes of a document that had no runs: no two stored runs were scheduled for the same
-- time; every attempt for a schedule whose scheduled run is stored raises, whatever became of that
-- run and of the lock; and a write keeps every stored run, with its trigger and its schedule,
-- unless it starts a run where MAX_RUNS or more are stored, or under the identity of a stored one.
pub acquire_once :
    (events : List Event) (start : UpdateDoc)
    → start.runs ≡ []
    → let doc = apply_all events start in
      IsUnique doc.runs
      × ((k : String) (run : UpdateRun) (later : Attempt) (trigger requested_by : String)
          → lookup k doc.runs ≡ some run
          → run.trigger ≡ "scheduled"
          → run.scheduled_for ≢ ""
          → (acquire later trigger requested_by run.scheduled_for doc).0 ≡ error conflict)
      × ((event : Event) → HasRoom event doc → Traces (apply event doc).runs doc.runs)
unfolding acquire lookup
acquire_once events start empty =
    let doc = apply_all events start in
    (
      apply_all-IsUnique events start (subst IsUnique (sym empty) (λ k j r s e. absurd (cc e))),
      (λ k run later trigger requested_by stored by named.
          already_ran_refuses later trigger requested_by run.scheduled_for doc doc.lock
            (already_ran_found k run.scheduled_for run doc.runs named stored by refl)),
      apply-keeps doc,
    )
