-- ===== src/Updates/Lease/Unique.antt =====
-- That no two stored runs are for one schedule, over an attempt to start a run.
use home_lab_hq.Base.{
  String, ◌≡◌, ◌≢◌, refl, sym, ap, ◌∙◌, inl, inr, Bool, true, false, Option, none, some, arith,
  ◌==◌, eq_iff, eq_refl, ◌&&◌, not, ltb, Bool-cases,
}
use home_lab_hq.Dict.{Dict, lookup, insert}
use home_lab_hq.Dict.Laws.{lookup-insert}
use home_lab_hq.Errors.{error, conflict}
use home_lab_hq.Prune.{erase_all}
use home_lab_hq.Prune.Newest.{erase_all_was}
use home_lab_hq.Updates.Lease.{
  UpdateRun, Lock, UpdateDoc, Attempt, dropped_runs, abandon, new_run, already_ran, start_run,
  acquire_under, acquire,
}
use home_lab_hq.Updates.Lease.Exclusion.{any-abandon, any-values_found}
use home_lab_hq.Updates.Lease.Changes.{Traces, abandon-AreKept}

pub already_ran_found :
    (k schedule : String) (run : UpdateRun) (runs : Dict UpdateRun)
    → schedule ≢ ""
    → lookup k runs ≡ some run
    → run.trigger ≡ "scheduled"
    → run.scheduled_for ≡ schedule
    → already_ran schedule runs ≡ true
unfolding already_ran
already_ran_found k schedule run runs named found by for_it =
    let p : UpdateRun → Bool =
      λ r. UpdateRun.trigger r == "scheduled" && UpdateRun.scheduled_for r == schedule in
    let hit : p run ≡ true = rw (by, for_it) (eq_refl schedule) in
    let any_hit = any-values_found p k run runs found hit in
    ground (arith, any_hit, eq_iff schedule "")

pub already_ran_refuses :
    (later : Attempt) (trigger requested_by schedule : String) (doc : UpdateDoc)
    (lock : Option Lock)
    → already_ran schedule doc.runs ≡ true
    → (acquire_under later trigger requested_by schedule doc lock).0 ≡ error conflict
unfolding acquire_under start_run
already_ran_refuses later trigger requested_by schedule doc none ran = rw ran refl
already_ran_refuses later trigger requested_by schedule doc (some lock) ran =
    elim (Bool-cases (ltb later.now lock.expires_at)) [
      | inl live ↦ rw live refl
      | inr dead ↦
          let kept : already_ran schedule (abandon later.iso lock.run_id doc.runs) ≡ true =
            unfold already_ran in
            ap (λ b. not (schedule == "") && b)
              (any-abandon
                (λ r. UpdateRun.trigger r == "scheduled" && UpdateRun.scheduled_for r == schedule)
                later.iso lock.run_id doc.runs (λ r a b c. refl))
            ∙ ran in
          rw dead (rw kept refl)
    ]

-- No two stored runs were scheduled for the same time.
abbrev pub IsUnique : Dict UpdateRun → Type 0
IsUnique runs =
    (k j : String) (r s : UpdateRun)
    → lookup k runs ≡ some r
    → lookup j runs ≡ some s
    → r.trigger ≡ "scheduled"
    → s.trigger ≡ "scheduled"
    → r.scheduled_for ≡ s.scheduled_for
    → r.scheduled_for ≢ ""
    → k ≡ j

pub Traces-IsUnique :
    (before after : Dict UpdateRun) → Traces before after → IsUnique before → IsUnique after
Traces-IsUnique before after from_before only k j r s at_k at_j r_by s_by same named =
    let (old_r, was_r, by_r, for_r) = from_before k r at_k in
    let (old_s, was_s, by_s, for_s) = from_before j s at_j in
    only k j old_r old_s was_r was_s (sym by_r ∙ r_by) (sym by_s ∙ s_by) (sym for_r ∙ same ∙ for_s)
      (λ blank. named (for_r ∙ blank))

-- Adding a run for a schedule that no stored run was for.
insert-IsUnique :
    (run_id : String) (run : UpdateRun) (runs : Dict UpdateRun)
    → already_ran run.scheduled_for runs ≡ false
    → IsUnique runs
    → IsUnique (insert run_id run runs)
insert-IsUnique run_id run runs new only k j r s at_k at_j r_by s_by same named =
    elim (Bool-cases (run_id == k)) [
      | inl here ↦ elim (Bool-cases (run_id == j)) [
        | inl there ↦ sym ((eq_iff run_id k).0 here) ∙ (eq_iff run_id j).0 there
        | inr other ↦
            let is : r ≡ run = at_own k r here at_k in
            absurd (
              not_stored j s other at_j s_by (sym same ∙ ap UpdateRun.scheduled_for is)
                (λ blank. named (ap UpdateRun.scheduled_for is ∙ blank)))
      ]
      | inr elsewhere ↦ elim (Bool-cases (run_id == j)) [
        | inl there ↦
            let is : s ≡ run = at_own j s there at_j in
            absurd (
              not_stored k r elsewhere at_k r_by (same ∙ ap UpdateRun.scheduled_for is)
                (λ blank. named (same ∙ ap UpdateRun.scheduled_for is ∙ blank)))
        | inr other ↦
            only k j r s (stored k r elsewhere at_k) (stored j s other at_j) r_by s_by same named
      ]
    ]
  where
    at_own :
        (i : String) (x : UpdateRun)
        → (run_id == i) ≡ true
        → lookup i (insert run_id run runs) ≡ some x
        → x ≡ run
    at_own i x here e =
        let is : some run ≡ some x = sym (lookup-insert i run_id run runs ∙ rw here refl) ∙ e in
        cc is

    stored :
        (i : String) (x : UpdateRun)
        → (run_id == i) ≡ false
        → lookup i (insert run_id run runs) ≡ some x
        → lookup i runs ≡ some x
    stored i x other e = sym (lookup-insert i run_id run runs ∙ rw other refl) ∙ e

    not_stored :
        (i : String) (x : UpdateRun)
        → (run_id == i) ≡ false
        → lookup i (insert run_id run runs) ≡ some x
        → x.trigger ≡ "scheduled"
        → x.scheduled_for ≡ run.scheduled_for
        → run.scheduled_for ≢ ""
        → ⊥
    not_stored i x other e by for_it named =
        let is : lookup i runs ≡ some x =
          sym (lookup-insert i run_id run runs ∙ rw other refl) ∙ e in
        cc (already_ran_found i run.scheduled_for x runs named is by for_it, new)

module _ (attempt : Attempt) (trigger requested_by scheduled_for : String) where
  start_run-IsUnique :
      (runs : Dict UpdateRun) (doc : UpdateDoc)
      → IsUnique runs
      → IsUnique doc.runs
      → IsUnique (start_run attempt trigger requested_by scheduled_for runs doc).1.runs
  unfolding start_run new_run
  start_run-IsUnique runs doc only was_only = elim (Bool-cases (already_ran scheduled_for runs)) [
    | inl ran ↦ rw ran was_only
    | inr new ↦
        let run = new_run attempt trigger requested_by scheduled_for in
        let added = insert attempt.run_id run runs in
        let dropped = dropped_runs attempt.max_runs added in
        rw new (
          Traces-IsUnique added (erase_all dropped added)
            (λ k r e. (r, erase_all_was k r dropped added e, refl, refl))
            (insert-IsUnique attempt.run_id run runs new only))
  ]

  pub acquire-IsUnique :
      (doc : UpdateDoc)
      → IsUnique doc.runs
      → IsUnique (acquire attempt trigger requested_by scheduled_for doc).1.runs
  unfolding acquire acquire_under
  acquire-IsUnique doc only = under doc.lock
    where
      under :
          (o : Option Lock)
          → IsUnique (acquire_under attempt trigger requested_by scheduled_for doc o).1.runs
      under none = start_run-IsUnique doc.runs doc only only
      under (some lock) = elim (Bool-cases (ltb attempt.now lock.expires_at)) [
        | inl live ↦ rw live only
        | inr dead ↦
            let kept = abandon-AreKept attempt.iso lock.run_id doc.runs in
            rw dead (
              start_run-IsUnique (abandon attempt.iso lock.run_id doc.runs) doc
                (Traces-IsUnique doc.runs (abandon attempt.iso lock.run_id doc.runs)
                  kept.from_before only)
                only)
      ]
