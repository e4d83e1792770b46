-- ===== src/Updates/Lease/Changes.antt =====
-- What the writes that follow a start leave of the stored runs.
use home_lab_hq.Base.{
  String, ◌≡◌, refl, sym, ap, ◌∙◌, inl, inr, false, Option, none, some, [], ◌∷◌, arith, ◌==◌,
  eq_iff, length, is_some, Bool-cases, Option-cases,
}
use home_lab_hq.Dict.{Dict, lookup, insert, keys, contains}
use home_lab_hq.Dict.Laws.{lookup-insert}
use home_lab_hq.Updates.Lease.{UpdateRun, change_found, change_run, abandon}

-- Every run of `after` was in `before`, with its trigger and its schedule.
abbrev pub Traces : Dict UpdateRun → Dict UpdateRun → Type 0
Traces before after =
    (k : String) (r : UpdateRun)
    → lookup k after ≡ some r
    → (old : UpdateRun) × (lookup k before ≡ some old)
      × (r.trigger ≡ old.trigger)
      × (r.scheduled_for ≡ old.scheduled_for)

pub Traces-refl : (runs : Dict UpdateRun) → Traces runs runs
Traces-refl runs k r e = (r, e, refl, refl)

-- Replacing a run by one with its trigger and its schedule.
insert-Traces :
    (run_id : String) (run new : UpdateRun) (runs : Dict UpdateRun)
    → lookup run_id runs ≡ some run
    → new.trigger ≡ run.trigger
    → new.scheduled_for ≡ run.scheduled_for
    → Traces runs (insert run_id new runs)
insert-Traces run_id run new runs found by for_it k r e = elim (Bool-cases (run_id == k)) [
  | inl here ↦
      let is : some new ≡ some r = sym (lookup-insert k run_id new runs ∙ rw here refl) ∙ e in
      let same : new ≡ r = cc is in
      (run, rw (← (eq_iff run_id k).0 here) found, rw (← same) by, rw (← same) for_it)
  | inr other ↦ (r, sym (lookup-insert k run_id new runs ∙ rw other refl) ∙ e, refl, refl)
]

-- The reverse: a stored run stays, with its trigger and its schedule.
insert-Traces_back :
    (run_id : String) (run new : UpdateRun) (runs : Dict UpdateRun)
    → lookup run_id runs ≡ some run
    → new.trigger ≡ run.trigger
    → new.scheduled_for ≡ run.scheduled_for
    → Traces (insert run_id new runs) runs
insert-Traces_back run_id run new runs found by for_it k r e = elim (Bool-cases (run_id == k)) [
  | inl here ↦
      let is : some run ≡ some r =
        sym found ∙ ap (λ i. lookup i runs) ((eq_iff run_id k).0 here) ∙ e in
      let same : run ≡ r = cc is in
      (
        new,
        lookup-insert k run_id new runs ∙ rw here refl,
        rw (← same) (sym by),
        rw (← same) (sym for_it),
      )
  | inr other ↦ (r, lookup-insert k run_id new runs ∙ rw other e, refl, refl)
]

keys-insert_found :
    {V : Type 0} (k : String) (v w : V) (d : Dict V)
    → lookup k d ≡ some w
    → keys (insert k v d) ≡ keys d
unfolding insert lookup
keys-insert_found k v w [] e = absurd (cc e)
keys-insert_found k v w ((j, x) ∷ d) e = ground (arith, eq_iff j k, keys-insert_found k v w d)

-- The runs are the same ones, with their triggers and their schedules.
pub record AreKept (before after : Dict UpdateRun) : Type 0 where
  pub keys : keys after ≡ keys before
  pub from_before : Traces before after
  pub to_after : Traces after before

pub AreKept-refl : (runs : Dict UpdateRun) → AreKept runs runs
AreKept-refl runs = record {
  keys = refl;
  from_before = Traces-refl runs;
  to_after = Traces-refl runs;
}

pub insert-AreKept :
    (run_id : String) (run new : UpdateRun) (runs : Dict UpdateRun)
    → lookup run_id runs ≡ some run
    → new.trigger ≡ run.trigger
    → new.scheduled_for ≡ run.scheduled_for
    → AreKept runs (insert run_id new runs)
insert-AreKept run_id run new runs found by for_it = record {
  keys = keys-insert_found run_id new run runs found;
  from_before = insert-Traces run_id run new runs found by for_it;
  to_after = insert-Traces_back run_id run new runs found by for_it;
}

pub change_run-AreKept :
    (f : UpdateRun → UpdateRun) (run_id : String) (runs : Dict UpdateRun)
    → ((r : UpdateRun) → ((f r).trigger ≡ r.trigger) × ((f r).scheduled_for ≡ r.scheduled_for))
    → AreKept runs (change_run f run_id runs)
unfolding change_run
change_run-AreKept f run_id runs same = go (lookup run_id runs) refl
  where
    go :
        (o : Option UpdateRun)
        → lookup run_id runs ≡ o
        → AreKept runs (change_found f run_id runs o)
    go none e = AreKept-refl runs
    go (some run) e = insert-AreKept run_id run (f run) runs e (same run).0 (same run).1

pub abandon-AreKept :
    (iso run_id : String) (runs : Dict UpdateRun) → AreKept runs (abandon iso run_id runs)
unfolding abandon
abandon-AreKept iso run_id runs = elim (Bool-cases (run_id == "")) [
  | inl blank ↦ rw blank (AreKept-refl runs)
  | inr named ↦ elim (Option-cases (lookup run_id runs)) [
    | inl missing ↦ rw (named, missing) (AreKept-refl runs)
    | inr (run, found) ↦ elim (Bool-cases (run.status == "running")) [
      | inl running ↦
          rw (named, found) (rw running (insert-AreKept run_id run _ runs found refl refl))
      | inr ended ↦ rw (named, found) (rw ended (AreKept-refl runs))
    ]
  ]
]

pub AreKept-trans : {a b c : Dict UpdateRun} → AreKept a b → AreKept b c → AreKept a c
AreKept-trans first second = record {
  keys = second.keys ∙ first.keys;
  from_before = λ k r e.
      let (s, is, by, for_it) = second.from_before k r e in
      let (t, was, by_it, for_that) = first.from_before k s is in
      (t, was, by ∙ by_it, for_it ∙ for_that);
  to_after = λ k r e.
      let (s, is, by, for_it) = first.to_after k r e in
      let (t, was, by_it, for_that) = second.to_after k s is in
      (t, was, by ∙ by_it, for_it ∙ for_that);
}

pub keys-length : {V : Type 0} (d e : Dict V) → keys d ≡ keys e → length d ≡ length e
keys-length d e same = sym (length-keys d) ∙ ap length same ∙ length-keys e
  where
    length-keys : {V : Type 0} (d : Dict V) → length (keys d) ≡ length d
    length-keys [] = refl
    length-keys (x ∷ d) = ground (arith, length-keys d)

pub AreKept-absent :
    (k : String) (before after : Dict UpdateRun)
    → AreKept before after
    → contains k before ≡ false
    → contains k after ≡ false
AreKept-absent k before after kept absent = elim (Option-cases (lookup k after)) [
  | inl missing ↦ ap is_some missing
  | inr (r, e) ↦
      let (old, was, by, for_it) = kept.from_before k r e in absurd (cc (absent, ap is_some was))
]
