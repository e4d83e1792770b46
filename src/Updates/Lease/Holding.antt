-- ===== src/Updates/Lease/Holding.antt =====
-- What a lock promises to the run that holds it, while other threads go on writing.
use home_lab_hq.Base.{
  ℕ, ◌+◌, ◌<◌, String, ◌≡◌, refl, sym, ap, ◌∙◌, inl, inr, true, false, some, List, [], ◌∷◌, arith,
  ◌==◌, eq_iff, ◌&&◌, ltb, Bool-cases, All, if◌then◌else◌, ◌++◌,
}
use mathlib.Core.Path.{subst}
use home_lab_hq.Dict.{lookup}
use home_lab_hq.Errors.{Outcome, ok, error, conflict}
use home_lab_hq.Updates.Lease.{
  UpdateRun, Lock, UpdateDoc, Attempt, Event, attempted, renewed, released, persisted, completed,
  failed, new_run, acquire_under, acquire, is_held_by, renew, release, persist_phase, complete,
  fail, apply, apply_all,
}
use home_lab_hq.Updates.Lease.Exclusion.{is_used, acquire_lem}
use home_lab_hq.Updates.Lease.Changes.{AreKept, AreKept-refl, AreKept-trans, change_run-AreKept}

abbrev pub lock_of : String → String → ℕ → Lock
lock_of run_id token until = record { run_id = run_id; token = token; expires_at = until }

module _ (run_id token : String) where
  -- The end of the lease of the run with the token, after a write: only its own renewal moves it.
  abbrev pub extended : ℕ → Event → ℕ
  extended until (renewed lease other other_token now) =
      if run_id == other && token == other_token then now + lease else until
  extended until (attempted attempt trigger requested_by scheduled_for) = until
  extended until (released other other_token) = until
  extended until (persisted other status) = until
  extended until (completed other status iso) = until
  extended until (failed other iso message) = until

  abbrev pub lease_end : ℕ → List Event → ℕ
  lease_end until [] = until
  lease_end until (event ∷ events) = lease_end (extended until event) events

  -- The write is not the run's own release, nor an attempt at or after the end of its lease.
  abbrev pub IsDuring : ℕ → Event → Type 0
  IsDuring until (attempted attempt trigger requested_by scheduled_for) = attempt.now < until
  IsDuring until (released other other_token) = (run_id == other && token == other_token) ≡ false
  IsDuring until (renewed lease other other_token now) = Unit
  IsDuring until (persisted other status) = Unit
  IsDuring until (completed other status iso) = Unit
  IsDuring until (failed other iso message) = Unit

  abbrev pub AreDuring : ℕ → List Event → Type 0
  AreDuring until [] = Unit
  AreDuring until (event ∷ events) = IsDuring until event × AreDuring (extended until event) events

-- What the attempts of some writes answer.
abbrev answer : Event → UpdateDoc → List (Outcome UpdateRun)
answer (attempted attempt trigger requested_by scheduled_for) doc =
    (acquire attempt trigger requested_by scheduled_for doc).0 ∷ []
answer (renewed lease other other_token now) doc = []
answer (released other other_token) doc = []
answer (persisted other status) doc = []
answer (completed other status iso) doc = []
answer (failed other iso message) doc = []

abbrev pub answers : List Event → UpdateDoc → List (Outcome UpdateRun)
answers [] doc = []
answers (event ∷ events) doc = answer event doc ++ answers events (apply event doc)

-- A document in which the run with the token holds the lock until a time, and whose runs are those
-- of `before`.
pub record IsHeld (run_id token : String) (until : ℕ) (before doc : UpdateDoc) : Type 0 where
  pub lock : doc.lock ≡ some (lock_of run_id token until)
  pub runs : AreKept before.runs doc.runs

module _ (run_id token : String) (until : ℕ) (before doc : UpdateDoc) where
  attempt_fails :
      (attempt : Attempt) (trigger requested_by scheduled_for : String)
      → attempt.now < until
      → doc.lock ≡ some (lock_of run_id token until)
      → acquire attempt trigger requested_by scheduled_for doc ≡ (error conflict, doc)
  unfolding acquire acquire_under
  attempt_fails attempt trigger requested_by scheduled_for soon held =
      let live : ltb attempt.now until ≡ true = ground (arith, soon) in
      subst
        (λ o.
          acquire_under attempt trigger requested_by scheduled_for doc o ≡ (error conflict, doc))
        (sym held) (rw live refl)

  apply-IsHeld :
      (event : Event)
      → IsDuring run_id token until event
      → IsHeld run_id token until before doc
      → IsHeld run_id token (extended run_id token until event) before (apply event doc)
  unfolding apply persist_phase complete fail renew release is_held_by
  apply-IsHeld (attempted attempt trigger requested_by scheduled_for) soon held =
      subst (IsHeld run_id token until before)
        (sym
          (ap (λ r. r.1) (attempt_fails attempt trigger requested_by scheduled_for soon held.lock)))
        held
  apply-IsHeld (renewed lease other other_token now) soon held =
      elim (Bool-cases (run_id == other && token == other_token)) [
        | inl own ↦
            let same : other ≡ run_id = ground (arith, own, eq_iff run_id other) in
            let same_token : other_token ≡ token = ground (arith, own, eq_iff token other_token) in
            rw held.lock (rw own (record { lock = rw (same, same_token) refl; runs = held.runs }))
        | inr foreign ↦ rw held.lock (rw foreign (record { lock = refl; runs = held.runs }))
      ]
  apply-IsHeld (released other other_token) foreign held =
      rw held.lock (rw foreign (record { lock = refl; runs = held.runs }))
  apply-IsHeld (persisted other status) soon held = record {
    lock = held.lock;
    runs = AreKept-trans held.runs (change_run-AreKept _ other doc.runs (λ r. (refl, refl)));
  }
  apply-IsHeld (completed other status iso) soon held = record {
    lock = held.lock;
    runs = AreKept-trans held.runs (change_run-AreKept _ other doc.runs (λ r. (refl, refl)));
  }
  apply-IsHeld (failed other iso message) soon held = record {
    lock = held.lock;
    runs = AreKept-trans held.runs (change_run-AreKept _ other doc.runs (λ r. (refl, refl)));
  }

answers_refused :
    (run_id token : String) (until : ℕ) (before doc : UpdateDoc) (event : Event)
    (rest : List (Outcome UpdateRun))
    → IsDuring run_id token until event
    → IsHeld run_id token until before doc
    → All (λ r. r ≡ error conflict) rest
    → All (λ r. r ≡ error conflict) (answer event doc ++ rest)
answers_refused run_id token until before doc (attempted attempt trigger requested_by scheduled_for)
      rest soon held later =
    (
      ap (λ r. r.0)
          (attempt_fails run_id token until before doc attempt trigger requested_by scheduled_for
            soon held.lock),
      later,
    )
answers_refused run_id token until before doc (renewed lease other other_token now) rest soon held
      later =
    later
answers_refused run_id token until before doc (released other other_token) rest soon held later =
    later
answers_refused run_id token until before doc (persisted other status) rest soon held later = later
answers_refused run_id token until before doc (completed other status iso) rest soon held later =
    later
answers_refused run_id token until before doc (failed other iso message) rest soon held later =
    later

apply_all-IsHeld :
    (run_id token : String) (until : ℕ) (before doc : UpdateDoc) (events : List Event)
    → AreDuring run_id token until events
    → IsHeld run_id token until before doc
    → IsHeld run_id token (lease_end run_id token until events) before (apply_all events doc)
      × All (λ r. r ≡ error conflict) (answers events doc)
unfolding apply_all
apply_all-IsHeld run_id token until before doc [] during held = (held, tt)
apply_all-IsHeld run_id token until before doc (event ∷ events) during held =
    let next = apply-IsHeld run_id token until before doc event during.0 held in
    let rest =
      apply_all-IsHeld run_id token (extended run_id token until event) before (apply event doc)
        events during.1 next in
    (
      rest.0,
      answers_refused run_id token until before doc event (answers events (apply event doc))
          during.0 held rest.1,
    )

-- After an attempt with an unused run id has started its run, and after any further writes in
-- which the run does not release its lock and no attempt comes at or after the end of its lease,
-- which is reckoned from the start and from the run's own renewals only: the lock is that run's, up
-- to that end; every attempt in between has raised; and the stored runs are those of the start,
-- with their triggers and schedules, its own run among them.
pub held_lem :
    (attempt : Attempt) (trigger requested_by scheduled_for : String) (doc : UpdateDoc)
    (run : UpdateRun) (events : List Event)
    → is_used attempt.run_id doc.runs ≡ false
    → (acquire attempt trigger requested_by scheduled_for doc).0 ≡ ok run
    → AreDuring attempt.run_id attempt.token (attempt.now + attempt.lease) events
    → let after = (acquire attempt trigger requested_by scheduled_for doc).1 in
      let until = lease_end attempt.run_id attempt.token (attempt.now + attempt.lease) events in
      IsHeld attempt.run_id attempt.token until after (apply_all events after)
      × All (λ r. r ≡ error conflict) (answers events after)
      × ((stored : UpdateRun) × (lookup attempt.run_id (apply_all events after).runs ≡ some stored)
          × (stored.trigger ≡ trigger)
          × (stored.scheduled_for ≡ scheduled_for))
held_lem attempt trigger requested_by scheduled_for doc run events fresh started during =
    let after = (acquire attempt trigger requested_by scheduled_for doc).1 in
    let (locked, stored, same) =
      (acquire_lem attempt trigger requested_by scheduled_for doc fresh).2 run started in
    let (held, raised) =
      apply_all-IsHeld attempt.run_id attempt.token (attempt.now + attempt.lease) after after events
        during (record { lock = locked; runs = AreKept-refl after.runs }) in
    let (now_stored, is, by, for_it) = held.runs.to_after attempt.run_id run stored in
    (
      held,
      raised,
      (
        now_stored,
        is,
        sym by ∙ ap UpdateRun.trigger same ∙ unfold new_run in refl,
        sym for_it ∙ ap UpdateRun.scheduled_for same ∙ unfold new_run in refl,
      ),
    )
