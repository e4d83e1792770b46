-- ===== src/Updates/Lease/Exclusion.antt =====
-- One update check at a time: what a lock promises to the run that holds it.
use home_lab_hq.Base.{
  ℕ, zero, suc, ◌+◌, ◌-◌, String, ◌≡◌, refl, sym, ap, ◌∙◌, inl, inr, Bool, true, false, Option,
  none, some, List, [], ◌∷◌, arith, ◌==◌, ◌&&◌, ◌||◌, any, keep, map, length, ltb, Bool-cases,
  Option-cases,
}
use home_lab_hq.Dict.{Dict, lookup, insert, erase, values}
use home_lab_hq.Dict.Laws.{lookup-insert_self, lookup-erase}
use home_lab_hq.Errors.{Failure, ok, error, conflict}
use home_lab_hq.Prune.{take, erase_all}
use home_lab_hq.Updates.Lease.{
  UpdateRun, Lock, UpdateDoc, Attempt, is_terminal, insert_run, sort_runs, dropped_runs, abandon,
  new_run, already_ran, start_run, acquire_under, acquire,
}

any-insert_run :
    (p : UpdateRun → Bool) (x : UpdateRun) (xs : List UpdateRun)
    → any p (insert_run x xs) ≡ p x || any p xs
unfolding insert_run
any-insert_run p x [] = refl
any-insert_run p x (y ∷ ys) = ground (arith, any-insert_run p x ys)

any-sort_runs : (p : UpdateRun → Bool) (xs : List UpdateRun) → any p (sort_runs xs) ≡ any p xs
unfolding sort_runs
any-sort_runs p [] = refl
any-sort_runs p (x ∷ xs) =
    any-insert_run p x (sort_runs xs) ∙ ap (λ b. p x || b) (any-sort_runs p xs)

any-take :
    {A : Type 0} (p : A → Bool) (n : ℕ) (xs : List A) → any p xs ≡ false → any p (take n xs) ≡ false
any-take p zero xs h = refl
any-take p (suc n) [] h = refl
any-take p (suc n) (x ∷ xs) h = ground (arith, any-take p n xs)

any-keep :
    {A : Type 0} (p q : A → Bool) (xs : List A) → any p (keep q xs) ≡ any (λ x. q x && p x) xs
any-keep p q [] = refl
any-keep p q (x ∷ xs) = ground (arith, any-keep p q xs)

any-both :
    {A : Type 0} (q p : A → Bool) (xs : List A)
    → any p xs ≡ false
    → any (λ x. q x && p x) xs ≡ false
any-both q p [] h = refl
any-both q p (x ∷ xs) h = ground (arith, any-both q p xs)

any-map :
    {A B : Type 0} (p : B → Bool) (f : A → B) (xs : List A)
    → any p (map f xs) ≡ any (λ x. p (f x)) xs
any-map p f [] = refl
any-map p f (x ∷ xs) = ap (λ b. p (f x) || b) (any-map p f xs)

module _ {V : Type 0} where
  lookup-erase_all :
      (j : String) (ks : List String) (d : Dict V)
      → any (λ k. k == j) ks ≡ false
      → lookup j (erase_all ks d) ≡ lookup j d
  lookup-erase_all j [] d h = refl
  lookup-erase_all j (k ∷ ks) d h =
      ground (arith, lookup-erase_all j ks (erase k d), lookup-erase j k d)

  any-values_insert :
      (p : V → Bool) (k : String) (v : V) (d : Dict V)
      → any p (values d) ≡ false
      → p v ≡ false
      → any p (values (insert k v d)) ≡ false
  unfolding insert
  any-values_insert p k v [] h e = ground arith
  any-values_insert p k v ((j, w) ∷ d) h e = ground (arith, any-values_insert p k v d)

  any-values_replace :
      (p : V → Bool) (k : String) (v w : V) (d : Dict V)
      → lookup k d ≡ some w
      → p v ≡ p w
      → any p (values (insert k v d)) ≡ any p (values d)
  unfolding insert lookup
  any-values_replace p k v w [] h e = absurd (cc h)
  any-values_replace p k v w ((j, x) ∷ d) h e = ground (arith, any-values_replace p k v w d)

  pub any-values_found :
      (p : V → Bool) (k : String) (v : V) (d : Dict V)
      → lookup k d ≡ some v
      → p v ≡ true
      → any p (values d) ≡ true
  unfolding lookup
  any-values_found p k v [] h e = absurd (cc h)
  any-values_found p k v ((j, x) ∷ d) h e = ground (arith, any-values_found p k v d)

-- A test that an abandoned run passes as it did before.
pub any-abandon :
    (p : UpdateRun → Bool) (iso run_id : String) (runs : Dict UpdateRun)
    → ((r : UpdateRun) (a b c : String)
        → p (record r { status = a; completed_at = b; fatal_error = c }) ≡ p r)
    → any p (values (abandon iso run_id runs)) ≡ any p (values runs)
unfolding abandon
any-abandon p iso run_id runs same = elim (Bool-cases (run_id == "")) [
  | inl blank ↦ rw blank refl
  | inr named ↦ elim (Option-cases (lookup run_id runs)) [
    | inl missing ↦ rw (named, missing) refl
    | inr (run, found) ↦ elim (Bool-cases (run.status == "running")) [
      | inl running ↦
          rw (named, found)
            (rw running (any-values_replace p run_id _ run runs found (same run _ _ _)))
      | inr ended ↦ rw (named, found) (rw ended refl)
    ]
  ]
]

-- Whether a run has the identity.
abbrev pub is_used : String → Dict UpdateRun → Bool
is_used run_id runs = any (λ r. UpdateRun.id r == run_id) (values runs)

-- A new run, which has not ended, outlives the bound on the runs.
lookup-started :
    (attempt : Attempt) (trigger requested_by scheduled_for : String) (runs : Dict UpdateRun)
    → is_used attempt.run_id runs ≡ false
    → let run = new_run attempt trigger requested_by scheduled_for in
      let added = insert attempt.run_id run runs in
      lookup attempt.run_id (erase_all (dropped_runs attempt.max_runs added) added) ≡ some run
unfolding dropped_runs new_run
lookup-started attempt trigger requested_by scheduled_for runs fresh =
    lookup-erase_all attempt.run_id (dropped_runs attempt.max_runs added) added absent
    ∙ lookup-insert_self attempt.run_id run runs
  where
    run : UpdateRun
    run = new_run attempt trigger requested_by scheduled_for

    added : Dict UpdateRun
    added = insert attempt.run_id run runs

    has_id : UpdateRun → Bool
    has_id r = r.id == attempt.run_id

    absent : any (λ k. k == attempt.run_id) (dropped_runs attempt.max_runs added) ≡ false
    absent =
        let ended = sort_runs (keep is_terminal (values added)) in
        any-map (λ k. k == attempt.run_id) UpdateRun.id
          (take (length added - attempt.max_runs) ended)
        ∙ any-take has_id (length added - attempt.max_runs) ended (
            any-sort_runs has_id (keep is_terminal (values added))
            ∙ any-keep has_id is_terminal (values added)
            ∙ any-values_insert (λ r. is_terminal r && has_id r) attempt.run_id run runs
                (any-both is_terminal has_id (values runs) fresh) (unfold is_terminal in refl))

abbrev pub is_live : ℕ → Option Lock → Bool
is_live now none = false
is_live now (some lock) = ltb now lock.expires_at

module _ (attempt : Attempt) (trigger requested_by scheduled_for : String) where
  start_run_lem :
      (runs : Dict UpdateRun) (doc : UpdateDoc)
      → is_used attempt.run_id runs ≡ false
      → let (r, after) = start_run attempt trigger requested_by scheduled_for runs doc in
        ((f : Failure) → r ≡ error f → after ≡ doc)
        × ((run : UpdateRun)
            → r ≡ ok run
            → (after.lock
                ≡ some (record {
                  run_id = attempt.run_id;
                  token = attempt.token;
                  expires_at = attempt.now + attempt.lease;
                }))
              × (lookup attempt.run_id after.runs ≡ some run)
              × (run ≡ new_run attempt trigger requested_by scheduled_for))
  unfolding start_run
  start_run_lem runs doc fresh = elim (Bool-cases (already_ran scheduled_for runs)) [
    | inl ran ↦ rw ran ((λ f e. refl), λ run e. absurd (cc e))
    | inr new ↦ rw new (
      (λ f e. absurd (cc e)),
      λ run e.
          let same : new_run attempt trigger requested_by scheduled_for ≡ run = cc e in
          (
            refl,
            lookup-started attempt trigger requested_by scheduled_for runs fresh ∙ ap some same,
            sym same,
          ),
    )
  ]

  -- With an unused run id: `_acquire` raises and writes nothing, always while a lock is live; or
  -- it gives the lock to its own run for the length of a lease, and that run is stored as running.
  pub acquire_lem :
      (doc : UpdateDoc)
      → is_used attempt.run_id doc.runs ≡ false
      → let (r, after) = acquire attempt trigger requested_by scheduled_for doc in
        ((f : Failure) → r ≡ error f → after ≡ doc)
        × (is_live attempt.now doc.lock ≡ true → r ≡ error conflict)
        × ((run : UpdateRun)
            → r ≡ ok run
            → (after.lock
                ≡ some (record {
                  run_id = attempt.run_id;
                  token = attempt.token;
                  expires_at = attempt.now + attempt.lease;
                }))
              × (lookup attempt.run_id after.runs ≡ some run)
              × (run ≡ new_run attempt trigger requested_by scheduled_for))
  unfolding acquire acquire_under
  acquire_lem doc fresh = under doc.lock
    where
      under :
          (o : Option Lock)
          → let (r, after) = acquire_under attempt trigger requested_by scheduled_for doc o in
            ((f : Failure) → r ≡ error f → after ≡ doc)
            × (is_live attempt.now o ≡ true → r ≡ error conflict)
            × ((run : UpdateRun)
                → r ≡ ok run
                → (after.lock
                    ≡ some (record {
                      run_id = attempt.run_id;
                      token = attempt.token;
                      expires_at = attempt.now + attempt.lease;
                    }))
                  × (lookup attempt.run_id after.runs ≡ some run)
                  × (run ≡ new_run attempt trigger requested_by scheduled_for))
      under none =
          let started = start_run_lem doc.runs doc fresh in
          (started.0, (λ live. absurd (ground arith)), started.1)
      under (some lock) = elim (Bool-cases (ltb attempt.now lock.expires_at)) [
        | inl live ↦ rw live ((λ f h. refl), (λ h. refl), λ run h. absurd (cc h))
        | inr dead ↦
            let started = start_run_lem (abandon attempt.iso lock.run_id doc.runs) doc (
              any-abandon (λ r. UpdateRun.id r == attempt.run_id) attempt.iso lock.run_id doc.runs
                (λ r a b c. refl)
              ∙ fresh) in
            rw dead (started.0, (λ live. absurd (ground arith)), started.1)
      ]
