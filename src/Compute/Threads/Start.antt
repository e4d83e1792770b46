-- ===== src/Compute/Threads/Start.antt =====
-- The threads after a start.
use home_lab_hq.Base.{
  is_in, AllDistinct, ℕ, String, ◌≡◌, ◌≢◌, ◌⊎◌, refl, sym, ap, ◌∙◌, inl, inr, Bool, true, false,
  none, some, List, [], ◌∷◌, arith, ◌==◌, eq_iff, eq_refl, if◌then◌else◌, Bool-cases, Option-cases,
  All, any, is_some,
}
use home_lab_hq.Dict.{Dict, lookup, insert}
use home_lab_hq.Dict.Laws.{IsDict, lookup-insert, lookup-insert_self}
use home_lab_hq.Compute.Jobs.{Job, Jobs, is_active, is_busy, elsewhere, queued}
use home_lab_hq.Compute.Jobs.Start.{by_id, or_else, StartJobs}
use home_lab_hq.Compute.Threads.{Thread, System, members, ids_of, new_thread, IsQueued, AreFresh}
use home_lab_hq.Compute.Threads.Turn.{IsSerial}

pub is_in-ids_of :
    (k : String) (new : List Job) → is_in k (ids_of new) ≡ is_some (lookup k (by_id new))
unfolding lookup
is_in-ids_of k [] = refl
is_in-ids_of k (job ∷ more) = ground (arith, is_in-ids_of k more)

ids_of-AllDistinct : (new : List Job) → IsDict (by_id new) → AllDistinct (ids_of new)
ids_of-AllDistinct [] h = tt
ids_of-AllDistinct (job ∷ more) h =
    (is_in-ids_of job.id more ∙ ap is_some h.0, ids_of-AllDistinct more h.1)

-- A property of all jobs, at one that is found by its id.
pub new_found :
    (instance_id k : String) (j : Job) (new : List Job)
    → All IsQueued new
    → any (elsewhere instance_id) new ≡ false
    → lookup k (by_id new) ≡ some j
    → (j.state ≡ queued) × (j.instance_id ≡ instance_id)
unfolding lookup
new_found instance_id k j [] all_queued one e = absurd (cc e)
new_found instance_id k j (job ∷ more) all_queued one e = elim (Bool-cases (job.id == k)) [
  | inl here ↦
      let is : some job ≡ some j = rw here at e in
      let same : job ≡ j = cc is in
      rw (← same) (all_queued.0, ground (arith, eq_iff job.instance_id instance_id, one))
  | inr other ↦ new_found instance_id k j more all_queued.1 (ground (arith, one)) (rw other at e)
]

module _ (limit : ℕ) (first : Job) (more : List Job) (sys : System) (after : Jobs)
    (all_queued : All IsQueued (first ∷ more)) (fresh : AreFresh (first ∷ more) sys)
    (one : any (elsewhere first.instance_id) (first ∷ more) ≡ false)
    (none_busy : (k : String) (j : Job)
      → lookup k sys.jobs ≡ some j
      → is_busy first.instance_id j ≡ false)
    (start : StartJobs limit (first ∷ more) sys.jobs after) (good : IsSerial sys) where
  abbrev new : List Job
  new = first ∷ more

  abbrev threads : Dict Thread
  threads = insert first.id (new_thread new) sys.threads

  -- A thread is the new one, or an earlier one of another name.
  thread_was :
      (n : String) (s : Thread)
      → lookup n threads ≡ some s
      → ((first.id ≡ n) × (new_thread new ≡ s)) ⊎ (lookup n sys.threads ≡ some s)
  thread_was n s e = elim (Bool-cases (first.id == n)) [
    | inl same ↦ inl ((eq_iff first.id n).0 same, some_injective (sym (at_name true same) ∙ e))
    | inr other ↦ inr (sym (at_name false other) ∙ e)
  ]
    where
      some_injective : {x y : Thread} → some x ≡ some y → x ≡ y
      some_injective e = cc e

      at_name :
          (b : Bool)
          → (first.id == n) ≡ b
          → lookup n threads ≡ (if b then some (new_thread new) else lookup n sys.threads)
      at_name b e =
          lookup-insert n first.id (new_thread new) sys.threads
          ∙ ap (λ b. if b then some (new_thread new) else lookup n sys.threads) e

  -- An earlier thread stays under its name.
  thread_stays :
      (n : String) (s : Thread) → lookup n sys.threads ≡ some s → lookup n threads ≡ some s
  thread_stays n s e = elim (Bool-cases (first.id == n)) [
    | inl same ↦
        let gone : lookup n sys.threads ≡ none =
          rw (← (eq_iff first.id n).0 same)
            (fresh.names first.id (ground (arith, eq_refl first.id))) in
        absurd (cc (gone, e))
    | inr other ↦ rw (lookup-insert n first.id (new_thread new) sys.threads) (rw other e)
  ]

  -- A job after the start is new and queued, or an earlier one with an id that is not new.
  job_was :
      (k : String) (j : Job)
      → lookup k after ≡ some j
      → ((is_in k (ids_of new) ≡ true) × (j.state ≡ queued) × (j.instance_id ≡ first.instance_id))
        ⊎ ((is_in k (ids_of new) ≡ false) × (lookup k sys.jobs ≡ some j))
  job_was k j e = elim (Option-cases (lookup k (by_id new))) [
    | inl absent ↦ inr (
      is_in-ids_of k new ∙ ap is_some absent,
      sym (ap (λ o. or_else o (lookup k sys.jobs)) absent) ∙ start.was k j e,
    )
    | inr (i, found) ↦
        let is : some i ≡ some j =
          sym (ap (λ o. or_else o (lookup k sys.jobs)) found) ∙ start.was k j e in
        let same : i ≡ j = cc is in
        let (state, instance) =
          new_found first.instance_id k j new all_queued one (rw same at found) in
        inl (is_in-ids_of k new ∙ ap is_some found, state, instance)
  ]

  -- A job that a thread has left to run is new in the new thread, or active in an earlier one.
  side :
      (n k : String) (s : Thread) (j : Job)
      → lookup n threads ≡ some s
      → is_in k (members s) ≡ true
      → lookup k after ≡ some j
      → ((first.id ≡ n) × (j.instance_id ≡ first.instance_id))
        ⊎ ((lookup n sys.threads ≡ some s)
            × (lookup k sys.jobs ≡ some j)
            × (is_active j.state ≡ true))
  side n k s j there inside e = elim (thread_was n s there) [
    | inl (here, same) ↦ elim (job_was k j e) [
      | inl (mine, state, instance) ↦ inl (here, instance)
      | inr (old, was) ↦ absurd (cc (same, old, inside))
    ]
    | inr earlier ↦ elim (job_was k j e) [
      | inl (mine, state, instance) ↦ absurd (cc (fresh.left k n s mine earlier, inside))
      | inr (old, was) ↦ inr (earlier, was, good.active n k s j earlier inside was)
    ]
  ]

  -- An active job of an earlier thread is of another instance.
  other_instance :
      (k : String) (j : Job)
      → lookup k sys.jobs ≡ some j
      → is_active j.state ≡ true
      → j.instance_id ≢ first.instance_id
  other_instance k j was busy same =
      absurd (ground (arith, none_busy k j was, busy, eq_iff j.instance_id first.instance_id, same))

  started-apart :
      (m n k l : String) (s t : Thread) (i j : Job)
      → lookup m threads ≡ some s
      → lookup n threads ≡ some t
      → is_in k (members s) ≡ true
      → is_in l (members t) ≡ true
      → lookup k after ≡ some i
      → lookup l after ≡ some j
      → i.instance_id ≡ j.instance_id
      → m ≡ n
  started-apart m n k l s t i j es et ks lt ei ej same = elim (side m k s i es ks ei) [
    | inl (here, mine) ↦ elim (side n l t j et lt ej) [
      | inl (there, yours) ↦ sym here ∙ there
      | inr (there, was, busy) ↦ absurd (other_instance l j was busy (sym same ∙ mine))
    ]
    | inr (earlier, was, busy) ↦ elim (side n l t j et lt ej) [
      | inl (there, yours) ↦ absurd (other_instance k i was busy (same ∙ yours))
      | inr (there, was_l, busy_l) ↦ good.apart m n k l s t i j earlier there ks lt was was_l same
    ]
  ]

  pub started-IsSerial : IsSerial (record { jobs = after; threads = threads })
  started-IsSerial = record {
    owned = λ k j e busy. elim (job_was k j e) [
      | inl (mine, state, instance) ↦
          (first.id, new_thread new, lookup-insert_self first.id (new_thread new) sys.threads, mine)
      | inr (old, was) ↦
          let (n, s, there, inside) = good.owned k j was busy in
          (n, s, thread_stays n s there, inside)
    ];
    current = λ k j e runs. elim (job_was k j e) [
      | inl (mine, state, instance) ↦ absurd (cc (runs, state))
      | inr (old, was) ↦
          let (n, s, there, now) = good.current k j was runs in (n, s, thread_stays n s there, now)
    ];
    active = λ n k s j there inside e. elim (job_was k j e) [
      | inl (mine, state, instance) ↦ ap is_active state
      | inr (old, was) ↦ elim (thread_was n s there) [
        | inl (here, same) ↦ absurd (cc (same, old, inside))
        | inr earlier ↦ good.active n k s j earlier inside was
      ]
    ];
    apart = started-apart;
    distinct = λ n s there. elim (thread_was n s there) [
      | inl (here, same) ↦ rw (← same) (ids_of-AllDistinct new fresh.distinct)
      | inr earlier ↦ good.distinct n s earlier
    ];
  }
