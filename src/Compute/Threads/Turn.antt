-- ===== src/Compute/Threads/Turn.antt =====
-- The jobs that the threads have left to run, over a turn of one thread.
use home_lab_hq.Base.{
  is_in, AllDistinct, String, ◌≡◌, refl, sym, ap, ◌∙◌, ◌⊎◌, inl, inr, Bool, true, false, some,
  arith, ◌==◌, eq_iff, eq_refl, if◌then◌else◌, Bool-cases,
}
use home_lab_hq.Dict.{Dict, lookup, insert}
use home_lab_hq.Dict.Laws.{lookup-insert, lookup-insert_self}
use home_lab_hq.Compute.Jobs.{Job, Jobs, is_active, running}
use home_lab_hq.Compute.Threads.{Thread, System, members}

-- Every queued or running job is left to a thread, and only such jobs are; a running one is the
-- current job of its thread; no two threads have jobs of one instance.
pub record IsSerial (sys : System) : Type 0 where
  pub owned :
      (k : String) (j : Job)
      → lookup k sys.jobs ≡ some j
      → is_active j.state ≡ true
      → (n : String) × (t : Thread) × (lookup n sys.threads ≡ some t) × (is_in k (members t) ≡ true)
  pub current :
      (k : String) (j : Job)
      → lookup k sys.jobs ≡ some j
      → j.state ≡ running
      → (n : String) × (t : Thread) × (lookup n sys.threads ≡ some t) × (t.current ≡ some k)
  pub active :
      (n k : String) (t : Thread) (j : Job)
      → lookup n sys.threads ≡ some t
      → is_in k (members t) ≡ true
      → lookup k sys.jobs ≡ some j
      → is_active j.state ≡ true
  pub apart :
      (m n k l : String) (s t : Thread) (i j : Job)
      → lookup m sys.threads ≡ some s
      → lookup n sys.threads ≡ some t
      → is_in k (members s) ≡ true
      → is_in l (members t) ≡ true
      → lookup k sys.jobs ≡ some i
      → lookup l sys.jobs ≡ some j
      → i.instance_id ≡ j.instance_id
      → m ≡ n
  pub distinct : (n : String) (t : Thread) → lookup n sys.threads ≡ some t → AllDistinct (members t)

pub current-in : (t : Thread) (k : String) → t.current ≡ some k → is_in k (members t) ≡ true
current-in t k e = rw e (ground (arith, eq_refl k))

-- What a turn of the thread `name` does: it may drop members, and changes only jobs of its own.
pub record IsTurn (sys : System) (name : String) (t turned : Thread) (jobs : Jobs) : Type 0 where
  pub there : lookup name sys.threads ≡ some t
  pub was :
      (k : String) (j : Job)
      → lookup k jobs ≡ some j
      → (i : Job) × (lookup k sys.jobs ≡ some i)
        × (j.instance_id ≡ i.instance_id)
        × (is_in k (members t) ≡ false → j.state ≡ i.state)
  pub fewer : (k : String) → is_in k (members turned) ≡ true → is_in k (members t) ≡ true
  pub left :
      (k : String) (j : Job)
      → is_in k (members t) ≡ true
      → lookup k jobs ≡ some j
      → is_active j.state ≡ true
      → is_in k (members turned) ≡ true
  pub busy :
      (k : String) (j : Job)
      → is_in k (members turned) ≡ true
      → lookup k jobs ≡ some j
      → is_active j.state ≡ true
  pub runs :
      (k : String) (j : Job)
      → is_in k (members t) ≡ true
      → lookup k jobs ≡ some j
      → j.state ≡ running
      → turned.current ≡ some k
  pub distinct : AllDistinct (members turned)

module _ (sys : System) (name : String) (t turned : Thread) (jobs : Jobs)
    (it : IsTurn sys name t turned jobs) (good : IsSerial sys) where
  abbrev threads : Dict Thread
  threads = insert name turned sys.threads

  thread_was :
      (n : String) (s : Thread)
      → lookup n threads ≡ some s
      → ((name ≡ n) × (turned ≡ s)) ⊎ (((name == n) ≡ false) × (lookup n sys.threads ≡ some s))
  thread_was n s e = elim (Bool-cases (name == n)) [
    | inl same ↦ inl ((eq_iff name n).0 same, some_injective (sym (at_name true same) ∙ e))
    | inr other ↦ inr (other, sym (at_name false other) ∙ e)
  ]
    where
      some_injective : {x y : Thread} → some x ≡ some y → x ≡ y
      some_injective e = cc e

      at_name :
          (b : Bool)
          → (name == n) ≡ b
          → lookup n threads ≡ (if b then some turned else lookup n sys.threads)
      at_name b e =
          lookup-insert n name turned sys.threads
          ∙ ap (λ b. if b then some turned else lookup n sys.threads) e

  -- A thread after the turn was one before it, with at least its members.
  before :
      (n k : String) (s : Thread)
      → lookup n threads ≡ some s
      → is_in k (members s) ≡ true
      → (r : Thread) × (lookup n sys.threads ≡ some r) × (is_in k (members r) ≡ true)
  before n k s e inside = elim (thread_was n s e) [
    | inl (here, one) ↦ (t, rw (← here) it.there, it.fewer k (rw one inside))
    | inr (other, was) ↦ (s, was, inside)
  ]

  -- A job of another thread is none of this one.
  foreign_to :
      (n k : String) (s : Thread) (i : Job)
      → (name == n) ≡ false
      → lookup n sys.threads ≡ some s
      → is_in k (members s) ≡ true
      → lookup k sys.jobs ≡ some i
      → is_in k (members t) ≡ false
  foreign_to n k s i other e inside is = elim (Bool-cases (is_in k (members t))) [
    | inl mine ↦
        let one : name ≡ n = good.apart name n k k t s i i it.there e mine inside is is refl in
        absurd (cc (other, (eq_iff name n).1 one))
    | inr not_mine ↦ not_mine
  ]

  -- A thread that has a job which this one has not is another thread, and stays.
  stays :
      (n k : String) (s : Thread)
      → lookup n sys.threads ≡ some s
      → is_in k (members s) ≡ true
      → is_in k (members t) ≡ false
      → lookup n threads ≡ some s
  stays n k s e inside outside = elim (Bool-cases (name == n)) [
    | inl same ↦
        let here : lookup n sys.threads ≡ some t = rw (← (eq_iff name n).0 same) it.there in
        let one : t ≡ s = cc (here, e) in
        absurd (cc (ap (λ r. is_in k (members r)) one, inside, outside))
    | inr other ↦ rw (lookup-insert n name turned sys.threads) (rw other e)
  ]

  pub turned-IsSerial : IsSerial (record { jobs = jobs; threads = threads })
  turned-IsSerial = record {
    owned = λ k j e busy. elim (Bool-cases (is_in k (members t))) [
      | inl mine ↦
          (name, turned, lookup-insert_self name turned sys.threads, it.left k j mine e busy)
      | inr foreign ↦
          let (i, was, same, state) = it.was k j e in
          let (n, s, there, inside) =
            good.owned k i was (ap is_active (sym (state foreign)) ∙ busy) in
          (n, s, stays n k s there inside foreign, inside)
    ];
    current = λ k j e is_running. elim (Bool-cases (is_in k (members t))) [
      | inl mine ↦
          (name, turned, lookup-insert_self name turned sys.threads, it.runs k j mine e is_running)
      | inr foreign ↦
          let (i, was, same, state) = it.was k j e in
          let (n, s, there, inside) = good.current k i was (sym (state foreign) ∙ is_running) in
          (n, s, stays n k s there (current-in s k inside) foreign, inside)
    ];
    active = λ n k s j e inside ek. elim (thread_was n s e) [
      | inl (here, one) ↦ it.busy k j (rw one inside) ek
      | inr (other, was) ↦
          let (i, was_k, same, state) = it.was k j ek in
          ap is_active (state (foreign_to n k s i other was inside was_k))
          ∙ good.active n k s i was inside was_k
    ];
    apart = λ m n k l s r i j es er ks lr ek el one.
        let (h, was_k, same_k, state_k) = it.was k i ek in
        let (g, was_l, same_l, state_l) = it.was l j el in
        let (s', there_s, in_s) = before m k s es ks in
        let (r', there_r, in_r) = before n l r er lr in
        good.apart m n k l s' r' h g there_s there_r in_s in_r was_k was_l
          (sym same_k ∙ one ∙ same_l);
    distinct = λ n s e. elim (thread_was n s e) [
      | inl (here, one) ↦ rw (← one) it.distinct
      | inr (other, was) ↦ good.distinct n s was
    ];
  }
