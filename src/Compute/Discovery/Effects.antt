-- ===== src/Compute/Discovery/Effects.antt =====
-- What a change of one job does to the jobs.
use home_lab_hq.Base.{
  String, ◌≡◌, refl, sym, ap, ◌∙◌, inl, inr, Bool, true, false, Option, none, some, ◌==◌, eq_iff,
  if◌then◌else◌, Bool-cases, Option-cases,
}
use home_lab_hq.Dict.{lookup, insert}
use home_lab_hq.Dict.Laws.{
  IsDict, lookup-insert, lookup-map_items, insert-IsDict, map_items-IsDict, mapped,
}
use home_lab_hq.Compute.Jobs.{Job, Jobs}
use home_lab_hq.Compute.Jobs.Bound.{HaveJobIds}
use home_lab_hq.Prune.Named.{lookup-AreNamed, insert-AreNamed, map_items-AreNamed}
use home_lab_hq.Compute.Discovery.{
  without_details, is_superseded, compact_job, compact_compute_discovery_history,
  finishes_discovery, set_found, set_job,
}

-- The same job in the same state; its collected output may differ.
pub record IsSameJob (i j : Job) : Type 0 where
  pub id : j.id ≡ i.id
  pub instance_id : j.instance_id ≡ i.instance_id
  pub state : j.state ≡ i.state
  pub request : j.request ≡ i.request

is_same : (i : Job) → IsSameJob i i
is_same i = record { id = refl; instance_id = refl; state = refl; request = refl }

IsSameJob-trans : {h i j : Job} → IsSameJob h i → IsSameJob i j → IsSameJob h j
IsSameJob-trans a b = record {
  id = b.id ∙ a.id;
  instance_id = b.instance_id ∙ a.instance_id;
  state = b.state ∙ a.state;
  request = b.request ∙ a.request;
}

compact_job-IsSameJob : (d : Jobs) (k : String) (i : Job) → IsSameJob i (compact_job d k i)
unfolding compact_job without_details
compact_job-IsSameJob d k i = go (is_superseded d k i)
  where
    go : (b : Bool) → IsSameJob i (if b then without_details i else i)
    go true = record { id = refl; instance_id = refl; state = refl; request = refl }
    go false = is_same i

-- The jobs after compacting are those before, up to their details.
compacted_was :
    (d : Jobs) (k : String) (j : Job)
    → lookup k (compact_compute_discovery_history d).1 ≡ some j
    → (i : Job) × (lookup k d ≡ some i) × IsSameJob i j
unfolding compact_compute_discovery_history
compacted_was d k j e = elim (Option-cases (lookup k d)) [
  | inl absent ↦
      absurd
        (cc (sym e ∙ lookup-map_items (compact_job d) k d ∙ ap (mapped (compact_job d k)) absent))
  | inr (i, it) ↦
      let made : some j ≡ some (compact_job d k i) =
        sym e ∙ lookup-map_items (compact_job d) k d ∙ ap (mapped (compact_job d k)) it in
      let same : j ≡ compact_job d k i = cc made in (i, it, rw same (compact_job-IsSameJob d k i))
]

module _ (id : String) (changes : Job → Job) where
  -- What the job under `k` becomes, up to its details.
  abbrev pub changed : String → Job → Job
  changed k i = if id == k then changes i else i

  stored_was :
      (i : Job) (d : Jobs) (k : String) (j : Job)
      → lookup id d ≡ some i
      → lookup k (insert id (changes i) d) ≡ some j
      → (h : Job) × (lookup k d ≡ some h) × IsSameJob (changed k h) j
  stored_was i d k j it e = elim (Bool-cases (id == k)) [
    | inl same ↦
        let here = (eq_iff id k).0 same in
        let made : some (changes i) ≡ some j = sym (at_key true same) ∙ e in
        let is : changes i ≡ j = cc made in (i, rw (← here) it, rw same (rw is (is_same j)))
    | inr other ↦ (j, sym (at_key false other) ∙ e, rw other (is_same j))
  ]
    where
      at_key :
          (b : Bool)
          → (id == k) ≡ b
          → lookup k (insert id (changes i) d) ≡ (if b then some (changes i) else lookup k d)
      at_key b same =
          lookup-insert k id (changes i) d
          ∙ ap (λ b. if b then some (changes i) else lookup k d) same

  found_was :
      (o : Option Job) (d : Jobs) (k : String) (j : Job)
      → lookup id d ≡ o
      → lookup k (set_found id changes o d).1 ≡ some j
      → (h : Job) × (lookup k d ≡ some h) × IsSameJob (changed k h) j
  unfolding set_found
  found_was none d k j it e = elim (Bool-cases (id == k)) [
    | inl same ↦
        let missing : lookup k d ≡ none = rw (← (eq_iff id k).0 same) it in absurd (cc (missing, e))
    | inr other ↦ (j, e, rw other (is_same j))
  ]
  found_was (some i) d k j it e = elim (Bool-cases (finishes_discovery i (changes i))) [
    | inl finishes ↦
        let stored = insert id (changes i) d in
        let (m, there, same) = compacted_was stored k j (rw finishes at e) in
        let (h, was, before) = stored_was i d k m it there in (h, was, IsSameJob-trans before same)
    | inr quiet ↦ stored_was i d k j it (rw quiet at e)
  ]

  -- Every job after `set_job` is one before it, changed if it is the job of the call.
  pub set_job_was :
      (d : Jobs) (k : String) (j : Job)
      → lookup k (set_job id changes d).1 ≡ some j
      → (h : Job) × (lookup k d ≡ some h) × IsSameJob (changed k h) j
  unfolding set_job
  set_job_was d k j e = found_was (lookup id d) d k j refl e

  found-IsDict : (o : Option Job) (d : Jobs) → IsDict d → IsDict (set_found id changes o d).1
  unfolding set_found compact_compute_discovery_history
  found-IsDict none d h = h
  found-IsDict (some i) d h =
      let stored = insert-IsDict id (changes i) d h in
      elim (Bool-cases (finishes_discovery i (changes i))) [
        | inl finishes ↦ rw finishes (
            map_items-IsDict (compact_job (insert id (changes i) d)) (insert id (changes i) d)
              stored)
        | inr quiet ↦ rw quiet stored
      ]

  pub set_job-IsDict : (d : Jobs) → IsDict d → IsDict (set_job id changes d).1
  unfolding set_job
  set_job-IsDict d h = found-IsDict (lookup id d) d h

  found-HaveJobIds :
      ((i : Job) → (changes i).id ≡ i.id)
      → (o : Option Job) (d : Jobs) → lookup id d ≡ o
      → HaveJobIds d
      → HaveJobIds (set_found id changes o d).1
  unfolding set_found compact_compute_discovery_history
  found-HaveJobIds keeps none d it h = h
  found-HaveJobIds keeps (some i) d it h =
      let own : Job.id i ≡ id = lookup-AreNamed (λ item. item.1.id) id i d h it in
      let stored =
        insert-AreNamed (λ item. item.1.id) id (changes i) d (λ j e. keeps i ∙ own ∙ sym e) h in
      elim (Bool-cases (finishes_discovery i (changes i))) [
        | inl finishes ↦ rw finishes (
            map_items-AreNamed (λ item. item.1.id) (compact_job (insert id (changes i) d))
              (insert id (changes i) d)
              (λ k j. (compact_job-IsSameJob (insert id (changes i) d) k j).id) stored)
        | inr quiet ↦ rw quiet stored
      ]

  pub set_job-HaveJobIds :
      ((i : Job) → (changes i).id ≡ i.id)
      → (d : Jobs) → HaveJobIds d
      → HaveJobIds (set_job id changes d).1
  unfolding set_job
  set_job-HaveJobIds keeps d h = found-HaveJobIds keeps (lookup id d) d refl h
