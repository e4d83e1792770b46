-- ===== src/Dashboards/Assignment.antt =====
-- The dashboards that the devices are assigned to.
use home_lab_hq.Base.{
  ℕ, String, ◌≡◌, ◌≢◌, sym, ap, ◌∙◌, inl, inr, true, false, Option, none, some, arith, ◌==◌, eq_iff,
  eq_refl, if◌then◌else◌, Bool-cases, Option-cases, strip, ℤ,
}
use mathlib.Core.Path.{subst}
use home_lab_hq.Dict.{Dict, lookup, insert, contains}
use home_lab_hq.Dict.Laws.{lookup-insert, lookup-erase, lookup-map_items, mapped}
use home_lab_hq.Dashboards.{
  Dashboard, AssignedDevice, Boards, new_board, renamed, reordered, create_dashboard, update_found,
  update_dashboard, is_assigned_to, unassign, delete_dashboard,
}

contains-insert :
    (k j : String) (d : Dashboard) (ds : Dict Dashboard)
    → contains k ds ≡ true
    → contains k (insert j d ds) ≡ true
contains-insert k j d ds h = ground (arith, lookup-insert k j d ds, h)

some_injective : {A : Type 0} {x y : A} → some x ≡ some y → x ≡ y
some_injective e = cc e

module _ {R : Type 0} where
  -- The dashboard of every assigned device is there.
  abbrev pub AreAssigned : Boards R → Type 0
  AreAssigned doc =
      (k : String) (device : AssignedDevice R) (board : String)
      → lookup k doc.devices ≡ some device
      → device.dashboard_id ≡ some board
      → contains board doc.dashboards ≡ true

  insert-AreAssigned :
      (id : String) (d : Dashboard) (doc : Boards R)
      → AreAssigned doc
      → AreAssigned (record doc { dashboards = insert id d doc.dashboards })
  insert-AreAssigned id d doc good k device board e h =
      contains-insert board id d doc.dashboards (good k device board e h)

  create-AreAssigned :
      (id owner : String) (given : Option String) (now : ℕ) (doc after : Boards R)
      (made : Dashboard)
      → AreAssigned doc
      → create_dashboard id owner given now doc ≡ some (made, after)
      → AreAssigned after
  unfolding create_dashboard
  create-AreAssigned id owner none now doc after made good e = absurd (cc e)
  create-AreAssigned id owner (some given) now doc after made good e =
      elim (Bool-cases (strip given == "")) [
        | inl blank ↦ absurd (cc (rw blank at e))
        | inr named ↦
            let both = some_injective (rw named at e) in
            subst AreAssigned (ap (λ r. r.1) both)
              (insert-AreAssigned id (new_board id owner (strip given) now doc) doc good)
      ]

  update_found-AreAssigned :
      (id : String) (name : Option (Option String)) (order : Option (Option ℤ))
      (o : Option Dashboard) (doc : Boards R)
      → AreAssigned doc
      → AreAssigned (update_found id name order o doc).1
  unfolding update_found
  update_found-AreAssigned id name order none doc good = good
  update_found-AreAssigned id name order (some d) doc good =
      insert-AreAssigned id (reordered order (renamed name d)) doc good

  unassign_it :
      (id k : String) (device : AssignedDevice R)
      → device.dashboard_id ≡ some id
      → unassign id k device ≡ record device { dashboard_id = none }
  unfolding unassign
  unassign_it id k device e =
      let its : is_assigned_to id device.dashboard_id ≡ true =
        ap (is_assigned_to id) e ∙ eq_refl id in
      ap (λ b. if b then record device { dashboard_id = none } else device) its

  unassign_other :
      (id k : String) (device : AssignedDevice R)
      → device.dashboard_id ≢ some id
      → unassign id k device ≡ device
  unfolding unassign
  unassign_other id k device other = elim (Bool-cases (is_assigned_to id device.dashboard_id)) [
    | inr not_its ↦ ap (λ b. if b then record device { dashboard_id = none } else device) not_its
    | inl its ↦ absurd (go device.dashboard_id its other)
  ]
    where
      go : (o : Option String) → is_assigned_to id o ≡ true → o ≢ some id → ⊥
      go none its other = cc its
      go (some board) its other = other (ap some ((eq_iff board id).0 its))

  lookup-deleted :
      (id k : String) (device : AssignedDevice R) (doc : Boards R)
      → lookup k doc.devices ≡ some device
      → lookup k (delete_dashboard id doc).devices ≡ some (unassign id k device)
  unfolding delete_dashboard
  lookup-deleted id k device doc e =
      lookup-map_items (unassign id) k doc.devices ∙ ap (mapped (unassign id k)) e

  unassigned_board :
      (id k board : String) (device : AssignedDevice R)
      → (unassign id k device).dashboard_id ≡ some board
      → (device.dashboard_id ≡ some board) × ((id == board) ≡ false)
  unfolding unassign
  unassigned_board id k board device h = elim (Bool-cases (is_assigned_to id device.dashboard_id)) [
    | inl its ↦ absurd (cc (rw its at h))
    | inr not_its ↦
        let still : device.dashboard_id ≡ some board = rw not_its at h in
        let other : (board == id) ≡ false = sym (ap (is_assigned_to id) still) ∙ not_its in
        (still, ground (arith, other, eq_iff board id, eq_iff id board))
  ]

  delete-AreAssigned :
      (id : String) (doc : Boards R) → AreAssigned doc → AreAssigned (delete_dashboard id doc)
  unfolding delete_dashboard
  delete-AreAssigned id doc good k device board e h = elim (Option-cases (lookup k doc.devices)) [
    | inl absent ↦ absurd (
        cc (
          sym (lookup-map_items (unassign id) k doc.devices ∙ ap (mapped (unassign id k)) absent)
          ∙ e))
    | inr (before, was) ↦
        let is = some_injective (sym (lookup-deleted id k before doc was) ∙ e) in
        let (there, other) =
          unassigned_board id k board before (ap AssignedDevice.dashboard_id is ∙ h) in
        rw (lookup-erase board id doc.dashboards) (rw other (good k before board was there))
  ]

-- Creating, changing and deleting a dashboard keep every assigned device on a dashboard that is
-- there; a deletion removes the dashboard, unassigns exactly its devices without touching their
-- other fields, and leaves every other device and dashboard as it is.
pub dashboards-AreAssigned :
    {R : Type 0} (id owner : String) (given : Option String) (now : ℕ)
    (name : Option (Option String)) (order : Option (Option ℤ)) (doc : Boards R)
    → AreAssigned doc
    → ((made : Dashboard) (after : Boards R)
        → create_dashboard id owner given now doc ≡ some (made, after)
        → AreAssigned after)
      × AreAssigned (update_dashboard id name order doc).1
      × AreAssigned (delete_dashboard id doc)
      × ((k : String) (device : AssignedDevice R)
          → lookup k doc.devices ≡ some device
          → (device.dashboard_id ≡ some id
              → lookup k (delete_dashboard id doc).devices
                ≡ some (record device { dashboard_id = none }))
            × (device.dashboard_id ≢ some id
                → lookup k (delete_dashboard id doc).devices ≡ some device))
      × ((k : String)
          → lookup k (delete_dashboard id doc).dashboards
            ≡ (if id == k then none else lookup k doc.dashboards))
unfolding update_dashboard delete_dashboard
dashboards-AreAssigned id owner given now name order doc good = (
  (λ made after. create-AreAssigned id owner given now doc after made good),
  update_found-AreAssigned id name order (lookup id doc.dashboards) doc good,
  delete-AreAssigned id doc good,
  (λ k device e. (
    (λ its. lookup-deleted id k device doc e ∙ ap some (unassign_it id k device its)),
    (λ other. lookup-deleted id k device doc e ∙ ap some (unassign_other id k device other)),
  )),
  λ k. lookup-erase k id doc.dashboards,
)
