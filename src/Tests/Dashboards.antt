-- ===== src/Tests/Dashboards.antt =====
-- Concrete runs of the models of the dashboards and of the Ansible inventory.
use home_lab_hq.Base.{
  ℕ, String, ◌≡◌, ◌≢◌, refl, true, false, none, some, List, [], ◌∷◌, ◌==◌, if◌then◌else◌, map, pos,
  negsuc, Bool-cases, inl, inr, ap, ◌∙◌,
}
use mathlib.Core.Path.{subst}
use home_lab_hq.Dict.{Dict, lookup, contains, keys}
use home_lab_hq.Dashboards.{
  Dashboard, AssignedDevice, Boards, list_dashboards, create_dashboard, update_dashboard,
  delete_dashboard,
}
use home_lab_hq.Dashboards.Assignment.{AreAssigned, dashboards-AreAssigned}
use home_lab_hq.Inventory.{Group, inventory_groups}
use home_lab_hq.Inventory.Termination.{inventory_groups_lem}

abbrev network : Dashboard
network = record { id = "b1"; owner_id = "u1"; name = "Network"; order = pos 1; created = 5 }

abbrev storage : Dashboard
storage = record { id = "b2"; owner_id = "u1"; name = "Storage"; order = negsuc 0; created = 6 }

abbrev boards : Boards ℕ
boards = record {
  dashboards = ("b1", network) ∷ ("b2", storage) ∷ [];
  devices =
      ("d1", record { dashboard_id = some "b1"; rest = 1 })
      ∷ ("d2", record { dashboard_id = none; rest = 2 })
      ∷ [];
}

list_run : map Dashboard.name (list_dashboards "u1" false boards) ≡ "Storage" ∷ "Network" ∷ []
unfolding list_dashboards
list_run = refl

some_injective : {A : Type 0} {x y : A} → some x ≡ some y → x ≡ y
some_injective e = cc e

assigned_board :
    (k board : String) (device : AssignedDevice ℕ)
    → lookup k boards.devices ≡ some device
    → device.dashboard_id ≡ some board
    → "b1" ≡ board
unfolding lookup
assigned_board k board device e h = elim (Bool-cases ("d1" == k)) [
  | inl first ↦
      let same = some_injective (rw first at e) in
      some_injective (ap AssignedDevice.dashboard_id same ∙ h)
  | inr other ↦ elim (Bool-cases ("d2" == k)) [
    | inl second ↦
        let same = some_injective (rw (other, second) at e) in
        absurd (cc (ap AssignedDevice.dashboard_id same ∙ h))
    | inr neither ↦ absurd (cc (rw (other, neither) at e))
  ]
]

boards-AreAssigned : AreAssigned boards
unfolding lookup
boards-AreAssigned k device board e h =
    subst (λ b. contains b boards.dashboards ≡ true) (assigned_board k board device e h) refl

dashboards-AreAssigned_example :
    ((made : Dashboard) (after : Boards ℕ)
      → create_dashboard "b1" "u1" (some " Lab ") 9 boards ≡ some (made, after)
      → AreAssigned after)
    × AreAssigned (update_dashboard "b1" (some (some "LAN")) none boards).1
    × AreAssigned (delete_dashboard "b1" boards)
    × ((k : String) (device : AssignedDevice ℕ)
        → lookup k boards.devices ≡ some device
        → (device.dashboard_id ≡ some "b1"
            → lookup k (delete_dashboard "b1" boards).devices
              ≡ some (record device { dashboard_id = none }))
          × (device.dashboard_id ≢ some "b1"
              → lookup k (delete_dashboard "b1" boards).devices ≡ some device))
    × ((k : String)
        → lookup k (delete_dashboard "b1" boards).dashboards
          ≡ (if "b1" == k then none else lookup k boards.dashboards))
dashboards-AreAssigned_example =
    dashboards-AreAssigned "b1" "u1" (some " Lab ") 9 (some (some "LAN")) none boards
      boards-AreAssigned

-- Two groups that contain each other, and one group of both.
abbrev payload : Dict Group
payload =
    ("all", record { hosts = "h0" ∷ []; children = "web" ∷ "db" ∷ [] })
    ∷ ("web", record { hosts = "h1" ∷ []; children = "db" ∷ [] })
    ∷ ("db", record { hosts = "h2" ∷ []; children = "web" ∷ [] })
    ∷ []

inventory_example :
    (groups : Dict (List String)) × (inventory_groups payload ≡ some groups)
    × ((k : String) → contains k payload ≡ true → k ≢ "_meta" → contains k groups ≡ true)
inventory_example = inventory_groups_lem payload

-- Of two groups that contain each other, the one that is visited first loses the other's hosts.
cyclic_run :
    inventory_groups payload
    ≡ some (
        ("db", "h2" ∷ "h1" ∷ [])
        ∷ ("web", "h1" ∷ [])
        ∷ ("all", "h0" ∷ "h1" ∷ "h2" ∷ "h2" ∷ "h1" ∷ [])
        ∷ [])
unfolding inventory_groups lookup home_lab_hq.Inventory.visit home_lab_hq.Dict.insert
cyclic_run = refl
