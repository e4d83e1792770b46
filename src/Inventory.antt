-- ===== src/Inventory.antt =====
-- The groups of `_inventory_records` of backend/ansible_integration.py.
pub mod Termination
use home_lab_hq.Base.{
  ℕ, zero, suc, ◌+◌, String, Bool, true, false, Option, none, some, List, [], ◌∷◌, ◌++◌, ◌==◌, not,
  if◌then◌else◌, length, or_default, is_in, ◌>>=◌,
}
use home_lab_hq.Dict.{Dict, lookup, insert, keys}

-- `value.get("hosts") or []` and `value.get("children") or []` of a group, as texts.
pub record Group : Type 0 where
  pub hosts : List String
  pub children : List String

-- The groups of the answer, with the hosts of each, and beside them the hosts of the visited one.
abbrev pub Visited : Type 0
Visited = List String × Dict (List String)

abbrev no_group : Group
no_group = record { hosts = []; children = [] }

-- `direct.update(visit(child))` for every child.
unfoldable pub visit_children :
    (String → Dict (List String) → Option Visited)
    → List String
    → List String
    → Dict (List String)
    → Option Visited
visit_children visit_child [] direct groups = some (direct, groups)
visit_children visit_child (child ∷ children) direct groups = do
  (found, after) ← visit_child child groups
  visit_children visit_child children (direct ++ found) after

-- A set of hosts stands as a list, whose order and repeats mean nothing.
unfoldable pub record_group : String → Visited → Visited
record_group name (direct, groups) =
    (direct, if name == "_meta" then groups else insert name direct groups)

recorded : String → Option Visited → Option Visited
unfolding record_group
recorded name none = none
recorded name (some v) = some (record_group name v)

-- `visit`, with the recursion's depth as fuel.
unfoldable pub visit : Dict Group → ℕ → List String → String → Dict (List String) → Option Visited
unfolding visit_children recorded
visit payload zero visiting name groups = none
visit payload (suc n) visiting name groups =
    let value = or_default (lookup name payload) no_group in
    let below =
      visit_children (visit payload n (name ∷ visiting)) value.children value.hosts groups in
    if is_in name visiting then some ([], groups) else recorded name below

-- The loop over the payload.
unfoldable pub visit_all :
    Dict Group → ℕ → List String → Dict (List String) → Option (Dict (List String))
unfolding visit
visit_all payload n [] groups = some groups
visit_all payload n (name ∷ names) groups = do
  (direct, after) ← if name == "_meta" then some ([], groups) else visit payload n [] name groups
  visit_all payload n names after

-- The groups; the recursion is never deeper than the number of groups.
unfoldable pub inventory_groups : Dict Group → Option (Dict (List String))
unfolding visit_all
inventory_groups payload = visit_all payload (length payload + 2) (keys payload) []
