-- ===== src/Dashboards.antt =====
-- The dashboards of backend/dashboards.py and the devices that are assigned to them.
pub mod Assignment
use home_lab_hq.Base.{
  ℕ, String, Bool, true, false, Option, none, some, List, [], ◌∷◌, ◌==◌, ◌&&◌, ◌||◌, ltb,
  if◌then◌else◌, length, keep, map, strip, ℤ, pos, int_lt, int_eq,
}
use home_lab_hq.Dict.{Dict, lookup, insert, erase, values, keep_items, map_items}

pub record Dashboard : Type 0 where
  pub id : String
  pub owner_id : String
  pub name : String
  pub order : ℤ
  pub created : ℕ

-- A device: the dashboard it is assigned to, and the fields that dashboards.py never touches.
pub record AssignedDevice (R : Type 0) : Type 0 where
  pub dashboard_id : Option String
  pub rest : R

-- The part of the document that dashboards.py uses.
pub record Boards (R : Type 0) : Type 0 where
  pub dashboards : Dict Dashboard
  pub devices : Dict (AssignedDevice R)

abbrev owned_board : String → String → Dashboard → Bool
owned_board owner key d = d.owner_id == owner

-- The sort key `(order, created)` of a dashboard is before that of another.
key_before : Dashboard → Dashboard → Bool
key_before a b = int_lt a.order b.order || (int_eq a.order b.order && ltb a.created b.created)

-- A stable sort: an equal key does not pass.
insert_board : Dashboard → List Dashboard → List Dashboard
unfolding key_before
insert_board x [] = x ∷ []
insert_board x (y ∷ ys) =
    let rest = insert_board x ys in if key_before y x then y ∷ rest else x ∷ y ∷ ys

sort_boards : List Dashboard → List Dashboard
unfolding insert_board
sort_boards [] = []
sort_boards (x ∷ xs) = insert_board x (sort_boards xs)

-- A name that is left out, null or blank changes nothing.
renamed : Option (Option String) → Dashboard → Dashboard
renamed none d = d
renamed (some none) d = d
renamed (some (some given)) d = if strip given == "" then d else record d { name = strip given }

reordered : Option (Option ℤ) → Dashboard → Dashboard
reordered none d = d
reordered (some none) d = d
reordered (some (some order)) d = record d { order = order }

abbrev pub is_assigned_to : String → Option String → Bool
is_assigned_to id none = false
is_assigned_to id (some board) = board == id

module _ {R : Type 0} where
  unfoldable pub list_dashboards : String → Bool → Boards R → List Dashboard
  unfolding sort_boards
  list_dashboards owner is_admin doc =
      sort_boards (keep (λ d. is_admin || Dashboard.owner_id d == owner) (values doc.dashboards))

  -- `get`
  unfoldable pub get_dashboard : String → Boards R → Option Dashboard
  get_dashboard id doc = lookup id doc.dashboards

  -- The record that `create` stores; the new dashboard comes after the owner's others.
  new_board : String → String → String → ℕ → Boards R → Dashboard
  new_board id owner name now doc = record {
    id = id;
    owner_id = owner;
    name = name;
    order = pos (length (keep_items (owned_board owner) doc.dashboards));
    created = now;
  }

  -- `create`: none where it raises a `ValueError`.
  unfoldable pub create_dashboard :
      String → String → Option String → ℕ → Boards R → Option (Dashboard × Boards R)
  unfolding new_board
  create_dashboard id owner none now doc = none
  create_dashboard id owner (some given) now doc =
      let made = new_board id owner (strip given) now doc in
      if strip given == ""
      then none
      else some (made, record doc { dashboards = insert id made doc.dashboards })

  update_found :
      String
      → Option (Option String)
      → Option (Option ℤ)
      → Option Dashboard
      → Boards R
      → Option Dashboard × Boards R
  unfolding renamed reordered
  update_found id name order none doc = (none, doc)
  update_found id name order (some d) doc =
      let after = reordered order (renamed name d) in
      (some after, record doc { dashboards = insert id after doc.dashboards })

  -- `update`: none for a dashboard that is not there. The outer options say which arguments the
  -- call leaves out.
  unfoldable pub update_dashboard :
      String → Option (Option String) → Option (Option ℤ) → Boards R → Option Dashboard × Boards R
  unfolding update_found
  update_dashboard id name order doc = update_found id name order (lookup id doc.dashboards) doc

  unfoldable pub unassign : String → String → AssignedDevice R → AssignedDevice R
  unassign id key device =
      if is_assigned_to id device.dashboard_id
      then record device { dashboard_id = none }
      else device

  -- `delete`
  unfoldable pub delete_dashboard : String → Boards R → Boards R
  unfolding unassign
  delete_dashboard id doc = record {
    dashboards = erase id doc.dashboards;
    devices = map_items (unassign id) doc.devices;
  }
