-- ===== src/Vpn/Alerts.antt =====
-- `_update_alert_state` of backend/vpn_endpoint_service.py: a condition is announced at its second
-- poll in a row.
pub mod Streaks
use home_lab_hq.Base.{
  ℕ, ◌+◌, String, Bool, true, false, List, [], ◌∷◌, ◌++◌, ◌&&◌, ◌||◌, not, leb, if◌then◌else◌,
  or_default, is_in,
}
use home_lab_hq.Dict.{Dict, lookup, insert, erase, keys}

pub record AlertItem : Type 0 where
  pub count : ℕ
  pub sent : Bool

abbrev pub no_item : AlertItem
no_item = record { count = 0; sent = false }

-- The item of a condition that is there again.
abbrev pub counted : AlertItem → AlertItem
counted item = record { count = item.count + 1; sent = item.sent || leb 2 (item.count + 1) }

abbrev pub fires : AlertItem → Bool
fires item = leb 2 (item.count + 1) && not item.sent

-- One turn of the loop: the announced condition, and the state.
unfoldable pub alert_turn : List String → String → Dict AlertItem → List String × Dict AlertItem
alert_turn conditions name state =
    let item = or_default (lookup name state) no_item in
    if is_in name conditions
    then (if fires item then name ∷ [] else [], insert name (counted item) state)
    else ([], erase name state)

unfoldable pub alert_turns :
    List String → List String → Dict AlertItem → List String × Dict AlertItem
unfolding alert_turn
alert_turns conditions [] state = ([], state)
alert_turns conditions (name ∷ names) state =
    let (emitted, after) = alert_turn conditions name state in
    let (later, last) = alert_turns conditions names after in (emitted ++ later, last)

-- `set(xs)`, in one of its orders.
unfoldable pub set_of : List String → List String
set_of [] = []
set_of (x ∷ xs) = let rest = set_of xs in if is_in x xs then rest else x ∷ rest

-- The loop runs over a set of names; each turn concerns its own name only, so the order is free.
unfoldable pub update_alert_state : List String → Dict AlertItem → List String × Dict AlertItem
unfolding alert_turns set_of
update_alert_state conditions state =
    alert_turns conditions (set_of (keys state ++ conditions)) state
