-- ===== src/Domain.antt =====
-- The typed values of backend/domain.py that pass between a driver, the poller and the store.
-- `N` is the type of Python's numbers in a sensor reading; the code only compares and copies them.
use home_lab_hq.Base.{ℕ, String, Bool, Option, List, none, []}
use home_lab_hq.Dict.{Dict}

-- One JSON value of a poll result. A list or an object is only copied, so it stands as its text.
pub data JsonValue (N : Type 0) : Type 0 where
  number : N → JsonValue N
  boolean : Bool → JsonValue N
  text : String → JsonValue N
  nested : String → JsonValue N
  null : JsonValue N

-- One row of `interfaces`: `f.get("device")`, `f.get("name")`, `f.get("rx")`, `f.get("tx")`.
pub record InterfaceRow (N : Type 0) : Type 0 where
  pub device : Option String
  pub name : Option String
  pub rx : JsonValue N
  pub tx : JsonValue N

-- `DevicePollResult`. `elapsed` is in tenths of a second, the precision that the poller keeps.
pub record DevicePollResult (N : Type 0) : Type 0 where
  pub values : Dict (JsonValue N)
  pub errors : Dict String
  pub interfaces : List (InterfaceRow N)
  pub elapsed : Option ℕ

-- `DeviceState.to_dict()` with the keys that the poller adds. Each field is what `prev.get(...)`
-- answers, so a missing key is `none`.
pub record DeviceState (N : Type 0) : Type 0 where
  pub online : Option Bool
  pub confirmed_online : Option Bool
  pub miss : Option ℕ
  pub values : Option (Dict (JsonValue N))
  pub errors : Dict String
  pub ts : Option ℕ
  pub since : Option ℕ
  pub checked_at : Option String
  pub reachability_checked_at : Option String
  pub source_checked_at : Option String

-- The empty dictionary that stands for a missing state.
abbrev pub no_state : {N : Type 0} → DeviceState N
no_state = record {
  online = none;
  confirmed_online = none;
  miss = none;
  values = none;
  errors = [];
  ts = none;
  since = none;
  checked_at = none;
  reachability_checked_at = none;
  source_checked_at = none;
}

-- An alert rule as `_clean_alerts` stores it: `str(value)` and `float(value)`, none if that raises.
pub record AlertRule (N : Type 0) : Type 0 where
  pub key : String
  pub op : String
  pub value_text : String
  pub threshold : Option N
  pub label : Option String

-- The fields of a device record that the poller reads and writes.
pub record Device (N : Type 0) : Type 0 where
  pub id : String
  pub driver_id : String
  pub state : Option (DeviceState N)
  pub alerts : List (AlertRule N)
  pub alert_state : Option (Dict Bool)
