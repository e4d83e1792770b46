-- ===== src/Poller/Record.antt =====
-- `_apply_record` and `_record_device_metric` of backend/poller.py: the debounced reachability
-- of a device, and the samples that go to its history.
pub mod Debounce
pub mod Payload
use home_lab_hq.Base.{
  ℕ, suc, ◌+◌, ◌*◌, String, Bool, true, false, Option, none, some, List, [], ◌∷◌, ◌==◌, ◌&&◌, not,
  leb, nat_eq, bool_eq, is_some, or_default, if◌then◌else◌,
}
use home_lab_hq.Dict.{Dict, insert}
use home_lab_hq.Domain.{
  JsonValue, number, boolean, text, nested, null, InterfaceRow, DevicePollResult, DeviceState,
  no_state, Device,
}
use home_lab_hq.Poller.Alerts.{AlertEvent, eval_alerts, numeric}

-- What the environment fixes: the order of Python's numbers, the rendering of a timestamp by
-- `_utc_at`, and OFFLINE_AFTER.
pub record Settings (N : Type 0) : Type 0 where
  pub less : N → N → Bool
  pub utc_at : ℕ → String
  pub offline_after : ℕ

pub data Transition : Type 0 where
  went_online went_offline : Transition

-- One entry of `if_samples`; a counter that is no number is absent.
pub record InterfaceSample (N : Type 0) : Type 0 where
  pub name : String
  pub rx : Option N
  pub tx : Option N

-- The dictionary that `_apply_record` returns.
pub record Captured (N : Type 0) : Type 0 where
  pub dev : Device N
  pub online : Bool
  pub miss : ℕ
  pub transition : Option Transition
  pub alert_events : List (AlertEvent N)
  pub samples : Dict N
  pub if_samples : Dict (InterfaceSample N)

-- A truthy text, `if s:`.
abbrev pub truthy : Option String → Option String
truthy none = none
truthy (some s) = if s == "" then none else some s

-- A truthy timestamp: Python takes 0 for missing.
abbrev pub truthy_ts : Option ℕ → Option ℕ
truthy_ts none = none
truthy_ts (some t) = if nat_eq t 0 then none else some t

abbrev pub is_true : Option Bool → Bool
is_true none = false
is_true (some b) = b

-- `prev_confirmed is not None and prev_confirmed != confirmed`
unfoldable pub changed : Option Bool → Bool → Bool
changed none confirmed = false
changed (some before) confirmed = not (bool_eq before confirmed)

module _ {N : Type 0} where
  abbrev pub prev_state : Device N → DeviceState N
  prev_state dev = or_default dev.state no_state

  -- `driverId in _ICMP_MONITORED_DRIVERS`
  abbrev pub availability_only : Device N → Bool
  availability_only dev = dev.driver_id == "keeplink.switch"

  -- `miss = 0 if online else prev.get("miss", 0) + 1`
  unfoldable pub next_miss : Bool → DeviceState N → ℕ
  next_miss online prev = if online then 0 else or_default prev.miss 0 + 1

  -- The debounced state: offline only after `limit` misses in a row.
  unfoldable pub next_confirmed : ℕ → Bool → DeviceState N → Bool
  unfolding next_miss
  next_confirmed limit online prev =
      if online
      then true
      else if leb limit (next_miss online prev)
      then false
      else or_default prev.confirmed_online true

  unfoldable pub next_since : ℕ → Bool → DeviceState N → ℕ
  unfolding changed
  next_since ts confirmed prev =
      if changed prev.confirmed_online confirmed then ts else or_default (truthy_ts prev.since) ts

  unfoldable pub next_transition : Bool → DeviceState N → Option Transition
  unfolding changed
  next_transition confirmed prev =
      if changed prev.confirmed_online confirmed
      then some (if confirmed then went_online else went_offline)
      else none

  -- `sourceCheckedAt` where the rich payload was not refreshed.
  unfoldable pub carried_source : (ℕ → String) → DeviceState N → Option String
  carried_source utc_at prev = elim prev.source_checked_at [
    | some t ↦ some t
    | none ↦
        if is_true prev.online
        then elim (truthy_ts prev.ts) [ none ↦ none | some t ↦ some (utc_at t) ]
        else none
  ]

  -- The new `state` of the device.
  unfoldable pub next_state : Settings N → Device N → Bool → DevicePollResult N → ℕ → DeviceState N
  unfolding next_miss next_confirmed next_since carried_source
  next_state env dev online result ts =
      let prev = prev_state dev in
      let confirmed = next_confirmed env.offline_after online prev in
      let fresh = online && not (availability_only dev) in
      let now = env.utc_at ts in
      record {
        online = some online;
        confirmed_online = some confirmed;
        miss = some (next_miss online prev);
        values = some (if fresh then result.values else or_default prev.values []);
        errors = result.errors;
        ts = some ts;
        since = some (next_since ts confirmed prev);
        checked_at = some now;
        reachability_checked_at =
            truthy
              (if availability_only dev && online then some now else prev.reachability_checked_at);
        source_checked_at = truthy (if fresh then some now else carried_source env.utc_at prev);
      }

  -- The readings that are numbers and no booleans.
  unfoldable pub numeric_samples : Dict (JsonValue N) → Dict N
  numeric_samples [] = []
  numeric_samples ((k, number x) ∷ d) = (k, x) ∷ numeric_samples d
  numeric_samples ((k, _) ∷ d) = numeric_samples d

  -- The loop over `result.interfaces`; a row without a device is skipped.
  unfoldable pub interface_samples :
      List (InterfaceRow N) → Dict (InterfaceSample N) → Dict (InterfaceSample N)
  interface_samples [] out = out
  interface_samples (row ∷ rows) out = interface_samples rows (elim (truthy row.device) [
    | none ↦ out
    | some dvc ↦
        insert dvc
          (record {
            name = or_default (truthy row.name) dvc;
            rx = numeric (some row.rx);
            tx = numeric (some row.tx);
          })
          out
  ])

  -- `_apply_record`
  unfoldable pub apply_record :
      Settings N → Device N → Bool → DevicePollResult N → ℕ → Device N × Captured N
  unfolding next_state numeric_samples interface_samples next_transition
  apply_record env dev online result ts =
      let prev = prev_state dev in
      let state = next_state env dev online result ts in
      let updated : Device N = record dev { state = some state } in
      let alerted : Device N × List (AlertEvent N) =
        if availability_only dev
        then (updated, [])
        else eval_alerts env.less updated result.values in
      (
        alerted.0,
        record {
          dev = alerted.0;
          online = online;
          miss = next_miss online prev;
          transition = next_transition (next_confirmed env.offline_after online prev) prev;
          alert_events = alerted.1;
          samples = if availability_only dev then [] else numeric_samples result.values;
          if_samples = interface_samples result.interfaces [];
        },
      )

-- The process-local metric of one device.
pub record DeviceMetric : Type 0 where
  pub last_poll_at : ℕ
  pub last_duration_ms : ℕ
  pub consecutive_failures : ℕ
  pub last_success_at : Option ℕ
  pub last_failure_at : Option ℕ

module _ {N : Type 0} where
  -- `_record_device_metric`, but for the text of the last error.
  unfoldable pub device_metric : Option DeviceMetric → Bool → DevicePollResult N → ℕ → DeviceMetric
  device_metric previous online result now = record {
    last_poll_at = now;
    last_duration_ms = or_default result.elapsed 0 * 100;
    consecutive_failures =
        if online then 0 else elim previous [ none ↦ 0 | some p ↦ p.consecutive_failures ] + 1;
    last_success_at = if online then some now else none;
    last_failure_at = if online then none else some now;
  }
