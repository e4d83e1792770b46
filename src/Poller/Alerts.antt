-- ===== src/Poller/Alerts.antt =====
-- `_rule_id` and `_eval_alerts` of backend/poller.py: threshold rules, edge-triggered.
pub mod Edges
pub mod Evaluation
use home_lab_hq.Base.{
  ℕ, String, Bool, true, false, Option, none, some, List, [], ◌∷◌, ◌++◌, ◌==◌, ◌||◌, bool_eq, any,
  map, if◌then◌else◌, or_default,
}
use home_lab_hq.Dict.{Dict, lookup, insert, keep_items}
use home_lab_hq.Domain.{JsonValue, number, boolean, text, nested, null, AlertRule, Device}
use Prim.Native.String.{◌++◌ as append}

-- `(rule, current, breached)`
pub record AlertEvent (N : Type 0) : Type 0 where
  pub rule : AlertRule N
  pub current : N
  pub breached : Bool

-- `state.get(rid) != breached`
abbrev pub differs : Option Bool → Bool → Bool
differs none b = true
differs (some a) b = if bool_eq a b then false else true

module _ {N : Type 0} where
  -- `_rule_id`
  unfoldable pub rule_id : AlertRule N → String
  rule_id r = append r.key (append ":" (append r.op (append ":" r.value_text)))

  -- The number that a rule is held against, if its sensor has one.
  abbrev pub numeric : Option (JsonValue N) → Option N
  numeric (some (number x)) = some x
  numeric (some (boolean _)) = none
  numeric (some (text _)) = none
  numeric (some (nested _)) = none
  numeric (some null) = none
  numeric none = none

module _ {N : Type 0} where
  -- What one rule does to the alert state and the events, once its verdict is known.
  unfoldable pub apply_verdict :
      AlertRule N
      → Option (N × Bool)
      → Dict Bool × List (AlertEvent N)
      → Dict Bool × List (AlertEvent N)
  apply_verdict r none acc = acc
  apply_verdict r (some (cur, breached)) (state, events) =
      if differs (lookup (rule_id r) state) breached
      then (
        insert (rule_id r) breached state,
        events ++ record { rule = r; current = cur; breached = breached } ∷ [],
      )
      else (state, events)

  -- `rid in live_ids`
  unfoldable pub is_live : List (AlertRule N) → String → Bool
  is_live rules rid = any (λ r. rule_id r == rid) rules

module _ {N : Type 0} (less : N → N → Bool) where
  -- `cur > thr if op == "above" else cur < thr`
  unfoldable pub is_breached : String → N → N → Bool
  is_breached op cur thr = if op == "above" then less thr cur else less cur thr

  -- The current value and the verdict of a rule; none where the loop runs `continue`.
  unfoldable pub verdict : Dict (JsonValue N) → AlertRule N → Option (N × Bool)
  verdict values r = elim (numeric (lookup r.key values)) [
    | none ↦ none
    | some cur ↦ elim r.threshold [ none ↦ none | some thr ↦ some (cur, is_breached r.op cur thr) ]
  ]

  -- The loop over the rules.
  unfoldable pub eval_rules :
      Dict (JsonValue N)
      → List (AlertRule N)
      → Dict Bool × List (AlertEvent N)
      → Dict Bool × List (AlertEvent N)
  eval_rules values [] acc = acc
  eval_rules values (r ∷ rs) acc = eval_rules values rs (apply_verdict r (verdict values r) acc)

  -- `_eval_alerts`: the device with its new alert state, and the events to notify.
  unfoldable pub eval_alerts : Device N → Dict (JsonValue N) → Device N × List (AlertEvent N)
  eval_alerts dev values = elim dev.alerts [
    | [] ↦ (record dev { alert_state = none }, [])
    | r ∷ rs ↦
        let (state, events) = eval_rules values (r ∷ rs) (or_default dev.alert_state [], []) in
        (
          record dev { alert_state = some (keep_items (λ rid _. is_live (r ∷ rs) rid) state) },
          events,
        )
  ]
