-- ===== src/Tests/Poller.antt =====
-- Concrete runs of the poller's model.
use home_lab_hq.Base.{
  ℕ, String, ◌≡◌, refl, true, false, none, some, [], ◌∷◌, arith, ltb, last?, eq_iff,
}
use home_lab_hq.Dict.{Dict, lookup, keep_items}
use home_lab_hq.Dict.Laws.{IsDict}
use home_lab_hq.Domain.{JsonValue, number, text, DevicePollResult, no_state, AlertRule, Device}
use home_lab_hq.Poller.Alerts.{
  rule_id, is_breached, is_live, apply_verdict, eval_rules, eval_alerts,
}
use home_lab_hq.Poller.Alerts.Edges.{edges, IsSettled, stored, Distinct}
use home_lab_hq.Poller.Alerts.Evaluation.{
  eval_alerts-edges, eval_alerts-IsSettled, eval_alerts_quiet,
}
use home_lab_hq.Poller.Record.{Settings, prev_state, went_offline, went_online}
use home_lab_hq.Poller.Record.Debounce.{
  Poll, trailing_misses, polled, emitted, polled_debounced, emitted_lem,
}
use home_lab_hq.Poller.Record.Payload.{polled_keeps_payload}
use home_lab_hq.Poller.Append.{HistoryDoc, append_history, series, append_capped}
use home_lab_hq.Poller.Append.Bounds.{IsBounded, append_history-IsBounded}

abbrev settings : Settings ℕ
settings = record { less = ltb; utc_at = λ t. "now"; offline_after = 2 }

abbrev rule : AlertRule ℕ
rule = record { key = "cpu"; op = "above"; value_text = "90"; threshold = some 90; label = none }

abbrev other_rule : AlertRule ℕ
other_rule = record {
  key = "disk";
  op = "below";
  value_text = "5";
  threshold = some 5;
  label = none;
}

abbrev switch : Device ℕ
switch = record {
  id = "d1";
  driver_id = "openwrt.ubus";
  state = none;
  alerts = rule ∷ other_rule ∷ [];
  alert_state = some (("cpu:above:90", true) ∷ []);
}

abbrev readings : Dict (JsonValue ℕ)
readings = ("cpu", number 40) ∷ ("disk", number 9) ∷ ("model", text "x") ∷ []

abbrev success : DevicePollResult ℕ
success = record { values = readings; errors = []; interfaces = []; elapsed = some 12 }

abbrev failure : DevicePollResult ℕ
failure = record {
  values = [];
  errors = ("_connection", "refused") ∷ [];
  interfaces = [];
  elapsed = none;
}

abbrev up : Poll ℕ
up = record { online = true; result = success; ts = 60 }

abbrev down : Poll ℕ
down = record { online = false; result = failure; ts = 120 }

distinct : Distinct switch.alerts
unfolding rule_id
distinct = ((λ e. differ e, tt), (tt, tt))
  where
    differ : ◌≡◌ {A = String} "disk:below:5" "cpu:above:90" → ⊥
    differ e = ground (arith, eq_iff "disk:below:5" "cpu:above:90")

stored-IsDict : IsDict (stored switch)
unfolding lookup
stored-IsDict = (refl, tt)

-- The first verdict of this rule is an event although the value is within its limit.
first_run :
    (eval_alerts ltb (record switch { alerts = other_rule ∷ []; alert_state = none }) readings).1
    ≡ record { rule = other_rule; current = 9; breached = false } ∷ []
unfolding eval_alerts eval_rules apply_verdict is_live is_breached lookup keep_items
    home_lab_hq.Poller.Alerts.verdict
first_run = refl

eval_alerts-edges_example :
    (eval_alerts ltb switch readings).1 ≡ edges ltb readings (stored switch) switch.alerts
eval_alerts-edges_example = eval_alerts-edges ltb readings switch distinct

eval_alerts-IsSettled_example :
    IsSettled ltb readings
      (stored switch)
      (stored (eval_alerts ltb switch readings).0)
      switch.alerts
    × IsDict (stored (eval_alerts ltb switch readings).0)
eval_alerts-IsSettled_example = eval_alerts-IsSettled ltb readings switch distinct stored-IsDict

eval_alerts_quiet_example : (eval_alerts ltb (eval_alerts ltb switch readings).0 readings).1 ≡ []
eval_alerts_quiet_example = eval_alerts_quiet ltb readings switch distinct stored-IsDict

polled_debounced_example :
    let state = prev_state (polled settings switch (down ∷ down ∷ up ∷ [])) in
    (state.miss ≡ some 2) × (state.confirmed_online ≡ some false)
unfolding trailing_misses
polled_debounced_example = polled_debounced settings switch down (down ∷ up ∷ []) refl (omega arith)

emitted_example :
    (emitted settings switch down [] ≡ none)
    × (emitted settings switch down (down ∷ up ∷ []) ≡ some went_offline)
unfolding trailing_misses
emitted_example = emitted_lem settings switch down down (up ∷ []) refl (omega arith)

abbrev seen : Device ℕ
seen = record switch {
  state =
      some (record (no_state) {
        values = some readings;
        source_checked_at = some "t0";
        since = some 7;
      });
}

polled_keeps_payload_example :
    let after = prev_state (polled settings seen (down ∷ down ∷ [])) in
    (after.values ≡ some readings) × (after.source_checked_at ≡ some "t0")
polled_keeps_payload_example =
    polled_keeps_payload settings seen readings "t0" (down ∷ down ∷ [])
      (λ e. ground (arith, eq_iff "t0" "")) refl refl (refl, (refl, tt))

abbrev empty_history : HistoryDoc ℕ
empty_history = record { history = []; if_history = []; history_long = []; online = [] }

empty_history-IsBounded : IsBounded empty_history
unfolding lookup
empty_history-IsBounded = record {
  recent = λ k v e. cc;
  long = λ k v e. cc;
  interfaces = λ k v e. cc;
  online = omega arith;
}

append_history-IsBounded_example :
    let after = append_history 60 (("cpu", 40) ∷ []) [] false empty_history in
    IsBounded after × (last? after.online ≡ some (60, 0))
append_history-IsBounded_example =
    append_history-IsBounded 60 (("cpu", 40) ∷ []) [] false empty_history empty_history-IsBounded

-- Two failures in a row, and the recovery.
outage :
    (emitted settings switch up (down ∷ down ∷ up ∷ []) ≡ some went_online)
    × (emitted settings switch down (up ∷ []) ≡ none)
unfolding trailing_misses
outage = (
  (emitted_lem settings switch up down (down ∷ up ∷ []) refl (omega arith)).1,
  (emitted_lem settings switch down up [] refl (omega arith)).1,
)

-- The 24 hour range starts at the cut-off.
windowed :
    series
      (record empty_history { history_long = ("cpu", (99, 1) ∷ (100, 2) ∷ []) ∷ [] })
      "cpu"
      "24h"
      86_500
    ≡ (100, 2) ∷ []
unfolding series home_lab_hq.Poller.Append.range_window lookup
windowed = refl
