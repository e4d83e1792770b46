-- ===== src/Poller/Append.antt =====
-- `_append_history` of backend/poller.py on the document of backend/history.py, and its `series`.
pub mod Bounds
use home_lab_hq.Base.{
  ℕ, ◌+◌, ◌-◌, ◌*◌, String, Bool, Option, none, some, List, [], ◌∷◌, ◌++◌, ltb, leb, if◌then◌else◌,
  length, keep_last, keep, ◌==◌, last?, or_default, nat_eq,
}
use home_lab_hq.Dict.{Dict, lookup, insert, upsert}
use home_lab_hq.Poller.Record.{InterfaceSample}

-- A series of `HistoryPoint.to_wire()` pairs: the timestamp and the value.
abbrev pub Series : Type 0 → Type 0
Series N = List (ℕ × N)

pub record InterfaceHistory (N : Type 0) : Type 0 where
  pub name : String
  pub rx : Series N
  pub tx : Series N

-- The history file of one device, `_DEFAULT_DOC` filled in.
pub record HistoryDoc (N : Type 0) : Type 0 where
  pub history : Dict (Series N)
  pub if_history : Dict (InterfaceHistory N)
  pub history_long : Dict (Series N)
  pub online : Series ℕ

abbrev pub history_max : ℕ
history_max = 120

abbrev pub long_interval : ℕ
long_interval = 300

abbrev pub long_max : ℕ
long_max = 2016

abbrev pub online_max : ℕ
online_max = 1440

-- `arr.append(point)`, then `del arr[:-limit]` if the list is longer than `limit`.
unfoldable pub append_capped : {A : Type 0} → ℕ → A → List A → List A
append_capped limit point arr = keep_last limit (arr ++ point ∷ [])

-- `RANGE_WINDOWS.get(rng or "")`
unfoldable pub range_window : String → Option ℕ
range_window rng =
    if rng == "24h" then some (24 * 3600) else if rng == "7d" then some (7 * 24 * 3600) else none

module _ {N : Type 0} where
  -- The long-range series takes a point only `long_interval` after its last one.
  unfoldable pub append_long : ℕ → N → Series N → Series N
  append_long ts v larr = elim (last? larr) [
    | none ↦ append_capped long_max (ts, v) larr
    | some (t, _) ↦ if leb long_interval (ts - t) then append_capped long_max (ts, v) larr else larr
  ]

  -- The loop over the samples, on `history` and `historyLong`.
  unfoldable pub append_samples :
      ℕ → Dict N → Dict (Series N) × Dict (Series N) → Dict (Series N) × Dict (Series N)
  append_samples ts [] acc = acc
  append_samples ts ((k, v) ∷ samples) (hist, long) =
      append_samples ts samples
        (upsert k [] (append_capped history_max (ts, v)) hist, upsert k [] (append_long ts v) long)

  -- A counter that is present is appended to its series.
  unfoldable pub append_counter : ℕ → Option N → Series N → Series N
  append_counter ts none arr = arr
  append_counter ts (some v) arr = append_capped history_max (ts, v) arr

  unfoldable pub append_interface : ℕ → InterfaceSample N → InterfaceHistory N → InterfaceHistory N
  append_interface ts entry rec = record {
    name = entry.name;
    rx = append_counter ts entry.rx rec.rx;
    tx = append_counter ts entry.tx rec.tx;
  }

  -- The loop over the interface samples.
  unfoldable pub append_interfaces :
      ℕ → Dict (InterfaceSample N) → Dict (InterfaceHistory N) → Dict (InterfaceHistory N)
  append_interfaces ts [] ifh = ifh
  append_interfaces ts ((dvc, entry) ∷ rest) ifh =
      append_interfaces ts rest (
        upsert dvc (record { name = entry.name; rx = []; tx = [] }) (append_interface ts entry) ifh)

  -- The mutator of `_append_history`.
  unfoldable pub append_history :
      ℕ → Dict N → Dict (InterfaceSample N) → Bool → HistoryDoc N → HistoryDoc N
  unfolding append_samples append_interfaces
  append_history ts samples if_samples online doc =
      let (hist, long) = append_samples ts samples (doc.history, doc.history_long) in
      record {
        history = hist;
        if_history = append_interfaces ts if_samples doc.if_history;
        history_long = long;
        online = append_capped online_max (ts, if online then 1 else 0) doc.online;
      }

  -- `history.series` at the moment `now`, which is the clock rounded up to a whole second.
  unfoldable pub series : HistoryDoc N → String → String → ℕ → Series N
  series doc key rng now = elim (range_window rng) [
    | none ↦ or_default (lookup key doc.history) []
    | some window ↦ keep (λ p. leb now (p.0 + window)) (or_default (lookup key doc.history_long) [])
  ]
