-- ===== src/Clients/Roster/Document.antt =====
-- The operations of backend/client_roster.py on the rosters and the scan results of all owners.
-- Each is one step, as it is inside one `store.update`, but for `record_nac_observations`, which
-- is one load and two calls of `store.update` and is taken as one step here.
pub mod Pointwise
pub mod Presence
pub mod Retention
pub mod History
pub mod Lifecycle
use Prim.Native.Char.{Char, code}
use home_lab_hq.Base.{
  ℕ, zero, suc, ◌+◌, String, Bool, true, false, Option, none, some, List, [], ◌∷◌, ◌++◌, ◌==◌, ◌&&◌,
  ◌||◌, not, all, any, map, length, keep, ltb, leb, nat_eq, is_some, if◌then◌else◌, or_default,
  strip, upper,
}
use home_lab_hq.Dict.{Dict, lookup, contains, insert, erase, keep_items, map_items, upsert, values}
use home_lab_hq.Errors.{Outcome, ok, error, validation}
use home_lab_hq.Clients.Merge.{Client, first_text}
use home_lab_hq.Clients.Roster.{
  RosterRecord, RosterEvent, Scan, Source, Notice, new_record, mark_away, observe, reconcile,
  expire, is_stale, failed_sources, elem,
}

-- `doc["meta"]["clientDiscovery"][owner]`; `C` is the type of a NAC status.
pub record Discovery (C : Type 0) : Type 0 where
  pub sources : Option (List Source)
  pub updated_at : Option ℕ
  pub nac : Option C

pub record Rosters (N A C : Type 0) : Type 0 where
  pub rosters : Dict (Dict (RosterRecord N A))
  pub discovery : Dict (Discovery C)

-- What `record_observations` is called with, the clock and the settings.
pub record Observed (A C : Type 0) : Type 0 where
  pub now : ℕ
  pub offline_after : ℕ
  pub retention_days : ℕ
  pub full_scan : Bool
  pub sources : Option (List Source)
  pub approved : Option (List String)
  pub aliases_by_mac : Dict (List A)
  pub nac : Option C

unfoldable pub scan_of : {A C : Type 0} → Observed A C → Scan A
scan_of o = record {
  now = o.now;
  offline_after = o.offline_after;
  retention_days = o.retention_days;
  full_scan = o.full_scan;
  failed = if o.full_scan then failed_sources (or_default o.sources []) else [];
  approved = o.approved;
  aliases_by_mac = o.aliases_by_mac;
}

-- `{client["mac"].upper(): client for client in clients if client.get("mac")}`
unfoldable pub normalized_from : {N : Type 0} → List (Client N) → Dict (Client N) → Dict (Client N)
normalized_from [] d = d
normalized_from (c ∷ clients) d =
    normalized_from clients (if c.mac == "" then d else insert (upper c.mac) c d)

unfoldable pub normalized : {N : Type 0} → List (Client N) → Dict (Client N)
unfolding normalized_from
normalized clients = normalized_from clients []

module _ {N A : Type 0} where
  -- The loop over the observed clients.
  unfoldable pub observe_all :
      Scan A
      → Dict (Client N)
      → Dict (RosterRecord N A) × List Notice
      → Dict (RosterRecord N A) × List Notice
  observe_all scan [] acc = acc
  observe_all scan ((mac, client) ∷ observed) (tracked, notices) =
      let (r, notice) =
        observe scan mac client (or_default (lookup mac tracked) (new_record scan.now)) in
      observe_all scan observed (insert mac r tracked, notices ++ notice)

  -- The loop that ends a full scan: the records, and the notices in their order.
  unfoldable pub expire_all :
      Scan A → Dict (Client N) → Dict (RosterRecord N A) → Dict (RosterRecord N A) × List Notice
  expire_all scan observed [] = ([], [])
  expire_all scan observed ((mac, r) ∷ tracked) =
      let (rest, later) = expire_all scan observed tracked in
      let (after, notice) = expire scan (contains mac observed) mac r in
      ((mac, after) ∷ rest, notice ++ later)

  -- The mutator of `record_observations`, on the roster of its owner.
  unfoldable pub scan_roster :
      Scan A → Dict (Client N) → Dict (RosterRecord N A) → Dict (RosterRecord N A) × List Notice
  unfolding observe_all expire_all
  scan_roster scan observed tracked =
      let marked = map_items (λ mac. mark_away (contains mac observed)) tracked in
      let (seen, arrivals) = observe_all scan observed (marked, []) in
      let reconciled = map_items (reconcile scan) seen in
      let (expired, departures) = expire_all scan observed reconciled in
      (
        keep_items (λ mac r. not (is_stale scan (contains mac observed) r)) expired,
        arrivals ++ departures,
      )

module _ {N A C : Type 0} where
  -- `roster(doc, owner)`
  unfoldable pub roster : String → Rosters N A C → Dict (RosterRecord N A)
  roster owner doc = or_default (lookup owner doc.rosters) []

  -- The document after the mutator of `record_observations`, and `presence_events`.
  unfoldable pub record_observations :
      String → List (Client N) → Observed A C → Rosters N A C → Rosters N A C × List Notice
  unfolding scan_of normalized scan_roster roster
  record_observations owner clients o doc =
      let (tracked, notices) = scan_roster (scan_of o) (normalized clients) (roster owner doc) in
      (
        record {
          rosters = insert owner tracked doc.rosters;
          discovery =
              upsert owner (record { sources = none; updated_at = none; nac = none })
                (λ s. record {
                  sources = elim o.sources [ none ↦ s.sources | some l ↦ some l ];
                  updated_at = some o.now;
                  nac = elim o.nac [ none ↦ s.nac | some x ↦ some x ];
                })
                doc.discovery;
        },
        notices,
      )
