-- ===== src/Clients/Roster.antt =====
-- The records of the client roster of backend/client_roster.py, and what one scan does to one of
-- them. `N` is the type of a signal's numbers and `A` that of an alias.

pub mod Document
pub mod Edits
use Prim.Native.String.{◌++◌ as append}
use home_lab_hq.Base.{
  ℕ, ◌+◌, ◌*◌, String, Bool, true, false, Option, none, some, List, [], ◌∷◌, ◌++◌, ◌==◌, ◌&&◌, ◌||◌,
  not, map, any, keep, find_first, keep_last, ltb, leb, if◌then◌else◌, or_default, strip, upper,
  lower,
}
use home_lab_hq.Dict.{Dict, lookup, contains}
use home_lab_hq.Clients.Merge.{Sighting, Client, first_text}

pub data Presence : Type 0 where
  up down : Presence

pub record RosterEvent : Type 0 where
  pub ts : ℕ
  pub event : Presence
  pub via : String

-- A stored record. A missing text is empty, a missing flag false; every write that creates a
-- record sets `firstSeen` and `lastSeen`.
pub record RosterRecord (N A : Type 0) : Type 0 where
  pub first_seen : ℕ
  pub last_seen : ℕ
  pub online : Bool
  pub ip : String
  pub hostname : String
  pub vendor : String
  pub kind : String
  pub signal : Option N
  pub seen : List (Sighting N)
  pub via : String
  pub events : List RosterEvent
  pub name : String
  pub notes : String
  pub notify : Bool
  pub ignored : Bool
  pub away : Bool
  pub notified : Bool
  pub is_new : Bool
  pub nac_approved : Option Bool
  pub aliases : List A

-- What a device reported about its scan; `error` is empty where there was none.
pub record Source : Type 0 where
  pub device : String
  pub error : String

-- One entry of `presence_events`: the shown name, the MAC address, the event and its place.
pub record Notice : Type 0 where
  pub name : String
  pub mac : String
  pub event : Presence
  pub via : String

abbrev pub client_events_max : ℕ
client_events_max = 50

abbrev pub nac_new_window : ℕ
nac_new_window = 24 * 3600

unfoldable pub add_event : RosterEvent → List RosterEvent → List RosterEvent
add_event e events = keep_last client_events_max (events ++ e ∷ [])

unfoldable pub failed_sources : List Source → List String
failed_sources sources =
    map Source.device
      (keep (λ s. not (Source.error s == "") && not (Source.device s == "")) sources)

-- `x in texts`
abbrev pub elem : String → List String → Bool
elem x texts = any (λ t. t == x) texts

-- The arguments of `record_observations` that bear on the records, the clock, and the settings
-- CLIENT_OFFLINE_AFTER and CLIENT_RECORD_RETENTION_DAYS. `failed` is empty in a partial scan.
pub record Scan (A : Type 0) : Type 0 where
  pub now : ℕ
  pub offline_after : ℕ
  pub retention_days : ℕ
  pub full_scan : Bool
  pub failed : List String
  pub approved : Option (List String)
  pub aliases_by_mac : Dict (List A)

module _ {N : Type 0} where
  -- `_via`
  unfoldable pub via_of : List (Sighting N) → String
  via_of [] = ""
  via_of (s ∷ seen) =
      let shown = or_default (find_first (λ x. Sighting.kind x == "wifi") (s ∷ seen)) s in
      if not (shown.via == "") && not (shown.place == "")
      then append shown.via (append " · " shown.place)
      else first_text shown.via shown.place

  unfoldable pub same_identity : Sighting N → Sighting N → Bool
  same_identity s t = s.via == t.via && s.place == t.place && s.kind == t.kind

  -- Whether a failed source reported one of the sightings.
  unfoldable pub is_sheltered : List String → List (Sighting N) → Bool
  is_sheltered failed seen = any (λ s. elem (Sighting.via s) failed) seen

  -- The loop of `_merge_failed_source_sightings`; the identities are those of `merged`.
  unfoldable pub merge_sightings :
      List String → List (Sighting N) → List (Sighting N) → List (Sighting N)
  unfolding same_identity
  merge_sightings failed merged [] = merged
  merge_sightings failed merged (s ∷ previous) =
      merge_sightings failed
        (if elem s.via failed && not (any (same_identity s) merged)
          then merged ++ s ∷ []
          else merged)
        previous

module _ {N A : Type 0} where
  -- `{"firstSeen": now, "lastSeen": now}`
  unfoldable pub new_record : ℕ → RosterRecord N A
  new_record now = record {
    first_seen = now;
    last_seen = now;
    online = false;
    ip = "";
    hostname = "";
    vendor = "";
    kind = "";
    signal = none;
    seen = [];
    via = "";
    events = [];
    name = "";
    notes = "";
    notify = false;
    ignored = false;
    away = false;
    notified = false;
    is_new = false;
    nac_approved = none;
    aliases = [];
  }

  -- An ignored client that a scan did not see is away.
  unfoldable pub mark_away : Bool → RosterRecord N A → RosterRecord N A
  mark_away present r = record r { away = r.away || (r.ignored && not present) }

  -- `record.get("name") or record.get("hostname") or mac`
  unfoldable pub shown_name : String → RosterRecord N A → String
  shown_name mac r = first_text (first_text r.name r.hostname) mac

  -- `nacApproved` and `new`, where the allow-list was available.
  unfoldable pub reconcile : Scan A → String → RosterRecord N A → RosterRecord N A
  reconcile scan mac r = elim scan.approved [
    | none ↦ r
    | some approved ↦ record r {
      nac_approved = some (elem mac approved);
      is_new = not (elem mac approved) && ltb scan.now (r.first_seen + nac_new_window);
    }
  ]

  -- The body of the loop over the observed clients, on the client's record.
  unfoldable pub observe :
      Scan A → String → Client N → RosterRecord N A → RosterRecord N A × List Notice
  unfolding via_of is_sheltered merge_sightings reconcile add_event shown_name
  observe scan mac client r =
      let via = via_of client.seen in
      let returned = r.ignored && r.away in
      let preserved_wifi =
        any (λ s. Sighting.kind s == "wifi" && elem (Sighting.via s) scan.failed) r.seen in
      let refreshed = record r {
        ignored = r.ignored && not returned;
        away = r.away && not returned;
        events =
            if r.online
            then r.events
            else add_event (record { ts = scan.now; event = up; via = via }) r.events;
        online = true;
        last_seen = scan.now;
        ip = first_text client.ip r.ip;
        hostname = first_text client.hostname r.hostname;
        vendor = first_text client.vendor r.vendor;
        kind =
            if not (client.kind == "")
              && (scan.full_scan || r.kind == "")
              && not (preserved_wifi && not (client.kind == "wifi"))
            then client.kind
            else r.kind;
        signal = elim client.signal [ none ↦ r.signal | some s ↦ some s ];
        seen =
            if scan.full_scan || elim r.seen [ [] ↦ true | _ ∷ _ ↦ false ]
            then merge_sightings scan.failed client.seen r.seen
            else r.seen;
        via = first_text via r.via;
        aliases = or_default (lookup mac scan.aliases_by_mac) r.aliases;
      } in
      (
        reconcile scan mac refreshed,
        if not r.online && r.notify
            then record { name = shown_name mac r; mac = mac; event = up; via = via } ∷ []
            else [],
      )

  -- The loop that ends a full scan, on one record; `present` tells whether it was observed.
  unfoldable pub expire : Scan A → Bool → String → RosterRecord N A → RosterRecord N A × List Notice
  unfolding is_sheltered add_event shown_name
  expire scan present mac r =
      if scan.full_scan
        && not present
        && r.online
        && not (is_sheltered scan.failed r.seen)
        && leb (r.last_seen + scan.offline_after) scan.now
      then (
        record r {
          online = false;
          events = add_event (record { ts = scan.now; event = down; via = r.via }) r.events;
        },
        if r.notify
            then record { name = shown_name mac r; mac = mac; event = down; via = r.via } ∷ []
            else [],
      )
      else (r, [])

  -- Whether `_prune_stale_records` drops the record.
  unfoldable pub is_stale : Scan A → Bool → RosterRecord N A → Bool
  is_stale scan present r =
      ltb 0 scan.retention_days
      && not present
      && not r.online
      && ltb (r.last_seen + scan.retention_days * (24 * 3600)) scan.now
