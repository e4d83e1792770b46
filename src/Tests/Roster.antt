-- ===== src/Tests/Roster.antt =====
-- Concrete runs of the model of the client roster.
use home_lab_hq.Base.{
  ℕ, ◌+◌, ◌*◌, ◌≤◌, ◌<◌, String, ◌≡◌, ◌≢◌, refl, Bool, true, false, Option, none, some, List, [],
  ◌∷◌, arith, eq_iff, length, ◌&&◌, ◌||◌, not, if◌then◌else◌, map,
}
use home_lab_hq.Dict.{Dict, lookup, contains}
use home_lab_hq.Dict.Laws.{IsDict}
use home_lab_hq.Errors.{ok}
use home_lab_hq.Clients.Merge.{Client}
use home_lab_hq.Clients.Roster.{RosterRecord, Scan, new_record, elem, shown_name}
use home_lab_hq.Clients.Roster.Document.{
  Rosters, Observed, scan_roster, roster, record_observations,
}
use home_lab_hq.Clients.Roster.Document.Presence.{is_online, times_out, online-scan_roster}
use home_lab_hq.Clients.Roster.Document.Retention.{IsSameClient, scan_roster_keeps}
use home_lab_hq.Clients.Roster.Document.Lifecycle.{HasFlags, scan_roster-HasFlags}
use home_lab_hq.Clients.Roster.Edits.{
  clean_mac, forget, ignore, set_metadata, is_mac, record_nac_observations,
}
use home_lab_hq.Clients.Roster.Edits.Effects.{lookup-other_owner}
use home_lab_hq.Clients.Roster.Edits.Reachable.{
  AreRosters, start, then_step, observes, Reaches-AreRosters,
}

abbrev laptop : String
laptop = "AA:BB:CC:DD:EE:01"

abbrev phone : String
phone = "AA:BB:CC:DD:EE:02"

abbrev laptop_record : RosterRecord ℕ String
laptop_record = record {
  first_seen = 100;
  last_seen = 1000;
  online = true;
  ip = "10.0.0.5";
  hostname = "laptop";
  vendor = "";
  kind = "wifi";
  signal = some 60;
  seen = record { via = "Router"; place = "ap"; kind = "wifi"; signal = some 60 } ∷ [];
  via = "Router · ap";
  events = [];
  name = "";
  notes = "";
  notify = true;
  ignored = true;
  away = true;
  notified = false;
  is_new = false;
  nac_approved = some true;
  aliases = [];
}

abbrev tracked : Dict (RosterRecord ℕ String)
tracked = (laptop, laptop_record) ∷ []

abbrev phone_client : Client ℕ
phone_client = record {
  mac = phone;
  ip = "10.0.0.6";
  hostname = "phone";
  vendor = "";
  kind = "wired";
  signal = none;
  seen = [];
}

abbrev observed : Dict (Client ℕ)
observed = (phone, phone_client) ∷ []

abbrev full : Scan String
full = record {
  now = 2000;
  offline_after = 600;
  retention_days = 180;
  full_scan = true;
  failed = "Switch" ∷ [];
  approved = some (phone ∷ []);
  aliases_by_mac = [];
}

tracked-IsDict : IsDict tracked
unfolding lookup
tracked-IsDict = (refl, tt)

observed-IsDict : IsDict observed
unfolding lookup
observed-IsDict = (refl, tt)

online-scan_roster_example :
    is_online (lookup laptop (scan_roster full observed tracked).0)
    ≡ contains laptop observed
      || (is_online (lookup laptop tracked) && not (times_out full (lookup laptop tracked)))
online-scan_roster_example =
    online-scan_roster full laptop observed tracked observed-IsDict tracked-IsDict

scan_roster_keeps_example :
    let after = lookup laptop (scan_roster full observed tracked).0 in
    (after ≡ none
      → (contains laptop observed ≡ false)
        × (0 < 180)
        × ((true && not (times_out full (some laptop_record))) ≡ false)
        × (1000 + 180 * (24 * 3600) < 2000))
    × ((s : RosterRecord ℕ String) → after ≡ some s → IsSameClient laptop_record s)
scan_roster_keeps_example =
    scan_roster_keeps full laptop observed tracked laptop_record observed-IsDict tracked-IsDict
      (unfold lookup in refl)

abbrev back : Dict (Client ℕ)
back = (laptop, record phone_client { mac = laptop }) ∷ []

back-IsDict : IsDict back
unfolding lookup
back-IsDict = (refl, tt)

abbrev nothing_new : Scan String
nothing_new = record full { approved = none }

abbrev seen_again : RosterRecord ℕ String
seen_again = record laptop_record {
  last_seen = 2000;
  ip = "10.0.0.6";
  hostname = "phone";
  kind = "wired";
  seen = [];
  ignored = false;
  away = false;
}

-- An ignored client that was away is shown again.
returns : lookup laptop (scan_roster nothing_new back tracked).0 ≡ some seen_again
unfolding lookup scan_roster home_lab_hq.Dict.keep_items home_lab_hq.Dict.map_items
    home_lab_hq.Dict.insert home_lab_hq.Clients.Roster.is_stale home_lab_hq.Clients.Roster.expire
    home_lab_hq.Clients.Roster.reconcile home_lab_hq.Clients.Roster.observe
    home_lab_hq.Clients.Roster.mark_away
returns = refl

scan_roster-HasFlags_example :
    HasFlags nothing_new laptop (contains laptop back) laptop_record seen_again
scan_roster-HasFlags_example =
    scan_roster-HasFlags nothing_new laptop back tracked laptop_record seen_again back-IsDict
      tracked-IsDict (unfold lookup in refl) returns

abbrev home : Rosters ℕ String String
home = record { rosters = ("u1", tracked) ∷ []; discovery = [] }

forgets_one : (forget "u1" (" aa:bb:cc:dd:ee:01" ∷ []) home).0 ≡ ok 1
unfolding forget is_mac clean_mac home_lab_hq.Base.upper home_lab_hq.Base.strip lookup roster
forgets_one = refl

other_owner_example :
    ((clients : List (Client ℕ)) (o : Observed String String)
      → lookup "u2" (record_observations "u1" clients o home).0.rosters ≡ lookup "u2" home.rosters)
    × ((clients : List (Client ℕ)) (approved : List String) (o : Observed String String)
        → lookup "u2" (record_nac_observations "u1" clients approved o home).1.rosters
          ≡ lookup "u2" home.rosters)
    × ((macs : List String)
        → lookup "u2" (forget "u1" macs home).1.rosters ≡ lookup "u2" home.rosters)
    × ((mac : String) (now : ℕ)
        → lookup "u2" (ignore "u1" mac now home).1.rosters ≡ lookup "u2" home.rosters)
    × ((mac name notes : String) (notify : Option Bool) (now : ℕ)
        → lookup "u2" (set_metadata "u1" mac name notes notify now home).1.rosters
          ≡ lookup "u2" home.rosters)
other_owner_example = lookup-other_owner "u1" "u2" home (λ e. ground (arith, eq_iff "u1" "u2"))

abbrev unused : Rosters ℕ String String
unused = record { rosters = []; discovery = [] }

abbrev first_scan : Observed String String
first_scan = record {
  now = 2000;
  offline_after = 600;
  retention_days = 180;
  full_scan = true;
  sources = none;
  approved = none;
  aliases_by_mac = [];
  nac = none;
}

abbrev scanned : Rosters ℕ String String
scanned = (record_observations "u1" (phone_client ∷ []) first_scan unused).0

Reaches-AreRosters_example : AreRosters scanned
Reaches-AreRosters_example =
    Reaches-AreRosters unused scanned
      (then_step unused unused scanned (start unused)
        (observes "u1" (phone_client ∷ []) first_scan unused))
      refl
