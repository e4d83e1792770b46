-- ===== src/Clients/Roster/Edits.antt =====
-- The other operations of backend/client_roster.py: `forget`, `ignore`, `set_metadata`,
-- `events_since` and `record_nac_observations`. `_MAC_RE` is that of backend/devices.py.
pub mod Soundness
pub mod Reachable
pub mod Effects
use Prim.Native.Char.{Char, code}
use home_lab_hq.Base.{
  ℕ, zero, suc, ◌+◌, String, Bool, true, false, Option, none, some, List, [], ◌∷◌, ◌++◌, ◌==◌, ◌&&◌,
  ◌||◌, not, all, any, map, length, keep, ltb, leb, nat_eq, is_some, if◌then◌else◌, or_default,
  strip, upper,
}
use home_lab_hq.Dict.{Dict, lookup, contains, insert, erase, upsert, values}
use home_lab_hq.Errors.{Outcome, ok, error, validation}
use home_lab_hq.Clients.Merge.{Client, first_text}
use home_lab_hq.Clients.Roster.{RosterRecord, RosterEvent, new_record, elem}
use home_lab_hq.Clients.Roster.Document.{Rosters, Observed, roster, normalized, record_observations}

-- A digit, or a letter from A to F.
unfoldable pub is_hex : Char → Bool
is_hex c = (leb 48 (code c) && leb (code c) 57) || (leb 65 (code c) && leb (code c) 70)

-- The rest of a text that begins with two hexadecimal digits.
unfoldable pub after_octet : String → Option String
unfolding is_hex
after_octet String.[] = none
after_octet (String.◌∷◌ a String.[]) = none
after_octet (String.◌∷◌ a (String.◌∷◌ b s)) = if is_hex a && is_hex b then some s else none

-- The rest of a text that begins with a colon.
unfoldable pub after_colon : String → Option String
after_colon String.[] = none
after_colon (String.◌∷◌ c s) = if nat_eq (code c) 58 then some s else none

-- An octet, and then the given number of octets after colons.
unfoldable pub is_octets : ℕ → String → Bool
unfolding after_octet after_colon
is_octets zero s = elim (after_octet s) [ none ↦ false | some rest ↦ rest == "" ]
is_octets (suc n) s = elim (after_octet s) [
  | none ↦ false
  | some rest ↦ elim (after_colon rest) [ none ↦ false | some next ↦ is_octets n next ]
]

-- `_MAC_RE.match`, on a text without white space at its end.
unfoldable pub is_mac : String → Bool
unfolding is_octets
is_mac s = is_octets 5 s

-- `(mac or "").strip().upper()`
unfoldable pub clean_mac : String → String
clean_mac mac = upper (strip mac)

-- The sum in `forget`: each address is dropped, and counted if it was there.
unfoldable pub forget_all : {V : Type 0} → List String → Dict V → ℕ × Dict V
forget_all [] d = (0, d)
forget_all (mac ∷ macs) d =
    let (n, after) = forget_all macs (erase mac d) in ((if contains mac d then suc n else n), after)

module _ {N A : Type 0} where
  -- The records of `read_snapshot`: those that are not ignored.
  unfoldable pub visible : Dict (RosterRecord N A) → List (RosterRecord N A)
  visible d = keep (λ r. not (RosterRecord.ignored r)) (values d)

  -- `count` and `newCount` of `events_since`.
  unfoldable pub count_events : ℕ → List (RosterRecord N A) → ℕ
  count_events since [] = 0
  count_events since (r ∷ rs) =
      length (keep (λ e. ltb since (RosterEvent.ts e)) r.events) + count_events since rs

  -- The body of the loop of `record_nac_observations`: whether the client is announced, and the
  -- roster after it.
  unfoldable pub announce_one :
      Bool → List String → String → Dict (RosterRecord N A) → Bool × Dict (RosterRecord N A)
  announce_one first_run approved mac tracked = elim (lookup mac tracked) [
    | none ↦ (not (elem mac approved) && not first_run, tracked)
    | some r ↦
        let announced =
          not (elem mac approved) && not first_run && not r.ignored && not r.notified in
        let notified = not (elem mac approved) && (r.notified || announced) in
        (announced, insert mac (record r { notified = notified }) tracked)
  ]

  -- The loop over the candidates: the clients to announce, whose texts an announcement shows.
  unfoldable pub announce :
      Bool
      → List String
      → Dict (Client N)
      → Dict (RosterRecord N A)
      → List (String × Client N) × Dict (RosterRecord N A)
  announce first_run approved [] tracked = ([], tracked)
  announce first_run approved ((mac, client) ∷ candidates) tracked =
      let step = announce_one first_run approved mac tracked in
      let rest = announce first_run approved candidates step.1 in
      ((if step.0 then (mac, client) ∷ rest.0 else rest.0), rest.1)

module _ {N A C : Type 0} where
  -- `roster(document, owner)` without `create`: a missing roster is not written back.
  unfoldable pub put_known : String → Dict (RosterRecord N A) → Rosters N A C → Rosters N A C
  put_known owner d doc = record doc {
    rosters = if contains owner doc.rosters then insert owner d doc.rosters else doc.rosters;
  }

  unfoldable pub forget : String → List String → Rosters N A C → Outcome ℕ × Rosters N A C
  unfolding forget_all put_known
  forget owner macs doc =
      let cleaned = map clean_mac macs in
      let (n, after) = forget_all cleaned (roster owner doc) in
      if nat_eq (length cleaned) 0 || not (all is_mac cleaned)
      then (error validation, doc)
      else (ok n, put_known owner after doc)

  -- A write to the record of a client, which is created where it is missing.
  unfoldable pub edit :
      String → String → ℕ → (RosterRecord N A → RosterRecord N A) → Rosters N A C → Rosters N A C
  edit owner mac now f doc = record doc {
    rosters = insert owner (upsert mac (new_record now) f (roster owner doc)) doc.rosters;
  }

  unfoldable pub ignore : String → String → ℕ → Rosters N A C → Outcome String × Rosters N A C
  unfolding edit
  ignore owner mac now doc =
      if is_mac (clean_mac mac)
      then (
        ok (clean_mac mac),
        edit owner (clean_mac mac) now (λ r. record r { ignored = true; away = false }) doc,
      )
      else (error validation, doc)

  unfoldable pub set_metadata :
      String
      → String
      → String
      → String
      → Option Bool
      → ℕ
      → Rosters N A C
      → Outcome String × Rosters N A C
  unfolding edit
  set_metadata owner mac name notes notify now doc =
      if is_mac (clean_mac mac)
      then (
        ok (clean_mac mac),
        edit owner (clean_mac mac) now
            (λ r. record r {
              name = strip name;
              notes = strip notes;
              notify = or_default notify r.notify;
            })
            doc,
      )
      else (error validation, doc)

  unfoldable pub events_since : String → ℕ → Rosters N A C → ℕ × ℕ
  unfolding count_events visible
  events_since owner since doc = (
    count_events since (values (roster owner doc)),
    length (keep (λ r. ltb since (RosterRecord.first_seen r)) (visible (roster owner doc))),
  )

  -- The announced clients; the scan is a partial one, with the allow-list.
  unfoldable pub record_nac_observations :
      String
      → List (Client N)
      → List String
      → Observed A C
      → Rosters N A C
      → List (String × Client N) × Rosters N A C
  unfolding announce announce_one
  record_nac_observations owner clients approved settings doc =
      let first_run = nat_eq (length (roster owner doc)) 0 in
      let partial_scan = record settings {
        full_scan = false;
        sources = none;
        approved = some approved;
        aliases_by_mac = [];
        nac = none;
      } in
      let (scanned, notices) = record_observations owner clients partial_scan doc in
      let (announced, tracked) =
        announce first_run approved (normalized clients) (roster owner scanned) in
      (announced, record scanned { rosters = insert owner tracked scanned.rosters })
