-- ===== src/Clients/Roster/Edits/Reachable.antt =====
-- The rosters of every document that the operations of backend/client_roster.py can reach.
use home_lab_hq.Base.{
  ℕ, String, ◌≡◌, ◌≢◌, refl, sym, ap, ◌∙◌, inl, inr, Bool, true, false, Option, none, some, List,
  [], ◌==◌, ◌||◌, not, if◌then◌else◌, or_default, Bool-cases, nat_eq, length, map, all,
}
use mathlib.Core.Path.{subst}
use home_lab_hq.Dict.{Dict, lookup, contains, insert, upsert}
use home_lab_hq.Dict.Laws.{lookup-insert}
use home_lab_hq.Clients.Merge.{Client}
use home_lab_hq.Clients.Roster.{RosterRecord, new_record}
use home_lab_hq.Clients.Roster.Document.{
  Rosters, Observed, roster, normalized, scan_of, scan_roster, record_observations,
}
use home_lab_hq.Errors.{Outcome}
use home_lab_hq.Clients.Roster.Edits.Soundness.{
  IsRoster, insert-IsRoster, known-HasHistory, forget_all-IsRoster, announce-IsRoster,
  scan_roster-IsRoster,
}
use home_lab_hq.Clients.Roster.Document.History.{HasHistory}
use home_lab_hq.Clients.Roster.Edits.{
  clean_mac, is_mac, forget_all, put_known, forget, edit, ignore, set_metadata, announce,
  record_nac_observations,
}

none_there : {V : Type 0} (k : String) (v : V) → lookup k [] ≢ some v
unfolding lookup
none_there k v e = absurd (cc e)

module _ {N A C : Type 0} where
  -- Every owner's roster is one.
  abbrev pub AreRosters : Rosters N A C → Type 0
  AreRosters doc =
      (owner : String) (d : Dict (RosterRecord N A))
      → lookup owner doc.rosters ≡ some d
      → IsRoster d

  roster-IsRoster :
      (owner : String) (doc : Rosters N A C) → AreRosters doc → IsRoster (roster owner doc)
  unfolding roster lookup
  roster-IsRoster owner doc good = go (lookup owner doc.rosters) refl
    where
      go :
          (o : Option (Dict (RosterRecord N A)))
          → lookup owner doc.rosters ≡ o
          → IsRoster (or_default o [])
      go none e = (tt, λ mac r found. absurd (cc found))
      go (some d) e = good owner d e

  insert-AreRosters :
      (owner : String) (d : Dict (RosterRecord N A)) (doc after : Rosters N A C)
      → after.rosters ≡ insert owner d doc.rosters
      → IsRoster d
      → AreRosters doc
      → AreRosters after
  insert-AreRosters owner d doc after e h good other x found = elim (Bool-cases (owner == other)) [
    | inl here ↦
        let same : d ≡ x =
          cc (sym (ap (lookup other) e ∙ lookup-insert other owner d doc.rosters) ∙ found, here) in
        subst IsRoster same h
    | inr there ↦
        good other x
          (cc (sym (ap (lookup other) e ∙ lookup-insert other owner d doc.rosters) ∙ found, there))
  ]

  -- One operation of backend/client_roster.py.
  pub data Step : Rosters N A C → Rosters N A C → Type 0 where
    observes :
        (owner : String) (clients : List (Client N)) (o : Observed A C) (doc : Rosters N A C)
        → Step doc (record_observations owner clients o doc).0
    observes_nac :
        (owner : String) (clients : List (Client N)) (approved : List String) (o : Observed A C)
        (doc : Rosters N A C)
        → Step doc (record_nac_observations owner clients approved o doc).1
    forgets :
        (owner : String) (macs : List String) (doc : Rosters N A C)
        → Step doc (forget owner macs doc).1
    ignores :
        (owner mac : String) (now : ℕ) (doc : Rosters N A C) → Step doc (ignore owner mac now doc).1
    sets_metadata :
        (owner mac name notes : String) (notify : Option Bool) (now : ℕ) (doc : Rosters N A C)
        → Step doc (set_metadata owner mac name notes notify now doc).1

  pub data Reaches : Rosters N A C → Rosters N A C → Type 0 where
    start : (doc : Rosters N A C) → Reaches doc doc
    then_step :
        (doc next after : Rosters N A C) → Reaches doc next → Step next after → Reaches doc after

  edit-AreRosters :
      (owner mac : String) (now : ℕ) (f : RosterRecord N A → RosterRecord N A) (doc : Rosters N A C)
      → ((r : RosterRecord N A) → HasHistory r → HasHistory (f r))
      → AreRosters doc
      → AreRosters (edit owner mac now f doc)
  unfolding edit upsert
  edit-AreRosters owner mac now f doc keeps good =
      let d = roster owner doc in
      let sound = roster-IsRoster owner doc good in
      insert-AreRosters owner (upsert mac (new_record now) f d) doc (edit owner mac now f doc) refl
        (insert-IsRoster mac _ d (keeps _ (known-HasHistory mac now d sound)) sound) good

  observed-AreRosters :
      (owner : String) (clients : List (Client N)) (o : Observed A C) (doc : Rosters N A C)
      → AreRosters doc
      → AreRosters (record_observations owner clients o doc).0
  unfolding record_observations
  observed-AreRosters owner clients o doc good =
      let d = roster owner doc in
      insert-AreRosters owner (scan_roster (scan_of o) (normalized clients) d).0 doc
        (record_observations owner clients o doc).0 refl
        (scan_roster-IsRoster (scan_of o) clients d (roster-IsRoster owner doc good)) good

  nac-AreRosters :
      (owner : String) (clients : List (Client N)) (approved : List String) (o : Observed A C)
      (doc : Rosters N A C)
      → AreRosters doc
      → AreRosters (record_nac_observations owner clients approved o doc).1
  unfolding record_nac_observations
  nac-AreRosters owner clients approved o doc good =
      let settings = record o {
        full_scan = false;
        sources = none;
        approved = some approved;
        aliases_by_mac = [];
        nac = none;
      } in
      let scanned = (record_observations owner clients settings doc).0 in
      let first_run = nat_eq (length (roster owner doc)) 0 in
      let sound = observed-AreRosters owner clients settings doc good in
      insert-AreRosters owner
        (announce first_run approved (normalized clients) (roster owner scanned)).1 scanned
        (record_nac_observations owner clients approved o doc).1 refl
        (announce-IsRoster first_run approved (normalized clients) (roster owner scanned)
          (roster-IsRoster owner scanned sound))
        sound

  forget-AreRosters :
      (owner : String) (macs : List String) (doc : Rosters N A C)
      → AreRosters doc
      → AreRosters (forget owner macs doc).1
  unfolding forget put_known
  forget-AreRosters owner macs doc good = elim (Bool-cases refused) [
    | inl bad ↦ rw bad good
    | inr valid ↦ elim (Bool-cases (contains owner doc.rosters)) [
      | inl there ↦
          rw (valid, there)
            (insert-AreRosters owner after doc
              (record doc { rosters = insert owner after doc.rosters }) refl
              (forget_all-IsRoster cleaned (roster owner doc) (roster-IsRoster owner doc good))
              good)
      | inr missing ↦ rw (valid, missing) good
    ]
  ]
    where
      cleaned : List String
      cleaned = map clean_mac macs

      refused : Bool
      refused = nat_eq (length cleaned) 0 || not (all is_mac cleaned)

      after : Dict (RosterRecord N A)
      after = (forget_all cleaned (roster owner doc)).1

  -- An edit that a check of the address guards.
  guarded-AreRosters :
      (valid : Bool) (x y : Outcome String) (doc after : Rosters N A C)
      → AreRosters doc
      → AreRosters after
      → let r : Outcome String × Rosters N A C = if valid then (x, after) else (y, doc) in
        AreRosters r.1
  guarded-AreRosters true x y doc after good changed = changed
  guarded-AreRosters false x y doc after good changed = good

  Step-AreRosters : (doc after : Rosters N A C) → Step doc after → AreRosters doc → AreRosters after
  unfolding ignore set_metadata
  Step-AreRosters doc _ (observes owner clients o _) good =
      observed-AreRosters owner clients o doc good
  Step-AreRosters doc _ (observes_nac owner clients approved o _) good =
      nac-AreRosters owner clients approved o doc good
  Step-AreRosters doc _ (forgets owner macs _) good = forget-AreRosters owner macs doc good
  Step-AreRosters doc _ (ignores owner mac now _) good =
      guarded-AreRosters (is_mac (clean_mac mac)) _ _ doc _ good
        (edit-AreRosters owner (clean_mac mac) now _ doc (λ r h. h) good)
  Step-AreRosters doc _ (sets_metadata owner mac name notes notify now _) good =
      guarded-AreRosters (is_mac (clean_mac mac)) _ _ doc _ good
        (edit-AreRosters owner (clean_mac mac) now _ doc (λ r h. h) good)

  -- In every document that the operations of backend/client_roster.py reach from one without
  -- rosters, no roster has an address twice, and the events of every record are at most fifty,
  -- take turns between arrivals and departures, and end with an arrival exactly while the client
  -- is online.
  pub Reaches-AreRosters :
      (doc after : Rosters N A C) → Reaches doc after → doc.rosters ≡ [] → AreRosters after
  Reaches-AreRosters doc _ (start _) empty =
      λ owner d e. absurd (none_there owner d (sym (ap (lookup owner) empty) ∙ e))
  Reaches-AreRosters doc after (then_step _ next _ before step) empty =
      Step-AreRosters next after step (Reaches-AreRosters doc next before empty)
