-- ===== src/Clients/Roster/Document/Lifecycle.antt =====
-- Ignored clients, and the approval of clients, over a scan.
use home_lab_hq.Base.{
  String, ◌≡◌, ◌∙◌, Bool, true, false, Option, none, some, arith, ◌&&◌, ◌||◌, not, if◌then◌else◌,
  is_some,
}
use mathlib.Core.Path.{subst}
use home_lab_hq.Dict.{Dict, lookup, contains}
use home_lab_hq.Dict.Laws.{IsDict}
use home_lab_hq.Clients.Merge.{Client}
use home_lab_hq.Clients.Roster.{RosterRecord, Scan, mark_away, observe, reconcile, expire, elem}
use home_lab_hq.Clients.Roster.Document.{scan_roster}
use home_lab_hq.Clients.Roster.Document.Pointwise.{settled}
use home_lab_hq.Clients.Roster.Document.Retention.{scanned, scanned_of}

module _ {N A : Type 0} (scan : Scan A) (mac : String) where
  -- What a scan makes of the flags of a record.
  pub record HasFlags (present : Bool) (r s : RosterRecord N A) : Type 0 where
    pub ignored : s.ignored ≡ r.ignored && not (present && r.away)
    pub away : s.away ≡ (if present then r.away && not r.ignored else r.away || r.ignored)
    pub notified : s.notified ≡ r.notified
    pub nac_approved :
        s.nac_approved
        ≡ elim scan.approved [ none ↦ r.nac_approved | some approved ↦ some (elem mac approved) ]

  reconciled_flags :
      (p : Bool) (r : RosterRecord N A)
      → let s = settled scan p mac r in
        (s.ignored ≡ r.ignored)
        × (s.away ≡ r.away)
        × (s.notified ≡ r.notified)
        × (s.nac_approved ≡ elim scan.approved [
          | none ↦ r.nac_approved
          | some approved ↦ some (elem mac approved)
        ])
  unfolding expire reconcile
  reconciled_flags p r = (ground arith, ground arith, ground arith, ground arith)

  observed_flags :
      (c : Client N) (r : RosterRecord N A)
      → let s = (observe scan mac c r).0 in
        (s.ignored ≡ r.ignored && not r.away)
        × (s.away ≡ r.away && not r.ignored)
        × (s.notified ≡ r.notified)
        × (s.nac_approved ≡ elim scan.approved [
          | none ↦ r.nac_approved
          | some approved ↦ some (elem mac approved)
        ])
  unfolding observe reconcile
  observed_flags c r = (ground arith, ground arith, ground arith, ground arith)

  scanned-HasFlags :
      (c : Option (Client N)) (r : RosterRecord N A) → HasFlags (is_some c) r (scanned scan mac c r)
  unfolding mark_away
  scanned-HasFlags none r =
      let (ignored, away, notified, nac) = reconciled_flags false (mark_away false r) in
      record {
        ignored = ignored ∙ ground arith;
        away = away ∙ ground arith;
        notified = notified;
        nac_approved = nac;
      }
  scanned-HasFlags (some c) r =
      let before = mark_away true r in
      let seen = (observe scan mac c before).0 in
      let (ignored, away, notified, nac) = observed_flags c before in
      let (ignored', away', notified', nac') = reconciled_flags true seen in
      record {
        ignored = ignored' ∙ ignored ∙ ground arith;
        away = away' ∙ away ∙ ground arith;
        notified = notified' ∙ notified;
        nac_approved = ground (arith, nac, nac');
      }

  -- For rosters without repeated keys, of a record that stays: an ignored client is shown again
  -- exactly when a scan sees it after one that did not, and its approval is the allow-list's where
  -- there is one and unchanged where there is none.
  pub scan_roster-HasFlags :
      (observed : Dict (Client N)) (d : Dict (RosterRecord N A)) (r s : RosterRecord N A)
      → IsDict observed
      → IsDict d
      → lookup mac d ≡ some r
      → lookup mac (scan_roster scan observed d).0 ≡ some s
      → HasFlags (contains mac observed) r s
  scan_roster-HasFlags observed d r s ho hd h stays =
      subst (HasFlags (contains mac observed) r) (scanned_of scan mac observed d r s ho hd h stays)
        (scanned-HasFlags (lookup mac observed) r)
