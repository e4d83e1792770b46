-- ===== src/Clients/Roster/Document/Retention.antt =====
-- What a scan keeps of a record, and which records it drops.
use home_lab_hq.Base.{
  ◌+◌, ◌*◌, ◌<◌, String, ◌≡◌, refl, sym, ap, ◌∙◌, Bool, true, false, Option, none, some, arith,
  ◌&&◌, not, is_some,
}
use mathlib.Core.Path.{subst}
use home_lab_hq.Dict.{Dict, lookup, contains}
use home_lab_hq.Dict.Laws.{IsDict, kept, mapped}
use home_lab_hq.Clients.Merge.{Client}
use home_lab_hq.Clients.Roster.{RosterRecord, Scan, mark_away, observe, reconcile, expire, is_stale}
use home_lab_hq.Clients.Roster.Document.{scan_roster}
use home_lab_hq.Clients.Roster.Document.Pointwise.{observed_record, settled, lookup-scan_roster}
use home_lab_hq.Clients.Roster.Document.Presence.{times_out, online-settled}

module _ {N A : Type 0} where
  -- What the owner entered and when the client was first seen.
  pub record IsSameClient (r s : RosterRecord N A) : Type 0 where
    pub first_seen : s.first_seen ≡ r.first_seen
    pub name : s.name ≡ r.name
    pub notes : s.notes ≡ r.notes
    pub notify : s.notify ≡ r.notify

  settled-IsSameClient :
      (scan : Scan A) (p : Bool) (mac : String) (r : RosterRecord N A)
      → IsSameClient r (settled scan p mac r)
  unfolding expire reconcile
  settled-IsSameClient scan p mac r = record {
    first_seen = ground arith;
    name = ground arith;
    notes = ground arith;
    notify = ground arith;
  }

  observe-IsSameClient :
      (scan : Scan A) (mac : String) (c : Client N) (r : RosterRecord N A)
      → IsSameClient r (observe scan mac c r).0
  unfolding observe reconcile
  observe-IsSameClient scan mac c r = record {
    first_seen = ground arith;
    name = ground arith;
    notes = ground arith;
    notify = ground arith;
  }

  -- The record before the retention period is applied.
  abbrev pub scanned : Scan A → String → Option (Client N) → RosterRecord N A → RosterRecord N A
  scanned scan mac none r = settled scan false mac (mark_away false r)
  scanned scan mac (some c) r = settled scan true mac (observe scan mac c (mark_away true r)).0

  scanned-IsSameClient :
      (scan : Scan A) (mac : String) (c : Option (Client N)) (r : RosterRecord N A)
      → IsSameClient r (scanned scan mac c r)
  unfolding mark_away
  scanned-IsSameClient scan mac none r =
      let done = settled-IsSameClient scan false mac (mark_away false r) in
      record {
        first_seen = done.first_seen;
        name = done.name;
        notes = done.notes;
        notify = done.notify;
      }
  scanned-IsSameClient scan mac (some c) r =
      let seen = observe-IsSameClient scan mac c (mark_away true r) in
      let done = settled-IsSameClient scan true mac (observe scan mac c (mark_away true r)).0 in
      record {
        first_seen = done.first_seen ∙ seen.first_seen;
        name = done.name ∙ seen.name;
        notes = done.notes ∙ seen.notes;
        notify = done.notify ∙ seen.notify;
      }

  lookup-scan_roster_known :
      (scan : Scan A) (mac : String) (observed : Dict (Client N)) (d : Dict (RosterRecord N A))
      (r : RosterRecord N A)
      → IsDict observed
      → IsDict d
      → lookup mac d ≡ some r
      → lookup mac (scan_roster scan observed d).0
        ≡ kept
            (λ s. not (is_stale scan (contains mac observed) s))
            (some (scanned scan mac (lookup mac observed) r))
  lookup-scan_roster_known scan mac observed d r ho hd h =
      lookup-scan_roster scan mac observed d ho hd
      ∙ rw h (
          ap (kept (λ s. not (is_stale scan (contains mac observed) s)))
            (by_cases (lookup mac observed)))
    where
      by_cases :
          (c : Option (Client N))
          → mapped
              (settled scan (is_some c) mac)
              (observed_record scan mac c (some (mark_away (is_some c) r)))
            ≡ some (scanned scan mac c r)
      by_cases none = refl
      by_cases (some c) = refl

  last_seen-settled :
      (scan : Scan A) (p : Bool) (mac : String) (r : RosterRecord N A)
      → (settled scan p mac r).last_seen ≡ r.last_seen
  unfolding expire reconcile
  last_seen-settled scan p mac r = ground arith

  stale_lem :
      (scan : Scan A) (mac : String) (r : RosterRecord N A) (c : Option (Client N))
      → is_stale scan (is_some c) (scanned scan mac c r) ≡ true
      → (is_some c ≡ false)
        × (0 < scan.retention_days)
        × ((r.online && not (times_out scan (some r))) ≡ false)
        × (r.last_seen + scan.retention_days * (24 * 3600) < scan.now)
  unfolding is_stale mark_away
  stale_lem scan mac r none h = ground (
    arith,
    online-settled scan false mac (mark_away false r),
    last_seen-settled scan false mac (mark_away false r),
  )
  stale_lem scan mac r (some c) h = absurd (ground arith)

  -- A record that stays is the one that the scan made of the earlier one.
  pub scanned_of :
      (scan : Scan A) (mac : String) (observed : Dict (Client N)) (d : Dict (RosterRecord N A))
      (r s : RosterRecord N A)
      → IsDict observed
      → IsDict d
      → lookup mac d ≡ some r
      → lookup mac (scan_roster scan observed d).0 ≡ some s
      → scanned scan mac (lookup mac observed) r ≡ s
  scanned_of scan mac observed d r s ho hd h stays =
      kept-same (scanned scan mac (lookup mac observed) r) s
        (sym (lookup-scan_roster_known scan mac observed d r ho hd h) ∙ stays)
    where
      kept-same :
          (s t : RosterRecord N A)
          → kept (λ x. not (is_stale scan (contains mac observed) x)) (some s) ≡ some t
          → s ≡ t
      kept-same s t e = ground arith

  -- For rosters without repeated keys: a scan drops a record only if it did not see the client,
  -- the retention period is set and over, and the client is not online any more; a record that
  -- stays keeps the time it was first seen and what the owner entered.
  pub scan_roster_keeps :
      (scan : Scan A) (mac : String) (observed : Dict (Client N)) (d : Dict (RosterRecord N A))
      (r : RosterRecord N A)
      → IsDict observed
      → IsDict d
      → lookup mac d ≡ some r
      → let after = lookup mac (scan_roster scan observed d).0 in
        (after ≡ none
          → (contains mac observed ≡ false)
            × (0 < scan.retention_days)
            × ((r.online && not (times_out scan (some r))) ≡ false)
            × (r.last_seen + scan.retention_days * (24 * 3600) < scan.now))
        × ((s : RosterRecord N A) → after ≡ some s → IsSameClient r s)
  scan_roster_keeps scan mac observed d r ho hd h =
      let e = lookup-scan_roster_known scan mac observed d r ho hd h in
      (
        (λ gone. stale_lem scan mac r (lookup mac observed) (dropped _ (sym e ∙ gone))),
        λ s stays.
            subst (IsSameClient r) (scanned_of scan mac observed d r s ho hd h stays)
              (scanned-IsSameClient scan mac (lookup mac observed) r),
      )
    where
      fresh : RosterRecord N A → Bool
      fresh s = not (is_stale scan (contains mac observed) s)

      dropped :
          (s : RosterRecord N A)
          → kept fresh (some s) ≡ none
          → is_stale scan (contains mac observed) s ≡ true
      dropped s e = ground arith
