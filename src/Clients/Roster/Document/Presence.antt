-- ===== src/Clients/Roster/Document/Presence.antt =====
-- Who is online after a scan, and which records remain.
use home_lab_hq.Base.{
  ◌+◌, String, ◌≡◌, refl, ap, ◌∙◌, Bool, true, false, Option, none, some, arith, ◌&&◌, ◌||◌, not,
  leb, is_some, or_default,
}
use home_lab_hq.Dict.{Dict, lookup, contains}
use home_lab_hq.Dict.Laws.{IsDict, kept, mapped}
use home_lab_hq.Clients.Merge.{Client}
use home_lab_hq.Clients.Roster.{
  RosterRecord, Scan, new_record, mark_away, observe, reconcile, expire, is_stale, is_sheltered,
}
use home_lab_hq.Clients.Roster.Document.{scan_roster}
use home_lab_hq.Clients.Roster.Document.Pointwise.{observed_record, settled, lookup-scan_roster}

module _ {N A : Type 0} where
  abbrev pub is_online : Option (RosterRecord N A) → Bool
  is_online none = false
  is_online (some r) = r.online

  -- Whether a full scan that does not see the client gives it up: no failed source saw it, and it
  -- was last seen long enough ago.
  abbrev pub times_out : Scan A → Option (RosterRecord N A) → Bool
  times_out scan none = false
  times_out scan (some r) =
      scan.full_scan
      && not (is_sheltered scan.failed r.seen)
      && leb (r.last_seen + scan.offline_after) scan.now

  online-reconcile :
      (scan : Scan A) (mac : String) (r : RosterRecord N A)
      → (reconcile scan mac r).online ≡ r.online
  unfolding reconcile
  online-reconcile scan mac r = ground arith

  online-observe :
      (scan : Scan A) (mac : String) (c : Client N) (r : RosterRecord N A)
      → (observe scan mac c r).0.online ≡ true
  unfolding observe
  online-observe scan mac c r = online-reconcile scan mac _

  pub online-settled :
      (scan : Scan A) (present : Bool) (mac : String) (r : RosterRecord N A)
      → (settled scan present mac r).online ≡ r.online && (present || not (times_out scan (some r)))
  unfolding expire reconcile
  online-settled scan present mac r = ground arith

  online-kept :
      (scan : Scan A) (present : Bool) (o : Option (RosterRecord N A))
      → is_online (kept (λ r. not (is_stale scan present r)) o) ≡ is_online o
  unfolding is_stale
  online-kept scan present none = refl
  online-kept scan present (some r) = ground arith

  -- For rosters without repeated keys: after a scan a client is online exactly if the scan saw it,
  -- or if it was online and did not time out.
  pub online-scan_roster :
      (scan : Scan A) (mac : String) (observed : Dict (Client N)) (d : Dict (RosterRecord N A))
      → IsDict observed
      → IsDict d
      → is_online (lookup mac (scan_roster scan observed d).0)
        ≡ contains mac observed || (is_online (lookup mac d) && not (times_out scan (lookup mac d)))
  online-scan_roster scan mac observed d ho hd =
      rw (lookup-scan_roster scan mac observed d ho hd)
        (online-kept scan (contains mac observed) _ ∙ by_cases (lookup mac observed) (lookup mac d))
    where
      by_cases :
          (c : Option (Client N)) (o : Option (RosterRecord N A))
          → is_online (
              mapped
                (settled scan (is_some c) mac)
                (observed_record scan mac c (mapped (mark_away (is_some c)) o)))
            ≡ is_some c || (is_online o && not (times_out scan o))
      by_cases none none = refl
      by_cases none (some r) =
          online-settled scan false mac (mark_away false r) ∙ unfold mark_away in refl
      by_cases (some c) o =
          let r = or_default (mapped (mark_away true) o) (new_record scan.now) in
          online-settled scan true mac (observe scan mac c r).0
          ∙ ap (λ b. b && true) (online-observe scan mac c r)
