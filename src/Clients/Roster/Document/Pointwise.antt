-- ===== src/Clients/Roster/Document/Pointwise.antt =====
-- One scan, read one MAC address at a time.
use home_lab_hq.Base.{
  String, ◌≡◌, refl, ap, ◌∙◌, inl, inr, Bool, Option, none, some, List, [], ◌∷◌, ◌++◌, arith, ◌==◌,
  eq_iff, not, or_default, Bool-cases,
}
use home_lab_hq.Dict.{Dict, lookup, contains, insert, map_items}
use home_lab_hq.Dict.Laws.{
  IsDict, kept, mapped, lookup-insert, lookup-map_items, lookup-keep_items, insert-IsDict,
  map_items-IsDict, keep_items-IsDict,
}
use home_lab_hq.Clients.Merge.{Client}
use home_lab_hq.Clients.Roster.{
  RosterRecord, Scan, Notice, new_record, mark_away, observe, reconcile, expire, is_stale,
}
use home_lab_hq.Clients.Roster.Document.{observe_all, expire_all, scan_roster}

module _ {N A : Type 0} (scan : Scan A) where
  -- The record after the loop over the observed clients.
  abbrev pub observed_record :
      String → Option (Client N) → Option (RosterRecord N A) → Option (RosterRecord N A)
  observed_record mac none o = o
  observed_record mac (some c) o = some (observe scan mac c (or_default o (new_record scan.now))).0

  lookup-observe_all :
      (mac : String) (observed : Dict (Client N)) (d : Dict (RosterRecord N A)) (ns : List Notice)
      → IsDict observed
      → lookup mac (observe_all scan observed (d, ns)).0
        ≡ observed_record mac (lookup mac observed) (lookup mac d)
  unfolding lookup observe_all
  lookup-observe_all mac [] d ns h = refl
  lookup-observe_all mac ((j, c) ∷ observed) d ns h =
      let (r, notice) = observe scan j c (or_default (lookup j d) (new_record scan.now)) in
      let rest = lookup-observe_all mac observed (insert j r d) (ns ++ notice) h.1 in
      elim (Bool-cases (j == mac)) [
        | inl here ↦
            let same : j ≡ mac = ground (arith, eq_iff j mac) in
            let absent : lookup mac observed ≡ none = rw (← same) h.0 in
            rw here (
              rest
              ∙ ap (λ o. observed_record mac o (lookup mac (insert j r d))) absent
              ∙ lookup-insert mac j r d
              ∙ rw here (
                  ap
                    (λ x. some (observe scan x c (or_default (lookup x d) (new_record scan.now))).0)
                    same))
        | inr there ↦ rw there (
            rest
            ∙ ap (observed_record mac (lookup mac observed))
                (lookup-insert mac j r d ∙ rw there refl))
      ]

  observe_all-IsDict :
      (observed : Dict (Client N)) (d : Dict (RosterRecord N A)) (ns : List Notice)
      → IsDict d
      → IsDict (observe_all scan observed (d, ns)).0
  unfolding observe_all
  observe_all-IsDict [] d ns h = h
  observe_all-IsDict ((j, c) ∷ observed) d ns h =
      let (r, notice) = observe scan j c (or_default (lookup j d) (new_record scan.now)) in
      observe_all-IsDict observed (insert j r d) (ns ++ notice) (insert-IsDict j r d h)

  expire_all_lem :
      (observed : Dict (Client N)) (d : Dict (RosterRecord N A))
      → (expire_all scan observed d).0
        ≡ map_items (λ mac r. (expire scan (contains mac observed) mac r).0) d
  unfolding expire_all map_items
  expire_all_lem observed [] = refl
  expire_all_lem observed ((mac, r) ∷ d) =
      ap (λ rest. (mac, (expire scan (contains mac observed) mac r).0) ∷ rest)
        (expire_all_lem observed d)

  expire_all-IsDict :
      (observed : Dict (Client N)) (d : Dict (RosterRecord N A))
      → IsDict d
      → IsDict (expire_all scan observed d).0
  expire_all-IsDict observed d h =
      rw (expire_all_lem observed d)
        (map_items-IsDict (λ mac r. (expire scan (contains mac observed) mac r).0) d h)

  mapped_twice :
      (f g : RosterRecord N A → RosterRecord N A) (o : Option (RosterRecord N A))
      → mapped f (mapped g o) ≡ mapped (λ r. f (g r)) o
  mapped_twice f g none = refl
  mapped_twice f g (some r) = refl

  -- What the two passes after the observations make of a record.
  abbrev pub settled : Bool → String → RosterRecord N A → RosterRecord N A
  settled present mac r = (expire scan present mac (reconcile scan mac r)).0

  pub lookup-scan_roster :
      (mac : String) (observed : Dict (Client N)) (d : Dict (RosterRecord N A))
      → IsDict observed
      → IsDict d
      → let present = contains mac observed in
        lookup mac (scan_roster scan observed d).0
        ≡ kept
            (λ r. not (is_stale scan present r))
            (mapped (settled present mac) (
              observed_record mac
                (lookup mac observed)
                (mapped (mark_away present) (lookup mac d))))
  unfolding scan_roster
  lookup-scan_roster mac observed d ho hd =
      let mark : String → RosterRecord N A → RosterRecord N A =
        λ x. mark_away (contains x observed) in
      let marked = map_items mark d in
      let seen = (observe_all scan observed (marked, [])).0 in
      let seen_keys = observe_all-IsDict observed marked [] (map_items-IsDict mark d hd) in
      let reconciled = map_items (reconcile scan) seen in
      let reconciled_keys = map_items-IsDict (reconcile scan) seen seen_keys in
      let fresh : String → RosterRecord N A → Bool =
        λ x r. not (is_stale scan (contains x observed) r) in
      lookup-keep_items fresh mac (expire_all scan observed reconciled).0
        (expire_all-IsDict observed reconciled reconciled_keys)
      ∙ ap (kept (fresh mac)) (
          ap (lookup mac) (expire_all_lem observed reconciled)
          ∙ lookup-map_items (λ x r. (expire scan (contains x observed) x r).0) mac reconciled
          ∙ ap (mapped (λ r. (expire scan (contains mac observed) mac r).0))
              (lookup-map_items (reconcile scan) mac seen)
          ∙ mapped_twice _ _ (lookup mac seen)
          ∙ ap (mapped (settled (contains mac observed) mac)) (
              lookup-observe_all mac observed marked [] ho
              ∙ ap (observed_record mac (lookup mac observed)) (lookup-map_items mark mac d)))

  pub scan_roster-IsDict :
      (observed : Dict (Client N)) (d : Dict (RosterRecord N A))
      → IsDict d
      → IsDict (scan_roster scan observed d).0
  unfolding scan_roster
  scan_roster-IsDict observed d hd =
      let mark : String → RosterRecord N A → RosterRecord N A =
        λ x. mark_away (contains x observed) in
      let marked = map_items mark d in
      let seen = (observe_all scan observed (marked, [])).0 in
      let reconciled = map_items (reconcile scan) seen in
      keep_items-IsDict (λ x r. not (is_stale scan (contains x observed) r)) _
        (expire_all-IsDict observed reconciled (
          map_items-IsDict (reconcile scan) seen
            (observe_all-IsDict observed marked [] (map_items-IsDict mark d hd))))
