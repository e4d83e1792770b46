-- ===== src/Clients/Roster/Edits/Soundness.antt =====
-- The invariant of one roster, and the steps that keep it.
use home_lab_hq.Base.{
  ℕ, String, ◌≡◌, refl, sym, ◌∙◌, inl, inr, Bool, Option, none, some, List, [], ◌∷◌, arith, ◌==◌,
  or_default, Bool-cases, Option-cases, upper,
}
use home_lab_hq.Dict.{Dict, lookup, insert, erase}
use home_lab_hq.Dict.Laws.{IsDict, lookup-insert, lookup-erase, insert-IsDict, erase-IsDict}
use home_lab_hq.Clients.Merge.{Client}
use home_lab_hq.Clients.Roster.{RosterRecord, Scan, new_record}
use home_lab_hq.Clients.Roster.Document.{normalized, normalized_from, scan_roster}
use home_lab_hq.Clients.Roster.Document.Pointwise.{scan_roster-IsDict}
use home_lab_hq.Clients.Roster.Document.History.{
  HasHistory, HasHistories, empty-IsHistory, scan_roster-HasHistories,
}
use home_lab_hq.Clients.Roster.Edits.{forget_all, announce, announce_one}

normalized_from-IsDict :
    {N : Type 0} (clients : List (Client N)) (d : Dict (Client N))
    → IsDict d
    → IsDict (normalized_from clients d)
unfolding normalized_from
normalized_from-IsDict [] d h = h
normalized_from-IsDict (c ∷ clients) d h =
    normalized_from-IsDict clients _ (elim (Bool-cases (c.mac == "")) [
      | inl blank ↦ rw blank h
      | inr named ↦ rw named (insert-IsDict (upper c.mac) c d h)
    ])

module _ {N A : Type 0} where
  -- No address twice, and the history of a client in every record.
  abbrev pub IsRoster : Dict (RosterRecord N A) → Type 0
  IsRoster d = IsDict d × HasHistories d

  pub insert-IsRoster :
      (mac : String) (r : RosterRecord N A) (d : Dict (RosterRecord N A))
      → HasHistory r
      → IsRoster d
      → IsRoster (insert mac r d)
  insert-IsRoster mac r d h good = (insert-IsDict mac r d good.0, histories)
    where
      histories : HasHistories (insert mac r d)
      histories j s e = elim (Bool-cases (mac == j)) [
        | inl here ↦
            let same : r ≡ s = cc (sym (lookup-insert j mac r d) ∙ e, here) in rw (← same) h
        | inr there ↦ good.1 j s (ground (arith, lookup-insert j mac r d))
      ]

  erase-IsRoster :
      (mac : String) (d : Dict (RosterRecord N A)) → IsRoster d → IsRoster (erase mac d)
  erase-IsRoster mac d good =
      (erase-IsDict mac d good.0, λ j s e. good.1 j s (ground (arith, lookup-erase j mac d)))

  -- The record of a client, or a new one.
  pub known-HasHistory :
      (mac : String) (now : ℕ) (d : Dict (RosterRecord N A))
      → IsRoster d
      → HasHistory (or_default (lookup mac d) (new_record now))
  unfolding new_record
  known-HasHistory mac now d good = go (lookup mac d) refl
    where
      go :
          (o : Option (RosterRecord N A))
          → lookup mac d ≡ o
          → HasHistory (or_default o (new_record now))
      go none e = empty-IsHistory
      go (some r) e = good.1 mac r e

  pub forget_all-IsRoster :
      (macs : List String) (d : Dict (RosterRecord N A))
      → IsRoster d
      → IsRoster (forget_all macs d).1
  unfolding forget_all
  forget_all-IsRoster [] d good = good
  forget_all-IsRoster (mac ∷ macs) d good =
      forget_all-IsRoster macs (erase mac d) (erase-IsRoster mac d good)

  announce_one-IsRoster :
      (first_run : Bool) (approved : List String) (mac : String) (d : Dict (RosterRecord N A))
      → IsRoster d
      → IsRoster (announce_one first_run approved mac d).1
  unfolding announce_one
  announce_one-IsRoster first_run approved mac d good = elim (Option-cases (lookup mac d)) [
    | inl missing ↦ rw (missing, announce_one) good
    | inr (r, found) ↦
        rw (found, announce_one)
          (insert-IsRoster mac (record r { notified = _ }) d (good.1 mac r found) good)
  ]

  pub announce-IsRoster :
      (first_run : Bool) (approved : List String) (candidates : Dict (Client N))
      (d : Dict (RosterRecord N A))
      → IsRoster d
      → IsRoster (announce first_run approved candidates d).1
  unfolding announce
  announce-IsRoster first_run approved [] d good = good
  announce-IsRoster first_run approved ((mac, client) ∷ candidates) d good =
      announce-IsRoster first_run approved candidates (announce_one first_run approved mac d).1
        (announce_one-IsRoster first_run approved mac d good)

  pub scan_roster-IsRoster :
      (scan : Scan A) (clients : List (Client N)) (d : Dict (RosterRecord N A))
      → IsRoster d
      → IsRoster (scan_roster scan (normalized clients) d).0
  unfolding normalized
  scan_roster-IsRoster scan clients d good =
      let observed = normalized_from-IsDict clients [] tt in
      (scan_roster-IsDict scan _ d good.0, scan_roster-HasHistories scan _ d observed good.0 good.1)
