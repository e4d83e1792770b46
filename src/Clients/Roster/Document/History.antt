-- ===== src/Clients/Roster/Document/History.antt =====
-- The presence events of a record.
use home_lab_hq.Base.{
  ℕ, zero, suc, ◌+◌, ◌≤◌, ◌<◌, String, ◌≡◌, refl, sym, ap, ◌∙◌, inl, inr, Bool, true, false, Option,
  none, some, List, [], ◌∷◌, ◌++◌, arith, ◌&&◌, not, leb, if◌then◌else◌, is_some, Bool-cases,
  Option-cases, length, drop, last?, last?-snoc, length-keep_last, length-append,
}
use mathlib.Core.Path.{subst}
use home_lab_hq.Dict.{Dict, lookup}
use home_lab_hq.Dict.Laws.{IsDict, kept, mapped}
use home_lab_hq.Clients.Merge.{Client}
use home_lab_hq.Clients.Roster.{
  Presence, up, down, RosterEvent, RosterRecord, Scan, client_events_max, add_event, new_record,
  mark_away, observe, reconcile, expire, is_stale, is_sheltered, via_of,
}
use home_lab_hq.Clients.Roster.Document.{scan_roster}
use home_lab_hq.Clients.Roster.Document.Pointwise.{observed_record, settled, lookup-scan_roster}

abbrev pub is_up : Presence → Bool
is_up up = true
is_up down = false

-- Arrivals and departures take turns.
abbrev pub IsAlternating : List RosterEvent → Type 0
IsAlternating [] = Unit
IsAlternating (e ∷ []) = Unit
IsAlternating (e ∷ f ∷ es) = (is_up f.event ≡ not (is_up e.event)) × IsAlternating (f ∷ es)

-- Whether the latest event is an arrival.
abbrev pub arrived_last : Option RosterEvent → Bool
arrived_last none = false
arrived_last (some e) = is_up e.event

IsAlternating-snoc :
    (es : List RosterEvent) (e : RosterEvent)
    → IsAlternating es
    → arrived_last (last? es) ≡ not (is_up e.event)
    → IsAlternating (es ++ e ∷ [])
IsAlternating-snoc [] e h l = tt
IsAlternating-snoc (f ∷ []) e h l = (ground arith, tt)
IsAlternating-snoc (f ∷ g ∷ es) e h l = (h.0, IsAlternating-snoc (g ∷ es) e h.1 l)

IsAlternating-drop : (n : ℕ) (es : List RosterEvent) → IsAlternating es → IsAlternating (drop n es)
IsAlternating-drop zero es h = h
IsAlternating-drop (suc n) [] h = tt
IsAlternating-drop (suc n) (e ∷ []) h = IsAlternating-drop n [] tt
IsAlternating-drop (suc n) (e ∷ f ∷ es) h = IsAlternating-drop n (f ∷ es) h.1

last?-drop : (n : ℕ) (es : List RosterEvent) → n < length es → last? (drop n es) ≡ last? es
last?-drop zero es h = refl
last?-drop (suc n) [] h = absurd (omega (arith, h))
last?-drop (suc n) (e ∷ []) h = absurd (omega (arith, h))
last?-drop (suc n) (e ∷ f ∷ es) h = last?-drop n (f ∷ es) (omega (arith, h))

last?-add_event : (e : RosterEvent) (es : List RosterEvent) → last? (add_event e es) ≡ some e
unfolding add_event
last?-add_event e es =
    last?-drop _ (es ++ e ∷ []) (omega (arith, length-append es (e ∷ []))) ∙ last?-snoc es e

-- The events of a record are bounded and take turns, and the latest one tells whether the client
-- is online.
pub record IsHistory (online : Bool) (events : List RosterEvent) : Type 0 where
  pub bounded : length events ≤ client_events_max
  pub alternating : IsAlternating events
  pub latest : arrived_last (last? events) ≡ online

add_event-IsHistory :
    (e : RosterEvent) (es : List RosterEvent)
    → IsHistory (not (is_up e.event)) es
    → IsHistory (is_up e.event) (add_event e es)
add_event-IsHistory e es h = record {
  bounded = unfold add_event in length-keep_last client_events_max (es ++ e ∷ []);
  alternating =
      unfold add_event in
      IsAlternating-drop _ (es ++ e ∷ []) (IsAlternating-snoc es e h.alternating h.latest);
  latest = ap arrived_last (last?-add_event e es);
}

-- An arrival is recorded only for a client that was offline.
arrival-IsHistory :
    (online : Bool) (now : ℕ) (via : String) (es : List RosterEvent)
    → IsHistory online es
    → IsHistory true
        (if online then es else add_event (record { ts = now; event = up; via = via }) es)
arrival-IsHistory true now via es h = h
arrival-IsHistory false now via es h =
    add_event-IsHistory (record { ts = now; event = up; via = via }) es h

pub empty-IsHistory : IsHistory false []
empty-IsHistory = record { bounded = omega arith; alternating = tt; latest = refl }

-- What holds of the value, if there is one.
abbrev pub IfSome : {V : Type 0} → (V → Type 0) → Option V → Type 0
IfSome P none = Unit
IfSome P (some v) = P v

kept-IfSome :
    {V : Type 0} (P : V → Type 0) (p : V → Bool) (o : Option V) → IfSome P o → IfSome P (kept p o)
kept-IfSome P p none h = tt
kept-IfSome P p (some v) h = elim (Bool-cases (p v)) [
  | inl stays ↦ rw stays h
  | inr goes ↦ rw goes tt
]

module _ {N A : Type 0} where
  abbrev pub HasHistory : RosterRecord N A → Type 0
  HasHistory r = IsHistory r.online r.events

  reconcile-HasHistory :
      (scan : Scan A) (mac : String) (r : RosterRecord N A)
      → HasHistory r
      → HasHistory (reconcile scan mac r)
  unfolding reconcile
  reconcile-HasHistory scan mac r h = elim (Option-cases scan.approved) [
    | inl e ↦ rw (e, reconcile) h
    | inr (l, e) ↦ rw (e, reconcile) h
  ]

  observe-HasHistory :
      (scan : Scan A) (mac : String) (c : Client N) (r : RosterRecord N A)
      → HasHistory r
      → HasHistory (observe scan mac c r).0
  unfolding observe
  observe-HasHistory scan mac c r h =
      reconcile-HasHistory scan mac _
        (arrival-IsHistory r.online scan.now (via_of c.seen) r.events h)

  expire-HasHistory :
      (scan : Scan A) (p : Bool) (mac : String) (r : RosterRecord N A)
      → HasHistory r
      → HasHistory (expire scan p mac r).0
  unfolding expire
  expire-HasHistory scan p mac r h = elim (Bool-cases ends) [
    | inl over ↦
        let on : r.online ≡ true = ground arith in
        rw over (
          add_event-IsHistory (record { ts = scan.now; event = down; via = r.via }) r.events
            (subst (λ b. IsHistory b r.events) on h))
    | inr alive ↦ rw alive h
  ]
    where
      ends : Bool
      ends =
          scan.full_scan
          && not p
          && r.online
          && not (is_sheltered scan.failed r.seen)
          && leb (r.last_seen + scan.offline_after) scan.now

  scanned-HasHistory :
      (scan : Scan A) (mac : String) (c : Option (Client N)) (o : Option (RosterRecord N A))
      → IfSome HasHistory o
      → IfSome HasHistory (
          kept
            (λ s. not (is_stale scan (is_some c) s))
            (mapped
              (settled scan (is_some c) mac)
              (observed_record scan mac c (mapped (mark_away (is_some c)) o))))
  unfolding mark_away new_record
  scanned-HasHistory scan mac c o h = kept-IfSome HasHistory _ _ (by_cases c o h)
    where
      settle : (p : Bool) (r : RosterRecord N A) → HasHistory r → HasHistory (settled scan p mac r)
      settle p r good =
          expire-HasHistory scan p mac (reconcile scan mac r) (reconcile-HasHistory scan mac r good)

      by_cases :
          (c : Option (Client N)) (o : Option (RosterRecord N A))
          → IfSome HasHistory o
          → IfSome HasHistory (
              mapped
                (settled scan (is_some c) mac)
                (observed_record scan mac c (mapped (mark_away (is_some c)) o)))
      by_cases none none good = tt
      by_cases none (some r) good = settle false (mark_away false r) good
      by_cases (some client) none good =
          settle true _ (observe-HasHistory scan mac client _ empty-IsHistory)
      by_cases (some client) (some r) good =
          settle true _ (observe-HasHistory scan mac client (mark_away true r) good)

  -- Every record of a roster has the history of a client.
  abbrev pub HasHistories : Dict (RosterRecord N A) → Type 0
  HasHistories d = (mac : String) (r : RosterRecord N A) → lookup mac d ≡ some r → HasHistory r

  -- For rosters without repeated keys: if the events of every record are at most fifty, take turns
  -- between arrivals and departures, and end with an arrival exactly while the client is online,
  -- then so they do after a scan.
  pub scan_roster-HasHistories :
      (scan : Scan A) (observed : Dict (Client N)) (d : Dict (RosterRecord N A))
      → IsDict observed
      → IsDict d
      → HasHistories d
      → HasHistories (scan_roster scan observed d).0
  scan_roster-HasHistories scan observed d ho hd h mac r e =
      subst (IfSome HasHistory) (sym (lookup-scan_roster scan mac observed d ho hd) ∙ e) (
        scanned-HasHistory scan mac (lookup mac observed) (lookup mac d)
          (before (lookup mac d) refl))
    where
      before : (o : Option (RosterRecord N A)) → lookup mac d ≡ o → IfSome HasHistory o
      before none found = tt
      before (some s) found = h mac s found
