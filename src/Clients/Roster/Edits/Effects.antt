-- ===== src/Clients/Roster/Edits/Effects.antt =====
-- What the operations on a roster do, and that they leave the other owners alone.
use home_lab_hq.Base.{
  ℕ, suc, ◌+◌, String, ◌≡◌, ◌≢◌, refl, sym, ◌∙◌, inl, inr, Bool, true, false, Option, none, some,
  List, [], ◌∷◌, arith, eq_iff, ◌||◌, not, if◌then◌else◌, Bool-cases, Option-cases, nat_eq, length,
  map, all,
}
use home_lab_hq.Dict.{Dict, lookup, insert, erase}
use home_lab_hq.Dict.Laws.{IsDict, lookup-insert, lookup-insert_self, lookup-erase, erase-IsDict}
use home_lab_hq.Errors.{Failure, Outcome, ok, error}
use home_lab_hq.Clients.Merge.{Client}
use home_lab_hq.Clients.Roster.{RosterRecord, elem}
use home_lab_hq.Clients.Roster.Document.{Rosters, Observed, roster, record_observations}
use home_lab_hq.Clients.Roster.Edits.{
  clean_mac, is_mac, forget_all, put_known, forget, edit, ignore, set_metadata,
  record_nac_observations,
}

module _ {V : Type 0} where
  length-erase_absent :
      (k : String) (d : Dict V) → lookup k d ≡ none → length (erase k d) ≡ length d
  unfolding lookup erase
  length-erase_absent k [] e = refl
  length-erase_absent k ((j, w) ∷ d) e = ground (arith, length-erase_absent k d)

  length-erase_known :
      (k : String) (v : V) (d : Dict V)
      → IsDict d
      → lookup k d ≡ some v
      → suc (length (erase k d)) ≡ length d
  unfolding lookup erase
  length-erase_known k v [] h e = absurd (cc e)
  length-erase_known k v ((j, w) ∷ d) h e =
      ground (arith, length-erase_known k v d h.1, length-erase_absent j d h.0, eq_iff j k)

  -- Each record that goes is counted once.
  count-forget_all :
      (macs : List String) (d : Dict V)
      → IsDict d
      → (forget_all macs d).0 + length (forget_all macs d).1 ≡ length d
  unfolding forget_all
  count-forget_all [] d h = omega arith
  count-forget_all (mac ∷ macs) d h =
      let rest = count-forget_all macs (erase mac d) (erase-IsDict mac d h) in
      elim (Option-cases (lookup mac d)) [
        | inl missing ↦ rw missing (omega (arith, rest, length-erase_absent mac d missing))
        | inr (r, found) ↦ rw found (omega (arith, rest, length-erase_known mac r d h found))
      ]

  lookup-forget_all :
      (k : String) (macs : List String) (d : Dict V)
      → lookup k (forget_all macs d).1 ≡ (if elem k macs then none else lookup k d)
  unfolding forget_all
  lookup-forget_all k [] d = refl
  lookup-forget_all k (mac ∷ macs) d =
      ground (arith, lookup-forget_all k macs (erase mac d), lookup-erase k mac d)

forget_all-nil : {V : Type 0} (macs : List String) → (forget_all {V = V} macs []).1 ≡ []
unfolding forget_all erase
forget_all-nil [] = refl
forget_all-nil (mac ∷ macs) = forget_all-nil macs

module _ {N A C : Type 0} where
  roster-put_known :
      (owner : String) (d : Dict (RosterRecord N A)) (doc : Rosters N A C)
      → (lookup owner doc.rosters ≡ none → d ≡ [])
      → roster owner (put_known owner d doc) ≡ d
  unfolding roster put_known
  roster-put_known owner d doc h = elim (Option-cases (lookup owner doc.rosters)) [
    | inl missing ↦ rw missing (rw missing (sym (h missing)))
    | inr (x, found) ↦ rw found (rw (lookup-insert_self owner d doc.rosters) refl)
  ]

  forgotten-nil :
      (owner : String) (macs : List String) (doc : Rosters N A C)
      → lookup owner doc.rosters ≡ none
      → (forget_all macs (roster owner doc)).1 ≡ []
  unfolding roster
  forgotten-nil owner macs doc missing = rw missing (forget_all-nil macs)

  -- For an owner whose roster has no address twice: `forget` raises and writes nothing, or drops
  -- exactly the given addresses and returns how many of them were there.
  pub forget_lem :
      (owner : String) (macs : List String) (doc : Rosters N A C)
      → IsDict (roster owner doc)
      → let (r, after) = forget owner macs doc in
        ((f : Failure) → r ≡ error f → after ≡ doc)
        × ((n : ℕ)
            → r ≡ ok n
            → (n + length (roster owner after) ≡ length (roster owner doc))
              × ((k : String)
                  → lookup k (roster owner after)
                    ≡ (if elem k (map clean_mac macs) then none else lookup k (roster owner doc))))
  unfolding forget
  forget_lem owner macs doc h = elim (Bool-cases refused) [
    | inl bad ↦ rw bad ((λ f e. refl), λ n e. absurd (cc e))
    | inr valid ↦ rw valid (
      (λ f e. absurd (cc e)),
      λ n e.
          let same : (forget_all cleaned (roster owner doc)).0 ≡ n = cc e in
          let dropped = (forget_all cleaned (roster owner doc)).1 in
          let written = roster-put_known owner dropped doc (forgotten-nil owner cleaned doc) in
          rw written (
            rw (← same) (count-forget_all cleaned (roster owner doc) h),
            λ k. lookup-forget_all k cleaned (roster owner doc),
          ),
    )
  ]
    where
      cleaned : List String
      cleaned = map clean_mac macs

      refused : Bool
      refused = nat_eq (length cleaned) 0 || not (all is_mac cleaned)

  guarded :
      (other : String) (valid : Bool) (x y : Outcome String) (doc after : Rosters N A C)
      → lookup other after.rosters ≡ lookup other doc.rosters
      → let r : Outcome String × Rosters N A C = if valid then (x, after) else (y, doc) in
        lookup other r.1.rosters ≡ lookup other doc.rosters
  guarded other true x y doc after e = e
  guarded other false x y doc after e = refl

  -- Whatever an operation does to the roster of one owner, every other owner's stays as it was.
  pub lookup-other_owner :
      (owner other : String) (doc : Rosters N A C)
      → owner ≢ other
      → ((clients : List (Client N)) (o : Observed A C)
          → lookup other (record_observations owner clients o doc).0.rosters
            ≡ lookup other doc.rosters)
        × ((clients : List (Client N)) (approved : List String) (o : Observed A C)
            → lookup other (record_nac_observations owner clients approved o doc).1.rosters
              ≡ lookup other doc.rosters)
        × ((macs : List String)
            → lookup other (forget owner macs doc).1.rosters ≡ lookup other doc.rosters)
        × ((mac : String) (now : ℕ)
            → lookup other (ignore owner mac now doc).1.rosters ≡ lookup other doc.rosters)
        × ((mac name notes : String) (notify : Option Bool) (now : ℕ)
            → lookup other (set_metadata owner mac name notes notify now doc).1.rosters
              ≡ lookup other doc.rosters)
  unfolding record_observations record_nac_observations forget put_known ignore set_metadata edit
  lookup-other_owner owner other doc ne =
      let keeps : (d : Dict (RosterRecord N A)) (rs : Dict (Dict (RosterRecord N A)))
          → lookup other (insert owner d rs) ≡ lookup other rs =
        λ d rs. ground (arith, lookup-insert other owner d rs, eq_iff owner other) in
      (
        (λ clients o. keeps _ _),
        (λ clients approved o. keeps _ _ ∙ keeps _ _),
        (λ macs.
            ground
              (arith, keeps (forget_all (map clean_mac macs) (roster owner doc)).1 doc.rosters)),
        (λ mac now. guarded other (is_mac (clean_mac mac)) _ _ _ _ (keeps _ _)),
        λ mac name notes notify now. guarded other (is_mac (clean_mac mac)) _ _ _ _ (keeps _ _),
      )
