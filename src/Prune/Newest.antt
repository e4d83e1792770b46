-- ===== src/Prune/Newest.antt =====
-- The pruned dictionary: its length, and which records are in it.
use home_lab_hq.Base.{
  ℕ, ◌-◌, ◌≤◌, ◌<◌, String, ◌≡◌, refl, sym, ap, ◌∙◌, inl, inr, true, false, none, some, List, [],
  ◌∷◌, arith, ltb, if◌then◌else◌, length, is_some, Bool-cases, Option-cases,
}
use home_lab_hq.Dict.{Dict, lookup, erase, keys, contains}
use home_lab_hq.Dict.Laws.{IsDict, erase-IsDict, lookup-erase}
use home_lab_hq.Prune.{take, erase_all, before, sort_items, oldest, prune_oldest}
use home_lab_hq.Prune.Laws.{
  length-erase_all, lookup-erase_all_absent, lookup-erase_all_present, take-IsDict,
  lookup-take_found, length-take_le, lookup-sort_items, sort_items-IsDict, length-sort_items,
}
use home_lab_hq.Prune.Ranked.{taken_is_older, sort_items-IsRanked}

module _ {V : Type 0} (rank : V → ℕ) where
  pub before-le : (x y : String × V) → before rank x y ≡ true → rank x.1 ≤ rank y.1
  unfolding before
  before-le x y h = ground arith

  pub not_before-le : (x y : String × V) → before rank x y ≡ false → rank y.1 ≤ rank x.1
  unfolding before
  not_before-le x y h = ground arith

  -- The lookups of a dictionary whose oldest records are dropped.
  lookup-oldest :
      (n : ℕ) (k : String) (d : Dict V)
      → IsDict d
      → lookup k (erase_all (oldest rank n d) d)
        ≡ (if is_some (lookup k (take n (sort_items (before rank) d))) then none else lookup k d)
  unfolding oldest
  lookup-oldest n k d h = elim (Option-cases (lookup k (take n (sort_items (before rank) d)))) [
    | inl absent ↦
        rw absent (lookup-erase_all_absent k (take n (sort_items (before rank) d)) d absent)
    | inr (v, found) ↦
        rw found
          (lookup-erase_all_present k (take n (sort_items (before rank) d)) d (ap is_some found))
  ]

  -- On a dictionary without repeated keys: pruning leaves at most the limit, exactly the
  -- limit of more records, all records if they are within it, and of two records the older one is never kept in place of the newer one.
  pub prune_oldest_lem :
      (limit : ℕ) (d : Dict V)
      → IsDict d
      → (length (prune_oldest rank limit d) ≤ limit)
        × (limit < length d → length (prune_oldest rank limit d) ≡ limit)
        × (length d ≤ limit → prune_oldest rank limit d ≡ d)
        × ((k j : String) (v w : V)
            → lookup k d ≡ some v
            → lookup k (prune_oldest rank limit d) ≡ none
            → lookup j (prune_oldest rank limit d) ≡ some w
            → (lookup j d ≡ some w) × (rank v ≤ rank w))
  unfolding prune_oldest
  prune_oldest_lem limit d h = elim (Bool-cases (ltb limit (length d))) [
    | inl over ↦
        rw over
          (omega (arith, full over), (λ _. full over), (λ within. absurd (ground arith)), newest)
    | inr within ↦ rw within (
      ground arith,
      (λ over. absurd (ground arith)),
      (λ _. refl),
      λ k j v w hk gone kept. absurd (cc (hk, gone)),
    )
  ]
    where
      n : ℕ
      n = length d - limit

      sorted : Dict V
      sorted = sort_items (before rank) d

      inside : (k : String) → contains k (take n sorted) ≡ true → contains k d ≡ true
      inside k found = elim (Option-cases (lookup k (take n sorted))) [
        | inl absent ↦ absurd (cc (found, absent))
        | inr (v, e) ↦
            ap is_some
              (sym (lookup-sort_items (before rank) k d h) ∙ lookup-take_found k n sorted v e)
      ]

      full : ltb limit (length d) ≡ true → length (erase_all (keys (take n sorted)) d) ≡ limit
      full over =
          let e =
            length-erase_all (take n sorted) d
              (take-IsDict n sorted (sort_items-IsDict (before rank) d h)) h inside in
          let t = length-take_le n sorted (omega (arith, length-sort_items (before rank) d)) in
          ground (arith, e, t)

      survives :
          (j : String) (w : V)
          → lookup j (erase_all (keys (take n sorted)) d) ≡ some w
          → (lookup j d ≡ some w) × (lookup j (take n sorted) ≡ none)
      survives j w kept = elim (Option-cases (lookup j (take n sorted))) [
        | inl absent ↦ (sym (lookup-erase_all_absent j (take n sorted) d absent) ∙ kept, absent)
        | inr (v, found) ↦
            absurd (cc (lookup-erase_all_present j (take n sorted) d (ap is_some found), kept))
      ]

      newest :
          (k j : String) (v w : V)
          → lookup k d ≡ some v
          → lookup k (erase_all (keys (take n sorted)) d) ≡ none
          → lookup j (erase_all (keys (take n sorted)) d) ≡ some w
          → (lookup j d ≡ some w) × (rank v ≤ rank w)
      newest k j v w hk gone kept =
          let front = take n sorted in
          let (jd, absent) = survives j w kept in
          elim (Option-cases (lookup k front)) [
            | inl missing ↦ absurd (cc (lookup-erase_all_absent k front d missing, gone, hk))
            | inr (u, found) ↦
                let same : u ≡ v = cc (
                  lookup-take_found k n sorted u found,
                  lookup-sort_items (before rank) k d h,
                  hk,
                ) in
                (
                  jd,
                  taken_is_older rank n sorted k j v w
                      (sort_items-IsRanked rank (before rank) (before-le) (not_before-le) d h)
                      (rw (← same) found) absent (lookup-sort_items (before rank) j d h ∙ jd),
                )
          ]

module _ {V : Type 0} where
  pub erase_all_was :
      (k : String) (v : V) (ks : List String) (d : Dict V)
      → lookup k (erase_all ks d) ≡ some v
      → lookup k d ≡ some v
  erase_all_was k v [] d h = h
  erase_all_was k v (j ∷ ks) d h =
      let before = erase_all_was k v ks (erase j d) h in ground (arith, before, lookup-erase k j d)

  pub erase_all-IsDict : (ks : List String) (d : Dict V) → IsDict d → IsDict (erase_all ks d)
  erase_all-IsDict [] d h = h
  erase_all-IsDict (j ∷ ks) d h = erase_all-IsDict ks (erase j d) (erase-IsDict j d h)

  pub prune_oldest_was :
      (rank : V → ℕ) (limit : ℕ) (k : String) (v : V) (d : Dict V)
      → lookup k (prune_oldest rank limit d) ≡ some v
      → lookup k d ≡ some v
  unfolding prune_oldest
  prune_oldest_was rank limit k v d h = elim (Bool-cases (ltb limit (length d))) [
    | inl over ↦ erase_all_was k v (oldest rank (length d - limit) d) d (rw over at h)
    | inr within ↦ rw within at h
  ]

  pub prune_oldest-IsDict :
      (rank : V → ℕ) (limit : ℕ) (d : Dict V) → IsDict d → IsDict (prune_oldest rank limit d)
  unfolding prune_oldest
  prune_oldest-IsDict rank limit d h = elim (Bool-cases (ltb limit (length d))) [
    | inl over ↦ rw over (erase_all-IsDict (oldest rank (length d - limit) d) d h)
    | inr within ↦ rw within h
  ]
