-- ===== src/Prune/Ranked.antt =====
-- Sorting by an order puts the lower ranks first.
use home_lab_hq.Base.{
  ℕ, zero, suc, ◌≤◌, String, ◌≡◌, ◌∙◌, inl, inr, Bool, true, false, none, some, [], ◌∷◌, arith,
  Bool-cases,
}
use home_lab_hq.Dict.{Dict, lookup}
use home_lab_hq.Dict.Laws.{IsDict}
use home_lab_hq.Prune.{take, insert_item, sort_items}
use home_lab_hq.Prune.Laws.{lookup-insert_item, lookup-sort_items}

module _ {V : Type 0} (rank : V → ℕ) where
  -- Every later record is at least as new.
  abbrev pub IsRanked : Dict V → Type 0
  IsRanked [] = Unit
  IsRanked ((j, v) ∷ d) =
      ((k : String) (w : V) → lookup k d ≡ some w → rank v ≤ rank w) × IsRanked d

  pub taken_is_older :
      (n : ℕ) (d : Dict V) (k j : String) (v w : V)
      → IsRanked d
      → lookup k (take n d) ≡ some v
      → lookup j (take n d) ≡ none
      → lookup j d ≡ some w
      → rank v ≤ rank w
  unfolding lookup
  taken_is_older zero d k j v w r hk absent hj = cc
  taken_is_older (suc n) [] k j v w r hk absent hj = cc
  taken_is_older (suc n) ((i, u) ∷ d) k j v w r hk absent hj =
      ground (arith, taken_is_older n d k j v w r.1, r.0 j w)

module _ {V : Type 0} (rank : V → ℕ) (less : String × V → String × V → Bool)
    (agrees : (x y : String × V) → less x y ≡ true → rank x.1 ≤ rank y.1)
    (agrees_not : (x y : String × V) → less x y ≡ false → rank y.1 ≤ rank x.1) where
  insert_item-IsRanked :
      (j : String) (v : V) (xs : Dict V)
      → lookup j xs ≡ none
      → IsRanked rank xs
      → IsRanked rank (insert_item less (j, v) xs)
  unfolding insert_item lookup
  insert_item-IsRanked j v [] h r = ((λ k w e. cc), tt)
  insert_item-IsRanked j v ((i, u) ∷ xs) h r = elim (Bool-cases (less (j, v) (i, u))) [
    | inl first ↦ rw first ((λ k w e. ground (arith, agrees (j, v) (i, u) first, r.0 k w)), r)
    | inr later ↦ rw later (
      (λ k w e.
          ground
            (arith, agrees_not (j, v) (i, u) later, r.0 k w, lookup-insert_item less k j v xs)),
      insert_item-IsRanked j v xs (ground arith) r.1,
    )
  ]

  pub sort_items-IsRanked : (d : Dict V) → IsDict d → IsRanked rank (sort_items less d)
  unfolding sort_items
  sort_items-IsRanked [] h = tt
  sort_items-IsRanked ((j, v) ∷ d) h =
      insert_item-IsRanked j v (sort_items less d) (lookup-sort_items less j d h.1 ∙ h.0)
        (sort_items-IsRanked d h.1)
