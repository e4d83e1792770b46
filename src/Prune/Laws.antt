-- ===== src/Prune/Laws.antt =====
-- Pruning keeps the newest records and no more than the limit.
use home_lab_hq.Base.{
  ℕ, zero, suc, ◌+◌, ◌≤◌, String, ◌≡◌, refl, ap, ◌∙◌, inl, inr, Bool, true, none, some, List, [],
  ◌∷◌, arith, ◌==◌, eq_iff, eq_refl, if◌then◌else◌, length, Bool-cases,
}
use mathlib.Core.Path.{subst}
use home_lab_hq.Dict.{Dict, lookup, erase, keys, contains}
use home_lab_hq.Dict.Laws.{IsDict, lookup-erase, erase-IsDict}
use home_lab_hq.Prune.{take, erase_all, insert_item, sort_items}

module _ {V : Type 0} where
  length-erase_absent :
      (k : String) (e : Dict V) → lookup k e ≡ none → length (erase k e) ≡ length e
  unfolding lookup erase
  length-erase_absent k [] a = refl
  length-erase_absent k ((i, w) ∷ e) a = ground (arith, length-erase_absent k e)

  length-erase_found :
      (k : String) (d : Dict V) → IsDict d → contains k d ≡ true → length (erase k d) + 1 ≡ length d
  unfolding lookup erase
  length-erase_found k [] h found = absurd (ground arith)
  length-erase_found k ((j, v) ∷ d) h found = elim (Bool-cases (j == k)) [
    | inl same ↦
        let absent =
          length-erase_absent k d (subst (λ i. lookup i d ≡ none) ((eq_iff j k).0 same) h.0) in
        rw same (omega (arith, absent))
    | inr other ↦ ground (arith, length-erase_found k d h.1)
  ]

  -- Erasing distinct keys that are there removes as many items.
  pub length-erase_all :
      (xs d : Dict V)
      → IsDict xs
      → IsDict d
      → ((k : String) → contains k xs ≡ true → contains k d ≡ true)
      → length (erase_all (keys xs) d) + length xs ≡ length d
  unfolding lookup
  length-erase_all [] d hx hd inside = omega arith
  length-erase_all ((k, v) ∷ xs) d hx hd inside =
      let one = length-erase_found k d hd (inside k (rw (eq_refl k) refl)) in
      let more = length-erase_all xs (erase k d) hx.1 (erase-IsDict k d hd) still in
      omega (arith, one, more)
    where
      still : (j : String) → contains j xs ≡ true → contains j (erase k d) ≡ true
      still j found = ground (arith, hx.0, lookup-erase j k d, eq_iff k j, inside j)

  pub lookup-erase_all_absent :
      (k : String) (xs d : Dict V)
      → lookup k xs ≡ none
      → lookup k (erase_all (keys xs) d) ≡ lookup k d
  unfolding lookup
  lookup-erase_all_absent k [] d h = refl
  lookup-erase_all_absent k ((j, v) ∷ xs) d h =
      lookup-erase_all_absent k xs (erase j d) (ground arith)
      ∙ rw (lookup-erase k j d) (ground arith)

  lookup-erase_all-none :
      (k : String) (ks : List String) (d : Dict V)
      → lookup k d ≡ none
      → lookup k (erase_all ks d) ≡ none
  lookup-erase_all-none k [] d h = h
  lookup-erase_all-none k (j ∷ ks) d h =
      lookup-erase_all-none k ks (erase j d) (rw (lookup-erase k j d) (ground (arith, h)))

  pub lookup-erase_all_present :
      (k : String) (xs d : Dict V) → contains k xs ≡ true → lookup k (erase_all (keys xs) d) ≡ none
  unfolding lookup
  lookup-erase_all_present k [] d h = absurd (ground arith)
  lookup-erase_all_present k ((j, v) ∷ xs) d h = elim (Bool-cases (j == k)) [
    | inl same ↦
        lookup-erase_all-none k (keys xs) (erase j d) (rw (lookup-erase k j d) (rw same refl))
    | inr other ↦ lookup-erase_all_present k xs (erase j d) (rw other at h)
  ]

  -- The first items of a dictionary are one, and hold nothing else.
  lookup-take_absent :
      (k : String) (n : ℕ) (d : Dict V) → lookup k d ≡ none → lookup k (take n d) ≡ none
  unfolding lookup
  lookup-take_absent k zero d h = refl
  lookup-take_absent k (suc n) [] h = refl
  lookup-take_absent k (suc n) ((j, v) ∷ d) h = ground (arith, lookup-take_absent k n d)

  pub take-IsDict : (n : ℕ) (d : Dict V) → IsDict d → IsDict (take n d)
  take-IsDict zero d h = tt
  take-IsDict (suc n) [] h = tt
  take-IsDict (suc n) ((j, v) ∷ d) h = (lookup-take_absent j n d h.0, take-IsDict n d h.1)

  pub lookup-take_found :
      (k : String) (n : ℕ) (d : Dict V) (v : V) → lookup k (take n d) ≡ some v → lookup k d ≡ some v
  unfolding lookup
  lookup-take_found k zero d v h = cc
  lookup-take_found k (suc n) [] v h = cc
  lookup-take_found k (suc n) ((j, w) ∷ d) v h = ground (arith, lookup-take_found k n d v)

  pub length-take_le : (n : ℕ) (d : Dict V) → n ≤ length d → length (take n d) ≡ n
  length-take_le zero d h = refl
  length-take_le (suc n) [] h = absurd (omega arith)
  length-take_le (suc n) (x ∷ d) h = omega (arith, length-take_le n d (omega arith))

module _ {V : Type 0} (less : String × V → String × V → Bool) where
  pub lookup-insert_item :
      (k j : String) (v : V) (xs : Dict V)
      → lookup j xs ≡ none
      → lookup k (insert_item less (j, v) xs) ≡ (if j == k then some v else lookup k xs)
  unfolding lookup insert_item
  lookup-insert_item k j v [] h = refl
  lookup-insert_item k j v ((i, w) ∷ xs) h =
      ground (arith, lookup-insert_item k j v xs, eq_iff i j, eq_iff i k, eq_iff j k)

  length-insert_item :
      (x : String × V) (xs : Dict V) → length (insert_item less x xs) ≡ length xs + 1
  unfolding insert_item
  length-insert_item x [] = omega arith
  length-insert_item x (y ∷ xs) = ground (arith, length-insert_item x xs)

  insert_item-IsDict :
      (j : String) (v : V) (xs : Dict V)
      → lookup j xs ≡ none
      → IsDict xs
      → IsDict (insert_item less (j, v) xs)
  unfolding lookup insert_item
  insert_item-IsDict j v [] h d = (refl, tt)
  insert_item-IsDict j v ((i, w) ∷ xs) h d =
      ground (arith, insert_item-IsDict j v xs, lookup-insert_item i j v xs, eq_iff i j, eq_iff j i)

  pub lookup-sort_items :
      (k : String) (d : Dict V) → IsDict d → (lookup k (sort_items less d) ≡ lookup k d)
  unfolding lookup sort_items
  lookup-sort_items k [] h = refl
  lookup-sort_items k ((j, v) ∷ d) h =
      lookup-insert_item k j v (sort_items less d) (lookup-sort_items j d h.1 ∙ h.0)
      ∙ ap (λ o. if j == k then some v else o) (lookup-sort_items k d h.1)

  pub sort_items-IsDict : (d : Dict V) → IsDict d → IsDict (sort_items less d)
  unfolding sort_items
  sort_items-IsDict [] h = tt
  sort_items-IsDict ((j, v) ∷ d) h =
      insert_item-IsDict j v (sort_items less d) (lookup-sort_items j d h.1 ∙ h.0)
        (sort_items-IsDict d h.1)

  pub length-sort_items : (d : Dict V) → length (sort_items less d) ≡ length d
  unfolding sort_items
  length-sort_items [] = refl
  length-sort_items (x ∷ d) =
      omega (arith, length-insert_item x (sort_items less d), length-sort_items d)
