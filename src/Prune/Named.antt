-- ===== src/Prune/Named.antt =====
-- Records that stand under their own names.
use home_lab_hq.Base.{
  ℕ, zero, suc, String, ◌≡◌, refl, ◌∙◌, inl, inr, Bool, some, List, [], ◌∷◌, arith, ◌==◌, eq_iff,
  map, All, Bool-cases,
}
use home_lab_hq.Dict.{Dict, lookup, insert, map_items, erase, keys, keep_items}
use home_lab_hq.Prune.{take, erase_all, insert_item, sort_items, drop_chosen}

module _ {V : Type 0} (name : String × V → String) where
  -- The name of every record is its key.
  abbrev pub AreNamed : Dict V → Type 0
  AreNamed = All (λ item. name item ≡ item.0)

  pub map-AreNamed : (d : Dict V) → AreNamed d → map name d ≡ keys d
  map-AreNamed [] h = refl
  map-AreNamed ((k, v) ∷ d) h = ground (arith, h.0, map-AreNamed d h.1)

  pub take-AreNamed : (n : ℕ) (d : Dict V) → AreNamed d → AreNamed (take n d)
  take-AreNamed zero d h = tt
  take-AreNamed (suc n) [] h = tt
  take-AreNamed (suc n) (x ∷ d) h = (h.0, take-AreNamed n d h.1)

  pub keep_items-AreNamed :
      (p : String → V → Bool) (d : Dict V) → AreNamed d → AreNamed (keep_items p d)
  unfolding keep_items
  keep_items-AreNamed p [] h = tt
  keep_items-AreNamed p ((k, v) ∷ d) h = elim (Bool-cases (p k v)) [
    | inl stays ↦ rw stays (h.0, keep_items-AreNamed p d h.1)
    | inr goes ↦ rw goes (keep_items-AreNamed p d h.1)
  ]

  pub erase-AreNamed : (k : String) (d : Dict V) → AreNamed d → AreNamed (erase k d)
  unfolding erase
  erase-AreNamed k [] h = tt
  erase-AreNamed k ((j, v) ∷ d) h = elim (Bool-cases (j == k)) [
    | inl goes ↦ rw goes (erase-AreNamed k d h.1)
    | inr stays ↦ rw stays (h.0, erase-AreNamed k d h.1)
  ]

  pub insert-AreNamed :
      (k : String) (v : V) (d : Dict V)
      → ((j : String) → j ≡ k → name (j, v) ≡ j)
      → AreNamed d
      → AreNamed (insert k v d)
  unfolding insert
  insert-AreNamed k v [] e h = (e k refl, tt)
  insert-AreNamed k v ((j, w) ∷ d) e h = elim (Bool-cases (j == k)) [
    | inl same ↦ rw same (e j ((eq_iff j k).0 same), h.1)
    | inr other ↦ rw other (h.0, insert-AreNamed k v d e h.1)
  ]

  insert_item-AreNamed :
      (less : String × V → String × V → Bool) (x : String × V) (d : Dict V)
      → name x ≡ x.0
      → AreNamed d
      → AreNamed (insert_item less x d)
  unfolding insert_item
  insert_item-AreNamed less x [] e h = (e, tt)
  insert_item-AreNamed less x (y ∷ d) e h = elim (Bool-cases (less x y)) [
    | inl first ↦ rw first (e, h)
    | inr later ↦ rw later (h.0, insert_item-AreNamed less x d e h.1)
  ]

  pub sort_items-AreNamed :
      (less : String × V → String × V → Bool) (d : Dict V)
      → AreNamed d
      → AreNamed (sort_items less d)
  unfolding sort_items
  sort_items-AreNamed less [] h = tt
  sort_items-AreNamed less (x ∷ d) h =
      insert_item-AreNamed less x (sort_items less d) h.0 (sort_items-AreNamed less d h.1)

pub keys-AreNamed : {V : Type 0} (d : Dict V) → AreNamed (λ item. item.0) d
keys-AreNamed [] = tt
keys-AreNamed (x ∷ d) = (refl, keys-AreNamed d)

pub erase_all-AreNamed :
    {V : Type 0} (name : String × V → String) (ks : List String) (d : Dict V)
    → AreNamed name d
    → AreNamed name (erase_all ks d)
erase_all-AreNamed name [] d h = h
erase_all-AreNamed name (k ∷ ks) d h =
    erase_all-AreNamed name ks (erase k d) (erase-AreNamed name k d h)

pub drop_chosen-AreNamed :
    {V : Type 0} (less : String × V → String × V → Bool) (name : String × V → String)
    (chosen : String → V → Bool) (n : ℕ) (d : Dict V)
    → AreNamed name d
    → AreNamed name (drop_chosen less name chosen n d)
unfolding drop_chosen
drop_chosen-AreNamed less name chosen n d h =
    erase_all-AreNamed name (map name (take n (sort_items less (keep_items chosen d)))) d h

pub lookup-AreNamed :
    {V : Type 0} (name : String × V → String) (k : String) (v : V) (d : Dict V)
    → AreNamed name d
    → lookup k d ≡ some v
    → name (k, v) ≡ k
unfolding lookup
lookup-AreNamed name k v [] h e = absurd (cc e)
lookup-AreNamed name k v ((j, w) ∷ d) h e = elim (Bool-cases (j == k)) [
  | inl here ↦
      let is : some w ≡ some v = rw here at e in
      let same : w ≡ v = cc is in rw (← (eq_iff j k).0 here, ← same) h.0
  | inr other ↦ lookup-AreNamed name k v d h.1 (rw other at e)
]

pub map_items-AreNamed :
    {V : Type 0} (name : String × V → String) (f : String → V → V) (d : Dict V)
    → ((k : String) (v : V) → name (k, f k v) ≡ name (k, v))
    → AreNamed name d
    → AreNamed name (map_items f d)
unfolding map_items
map_items-AreNamed name f [] same h = tt
map_items-AreNamed name f ((k, v) ∷ d) same h =
    (same k v ∙ h.0, map_items-AreNamed name f d same h.1)
