-- ===== src/Dict/Laws.antt =====
-- The laws of the dictionary's operations, each as an equation with no side condition.
use home_lab_hq.Base.{
  ◌+◌, ◌≤◌, String, ◌≡◌, refl, Bool, Option, none, some, [], ◌∷◌, arith, ◌==◌, eq_iff, eq_refl,
  if◌then◌else◌, length, or_default,
}
use home_lab_hq.Dict.{Dict, lookup, insert, erase, keep_items, map_items, upsert}

-- What a lookup makes of a value that a test may drop.
abbrev pub kept {ℓ} : {V : Type ℓ} → (V → Bool) → Option V → Option V
kept p none = none
kept p (some v) = if p v then some v else none

abbrev pub mapped {ℓ} : {V : Type ℓ} → (V → V) → Option V → Option V
mapped f none = none
mapped f (some v) = some (f v)

module _ {ℓ} {V : Type ℓ} where
  pub lookup-insert :
      (j k : String) (v : V) (d : Dict V)
      → lookup j (insert k v d) ≡ (if k == j then some v else lookup j d)
  unfolding lookup insert
  lookup-insert j k v [] = refl
  lookup-insert j k v ((i, w) ∷ d) =
      ground (arith, eq_iff k j, eq_iff i k, eq_iff i j, lookup-insert j k v d)

  pub lookup-insert_self : (k : String) (v : V) (d : Dict V) → lookup k (insert k v d) ≡ some v
  lookup-insert_self k v d = simp (lookup-insert, eq_refl)

  pub lookup-erase :
      (j k : String) (d : Dict V) → lookup j (erase k d) ≡ (if k == j then none else lookup j d)
  unfolding lookup erase
  lookup-erase j k [] = ground arith
  lookup-erase j k ((i, v) ∷ d) =
      ground (arith, eq_iff k j, eq_iff i k, eq_iff i j, lookup-erase j k d)

  pub lookup-map_items :
      (f : String → V → V) (k : String) (d : Dict V)
      → lookup k (map_items f d) ≡ mapped (f k) (lookup k d)
  unfolding lookup map_items
  lookup-map_items f k [] = refl
  lookup-map_items f k ((j, v) ∷ d) = ground (arith, eq_iff j k, lookup-map_items f k d)

  pub length-insert : (k : String) (v : V) (d : Dict V) → length (insert k v d) ≤ length d + 1
  unfolding insert
  length-insert k v [] = omega arith
  length-insert k v ((j, w) ∷ d) = ground (arith, length-insert k v d)

  pub length-erase : (k : String) (d : Dict V) → length (erase k d) ≤ length d
  unfolding erase
  length-erase k [] = omega arith
  length-erase k ((j, v) ∷ d) = ground (arith, length-erase k d)

  pub length-keep_items : (p : String → V → Bool) (d : Dict V) → length (keep_items p d) ≤ length d
  unfolding keep_items
  length-keep_items p [] = omega arith
  length-keep_items p ((j, v) ∷ d) = ground (arith, length-keep_items p d)

  pub lookup-upsert :
      (j k : String) (v : V) (f : V → V) (d : Dict V)
      → lookup j (upsert k v f d)
        ≡ (if k == j then some (f (or_default (lookup k d) v)) else lookup j d)
  unfolding upsert
  lookup-upsert j k v f d = lookup-insert j k (f (or_default (lookup k d) v)) d

  -- No key stands twice, as Python guarantees of every dict.
  abbrev pub IsDict : Dict V → Type ℓ
  IsDict [] = Unit
  IsDict ((j, v) ∷ d) = (lookup j d ≡ none) × IsDict d

module _ {ℓ} {V : Type ℓ} where
  pub lookup-keep_items :
      (p : String → V → Bool) (k : String) (d : Dict V)
      → IsDict d
      → lookup k (keep_items p d) ≡ kept (p k) (lookup k d)
  unfolding lookup keep_items
  lookup-keep_items p k [] h = refl
  lookup-keep_items p k ((j, v) ∷ d) h = ground (arith, eq_iff j k, lookup-keep_items p k d h.1)

  pub insert-IsDict : (k : String) (v : V) (d : Dict V) → IsDict d → IsDict (insert k v d)
  unfolding insert lookup
  insert-IsDict k v [] h = (refl, tt)
  insert-IsDict k v ((j, w) ∷ d) h =
      ground (arith, insert-IsDict k v d h.1, lookup-insert j k v d, eq_iff k j, eq_iff j k)

  pub erase-IsDict : (k : String) (d : Dict V) → IsDict d → IsDict (erase k d)
  unfolding erase
  erase-IsDict k [] h = tt
  erase-IsDict k ((j, v) ∷ d) h = ground (arith, erase-IsDict k d h.1, lookup-erase j k d)

  pub map_items-IsDict : (f : String → V → V) (d : Dict V) → IsDict d → IsDict (map_items f d)
  unfolding map_items
  map_items-IsDict f [] h = tt
  map_items-IsDict f ((j, v) ∷ d) h =
      ground (arith, map_items-IsDict f d h.1, lookup-map_items f j d)

  pub keep_items-IsDict : (p : String → V → Bool) (d : Dict V) → IsDict d → IsDict (keep_items p d)
  unfolding keep_items
  keep_items-IsDict p [] h = tt
  keep_items-IsDict p ((j, v) ∷ d) h =
      ground (arith, keep_items-IsDict p d h.1, lookup-keep_items p j d h.1)

pub ruleset dict_laws = (lookup-insert, lookup-erase, lookup-map_items, lookup-upsert)
