-- ===== src/Dict.antt =====
-- Python's `dict` with text keys, as its items in insertion order. A write to a known key keeps
-- its place; a new key goes to the end.
pub mod Laws
use home_lab_hq.Base.{
  ℕ, String, Bool, true, false, Option, none, some, List, [], ◌∷◌, ◌==◌, if◌then◌else◌, map,
  is_some, length, or_default,
}

abbrev pub Dict {ℓ} : Type ℓ → Type ℓ
Dict V = List (String × V)

module _ {ℓ} {V : Type ℓ} where
  -- `d.get(k)`
  unfoldable pub lookup : String → Dict V → Option V
  lookup k [] = none
  lookup k ((j, v) ∷ d) = let rest = lookup k d in if j == k then some v else rest

  -- `k in d`
  abbrev pub contains : String → Dict V → Bool
  contains k d = is_some (lookup k d)

  -- `d[k] = v`
  unfoldable pub insert : String → V → Dict V → Dict V
  insert k v [] = (k, v) ∷ []
  insert k v ((j, w) ∷ d) = let rest = insert k v d in if j == k then (j, v) ∷ d else (j, w) ∷ rest

  -- `d.pop(k, None)`
  unfoldable pub erase : String → Dict V → Dict V
  erase k [] = []
  erase k ((j, v) ∷ d) = let rest = erase k d in if j == k then rest else (j, v) ∷ rest

  -- Deleting every item that fails the test, in one pass over a copy of the items.
  unfoldable pub keep_items : (String → V → Bool) → Dict V → Dict V
  keep_items p [] = []
  keep_items p ((j, v) ∷ d) = let rest = keep_items p d in if p j v then (j, v) ∷ rest else rest

  -- A loop over the items that replaces each value.
  unfoldable pub map_items : (String → V → V) → Dict V → Dict V
  map_items f [] = []
  map_items f ((j, v) ∷ d) = (j, f j v) ∷ map_items f d

  abbrev pub values : Dict V → List V
  values [] = []
  values ((j, v) ∷ d) = v ∷ values d

  abbrev pub keys : Dict V → List String
  keys [] = []
  keys ((j, v) ∷ d) = j ∷ keys d

  -- `d[k] = f(d.setdefault(k, v))`
  unfoldable pub upsert : String → V → (V → V) → Dict V → Dict V
  upsert k v f d = insert k (f (or_default (lookup k d) v)) d
