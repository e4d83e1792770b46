-- ===== src/Prune.antt =====
-- Bounding a dictionary by dropping its oldest records: `_prune_oldest` of backend/store.py, which
-- `login` of backend/auth.py repeats on the sessions.
pub mod Laws
pub mod Ranked
pub mod Newest
pub mod Named
pub mod Chosen
use Prim.Native.Nat.{Ordering}
use Prim.Native.String.{compare}
use home_lab_hq.Base.{
  ℕ, zero, suc, ◌-◌, String, Bool, true, false, List, [], ◌∷◌, ltb, nat_eq, ◌||◌, ◌&&◌,
  if◌then◌else◌, length, map,
}
use home_lab_hq.Dict.{Dict, erase, keys, keep_items}

-- `a < b` on texts, by code points.
unfoldable pub text_lt : String → String → Bool
text_lt a b = elim (compare a b) [ Ordering.lt ↦ true | Ordering.eq ↦ false | Ordering.gt ↦ false ]

-- The first items of a list.
abbrev pub take {ℓ} : {A : Type ℓ} → ℕ → List A → List A
take zero xs = []
take (suc n) [] = []
take (suc n) (x ∷ xs) = x ∷ take n xs

-- `for key in keys: records.pop(key, None)`
abbrev pub erase_all : {V : Type 0} → List String → Dict V → Dict V
erase_all [] d = d
erase_all (k ∷ ks) d = erase_all ks (erase k d)

module _ {V : Type 0} (less : String × V → String × V → Bool) where
  unfoldable pub insert_item : String × V → Dict V → Dict V
  insert_item x [] = x ∷ []
  insert_item x (y ∷ ys) = let rest = insert_item x ys in if less x y then x ∷ y ∷ ys else y ∷ rest

  -- `sorted(records, key=…)`, on the items, for a key that tells them apart.
  unfoldable pub sort_items : Dict V → Dict V
  unfolding insert_item
  sort_items [] = []
  sort_items (x ∷ xs) = insert_item x (sort_items xs)

  -- Dropping, under the names that the records have, the first `n` of the chosen ones.
  unfoldable pub drop_chosen : (String × V → String) → (String → V → Bool) → ℕ → Dict V → Dict V
  unfolding sort_items keep_items
  drop_chosen name chosen n d = erase_all (map name (take n (sort_items (keep_items chosen d)))) d

module _ {V : Type 0} (rank : V → ℕ) where
  -- The order of the sort key `(records[key].get(timestamp, 0), key)`.
  unfoldable pub before : String × V → String × V → Bool
  unfolding text_lt
  before (j, v) (k, w) = ltb (rank v) (rank w) || (nat_eq (rank v) (rank w) && text_lt j k)

  -- The keys of the `overflow` oldest records.
  unfoldable pub oldest : ℕ → Dict V → List String
  unfolding before sort_items
  oldest overflow d = keys (take overflow (sort_items before d))

  -- A positive overflow over the limit is dropped; else nothing happens.
  unfoldable pub prune_oldest : ℕ → Dict V → Dict V
  unfolding oldest
  prune_oldest limit d =
      if ltb limit (length d) then erase_all (oldest (length d - limit) d) d else d
