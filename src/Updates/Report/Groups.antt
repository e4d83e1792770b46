-- ===== src/Updates/Report/Groups.antt =====
-- The groups of `aggregate`: which devices they are of, and what results each has.
use home_lab_hq.Base.{
  ℕ, suc, ◌+◌, String, ◌≡◌, refl, sym, ap, ◌∙◌, inl, inr, Bool, true, Option, none, some, List, [],
  ◌∷◌, arith, ◌==◌, eq_iff, ◌&&◌, not, keep, length, leb, ltb, if◌then◌else◌, any, all, or_default,
  Bool-cases,
}
use home_lab_hq.Dict.{Dict, lookup, insert, upsert, keys}
use home_lab_hq.Dict.Laws.{IsDict, lookup-upsert, insert-IsDict}
use home_lab_hq.Updates.Report.{Check, Group, new_group, add_check, group_all, checks_of, count}
use home_lab_hq.Updates.Report.Counts.{group_count, group_count-add_check, count-append, count-any}

-- A list of ids with an id that it lacks at its end.
abbrev with_id : String → List String → List String
with_id k [] = k ∷ []
with_id k (j ∷ js) = let rest = with_id k js in if j == k then j ∷ js else j ∷ rest

abbrev ids_of : List Check → List String → List String
ids_of [] ids = ids
ids_of (c ∷ checks) ids = ids_of checks (with_id c.device_id ids)

-- The devices of the results, each once.
abbrev pub device_ids : List Check → List String
device_ids checks = ids_of checks []

abbrev pub results_of : String → List Check → List Check
results_of id checks = keep (λ c. Check.device_id c == id) checks

-- There are results, and all of them are unsupported.
abbrev pub all_unsupported : List Check → Bool
all_unsupported checks = leb 1 (length checks) && all (λ c. Check.status c == "unsupported") checks

keys-insert :
    {V : Type 0} (k : String) (v : V) (d : Dict V) → keys (insert k v d) ≡ with_id k (keys d)
unfolding insert
keys-insert k v [] = refl
keys-insert k v ((j, w) ∷ d) = ground (arith, keys-insert k v d)

pub keys-group_all :
    (checks : List Check) (d : Dict Group) → keys (group_all checks d) ≡ ids_of checks (keys d)
unfolding group_all upsert
keys-group_all [] d = refl
keys-group_all (c ∷ checks) d =
    keys-group_all checks (upsert c.device_id (new_group c) (add_check c) d)
    ∙ ap (ids_of checks)
        (keys-insert c.device_id (add_check c (or_default (lookup c.device_id d) (new_group c))) d)

pub group_all-IsDict :
    (checks : List Check) (d : Dict Group) → IsDict d → IsDict (group_all checks d)
unfolding group_all upsert
group_all-IsDict [] d h = h
group_all-IsDict (c ∷ checks) d h =
    group_all-IsDict checks (upsert c.device_id (new_group c) (add_check c) d) (
      insert-IsDict c.device_id (add_check c (or_default (lookup c.device_id d) (new_group c))) d h)

module _ (p : Check → Bool) (id : String) where
  -- The results of a device that are grouped so far and pass the test.
  abbrev held : Option Group → ℕ
  held none = 0
  held (some g) = group_count p g

  held-or_default :
      (c : Check) (o : Option Group)
      → group_count p (add_check c (or_default o (new_group c))) ≡ held o + count p (c ∷ [])
  held-or_default c none =
      group_count-add_check p c (new_group c) ∙ unfold checks_of new_group in refl
  held-or_default c (some g) = group_count-add_check p c g

  held-upsert :
      (c : Check) (d : Dict Group)
      → held (lookup id (upsert c.device_id (new_group c) (add_check c) d))
        ≡ held (lookup id d) + count p (results_of id (c ∷ []))
  held-upsert c d =
      let at_it = lookup-upsert id c.device_id (new_group c) (add_check c) d in
      elim (Bool-cases (c.device_id == id)) [
        | inl here ↦
            let same : c.device_id ≡ id = (eq_iff c.device_id id).0 here in
            let found : lookup id (upsert c.device_id (new_group c) (add_check c) d)
                ≡ some (add_check c (or_default (lookup c.device_id d) (new_group c))) =
              at_it ∙ rw here refl in
            let at_own : held (lookup c.device_id d) ≡ held (lookup id d) =
              ap (λ i. held (lookup i d)) same in
            rw here (
              ap held found
              ∙ held-or_default c (lookup c.device_id d)
              ∙ ap (λ n. n + count p (c ∷ [])) at_own)
        | inr other ↦
            let kept : lookup id (upsert c.device_id (new_group c) (add_check c) d) ≡ lookup id d =
              at_it ∙ rw other refl in
            rw other (ap held kept ∙ omega arith)
      ]

  held-group_all :
      (checks : List Check) (d : Dict Group)
      → held (lookup id (group_all checks d)) ≡ held (lookup id d) + count p (results_of id checks)
  unfolding group_all
  held-group_all [] d = omega arith
  held-group_all (c ∷ checks) d =
      let d_next = upsert c.device_id (new_group c) (add_check c) d in
      let apart : count p (results_of id (c ∷ checks))
          ≡ count p (results_of id (c ∷ [])) + count p (results_of id checks) =
        elim (Bool-cases (c.device_id == id)) [
          | inl here ↦ rw here (count-append p (c ∷ []) (results_of id checks))
          | inr other ↦ rw other (omega arith)
        ] in
      held-group_all checks d_next ∙ omega (arith, held-upsert c d, apart)

  -- The group of a device has the results of the device.
  count-grouped :
      (checks : List Check) (g : Group)
      → lookup id (group_all checks []) ≡ some g
      → count p (checks_of g) ≡ count p (results_of id checks)
  count-grouped checks g e =
      sym (ap held e) ∙ held-group_all checks [] ∙ unfold lookup in omega arith

  pub any-grouped :
      (checks : List Check) (g : Group)
      → lookup id (group_all checks []) ≡ some g
      → any p (checks_of g) ≡ any p (results_of id checks)
  any-grouped checks g e =
      sym (count-any p (checks_of g))
      ∙ ap (ltb 0) (count-grouped checks g e)
      ∙ count-any p (results_of id checks)

all-any : {A : Type 0} (p : A → Bool) (xs : List A) → all p xs ≡ not (any (λ x. not (p x)) xs)
all-any p [] = refl
all-any p (x ∷ xs) = ground (arith, all-any p xs)

pub count-all_of : {A : Type 0} (xs : List A) → count (λ x. true) xs ≡ length xs
count-all_of [] = refl
count-all_of (x ∷ xs) = ap suc (count-all_of xs)

pub unsupported-grouped :
    (id : String) (checks : List Check) (g : Group)
    → lookup id (group_all checks []) ≡ some g
    → all_unsupported (checks_of g) ≡ all_unsupported (results_of id checks)
unsupported-grouped id checks g e =
    let same_length : length (checks_of g) ≡ length (results_of id checks) =
      sym (count-all_of (checks_of g))
      ∙ count-grouped (λ c. true) id checks g e
      ∙ count-all_of (results_of id checks) in
    let none_else : all (λ c. Check.status c == "unsupported") (checks_of g)
        ≡ all (λ c. Check.status c == "unsupported") (results_of id checks) =
      all-any (λ c. Check.status c == "unsupported") (checks_of g)
      ∙ ap not (any-grouped (λ c. not (Check.status c == "unsupported")) id checks g e)
      ∙ sym (all-any (λ c. Check.status c == "unsupported") (results_of id checks)) in
    rw (same_length, none_else) refl
