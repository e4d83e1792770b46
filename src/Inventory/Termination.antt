-- ===== src/Inventory/Termination.antt =====
-- The depth of the visit of the groups, and the groups that it records.
use home_lab_hq.Base.{
  ℕ, zero, suc, ◌+◌, ◌≤◌, String, ◌≡◌, ◌≢◌, refl, sym, ap, ◌∙◌, inl, inr, true, false, Option, some,
  List, [], ◌∷◌, ◌++◌, arith, ◌==◌, eq_iff, eq_refl, not, length, is_some, Bool-cases, Option-cases,
  is_in,
}
use home_lab_hq.Dict.{Dict, lookup, keys, contains, keep_items}
use home_lab_hq.Dict.Laws.{lookup-insert, length-keep_items}
use mathlib.Core.Path.{subst}
use home_lab_hq.Inventory.{
  Group, Visited, visit_children, record_group, recorded, visit, visit_all, inventory_groups,
}

-- The groups of the payload that are not being visited.
abbrev left : List String → Dict Group → ℕ
left visiting d = length (keep_items (λ k g. not (is_in k visiting)) d)

left_le :
    (name : String) (visiting : List String) (d : Dict Group)
    → left (name ∷ visiting) d ≤ left visiting d
unfolding keep_items
left_le name visiting [] = omega arith
left_le name visiting ((k, g) ∷ d) = ground (arith, left_le name visiting d)

left_less :
    (name : String) (visiting : List String) (d : Dict Group)
    → contains name d ≡ true
    → is_in name visiting ≡ false
    → left (name ∷ visiting) d + 1 ≤ left visiting d
unfolding keep_items lookup
left_less name visiting [] found out = absurd (cc found)
left_less name visiting ((k, g) ∷ d) found out = elim (Bool-cases (k == name)) [
  | inl here ↦
      let same = (eq_iff k name).0 here in
      let fewer = left_le name visiting d in rw same (ground (arith, fewer, out, eq_refl name))
  | inr other ↦
      let fewer = left_less name visiting d (rw other at found) out in
      ground (arith, fewer, eq_iff name k, eq_iff k name)
]

-- What a visit comes to: it returns, keeps the groups that are recorded, and records its own.
abbrev Extends : Dict (List String) → Dict (List String) → Type 0
Extends before after = (k : String) → contains k before ≡ true → contains k after ≡ true

visit_children-some :
    (f : String → Dict (List String) → Option Visited) (children : List String)
    (direct : List String) (groups : Dict (List String))
    → ((child : String) (before : Dict (List String))
        → (v : Visited) × (f child before ≡ some v) × Extends before v.1)
    → (v : Visited) × (visit_children f children direct groups ≡ some v) × Extends groups v.1
unfolding visit_children
visit_children-some f [] direct groups each = ((direct, groups), refl, λ k h. h)
visit_children-some f (child ∷ children) direct groups each =
    let (v, is, more) = each child groups in
    let (w, rest, still) = visit_children-some f children (direct ++ v.0) v.1 each in
    (w, rw is rest, λ k h. still k (more k h))

record_group-Extends :
    (name : String) (v : Visited) (groups : Dict (List String))
    → Extends groups v.1
    → Extends groups (record_group name v).1
      × (name ≢ "_meta" → contains name (record_group name v).1 ≡ true)
unfolding record_group
record_group-Extends name v groups more = elim (Bool-cases (name == "_meta")) [
  | inl meta ↦ rw meta (more, λ other. absurd (other ((eq_iff name "_meta").0 meta)))
  | inr group ↦ rw group (
    (λ k h. ground (arith, lookup-insert k name v.0 v.1, more k h)),
    λ other. ground (arith, lookup-insert name name v.0 v.1, eq_refl name),
  )
]

-- What a visit of a group comes to.
record Visits (name : String) (visiting : List String) (groups : Dict (List String))
    (result : Option Visited) : Type 0 where
  pub answer : Visited
  pub is : result ≡ some answer
  pub keeps : Extends groups answer.1
  pub records : is_in name visiting ≡ false → name ≢ "_meta" → contains name answer.1 ≡ true

recorded-Visits :
    (name : String) (visiting : List String) (groups : Dict (List String)) (below : Option Visited)
    → ((v : Visited) × (below ≡ some v) × Extends groups v.1)
    → Visits name visiting groups (recorded name below)
unfolding recorded
recorded-Visits name visiting groups below (v, is, more) =
    let whole = record_group-Extends name v groups more in
    rw is (record {
      answer = record_group name v;
      is = refl;
      keeps = whole.0;
      records = λ out other. whole.1 other;
    })

visit-Visits :
    (payload : Dict Group) (n : ℕ) (visiting : List String) (name : String)
    (groups : Dict (List String))
    → left visiting payload + 2 ≤ n
    → Visits name visiting groups (visit payload n visiting name groups)
unfolding visit
visit-Visits payload zero visiting name groups enough = absurd (omega arith)
visit-Visits payload (suc n) visiting name groups enough = elim (Bool-cases (is_in name visiting)) [
  | inl again ↦ rw again (record {
    answer = ([], groups);
    is = refl;
    keeps = λ k h. h;
    records = λ out other. absurd (cc (again, out));
  })
  | inr new ↦ elim (Option-cases (lookup name payload)) [
    | inl absent ↦
        rw (new, absent)
          (recorded-Visits name visiting groups (some ([], groups)) (([], groups), refl, λ k h. h))
    | inr (g, found) ↦
        let fewer = left_less name visiting payload (ap is_some found) new in
        rw (new, found)
          (recorded-Visits name visiting groups
            (visit_children (visit payload n (name ∷ visiting)) g.children g.hosts groups)
            (visit_children-some (visit payload n (name ∷ visiting)) g.children g.hosts groups
              (λ child before.
                let below =
                  visit-Visits payload n (name ∷ visiting) child before
                    (omega (arith, fewer, enough)) in
                (below.answer, below.is, below.keeps))))
  ]
]

visit_all-some :
    (payload : Dict Group) (n : ℕ) (names : List String) (groups : Dict (List String))
    → left [] payload + 2 ≤ n
    → (after : Dict (List String)) × (visit_all payload n names groups ≡ some after)
      × Extends groups after
      × ((k : String) → is_in k names ≡ true → k ≢ "_meta" → contains k after ≡ true)
unfolding visit_all
visit_all-some payload n [] groups enough = (groups, refl, (λ k h. h), λ k h other. absurd (cc h))
visit_all-some payload n (name ∷ names) groups enough = elim (Bool-cases (name == "_meta")) [
  | inl meta ↦
      let (after, is, more, all_there) = visit_all-some payload n names groups enough in
      (
        after,
        rw meta is,
        more,
        λ k h other.
            all_there k (later k (λ e. other (sym e ∙ (eq_iff name "_meta").0 meta)) h) other,
      )
  | inr group ↦
      let own = visit-Visits payload n [] name groups enough in
      let (after, is, more, all_there) = visit_all-some payload n names own.answer.1 enough in
      (
        after,
        rw (group, own.is) is,
        (λ k h. more k (own.keeps k h)),
        λ k h other. elim (Bool-cases (name == k)) [
          | inl here ↦
              let same = (eq_iff name k).0 here in
              more k (
                subst (λ x. contains x own.answer.1 ≡ true) same
                  (own.records refl (λ e. other (sym same ∙ e))))
          | inr away ↦ all_there k (rw away at h) other
        ],
      )
]
  where
    later : (k : String) → name ≢ k → is_in k (name ∷ names) ≡ true → is_in k names ≡ true
    later k other h = ground (arith, eq_iff name k, other, h)

is_in-keys : (k : String) (d : Dict Group) → contains k d ≡ true → is_in k (keys d) ≡ true
unfolding lookup
is_in-keys k [] h = absurd (cc h)
is_in-keys k ((j, g) ∷ d) h = ground (arith, is_in-keys k d)

-- Reading the inventory always comes to an end with the recursion's depth at most the number of
-- groups and two, also where groups contain each other, and every group of the payload gets its
-- entry.
pub inventory_groups_lem :
    (payload : Dict Group)
    → (groups : Dict (List String)) × (inventory_groups payload ≡ some groups)
      × ((k : String) → contains k payload ≡ true → k ≢ "_meta" → contains k groups ≡ true)
unfolding inventory_groups
inventory_groups_lem payload =
    let (groups, is, more, all_there) =
      visit_all-some payload (length payload + 2) (keys payload) []
        (omega (arith, length-keep_items (λ k g. not (is_in k [])) payload)) in
    (groups, is, λ k h. all_there k (is_in-keys k payload h))
