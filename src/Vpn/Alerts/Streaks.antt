-- ===== src/Vpn/Alerts/Streaks.antt =====
-- What a sequence of polls announces.
use home_lab_hq.Base.{
  ℕ, zero, suc, ◌+◌, String, ◌≡◌, refl, ap, ◌∙◌, inl, inr, Bool, true, false, Option, none, some,
  List, [], ◌∷◌, ◌++◌, ◌&&◌, ◌||◌, arith, ◌==◌, eq_iff, eq_refl, leb, nat_eq, if◌then◌else◌,
  Bool-cases, is_in, is_in-append, AllDistinct, is_some, or_default,
}
use mathlib.Core.Path.{subst}
use home_lab_hq.Dict.{Dict, lookup, keys}
use home_lab_hq.Dict.Laws.{lookup-insert, lookup-erase}
use home_lab_hq.Vpn.Alerts.{
  AlertItem, no_item, counted, fires, alert_turn, alert_turns, set_of, update_alert_state,
}

is_in-set_of : (k : String) (xs : List String) → is_in k (set_of xs) ≡ is_in k xs
unfolding set_of
is_in-set_of k [] = refl
is_in-set_of k (x ∷ xs) = elim (Bool-cases (x == k)) [
  | inl here ↦
      let same = (eq_iff x k).0 here in
      rw (← same) (elim (Bool-cases (is_in x xs)) [
        | inl again ↦ rw again (is_in-set_of x xs ∙ ground (arith, again))
        | inr new ↦ rw new (ground (arith, eq_refl x))
      ])
  | inr other ↦ elim (Bool-cases (is_in x xs)) [
    | inl again ↦ rw again (is_in-set_of k xs ∙ ground (arith, other))
    | inr new ↦ rw new (ground (arith, is_in-set_of k xs))
  ]
]

set_of-AllDistinct : (xs : List String) → AllDistinct (set_of xs)
unfolding set_of
set_of-AllDistinct [] = tt
set_of-AllDistinct (x ∷ xs) = elim (Bool-cases (is_in x xs)) [
  | inl again ↦ rw again (set_of-AllDistinct xs)
  | inr new ↦ rw new (is_in-set_of x xs ∙ new, set_of-AllDistinct xs)
]

-- What a turn makes of the item of a condition.
abbrev turned : Bool → Option AlertItem → Option AlertItem
turned present o = if present then some (counted (or_default o no_item)) else none

lookup-alert_turn :
    (conditions : List String) (name k : String) (state : Dict AlertItem)
    → lookup k (alert_turn conditions name state).1
      ≡ (if name == k then turned (is_in k conditions) (lookup k state) else lookup k state)
unfolding alert_turn
lookup-alert_turn conditions name k state = elim (Bool-cases (is_in name conditions)) [
  | inl there ↦ rw there (
      lookup-insert k name (counted (or_default (lookup name state) no_item)) state
      ∙ at_name true there)
  | inr gone ↦ rw gone (lookup-erase k name state ∙ at_name false gone)
]
  where
    at_name :
        (b : Bool)
        → is_in name conditions ≡ b
        → (if name == k then turned b (lookup name state) else lookup k state)
          ≡ (if name == k then turned (is_in k conditions) (lookup k state) else lookup k state)
    at_name b e = elim (Bool-cases (name == k)) [
      | inl here ↦ let same = (eq_iff name k).0 here in rw here (rw (← same) (rw e refl))
      | inr other ↦ rw other refl
    ]

is_in-alert_turn :
    (conditions : List String) (name k : String) (state : Dict AlertItem)
    → is_in k (alert_turn conditions name state).0
      ≡ (name == k && (is_in k conditions && fires (or_default (lookup k state) no_item)))
unfolding alert_turn
is_in-alert_turn conditions name k state = elim (Bool-cases (is_in name conditions)) [
  | inl there ↦ rw there (elim (Bool-cases (name == k)) [
    | inl here ↦
        let same = (eq_iff name k).0 here in rw (← same) (rw there (ground (arith, eq_refl name)))
    | inr other ↦ ground (arith, other)
  ])
  | inr gone ↦ rw gone (elim (Bool-cases (name == k)) [
    | inl here ↦ let same = (eq_iff name k).0 here in rw (← same) (rw gone (ground arith))
    | inr other ↦ ground (arith, other)
  ])
]

-- A loop over distinct names gives each name its own turn.
lookup-alert_turns :
    (conditions : List String) (names : List String) (k : String) (state : Dict AlertItem)
    → AllDistinct names
    → (lookup k (alert_turns conditions names state).1
        ≡ (if is_in k names then turned (is_in k conditions) (lookup k state) else lookup k state))
      × (is_in k (alert_turns conditions names state).0
          ≡ (is_in k names && (is_in k conditions && fires (or_default (lookup k state) no_item))))
unfolding alert_turns
lookup-alert_turns conditions [] k state h = (refl, refl)
lookup-alert_turns conditions (name ∷ names) k state h =
    let after = (alert_turn conditions name state).1 in
    let rest = lookup-alert_turns conditions names k after h.1 in
    let one = lookup-alert_turn conditions name k state in
    let said = is_in-alert_turn conditions name k state in
    elim (Bool-cases (name == k)) [
      | inl here ↦
          let gone : is_in k names ≡ false =
            subst (λ x. is_in x names ≡ false) ((eq_iff name k).0 here) h.0 in
          (
            rest.0
                ∙ ap
                    (λ b.
                      if b then turned (is_in k conditions) (lookup k after) else lookup k after)
                    gone
                ∙ one
                ∙ rw here refl,
            is_in-append k (alert_turn conditions name state).0
                  (alert_turns conditions names after).0
                ∙ rw (rest.1, gone, said, here) (ground arith),
          )
      | inr other ↦
          let same : lookup k after ≡ lookup k state = one ∙ rw other refl in
          (
            rest.0 ∙ rw (same, other) refl,
            is_in-append k (alert_turn conditions name state).0
                  (alert_turns conditions names after).0
                ∙ rw (rest.1, same, said, other) refl,
          )
    ]

is_in-keys : (k : String) (d : Dict AlertItem) → is_in k (keys d) ≡ is_some (lookup k d)
unfolding lookup
is_in-keys k [] = refl
is_in-keys k ((j, item) ∷ d) = ground (arith, is_in-keys k d)

-- One poll gives every condition its turn.
updated :
    (conditions : List String) (k : String) (state : Dict AlertItem)
    → (lookup k (update_alert_state conditions state).1
        ≡ turned (is_in k conditions) (lookup k state))
      × (is_in k (update_alert_state conditions state).0
          ≡ (is_in k conditions && fires (or_default (lookup k state) no_item)))
unfolding update_alert_state
updated conditions k state =
    let names = keys state ++ conditions in
    let both = lookup-alert_turns conditions (set_of names) k state (set_of-AllDistinct names) in
    let inside : is_in k (set_of names) ≡ (is_some (lookup k state) || is_in k conditions) =
      is_in-set_of k names
      ∙ is_in-append k (keys state) conditions
      ∙ ap (λ b. b || is_in k conditions) (is_in-keys k state) in
    (
      both.0
          ∙ ap (λ b. if b then turned (is_in k conditions) (lookup k state) else lookup k state)
              inside
          ∙ outside (lookup k state) (is_in k conditions),
      both.1
          ∙ ap (λ b. b && (is_in k conditions && fires (or_default (lookup k state) no_item)))
              inside
          ∙ ground arith,
    )
  where
    outside :
        (o : Option AlertItem) (b : Bool) → (if is_some o || b then turned b o else o) ≡ turned b o
    outside none true = refl
    outside none false = refl
    outside (some item) true = refl
    outside (some item) false = refl

-- The state after some polls, the latest first.
abbrev pub state_after : List (List String) → Dict AlertItem
state_after [] = []
state_after (now ∷ earlier) = (update_alert_state now (state_after earlier)).1

-- For how many polls in a row, up to the latest, the condition has been there.
abbrev pub streak : String → List (List String) → ℕ
streak name [] = 0
streak name (now ∷ earlier) =
    let before = streak name earlier in if is_in name now then before + 1 else 0

-- The item of a condition with a streak.
abbrev pub item_of : ℕ → Option AlertItem
item_of zero = none
item_of (suc n) = some (record { count = suc n; sent = leb 2 (suc n) })

lookup-state_after :
    (name : String) (polls : List (List String))
    → lookup name (state_after polls) ≡ item_of (streak name polls)
unfolding lookup
lookup-state_after name [] = refl
lookup-state_after name (now ∷ earlier) =
    (updated now name (state_after earlier)).0
    ∙ ap (turned (is_in name now)) (lookup-state_after name earlier)
    ∙ one_more (is_in name now) (streak name earlier)
  where
    one_more : (b : Bool) (n : ℕ) → turned b (item_of n) ≡ item_of (if b then n + 1 else 0)
    one_more false n = refl
    one_more true zero = refl
    one_more true (suc n) =
        let next : suc n + 1 ≡ suc (suc n) = omega arith in
        let sent : (leb 2 (suc n) || leb 2 (suc (suc n))) ≡ leb 2 (suc (suc n)) = ground arith in
        let made : Bool → Option AlertItem = λ b. some (record { count = suc (suc n); sent = b }) in
        rw next (ap made sent)

-- After any polls, the stored count of a condition is the number of polls in a row that have
-- found it, and a poll announces exactly the conditions that it finds for the second time in a row: each of
-- them once, until a poll does not find it.
pub update_alert_state_lem :
    (name : String) (now : List String) (earlier : List (List String))
    → (lookup name (state_after (now ∷ earlier)) ≡ item_of (streak name (now ∷ earlier)))
      × (is_in name (update_alert_state now (state_after earlier)).0
          ≡ nat_eq (streak name (now ∷ earlier)) 2)
update_alert_state_lem name now earlier = (
  lookup-state_after name (now ∷ earlier),
  (updated now name (state_after earlier)).1
      ∙ ap (λ o. is_in name now && fires (or_default o no_item)) (lookup-state_after name earlier)
      ∙ second (is_in name now) (streak name earlier),
)
  where
    second :
        (b : Bool) (n : ℕ)
        → (b && fires (or_default (item_of n) no_item)) ≡ nat_eq (if b then n + 1 else 0) 2
    second false n = refl
    second true zero = refl
    second true (suc n) = ground arith
