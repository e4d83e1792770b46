-- ===== src/Poller/Alerts/Edges.antt =====
-- The alert rules are edge-triggered: an event stands for a change against the stored verdict.
use home_lab_hq.Base.{
  String, ◌≡◌, refl, sym, ◌∙◌, ◌≢◌, inl, inr, Bool, true, Option, none, some, List, [], ◌∷◌, ◌++◌,
  arith, eq_iff, eq_refl, if◌then◌else◌, All, or_default, Bool-cases,
}
use mathlib.Core.List.{append-nil, append_assoc}
use home_lab_hq.Dict.{Dict, lookup, insert}
use home_lab_hq.Dict.Laws.{IsDict, lookup-insert, insert-IsDict}
use home_lab_hq.Domain.{JsonValue, AlertRule, Device}
use home_lab_hq.Poller.Alerts.{
  AlertEvent, rule_id, differs, verdict, apply_verdict, eval_rules, is_live,
}

-- No two rules of a list share their identity.
abbrev pub Distinct : {N : Type 0} → List (AlertRule N) → Type 0
Distinct [] = Unit
Distinct (r ∷ rs) = All (λ s. rule_id s ≢ rule_id r) rs × Distinct rs

-- The event of one rule, against the verdict that is stored for it.
abbrev pub edge : {N : Type 0} → Option Bool → AlertRule N → Option (N × Bool) → List (AlertEvent N)
edge old r none = []
edge old r (some (cur, b)) =
    if differs old b then record { rule = r; current = cur; breached = b } ∷ [] else []

-- The verdict that is stored afterwards.
abbrev pub settled : {N : Type 0} → Option Bool → Option (N × Bool) → Option Bool
settled old none = old
settled old (some (cur, b)) = some b

module _ {N : Type 0} (less : N → N → Bool) (values : Dict (JsonValue N)) where
  -- The events of a list of rules, each against the verdicts that were stored before the call.
  abbrev pub edges : Dict Bool → List (AlertRule N) → List (AlertEvent N)
  edges old [] = []
  edges old (r ∷ rs) = edge (lookup (rule_id r) old) r (verdict less values r) ++ edges old rs

  edges-insert :
      (k : String) (b : Bool) (old : Dict Bool) (rs : List (AlertRule N))
      → All (λ s. rule_id s ≢ k) rs
      → edges (insert k b old) rs ≡ edges old rs
  edges-insert k b old [] h = refl
  edges-insert k b old (r ∷ rs) h =
      ground (
        arith,
        edges-insert k b old rs h.1,
        lookup-insert (rule_id r) k b old,
        eq_iff k (rule_id r),
      )

  edges-apply_verdict :
      (r : AlertRule N) (v : Option (N × Bool)) (old : Dict Bool) (es : List (AlertEvent N))
      (rs : List (AlertRule N))
      → All (λ s. rule_id s ≢ rule_id r) rs
      → edges (apply_verdict r v (old, es)).0 rs ≡ edges old rs
  unfolding apply_verdict
  edges-apply_verdict r none old es rs h = refl
  edges-apply_verdict r (some (cur, b)) old es rs h =
      ground (arith, edges-insert (rule_id r) b old rs h)

  events-apply_verdict :
      (r : AlertRule N) (v : Option (N × Bool)) (old : Dict Bool) (es : List (AlertEvent N))
      → (apply_verdict r v (old, es)).1 ≡ es ++ edge (lookup (rule_id r) old) r v
  unfolding apply_verdict
  events-apply_verdict r none old es = sym (append-nil es)
  events-apply_verdict r (some (cur, b)) old es =
      elim (Bool-cases (differs (lookup (rule_id r) old) b)) [
        | inl e ↦ rw e refl
        | inr e ↦ rw e (sym (append-nil es))
      ]

  pub events-eval_rules :
      (old : Dict Bool) (es : List (AlertEvent N)) (rs : List (AlertRule N))
      → Distinct rs
      → (eval_rules less values rs (old, es)).1 ≡ es ++ edges old rs
  unfolding eval_rules
  events-eval_rules old es [] h = sym (append-nil es)
  events-eval_rules old es (r ∷ rs) h =
      let v = verdict less values r in
      let acc = apply_verdict r v (old, es) in
      rw (events-eval_rules acc.0 acc.1 rs h.1) (
        rw (edges-apply_verdict r v old es rs h.0)
          (rw (events-apply_verdict r v old es) (append_assoc es _ _)))

  lookup-apply_verdict_self :
      (r : AlertRule N) (v : Option (N × Bool)) (old : Dict Bool) (es : List (AlertEvent N))
      → lookup (rule_id r) (apply_verdict r v (old, es)).0 ≡ settled (lookup (rule_id r) old) v
  unfolding apply_verdict
  lookup-apply_verdict_self r none old es = refl
  lookup-apply_verdict_self r (some (cur, b)) old es =
      ground (arith, lookup-insert (rule_id r) (rule_id r) b old, eq_refl (rule_id r))

  lookup-apply_verdict_ne :
      (k : String) (r : AlertRule N) (v : Option (N × Bool)) (old : Dict Bool)
      (es : List (AlertEvent N))
      → rule_id r ≢ k
      → lookup k (apply_verdict r v (old, es)).0 ≡ lookup k old
  unfolding apply_verdict
  lookup-apply_verdict_ne k r none old es h = refl
  lookup-apply_verdict_ne k r (some (cur, b)) old es h =
      ground (arith, lookup-insert k (rule_id r) b old, eq_iff (rule_id r) k)

  apply_verdict-IsDict :
      (r : AlertRule N) (v : Option (N × Bool)) (old : Dict Bool) (es : List (AlertEvent N))
      → IsDict old
      → IsDict (apply_verdict r v (old, es)).0
  unfolding apply_verdict
  apply_verdict-IsDict r none old es h = h
  apply_verdict-IsDict r (some (cur, b)) old es h =
      ground (arith, insert-IsDict (rule_id r) b old h)

  pub eval_rules-IsDict :
      (old : Dict Bool) (es : List (AlertEvent N)) (rs : List (AlertRule N))
      → IsDict old
      → IsDict (eval_rules less values rs (old, es)).0
  unfolding eval_rules
  eval_rules-IsDict old es [] h = h
  eval_rules-IsDict old es (r ∷ rs) h =
      let acc = apply_verdict r (verdict less values r) (old, es) in
      eval_rules-IsDict acc.0 acc.1 rs (apply_verdict-IsDict r (verdict less values r) old es h)

  lookup-eval_rules_ne :
      (k : String) (old : Dict Bool) (es : List (AlertEvent N)) (rs : List (AlertRule N))
      → All (λ s. rule_id s ≢ k) rs
      → lookup k (eval_rules less values rs (old, es)).0 ≡ lookup k old
  unfolding eval_rules
  lookup-eval_rules_ne k old es [] h = refl
  lookup-eval_rules_ne k old es (r ∷ rs) h =
      let v = verdict less values r in
      let acc = apply_verdict r v (old, es) in
      lookup-eval_rules_ne k acc.0 acc.1 rs h.1 ∙ lookup-apply_verdict_ne k r v old es h.0

  -- After the loop every rule has its new verdict, and a rule with no verdict its old one.
  abbrev pub IsSettled : Dict Bool → Dict Bool → List (AlertRule N) → Type 0
  IsSettled old new rs =
      All (λ r. lookup (rule_id r) new ≡ settled (lookup (rule_id r) old) (verdict less values r))
        rs

  IsSettled-from :
      (old mid new : Dict Bool) (rs : List (AlertRule N))
      → All (λ s. lookup (rule_id s) mid ≡ lookup (rule_id s) old) rs
      → IsSettled mid new rs
      → IsSettled old new rs
  IsSettled-from old mid new [] same h = tt
  IsSettled-from old mid new (r ∷ rs) same h =
      (rw (← same.0) h.0, IsSettled-from old mid new rs same.1 h.1)

  lookups-apply_verdict :
      (r : AlertRule N) (v : Option (N × Bool)) (old : Dict Bool) (es : List (AlertEvent N))
      (rs : List (AlertRule N))
      → All (λ s. rule_id s ≢ rule_id r) rs
      → All (λ s. lookup (rule_id s) (apply_verdict r v (old, es)).0 ≡ lookup (rule_id s) old) rs
  lookups-apply_verdict r v old es [] h = tt
  lookups-apply_verdict r v old es (s ∷ rs) h = (
    lookup-apply_verdict_ne (rule_id s) r v old es (λ e. h.0 (sym e)),
    lookups-apply_verdict r v old es rs h.1,
  )

  pub eval_rules-IsSettled :
      (old : Dict Bool) (es : List (AlertEvent N)) (rs : List (AlertRule N))
      → Distinct rs
      → IsSettled old (eval_rules less values rs (old, es)).0 rs
  unfolding eval_rules
  eval_rules-IsSettled old es [] h = tt
  eval_rules-IsSettled old es (r ∷ rs) h =
      let v = verdict less values r in
      let acc = apply_verdict r v (old, es) in
      (
        lookup-eval_rules_ne (rule_id r) acc.0 acc.1 rs h.0 ∙ lookup-apply_verdict_self r v old es,
        IsSettled-from old acc.0 _ rs (lookups-apply_verdict r v old es rs h.0)
            (eval_rules-IsSettled acc.0 acc.1 rs h.1),
      )

-- What is stored for a device between two evaluations.
abbrev pub stored : {N : Type 0} → Device N → Dict Bool
stored dev = or_default dev.alert_state []

module _ {N : Type 0} where
  any_live : (r : AlertRule N) (rules : List (AlertRule N)) → is_live (r ∷ rules) (rule_id r) ≡ true
  unfolding is_live
  any_live r rules = ground (arith, eq_refl (rule_id r))

  live_later :
      (q r : AlertRule N) (rules : List (AlertRule N))
      → is_live rules (rule_id r) ≡ true
      → is_live (q ∷ rules) (rule_id r) ≡ true
  unfolding is_live
  live_later q r rules h = ground arith

  pub All-live : (rules : List (AlertRule N)) → All (λ r. is_live rules (rule_id r) ≡ true) rules
  All-live [] = tt
  All-live (r ∷ rules) = (any_live r rules, weaken rules (All-live rules))
    where
      weaken :
          (rs : List (AlertRule N))
          → All (λ s. is_live rules (rule_id s) ≡ true) rs
          → All (λ s. is_live (r ∷ rules) (rule_id s) ≡ true) rs
      weaken [] h = tt
      weaken (s ∷ rs) h = (live_later r s rules h.0, weaken rs h.1)
