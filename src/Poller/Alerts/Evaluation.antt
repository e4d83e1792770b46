-- ===== src/Poller/Alerts/Evaluation.antt =====
-- What `_eval_alerts` of backend/poller.py returns and stores for one device.
use home_lab_hq.Base.{
  ◌≡◌, refl, sym, ◌∙◌, Bool, true, false, Option, none, some, List, [], ◌∷◌, All,
}
use mathlib.Core.Path.{subst}
use home_lab_hq.Dict.{Dict, lookup, keep_items}
use home_lab_hq.Dict.Laws.{IsDict, kept, lookup-keep_items, keep_items-IsDict}
use home_lab_hq.Domain.{JsonValue, AlertRule, Device}
use home_lab_hq.Poller.Alerts.{rule_id, verdict, eval_rules, is_live, eval_alerts}
use home_lab_hq.Poller.Alerts.Edges.{
  Distinct, edge, settled, edges, IsSettled, stored, All-live, events-eval_rules, eval_rules-IsDict,
  eval_rules-IsSettled,
}

module _ {N : Type 0} (less : N → N → Bool) (values : Dict (JsonValue N)) where
  -- For distinct rules, the events of one evaluation are exactly the changes against the verdicts
  -- that were stored before it, in the order of the rules.
  pub eval_alerts-edges :
      (dev : Device N)
      → Distinct dev.alerts
      → (eval_alerts less dev values).1 ≡ edges less values (stored dev) dev.alerts
  unfolding eval_alerts
  eval_alerts-edges dev h = go dev.alerts refl h
    where
      go :
          (rules : List (AlertRule N))
          → dev.alerts ≡ rules
          → Distinct rules
          → (eval_alerts less dev values).1 ≡ edges less values (stored dev) rules
      go [] e d = rw (e, eval_alerts) refl
      go (r ∷ rs) e d =
          rw (e, eval_alerts) (events-eval_rules less values (stored dev) [] (r ∷ rs) d)

  pub alerts-eval_alerts : (dev : Device N) → (eval_alerts less dev values).0.alerts ≡ dev.alerts
  unfolding eval_alerts
  alerts-eval_alerts dev = go dev.alerts refl
    where
      go :
          (rules : List (AlertRule N))
          → dev.alerts ≡ rules
          → (eval_alerts less dev values).0.alerts ≡ dev.alerts
      go [] e = rw (e, eval_alerts) e
      go (r ∷ rs) e = rw (e, eval_alerts) e

  -- The stored verdicts of an evaluation with at least one rule.
  abbrev after : Device N → List (AlertRule N) → Dict Bool
  after dev rules =
      keep_items (λ rid _. is_live rules rid) (eval_rules less values rules (stored dev, [])).0

  stored-eval_alerts :
      (dev : Device N) (r : AlertRule N) (rs : List (AlertRule N))
      → dev.alerts ≡ r ∷ rs
      → stored (eval_alerts less dev values).0 ≡ after dev (r ∷ rs)
  unfolding eval_alerts
  stored-eval_alerts dev r rs e = rw (e, eval_alerts) refl

  IsSettled-kept :
      (dev : Device N) (rules rs : List (AlertRule N))
      → IsDict (stored dev)
      → All (λ s. is_live rules (rule_id s) ≡ true) rs
      → IsSettled less values (stored dev) (eval_rules less values rules (stored dev, [])).0 rs
      → IsSettled less values (stored dev) (after dev rules) rs
  IsSettled-kept dev rules [] d live h = tt
  IsSettled-kept dev rules (s ∷ rs) d live h = (
    lookup-keep_items (λ rid _. is_live rules rid) (rule_id s) _
          (eval_rules-IsDict less values (stored dev) [] rules d)
        ∙ kept_live (lookup (rule_id s) (eval_rules less values rules (stored dev, [])).0)
        ∙ h.0,
    IsSettled-kept dev rules rs d live.1 h.1,
  )
    where
      kept_live : (o : Option Bool) → kept (λ _. is_live rules (rule_id s)) o ≡ o
      kept_live none = refl
      kept_live (some b) = rw live.0 refl

  -- For distinct rules and an alert state without repeated keys: after an evaluation every rule
  -- with a verdict has it stored, every other rule keeps what was stored, and the keys stay distinct.
  pub eval_alerts-IsSettled :
      (dev : Device N)
      → Distinct dev.alerts
      → IsDict (stored dev)
      → IsSettled less values (stored dev) (stored (eval_alerts less dev values).0) dev.alerts
        × IsDict (stored (eval_alerts less dev values).0)
  unfolding eval_alerts
  eval_alerts-IsSettled dev h d = go dev.alerts refl h
    where
      go :
          (rules : List (AlertRule N))
          → dev.alerts ≡ rules
          → Distinct rules
          → IsSettled less values (stored dev) (stored (eval_alerts less dev values).0) rules
            × IsDict (stored (eval_alerts less dev values).0)
      go [] e k = (tt, rw (e, eval_alerts) tt)
      go (r ∷ rs) e k =
          subst (λ next. IsSettled less values (stored dev) next (r ∷ rs) × IsDict next)
            (sym (stored-eval_alerts dev r rs e))
            (
              IsSettled-kept dev (r ∷ rs) (r ∷ rs) d (All-live (r ∷ rs))
                  (eval_rules-IsSettled less values (stored dev) [] (r ∷ rs) k),
              keep_items-IsDict _ _ (eval_rules-IsDict less values (stored dev) [] (r ∷ rs) d),
            )

  edge-settled :
      (old : Option Bool) (r : AlertRule N) (v : Option (N × Bool)) → edge (settled old v) r v ≡ []
  edge-settled old r none = refl
  edge-settled old r (some (cur, true)) = refl
  edge-settled old r (some (cur, false)) = refl

  edges-IsSettled :
      (old new : Dict Bool) (rs : List (AlertRule N))
      → IsSettled less values old new rs
      → edges less values new rs ≡ []
  edges-IsSettled old new [] h = refl
  edges-IsSettled old new (r ∷ rs) h = rw h.0 (
      rw (edge-settled (lookup (rule_id r) old) r (verdict less values r))
        (edges-IsSettled old new rs h.1))

  -- For distinct rules and an alert state without repeated keys, an evaluation that is repeated on
  -- the same values has no event.
  pub eval_alerts_quiet :
      (dev : Device N)
      → Distinct dev.alerts
      → IsDict (stored dev)
      → (eval_alerts less (eval_alerts less dev values).0 values).1 ≡ []
  eval_alerts_quiet dev h d =
      let next = (eval_alerts less dev values).0 in
      eval_alerts-edges next (rw (alerts-eval_alerts dev) h)
      ∙ rw (alerts-eval_alerts dev)
          (edges-IsSettled (stored dev) (stored next) dev.alerts (eval_alerts-IsSettled dev h d).0)
