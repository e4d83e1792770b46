-- ===== src/Authorization/Visibility.antt =====
-- A user without the admin role learns nothing of another owner's resources.
use home_lab_hq.Base.{String, ◌≡◌, Bool, false, arith, ◌==◌}
use home_lab_hq.Dict.{Dict, lookup, keep_items}
use home_lab_hq.Dict.Laws.{IsDict, kept, lookup-keep_items}
use home_lab_hq.Authorization.{Actor, device, compute, dashboard}

module _ {V : Type 0} (owner : V → String) (actor : Actor) where
  -- The resources of the actor.
  abbrev pub own : Dict V → Dict V
  own = keep_items (λ _ r. owner r == actor.user_id)

  lookup-own :
      (id : String) (resources : Dict V)
      → IsDict resources
      → lookup id (own resources) ≡ kept (λ r. owner r == actor.user_id) (lookup id resources)
  lookup-own id resources h = lookup-keep_items (λ _ r. owner r == actor.user_id) id resources h

  -- For collections without repeated ids and an actor who is no admin: `device`, `compute` and
  -- `dashboard` give the same result as if only the actor's own resources existed.
  pub own_resources_lem :
      (id : String) (unassigned : Bool) (resources : Dict V)
      → IsDict resources
      → actor.is_admin ≡ false
      → (device owner actor id resources ≡ device owner actor id (own resources))
        × (compute owner actor id resources ≡ compute owner actor id (own resources))
        × (dashboard owner actor id unassigned resources
            ≡ dashboard owner actor id unassigned (own resources))
  unfolding device compute dashboard
  own_resources_lem id unassigned resources h plain =
      let e = lookup-own id resources h in (ground (arith, e), ground (arith, e), ground (arith, e))
