-- ===== src/Authorization.antt =====
-- `admin`, `device`, `compute`, `dashboard` and `client` of backend/authorization.py. `V` is the
-- type of a resource, and `owner` reads its owner.
pub mod Visibility
use home_lab_hq.Base.{
  String, Bool, true, false, Option, none, some, ◌==◌, ◌&&◌, ◌||◌, if◌then◌else◌,
}
use home_lab_hq.Dict.{Dict, lookup}
use home_lab_hq.Errors.{Outcome, ok, error, validation, forbidden, not_found}
use home_lab_hq.Clients.Roster.{RosterRecord}
use home_lab_hq.Clients.Roster.Document.{Rosters, roster}
use home_lab_hq.Clients.Roster.Edits.{clean_mac, is_mac}

pub record Actor : Type 0 where
  pub user_id : String
  pub is_admin : Bool

unfoldable pub admin : Actor → Outcome Actor
admin actor = if actor.is_admin then ok actor else error forbidden

module _ {V : Type 0} (owner : V → String) where
  -- `device`, of the devices of the document.
  unfoldable pub device : Actor → String → Dict V → Outcome V
  device actor id resources = elim (lookup id resources) [
    | none ↦ error not_found
    | some r ↦ if actor.is_admin || owner r == actor.user_id then ok r else error not_found
  ]

  -- `compute`, which has the text of `device`, on the Compute instances.
  unfoldable pub compute : Actor → String → Dict V → Outcome V
  compute actor id resources = elim (lookup id resources) [
    | none ↦ error not_found
    | some r ↦ if actor.is_admin || owner r == actor.user_id then ok r else error not_found
  ]

  -- `dashboard`; no dashboard is the empty text.
  unfoldable pub dashboard : Actor → String → Bool → Dict V → Outcome (Option V)
  dashboard actor id allow_unassigned resources =
      if id == "" && allow_unassigned
      then ok none
      else elim (if id == "" then none else lookup id resources) [
        | none ↦ error not_found
        | some r ↦
            if actor.is_admin || owner r == actor.user_id then ok (some r) else error not_found
      ]

unfoldable pub client :
    {N A C : Type 0} → Actor → String → Rosters N A C → Outcome (RosterRecord N A)
client actor mac doc =
    if is_mac (clean_mac mac)
    then elim (lookup (clean_mac mac) (roster actor.user_id doc)) [
      | none ↦ error not_found
      | some r ↦ ok r
    ]
    else error validation
