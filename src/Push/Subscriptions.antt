-- ===== src/Push/Subscriptions.antt =====
-- The subscriptions of backend/push.py: `subscribe`, `unsubscribe`, `subscription_status`,
-- `_remove_endpoints` and `recipients_for_device`.
pub mod Bounds
use home_lab_hq.Base.{
  ℕ, ◌+◌, ◌-◌, String, Bool, true, false, Option, none, some, List, [], ◌∷◌, ◌==◌, ◌&&◌, not, ltb,
  if◌then◌else◌, length, any,
}
use home_lab_hq.Dict.{Dict, lookup, insert, erase, keys, values, keep_items}
use home_lab_hq.Prune.{before, drop_chosen, erase_all}
use home_lab_hq.Auth.Document.{User}

-- A record of `document["push_subs"]`. The browser's subscription is only copied, so it stands as
-- its text.
pub record PushSubscription : Type 0 where
  pub user_id : String
  pub subscription : String
  pub created : ℕ

abbrev pub Subscriptions : Type 0
Subscriptions = Dict PushSubscription

-- The other endpoints of the user: `owned`.
abbrev pub owned_beside : String → String → String → PushSubscription → Bool
owned_beside user endpoint key record_of = record_of.user_id == user && not (key == endpoint)

-- The subscription is stored; the user's oldest others go where they exceed the limit.
unfoldable pub store_subscription :
    ℕ → String → String → PushSubscription → Subscriptions → Subscriptions
store_subscription limit user endpoint rec subscriptions =
    let stored = insert endpoint rec subscriptions in
    let overflow = length (keep_items (owned_beside user endpoint) stored) + 1 - limit in
    let pruned =
      drop_chosen (before PushSubscription.created) (λ item. item.0) (owned_beside user endpoint)
        overflow stored in
    if ltb 0 overflow then pruned else stored

-- None where it raises a `ValueError`.
unfoldable pub subscribe :
    ℕ → ℕ → String → Option String → String → Subscriptions → Option Subscriptions
unfolding store_subscription
subscribe limit now user none subscription subscriptions = none
subscribe limit now user (some endpoint) subscription subscriptions =
    if endpoint == ""
    then none
    else some (
        store_subscription limit user endpoint
          (record { user_id = user; subscription = subscription; created = now }) subscriptions)

unsubscribe_found : String → String → Option PushSubscription → Subscriptions → Bool × Subscriptions
unsubscribe_found user endpoint none subscriptions = (false, subscriptions)
unsubscribe_found user endpoint (some rec) subscriptions =
    if rec.user_id == user then (true, erase endpoint subscriptions) else (false, subscriptions)

-- None where it raises a `ValueError`.
unfoldable pub unsubscribe : String → Option String → Subscriptions → Option (Bool × Subscriptions)
unfolding unsubscribe_found
unsubscribe user none subscriptions = none
unsubscribe user (some endpoint) subscriptions =
    if endpoint == ""
    then none
    else some (unsubscribe_found user endpoint (lookup endpoint subscriptions) subscriptions)

abbrev pub owned_by : String → String → PushSubscription → Bool
owned_by user key rec = rec.user_id == user

-- `{"subscribed": …, "subscriptionCount": …}`
unfoldable pub subscription_status : String → Subscriptions → Bool × ℕ
subscription_status user subscriptions =
    let count = length (keep_items (owned_by user) subscriptions) in (ltb 0 count, count)

-- `_remove_endpoints`, in any order of the set.
unfoldable pub remove_endpoints : List String → Subscriptions → Subscriptions
remove_endpoints endpoints subscriptions = erase_all endpoints subscriptions

abbrev listed : String → List String → Bool
listed x xs = any (λ y. y == x) xs

admin_ids : List User → List String → List String
admin_ids [] ids = ids
admin_ids (u ∷ users) ids =
    let rest = admin_ids users (u.id ∷ ids) in
    let same = admin_ids users ids in
    if u.role == "admin" && not (listed u.id ids) then rest else same

drop_empty : List String → List String
drop_empty [] = []
drop_empty (x ∷ xs) = let rest = drop_empty xs in if x == "" then rest else x ∷ rest

first_id : Option String → List String
first_id none = []
first_id (some owner) = owner ∷ []

-- The owner and every admin, as a list without repeats.
unfoldable pub recipients_for_device : Option String → Dict User → List String
unfolding admin_ids drop_empty first_id
recipients_for_device owner users = drop_empty (admin_ids (values users) (first_id owner))
