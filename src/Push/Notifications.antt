-- ===== src/Push/Notifications.antt =====
-- The durable notifications of backend/push.py: `_persist_notifications`,
-- `notification_center` and the operations on one user's entries.
pub mod Bounds
pub mod Turns
pub mod Recipients
pub mod Added
pub mod Persisted
pub mod Center
use home_lab_hq.Base.{
  ℕ, zero, suc, ◌-◌, String, Bool, true, false, Option, none, some, List, [], ◌∷◌, ◌++◌, map, ◌==◌,
  ◌&&◌, ◌||◌, not, ltb, nat_eq, if◌then◌else◌, length, any, clip,
}
use home_lab_hq.Push.Category.{NotificationData, notification_category, text_or}
use home_lab_hq.Dict.{Dict, lookup, insert, keys, values, keep_items, map_items, contains}
use home_lab_hq.Prune.{text_lt, take, sort_items, drop_chosen}

pub record Notification : Type 0 where
  pub id : String
  pub user_id : String
  pub title : String
  pub body : String
  pub category : String
  pub data_copy : String
  pub created_at : ℕ
  pub read_at : Option ℕ
  pub dismissed_at : Option ℕ

abbrev pub Notifications : Type 0
Notifications = Dict Notification

-- `bool(stamp)`
abbrev pub is_stamped : Option ℕ → Bool
is_stamped none = false
is_stamped (some zero) = false
is_stamped (some (suc n)) = true

-- `stamp or now`
abbrev pub stamp_or : ℕ → Option ℕ → Option ℕ
stamp_or now none = some now
stamp_or now (some zero) = some now
stamp_or now (some (suc n)) = some (suc n)

abbrev pub is_unread : Notification → Bool
is_unread r = not (is_stamped r.read_at) && not (is_stamped r.dismissed_at)

abbrev pub belongs_to : String → String → Notification → Bool
belongs_to user key r = r.user_id == user

abbrev unread_of : String → String → Notification → Bool
unread_of user key r = r.user_id == user && is_unread r

unfoldable pub unread_count : Notifications → String → ℕ
unread_count records user = length (keep_items (unread_of user) records)

-- The first part of the sort key of the bound: unread entries come last.
abbrev pub unread_rank : Notification → ℕ
unread_rank r = if is_unread r then 1 else 0

-- The order by `(createdAt, id)`.
unfoldable pub created_before : Notification → Notification → Bool
created_before v w =
    ltb v.created_at w.created_at || (nat_eq v.created_at w.created_at && text_lt v.id w.id)

-- The order of the bound's sort key.
unfoldable pub sheds_before : String × Notification → String × Notification → Bool
unfolding created_before
sheds_before x y =
    ltb (unread_rank x.1) (unread_rank y.1)
    || (nat_eq (unread_rank x.1) (unread_rank y.1) && created_before x.1 y.1)

-- One turn of the loop that bounds every recipient's entries.
unfoldable pub bound_user : ℕ → String → Notifications → Notifications
bound_user limit user records =
    drop_chosen sheds_before (λ item. item.1.id) (belongs_to user)
      (length (keep_items (belongs_to user) records) - limit) records

unfoldable pub bound_users : ℕ → List String → Notifications → Notifications
unfolding bound_user
bound_users limit [] records = records
bound_users limit (user ∷ users) records = bound_users limit users (bound_user limit user records)

-- What a notification of all recipients has in common.
pub record Message : Type 0 where
  pub title : String
  pub body : String
  pub payload : NotificationData

unfoldable pub new_notification : ℕ → Message → String → String → Notification
unfolding text_or notification_category
new_notification now message token user = record {
  id = token;
  user_id = user;
  title = clip 300 (text_or "HomelabHQ" message.title);
  body = clip 2000 message.body;
  category = notification_category message.title message.body message.payload;
  data_copy = message.payload.copy;
  created_at = now;
  read_at = none;
  dismissed_at = none;
}

-- The sorted set of some texts.
unfoldable pub insert_text : String → List String → List String
insert_text x [] = x ∷ []
insert_text x (y ∷ ys) =
    let rest = insert_text x ys in
    if x == y then y ∷ ys else if text_lt x y then x ∷ y ∷ ys else y ∷ rest

unfoldable pub sorted_set : List String → List String
unfolding insert_text
sorted_set [] = []
sorted_set (x ∷ xs) = insert_text x (sorted_set xs)

abbrev pub only_known : {U : Type 0} → Dict U → List String → List String
only_known users [] = []
only_known users (x ∷ xs) =
    let rest = only_known users xs in if contains x users then x ∷ rest else rest

-- The recipients, sorted: every user, or the known ones of the given ids.
unfoldable pub recipients_of : {U : Type 0} → Dict U → Option (List String) → List String
recipients_of users none = sorted_set (keys users)
recipients_of users (some ids) = sorted_set (only_known users ids)

-- The entries of the recipients, under the tokens drawn for them.
unfoldable pub add_all :
    ℕ → Message → (String → String) → List String → Notifications → Notifications
add_all now message token [] records = records
add_all now message token (user ∷ users) records =
    add_all now message token users
      (insert (token user) (new_notification now message (token user) user) records)

-- For each recipient the id of the new entry and the number of unread ones.
created_for : (String → String) → Notifications → List String → List (String × String × ℕ)
unfolding unread_count
created_for token records [] = []
created_for token records (user ∷ users) =
    (user, token user, unread_count records user) ∷ created_for token records users

-- The answer and the entries. The second loop runs over the set of the recipients: `order` gives
-- the order of the set.
unfoldable pub persist_notifications :
    {U : Type 0}
    → ℕ
    → ℕ
    → (List String → List String)
    → (String → String)
    → Message
    → Dict U
    → Option (List String)
    → Notifications
    → List (String × String × ℕ) × Notifications
unfolding recipients_of add_all created_for
persist_notifications limit now order token message users ids records =
    let recipients = recipients_of users ids in
    let added = add_all now message token recipients records in
    let bounded = bound_users limit (order recipients) added in
    (created_for token bounded recipients, bounded)
