-- ===== src/Push/Notifications/Center.antt =====
-- `notification_center` of backend/push.py and the operations on one user's notifications.
pub mod Ownership
use home_lab_hq.Base.{
  ℕ, zero, suc, ◌-◌, String, Bool, true, false, Option, none, some, List, [], ◌∷◌, ◌++◌, map, ◌==◌,
  ◌&&◌, ◌||◌, not, ltb, nat_eq, if◌then◌else◌, length, any, clip,
}
use home_lab_hq.Dict.{Dict, lookup, insert, keys, values, keep_items, map_items, contains}
use home_lab_hq.Prune.{take, sort_items}
use home_lab_hq.Push.Notifications.{
  Notification, Notifications, is_stamped, stamp_or, is_unread, unread_count, created_before,
}

-- A record without the id of its owner, as the answers carry it.
pub record PublicNotification : Type 0 where
  pub id : String
  pub title : String
  pub body : String
  pub category : String
  pub data_copy : String
  pub created_at : ℕ
  pub read_at : Option ℕ
  pub dismissed_at : Option ℕ

-- `public.pop("userId", None)`
public_of : Notification → PublicNotification
public_of r = record {
  id = r.id;
  title = r.title;
  body = r.body;
  category = r.category;
  data_copy = r.data_copy;
  created_at = r.created_at;
  read_at = r.read_at;
  dismissed_at = r.dismissed_at;
}

mark_found :
    ℕ
    → String
    → String
    → Option Notification
    → Notifications
    → Option (PublicNotification × ℕ) × Notifications
unfolding unread_count public_of
mark_found now user id none records = (none, records)
mark_found now user id (some r) records =
    let read = record r { read_at = stamp_or now r.read_at } in
    let after = insert id read records in
    if r.user_id == user
    then (some (public_of read, unread_count after user), after)
    else (none, records)

-- The answer is the record and the number of unread entries, or none on a foreign record.
unfoldable pub mark_notification_read :
    ℕ → String → String → Notifications → Option (PublicNotification × ℕ) × Notifications
unfolding mark_found
mark_notification_read now user id records = mark_found now user id (lookup id records) records

dismiss_found :
    ℕ → String → String → Option Notification → Notifications → Option (String × ℕ) × Notifications
unfolding unread_count
dismiss_found now user id none records = (none, records)
dismiss_found now user id (some r) records =
    let gone = record r {
      read_at = stamp_or now r.read_at;
      dismissed_at = stamp_or now r.dismissed_at;
    } in
    let after = insert id gone records in
    if r.user_id == user then (some (id, unread_count after user), after) else (none, records)

unfoldable pub dismiss_notification :
    ℕ → String → String → Notifications → Option (String × ℕ) × Notifications
unfolding dismiss_found
dismiss_notification now user id records = dismiss_found now user id (lookup id records) records

read_if_unread : ℕ → String → String → Notification → Notification
read_if_unread now user key r =
    if r.user_id == user && is_unread r then record r { read_at = some now } else r

unfoldable pub mark_all_notifications_read : ℕ → String → Notifications → ℕ × Notifications
unfolding read_if_unread unread_count
mark_all_notifications_read now user records =
    let after = map_items (read_if_unread now user) records in (unread_count after user, after)

shown_to : String → String → Notification → Bool
shown_to user key r = r.user_id == user && not (is_stamped r.dismissed_at)

not_read : String → Notification → Bool
not_read key r = not (is_stamped r.read_at)

was_read : String → Notification → Bool
was_read key r = is_stamped r.read_at

-- The order of `owned.sort(key=…, reverse=True)`; the ids are distinct.
newest_first : String × Notification → String × Notification → Bool
unfolding created_before
newest_first x y = created_before y.1 x.1

-- `max(1, min(100, limit))`
clamped : ℕ → ℕ
clamped limit = if ltb limit 1 then 1 else if ltb 100 limit then 100 else limit

-- All unread entries and the newest read ones, newest first, with the number of the unread. An
-- entry is among the unread ones if its key is: the ids are the keys.
unfoldable pub notification_center : ℕ → String → Notifications → List PublicNotification × ℕ
unfolding public_of shown_to not_read was_read newest_first clamped
notification_center limit user records =
    let owned = sort_items newest_first (keep_items (shown_to user) records) in
    let unread = keep_items not_read owned in
    let recent_read = take (clamped limit) (keep_items was_read owned) in
    let selected = unread ++ keep_items (λ k r. not (contains k unread)) recent_read in
    (map public_of (values (sort_items newest_first selected)), length unread)
