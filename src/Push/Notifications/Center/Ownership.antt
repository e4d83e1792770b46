-- ===== src/Push/Notifications/Center/Ownership.antt =====
-- The operations on one user's notifications: the other users' entries, and the unread ones.
use home_lab_hq.Base.{
  ℕ, zero, suc, ◌<◌, String, ◌≡◌, ◌≢◌, ap, ◌∙◌, refl, inl, inr, Bool, Option, none, some, [], ◌∷◌,
  arith, ◌==◌, eq_iff, length, Bool-cases,
}
use home_lab_hq.Dict.{lookup, insert, keep_items, map_items}
use home_lab_hq.Dict.Laws.{lookup-insert, lookup-map_items, mapped}
use home_lab_hq.Prune.{insert_item, sort_items}
use home_lab_hq.Push.Notifications.{Notification, Notifications, stamp_or, unread_count}
use home_lab_hq.Push.Notifications.Center.{
  read_if_unread, mark_found, mark_notification_read, dismiss_found, dismiss_notification,
  mark_all_notifications_read, notification_center, shown_to, not_read, newest_first,
}

module _ (now : ℕ) (user : String) (k : String) (v : Notification)
    (foreign : v.user_id ≢ user) where
  -- Writing to an entry of the user is not writing to `k`.
  lookup-written :
      (id : String) (r new : Notification) (d : Notifications)
      → lookup id d ≡ some r
      → r.user_id ≡ user
      → lookup k d ≡ some v
      → lookup k (insert id new d) ≡ some v
  lookup-written id r new d it mine e = elim (Bool-cases (id == k)) [
    | inl same ↦
        let there : lookup k d ≡ some r = rw (← (eq_iff id k).0 same) it in
        absurd (foreign (cc (there, e, mine)))
    | inr other ↦ rw (lookup-insert k id new d) (rw other e)
  ]

  lookup-mark_found :
      (id : String) (o : Option Notification) (d : Notifications)
      → lookup id d ≡ o
      → lookup k d ≡ some v
      → lookup k (mark_found now user id o d).1 ≡ some v
  unfolding mark_found
  lookup-mark_found id none d it e = e
  lookup-mark_found id (some r) d it e = elim (Bool-cases (r.user_id == user)) [
    | inl own ↦
        let read = record r { read_at = stamp_or now r.read_at } in
        rw own (lookup-written id r read d it ((eq_iff r.user_id user).0 own) e)
    | inr other ↦ rw other e
  ]

  lookup-dismiss_found :
      (id : String) (o : Option Notification) (d : Notifications)
      → lookup id d ≡ o
      → lookup k d ≡ some v
      → lookup k (dismiss_found now user id o d).1 ≡ some v
  unfolding dismiss_found
  lookup-dismiss_found id none d it e = e
  lookup-dismiss_found id (some r) d it e = elim (Bool-cases (r.user_id == user)) [
    | inl own ↦
        let gone = record r {
          read_at = stamp_or now r.read_at;
          dismissed_at = stamp_or now r.dismissed_at;
        } in
        rw own (lookup-written id r gone d it ((eq_iff r.user_id user).0 own) e)
    | inr other ↦ rw other e
  ]

  lookup-mark_all :
      (d : Notifications)
      → lookup k d ≡ some v
      → lookup k (mark_all_notifications_read now user d).1 ≡ some v
  unfolding mark_all_notifications_read read_if_unread
  lookup-mark_all d e =
      lookup-map_items (read_if_unread now user) k d
      ∙ ap (mapped (read_if_unread now user k)) e
      ∙ ground (arith, eq_iff v.user_id user, foreign)

-- Marking one entry as read, dismissing one, and marking all as read leave every entry of another
-- user as it is, whichever entry the request names.
pub lookup-foreign :
    (now : ℕ) (user id k : String) (v : Notification) (d : Notifications)
    → v.user_id ≢ user
    → lookup k d ≡ some v
    → (lookup k (mark_notification_read now user id d).1 ≡ some v)
      × (lookup k (dismiss_notification now user id d).1 ≡ some v)
      × (lookup k (mark_all_notifications_read now user d).1 ≡ some v)
unfolding mark_notification_read dismiss_notification
lookup-foreign now user id k v d foreign e = (
  lookup-mark_found now user k v foreign id (lookup id d) d refl e,
  lookup-dismiss_found now user k v foreign id (lookup id d) d refl e,
  lookup-mark_all now user k v foreign d e,
)

module _ (p : String → Notification → Bool)
    (less : String × Notification → String × Notification → Bool) where
  count-insert_item :
      (x : String × Notification) (d : Notifications)
      → length (keep_items p (insert_item less x d)) ≡ length (keep_items p (x ∷ d))
  unfolding insert_item keep_items
  count-insert_item x [] = refl
  count-insert_item x (y ∷ d) = ground (arith, count-insert_item x d)

  count-sort_items :
      (d : Notifications) → length (keep_items p (sort_items less d)) ≡ length (keep_items p d)
  unfolding sort_items keep_items
  count-sort_items [] = refl
  count-sort_items (x ∷ d) =
      count-insert_item x (sort_items less d) ∙ ground (arith, count-sort_items d)

count_shown :
    (user : String) (d : Notifications)
    → length (keep_items not_read (keep_items (shown_to user) d)) ≡ unread_count d user
unfolding keep_items unread_count shown_to not_read
count_shown user [] = refl
count_shown user ((k, r) ∷ d) = ground (arith, count_shown user d)

all_read :
    (now : ℕ) (user : String) (d : Notifications)
    → 0 < now
    → unread_count (map_items (read_if_unread now user) d) user ≡ 0
unfolding unread_count keep_items map_items read_if_unread
all_read now user [] h = refl
all_read zero user (x ∷ d) h = elim h [ ]
all_read (suc now) user ((k, r) ∷ d) h = ground (arith, all_read (suc now) user d h)

-- The notification center reports the number of unread entries that the other operations answer,
-- and at a positive time marking all as read answers 0 and leaves the center without unread ones.
pub notification_center-unread_count :
    (limit now : ℕ) (user : String) (d : Notifications)
    → 0 < now
    → ((notification_center limit user d).1 ≡ unread_count d user)
      × ((mark_all_notifications_read now user d).0 ≡ 0)
      × ((notification_center limit user (mark_all_notifications_read now user d).1).1 ≡ 0)
unfolding mark_all_notifications_read notification_center
notification_center-unread_count limit now user d h =
    let after = map_items (read_if_unread now user) d in
    (
      center_count limit user d,
      all_read now user d h,
      center_count limit user after ∙ all_read now user d h,
    )
  where
    center_count :
        (limit : ℕ) (user : String) (d : Notifications)
        → (notification_center limit user d).1 ≡ unread_count d user
    center_count limit user d =
        count-sort_items not_read newest_first (keep_items (shown_to user) d) ∙ count_shown user d
