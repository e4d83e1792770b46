-- ===== src/Tests/Push.antt =====
-- Concrete runs of the model of push subscriptions and notifications.
use Prim.Native.Char.{code}
use home_lab_hq.Base.{
  nat_eq, Bool, ap, ◌==◌, false, Bool-cases, inl, inr, ℕ, String, ◌≡◌, ◌≢◌, refl, true, false,
  Option, none, some, List, [], ◌∷◌, ◌&&◌, arith, eq_iff, map, is_in,
}
use home_lab_hq.Dict.{Dict, lookup, contains, keys}
use home_lab_hq.Dict.Laws.{IsDict}
use home_lab_hq.Push.Subscriptions.{PushSubscription, Subscriptions, subscribe}
use home_lab_hq.Push.Subscriptions.Bounds.{Subscribed, subscribe-Subscribed}
use home_lab_hq.Push.Category.{NotificationData, notification_category}
use home_lab_hq.Push.Notifications.{
  Notification, Notifications, Message, new_notification, persist_notifications,
}
use home_lab_hq.Push.Notifications.Center.{
  mark_notification_read, dismiss_notification, mark_all_notifications_read,
}
use home_lab_hq.Push.Notifications.Bounds.{HaveIds}
use home_lab_hq.Push.Notifications.Recipients.{asked}
use home_lab_hq.Push.Notifications.Persisted.{Persisted, persist_notifications_lem}
use home_lab_hq.Push.Notifications.Center.Ownership.{lookup-foreign}

abbrev from : String → ℕ → PushSubscription
from user created = record { user_id = user; subscription = "{}"; created = created }

abbrev three : Subscriptions
three = ("e1", from "u1" 10) ∷ ("e2", from "u2" 20) ∷ ("e3", from "u1" 5) ∷ []

three-IsDict : IsDict three
unfolding lookup
three-IsDict = (refl, (refl, (refl, tt)))

-- With a limit of two, the oldest endpoint of the user goes.
abbrev endpoints : Option Subscriptions → List String
endpoints none = []
endpoints (some d) = keys d

subscribe_run : endpoints (subscribe 2 30 "u1" (some "e4") "{}" three) ≡ "e1" ∷ "e2" ∷ "e4" ∷ []
unfolding subscribe home_lab_hq.Dict.keep_items home_lab_hq.Dict.insert
    home_lab_hq.Prune.drop_chosen home_lab_hq.Prune.before home_lab_hq.Dict.erase
subscribe_run = refl

subscribe_example :
    (after : Subscriptions) × (subscribe 2 30 "u1" (some "e4") "{}" three ≡ some after)
    × Subscribed 2 "u1" "e4" (from "u1" 30) three after
subscribe_example =
    subscribe-Subscribed 2 30 "u1" "e4" "{}" three (omega arith)
      (λ e. ground (arith, eq_iff "e4" "", e)) three-IsDict

abbrev entry : String → String → ℕ → Option ℕ → Notification
entry id user created read = record {
  id = id;
  user_id = user;
  title = "t";
  body = "b";
  category = "general";
  data_copy = "{}";
  created_at = created;
  read_at = read;
  dismissed_at = none;
}

abbrev stored : Notifications
stored =
    ("n1", entry "n1" "u1" 3 none)
    ∷ ("n2", entry "n2" "u1" 4 (some 5))
    ∷ ("n3", entry "n3" "u2" 1 none)
    ∷ []

stored-IsDict : IsDict stored
unfolding lookup
stored-IsDict = (refl, (refl, (refl, tt)))

stored-HaveIds : HaveIds stored
stored-HaveIds = (refl, (refl, (refl, tt)))

abbrev no_data : NotificationData
no_data = record { category = ""; type_name = "alert"; key = "cpu_temp"; copy = "{}" }

abbrev message : Message
message = record { title = "Hot"; body = "CPU"; payload = no_data }

abbrev token_of : String → String
token_of user = user

abbrev accounts : Dict ℕ
accounts = ("u1", 0) ∷ ("u2", 0) ∷ []

category_run : notification_category "Hot" "CPU" no_data ≡ "high_cpu"
unfolding notification_category home_lab_hq.Base.lower home_lab_hq.Base.strip
    home_lab_hq.Base.has_part
category_run = refl

-- The read entry goes before the unread ones.
persist_run :
    keys
      (persist_notifications 2 9
        (λ us. us)
        token_of
        message
        accounts
        (some ("u1" ∷ "u9" ∷ []))
        stored).1
    ≡ "n1" ∷ "n3" ∷ "u1" ∷ []
unfolding persist_notifications home_lab_hq.Push.Notifications.bound_users
    home_lab_hq.Push.Notifications.sorted_set lookup home_lab_hq.Prune.drop_chosen
    home_lab_hq.Dict.insert home_lab_hq.Push.Notifications.new_notification
    home_lab_hq.Push.Notifications.sheds_before home_lab_hq.Dict.erase
persist_run = refl

-- A token that begins as no stored id does.
abbrev marked : String → String
marked user = String.◌∷◌ "t" user

abbrev rest_of : String → String
rest_of String.[] = String.[]
rest_of (String.◌∷◌ c s) = s

abbrev is_marked : String → Bool
is_marked String.[] = false
is_marked (String.◌∷◌ c s) = nat_eq (code c) 116

marked-differs : (u k : String) → is_marked k ≡ false → (k == marked u) ≡ false
marked-differs u k plain = elim (Bool-cases (k == marked u)) [
  | inl meet ↦ absurd (cc (plain, ap is_marked ((eq_iff k (marked u)).0 meet)))
  | inr apart ↦ apart
]

marked-fresh : (u : String) → lookup (marked u) stored ≡ none
unfolding lookup
marked-fresh u =
    rw (marked-differs u "n1" refl, marked-differs u "n2" refl, marked-differs u "n3" refl) refl

persist_example :
    Persisted 2
      (λ u. new_notification 9 message (marked u) u)
      marked
      (λ u. contains u accounts && asked accounts u (some ("u1" ∷ "u9" ∷ [])))
      stored
      (persist_notifications 2 9
        (λ us. us)
        marked
        message
        accounts
        (some ("u1" ∷ "u9" ∷ []))
        stored).1
persist_example =
    persist_notifications_lem 2 9 (λ us. us) marked message accounts (some ("u1" ∷ "u9" ∷ []))
      stored (λ u us. refl) (λ u x e. ap rest_of e) marked-fresh stored-IsDict stored-HaveIds

-- Its hypotheses on the entries hold as well: the first user's new entry is stored.
new_one_stored :
    lookup
      (marked "u1")
      (persist_notifications 2 9
        (λ us. us)
        marked
        message
        accounts
        (some ("u1" ∷ "u9" ∷ []))
        stored).1
    ≡ some (new_notification 9 message (marked "u1") "u1")
unfolding persist_notifications home_lab_hq.Push.Notifications.bound_users
    home_lab_hq.Push.Notifications.sorted_set lookup home_lab_hq.Prune.drop_chosen
    home_lab_hq.Dict.insert home_lab_hq.Push.Notifications.new_notification
    home_lab_hq.Push.Notifications.sheds_before home_lab_hq.Dict.erase
new_one_stored = refl

lookup-foreign_example :
    (lookup "n3" (mark_notification_read 9 "u1" "n3" stored).1 ≡ some (entry "n3" "u2" 1 none))
    × (lookup "n3" (dismiss_notification 9 "u1" "n3" stored).1 ≡ some (entry "n3" "u2" 1 none))
    × (lookup "n3" (mark_all_notifications_read 9 "u1" stored).1 ≡ some (entry "n3" "u2" 1 none))
unfolding lookup
lookup-foreign_example =
    lookup-foreign 9 "u1" "n3" "n3" (entry "n3" "u2" 1 none) stored
      (λ e. ground (arith, eq_iff "u2" "u1", e)) refl
