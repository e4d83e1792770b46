-- ===== src/Push/Notifications/Persisted.antt =====
-- What `_persist_notifications` leaves, told from the entries that it finds.
use home_lab_hq.Base.{
  is_in, ℕ, ◌+◌, ◌≤◌, ◌<◌, String, ◌≡◌, sym, ap, ◌∙◌, refl, ◌⊎◌, inl, inr, Bool, true, false,
  Option, none, some, List, arith, ◌==◌, eq_iff, ◌&&◌, length, Bool-cases,
}
use mathlib.Core.Path.{subst}
use home_lab_hq.Dict.{Dict, lookup, keep_items, contains}
use home_lab_hq.Dict.Laws.{IsDict}
use home_lab_hq.Push.Notifications.{
  Notification, Notifications, Message, belongs_to, new_notification, add_all, recipients_of,
  persist_notifications,
}
use home_lab_hq.Push.Notifications.Bounds.{HaveIds, Bounded, entry_rank}
use home_lab_hq.Push.Notifications.Recipients.{
  asked, is_in-recipients_of, persist_notifications-Bounded,
}
use home_lab_hq.Push.Notifications.Added.{add_all-came, add_all-keeps, add_all-has, count-add_all}

-- The entries `after` a notification, from the entries `d`, for the users that `gets` tells.
pub record Persisted (limit : ℕ) (new : String → Notification) (token : String → String)
    (gets : String → Bool) (d after : Notifications) : Type 0 where
  pub keys : IsDict after
  pub ids : HaveIds after
  pub bound : (u : String) → gets u ≡ true → length (keep_items (belongs_to u) after) ≤ limit
  pub came :
      (k : String) (v : Notification)
      → lookup k after ≡ some v
      → (lookup k d ≡ some v) ⊎ ((u : String) × (gets u ≡ true) × (k ≡ token u) × (v ≡ new u))
  pub others :
      (k : String) (v : Notification)
      → lookup k d ≡ some v
      → gets v.user_id ≡ false
      → lookup k after ≡ some v
  pub within :
      (k : String) (v : Notification)
      → lookup k d ≡ some v
      → length (keep_items (belongs_to v.user_id) d) < limit
      → lookup k after ≡ some v
  pub low_first :
      (k j : String) (v w : Notification)
      → lookup k d ≡ some v
      → lookup k after ≡ none
      → lookup j after ≡ some w
      → w.user_id ≡ v.user_id
      → entry_rank v ≤ entry_rank w
  pub stored_within :
      (u : String)
      → gets u ≡ true
      → length (keep_items (belongs_to u) d) < limit
      → lookup (token u) after ≡ some (new u)
  pub stored_newest :
      (u : String)
      → gets u ≡ true
      → 1 ≤ limit
      → ((k : String) (v : Notification)
          → lookup k d ≡ some v
          → v.user_id ≡ u
          → entry_rank v < entry_rank (new u))
      → lookup (token u) after ≡ some (new u)

module _ (limit : ℕ) (new : String → Notification) (token : String → String) (gets : String → Bool)
    (d added after : Notifications) (users : List String) where
  Bounded-Persisted :
      Bounded limit users added after
      → ((u : String) → is_in u users ≡ gets u)
      → ((u : String) → (new u).user_id ≡ u)
      → ((k : String) (v : Notification)
          → lookup k added ≡ some v
          → (lookup k d ≡ some v) ⊎ ((u : String) × (gets u ≡ true) × (k ≡ token u) × (v ≡ new u)))
      → ((k : String) (v : Notification) → lookup k d ≡ some v → lookup k added ≡ some v)
      → ((u : String) → gets u ≡ true → lookup (token u) added ≡ some (new u))
      → ((u : String)
          → length (keep_items (belongs_to u) added) ≤ length (keep_items (belongs_to u) d) + 1)
      → Persisted limit new token gets d after
  Bounded-Persisted bounded who own came keeps has more = record {
    keys = bounded.keys;
    ids = bounded.ids;
    bound = λ u e. bounded.bound u (who u ∙ e);
    came = λ k v e. came k v (bounded.was k v e);
    others = λ k v e out. bounded.others k v (keeps k v e) (who v.user_id ∙ out);
    within = λ k v e few. bounded.within k v (keeps k v e) (omega (arith, few, more v.user_id));
    low_first = λ k j v w e. bounded.low_first k j v w (keeps k v e);
    stored_within = λ u e few. bounded.within (token u) (new u) (has u e) (
        subst (λ x. length (keep_items (belongs_to x) added) ≤ limit) (sym (own u))
          (omega (arith, few, more u)));
    stored_newest = λ u e room top.
        bounded.newest (token u) (new u) room (has u e) (λ j w there same apart.
          elim (came j w there) [
            | inl old ↦ top j w old (same ∙ own u)
            | inr (x, gets_it, at_it, is) ↦
                let user : x ≡ u = sym (own x) ∙ ap Notification.user_id (sym is) ∙ same ∙ own u in
                let at_own : j ≡ token u = at_it ∙ ap token user in
                absurd (cc (apart, (eq_iff j (token u)).1 at_own))
          ]);
  }

-- Storing a notification, with new tokens that differ from user to user, whatever the order in
-- which the set of the recipients is run through. The recipients are the known users that are
-- asked for, or all known users. Each ends with at most the limit of entries. Every entry was there
-- before, or is the new one of a recipient. Entries of the others stay, and so do those of a user
-- with fewer entries than the limit; a dropped entry never ranks above a kept one of its user,
-- where unread entries rank above the others and by their age. A recipient has its new entry if it
-- had fewer entries than the limit, or if the limit is not 0 and each of its entries was read or
-- dismissed or is older than the new one.
pub persist_notifications_lem :
    {U : Type 0} (limit now : ℕ) (order : List String → List String) (token : String → String)
    (message : Message) (users : Dict U) (ids : Option (List String)) (d : Notifications)
    → ((u : String) (us : List String) → is_in u (order us) ≡ is_in u us)
    → ((u x : String) → token u ≡ token x → u ≡ x)
    → ((u : String) → lookup (token u) d ≡ none)
    → IsDict d
    → HaveIds d
    → Persisted limit
        (λ u. new_notification now message (token u) u)
        token
        (λ u. contains u users && asked users u ids)
        d
        (persist_notifications limit now order token message users ids d).1
persist_notifications_lem limit now order token message users ids d same injective fresh h named =
    let recipients = recipients_of users ids in
    let (bounded, who) =
      persist_notifications-Bounded limit now order token message users ids d same h named in
    Bounded-Persisted limit (λ u. new_notification now message (token u) u) token
      (λ u. contains u users && asked users u ids) d (add_all now message token recipients d)
      (persist_notifications limit now order token message users ids d).1 (order recipients) bounded
      who (λ u. unfold new_notification in refl)
      (λ k v e. elim (add_all-came now message token recipients d k v e) [
        | inl old ↦ inl old
        | inr (u, inside, at_it, is) ↦
            inr (u, sym (is_in-recipients_of users u ids) ∙ inside, at_it, is)
      ])
      (λ k v e. add_all-keeps now message token recipients d k v (λ u. other_token u k v e) e)
      (λ u e.
        add_all-has now message token injective recipients d u
          (is_in-recipients_of users u ids ∙ e))
      (λ u. count-add_all now message token injective recipients d u (fresh u))
  where
    other_token : (u k : String) (v : Notification) → lookup k d ≡ some v → (token u == k) ≡ false
    other_token u k v e = elim (Bool-cases (token u == k)) [
      | inl meet ↦ absurd (cc (e, fresh u, ap (λ i. lookup i d) ((eq_iff (token u) k).0 meet)))
      | inr apart ↦ apart
    ]
