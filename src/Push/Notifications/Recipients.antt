-- ===== src/Push/Notifications/Recipients.antt =====
-- Who receives the entries of `_persist_notifications`, and what bounding their entries leaves.
use home_lab_hq.Base.{
  is_in, ℕ, String, ◌≡◌, sym, ap, ◌∙◌, refl, inl, inr, Bool, true, Option, none, some, List, [],
  ◌∷◌, arith, ◌==◌, eq_iff, eq_refl, ◌||◌, ◌&&◌, Bool-cases,
}
use home_lab_hq.Dict.{Dict, lookup, insert, keys, contains}
use home_lab_hq.Dict.Laws.{IsDict, insert-IsDict}
use home_lab_hq.Prune.Named.{insert-AreNamed}
use home_lab_hq.Push.Notifications.{
  Notifications, Message, new_notification, add_all, insert_text, sorted_set, only_known,
  recipients_of, persist_notifications,
}
use home_lab_hq.Push.Notifications.Bounds.{HaveIds, Bounded}
use home_lab_hq.Push.Notifications.Turns.{bound_users-Bounded}

module _ (now : ℕ) (message : Message) (token : String → String) where
  pub add_all-IsDict :
      (users : List String) (d : Notifications)
      → IsDict d
      → HaveIds d
      → IsDict (add_all now message token users d) × HaveIds (add_all now message token users d)
  unfolding add_all new_notification
  add_all-IsDict [] d h ids = (h, ids)
  add_all-IsDict (user ∷ users) d h ids =
      let new = new_notification now message (token user) user in
      add_all-IsDict users (insert (token user) new d) (insert-IsDict (token user) new d h)
        (insert-AreNamed (λ item. item.1.id) (token user) new d (λ j e. sym e) ids)

pub is_in-insert_text :
    (u x : String) (xs : List String) → is_in u (insert_text x xs) ≡ (x == u || is_in u xs)
unfolding insert_text
is_in-insert_text u x [] = refl
is_in-insert_text u x (y ∷ xs) =
    ground (arith, is_in-insert_text u x xs, eq_iff x y, eq_iff x u, eq_iff y u)

pub is_in-sorted_set : (u : String) (xs : List String) → is_in u (sorted_set xs) ≡ is_in u xs
unfolding sorted_set
is_in-sorted_set u [] = refl
is_in-sorted_set u (x ∷ xs) =
    is_in-insert_text u x (sorted_set xs) ∙ ap (λ b. x == u || b) (is_in-sorted_set u xs)

module _ {U : Type 0} (users : Dict U) where
  pub is_in-keys : (u : String) (d : Dict U) → is_in u (keys d) ≡ contains u d
  unfolding lookup
  is_in-keys u [] = refl
  is_in-keys u ((k, v) ∷ d) = ground (arith, is_in-keys u d)

  is_in-only_known :
      (u : String) (xs : List String)
      → is_in u (only_known users xs) ≡ (contains u users && is_in u xs)
  is_in-only_known u [] = ground arith
  is_in-only_known u (x ∷ xs) = elim (Bool-cases (x == u)) [
    | inl same ↦
        let it = (eq_iff x u).0 same in rw it (ground (arith, is_in-only_known u xs, eq_refl u))
    | inr other ↦ ground (arith, is_in-only_known u xs)
  ]

  -- Whether the ids ask for the user; no ids ask for everyone.
  abbrev pub asked : String → Option (List String) → Bool
  asked u none = true
  asked u (some ids) = is_in u ids

  pub is_in-recipients_of :
      (u : String) (ids : Option (List String))
      → is_in u (recipients_of users ids) ≡ (contains u users && asked u ids)
  unfolding recipients_of
  is_in-recipients_of u none = is_in-sorted_set u (keys users) ∙ is_in-keys u users ∙ ground arith
  is_in-recipients_of u (some ids) =
      is_in-sorted_set u (only_known users ids) ∙ is_in-only_known u ids

-- The entries of `_persist_notifications` against those with the new ones added, and who the
-- recipients are.
pub persist_notifications-Bounded :
    {U : Type 0} (limit now : ℕ) (order : List String → List String) (token : String → String)
    (message : Message) (users : Dict U) (ids : Option (List String)) (d : Notifications)
    → ((u : String) (us : List String) → is_in u (order us) ≡ is_in u us)
    → IsDict d
    → HaveIds d
    → Bounded limit
        (order (recipients_of users ids))
        (add_all now message token (recipients_of users ids) d)
        (persist_notifications limit now order token message users ids d).1
      × ((u : String)
          → is_in u (order (recipients_of users ids)) ≡ (contains u users && asked users u ids))
unfolding persist_notifications
persist_notifications-Bounded limit now order token message users ids d same h named =
    let added = add_all-IsDict now message token (recipients_of users ids) d h named in
    (
      bound_users-Bounded limit (order (recipients_of users ids))
          (add_all now message token (recipients_of users ids) d) added.0 added.1,
      λ u. same u (recipients_of users ids) ∙ is_in-recipients_of users u ids,
    )
