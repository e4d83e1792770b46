-- ===== src/Push/Notifications/Bounds.antt =====
-- The bound that `_persist_notifications` keeps on every recipient's entries.
use home_lab_hq.Base.{
  is_in, ℕ, ◌≤◌, ◌<◌, suc, Bool, if◌then◌else◌, eq_refl, String, ◌≡◌, ap, refl, inl, inr, true,
  false, none, some, List, [], ◌∷◌, arith, ◌==◌, eq_iff, length, Bool-cases,
}
use home_lab_hq.Dict.{lookup, keep_items}
use home_lab_hq.Dict.Laws.{IsDict}
use home_lab_hq.Prune.Named.{AreNamed}
use home_lab_hq.Push.Notifications.{
  Notification, Notifications, belongs_to, is_unread, created_before, sheds_before,
}

-- Every entry stands under its own id.
abbrev pub HaveIds : Notifications → Type 0
HaveIds = AreNamed (λ item. item.1.id)

-- How late the bound drops an entry: unread ones after the others, and by their age.
abbrev pub entry_rank : Notification → ℕ
entry_rank r = if is_unread r then suc r.created_at else 0

-- What bounding the users' entries leaves of the entries `d`.
pub record Bounded (limit : ℕ) (users : List String) (d after : Notifications) : Type 0 where
  pub keys : IsDict after
  pub ids : HaveIds after
  pub bound :
      (user : String)
      → is_in user users ≡ true
      → length (keep_items (belongs_to user) after) ≤ limit
  pub fewer :
      (user : String)
      → length (keep_items (belongs_to user) after) ≤ length (keep_items (belongs_to user) d)
  pub was : (k : String) (v : Notification) → lookup k after ≡ some v → lookup k d ≡ some v
  pub others :
      (k : String) (v : Notification)
      → lookup k d ≡ some v
      → is_in v.user_id users ≡ false
      → lookup k after ≡ some v
  pub within :
      (k : String) (v : Notification)
      → lookup k d ≡ some v
      → length (keep_items (belongs_to v.user_id) d) ≤ limit
      → lookup k after ≡ some v
  pub newest :
      (k : String) (v : Notification)
      → 1 ≤ limit
      → lookup k d ≡ some v
      → ((j : String) (w : Notification)
          → lookup j d ≡ some w
          → w.user_id ≡ v.user_id
          → (j == k) ≡ false
          → entry_rank w < entry_rank v)
      → lookup k after ≡ some v
  pub low_first :
      (k j : String) (v w : Notification)
      → lookup k d ≡ some v
      → lookup k after ≡ none
      → lookup j after ≡ some w
      → w.user_id ≡ v.user_id
      → entry_rank v ≤ entry_rank w

pub sheds-le :
    (x y : String × Notification) → sheds_before x y ≡ true → entry_rank x.1 ≤ entry_rank y.1
unfolding sheds_before created_before
sheds-le x y h = ground arith

pub sheds_not-le :
    (x y : String × Notification) → sheds_before x y ≡ false → entry_rank y.1 ≤ entry_rank x.1
unfolding sheds_before created_before
sheds_not-le x y h = ground arith

pub other_key :
    (d : Notifications) (j k : String) (w : Notification)
    → lookup j d ≡ some w
    → lookup k d ≡ none
    → (j == k) ≡ false
other_key d j k w there gone = elim (Bool-cases (j == k)) [
  | inl same ↦ absurd (cc (there, gone, ap (λ i. lookup i d) ((eq_iff j k).0 same)))
  | inr other ↦ other
]

-- A test that counts some entry finds one.
pub found_one :
    (p : String → Notification → Bool) (d : Notifications)
    → IsDict d
    → 0 < length (keep_items p d)
    → (j : String) × (w : Notification) × (lookup j d ≡ some w) × (p j w ≡ true)
unfolding keep_items lookup
found_one p [] h some_one = absurd (omega arith)
found_one p ((k, v) ∷ d) h some_one = elim (Bool-cases (p k v)) [
  | inl yes_it ↦ (k, v, rw (eq_refl k) refl, yes_it)
  | inr no_it ↦
      let (j, w, e, is) = found_one p d h.1 (rw no_it at some_one) in
      (j, w, ground (arith, e, h.0, eq_iff k j), is)
]
