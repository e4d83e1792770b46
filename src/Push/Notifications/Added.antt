-- ===== src/Push/Notifications/Added.antt =====
-- The entries after those of a new notification are added.
use home_lab_hq.Base.{
  ℕ, ◌+◌, ◌≤◌, String, ◌≡◌, refl, sym, ap, ◌∙◌, ◌⊎◌, inl, inr, Bool, true, false, none, some, List,
  [], ◌∷◌, arith, ◌==◌, eq_iff, eq_refl, length, is_in, is_some, if◌then◌else◌, Bool-cases,
  Option-cases,
}
use home_lab_hq.Dict.{lookup, insert, keep_items, contains}
use home_lab_hq.Dict.Laws.{lookup-insert}
use home_lab_hq.Push.Notifications.{
  Notification, Notifications, Message, belongs_to, new_notification, add_all,
}

module _ (now : ℕ) (message : Message) (token : String → String) where
  -- An entry was there before, or it is the new one of a recipient.
  pub add_all-came :
      (users : List String) (d : Notifications) (k : String) (v : Notification)
      → lookup k (add_all now message token users d) ≡ some v
      → (lookup k d ≡ some v)
        ⊎ ((u : String) × (is_in u users ≡ true)
            × (k ≡ token u)
            × (v ≡ new_notification now message (token u) u))
  unfolding add_all
  add_all-came [] d k v e = inl e
  add_all-came (user ∷ users) d k v e =
      let new = new_notification now message (token user) user in
      elim (add_all-came users (insert (token user) new d) k v e) [
        | inr (u, inside, at_it, is) ↦ inr (u, ground (arith, inside), at_it, is)
        | inl there ↦ elim (Bool-cases (token user == k)) [
          | inl here ↦
              let it : some new ≡ some v =
                sym (lookup-insert k (token user) new d ∙ rw here refl) ∙ there in
              let same : new ≡ v = cc it in
              inr
                (user, ground (arith, eq_refl user), sym ((eq_iff (token user) k).0 here), sym same)
          | inr other ↦ inl (sym (lookup-insert k (token user) new d ∙ rw other refl) ∙ there)
        ]
      ]

  -- An entry under the token of no user stays.
  pub add_all-keeps :
      (users : List String) (d : Notifications) (k : String) (v : Notification)
      → ((u : String) → (token u == k) ≡ false)
      → lookup k d ≡ some v
      → lookup k (add_all now message token users d) ≡ some v
  unfolding add_all
  add_all-keeps [] d k v apart e = e
  add_all-keeps (user ∷ users) d k v apart e =
      let new = new_notification now message (token user) user in
      add_all-keeps users (insert (token user) new d) k v apart
        (lookup-insert k (token user) new d ∙ rw (apart user) e)

  module _ (injective : (u x : String) → token u ≡ token x → u ≡ x) where
    add_all-stays :
        (users : List String) (d : Notifications) (u : String)
        → lookup (token u) d ≡ some (new_notification now message (token u) u)
        → lookup (token u) (add_all now message token users d)
          ≡ some (new_notification now message (token u) u)
    unfolding add_all
    add_all-stays [] d u e = e
    add_all-stays (user ∷ users) d u e =
        let new = new_notification now message (token user) user in
        add_all-stays users (insert (token user) new d) u
          (elim (Bool-cases (token user == token u)) [
            | inl here ↦
                let same = injective user u ((eq_iff (token user) (token u)).0 here) in
                lookup-insert (token u) (token user) new d
                ∙ rw here (ap (λ x. some (new_notification now message (token x) x)) same)
            | inr other ↦ lookup-insert (token u) (token user) new d ∙ rw other e
          ])

    -- Every recipient has its new entry.
    pub add_all-has :
        (users : List String) (d : Notifications) (u : String)
        → is_in u users ≡ true
        → lookup (token u) (add_all now message token users d)
          ≡ some (new_notification now message (token u) u)
    unfolding add_all
    add_all-has [] d u inside = absurd (cc inside)
    add_all-has (user ∷ users) d u inside =
        let new = new_notification now message (token user) user in
        elim (Bool-cases (user == u)) [
          | inl here ↦
              let same = (eq_iff user u).0 here in
              add_all-stays users (insert (token user) new d) u
                (lookup-insert (token u) (token user) new d ∙ rw same (rw (eq_refl (token u)) refl))
          | inr other ↦ add_all-has users (insert (token user) new d) u (rw other at inside)
        ]

module _ (user k : String) (v : Notification) where
  count-insert_foreign :
      (d : Notifications)
      → belongs_to user k v ≡ false
      → length (keep_items (belongs_to user) (insert k v d))
        ≤ length (keep_items (belongs_to user) d)
  unfolding insert keep_items
  count-insert_foreign [] foreign = ground (arith, foreign)
  count-insert_foreign ((j, w) ∷ d) foreign =
      ground (arith, foreign, count-insert_foreign d foreign)

  count-insert :
      (d : Notifications)
      → length (keep_items (belongs_to user) (insert k v d))
        ≤ length (keep_items (belongs_to user) d) + 1
  unfolding insert keep_items
  count-insert [] = ground arith
  count-insert ((j, w) ∷ d) = ground (arith, count-insert d)

  count-insert_own :
      (d : Notifications) (old : Notification)
      → lookup k d ≡ some old
      → belongs_to user k old ≡ true
      → length (keep_items (belongs_to user) (insert k v d))
        ≤ length (keep_items (belongs_to user) d)
  unfolding insert keep_items lookup
  count-insert_own [] old e own = absurd (cc e)
  count-insert_own ((j, w) ∷ d) old e own = elim (Bool-cases (j == k)) [
    | inl here ↦
        let is : some w ≡ some old = rw here at e in
        let same : w ≡ old = cc is in
        let its : belongs_to user j w ≡ true = rw same own in rw here (ground (arith, its))
    | inr other ↦ rw other (ground (arith, count-insert_own d old (rw other at e) own))
  ]

-- Room for the new entry of a user that has none under its token.
abbrev slack : Bool → ℕ
slack held = if held then 0 else 1

module _ (now : ℕ) (message : Message) (token : String → String)
    (injective : (u x : String) → token u ≡ token x → u ≡ x) where
  count-add_all-slack :
      (users : List String) (d : Notifications) (u : String)
      → ((w : Notification) → lookup (token u) d ≡ some w → w.user_id ≡ u)
      → length (keep_items (belongs_to u) (add_all now message token users d))
        ≤ length (keep_items (belongs_to u) d) + slack (contains (token u) d)
  unfolding add_all
  count-add_all-slack [] d u own = omega arith
  count-add_all-slack (user ∷ users) d u own = elim (Bool-cases (user == u)) [
    | inr other ↦
        let apart : (token user == token u) ≡ false = elsewhere other in
        let same_at : lookup (token u) (insert (token user) (new user) d) ≡ lookup (token u) d =
          lookup-insert (token u) (token user) (new user) d ∙ rw apart refl in
        let rest =
          count-add_all-slack users (insert (token user) (new user) d) u
            (λ w e. own w (sym same_at ∙ e)) in
        omega (
          arith,
          rest,
          ap (λ o. slack (is_some o)) same_at,
          count-insert_foreign u (token user) (new user) d (unfold new_notification in other),
        )
    | inl here ↦
        let same : user ≡ u = (eq_iff user u).0 here in
        let at_it : lookup (token u) (insert (token user) (new user) d) ≡ some (new user) =
          lookup-insert (token u) (token user) (new user) d
          ∙ rw same (rw (eq_refl (token u)) refl) in
        let rest = count-add_all-slack users (insert (token user) (new user) d) u (λ w e.
          let it : some (new user) ≡ some w = sym at_it ∙ e in
          let is : new user ≡ w = cc it in
          ap Notification.user_id (sym is) ∙ unfold new_notification in same) in
        let full = ap (λ o. slack (is_some o)) at_it in
        elim (Option-cases (lookup (token u) d)) [
          | inl absent ↦ omega (
            arith,
            rest,
            full,
            ap (λ o. slack (is_some o)) absent,
            count-insert u (token user) (new user) d,
          )
          | inr (old, there) ↦
              let there_too : lookup (token user) d ≡ some old = rw same there in
              let its : belongs_to u (token user) old ≡ true = rw (own old there) (eq_refl u) in
              omega (
                arith,
                rest,
                full,
                ap (λ o. slack (is_some o)) there,
                count-insert_own u (token user) (new user) d old there_too its,
              )
        ]
  ]
    where
      new : String → Notification
      new x = new_notification now message (token x) x

      elsewhere : (user == u) ≡ false → (token user == token u) ≡ false
      elsewhere other = elim (Bool-cases (token user == token u)) [
        | inr apart ↦ apart
        | inl meet ↦
            let same = injective user u ((eq_iff (token user) (token u)).0 meet) in
            absurd (cc (other, (eq_iff user u).1 same))
      ]

  -- A user has at most one entry more, if its token is unused.
  pub count-add_all :
      (users : List String) (d : Notifications) (u : String)
      → lookup (token u) d ≡ none
      → length (keep_items (belongs_to u) (add_all now message token users d))
        ≤ length (keep_items (belongs_to u) d) + 1
  count-add_all users d u fresh = omega (
    arith,
    count-add_all-slack users d u (λ w e. absurd (cc (fresh, e))),
    ap (λ o. slack (is_some o)) fresh,
  )
