-- ===== src/Push/Notifications/Turns.antt =====
-- The turns of the loop that bounds every recipient's entries.
use home_lab_hq.Base.{
  ℕ, ◌-◌, ◌≤◌, ◌<◌, ltb, String, ◌≡◌, sym, ap, ◌∙◌, refl, inl, inr, true, false, none, some, List,
  [], ◌∷◌, arith, ◌==◌, eq_iff, length, Bool-cases, Option-cases,
}
use home_lab_hq.Dict.{lookup, keep_items}
use home_lab_hq.Dict.Laws.{IsDict}
use home_lab_hq.Prune.{drop_chosen}
use home_lab_hq.Prune.Named.{drop_chosen-AreNamed}
use home_lab_hq.Prune.Chosen.{Drops, drop_chosen-Drops, count-drop_chosen}
use home_lab_hq.Push.Notifications.{
  Notification, Notifications, belongs_to, sheds_before, bound_user, bound_users,
}
use home_lab_hq.Push.Notifications.Bounds.{
  HaveIds, entry_rank, Bounded, sheds-le, sheds_not-le, found_one, other_key,
}

module _ (limit : ℕ) where
  bound_user-HaveIds :
      (user : String) (d : Notifications) → HaveIds d → HaveIds (bound_user limit user d)
  unfolding bound_user
  bound_user-HaveIds user d h =
      drop_chosen-AreNamed sheds_before (λ item. item.1.id) (belongs_to user)
        (length (keep_items (belongs_to user) d) - limit) d h

  bound_user-Drops :
      (user : String) (d : Notifications)
      → IsDict d
      → HaveIds d
      → Drops
          (belongs_to user)
          entry_rank
          (length (keep_items (belongs_to user) d) - limit)
          d
          (bound_user limit user d)
  unfolding bound_user
  bound_user-Drops user d h ids =
      drop_chosen-Drops (belongs_to user) entry_rank sheds_before (λ item. item.1.id)
        (length (keep_items (belongs_to user) d) - limit) d sheds-le sheds_not-le h ids
        (omega arith)

  count-bound_user :
      (other user : String) (d : Notifications)
      → length (keep_items (belongs_to other) (bound_user limit user d))
        ≤ length (keep_items (belongs_to other) d)
  unfolding bound_user
  count-bound_user other user d =
      count-drop_chosen (belongs_to other) (belongs_to user) sheds_before (λ item. item.1.id)
        (length (keep_items (belongs_to user) d) - limit) d

  bound_user_within :
      (user : String) (d : Notifications)
      → length (keep_items (belongs_to user) d) ≤ limit
      → bound_user limit user d ≡ d
  unfolding bound_user drop_chosen
  bound_user_within user d h =
      let none_over : length (keep_items (belongs_to user) d) - limit ≡ 0 = omega arith in
      rw none_over refl

  -- One turn of the loop and the turns after it.
  bound_user-Bounded :
      (user : String) (users : List String) (d after : Notifications)
      → IsDict d
      → HaveIds d
      → Bounded limit users (bound_user limit user d) after
      → Bounded limit (user ∷ users) d after
  bound_user-Bounded user users d after h ids rest = record {
    keys = rest.keys;
    ids = rest.ids;
    bound = λ other e. elim (Bool-cases (user == other)) [
      | inl same ↦
          let here = (eq_iff user other).0 same in
          rw (← here) (omega (arith, step.count, rest.fewer user))
      | inr differs ↦ rest.bound other (rw differs at e)
    ];
    fewer = λ other. omega (arith, rest.fewer other, count-bound_user other user d);
    was = λ k v e. step.was k v (rest.was k v e);
    others = λ k v e out.
        rest.others k v
          (step.others k v e (ground (arith, out, eq_iff user v.user_id, eq_iff v.user_id user)))
          (ground (arith, out));
    within = λ k v e few.
        rest.within k v (stays_within k v e few)
          (omega (arith, few, count-bound_user v.user_id user d));
    newest = λ k v room e top.
        rest.newest k v room (stays_newest k v room e top)
          (λ j w there. top j w (step.was j w there));
    low_first = λ k j v w e gone stays same. elim (Option-cases (lookup k next)) [
      | inl dropped ↦
          step.lowest k j v w e dropped (rest.was j w stays) (same_owner k j v w e dropped same)
      | inr (u, still) ↦
          let it : lookup k next ≡ some v = still ∙ sym (step.was k u still) ∙ e in
          rest.low_first k j v w it gone stays same
    ];
  }
    where
      next : Notifications
      next = bound_user limit user d

      step :
          Drops
            (belongs_to user)
            entry_rank
            (length (keep_items (belongs_to user) d) - limit)
            d
            next
      step = bound_user-Drops user d h ids

      same_owner :
          (k j : String) (v w : Notification)
          → lookup k d ≡ some v
          → lookup k next ≡ none
          → w.user_id ≡ v.user_id
          → belongs_to user j w ≡ true
      same_owner k j v w e dropped same = elim (Bool-cases (v.user_id == user)) [
        | inl own ↦ rw same own
        | inr foreign ↦ absurd (cc (step.others k v e foreign, dropped))
      ]

      stays_within :
          (k : String) (v : Notification)
          → lookup k d ≡ some v
          → length (keep_items (belongs_to v.user_id) d) ≤ limit
          → lookup k next ≡ some v
      stays_within k v e few = elim (Bool-cases (v.user_id == user)) [
        | inl own ↦
            let same = (eq_iff v.user_id user).0 own in
            ap (lookup k) (bound_user_within user d (rw (← same) few)) ∙ e
        | inr foreign ↦ step.others k v e foreign
      ]

      stays_newest :
          (k : String) (v : Notification)
          → 1 ≤ limit
          → lookup k d ≡ some v
          → ((j : String) (w : Notification)
              → lookup j d ≡ some w
              → w.user_id ≡ v.user_id
              → (j == k) ≡ false
              → entry_rank w < entry_rank v)
          → lookup k next ≡ some v
      stays_newest k v room e top = elim (Option-cases (lookup k next)) [
        | inr (u, still) ↦ still ∙ sym (step.was k u still) ∙ e
        | inl dropped ↦ elim (Bool-cases (ltb limit (length (keep_items (belongs_to user) d)))) [
          | inr few ↦
              let kept = ap (lookup k) (bound_user_within user d (ground (arith, few))) ∙ e in
              absurd (cc (kept, dropped))
          | inl over ↦
              let (j, w, there, own) =
                found_one (belongs_to user) next step.keys
                  (ground (arith, over, step.count, room)) in
              let low = step.lowest k j v w e dropped there own in
              let other : (j == k) ≡ false = other_key next j k w there dropped in
              elim (Bool-cases (v.user_id == user)) [
                | inl its ↦
                    let same : w.user_id ≡ v.user_id =
                      (eq_iff w.user_id user).0 own ∙ sym ((eq_iff v.user_id user).0 its) in
                    absurd (omega (arith, low, top j w (step.was j w there) same other))
                | inr foreign ↦ absurd (cc (step.others k v e foreign, dropped))
              ]
        ]
      ]

  pub bound_users-Bounded :
      (users : List String) (d : Notifications)
      → IsDict d
      → HaveIds d
      → Bounded limit users d (bound_users limit users d)
  unfolding bound_users
  bound_users-Bounded [] d h ids = record {
    keys = h;
    ids = ids;
    bound = λ user e. absurd (cc e);
    fewer = λ user. omega arith;
    was = λ k v e. e;
    others = λ k v e out. e;
    within = λ k v e few. e;
    newest = λ k v room e top. e;
    low_first = λ k j v w e gone stays same. absurd (cc (e, gone));
  }
  bound_users-Bounded (user ∷ users) d h ids =
      bound_user-Bounded user users d (bound_users limit users (bound_user limit user d)) h ids (
        bound_users-Bounded users (bound_user limit user d) (bound_user-Drops user d h ids).keys
          (bound_user-HaveIds user d ids))
