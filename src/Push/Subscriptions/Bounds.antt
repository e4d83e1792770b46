-- ===== src/Push/Subscriptions/Bounds.antt =====
-- What a subscription leaves: the bound for each user, and everyone else's records.
use home_lab_hq.Base.{
  ℕ, ◌+◌, ◌-◌, ◌≤◌, String, ◌≡◌, ◌≢◌, ◌⊎◌, sym, ◌∙◌, refl, inl, inr, Bool, true, false, none, some,
  [], ◌∷◌, arith, ◌==◌, eq_iff, ltb, length, Bool-cases,
}
use home_lab_hq.Dict.{lookup, insert, keep_items}
use home_lab_hq.Dict.Laws.{IsDict, lookup-insert, lookup-insert_self, insert-IsDict}
use home_lab_hq.Prune.{drop_chosen, before}
use home_lab_hq.Prune.Newest.{before-le, not_before-le}
use home_lab_hq.Prune.Named.{keys-AreNamed}
use home_lab_hq.Prune.Chosen.{Drops, drop_chosen-Drops}
use home_lab_hq.Push.Subscriptions.{
  PushSubscription, Subscriptions, owned_beside, owned_by, store_subscription, subscribe,
}

-- Apart from one endpoint, the user owns what they own.
same_beside :
    (user endpoint : String) (d : Subscriptions)
    → lookup endpoint d ≡ none
    → length (keep_items (owned_by user) d) ≡ length (keep_items (owned_beside user endpoint) d)
unfolding lookup keep_items
same_beside user endpoint [] h = refl
same_beside user endpoint ((k, r) ∷ d) h = ground (arith, same_beside user endpoint d)

owned-beside :
    (user endpoint : String) (d : Subscriptions)
    → IsDict d
    → length (keep_items (owned_by user) d) ≤ length (keep_items (owned_beside user endpoint) d) + 1
unfolding keep_items
owned-beside user endpoint [] h = omega arith
owned-beside user endpoint ((k, r) ∷ d) h = elim (Bool-cases (k == endpoint)) [
  | inl same ↦
      let rest = same_beside user endpoint d (rw (← (eq_iff k endpoint).0 same) h.0) in
      ground (arith, rest)
  | inr other ↦ ground (arith, owned-beside user endpoint d h.1)
]

-- What storing the record `rec` of the user at the endpoint makes of the subscriptions.
pub record Subscribed (limit : ℕ) (user endpoint : String) (rec : PushSubscription)
    (d after : Subscriptions) : Type 0 where
  pub keys : IsDict after
  pub stored : lookup endpoint after ≡ some rec
  pub bound : length (keep_items (owned_by user) after) ≤ limit
  pub was :
      (k : String) (v : PushSubscription)
      → k ≢ endpoint
      → lookup k after ≡ some v
      → lookup k d ≡ some v
  pub others :
      (k : String) (v : PushSubscription)
      → k ≢ endpoint
      → lookup k d ≡ some v
      → v.user_id ≢ user
      → lookup k after ≡ some v
  pub oldest :
      (k j : String) (v w : PushSubscription)
      → k ≢ endpoint
      → j ≢ endpoint
      → lookup k d ≡ some v
      → lookup k after ≡ none
      → lookup j after ≡ some w
      → w.user_id ≡ user
      → v.created ≤ w.created

module _ (limit : ℕ) (user endpoint : String) (rec : PushSubscription) (d : Subscriptions)
    (mine : rec.user_id ≡ user) (some_limit : 1 ≤ limit) (h : IsDict d) where
  abbrev chosen : String → PushSubscription → Bool
  chosen = owned_beside user endpoint

  abbrev with_it : Subscriptions
  with_it = insert endpoint rec d

  with_it-IsDict : IsDict with_it
  with_it-IsDict = insert-IsDict endpoint rec d h

  lookup-with_it : (k : String) → k ≢ endpoint → lookup k with_it ≡ lookup k d
  lookup-with_it k other =
      rw (lookup-insert k endpoint rec d) (ground (arith, other, eq_iff endpoint k))

  not_chosen :
      (k : String) (v : PushSubscription) → (k ≡ endpoint) ⊎ (v.user_id ≢ user) → chosen k v ≡ false
  not_chosen k v h = ground (arith, h, eq_iff k endpoint, eq_iff v.user_id user)

  is_chosen :
      (k : String) (v : PushSubscription) → k ≢ endpoint → v.user_id ≡ user → chosen k v ≡ true
  is_chosen k v other own = ground (arith, eq_iff k endpoint, eq_iff v.user_id user)

  over :
      (n : ℕ) (after : Subscriptions)
      → n + limit ≡ length (keep_items chosen with_it) + 1
      → Drops chosen PushSubscription.created n with_it after
      → Subscribed limit user endpoint rec d after
  over n after size drops = record {
    keys = drops.keys;
    stored =
        drops.others endpoint rec (lookup-insert_self endpoint rec d)
          (not_chosen endpoint rec (inl refl));
    bound = omega (arith, drops.count, size, owned-beside user endpoint after drops.keys);
    was = λ k v other e. sym (lookup-with_it k other) ∙ drops.was k v e;
    others = λ k v other e foreign.
        drops.others k v (lookup-with_it k other ∙ e) (not_chosen k v (inr foreign));
    oldest = λ k j v w other beside e gone stays own.
        drops.lowest k j v w (lookup-with_it k other ∙ e) gone stays (is_chosen j w beside own);
  }

  store_subscription-Subscribed :
      Subscribed limit user endpoint rec d (store_subscription limit user endpoint rec d)
  unfolding store_subscription
  store_subscription-Subscribed =
      let size = length (keep_items chosen with_it) in
      elim (Bool-cases (ltb 0 (size + 1 - limit))) [
        | inl more ↦ rw more (
            over (size + 1 - limit)
              (drop_chosen (before PushSubscription.created) (λ item. item.0) chosen
                (size + 1 - limit) with_it)
              (ground arith)
              (drop_chosen-Drops chosen PushSubscription.created (before PushSubscription.created)
                (λ item. item.0) (size + 1 - limit) with_it (before-le PushSubscription.created)
                (not_before-le PushSubscription.created) with_it-IsDict (keys-AreNamed with_it)
                (ground arith)))
        | inr within ↦ rw within (record {
          keys = with_it-IsDict;
          stored = lookup-insert_self endpoint rec d;
          bound = ground (arith, owned-beside user endpoint with_it with_it-IsDict);
          was = λ k v other e. sym (lookup-with_it k other) ∙ e;
          others = λ k v other e foreign. lookup-with_it k other ∙ e;
          oldest = λ k j v w other beside e gone stays own.
              absurd (cc (lookup-with_it k other, e, gone));
        })
      ]

-- For a limit of at least 1, subscribing a named endpoint succeeds; afterwards the record is
-- stored, the user has at most the limit of subscriptions, every subscription of another user at
-- another endpoint is kept, nothing else is new, and a subscription that went is no newer than
-- any other one that the user keeps.
pub subscribe-Subscribed :
    (limit now : ℕ) (user endpoint subscription : String) (d : Subscriptions)
    → 1 ≤ limit
    → endpoint ≢ ""
    → IsDict d
    → (after : Subscriptions) × (subscribe limit now user (some endpoint) subscription d
        ≡ some after)
      × Subscribed limit user endpoint
          (record { user_id = user; subscription = subscription; created = now })
          d
          after
unfolding subscribe
subscribe-Subscribed limit now user endpoint subscription d some_limit named h =
    let rec : PushSubscription = record {
      user_id = user;
      subscription = subscription;
      created = now;
    } in
    (
      store_subscription limit user endpoint rec d,
      ground (arith, eq_iff endpoint "", named),
      store_subscription-Subscribed limit user endpoint rec d refl some_limit h,
    )
