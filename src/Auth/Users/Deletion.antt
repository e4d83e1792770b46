-- ===== src/Auth/Users/Deletion.antt =====
-- `delete_user` of backend/auth.py, on every branch.
use home_lab_hq.Base.{
  String, ◌≡◌, ◌≢◌, refl, sym, ◌∙◌, Bool, true, false, Option, none, some, arith, ◌==◌, ◌&&◌, ◌||◌,
  not, eq_iff, leb, if◌then◌else◌, Bool-cases, Option-cases, inl, inr,
}
use home_lab_hq.Dict.{lookup, contains, erase}
use home_lab_hq.Dict.Laws.{lookup-erase, lookup-keep_items, erase-IsDict, keep_items-IsDict, kept}
use home_lab_hq.Errors.{ok, error, conflict}
use home_lab_hq.Auth.Document.{User, Session, Document, is_admin, admins}
use home_lab_hq.Auth.Users.{owned_by, revoke, delete_user}
use home_lab_hq.Auth.Users.Consistency.{IsConsistent, admins-erase, contains-erase, owned_by-zero}

kept-some :
    {V : Type 0} (p : V → Bool) (o : Option V) (v : V)
    → kept p o ≡ some v
    → (o ≡ some v) × (p v ≡ true)
kept-some p none v h = cc
kept-some p (some u) v h = elim (Bool-cases (p u)) [
  | inl pass ↦ ground arith
  | inr fail ↦ absurd (ground arith)
]

module _ (uid : String) (doc : Document) (good : IsConsistent doc) where
  revoked_session :
      (t : String) (s : Session)
      → lookup t (revoke uid doc).sessions ≡ some s
      → (lookup t doc.sessions ≡ some s) × (not (s.user_id == uid) ≡ true)
  unfolding revoke
  revoked_session t s h =
      kept-some (λ x. not (Session.user_id x == uid)) (lookup t doc.sessions) s
        (sym (
            lookup-keep_items (λ _ x. not (Session.user_id x == uid)) t doc.sessions
              good.session_keys)
          ∙ h)

  revoked_push :
      (k owner : String)
      → lookup k (revoke uid doc).push_subs ≡ some owner
      → (lookup k doc.push_subs ≡ some owner) × (not (owner == uid) ≡ true)
  unfolding revoke
  revoked_push k owner h =
      kept-some (λ o. not (o == uid)) (lookup k doc.push_subs) owner
        (sym (lookup-keep_items (λ _ o. not (o == uid)) k doc.push_subs good.push_keys) ∙ h)

  revoke-IsConsistent : IsConsistent (revoke uid doc)
  unfolding revoke
  revoke-IsConsistent = record {
    admin = good.admin;
    users = good.users;
    session_keys = keep_items-IsDict _ doc.sessions good.session_keys;
    push_keys = keep_items-IsDict _ doc.push_subs good.push_keys;
    ids = good.ids;
    sessions = λ t s h. good.sessions t s (revoked_session t s h).0;
    devices = good.devices;
    dashboards = good.dashboards;
    push_subs = λ k owner h. good.push_subs k owner (revoked_push k owner h).0;
    rosters = good.rosters;
  }

  -- The document of the last branch.
  abbrev removed : Document
  removed = record (revoke uid doc) {
    client_rosters = erase uid doc.client_rosters;
    users = erase uid doc.users;
  }

  ne_of : (owner : String) → not (owner == uid) ≡ true → uid ≢ owner
  ne_of owner h e = ground (arith, eq_iff owner uid)

  removed-IsConsistent :
      (target : User)
      → lookup uid doc.users ≡ some target
      → (is_admin target && leb (admins doc.users) 1) ≡ false
      → owned_by uid doc.devices ≡ 0
      → owned_by uid doc.dashboards ≡ 0
      → IsConsistent removed
  unfolding revoke
  removed-IsConsistent target found more devs dash = record {
    admin = ground (arith, admins-erase uid target doc.users good.users found, good.admin);
    users = erase-IsDict uid doc.users good.users;
    session_keys = keep_items-IsDict _ doc.sessions good.session_keys;
    push_keys = keep_items-IsDict _ doc.push_subs good.push_keys;
    ids = λ k u h. good.ids k u (still k u h);
    sessions = λ t s h.
        let (was, other) = revoked_session t s h in
        contains-erase uid s.user_id doc.users (ne_of s.user_id other) (good.sessions t s was);
    devices = λ k owner h.
        contains-erase uid owner doc.users (λ e. owned_by-zero uid k doc.devices devs (rw e h))
          (good.devices k owner h);
    dashboards = λ k owner h.
        contains-erase uid owner doc.users (λ e. owned_by-zero uid k doc.dashboards dash (rw e h))
          (good.dashboards k owner h);
    push_subs = λ k owner h.
        let (was, other) = revoked_push k owner h in
        contains-erase uid owner doc.users (ne_of owner other) (good.push_subs k owner was);
    rosters = λ k r h. roster k r h;
  }
    where
      still :
          (k : String) (u : User)
          → lookup k (erase uid doc.users) ≡ some u
          → lookup k doc.users ≡ some u
      still k u h = ground (arith, lookup-erase k uid doc.users)

      roster :
          (k r : String)
          → lookup k (erase uid doc.client_rosters) ≡ some r
          → contains k (erase uid doc.users) ≡ true
      roster k r h = ground (
        arith,
        lookup-erase k uid doc.client_rosters,
        good.rosters k r,
        contains-erase uid k doc.users,
        eq_iff uid k,
      )

  -- From a consistent document, deleting a user leaves a consistent one, whether it succeeds or
  -- raises.
  pub delete_user-IsConsistent : IsConsistent (delete_user uid doc).1
  unfolding delete_user
  delete_user-IsConsistent = elim (Option-cases (lookup uid doc.users)) [
    | inl missing ↦ rw (missing, delete_user) good
    | inr (target, found) ↦ elim (Bool-cases (is_admin target && leb (admins doc.users) 1)) [
      | inl last_admin ↦ rw (found, delete_user) (rw last_admin good)
      | inr more ↦
          elim (Bool-cases
            (leb 1 (owned_by uid doc.devices) || leb 1 (owned_by uid doc.dashboards))) [
              | inl blocked ↦ rw (found, delete_user) (rw (more, blocked) revoke-IsConsistent)
              | inr free ↦
                  rw (found, delete_user)
                    (rw (more, free)
                      (removed-IsConsistent target found more (ground arith) (ground arith)))
            ]
    ]
  ]

  -- From a consistent document, deleting an account that is not the last administrator ends every
  -- session and push subscription of it, also where it raises; it succeeds exactly if the account
  -- owns no device and no dashboard, and then the account is gone; else all accounts stay.
  pub delete_user_lem :
      (target : User)
      → lookup uid doc.users ≡ some target
      → (is_admin target && leb (admins doc.users) 1) ≡ false
      → let (r, after) = delete_user uid doc in
        ((t : String) (s : Session) → lookup t after.sessions ≡ some s → s.user_id ≢ uid)
        × ((k : String) → lookup k after.push_subs ≢ some uid)
        × (r ≡ (
            if leb 1 (owned_by uid doc.devices) || leb 1 (owned_by uid doc.dashboards)
            then error conflict
            else ok tt))
        × (after.users ≡ (
            if leb 1 (owned_by uid doc.devices) || leb 1 (owned_by uid doc.dashboards)
            then doc.users
            else erase uid doc.users))
  unfolding delete_user
  delete_user_lem target found more =
      elim (Bool-cases (leb 1 (owned_by uid doc.devices) || leb 1 (owned_by uid doc.dashboards))) [
        | inl blocked ↦
            rw (found, delete_user)
              (rw (more, blocked) (no_session, no_push, refl, unfold revoke in refl))
        | inr free ↦ rw (found, delete_user) (rw (more, free) (no_session, no_push, refl, refl))
      ]
    where
      no_session :
          (t : String) (s : Session) → lookup t (revoke uid doc).sessions ≡ some s → s.user_id ≢ uid
      no_session t s h e = ne_of s.user_id (revoked_session t s h).1 (sym e)

      no_push : (k : String) → lookup k (revoke uid doc).push_subs ≢ some uid
      no_push k h = ne_of uid (revoked_push k uid h).1 refl
