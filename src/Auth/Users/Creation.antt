-- ===== src/Auth/Users/Creation.antt =====
-- `create_user`, `create_initial_admin` and `set_password` of backend/auth.py.
use home_lab_hq.Base.{
  String, ◌≡◌, ◌≢◌, refl, ap, Bool, false, none, some, [], ◌∷◌, arith, ◌==◌, ◌||◌, not, eq_iff, ltb,
  any, Bool-cases, inl, inr, strip, lower,
}
use home_lab_hq.Dict.{Dict, lookup, insert, values}
use home_lab_hq.Dict.Laws.{lookup-insert, insert-IsDict}
use home_lab_hq.Errors.{Failure, ok, error}
use home_lab_hq.Auth.Document.{User, Document, PublicUser, public_user}
use home_lab_hq.Auth.Users.{
  NewAccount, make_user, text_length, min_password_length, username_taken, create_user, admit_first,
  create_initial_admin,
}
use home_lab_hq.Auth.Users.Consistency.{IsConsistent, admins-insert_new, contains-insert}

-- No two accounts have the same name in lower case.
abbrev pub HasUniqueNames : Dict User → Type 0
HasUniqueNames users =
    (j k : String) (u v : User)
    → lookup j users ≡ some u
    → lookup k users ≡ some v
    → lower u.username ≡ lower v.username
    → j ≡ k

not_taken :
    (name : String) (users : Dict User) (k : String) (u : User)
    → any (λ w. lower (User.username w) == lower name) (values users) ≡ false
    → lookup k users ≡ some u
    → lower u.username ≢ lower name
unfolding lookup
not_taken name [] k u free h e = cc
not_taken name ((j, w) ∷ users) k u free h e =
    ground (arith, not_taken name users k u, eq_iff (lower w.username) (lower name))

module _ (fresh : NewAccount) (doc : Document) where
  inserted-IsConsistent :
      (u : User)
      → u.id ≡ fresh.id
      → lookup fresh.id doc.users ≡ none
      → IsConsistent doc
      → IsConsistent (record doc { users = insert fresh.id u doc.users })
  inserted-IsConsistent u same new good = record {
    admin = omega (arith, admins-insert_new fresh.id u doc.users new, good.admin);
    users = insert-IsDict fresh.id u doc.users good.users;
    session_keys = good.session_keys;
    push_keys = good.push_keys;
    ids = λ k v h.
        ground (arith, lookup-insert k fresh.id u doc.users, good.ids k v, eq_iff fresh.id k);
    sessions = λ t s h. contains-insert fresh.id s.user_id u doc.users (good.sessions t s h);
    devices = λ k o h. contains-insert fresh.id o u doc.users (good.devices k o h);
    dashboards = λ k o h. contains-insert fresh.id o u doc.users (good.dashboards k o h);
    push_subs = λ k o h. contains-insert fresh.id o u doc.users (good.push_subs k o h);
    rosters = λ k r h. contains-insert fresh.id k u doc.users (good.rosters k r h);
  }

  inserted-HasUniqueNames :
      (u : User)
      → username_taken u.username doc ≡ false
      → HasUniqueNames doc.users
      → HasUniqueNames (insert fresh.id u doc.users)
  unfolding username_taken
  inserted-HasUniqueNames u free unique j k v w hj hk e = ground (
    arith,
    lookup-insert j fresh.id u doc.users,
    lookup-insert k fresh.id u doc.users,
    eq_iff fresh.id j,
    eq_iff fresh.id k,
    unique j k v w,
    not_taken u.username doc.users j v free,
    not_taken u.username doc.users k w free,
  )

  -- With an unused id, creating an account keeps a document consistent and its account names
  -- unique up to case, whether it succeeds or raises; where it raises, nothing is written.
  pub create_user-IsConsistent :
      (username password role : String)
      → lookup fresh.id doc.users ≡ none
      → IsConsistent doc
      → HasUniqueNames doc.users
      → let (r, after) = create_user fresh username password role doc in
        IsConsistent after
        × HasUniqueNames after.users
        × ((f : Failure) → r ≡ error f → after ≡ doc)
  unfolding create_user
  create_user-IsConsistent username password role new good unique = elim (Bool-cases invalid) [
    | inl bad ↦ rw bad (good, unique, λ f e. refl)
    | inr valid ↦ elim (Bool-cases (username_taken (strip username) doc)) [
      | inl taken ↦ rw (valid, taken) (good, unique, λ f e. refl)
      | inr free ↦
          rw (valid, free)
            (
              inserted-IsConsistent (make_user fresh (strip username) role) refl new good,
              inserted-HasUniqueNames (make_user fresh (strip username) role) free unique,
              λ f e. absurd (cc e),
            )
    ]
  ]
    where
      invalid : Bool
      invalid =
          strip username == ""
          || ltb (text_length password) min_password_length
          || not (role == "admin" || role == "member")

  admit_first_lem :
      (user : User) (users : Dict User)
      → doc.users ≡ users
      → let (r, after) = admit_first user doc users in
        ((u : PublicUser)
          → r ≡ ok u
          → (users ≡ []) × (after.users ≡ (user.id, user) ∷ []) × (u ≡ public_user user))
        × (users ≢ [] → after ≡ doc)
  unfolding admit_first insert
  admit_first_lem user [] e =
      ((λ u h. (refl, ap (insert user.id user) e, cc h)), λ h. absurd (h refl))
  admit_first_lem user (x ∷ xs) e = ((λ u h. absurd (cc h)), λ h. refl)

  -- The first administrator is created only in a document without accounts, and is then its only
  -- account; in any other document the call writes nothing.
  pub create_initial_admin_lem :
      (username password : String)
      → let (r, after) = create_initial_admin fresh username password doc in
        let admin = make_user fresh (strip username) "admin" in
        ((u : PublicUser)
          → r ≡ ok u
          → (doc.users ≡ []) × (after.users ≡ (fresh.id, admin) ∷ []) × (u ≡ public_user admin))
        × (doc.users ≢ [] → after ≡ doc)
  unfolding create_initial_admin
  create_initial_admin_lem username password =
      elim (Bool-cases (strip username == "" || ltb (text_length password) min_password_length)) [
        | inl bad ↦ rw bad ((λ u h. absurd (cc h)), λ h. refl)
        | inr good ↦
            rw good (admit_first_lem (make_user fresh (strip username) "admin") doc.users refl)
      ]
