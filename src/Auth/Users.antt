-- ===== src/Auth/Users.antt =====
-- `create_user`, `create_initial_admin`, `delete_user` and `set_password` of backend/auth.py. Each
-- is one `store.update`: a raise inside the mutator leaves the stored document as it was, while
-- `delete_user` also raises after its update has been written.
pub mod Consistency
pub mod Deletion
pub mod Creation
pub mod Password
use home_lab_hq.Base.{
  ℕ, zero, suc, ◌+◌, String, Bool, true, false, Option, none, some, List, [], ◌∷◌, ◌==◌, ◌&&◌, ◌||◌,
  not, leb, ltb, any, keep, length, if◌then◌else◌, strip, lower,
}
use home_lab_hq.Dict.{Dict, lookup, insert, erase, keep_items, values}
use home_lab_hq.Errors.{Failure, Outcome, ok, error, validation, conflict}
use home_lab_hq.Auth.Document.{
  User, Session, Document, PublicUser, public_user, is_admin, admins, Crypto,
}

-- `len(s)` of a text.
abbrev pub text_length : String → ℕ
text_length String.[] = 0
text_length (String.◌∷◌ c s) = suc (text_length s)

abbrev pub min_password_length : ℕ
min_password_length = 15

-- What the clock, `secrets` and scrypt give a new account.
pub record NewAccount : Type 0 where
  pub id : String
  pub pass_hash : String
  pub now : ℕ

unfoldable pub make_user : NewAccount → String → String → User
make_user fresh username role = record {
  id = fresh.id;
  username = username;
  pass_hash = fresh.pass_hash;
  role = role;
  created = fresh.now;
}

unfoldable pub username_taken : String → Document → Bool
username_taken username doc =
    any (λ u. lower (User.username u) == lower username) (values doc.users)

unfoldable pub create_user :
    NewAccount → String → String → String → Document → Outcome PublicUser × Document
unfolding make_user username_taken public_user
create_user fresh username password role doc =
    let name = strip username in
    let user = make_user fresh name role in
    if name == ""
      || ltb (text_length password) min_password_length
      || not (role == "admin" || role == "member")
    then (error validation, doc)
    else if username_taken name doc
    then (error conflict, doc)
    else (ok (public_user user), record doc { users = insert fresh.id user doc.users })

-- The mutator of `create_initial_admin`, on the accounts of the document.
unfoldable pub admit_first : User → Document → Dict User → Outcome PublicUser × Document
unfolding public_user
admit_first user doc [] =
    (ok (public_user user), record doc { users = insert user.id user doc.users })
admit_first user doc (_ ∷ _) = (error conflict, doc)

unfoldable pub create_initial_admin :
    NewAccount → String → String → Document → Outcome PublicUser × Document
unfolding make_user admit_first
create_initial_admin fresh username password doc =
    let name = strip username in
    let user = make_user fresh name "admin" in
    if name == "" || ltb (text_length password) min_password_length
    then (error validation, doc)
    else admit_first user doc doc.users

-- `sum(x.get("ownerId") == uid for x in …)`
unfoldable pub owned_by : String → Dict String → ℕ
owned_by uid d = length (keep (λ owner. owner == uid) (values d))

-- The document without the sessions and push subscriptions of a user.
unfoldable pub revoke : String → Document → Document
revoke uid doc = record doc {
  sessions = keep_items (λ _ s. not (Session.user_id s == uid)) doc.sessions;
  push_subs = keep_items (λ _ owner. not (owner == uid)) doc.push_subs;
}

unfoldable pub delete_user : String → Document → Outcome (Unit {0}) × Document
unfolding revoke owned_by
delete_user uid doc = elim (lookup uid doc.users) [
  | none ↦ (ok tt, doc)
  | some target ↦
      let revoked = revoke uid doc in
      if is_admin target && leb (admins doc.users) 1
      then (error conflict, doc)
      else if leb 1 (owned_by uid doc.devices) || leb 1 (owned_by uid doc.dashboards)
      then (error conflict, revoked)
      else (
        ok tt,
        record revoked {
          client_rosters = erase uid doc.client_rosters;
          users = erase uid doc.users;
        },
      )
]

-- A session of the user that is not the requesting one; `current` is the hash of its token.
unfoldable pub is_other : String → Option String → String → Session → Bool
is_other uid current token s =
    s.user_id == uid && elim current [ none ↦ true | some key ↦ not (token == key) ]

unfoldable pub revoke_others : String → Option String → Dict Session → Dict Session
unfolding is_other
revoke_others uid current = keep_items (λ token s. not (is_other uid current token s))

-- The number of sessions that are revoked is the result.
unfoldable pub set_password :
    Crypto → String → String → String → String → Option String → Document → Outcome ℕ × Document
unfolding revoke_others
set_password crypto uid current_password password new_hash current doc =
    if ltb (text_length password) min_password_length
    then (error validation, doc)
    else elim (lookup uid doc.users) [
      | none ↦ (error validation, doc)
      | some user ↦
          if crypto.verify_password current_password user.pass_hash
          then (
            ok (length (keep (λ item. is_other uid current item.0 item.1) doc.sessions)),
            record doc {
              users = insert uid (record user { pass_hash = new_hash }) doc.users;
              sessions = revoke_others uid current doc.sessions;
            },
          )
          else (error validation, doc)
    ]
