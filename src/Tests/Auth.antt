-- ===== src/Tests/Auth.antt =====
-- Concrete runs of the model of backend/auth.py.
use home_lab_hq.Base.{
  ℕ, ◌≤◌, ◌<◌, String, ◌≡◌, ◌≢◌, refl, true, none, some, List, [], ◌∷◌, arith, eq_iff, length, leb,
  ◌||◌, ◌==◌, All, Bool-cases, inl, inr, lower, strip, ◌&&◌, if◌then◌else◌,
}
use mathlib.Core.Path.{subst}
use home_lab_hq.Dict.{Dict, lookup, contains, erase}
use home_lab_hq.Errors.{Failure, ok, error, conflict}
use home_lab_hq.Auth.Document.{User, Session, Document, PublicUser, public_user, Crypto}
use home_lab_hq.Auth.Throttle.{auth_fail_max, recent, login_locked, clear_login_fails}
use home_lab_hq.Auth.Throttle.Lockout.{fail_at, login_locked-fail_at}
use home_lab_hq.Auth.Users.{
  NewAccount, make_user, create_user, create_initial_admin, delete_user, owned_by, set_password,
  is_other,
}
use home_lab_hq.Auth.Users.Consistency.{IsConsistent}
use home_lab_hq.Auth.Users.Deletion.{delete_user-IsConsistent, delete_user_lem}
use home_lab_hq.Auth.Users.Creation.{
  HasUniqueNames, create_user-IsConsistent, create_initial_admin_lem,
}
use home_lab_hq.Auth.Users.Password.{set_password_lem}
use home_lab_hq.Auth.Sessions.{LoginInput, add_session, login, user_for_token}
use home_lab_hq.Auth.Sessions.Lifetime.{add_session_lem, user_for_token-login}

abbrev ada : User
ada = record { id = "u1"; username = "Ada"; pass_hash = "h1"; role = "admin"; created = 1 }

abbrev bob : User
bob = record { id = "u2"; username = "bob"; pass_hash = "h2"; role = "member"; created = 2 }

abbrev of_bob : Session
of_bob = record { user_id = "u2"; created = 5; expires = 2592005 }

abbrev home : Document
home = record {
  users = ("u1", ada) ∷ ("u2", bob) ∷ [];
  sessions = ("t0", of_bob) ∷ [];
  devices = ("d1", "u1") ∷ [];
  dashboards = [];
  push_subs = ("p1", "u2") ∷ [];
  client_rosters = ("u2", "roster") ∷ [];
}

-- What holds of every item holds of what a lookup finds.
found_item :
    {V : Type 0} (P : String → V → Type 0) (d : Dict V)
    → All (λ item. P item.0 item.1) d
    → (k : String) (v : V) → lookup k d ≡ some v
    → P k v
unfolding lookup
found_item P [] h k v e = absurd (cc e)
found_item P ((j, w) ∷ d) h k v e = elim (Bool-cases (j == k)) [
  | inl here ↦
      let same : j ≡ k = ground (arith, eq_iff j k) in
      let value : w ≡ v = ground arith in subst (λ x. P x v) same (subst (λ x. P j x) value h.0)
  | inr there ↦ found_item P d h.1 k v (rw there at e)
]

home-IsConsistent : IsConsistent home
unfolding lookup home_lab_hq.Auth.Document.admins
home-IsConsistent = record {
  admin = omega arith;
  users = (refl, (refl, tt));
  session_keys = (refl, tt);
  push_keys = (refl, tt);
  ids = found_item (λ k u. User.id u ≡ k) home.users (refl, (refl, tt));
  sessions =
      found_item (λ t s. contains (Session.user_id s) home.users ≡ true) home.sessions (refl, tt);
  devices = found_item (λ k owner. contains owner home.users ≡ true) home.devices (refl, tt);
  dashboards = λ k owner e. absurd (cc e);
  push_subs = found_item (λ k owner. contains owner home.users ≡ true) home.push_subs (refl, tt);
  rosters = found_item (λ k r. contains k home.users ≡ true) home.client_rosters (refl, tt);
}

home-HasUniqueNames : HasUniqueNames home.users
unfolding lower
home-HasUniqueNames j k u v hj hk =
    found_item (λ y w. lower u.username ≡ lower (User.username w) → j ≡ y) home.users
      (
        found_item (λ x w. lower (User.username w) ≡ "ada" → x ≡ "u1") home.users
            ((λ e. refl), ((λ e. ground (arith, eq_iff "bob" "ada")), tt)) j u hj,
        (
          found_item (λ x w. lower (User.username w) ≡ "bob" → x ≡ "u2") home.users
              ((λ e. ground (arith, eq_iff "ada" "bob")), ((λ e. refl), tt)) j u hj,
          tt,
        ),
      )
      k v hk

abbrev crypto : Crypto
crypto = record {
  verify_password = λ password hash. password == "correct" && hash == "h1";
  token_hash = λ token. token;
  dummy_hash = "h0";
}

-- Ten failures within five minutes.
abbrev attempts : List ℕ
attempts = 1 ∷ 2 ∷ 3 ∷ 4 ∷ 5 ∷ 6 ∷ 7 ∷ 8 ∷ 9 ∷ 10 ∷ []

locked_out : leb auth_fail_max (length (recent 300 attempts)) ≡ true
unfolding recent
locked_out = refl

login_locked-fail_at_example :
    (login_locked "10.0.0.9" 300
      (fail_at 100 "10.0.0.9" attempts (clear_login_fails "10.0.0.9" []))).0
    ≡ leb auth_fail_max (length (recent 300 attempts))
login_locked-fail_at_example = login_locked-fail_at 100 (omega arith) "10.0.0.9" attempts 300 []

delete_user-IsConsistent_example : IsConsistent (delete_user "u2" home).1
delete_user-IsConsistent_example = delete_user-IsConsistent "u2" home home-IsConsistent

delete_user_example :
    let (r, after) = delete_user "u2" home in
    ((t : String) (s : Session) → lookup t after.sessions ≡ some s → s.user_id ≢ "u2")
    × ((k : String) → lookup k after.push_subs ≢ some "u2")
    × (r ≡ (
        if leb 1 (owned_by "u2" home.devices) || leb 1 (owned_by "u2" home.dashboards)
        then error conflict
        else ok tt))
    × (after.users ≡ (
        if leb 1 (owned_by "u2" home.devices) || leb 1 (owned_by "u2" home.dashboards)
        then home.users
        else erase "u2" home.users))
unfolding home_lab_hq.Auth.Document.is_admin
delete_user_example = delete_user_lem "u2" home home-IsConsistent bob (unfold lookup in refl) refl

abbrev new_account : NewAccount
new_account = record { id = "u3"; pass_hash = "h3"; now = 9 }

create_user-IsConsistent_example :
    let (r, after) = create_user new_account " cyd " "a long password!" "member" home in
    IsConsistent after × HasUniqueNames after.users × ((f : Failure) → r ≡ error f → after ≡ home)
create_user-IsConsistent_example =
    create_user-IsConsistent new_account home " cyd " "a long password!" "member"
      (unfold lookup in refl) home-IsConsistent home-HasUniqueNames

abbrev empty_home : Document
empty_home = record home { users = [] }

create_initial_admin_example :
    let (r, after) = create_initial_admin new_account "root" "a long password!" empty_home in
    let admin = make_user new_account (strip "root") "admin" in
    ((u : PublicUser)
      → r ≡ ok u
      → (empty_home.users ≡ []) × (after.users ≡ ("u3", admin) ∷ []) × (u ≡ public_user admin))
    × (empty_home.users ≢ [] → after ≡ empty_home)
create_initial_admin_example =
    create_initial_admin_lem new_account empty_home "root" "a long password!"

set_password_example :
    let (r, after) = set_password crypto "u1" "correct" "a long password!" "h9" (some "t9") home in
    IsConsistent after
    × ((f : Failure) → r ≡ error f → after ≡ home)
    × ((n : ℕ)
        → r ≡ ok n
        → ((t : String) (s : Session)
            → lookup t home.sessions ≡ some s
            → lookup t after.sessions ≡ (if is_other "u1" (some "t9") t s then none else some s))
          × ((u : User) → lookup "u1" after.users ≡ some u → u.pass_hash ≡ "h9"))
set_password_example =
    set_password_lem crypto "u1" "correct" "a long password!" "h9" (some "t9") home
      home-IsConsistent

abbrev fresh_session : Session
fresh_session = record { user_id = "u1"; created = 8; expires = 2592008 }

add_session_example :
    let after = add_session 1 "t1" fresh_session 8 home.sessions in
    (length after ≤ 1)
    × ((t : String) (s : Session)
        → lookup t after ≡ some s
        → (8 ≤ s.expires)
          × ((if "t1" == t then some fresh_session else lookup t home.sessions) ≡ some s))
add_session_example =
    add_session_lem 1 "t1" fresh_session 8 home.sessions home-IsConsistent.session_keys

abbrev fresh_login : LoginInput
fresh_login = record { token = "t1"; created = 8; issued = 8; swept = 8 }

ada_logs_in : (login crypto 10 fresh_login "ADA" "correct" home).0 ≡ some ("t1", public_user ada)
unfolding login lower strip
ada_logs_in = refl

user_for_token-login_example :
    let after = (login crypto 10 fresh_login "ADA" "correct" home).1 in
    user_for_token crypto "t1" 1000 after ≡ (some (public_user ada), after)
user_for_token-login_example =
    user_for_token-login crypto 10 fresh_login "ADA" "correct" home (public_user ada) 1000
      home-IsConsistent (omega arith) (λ e. ground (arith, eq_iff "t1" "")) (omega arith)
      (omega arith) (found_item (λ t s. s.created < 8) home.sessions (omega arith, tt)) ada_logs_in
