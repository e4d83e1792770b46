-- ===== src/Auth/Users/Password.antt =====
-- `set_password` of backend/auth.py.
use home_lab_hq.Base.{
  ℕ, String, ◌≡◌, refl, sym, ap, ◌∙◌, Bool, true, false, Option, none, some, arith, not, eq_iff,
  ltb, if◌then◌else◌, Bool-cases, Option-cases, inl, inr,
}
use home_lab_hq.Dict.{Dict, lookup, insert}
use home_lab_hq.Dict.Laws.{
  IsDict, lookup-insert, lookup-insert_self, lookup-keep_items, insert-IsDict, keep_items-IsDict,
  kept,
}
use home_lab_hq.Errors.{Failure, ok, error}
use home_lab_hq.Auth.Document.{User, Session, Document, is_admin, Crypto}
use home_lab_hq.Auth.Users.{text_length, min_password_length, is_other, revoke_others, set_password}
use home_lab_hq.Auth.Users.Consistency.{IsConsistent, admins-insert_same, contains-insert}

module _ (uid : String) (current : Option String) (sessions : Dict Session)
    (keys : IsDict sessions) where
  lookup-revoke_others :
      (t : String)
      → lookup t (revoke_others uid current sessions)
        ≡ kept (λ s. not (is_other uid current t s)) (lookup t sessions)
  unfolding revoke_others
  lookup-revoke_others t = lookup-keep_items (λ k s. not (is_other uid current k s)) t sessions keys

  revoke_others_kept :
      (t : String) (s : Session)
      → lookup t sessions ≡ some s
      → lookup t (revoke_others uid current sessions)
        ≡ (if is_other uid current t s then none else some s)
  revoke_others_kept t s h = lookup-revoke_others t ∙ rw h (negated (is_other uid current t s))
    where
      negated : (b : Bool) → (if not b then some s else none) ≡ (if b then none else some s)
      negated true = refl
      negated false = refl

  revoke_others_was :
      (t : String) (s : Session)
      → lookup t (revoke_others uid current sessions) ≡ some s
      → lookup t sessions ≡ some s
  revoke_others_was t s h = ground (arith, lookup-revoke_others t)

with_hash-IsConsistent :
    (uid new_hash : String) (current : Option String) (user : User) (doc : Document)
    → lookup uid doc.users ≡ some user
    → IsConsistent doc
    → IsConsistent (record doc {
      users = insert uid (record user { pass_hash = new_hash }) doc.users;
      sessions = revoke_others uid current doc.sessions;
    })
unfolding revoke_others is_admin
with_hash-IsConsistent uid new_hash current user doc found good =
    let u : User = record user { pass_hash = new_hash } in
    record {
      admin = omega (arith, admins-insert_same uid u user doc.users found refl, good.admin);
      users = insert-IsDict uid u doc.users good.users;
      session_keys = keep_items-IsDict _ doc.sessions good.session_keys;
      push_keys = good.push_keys;
      ids = λ k v h.
          ground
            (arith, lookup-insert k uid u doc.users, good.ids k v, good.ids uid user, eq_iff uid k);
      sessions = λ t s h.
          contains-insert uid s.user_id u doc.users (
            good.sessions t s (revoke_others_was uid current doc.sessions good.session_keys t s h));
      devices = λ k o h. contains-insert uid o u doc.users (good.devices k o h);
      dashboards = λ k o h. contains-insert uid o u doc.users (good.dashboards k o h);
      push_subs = λ k o h. contains-insert uid o u doc.users (good.push_subs k o h);
      rosters = λ k r h. contains-insert uid k u doc.users (good.rosters k r h);
    }

-- From a consistent document, a password change leaves a consistent one. Where it succeeds, the
-- user's remaining sessions are the requesting one at most, nobody else's session is gone, and the
-- new hash is stored; where it raises, nothing is written.
pub set_password_lem :
    (crypto : Crypto) (uid old password new_hash : String) (current : Option String)
    (doc : Document)
    → IsConsistent doc
    → let (r, after) = set_password crypto uid old password new_hash current doc in
      IsConsistent after
      × ((f : Failure) → r ≡ error f → after ≡ doc)
      × ((n : ℕ)
          → r ≡ ok n
          → ((t : String) (s : Session)
              → lookup t doc.sessions ≡ some s
              → lookup t after.sessions ≡ (if is_other uid current t s then none else some s))
            × ((u : User) → lookup uid after.users ≡ some u → u.pass_hash ≡ new_hash))
unfolding set_password
set_password_lem crypto uid old password new_hash current doc good =
    elim (Bool-cases (ltb (text_length password) min_password_length)) [
      | inl short ↦ rw short (good, (λ f e. refl), λ n e. absurd (cc e))
      | inr long ↦ elim (Option-cases (lookup uid doc.users)) [
        | inl missing ↦ rw (long, missing, set_password) (good, (λ f e. refl), λ n e. absurd (cc e))
        | inr (user, found) ↦ elim (Bool-cases (crypto.verify_password old user.pass_hash)) [
          | inl right ↦
              rw (long, found, set_password)
                (rw right (
                  with_hash-IsConsistent uid new_hash current user doc found good,
                  (λ f e. absurd (cc e)),
                  λ n e.
                      (revoke_others_kept uid current doc.sessions good.session_keys, stored user),
                ))
          | inr wrong ↦
              rw (long, found, set_password) (rw wrong (good, (λ f e. refl), λ n e. absurd (cc e)))
        ]
      ]
    ]
  where
    stored :
        (user u : User)
        → lookup uid (insert uid (record user { pass_hash = new_hash }) doc.users) ≡ some u
        → u.pass_hash ≡ new_hash
    stored user u h =
        let same : record user { pass_hash = new_hash } ≡ u =
          cc (lookup-insert_self uid (record user { pass_hash = new_hash }) doc.users) in
        sym (ap User.pass_hash same)
