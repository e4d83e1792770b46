-- ===== src/Auth/Sessions.antt =====
-- `login`, `logout` and `user_for_token` of backend/auth.py. `login` reads the account in one
-- transaction and stores the session in a later one; here it is one step.
pub mod Lifetime
use home_lab_hq.Base.{
  ℕ, ◌+◌, ◌*◌, String, Bool, true, false, Option, none, some, List, [], ◌∷◌, ◌==◌, not, ltb,
  find_first, if◌then◌else◌, strip, lower, or_default,
}
use home_lab_hq.Dict.{Dict, lookup, insert, erase, keep_items, values}
use home_lab_hq.Prune.{prune_oldest}
use home_lab_hq.Auth.Document.{User, Session, Document, PublicUser, public_user, Crypto}

abbrev pub session_ttl : ℕ
session_ttl = 30 * 24 * 3600

-- The three readings of the clock in `login`, and its random token.
pub record LoginInput : Type 0 where
  pub token : String
  pub created : ℕ
  pub issued : ℕ
  pub swept : ℕ

-- `next((u for u in users if u["username"].lower() == name), None)`
unfoldable pub find_user : String → Dict User → Option User
find_user username users =
    find_first (λ u. lower (User.username u) == lower (strip username)) (values users)

-- The mutator of `login`: the new session, the sweep of the expired ones, and the bound.
unfoldable pub add_session : ℕ → String → Session → ℕ → Dict Session → Dict Session
add_session max_sessions key session now sessions =
    prune_oldest Session.created max_sessions
      (keep_items (λ _ s. not (ltb (Session.expires s) now)) (insert key session sessions))

unfoldable pub login :
    Crypto → ℕ → LoginInput → String → String → Document → Option (String × PublicUser) × Document
unfolding find_user add_session public_user
login crypto max_sessions fresh username password doc = elim (find_user username doc.users) [
  | none ↦ (none, doc)
  | some user ↦
      if crypto.verify_password password user.pass_hash
      then (
        some (fresh.token, public_user user),
        record doc {
          sessions =
              add_session max_sessions (crypto.token_hash fresh.token)
                (record {
                  user_id = user.id;
                  created = fresh.created;
                  expires = fresh.issued + session_ttl;
                })
                fresh.swept doc.sessions;
        },
      )
      else (none, doc)
]

unfoldable pub logout : Crypto → String → Document → Document
logout crypto token doc =
    if token == ""
    then doc
    else record doc { sessions = erase (crypto.token_hash token) doc.sessions }

-- At the moment `now`, which is the clock rounded up to a whole second.
unfoldable pub user_for_token : Crypto → String → ℕ → Document → Option PublicUser × Document
unfolding public_user
user_for_token crypto token now doc =
    let key = crypto.token_hash token in
    if token == "" then (none, doc) else elim (lookup key doc.sessions) [
      | none ↦ (none, doc)
      | some session ↦
          if ltb session.expires now
          then (none, record doc { sessions = erase key doc.sessions })
          else (
            elim (lookup session.user_id doc.users) [ none ↦ none | some u ↦ some (public_user u) ],
            doc,
          )
    ]
