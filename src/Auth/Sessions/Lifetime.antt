-- ===== src/Auth/Sessions/Lifetime.antt =====
-- From `login` to `user_for_token`: which sessions live, and for how long.
use home_lab_hq.Base.{
  ℕ, ◌+◌, ◌≤◌, ◌<◌, String, ◌≡◌, ◌≢◌, refl, sym, ap, ◌∙◌, Bool, true, false, none, some, [], ◌∷◌,
  arith, ◌==◌, not, eq_iff, eq_refl, ltb, length, find_first, if◌then◌else◌, Bool-cases,
  Option-cases, inl, inr,
}
use mathlib.Core.Path.{subst}
use home_lab_hq.Dict.{Dict, lookup, insert, keep_items, values}
use home_lab_hq.Dict.Laws.{
  IsDict, kept, lookup-insert, lookup-keep_items, insert-IsDict, keep_items-IsDict,
}
use home_lab_hq.Prune.{prune_oldest}
use home_lab_hq.Prune.Newest.{prune_oldest_lem, prune_oldest_was}
use home_lab_hq.Auth.Document.{User, Session, Document, PublicUser, public_user, Crypto}
use home_lab_hq.Auth.Users.Consistency.{IsConsistent}
use home_lab_hq.Auth.Sessions.{
  LoginInput, session_ttl, find_user, add_session, login, user_for_token,
}

find_values :
    {V : Type 0} (p : V → Bool) (d : Dict V) (v : V)
    → IsDict d
    → find_first p (values d) ≡ some v
    → (k : String) × (lookup k d ≡ some v)
unfolding lookup
find_values p [] v h e = absurd (cc e)
find_values p ((j, w) ∷ d) v h e = elim (Bool-cases (p w)) [
  | inl here ↦ (j, ground (arith, eq_refl j))
  | inr later ↦
      let (k, found) = find_values p d v h.1 (ground arith) in
      (k, ground (arith, eq_iff j k, h.0, found))
]

found_user :
    (username : String) (doc : Document) (u : User)
    → IsConsistent doc
    → find_user username doc.users ≡ some u
    → lookup u.id doc.users ≡ some u
unfolding find_user
found_user username doc u good e =
    let (k, found) = find_values _ doc.users u good.users e in
    subst (λ i. lookup i doc.users ≡ some u) (sym (good.ids k u found)) found

module _ (limit : ℕ) (key : String) (session : Session) (now : ℕ) (sessions : Dict Session)
    (keys : IsDict sessions) where
  abbrev fresh_ones : Dict Session
  fresh_ones = keep_items (λ _ s. not (ltb (Session.expires s) now)) (insert key session sessions)

  fresh_ones-IsDict : IsDict fresh_ones
  fresh_ones-IsDict = keep_items-IsDict _ _ (insert-IsDict key session sessions keys)

  lookup-fresh_ones :
      (t : String)
      → lookup t fresh_ones
        ≡ kept
            (λ s. not (ltb (Session.expires s) now))
            (if key == t then some session else lookup t sessions)
  lookup-fresh_ones t =
      lookup-keep_items _ t (insert key session sessions) (insert-IsDict key session sessions keys)
      ∙ ap (kept (λ s. not (ltb (Session.expires s) now))) (lookup-insert t key session sessions)

  -- At most the limit of sessions remain, none of them expired, and each is the new one or was
  -- there before.
  pub add_session_lem :
      let after = add_session limit key session now sessions in
      (length after ≤ limit)
      × ((t : String) (s : Session)
          → lookup t after ≡ some s
          → (now ≤ s.expires) × ((if key == t then some session else lookup t sessions) ≡ some s))
  unfolding add_session
  add_session_lem =
      let prune = prune_oldest_lem Session.created limit fresh_ones fresh_ones-IsDict in
      (prune.0, λ t s h. lives t s (prune_oldest_was Session.created limit t s fresh_ones h))
    where
      lives :
          (t : String) (s : Session)
          → lookup t fresh_ones ≡ some s
          → (now ≤ s.expires) × ((if key == t then some session else lookup t sessions) ≡ some s)
      lives t s h = ground (arith, lookup-fresh_ones t)

  -- The new session is there if it is not expired at once and every other was created before it.
  newest_session_kept :
      0 < limit
      → now ≤ session.expires
      → ((t : String) (s : Session) → lookup t sessions ≡ some s → s.created < session.created)
      → lookup key (add_session limit key session now sessions) ≡ some session
  unfolding add_session
  newest_session_kept room alive older =
      elim (Option-cases (lookup key (prune_oldest Session.created limit fresh_ones))) [
        | inr (s, found) ↦
            found
            ∙ ap some (cc (prune_oldest_was Session.created limit key s fresh_ones found, here))
        | inl gone ↦ absurd (crowded (prune_oldest Session.created limit fresh_ones) refl gone)
      ]
    where
      here : lookup key fresh_ones ≡ some session
      here = ground (arith, lookup-fresh_ones key, eq_refl key)

      head : (j : String) (w : Session) (rest : Dict Session) → lookup j ((j, w) ∷ rest) ≡ some w
      head j w rest = unfold lookup in rw (eq_refl j)

      crowded :
          (after : Dict Session)
          → prune_oldest Session.created limit fresh_ones ≡ after
          → lookup key (prune_oldest Session.created limit fresh_ones) ≡ none
          → ⊥
      crowded [] e gone =
          let prune = prune_oldest_lem Session.created limit fresh_ones fresh_ones-IsDict in
          elim (Bool-cases (ltb limit (length fresh_ones))) [
            | inl over ↦
                let full = prune.1 (ground arith) in
                let none_left = ap length e in omega (arith, full, none_left)
            | inr within ↦ absurd (cc (prune.2 (ground arith), gone, here))
          ]
      crowded ((j, w) ∷ rest) e gone =
          let prune = prune_oldest_lem Session.created limit fresh_ones fresh_ones-IsDict in
          let kept_j : lookup j (prune_oldest Session.created limit fresh_ones) ≡ some w =
            rw e (head j w rest) in
          let (there, newer) = prune.3 key j session w here gone kept_j in
          ground (arith, lookup-fresh_ones j, older j w, there, newer, kept_j, gone, eq_iff key j)

token_names_user :
    (crypto : Crypto) (token : String) (now : ℕ) (doc : Document) (session : Session) (u : User)
    → token ≢ ""
    → now ≤ session.expires
    → lookup (crypto.token_hash token) doc.sessions ≡ some session
    → lookup session.user_id doc.users ≡ some u
    → user_for_token crypto token now doc ≡ (some (public_user u), doc)
unfolding user_for_token
token_names_user crypto token now doc session u named alive there known =
    let nonempty : (token == "") ≡ false = ground (arith, eq_iff token "") in
    let unexpired : ltb session.expires now ≡ false = ground arith in
    rw (nonempty, there) (rw unexpired (rw known refl))

login_succeeds :
    (crypto : Crypto) (limit : ℕ) (fresh : LoginInput) (username password : String) (doc : Document)
    (u : User)
    → find_user username doc.users ≡ some u
    → crypto.verify_password password u.pass_hash ≡ true
    → login crypto limit fresh username password doc ≡ (
      some (fresh.token, public_user u),
      record doc {
        sessions =
            add_session limit
              (crypto.token_hash fresh.token)
              (record {
                user_id = u.id;
                created = fresh.created;
                expires = fresh.issued + session_ttl;
              })
              fresh.swept
              doc.sessions;
      },
    )
unfolding login
login_succeeds crypto limit fresh username password doc u found right =
    rw (found, login) (rw right refl)

login_fails :
    (crypto : Crypto) (limit : ℕ) (fresh : LoginInput) (username password : String) (doc : Document)
    (u : User)
    → find_user username doc.users ≡ some u
    → crypto.verify_password password u.pass_hash ≡ false
    → login crypto limit fresh username password doc ≡ (none, doc)
unfolding login
login_fails crypto limit fresh username password doc u found wrong =
    rw (found, login) (rw wrong refl)

login_unknown :
    (crypto : Crypto) (limit : ℕ) (fresh : LoginInput) (username password : String) (doc : Document)
    → find_user username doc.users ≡ none
    → login crypto limit fresh username password doc ≡ (none, doc)
unfolding login
login_unknown crypto limit fresh username password doc missing = rw (missing, login) refl

-- From a consistent document and with room for a session: a login whose clock readings are in
-- order, after every other session was created, gives a token that names the same user until the
-- session's time to live has passed.
pub user_for_token-login :
    (crypto : Crypto) (limit : ℕ) (fresh : LoginInput) (username password : String) (doc : Document)
    (user : PublicUser) (now : ℕ)
    → IsConsistent doc
    → 0 < limit
    → fresh.token ≢ ""
    → fresh.swept ≤ fresh.issued + session_ttl
    → now ≤ fresh.issued + session_ttl
    → ((t : String) (s : Session) → lookup t doc.sessions ≡ some s → s.created < fresh.created)
    → (login crypto limit fresh username password doc).0 ≡ some (fresh.token, user)
    → let after = (login crypto limit fresh username password doc).1 in
      user_for_token crypto fresh.token now after ≡ (some user, after)
user_for_token-login crypto limit fresh username password doc user now good room named swept alive
      older h =
    elim (Option-cases (find_user username doc.users)) [
      | inl missing ↦
          absurd (cc (login_unknown crypto limit fresh username password doc missing, h))
      | inr (u, found) ↦ elim (Bool-cases (crypto.verify_password password u.pass_hash)) [
        | inr wrong ↦
            absurd (cc (login_fails crypto limit fresh username password doc u found wrong, h))
        | inl right ↦
            let session : Session = record {
              user_id = u.id;
              created = fresh.created;
              expires = fresh.issued + session_ttl;
            } in
            let e = login_succeeds crypto limit fresh username password doc u found right in
            let same : public_user u ≡ user = cc (e, h) in
            subst (λ r. user_for_token crypto fresh.token now r.1 ≡ (some user, r.1)) (sym e)
              (token_names_user crypto fresh.token now _ session u named alive
                  (newest_session_kept limit (crypto.token_hash fresh.token) session fresh.swept
                    doc.sessions good.session_keys room swept older)
                  (found_user username doc u good found)
                ∙ rw same refl)
      ]
    ]
