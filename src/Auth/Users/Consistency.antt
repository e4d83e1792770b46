-- ===== src/Auth/Users/Consistency.antt =====
-- No account operation leaves the document without an administrator or with a reference to an
-- account that is gone.
use home_lab_hq.Base.{
  ℕ, ◌+◌, ◌≤◌, String, ◌≡◌, ◌≢◌, refl, Bool, true, false, none, some, [], ◌∷◌, arith, ◌==◌, eq_iff,
  eq_refl, Bool-cases, inl, inr,
}
use home_lab_hq.Dict.{Dict, lookup, contains, insert, erase}
use home_lab_hq.Dict.Laws.{IsDict, lookup-insert, lookup-erase}
use home_lab_hq.Auth.Document.{User, Session, Document, is_admin, admins}
use home_lab_hq.Auth.Users.{owned_by}

-- Every owner that a collection names is an account.
abbrev pub IsOwned : Dict User → Dict String → Type 0
IsOwned users d = (k owner : String) → lookup k d ≡ some owner → contains owner users ≡ true

pub record IsConsistent (doc : Document) : Type 0 where
  pub admin : 1 ≤ admins doc.users
  pub users : IsDict doc.users
  pub session_keys : IsDict doc.sessions
  pub push_keys : IsDict doc.push_subs
  pub ids : (k : String) (u : User) → lookup k doc.users ≡ some u → u.id ≡ k
  pub sessions :
      (t : String) (s : Session)
      → lookup t doc.sessions ≡ some s
      → contains s.user_id doc.users ≡ true
  pub devices : IsOwned doc.users doc.devices
  pub dashboards : IsOwned doc.users doc.dashboards
  pub push_subs : IsOwned doc.users doc.push_subs
  pub rosters : (k r : String) → lookup k doc.client_rosters ≡ some r → contains k doc.users ≡ true

abbrev pub one_if : Bool → ℕ
one_if true = 1
one_if false = 0

admins-erase_absent :
    (k : String) (users : Dict User) → lookup k users ≡ none → admins (erase k users) ≡ admins users
unfolding admins lookup erase
admins-erase_absent k [] h = refl
admins-erase_absent k ((j, u) ∷ users) h = ground (arith, admins-erase_absent k users)

pub admins-erase :
    (k : String) (target : User) (users : Dict User)
    → IsDict users
    → lookup k users ≡ some target
    → admins (erase k users) + one_if (is_admin target) ≡ admins users
unfolding admins lookup erase
admins-erase k target [] h e = cc
admins-erase k target ((j, u) ∷ users) h e = elim (Bool-cases (j == k)) [
  | inl same ↦ let j_is_k = (eq_iff j k).0 same in ground (arith, admins-erase_absent k users, h.0)
  | inr other ↦ ground (arith, admins-erase k target users h.1)
]

pub admins-insert_new :
    (k : String) (u : User) (users : Dict User)
    → lookup k users ≡ none
    → admins (insert k u users) ≡ admins users + one_if (is_admin u)
unfolding admins lookup insert
admins-insert_new k u [] h = ground arith
admins-insert_new k u ((j, w) ∷ users) h = ground (arith, admins-insert_new k u users)

pub admins-insert_same :
    (k : String) (u old : User) (users : Dict User)
    → lookup k users ≡ some old
    → is_admin u ≡ is_admin old
    → admins (insert k u users) ≡ admins users
unfolding admins lookup insert
admins-insert_same k u old [] h e = cc
admins-insert_same k u old ((j, w) ∷ users) h e = ground (arith, admins-insert_same k u old users)

pub contains-insert :
    (k j : String) (u : User) (users : Dict User)
    → contains j users ≡ true
    → contains j (insert k u users) ≡ true
contains-insert k j u users h = ground (arith, lookup-insert j k u users)

pub contains-erase :
    (k j : String) (users : Dict User)
    → k ≢ j
    → contains j users ≡ true
    → contains j (erase k users) ≡ true
contains-erase k j users ne h = ground (arith, lookup-erase j k users, eq_iff k j)

-- Nothing of a collection belongs to a user who owns none of it.
pub owned_by-zero : (uid k : String) (d : Dict String) → owned_by uid d ≡ 0 → lookup k d ≢ some uid
unfolding owned_by lookup
owned_by-zero uid k [] h e = cc
owned_by-zero uid k ((j, owner) ∷ d) h e =
    ground (arith, owned_by-zero uid k d, eq_iff owner uid, eq_refl uid)
