-- ===== src/Auth/Document.antt =====
-- The part of the store's document that backend/auth.py reads and writes.
use home_lab_hq.Base.{ℕ, String, Bool, ◌==◌, length, keep}
use home_lab_hq.Dict.{Dict, values}

pub record User : Type 0 where
  pub id : String
  pub username : String
  pub pass_hash : String
  pub role : String
  pub created : ℕ

pub record Session : Type 0 where
  pub user_id : String
  pub created : ℕ
  pub expires : ℕ

-- A device, a dashboard and a push subscription stand as the id of their owner, a client roster
-- as its text.
pub record Document : Type 0 where
  pub users : Dict User
  pub sessions : Dict Session
  pub devices : Dict String
  pub dashboards : Dict String
  pub push_subs : Dict String
  pub client_rosters : Dict String

-- `_public_user`
pub record PublicUser : Type 0 where
  pub id : String
  pub username : String
  pub role : String

unfoldable pub public_user : User → PublicUser
public_user u = record { id = u.id; username = u.username; role = u.role }

unfoldable pub is_admin : User → Bool
is_admin u = u.role == "admin"

-- `sum(1 for user in doc["users"].values() if user["role"] == "admin")`
unfoldable pub admins : Dict User → ℕ
unfolding is_admin
admins users = length (keep is_admin (values users))

-- What the standard library computes for this module: the scrypt test of `verify_password`, and
-- the SHA-256 of `_token_hash`.
pub record Crypto : Type 0 where
  pub verify_password : String → String → Bool
  pub token_hash : String → String
  pub dummy_hash : String
