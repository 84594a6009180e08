-- ===== src/Tables.antt =====
-- netherbrain/agent_runtime/db/tables.py: the tables `users` and `api_keys`, as dicts by their
-- primary keys.
use netherbrain.Prelude.{ℕ, String, Bool, Option}
use netherbrain.Prelude.Dict.{Dict}
use netherbrain.Enums.{UserRole}

pub record User : Type 0 where
  pub user_id : String
  pub display_name : String
  pub password_hash : Option String
  pub role : UserRole
  pub is_active : Bool
  pub must_change_password : Bool
  pub created_at : ℕ

pub record ApiKey : Type 0 where
  pub key_id : String
  pub key_hash : String
  pub key_prefix : String
  pub user_id : String
  pub name : String
  pub is_active : Bool
  pub expires_at : Option ℕ
  pub created_at : ℕ

pub record Database : Type 0 where
  pub users : Dict User
  pub api_keys : Dict ApiKey
