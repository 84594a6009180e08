-- ===== src/Managers/Users.antt =====
-- netherbrain/agent_runtime/managers/users.py: accounts, passwords and API keys. bcrypt and SHA-256
-- are parameters; salts, generated passwords, ids and secrets, and the time, are arguments.
pub mod Validity
pub mod Keys
pub mod Passwords
use netherbrain.Prelude.{
  ℕ, ◌+◌, ◌*◌, String, Bool, true, false, Option, none, some, List, [], ◌∷◌, ◌==◌, ◌&&◌, ◌||◌, not,
  is_some, if◌then◌else◌, keep, leb, or_text, cat, take_chars, find,
}
use netherbrain.Prelude.Dict
use netherbrain.Prelude.Dict.{Dict}
use netherbrain.Prelude.Results.{Result, ok, err, ◌>>=◌, ◌>>◌, raise_if, or_raise}
use netherbrain.Enums.{UserRole}
use netherbrain.Tables.{User, ApiKey, Database}
use netherbrain.Middleware.{bootstrap_admin_id}

-- The domain exceptions, and the database's refusal of a key that is there already.
pub data Error : Type 0 where
  user_not_found duplicate_user key_not_found cannot_deactivate_self : Error
  invalid_password no_password_set integrity_error : Error

-- A value given replaces the field, and None leaves it.
abbrev pub given {ℓ} : {A : Type ℓ} → Option A → A → A
given none old = old
given (some a) old = a

abbrev pub store_user : User → Database → Database
store_user u db = record db { users = Dict.set u.user_id u db.users }

abbrev pub store_key : ApiKey → Database → Database
store_key k db = record db { api_keys = Dict.set k.key_id k db.api_keys }

-- ORDER BY created_at DESC.
unfoldable pub insert_user : User → List User → List User
insert_user u [] = u ∷ []
insert_user u (v ∷ vs) =
    let rest = insert_user u vs in if leb v.created_at u.created_at then u ∷ v ∷ vs else v ∷ rest

unfoldable pub newest_users : List User → List User
newest_users [] = []
newest_users (u ∷ us) = insert_user u (newest_users us)

unfoldable pub insert_key : ApiKey → List ApiKey → List ApiKey
insert_key k [] = k ∷ []
insert_key k (l ∷ ls) =
    let rest = insert_key k ls in if leb l.created_at k.created_at then k ∷ l ∷ ls else l ∷ rest

unfoldable pub newest_keys : List ApiKey → List ApiKey
newest_keys [] = []
newest_keys (k ∷ ks) = insert_key k (newest_keys ks)

-- `list_users`.
unfoldable pub list_users : Database → List User
list_users db = newest_users (Dict.values db.users)

-- `get_user`.
unfoldable pub get_user : Database → String → Result Error User
get_user db user_id = or_raise (Dict.get user_id db.users) user_not_found

-- `update_user`.
unfoldable pub update_user :
    Database
    → (user_id : String) (display_name : Option String) (role : Option UserRole)
      (is_active : Option Bool)
    → Result Error (Database × User)
update_user db user_id display_name role is_active = do
  user ← or_raise (Dict.get user_id db.users) user_not_found
  let updated : User = record user {
    display_name = given display_name user.display_name;
    role = given role user.role;
    is_active = given is_active user.is_active;
  }
  ok (store_user updated db, updated)

-- `deactivate_user`.
unfoldable pub deactivate_user :
    Database → (user_id caller_user_id : String) → Result Error (Database × User)
deactivate_user db user_id caller_user_id = do
  raise_if (user_id == caller_user_id) cannot_deactivate_self
  user ← or_raise (Dict.get user_id db.users) user_not_found
  let updated : User = record user { is_active = false }
  ok (store_user updated db, updated)

module _ (hashpw : (salt password : String) → String)
    (checkpw : (password hash : String) → Bool) where
  -- `create_user`.
  unfoldable pub create_user :
      Database
      → (user_id display_name : String) (role : UserRole) (password : Option String)
        (generated salt : String) (now : ℕ)
      → Result Error (Database × String)
  create_user db user_id display_name role password generated salt now = do
    raise_if (is_some (Dict.get user_id db.users)) duplicate_user
    let raw_password = or_text password generated
    let user : User = record {
      user_id = user_id;
      display_name = display_name;
      password_hash = some (hashpw salt raw_password);
      role = role;
      is_active = true;
      must_change_password = true;
      created_at = now;
    }
    ok (store_user user db, raw_password)

  -- `authenticate_user`.
  unfoldable pub authenticate_user : Database → (user_id password : String) → Result Error User
  authenticate_user db user_id password = do
    user ← or_raise (Dict.get user_id db.users) user_not_found
    raise_if (not user.is_active) user_not_found
    password_hash ← or_raise user.password_hash no_password_set
    raise_if (not (checkpw password password_hash)) invalid_password
    ok user

  abbrev pub is_password : Option String → String → Bool
  is_password none password = false
  is_password (some password_hash) password = checkpw password password_hash

  -- `change_password`.
  unfoldable pub change_password :
      Database → (user_id old_password new_password salt : String) → Result Error Database
  change_password db user_id old_password new_password salt = do
    user ← or_raise (Dict.get user_id db.users) user_not_found
    raise_if (not (is_password user.password_hash old_password)) invalid_password
    ok (
        store_user
          (record user {
            password_hash = some (hashpw salt new_password);
            must_change_password = false;
          })
          db)

  -- `reset_password`.
  unfoldable pub reset_password :
      Database → (user_id generated salt : String) → Result Error (Database × String)
  reset_password db user_id generated salt = do
    user ← or_raise (Dict.get user_id db.users) user_not_found
    ok (
      store_user
          (record user {
            password_hash = some (hashpw salt generated);
            must_change_password = true;
          })
          db,
      generated,
    )

  abbrev pub is_empty : Dict User → Bool
  is_empty [] = true
  is_empty (e ∷ es) = false

  -- `bootstrap_admin`.
  unfoldable pub bootstrap_admin :
      Database → (password generated salt : String) (now : ℕ) → Result Error Database
  bootstrap_admin db password generated salt now =
      if is_empty db.users
      then (do
        created ←
            create_user db bootstrap_admin_id "Admin" UserRole.admin (some password) generated salt
              now
        ok created.0)
      else ok db

-- `_generate_raw_key`.
unfoldable pub raw_key_of : (key_id secret : String) → String
raw_key_of key_id secret = cat "nb_" (cat key_id (cat "_" secret))

abbrev pub expiry : ℕ → Option ℕ → Option ℕ
expiry now none = none
expiry now (some days) = some (now + days * 86400)

-- The unique index on key_hash, and the primary key.
unfoldable pub is_taken : ApiKey → Database → Bool
is_taken k db =
    is_some (Dict.get k.key_id db.api_keys)
    || is_some (find (λ l. l.key_hash == k.key_hash) (Dict.values db.api_keys))

module _ (sha256 : String → String) where
  -- `_make_api_key`.
  unfoldable pub make_api_key :
      (user_id name key_id secret : String) (expires_at : Option ℕ) (now : ℕ) → ApiKey
  make_api_key user_id name key_id secret expires_at now = record {
    key_id = key_id;
    key_hash = sha256 (raw_key_of key_id secret);
    key_prefix = take_chars 8 (raw_key_of key_id secret);
    user_id = user_id;
    name = name;
    is_active = true;
    expires_at = expires_at;
    created_at = now;
  }

  -- `create_api_key`, with the key and its raw form.
  unfoldable pub create_api_key :
      Database
      → (user_id name : String) (expires_in_days : Option ℕ) (key_id secret : String) (now : ℕ)
      → Result Error (Database × String)
  create_api_key db user_id name expires_in_days key_id secret now = do
    user ← or_raise (Dict.get user_id db.users) user_not_found
    let row = make_api_key user_id name key_id secret (expiry now expires_in_days) now
    raise_if (is_taken row db) integrity_error
    ok (store_key row db, raw_key_of key_id secret)

-- `list_api_keys`.
unfoldable pub list_api_keys : Database → (user_id : Option String) → List ApiKey
list_api_keys db none = newest_keys (Dict.values db.api_keys)
list_api_keys db (some user_id) =
    keep (λ k. k.user_id == user_id) (newest_keys (Dict.values db.api_keys))

-- `revoke_api_key`.
unfoldable pub revoke_api_key :
    Database
    → (key_id caller_user_id : String) (caller_is_admin : Bool) → Result Error (Database × ApiKey)
revoke_api_key db key_id caller_user_id caller_is_admin = do
  key ← or_raise (Dict.get key_id db.api_keys) key_not_found
  raise_if (not caller_is_admin && not (key.user_id == caller_user_id)) key_not_found
  let revoked : ApiKey = record key { is_active = false }
  ok (store_key revoked db, revoked)
