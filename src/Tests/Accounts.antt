-- ===== src/Tests/Accounts.antt =====
-- Accounts, passwords and API keys.
use netherbrain.Prelude.{
  String, Bool, true, false, Option, none, some, [], ◌==◌, ◌≡◌, ◌≢◌, refl, if◌then◌else◌, cat,
  take_chars, find, arith, eq_iff,
}
use netherbrain.Prelude.Dict
use netherbrain.Prelude.Results.{ok, err}
use netherbrain.Enums.{UserRole}
use netherbrain.Tables.{User, ApiKey, Database}
use netherbrain.Middleware.{Payload, resolve_api_key, check_user_active}
use netherbrain.Managers.Users.{
  Error, store_user, store_key, raw_key_of, make_api_key, create_api_key, revoke_api_key, is_taken,
  change_password, authenticate_user, deactivate_user, is_password,
}
use netherbrain.Managers.Users.Validity.{IsValid, store_user-IsValid, store_key-IsValid}
use netherbrain.Managers.Users.Keys.{resolve_api_key-create_api_key, resolve_api_key-revoke_api_key}
use netherbrain.Managers.Users.Passwords.{
  authenticate_user-change_password, deactivate_user-refused, is_user,
}

-- Stand-ins for SHA-256, bcrypt and the JWT library.
abbrev same : String → String
same text = text

abbrev hashpw : String → String → String
hashpw salt password = cat salt password

abbrev checkpw : String → String → Bool
checkpw password hash = cat "$" password == hash

abbrev no_jwt : String → String → Option Payload
no_jwt token secret = none

abbrev bob : User
bob = record {
  user_id = "bob";
  display_name = "Bob";
  password_hash = some "$old";
  role = UserRole.user;
  is_active = true;
  must_change_password = true;
  created_at = 0;
}

abbrev eve : User
eve = record bob { user_id = "eve"; display_name = "Eve" }

abbrev key : ApiKey
key = record {
  key_id = "k1";
  key_hash = "nb_k1_x";
  key_prefix = "nb_k1_x";
  user_id = "eve";
  name = "laptop";
  is_active = true;
  expires_at = none;
  created_at = 5;
}

abbrev nobody : Database
nobody = record { users = []; api_keys = [] }

abbrev users : Database
users = store_user eve (store_user bob nobody)

abbrev keys : Database
keys = store_key key users

nobody-IsValid : IsValid nobody
unfolding Dict.get
nobody-IsValid = record {
  keys_once = tt;
  own_user = λ k u g. cc;
  own_key = λ k a g. cc;
  one_hash = λ k l a b g h e. cc;
}

keys-IsValid : IsValid keys
unfolding Dict.get
keys-IsValid =
    store_key-IsValid key users (λ j a g e. cc)
      (store_user-IsValid eve (store_user bob nobody)
        (store_user-IsValid bob nobody nobody-IsValid))

resolve_api_key-create_api_key_example :
    resolve_api_key same no_jwt 9 keys "nb_k1_x"
    ≡ some (record { user_id = "eve"; role = UserRole.user; key_id = "k1" })
unfolding create_api_key make_api_key raw_key_of is_taken Dict.get Dict.set take_chars find
resolve_api_key-create_api_key_example =
    resolve_api_key-create_api_key same no_jwt 9 users "eve" "laptop" none "k1" "x" 5 eve keys
      "nb_k1_x" refl refl refl refl

other_key : ◌≢◌ {A = String} "k2" "k1"
other_key e = ground (arith, eq_iff "k2" "k1")

other_user : ◌≢◌ {A = String} "bob" "eve"
other_user e = ground (arith, eq_iff "bob" "eve")

abbrev revoked : ApiKey
revoked = record key { is_active = false }

resolve_api_key-revoke_api_key_example :
    (resolve_api_key same no_jwt 9 (store_key revoked keys) "nb_k1_x" ≡ none)
    × (Dict.get "k2" (store_key revoked keys).api_keys ≡ Dict.get "k2" keys.api_keys)
unfolding revoke_api_key Dict.get Dict.set
resolve_api_key-revoke_api_key_example =
    resolve_api_key-revoke_api_key same no_jwt 9 keys "k1" "eve" false (store_key revoked keys)
      revoked "nb_k1_x" "k2" keys-IsValid refl refl other_key

abbrev renewed : User
renewed = record eve { password_hash = some "$new"; must_change_password = false }

authenticate_user-change_password_example :
    (is_password hashpw checkpw eve.password_hash "old" ≡ true)
    × (authenticate_user hashpw checkpw (store_user renewed keys) "eve" "new"
        ≡ (if checkpw "new" (hashpw "$" "new") then ok renewed else err Error.invalid_password))
    × (Dict.get "bob" (store_user renewed keys).users ≡ Dict.get "bob" keys.users)
unfolding change_password Dict.get Dict.set
authenticate_user-change_password_example =
    authenticate_user-change_password hashpw checkpw keys "eve" "old" "new" "$"
      (store_user renewed keys) eve "new" "bob" keys-IsValid refl refl refl other_user

abbrev inactive : User
inactive = record bob { is_active = false }

deactivate_user-refused_example :
    (check_user_active (store_user inactive keys) "bob" ≡ false)
    × (authenticate_user hashpw checkpw (store_user inactive keys) "bob" "old"
        ≡ err Error.user_not_found)
    × (is_user same no_jwt 9 "bob"
          (resolve_api_key same no_jwt 9 (store_user inactive keys) "nb_k1_x")
        ≡ false)
unfolding deactivate_user Dict.get Dict.set
deactivate_user-refused_example =
    deactivate_user-refused same no_jwt 9 hashpw checkpw keys "bob" "eve" (store_user inactive keys)
      inactive "old" "nb_k1_x" keys-IsValid refl
