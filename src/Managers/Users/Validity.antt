-- ===== src/Managers/Users/Validity.antt =====
-- The tables of users and keys: rows stand under their own ids, and no two keys share a hash.
use netherbrain.Prelude.{String, false, some, ◌==◌, ◌≡◌, arith, find, eq_iff, Option-cases}
use netherbrain.Prelude.Dict
use netherbrain.Prelude.Dict.{Dict, get-set}
use netherbrain.Prelude.Entries.{IsDict, IsDict-set, find-none}
use netherbrain.Tables.{User, ApiKey, Database}
use netherbrain.Managers.Users.{store_user, store_key, is_taken}

pub record IsValid (db : Database) : Type 0 where
  pub keys_once : IsDict db.api_keys
  pub own_user : (k : String) (u : User) → Dict.get k db.users ≡ some u → u.user_id ≡ k
  pub own_key : (k : String) (a : ApiKey) → Dict.get k db.api_keys ≡ some a → a.key_id ≡ k
  pub one_hash :
      (k l : String) (a b : ApiKey)
      → Dict.get k db.api_keys ≡ some a
      → Dict.get l db.api_keys ≡ some b
      → a.key_hash ≡ b.key_hash
      → k ≡ l

pub store_user-IsValid : (u : User) (db : Database) → IsValid db → IsValid (store_user u db)
store_user-IsValid u db v = record {
  keys_once = v.keys_once;
  own_user =
      λ k w g. ground (arith, v.own_user k w, get-set u.user_id k u db.users, eq_iff u.user_id k);
  own_key = v.own_key;
  one_hash = v.one_hash;
}

-- No other key has the hash of `k`.
abbrev pub HasFreshHash : ApiKey → Database → Type 0
HasFreshHash k db =
    (j : String) (a : ApiKey)
    → Dict.get j db.api_keys ≡ some a
    → a.key_hash ≡ k.key_hash
    → j ≡ k.key_id

pub store_key-IsValid :
    (k : ApiKey) (db : Database) → HasFreshHash k db → IsValid db → IsValid (store_key k db)
store_key-IsValid k db fresh v = record {
  keys_once = IsDict-set k.key_id k db.api_keys v.keys_once;
  own_user = v.own_user;
  own_key =
      λ j a g. ground (arith, v.own_key j a, get-set k.key_id j k db.api_keys, eq_iff k.key_id j);
  one_hash = λ i j a b g h e. ground (
    arith,
    v.one_hash i j a b,
    fresh i a,
    fresh j b,
    get-set k.key_id i k db.api_keys,
    get-set k.key_id j k db.api_keys,
    eq_iff k.key_id i,
    eq_iff k.key_id j,
  );
}

not_taken-HasFreshHash : (k : ApiKey) (db : Database) → is_taken k db ≡ false → HasFreshHash k db
unfolding is_taken
not_taken-HasFreshHash k db t j a g e = absurd (
    ground (
      arith,
      find-none (λ l. l.key_hash == k.key_hash) db.api_keys j a,
      Option-cases (find (λ l. l.key_hash == k.key_hash) (Dict.values db.api_keys)),
      eq_iff a.key_hash k.key_hash,
    ))
