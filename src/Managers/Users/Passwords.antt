-- ===== src/Managers/Users/Passwords.antt =====
-- Passwords and deactivation: what a login finds after managers/users.py has written a user.
use netherbrain.Prelude.{
  ℕ, String, Bool, true, false, Option, none, some, ◌==◌, ◌≡◌, ◌≢◌, refl, sym, ap, ◌∙◌, subst,
  arith, if◌then◌else◌, some-injective, Bool-cases, eq_iff, inl, inr, not,
}
use netherbrain.Prelude.Dict
use netherbrain.Prelude.Dict.{Dict, get-set, get-set_self}
use netherbrain.Prelude.Results.{
  ok, err, ◌>>=◌, ◌>>◌, raise_if, or_raise, guarded-ok, required-ok, ok-pair, ok-injective,
}
use netherbrain.Tables.{User, ApiKey, Database}
use netherbrain.Middleware.{AuthContext, Payload, resolve_api_key, check_user_active, of_row}
use netherbrain.Middleware.Decision.{resolve_api_key-cases}
use netherbrain.Managers.Users.{
  Error, store_user, deactivate_user, authenticate_user, change_password, is_password,
}
use netherbrain.Managers.Users.Validity.{IsValid, store_user-IsValid}

not-false : (b : Bool) → not b ≡ false → b ≡ true
not-false b h = ground arith

row :
    (db : Database) (user_id : String) (db' : Database) (u : User)
    → u.user_id ≡ user_id
    → db' ≡ store_user u db
    → Dict.get user_id db'.users ≡ some u
row db user_id db' u own d =
    rw d (ground (arith, get-set u.user_id user_id u db.users, eq_iff u.user_id user_id))

other :
    (db : Database) (user_id : String) (db' : Database) (u : User)
    → u.user_id ≡ user_id
    → db' ≡ store_user u db
    → (j : String) → j ≢ user_id
    → Dict.get j db'.users ≡ Dict.get j db.users
other db user_id db' u own d j n =
    rw d (ground (arith, get-set u.user_id j u db.users, eq_iff u.user_id j))

module _ (hashpw : (salt password : String) → String)
    (checkpw : (password hash : String) → Bool) where
  abbrev renewed : User → (salt new : String) → User
  renewed u salt new = record u {
    password_hash = some (hashpw salt new);
    must_change_password = false;
  }

  login :
      (db : Database) (user_id text : String) (u : User) (hash : String)
      → Dict.get user_id db.users ≡ some u
      → u.is_active ≡ true
      → u.password_hash ≡ some hash
      → authenticate_user hashpw checkpw db user_id text
        ≡ (if checkpw text hash then ok u else err Error.invalid_password)
  unfolding authenticate_user
  login db user_id text u hash g a h =
      rw (g, a, h) (elim (Bool-cases (checkpw text hash)) [ inl c ↦ rw c refl | inr c ↦ rw c refl ])

  -- After a user with a valid row changes their password, knowing the old one: a login of an active
  -- user succeeds with exactly the texts that bcrypt accepts for the new hash, no login is asked to
  -- change the password again, and no other user's row has changed.
  pub authenticate_user-change_password :
      (db : Database) (user_id old new salt : String) (db' : Database) (u : User) (text j : String)
      → IsValid db
      → change_password hashpw checkpw db user_id old new salt ≡ ok db'
      → Dict.get user_id db.users ≡ some u
      → u.is_active ≡ true
      → j ≢ user_id
      → (is_password hashpw checkpw u.password_hash old ≡ true)
        × (authenticate_user hashpw checkpw db' user_id text ≡ (
            if checkpw text (hashpw salt new)
            then ok
                (record u { password_hash = some (hashpw salt new); must_change_password = false })
            else err Error.invalid_password))
        × (Dict.get j db'.users ≡ Dict.get j db.users)
  unfolding change_password authenticate_user
  authenticate_user-change_password db user_id old new salt db' u text j v h g a n =
      let (w, f, r) =
        required-ok (Dict.get user_id db.users) Error.user_not_found
          (λ user.
            raise_if (not (is_password hashpw checkpw user.password_hash old))
              Error.invalid_password
            >> ok (store_user (renewed user salt new) db))
          db' h in
      let (p, k) =
        guarded-ok (not (is_password hashpw checkpw w.password_hash old)) Error.invalid_password
          (ok (store_user (renewed w salt new) db)) db' r in
      let same : w ≡ u = some-injective w u (sym f ∙ g) in
      let moved : db' ≡ store_user (renewed u salt new) db =
        sym (ok-injective (store_user (renewed w salt new) db) db' k)
        ∙ ap (λ x. store_user (renewed x salt new) db) same in
      (
        ap (λ x. is_password hashpw checkpw x.password_hash old) (sym same) ∙ not-false _ p,
        login db' user_id text (renewed u salt new) (hashpw salt new)
            (row db user_id db' (renewed u salt new) (v.own_user user_id u g) moved) a refl,
        other db user_id db' (renewed u salt new) (v.own_user user_id u g) moved j n,
      )

module _ (sha256 : String → String) (verify_jwt : String → String → Option Payload) (now : ℕ) where
  refused :
      (k : ApiKey) (u : User) (auth : AuthContext)
      → of_row now k u ≡ some auth
      → (u.is_active ≡ true) × (auth.user_id ≡ u.user_id)
  refused k u auth r = ground arith

  -- The identity is the user's.
  abbrev pub is_user : String → Option AuthContext → Bool
  is_user user_id none = false
  is_user user_id (some auth) = auth.user_id == user_id

  not_user :
      (user_id : String) (o : Option AuthContext)
      → ((auth : AuthContext) → o ≡ some auth → auth.user_id ≢ user_id)
      → is_user user_id o ≡ false
  not_user user_id none h = refl
  not_user user_id (some auth) h = elim (Bool-cases (auth.user_id == user_id)) [
    | inl e ↦ absurd (h auth refl (ground (arith, eq_iff auth.user_id user_id)))
    | inr e ↦ e
  ]

  inactive-refused :
      (hashpw : (salt password : String) → String) (checkpw : (password hash : String) → Bool)
      (db : Database) (user_id : String) (u : User)
      → IsValid db
      → Dict.get user_id db.users ≡ some u
      → u.is_active ≡ false
      → (check_user_active db user_id ≡ false)
        × ((text : String)
            → authenticate_user hashpw checkpw db user_id text ≡ err Error.user_not_found)
        × ((raw : String) (auth : AuthContext)
            → resolve_api_key sha256 verify_jwt now db raw ≡ some auth
            → auth.user_id ≢ user_id)
  unfolding check_user_active authenticate_user
  inactive-refused hashpw checkpw db user_id u v g a = (
    rw (check_user_active, g) a,
    λ text. rw (g, a) refl,
    λ raw auth h e.
        let (k, w, _, m, r) = resolve_api_key-cases sha256 verify_jwt now db raw auth h in
        let (on, own) = refused k w auth r in
        let at_id : k.user_id ≡ user_id = sym (v.own_user k.user_id w m) ∙ sym own ∙ e in
        let same : w ≡ u = some-injective w u (sym m ∙ ap (λ x. Dict.get x db.users) at_id ∙ g) in
        let active : u.is_active ≡ true = sym (ap (λ x. x.is_active) same) ∙ on in ground arith,
  )

  -- After another user deactivates a user in valid tables, the user counts as inactive for a JWT, no
  -- password logs them in, and no text authenticates as them as an API key.
  pub deactivate_user-refused :
      (hashpw : (salt password : String) → String) (checkpw : (password hash : String) → Bool)
      (db : Database) (user_id caller : String) (db' : Database) (u : User) (text raw : String)
      → IsValid db
      → deactivate_user db user_id caller ≡ ok (db', u)
      → (check_user_active db' user_id ≡ false)
        × (authenticate_user hashpw checkpw db' user_id text ≡ err Error.user_not_found)
        × (is_user user_id (resolve_api_key sha256 verify_jwt now db' raw) ≡ false)
  unfolding deactivate_user check_user_active authenticate_user
  deactivate_user-refused hashpw checkpw db user_id caller db' u text raw v h =
      let (n, r) =
        guarded-ok (user_id == caller) Error.cannot_deactivate_self
          (do
            user ← or_raise (Dict.get user_id db.users) Error.user_not_found
            let updated : User = record user { is_active = false }
            ok (store_user updated db, updated))
          (db', u) h in
      let (old, g, k) =
        required-ok (Dict.get user_id db.users) Error.user_not_found
          (λ user.
            ok (
              store_user (record user { is_active = false }) db,
              record user { is_active = false },
            ))
          (db', u) r in
      let off : User = record old { is_active = false } in
      let (d, _) = ok-pair (store_user off db) db' off u k in
      let own = v.own_user user_id old g in
      let facts =
        inactive-refused hashpw checkpw db' user_id off
          (subst IsValid (sym d) (store_user-IsValid off db v)) (row db user_id db' off own d)
          refl in
      (facts.0, facts.1 text, not_user user_id _ (facts.2 raw))
