-- ===== src/Middleware/Decision.antt =====
-- Who is let through, and as whom.
use netherbrain.Prelude.{
  ℕ, String, true, false, Option, none, some, List, [], ◌∷◌, ◌==◌, subst, ◌≡◌, refl, arith, ◌||◌,
  find, inl, inr, Bool-cases, Option-cases, eq_iff,
}
use netherbrain.Prelude.Dict
use netherbrain.Prelude.Dict.{Dict}
use netherbrain.Enums.{UserRole}
use netherbrain.Tables.{User, ApiKey, Database}
use netherbrain.Middleware.{
  AuthContext, AppState, Scope, Payload, Answer, authenticated, response, type_error,
  apply_delegation, delegated, is_admin, bootstrap, check_user_active, is_expired, resolve_jwt,
  resolve_jwt_with_active_check, resolve_api_key, by_api_key, by_jwt, by_token, token_of,
  authenticate, checked, passed, call, is_exempt, handling, of_row,
}
use text.Mathlib.Text.{starts_with}

-- The user has a row that is active.
abbrev pub HasActive : Database → String → Type 0
HasActive db user_id = (u : User) × (Dict.get user_id db.users ≡ some u) × (u.is_active ≡ true)

check_user_active-HasActive :
    (db : Database) (user_id : String) → check_user_active db user_id ≡ true → HasActive db user_id
unfolding check_user_active
check_user_active-HasActive db user_id h = elim (Option-cases (Dict.get user_id db.users)) [
  | inl e ↦ absurd (ground arith)
  | inr (u, e) ↦ (u, e, ground arith)
]

-- Delegation keeps the key and the role, and for a caller that is no admin the identity too.
pub record IsDelegated (auth result : AuthContext) : Type 0 where
  pub same_key : result.key_id ≡ auth.key_id
  pub same_role : result.role ≡ auth.role
  pub same_user : is_admin auth ≡ false → result ≡ auth

delegated-keeps :
    (auth : AuthContext) (headers : List (String × String))
    → ((delegated auth headers).key_id ≡ auth.key_id)
      × (auth.role ≡ UserRole.admin → (delegated auth headers).role ≡ UserRole.admin)
unfolding delegated
delegated-keeps auth [] = (refl, λ h. h)
delegated-keeps auth ((name, value) ∷ headers) = ground (arith, delegated-keeps auth headers)

-- Whatever the headers say, delegation keeps the key and the role of the caller, and a caller that
-- is no admin keeps its identity.
pub apply_delegation-IsDelegated :
    (auth : AuthContext) (headers : List (String × String))
    → IsDelegated auth (apply_delegation auth headers)
unfolding apply_delegation
apply_delegation-IsDelegated auth headers = record {
  same_key = ground (arith, delegated-keeps auth headers);
  same_role = ground (arith, delegated-keeps auth headers);
  same_user = λ h. ground arith;
}

module _ (sha256 : String → String) (verify_jwt : String → String → Option Payload) (now : ℕ) where
  -- The grounds on which a scope is let through as a context.
  pub data Entitled (app : AppState) (scope : Scope) (auth : AuthContext) : Type 0 where
    development :
        app.auth_token ≡ some none
        → app.database ≡ none
        → auth ≡ bootstrap
        → Entitled app scope auth
    by_root :
        (token : String)
        → app.auth_token ≡ some (some token)
        → token_of scope ≡ some token
        → IsDelegated bootstrap auth
        → Entitled app scope auth
    by_valid_jwt :
        (token secret : String)
        → token_of scope ≡ some token
        → app.jwt_secret ≡ some secret
        → resolve_jwt sha256 verify_jwt now token secret ≡ some auth
        → ((db : Database) → app.database ≡ some db → HasActive db auth.user_id)
        → Entitled app scope auth
    by_valid_key :
        (db : Database) (token : String) (key : ApiKey) (user : User)
        → token_of scope ≡ some token
        → app.database ≡ some db
        → find (λ k. k.key_hash == sha256 token) (Dict.values db.api_keys) ≡ some key
        → Dict.get key.user_id db.users ≡ some user
        → key.is_active ≡ true
        → is_expired now key.expires_at ≡ false
        → user.is_active ≡ true
        → IsDelegated
            (record { user_id = user.user_id; role = user.role; key_id = key.key_id })
            auth
        → Entitled app scope auth

  -- What a key that is accepted looks like.
  pub resolve_api_key-cases :
      (db : Database) (token : String) (auth : AuthContext)
      → resolve_api_key sha256 verify_jwt now db token ≡ some auth
      → (key : ApiKey) × (user : User) × (find
            (λ k. k.key_hash == sha256 token)
            (Dict.values db.api_keys)
          ≡ some key)
        × (Dict.get key.user_id db.users ≡ some user)
        × (of_row now key user ≡ some auth)
  unfolding resolve_api_key
  resolve_api_key-cases db token auth h =
      elim (Option-cases (find (λ k. k.key_hash == sha256 token) (Dict.values db.api_keys))) [
        | inl none_found ↦ absurd (ground arith)
        | inr (key, found) ↦ elim (Option-cases (Dict.get key.user_id db.users)) [
          | inl no_user ↦ absurd (ground arith)
          | inr (user, of_user) ↦ (key, user, found, of_user, ground arith)
        ]
      ]

  module _ (app : AppState) (scope : Scope) (auth : AuthContext) where
    row-Entitled :
        (db : Database) (token : String) (key : ApiKey) (user : User) (context : AuthContext)
        → token_of scope ≡ some token
        → app.database ≡ some db
        → find (λ k. k.key_hash == sha256 token) (Dict.values db.api_keys) ≡ some key
        → Dict.get key.user_id db.users ≡ some user
        → of_row now key user ≡ some context
        → IsDelegated context auth
        → Entitled app scope auth
    row-Entitled db token key user context ht hd hk hu row d =
        by_valid_key db token key user ht hd hk hu (ground arith) (ground arith) (ground arith)
          (subst (λ a. IsDelegated a auth) (ground arith) d)

    by_api_key-Entitled :
        (token : String)
        → token_of scope ≡ some token
        → by_api_key sha256 verify_jwt now app scope.headers token ≡ authenticated auth
        → Entitled app scope auth
    unfolding by_api_key
    by_api_key-Entitled token ht h = elim (Option-cases app.database) [
      | inl no_db ↦ absurd (ground arith)
      | inr (db, hd) ↦ elim (Option-cases (resolve_api_key sha256 verify_jwt now db token)) [
        | inl refused ↦ absurd (ground arith)
        | inr (context, accepted) ↦
            let row = resolve_api_key-cases db token context accepted in
            let same : apply_delegation context scope.headers ≡ auth = ground arith in
            row-Entitled db token row.0 row.1 context ht hd row.2 row.3 row.4 (
              subst (IsDelegated context) same (apply_delegation-IsDelegated context scope.headers))
      ]
    ]

    jwt-Entitled :
        (token secret : String) (context : AuthContext)
        → token_of scope ≡ some token
        → app.jwt_secret ≡ some secret
        → resolve_jwt sha256 verify_jwt now token secret ≡ some context
        → checked app.database context ≡ authenticated auth
        → Entitled app scope auth
    jwt-Entitled token secret context ht hs hr h =
        by_valid_jwt token secret ht hs (ground arith)
          (λ db hd. check_user_active-HasActive db auth.user_id (ground arith))

    by_jwt-Entitled :
        (token : String)
        → token_of scope ≡ some token
        → by_jwt sha256 verify_jwt now app scope.headers token ≡ authenticated auth
        → Entitled app scope auth
    unfolding by_jwt resolve_jwt_with_active_check
    by_jwt-Entitled token ht h = elim (Option-cases app.jwt_secret) [
      | inl no_secret ↦ by_api_key-Entitled token ht (ground arith)
      | inr (secret, hs) ↦ elim (Option-cases (resolve_jwt sha256 verify_jwt now token secret)) [
        | inl no_jwt ↦ by_api_key-Entitled token ht (ground arith)
        | inr (context, hr) ↦ jwt-Entitled token secret context ht hs hr (ground arith)
      ]
    ]

    by_token-Entitled :
        (root_token : Option String) (token : String)
        → app.auth_token ≡ some root_token
        → token_of scope ≡ some token
        → by_token sha256 verify_jwt now app root_token scope.headers token ≡ authenticated auth
        → Entitled app scope auth
    unfolding by_token
    by_token-Entitled none token hr ht h = by_jwt-Entitled token ht h
    by_token-Entitled (some root) token hr ht h = elim (Bool-cases (token == root)) [
      | inl e ↦ by_root token (ground (arith, eq_iff token root)) ht (
          subst (IsDelegated bootstrap) (ground arith)
            (apply_delegation-IsDelegated bootstrap scope.headers))
      | inr e ↦ by_jwt-Entitled token ht (ground arith)
    ]

    -- A context is only given on one of four grounds: neither a root token nor a database is
    -- configured; the token is the root token; it is a JWT that verifies, whose user is active if
    -- there is a database; or it is the key of an active row that has not expired and whose user is
    -- active. Behind the root token and a key the context may be delegated, which keeps key and
    -- role, and for a caller that is no admin the user too.
    pub authenticate-Entitled :
        authenticate sha256 verify_jwt now app scope ≡ authenticated auth → Entitled app scope auth
    unfolding authenticate
    authenticate-Entitled h = elim (Option-cases app.auth_token) [
      | inl unset ↦ absurd (ground arith)
      | inr (none, hr) ↦ elim (Option-cases app.database) [
        | inl no_db ↦ development hr no_db (ground arith)
        | inr (db, hd) ↦ elim (Option-cases (token_of scope)) [
          | inl no_token ↦ absurd (ground arith)
          | inr (token, ht) ↦ by_token-Entitled none token hr ht (ground arith)
        ]
      ]
      | inr (some root, hr) ↦ elim (Option-cases (token_of scope)) [
        | inl no_token ↦ absurd (ground arith)
        | inr (token, ht) ↦ by_token-Entitled (some root) token hr ht (ground arith)
      ]
    ]

  handling-cases :
      (answer : Answer) (context : Option AuthContext)
      → handling answer ≡ passed context
      → (auth : AuthContext) × (answer ≡ authenticated auth) × (context ≡ some auth)
  handling-cases (authenticated auth) context h = (auth, refl, ground arith)
  handling-cases (response status_code detail) context h = absurd (ground arith)
  handling-cases type_error context h = absurd (ground arith)

  -- An HTTP or WebSocket request for a path under /api/ that is not exempt reaches the application
  -- only with a context, and only with one to which it is entitled.
  pub call-Entitled :
      (app : AppState) (scope : Scope) (context : Option AuthContext)
      → (scope.kind == "http" || scope.kind == "websocket") ≡ true
      → starts_with scope.path "/api/" ≡ true
      → is_exempt scope ≡ false
      → call sha256 verify_jwt now app scope ≡ passed context
      → (auth : AuthContext) × (context ≡ some auth) × Entitled app scope auth
  unfolding call
  call-Entitled app scope context hk hp he h =
      let answer = authenticate sha256 verify_jwt now app scope in
      let found = handling-cases answer context (ground arith) in
      (found.0, found.2, authenticate-Entitled app scope found.0 found.1)
