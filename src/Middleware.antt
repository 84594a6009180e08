-- ===== src/Middleware.antt =====
-- netherbrain/agent_runtime/middleware.py, with `AuthContext` of
-- netherbrain/agent_runtime/auth.py. Header names are in lower case, as ASGI gives them, and
-- header values are read as latin-1. The database is its two tables; SHA-256 and the JWT library
-- are parameters.
pub mod Decision
use netherbrain.Prelude.{
  ℕ, String, Bool, true, false, Option, none, some, List, [], ◌∷◌, ◌==◌, ◌&&◌, ◌||◌, not,
  if◌then◌else◌, is_some, find, ltb, truthy, ◌>>=◌, strip, drop_chars, is_ascii,
}
use netherbrain.Prelude.Dict
use netherbrain.Prelude.Dict.{Dict}
use netherbrain.Enums.{UserRole}
use netherbrain.Tables.{User, ApiKey, Database}
use text.Mathlib.Text.{starts_with}

pub record AuthContext : Type 0 where
  pub user_id : String
  pub role : UserRole
  pub key_id : String

-- `AuthContext.is_admin`.
abbrev pub is_admin : AuthContext → Bool
is_admin a = elim a.role [ UserRole.admin ↦ true | UserRole.user ↦ false ]

-- `app.state`; `auth_token` is none before the lifespan has set it.
pub record AppState : Type 0 where
  pub auth_token : Option (Option String)
  pub jwt_secret : Option String
  pub database : Option Database

-- An ASGI scope; `query_tokens` is what `parse_qs` finds under "token".
pub record Scope : Type 0 where
  pub kind : String
  pub path : String
  pub method : String
  pub headers : List (String × String)
  pub query_tokens : List String

-- The claims of a JWT that are read.
pub record Payload : Type 0 where
  pub user_id : Option String
  pub role : Option String

-- A context, a response, or an exception that `_authenticate` lets through.
pub data Answer : Type 0 where
  authenticated : AuthContext → Answer
  response : (status_code : ℕ) (detail : String) → Answer
  type_error : Answer

abbrev pub root_key_id : String
root_key_id = "root"

abbrev pub jwt_key_id : String
jwt_key_id = "jwt"

abbrev pub bootstrap_admin_id : String
bootstrap_admin_id = "admin"

abbrev pub bearer_of : String → Option String
bearer_of value = if starts_with value "Bearer " then some (drop_chars 7 value) else none

-- `_extract_bearer_token`: the first authorization header decides.
unfoldable pub extract_bearer_token : List (String × String) → Option String
extract_bearer_token [] = none
extract_bearer_token ((name, value) ∷ headers) =
    if name == "authorization" then bearer_of value else extract_bearer_token headers

-- `_extract_query_token`.
unfoldable pub extract_query_token : Scope → Option String
extract_query_token scope = elim scope.query_tokens [
  | [] ↦ none
  | value ∷ rest ↦ if value == "" then none else some value
]

-- The header loop of `_apply_delegation`.
unfoldable pub delegated : AuthContext → List (String × String) → AuthContext
delegated auth [] = auth
delegated auth ((name, value) ∷ headers) =
    if name == "x-nether-user-id" && not (strip value == "")
    then record { user_id = strip value; role = UserRole.admin; key_id = auth.key_id }
    else delegated auth headers

-- `_apply_delegation`.
unfoldable pub apply_delegation : AuthContext → List (String × String) → AuthContext
apply_delegation auth headers = if is_admin auth then delegated auth headers else auth

-- `UserRole(role_str)`; none stands for the ValueError.
unfoldable pub user_role : String → Option UserRole
user_role s =
    if s == "admin" then some UserRole.admin else if s == "user" then some UserRole.user else none

-- `_check_user_active`.
unfoldable pub check_user_active : Database → String → Bool
check_user_active db user_id = elim (Dict.get user_id db.users) [
  | none ↦ false
  | some u ↦ u.is_active
]

abbrev pub bootstrap : AuthContext
bootstrap = record { user_id = bootstrap_admin_id; role = UserRole.admin; key_id = root_key_id }

abbrev pub is_expired : ℕ → Option ℕ → Bool
is_expired now none = false
is_expired now (some expires_at) = ltb expires_at now

abbrev pub of_payload : Payload → Option AuthContext
of_payload p = do
  user_id ← p.user_id
  role_str ← p.role
  role ← user_role role_str
  if user_id == ""
      then none
      else some (record { user_id = user_id; role = role; key_id = jwt_key_id })

-- The active check behind a valid JWT.
abbrev pub checked : Option Database → AuthContext → Answer
checked none auth = authenticated auth
checked (some db) auth =
    if check_user_active db auth.user_id
    then authenticated auth
    else response 401 "Account deactivated."

abbrev pub of_row : ℕ → ApiKey → User → Option AuthContext
of_row now k u =
    if k.is_active && not (is_expired now k.expires_at) && u.is_active
    then some (record { user_id = u.user_id; role = u.role; key_id = k.key_id })
    else none

-- `_extract_bearer_token(headers) or _extract_query_token(scope)`.
unfoldable pub token_of : Scope → Option String
token_of scope =
    if truthy (extract_bearer_token scope.headers)
    then extract_bearer_token scope.headers
    else extract_query_token scope

unfoldable pub is_exempt : Scope → Bool
is_exempt scope =
    scope.method == "GET" && scope.path == "/api/health"
    || scope.method == "POST" && scope.path == "/api/auth/login"

-- What `__call__` does with a scope: it goes on to the application, with the context where there
-- is one, or an answer is sent instead.
pub data Handling : Type 0 where
  passed : Option AuthContext → Handling
  answered : (status_code : ℕ) (detail : String) → Handling
  raised : Handling

abbrev pub handling : Answer → Handling
handling (authenticated auth) = passed (some auth)
handling (response status_code detail) = answered status_code detail
handling type_error = raised

module _ (sha256 : String → String) (verify_jwt : String → String → Option Payload) (now : ℕ) where
  -- `_resolve_jwt`.
  unfoldable pub resolve_jwt : (token secret : String) → Option AuthContext
  resolve_jwt token secret = do payload ← verify_jwt token secret; of_payload payload

  -- `_resolve_jwt_with_active_check`.
  unfoldable pub resolve_jwt_with_active_check :
      (token secret : String) → Option Database → Option Answer
  resolve_jwt_with_active_check token secret database = elim (resolve_jwt token secret) [
    | none ↦ none
    | some auth ↦ some (checked database auth)
  ]

  -- `_resolve_api_key`: the key with the hash, joined with its user.
  unfoldable pub resolve_api_key : Database → String → Option AuthContext
  resolve_api_key db raw_key = do
    k ← find (λ k. k.key_hash == sha256 raw_key) (Dict.values db.api_keys)
    u ← Dict.get k.user_id db.users
    of_row now k u

  abbrev pub key_context : Option Database → String → Option AuthContext
  key_context none token = none
  key_context (some db) token = resolve_api_key db token

  abbrev pub jwt_answer : Option String → Option Database → String → Option Answer
  jwt_answer none database token = none
  jwt_answer (some secret) database token = resolve_jwt_with_active_check token secret database

  -- The third method, and the refusal behind it.
  unfoldable pub by_api_key : AppState → List (String × String) → String → Answer
  by_api_key app headers token = elim (key_context app.database token) [
    | some auth ↦ authenticated (apply_delegation auth headers)
    | none ↦ response 401 "Invalid authentication token."
  ]

  -- The second method, and what follows it.
  unfoldable pub by_jwt : AppState → List (String × String) → String → Answer
  by_jwt app headers token = elim (jwt_answer app.jwt_secret app.database token) [
    | some answer ↦ answer
    | none ↦ by_api_key app headers token
  ]

  -- The three methods in their order. `hmac.compare_digest` raises on a text that is not ASCII.
  unfoldable pub by_token : AppState → Option String → List (String × String) → String → Answer
  by_token app none headers token = by_jwt app headers token
  by_token app (some root) headers token =
      if is_ascii token && is_ascii root
      then if token == root
        then authenticated (apply_delegation bootstrap headers)
        else by_jwt app headers token
      else type_error

  -- `_authenticate`.
  unfoldable pub authenticate : AppState → Scope → Answer
  authenticate app scope = elim app.auth_token [
    | none ↦ response 503 "Auth not initialized."
    | some root_token ↦
        if not (is_some root_token) && not (is_some app.database)
        then authenticated bootstrap
        else elim (token_of scope) [
          | none ↦ response 401 "Missing or malformed Authorization header."
          | some token ↦ by_token app root_token scope.headers token
        ]
  ]

  -- `BearerAuthMiddleware.__call__`.
  unfoldable pub call : AppState → Scope → Handling
  call app scope =
      if not (scope.kind == "http" || scope.kind == "websocket")
      then passed none
      else if not (starts_with scope.path "/api/")
      then passed none
      else if is_exempt scope
      then passed none
      else handling (authenticate app scope)
