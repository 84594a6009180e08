-- ===== src/Tests/Access.antt =====
-- Authentication, and the mailbox.
use netherbrain.Prelude.{
  ◌+◌, String, true, false, Option, none, some, List, [], ◌∷◌, ◌≡◌, refl, find, is_ascii,
  drop_chars,
}
use netherbrain.Prelude.Dict
use netherbrain.Enums.{UserRole, MailboxSourceType}
use netherbrain.Middleware
use netherbrain.Tables.{Database}
use netherbrain.Middleware.{
  AuthContext, AppState, Scope, Payload, apply_delegation, authenticate, authenticated, call,
  passed, bootstrap,
}
use netherbrain.Middleware.Decision.{Entitled, authenticate-Entitled, call-Entitled}
use netherbrain.Managers.Mailbox
use netherbrain.Managers.Mailbox.{Call, posts, drains, drain_undelivered, count_pending}
use netherbrain.Managers.Mailbox.Delivery.{waiting, handed, posted, run-waiting}

-- A stand-in for SHA-256, and a library that accepts no JWT.
abbrev same : String → String
same key = key

abbrev no_jwt : String → String → Option Payload
no_jwt token secret = none

abbrev member : AuthContext
member = record { user_id = "bob"; role = UserRole.user; key_id = "k1" }

abbrev delegation : List (String × String)
delegation = ("authorization", "Bearer nb_key") ∷ ("x-nether-user-id", " eve ") ∷ []

abbrev database : Database
database = record {
  users =
      (
        "bob",
        record {
          user_id = "bob";
          display_name = "Bob";
          password_hash = none;
          role = UserRole.user;
          is_active = true;
          must_change_password = false;
          created_at = 0;
        },
      )
      ∷ [];
  api_keys =
      (
        "k1",
        record {
          key_id = "k1";
          key_hash = "nb_key";
          key_prefix = "nb_key";
          user_id = "bob";
          name = "laptop";
          is_active = true;
          expires_at = some 9;
          created_at = 0;
        },
      )
      ∷ [];
}

abbrev app : AppState
app = record { auth_token = some (some "root"); jwt_secret = none; database = some database }

abbrev scope : Scope
scope = record {
  kind = "http";
  path = "/api/sessions";
  method = "GET";
  headers = delegation;
  query_tokens = [];
}

key_accepted : authenticate same no_jwt 5 app scope ≡ authenticated member
unfolding authenticate Middleware.token_of Middleware.extract_bearer_token Middleware.by_token
    Middleware.by_jwt Middleware.by_api_key Middleware.resolve_api_key Middleware.apply_delegation
    find Dict.get is_ascii drop_chars
key_accepted = refl

authenticate-Entitled_example : Entitled same no_jwt 5 app scope member
authenticate-Entitled_example = authenticate-Entitled same no_jwt 5 app scope member key_accepted

call_passed : call same no_jwt 5 app scope ≡ passed (some member)
unfolding call Middleware.is_exempt authenticate Middleware.token_of Middleware.extract_bearer_token
    Middleware.by_token Middleware.by_jwt Middleware.by_api_key Middleware.resolve_api_key
    Middleware.apply_delegation find Dict.get is_ascii drop_chars
call_passed = refl

not_exempt : Middleware.is_exempt scope ≡ false
unfolding Middleware.is_exempt
not_exempt = refl

call-Entitled_example :
    (auth : AuthContext) × (some member ≡ some auth) × Entitled same no_jwt 5 app scope auth
call-Entitled_example =
    call-Entitled same no_jwt 5 app scope (some member) refl refl not_exempt call_passed

-- Two results for one conversation, of which the first is drained before the second comes.
abbrev deliveries : List Call
deliveries =
    posts "m1" 1 "c" "s1" MailboxSourceType.subagent_result "coder"
    ∷ drains "c" "s9"
    ∷ posts "m2" 2 "c" "s2" MailboxSourceType.subagent_failed "tester"
    ∷ []

run-waiting_example :
    waiting "m1" "c" (Mailbox.run [] deliveries).0 + handed "m1" "c" (Mailbox.run [] deliveries).1
    ≡ waiting "m1" "c" [] + posted "m1" "c" deliveries
run-waiting_example = run-waiting "m1" "c" deliveries []

abbrev mailbox : Mailbox.Table
mailbox = (Mailbox.run [] deliveries).0
