-- ===== src/Access/Auth.antt =====
-- src/api/auth.ts and src/api/domain-context.ts: what a request's headers and the environment say, and the
-- principal that a request is given. The warning on the console is left out; the hash of a key is an
-- argument, and a header that is absent or a list is `none`.
pub mod Grants
pub mod Granted
pub mod Required
use wordclaw.Shared.{
  ℕ, String, concat, Bool, true, false, not, ◌&&◌, ◌||◌, Option, none, some, List, [], ◌∷◌, ◌++◌,
  if◌then◌else◌, ◌==◌, string_eq, or_else, is_some, includes, trim, non_empty, to_lower, to_upper,
  starts_with, split, split_trimmed, parse_positive, decimal,
}
use wordclaw.Access.Identity.{
  number, text, ActorPrincipal, build_api_key_principal, build_env_key_principal,
  build_anonymous_local_principal,
}
use wordclaw.Access.Keys.{
  ApiKey, Keys, get_api_key_by_hash, is_key_expired, parse_scopes, distinct_from,
  touch_api_key_usage, api_key_prefix,
}

-- The variables that the process is started with.
pub record Environment : Type 0 where
  pub auth_required : Option String
  pub api_keys : Option String
  pub allow_insecure_local_admin : Option String
  pub node_env : Option String

pub record Headers : Type 0 where
  pub x_api_key : Option String
  pub authorization : Option String

pub record Context : Type 0 where
  pub required_scope : Option String
  pub api_key_id : Option ℕ

pub record AuthFailure : Type 0 where
  pub status_code : ℕ
  pub error : String
  pub code : String
  pub remediation : String
  pub context : Option Context

pub data AuthResult : Type 0 where
  success : ActorPrincipal → AuthResult
  failure : AuthFailure → AuthResult

-- `value || fallback`.
abbrev text_or : Option String → String → String
text_or none fallback = fallback
text_or (some s) fallback = if non_empty s then s else fallback

unfoldable pub is_auth_required : Environment → Bool
is_auth_required env = to_lower (text_or env.auth_required "true") == "true"

abbrev pub is_production : Environment → Bool
is_production env = elim env.node_env [ none ↦ false | some e ↦ e == "production" ]

unfoldable pub is_insecure_local_admin_enabled : Environment → Bool
is_insecure_local_admin_enabled env =
    not (is_production env) && to_lower (text_or env.allow_insecure_local_admin "false") == "true"

scope_hint : Option String → String
scope_hint none = "."
scope_hint (some s) = concat ". Required scope: " (concat s ".")

unfoldable pub build_missing_api_key_remediation : Environment → Option String → String
unfolding scope_hint
build_missing_api_key_remediation env required =
    let base =
      concat "Provide x-api-key header or Authorization: Bearer <key>" (scope_hint required) in
    if not (is_auth_required env)
      && (not (is_insecure_local_admin_enabled env) && not (is_production env))
    then concat base
        " For local-only unauthenticated admin access during development, also set ALLOW_INSECURE_LOCAL_ADMIN=true."
    else base

-- A `Map` from keys to scopes, in insertion order.
abbrev pub EnvKeys : Type 0
EnvKeys = List (String × List String)

unfoldable pub set_key : String → List String → EnvKeys → EnvKeys
set_key k scopes [] = (k, scopes) ∷ []
set_key k scopes ((j, old) ∷ m) =
    let rest = (j, old) ∷ set_key k scopes m in if j == k then (j, scopes) ∷ m else rest

unfoldable pub get_key : String → EnvKeys → Option (List String)
get_key k [] = none
get_key k ((j, scopes) ∷ m) = let rest = get_key k m in if j == k then some scopes else rest

-- `[key, scopesRaw] = entry.split('=')`.
abbrev add_entry : List String → EnvKeys → EnvKeys
add_entry (key ∷ scopes_raw ∷ more) m =
    if non_empty (trim key) && non_empty scopes_raw
    then set_key (trim key) (distinct_from [] (split_trimmed b'|' scopes_raw)) m
    else m
add_entry _ m = m

add_entries : List String → EnvKeys → EnvKeys
add_entries [] m = m
add_entries (entry ∷ entries) m = add_entries entries (add_entry (split b'=' entry) m)

unfoldable pub parse_api_key_config : Option String → EnvKeys
unfolding add_entries
parse_api_key_config none = []
parse_api_key_config (some raw) =
    if non_empty raw then add_entries (split_trimmed b',' raw) [] else []

abbrev bearer : List String → Option String
bearer (scheme ∷ token ∷ more) =
    if to_lower scheme == "bearer" && non_empty token then some (trim token) else none
bearer _ = none

abbrev from_authorization : Option String → Option String
from_authorization none = none
from_authorization (some s) = bearer (split b' ' s)

unfoldable pub get_api_key : Headers → Option String
get_api_key headers = elim headers.x_api_key [
  | none ↦ from_authorization headers.authorization
  | some s ↦ if non_empty (trim s) then some (trim s) else from_authorization headers.authorization
]

unfoldable pub required_scope : String → String → String
required_scope method route_path =
    let upper_method = to_upper method in
    if starts_with route_path "/api/auth/keys"
      || (starts_with route_path "/api/webhooks"
          || (starts_with route_path "/api/ai/providers"
              || starts_with route_path "/api/workforce/agents"))
    then "admin"
    else if starts_with route_path "/ws/events"
    then "audit:read"
    else if starts_with route_path "/api/audit-logs" || starts_with route_path "/api/payments"
    then "audit:read"
    else if upper_method == "GET" || (upper_method == "HEAD" || upper_method == "OPTIONS")
    then "content:read"
    else "content:write"

abbrev auth_error : ℕ → String → String → String → Option Context → AuthFailure
auth_error status_code error code remediation context = record {
  status_code = status_code;
  error = error;
  code = code;
  remediation = remediation;
  context = context;
}

abbrev pub has_scope : List String → String → Bool
has_scope scopes required = includes scopes "admin" || includes scopes required

abbrev pub invalid_key : AuthFailure
invalid_key =
    auth_error 401 "Invalid API key" "AUTH_INVALID_API_KEY"
      "Use a valid API key configured in server environment." none

abbrev pub expired_key : ApiKey → AuthFailure
expired_key k =
    auth_error 401 "Expired API key" "AUTH_KEY_EXPIRED"
      "Rotate the API key and retry with a non-expired key."
      (some (record { required_scope = none; api_key_id = some k.id }))

unfoldable pub missing_key : Environment → Option String → AuthFailure
missing_key env required =
    auth_error 401 "Missing API key" "AUTH_MISSING_API_KEY"
      (build_missing_api_key_remediation env required) none

-- `typeof resolved.actorRef === 'number' ? resolved.actorRef : undefined`.
abbrev numeric_ref : ActorPrincipal → Option ℕ
numeric_ref p = elim p.actor_ref [ number n ↦ some n | text s ↦ none ]

abbrev pub insufficient_scope : ActorPrincipal → String → AuthFailure
insufficient_scope p required =
    auth_error 403 "Insufficient API key scope" "AUTH_INSUFFICIENT_SCOPE"
      (concat "Use an API key with scope '" (concat required "' or 'admin'."))
      (some (record { required_scope = some required; api_key_id = numeric_ref p }))

-- The key that a request shows, if it is not empty.
unfoldable pub shown_key : Headers → Option String
shown_key headers = elim (get_api_key headers) [
  | none ↦ none
  | some key ↦ if non_empty key then some key else none
]

abbrev pub without_key : Environment → Option String → AuthResult
without_key env required =
    if not (is_auth_required env) && is_insecure_local_admin_enabled env
    then success build_anonymous_local_principal
    else failure (missing_key env required)

abbrev pub check_scope : String → AuthResult × Keys → AuthResult × Keys
check_scope required (failure e, s) = (failure e, s)
check_scope required (success p, s) =
    if has_scope p.scopes required
    then (success p, s)
    else (failure (insufficient_scope p required), s)

module _ (hash_api_key : String → String) where
  unfoldable pub resolve_stored_key : ℕ → String → Keys → AuthResult × Keys
  resolve_stored_key now raw_key s = elim (get_api_key_by_hash (hash_api_key raw_key) s) [
    | none ↦ (failure invalid_key, s)
    | some k ↦ if is_key_expired now k then (failure (expired_key k), s) else (
      success (build_api_key_principal k.id k.domain_id (parse_scopes k.scopes)),
      touch_api_key_usage now k.id s,
    )
  ]

  unfoldable pub resolve_principal_from_key : ℕ → String → EnvKeys → Keys → AuthResult × Keys
  resolve_principal_from_key now raw_key env_keys s = elim (get_key raw_key env_keys) [
    | some scopes ↦ (success (build_env_key_principal (api_key_prefix raw_key) 1 scopes), s)
    | none ↦ resolve_stored_key now raw_key s
  ]

  unfoldable pub authorize_api_request :
      Environment → ℕ → String → String → Headers → Keys → AuthResult × Keys
  authorize_api_request env now method route_path headers s =
      let required = required_scope method route_path in
      elim (shown_key headers) [
        | none ↦ (without_key env (some required), s)
        | some key ↦
            check_scope required
              (resolve_principal_from_key now key (parse_api_key_config env.api_keys) s)
      ]

  unfoldable pub authenticate_api_request : Environment → ℕ → Headers → Keys → AuthResult × Keys
  authenticate_api_request env now headers s = elim (shown_key headers) [
    | none ↦ (without_key env none, s)
    | some key ↦ resolve_principal_from_key now key (parse_api_key_config env.api_keys) s
  ]
