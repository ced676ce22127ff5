-- ===== src/Access/KeyTests.antt =====
-- Keys of src/services/api-key.ts and requests of src/api/auth.ts at concrete inputs. The hash is the text itself.
use wordclaw.Shared.{
  ◌↔◌, String, ◌≡◌, refl, parse_positive, true, none, some, List, [], ◌∷◌, arith, trim, non_empty,
  split, split_trimmed, trimmed_pieces, to_lower,
}
use wordclaw.Access.Keys.{
  ApiKey, Keys, CreateApiKeyInput, parse_scopes, join_scopes, normalize_scopes, valid_scopes,
  distinct_from, get_api_key_by_hash, is_key_expired, revoke_api_key, rotate_api_key, rotated,
  successor, api_key_prefix,
}
use wordclaw.Access.Keys.Scopes.{parse_scopes-serialized}
use wordclaw.Access.Keys.History.{KeyOp, create, use_key, rotate, apply_ops}
use wordclaw.Access.Auth.{
  Environment, Headers, failure, invalid_key, expired_key, shown_key, get_api_key, get_key, set_key,
  parse_api_key_config, resolve_stored_key, authorize_api_request,
}
use wordclaw.Access.Auth.Grants.{revoked_key_refused, rotated_expired}
use wordclaw.Access.Auth.Granted.{is_granted, Grants, authorize_api_request-granted}
use wordclaw.Access.Domain.{
  several, provided, parse_optional_supervisor_domain_header, header_value,
}

abbrev hash : String → String
hash s = s

abbrev a_key : ApiKey
a_key = record {
  id = 4;
  domain_id = 2;
  name = "reader";
  key_prefix = "wcak_1";
  key_hash = "wcak_1";
  scopes = "content:read|audit:read";
  created_by = none;
  created_at = 10;
  expires_at = some 100;
  revoked_at = none;
  last_used_at = none;
}

abbrev keys : Keys
keys = record { rows = a_key ∷ []; next_id = 5 }

abbrev input : CreateApiKeyInput
input = record {
  domain_id = 2;
  name = "writer";
  scopes = " content:write" ∷ "admin" ∷ "admin" ∷ [];
  created_by = none;
  expires_at = none;
}

abbrev env : Environment
env = record {
  auth_required = none;
  api_keys = some "local=admin|content:read, other = audit:read";
  allow_insecure_local_admin = none;
  node_env = some "production";
}

abbrev headers : Headers
headers = record { x_api_key = none; authorization = some "Bearer wcak_1" }

input_scopes : normalize_scopes input.scopes ≡ valid_scopes ("content:write" ∷ "admin" ∷ [])
unfolding normalize_scopes distinct_from trimmed_pieces trim non_empty
input_scopes = refl

found : get_api_key_by_hash "wcak_1" keys ≡ some a_key
unfolding get_api_key_by_hash
found = refl

shown : shown_key headers ≡ some "wcak_1"
unfolding shown_key get_api_key split trim non_empty to_lower
shown = refl

stored : get_key "wcak_1" (parse_api_key_config env.api_keys) ≡ none
unfolding get_key parse_api_key_config split_trimmed split trim non_empty trimmed_pieces
    distinct_from set_key
stored = refl

expired : is_key_expired 100 a_key ≡ true
unfolding is_key_expired
expired = refl

abbrev next_key : ApiKey
next_key = record a_key {
  id = 5;
  name = "reader (rotated)";
  key_prefix = "wcak_2";
  key_hash = "wcak_2";
  created_at = 100;
}

rotation : rotate_api_key hash 100 "wcak_2" 4 2 none keys ≡ (
  rotated a_key next_key "wcak_2",
  record { rows = record a_key { revoked_at = some 100 } ∷ next_key ∷ []; next_id = 6 },
)
unfolding rotate_api_key successor api_key_prefix
rotation = refl

abbrev later_ops : List KeyOp
later_ops =
    create 20 "wcak_1" input
    ∷ rotate 30 "wcak_3" 4 2 none
    ∷ use_key 40 4
    ∷ create 50 "wcak_4" input
    ∷ []

parse_scopes-serialized_example :
    parse_scopes (join_scopes ("content:write" ∷ "admin" ∷ [])) ≡ "content:write" ∷ "admin" ∷ []
parse_scopes-serialized_example =
    parse_scopes-serialized input.scopes ("content:write" ∷ "admin" ∷ []) input_scopes

authorize_api_request-granted_example :
    (is_granted (authorize_api_request hash env 50 "GET" "/api/audit-logs" headers keys).0 ≡ true)
    ↔ Grants "wcak_1" 50 "GET" "/api/audit-logs" keys
authorize_api_request-granted_example =
    authorize_api_request-granted hash env 50 "GET" "/api/audit-logs" headers "wcak_1" keys shown
      stored (tt, tt)

revoked_key_refused_example :
    authorize_api_request hash env 60 "GET" "/api/content-items" headers
      (apply_ops hash later_ops (revoke_api_key 15 4 2 keys).1)
    ≡ (failure invalid_key, apply_ops hash later_ops (revoke_api_key 15 4 2 keys).1)
revoked_key_refused_example =
    revoked_key_refused hash env 15 60 "GET" "/api/content-items" headers "wcak_1" keys later_ops
      a_key shown stored (tt, tt) found

rotated_expired_example :
    resolve_stored_key hash 120 "wcak_2"
      (record { rows = record a_key { revoked_at = some 100 } ∷ next_key ∷ []; next_id = 6 })
    ≡ (
      failure (expired_key next_key),
      record { rows = record a_key { revoked_at = some 100 } ∷ next_key ∷ []; next_id = 6 },
    )
rotated_expired_example =
    rotated_expired hash 100 120 4 2 "wcak_2" "wcak_2" none keys
      (record { rows = record a_key { revoked_at = some 100 } ∷ next_key ∷ []; next_id = 6 }) a_key
      next_key rotation expired (omega arith)

-- A header that stands twice counts by its first value, and a number may be followed by other text.
domain_header :
    parse_optional_supervisor_domain_header (several (" 12 tenants" ∷ "7" ∷ [])) ≡ provided 12
unfolding parse_optional_supervisor_domain_header header_value parse_positive trim non_empty
domain_header = refl
