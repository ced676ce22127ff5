-- ===== src/Access/Policy/Degraded.antt =====
-- What src/services/policy.ts lets through when its evaluation fails.
use wordclaw.Shared.{String, ◌≡◌, Bool, true, ◌||◌, List, [], ◌∷◌, string_eq, split}
use wordclaw.Access.Auth.Required.{IsReading, is_under, reads_by}
use wordclaw.Access.Policy.{is_read}
use wordclaw.Access.Policy.Adapters.{is_access_path}

-- The paths that are read whatever the method.
abbrev pub degraded_paths : List String
degraded_paths =
    "/ws/events" ∷ "/api/audit-logs" ∷ "/api/payments" ∷ "/api/policy/evaluate" ∷ "/api/sandbox/mcp"
    ∷ []

-- A request that a failing evaluation lets through.
pub data MayPass (method route_path : String) : Type 0 where
  reading : IsReading method → MayPass method route_path
  listed : is_under route_path degraded_paths ≡ true → MayPass method route_path
  asset_access : is_access_path (split b'/' route_path) ≡ true → MayPass method route_path

abbrev may_pass : String → String → Bool
may_pass method route_path =
    reads_by method
    || (is_under route_path degraded_paths || is_access_path (split b'/' route_path))

-- The operation is no read, unless the request may pass.
abbrev Reads : String → String → String → Type 0
Reads method route_path operation = is_read operation ≡ true → may_pass method route_path ≡ true
