-- ===== src/Access/Policy/Adapters.antt =====
-- src/services/policy-adapters.ts: from a request to the context that the policy engine judges.
use wordclaw.Shared.{
  ℕ, zero, suc, String, Bool, false, ◌&&◌, ◌||◌, Option, none, some, List, [], ◌∷◌, if◌then◌else◌,
  ◌==◌, ◌/=◌, string_eq, starts_with, non_empty, or_else, keep, decimal, split, to_upper,
}
use wordclaw.Access.Identity.{ActorRef, number, text, ActorPrincipal}
use wordclaw.Access.Policy.{OperationContext, Resource}

-- `AuthPrincipalData`: the fields that `buildOperationContext` reads.
pub record AuthPrincipalData : Type 0 where
  pub actor_ref : Option ActorRef
  pub domain_id : Option ℕ
  pub scopes : Option (List String)
  pub source : Option String
  pub actor_id : Option String
  pub actor_source : Option String

unfoldable pub as_auth_principal_data : ActorPrincipal → AuthPrincipalData
as_auth_principal_data p = record {
  actor_ref = some p.actor_ref;
  domain_id = some p.domain_id;
  scopes = some p.scopes;
  source = some p.source;
  actor_id = some p.identity.actor_id;
  actor_source = some p.identity.actor_source;
}

-- `a || b` on a text that may be absent.
abbrev pub or_text : Option String → String → String
or_text none b = b
or_text (some a) b = if non_empty a then a else b

abbrev pub ref_to_string : Option ActorRef → Option String
ref_to_string none = none
ref_to_string (some (number n)) = some (decimal n)
ref_to_string (some (text s)) = some s

unfoldable pub requires_domain_context : String → Bool
requires_domain_context resource_type = resource_type /= "system"

-- A resource without a domain takes the principal's, unless it is the system.
unfoldable pub with_domain : Resource → Option ℕ → ℕ → Resource
unfolding requires_domain_context
with_domain resource none domain_id =
    if requires_domain_context resource.resource_type
    then record resource { domain_id = some domain_id }
    else resource
with_domain resource (some d) domain_id = resource

-- `none` is the exception for a principal without a domain.
unfoldable pub build_operation_context :
    String → Option AuthPrincipalData → String → Resource → Option OperationContext
unfolding with_domain
build_operation_context protocol none operation resource = none
build_operation_context protocol (some p) operation resource = elim p.domain_id [
  | none ↦ none
  | some domain_id ↦ some (record {
    principal = record {
      id = some (or_text p.actor_id (or_text (ref_to_string p.actor_ref) "anonymous"));
      domain_id = domain_id;
      scopes = or_else p.scopes [];
      source = or_text p.actor_source (or_text p.source "anonymous");
    };
    operation = operation;
    resource = with_domain resource resource.domain_id domain_id;
    protocol = protocol;
  })
]

abbrev pub is_access_path : List String → Bool
is_access_path (a ∷ b ∷ c ∷ d ∷ e ∷ []) =
    a == "" && b == "api" && c == "assets" && non_empty d && e == "access"
is_access_path _ = false

-- The tests of `resolveRestOperation`, in its order; `is_access_path` is its regular expression.
unfoldable pub resolve_rest_operation : String → String → String
resolve_rest_operation method route_path =
    let upper_method = to_upper method in
    let get = upper_method == "GET" in
    if starts_with route_path "/api/onboard"
    then "tenant.onboard"
    else if starts_with route_path "/api/domains" && upper_method == "POST"
    then "tenant.create"
    else if starts_with route_path "/api/auth/keys"
    then (if get then "apikey.list" else "apikey.write")
    else if starts_with route_path "/api/webhooks"
    then (if get then "webhook.list" else "webhook.write")
    else if starts_with route_path "/api/ai/providers"
    then (if get then "ai_provider.list" else "ai_provider.write")
    else if starts_with route_path "/api/workforce/agents"
    then (if get then "workforce.list" else "workforce.write")
    else if starts_with route_path "/ws/events" || starts_with route_path "/api/audit-logs"
    then "audit.read"
    else if starts_with route_path "/api/payments"
    then "payment.read"
    else if is_access_path (split b'/' route_path)
    then "content.read"
    else if starts_with route_path "/api/policy/evaluate"
    then "policy.read"
    else if starts_with route_path "/api/sandbox/mcp"
    then "content.read"
    else if get || upper_method == "HEAD" || upper_method == "OPTIONS"
    then "content.read"
    else "content.write"

abbrev nth : List String → ℕ → Option String
nth [] n = none
nth (s ∷ segments) zero = some s
nth (s ∷ segments) (suc n) = nth segments n

abbrev resource_of : String → Option String → Option ℕ → Resource
resource_of t id domain_id = record {
  resource_type = t;
  id = id;
  domain_id = domain_id;
  content_type_id = none;
}

-- The resource of the path's second segment, its third the id.
resource_of_segment : Option String → Option String → Option ℕ → Resource
resource_of_segment none id domain_id = resource_of "system" none none
resource_of_segment (some s) id domain_id =
    if s == "content-types" || s == "globals"
    then resource_of "content_type" id domain_id
    else if s == "content-items"
    then resource_of "content_item" id domain_id
    else if s == "assets"
    then resource_of "asset" id domain_id
    else if s == "agent-runs"
    then resource_of "agent_run" id domain_id
    else if s == "agent-run-definitions"
    then resource_of "agent_run_definition" id domain_id
    else resource_of "system" none none

unfoldable pub resolve_rest_resource : String → Option ℕ → Resource
unfolding resource_of_segment
resolve_rest_resource route_path domain_id =
    let segments = keep non_empty (split b'/' route_path) in
    resource_of_segment (nth segments 1) (nth segments 2) domain_id
