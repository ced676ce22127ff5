-- ===== src/Access/Tests.antt =====
-- Runs of the access code, and its theorems at inputs that meet their hypotheses.
use wordclaw.Shared.{
  ◌≡◌, refl, ◌⊎◌, false, none, some, [], ◌∷◌, concat, decimal, starts_with, split, to_upper,
  non_empty,
}
use wordclaw.Access.Identity.{
  build_mcp_local_principal, build_anonymous_local_principal, to_audit_actor, principal,
  PrincipalLike, build_api_key_principal, build_supervisor_principal, resolve_actor_identity_ref,
  is_platform_admin_principal, as_principal_like, has_administrative_scope,
}
use wordclaw.Access.Identity.Resolution.{only_id, identity_round_trip}
use wordclaw.Access.Policy.{
  OperationContext, Resource, allow, evaluate_sync, is_read, scope_decision, is_admin_operation,
}
use wordclaw.Access.Policy.Adapters.{
  as_auth_principal_data, with_domain, build_operation_context, resolve_rest_operation,
  resolve_rest_resource,
}
use wordclaw.Access.Policy.Isolation.{Permitted, evaluate_sync-allow_iff}
use wordclaw.Access.Policy.Requests.{
  api_key_isolation, bound_supervisor_crosses, read_key_reads, IsContentRead,
}

abbrev item : Resource
item = record {
  resource_type = "content_item";
  id = some "4";
  domain_id = some 2;
  content_type_id = none;
}

abbrev read_context : OperationContext
read_context = record {
  principal = record {
    id = some "api_key:7";
    domain_id = 2;
    scopes = "content:read" ∷ [];
    source = "db";
  };
  operation = "content.read";
  resource = item;
  protocol = "rest";
}

policy_runs :
    ((evaluate_sync read_context).outcome ≡ allow)
    × ((evaluate_sync (record read_context { operation = "content.write" })).code
        ≡ "MISSING_CONTENT_WRITE_SCOPE")
unfolding evaluate_sync scope_decision is_admin_operation is_platform_admin_principal
    has_administrative_scope is_read
policy_runs = (refl, refl)

adapter_runs :
    (resolve_rest_operation "get" "/api/assets/9/access" ≡ "content.read")
    × (resolve_rest_operation "post" "/api/domains" ≡ "tenant.create")
    × ((resolve_rest_resource "/api/content-items/4" (some 2)) ≡ item)
unfolding resolve_rest_operation resolve_rest_resource split to_upper non_empty
adapter_runs = (refl, refl, refl)

evaluate_sync-allow_iff_example :
    ((evaluate_sync read_context).outcome ≡ allow → Permitted read_context)
    × (Permitted read_context → (evaluate_sync read_context).outcome ≡ allow)
evaluate_sync-allow_iff_example = evaluate_sync-allow_iff read_context

api_key_isolation_example :
    (starts_with "content.read" "tenant." ≡ false)
    × ((item.domain_id ≡ none) ⊎ (item.domain_id ≡ some 2))
unfolding build_operation_context as_auth_principal_data build_api_key_principal evaluate_sync
    scope_decision is_admin_operation is_platform_admin_principal has_administrative_scope is_read
    non_empty decimal
api_key_isolation_example =
    api_key_isolation 7 2 ("content:read" ∷ []) "rest" "content.read" item read_context refl refl
      refl

abbrev foreign_item : Resource
foreign_item = record item { domain_id = some 5; content_type_id = some "9" }

abbrev supervisor_context : OperationContext
supervisor_context = record {
  principal = record {
    id = some "supervisor:12";
    domain_id = 2;
    scopes = "admin" ∷ [];
    source = "cookie";
  };
  operation = "tenant.create";
  resource = foreign_item;
  protocol = "rest";
}

bound_supervisor_crosses_example :
    (is_platform_admin_principal (as_principal_like (build_supervisor_principal 12 2 (some false)))
      ≡ false)
    × (supervisor_context.operation ≡ "tenant.create")
    × (supervisor_context.resource ≡ foreign_item)
    × ((evaluate_sync supervisor_context).outcome ≡ allow)
unfolding build_operation_context as_auth_principal_data build_supervisor_principal non_empty
    decimal with_domain
bound_supervisor_crosses_example =
    bound_supervisor_crosses 12 2 5 "rest" "tenant.create" foreign_item supervisor_context refl refl

read_key_reads_example : IsContentRead (resolve_rest_operation "GET" "/api/content-items/4")
unfolding build_operation_context as_auth_principal_data build_api_key_principal evaluate_sync
    scope_decision is_admin_operation is_platform_admin_principal has_administrative_scope is_read
    non_empty decimal resolve_rest_operation resolve_rest_resource split to_upper
read_key_reads_example = read_key_reads 7 2 "GET" "/api/content-items/4" read_context refl refl

identity_round_trip_example :
    let key = build_api_key_principal 7 2 ("admin" ∷ []) in
    let supervisor = build_supervisor_principal 7 2 none in
    let mcp = build_mcp_local_principal 2 in
    let anonymous = build_anonymous_local_principal in
    (resolve_actor_identity_ref (some key.identity.actor_id) ≡ some key.identity)
    × (resolve_actor_identity_ref (some (decimal 7)) ≡ some key.identity)
    × (resolve_actor_identity_ref (some supervisor.identity.actor_id) ≡ some supervisor.identity)
    × (resolve_actor_identity_ref (some mcp.identity.actor_id) ≡ some mcp.identity)
    × (resolve_actor_identity_ref (some anonymous.identity.actor_id) ≡ some anonymous.identity)
    × (to_audit_actor (some (principal (only_id key.identity.actor_id)))
        ≡ some (record { identity = key.identity; user_id = some 7 }))
identity_round_trip_example = identity_round_trip 7 2 ("admin" ∷ []) none

abbrev stored : PrincipalLike
stored = record {
  actor_id = some (concat "api_key:" (decimal 42));
  actor_type = none;
  actor_source = none;
  actor_ref = none;
  source = none;
  scopes = none;
  assignment_refs = none;
}
