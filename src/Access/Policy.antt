-- ===== src/Access/Policy.antt =====
-- src/services/policy.ts and src/services/policy-adapters.ts: the policy engine, and the contexts
-- that the transports build for it. Clocks are left out: the decision does not read them, and the
-- duration of a log row is an argument.
pub mod Isolation
pub mod Degraded
pub mod Adapters
pub mod Requests
use wordclaw.Shared.{
  ℕ, String, Bool, true, false, not, ◌&&◌, ◌||◌, Option, none, some, List, [], ◌∷◌, if◌then◌else◌,
  ◌==◌, ◌/=◌, nat_eq, string_eq, includes, starts_with, ends_with,
}
use wordclaw.Access.Identity.{
  PrincipalLike, has_administrative_scope, is_platform_admin_principal, normalize_principal_scopes,
}

pub record ContextPrincipal : Type 0 where
  pub id : Option String
  pub domain_id : ℕ
  pub scopes : List String
  pub source : String

pub record Resource : Type 0 where
  pub resource_type : String
  pub id : Option String
  pub domain_id : Option ℕ
  pub content_type_id : Option String

pub record OperationContext : Type 0 where
  pub principal : ContextPrincipal
  pub operation : String
  pub resource : Resource
  pub protocol : String

pub data Outcome : Type 0 where
  allow deny challenge : Outcome

-- The remediation text is fixed by the code, and is left out, as is the constant policy version.
pub record PolicyDecision : Type 0 where
  pub outcome : Outcome
  pub code : String

abbrev denied : String → PolicyDecision
denied code = record { outcome = deny; code = code }

abbrev allowed : String → PolicyDecision
allowed code = record { outcome = allow; code = code }

-- What the principal tests of `actor-identity.ts` see of a context's principal.
abbrev pub carrier : ContextPrincipal → PrincipalLike
carrier p = record {
  actor_id = none;
  actor_type = none;
  actor_source = none;
  actor_ref = none;
  source = some p.source;
  scopes = some p.scopes;
  assignment_refs = none;
}

-- `operation.endsWith('.read') || operation.endsWith('.list')`.
unfoldable pub is_read : String → Bool
unfolding ends_with
is_read operation = ends_with operation ".read" || ends_with operation ".list"

-- `resource.domainId !== undefined && resource.domainId !== principal.domainId`.
abbrev pub is_foreign : Option ℕ → ℕ → Bool
is_foreign none domain_id = false
is_foreign (some d) domain_id = d /= domain_id

abbrev is_absent : Option ℕ → Bool
is_absent none = true
is_absent (some d) = false

-- Operations that only administrators may run.
unfoldable pub is_admin_operation : String → Bool
is_admin_operation operation =
    starts_with operation "apikey."
    || starts_with operation "webhook."
    || starts_with operation "ai_provider."
    || starts_with operation "workforce."

-- The fallbacks on scopes.
unfoldable pub scope_decision : String → List String → PolicyDecision
unfolding is_read
scope_decision operation scopes =
    if starts_with operation "audit." || starts_with operation "payment."
    then (if includes scopes "audit:read"
        then allowed "ALLOWED_SCOPE_MATCH"
        else denied "MISSING_AUDIT_SCOPE")
    else if is_read operation
    then (if not (includes scopes "content:read") && not (includes scopes "content:write")
        then denied "MISSING_CONTENT_READ_SCOPE"
        else allowed "ALLOWED_SCOPE_MATCH")
    else if not (includes scopes "content:write")
    then denied "MISSING_CONTENT_WRITE_SCOPE"
    else allowed "ALLOWED_SCOPE_MATCH"

unfoldable pub evaluate_sync : OperationContext → PolicyDecision
evaluate_sync context =
    if resource.resource_type /= "system" && is_absent resource.domain_id
    then denied "POLICY_RESOURCE_DOMAIN_UNRESOLVED"
    else if starts_with operation "tenant." && not (is_platform_admin_principal (carrier principal))
    then denied "PLATFORM_ADMIN_REQUIRED"
    else if is_foreign resource.domain_id principal.domain_id
        && not (is_platform_admin_principal (carrier principal))
    then denied "TENANT_ISOLATION_VIOLATION"
    else if has_administrative_scope (carrier principal)
    then allowed "ALLOWED_ADMIN"
    else if is_admin_operation operation
    then denied "ADMIN_REQUIRED"
    else scope_decision operation principal.scopes
  where
    open context use {principal, operation, resource}

-- The handler of the `catch` around the evaluation.
unfoldable pub on_evaluation_error : OperationContext → PolicyDecision
unfolding is_read
on_evaluation_error context =
    if is_read context.operation
    then allowed "POLICY_EVALUATION_FAILED_READ_DEGRADED"
    else denied "POLICY_EVALUATION_FAILED_MUTATION"

pub record DecisionLog : Type 0 where
  pub principal_id : Option String
  pub operation : String
  pub resource_type : String
  pub resource_id : Option String
  pub environment : String
  pub outcome : Outcome
  pub evaluation_duration_ms : ℕ

-- The row that `logDecision` inserts, none under `NODE_ENV=test`.
unfoldable pub log_decision : Bool → OperationContext → PolicyDecision → ℕ → Option DecisionLog
log_decision true context decision duration_ms = none
log_decision false context decision duration_ms = some (record {
  principal_id = context.principal.id;
  operation = context.operation;
  resource_type = context.resource.resource_type;
  resource_id = context.resource.id;
  environment = context.protocol;
  outcome = decision.outcome;
  evaluation_duration_ms = duration_ms;
})

-- `evaluate`, with whether the evaluation throws and how long it takes as arguments.
unfoldable pub evaluate : Bool → Bool → ℕ → OperationContext → PolicyDecision × Option DecisionLog
unfolding on_evaluation_error log_decision
evaluate test_env throws duration_ms context =
    let decision : PolicyDecision =
      if throws then on_evaluation_error context else evaluate_sync context in
    (decision, log_decision test_env context decision duration_ms)
