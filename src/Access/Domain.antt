-- ===== src/Access/Domain.antt =====
-- src/api/domain-context.ts: the domain that a supervisor's header names, and `getDomainId` of
-- src/api/auth.ts, which reads the domain of a request's context.
use wordclaw.Shared.{
  ℕ, String, concat, Option, none, some, List, [], ◌∷◌, if◌then◌else◌, trim, non_empty,
  parse_positive, decimal,
}

-- A header that is absent, stands once, or stands several times.
pub data Header : Type 0 where
  absent : Header
  one : String → Header
  several : List String → Header

unfoldable pub header_value : Header → Option String
header_value absent = none
header_value (one s) = some s
header_value (several []) = none
header_value (several (s ∷ ss)) = some s

pub record Refusal : Type 0 where
  pub status_code : ℕ
  pub error : String
  pub code : String
  pub remediation : String

abbrev pub invalid_domain_context : Refusal
invalid_domain_context = record {
  status_code = 400;
  error = "Invalid domain context";
  code = "INVALID_DOMAIN_CONTEXT";
  remediation = "Provide x-wordclaw-domain header with a positive integer domain ID.";
}

pub data OptionalDomain : Type 0 where
  not_provided : OptionalDomain
  provided : ℕ → OptionalDomain
  refused : Refusal → OptionalDomain

unfoldable pub parse_optional_supervisor_domain_header : Header → OptionalDomain
parse_optional_supervisor_domain_header h = elim (header_value h) [
  | none ↦ not_provided
  | some s ↦
      if non_empty (trim s)
      then elim (parse_positive (trim s)) [
        | none ↦ refused invalid_domain_context
        | some d ↦ provided d
      ]
      else not_provided
]

pub data DomainResult : Type 0 where
  domain : ℕ → DomainResult
  no_domain : Refusal → DomainResult

unfoldable pub parse_supervisor_domain_header : Header → DomainResult
parse_supervisor_domain_header h = elim (parse_optional_supervisor_domain_header h) [
  | refused r ↦ no_domain r
  | not_provided ↦ no_domain invalid_domain_context
  | provided d ↦ domain d
]

unfoldable pub supervisor_domain_scope_mismatch : ℕ → Refusal
supervisor_domain_scope_mismatch expected = record {
  status_code = 403;
  error = "Supervisor domain scope mismatch";
  code = "SUPERVISOR_DOMAIN_SCOPE_MISMATCH";
  remediation =
      concat "Use x-wordclaw-domain: "
        (concat (decimal expected) " or sign in with a platform-scoped supervisor session.");
}

-- The domain ids that a request's context carries as numbers.
pub record RequestContext : Type 0 where
  pub domain_id : Option ℕ
  pub principal : Option ℕ
  pub auth_principal : Option ℕ

-- `none` is the error 401 UNAUTHENTICATED.
unfoldable pub get_domain_id : Option RequestContext → Option ℕ
get_domain_id none = none
get_domain_id (some c) = elim c.domain_id [
  | some d ↦ some d
  | none ↦ elim c.principal [ some d ↦ some d | none ↦ c.auth_principal ]
]
