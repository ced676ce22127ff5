-- ===== src/Access/Policy/Isolation.antt =====
-- What src/services/policy.ts guarantees, by itself and on the contexts that requests build.
use wordclaw.Shared.{
  String, ◌≡◌, ◌≢◌, ◌↔◌, ◌⊎◌, inl, inr, true, false, none, some, arith, eq_iff, Bool-cases,
  includes, starts_with, string_eq,
}
use wordclaw.Access.Identity.{has_administrative_scope, is_platform_admin_principal}
use wordclaw.Access.Policy.{
  OperationContext, ContextPrincipal, allow, carrier, is_read, is_admin_operation, scope_decision,
  evaluate_sync,
}

abbrev pub Holds : ContextPrincipal → String → Type 0
Holds p scope = includes p.scopes scope ≡ true

-- The scopes that let a principal without administrative scope run an operation.
pub data HasScopeFor (p : ContextPrincipal) (operation : String) : Type 0 where
  audits :
      (starts_with operation "audit." ≡ true) ⊎ (starts_with operation "payment." ≡ true)
      → Holds p "audit:read"
      → HasScopeFor p operation
  reads :
      starts_with operation "audit." ≡ false
      → starts_with operation "payment." ≡ false
      → is_read operation ≡ true
      → Holds p "content:read" ⊎ Holds p "content:write"
      → HasScopeFor p operation
  writes :
      starts_with operation "audit." ≡ false
      → starts_with operation "payment." ≡ false
      → is_read operation ≡ false
      → Holds p "content:write"
      → HasScopeFor p operation

-- Who may do what: the declarative reading of the policy.
pub record Permitted (c : OperationContext) : Type 0 where
  pub resolved : (c.resource.resource_type ≡ "system") ⊎ (c.resource.domain_id ≢ none)
  pub tenant :
      (starts_with c.operation "tenant." ≡ false)
      ⊎ (is_platform_admin_principal (carrier c.principal) ≡ true)
  pub isolated :
      (c.resource.domain_id ≡ none)
      ⊎ (c.resource.domain_id ≡ some c.principal.domain_id)
      ⊎ (is_platform_admin_principal (carrier c.principal) ≡ true)
  pub entitled :
      (has_administrative_scope (carrier c.principal) ≡ true)
      ⊎ ((is_admin_operation c.operation ≡ false) × HasScopeFor c.principal c.operation)

scope_decision-allow :
    (p : ContextPrincipal) (operation : String)
    → (scope_decision operation p.scopes).outcome ≡ allow
    → HasScopeFor p operation
unfolding scope_decision
scope_decision-allow p operation h =
    grind (arith, HasScopeFor.audits, HasScopeFor.reads, HasScopeFor.writes)

HasScopeFor-allow :
    (p : ContextPrincipal) (operation : String)
    → HasScopeFor p operation
    → (scope_decision operation p.scopes).outcome ≡ allow
unfolding scope_decision
HasScopeFor-allow p operation (HasScopeFor.audits h k) = ground arith
HasScopeFor-allow p operation (HasScopeFor.reads h k l m) = ground arith
HasScopeFor-allow p operation (HasScopeFor.writes h k l m) = ground arith

pub evaluate_sync-allow : (c : OperationContext) → (evaluate_sync c).outcome ≡ allow → Permitted c
unfolding evaluate_sync
evaluate_sync-allow c h = record {
  resolved = ground (arith, eq_iff c.resource.resource_type "system");
  tenant = ground arith;
  isolated = ground arith;
  entitled = elim (Bool-cases (has_administrative_scope (carrier c.principal))) [
    | inl admin ↦ inl admin
    | inr other ↦ inr (ground arith, scope_decision-allow c.principal c.operation (ground arith))
  ];
}

pub Permitted-allow : (c : OperationContext) → Permitted c → (evaluate_sync c).outcome ≡ allow
unfolding evaluate_sync
Permitted-allow c h = elim h.entitled [
  | inl admin ↦ ground (arith, eq_iff c.resource.resource_type "system")
  | inr (other, scoped) ↦ ground (
    arith,
    eq_iff c.resource.resource_type "system",
    HasScopeFor-allow c.principal c.operation scoped,
  )
]

-- `evaluate_sync` allows an operation exactly when the declarative policy permits it.
pub evaluate_sync-allow_iff :
    (c : OperationContext) → ((evaluate_sync c).outcome ≡ allow) ↔ Permitted c
evaluate_sync-allow_iff c = (evaluate_sync-allow c, Permitted-allow c)
