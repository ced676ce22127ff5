-- ===== src/Access/Policy/Requests.antt =====
-- The policy on the contexts that src/services/policy-adapters.ts builds from principals.
use wordclaw.Shared.{
  to_upper, split, ◌&&◌, ◌||◌, ◌==◌, ℕ, String, ◌≡◌, refl, sym, ◌∙◌, ◌⊎◌, inl, inr, true, false,
  none, some, List, [], ◌∷◌, arith, includes, starts_with, string_eq, non_empty, by_branch,
}
use mathlib.Core.Option.{none-ne-some}
use wordclaw.Access.Identity.{
  build_api_key_principal, build_supervisor_principal, is_platform_admin_principal,
  as_principal_like, has_administrative_scope,
}
use wordclaw.Access.Policy.{
  OperationContext, Resource, allow, carrier, evaluate_sync, is_read, is_admin_operation,
}
use wordclaw.Access.Policy.Isolation.{evaluate_sync-allow, Permitted-allow, HasScopeFor}
use wordclaw.Access.Policy.Adapters.{
  as_auth_principal_data, with_domain, build_operation_context, is_access_path,
  resolve_rest_operation, resolve_rest_resource,
}

not_platform_admin :
    (c : OperationContext)
    → c.principal.source ≡ "db"
    → includes c.principal.scopes "tenant:admin" ≡ false
    → is_platform_admin_principal (carrier c.principal) ≡ false
unfolding is_platform_admin_principal
not_platform_admin c source h = rw h (rw source (ground arith))

module _ (n d : ℕ) (scopes : List String) (protocol operation : String) (r : Resource)
    (c : OperationContext)
    (e : build_operation_context protocol
        (some (as_auth_principal_data (build_api_key_principal n d scopes)))
        operation
        r
      ≡ some c) where
  api_key_context :
      (c.principal.source ≡ "db")
      × (c.principal.scopes ≡ scopes)
      × (c.principal.domain_id ≡ d)
      × (c.operation ≡ operation)
  unfolding build_operation_context as_auth_principal_data build_api_key_principal non_empty
  api_key_context = (ground arith, ground arith, ground arith, ground arith)

  api_key_resource : (r.domain_id ≡ none) ⊎ (c.resource.domain_id ≡ r.domain_id)
  unfolding build_operation_context as_auth_principal_data build_api_key_principal
  api_key_resource = ground arith

-- A stored API key without `tenant:admin` reaches no resource of another domain and no tenant
-- operation, whatever else its scopes hold: if the operation is allowed on the context that is built
-- from its principal, it is not a tenant operation, and the resource's domain is absent or its own.
pub api_key_isolation :
    (n d : ℕ) (scopes : List String) (protocol operation : String) (r : Resource)
    (c : OperationContext)
    → includes scopes "tenant:admin" ≡ false
    → build_operation_context protocol
        (some (as_auth_principal_data (build_api_key_principal n d scopes)))
        operation
        r
      ≡ some c
    → (evaluate_sync c).outcome ≡ allow
    → (starts_with operation "tenant." ≡ false) × ((r.domain_id ≡ none) ⊎ (r.domain_id ≡ some d))
api_key_isolation n d scopes protocol operation r c h e k =
    let (source, held, domain, op) = api_key_context n d scopes protocol operation r c e in
    let local = not_platform_admin c source (rw held h) in
    let p = evaluate_sync-allow c k in
    let own = api_key_resource n d scopes protocol operation r c e in
    ground (arith, p.tenant, p.isolated)

cookie_admin :
    (c : OperationContext)
    → c.principal.source ≡ "cookie"
    → c.principal.scopes ≡ "admin" ∷ []
    → (is_platform_admin_principal (carrier c.principal) ≡ true)
      × (has_administrative_scope (carrier c.principal) ≡ true)
unfolding is_platform_admin_principal has_administrative_scope
cookie_admin c source scopes = rw (source, scopes) (refl, refl)

-- A supervisor session bound to one domain is no platform administrator by its own principal, but the
-- context built from that principal drops the actor type, so the engine allows it every operation,
-- tenant operations included, on every resource that names a domain, whichever domain, id and content
-- type it has; the context is about that operation and that resource.
pub bound_supervisor_crosses :
    (n d foreign : ℕ) (protocol operation : String) (r : Resource) (c : OperationContext)
    → r.domain_id ≡ some foreign
    → build_operation_context protocol
        (some (as_auth_principal_data (build_supervisor_principal n d (some false))))
        operation
        r
      ≡ some c
    → (is_platform_admin_principal (as_principal_like (build_supervisor_principal n d (some false)))
        ≡ false)
      × (c.operation ≡ operation)
      × (c.resource ≡ r)
      × ((evaluate_sync c).outcome ≡ allow)
unfolding build_operation_context as_auth_principal_data build_supervisor_principal
    is_platform_admin_principal as_principal_like non_empty with_domain
bound_supervisor_crosses n d foreign protocol operation r c named e =
    let (platform, admin) = cookie_admin c (ground arith) (ground arith) in
    let same : c.resource ≡ r = ground (arith, named) in
    let known : c.resource.domain_id ≡ some foreign = rw same named in
    (
      refl,
      ground arith,
      same,
      Permitted-allow c (record {
        resolved = inr (λ absent. none-ne-some foreign (sym absent ∙ known));
        tenant = inr platform;
        isolated = inr (inr platform);
        entitled = inl admin;
      }),
    )

abbrev pub IsContentRead : String → Type 0
IsContentRead operation = (operation ≡ "content.read") ⊎ (operation ≡ "policy.read")

-- Of the operations outside auditing and administration, only content reads are reads.
record ReadsContent (operation : String) : Type 0 where
  reads :
      is_read operation ≡ true
      → starts_with operation "audit." ≡ false
      → starts_with operation "payment." ≡ false
      → is_admin_operation operation ≡ false
      → IsContentRead operation

rest_reads : (method route_path : String) → ReadsContent (resolve_rest_operation method route_path)
unfolding resolve_rest_operation is_read is_admin_operation
rest_reads method route_path =
    let upper = to_upper method in
    let get = upper == "GET" in
    let on = λ (prefix : String). starts_with route_path prefix in
    (by_branch ReadsContent (on "/api/onboard") (record { reads = λ h i j k. cc })
      (by_branch ReadsContent (on "/api/domains" && upper == "POST")
        (record { reads = λ h i j k. cc })
        (by_branch ReadsContent (on "/api/auth/keys")
          (by_branch ReadsContent get (record { reads = λ h i j k. cc })
            (record { reads = λ h i j k. cc }))
          (by_branch ReadsContent (on "/api/webhooks")
            (by_branch ReadsContent get (record { reads = λ h i j k. cc })
              (record { reads = λ h i j k. cc }))
            (by_branch ReadsContent (on "/api/ai/providers")
              (by_branch ReadsContent get (record { reads = λ h i j k. cc })
                (record { reads = λ h i j k. cc }))
              (by_branch ReadsContent (on "/api/workforce/agents")
                (by_branch ReadsContent get (record { reads = λ h i j k. cc })
                  (record { reads = λ h i j k. cc }))
                (by_branch ReadsContent (on "/ws/events" || on "/api/audit-logs")
                  (record { reads = λ h i j k. cc })
                  (by_branch ReadsContent (on "/api/payments") (record { reads = λ h i j k. cc })
                    (by_branch ReadsContent (is_access_path (split b'/' route_path))
                      (record { reads = λ h i j k. inl refl })
                      (by_branch ReadsContent (on "/api/policy/evaluate")
                        (record { reads = λ h i j k. inr refl })
                        (by_branch ReadsContent (on "/api/sandbox/mcp")
                          (record { reads = λ h i j k. inl refl })
                          (by_branch ReadsContent (get || upper == "HEAD" || upper == "OPTIONS")
                            (record { reads = λ h i j k. inl refl })
                            (record { reads = λ h i j k. cc })))))))))))))

-- A principal that holds `content:read` alone reads content.
read_scope :
    (c : OperationContext)
    → c.principal.source ≡ "db"
    → c.principal.scopes ≡ "content:read" ∷ []
    → HasScopeFor c.principal c.operation
    → (is_read c.operation ≡ true)
      × (starts_with c.operation "audit." ≡ false)
      × (starts_with c.operation "payment." ≡ false)
read_scope c source scopes (HasScopeFor.audits h k) = absurd (denies (rw scopes at k))
  where
    denies : includes {A = String} ("content:read" ∷ []) "audit:read" ≡ true → ⊥
    denies e = cc
read_scope c source scopes (HasScopeFor.reads h k l m) = (l, h, k)
read_scope c source scopes (HasScopeFor.writes h k l m) = absurd (denies (rw scopes at m))
  where
    denies : includes {A = String} ("content:read" ∷ []) "content:write" ≡ true → ⊥
    denies e = cc

no_admin :
    (c : OperationContext)
    → c.principal.scopes ≡ "content:read" ∷ []
    → has_administrative_scope (carrier c.principal) ≡ true
    → ⊥
unfolding has_administrative_scope
no_admin c scopes h = denies (rw scopes at h)
  where
    denies :
        has_administrative_scope (
            carrier
              (record { id = none; domain_id = 0; scopes = "content:read" ∷ []; source = "" }))
          ≡ true
        → ⊥
    denies e = cc

-- An API key whose only scope is `content:read` gets through the policy on a REST request only when
-- the request maps to reading content or to the policy check, whatever its method and path.
pub read_key_reads :
    (n d : ℕ) (method route_path : String) (c : OperationContext)
    → build_operation_context "rest"
        (some (as_auth_principal_data (build_api_key_principal n d ("content:read" ∷ []))))
        (resolve_rest_operation method route_path)
        (resolve_rest_resource route_path (some d))
      ≡ some c
    → (evaluate_sync c).outcome ≡ allow
    → IsContentRead (resolve_rest_operation method route_path)
read_key_reads n d method route_path c e k =
    let operation = resolve_rest_operation method route_path in
    let (source, held, domain, op) =
      api_key_context n d ("content:read" ∷ []) "rest" operation
        (resolve_rest_resource route_path (some d)) c e in
    let p = evaluate_sync-allow c k in
    elim p.entitled [
      | inl admin ↦ absurd (no_admin c held admin)
      | inr (plain, scoped) ↦
          let (reads, audits, pays) = read_scope c source held scoped in
          (rest_reads method route_path).reads (rw op at reads) (rw op at audits) (rw op at pays)
            (rw op at plain)
    ]
