-- ===== src/Access/Identity.antt =====
-- src/services/actor-identity.ts: actors, the principals that requests carry, and audit identities.
-- A `Set` of strings is a list without repetitions, in insertion order; an absent field is `none`.
pub mod Resolution
pub mod Assignment
use wordclaw.Shared.{
  ℕ, String, concat, Bool, true, false, not, ◌&&◌, ◌||◌, Option, none, some, List, [], ◌∷◌, ◌++◌,
  if◌then◌else◌, ◌==◌, ◌/=◌, string_eq, or_opt, or_else, leb, includes, starts_with, trim,
  non_empty, non_blank, decimal, is_digits, read_decimal, drop_text,
}

pub record ActorIdentity : Type 0 where
  pub actor_id : String
  pub actor_type : String
  pub actor_source : String

-- `number | string`.
pub data ActorRef : Type 0 where
  number : ℕ → ActorRef
  text : String → ActorRef

pub record ActorPrincipal : Type 0 where
  pub identity : ActorIdentity
  pub open identity use *
  pub actor_ref : ActorRef
  pub domain_id : ℕ
  pub scopes : List String
  pub source : String

-- The partial principals: `PrincipalLike`, `PrincipalScopeCarrier` and the argument of
-- `buildActorAssignmentRefs` in one record.
pub record PrincipalLike : Type 0 where
  pub actor_id : Option String
  pub actor_type : Option String
  pub actor_source : Option String
  pub actor_ref : Option ActorRef
  pub source : Option String
  pub scopes : Option (List String)
  pub assignment_refs : Option (List String)

-- A whole principal where a partial one is expected.
unfoldable pub as_principal_like : ActorPrincipal → PrincipalLike
as_principal_like p = record {
  actor_id = some p.identity.actor_id;
  actor_type = some p.identity.actor_type;
  actor_source = some p.identity.actor_source;
  actor_ref = some p.actor_ref;
  source = some p.source;
  scopes = some p.scopes;
  assignment_refs = none;
}

unfoldable pub normalize_principal_scopes : Option (List String) → List String
normalize_principal_scopes scopes = or_else scopes []

unfoldable pub has_administrative_scope : PrincipalLike → Bool
unfolding normalize_principal_scopes
has_administrative_scope p =
    let scopes = normalize_principal_scopes p.scopes in
    includes scopes "admin" || includes scopes "tenant:admin"

abbrev pub opt_is : Option String → String → Bool
opt_is none s = false
opt_is (some t) s = t == s

unfoldable pub is_platform_admin_principal : PrincipalLike → Bool
unfolding normalize_principal_scopes
is_platform_admin_principal p =
    let scopes = normalize_principal_scopes p.scopes in
    let actor_source = or_opt p.actor_source p.source in
    if includes scopes "tenant:admin"
    then true
    else if opt_is p.actor_type "supervisor"
    then false
    else includes scopes "admin" && not (opt_is actor_source "db")

unfoldable pub build_api_key_principal : ℕ → ℕ → List String → ActorPrincipal
build_api_key_principal api_key_id domain_id scopes = record {
  identity = record {
    actor_id = concat "api_key:" (decimal api_key_id);
    actor_type = "api_key";
    actor_source = "db";
  };
  actor_ref = number api_key_id;
  domain_id = domain_id;
  scopes = scopes;
  source = "db";
}

unfoldable pub build_env_key_principal : String → ℕ → List String → ActorPrincipal
build_env_key_principal key_fragment domain_id scopes =
    let normalized_key = if non_empty (trim key_fragment) then trim key_fragment else "env" in
    record {
      identity = record {
        actor_id = concat "env_key:" normalized_key;
        actor_type = "env_key";
        actor_source = "env";
      };
      actor_ref = text normalized_key;
      domain_id = domain_id;
      scopes = scopes;
      source = "env";
    }

unfoldable pub build_anonymous_local_principal : ActorPrincipal
build_anonymous_local_principal = record {
  identity = record {
    actor_id = "anonymous";
    actor_type = "anonymous";
    actor_source = "anonymous";
  };
  actor_ref = text "anonymous";
  domain_id = 1;
  scopes = "admin" ∷ [];
  source = "anonymous";
}

-- The option is absent, or says whether the supervisor administers the platform.
unfoldable pub build_supervisor_principal : ℕ → ℕ → Option Bool → ActorPrincipal
build_supervisor_principal supervisor_id domain_id platform_admin =
    let scopes : List String = elim platform_admin [
      | some false ↦ "admin" ∷ []
      | _ ↦ "admin" ∷ "tenant:admin" ∷ []
    ] in
    record {
      identity = record {
        actor_id = concat "supervisor:" (decimal supervisor_id);
        actor_type = "supervisor";
        actor_source = "cookie";
      };
      actor_ref = text (concat "supervisor:" (decimal supervisor_id));
      domain_id = domain_id;
      scopes = scopes;
      source = "cookie";
    }

unfoldable pub build_mcp_local_principal : ℕ → ActorPrincipal
build_mcp_local_principal domain_id = record {
  identity = record { actor_id = "mcp-local"; actor_type = "mcp"; actor_source = "local" };
  actor_ref = text "mcp-local";
  domain_id = domain_id;
  scopes = "admin" ∷ [];
  source = "local";
}

abbrev identity_of : String → String → String → Option ActorIdentity
identity_of i t s = some (record { actor_id = i; actor_type = t; actor_source = s })

-- The branches of `resolveActorIdentityRef` on the trimmed text.
resolve_normalized_ref : String → Option ActorIdentity
resolve_normalized_ref normalized =
    if not (non_empty normalized)
    then none
    else if is_digits normalized
    then identity_of (concat "api_key:" normalized) "api_key" "db"
    else if normalized == "anonymous"
    then identity_of "anonymous" "anonymous" "anonymous"
    else if normalized == "mcp-local"
    then identity_of "mcp-local" "mcp" "local"
    else if normalized == "system"
    then identity_of "system" "system" "system"
    else if starts_with normalized "api_key:"
    then identity_of normalized "api_key" "db"
    else if starts_with normalized "env_key:"
    then identity_of normalized "env_key" "env"
    else if starts_with normalized "supervisor:"
    then identity_of normalized "supervisor" "cookie"
    else if starts_with normalized "preview_token:"
    then identity_of normalized "preview_token" "token"
    else none

unfoldable pub resolve_actor_identity_ref : Option String → Option ActorIdentity
unfolding resolve_normalized_ref
resolve_actor_identity_ref none = none
resolve_actor_identity_ref (some ref) = resolve_normalized_ref (trim ref)

-- The branches of `resolveActorIdentity` on `actorRef`.
identity_of_actor_ref : Option ActorRef → Option String → Option ActorIdentity
identity_of_actor_ref none source = none
identity_of_actor_ref (some (number n)) source =
    identity_of (concat "api_key:" (decimal n)) "api_key"
      (if opt_is source "test" then "test" else "db")
identity_of_actor_ref (some (text ref)) source =
    if ref == "anonymous"
    then identity_of "anonymous" "anonymous" "anonymous"
    else if ref == "mcp-local"
    then identity_of "mcp-local" "mcp" "local"
    else if starts_with ref "supervisor:"
    then identity_of ref "supervisor" "cookie"
    else if opt_is source "env"
    then identity_of (concat "env_key:" ref) "env_key" "env"
    else identity_of ref "system" (if opt_is source "test" then "test" else "system")

-- The three identity fields, if none is absent or empty.
stated_identity : Option String → Option String → Option String → Option ActorIdentity
stated_identity (some i) (some t) (some s) =
    if non_empty i && (non_empty t && non_empty s) then identity_of i t s else none
stated_identity _ _ _ = none

abbrev or_identity : Option ActorIdentity → Option ActorIdentity → Option ActorIdentity
or_identity = or_opt

unfoldable pub resolve_actor_identity : Option PrincipalLike → Option ActorIdentity
unfolding resolve_actor_identity_ref identity_of_actor_ref stated_identity
resolve_actor_identity none = none
resolve_actor_identity (some p) =
    or_identity (stated_identity p.actor_id p.actor_type p.actor_source) (
      or_identity (resolve_actor_identity_ref p.actor_id)
        (identity_of_actor_ref p.actor_ref p.source))

-- `Number.isSafeInteger` of a natural number.
abbrev pub max_safe_integer : ℕ
max_safe_integer = 9007199254740991

safe_integer : ℕ → Option ℕ
safe_integer n = if leb n max_safe_integer then some n else none

-- The number behind `api_key:` in an actor id.
id_of_actor_id : Option String → Option ℕ
unfolding safe_integer
id_of_actor_id none = none
id_of_actor_id (some actor_id) =
    let trimmed = trim actor_id in
    let raw_id = drop_text "api_key:" trimmed in
    if starts_with trimmed "api_key:" && is_digits raw_id
    then safe_integer (read_decimal raw_id)
    else none

-- `actorType === 'api_key' || !actorType`.
may_be_api_key : Option String → Bool
may_be_api_key none = true
may_be_api_key (some t) = t == "api_key" || not (non_empty t)

unfoldable pub resolve_api_key_id : Option PrincipalLike → Option ℕ
unfolding safe_integer id_of_actor_id may_be_api_key
resolve_api_key_id none = none
resolve_api_key_id (some p) = elim p.actor_ref [
  | some (number n) ↦ if may_be_api_key p.actor_type then some n else none
  | some (text ref) ↦
      if is_digits ref then safe_integer (read_decimal ref) else id_of_actor_id p.actor_id
  | none ↦ id_of_actor_id p.actor_id
]

-- The switch of `resolveActorProfileId`.
profile_of_type : String → String
profile_of_type t =
    if t == "api_key"
    then "api-key"
    else if t == "env_key"
    then "env-key"
    else if t == "supervisor"
    then "supervisor-session"
    else if t == "mcp"
    then "mcp-local"
    else if t == "anonymous"
    then "anonymous-local-dev"
    else "public-discovery"

unfoldable pub resolve_actor_profile_id : Option PrincipalLike → String
unfolding profile_of_type
resolve_actor_profile_id p = elim (resolve_actor_identity p) [
  | none ↦ "public-discovery"
  | some identity ↦ profile_of_type identity.actor_type
]

-- `refs.add(ref.trim())` for a text that is not blank.
unfoldable pub add_ref : List String → String → List String
add_ref refs ref =
    if non_empty (trim ref) && not (includes refs (trim ref)) then refs ++ trim ref ∷ [] else refs

unfoldable pub add_refs : List String → List String → List String
unfolding add_ref
add_refs refs [] = refs
add_refs refs (ref ∷ more) = add_refs (add_ref refs ref) more

unfoldable pub ref_text : ActorRef → String
ref_text (number n) = decimal n
ref_text (text s) = s

unfoldable pub add_opt : List String → Option String → List String
unfolding add_ref
add_opt refs none = refs
add_opt refs (some ref) = add_ref refs ref

unfoldable pub build_actor_assignment_refs : Option PrincipalLike → List String
unfolding add_refs ref_text add_opt
build_actor_assignment_refs none = []
build_actor_assignment_refs (some p) =
    let assigned = add_refs [] (or_else p.assignment_refs []) in
    let with_id = add_opt assigned p.actor_id in
    elim p.actor_ref [ none ↦ with_id | some ref ↦ add_ref with_id (ref_text ref) ]

pub record AuditActor : Type 0 where
  pub identity : ActorIdentity
  pub user_id : Option ℕ

-- `number | PrincipalLike`; an `AuditActor` is read as the principal of its identity.
pub data AuditSource : Type 0 where
  user : ℕ → AuditSource
  principal : PrincipalLike → AuditSource

unfoldable pub to_audit_actor : Option AuditSource → Option AuditActor
to_audit_actor none = none
to_audit_actor (some (user n)) = some (record {
  identity = record {
    actor_id = concat "api_key:" (decimal n);
    actor_type = "api_key";
    actor_source = "db";
  };
  user_id = some n;
})
to_audit_actor (some (principal p)) = elim (resolve_actor_identity (some p)) [
  | none ↦ none
  | some identity ↦ some (record { identity = identity; user_id = resolve_api_key_id (some p) })
]
