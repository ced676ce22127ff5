-- ===== src/Content/Workflow.antt =====
-- src/services/workflow.ts: the tables of workflows, transitions and review tasks, the creation of workflows
-- and transitions, and the move of a content item. Comments, revisions and external feedback are left out. A
-- foreign key that names no row is a throw.
use wordclaw.Shared.{
  ℕ, ◌+◌, String, Bool, true, false, ◌&&◌, ◌||◌, Option, none, some, List, [], ◌∷◌, ◌++◌,
  if◌then◌else◌, ◌==◌, nat_eq, string_eq, first, update, any, includes,
}
use wordclaw.Access.Identity.{ActorIdentity, PrincipalLike, normalize_principal_scopes}
use wordclaw.Content.Lifecycle.{ContentItem, Contents}

pub record ContentType : Type 0 where
  pub id : ℕ
  pub domain_id : ℕ

pub record Workflow : Type 0 where
  pub id : ℕ
  pub domain_id : ℕ
  pub name : String
  pub content_type_id : ℕ
  pub active : Bool

pub record Transition : Type 0 where
  pub id : ℕ
  pub workflow_id : ℕ
  pub from_state : String
  pub to_state : String
  pub required_roles : List String

pub record ReviewTask : Type 0 where
  pub id : ℕ
  pub domain_id : ℕ
  pub content_item_id : ℕ
  pub workflow_transition_id : ℕ
  pub status : String
  pub source : String
  pub source_event_id : Option ℕ
  pub assignee : Option String
  pub assignee_identity : Option ActorIdentity
  pub updated_at : ℕ

pub record Reviews : Type 0 where
  pub content_types : List ContentType
  pub workflows : List Workflow
  pub transitions : List Transition
  pub tasks : List ReviewTask
  pub contents : Contents
  pub next_workflow : ℕ
  pub next_transition : ℕ
  pub next_task : ℕ

pub data WorkflowError : Type 0 where
  content_type_not_found : WorkflowError
  workflow_not_found : WorkflowError
  transition_not_found_or_cross_tenant : WorkflowError
  no_authentication : WorkflowError
  lacks_roles : List String → WorkflowError
  missing_reference : WorkflowError
  item_not_found_or_unmatched_domain : WorkflowError
  not_pending_or_not_found : WorkflowError
  unauthorized_decision : WorkflowError

pub data Outcome (A : Type 0) : Type 0 where
  done : A → Outcome A
  thrown : WorkflowError → Outcome A

unfoldable pub create_workflow : ℕ → String → ℕ → Bool → Reviews → Outcome Workflow × Reviews
create_workflow domain_id name content_type_id active s =
    let w : Workflow = record {
      id = s.next_workflow;
      domain_id = domain_id;
      name = name;
      content_type_id = content_type_id;
      active = active;
    } in
    if any (λ (t : ContentType). t.id == content_type_id && t.domain_id == domain_id)
      s.content_types
    then (
      done w,
      record s { workflows = s.workflows ++ w ∷ []; next_workflow = s.next_workflow + 1 },
    )
    else (thrown content_type_not_found, s)

unfoldable pub create_workflow_transition :
    ℕ → ℕ → String → String → List String → Reviews → Outcome Transition × Reviews
create_workflow_transition domain_id workflow_id from_state to_state required_roles s =
    let t : Transition = record {
      id = s.next_transition;
      workflow_id = workflow_id;
      from_state = from_state;
      to_state = to_state;
      required_roles = required_roles;
    } in
    if any (λ (w : Workflow). w.id == workflow_id && w.domain_id == domain_id) s.workflows
    then (
      done t,
      record s { transitions = s.transitions ++ t ∷ []; next_transition = s.next_transition + 1 },
    )
    else (thrown workflow_not_found, s)

unfoldable pub get_active_workflow : ℕ → ℕ → Reviews → Option Workflow
get_active_workflow domain_id content_type_id s =
    first
      (λ (w : Workflow).
        w.domain_id == domain_id && w.content_type_id == content_type_id && w.active)
      s.workflows

-- The transition of that id whose workflow is of the domain.
unfoldable pub find_transition : ℕ → ℕ → Reviews → Option Transition
find_transition domain_id id s =
    first
      (λ (t : Transition).
        t.id == id
        && any (λ (w : Workflow). w.id == t.workflow_id && w.domain_id == domain_id) s.workflows)
      s.transitions

abbrev pub has_role : List String → List String → Bool
has_role scopes [] = false
has_role scopes (r ∷ rs) = includes scopes r || has_role scopes rs

unfoldable pub scopes_of : PrincipalLike → List String
scopes_of p = normalize_principal_scopes p.scopes

-- The error of a principal that lacks the roles of a transition.
unfoldable pub role_error : List String → Option PrincipalLike → Option WorkflowError
unfolding normalize_principal_scopes
role_error [] p = none
role_error (r ∷ rs) none = some no_authentication
role_error (r ∷ rs) (some p) =
    if has_role (scopes_of p) (r ∷ rs) then none else some (lacks_roles (r ∷ rs))

abbrev pub is_item : ℕ → ℕ → ContentItem → Bool
is_item domain_id id i = i.id == id && i.domain_id == domain_id

abbrev pub with_status : ℕ → String → ContentItem → ContentItem
with_status now next i = record i { status = next; version = i.version + 1; updated_at = now }

-- Whether the status changed, and the tables; `none` is the throw.
unfoldable pub transition_content_item_status :
    ℕ → ℕ → ℕ → String → Contents → Option Bool × Contents
transition_content_item_status now domain_id content_item_id next s =
    elim (first (is_item domain_id content_item_id) s.items) [
      | none ↦ (none, s)
      | some i ↦ if i.status == next then (some false, s) else (
        some true,
        record {
          items = update (is_item domain_id content_item_id) (with_status now next) s.items;
          versions =
              s.versions
              ++ record {
                content_item_id = i.id;
                version = i.version;
                content_data = i.content_data;
                status = i.status;
                created_at = i.updated_at;
              }
                ∷ [];
        },
      )
    ]
