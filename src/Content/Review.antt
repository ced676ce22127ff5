-- ===== src/Content/Review.antt =====
-- src/services/workflow.ts: the submission of content items for review, and the decision of review tasks. A
-- statement outside a transaction stays when a later one throws. The webhook that announces a decision,
-- embeddings and the audit's entries, which change none of these tables, are left out.
pub mod Tasks
pub mod Deciding
pub mod Authority
use wordclaw.Shared.{
  ℕ, ◌+◌, String, Bool, true, false, not, ◌&&◌, ◌||◌, Option, none, some, List, [], ◌∷◌, ◌++◌,
  if◌then◌else◌, ◌==◌, nat_eq, string_eq, is_some, or_else, first, update, any, includes, non_empty,
}
use wordclaw.Access.Identity.{
  PrincipalLike, resolve_actor_identity_ref, build_actor_assignment_refs,
}
use wordclaw.Content.Lifecycle.{ContentItem}
use wordclaw.Content.Workflow.{
  Workflow, Transition, ReviewTask, Reviews, WorkflowError, content_type_not_found,
  workflow_not_found, transition_not_found_or_cross_tenant, no_authentication, lacks_roles,
  missing_reference, item_not_found_or_unmatched_domain, not_pending_or_not_found,
  unauthorized_decision, Outcome, done, thrown, find_transition, scopes_of, role_error,
  transition_content_item_status,
}

pub record Submission : Type 0 where
  pub domain_id : ℕ
  pub content_item_id : ℕ
  pub workflow_transition_id : ℕ
  pub assignee : Option String
  pub source : Option String
  pub source_event_id : Option ℕ
  pub auth_principal : Option PrincipalLike

abbrev pub is_pending_for : ℕ → ℕ → ReviewTask → Bool
is_pending_for domain_id content_item_id t =
    t.content_item_id == content_item_id && t.domain_id == domain_id && t.status == "pending"

abbrev pub set_task_status : String → ReviewTask → ReviewTask
set_task_status status t = record t { status = status }

unfoldable pub new_task : ℕ → Submission → ℕ → ReviewTask
new_task now c id = record {
  id = id;
  domain_id = c.domain_id;
  content_item_id = c.content_item_id;
  workflow_transition_id = c.workflow_transition_id;
  status = "pending";
  source = or_else c.source "author_submit";
  source_event_id = c.source_event_id;
  assignee = c.assignee;
  assignee_identity = resolve_actor_identity_ref c.assignee;
  updated_at = now;
}

abbrev pub close_pending : Submission → List ReviewTask → List ReviewTask
close_pending c = update (is_pending_for c.domain_id c.content_item_id) (set_task_status "rejected")

-- The insertion of the task, whose item must exist in some domain, and the item's move.
unfoldable pub enqueue_task : ℕ → Submission → Reviews → Outcome ReviewTask × Reviews
enqueue_task now c s =
    let t = new_task now c s.next_task in
    let moved =
      transition_content_item_status now c.domain_id c.content_item_id "in_review" s.contents in
    if any (λ (i : ContentItem). i.id == c.content_item_id) s.contents.items
    then (
      if is_some moved.0 then done t else thrown item_not_found_or_unmatched_domain,
      record s { tasks = s.tasks ++ t ∷ []; contents = moved.1; next_task = s.next_task + 1 },
    )
    else (thrown missing_reference, s)

unfoldable pub submit_for_review : ℕ → Submission → Reviews → Outcome ReviewTask × Reviews
submit_for_review now c s = elim (find_transition c.domain_id c.workflow_transition_id s) [
  | none ↦ (thrown transition_not_found_or_cross_tenant, s)
  | some t ↦ elim (role_error t.required_roles c.auth_principal) [
    | some e ↦ (thrown e, s)
    | none ↦ enqueue_task now c (record s { tasks = close_pending c s.tasks })
  ]
]

abbrev pub is_task : ℕ → ℕ → ReviewTask → Bool
is_task domain_id id t = t.id == id && t.domain_id == domain_id

-- `task.assignee ? refs.includes(task.assignee) : false`.
abbrev pub is_assignee : PrincipalLike → Option String → Bool
is_assignee p none = false
is_assignee p (some a) = non_empty a && includes (build_actor_assignment_refs (some p)) a

abbrev pub may_decide : PrincipalLike → ReviewTask → Bool
may_decide p t = includes (scopes_of p) "admin" || is_assignee p t.assignee

unfoldable pub authorize_pending_review_task : ℕ → ℕ → PrincipalLike → Reviews → Outcome ReviewTask
authorize_pending_review_task domain_id task_id p s =
    elim (first (is_task domain_id task_id) s.tasks) [
      | none ↦ thrown not_pending_or_not_found
      | some t ↦
          if t.status == "pending"
          then if may_decide p t then done t else thrown unauthorized_decision
          else thrown not_pending_or_not_found
    ]

pub data Decision : Type 0 where
  approved rejected : Decision

abbrev pub decision_text : Decision → String
decision_text approved = "approved"
decision_text rejected = "rejected"

abbrev pub decided : ℕ → Decision → ReviewTask → ReviewTask
decided now d t = record t { status = decision_text d; updated_at = now }

-- The item's move after an approval.
unfoldable pub apply_approval : ℕ → ℕ → ReviewTask → Reviews → Outcome ReviewTask × Reviews
apply_approval now domain_id t s =
    elim (first (λ (u : Transition). u.id == t.workflow_transition_id) s.transitions) [
      | none ↦ (done (decided now approved t), s)
      | some u ↦
          let moved =
            transition_content_item_status now domain_id t.content_item_id u.to_state s.contents in
          (
            if is_some moved.0
                then done (decided now approved t)
                else thrown item_not_found_or_unmatched_domain,
            record s { contents = moved.1 },
          )
    ]

unfoldable pub decide_review_task :
    ℕ → ℕ → ℕ → Decision → PrincipalLike → Reviews → Outcome ReviewTask × Reviews
decide_review_task now domain_id task_id d p s =
    elim (authorize_pending_review_task domain_id task_id p s) [
      | thrown e ↦ (thrown e, s)
      | done t ↦
          let s' = record s {
            tasks = update (is_task domain_id task_id) (decided now d) s.tasks;
          } in
          elim d [
            | approved ↦ apply_approval now domain_id t s'
            | rejected ↦ (done (decided now rejected t), s')
          ]
    ]
