-- ===== src/Content/Review/Authority.antt =====
-- Who decides a review task of src/services/workflow.ts.
use wordclaw.Shared.{
  ℕ, String, ◌≡◌, refl, ap, true, Option, none, some, inl, inr, Bool-cases, Option-cases, ◌⊎◌, ◌≢◌,
  List, sym, ◌∙◌, and_left, and_right, false_ne_true, nat_beq_iff, first-holds, includes, non_empty,
  ◌==◌, nat_eq, string_eq, eq_iff, first,
}
use wordclaw.Access.Identity.{PrincipalLike, normalize_principal_scopes}
use wordclaw.Access.Identity.Assignment.{Names, assignment_refs-Names}
use wordclaw.Content.Workflow.{
  Reviews, WorkflowError, scopes_of, ReviewTask, thrown, not_pending_or_not_found,
  unauthorized_decision,
}
use wordclaw.Content.Review.{
  Decision, may_decide, is_assignee, is_task, authorize_pending_review_task, decide_review_task,
}

-- Who decides a task: an administrator, or one whom the task's assignee names.
pub data Entitled (p : PrincipalLike) (t : ReviewTask) : Type 0 where
  administrator :
      (scopes : List String)
      → p.scopes ≡ some scopes
      → includes scopes "admin" ≡ true
      → Entitled p t
  assignee : (a : String) → t.assignee ≡ some a → a ≢ "" → Names p a → Entitled p t

is_assignee-Entitled :
    (p : PrincipalLike) (t : ReviewTask) (o : Option String)
    → t.assignee ≡ o
    → is_assignee p o ≡ true
    → Entitled p t
is_assignee-Entitled p t none e h = absurd (false_ne_true h)
is_assignee-Entitled p t (some a) e h =
    assignee a e filled (assignment_refs-Names p a (and_right (non_empty a) _ h))
  where
    filled : a ≢ ""
    filled q = unfold non_empty in false_ne_true (ap non_empty (sym q) ∙ and_left (non_empty a) _ h)

admin-Entitled :
    (p : PrincipalLike) (t : ReviewTask) (o : Option (List String))
    → p.scopes ≡ o
    → includes (normalize_principal_scopes o) "admin" ≡ true
    → Entitled p t
unfolding normalize_principal_scopes
admin-Entitled p t none e h = absurd (false_ne_true h)
admin-Entitled p t (some scopes) e h = administrator scopes e h

may_decide-Entitled : (p : PrincipalLike) (t : ReviewTask) → may_decide p t ≡ true → Entitled p t
unfolding scopes_of
may_decide-Entitled p t h = elim (Bool-cases (includes (scopes_of p) "admin")) [
  | inl e ↦ admin-Entitled p t p.scopes refl e
  | inr e ↦ is_assignee-Entitled p t t.assignee refl (rw e at h)
]

-- A pending task of the domain, and one who may decide it.
pub record Decidable (domain_id task_id : ℕ) (p : PrincipalLike) (s : Reviews) (t : ReviewTask)
    : Type 0 where
  pub is_found : first (is_task domain_id task_id) s.tasks ≡ some t
  pub has_id : t.id ≡ task_id
  pub in_domain : t.domain_id ≡ domain_id
  pub is_pending : t.status ≡ "pending"
  pub entitled : Entitled p t

-- A decision is refused and changes nothing, unless the task that it names is a pending one of the domain and the
-- decider has the scope `admin` or is named by the task's assignee, as the actor or one of its given references.
pub decide_review_task-guarded :
    (now domain_id task_id : ℕ) (d : Decision) (p : PrincipalLike) (s : Reviews)
    → ((e : WorkflowError) × (decide_review_task now domain_id task_id d p s ≡ (thrown e, s)))
      ⊎ ((t : ReviewTask) × Decidable domain_id task_id p s t)
unfolding decide_review_task authorize_pending_review_task
decide_review_task-guarded now domain_id task_id d p s =
    elim (Option-cases (first (is_task domain_id task_id) s.tasks)) [
      | inl e ↦
          inl (
            not_pending_or_not_found,
            rw (e, decide_review_task, authorize_pending_review_task) refl,
          )
      | inr (t, e) ↦ elim (Bool-cases (t.status == "pending")) [
        | inr f ↦ inl (
          not_pending_or_not_found,
          rw (e, decide_review_task, authorize_pending_review_task) (rw f refl),
        )
        | inl f ↦ elim (Bool-cases (may_decide p t)) [
          | inr g ↦ inl (
            unauthorized_decision,
            rw (e, decide_review_task, authorize_pending_review_task) (rw f (rw g refl)),
          )
          | inl g ↦
              let row = first-holds (is_task domain_id task_id) s.tasks e in
              inr (
                t,
                record {
                  is_found = e;
                  has_id = (nat_beq_iff t.id task_id).0 (and_left (t.id == task_id) _ row);
                  in_domain =
                      (nat_beq_iff t.domain_id domain_id).0 (and_right (t.id == task_id) _ row);
                  is_pending = (eq_iff t.status "pending").0 f;
                  entitled = may_decide-Entitled p t g;
                },
              )
        ]
      ]
    ]
