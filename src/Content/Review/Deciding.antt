-- ===== src/Content/Review/Deciding.antt =====
-- What decisions and submissions of src/services/workflow.ts do to the content items.
use wordclaw.Shared.{
  ℕ, ◌+◌, String, ◌≡◌, refl, ap, true, Option, none, some, [], ◌∷◌, ◌++◌, inl, inr, Bool-cases,
  if◌then◌else◌, ◌==◌, nat_eq, string_eq, eq_iff, first, first-update, any, is_some,
}
use wordclaw.Access.Identity.{PrincipalLike}
use wordclaw.Content.Lifecycle.{ContentItem, Contents}
use wordclaw.Content.Workflow.{
  Reviews, ReviewTask, Transition, Outcome, done, thrown, item_not_found_or_unmatched_domain,
  is_item, with_status, find_transition, role_error, transition_content_item_status,
}
use wordclaw.Content.Review.{
  Submission, approved, rejected, may_decide, is_task, decided, new_task, close_pending,
  enqueue_task, submit_for_review, authorize_pending_review_task, apply_approval,
  decide_review_task,
}

-- The status of an item in a domain.
abbrev status_of : Option ContentItem → Option String
status_of none = none
status_of (some i) = some i.status

unfoldable pub item_status : ℕ → ℕ → Contents → Option String
item_status domain_id id s = status_of (first (is_item domain_id id) s.items)

transition-status :
    (now domain_id id : ℕ) (next : String) (s : Contents) (i : ContentItem)
    → first (is_item domain_id id) s.items ≡ some i
    → item_status domain_id id (transition_content_item_status now domain_id id next s).1
      ≡ some next
unfolding transition_content_item_status item_status
transition-status now domain_id id next s i found = elim (Bool-cases (i.status == next)) [
  | inl e ↦
      rw (found, transition_content_item_status)
        (rw e (rw found (ap some ((eq_iff i.status next).0 e))))
  | inr e ↦
      rw (found, transition_content_item_status)
        (rw e (
          rw (first-update (is_item domain_id id) (with_status now next) (λ a. refl) s.items)
            (rw found refl)))
]

transition-moves :
    (now domain_id id : ℕ) (next : String) (s : Contents) (i : ContentItem)
    → first (is_item domain_id id) s.items ≡ some i
    → is_some (transition_content_item_status now domain_id id next s).0 ≡ true
unfolding transition_content_item_status
transition-moves now domain_id id next s i found = elim (Bool-cases (i.status == next)) [
  | inl e ↦ rw (found, transition_content_item_status) (rw e refl)
  | inr e ↦ rw (found, transition_content_item_status) (rw e refl)
]

module _ (domain_id task_id : ℕ) (p : PrincipalLike) (s : Reviews) (t : ReviewTask)
    (found : first (is_task domain_id task_id) s.tasks ≡ some t) where
  authorized :
      t.status ≡ "pending"
      → may_decide p t ≡ true
      → authorize_pending_review_task domain_id task_id p s ≡ done t
  unfolding authorize_pending_review_task
  authorized pending allowed =
      rw (found, authorize_pending_review_task) (rw (pending, allowed) refl)

  -- An approval of a pending task by one who may decide it gives the item the state that the task's transition leads to,
  -- whatever state the item is in, and returns the task as approved.
  pub approval_moves_item :
      (now : ℕ) (u : Transition) (i : ContentItem)
      → t.status ≡ "pending"
      → may_decide p t ≡ true
      → first (λ (v : Transition). v.id == t.workflow_transition_id) s.transitions ≡ some u
      → first (is_item domain_id t.content_item_id) s.contents.items ≡ some i
      → (item_status domain_id t.content_item_id
            (decide_review_task now domain_id task_id approved p s).1.contents
          ≡ some u.to_state)
        × ((decide_review_task now domain_id task_id approved p s).0
            ≡ done (decided now approved t))
  unfolding decide_review_task apply_approval
  approval_moves_item now u i pending allowed leads present =
      rw (authorized pending allowed, decide_review_task)
        (rw (leads, apply_approval)
          (
            transition-status now domain_id t.content_item_id u.to_state s.contents i present,
            moves,
          ))
    where
      moves :
          (if is_some
              (transition_content_item_status now domain_id t.content_item_id u.to_state
                s.contents).0
            then done (decided now approved t)
            else thrown item_not_found_or_unmatched_domain)
          ≡ done (decided now approved t)
      moves =
          rw (transition-moves now domain_id t.content_item_id u.to_state s.contents i present) refl

rejection_keeps_items :
    (now domain_id task_id : ℕ) (p : PrincipalLike) (s : Reviews)
    → (decide_review_task now domain_id task_id rejected p s).1.contents ≡ s.contents
unfolding decide_review_task
rejection_keeps_items now domain_id task_id p s =
    by_authority (authorize_pending_review_task domain_id task_id p s) refl
  where
    by_authority :
        (o : Outcome ReviewTask)
        → authorize_pending_review_task domain_id task_id p s ≡ o
        → (decide_review_task now domain_id task_id rejected p s).1.contents ≡ s.contents
    by_authority (thrown e) h = rw (h, decide_review_task) refl
    by_authority (done t) h = rw (h, decide_review_task) refl

-- A submission whose transition, roles and item are in order.
module _ (now : ℕ) (c : Submission) (s : Reviews) (u : Transition)
    (leads : find_transition c.domain_id c.workflow_transition_id s ≡ some u)
    (entitled : role_error u.required_roles c.auth_principal ≡ none)
    (known : any (λ (i : ContentItem). i.id == c.content_item_id) s.contents.items ≡ true) where
  submitted :
      submit_for_review now c s ≡ enqueue_task now c (record s { tasks = close_pending c s.tasks })
  unfolding submit_for_review
  submitted = rw (leads, submit_for_review) (rw entitled refl)

  -- An item of the domain that is submitted for review is in the state `in_review` after a rejection, by
  -- whomever and of whatever task.
  pub rejected_item_in_review :
      (later task_id : ℕ) (p : PrincipalLike) (i : ContentItem)
      → first (is_item c.domain_id c.content_item_id) s.contents.items ≡ some i
      → item_status c.domain_id c.content_item_id
          (decide_review_task later c.domain_id task_id rejected p
            (submit_for_review now c s).1).1.contents
        ≡ some "in_review"
  unfolding enqueue_task
  rejected_item_in_review later task_id p i present =
      rw (rejection_keeps_items later c.domain_id task_id p (submit_for_review now c s).1) (
        rw submitted (
          rw (known, enqueue_task)
            (transition-status now c.domain_id c.content_item_id "in_review" s.contents i present)))

  -- A submission of an item that exists, but not in the domain, throws and leaves the pending task that it inserted.
  pub cross_domain_task_left :
      first (is_item c.domain_id c.content_item_id) s.contents.items ≡ none
      → submit_for_review now c s ≡ (
        thrown item_not_found_or_unmatched_domain,
        record s {
          tasks = close_pending c s.tasks ++ new_task now c s.next_task ∷ [];
          next_task = s.next_task + 1;
        },
      )
  unfolding enqueue_task transition_content_item_status
  cross_domain_task_left missing =
      rw submitted (rw (known, enqueue_task) (rw (missing, transition_content_item_status) refl))
