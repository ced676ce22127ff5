-- ===== src/Content/ReviewTests.antt =====
-- Reviews of src/services/workflow.ts at concrete inputs.
use wordclaw.Shared.{◌⊎◌, ◌+◌, ◌≡◌, refl, true, none, some, [], ◌∷◌, ◌++◌, arith}
use wordclaw.Access.Identity.{PrincipalLike, normalize_principal_scopes}
use wordclaw.Content.Lifecycle.{ContentItem}
use wordclaw.Content.Workflow.{
  WorkflowError, Reviews, ReviewTask, Transition, done, thrown, item_not_found_or_unmatched_domain,
  scopes_of, find_transition, role_error,
}
use wordclaw.Content.Review.{
  Submission, approved, rejected, decided, may_decide, new_task, close_pending, decide_review_task,
  submit_for_review,
}
use wordclaw.Content.Review.Tasks.{
  OnePending, submit, decide, apply_reviews, apply_reviews-OnePending,
}
use wordclaw.Content.Review.Authority.{Decidable, decide_review_task-guarded}
use wordclaw.Content.Review.Deciding.{
  item_status, approval_moves_item, rejected_item_in_review, cross_domain_task_left,
}

abbrev admin : PrincipalLike
admin = record {
  actor_id = some "supervisor:1";
  actor_type = some "supervisor";
  actor_source = some "cookie";
  actor_ref = none;
  source = some "cookie";
  scopes = some ("admin" ∷ []);
  assignment_refs = none;
}

abbrev item : ContentItem
item = record {
  id = 7;
  domain_id = 1;
  content_type_id = 2;
  content_data = "{}";
  status = "draft";
  version = 3;
  created_at = 1;
  updated_at = 2;
}

abbrev publish : Transition
publish = record {
  id = 4;
  workflow_id = 3;
  from_state = "draft";
  to_state = "published";
  required_roles = "content:write" ∷ "admin" ∷ [];
}

abbrev task : ReviewTask
task = record {
  id = 9;
  domain_id = 1;
  content_item_id = 7;
  workflow_transition_id = 4;
  status = "pending";
  source = "author_submit";
  source_event_id = none;
  assignee = some "supervisor:2";
  assignee_identity = none;
  updated_at = 5;
}

abbrev reviews : Reviews
reviews = record {
  content_types = [];
  workflows =
      record { id = 3; domain_id = 1; name = "editorial"; content_type_id = 2; active = true }
      ∷ record { id = 5; domain_id = 2; name = "editorial"; content_type_id = 6; active = true }
      ∷ [];
  transitions = publish ∷ record publish { id = 6; workflow_id = 5; required_roles = [] } ∷ [];
  tasks = task ∷ record task { id = 8; status = "approved" } ∷ [];
  contents = record { items = item ∷ []; versions = [] };
  next_workflow = 6;
  next_transition = 7;
  next_task = 10;
}

abbrev submission : Submission
submission = record {
  domain_id = 1;
  content_item_id = 7;
  workflow_transition_id = 4;
  assignee = none;
  source = none;
  source_event_id = none;
  auth_principal = some admin;
}

abbrev foreign_submission : Submission
foreign_submission = record submission { domain_id = 2; workflow_transition_id = 6 }

reviews-OnePending : OnePending reviews.tasks
reviews-OnePending d i = ground arith

publish_found : find_transition 1 4 reviews ≡ some publish
unfolding find_transition
publish_found = refl

publish_entitled : role_error publish.required_roles (some admin) ≡ none
unfolding role_error scopes_of normalize_principal_scopes
publish_entitled = refl

foreign_found :
    find_transition 2 6 reviews
    ≡ some (record publish { id = 6; workflow_id = 5; required_roles = [] })
unfolding find_transition
foreign_found = refl

foreign_entitled : role_error [] (some admin) ≡ none
unfolding role_error
foreign_entitled = refl

admin_decides : may_decide admin task ≡ true
unfolding scopes_of normalize_principal_scopes
admin_decides = refl

apply_reviews-OnePending_example :
    OnePending
      (apply_reviews
        (submit 11 submission
          ∷ decide 12 1 10 approved admin
          ∷ submit 13 foreign_submission
          ∷ submit 14 submission
          ∷ [])
        reviews).tasks
apply_reviews-OnePending_example =
    apply_reviews-OnePending
      (submit 11 submission
        ∷ decide 12 1 10 approved admin
        ∷ submit 13 foreign_submission
        ∷ submit 14 submission
        ∷ [])
      reviews reviews-OnePending

decide_review_task-guarded_example :
    ((e : WorkflowError) × (decide_review_task 12 1 9 rejected admin reviews ≡ (thrown e, reviews)))
    ⊎ ((t : ReviewTask) × Decidable 1 9 admin reviews t)
decide_review_task-guarded_example = decide_review_task-guarded 12 1 9 rejected admin reviews

approval_moves_item_example :
    (item_status 1 7 (decide_review_task 12 1 9 approved admin reviews).1.contents
      ≡ some "published")
    × ((decide_review_task 12 1 9 approved admin reviews).0 ≡ done (decided 12 approved task))
approval_moves_item_example =
    approval_moves_item 1 9 admin reviews task refl 12 publish item refl admin_decides refl refl

rejected_item_in_review_example :
    item_status 1 7
      (decide_review_task 12 1 10 rejected admin
        (submit_for_review 11 submission reviews).1).1.contents
    ≡ some "in_review"
rejected_item_in_review_example =
    rejected_item_in_review 11 submission reviews publish publish_found publish_entitled refl 12 10
      admin item refl

cross_domain_task_left_example : submit_for_review 11 foreign_submission reviews ≡ (
  thrown item_not_found_or_unmatched_domain,
  record reviews {
    tasks =
        close_pending foreign_submission reviews.tasks ++ new_task 11 foreign_submission 10 ∷ [];
    next_task = 10 + 1;
  },
)
cross_domain_task_left_example =
    cross_domain_task_left 11 foreign_submission reviews
      (record publish { id = 6; workflow_id = 5; required_roles = [] }) foreign_found
      foreign_entitled refl refl
