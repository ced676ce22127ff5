-- ===== src/Content/Review/Tasks.antt =====
-- The pending review tasks of src/services/workflow.ts under submissions and decisions in any order.
use wordclaw.Shared.{
  and_false, ℕ, ◌+◌, ◌≤◌, String, ◌≡◌, refl, sym, ◌∙◌, subst, Bool, true, false, ◌&&◌, List, [],
  ◌∷◌, ◌++◌, inl, inr, ◌⊎◌, Bool-cases, Option-cases, if◌then◌else◌, ◌==◌, nat_eq, string_eq, arith,
  false_ne_true, keep, length, first, update, any,
}
use wordclaw.Access.Identity.{PrincipalLike}
use wordclaw.Content.Lifecycle.{ContentItem}
use wordclaw.Content.Workflow.{
  Reviews, ReviewTask, Transition, Outcome, done, thrown, find_transition, role_error,
}
use wordclaw.Content.Review.{
  Submission, Decision, approved, rejected, is_pending_for, set_task_status, new_task,
  close_pending, enqueue_task, submit_for_review, is_task, decided, authorize_pending_review_task,
  apply_approval, decide_review_task,
}

module _ {ℓ} {A : Type ℓ} where
  length-keep-append :
      (p : A → Bool) (xs : List A) (a : A)
      → length (keep p (xs ++ a ∷ [])) ≡ length (keep p xs) + length (keep p (a ∷ []))
  length-keep-append p [] a = omega arith
  length-keep-append p (x ∷ xs) a = elim (Bool-cases (p x)) [
    | inl e ↦ rw e (omega (arith, length-keep-append p xs a))
    | inr e ↦ rw e (length-keep-append p xs a)
  ]

  kept_le :
      (p : A → Bool) (y x : A) (ys xs : List A)
      → (p y ≡ true → p x ≡ true)
      → length (keep p ys) ≤ length (keep p xs)
      → length (keep p (y ∷ ys)) ≤ length (keep p (x ∷ xs))
  kept_le p y x ys xs back le = elim (Bool-cases (p y)) [
    | inl e ↦ rw e (rw (back e) (omega arith))
    | inr e ↦ rw e (elim (Bool-cases (p x)) [ inl g ↦ rw g (omega arith) | inr g ↦ rw g le ])
  ]

  length-keep-update :
      (p q : A → Bool) (f : A → A)
      → ((a : A) → p (f a) ≡ true → p a ≡ true)
      → (xs : List A) → length (keep p (update q f xs)) ≤ length (keep p xs)
  length-keep-update p q f back [] = omega arith
  length-keep-update p q f back (x ∷ xs) =
      kept_le p (if q x then f x else x) x (update q f xs) xs (head_back (Bool-cases (q x)))
        (length-keep-update p q f back xs)
    where
      head_back : (q x ≡ true) ⊎ (q x ≡ false) → p (if q x then f x else x) ≡ true → p x ≡ true
      head_back (inl e) h = back x (rw e at h)
      head_back (inr e) h = rw e at h

  keep-update_none :
      (p : A → Bool) (f : A → A)
      → ((a : A) → p (f a) ≡ false)
      → (xs : List A) → keep p (update p f xs) ≡ []
  keep-update_none p f gone [] = refl
  keep-update_none p f gone (x ∷ xs) = elim (Bool-cases (p x)) [
    | inl e ↦ rw e (rw (gone x) (keep-update_none p f gone xs))
    | inr e ↦ rw e (rw e (keep-update_none p f gone xs))
  ]

abbrev pub OnePending : List ReviewTask → Type 0
OnePending ts = (domain_id item_id : ℕ) → length (keep (is_pending_for domain_id item_id) ts) ≤ 1

not_pending :
    (status : String)
    → (status == "pending") ≡ false
    → (d i : ℕ) (t : ReviewTask) → t.status ≡ status
    → is_pending_for d i t ≡ false
not_pending status final d i t e =
    rw e (rw final (and_false (t.content_item_id == i && t.domain_id == d)))

-- A task for the item, where none is pending.
append-OnePending :
    (ts : List ReviewTask) (t : ReviewTask)
    → OnePending ts
    → keep (is_pending_for t.domain_id t.content_item_id) ts ≡ []
    → OnePending (ts ++ t ∷ [])
append-OnePending ts t one none_pending d i =
    rw (length-keep-append (is_pending_for d i) ts t) (elim (Bool-cases (is_pending_for d i t)) [
      | inl e ↦ rw e (rw (same e) (omega arith))
      | inr e ↦ rw e (omega (arith, one d i))
    ])
  where
    same : is_pending_for d i t ≡ true → keep (is_pending_for d i) ts ≡ []
    same e =
        let same_item : t.content_item_id ≡ i = ground arith in
        let same_domain : t.domain_id ≡ d = ground arith in
        subst (λ j. keep (is_pending_for d j) ts ≡ []) same_item
          (subst (λ k. keep (is_pending_for k t.content_item_id) ts ≡ []) same_domain none_pending)

-- An update that makes no task pending.
update-OnePending :
    (q : ReviewTask → Bool) (f : ReviewTask → ReviewTask)
    → ((d i : ℕ) (t : ReviewTask) → is_pending_for d i (f t) ≡ false)
    → (ts : List ReviewTask) → OnePending ts
    → OnePending (update q f ts)
update-OnePending q f gone ts one d i =
    let le =
      length-keep-update (is_pending_for d i) q f
        (λ t e. absurd (false_ne_true (sym (gone d i t) ∙ e))) ts in
    omega (arith, le, one d i)

closed : (d i : ℕ) (t : ReviewTask) → is_pending_for d i (set_task_status "rejected" t) ≡ false
closed d i t = not_pending "rejected" refl d i (set_task_status "rejected" t) refl

decided_closed :
    (now : ℕ) (c : Decision) (d i : ℕ) (t : ReviewTask)
    → is_pending_for d i (decided now c t) ≡ false
decided_closed now approved d i t = not_pending "approved" refl d i (decided now approved t) refl
decided_closed now rejected d i t = not_pending "rejected" refl d i (decided now rejected t) refl

enqueue_task-OnePending :
    (now : ℕ) (c : Submission) (s : Reviews)
    → OnePending s.tasks
    → keep (is_pending_for c.domain_id c.content_item_id) s.tasks ≡ []
    → OnePending (enqueue_task now c s).1.tasks
unfolding enqueue_task
enqueue_task-OnePending now c s one none_pending =
    elim (Bool-cases (any (λ (i : ContentItem). i.id == c.content_item_id) s.contents.items)) [
      | inl e ↦ rw e (
          append-OnePending s.tasks (new_task now c s.next_task) one
            (unfold new_task in none_pending))
      | inr e ↦ rw e one
    ]

submit_for_review-OnePending :
    (now : ℕ) (c : Submission) (s : Reviews)
    → OnePending s.tasks
    → OnePending (submit_for_review now c s).1.tasks
unfolding submit_for_review
submit_for_review-OnePending now c s one =
    elim (Option-cases (find_transition c.domain_id c.workflow_transition_id s)) [
      | inl e ↦ rw (e, submit_for_review) one
      | inr (t, e) ↦ elim (Option-cases (role_error t.required_roles c.auth_principal)) [
        | inl f ↦
            rw (e, submit_for_review)
              (rw f (
                enqueue_task-OnePending now c (record s { tasks = close_pending c s.tasks })
                  (update-OnePending (is_pending_for c.domain_id c.content_item_id)
                    (set_task_status "rejected") closed s.tasks one)
                  (keep-update_none (is_pending_for c.domain_id c.content_item_id)
                    (set_task_status "rejected") (closed c.domain_id c.content_item_id) s.tasks)))
        | inr (err, f) ↦ rw (e, submit_for_review) (rw f one)
      ]
    ]

apply_approval-tasks :
    (now domain_id : ℕ) (t : ReviewTask) (s : Reviews)
    → (apply_approval now domain_id t s).1.tasks ≡ s.tasks
unfolding apply_approval
apply_approval-tasks now domain_id t s =
    elim (Option-cases
      (first (λ (u : Transition). u.id == t.workflow_transition_id) s.transitions)) [
        | inl e ↦ rw (e, apply_approval) refl
        | inr (u, e) ↦ rw (e, apply_approval) refl
      ]

decide_review_task-OnePending :
    (now domain_id task_id : ℕ) (d : Decision) (p : PrincipalLike) (s : Reviews)
    → OnePending s.tasks
    → OnePending (decide_review_task now domain_id task_id d p s).1.tasks
unfolding decide_review_task
decide_review_task-OnePending now domain_id task_id d p s one =
    by_authority (authorize_pending_review_task domain_id task_id p s) refl d
  where
    s' : Decision → Reviews
    s' c = record s { tasks = update (is_task domain_id task_id) (decided now c) s.tasks }

    after : (c : Decision) → OnePending (s' c).tasks
    after c =
        update-OnePending (is_task domain_id task_id) (decided now c) (decided_closed now c) s.tasks
          one

    by_authority :
        (o : Outcome ReviewTask)
        → authorize_pending_review_task domain_id task_id p s ≡ o
        → (c : Decision) → OnePending (decide_review_task now domain_id task_id c p s).1.tasks
    by_authority (thrown e) h c = rw (h, decide_review_task) one
    by_authority (done t) h approved =
        rw (h, decide_review_task)
          (rw (apply_approval-tasks now domain_id t (s' approved)) (after approved))
    by_authority (done t) h rejected = rw (h, decide_review_task) (after rejected)

pub data ReviewOp : Type 0 where
  submit : ℕ → Submission → ReviewOp
  decide : ℕ → ℕ → ℕ → Decision → PrincipalLike → ReviewOp

unfoldable pub apply_reviews : List ReviewOp → Reviews → Reviews
apply_reviews [] s = s
apply_reviews (submit now c ∷ os) s = apply_reviews os (submit_for_review now c s).1
apply_reviews (decide now domain_id task_id d p ∷ os) s =
    apply_reviews os (decide_review_task now domain_id task_id d p s).1

-- Submissions and decisions, in any order and also those that fail, leave at most one pending task for an item in a domain, if that
-- holds before them.
pub apply_reviews-OnePending :
    (os : List ReviewOp) (s : Reviews) → OnePending s.tasks → OnePending (apply_reviews os s).tasks
unfolding apply_reviews
apply_reviews-OnePending [] s one = one
apply_reviews-OnePending (submit now c ∷ os) s one =
    apply_reviews-OnePending os (submit_for_review now c s).1
      (submit_for_review-OnePending now c s one)
apply_reviews-OnePending (decide now domain_id task_id d p ∷ os) s one =
    apply_reviews-OnePending os (decide_review_task now domain_id task_id d p s).1
      (decide_review_task-OnePending now domain_id task_id d p s one)
