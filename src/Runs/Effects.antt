-- ===== src/Runs/Effects.antt =====
-- What the operator's controls of src/services/agent-runs.ts do to the steps of a run.
use wordclaw.Shared.{
  ℕ, ◌≡◌, refl, Bool, true, false, not, ◌&&◌, some, List, [], ◌∷◌, inl, inr, Bool-cases, All,
  All-update, is_some, nat_eq, string_eq, arith, keep, length, ltb, false_ne_true,
}
use wordclaw.Runs.Status.{
  RunStatus, queued, planning, waiting_approval, running, failed, cancelled, cancel, read_status,
  read_action, resolve_agent_run_transition, is_non_terminal,
}
use wordclaw.Runs.Store.{
  Run, Runs, Step, find_run, add_checkpoint, of_run, of_type, is_open, is_failed,
}
use wordclaw.Runs.Plan.{Flavor, flavor_of, retry_failed, skip_open}
use wordclaw.Runs.Control.{
  with_control, should_update, control_effects, apply_control, control_known, control_run,
}

-- A step of the run that is neither pending nor executing, or a step of another run.
abbrev pub is_closed_for : Run → Step → Bool
is_closed_for r t = not (of_run r t && is_open t.status)

abbrev AllOf : (Step → Bool) → Runs → Type 0
AllOf p s = All (λ t. p t ≡ true) s.steps

not_and_false : (b : Bool) → not (b && false) ≡ true
not_and_false true = refl
not_and_false false = refl

truth : (ts : List Step) → All (λ (t : Step). Unit {0}) ts
truth [] = tt
truth (t ∷ ts) = (tt, truth ts)

skip_open-closed : (now : ℕ) (r : Run) (s : Runs) → AllOf (is_closed_for r) (skip_open now r s)
unfolding skip_open
skip_open-closed now r s =
    All-update {P = λ t. Unit {0}} {Q = λ t. is_closed_for r t ≡ true}
      (λ t. of_run r t && is_open t.status) _ (λ t _ _. not_and_false (of_run r t))
      (λ t _ e. rw e refl) s.steps (truth s.steps)

cancel_effects-closed :
    (now : ℕ) (c : RunStatus) (r : Run) (s : Runs)
    → AllOf (is_closed_for r) (control_effects now c cancelled (with_control now cancelled r) s)
unfolding control_effects with_control
cancel_effects-closed now failed r s = skip_open-closed now (with_control now cancelled r) s
cancel_effects-closed now c r s = skip_open-closed now (with_control now cancelled r) s

cancel_control-closed :
    (now domain_id run_id : ℕ) (c : RunStatus) (r : Run) (s : Runs)
    → should_update c cancelled r ≡ true
    → AllOf (is_closed_for r) (apply_control now domain_id run_id cancel c cancelled r s).1
unfolding apply_control add_checkpoint
cancel_control-closed now domain_id run_id c r s h = rw h (cancel_effects-closed now c r _)

cancels :
    (c : RunStatus) (started : Bool)
    → is_non_terminal c ≡ true
    → (r : Run)
    → (resolve_agent_run_transition c cancel started ≡ some cancelled)
      × (should_update c cancelled r ≡ true)
unfolding resolve_agent_run_transition should_update
cancels queued started h r = (refl, refl)
cancels planning started h r = (refl, refl)
cancels waiting_approval started h r = (refl, refl)
cancels running started h r = (refl, refl)
cancels _ started h r = absurd (false_ne_true h)

-- A run that has not ended, when it is cancelled, keeps no step that is pending or executing.
pub cancelled_steps :
    (now domain_id run_id : ℕ) (s : Runs) (r : Run) (c : RunStatus)
    → find_run domain_id run_id s ≡ some r
    → read_status r.status ≡ some c
    → is_non_terminal c ≡ true
    → AllOf (is_closed_for r) (control_run now domain_id run_id "cancel" s).1
unfolding control_run read_action control_known
cancelled_steps now domain_id run_id s r c found known open_run =
    rw (found, control_known)
      (rw known (
        let (next, written) = cancels c (is_some r.started_at) open_run r in
        rw next (cancel_control-closed now domain_id run_id c r s written)))

-- No step of the run's own kind of work is failed.
abbrev pub not_broken : Flavor → Run → Step → Bool
not_broken f r t = not (of_type f.action_type r t && is_failed t.status)

none_kept {ℓ} :
    {A : Type ℓ} (p : A → Bool) (xs : List A)
    → ltb 0 (length (keep p xs)) ≡ false
    → All (λ x. not (p x) ≡ true) xs
none_kept p [] h = tt
none_kept p (x ∷ xs) h = elim (Bool-cases (p x)) [
  | inl e ↦ absurd (ground arith)
  | inr e ↦ rw e (refl, none_kept p xs (rw e at h))
]

retry_failed-repaired :
    (now : ℕ) (r : Run) (f : Flavor) (s : Runs)
    → flavor_of r.run_type ≡ some f
    → AllOf (not_broken f r) (retry_failed now r s)
unfolding retry_failed add_checkpoint
retry_failed-repaired now r f s known =
    rw (known, retry_failed)
      (elim (Bool-cases
        (ltb 0 (length (keep (λ t. of_type f.action_type r t && is_failed t.status) s.steps)))) [
          | inl e ↦ rw e (
              All-update {P = λ t. Unit {0}} {Q = λ t. not_broken f r t ≡ true}
                (λ t. of_type f.action_type r t && is_failed t.status) _
                (λ t _ _. not_and_false (of_type f.action_type r t)) (λ t _ e. rw e refl) s.steps
                (truth s.steps))
          | inr e ↦ rw e (none_kept _ s.steps e)
        ])

-- A failed run of a type with a plan, when it is resumed, has no failed step of its kind of work.
pub resumed_steps :
    (now domain_id run_id : ℕ) (s : Runs) (r : Run) (f : Flavor)
    → find_run domain_id run_id s ≡ some r
    → read_status r.status ≡ some failed
    → flavor_of r.run_type ≡ some f
    → AllOf (not_broken f r) (control_run now domain_id run_id "resume" s).1
unfolding control_run read_action control_known resolve_agent_run_transition apply_control
    should_update add_checkpoint control_effects with_control
resumed_steps now domain_id run_id s r f found known flavor =
    rw (found, control_known)
      (rw known (retry_failed-repaired now (with_control now queued r) f _ flavor))
