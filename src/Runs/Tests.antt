-- ===== src/Runs/Tests.antt =====
-- Runs of src/services/agent-runs.ts at concrete inputs.
use wordclaw.Shared.{
  ◌≡◌, refl, String, true, false, Option, none, some, List, [], ◌∷◌, ℕ, All, non_empty, trim,
  parse_positive, decimal,
}
use wordclaw.Shared.Json.{get, Json, Fields, end, field, obj, arr, str, nil, cons}
use wordclaw.Runs.Status.{
  waiting_approval, running, failed, approve, pause, resume, cancel, resolve_agent_run_transition,
  status_text, read_status, read_action,
}
use wordclaw.Runs.Store.{
  Run, Runs, Step, step_failed, step_pending, find_run, natural, add_checkpoint,
}
use wordclaw.Runs.Plan.{
  parse_optional_positive_int, extract_review_candidate_ids, flavor_of, plan_actions, start_work,
  Flavor,
}
use wordclaw.Runs.Control.{
  control_run, control_known, apply_control, control_effects, with_control, should_update,
}
use wordclaw.Runs.Create.{
  CreateInput, create_run, with_definition, create_from, insert_run, new_run,
}
use wordclaw.Runs.Refinement.{
  view, control_all, abstract_run, control_all-view, resumed_without_approval,
}
use wordclaw.Runs.Timing.{reach_start, reach_create, reach_control, IsTimed, Reachable-IsTimed}
use wordclaw.Runs.Effects.{cancelled_steps, resumed_steps, is_closed_for, not_broken}

abbrev snapshot : String → ℕ → Fields → Json
snapshot run_type domain_id metadata = obj (
    field "candidates"
      (arr (
        cons (obj (field "id" (natural 4) end)) (
          cons (obj (field "id" (str " 12px ") end))
            (cons (obj (field "id" (natural 4) end)) nil))))
      end)

abbrev input : CreateInput
input = record {
  goal = " clear the backlog ";
  run_type = none;
  definition_id = none;
  requested_by = some "api_key:3";
  metadata = end;
  require_approval = true;
}

abbrev no_runs : Runs
no_runs = record { definitions = []; runs = []; steps = []; checkpoints = []; next_run = 1 }

abbrev waiting : Runs
waiting = (create_run snapshot 5 1 input no_runs).1

candidates_run : extract_review_candidate_ids (some (snapshot "" 1 end)) ≡ 4 ∷ 12 ∷ []
unfolding extract_review_candidate_ids parse_optional_positive_int parse_positive get non_empty trim
candidates_run = refl

waiting-view : view 1 1 waiting ≡ some (waiting_approval, false)
unfolding view find_run create_run with_definition create_from insert_run new_run status_text
    read_status add_checkpoint non_empty trim
waiting-view = refl

abbrev a_run : String → Option ℕ → Run
a_run status started = record {
  id = 1;
  domain_id = 1;
  definition_id = none;
  goal = "clear the backlog";
  run_type = "review_backlog_manager";
  status = status;
  requested_by = none;
  metadata = none;
  started_at = started;
  completed_at = none;
  updated_at = 5;
}

abbrev failed_step : Step
failed_step = record {
  run_id = 1;
  domain_id = 1;
  step_index = 1;
  step_key = "submit_review_4";
  action_type = "submit_review";
  status = step_failed;
  request_snapshot = none;
  response_snapshot = none;
  error_message = some "locked";
  started_at = some 6;
  completed_at = some 7;
  updated_at = 7;
}

abbrev with_run : String → Runs
with_run status = record {
  definitions = [];
  runs = a_run status (some 6) ∷ [];
  steps = failed_step ∷ record failed_step { step_index = 2; status = step_pending } ∷ [];
  checkpoints = [];
  next_run = 2;
}

found : (status : String) → find_run 1 1 (with_run status) ≡ some (a_run status (some 6))
unfolding find_run
found status = refl

known_running : read_status "running" ≡ some running
unfolding read_status
known_running = refl

known_failed : read_status "failed" ≡ some failed
unfolding read_status
known_failed = refl

review : Flavor
review = record {
  action_type = "submit_review";
  plan_key = "plan_review_backlog";
  planned_key = "planned_review_actions";
  retry_key = "review_retry_scheduled";
  step_prefix = "submit_review_";
}

review_flavor : flavor_of "review_backlog_manager" ≡ some review
unfolding flavor_of review
review_flavor = refl

control_all-view_example :
    view 1 1 (control_all 1 1 ((6, approve) ∷ (7, pause) ∷ (8, cancel) ∷ (9, resume) ∷ []) waiting)
    ≡ some (
        abstract_run
          (waiting_approval, false)
          ((6, approve) ∷ (7, pause) ∷ (8, cancel) ∷ (9, resume) ∷ []))
control_all-view_example =
    control_all-view 1 1 ((6, approve) ∷ (7, pause) ∷ (8, cancel) ∷ (9, resume) ∷ []) waiting
      (waiting_approval, false) waiting-view

resumed_without_approval_example :
    view 1 1 (control_all 1 1 ((6, resume) ∷ (7, resume) ∷ []) waiting) ≡ some (running, true)
resumed_without_approval_example = resumed_without_approval 1 1 6 7 waiting waiting-view

Reachable-IsTimed_example : All IsTimed (control_run 6 1 1 "approve" waiting).1.runs
Reachable-IsTimed_example = Reachable-IsTimed snapshot (control_run 6 1 1 "approve" waiting).1 (
    reach_control 6 1 1 "approve" waiting
      (reach_create 5 1 input no_runs (reach_start no_runs refl)))

cancelled_steps_example :
    All
      (λ t. is_closed_for (a_run "running" (some 6)) t ≡ true)
      (control_run 8 1 1 "cancel" (with_run "running")).1.steps
cancelled_steps_example =
    cancelled_steps 8 1 1 (with_run "running") (a_run "running" (some 6)) running (found "running")
      known_running refl

resumed_steps_example :
    All
      (λ t. not_broken review (a_run "failed" (some 6)) t ≡ true)
      (control_run 8 1 1 "resume" (with_run "failed")).1.steps
resumed_steps_example =
    resumed_steps 8 1 1 (with_run "failed") (a_run "failed" (some 6)) review (found "failed")
      known_failed review_flavor

-- The steps of a run that is approved: its plan is done, and a step waits for each candidate.
abbrev keys : List Step → List String
keys [] = []
keys (t ∷ ts) = t.step_key ∷ keys ts

approved_steps :
    keys (control_run 6 1 1 "approve" waiting).1.steps
    ≡ "plan_run" ∷ "submit_review_4" ∷ "submit_review_12" ∷ []
unfolding control_run control_known read_action apply_control control_effects with_control
    should_update start_work plan_actions resolve_agent_run_transition view find_run create_run
    with_definition create_from insert_run new_run status_text read_status add_checkpoint
    extract_review_candidate_ids parse_optional_positive_int parse_positive non_empty trim get
    decimal
approved_steps = refl
