-- ===== src/Runs/Plan.antt =====
-- src/services/agent-runs.ts: the steps that a run's plan gives, and their retry. The two types of run that
-- have plans differ in names only.
use wordclaw.Shared.{
  parse_positive, ℕ, ◌+◌, String, concat, decimal, not, ◌&&◌, Option, none, some, List, [], ◌∷◌,
  ◌++◌, max, if◌then◌else◌, ◌==◌, nat_eq, string_eq, ltb, keep, first, update, any, length,
  includes, trim, non_empty,
}
use wordclaw.Shared.Json.{Json, num, str, arr, obj, end, field, get, items}
use wordclaw.Runs.Store.{
  step_pending, step_executing, step_succeeded, step_skipped, is_pending, is_open, is_failed, Run,
  Step, Checkpoint, Runs, of_run, of_type, of_key, add_checkpoint, natural, array_of,
}

unfoldable pub parse_optional_positive_int : Option Json → Option ℕ
parse_optional_positive_int (some (num n)) =
    if n.whole && (not n.negative && ltb 0 n.integer_part) then some n.integer_part else none
parse_optional_positive_int (some (str s)) =
    if non_empty (trim s) then parse_positive (trim s) else none
parse_optional_positive_int _ = none

abbrev add_id : List ℕ → Option ℕ → List ℕ
add_id ids none = ids
add_id ids (some i) = if includes ids i then ids else ids ++ i ∷ []

candidate_ids : List ℕ → List Json → List ℕ
candidate_ids ids [] = ids
candidate_ids ids (obj fs ∷ vs) =
    candidate_ids (add_id ids (parse_optional_positive_int (get "id" fs))) vs
candidate_ids ids (_ ∷ vs) = candidate_ids ids vs

abbrev array_field : Option Json → List Json
array_field (some (arr vs)) = items vs
array_field _ = []

unfoldable pub extract_review_candidate_ids : Option Json → List ℕ
unfolding candidate_ids
extract_review_candidate_ids (some (obj fs)) = candidate_ids [] (array_field (get "candidates" fs))
extract_review_candidate_ids _ = []

-- One more than the largest index, 0 without a step.
next_step_index : Run → List Step → ℕ
next_step_index r [] = 0
next_step_index r (t ∷ ts) =
    let rest = next_step_index r ts in if of_run r t then max (t.step_index + 1) rest else rest

pub planned_steps : ℕ → Run → String → String → ℕ → List ℕ → List Step
planned_steps now r prefix action_type i [] = []
planned_steps now r prefix action_type i (c ∷ cs) =
    record {
      run_id = r.id;
      domain_id = r.domain_id;
      step_index = i;
      step_key = concat prefix (decimal c);
      action_type = action_type;
      status = step_pending;
      request_snapshot = some (obj (field "contentItemId" (natural c) end));
      response_snapshot = none;
      error_message = none;
      started_at = none;
      completed_at = none;
      updated_at = now;
    }
    ∷ planned_steps now r prefix action_type (i + 1) cs

-- The names that a run's type fixes.
pub record Flavor : Type 0 where
  pub action_type : String
  pub plan_key : String
  pub planned_key : String
  pub retry_key : String
  pub step_prefix : String

unfoldable pub flavor_of : String → Option Flavor
flavor_of run_type =
    if run_type == "review_backlog_manager"
    then some (record {
      action_type = "submit_review";
      plan_key = "plan_review_backlog";
      planned_key = "planned_review_actions";
      retry_key = "review_retry_scheduled";
      step_prefix = "submit_review_";
    })
    else if run_type == "quality_refiner"
    then some (record {
      action_type = "validate_schema";
      plan_key = "plan_quality_refiner";
      planned_key = "planned_quality_checks";
      retry_key = "quality_retry_scheduled";
      step_prefix = "validate_schema_";
    })
    else none

abbrev payload_of : Option Checkpoint → Option Json
payload_of none = none
payload_of (some c) = some c.payload

-- The first time that the run starts: a step for each candidate of its plan, after the planning step.
unfoldable pub plan_actions : ℕ → Run → Flavor → Runs → Runs
unfolding next_step_index planned_steps
plan_actions now r f s =
    let ids =
      extract_review_candidate_ids (payload_of (first (of_key f.plan_key r) s.checkpoints)) in
    let planned =
      s.steps ++ planned_steps now r f.step_prefix f.action_type (next_step_index r s.steps) ids in
    if any (of_type f.action_type r) s.steps
    then s
    else add_checkpoint r f.planned_key
        (obj (
          field "selectedCount" (natural (length ids))
            (field "candidateIds" (arr (array_of ids)) end)))
        (record s {
          steps =
              update (λ t. of_run r t && (t.step_index == 0 && is_open t.status))
                (λ t. record t {
                  status = step_succeeded;
                  completed_at = some now;
                  updated_at = now;
                  response_snapshot = some (
                      obj (
                        field "selectedCount" (natural (length ids))
                          (field "checkpointKey" (str f.planned_key) end)));
                })
                planned;
        })

-- The effects of a status `running`: the planning step is under way, and the actions are planned.
unfoldable pub start_work : ℕ → Run → Runs → Runs
start_work now r s =
    let s' = record s {
      steps =
          update (λ t. of_run r t && (t.step_index == 0 && is_pending t.status))
            (λ t. record t { status = step_executing; started_at = some now; updated_at = now })
            s.steps;
    } in
    elim (flavor_of r.run_type) [ none ↦ s' | some f ↦ plan_actions now r f s' ]

-- The failed steps of a run that is resumed after a failure wait again.
unfoldable pub retry_failed : ℕ → Run → Runs → Runs
retry_failed now r s = elim (flavor_of r.run_type) [
  | none ↦ s
  | some f ↦
      let broken = λ (t : Step). of_type f.action_type r t && is_failed t.status in
      let count = length (keep broken s.steps) in
      if ltb 0 count
      then add_checkpoint r f.retry_key (obj (field "failedCount" (natural count) end)) (record s {
        steps =
            update broken
              (λ t. record t {
                status = step_pending;
                started_at = none;
                completed_at = none;
                updated_at = now;
                error_message = none;
                response_snapshot = none;
              })
              s.steps;
      })
      else s
]

unfoldable pub skip_open : ℕ → Run → Runs → Runs
skip_open now r s = record s {
  steps =
      update (λ t. of_run r t && is_open t.status)
        (λ t. record t { status = step_skipped; completed_at = some now; updated_at = now })
        s.steps;
}
