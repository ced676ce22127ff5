-- ===== src/Runs/Control.antt =====
-- src/services/agent-runs.ts: the operator's control of a run, with what it does to the run's steps and
-- checkpoints. The audit's entry is left out, as is the branch for a row that another transaction changes
-- meanwhile.
use wordclaw.Shared.{
  to_iso_string, ℕ, String, concat, Bool, not, ◌&&◌, ◌||◌, Option, none, some, if◌then◌else◌,
  nat_eq, string_eq, update, is_some,
}
use wordclaw.Shared.Json.{str, obj, end, field}
use wordclaw.Runs.Status.{
  RunStatus, queued, running, failed, cancelled, ControlAction, status_text, read_status,
  read_action, action_text, resolve_agent_run_transition, same_status, is_non_terminal,
}
use wordclaw.Runs.Store.{Run, Runs, is_run, find_run, add_checkpoint}
use wordclaw.Runs.Plan.{start_work, retry_failed, skip_open}

abbrev pub or_now : ℕ → Option ℕ → Option ℕ
or_now now none = some now
or_now now (some t) = some t

-- `setPayload` on the row.
unfoldable pub with_control : ℕ → RunStatus → Run → Run
with_control now next r = record r {
  status = status_text next;
  updated_at = now;
  started_at = if same_status next running then or_now now r.started_at else r.started_at;
  completed_at =
      if is_non_terminal next
      then none
      else if same_status next cancelled
      then or_now now r.completed_at
      else r.completed_at;
}

unfoldable pub should_update : RunStatus → RunStatus → Run → Bool
should_update current next r =
    not (same_status next current)
    || (same_status next running && not (is_some r.started_at))
    || (same_status next cancelled && not (is_some r.completed_at))
    || (is_non_terminal next && is_some r.completed_at)

-- What follows the row's update, by the new status and the one before.
unfoldable pub control_effects : ℕ → RunStatus → RunStatus → Run → Runs → Runs
control_effects now current running r s = start_work now r s
control_effects now failed queued r s = retry_failed now r s
control_effects now current cancelled r s = skip_open now r s
control_effects now current _ r s = s

pub data ControlResult : Type 0 where
  invalid_action : String → ControlResult
  not_found : ControlResult
  corrupt_status : String → ControlResult
  invalid_transition : RunStatus → ControlAction → ControlResult
  controlled : Run → ControlResult

-- The transaction, for a run whose status is `current`.
unfoldable pub apply_control :
    ℕ → ℕ → ℕ → ControlAction → RunStatus → RunStatus → Run → Runs → ControlResult × Runs
apply_control now domain_id run_id action current next r s =
    let r' = with_control now next r in
    let moved = record s {
      runs = update (is_run run_id domain_id) (with_control now next) s.runs;
    } in
    if should_update current next r
    then (
      controlled r',
      add_checkpoint r (concat "control_" (action_text action))
          (obj (
            field "action" (str (action_text action)) (
              field "fromStatus" (str r.status) (
                field "toStatus" (str (status_text next))
                  (field "at" (str (to_iso_string now)) end)))))
          (control_effects now current next r' moved),
    )
    else (controlled r, s)

unfoldable pub control_known : ℕ → ℕ → ℕ → ControlAction → Runs → ControlResult × Runs
control_known now domain_id run_id action s = elim (find_run domain_id run_id s) [
  | none ↦ (not_found, s)
  | some r ↦ elim (read_status r.status) [
    | none ↦ (corrupt_status r.status, s)
    | some current ↦ elim (resolve_agent_run_transition current action (is_some r.started_at)) [
      | none ↦ (invalid_transition current action, s)
      | some next ↦ apply_control now domain_id run_id action current next r s
    ]
  ]
]

-- `controlRun`, with the name of an action.
unfoldable pub control_run : ℕ → ℕ → ℕ → String → Runs → ControlResult × Runs
control_run now domain_id run_id action s = elim (read_action action) [
  | none ↦ (invalid_action action, s)
  | some a ↦ control_known now domain_id run_id a s
]
