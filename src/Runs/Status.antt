-- ===== src/Runs/Status.antt =====
-- src/services/agent-runs.ts: the statuses of a run and the transitions that an operator asks for.
use wordclaw.Shared.{
  ◌≡◌, refl, String, Bool, true, false, Option, none, some, if◌then◌else◌, ◌==◌, string_eq,
}

pub data RunStatus : Type 0 where
  queued planning waiting_approval running succeeded failed cancelled : RunStatus

pub data ControlAction : Type 0 where
  approve pause resume cancel : ControlAction

unfoldable pub status_text : RunStatus → String
status_text queued = "queued"
status_text planning = "planning"
status_text waiting_approval = "waiting_approval"
status_text running = "running"
status_text succeeded = "succeeded"
status_text failed = "failed"
status_text cancelled = "cancelled"

-- `isAgentRunStatus`, with the status that it recognises.
unfoldable pub read_status : String → Option RunStatus
read_status value =
    if value == "queued"
    then some queued
    else if value == "planning"
    then some planning
    else if value == "waiting_approval"
    then some waiting_approval
    else if value == "running"
    then some running
    else if value == "succeeded"
    then some succeeded
    else if value == "failed"
    then some failed
    else if value == "cancelled"
    then some cancelled
    else none

unfoldable pub action_text : ControlAction → String
action_text approve = "approve"
action_text pause = "pause"
action_text resume = "resume"
action_text cancel = "cancel"

-- `isAgentRunControlAction`, with the action that it recognises.
unfoldable pub read_action : String → Option ControlAction
read_action value =
    if value == "approve"
    then some approve
    else if value == "pause"
    then some pause
    else if value == "resume"
    then some resume
    else if value == "cancel"
    then some cancel
    else none

-- `resolveAgentRunTransition`; `none` is AGENT_RUN_INVALID_TRANSITION.
unfoldable pub resolve_agent_run_transition : RunStatus → ControlAction → Bool → Option RunStatus
resolve_agent_run_transition waiting_approval approve has_started = some running
resolve_agent_run_transition queued approve has_started = some running
resolve_agent_run_transition planning approve has_started = some running
resolve_agent_run_transition running approve has_started = some running
resolve_agent_run_transition _ approve has_started = none
resolve_agent_run_transition queued pause has_started = some waiting_approval
resolve_agent_run_transition planning pause has_started = some waiting_approval
resolve_agent_run_transition running pause has_started = some waiting_approval
resolve_agent_run_transition waiting_approval pause has_started = some waiting_approval
resolve_agent_run_transition _ pause has_started = none
resolve_agent_run_transition waiting_approval resume has_started =
    some (if has_started then running else queued)
resolve_agent_run_transition queued resume has_started = some running
resolve_agent_run_transition failed resume has_started = some queued
resolve_agent_run_transition running resume has_started = some running
resolve_agent_run_transition _ resume has_started = none
resolve_agent_run_transition cancelled cancel has_started = some cancelled
resolve_agent_run_transition succeeded cancel has_started = none
resolve_agent_run_transition failed cancel has_started = none
resolve_agent_run_transition _ cancel has_started = some cancelled

abbrev pub same_status : RunStatus → RunStatus → Bool
same_status queued queued = true
same_status planning planning = true
same_status waiting_approval waiting_approval = true
same_status running running = true
same_status succeeded succeeded = true
same_status failed failed = true
same_status cancelled cancelled = true
same_status _ _ = false

-- The statuses of a run that has not ended.
abbrev pub is_non_terminal : RunStatus → Bool
is_non_terminal queued = true
is_non_terminal planning = true
is_non_terminal waiting_approval = true
is_non_terminal running = true
is_non_terminal _ = false

-- A status survives the text column.
pub read_status-status_text : (s : RunStatus) → read_status (status_text s) ≡ some s
unfolding read_status status_text
read_status-status_text queued = refl
read_status-status_text planning = refl
read_status-status_text waiting_approval = refl
read_status-status_text running = refl
read_status-status_text succeeded = refl
read_status-status_text failed = refl
read_status-status_text cancelled = refl
