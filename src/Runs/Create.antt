-- ===== src/Runs/Create.antt =====
-- src/services/agent-runs.ts: creating a run. The queries that make a plan's snapshot are arguments; the
-- audit's entry is left out. A domain id and an approval are those of the request.
use wordclaw.Shared.{
  ℕ, ◌+◌, String, Bool, ◌&&◌, Option, none, some, [], ◌∷◌, ◌++◌, if◌then◌else◌, ◌==◌, nat_eq,
  string_eq, first, trim, non_empty,
}
use wordclaw.Shared.Json.{Json, str, obj, Fields, end, field, spread}
use wordclaw.Runs.Status.{RunStatus, queued, waiting_approval, status_text}
use wordclaw.Runs.Store.{
  step_pending, Definition, Run, Step, Runs, add_checkpoint, id_or_null, text_or_null, json_or_null,
}
use wordclaw.Runs.Plan.{flavor_of}

pub record CreateInput : Type 0 where
  pub goal : String
  pub run_type : Option String
  pub definition_id : Option ℕ
  pub requested_by : Option String
  pub metadata : Fields
  pub require_approval : Bool

pub data CreateResult : Type 0 where
  invalid_goal : CreateResult
  definition_not_found : ℕ → CreateResult
  definition_inactive : ℕ → CreateResult
  created : Run → CreateResult

-- `a || b` on texts.
abbrev or_text : String → String → String
or_text a b = if non_empty a then a else b

abbrev trimmed : Option String → String
trimmed none = ""
trimmed (some s) = trim s

abbrev object_or_empty : Option Json → Fields
object_or_empty (some (obj fs)) = fs
object_or_empty _ = end

-- `Object.keys(metadata).length > 0 ? metadata : null`.
abbrev unless_empty : Fields → Option Json
unless_empty end = none
unless_empty (field k v fs) = some (obj (field k v fs))

unfoldable pub find_definition : ℕ → ℕ → Runs → Option Definition
find_definition domain_id id s =
    first (λ (d : Definition). d.id == id && d.domain_id == domain_id) s.definitions

unfoldable pub created_payload : Run → Json
created_payload r = obj (
    field "status" (str r.status) (
      field "goal" (str r.goal) (
        field "runType" (str r.run_type) (
          field "requestedBy" (text_or_null r.requested_by) (
            field "definitionId" (id_or_null r.definition_id)
              (field "metadata" (json_or_null r.metadata) end))))))

abbrev plan_step : ℕ → Run → Step
plan_step now r = record {
  run_id = r.id;
  domain_id = r.domain_id;
  step_index = 0;
  step_key = "plan_run";
  action_type = "plan";
  status = step_pending;
  request_snapshot = none;
  response_snapshot = none;
  error_message = none;
  started_at = none;
  completed_at = none;
  updated_at = now;
}

-- The rows that a new run consists of, with its plan if its type has one.
unfoldable pub insert_run : (String → ℕ → Fields → Json) → ℕ → Fields → Run → Runs → Runs
unfolding flavor_of
insert_run snapshot now metadata r s =
    let s' = add_checkpoint r "created" (created_payload r) (record s {
      runs = s.runs ++ r ∷ [];
      steps = s.steps ++ plan_step now r ∷ [];
      next_run = s.next_run + 1;
    }) in
    elim (flavor_of r.run_type) [
      | none ↦ s'
      | some f ↦ add_checkpoint r f.plan_key (snapshot r.run_type r.domain_id metadata) s'
    ]

-- The metadata of the definition under that of the request.
unfoldable pub run_metadata : CreateInput → Option Definition → Fields
run_metadata input none = spread end input.metadata
run_metadata input (some d) = spread (object_or_empty d.strategy_config) input.metadata

abbrev id_of : Option Definition → Option ℕ
id_of none = none
id_of (some d) = some d.id

abbrev asked_run_type : CreateInput → String
asked_run_type input = or_text (trimmed input.run_type) "review_backlog_manager"

abbrev run_type_of : CreateInput → Option Definition → String
run_type_of input none = asked_run_type input
run_type_of input (some d) = or_text d.run_type (asked_run_type input)

abbrev pub initial_status : CreateInput → RunStatus
initial_status input = if input.require_approval then waiting_approval else queued

unfoldable pub new_run : ℕ → ℕ → CreateInput → Option Definition → ℕ → Run
unfolding run_metadata
new_run now domain_id input definition id = record {
  id = id;
  domain_id = domain_id;
  definition_id = id_of definition;
  goal = trim input.goal;
  run_type = run_type_of input definition;
  status = status_text (initial_status input);
  requested_by = input.requested_by;
  metadata = unless_empty (run_metadata input definition);
  started_at = none;
  completed_at = none;
  updated_at = now;
}

-- The rest of the request, once the definition is read.
unfoldable pub create_from :
    (String → ℕ → Fields → Json)
    → ℕ
    → ℕ
    → CreateInput
    → Option Definition
    → Runs
    → CreateResult × Runs
create_from snapshot now domain_id input definition s =
    let r = new_run now domain_id input definition s.next_run in
    (created r, insert_run snapshot now (run_metadata input definition) r s)

unfoldable pub with_definition :
    (String → ℕ → Fields → Json) → ℕ → ℕ → CreateInput → Option ℕ → Runs → CreateResult × Runs
with_definition snapshot now domain_id input none s =
    create_from snapshot now domain_id input none s
with_definition snapshot now domain_id input (some id) s = elim (find_definition domain_id id s) [
  | none ↦ (definition_not_found id, s)
  | some d ↦
      if d.active
      then create_from snapshot now domain_id input (some d) s
      else (definition_inactive id, s)
]

unfoldable pub create_run :
    (String → ℕ → Fields → Json) → ℕ → ℕ → CreateInput → Runs → CreateResult × Runs
create_run snapshot now domain_id input s =
    if non_empty (trim input.goal)
    then with_definition snapshot now domain_id input input.definition_id s
    else (invalid_goal, s)
