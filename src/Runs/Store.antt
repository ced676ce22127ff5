-- ===== src/Runs/Store.antt =====
-- src/services/agent-runs.ts and src/db/schema.ts: the tables of runs, steps and checkpoints. Checkpoints are
-- newest first, so that the latest of a kind is the first one.
use wordclaw.Shared.{
  ℕ, String, Bool, true, false, ◌&&◌, Option, none, some, List, [], ◌∷◌, ◌==◌, nat_eq, string_eq,
  first,
}
use wordclaw.Shared.Json.{Json, null, num, str, Items, nil, cons}

pub data StepStatus : Type 0 where
  step_pending step_executing step_succeeded step_failed step_skipped : StepStatus

abbrev pub is_pending : StepStatus → Bool
is_pending step_pending = true
is_pending _ = false

-- `inArray(status, ['pending', 'executing'])`.
abbrev pub is_open : StepStatus → Bool
is_open step_pending = true
is_open step_executing = true
is_open _ = false

abbrev pub is_failed : StepStatus → Bool
is_failed step_failed = true
is_failed _ = false

pub record Definition : Type 0 where
  pub id : ℕ
  pub domain_id : ℕ
  pub run_type : String
  pub strategy_config : Option Json
  pub active : Bool

pub record Run : Type 0 where
  pub id : ℕ
  pub domain_id : ℕ
  pub definition_id : Option ℕ
  pub goal : String
  pub run_type : String
  pub status : String
  pub requested_by : Option String
  pub metadata : Option Json
  pub started_at : Option ℕ
  pub completed_at : Option ℕ
  pub updated_at : ℕ

pub record Step : Type 0 where
  pub run_id : ℕ
  pub domain_id : ℕ
  pub step_index : ℕ
  pub step_key : String
  pub action_type : String
  pub status : StepStatus
  pub request_snapshot : Option Json
  pub response_snapshot : Option Json
  pub error_message : Option String
  pub started_at : Option ℕ
  pub completed_at : Option ℕ
  pub updated_at : ℕ

pub record Checkpoint : Type 0 where
  pub run_id : ℕ
  pub domain_id : ℕ
  pub checkpoint_key : String
  pub payload : Json

pub record Runs : Type 0 where
  pub definitions : List Definition
  pub runs : List Run
  pub steps : List Step
  pub checkpoints : List Checkpoint
  pub next_run : ℕ

abbrev pub is_run : ℕ → ℕ → Run → Bool
is_run id domain_id r = r.id == id && r.domain_id == domain_id

abbrev pub of_run : Run → Step → Bool
of_run r t = t.run_id == r.id && t.domain_id == r.domain_id

-- The steps of the run, of one type.
abbrev pub of_type : String → Run → Step → Bool
of_type action_type r t = of_run r t && t.action_type == action_type

unfoldable pub find_run : ℕ → ℕ → Runs → Option Run
find_run domain_id run_id s = first (is_run run_id domain_id) s.runs

unfoldable pub add_checkpoint : Run → String → Json → Runs → Runs
add_checkpoint r checkpoint_key payload s = record s {
  checkpoints =
      record {
        run_id = r.id;
        domain_id = r.domain_id;
        checkpoint_key = checkpoint_key;
        payload = payload;
      }
      ∷ s.checkpoints;
}

abbrev pub of_key : String → Run → Checkpoint → Bool
of_key k r c = c.run_id == r.id && (c.domain_id == r.domain_id && c.checkpoint_key == k)

abbrev pub natural : ℕ → Json
natural n = num (record { negative = false; integer_part = n; whole = true })

abbrev pub array_of : List ℕ → Items
array_of [] = nil
array_of (n ∷ ns) = cons (natural n) (array_of ns)

abbrev pub text_or_null : Option String → Json
text_or_null none = null
text_or_null (some s) = str s

abbrev pub id_or_null : Option ℕ → Json
id_or_null none = null
id_or_null (some i) = natural i

abbrev pub json_or_null : Option Json → Json
json_or_null none = null
json_or_null (some v) = v
