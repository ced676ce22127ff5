-- ===== src/Jobs/Tests.antt =====
-- Runs of the jobs code, and its theorems at inputs that meet their hypotheses.
use wordclaw.Shared.{
  some, first, ℕ, ◌≤◌, ◌≡◌, refl, All, nat_eq, ◌==◌, true, false, none, [], ◌∷◌, arith, update,
  length, trim, non_empty,
}
use wordclaw.Shared.Json.{null, num, str, obj, end, field, get}
use wordclaw.Jobs.Payload.{
  thrown, ok, parse_job_kind, parse_content_status_transition, positive_integer, trimmed_text,
}
use wordclaw.Jobs.Queue.{Job, Jobs, queued, running, claim, fail, set_row, may_claim, candidates}
use wordclaw.Jobs.Queue.Sweep.{
  Services, run_claimed, execute_job, parse_payload, swept, aborted, sweep, process_pending_jobs,
}
use wordclaw.Jobs.Queue.Rows.{IsSound}
use wordclaw.Jobs.Queue.Settled.{settled_stays}
use wordclaw.Jobs.Queue.{cancelled, has_id}
use wordclaw.Jobs.Queue.Retry.{IsDelayed, failed_job_waits}
use wordclaw.Jobs.Queue.Attempts.{process_pending_jobs-IsSound}
use wordclaw.Jobs.Queue.Abort.{readable_completes, unknown_kind_aborts}

transition_runs :
    parse_content_status_transition (
      obj (
        field "contentItemId"
          (num (record { negative = false; integer_part = 4; whole = true }))
          (field "targetStatus" (str " live ") end)))
    ≡ ok (record { content_item_id = 4; target_status = "live" })
unfolding parse_content_status_transition positive_integer trimmed_text get trim non_empty
transition_runs = refl

abbrev job : Job
job = record {
  id = 1;
  domain_id = 1;
  kind = "content_status_transition";
  queue = "content";
  status = queued;
  payload = null;
  result = none;
  attempts = 2;
  max_attempts = 3;
  run_at = 5;
  last_error = none;
  started_at = none;
  completed_at = none;
  updated_at = 0;
}

abbrev other_job : Job
other_job = record job { id = 2; kind = "export"; attempts = 0; max_attempts = 1 }

abbrev table : Jobs
table = record { rows = job ∷ other_job ∷ []; next_id = 3 }

abbrev services : Services
services = record { run_job = λ d p. ok null; notification = λ j p r. none }

abbrev running_job : Job
running_job = record job {
  status = running;
  attempts = 1;
  payload = obj (
      field "contentItemId" (num (record { negative = false; integer_part = 4; whole = true }))
        (field "targetStatus" (str "live") end));
}

abbrev running_table : Jobs
running_table = record { rows = running_job ∷ other_job ∷ []; next_id = 3 }

abbrev broken : Services
broken = record { run_job = λ d p. thrown "offline"; notification = λ j p r. none }

failed_job_waits_example :
    ((run_claimed broken 10 running_job running_table).0 ≡ none)
    × ((waiting : Job) × (first (has_id 1) (run_claimed broken 10 running_job running_table).1.rows
          ≡ some waiting)
        × IsDelayed 10 "offline" running_job waiting)
    × All
        (λ (c : Job). (c.id == 1) ≡ false)
        (candidates 9000 25 (run_claimed broken 10 running_job running_table).1)
unfolding execute_job parse_job_kind parse_payload parse_content_status_transition positive_integer
    trimmed_text get trim non_empty
failed_job_waits_example =
    failed_job_waits broken 10 running_job "offline" running_table (omega arith) refl 9000 25
      running_job refl (omega arith)

process_pending_jobs-IsSound_example : IsSound (process_pending_jobs services 10 25 table).1
process_pending_jobs-IsSound_example = process_pending_jobs-IsSound services 10 25 table (
  (omega arith, (omega arith, tt)),
  (omega arith, ((λ e. absurd (omega (arith, e))), tt), (omega arith, tt, tt)),
)

readable_completes_example :
    (m : ℕ) × ((process_pending_jobs services 10 25 (record table { rows = job ∷ [] })).0 ≡ swept m)
    × (m ≤ length (candidates 10 25 (record table { rows = job ∷ [] })))
unfolding parse_job_kind
readable_completes_example =
    readable_completes services 10 25 (record table { rows = job ∷ [] }) (refl, tt)

unknown_kind_aborts_example : sweep services 10 0 (other_job ∷ job ∷ []) table ≡ (
  aborted "Unsupported job kind 'export'.",
  set_row 2
      (fail 10 (claim 10 other_job) "Unsupported job kind 'export'.")
      (record table { rows = update (may_claim 2) (claim 10) table.rows }),
)
unfolding parse_job_kind
unknown_kind_aborts_example =
    unknown_kind_aborts services 10 0 other_job other_job (job ∷ []) table
      "Unsupported job kind 'export'." refl refl (omega arith)

abbrev stopped : Jobs
stopped = record table { rows = job ∷ record other_job { status = cancelled } ∷ [] }

settled_stays_example :
    first (has_id 2) (process_pending_jobs services 10 25 stopped).1.rows
    ≡ some (record other_job { status = cancelled })
settled_stays_example =
    settled_stays services 10 2 (record other_job { status = cancelled }) 25 stopped
      (
        (omega arith, (omega arith, tt)),
        (omega arith, ((λ e. absurd (omega (arith, e))), tt), (omega arith, tt, tt)),
      )
      refl refl
