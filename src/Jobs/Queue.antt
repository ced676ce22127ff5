-- ===== src/Jobs/Queue.antt =====
-- src/services/jobs.ts: the table of jobs, and the operations on it. A job's kind is a text column, so
-- that a row may hold a kind that the code does not know. `claimedAt`, which is set with `startedAt`, is
-- left out.
pub mod Sweep
pub mod Rows
pub mod Attempts
pub mod Abort
pub mod Settled
pub mod Retry
use wordclaw.Shared.{
  ℕ, zero, suc, ◌+◌, ◌-◌, ◌*◌, ◌^◌, String, Bool, true, false, not, ◌&&◌, ◌||◌, Option, none, some,
  List, [], ◌∷◌, ◌++◌, min, max, if◌then◌else◌, ◌==◌, nat_eq, string_eq, ltb, leb, keep, first,
  update, trim, non_empty,
}
use wordclaw.Shared.Json.{Json}
use wordclaw.Jobs.Payload.{
  Parsed, thrown, ok, JobKind, content_status_transition, outbound_webhook, draft_generation,
  parse_job_kind, ContentStatusTransitionPayload, parse_content_status_transition,
  OutboundWebhookPayload, parse_outbound_webhook,
}
use wordclaw.Jobs.Draft.{DraftGenerationPayload, parse_draft_generation}

pub data JobStatus : Type 0 where
  queued running succeeded failed cancelled : JobStatus

abbrev pub is_queued : JobStatus → Bool
is_queued queued = true
is_queued _ = false

pub record Job : Type 0 where
  pub id : ℕ
  pub domain_id : ℕ
  pub kind : String
  pub queue : String
  pub status : JobStatus
  pub payload : Json
  pub result : Option Json
  pub attempts : ℕ
  pub max_attempts : ℕ
  pub run_at : ℕ
  pub last_error : Option String
  pub started_at : Option ℕ
  pub completed_at : Option ℕ
  pub updated_at : ℕ

pub record Jobs : Type 0 where
  pub rows : List Job
  pub next_id : ℕ

-- The milliseconds before a job that has failed is tried again.
unfoldable pub backoff_ms : ℕ → ℕ
backoff_ms attempts = min (5 * 60 * 1000) (15 * 1000 * 2 ^ (attempts - 1))

unfoldable pub compute_retry_run_at : ℕ → ℕ → ℕ
unfolding backoff_ms
compute_retry_run_at now attempts = now + backoff_ms attempts

abbrev kind_text : JobKind → String
kind_text content_status_transition = "content_status_transition"
kind_text outbound_webhook = "outbound_webhook"
kind_text draft_generation = "draft_generation"

abbrev default_queue : JobKind → String
default_queue outbound_webhook = "webhooks"
default_queue draft_generation = "drafts"
default_queue content_status_transition = "content"

abbrev normalize_job_queue : Option String → JobKind → String
normalize_job_queue none kind = default_queue kind
normalize_job_queue (some q) kind = if non_empty (trim q) then trim q else default_queue kind

pub record CreateJobInput : Type 0 where
  pub domain_id : ℕ
  pub kind : JobKind
  pub payload : Json
  pub queue : Option String
  pub run_at : Option ℕ
  pub max_attempts : Option ℕ

abbrev or_value : Option ℕ → ℕ → ℕ
or_value none d = d
or_value (some n) d = n

unfoldable pub new_job : ℕ → ℕ → CreateJobInput → Job
new_job now id input = record {
  id = id;
  domain_id = input.domain_id;
  kind = kind_text input.kind;
  queue = normalize_job_queue input.queue input.kind;
  status = queued;
  payload = input.payload;
  result = none;
  attempts = 0;
  max_attempts = max 1 (min (or_value input.max_attempts 3) 10);
  run_at = or_value input.run_at now;
  last_error = none;
  started_at = none;
  completed_at = none;
  updated_at = now;
}

unfoldable pub create_job : ℕ → CreateJobInput → Jobs → Job × Jobs
create_job now input s =
    let job = new_job now s.next_id input in
    (job, record { rows = s.rows ++ job ∷ []; next_id = suc s.next_id })

-- `enqueueWebhookJob`, its payload built by the caller.
unfoldable pub enqueue_webhook_job : ℕ → ℕ → Json → Option ℕ → Option ℕ → Jobs → Job × Jobs
enqueue_webhook_job now domain_id payload run_at max_attempts = create_job now (record {
  domain_id = domain_id;
  kind = outbound_webhook;
  payload = payload;
  queue = some "webhooks";
  run_at = run_at;
  max_attempts = some (or_value max_attempts 4);
})

unfoldable pub get_job : ℕ → ℕ → Jobs → Option Job
get_job domain_id id s = first (λ j. j.domain_id == domain_id && j.id == id) s.rows

unfoldable pub cancel : ℕ → Job → Job
cancel now j = record j { status = cancelled; completed_at = some now; updated_at = now }

abbrev pub may_cancel : ℕ → ℕ → Job → Bool
may_cancel domain_id id j = j.domain_id == domain_id && (j.id == id && is_queued j.status)

unfoldable pub cancel_job : ℕ → ℕ → ℕ → Jobs → Option Job × Jobs
cancel_job now domain_id id s =
    let row = first (may_cancel domain_id id) s.rows in
    (
      elim row [ none ↦ none | some j ↦ some (cancel now j) ],
      record s { rows = update (may_cancel domain_id id) (cancel now) s.rows },
    )

-- The order of a sweep: by the time to run at, then by id.
abbrev before : Job → Job → Bool
before a b = if a.run_at == b.run_at then leb a.id b.id else ltb a.run_at b.run_at

unfoldable insert_in_order : Job → List Job → List Job
insert_in_order j [] = j ∷ []
insert_in_order j (k ∷ ks) =
    let rest = k ∷ insert_in_order j ks in if before j k then j ∷ k ∷ ks else rest

unfoldable in_order : List Job → List Job
unfolding insert_in_order
in_order [] = []
in_order (j ∷ js) = insert_in_order j (in_order js)

unfoldable limit {ℓ} : {A : Type ℓ} → ℕ → List A → List A
limit zero xs = []
limit (suc n) [] = []
limit (suc n) (x ∷ xs) = x ∷ limit n xs

abbrev is_due : ℕ → Job → Bool
is_due now j = is_queued j.status && leb j.run_at now

unfoldable pub candidates : ℕ → ℕ → Jobs → List Job
unfolding in_order limit
candidates now max_jobs_per_sweep s =
    limit (max 1 (min max_jobs_per_sweep 100)) (in_order (keep (is_due now) s.rows))

unfoldable pub claim : ℕ → Job → Job
claim now j = record j {
  status = running;
  attempts = j.attempts + 1;
  started_at = some now;
  updated_at = now;
}

unfoldable pub succeed : ℕ → Json → Job → Job
succeed now result j = record j {
  status = succeeded;
  result = some result;
  last_error = none;
  completed_at = some now;
  updated_at = now;
}

-- The update of the row after the claimed job has failed.
unfoldable pub fail : ℕ → Job → String → Job → Job
unfolding compute_retry_run_at
fail now claimed message j =
    if ltb claimed.attempts claimed.max_attempts
    then record j {
      status = queued;
      run_at = compute_retry_run_at now claimed.attempts;
      last_error = some message;
      completed_at = none;
      updated_at = now;
    }
    else record j {
      status = failed;
      run_at = claimed.run_at;
      last_error = some message;
      completed_at = some now;
      updated_at = now;
    }

abbrev pub has_id : ℕ → Job → Bool
has_id id j = j.id == id

abbrev pub set_row : ℕ → (Job → Job) → Jobs → Jobs
set_row id f s = record s { rows = update (has_id id) f s.rows }

abbrev pub may_claim : ℕ → Job → Bool
may_claim id j = j.id == id && is_queued j.status
