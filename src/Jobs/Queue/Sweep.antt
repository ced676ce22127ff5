-- ===== src/Jobs/Queue/Sweep.antt =====
-- src/services/jobs.ts: `processPendingJobs` and what it calls. Running a parsed job is an argument, as
-- is the payload of a notification; the times that one sweep reads are one time.
use wordclaw.Shared.{
  ℕ, suc, String, Option, none, some, List, [], ◌∷◌, if◌then◌else◌, nat_eq, string_eq, ltb, first,
  update,
}
use wordclaw.Shared.Json.{Json}
use wordclaw.Jobs.Payload.{
  Parsed, thrown, ok, JobKind, content_status_transition, outbound_webhook, draft_generation,
  parse_job_kind, ContentStatusTransitionPayload, parse_content_status_transition,
  OutboundWebhookPayload, parse_outbound_webhook,
}
use wordclaw.Jobs.Draft.{DraftGenerationPayload, parse_draft_generation}
use wordclaw.Jobs.Queue.{
  Job, Jobs, enqueue_webhook_job, candidates, claim, succeed, fail, set_row, may_claim,
}

pub data ParsedPayload : Type 0 where
  transition : ContentStatusTransitionPayload → ParsedPayload
  webhook : OutboundWebhookPayload → ParsedPayload
  draft : DraftGenerationPayload → ParsedPayload

abbrev wrap {ℓ} : {A : Type ℓ} → (A → ParsedPayload) → Parsed A → Parsed ParsedPayload
wrap f (thrown e) = thrown e
wrap f (ok a) = ok (f a)

unfoldable pub parse_payload : JobKind → Json → Parsed ParsedPayload
parse_payload outbound_webhook p = wrap webhook (parse_outbound_webhook p)
parse_payload draft_generation p = wrap draft (parse_draft_generation p)
parse_payload content_status_transition p = wrap transition (parse_content_status_transition p)

-- What a sweep calls that is not modelled here: how a parsed job runs, and the payload that tells a
-- form's webhook of a draft's outcome, if the form has one.
pub record Services : Type 0 where
  pub run_job : ℕ → ParsedPayload → Parsed Json
  pub notification : Job → DraftGenerationPayload → Parsed Json → Option Json

pub data Outcome : Type 0 where
  swept : ℕ → Outcome
  aborted : String → Outcome

module _ (services : Services) (now : ℕ) where
  unfoldable pub execute_job : Job → Parsed Json
  execute_job row = elim (parse_job_kind row.kind) [
    | thrown e ↦ thrown e
    | ok kind ↦ elim (parse_payload kind row.payload) [
      | thrown e ↦ thrown e
      | ok p ↦ services.run_job row.domain_id p
    ]
  ]

  -- The notification about a draft that has ended; an error of the enqueueing is only logged.
  unfoldable pub notify : Job → DraftGenerationPayload → Parsed Json → Jobs → Jobs
  notify claimed p result s = elim (services.notification claimed p result) [
    | none ↦ s
    | some payload ↦ (enqueue_webhook_job now claimed.domain_id payload none none s).1
  ]

  -- `parseJobKind(...) === 'draft_generation'` and what follows it: a message where this throws.
  unfoldable pub announce : Job → Parsed Json → Jobs → Option String × Jobs
  announce claimed result s = elim (parse_job_kind claimed.kind) [
    | thrown e ↦ (some e, s)
    | ok draft_generation ↦ elim (parse_draft_generation claimed.payload) [
      | thrown e ↦ (some e, s)
      | ok p ↦ (none, notify claimed p result s)
    ]
    | ok _ ↦ (none, s)
  ]

  -- The handler of the `catch`.
  unfoldable pub on_failure : Job → String → Jobs → Option String × Jobs
  on_failure claimed message s =
      let s' = set_row claimed.id (fail now claimed message) s in
      if ltb claimed.attempts claimed.max_attempts
      then (none, s')
      else announce claimed (thrown message) s'

  -- A claimed job: what the sweep throws, if it does.
  unfoldable pub run_claimed : Job → Jobs → Option String × Jobs
  run_claimed claimed s = elim (execute_job claimed) [
    | thrown message ↦ on_failure claimed message s
    | ok result ↦
        let told = announce claimed (ok result) (set_row claimed.id (succeed now result) s) in
        elim told.0 [ none ↦ told | some message ↦ on_failure claimed message told.1 ]
  ]

  unfoldable pub sweep : ℕ → List Job → Jobs → Outcome × Jobs
  sweep processed [] s = (swept processed, s)
  sweep processed (c ∷ cs) s = elim (first (may_claim c.id) s.rows) [
    | none ↦ sweep processed cs s
    | some row ↦
        let ran =
          run_claimed (claim now row)
            (record s { rows = update (may_claim c.id) (claim now) s.rows }) in
        elim ran.0 [
          | none ↦ sweep (suc processed) cs ran.1
          | some message ↦ (aborted message, ran.1)
        ]
  ]

  unfoldable pub process_pending_jobs : ℕ → Jobs → Outcome × Jobs
  process_pending_jobs max_jobs_per_sweep s = sweep 0 (candidates now max_jobs_per_sweep s) s
