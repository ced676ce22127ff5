-- ===== src/Jobs/Queue/Attempts.antt =====
-- The attempts of the jobs of src/services/jobs.ts in a sweep.
use wordclaw.Shared.{
  ℕ, suc, String, ◌≡◌, refl, ◌⊎◌, inl, inr, none, some, List, [], ◌∷◌, nat_eq, ltb, first, update,
  Bool-cases, Option-cases,
}
use wordclaw.Shared.Json.{Json}
use wordclaw.Jobs.Payload.{
  Parsed-cases, Parsed, thrown, ok, outbound_webhook, draft_generation, content_status_transition,
  parse_job_kind,
}
use wordclaw.Jobs.Draft.{DraftGenerationPayload, parse_draft_generation}
use wordclaw.Jobs.Queue.{
  Job, Jobs, enqueue_webhook_job, claim, succeed, set_row, may_claim, candidates,
}
use wordclaw.Jobs.Queue.Sweep.{
  Services, execute_job, notify, announce, on_failure, run_claimed, sweep, process_pending_jobs,
}
use wordclaw.Jobs.Queue.Rows.{
  IsSound, IsHeld, claim-IsHeld, succeed-IsHeld, fail-IsHeld, create_job-IsSound,
}

module _ (services : Services) (now : ℕ) where
  notify-IsSound :
      (claimed : Job) (p : DraftGenerationPayload) (result : Parsed Json) (s : Jobs)
      → IsSound s
      → IsSound (notify services now claimed p result s)
  unfolding notify enqueue_webhook_job
  notify-IsSound claimed p result s sound =
      elim (Option-cases (services.notification claimed p result)) [
        | inl e ↦ rw (e, notify) sound
        | inr (payload, e) ↦ rw (e, notify) (create_job-IsSound now _ s sound)
      ]

  -- What an announcement does: it throws and changes nothing, or it does not throw.
  pub announce-cases :
      (claimed : Job) (result : Parsed Json) (s : Jobs)
      → ((e : String) × (announce services now claimed result s ≡ (some e, s)))
        ⊎ ((announce services now claimed result s ≡ (none, s))
            ⊎ ((p : DraftGenerationPayload) × (announce services now claimed result s
                  ≡ (none, notify services now claimed p result s))))
  unfolding announce
  announce-cases claimed result s = elim (Parsed-cases (parse_job_kind claimed.kind)) [
    | inl (e, q) ↦ inl (e, rw (q, announce) refl)
    | inr (draft_generation, q) ↦ elim (Parsed-cases (parse_draft_generation claimed.payload)) [
      | inl (e, r) ↦ inl (e, rw (q, announce) (rw r refl))
      | inr (p, r) ↦ inr (inr (p, rw (q, announce) (rw r refl)))
    ]
    | inr (outbound_webhook, q) ↦ inr (inl (rw (q, announce) refl))
    | inr (content_status_transition, q) ↦ inr (inl (rw (q, announce) refl))
  ]

  announce-IsSound :
      (claimed : Job) (result : Parsed Json) (s : Jobs)
      → IsSound s
      → IsSound (announce services now claimed result s).1
  announce-IsSound claimed result s sound = elim (announce-cases claimed result s) [
    | inl (e, q) ↦ rw q sound
    | inr (inl q) ↦ rw q sound
    | inr (inr (p, q)) ↦ rw q (notify-IsSound claimed p result s sound)
  ]

  on_failure-IsSound :
      (claimed : Job) (message : String) (s : Jobs)
      → IsHeld claimed s
      → IsSound (on_failure services now claimed message s).1
  unfolding on_failure
  on_failure-IsSound claimed message s held =
      let sound = (fail-IsHeld now message claimed s held).0 in
      elim (Bool-cases (ltb claimed.attempts claimed.max_attempts)) [
        | inl h ↦ rw h sound
        | inr h ↦ rw h (announce-IsSound claimed (thrown message) _ sound)
      ]

  pub run_claimed-IsSound :
      (claimed : Job) (s : Jobs) → IsHeld claimed s → IsSound (run_claimed services now claimed s).1
  unfolding run_claimed
  run_claimed-IsSound claimed s held = elim (Parsed-cases (execute_job services now claimed)) [
    | inl (message, q) ↦ rw (q, run_claimed) (on_failure-IsSound claimed message s held)
    | inr (result, q) ↦
        let s' : Jobs = set_row claimed.id (succeed now result) s in
        let held' : IsHeld claimed s' = succeed-IsHeld now result claimed s held in
        elim (announce-cases claimed (ok result) s') [
          | inl (e, r) ↦ rw (q, run_claimed) (rw r (rw r (on_failure-IsSound claimed e s' held')))
          | inr (inl r) ↦ rw (q, run_claimed) (rw r (rw r held'.0))
          | inr (inr (p, r)) ↦
              rw (q, run_claimed) (rw r (rw r (notify-IsSound claimed p (ok result) s' held'.0)))
        ]
  ]

  sweep-IsSound :
      (n : ℕ) (cs : List Job) (s : Jobs) → IsSound s → IsSound (sweep services now n cs s).1
  unfolding sweep
  sweep-IsSound n [] s sound = sound
  sweep-IsSound n (c ∷ cs) s sound = elim (Option-cases (first (may_claim c.id) s.rows)) [
    | inl e ↦ rw (e, sweep) (sweep-IsSound n cs s sound)
    | inr (row, e) ↦
        let s' : Jobs = record s { rows = update (may_claim c.id) (claim now) s.rows } in
        let ran = run_claimed services now (claim now row) s' in
        let held = run_claimed-IsSound (claim now row) s' (claim-IsHeld now c.id s row sound e) in
        elim (Option-cases ran.0) [
          | inl q ↦ rw (e, sweep) (rw q (sweep-IsSound (suc n) cs ran.1 held))
          | inr (m, q) ↦ rw (e, sweep) (rw q held)
        ]
  ]

  -- A sweep, also one that is cut short by an error, keeps every waiting job's next attempt and every
  -- job's attempts within the job's maximum, and the ids distinct.
  pub process_pending_jobs-IsSound :
      (max_jobs_per_sweep : ℕ) (s : Jobs)
      → IsSound s
      → IsSound (process_pending_jobs services now max_jobs_per_sweep s).1
  unfolding process_pending_jobs
  process_pending_jobs-IsSound max_jobs_per_sweep s sound =
      sweep-IsSound 0 (candidates now max_jobs_per_sweep s) s sound
