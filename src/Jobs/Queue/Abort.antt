-- ===== src/Jobs/Queue/Abort.antt =====
-- When a sweep of src/services/jobs.ts throws: an error of the handler of a job's error is caught by
-- nobody, and the candidates after it wait for another sweep.
use wordclaw.Shared.{
  false_ne_true, first-All, All-update, ℕ, suc, ◌+◌, ◌≤◌, String, ◌≡◌, refl, ◌∙◌, inl, inr, Bool,
  true, false, Option, none, some, List, [], ◌∷◌, arith, ltb, first, update, length, All,
  All-append, Bool-cases, Option-cases,
}
use wordclaw.Shared.Json.{Json}
use wordclaw.Jobs.Payload.{
  Parsed, Parsed-cases, thrown, ok, draft_generation, outbound_webhook, content_status_transition,
  parse_job_kind,
}
use wordclaw.Jobs.Draft.{DraftGenerationPayload, parse_draft_generation}
use wordclaw.Jobs.Queue.{
  Job, Jobs, claim, succeed, fail, has_id, set_row, may_claim, create_job, new_job, candidates,
  enqueue_webhook_job,
}
use wordclaw.Jobs.Queue.Sweep.{
  Services, swept, aborted, execute_job, notify, announce, on_failure, run_claimed, sweep,
  process_pending_jobs,
}

-- The row's kind is known, and a draft's payload is read.
abbrev pub is_readable : Job → Bool
is_readable j = elim (parse_job_kind j.kind) [
  | thrown e ↦ false
  | ok draft_generation ↦ elim (parse_draft_generation j.payload) [ thrown e ↦ false | ok p ↦ true ]
  | ok _ ↦ true
]

abbrev IsReadable : Job → Type 0
IsReadable j = is_readable j ≡ true

create_job-IsReadable :
    (now domain_id : ℕ) (payload : Json) (s : Jobs)
    → All IsReadable s.rows
    → All IsReadable (enqueue_webhook_job now domain_id payload none none s).1.rows
unfolding enqueue_webhook_job create_job new_job parse_job_kind
create_job-IsReadable now domain_id payload s readable =
    All-append IsReadable s.rows (_ ∷ []) readable (refl, tt)

set_row-IsReadable :
    (p : Job → Bool) (f : Job → Job) (js : List Job)
    → ((j : Job) → is_readable (f j) ≡ is_readable j)
    → All IsReadable js
    → All IsReadable (update p f js)
set_row-IsReadable p f js same readable =
    All-update {P = IsReadable} {Q = IsReadable} p f (λ j h e. same j ∙ h) (λ j h e. h) js readable

fail-readable :
    (now : ℕ) (claimed j : Job) (message : String)
    → is_readable (fail now claimed message j) ≡ is_readable j
unfolding fail
fail-readable now claimed j message =
    elim (Bool-cases (ltb claimed.attempts claimed.max_attempts)) [
      | inl h ↦ rw h refl
      | inr h ↦ rw h refl
    ]

-- Nothing is thrown, and the rows can still be read.
abbrev Fine : Option String × Jobs → Type 0
Fine r = (r.0 ≡ none) × All IsReadable r.1.rows

module _ (services : Services) (now : ℕ) where
  notify-IsReadable :
      (claimed : Job) (p : DraftGenerationPayload) (result : Parsed Json) (s : Jobs)
      → All IsReadable s.rows
      → All IsReadable (notify services now claimed p result s).rows
  unfolding notify
  notify-IsReadable claimed p result s readable =
      elim (Option-cases (services.notification claimed p result)) [
        | inl e ↦ rw (e, notify) readable
        | inr (payload, e) ↦
            rw (e, notify) (create_job-IsReadable now claimed.domain_id payload s readable)
      ]

  announce-Fine :
      (claimed : Job) (result : Parsed Json) (s : Jobs)
      → is_readable claimed ≡ true
      → All IsReadable s.rows
      → Fine (announce services now claimed result s)
  unfolding announce
  announce-Fine claimed result s known readable =
      elim (Parsed-cases (parse_job_kind claimed.kind)) [
        | inl (e, q) ↦ absurd (false_ne_true (rw (q, is_readable) at known))
        | inr (draft_generation, q) ↦ elim (Parsed-cases (parse_draft_generation claimed.payload)) [
          | inl (e, r) ↦ absurd (false_ne_true (rw (q, is_readable, r) at known))
          | inr (p, r) ↦
              rw (q, announce) (rw r (refl, notify-IsReadable claimed p result s readable))
        ]
        | inr (outbound_webhook, q) ↦ rw (q, announce) (refl, readable)
        | inr (content_status_transition, q) ↦ rw (q, announce) (refl, readable)
      ]

  on_failure-Fine :
      (claimed : Job) (message : String) (s : Jobs)
      → is_readable claimed ≡ true
      → All IsReadable s.rows
      → Fine (on_failure services now claimed message s)
  unfolding on_failure
  on_failure-Fine claimed message s known readable =
      let after =
        set_row-IsReadable (has_id claimed.id) (fail now claimed message) s.rows
          (λ j. fail-readable now claimed j message) readable in
      elim (Bool-cases (ltb claimed.attempts claimed.max_attempts)) [
        | inl h ↦ rw h (refl, after)
        | inr h ↦ rw h (announce-Fine claimed (thrown message) _ known after)
      ]

  run_claimed-Fine :
      (claimed : Job) (s : Jobs)
      → is_readable claimed ≡ true
      → All IsReadable s.rows
      → Fine (run_claimed services now claimed s)
  unfolding run_claimed succeed
  run_claimed-Fine claimed s known readable =
      elim (Parsed-cases (execute_job services now claimed)) [
        | inl (message, q) ↦ rw (q, run_claimed) (on_failure-Fine claimed message s known readable)
        | inr (result, q) ↦
            let after =
              set_row-IsReadable (has_id claimed.id) (succeed now result) s.rows (λ j. refl)
                readable in
            let told =
              announce-Fine claimed (ok result) (set_row claimed.id (succeed now result) s) known
                after in
            rw (q, run_claimed) (rw told.0 told)
      ]

  sweep-Fine :
      (n : ℕ) (cs : List Job) (s : Jobs)
      → All IsReadable s.rows
      → (m : ℕ) × ((sweep services now n cs s).0 ≡ swept m) × (m ≤ n + length cs)
  unfolding sweep
  sweep-Fine n [] s readable = (n, refl, omega arith)
  sweep-Fine n (c ∷ cs) s readable = elim (Option-cases (first (may_claim c.id) s.rows)) [
    | inl e ↦
        let rest = sweep-Fine n cs s readable in
        (rest.0, rw (e, sweep) rest.1, omega (arith, rest.2))
    | inr (row, e) ↦
        let s' : Jobs = record s { rows = update (may_claim c.id) (claim now) s.rows } in
        let after : All IsReadable s'.rows =
          unfold claim in
          set_row-IsReadable (may_claim c.id) (claim now) s.rows (λ j. refl) readable in
        let known : is_readable (claim now row) ≡ true =
          unfold claim in first-All IsReadable (may_claim c.id) s.rows readable e in
        let ran = run_claimed-Fine (claim now row) s' known after in
        let rest = sweep-Fine (suc n) cs (run_claimed services now (claim now row) s').1 ran.1 in
        (rest.0, rw (e, sweep) (rw ran.0 rest.1), omega (arith, rest.2))
  ]

  -- Where every row's kind is known and every draft's payload is well formed, a sweep throws nothing,
  -- whatever the jobs themselves throw, and it counts no more jobs than it has candidates.
  pub readable_completes :
      (max_jobs_per_sweep : ℕ) (s : Jobs)
      → All IsReadable s.rows
      → (m : ℕ) × ((process_pending_jobs services now max_jobs_per_sweep s).0 ≡ swept m)
        × (m ≤ length (candidates now max_jobs_per_sweep s))
  unfolding process_pending_jobs
  readable_completes max_jobs_per_sweep s readable =
      let swept_all = sweep-Fine 0 (candidates now max_jobs_per_sweep s) s readable in
      (swept_all.0, swept_all.1, omega (arith, swept_all.2))

  run_claimed-unknown :
      (claimed : Job) (s : Jobs) (e : String)
      → parse_job_kind claimed.kind ≡ thrown e
      → ltb claimed.attempts claimed.max_attempts ≡ false
      → run_claimed services now claimed s ≡ (some e, set_row claimed.id (fail now claimed e) s)
  unfolding run_claimed execute_job on_failure announce
  run_claimed-unknown claimed s e unknown used =
      rw (unknown, run_claimed, execute_job) (rw (used, on_failure) (rw (unknown, announce) refl))

  -- A job of an unknown kind that has used its last attempt aborts the sweep: it is marked as failed,
  -- and whichever candidates come after it are not run.
  pub unknown_kind_aborts :
      (n : ℕ) (c row : Job) (cs : List Job) (s : Jobs) (e : String)
      → first (may_claim c.id) s.rows ≡ some row
      → parse_job_kind row.kind ≡ thrown e
      → row.max_attempts ≤ row.attempts + 1
      → sweep services now n (c ∷ cs) s ≡ (
        aborted e,
        set_row row.id
            (fail now (claim now row) e)
            (record s { rows = update (may_claim c.id) (claim now) s.rows }),
      )
  unfolding sweep claim
  unknown_kind_aborts n c row cs s e found unknown last =
      let used : ltb (row.attempts + 1) row.max_attempts ≡ false = ground arith in
      let s' : Jobs = record s { rows = update (may_claim c.id) (claim now) s.rows } in
      let ran = run_claimed-unknown (claim now row) s' e unknown used in
      rw (found, sweep) (rw ran (rw ran refl))
