-- ===== src/Jobs/Queue/Settled.antt =====
-- The rows that a sweep of src/services/jobs.ts leaves alone: those that are not queued.
use wordclaw.Shared.{
  first-All, ℕ, suc, String, ◌≡◌, ◌≢◌, refl, sym, ap, ◌∙◌, inl, inr, Bool, true, false, some, List,
  [], ◌∷◌, ◌++◌, arith, if◌then◌else◌, ◌==◌, nat_eq, ltb, first, first-holds, update, nat_beq_iff,
  Bool-cases, Option-cases,
}
use mathlib.Core.Option.{none-ne-some}
use wordclaw.Shared.Json.{Json}
use wordclaw.Jobs.Payload.{Parsed, Parsed-cases, thrown, ok}
use wordclaw.Jobs.Draft.{DraftGenerationPayload}
use wordclaw.Jobs.Queue.{
  is_queued, Job, Jobs, create_job, enqueue_webhook_job, claim, succeed, fail, has_id, set_row,
  may_claim, candidates,
}
use wordclaw.Jobs.Queue.Sweep.{
  Services, execute_job, notify, announce, on_failure, run_claimed, sweep, process_pending_jobs,
}
use wordclaw.Jobs.Queue.Rows.{IsSound, claim-IsHeld, claimable_unique, claimable_id, fail_attempts}
use wordclaw.Jobs.Queue.Attempts.{announce-cases, run_claimed-IsSound}

false_is_not_true : false ≢ true
false_is_not_true e = cc

-- A write of rows that have another id does not change the row found.
first-elsewhere :
    (i : ℕ) (p : Job → Bool) (f : Job → Job) (js : List Job)
    → ((j : Job) → (f j).id ≡ j.id)
    → ((j : Job) → p j ≡ true → j.id ≢ i)
    → first (has_id i) (update p f js) ≡ first (has_id i) js
first-elsewhere i p f [] same apart = refl
first-elsewhere i p f (j ∷ js) same apart = elim (Bool-cases (p j)) [
  | inl h ↦
      let miss : (j.id == i) ≡ false = (elim (Bool-cases (j.id == i)) [
        | inl e ↦ absurd (apart j h ((nat_beq_iff j.id i).0 e))
        | inr e ↦ e
      ]) in
      rw h (rw (same j) (rw miss (first-elsewhere i p f js same apart)))
  | inr h ↦ rw h (ap (λ o. if j.id == i then some j else o) (first-elsewhere i p f js same apart))
]

first-more :
    (i : ℕ) (js ks : List Job) (j : Job)
    → first (has_id i) js ≡ some j
    → first (has_id i) (js ++ ks) ≡ some j
first-more i [] ks j found = absurd (none-ne-some j found)
first-more i (k ∷ js) ks j found = elim (Bool-cases (k.id == i)) [
  | inl h ↦ rw h (rw h at found)
  | inr h ↦ rw h (first-more i js ks j (rw h at found))
]

set_row-elsewhere :
    (i id : ℕ) (f : Job → Job) (s : Jobs)
    → id ≢ i
    → ((j : Job) → (f j).id ≡ j.id)
    → first (has_id i) (set_row id f s).rows ≡ first (has_id i) s.rows
set_row-elsewhere i id f s apart same =
    first-elsewhere i (has_id id) f s.rows same
      (λ j h e. apart (sym ((nat_beq_iff j.id id).0 h) ∙ e))

-- A row that is claimed is not the row that is not queued.
claimed_apart :
    (id i : ℕ) (s : Jobs) (row j : Job)
    → IsSound s
    → first (has_id i) s.rows ≡ some j
    → is_queued j.status ≡ false
    → first (may_claim id) s.rows ≡ some row
    → id ≢ i
claimed_apart id i s row j (bounded, keyed) found idle claimable same =
    let at_i : j.id ≡ i = (nat_beq_iff j.id i).0 (first-holds (has_id i) s.rows found) in
    let only =
      first-All (λ k. k.id ≡ id → k ≡ row) (has_id i) s.rows
        (claimable_unique s.next_id id s.rows row keyed claimable) found in
    let is_row : j ≡ row = only (at_i ∙ sym same) in
    let may : may_claim id row ≡ true = first-holds (may_claim id) s.rows claimable in
    let waits : is_queued row.status ≡ true = ground arith in
    false_is_not_true (sym idle ∙ (ap (λ k. is_queued k.status) is_row ∙ waits))

module _ (services : Services) (now i : ℕ) (j : Job) where
  notify-found :
      (claimed : Job) (p : DraftGenerationPayload) (result : Parsed Json) (s : Jobs)
      → first (has_id i) s.rows ≡ some j
      → first (has_id i) (notify services now claimed p result s).rows ≡ some j
  unfolding notify enqueue_webhook_job create_job
  notify-found claimed p result s found =
      elim (Option-cases (services.notification claimed p result)) [
        | inl e ↦ rw (e, notify) found
        | inr (payload, e) ↦ rw (e, notify) (first-more i s.rows _ j found)
      ]

  announce-found :
      (claimed : Job) (result : Parsed Json) (s : Jobs)
      → first (has_id i) s.rows ≡ some j
      → first (has_id i) (announce services now claimed result s).1.rows ≡ some j
  announce-found claimed result s found = elim (announce-cases services now claimed result s) [
    | inl (e, q) ↦ rw q found
    | inr (inl q) ↦ rw q found
    | inr (inr (p, q)) ↦ rw q (notify-found claimed p result s found)
  ]

  on_failure-found :
      (claimed : Job) (message : String) (s : Jobs)
      → claimed.id ≢ i
      → first (has_id i) s.rows ≡ some j
      → first (has_id i) (on_failure services now claimed message s).1.rows ≡ some j
  unfolding on_failure
  on_failure-found claimed message s apart found =
      let kept : first (has_id i) (set_row claimed.id (fail now claimed message) s).rows ≡ some j =
        set_row-elsewhere i claimed.id (fail now claimed message) s apart
          (λ k. (fail_attempts now claimed k message).0)
        ∙ found in
      elim (Bool-cases (ltb claimed.attempts claimed.max_attempts)) [
        | inl h ↦ rw h kept
        | inr h ↦ rw h (announce-found claimed (thrown message) _ kept)
      ]

  run_claimed-found :
      (claimed : Job) (s : Jobs)
      → claimed.id ≢ i
      → first (has_id i) s.rows ≡ some j
      → first (has_id i) (run_claimed services now claimed s).1.rows ≡ some j
  unfolding run_claimed succeed
  run_claimed-found claimed s apart found = elim (Parsed-cases (execute_job services now claimed)) [
    | inl (message, q) ↦ rw (q, run_claimed) (on_failure-found claimed message s apart found)
    | inr (result, q) ↦
        let s' : Jobs = set_row claimed.id (succeed now result) s in
        let kept : first (has_id i) s'.rows ≡ some j =
          set_row-elsewhere i claimed.id (succeed now result) s apart (λ k. refl) ∙ found in
        elim (announce-cases services now claimed (ok result) s') [
          | inl (e, r) ↦
              rw (q, run_claimed) (rw r (rw r (on_failure-found claimed e s' apart kept)))
          | inr (inl r) ↦ rw (q, run_claimed) (rw r (rw r kept))
          | inr (inr (p, r)) ↦
              rw (q, run_claimed) (rw r (rw r (notify-found claimed p (ok result) s' kept)))
        ]
  ]

  sweep-found :
      (n : ℕ) (cs : List Job) (s : Jobs)
      → IsSound s
      → first (has_id i) s.rows ≡ some j
      → is_queued j.status ≡ false
      → first (has_id i) (sweep services now n cs s).1.rows ≡ some j
  unfolding sweep
  sweep-found n [] s sound found idle = found
  sweep-found n (c ∷ cs) s sound found idle = elim (Option-cases (first (may_claim c.id) s.rows)) [
    | inl e ↦ rw (e, sweep) (sweep-found n cs s sound found idle)
    | inr (row, e) ↦
        let s' : Jobs = record s { rows = update (may_claim c.id) (claim now) s.rows } in
        let apart : c.id ≢ i = claimed_apart c.id i s row j sound found idle e in
        let at_c : row.id ≡ c.id = claimable_id c.id row (first-holds (may_claim c.id) s.rows e) in
        let kept : first (has_id i) s'.rows ≡ some j =
          first-elsewhere i (may_claim c.id) (claim now) s.rows (λ k. unfold claim in refl)
            (λ k h same. apart (sym (claimable_id c.id k h) ∙ same))
          ∙ found in
        let ran = run_claimed services now (claim now row) s' in
        let sound' =
          run_claimed-IsSound services now (claim now row) s'
            (claim-IsHeld now c.id s row sound e) in
        let found' =
          run_claimed-found (claim now row) s' (unfold claim in (λ same. apart (sym at_c ∙ same)))
            kept in
        elim (Option-cases ran.0) [
          | inl q ↦ rw (e, sweep) (rw q (sweep-found (suc n) cs ran.1 sound' found' idle))
          | inr (m, q) ↦ rw (e, sweep) (rw q found')
        ]
  ]

  -- A sweep changes no job that is not queued when it starts: one that is running, that has succeeded or
  -- failed, or that was cancelled keeps its row whole, also when the sweep is cut short.
  pub settled_stays :
      (max_jobs_per_sweep : ℕ) (s : Jobs)
      → IsSound s
      → first (has_id i) s.rows ≡ some j
      → is_queued j.status ≡ false
      → first (has_id i) (process_pending_jobs services now max_jobs_per_sweep s).1.rows ≡ some j
  unfolding process_pending_jobs
  settled_stays max_jobs_per_sweep s sound found idle =
      sweep-found 0 (candidates now max_jobs_per_sweep s) s sound found idle
