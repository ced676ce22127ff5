-- ===== src/Jobs/Queue/Retry.antt =====
-- When a job of src/services/jobs.ts that has failed is tried again.
use wordclaw.Shared.{
  ℕ, zero, suc, ◌+◌, ◌-◌, ◌^◌, ◌≤◌, ◌<◌, String, ◌≡◌, refl, ◌∙◌, Bool, true, false, inl, inr, none,
  some, List, [], ◌∷◌, arith, nat_eq, ◌==◌, ltb, lt→ltb, leb→le, and_right, first, first-update,
  update, keep, All, Bool-cases,
}
use wordclaw.Jobs.Payload.{thrown}
use wordclaw.Jobs.Queue.{
  queued, Job, Jobs, backoff_ms, compute_retry_run_at, fail, has_id, set_row, is_queued, is_due,
  before, insert_in_order, in_order, limit, candidates,
}
use wordclaw.Jobs.Queue.Sweep.{Services, execute_job, on_failure, run_claimed}

two_pow_pos : (n : ℕ) → 1 ≤ 2 ^ n
two_pow_pos zero = omega arith
two_pow_pos (suc n) = omega (arith, two_pow_pos n)

backoff_bounds : (attempts : ℕ) → (15000 ≤ backoff_ms attempts) × (backoff_ms attempts ≤ 300000)
unfolding backoff_ms
backoff_bounds attempts = let low = two_pow_pos (attempts - 1) in (omega (arith, low), omega arith)

module _ (P : Job → Type 0) where
  All-keep : (p : Job → Bool) (js : List Job) → All (λ j. p j ≡ true → P j) js → All P (keep p js)
  All-keep p [] h = tt
  All-keep p (j ∷ js) (h, hs) = elim (Bool-cases (p j)) [
    | inl e ↦ rw e (h e, All-keep p js hs)
    | inr e ↦ rw e (All-keep p js hs)
  ]

  All-insert_in_order : (j : Job) (js : List Job) → P j → All P js → All P (insert_in_order j js)
  unfolding insert_in_order
  All-insert_in_order j [] h hs = (h, tt)
  All-insert_in_order j (k ∷ ks) h (g, gs) = elim (Bool-cases (before j k)) [
    | inl e ↦ rw e (h, (g, gs))
    | inr e ↦ rw e (g, All-insert_in_order j ks h gs)
  ]

  All-in_order : (js : List Job) → All P js → All P (in_order js)
  unfolding in_order
  All-in_order [] h = tt
  All-in_order (j ∷ js) (h, hs) = All-insert_in_order j (in_order js) h (All-in_order js hs)

  All-limit : (n : ℕ) (js : List Job) → All P js → All P (limit n js)
  unfolding limit
  All-limit zero js h = tt
  All-limit (suc n) [] h = tt
  All-limit (suc n) (j ∷ js) (h, hs) = (h, All-limit n js hs)

  All-candidates :
      (later n : ℕ) (s : Jobs)
      → All (λ j. is_due later j ≡ true → P j) s.rows
      → All P (candidates later n s)
  unfolding candidates
  All-candidates later n s h = All-limit _ _ (All-in_order _ (All-keep (is_due later) s.rows h))

-- The row of a job that has failed and may be tried again.
pub record IsDelayed (now : ℕ) (message : String) (j waiting : Job) : Type 0 where
  pub is_waiting : waiting.status ≡ queued
  pub same_attempts : waiting.attempts ≡ j.attempts
  pub says : waiting.last_error ≡ some message
  pub at_least : now + 15000 ≤ waiting.run_at
  pub at_most : waiting.run_at ≤ now + 300000

module _ (services : Services) (now : ℕ) (claimed : Job) (message : String) (s : Jobs)
    (left : claimed.attempts < claimed.max_attempts)
    (failed : execute_job services now claimed ≡ thrown message) where
  run_claimed-failed :
      run_claimed services now claimed s ≡ (none, set_row claimed.id (fail now claimed message) s)
  unfolding run_claimed on_failure
  run_claimed-failed =
      let more : ltb claimed.attempts claimed.max_attempts ≡ true = lt→ltb _ _ left in
      rw (failed, run_claimed) (rw more refl)

  fail-IsDelayed : (j : Job) → IsDelayed now message j (fail now claimed message j)
  unfolding fail compute_retry_run_at
  fail-IsDelayed j =
      let more : ltb claimed.attempts claimed.max_attempts ≡ true = lt→ltb _ _ left in
      let (low, high) = backoff_bounds claimed.attempts in
      rw more (record {
        is_waiting = refl;
        same_attempts = refl;
        says = refl;
        at_least = omega (arith, low);
        at_most = omega (arith, high);
      })

  fail-id : (j : Job) → (fail now claimed message j).id ≡ j.id
  unfolding fail
  fail-id j = ground arith

  not_selected :
      (later : ℕ) (js : List Job)
      → later < now + 15000
      → All
          (λ j. is_due later j ≡ true → (j.id == claimed.id) ≡ false)
          (update (has_id claimed.id) (fail now claimed message) js)
  not_selected later [] soon = tt
  not_selected later (j ∷ js) soon = elim (Bool-cases (has_id claimed.id j)) [
    | inl e ↦ rw e (λ due. absurd (early due), not_selected later js soon)
    | inr e ↦ rw e (λ due. e, not_selected later js soon)
  ]
    where
      early : is_due later (fail now claimed message j) ≡ true → ⊥
      early due =
          let waits = fail-IsDelayed j in
          let passed =
            leb→le _ _ (and_right (is_queued (fail now claimed message j).status) _ due) in
          omega (arith, waits.at_least, passed)

  -- A job with an attempt left whose run throws does not end the sweep: its row waits again with the error's
  -- message and the same count of attempts, to run after at least 15 seconds and at most five minutes, and
  -- a sweep before these 15 seconds are over does not select it.
  pub failed_job_waits :
      (later n : ℕ) (j : Job)
      → first (has_id claimed.id) s.rows ≡ some j
      → later < now + 15000
      → ((run_claimed services now claimed s).0 ≡ none)
        × ((waiting : Job) × (first (has_id claimed.id) (run_claimed services now claimed s).1.rows
              ≡ some waiting)
            × IsDelayed now message j waiting)
        × All
            (λ (c : Job). (c.id == claimed.id) ≡ false)
            (candidates later n (run_claimed services now claimed s).1)
  failed_job_waits later n j found soon = rw run_claimed-failed (
    refl,
    (
      fail now claimed message j,
      first-update (has_id claimed.id) (fail now claimed message) (λ a. rw (fail-id a) refl) s.rows
          ∙ rw found refl,
      fail-IsDelayed j,
    ),
    All-candidates (λ c. (c.id == claimed.id) ≡ false) later n _ (not_selected later s.rows soon),
  )
