-- ===== src/Jobs/Queue/Rows.antt =====
-- The rows of the jobs' table of src/services/jobs.ts under each write of it: ids stay distinct, and
-- attempts within their bounds.
use wordclaw.Shared.{
  ℕ, suc, ◌+◌, ◌≤◌, ◌<◌, String, ◌≡◌, ◌≢◌, refl, sym, ap, ◌∙◌, subst, inl, inr, Bool, true, some,
  List, [], ◌∷◌, ◌++◌, arith, nat_eq, ltb, first, first-holds, update, All, All-append, All-update,
  All-weaken, first-All, nat_beq_iff, Bool-cases,
}
use mathlib.Core.Option.{some-injective}
use wordclaw.Shared.Json.{Json}
use wordclaw.Jobs.Queue.{
  JobStatus, queued, Job, Jobs, CreateJobInput, new_job, create_job, cancel, may_cancel, cancel_job,
  claim, succeed, fail, has_id, set_row, may_claim,
}

-- A job that waits has an attempt left; no job has more than its attempts.
abbrev pub slack : JobStatus → ℕ
slack queued = 1
slack _ = 0

abbrev pub IsBounded : Job → Type 0
IsBounded j = j.attempts + slack j.status ≤ j.max_attempts

abbrev pub ids : List Job → List ℕ
ids [] = []
ids (j ∷ js) = j.id ∷ ids js

-- The ids are below `n`, and none stands twice.
abbrev pub IsKeyed : ℕ → List ℕ → Type 0
IsKeyed n [] = Unit
IsKeyed n (i ∷ is) = (i < n) × All (λ k. k ≢ i) is × IsKeyed n is

abbrev pub IsSound : Jobs → Type 0
IsSound s = All IsBounded s.rows × IsKeyed s.next_id (ids s.rows)

pub ids-update :
    (p : Job → Bool) (f : Job → Job)
    → ((j : Job) → (f j).id ≡ j.id)
    → (js : List Job) → ids (update p f js) ≡ ids js
ids-update p f same [] = refl
ids-update p f same (j ∷ js) = elim (Bool-cases (p j)) [
  | inl h ↦ rw h (rw (same j) (rw (ids-update p f same js) refl))
  | inr h ↦ rw h (rw (ids-update p f same js) refl)
]

All-and {ℓ κ} :
    (P : Job → Type ℓ) (Q : Job → Type κ) (js : List Job)
    → All P js
    → All Q js
    → All (λ j. P j × Q j) js
All-and P Q [] h k = tt
All-and P Q (j ∷ js) (h, hs) (k, ks) = ((h, k), All-and P Q js hs ks)

-- The only row that a row found by its id can be.
abbrev pub Only : ℕ → Job → Job → Type 0
Only id row j = j.id ≡ id → j ≡ row

All-ids {ℓ} : (P : ℕ → Type ℓ) (js : List Job) → All P (ids js) → All (λ j. P j.id) js
All-ids P [] h = tt
All-ids P (j ∷ js) (h, hs) = (h, All-ids P js hs)

pub claimable_id : (id : ℕ) (j : Job) → may_claim id j ≡ true → j.id ≡ id
claimable_id id j h = ground arith

pub claimable_unique :
    (n id : ℕ) (js : List Job) (row : Job)
    → IsKeyed n (ids js)
    → first (may_claim id) js ≡ some row
    → All (Only id row) js
claimable_unique n id [] row keyed found = tt
claimable_unique n id (j ∷ js) row (below, apart, keyed) found =
    elim (Bool-cases (may_claim id j)) [
      | inl h ↦
          let same : j ≡ row = some-injective j row (rw h at found) in
          let at_id : j.id ≡ id = claimable_id id j h in
          (
            λ _. same,
            subst (λ i. All (Only i row) js) at_id
                (All-weaken (λ k. k.id ≢ j.id) (Only j.id row) (λ k other e. absurd (other e)) js
                  (All-ids (λ k. k ≢ j.id) js apart)),
          )
      | inr h ↦
          let rest : first (may_claim id) js ≡ some row = rw h at found in
          let elsewhere : row.id ≢ j.id =
            first-All (λ k. k.id ≢ j.id) (may_claim id) js (All-ids (λ k. k ≢ j.id) js apart)
              rest in
          (
            λ e.
                absurd
                  (elsewhere (claimable_id id row (first-holds (may_claim id) js rest) ∙ sym e)),
            claimable_unique n id js row keyed rest,
          )
    ]

-- A row that has the claimed job's id has its attempts.
abbrev pub Agrees : Job → Job → Type 0
Agrees claimed j =
    j.id ≡ claimed.id → (j.attempts ≡ claimed.attempts) × (j.max_attempts ≡ claimed.max_attempts)

abbrev pub IsHeld : Job → Jobs → Type 0
IsHeld claimed s = IsSound s × All (Agrees claimed) s.rows

pub claim-IsHeld :
    (now id : ℕ) (s : Jobs) (row : Job)
    → IsSound s
    → first (may_claim id) s.rows ≡ some row
    → IsHeld (claim now row) (record s { rows = update (may_claim id) (claim now) s.rows })
unfolding claim
claim-IsHeld now id s row (bounded, keyed) found =
    let only = claimable_unique s.next_id id s.rows row keyed found in
    let at_id : row.id ≡ id = claimable_id id row (first-holds (may_claim id) s.rows found) in
    let keys = ids-update (may_claim id) (claim now) (λ j. refl) s.rows in
    (
      (
        All-update (may_claim id) (claim now) (λ j h e. ground arith) (λ j h e. h) s.rows bounded,
        subst (IsKeyed s.next_id) (sym keys) keyed,
      ),
      All-update {P = Only id row} {Q = Agrees (claim now row)} (may_claim id) (claim now)
          (λ j h e same. (
            ap (λ k. k.attempts + 1) (h (same ∙ at_id)),
            ap (λ k. k.max_attempts) (h (same ∙ at_id)),
          ))
          (λ j h e same.
            let held : may_claim id j ≡ true =
              ap (may_claim id) (h (same ∙ at_id)) ∙ first-holds (may_claim id) s.rows found in
            ground arith)
          s.rows only,
    )

set_row-IsHeld :
    (claimed : Job) (f : Job → Job) (s : Jobs)
    → ((j : Job) → (f j).id ≡ j.id)
    → ((j : Job) → (f j).attempts ≡ j.attempts)
    → ((j : Job) → (f j).max_attempts ≡ j.max_attempts)
    → ((j : Job) → IsBounded j × Agrees claimed j → j.id ≡ claimed.id → IsBounded (f j))
    → IsHeld claimed s
    → IsHeld claimed (set_row claimed.id f s)
set_row-IsHeld claimed f s same_id same_attempts same_max good ((bounded, keyed), agrees) =
    let keys = ids-update (has_id claimed.id) f same_id s.rows in
    (
      (
        All-update {P = λ j. IsBounded j × Agrees claimed j} {Q = IsBounded} (has_id claimed.id) f
            (λ j h e. good j h ((nat_beq_iff j.id claimed.id).0 e)) (λ j h e. h.0) s.rows
            (All-and IsBounded (Agrees claimed) s.rows bounded agrees),
        subst (IsKeyed s.next_id) (sym keys) keyed,
      ),
      All-update {P = Agrees claimed} {Q = Agrees claimed} (has_id claimed.id) f
          (λ j h e same.
            let k = h (sym (same_id j) ∙ same) in (same_attempts j ∙ k.0, same_max j ∙ k.1))
          (λ j h e. h) s.rows agrees,
    )

pub succeed-IsHeld :
    (now : ℕ) (result : Json) (claimed : Job) (s : Jobs)
    → IsHeld claimed s
    → IsHeld claimed (set_row claimed.id (succeed now result) s)
unfolding succeed
succeed-IsHeld now result claimed s held =
    set_row-IsHeld claimed (succeed now result) s (λ j. refl) (λ j. refl) (λ j. refl)
      (λ j h e. omega (arith, h.0)) held

pub fail_attempts :
    (now : ℕ) (claimed j : Job) (message : String)
    → ((fail now claimed message j).id ≡ j.id)
      × ((fail now claimed message j).attempts ≡ j.attempts)
      × ((fail now claimed message j).max_attempts ≡ j.max_attempts)
unfolding fail
fail_attempts now claimed j message =
    elim (Bool-cases (ltb claimed.attempts claimed.max_attempts)) [
      | inl h ↦ rw h (refl, refl, refl)
      | inr h ↦ rw h (refl, refl, refl)
    ]

fail-IsBounded :
    (now : ℕ) (claimed j : Job) (message : String)
    → IsBounded j
    → j.attempts ≡ claimed.attempts
    → j.max_attempts ≡ claimed.max_attempts
    → IsBounded (fail now claimed message j)
unfolding fail
fail-IsBounded now claimed j message bounded a m =
    elim (Bool-cases (ltb claimed.attempts claimed.max_attempts)) [
      | inl h ↦ rw h (ground arith)
      | inr h ↦ rw h (omega (arith, bounded))
    ]

pub fail-IsHeld :
    (now : ℕ) (message : String) (claimed : Job) (s : Jobs)
    → IsHeld claimed s
    → IsHeld claimed (set_row claimed.id (fail now claimed message) s)
fail-IsHeld now message claimed s held =
    set_row-IsHeld claimed (fail now claimed message) s
      (λ j. (fail_attempts now claimed j message).0) (λ j. (fail_attempts now claimed j message).1)
      (λ j. (fail_attempts now claimed j message).2)
      (λ j h e. fail-IsBounded now claimed j message h.0 (h.1 e).0 (h.1 e).1) held

ids-append : (js : List Job) (j : Job) → ids (js ++ j ∷ []) ≡ ids js ++ j.id ∷ []
ids-append [] j = refl
ids-append (k ∷ ks) j = ap (λ is. k.id ∷ is) (ids-append ks j)

IsKeyed-append : (n : ℕ) (is : List ℕ) → IsKeyed n is → IsKeyed (suc n) (is ++ n ∷ [])
IsKeyed-append n [] h = (omega arith, tt, tt)
IsKeyed-append n (i ∷ is) (below, apart, more) = (
  omega arith,
  All-append (λ k. k ≢ i) is (n ∷ []) apart ((λ e. omega (arith, below, e)), tt),
  IsKeyed-append n is more,
)

pub create_job-IsSound :
    (now : ℕ) (input : CreateJobInput) (s : Jobs) → IsSound s → IsSound (create_job now input s).1
unfolding create_job new_job
create_job-IsSound now input s (bounded, keyed) = (
  All-append IsBounded s.rows (_ ∷ []) bounded (omega arith, tt),
  subst (IsKeyed (suc s.next_id)) (sym (ids-append s.rows _))
      (IsKeyed-append s.next_id (ids s.rows) keyed),
)

cancel_job-IsSound :
    (now domain_id id : ℕ) (s : Jobs) → IsSound s → IsSound (cancel_job now domain_id id s).1
unfolding cancel_job cancel
cancel_job-IsSound now domain_id id s (bounded, keyed) = (
  All-update {P = IsBounded} {Q = IsBounded} (may_cancel domain_id id) (cancel now)
      (λ j h e. omega (arith, h)) (λ j h e. h) s.rows bounded,
  subst (IsKeyed s.next_id)
      (sym (ids-update (may_cancel domain_id id) (cancel now) (λ j. refl) s.rows)) keyed,
)
