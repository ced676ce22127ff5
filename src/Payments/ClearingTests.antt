-- ===== src/Payments/ClearingTests.antt =====
-- The clearing of src/workers/allocation-state.worker.ts at concrete inputs.
use wordclaw.Shared.{ℕ, String, ◌≡◌, refl, some, List, [], ◌∷◌, arith, ◌+◌}
use wordclaw.Payments.Revenue.{StatusEvent}
use wordclaw.Payments.Clearing.{
  days, latest, allocation_ids, must_clear, clear_all, process_auto_clear,
}
use wordclaw.Payments.Clearing.Progress.{sweeps, status_of, eventually_cleared}

abbrev event : ℕ → String → ℕ → StatusEvent
event id status t = record { domain_id = 1; allocation_id = id; status = status; created_at = t }

abbrev events : List StatusEvent
events =
    event 1 "pending" 10 ∷ event 2 "pending" 10 ∷ event 2 "disputed" 20 ∷ event 3 "cleared" 5 ∷ []

-- A week later the pending allocation is cleared and the disputed one is not.
one_week :
    process_auto_clear (days 7 + 15) events
    ≡ event 1 "pending" 10
      ∷ event 2 "pending" 10
      ∷ event 2 "disputed" 20
      ∷ event 3 "cleared" 5
      ∷ event 1 "cleared" (days 7 + 15)
      ∷ []
unfolding process_auto_clear clear_all latest allocation_ids must_clear
one_week = refl

abbrev times : List ℕ
times = 25 ∷ (days 14 + 20) ∷ days 15 ∷ []

disputed_latest : latest 2 events ≡ some (event 2 "disputed" 20)
unfolding latest
disputed_latest = refl

eventually_cleared_example : status_of (latest 2 (sweeps times events)) ≡ some "cleared"
unfolding must_clear
eventually_cleared_example =
    eventually_cleared 2 times events (event 2 "disputed" 20) disputed_latest
      (omega arith, (omega arith, (omega arith, tt))) refl
