-- ===== src/Payments/PayoutTests.antt =====
-- The payouts of src/workers/payout.worker.ts at concrete inputs.
use wordclaw.Shared.{non_empty, ℕ, ◌≤◌, String, ◌≡◌, refl, some, List, [], ◌∷◌, arith}
use wordclaw.Payments.Revenue.{Allocation, StatusEvent}
use wordclaw.Payments.Clearing.{latest}
use wordclaw.Payments.Payouts.{
  Treasury, Transfer, is_cleared, payout_total, agents_of, domains_of, cleared_total,
  agent_balances, all_balances, balances, batch_transfers, outcome, pay_domain, pay_domains,
  balance_domains, process_payouts,
}
use wordclaw.Payments.Payouts.Bounds.{cleared_for, process_payouts-within}

abbrev allocation : ℕ → ℕ → ℕ → ℕ → Allocation
allocation id domain_id agent amount = record {
  id = id;
  domain_id = domain_id;
  revenue_event_id = 1;
  share = record { agent_profile_id = agent; amount_sats = amount };
}

abbrev event : ℕ → String → ℕ → StatusEvent
event id status t = record { domain_id = 1; allocation_id = id; status = status; created_at = t }

abbrev past : Transfer
past = record {
  id = 1;
  domain_id = 1;
  batch_id = 1;
  agent_profile_id = 5;
  amount_sats = 100;
  status = "completed";
}

abbrev treasury : Treasury
treasury = record {
  allocations =
      allocation 1 1 5 700
      ∷ allocation 2 1 5 300
      ∷ allocation 3 1 6 800
      ∷ allocation 4 2 5 400
      ∷ [];
  statuses =
      event 1 "cleared" 3
      ∷ event 1 "pending" 1
      ∷ event 2 "pending" 1
      ∷ event 3 "cleared" 2
      ∷ event 4 "cleared" 2
      ∷ [];
  profiles =
      record { id = 5; payout_address = some "five@wallet" }
      ∷ record { id = 6; payout_address = some "failing@wallet" }
      ∷ [];
  batches = [];
  transfers = past ∷ [];
  next_batch = 2;
  next_transfer = 2;
}

abbrev transfers_after : List Transfer
transfers_after =
    past
    ∷ record past {
      id = 2;
      batch_id = 2;
      agent_profile_id = 6;
      amount_sats = 800;
      status = "failed_permanent";
    }
    ∷ record past { id = 3; batch_id = 2; amount_sats = 600 }
    ∷ []

payouts_run : (process_payouts 9 treasury).transfers ≡ transfers_after
unfolding process_payouts pay_domains pay_domain batch_transfers outcome balances all_balances
    agent_balances cleared_total payout_total domains_of agents_of balance_domains is_cleared latest
    non_empty
payouts_run = refl

paid_before : payout_total 5 treasury.transfers ≤ cleared_for 5 treasury
unfolding payout_total is_cleared latest
paid_before = omega arith

process_payouts-within_example :
    payout_total 5 (process_payouts 9 treasury).transfers ≤ cleared_for 5 treasury
process_payouts-within_example = process_payouts-within 9 5 treasury paid_before
