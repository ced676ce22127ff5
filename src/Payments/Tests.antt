-- ===== src/Payments/Tests.antt =====
-- Runs of the payments code, and its theorems at inputs that meet their hypotheses.
use wordclaw.Shared.{
  ◌⊎◌, ltb_ℤ, false, ℕ, ◌+◌, ◌*◌, ◌/◌, ◌≤◌, min, ◌≡◌, refl, inl, inr, true, none, some, List, [],
  ◌∷◌, arith, nat_eq, string_eq, sum_by, ltb, find_row, pos, negsuc,
}
use wordclaw.Payments.Licensing.{err, insufficient_reads, Entitlement, key}
use wordclaw.Payments.Licensing.Reads.{delegate_entitlement}
use wordclaw.Payments.Licensing.Quota.{is_granted, read_in_turn, read_in_turn-quota}
use wordclaw.Payments.Licensing.Overlap.{overlapped, reads_of, overlapped_reads}
use wordclaw.Payments.Licensing.Delegation.{Moved, delegate_entitlement-moves}
use wordclaw.Payments.Revenue.{Contribution, amount, allocate_shares}
use wordclaw.Payments.Revenue.Split.{allocate_shares_conserve, NeverOver}
use wordclaw.Payments.Ledger.{
  pending, paid, consumed, expired, Payment, PaymentTransitionOptions, Books, get_payment_by_hash,
  normalize_status,
}
use wordclaw.Payments.Ledger.Life.{
  Request, revenue_once, terminal_stays, run, status_of, revenue_events,
}

abbrev licence : Entitlement
licence = record {
  id = 3;
  domain_id = 1;
  offer_id = 5;
  policy_id = 6;
  policy_version = 1;
  agent_profile_id = 9;
  payment_hash = "h";
  status = "active";
  expires_at = some 1000;
  remaining_reads = some (pos 2);
  activated_at = some 10;
  terminated_at = none;
  delegated_from = none;
}

read_in_turn-quota_example : (read_in_turn 1 3 (20 ∷ 30 ∷ 40 ∷ []) (licence ∷ [])).0 ≡ min 3 2
unfolding find_row
read_in_turn-quota_example =
    read_in_turn-quota 1 3 2 (20 ∷ 30 ∷ 40 ∷ []) licence (licence ∷ []) (refl, refl, refl, refl)
      (refl, (refl, (refl, tt)))

overlapped_reads_example :
    (is_granted (overlapped 20 21 licence (licence ∷ [])).0 ≡ true)
    × (is_granted (overlapped 20 21 licence (licence ∷ [])).1 ≡ ltb 0 1)
    × (reads_of (find_row key 3 (overlapped 20 21 licence (licence ∷ [])).2) ≡ some (pos 1))
unfolding find_row
overlapped_reads_example =
    overlapped_reads 20 21 3 1 licence (licence ∷ []) refl refl refl refl refl

-- A negative number of reads raises the parent's.
delegate_entitlement-moves_example :
    ((ltb_ℤ (pos 2) (negsuc 4) ≡ true)
      × (delegate_entitlement 4 "d" 1 3 8 (negsuc 4) (licence ∷ [])
          ≡ (err insufficient_reads, licence ∷ [])))
    ⊎ ((ltb_ℤ (pos 2) (negsuc 4) ≡ false)
        × Moved 4 3 8
            (pos 2)
            (negsuc 4)
            licence
            (delegate_entitlement 4 "d" 1 3 8 (negsuc 4) (licence ∷ [])))
unfolding find_row
delegate_entitlement-moves_example =
    delegate_entitlement-moves 4 1 3 8 "d" (pos 2) (negsuc 4) licence (licence ∷ []) refl refl refl
      refl refl refl

abbrev sold : Entitlement
sold = record licence { status = "pending_payment"; activated_at = none }

abbrev exact_share : ℕ → ℕ → ℕ → ℕ
exact_share a b c = a * b / c

exact_share-NeverOver : NeverOver exact_share
exact_share-NeverOver a b c small = omega arith

abbrev team : List Contribution
team =
    record { content_item_id = 1; agent_profile_id = 9; role = "author"; weight = 1 }
    ∷ record { content_item_id = 1; agent_profile_id = 8; role = "author"; weight = 2 }
    ∷ record { content_item_id = 1; agent_profile_id = 7; role = "editor"; weight = 1 }
    ∷ []

allocate_shares_conserve_example : sum_by amount (allocate_shares exact_share 1001 team) ≡ 1001
allocate_shares_conserve_example =
    allocate_shares_conserve exact_share exact_share-NeverOver 1001 team
      (record { content_item_id = 1; agent_profile_id = 8; role = "author"; weight = 2 } ∷ [])
      (record { content_item_id = 1; agent_profile_id = 9; role = "author"; weight = 1 }) refl
      (omega arith, (omega arith, (omega arith, tt))) (omega arith) (omega arith)

abbrev invoice : Payment
invoice = record {
  payment_hash = "h";
  domain_id = 1;
  amount_satoshis = 100;
  status = "pending";
  provider = "mock";
  provider_invoice_id = none;
  last_event_id = none;
  expires_at = none;
  settled_at = none;
  failure_reason = none;
  details = none;
  updated_at = 0;
}

abbrev shop : Books
shop = record {
  payments = invoice ∷ [];
  entitlements = sold ∷ [];
  offers =
      record { id = 5; domain_id = 1; scope_type = "item"; scope_ref = some 1; active = true } ∷ [];
  contributions = team;
  revenue = record {
    events = [];
    allocations = [];
    statuses = [];
    next_event = 1;
    next_allocation = 1;
  };
}

abbrev no_options : PaymentTransitionOptions
no_options = record {
  provider_name = none;
  provider_invoice_id = none;
  provider_event_id = none;
  expires_at = none;
  settled_at = none;
  failure_reason = none;
  details_patch = none;
}

abbrev twice_paid : List Request
twice_paid = (5, paid, no_options) ∷ (6, paid, no_options) ∷ (7, consumed, no_options) ∷ []

revenue_once_example : revenue_events (run exact_share "h" twice_paid shop) ≤ 0 + 1
unfolding get_payment_by_hash normalize_status
revenue_once_example = revenue_once exact_share "h" pending twice_paid shop refl

abbrev closed_shop : Books
closed_shop = record shop { payments = record invoice { status = "expired" } ∷ [] }

terminal_stays_example :
    status_of (get_payment_by_hash "h" (run exact_share "h" twice_paid closed_shop)) ≡ some expired
unfolding get_payment_by_hash normalize_status
terminal_stays_example =
    terminal_stays exact_share "h" expired twice_paid closed_shop (inr (inl refl)) refl
