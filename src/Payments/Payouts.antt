-- ===== src/Payments/Payouts.antt =====
-- src/workers/payout.worker.ts: the sweep that pays agents what was cleared for them. The statements of a sweep
-- are taken in their order; the timer is left out, and the waits between attempts. An agent's address is
-- text, where the empty text is no address. The groups of a query are in the order of their last rows. A
-- transfer is written once, with the status that it ends with.
pub mod Bounds
pub mod Groups
use wordclaw.Shared.{
  ℕ, suc, zero, ◌+◌, ◌-◌, String, Bool, true, false, not, ◌&&◌, ◌||◌, Option, none, some, List, [],
  ◌∷◌, ◌++◌, if◌then◌else◌, ◌==◌, nat_eq, string_eq, leb, ltb, first, keep, update, includes,
  sum_by, non_empty, starts_with,
}
use Prim.Native.String.{[] as nil_text, ◌∷◌ as cons_text}
use wordclaw.Payments.Revenue.{Allocation, StatusEvent}
use wordclaw.Payments.Clearing.{latest}

pub record Profile : Type 0 where
  pub id : ℕ
  pub payout_address : Option String

pub record Batch : Type 0 where
  pub id : ℕ
  pub domain_id : ℕ
  pub period_start : ℕ
  pub period_end : ℕ
  pub status : String

pub record Transfer : Type 0 where
  pub id : ℕ
  pub domain_id : ℕ
  pub batch_id : ℕ
  pub agent_profile_id : ℕ
  pub amount_sats : ℕ
  pub status : String

pub record Treasury : Type 0 where
  pub allocations : List Allocation
  pub statuses : List StatusEvent
  pub profiles : List Profile
  pub batches : List Batch
  pub transfers : List Transfer
  pub next_batch : ℕ
  pub next_transfer : ℕ

abbrev status_is : String → Option StatusEvent → Bool
status_is s none = false
status_is s (some e) = e.status == s

-- `LatestStatus` joined: an allocation whose latest event clears it.
unfoldable pub is_cleared : List StatusEvent → Allocation → Bool
is_cleared statuses a = status_is "cleared" (latest a.id statuses)

abbrev pub of_agent : ℕ → Allocation → Bool
of_agent agent a = a.share.agent_profile_id == agent

abbrev pub amount_of : Allocation → ℕ
amount_of a = a.share.amount_sats

-- The rows that `ClearedAllocations` sums.
abbrev pub cleared_rows : Treasury → List Allocation
cleared_rows s = keep (is_cleared s.statuses) s.allocations

-- One group of `ClearedAllocations`.
unfoldable pub cleared_total : ℕ → ℕ → List Allocation → ℕ
cleared_total domain_id agent rows =
    sum_by amount_of (keep (λ a. a.domain_id == domain_id) (keep (of_agent agent) rows))

abbrev pub counts_for : ℕ → Transfer → Bool
counts_for agent t =
    t.agent_profile_id == agent && (t.status == "pending" || t.status == "completed")

-- One group of `PastPayouts`, which has no domain.
unfoldable pub payout_total : ℕ → List Transfer → ℕ
payout_total agent ts = sum_by (λ (t : Transfer). t.amount_sats) (keep (counts_for agent) ts)

abbrev pub add_number : ℕ → List ℕ → List ℕ
add_number n ns = if includes ns n then ns else n ∷ ns

-- The agents of the groups, and the domains of an agent's groups.
unfoldable pub agents_of : List Allocation → List ℕ
agents_of [] = []
agents_of (a ∷ rows) = add_number a.share.agent_profile_id (agents_of rows)

unfoldable pub domains_of : List Allocation → List ℕ
domains_of [] = []
domains_of (a ∷ rows) = add_number a.domain_id (domains_of rows)

pub record Balance : Type 0 where
  pub domain_id : ℕ
  pub agent_profile_id : ℕ
  pub available_sats : ℕ

-- What an agent is owed in a domain, from 500 sats.
unfoldable pub agent_balances : List Allocation → List Transfer → ℕ → List ℕ → List Balance
agent_balances rows ts agent [] = []
agent_balances rows ts agent (d ∷ ds) =
    let rest = agent_balances rows ts agent ds in
    if leb (payout_total agent ts + 500) (cleared_total d agent rows)
    then record {
      domain_id = d;
      agent_profile_id = agent;
      available_sats = cleared_total d agent rows - payout_total agent ts;
    }
      ∷ rest
    else rest

unfoldable pub all_balances : List Allocation → List Transfer → List ℕ → List Balance
all_balances rows ts [] = []
all_balances rows ts (a ∷ agents) =
    agent_balances rows ts a (domains_of (keep (of_agent a) rows)) ++ all_balances rows ts agents

unfoldable pub balances : Treasury → List Balance
balances s = all_balances (cleared_rows s) s.transfers (agents_of (cleared_rows s))

-- `s.includes(part)`.
contains : String → String → Bool
contains part nil_text = starts_with nil_text part
contains part (cons_text c s) = starts_with (cons_text c s) part || contains part s

-- The loop of attempts, of which the first to succeed is the last.
attempts : ℕ → String → Bool
unfolding contains
attempts zero address = false
attempts (suc n) address =
    let again = attempts n address in if contains "fail" address then again else true

abbrev has_id : ℕ → Profile → Bool
has_id id p = p.id == id

abbrev address_of : Option Profile → String
address_of none = ""
address_of (some p) = elim p.payout_address [ none ↦ "" | some a ↦ a ]

unfoldable pub outcome : List Profile → ℕ → String
unfolding attempts
outcome profiles agent =
    let address = address_of (first (has_id agent) profiles) in
    if non_empty address
    then if attempts 3 address then "completed" else "failed_permanent"
    else "failed_permanent"

-- The transfers of a batch, each with the status that it ends with.
unfoldable pub batch_transfers : List Profile → ℕ → ℕ → ℕ → List Balance → List Transfer
batch_transfers profiles domain_id batch next [] = []
batch_transfers profiles domain_id batch next (b ∷ bs) =
    record {
      id = next;
      domain_id = domain_id;
      batch_id = batch;
      agent_profile_id = b.agent_profile_id;
      amount_sats = b.available_sats;
      status = outcome profiles b.agent_profile_id;
    }
    ∷ batch_transfers profiles domain_id batch (next + 1) bs

abbrev count : List Balance → ℕ
count [] = 0
count (b ∷ bs) = suc (count bs)

abbrev pub in_domain : ℕ → Balance → Bool
in_domain d b = b.domain_id == d

-- The batch of one domain.
unfoldable pub pay_domain : ℕ → List Balance → ℕ → Treasury → Treasury
pay_domain now bs d s =
    let own = keep (in_domain d) bs in
    record s {
      batches =
          s.batches
          ++ record {
            id = s.next_batch;
            domain_id = d;
            period_start = now;
            period_end = now;
            status = "completed";
          }
            ∷ [];
      transfers = s.transfers ++ batch_transfers s.profiles d s.next_batch s.next_transfer own;
      next_batch = s.next_batch + 1;
      next_transfer = s.next_transfer + count own;
    }

unfoldable pub pay_domains : ℕ → List Balance → List ℕ → Treasury → Treasury
pay_domains now bs [] s = s
pay_domains now bs (d ∷ ds) s = pay_domains now bs ds (pay_domain now bs d s)

unfoldable pub balance_domains : List Balance → List ℕ
balance_domains [] = []
balance_domains (b ∷ bs) = add_number b.domain_id (balance_domains bs)

-- The domains are taken in the order of their last balances, which numbers the batches.
unfoldable pub process_payouts : ℕ → Treasury → Treasury
process_payouts now s = pay_domains now (balances s) (balance_domains (balances s)) s
