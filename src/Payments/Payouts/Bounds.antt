-- ===== src/Payments/Payouts/Bounds.antt =====
-- No agent is paid more than what was cleared, by src/workers/payout.worker.ts.
use wordclaw.Shared.{
  ℕ, ◌+◌, ◌≤◌, ◌≡◌, refl, sym, ◌∙◌, subst, Bool, false, ◌||◌, List, [], ◌∷◌, ◌++◌, inl, inr, ◌⊎◌,
  Bool-cases, ◌==◌, nat_eq, nat_beq_iff, string_eq, leb, keep, includes, sum_by, arith, by_branch,
  leb→le,
}
use wordclaw.Payments.Revenue.{Allocation}
use wordclaw.Payments.Payouts.Groups.{
  NoDup, groups, groups-le, kept, kept-append, kept-le, kept-swap,
}
use wordclaw.Payments.Payouts.{
  Treasury, Transfer, Balance, Profile, of_agent, amount_of, cleared_rows, cleared_total,
  counts_for, payout_total, add_number, agents_of, domains_of, agent_balances, all_balances,
  balances, batch_transfers, in_domain, pay_domain, pay_domains, balance_domains, process_payouts,
  outcome,
}

add_number-NoDup : (n : ℕ) (ns : List ℕ) → NoDup ns → NoDup (add_number n ns)
add_number-NoDup n ns h = elim (Bool-cases (includes ns n)) [ inl e ↦ rw e h | inr e ↦ rw e (e, h) ]

domains_of-NoDup : (rows : List Allocation) → NoDup (domains_of rows)
unfolding domains_of
domains_of-NoDup [] = tt
domains_of-NoDup (a ∷ rows) = add_number-NoDup a.domain_id (domains_of rows) (domains_of-NoDup rows)

agents_of-NoDup : (rows : List Allocation) → NoDup (agents_of rows)
unfolding agents_of
agents_of-NoDup [] = tt
agents_of-NoDup (a ∷ rows) =
    add_number-NoDup a.share.agent_profile_id (agents_of rows) (agents_of-NoDup rows)

balance_domains-NoDup : (bs : List Balance) → NoDup (balance_domains bs)
unfolding balance_domains
balance_domains-NoDup [] = tt
balance_domains-NoDup (b ∷ bs) =
    add_number-NoDup b.domain_id (balance_domains bs) (balance_domains-NoDup bs)

abbrev is_for : ℕ → Balance → Bool
is_for agent b = b.agent_profile_id == agent

abbrev available : Balance → ℕ
available b = b.available_sats

module _ (rows : List Allocation) (ts : List Transfer) where
  others_none :
      (agent other : ℕ) (ds : List ℕ)
      → (other == agent) ≡ false
      → kept available (is_for agent) (agent_balances rows ts other ds) ≡ 0
  unfolding agent_balances kept
  others_none agent other [] apart = refl
  others_none agent other (d ∷ ds) apart =
      elim (Bool-cases (leb (payout_total other ts + 500) (cleared_total d other rows))) [
        | inl e ↦ rw e (rw apart (others_none agent other ds apart))
        | inr e ↦ rw e (others_none agent other ds apart)
      ]

  absent_none :
      (agent : ℕ) (agents : List ℕ)
      → includes agents agent ≡ false
      → kept available (is_for agent) (all_balances rows ts agents) ≡ 0
  unfolding all_balances
  absent_none agent [] h = unfold kept in refl
  absent_none agent (other ∷ agents) h = elim (Bool-cases (other == agent)) [
    | inl e ↦ absurd (ground arith)
    | inr e ↦
        kept-append available (is_for agent)
          (agent_balances rows ts other (domains_of (keep (of_agent other) rows)))
          (all_balances rows ts agents)
        ∙ omega (
          arith,
          others_none agent other (domains_of (keep (of_agent other) rows)) e,
          absent_none agent agents (rw e at h),
        )
  ]

  owed : ℕ → ℕ
  owed agent =
      sum_by available (agent_balances rows ts agent (domains_of (keep (of_agent agent) rows)))

  all_balances-owed :
      (agent : ℕ) (agents : List ℕ)
      → NoDup agents
      → kept available (is_for agent) (all_balances rows ts agents) ≤ owed agent
  unfolding all_balances owed
  all_balances-owed agent [] h = unfold kept in omega arith
  all_balances-owed agent (other ∷ agents) (new, h) = elim (Bool-cases (other == agent)) [
    | inl e ↦
        subst
          (λ o.
            kept available (is_for agent) (
              agent_balances rows ts o (domains_of (keep (of_agent o) rows))
              ++ all_balances rows ts agents)
            ≤ owed agent)
          (sym ((nat_beq_iff other agent).0 e))
          (omega (
            arith,
            kept-append available (is_for agent)
                (agent_balances rows ts agent (domains_of (keep (of_agent agent) rows)))
                (all_balances rows ts agents),
            kept-le available (is_for agent)
                (agent_balances rows ts agent (domains_of (keep (of_agent agent) rows))),
            absent_none agent agents
                (subst (λ o. includes agents o ≡ false) ((nat_beq_iff other agent).0 e) new),
          ))
    | inr e ↦ omega (
      arith,
      kept-append available (is_for agent)
          (agent_balances rows ts other (domains_of (keep (of_agent other) rows)))
          (all_balances rows ts agents),
      others_none agent other (domains_of (keep (of_agent other) rows)) e,
      all_balances-owed agent agents h,
    )
  ]

  -- Either nothing is owed, or what was paid and what is owed come out of the groups.
  balances_fit :
      (agent : ℕ) (ds : List ℕ)
      → (sum_by available (agent_balances rows ts agent ds) ≡ 0)
        ⊎ (payout_total agent ts + sum_by available (agent_balances rows ts agent ds)
            ≤ groups (λ (a : Allocation). a.domain_id) amount_of (keep (of_agent agent) rows) ds)
  unfolding agent_balances groups cleared_total
  balances_fit agent [] = inl refl
  balances_fit agent (d ∷ ds) = elim (balances_fit agent ds) [
    | inl idle ↦
        elim (Bool-cases (leb (payout_total agent ts + 500) (cleared_total d agent rows))) [
          | inl e ↦ rw e (
              inr (
                omega (
                  arith,
                  idle,
                  leb→le (payout_total agent ts + 500) (cleared_total d agent rows) e,
                )))
          | inr e ↦ rw e (inl idle)
        ]
    | inr fits ↦
        elim (Bool-cases (leb (payout_total agent ts + 500) (cleared_total d agent rows))) [
          | inl e ↦ rw e (
              inr (
                omega (
                  arith,
                  fits,
                  leb→le (payout_total agent ts + 500) (cleared_total d agent rows) e,
                )))
          | inr e ↦ rw e (inr (omega (arith, fits)))
        ]
  ]

-- What a batch adds to an agent's payouts.
batch-payout :
    (profiles : List Profile) (agent d batch next : ℕ) (bs : List Balance)
    → payout_total agent (batch_transfers profiles d batch next bs)
      ≤ kept available (is_for agent) bs
unfolding payout_total batch_transfers kept
batch-payout profiles agent d batch next [] = omega arith
batch-payout profiles agent d batch next (b ∷ bs) =
    elim (Bool-cases (b.agent_profile_id == agent)) [
      | inr e ↦ rw e (batch-payout profiles agent d batch (next + 1) bs)
      | inl e ↦ rw e (
          by_branch
            (λ (ts : List Transfer).
              sum_by (λ (t : Transfer). t.amount_sats) ts
              ≤ b.available_sats + sum_by available (keep (is_for agent) bs))
            (outcome profiles b.agent_profile_id == "pending"
              || outcome profiles b.agent_profile_id == "completed")
            (omega (arith, batch-payout profiles agent d batch (next + 1) bs))
            (omega (arith, batch-payout profiles agent d batch (next + 1) bs)))
    ]

payout_total-append :
    (agent : ℕ) (ts us : List Transfer)
    → payout_total agent (ts ++ us) ≡ payout_total agent ts + payout_total agent us
unfolding payout_total
payout_total-append agent ts us =
    unfold kept in kept-append (λ t. t.amount_sats) (counts_for agent) ts us

pay_domains-payout :
    (now agent : ℕ) (bs : List Balance) (ds : List ℕ) (s : Treasury)
    → payout_total agent (pay_domains now bs ds s).transfers
      ≤ payout_total agent s.transfers
        + groups (λ (b : Balance). b.domain_id) available (keep (is_for agent) bs) ds
unfolding pay_domains groups
pay_domains-payout now agent bs [] s = omega arith
pay_domains-payout now agent bs (d ∷ ds) s =
    omega (arith, pay_domains-payout now agent bs ds (pay_domain now bs d s), pay_domain-payout)
  where
    pay_domain-payout :
        payout_total agent (pay_domain now bs d s).transfers
        ≤ payout_total agent s.transfers
          + sum_by available (keep (λ (b : Balance). b.domain_id == d) (keep (is_for agent) bs))
    pay_domain-payout =
        unfold pay_domain kept in
        omega (
          arith,
          payout_total-append agent s.transfers
              (batch_transfers s.profiles d s.next_batch s.next_transfer (keep (in_domain d) bs)),
          batch-payout s.profiles agent d s.next_batch s.next_transfer (keep (in_domain d) bs),
          kept-swap available (is_for agent) (in_domain d) bs,
        )

-- What is cleared for an agent in all domains.
abbrev pub cleared_for : ℕ → Treasury → ℕ
cleared_for agent s = sum_by amount_of (keep (of_agent agent) (cleared_rows s))

-- A sweep keeps what is paid to an agent within what is cleared for it in all domains, if it was so before.
pub process_payouts-within :
    (now agent : ℕ) (s : Treasury)
    → payout_total agent s.transfers ≤ cleared_for agent s
    → payout_total agent (process_payouts now s).transfers ≤ cleared_for agent s
unfolding process_payouts balances
process_payouts-within now agent s before =
    let rows : List Allocation = cleared_rows s in
    let bs : List Balance = all_balances rows s.transfers (agents_of rows) in
    let ds : List ℕ = domains_of (keep (of_agent agent) rows) in
    let paid = pay_domains-payout now agent bs (balance_domains bs) s in
    let shared =
      groups-le (λ (b : Balance). b.domain_id) available (keep (is_for agent) bs)
        (balance_domains bs) (balance_domains-NoDup bs) in
    let own = all_balances-owed rows s.transfers agent (agents_of rows) (agents_of-NoDup rows) in
    let all =
      groups-le (λ (a : Allocation). a.domain_id) amount_of (keep (of_agent agent) rows) ds
        (domains_of-NoDup (keep (of_agent agent) rows)) in
    elim (balances_fit rows s.transfers agent ds) [
      | inl idle ↦ unfold owed kept in omega (arith, paid, shared, own, idle)
      | inr fits ↦ unfold owed kept in omega (arith, paid, shared, own, fits, all)
    ]
