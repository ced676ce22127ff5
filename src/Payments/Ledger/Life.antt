-- ===== src/Payments/Ledger/Life.antt =====
-- The life of one payment under any sequence of transitions of src/services/payment-ledger.ts.
use wordclaw.Shared.{
  ℕ, ◌+◌, ◌≤◌, String, ◌≡◌, refl, ◌∙◌, ap, sym, subst, ◌⊎◌, inl, inr, Option, none, some, List, [],
  ◌∷◌, arith, eq_iff, length, first, first-update, first-holds, mapped, keep, nat_eq, update, ◌==◌,
  string_eq, if◌then◌else◌, Bool-cases, Option-cases,
}
use mathlib.Core.Option.{none-ne-some}
use wordclaw.Payments.Licensing.{activate_entitlement_for_payment}
use wordclaw.Payments.Revenue.Split.{length-allocate_revenue}
use wordclaw.Payments.Ledger.{
  PaymentStatus, pending, paid, consumed, expired, failed, status_text, normalize_status,
  can_transition_payment_status, Payment, PaymentTransitionOptions, with_updates, Books, has_hash,
  get_payment_by_hash, on_paid, item_sold, on_expired, side_effects, move_payment,
  transition_payment_status,
}

-- A status survives the database's text column.
normalize_status-text : (s : PaymentStatus) → normalize_status (status_text s) ≡ some s
unfolding normalize_status status_text
normalize_status-text pending = refl
normalize_status-text paid = refl
normalize_status-text consumed = refl
normalize_status-text expired = refl
normalize_status-text failed = refl

-- The status that the books hold for a payment.
pub status_in : String → Books → Option PaymentStatus
status_in h b = elim (get_payment_by_hash h b) [ none ↦ none | some p ↦ normalize_status p.status ]

-- A request: its time, the status that it asks for, and its options.
abbrev pub Request : Type 0
Request = ℕ × PaymentStatus × PaymentTransitionOptions

abbrev pub status_of : Option Payment → Option PaymentStatus
status_of none = none
status_of (some p) = normalize_status p.status

-- The status after a request: the one asked for, where the transition is allowed.
abbrev pub step : PaymentStatus → PaymentStatus → PaymentStatus
step current next = if can_transition_payment_status current next then next else current

-- The sales that a payment can still enter as revenue.
abbrev pub sales_left : PaymentStatus → ℕ
sales_left pending = 1
sales_left _ = 0

-- How many sales the books hold as revenue.
abbrev pub revenue_events : Books → ℕ
revenue_events b = length b.revenue.events

abbrev pub IsTerminal : PaymentStatus → Type 0
IsTerminal s = (s ≡ consumed) ⊎ (s ≡ expired) ⊎ (s ≡ failed)

step_terminal : (current next : PaymentStatus) → IsTerminal current → step current next ≡ current
unfolding can_transition_payment_status
step_terminal current next end = ground arith

module _ (floor_share : ℕ → ℕ → ℕ → ℕ) where
  on_paid-payments :
      (now : ℕ) (p : Payment) (b : Books) → (on_paid floor_share now p b).payments ≡ b.payments
  unfolding on_paid
  on_paid-payments now p b = elim (Option-cases (item_sold p.payment_hash b')) [
    | inl e ↦ rw (e, on_paid) refl
    | inr (item_id, e) ↦ rw (e, on_paid) refl
  ]
    where
      b' : Books
      b' = record b {
        entitlements =
            (activate_entitlement_for_payment now p.domain_id p.payment_hash b.entitlements).1;
      }

  on_paid-revenue :
      (now : ℕ) (p : Payment) (b : Books)
      → revenue_events (on_paid floor_share now p b) ≤ revenue_events b + 1
  unfolding on_paid
  on_paid-revenue now p b = elim (Option-cases (item_sold p.payment_hash b')) [
    | inl e ↦ rw (e, on_paid) (omega arith)
    | inr (item_id, e) ↦
        rw (e, on_paid)
          (omega (
            arith,
            length-allocate_revenue floor_share now p.domain_id
                (keep (λ c. c.content_item_id == item_id) b.contributions) "offer_purchase"
                p.payment_hash p.amount_satoshis 0 b.revenue,
          ))
  ]
    where
      b' : Books
      b' = record b {
        entitlements =
            (activate_entitlement_for_payment now p.domain_id p.payment_hash b.entitlements).1;
      }

  side_effects-payments :
      (now : ℕ) (current next : PaymentStatus) (p : Payment) (b : Books)
      → (side_effects floor_share now current next p b).payments ≡ b.payments
  unfolding side_effects
  side_effects-payments now pending paid p b = on_paid-payments now p b
  side_effects-payments now pending expired p b = unfold on_expired in refl
  side_effects-payments now _ _ p b = refl

  side_effects-revenue :
      (now : ℕ) (current next : PaymentStatus) (p : Payment) (b : Books)
      → revenue_events (side_effects floor_share now current next p b)
          + sales_left (step current next)
        ≤ revenue_events b + sales_left current
  unfolding side_effects can_transition_payment_status on_expired
  side_effects-revenue now pending paid p b = omega (arith, on_paid-revenue now p b)
  side_effects-revenue now pending expired p b = ground arith
  side_effects-revenue now current next p b = ground arith

  abbrev with_payments : Books → List Payment → Books
  with_payments b ps = record b { payments = ps }

  -- What one request for a payment of a known status does to its status and to the sales.
  record Moves (h : String) (current next : PaymentStatus) (b b' : Books) : Type 0 where
    status : status_of (get_payment_by_hash h b') ≡ some (step current next)
    sales :
        revenue_events b' + sales_left (step current next) ≤ revenue_events b + sales_left current

  moved_status :
      (now : ℕ) (h : String) (next : PaymentStatus) (o : PaymentTransitionOptions) (p : Payment)
      (b : Books)
      → get_payment_by_hash h b ≡ some p
      → first (has_hash h) (update (has_hash p.payment_hash) (with_updates now next o) b.payments)
        ≡ some (with_updates now next o p)
  unfolding get_payment_by_hash with_updates
  moved_status now h next o p b found =
      let same_hash : p.payment_hash ≡ h =
        (eq_iff p.payment_hash h).0 (first-holds (has_hash h) b.payments found) in
      subst
        (λ g.
          first (has_hash h) (update (has_hash g) (with_updates now next o) b.payments)
          ≡ some (with_updates now next o p))
        (sym same_hash)
        (first-update (has_hash h) (with_updates now next o) (λ a. refl) b.payments
          ∙ ap (mapped (with_updates now next o)) found)

  move_payment-Moves :
      (now : ℕ) (h : String) (current next : PaymentStatus) (o : PaymentTransitionOptions)
      (p : Payment) (b : Books)
      → get_payment_by_hash h b ≡ some p
      → normalize_status p.status ≡ some current
      → Moves h current next b (move_payment floor_share now current next o p b).1
  unfolding move_payment get_payment_by_hash
  move_payment-Moves now h current next o p b found known =
      elim (Bool-cases (can_transition_payment_status current next)) [
        | inl fine ↦ rw fine (record {
          status = rw fine (
              rw
                (side_effects-payments now current next (with_updates now next o p) (
                  with_payments b
                    (update (has_hash p.payment_hash) (with_updates now next o) b.payments)))
                (rw (moved_status now h next o p b found)
                  (unfold with_updates in normalize_status-text next)));
          sales = side_effects-revenue now current next (with_updates now next o p) (
              with_payments b
                (update (has_hash p.payment_hash) (with_updates now next o) b.payments));
        })
        | inr bad ↦ rw bad (record { status = rw (bad, found) known; sales = rw bad (omega arith) })
      ]

  transition-Moves :
      (now : ℕ) (h : String) (current next : PaymentStatus) (o : PaymentTransitionOptions)
      (b : Books)
      → status_of (get_payment_by_hash h b) ≡ some current
      → Moves h current next b (transition_payment_status floor_share now h next o b).1
  unfolding transition_payment_status
  transition-Moves now h current next o b known = elim (Option-cases (get_payment_by_hash h b)) [
    | inl e ↦ absurd (none-ne-some current (sym (ap status_of e) ∙ known))
    | inr (p, e) ↦
        let known' : normalize_status p.status ≡ some current = sym (ap status_of e) ∙ known in
        rw (e, transition_payment_status)
          (rw known' (move_payment-Moves now h current next o p b e known'))
  ]

  -- The books after the requests for one payment, each at its own time.
  pub run : String → List Request → Books → Books
  run h [] b = b
  run h ((now, next, o) ∷ rs) b = run h rs (transition_payment_status floor_share now h next o b).1

  -- However often and in whatever order transitions of a payment are asked for, they enter at most
  -- one sale as revenue, and none once the payment is no longer pending.
  pub revenue_once :
      (h : String) (current : PaymentStatus) (rs : List Request) (b : Books)
      → status_of (get_payment_by_hash h b) ≡ some current
      → revenue_events (run h rs b) ≤ revenue_events b + sales_left current
  unfolding run
  revenue_once h current [] b known = omega arith
  revenue_once h current ((now, next, o) ∷ rs) b known =
      let m : Moves h current next b (transition_payment_status floor_share now h next o b).1 =
        transition-Moves now h current next o b known in
      omega (arith, m.sales, revenue_once h (step current next) rs _ m.status)

  -- A payment that is consumed, expired or failed keeps that status under any sequence of requests.
  pub terminal_stays :
      (h : String) (current : PaymentStatus) (rs : List Request) (b : Books)
      → IsTerminal current
      → status_of (get_payment_by_hash h b) ≡ some current
      → status_of (get_payment_by_hash h (run h rs b)) ≡ some current
  unfolding run
  terminal_stays h current [] b end known = known
  terminal_stays h current ((now, next, o) ∷ rs) b end known =
      let m : Moves h current next b (transition_payment_status floor_share now h next o b).1 =
        transition-Moves now h current next o b known in
      terminal_stays h current rs _ end (m.status ∙ ap some (step_terminal current next end))
