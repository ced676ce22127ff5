-- ===== src/Payments/Licensing/Activation.antt =====
-- `activateEntitlementForPayment` of src/services/licensing.ts.
use wordclaw.Shared.{
  ℕ, String, ◌≡◌, refl, ◌∙◌, ap, true, false, some, List, eq_iff, ◌==◌, string_eq, nat_eq, find_row,
  update_row-returning, find_row-update_row, if◌then◌else◌, update_row, Bool-cases, inl, inr,
  written, after_write, or_opt,
}
use wordclaw.Payments.Licensing.{
  Entitlement, key, has_status, get_entitlement_by_payment_hash, activated, activate_row,
  activate_entitlement_for_payment,
}

activate_row_lem :
    (now : ℕ) (e : Entitlement) (t : List Entitlement)
    → find_row key e.id t ≡ some e
    → (e.status == "pending_payment") ≡ true
    → ((activate_row now e t).0 ≡ some (activated now e))
      × (find_row key e.id (activate_row now e t).1 ≡ some (activated now e))
unfolding activate_row
activate_row_lem now e t row pending =
    let c = has_status "pending_payment" in
    let hit : (update_row key e.id c (activated now) t).0 ≡ some (activated now e) =
      update_row-returning key e.id c (activated now) t
      ∙ ap (written key c (activated now)) row
      ∙ rw pending refl in
    (
      ap (λ o. or_opt o (some e)) hit,
      find_row-update_row key (activated now) (λ a. unfold activated in refl) e.id c t
          ∙ ap (after_write key c (activated now)) row
          ∙ rw pending refl,
    )

-- The call for the payment of an entitlement `e`: a pending one becomes active at that time, in the
-- result and in its row; one of any other status is returned unchanged, and its row stays.
pub activate_entitlement_for_payment_lem :
    (now d : ℕ) (hash : String) (e : Entitlement) (t : List Entitlement)
    → get_entitlement_by_payment_hash d hash t ≡ some e
    → find_row key e.id t ≡ some e
    → let after = (if e.status == "pending_payment" then activated now e else e) in
      ((activate_entitlement_for_payment now d hash t).0 ≡ some after)
      × (find_row key e.id (activate_entitlement_for_payment now d hash t).1 ≡ some after)
unfolding activate_entitlement_for_payment
activate_entitlement_for_payment_lem now d hash e t found row =
    elim (Bool-cases (e.status == "pending_payment")) [
      | inl pending ↦
          let idle : (e.status == "active") ≡ false =
            ap (λ (s : String). s == "active") ((eq_iff e.status "pending_payment").0 pending) in
          rw pending (
            rw (found, activate_entitlement_for_payment)
              (rw (idle, pending) (activate_row_lem now e t row pending)))
      | inr other ↦ elim (Bool-cases (e.status == "active")) [
        | inl active ↦
            rw other (rw (found, activate_entitlement_for_payment) (rw active (refl, row)))
        | inr idle ↦
            rw other (rw (found, activate_entitlement_for_payment) (rw (idle, other) (refl, row)))
      ]
    ]
