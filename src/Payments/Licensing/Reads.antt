-- ===== src/Payments/Licensing/Reads.antt =====
-- src/services/licensing.ts, the two transactions that spend reads: `atomicallyDecrementRead` and
-- `delegateEntitlement`. Each is its first read, then the rest on the row that was read.
use wordclaw.Shared.{
  ℕ, String, Bool, false, not, ◌&&◌, Option, none, some, List, [], ◌∷◌, ◌++◌, if◌then◌else◌, ◌==◌,
  nat_eq, string_eq, ltb, update_row, ℤ, pos, ◌-ℤ◌, ltb_ℤ, leb_ℤ,
}
use wordclaw.Payments.Licensing.{
  Entitlement, parent_entitlement_invalid, cannot_delegate_already_delegated, insufficient_reads,
  concurrent_delegation, Outcome, ok, err, key, has_status, find_entitlement,
}

pub data ReadResult : Type 0 where
  granted : Entitlement → ReadResult
  refused : String → ReadResult

unfoldable pub terminated : String → ℕ → Entitlement → Entitlement
terminated status now e = record e { status = status; terminated_at = some now }

unfoldable pub with_reads : ℤ → Entitlement → Entitlement
with_reads n e = record e { remaining_reads = some n }

-- `current.expiresAt && new Date() > current.expiresAt`.
abbrev pub is_expired : ℕ → Option ℕ → Bool
is_expired now none = false
is_expired now (some expires_at) = ltb expires_at now

-- `gt(remainingReads, n)`: false at NULL.
abbrev pub above : ℤ → Option ℤ → Bool
above n none = false
above n (some m) = ltb_ℤ n m

abbrev pub reads_above : ℤ → Entitlement → Bool
reads_above n e = above n e.remaining_reads

abbrev pub zero_reads : Option ℤ → Bool
zero_reads none = false
zero_reads (some m) = leb_ℤ m (pos 0) && leb_ℤ (pos 0) m

-- `UPDATE … SET status, terminatedAt WHERE id AND status = 'active'`.
unfoldable pub terminate_active : String → ℕ → ℕ → List Entitlement → List Entitlement
terminate_active status now id t =
    (update_row key id (has_status "active") (terminated status now) t).1

-- After the decrement: a row without reads left is exhausted.
unfoldable pub settle : ℕ → Option Entitlement × List Entitlement → ReadResult × List Entitlement
settle now (none, t) = (refused "race_condition_exhaustion", t)
settle now (some updated, t) =
    if zero_reads updated.remaining_reads
    then (
      granted (terminated "exhausted" now updated),
      terminate_active "exhausted" now updated.id t,
    )
    else (granted updated, t)

-- The branch on `remainingReads` of an active row that has not expired.
unfoldable pub spend_read :
    ℕ → Entitlement → Option ℤ → List Entitlement → ReadResult × List Entitlement
spend_read now current none t = (granted current, t)
spend_read now current (some n) t =
    if leb_ℤ n (pos 0)
    then (refused "remaining_reads_exhausted", terminate_active "exhausted" now current.id t)
    else settle now (update_row key current.id (reads_above (pos 0)) (with_reads (n -ℤ pos 1)) t)

-- The transaction after its first read gave `current`.
unfoldable pub finish_read : ℕ → Entitlement → List Entitlement → ReadResult × List Entitlement
finish_read now current t =
    if not (current.status == "active")
    then (if current.status == "expired"
        then (refused "entitlement_expired", t)
        else if current.status == "exhausted"
        then (refused "remaining_reads_exhausted", t)
        else (refused "entitlement_not_found_or_inactive", t))
    else if is_expired now current.expires_at
    then (refused "entitlement_expired", terminate_active "expired" now current.id t)
    else spend_read now current current.remaining_reads t

unfoldable pub atomically_decrement_read :
    ℕ → ℕ → ℕ → List Entitlement → ReadResult × List Entitlement
atomically_decrement_read now domain_id entitlement_id t =
    elim (find_entitlement domain_id entitlement_id t) [
      | none ↦ (refused "entitlement_not_found_or_inactive", t)
      | some current ↦ finish_read now current t
    ]

-- The delegated row; `payment_hash` is the generated pseudo hash.
unfoldable pub delegated_row : ℕ → String → Entitlement → ℕ → ℤ → Entitlement
delegated_row fresh payment_hash parent target reads = record {
  id = fresh;
  domain_id = parent.domain_id;
  offer_id = parent.offer_id;
  policy_id = parent.policy_id;
  policy_version = parent.policy_version;
  agent_profile_id = target;
  payment_hash = payment_hash;
  status = "active";
  expires_at = parent.expires_at;
  remaining_reads = some reads;
  activated_at = none;
  terminated_at = none;
  delegated_from = some parent.id;
}

-- The update of the parent's quota; an unlimited parent is left alone.
unfoldable pub take_reads :
    Entitlement → ℤ → Option ℤ → List Entitlement → Outcome (List Entitlement)
take_reads parent reads none t = ok t
take_reads parent reads (some n) t =
    if ltb_ℤ n reads
    then err insufficient_reads
    else let (updated, t') =
        update_row key parent.id (reads_above (reads -ℤ pos 1)) (with_reads (n -ℤ reads)) t in
      elim updated [ none ↦ err concurrent_delegation | some _ ↦ ok t' ]

unfoldable pub is_delegated : Option ℕ → Bool
is_delegated none = false
is_delegated (some id) = not (id == 0)

-- `delegateEntitlement`; an error rolls the transaction back.
unfoldable pub delegate_entitlement :
    ℕ → String → ℕ → ℕ → ℕ → ℤ → List Entitlement → Outcome Entitlement × List Entitlement
delegate_entitlement fresh payment_hash domain_id parent_id target reads t =
    elim (find_entitlement domain_id parent_id t) [
      | none ↦ (err parent_entitlement_invalid, t)
      | some parent ↦
          if not (parent.status == "active")
          then (err parent_entitlement_invalid, t)
          else if is_delegated parent.delegated_from
          then (err cannot_delegate_already_delegated, t)
          else elim (take_reads parent reads parent.remaining_reads t) [
            | err e ↦ (err e, t)
            | ok t' ↦
                let row = delegated_row fresh payment_hash parent target reads in
                (ok row, t' ++ row ∷ [])
          ]
    ]
