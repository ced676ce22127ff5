-- ===== src/Payments/Ledger.antt =====
-- src/services/payment-ledger.ts: the life of a payment, and what settling or expiring it does to
-- entitlements and revenue. A field of an update is absent, or a new value that may be null; failures
-- of the database itself are left out, so the handlers that only log them are too.
pub mod Life
use wordclaw.Shared.{
  ℕ, suc, String, Bool, true, false, not, ◌&&◌, ◌||◌, Option, none, some, List, [], ◌∷◌,
  if◌then◌else◌, ◌==◌, nat_eq, string_eq, keep, first, update, or_else, find_row,
}
use wordclaw.Shared.Json.{Json, Fields, obj, end, spread}
use wordclaw.Payments.Licensing.{
  Entitlement, Offer, activate_entitlement_for_payment, get_entitlement_by_payment_hash,
}
use wordclaw.Payments.Revenue.{Contribution, Revenue, allocate_revenue}

pub data PaymentStatus : Type 0 where
  pending paid consumed expired failed : PaymentStatus

unfoldable pub status_text : PaymentStatus → String
status_text pending = "pending"
status_text paid = "paid"
status_text consumed = "consumed"
status_text expired = "expired"
status_text failed = "failed"

unfoldable pub normalize_status : String → Option PaymentStatus
normalize_status value =
    if value == "pending"
    then some pending
    else if value == "paid"
    then some paid
    else if value == "consumed"
    then some consumed
    else if value == "expired"
    then some expired
    else if value == "failed"
    then some failed
    else none

-- `ALLOWED_TRANSITIONS`.
unfoldable pub allowed_transitions : PaymentStatus → PaymentStatus → Bool
allowed_transitions pending paid = true
allowed_transitions pending expired = true
allowed_transitions pending failed = true
allowed_transitions paid consumed = true
allowed_transitions _ _ = false

abbrev pub same_status : PaymentStatus → PaymentStatus → Bool
same_status pending pending = true
same_status paid paid = true
same_status consumed consumed = true
same_status expired expired = true
same_status failed failed = true
same_status _ _ = false

unfoldable pub can_transition_payment_status : PaymentStatus → PaymentStatus → Bool
unfolding allowed_transitions
can_transition_payment_status from to = same_status from to || allowed_transitions from to

pub record Payment : Type 0 where
  pub payment_hash : String
  pub domain_id : ℕ
  pub amount_satoshis : ℕ
  pub status : String
  pub provider : String
  pub provider_invoice_id : Option String
  pub last_event_id : Option String
  pub expires_at : Option ℕ
  pub settled_at : Option ℕ
  pub failure_reason : Option String
  pub details : Option Json
  pub updated_at : ℕ

pub record PaymentTransitionOptions : Type 0 where
  pub provider_name : Option String
  pub provider_invoice_id : Option (Option String)
  pub provider_event_id : Option (Option String)
  pub expires_at : Option (Option ℕ)
  pub settled_at : Option (Option ℕ)
  pub failure_reason : Option (Option String)
  pub details_patch : Option Fields

-- The existing details, if they are an object.
object_of : Option Json → Fields
object_of (some (obj fs)) = fs
object_of _ = end

merge_details : Option Json → Option Fields → Option Json
unfolding object_of spread
merge_details existing none = existing
merge_details existing (some patch) = some (obj (spread (object_of existing) patch))

-- `settledAt`: the option, or now for a payment that is paid.
settled_at_of : ℕ → PaymentStatus → Option (Option ℕ) → Option ℕ → Option ℕ
settled_at_of now next (some v) old = v
settled_at_of now paid none old = some now
settled_at_of now _ none old = old

unfoldable pub with_updates : ℕ → PaymentStatus → PaymentTransitionOptions → Payment → Payment
unfolding merge_details settled_at_of
with_updates now next o p = record p {
  status = status_text next;
  updated_at = now;
  provider = or_else o.provider_name p.provider;
  provider_invoice_id = or_else o.provider_invoice_id p.provider_invoice_id;
  last_event_id = or_else o.provider_event_id p.last_event_id;
  expires_at = or_else o.expires_at p.expires_at;
  failure_reason = or_else o.failure_reason p.failure_reason;
  settled_at = settled_at_of now next o.settled_at p.settled_at;
  details = merge_details p.details o.details_patch;
}

pub record Books : Type 0 where
  pub payments : List Payment
  pub entitlements : List Entitlement
  pub offers : List Offer
  pub contributions : List Contribution
  pub revenue : Revenue

abbrev pub has_hash : String → Payment → Bool
has_hash h p = p.payment_hash == h

unfoldable pub get_payment_by_hash : String → Books → Option Payment
get_payment_by_hash payment_hash b = first (has_hash payment_hash) b.payments

pub data TransitionResult : Type 0 where
  missing : TransitionResult
  unknown_status : String → TransitionResult
  invalid_transition : PaymentStatus → PaymentStatus → TransitionResult
  moved : Payment → TransitionResult

abbrev pub offer_key : Offer → ℕ
offer_key o = o.id

-- The content item whose single sale an offer is.
abbrev pub item_of_offer : Option Offer → Option ℕ
item_of_offer none = none
item_of_offer (some o) = if o.scope_type == "item" then o.scope_ref else none

unfoldable pub item_sold : String → Books → Option ℕ
item_sold payment_hash b =
    elim (first (λ (e : Entitlement). e.payment_hash == payment_hash) b.entitlements) [
      | none ↦ none
      | some e ↦ item_of_offer (find_row offer_key e.offer_id b.offers)
    ]

module _ (floor_share : ℕ → ℕ → ℕ → ℕ) (now : ℕ) where
  -- A payment that was pending is paid: its entitlement is activated, and the sale of an item is
  -- allocated to the item's contributors.
  pub on_paid : Payment → Books → Books
  on_paid p b =
      let activation =
        activate_entitlement_for_payment now p.domain_id p.payment_hash b.entitlements in
      let b' = record b { entitlements = activation.1 } in
      elim (item_sold p.payment_hash b') [
        | none ↦ b'
        | some item_id ↦ record b' {
          revenue =
              allocate_revenue floor_share now p.domain_id
                (keep (λ c. c.content_item_id == item_id) b.contributions) "offer_purchase"
                p.payment_hash p.amount_satoshis 0 b.revenue;
        }
      ]

  -- A payment that was pending expires: so do its pending entitlements.
  pub on_expired : Payment → Books → Books
  on_expired p b = record b {
    entitlements =
        update
          (λ e.
            e.payment_hash == p.payment_hash
            && e.domain_id == p.domain_id
            && e.status == "pending_payment")
          (λ e. record e { status = "expired"; terminated_at = some now }) b.entitlements;
  }

  pub side_effects : PaymentStatus → PaymentStatus → Payment → Books → Books
  side_effects pending paid p b = on_paid p b
  side_effects pending expired p b = on_expired p b
  side_effects _ _ p b = b

  -- The update of a payment whose status is `current`, and its effects.
  pub move_payment :
      PaymentStatus
      → PaymentStatus
      → PaymentTransitionOptions
      → Payment
      → Books
      → TransitionResult × Books
  move_payment current next o p b =
      let p' = with_updates now next o p in
      if not (can_transition_payment_status current next)
      then (invalid_transition current next, b)
      else (
        moved p',
        side_effects current next p' (record b {
          payments = update (has_hash p.payment_hash) (with_updates now next o) b.payments;
        }),
      )

  unfoldable pub transition_payment_status :
      String → PaymentStatus → PaymentTransitionOptions → Books → TransitionResult × Books
  transition_payment_status payment_hash next o b = elim (get_payment_by_hash payment_hash b) [
    | none ↦ (missing, b)
    | some p ↦ elim (normalize_status p.status) [
      | none ↦ (unknown_status p.status, b)
      | some current ↦ move_payment current next o p b
    ]
  ]
