-- ===== src/Payments/Licensing.antt =====
-- src/services/licensing.ts: offers, entitlements, the read quota and delegation. The tables are
-- lists of rows; the store is passed on. A transaction is a function when it runs alone, and is cut at
-- its reads in the child that interleaves two of them. Times are milliseconds, and the calls of
-- `new Date()` in one operation give one time. Read counts are integers, as in the column.
pub mod Activation
pub mod Reads
pub mod Quota
pub mod Overlap
pub mod Delegation
use wordclaw.Shared.{
  ℕ, suc, ◌+◌, String, concat, Bool, true, false, not, ◌&&◌, ◌||◌, Option, none, some, List, [],
  ◌∷◌, ◌++◌, if◌then◌else◌, ◌==◌, nat_eq, string_eq, ltb, keep, first, find_row, update_row, or_opt,
}
use mathlib.Core.List.{reverse}
use wordclaw.Shared.{ℤ, pos, negsuc, ◌-ℤ◌, ltb_ℤ, leb_ℤ}

pub record Offer : Type 0 where
  pub id : ℕ
  pub domain_id : ℕ
  pub scope_type : String
  pub scope_ref : Option ℕ
  pub active : Bool

pub record LicensePolicy : Type 0 where
  pub id : ℕ
  pub domain_id : ℕ
  pub offer_id : ℕ
  pub version : ℕ
  pub expires_at : Option ℕ
  pub max_reads : Option ℤ

pub record Entitlement : Type 0 where
  pub id : ℕ
  pub domain_id : ℕ
  pub offer_id : ℕ
  pub policy_id : ℕ
  pub policy_version : ℕ
  pub agent_profile_id : ℕ
  pub payment_hash : String
  pub status : String
  pub expires_at : Option ℕ
  pub remaining_reads : Option ℤ
  pub activated_at : Option ℕ
  pub terminated_at : Option ℕ
  pub delegated_from : Option ℕ

pub data OfferReadScope : Type 0 where
  item : ℕ → OfferReadScope
  kind : ℕ → OfferReadScope
  subscription : OfferReadScope

-- `eq(column, value)`: false at NULL.
abbrev pub column_is : Option ℕ → ℕ → Bool
column_is none v = false
column_is (some w) v = w == v

abbrev is_null : Option ℕ → Bool
is_null none = true
is_null (some w) = false

unfoldable pub in_read_scope : OfferReadScope → Offer → Bool
in_read_scope (item ref) o = o.scope_type == "item" && column_is o.scope_ref ref
in_read_scope (kind ref) o = o.scope_type == "type" && column_is o.scope_ref ref
in_read_scope subscription o = o.scope_type == "subscription" && is_null o.scope_ref

-- A filter on an optional argument; an empty scope type is no filter.
abbrev scope_type_is : Option String → Offer → Bool
scope_type_is none o = true
scope_type_is (some t) o = t == "" || o.scope_type == t

abbrev scope_ref_is : Option ℕ → Offer → Bool
scope_ref_is none o = true
scope_ref_is (some r) o = column_is o.scope_ref r

pub get_offers : List Offer → ℕ → Option String → Option ℕ → List Offer
get_offers offers domain_id scope_type scope_ref =
    keep
      (λ o.
        o.domain_id == domain_id
        && o.active
        && scope_type_is scope_type o
        && scope_ref_is scope_ref o)
      offers

unfoldable pub get_active_offers_for_read_scope : List Offer → ℕ → OfferReadScope → List Offer
unfolding in_read_scope
get_active_offers_for_read_scope offers domain_id scope =
    keep (λ o. o.domain_id == domain_id && o.active && in_read_scope scope o) offers

-- The three scopes that cover one content item.
unfoldable pub covers_item : ℕ → ℕ → Offer → Bool
unfolding in_read_scope
covers_item item_id content_type_id o =
    in_read_scope (item item_id) o
    || in_read_scope (kind content_type_id) o
    || in_read_scope subscription o

unfoldable pub get_active_offers_for_item_read : List Offer → ℕ → ℕ → ℕ → List Offer
unfolding covers_item
get_active_offers_for_item_read offers domain_id item_id content_type_id =
    keep (λ o. o.domain_id == domain_id && o.active && covers_item item_id content_type_id o) offers

-- `ORDER BY version`, its first row.
lowest_version : Option LicensePolicy → List LicensePolicy → Option LicensePolicy
lowest_version best [] = best
lowest_version none (p ∷ ps) = lowest_version (some p) ps
lowest_version (some b) (p ∷ ps) =
    lowest_version (some (if ltb p.version b.version then p else b)) ps

pub data LicensingError : Type 0 where
  offer_missing_policy parent_entitlement_invalid : LicensingError
  cannot_delegate_already_delegated insufficient_reads concurrent_delegation : LicensingError

pub data Outcome {ℓ} (A : Type ℓ) : Type ℓ where
  ok : A → Outcome A
  err : LicensingError → Outcome A

-- The new row's key is `fresh`, the value of the table's sequence.
pub provision_entitlement_for_sale :
    List LicensePolicy
    → ℕ
    → ℕ
    → ℕ
    → ℕ
    → String
    → List Entitlement
    → Outcome Entitlement × List Entitlement
unfolding lowest_version
provision_entitlement_for_sale policies fresh domain_id offer_id agent_profile_id payment_hash t =
    elim (lowest_version none
      (keep (λ (p : LicensePolicy). p.offer_id == offer_id && p.domain_id == domain_id) policies)) [
        | none ↦ (err offer_missing_policy, t)
        | some policy ↦
            let row : Entitlement = record {
              id = fresh;
              domain_id = domain_id;
              offer_id = offer_id;
              policy_id = policy.id;
              policy_version = policy.version;
              agent_profile_id = agent_profile_id;
              payment_hash = payment_hash;
              status = "pending_payment";
              expires_at = policy.expires_at;
              remaining_reads = policy.max_reads;
              activated_at = none;
              terminated_at = none;
              delegated_from = none;
            } in
            (ok row, t ++ row ∷ [])
      ]

abbrev pub key : Entitlement → ℕ
key e = e.id

abbrev pub has_status : String → Entitlement → Bool
has_status s e = e.status == s

-- The row of a payment in a domain; `payment_hash` is unique.
unfoldable pub get_entitlement_by_payment_hash : ℕ → String → List Entitlement → Option Entitlement
get_entitlement_by_payment_hash domain_id payment_hash =
    first (λ e. e.domain_id == domain_id && e.payment_hash == payment_hash)

unfoldable pub activated : ℕ → Entitlement → Entitlement
activated now e = record e { status = "active"; activated_at = some now; terminated_at = none }

-- The update of a row that was found pending.
unfoldable pub activate_row :
    ℕ → Entitlement → List Entitlement → Option Entitlement × List Entitlement
unfolding activated
activate_row now existing t =
    let (updated, t') =
      update_row key existing.id (has_status "pending_payment") (activated now) t in
    (or_opt updated (some existing), t')

unfoldable pub activate_entitlement_for_payment :
    ℕ → ℕ → String → List Entitlement → Option Entitlement × List Entitlement
activate_entitlement_for_payment now domain_id payment_hash t =
    elim (get_entitlement_by_payment_hash domain_id payment_hash t) [
      | none ↦ (none, t)
      | some existing ↦
          if existing.status == "active"
          then (some existing, t)
          else if not (existing.status == "pending_payment")
          then (some existing, t)
          else activate_row now existing t
    ]

-- Keys grow with insertion, so `ORDER BY id DESC` is the reverse.
pub get_pending_entitlements_for_offer : ℕ → ℕ → ℕ → List Entitlement → List Entitlement
get_pending_entitlements_for_offer domain_id offer_id agent_profile_id t = reverse (
    keep
      (λ e.
        e.domain_id == domain_id
        && e.offer_id == offer_id
        && e.agent_profile_id == agent_profile_id
        && e.status == "pending_payment")
      t)

pub get_entitlements_for_agent : ℕ → ℕ → List Entitlement → List Entitlement
get_entitlements_for_agent domain_id agent_profile_id t =
    reverse (keep (λ e. e.domain_id == domain_id && e.agent_profile_id == agent_profile_id) t)

-- `WHERE id = … AND domain_id = …`.
unfoldable pub find_entitlement : ℕ → ℕ → List Entitlement → Option Entitlement
find_entitlement domain_id id t = elim (find_row key id t) [
  | none ↦ none
  | some e ↦ if e.domain_id == domain_id then some e else none
]

pub get_entitlement_for_agent_by_id : ℕ → ℕ → ℕ → List Entitlement → Option Entitlement
unfolding find_entitlement
get_entitlement_for_agent_by_id domain_id agent_profile_id entitlement_id t =
    elim (find_entitlement domain_id entitlement_id t) [
      | none ↦ none
      | some e ↦ if e.agent_profile_id == agent_profile_id then some e else none
    ]

abbrev offer_key : Offer → ℕ
offer_key o = o.id

-- The join with the offer of an active entitlement of the agent.
eligible : (Offer → Bool) → List Offer → ℕ → ℕ → Entitlement → Bool
eligible covers offers domain_id agent_profile_id e = elim (find_row offer_key e.offer_id offers) [
  | none ↦ false
  | some o ↦
      e.domain_id == domain_id
      && e.agent_profile_id == agent_profile_id
      && e.status == "active"
      && o.domain_id == domain_id
      && covers o
]

unfoldable pub get_eligible_entitlements_for_item_read :
    List Offer → ℕ → ℕ → ℕ → ℕ → List Entitlement → List Entitlement
unfolding eligible covers_item
get_eligible_entitlements_for_item_read offers domain_id agent_profile_id item_id content_type_id =
    keep (eligible (covers_item item_id content_type_id) offers domain_id agent_profile_id)

unfoldable pub get_eligible_entitlements_for_read_scope :
    List Offer → ℕ → ℕ → OfferReadScope → List Entitlement → List Entitlement
unfolding eligible in_read_scope
get_eligible_entitlements_for_read_scope offers domain_id agent_profile_id scope =
    keep (eligible (in_read_scope scope) offers domain_id agent_profile_id)
