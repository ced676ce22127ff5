-- ===== src/Payments/Revenue.antt =====
-- src/services/revenue-allocator.service.ts: the split of a payment among its contributors. The two
-- products of doubles that the code floors are a parameter, `floor_share a b c` for
-- `Math.floor(a * (b / c))`. Fees above the gross amount, for which the net is negative, are left out.
pub mod Split
use wordclaw.Shared.{
  ℕ, suc, ◌+◌, ◌-◌, String, Bool, true, false, ◌&&◌, Option, none, some, List, [], ◌∷◌, ◌++◌, map,
  if◌then◌else◌, ◌==◌, nat_eq, string_eq, ltb, keep, sum_by,
}

pub record Contribution : Type 0 where
  pub content_item_id : ℕ
  pub agent_profile_id : ℕ
  pub role : String
  pub weight : ℕ

pub record RevenueEvent : Type 0 where
  pub id : ℕ
  pub domain_id : ℕ
  pub source_type : String
  pub source_ref : String
  pub gross_sats : ℕ
  pub fee_sats : ℕ
  pub net_sats : ℕ

pub record Share : Type 0 where
  pub agent_profile_id : ℕ
  pub amount_sats : ℕ

pub record Allocation : Type 0 where
  pub id : ℕ
  pub domain_id : ℕ
  pub revenue_event_id : ℕ
  pub share : Share

pub record StatusEvent : Type 0 where
  pub domain_id : ℕ
  pub allocation_id : ℕ
  pub status : String
  pub created_at : ℕ

abbrev pub author_weight : ℕ
author_weight = 70

abbrev pub editor_weight : ℕ
editor_weight = 10

abbrev pub distributor_weight : ℕ
distributor_weight = 20

abbrev pub amount : Share → ℕ
amount a = a.amount_sats

abbrev pub weight_of : Contribution → ℕ
weight_of c = c.weight

abbrev pub in_role : String → List Contribution → List Contribution
in_role role = keep (λ c. c.role == role)

-- `allocationsToInsert[firstAuthorIdx].amountSats += remainder`, or a share of its own at the end.
pub add_remainder : ℕ → ℕ → List Share → List Share
add_remainder author remainder [] =
    record { agent_profile_id = author; amount_sats = remainder } ∷ []
add_remainder author remainder (a ∷ shares) =
    let rest = a ∷ add_remainder author remainder shares in
    if a.agent_profile_id == author
    then record a { amount_sats = a.amount_sats + remainder } ∷ shares
    else rest

-- The remainder goes to the first author, if there is one.
settle_remainder : ℕ → List Contribution → List Share → List Share
unfolding add_remainder
settle_remainder remainder [] shares = shares
settle_remainder remainder (c ∷ authors) shares =
    if ltb 0 remainder then add_remainder c.agent_profile_id remainder shares else shares

-- The tables that an allocation writes.
pub record Revenue : Type 0 where
  pub events : List RevenueEvent
  pub allocations : List Allocation
  pub statuses : List StatusEvent
  pub next_event : ℕ
  pub next_allocation : ℕ

-- The rows of the shares, with keys from the sequence.
number_shares : ℕ → ℕ → ℕ → List Share → List Allocation
number_shares fresh domain_id event_id [] = []
number_shares fresh domain_id event_id (a ∷ shares) =
    record { id = fresh; domain_id = domain_id; revenue_event_id = event_id; share = a }
    ∷ number_shares (suc fresh) domain_id event_id shares

abbrev count : List Share → ℕ
count [] = 0
count (a ∷ shares) = suc (count shares)

module _ (floor_share : ℕ → ℕ → ℕ → ℕ) where
  -- The shares of a role's sats among its contributions.
  pub split_role : ℕ → ℕ → List Contribution → List Share
  split_role role_sats total_weight [] = []
  split_role role_sats total_weight (c ∷ contributions) =
      record {
        agent_profile_id = c.agent_profile_id;
        amount_sats = floor_share role_sats c.weight total_weight;
      }
      ∷ split_role role_sats total_weight contributions

  -- `allocateRole`.
  pub allocate_role : ℕ → ℕ → List Contribution → List Share
  unfolding split_role
  allocate_role net_sats percentage contributions =
      split_role (floor_share net_sats percentage 100) (sum_by weight_of contributions)
        contributions

  -- The shares of the three roles.
  pub role_shares : ℕ → List Contribution → List Share
  role_shares net_sats contributions =
      allocate_role net_sats author_weight (in_role "author" contributions)
      ++ (allocate_role net_sats editor_weight (in_role "editor" contributions)
          ++ allocate_role net_sats distributor_weight (in_role "distributor" contributions))

  -- The shares of a net amount, the remainder settled.
  pub allocate_shares : ℕ → List Contribution → List Share
  allocate_shares net_sats contributions =
      let shares = role_shares net_sats contributions in
      settle_remainder (net_sats - sum_by amount shares) (in_role "author" contributions) shares

  -- `allocateRevenue`, on the contributions of the content item.
  pub allocate_revenue : ℕ → ℕ → List Contribution → String → String → ℕ → ℕ → Revenue → Revenue
  unfolding allocate_shares number_shares
  allocate_revenue now domain_id contributions source_type source_ref gross_sats fee_sats r =
      let shares = allocate_shares (gross_sats - fee_sats) contributions in
      let rows = number_shares r.next_allocation domain_id r.next_event shares in
      record {
        events =
            r.events
            ++ record {
              id = r.next_event;
              domain_id = domain_id;
              source_type = source_type;
              source_ref = source_ref;
              gross_sats = gross_sats;
              fee_sats = fee_sats;
              net_sats = gross_sats - fee_sats;
            }
              ∷ [];
        allocations = r.allocations ++ rows;
        statuses =
            r.statuses
            ++ map
                (λ (a : Allocation). record {
                  domain_id = domain_id;
                  allocation_id = a.id;
                  status = "pending";
                  created_at = now;
                })
                rows;
        next_event = suc r.next_event;
        next_allocation = r.next_allocation + count shares;
      }
