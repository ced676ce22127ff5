-- ===== src/Payments/Revenue/Split.antt =====
-- What the split of src/services/revenue-allocator.service.ts pays out.
use wordclaw.Shared.{
  ℕ, ◌+◌, ◌-◌, ◌*◌, ◌≤◌, ◌<◌, ◌≡◌, ap, ◌∙◌, List, [], ◌∷◌, arith, sum_by, length, length-append,
  All, String, sum_by-append,
}
use wordclaw.Payments.Revenue.{
  Contribution, Share, Revenue, allocate_revenue, amount, weight_of, in_role, add_remainder,
  settle_remainder, split_role, allocate_role, role_shares, allocate_shares, author_weight,
  editor_weight, distributor_weight,
}

-- The remainder is added once, whoever gets it.
sum_by-add_remainder :
    (author remainder : ℕ) (shares : List Share)
    → sum_by amount (add_remainder author remainder shares) ≡ sum_by amount shares + remainder
unfolding add_remainder
sum_by-add_remainder author remainder [] = omega arith
sum_by-add_remainder author remainder (a ∷ shares) =
    ground (arith, sum_by-add_remainder author remainder shares)

sum_by-settle_remainder :
    (remainder : ℕ) (c : Contribution) (authors : List Contribution) (shares : List Share)
    → sum_by amount (settle_remainder remainder (c ∷ authors) shares)
      ≡ sum_by amount shares + remainder
unfolding settle_remainder
sum_by-settle_remainder remainder c authors shares =
    ground (arith, sum_by-add_remainder c.agent_profile_id remainder shares)

-- Below this bound a double holds every integer, with a bit to spare.
abbrev pub exact_limit : ℕ
exact_limit = 4503599627370496

-- The floor of the product of doubles does not pass the exact quotient, while the exact product stays
-- below the bound.
abbrev pub NeverOver : (ℕ → ℕ → ℕ → ℕ) → Type 0
NeverOver floor_share = (a b c : ℕ) → a * b < exact_limit → floor_share a b c * c ≤ a * b

abbrev pub AllPositive : List Contribution → Type 0
AllPositive cs = All (λ c. 0 < c.weight) cs

in_role-AllPositive :
    (role : String) (cs : List Contribution) → AllPositive cs → AllPositive (in_role role cs)
in_role-AllPositive role [] h = tt
in_role-AllPositive role (c ∷ cs) h = ground (arith, in_role-AllPositive role cs h.1)

in_role-le :
    (role : String) (cs : List Contribution)
    → sum_by weight_of (in_role role cs) ≤ sum_by weight_of cs
in_role-le role [] = omega arith
in_role-le role (c ∷ cs) = ground (arith, in_role-le role cs)

cancel_le : (a b n : ℕ) → 0 < n → a * n ≤ b * n → a ≤ b
cancel_le a b n h k = grind arith

module _ (floor_share : ℕ → ℕ → ℕ → ℕ) (never_over : NeverOver floor_share) where
  -- A role's shares, weighed, are at most the role's sats by the contributions' weights.
  weighed-split_role :
      (sats total : ℕ) (cs : List Contribution)
      → sats * sum_by weight_of cs < exact_limit
      → sum_by amount (split_role floor_share sats total cs) * total ≤ sats * sum_by weight_of cs
  unfolding split_role
  weighed-split_role sats total [] h = omega arith
  weighed-split_role sats total (c ∷ cs) h = omega (
    arith,
    weighed-split_role sats total cs (omega arith),
    never_over sats c.weight total (omega arith),
  )

  split_role-le :
      (sats : ℕ) (cs : List Contribution)
      → AllPositive cs
      → sats * sum_by weight_of cs < exact_limit
      → sum_by amount (split_role floor_share sats (sum_by weight_of cs) cs) ≤ sats
  split_role-le sats [] h k = unfold split_role in omega arith
  split_role-le sats (c ∷ cs) h k =
      cancel_le _ sats (sum_by weight_of (c ∷ cs)) (omega arith)
        (weighed-split_role sats (sum_by weight_of (c ∷ cs)) (c ∷ cs) k)

  -- A role gets at most its percentage.
  allocate_role-le :
      (net percentage : ℕ) (cs : List Contribution)
      → AllPositive cs
      → percentage ≤ 100
      → net * 100 < exact_limit
      → net * sum_by weight_of cs < exact_limit
      → sum_by amount (allocate_role floor_share net percentage cs) * 100 ≤ net * percentage
  unfolding allocate_role
  allocate_role-le net percentage cs h p small k =
      let sats = floor_share net percentage 100 in
      let scaled : net * percentage ≤ net * 100 = grind arith in
      let most = never_over net percentage 100 (omega arith) in
      let fits : sats ≤ net = omega arith in
      let bounded : sats * sum_by weight_of cs ≤ net * sum_by weight_of cs = grind arith in
      omega (arith, split_role-le sats cs h (omega arith))

  role_shares-le :
      (net : ℕ) (cs : List Contribution)
      → AllPositive cs
      → net * 100 < exact_limit
      → net * sum_by weight_of cs < exact_limit
      → sum_by amount (role_shares floor_share net cs) ≤ net
  unfolding role_shares
  role_shares-le net cs h small k = omega (
    arith,
    sum_by-append {0} amount,
    role author_weight "author" (omega arith),
    role editor_weight "editor" (omega arith),
    role distributor_weight "distributor" (omega arith),
  )
    where
      role :
          (percentage : ℕ) (name : String)
          → percentage ≤ 100
          → sum_by amount (allocate_role floor_share net percentage (in_role name cs)) * 100
            ≤ net * percentage
      role percentage name p =
          let part = in_role-le name cs in
          let scaled : net * sum_by weight_of (in_role name cs) ≤ net * sum_by weight_of cs =
            grind arith in
          allocate_role-le net percentage (in_role name cs) (in_role-AllPositive name cs h) p small
            (omega arith)

  -- With an author among the contributions, all weights positive and the products in the range where
  -- doubles are exact, the shares add up to the net amount to the last sat.
  pub allocate_shares_conserve :
      (net : ℕ) (cs authors : List Contribution) (c : Contribution)
      → in_role "author" cs ≡ c ∷ authors
      → AllPositive cs
      → net * 100 < exact_limit
      → net * sum_by weight_of cs < exact_limit
      → sum_by amount (allocate_shares floor_share net cs) ≡ net
  unfolding allocate_shares
  allocate_shares_conserve net cs authors c found h small k =
      let shares = role_shares floor_share net cs in
      ap (λ l. sum_by amount (settle_remainder (net - sum_by amount shares) l shares)) found
      ∙ sum_by-settle_remainder (net - sum_by amount shares) c authors shares
      ∙ omega (arith, role_shares-le net cs h small k)

-- One call enters one sale.
pub length-allocate_revenue :
    (floor_share : ℕ → ℕ → ℕ → ℕ) (now domain_id : ℕ) (cs : List Contribution)
    (source_type source_ref : String) (gross fee : ℕ) (r : Revenue)
    → length
        (allocate_revenue floor_share now domain_id cs source_type source_ref gross fee r).events
      ≡ length r.events + 1
unfolding allocate_revenue
length-allocate_revenue floor_share now domain_id cs source_type source_ref gross fee r =
    length-append r.events _
