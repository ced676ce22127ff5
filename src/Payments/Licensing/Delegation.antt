-- ===== src/Payments/Licensing/Delegation.antt =====
-- `delegateEntitlement` of src/services/licensing.ts: what a delegation moves, and what it mints.
use wordclaw.Shared.{
  ℕ, String, ◌≡◌, refl, ◌∙◌, ap, inl, inr, true, false, Option, none, some, List, [], ◌∷◌, arith,
  eq_iff, ◌==◌, nat_eq, string_eq, find_row, update_row, find_row-key, find_row-append,
  find_row-append_absent, find_row-update_row_ne, ◌≢◌, ◌⊎◌, update_row-returning,
  find_row-update_row, ltb_ℤ, Bool-cases, test_refl, subst, sym, written, after_write, ℤ, pos, ◌-ℤ◌,
}
use mathlib.Core.Option.{none-ne-some}
use wordclaw.Payments.Licensing.{Outcome, Entitlement, ok, err, key, insufficient_reads}
use wordclaw.Payments.Licensing.Reads.{
  with_reads, is_delegated, above, reads_above, delegated_row, take_reads, delegate_entitlement,
}
use wordclaw.Payments.Licensing.Quota.{found_in_domain}

abbrev pub left_of : Option Entitlement → Option ℤ
left_of none = none
left_of (some e) = e.remaining_reads

-- The parent's update, when the parent has the reads.
take_reads_taken :
    (i : ℕ) (n reads : ℤ) (e : Entitlement) (t : List Entitlement)
    → find_row key i t ≡ some e
    → e.remaining_reads ≡ some n
    → ltb_ℤ n reads ≡ false
    → (t' : List Entitlement) × (take_reads e reads (some n) t ≡ ok t')
      × (find_row key i t' ≡ some (with_reads (n -ℤ reads) e))
      × ((j : ℕ) → i ≢ j → find_row key j t' ≡ find_row key j t)
unfolding take_reads
take_reads_taken i n reads e t found left enough =
    let guard : reads_above (reads -ℤ pos 1) e ≡ true =
      ap (above (reads -ℤ pos 1)) left ∙ taken n reads enough in
    let c = reads_above (reads -ℤ pos 1) in
    let f = with_reads (n -ℤ reads) in
    let hit : (update_row key e.id c f t).0 ≡ some (f e) =
      update_row-returning key e.id c f t ∙ ap (written key c f) here ∙ rw guard refl in
    let row : find_row key i (update_row key e.id c f t).1 ≡ some (f e) =
      subst (λ k. find_row key k (update_row key e.id c f t).1 ≡ some (f e))
        (find_row-key key i t found)
        (find_row-update_row key f (λ a. unfold with_reads in refl) e.id c t
          ∙ ap (after_write key c f) here
          ∙ rw guard refl) in
    ((update_row key e.id c f t).1, rw (enough, hit) refl, row, others)
  where
    taken : (a b : ℤ) → ltb_ℤ a b ≡ false → ltb_ℤ (b -ℤ pos 1) a ≡ true
    taken a b h = unfold ◌-ℤ◌ in ground arith

    others :
        (j : ℕ)
        → i ≢ j
        → find_row key j
            (update_row key e.id (reads_above (reads -ℤ pos 1)) (with_reads (n -ℤ reads)) t).1
          ≡ find_row key j t
    others j apart =
        find_row-update_row_ne key (with_reads (n -ℤ reads)) (λ a. unfold with_reads in refl) e.id j
          (reads_above (reads -ℤ pos 1)) t (λ q. apart (sym (find_row-key key i t found) ∙ q))

    here : find_row key e.id t ≡ some e
    here = subst (λ k. find_row key k t ≡ some e) (sym (find_row-key key i t found)) found

take_reads_refused :
    (n reads : ℤ) (e : Entitlement) (t : List Entitlement)
    → ltb_ℤ n reads ≡ true
    → take_reads e reads (some n) t ≡ err insufficient_reads
unfolding take_reads
take_reads_refused n reads e t few = rw few refl

-- A row that was delegated: an active share of the parent, for as long as the parent, of so many reads.
pub record IsShare (parent : Entitlement) (target : ℕ) (reads : ℤ) (row : Entitlement)
    : Type 0 where
  pub has_reads : row.remaining_reads ≡ some reads
  pub of_parent : row.delegated_from ≡ some parent.id
  pub for_target : row.agent_profile_id ≡ target
  pub is_active : row.status ≡ "active"
  pub same_domain : row.domain_id ≡ parent.domain_id
  pub same_offer : row.offer_id ≡ parent.offer_id
  pub same_policy : row.policy_id ≡ parent.policy_id
  pub same_version : row.policy_version ≡ parent.policy_version
  pub same_expiry : row.expires_at ≡ parent.expires_at

delegated_row-IsShare :
    (fresh : ℕ) (hash : String) (e : Entitlement) (target : ℕ) (reads : ℤ)
    → IsShare e target reads (delegated_row fresh hash e target reads)
unfolding delegated_row
delegated_row-IsShare fresh hash e target reads = record {
  has_reads = refl;
  of_parent = refl;
  for_target = refl;
  is_active = refl;
  same_domain = refl;
  same_offer = refl;
  same_policy = refl;
  same_version = refl;
  same_expiry = refl;
}

find_row-delegated_row :
    (fresh : ℕ) (hash : String) (e : Entitlement) (target : ℕ) (reads : ℤ)
    → find_row key fresh (delegated_row fresh hash e target reads ∷ [])
      ≡ some (delegated_row fresh hash e target reads)
unfolding find_row delegated_row
find_row-delegated_row fresh hash e target reads = rw (test_refl fresh) refl

-- A delegation that is made: the row that it returns is the share, it is in the table under the new key, and
-- the parent is left with the rest.
pub record Moved (fresh i target : ℕ) (n reads : ℤ) (parent : Entitlement)
    (after : Outcome Entitlement × List Entitlement) : Type 0 where
  pub row : Entitlement
  pub is_returned : after.0 ≡ ok row
  pub is_stored : find_row key fresh after.1 ≡ some row
  pub is_share : IsShare parent target reads row
  pub parent_left : left_of (find_row key i after.1) ≡ some (n -ℤ reads)

-- A delegation from an active parent of the domain that was not delegated itself and has `n` reads left, under
-- a key that no row has. Asked for more than `n`, it is refused and changes no row. Otherwise it stores and
-- returns a new active row of the target with exactly `reads` reads, the parent's domain, offer, policy and
-- expiry and a reference to the parent, and leaves the parent `n - reads`, whatever the sign of `reads`.
pub delegate_entitlement-moves :
    (fresh d i target : ℕ) (hash : String) (n reads : ℤ) (e : Entitlement) (t : List Entitlement)
    → find_row key fresh t ≡ none
    → find_row key i t ≡ some e
    → e.domain_id ≡ d
    → e.status ≡ "active"
    → e.delegated_from ≡ none
    → e.remaining_reads ≡ some n
    → ((ltb_ℤ n reads ≡ true)
        × (delegate_entitlement fresh hash d i target reads t ≡ (err insufficient_reads, t)))
      ⊎ ((ltb_ℤ n reads ≡ false)
          × Moved fresh i target n reads e (delegate_entitlement fresh hash d i target reads t))
unfolding delegate_entitlement
delegate_entitlement-moves fresh d i target hash n reads e t absent found own a root left =
    let live : (e.status == "active") ≡ true = (eq_iff e.status "active").1 a in
    let direct : is_delegated e.delegated_from ≡ false =
      unfold is_delegated in ap is_delegated root in
    let parent = found_in_domain d i e t found own in
    elim (Bool-cases (ltb_ℤ n reads)) [
      | inl few ↦
          let refusal =
            ap (λ o. take_reads e reads o t) left ∙ take_reads_refused n reads e t few in
          inl (few, rw (parent, delegate_entitlement) (rw (live, direct, refusal) refl))
      | inr enough ↦
          let (t', taken, row, others) = take_reads_taken i n reads e t found left enough in
          let success = ap (λ o. take_reads e reads o t) left ∙ taken in
          let new : Entitlement = delegated_row fresh hash e target reads in
          let unused : find_row key fresh t' ≡ none = others fresh apart ∙ absent in
          inr (
            enough,
            rw (parent, delegate_entitlement)
                (rw (live, direct, success)
                  (record {
                    row = new;
                    is_returned = refl;
                    is_stored =
                        find_row-append_absent key fresh t' (new ∷ []) unused
                        ∙ find_row-delegated_row fresh hash e target reads;
                    is_share = delegated_row-IsShare fresh hash e target reads;
                    parent_left =
                        ap left_of (find_row-append key i t' (new ∷ []) row)
                        ∙ unfold with_reads in refl;
                  })),
          )
    ]
  where
    apart : i ≢ fresh
    apart q = none-ne-some e (sym absent ∙ subst (λ k. find_row key k t ≡ some e) q found)
