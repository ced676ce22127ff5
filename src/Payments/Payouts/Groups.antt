-- ===== src/Payments/Payouts/Groups.antt =====
-- The groups in which src/workers/payout.worker.ts sums amounts: by domain, and by agent and domain.
use wordclaw.Shared.{
  ℕ, ◌+◌, ◌≤◌, ◌≡◌, refl, sym, subst, Bool, false, List, [], ◌∷◌, ◌++◌, inl, inr, Bool-cases,
  if◌then◌else◌, ◌==◌, nat_eq, nat_beq_iff, string_eq, keep, includes, sum_by, arith, test_comm,
}

-- No number stands twice.
abbrev pub NoDup : List ℕ → Type 0
NoDup [] = Unit
NoDup (n ∷ ns) = (includes ns n ≡ false) × NoDup ns

module _ {ℓ} {A : Type ℓ} (key amount : A → ℕ) where
  -- The sums of the groups of some keys.
  unfoldable pub groups : List A → List ℕ → ℕ
  groups xs [] = 0
  groups xs (k ∷ ks) = sum_by amount (keep (λ x. key x == k) xs) + groups xs ks

  -- What one row gives to the groups.
  single : A → List ℕ → ℕ
  single x [] = 0
  single x (k ∷ ks) = (if key x == k then amount x else 0) + single x ks

  groups-cons :
      (x : A) (xs : List A) (ks : List ℕ) → groups (x ∷ xs) ks ≡ single x ks + groups xs ks
  unfolding groups single
  groups-cons x xs [] = omega arith
  groups-cons x xs (k ∷ ks) = elim (Bool-cases (key x == k)) [
    | inl e ↦ rw e (omega (arith, groups-cons x xs ks))
    | inr e ↦ rw e (omega (arith, groups-cons x xs ks))
  ]

  single-none : (x : A) (ks : List ℕ) → includes ks (key x) ≡ false → single x ks ≡ 0
  unfolding single
  single-none x [] h = refl
  single-none x (k ∷ ks) h = elim (Bool-cases (k == key x)) [
    | inl e ↦ absurd (ground arith)
    | inr e ↦ rw (test_comm (key x) k) (rw e (omega (arith, single-none x ks (rw e at h))))
  ]

  single-le : (x : A) (ks : List ℕ) → NoDup ks → single x ks ≤ amount x
  unfolding single
  single-le x [] h = omega arith
  single-le x (k ∷ ks) (new, h) = elim (Bool-cases (key x == k)) [
    | inl e ↦
        let none_left : single x ks ≡ 0 =
          single-none x ks
            (subst (λ j. includes ks j ≡ false) (sym ((nat_beq_iff (key x) k).0 e)) new) in
        rw e (omega (arith, none_left))
    | inr e ↦ rw e (omega (arith, single-le x ks h))
  ]

  groups-nil : (ks : List ℕ) → groups [] ks ≡ 0
  unfolding groups
  groups-nil [] = refl
  groups-nil (k ∷ ks) = omega (arith, groups-nil ks)

  -- The groups of distinct keys are no more than the whole.
  pub groups-le : (xs : List A) (ks : List ℕ) → NoDup ks → groups xs ks ≤ sum_by amount xs
  groups-le [] ks h = omega (arith, groups-nil ks)
  groups-le (x ∷ xs) ks h = omega (arith, groups-cons x xs ks, single-le x ks h, groups-le xs ks h)

module _ {ℓ} {A : Type ℓ} (amount : A → ℕ) where
  unfoldable pub kept : (A → Bool) → List A → ℕ
  kept p xs = sum_by amount (keep p xs)

  pub kept-append : (p : A → Bool) (xs ys : List A) → kept p (xs ++ ys) ≡ kept p xs + kept p ys
  unfolding kept
  kept-append p [] ys = omega arith
  kept-append p (x ∷ xs) ys = elim (Bool-cases (p x)) [
    | inl e ↦ rw e (omega (arith, kept-append p xs ys))
    | inr e ↦ rw e (kept-append p xs ys)
  ]

  pub kept-le : (p : A → Bool) (xs : List A) → kept p xs ≤ sum_by amount xs
  unfolding kept
  kept-le p [] = omega arith
  kept-le p (x ∷ xs) = elim (Bool-cases (p x)) [
    | inl e ↦ rw e (omega (arith, kept-le p xs))
    | inr e ↦ rw e (omega (arith, kept-le p xs))
  ]

  pub kept-swap : (p q : A → Bool) (xs : List A) → kept p (keep q xs) ≡ kept q (keep p xs)
  unfolding kept
  kept-swap p q [] = refl
  kept-swap p q (x ∷ xs) = elim (Bool-cases (p x)) [
    | inl e ↦ elim (Bool-cases (q x)) [
      | inl f ↦ rw (e, f) (rw e (omega (arith, kept-swap p q xs)))
      | inr f ↦ rw (e, f) (kept-swap p q xs)
    ]
    | inr e ↦ elim (Bool-cases (q x)) [
      | inl f ↦ rw (e, f) (rw e (kept-swap p q xs))
      | inr f ↦ rw (e, f) (kept-swap p q xs)
    ]
  ]
