-- ===== src/Shared/Rows.antt =====
-- Lists of rows under the database's statements: what holds of all rows, and which row is found first.
use mathlib.Core.Path.{◌≡◌, refl, sym, ap, ◌∙◌, subst}
use mathlib.Core.Logic.{inl, inr}
use mathlib.Core.Bool.{Bool, true, false, ◌||◌}
use mathlib.Core.Option.{none, some, some-injective, none-ne-some}
use mathlib.Core.List.{List, [], ◌∷◌, ◌++◌}
use native.Mathlib.Omega.{arith}
use wordclaw.Shared.Tests.{
  or_assoc, or_false, HasTest, ◌==◌, false_ne_true, if◌then◌else◌, Bool-cases,
}
use wordclaw.Shared.Lists.{includes, All, any, first, update}

-- An update turns rows of one kind into rows of another.
pub All-update {ℓ κ μ} :
    {A : Type ℓ} {P : A → Type κ} {Q : A → Type μ} (p : A → Bool) (f : A → A)
    → ((a : A) → P a → p a ≡ true → Q (f a))
    → ((a : A) → P a → p a ≡ false → Q a)
    → (xs : List A) → All P xs
    → All Q (update p f xs)
All-update p f on off [] h = tt
All-update p f on off (x ∷ xs) (h, hs) = elim (Bool-cases (p x)) [
  | inl e ↦ rw e (on x h e, All-update p f on off xs hs)
  | inr e ↦ rw e (off x h e, All-update p f on off xs hs)
]

pub All-weaken {ℓ κ μ} :
    {A : Type ℓ} (P : A → Type κ) (Q : A → Type μ)
    → ((a : A) → P a → Q a)
    → (xs : List A) → All P xs
    → All Q xs
All-weaken P Q f [] h = tt
All-weaken P Q f (x ∷ xs) (h, hs) = (f x h, All-weaken P Q f xs hs)

module _ {ℓ} {A : Type ℓ} where
  pub first-All {κ} :
      (P : A → Type κ) (p : A → Bool) (xs : List A) {a : A} → All P xs → first p xs ≡ some a → P a
  first-All P p [] {a = a} hs found = absurd (none-ne-some a found)
  first-All P p (x ∷ xs) {a = a} (h, hs) found = elim (Bool-cases (p x)) [
    | inl e ↦ subst P (some-injective x a (rw e at found)) h
    | inr e ↦ first-All P p xs hs (rw e at found)
  ]

  -- A row that is found is found among more rows.
  pub first-append :
      (p : A → Bool) (xs ys : List A) {a : A} → first p xs ≡ some a → first p (xs ++ ys) ≡ some a
  first-append p [] ys {a = a} found = absurd (none-ne-some a found)
  first-append p (x ∷ xs) ys found = elim (Bool-cases (p x)) [
    | inl h ↦ rw h (rw h at found)
    | inr h ↦ rw h (first-append p xs ys (rw h at found))
  ]

  -- An update that spares the rows looked for.
  pub first-update_other :
      (p q : A → Bool) (f : A → A)
      → ((a : A) → p (f a) ≡ p a)
      → ((a : A) → q a ≡ true → p a ≡ false)
      → (xs : List A) → first p (update q f xs) ≡ first p xs
  first-update_other p q f same apart [] = refl
  first-update_other p q f same apart (x ∷ xs) = elim (Bool-cases (q x)) [
    | inl h ↦
        let miss : p x ≡ false = apart x h in
        rw h (rw (same x) (rw miss (first-update_other p q f same apart xs)))
    | inr h ↦ rw h (ap (λ o. if p x then some x else o) (first-update_other p q f same apart xs))
  ]

  -- A row that is appended where none was found is found.
  pub first-absent_append :
      (p : A → Bool) (xs : List A) (a : A)
      → first p xs ≡ none
      → p a ≡ true
      → first p (xs ++ a ∷ []) ≡ some a
  first-absent_append p [] a absent holds = rw holds refl
  first-absent_append p (x ∷ xs) a absent holds = elim (Bool-cases (p x)) [
    | inl h ↦ absurd (none-ne-some x (sym (rw h at absent)))
    | inr h ↦ rw h (first-absent_append p xs a (rw h at absent) holds)
  ]

  -- Nothing is found among rows that the test fails on.
  pub first-none : (p : A → Bool) (xs : List A) → All (λ x. p x ≡ false) xs → first p xs ≡ none
  first-none p [] h = refl
  first-none p (x ∷ xs) (h, hs) = rw h (first-none p xs hs)

  -- No row passes a test that none of them passes.
  pub any-false : (p : A → Bool) (xs : List A) → any p xs ≡ false → All (λ x. p x ≡ false) xs
  any-false p [] h = tt
  any-false p (x ∷ xs) h = elim (Bool-cases (p x)) [
    | inl e ↦ absurd (ground arith)
    | inr e ↦ (e, any-false p xs (rw e at h))
  ]

  pub any-append : (p : A → Bool) (xs ys : List A) → any p xs ≡ true → any p (xs ++ ys) ≡ true
  any-append p [] ys h = absurd (false_ne_true h)
  any-append p (x ∷ xs) ys h = elim (Bool-cases (p x)) [
    | inl e ↦ rw e refl
    | inr e ↦ rw e (any-append p xs ys (rw e at h))
  ]

  pub any-update :
      (p q : A → Bool) (f : A → A)
      → ((a : A) → p (f a) ≡ p a)
      → (xs : List A) → any p (update q f xs) ≡ any p xs
  any-update p q f same [] = refl
  any-update p q f same (x ∷ xs) = elim (Bool-cases (q x)) [
    | inl e ↦ rw e (rw (same x) (ap (λ b. p x || b) (any-update p q f same xs)))
    | inr e ↦ rw e (ap (λ b. p x || b) (any-update p q f same xs))
  ]

  -- A row that is found is among the rows.
  pub any-first : (p : A → Bool) (xs : List A) {a : A} → first p xs ≡ some a → any p xs ≡ true
  any-first p [] {a = a} found = absurd (none-ne-some a found)
  any-first p (x ∷ xs) found = elim (Bool-cases (p x)) [
    | inl e ↦ rw e refl
    | inr e ↦ rw e (any-first p xs (rw e at found))
  ]

  pub any-weaken :
      (p q : A → Bool)
      → ((a : A) → p a ≡ true → q a ≡ true)
      → (xs : List A) → any p xs ≡ true
      → any q xs ≡ true
  any-weaken p q f [] h = h
  any-weaken p q f (x ∷ xs) h = elim (Bool-cases (p x)) [
    | inl e ↦ rw (f x e) refl
    | inr e ↦ elim (Bool-cases (q x)) [
      | inl g ↦ rw g refl
      | inr g ↦ rw g (any-weaken p q f xs (rw e at h))
    ]
  ]

  pub All-first-none : (p : A → Bool) (xs : List A) → first p xs ≡ none → All (λ x. p x ≡ false) xs
  All-first-none p [] h = tt
  All-first-none p (x ∷ xs) h = elim (Bool-cases (p x)) [
    | inl e ↦ absurd (none-ne-some x (sym (rw e at h)))
    | inr e ↦ (e, All-first-none p xs (rw e at h))
  ]

module _ {ℓ} {A : Type ℓ} ⦃t : HasTest A⦄ where
  pub includes-snoc :
      (xs : List A) (y a : A) → includes (xs ++ y ∷ []) a ≡ (includes xs a || y == a)
  includes-snoc [] y a = or_false (y == a)
  includes-snoc (x ∷ xs) y a =
      ap (λ b. x == a || b) (includes-snoc xs y a) ∙ or_assoc (x == a) (includes xs a) (y == a)
