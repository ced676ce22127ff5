-- ===== src/Shared/Tests.antt =====
-- Boolean tests on the native numbers and texts, and the case splits that keep an equation.
use Prim.Native.Nat.{ℕ, ◌≤◌, ◌<◌, compare, Ordering}
use Prim.Native.String.{String}
use mathlib.Core.Path.{◌≡◌, refl, sym, ◌∙◌}
use mathlib.Core.Logic.{◌≢◌, ◌↔◌, ◌⊎◌, inl, inr}
use mathlib.Core.Bool.{Bool, true, false, not, ◌&&◌, ◌||◌}
use mathlib.Core.Option.{Option, none, some}
use native.Mathlib.Omega.{arith}
use text.Mathlib.Text.{◌==◌ as str_eq}
use text.Mathlib.TextEquality.{eq_iff}

abbrev pub ltb : ℕ → ℕ → Bool
ltb a b = elim (compare a b) [ Ordering.lt ↦ true | _ ↦ false ]

abbrev pub leb : ℕ → ℕ → Bool
leb a b = elim (compare a b) [ Ordering.gt ↦ false | _ ↦ true ]

abbrev pub nat_beq : ℕ → ℕ → Bool
nat_beq a b = elim (compare a b) [ Ordering.eq ↦ true | _ ↦ false ]

infix 1 if◌then◌else◌
abbrev pub if◌then◌else◌ {ℓ} : {A : Type ℓ} → Bool → A → A → A
if true then x else y = x
if false then x else y = y

pub ltb→lt : (a b : ℕ) → ltb a b ≡ true → a < b
ltb→lt a b h = ground arith

pub lt→ltb : (a b : ℕ) → a < b → ltb a b ≡ true
lt→ltb a b h = ground arith

pub leb→le : (a b : ℕ) → leb a b ≡ true → a ≤ b
leb→le a b h = ground arith

pub nat_beq_iff : (a b : ℕ) → (nat_beq a b ≡ true) ↔ (a ≡ b)
nat_beq_iff a b = ground arith

-- A type with a Boolean test of equality: the operators take the test of their operands' type.
pub record HasTest {ℓ} (A : Type ℓ) : Type ℓ where
  pub test : A → A → Bool
  pub meaning : (x y : A) → (test x y ≡ true) ↔ (x ≡ y)

instance abbrev pub string_eq : HasTest String
string_eq = record { test = str_eq; meaning = eq_iff }

instance abbrev pub nat_eq : HasTest ℕ
nat_eq = record { test = nat_beq; meaning = nat_beq_iff }

module _ {ℓ} {A : Type ℓ} ⦃t : HasTest A⦄ where
  infix 50 ◌==◌ ◌/=◌
  abbrev pub ◌==◌ : A → A → Bool
  x == y = t.test x y

  abbrev pub ◌/=◌ : A → A → Bool
  x /= y = not (x == y)

pub Bool-cases : (b : Bool) → (b ≡ true) ⊎ (b ≡ false)
Bool-cases true = inl refl
Bool-cases false = inr refl

pub false_ne_true : false ≢ true
false_ne_true e = cc

pub and_left : (a b : Bool) → (a && b) ≡ true → a ≡ true
and_left true b h = refl
and_left false b h = h

pub and_right : (a b : Bool) → (a && b) ≡ true → b ≡ true
and_right true b h = h
and_right false b h = absurd (false_ne_true h)

pub or_assoc : (a b c : Bool) → (a || (b || c)) ≡ ((a || b) || c)
or_assoc a b c = ground arith

pub or_false : (a : Bool) → (a || false) ≡ a
or_false a = ground arith

pub or_true : (b : Bool) → (b || true) ≡ true
or_true b = ground arith

pub and_false : (b : Bool) → (b && false) ≡ false
and_false true = refl
and_false false = refl

pub false_of_not : (b : Bool) → not b ≡ true → b ≡ false
false_of_not true h = absurd (false_ne_true h)
false_of_not false h = refl

pub Option-cases {ℓ} : {A : Type ℓ} (o : Option A) → (o ≡ none) ⊎ ((a : A) × (o ≡ some a))
Option-cases none = inl refl
Option-cases (some a) = inr (a, refl)

module _ {ℓ} {A : Type ℓ} where
  -- `a ?? b`.
  abbrev pub or_else : Option A → A → A
  or_else none b = b
  or_else (some a) b = a

  -- `a ?? b` where `b` may be null too.
  abbrev pub or_opt : Option A → Option A → Option A
  or_opt none b = b
  or_opt (some a) b = some a

  abbrev pub is_some : Option A → Bool
  is_some none = false
  is_some (some _) = true

-- A conditional has a property that both of its branches have.
module _ {ℓ κ} {A : Type ℓ} (Holds : A → Type κ) where
  pub by_branch : (b : Bool) {x y : A} → Holds x → Holds y → Holds (if b then x else y)
  by_branch b {x = x} {y = y} first_holds second_holds =
      elim b as (λ c. Holds (if c then x else y)) [ true ↦ first_holds | false ↦ second_holds ]

module _ {ℓ} {A : Type ℓ} ⦃t : HasTest A⦄ where
  pub test_refl : (a : A) → (a == a) ≡ true
  test_refl a = (t.meaning a a).1 refl

  pub test_comm : (a b : A) → (a == b) ≡ (b == a)
  test_comm a b = elim (Bool-cases (a == b)) [
    | inl e ↦ e ∙ sym ((t.meaning b a).1 (sym ((t.meaning a b).0 e)))
    | inr e ↦ elim (Bool-cases (b == a)) [
      | inl f ↦ absurd (false_ne_true (sym e ∙ (t.meaning a b).1 (sym ((t.meaning b a).0 f))))
      | inr f ↦ e ∙ sym f
    ]
  ]

  -- A test that holds of one value and fails on another tells them apart.
  pub test_apart : (a b c : A) → (a == c) ≡ true → (b == c) ≡ false → (a == b) ≡ false
  test_apart a b c e f = elim (Bool-cases (a == b)) [
    | inl g ↦ absurd (
        false_ne_true (sym f ∙ (t.meaning b c).1 (sym ((t.meaning a b).0 g) ∙ (t.meaning a c).0 e)))
    | inr g ↦ g
  ]
