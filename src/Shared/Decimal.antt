-- ===== src/Shared/Decimal.antt =====
-- Decimal numerals, as a template literal prints a number and `Number` reads a run of digits.
use Prim.Native.Nat.{ℕ, zero, suc, ◌+◌, ◌-◌, ◌*◌, ◌/◌, ◌%◌, ◌<◌}
use Prim.Native.Char.{Char, code}
use Prim.Native.String.{String, [], ◌∷◌}
use mathlib.Core.Path.{◌≡◌, refl, ◌∙◌, ap}
use mathlib.Core.Option.{Option, none, some}
use mathlib.Core.Logic.{inl, inr}
use mathlib.Core.Bool.{Bool, true, ◌&&◌}
use native.Mathlib.Omega.{arith}
use wordclaw.Shared.Tests.{or_else, nat_beq, leb, ltb, if◌then◌else◌, Bool-cases}
use wordclaw.Shared.Text.{is_space, non_empty, NoBlanks}

digit : ℕ → Char
digit zero = "0"
digit (suc zero) = "1"
digit (suc (suc zero)) = "2"
digit (suc (suc (suc zero))) = "3"
digit (suc (suc (suc (suc zero)))) = "4"
digit (suc (suc (suc (suc (suc zero))))) = "5"
digit (suc (suc (suc (suc (suc (suc zero)))))) = "6"
digit (suc (suc (suc (suc (suc (suc (suc zero))))))) = "7"
digit (suc (suc (suc (suc (suc (suc (suc (suc zero)))))))) = "8"
digit _ = "9"

code-digit : (k : ℕ) → k < 10 → code (digit k) ≡ 48 + k
unfolding digit
code-digit zero h = refl
code-digit (suc zero) h = refl
code-digit (suc (suc zero)) h = refl
code-digit (suc (suc (suc zero))) h = refl
code-digit (suc (suc (suc (suc zero)))) h = refl
code-digit (suc (suc (suc (suc (suc zero))))) h = refl
code-digit (suc (suc (suc (suc (suc (suc zero)))))) h = refl
code-digit (suc (suc (suc (suc (suc (suc (suc zero))))))) h = refl
code-digit (suc (suc (suc (suc (suc (suc (suc (suc zero)))))))) h = refl
code-digit (suc (suc (suc (suc (suc (suc (suc (suc (suc k))))))))) h = ground arith

-- The digits of `n` in front of `s`; the fuel is above `n`.
decimal_from : ℕ → ℕ → String → String
decimal_from zero n s = s
decimal_from (suc f) n s =
    let rest = decimal_from f (n / 10) (digit (n % 10) ∷ s) in
    if ltb n 10 then digit n ∷ s else rest

unfoldable pub decimal : ℕ → String
unfolding decimal_from digit
decimal n = decimal_from (suc n) n []

unfoldable pub is_digit : ℕ → Bool
is_digit c = leb 48 c && leb c 57

all_digits : String → Bool
unfolding is_digit
all_digits [] = true
all_digits (c ∷ s) = is_digit (code c) && all_digits s

-- `/^\d+$/.test(s)`.
unfoldable pub is_digits : String → Bool
unfolding all_digits non_empty
is_digits s = non_empty s && all_digits s

value_from : ℕ → String → ℕ
value_from n [] = n
value_from n (c ∷ s) = value_from (n * 10 + (code c - 48)) s

-- `Number(s)` of a run of digits.
unfoldable pub read_decimal : String → ℕ
unfolding value_from
read_decimal = value_from 0

-- `Number.parseInt(s, 10)` of a text without a sign: its leading digits.
leading_digits : Option ℕ → String → Option ℕ
leading_digits so_far [] = so_far
leading_digits so_far (c ∷ s) =
    let rest = leading_digits (some (or_else so_far 0 * 10 + (code c - 48))) s in
    if is_digit (code c) then rest else so_far

abbrev positive : Option ℕ → Option ℕ
positive none = none
positive (some n) = if ltb 0 n then some n else none

-- The positive number that `Number.parseInt(s, 10)` gives, if any, of a text without blanks in front. It
-- takes one sign, and a negative number is not positive.
unfoldable pub parse_positive : String → Option ℕ
unfolding leading_digits is_digit
parse_positive [] = none
parse_positive (c ∷ s) =
    if nat_beq (code c) b'+'
    then positive (leading_digits none s)
    else positive (leading_digits none (c ∷ s))

value_from-decimal_from :
    (f n : ℕ) (s : String) → n < f → value_from 0 (decimal_from f n s) ≡ value_from n s
unfolding decimal_from value_from
value_from-decimal_from zero n s h = absurd (omega arith)
value_from-decimal_from (suc f) n s h = elim (Bool-cases (ltb n 10)) [
  | inl small ↦ rw small (ap (λ k. value_from k s) (ground (arith, code-digit n)))
  | inr large ↦ rw large (
      value_from-decimal_from f (n / 10) (digit (n % 10) ∷ s) (ground arith)
      ∙ ap (λ k. value_from k s) (omega (arith, code-digit (n % 10) (omega arith))))
]

-- What is printed reads back.
pub read_decimal-decimal : (n : ℕ) → read_decimal (decimal n) ≡ n
unfolding read_decimal decimal
read_decimal-decimal n = value_from-decimal_from (suc n) n [] (omega arith)

all_digits-decimal_from :
    (f n : ℕ) (s : String) → all_digits s ≡ true → all_digits (decimal_from f n s) ≡ true
unfolding decimal_from all_digits
all_digits-decimal_from zero n s h = h
all_digits-decimal_from (suc f) n s h = elim (Bool-cases (ltb n 10)) [
  | inl small ↦ rw small (ground (arith, code-digit n))
  | inr large ↦ rw large (
      all_digits-decimal_from f (n / 10) (digit (n % 10) ∷ s) (ground (arith, code-digit (n % 10))))
]

non_empty-decimal_from :
    (f n : ℕ) (s : String) → non_empty s ≡ true → non_empty (decimal_from f n s) ≡ true
unfolding decimal_from non_empty
non_empty-decimal_from zero n s h = h
non_empty-decimal_from (suc f) n s h = elim (Bool-cases (ltb n 10)) [
  | inl small ↦ rw small
  | inr large ↦ rw large (non_empty-decimal_from f (n / 10) (digit (n % 10) ∷ s) refl)
]

non_empty-decimal : (n : ℕ) → non_empty (decimal n) ≡ true
unfolding decimal non_empty
non_empty-decimal n = elim (Bool-cases (ltb n 10)) [
  | inl small ↦ rw (small, decimal_from, non_empty)
  | inr large ↦
      rw (large, decimal_from)
        (unfold non_empty in non_empty-decimal_from n (n / 10) (digit (n % 10) ∷ []) refl)
]

pub is_digits-decimal : (n : ℕ) → is_digits (decimal n) ≡ true
unfolding is_digits
is_digits-decimal n =
    rw (non_empty-decimal n) (unfold decimal in all_digits-decimal_from (suc n) n [] refl)

NoBlanks-of_all_digits : (s : String) → all_digits s ≡ true → NoBlanks s
unfolding all_digits
NoBlanks-of_all_digits [] h = tt
NoBlanks-of_all_digits (c ∷ s) h =
    (unfold is_space in ground arith, NoBlanks-of_all_digits s (ground arith))

pub decimal-NoBlanks : (n : ℕ) → NoBlanks (decimal n)
unfolding is_digits
decimal-NoBlanks n = NoBlanks-of_all_digits (decimal n) (ground (arith, is_digits-decimal n))
