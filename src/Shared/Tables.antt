-- ===== src/Shared/Tables.antt =====
-- Database tables with a primary key, as lists of rows in the order of insertion. A statement that
-- names a key acts on the one row that has it.
use Prim.Native.Nat.{ℕ}
use mathlib.Core.Path.{◌≡◌, refl, sym}
use mathlib.Core.Logic.{◌≢◌, inl, inr}
use mathlib.Core.Bool.{Bool, true, false}
use mathlib.Core.Option.{Option, none, some, none-ne-some}
use mathlib.Core.List.{List, [], ◌∷◌, ◌++◌}
use native.Mathlib.Omega.{arith}
use wordclaw.Shared.Tests.{nat_beq, if◌then◌else◌, Bool-cases}

module _ {ℓ} {A : Type ℓ} (key : A → ℕ) where
  -- `SELECT … WHERE key = i`.
  unfoldable pub find_row : ℕ → List A → Option A
  find_row i [] = none
  find_row i (a ∷ t) = let rest = find_row i t in if nat_beq (key a) i then some a else rest

  pub find_row-key : (i : ℕ) (t : List A) {a : A} → find_row i t ≡ some a → key a ≡ i
  unfolding find_row
  find_row-key i [] h = cc
  find_row-key i (b ∷ t) {a = a} h = elim (Bool-cases (nat_beq (key b) i)) [
    | inl e ↦ ground arith
    | inr e ↦ find_row-key i t (rw e at h)
  ]

  pub find_row-append :
      (i : ℕ) (t u : List A) {a : A} → find_row i t ≡ some a → find_row i (t ++ u) ≡ some a
  unfolding find_row
  find_row-append i [] u h = cc
  find_row-append i (b ∷ t) u {a = a} h = elim (Bool-cases (nat_beq (key b) i)) [
    | inl e ↦ rw e (rw e at h)
    | inr e ↦ rw e (find_row-append i t u (rw e at h))
  ]

  -- A key that no row has is looked for among the rows that follow.
  pub find_row-append_absent :
      (i : ℕ) (t u : List A) → find_row i t ≡ none → find_row i (t ++ u) ≡ find_row i u
  unfolding find_row
  find_row-append_absent i [] u h = refl
  find_row-append_absent i (b ∷ t) u h = elim (Bool-cases (nat_beq (key b) i)) [
    | inl e ↦ absurd (none-ne-some b (sym (rw e at h)))
    | inr e ↦ rw e (find_row-append_absent i t u (rw e at h))
  ]

  -- The row's write, if the rest of the condition holds of it: what `RETURNING` gives, and the rows.
  write_head : (A → Bool) → (A → A) → A → List A → Option A × List A
  write_head c f a t = if c a then (some (f a), f a ∷ t) else (none, a ∷ t)

  keep_head : A → Option A × List A → Option A × List A
  keep_head a (r, t) = (r, a ∷ t)

  -- `UPDATE … SET f WHERE key = i AND c RETURNING *`.
  pub update_row : ℕ → (A → Bool) → (A → A) → List A → Option A × List A
  unfolding write_head keep_head
  update_row i c f [] = (none, [])
  update_row i c f (a ∷ t) =
      let rest = keep_head a (update_row i c f t) in
      if nat_beq (key a) i then write_head c f a t else rest

  abbrev pub written : (A → Bool) → (A → A) → Option A → Option A
  written c f none = none
  written c f (some a) = if c a then some (f a) else none

  abbrev pub after_write : (A → Bool) → (A → A) → Option A → Option A
  after_write c f none = none
  after_write c f (some a) = if c a then some (f a) else some a

  -- What an update returns.
  pub update_row-returning :
      (i : ℕ) (c : A → Bool) (f : A → A) (t : List A)
      → (update_row i c f t).0 ≡ written c f (find_row i t)
  unfolding update_row find_row
  update_row-returning i c f [] = refl
  update_row-returning i c f (a ∷ t) = elim (Bool-cases (nat_beq (key a) i)) [
    | inl e ↦ rw e (ground arith)
    | inr e ↦ rw e (update_row-returning i c f t)
  ]

  module _ (f : A → A) (same : (a : A) → key (f a) ≡ key a) where
    -- The row after an update that keeps the key.
    pub find_row-update_row :
        (i : ℕ) (c : A → Bool) (t : List A)
        → find_row i (update_row i c f t).1 ≡ after_write c f (find_row i t)
    unfolding update_row find_row
    find_row-update_row i c [] = refl
    find_row-update_row i c (a ∷ t) = elim (Bool-cases (nat_beq (key a) i)) [
      | inl e ↦ elim (Bool-cases (c a)) [
        | inl w ↦ rw (e, w) (rw (same a, e) refl)
        | inr w ↦ rw (e, w) (rw e refl)
      ]
      | inr e ↦ rw e (rw e (find_row-update_row i c t))
    ]

    -- The rows with other keys stay.
    pub find_row-update_row_ne :
        (i j : ℕ) (c : A → Bool) (t : List A)
        → i ≢ j
        → find_row j (update_row i c f t).1 ≡ find_row j t
    unfolding update_row find_row
    find_row-update_row_ne i j c [] h = refl
    find_row-update_row_ne i j c (a ∷ t) h = elim (Bool-cases (nat_beq (key a) i)) [
      | inl e ↦ elim (Bool-cases (c a)) [
        | inl w ↦ rw (e, w) (passes a (f a) (same a) e)
        | inr w ↦ rw (e, w) refl
      ]
      | inr e ↦ rw e (rw (find_row-update_row_ne i j c t h) refl)
    ]
      where
        passes :
            (b d : A)
            → key d ≡ key b
            → nat_beq (key b) i ≡ true
            → find_row j (d ∷ t) ≡ find_row j (b ∷ t)
        passes b d k e = let far : nat_beq (key b) j ≡ false = ground arith in rw k (rw far refl)
