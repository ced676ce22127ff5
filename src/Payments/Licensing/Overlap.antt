-- ===== src/Payments/Licensing/Overlap.antt =====
-- Two transactions of `atomicallyDecrementRead` of src/services/licensing.ts that overlap: both read the
-- row before either writes it, as READ COMMITTED lets them.
use wordclaw.Shared.{
  ℕ, zero, suc, ◌≡◌, refl, ◌∙◌, ap, true, false, Option, none, some, List, arith, ltb, find_row,
  find_row-key, ℤ, pos,
}
use wordclaw.Payments.Licensing.{Entitlement, key}
use wordclaw.Payments.Licensing.Reads.{
  ReadResult, terminated, with_reads, is_expired, reads_above, settle, finish_read,
}
use wordclaw.Payments.Licensing.Quota.{
  is_granted, spent, decremented, settle_granted, settle_refused, finish_read_lem,
  finish_read_granted,
}

abbrev pub reads_of : Option Entitlement → Option ℤ
reads_of none = none
reads_of (some e) = e.remaining_reads

-- The results of both and the rows, when the snapshot of each is `e`.
pub overlapped : ℕ → ℕ → Entitlement → List Entitlement → ReadResult × ReadResult × List Entitlement
overlapped now₁ now₂ e t =
    let (first, t₁) = finish_read now₁ e t in
    let (second, t₂) = finish_read now₂ e t₁ in (first, second, t₂)

-- The second transaction writes after the first, on the same snapshot.
second_read :
    (now₁ now₂ i m : ℕ) (e : Entitlement) (t : List Entitlement)
    → find_row key i t ≡ some (spent now₁ m e)
    → e.status ≡ "active"
    → (is_granted (settle now₂ (decremented i m t)).0 ≡ ltb 0 m)
      × (reads_of (find_row key i (settle now₂ (decremented i m t)).1) ≡ some (pos m))
unfolding with_reads terminated
second_read now₁ now₂ i zero e t found a =
    let (refusal, row) = settle_refused i 0 (spent now₁ 0 e) t found now₂ refl in
    (refusal, ap reads_of row)
second_read now₁ now₂ i (suc m) e t found a =
    let more : reads_above (pos 0) (spent now₁ (suc m) e) ≡ true = ground arith in
    let (hit, row) = settle_granted now₂ i (spent now₁ (suc m) e) t found more a (suc m) in
    (hit ∙ ground arith, ap reads_of row)

-- Two overlapping reads of a live entitlement with `m + 1` reads left: the first is granted, the second
-- unless that was the last, and `m` reads are left, so two granted reads cost one.
pub overlapped_reads :
    (now₁ now₂ i m : ℕ) (e : Entitlement) (t : List Entitlement)
    → find_row key i t ≡ some e
    → e.status ≡ "active"
    → is_expired now₁ e.expires_at ≡ false
    → is_expired now₂ e.expires_at ≡ false
    → e.remaining_reads ≡ some (pos (suc m))
    → (is_granted (overlapped now₁ now₂ e t).0 ≡ true)
      × (is_granted (overlapped now₁ now₂ e t).1 ≡ ltb 0 m)
      × (reads_of (find_row key i (overlapped now₁ now₂ e t).2) ≡ some (pos m))
unfolding overlapped
overlapped_reads now₁ now₂ i m e t found a fresh₁ fresh₂ reads =
    let (first, row) = finish_read_granted now₁ i m e t found a fresh₁ reads in
    let (second, left) = second_read now₁ now₂ i m e (finish_read now₁ e t).1 row a in
    let rest =
      finish_read_lem now₂ i m e (finish_read now₁ e t).1 (find_row-key key i t found) a fresh₂
        reads in
    (first, rw rest second, rw rest left)
