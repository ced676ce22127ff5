-- ===== src/Payments/Licensing/Quota.antt =====
-- The read quota of src/services/licensing.ts: one read on a live entitlement, and many in turn.
use wordclaw.Shared.{
  ℕ, zero, suc, min, String, ◌≡◌, refl, ◌∙◌, sym, ap, Bool, true, false, Option, none, some, List,
  [], ◌∷◌, arith, if◌then◌else◌, ◌==◌, nat_eq, string_eq, eq_iff, subst, find_row, update_row,
  update_row-returning, find_row-update_row, find_row-key, All, length, pos, ◌-ℤ◌, leb_ℤ, int_laws,
}
use wordclaw.Payments.Licensing.{Entitlement, key, has_status, find_entitlement}
use wordclaw.Payments.Licensing.Reads.{
  ReadResult, granted, refused, terminated, with_reads, is_expired, above, reads_above, zero_reads,
  terminate_active, settle, spend_read, finish_read, atomically_decrement_read,
}

abbrev pub is_granted : ReadResult → Bool
is_granted (granted e) = true
is_granted (refused reason) = false

-- The row after a granted read that leaves `m` reads.
abbrev pub spent : ℕ → ℕ → Entitlement → Entitlement
spent now zero r = terminated "exhausted" now (with_reads (pos 0) r)
spent now (suc m) r = with_reads (pos (suc m)) r

abbrev pub decremented : ℕ → ℕ → List Entitlement → Option Entitlement × List Entitlement
decremented i m t = update_row key i (reads_above (pos 0)) (with_reads (pos m)) t

module _ (i m : ℕ) (r : Entitlement) (t : List Entitlement)
    (found : find_row key i t ≡ some r) where
  -- What the decrement returns and leaves, by whether it finds reads left.
  decremented_granted :
      reads_above (pos 0) r ≡ true
      → ((decremented i m t).0 ≡ some (with_reads (pos m) r))
        × (find_row key i (decremented i m t).1 ≡ some (with_reads (pos m) r))
  decremented_granted h = (
    update_row-returning key i (reads_above (pos 0)) (with_reads (pos m)) t ∙ rw (found, h) refl,
    find_row-update_row key (with_reads (pos m)) (λ a. unfold with_reads in refl) i
          (reads_above (pos 0)) t
        ∙ rw (found, h) refl,
  )

  -- One that finds none left is refused, and the row stays.
  pub settle_refused :
      (now : ℕ)
      → reads_above (pos 0) r ≡ false
      → (is_granted (settle now (decremented i m t)).0 ≡ false)
        × (find_row key i (settle now (decremented i m t)).1 ≡ some r)
  unfolding settle with_reads
  settle_refused now h =
      let missed : (decremented i m t).0 ≡ none =
        update_row-returning key i (reads_above (pos 0)) (with_reads (pos m)) t
        ∙ rw (found, h) refl in
      let stays : find_row key i (decremented i m t).1 ≡ some r =
        find_row-update_row key (with_reads (pos m)) (λ a. refl) i (reads_above (pos 0)) t
        ∙ rw (found, h) refl in
      rw (missed, settle) (refl, stays)

terminate_active-row :
    (now i : ℕ) (r : Entitlement) (t : List Entitlement)
    → find_row key i t ≡ some r
    → r.status ≡ "active"
    → find_row key i (terminate_active "exhausted" now r.id t) ≡ some (terminated "exhausted" now r)
unfolding terminate_active terminated
terminate_active-row now i r t found a =
    let live : has_status "active" r ≡ true = (eq_iff r.status "active").1 a in
    subst
      (λ k.
        find_row key i (terminate_active "exhausted" now k t) ≡ some (terminated "exhausted" now r))
      (sym (find_row-key key i t found))
      (find_row-update_row key (terminated "exhausted" now) (λ b. refl) i (has_status "active") t
        ∙ rw (found, live) refl)

zero_reads-suc : (m : ℕ) → zero_reads (some (pos (suc m))) ≡ false
zero_reads-suc m = ground arith

-- A guarded decrement that finds reads left is granted; the last one exhausts an active row.
module _ (now i : ℕ) (r : Entitlement) (t : List Entitlement) (found : find_row key i t ≡ some r)
    (left : reads_above (pos 0) r ≡ true) (live : r.status ≡ "active") where
  pub settle_granted :
      (m : ℕ)
      → (is_granted (settle now (decremented i m t)).0 ≡ true)
        × (find_row key i (settle now (decremented i m t)).1 ≡ some (spent now m r))
  unfolding settle with_reads terminated
  settle_granted zero =
      let (hit, row) = decremented_granted i 0 r t found left in
      rw (hit, settle)
        (refl, terminate_active-row now i (with_reads (pos 0) r) (decremented i 0 t).1 row live)
  settle_granted (suc m) =
      let (hit, row) = decremented_granted i (suc m) r t found left in
      rw (hit, settle) (rw (zero_reads-suc m) (refl, row))

spend_read_lem :
    (now m : ℕ) (e : Entitlement) (t : List Entitlement)
    → spend_read now e (some (pos (suc m))) t ≡ settle now (decremented e.id m t)
unfolding spend_read
spend_read_lem now m e t =
    let more : leb_ℤ (pos (suc m)) (pos 0) ≡ false = ground arith in
    let less : pos (suc m) -ℤ pos 1 ≡ pos m = omega int_laws in rw more (rw less refl)

pub some_left :
    (e : Entitlement) (m : ℕ)
    → e.remaining_reads ≡ some (pos (suc m))
    → reads_above (pos 0) e ≡ true
some_left e m reads = ap (above (pos 0)) reads ∙ ground arith

-- The transaction's rest, on a snapshot `e` of a live entitlement that shows reads left.
pub finish_read_lem :
    (now i m : ℕ) (e : Entitlement) (t : List Entitlement)
    → e.id ≡ i
    → e.status ≡ "active"
    → is_expired now e.expires_at ≡ false
    → e.remaining_reads ≡ some (pos (suc m))
    → finish_read now e t ≡ settle now (decremented i m t)
finish_read_lem now i m e t same a fresh reads =
    let live : (e.status == "active") ≡ true = (eq_iff e.status "active").1 a in
    let start : finish_read now e t ≡ spend_read now e e.remaining_reads t =
      unfold finish_read in rw (live, fresh) refl in
    start
    ∙ ap (λ o. spend_read now e o t) reads
    ∙ spend_read_lem now m e t
    ∙ ap (λ k. settle now (decremented k m t)) same

pub finish_read_granted :
    (now i m : ℕ) (e : Entitlement) (t : List Entitlement)
    → find_row key i t ≡ some e
    → e.status ≡ "active"
    → is_expired now e.expires_at ≡ false
    → e.remaining_reads ≡ some (pos (suc m))
    → (is_granted (finish_read now e t).0 ≡ true)
      × (find_row key i (finish_read now e t).1 ≡ some (spent now m e))
finish_read_granted now i m e t found a fresh reads =
    rw (finish_read_lem now i m e t (find_row-key key i t found) a fresh reads)
      (settle_granted now i e t found (some_left e m reads) a m)

-- The reads of the same entitlement in turn, one at each time: how many are granted, and the rows.
pub read_in_turn : ℕ → ℕ → List ℕ → List Entitlement → ℕ × List Entitlement
read_in_turn domain_id id [] t = (0, t)
read_in_turn domain_id id (now ∷ times) t =
    let (result, t') = atomically_decrement_read now domain_id id t in
    let (count, t'') = read_in_turn domain_id id times t' in
    (if is_granted result then suc count else count, t'')

-- The entitlement `e` of the domain is in the table, active, with `m` reads left.
abbrev pub IsLive : ℕ → ℕ → ℕ → List Entitlement → Entitlement → Type 0
IsLive domain_id id m t e =
    (find_row key id t ≡ some e)
    × (e.domain_id ≡ domain_id)
    × (e.status ≡ "active")
    × (e.remaining_reads ≡ some (pos m))

pub found_in_domain :
    (d i : ℕ) (e : Entitlement) (t : List Entitlement)
    → find_row key i t ≡ some e
    → e.domain_id ≡ d
    → find_entitlement d i t ≡ some e
unfolding find_entitlement
found_in_domain d i e t found own =
    let same : (e.domain_id == d) ≡ true = ground arith in
    rw (found, find_entitlement) (rw same refl)

decrement_found :
    (now d i : ℕ) (e : Entitlement) (t : List Entitlement)
    → find_row key i t ≡ some e
    → e.domain_id ≡ d
    → atomically_decrement_read now d i t ≡ finish_read now e t
decrement_found now d i e t found own =
    unfold atomically_decrement_read in
    rw (found_in_domain d i e t found own, atomically_decrement_read) refl

finish_read_exhausted :
    (now : ℕ) (e : Entitlement) (t : List Entitlement)
    → e.status ≡ "exhausted"
    → finish_read now e t ≡ (refused "remaining_reads_exhausted", t)
unfolding finish_read
finish_read_exhausted now e t a =
    let inactive : (e.status == "active") ≡ false = ap (λ (s : String). s == "active") a in
    let unexpired : (e.status == "expired") ≡ false = ap (λ (s : String). s == "expired") a in
    let exhausted : (e.status == "exhausted") ≡ true = ap (λ (s : String). s == "exhausted") a in
    rw (inactive, unexpired, exhausted) refl

read_in_turn_exhausted :
    (d i : ℕ) (times : List ℕ) (e : Entitlement) (t : List Entitlement)
    → find_row key i t ≡ some e
    → e.domain_id ≡ d
    → e.status ≡ "exhausted"
    → (read_in_turn d i times t).0 ≡ 0
unfolding read_in_turn
read_in_turn_exhausted d i [] e t found own a = refl
read_in_turn_exhausted d i (now ∷ times) e t found own a =
    rw (decrement_found now d i e t found own ∙ finish_read_exhausted now e t a)
      (read_in_turn_exhausted d i times e t found own a)

-- An active entitlement without reads left refuses, and becomes exhausted.
finish_read_empty :
    (now i : ℕ) (e : Entitlement) (t : List Entitlement)
    → find_row key i t ≡ some e
    → e.status ≡ "active"
    → is_expired now e.expires_at ≡ false
    → e.remaining_reads ≡ some (pos 0)
    → (is_granted (finish_read now e t).0 ≡ false)
      × (find_row key i (finish_read now e t).1 ≡ some (terminated "exhausted" now e))
finish_read_empty now i e t found a fresh reads =
    let live : (e.status == "active") ≡ true = (eq_iff e.status "active").1 a in
    let start : finish_read now e t ≡ spend_read now e e.remaining_reads t =
      unfold finish_read in rw (live, fresh) refl in
    rw (start ∙ ap (λ o. spend_read now e o t) reads)
      (unfold spend_read in (refl, terminate_active-row now i e t found a))

-- Reads in turn on a live entitlement with `m` reads left, none of them after its expiry: as many are
-- granted as are asked for, up to `m`.
pub read_in_turn-quota :
    (d i m : ℕ) (times : List ℕ) (e : Entitlement) (t : List Entitlement)
    → IsLive d i m t e
    → All (λ now. is_expired now e.expires_at ≡ false) times
    → (read_in_turn d i times t).0 ≡ min (length times) m
unfolding read_in_turn with_reads terminated
read_in_turn-quota d i m [] e t live fresh = omega arith
read_in_turn-quota d i zero (now ∷ times) e t (found, own, a, reads) (h, fresh) =
    let (none_left, row) = finish_read_empty now i e t found a h reads in
    let rest =
      read_in_turn_exhausted d i times (terminated "exhausted" now e) (finish_read now e t).1 row
        own refl in
    rw (decrement_found now d i e t found own) (rw none_left (omega (arith, rest)))
read_in_turn-quota d i (suc zero) (now ∷ times) e t (found, own, a, reads) (h, fresh) =
    let (hit, row) = finish_read_granted now i 0 e t found a h reads in
    let rest =
      read_in_turn_exhausted d i times (spent now 0 e) (finish_read now e t).1 row own refl in
    rw (decrement_found now d i e t found own) (rw hit (omega (arith, rest)))
read_in_turn-quota d i (suc (suc m)) (now ∷ times) e t (found, own, a, reads) (h, fresh) =
    let (hit, row) = finish_read_granted now i (suc m) e t found a h reads in
    let rest =
      read_in_turn-quota d i (suc m) times (spent now (suc m) e) (finish_read now e t).1
        (row, own, a, refl) fresh in
    rw (decrement_found now d i e t found own) (rw hit (omega (arith, rest)))
