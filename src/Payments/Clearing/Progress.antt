-- ===== src/Payments/Clearing/Progress.antt =====
-- What becomes of an allocation under the sweeps of src/workers/allocation-state.worker.ts.
use wordclaw.Shared.{
  ℕ, ◌≤◌, String, ◌≡◌, refl, ap, ◌∙◌, subst, Bool, true, false, Option, none, some, List, [], ◌∷◌,
  ◌++◌, inl, inr, Bool-cases, if◌then◌else◌, ◌==◌, nat_eq, string_eq, nat_beq_iff, ltb, includes,
  any, by_branch, arith, false_ne_true,
}
use mathlib.Core.Option.{none-ne-some}
use wordclaw.Payments.Revenue.{StatusEvent}
use wordclaw.Payments.Clearing.{
  newer, latest, allocation_ids, must_clear, cleared, cleared_after, with_event, clear_all,
  process_auto_clear,
}

newer_assoc : (a b c : Option StatusEvent) → newer a (newer b c) ≡ newer (newer a b) c
newer_assoc none b c = refl
newer_assoc (some e) none c = refl
newer_assoc (some e) (some f) none = elim (Bool-cases (ltb f.created_at e.created_at)) [
  | inl h ↦ rw h refl
  | inr h ↦ rw h refl
]
newer_assoc (some e) (some f) (some g) = ground arith

latest-append :
    (id : ℕ) (es fs : List StatusEvent) → latest id (es ++ fs) ≡ newer (latest id es) (latest id fs)
unfolding latest
latest-append id [] fs = refl
latest-append id (e ∷ es) fs = elim (Bool-cases (e.allocation_id == id)) [
  | inl h ↦ rw h (
      ap (newer (some e)) (latest-append id es fs)
      ∙ newer_assoc (some e) (latest id es) (latest id fs))
  | inr h ↦ rw h (latest-append id es fs)
]

latest-known :
    (id : ℕ) (es : List StatusEvent) (e : StatusEvent)
    → latest id es ≡ some e
    → includes (allocation_ids es) id ≡ true
unfolding latest allocation_ids
latest-known id [] e h = absurd (none-ne-some e h)
latest-known id (f ∷ es) e h = elim (Bool-cases (f.allocation_id == id)) [
  | inl k ↦ elim (Bool-cases (includes (allocation_ids es) f.allocation_id)) [
    | inl i ↦ rw i (
        subst (λ j. includes (allocation_ids es) j ≡ true) ((nat_beq_iff f.allocation_id id).0 k) i)
    | inr i ↦ rw i (rw k refl)
  ]
  | inr k ↦
      let known : includes (allocation_ids es) id ≡ true = latest-known id es e (rw k at h) in
      by_branch (λ ids. includes ids id ≡ true) (includes (allocation_ids es) f.allocation_id) known
        (rw k known)
]

-- The head of the new events.
latest-with_event :
    (now id j : ℕ) (o : Option StatusEvent) (rest : List StatusEvent)
    → latest id (with_event (cleared_after now j o) rest)
      ≡ (if j == id then newer (cleared_after now j o) (latest id rest) else latest id rest)
unfolding latest
latest-with_event now id j none rest = elim (Bool-cases (j == id)) [
  | inl h ↦ rw h refl
  | inr h ↦ rw h refl
]
latest-with_event now id j (some e) rest = elim (Bool-cases (must_clear now e)) [
  | inl m ↦ rw m refl
  | inr m ↦ rw m (elim (Bool-cases (j == id)) [ inl h ↦ rw h refl | inr h ↦ rw h refl ])
]

newer_twice :
    (now id : ℕ) (o : Option StatusEvent) (b : Bool)
    → newer (cleared_after now id o) (if b then cleared_after now id o else none)
      ≡ cleared_after now id o
newer_twice now id none true = refl
newer_twice now id none false = refl
newer_twice now id (some e) b = elim (Bool-cases (must_clear now e)) [
  | inl m ↦ rw m (
      by_branch (λ c. newer (some (cleared now id e)) c ≡ some (cleared now id e)) b (ground arith)
        refl)
  | inr m ↦ rw m (by_branch (λ (c : Option StatusEvent). newer none c ≡ none) b refl refl)
]

latest-clear_all :
    (now id : ℕ) (es : List StatusEvent) (ids : List ℕ)
    → latest id (clear_all now es ids)
      ≡ (if includes ids id then cleared_after now id (latest id es) else none)
unfolding clear_all
latest-clear_all now id es [] = unfold latest in refl
latest-clear_all now id es (j ∷ ids) =
    latest-with_event now id j (latest j es) (clear_all now es ids) ∙ elim (Bool-cases (j == id)) [
      | inr h ↦ rw h (latest-clear_all now id es ids)
      | inl h ↦ rw h (
          rw ((nat_beq_iff j id).0 h) (
            rw (latest-clear_all now id es ids)
              (newer_twice now id (latest id es) (includes ids id))))
    ]

-- The latest event after a sweep that runs no earlier than that event.
settled : ℕ → ℕ → StatusEvent → StatusEvent
settled now id e = if must_clear now e then cleared now id e else e

process_auto_clear-latest :
    (now id : ℕ) (es : List StatusEvent) (e : StatusEvent)
    → latest id es ≡ some e
    → e.created_at ≤ now
    → latest id (process_auto_clear now es) ≡ some (settled now id e)
unfolding process_auto_clear settled
process_auto_clear-latest now id es e h before =
    latest-append id es (clear_all now es (allocation_ids es))
    ∙ rw (latest-clear_all now id es (allocation_ids es)) (
        rw (latest-known id es e h) (
          rw h (elim (Bool-cases (must_clear now e)) [
            | inl m ↦ rw m (ground arith)
            | inr m ↦ rw m refl
          ])))

unfoldable pub sweeps : List ℕ → List StatusEvent → List StatusEvent
sweeps [] es = es
sweeps (now ∷ nows) es = sweeps nows (process_auto_clear now es)

-- The times of the sweeps do not go back.
abbrev pub Ascending : ℕ → List ℕ → Type 0
Ascending t [] = Unit
Ascending t (now ∷ nows) = (t ≤ now) × Ascending now nows

abbrev pub status_of : Option StatusEvent → Option String
status_of none = none
status_of (some e) = some e.status

Ascending-earlier : (t u : ℕ) (nows : List ℕ) → t ≤ u → Ascending u nows → Ascending t nows
Ascending-earlier t u [] le h = tt
Ascending-earlier t u (now ∷ nows) le (h, hs) = (omega arith, hs)

-- A sweep that has nothing to do for the allocation.
unchanged :
    (now id : ℕ) (es : List StatusEvent) (e : StatusEvent)
    → latest id es ≡ some e
    → e.created_at ≤ now
    → must_clear now e ≡ false
    → latest id (process_auto_clear now es) ≡ some e
unfolding settled
unchanged now id es e h before idle = process_auto_clear-latest now id es e h before ∙ rw idle refl

must_clear-cleared : (now : ℕ) (e : StatusEvent) → e.status ≡ "cleared" → must_clear now e ≡ false
unfolding must_clear
must_clear-cleared now e done = rw done refl

cleared_stays :
    (id : ℕ) (nows : List ℕ) (es : List StatusEvent) (e : StatusEvent)
    → latest id es ≡ some e
    → e.status ≡ "cleared"
    → Ascending e.created_at nows
    → status_of (latest id (sweeps nows es)) ≡ some "cleared"
unfolding sweeps
cleared_stays id [] es e h done after = rw h (ap some done)
cleared_stays id (now ∷ nows) es e h done (le, after) =
    cleared_stays id nows (process_auto_clear now es) e
      (unchanged now id es e h le (must_clear-cleared now e done)) done
      (Ascending-earlier e.created_at now nows le after)

-- An allocation whose latest event is pending for a week, or disputed for two, at the time of one of the sweeps is cleared after them,
-- and so after any more, as long as the sweeps do not run before that event or before one another.
pub eventually_cleared :
    (id : ℕ) (nows : List ℕ) (es : List StatusEvent) (e : StatusEvent)
    → latest id es ≡ some e
    → Ascending e.created_at nows
    → any (λ now. must_clear now e) nows ≡ true
    → status_of (latest id (sweeps nows es)) ≡ some "cleared"
unfolding sweeps
eventually_cleared id [] es e h ascending due = absurd (false_ne_true due)
eventually_cleared id (now ∷ nows) es e h (le, ascending) due =
    elim (Bool-cases (must_clear now e)) [
      | inl m ↦
          cleared_stays id nows (process_auto_clear now es) (cleared now id e)
            (process_auto_clear-latest now id es e h le ∙ (unfold settled in rw m refl)) refl
            ascending
      | inr m ↦
          eventually_cleared id nows (process_auto_clear now es) e (unchanged now id es e h le m)
            (Ascending-earlier e.created_at now nows le ascending) (rw m at due)
    ]
