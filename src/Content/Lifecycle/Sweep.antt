-- ===== src/Content/Lifecycle/Sweep.antt =====
-- What the sweep of src/services/content-lifecycle.ts archives, against the test of a single item.
use wordclaw.Shared.{
  ℕ, ◌+◌, ◌*◌, ◌≡◌, ◌≢◌, refl, sym, subst, ap, ◌∙◌, inl, inr, Bool, true, false, ◌&&◌, List, [],
  ◌∷◌, arith, ◌==◌, nat_eq, string_eq, leb, keep, update, any, All, Bool-cases, eq_refl, pos, ◌-ℤ◌,
  leb_ℤ,
}
use wordclaw.Content.Lifecycle.{
  LifecycleConfig, ContentItem, Contents, reference_time, is_expired, is_item, archived,
  archive_content_item, is_due, archive_all, archive_expired_content_items, must_archive,
}

false_ne_true : false ≢ true
false_ne_true e = cc

cutoff_lem : (a n t : ℕ) → leb_ℤ (pos a) (pos n -ℤ pos t) ≡ leb (a + t) n
unfolding ◌-ℤ◌
cutoff_lem a n t = ground arith

-- The sweep's query selects an item exactly when it is of that domain and type and the test that a read
-- of a single item makes would archive it.
pub is_due_lem :
    (d t : ℕ) (c : LifecycleConfig) (now : ℕ) (i : ContentItem)
    → is_due d t c now i ≡ (i.domain_id == d && (i.content_type_id == t && must_archive c now i))
unfolding is_due must_archive is_expired
is_due_lem d t c now i =
    rw (cutoff_lem (reference_time c i) now (c.ttl_seconds * 1000)) (ground arith)

abbrev same_key : ContentItem → ContentItem → Bool
same_key i j = is_item i.id i.domain_id j

-- A row that is due has its key among the items still to be archived.
abbrev IsPending : ℕ → ℕ → LifecycleConfig → ℕ → List ContentItem → ContentItem → Type 0
IsPending d t c now is j = is_due d t c now j ≡ true → any (λ i. same_key i j) is ≡ true

archived_not_due :
    (d t : ℕ) (c : LifecycleConfig) (now at : ℕ) (old i : ContentItem)
    → is_due d t c now (archived c at old i) ≡ false
unfolding is_due
archived_not_due d t c now at old i = rw (eq_refl c.archive_status) (ground arith)

archive_step :
    (d t : ℕ) (c : LifecycleConfig) (now : ℕ) (i : ContentItem) (is js : List ContentItem)
    → All (IsPending d t c now (i ∷ is)) js
    → All (IsPending d t c now is) (update (is_item i.id i.domain_id) (archived c now i) js)
archive_step d t c now i is [] h = tt
archive_step d t c now i is (j ∷ js) (h, hs) = elim (Bool-cases (is_item i.id i.domain_id j)) [
  | inl e ↦ rw e (
    λ due. absurd (false_ne_true (sym (archived_not_due d t c now now i j) ∙ due)),
    archive_step d t c now i is js hs,
  )
  | inr e ↦ rw e ((λ due. rw e at h due), archive_step d t c now i is js hs)
]

archive_all-IsPending :
    (d t : ℕ) (c : LifecycleConfig) (now : ℕ) (is : List ContentItem) (n : ℕ) (s : Contents)
    → All (IsPending d t c now is) s.items
    → All (IsPending d t c now []) (archive_all c now n is s).1.items
unfolding archive_all archive_content_item
archive_all-IsPending d t c now [] n s h = h
archive_all-IsPending d t c now (i ∷ is) n s h =
    archive_all-IsPending d t c now is _ _ (archive_step d t c now i is s.items h)

weaken-IsPending :
    (d t : ℕ) (c : LifecycleConfig) (now : ℕ) (i : ContentItem) (is js : List ContentItem)
    → All (IsPending d t c now is) js
    → All (IsPending d t c now (i ∷ is)) js
weaken-IsPending d t c now i is [] h = tt
weaken-IsPending d t c now i is (j ∷ js) (h, hs) =
    ((λ due. rw (h due) (ground arith)), weaken-IsPending d t c now i is js hs)

selected-IsPending :
    (d t : ℕ) (c : LifecycleConfig) (now : ℕ) (js : List ContentItem)
    → All (IsPending d t c now (keep (is_due d t c now) js)) js
selected-IsPending d t c now [] = tt
selected-IsPending d t c now (j ∷ js) =
    let picked : List ContentItem = keep (is_due d t c now) js in
    let rest : All (IsPending d t c now picked) js = selected-IsPending d t c now js in
    elim (Bool-cases (is_due d t c now j)) [
      | inl due ↦
          let all_picked : keep (is_due d t c now) (j ∷ js) ≡ j ∷ picked = rw due refl in
          let own : is_item j.id j.domain_id j ≡ true = ground arith in
          subst (λ is. All (IsPending d t c now is) (j ∷ js)) (sym all_picked)
            ((λ _. rw own refl), weaken-IsPending d t c now j picked js rest)
      | inr idle ↦
          let all_picked : keep (is_due d t c now) (j ∷ js) ≡ picked = rw idle refl in
          subst (λ is. All (IsPending d t c now is) (j ∷ js)) (sym all_picked)
            ((λ due. absurd (false_ne_true (sym idle ∙ due))), rest)
    ]

none_due :
    (d t : ℕ) (c : LifecycleConfig) (now : ℕ) (js : List ContentItem)
    → All (IsPending d t c now []) js
    → keep (is_due d t c now) js ≡ []
none_due d t c now [] h = refl
none_due d t c now (j ∷ js) (h, hs) = elim (Bool-cases (is_due d t c now j)) [
  | inl due ↦ absurd (false_ne_true (h due))
  | inr idle ↦ rw idle (none_due d t c now js hs)
]

-- A sweep leaves nothing to archive: the same sweep at the same time, run again, archives no item and
-- changes nothing.
pub second_sweep_archives_none :
    (d t : ℕ) (c : LifecycleConfig) (now : ℕ) (s : Contents)
    → let swept = (archive_expired_content_items d t c now s).1 in
      archive_expired_content_items d t c now swept ≡ (0, swept)
unfolding archive_expired_content_items archive_all
second_sweep_archives_none d t c now s =
    let first_sweep = archive_all c now 0 (keep (is_due d t c now) s.items) s in
    let left = none_due d t c now first_sweep.1.items (
      archive_all-IsPending d t c now (keep (is_due d t c now) s.items) 0 s
        (selected-IsPending d t c now s.items)) in
    ap (λ is. archive_all c now 0 is first_sweep.1) left
