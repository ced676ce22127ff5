-- ===== src/Access/Identity/Assignment.antt =====
-- Which texts name a principal where src/services/actor-identity.ts builds its assignment references.
use wordclaw.Shared.{
  includes-snoc, ◌∙◌, or_true, ℕ, String, ◌≡◌, refl, sym, ◌⊎◌, inl, inr, true, Bool-cases,
  test_refl, Option, none, some, List, [], ◌∷◌, ◌++◌, ◌&&◌, not, eq_iff, ◌==◌, string_eq, or_else,
  includes, trim, non_empty, decimal, false_ne_true,
}
use wordclaw.Access.Identity.{
  ActorRef, number, text, PrincipalLike, add_ref, add_refs, ref_text, add_opt,
  build_actor_assignment_refs,
}

-- The text is a trimmed reference of the principal: one it was given, its actor id or its actor reference.
pub data Names (p : PrincipalLike) (a : String) : Type 0 where
  given : (r : String) → includes (or_else p.assignment_refs []) r ≡ true → a ≡ trim r → Names p a
  its_id : (r : String) → p.actor_id ≡ some r → a ≡ trim r → Names p a
  its_number : (n : ℕ) → p.actor_ref ≡ some (number n) → a ≡ trim (decimal n) → Names p a
  its_text : (r : String) → p.actor_ref ≡ some (text r) → a ≡ trim r → Names p a

includes_snoc-cases :
    (xs : List String) (y a : String)
    → includes (xs ++ y ∷ []) a ≡ true
    → (includes xs a ≡ true) ⊎ (a ≡ y)
includes_snoc-cases xs y a h = elim (Bool-cases (includes xs a)) [
  | inl e ↦ inl e
  | inr e ↦
      let last : (y == a) ≡ true = rw e at (sym (includes-snoc xs y a) ∙ h) in
      inr (sym ((eq_iff y a).0 last))
]

includes-add_ref :
    (refs : List String) (r a : String)
    → includes (add_ref refs r) a ≡ true
    → (includes refs a ≡ true) ⊎ (a ≡ trim r)
unfolding add_ref
includes-add_ref refs r a h =
    elim (Bool-cases (non_empty (trim r) && not (includes refs (trim r)))) [
      | inl e ↦ includes_snoc-cases refs (trim r) a (rw e at h)
      | inr e ↦ inl (rw e at h)
    ]

includes-add_refs :
    (refs more : List String) (a : String)
    → includes (add_refs refs more) a ≡ true
    → (includes refs a ≡ true) ⊎ ((r : String) × (includes more r ≡ true) × (a ≡ trim r))
unfolding add_refs
includes-add_refs refs [] a h = inl h
includes-add_refs refs (r ∷ more) a h = elim (includes-add_refs (add_ref refs r) more a h) [
  | inl k ↦ elim (includes-add_ref refs r a k) [
    | inl l ↦ inl l
    | inr e ↦ inr (r, rw (test_refl r) refl, e)
  ]
  | inr (q, l, e) ↦ inr (q, rw (l, or_true) refl, e)
]

module _ (p : PrincipalLike) (a : String) where
  given_refs : includes (add_refs [] (or_else p.assignment_refs [])) a ≡ true → Names p a
  given_refs h = elim (includes-add_refs [] (or_else p.assignment_refs []) a h) [
    | inl k ↦ absurd (false_ne_true k)
    | inr (r, l, e) ↦ given r l e
  ]

  refs_with_id :
      (o : Option String)
      → p.actor_id ≡ o
      → includes (add_opt (add_refs [] (or_else p.assignment_refs [])) o) a ≡ true
      → Names p a
  unfolding add_opt
  refs_with_id none e h = given_refs h
  refs_with_id (some r) e h = elim (includes-add_ref _ r a h) [
    | inl k ↦ given_refs k
    | inr k ↦ its_id r e k
  ]

  refs_with_ref :
      (o : Option ActorRef)
      → p.actor_ref ≡ o
      → includes (build_actor_assignment_refs (some p)) a ≡ true
      → Names p a
  unfolding build_actor_assignment_refs ref_text
  refs_with_ref none e h = refs_with_id p.actor_id refl (rw (e, build_actor_assignment_refs) at h)
  refs_with_ref (some (number n)) e h =
      elim (includes-add_ref _ (decimal n) a (rw (e, build_actor_assignment_refs) at h)) [
        | inl k ↦ refs_with_id p.actor_id refl k
        | inr k ↦ its_number n e k
      ]
  refs_with_ref (some (text r)) e h =
      elim (includes-add_ref _ r a (rw (e, build_actor_assignment_refs) at h)) [
        | inl k ↦ refs_with_id p.actor_id refl k
        | inr k ↦ its_text r e k
      ]

  -- Every assignment reference names the principal.
  pub assignment_refs-Names : includes (build_actor_assignment_refs (some p)) a ≡ true → Names p a
  assignment_refs-Names h = refs_with_ref p.actor_ref refl h
