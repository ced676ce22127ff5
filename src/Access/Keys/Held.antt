-- ===== src/Access/Keys/Held.antt =====
-- Which scopes the text of a key of src/services/api-key.ts holds.
use wordclaw.Shared.{
  or_assoc, or_false, includes-snoc, String, ◌≡◌, refl, sym, ap, subst, ◌∙◌, true, ◌||◌, List, [],
  ◌∷◌, ◌++◌, inl, inr, Bool-cases, includes, split_trimmed, ◌==◌, string_eq, eq_iff,
}
use wordclaw.Access.Keys.{parse_scopes, distinct_from}

pub includes-distinct_from :
    (so_far xs : List String) (a : String)
    → includes (distinct_from so_far xs) a ≡ (includes so_far a || includes xs a)
unfolding distinct_from
includes-distinct_from so_far [] a = sym (or_false (includes so_far a))
includes-distinct_from so_far (x ∷ xs) a = elim (Bool-cases (includes so_far x)) [
  | inl e ↦ rw e (includes-distinct_from so_far xs a ∙ known e)
  | inr e ↦ rw e (
      includes-distinct_from (so_far ++ x ∷ []) xs a
      ∙ ap (λ b. b || includes xs a) (includes-snoc so_far x a)
      ∙ sym (or_assoc (includes so_far a) (x == a) (includes xs a)))
]
  where
    known :
        includes so_far x ≡ true
        → (includes so_far a || includes xs a) ≡ (includes so_far a || (x == a || includes xs a))
    known e = elim (Bool-cases (x == a)) [
      | inl g ↦
          let held : includes so_far a ≡ true =
            subst (λ y. includes so_far y ≡ true) ((eq_iff x a).0 g) e in
          rw held refl
      | inr g ↦ rw g refl
    ]

-- A key's scopes are the trimmed pieces of its text.
pub includes-parse_scopes :
    (t a : String) → includes (parse_scopes t) a ≡ includes (split_trimmed b'|' t) a
unfolding parse_scopes
includes-parse_scopes t a = includes-distinct_from [] (split_trimmed b'|' t) a
