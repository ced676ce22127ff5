-- ===== src/Access/Keys/Scopes.antt =====
-- The scopes of a key of src/services/api-key.ts as text.
use wordclaw.Shared.{
  String, ◌≡◌, refl, sym, ap, ◌∙◌, subst, Bool, true, false, not, ◌||◌, List, [], ◌∷◌, ◌++◌, inl,
  inr, Bool-cases, All, includes, keep, split, split-Lacks, split-concat, Lacks, split_trimmed,
  trimmed_pieces, trim, non_empty, ◌==◌, string_eq, eq_iff, arith, false_ne_true,
}
use mathlib.Core.List.{append_assoc, append-nil}
use wordclaw.Access.Keys.{
  allowed_scopes, distinct_from, parse_scopes, valid_scopes, unless_invalid, normalize_scopes,
  join_scopes,
}

-- Not yet among the first ones, nor among one another.
abbrev Fresh : List String → List String → Type 0
Fresh so_far [] = Unit
Fresh so_far (x ∷ xs) = (includes so_far x ≡ false) × Fresh (so_far ++ x ∷ []) xs

distinct_from_of_Fresh :
    (so_far xs : List String) → Fresh so_far xs → distinct_from so_far xs ≡ so_far ++ xs
unfolding distinct_from
distinct_from_of_Fresh so_far [] h = sym (append-nil so_far)
distinct_from_of_Fresh so_far (x ∷ xs) (h, hs) =
    rw h (distinct_from_of_Fresh (so_far ++ x ∷ []) xs hs ∙ append_assoc so_far (x ∷ []) xs)

distinct_from-Fresh :
    (so_far xs : List String)
    → (zs : List String) × (distinct_from so_far xs ≡ so_far ++ zs) × Fresh so_far zs
unfolding distinct_from
distinct_from-Fresh so_far [] = ([], sym (append-nil so_far), tt)
distinct_from-Fresh so_far (x ∷ xs) = elim (Bool-cases (includes so_far x)) [
  | inl e ↦ rw e (distinct_from-Fresh so_far xs)
  | inr e ↦
      let (zs, same, fresh) = distinct_from-Fresh (so_far ++ x ∷ []) xs in
      rw e (x ∷ zs, same ∙ append_assoc so_far (x ∷ []) zs, (e, fresh))
]

-- A scope that survives the text.
record Survives (s : String) : Type 0 where
  plain : Lacks b'|' s
  trimmed : trim s ≡ s
  filled : non_empty s ≡ true

Survives-literal :
    Survives "content:read" × Survives "content:write" × Survives "audit:read" × Survives "admin"
unfolding trim non_empty
Survives-literal = (
  record { plain = ground arith; trimmed = refl; filled = refl },
  record { plain = ground arith; trimmed = refl; filled = refl },
  record { plain = ground arith; trimmed = refl; filled = refl },
  record { plain = ground arith; trimmed = refl; filled = refl },
)

module _ (s : String) where
  Survives-of :
      (t : String) (rest : Bool)
      → Survives t
      → (rest ≡ true → Survives s)
      → (t == s || rest) ≡ true
      → Survives s
  Survives-of t rest v otherwise h = elim (Bool-cases (t == s)) [
    | inl e ↦ subst Survives ((eq_iff t s).0 e) v
    | inr e ↦ otherwise (rw e at h)
  ]

  Survives-allowed : includes allowed_scopes s ≡ true → Survives s
  Survives-allowed =
      let (v, w, x, y) = Survives-literal in
      Survives-of "content:read" _ v (
        Survives-of "content:write" _ w
          (Survives-of "audit:read" _ x (Survives-of "admin" _ y (λ h. absurd (false_ne_true h)))))

kept_pieces :
    (s : String) (pieces : List String)
    → Survives s
    → trimmed_pieces (s ∷ pieces) ≡ s ∷ trimmed_pieces pieces
unfolding trimmed_pieces
kept_pieces s pieces v = rw v.trimmed (rw v.filled refl)

pieces-join_scopes :
    (ss : List String) → All Survives ss → trimmed_pieces (split b'|' (join_scopes ss)) ≡ ss
unfolding join_scopes trimmed_pieces
pieces-join_scopes [] h = unfold split trim non_empty in refl
pieces-join_scopes (s ∷ []) (v, h) = rw (split-Lacks b'|' s v.plain) (kept_pieces s [] v)
pieces-join_scopes (s ∷ t ∷ ss) (v, h) =
    rw (split-concat "|" s (join_scopes (t ∷ ss)) v.plain refl) (
      kept_pieces s (split b'|' (join_scopes (t ∷ ss))) v
      ∙ ap (λ x. s ∷ x) (pieces-join_scopes (t ∷ ss) h))

allowed-All :
    (ss : List String) → keep (λ s. not (includes allowed_scopes s)) ss ≡ [] → All Survives ss
allowed-All [] h = tt
allowed-All (s ∷ ss) h = elim (Bool-cases (includes allowed_scopes s)) [
  | inl e ↦ (Survives-allowed s e, allowed-All ss (rw e at h))
  | inr e ↦ absurd (ground arith)
]

accepted :
    (u bad unique : List String)
    → unless_invalid u bad ≡ valid_scopes unique
    → (u ≡ unique) × (bad ≡ [])
accepted u [] unique h = (cc, refl)
accepted u (b ∷ bs) unique h = absurd cc

-- Scopes that are accepted are read back from the text that a key stores, in the same order.
pub parse_scopes-serialized :
    (scopes unique : List String)
    → normalize_scopes scopes ≡ valid_scopes unique
    → parse_scopes (join_scopes unique) ≡ unique
unfolding normalize_scopes parse_scopes split_trimmed
parse_scopes-serialized scopes unique h =
    let (zs, same, fresh) = distinct_from-Fresh [] (trimmed_pieces scopes) in
    let (same', none_bad) = accepted (distinct_from [] (trimmed_pieces scopes)) _ unique h in
    let all : All Survives unique =
      subst (All Survives) same'
        (allowed-All (distinct_from [] (trimmed_pieces scopes)) none_bad) in
    let again : zs ≡ unique = sym same ∙ same' in
    rw (pieces-join_scopes unique all)
      (distinct_from_of_Fresh [] unique (subst (Fresh []) again fresh))
