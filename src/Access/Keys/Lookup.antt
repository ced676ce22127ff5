-- ===== src/Access/Keys/Lookup.antt =====
-- Which keys the table of src/services/api-key.ts finds by their hashes.
use wordclaw.Shared.{
  and_false, and_left, ℕ, String, ◌≡◌, refl, sym, ap, ◌∙◌, subst, Bool, true, false, ◌&&◌, some,
  List, [], ◌∷◌, ◌++◌, inl, inr, Bool-cases, All, All-append, All-update, any, first, update,
  any-false, any-append, any-update, any-first, any-weaken, if◌then◌else◌, ◌==◌, string_eq, nat_eq,
  eq_iff, test_comm, false_ne_true,
}
use mathlib.Core.Option.{none-ne-some, some-injective}
use wordclaw.Access.Keys.{ApiKey, Keys, has_hash, is_live, revoked, insert_key, get_api_key_by_hash}

-- No two keys have one hash.
abbrev pub Distinct : List ApiKey → Type 0
Distinct [] = Unit
Distinct (k ∷ ks) = All (λ j. has_hash k.key_hash j ≡ false) ks × Distinct ks

abbrev pub KeepsHash : (ApiKey → ApiKey) → Type 0
KeepsHash f = (k : ApiKey) → (f k).key_hash ≡ k.key_hash

pub update-Distinct :
    (p : ApiKey → Bool) (f : ApiKey → ApiKey)
    → KeepsHash f
    → (ks : List ApiKey) → Distinct ks
    → Distinct (update p f ks)
update-Distinct p f same [] h = tt
update-Distinct p f same (k ∷ ks) (h, hs) = (
  subst (λ t. All (λ j. has_hash t j ≡ false) (update p f ks)) (sym head_hash)
      (All-update {P = λ j. has_hash k.key_hash j ≡ false} {Q = λ j. has_hash k.key_hash j ≡ false}
        p f (λ j e _. rw (same j) e) (λ j e _. e) ks h),
  update-Distinct p f same ks hs,
)
  where
    head_hash : (if p k then f k else k).key_hash ≡ k.key_hash
    head_hash = elim (Bool-cases (p k)) [ inl e ↦ rw e (same k) | inr e ↦ rw e refl ]

append-Distinct :
    (ks : List ApiKey) (k : ApiKey)
    → Distinct ks
    → All (λ j. has_hash k.key_hash j ≡ false) ks
    → Distinct (ks ++ k ∷ [])
append-Distinct [] k h new = (tt, tt)
append-Distinct (j ∷ ks) k (h, hs) (n, new) = (
  All-append (λ i. has_hash j.key_hash i ≡ false) ks (k ∷ []) h
      (rw (test_comm k.key_hash j.key_hash) n, tt),
  append-Distinct ks k hs new,
)

-- A key of this hash is in the table, and none of them is live.
abbrev pub Dead : String → Keys → Type 0
Dead h s = (any (has_hash h) s.rows ≡ true) × All (λ k. (has_hash h k && is_live k) ≡ false) s.rows

pub revoked-Distinct :
    (now : ℕ) (p : ApiKey → Bool) (s : Keys)
    → Distinct s.rows
    → Distinct (update p (revoked now) s.rows)
revoked-Distinct now p s h = update-Distinct p (revoked now) (λ k. refl) s.rows h

pub insert_key-Distinct :
    (k : ApiKey) (s : Keys)
    → Distinct s.rows
    → (after : ApiKey × Keys) → insert_key k s ≡ some after
    → Distinct after.1.rows
insert_key-Distinct k s h after done = elim (Bool-cases (any (has_hash k.key_hash) s.rows)) [
  | inl e ↦ absurd (none-ne-some after (rw e at done))
  | inr e ↦
      subst (λ (o : ApiKey × Keys). Distinct o.1.rows) (some-injective _ after (rw e at done))
        (append-Distinct s.rows k h (any-false (has_hash k.key_hash) s.rows e))
]

abbrev is_found : String → ApiKey → Bool
is_found h k = has_hash h k && is_live k

and_stays : (b l l' : Bool) → (b && l) ≡ false → (l ≡ false → l' ≡ false) → (b && l') ≡ false
and_stays true l l' h f = f h
and_stays false l l' h f = refl

-- Where the one live key of a hash is revoked, no live key of the hash is left.
revoked-none :
    (h : String) (now : ℕ) (p : ApiKey → Bool) (k : ApiKey) (ks : List ApiKey)
    → Distinct ks
    → first (is_found h) ks ≡ some k
    → p k ≡ true
    → All (λ j. is_found h j ≡ false) (update p (revoked now) ks)
revoked-none h now p k [] distinct found named = absurd (none-ne-some k found)
revoked-none h now p k (x ∷ ks) (apart, distinct) found named = elim (Bool-cases (is_found h x)) [
  | inl e ↦
      let same : x ≡ k = some-injective x k (rw e at found) in
      let named' : p x ≡ true = ap p same ∙ named in
      rw named' (
        and_false (has_hash h x),
        All-update {P = λ j. has_hash x.key_hash j ≡ false} {Q = λ j. is_found h j ≡ false} p
            (revoked now) (λ j _ _. and_false (has_hash h j))
            (λ j d _. rw (other j x.key_hash d (and_left (has_hash h x) (is_live x) e)) refl) ks
            apart,
      )
  | inr e ↦
      let rest : All (λ j. is_found h j ≡ false) (update p (revoked now) ks) =
        revoked-none h now p k ks distinct (rw e at found) named in
      elim (Bool-cases (p x)) [
        | inl g ↦ rw g (and_false (has_hash h x), rest)
        | inr g ↦ rw g (e, rest)
      ]
]
  where
    other :
        (j : ApiKey) (a : String)
        → (j.key_hash == a) ≡ false
        → (a == h) ≡ true
        → (j.key_hash == h) ≡ false
    other j a d e = subst (λ t. (j.key_hash == t) ≡ false) ((eq_iff a h).0 e) d

-- A live key that a revocation names.
pub revoked-Dead :
    (h : String) (now : ℕ) (p : ApiKey → Bool) (s : Keys) (k : ApiKey)
    → Distinct s.rows
    → get_api_key_by_hash h s ≡ some k
    → p k ≡ true
    → Dead h (record s { rows = update p (revoked now) s.rows })
unfolding get_api_key_by_hash
revoked-Dead h now p s k distinct found named = (
  any-update (has_hash h) p (revoked now) (λ j. refl) s.rows
      ∙ any-weaken (is_found h) (has_hash h) (λ j. and_left (has_hash h j) (is_live j)) s.rows
          (any-first (is_found h) s.rows found),
  revoked-none h now p k s.rows distinct found named,
)

pub updated-Dead :
    (h : String) (p : ApiKey → Bool) (f : ApiKey → ApiKey) (s : Keys)
    → KeepsHash f
    → ((k : ApiKey) → is_live k ≡ false → is_live (f k) ≡ false)
    → Dead h s
    → Dead h (record s { rows = update p f s.rows })
updated-Dead h p f s same stays (present, dead) = (
  any-update (has_hash h) p f (λ k. rw (same k) refl) s.rows ∙ present,
  All-update {P = λ k. (has_hash h k && is_live k) ≡ false}
      {Q = λ k. (has_hash h k && is_live k) ≡ false} p f
      (λ k d _. rw (same k) (and_stays (has_hash h k) (is_live k) (is_live (f k)) d (stays k)))
      (λ k d _. d) s.rows dead,
)

pub insert_key-Dead :
    (h : String) (k : ApiKey) (s : Keys)
    → Dead h s
    → (after : ApiKey × Keys) → insert_key k s ≡ some after
    → Dead h after.1
insert_key-Dead h k s (present, dead) after done =
    elim (Bool-cases (any (has_hash k.key_hash) s.rows)) [
      | inl e ↦ absurd (none-ne-some after (rw e at done))
      | inr e ↦
          subst (λ (o : ApiKey × Keys). Dead h o.1) (some-injective _ after (rw e at done))
            (
              any-append (has_hash h) s.rows (k ∷ []) present,
              All-append (λ k. (has_hash h k && is_live k) ≡ false) s.rows (k ∷ []) dead
                  (rw (other_hash e) refl, tt),
            )
    ]
  where
    other_hash : any (has_hash k.key_hash) s.rows ≡ false → (k.key_hash == h) ≡ false
    other_hash e = elim (Bool-cases (k.key_hash == h)) [
      | inl g ↦ absurd (
          false_ne_true (
            sym e
            ∙ subst (λ t. any (has_hash t) s.rows ≡ true) (sym ((eq_iff k.key_hash h).0 g))
                present))
      | inr g ↦ g
    ]
