-- ===== src/Access/Keys/History.antt =====
-- The keys of src/services/api-key.ts over time: creations, uses, revocations and rotations in any order.
use wordclaw.Shared.{
  and_right, ℕ, String, ◌≡◌, refl, sym, ◌∙◌, Bool, true, false, ◌&&◌, Option, none, some, List, [],
  ◌∷◌, inl, inr, Option-cases, first, update, All-first-none, first-All, false_ne_true, first-none,
  first-holds, ◌==◌, string_eq, nat_eq, test_refl,
}
use wordclaw.Access.Keys.{
  ApiKey, Keys, CreateApiKeyInput, ScopesResult, valid_scopes, invalid_scopes, normalize_scopes,
  has_hash, is_live, live_key, revoked, insert_key, get_api_key_by_hash, touch_api_key_usage,
  revoke_api_key, new_key, create_api_key, successor, rotate_api_key,
}
use wordclaw.Access.Keys.Lookup.{
  Distinct, Dead, update-Distinct, revoked-Distinct, insert_key-Distinct, revoked-Dead,
  updated-Dead, insert_key-Dead,
}

pub data KeyOp : Type 0 where
  create : ℕ → String → CreateApiKeyInput → KeyOp
  use_key : ℕ → ℕ → KeyOp
  revoke : ℕ → ℕ → ℕ → KeyOp
  rotate : ℕ → String → ℕ → ℕ → Option ℕ → KeyOp

-- A property of the table that every statement of the operations keeps.
record Kept (P : Keys → Type 0) : Type 0 where
  inserts :
      (k : ApiKey) (s : Keys)
      → P s
      → (after : ApiKey × Keys) → insert_key k s ≡ some after
      → P after.1
  revokes :
      (now : ℕ) (p : ApiKey → Bool) (s : Keys)
      → P s
      → P (record s { rows = update p (revoked now) s.rows })
  touches : (now id : ℕ) (s : Keys) → P s → P (touch_api_key_usage now id s)

Distinct-Kept : Kept (λ s. Distinct s.rows)
unfolding touch_api_key_usage
Distinct-Kept = record {
  inserts = insert_key-Distinct;
  revokes = revoked-Distinct;
  touches = λ now id s h. update-Distinct (λ k. k.id == id) _ (λ k. refl) s.rows h;
}

Dead-Kept : (h : String) → Kept (Dead h)
unfolding touch_api_key_usage
Dead-Kept h = record {
  inserts = insert_key-Dead h;
  revokes = λ now p s d. updated-Dead h p (revoked now) s (λ k. refl) (λ k _. refl) d;
  touches = λ now id s d. updated-Dead h (λ k. k.id == id) _ s (λ k. refl) (λ k e. e) d;
}

module _ (hash_api_key : String → String) where
  unfoldable pub apply_op : KeyOp → Keys → Keys
  apply_op (create now plaintext input) s = (create_api_key hash_api_key now plaintext input s).1
  apply_op (use_key now id) s = touch_api_key_usage now id s
  apply_op (revoke now id domain_id) s = (revoke_api_key now id domain_id s).1
  apply_op (rotate now plaintext id domain_id actor_id) s =
      (rotate_api_key hash_api_key now plaintext id domain_id actor_id s).1

  unfoldable pub apply_ops : List KeyOp → Keys → Keys
  apply_ops [] s = s
  apply_ops (o ∷ os) s = apply_ops os (apply_op o s)

  module _ (P : Keys → Type 0) (kept : Kept P) where
    create-keeps :
        (now : ℕ) (plaintext : String) (input : CreateApiKeyInput) (s : Keys)
        → P s
        → P (create_api_key hash_api_key now plaintext input s).1
    unfolding create_api_key
    create-keeps now plaintext input s h = by_scopes (normalize_scopes input.scopes) refl
      where
        by_scopes :
            (o : ScopesResult)
            → normalize_scopes input.scopes ≡ o
            → P (create_api_key hash_api_key now plaintext input s).1
        by_scopes (invalid_scopes bad) e = rw (e, create_api_key) h
        by_scopes (valid_scopes scopes) e =
            elim (Option-cases
              (insert_key (new_key hash_api_key now input plaintext scopes s.next_id) s)) [
                | inl f ↦ rw (e, create_api_key) (rw f h)
                | inr (after, f) ↦ rw (e, create_api_key) (rw f (kept.inserts _ s h after f))
              ]

    rotate-keeps :
        (now : ℕ) (plaintext : String) (id domain_id : ℕ) (actor_id : Option ℕ) (s : Keys)
        → P s
        → P (rotate_api_key hash_api_key now plaintext id domain_id actor_id s).1
    unfolding rotate_api_key
    rotate-keeps now plaintext id domain_id actor_id s h =
        elim (Option-cases (first (live_key id domain_id) s.rows)) [
          | inl e ↦ rw (e, rotate_api_key) h
          | inr (k, e) ↦
              let s' : Keys = record s { rows = update (λ j. j.id == id) (revoked now) s.rows } in
              elim (Option-cases
                (insert_key (successor hash_api_key now plaintext actor_id k s.next_id) s')) [
                  | inl f ↦ rw (e, rotate_api_key) (rw f h)
                  | inr (after, f) ↦
                      rw (e, rotate_api_key)
                        (rw f (kept.inserts _ s' (kept.revokes now (λ j. j.id == id) s h) after f))
                ]
        ]

    revoke-keeps : (now id domain_id : ℕ) (s : Keys) → P s → P (revoke_api_key now id domain_id s).1
    unfolding revoke_api_key
    revoke-keeps now id domain_id s h = elim (Option-cases (first (live_key id domain_id) s.rows)) [
      | inl e ↦ rw (e, revoke_api_key) h
      | inr (k, e) ↦ rw (e, revoke_api_key) (kept.revokes now (live_key id domain_id) s h)
    ]

    apply_op-keeps : (o : KeyOp) (s : Keys) → P s → P (apply_op o s)
    unfolding apply_op
    apply_op-keeps (create now plaintext input) s h = create-keeps now plaintext input s h
    apply_op-keeps (use_key now id) s h = kept.touches now id s h
    apply_op-keeps (revoke now id domain_id) s h = revoke-keeps now id domain_id s h
    apply_op-keeps (rotate now plaintext id domain_id actor_id) s h =
        rotate-keeps now plaintext id domain_id actor_id s h

    apply_ops-keeps : (os : List KeyOp) (s : Keys) → P s → P (apply_ops os s)
    unfolding apply_ops
    apply_ops-keeps [] s h = h
    apply_ops-keeps (o ∷ os) s h = apply_ops-keeps os (apply_op o s) (apply_op-keeps o s h)

  -- Creations, uses, revocations and rotations, in any order, leave no two keys with one hash if there were none.
  pub apply_ops-Distinct :
      (os : List KeyOp) (s : Keys) → Distinct s.rows → Distinct (apply_ops os s).rows
  apply_ops-Distinct os s h = apply_ops-keeps (λ t. Distinct t.rows) Distinct-Kept os s h

  Dead-lookup : (h : String) (s : Keys) → Dead h s → get_api_key_by_hash h s ≡ none
  unfolding get_api_key_by_hash
  Dead-lookup h s (present, dead) = first-none (λ k. has_hash h k && is_live k) s.rows dead

  apply_ops-Dead : (h : String) (os : List KeyOp) (s : Keys) → Dead h s → Dead h (apply_ops os s)
  apply_ops-Dead h os s d = apply_ops-keeps (Dead h) (Dead-Kept h) os s d

  -- A key found by a hash is live.
  found_live :
      (h : String) (s : Keys) (k : ApiKey)
      → get_api_key_by_hash h s ≡ some k
      → live_key k.id k.domain_id k ≡ true
  unfolding get_api_key_by_hash
  found_live h s k found = rw (test_refl k.id) (
      rw (test_refl k.domain_id) (
        and_right (has_hash h k) (is_live k)
          (first-holds (λ j. has_hash h j && is_live j) s.rows found)))

  -- A key found by its hash is never found again once it is revoked, whatever is created, used, revoked or
  -- rotated afterwards, where no two keys had one hash.
  pub revoked_stays_out :
      (h : String) (now : ℕ) (os : List KeyOp) (s : Keys) (k : ApiKey)
      → Distinct s.rows
      → get_api_key_by_hash h s ≡ some k
      → get_api_key_by_hash h (apply_ops os (revoke_api_key now k.id k.domain_id s).1) ≡ none
  unfolding revoke_api_key get_api_key_by_hash
  revoked_stays_out h now os s k distinct found =
      Dead-lookup h (apply_ops os (revoke_api_key now k.id k.domain_id s).1)
        (apply_ops-Dead h os (revoke_api_key now k.id k.domain_id s).1 revoked_dead)
    where
      revoked_dead : Dead h (revoke_api_key now k.id k.domain_id s).1
      revoked_dead = elim (Option-cases (first (live_key k.id k.domain_id) s.rows)) [
        | inl e ↦
            let missed : live_key k.id k.domain_id k ≡ false =
              first-All (λ j. live_key k.id k.domain_id j ≡ false) (λ j. has_hash h j && is_live j)
                s.rows (All-first-none (live_key k.id k.domain_id) s.rows e) found in
            absurd (false_ne_true (sym missed ∙ found_live h s k found))
        | inr (k', e) ↦
            rw (e, revoke_api_key)
              (revoked-Dead h now (live_key k.id k.domain_id) s k distinct found
                (found_live h s k found))
      ]
