-- ===== src/Access/Keys/Rotation.antt =====
-- rotateApiKey of src/services/api-key.ts: the key that takes the place of another.
use wordclaw.Shared.{
  ℕ, String, ◌≡◌, refl, sym, ap, ◌∙◌, ◌≢◌, ◌+◌, Bool, true, false, ◌&&◌, Option, some, [], ◌∷◌,
  ◌++◌, inl, inr, Bool-cases, Option-cases, first, update, first-absent_append, All-weaken, any,
  any-false, false_ne_true, first-none, ◌==◌, string_eq, nat_eq, test_refl,
}
use wordclaw.Access.Keys.{
  ApiKey, Keys, has_hash, is_live, live_key, revoked, get_api_key_by_hash, successor,
  rotate_api_key, RotateResult, no_key, rotation_failed, rotated,
}

module _ (hash_api_key : String → String) where
  -- A rotation that succeeds leaves a key that its own text finds, with the old key's domain, scopes and
  -- expiry.
  pub rotate_api_key-passes_on :
      (now id domain_id : ℕ) (plaintext shown : String) (actor_id : Option ℕ) (s s' : Keys)
      (old new : ApiKey)
      → rotate_api_key hash_api_key now plaintext id domain_id actor_id s
        ≡ (rotated old new shown, s')
      → (get_api_key_by_hash (hash_api_key shown) s' ≡ some new)
        × (new.domain_id ≡ old.domain_id)
        × (new.scopes ≡ old.scopes)
        × (new.expires_at ≡ old.expires_at)
  unfolding rotate_api_key successor get_api_key_by_hash
  rotate_api_key-passes_on now id domain_id plaintext shown actor_id s s' old new done =
      elim (Option-cases (first (live_key id domain_id) s.rows)) [
        | inl e ↦ absurd (failed no_key s refl (rw (e, rotate_api_key) at done))
        | inr (k, e) ↦
            elim (Bool-cases (
              any (has_hash (hash_api_key plaintext))
                (update (λ j. j.id == id) (revoked now) s.rows))) [
                  | inl f ↦
                      absurd
                        (failed rotation_failed s refl (rw f at (rw (e, rotate_api_key) at done)))
                  | inr f ↦ passed k f (rw f at (rw (e, rotate_api_key) at done))
                ]
      ]
    where
      is_rotated : RotateResult × Keys → Bool
      is_rotated (rotated k k' t, u) = true
      is_rotated (_, u) = false

      failed :
          (r : RotateResult) (u : Keys)
          → is_rotated (r, u) ≡ false
          → ◌≢◌ {A = RotateResult × Keys} (r, u) (rotated old new shown, s')
      failed r u e g = false_ne_true (sym e ∙ ap is_rotated g)

      is_new :
          (k : ApiKey)
          → any (has_hash (hash_api_key plaintext)) (update (λ j. j.id == id) (revoked now) s.rows)
            ≡ false
          → first
              (λ j. has_hash (hash_api_key plaintext) j && is_live j)
              (update (λ j. j.id == id) (revoked now) s.rows
                ++ successor hash_api_key now plaintext actor_id k s.next_id ∷ [])
            ≡ some (successor hash_api_key now plaintext actor_id k s.next_id)
      is_new k f =
          first-absent_append (λ j. has_hash (hash_api_key plaintext) j && is_live j) _ _
            (first-none _ _ (
              All-weaken (λ j. has_hash (hash_api_key plaintext) j ≡ false)
                (λ j. (has_hash (hash_api_key plaintext) j && is_live j) ≡ false) (λ j e. rw e refl)
                (update (λ j. j.id == id) (revoked now) s.rows)
                (any-false (has_hash (hash_api_key plaintext)) _ f)))
            (rw (test_refl (hash_api_key plaintext)) refl)

      passed :
          (k : ApiKey)
          → any (has_hash (hash_api_key plaintext)) (update (λ j. j.id == id) (revoked now) s.rows)
            ≡ false
          → ◌≡◌ {A = RotateResult × Keys}
              (
                rotated k (successor hash_api_key now plaintext actor_id k s.next_id) plaintext,
                record s {
                  rows =
                      update (λ j. j.id == id) (revoked now) s.rows
                      ++ successor hash_api_key now plaintext actor_id k s.next_id ∷ [];
                  next_id = s.next_id + 1;
                },
              )
              (rotated old new shown, s')
          → (get_api_key_by_hash (hash_api_key shown) s' ≡ some new)
            × (new.domain_id ≡ old.domain_id)
            × (new.scopes ≡ old.scopes)
            × (new.expires_at ≡ old.expires_at)
      passed k f g =
          let same_old : k ≡ old = cc in
          let same_new : successor hash_api_key now plaintext actor_id k s.next_id ≡ new = cc in
          let same_text : plaintext ≡ shown = cc in
          let same_keys : record s {
            rows =
                update (λ j. j.id == id) (revoked now) s.rows
                ++ successor hash_api_key now plaintext actor_id k s.next_id ∷ [];
            next_id = s.next_id + 1;
          }
              ≡ s' =
            cc in
          rw (← same_old)
            (rw (← same_new) (rw (← same_text) (rw (← same_keys) (is_new k f, refl, refl, refl))))
