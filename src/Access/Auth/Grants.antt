-- ===== src/Access/Auth/Grants.antt =====
-- Requests of src/api/auth.ts with revoked and rotated keys, by the table of src/services/api-key.ts.
use wordclaw.Shared.{ℕ, ◌≤◌, String, ◌≡◌, refl, ◌∙◌, true, Option, none, some, List, arith}
use wordclaw.Access.Keys.{
  ApiKey, Keys, rotated, get_api_key_by_hash, is_key_expired, expired_by, revoke_api_key,
  rotate_api_key,
}
use wordclaw.Access.Keys.Lookup.{Distinct}
use wordclaw.Access.Keys.History.{KeyOp, apply_ops, revoked_stays_out}
use wordclaw.Access.Keys.Rotation.{rotate_api_key-passes_on}
use wordclaw.Access.Auth.{
  Environment, Headers, failure, get_key, parse_api_key_config, required_scope, invalid_key,
  expired_key, resolve_stored_key, resolve_principal_from_key, shown_key, check_scope,
  authorize_api_request,
}

still_by :
    (now later : ℕ) (o : Option ℕ)
    → now ≤ later
    → expired_by now o ≡ true
    → expired_by later o ≡ true
still_by now later none after h = h
still_by now later (some t) after h = ground arith

still_expired :
    (now later : ℕ) (old new : ApiKey)
    → new.expires_at ≡ old.expires_at
    → now ≤ later
    → is_key_expired now old ≡ true
    → is_key_expired later new ≡ true
unfolding is_key_expired
still_expired now later old new same after h = rw same (still_by now later old.expires_at after h)

module _ (hash_api_key : String → String) where
  module _ (env : Environment) (now : ℕ) (method route_path : String) (headers : Headers)
      (key : String) (s : Keys) (shown : shown_key headers ≡ some key)
      (stored : get_key key (parse_api_key_config env.api_keys) ≡ none) where
    pub authorize-stored :
        authorize_api_request hash_api_key env now method route_path headers s
        ≡ check_scope (required_scope method route_path) (resolve_stored_key hash_api_key now key s)
    unfolding authorize_api_request resolve_principal_from_key
    authorize-stored =
        rw (shown, authorize_api_request) (rw (stored, resolve_principal_from_key) refl)

  -- Once a stored key that the environment does not name is revoked, each request that shows it is refused as showing an invalid key and changes
  -- nothing, whatever was done to the keys in between.
  pub revoked_key_refused :
      (env : Environment) (now later : ℕ) (method route_path : String) (headers : Headers)
      (key : String) (s : Keys) (os : List KeyOp) (k : ApiKey)
      → shown_key headers ≡ some key
      → get_key key (parse_api_key_config env.api_keys) ≡ none
      → Distinct s.rows
      → get_api_key_by_hash (hash_api_key key) s ≡ some k
      → authorize_api_request hash_api_key env later method route_path headers
          (apply_ops hash_api_key os (revoke_api_key now k.id k.domain_id s).1)
        ≡ (failure invalid_key, apply_ops hash_api_key os (revoke_api_key now k.id k.domain_id s).1)
  unfolding resolve_stored_key
  revoked_key_refused env now later method route_path headers key s os k shown stored distinct
        found =
      authorize-stored env later method route_path headers key _ shown stored
      ∙ rw
          (
            revoked_stays_out hash_api_key (hash_api_key key) now os s k distinct found,
            resolve_stored_key,
          )
          refl

  -- A key that has expired is replaced, in a rotation that succeeds, by a key that is refused as expired from
  -- then on.
  pub rotated_expired :
      (now later id domain_id : ℕ) (plaintext shown : String) (actor_id : Option ℕ) (s s' : Keys)
      (old new : ApiKey)
      → rotate_api_key hash_api_key now plaintext id domain_id actor_id s
        ≡ (rotated old new shown, s')
      → is_key_expired now old ≡ true
      → now ≤ later
      → resolve_stored_key hash_api_key later shown s' ≡ (failure (expired_key new), s')
  unfolding resolve_stored_key
  rotated_expired now later id domain_id plaintext shown actor_id s s' old new done expired after =
      let (found, same_domain, same_scopes, same_expiry) =
        rotate_api_key-passes_on hash_api_key now id domain_id plaintext shown actor_id s s' old new
          done in
      rw (found, resolve_stored_key)
        (rw (still_expired now later old new same_expiry after expired) refl)
