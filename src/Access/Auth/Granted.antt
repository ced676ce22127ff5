-- ===== src/Access/Auth/Granted.antt =====
-- Which requests src/api/auth.ts grants, said without its functions.
use wordclaw.Shared.{
  or_true, ℕ, ◌<◌, String, ◌≡◌, refl, sym, subst, ◌∙◌, ◌⊎◌, ◌↔◌, Bool, true, false, not, ◌&&◌,
  Option, none, some, List, [], ◌∷◌, inl, inr, Bool-cases, Option-cases, if◌then◌else◌, arith,
  first, includes, split_trimmed, ◌==◌, string_eq, eq_iff, test_refl, first-holds, and_left,
  and_right, false_ne_true, All, is_some, test_comm,
}
use mathlib.Core.Option.{none-ne-some, some-injective}
use wordclaw.Access.Identity.{build_api_key_principal}
use wordclaw.Access.Keys.{
  ApiKey, Keys, has_hash, is_live, get_api_key_by_hash, is_key_expired, expired_by, parse_scopes,
}
use wordclaw.Access.Keys.Lookup.{Distinct}
use wordclaw.Access.Auth.{
  Environment, Headers, AuthResult, success, failure, get_key, parse_api_key_config, required_scope,
  has_scope, resolve_stored_key, shown_key, authorize_api_request,
}
use wordclaw.Access.Keys.Held.{includes-parse_scopes}
use wordclaw.Access.Auth.Required.{Suffices, admin, Suffices-required, required-Suffices}
use wordclaw.Access.Auth.Grants.{authorize-stored}

abbrev pub is_granted : AuthResult → Bool
is_granted (success p) = true
is_granted (failure e) = false

abbrev may_use : ℕ → String → ApiKey → Bool
may_use now required k =
    if is_key_expired now k then false else has_scope (parse_scopes k.scopes) required

abbrev any_may_use : ℕ → String → Option ApiKey → Bool
any_may_use now required none = false
any_may_use now required (some k) = may_use now required k

abbrev pub Among : ApiKey → List ApiKey → Type 0
Among k [] = ⊥
Among k (j ∷ js) = (j ≡ k) ⊎ Among k js

-- A stored key that lets a request through at a time.
pub record Grants (hash : String) (now : ℕ) (method route_path : String) (s : Keys) : Type 0 where
  pub key : ApiKey
  pub is_stored : Among key s.rows
  pub same_hash : key.key_hash ≡ hash
  pub not_revoked : key.revoked_at ≡ none
  pub not_expired : (key.expires_at ≡ none) ⊎ ((t : ℕ) × (key.expires_at ≡ some t) × (now < t))
  pub scope : String
  pub holds : includes (split_trimmed b'|' key.scopes) scope ≡ true
  pub suffices : Suffices method route_path scope

abbrev is_found : String → ApiKey → Bool
is_found h k = has_hash h k && is_live k

apart_Among :
    (h : String) (k : ApiKey) (ks : List ApiKey)
    → All (λ j. has_hash h j ≡ false) ks
    → Among k ks
    → (k.key_hash == h) ≡ false
apart_Among h k [] none_of among = absurd among
apart_Among h k (j ∷ ks) (n, ns) (inl e) = subst (λ (i : ApiKey). (i.key_hash == h) ≡ false) e n
apart_Among h k (j ∷ ks) (n, ns) (inr among) = apart_Among h k ks ns among

-- A live key is found by its hash where hashes are distinct.
first-Among :
    (k : ApiKey) (ks : List ApiKey)
    → Distinct ks
    → Among k ks
    → is_live k ≡ true
    → first (is_found k.key_hash) ks ≡ some k
first-Among k [] distinct among live = absurd among
first-Among k (j ∷ ks) (h, hs) (inl e) live =
    subst (λ (i : ApiKey). first (is_found k.key_hash) (i ∷ ks) ≡ some k) (sym e)
      (rw (test_refl k.key_hash) (rw live refl))
first-Among k (j ∷ ks) (h, hs) (inr among) live =
    let other : (j.key_hash == k.key_hash) ≡ false =
      test_comm j.key_hash k.key_hash ∙ apart_Among j.key_hash k ks h among in
    rw other (first-Among k ks hs among live)

Among-first : (p : ApiKey → Bool) (k : ApiKey) (ks : List ApiKey) → first p ks ≡ some k → Among k ks
Among-first p k [] found = absurd (none-ne-some k found)
Among-first p k (j ∷ ks) found = elim (Bool-cases (p j)) [
  | inl e ↦ inl (some-injective j k (rw e at found))
  | inr e ↦ inr (Among-first p k ks (rw e at found))
]

live_unrevoked : (o : Option ℕ) → not (is_some o) ≡ true → o ≡ none
live_unrevoked none h = refl
live_unrevoked (some t) h = absurd (false_ne_true h)

abbrev Lasts : ℕ → Option ℕ → Type 0
Lasts now o = (o ≡ none) ⊎ ((t : ℕ) × (o ≡ some t) × (now < t))

unexpired-Lasts : (now : ℕ) (o : Option ℕ) → expired_by now o ≡ false → Lasts now o
unexpired-Lasts now none h = inl refl
unexpired-Lasts now (some t) h = inr (t, refl, ground arith)

Lasts-unexpired : (now : ℕ) (o : Option ℕ) → Lasts now o → expired_by now o ≡ false
Lasts-unexpired now o (inl e) = rw e refl
Lasts-unexpired now o (inr (t, e, h)) = rw e (ground arith)

module _ (h : String) (now : ℕ) (method route_path : String) (s : Keys) where
  may_use-Grants :
      (k : ApiKey)
      → get_api_key_by_hash h s ≡ some k
      → may_use now (required_scope method route_path) k ≡ true
      → Grants h now method route_path s
  unfolding get_api_key_by_hash is_key_expired
  may_use-Grants k found usable =
      let row = first-holds (is_found h) s.rows found in
      elim (Bool-cases (expired_by now k.expires_at)) [
        | inl e ↦ absurd (false_ne_true (rw e at usable))
        | inr e ↦ elim (Bool-cases (includes (parse_scopes k.scopes) "admin")) [
          | inl a ↦ granting k found row e "admin" a admin
          | inr a ↦
              granting k found row e (required_scope method route_path) (rw a at (rw e at usable))
                (Suffices-required method route_path)
        ]
      ]
    where
      granting :
          (k : ApiKey)
          → first (is_found h) s.rows ≡ some k
          → is_found h k ≡ true
          → expired_by now k.expires_at ≡ false
          → (scope : String) → includes (parse_scopes k.scopes) scope ≡ true
          → Suffices method route_path scope
          → Grants h now method route_path s
      granting k found row e scope held enough = record {
        key = k;
        is_stored = Among-first (is_found h) k s.rows found;
        same_hash = (eq_iff k.key_hash h).0 (and_left (has_hash h k) (is_live k) row);
        not_revoked = live_unrevoked k.revoked_at (and_right (has_hash h k) (is_live k) row);
        not_expired = unexpired-Lasts now k.expires_at e;
        scope = scope;
        holds = sym (includes-parse_scopes k.scopes scope) ∙ held;
        suffices = enough;
      }

  Grants-may_use :
      Distinct s.rows
      → Grants h now method route_path s
      → any_may_use now (required_scope method route_path) (get_api_key_by_hash h s) ≡ true
  unfolding get_api_key_by_hash is_key_expired
  Grants-may_use distinct g =
      let k = g.key in
      let live : is_live k ≡ true = rw g.not_revoked refl in
      let found : first (is_found h) s.rows ≡ some k =
        subst (λ t. first (is_found t) s.rows ≡ some k) g.same_hash
          (first-Among k s.rows distinct g.is_stored live) in
      let unexpired = Lasts-unexpired now k.expires_at g.not_expired in
      let held = includes-parse_scopes k.scopes g.scope ∙ g.holds in
      rw found (
        rw unexpired (elim (required-Suffices method route_path g.scope g.suffices) [
          | inl e ↦ rw (rw e at held) refl
          | inr e ↦ rw (rw e at held) (or_true (includes (parse_scopes k.scopes) "admin"))
        ]))

module _ (hash_api_key : String → String) where
  module _ (env : Environment) (now : ℕ) (method route_path : String) (headers : Headers)
      (key : String) (s : Keys) (shown : shown_key headers ≡ some key)
      (stored : get_key key (parse_api_key_config env.api_keys) ≡ none) where
    -- What the found key decides.
    granted_by_found :
        is_granted (authorize_api_request hash_api_key env now method route_path headers s).0
        ≡ any_may_use now
            (required_scope method route_path)
            (get_api_key_by_hash (hash_api_key key) s)
    unfolding resolve_stored_key build_api_key_principal
    granted_by_found =
        rw (authorize-stored hash_api_key env now method route_path headers key s shown stored)
          (elim (Option-cases (get_api_key_by_hash (hash_api_key key) s)) [
            | inl e ↦ rw (e, resolve_stored_key) refl
            | inr (k, e) ↦
                rw (e, resolve_stored_key)
                  (elim (Bool-cases (is_key_expired now k)) [
                    | inl f ↦ rw f refl
                    | inr f ↦
                        rw f
                          (elim (Bool-cases (
                            has_scope (parse_scopes k.scopes) (required_scope method route_path))) [
                              | inl g ↦ rw g refl
                              | inr g ↦ rw g refl
                            ])
                  ])
          ])

    -- A request that shows a key which the environment does not name is granted exactly when a stored key of its
    -- hash, where hashes are distinct, is neither revoked nor expired and has, in its text, a scope that suffices
    -- for the method and path: `admin` for all, `audit:read` for auditing and payments, and outside these
    -- and the paths of administration `content:read` for reading and `content:write` for all else.
    pub authorize_api_request-granted :
        Distinct s.rows
        → (is_granted (authorize_api_request hash_api_key env now method route_path headers s).0
            ≡ true)
          ↔ Grants (hash_api_key key) now method route_path s
    authorize_api_request-granted distinct = (
      λ granted. elim (Option-cases (get_api_key_by_hash (hash_api_key key) s)) [
        | inl e ↦ absurd (false_ne_true (rw e at (sym granted_by_found ∙ granted)))
        | inr (k, e) ↦
            may_use-Grants (hash_api_key key) now method route_path s k e
              (rw e at (sym granted_by_found ∙ granted))
      ],
      λ g. granted_by_found ∙ Grants-may_use (hash_api_key key) now method route_path s distinct g,
    )
