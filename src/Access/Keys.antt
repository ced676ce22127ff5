-- ===== src/Access/Keys.antt =====
-- src/services/api-key.ts: the scopes and the table of API keys. The hash of a key and the random text of a new
-- one are arguments, and the list of keys for display is left out; `slice` counts code points.
pub mod Scopes
pub mod Held
pub mod Lookup
pub mod History
pub mod Rotation
use wordclaw.Shared.{
  ℕ, suc, zero, ◌+◌, String, concat, Bool, true, false, not, ◌&&◌, Option, none, some, List, [],
  ◌∷◌, ◌++◌, if◌then◌else◌, ◌==◌, string_eq, nat_eq, leb, or_opt, is_some, includes, any, first,
  update, split_trimmed, trimmed_pieces, keep,
}
use Prim.Native.String.{[] as nil_text, ◌∷◌ as cons_text}

abbrev pub allowed_scopes : List String
allowed_scopes = "content:read" ∷ "content:write" ∷ "audit:read" ∷ "admin" ∷ []

-- `new Set(xs)`, in insertion order.
unfoldable pub distinct_from : List String → List String → List String
distinct_from so_far [] = so_far
distinct_from so_far (x ∷ xs) =
    distinct_from (if includes so_far x then so_far else so_far ++ x ∷ []) xs

unfoldable pub parse_scopes : String → List String
parse_scopes scopes_text = distinct_from [] (split_trimmed b'|' scopes_text)

pub data ScopesResult : Type 0 where
  valid_scopes : List String → ScopesResult
  invalid_scopes : List String → ScopesResult

abbrev is_unknown : String → Bool
is_unknown s = not (includes allowed_scopes s)

abbrev pub unless_invalid : List String → List String → ScopesResult
unless_invalid unique [] = valid_scopes unique
unless_invalid unique (s ∷ ss) = invalid_scopes (s ∷ ss)

unfoldable pub normalize_scopes : List String → ScopesResult
normalize_scopes scopes =
    let unique = distinct_from [] (trimmed_pieces scopes) in
    unless_invalid unique (keep is_unknown unique)

-- `join('|')`.
unfoldable pub join_scopes : List String → String
join_scopes [] = ""
join_scopes (s ∷ []) = s
join_scopes (s ∷ t ∷ ss) = concat s (cons_text "|" (join_scopes (t ∷ ss)))

pub record ApiKey : Type 0 where
  pub id : ℕ
  pub domain_id : ℕ
  pub name : String
  pub key_prefix : String
  pub key_hash : String
  pub scopes : String
  pub created_by : Option ℕ
  pub created_at : ℕ
  pub expires_at : Option ℕ
  pub revoked_at : Option ℕ
  pub last_used_at : Option ℕ

pub record Keys : Type 0 where
  pub rows : List ApiKey
  pub next_id : ℕ

take_text : ℕ → String → String
take_text n nil_text = nil_text
take_text zero (cons_text c s) = nil_text
take_text (suc n) (cons_text c s) = cons_text c (take_text n s)

unfoldable pub api_key_prefix : String → String
unfolding take_text
api_key_prefix raw_key = take_text 12 raw_key

abbrev pub expired_by : ℕ → Option ℕ → Bool
expired_by now none = false
expired_by now (some t) = leb t now

unfoldable pub is_key_expired : ℕ → ApiKey → Bool
is_key_expired now k = expired_by now k.expires_at

abbrev pub is_live : ApiKey → Bool
is_live k = not (is_some k.revoked_at)

abbrev pub has_hash : String → ApiKey → Bool
has_hash h k = k.key_hash == h

-- `keyHash` is unique.
abbrev pub insert_key : ApiKey → Keys → Option (ApiKey × Keys)
insert_key k s =
    if any (has_hash k.key_hash) s.rows
    then none
    else some (k, record s { rows = s.rows ++ k ∷ []; next_id = s.next_id + 1 })

pub record CreateApiKeyInput : Type 0 where
  pub domain_id : ℕ
  pub name : String
  pub scopes : List String
  pub created_by : Option ℕ
  pub expires_at : Option ℕ

pub data CreateKeyResult : Type 0 where
  bad_scopes : List String → CreateKeyResult
  duplicate_hash : CreateKeyResult
  key_created : ApiKey → String → CreateKeyResult

abbrev pub live_key : ℕ → ℕ → ApiKey → Bool
live_key id domain_id k = k.id == id && k.domain_id == domain_id && is_live k

abbrev pub revoked : ℕ → ApiKey → ApiKey
revoked now k = record k { revoked_at = some now }

pub data RotateResult : Type 0 where
  no_key : RotateResult
  rotation_failed : RotateResult
  rotated : ApiKey → ApiKey → String → RotateResult

unfoldable pub get_api_key_by_hash : String → Keys → Option ApiKey
get_api_key_by_hash h s = first (λ k. has_hash h k && is_live k) s.rows

unfoldable pub touch_api_key_usage : ℕ → ℕ → Keys → Keys
touch_api_key_usage now id s = record s {
  rows = update (λ k. k.id == id) (λ k. record k { last_used_at = some now }) s.rows;
}

-- The first row that the update returns, and the rows after it.
unfoldable pub revoke_api_key : ℕ → ℕ → ℕ → Keys → Option ApiKey × Keys
revoke_api_key now id domain_id s = elim (first (live_key id domain_id) s.rows) [
  | none ↦ (none, s)
  | some k ↦ (
    some (revoked now k),
    record s { rows = update (live_key id domain_id) (revoked now) s.rows },
  )
]

module _ (hash_api_key : String → String) where
  unfoldable pub new_key : ℕ → CreateApiKeyInput → String → List String → ℕ → ApiKey
  new_key now input plaintext scopes id = record {
    id = id;
    domain_id = input.domain_id;
    name = input.name;
    key_prefix = api_key_prefix plaintext;
    key_hash = hash_api_key plaintext;
    scopes = join_scopes scopes;
    created_by = input.created_by;
    created_at = now;
    expires_at = input.expires_at;
    revoked_at = none;
    last_used_at = none;
  }

  -- `plaintext` is the random text of the new key.
  unfoldable pub create_api_key : ℕ → String → CreateApiKeyInput → Keys → CreateKeyResult × Keys
  create_api_key now plaintext input s = elim (normalize_scopes input.scopes) [
    | invalid_scopes bad ↦ (bad_scopes bad, s)
    | valid_scopes scopes ↦ elim (insert_key (new_key now input plaintext scopes s.next_id) s) [
      | none ↦ (duplicate_hash, s)
      | some (k, s') ↦ (key_created k plaintext, s')
    ]
  ]

  unfoldable pub successor : ℕ → String → Option ℕ → ApiKey → ℕ → ApiKey
  successor now plaintext actor_id k id = record {
    id = id;
    domain_id = k.domain_id;
    name = concat k.name " (rotated)";
    key_prefix = api_key_prefix plaintext;
    key_hash = hash_api_key plaintext;
    scopes = k.scopes;
    created_by = or_opt actor_id k.created_by;
    created_at = now;
    expires_at = k.expires_at;
    revoked_at = none;
    last_used_at = none;
  }

  -- One transaction: where the insert fails, the revocation is undone.
  unfoldable pub rotate_api_key : ℕ → String → ℕ → ℕ → Option ℕ → Keys → RotateResult × Keys
  rotate_api_key now plaintext id domain_id actor_id s =
      elim (first (live_key id domain_id) s.rows) [
        | none ↦ (no_key, s)
        | some k ↦
            let s' = record s { rows = update (λ (j : ApiKey). j.id == id) (revoked now) s.rows } in
            elim (insert_key (successor now plaintext actor_id k s.next_id) s') [
              | none ↦ (rotation_failed, s)
              | some (k', s'') ↦ (rotated k k' plaintext, s'')
            ]
      ]
