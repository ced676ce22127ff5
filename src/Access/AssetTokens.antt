-- ===== src/Access/AssetTokens.antt =====
-- src/services/asset-access.ts: the signed tokens that let a browser read an asset. JSON, base64url and the
-- keyed hash of node:crypto are fields of an argument; two buffers are compared as the texts they stand for. Times
-- are milliseconds, and a time to live is a whole number of seconds.
pub mod Issued
use wordclaw.Shared.{
  ℕ, ◌+◌, ◌-◌, ◌*◌, min, max, String, concat, Bool, true, false, not, ◌&&◌, ◌||◌, Option, none,
  some, List, [], ◌∷◌, if◌then◌else◌, ◌==◌, nat_eq, string_eq, ltb, leb, or_else, split, non_empty,
  ℤ, pos, negsuc, leb_ℤ,
}
use Prim.Native.String.{◌∷◌ as cons_text}
use wordclaw.Shared.Json.{Number, Json, num, str, obj, Fields, end, field, get}

-- `SignedAssetTokenPayload`, less its two constant fields.
pub record Payload : Type 0 where
  pub asset_id : ℕ
  pub domain_id : ℕ
  pub expires_at : Number

-- A `Date`: `none` is an invalid one.
pub data Verified : Type 0 where
  accepted : ℕ → ℕ → Option ℤ → Verified
  invalid_asset_access_token asset_access_token_expired : String → Verified

pub record Expected : Type 0 where
  pub asset_id : ℕ
  pub domain_id : ℕ

pub record Request : Type 0 where
  pub asset_id : ℕ
  pub domain_id : ℕ
  pub ttl_seconds : Option ℤ

pub record Issue : Type 0 where
  pub token : String
  pub expires_at : ℕ
  pub ttl_seconds : ℕ

abbrev pub whole_number : ℕ → Number
whole_number n = record { negative = false; integer_part = n; whole = true }

-- What `JSON.stringify` is given.
unfoldable pub payload_json : Payload → Json
payload_json p = obj (
    field "version" (num (whole_number 1)) (
      field "assetId" (num (whole_number p.asset_id)) (
        field "domainId" (num (whole_number p.domain_id))
          (field "accessMode" (str "signed") (field "expiresAt" (num p.expires_at) end)))))

-- `typeof x === 'number' && Number.isInteger(x) && x > 0`.
abbrev positive_integer : Option Json → Option ℕ
positive_integer (some (num n)) =
    if n.whole && not n.negative && leb 1 n.integer_part then some n.integer_part else none
positive_integer _ = none

abbrev number_field : Option Json → Option Number
number_field (some (num n)) = some n
number_field _ = none

abbrev is_version : Option Json → Bool
is_version (some (num n)) = n.whole && not n.negative && n.integer_part == 1
is_version _ = false

abbrev is_signed_mode : Option Json → Bool
is_signed_mode (some (str s)) = s == "signed"
is_signed_mode _ = false

abbrev payload_of : Option ℕ → Option ℕ → Option Number → Option Payload
payload_of (some a) (some d) (some n) =
    some (record { asset_id = a; domain_id = d; expires_at = n })
payload_of _ _ _ = none

-- A value that is no object has none of the fields, or throws where they are read.
unfoldable pub read_payload : Option Json → Option Payload
read_payload (some (obj fs)) =
    if is_version (get "version" fs) && is_signed_mode (get "accessMode" fs)
    then payload_of (positive_integer (get "assetId" fs)) (positive_integer (get "domainId" fs))
        (number_field (get "expiresAt" fs))
    else none
read_payload _ = none

-- `Math.max(30, Math.min(ttl, 3600))`.
unfoldable pub clamp_ttl : ℤ → ℕ
clamp_ttl (pos n) = max 30 (min n 3600)
clamp_ttl (negsuc n) = 30

-- The last millisecond that a `Date` has.
abbrev pub last_date : ℕ
last_date = 8640000000000000

-- `new Date(n)`: the fraction is cut off.
unfoldable pub date_of : Number → Option ℤ
date_of n =
    if leb n.integer_part last_date
    then some (
        if n.negative && leb 1 n.integer_part
        then negsuc (n.integer_part - 1)
        else pos n.integer_part)
    else none

-- `date.getTime() <= now`: an invalid date gives NaN.
unfoldable pub is_past : Option ℤ → ℕ → Bool
is_past none now = false
is_past (some t) now = leb_ℤ t (pos now)

-- The functions of the runtime that the code calls, and its two settings.
pub record Runtime : Type 0 where
  pub stringify : Json → String
  pub parse : String → Option Json
  pub to_base64url : String → String
  pub from_base64url : String → String
  pub hmac : String → String → String
  pub signing_secret : String
  pub default_ttl_seconds : ℤ

module _ (rt : Runtime) where
  unfoldable pub encode_payload : Payload → String
  encode_payload p = rt.to_base64url (rt.stringify (payload_json p))

  unfoldable pub decode_payload : String → Option Payload
  decode_payload s = read_payload (rt.parse (rt.from_base64url s))

  abbrev pub sign_payload : String → String
  sign_payload s = rt.hmac rt.signing_secret s

  unfoldable pub expiry : ℕ → Request → ℕ
  unfolding clamp_ttl
  expiry now r = now + clamp_ttl (or_else r.ttl_seconds rt.default_ttl_seconds) * 1000

  abbrev pub issued_payload : ℕ → Request → Payload
  issued_payload now r = record {
    asset_id = r.asset_id;
    domain_id = r.domain_id;
    expires_at = whole_number (expiry now r);
  }

  unfoldable pub issue_signed_asset_access : ℕ → Request → Issue
  issue_signed_asset_access now r =
      let payload : String = encode_payload (issued_payload now r) in
      record {
        token = concat payload (cons_text "." (sign_payload payload));
        expires_at = expiry now r;
        ttl_seconds = clamp_ttl (or_else r.ttl_seconds rt.default_ttl_seconds);
      }

  unfoldable pub check_payload : ℕ → Expected → Option Payload → Verified
  check_payload now e none =
      invalid_asset_access_token
        "Provide a token that matches the requested signed asset and active domain."
  check_payload now e (some p) =
      if not (p.asset_id == e.asset_id) || not (p.domain_id == e.domain_id)
      then invalid_asset_access_token
          "Provide a token that matches the requested signed asset and active domain."
      else if is_past (date_of p.expires_at) now
      then asset_access_token_expired
          "Issue a new token via POST /api/assets/:id/access or issue_asset_access and retry the asset read."
      else accepted p.asset_id p.domain_id (date_of p.expires_at)

  abbrev malformed_token : Verified
  malformed_token =
      invalid_asset_access_token
        "Provide a valid signed asset token issued by POST /api/assets/:id/access or issue_asset_access."

  unfoldable pub check_pieces : ℕ → Expected → List String → Verified
  check_pieces now e (payload ∷ signature ∷ []) =
      if non_empty payload && non_empty signature && signature == sign_payload payload
      then check_payload now e (decode_payload payload)
      else malformed_token
  check_pieces now e _ = malformed_token

  unfoldable pub verify_signed_asset_access : ℕ → String → Expected → Verified
  verify_signed_asset_access now token e = check_pieces now e (split b'.' token)
