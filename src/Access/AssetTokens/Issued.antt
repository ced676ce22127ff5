-- ===== src/Access/AssetTokens/Issued.antt =====
-- Which tokens src/services/asset-access.ts accepts: those it issued, until they expire, and no token that it did not sign.
use wordclaw.Shared.{
  ℕ, ◌≤◌, String, ◌≡◌, ◌≢◌, refl, sym, ap, ◌∙◌, subst, true, false, ◌&&◌, Option, none, some, List,
  [], ◌∷◌, if◌then◌else◌, ◌==◌, nat_eq, string_eq, nat_beq_iff, eq_iff, test_refl, leb, split,
  non_empty, ℤ, pos, negsuc, arith, Bool-cases, Lacks, split-Lacks, split-concat, inl, inr,
  and_right,
}
use wordclaw.Shared.Json.{Number, get}
use wordclaw.Access.AssetTokens.{
  Runtime, Payload, accepted, invalid_asset_access_token, asset_access_token_expired, Expected,
  Request, whole_number, payload_json, read_payload, clamp_ttl, date_of, is_past, last_date,
  encode_payload, decode_payload, sign_payload, expiry, issued_payload, issue_signed_asset_access,
  check_payload, check_pieces, verify_signed_asset_access,
}

clamp_ttl_bounds : (t : ℤ) → (30 ≤ clamp_ttl t) × (clamp_ttl t ≤ 3600)
unfolding clamp_ttl
clamp_ttl_bounds (pos n) = (omega arith, omega arith)
clamp_ttl_bounds (negsuc n) = (omega arith, omega arith)

read_payload-written :
    (a d : ℕ) (n : Number)
    → 1 ≤ a
    → 1 ≤ d
    → read_payload (some (payload_json (record { asset_id = a; domain_id = d; expires_at = n })))
      ≡ some (record { asset_id = a; domain_id = d; expires_at = n })
unfolding read_payload payload_json get
read_payload-written a d n ha hd = ground arith

not_past : (n later : ℕ) → n ≤ last_date → is_past (date_of (whole_number n)) later ≡ leb n later
unfolding is_past date_of
not_past n later h = ground arith

dated : (n : ℕ) → n ≤ last_date → date_of (whole_number n) ≡ some (pos n)
unfolding date_of
dated n h = ground arith

refused_ne_accepted :
    {m : String} {a d : ℕ} {t : Option ℤ} → invalid_asset_access_token m ≢ accepted a d t
refused_ne_accepted e = ground arith

expired_ne_accepted :
    {m : String} {a d : ℕ} {t : Option ℤ} → asset_access_token_expired m ≢ accepted a d t
expired_ne_accepted e = ground arith

-- What was read is a payload of the asset and domain asked for, with the date shown, which has not passed.
pub record Current (now : ℕ) (e : Expected) (o : Option Payload) (a d : ℕ) (t : Option ℤ)
    : Type 0 where
  pub claims : Payload
  pub is_read : o ≡ some claims
  pub shows_asset : a ≡ e.asset_id
  pub shows_domain : d ≡ e.domain_id
  pub of_asset : claims.asset_id ≡ e.asset_id
  pub of_domain : claims.domain_id ≡ e.domain_id
  pub shows_date : t ≡ date_of claims.expires_at
  pub has_time : is_past t now ≡ false

-- The pieces are a payload and its signature, and nothing else.
pub record Signed (rt : Runtime) (now : ℕ) (e : Expected) (pieces : List String) (a d : ℕ)
    (t : Option ℤ) : Type 0 where
  pub payload : String
  pub has_signature : pieces ≡ payload ∷ rt.hmac rt.signing_secret payload ∷ []
  pub current : Current now e (decode_payload rt payload) a d t

module _ (rt : Runtime) where
  pieces_issued :
      (now : ℕ) (r : Request)
      → Lacks b'.' (encode_payload rt (issued_payload rt now r))
      → Lacks b'.' (sign_payload rt (encode_payload rt (issued_payload rt now r)))
      → split b'.' (issue_signed_asset_access rt now r).token
        ≡ encode_payload rt (issued_payload rt now r)
          ∷ sign_payload rt (encode_payload rt (issued_payload rt now r))
          ∷ []
  unfolding issue_signed_asset_access
  pieces_issued now r h k =
      split-concat "." _ _ h refl
      ∙ ap (λ s. encode_payload rt (issued_payload rt now r) ∷ s) (split-Lacks b'.' _ k)

  decoded_issued :
      (now : ℕ) (r : Request)
      → 1 ≤ r.asset_id
      → 1 ≤ r.domain_id
      → rt.parse (rt.stringify (payload_json (issued_payload rt now r)))
        ≡ some (payload_json (issued_payload rt now r))
      → rt.from_base64url (rt.to_base64url (rt.stringify (payload_json (issued_payload rt now r))))
        ≡ rt.stringify (payload_json (issued_payload rt now r))
      → decode_payload rt (encode_payload rt (issued_payload rt now r))
        ≡ some (issued_payload rt now r)
  unfolding decode_payload encode_payload
  decoded_issued now r ha hd parsed decoded =
      ap (λ s. read_payload (rt.parse s)) decoded
      ∙ ap read_payload parsed
      ∙ read_payload-written r.asset_id r.domain_id (whole_number (expiry rt now r)) ha hd

  -- A token that is issued is accepted for its asset and domain before it expires, with its expiry, and
  -- refused as expired from then on, where JSON and base64url give back the payload, the two parts of the token
  -- are not empty and without a dot, the ids are not zero and the expiry is a date.
  pub verify-issued :
      (now later : ℕ) (r : Request)
      → 1 ≤ r.asset_id
      → 1 ≤ r.domain_id
      → expiry rt now r ≤ last_date
      → rt.parse (rt.stringify (payload_json (issued_payload rt now r)))
        ≡ some (payload_json (issued_payload rt now r))
      → rt.from_base64url (rt.to_base64url (rt.stringify (payload_json (issued_payload rt now r))))
        ≡ rt.stringify (payload_json (issued_payload rt now r))
      → Lacks b'.' (encode_payload rt (issued_payload rt now r))
      → Lacks b'.' (sign_payload rt (encode_payload rt (issued_payload rt now r)))
      → non_empty (encode_payload rt (issued_payload rt now r)) ≡ true
      → non_empty (sign_payload rt (encode_payload rt (issued_payload rt now r))) ≡ true
      → verify_signed_asset_access rt later
          (issue_signed_asset_access rt now r).token
          (record { asset_id = r.asset_id; domain_id = r.domain_id })
        ≡ (if leb (expiry rt now r) later
            then asset_access_token_expired
                "Issue a new token via POST /api/assets/:id/access or issue_asset_access and retry the asset read."
            else accepted r.asset_id r.domain_id (some (pos (expiry rt now r))))
  unfolding verify_signed_asset_access check_pieces check_payload
  verify-issued now later r ha hd dates parsed decoded lacks lacks' full full' =
      rw (pieces_issued now r lacks lacks') (
        rw full (
          rw full' (
            rw (test_refl (sign_payload rt (encode_payload rt (issued_payload rt now r)))) (
              rw (decoded_issued now r ha hd parsed decoded) (
                rw (test_refl r.asset_id) (
                  rw (test_refl r.domain_id) (
                    rw (not_past (expiry rt now r) later dates)
                      (rw (dated (expiry rt now r) dates) refl))))))))

  accepted_payload :
      (now : ℕ) (e : Expected) (o : Option Payload) (a d : ℕ) (t : Option ℤ)
      → check_payload rt now e o ≡ accepted a d t
      → Current now e o a d t
  unfolding check_payload
  accepted_payload now e none a d t h = absurd (ground arith)
  accepted_payload now e (some p) a d t h = elim (Bool-cases (p.asset_id == e.asset_id)) [
    | inr f ↦ absurd (refused_ne_accepted (rw f at h))
    | inl f ↦ elim (Bool-cases (p.domain_id == e.domain_id)) [
      | inr g ↦ absurd (refused_ne_accepted (rw g at (rw f at h)))
      | inl g ↦ elim (Bool-cases (is_past (date_of p.expires_at) now)) [
        | inl k ↦ absurd (expired_ne_accepted (rw k at (rw g at (rw f at h))))
        | inr k ↦
            let same_asset : p.asset_id ≡ e.asset_id = (nat_beq_iff p.asset_id e.asset_id).0 f in
            let same_domain : p.domain_id ≡ e.domain_id =
              (nat_beq_iff p.domain_id e.domain_id).0 g in
            let same : accepted p.asset_id p.domain_id (date_of p.expires_at) ≡ accepted a d t =
              rw k at (rw g at (rw f at h)) in
            let asset : p.asset_id ≡ a = cc in
            let domain : p.domain_id ≡ d = cc in
            let date : date_of p.expires_at ≡ t = cc in
            record {
              claims = p;
              is_read = refl;
              shows_asset = sym asset ∙ same_asset;
              shows_domain = sym domain ∙ same_domain;
              of_asset = same_asset;
              of_domain = same_domain;
              shows_date = sym date;
              has_time = subst (λ x. is_past x now ≡ false) date k;
            }
      ]
    ]
  ]

  accepted_pieces :
      (now : ℕ) (e : Expected) (pieces : List String) (a d : ℕ) (t : Option ℤ)
      → check_pieces rt now e pieces ≡ accepted a d t
      → Signed rt now e pieces a d t
  unfolding check_pieces
  accepted_pieces now e [] a d t h = absurd (ground arith)
  accepted_pieces now e (x ∷ []) a d t h = absurd (ground arith)
  accepted_pieces now e (x ∷ y ∷ z ∷ pieces) a d t h = absurd (ground arith)
  accepted_pieces now e (x ∷ y ∷ []) a d t h =
      elim (Bool-cases (non_empty x && non_empty y && y == sign_payload rt x)) [
        | inr f ↦ absurd (refused_ne_accepted (rw f at h))
        | inl f ↦
            let signed : (y == sign_payload rt x) ≡ true =
              and_right (non_empty x && non_empty y) _ f in
            record {
              payload = x;
              has_signature = ap (λ s. x ∷ s ∷ []) ((eq_iff y (sign_payload rt x)).0 signed);
              current = accepted_payload now e (decode_payload rt x) a d t (rw f at h);
            }
      ]

  -- A token is accepted only for the asset and the domain that it was asked for, where its first part is a
  -- payload of that asset and domain whose date has not passed, and its second part is the signature of the first.
  pub accepted-Signed :
      (now : ℕ) (token : String) (e : Expected) (a d : ℕ) (t : Option ℤ)
      → verify_signed_asset_access rt now token e ≡ accepted a d t
      → Signed rt now e (split b'.' token) a d t
  unfolding verify_signed_asset_access
  accepted-Signed now token e a d t h = accepted_pieces now e (split b'.' token) a d t h
