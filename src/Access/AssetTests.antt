-- ===== src/Access/AssetTests.antt =====
-- Tokens of src/services/asset-access.ts at concrete inputs, with a codec for one payload.
use wordclaw.Shared.{
  concat, ◌≡◌, refl, none, some, if◌then◌else◌, ◌==◌, string_eq, arith, pos, split, non_empty,
}
use wordclaw.Shared.Json.{get}
use wordclaw.Access.AssetTokens.{
  Runtime, Payload, Request, Expected, invalid_asset_access_token, asset_access_token_expired,
  payload_json, read_payload, whole_number, clamp_ttl, expiry, date_of, is_past, encode_payload,
  decode_payload, issue_signed_asset_access, check_payload, check_pieces,
  verify_signed_asset_access,
}
use wordclaw.Access.AssetTokens.Issued.{Signed, verify-issued, accepted-Signed}

abbrev request : Request
request = record { asset_id = 7; domain_id = 2; ttl_seconds = some (pos 10) }

abbrev the_payload : Payload
the_payload = record { asset_id = 7; domain_id = 2; expires_at = whole_number 31000 }

abbrev node : Runtime
node = record {
  stringify = λ j. "payload";
  parse = λ s. if s == "payload" then some (payload_json the_payload) else none;
  to_base64url = λ s. s;
  from_base64url = λ s. s;
  hmac = λ k s. concat k s;
  signing_secret = "key-";
  default_ttl_seconds = pos 300;
}

abbrev asked : Expected
asked = record { asset_id = 7; domain_id = 2 }

issues : (issue_signed_asset_access node 1000 request).token ≡ "payload.key-payload"
unfolding issue_signed_asset_access encode_payload
issues = refl

other_asset :
    verify_signed_asset_access node 2000 "payload.key-payload"
      (record { asset_id = 8; domain_id = 2 })
    ≡ invalid_asset_access_token
        "Provide a token that matches the requested signed asset and active domain."
unfolding verify_signed_asset_access check_pieces check_payload decode_payload read_payload
    payload_json get split non_empty
other_asset = refl

verify-issued_example :
    verify_signed_asset_access node 31000 (issue_signed_asset_access node 1000 request).token asked
    ≡ asset_access_token_expired
        "Issue a new token via POST /api/assets/:id/access or issue_asset_access and retry the asset read."
unfolding expiry clamp_ttl payload_json encode_payload non_empty
verify-issued_example =
    verify-issued node 1000 31000 request (omega arith) (omega arith) (omega arith) refl refl
      (refl, (refl, (refl, (refl, (refl, (refl, (refl, tt)))))))
      (refl, (refl, (refl, (refl, (refl, (refl, (refl, (refl, (refl, (refl, (refl, tt)))))))))))
      refl refl

accepted-Signed_example :
    Signed node 2000 asked (split b'.' "payload.key-payload") 7 2 (some (pos 31000))
unfolding verify_signed_asset_access check_pieces check_payload decode_payload read_payload
    payload_json get split non_empty date_of is_past
accepted-Signed_example =
    accepted-Signed node 2000 "payload.key-payload" asked 7 2 (some (pos 31000)) refl
