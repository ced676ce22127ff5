-- ===== src/Jobs/Payload.antt =====
-- src/services/jobs.ts: the parsers of a job's payload. A parser that throws gives the message; an
-- object's entries keep their order, where JavaScript puts keys that are integers first.
use wordclaw.Shared.{
  concat, ◌≡◌, refl, ◌⊎◌, inl, inr, ℕ, String, not, ◌&&◌, Option, none, some, List, [], ◌∷◌, min,
  max, if◌then◌else◌, ◌==◌, string_eq, ltb, trim, non_empty,
}
use wordclaw.Shared.Json.{Number, Json, num, str, obj, Fields, end, get, put, entries}

pub data Parsed {ℓ} (A : Type ℓ) : Type ℓ where
  thrown : String → Parsed A
  ok : A → Parsed A

pub Parsed-cases {ℓ} :
    {A : Type ℓ} (p : Parsed A) → ((e : String) × (p ≡ thrown e)) ⊎ ((a : A) × (p ≡ ok a))
Parsed-cases (thrown e) = inl (e, refl)
Parsed-cases (ok a) = inr (a, refl)

pub data JobKind : Type 0 where
  content_status_transition outbound_webhook draft_generation : JobKind

unfoldable pub parse_job_kind : String → Parsed JobKind
parse_job_kind value =
    if value == "content_status_transition"
    then ok content_status_transition
    else if value == "outbound_webhook"
    then ok outbound_webhook
    else if value == "draft_generation"
    then ok draft_generation
    else thrown (concat "Unsupported job kind '" (concat value "'."))

-- A field that is a positive integer.
unfoldable pub positive_integer : Option Json → Option ℕ
positive_integer (some (num n)) =
    if n.whole && (not n.negative && ltb 0 n.integer_part) then some n.integer_part else none
positive_integer _ = none

-- A field that is a string with more than blanks, trimmed.
unfoldable pub trimmed_text : Option Json → Option String
trimmed_text (some (str s)) = if non_empty (trim s) then some (trim s) else none
trimmed_text _ = none

abbrev pub text_field : Option Json → Option String
text_field (some (str s)) = some s
text_field _ = none

abbrev pub object_field : Option Json → Option Fields
object_field (some (obj fs)) = some fs
object_field _ = none

pub record ContentStatusTransitionPayload : Type 0 where
  pub content_item_id : ℕ
  pub target_status : String

abbrev pub transition_error : String
transition_error = "Content status transition jobs require contentItemId and targetStatus."

unfoldable pub parse_content_status_transition : Json → Parsed ContentStatusTransitionPayload
parse_content_status_transition (obj fs) = elim (positive_integer (get "contentItemId" fs)) [
  | none ↦ thrown transition_error
  | some i ↦ elim (trimmed_text (get "targetStatus" fs)) [
    | none ↦ thrown transition_error
    | some s ↦ ok (record { content_item_id = i; target_status = s })
  ]
]
parse_content_status_transition _ = thrown transition_error

pub data Source : Type 0 where
  form audit : Source

pub record OutboundWebhookPayload : Type 0 where
  pub url : String
  pub body : Fields
  pub secret : Option String
  pub headers : Option Fields
  pub timeout_ms : Option ℕ
  pub source : Source

-- The headers whose value is a string and whose name is not blank.
unfoldable pub webhook_headers : List (String × Json) → Fields → Fields
webhook_headers [] so_far = so_far
webhook_headers ((k, str v) ∷ es) so_far =
    webhook_headers es (if non_empty (trim k) then put (trim k) (str v) so_far else so_far)
webhook_headers ((k, _) ∷ es) so_far = webhook_headers es so_far

-- `Math.max(1000, Math.min(Math.trunc(timeoutMs), 15000))`.
unfoldable pub clamp_timeout : Number → ℕ
clamp_timeout n = if n.negative then 1000 else max 1000 (min n.integer_part 15000)

abbrev timeout_field : Option Json → Option ℕ
timeout_field (some (num n)) = some (clamp_timeout n)
timeout_field _ = none

abbrev source_of : Option String → Source
source_of none = audit
source_of (some s) = if s == "form" then form else audit

abbrev headers_field : Option Fields → Option Fields
headers_field none = none
headers_field (some hs) = some (webhook_headers (entries hs) end)

abbrev pub webhook_error : String
webhook_error = "Outbound webhook jobs require url and object body payload."

unfoldable pub parse_outbound_webhook : Json → Parsed OutboundWebhookPayload
parse_outbound_webhook (obj fs) = elim (text_field (get "url" fs)) [
  | none ↦ thrown webhook_error
  | some url ↦ elim (object_field (get "body" fs)) [
    | none ↦ thrown webhook_error
    | some body ↦ ok (record {
      url = url;
      body = body;
      secret = text_field (get "secret" fs);
      headers = headers_field (object_field (get "headers" fs));
      timeout_ms = timeout_field (get "timeoutMs" fs);
      source = source_of (text_field (get "source" fs));
    })
  ]
]
parse_outbound_webhook _ = thrown webhook_error
