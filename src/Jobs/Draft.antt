-- ===== src/Jobs/Draft.antt =====
-- src/services/jobs.ts: the parser of a draft generation's payload.
use wordclaw.Shared.{
  concat, ℕ, String, Bool, true, not, ◌&&◌, Option, none, some, List, [], ◌∷◌, if◌then◌else◌, ◌==◌,
  string_eq, trim, non_empty, includes, or_else,
}
use wordclaw.Shared.Json.{Json, null, arr, obj, Fields, end, get, items, entries}
use wordclaw.Jobs.Payload.{Parsed, thrown, ok, positive_integer, trimmed_text, object_field}

pub record AssetReference : Type 0 where
  pub asset_id : ℕ
  pub path : String

pub data Provider : Type 0 where
  deterministic : Provider
  openai anthropic gemini : Option String → Option String → Provider

pub record DraftGenerationPayload : Type 0 where
  pub form_id : ℕ
  pub form_slug : String
  pub intake_content_item_id : ℕ
  pub intake_data : Fields
  pub intake_asset_references : List AssetReference
  pub target_content_type_id : ℕ
  pub workforce_agent_id : Option ℕ
  pub workforce_agent_slug : Option String
  pub workforce_agent_name : Option String
  pub workforce_agent_purpose : Option String
  pub agent_soul : String
  pub field_map : List (String × String)
  pub default_data : Fields
  pub provider : Provider
  pub post_generation_workflow_transition_id : Option ℕ

unfoldable pub bind {ℓ κ} : {A : Type ℓ} {B : Type κ} → Parsed A → (A → Parsed B) → Parsed B
bind (thrown e) f = thrown e
bind (ok a) f = f a

unfoldable pub need {ℓ} : {A : Type ℓ} → String → Option A → Parsed A
need e none = thrown e
need e (some a) = ok a

-- A field that may be undefined or null, and is a positive integer otherwise.
unfoldable pub optional_id : String → Option Json → Parsed (Option ℕ)
optional_id e none = ok none
optional_id e (some null) = ok none
optional_id e (some v) = elim (positive_integer (some v)) [ none ↦ thrown e | some i ↦ ok (some i) ]

abbrev map_error : String
map_error =
    "Draft generation jobs require fieldMap entries to use non-empty string source and target field names."

-- `Object.fromEntries`: a later entry with the same key replaces the earlier one's value.
unfoldable pub assign : String → String → List (String × String) → List (String × String)
assign k v [] = (k, v) ∷ []
assign k v ((j, w) ∷ es) = let rest = (j, w) ∷ assign k v es in if j == k then (j, v) ∷ es else rest

unfoldable pub read_entries :
    List (String × Json) → List (String × String) → Parsed (List (String × String))
unfolding assign
read_entries [] so_far = ok so_far
read_entries ((k, v) ∷ es) so_far = elim (trimmed_text (some v)) [
  | none ↦ thrown map_error
  | some t ↦
      let rest = read_entries es (assign (trim k) t so_far) in
      if non_empty (trim k) then rest else thrown map_error
]

-- No value stands twice.
abbrev pub distinct : List String → Bool
distinct [] = true
distinct (x ∷ xs) = not (includes xs x) && distinct xs

abbrev pub targets : List (String × String) → List String
targets [] = []
targets ((k, v) ∷ es) = v ∷ targets es

unfoldable pub unique_targets : List (String × String) → Parsed (List (String × String))
unique_targets m =
    if distinct (targets m)
    then ok m
    else thrown "Draft generation jobs require unique target field names in fieldMap."

unfoldable pub parse_field_map : Option Json → Parsed (List (String × String))
parse_field_map none = ok []
parse_field_map (some (obj fs)) = bind (read_entries (entries fs) []) unique_targets
parse_field_map (some _) =
    thrown "Draft generation jobs require fieldMap to be an object when provided."

unfoldable pub parse_default_data : Option Json → Parsed Fields
parse_default_data none = ok end
parse_default_data (some (obj fs)) = ok fs
parse_default_data (some _) =
    thrown "Draft generation jobs require defaultData to be an object when provided."

abbrev reference_error : String
reference_error =
    "Draft generation jobs require intakeAssetReferences to be an array of { assetId, path } objects."

unfoldable pub read_reference : Json → Parsed AssetReference
read_reference (obj fs) = bind (need reference_error (positive_integer (get "assetId" fs))) (λ i.
    bind (need reference_error (trimmed_text (get "path" fs)))
      (λ p. ok (record { asset_id = i; path = p })))
read_reference _ = thrown reference_error

unfoldable pub read_references : List Json → Parsed (List AssetReference)
read_references [] = ok []
read_references (v ∷ vs) =
    bind (read_reference v) (λ r. bind (read_references vs) (λ rs. ok (r ∷ rs)))

unfoldable pub parse_references : Option Json → Parsed (List AssetReference)
parse_references none = ok []
parse_references (some (arr vs)) = read_references (items vs)
parse_references (some _) =
    thrown "Draft generation jobs require intakeAssetReferences to be an array when provided."

unfoldable pub provider_of : String → Option String → Option String → Parsed Provider
provider_of type model instructions =
    if type == "deterministic"
    then ok deterministic
    else if type == "openai"
    then ok (openai model instructions)
    else if type == "anthropic"
    then ok (anthropic model instructions)
    else if type == "gemini"
    then ok (gemini model instructions)
    else thrown (concat "Unsupported draft generation provider '" (concat type "'."))

unfoldable pub parse_provider : Option Json → Parsed Provider
parse_provider none = ok deterministic
parse_provider (some (obj fs)) =
    provider_of (or_else (trimmed_text (get "type" fs)) "deterministic")
      (trimmed_text (get "model" fs)) (trimmed_text (get "instructions" fs))
parse_provider (some _) =
    thrown "Draft generation jobs require provider to be an object when provided."

abbrev draft_error : String
draft_error =
    "Draft generation jobs require formId, formSlug, intakeContentItemId, intakeData, targetContentTypeId, and agentSoul."

unfoldable pub parse_draft_generation : Json → Parsed DraftGenerationPayload
unfolding bind need
parse_draft_generation (obj fs) =
    bind (need draft_error (positive_integer (get "formId" fs))) (λ form_id.
      bind (need draft_error (trimmed_text (get "formSlug" fs))) (λ form_slug.
        bind (need draft_error (positive_integer (get "intakeContentItemId" fs))) (λ intake_id.
          bind (need draft_error (object_field (get "intakeData" fs))) (λ intake_data.
            bind (need draft_error (positive_integer (get "targetContentTypeId" fs))) (λ target_id.
              bind (need draft_error (trimmed_text (get "agentSoul" fs))) (λ agent_soul.
                bind
                  (optional_id
                    "Draft generation jobs require workforceAgentId to be a positive integer or null."
                    (get "workforceAgentId" fs))
                  (λ workforce_agent_id.
                    bind (parse_default_data (get "defaultData" fs)) (λ default_data.
                      bind (parse_field_map (get "fieldMap" fs)) (λ field_map.
                        bind (parse_references (get "intakeAssetReferences" fs)) (λ references.
                          bind (parse_provider (get "provider" fs)) (λ provider.
                            bind
                              (optional_id
                                "Draft generation jobs require postGenerationWorkflowTransitionId to be a positive integer or null."
                                (get "postGenerationWorkflowTransitionId" fs))
                              (λ transition_id. ok (record {
                                form_id = form_id;
                                form_slug = form_slug;
                                intake_content_item_id = intake_id;
                                intake_data = intake_data;
                                intake_asset_references = references;
                                target_content_type_id = target_id;
                                workforce_agent_id = workforce_agent_id;
                                workforce_agent_slug = trimmed_text (get "workforceAgentSlug" fs);
                                workforce_agent_name = trimmed_text (get "workforceAgentName" fs);
                                workforce_agent_purpose =
                                    trimmed_text (get "workforceAgentPurpose" fs);
                                agent_soul = agent_soul;
                                field_map = field_map;
                                default_data = default_data;
                                provider = provider;
                                post_generation_workflow_transition_id = transition_id;
                              })))))))))))))
parse_draft_generation _ = thrown draft_error
