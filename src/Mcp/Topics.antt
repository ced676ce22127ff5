-- ===== src/Mcp/Topics.antt =====
-- src/mcp/reactive-events.ts: the topics of events, and who may subscribe to them.
use wordclaw.Shared.{
  String, concat, Bool, true, false, ◌||◌, List, [], ◌∷◌, Option, none, some, if◌then◌else◌, ◌==◌,
  string_eq, includes, starts_with, first,
}
use wordclaw.Access.Identity.{ActorPrincipal, as_principal_like, has_administrative_scope}

abbrev pub supported_topics : List String
supported_topics =
    "*" ∷ "audit.*" ∷ "content_item.*" ∷ "content_item.create" ∷ "content_item.update"
    ∷ "content_item.delete" ∷ "content_item.rollback" ∷ "content_item.approved"
    ∷ "content_item.published" ∷ "workflow.review.approved" ∷ "workflow.review.rejected"
    ∷ "content_type.*" ∷ "content_type.create" ∷ "content_type.update" ∷ "content_type.delete"
    ∷ "api_key.*" ∷ "api_key.create" ∷ "api_key.update" ∷ "api_key.delete" ∷ "webhook.*"
    ∷ "webhook.create" ∷ "webhook.update" ∷ "webhook.delete" ∷ "ai_provider_config.*"
    ∷ "ai_provider_config.create" ∷ "ai_provider_config.update" ∷ "ai_provider_config.delete"
    ∷ "workforce_agent.*" ∷ "workforce_agent.create" ∷ "workforce_agent.update"
    ∷ "workforce_agent.delete" ∷ []

unfoldable pub is_reactive_topic_supported : String → Bool
is_reactive_topic_supported topic = includes supported_topics topic

abbrev pub has_scope : ActorPrincipal → String → Bool
has_scope p scope = includes p.scopes "admin" || includes p.scopes scope

abbrev pub matches_topic_family : String → String → Bool
matches_topic_family topic family =
    topic == concat family ".*" || starts_with topic (concat family ".")

-- What `canSubscribeToReactiveTopic` asks for, by the topic.
pub data Permission : Type 0 where
  admin_only audit_reader content_reader administrative forbidden : Permission

unfoldable pub permission_of : String → Permission
permission_of topic =
    if topic == "*"
    then admin_only
    else if topic == "audit.*"
    then audit_reader
    else if matches_topic_family topic "content_item"
        || (matches_topic_family topic "content_type" || starts_with topic "workflow.review.")
    then content_reader
    else if matches_topic_family topic "api_key"
        || (matches_topic_family topic "webhook"
            || (matches_topic_family topic "ai_provider_config"
                || matches_topic_family topic "workforce_agent"))
    then administrative
    else forbidden

unfoldable pub holds : ActorPrincipal → Permission → Bool
holds p admin_only = includes p.scopes "admin"
holds p audit_reader = has_scope p "audit:read"
holds p content_reader = has_scope p "content:read" || has_scope p "content:write"
holds p administrative = has_administrative_scope (as_principal_like p)
holds p forbidden = false

unfoldable pub can_subscribe_to_reactive_topic : ActorPrincipal → String → Bool
can_subscribe_to_reactive_topic p topic = holds p (permission_of topic)

abbrev pub priority : List String
priority =
    "workflow.review.approved" ∷ "workflow.review.rejected" ∷ "content_item.published"
    ∷ "content_item.approved" ∷ []

abbrev first_or : List String → String → String
first_or [] t = t
first_or (x ∷ xs) t = x

abbrev is_specific : String → Bool
is_specific topic =
    if topic == "audit.*" then false else if topic == "content_item.*" then false else true

abbrev or_topic : Option String → String → String
or_topic none t = t
or_topic (some s) t = s

unfoldable pub select_canonical_reactive_topic : List String → String
select_canonical_reactive_topic topics =
    or_topic (first (λ t. includes topics t) priority)
      (or_topic (first is_specific topics) (first_or topics "audit.*"))
