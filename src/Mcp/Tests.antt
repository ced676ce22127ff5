-- ===== src/Mcp/Tests.antt =====
-- Sessions of src/mcp/http-session-manager.ts at concrete inputs. `JSON.parse` knows one text.
use wordclaw.Shared.{
  ℕ, String, true, false, Option, none, some, List, [], ◌∷◌, ◌≡◌, refl, not, ◌||◌, if◌then◌else◌,
  ◌==◌, string_eq, includes, trim, non_empty, trimmed_pieces,
}
use wordclaw.Shared.Json.{Json, obj, str, field, end, get}
use wordclaw.Access.Identity.{
  build_api_key_principal, as_principal_like, has_administrative_scope, normalize_principal_scopes,
}
use wordclaw.Access.Keys.{distinct_from}
use wordclaw.Mcp.Topics.{
  is_reactive_topic_supported, can_subscribe_to_reactive_topic, permission_of, holds,
  select_canonical_reactive_topic,
}
use wordclaw.Mcp.Matching.{
  AuditEvent, Filters, Subscription, is_same_reactive_subscription, parse_audit_event_details,
  item_topics, derive_reactive_topics, passes_filters, matches_reactive_subscription,
}
use wordclaw.Mcp.Session.{
  Session, Notification, subscribe, subscribe_all, subscribe_topic, publish_audit_event,
  build_reactive_event_notification,
}
use wordclaw.Mcp.Permitted.{IsSound, subscribe_often, subscribe_often-IsSound}
use wordclaw.Mcp.Guards.{administrative_types, may_administer_or_audit}
use wordclaw.Mcp.Delivery.{publish_audit_event-guarded}

abbrev parse : String → Option Json
parse s = if s == "published" then some (obj (field "status" (str "published") end)) else none

abbrev number_of : String → Option ℕ
number_of s = none

abbrev any_event : Filters
any_event = record {
  entity_type = none;
  entity_id = none;
  action = none;
  content_type_id = none;
  status = none;
  decision = none;
  actor_id = none;
  actor_type = none;
  workflow_transition_id = none;
  review_task_id = none;
}

abbrev reader : Session
reader = record {
  ref = 1;
  principal = build_api_key_principal 3 2 ("content:read" ∷ "audit:read" ∷ []);
  subscriptions = [];
}

abbrev event : AuditEvent
event = record {
  id = 8;
  domain_id = 2;
  action = "update";
  entity_type = "content_item";
  entity_id = 4;
  user_id = none;
  actor_id = none;
  actor_type = none;
  actor_source = none;
  details = some "published";
  created_at = 1;
}

abbrev key_event : AuditEvent
key_event = record event { entity_type = "api_key"; action = "create"; details = none }

abbrev topics_of : List Subscription → List String
topics_of [] = []
topics_of (s ∷ ss) = s.topic ∷ topics_of ss

subscribed :
    topics_of
      (subscribe
        (" content_item.*" ∷ "api_key.*" ∷ "audit.*" ∷ "nothing" ∷ [])
        false
        any_event
        reader).0.subscriptions
    ≡ "content_item.*" ∷ "audit.*" ∷ []
unfolding subscribe subscribe_all subscribe_topic trimmed_pieces trim non_empty distinct_from
    is_reactive_topic_supported can_subscribe_to_reactive_topic permission_of holds
    build_api_key_principal has_administrative_scope as_principal_like normalize_principal_scopes
    is_same_reactive_subscription
subscribed = refl

derived :
    derive_reactive_topics parse number_of event
    ≡ "audit.*" ∷ "content_item.update" ∷ "content_item.*" ∷ "content_item.published" ∷ []
unfolding derive_reactive_topics item_topics parse_audit_event_details get non_empty
derived = refl

abbrev auditor : Session
auditor = record reader { subscriptions = record { topic = "audit.*"; filters = any_event } ∷ [] }

auditor-IsSound : IsSound auditor
unfolding is_reactive_topic_supported can_subscribe_to_reactive_topic permission_of holds
    build_api_key_principal
auditor-IsSound = ((refl, tt), (tt, tt))

abbrev sent_event : Notification
sent_event = record {
  topic = "api_key.create";
  matched_topics = "audit.*" ∷ [];
  matched_subscriptions = auditor.subscriptions;
  event = key_event;
}

sent : publish_audit_event parse number_of key_event auditor ≡ some sent_event
unfolding publish_audit_event build_reactive_event_notification derive_reactive_topics
    matches_reactive_subscription passes_filters parse_audit_event_details
    select_canonical_reactive_topic distinct_from build_api_key_principal
sent = refl

subscribe_often-IsSound_example : IsSound (
    subscribe_often
      (("audit.*" ∷ "*" ∷ [], false, any_event) ∷ ("audit.*" ∷ [], true, any_event) ∷ [])
      reader)
subscribe_often-IsSound_example =
    subscribe_often-IsSound
      (("audit.*" ∷ "*" ∷ [], false, any_event) ∷ ("audit.*" ∷ [], true, any_event) ∷ []) reader
      (tt, tt)

publish_audit_event-guarded_example :
    (key_event.domain_id ≡ auditor.principal.domain_id)
    × ((not (includes administrative_types key_event.entity_type)
          || may_administer_or_audit auditor.principal)
        ≡ true)
publish_audit_event-guarded_example =
    publish_audit_event-guarded parse number_of key_event auditor sent_event auditor-IsSound sent
