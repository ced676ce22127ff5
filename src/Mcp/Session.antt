-- ===== src/Mcp/Session.antt =====
-- src/mcp/http-session-manager.ts: the sessions, their subscriptions, and what an event sends to them. The
-- transport is left out, as are the texts of an answer that repeat the subscriptions; `ref` tells two session
-- objects apart.
use wordclaw.Shared.{
  ℕ, String, Bool, not, ◌&&◌, List, [], ◌∷◌, ◌++◌, Option, none, some, if◌then◌else◌, ◌==◌,
  string_eq, nat_eq, any, keep, trimmed_pieces,
}
use wordclaw.Shared.Json.{Json}
use wordclaw.Access.Identity.{ActorPrincipal}
use wordclaw.Access.Keys.{distinct_from}
use wordclaw.Mcp.Topics.{
  is_reactive_topic_supported, can_subscribe_to_reactive_topic, select_canonical_reactive_topic,
}
use wordclaw.Mcp.Matching.{
  AuditEvent, Filters, Subscription, is_same_reactive_subscription, derive_reactive_topics,
  matches_reactive_subscription,
}

pub record Session : Type 0 where
  pub ref : ℕ
  pub principal : ActorPrincipal
  pub subscriptions : List Subscription

pub record SubscribeResult : Type 0 where
  pub newly_added_topics : List String
  pub blocked_topics : List String
  pub unsupported_topics : List String

abbrev subscription_of : String → Filters → Subscription
subscription_of topic filters = record { topic = topic; filters = filters }

-- One topic of the loop.
unfoldable pub subscribe_topic :
    Filters → String → Session × SubscribeResult → Session × SubscribeResult
subscribe_topic filters topic (s, r) =
    let wanted = subscription_of topic filters in
    if not (is_reactive_topic_supported topic)
    then (s, record r { unsupported_topics = r.unsupported_topics ++ topic ∷ [] })
    else if not (can_subscribe_to_reactive_topic s.principal topic)
    then (s, record r { blocked_topics = r.blocked_topics ++ topic ∷ [] })
    else if any (λ e. is_same_reactive_subscription e wanted) s.subscriptions
    then (s, r)
    else (
      record s { subscriptions = s.subscriptions ++ wanted ∷ [] },
      record r { newly_added_topics = r.newly_added_topics ++ topic ∷ [] },
    )

unfoldable pub subscribe_all :
    Filters → List String → Session × SubscribeResult → Session × SubscribeResult
subscribe_all filters [] o = o
subscribe_all filters (t ∷ ts) o = subscribe_all filters ts (subscribe_topic filters t o)

abbrev no_result : SubscribeResult
no_result = record { newly_added_topics = []; blocked_topics = []; unsupported_topics = [] }

unfoldable pub subscribe : List String → Bool → Filters → Session → Session × SubscribeResult
subscribe topics replace_existing filters s =
    let s' = if replace_existing then record s { subscriptions = [] } else s in
    subscribe_all filters (distinct_from [] (trimmed_pieces topics)) (s', no_result)

unfoldable pub matches_principal : Session → ActorPrincipal → Bool
matches_principal s p =
    s.principal.domain_id == p.domain_id
    && (s.principal.actor_id == p.actor_id
        && (s.principal.actor_type == p.actor_type && s.principal.actor_source == p.actor_source))

pub record Notification : Type 0 where
  pub topic : String
  pub matched_topics : List String
  pub matched_subscriptions : List Subscription
  pub event : AuditEvent

abbrev topics_of : List Subscription → List String
topics_of [] = []
topics_of (s ∷ ss) = s.topic ∷ topics_of ss

unfoldable pub build_reactive_event_notification :
    List String → AuditEvent → List Subscription → Notification
build_reactive_event_notification derived e matched = record {
  topic = select_canonical_reactive_topic derived;
  matched_topics = distinct_from [] (topics_of matched);
  matched_subscriptions = matched;
  event = e;
}

-- The sessions by their ids.
abbrev pub Sessions : Type 0
Sessions = List (String × Session)

unfoldable pub get_session : String → Sessions → Option Session
get_session id [] = none
get_session id ((j, s) ∷ m) = let rest = get_session id m in if j == id then some s else rest

unfoldable pub register : String → Session → Sessions → Sessions
register id s [] = (id, s) ∷ []
register id s ((j, t) ∷ m) =
    let rest = (j, t) ∷ register id s m in if j == id then (j, s) ∷ m else rest

unfoldable pub delete_session : String → Sessions → Sessions
delete_session id [] = []
delete_session id ((j, t) ∷ m) =
    let rest = (j, t) ∷ delete_session id m in if j == id then m else rest

-- An id that is registered for another session by now stays.
unfoldable pub unregister : String → Session → Sessions → Sessions
unregister id s m = elim (get_session id m) [
  | none ↦ m
  | some t ↦ if t.ref == s.ref then delete_session id m else m
]

module _ (json_parse : String → Option Json) (number_of : String → Option ℕ) where
  abbrev pub notify : List String → AuditEvent → List Subscription → Option Notification
  notify derived e [] = none
  notify derived e (m ∷ ms) = some (build_reactive_event_notification derived e (m ∷ ms))

  unfoldable pub publish_audit_event : AuditEvent → Session → Option Notification
  publish_audit_event e s =
      let derived = derive_reactive_topics json_parse number_of e in
      if e.domain_id == s.principal.domain_id
      then notify derived e
          (keep (matches_reactive_subscription json_parse number_of e derived) s.subscriptions)
      else none

  -- `onAuditEvent`: what each session is sent, in their order.
  unfoldable pub on_audit_event : AuditEvent → Sessions → List (String × Notification)
  on_audit_event e [] = []
  on_audit_event e ((id, s) ∷ m) =
      let rest = on_audit_event e m in
      elim (publish_audit_event e s) [ none ↦ rest | some n ↦ (id, n) ∷ rest ]
