-- ===== src/Mcp/Matching.antt =====
-- src/mcp/reactive-events.ts: the topics that an event is derived to, and the subscriptions that it matches.
-- `JSON.parse` and the conversion `Number(text)` are arguments: `none` is a throw of the one, and a text
-- that is no natural number for the other. A filter that is undefined is `none`.
use wordclaw.Shared.{
  ℕ, String, concat, Bool, true, false, not, ◌&&◌, ◌||◌, List, [], ◌∷◌, ◌++◌, Option, none, some,
  if◌then◌else◌, ◌==◌, string_eq, nat_eq, includes, non_empty, trim,
}
use wordclaw.Shared.Json.{Json, num, str, obj, Fields, end, field, get}

pub record AuditEvent : Type 0 where
  pub id : ℕ
  pub domain_id : ℕ
  pub action : String
  pub entity_type : String
  pub entity_id : ℕ
  pub user_id : Option ℕ
  pub actor_id : Option String
  pub actor_type : Option String
  pub actor_source : Option String
  pub details : Option String
  pub created_at : ℕ

pub record Filters : Type 0 where
  pub entity_type : Option String
  pub entity_id : Option ℕ
  pub action : Option String
  pub content_type_id : Option ℕ
  pub status : Option String
  pub decision : Option String
  pub actor_id : Option String
  pub actor_type : Option String
  pub workflow_transition_id : Option ℕ
  pub review_task_id : Option ℕ

pub record Subscription : Type 0 where
  pub topic : String
  pub filters : Filters

abbrev same_text : Option String → Option String → Bool
same_text none none = true
same_text (some a) (some b) = a == b
same_text _ _ = false

abbrev same_number : Option ℕ → Option ℕ → Bool
same_number none none = true
same_number (some a) (some b) = a == b
same_number _ _ = false

-- `stableSerializeFilters` gives two filters one text if they agree in each field.
unfoldable pub same_filters : Filters → Filters → Bool
same_filters f g =
    same_text f.entity_type g.entity_type
    && (same_number f.entity_id g.entity_id
        && (same_text f.action g.action
            && (same_number f.content_type_id g.content_type_id
                && (same_text f.status g.status
                    && (same_text f.decision g.decision
                        && (same_text f.actor_id g.actor_id
                            && (same_text f.actor_type g.actor_type
                                && (same_number f.workflow_transition_id g.workflow_transition_id
                                    && same_number f.review_task_id g.review_task_id))))))))

unfoldable pub is_same_reactive_subscription : Subscription → Subscription → Bool
is_same_reactive_subscription a b = a.topic == b.topic && same_filters a.filters b.filters

-- `Set.add`.
abbrev pub add_topic : String → List String → List String
add_topic t ts = if includes ts t then ts else ts ++ t ∷ []

abbrev when_topic : Bool → String → List String → List String
when_topic b t ts = if b then add_topic t ts else ts

abbrev pub family_types : List String
family_types =
    "content_item" ∷ "content_type" ∷ "api_key" ∷ "webhook" ∷ "ai_provider_config"
    ∷ "workforce_agent" ∷ []

abbrev text_is : Option Json → String → Bool
text_is (some (str s)) t = s == t
text_is _ t = false

module _ (json_parse : String → Option Json) (number_of : String → Option ℕ) where
  abbrev parsed_details : Option Json → String → Option Fields
  parsed_details none raw = some (field "raw" (str raw) end)
  parsed_details (some (obj fs)) raw = some fs
  parsed_details (some v) raw = some (field "value" v end)

  unfoldable pub parse_audit_event_details : Option String → Option Fields
  parse_audit_event_details none = none
  parse_audit_event_details (some details) =
      if non_empty details then parsed_details (json_parse details) details else none

  -- `details?.[key]`.
  abbrev detail : AuditEvent → String → Option Json
  detail e k = elim (parse_audit_event_details e.details) [ none ↦ none | some fs ↦ get k fs ]

  -- The topics that the details of an event of a content item add.
  unfoldable pub item_topics : AuditEvent → List String → List String
  item_topics e ts =
      when_topic (text_is (detail e "decision") "rejected") "workflow.review.rejected" (
        when_topic (text_is (detail e "decision") "approved") "workflow.review.approved" (
          when_topic (text_is (detail e "decision") "approved") "content_item.approved"
            (when_topic (text_is (detail e "status") "published") "content_item.published" ts)))

  unfoldable pub derive_reactive_topics : AuditEvent → List String
  derive_reactive_topics e =
      let base = add_topic (concat e.entity_type (concat "." e.action)) ("audit.*" ∷ []) in
      let ts = when_topic (includes family_types e.entity_type) (concat e.entity_type ".*") base in
      if e.entity_type == "content_item" then item_topics e ts else ts

  -- `filter && value !== filter`, where an empty filter is none.
  abbrev passes_text : Option String → Option String → Bool
  passes_text none value = true
  passes_text (some f) none = not (non_empty f)
  passes_text (some f) (some v) = not (non_empty f) || v == f

  abbrev passes_number : Option ℕ → Option ℕ → Bool
  passes_number none value = true
  passes_number (some f) none = false
  passes_number (some f) (some v) = v == f

  -- `toNumericDetail`, where it is a natural number.
  abbrev to_numeric_detail : Option Json → Option ℕ
  to_numeric_detail (some (num n)) = if n.whole && not n.negative then some n.integer_part else none
  to_numeric_detail (some (str s)) = if non_empty (trim s) then number_of s else none
  to_numeric_detail _ = none

  abbrev as_text : Option Json → Option String
  as_text (some (str s)) = some s
  as_text _ = none

  unfoldable pub passes_filters : AuditEvent → Filters → Bool
  passes_filters e f =
      passes_text f.entity_type (some e.entity_type)
      && (passes_number f.entity_id (some e.entity_id)
          && (passes_text f.action (some e.action)
              && (passes_text f.actor_id e.actor_id
                  && (passes_text f.actor_type e.actor_type
                      && (passes_number f.content_type_id
                            (to_numeric_detail (detail e "contentTypeId"))
                          && (passes_number f.workflow_transition_id
                                (to_numeric_detail (detail e "workflowTransitionId"))
                              && (passes_number f.review_task_id
                                    (to_numeric_detail (detail e "reviewTaskId"))
                                  && (passes_text f.status (as_text (detail e "status"))
                                      && passes_text f.decision
                                          (as_text (detail e "decision"))))))))))

  unfoldable pub matches_reactive_subscription : AuditEvent → List String → Subscription → Bool
  matches_reactive_subscription e derived s =
      (s.topic == "*" || includes derived s.topic) && passes_filters e s.filters
