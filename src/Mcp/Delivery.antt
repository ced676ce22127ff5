-- ===== src/Mcp/Delivery.antt =====
-- Which events src/mcp/http-session-manager.ts sends to which sessions.
use wordclaw.Shared.{
  false_of_not, and_left, ℕ, String, concat, true, false, not, ◌||◌, Option, some, List, [], ◌∷◌,
  ◌≡◌, refl, subst, ◌⊎◌, inl, inr, Bool-cases, ◌==◌, nat_eq, string_eq, eq_iff, nat_beq_iff, All,
  keep, includes, starts_with, false_ne_true,
}
use mathlib.Core.Option.{none-ne-some}
use wordclaw.Shared.Json.{Json}
use wordclaw.Access.Identity.{ActorPrincipal}
use wordclaw.Mcp.Matching.{
  AuditEvent, Subscription, family_types, derive_reactive_topics, matches_reactive_subscription,
}
use wordclaw.Mcp.Session.{Session, Notification, publish_audit_event}
use wordclaw.Mcp.Permitted.{is_permitted, IsSound}
use wordclaw.Mcp.Guards.{
  administrative_types, all-includes, includes-add_topic, OfType, of_type-prefix,
  may_administer_or_audit, matched_guarded,
}

module _ (json_parse : String → Option Json) (number_of : String → Option ℕ) where
  derived-OfType :
      (e : AuditEvent) (t : String)
      → includes administrative_types e.entity_type ≡ true
      → includes (derive_reactive_topics json_parse number_of e) t ≡ true
      → OfType e.entity_type t
  unfolding derive_reactive_topics
  derived-OfType e t administrative_type derived =
      let in_family : includes family_types e.entity_type ≡ true =
        all-includes (includes family_types) administrative_types e.entity_type refl
          administrative_type in
      let no_item : (e.entity_type == "content_item") ≡ false =
        false_of_not (e.entity_type == "content_item") (
          all-includes (λ x. not (x == "content_item")) administrative_types e.entity_type refl
            administrative_type) in
      elim (includes-add_topic (concat e.entity_type ".*") t _
        (rw in_family at (rw no_item at derived))) [
          | inl same ↦ inr (
              subst (λ u. starts_with u (concat e.entity_type ".") ≡ true) same
                (of_type-prefix e.entity_type "*"))
          | inr more ↦
              elim (includes-add_topic (concat e.entity_type (concat "." e.action)) t
                ("audit.*" ∷ []) more) [
                  | inl same ↦ inr (
                      subst (λ u. starts_with u (concat e.entity_type ".") ≡ true) same
                        (of_type-prefix e.entity_type e.action))
                  | inr audit ↦ inl (only audit)
                ]
        ]
    where
      only : includes ("audit.*" ∷ []) t ≡ true → "audit.*" ≡ t
      only h = elim (Bool-cases ("audit.*" == t)) [
        | inl f ↦ (eq_iff "audit.*" t).0 f
        | inr f ↦ absurd (false_ne_true (rw f at h))
      ]

  keep-matched :
      (e : AuditEvent) (p : ActorPrincipal) (ss : List Subscription)
      → includes administrative_types e.entity_type ≡ true
      → All (λ u. is_permitted p u ≡ true) ss
      → (keep
            (matches_reactive_subscription json_parse number_of e
              (derive_reactive_topics json_parse number_of e))
            ss
          ≡ [])
        ⊎ (may_administer_or_audit p ≡ true)
  unfolding matches_reactive_subscription
  keep-matched e p [] a h = inl refl
  keep-matched e p (u ∷ ss) a (h, hs) =
      elim (Bool-cases (
        matches_reactive_subscription json_parse number_of e
          (derive_reactive_topics json_parse number_of e) u)) [
            | inl m ↦ inr (
                matched_guarded p (derive_reactive_topics json_parse number_of e) e.entity_type u a
                  h (λ t i. derived-OfType e t a i) (and_left _ _ m))
            | inr m ↦ rw m (keep-matched e p ss a hs)
          ]

  -- A session is sent an event only of its principal's own domain.
  publish-own_domain :
      (e : AuditEvent) (s : Session) (n : Notification)
      → publish_audit_event json_parse number_of e s ≡ some n
      → e.domain_id ≡ s.principal.domain_id
  unfolding publish_audit_event
  publish-own_domain e s n sent = elim (Bool-cases (e.domain_id == s.principal.domain_id)) [
    | inl h ↦ (nat_beq_iff e.domain_id s.principal.domain_id).0 h
    | inr h ↦ absurd (none-ne-some n (rw h at sent))
  ]

  -- A session whose subscriptions are permitted is sent an event only of its principal's own domain, and one about an API key, a
  -- webhook, an AI provider or a workforce agent only if the principal may administer or read audits.
  pub publish_audit_event-guarded :
      (e : AuditEvent) (s : Session) (n : Notification)
      → IsSound s
      → publish_audit_event json_parse number_of e s ≡ some n
      → (e.domain_id ≡ s.principal.domain_id)
        × ((not (includes administrative_types e.entity_type)
              || may_administer_or_audit s.principal)
            ≡ true)
  unfolding publish_audit_event
  publish_audit_event-guarded e s n sound sent =
      let own : e.domain_id ≡ s.principal.domain_id = publish-own_domain e s n sent in
      (
        own,
        elim (Bool-cases (includes administrative_types e.entity_type)) [
          | inr a ↦ rw a refl
          | inl a ↦ elim (keep-matched e s.principal s.subscriptions a sound.0) [
            | inr reads ↦ rw (a, reads) refl
            | inl nothing ↦ absurd (
                none-ne-some n (
                  rw nothing at
                    (rw ((nat_beq_iff e.domain_id s.principal.domain_id).1 own) at sent)))
          ]
        ],
      )
