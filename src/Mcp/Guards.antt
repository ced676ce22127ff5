-- ===== src/Mcp/Guards.antt =====
-- What it takes to read the events of src/mcp/reactive-events.ts about records that administrators manage.
use wordclaw.Shared.{
  and_left, and_right, String, concat, Bool, true, false, not, ◌&&◌, ◌||◌, List, [], ◌∷◌, ◌++◌, ◌≡◌,
  refl, sym, subst, ◌⊎◌, inl, inr, Bool-cases, ◌==◌, nat_eq, string_eq, eq_iff, all, includes,
  starts_with, arith, false_ne_true,
}
use text.Mathlib.TextLemmas.{append_assoc}
use text.Mathlib.TextPositions.{starts_with-append}
use wordclaw.Access.Identity.{
  normalize_principal_scopes, ActorPrincipal, as_principal_like, has_administrative_scope,
}
use wordclaw.Mcp.Topics.{
  supported_topics, is_reactive_topic_supported, permission_of, Permission, administrative, holds,
  can_subscribe_to_reactive_topic,
}
use wordclaw.Mcp.Matching.{Subscription, add_topic}
use wordclaw.Mcp.Permitted.{is_permitted}

-- The records whose events are of use to administrators only.
abbrev pub administrative_types : List String
administrative_types = "api_key" ∷ "webhook" ∷ "ai_provider_config" ∷ "workforce_agent" ∷ []

abbrev is_administrative : Permission → Bool
is_administrative administrative = true
is_administrative _ = false

-- The supported topics of an administrative type ask for an administrative scope.
abbrev guarded : String → String → Bool
guarded type topic =
    not (starts_with topic (concat type ".")) || is_administrative (permission_of topic)

topics_guarded : all (λ type. all (guarded type) supported_topics) administrative_types ≡ true
unfolding permission_of
topics_guarded = refl

pub all-includes :
    (p : String → Bool) (xs : List String) (x : String)
    → all p xs ≡ true
    → includes xs x ≡ true
    → p x ≡ true
all-includes p [] x h i = absurd (false_ne_true i)
all-includes p (y ∷ xs) x h i = elim (Bool-cases (y == x)) [
  | inl e ↦ subst (λ z. p z ≡ true) ((eq_iff y x).0 e) (ground arith)
  | inr e ↦ all-includes p xs x (ground arith) (rw e at i)
]

pub includes-add_topic :
    (a t : String) (ts : List String)
    → includes (add_topic a ts) t ≡ true
    → (a ≡ t) ⊎ (includes ts t ≡ true)
includes-add_topic a t ts h = elim (Bool-cases (includes ts a)) [
  | inl e ↦ inr (rw e at h)
  | inr e ↦ includes-append ts (rw e at h)
]
  where
    includes-append :
        (us : List String) → includes (us ++ a ∷ []) t ≡ true → (a ≡ t) ⊎ (includes us t ≡ true)
    includes-append [] i = elim (Bool-cases (a == t)) [
      | inl e ↦ inl ((eq_iff a t).0 e)
      | inr e ↦ absurd (false_ne_true (rw e at i))
    ]
    includes-append (u ∷ us) i = elim (Bool-cases (u == t)) [
      | inl e ↦ inr (rw e refl)
      | inr e ↦ rw e (includes-append us (rw e at i))
    ]

-- The topics of an event of an administrative type.
abbrev pub OfType : String → String → Type 0
OfType type t = ("audit.*" ≡ t) ⊎ (starts_with t (concat type ".") ≡ true)

pub of_type-prefix :
    (type rest : String) → starts_with (concat type (concat "." rest)) (concat type ".") ≡ true
of_type-prefix type rest =
    subst (λ t. starts_with t (concat type ".") ≡ true) (append_assoc type "." rest)
      (starts_with-append (concat type ".") rest)

-- Reading an event of an administrative type takes this.
abbrev pub may_administer_or_audit : ActorPrincipal → Bool
may_administer_or_audit p =
    has_administrative_scope (as_principal_like p) || includes p.scopes "audit:read"

module _ (p : ActorPrincipal) where
  audit_reads :
      can_subscribe_to_reactive_topic p "audit.*" ≡ true → may_administer_or_audit p ≡ true
  unfolding can_subscribe_to_reactive_topic permission_of holds has_administrative_scope
      as_principal_like normalize_principal_scopes
  audit_reads h = ground arith

  administrative_reads : holds p administrative ≡ true → may_administer_or_audit p ≡ true
  unfolding holds
  administrative_reads h = rw h refl

  wildcard_reads :
      (is_reactive_topic_supported "*" && can_subscribe_to_reactive_topic p "*") ≡ true
      → may_administer_or_audit p ≡ true
  unfolding can_subscribe_to_reactive_topic permission_of holds has_administrative_scope
      as_principal_like normalize_principal_scopes is_reactive_topic_supported
  wildcard_reads h = ground arith

  guarded_topic :
      (type t : String)
      → includes administrative_types type ≡ true
      → (is_reactive_topic_supported t && can_subscribe_to_reactive_topic p t) ≡ true
      → OfType type t
      → may_administer_or_audit p ≡ true
  guarded_topic type t administrative_type permitted of =
      let supported =
        and_left (is_reactive_topic_supported t) (can_subscribe_to_reactive_topic p t) permitted in
      let allowed =
        and_right (is_reactive_topic_supported t) (can_subscribe_to_reactive_topic p t) permitted in
      elim of [
        | inl audit ↦
            by_audit (subst (λ u. can_subscribe_to_reactive_topic p u ≡ true) (sym audit) allowed)
        | inr prefixed ↦
            let guard : guarded type t ≡ true =
              all-includes (guarded type) supported_topics t
                (all-includes (λ u. all (guarded u) supported_topics) administrative_types type
                  topics_guarded administrative_type)
                (unfold is_reactive_topic_supported in supported) in
            by_scope (permission_of t) (rw prefixed at guard)
              (unfold can_subscribe_to_reactive_topic in allowed)
      ]
    where
      by_audit :
          can_subscribe_to_reactive_topic p "audit.*" ≡ true → may_administer_or_audit p ≡ true
      by_audit h = audit_reads h

      by_scope :
          (q : Permission)
          → is_administrative q ≡ true
          → holds p q ≡ true
          → may_administer_or_audit p ≡ true
      by_scope administrative a h = administrative_reads h
      by_scope _ a h = absurd (false_ne_true a)

  -- A matched subscription of a sound session to an event of an administrative type.
  pub matched_guarded :
      (derived : List String) (type : String) (u : Subscription)
      → includes administrative_types type ≡ true
      → is_permitted p u ≡ true
      → ((t : String) → includes derived t ≡ true → OfType type t)
      → (u.topic == "*" || includes derived u.topic) ≡ true
      → may_administer_or_audit p ≡ true
  matched_guarded derived type u administrative_type permitted of matched =
      elim (Bool-cases (u.topic == "*")) [
        | inl e ↦ wildcard_reads (
            subst
              (λ t. (is_reactive_topic_supported t && can_subscribe_to_reactive_topic p t) ≡ true)
              ((eq_iff u.topic "*").0 e) permitted)
        | inr e ↦
            guarded_topic type u.topic administrative_type permitted (of u.topic (rw e at matched))
      ]
