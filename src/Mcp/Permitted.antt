-- ===== src/Mcp/Permitted.antt =====
-- The subscriptions of a session of src/mcp/http-session-manager.ts after any calls of `subscribe`.
use wordclaw.Shared.{
  String, Bool, true, false, ◌&&◌, List, [], ◌∷◌, ◌++◌, ◌≡◌, refl, inl, inr, Bool-cases, All,
  All-append, any, any-false, by_branch, trimmed_pieces,
}
use wordclaw.Access.Identity.{ActorPrincipal}
use wordclaw.Access.Keys.{distinct_from}
use wordclaw.Mcp.Topics.{is_reactive_topic_supported, can_subscribe_to_reactive_topic}
use wordclaw.Mcp.Matching.{Filters, Subscription, is_same_reactive_subscription}
use wordclaw.Mcp.Session.{Session, SubscribeResult, subscribe_topic, subscribe_all, subscribe}

-- A subscription to a topic that exists and that the principal may read.
abbrev pub is_permitted : ActorPrincipal → Subscription → Bool
is_permitted p s = is_reactive_topic_supported s.topic && can_subscribe_to_reactive_topic p s.topic

abbrev pub NoRepeats : List Subscription → Type 0
NoRepeats [] = Unit
NoRepeats (s ∷ ss) = All (λ t. is_same_reactive_subscription s t ≡ false) ss × NoRepeats ss

abbrev pub IsSound : Session → Type 0
IsSound s = All (λ u. is_permitted s.principal u ≡ true) s.subscriptions × NoRepeats s.subscriptions

append-NoRepeats :
    (ss : List Subscription) (t : Subscription)
    → NoRepeats ss
    → All (λ s. is_same_reactive_subscription s t ≡ false) ss
    → NoRepeats (ss ++ t ∷ [])
append-NoRepeats [] t h new = (tt, tt)
append-NoRepeats (s ∷ ss) t (h, hs) (n, new) = (
  All-append (λ u. is_same_reactive_subscription s u ≡ false) ss (t ∷ []) h (n, tt),
  append-NoRepeats ss t hs new,
)

subscribe_topic-IsSound :
    (filters : Filters) (topic : String) (o : Session × SubscribeResult)
    → IsSound o.0
    → IsSound (subscribe_topic filters topic o).0
unfolding subscribe_topic
subscribe_topic-IsSound filters topic (s, r) (permitted, distinct) =
    elim (Bool-cases (is_reactive_topic_supported topic)) [
      | inr e ↦ rw e (permitted, distinct)
      | inl e ↦ elim (Bool-cases (can_subscribe_to_reactive_topic s.principal topic)) [
        | inr f ↦ rw (e, f) (permitted, distinct)
        | inl f ↦
            elim (Bool-cases (
              any
                (λ u. is_same_reactive_subscription u (record { topic = topic; filters = filters }))
                s.subscriptions)) [
                  | inl g ↦ rw (e, f) (rw g (permitted, distinct))
                  | inr g ↦
                      rw (e, f)
                        (rw g (
                          All-append (λ u. is_permitted s.principal u ≡ true) s.subscriptions _
                              permitted (rw (e, f) refl, tt),
                          append-NoRepeats s.subscriptions _ distinct
                              (any-false _ s.subscriptions g),
                        ))
                ]
      ]
    ]

subscribe_all-IsSound :
    (filters : Filters) (topics : List String) (o : Session × SubscribeResult)
    → IsSound o.0
    → IsSound (subscribe_all filters topics o).0
unfolding subscribe_all
subscribe_all-IsSound filters [] o h = h
subscribe_all-IsSound filters (t ∷ ts) o h =
    subscribe_all-IsSound filters ts (subscribe_topic filters t o)
      (subscribe_topic-IsSound filters t o h)

subscribe-IsSound :
    (topics : List String) (replace_existing : Bool) (filters : Filters) (s : Session)
    → IsSound s
    → IsSound (subscribe topics replace_existing filters s).0
unfolding subscribe
subscribe-IsSound topics replace_existing filters s h =
    subscribe_all-IsSound filters (distinct_from [] (trimmed_pieces topics)) _
      (by_branch IsSound replace_existing (tt, tt) h)

-- A call of `subscribe`: its topics, whether it replaces, and its filters.
abbrev pub Call : Type 0
Call = List String × Bool × Filters

unfoldable pub subscribe_often : List Call → Session → Session
subscribe_often [] s = s
subscribe_often ((topics, replace_existing, filters) ∷ cs) s =
    subscribe_often cs (subscribe topics replace_existing filters s).0

-- Whatever a session's client asks to subscribe to, the session's subscriptions are to topics that exist and that its
-- principal may read, and no two are the same.
pub subscribe_often-IsSound :
    (cs : List Call) (s : Session) → IsSound s → IsSound (subscribe_often cs s)
unfolding subscribe_often
subscribe_often-IsSound [] s h = h
subscribe_often-IsSound ((topics, replace_existing, filters) ∷ cs) s h =
    subscribe_often-IsSound cs (subscribe topics replace_existing filters s).0
      (subscribe-IsSound topics replace_existing filters s h)
