-- ===== src/Api/Idempotency/Duplicate.antt =====
-- What src/middleware/idempotency.ts does with a duplicate of a request that is in flight.
use wordclaw.Shared.{
  ℕ, ◌+◌, ◌≤◌, ◌<◌, String, ◌≡◌, refl, ap, ◌∙◌, true, false, none, arith, if◌then◌else◌, string_eq,
  includes,
}
use wordclaw.Api.Idempotency.{
  Entry, State, Request, has_key, lookup, fresh, purge_expired, pass, send, conflict, replayed,
  on_request, on_send,
}
use wordclaw.Api.Idempotency.Cache.{
  IsKeyed, marked, cached_as, on_request-keyed, lookup-purge, lookup-sent, admit-replays,
  admit-absent, admit-flying, first-keep-none, lookup-expired, not_flying,
}

-- A duplicate of a request that is in flight is refused with 409, and the hook that sends this 409
-- takes the key off the requests in flight and caches the 409: a third request, in the time to live,
-- is answered with the 409, and once that has passed a request runs the handler though the first may
-- still be running.
pub duplicate_frees_key :
    (ttl_ms now soon later : ℕ) (r : Request) (k : String) (s : State)
    → IsKeyed r k
    → includes s.in_flight k ≡ true
    → lookup k s ≡ none
    → soon < now + ttl_ms
    → now + ttl_ms ≤ later
    → let refused = on_request now r s in
      let s' = on_send ttl_ms now (refused.1) conflict refused.2 in
      (refused.0 ≡ send conflict)
      × ((on_request soon r s').0 ≡ send conflict)
      × ((on_request later r s').0 ≡ pass)
duplicate_frees_key ttl_ms now soon later r k s keyed flying uncached before after =
    let p : State = purge_expired now s in
    let absent : lookup k p ≡ none =
      unfold lookup purge_expired in first-keep-none (has_key k) (fresh now) s.cache uncached in
    let q : on_request now r s ≡ (send conflict, marked k false, p) =
      on_request-keyed now r k s keyed
      ∙ admit-flying now k p absent (unfold purge_expired in flying) in
    let s' : State = on_send ttl_ms now (marked k false) conflict p in
    let e : Entry = cached_as ttl_ms now k conflict in
    let again : (on_request soon r s').0 ≡ send conflict =
      ap (λ t. t.0) (on_request-keyed soon r k s' keyed)
      ∙ (admit-replays soon k (purge_expired soon s') e before
            (lookup-purge soon k s' e before (lookup-sent ttl_ms now k conflict p (omega arith)))
          ∙ (unfold replayed in refl)) in
    let anew : (on_request later r s').0 ≡ pass =
      ap (λ t. t.0) (on_request-keyed later r k s' keyed)
      ∙ (admit-absent later k (purge_expired later s')
            (lookup-expired ttl_ms now later k conflict p (omega arith) after)
          ∙ ap (λ b. if b then send conflict else pass)
              (not_flying ttl_ms now later k conflict p)) in
    rw q (refl, again, anew)
