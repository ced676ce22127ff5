-- ===== src/Api/Idempotency/Replay.antt =====
-- What src/middleware/idempotency.ts promises a client that repeats a request that was answered.
use wordclaw.Shared.{
  ℕ, ◌+◌, ◌≤◌, ◌<◌, String, ◌≡◌, ◌≢◌, ap, ◌∙◌, inl, inr, Bool, true, false, some, List, [], ◌∷◌,
  arith, string_eq, leb, Bool-cases,
}
use wordclaw.Api.Idempotency.{
  Entry, State, Request, Reply, lookup, fresh, purge_expired, take_off, send, replayed, admit,
  on_request, on_send, on_error,
}
use wordclaw.Api.Idempotency.Cache.{
  IsKeyed, marked, cached_as, on_request-keyed, lookup-put, lookup-purge, lookup-admit, lookup-sent,
  admit-replays,
}

-- An action of the hooks, on a key.
pub data Action : Type 0 where
  admitted : Action
  sent : ℕ → Bool → Reply → Action
  errored : Action

abbrev pub Step : Type 0
Step = ℕ × String × Action

abbrev pub perform : Step → State → State
perform (now, k, admitted) s = (admit now k (purge_expired now s)).2
perform (now, k, sent ttl_ms b reply) s = on_send ttl_ms now (marked k b) reply s
perform (now, k, errored) s = on_error (marked k false) s

pub perform_all : List Step → State → State
perform_all [] s = s
perform_all (x ∷ xs) s = perform_all xs (perform x s)

-- Steps on other keys, at times up to `until`.
abbrev pub IsElsewhere : String → ℕ → List Step → Type 0
IsElsewhere k until [] = Unit
IsElsewhere k until ((now, j, _) ∷ xs) = (now ≤ until) × (j ≢ k) × IsElsewhere k until xs

-- A response that is cached and fresh until later survives a step on another key.
perform-lookup :
    (now until : ℕ) (j k : String) (x : Action) (s : State) (e : Entry)
    → now ≤ until
    → j ≢ k
    → until < e.response.expires_at
    → lookup k s ≡ some e
    → lookup k (perform (now, j, x) s) ≡ some e
unfolding lookup on_send on_error
perform-lookup now until j k admitted s e le ne fresh found =
    lookup-admit now j k (purge_expired now s) e ne (lookup-purge now k s e (omega arith) found)
perform-lookup now until j k (sent ttl_ms true reply) s e le ne fresh found = found
perform-lookup now until j k (sent ttl_ms false reply) s e le ne fresh found =
    elim (Bool-cases (leb 500 reply.status_code)) [
      | inl h ↦ rw h found
      | inr h ↦ rw h (lookup-put j k _ (take_off j s) e ne found)
    ]
perform-lookup now until j k errored s e le ne fresh found = found

perform_all-lookup :
    (until : ℕ) (k : String) (xs : List Step) (s : State) (e : Entry)
    → IsElsewhere k until xs
    → until < e.response.expires_at
    → lookup k s ≡ some e
    → lookup k (perform_all xs s) ≡ some e
unfolding perform_all
perform_all-lookup until k [] s e elsewhere fresh found = found
perform_all-lookup until k ((now, j, x) ∷ xs) s e (le, ne, more) fresh found =
    perform_all-lookup until k xs (perform (now, j, x) s) e more fresh
      (perform-lookup now until j k x s e le ne fresh found)

-- A request that the cache serves and whose reply is below 500 is answered from the cache when it is
-- repeated within the time to live: with the same status, payload and content type, whatever
-- happened to other keys in between, and the handler does not run again.
pub repeat_is_replayed :
    (ttl_ms sent_at now : ℕ) (r : Request) (k : String) (reply : Reply) (others : List Step)
    (s : State)
    → IsKeyed r k
    → reply.status_code < 500
    → now < sent_at + ttl_ms
    → IsElsewhere k now others
    → (on_request now r (perform_all others (on_send ttl_ms sent_at (marked k false) reply s))).0
      ≡ send reply
unfolding replayed
repeat_is_replayed ttl_ms sent_at now r k reply others s keyed below in_time elsewhere =
    let s' : State = perform_all others (on_send ttl_ms sent_at (marked k false) reply s) in
    let e : Entry = cached_as ttl_ms sent_at k reply in
    let kept : lookup k s' ≡ some e =
      perform_all-lookup now k others _ e elsewhere in_time
        (lookup-sent ttl_ms sent_at k reply s below) in
    ap (λ t. t.0) (on_request-keyed now r k s' keyed)
    ∙ admit-replays now k (purge_expired now s') e in_time (lookup-purge now k s' e in_time kept)
