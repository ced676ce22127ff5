-- ===== src/Api/Tests.antt =====
-- The theorems of the request handling at inputs that meet their hypotheses.
use wordclaw.Shared.{
  String, ◌≡◌, ◌≢◌, refl, true, false, none, some, List, [], ◌∷◌, arith, trim, split, to_upper,
  non_empty, ◌==◌, string_eq, ap,
}
use wordclaw.Api.Idempotency.{
  one, read_idempotency_key, State, Request, Reply, cache_key, lookup, on_request, on_send, pass,
  send, conflict,
}
use wordclaw.Api.Idempotency.Cache.{IsKeyed}
use wordclaw.Api.Idempotency.Replay.{Step, admitted, sent, perform_all, repeat_is_replayed}
use wordclaw.Api.Idempotency.Duplicate.{duplicate_frees_key}

abbrev create : Request
create = record { method = "post"; url = "/api/items?draft=1"; idempotency_key = one " a1 " }

abbrev create_key : String
create_key = "POST:/api/items:a1"

create-IsKeyed : IsKeyed create create_key
unfolding read_idempotency_key cache_key trim split to_upper non_empty
create-IsKeyed = (refl, ("a1", refl, refl))

abbrev created : Reply
created = record { status_code = 201; content_type = none; payload = "ok" }

abbrev empty : State
empty = record { cache = []; in_flight = create_key ∷ [] }

abbrev others : List Step
others =
    (12, "PUT:/api/items/4:b", admitted) ∷ (13, "PUT:/api/items/4:b", sent 300 false created) ∷ []

repeat_is_replayed_example :
    (on_request 20 create (
      perform_all others (
        on_send 300 10
          (record { idempotency_cache_key = some create_key; idempotency_replay = false })
          created
          empty))).0
    ≡ send created
repeat_is_replayed_example =
    repeat_is_replayed 300 10 20 create create_key created others empty create-IsKeyed (omega arith)
      (omega arith) (omega arith, other, (omega arith, other, tt))
  where
    other : "PUT:/api/items/4:b" ≢ create_key
    other e = let wrong : false ≡ true = ap (λ (s : String). s == create_key) e in cc

duplicate_frees_key_example :
    ((on_request 10 create empty).0 ≡ send conflict)
    × ((on_request 20 create
          (on_send 300 10 (on_request 10 create empty).1 conflict (on_request 10 create empty).2)).0
        ≡ send conflict)
    × ((on_request 400 create
          (on_send 300 10 (on_request 10 create empty).1 conflict (on_request 10 create empty).2)).0
        ≡ pass)
unfolding lookup
duplicate_frees_key_example =
    duplicate_frees_key 300 10 20 400 create create_key empty create-IsKeyed refl refl (omega arith)
      (omega arith)
