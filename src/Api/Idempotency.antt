-- ===== src/Api/Idempotency.antt =====
-- src/middleware/idempotency.ts: the cache of responses and the set of requests in flight, and the
-- three hooks that change them. A clock's two readings in one hook are one argument. The text of a
-- request's method, path and header are already decoded; a payload is its string.
pub mod Cache
pub mod Replay
pub mod Duplicate
use wordclaw.Shared.{
  ℕ, ◌+◌, String, Bool, true, false, not, ◌&&◌, ◌||◌, Option, none, some, List, [], ◌∷◌,
  if◌then◌else◌, ◌==◌, string_eq, leb, concat, keep, first, includes, trim, non_empty, split,
  to_upper,
}

-- A header: absent, one value, or several.
pub data Header : Type 0 where
  absent : Header
  one : String → Header
  many : List String → Header

abbrev trimmed : String → Option String
trimmed raw = if non_empty (trim raw) then some (trim raw) else none

unfoldable pub read_idempotency_key : Header → Option String
read_idempotency_key absent = none
read_idempotency_key (one raw) = trimmed raw
read_idempotency_key (many []) = none
read_idempotency_key (many (raw ∷ _)) = trimmed raw

pub record CachedResponse : Type 0 where
  pub status_code : ℕ
  pub payload : String
  pub content_type : Option String
  pub expires_at : ℕ

-- A `Map`'s entry.
pub record Entry : Type 0 where
  pub key : String
  pub response : CachedResponse

pub record State : Type 0 where
  pub cache : List Entry
  pub in_flight : List String

pub record Request : Type 0 where
  pub method : String
  pub url : String
  pub idempotency_key : Header

-- What the hooks keep on a request.
pub record Marks : Type 0 where
  pub idempotency_cache_key : Option String
  pub idempotency_replay : Bool

pub record Reply : Type 0 where
  pub status_code : ℕ
  pub content_type : Option String
  pub payload : String

abbrev pub cacheable_methods : List String
cacheable_methods = "POST" ∷ "PUT" ∷ "DELETE" ∷ []

abbrev pub has_key : String → Entry → Bool
has_key k e = e.key == k

unfoldable pub lookup : String → State → Option Entry
lookup k s = first (has_key k) s.cache

abbrev pub fresh : ℕ → Entry → Bool
fresh now e = not (leb e.response.expires_at now)

unfoldable pub purge_expired : ℕ → State → State
purge_expired now s = record s { cache = keep (fresh now) s.cache }

abbrev pub delete_entry : String → State → State
delete_entry k s = record s { cache = keep (λ e. not (has_key k e)) s.cache }

abbrev pub take_off : String → State → State
take_off k s = record s { in_flight = keep (λ j. not (j == k)) s.in_flight }

-- `cache.set`.
abbrev pub put_entry : String → CachedResponse → State → State
put_entry k r s = record s {
  cache = record { key = k; response = r } ∷ keep (λ e. not (has_key k e)) s.cache;
}

-- What `onRequest` decides: the handler runs, or a reply is sent at once.
pub data Verdict : Type 0 where
  pass : Verdict
  send : Reply → Verdict

-- The refusal of a duplicate; its payload stands for the JSON with this code.
abbrev pub conflict : Reply
conflict = record {
  status_code = 409;
  content_type = some "application/json; charset=utf-8";
  payload = "IDEMPOTENCY_CONFLICT";
}

unfoldable pub replayed : CachedResponse → Reply
replayed c = record {
  status_code = c.status_code;
  content_type = c.content_type;
  payload = c.payload;
}

abbrev first_part : List String → String
first_part [] = ""
first_part (p ∷ _) = p

unfoldable pub cache_key : Request → String → String
cache_key r k =
    concat (to_upper r.method) (concat ":" (concat (first_part (split b'?' r.url)) (concat ":" k)))

-- The state after a cached entry that has expired is dropped.
abbrev pub drop_stale : Option Entry → String → State → State
drop_stale none k s = s
drop_stale (some e) k s = delete_entry k s

abbrev pub usable : ℕ → Option Entry → Option Entry
usable now none = none
usable now (some e) = if leb e.response.expires_at now then none else some e

-- The part of `onRequest` from the cache's lookup on.
unfoldable pub admit : ℕ → String → State → Verdict × Marks × State
admit now k s = elim (usable now (lookup k s)) [
  | none ↦
      let s' = drop_stale (lookup k s) k s in
      let marks : Marks = record { idempotency_cache_key = some k; idempotency_replay = false } in
      if includes s'.in_flight k
      then (send conflict, marks, s')
      else (pass, marks, record s' { in_flight = k ∷ s'.in_flight })
  | some e ↦ (
    send (replayed e.response),
    record { idempotency_cache_key = some k; idempotency_replay = true },
    s,
  )
]

abbrev pub unmarked : Marks
unmarked = record { idempotency_cache_key = none; idempotency_replay = false }

unfoldable pub on_request : ℕ → Request → State → Verdict × Marks × State
on_request now r s =
    if not (includes cacheable_methods (to_upper r.method))
    then (pass, unmarked, s)
    else elim (read_idempotency_key r.idempotency_key) [
      | none ↦ (pass, unmarked, s)
      | some k ↦ admit now (cache_key r k) (purge_expired now s)
    ]

unfoldable pub on_send : ℕ → ℕ → Marks → Reply → State → State
on_send ttl_ms now m reply s = elim m.idempotency_cache_key [
  | none ↦ s
  | some k ↦
      if m.idempotency_replay
      then s
      else (if leb 500 reply.status_code
          then take_off k s
          else put_entry k
              (record {
                status_code = reply.status_code;
                payload = reply.payload;
                content_type = reply.content_type;
                expires_at = now + ttl_ms;
              })
              (take_off k s))
]

unfoldable pub on_error : Marks → State → State
on_error m s = elim m.idempotency_cache_key [ none ↦ s | some k ↦ take_off k s ]
