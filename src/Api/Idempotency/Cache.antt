-- ===== src/Api/Idempotency/Cache.antt =====
-- The cache and the keys in flight of src/middleware/idempotency.ts under each change of them.
use wordclaw.Shared.{
  ℕ, ◌+◌, ◌≤◌, ◌<◌, String, ◌≡◌, ◌≢◌, refl, sym, ap, ◌∙◌, inl, inr, Bool, true, false, not, Option,
  none, some, List, [], ◌∷◌, arith, if◌then◌else◌, ◌==◌, string_eq, leb, keep, first, first-holds,
  includes, to_upper, eq_iff, eq_refl, Bool-cases, Option-cases,
}
use mathlib.Core.Option.{some-injective, none-ne-some}
use wordclaw.Api.Idempotency.{
  read_idempotency_key, CachedResponse, Entry, State, Request, Marks, Reply, cacheable_methods,
  has_key, lookup, fresh, purge_expired, delete_entry, put_entry, pass, send, conflict, replayed,
  cache_key, admit, usable, drop_stale, on_request, on_send,
}

-- A request that the cache serves, under key `k`.
abbrev pub IsKeyed : Request → String → Type 0
IsKeyed r k =
    (includes cacheable_methods (to_upper r.method) ≡ true)
    × ((j : String) × (read_idempotency_key r.idempotency_key ≡ some j) × (cache_key r j ≡ k))

pub on_request-keyed :
    (now : ℕ) (r : Request) (k : String) (s : State)
    → IsKeyed r k
    → on_request now r s ≡ admit now k (purge_expired now s)
unfolding on_request
on_request-keyed now r k s (method, (j, read, key)) = rw method (rw read (rw key refl))

first-keep {ℓ} :
    {A : Type ℓ} (p q : A → Bool) (xs : List A) {a : A}
    → first p xs ≡ some a
    → q a ≡ true
    → first p (keep q xs) ≡ some a
first-keep p q [] found good = found
first-keep p q (x ∷ xs) {a = a} found good = elim (Bool-cases (p x)) [
  | inl h ↦
      let same : x ≡ a = some-injective x a (rw h at found) in
      rw (ap q same ∙ good) (rw h (ap some same))
  | inr h ↦ elim (Bool-cases (q x)) [
    | inl g ↦ rw g (rw h (first-keep p q xs (rw h at found) good))
    | inr g ↦ rw g (first-keep p q xs (rw h at found) good)
  ]
]

abbrev pub marked : String → Bool → Marks
marked k b = record { idempotency_cache_key = some k; idempotency_replay = b }

not_key : (j k : String) (e : Entry) → j ≢ k → e.key ≡ k → not (has_key j e) ≡ true
not_key j k e ne same = elim (Bool-cases (e.key == j)) [
  | inl h ↦ absurd (ne (sym ((eq_iff e.key j).0 h) ∙ same))
  | inr h ↦ rw h refl
]

lookup-key : (k : String) (s : State) (e : Entry) → lookup k s ≡ some e → e.key ≡ k
unfolding lookup
lookup-key k s e found = (eq_iff e.key k).0 (first-holds (has_key k) s.cache found)

pub lookup-delete :
    (j k : String) (s : State) (e : Entry)
    → j ≢ k
    → lookup k s ≡ some e
    → lookup k (delete_entry j s) ≡ some e
unfolding lookup
lookup-delete j k s e ne found =
    first-keep (has_key k) (λ a. not (has_key j a)) s.cache found
      (not_key j k e ne (lookup-key k s e found))

pub lookup-put :
    (j k : String) (r : CachedResponse) (s : State) (e : Entry)
    → j ≢ k
    → lookup k s ≡ some e
    → lookup k (put_entry j r s) ≡ some e
unfolding lookup
lookup-put j k r s e ne found = elim (Bool-cases (j == k)) [
  | inl h ↦ absurd (ne ((eq_iff j k).0 h))
  | inr h ↦ rw h (lookup-delete j k s e ne found)
]

pub lookup-purge :
    (now : ℕ) (k : String) (s : State) (e : Entry)
    → now < e.response.expires_at
    → lookup k s ≡ some e
    → lookup k (purge_expired now s) ≡ some e
unfolding lookup purge_expired
lookup-purge now k s e later found = first-keep (has_key k) (fresh now) s.cache found (ground arith)

lookup-drop :
    (o : Option Entry) (j k : String) (s : State) (e : Entry)
    → j ≢ k
    → lookup k s ≡ some e
    → lookup k (drop_stale o j s) ≡ some e
lookup-drop none j k s e ne found = found
lookup-drop (some a) j k s e ne found = lookup-delete j k s e ne found

lookup-fly :
    (k : String) (s : State) (js : List String)
    → lookup k (record s { in_flight = js }) ≡ lookup k s
unfolding lookup
lookup-fly k s js = refl

pub lookup-admit :
    (now : ℕ) (j k : String) (s : State) (e : Entry)
    → j ≢ k
    → lookup k s ≡ some e
    → lookup k (admit now j s).2 ≡ some e
unfolding admit
lookup-admit now j k s e ne found = elim (Option-cases (usable now (lookup j s))) [
  | inl q ↦
      let kept = lookup-drop (lookup j s) j k s e ne found in
      elim (Bool-cases (includes (drop_stale (lookup j s) j s).in_flight j)) [
        | inl h ↦ rw (q, admit) (rw h kept)
        | inr h ↦ rw (q, admit) (rw h (lookup-fly k (drop_stale (lookup j s) j s) _ ∙ kept))
      ]
  | inr (a, q) ↦ rw (q, admit) found
]

abbrev pub cached_as : ℕ → ℕ → String → Reply → Entry
cached_as ttl_ms now k reply = record {
  key = k;
  response = record {
    status_code = reply.status_code;
    payload = reply.payload;
    content_type = reply.content_type;
    expires_at = now + ttl_ms;
  };
}

pub lookup-sent :
    (ttl_ms now : ℕ) (k : String) (reply : Reply) (s : State)
    → reply.status_code < 500
    → lookup k (on_send ttl_ms now (marked k false) reply s) ≡ some (cached_as ttl_ms now k reply)
unfolding lookup on_send
lookup-sent ttl_ms now k reply s below =
    let small : leb 500 reply.status_code ≡ false = ground arith in rw small (rw (eq_refl k) refl)

-- A cached response that is fresh is sent again.
pub admit-replays :
    (now : ℕ) (k : String) (s : State) (e : Entry)
    → now < e.response.expires_at
    → lookup k s ≡ some e
    → (admit now k s).0 ≡ send (replayed e.response)
unfolding admit
admit-replays now k s e later found =
    let small : leb e.response.expires_at now ≡ false = ground arith in
    rw (found, admit) (rw small refl)

-- A key without a cached response passes, unless it is in flight.
pub admit-absent :
    (now : ℕ) (k : String) (s : State)
    → lookup k s ≡ none
    → (admit now k s).0 ≡ (if includes s.in_flight k then send conflict else pass)
unfolding admit
admit-absent now k s absent = elim (Bool-cases (includes s.in_flight k)) [
  | inl h ↦ rw (absent, admit) (rw absent (rw h refl))
  | inr h ↦ rw (absent, admit) (rw absent (rw h refl))
]

pub admit-flying :
    (now : ℕ) (k : String) (s : State)
    → lookup k s ≡ none
    → includes s.in_flight k ≡ true
    → admit now k s ≡ (send conflict, marked k false, s)
unfolding admit
admit-flying now k s absent flying = rw (absent, admit) (rw absent (rw flying refl))

pub first-keep-none {ℓ} :
    {A : Type ℓ} (p q : A → Bool) (xs : List A) → first p xs ≡ none → first p (keep q xs) ≡ none
first-keep-none p q [] absent = absent
first-keep-none p q (x ∷ xs) absent = elim (Bool-cases (p x)) [
  | inl h ↦ absurd (none-ne-some x (sym (rw h at absent)))
  | inr h ↦ elim (Bool-cases (q x)) [
    | inl g ↦ rw g (rw h (first-keep-none p q xs (rw h at absent)))
    | inr g ↦ rw g (first-keep-none p q xs (rw h at absent))
  ]
]

first-drop {ℓ} :
    {A : Type ℓ} (p : A → Bool) (xs : List A) → first p (keep (λ a. not (p a)) xs) ≡ none
first-drop p [] = refl
first-drop p (x ∷ xs) = elim (Bool-cases (p x)) [
  | inl h ↦ rw h (first-drop p xs)
  | inr h ↦ rw h (rw h (first-drop p xs))
]

includes-take_off :
    (k : String) (js : List String) → includes (keep (λ j. not (j == k)) js) k ≡ false
includes-take_off k [] = refl
includes-take_off k (j ∷ js) = elim (Bool-cases (j == k)) [
  | inl h ↦ rw h (includes-take_off k js)
  | inr h ↦ rw h (rw h (includes-take_off k js))
]

pub lookup-expired :
    (ttl_ms now later : ℕ) (k : String) (reply : Reply) (s : State)
    → reply.status_code < 500
    → now + ttl_ms ≤ later
    → lookup k (purge_expired later (on_send ttl_ms now (marked k false) reply s)) ≡ none
unfolding lookup on_send purge_expired
lookup-expired ttl_ms now later k reply s below past =
    let small : leb 500 reply.status_code ≡ false = ground arith in
    let old : leb (now + ttl_ms) later ≡ true = ground arith in
    rw small (rw old (first-keep-none (has_key k) (fresh later) _ (first-drop (has_key k) s.cache)))

pub not_flying :
    (ttl_ms now later : ℕ) (k : String) (reply : Reply) (s : State)
    → includes (purge_expired later (on_send ttl_ms now (marked k false) reply s)).in_flight k
      ≡ false
unfolding purge_expired on_send
not_flying ttl_ms now later k reply s = elim (Bool-cases (leb 500 reply.status_code)) [
  | inl h ↦ rw h (includes-take_off k s.in_flight)
  | inr h ↦ rw h (includes-take_off k s.in_flight)
]
