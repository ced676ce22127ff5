-- ===== src/Access/Identity/Resolution.antt =====
-- The identities that src/services/actor-identity.ts resolves from principals and from stored ids.
use wordclaw.Shared.{
  ℕ, String, concat, ◌≡◌, refl, List, Bool, true, false, Option, none, some, arith, string_eq,
  starts_with, non_empty, trim, trim_of_NoBlanks, NoBlanks-append, decimal, decimal-NoBlanks,
  is_digits-decimal, read_decimal-decimal, ne_of_prefix, starts_with_ne_head, drop_text-concat,
  is_digits, is_space, if◌then◌else◌, leb,
}
use text.Mathlib.TextPositions.{starts_with-append}
use text.Mathlib.TextLemmas.{cons-append}
use Prim.Native.String.{[], ◌∷◌}
use wordclaw.Access.Identity.{
  ActorIdentity, PrincipalLike, build_api_key_principal, build_supervisor_principal,
  build_mcp_local_principal, build_anonymous_local_principal, to_audit_actor, principal,
  resolve_normalized_ref, resolve_actor_identity_ref, resolve_actor_identity, resolve_api_key_id,
  id_of_actor_id, max_safe_integer,
}

-- An id that a principal of a stored key or a supervisor carries.
key_id-trim : (n : ℕ) → trim (concat "api_key:" (decimal n)) ≡ concat "api_key:" (decimal n)
unfolding is_space
key_id-trim n =
    trim_of_NoBlanks _ (NoBlanks-append "api_key:" (decimal n) (ground arith) (decimal-NoBlanks n))

supervisor_id-trim :
    (n : ℕ) → trim (concat "supervisor:" (decimal n)) ≡ concat "supervisor:" (decimal n)
unfolding is_space
supervisor_id-trim n =
    trim_of_NoBlanks _
      (NoBlanks-append "supervisor:" (decimal n) (ground arith) (decimal-NoBlanks n))

module _ (s : String) (filled : non_empty s ≡ true) (named : is_digits s ≡ false) where
  key_ref :
      starts_with s "api_key:" ≡ true
      → resolve_normalized_ref s
        ≡ some (record { actor_id = s; actor_type = "api_key"; actor_source = "db" })
  unfolding resolve_normalized_ref
  key_ref h =
      rw (filled, named)
        (rw (ne_of_prefix s "anonymous" "api_key:" h refl) (
          rw (ne_of_prefix s "mcp-local" "api_key:" h refl)
            (rw (ne_of_prefix s "system" "api_key:" h refl) (rw h refl))))

  supervisor_ref :
      starts_with s "supervisor:" ≡ true
      → starts_with s "api_key:" ≡ false
      → starts_with s "env_key:" ≡ false
      → resolve_normalized_ref s
        ≡ some (record { actor_id = s; actor_type = "supervisor"; actor_source = "cookie" })
  unfolding resolve_normalized_ref
  supervisor_ref h k l =
      rw (filled, named)
        (rw (ne_of_prefix s "anonymous" "supervisor:" h refl) (
          rw (ne_of_prefix s "mcp-local" "supervisor:" h refl)
            (rw (ne_of_prefix s "system" "supervisor:" h refl) (rw k (rw l (rw h refl))))))

key_id-filled :
    (s : String)
    → (non_empty (concat "api_key:" s) ≡ true) × (is_digits (concat "api_key:" s) ≡ false)
unfolding non_empty is_digits
key_id-filled s = rw cons-append (refl, refl)

supervisor_id-filled :
    (s : String)
    → (non_empty (concat "supervisor:" s) ≡ true) × (is_digits (concat "supervisor:" s) ≡ false)
unfolding non_empty is_digits
supervisor_id-filled s = rw cons-append (refl, refl)

key_id-ref :
    (n : ℕ)
    → resolve_actor_identity_ref (some (concat "api_key:" (decimal n)))
      ≡ some (record {
        actor_id = concat "api_key:" (decimal n);
        actor_type = "api_key";
        actor_source = "db";
      })
key_id-ref n =
    let (filled, named) = key_id-filled (decimal n) in
    unfold resolve_actor_identity_ref in
    rw (key_id-trim n) (
      key_ref (concat "api_key:" (decimal n)) filled named
        (starts_with-append "api_key:" (decimal n)))

supervisor_id-ref :
    (n : ℕ)
    → resolve_actor_identity_ref (some (concat "supervisor:" (decimal n)))
      ≡ some (record {
        actor_id = concat "supervisor:" (decimal n);
        actor_type = "supervisor";
        actor_source = "cookie";
      })
supervisor_id-ref n =
    let (filled, named) = supervisor_id-filled (decimal n) in
    unfold resolve_actor_identity_ref in
    rw (supervisor_id-trim n) (
      supervisor_ref (concat "supervisor:" (decimal n)) filled named
        (starts_with-append "supervisor:" (decimal n))
        (starts_with_ne_head "s" "a" "upervisor:" (decimal n) "pi_key:" (omega arith))
        (starts_with_ne_head "s" "e" "upervisor:" (decimal n) "nv_key:" (omega arith)))

-- A principal that shows only the actor id of a stored key yields the key's number, if that is a safe
-- integer, and none above.
pub resolve_api_key_id-actor_id :
    (n : ℕ) (p : PrincipalLike)
    → p.actor_ref ≡ none
    → p.actor_id ≡ some (concat "api_key:" (decimal n))
    → resolve_api_key_id (some p) ≡ (if leb n max_safe_integer then some n else none)
resolve_api_key_id-actor_id n p h e =
    unfold resolve_api_key_id in
    rw
      (
        h,
        e,
        id_of_actor_id,
        key_id-trim n,
        starts_with-append "api_key:" (decimal n),
        drop_text-concat "api_key:" (decimal n),
      )
      (rw (is_digits-decimal n, read_decimal-decimal n) refl)

digits_filled : (s : String) → is_digits s ≡ true → non_empty s ≡ true
unfolding is_digits non_empty
digits_filled [] h = h
digits_filled (c ∷ s) h = refl

number-ref :
    (n : ℕ)
    → resolve_actor_identity_ref (some (decimal n))
      ≡ some (record {
        actor_id = concat "api_key:" (decimal n);
        actor_type = "api_key";
        actor_source = "db";
      })
unfolding resolve_actor_identity_ref resolve_normalized_ref
number-ref n =
    rw (trim_of_NoBlanks (decimal n) (decimal-NoBlanks n))
      (rw (digits_filled (decimal n) (is_digits-decimal n), is_digits-decimal n) refl)

-- What is known of an actor of whom only the id was kept.
abbrev pub only_id : String → PrincipalLike
only_id i = record {
  actor_id = some i;
  actor_type = none;
  actor_source = none;
  actor_ref = none;
  source = none;
  scopes = none;
  assignment_refs = none;
}

only_id-identity :
    (s : String) (i : ActorIdentity)
    → resolve_actor_identity_ref (some s) ≡ some i
    → resolve_actor_identity (some (only_id s)) ≡ some i
unfolding resolve_actor_identity
only_id-identity s i h = rw h refl

only_id-audit :
    (n : ℕ)
    → to_audit_actor (some (principal (only_id (concat "api_key:" (decimal n)))))
      ≡ some (record {
        identity = record {
          actor_id = concat "api_key:" (decimal n);
          actor_type = "api_key";
          actor_source = "db";
        };
        user_id = if leb n max_safe_integer then some n else none;
      })
unfolding to_audit_actor
only_id-audit n =
    let s : String = concat "api_key:" (decimal n) in
    rw (only_id-identity s _ (key_id-ref n), to_audit_actor)
      (rw (resolve_api_key_id-actor_id n (only_id s) refl refl) refl)

-- The identity that the builder gives a stored key, a supervisor, the local MCP session and an anonymous local
-- request is found again from its actor id alone, a stored key's also from its number as text. A principal of
-- whom only a stored key's actor id is known is audited with the key's identity, and with its number as user
-- if that is a safe integer.
pub identity_round_trip :
    (n d : ℕ) (scopes : List String) (flag : Option Bool)
    → let key = build_api_key_principal n d scopes in
      let supervisor = build_supervisor_principal n d flag in
      let mcp = build_mcp_local_principal d in
      let anonymous = build_anonymous_local_principal in
      (resolve_actor_identity_ref (some key.identity.actor_id) ≡ some key.identity)
      × (resolve_actor_identity_ref (some (decimal n)) ≡ some key.identity)
      × (resolve_actor_identity_ref (some supervisor.identity.actor_id) ≡ some supervisor.identity)
      × (resolve_actor_identity_ref (some mcp.identity.actor_id) ≡ some mcp.identity)
      × (resolve_actor_identity_ref (some anonymous.identity.actor_id) ≡ some anonymous.identity)
      × (to_audit_actor (some (principal (only_id key.identity.actor_id)))
          ≡ some (record {
            identity = key.identity;
            user_id = if leb n max_safe_integer then some n else none;
          }))
unfolding resolve_actor_identity to_audit_actor build_api_key_principal build_supervisor_principal
    build_mcp_local_principal build_anonymous_local_principal
identity_round_trip n d scopes flag = (
  key_id-ref n,
  number-ref n,
  supervisor_id-ref n,
  unfold resolve_actor_identity_ref resolve_normalized_ref trim non_empty is_digits in refl,
  unfold resolve_actor_identity_ref resolve_normalized_ref trim non_empty is_digits in refl,
  only_id-audit n,
)
