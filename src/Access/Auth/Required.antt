-- ===== src/Access/Auth/Required.antt =====
-- The scopes that the requests of src/api/auth.ts may be made with.
use wordclaw.Shared.{
  String, ◌≡◌, refl, sym, ◌∙◌, ◌⊎◌, Bool, true, false, ◌||◌, List, [], ◌∷◌, inl, inr, Bool-cases,
  if◌then◌else◌, arith, any, starts_with, to_upper, ◌==◌, string_eq, eq_iff, false_ne_true,
}
use wordclaw.Access.Auth.{required_scope}

abbrev pub admin_paths : List String
admin_paths =
    "/api/auth/keys" ∷ "/api/webhooks" ∷ "/api/ai/providers" ∷ "/api/workforce/agents" ∷ []

abbrev pub audit_paths : List String
audit_paths = "/ws/events" ∷ "/api/audit-logs" ∷ "/api/payments" ∷ []

abbrev pub is_under : String → List String → Bool
is_under route_path paths = any (λ p. starts_with route_path p) paths

abbrev pub IsReading : String → Type 0
IsReading method =
    (to_upper method ≡ "GET") ⊎ (to_upper method ≡ "HEAD") ⊎ (to_upper method ≡ "OPTIONS")

-- The scopes that a request may be made with.
pub data Suffices (method route_path : String) : String → Type 0 where
  admin : Suffices method route_path "admin"
  audit :
      is_under route_path admin_paths ≡ false
      → is_under route_path audit_paths ≡ true
      → Suffices method route_path "audit:read"
  read :
      is_under route_path admin_paths ≡ false
      → is_under route_path audit_paths ≡ false
      → IsReading method
      → Suffices method route_path "content:read"
  write :
      is_under route_path admin_paths ≡ false
      → is_under route_path audit_paths ≡ false
      → (IsReading method → ⊥)
      → Suffices method route_path "content:write"

abbrev pub reads_by : String → Bool
reads_by method =
    to_upper method == "GET" || to_upper method == "HEAD" || to_upper method == "OPTIONS"

required_by_paths :
    (method route_path : String)
    → required_scope method route_path ≡ (
        if is_under route_path admin_paths
        then "admin"
        else if is_under route_path audit_paths
        then "audit:read"
        else if reads_by method
        then "content:read"
        else "content:write")
unfolding required_scope
required_by_paths method route_path = ground arith

pub reads_by-IsReading : (method : String) → reads_by method ≡ true → IsReading method
reads_by-IsReading method h = elim (Bool-cases (to_upper method == "GET")) [
  | inl e ↦ inl ((eq_iff (to_upper method) "GET").0 e)
  | inr e ↦ elim (Bool-cases (to_upper method == "HEAD")) [
    | inl f ↦ inr (inl ((eq_iff (to_upper method) "HEAD").0 f))
    | inr f ↦ inr (inr ((eq_iff (to_upper method) "OPTIONS").0 (rw f at (rw e at h))))
  ]
]

IsReading-reads_by : (method : String) → IsReading method → reads_by method ≡ true
IsReading-reads_by method (inl e) = rw e refl
IsReading-reads_by method (inr (inl e)) = rw e refl
IsReading-reads_by method (inr (inr e)) = rw e refl

pub Suffices-required :
    (method route_path : String) → Suffices method route_path (required_scope method route_path)
Suffices-required method route_path =
    rw (required_by_paths method route_path) (elim (Bool-cases (is_under route_path admin_paths)) [
      | inl e ↦ rw e admin
      | inr e ↦ elim (Bool-cases (is_under route_path audit_paths)) [
        | inl f ↦ rw (e, f) (audit e f)
        | inr f ↦ elim (Bool-cases (reads_by method)) [
          | inl g ↦ rw (e, f, g) (read e f (reads_by-IsReading method g))
          | inr g ↦
              rw (e, f, g) (write e f (λ r. false_ne_true (sym g ∙ IsReading-reads_by method r)))
        ]
      ]
    ])

-- Only the required scope and `admin` suffice.
pub required-Suffices :
    (method route_path scope : String)
    → Suffices method route_path scope
    → (scope ≡ "admin") ⊎ (scope ≡ required_scope method route_path)
required-Suffices method route_path scope admin = inl refl
required-Suffices method route_path scope (audit h k) =
    inr (rw (required_by_paths method route_path) (rw (h, k) refl))
required-Suffices method route_path scope (read h k l) =
    inr (rw (required_by_paths method route_path) (rw (h, k, IsReading-reads_by method l) refl))
required-Suffices method route_path scope (write h k l) =
    inr (rw (required_by_paths method route_path) (rw (h, k, other) refl))
  where
    other : reads_by method ≡ false
    other = elim (Bool-cases (reads_by method)) [
      | inl g ↦ absurd (l (reads_by-IsReading method g))
      | inr g ↦ g
    ]
