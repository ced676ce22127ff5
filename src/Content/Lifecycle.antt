-- ===== src/Content/Lifecycle.antt =====
-- src/services/content-lifecycle.ts: archiving items whose time to live has passed, with the part of
-- src/services/content-schema.ts that reads the configuration. The compiled schema is an argument, and
-- the audit's entry of an archived item is left out.
pub mod Sweep
use wordclaw.Shared.{
  ℕ, ◌+◌, ◌*◌, String, Bool, true, false, not, ◌&&◌, ◌||◌, Option, none, some, List, [], ◌∷◌, ◌++◌,
  if◌then◌else◌, ◌==◌, ◌/=◌, nat_eq, string_eq, ltb, leb, keep, first, update, suc, zero, or_else,
  trim, non_empty, ℤ, pos, ◌-ℤ◌, leb_ℤ,
}
use wordclaw.Shared.Json.{Json, bool, num, str, obj, Number, Fields, get}

pub data Clock : Type 0 where
  created_clock updated_clock : Clock

pub record LifecycleConfig : Type 0 where
  pub ttl_seconds : ℕ
  pub archive_status : String
  pub clock : Clock

-- `normalizeLifecycleClock`.
unfoldable pub normalize_lifecycle_clock : Option Json → Option Clock
normalize_lifecycle_clock none = some updated_clock
normalize_lifecycle_clock (some (str s)) =
    if s == "createdAt"
    then some created_clock
    else if s == "updatedAt"
    then some updated_clock
    else none
normalize_lifecycle_clock (some _) = none

abbrev disabled : Option Json → Bool
disabled (some (bool false)) = true
disabled _ = false

-- A whole number of seconds from a minute to a year.
unfoldable pub ttl_field : Option Json → Option ℕ
ttl_field (some (num n)) =
    if n.whole && (not n.negative && (leb 60 n.integer_part && leb n.integer_part 31536000))
    then some n.integer_part
    else none
ttl_field _ = none

abbrev text_or : Option Json → String → String
text_or (some (str s)) d = if non_empty (trim s) then trim s else d
text_or _ d = d

-- `getContentLifecycleSchemaConfig` on the extension's value in a schema that compiles.
unfoldable pub get_content_lifecycle_schema_config : Option Json → Option LifecycleConfig
get_content_lifecycle_schema_config (some (obj fs)) =
    if disabled (get "enabled" fs)
    then none
    else elim (normalize_lifecycle_clock (get "clock" fs)) [
      | none ↦ none
      | some clock ↦ elim (ttl_field (get "ttlSeconds" fs)) [
        | none ↦ none
        | some ttl ↦ some (record {
          ttl_seconds = ttl;
          archive_status = text_or (get "archiveStatus" fs) "archived";
          clock = clock;
        })
      ]
    ]
get_content_lifecycle_schema_config _ = none

pub record ContentItem : Type 0 where
  pub id : ℕ
  pub domain_id : ℕ
  pub content_type_id : ℕ
  pub content_data : String
  pub status : String
  pub version : ℕ
  pub created_at : ℕ
  pub updated_at : ℕ

pub record ItemVersion : Type 0 where
  pub content_item_id : ℕ
  pub version : ℕ
  pub content_data : String
  pub status : String
  pub created_at : ℕ

pub record Contents : Type 0 where
  pub items : List ContentItem
  pub versions : List ItemVersion

abbrev pub reference_time : LifecycleConfig → ContentItem → ℕ
reference_time c i = elim c.clock [ created_clock ↦ i.created_at | updated_clock ↦ i.updated_at ]

unfoldable pub is_expired : LifecycleConfig → ℕ → ContentItem → Bool
is_expired c now i = leb (reference_time c i + c.ttl_seconds * 1000) now

abbrev pub is_item : ℕ → ℕ → ContentItem → Bool
is_item id domain_id i = i.id == id && i.domain_id == domain_id

abbrev pub archived : LifecycleConfig → ℕ → ContentItem → ContentItem → ContentItem
archived c now old i = record i {
  status = c.archive_status;
  version = old.version + 1;
  updated_at = now;
}

-- The transaction on an item as it was read, and the row that it gives back.
unfoldable pub archive_content_item :
    LifecycleConfig → ℕ → ContentItem → Contents → Option ContentItem × Contents
archive_content_item c now i s =
    let rows = update (is_item i.id i.domain_id) (archived c now i) s.items in
    (
      first (is_item i.id i.domain_id) rows,
      record {
        items = rows;
        versions =
            s.versions
            ++ record {
              content_item_id = i.id;
              version = i.version;
              content_data = i.content_data;
              status = i.status;
              created_at = i.updated_at;
            }
              ∷ [];
      },
    )

-- The query's condition: the item's time is at most the cutoff, which may lie before the epoch.
unfoldable pub is_due : ℕ → ℕ → LifecycleConfig → ℕ → ContentItem → Bool
is_due domain_id content_type_id c now i =
    i.domain_id == domain_id
    && (i.content_type_id == content_type_id
        && (i.status /= c.archive_status
            && leb_ℤ (pos (reference_time c i)) (pos now -ℤ pos (c.ttl_seconds * 1000))))

abbrev counted : Option ContentItem → ℕ → ℕ
counted none n = n
counted (some i) n = n + 1

unfoldable pub archive_all : LifecycleConfig → ℕ → ℕ → List ContentItem → Contents → ℕ × Contents
archive_all c now n [] s = (n, s)
archive_all c now n (i ∷ is) s =
    let step = archive_content_item c now i s in archive_all c now (counted step.0 n) is step.1

-- The sweep of one content type, for a schema with the configuration `c`.
unfoldable pub archive_expired_content_items : ℕ → ℕ → LifecycleConfig → ℕ → Contents → ℕ × Contents
archive_expired_content_items domain_id content_type_id c now s =
    archive_all c now 0 (keep (is_due domain_id content_type_id c now) s.items) s

-- The guard of `ensureContentItemLifecycleState`.
unfoldable pub must_archive : LifecycleConfig → ℕ → ContentItem → Bool
unfolding is_expired
must_archive c now i = not (i.status == c.archive_status || not (is_expired c now i))

unfoldable pub ensure_content_item_lifecycle_state :
    Option LifecycleConfig → ℕ → ContentItem → Contents → ContentItem × Contents
ensure_content_item_lifecycle_state none now i s = (i, s)
ensure_content_item_lifecycle_state (some c) now i s =
    let step = archive_content_item c now i s in
    if must_archive c now i then (or_else step.0 i, step.1) else (i, s)
