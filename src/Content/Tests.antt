-- ===== src/Content/Tests.antt =====
-- Runs of the content lifecycle, and its theorems at concrete inputs.
use wordclaw.Shared.{◌≡◌, refl, true, false, some, [], ◌∷◌, nat_eq, string_eq}
use wordclaw.Shared.Json.{num, obj, end, field, get}
use wordclaw.Content.Lifecycle.{
  LifecycleConfig, updated_clock, ContentItem, Contents, archive_expired_content_items,
  get_content_lifecycle_schema_config, normalize_lifecycle_clock, ttl_field,
}
use wordclaw.Content.Lifecycle.Sweep.{second_sweep_archives_none}

abbrev hourly : LifecycleConfig
hourly = record { ttl_seconds = 3600; archive_status = "archived"; clock = updated_clock }

config_runs :
    get_content_lifecycle_schema_config (
      some (
        obj (
          field "ttlSeconds"
            (num (record { negative = false; integer_part = 3600; whole = true }))
            end)))
    ≡ some hourly
unfolding get_content_lifecycle_schema_config get normalize_lifecycle_clock ttl_field
config_runs = refl

abbrev draft : ContentItem
draft = record {
  id = 4;
  domain_id = 1;
  content_type_id = 2;
  content_data = "{}";
  status = "draft";
  version = 1;
  created_at = 0;
  updated_at = 400000;
}

abbrev store : Contents
store = record { items = draft ∷ []; versions = [] }

second_sweep_archives_none_example :
    archive_expired_content_items 1 2 hourly 4000000
      (archive_expired_content_items 1 2 hourly 4000000 store).1
    ≡ (0, (archive_expired_content_items 1 2 hourly 4000000 store).1)
second_sweep_archives_none_example = second_sweep_archives_none 1 2 hourly 4000000 store
