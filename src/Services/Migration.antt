-- ===== src/Services/Migration.antt =====
-- cerebro/services/config_migration.py: the chain of migrations of the configuration. `none` is a
-- TypeError, or that the fuel ran out: each migration of the registry leads to another version, so
-- that a run takes at most one step more than there are migrations.
pub mod Chain
use backhouse_dff.Base.{
  ℕ, zero, suc, ◌≡◌, String, Bool, true, false, Option, none, some, List, [], ◌∷◌, ◌++◌,
  if◌then◌else◌, text_key, ◌==◌,
}
use backhouse_dff.Services.Json.{
  Json, null, str, num, flag, list, obj, Items, nil, Fields, of_list, dict, get, get_or, set,
}

-- The key of the version that a migration leads from.
pub data Version : Type 0 where
  unhashable unknown first : Version

-- `_MIGRATIONS.get(current)`, by which entry it finds.
abbrev pub find_migration : Json → Version
find_migration (str v) = if v == "1.0.0" then first else unknown
find_migration (list _) = unhashable
find_migration (obj _) = unhashable
find_migration _ = unknown

abbrev pub is_text : Json → String → Bool
is_text (str v) target = v == target
is_text _ target = false

abbrev pub empty_list : Json
empty_list = list nil

-- An entry that is kept where the old configuration has it.
abbrev pub kept_if_present : String → Fields → List (String × Json)
kept_if_present key d = elim (get key d) [ none ↦ [] | some v ↦ (key, v) ∷ [] ]

-- `normal` is `str(Path(p))`, `join` is `str(Path(p) / name)`, `default_dir` is `~/.cerebro`.
module _ (normal : String → String) (join : String → String → String) (default_dir : String) where
  abbrev pub ui_fields : Fields → Json
  ui_fields d = dict (
      ("theme", get_or "theme" (str "dark") d)
      ∷ ("font_size", get_or "font_size" (num 12) d)
      ∷ ("font_family", get_or "font_family" (str "Segoe UI") d)
      ∷ ("animation_enabled", flag true)
      ∷ ("tooltips_enabled", flag true)
      ∷ ("confirm_deletions", flag true)
      ∷ ("auto_expand_results", flag false)
      ∷ ("show_hidden_files", flag false)
      ∷ ("thumbnail_size", num 64)
      ∷ ("max_recent_scans", num 10)
      ∷ [])

  abbrev pub filter_fields : Fields → Json
  filter_fields d = dict (
      ("include_patterns", empty_list)
      ∷ ("exclude_patterns", empty_list)
      ∷ ("include_extensions", get_or "allowed_extensions" empty_list d)
      ∷ ("exclude_extensions", empty_list)
      ∷ [])

  abbrev pub scan_fields : Fields → Json
  scan_fields d = dict (
      ("default_mode", get_or "scan_mode" (str "standard") d)
      ∷ ("min_file_size_kb", get_or "min_file_size_kb" (num 100) d)
      ∷ ("max_file_size_mb", get_or "max_file_size_mb" (num 0) d)
      ∷ ("default_hash_algorithm", get_or "hash_algorithm" (str "auto") d)
      ∷ ("cache_mode", get_or "cache_mode" (num 1) d)
      ∷ ("recursive", get_or "recursive" (flag true) d)
      ∷ ("follow_symlinks", get_or "follow_symlinks" (flag false) d)
      ∷ ("include_hidden", get_or "include_hidden" (flag false) d)
      ∷ ("skip_system_folders", get_or "skip_system_folders" (flag true) d)
      ∷ ("verify_after_copy", flag true)
      ∷ ("default_filters", filter_fields d)
      ∷ [])

  abbrev pub performance_fields : Fields → Json
  performance_fields d = dict (
      ("max_workers", get_or "max_workers" (num 4) d)
      ∷ ("io_buffer_size", num 8192)
      ∷ ("hash_chunk_size", num 65536)
      ∷ ("memory_limit_mb", num 1024)
      ∷ ("disk_cache_size_mb", num 100)
      ∷ ("thread_pool_size", num 8)
      ∷ [])

  abbrev pub notification_fields : Json
  notification_fields = dict (
      ("enabled", flag true)
      ∷ ("scan_complete", flag true)
      ∷ ("scan_error", flag true)
      ∷ ("update_available", flag true)
      ∷ ("sound_enabled", flag false)
      ∷ ("system_tray_notifications", flag true)
      ∷ ("email_notifications", flag false)
      ∷ ("email_address", str "")
      ∷ [])

  abbrev pub update_fields : Fields → Json
  update_fields d = dict (
      ("check_for_updates", get_or "check_for_updates" (flag true) d)
      ∷ ("auto_download_updates", flag false)
      ∷ ("update_channel", str "stable")
      ∷ ("update_server_url", str "")
      ∷ ("last_check_time", null)
      ∷ ("skipped_versions", empty_list)
      ∷ [])

  abbrev pub backup_fields : Json
  backup_fields = dict (
      ("enabled", flag true)
      ∷ ("interval_hours", num 24)
      ∷ ("max_backups", num 10)
      ∷ ("backup_location", str "")
      ∷ ("include_config", flag true)
      ∷ ("include_cache", flag false)
      ∷ ("include_history", flag true)
      ∷ ("compress_backups", flag true)
      ∷ [])

  abbrev pub migrated_fields : String → Fields → Fields
  migrated_fields home d = of_list (
      (("config_version", str "2.0.0")
        ∷ ("app_version", get_or "app_version" (str "5.0.0") d)
        ∷ ("data_dir", str home)
        ∷ ("cache_dir", str (join home "cache"))
        ∷ ("log_dir", str (join home "logs"))
        ∷ ("backup_dir", str (join home "backups"))
        ∷ ("last_station", get_or "last_station" (str "mission") d)
        ∷ ("recent_scans", get_or "recent_scans" empty_list d)
        ∷ ("recent_paths", get_or "recent_paths" empty_list d)
        ∷ ("debug_mode", get_or "debug_mode" (flag false) d)
        ∷ ("log_level", get_or "log_level" (str "INFO") d)
        ∷ ("telemetry_enabled", get_or "telemetry_enabled" (flag false) d)
        ∷ ("auto_save", flag true)
        ∷ ("minimize_to_tray", flag true)
        ∷ ("start_minimized", flag false)
        ∷ ("ui", ui_fields d)
        ∷ ("scan", scan_fields d)
        ∷ ("performance", performance_fields d)
        ∷ ("notifications", notification_fields)
        ∷ ("updates", update_fields d)
        ∷ ("backup", backup_fields)
        ∷ [])
      ++ kept_if_present "window_geometry" d
      ++ kept_if_present "window_state" d)

  abbrev pub migrate_home : Json → Fields → Option Fields
  migrate_home (str dir) d = some (migrated_fields (normal dir) d)
  migrate_home _ d = none

  unfoldable pub migrate_1_0_0_to_2_0_0 : Fields → Option Fields
  migrate_1_0_0_to_2_0_0 d = migrate_home (get_or "data_dir" (str default_dir) d) d

  unfoldable pub migrate_loop : ℕ → String → Json → Fields → Option Fields
  migrate_loop zero target current d = none
  migrate_loop (suc fuel) target current d =
      if is_text current target then some d else elim (find_migration current) [
        | unhashable ↦ none
        | unknown ↦ some (set "config_version" (str target) d)
        | first ↦ elim (migrate_1_0_0_to_2_0_0 d) [
          | none ↦ none
          | some d' ↦ migrate_loop fuel target (get_or "config_version" (str target) d') d'
        ]
      ]

  unfoldable pub migrate_config : String → Fields → Option Fields
  migrate_config target d = migrate_loop 2 target (get_or "config_version" (str "1.0.0") d) d
