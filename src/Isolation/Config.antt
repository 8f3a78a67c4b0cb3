-- ===== src/Isolation/Config.antt =====
-- src/core/services/runtime-config.ts: the rows of global configuration. A missing row or a value of the wrong
-- type is an exception.
use fluxaos.Prelude.{
  ℕ, ◌≡◌, ap, String, Bool, true, false, ◌&&◌, Option, none, some, find, ltb, str_eq, if◌then◌else◌,
  Result, ok, err, ◌>>=◌,
}
use fluxaos.Store.{ConfigEntry, ConfigValue, Db}

abbrev is_none : Option ℕ → Bool
is_none none = true
is_none (some p) = false

abbrev pub is_global_entry : String → ConfigEntry → Bool
is_global_entry key c = is_none c.project_id && str_eq c.key key

abbrev value_of : Option ConfigEntry → Result String ConfigValue
value_of none = err "Missing global config_entry row"
value_of (some row) = ok row.value

unfoldable pub read_global_config_value : String → Db → Result String ConfigValue
read_global_config_value key db = value_of (find (is_global_entry key) db.config)

abbrev pub path_or_null : ConfigValue → Result String (Option String)
path_or_null ConfigValue.null = ok none
path_or_null (ConfigValue.text path) = ok (some path)
path_or_null _ = err "Expected string or jsonb null"

unfoldable pub get_runtime_workspace_root : Db → Result String (Option String)
unfolding read_global_config_value
get_runtime_workspace_root db =
    read_global_config_value "runtime.workspace_root" db >>= path_or_null

unfoldable pub get_runtime_artifacts_root : Db → Result String (Option String)
unfolding read_global_config_value
get_runtime_artifacts_root db =
    read_global_config_value "runtime.artifacts_root" db >>= path_or_null

abbrev pub as_positive : ConfigValue → Result String ℕ
as_positive (ConfigValue.whole n) = if ltb 0 n then ok n else err "Expected positive integer"
as_positive _ = err "Expected positive integer"

abbrev pub as_boolean : ConfigValue → Result String Bool
as_boolean (ConfigValue.boolean b) = ok b
as_boolean _ = err "Expected boolean"

unfoldable pub read_global_config_positive_int : String → Db → Result String ℕ
unfolding read_global_config_value
read_global_config_positive_int key db = read_global_config_value key db >>= as_positive

unfoldable pub read_global_config_boolean : String → Db → Result String Bool
unfolding read_global_config_value
read_global_config_boolean key db = read_global_config_value key db >>= as_boolean

abbrev pub get_cleanup_sweep_interval_min : Db → Result String ℕ
get_cleanup_sweep_interval_min = read_global_config_positive_int "cleanup.sweep_interval_min"

abbrev pub get_cleanup_stale_days : Db → Result String ℕ
get_cleanup_stale_days = read_global_config_positive_int "cleanup.stale_days"

abbrev pub get_cleanup_session_retention_days : Db → Result String ℕ
get_cleanup_session_retention_days =
    read_global_config_positive_int "cleanup.session_retention_days"

abbrev pub get_cleanup_artifacts_retention_days : Db → Result String ℕ
get_cleanup_artifacts_retention_days =
    read_global_config_positive_int "cleanup.artifacts_retention_days"

abbrev pub get_cleanup_scheduler_enabled : Db → Result String Bool
get_cleanup_scheduler_enabled = read_global_config_boolean "cleanup.scheduler_enabled"

-- A row of the configuration is read from the configuration alone.
pub read_global_config_value-config :
    (key : String) (db db' : Db)
    → db'.config ≡ db.config
    → read_global_config_value key db' ≡ read_global_config_value key db
unfolding read_global_config_value
read_global_config_value-config key db db' e =
    ap (λ rows. value_of (find (is_global_entry key) rows)) e

pub get_runtime_workspace_root-config :
    (db db' : Db)
    → db'.config ≡ db.config
    → get_runtime_workspace_root db' ≡ get_runtime_workspace_root db
unfolding get_runtime_workspace_root
get_runtime_workspace_root-config db db' e =
    ap (λ r. r >>= path_or_null) (read_global_config_value-config "runtime.workspace_root" db db' e)

pub get_runtime_artifacts_root-config :
    (db db' : Db)
    → db'.config ≡ db.config
    → get_runtime_artifacts_root db' ≡ get_runtime_artifacts_root db
unfolding get_runtime_artifacts_root
get_runtime_artifacts_root-config db db' e =
    ap (λ r. r >>= path_or_null) (read_global_config_value-config "runtime.artifacts_root" db db' e)
