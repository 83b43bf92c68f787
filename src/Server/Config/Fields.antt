-- ===== src/Server/Config/Fields.antt =====
-- nimbis-macros/src/lib.rs, `online_config_derive`, on the fields of nimbis/src/config.rs: reading, setting
-- and matching fields by their names.
use nimbis.Prelude.{
  Bool, true, false, ◌&&◌, ◌||◌, Bytes, List, [], ◌∷◌, ◌++◌, codes, drop, length, ◌-◌,
  if◌then◌else◌, Option, none, some, Result, ok, err, leb,
}
use nimbis.Prelude.Decimal.{print_ℕ}
use nimbis.Resp.External.{External}
use nimbis.Resp.Utils.{same_bytes}
use nimbis.Storage.Keys.Prefix.{starts_with}
use nimbis.Server.Platform.{is_text}
use nimbis.Server.Config.{
  ServerConfig, Support, TelemetryError, invalid_log_level, invalid_log_output,
  invalid_log_rotation, reload_failed, reload_log_level, not_initialized, already_initialized,
  init_failed, trace_init_failed,
}

-- `to_string` of a `bool`.
abbrev pub show_bool : Bool → Bytes
show_bool true = codes "true"
show_bool false = codes "false"

-- `get_all_fields`: the names, in the order of the struct, with the texts of the values.
unfoldable pub get_all_fields : ⦃x : External⦄ ⦃s : Support⦄ → ServerConfig → List (Bytes × Bytes)
unfolding print_ℕ
get_all_fields ⦃x⦄ ⦃s⦄ c =
    (codes "host", c.host)
    ∷ (codes "port", print_ℕ c.port)
    ∷ (codes "object_store_url", c.object_store_url)
    ∷ (codes "object_store_options", s.show_json c.object_store_options)
    ∷ (codes "save", c.save)
    ∷ (codes "appendonly", c.appendonly)
    ∷ (codes "log_level", c.log_level)
    ∷ (codes "log_output", c.log_output)
    ∷ (codes "log_rotation", c.log_rotation)
    ∷ (codes "trace_enabled", show_bool c.trace_enabled)
    ∷ (codes "trace_endpoint", c.trace_endpoint)
    ∷ (codes "trace_sampling_ratio", x.show_f64 c.trace_sampling_ratio)
    ∷ (codes "trace_protocol", c.trace_protocol)
    ∷ (codes "trace_export_timeout_seconds", print_ℕ c.trace_export_timeout_seconds)
    ∷ (codes "trace_report_interval_ms", print_ℕ c.trace_report_interval_ms)
    ∷ (codes "runtime_threads", print_ℕ c.runtime_threads)
    ∷ []

unfoldable pub list_fields : List Bytes
list_fields =
    codes "host"
    ∷ codes "port"
    ∷ codes "object_store_url"
    ∷ codes "object_store_options"
    ∷ codes "save"
    ∷ codes "appendonly"
    ∷ codes "log_level"
    ∷ codes "log_output"
    ∷ codes "log_rotation"
    ∷ codes "trace_enabled"
    ∷ codes "trace_endpoint"
    ∷ codes "trace_sampling_ratio"
    ∷ codes "trace_protocol"
    ∷ codes "trace_export_timeout_seconds"
    ∷ codes "trace_report_interval_ms"
    ∷ codes "runtime_threads"
    ∷ []

abbrev pub not_found : Bytes → Bytes
not_found key = codes "Field '" ++ (key ++ codes "' not found")

-- The arms of a match on a name, one for each field, and the last for any other name.
abbrev pub value_of : Bytes → List (Bytes × Bytes) → Result Bytes Bytes
value_of key [] = err (not_found key)
value_of key ((name, v) ∷ fields) = if is_text key name then ok v else value_of key fields

unfoldable pub get_field : ⦃x : External⦄ ⦃s : Support⦄ → ServerConfig → Bytes → Result Bytes Bytes
unfolding get_all_fields
get_field c key = value_of key (get_all_fields c)

abbrev pub names_field : Bytes → List Bytes → Bool
names_field key [] = false
names_field key (name ∷ names) = is_text key name || names_field key names

-- `to_string` of a `TelemetryError`.
abbrev pub show_telemetry_error : TelemetryError → Bytes
show_telemetry_error (invalid_log_level e) = codes "Invalid log level/filter expression: " ++ e
show_telemetry_error (invalid_log_output e) =
    codes "Invalid log output: " ++ (e ++ codes ". Valid values: terminal, file")
show_telemetry_error (invalid_log_rotation e) =
    codes "Invalid log rotation: " ++ (e ++ codes ". Valid values: minutely, hourly, daily, never")
show_telemetry_error not_initialized = codes "Logger not initialized"
show_telemetry_error already_initialized = codes "Logger already initialized"
show_telemetry_error (init_failed e) = codes "Failed to initialize logger: " ++ e
show_telemetry_error (trace_init_failed e) = codes "Failed to initialize trace collector: " ++ e
show_telemetry_error (reload_failed e) = codes "Failed to reload log level: " ++ e

abbrev pub with_log_level :
    ServerConfig → Bytes → Result TelemetryError (Unit {0}) → Result Bytes ServerConfig
with_log_level c v (ok _) = ok (record c { log_level = v })
with_log_level c v (err e) = err (show_telemetry_error e)

-- Of all fields only `log_level` is not immutable; its callback puts the filter in place. The
-- configuration is a copy, which is lost after an error.
unfoldable pub set_field : ⦃s : Support⦄ → ServerConfig → Bytes → Bytes → Result Bytes ServerConfig
unfolding list_fields reload_log_level
set_field c key v =
    if is_text key (codes "log_level")
    then with_log_level c v (reload_log_level v)
    else if names_field key list_fields
    then err (codes "Field '" ++ (key ++ codes "' is immutable"))
    else err (not_found key)

-- `str::contains` and `str::ends_with`.
unfoldable pub contains : Bytes → Bytes → Bool
unfolding starts_with
contains s [] = starts_with s []
contains s (c ∷ t) = starts_with s (c ∷ t) || contains s t

unfoldable pub ends_with : Bytes → Bytes → Bool
ends_with suffix s =
    leb (length suffix) (length s) && same_bytes (drop (length s - length suffix) s) suffix

-- `strip_suffix('*')`
abbrev pub strip_star : Bytes → Option Bytes
strip_star [] = none
strip_star (c ∷ []) = if leb c b'*' && leb b'*' c then some [] else none
strip_star (c ∷ d ∷ s) = elim (strip_star (d ∷ s)) [ none ↦ none | some t ↦ some (c ∷ t) ]

abbrev pub keep_if : (Bytes → Bool) → List Bytes → List Bytes
keep_if p [] = []
keep_if p (x ∷ xs) = let rest = keep_if p xs in if p x then x ∷ rest else rest

-- Behind a star in front: a star at the end too, or a suffix.
abbrev pub suffix_test : Bytes → Option Bytes → Bytes → Bool
suffix_test stripped none field = ends_with stripped field
suffix_test stripped (some middle) field = contains middle field

abbrev pub prefix_test : Bytes → Option Bytes → Bytes → Bool
prefix_test pattern none field = same_bytes field pattern
prefix_test pattern (some prefix) field = starts_with prefix field

-- The pattern `*` alone, which is tested first, keeps every field.
abbrev pub field_test : Bytes → Bytes → Bool
field_test [] field = prefix_test [] (strip_star []) field
field_test (c ∷ s) field =
    if is_text (c ∷ s) (codes "*")
    then true
    else if leb c b'*' && leb b'*' c
    then suffix_test s (strip_star s) field
    else prefix_test (c ∷ s) (strip_star (c ∷ s)) field

unfoldable pub match_fields : Bytes → List Bytes
unfolding contains ends_with starts_with list_fields
match_fields pattern = keep_if (field_test pattern) list_fields
