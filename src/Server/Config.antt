-- ===== src/Server/Config.antt =====
-- nimbis/src/config.rs and cli.rs: the configuration, its checks and where it comes from; the log levels and
-- rotations of nimbis-telemetry/src/logger.rs. The fields by their names are in Config/Fields.
pub mod Fields
pub mod Setup
pub mod Checked
pub mod Overrides
use nimbis.Prelude.{
  ℕ, zero, suc, ◌+◌, ◌-◌, ◌<◌, ◌^◌, ◌≡◌, Bool, true, false, not, ◌&&◌, ◌||◌, Bytes, List, [], ◌∷◌,
  ◌++◌, ◌==◌, ltb, leb, codes, drop, length, if◌then◌else◌, Option, none, some, Result, ok, err,
}
use nimbis.Resp.Types.{F64, is_nan}
use nimbis.Resp.Utils.{same_bytes}
use nimbis.Resp.Parser.Inline.{space_width}
use nimbis.Storage.Score.{less_f64}
use nimbis.Server.Platform.{ascii_lower, map_bytes, is_text}

-- nimbis-telemetry/src/lib.rs
pub data TelemetryError : Type 0 where
  invalid_log_output invalid_log_rotation : Bytes → TelemetryError
  not_initialized already_initialized : TelemetryError
  invalid_log_level reload_failed init_failed trace_init_failed : Bytes → TelemetryError

-- The errors of other crates stand without their contents.
pub data ConfigError : Type 0 where
  io : Bytes → ConfigError
  toml_parse json_parse yaml_parse : ConfigError
  unsupported_format : Bytes → ConfigError
  no_extension trace_endpoint_required : ConfigError
  invalid_trace_endpoint invalid_object_store_url : Bytes → ConfigError
  invalid_trace_sampling_ratio : F64 → ConfigError
  invalid_runtime_threads : ConfigError
  invalid_trace_protocol : Bytes → ConfigError
  invalid_trace_export_timeout invalid_trace_report_interval : ConfigError
  invalid_env_var : Bytes → Bytes → ConfigError
  telemetry_error : TelemetryError → ConfigError

-- `object_store_options` is the entries of the `BTreeMap` in the order of their keys.
pub record ServerConfig : Type 0 where
  pub host : Bytes
  pub port : ℕ
  pub object_store_url : Bytes
  pub object_store_options : List (Bytes × Bytes)
  pub save : Bytes
  pub appendonly : Bytes
  pub log_level : Bytes
  pub log_output : Bytes
  pub log_rotation : Bytes
  pub trace_enabled : Bool
  pub trace_endpoint : Bytes
  pub trace_sampling_ratio : F64
  pub trace_protocol : Bytes
  pub trace_export_timeout_seconds : ℕ
  pub trace_report_interval_ms : ℕ
  pub runtime_threads : ℕ

-- What `Url::parse` of the crate url gives that the checks use.
pub record Url : Type 0 where
  pub scheme : Bytes
  pub host_str : Option Bytes

-- The filters of tracing-subscriber (an error has a text), the handle that puts one in place, the URLs, the
-- object stores of object_store, JSON, and the number of processors.
pub record Support : Type 0 where
  pub env_filter_error : Bytes → Option Bytes
  pub has_reload_handle : Bool
  pub reload_error : Bytes → Option Bytes
  pub parse_url : Bytes → Option Url
  pub object_store_url_error : Bytes → Option Bytes
  pub show_json : List (Bytes × Bytes) → Bytes
  pub cpus : ℕ

-- `0.0001` and `1.0`
abbrev pub default_ratio : F64
default_ratio = 0x3f1a_36e2_eb1c_432d

abbrev pub one : F64
one = 0x3ff0_0000_0000_0000

unfoldable pub default_config : ⦃s : Support⦄ → ServerConfig
default_config ⦃s⦄ = record {
  host = codes "127.0.0.1";
  port = 6379;
  object_store_url = codes "file:nimbis_store";
  object_store_options = [];
  save = [];
  appendonly = codes "no";
  log_level = codes "info";
  log_output = codes "terminal";
  log_rotation = codes "daily";
  trace_enabled = false;
  trace_endpoint = [];
  trace_sampling_ratio = default_ratio;
  trace_protocol = codes "grpc";
  trace_export_timeout_seconds = 10;
  trace_report_interval_ms = 1000;
  runtime_threads = s.cpus;
}

-- `str::trim`; a byte inside a character begins no white space.
unfoldable pub trim_start : ℕ → Bytes → Bytes
unfolding space_width
trim_start zero s = s
trim_start (suc fuel) s =
    let rest = trim_start fuel (drop (space_width s) s) in if space_width s == 0 then s else rest

abbrev pub is_empty : Bytes → Bool
is_empty [] = true
is_empty (c ∷ s) = false

abbrev pub is_blank : Bytes → Bool
is_blank s = is_empty (trim_start (length s) s)

unfoldable pub trim_end : Bytes → Bytes
unfolding trim_start
trim_end [] = []
trim_end (c ∷ s) = let rest = trim_end s in if is_blank (c ∷ s) then [] else c ∷ rest

unfoldable pub trim : Bytes → Bytes
unfolding trim_start trim_end
trim s = trim_end (trim_start (length s) s)

abbrev pub ascii_lowercase : Bytes → Bytes
ascii_lowercase = map_bytes ascii_lower

abbrev pub Checked : Type 0
Checked = Result ConfigError (Unit {0})

abbrev pub require : Bool → ConfigError → Checked
require true e = ok tt
require false e = err e

abbrev pub and_also : Checked → Checked → Checked
and_also (ok _) next = next
and_also (err e) next = err e

-- `parse_env_filter` and `validate_log_level` of logger.rs.
unfoldable pub validate_log_level : ⦃s : Support⦄ → Bytes → Result TelemetryError (Unit {0})
validate_log_level ⦃s⦄ level = elim (s.env_filter_error level) [
  | none ↦ ok tt
  | some e ↦ err (invalid_log_level (level ++ (codes ": " ++ e)))
]

abbrev pub reloaded : Option Bytes → Result TelemetryError (Unit {0})
reloaded none = ok tt
reloaded (some e) = err (reload_failed e)

-- `Logger::reload_log_level`: without a handle, nothing is put in place.
unfoldable pub reload_log_level : ⦃s : Support⦄ → Bytes → Result TelemetryError (Unit {0})
unfolding validate_log_level
reload_log_level ⦃s⦄ level = elim (validate_log_level level) [
  | err e ↦ err e
  | ok _ ↦ if s.has_reload_handle then reloaded (s.reload_error level) else ok tt
]

abbrev pub is_http_host : Url → Bool
is_http_host url =
    (is_text url.scheme (codes "http") || is_text url.scheme (codes "https"))
    && (elim url.host_str [ none ↦ false | some h ↦ true ])

abbrev pub check_url : Bytes → Option Url → Checked
check_url endpoint none = err (invalid_trace_endpoint endpoint)
check_url endpoint (some url) = require (is_http_host url) (invalid_trace_endpoint endpoint)

unfoldable pub validate_trace_endpoint : ⦃s : Support⦄ → Bytes → Checked
unfolding trim
validate_trace_endpoint ⦃s⦄ endpoint =
    if is_empty endpoint
    then err trace_endpoint_required
    else if not (same_bytes (trim endpoint) endpoint)
    then err (invalid_trace_endpoint endpoint)
    else check_url endpoint (s.parse_url endpoint)

abbrev pub as_telemetry : Result TelemetryError (Unit {0}) → Checked
as_telemetry (ok _) = ok tt
as_telemetry (err e) = err (telemetry_error e)

abbrev pub check_object_store_url : ⦃s : Support⦄ → Bytes → Checked
check_object_store_url ⦃s⦄ url = elim (s.object_store_url_error url) [
  | none ↦ ok tt
  | some e ↦ err (invalid_object_store_url (url ++ (codes " (" ++ (e ++ codes ")"))))
]

-- `(0.0..=1.0).contains(&ratio)`
abbrev pub is_ratio : F64 → Bool
is_ratio r = not (is_nan r) && not (less_f64 r 0) && not (less_f64 one r)

abbrev pub is_protocol : Bytes → Bool
is_protocol p =
    is_text p (codes "grpc") || is_text p (codes "http_binary") || is_text p (codes "http_json")

unfoldable pub validate : ⦃s : Support⦄ → ServerConfig → Checked
unfolding validate_log_level validate_trace_endpoint trim less_f64
validate c = and_also (as_telemetry (validate_log_level c.log_level)) (
    and_also (check_object_store_url c.object_store_url) (
      and_also (if c.trace_enabled then validate_trace_endpoint c.trace_endpoint else ok tt) (
        and_also
          (require (is_ratio c.trace_sampling_ratio)
            (invalid_trace_sampling_ratio c.trace_sampling_ratio))
          (and_also (require (not (c.runtime_threads == 0)) invalid_runtime_threads) (
            and_also
              (require (is_protocol (ascii_lowercase (trim c.trace_protocol)))
                (invalid_trace_protocol c.trace_protocol))
              (and_also
                (require (not (c.trace_export_timeout_seconds == 0)) invalid_trace_export_timeout)
                (require (not (c.trace_report_interval_ms == 0))
                  invalid_trace_report_interval)))))))
