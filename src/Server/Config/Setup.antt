-- ===== src/Server/Config/Setup.antt =====
-- nimbis/src/config.rs, `setup` and what it calls, and the log output of nimbis-telemetry/src/logger.rs: the
-- configuration from a file, the command line and the environment.
use nimbis.Prelude.{
  ℕ, Bool, true, false, ◌||◌, Bytes, List, [], ◌∷◌, codes, drop, length, if◌then◌else◌, Option,
  none, some, Result, ok, err,
}
use nimbis.Resp.External.{External}
use nimbis.Resp.Utils.{same_bytes}
use nimbis.Storage.BigEndian.{bytes_less}
use nimbis.Storage.Keys.Prefix.{starts_with}
use nimbis.Server.Platform.{Texts, is_text, parse_unsigned}
use nimbis.Server.Config.{
  ServerConfig, ConfigError, io, toml_parse, json_parse, yaml_parse, unsupported_format,
  no_extension, invalid_env_var, telemetry_error, TelemetryError, invalid_log_output,
  invalid_log_rotation, Support, default_config, validate, ascii_lowercase, trim, is_empty,
}

-- `Cli`, parsed by clap.
pub record Cli : Type 0 where
  pub config : Option Bytes
  pub port : Option ℕ
  pub host : Option Bytes
  pub log_level : Option Bytes
  pub runtime_threads : Option ℕ

-- The file system, and the deserialisers of toml, serde_json and serde_yaml. `read_to_string` has the text
-- of a file, `is_file` is the test for the default path, and `extension` is that of a path.
pub record Files : Type 0 where
  pub is_file : Bytes → Bool
  pub read_to_string : Bytes → Option Bytes
  pub extension : Bytes → Option Bytes
  pub from_toml : Bytes → Option ServerConfig
  pub from_json : Bytes → Option ServerConfig
  pub from_yaml : Bytes → Option ServerConfig

abbrev pub default_path : Bytes
default_path = codes "./config/config.toml"

unfoldable pub resolve_config_path : ⦃f : Files⦄ → Option Bytes → Option Bytes
resolve_config_path (some path) = some path
resolve_config_path ⦃f⦄ none = if f.is_file default_path then some default_path else none

abbrev pub parsed_or : Option ServerConfig → ConfigError → Result ConfigError ServerConfig
parsed_or none e = err e
parsed_or (some c) e = ok c

unfoldable pub parse_content : ⦃f : Files⦄ → Bytes → Bytes → Bytes → Result ConfigError ServerConfig
parse_content ⦃f⦄ content extension lower =
    if is_text lower (codes "toml")
    then parsed_or (f.from_toml content) toml_parse
    else if is_text lower (codes "json")
    then parsed_or (f.from_json content) json_parse
    else if is_text lower (codes "yaml") || is_text lower (codes "yml")
    then parsed_or (f.from_yaml content) yaml_parse
    else err (unsupported_format extension)

infixl 5 ◌>>=◌
abbrev pub ◌>>=◌ :
    {A B : Type 0} → Result ConfigError A → (A → Result ConfigError B) → Result ConfigError B
◌>>=◌ (ok a) f = f a
◌>>=◌ (err e) f = err e

abbrev pub or_error : {A : Type 0} → Option A → ConfigError → Result ConfigError A
or_error none e = err e
or_error (some a) e = ok a

abbrev pub checked : ⦃s : Support⦄ → ServerConfig → Result ConfigError ServerConfig
checked c = do _ ← validate c; ok c

unfoldable pub load_from_file :
    ⦃s : Support⦄ ⦃f : Files⦄ ⦃p : Texts⦄ → Bytes → Result ConfigError ServerConfig
unfolding parse_content
load_from_file ⦃s⦄ ⦃f⦄ ⦃p⦄ path = do
  content ← or_error (f.read_to_string path) (io path)
  extension ← or_error (f.extension path) no_extension
  c ← parse_content content extension (p.to_lowercase extension)
  checked c

-- `unwrap_or_default` of the configuration in the file, if there is a file.
abbrev pub load_or_default :
    ⦃s : Support⦄ ⦃f : Files⦄ ⦃p : Texts⦄ → Option Bytes → Result ConfigError ServerConfig
load_or_default none = ok default_config
load_or_default (some path) = load_from_file path

abbrev pub or_else : {A : Type 0} → A → Option A → A
or_else a none = a
or_else a (some b) = b

-- The arguments of the command line.
unfoldable pub apply_cli : Cli → ServerConfig → ServerConfig
apply_cli args c = record c {
  host = or_else c.host args.host;
  port = or_else c.port args.port;
  log_level = or_else c.log_level args.log_level;
  runtime_threads = or_else c.runtime_threads args.runtime_threads;
}

-- `BTreeMap::insert`
unfoldable pub insert_option : Bytes → Bytes → List (Bytes × Bytes) → List (Bytes × Bytes)
insert_option k v [] = (k, v) ∷ []
insert_option k v ((j, w) ∷ es) =
    let rest = insert_option k v es in
    if same_bytes k j
    then (k, v) ∷ es
    else if bytes_less k j
    then (k, v) ∷ (j, w) ∷ es
    else (j, w) ∷ rest

abbrev pub option_prefix : Bytes
option_prefix = codes "NIMBIS_OBJECT_STORE_OPTION_"

-- One variable of the environment.
abbrev pub apply_variable : ServerConfig → Bytes → Bytes → ServerConfig
apply_variable c key v =
    if is_text key (codes "NIMBIS_OBJECT_STORE_URL")
    then record c { object_store_url = v }
    else if starts_with option_prefix key
    then record c {
      object_store_options =
          insert_option (ascii_lowercase (drop (length option_prefix) key)) v
            c.object_store_options;
    }
    else c

unfoldable pub apply_env_overrides : List (Bytes × Bytes) → ServerConfig → ServerConfig
unfolding insert_option starts_with
apply_env_overrides [] c = c
apply_env_overrides ((key, v) ∷ vars) c = apply_env_overrides vars (apply_variable c key v)

-- A variable that is set to more than white space.
abbrev pub non_empty : Option Bytes → Option Bytes
non_empty none = none
non_empty (some v) = if is_empty (trim v) then none else some v

abbrev pub read_non_empty_env : (Bytes → Option Bytes) → Bytes → Option Bytes
read_non_empty_env env key = non_empty (env key)

-- `str::parse::<bool>`
abbrev pub parse_bool : Bytes → Option Bool
parse_bool s =
    if is_text s (codes "true")
    then some true
    else if is_text s (codes "false")
    then some false
    else none

abbrev pub put_parsed :
    {A : Type 0} → Bytes → Bytes → (A → ServerConfig) → Option A → Result ConfigError ServerConfig
put_parsed key raw put none = err (invalid_env_var key raw)
put_parsed key raw put (some a) = ok (put a)

-- A variable that is set is parsed, and put into the configuration.
abbrev pub override_by :
    {A : Type 0}
    → Bytes
    → Option Bytes
    → (Bytes → Option A)
    → (A → ServerConfig)
    → ServerConfig
    → Result ConfigError ServerConfig
override_by key none parse put c = ok c
override_by key (some raw) parse put c = put_parsed key raw put (parse raw)

abbrev pub max_u64 : ℕ
max_u64 = 18_446_744_073_709_551_615

-- The blocks of `apply_trace_env_overrides`, one for each variable.
module _ (env : Bytes → Option Bytes) where
  abbrev pub override_with :
      {A : Type 0}
      → Bytes
      → (Bytes → Option A)
      → (A → ServerConfig)
      → ServerConfig
      → Result ConfigError ServerConfig
  override_with key parse put c = override_by key (read_non_empty_env env key) parse put c

  unfoldable pub override_enabled : ServerConfig → Result ConfigError ServerConfig
  unfolding trim
  override_enabled c =
      override_with (codes "NIMBIS_TRACE_ENABLED") parse_bool (λ v. record c { trace_enabled = v })
        c

  unfoldable pub override_endpoint : ServerConfig → Result ConfigError ServerConfig
  unfolding trim
  override_endpoint c =
      override_with (codes "NIMBIS_TRACE_ENDPOINT") some (λ v. record c { trace_endpoint = v }) c

  unfoldable pub override_ratio : ⦃x : External⦄ → ServerConfig → Result ConfigError ServerConfig
  unfolding trim
  override_ratio ⦃x⦄ c =
      override_with (codes "NIMBIS_TRACE_SAMPLING_RATIO") x.read_f64
        (λ v. record c { trace_sampling_ratio = v }) c

  unfoldable pub override_protocol : ServerConfig → Result ConfigError ServerConfig
  unfolding trim
  override_protocol c =
      override_with (codes "NIMBIS_TRACE_PROTOCOL") some (λ v. record c { trace_protocol = v }) c

  unfoldable pub override_timeout : ServerConfig → Result ConfigError ServerConfig
  unfolding trim parse_unsigned
  override_timeout c =
      override_with (codes "NIMBIS_TRACE_EXPORT_TIMEOUT_SECONDS") (parse_unsigned max_u64)
        (λ v. record c { trace_export_timeout_seconds = v }) c

  unfoldable pub override_interval : ServerConfig → Result ConfigError ServerConfig
  unfolding trim parse_unsigned
  override_interval c =
      override_with (codes "NIMBIS_TRACE_REPORT_INTERVAL_MS") (parse_unsigned max_u64)
        (λ v. record c { trace_report_interval_ms = v }) c

-- One step after the other, up to the first error.
abbrev pub in_turn :
    List (ServerConfig → Result ConfigError ServerConfig)
    → ServerConfig
    → Result ConfigError ServerConfig
in_turn [] c = ok c
in_turn (f ∷ fs) c = f c >>= in_turn fs

unfoldable pub apply_trace_env_overrides :
    ⦃x : External⦄ → (Bytes → Option Bytes) → ServerConfig → Result ConfigError ServerConfig
unfolding override_enabled override_endpoint override_ratio override_protocol override_timeout
    override_interval
apply_trace_env_overrides env = in_turn (
    override_enabled env
    ∷ override_endpoint env
    ∷ override_ratio env
    ∷ override_protocol env
    ∷ override_timeout env
    ∷ override_interval env
    ∷ [])

-- `LogRotation` and `LogOutput`; a log file is nimbis.log.
pub data LogRotation : Type 0 where
  minutely hourly daily never : LogRotation

pub data LogOutput : Type 0 where
  terminal : LogOutput
  file : Bytes → LogRotation → LogOutput

unfoldable pub rotation_from_mode : Bytes → Result ConfigError LogRotation
unfolding trim
rotation_from_mode mode =
    let m = ascii_lowercase (trim mode) in
    if is_text m (codes "minutely")
    then ok minutely
    else if is_text m (codes "hourly")
    then ok hourly
    else if is_text m (codes "daily")
    then ok daily
    else if is_text m (codes "never")
    then ok never
    else err (telemetry_error (invalid_log_rotation mode))

unfoldable pub resolve_log_output : ServerConfig → Result ConfigError LogOutput
unfolding rotation_from_mode trim
resolve_log_output c =
    let m = ascii_lowercase (trim c.log_output) in
    if is_text m (codes "terminal")
    then ok terminal
    else if is_text m (codes "file")
    then (do r ← rotation_from_mode c.log_rotation; ok (file (codes "nimbis.log") r))
    else err (telemetry_error (invalid_log_output c.log_output))

-- The start of telemetry may fail too; it changes nothing of the configuration.
abbrev pub start_telemetry : Option TelemetryError → ServerConfig → Result ConfigError ServerConfig
start_telemetry none c = ok c
start_telemetry (some e) c = err (telemetry_error e)

-- `vars` is the environment as a list, `env` as a lookup; the result is what `SERVER_CONF` is set to.
unfoldable pub setup :
    ⦃x : External⦄ ⦃s : Support⦄ ⦃f : Files⦄ ⦃p : Texts⦄
    → (ServerConfig → LogOutput → Option TelemetryError)
    → (Bytes → Option Bytes)
    → List (Bytes × Bytes)
    → Cli
    → Result ConfigError ServerConfig
unfolding resolve_config_path apply_cli apply_env_overrides apply_trace_env_overrides
    resolve_log_output
setup init_error env vars args = do
  c0 ← load_or_default (resolve_config_path args.config)
  let c1 = apply_env_overrides vars (apply_cli args c0)
  c2 ← apply_trace_env_overrides env c1
  c3 ← checked c2
  output ← resolve_log_output c3
  start_telemetry (init_error c3 output) c3
