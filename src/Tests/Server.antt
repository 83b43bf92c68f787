-- ===== src/Tests/Server.antt =====
-- Runs of the server (nimbis/src) and instances of its theorems, on databases in memory. Texts are ASCII,
-- every write succeeds, and there are no files.
use nimbis.Prelude.{
  true, false, ◌≡◌, ◌≢◌, refl, Bytes, List, [], ◌∷◌, ◌++◌, codes, arith, Option, none, some, ok,
  if◌then◌else◌,
}
use nimbis.Prelude.Int.{ℤ, pos, eqb_ℤ, ◌+ℤ◌}
use nimbis.Resp.Types.{RespValue, no_values, value, count_values, as_array, as_bytes}
use nimbis.Resp.Parser.Frames.{root}
use nimbis.Resp.Utils.{is_utf8, utf8_run, utf8_next, utf8_lead, same_bytes}
use nimbis.Storage.Zsets.{MapOrder}
use nimbis.Server.Platform.{
  Texts, DatabaseTexts, map_bytes, ascii_upper, ascii_lower, parse_unsigned, is_text,
}
use nimbis.Server.Config.{
  ServerConfig, Support, default_config, validate, validate_log_level, reload_log_level, trim,
  trim_start, trim_end,
}
use nimbis.Server.Config.Fields.{set_field}
use nimbis.Server.Config.Checked.{IsValid, set_field-IsValid, validate-IsValid}
use nimbis.Server.Config.Setup.{
  Cli, Files, setup, resolve_config_path, apply_cli, apply_env_overrides, apply_trace_env_overrides,
  resolve_log_output, override_enabled, override_endpoint, override_ratio, override_protocol,
  override_timeout, override_interval,
}
use nimbis.Server.Config.Overrides.{Obeys, setup-IsValid}
use nimbis.Server.Sessions.{set_name, get_name, next_client_session_id}
use nimbis.Server.Sessions.Lives.{
  Life, Lives, at_start, number, start_running, nobody, accepted, registered, has_id, IsOrderly,
  Lives-IsOrderly, get_name-set_name,
}
use nimbis.Server.Commands.{CmdContext, Shared, ParsedCmd, try_from, as_str, collect_args}
use nimbis.Server.Connection.{read_bytes, write_done, Socket, run, execute_command}
use nimbis.Server.Connection.Total.{execute_command_total}
use nimbis.Server.Connection.Pipeline.{
  AreCommands, Executes, after_replies, encode_all, run-Executes,
}
use nimbis.Tests.Resp.{toy}
use nimbis.Server.Platform.{parse_unsigned}
use nimbis.Server.Commands.{parse_int}
use nimbis.Prelude.Decimal.{digits_value}
use nimbis.Server.Commands.Bounds.{PopHasRoom}
use nimbis.Tests.Memory.{memory_db, empty_world}

instance abbrev ascii : Texts
ascii = record {
  to_uppercase = map_bytes ascii_upper;
  to_lowercase = map_bytes ascii_lower;
  upper-ascii = λ s h. refl;
  lower-ascii = λ s h. refl;
  from_utf8_lossy = λ s. s;
  lossy-utf8 = λ s h. refl;
  show_parse_error = λ e. codes "bad input";
  inconsistency = codes "lost";
  package_version = codes "0.1.0";
}

instance abbrev plain : DatabaseTexts Bytes
plain = record { show_database_error = λ e. e }

instance abbrev pub in_order : MapOrder
in_order = record {
  iterate = λ es. es;
  iterate-distinct = λ es h. h;
  score_of-iterate = λ member es. refl;
}

instance abbrev lenient : Support
lenient = record {
  env_filter_error = λ level. none;
  has_reload_handle = true;
  reload_error = λ level. none;
  parse_url = λ s. none;
  object_store_url_error = λ url. none;
  show_json = λ es. codes "{}";
  cpus = 4;
}

instance abbrev no_files : Files
no_files = record {
  is_file = λ path. false;
  read_to_string = λ path. none;
  extension = λ path. none;
  from_toml = λ s. none;
  from_json = λ s. none;
  from_yaml = λ s. none;
}

abbrev client : CmdContext
client = record { client_id = pos 1 }

abbrev fresh_state : Shared memory_db
unfolding default_config
fresh_state = record {
  storage = empty_world;
  client_sessions = (record { id = pos 1; name = none }) ∷ [];
  config = default_config;
}

abbrev socket : Socket
socket = record { sent = []; writes = 0; outcome = λ n. write_done }

-- A command with too few arguments, and the beginning of another.
abbrev short_set : Bytes
short_set = codes "SET k" ++ 13 ∷ 10 ∷ codes "GE"

-- HGET without a field.
abbrev pop_three : ParsedCmd
pop_three = record { name = codes "LPOP"; args = codes "k" ∷ codes "3" ∷ [] }

pop_three-PopHasRoom : PopHasRoom (codes "LPOP") pop_three.args
unfolding same_bytes is_utf8 utf8_run utf8_next utf8_lead parse_int parse_unsigned digits_value
pop_three-PopHasRoom h = refl

set-PopHasRoom : (args : List Bytes) → PopHasRoom (codes "SET") args
unfolding same_bytes
set-PopHasRoom args h = cc h

get-PopHasRoom : (args : List Bytes) → PopHasRoom (codes "GET") args
unfolding same_bytes
get-PopHasRoom args h = cc h

execute_command_total_example : execute_command client pop_three fresh_state ≢ none
execute_command_total_example =
    execute_command_total client pop_three fresh_state pop_three-PopHasRoom

abbrev bulk : Bytes → RespValue
bulk s = RespValue.bulk_string s

-- `set k v` and `GET k`.
abbrev requests : List RespValue
requests =
    RespValue.array
      (value (bulk (codes "set")) (value (bulk (codes "k")) (value (bulk (codes "v")) no_values)))
    ∷ RespValue.array (value (bulk (codes "GET")) (value (bulk (codes "k")) no_values))
    ∷ []

abbrev the_commands : List ParsedCmd
the_commands =
    (record { name = codes "SET"; args = codes "k" ∷ codes "v" ∷ [] })
    ∷ (record { name = codes "GET"; args = codes "k" ∷ [] })
    ∷ []

requests-AreCommands : AreCommands requests the_commands
unfolding try_from as_array as_str as_bytes collect_args count_values is_utf8 utf8_run utf8_next
    utf8_lead
requests-AreCommands = (
  (omega arith, (omega arith, (omega arith, (omega arith, tt))), refl),
  refl,
  ((omega arith, (omega arith, (omega arith, tt)), refl), refl, tt),
)

run-Executes_example :
    (replies : List RespValue) × (s' : Shared memory_db) × Executes client the_commands fresh_state
      replies s'
    × (run client (read_bytes (encode_all requests) ∷ read_bytes [] ∷ []) [] [] fresh_state socket
        ≡ run client (read_bytes [] ∷ []) (root ∷ []) [] s' (after_replies socket replies))
run-Executes_example =
    run-Executes client
      (RespValue.array (
        value (bulk (codes "set")) (value (bulk (codes "k")) (value (bulk (codes "v")) no_values))))
      (RespValue.array (value (bulk (codes "GET")) (value (bulk (codes "k")) no_values)) ∷ [])
      the_commands (read_bytes [] ∷ []) [] fresh_state socket requests-AreCommands refl (λ n. refl)
      (set-PopHasRoom (codes "k" ∷ codes "v" ∷ []), (get-PopHasRoom (codes "k" ∷ []), tt))

default-IsValid : IsValid default_config
unfolding default_config validate validate_log_level trim trim_start trim_end same_bytes
default-IsValid = validate-IsValid default_config refl

louder :
    set_field default_config (codes "log_level") (codes "debug")
    ≡ ok (record default_config { log_level = codes "debug" })
unfolding set_field reload_log_level validate_log_level same_bytes
louder = refl

set_field-IsValid_example : IsValid (record default_config { log_level = codes "debug" })
set_field-IsValid_example =
    set_field-IsValid default_config (record default_config { log_level = codes "debug" })
      (codes "log_level") (codes "debug") default-IsValid louder

abbrev arguments : Cli
arguments = record {
  config = none;
  port = some 7000;
  host = none;
  log_level = none;
  runtime_threads = some 2;
}

abbrev configured : ServerConfig
configured = record default_config {
  port = 7000;
  runtime_threads = 2;
  trace_report_interval_ms = 50;
}

abbrev variables : Bytes → Option Bytes
variables key =
    if is_text key (codes "NIMBIS_TRACE_REPORT_INTERVAL_MS") then some (codes "50") else none

configured-setup : setup (λ c output. none) variables [] arguments ≡ ok configured
unfolding setup resolve_config_path apply_cli apply_env_overrides apply_trace_env_overrides
    resolve_log_output override_enabled override_endpoint override_ratio override_protocol
    override_timeout override_interval default_config validate validate_log_level trim trim_start
    trim_end same_bytes parse_unsigned
configured-setup = refl

setup-IsValid_example : IsValid configured × Obeys arguments configured
setup-IsValid_example =
    setup-IsValid (λ c output. none) variables [] arguments configured configured-setup

-- Two connections, the second of them with running commands.
abbrev two_clients : Life
two_clients = start_running (pos 2) (number (number at_start))

two-Lives : Lives 2 two_clients
unfolding number next_client_session_id ◌+ℤ◌
two-Lives = registered (pos 2) refl (accepted (accepted nobody))

Lives-IsOrderly_example : IsOrderly 2 two_clients
Lives-IsOrderly_example = Lives-IsOrderly 2 two_clients (omega arith) two-Lives

two_running : has_id (pos 2) two_clients.running ≡ true
unfolding start_running
two_running = refl

get_name-set_name_example :
    ((set_name (pos 2) (codes "b") two_clients.sessions).0 ≡ true)
    × ((j : ℤ)
        → get_name j (set_name (pos 2) (codes "b") two_clients.sessions).1
          ≡ (if eqb_ℤ j (pos 2) then some (codes "b") else get_name j two_clients.sessions))
    × ((j : ℤ)
        → has_id j two_clients.running ≡ false
        → has_id j two_clients.panicked ≡ false
        → get_name j two_clients.sessions ≡ none)
get_name-set_name_example =
    get_name-set_name 2 two_clients (pos 2) (codes "b") (omega arith) two-Lives two_running
