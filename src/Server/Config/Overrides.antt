-- ===== src/Server/Config/Overrides.antt =====
-- Where the configuration of `setup` (nimbis/src/config.rs) comes from: the command line comes before the
-- file, and the checks come last.
use nimbis.Prelude.{
  ℕ, ◌≡◌, refl, ◌∙◌, Bytes, List, [], ◌∷◌, ap, arith, subst, codes, Option, none, some, Result, ok,
  err,
}
use nimbis.Resp.External.{External}
use nimbis.Server.Platform.{Texts, parse_unsigned}
use nimbis.Server.Config.{ServerConfig, ConfigError, Support, Checked, validate, TelemetryError}
use nimbis.Server.Config.Checked.{IsValid, validate-IsValid}
use nimbis.Server.Config.Setup.{
  max_u64, parse_bool, Cli, Files, LogOutput, setup, load_or_default, resolve_config_path,
  apply_cli, apply_variable, put_parsed, apply_env_overrides, apply_trace_env_overrides, checked,
  resolve_log_output, start_telemetry, override_by, override_with, override_enabled,
  override_endpoint, override_ratio, override_protocol, override_timeout, override_interval,
  in_turn, ◌>>=◌,
}

-- What the command line gave.
pub record Obeys (args : Cli) (c : ServerConfig) : Type 0 where
  pub host : (v : Bytes) → args.host ≡ some v → c.host ≡ v
  pub port : (v : ℕ) → args.port ≡ some v → c.port ≡ v
  pub log_level : (v : Bytes) → args.log_level ≡ some v → c.log_level ≡ v
  pub runtime_threads : (v : ℕ) → args.runtime_threads ≡ some v → c.runtime_threads ≡ v

-- The fields that no variable of the environment sets.
abbrev pub base : ServerConfig → Bytes × ℕ × Bytes × ℕ
base c = (c.host, c.port, c.log_level, c.runtime_threads)

abbrev pub SameBase : ServerConfig → ServerConfig → Type 0
SameBase b c = base c ≡ base b

apply_cli-Obeys : (args : Cli) (c : ServerConfig) → Obeys args (apply_cli args c)
unfolding apply_cli
apply_cli-Obeys args c = record {
  host = λ v e. rw e refl;
  port = λ v e. rw e refl;
  log_level = λ v e. rw e refl;
  runtime_threads = λ v e. rw e refl;
}

Obeys-SameBase : (args : Cli) (b c : ServerConfig) → SameBase b c → Obeys args b → Obeys args c
Obeys-SameBase args b c s h = record {
  host = λ v e. ap (λ (f : Bytes × ℕ × Bytes × ℕ). f.0) s ∙ h.host v e;
  port = λ v e. ap (λ (f : Bytes × ℕ × Bytes × ℕ). f.1) s ∙ h.port v e;
  log_level = λ v e. ap (λ (f : Bytes × ℕ × Bytes × ℕ). f.2) s ∙ h.log_level v e;
  runtime_threads = λ v e. ap (λ (f : Bytes × ℕ × Bytes × ℕ). f.3) s ∙ h.runtime_threads v e;
}

-- A step that keeps these fields.
record Keeps (b : ServerConfig) (r : Result ConfigError ServerConfig) : Type 0 where
  result : (c : ServerConfig) → r ≡ ok c → SameBase b c

Keeps-bind :
    (b : ServerConfig) (m : Result ConfigError ServerConfig)
    (f : ServerConfig → Result ConfigError ServerConfig)
    → Keeps b m
    → ((c : ServerConfig) → SameBase b c → Keeps b (f c))
    → Keeps b (m >>= f)
Keeps-bind b (ok c) f h k = k c (h.result c refl)
Keeps-bind b (err e) f h k = record { result = λ c z. cc z }

Keeps-parsed :
    {A : Type 0} (b : ServerConfig) (key raw : Bytes) (put : A → ServerConfig)
    → ((a : A) → SameBase b (put a))
    → (a : Option A) → Keeps b (put_parsed key raw put a)
Keeps-parsed b key raw put k none = record { result = λ c z. cc z }
Keeps-parsed b key raw put k (some a) = record {
  result = λ c z. let same : put a ≡ c = cc z in subst (SameBase b) same (k a);
}

Keeps-override :
    {A : Type 0} (b : ServerConfig) (key : Bytes) (raw : Option Bytes) (parse : Bytes → Option A)
    (put : A → ServerConfig) (c : ServerConfig)
    → SameBase b c
    → ((a : A) → SameBase b (put a))
    → Keeps b (override_by key raw parse put c)
Keeps-override b key none parse put c h k = record {
  result = λ c' e. let same : c ≡ c' = cc e in subst (SameBase b) same h;
}
Keeps-override b key (some raw) parse put c h k = Keeps-parsed b key raw put k (parse raw)

apply_variable-SameBase : (c : ServerConfig) (key v : Bytes) → SameBase c (apply_variable c key v)
apply_variable-SameBase c key v = ground arith

apply_env_overrides-SameBase :
    (vars : List (Bytes × Bytes)) (c : ServerConfig) → SameBase c (apply_env_overrides vars c)
unfolding apply_env_overrides
apply_env_overrides-SameBase [] c = refl
apply_env_overrides-SameBase ((key, v) ∷ vars) c =
    apply_env_overrides-SameBase vars (apply_variable c key v) ∙ apply_variable-SameBase c key v

-- Steps that keep these fields one after the other.
data AllKeep : List (ServerConfig → Result ConfigError ServerConfig) → Type 0 where
  no_step : AllKeep []
  step :
      {f : ServerConfig → Result ConfigError ServerConfig}
      {fs : List (ServerConfig → Result ConfigError ServerConfig)}
      → ((c : ServerConfig) → Keeps c (f c))
      → AllKeep fs
      → AllKeep (f ∷ fs)

in_turn-Keeps :
    (fs : List (ServerConfig → Result ConfigError ServerConfig)) (b c : ServerConfig)
    → AllKeep fs
    → SameBase b c
    → Keeps b (in_turn fs c)
in_turn-Keeps [] b c no_step h = record {
  result = λ c' e. let same : c ≡ c' = cc e in subst (SameBase b) same h;
}
in_turn-Keeps (f ∷ fs) b c (step k ks) h =
    Keeps-bind b (f c) (in_turn fs) (record { result = λ c1 e. (k c).result c1 e ∙ h })
      λ c1 h1. in_turn-Keeps fs b c1 ks h1

module _ ⦃x : External⦄ (env : Bytes → Option Bytes) where
  with-Keeps :
      {A : Type 0} (key : Bytes) (parse : Bytes → Option A) (put : A → ServerConfig)
      (c : ServerConfig)
      → ((a : A) → SameBase c (put a))
      → Keeps c (override_with env key parse put c)
  with-Keeps key parse put c h = Keeps-override c key _ parse put c refl h

  enabled-Keeps : (c : ServerConfig) → Keeps c (override_enabled env c)
  unfolding override_enabled
  enabled-Keeps c =
      with-Keeps (codes "NIMBIS_TRACE_ENABLED") parse_bool (λ v. record c { trace_enabled = v }) c
        (λ a. refl)

  endpoint-Keeps : (c : ServerConfig) → Keeps c (override_endpoint env c)
  unfolding override_endpoint
  endpoint-Keeps c =
      with-Keeps (codes "NIMBIS_TRACE_ENDPOINT") some (λ v. record c { trace_endpoint = v }) c
        (λ a. refl)

  ratio-Keeps : (c : ServerConfig) → Keeps c (override_ratio env c)
  unfolding override_ratio
  ratio-Keeps c =
      with-Keeps (codes "NIMBIS_TRACE_SAMPLING_RATIO") x.read_f64
        (λ v. record c { trace_sampling_ratio = v }) c (λ a. refl)

  protocol-Keeps : (c : ServerConfig) → Keeps c (override_protocol env c)
  unfolding override_protocol
  protocol-Keeps c =
      with-Keeps (codes "NIMBIS_TRACE_PROTOCOL") some (λ v. record c { trace_protocol = v }) c
        (λ a. refl)

  timeout-Keeps : (c : ServerConfig) → Keeps c (override_timeout env c)
  unfolding override_timeout
  timeout-Keeps c =
      with-Keeps (codes "NIMBIS_TRACE_EXPORT_TIMEOUT_SECONDS") (parse_unsigned max_u64)
        (λ v. record c { trace_export_timeout_seconds = v }) c (λ a. refl)

  interval-Keeps : (c : ServerConfig) → Keeps c (override_interval env c)
  unfolding override_interval
  interval-Keeps c =
      with-Keeps (codes "NIMBIS_TRACE_REPORT_INTERVAL_MS") (parse_unsigned max_u64)
        (λ v. record c { trace_report_interval_ms = v }) c (λ a. refl)

  trace-Keeps : (c : ServerConfig) → Keeps c (apply_trace_env_overrides env c)
  unfolding apply_trace_env_overrides
  trace-Keeps c =
      in_turn-Keeps _ c c
        (step enabled-Keeps (
          step endpoint-Keeps (
            step ratio-Keeps
              (step protocol-Keeps (step timeout-Keeps (step interval-Keeps no_step))))))
        refl

-- What a chain of steps gives comes from each of them.
bind_inv :
    {A B : Type 0} (m : Result ConfigError A) (f : A → Result ConfigError B) (b : B)
    → m >>= f ≡ ok b
    → (a : A) × (m ≡ ok a) × (f a ≡ ok b)
bind_inv (ok a) f b h = (a, refl, h)
bind_inv (err e) f b h = cc h

checked_inv :
    ⦃u : Support⦄ (c c' : ServerConfig) (r : Checked)
    → validate c ≡ r
    → r >>= (λ _. ok c) ≡ ok c'
    → IsValid c × (c ≡ c')
checked_inv c c' (err e) k h = cc h
checked_inv c c' (ok done) k h = (validate-IsValid c k, cc h)

started_inv :
    (e : Option TelemetryError) (c c' : ServerConfig) → start_telemetry e c ≡ ok c' → c ≡ c'
started_inv none c c' h = cc h
started_inv (some e) c c' h = cc h

-- A configuration that `setup` stores has every property that the checks of `validate` are about, and the
-- host, port, log level and number of threads of the command line, where it gives them, whatever the file
-- and the environment say.
pub setup-IsValid :
    ⦃x : External⦄ ⦃u : Support⦄ ⦃f : Files⦄ ⦃t : Texts⦄
    (init_error : ServerConfig → LogOutput → Option TelemetryError) (env : Bytes → Option Bytes)
    (vars : List (Bytes × Bytes)) (args : Cli) (c : ServerConfig)
    → setup init_error env vars args ≡ ok c
    → IsValid c × Obeys args c
unfolding setup
setup-IsValid init_error env vars args c h =
    let (c0, e0, h0) = bind_inv (load_or_default (resolve_config_path args.config)) _ c h in
    let c1 = apply_env_overrides vars (apply_cli args c0) in
    let (c2, e2, h2) = bind_inv (apply_trace_env_overrides env c1) _ c h0 in
    let (c3, e3, h3) = bind_inv (checked c2) _ c h2 in
    let (output, e4, h4) = bind_inv (resolve_log_output c3) _ c h3 in
    let (valid, same) = checked_inv c2 c3 (validate c2) refl e3 in
    let stored : c2 ≡ c = same ∙ started_inv (init_error c3 output) c3 c h4 in
    let kept : SameBase (apply_cli args c0) c2 =
      (trace-Keeps env c1).result c2 e2 ∙ apply_env_overrides-SameBase vars (apply_cli args c0) in
    (
      subst IsValid stored valid,
      subst (Obeys args) stored
          (Obeys-SameBase args (apply_cli args c0) c2 kept (apply_cli-Obeys args c0)),
    )
