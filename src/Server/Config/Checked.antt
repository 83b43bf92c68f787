-- ===== src/Server/Config/Checked.antt =====
-- The checks of `ServerConfig::validate` (nimbis/src/config.rs) on the configuration that `setup` stores and
-- that CONFIG SET changes.
use nimbis.Prelude.{
  ℕ, ◌<◌, ◌≡◌, inl, inr, refl, ◌==◌, Bool, true, false, not, Bytes, [], ◌∷◌, codes, subst, arith,
  Option, none, some, Result, ok, err, Bool-cases, if◌then◌else◌,
}
use nimbis.Resp.Types.{F64, is_nan}
use nimbis.Resp.Utils.{same_bytes}
use nimbis.Storage.BytesEq.{eq_of_same_bytes}
use nimbis.Storage.Score.{less_f64}
use nimbis.Server.Platform.{is_text}
use nimbis.Server.Config.{
  ServerConfig, ConfigError, Support, Url, Checked, one, validate, validate_log_level,
  validate_trace_endpoint, check_url, check_object_store_url, as_telemetry, and_also, require,
  invalid_trace_sampling_ratio, invalid_runtime_threads, invalid_trace_protocol,
  invalid_trace_export_timeout, invalid_trace_report_interval, is_ratio, is_protocol, is_http_host,
  ascii_lowercase, trim, TelemetryError, reload_log_level,
}
use nimbis.Server.Config.Fields.{set_field, with_log_level}

-- An `http` or `https` URL with a host, and no white space around it.
pub record IsEndpoint ⦃u : Support⦄ (endpoint : Bytes) : Type 0 where
  pub url : Url
  pub parsed : u.parse_url endpoint ≡ some url
  pub http : is_http_host url ≡ true
  pub trimmed : trim endpoint ≡ endpoint

pub record IsValid ⦃u : Support⦄ (c : ServerConfig) : Type 0 where
  pub level : u.env_filter_error c.log_level ≡ none
  pub store : u.object_store_url_error c.object_store_url ≡ none
  pub endpoint : c.trace_enabled ≡ true → IsEndpoint c.trace_endpoint
  pub number : is_nan c.trace_sampling_ratio ≡ false
  pub not_negative : less_f64 c.trace_sampling_ratio 0 ≡ false
  pub at_most_one : less_f64 one c.trace_sampling_ratio ≡ false
  pub threads : 0 < c.runtime_threads
  pub protocol : is_protocol (ascii_lowercase (trim c.trace_protocol)) ≡ true
  pub timeout : 0 < c.trace_export_timeout_seconds
  pub interval : 0 < c.trace_report_interval_ms

both_ok : (a b : Checked) → and_also a b ≡ ok tt → (a ≡ ok tt) × (b ≡ ok tt)
both_ok (ok tt) b h = (refl, h)
both_ok (err e) b h = cc

required : (b : Bool) (e : ConfigError) → require b e ≡ ok tt → b ≡ true
required true e h = refl
required false e h = cc

ratio_ok :
    (r : F64) (e : ConfigError)
    → require (is_ratio r) e ≡ ok tt
    → (is_nan r ≡ false) × (less_f64 r 0 ≡ false) × (less_f64 one r ≡ false)
ratio_ok r e h = ground (arith, required (is_ratio r) e h)

positive_ok : (n : ℕ) (e : ConfigError) → require (not (n == 0)) e ≡ ok tt → 0 < n
positive_ok n e h = ground (arith, required (not (n == 0)) e h)

module _ ⦃u : Support⦄ where
  IsEndpoint-url :
      (s : Bytes) (r : Option Url)
      → u.parse_url s ≡ r
      → trim s ≡ s
      → check_url s r ≡ ok tt
      → IsEndpoint s
  IsEndpoint-url s none e t h = cc
  IsEndpoint-url s (some url) e t h = record {
    url = url;
    parsed = e;
    http = required (is_http_host url) _ h;
    trimmed = t;
  }

  validate_trace_endpoint-ok : (s : Bytes) → validate_trace_endpoint s ≡ ok tt → IsEndpoint s
  unfolding validate_trace_endpoint
  validate_trace_endpoint-ok [] h = cc
  validate_trace_endpoint-ok (c ∷ s) h = elim (Bool-cases (same_bytes (trim (c ∷ s)) (c ∷ s))) [
    | inl p ↦ IsEndpoint-url (c ∷ s) _ refl (eq_of_same_bytes _ _ p) (rw p at h)
    | inr p ↦ cc (rw p at h)
  ]

  log_level_ok :
      (level : Bytes)
      → as_telemetry (validate_log_level level) ≡ ok tt
      → u.env_filter_error level ≡ none
  unfolding validate_log_level
  log_level_ok level h = ground arith

  object_store_ok :
      (url : Bytes) → check_object_store_url url ≡ ok tt → u.object_store_url_error url ≡ none
  object_store_ok url h = ground arith

  -- A configuration that passes `validate` has every property that the checks are about.
  pub validate-IsValid : (c : ServerConfig) → validate c ≡ ok tt → IsValid c
  unfolding validate
  validate-IsValid c h =
      let (a, h1) = both_ok _ _ h in
      let (b, h2) = both_ok _ _ h1 in
      let (d, h3) =
        both_ok (if c.trace_enabled then validate_trace_endpoint c.trace_endpoint else ok tt) _
          h2 in
      let (e, h4) = both_ok _ _ h3 in
      let (f, h5) = both_ok _ _ h4 in
      let (g, h6) = both_ok _ _ h5 in
      let (i, j) = both_ok _ _ h6 in
      record {
        level = log_level_ok c.log_level a;
        store = object_store_ok c.object_store_url b;
        endpoint = λ t. validate_trace_endpoint-ok c.trace_endpoint (rw t at d);
        number =
            (ratio_ok c.trace_sampling_ratio (invalid_trace_sampling_ratio c.trace_sampling_ratio)
              e).0;
        not_negative =
            (ratio_ok c.trace_sampling_ratio (invalid_trace_sampling_ratio c.trace_sampling_ratio)
              e).1;
        at_most_one =
            (ratio_ok c.trace_sampling_ratio (invalid_trace_sampling_ratio c.trace_sampling_ratio)
              e).2;
        threads = positive_ok c.runtime_threads invalid_runtime_threads f;
        protocol =
            required (is_protocol (ascii_lowercase (trim c.trace_protocol)))
              (invalid_trace_protocol c.trace_protocol) g;
        timeout = positive_ok c.trace_export_timeout_seconds invalid_trace_export_timeout i;
        interval = positive_ok c.trace_report_interval_ms invalid_trace_report_interval j;
      }

  level_set :
      (c c' : ServerConfig) (v : Bytes)
      → IsValid c
      → (r : Result TelemetryError (Unit {0})) → reload_log_level v ≡ r
      → with_log_level c v r ≡ ok c'
      → IsValid c'
  unfolding reload_log_level validate_log_level
  level_set c c' v h (err w) e k = cc
  level_set c c' v h (ok done) e k =
      let level : u.env_filter_error v ≡ none = ground arith in
      let same : record c { log_level = v } ≡ c' = cc k in
      subst IsValid same (record {
        level = level;
        store = h.store;
        endpoint = h.endpoint;
        number = h.number;
        not_negative = h.not_negative;
        at_most_one = h.at_most_one;
        threads = h.threads;
        protocol = h.protocol;
        timeout = h.timeout;
        interval = h.interval;
      })

  -- A configuration that passed the checks passes them after CONFIG SET of any field to any value.
  pub set_field-IsValid :
      (c c' : ServerConfig) (key v : Bytes) → IsValid c → set_field c key v ≡ ok c' → IsValid c'
  unfolding set_field
  set_field-IsValid c c' key v h k = elim (Bool-cases (is_text key (codes "log_level"))) [
    | inl p ↦ level_set c c' v h _ refl (rw p at k)
    | inr p ↦ ground arith
  ]
