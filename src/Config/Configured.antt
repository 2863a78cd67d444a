-- ===== src/Config/Configured.antt =====
-- internal/config/config.go: what a configuration should be, setting by setting, for `Parse`. Each
-- variable has a test of its own and a field that it alone decides.
use text.Mathlib.Text.{◌==◌ as same_text}
use kvp.Prelude.{
  ℕ, String, Bool, true, false, ◌≡◌, Option, none, some, List, [], ◌∷◌, if◌then◌else◌,
}
use kvp.Prelude.Int.{ℤ, pos, ltb_ℤ}
use kvp.Store.Mode.{codes}
use kvp.Config.{memory_cache_bytes, validate_commit_mode, validate_listen_addr}
use kvp.Config.Values.{
  Parsers, finite, at_most_zero, validate_log_level, parse_positive_float, parse_positive_duration,
  parse_prefixes,
}
use kvp.Config.Parse.{Config}
use kvp.Config.Settings.{positive, non_negative, lower_codes, mebibytes}

abbrev pub is_some {ℓ} : {A : Type ℓ} → Option A → Bool
is_some none = false
is_some (some a) = true

abbrev pub or_default {ℓ} : {A : Type ℓ} → A → Option A → A
or_default d none = d
or_default d (some a) = a

module _ {ℓ} {A : Type ℓ} where
  -- The value of a variable, or the default where it is unset.
  abbrev pub value_or : A → (String → Option A) → String → A
  value_or d parse v = if same_text v "" then d else or_default d (parse v)

  -- A variable is unset, or its parser accepts it.
  abbrev pub unset_or : (String → Option A) → String → Bool
  unset_or parse v = if same_text v "" then true else is_some (parse v)

-- A variable is unset, or passes a test.
abbrev pub unset_or_ok : (String → Bool) → String → Bool
unset_or_ok test v = if same_text v "" then true else test v

abbrev pub verbatim : String → Option String
verbatim v = some v

abbrev pub mode_of : String → Option (List ℕ)
mode_of v = some (lower_codes v)

-- The value that is set last where the variable is set.
abbrev pub set_value : String → Option ℤ
set_value v = if same_text v "" then none else some (or_default (pos 0) (non_negative v))

module _ ⦃p : Parsers⦄ where
  abbrev pub is_listen_addr : String → Bool
  is_listen_addr v = validate_listen_addr p.parses_addr (codes v)

  -- The tests of the variables, in the order in which Parse reads them.
  abbrev pub checks : List (String × (String → Bool))
  checks =
      ("KVP_PORT", unset_or_ok is_listen_addr)
      ∷ ("KVP_METRICS_PORT", unset_or_ok is_listen_addr)
      ∷ ("KVP_MAX_BODY_BYTES", unset_or positive)
      ∷ ("KVP_MAX_KEY_BYTES", unset_or positive)
      ∷ ("KVP_MAX_DB_BYTES", unset_or positive)
      ∷ ("KVP_MEMORY_CACHE_MB", unset_or non_negative)
      ∷ ("KVP_COMMIT_MODE", unset_or_ok (λ v. validate_commit_mode (lower_codes v)))
      ∷ ("KVP_FLUSH_INTERVAL", unset_or parse_positive_duration)
      ∷ ("KVP_TTL", unset_or parse_positive_duration)
      ∷ ("KVP_CLEANUP_INTERVAL", unset_or parse_positive_duration)
      ∷ ("KVP_SIZE_CLEANUP_THROTTLE", unset_or parse_positive_duration)
      ∷ ("KVP_CLEANUP_BATCH_SIZE", unset_or positive)
      ∷ ("KVP_CLEANUP_MAX_RUNS", unset_or positive)
      ∷ ("KVP_RATE_LIMIT_RPS", unset_or parse_positive_float)
      ∷ ("KVP_RATE_LIMIT_BURST", unset_or positive)
      ∷ ("KVP_SHUTDOWN_TIMEOUT", unset_or parse_positive_duration)
      ∷ ("KVP_TRUSTED_PROXIES", unset_or parse_prefixes)
      ∷ ("KVP_LOG_LEVEL", unset_or_ok validate_log_level)
      ∷ ("KVP_BACKUP_INTERVAL", unset_or parse_positive_duration)
      ∷ ("KVP_BACKUP_RETENTION", unset_or positive)
      ∷ ("KVP_CLEANUP_SWEEP_LIMIT", unset_or non_negative)
      ∷ []

  -- The configuration that the environment asks for.
  unfoldable pub configured : (String → String) → Config
  configured env =
      let max_db = value_or (pos 67108864) positive (env "KVP_MAX_DB_BYTES") in
      record {
        port = value_or ":8080" verbatim (env "KVP_PORT");
        metrics_port = value_or "127.0.0.1:9090" verbatim (env "KVP_METRICS_PORT");
        db_path = value_or "./kvp.db" verbatim (env "KVP_DB_PATH");
        api_key = env "KVP_API_KEY";
        max_body_bytes = value_or (pos 1048576) positive (env "KVP_MAX_BODY_BYTES");
        max_key_bytes = value_or (pos 256) positive (env "KVP_MAX_KEY_BYTES");
        max_db_bytes = max_db;
        memory_cache_bytes =
            memory_cache_bytes (mebibytes (set_value (env "KVP_MEMORY_CACHE_MB"))) max_db;
        commit_mode = value_or (codes "sync") mode_of (env "KVP_COMMIT_MODE");
        flush_interval =
            value_or (pos 1000000000) parse_positive_duration (env "KVP_FLUSH_INTERVAL");
        ttl = value_or (pos 86400000000000) parse_positive_duration (env "KVP_TTL");
        cleanup_interval =
            value_or (pos 3600000000000) parse_positive_duration (env "KVP_CLEANUP_INTERVAL");
        size_cleanup_throttle =
            value_or (pos 60000000000) parse_positive_duration (env "KVP_SIZE_CLEANUP_THROTTLE");
        cleanup_batch_size = value_or (pos 1000) positive (env "KVP_CLEANUP_BATCH_SIZE");
        cleanup_max_runs = value_or (pos 64) positive (env "KVP_CLEANUP_MAX_RUNS");
        rate_limit_rps =
            value_or (finite (pos 10) (pos 0)) parse_positive_float (env "KVP_RATE_LIMIT_RPS");
        rate_limit_burst = value_or (pos 20) positive (env "KVP_RATE_LIMIT_BURST");
        trusted_proxies = value_or [] parse_prefixes (env "KVP_TRUSTED_PROXIES");
        shutdown_timeout =
            value_or (pos 15000000000) parse_positive_duration (env "KVP_SHUTDOWN_TIMEOUT");
        log_level = value_or "info" verbatim (env "KVP_LOG_LEVEL");
        otel_service_name = value_or "kvp" verbatim (env "KVP_OTEL_SERVICE_NAME");
        otlp_endpoint = env "KVP_OTEL_EXPORTER_OTLP_ENDPOINT";
        grafana_cloud_stack_id = env "GRAFANA_CLOUD_STACK_ID";
        grafana_cloud_api_token = env "GRAFANA_CLOUD_API_TOKEN";
        grafana_cloud_region = value_or "prod-us-central-0" verbatim (env "GRAFANA_CLOUD_REGION");
        backup_dir = env "KVP_BACKUP_DIR";
        backup_interval =
            value_or (pos 86400000000000) parse_positive_duration (env "KVP_BACKUP_INTERVAL");
        backup_retention = value_or (pos 7) positive (env "KVP_BACKUP_RETENTION");
        cleanup_sweep_limit = value_or (pos 10000) non_negative (env "KVP_CLEANUP_SWEEP_LIMIT");
      }

-- The first variable whose test fails.
unfoldable pub first_invalid : (String → String) → List (String × (String → Bool)) → Option String
first_invalid env [] = none
first_invalid env (check ∷ checks) =
    let rest = first_invalid env checks in if check.1 (env check.0) then rest else some check.0

-- The addresses can be listened on, the commit mode and the log level are known, and every size,
-- count and interval is positive; the sweep limit may be zero. The rate is not at most zero: it is
-- positive or not a number.
pub record IsValid ⦃p : Parsers⦄ (c : Config) : Type 0 where
  pub port_valid : is_listen_addr c.port ≡ true
  pub metrics_port_valid : is_listen_addr c.metrics_port ≡ true
  pub mode_valid : validate_commit_mode c.commit_mode ≡ true
  pub level_valid : validate_log_level c.log_level ≡ true
  pub body_positive : ltb_ℤ (pos 0) c.max_body_bytes ≡ true
  pub key_positive : ltb_ℤ (pos 0) c.max_key_bytes ≡ true
  pub db_positive : ltb_ℤ (pos 0) c.max_db_bytes ≡ true
  pub flush_positive : ltb_ℤ (pos 0) c.flush_interval ≡ true
  pub ttl_positive : ltb_ℤ (pos 0) c.ttl ≡ true
  pub cleanup_positive : ltb_ℤ (pos 0) c.cleanup_interval ≡ true
  pub throttle_positive : ltb_ℤ (pos 0) c.size_cleanup_throttle ≡ true
  pub batch_positive : ltb_ℤ (pos 0) c.cleanup_batch_size ≡ true
  pub runs_positive : ltb_ℤ (pos 0) c.cleanup_max_runs ≡ true
  pub rate_not_refused : at_most_zero c.rate_limit_rps ≡ false
  pub burst_positive : ltb_ℤ (pos 0) c.rate_limit_burst ≡ true
  pub shutdown_positive : ltb_ℤ (pos 0) c.shutdown_timeout ≡ true
  pub backup_positive : ltb_ℤ (pos 0) c.backup_interval ≡ true
  pub retention_positive : ltb_ℤ (pos 0) c.backup_retention ≡ true
  pub sweep_not_negative : ltb_ℤ c.cleanup_sweep_limit (pos 0) ≡ false
