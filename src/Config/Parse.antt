-- ===== src/Config/Parse.antt =====
-- internal/config/config.go: `Config`, its defaults, and `assign`. A commit mode is kept as its code
-- points; of an error the variable that it names is kept.
use kvp.Prelude.{ℕ, String, Bool, Option, none, some, List, [], ◌∷◌, if◌then◌else◌}
use kvp.Prelude.Int.{ℤ, pos}
use kvp.Store.Mode.{codes}
use kvp.Server.Http.{Prefix}
use kvp.Config.Values.{Float, finite}

-- Durations are nanoseconds.
pub record Config : Type 0 where
  pub port : String
  pub metrics_port : String
  pub db_path : String
  pub api_key : String
  pub max_body_bytes : ℤ
  pub max_key_bytes : ℤ
  pub max_db_bytes : ℤ
  pub memory_cache_bytes : ℤ
  pub commit_mode : List ℕ
  pub flush_interval : ℤ
  pub ttl : ℤ
  pub cleanup_interval : ℤ
  pub size_cleanup_throttle : ℤ
  pub cleanup_batch_size : ℤ
  pub cleanup_max_runs : ℤ
  pub rate_limit_rps : Float
  pub rate_limit_burst : ℤ
  pub trusted_proxies : List Prefix
  pub shutdown_timeout : ℤ
  pub log_level : String
  pub otel_service_name : String
  pub otlp_endpoint : String
  pub grafana_cloud_stack_id : String
  pub grafana_cloud_api_token : String
  pub grafana_cloud_region : String
  pub backup_dir : String
  pub backup_interval : ℤ
  pub backup_retention : ℤ
  pub cleanup_sweep_limit : ℤ

-- The literal with which Parse begins.
unfoldable pub defaults : (String → String) → Config
defaults getenv = record {
  port = ":8080";
  metrics_port = "127.0.0.1:9090";
  db_path = "./kvp.db";
  api_key = "";
  max_body_bytes = pos 1048576;
  max_key_bytes = pos 256;
  max_db_bytes = pos 67108864;
  memory_cache_bytes = pos 0;
  commit_mode = codes "sync";
  flush_interval = pos 1000000000;
  ttl = pos 86400000000000;
  cleanup_interval = pos 3600000000000;
  size_cleanup_throttle = pos 60000000000;
  cleanup_batch_size = pos 1000;
  cleanup_max_runs = pos 64;
  rate_limit_rps = finite (pos 10) (pos 0);
  rate_limit_burst = pos 20;
  trusted_proxies = [];
  shutdown_timeout = pos 15000000000;
  log_level = "info";
  otel_service_name = "kvp";
  otlp_endpoint = getenv "KVP_OTEL_EXPORTER_OTLP_ENDPOINT";
  grafana_cloud_stack_id = getenv "GRAFANA_CLOUD_STACK_ID";
  grafana_cloud_api_token = getenv "GRAFANA_CLOUD_API_TOKEN";
  grafana_cloud_region = "prod-us-central-0";
  backup_dir = "";
  backup_interval = pos 86400000000000;
  backup_retention = pos 7;
  cleanup_sweep_limit = pos 10000;
}

-- What the closures of Parse change: `cfg`, and `memCacheMB` where `memCacheSet`.
pub record Parsing : Type 0 where
  pub cfg : Config
  pub mem_cache : Option ℤ

-- A variable with the closure that `assign` calls on its value: whether it returns no error, and what
-- it changes.
pub record Setting : Type 0 where
  pub name : String
  pub set : String → Parsing → Bool × Parsing

-- `assign`, where `failed` is the variable that `err` names.
unfoldable pub assign :
    (String → String) → Setting → Option String × Parsing → Option String × Parsing
assign getenv s (some failed, p) = (some failed, p)
assign getenv s (none, p) =
    let (ok, p') = s.set (getenv s.name) p in (if ok then none else some s.name, p')

unfoldable pub assign_all :
    (String → String) → List Setting → Option String × Parsing → Option String × Parsing
assign_all getenv [] st = st
assign_all getenv (s ∷ settings) st = assign_all getenv settings (assign getenv s st)
