-- ===== src/Commands.antt =====
-- cmd/kvp/main.go and deploy/hc/main.go: the process that `run` builds from the environment, what
-- happens to it, and its shutdown.
pub mod Started
pub mod Events
pub mod Keeps
pub mod Valid
pub mod Restart
mod Tests
use text.Mathlib.Text.{◌==◌ as same_text}
use kvp.Prelude.{
  ℕ, suc, ◌+◌, ◌*◌, ◌^◌, String, Bool, true, false, Option, none, some, List, [], ◌∷◌, ◌++◌, map,
  if◌then◌else◌, ◌==◌,
}
use kvp.Prelude.Int.{ℤ, pos, negsuc, pos_part, neg_part, sub_ℕ, ltb_ℤ}
use kvp.Assoc.{Assoc}
use kvp.Store.Clock.{TimeText}
use kvp.Store.Sql.{Bytes, Db, ask}
use kvp.Store.State.{Error, Store}
use kvp.Store.Read.{open_store}
use kvp.Store.Write.{flush}
use kvp.Store.Backup.{Folder}
use kvp.Server.Http.{Options, Server, new_server}
use kvp.Cleanup.{Evictor, Pass, maybe_evict}
use kvp.Config.Values.{Float, not_a_number, infinite, finite, Parsers}
use kvp.Config.Parse.{Config}
use kvp.Config.Settings.{parse}
use kvp.Telemetry.Instruments.{Metrics, Sample, set_db_limit, job_sample}
use kvp.Telemetry.Setup.{
  Sdk, Settings, Telemetry, Built, built, new_telemetry, Closers, shutdown as close_telemetry,
}
use kvp.Telemetry.Health.{Health, new_health, set_draining}

-- The size budget is that of the memory layer where it is on.
unfoldable pub eviction_limit : Config → ℤ
eviction_limit cfg =
    if ltb_ℤ (pos 0) cfg.memory_cache_bytes then cfg.memory_cache_bytes else cfg.max_db_bytes

-- The mantissa times a power of two.
abbrev pub scaled : ℤ → ℕ → ℤ
scaled (pos n) factor = pos (n * factor)
scaled (negsuc n) factor = sub_ℕ 0 (suc n * factor)

-- A rate as a fraction; what is not finite has none, and no limiter is modelled for it.
unfoldable pub rate_of : Float → Option (ℤ × ℕ)
rate_of not_a_number = none
rate_of (infinite negative) = none
rate_of (finite m e) = some (scaled m (2 ^ pos_part e), 2 ^ neg_part e)

abbrev pub options_with : Config → Assoc Bytes → Option (ℤ × ℕ) → Option Options
options_with cfg ui none = none
options_with cfg ui (some (num, den)) = some (record {
  max_body_bytes = cfg.max_body_bytes;
  max_key_bytes = cfg.max_key_bytes;
  ttl = cfg.ttl;
  api_key = cfg.api_key;
  commit_mode = "";
  rate_num = num;
  rate_den = den;
  rate_burst = cfg.rate_limit_burst;
  trusted_proxies = cfg.trusted_proxies;
  ui = ui;
  has_after_write = true;
})

-- The literal of server.Options, in which CommitMode is not set.
unfoldable pub options_of : Config → Assoc Bytes → Option Options
options_of cfg ui = options_with cfg ui (rate_of cfg.rate_limit_rps)

-- The literal of telemetry.Config.
abbrev pub telemetry_settings : Config → Settings
telemetry_settings cfg = record {
  service_name = cfg.otel_service_name;
  log_level = cfg.log_level;
  otlp_endpoint = cfg.otlp_endpoint;
}

abbrev pub new_evictor : Config → Evictor
new_evictor cfg = record {
  throttle = pos_part cfg.size_cleanup_throttle;
  running = false;
  last_run = none;
}

-- The running process. `samples` are the measurements, in order; `folder` is that of the backups.
pub record Process : Type 0 where
  pub cfg : Config
  pub metrics : Metrics
  pub server : Server
  pub evictor : Evictor
  pub health : Health
  pub folder : Folder
  pub samples : List Sample

-- What `run` comes to before it serves: an error, a rate that is not finite, or the process.
pub data Boot : Type 0 where
  bad_config : String → Boot
  bad_telemetry : Built → Boot
  bad_store : Option Error → Boot
  not_finite : Boot
  running : Process → Boot

abbrev pub boot_server : Config → Metrics → Folder → Pass × Evictor → Option Options → Boot
boot_server cfg m folder (pass, evictor) none = not_finite
boot_server cfg m folder (pass, evictor) (some o) = running (record {
  cfg = cfg;
  metrics = m;
  server = new_server pass.store o;
  evictor = evictor;
  health = new_health;
  folder = folder;
  samples = set_db_limit m cfg.max_db_bytes ∷ map (job_sample m) pass.metrics;
})

-- The clock's readings while the process starts.
pub record BootTimes : Type 0 where
  pub opened_at : ℕ
  pub checked_at : ℕ
  pub marked_at : ℕ

module _ ⦃c : TimeText⦄ where
  -- MaybeEvict with the settings of the process, as the startup, AfterWrite and the loop call it.
  abbrev pub evict_with : Config → ℕ → ℕ → Evictor → Store → Pass × Evictor
  evict_with cfg checked marked e s =
      maybe_evict checked marked (eviction_limit cfg) cfg.cleanup_batch_size cfg.cleanup_max_runs e
        s

  abbrev pub boot_store :
      Config → Metrics → Assoc Bytes → Folder → BootTimes → Option Error × Option Store → Boot
  boot_store cfg m ui folder t (err, none) = bad_store err
  boot_store cfg m ui folder t (err, some s) =
      boot_server cfg m folder (evict_with cfg t.checked_at t.marked_at (new_evictor cfg) s)
        (options_of cfg ui)

  abbrev pub boot_telemetry : Config → Assoc Bytes → Folder → BootTimes → Db → Built → Boot
  boot_telemetry cfg ui folder t d (built tel) =
      boot_store cfg tel.metrics ui folder t
        (open_store cfg.db_path cfg.memory_cache_bytes t.opened_at d)
  boot_telemetry cfg ui folder t d failed = bad_telemetry failed

  abbrev pub boot_config :
      Sdk → Assoc Bytes → Folder → BootTimes → Db → Config × Option String → Boot
  boot_config sdk ui folder t d (cfg, some name) = bad_config name
  boot_config sdk ui folder t d (cfg, none) =
      boot_telemetry cfg ui folder t d (new_telemetry sdk (telemetry_settings cfg))

  -- `run`, up to the listeners.
  unfoldable pub boot :
      ⦃p : Parsers⦄ → Sdk → (String → String) → Assoc Bytes → Folder → BootTimes → Db → Boot
  boot sdk getenv ui folder t d = boot_config sdk ui folder t d (parse getenv)

-- What the end of `run` does, in order, with what the two servers and the telemetry answer.
pub data Action : Type 0 where
  drain stop_jobs : Action
  stop_public stop_admin stop_telemetry : Bool → Action
  flushed : ℕ → Option Error → Action
  closed : Bool → Action

abbrev pub is_clean : Option String → Bool
is_clean none = true
is_clean (some e) = false

module _ ⦃c : TimeText⦄ where
  -- The end of `run`, after an error of a listener or a signal: every step is taken, also where one
  -- before it fails. The flush is the last use of the store.
  unfoldable pub stop : Bool → Bool → Closers → Process → List Action × Process
  stop public_ok admin_ok closers p =
      let (n, err, s) = flush p.server.store in
      let (ok, d) = ask s.db in
      (
        drain
            ∷ stop_public public_ok
            ∷ stop_admin admin_ok
            ∷ stop_jobs
            ∷ flushed n err
            ∷ stop_telemetry (is_clean (close_telemetry closers))
            ∷ closed ok
            ∷ [],
        record p {
          health = set_draining true p.health;
          server = record p.server { store = record s { db = d } };
        },
      )

-- deploy/hc: the exit code for the URL in the environment and the status of the answer, if any.
abbrev pub exit_code : Option ℕ → ℕ
exit_code none = 1
exit_code (some status) = if status == 200 then 0 else 1

unfoldable pub healthcheck : String → (String → Option ℕ) → ℕ
healthcheck url fetch =
    exit_code (fetch (if same_text url "" then "http://127.0.0.1:9090/readyz" else url))
