-- ===== src/Config/Settings.antt =====
-- internal/config/config.go: the closures of `Parse`, the calls of `assign` in the source's order, and
-- `Parse`.
use text.Mathlib.Text.{◌==◌ as same_text}
use kvp.Prelude.{
  ℕ, String, Bool, true, false, Option, none, some, List, [], ◌∷◌, map, if◌then◌else◌,
}
use kvp.Prelude.Int.{ℤ, pos, pos_part}
use kvp.Store.Mode.{codes, to_lower}
use kvp.Config.{
  parse_positive_int, parse_non_negative_int, memory_cache_bytes, validate_commit_mode,
  validate_listen_addr,
}
use kvp.Config.Values.{
  finite, Parsers, validate_log_level, parse_positive_float, parse_positive_duration,
  parse_prefixes,
}
use kvp.Config.Parse.{Config, Parsing, Setting, defaults, assign_all}

module _ {ℓ} {A : Type ℓ} where
  -- `if v != "" { cfg.Field = v }`
  abbrev pub store_text : (A → Parsing → Parsing) → (String → A) → String → Parsing → Parsing
  store_text put from v p = if same_text v "" then p else put (from v) p

  abbrev pub store_result : (A → Parsing → Parsing) → A → Option A → Parsing → Bool × Parsing
  store_result put fallback none p = (false, put fallback p)
  store_result put fallback (some a) p = (true, put a p)

  -- `if v != "" { cfg.Field, err = parse(v) }; return err`; a parser that fails returns the zero value.
  abbrev pub store_parsed :
      (A → Parsing → Parsing) → A → (String → Option A) → String → Parsing → Bool × Parsing
  store_parsed put fallback parse v p =
      if same_text v "" then (true, p) else store_result put fallback (parse v) p

-- The closure of a whole number, of a size and of a duration.
abbrev pub number : (ℤ → Config → Config) → (String → Option ℤ) → String → Parsing → Bool × Parsing
number put parse v p = store_parsed (λ n q. record q { cfg = put n q.cfg }) (pos 0) parse v p

abbrev pub positive : String → Option ℤ
positive v = parse_positive_int (codes v)

abbrev pub non_negative : String → Option ℤ
non_negative v = parse_non_negative_int (codes v)

-- The closure of a text without a test.
abbrev pub plain_text : (String → Config → Config) → String → Parsing → Bool × Parsing
plain_text put v p = (true, store_text (λ t q. record q { cfg = put t q.cfg }) (λ t. t) v p)

-- The closure that sets a text also where it is empty.
abbrev pub bare_text : (String → Config → Config) → String → Parsing → Bool × Parsing
bare_text put v p = (true, record p { cfg = put v p.cfg })

-- The closure that tests the field afterwards.
abbrev pub tested {ℓ} :
    {A : Type ℓ}
    → (A → Config → Config)
    → (String → A)
    → (Config → Bool)
    → String
    → Parsing
    → Bool × Parsing
tested put from test v p =
    let p' = store_text (λ a q. record q { cfg = put a q.cfg }) from v p in (test p'.cfg, p')

-- Where KVP_MEMORY_CACHE_MB is set, `memCacheSet` is, also where its parser fails.
abbrev pub set_memory_cache : String → Parsing → Bool × Parsing
set_memory_cache v p =
    store_parsed (λ n q. record q { mem_cache = some n }) (pos 0) non_negative v p

abbrev pub lower_codes : String → List ℕ
lower_codes v = map to_lower (codes v)

abbrev pub commit_mode_ok : Config → Bool
commit_mode_ok c = validate_commit_mode c.commit_mode

abbrev pub log_level_ok : Config → Bool
log_level_ok c = validate_log_level c.log_level

abbrev pub mebibytes : Option ℤ → Option ℕ
mebibytes none = none
mebibytes (some n) = some (pos_part n)

module _ ⦃p : Parsers⦄ where
  abbrev pub port_ok : Config → Bool
  port_ok c = validate_listen_addr p.parses_addr (codes c.port)

  abbrev pub metrics_port_ok : Config → Bool
  metrics_port_ok c = validate_listen_addr p.parses_addr (codes c.metrics_port)

  abbrev pub set_rate_limit_rps : String → Parsing → Bool × Parsing
  set_rate_limit_rps v q =
      store_parsed (λ x r. record r { cfg = record r.cfg { rate_limit_rps = x } })
        (finite (pos 0) (pos 0)) parse_positive_float v q

  abbrev pub set_trusted_proxies : String → Parsing → Bool × Parsing
  set_trusted_proxies v q =
      store_parsed (λ x r. record r { cfg = record r.cfg { trusted_proxies = x } }) []
        parse_prefixes v q

  -- The calls of `assign`.
  abbrev pub settings : List Setting
  settings =
      (record { name = "KVP_PORT"; set = tested (λ x c. record c { port = x }) (λ t. t) port_ok })
      ∷ (record {
        name = "KVP_METRICS_PORT";
        set = tested (λ x c. record c { metrics_port = x }) (λ t. t) metrics_port_ok;
      })
      ∷ (record { name = "KVP_DB_PATH"; set = plain_text (λ x c. record c { db_path = x }) })
      ∷ (record { name = "KVP_API_KEY"; set = bare_text (λ x c. record c { api_key = x }) })
      ∷ (record {
        name = "KVP_MAX_BODY_BYTES";
        set = number (λ x c. record c { max_body_bytes = x }) positive;
      })
      ∷ (record {
        name = "KVP_MAX_KEY_BYTES";
        set = number (λ x c. record c { max_key_bytes = x }) positive;
      })
      ∷ (record {
        name = "KVP_MAX_DB_BYTES";
        set = number (λ x c. record c { max_db_bytes = x }) positive;
      })
      ∷ (record { name = "KVP_MEMORY_CACHE_MB"; set = set_memory_cache })
      ∷ (record {
        name = "KVP_COMMIT_MODE";
        set = tested (λ x c. record c { commit_mode = x }) lower_codes commit_mode_ok;
      })
      ∷ (record {
        name = "KVP_FLUSH_INTERVAL";
        set = number (λ x c. record c { flush_interval = x }) parse_positive_duration;
      })
      ∷ (record {
        name = "KVP_TTL";
        set = number (λ x c. record c { ttl = x }) parse_positive_duration;
      })
      ∷ (record {
        name = "KVP_CLEANUP_INTERVAL";
        set = number (λ x c. record c { cleanup_interval = x }) parse_positive_duration;
      })
      ∷ (record {
        name = "KVP_SIZE_CLEANUP_THROTTLE";
        set = number (λ x c. record c { size_cleanup_throttle = x }) parse_positive_duration;
      })
      ∷ (record {
        name = "KVP_CLEANUP_BATCH_SIZE";
        set = number (λ x c. record c { cleanup_batch_size = x }) positive;
      })
      ∷ (record {
        name = "KVP_CLEANUP_MAX_RUNS";
        set = number (λ x c. record c { cleanup_max_runs = x }) positive;
      })
      ∷ (record { name = "KVP_RATE_LIMIT_RPS"; set = set_rate_limit_rps })
      ∷ (record {
        name = "KVP_RATE_LIMIT_BURST";
        set = number (λ x c. record c { rate_limit_burst = x }) positive;
      })
      ∷ (record {
        name = "KVP_SHUTDOWN_TIMEOUT";
        set = number (λ x c. record c { shutdown_timeout = x }) parse_positive_duration;
      })
      ∷ (record { name = "KVP_TRUSTED_PROXIES"; set = set_trusted_proxies })
      ∷ (record {
        name = "KVP_LOG_LEVEL";
        set = tested (λ x c. record c { log_level = x }) (λ t. t) log_level_ok;
      })
      ∷ (record {
        name = "KVP_OTEL_SERVICE_NAME";
        set = plain_text (λ x c. record c { otel_service_name = x });
      })
      ∷ (record {
        name = "GRAFANA_CLOUD_REGION";
        set = plain_text (λ x c. record c { grafana_cloud_region = x });
      })
      ∷ (record { name = "KVP_BACKUP_DIR"; set = bare_text (λ x c. record c { backup_dir = x }) })
      ∷ (record {
        name = "KVP_BACKUP_INTERVAL";
        set = number (λ x c. record c { backup_interval = x }) parse_positive_duration;
      })
      ∷ (record {
        name = "KVP_BACKUP_RETENTION";
        set = number (λ x c. record c { backup_retention = x }) positive;
      })
      ∷ (record {
        name = "KVP_CLEANUP_SWEEP_LIMIT";
        set = number (λ x c. record c { cleanup_sweep_limit = x }) non_negative;
      })
      ∷ []

  -- The end of Parse, which runs also after an error.
  unfoldable pub finish : Option String × Parsing → Config × Option String
  finish (failed, p) = (
    record p.cfg {
      memory_cache_bytes = memory_cache_bytes (mebibytes p.mem_cache) p.cfg.max_db_bytes;
    },
    failed,
  )

  -- Parse
  unfoldable pub parse : (String → String) → Config × Option String
  parse getenv =
      finish (assign_all getenv settings (none, record { cfg = defaults getenv; mem_cache = none }))
