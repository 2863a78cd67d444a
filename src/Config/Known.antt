-- ===== src/Config/Known.antt =====
-- internal/config/config.go: the settings of `Parse` with what each does, and what the chain of
-- `assign` makes of them.
use kvp.Prelude.{
  map, String, Bool, ◌≡◌, refl, Option, none, some, List, [], ◌∷◌, if◌then◌else◌, Bool-cases, inl,
  inr,
}
use kvp.Prelude.Int.{pos}
use kvp.Config.Values.{
  Parsers, finite, parse_positive_float, parse_positive_duration, parse_prefixes,
  validate_log_level,
}
use kvp.Config.{validate_commit_mode}
use kvp.Config.Parse.{Parsing, Setting, assign, assign_all}
use kvp.Config.Settings.{
  lower_codes, positive, non_negative, settings, commit_mode_ok, log_level_ok, port_ok,
  metrics_port_ok,
}
use kvp.Config.Configured.{is_listen_addr}
use kvp.Config.Meaning.{
  Tested, Meaning, Does, store_parsed-Does, tested-Does, plain_text-Does, bare_text-Does,
  set_memory_cache-Does,
}

-- A setting with what it does.
pub record Known ⦃p : Parsers⦄ : Type 0 where
  pub setting : Setting
  pub meaning : Meaning
  pub does : Does setting.set meaning

module _ ⦃p : Parsers⦄ where
  abbrev pub known :
      (name : String) {set : String → Parsing → Bool × Parsing} {m : Meaning} → Does set m → Known
  known name {set} {m} d = record {
    setting = record { name = name; set = set };
    meaning = m;
    does = d;
  }

  -- The settings of Parse with what each does.
  abbrev pub all_known : List Known
  all_known =
      (known "KVP_PORT" (
        tested-Does (λ c. c.port) (λ x c. record c { port = x }) (λ c. refl) (λ t. t) port_ok
          is_listen_addr (λ v c. refl) (λ q t. t.0) (λ v q h t. (h, t.1, t.2, t.3))))
      ∷ (known "KVP_METRICS_PORT" (
          tested-Does (λ c. c.metrics_port) (λ x c. record c { metrics_port = x }) (λ c. refl)
            (λ t. t) metrics_port_ok is_listen_addr (λ v c. refl) (λ q t. t.1)
            (λ v q h t. (t.0, h, t.2, t.3))))
      ∷ (known "KVP_DB_PATH" (
          plain_text-Does (λ c. c.db_path) (λ x c. record c { db_path = x }) (λ c. refl)
            (λ v q t. t)))
      ∷ (known "KVP_API_KEY" (bare_text-Does (λ x c. record c { api_key = x }) (λ v q t. t)))
      ∷ (known "KVP_MAX_BODY_BYTES" (
          store_parsed-Does (λ c. c.max_body_bytes) (λ x c. record c { max_body_bytes = x })
            (λ c. refl) (pos 0) positive (λ a q t. t)))
      ∷ (known "KVP_MAX_KEY_BYTES" (
          store_parsed-Does (λ c. c.max_key_bytes) (λ x c. record c { max_key_bytes = x })
            (λ c. refl) (pos 0) positive (λ a q t. t)))
      ∷ (known "KVP_MAX_DB_BYTES" (
          store_parsed-Does (λ c. c.max_db_bytes) (λ x c. record c { max_db_bytes = x }) (λ c. refl)
            (pos 0) positive (λ a q t. t)))
      ∷ (known "KVP_MEMORY_CACHE_MB" set_memory_cache-Does)
      ∷ (known "KVP_COMMIT_MODE" (
          tested-Does (λ c. c.commit_mode) (λ x c. record c { commit_mode = x }) (λ c. refl)
            lower_codes commit_mode_ok (λ v. validate_commit_mode (lower_codes v)) (λ v c. refl)
            (λ q t. t.2) (λ v q h t. (t.0, t.1, h, t.3))))
      ∷ (known "KVP_FLUSH_INTERVAL" (
          store_parsed-Does (λ c. c.flush_interval) (λ x c. record c { flush_interval = x })
            (λ c. refl) (pos 0) parse_positive_duration (λ a q t. t)))
      ∷ (known "KVP_TTL" (
          store_parsed-Does (λ c. c.ttl) (λ x c. record c { ttl = x }) (λ c. refl) (pos 0)
            parse_positive_duration (λ a q t. t)))
      ∷ (known "KVP_CLEANUP_INTERVAL" (
          store_parsed-Does (λ c. c.cleanup_interval) (λ x c. record c { cleanup_interval = x })
            (λ c. refl) (pos 0) parse_positive_duration (λ a q t. t)))
      ∷ (known "KVP_SIZE_CLEANUP_THROTTLE" (
          store_parsed-Does (λ c. c.size_cleanup_throttle)
            (λ x c. record c { size_cleanup_throttle = x }) (λ c. refl) (pos 0)
            parse_positive_duration (λ a q t. t)))
      ∷ (known "KVP_CLEANUP_BATCH_SIZE" (
          store_parsed-Does (λ c. c.cleanup_batch_size) (λ x c. record c { cleanup_batch_size = x })
            (λ c. refl) (pos 0) positive (λ a q t. t)))
      ∷ (known "KVP_CLEANUP_MAX_RUNS" (
          store_parsed-Does (λ c. c.cleanup_max_runs) (λ x c. record c { cleanup_max_runs = x })
            (λ c. refl) (pos 0) positive (λ a q t. t)))
      ∷ (known "KVP_RATE_LIMIT_RPS" (
          store_parsed-Does (λ c. c.rate_limit_rps) (λ x c. record c { rate_limit_rps = x })
            (λ c. refl) (finite (pos 0) (pos 0)) parse_positive_float (λ a q t. t)))
      ∷ (known "KVP_RATE_LIMIT_BURST" (
          store_parsed-Does (λ c. c.rate_limit_burst) (λ x c. record c { rate_limit_burst = x })
            (λ c. refl) (pos 0) positive (λ a q t. t)))
      ∷ (known "KVP_SHUTDOWN_TIMEOUT" (
          store_parsed-Does (λ c. c.shutdown_timeout) (λ x c. record c { shutdown_timeout = x })
            (λ c. refl) (pos 0) parse_positive_duration (λ a q t. t)))
      ∷ (known "KVP_TRUSTED_PROXIES" (
          store_parsed-Does (λ c. c.trusted_proxies) (λ x c. record c { trusted_proxies = x })
            (λ c. refl) [] parse_prefixes (λ a q t. t)))
      ∷ (known "KVP_LOG_LEVEL" (
          tested-Does (λ c. c.log_level) (λ x c. record c { log_level = x }) (λ c. refl) (λ t. t)
            log_level_ok validate_log_level (λ v c. refl) (λ q t. t.3)
            (λ v q h t. (t.0, t.1, t.2, h))))
      ∷ (known "KVP_OTEL_SERVICE_NAME" (
          plain_text-Does (λ c. c.otel_service_name) (λ x c. record c { otel_service_name = x })
            (λ c. refl) (λ v q t. t)))
      ∷ (known "GRAFANA_CLOUD_REGION" (
          plain_text-Does (λ c. c.grafana_cloud_region)
            (λ x c. record c { grafana_cloud_region = x }) (λ c. refl) (λ v q t. t)))
      ∷ (known "KVP_BACKUP_DIR" (bare_text-Does (λ x c. record c { backup_dir = x }) (λ v q t. t)))
      ∷ (known "KVP_BACKUP_INTERVAL" (
          store_parsed-Does (λ c. c.backup_interval) (λ x c. record c { backup_interval = x })
            (λ c. refl) (pos 0) parse_positive_duration (λ a q t. t)))
      ∷ (known "KVP_BACKUP_RETENTION" (
          store_parsed-Does (λ c. c.backup_retention) (λ x c. record c { backup_retention = x })
            (λ c. refl) (pos 0) positive (λ a q t. t)))
      ∷ (known "KVP_CLEANUP_SWEEP_LIMIT" (
          store_parsed-Does (λ c. c.cleanup_sweep_limit)
            (λ x c. record c { cleanup_sweep_limit = x }) (λ c. refl) (pos 0) non_negative
            (λ a q t. t)))
      ∷ []

  pub all_known_lem : map (λ k. k.setting) all_known ≡ settings
  all_known_lem = refl

  -- The first variable whose test fails, and the change that all settings make.
  abbrev pub first_failing : (String → String) → List Known → Option String
  first_failing env [] = none
  first_failing env (k ∷ ks) =
      let rest = first_failing env ks in
      if k.meaning.check (env k.setting.name) then rest else some k.setting.name

  abbrev pub change_all : (String → String) → List Known → Parsing → Parsing
  change_all env [] q = q
  change_all env (k ∷ ks) q = change_all env ks (k.meaning.change (env k.setting.name) q)

  -- After an error the settings are skipped.
  assign_all-skips :
      (env : String → String) (ss : List Setting) (name : String) (q : Parsing)
      → (assign_all env ss (some name, q)).0 ≡ some name
  unfolding assign_all assign
  assign_all-skips env [] name q = refl
  assign_all-skips env (s ∷ ss) name q = assign_all-skips env ss name q

  -- What the chain does, in terms of what its settings do.
  pub assign_all_lem :
      (env : String → String) (ks : List Known) (q : Parsing)
      → Tested q
      → ((assign_all env (map (λ k. k.setting) ks) (none, q)).0 ≡ first_failing env ks)
        × (first_failing env ks ≡ none
            → ((assign_all env (map (λ k. k.setting) ks) (none, q)).1 ≡ change_all env ks q)
              × Tested (change_all env ks q))
  unfolding assign_all assign
  assign_all_lem env [] q t = (refl, λ _. (refl, t))
  assign_all_lem env (k ∷ ks) q t =
      let v = env k.setting.name in
      let d = k.does v q t in
      elim (Bool-cases (k.meaning.check v)) [
        | inl good ↦
            let after = d.1 good in
            let rest = assign_all_lem env ks (k.meaning.change v q) after.1 in
            rw (good, d.0, good, after.0, assign_all, assign) rest
        | inr bad ↦
            rw (bad, d.0, bad, assign_all, assign)
              (
                assign_all-skips env (map (λ j. j.setting) ks) k.setting.name (k.setting.set v q).1,
                λ h. cc h,
              )
      ]
