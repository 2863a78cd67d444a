-- ===== src/Commands/Started.antt =====
-- cmd/kvp/main.go: how the process that `run` builds is set up.
use mathlib.Core.Path.{subst}
use native.Mathlib.Nat.{one-le-pow, mul-le-mul_left}
use kvp.Prelude.{
  ◌≢◌, ℕ, suc, zero, String, true, false, ◌≡◌, ◌*◌, ◌^◌, refl, sym, ◌∙◌, Option, none, some, [],
  arith, if◌then◌else◌,
}
use kvp.Prelude.Int.{ℤ, pos, negsuc, pos_part, neg_part, ltb_ℤ}
use kvp.Assoc.{Assoc}
use kvp.Store.Clock.{TimeText}
use kvp.Store.Mode.{put_sync, parse_put_mode, lower_is}
use kvp.Store.Sql.{Bytes, Db}
use kvp.Store.State.{Error, Store}
use kvp.Store.Read.{open_store}
use kvp.Store.Backup.{Folder}
use kvp.Server.Http.{new_server, positive_or}
use kvp.Cleanup.{Evictor, Pass}
use kvp.Config.Values.{Parsers, Float, not_a_number, infinite, finite, at_most_zero}
use kvp.Server.RateLimit.{RateLimiter, new_rate_limiter}
use kvp.Config.Parse.{Config}
use kvp.Config.Settings.{parse}
use kvp.Config.Configured.{configured, IsValid}
use kvp.Config.Accepted.{parse-IsValid}
use kvp.Telemetry.Instruments.{Metrics}
use kvp.Telemetry.Setup.{
  Sdk, Built, built, bad_level, no_resource, no_meter, no_tracer, no_instruments, new_telemetry,
}
use kvp.Commands.{
  Process, running, BootTimes, rate_of, options_with, options_of, boot_server, boot_store,
  boot_telemetry, boot_config, boot, telemetry_settings, evict_with, new_evictor,
}

-- The limiter that the rate and the burst ask for, as a fraction of whole numbers.
abbrev pub asked_limiter : Float → ℤ → Option RateLimiter
asked_limiter not_a_number burst = none
asked_limiter (infinite negative) burst = none
asked_limiter (finite m e) burst = some (record {
  rps_num = pos_part m * 2 ^ pos_part e;
  rps_den = 2 ^ neg_part e;
  burst = pos_part burst;
  buckets = [];
})

-- The limiter that the server makes of a rate.
abbrev pub made_limiter : Option (ℤ × ℕ) → ℤ → Option RateLimiter
made_limiter none burst = none
made_limiter (some (num, den)) burst = some (
    if ltb_ℤ (pos 0) num
    then new_rate_limiter (pos_part num) den (positive_or burst 20)
    else new_rate_limiter 10 1 (positive_or burst 20))

-- How the server follows from the configuration and the rate in it.
pub record Serves (cfg : Config) (rate : Option (ℤ × ℕ)) (p : Process) : Type 0 where
  pub config : p.cfg ≡ cfg
  pub mode : p.server.default_mode ≡ put_sync
  pub key : p.server.api_key ≡ cfg.api_key
  pub body : p.server.max_body_bytes ≡ positive_or cfg.max_body_bytes 1048576
  pub key_bytes : p.server.max_key_bytes ≡ positive_or cfg.max_key_bytes 256
  pub lifetime : p.server.ttl ≡ positive_or cfg.ttl 86400000000000
  pub proxies : p.server.trusted_proxies ≡ cfg.trusted_proxies
  pub limiter : made_limiter rate cfg.rate_limit_burst ≡ some p.server.rl

running_inj : (p q : Process) → running p ≡ running q → p ≡ q
running_inj p q h = cc h

boot_server-Serves :
    (cfg : Config) (m : Metrics) (folder : Folder) (e : Pass × Evictor) (ui : Assoc Bytes)
    (rate : Option (ℤ × ℕ)) (p : Process)
    → boot_server cfg m folder e (options_with cfg ui rate) ≡ running p
    → Serves cfg rate p
boot_server-Serves cfg m folder e ui none p h = cc h
boot_server-Serves cfg m folder (pass, ev) ui (some (num, den)) p h =
    subst (Serves cfg (some (num, den))) (running_inj _ p h) (
      unfold new_server parse_put_mode lower_is in
      record {
        config = refl;
        mode = refl;
        key = refl;
        body = refl;
        key_bytes = refl;
        lifetime = refl;
        proxies = refl;
        limiter = refl;
      })

module _ ⦃c : TimeText⦄ where
  boot_store-Serves :
      (cfg : Config) (m : Metrics) (ui : Assoc Bytes) (folder : Folder) (t : BootTimes)
      (o : Option Error × Option Store) (p : Process)
      → boot_store cfg m ui folder t o ≡ running p
      → Serves cfg (rate_of cfg.rate_limit_rps) p
  boot_store-Serves cfg m ui folder t (err, none) p h = cc h
  boot_store-Serves cfg m ui folder t (err, some s) p h =
      boot_server-Serves cfg m folder (evict_with cfg t.checked_at t.marked_at (new_evictor cfg) s)
        ui (rate_of cfg.rate_limit_rps) p (unfold options_of in h)

  boot_telemetry-Serves :
      (cfg : Config) (ui : Assoc Bytes) (folder : Folder) (t : BootTimes) (d : Db) (b : Built)
      (p : Process)
      → boot_telemetry cfg ui folder t d b ≡ running p
      → Serves cfg (rate_of cfg.rate_limit_rps) p
  boot_telemetry-Serves cfg ui folder t d bad_level p h = cc h
  boot_telemetry-Serves cfg ui folder t d no_resource p h = cc h
  boot_telemetry-Serves cfg ui folder t d no_meter p h = cc h
  boot_telemetry-Serves cfg ui folder t d no_tracer p h = cc h
  boot_telemetry-Serves cfg ui folder t d no_instruments p h = cc h
  boot_telemetry-Serves cfg ui folder t d (built tel) p h =
      boot_store-Serves cfg tel.metrics ui folder t
        (open_store cfg.db_path cfg.memory_cache_bytes t.opened_at d) p h

  boot_config-Serves :
      (sdk : Sdk) (ui : Assoc Bytes) (folder : Folder) (t : BootTimes) (d : Db)
      (r : Config × Option String) (p : Process)
      → boot_config sdk ui folder t d r ≡ running p
      → (r.1 ≡ none) × Serves r.0 (rate_of r.0.rate_limit_rps) p
  boot_config-Serves sdk ui folder t d (cfg, some name) p h = cc h
  boot_config-Serves sdk ui folder t d (cfg, none) p h = (
    refl,
    boot_telemetry-Serves cfg ui folder t d (new_telemetry sdk (telemetry_settings cfg)) p h,
  )

positive_or_lem :
    (n : ℤ) (default : ℕ) → ltb_ℤ (pos 0) n ≡ true → positive_or n default ≡ pos_part n
positive_or_lem n default h = rw h refl

true-≢-false : true ≢ false
true-≢-false h = cc h

made_lem :
    (f : Float) (burst : ℤ)
    → at_most_zero f ≡ false
    → ltb_ℤ (pos 0) burst ≡ true
    → made_limiter (rate_of f) burst ≡ asked_limiter f burst
unfolding rate_of at_most_zero new_rate_limiter
made_lem not_a_number burst h k = refl
made_lem (infinite negative) burst h k = refl
made_lem (finite (pos zero) e) burst h k = cc h
made_lem (finite (pos (suc n)) e) burst h k =
    let whole : ltb_ℤ (pos 0) (pos (suc n * 2 ^ pos_part e)) ≡ true =
      ground (arith, mul-le-mul_left (suc n) (one-le-pow (pos_part e) 2 (omega arith))) in
    rw (whole, k) refl
made_lem (finite (negsuc n) e) burst h k =
    let low : ltb_ℤ (pos 0) (negsuc n) ≡ false = ground arith in absurd (true-≢-false (rw low at h))

module _ ⦃c : TimeText⦄ ⦃ps : Parsers⦄ where
  -- A process that `run` builds has the configuration that the environment asks for, and its server
  -- takes the limits, the lifetime, the key, the proxies, the rate and the burst from it, never a
  -- default of its own. The server's default mode is sync, whatever KVP_COMMIT_MODE says.
  pub boot_lem :
      (sdk : Sdk) (getenv : String → String) (ui : Assoc Bytes) (folder : Folder) (t : BootTimes)
      (d : Db) (p : Process)
      → boot sdk getenv ui folder t d ≡ running p
      → (p.cfg ≡ configured getenv)
        × (p.server.default_mode ≡ put_sync)
        × (p.server.api_key ≡ (configured getenv).api_key)
        × (p.server.max_body_bytes ≡ pos_part (configured getenv).max_body_bytes)
        × (p.server.max_key_bytes ≡ pos_part (configured getenv).max_key_bytes)
        × (p.server.ttl ≡ pos_part (configured getenv).ttl)
        × (p.server.trusted_proxies ≡ (configured getenv).trusted_proxies)
        × (asked_limiter (configured getenv).rate_limit_rps (configured getenv).rate_limit_burst
            ≡ some p.server.rl)
  unfolding boot
  boot_lem sdk getenv ui folder t d p h =
      let (accepted, found) = boot_config-Serves sdk ui folder t d (parse getenv) p h in
      let (same, valid) = parse-IsValid getenv accepted in
      let s = subst (λ cfg. Serves cfg (rate_of cfg.rate_limit_rps) p) same found in
      let v = subst (λ cfg. IsValid cfg) same valid in
      (
        s.config,
        s.mode,
        s.key,
        s.body ∙ positive_or_lem (configured getenv).max_body_bytes 1048576 v.body_positive,
        s.key_bytes ∙ positive_or_lem (configured getenv).max_key_bytes 256 v.key_positive,
        s.lifetime ∙ positive_or_lem (configured getenv).ttl 86400000000000 v.ttl_positive,
        s.proxies,
        sym (
              made_lem (configured getenv).rate_limit_rps (configured getenv).rate_limit_burst
                v.rate_not_refused v.burst_positive)
            ∙ s.limiter,
      )
