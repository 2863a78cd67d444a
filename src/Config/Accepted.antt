-- ===== src/Config/Accepted.antt =====
-- internal/config/config.go: what `Parse` accepts, and which variable it names otherwise.
use text.Mathlib.Text.{◌==◌ as same_text}
use mathlib.Core.Path.{subst}
use kvp.Prelude.{
  String, Bool, true, false, ◌≡◌, refl, ap, ◌∙◌, sym, Option, none, some, some_inj, Bool-cases,
  Option-cases, inl, inr, not,
}
use kvp.Prelude.Int.{ℤ, pos, ltb_ℤ}
use kvp.Store.Mode.{codes}
use kvp.Config.{
  validate_commit_mode, validate_listen_addr, split_host_port, split_last_colon, all_digits,
  parse_positive_int, parse_non_negative_int, only_if, parse_int,
}
use kvp.Config.Values.{
  Parsers, Float, above_zero, finite, at_most_zero, parse_positive_float, parse_positive_duration,
  validate_log_level,
}
use kvp.Config.Parse.{Parsing, defaults, assign_all}
use kvp.Config.Settings.{positive, non_negative, settings, finish, parse}
use kvp.Config.Configured.{value_or, checks, configured, first_invalid, IsValid}
use kvp.Config.Meaning.{Tested}
use kvp.Config.Known.{all_known, first_failing, change_all, assign_all_lem}

only_if_holds : (test : ℤ → Bool) (o : Option ℤ) (a : ℤ) → only_if test o ≡ some a → test a ≡ true
only_if_holds test none a h = cc h
only_if_holds test (some b) a h = elim (Bool-cases (test b)) [
  | inl good ↦ subst (λ c. test c ≡ true) (some_inj (rw good at h)) good
  | inr bad ↦ cc (rw bad at h)
]

-- Where the parser accepts only values with a property that the default has, the value has it.
value_or_lem :
    {A : Type 0} (test : A → Bool) (wanted : Bool) (d : A) (f : String → Option A) (v : String)
    → test d ≡ wanted
    → ((a : A) → f v ≡ some a → test a ≡ wanted)
    → test (value_or d f v) ≡ wanted
value_or_lem test wanted d f v h g = elim (Bool-cases (same_text v "")) [
  | inl unset ↦ rw unset h
  | inr set ↦ elim (Option-cases (f v)) [
    | inl fails ↦ rw (set, fails) h
    | inr good ↦ rw (set, good.1) (g good.0 good.1)
  ]
]

above_zero_lem : (o : Option Float) (f : Float) → above_zero o ≡ some f → at_most_zero f ≡ false
above_zero_lem none f h = cc h
above_zero_lem (some b) f h = elim (Bool-cases (at_most_zero b)) [
  | inl small ↦ cc (rw small at h)
  | inr good ↦ subst (λ c. at_most_zero c ≡ false) (some_inj (rw good at h)) good
]

-- A value that its parser accepts only where it is positive, with a positive default.
size_positive :
    (d : ℤ) (v : String) → ltb_ℤ (pos 0) d ≡ true → ltb_ℤ (pos 0) (value_or d positive v) ≡ true
unfolding parse_positive_int
size_positive d v h =
    value_or_lem (λ n. ltb_ℤ (pos 0) n) true d positive v h
      (λ a. only_if_holds (λ n. ltb_ℤ (pos 0) n) (parse_int (codes v)) a)

not_eq_true : (b : Bool) → not b ≡ true → b ≡ false
not_eq_true true h = cc h
not_eq_true false h = refl

sweep_valid : (v : String) → ltb_ℤ (value_or (pos 10000) non_negative v) (pos 0) ≡ false
unfolding parse_non_negative_int
sweep_valid v =
    value_or_lem (λ n. ltb_ℤ n (pos 0)) false (pos 10000) non_negative v refl
      (λ a h.
        not_eq_true (ltb_ℤ a (pos 0))
          (only_if_holds (λ n. not (ltb_ℤ n (pos 0))) (parse_int (codes v)) a h))

module _ ⦃p : Parsers⦄ where
  abbrev begin : (String → String) → Parsing
  begin env = record { cfg = defaults env; mem_cache = none }

  -- The default addresses, mode and level pass their tests.
  begin-Tested : (env : String → String) → Tested (begin env)
  unfolding defaults validate_listen_addr split_host_port split_last_colon all_digits
      validate_commit_mode validate_log_level
  begin-Tested env = (refl, rw p.loopback refl, refl, refl)

  chain :
      (env : String → String)
      → ((assign_all env settings (none, begin env)).0 ≡ first_failing env all_known)
        × (first_failing env all_known ≡ none
            → ((assign_all env settings (none, begin env)).1 ≡ change_all env all_known (begin env))
              × Tested (change_all env all_known (begin env)))
  chain env = assign_all_lem env all_known (begin env) (begin-Tested env)

  first_failing_lem :
      (env : String → String) → first_failing env all_known ≡ first_invalid env checks
  unfolding first_invalid
  first_failing_lem env = refl

  -- Parse names the first variable whose value its test refuses, in the order of the settings, and no
  -- variable exactly where every one that is set passes.
  pub parse_names : (getenv : String → String) → (parse getenv).1 ≡ first_invalid getenv checks
  unfolding parse finish
  parse_names env = (chain env).0 ∙ first_failing_lem env

  parse_accepts : (env : String → String) → (parse env).1 ≡ none → (parse env).0 ≡ configured env
  unfolding parse finish configured defaults
  parse_accepts env h = ap (λ q. (finish (none, q)).0) ((chain env).1 (sym (chain env).0 ∙ h)).0

  duration_positive :
      (d : ℤ) (v : String)
      → ltb_ℤ (pos 0) d ≡ true
      → ltb_ℤ (pos 0) (value_or d parse_positive_duration v) ≡ true
  unfolding parse_positive_duration
  duration_positive d v h =
      value_or_lem (λ n. ltb_ℤ (pos 0) n) true d parse_positive_duration v h
        (λ a. only_if_holds (λ n. ltb_ℤ (pos 0) n) (p.parse_duration v) a)

  rate_valid :
      (v : String)
      → at_most_zero (value_or (finite (pos 10) (pos 0)) parse_positive_float v) ≡ false
  unfolding parse_positive_float at_most_zero
  rate_valid v =
      value_or_lem at_most_zero false (finite (pos 10) (pos 0)) parse_positive_float v refl
        (λ a. above_zero_lem (p.parse_float v) a)

  texts_valid :
      (env : String → String)
      → (parse env).1 ≡ none
      → Tested (record { cfg = configured env; mem_cache = none })
  unfolding parse finish configured defaults
  texts_valid env h = let t = ((chain env).1 (sym (chain env).0 ∙ h)).1 in (t.0, t.1, t.2, t.3)

  configured-IsValid :
      (env : String → String)
      → Tested (record { cfg = configured env; mem_cache = none })
      → IsValid (configured env)
  unfolding configured
  configured-IsValid env t = record {
    port_valid = t.0;
    metrics_port_valid = t.1;
    mode_valid = t.2;
    level_valid = t.3;
    body_positive = size_positive (pos 1048576) (env "KVP_MAX_BODY_BYTES") refl;
    key_positive = size_positive (pos 256) (env "KVP_MAX_KEY_BYTES") refl;
    db_positive = size_positive (pos 67108864) (env "KVP_MAX_DB_BYTES") refl;
    flush_positive = duration_positive (pos 1000000000) (env "KVP_FLUSH_INTERVAL") refl;
    ttl_positive = duration_positive (pos 86400000000000) (env "KVP_TTL") refl;
    cleanup_positive = duration_positive (pos 3600000000000) (env "KVP_CLEANUP_INTERVAL") refl;
    throttle_positive = duration_positive (pos 60000000000) (env "KVP_SIZE_CLEANUP_THROTTLE") refl;
    batch_positive = size_positive (pos 1000) (env "KVP_CLEANUP_BATCH_SIZE") refl;
    runs_positive = size_positive (pos 64) (env "KVP_CLEANUP_MAX_RUNS") refl;
    rate_not_refused = rate_valid (env "KVP_RATE_LIMIT_RPS");
    burst_positive = size_positive (pos 20) (env "KVP_RATE_LIMIT_BURST") refl;
    shutdown_positive = duration_positive (pos 15000000000) (env "KVP_SHUTDOWN_TIMEOUT") refl;
    backup_positive = duration_positive (pos 86400000000000) (env "KVP_BACKUP_INTERVAL") refl;
    retention_positive = size_positive (pos 7) (env "KVP_BACKUP_RETENTION") refl;
    sweep_not_negative = sweep_valid (env "KVP_CLEANUP_SWEEP_LIMIT");
  }

  pub parse-IsValid :
      (getenv : String → String)
      → (parse getenv).1 ≡ none
      → ((parse getenv).0 ≡ configured getenv) × IsValid (parse getenv).0
  parse-IsValid env h = (
    parse_accepts env h,
    subst (λ c. IsValid c) (sym (parse_accepts env h)) (configured-IsValid env (texts_valid env h)),
  )
