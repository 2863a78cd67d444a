-- ===== src/Config/Meaning.antt =====
-- internal/config/config.go: what each closure of `Parse` does, as a test of its variable and a change
-- of the configuration.
use text.Mathlib.Text.{◌==◌ as same_text}
use mathlib.Core.Path.{subst}
use kvp.Prelude.{
  String, Bool, true, ◌≡◌, refl, ap, sym, Option, some, if◌then◌else◌, Bool-cases, Option-cases,
  inl, inr,
}
use kvp.Prelude.Int.{pos}
use kvp.Config.Values.{Parsers}
use kvp.Config.Parse.{Config, Parsing}
use kvp.Config.Settings.{
  tested, plain_text, bare_text, set_memory_cache, store_parsed, non_negative, parse,
  commit_mode_ok, log_level_ok, port_ok, metrics_port_ok,
}
use kvp.Config.Configured.{verbatim, or_default, value_or, unset_or, unset_or_ok}

-- What holds of the configuration between two calls of `assign`: its texts pass their tests.
abbrev pub Tested : ⦃p : Parsers⦄ → Parsing → Type 0
Tested q =
    (port_ok q.cfg ≡ true)
    × (metrics_port_ok q.cfg ≡ true)
    × (commit_mode_ok q.cfg ≡ true)
    × (log_level_ok q.cfg ≡ true)

-- What a setting does, by a test of the variable alone and a change of the configuration.
pub record Meaning : Type 0 where
  pub check : String → Bool
  pub change : String → Parsing → Parsing

abbrev pub Does : ⦃p : Parsers⦄ → (String → Parsing → Bool × Parsing) → Meaning → Type 0
Does set m =
    (v : String) (q : Parsing)
    → Tested q
    → ((set v q).0 ≡ m.check v)
      × (m.check v ≡ true → ((set v q).1 ≡ m.change v q) × Tested (m.change v q))

module _ ⦃p : Parsers⦄ {A : Type 0} (get : Config → A) (put : A → Config → Config)
    (same : (c : Config) → put (get c) c ≡ c) where
  abbrev pub put_cfg : A → Parsing → Parsing
  put_cfg a q = record q { cfg = put a q.cfg }

  abbrev pub changes : (String → Option A) → Meaning
  changes parse = record {
    check = unset_or parse;
    change = λ v q. put_cfg (value_or (get q.cfg) parse v) q;
  }

  same_parsing : (q : Parsing) → q ≡ put_cfg (get q.cfg) q
  same_parsing q = ap (λ c. record q { cfg = c }) (sym (same q.cfg))

  pub store_parsed-Does :
      (fallback : A) (parse : String → Option A)
      → ((a : A) (q : Parsing) → Tested q → Tested (put_cfg a q))
      → Does (store_parsed put_cfg fallback parse) (changes parse)
  store_parsed-Does fallback parse keep v q t = elim (Bool-cases (same_text v "")) [
    | inl unset ↦ rw unset (refl, λ _. (same_parsing q, keep (get q.cfg) q t))
    | inr set ↦ elim (Option-cases (parse v)) [
      | inl fails ↦ rw (set, fails) (refl, λ h. cc h)
      | inr good ↦ rw (set, good.1) (refl, λ _. (refl, keep good.0 q t))
    ]
  ]

  -- A text that is tested afterwards: the test passes on the field as it was.
  abbrev pub tests : (String → A) → (String → Bool) → Meaning
  tests from test = record {
    check = unset_or_ok test;
    change = λ v q. put_cfg (value_or (get q.cfg) (λ t. some (from t)) v) q;
  }

  pub tested-Does :
      (from : String → A) (test : Config → Bool) (good : String → Bool)
      → ((v : String) (c : Config) → test (put (from v) c) ≡ good v)
      → ((q : Parsing) → Tested q → test q.cfg ≡ true)
      → ((v : String) (q : Parsing) → good v ≡ true → Tested q → Tested (put_cfg (from v) q))
      → Does (tested put from test) (tests from good)
  tested-Does from test good says passes keep v q t = elim (Bool-cases (same_text v "")) [
    | inl unset ↦ rw unset (passes q t, λ _. (same_parsing q, subst Tested (same_parsing q) t))
    | inr set ↦ rw set (says v q.cfg, λ h. (refl, keep v q h t))
  ]

module _ ⦃p : Parsers⦄ where
  abbrev pub unchecked : (String → Parsing → Parsing) → Meaning
  unchecked change = record { check = λ _. true; change = change }

  -- A text without a test.
  pub plain_text-Does :
      (get : Config → String) (put : String → Config → Config)
      → ((c : Config) → put (get c) c ≡ c)
      → ((v : String) (q : Parsing) → Tested q → Tested (record q { cfg = put v q.cfg }))
      → Does
          (plain_text put)
          (unchecked (λ v q. record q { cfg = put (value_or (get q.cfg) verbatim v) q.cfg }))
  plain_text-Does get put same keep v q t = elim (Bool-cases (same_text v "")) [
    | inl unset ↦ rw unset (refl, λ _. (same_parsing get put same q, keep (get q.cfg) q t))
    | inr set ↦ rw set (refl, λ _. (refl, keep v q t))
  ]

  pub set_memory_cache-Does : Does set_memory_cache (record {
    check = unset_or non_negative;
    change = λ v q. record q {
      mem_cache =
          if same_text v "" then q.mem_cache else some (or_default (pos 0) (non_negative v));
    };
  })
  set_memory_cache-Does v q t = elim (Bool-cases (same_text v "")) [
    | inl unset ↦ rw unset (refl, λ _. (refl, t))
    | inr set ↦ elim (Option-cases (non_negative v)) [
      | inl fails ↦ rw (set, fails) (refl, λ h. cc h)
      | inr good ↦ rw (set, good.1) (refl, λ _. (refl, t))
    ]
  ]

  pub bare_text-Does :
      (put : String → Config → Config)
      → ((v : String) (q : Parsing) → Tested q → Tested (record q { cfg = put v q.cfg }))
      → Does (bare_text put) (unchecked (λ v q. record q { cfg = put v q.cfg }))
  bare_text-Does put keep v q t = (refl, λ _. (refl, keep v q t))
