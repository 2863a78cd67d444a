-- ===== src/Config/Tests.antt =====
-- Values for internal/config/config.go, and its theorems at them.
use text.Mathlib.Text.{◌==◌ as same_text}
use kvp.Prelude.{String, if◌then◌else◌, refl, ◌∙◌, ◌≡◌, ◌↔◌, ◌++◌, some, ◌∷◌}
use kvp.Prelude.Int.{pos}
use kvp.Store.Mode.{codes}
use kvp.Examples.{plain_parsers}
use kvp.Config.{read_digits, parse_int, parse_positive_int, split_host_port}
use kvp.Config.Settings.{parse}
use kvp.Config.Configured.{first_invalid, checks}
use kvp.Config.Accepted.{parse_names}
use kvp.Config.Numbers.{decimal, parse_positive_decimal}
use kvp.Config.Addresses.{IsPort, split_host_port_exact}

parse_positive_decimal_example : parse_positive_int (decimal 120) ≡ some (pos 120)
parse_positive_decimal_example = parse_positive_decimal 120

split_host_port_exact_example :
    (split_host_port (codes "::1:80") ≡ some (codes "::1", codes "80"))
    ↔ ((codes "::1:80" ≡ codes "::1" ++ b':' ∷ codes "80") × IsPort (codes "80"))
split_host_port_exact_example = split_host_port_exact (codes "::1:80") (codes "::1") (codes "80")

abbrev environment : String → String
environment name =
    if same_text name "KVP_TTL"
    then "60"
    else if same_text name "KVP_COMMIT_MODE"
    then "Memory"
    else if same_text name "KVP_TRUSTED_PROXIES"
    then "10.0.0.1, 10.1.0.0/16"
    else ""

abbrev bad_environment : String → String
bad_environment name =
    if same_text name "KVP_MAX_DB_BYTES"
    then "0"
    else if same_text name "KVP_LOG_LEVEL"
    then "loud"
    else ""

parse_names_example : (parse bad_environment).1 ≡ first_invalid bad_environment checks
parse_names_example = parse_names bad_environment

bad_environment_named : (parse bad_environment).1 ≡ some "KVP_MAX_DB_BYTES"
unfolding first_invalid parse_positive_int parse_int read_digits
bad_environment_named = parse_names bad_environment ∙ refl
