-- ===== src/Config.antt =====
-- internal/config/config.go: the parsers and validators of the environment's values. A text is the
-- list of its code points.
pub mod Numbers
pub mod Addresses
pub mod Values
pub mod Parse
pub mod Settings
pub mod Configured
pub mod Meaning
pub mod Known
pub mod Accepted
mod Tests
use kvp.Prelude.{
  ℕ, ◌+◌, ◌-◌, ◌*◌, ◌%◌, ◌^◌, String, Bool, true, false, not, ◌&&◌, ◌||◌, Option, none, some, List,
  [], ◌∷◌, ltb, leb, ◌==◌, if◌then◌else◌,
}
use kvp.Prelude.Int.{ℤ, pos, negsuc, sub_ℕ, pos_part, ltb_ℤ}
use kvp.Store.Mode.{codes, same_codes}

abbrev pub is_digit : ℕ → Bool
is_digit c = leb b'0' c && leb c b'9'

-- The digits' value after `n`, or none for another character.
unfoldable pub read_digits : List ℕ → ℕ → Option ℕ
read_digits [] n = some n
read_digits (c ∷ cs) n = elim (is_digit c) [
  | true ↦ read_digits cs (10 * n + (c - b'0'))
  | false ↦ none
]

-- At least one digit.
abbrev pub read_number : List ℕ → Option ℕ
read_number [] = none
read_number (c ∷ cs) = read_digits (c ∷ cs) 0

abbrev pub max_int : ℕ
max_int = 9223372036854775807

abbrev pub positive_int64 : Option ℕ → Option ℤ
positive_int64 none = none
positive_int64 (some n) = if leb n max_int then some (pos n) else none

abbrev pub negative_int64 : Option ℕ → Option ℤ
negative_int64 none = none
negative_int64 (some n) = if leb n (max_int + 1) then some (sub_ℕ 0 n) else none

-- `strconv.ParseInt(v, 10, 64)`, and `strconv.Atoi` where int has 64 bits.
unfoldable pub parse_int : List ℕ → Option ℤ
parse_int [] = none
parse_int (c ∷ cs) =
    if c == b'-'
    then negative_int64 (read_number cs)
    else if c == b'+'
    then positive_int64 (read_number cs)
    else positive_int64 (read_number (c ∷ cs))

abbrev pub only_if : (ℤ → Bool) → Option ℤ → Option ℤ
only_if test none = none
only_if test (some n) = if test n then some n else none

-- parsePositiveInt64 and parsePositiveInt
unfoldable pub parse_positive_int : List ℕ → Option ℤ
parse_positive_int v = only_if (λ n. ltb_ℤ (pos 0) n) (parse_int v)

-- parseNonNegativeInt64 and parseNonNegativeInt
unfoldable pub parse_non_negative_int : List ℕ → Option ℤ
parse_non_negative_int v = only_if (λ n. not (ltb_ℤ n (pos 0))) (parse_int v)

-- The int64 that a product of numbers wraps to.
unfoldable pub wrap_int64 : ℕ → ℤ
wrap_int64 n =
    let m = n % 18446744073709551616 in
    if leb m max_int then pos m else sub_ℕ m 18446744073709551616

-- MemoryCacheBytes from KVP_MEMORY_CACHE_MB, which is none where it is unset.
unfoldable pub memory_cache_bytes : Option ℕ → ℤ → ℤ
memory_cache_bytes none max_db_bytes = max_db_bytes
memory_cache_bytes (some mb) max_db_bytes = wrap_int64 (mb * 1024 * 1024)

-- validateCommitMode
unfoldable pub validate_commit_mode : List ℕ → Bool
validate_commit_mode v =
    same_codes v (codes "sync") || same_codes v (codes "async") || same_codes v (codes "memory")

-- The text before and after the last colon.
unfoldable pub split_last_colon : List ℕ → Option (List ℕ × List ℕ)
split_last_colon [] = none
split_last_colon (c ∷ cs) = elim (split_last_colon cs) [
  | some p ↦ some (c ∷ p.0, p.1)
  | none ↦ if c == b':' then some ([], cs) else none
]

unfoldable pub all_digits : List ℕ → Bool
all_digits [] = true
all_digits (c ∷ cs) = let rest = all_digits cs in is_digit c && rest

abbrev pub with_port : List ℕ → List ℕ → Option (List ℕ × List ℕ)
with_port host [] = none
with_port host (c ∷ cs) = if all_digits (c ∷ cs) then some (host, c ∷ cs) else none

abbrev pub numeric_port : Option (List ℕ × List ℕ) → Option (List ℕ × List ℕ)
numeric_port none = none
numeric_port (some (host, port)) = with_port host port

-- splitHostPort
unfoldable pub split_host_port : List ℕ → Option (List ℕ × List ℕ)
split_host_port addr = numeric_port (split_last_colon addr)

-- The host that `validateListenAddr` accepts; `parses` is netip.ParseAddr on it.
abbrev pub host_ok : (List ℕ → Bool) → List ℕ → Bool
host_ok parses [] = true
host_ok parses (c ∷ cs) =
    same_codes (c ∷ cs) (codes "localhost")
    || parses (c ∷ cs)
    || same_codes (c ∷ cs) (codes "0.0.0.0")
    || same_codes (c ∷ cs) (codes "::")

-- validateListenAddr
unfoldable pub validate_listen_addr : (List ℕ → Bool) → List ℕ → Bool
validate_listen_addr parses addr = elim (split_host_port addr) [
  | none ↦ false
  | some p ↦ host_ok parses p.0
]
