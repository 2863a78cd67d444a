-- ===== src/Config/Values.antt =====
-- internal/config/config.go: the parsers of durations, floats and prefixes, and the log levels. The
-- functions of strconv, time and net/netip that read a text are an interface.
use text.Mathlib.Text.{◌==◌ as same_text}
use kvp.Prelude.{
  ℕ, ◌-◌, ◌*◌, ◌/◌, ◌^◌, String, ◌≡◌, Bool, true, false, ◌||◌, Option, none, some, List, [], ◌∷◌,
  ◌++◌, ◌==◌, leb, if◌then◌else◌,
}
use Prim.Native.Char.{code}
use kvp.Prelude.Int.{ℤ, pos, ltb_ℤ}
use kvp.Store.Mode.{codes}
use kvp.Server.Http.{Prefix, trim_space}
use kvp.Config.{only_if}

-- A float64: not a number, an infinity with its sign, or m * 2^e.
pub data Float : Type 0 where
  not_a_number : Float
  infinite : Bool → Float
  finite : ℤ → ℤ → Float

-- time.ParseDuration in nanoseconds, strconv.ParseFloat, netip.ParseAddr with the answer whether it
-- parses, and netip.ParsePrefix. `loopback` is the one address that the defaults name.
pub record Parsers : Type 0 where
  pub parse_duration : String → Option ℤ
  pub parse_float : String → Option Float
  pub parses_addr : List ℕ → Bool
  pub parse_prefix : List ℕ → Option Prefix
  pub loopback : parses_addr (codes "127.0.0.1") ≡ true

-- `f <= 0`, which is false for what is not a number.
unfoldable pub at_most_zero : Float → Bool
at_most_zero not_a_number = false
at_most_zero (infinite negative) = negative
at_most_zero (finite m e) = if ltb_ℤ (pos 0) m then false else true

abbrev pub above_zero : Option Float → Option Float
above_zero none = none
above_zero (some f) = if at_most_zero f then none else some f

-- validateLogLevel
unfoldable pub validate_log_level : String → Bool
validate_log_level v =
    same_text v "debug" || same_text v "info" || same_text v "warn" || same_text v "error"

-- The pieces of a text between commas, which are one more than the commas.
unfoldable pub split_commas : String → String × List String
split_commas String.[] = ("", [])
split_commas (String.◌∷◌ first rest) =
    let (piece, others) = split_commas rest in
    if code first == b',' then ("", piece ∷ others) else (String.◌∷◌ first piece, others)

unfoldable pub has_slash : List ℕ → Bool
has_slash [] = false
has_slash (c ∷ cs) = let rest = has_slash cs in c == b'/' || rest

-- A byte of which the first `bits` are kept.
abbrev pub mask_byte : ℕ → ℕ → ℕ
mask_byte bits b = if leb 8 bits then b else b / 2 ^ (8 - bits) * 2 ^ (8 - bits)

-- The bytes of an address behind the first `bits` bits are cleared.
unfoldable pub mask_bytes : ℕ → List ℕ → List ℕ
mask_bytes bits [] = []
mask_bytes bits (b ∷ bs) = mask_byte bits b ∷ mask_bytes (bits - 8) bs

-- `prefix.Masked()`
unfoldable pub masked : Prefix → Prefix
masked p = record p { address = mask_bytes p.bits p.address }

-- The text of one prefix, with `/32` where no length is given.
unfoldable pub with_length : String → List ℕ
with_length piece = if has_slash (codes piece) then codes piece else codes piece ++ codes "/32"

module _ ⦃p : Parsers⦄ where
  -- parsePositiveFloat
  unfoldable pub parse_positive_float : String → Option Float
  parse_positive_float v = above_zero (p.parse_float v)

  -- parsePositiveDuration
  unfoldable pub parse_positive_duration : String → Option ℤ
  parse_positive_duration v = only_if (λ d. ltb_ℤ (pos 0) d) (p.parse_duration v)

  -- `out = append(out, prefix.Masked())`, in the order of the pieces
  abbrev pub append_masked : Option Prefix → Option (List Prefix) → Option (List Prefix)
  append_masked none rest = none
  append_masked (some prefix) none = none
  append_masked (some prefix) (some out) = some (masked prefix ∷ out)

  -- The loop of parsePrefixes.
  unfoldable pub parse_pieces : List String → Option (List Prefix)
  parse_pieces [] = some []
  parse_pieces (piece ∷ parts) =
      let rest = parse_pieces parts in
      let trimmed = trim_space piece in
      if same_text trimmed ""
      then rest
      else append_masked (p.parse_prefix (with_length trimmed)) rest

  -- parsePrefixes
  unfoldable pub parse_prefixes : String → Option (List Prefix)
  parse_prefixes v = let (piece, others) = split_commas v in parse_pieces (piece ∷ others)
