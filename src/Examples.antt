-- ===== src/Examples.antt =====
-- A clock and empty stores for the examples of all parts.
use Prim.Native.Char.{char}
use kvp.Prelude.{
  List, Bool, ◌||◌, ◌&&◌, ◌==◌, ◌≤◌, ◌∷◌, true, arith, ℕ, suc, zero, String, ◌≡◌, refl, ap, Option,
  none, some, [],
}
use kvp.Prelude.Int.{ℤ, pos}
use kvp.Assoc.{total}
use kvp.Store.Clock.{TimeText}
use kvp.Store.Mode.{codes}
use kvp.Store.Sql.{Db}
use kvp.Store.Backup.{Stamp, codes_le}
use kvp.Store.State.{Store}
use kvp.Config.{is_digit, parse_int}
use kvp.Config.Values.{Float, finite, Parsers}
use kvp.Store.Valid.{IsValid}

-- The text of an instant in unary, which parses back.
abbrev pub unary : ℕ → String
unary zero = ""
unary (suc n) = String.◌∷◌ (char 120 tt) (unary n)

abbrev count_up : Option ℕ → Option ℕ
count_up none = none
count_up (some n) = some (suc n)

abbrev parse_unary : String → Option ℕ
parse_unary String.[] = some 0
parse_unary (String.◌∷◌ ch s) = count_up (parse_unary s)

pub parse-unary : (t : ℕ) → parse_unary (unary t) ≡ some t
parse-unary zero = refl
parse-unary (suc n) = ap count_up (parse-unary n)

instance abbrev pub clock : TimeText
clock = record { format = unary; parse = parse_unary; parse-format = parse-unary }

abbrev pub disk : Db
disk = record { rows = []; outcomes = []; sizes = [] }

abbrev pub fresh : ℤ → Store
fresh limit = record {
  db = disk;
  cache = [];
  cache_bytes = pos 0;
  mem_limit = limit;
  dirty = [];
  stragglers = [];
}

pub fresh-IsValid : (limit : ℤ) → IsValid (fresh limit)
unfolding total
fresh-IsValid limit = record {
  cache_map = tt;
  counted = refl;
  dirty_map = tt;
  rows_keyed = tt;
  off_cache = λ _. refl;
  off_dirty = λ _. refl;
}

pub point_ordered : (t u : ℕ) → t ≤ u → codes_le (t ∷ []) (u ∷ []) ≡ true
unfolding codes_le
point_ordered t u h = ground arith

-- A stamp of one code point.
instance abbrev pub point : Stamp
point = record { stamp = λ t. t ∷ []; stamp_width = λ t u. refl; stamp_ordered = point_ordered }

-- Durations and rates as plain whole numbers, and addresses of digits and dots.
abbrev pub whole_float : Option ℤ → Option Float
whole_float none = none
whole_float (some n) = some (finite n (pos 0))

abbrev pub dotted : List ℕ → Bool
dotted [] = true
dotted (c ∷ cs) = let rest = dotted cs in (is_digit c || c == b'.') && rest

instance abbrev pub plain_parsers : Parsers
plain_parsers = record {
  parse_duration = λ v. parse_int (codes v);
  parse_float = λ v. whole_float (parse_int (codes v));
  parses_addr = dotted;
  parse_prefix = λ v. some (record { address = v; bits = 32 });
  loopback = refl;
}
