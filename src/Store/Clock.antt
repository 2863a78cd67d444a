-- ===== src/Store/Clock.antt =====
-- The part of Go's package `time` that internal/store/store.go leans on. An instant is a number of
-- nanoseconds; a database column holds its RFC3339Nano text.
use kvp.Prelude.{ℕ, String, ◌≡◌, Bool, Option, some, ltb, ◌==◌}

-- `Format(time.RFC3339Nano)` and `time.Parse(time.RFC3339Nano, ·)`. The law is the documented one:
-- a formatted instant parses back to itself.
pub record TimeText : Type 0 where
  pub format : ℕ → String
  pub parse : String → Option ℕ
  pub parse-format : (t : ℕ) → parse (format t) ≡ some t

-- `t.After(u)`, `t.Before(u)` and `t.Equal(u)`
abbrev pub after : ℕ → ℕ → Bool
after t u = ltb u t

abbrev pub before : ℕ → ℕ → Bool
before t u = ltb t u

abbrev pub same_instant : ℕ → ℕ → Bool
same_instant t u = t == u
