-- ===== src/Store/Sql.antt =====
-- The SQL of internal/store/store.go: each statement as a function on the rows of `kv_store`.
-- SQLite is not part of the repository. What the source relies on is written out: a statement that
-- succeeds has its documented effect, and one that fails changes no row. Which statements succeed,
-- and what `PRAGMA page_count` and `page_size` answer, are inputs of the model.
use text.Mathlib.Text.{◌==◌}
use kvp.Prelude.{
  ℕ, ◌-◌, String, Bool, true, false, not, ◌||◌, Option, none, some, List, [], ◌∷◌, map, text_lt,
  text_le, if◌then◌else◌, length, take,
}

abbrev pub Bytes : Type 0
Bytes = List ℕ

-- A row of `kv_store`; `created_at` is written once by SQLite and read by nothing.
pub record Row : Type 0 where
  pub key : String
  pub value : Bytes
  pub expires_at : String

-- The database: its rows, the outcomes of the calls to come (true: the call succeeds; when the list
-- has run out every call succeeds), and the answers of the size queries to come.
pub record Db : Type 0 where
  pub rows : List Row
  pub outcomes : List Bool
  pub sizes : List ℕ

abbrev pub answer : Db → List Bool → Bool × Db
answer d [] = (true, d)
answer d (b ∷ bs) = (b, record d { outcomes = bs })

-- One call into the database driver that can return an error.
unfoldable pub ask : Db → Bool × Db
ask d = answer d d.outcomes

-- A statement that changes rows.
unfoldable pub exec : (List Row → List Row) → Db → Bool × Db
unfolding ask
exec f d = let (ok, d') = ask d in (ok, if ok then record d' { rows = f d'.rows } else d')

-- INSERT … ON CONFLICT(key) DO UPDATE
unfoldable pub upsert : Row → List Row → List Row
upsert r [] = r ∷ []
upsert r (q ∷ rows) = if q.key == r.key then r ∷ rows else q ∷ upsert r rows

-- SELECT … WHERE key = ?
unfoldable pub select_row : String → List Row → Option Row
select_row k [] = none
select_row k (q ∷ rows) = if q.key == k then some q else select_row k rows

-- DELETE … WHERE test
unfoldable pub delete_where : (Row → Bool) → List Row → List Row
delete_where test [] = []
delete_where test (q ∷ rows) =
    let rest = delete_where test rows in if test q then rest else q ∷ rest

-- WHERE expires_at < ?
abbrev pub expired_row : String → Row → Bool
expired_row now_text q = text_lt q.expires_at now_text

-- SELECT 1 … WHERE expires_at < ? LIMIT 1: whether there is such a row
unfoldable pub any_row : (Row → Bool) → List Row → Bool
any_row test [] = false
any_row test (q ∷ rows) = test q || any_row test rows

abbrev pub keep_rows : (Row → Bool) → List Row → List Row
keep_rows test rows = delete_where (λ q. not (test q)) rows

-- ORDER BY expires_at ASC, a stable sort by the column's text
unfoldable pub insert_by_expiry : Row → List Row → List Row
insert_by_expiry r [] = r ∷ []
insert_by_expiry r (q ∷ rows) =
    if text_le r.expires_at q.expires_at then r ∷ q ∷ rows else q ∷ insert_by_expiry r rows

unfoldable pub order_by_expiry : List Row → List Row
unfolding insert_by_expiry
order_by_expiry [] = []
order_by_expiry (q ∷ rows) = insert_by_expiry q (order_by_expiry rows)

-- SELECT key … ORDER BY expires_at ASC LIMIT n
unfoldable pub oldest_keys : ℕ → List Row → List String
unfolding order_by_expiry
oldest_keys n rows = map (λ q. q.key) (take n (order_by_expiry rows))

unfoldable pub mem : String → List String → Bool
mem k [] = false
mem k (j ∷ ks) = j == k || mem k ks

-- DELETE … WHERE key IN (…)
unfoldable pub delete_in : List String → List Row → List Row
unfolding delete_where mem
delete_in ks rows = delete_where (λ q. mem q.key ks) rows

-- `RowsAffected` of a DELETE
abbrev pub rows_affected : List Row → List Row → ℕ
rows_affected old new = length old - length new

abbrev pub answer_size : Db → List ℕ → ℕ × Db
answer_size d [] = (0, d)
answer_size d (n ∷ ns) = (n, record d { sizes = ns })

-- The integer that a PRAGMA query scans.
unfoldable pub read_size : Db → ℕ × Db
read_size d = answer_size d d.sizes
