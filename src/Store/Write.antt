-- ===== src/Store/Write.antt =====
-- internal/store/store.go: PutWithMode and Flush.
use kvp.Prelude.{
  arith, ◌≡◌, ℕ, ◌+◌, String, Bool, true, false, not, ◌&&◌, Option, none, some, List, [], ◌∷◌,
  if◌then◌else◌, length, chunks,
}
use kvp.Store.Mode.{PutMode, put_sync, put_async, put_memory}
use kvp.Store.Clock.{TimeText}
use kvp.Store.Sql.{Bytes, Row, Db, ask, exec, upsert}
use kvp.Store.State.{
  Error, put_failed, flush_begin, flush_failed, flush_commit, Entry, Store, FlushItem, caching,
  cache_put, mark_dirty, clear_dirty, take_dirty, snapshot, re_mark_dirty, clear_volatile,
}

abbrev pub is_sync : PutMode → Bool
is_sync put_sync = true
is_sync _ = false

-- Modes other than PutSync degrade to PutSync without the memory layer.
abbrev pub effective_mode : Store → PutMode → PutMode
effective_mode s mode = if not (is_sync mode) && not (caching s) then put_sync else mode

-- A write that is not a sync write has the memory layer to go to.
pub effective_needs_cache :
    (s : Store) (mode : PutMode) → is_sync (effective_mode s mode) ≡ false → caching s ≡ true
effective_needs_cache s put_sync h = ground arith
effective_needs_cache s put_async h = ground arith
effective_needs_cache s put_memory h = ground arith

-- What the memory layer does once the upsert of a sync write has succeeded.
abbrev pub mirror : String → Entry → Store → Store
mirror key e s = if caching s then clear_dirty key (cache_put key e s) else s

-- `for _, it := range chunk { clearVolatile }`
unfoldable pub settle : List FlushItem → Store → Store
settle [] s = s
settle (it ∷ chunk) s = settle chunk (clear_volatile it.key it.e.expires_at s)

abbrev pub flush_batch_size : ℕ
flush_batch_size = 500

module _ ⦃c : TimeText⦄ where
  -- The row that the upsert statement writes for an entry.
  abbrev pub row_of : String → Entry → Row
  row_of key e = record { key = key; value = e.value; expires_at = c.format e.expires_at }

  abbrev pub put_in_mode : PutMode → String → Bytes → ℕ → Store → Option Error × Store
  put_in_mode put_sync key value expires s =
      let e : Entry = record { value = value; expires_at = expires; volatile = false } in
      let (done, d) = exec (upsert (row_of key e)) s.db in
      let s' : Store = record s { db = d } in
      if done then (none, mirror key e s') else (some (put_failed key), s')
  put_in_mode put_async key value expires s =
      let e : Entry = record { value = value; expires_at = expires; volatile = true } in
      (none, mark_dirty key (cache_put key e s))
  put_in_mode put_memory key value expires s =
      let e : Entry = record { value = value; expires_at = expires; volatile = true } in
      (none, clear_dirty key (cache_put key e s))

  -- PutWithMode, with the clock's reading `now`
  unfoldable pub put_with_mode : String → Bytes → ℕ → PutMode → ℕ → Store → Option Error × Store
  put_with_mode key value ttl mode now s =
      put_in_mode (effective_mode s mode) key value (now + ttl) s

  unfoldable pub put : String → Bytes → ℕ → ℕ → Store → Option Error × Store
  put key value ttl now s = put_with_mode key value ttl put_sync now s

  -- The statements of one flush transaction; the first that fails is returned.
  unfoldable pub upsert_items : List FlushItem → Db → Option Error × Db
  upsert_items [] d = (none, d)
  upsert_items (it ∷ chunk) d =
      let (done, d') = exec (upsert (row_of it.key it.e)) d in
      elim done [ true ↦ upsert_items chunk d' | false ↦ (some (flush_failed it.key), d') ]

  -- A transaction that is rolled back, or whose commit fails, leaves the rows as they were.
  abbrev pub roll_back : List Row → Db → Db
  roll_back rows d = record d { rows = rows }

  abbrev pub commit : List Row → Db → Option Error × Db
  commit rows d =
      let (done, d') = ask d in if done then (none, d') else (some flush_commit, roll_back rows d')

  abbrev pub close_tx : List Row → Option Error × Db → Option Error × Db
  close_tx rows (none, d) = commit rows d
  close_tx rows (some err, d) = (some err, roll_back rows d)

  -- One transaction: BeginTx, the upserts, and Commit or Rollback.
  unfoldable pub flush_tx : List FlushItem → Db → Option Error × Db
  flush_tx chunk d =
      let (begun, d') = ask d in
      if begun then close_tx d.rows (upsert_items chunk d') else (some flush_begin, d')

  -- The loop over the chunks: a failed one goes back to the dirty set and ends the flush.
  unfoldable pub flush_chunks : List (List FlushItem) → ℕ → Store → ℕ × Option Error × Store
  flush_chunks [] persisted s = (persisted, none, s)
  flush_chunks (chunk ∷ rest) persisted s =
      let (failed, d) = flush_tx chunk s.db in
      let s' : Store = record s { db = d } in
      elim failed [
        | none ↦ flush_chunks rest (persisted + length chunk) (settle chunk s')
        | some err ↦ (persisted, some err, re_mark_dirty chunk s')
      ]

  abbrev pub flush_keys : List String → Store → ℕ × Option Error × Store
  flush_keys [] s = (0, none, s)
  flush_keys (k ∷ ks) s = flush_chunks (chunks flush_batch_size (snapshot (k ∷ ks) s.cache)) 0 s

  -- Flush: the persisted count, the error, and the store.
  unfoldable pub flush : Store → ℕ × Option Error × Store
  flush s = if caching s then (let (ks, s') = take_dirty s in flush_keys ks s') else (0, none, s)
