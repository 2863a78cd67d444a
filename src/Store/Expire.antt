-- ===== src/Store/Expire.antt =====
-- internal/store/store.go: DeleteExpired and the size queries.
use kvp.Prelude.{ℕ, ◌*◌, String, Option, none, some, List, length, if◌then◌else◌}
use kvp.Prelude.Int.{ℤ, pos, pos_part, ltb_ℤ}
use kvp.Store.Clock.{TimeText}
use kvp.Store.Sql.{
  Row, Db, ask, exec, any_row, expired_row, delete_where, keep_rows, delete_in, oldest_keys,
  rows_affected, read_size,
}
use kvp.Store.State.{
  Error, probe_expired, delete_failed, rows_affected_failed, page_count, page_size, evict_count,
  Store, caching, purge_expired,
}

-- A DELETE with its `RowsAffected`: the count, or the error of the call that failed.
unfoldable pub exec_counted : (List Row → List Row) → Error → Error → Db → ℕ × Option Error × Db
exec_counted f failed uncounted d =
    let (done, d') = exec f d in
    if done
    then (let (counted, d'') = ask d' in
        if counted then (rows_affected d.rows d'.rows, none, d'') else (0, some uncounted, d''))
    else (0, some failed, d')

-- The DELETE of a sweep: bounded for a positive limit, of all expired rows otherwise.
unfoldable pub sweep_rows : ℤ → String → List Row → List Row
unfolding delete_in oldest_keys delete_where
sweep_rows limit now_text rows =
    if ltb_ℤ (pos 0) limit
    then delete_in (oldest_keys (pos_part limit) (keep_rows (expired_row now_text) rows)) rows
    else delete_where (expired_row now_text) rows

abbrev pub with_db : ℕ × Option Error × Db → Store → ℕ × Option Error × Store
with_db (n, err, d) s = (n, err, record s { db = d })

-- The probe and, if it finds an expired row, the DELETE.
unfoldable pub sweep_db : ℤ → String → Store → ℕ × Option Error × Store
sweep_db limit now_text s =
    let (done, d) = ask s.db in
    let s' : Store = record s { db = d } in
    if done
    then (if any_row (expired_row now_text) d.rows
        then with_db (exec_counted (sweep_rows limit now_text) delete_failed rows_affected_failed d)
            s'
        else (0, none, s'))
    else (0, some probe_expired, s')

module _ ⦃c : TimeText⦄ where
  -- DeleteExpired, with the clock's reading `now`
  unfoldable pub delete_expired : ℤ → ℕ → Store → ℕ × Option Error × Store
  delete_expired limit now s =
      sweep_db limit (c.format now) (if caching s then purge_expired now s.cache s else s)

-- RowCount
unfoldable pub row_count : Store → ℕ × Option Error × Store
row_count s =
    let (done, d) = ask s.db in
    if done
    then (length d.rows, none, record s { db = d })
    else (0, some evict_count, record s { db = d })

-- Size: `PRAGMA page_count` times `PRAGMA page_size`
unfoldable pub size : Store → ℕ × Option Error × Store
size s =
    let (done, d) = ask s.db in
    let (count, d1) = read_size d in
    let (done', d2) = ask d1 in
    let (bytes, d3) = read_size d2 in
    if done
    then (if done'
        then (count * bytes, none, record s { db = d3 })
        else (0, some page_size, record s { db = d2 }))
    else (0, some page_count, record s { db = d })

-- Usage and the size function that EvictOldest hands over: cache bytes with the memory layer, the
-- database's size without it.
unfoldable pub usage : Store → ℤ × Option Error × Store
usage s =
    if caching s then (s.cache_bytes, none, s) else (let (n, err, s') = size s in (pos n, err, s'))
