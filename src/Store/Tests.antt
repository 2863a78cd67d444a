-- ===== src/Store/Tests.antt =====
-- Stores, databases and a clock for internal/store/store.go, and its theorems at them.
use kvp.Prelude.{
  ℕ, suc, zero, ◌<◌, String, ◌≡◌, refl, true, false, none, some, [], ◌∷◌, arith, length, ◌↔◌,
  chunks, if◌then◌else◌,
}
use kvp.Prelude.Int.{pos, ◌+ℤ◌}
use kvp.Examples.{clock, unary, fresh, fresh-IsValid}
use kvp.Assoc.{Assoc, lookup, insert, keys}
use kvp.Store.Mode.{put_sync, put_async, parse_put_mode, Spells, mode_text, parse_put_mode_exact}
use kvp.Store.Sql.{Db, ask, exec, upsert, select_row, delete_where, mem}
use kvp.Store.State.{
  Entry, Store, entry_size, cache_put, clear_dirty, mark_dirty, snapshot, take_dirty, flush_begin,
  FlushItem,
}
use kvp.Store.Write.{put_with_mode, flush, flush_tx, flush_chunks, upsert_items}
use kvp.Store.Read.{get, get_db, open_store, migrate_loop, load_cache, load_loop}
use kvp.Store.Expire.{delete_expired}
use kvp.Store.Evict.{evict_oldest}
use kvp.Store.Valid.{IsValid}
use kvp.Store.Safety.Writes.{put_with_mode-IsValid}
use kvp.Store.Counts.{Counted, deleted_counts}
use kvp.Store.Floor.{evict_never_empties}
use kvp.Store.View.{view, reply, reply_of, of_entry}
use kvp.Store.View.Writes.{view-put_with_mode}
use kvp.Store.View.Reads.{until, get-eq-view, view-get}
use kvp.Store.View.Sweeps.{view-delete_expired}
use kvp.Store.View.Flushes.{view-flush}
use kvp.Store.Durable.{durable}
use kvp.Store.Durable.Load.{reopened, open_store_lem}
use kvp.Store.Durable.Flushed.{durable-flush, flush-clean, written, cached_count}
use kvp.Store.Durable.Failed.{flush_failed_lem, flush_keeps_dirty, flush_forgets}
use kvp.Store.Durable.Survives.{durable-put_with_mode, sync_survives, flush_survives}
use kvp.Store.Threads.{here, next, put_entry, mark, Reach-IsValid}
use kvp.Store.Threads.Race.{write_during_flush, sync_write_overwritten}

-- With the memory layer, and without it.
abbrev cached : Store
cached = fresh (pos 1000)

abbrev plain : Store
plain = fresh (pos 0)

-- One key, written in each way.
abbrev one_async : Store
one_async = (put_with_mode "a" (1 ∷ []) 5 put_async 10 cached).1

abbrev one_sync : Store
one_sync = (put_with_mode "a" (1 ∷ []) 5 put_sync 10 cached).1

abbrev one_row : Store
one_row = (put_with_mode "a" (1 ∷ []) 5 put_sync 10 plain).1

one_async-IsValid : IsValid one_async
one_async-IsValid =
    put_with_mode-IsValid "a" (1 ∷ []) 5 put_async 10 cached (fresh-IsValid (pos 1000))

one_row-IsValid : IsValid one_row
one_row-IsValid = put_with_mode-IsValid "a" (1 ∷ []) 5 put_sync 10 plain (fresh-IsValid (pos 0))

view-put_with_mode_example : view one_row "a" ≡ some (1 ∷ [], 15)
unfolding put_with_mode exec upsert
view-put_with_mode_example = view-put_with_mode "a" (1 ∷ []) 5 put_sync 10 plain refl "a"

get-eq-view_example : reply_of (get "a" 15 one_row).0 ≡ reply 15 (view one_row "a")
unfolding get get_db put_with_mode exec upsert select_row
get-eq-view_example = get-eq-view "a" 15 one_row refl

view-get_example : view (get "a" 16 one_row).2 "a" ≡ until 16 (view one_row "a")
unfolding get get_db put_with_mode exec upsert select_row delete_where
view-get_example = view-get "a" 16 one_row one_row-IsValid refl "a"

view-delete_expired_example :
    view (delete_expired (pos 0) 16 one_async).2 "a" ≡ until 16 (view one_async "a")
unfolding put_with_mode mark_dirty cache_put
view-delete_expired_example = view-delete_expired (pos 0) 16 one_async "a" one_async-IsValid refl

view-flush_example : view (flush one_async).2 "a" ≡ view one_async "a"
view-flush_example = view-flush one_async "a"

durable-flush_example :
    durable (flush one_async).2.db.rows "a"
    ≡ written
        (mem "a" (keys one_async.dirty))
        (of_entry (lookup "a" one_async.cache))
        (durable one_async.db.rows "a")
unfolding flush put_with_mode mark_dirty cache_put take_dirty insert flush_chunks chunks snapshot
    lookup flush_tx ask upsert_items exec
durable-flush_example = durable-flush one_async refl refl "a"

flush-clean_example :
    ((flush one_async).2.dirty ≡ [])
    × ((flush one_async).0 ≡ cached_count (keys one_async.dirty) one_async.cache)
unfolding flush put_with_mode mark_dirty cache_put take_dirty insert flush_chunks chunks snapshot
    lookup flush_tx ask upsert_items exec
flush-clean_example = flush-clean one_async refl refl

durable-put_with_mode_example :
    durable (put_with_mode "a" (1 ∷ []) 5 put_sync 10 cached).1.db.rows "a" ≡ some (1 ∷ [], 15)
unfolding put_with_mode exec upsert
durable-put_with_mode_example = durable-put_with_mode "a" (1 ∷ []) 5 put_sync 10 cached refl "a"

-- The store that is opened on the rows of `one_sync`.
abbrev again : Db
again = record { rows = one_sync.db.rows; outcomes = []; sizes = [] }

abbrev restarted : Store
restarted = record {
  db = again;
  cache = ("a", record { value = 1 ∷ []; expires_at = 15; volatile = false }) ∷ [];
  cache_bytes = pos 98;
  mem_limit = pos 1000;
  dirty = [];
  stragglers = [];
}

sync_survives_example : view restarted "a" ≡ reopened (pos 1000) 12 (some (1 ∷ [], 15))
unfolding put_with_mode open_store exec upsert migrate_loop load_cache load_loop clear_dirty
    cache_put insert ◌+ℤ◌ lookup entry_size
sync_survives_example =
    sync_survives "a" (1 ∷ []) 5 10 cached "kv.db" (pos 1000) 12 again restarted
      (fresh-IsValid (pos 1000)) refl refl refl

parse_put_mode_exact_example :
    (parse_put_mode "Async" ≡ some put_async) ↔ Spells "Async" (mode_text put_async)
parse_put_mode_exact_example = parse_put_mode_exact "Async" put_async

Reach-IsValid_example :
    IsValid (
      mark_dirty "b"
        (cache_put "b" (record { value = []; expires_at = 3; volatile = true }) cached))
unfolding cache_put
Reach-IsValid_example = Reach-IsValid (fresh-IsValid (pos 1000)) (
    next (next here (put_entry "b" (record { value = []; expires_at = 3; volatile = true }) refl))
      (mark "b" refl))

-- `n` dirty keys with a live entry each, and a database whose next call fails.
abbrev many_items : ℕ → Assoc Entry
many_items zero = []
many_items (suc n) =
    (unary n, record { value = []; expires_at = 9; volatile = true }) ∷ many_items n

abbrev many_dirty : ℕ → Assoc (Unit {0})
many_dirty zero = []
many_dirty (suc n) = (unary n, tt) ∷ many_dirty n

abbrev failing : ℕ → Store
failing n = record {
  db = record { rows = []; outcomes = false ∷ []; sizes = [] };
  cache = many_items n;
  cache_bytes = pos 0;
  mem_limit = pos 100000;
  dirty = many_dirty n;
  stragglers = [];
}

abbrev first_item : ℕ → FlushItem
first_item n = record { key = unary n; e = record { value = []; expires_at = 9; volatile = true } }

flush_failed_lem_example :
    ((flush (failing 2)).1 ≡ some flush_begin)
    × ((flush (failing 2)).0 ≡ 0)
    × ((flush (failing 2)).2.db.rows ≡ [])
    × ((j : String)
        → lookup j (flush (failing 2)).2.dirty ≡ (if mem j ("x" ∷ "" ∷ []) then some tt else none))
unfolding snapshot lookup flush_tx ask
flush_failed_lem_example =
    flush_failed_lem (failing 2) (first_item 1) (first_item 0 ∷ []) flush_begin refl refl refl

flush_keeps_dirty_example : lookup "x" (flush (failing 2)).2.dirty ≡ some tt
unfolding snapshot lookup flush_tx ask mem
flush_keeps_dirty_example =
    flush_keeps_dirty (failing 2) (first_item 1) (first_item 0 ∷ []) flush_begin "x" refl refl
      (omega arith) refl refl

-- 501 dirty keys: the last one does not fit the first transaction.
flush_forgets_example :
    (lookup "" (flush (failing 501)).2.dirty ≡ none)
    × (durable (flush (failing 501)).2.db.rows "" ≡ durable [] "")
unfolding snapshot lookup flush_tx ask mem
flush_forgets_example =
    flush_forgets (failing 501) (first_item 500) (snapshot (keys (many_dirty 500)) (many_items 501))
      flush_begin "" refl refl refl refl refl

open_store_lem_example :
    (s : Store) × (open_store "kv.db" (pos 1000) 12 again ≡ (none, some s))
    × ((j : String) → view s j ≡ reopened (pos 1000) 12 (durable again.rows j))
unfolding put_with_mode exec upsert clear_dirty cache_put
open_store_lem_example =
    open_store_lem "kv.db" (pos 1000) 12 again (λ h. cc h) refl
      (put_with_mode-IsValid "a" (1 ∷ []) 5 put_sync 10 cached
        (fresh-IsValid (pos 1000))).rows_keyed
      ((15, refl), tt)

evict_never_empties_example : 0 < length (evict_oldest (pos 0) (pos 100) (pos 3) one_row).2.db.rows
unfolding put_with_mode exec upsert
evict_never_empties_example =
    evict_never_empties (pos 0) (pos 100) (pos 3) one_row refl one_row-IsValid.rows_keyed
      (omega arith)

deleted_counts_example :
    Counted
      (length one_row.db.rows)
      (delete_expired (pos 0) 16 one_row).0
      (delete_expired (pos 0) 16 one_row).1
      (delete_expired (pos 0) 16 one_row).2.db.rows
    × Counted
        (length one_row.db.rows)
        (evict_oldest (pos 0) (pos 100) (pos 3) one_row).0
        (evict_oldest (pos 0) (pos 100) (pos 3) one_row).1
        (evict_oldest (pos 0) (pos 100) (pos 3) one_row).2.db.rows
unfolding put_with_mode exec upsert
deleted_counts_example = deleted_counts (pos 0) (pos 100) (pos 3) 16 one_row one_row refl

sync_write_overwritten_example :
    (view (write_during_flush "a" (2 ∷ []) 5 11 one_async) "a" ≡ some (2 ∷ [], 16))
    × (durable (write_during_flush "a" (2 ∷ []) 5 11 one_async).db.rows "a" ≡ some (1 ∷ [], 15))
    × ((write_during_flush "a" (2 ∷ []) 5 11 one_async).dirty ≡ [])
unfolding put_with_mode mark_dirty cache_put insert lookup
sync_write_overwritten_example =
    sync_write_overwritten "a" (record { value = 1 ∷ []; expires_at = 15; volatile = true })
      (2 ∷ []) 5 11 one_async refl refl refl refl

-- A store that is opened on the rows that a flush of `one_async` leaves.
abbrev flushed_rows : Db
flushed_rows = record { rows = (flush one_async).2.db.rows; outcomes = []; sizes = [] }

abbrev reread : Store
reread = record {
  db = flushed_rows;
  cache = [];
  cache_bytes = pos 0;
  mem_limit = pos 0;
  dirty = [];
  stragglers = [];
}

flush_survives_example : view reread "a" ≡ reopened (pos 0) 12 (some (1 ∷ [], 15))
unfolding flush put_with_mode mark_dirty cache_put take_dirty insert flush_chunks chunks snapshot
    lookup flush_tx ask upsert_items exec open_store migrate_loop
flush_survives_example =
    flush_survives "a" (1 ∷ []) 5 10 cached "kv.db" (pos 0) 12 flushed_rows reread
      (fresh-IsValid (pos 1000)) refl refl refl refl
