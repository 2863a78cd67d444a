-- ===== src/Store/Threads/Race.antt =====
-- internal/store/store.go: a sync write that lands while a flush is on its way. Flush reads the
-- entries of the dirty keys, PutWithMode writes its row and mirrors it, and then the flush's
-- transaction writes the older entry over the new row.
use text.Mathlib.TextPositions.{eq_refl}
use kvp.Prelude.{ℕ, ◌+◌, String, ◌≡◌, refl, ap, ◌∙◌, true, false, Option, none, some, List, [], ◌∷◌}
use kvp.Assoc.{lookup, erase}
use kvp.Store.Mode.{put_sync}
use kvp.Store.Clock.{TimeText}
use kvp.Store.Sql.{Bytes, Row, Db, exec, upsert}
use kvp.Store.Rows.{ask-quiet}
use kvp.Store.State.{
  Error, Entry, Store, FlushItem, caching, cache_put, clear_dirty, take_dirty, snapshot,
}
use kvp.Store.Write.{row_of, put_with_mode, upsert_items, close_tx, flush_tx, settle}
use kvp.Store.View.{view}
use kvp.Store.View.Writes.{view-put_with_mode, view-db}
use kvp.Store.View.Flushes.{view-settle}
use kvp.Store.Durable.{durable}
use kvp.Store.Durable.Flushed.{flush_tx-atomic, upsert_all, durable-upsert, db-settle, dirty-settle}

pub exec-quiet :
    (f : List Row → List Row) (d : Db)
    → d.outcomes ≡ []
    → exec f d ≡ (true, record d { rows = f d.rows })
unfolding exec
exec-quiet f d quiet = rw (ask-quiet d quiet)

module _ ⦃c : TimeText⦄ where
  -- The flush's transaction and its last loop, for the items that it read before.
  finish_flush : List FlushItem → Store → Store
  finish_flush items s = settle items (record s { db = (flush_tx items s.db).1 })

  -- Flush reads its batch, a sync write goes through, and the flush goes on.
  pub write_during_flush : String → Bytes → ℕ → ℕ → Store → Store
  unfolding finish_flush
  write_during_flush key value ttl now s =
      let (ks, taken) = take_dirty s in
      let items = snapshot ks taken.cache in
      finish_flush items (put_with_mode key value ttl put_sync now taken).1

  upsert_items-quiet :
      (items : List FlushItem) (d : Db)
      → d.outcomes ≡ []
      → ((upsert_items items d).0 ≡ none) × ((upsert_items items d).1.outcomes ≡ [])
  unfolding upsert_items
  upsert_items-quiet [] d quiet = (refl, quiet)
  upsert_items-quiet (it ∷ items) d quiet =
      let ran = exec-quiet (upsert (row_of it.key it.e)) d quiet in
      rw (ran, upsert_items, ran)
        (upsert_items-quiet items (record d { rows = upsert (row_of it.key it.e) d.rows }) quiet)

  close_tx-quiet :
      (rows : List Row) (r : Option Error × Db)
      → r.0 ≡ none
      → r.1.outcomes ≡ []
      → (close_tx rows r).0 ≡ none
  close_tx-quiet rows (none, d) h quiet = rw (ask-quiet d quiet)
  close_tx-quiet rows (some err, d) h quiet = h

  -- A transaction in which no call fails commits.
  pub flush_tx-quiet :
      (items : List FlushItem) (d : Db) → d.outcomes ≡ [] → (flush_tx items d).0 ≡ none
  unfolding flush_tx
  flush_tx-quiet items d quiet =
      let done = upsert_items-quiet items d quiet in
      rw (ask-quiet d quiet) (close_tx-quiet d.rows (upsert_items items d) done.0 done.1)

  durable-finish_flush :
      (key : String) (e : Entry) (s : Store)
      → s.db.outcomes ≡ []
      → durable (finish_flush ((record { key = key; e = e }) ∷ []) s).db.rows key
        ≡ some (e.value, e.expires_at)
  unfolding finish_flush upsert_all
  durable-finish_flush key e s quiet =
      ap (λ rows. durable rows key)
        (ap (λ d. d.rows) (db-settle _ _)
          ∙ flush_tx-atomic ((record { key = key; e = e }) ∷ []) s.db
          ∙ rw (flush_tx-quiet ((record { key = key; e = e }) ∷ []) s.db quiet))
      ∙ durable-upsert key e s.db.rows key
      ∙ rw (eq_refl key)

  -- A sync write where no call fails.
  put-quiet :
      (key : String) (value : Bytes) (ttl now : ℕ) (s : Store)
      → caching s ≡ true
      → s.db.outcomes ≡ []
      → ((put_with_mode key value ttl put_sync now s).0 ≡ none)
        × ((put_with_mode key value ttl put_sync now s).1.db.outcomes ≡ [])
        × (caching (put_with_mode key value ttl put_sync now s).1 ≡ true)
        × ((put_with_mode key value ttl put_sync now s).1.dirty ≡ erase key s.dirty)
  unfolding put_with_mode
  put-quiet key value ttl now s on quiet =
      rw (exec-quiet (upsert (row_of key e)) s.db quiet, on)
        (unfold clear_dirty cache_put in (refl, quiet, on, refl))
    where
      e : Entry
      e = record { value = value; expires_at = now + ttl; volatile = false }

  snapshot-one :
      (key : String) (e : Entry) (s : Store)
      → lookup key s.cache ≡ some e
      → snapshot (key ∷ []) s.cache ≡ (record { key = key; e = e }) ∷ []
  unfolding snapshot
  snapshot-one key e s at = rw (at, snapshot)

  -- One key is dirty, with a cached entry, and no call fails: a sync write of that key that runs
  -- between the flush's reading of the entry and its transaction succeeds and is what reads return
  -- afterwards, but the row then holds the older entry and the key is not dirty, so neither a later
  -- flush nor a restart brings the written value back.
  pub sync_write_overwritten :
      (key : String) (e : Entry) (value : Bytes) (ttl now : ℕ) (s : Store)
      → caching s ≡ true
      → s.db.outcomes ≡ []
      → s.dirty ≡ (key, tt) ∷ []
      → lookup key s.cache ≡ some e
      → (view (write_during_flush key value ttl now s) key ≡ some (value, now + ttl))
        × (durable (write_during_flush key value ttl now s).db.rows key
            ≡ some (e.value, e.expires_at))
        × ((write_during_flush key value ttl now s).dirty ≡ [])
  unfolding write_during_flush take_dirty
  sync_write_overwritten key e value ttl now s on quiet one at =
      rw (one, snapshot-one key e s at)
        (
          view-settle _ _ key put.2
              ∙ view-db _ _ key put.2
              ∙ view-put_with_mode key value ttl put_sync now taken put.0 key
              ∙ rw (eq_refl key),
          durable-finish_flush key e _ put.1,
          dirty-settle _ _ ∙ put.3 ∙ (unfold erase in refl),
        )
    where
      taken : Store
      taken = record s { dirty = [] }

      put :
          ((put_with_mode key value ttl put_sync now taken).0 ≡ none)
          × ((put_with_mode key value ttl put_sync now taken).1.db.outcomes ≡ [])
          × (caching (put_with_mode key value ttl put_sync now taken).1 ≡ true)
          × ((put_with_mode key value ttl put_sync now taken).1.dirty ≡ erase key [])
      put = put-quiet key value ttl now taken on quiet
