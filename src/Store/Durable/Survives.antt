-- ===== src/Store/Durable/Survives.antt =====
-- internal/store/store.go: which writes survive a restart.
use text.Mathlib.Text.{◌==◌}
use kvp.Prelude.{
  ℕ, ◌+◌, String, ◌≡◌, refl, true, false, [], ◌∷◌, ◌&&◌, none, some, ap, ◌∙◌, arith, inl, inr,
  Bool-cases, if◌then◌else◌,
}
use kvp.Prelude.Int.{ℤ}
use text.Mathlib.TextPositions.{eq_refl}
use kvp.Store.Mode.{PutMode, put_sync, put_async, put_memory}
use kvp.Store.Clock.{TimeText}
use kvp.Assoc.{Assoc, insert, keys, lookup-insert}
use kvp.Store.Sql.{mem, Bytes, Db, exec, upsert}
use kvp.Store.Rows.{rows-exec}
use kvp.Store.State.{caching, Entry, Store, cache_put, mark_dirty, clear_dirty}
use kvp.Store.Write.{is_sync, effective_mode, mirror, row_of, put_in_mode, put_with_mode, flush}
use kvp.Store.Read.{open_store}
use kvp.Store.Valid.{IsValid}
use kvp.Store.Safety.Writes.{put_with_mode-IsValid, flush-IsValid}
use kvp.Store.View.{view}
use kvp.Store.Durable.{durable}
use kvp.Store.Durable.Load.{reopened, view-open_store}
use kvp.Store.Durable.Flushed.{durable-upsert, durable-flush}

module _ ⦃c : TimeText⦄ where
  db-mirror : (key : String) (e : Entry) (s : Store) → (mirror key e s).db ≡ s.db
  unfolding cache_put clear_dirty
  db-mirror key e s = ground arith

  durable-put_in_mode :
      (mode : PutMode) (key : String) (value : Bytes) (expires : ℕ) (s : Store)
      → (put_in_mode mode key value expires s).0 ≡ none
      → (j : String)
      → durable (put_in_mode mode key value expires s).1.db.rows j
        ≡ (if is_sync mode && key == j then some (value, expires) else durable s.db.rows j)
  durable-put_in_mode put_sync key value expires s h j =
      elim (Bool-cases (exec (upsert (row_of key e)) s.db).0) [
        | inl ok ↦ rw ok (
            ap (λ rows. durable rows j)
              (ap (λ d. d.rows) (db-mirror key e _) ∙ rows-exec _ s.db ∙ rw ok)
            ∙ durable-upsert key e s.db.rows j)
        | inr failed ↦ cc (rw failed at h)
      ]
    where
      e : Entry
      e = record { value = value; expires_at = expires; volatile = false }
  durable-put_in_mode put_async key value expires s h j = unfold mark_dirty cache_put in refl
  durable-put_in_mode put_memory key value expires s h j = unfold clear_dirty cache_put in refl

  -- A sync write that succeeds is in its row at once; an async or memory write that is not degraded
  -- to sync changes no row; neither touches the row of another key.
  pub durable-put_with_mode :
      (key : String) (value : Bytes) (ttl : ℕ) (mode : PutMode) (now : ℕ) (s : Store)
      → (put_with_mode key value ttl mode now s).0 ≡ none
      → (j : String)
      → durable (put_with_mode key value ttl mode now s).1.db.rows j ≡ (
          if is_sync (effective_mode s mode) && key == j
          then some (value, now + ttl)
          else durable s.db.rows j)
  unfolding put_with_mode
  durable-put_with_mode key value ttl mode now s h j =
      durable-put_in_mode (effective_mode s mode) key value (now + ttl) s h j

  -- After a sync write that succeeded, a store that is opened on the database's rows shows the
  -- written value: with the memory layer until the value expires, without it in any case.
  pub sync_survives :
      (key : String) (value : Bytes) (ttl : ℕ) (now : ℕ) (s : Store) (path : String) (limit : ℤ)
      (later : ℕ) (d : Db) (s' : Store)
      → IsValid s
      → (put_with_mode key value ttl put_sync now s).0 ≡ none
      → d.rows ≡ (put_with_mode key value ttl put_sync now s).1.db.rows
      → (open_store path limit later d).1 ≡ some s'
      → view s' key ≡ reopened limit later (some (value, now + ttl))
  sync_survives key value ttl now s path limit later d s' v done same open' =
      let at_key : durable d.rows key ≡ some (value, now + ttl) =
        ap (λ rows. durable rows key) same
        ∙ durable-put_with_mode key value ttl put_sync now s done key
        ∙ rw (eq_refl key) in
      view-open_store path limit later d s'
        (rw same (put_with_mode-IsValid key value ttl put_sync now s v).rows_keyed) open' key
      ∙ ap (reopened limit later) at_key

mem-insert : (key : String) (m : Assoc (Unit {0})) → mem key (keys (insert key tt m)) ≡ true
unfolding mem insert
mem-insert key [] = rw (eq_refl key)
mem-insert key ((j, u) ∷ m) = elim (Bool-cases (j == key)) [
  | inl same ↦ rw (same, eq_refl key)
  | inr other ↦ rw (other, mem, other) (mem-insert key m)
]

module _ ⦃c : TimeText⦄ where
  -- After an async write and a flush that succeeds, a store that is opened on the database's rows
  -- shows the written value: with the memory layer until the value expires, without it in any case.
  pub flush_survives :
      (key : String) (value : Bytes) (ttl : ℕ) (now : ℕ) (s : Store) (path : String) (limit : ℤ)
      (later : ℕ) (d : Db) (s' : Store)
      → IsValid s
      → caching s ≡ true
      → (flush (put_with_mode key value ttl put_async now s).1).1 ≡ none
      → d.rows ≡ (flush (put_with_mode key value ttl put_async now s).1).2.db.rows
      → (open_store path limit later d).1 ≡ some s'
      → view s' key ≡ reopened limit later (some (value, now + ttl))
  flush_survives key value ttl now s path limit later d s' v on done same open' =
      view-open_store path limit later d s'
        (rw same
          (flush-IsValid _ (put_with_mode-IsValid key value ttl put_async now s v)).rows_keyed)
        open' key
      ∙ ap (reopened limit later) (ap (λ rows. durable rows key) same ∙ flushed)
    where
      e : Entry
      e = record { value = value; expires_at = now + ttl; volatile = true }

      written_by :
          (put_with_mode key value ttl put_async now s).1 ≡ mark_dirty key (cache_put key e s)
      written_by = unfold put_with_mode in rw on

      flushed :
          durable (flush (put_with_mode key value ttl put_async now s).1).2.db.rows key
          ≡ some (value, now + ttl)
      flushed =
          durable-flush (put_with_mode key value ttl put_async now s).1
            (rw written_by (unfold mark_dirty cache_put in on)) done key
          ∙ rw written_by
              (unfold mark_dirty cache_put in rw (mem-insert, lookup-insert, eq_refl key))
