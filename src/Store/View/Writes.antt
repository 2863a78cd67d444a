-- ===== src/Store/View/Writes.antt =====
-- internal/store/store.go: what PutWithMode and Flush do to the client's view.
use text.Mathlib.Text.{◌==◌}
use kvp.Prelude.{
  ℕ, ◌+◌, String, ◌≡◌, ◌≢◌, refl, true, false, none, some, sym, ◌∙◌, arith, inl, inr, Bool-cases,
  if◌then◌else◌,
}
use kvp.Assoc.{lookup, lookup-insert}
use kvp.Store.Mode.{PutMode, put_sync, put_async, put_memory}
use kvp.Store.Clock.{TimeText}
use kvp.Store.Sql.{Bytes, Db, exec, upsert, select_row}
use kvp.Store.Rows.{rows-exec, select_row-upsert}
use kvp.Store.State.{Entry, Store, caching, cache_put, mark_dirty, clear_dirty}
use kvp.Store.Write.{
  is_sync, effective_needs_cache, effective_mode, mirror, row_of, put_in_mode, put_with_mode,
}
use kvp.Store.View.{view, of_entry, of_row}

module _ ⦃c : TimeText⦄ where
  pub view_on : (s : Store) (j : String) → caching s ≡ true → view s j ≡ of_entry (lookup j s.cache)
  unfolding view
  view_on s j on = rw on

  pub view_off :
      (s : Store) (j : String) → caching s ≡ false → view s j ≡ of_row (select_row j s.db.rows)
  unfolding view
  view_off s j off = rw off

  -- A new entry is seen at its key, and the other keys are seen as before.
  view-cache_put :
      (key : String) (e : Entry) (s : Store) (j : String)
      → caching s ≡ true
      → view (cache_put key e s) j ≡ (if key == j then some (e.value, e.expires_at) else view s j)
  view-cache_put key e s j on = rw (view_on s j on) (
      view_on (cache_put key e s) j (unfold cache_put in on)
      ∙ (unfold cache_put in rw lookup-insert (ground arith)))

  -- So is a new row, without the memory layer.
  view-upsert :
      (key : String) (e : Entry) (s : Store) (d : Db) (j : String)
      → caching s ≡ false
      → d.rows ≡ upsert (row_of key e) s.db.rows
      → view (record s { db = d }) j ≡ (if key == j then some (e.value, e.expires_at) else view s j)
  view-upsert key e s d j off written = rw (view_off s j off) (
      view_off (record s { db = d }) j off
      ∙ rw (written, select_row-upsert) (ground (arith, c.parse-format e.expires_at)))

  -- The dirty set is no part of the view.
  view-clear_dirty : (key : String) (s : Store) (j : String) → view (clear_dirty key s) j ≡ view s j
  unfolding view clear_dirty
  view-clear_dirty key s j = refl

  view-mark_dirty : (key : String) (s : Store) (j : String) → view (mark_dirty key s) j ≡ view s j
  unfolding view mark_dirty
  view-mark_dirty key s j = refl

  -- With the memory layer the database is no part of it either.
  pub view-db :
      (d : Db) (s : Store) (j : String) → caching s ≡ true → view (record s { db = d }) j ≡ view s j
  view-db d s j on = view_on (record s { db = d }) j on ∙ sym (view_on s j on)

  -- A database with the same rows is seen in the same way.
  view-rows :
      (d : Db) (s : Store) (j : String)
      → d.rows ≡ s.db.rows
      → view (record s { db = d }) j ≡ view s j
  unfolding view
  view-rows d s j same = rw same

  view-mirror :
      (key : String) (e : Entry) (s : Store) (d : Db) (j : String)
      → d.rows ≡ upsert (row_of key e) s.db.rows
      → view (mirror key e (record s { db = d })) j
        ≡ (if key == j then some (e.value, e.expires_at) else view s j)
  view-mirror key e s d j written = elim (Bool-cases (caching s)) [
    | inl on ↦ rw on (
        view-clear_dirty key (cache_put key e (record s { db = d })) j
        ∙ view-cache_put key e (record s { db = d }) j on
        ∙ rw (view-db d s j on))
    | inr off ↦ rw off (view-upsert key e s d j off written)
  ]

  put_in_mode-view :
      (mode : PutMode) (key : String) (value : Bytes) (expires : ℕ) (s : Store)
      → (is_sync mode ≡ false → caching s ≡ true)
      → (put_in_mode mode key value expires s).0 ≡ none
      → (j : String)
      → view (put_in_mode mode key value expires s).1 j
        ≡ (if key == j then some (value, expires) else view s j)
  put_in_mode-view put_sync key value expires s on h j =
      elim (Bool-cases (exec (upsert (row_of key e)) s.db).0) [
        | inl ok ↦ rw ok (view-mirror key e s _ j (rows-exec _ s.db ∙ rw ok))
        | inr failed ↦ cc (rw failed at h)
      ]
    where
      e : Entry
      e = record { value = value; expires_at = expires; volatile = false }
  put_in_mode-view put_async key value expires s on h j =
      view-mark_dirty key (cache_put key _ s) j ∙ view-cache_put key _ s j (on refl)
  put_in_mode-view put_memory key value expires s on h j =
      view-clear_dirty key (cache_put key _ s) j ∙ view-cache_put key _ s j (on refl)

  -- A write that succeeds, in any mode and with or without the memory layer, is seen at its key
  -- until `ttl` has passed, and changes no other key.
  pub view-put_with_mode :
      (key : String) (value : Bytes) (ttl : ℕ) (mode : PutMode) (now : ℕ) (s : Store)
      → (put_with_mode key value ttl mode now s).0 ≡ none
      → (j : String)
      → view (put_with_mode key value ttl mode now s).1 j
        ≡ (if key == j then some (value, now + ttl) else view s j)
  unfolding put_with_mode
  view-put_with_mode key value ttl mode now s h j =
      put_in_mode-view (effective_mode s mode) key value (now + ttl) s
        (effective_needs_cache s mode) h j

  put_in_mode-failed :
      (mode : PutMode) (key : String) (value : Bytes) (expires : ℕ) (s : Store) (j : String)
      → (put_in_mode mode key value expires s).0 ≢ none
      → view (put_in_mode mode key value expires s).1 j ≡ view s j
  put_in_mode-failed put_sync key value expires s j h =
      elim (Bool-cases (exec (upsert (row_of key e)) s.db).0) [
        | inl ok ↦ absurd (h (rw ok))
        | inr failed ↦ rw failed (view-rows _ s j (rows-exec _ s.db ∙ rw failed))
      ]
    where
      e : Entry
      e = record { value = value; expires_at = expires; volatile = false }
  put_in_mode-failed put_async key value expires s j h = absurd (h refl)
  put_in_mode-failed put_memory key value expires s j h = absurd (h refl)

  -- A write that fails changes nothing that a read goes by.
  pub view-put_failed :
      (key : String) (value : Bytes) (ttl : ℕ) (mode : PutMode) (now : ℕ) (s : Store) (j : String)
      → (put_with_mode key value ttl mode now s).0 ≢ none
      → view (put_with_mode key value ttl mode now s).1 j ≡ view s j
  unfolding put_with_mode
  view-put_failed key value ttl mode now s j h =
      put_in_mode-failed (effective_mode s mode) key value (now + ttl) s j h
