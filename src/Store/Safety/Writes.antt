-- ===== src/Store/Safety/Writes.antt =====
-- internal/store/store.go: PutWithMode and Flush keep the invariant of the `Store`.
use kvp.Prelude.{
  ℕ, String, ◌≡◌, refl, ap, true, false, Option, none, some, List, [], ◌∷◌, arith, inl, inr, ◌∙◌,
  Bool-cases, Option-cases,
}
use kvp.Prelude.Int.{pos, ltb_ℤ}
use kvp.Store.Mode.{PutMode, put_sync, put_async, put_memory}
use kvp.Store.Clock.{TimeText}
use kvp.Store.Sql.{Bytes, Row, Db, ask, exec, upsert}
use kvp.Store.Rows.{IsKeyed, rows-ask, exec-IsKeyed, upsert-IsKeyed}
use kvp.Store.State.{Error, Entry, Store, FlushItem, caching, clear_volatile, take_dirty, cache_put}
use kvp.Store.Write.{
  is_sync, put_with_mode, put_in_mode, effective_needs_cache, effective_mode, mirror, row_of,
  upsert_items, flush_tx, settle, flush_chunks, flush, close_tx, flush_keys,
}
use kvp.Store.Valid.{
  IsValid, cache_put-IsValid, mark_dirty-IsValid, clear_dirty-IsValid, take_dirty-IsValid,
  with_db-IsValid, clear_volatile-IsValid, re_mark_dirty-IsValid,
}

module _ ⦃c : TimeText⦄ where
  mirror-IsValid : (key : String) (e : Entry) {s : Store} → IsValid s → IsValid (mirror key e s)
  mirror-IsValid key e {s} v = elim (Bool-cases (caching s)) [
    | inl on ↦ rw on (clear_dirty-IsValid key (cache_put-IsValid key v e on))
    | inr off ↦ rw off v
  ]

  put_in_mode-IsValid :
      (mode : PutMode) (key : String) (value : Bytes) (expires : ℕ) {s : Store}
      → (is_sync mode ≡ false → caching s ≡ true)
      → IsValid s
      → IsValid (put_in_mode mode key value expires s).1
  put_in_mode-IsValid put_sync key value expires {s} on v =
      elim (Bool-cases (exec (upsert (row_of key e)) s.db).0) [
        | inl ok ↦ rw ok (mirror-IsValid key e written)
        | inr failed ↦ rw failed written
      ]
    where
      e : Entry
      e = record { value = value; expires_at = expires; volatile = false }

      written : IsValid (record s { db = (exec (upsert (row_of key e)) s.db).1 })
      written =
          with_db-IsValid _ v
            (exec-IsKeyed (upsert (row_of key e)) s.db (upsert-IsKeyed (row_of key e)) v.rows_keyed)
  put_in_mode-IsValid put_async key value expires on v =
      mark_dirty-IsValid key (cache_put-IsValid key v _ (on refl)) (unfold cache_put in on refl)
  put_in_mode-IsValid put_memory key value expires on v =
      clear_dirty-IsValid key (cache_put-IsValid key v _ (on refl))

  -- A write in any mode keeps the invariant, whether its statement succeeds or fails.
  pub put_with_mode-IsValid :
      (key : String) (value : Bytes) (ttl : ℕ) (mode : PutMode) (now : ℕ) (s : Store)
      → IsValid s
      → IsValid (put_with_mode key value ttl mode now s).1
  unfolding put_with_mode
  put_with_mode-IsValid key value ttl mode now s v =
      put_in_mode-IsValid (effective_mode s mode) key value _ (effective_needs_cache s mode) v

settle-IsValid : (chunk : List FlushItem) {s : Store} → IsValid s → IsValid (settle chunk s)
unfolding settle
settle-IsValid [] v = v
settle-IsValid (it ∷ chunk) v =
    settle-IsValid chunk (clear_volatile-IsValid it.key it.e.expires_at v)

pub mem_limit-clear_volatile :
    (key : String) (t : ℕ) (s : Store) → (clear_volatile key t s).mem_limit ≡ s.mem_limit
unfolding clear_volatile
mem_limit-clear_volatile key t s = ground arith

mem_limit-settle : (chunk : List FlushItem) (s : Store) → (settle chunk s).mem_limit ≡ s.mem_limit
unfolding settle
mem_limit-settle [] s = refl
mem_limit-settle (it ∷ chunk) s =
    mem_limit-settle chunk (clear_volatile it.key it.e.expires_at s)
    ∙ mem_limit-clear_volatile it.key it.e.expires_at s

pub caching-settle : (chunk : List FlushItem) (s : Store) → caching (settle chunk s) ≡ caching s
caching-settle chunk s = ap (ltb_ℤ (pos 0)) (mem_limit-settle chunk s)

module _ ⦃c : TimeText⦄ where
  upsert_items-IsKeyed :
      (chunk : List FlushItem) (d : Db) → IsKeyed d.rows → IsKeyed (upsert_items chunk d).1.rows
  unfolding upsert_items
  upsert_items-IsKeyed [] d h = h
  upsert_items-IsKeyed (it ∷ chunk) d h =
      elim (Bool-cases (exec (upsert (row_of it.key it.e)) d).0) [
        | inl ok ↦ rw (ok, upsert_items) (upsert_items-IsKeyed chunk _ next)
        | inr failed ↦ rw (failed, upsert_items) next
      ]
    where
      next : IsKeyed (exec (upsert (row_of it.key it.e)) d).1.rows
      next = exec-IsKeyed _ d (upsert-IsKeyed (row_of it.key it.e)) h

  close_tx-IsKeyed :
      (rows : List Row) (r : Option Error × Db)
      → IsKeyed rows
      → IsKeyed r.1.rows
      → IsKeyed (close_tx rows r).1.rows
  close_tx-IsKeyed rows (none, d) old new = elim (Bool-cases (ask d).0) [
    | inl ok ↦ rw (ok, rows-ask) new
    | inr failed ↦ rw failed old
  ]
  close_tx-IsKeyed rows (some err, d) old new = old

  pub flush_tx-IsKeyed :
      (chunk : List FlushItem) (d : Db) → IsKeyed d.rows → IsKeyed (flush_tx chunk d).1.rows
  unfolding flush_tx
  flush_tx-IsKeyed chunk d h = elim (Bool-cases (ask d).0) [
    | inl begun ↦ rw begun (
        close_tx-IsKeyed d.rows (upsert_items chunk (ask d).1) h
          (upsert_items-IsKeyed chunk (ask d).1 (rw rows-ask h)))
    | inr failed ↦ rw (failed, rows-ask) h
  ]

  flush_chunks-IsValid :
      (cs : List (List FlushItem)) (persisted : ℕ) (s : Store)
      → caching s ≡ true
      → IsValid s
      → IsValid (flush_chunks cs persisted s).2
  unfolding flush_chunks
  flush_chunks-IsValid [] persisted s on v = v
  flush_chunks-IsValid (chunk ∷ rest) persisted s on v =
      elim (Option-cases (flush_tx chunk s.db).0) [
        | inl ok ↦
            rw (ok, flush_chunks)
              (flush_chunks-IsValid rest _ _ (rw caching-settle on) (settle-IsValid chunk next))
        | inr failed ↦ rw (failed.1, flush_chunks) (re_mark_dirty-IsValid chunk next on)
      ]
    where
      next : IsValid (record s { db = (flush_tx chunk s.db).1 })
      next = with_db-IsValid _ v (flush_tx-IsKeyed chunk s.db v.rows_keyed)

  flush_keys-IsValid :
      (ks : List String) (s : Store) → caching s ≡ true → IsValid s → IsValid (flush_keys ks s).2
  flush_keys-IsValid [] s on v = v
  flush_keys-IsValid (k ∷ ks) s on v = flush_chunks-IsValid _ 0 s on v

  -- A flush keeps the invariant, whichever of its transactions fail.
  pub flush-IsValid : (s : Store) → IsValid s → IsValid (flush s).2
  unfolding flush
  flush-IsValid s v = elim (Bool-cases (caching s)) [
    | inl on ↦ rw on (
        flush_keys-IsValid (take_dirty s).0 (take_dirty s).1 (unfold take_dirty in on)
          (take_dirty-IsValid v))
    | inr off ↦ rw off v
  ]
