-- ===== src/Store/Durable/Flushed.antt =====
-- internal/store/store.go: what Flush writes behind, and what it leaves dirty.
use text.Mathlib.Text.{◌==◌}
use mathlib.Core.List.{flatten}
use kvp.Prelude.{
  ℕ, ◌+◌, String, ◌≡◌, refl, Bool, true, false, Option, none, some, List, [], ◌∷◌, ◌++◌, ap, sym,
  ◌∙◌, arith, eq_iff, inl, inr, Bool-cases, Option-cases, if◌then◌else◌, length, chunks,
  flatten-chunks, length-append,
}
use kvp.Assoc.{Assoc, lookup, keys}
use kvp.Store.Clock.{TimeText}
use kvp.Store.Sql.{Bytes, Row, Db, ask, exec, upsert, mem}
use kvp.Store.Rows.{rows-ask, rows-exec, select_row-upsert}
use kvp.Store.State.{Error, Entry, Store, FlushItem, caching, take_dirty, snapshot, clear_volatile}
use kvp.Store.Write.{
  row_of, settle, upsert_items, close_tx, flush_tx, flush_chunks, flush_keys, flush_batch_size,
  flush,
}
use kvp.Store.View.{of_entry}
use kvp.Store.Durable.{durable}

module _ ⦃c : TimeText⦄ where
  -- The rows after the upserts of a list of items.
  unfoldable pub upsert_all : List FlushItem → List Row → List Row
  upsert_all [] rows = rows
  upsert_all (it ∷ items) rows = upsert_all items (upsert (row_of it.key it.e) rows)

  upsert_all-append :
      (xs ys : List FlushItem) (rows : List Row)
      → upsert_all (xs ++ ys) rows ≡ upsert_all ys (upsert_all xs rows)
  unfolding upsert_all
  upsert_all-append [] ys rows = refl
  upsert_all-append (x ∷ xs) ys rows = upsert_all-append xs ys _

  rows-upsert_items :
      (items : List FlushItem) (d : Db)
      → (upsert_items items d).0 ≡ none
      → (upsert_items items d).1.rows ≡ upsert_all items d.rows
  unfolding upsert_items upsert_all
  rows-upsert_items [] d h = refl
  rows-upsert_items (it ∷ items) d h = elim (Bool-cases (exec (upsert (row_of it.key it.e)) d).0) [
    | inl ok ↦
        rw (ok, upsert_items)
          (rows-upsert_items items _ (rw (ok, upsert_items) at h)
            ∙ ap (upsert_all items) (rows-exec _ d ∙ rw ok))
    | inr failed ↦ cc (rw (failed, upsert_items) at h)
  ]

  -- A transaction writes all of its items or none.
  close_tx-atomic :
      (rows new : List Row) (r : Option Error × Db)
      → (r.0 ≡ none → r.1.rows ≡ new)
      → (close_tx rows r).1.rows ≡ elim (close_tx rows r).0 [ none ↦ new | some e ↦ rows ]
  close_tx-atomic rows new (none, d) at = elim (Bool-cases (ask d).0) [
    | inl ok ↦ rw ok (rows-ask d ∙ at refl)
    | inr failed ↦ rw failed
  ]
  close_tx-atomic rows new (some err, d) at = refl

  pub flush_tx-atomic :
      (items : List FlushItem) (d : Db)
      → (flush_tx items d).1.rows
        ≡ elim (flush_tx items d).0 [ none ↦ upsert_all items d.rows | some e ↦ d.rows ]
  unfolding flush_tx
  flush_tx-atomic items d = elim (Bool-cases (ask d).0) [
    | inl begun ↦ rw begun (
        close_tx-atomic d.rows (upsert_all items d.rows) (upsert_items items (ask d).1)
          (λ h. rows-upsert_items items (ask d).1 h ∙ ap (upsert_all items) (rows-ask d)))
    | inr failed ↦ rw failed (rows-ask d)
  ]

  pub db-settle : (items : List FlushItem) (s : Store) → (settle items s).db ≡ s.db
  unfolding settle
  db-settle [] s = refl
  db-settle (it ∷ items) s =
      db-settle items (clear_volatile it.key it.e.expires_at s)
      ∙ (unfold clear_volatile in ground arith)

  rows-flush_chunks :
      (cs : List (List FlushItem)) (n : ℕ) (s : Store)
      → (flush_chunks cs n s).1 ≡ none
      → (flush_chunks cs n s).2.db.rows ≡ upsert_all (flatten cs) s.db.rows
  unfolding flush_chunks flatten
  rows-flush_chunks [] n s h = unfold upsert_all in refl
  rows-flush_chunks (items ∷ cs) n s h = elim (Option-cases (flush_tx items s.db).0) [
    | inl ok ↦
        rw (ok, flush_chunks)
          (rows-flush_chunks cs _ _ (rw (ok, flush_chunks) at h)
            ∙ ap (upsert_all (flatten cs))
                (ap (λ d. d.rows) (db-settle items _) ∙ flush_tx-atomic items s.db ∙ rw ok)
            ∙ sym (upsert_all-append items (flatten cs) s.db.rows))
    | inr failed ↦ cc (rw (failed.1, flush_chunks) at h)
  ]

  count-flush_chunks :
      (cs : List (List FlushItem)) (n : ℕ) (s : Store)
      → (flush_chunks cs n s).1 ≡ none
      → (flush_chunks cs n s).0 ≡ n + length (flatten cs)
  unfolding flush_chunks flatten
  count-flush_chunks [] n s h = omega arith
  count-flush_chunks (items ∷ cs) n s h = elim (Option-cases (flush_tx items s.db).0) [
    | inl ok ↦
        rw (ok, flush_chunks)
          (omega (
            arith,
            count-flush_chunks cs (n + length items) _ (rw (ok, flush_chunks) at h),
            length-append items (flatten cs),
          ))
    | inr failed ↦ cc (rw (failed.1, flush_chunks) at h)
  ]

  pub dirty-settle : (items : List FlushItem) (s : Store) → (settle items s).dirty ≡ s.dirty
  unfolding settle
  dirty-settle [] s = refl
  dirty-settle (it ∷ items) s =
      dirty-settle items (clear_volatile it.key it.e.expires_at s)
      ∙ (unfold clear_volatile in ground arith)

  dirty-flush_chunks :
      (cs : List (List FlushItem)) (n : ℕ) (s : Store)
      → (flush_chunks cs n s).1 ≡ none
      → (flush_chunks cs n s).2.dirty ≡ s.dirty
  unfolding flush_chunks
  dirty-flush_chunks [] n s h = refl
  dirty-flush_chunks (items ∷ cs) n s h = elim (Option-cases (flush_tx items s.db).0) [
    | inl ok ↦
        rw (ok, flush_chunks)
          (dirty-flush_chunks cs _ _ (rw (ok, flush_chunks) at h) ∙ dirty-settle items _)
    | inr failed ↦ cc (rw (failed.1, flush_chunks) at h)
  ]

  -- The durable pair of a key after the upserts of the dirty keys: the cached one where the key is
  -- among them and still cached, the old one elsewhere.
  abbrev pub written : Bool → Option (Bytes × ℕ) → Option (Bytes × ℕ) → Option (Bytes × ℕ)
  written true (some p) old = some p
  written true none old = old
  written false new old = old

  pub durable-upsert :
      (key : String) (e : Entry) (rows : List Row) (j : String)
      → durable (upsert (row_of key e) rows) j
        ≡ (if key == j then some (e.value, e.expires_at) else durable rows j)
  unfolding durable
  durable-upsert key e rows j = rw select_row-upsert (ground (arith, c.parse-format e.expires_at))

  durable-snapshot :
      (ks : List String) (m : Assoc Entry) (rows : List Row) (j : String)
      → durable (upsert_all (snapshot ks m) rows) j
        ≡ written (mem j ks) (of_entry (lookup j m)) (durable rows j)
  unfolding snapshot upsert_all mem
  durable-snapshot [] m rows j = refl
  durable-snapshot (k ∷ ks) m rows j = elim (Option-cases (lookup k m)) [
    | inl out ↦ rw (out, snapshot, durable-snapshot ks m rows j) (ground (arith, eq_iff k j, out))
    | inr inn ↦
        rw (inn.1, snapshot, durable-snapshot ks m _ j, durable-upsert k inn.0 rows j)
          (ground (arith, eq_iff k j, inn.1))
  ]

  -- How many of the keys are cached.
  abbrev pub cached_count : List String → Assoc Entry → ℕ
  cached_count ks m = length (snapshot ks m)

  durable-flush_keys :
      (ks : List String) (s : Store) (j : String)
      → (flush_keys ks s).1 ≡ none
      → durable (flush_keys ks s).2.db.rows j
        ≡ written (mem j ks) (of_entry (lookup j s.cache)) (durable s.db.rows j)
  durable-flush_keys [] s j h = unfold mem in refl
  durable-flush_keys (k ∷ ks) s j h =
      ap (λ rows. durable rows j)
        (rows-flush_chunks _ 0 s h
          ∙ ap (λ items. upsert_all items s.db.rows)
              (flatten-chunks flush_batch_size (snapshot (k ∷ ks) s.cache) (omega arith)))
      ∙ durable-snapshot (k ∷ ks) s.cache s.db.rows j

  -- A flush that returns no error has written the cached value of every dirty key to its row, and
  -- has changed no other row.
  pub durable-flush :
      (s : Store)
      → caching s ≡ true
      → (flush s).1 ≡ none
      → (j : String)
      → durable (flush s).2.db.rows j
        ≡ written (mem j (keys s.dirty)) (of_entry (lookup j s.cache)) (durable s.db.rows j)
  unfolding flush take_dirty
  durable-flush s on h j = rw on (durable-flush_keys (keys s.dirty) _ j (rw on at h))

  dirty-flush_keys :
      (ks : List String) (s : Store)
      → (flush_keys ks s).1 ≡ none
      → (flush_keys ks s).2.dirty ≡ s.dirty
  dirty-flush_keys [] s h = refl
  dirty-flush_keys (k ∷ ks) s h = dirty-flush_chunks _ 0 s h

  count-flush_keys :
      (ks : List String) (s : Store)
      → (flush_keys ks s).1 ≡ none
      → (flush_keys ks s).0 ≡ cached_count ks s.cache
  count-flush_keys [] s h = unfold snapshot in refl
  count-flush_keys (k ∷ ks) s h = omega (
    arith,
    count-flush_chunks (chunks flush_batch_size (snapshot (k ∷ ks) s.cache)) 0 s h,
    ap length (flatten-chunks flush_batch_size (snapshot (k ∷ ks) s.cache) (omega arith)),
  )

  -- A flush that returns no error leaves no key dirty, and returns the number of dirty keys that are
  -- cached.
  pub flush-clean :
      (s : Store)
      → caching s ≡ true
      → (flush s).1 ≡ none
      → ((flush s).2.dirty ≡ []) × ((flush s).0 ≡ cached_count (keys s.dirty) s.cache)
  unfolding flush take_dirty
  flush-clean s on h = rw on (
    dirty-flush_keys (keys s.dirty) (record s { dirty = [] }) (rw on at h),
    count-flush_keys (keys s.dirty) (record s { dirty = [] }) (rw on at h),
  )
