-- ===== src/Store/Safety/Batches.antt =====
-- internal/store/store.go: deleteOldestBatchCached and the batches of an eviction keep the invariant.
use kvp.Prelude.{ℕ, String, List, [], ◌∷◌, inl, inr, Bool-cases, Option-cases, chunks}
use kvp.Store.Sql.{Row, Db, ask, delete_in, oldest_keys}
use kvp.Store.Rows.{IsKeyed, rows-ask, delete_where-IsKeyed}
use kvp.Store.State.{Store, caching, delete_failed, rows_affected_failed}
use kvp.Store.Expire.{exec_counted}
use kvp.Store.Evict.{
  scan_keys, max_delete_params, delete_chunks, delete_keys, delete_oldest_batch_cached,
  evict_one_batch,
}
use kvp.Store.Valid.{IsValid, with_db-IsValid, drop_keys-IsValid}
use kvp.Store.Safety.Sweeps.{exec_counted-IsKeyed}

scan_keys-IsKeyed : (ks : List String) (d : Db) → IsKeyed d.rows → IsKeyed (scan_keys ks d).1.rows
unfolding scan_keys
scan_keys-IsKeyed [] d h = elim (Bool-cases (ask d).0) [
  | inl ok ↦ rw (ok, rows-ask, rows-ask) h
  | inr failed ↦ rw (failed, rows-ask) h
]
scan_keys-IsKeyed (k ∷ ks) d h = elim (Bool-cases (ask d).0) [
  | inl ok ↦ rw (ok, scan_keys) (scan_keys-IsKeyed ks (ask d).1 (rw rows-ask h))
  | inr failed ↦ rw (failed, scan_keys) (rw rows-ask h)
]

pub delete_in-IsKeyed :
    (ks : List String) (rows : List Row) → IsKeyed rows → IsKeyed (delete_in ks rows)
unfolding delete_in
delete_in-IsKeyed ks rows h = delete_where-IsKeyed _ rows h

delete_chunks-IsKeyed :
    (cs : List (List String)) (deleted : ℕ) (d : Db)
    → IsKeyed d.rows
    → IsKeyed (delete_chunks cs deleted d).2.rows
unfolding delete_chunks
delete_chunks-IsKeyed [] deleted d h = h
delete_chunks-IsKeyed (ks ∷ cs) deleted d h =
    elim (Option-cases (exec_counted (delete_in ks) delete_failed rows_affected_failed d).1) [
      | inl ok ↦ rw (ok, delete_chunks) (delete_chunks-IsKeyed cs _ _ next)
      | inr failed ↦ rw (failed.1, delete_chunks) next
    ]
  where
    next : IsKeyed (exec_counted (delete_in ks) delete_failed rows_affected_failed d).2.rows
    next = exec_counted-IsKeyed _ _ _ d (delete_in-IsKeyed ks) h

delete_keys-IsValid : (ks : List String) (s : Store) → IsValid s → IsValid (delete_keys ks s).2
delete_keys-IsValid [] s v = v
delete_keys-IsValid (k ∷ ks) s v =
    elim (Option-cases (delete_chunks (chunks max_delete_params (k ∷ ks)) 0 s.db).1) [
      | inl ok ↦ rw (ok, delete_keys) (drop_keys-IsValid (k ∷ ks) next)
      | inr failed ↦ rw (failed.1, delete_keys) next
    ]
  where
    next : IsValid (record s { db = (delete_chunks (chunks max_delete_params (k ∷ ks)) 0 s.db).2 })
    next = with_db-IsValid _ v (delete_chunks-IsKeyed _ 0 s.db v.rows_keyed)

delete_oldest_batch_cached-IsValid :
    (batch : ℕ) (s : Store) → IsValid s → IsValid (delete_oldest_batch_cached batch s).2
unfolding delete_oldest_batch_cached
delete_oldest_batch_cached-IsValid batch s v = elim (Bool-cases (ask s.db).0) [
  | inl queried ↦ elim (Bool-cases (scan_keys ks (ask s.db).1).0) [
    | inl scanned ↦ rw (queried, scanned) (delete_keys-IsValid ks _ next)
    | inr failed ↦ rw (queried, failed) next
  ]
  | inr failed ↦ rw failed (with_db-IsValid _ v (rw rows-ask v.rows_keyed))
]
  where
    ks : List String
    ks = oldest_keys batch (ask s.db).1.rows

    next : IsValid (record s { db = (scan_keys ks (ask s.db).1).1 })
    next = with_db-IsValid _ v (scan_keys-IsKeyed ks (ask s.db).1 (rw rows-ask v.rows_keyed))

pub evict_one_batch-IsValid :
    (batch : ℕ) (s : Store) → IsValid s → IsValid (evict_one_batch batch s).2
unfolding evict_one_batch
evict_one_batch-IsValid batch s v = elim (Bool-cases (caching s)) [
  | inl on ↦ rw on (delete_oldest_batch_cached-IsValid batch s v)
  | inr off ↦ rw off (
      with_db-IsValid _ v (
        exec_counted-IsKeyed _ delete_failed rows_affected_failed s.db
          (λ rows. delete_in-IsKeyed (oldest_keys batch rows) rows) v.rows_keyed))
]
