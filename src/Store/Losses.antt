-- ===== src/Store/Losses.antt =====
-- internal/store/store.go: how many rows a batch of an eviction deletes at most.
use mathlib.Core.List.{flatten}
use kvp.Prelude.{
  ℕ, ◌+◌, ◌≤◌, String, ◌≡◌, refl, ap, List, [], ◌∷◌, arith, inl, inr, ◌∙◌, Bool-cases, Option-cases,
  length, length-append, length-take, length-map, take, chunks, flatten-chunks,
}
use kvp.Store.Sql.{Row, Db, ask, exec, delete_in, oldest_keys, order_by_expiry, insert_by_expiry}
use kvp.Store.Rows.{IsKeyed, rows-ask, rows-exec, length-delete_in}
use kvp.Store.State.{Store, caching, delete_failed, rows_affected_failed, drop_keys, cache_drop}
use kvp.Store.Expire.{exec_counted}
use kvp.Store.Evict.{
  scan_keys, max_delete_params, delete_chunks, delete_keys, delete_oldest_batch_cached,
  evict_one_batch,
}
use kvp.Store.Safety.Sweeps.{exec_counted-IsKeyed, rows-exec_counted}
use kvp.Store.Safety.Batches.{delete_in-IsKeyed}

length-insert_by_expiry :
    (q : Row) (rows : List Row) → length (insert_by_expiry q rows) ≡ length rows + 1
unfolding insert_by_expiry
length-insert_by_expiry q [] = refl
length-insert_by_expiry q (r ∷ rows) = ground (arith, length-insert_by_expiry q rows)

length-order_by_expiry : (rows : List Row) → length (order_by_expiry rows) ≡ length rows
unfolding order_by_expiry
length-order_by_expiry [] = refl
length-order_by_expiry (q ∷ rows) =
    omega (arith, length-insert_by_expiry q (order_by_expiry rows), length-order_by_expiry rows)

-- A victim query returns at most as many keys as its limit.
pub length-oldest_keys : (n : ℕ) (rows : List Row) → length (oldest_keys n rows) ≤ n
unfolding oldest_keys
length-oldest_keys n rows = omega (
  arith,
  length-map (λ (q : Row). q.key) (take n (order_by_expiry rows)),
  length-take n (order_by_expiry rows),
)

-- At most `n` rows are gone, and the rows' keys are still distinct.
abbrev pub Loses : ℕ → List Row → List Row → Type 0
Loses n old new = IsKeyed new × (length old ≤ length new + n)

exec_counted-Loses :
    (ks : List String) (d : Db)
    → IsKeyed d.rows
    → Loses
        (length ks)
        d.rows
        (exec_counted (delete_in ks) delete_failed rows_affected_failed d).2.rows
exec_counted-Loses ks d k = (
  exec_counted-IsKeyed _ _ _ d (delete_in-IsKeyed ks) k,
  rw (rows-exec_counted, rows-exec)
      (elim (Bool-cases (exec (delete_in ks) d).0) [
        | inl ok ↦ rw ok (length-delete_in ks d.rows k)
        | inr failed ↦ rw failed (omega arith)
      ]),
)

delete_chunks-Loses :
    (cs : List (List String)) (n : ℕ) (d : Db)
    → IsKeyed d.rows
    → Loses (length (flatten cs)) d.rows (delete_chunks cs n d).2.rows
unfolding delete_chunks flatten
delete_chunks-Loses [] n d k = (k, omega arith)
delete_chunks-Loses (ks ∷ cs) n d k =
    elim (Option-cases (exec_counted (delete_in ks) delete_failed rows_affected_failed d).1) [
      | inl ok ↦
          rw (ok, delete_chunks)
            (let first = exec_counted-Loses ks d k in
              let rest =
                delete_chunks-Loses cs
                  (n + (exec_counted (delete_in ks) delete_failed rows_affected_failed d).0)
                  (exec_counted (delete_in ks) delete_failed rows_affected_failed d).2 first.0 in
              (rest.0, omega (arith, first.1, rest.1, length-append ks (flatten cs))))
      | inr failed ↦
          rw (failed.1, delete_chunks)
            (let first = exec_counted-Loses ks d k in
              (first.0, omega (arith, first.1, length-append ks (flatten cs))))
    ]

rows-scan_keys : (ks : List String) (d : Db) → (scan_keys ks d).1.rows ≡ d.rows
unfolding scan_keys
rows-scan_keys [] d = elim (Bool-cases (ask d).0) [
  | inl ok ↦ rw ok (rows-ask (ask d).1 ∙ rows-ask d)
  | inr failed ↦ rw failed (rows-ask d)
]
rows-scan_keys (k ∷ ks) d = elim (Bool-cases (ask d).0) [
  | inl ok ↦ rw (ok, scan_keys) (rows-scan_keys ks (ask d).1 ∙ rows-ask d)
  | inr failed ↦ rw (failed, scan_keys) (rows-ask d)
]

db-drop_keys : (ks : List String) (s : Store) → (drop_keys ks s).db ≡ s.db
unfolding drop_keys
db-drop_keys [] s = refl
db-drop_keys (k ∷ ks) s = db-drop_keys ks (cache_drop k s) ∙ (unfold cache_drop in refl)

delete_keys-Loses :
    (ks : List String) (s : Store)
    → IsKeyed s.db.rows
    → Loses (length ks) s.db.rows (delete_keys ks s).2.db.rows
delete_keys-Loses [] s k = (k, omega arith)
delete_keys-Loses (j ∷ ks) s k =
    elim (Option-cases (delete_chunks (chunks max_delete_params (j ∷ ks)) 0 s.db).1) [
      | inl ok ↦ rw (ok, delete_keys, db-drop_keys) lost
      | inr failed ↦ rw (failed.1, delete_keys) lost
    ]
  where
    lost :
        Loses
          (length (j ∷ ks))
          s.db.rows
          (delete_chunks (chunks max_delete_params (j ∷ ks)) 0 s.db).2.rows
    lost =
        rw (flatten-chunks max_delete_params (j ∷ ks) (omega arith)) at
          (delete_chunks-Loses (chunks max_delete_params (j ∷ ks)) 0 s.db k)

delete_oldest_batch_cached-Loses :
    (batch : ℕ) (s : Store)
    → IsKeyed s.db.rows
    → Loses batch s.db.rows (delete_oldest_batch_cached batch s).2.db.rows
unfolding delete_oldest_batch_cached
delete_oldest_batch_cached-Loses batch s k = elim (Bool-cases (ask s.db).0) [
  | inl queried ↦ elim (Bool-cases (scan_keys ks (ask s.db).1).0) [
    | inl scanned ↦
        rw (queried, scanned)
          (let lost = delete_keys-Loses ks (record s { db = d }) (rw same k) in
            (
              lost.0,
              omega (arith, lost.1, ap length same, length-oldest_keys batch (ask s.db).1.rows),
            ))
    | inr failed ↦ rw (queried, failed, same) (k, omega arith)
  ]
  | inr failed ↦ rw (failed, rows-ask) (k, omega arith)
]
  where
    ks : List String
    ks = oldest_keys batch (ask s.db).1.rows

    d : Db
    d = (scan_keys ks (ask s.db).1).1

    same : d.rows ≡ s.db.rows
    same = rows-scan_keys ks (ask s.db).1 ∙ rows-ask s.db

-- One batch, in either mode, deletes at most `batch` rows.
pub evict_one_batch-Loses :
    (batch : ℕ) (s : Store)
    → IsKeyed s.db.rows
    → Loses batch s.db.rows (evict_one_batch batch s).2.db.rows
unfolding evict_one_batch
evict_one_batch-Loses batch s k = elim (Bool-cases (caching s)) [
  | inl on ↦ rw on (delete_oldest_batch_cached-Loses batch s k)
  | inr off ↦ rw off (
    exec_counted-IsKeyed _ _ _ s.db (λ rows. delete_in-IsKeyed (oldest_keys batch rows) rows) k,
    rw (rows-exec_counted, rows-exec)
        (elim (Bool-cases (exec (λ rows. delete_in (oldest_keys batch rows) rows) s.db).0) [
          | inl ok ↦ rw ok (
              omega (
                arith,
                length-delete_in (oldest_keys batch s.db.rows) s.db.rows k,
                length-oldest_keys batch s.db.rows,
              ))
          | inr failed ↦ rw failed (omega arith)
        ]),
  )
]
