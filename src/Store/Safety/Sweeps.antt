-- ===== src/Store/Safety/Sweeps.antt =====
-- internal/store/store.go: DeleteExpired keeps the invariant.
use kvp.Prelude.{ℕ, String, ◌≡◌, List, inl, inr, Bool-cases}
use kvp.Prelude.Int.{ℤ, pos, ltb_ℤ}
use kvp.Store.Clock.{TimeText}
use kvp.Store.Sql.{Row, Db, ask, exec, any_row, expired_row}
use kvp.Store.Rows.{IsKeyed, rows-ask, exec-IsKeyed, delete_where-IsKeyed}
use kvp.Store.State.{Error, Store, caching, delete_failed, rows_affected_failed}
use kvp.Store.Expire.{exec_counted, sweep_rows, sweep_db, delete_expired}
use kvp.Store.Valid.{IsValid, with_db-IsValid, purge_expired-IsValid}
use kvp.Store.Safety.Reads.{asked-IsValid}

-- `RowsAffected` changes no row.
pub rows-exec_counted :
    (f : List Row → List Row) (failed uncounted : Error) (d : Db)
    → (exec_counted f failed uncounted d).2.rows ≡ (exec f d).1.rows
unfolding exec_counted
rows-exec_counted f failed uncounted d = elim (Bool-cases (exec f d).0) [
  | inl ok ↦ elim (Bool-cases (ask (exec f d).1).0) [
    | inl counted ↦ rw (ok, counted) (rows-ask (exec f d).1)
    | inr not_counted ↦ rw (ok, not_counted) (rows-ask (exec f d).1)
  ]
  | inr not_done ↦ rw not_done
]

pub exec_counted-IsKeyed :
    (f : List Row → List Row) (failed uncounted : Error) (d : Db)
    → ((rows : List Row) → IsKeyed rows → IsKeyed (f rows))
    → IsKeyed d.rows
    → IsKeyed (exec_counted f failed uncounted d).2.rows
exec_counted-IsKeyed f failed uncounted d keeps h = rw rows-exec_counted (exec-IsKeyed f d keeps h)

sweep_rows-IsKeyed :
    (limit : ℤ) (text : String) (rows : List Row)
    → IsKeyed rows
    → IsKeyed (sweep_rows limit text rows)
unfolding sweep_rows
sweep_rows-IsKeyed limit text rows h = elim (Bool-cases (ltb_ℤ (pos 0) limit)) [
  | inl bounded ↦ rw bounded (delete_where-IsKeyed _ rows h)
  | inr all ↦ rw all (delete_where-IsKeyed _ rows h)
]

sweep_db-IsValid :
    (limit : ℤ) (text : String) (s : Store) → IsValid s → IsValid (sweep_db limit text s).2
unfolding sweep_db
sweep_db-IsValid limit text s v = elim (Bool-cases (ask s.db).0) [
  | inl ok ↦ elim (Bool-cases (any_row (expired_row text) (ask s.db).1.rows)) [
    | inl some_old ↦
        rw (ok, some_old)
          (with_db-IsValid _ v (
            exec_counted-IsKeyed (sweep_rows limit text) delete_failed rows_affected_failed
              (ask s.db).1 (sweep_rows-IsKeyed limit text) (rw rows-ask v.rows_keyed)))
    | inr none_old ↦ rw (ok, none_old) (asked-IsValid v)
  ]
  | inr failed ↦ rw failed (asked-IsValid v)
]

module _ ⦃c : TimeText⦄ where
  -- A sweep keeps the invariant, also where a statement of it fails.
  pub delete_expired-IsValid :
      (limit : ℤ) (now : ℕ) (s : Store) → IsValid s → IsValid (delete_expired limit now s).2
  unfolding delete_expired
  delete_expired-IsValid limit now s v = elim (Bool-cases (caching s)) [
    | inl on ↦ rw on (sweep_db-IsValid limit _ _ (purge_expired-IsValid now s.cache v))
    | inr off ↦ rw off (sweep_db-IsValid limit _ s v)
  ]
