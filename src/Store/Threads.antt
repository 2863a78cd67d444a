-- ===== src/Store/Threads.antt =====
-- internal/store/store.go with several goroutines. A step is what one goroutine does without
-- another in between: a critical section of the mutex, one call into the database, or a whole
-- transaction (the pool has a single connection). A history interleaves the steps of any number of
-- operations in any order.
pub mod Race
use kvp.Prelude.{
  ℕ, String, ◌≡◌, refl, ap, sym, ◌∙◌, Bool, true, false, Option, none, some, List, [], ◌∷◌, inl,
  inr, Bool-cases,
}
use kvp.Store.Clock.{TimeText}
use kvp.Store.Sql.{Row, Db, ask, exec, upsert, delete_where}
use kvp.Store.Rows.{IsKeyed, exec-IsKeyed, upsert-IsKeyed, delete_where-IsKeyed, rows-ask}
use kvp.Store.State.{
  Entry, Store, Straggler, FlushItem, caching, cache_put, drop_keys, mark_dirty, clear_dirty,
  take_dirty, re_mark_dirty, clear_volatile, drop_expired_entry, remove_victims, purge_expired,
}
use kvp.Store.Write.{flush_tx}
use kvp.Store.Valid.{
  IsValid, cache_put-IsValid, mark_dirty-IsValid, clear_dirty-IsValid, take_dirty-IsValid,
  with_db-IsValid, clear_volatile-IsValid, drop_expired_entry-IsValid, re_mark_dirty-IsValid,
  drop_keys-IsValid, remove_victims-IsValid, purge_expired-IsValid,
}
use kvp.Store.Safety.Writes.{flush_tx-IsKeyed}
use kvp.Store.Safety.Reads.{asked-IsValid, stragglers-IsValid}

module _ ⦃c : TimeText⦄ where
  pub data Step (s : Store) : Store → Type 0 where
    call : Step s (record s { db = (ask s.db).1 })
    run_upsert : (r : Row) → Step s (record s { db = (exec (upsert r) s.db).1 })
    run_delete : (test : Row → Bool) → Step s (record s { db = (exec (delete_where test) s.db).1 })
    run_tx : (items : List FlushItem) → Step s (record s { db = (flush_tx items s.db).1 })
    put_entry : (key : String) (e : Entry) → caching s ≡ true → Step s (cache_put key e s)
    mark : (key : String) → caching s ≡ true → Step s (mark_dirty key s)
    clear : (key : String) → Step s (clear_dirty key s)
    take_all : Step s (take_dirty s).1
    mark_again : (items : List FlushItem) → caching s ≡ true → Step s (re_mark_dirty items s)
    settle_one : (key : String) (t : ℕ) → Step s (clear_volatile key t s)
    drop_old : (key : String) (t : ℕ) → Step s (drop_expired_entry key t s)
    purge : (now : ℕ) → Step s (purge_expired now s.cache s)
    drop_victims : (vs : List FlushItem) → Step s (remove_victims vs s).1
    drop_all : (ks : List String) → Step s (drop_keys ks s)
    spawn : (gs : List Straggler) → Step s (record s { stragglers = gs })

  pub data Reach (s : Store) : Store → Type 0 where
    here : Reach s s
    next : {t u : Store} → Reach s t → Step t u → Reach s u

  Step-IsValid : {s t : Store} → Step s t → IsValid s → IsValid t
  Step-IsValid call v = asked-IsValid v
  Step-IsValid {s} (run_upsert r) v =
      with_db-IsValid _ v (exec-IsKeyed (upsert r) s.db (upsert-IsKeyed r) v.rows_keyed)
  Step-IsValid {s} (run_delete test) v =
      with_db-IsValid _ v
        (exec-IsKeyed (delete_where test) s.db (delete_where-IsKeyed test) v.rows_keyed)
  Step-IsValid {s} (run_tx items) v = with_db-IsValid _ v (flush_tx-IsKeyed items s.db v.rows_keyed)
  Step-IsValid (put_entry key e on) v = cache_put-IsValid key v e on
  Step-IsValid (mark key on) v = mark_dirty-IsValid key v on
  Step-IsValid (clear key) v = clear_dirty-IsValid key v
  Step-IsValid take_all v = take_dirty-IsValid v
  Step-IsValid (mark_again items on) v = re_mark_dirty-IsValid items v on
  Step-IsValid (settle_one key t) v = clear_volatile-IsValid key t v
  Step-IsValid (drop_old key t) v = drop_expired_entry-IsValid key t v
  Step-IsValid {s} (purge now) v = purge_expired-IsValid now s.cache v
  Step-IsValid (drop_victims vs) v = remove_victims-IsValid vs v
  Step-IsValid (drop_all ks) v = drop_keys-IsValid ks v
  Step-IsValid (spawn gs) v = stragglers-IsValid gs v

  -- The invariant holds after every history of interleaved steps: the cache and the dirty set have
  -- distinct keys, the rows too, the byte counter is the sum of the entries' sizes, and nothing is
  -- cached or dirty while the memory layer is disabled.
  pub Reach-IsValid : {s t : Store} → IsValid s → Reach s t → IsValid t
  Reach-IsValid v here = v
  Reach-IsValid v (next r st) = Step-IsValid st (Reach-IsValid v r)
