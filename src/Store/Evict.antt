-- ===== src/Store/Evict.antt =====
-- internal/store/store.go: EvictOldest and what it calls.
use kvp.Prelude.{
  ℕ, suc, zero, ◌+◌, ◌-◌, String, Bool, true, false, ◌&&◌, Option, none, some, List, [], ◌∷◌, leb,
  if◌then◌else◌, take, chunks,
}
use text.Mathlib.Text.{◌==◌ as text_eq}
use kvp.Prelude.{text_le}
use kvp.Prelude.Int.{ℤ, pos, pos_part, ltb_ℤ}
use kvp.Assoc.{Assoc}
use kvp.Store.Clock.{TimeText, before}
use kvp.Store.Sql.{Row, Db, ask, exec, delete_where, delete_in, oldest_keys}
use kvp.Store.State.{
  Error, evict_args, evict_volatile, evict_size, evict_batch, delete_failed, rows_affected_failed,
  Entry, FlushItem, Store, caching, remove_victims, drop_keys,
}
use kvp.Store.Expire.{exec_counted, row_count, usage}

-- The volatile entries of the cache.
unfoldable pub volatile_items : Assoc Entry → List FlushItem
volatile_items [] = []
volatile_items ((k, e) ∷ m) =
    let rest = volatile_items m in if e.volatile then (record { key = k; e = e }) ∷ rest else rest

-- sort.Slice by expiry. Go leaves the order of equal expiries open; the sort here is stable.
unfoldable pub insert_item : FlushItem → List FlushItem → List FlushItem
insert_item v [] = v ∷ []
insert_item v (u ∷ us) =
    if before u.e.expires_at v.e.expires_at then u ∷ insert_item v us else v ∷ u ∷ us

unfoldable pub sort_items : List FlushItem → List FlushItem
unfolding insert_item
sort_items [] = []
sort_items (v ∷ vs) = insert_item v (sort_items vs)

-- The oldest-expiring volatile entries, at most `batch` of them.
unfoldable pub victims : ℕ → Assoc Entry → List FlushItem
unfolding sort_items volatile_items
victims batch m = take batch (sort_items (volatile_items m))

-- DELETE … WHERE key = ? AND expires_at <= ?
abbrev pub is_shadow : String → String → Row → Bool
is_shadow key text q = text_eq q.key key && text_le q.expires_at text

-- How both loops of evictOldest go on after a batch: an error or an empty batch ends the loop, and
-- any other adds to the count.
unfoldable pub after_batch :
    Error
    → ℕ
    → (ℕ → Store → ℕ × Option Error × Store)
    → ℕ × Option Error × Store
    → ℕ × Option Error × Store
after_batch e deleted next (n, some err, s) = (deleted, some e, s)
after_batch e deleted next (zero, none, s) = (deleted, none, s)
after_batch e deleted next (suc n, none, s) = next (deleted + suc n) s

module _ ⦃c : TimeText⦄ where
  -- The durable rows behind the victims; the first failure ends the loop.
  unfoldable pub delete_shadows : List FlushItem → Db → Bool × Db
  delete_shadows [] d = (true, d)
  delete_shadows (v ∷ vs) d =
      let (done, d') = exec (delete_where (is_shadow v.key (c.format v.e.expires_at))) d in
      elim done [ true ↦ delete_shadows vs d' | false ↦ (false, d') ]

  abbrev pub purge_items : List FlushItem → Store → ℕ × Option Error × Store
  purge_items [] s = (0, none, s)
  purge_items (v ∷ vs) s =
      let (done, d) = delete_shadows (v ∷ vs) s.db in
      let s' : Store = record s { db = d } in
      if done
      then (let (n, s'') = remove_victims (v ∷ vs) s' in (n, none, s''))
      else (0, some delete_failed, s')

  -- purgeVolatileBatch
  unfoldable pub purge_volatile_batch : ℕ → Store → ℕ × Option Error × Store
  purge_volatile_batch batch s = purge_items (victims batch s.cache) s

  -- The first loop of evictOldest; the argument before the store counts the runs that are left.
  unfoldable pub purge_loop : ℤ → ℕ → ℕ → ℕ → Store → ℕ × Option Error × Store
  purge_loop limit batch deleted zero s = (deleted, none, s)
  purge_loop limit batch deleted (suc runs) s = elim (ltb_ℤ s.cache_bytes limit) [
    | true ↦ (deleted, none, s)
    | false ↦
        after_batch evict_volatile deleted (λ n s'. purge_loop limit batch n runs s')
          (purge_volatile_batch batch s)
  ]

-- The scan of the victim keys: the rows, `rows.Err` and `rows.Close`.
unfoldable pub scan_keys : List String → Db → Bool × Db
scan_keys [] d =
    let (ok, d') = ask d in let (closed, d'') = ask d' in if ok then (closed, d'') else (false, d')
scan_keys (k ∷ ks) d =
    let (ok, d') = ask d in elim ok [ true ↦ scan_keys ks d' | false ↦ (false, d') ]

abbrev pub max_delete_params : ℕ
max_delete_params = 500

-- One DELETE for each chunk of keys; the first failure ends the loop with the count so far.
unfoldable pub delete_chunks : List (List String) → ℕ → Db → ℕ × Option Error × Db
delete_chunks [] deleted d = (deleted, none, d)
delete_chunks (ks ∷ rest) deleted d =
    let (n, err, d') = exec_counted (delete_in ks) delete_failed rows_affected_failed d in
    elim err [ some e ↦ (deleted, some e, d') | none ↦ delete_chunks rest (deleted + n) d' ]

abbrev pub delete_keys : List String → Store → ℕ × Option Error × Store
delete_keys [] s = (0, none, s)
delete_keys (k ∷ ks) s =
    let (n, err, d) = delete_chunks (chunks max_delete_params (k ∷ ks)) 0 s.db in
    let s' : Store = record s { db = d } in
    elim err [ some e ↦ (n, some e, s') | none ↦ (n, none, drop_keys (k ∷ ks) s') ]

-- deleteOldestBatchCached
unfoldable pub delete_oldest_batch_cached : ℕ → Store → ℕ × Option Error × Store
delete_oldest_batch_cached batch s =
    let (queried, d) = ask s.db in
    let ks = oldest_keys batch d.rows in
    let (scanned, d') = scan_keys ks d in
    if queried
    then (if scanned
        then delete_keys ks (record s { db = d' })
        else (0, some evict_batch, record s { db = d' }))
    else (0, some evict_batch, record s { db = d })

-- The batch's DELETE in each mode.
unfoldable pub evict_one_batch : ℕ → Store → ℕ × Option Error × Store
evict_one_batch batch s =
    if caching s
    then delete_oldest_batch_cached batch s
    else (let (n, err, d) =
          exec_counted (λ rows. delete_in (oldest_keys batch rows) rows) delete_failed
            rows_affected_failed s.db in
        (n, err, record s { db = d }))

-- `batch` of one round: the batch size, or one less than the rows there are.
abbrev pub batch_of : ℕ → ℕ → ℕ
batch_of batch_size rows = if leb rows batch_size then rows - 1 else batch_size

-- The size check of a round.
unfoldable pub after_usage :
    ℤ → ℕ → (Store → ℕ × Option Error × Store) → ℤ × Option Error × Store → ℕ × Option Error × Store
after_usage limit deleted next (sz, some err, s) = (deleted, some evict_size, s)
after_usage limit deleted next (sz, none, s) = elim (ltb_ℤ sz limit) [
  | true ↦ (deleted, none, s)
  | false ↦ next s
]

-- The row count of a round: it ends the loop where a batch would empty the table.
unfoldable pub after_count :
    ℕ
    → ℕ
    → (ℕ → Store → ℕ × Option Error × Store)
    → ℕ × Option Error × Store
    → ℕ × Option Error × Store
after_count batch_size deleted next (rows, some err, s) = (deleted, some err, s)
after_count batch_size deleted next (rows, none, s) = elim (batch_of batch_size rows) [
  | zero ↦ (deleted, none, s)
  | suc b ↦ next (suc b) s
]

-- The second loop of evictOldest.
unfoldable pub evict_loop : ℤ → ℕ → ℕ → ℕ → Store → ℕ × Option Error × Store
evict_loop limit batch_size deleted zero s = (deleted, none, s)
evict_loop limit batch_size deleted (suc runs) s =
    after_usage limit deleted
      (λ s1.
        after_count batch_size deleted
          (λ b s2.
            after_batch evict_batch deleted (λ n s3. evict_loop limit batch_size n runs s3)
              (evict_one_batch b s2))
          (row_count s1))
      (usage s)

module _ ⦃c : TimeText⦄ where
  abbrev pub evict_durable : ℤ → ℕ → ℕ → ℕ × Option Error × Store → ℕ × Option Error × Store
  evict_durable limit batch_size max_runs (deleted, none, s) =
      evict_loop limit batch_size deleted max_runs s
  evict_durable limit batch_size max_runs (deleted, some err, s) = (deleted, some err, s)

  -- EvictOldest and evictOldest
  unfoldable pub evict_oldest : ℤ → ℤ → ℤ → Store → ℕ × Option Error × Store
  evict_oldest limit batch_size max_runs s =
      if ltb_ℤ (pos 0) batch_size && ltb_ℤ (pos 0) max_runs
      then evict_durable limit (pos_part batch_size) (pos_part max_runs) (
          if caching s
          then purge_loop limit (pos_part batch_size) 0 (pos_part max_runs) s
          else (0, none, s))
      else (0, some evict_args, s)
