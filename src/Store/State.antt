-- ===== src/Store/State.antt =====
-- internal/store/store.go: the entries, the `Store` and the steps that its mutex guards. Each
-- function of this file is one critical section, or a read under the lock.
use Prim.Native.String.{len}
use kvp.Prelude.{
  ℕ, ◌+◌, String, Bool, true, false, ◌&&◌, Option, none, some, List, [], ◌∷◌, ltb, if◌then◌else◌,
  length,
}
use kvp.Prelude.Int.{ℤ, pos, ◌+ℤ◌, ◌-ℤ◌, ltb_ℤ}
use kvp.Assoc.{Assoc, lookup, insert, erase, keys}
use kvp.Store.Clock.{same_instant}
use kvp.Store.Sql.{Bytes, Db}

-- What the error returns tell apart.
pub data Error : Type 0 where
  empty_path sql_open migrate load_query load_scan load_rows : Error
  load_parse : String → Error
  put_failed : String → Error
  flush_begin flush_commit : Error
  flush_failed : String → Error
  get_failed get_parse lazy_delete : String → Error
  probe_expired delete_failed rows_affected_failed : Error
  evict_args evict_volatile evict_size evict_count evict_batch : Error
  page_count page_size : Error

pub record Entry : Type 0 where
  pub value : Bytes
  pub expires_at : ℕ
  pub volatile : Bool

abbrev pub entry_overhead : ℕ
entry_overhead = 96

unfoldable pub entry_size : String → Entry → ℕ
entry_size key e = len key + length e.value + entry_overhead

-- A DELETE that `getCached` leaves to a goroutine: the key and the text that its row must hold.
pub record Straggler : Type 0 where
  pub key : String
  pub expires_text : String

-- `stragglers` are the goroutines that have been started and have not run yet.
pub record Store : Type 0 where
  pub db : Db
  pub cache : Assoc Entry
  pub cache_bytes : ℤ
  pub mem_limit : ℤ
  pub dirty : Assoc (Unit {0})
  pub stragglers : List Straggler

abbrev pub caching : Store → Bool
caching s = ltb_ℤ (pos 0) s.mem_limit

-- The bytes that an old entry of the key gave to the sum are taken off.
abbrev pub release : String → Option Entry → ℤ → ℤ
release key none bytes = bytes
release key (some e) bytes = bytes -ℤ pos (entry_size key e)

unfoldable pub cache_put : String → Entry → Store → Store
cache_put key e s = record s {
  cache = insert key e s.cache;
  cache_bytes = release key (lookup key s.cache) s.cache_bytes +ℤ pos (entry_size key e);
}

-- `delete(s.cache, key)` with the accounting, as the sweep, the eviction and `getCached` do it.
unfoldable pub cache_drop : String → Store → Store
cache_drop key s = record s {
  cache = erase key s.cache;
  cache_bytes = release key (lookup key s.cache) s.cache_bytes;
}

unfoldable pub mark_dirty : String → Store → Store
mark_dirty key s = record s { dirty = insert key tt s.dirty }

unfoldable pub clear_dirty : String → Store → Store
clear_dirty key s = record s { dirty = erase key s.dirty }

unfoldable pub take_dirty : Store → List String × Store
take_dirty s = (keys s.dirty, record s { dirty = [] })

unfoldable pub dirty_count : Store → ℕ
dirty_count s = if caching s then length s.dirty else 0

-- A dirty key with the entry that was read for it.
pub record FlushItem : Type 0 where
  pub key : String
  pub e : Entry

-- The live entries of the keys, read under one lock.
unfoldable pub snapshot : List String → Assoc Entry → List FlushItem
snapshot [] m = []
snapshot (k ∷ ks) m =
    let rest = snapshot ks m in
    elim (lookup k m) [ none ↦ rest | some e ↦ (record { key = k; e = e }) ∷ rest ]

unfoldable pub re_mark_dirty : List FlushItem → Store → Store
unfolding mark_dirty
re_mark_dirty [] s = s
re_mark_dirty (it ∷ batch) s = re_mark_dirty batch (mark_dirty it.key s)

abbrev pub clear_if : String → ℕ → Option Entry → Store → Store
clear_if key t none s = s
clear_if key t (some cur) s =
    if cur.volatile && same_instant cur.expires_at t
    then record s { cache = insert key (record cur { volatile = false }) s.cache }
    else s

unfoldable pub clear_volatile : String → ℕ → Store → Store
clear_volatile key t s = clear_if key t (lookup key s.cache) s

abbrev pub drop_if_same : String → ℕ → Option Entry → Store → Store
drop_if_same key t none s = s
drop_if_same key t (some cur) s = if same_instant cur.expires_at t then cache_drop key s else s

-- The removal of `getCached`, unless a concurrent write refreshed the entry.
unfoldable pub drop_expired_entry : String → ℕ → Store → Store
unfolding cache_drop
drop_expired_entry key t s = drop_if_same key t (lookup key s.cache) s

abbrev pub is_victim : ℕ → Option Entry → Bool
is_victim t none = false
is_victim t (some cur) = cur.volatile && same_instant cur.expires_at t

-- The removal at the end of `purgeVolatileBatch`, which checks the entry again.
unfoldable pub remove_victims : List FlushItem → Store → ℕ × Store
unfolding cache_drop
remove_victims [] s = (0, s)
remove_victims (v ∷ vs) s = elim (is_victim v.e.expires_at (lookup v.key s.cache)) [
  | true ↦ let (n, s') = remove_victims vs (cache_drop v.key s) in (n + 1, s')
  | false ↦ remove_victims vs s
]

-- The removal at the end of `deleteOldestBatchCached`. To drop an absent key changes nothing.
unfoldable pub drop_keys : List String → Store → Store
unfolding cache_drop
drop_keys [] s = s
drop_keys (k ∷ ks) s = drop_keys ks (cache_drop k s)

-- The purge of `DeleteExpired`: the loop over the cache's entries.
unfoldable pub purge_expired : ℕ → Assoc Entry → Store → Store
unfolding cache_drop
purge_expired now [] s = s
purge_expired now ((k, e) ∷ m) s =
    purge_expired now m (if ltb e.expires_at now then cache_drop k s else s)
