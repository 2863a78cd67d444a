-- ===== src/Store/Valid.antt =====
-- The invariant of the `Store` of internal/store/store.go, kept by each critical section of its
-- mutex and by each statement.
use kvp.Prelude.{
  ℕ, ◌+◌, String, ◌≡◌, refl, ap, true, false, ◌&&◌, Option, none, some, List, [], ◌∷◌, arith, inl,
  inr, Bool-cases, ltb,
}
use kvp.Prelude.Int.{pos, ◌+ℤ◌, ◌-ℤ◌}
use kvp.Assoc.{
  Assoc, lookup, insert, erase, IsMap, total, weight, insert-IsMap, erase-IsMap, total-insert,
  total-erase,
}
use kvp.Store.Clock.{same_instant}
use kvp.Store.Sql.{Db}
use kvp.Store.Rows.{IsKeyed}
use kvp.Store.State.{
  Entry, Store, FlushItem, entry_size, release, caching, cache_put, cache_drop, mark_dirty,
  clear_dirty, take_dirty, re_mark_dirty, clear_volatile, drop_expired_entry, remove_victims,
  drop_keys, purge_expired, clear_if, drop_if_same, is_victim,
}

-- The memory layer: distinct keys, the byte counter, and nothing in it while it is disabled.
pub record IsValid (s : Store) : Type 0 where
  pub cache_map : IsMap s.cache
  pub counted : s.cache_bytes ≡ pos (total entry_size s.cache)
  pub dirty_map : IsMap s.dirty
  pub rows_keyed : IsKeyed s.db.rows
  pub off_cache : caching s ≡ false → s.cache ≡ []
  pub off_dirty : caching s ≡ false → s.dirty ≡ []

-- Taking an entry's bytes off never takes the counter below zero.
release-pos :
    (key : String) (o : Option Entry) (n m : ℕ)
    → n + weight entry_size key o ≡ m
    → release key o (pos m) ≡ pos n
unfolding ◌-ℤ◌
release-pos key none n m h = ground arith
release-pos key (some e) n m h = ground arith

add-pos : (a b : ℕ) → pos a +ℤ pos b ≡ pos (a + b)
unfolding ◌+ℤ◌
add-pos a b = ground arith

module _ (key : String) {s : Store} (v : IsValid s) where
  released :
      release key (lookup key s.cache) s.cache_bytes ≡ pos (total entry_size (erase key s.cache))
  released = rw v.counted (
      release-pos key (lookup key s.cache) (total entry_size (erase key s.cache))
        (total entry_size s.cache) (total-erase entry_size key s.cache v.cache_map))

  pub cache_drop-IsValid : IsValid (cache_drop key s)
  unfolding cache_drop erase
  cache_drop-IsValid = record {
    cache_map = erase-IsMap key s.cache v.cache_map;
    counted = released;
    dirty_map = v.dirty_map;
    rows_keyed = v.rows_keyed;
    off_cache = λ h. rw (v.off_cache h);
    off_dirty = v.off_dirty;
  }

  pub cache_put-IsValid : (e : Entry) → caching s ≡ true → IsValid (cache_put key e s)
  unfolding cache_put
  cache_put-IsValid e on = record {
    cache_map = insert-IsMap key e s.cache v.cache_map;
    counted = rw released (
        rw add-pos (
          ap pos (
            omega (
              arith,
              total-insert entry_size key e s.cache,
              total-erase entry_size key s.cache v.cache_map,
            ))));
    dirty_map = v.dirty_map;
    rows_keyed = v.rows_keyed;
    off_cache = λ h. cc (on, h);
    off_dirty = v.off_dirty;
  }

  pub mark_dirty-IsValid : caching s ≡ true → IsValid (mark_dirty key s)
  unfolding mark_dirty
  mark_dirty-IsValid on = record {
    cache_map = v.cache_map;
    counted = v.counted;
    dirty_map = insert-IsMap key tt s.dirty v.dirty_map;
    rows_keyed = v.rows_keyed;
    off_cache = v.off_cache;
    off_dirty = λ h. cc (on, h);
  }

  pub clear_dirty-IsValid : IsValid (clear_dirty key s)
  unfolding clear_dirty erase
  clear_dirty-IsValid = record {
    cache_map = v.cache_map;
    counted = v.counted;
    dirty_map = erase-IsMap key s.dirty v.dirty_map;
    rows_keyed = v.rows_keyed;
    off_cache = v.off_cache;
    off_dirty = λ h. rw (v.off_dirty h);
  }

pub take_dirty-IsValid : {s : Store} → IsValid s → IsValid (take_dirty s).1
unfolding take_dirty
take_dirty-IsValid v = record {
  cache_map = v.cache_map;
  counted = v.counted;
  dirty_map = tt;
  rows_keyed = v.rows_keyed;
  off_cache = v.off_cache;
  off_dirty = λ h. refl;
}

-- The database may be replaced by one whose rows have distinct keys.
pub with_db-IsValid :
    {s : Store} (d : Db) → IsValid s → IsKeyed d.rows → IsValid (record s { db = d })
with_db-IsValid d v k = record {
  cache_map = v.cache_map;
  counted = v.counted;
  dirty_map = v.dirty_map;
  rows_keyed = k;
  off_cache = v.off_cache;
  off_dirty = v.off_dirty;
}

-- An entry rewritten at its size keeps the counter.
same_size :
    (key : String) (cur e : Entry) (m : Assoc Entry)
    → lookup key m ≡ some cur
    → entry_size key e ≡ entry_size key cur
    → total entry_size (insert key e m) ≡ total entry_size m
same_size key cur e m found same = omega (arith, (rw found at (total-insert entry_size key e m)))

module _ (key : String) (t : ℕ) {s : Store} (v : IsValid s) where
  settled :
      (cur : Entry)
      → lookup key s.cache ≡ some cur
      → IsValid (record s { cache = insert key (record cur { volatile = false }) s.cache })
  unfolding entry_size lookup
  settled cur found = record {
    cache_map = insert-IsMap key _ s.cache v.cache_map;
    counted = rw (same_size key cur (record cur { volatile = false }) s.cache found refl) v.counted;
    dirty_map = v.dirty_map;
    rows_keyed = v.rows_keyed;
    off_cache = λ h. cc (found, ap (lookup key) (v.off_cache h));
    off_dirty = v.off_dirty;
  }

  clear_if-IsValid : (o : Option Entry) → lookup key s.cache ≡ o → IsValid (clear_if key t o s)
  clear_if-IsValid none found = v
  clear_if-IsValid (some cur) found =
      elim (Bool-cases (cur.volatile && same_instant cur.expires_at t)) [
        | inl yes' ↦ rw yes' (settled cur found)
        | inr no' ↦ rw no' v
      ]

  pub clear_volatile-IsValid : IsValid (clear_volatile key t s)
  unfolding clear_volatile
  clear_volatile-IsValid = clear_if-IsValid (lookup key s.cache) refl

  drop_if_same-IsValid : (o : Option Entry) → IsValid (drop_if_same key t o s)
  drop_if_same-IsValid none = v
  drop_if_same-IsValid (some cur) = elim (Bool-cases (same_instant cur.expires_at t)) [
    | inl same ↦ rw same (cache_drop-IsValid key v)
    | inr other ↦ rw other v
  ]

  pub drop_expired_entry-IsValid : IsValid (drop_expired_entry key t s)
  unfolding drop_expired_entry
  drop_expired_entry-IsValid = drop_if_same-IsValid (lookup key s.cache)

pub re_mark_dirty-IsValid :
    (batch : List FlushItem) {s : Store}
    → IsValid s
    → caching s ≡ true
    → IsValid (re_mark_dirty batch s)
unfolding re_mark_dirty
re_mark_dirty-IsValid [] v on = v
re_mark_dirty-IsValid (it ∷ batch) v on =
    re_mark_dirty-IsValid batch (mark_dirty-IsValid it.key v on) (unfold mark_dirty in on)

pub drop_keys-IsValid : (ks : List String) {s : Store} → IsValid s → IsValid (drop_keys ks s)
unfolding drop_keys
drop_keys-IsValid [] v = v
drop_keys-IsValid (k ∷ ks) v = drop_keys-IsValid ks (cache_drop-IsValid k v)

pub remove_victims-IsValid :
    (vs : List FlushItem) {s : Store} → IsValid s → IsValid (remove_victims vs s).1
unfolding remove_victims
remove_victims-IsValid [] v = v
remove_victims-IsValid (it ∷ vs) {s} v =
    elim (Bool-cases (is_victim it.e.expires_at (lookup it.key s.cache))) [
      | inl gone ↦
          rw (gone, remove_victims) (remove_victims-IsValid vs (cache_drop-IsValid it.key v))
      | inr kept ↦ rw (kept, remove_victims) (remove_victims-IsValid vs v)
    ]

pub purge_expired-IsValid :
    (now : ℕ) (m : Assoc Entry) {s : Store} → IsValid s → IsValid (purge_expired now m s)
unfolding purge_expired
purge_expired-IsValid now [] v = v
purge_expired-IsValid now ((k, e) ∷ m) {s} v = elim (Bool-cases (ltb e.expires_at now)) [
  | inl old ↦ rw old (purge_expired-IsValid now m (cache_drop-IsValid k v))
  | inr live ↦ rw live (purge_expired-IsValid now m v)
]
