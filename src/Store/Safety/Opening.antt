-- ===== src/Store/Safety/Opening.antt =====
-- internal/store/store.go: Open and loadCache keep the invariant.
use text.Mathlib.Text.{◌==◌}
use kvp.Prelude.{
  ℕ, suc, zero, String, ◌≡◌, refl, Bool, true, false, Option, none, some, List, [], ◌∷◌, inl, inr,
  ap, sym, eq_iff, ◌∙◌, Bool-cases, Option-cases, some_inj, arith,
}
use kvp.Prelude.Int.{ℤ, pos, ltb_ℤ}
use mathlib.Core.Path.{subst}
use kvp.Assoc.{Assoc, total, lookup, insert, lookup-insert}
use kvp.Store.Clock.{TimeText, after}
use kvp.Store.Sql.{Row, Db, ask, select_row}
use kvp.Store.Rows.{IsKeyed, rows-ask}
use kvp.Store.State.{Error, Entry, Store, caching, cache_put}
use kvp.Store.Read.{
  load_entry, load_loop, load_cache, migrate_loop, open_migrated, open_store, opened,
}
use kvp.Store.Valid.{IsValid, cache_put-IsValid}
use kvp.Store.Safety.Reads.{asked-IsValid}

pub rows-migrate_loop : (n : ℕ) (d : Db) → (migrate_loop n d).1.rows ≡ d.rows
unfolding migrate_loop
rows-migrate_loop zero d = refl
rows-migrate_loop (suc n) d = elim (Bool-cases (ask d).0) [
  | inl ok ↦ rw (ok, migrate_loop) (rows-migrate_loop n (ask d).1 ∙ rows-ask d)
  | inr failed ↦ rw (failed, migrate_loop) (rows-ask d)
]

-- No row's key has an entry yet.
abbrev Unloaded : List Row → Assoc Entry → Type 0
Unloaded [] m = Unit
Unloaded (q ∷ rows) m = (lookup q.key m ≡ none) × Unloaded rows m

insert-Unloaded :
    (key : String) (e : Entry) (rows : List Row) (m : Assoc Entry)
    → select_row key rows ≡ none
    → Unloaded rows m
    → Unloaded rows (insert key e m)
unfolding select_row
insert-Unloaded key e [] m k u = tt
insert-Unloaded key e (q ∷ rows) m k u = elim (Bool-cases (q.key == key)) [
  | inl same ↦ cc (rw same at k)
  | inr other ↦ (
    lookup-insert key q.key e m ∙ rw (not_same key q.key other) u.0,
    insert-Unloaded key e rows m (rw other at k) u.1,
  )
]
  where
    not_same : (a b : String) → (b == a) ≡ false → (a == b) ≡ false
    not_same a b h = ground (arith, eq_iff a b, eq_iff b a)

load_entry-Unloaded :
    (q : Row) (now t : ℕ) (rows : List Row) (s : Store)
    → select_row q.key rows ≡ none
    → Unloaded rows s.cache
    → Unloaded rows (load_entry q now t s).cache
load_entry-Unloaded q now t rows s k u = elim (Bool-cases (after now t)) [
  | inl old ↦ rw old u
  | inr live ↦ rw live (insert-Unloaded q.key _ rows s.cache k u)
]

nothing-Unloaded : (rows : List Row) → Unloaded rows []
unfolding lookup
nothing-Unloaded [] = tt
nothing-Unloaded (q ∷ rows) = (refl, nothing-Unloaded rows)

-- Then loading a row is putting its entry.
load_entry-put :
    (q : Row) (now t : ℕ) (s : Store)
    → after now t ≡ false
    → lookup q.key s.cache ≡ none
    → load_entry q now t s
      ≡ cache_put q.key (record { value = q.value; expires_at = t; volatile = false }) s
unfolding cache_put
load_entry-put q now t s live absent = rw (live, absent) refl

load_entry-IsValid :
    (q : Row) (now t : ℕ) {s : Store}
    → caching s ≡ true
    → lookup q.key s.cache ≡ none
    → IsValid s
    → IsValid (load_entry q now t s)
load_entry-IsValid q now t {s} on absent v = elim (Bool-cases (after now t)) [
  | inl old ↦ rw old v
  | inr live ↦
      subst IsValid (sym (load_entry-put q now t s live absent)) (cache_put-IsValid q.key v _ on)
]

pub mem_limit-load_entry :
    (q : Row) (now t : ℕ) (s : Store) → (load_entry q now t s).mem_limit ≡ s.mem_limit
mem_limit-load_entry q now t s = ground arith

opened-IsValid :
    (r : Option Error × Store) (s : Store) → IsValid r.1 → (opened r).1 ≡ some s → IsValid s
opened-IsValid (none, s') s v h = subst IsValid (some_inj h) v
opened-IsValid (some err, s') s v h = cc h

empty-IsValid :
    (d : Db) (limit : ℤ)
    → IsKeyed d.rows
    → IsValid (record {
      db = d;
      cache = [];
      cache_bytes = pos 0;
      mem_limit = limit;
      dirty = [];
      stragglers = [];
    })
unfolding total
empty-IsValid d limit h = record {
  cache_map = tt;
  counted = refl;
  dirty_map = tt;
  rows_keyed = h;
  off_cache = λ _. refl;
  off_dirty = λ _. refl;
}

module _ ⦃c : TimeText⦄ where
  load_loop-IsValid :
      (now : ℕ) (rows : List Row) {s : Store}
      → caching s ≡ true
      → IsKeyed rows
      → Unloaded rows s.cache
      → IsValid s
      → IsValid (load_loop now rows s).1
  unfolding load_loop
  load_loop-IsValid now [] on k u v = asked-IsValid v
  load_loop-IsValid now (q ∷ rows) {s} on k u v = elim (Bool-cases (ask s.db).0) [
    | inr failed ↦ rw (failed, load_loop) (asked-IsValid v)
    | inl ok ↦ elim (Option-cases (c.parse q.expires_at)) [
      | inl bad ↦ rw (ok, load_loop, bad) (asked-IsValid v)
      | inr good ↦
          rw (ok, load_loop, good.1)
            (load_loop-IsValid now rows
              (ap (ltb_ℤ (pos 0))
                  (mem_limit-load_entry q now good.0 (record s { db = (ask s.db).1 }))
                ∙ on)
              k.1 (load_entry-Unloaded q now good.0 rows (record s { db = (ask s.db).1 }) k.0 u.1)
              (load_entry-IsValid q now good.0 on u.0 (asked-IsValid v)))
    ]
  ]

  load_cache-IsValid :
      (now : ℕ) {s : Store}
      → caching s ≡ true
      → s.cache ≡ []
      → IsValid s
      → IsValid (load_cache now s).1
  unfolding load_cache
  load_cache-IsValid now {s} on empty v = elim (Bool-cases (ask s.db).0) [
    | inl ok ↦ rw ok (
        load_loop-IsValid now _ on (subst IsKeyed (sym (rows-ask s.db)) v.rows_keyed)
          (subst (Unloaded (ask s.db).1.rows) (sym empty) (nothing-Unloaded (ask s.db).1.rows))
          (asked-IsValid v))
    | inr failed ↦ rw failed (asked-IsValid v)
  ]

  open_migrated-IsValid :
      (limit : ℤ) (now : ℕ) (r : Bool × Db) (s : Store)
      → IsKeyed r.1.rows
      → (open_migrated limit now r).1 ≡ some s
      → IsValid s
  open_migrated-IsValid limit now (false, d) s k h = cc h
  open_migrated-IsValid limit now (true, d) s k h = elim (Bool-cases (ltb_ℤ (pos 0) limit)) [
    | inl on ↦
        opened-IsValid (load_cache now _) s
          (load_cache-IsValid now on refl (empty-IsValid d limit k)) (rw on at h)
    | inr off ↦ subst IsValid (some_inj (rw off at h)) (empty-IsValid d limit k)
  ]

  -- A store that opens, over a table whose keys are distinct, meets the invariant.
  pub open_store-IsValid :
      (path : String) (limit : ℤ) (now : ℕ) (d : Db) (s : Store)
      → IsKeyed d.rows
      → (open_store path limit now d).1 ≡ some s
      → IsValid s
  unfolding open_store
  open_store-IsValid path limit now d s k h = elim (Bool-cases (path == "")) [
    | inl empty ↦ cc (rw empty at h)
    | inr named ↦ elim (Bool-cases (ask d).0) [
      | inl ok ↦
          open_migrated-IsValid limit now (migrate_loop 5 (ask d).1) s
            (rw (rows-migrate_loop, rows-ask) k) (rw (named, ok) at h)
      | inr failed ↦ cc (rw (named, failed) at h)
    ]
  ]
