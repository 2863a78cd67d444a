-- ===== src/Store/Safety/Evictions.antt =====
-- internal/store/store.go: EvictOldest and what it calls keep the invariant of the `Store`.
use kvp.Store.Safety.Batches.{evict_one_batch-IsValid}
use kvp.Prelude.{
  ℕ, suc, zero, ◌+◌, ◌≡◌, refl, Bool, ◌&&◌, Option, none, some, List, [], ◌∷◌, inl, inr, Bool-cases,
  ℕ-cases,
}
use kvp.Prelude.Int.{ℤ, pos, ltb_ℤ}
use kvp.Store.Clock.{TimeText}
use kvp.Store.Sql.{Row, Db, ask, exec, delete_where, read_size, answer_size}
use kvp.Store.Rows.{IsKeyed, rows-ask, exec-IsKeyed, delete_where-IsKeyed}
use kvp.Store.State.{Error, FlushItem, Store, caching, evict_volatile, evict_batch}
use kvp.Store.Expire.{row_count, size, usage}
use kvp.Store.Evict.{
  is_shadow, victims, delete_shadows, purge_items, purge_volatile_batch, purge_loop,
  evict_one_batch, batch_of, evict_loop, evict_durable, after_batch, after_usage, after_count,
  evict_oldest,
}
use kvp.Store.Valid.{IsValid, with_db-IsValid, remove_victims-IsValid}

rows-answer_size : (d : Db) (ns : List ℕ) → (answer_size d ns).1.rows ≡ d.rows
rows-answer_size d [] = refl
rows-answer_size d (n ∷ ns) = refl

pub rows-read_size : (d : Db) → (read_size d).1.rows ≡ d.rows
unfolding read_size
rows-read_size d = rows-answer_size d d.sizes

pub row_count-IsValid : (s : Store) → IsValid s → IsValid (row_count s).2
unfolding row_count
row_count-IsValid s v = elim (Bool-cases (ask s.db).0) [
  | inl ok ↦ rw ok (with_db-IsValid _ v (rw rows-ask v.rows_keyed))
  | inr failed ↦ rw failed (with_db-IsValid _ v (rw rows-ask v.rows_keyed))
]

size-IsValid : (s : Store) → IsValid s → IsValid (size s).2
unfolding size
size-IsValid s v = elim (Bool-cases (ask s.db).0) [
  | inl counted ↦ elim (Bool-cases (ask (read_size (ask s.db).1).1).0) [
    | inl sized ↦ rw (counted, sized) (with_db-IsValid _ v keyed)
    | inr failed ↦ rw (counted, failed) (with_db-IsValid _ v keyed')
  ]
  | inr failed ↦ rw failed (with_db-IsValid _ v (rw rows-ask v.rows_keyed))
]
  where
    keyed' : IsKeyed (ask (read_size (ask s.db).1).1).1.rows
    keyed' = rw (rows-ask, rows-read_size, rows-ask) v.rows_keyed

    keyed : IsKeyed (read_size (ask (read_size (ask s.db).1).1).1).1.rows
    keyed = rw rows-read_size keyed'

pub usage-IsValid : (s : Store) → IsValid s → IsValid (usage s).2
unfolding usage
usage-IsValid s v = elim (Bool-cases (caching s)) [
  | inl on ↦ rw on v
  | inr off ↦ rw off (size-IsValid s v)
]

after_batch-IsValid :
    (e : Error) (deleted : ℕ) (next : ℕ → Store → ℕ × Option Error × Store)
    (r : ℕ × Option Error × Store)
    → IsValid r.2
    → ((n : ℕ) (s : Store) → IsValid s → IsValid (next n s).2)
    → IsValid (after_batch e deleted next r).2
unfolding after_batch
after_batch-IsValid e deleted next (n, some err, s) v keeps = v
after_batch-IsValid e deleted next (zero, none, s) v keeps = v
after_batch-IsValid e deleted next (suc n, none, s) v keeps = keeps (deleted + suc n) s v

after_usage-IsValid :
    (limit : ℤ) (deleted : ℕ) (next : Store → ℕ × Option Error × Store)
    (r : ℤ × Option Error × Store)
    → IsValid r.2
    → ((s : Store) → IsValid s → IsValid (next s).2)
    → IsValid (after_usage limit deleted next r).2
unfolding after_usage
after_usage-IsValid limit deleted next (sz, some err, s) v keeps = v
after_usage-IsValid limit deleted next (sz, none, s) v keeps = elim (Bool-cases (ltb_ℤ sz limit)) [
  | inl below ↦ rw (below, after_usage) v
  | inr over ↦ rw (over, after_usage) (keeps s v)
]

after_count-IsValid :
    (batch_size deleted : ℕ) (next : ℕ → Store → ℕ × Option Error × Store)
    (r : ℕ × Option Error × Store)
    → IsValid r.2
    → ((b : ℕ) (s : Store) → IsValid s → IsValid (next b s).2)
    → IsValid (after_count batch_size deleted next r).2
unfolding after_count
after_count-IsValid batch_size deleted next (rows, some err, s) v keeps = v
after_count-IsValid batch_size deleted next (rows, none, s) v keeps =
    elim (ℕ-cases (batch_of batch_size rows)) [
      | inl last ↦ rw (last, after_count) v
      | inr more ↦ rw (more.1, after_count) (keeps (suc more.0) s v)
    ]

module _ ⦃c : TimeText⦄ where
  delete_shadows-IsKeyed :
      (vs : List FlushItem) (d : Db) → IsKeyed d.rows → IsKeyed (delete_shadows vs d).1.rows
  unfolding delete_shadows
  delete_shadows-IsKeyed [] d h = h
  delete_shadows-IsKeyed (v ∷ vs) d h = elim (Bool-cases (exec (delete_where shadow) d).0) [
    | inl ok ↦ rw (ok, delete_shadows) (delete_shadows-IsKeyed vs _ next)
    | inr failed ↦ rw (failed, delete_shadows) next
  ]
    where
      shadow : Row → Bool
      shadow = is_shadow v.key (c.format v.e.expires_at)

      next : IsKeyed (exec (delete_where shadow) d).1.rows
      next = exec-IsKeyed _ d (delete_where-IsKeyed shadow) h

  purge_items-IsValid : (vs : List FlushItem) (s : Store) → IsValid s → IsValid (purge_items vs s).2
  purge_items-IsValid [] s v = v
  purge_items-IsValid (it ∷ vs) s v = elim (Bool-cases (delete_shadows (it ∷ vs) s.db).0) [
    | inl ok ↦ rw ok (remove_victims-IsValid (it ∷ vs) next)
    | inr failed ↦ rw failed next
  ]
    where
      next : IsValid (record s { db = (delete_shadows (it ∷ vs) s.db).1 })
      next = with_db-IsValid _ v (delete_shadows-IsKeyed (it ∷ vs) s.db v.rows_keyed)

  purge_volatile_batch-IsValid :
      (batch : ℕ) (s : Store) → IsValid s → IsValid (purge_volatile_batch batch s).2
  unfolding purge_volatile_batch
  purge_volatile_batch-IsValid batch s v = purge_items-IsValid (victims batch s.cache) s v

  purge_loop-IsValid :
      (limit : ℤ) (batch deleted runs : ℕ) (s : Store)
      → IsValid s
      → IsValid (purge_loop limit batch deleted runs s).2
  unfolding purge_loop
  purge_loop-IsValid limit batch deleted zero s v = v
  purge_loop-IsValid limit batch deleted (suc runs) s v =
      elim (Bool-cases (ltb_ℤ s.cache_bytes limit)) [
        | inl below ↦ rw (below, purge_loop) v
        | inr over ↦
            rw (over, purge_loop)
              (after_batch-IsValid evict_volatile deleted _ (purge_volatile_batch batch s)
                (purge_volatile_batch-IsValid batch s v)
                (λ n s' v'. purge_loop-IsValid limit batch n runs s' v'))
      ]

evict_loop-IsValid :
    (limit : ℤ) (batch_size deleted runs : ℕ) (s : Store)
    → IsValid s
    → IsValid (evict_loop limit batch_size deleted runs s).2
unfolding evict_loop
evict_loop-IsValid limit batch_size deleted zero s v = v
evict_loop-IsValid limit batch_size deleted (suc runs) s v =
    after_usage-IsValid limit deleted _ (usage s) (usage-IsValid s v) λ s1 v1.
      after_count-IsValid batch_size deleted _ (row_count s1) (row_count-IsValid s1 v1) λ b s2 v2.
        after_batch-IsValid evict_batch deleted _ (evict_one_batch b s2)
          (evict_one_batch-IsValid b s2 v2)
          λ n s3 v3. evict_loop-IsValid limit batch_size n runs s3 v3

module _ ⦃c : TimeText⦄ where
  evict_durable-IsValid :
      (limit : ℤ) (batch_size max_runs : ℕ) (r : ℕ × Option Error × Store)
      → IsValid r.2
      → IsValid (evict_durable limit batch_size max_runs r).2
  evict_durable-IsValid limit batch_size max_runs (n, none, s) v =
      evict_loop-IsValid limit batch_size n max_runs s v
  evict_durable-IsValid limit batch_size max_runs (n, some err, s) v = v

  -- An eviction keeps the invariant, in both modes and wherever it stops.
  pub evict_oldest-IsValid :
      (limit batch_size max_runs : ℤ) (s : Store)
      → IsValid s
      → IsValid (evict_oldest limit batch_size max_runs s).2
  unfolding evict_oldest
  evict_oldest-IsValid limit batch_size max_runs s v =
      elim (Bool-cases (ltb_ℤ (pos 0) batch_size && ltb_ℤ (pos 0) max_runs)) [
        | inr bad ↦ rw bad v
        | inl good ↦ elim (Bool-cases (caching s)) [
          | inl on ↦
              rw (good, on)
                (evict_durable-IsValid limit _ _ (purge_loop limit _ 0 _ s)
                  (purge_loop-IsValid limit _ 0 _ s v))
          | inr off ↦ rw (good, off) (evict_loop-IsValid limit _ 0 _ s v)
        ]
      ]
