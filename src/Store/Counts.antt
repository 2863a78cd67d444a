-- ===== src/Store/Counts.antt =====
-- internal/store/store.go: the numbers of rows that DeleteExpired and EvictOldest return.
use kvp.Prelude.{
  ℕ, suc, zero, ◌+◌, ◌≤◌, String, ◌≡◌, refl, ap, sym, false, ◌&&◌, Option, none, some, List, arith,
  [], ◌∷◌, ltb, if◌then◌else◌, inl, inr, ◌∙◌, Bool-cases, ℕ-cases, length,
}
use kvp.Prelude.Int.{ℤ, pos, pos_part, ltb_ℤ}
use kvp.Store.Clock.{TimeText}
use kvp.Store.Sql.{Row, Db, ask, exec, read_size, any_row, expired_row, delete_in, oldest_keys}
use kvp.Store.Rows.{rows-ask, rows-exec, length-delete_where}
use kvp.Store.State.{
  Error, Store, caching, evict_batch, evict_size, delete_failed, rows_affected_failed,
  purge_expired, Entry, cache_drop,
}
use kvp.Assoc.{Assoc}
use kvp.Store.Expire.{exec_counted, sweep_rows, sweep_db, delete_expired, row_count, size, usage}
use kvp.Store.Evict.{
  evict_one_batch, batch_of, after_batch, after_usage, after_count, evict_loop, evict_oldest,
}
use kvp.Store.Floor.{rows-usage, row_count_lem}

-- Of `old` rows exactly `n` are gone, or at least `n` where there is an error.
abbrev pub Counted : ℕ → ℕ → Option Error → List Row → Type 0
Counted old n none new = n + length new ≡ old
Counted old n (some e) new = n + length new ≤ old

exact-Counted :
    (old n : ℕ) (err : Option Error) (rows : List Row)
    → n + length rows ≡ old
    → Counted old n err rows
exact-Counted old n none rows h = h
exact-Counted old n (some e) rows h = omega (arith, h)

exec_counted-Counted :
    (f : List Row → List Row) (failed uncounted : Error) (d : Db)
    → ((rows : List Row) → length (f rows) ≤ length rows)
    → Counted
        (length d.rows)
        (exec_counted f failed uncounted d).0
        (exec_counted f failed uncounted d).1
        (exec_counted f failed uncounted d).2.rows
unfolding exec_counted
exec_counted-Counted f failed uncounted d fewer = elim (Bool-cases (exec f d).0) [
  | inl done ↦
      let gone : (exec f d).1.rows ≡ f d.rows = rows-exec f d ∙ rw done refl in
      elim (Bool-cases (ask (exec f d).1).0) [
        | inl counted ↦ rw (done, counted, rows-ask, gone) (omega (arith, fewer d.rows))
        | inr lost ↦ rw (done, lost, rows-ask, gone) (omega (arith, fewer d.rows))
      ]
  | inr undone ↦
      let kept : (exec f d).1.rows ≡ d.rows = rows-exec f d ∙ rw undone refl in
      rw (undone, kept) (omega arith)
]

length-sweep_rows :
    (limit : ℤ) (text : String) (rows : List Row)
    → length (sweep_rows limit text rows) ≤ length rows
unfolding sweep_rows delete_in
length-sweep_rows limit text rows = elim (Bool-cases (ltb_ℤ (pos 0) limit)) [
  | inl bounded ↦ rw bounded (length-delete_where _ rows)
  | inr all ↦ rw all (length-delete_where (expired_row text) rows)
]

sweep_db-Counted :
    (limit : ℤ) (text : String) (s : Store)
    → Counted
        (length s.db.rows)
        (sweep_db limit text s).0
        (sweep_db limit text s).1
        (sweep_db limit text s).2.db.rows
unfolding sweep_db
sweep_db-Counted limit text s = elim (Bool-cases (ask s.db).0) [
  | inl ok ↦ elim (Bool-cases (any_row (expired_row text) (ask s.db).1.rows)) [
    | inl some_old ↦
        rw (ok, some_old)
          (rw (rows-ask s.db) at (
            exec_counted-Counted (sweep_rows limit text) delete_failed rows_affected_failed
              (ask s.db).1 (length-sweep_rows limit text)))
    | inr none_old ↦ rw (ok, none_old, rows-ask) (exact-Counted _ 0 none s.db.rows (omega arith))
  ]
  | inr failed ↦ rw (failed, rows-ask) (omega arith)
]

swept-Counted :
    (old : ℕ) (limit : ℤ) (text : String) (s : Store)
    → length s.db.rows ≡ old
    → Counted old
        (sweep_db limit text s).0
        (sweep_db limit text s).1
        (sweep_db limit text s).2.db.rows
swept-Counted old limit text s h = rw (sym h) (sweep_db-Counted limit text s)

db-purge_expired : (now : ℕ) (m : Assoc Entry) (s : Store) → (purge_expired now m s).db ≡ s.db
unfolding purge_expired
db-purge_expired now [] s = refl
db-purge_expired now ((k, e) ∷ m) s =
    db-purge_expired now m (if ltb e.expires_at now then cache_drop k s else s)
    ∙ (unfold cache_drop in ground arith)

evict_one_batch-Counted :
    (batch : ℕ) (s : Store)
    → caching s ≡ false
    → Counted
        (length s.db.rows)
        (evict_one_batch batch s).0
        (evict_one_batch batch s).1
        (evict_one_batch batch s).2.db.rows
      × (caching (evict_one_batch batch s).2 ≡ false)
unfolding evict_one_batch delete_in
evict_one_batch-Counted batch s off = rw off (
  exec_counted-Counted (λ rows. delete_in (oldest_keys batch rows) rows) delete_failed
      rows_affected_failed s.db (λ rows. length-delete_where _ rows),
  off,
)

-- The state of a round: the memory layer is off, and the count is exact.
abbrev Exact : ℕ → ℕ → Store → Type 0
Exact old n s = (caching s ≡ false) × (n + length s.db.rows ≡ old)

after_batch-Counted :
    (old : ℕ) (e : Error) (deleted : ℕ) (next : ℕ → Store → ℕ × Option Error × Store) (now : ℕ)
    (r : ℕ × Option Error × Store)
    → deleted + now ≡ old
    → Counted now r.0 r.1 r.2.db.rows
    → caching r.2 ≡ false
    → ((n : ℕ) (s : Store)
        → Exact old n s
        → Counted old (next n s).0 (next n s).1 (next n s).2.db.rows)
    → Counted old
        (after_batch e deleted next r).0
        (after_batch e deleted next r).1
        (after_batch e deleted next r).2.db.rows
unfolding after_batch
after_batch-Counted old e deleted next now (n, some err, s) h c off keeps = omega (arith, h, c)
after_batch-Counted old e deleted next now (zero, none, s) h c off keeps =
    exact-Counted old deleted none s.db.rows (omega (arith, h, c))
after_batch-Counted old e deleted next now (suc n, none, s) h c off keeps =
    keeps (deleted + suc n) s (off, omega (arith, h, c))

after_usage-Counted :
    (old : ℕ) (limit : ℤ) (deleted : ℕ) (next : Store → ℕ × Option Error × Store)
    (r : ℤ × Option Error × Store)
    → Exact old deleted r.2
    → ((s : Store) → Exact old deleted s → Counted old (next s).0 (next s).1 (next s).2.db.rows)
    → Counted old
        (after_usage limit deleted next r).0
        (after_usage limit deleted next r).1
        (after_usage limit deleted next r).2.db.rows
unfolding after_usage
after_usage-Counted old limit deleted next (sz, some err, s) v keeps =
    exact-Counted old deleted (some evict_size) s.db.rows v.1
after_usage-Counted old limit deleted next (sz, none, s) v keeps =
    elim (Bool-cases (ltb_ℤ sz limit)) [
      | inl below ↦ rw (below, after_usage) (exact-Counted old deleted none s.db.rows v.1)
      | inr over ↦ rw (over, after_usage) (keeps s v)
    ]

after_count-Counted :
    (old batch_size deleted : ℕ) (next : ℕ → Store → ℕ × Option Error × Store)
    (r : ℕ × Option Error × Store)
    → Exact old deleted r.2
    → ((b : ℕ) (s : Store)
        → Exact old deleted s
        → Counted old (next b s).0 (next b s).1 (next b s).2.db.rows)
    → Counted old
        (after_count batch_size deleted next r).0
        (after_count batch_size deleted next r).1
        (after_count batch_size deleted next r).2.db.rows
unfolding after_count
after_count-Counted old batch_size deleted next (rows, some err, s) v keeps =
    exact-Counted old deleted (some err) s.db.rows v.1
after_count-Counted old batch_size deleted next (rows, none, s) v keeps =
    elim (ℕ-cases (batch_of batch_size rows)) [
      | inl last ↦ rw (last, after_count) (exact-Counted old deleted none s.db.rows v.1)
      | inr more ↦ rw (more.1, after_count) (keeps (suc more.0) s v)
    ]

caching-size : (s : Store) → caching (size s).2 ≡ caching s
unfolding size
caching-size s = elim (Bool-cases (ask s.db).0) [
  | inl counted ↦ elim (Bool-cases (ask (read_size (ask s.db).1).1).0) [
    | inl sized ↦ rw (counted, sized) refl
    | inr failed ↦ rw (counted, failed) refl
  ]
  | inr failed ↦ rw failed refl
]

usage-Exact : (old n : ℕ) (s : Store) → Exact old n s → Exact old n (usage s).2
usage-Exact old n s v = ((unfold usage in rw v.0 (caching-size s ∙ v.0)), rw rows-usage v.1)

row_count-Exact : (old n : ℕ) (s : Store) → Exact old n s → Exact old n (row_count s).2
row_count-Exact old n s v = (
  (unfold row_count in
      elim (Bool-cases (ask s.db).0) [ inl ok ↦ rw ok v.0 | inr failed ↦ rw failed v.0 ]),
  rw (row_count_lem s).0 v.1,
)

evict_loop-Counted :
    (old : ℕ) (limit : ℤ) (batch_size deleted runs : ℕ) (s : Store)
    → Exact old deleted s
    → Counted old
        (evict_loop limit batch_size deleted runs s).0
        (evict_loop limit batch_size deleted runs s).1
        (evict_loop limit batch_size deleted runs s).2.db.rows
unfolding evict_loop
evict_loop-Counted old limit batch_size deleted zero s v =
    exact-Counted old deleted none s.db.rows v.1
evict_loop-Counted old limit batch_size deleted (suc runs) s v =
    after_usage-Counted old limit deleted _ (usage s) (usage-Exact old deleted s v) λ s1 v1.
      after_count-Counted old batch_size deleted _ (row_count s1)
        (row_count-Exact old deleted s1 v1)
        λ b s2 v2.
          let c = evict_one_batch-Counted b s2 v2.0 in
          after_batch-Counted old evict_batch deleted _ (length s2.db.rows) (evict_one_batch b s2)
            v2.1 c.0 c.1 λ n s3 v3. evict_loop-Counted old limit batch_size n runs s3 v3

-- The number that a sweep returns, in either mode, and an eviction without the memory layer, is the
-- number of rows that are gone where no error is returned, and at most that number where a call fails.
pub deleted_counts :
    ⦃c : TimeText⦄ (limit batch_size max_runs : ℤ) (now : ℕ) (s s' : Store)
    → caching s' ≡ false
    → Counted
        (length s.db.rows)
        (delete_expired limit now s).0
        (delete_expired limit now s).1
        (delete_expired limit now s).2.db.rows
      × Counted
          (length s'.db.rows)
          (evict_oldest limit batch_size max_runs s').0
          (evict_oldest limit batch_size max_runs s').1
          (evict_oldest limit batch_size max_runs s').2.db.rows
unfolding delete_expired evict_oldest
deleted_counts ⦃c⦄ limit batch_size max_runs now s s' off = (
  elim (Bool-cases (caching s)) [
    | inl on ↦ rw on (
        swept-Counted (length s.db.rows) limit (c.format now) (purge_expired now s.cache s)
          (ap (λ (d : Db). length d.rows) (db-purge_expired now s.cache s)))
    | inr none_on ↦ rw none_on (sweep_db-Counted limit (c.format now) s)
  ],
  elim (Bool-cases (ltb_ℤ (pos 0) batch_size && ltb_ℤ (pos 0) max_runs)) [
    | inl good ↦
        rw (good, off)
          (evict_loop-Counted (length s'.db.rows) limit (pos_part batch_size) 0 (pos_part max_runs)
            s' (off, omega arith))
    | inr bad ↦ rw bad (omega arith)
  ],
)
