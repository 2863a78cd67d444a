-- ===== src/Store/Floor.antt =====
-- internal/store/store.go: evictOldest never empties the table, and what it counts.
use kvp.Store.Losses.{evict_one_batch-Loses}
use kvp.Prelude.{
  ℕ, suc, zero, ◌+◌, ◌<◌, ◌≡◌, refl, ap, sym, false, ◌&&◌, Option, none, some, List, arith, inl,
  inr, ◌∙◌, Bool-cases, ℕ-cases, length,
}
use kvp.Prelude.Int.{ℤ, pos, ltb_ℤ}
use kvp.Store.Clock.{TimeText}
use kvp.Store.Sql.{Row, ask, read_size}
use kvp.Store.Rows.{IsKeyed, rows-ask}
use kvp.Store.State.{Error, Store, caching, evict_batch}
use kvp.Store.Expire.{row_count, size, usage}
use kvp.Store.Evict.{
  evict_one_batch, batch_of, after_batch, after_usage, after_count, evict_loop, evict_oldest,
}
use kvp.Store.Safety.Evictions.{rows-read_size}

pub rows-size : (s : Store) → (size s).2.db.rows ≡ s.db.rows
unfolding size
rows-size s = elim (Bool-cases (ask s.db).0) [
  | inl counted ↦ elim (Bool-cases (ask (read_size (ask s.db).1).1).0) [
    | inl sized ↦ rw (counted, sized) (rows-read_size _ ∙ same)
    | inr failed ↦ rw (counted, failed) same
  ]
  | inr failed ↦ rw failed (rows-ask s.db)
]
  where
    same : (ask (read_size (ask s.db).1).1).1.rows ≡ s.db.rows
    same = rows-ask _ ∙ rows-read_size (ask s.db).1 ∙ rows-ask s.db

pub rows-usage : (s : Store) → (usage s).2.db.rows ≡ s.db.rows
unfolding usage
rows-usage s = elim (Bool-cases (caching s)) [ inl on ↦ rw on | inr off ↦ rw off (rows-size s) ]

pub row_count_lem :
    (s : Store)
    → ((row_count s).2.db.rows ≡ s.db.rows)
      × ((row_count s).1 ≡ none → (row_count s).0 ≡ length s.db.rows)
unfolding row_count
row_count_lem s = elim (Bool-cases (ask s.db).0) [
  | inl ok ↦ rw ok (rows-ask s.db, λ h. ap length (rows-ask s.db))
  | inr failed ↦ rw failed (rows-ask s.db, λ h. cc h)
]

-- The table is not empty, and its keys are distinct.
abbrev Stocked : List Row → Type 0
Stocked rows = IsKeyed rows × (0 < length rows)

after_batch-Stocked :
    (e : Error) (deleted : ℕ) (next : ℕ → Store → ℕ × Option Error × Store)
    (r : ℕ × Option Error × Store)
    → Stocked r.2.db.rows
    → ((n : ℕ) (s : Store) → Stocked s.db.rows → Stocked (next n s).2.db.rows)
    → Stocked (after_batch e deleted next r).2.db.rows
unfolding after_batch
after_batch-Stocked e deleted next (n, some err, s) v keeps = v
after_batch-Stocked e deleted next (zero, none, s) v keeps = v
after_batch-Stocked e deleted next (suc n, none, s) v keeps = keeps (deleted + suc n) s v

after_usage-Stocked :
    (limit : ℤ) (deleted : ℕ) (next : Store → ℕ × Option Error × Store)
    (r : ℤ × Option Error × Store)
    → Stocked r.2.db.rows
    → ((s : Store) → Stocked s.db.rows → Stocked (next s).2.db.rows)
    → Stocked (after_usage limit deleted next r).2.db.rows
unfolding after_usage
after_usage-Stocked limit deleted next (sz, some err, s) v keeps = v
after_usage-Stocked limit deleted next (sz, none, s) v keeps = elim (Bool-cases (ltb_ℤ sz limit)) [
  | inl below ↦ rw (below, after_usage) v
  | inr over ↦ rw (over, after_usage) (keeps s v)
]

after_count-Stocked :
    (batch_size deleted : ℕ) (next : ℕ → Store → ℕ × Option Error × Store)
    (r : ℕ × Option Error × Store)
    → (r.1 ≡ none → r.0 ≡ length r.2.db.rows)
    → Stocked r.2.db.rows
    → ((b : ℕ) (s : Store)
        → Stocked s.db.rows
        → b < length s.db.rows
        → Stocked (next b s).2.db.rows)
    → Stocked (after_count batch_size deleted next r).2.db.rows
unfolding after_count
after_count-Stocked batch_size deleted next (rows, some err, s) count v keeps = v
after_count-Stocked batch_size deleted next (rows, none, s) count v keeps =
    elim (ℕ-cases (batch_of batch_size rows)) [
      | inl last ↦ rw (last, after_count) v
      | inr more ↦ rw (more.1, after_count) (keeps (suc more.0) s v (fewer more.0 more.1))
    ]
  where
    fewer : (b : ℕ) → batch_of batch_size rows ≡ suc b → suc b < length s.db.rows
    fewer b e = ground (arith, count refl)

evict_loop-Stocked :
    (limit : ℤ) (batch_size deleted runs : ℕ) (s : Store)
    → Stocked s.db.rows
    → Stocked (evict_loop limit batch_size deleted runs s).2.db.rows
unfolding evict_loop
evict_loop-Stocked limit batch_size deleted zero s v = v
evict_loop-Stocked limit batch_size deleted (suc runs) s v =
    after_usage-Stocked limit deleted _ (usage s) (rw rows-usage v) λ s1 v1.
      after_count-Stocked batch_size deleted _ (row_count s1)
        (λ h. (row_count_lem s1).1 h ∙ ap length (sym (row_count_lem s1).0))
        (rw (row_count_lem s1).0 v1)
        λ b s2 v2 fewer.
          after_batch-Stocked evict_batch deleted _ (evict_one_batch b s2)
            (let lost = evict_one_batch-Loses b s2 v2.0 in (lost.0, omega (arith, lost.1)))
            λ n s3 v3. evict_loop-Stocked limit batch_size n runs s3 v3

-- Without the memory layer an eviction never empties a table that had a row, whatever the sizes
-- that SQLite reports, whatever the batch size and the number of runs, and wherever a call fails.
pub evict_never_empties :
    ⦃c : TimeText⦄ (limit batch_size max_runs : ℤ) (s : Store)
    → caching s ≡ false
    → IsKeyed s.db.rows
    → 0 < length s.db.rows
    → 0 < length (evict_oldest limit batch_size max_runs s).2.db.rows
unfolding evict_oldest
evict_never_empties limit batch_size max_runs s off k some_row =
    elim (Bool-cases (ltb_ℤ (pos 0) batch_size && ltb_ℤ (pos 0) max_runs)) [
      | inl good ↦ rw (good, off) (evict_loop-Stocked limit _ 0 _ s (k, some_row)).1
      | inr bad ↦ rw bad some_row
    ]
