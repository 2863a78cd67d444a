-- ===== src/Cleanup/Safety.antt =====
-- internal/cleanup/cleanup.go: what the jobs keep of the store, and what they report.
use kvp.Prelude.{ℕ, suc, zero, Option, none, some, inl, inr, Bool-cases}
use kvp.Prelude.Int.{ℤ, ltb_ℤ}
use kvp.Store.Clock.{TimeText}
use kvp.Store.State.{Error, Store}
use kvp.Store.Expire.{usage}
use kvp.Store.Valid.{IsValid}
use kvp.Store.Safety.Writes.{flush-IsValid}
use kvp.Store.Safety.Reads.{asked-IsValid}
use kvp.Store.Safety.Sweeps.{delete_expired-IsValid}
use kvp.Store.Safety.Evictions.{evict_oldest-IsValid, usage-IsValid}
use kvp.Cleanup.{
  Pass, sweep_pass, flush_pass, vacuum, evict_pass, checked_pass, run_flush, run_expiry, run_evict,
}

vacuum-IsValid : (n : ℕ) (s : Store) → IsValid s → IsValid (vacuum n s)
vacuum-IsValid zero s v = v
vacuum-IsValid (suc n) s v = asked-IsValid v

module _ ⦃c : TimeText⦄ where
  sweep_pass-IsValid : (r : ℕ × Option Error × Store) → IsValid r.2 → IsValid (sweep_pass r).store
  sweep_pass-IsValid (n, some e, s) v = v
  sweep_pass-IsValid (n, none, s) v = v

  flush_pass-IsValid : (r : ℕ × Option Error × Store) → IsValid r.2 → IsValid (flush_pass r).store
  flush_pass-IsValid (n, some e, s) v = v
  flush_pass-IsValid (n, none, s) v = v

  evict_pass-IsValid : (r : ℕ × Option Error × Store) → IsValid r.2 → IsValid (evict_pass r).store
  evict_pass-IsValid (n, some e, s) v = v
  evict_pass-IsValid (n, none, s) v = vacuum-IsValid n s v

  checked_pass-IsValid :
      (limit : ℤ) (next : Store → Pass) (r : ℤ × Option Error × Store)
      → IsValid r.2
      → ((s : Store) → IsValid s → IsValid (next s).store)
      → IsValid (checked_pass limit next r).store
  checked_pass-IsValid limit next (sz, some e, s) v keeps = v
  checked_pass-IsValid limit next (sz, none, s) v keeps = elim (Bool-cases (ltb_ℤ sz limit)) [
    | inl below ↦ rw below v
    | inr over ↦ rw over (keeps s v)
  ]

  -- The passes of the jobs keep the store's invariant, also where they fail part of the way.
  pub run_expiry-IsValid :
      (limit : ℤ) (now : ℕ) (s : Store) → IsValid s → IsValid (run_expiry limit now s).store
  unfolding run_expiry
  run_expiry-IsValid limit now s v = sweep_pass-IsValid _ (delete_expired-IsValid limit now s v)

  pub run_evict-IsValid :
      (limit batch_size max_runs : ℤ) (s : Store)
      → IsValid s
      → IsValid (run_evict limit batch_size max_runs s).store
  unfolding run_evict
  run_evict-IsValid limit batch_size max_runs s v =
      checked_pass-IsValid limit _ (usage s) (usage-IsValid s v)
        λ s' v'. evict_pass-IsValid _ (evict_oldest-IsValid limit batch_size max_runs s' v')

  pub run_flush-IsValid : (s : Store) → IsValid s → IsValid (run_flush s).store
  unfolding run_flush
  run_flush-IsValid s v = flush_pass-IsValid _ (flush-IsValid s v)
