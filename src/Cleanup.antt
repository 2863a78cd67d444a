-- ===== src/Cleanup.antt =====
-- internal/cleanup/cleanup.go: one pass of each background job on the store, with the metrics that it
-- reports, and the guard of the evictor. The interfaces `Store` and `Metrics` are met by
-- internal/store and by the list of calls.
pub mod Safety
pub mod Flight
pub mod Jobs
pub mod Backups
mod Tests
use kvp.Prelude.{
  ℕ, suc, zero, ◌+◌, ◌-◌, String, Bool, true, false, Option, none, some, List, [], ◌∷◌, ltb,
  if◌then◌else◌,
}
use kvp.Prelude.Int.{ℤ, pos, ltb_ℤ}
use kvp.Store.Clock.{TimeText}
use kvp.Store.Sql.{ask}
use kvp.Store.State.{Error, Store, dirty_count}
use kvp.Store.Write.{flush}
use kvp.Store.Expire.{delete_expired, usage}
use kvp.Store.Evict.{evict_oldest}

-- A call of the interface `Metrics`.
pub data Metric : Type 0 where
  cleanup_run : String → String → Metric
  cleanup_deleted : String → ℕ → Metric
  flush_run : String → Metric
  dirty_entries : ℕ → Metric

-- What a pass returns, the metrics that it reports, in order, and the store.
pub record Pass : Type 0 where
  pub count : ℕ
  pub error : Option Error
  pub metrics : List Metric
  pub store : Store

abbrev pub sweep_pass : ℕ × Option Error × Store → Pass
sweep_pass (n, some e, s) = record {
  count = n;
  error = some e;
  metrics = cleanup_run "expiry" "error" ∷ [];
  store = s;
}
sweep_pass (n, none, s) = record {
  count = n;
  error = none;
  metrics = cleanup_run "expiry" "ok" ∷ cleanup_deleted "expiry" n ∷ [];
  store = s;
}

abbrev pub flushed_metrics : ℕ → ℕ → List Metric
flushed_metrics zero dirty = dirty_entries dirty ∷ []
flushed_metrics (suc n) dirty = dirty_entries dirty ∷ flush_run "ok" ∷ []

abbrev pub flush_pass : ℕ × Option Error × Store → Pass
flush_pass (n, some e, s) = record {
  count = n;
  error = some e;
  metrics = dirty_entries (dirty_count s) ∷ flush_run "error" ∷ [];
  store = s;
}
flush_pass (n, none, s) = record {
  count = n;
  error = none;
  metrics = flushed_metrics n (dirty_count s);
  store = s;
}

-- The incremental vacuum after a pass that deleted something; its failure is only logged, and it
-- changes no row.
abbrev pub vacuum : ℕ → Store → Store
vacuum zero s = s
vacuum (suc n) s = record s { db = (ask s.db).1 }

abbrev pub evict_pass : ℕ × Option Error × Store → Pass
evict_pass (n, some e, s) = record {
  count = n;
  error = some e;
  metrics = cleanup_run "size" "error" ∷ [];
  store = s;
}
evict_pass (n, none, s) = record {
  count = n;
  error = none;
  metrics = cleanup_run "size" "ok" ∷ cleanup_deleted "size" n ∷ [];
  store = vacuum n s;
}

-- The size check of Evictor.RunOnce: an error or a size below the limit ends the pass.
abbrev pub checked_pass : ℤ → (Store → Pass) → ℤ × Option Error × Store → Pass
checked_pass limit next (sz, some e, s) = record {
  count = 0;
  error = some e;
  metrics = cleanup_run "size" "error" ∷ [];
  store = s;
}
checked_pass limit next (sz, none, s) =
    if ltb_ℤ sz limit then record { count = 0; error = none; metrics = []; store = s } else next s

module _ ⦃c : TimeText⦄ where
  -- Flusher.RunOnce
  unfoldable pub run_flush : Store → Pass
  run_flush s = flush_pass (flush s)

  -- ExpiryRunner.RunOnce
  unfoldable pub run_expiry : ℤ → ℕ → Store → Pass
  run_expiry sweep_limit now s = sweep_pass (delete_expired sweep_limit now s)

  -- Evictor.RunOnce
  unfoldable pub run_evict : ℤ → ℤ → ℤ → Store → Pass
  run_evict limit batch_size max_runs s =
      checked_pass limit (λ s'. evict_pass (evict_oldest limit batch_size max_runs s')) (usage s)

-- The fields of Evictor that its mutex guards, and the throttle. `last_run` is none for the zero
-- time, which lies further back than any throttle.
pub record Evictor : Type 0 where
  pub throttle : ℕ
  pub running : Bool
  pub last_run : Option ℕ

-- `e.now().Sub(e.lastRun) < e.throttle`
abbrev pub too_soon : ℕ → ℕ → Option ℕ → Bool
too_soon throttle now none = false
too_soon throttle now (some last) = ltb now (last + throttle)

-- The first critical section of MaybeEvict, with its two readings of the clock: whether the caller
-- goes on to a pass.
unfoldable pub enter : ℕ → ℕ → Evictor → Bool × Evictor
enter checked marked e =
    if e.running
    then (false, e)
    else if too_soon e.throttle checked e.last_run
    then (false, e)
    else (true, record e { running = true; last_run = some marked })

-- The second critical section.
unfoldable pub leave : Evictor → Evictor
leave e = record e { running = false }

module _ ⦃c : TimeText⦄ where
  -- MaybeEvict where no other caller runs meanwhile.
  unfoldable pub maybe_evict : ℕ → ℕ → ℤ → ℤ → ℤ → Evictor → Store → Pass × Evictor
  maybe_evict checked marked limit batch_size max_runs e s =
      let (go, e') = enter checked marked e in
      if go
      then (run_evict limit batch_size max_runs s, leave e')
      else (record { count = 0; error = none; metrics = []; store = s }, e)
