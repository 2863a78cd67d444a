-- ===== src/Commands/Valid.antt =====
-- cmd/kvp/main.go: every event of the running process keeps the store's invariant.
use mathlib.Core.Path.{subst}
use kvp.Prelude.{ℕ, sym, List, [], ◌∷◌, inl, inr, Bool-cases}
use kvp.Store.Clock.{TimeText}
use kvp.Store.Rows.{IsKeyed}
use kvp.Store.State.{Store}
use kvp.Store.Valid.{IsValid, with_db-IsValid}
use kvp.Store.Safety.Reads.{run_straggler-IsValid}
use kvp.Store.Backup.{Stamp}
use kvp.Server.Http.{Net}
use kvp.Server.Safety.{handle-IsValid}
use kvp.Cleanup.{Pass, Evictor, enter, maybe_evict}
use kvp.Cleanup.Safety.{run_expiry-IsValid, run_evict-IsValid, run_flush-IsValid}
use kvp.Commands.{Process, evict_with}
use kvp.Commands.Events.{
  Event, straggled, after_evict, requested, after_write, eviction_tick, expiry_tick, backup_tick,
  flush_tick, gauge_tick, probed, react, react_all,
}
use kvp.Commands.Keeps.{Calls, gauge_tick-keeps, backup_tick-keeps, probed-keeps}

module _ ⦃c : TimeText⦄ where
  Calls-IsValid : (s s' : Store) → Calls s s' → IsValid s → IsValid s'
  Calls-IsValid s s' (d, rows, same) v =
      subst IsValid (sym same) (with_db-IsValid d v (subst IsKeyed (sym rows) v.rows_keyed))

  after_evict-IsValid :
      (p : Process) (r : Pass × Evictor)
      → IsValid r.0.store
      → IsValid (after_evict p r).server.store
  after_evict-IsValid p (pass, e) v = v

  evict-IsValid :
      (checked marked : ℕ) (p : Process)
      → IsValid p.server.store
      → IsValid
          (after_evict p (evict_with p.cfg checked marked p.evictor p.server.store)).server.store
  evict-IsValid checked marked p v =
      after_evict-IsValid p (evict_with p.cfg checked marked p.evictor p.server.store) passed
    where
      passed : IsValid (evict_with p.cfg checked marked p.evictor p.server.store).0.store
      passed =
          unfold maybe_evict in
          elim (Bool-cases (enter checked marked p.evictor).0) [
            | inl go ↦ rw go (run_evict-IsValid _ _ _ p.server.store v)
            | inr busy ↦ rw busy v
          ]

module _ ⦃c : TimeText⦄ ⦃net : Net⦄ ⦃st : Stamp⦄ where
  react-IsValid :
      (e : Event) (p : Process) → IsValid p.server.store → IsValid (react e p).server.store
  unfolding react
  react-IsValid (requested t r) p v = handle-IsValid t r p.server v
  react-IsValid (after_write checked marked) p v = evict-IsValid checked marked p v
  react-IsValid (eviction_tick checked marked) p v = evict-IsValid checked marked p v
  react-IsValid (expiry_tick now) p v = run_expiry-IsValid _ now p.server.store v
  react-IsValid flush_tick p v = run_flush-IsValid p.server.store v
  react-IsValid gauge_tick p v = gauge_tick-keeps IsValid Calls-IsValid p v
  react-IsValid (backup_tick now) p v = backup_tick-keeps IsValid Calls-IsValid now p v
  react-IsValid (probed r) p v = probed-keeps IsValid Calls-IsValid r p v
  react-IsValid (straggled n) p v = run_straggler-IsValid n p.server.store v

  -- The store's invariant holds after every history of the running process: requests, the passes of
  -- every job (expiry, eviction, flush, backup, samples), probes and the background deletions, in any
  -- order, and also where their calls fail.
  pub react_all-IsValid :
      (es : List Event) (p : Process)
      → IsValid p.server.store
      → IsValid (react_all es p).server.store
  unfolding react_all
  react_all-IsValid [] p v = v
  react_all-IsValid (e ∷ es) p v = react_all-IsValid es (react e p) (react-IsValid e p v)
