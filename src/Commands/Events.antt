-- ===== src/Commands/Events.antt =====
-- cmd/kvp/main.go: what happens to the running process, one event at a time: requests to the two
-- listeners, the evictions that writes start, the goroutines of `getCached`, and the ticks of the jobs.
use text.Mathlib.Text.{◌==◌ as same_text}
use kvp.Prelude.{not, ℕ, true, Option, none, some, List, [], ◌∷◌, ◌++◌, map, if◌then◌else◌}
use kvp.Prelude.Int.{pos, pos_part}
use kvp.Store.Clock.{TimeText}
use kvp.Store.State.{Error, Store}
use kvp.Store.Read.{run_straggler}
use kvp.Store.Expire.{size, row_count}
use kvp.Store.Backup.{Stamp, ping}
use kvp.Server.Http.{Request, Net}
use kvp.Server.Middleware.{Readings, handle}
use kvp.Cleanup.{Pass, Evictor, run_expiry, run_flush}
use kvp.Cleanup.Jobs.{run_backup}
use kvp.Telemetry.Instruments.{Metrics, Sample, set_db_size, set_db_rows, job_sample}
use kvp.Telemetry.Health.{Health, Probe, Reply, handle_probe}
use kvp.Commands.{Process, evict_with}

pub data Event : Type 0 where
  requested : Readings → Request → Event
  after_write eviction_tick : ℕ → ℕ → Event
  expiry_tick backup_tick : ℕ → Event
  flush_tick gauge_tick : Event
  probed : Probe → Event
  straggled : ℕ → Event

abbrev pub with_store : Process → Store → Process
with_store p s = record p { server = record p.server { store = s } }

-- A job's pass: its store, and its metrics as measurements.
abbrev pub after_pass : Process → Pass → Process
after_pass p pass = record (with_store p pass.store) {
  samples = p.samples ++ map (job_sample p.metrics) pass.metrics;
}

abbrev pub after_evict : Process → Pass × Evictor → Process
after_evict p (pass, e) = record (after_pass p pass) { evictor = e }

-- The two measurements of `sampleDBGauges`; an error is only logged.
abbrev pub size_sample : Metrics → ℕ × Option Error × Store → List Sample
size_sample m (n, none, s) = set_db_size m (pos n) ∷ []
size_sample m (n, some e, s) = []

abbrev pub rows_sample : Metrics → ℕ × Option Error × Store → List Sample
rows_sample m (n, none, s) = set_db_rows m n ∷ []
rows_sample m (n, some e, s) = []

-- One tick of `sampleDBGauges`.
unfoldable pub sample_gauges : Process → Process
sample_gauges p =
    let sized = size p.server.store in
    let counted = row_count sized.2 in
    record (with_store p counted.2) {
      samples = p.samples ++ size_sample p.metrics sized ++ rows_sample p.metrics counted;
    }

abbrev pub after_probe : Process → Option Reply × Health × Store → Process
after_probe p (reply, h, s) = record (with_store p s) { health = h }

module _ ⦃c : TimeText⦄ ⦃net : Net⦄ ⦃st : Stamp⦄ where
  -- What the event makes of the process.
  unfoldable pub react : Event → Process → Process
  react (requested t r) p = record p { server = (handle t r p.server).1 }
  react (after_write checked marked) p =
      after_evict p (evict_with p.cfg checked marked p.evictor p.server.store)
  react (eviction_tick checked marked) p =
      after_evict p (evict_with p.cfg checked marked p.evictor p.server.store)
  react (expiry_tick now) p = after_pass p (run_expiry p.cfg.cleanup_sweep_limit now p.server.store)
  react flush_tick p = after_pass p (run_flush p.server.store)
  react gauge_tick p = sample_gauges p
  react (backup_tick now) p =
      if not (same_text p.cfg.backup_dir "")
      then (let pass =
            run_backup true now (pos_part p.cfg.backup_retention) p.folder p.server.store in
          record (with_store p pass.store) {
            folder = pass.folder;
            samples = p.samples ++ map (job_sample p.metrics) pass.metrics;
          })
      else p
  react (straggled n) p = with_store p (run_straggler n p.server.store)
  react (probed r) p = after_probe p (handle_probe ping r p.health p.server.store)

  unfoldable pub react_all : List Event → Process → Process
  react_all [] p = p
  react_all (e ∷ es) p = react_all es (react e p)
