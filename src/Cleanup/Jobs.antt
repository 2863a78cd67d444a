-- ===== src/Cleanup/Jobs.antt =====
-- internal/cleanup/cleanup.go: the Backuper's pass, and the loops of the four jobs over the ticks of
-- their tickers until the context is cancelled. A tick is the clock's reading.
use kvp.Prelude.{ℕ, Bool, true, Option, none, some, List, [], ◌∷◌, ◌++◌, if◌then◌else◌}
use kvp.Prelude.Int.{ℤ}
use kvp.Store.Clock.{TimeText}
use kvp.Store.State.{Store}
use kvp.Store.Backup.{FileError, Folder, Stamp, backup, retain_backups}
use kvp.Cleanup.{Metric, cleanup_run, Pass, Evictor, run_expiry, run_flush, maybe_evict}

-- What a pass of the Backuper returns, its metrics, the folder and the store.
pub record BackupPass : Type 0 where
  pub error : Option FileError
  pub metrics : List Metric
  pub folder : Folder
  pub store : Store

abbrev pub failed_backup : FileError → Folder → Store → BackupPass
failed_backup e d s = record {
  error = some e;
  metrics = cleanup_run "backup" "error" ∷ [];
  folder = d;
  store = s;
}

abbrev pub after_retain : ℕ × Option FileError × Folder → Store → BackupPass
after_retain (n, some e, d) s = failed_backup e d s
after_retain (n, none, d) s = record {
  error = none;
  metrics = cleanup_run "backup" "ok" ∷ [];
  folder = d;
  store = s;
}

abbrev pub after_backup : ℕ → (List ℕ × Option FileError) × Folder × Store → BackupPass
after_backup n ((path, some e), d, s) = failed_backup e d s
after_backup n ((path, none), d, s) = after_retain (retain_backups n d) s

module _ ⦃st : Stamp⦄ where
  -- Backuper.RunOnce
  unfoldable pub run_backup : Bool → ℕ → ℕ → Folder → Store → BackupPass
  run_backup configured now retention d s = after_backup retention (backup configured now d s)

  -- The ticks of Backuper.Run.
  unfoldable pub backup_ticks : List ℕ → ℕ → Folder → Store → List Metric × Folder × Store
  backup_ticks [] retention d s = ([], d, s)
  backup_ticks (now ∷ ticks) retention d s =
      let pass = run_backup true now retention d s in
      let (metrics, d', s') = backup_ticks ticks retention pass.folder pass.store in
      (pass.metrics ++ metrics, d', s')

  -- Backuper.Run, which does nothing where no folder is configured.
  unfoldable pub backup_loop : Bool → List ℕ → ℕ → Folder → Store → List Metric × Folder × Store
  backup_loop configured ticks retention d s =
      if configured then backup_ticks ticks retention d s else ([], d, s)

-- The ticks of a job whose pass is given.
unfoldable pub each_tick : (ℕ → Store → Pass) → List ℕ → Store → List Metric × Store
each_tick job [] s = ([], s)
each_tick job (now ∷ ticks) s =
    let pass = job now s in
    let (metrics, s') = each_tick job ticks pass.store in (pass.metrics ++ metrics, s')

module _ ⦃c : TimeText⦄ where
  -- ExpiryRunner.Run, with a pass at once.
  unfoldable pub expiry_loop : ℤ → ℕ → List ℕ → Store → List Metric × Store
  expiry_loop sweep_limit now ticks s = each_tick (run_expiry sweep_limit) (now ∷ ticks) s

  -- Flusher.Run, with a pass at once.
  unfoldable pub flush_loop : ℕ → List ℕ → Store → List Metric × Store
  flush_loop now ticks s = each_tick (λ _ s'. run_flush s') (now ∷ ticks) s

  -- Evictor.RunLoop where no other caller runs meanwhile; a tick comes with its two readings.
  unfoldable pub evict_ticks :
      ℤ → ℤ → ℤ → List (ℕ × ℕ) → Evictor → Store → List Metric × Evictor × Store
  evict_ticks limit batch_size max_runs [] e s = ([], e, s)
  evict_ticks limit batch_size max_runs ((checked, marked) ∷ ticks) e s =
      let (pass, e') = maybe_evict checked marked limit batch_size max_runs e s in
      let (metrics, e'', s') = evict_ticks limit batch_size max_runs ticks e' pass.store in
      (pass.metrics ++ metrics, e'', s')
