-- ===== src/Commands/Keeps.antt =====
-- cmd/kvp/main.go: what the samples, the backups and the probes of the running process keep of the
-- store, because they change no row.
use text.Mathlib.Text.{◌==◌ as same_text}
use mathlib.Core.Path.{subst}
use kvp.Prelude.{
  ℕ, Bool, true, false, ◌≡◌, refl, sym, Option, none, some, List, Bool-cases, inl, inr,
}
use kvp.Prelude.Int.{pos_part}
use kvp.Assoc.{lookup}
use kvp.Store.Clock.{TimeText}
use kvp.Store.Sql.{Db, ask, read_size}
use kvp.Store.Rows.{rows-ask}
use kvp.Store.State.{Error, Store}
use kvp.Store.Expire.{size, row_count}
use kvp.Store.Floor.{rows-size}
use kvp.Store.Backup.{
  FileError, Folder, Stamp, ping, ask_os, has_file, backup_name, backup, retain_backups,
}
use kvp.Server.Http.{Net}
use kvp.Cleanup.{flush_pass}
use kvp.Cleanup.Jobs.{after_retain, after_backup, run_backup}
use kvp.Telemetry.Health.{
  Health, Probe, ping_ok, readiness, answer_ready, is_one, is_recent, handle_probe,
}
use kvp.Commands.{Process}
use kvp.Commands.Events.{backup_tick, gauge_tick, probed, sample_gauges, react}

module _ ⦃c : TimeText⦄ where
  -- Calls into the database that change no row.
  abbrev pub Calls : Store → Store → Type 0
  Calls s s' = (d : Db) × (d.rows ≡ s.db.rows) × (s' ≡ record s { db = d })

  ask-Calls : (s : Store) → Calls s (record s { db = (ask s.db).1 })
  ask-Calls s = ((ask s.db).1, rows-ask s.db, refl)

  ping-Calls : (s : Store) → Calls s (ping s).1
  unfolding ping
  ping-Calls s = ask-Calls s

  size-Calls : (s : Store) → Calls s (size s).2
  size-Calls s = ((size s).2.db, rows-size s, same)
    where
      same : (size s).2 ≡ record s { db = (size s).2.db }
      same =
          unfold size in
          elim (Bool-cases (ask s.db).0) [
            | inr failed ↦ rw failed refl
            | inl done ↦ elim (Bool-cases (ask (read_size (ask s.db).1).1).0) [
              | inl good ↦ rw (done, good) refl
              | inr bad ↦ rw (done, bad) refl
            ]
          ]

  row_count-Calls : (s : Store) → Calls s (row_count s).2
  unfolding row_count
  row_count-Calls s = elim (Bool-cases (ask s.db).0) [
    | inl done ↦ rw done (ask-Calls s)
    | inr failed ↦ rw failed (ask-Calls s)
  ]

  pub flush_pass-store : (r : ℕ × Option Error × Store) → (flush_pass r).store ≡ r.2
  flush_pass-store (n, none, s) = refl
  flush_pass-store (n, some e, s) = refl

  after_retain-store :
      (r : ℕ × Option FileError × Folder) (s : Store) → (after_retain r s).store ≡ s
  after_retain-store (n, some e, d) s = refl
  after_retain-store (n, none, d) s = refl

  after_backup-store :
      (n : ℕ) (b : (List ℕ × Option FileError) × Folder × Store) → (after_backup n b).store ≡ b.2
  after_backup-store n ((path, some e), d, s) = refl
  after_backup-store n ((path, none), d, s) = after_retain-store (retain_backups n d) s

module _ ⦃c : TimeText⦄ (P : Store → Type 0) (keep : (s s' : Store) → Calls s s' → P s → P s') where
  backup-keeps : ⦃st : Stamp⦄ (now : ℕ) (d : Folder) (s : Store) → P s → P (backup true now d s).2
  unfolding backup
  backup-keeps now d s i = elim (Bool-cases (ask_os d).0) [
    | inr failed ↦ rw failed i
    | inl made ↦
        let asked = keep s _ (ask-Calls s) i in
        elim (Bool-cases (ask s.db).0) [
          | inr refused ↦ rw (made, refused) asked
          | inl run ↦ elim (Bool-cases (has_file (backup_name now) (ask_os d).1.files)) [
            | inl there ↦ rw (made, run, there) asked
            | inr absent ↦ rw (made, run, absent) asked
          ]
        ]
  ]

  -- A probe pings the database at most.
  ping_ok-keeps :
      (full : Bool) (r : Probe) (h : Health) (s : Store) → P s → P (ping_ok ping full r h s).2
  unfolding ping_ok
  ping_ok-keeps true r h s i = keep s _ (ping-Calls s) i
  ping_ok-keeps false r h s i = elim (Bool-cases (is_recent h.cache_ttl r.since_at h.last)) [
    | inl recent ↦ rw recent i
    | inr old ↦ rw old (keep s _ (ping-Calls s) i)
  ]

  answer_ready-store : (a : Bool × Health × Store) → (answer_ready ping a).2 ≡ a.2
  answer_ready-store (true, h, s) = refl
  answer_ready-store (false, h, s) = refl

  handle_probe-keeps : (r : Probe) (h : Health) (s : Store) → P s → P (handle_probe ping r h s).2
  unfolding handle_probe readiness
  handle_probe-keeps r h s i = elim (Bool-cases (same_text r.path "/healthz")) [
    | inl live ↦ rw live i
    | inr other ↦ elim (Bool-cases (same_text r.path "/readyz")) [
      | inr neither ↦ rw (other, neither) i
      | inl ready ↦ elim (Bool-cases (same_text r.method "GET")) [
        | inr method ↦ rw (other, ready, method) i
        | inl get ↦ elim (Bool-cases h.draining) [
          | inl draining ↦ rw (other, ready, get, draining) i
          | inr up ↦
              let h' : Health = record h { draining = false } in
              let full = is_one (lookup "full" r.query) in
              rw (other, ready, get, up)
                (subst P (sym (answer_ready-store (ping_ok ping full r h' s)))
                  (ping_ok-keeps full r h' s i))
        ]
      ]
    ]
  ]

module _ ⦃c : TimeText⦄ ⦃net : Net⦄ ⦃st : Stamp⦄ (P : Store → Type 0)
    (keep : (s s' : Store) → Calls s s' → P s → P s') where
  pub gauge_tick-keeps : (p : Process) → P p.server.store → P (react gauge_tick p).server.store
  unfolding react sample_gauges
  gauge_tick-keeps p u =
      let sized = (size p.server.store).2 in
      keep sized (row_count sized).2 (row_count-Calls sized)
        (keep p.server.store sized (size-Calls p.server.store) u)

  pub backup_tick-keeps :
      (now : ℕ) (p : Process) → P p.server.store → P (react (backup_tick now) p).server.store
  unfolding react run_backup
  backup_tick-keeps now p u = elim (Bool-cases (same_text p.cfg.backup_dir "")) [
    | inl off ↦ rw off u
    | inr on ↦ rw on (
        subst P
          (sym (
            after_backup-store (pos_part p.cfg.backup_retention)
              (backup true now p.folder p.server.store)))
          (backup-keeps P keep now p.folder p.server.store u))
  ]

  pub probed-keeps :
      (r : Probe) (p : Process) → P p.server.store → P (react (probed r) p).server.store
  unfolding react
  probed-keeps r p u = handle_probe-keeps P keep r p.health p.server.store u
