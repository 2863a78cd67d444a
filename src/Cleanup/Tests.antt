-- ===== src/Cleanup/Tests.antt =====
-- Evictors and stores for internal/cleanup/cleanup.go, and its theorems at them.
use kvp.Prelude.{◌≡◌, sym, none, some, true, ◌≤◌, arith, refl, [], ◌∷◌}
use kvp.Prelude.Int.{pos}
use kvp.Examples.{clock, point, fresh}
use kvp.Cleanup.{enter, leave}
use kvp.Store.Mode.{same_codes_eq}
use kvp.Store.Sql.{ask}
use kvp.Store.State.{Store}
use kvp.Store.Backup.{
  Folder, codes_le, backup_name, backup_names, is_backup, has_prefix, has_suffix, backup, ask_os,
  has_file, retain_backups, sort_names, insert_name, remove_loop, remove_file, erase_file,
}
use kvp.Store.Backup.Names.{IsFolder, has_name}
use kvp.Store.Backup.Newest.{content_of}
use kvp.Cleanup.Jobs.{run_backup}
use kvp.Cleanup.Backups.{WrittenBy, run_backup_lem}
use kvp.Cleanup.Flight.{
  Flights, here, next, call, return, started, idle_evictor, Spaced, one_at_a_time,
}

-- One pass from 5 to its end, a refused call at 8, and a second pass from 20.
abbrev first_call : Flights
first_call = started 5 (enter 4 5 (idle_evictor 10).evictor) (idle_evictor 10)

abbrev first_done : Flights
first_done = record first_call { evictor = leave first_call.evictor; inside = 0 }

abbrev refused : Flights
refused = started 8 (enter 8 8 first_done.evictor) first_done

abbrev second_call : Flights
second_call = started 20 (enter 19 20 refused.evictor) refused

one_at_a_time_example : (second_call.inside ≤ 1) × Spaced 10 (20 ∷ 5 ∷ [])
unfolding enter leave
one_at_a_time_example = one_at_a_time 10 second_call (
    next (next (next (next here (call 4 5 (omega arith))) (return 0 refl)) (call 8 8 (omega arith)))
      (call 19 20 (omega arith)))

-- A folder with the backup of time 3, and a store with one row.
abbrev one_backup : Folder
one_backup = record {
  files = (record { name = backup_name 3; regular = true; content = [] }) ∷ [];
  outcomes = [];
}

abbrev one_row : Store
one_row = record (fresh (pos 0)) {
  db = record {
    rows = (record { key = "k"; value = 1 ∷ []; expires_at = "xx" }) ∷ [];
    outcomes = [];
    sizes = [];
  };
}

one_backup-WrittenBy : WrittenBy 8 one_backup.files
unfolding backup_names is_backup has_name backup_name has_prefix has_suffix
one_backup-WrittenBy v h =
    (3, omega arith, sym (same_codes_eq (backup_name 3) v (ground (arith, h))))

one_backup_kept : (run_backup true 8 1 one_backup one_row).error ≡ none
unfolding run_backup backup ask_os ask has_file backup_name retain_backups backup_names is_backup
    has_prefix has_suffix sort_names insert_name codes_le remove_loop remove_file erase_file
one_backup_kept = refl

one_backup-IsFolder : IsFolder one_backup.files
unfolding has_file
one_backup-IsFolder = (refl, tt)

run_backup_lem_example :
    (content_of (backup_name 8) (run_backup true 8 1 one_backup one_row).folder.files
      ≡ some one_row.db.rows)
    × ((run_backup true 8 1 one_backup one_row).store.db.rows ≡ one_row.db.rows)
run_backup_lem_example =
    run_backup_lem 8 1 one_backup one_row (omega arith) one_backup-IsFolder one_backup-WrittenBy
      one_backup_kept
