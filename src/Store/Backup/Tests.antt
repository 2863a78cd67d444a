-- ===== src/Store/Backup/Tests.antt =====
-- A folder for `RetainBackups`, and its theorem at it.
use kvp.Prelude.{◌-◌, ◌≤◌, ◌≡◌, refl, true, false, none, [], ◌∷◌, length, drop}
use kvp.Store.Mode.{codes}
use kvp.Store.Backup.{Folder, backup_names, sort_names, retain_backups, has_file}
use kvp.Store.Backup.Names.{IsFolder, others}
use kvp.Store.Backup.Retention.{retain_backups_lem}

-- Three backups and another file; the second removal fails.
abbrev directory : Folder
directory = record {
  files =
      (record { name = codes "kvp-3.db"; regular = true; content = [] })
      ∷ (record { name = codes "notes"; regular = true; content = [] })
      ∷ (record { name = codes "kvp-1.db"; regular = true; content = [] })
      ∷ (record { name = codes "kvp-2.db"; regular = true; content = [] })
      ∷ [];
  outcomes = true ∷ true ∷ false ∷ [];
}

directory-IsFolder : IsFolder directory.files
unfolding has_file
directory-IsFolder = (refl, (refl, (refl, (refl, tt))))

retain_backups_lem_example :
    (sort_names (backup_names (retain_backups 1 directory).2.files)
      ≡ drop (retain_backups 1 directory).0 (sort_names (backup_names directory.files)))
    × ((retain_backups 1 directory).0 ≤ length (backup_names directory.files) - 1)
    × ((retain_backups 1 directory).1 ≡ none
        → (retain_backups 1 directory).0 ≡ length (backup_names directory.files) - 1)
    × (others (retain_backups 1 directory).2.files ≡ others directory.files)
retain_backups_lem_example = retain_backups_lem 1 directory directory-IsFolder
