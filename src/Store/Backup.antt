-- ===== src/Store/Backup.antt =====
-- internal/store/store.go: `Backup`, `RetainBackups`, `Ping` and `IncrementalVacuum`. The folder of the
-- backups is a list of entries with distinct names; which of the calls into the operating system
-- succeed is an input, as for the database. A name is the list of its code points.
pub mod Order
pub mod Names
pub mod Retention
pub mod Newest
mod Tests
use kvp.Prelude.{
  ℕ, zero, suc, ◌+◌, ◌-◌, ◌≤◌, ◌≡◌, String, Bool, true, false, ◌&&◌, ◌||◌, not, Option, none, some,
  List, [], ◌∷◌, ◌++◌, map, ltb, ◌==◌, if◌then◌else◌, length, take, drop,
}
use kvp.Store.Mode.{codes, same_codes}
use kvp.Store.Sql.{Row, Db, ask}
use kvp.Store.State.{Store}

-- A directory entry; for a backup, the rows that it holds.
pub record File : Type 0 where
  pub name : List ℕ
  pub regular : Bool
  pub content : List Row

pub record Folder : Type 0 where
  pub files : List File
  pub outcomes : List Bool

abbrev pub answer_os : Folder → List Bool → Bool × Folder
answer_os d [] = (true, d)
answer_os d (b ∷ bs) = (b, record d { outcomes = bs })

-- One call into the operating system.
unfoldable pub ask_os : Folder → Bool × Folder
ask_os d = answer_os d d.outcomes

-- What the errors of this file tell apart.
pub data FileError : Type 0 where
  no_folder mkdir_failed vacuum_failed read_failed : FileError
  remove_failed : List ℕ → FileError

unfoldable pub has_prefix : List ℕ → List ℕ → Bool
has_prefix text [] = true
has_prefix [] (c ∷ cs) = false
has_prefix (a ∷ text) (c ∷ cs) = a == c && has_prefix text cs

-- `strings.HasSuffix`
unfoldable pub has_suffix : List ℕ → List ℕ → Bool
has_suffix [] suffix = same_codes [] suffix
has_suffix (a ∷ text) suffix =
    let rest = has_suffix text suffix in same_codes (a ∷ text) suffix || rest

unfoldable pub is_backup : File → Bool
is_backup f = f.regular && has_prefix f.name (codes "kvp-") && has_suffix f.name (codes ".db")

-- The names of the backups, in the order of the directory.
unfoldable pub backup_names : List File → List (List ℕ)
backup_names [] = []
backup_names (f ∷ files) =
    let rest = backup_names files in if is_backup f then f.name ∷ rest else rest

-- The order of Go's strings.
unfoldable pub codes_le : List ℕ → List ℕ → Bool
codes_le [] bs = true
codes_le (a ∷ as') [] = false
codes_le (a ∷ as') (b ∷ bs) =
    let rest = codes_le as' bs in if ltb a b then true else if a == b then rest else false

unfoldable pub insert_name : List ℕ → List (List ℕ) → List (List ℕ)
insert_name x [] = x ∷ []
insert_name x (y ∷ ys) =
    let rest = insert_name x ys in if codes_le x y then x ∷ y ∷ ys else y ∷ rest

-- `sort.Strings(files)`; the paths differ in their last part only.
unfoldable pub sort_names : List (List ℕ) → List (List ℕ)
sort_names [] = []
sort_names (x ∷ xs) = insert_name x (sort_names xs)

unfoldable pub erase_file : List ℕ → List File → List File
erase_file name [] = []
erase_file name (f ∷ files) =
    let rest = erase_file name files in if same_codes f.name name then files else f ∷ rest

-- `os.Remove`
unfoldable pub remove_file : List ℕ → Folder → Bool × Folder
unfolding ask_os
remove_file name d =
    let (ok, d') = ask_os d in
    (ok, if ok then record d' { files = erase_file name d'.files } else d')

abbrev pub after_remove :
    List ℕ
    → ℕ
    → (ℕ → Folder → ℕ × Option FileError × Folder)
    → Bool × Folder
    → ℕ × Option FileError × Folder
after_remove name deleted next (true, d) = next (deleted + 1) d
after_remove name deleted next (false, d) = (deleted, some (remove_failed name), d)

-- The loop of RetainBackups, which stops at the first error.
unfoldable pub remove_loop : List (List ℕ) → ℕ → Folder → ℕ × Option FileError × Folder
remove_loop [] deleted d = (deleted, none, d)
remove_loop (name ∷ names) deleted d =
    after_remove name deleted (remove_loop names) (remove_file name d)

abbrev pub after_read : ℕ → Bool × Folder → ℕ × Option FileError × Folder
after_read n (false, d) = (0, some read_failed, d)
after_read n (true, d) =
    let names = sort_names (backup_names d.files) in remove_loop (take (length names - n) names) 0 d

-- RetainBackups, for a limit that is not negative.
unfoldable pub retain_backups : ℕ → Folder → ℕ × Option FileError × Folder
retain_backups n d = after_read n (ask_os d)

unfoldable pub has_file : List ℕ → List File → Bool
has_file name [] = false
has_file name (f ∷ files) = let rest = has_file name files in same_codes f.name name || rest

-- `now.UTC().Format("20060102T150405.000Z")`. The text has a fixed width and is ordered as the
-- instants are, up to the year 9999.
pub record Stamp : Type 0 where
  pub stamp : ℕ → List ℕ
  pub stamp_width : (t u : ℕ) → length (stamp t) ≡ length (stamp u)
  pub stamp_ordered : (t u : ℕ) → t ≤ u → codes_le (stamp t) (stamp u) ≡ true

-- Ping
unfoldable pub ping : Store → Bool × Store
ping s = let (ok, d) = ask s.db in (ok, record s { db = d })

-- IncrementalVacuum, which changes no row.
unfoldable pub incremental_vacuum : Store → Bool × Store
incremental_vacuum s = let (ok, d) = ask s.db in (ok, record s { db = d })

module _ ⦃st : Stamp⦄ where
  unfoldable pub backup_name : ℕ → List ℕ
  backup_name now = codes "kvp-" ++ st.stamp now ++ codes ".db"

  -- VACUUM INTO, which writes the rows to a new file and fails where the file exists.
  abbrev pub vacuum_into :
      List ℕ → Folder → Bool × Db → Store → (List ℕ × Option FileError) × Folder × Store
  vacuum_into name d (false, db) s = (([], some vacuum_failed), d, record s { db = db })
  vacuum_into name d (true, db) s =
      if has_file name d.files then (([], some vacuum_failed), d, record s { db = db }) else (
        (name, none),
        record d {
          files = d.files ++ (record { name = name; regular = true; content = db.rows }) ∷ [];
        },
        record s { db = db },
      )

  abbrev pub after_mkdir : ℕ → Bool × Folder → Store → (List ℕ × Option FileError) × Folder × Store
  after_mkdir now (false, d) s = (([], some mkdir_failed), d, s)
  after_mkdir now (true, d) s = vacuum_into (backup_name now) d (ask s.db) s

  -- Backup; `configured` is whether the name of the folder is not empty.
  unfoldable pub backup : Bool → ℕ → Folder → Store → (List ℕ × Option FileError) × Folder × Store
  backup false now d s = (([], some no_folder), d, s)
  backup true now d s = after_mkdir now (ask_os d) s
