-- ===== src/Store/Backup/Retention.antt =====
-- internal/store/store.go: which backups RetainBackups keeps.
use mathlib.Core.Path.{subst}
use native.Mathlib.Nat.{zero-add}
use kvp.Prelude.{
  ℕ, zero, suc, ◌+◌, ◌-◌, ◌≤◌, Bool, true, false, ◌≡◌, refl, ap, sym, ◌∙◌, Option, none, List, [],
  ◌∷◌, Bool-cases, inl, inr, arith, length, take, drop, length-take,
}
use kvp.Store.Backup.{
  File, Folder, FileError, ask_os, backup_names, insert_name, sort_names, remove_file, remove_loop,
  after_read, retain_backups,
}
use kvp.Store.Backup.Names.{
  IsFolder, others, erase_file-IsFolder, ask_os-files, removed, erase_first,
}

-- What the loop makes of a folder: `S` are its backups in order, of which the first `e` are to go.
abbrev Loop : ℕ → List (List ℕ) → ℕ → Folder → ℕ × Option FileError × Folder → Type 0
Loop e S deleted d r =
    (k : ℕ) × (r.0 ≡ deleted + k)
    × (k ≤ length (take e S))
    × (r.1 ≡ none → k ≡ length (take e S))
    × (sort_names (backup_names r.2.files) ≡ drop k S)
    × (others r.2.files ≡ others d.files)

remove_loop-Loop :
    (e : ℕ) (S : List (List ℕ)) (deleted : ℕ) (d : Folder)
    → IsFolder d.files
    → sort_names (backup_names d.files) ≡ S
    → Loop e S deleted d (remove_loop (take e S) deleted d)
unfolding remove_loop
remove_loop-Loop zero S deleted d h s = (0, omega arith, omega arith, λ _. refl, s, refl)
remove_loop-Loop (suc e) [] deleted d h s = (0, omega arith, omega arith, λ _. refl, s, refl)
remove_loop-Loop (suc e) (v ∷ rest) deleted d h s =
    let call = remove_file v d in
    elim (Bool-cases call.0) [
      | inr failed ↦
          let same = (removed v d).1 failed in
          rw failed (
            0,
            omega arith,
            omega arith,
            λ e. cc e,
            ap (λ fs. sort_names (backup_names fs)) same ∙ s,
            ap others same,
          )
      | inl ok ↦
          let same = (removed v d).0 ok in
          let gone = erase_first v rest d.files h s in
          let (k, n, small, all, kept, other) =
            remove_loop-Loop e rest (deleted + 1) call.1
              (subst IsFolder (sym same) (erase_file-IsFolder v d.files h))
              (ap (λ fs. sort_names (backup_names fs)) same ∙ gone.0) in
          rw ok (
            suc k,
            omega (arith, n),
            omega (arith, small),
            λ e. ap suc (all e),
            kept,
            other ∙ ap others same ∙ gone.1,
          )
    ]

length-insert_name : (x : List ℕ) (ys : List (List ℕ)) → length (insert_name x ys) ≡ suc (length ys)
unfolding insert_name
length-insert_name x [] = refl
length-insert_name x (y ∷ ys) = ground (arith, length-insert_name x ys)

pub length-sort_names : (xs : List (List ℕ)) → length (sort_names xs) ≡ length xs
unfolding sort_names
length-sort_names [] = refl
length-sort_names (x ∷ xs) =
    omega (arith, length-insert_name x (sort_names xs), length-sort_names xs)

-- What RetainBackups makes of the entries `files`, in its result.
abbrev Retained : ℕ → List File → ℕ × Option FileError × Folder → Type 0
Retained n files r =
    (sort_names (backup_names r.2.files) ≡ drop r.0 (sort_names (backup_names files)))
    × (r.0 ≤ length (backup_names files) - n)
    × (r.1 ≡ none → r.0 ≡ length (backup_names files) - n)
    × (others r.2.files ≡ others files)

after_read-Retained :
    (n : ℕ) (p : Bool × Folder) → IsFolder p.1.files → Retained n p.1.files (after_read n p)
after_read-Retained n (false, d) h = (refl, omega arith, λ e. cc e, refl)
after_read-Retained n (true, d) h =
    let names = sort_names (backup_names d.files) in
    let excess = length names - n in
    let (k, counted, small, all, kept, other) = remove_loop-Loop excess names 0 d h refl in
    let taken = length-take excess names in
    let size = length-sort_names (backup_names d.files) in
    (
      kept ∙ ap (λ i. drop i names) (sym (counted ∙ zero-add k)),
      omega (arith, counted, small, taken, size),
      λ e. omega (arith, counted, all e, taken, size),
      other,
    )

-- RetainBackups leaves, of the backups in the order of their names, all but as many of the first as
-- it reports, never more than those beyond the limit, and exactly those where it reports no error. No
-- other entry is touched.
pub retain_backups_lem :
    (n : ℕ) (d : Folder)
    → IsFolder d.files
    → (sort_names (backup_names (retain_backups n d).2.files)
        ≡ drop (retain_backups n d).0 (sort_names (backup_names d.files)))
      × ((retain_backups n d).0 ≤ length (backup_names d.files) - n)
      × ((retain_backups n d).1 ≡ none → (retain_backups n d).0 ≡ length (backup_names d.files) - n)
      × (others (retain_backups n d).2.files ≡ others d.files)
unfolding retain_backups
retain_backups_lem n d h =
    let files = ask_os-files d in
    subst (λ fs. Retained n fs (retain_backups n d)) files
      (after_read-Retained n (ask_os d) (subst IsFolder (sym files) h))
