-- ===== src/Cleanup/Backups.antt =====
-- internal/cleanup/cleanup.go and internal/store/store.go: what a pass of the Backuper leaves.
use mathlib.Core.Path.{subst}
use kvp.Prelude.{
  ℕ, ◌≤◌, ◌<◌, true, false, ◌||◌, ◌≡◌, refl, ap, sym, ◌∙◌, Option, none, some, List, [], ◌∷◌, ◌++◌,
  Bool-cases, inl, inr, arith, length,
}
use kvp.Store.Mode.{codes, same_codes, same_codes_eq, same_codes_refl}
use kvp.Store.Sql.{Row, ask}
use kvp.Store.Rows.{rows-ask}
use kvp.Store.State.{Store}
use kvp.Store.Backup.{
  File, Folder, FileError, Stamp, ask_os, is_backup, has_prefix, has_suffix, backup_names, codes_le,
  retain_backups, has_file, backup_name, backup,
}
use kvp.Store.Backup.Order.{codes_le_refl}
use kvp.Store.Backup.Names.{has_name, IsFolder, ask_os-files}
use kvp.Store.Backup.Newest.{IsLast, content_of, retain_backups-last}
use kvp.Cleanup.Jobs.{after_retain, after_backup, run_backup}

codes_le-append :
    (a b s : List ℕ) → length a ≡ length b → codes_le a b ≡ true → codes_le (a ++ s) (b ++ s) ≡ true
unfolding codes_le
codes_le-append [] [] s n h = codes_le_refl s
codes_le-append [] (y ∷ b) s n h = absurd (omega (arith, n))
codes_le-append (x ∷ a) [] s n h = absurd (omega (arith, n))
codes_le-append (x ∷ a) (y ∷ b) s n h = ground (arith, codes_le-append a b s)

codes_le-prefix : (p a b : List ℕ) → codes_le a b ≡ true → codes_le (p ++ a) (p ++ b) ≡ true
unfolding codes_le
codes_le-prefix [] a b h = h
codes_le-prefix (c ∷ p) a b h = ground (arith, codes_le-prefix p a b h)

has_suffix-append : (a s : List ℕ) → has_suffix (a ++ s) s ≡ true
unfolding has_suffix
has_suffix-append [] [] = refl
has_suffix-append [] (c ∷ cs) = ap (λ b. b || has_suffix cs (c ∷ cs)) (same_codes_refl (c ∷ cs))
has_suffix-append (x ∷ a) s = ground (arith, has_suffix-append a s)

has_prefix-append : (p a : List ℕ) → has_prefix (p ++ a) p ≡ true
unfolding has_prefix
has_prefix-append [] [] = refl
has_prefix-append [] (x ∷ a) = refl
has_prefix-append (c ∷ p) a = ground (arith, has_prefix-append p a)

-- A new entry at the end of a folder.
has_file-append :
    (v : List ℕ) (files : List File) (f : File)
    → has_file v (files ++ f ∷ []) ≡ (has_file v files || same_codes f.name v)
unfolding has_file
has_file-append v [] f = ground arith
has_file-append v (g ∷ files) f = ground (arith, has_file-append v files f)

append-IsFolder :
    (files : List File) (f : File)
    → IsFolder files
    → has_file f.name files ≡ false
    → IsFolder (files ++ f ∷ [])
unfolding has_file
append-IsFolder [] f h n = (refl, tt)
append-IsFolder (g ∷ files) f h n = elim (Bool-cases (same_codes g.name f.name)) [
  | inl same ↦ cc (rw same at n)
  | inr other ↦ elim (Bool-cases (same_codes f.name g.name)) [
    | inl back ↦ cc (
      other,
      ap (λ v. same_codes v f.name) (same_codes_eq f.name g.name back),
      same_codes_refl f.name,
    )
    | inr back ↦ (
      has_file-append g.name files f ∙ ap (λ b. b || same_codes f.name g.name) h.0 ∙ back,
      append-IsFolder files f h.1 (rw other at n),
    )
  ]
]

content_of-append :
    (files : List File) (f : File)
    → has_file f.name files ≡ false
    → content_of f.name (files ++ f ∷ []) ≡ some f.content
unfolding has_file content_of
content_of-append [] f n = rw (same_codes_refl f.name)
content_of-append (g ∷ files) f n = elim (Bool-cases (same_codes g.name f.name)) [
  | inl same ↦ cc (rw same at n)
  | inr other ↦ rw (other, content_of) (content_of-append files f (rw other at n))
]

has_name-append :
    (v : List ℕ) (files : List File) (f : File)
    → is_backup f ≡ true
    → has_name v (backup_names (files ++ f ∷ []))
      ≡ (has_name v (backup_names files) || same_codes f.name v)
unfolding has_name backup_names
has_name-append v [] f b = rw b (ground arith)
has_name-append v (g ∷ files) f b = elim (Bool-cases (is_backup g)) [
  | inl backup ↦ rw (backup, backup_names, has_name) (ground (arith, has_name-append v files f b))
  | inr plain ↦ rw (plain, backup_names) (has_name-append v files f b)
]

module _ ⦃st : Stamp⦄ where
  backup_name_mono : (t u : ℕ) → t ≤ u → codes_le (backup_name t) (backup_name u) ≡ true
  unfolding backup_name
  backup_name_mono t u h =
      codes_le-prefix (codes "kvp-") (st.stamp t ++ codes ".db") (st.stamp u ++ codes ".db") (
        codes_le-append (st.stamp t) (st.stamp u) (codes ".db") (st.stamp_width t u)
          (st.stamp_ordered t u h))

  abbrev new_file : ℕ → List Row → File
  new_file now rows = record { name = backup_name now; regular = true; content = rows }

  new_file_backup : (now : ℕ) (rows : List Row) → is_backup (new_file now rows) ≡ true
  unfolding is_backup backup_name
  new_file_backup now rows =
      let named = has_prefix-append (codes "kvp-") (st.stamp now ++ codes ".db") in
      let ending = has_suffix-append (codes "kvp-" ++ st.stamp now) (codes ".db") in
      cc (named, ending)

  -- What `Backup` does where it reports no error.
  backup_lem :
      (now : ℕ) (d : Folder) (s : Store)
      → (backup true now d s).0.1 ≡ none
      → ((backup true now d s).1.files ≡ d.files ++ new_file now s.db.rows ∷ [])
        × (has_file (backup_name now) d.files ≡ false)
        × ((backup true now d s).2.db.rows ≡ s.db.rows)
  unfolding backup
  backup_lem now d s h = elim (Bool-cases (ask_os d).0) [
    | inr failed ↦ cc (rw failed at h)
    | inl made ↦ elim (Bool-cases (ask s.db).0) [
      | inr refused ↦ cc (rw (made, refused) at h)
      | inl run ↦ elim (Bool-cases (has_file (backup_name now) (ask_os d).1.files)) [
        | inl there ↦ cc (rw (made, run, there) at h)
        | inr absent ↦
            rw (made, run, absent)
              (
                ap (λ fs. fs ++ new_file now (ask s.db).1.rows ∷ []) (ask_os-files d)
                    ∙ ap (λ rows. d.files ++ new_file now rows ∷ []) (rows-ask s.db),
                ap (has_file (backup_name now)) (sym (ask_os-files d)) ∙ absent,
                rows-ask s.db,
              )
      ]
    ]
  ]

  -- The backups in a folder have been written at the time `now` or before.
  abbrev pub WrittenBy : ℕ → List File → Type 0
  WrittenBy now files =
      (v : List ℕ)
      → has_name v (backup_names files) ≡ true
      → (t : ℕ) × (t ≤ now) × (v ≡ backup_name t)

  new_file-IsLast :
      (now : ℕ) (files : List File) (rows : List Row)
      → WrittenBy now files
      → IsLast (backup_name now) (backup_names (files ++ new_file now rows ∷ []))
  new_file-IsLast now files rows old w h = elim (Bool-cases (has_name w (backup_names files))) [
    | inl before ↦
        let (t, le, e) = old w before in
        subst (λ v. codes_le v (backup_name now) ≡ true) (sym e) (backup_name_mono t now le)
    | inr new ↦
        let split = has_name-append w files (new_file now rows) (new_file_backup now rows) in
        let same : same_codes (backup_name now) w ≡ true = cc (h, split, new) in
        subst (λ v. codes_le v (backup_name now) ≡ true) (same_codes_eq (backup_name now) w same)
          (codes_le_refl (backup_name now))
  ]

  after_retain-ok :
      (r : ℕ × Option FileError × Folder) (s : Store)
      → (after_retain r s).error ≡ none
      → ((after_retain r s).folder ≡ r.2) × ((after_retain r s).store ≡ s)
  after_retain-ok (n, some e, d) s h = cc h
  after_retain-ok (n, none, d) s h = (refl, refl)

  -- The pass of the Backuper, after the backup.
  after_backup-ok :
      (n : ℕ) (b : (List ℕ × Option FileError) × Folder × Store)
      → (after_backup n b).error ≡ none
      → (b.0.1 ≡ none)
        × ((after_backup n b).folder ≡ (retain_backups n b.1).2)
        × ((after_backup n b).store ≡ b.2)
  after_backup-ok n ((path, some e), d, s) h = cc h
  after_backup-ok n ((path, none), d, s) h =
      let r = after_retain-ok (retain_backups n d) s h in (refl, r.0, r.1)

  -- After a pass of the Backuper that reports no error, with a limit of at least one and no backup from
  -- a later time, the folder holds a file with the time's name, and in it the rows that the database
  -- held; the database still holds them.
  pub run_backup_lem :
      (now retention : ℕ) (d : Folder) (s : Store)
      → 0 < retention
      → IsFolder d.files
      → WrittenBy now d.files
      → (run_backup true now retention d s).error ≡ none
      → (content_of (backup_name now) (run_backup true now retention d s).folder.files
          ≡ some s.db.rows)
        × ((run_backup true now retention d s).store.db.rows ≡ s.db.rows)
  unfolding run_backup
  run_backup_lem now retention d s p h old e =
      let b = backup true now d s in
      let pass = after_backup-ok retention b e in
      let (files, absent, rows) = backup_lem now d s pass.0 in
      let f = new_file now s.db.rows in
      let there : has_name (backup_name now) (backup_names b.1.files) ≡ true =
        ap (λ fs. has_name (backup_name now) (backup_names fs)) files
        ∙ has_name-append (backup_name now) d.files f (new_file_backup now s.db.rows)
        ∙ ground (arith, same_codes_refl (backup_name now)) in
      let last : IsLast (backup_name now) (backup_names b.1.files) =
        subst (λ fs. IsLast (backup_name now) (backup_names fs)) (sym files)
          (new_file-IsLast now d.files s.db.rows old) in
      let folder : IsFolder b.1.files =
        subst IsFolder (sym files) (append-IsFolder d.files f h absent) in
      (
        ap (λ x. content_of (backup_name now) x.files) pass.1
            ∙ retain_backups-last (backup_name now) retention b.1 p folder there last
            ∙ ap (content_of (backup_name now)) files
            ∙ content_of-append d.files f absent,
        ap (λ x. x.db.rows) pass.2 ∙ rows,
      )
