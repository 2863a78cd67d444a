-- ===== src/Store/Backup/Names.antt =====
-- internal/store/store.go: the entries of the backups' folder, and what the removal of one changes.
use kvp.Prelude.{
  ℕ, Bool, true, false, ◌||◌, ◌≡◌, refl, ap, sym, ◌∙◌, List, [], ◌∷◌, if◌then◌else◌, Bool-cases,
  inl, inr, arith,
}
use kvp.Store.Mode.{same_codes, same_codes_eq, same_codes_refl}
use kvp.Store.Backup.{
  File, Folder, ask_os, is_backup, backup_names, insert_name, sort_names, erase_file, remove_file,
  answer_os, has_file,
}
use kvp.Store.Backup.Order.{erase_name, sort_names-erase_name}

unfoldable pub has_name : List ℕ → List (List ℕ) → Bool
has_name v [] = false
has_name v (y ∷ ys) = let rest = has_name v ys in same_codes y v || rest

-- The entries of a directory have distinct names.
abbrev pub IsFolder : List File → Type 0
IsFolder [] = Unit
IsFolder (f ∷ files) = (has_file f.name files ≡ false) × IsFolder files

-- The entries that are no backups.
unfoldable pub others : List File → List File
others [] = []
others (f ∷ files) = let rest = others files in if is_backup f then rest else f ∷ rest

has_name-insert_name :
    (v x : List ℕ) (ys : List (List ℕ))
    → has_name v (insert_name x ys) ≡ (same_codes x v || has_name v ys)
unfolding has_name insert_name
has_name-insert_name v x [] = refl
has_name-insert_name v x (y ∷ ys) = ground (arith, has_name-insert_name v x ys)

pub has_name-sort_names :
    (v : List ℕ) (xs : List (List ℕ)) → has_name v (sort_names xs) ≡ has_name v xs
unfolding has_name sort_names
has_name-sort_names v [] = refl
has_name-sort_names v (x ∷ xs) =
    has_name-insert_name v x (sort_names xs)
    ∙ ap (λ b. same_codes x v || b) (has_name-sort_names v xs)

-- A name in front of the sorted names is one of the names.
first_name :
    (xs : List (List ℕ)) (v : List ℕ) (rest : List (List ℕ))
    → sort_names xs ≡ v ∷ rest
    → has_name v xs ≡ true
unfolding has_name
first_name xs v rest e =
    sym (has_name-sort_names v xs)
    ∙ ap (has_name v) e
    ∙ ap (λ b. b || has_name v rest) (same_codes_refl v)

pub has_file-backup_names :
    (v : List ℕ) (files : List File)
    → has_name v (backup_names files) ≡ true
    → has_file v files ≡ true
unfolding has_name backup_names has_file
has_file-backup_names v [] h = cc h
has_file-backup_names v (f ∷ files) h = ground (arith, has_file-backup_names v files)

pub has_file-erase_file :
    (w v : List ℕ) (files : List File)
    → has_file w files ≡ false
    → has_file w (erase_file v files) ≡ false
unfolding has_file erase_file
has_file-erase_file w v [] h = refl
has_file-erase_file w v (f ∷ files) h = ground (arith, has_file-erase_file w v files)

pub erase_file-IsFolder :
    (v : List ℕ) (files : List File) → IsFolder files → IsFolder (erase_file v files)
unfolding erase_file
erase_file-IsFolder v [] h = tt
erase_file-IsFolder v (f ∷ files) h = elim (Bool-cases (same_codes f.name v)) [
  | inl same ↦ rw same h.1
  | inr other ↦ rw other (has_file-erase_file f.name v files h.0, erase_file-IsFolder v files h.1)
]

-- The removal of a backup takes its name out, and no other entry.
backup_names-erase_file :
    (v : List ℕ) (files : List File)
    → IsFolder files
    → has_name v (backup_names files) ≡ true
    → (backup_names (erase_file v files) ≡ erase_name v (backup_names files))
      × (others (erase_file v files) ≡ others files)
unfolding has_name backup_names erase_file erase_name others
backup_names-erase_file v [] h m = (refl, refl)
backup_names-erase_file v (f ∷ files) h m = elim (Bool-cases (same_codes f.name v)) [
  | inl same ↦ elim (Bool-cases (is_backup f)) [
    | inl backup ↦ rw (same, backup, erase_name, same) (refl, refl)
    | inr plain ↦ cc (
      h.0,
      ap (λ w. has_file w files) (same_codes_eq f.name v same),
      has_file-backup_names v files (rw plain at m),
    )
  ]
  | inr other ↦ elim (Bool-cases (is_backup f)) [
    | inl backup ↦
        let rest = backup_names-erase_file v files h.1 (rw (backup, has_name, other) at m) in
        rw (other, backup_names, others, backup, erase_name, other)
          (ap (λ l. f.name ∷ l) rest.0, rest.1)
    | inr plain ↦
        let rest = backup_names-erase_file v files h.1 (rw plain at m) in
        rw (other, backup_names, others, plain) (rest.0, ap (λ l. f ∷ l) rest.1)
  ]
]

pub ask_os-files : (d : Folder) → (ask_os d).1.files ≡ d.files
unfolding ask_os
ask_os-files d = elim d.outcomes as (λ o. (answer_os d o).1.files ≡ d.files) [
  | [] ↦ refl
  | b ∷ bs ↦ refl
]

-- What a call of `os.Remove` does.
pub removed :
    (v : List ℕ) (d : Folder)
    → ((remove_file v d).0 ≡ true → (remove_file v d).1.files ≡ erase_file v d.files)
      × ((remove_file v d).0 ≡ false → (remove_file v d).1.files ≡ d.files)
unfolding remove_file
removed v d =
    (λ ok. rw ok (ap (erase_file v) (ask_os-files d)), λ failed. rw failed (ask_os-files d))

pub erase_first :
    (v : List ℕ) (rest : List (List ℕ)) (files : List File)
    → IsFolder files
    → sort_names (backup_names files) ≡ v ∷ rest
    → (sort_names (backup_names (erase_file v files)) ≡ rest)
      × (others (erase_file v files) ≡ others files)
unfolding erase_name
erase_first v rest files h e =
    let gone = backup_names-erase_file v files h (first_name (backup_names files) v rest e) in
    (
      ap sort_names gone.0
          ∙ sort_names-erase_name v (backup_names files)
          ∙ ap (erase_name v) e
          ∙ ap (λ b. if b then rest else v ∷ erase_name v rest) (same_codes_refl v),
      gone.1,
    )
