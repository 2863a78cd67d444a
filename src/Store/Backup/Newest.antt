-- ===== src/Store/Backup/Newest.antt =====
-- internal/store/store.go: the newest backup, which RetainBackups keeps with its content.
use mathlib.Core.Path.{subst}
use kvp.Prelude.{
  ℕ, zero, suc, ◌+◌, ◌<◌, Bool, true, false, ◌||◌, ◌≡◌, refl, ap, sym, ◌∙◌, Option, none, some,
  List, [], ◌∷◌, if◌then◌else◌, Bool-cases, inl, inr, arith, length, drop,
}
use kvp.Store.Mode.{same_codes, same_codes_eq, same_codes_refl}
use kvp.Store.Sql.{Row}
use kvp.Store.Backup.{
  File, Folder, ask_os, backup_names, codes_le, sort_names, erase_file, remove_file, remove_loop,
  after_read, retain_backups, has_file,
}
use kvp.Store.Backup.Order.{IsSorted, sort_names-IsSorted}
use kvp.Store.Backup.Names.{
  has_name, has_name-sort_names, IsFolder, has_file-erase_file, has_file-backup_names,
  erase_file-IsFolder, ask_os-files, removed,
}
use kvp.Store.Backup.Retention.{retain_backups_lem, length-sort_names}

codes_le_antisym :
    (a b : List ℕ) → codes_le a b ≡ true → codes_le b a ≡ true → same_codes a b ≡ true
unfolding codes_le
codes_le_antisym [] [] h k = refl
codes_le_antisym [] (y ∷ b) h k = cc k
codes_le_antisym (x ∷ a) [] h k = cc h
codes_le_antisym (x ∷ a) (y ∷ b) h k = ground (arith, codes_le_antisym a b)

-- No name is after `v`.
abbrev pub IsLast : List ℕ → List (List ℕ) → Type 0
IsLast v ys = (w : List ℕ) → has_name w ys ≡ true → codes_le w v ≡ true

-- The last name stays when some of the first ones go, but not all.
has_name-drop :
    (k : ℕ) (v : List ℕ) (ys : List (List ℕ))
    → IsSorted ys
    → IsLast v ys
    → has_name v ys ≡ true
    → k < length ys
    → has_name v (drop k ys) ≡ true
unfolding has_name
has_name-drop zero v ys s l m h = m
has_name-drop (suc k) v [] s l m h = absurd (omega (arith, h))
has_name-drop (suc k) v (y ∷ []) s l m h = absurd (omega (arith, h))
has_name-drop (suc k) v (y ∷ z ∷ zs) s l m h =
    let later : IsLast v (z ∷ zs) = λ w n. l w (ground (arith, n)) in
    elim (Bool-cases (has_name v (z ∷ zs))) [
      | inl there ↦ has_name-drop k v (z ∷ zs) s.1 later there (omega (arith, h))
      | inr gone ↦
          let same : same_codes y v ≡ true = ground (arith, m, gone) in
          let above : codes_le v z ≡ true =
            ap (λ w. codes_le w z) (sym (same_codes_eq y v same)) ∙ s.0 in
          let below : codes_le z v ≡ true =
            later z (ap (λ b. b || has_name z zs) (same_codes_refl z)) in
          let equal = codes_le_antisym z v below above in
          cc (gone, ap (λ b. b || has_name v zs) equal)
    ]

-- The rows in the file of a name.
unfoldable pub content_of : List ℕ → List File → Option (List Row)
content_of v [] = none
content_of v (f ∷ files) =
    let rest = content_of v files in if same_codes f.name v then some f.content else rest

content_of-erase_file :
    (v w : List ℕ) (files : List File)
    → IsFolder files
    → has_file v (erase_file w files) ≡ true
    → content_of v (erase_file w files) ≡ content_of v files
unfolding has_file erase_file content_of
content_of-erase_file v w [] h m = refl
content_of-erase_file v w (f ∷ files) h m = elim (Bool-cases (same_codes f.name w)) [
  | inl gone ↦ elim (Bool-cases (same_codes f.name v)) [
    | inl asked ↦ cc (h.0, ap (λ u. has_file u files) (same_codes_eq f.name v asked), m)
    | inr other ↦ rw (gone, other) refl
  ]
  | inr kept ↦ elim (Bool-cases (same_codes f.name v)) [
    | inl asked ↦ rw (kept, content_of, asked) refl
    | inr other ↦
        rw (kept, content_of, other)
          (content_of-erase_file v w files h.1 (rw (kept, has_file, other) at m))
  ]
]

erase_file-has :
    (v w : List ℕ) (files : List File)
    → has_file v (erase_file w files) ≡ true
    → has_file v files ≡ true
erase_file-has v w files m = elim (Bool-cases (has_file v files)) [
  | inl there ↦ there
  | inr gone ↦ cc (m, has_file-erase_file v w files gone)
]

-- A file that the loop leaves was there, and holds what it held.
abbrev Untouched : List ℕ → List File → List File → Type 0
Untouched v before after =
    has_file v after ≡ true
    → (has_file v before ≡ true) × (content_of v after ≡ content_of v before)

remove_loop-Untouched :
    (v : List ℕ) (names : List (List ℕ)) (deleted : ℕ) (d : Folder)
    → IsFolder d.files
    → Untouched v d.files (remove_loop names deleted d).2.files
unfolding remove_loop
remove_loop-Untouched v [] deleted d h = λ m. (m, refl)
remove_loop-Untouched v (w ∷ names) deleted d h =
    let call = remove_file w d in
    elim (Bool-cases call.0) [
      | inr failed ↦ rw failed (λ m.
          let same = (removed w d).1 failed in
          (ap (has_file v) (sym same) ∙ m, ap (content_of v) same))
      | inl ok ↦ rw ok (λ m.
          let same = (removed w d).0 ok in
          let rest =
            remove_loop-Untouched v names (deleted + 1) call.1
              (subst IsFolder (sym same) (erase_file-IsFolder w d.files h)) m in
          let there : has_file v (erase_file w d.files) ≡ true =
            ap (has_file v) (sym same) ∙ rest.0 in
          (
            erase_file-has v w d.files there,
            rest.1 ∙ ap (content_of v) same ∙ content_of-erase_file v w d.files h there,
          ))
    ]

after_read-Untouched :
    (v : List ℕ) (n : ℕ) (p : Bool × Folder)
    → IsFolder p.1.files
    → Untouched v p.1.files (after_read n p).2.files
after_read-Untouched v n (false, d) h m = (m, refl)
after_read-Untouched v n (true, d) h m = remove_loop-Untouched v _ 0 d h m

retain_backups-Untouched :
    (v : List ℕ) (n : ℕ) (d : Folder)
    → IsFolder d.files
    → Untouched v d.files (retain_backups n d).2.files
unfolding retain_backups
retain_backups-Untouched v n d h =
    let files = ask_os-files d in
    subst (λ fs. Untouched v fs (retain_backups n d).2.files) files
      (after_read-Untouched v n (ask_os d) (subst IsFolder (sym files) h))

has_name-length : (v : List ℕ) (ys : List (List ℕ)) → has_name v ys ≡ true → 0 < length ys
unfolding has_name
has_name-length v [] h = cc h
has_name-length v (y ∷ ys) h = omega arith

-- A limit of at least one keeps the backup with the last name, and what it holds.
pub retain_backups-last :
    (v : List ℕ) (n : ℕ) (d : Folder)
    → 0 < n
    → IsFolder d.files
    → has_name v (backup_names d.files) ≡ true
    → IsLast v (backup_names d.files)
    → content_of v (retain_backups n d).2.files ≡ content_of v d.files
retain_backups-last v n d p h m l =
    let kept = retain_backups_lem n d h in
    let names = sort_names (backup_names d.files) in
    let there : has_name v names ≡ true = has_name-sort_names v (backup_names d.files) ∙ m in
    let last : IsLast v names =
      λ w i. l w (sym (has_name-sort_names w (backup_names d.files)) ∙ i) in
    let left = (retain_backups n d).2.files in
    let stays : has_name v (drop (retain_backups n d).0 names) ≡ true =
      has_name-drop (retain_backups n d).0 v names (sort_names-IsSorted (backup_names d.files)) last
        there
        (omega (
          arith,
          p,
          kept.1,
          length-sort_names (backup_names d.files),
          has_name-length v (backup_names d.files) m,
        )) in
    let named : has_name v (backup_names left) ≡ true =
      sym (has_name-sort_names v (backup_names left)) ∙ ap (has_name v) kept.0 ∙ stays in
    (retain_backups-Untouched v n d h (has_file-backup_names v left named)).1
