-- ===== src/Store/Backup/Order.antt =====
-- internal/store/store.go: the order of the backups' names, and how the sorted names change when one
-- is removed.
use kvp.Prelude.{
  ℕ, true, false, ◌≡◌, refl, ap, ◌∙◌, sym, List, [], ◌∷◌, if◌then◌else◌, Bool-cases, inl, inr,
  arith,
}
use kvp.Store.Mode.{same_codes, same_codes_eq, same_codes_refl}
use kvp.Store.Backup.{codes_le, insert_name, sort_names}

pub codes_le_refl : (a : List ℕ) → codes_le a a ≡ true
unfolding codes_le
codes_le_refl [] = refl
codes_le_refl (c ∷ cs) = ground (arith, codes_le_refl cs)

codes_le_trans : (a b c : List ℕ) → codes_le a b ≡ true → codes_le b c ≡ true → codes_le a c ≡ true
unfolding codes_le
codes_le_trans [] b c h k = refl
codes_le_trans (x ∷ a) [] c h k = cc h
codes_le_trans (x ∷ a) (y ∷ b) [] h k = cc k
codes_le_trans (x ∷ a) (y ∷ b) (z ∷ c) h k = ground (arith, codes_le_trans a b c)

codes_le_total : (a b : List ℕ) → codes_le a b ≡ false → codes_le b a ≡ true
unfolding codes_le
codes_le_total [] b h = cc h
codes_le_total (x ∷ a) [] h = refl
codes_le_total (x ∷ a) (y ∷ b) h = ground (arith, codes_le_total a b)

-- The names are sorted from the least on.
abbrev pub AtLeast : List ℕ → List (List ℕ) → Type 0
AtLeast x [] = Unit
AtLeast x (y ∷ ys) = codes_le x y ≡ true

abbrev pub IsSorted : List (List ℕ) → Type 0
IsSorted [] = Unit
IsSorted (y ∷ ys) = AtLeast y ys × IsSorted ys

insert_name-AtLeast :
    (y x : List ℕ) (ys : List (List ℕ))
    → codes_le y x ≡ true
    → AtLeast y ys
    → AtLeast y (insert_name x ys)
unfolding insert_name
insert_name-AtLeast y x [] h a = h
insert_name-AtLeast y x (z ∷ zs) h a = elim (Bool-cases (codes_le x z)) [
  | inl before ↦ rw before h
  | inr after ↦ rw after a
]

insert_name-IsSorted : (x : List ℕ) (ys : List (List ℕ)) → IsSorted ys → IsSorted (insert_name x ys)
unfolding insert_name
insert_name-IsSorted x [] s = (tt, tt)
insert_name-IsSorted x (y ∷ ys) s = elim (Bool-cases (codes_le x y)) [
  | inl before ↦ rw before (before, s)
  | inr after ↦
      rw after
        (insert_name-AtLeast y x ys (codes_le_total x y after) s.0, insert_name-IsSorted x ys s.1)
]

pub sort_names-IsSorted : (xs : List (List ℕ)) → IsSorted (sort_names xs)
unfolding sort_names
sort_names-IsSorted [] = tt
sort_names-IsSorted (x ∷ xs) = insert_name-IsSorted x (sort_names xs) (sort_names-IsSorted xs)

-- One occurrence of a name is taken out, the first.
unfoldable pub erase_name : List ℕ → List (List ℕ) → List (List ℕ)
erase_name v [] = []
erase_name v (y ∷ ys) = let rest = erase_name v ys in if same_codes y v then ys else y ∷ rest

insert_name-front : (x : List ℕ) (ys : List (List ℕ)) → AtLeast x ys → insert_name x ys ≡ x ∷ ys
unfolding insert_name
insert_name-front x [] h = refl
insert_name-front x (y ∷ ys) h = rw h

erase_name-insert_name : (v : List ℕ) (ys : List (List ℕ)) → erase_name v (insert_name v ys) ≡ ys
unfolding erase_name insert_name
erase_name-insert_name v [] = rw (same_codes_refl v)
erase_name-insert_name v (y ∷ ys) = elim (Bool-cases (codes_le v y)) [
  | inl before ↦ rw (before, erase_name, same_codes_refl v)
  | inr after ↦ elim (Bool-cases (same_codes y v)) [
    | inl same ↦ cc (after, codes_le_refl v, ap (λ z. codes_le v z) (same_codes_eq y v same))
    | inr other ↦ rw (after, erase_name, other) (ap (λ l. y ∷ l) (erase_name-insert_name v ys))
  ]
]

AtLeast-trans :
    (x y : List ℕ) (ys : List (List ℕ)) → codes_le x y ≡ true → AtLeast y ys → AtLeast x ys
AtLeast-trans x y [] h a = tt
AtLeast-trans x y (z ∷ zs) h a = codes_le_trans x y z h a

-- To take out another name than the one that is put in, before or after.
erase_name-insert_other :
    (v x : List ℕ) (ys : List (List ℕ))
    → same_codes x v ≡ false
    → IsSorted ys
    → erase_name v (insert_name x ys) ≡ insert_name x (erase_name v ys)
unfolding erase_name insert_name
erase_name-insert_other v x [] n s = rw n
erase_name-insert_other v x (y ∷ ys) n s = elim (Bool-cases (codes_le x y)) [
  | inl before ↦ elim (Bool-cases (same_codes y v)) [
    | inl same ↦
        rw (before, erase_name, n, same)
          (sym (ap (λ l. l) (insert_name-front x ys (AtLeast-trans x y ys before s.0))))
    | inr other ↦ rw (before, erase_name, n, other, insert_name, before)
  ]
  | inr after ↦ elim (Bool-cases (same_codes y v)) [
    | inl same ↦ rw (after, erase_name, same)
    | inr other ↦
        rw (after, erase_name, other, insert_name, after)
          (ap (λ l. y ∷ l) (erase_name-insert_other v x ys n s.1))
  ]
]

-- The sorted names without one of them are the other names, sorted.
pub sort_names-erase_name :
    (v : List ℕ) (xs : List (List ℕ)) → sort_names (erase_name v xs) ≡ erase_name v (sort_names xs)
unfolding sort_names erase_name
sort_names-erase_name v [] = refl
sort_names-erase_name v (x ∷ xs) = elim (Bool-cases (same_codes x v)) [
  | inl same ↦ rw same (
      sym (
        ap (λ w. erase_name v (insert_name w (sort_names xs))) (same_codes_eq x v same)
        ∙ erase_name-insert_name v (sort_names xs)))
  | inr other ↦
      rw (other, sort_names)
        (ap (insert_name x) (sort_names-erase_name v xs)
          ∙ sym (erase_name-insert_other v x (sort_names xs) other (sort_names-IsSorted xs)))
]
