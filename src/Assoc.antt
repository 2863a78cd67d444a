-- ===== src/Assoc.antt =====
-- Go's `map[string]V` as an association list: a read, a write, `delete`, and the sum of a weight
-- over the entries. Iteration takes the entries in the list's order, one of the orders Go allows.
use text.Mathlib.Text.{◌==◌}
use kvp.Prelude.{
  ℕ, ◌+◌, String, ◌≡◌, refl, Option, none, some, List, [], ◌∷◌, arith, eq_iff, inl, inr, Bool-cases,
  if◌then◌else◌, map,
}

abbrev pub Assoc {ℓ} : Type ℓ → Type ℓ
Assoc V = List (String × V)

module _ {ℓ} {V : Type ℓ} where
  unfoldable pub lookup : String → Assoc V → Option V
  lookup k [] = none
  lookup k ((j, v) ∷ m) = if j == k then some v else lookup k m

  unfoldable pub erase : String → Assoc V → Assoc V
  erase k [] = []
  erase k ((i, w) ∷ others) = let kept = erase k others in if i == k then kept else (i, w) ∷ kept

  -- `m[k] = v`: the entry keeps its place when the key is there.
  unfoldable pub insert : String → V → Assoc V → Assoc V
  insert k v [] = (k, v) ∷ []
  insert k v ((i, w) ∷ others) =
      let tail = insert k v others in if i == k then (k, v) ∷ others else (i, w) ∷ tail

  -- `len(m)` for a map, whose keys are distinct.
  abbrev pub keys : Assoc V → List String
  keys m = map (λ e. e.0) m

  -- The keys are distinct, as those of a map are.
  abbrev pub IsMap : Assoc V → Type ℓ
  IsMap [] = Unit
  IsMap ((k, v) ∷ m) = (lookup k m ≡ none) × IsMap m

  pub lookup-erase :
      (gone asked : String) (m : Assoc V)
      → lookup asked (erase gone m) ≡ (if gone == asked then none else lookup asked m)
  unfolding lookup erase
  lookup-erase gone asked [] = ground arith
  lookup-erase gone asked ((i, w) ∷ others) =
      ground
        (arith, eq_iff i gone, eq_iff i asked, eq_iff gone asked, lookup-erase gone asked others)

  pub lookup-insert :
      (set asked : String) (v : V) (m : Assoc V)
      → lookup asked (insert set v m) ≡ (if set == asked then some v else lookup asked m)
  unfolding lookup insert
  lookup-insert set asked v ((i, w) ∷ others) =
      ground
        (arith, eq_iff i set, eq_iff i asked, eq_iff set asked, lookup-insert set asked v others)
  lookup-insert set asked v [] = refl

module _ {ℓ} {V : Type ℓ} where
  pub insert-IsMap : (k : String) (v : V) (m : Assoc V) → IsMap m → IsMap (insert k v m)
  unfolding insert lookup
  insert-IsMap k v [] h = (refl, tt)
  insert-IsMap k v ((i, w) ∷ m) h = elim (Bool-cases (i == k)) [
    | inl e ↦ rw e (rw ((eq_iff i k).0 e) at h)
    | inr n ↦ ground (arith, insert-IsMap k v m h.1, lookup-insert k i v m, eq_iff i k, eq_iff k i)
  ]

  pub erase-IsMap : (k : String) (m : Assoc V) → IsMap m → IsMap (erase k m)
  unfolding erase
  erase-IsMap k [] h = tt
  erase-IsMap k ((i, w) ∷ m) h =
      ground (arith, erase-IsMap k m h.1, lookup-erase k i m, eq_iff i k, eq_iff k i)

module _ {ℓ} {V : Type ℓ} (w : String → V → ℕ) where
  -- The sum of the weights of the entries.
  unfoldable pub total : Assoc V → ℕ
  total [] = 0
  total ((k, v) ∷ m) = w k v + total m

  -- The weight that a key contributes.
  abbrev pub weight : String → Option V → ℕ
  weight k none = 0
  weight k (some v) = w k v

  pub total-insert :
      (k : String) (v : V) (m : Assoc V)
      → total (insert k v m) + weight k (lookup k m) ≡ total m + w k v
  unfolding total insert lookup
  total-insert k v [] = omega arith
  total-insert k v ((i, u) ∷ m) = ground (arith, eq_iff i k, total-insert k v m)

  total-erase_absent : (k : String) (m : Assoc V) → lookup k m ≡ none → total (erase k m) ≡ total m
  unfolding total erase lookup
  total-erase_absent k [] h = refl
  total-erase_absent k ((i, u) ∷ m) h = ground (arith, eq_iff i k, total-erase_absent k m)

  pub total-erase :
      (k : String) (m : Assoc V) → IsMap m → total (erase k m) + weight k (lookup k m) ≡ total m
  unfolding total erase lookup
  total-erase k [] h = refl
  total-erase k ((i, u) ∷ m) h =
      ground (arith, eq_iff i k, total-erase k m h.1, total-erase_absent k m)
