-- ===== src/Prelude/Lists.antt =====
-- Lists measured by native numbers, under the library's names, and the split into chunks.
use Prim.Native.Nat.{ℕ, zero, suc, ◌+◌, ◌-◌, ◌≤◌, ◌<◌, min}
use mathlib.Core.Path.{◌≡◌, refl, ap}
use mathlib.Core.List.{List, [], ◌∷◌, ◌++◌, map, flatten}
use native.Mathlib.Omega.{arith}

module _ {ℓ} {A : Type ℓ} where
  abbrev pub length : List A → ℕ
  length [] = 0
  length (x ∷ xs) = suc (length xs)

  abbrev pub take : ℕ → List A → List A
  take zero xs = []
  take (suc n) [] = []
  take (suc n) (x ∷ xs) = x ∷ take n xs

  abbrev pub drop : ℕ → List A → List A
  drop zero xs = xs
  drop (suc n) [] = []
  drop (suc n) (x ∷ xs) = drop n xs

module _ {ℓ} {A : Type ℓ} where
  pub length-append : (xs ys : List A) → length (xs ++ ys) ≡ length xs + length ys
  length-append [] ys = omega arith
  length-append (x ∷ xs) ys = omega (arith, length-append xs ys)

  pub take-append-drop : (n : ℕ) (xs : List A) → take n xs ++ drop n xs ≡ xs
  take-append-drop zero xs = refl
  take-append-drop (suc n) [] = refl
  take-append-drop (suc n) (x ∷ xs) = ap (◌∷◌ x) (take-append-drop n xs)

  pub take-eq_self : (n : ℕ) (xs : List A) → length xs ≤ n → take n xs ≡ xs
  take-eq_self zero [] h = refl
  take-eq_self zero (x ∷ xs) h = absurd (omega arith)
  take-eq_self (suc n) [] h = refl
  take-eq_self (suc n) (x ∷ xs) h = ap (◌∷◌ x) (take-eq_self n xs (omega arith))

  pub length-take : (n : ℕ) (xs : List A) → length (take n xs) ≡ min n (length xs)
  length-take zero xs = omega arith
  length-take (suc n) [] = omega arith
  length-take (suc n) (x ∷ xs) = omega (arith, length-take n xs)

  pub length-drop : (n : ℕ) (xs : List A) → length (drop n xs) ≡ length xs - n
  length-drop zero xs = omega arith
  length-drop (suc n) [] = omega arith
  length-drop (suc n) (x ∷ xs) = omega (arith, length-drop n xs)

  pub length-map {κ} : {B : Type κ} (f : A → B) (xs : List A) → length (map f xs) ≡ length xs
  length-map f [] = refl
  length-map f (x ∷ xs) = ap suc (length-map f xs)

  -- `for start := 0; start < len(xs); start += n` over `xs[start:end]`. The fuel counts the
  -- rounds, and `length xs` rounds are enough for any positive `n`.
  chunk_loop : ℕ → ℕ → List A → List (List A)
  chunk_loop zero n xs = []
  chunk_loop (suc f) n [] = []
  chunk_loop (suc f) n (x ∷ xs) = take n (x ∷ xs) ∷ chunk_loop f n (drop n (x ∷ xs))

  unfoldable pub chunks : ℕ → List A → List (List A)
  unfolding chunk_loop
  chunks n xs = chunk_loop (length xs) n xs

module _ {ℓ} {A : Type ℓ} where
  flatten-chunk_loop :
      (f n : ℕ) (xs : List A) → length xs ≤ f → 0 < n → flatten (chunk_loop f n xs) ≡ xs
  unfolding chunk_loop flatten
  flatten-chunk_loop zero n [] h p = refl
  flatten-chunk_loop zero n (x ∷ xs) h p = absurd (omega arith)
  flatten-chunk_loop (suc f) n [] h p = refl
  flatten-chunk_loop (suc f) zero (x ∷ xs) h p = absurd (omega arith)
  flatten-chunk_loop (suc f) (suc n) (x ∷ xs) h p =
      rw (flatten-chunk_loop f (suc n) (drop n xs) (omega (arith, length-drop n xs)) p)
        (ap (◌∷◌ x) (take-append-drop n xs))

  -- The chunks are the list, in order: the loop visits every element once.
  pub flatten-chunks : (n : ℕ) (xs : List A) → 0 < n → flatten (chunks n xs) ≡ xs
  unfolding chunks
  flatten-chunks n xs p = flatten-chunk_loop (length xs) n xs (omega arith) p

  -- The first chunk of a list that is not empty.
  pub chunks-cons :
      (n : ℕ) (x : A) (xs : List A)
      → (rest : List (List A)) × (chunks n (x ∷ xs) ≡ take n (x ∷ xs) ∷ rest)
  unfolding chunks
  chunks-cons n x xs = (chunk_loop (length xs) n (drop n (x ∷ xs)), refl)
