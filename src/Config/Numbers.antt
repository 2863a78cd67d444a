-- ===== src/Config/Numbers.antt =====
-- internal/config/config.go: which numbers are accepted.
use native.Mathlib.Nat.{div-add-mod}
use kvp.Prelude.{
  ℕ, suc, zero, ◌+◌, ◌-◌, ◌*◌, ◌/◌, ◌%◌, ◌≤◌, ◌<◌, ◌≡◌, refl, some_inj, ap, sym, ◌∙◌, true, false,
  ◌&&◌, ◌==◌, none, some, List, [], ◌∷◌, ◌++◌, arith, inl, inr, Bool-cases, if◌then◌else◌, ltb, leb,
}
use kvp.Prelude.Int.{pos}
use kvp.Config.{is_digit, read_digits, max_int, positive_int64, parse_int, parse_positive_int}

-- The decimal digits of a number, on fuel; a number is fuel enough for its own digits.
unfoldable pub decimal_loop : ℕ → ℕ → List ℕ
decimal_loop zero n = (b'0' + n) ∷ []
decimal_loop (suc fuel) n =
    let front = decimal_loop fuel (n / 10) in
    if ltb n 10 then (b'0' + n) ∷ [] else front ++ (b'0' + n % 10) ∷ []

abbrev pub decimal : ℕ → List ℕ
decimal n = decimal_loop n n

-- One digit.
digit_of : (d : ℕ) → d < 10 → is_digit (b'0' + d) ≡ true
digit_of d h = ground arith

read_one : (d m : ℕ) → d < 10 → read_digits ((b'0' + d) ∷ []) m ≡ some (10 * m + d)
unfolding read_digits
read_one d m h = rw (digit_of d h, read_digits) (ap some (omega arith))

-- One more digit at the end.
read_digits-append :
    (xs : List ℕ) (d m n : ℕ)
    → d < 10
    → read_digits xs m ≡ some n
    → read_digits (xs ++ (b'0' + d) ∷ []) m ≡ some (10 * n + d)
unfolding read_digits
read_digits-append [] d m n h e = read_one d m h ∙ ap (λ k. some (10 * k + d)) (some_inj e)
read_digits-append (x ∷ xs) d m n h e = elim (Bool-cases (is_digit x)) [
  | inl good ↦
      rw (good, read_digits)
        (read_digits-append xs d (10 * m + (x - b'0')) n h (rw (good, read_digits) at e))
  | inr bad ↦ cc (rw (bad, read_digits) at e)
]

read_digits-decimal_loop : (fuel n : ℕ) → n ≤ fuel → read_digits (decimal_loop fuel n) 0 ≡ some n
unfolding decimal_loop
read_digits-decimal_loop zero n h = read_one n 0 (omega (arith, h)) ∙ ap some (omega arith)
read_digits-decimal_loop (suc fuel) n h = elim (Bool-cases (ltb n 10)) [
  | inl small ↦ rw small (read_one n 0 (ground arith) ∙ ap some (omega arith))
  | inr big ↦
      rw (big, decimal_loop)
        (read_digits-append (decimal_loop fuel (n / 10)) (n % 10) 0 (n / 10) (omega arith)
            (read_digits-decimal_loop fuel (n / 10) (ground arith))
          ∙ ap some (div-add-mod n 10))
]

-- The digits of a number begin with a digit.
decimal_head :
    (fuel n : ℕ)
    → n ≤ fuel
    → (c : ℕ) × (cs : List ℕ) × (decimal_loop fuel n ≡ c ∷ cs) × (is_digit c ≡ true)
unfolding decimal_loop
decimal_head zero n h = (b'0' + n, [], refl, digit_of n (omega (arith, h)))
decimal_head (suc fuel) n h = elim (Bool-cases (ltb n 10)) [
  | inl small ↦ rw small (b'0' + n, [], refl, digit_of n (ground arith))
  | inr big ↦
      let (c, cs, e, d) = decimal_head fuel (n / 10) (ground arith) in
      rw (big, decimal_loop)
        (c, cs ++ (b'0' + n % 10) ∷ [], ap (λ xs. xs ++ (b'0' + n % 10) ∷ []) e, d)
]

parse_digits :
    (c : ℕ) (cs : List ℕ)
    → is_digit c ≡ true
    → parse_int (c ∷ cs) ≡ positive_int64 (read_digits (c ∷ cs) 0)
unfolding parse_int
parse_digits c cs d =
    let minus : (c == b'-') ≡ false = ground arith in
    let plus : (c == b'+') ≡ false = ground arith in rw (minus, plus)

-- The decimal form of a number is accepted exactly when the number is positive and an int64, and
-- is then read as that number.
pub parse_positive_decimal :
    (n : ℕ)
    → parse_positive_int (decimal n) ≡ (if ltb 0 n && leb n max_int then some (pos n) else none)
unfolding parse_positive_int
parse_positive_decimal n =
    let (c, cs, e, d) = decimal_head n n (omega arith) in
    let value : read_digits (c ∷ cs) 0 ≡ some n =
      ap (λ xs. read_digits xs 0) (sym e) ∙ read_digits-decimal_loop n n (omega arith) in
    rw (e, parse_digits c cs d, value) (ground arith)
