-- ===== src/Store/Mode.antt =====
-- internal/store/store.go: `PutMode`, its text and its parser.
use Prim.Native.Char.{code}
use kvp.Prelude.{
  ℕ, ◌+◌, String, ◌≡◌, refl, Bool, true, false, ◌&&◌, Option, none, some, List, [], ◌∷◌, map, arith,
  leb, ◌==◌, ◌↔◌, inl, inr, Bool-cases, if◌then◌else◌,
}

-- How durable a write is: PutSync, PutAsync, PutMemory.
pub data PutMode : Type 0 where
  put_sync put_async put_memory : PutMode

unfoldable pub mode_text : PutMode → String
mode_text put_sync = "sync"
mode_text put_async = "async"
mode_text put_memory = "memory"

-- The code points of a text.
abbrev pub codes : String → List ℕ
codes (String.◌∷◌ first others) = code first ∷ codes others
codes String.[] = []

abbrev pub same_codes : List ℕ → List ℕ → Bool
same_codes [] [] = true
same_codes [] (b ∷ bs) = false
same_codes (a ∷ as') [] = false
same_codes (a ∷ as') (b ∷ bs) = a == b && same_codes as' bs

-- `strings.ToLower` on one character. No character beyond ASCII has a lower case among the letters
-- of the three mode names, so the rest of the case table cannot change the parser's answer.
unfoldable pub to_lower : ℕ → ℕ
to_lower c = if leb b'A' c && leb c b'Z' then c + 32 else c

-- `strings.ToLower(v) == name`
unfoldable pub lower_is : String → String → Bool
unfolding to_lower
lower_is v name = same_codes (map to_lower (codes v)) (codes name)

-- `none` where the source's `ok` is false; the mode that it returns there is read by no caller.
unfoldable pub parse_put_mode : String → Option PutMode
unfolding lower_is
parse_put_mode v =
    if lower_is v "sync"
    then some put_sync
    else if lower_is v "async"
    then some put_async
    else if lower_is v "memory"
    then some put_memory
    else none

pub same_codes_eq : (xs ys : List ℕ) → same_codes xs ys ≡ true → xs ≡ ys
same_codes_eq [] [] h = refl
same_codes_eq [] (y ∷ ys) h = ground arith
same_codes_eq (x ∷ xs) [] h = ground arith
same_codes_eq (x ∷ xs) (y ∷ ys) h = ground (arith, same_codes_eq xs ys)

pub same_codes_refl : (xs : List ℕ) → same_codes xs xs ≡ true
same_codes_refl [] = refl
same_codes_refl (x ∷ xs) = ground (arith, same_codes_refl xs)

-- What `lower_is` tests: the lower-case form of the text is the name.
abbrev pub Spells : String → String → Type 0
Spells v name = map to_lower (codes v) ≡ codes name

pub lower_is_iff : (v name : String) → (lower_is v name ≡ true) ↔ Spells v name
unfolding lower_is
lower_is_iff v name = (same_codes_eq _ _, λ e. rw e (same_codes_refl (codes name)))

module _ (v : String) where
  Spells-all :
      ((lower_is v "sync" ≡ true) ↔ Spells v "sync")
      × ((lower_is v "async" ≡ true) ↔ Spells v "async")
      × ((lower_is v "memory" ≡ true) ↔ Spells v "memory")
  Spells-all = (lower_is_iff v "sync", lower_is_iff v "async", lower_is_iff v "memory")

  parsed-Spells : (m : PutMode) → parse_put_mode v ≡ some m → Spells v (mode_text m)
  unfolding parse_put_mode mode_text
  parsed-Spells put_sync h = Spells-all.0.0 (ground arith)
  parsed-Spells put_async h = Spells-all.1.0 (ground arith)
  parsed-Spells put_memory h = Spells-all.2.0 (ground arith)

  Spells-parsed : (m : PutMode) → Spells v (mode_text m) → parse_put_mode v ≡ some m
  unfolding parse_put_mode mode_text
  Spells-parsed put_sync h = rw (Spells-all.0.1 h)
  Spells-parsed put_async h = elim (Bool-cases (lower_is v "sync")) [
    | inl e ↦ cc (Spells-all.0.0 e)
    | inr n ↦ rw (n, Spells-all.1.1 h)
  ]
  Spells-parsed put_memory h = elim (Bool-cases (lower_is v "sync")) [
    | inl e ↦ cc (Spells-all.0.0 e)
    | inr n ↦ elim (Bool-cases (lower_is v "async")) [
      | inl e ↦ cc (Spells-all.1.0 e)
      | inr k ↦ rw (n, k, Spells-all.2.1 h)
    ]
  ]

-- The parser accepts a text exactly when it spells a mode's name in some mix of cases, and then
-- returns that mode.
pub parse_put_mode_exact :
    (v : String) (m : PutMode) → (parse_put_mode v ≡ some m) ↔ Spells v (mode_text m)
parse_put_mode_exact v m = (parsed-Spells v m, Spells-parsed v m)
