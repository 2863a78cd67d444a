-- ===== src/Store/Rows.antt =====
-- What the statements of internal/store/store.go do to the rows of `kv_store`, whose primary key
-- is `key`.
use text.Mathlib.Text.{◌==◌}
use kvp.Prelude.{
  ◌+◌, ◌≤◌, String, ◌≡◌, refl, ap, true, Bool, Option, none, some, List, [], ◌∷◌, arith, eq_iff,
  inl, inr, Bool-cases, if◌then◌else◌, length,
}
use kvp.Store.Sql.{Row, Db, answer, ask, exec, upsert, select_row, delete_where, delete_in, mem}

-- No two rows have one key.
abbrev pub IsKeyed : List Row → Type 0
IsKeyed [] = Unit
IsKeyed (q ∷ rows) = (select_row q.key rows ≡ none) × IsKeyed rows

-- A row that a test deletes is not found any more.
abbrev pub unless : (Row → Bool) → Option Row → Option Row
unless test none = none
unless test (some q) = if test q then none else some q

pub select_row-upsert :
    (r : Row) (k : String) (rows : List Row)
    → select_row k (upsert r rows) ≡ (if r.key == k then some r else select_row k rows)
unfolding select_row upsert
select_row-upsert r k [] = refl
select_row-upsert r k (q ∷ rows) =
    ground (arith, eq_iff r.key k, eq_iff q.key r.key, eq_iff q.key k, select_row-upsert r k rows)

pub key-select_row :
    (k : String) (rows : List Row) (q : Row) → select_row k rows ≡ some q → q.key ≡ k
unfolding select_row
key-select_row k [] q h = ground arith
key-select_row k (p ∷ rows) q h = ground (arith, eq_iff p.key k, key-select_row k rows q)

unless-none :
    (test : Row → Bool) (k : String) (rows : List Row)
    → select_row k rows ≡ none
    → select_row k (delete_where test rows) ≡ none
unfolding select_row delete_where
unless-none test k [] h = refl
unless-none test k (q ∷ rows) h = ground (arith, unless-none test k rows)

pub select_row-delete_where :
    (test : Row → Bool) (k : String) (rows : List Row)
    → IsKeyed rows
    → select_row k (delete_where test rows) ≡ unless test (select_row k rows)
unfolding select_row delete_where
select_row-delete_where test k [] h = refl
select_row-delete_where test k (q ∷ rows) h =
    ground (arith, eq_iff q.key k, unless-none test k rows, select_row-delete_where test k rows h.1)

pub upsert-IsKeyed : (r : Row) (rows : List Row) → IsKeyed rows → IsKeyed (upsert r rows)
unfolding upsert select_row
upsert-IsKeyed r [] h = (refl, tt)
upsert-IsKeyed r (q ∷ rows) h = elim (Bool-cases (q.key == r.key)) [
  | inl e ↦ rw e (rw ((eq_iff q.key r.key).0 e) at h)
  | inr n ↦ ground (
    arith,
    upsert-IsKeyed r rows h.1,
    select_row-upsert r q.key rows,
    eq_iff q.key r.key,
    eq_iff r.key q.key,
  )
]

pub delete_where-IsKeyed :
    (test : Row → Bool) (rows : List Row) → IsKeyed rows → IsKeyed (delete_where test rows)
unfolding delete_where
delete_where-IsKeyed test [] h = tt
delete_where-IsKeyed test (q ∷ rows) h =
    ground (arith, delete_where-IsKeyed test rows h.1, unless-none test q.key rows)

pub length-delete_where :
    (test : Row → Bool) (rows : List Row) → length (delete_where test rows) ≤ length rows
unfolding delete_where
length-delete_where test [] = omega arith
length-delete_where test (q ∷ rows) = ground (arith, length-delete_where test rows)

module _ (k : String) (ks : List String) where
  -- To delete by one more key is to delete by it after the others.
  mem-cons_absent :
      (rows : List Row)
      → select_row k rows ≡ none
      → length (delete_in ks rows) ≤ length (delete_in (k ∷ ks) rows)
  unfolding delete_in delete_where mem select_row
  mem-cons_absent [] h = omega arith
  mem-cons_absent (q ∷ rows) h =
      ground (arith, mem-cons_absent rows, eq_iff k q.key, eq_iff q.key k)

  delete_in-cons :
      (rows : List Row)
      → IsKeyed rows
      → length (delete_in ks rows) ≤ length (delete_in (k ∷ ks) rows) + 1
  unfolding delete_in delete_where mem
  delete_in-cons [] h = omega arith
  delete_in-cons (q ∷ rows) h =
      ground (arith, delete_in-cons rows h.1, mem-cons_absent rows, eq_iff k q.key, eq_iff q.key k)

delete_in-nil : (rows : List Row) → delete_in [] rows ≡ rows
unfolding delete_in delete_where mem
delete_in-nil [] = refl
delete_in-nil (q ∷ rows) = rw (delete_in-nil rows)

-- A DELETE by `n` keys removes at most `n` rows.
pub length-delete_in :
    (ks : List String) (rows : List Row)
    → IsKeyed rows
    → length rows ≤ length (delete_in ks rows) + length ks
length-delete_in [] rows h = rw (delete_in-nil rows) (omega arith)
length-delete_in (k ∷ ks) rows h =
    omega (arith, delete_in-cons k ks rows h, length-delete_in ks rows h)

rows-answer : (d : Db) (bs : List Bool) → (answer d bs).1.rows ≡ d.rows
rows-answer d [] = refl
rows-answer d (b ∷ bs) = refl

-- A call by itself changes no row.
pub rows-ask : (d : Db) → (ask d).1.rows ≡ d.rows
unfolding ask
rows-ask d = rows-answer d d.outcomes

-- A statement that fails changes no row.
pub rows-exec :
    (f : List Row → List Row) (d : Db)
    → (exec f d).1.rows ≡ (if (exec f d).0 then f d.rows else d.rows)
unfolding exec
rows-exec f d = elim (Bool-cases (ask d).0) [
  | inl ok ↦ rw (ok, rows-ask)
  | inr failed ↦ rw (failed, rows-ask)
]

pub exec-IsKeyed :
    (f : List Row → List Row) (d : Db)
    → ((rows : List Row) → IsKeyed rows → IsKeyed (f rows))
    → IsKeyed d.rows
    → IsKeyed (exec f d).1.rows
exec-IsKeyed f d keeps h =
    rw rows-exec (elim (Bool-cases (exec f d).0) [
      | inl ok ↦ rw ok (keeps d.rows h)
      | inr failed ↦ rw failed h
    ])

-- With no failure to come a call succeeds and leaves the database as it was.
pub ask-quiet : (d : Db) → d.outcomes ≡ [] → ask d ≡ (true, d)
unfolding ask
ask-quiet d quiet = ap (answer d) quiet
