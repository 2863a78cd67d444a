-- ===== src/Store/Durable/Pending.antt =====
-- internal/store/store.go: the goroutines that `getCached` starts delete only rows of entries that
-- have expired, as long as the clock's readings are in order.
use mathlib.Core.Path.{subst}
use kvp.Prelude.{
  ℕ, zero, suc, ◌<◌, ◌≤◌, String, ◌≡◌, refl, ap, sym, ◌∙◌, Option, none, some, List, [], ◌∷◌, ◌++◌,
  arith, eq_iff, inl, inr, Bool-cases,
}
use kvp.Store.Clock.{TimeText}
use kvp.Store.Sql.{Bytes, Row, exec, delete_where, select_row}
use kvp.Store.Rows.{IsKeyed, rows-exec, select_row-delete_where, unless, key-select_row}
use kvp.Store.State.{Store, Straggler}
use kvp.Store.Read.{is_straggler, pick, with_others, run_picked}
use kvp.Store.View.{of_row, with_time}
use kvp.Store.Durable.{durable}

module _ ⦃c : TimeText⦄ where
  -- What a key holds expires after `x`.
  abbrev pub Outlives : ℕ → Option (Bytes × ℕ) → Type 0
  Outlives x none = Unit
  Outlives x (some (value, t)) = x < t

  -- At the time `t` the goroutine's entry has expired, and what its key holds now expires later.
  abbrev pub Late : ℕ → (String → Option (Bytes × ℕ)) → Straggler → Type 0
  Late t held g = (x : ℕ) × (g.expires_text ≡ c.format x) × (x < t) × Outlives x (held g.key)

  abbrev pub AllLate : ℕ → (String → Option (Bytes × ℕ)) → List Straggler → Type 0
  AllLate t held [] = Unit
  AllLate t held (g ∷ gs) = Late t held g × AllLate t held gs

  -- Later, and with keys that hold what they held, nothing, or what expires at a later time.
  abbrev pub Follows : ℕ → Option (Bytes × ℕ) → Option (Bytes × ℕ) → Type 0
  Follows t old new = (x : ℕ) → x < t → Outlives x old → Outlives x new

  pub AllLate-Follows :
      (t t' : ℕ) (held held' : String → Option (Bytes × ℕ)) (gs : List Straggler)
      → t ≤ t'
      → ((j : String) → Follows t (held j) (held' j))
      → AllLate t held gs
      → AllLate t' held' gs
  AllLate-Follows t t' held held' [] h f a = tt
  AllLate-Follows t t' held held' (g ∷ gs) h f ((x, text, past, out), rest) = (
    (x, text, omega (arith, past, h), f g.key x past out),
    AllLate-Follows t t' held held' gs h f rest,
  )

  pub Follows-same : (t : ℕ) (old new : Option (Bytes × ℕ)) → new ≡ old → Follows t old new
  Follows-same t old new e x past out = subst (Outlives x) (sym e) out

  pub AllLate-add :
      (t : ℕ) (held : String → Option (Bytes × ℕ)) (gs : List Straggler) (g : Straggler)
      → AllLate t held gs
      → Late t held g
      → AllLate t held (gs ++ g ∷ [])
  AllLate-add t held [] g a l = (l, tt)
  AllLate-add t held (h ∷ gs) g a l = (a.0, AllLate-add t held gs g a.1 l)

  -- Whichever goroutine runs, it is one of those that wait, and the others go on waiting.
  abbrev pub AllPicked :
      ℕ → (String → Option (Bytes × ℕ)) → Option (Straggler × List Straggler) → Type 0
  AllPicked t held none = Unit
  AllPicked t held (some (g, gs)) = Late t held g × AllLate t held gs

  with_others-AllPicked :
      (t : ℕ) (held : String → Option (Bytes × ℕ)) (g : Straggler)
      (o : Option (Straggler × List Straggler))
      → Late t held g
      → AllPicked t held o
      → AllPicked t held (with_others g o)
  with_others-AllPicked t held g none l a = tt
  with_others-AllPicked t held g (some (h, hs)) l a = (a.0, (l, a.1))

  pub pick-AllPicked :
      (t : ℕ) (held : String → Option (Bytes × ℕ)) (n : ℕ) (gs : List Straggler)
      → AllLate t held gs
      → AllPicked t held (pick n gs)
  pick-AllPicked t held n [] a = tt
  pick-AllPicked t held zero (g ∷ gs) a = a
  pick-AllPicked t held (suc n) (g ∷ gs) a =
      with_others-AllPicked t held g (pick n gs) a.0 (pick-AllPicked t held n gs a.1)

  -- The row that the goroutine would delete has expired, so that what its key holds is not in it.
  kept_row :
      (t : ℕ) (held : String → Option (Bytes × ℕ)) (g : Straggler) (j : String) (o : Option Row)
      → ((q : Row) → o ≡ some q → q.key ≡ j)
      → Late t held g
      → of_row o ≡ held j
      → of_row (unless (is_straggler g.key g.expires_text) o) ≡ of_row o
  kept_row t held g j none own l h = refl
  kept_row t held g j (some q) own (x, text, past, out) h =
      elim (Bool-cases (is_straggler g.key g.expires_text q)) [
        | inr other ↦ rw other refl
        | inl hit ↦
            let named : q.key ≡ g.key = (eq_iff q.key g.key).0 (ground arith) in
            let dated : q.expires_at ≡ c.format x =
              (eq_iff q.expires_at g.expires_text).0 (ground arith) ∙ text in
            let timed : with_time q.value (c.parse q.expires_at) ≡ some (q.value, x) =
              rw (dated, c.parse-format x) refl in
            let here : held g.key ≡ some (q.value, x) =
              ap held (sym named ∙ own q refl) ∙ sym h ∙ timed in
            let over : x < x = subst (Outlives x) here out in absurd (omega (arith, over))
      ]

  pub picked-durable :
      (t : ℕ) (held : String → Option (Bytes × ℕ)) (o : Option (Straggler × List Straggler))
      (s : Store) (j : String)
      → IsKeyed s.db.rows
      → AllPicked t held o
      → durable s.db.rows j ≡ held j
      → durable (run_picked o s).db.rows j ≡ durable s.db.rows j
  picked-durable t held none s j k a h = refl
  picked-durable t held (some (g, gs)) s j k a h =
      ap (λ rows. durable rows j)
        (rows-exec (delete_where (is_straggler g.key g.expires_text)) s.db)
      ∙ elim (Bool-cases (exec (delete_where (is_straggler g.key g.expires_text)) s.db).0) [
        | inr failed ↦ rw failed refl
        | inl done ↦ rw done (
            unfold durable in
            ap of_row (select_row-delete_where (is_straggler g.key g.expires_text) j s.db.rows k)
            ∙ kept_row t held g j (select_row j s.db.rows) (key-select_row j s.db.rows) a.0
                (unfold durable in h))
      ]
