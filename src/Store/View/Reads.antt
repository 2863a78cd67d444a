-- ===== src/Store/View/Reads.antt =====
-- internal/store/store.go: Get answers by the client's view, and removes only what has expired.
use text.Mathlib.Text.{◌==◌}
use mathlib.Core.Path.{subst}
use kvp.Prelude.{
  ℕ, String, ◌≡◌, refl, true, false, Option, none, some, List, ap, sym, ◌∙◌, arith, eq_iff, inl,
  inr, Bool-cases, ==_iff, if◌then◌else◌,
}
use kvp.Assoc.{lookup, lookup-erase}
use kvp.Store.Clock.{TimeText, after}
use kvp.Store.Sql.{Bytes, Row, ask, exec, delete_where, select_row}
use kvp.Store.Rows.{rows-ask, rows-exec, select_row-delete_where, key-select_row, unless}
use kvp.Store.State.{Entry, Store, Straggler, caching, cache_drop, drop_expired_entry, drop_if_same}
use kvp.Store.Read.{
  GetResult, gone, has_key, get_entry, get_cached, get_parsed, lazily_delete, get_row, get_db, get,
}
use kvp.Store.Valid.{IsValid}
use kvp.Store.Safety.Reads.{asked-IsValid}
use kvp.Store.View.{view, reply_of, reply, of_entry, of_row, with_time}
use kvp.Store.View.Writes.{view_on, view_off}

-- The view without the value, if its time has passed.
abbrev pub until : ℕ → Option (Bytes × ℕ) → Option (Bytes × ℕ)
until now none = none
until now (some (value, t)) = if after now t then none else some (value, t)

module _ ⦃c : TimeText⦄ where
  reply-get_entry :
      (key : String) (now : ℕ) (o : Option Entry) (s : Store)
      → reply_of (get_entry key now o s).0 ≡ reply now (of_entry o)
  unfolding reply_of
  reply-get_entry key now none s = refl
  reply-get_entry key now (some e) s = ground arith

  reply-get_parsed :
      (key : String) (now : ℕ) (value : Bytes) (o : Option ℕ) (s : Store)
      → (get_parsed key now value o s).1 ≡ none
      → reply_of (get_parsed key now value o s).0 ≡ reply now (with_time value o)
  unfolding reply_of
  reply-get_parsed key now value none s h = cc
  reply-get_parsed key now value (some t) s h = ground arith

  reply-get_row :
      (key : String) (now : ℕ) (o : Option Row) (s : Store)
      → (get_row key now o s).1 ≡ none
      → reply_of (get_row key now o s).0 ≡ reply now (of_row o)
  unfolding reply_of
  reply-get_row key now none s h = refl
  reply-get_row key now (some q) s h = reply-get_parsed key now q.value (c.parse q.expires_at) s h

  -- A read that returns no error answers by the view: the value up to and at its expiry, expired
  -- after it, absent where the view has nothing.
  pub get-eq-view :
      (key : String) (now : ℕ) (s : Store)
      → (get key now s).1 ≡ none
      → reply_of (get key now s).0 ≡ reply now (view s key)
  unfolding get get_cached get_db
  get-eq-view key now s h = elim (Bool-cases (caching s)) [
    | inl on ↦ rw (on, view_on s key on) (reply-get_entry key now (lookup key s.cache) s)
    | inr off ↦ elim (Bool-cases (ask s.db).0) [
      | inl ok ↦
          rw (off, ok, view_off s key off)
            (reply-get_row key now (select_row key (ask s.db).1.rows) _ (rw (off, ok) at h)
              ∙ ap (λ rows. reply now (of_row (select_row key rows))) (rows-ask s.db))
      | inr failed ↦ cc (rw (off, failed) at h)
    ]
  ]

  -- The view after an operation that touched `key` alone.
  abbrev Forgets : String → ℕ → Store → Store → String → Type 0
  Forgets key now s s' j = view s' j ≡ (if key == j then until now (view s j) else view s j)

  Forgets-live :
      (key : String) (now : ℕ) (s s' : Store) (j : String)
      → until now (view s key) ≡ view s key
      → view s' j ≡ view s j
      → Forgets key now s s' j
  Forgets-live key now s s' j live same = elim (Bool-cases (key == j)) [
    | inl e ↦
        let p : key ≡ j = (eq_iff key j).0 e in
        rw (e, same) (sym (subst (λ k. until now (view s k) ≡ view s k) p live))
    | inr n ↦ rw (n, same)
  ]

  Forgets-old :
      (key : String) (now : ℕ) (s s' : Store) (j : String)
      → until now (view s key) ≡ none
      → view s' j ≡ (if key == j then none else view s j)
      → Forgets key now s s' j
  Forgets-old key now s s' j old same = elim (Bool-cases (key == j)) [
    | inl e ↦
        let p : key ≡ j = (eq_iff key j).0 e in
        rw (e, same) (rw e (sym (subst (λ k. until now (view s k) ≡ none) p old)))
    | inr n ↦ rw (n, same) (rw n)
  ]

  view-dropped :
      (key : String) (e : Entry) (s : Store) (gs : List Straggler) (j : String)
      → caching s ≡ true
      → view (record (drop_if_same key e.expires_at (some e) s) { stragglers = gs }) j
        ≡ (if key == j then none else view s j)
  view-dropped key e s gs j on = rw ((==_iff e.expires_at e.expires_at).1 refl) (
      view_on (record (cache_drop key s) { stragglers = gs }) j (unfold cache_drop in on)
      ∙ rw (view_on s j on) (unfold cache_drop in rw lookup-erase (ground arith)))

  view-get_entry :
      (key : String) (now : ℕ) (s : Store) (j : String) (o : Option Entry)
      → caching s ≡ true
      → lookup key s.cache ≡ o
      → Forgets key now s (get_entry key now o s).2 j
  unfolding drop_expired_entry
  view-get_entry key now s j none on found =
      Forgets-live key now s s j (rw (view_on s key on, found)) refl
  view-get_entry key now s j (some e) on found = elim (Bool-cases (after now e.expires_at)) [
    | inl old ↦ rw old (
        Forgets-old key now s _ j (rw (view_on s key on, found, old))
          (rw found (view-dropped key e s _ j on)))
    | inr live ↦ rw live (Forgets-live key now s s j (rw (view_on s key on, found, live)) refl)
  ]

  of_row-unless :
      (key j : String) (o : Option Row)
      → ((q : Row) → o ≡ some q → q.key ≡ j)
      → of_row (unless (has_key key) o) ≡ (if key == j then none else of_row o)
  of_row-unless key j none at = ground arith
  of_row-unless key j (some q) at = rw (at q refl) (elim (Bool-cases (j == key)) [
    | inl e ↦ rw (e, (eq_iff key j).1 (sym ((eq_iff j key).0 e)))
    | inr n ↦ rw n (ground (arith, eq_iff j key, eq_iff key j))
  ])

  view-lazily_delete :
      (key : String) (res : GetResult) (s : Store) (j : String)
      → IsValid s
      → caching s ≡ false
      → (lazily_delete key res s).1 ≡ none
      → view (lazily_delete key res s).2 j ≡ (if key == j then none else view s j)
  view-lazily_delete key res s j v off h =
      elim (Bool-cases (exec (delete_where (has_key key)) s.db).0) [
        | inl ok ↦
            view_off (record s { db = (exec (delete_where (has_key key)) s.db).1 }) j off
            ∙ rw (rows-exec, ok)
                (rw
                  (select_row-delete_where (has_key key) j s.db.rows v.rows_keyed, view_off s j off)
                  (of_row-unless key j (select_row j s.db.rows) (key-select_row j s.db.rows)))
        | inr failed ↦ cc (rw failed at h)
      ]

  view-get_parsed :
      (key : String) (now : ℕ) (value : Bytes) (o : Option ℕ) (s : Store) (j : String)
      → IsValid s
      → caching s ≡ false
      → view s key ≡ with_time value o
      → (get_parsed key now value o s).1 ≡ none
      → Forgets key now s (get_parsed key now value o s).2 j
  view-get_parsed key now value none s j v off at h = Forgets-live key now s s j (rw at) refl
  view-get_parsed key now value (some t) s j v off at h = elim (Bool-cases (after now t)) [
    | inl old ↦ rw old (
        Forgets-old key now s _ j (rw (at, old))
          (view-lazily_delete key (gone value) s j v off (rw old at h)))
    | inr live ↦ rw live (Forgets-live key now s s j (rw (at, live)) refl)
  ]

  view-get_row :
      (key : String) (now : ℕ) (o : Option Row) (s : Store) (j : String)
      → IsValid s
      → caching s ≡ false
      → view s key ≡ of_row o
      → (get_row key now o s).1 ≡ none
      → Forgets key now s (get_row key now o s).2 j
  view-get_row key now none s j v off at h = Forgets-live key now s s j (rw at) refl
  view-get_row key now (some q) s j v off at h =
      view-get_parsed key now q.value (c.parse q.expires_at) s j v off at h

  view-ask :
      (s : Store) (j : String)
      → caching s ≡ false
      → view (record s { db = (ask s.db).1 }) j ≡ view s j
  view-ask s j off =
      view_off (record s { db = (ask s.db).1 }) j off
      ∙ ap (λ rows. of_row (select_row j rows)) (rows-ask s.db)
      ∙ sym (view_off s j off)

  -- A read that returns no error removes its own key once the key has expired, and nothing else.
  pub view-get :
      (key : String) (now : ℕ) (s : Store)
      → IsValid s
      → (get key now s).1 ≡ none
      → (j : String)
      → view (get key now s).2 j ≡ (if key == j then until now (view s j) else view s j)
  unfolding get get_cached get_db
  view-get key now s v h j = elim (Bool-cases (caching s)) [
    | inl on ↦ rw on (view-get_entry key now s j (lookup key s.cache) on refl)
    | inr off ↦ elim (Bool-cases (ask s.db).0) [
      | inl ok ↦
          rw (off, ok)
            (view-get_row key now _ (record s { db = (ask s.db).1 }) j (asked-IsValid v) off
                (view_off (record s { db = (ask s.db).1 }) key off) (rw (off, ok) at h)
              ∙ ap (λ w. if key == j then until now w else w) (view-ask s j off))
      | inr failed ↦ cc (rw (off, failed) at h)
    ]
  ]
