-- ===== src/Store/Durable/Opening.antt =====
-- internal/store/store.go: a store that opens agrees with its rows.
use text.Mathlib.Text.{◌==◌}
use mathlib.Core.Path.{subst}
use kvp.Prelude.{
  ℕ, String, ◌≡◌, refl, ap, sym, ◌∙◌, Bool, true, false, Option, none, some, some_inj, List, [],
  ◌∷◌, arith, inl, inr, Bool-cases, Option-cases,
}
use kvp.Prelude.Int.{ℤ, pos, ltb_ℤ}
use kvp.Assoc.{lookup}
use kvp.Store.Clock.{TimeText, after}
use kvp.Store.Sql.{Bytes, Row, Db, ask}
use kvp.Store.Rows.{IsKeyed, rows-ask}
use kvp.Store.State.{Error, Entry, Straggler, Store, caching}
use kvp.Store.Read.{
  load_entry, load_loop, load_cache, migrate_loop, opened, open_migrated, open_store,
}
use kvp.Store.Safety.Opening.{open_store-IsValid, rows-migrate_loop}
use kvp.Store.View.{of_entry}
use kvp.Store.View.Reads.{until}
use kvp.Store.View.Writes.{view_on}
use kvp.Store.Durable.{durable}
use kvp.Store.Durable.Load.{view-open_store, db-load_entry, mem_limit-load_loop}
use kvp.Store.Durable.Coherent.{Backed}
use kvp.Store.Durable.Sound.{IsSound}

module _ ⦃c : TimeText⦄ where
  rows-load_loop :
      (now : ℕ) (rows : List Row) (s : Store) → (load_loop now rows s).1.db.rows ≡ s.db.rows
  unfolding load_loop
  rows-load_loop now [] s = rows-ask s.db
  rows-load_loop now (q ∷ rows) s = elim (Bool-cases (ask s.db).0) [
    | inr failed ↦ rw (failed, load_loop) (rows-ask s.db)
    | inl ok ↦ elim (Option-cases (c.parse q.expires_at)) [
      | inl bad ↦ rw (ok, load_loop, bad) (rows-ask s.db)
      | inr good ↦
          rw (ok, load_loop, good.1)
            (rows-load_loop now rows (load_entry q now good.0 (record s { db = (ask s.db).1 }))
              ∙ ap (λ d. d.rows) (db-load_entry q now good.0 (record s { db = (ask s.db).1 }))
              ∙ rows-ask s.db)
    ]
  ]

  -- A store that has been opened on the rows, with its limit and the goroutines that wait.
  abbrev pub OpenedOn : List Row → ℤ → List Straggler → Store → Type 0
  OpenedOn rows limit gs s = (s.db.rows ≡ rows) × (s.mem_limit ≡ limit) × (s.stragglers ≡ gs)

  stragglers-load_entry :
      (q : Row) (now t : ℕ) (s : Store) → (load_entry q now t s).stragglers ≡ s.stragglers
  stragglers-load_entry q now t s = ground arith

  stragglers-load_loop :
      (now : ℕ) (rows : List Row) (s : Store) → (load_loop now rows s).1.stragglers ≡ s.stragglers
  unfolding load_loop
  stragglers-load_loop now [] s = refl
  stragglers-load_loop now (q ∷ rows) s = elim (Bool-cases (ask s.db).0) [
    | inr failed ↦ rw (failed, load_loop) refl
    | inl ok ↦ elim (Option-cases (c.parse q.expires_at)) [
      | inl bad ↦ rw (ok, load_loop, bad) refl
      | inr good ↦
          rw (ok, load_loop, good.1)
            (stragglers-load_loop now rows _ ∙ stragglers-load_entry q now good.0 _)
    ]
  ]

  load_cache-OpenedOn :
      (now : ℕ) (s : Store) → OpenedOn s.db.rows s.mem_limit s.stragglers (load_cache now s).1
  unfolding load_cache
  load_cache-OpenedOn now s = elim (Bool-cases (ask s.db).0) [
    | inr failed ↦ rw failed (rows-ask s.db, refl, refl)
    | inl ok ↦
        let s' : Store = record s { db = (ask s.db).1 } in
        rw ok (
          rows-load_loop now (ask s.db).1.rows s' ∙ rows-ask s.db,
          mem_limit-load_loop now (ask s.db).1.rows s',
          stragglers-load_loop now (ask s.db).1.rows s',
        )
  ]

  opened_lem : (r : Option Error × Store) (s : Store) → (opened r).1 ≡ some s → r.1 ≡ s
  opened_lem (none, s') s h = some_inj h
  opened_lem (some err, s') s h = cc h

  open_migrated-OpenedOn :
      (limit : ℤ) (now : ℕ) (r : Bool × Db) (s : Store)
      → (open_migrated limit now r).1 ≡ some s
      → OpenedOn r.1.rows limit [] s
  open_migrated-OpenedOn limit now (false, d) s h = cc h
  open_migrated-OpenedOn limit now (true, d) s h = elim (Bool-cases (ltb_ℤ (pos 0) limit)) [
    | inl on ↦
        subst (OpenedOn d.rows limit []) (opened_lem (load_cache now _) s (rw on at h))
          (load_cache-OpenedOn now _)
    | inr off ↦ subst (OpenedOn d.rows limit []) (some_inj (rw off at h)) (refl, refl, refl)
  ]

  pub open_store-OpenedOn :
      (path : String) (limit : ℤ) (now : ℕ) (d : Db) (s : Store)
      → (open_store path limit now d).1 ≡ some s
      → OpenedOn d.rows limit [] s
  unfolding open_store
  open_store-OpenedOn path limit now d s h = elim (Bool-cases (path == "")) [
    | inl empty ↦ cc (rw empty at h)
    | inr named ↦ elim (Bool-cases (ask d).0) [
      | inr failed ↦ cc (rw (named, failed) at h)
      | inl ok ↦
          subst (λ rows. OpenedOn rows limit [] s) (rows-migrate_loop 5 (ask d).1 ∙ rows-ask d)
            (open_migrated-OpenedOn limit now (migrate_loop 5 (ask d).1) s (rw (named, ok) at h))
    ]
  ]

  until-some :
      (now : ℕ) (o : Option (Bytes × ℕ)) (p : Bytes × ℕ) → until now o ≡ some p → o ≡ some p
  until-some now none p h = cc h
  until-some now (some (value, t)) p h = elim (Bool-cases (after now t)) [
    | inl late ↦ cc (rw late at h)
    | inr live ↦ rw live at h
  ]

  -- A store that opens with the memory layer on agrees with its rows.
  pub open_store-IsSound :
      (path : String) (limit : ℤ) (now : ℕ) (d : Db) (s : Store)
      → IsKeyed d.rows
      → ltb_ℤ (pos 0) limit ≡ true
      → (open_store path limit now d).1 ≡ some s
      → IsSound s
  open_store-IsSound path limit now d s k on h =
      let o = open_store-OpenedOn path limit now d s h in
      let is_on : caching s ≡ true = ap (ltb_ℤ (pos 0)) o.1 ∙ on in
      record {
        is_on = is_on;
        valid = open_store-IsValid path limit now d s k h;
        coherent = λ j. backed j is_on o.0 (lookup j s.cache) refl;
      }
    where
      backed :
          (j : String)
          → caching s ≡ true
          → s.db.rows ≡ d.rows
          → (entry : Option Entry) → lookup j s.cache ≡ entry
          → Backed entry (durable s.db.rows j)
      backed j is_on rows none at = tt
      backed j is_on rows (some e) at = λ _.
          ap (λ r. durable r j) rows
          ∙ until-some now (durable d.rows j) (e.value, e.expires_at)
              (sym (view-open_store path limit now d s k h j ∙ rw on refl)
                ∙ view_on s j is_on
                ∙ ap of_entry at)
