-- ===== src/Store/Durable/Restart.antt =====
-- internal/store/store.go: what a restart after a flush keeps, for a store in which the memory layer
-- agrees with the rows.
use mathlib.Core.Path.{subst}
use kvp.Prelude.{
  ℕ, String, List, ◌≡◌, refl, ap, sym, ◌∙◌, Bool, true, false, not, ◌||◌, none, some, arith, inl,
  inr, Bool-cases,
}
use kvp.Prelude.Int.{ℤ}
use kvp.Assoc.{lookup, keys}
use kvp.Store.Clock.{TimeText}
use kvp.Store.Sql.{Db, mem}
use kvp.Store.State.{Entry, Store}
use kvp.Store.Write.{flush}
use kvp.Store.Read.{open_store, run_stragglers}
use kvp.Store.View.{view, of_entry}
use kvp.Store.Durable.{durable}
use kvp.Store.Durable.Load.{reopened, view-open_store}
use kvp.Store.Durable.Flushed.{durable-flush, written}
use kvp.Store.Durable.Coherent.{Backed}
use kvp.Store.Durable.Sound.{IsSound}
use kvp.Store.Durable.Unspoiled.{IsUnspoiled, calls-IsUnspoiled, flush-IsUnspoiled}
use kvp.Store.Durable.Deletions.{durable-run_stragglers}
use kvp.Store.Rows.{IsKeyed}
use kvp.Store.View.Writes.{view_on, view-db}
use kvp.Store.View.Flushes.{view-flush}

module _ ⦃c : TimeText⦄ where
  -- An entry that a write in sync or async mode has made: its row holds it, or it waits for a flush.
  abbrev pub is_durable : String → Entry → Store → Bool
  is_durable key e s = not e.volatile || mem key (keys s.dirty)

  -- After a flush that succeeds, the row of an entry that is durable or waits for a flush holds it.
  pub flushed_row :
      (s : Store) (key : String) (e : Entry)
      → IsSound s
      → (flush s).1 ≡ none
      → lookup key s.cache ≡ some e
      → is_durable key e s ≡ true
      → durable (flush s).2.db.rows key ≡ some (e.value, e.expires_at)
  flushed_row s key e i done at kept = durable-flush s i.is_on done key ∙ in_row
    where
      backed : e.volatile ≡ false → durable s.db.rows key ≡ some (e.value, e.expires_at)
      backed fixed = subst (λ o. Backed o (durable s.db.rows key)) at (i.coherent key) fixed

      in_row :
          written (mem key (keys s.dirty)) (of_entry (lookup key s.cache)) (durable s.db.rows key)
          ≡ some (e.value, e.expires_at)
      in_row = elim (Bool-cases (mem key (keys s.dirty))) [
        | inl dirty ↦ rw (dirty, at) refl
        | inr clean ↦ rw clean (backed (ground (arith, kept, clean)))
      ]

  -- So a store that is opened on the rows shows it, whatever goroutines have run since.
  pub restart_keeps :
      (t : ℕ) (s : Store) (ns : List ℕ) (dbase : Db) (path : String) (limit : ℤ) (later : ℕ)
      (d : Db) (s' : Store) (key : String) (e : Entry)
      → IsUnspoiled t s
      → (flush s).1 ≡ none
      → dbase.rows ≡ (flush s).2.db.rows
      → d.rows ≡ (run_stragglers ns (record (flush s).2 { db = dbase })).db.rows
      → (open_store path limit later d).1 ≡ some s'
      → lookup key s.cache ≡ some e
      → is_durable key e s ≡ true
      → view s' key ≡ reopened limit later (some (e.value, e.expires_at))
  restart_keeps t s ns dbase path limit later d s' key e u done same run open' at kept =
      let after = calls-IsUnspoiled t (flush s).2 dbase same (flush-IsUnspoiled t s u) in
      let held : view (record (flush s).2 { db = dbase }) key ≡ some (e.value, e.expires_at) =
        view-db dbase (flush s).2 key (flush-IsUnspoiled t s u).sound.is_on
        ∙ view-flush s key
        ∙ view_on s key u.sound.is_on
        ∙ ap of_entry at in
      let row : durable dbase.rows key ≡ some (e.value, e.expires_at) =
        ap (λ rows. durable rows key) same ∙ flushed_row s key e u.sound done at kept in
      let rest =
        durable-run_stragglers t ns (record (flush s).2 { db = dbase }) key after
          (row ∙ sym held) in
      view-open_store path limit later d s' (subst IsKeyed (sym run) rest.0) open' key
      ∙ ap (reopened limit later) (ap (λ rows. durable rows key) run ∙ rest.1 ∙ row)
