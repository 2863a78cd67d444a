-- ===== src/Store/Durable/Deletions.antt =====
-- internal/store/store.go: the background deletions of `getCached` keep the store that agrees with its
-- rows, and a store that opens is one.
use mathlib.Core.Path.{subst}
use kvp.Prelude.{ℕ, String, true, ◌≡◌, refl, ap, sym, ◌∙◌, Option, none, some, List, [], ◌∷◌, arith}
use kvp.Assoc.{lookup}
use kvp.Store.Clock.{TimeText}
use kvp.Store.Sql.{Bytes, Db}
use kvp.Store.State.{Entry, Store, Straggler, caching}
use kvp.Store.Read.{pick, run_picked, run_straggler, run_stragglers, open_store}
use kvp.Store.Rows.{IsKeyed}
use kvp.Store.Safety.Reads.{run_straggler-IsValid}
use kvp.Store.View.{view, of_entry}
use kvp.Store.View.Writes.{view_on}
use kvp.Store.Durable.{durable}
use kvp.Store.Durable.Coherent.{Backed}
use kvp.Store.Durable.Opening.{open_store-OpenedOn, open_store-IsSound}
use kvp.Prelude.Int.{ℤ, pos, ltb_ℤ}
use kvp.Store.Durable.Pending.{
  AllLate, AllPicked, AllLate-Follows, Follows-same, pick-AllPicked, picked-durable,
}
use kvp.Store.Durable.Unspoiled.{IsUnspoiled}

module _ ⦃c : TimeText⦄ where
  -- A goroutine deletes no row that an entry of the memory layer stands on.
  Backed-kept :
      (o : Option Entry) (p p' : Option (Bytes × ℕ))
      → (p ≡ of_entry o → p' ≡ p)
      → Backed o p
      → Backed o p'
  Backed-kept none p p' k b = tt
  Backed-kept (some e) p p' k b = λ fixed. k (b fixed) ∙ b fixed

  picked-cache :
      (o : Option (Straggler × List Straggler)) (s : Store)
      → ((run_picked o s).cache ≡ s.cache) × ((run_picked o s).mem_limit ≡ s.mem_limit)
  picked-cache none s = (refl, refl)
  picked-cache (some (g, gs)) s = (refl, refl)

  picked-AllLate :
      (t : ℕ) (held : String → Option (Bytes × ℕ)) (o : Option (Straggler × List Straggler))
      (s : Store)
      → AllLate t held s.stragglers
      → AllPicked t held o
      → AllLate t held (run_picked o s).stragglers
  picked-AllLate t held none s a p = a
  picked-AllLate t held (some (g, gs)) s a p = p.1

  module _ (t n : ℕ) (s : Store) (u : IsUnspoiled t s) where
    picked : AllPicked t (view s) (pick n s.stragglers)
    picked = pick-AllPicked t (view s) n s.stragglers u.late

    pub cache-run_straggler : (run_straggler n s).cache ≡ s.cache
    unfolding run_straggler
    cache-run_straggler = (picked-cache (pick n s.stragglers) s).0

    straggler_on : caching (run_straggler n s) ≡ true
    unfolding run_straggler
    straggler_on = rw (picked-cache (pick n s.stragglers) s).1 u.sound.is_on

    pub view-run_straggler : (j : String) → view (run_straggler n s) j ≡ view s j
    view-run_straggler j =
        view_on (run_straggler n s) j straggler_on
        ∙ ap (λ m. of_entry (lookup j m)) cache-run_straggler
        ∙ sym (view_on s j u.sound.is_on)

    -- A row that holds what its key holds in the memory layer is not deleted.
    pub durable-run_straggler :
        (j : String)
        → durable s.db.rows j ≡ view s j
        → durable (run_straggler n s).db.rows j ≡ durable s.db.rows j
    unfolding run_straggler
    durable-run_straggler j h =
        picked-durable t (view s) (pick n s.stragglers) s j u.sound.valid.rows_keyed picked h

    pub run_straggler-IsUnspoiled : IsUnspoiled t (run_straggler n s)
    run_straggler-IsUnspoiled = record {
      sound = record {
        is_on = straggler_on;
        valid = run_straggler-IsValid n s u.sound.valid;
        coherent = λ j.
            subst (λ m. Backed (lookup j m) (durable (run_straggler n s).db.rows j))
              (sym cache-run_straggler)
              (Backed-kept (lookup j s.cache) _ _
                (λ same. durable-run_straggler j (same ∙ sym (view_on s j u.sound.is_on)))
                (u.sound.coherent j));
      };
      late =
          AllLate-Follows t t (view s) (view (run_straggler n s)) _ (omega arith)
            (λ j. Follows-same t _ _ (view-run_straggler j))
            (unfold run_straggler in
              picked-AllLate t (view s) (pick n s.stragglers) s u.late picked);
    }

  pub open_store-IsUnspoiled :
      (t : ℕ) (path : String) (limit : ℤ) (now : ℕ) (d : Db) (s : Store)
      → IsKeyed d.rows
      → ltb_ℤ (pos 0) limit ≡ true
      → (open_store path limit now d).1 ≡ some s
      → IsUnspoiled t s
  open_store-IsUnspoiled t path limit now d s k on h = record {
    sound = open_store-IsSound path limit now d s k on h;
    late = subst (AllLate t (view s)) (sym (open_store-OpenedOn path limit now d s h).2) tt;
  }

  -- However many goroutines run, a row that holds what its key holds in the memory layer stays.
  pub durable-run_stragglers :
      (t : ℕ) (ns : List ℕ) (s : Store) (j : String)
      → IsUnspoiled t s
      → durable s.db.rows j ≡ view s j
      → IsKeyed (run_stragglers ns s).db.rows
        × (durable (run_stragglers ns s).db.rows j ≡ durable s.db.rows j)
  unfolding run_stragglers
  durable-run_stragglers t [] s j u h = (u.sound.valid.rows_keyed, refl)
  durable-run_stragglers t (n ∷ ns) s j u h =
      let same = durable-run_straggler t n s u j h in
      let rest =
        durable-run_stragglers t ns (run_straggler n s) j (run_straggler-IsUnspoiled t n s u)
          (same ∙ h ∙ sym (view-run_straggler t n s u j)) in
      (rest.0, rest.1 ∙ same)
