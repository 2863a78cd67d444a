-- ===== src/Server/Safety.antt =====
-- internal/server: what a request may change, through the whole chain of middlewares.
use kvp.Prelude.{◌≡◌, ◌⊎◌, refl}
use kvp.Assoc.{Assoc}
use kvp.Store.Clock.{TimeText}
use kvp.Store.Valid.{IsValid}
use kvp.Store.Safety.Writes.{put_with_mode-IsValid}
use kvp.Store.Safety.Reads.{get-IsValid}
use kvp.Server.Http.{Request, Outcome, Net, Server}
use kvp.Server.Keeps.{handle-keeps}
use kvp.Server.Middleware.{Readings, recover, handle}

module _ ⦃c : TimeText⦄ ⦃net : Net⦄ where
  -- The store's invariant holds after every request, whatever it is answered, a panic included.
  pub handle-IsValid :
      (t : Readings) (r : Request) (s : Server) → IsValid s.store → IsValid (handle t r s).1.store
  handle-IsValid t r s v =
      handle-keeps t.store_at IsValid (λ key. get-IsValid key t.store_at)
        (λ key value ttl mode. put_with_mode-IsValid key value ttl mode t.store_at) t r s refl v

  -- A request that has been answered, with what it leaves of the store.
  record Untouched (s : Server) (o : Outcome × Server) : Type 0 where
    store_same : o.1.store ≡ s.store
    nothing_started : o.1.after_writes ≡ s.after_writes
    status_in : (recover o).0.status ≡ 401 ⊎ ((recover o).0.status ≡ 429)
