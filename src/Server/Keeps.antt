-- ===== src/Server/Keeps.antt =====
-- internal/server: what every request keeps of the store, because the store's operations keep it.
use text.Mathlib.Text.{◌==◌}
use Prim.Native.String.{len}
use kvp.Prelude.{
  ℕ, String, ◌≡◌, refl, sym, ◌∙◌, Bool, true, false, Option, none, some, inl, inr, ltb, Bool-cases,
  if◌then◌else◌,
}
use kvp.Assoc.{Assoc}
use kvp.Store.Clock.{TimeText}
use kvp.Store.Mode.{PutMode}
use kvp.Store.State.{Error, Store}
use mathlib.Core.Path.{subst}
use kvp.Store.Sql.{Bytes}
use kvp.Store.Read.{get}
use kvp.Store.Write.{put_with_mode, effective_mode}
use kvp.Server.RateLimit.{RateLimiter, allow, prune}
use kvp.Server.Http.{
  Request, header, Outcome, done, panics, Net, Server, BodyRead, too_large, broken, complete,
  is_ui_path, after_slash,
}
use kvp.Server.Handlers.{
  finish_put, serve_get, serve_post, serve_key_direct, post_body, post_read, route_key, route,
  resolve_mode,
}
use kvp.Server.Middleware.{
  Readings, client_ip, refuses, log_line, recover, auth, answer_limit, is_empty, rate_limit,
  access_log, request_id, handle,
}

pub store-log_line : (r : Request) (o : Outcome × Server) → (log_line r o).1.store ≡ o.1.store
store-log_line r (done w, s) = refl
store-log_line r (panics h, s) = refl

pub store-recover : (o : Outcome × Server) → (recover o).1.store ≡ o.1.store
store-recover (done w, s) = refl
store-recover (panics h, s) = refl

module _ ⦃c : TimeText⦄ (now : ℕ) (P : Store → Type 0)
    (get_keeps : (key : String) (s : Store) → P s → P (get key now s).2)
    (put_keeps : (key : String) (value : Bytes) (ttl : ℕ) (mode : PutMode) (s : Store)
      → P s
      → P (put_with_mode key value ttl mode now s).1) where
  finish_put-keeps :
      (mode : PutMode) (down : Bool) (h : Assoc String) (s : Server) (r : Option Error × Store)
      → P r.1
      → P (finish_put mode down h s r).1.store
  finish_put-keeps mode down h s (none, st) v = v
  finish_put-keeps mode down h s (some e, st) v = v

  post_read-keeps :
      (key : String) (r : Request) (b : BodyRead) (h : Assoc String) (s : Server)
      → P s.store
      → P (post_read key now r b h s).1.store
  post_read-keeps key r too_large h s v = v
  post_read-keeps key r broken h s v = v
  post_read-keeps key r (complete bytes) h s v =
      body (resolve_mode s.default_mode (header "X-Commit-Mode" r))
    where
      body : (o : Option PutMode) → P (post_body key now bytes o h s).1.store
      body none = v
      body (some mode) =
          finish_put-keeps (effective_mode s.store mode) _ h s _
            (put_keeps key bytes s.ttl (effective_mode s.store mode) s.store v)

  serve_key_direct-keeps :
      (key : String) (r : Request) (h : Assoc String) (s : Server)
      → P s.store
      → P (serve_key_direct key now r h s).1.store
  unfolding serve_key_direct serve_get serve_post
  serve_key_direct-keeps key r h s v = elim (Bool-cases (key == "")) [
    | inl empty ↦ rw empty v
    | inr named ↦ elim (Bool-cases (ltb s.max_key_bytes (len key))) [
      | inl long ↦ rw (named, long) v
      | inr short ↦ elim (Bool-cases (r.method == "GET")) [
        | inl read ↦ rw (named, short, read) (get_keeps key s.store v)
        | inr other ↦ elim (Bool-cases (r.method == "POST")) [
          | inl write ↦ rw (named, short, other, write) (post_read-keeps key r _ h s v)
          | inr neither ↦ rw (named, short, other, neither) v
        ]
      ]
    ]
  ]

  route_key-keeps :
      (o : Option String) (r : Request) (h : Assoc String) (s : Server)
      → P s.store
      → P (route_key o now r h s).1.store
  route_key-keeps none r h s v = v
  route_key-keeps (some key) r h s v = serve_key_direct-keeps key r h s v

  route-keeps :
      (r : Request) (h : Assoc String) (s : Server) → P s.store → P (route now r h s).1.store
  unfolding route
  route-keeps r h s v = elim (Bool-cases (is_ui_path r.path)) [
    | inr key ↦ rw key (route_key-keeps (after_slash r.path) r h s v)
    | inl ui ↦ elim (Bool-cases (r.method == "GET")) [
      | inl read ↦ rw (ui, read) v
      | inr other ↦ rw (ui, other) v
    ]
  ]

  module _ ⦃net : Net⦄ where
    answer_limit-keeps :
        (t : Readings) (r : Request) (h : Assoc String) (s : Server) (a : Bool × ℕ × RateLimiter)
        → t.store_at ≡ now
        → P s.store
        → P (answer_limit t r h s a).1.store
    unfolding auth
    answer_limit-keeps t r h s (false, wait, rl) e v = v
    answer_limit-keeps t r h s (true, wait, rl) e v =
        elim (Bool-cases (refuses r (record s { rl = rl }))) [
          | inl shut ↦ rw shut v
          | inr let_in ↦ rw (let_in, e) (route-keeps r _ (record s { rl = rl }) v)
        ]

    -- What Get and PutWithMode keep of the store at a clock's reading, a request at it keeps.
    pub handle-keeps :
        (t : Readings) (r : Request) (s : Server)
        → t.store_at ≡ now
        → P s.store
        → P (handle t r s).1.store
    unfolding handle request_id access_log rate_limit
    handle-keeps t r s e v = subst P (sym (store-recover _ ∙ store-log_line r _)) (
        answer_limit-keeps t r _ s
          (allow (client_ip r s) t.allow_at
            (if is_empty s.trusted_proxies then s.rl else prune t.prune_at s.rl))
          e v)
