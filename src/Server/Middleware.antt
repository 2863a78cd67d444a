-- ===== src/Server/Middleware.antt =====
-- internal/server/middleware.go and `Server.handler`: the chain of middlewares in its order.
use text.Mathlib.Text.{◌==◌}
use kvp.Prelude.{
  ℕ, String, Bool, true, false, not, ◌&&◌, Option, none, some, List, [], ◌∷◌, if◌then◌else◌,
}
use kvp.Assoc.{Assoc, insert}
use kvp.Store.Clock.{TimeText}
use kvp.Server.RateLimit.{RateLimiter, allow, prune}
use kvp.Server.Http.{
  Request, header, Response, Outcome, done, panics, Prefix, Net, Server, is_ui_path, route_for_path,
  trim_space, before_comma,
}
use kvp.Server.Handlers.{write_error, internal_error, route}

-- The clock's readings that the middlewares and the store take for one request, and the id that
-- google/uuid makes for it.
pub record Readings : Type 0 where
  pub prune_at : ℕ
  pub allow_at : ℕ
  pub store_at : ℕ
  pub new_id : String

abbrev pub any_contains : (Prefix → Bool) → List Prefix → Bool
any_contains test [] = false
any_contains test (p ∷ ps) = let rest = any_contains test ps in if test p then true else rest

-- securityHeaders
unfoldable pub security_headers : Assoc String → Assoc String
security_headers h = insert "Content-Security-Policy" "default-src 'self'" (
    insert "Referrer-Policy" "no-referrer"
      (insert "X-Frame-Options" "DENY" (insert "X-Content-Type-Options" "nosniff" h)))

module _ ⦃net : Net⦄ where
  abbrev pub addr_trusted : Option (List ℕ) → Server → Bool
  addr_trusted none s = false
  addr_trusted (some ip) s = any_contains (λ p. net.contains p ip) s.trusted_proxies

  -- peerTrusted
  unfoldable pub peer_trusted : String → Server → Bool
  peer_trusted peer s = addr_trusted (net.parse_addr peer) s

  -- The forwarded address of a request from a trusted peer.
  unfoldable pub forwarded : String → Request → String
  forwarded peer r =
      let first = trim_space (before_comma (header "X-Forwarded-For" r)) in
      let cf = header "CF-Connecting-IP" r in
      if not (header "X-Forwarded-For" r == "") && not (first == "")
      then first
      else if not (cf == "")
      then trim_space cf
      else peer

  abbrev pub peer_ip : Option String → Request → Server → String
  peer_ip none r s = r.remote_addr
  peer_ip (some peer) r s = if peer_trusted peer s then forwarded peer r else peer

  -- clientIP
  unfoldable pub client_ip : Request → Server → String
  client_ip r s = peer_ip (net.split_host_port r.remote_addr) r s

-- Whether the server asks for a key that the request does not have.
unfoldable pub refuses : Request → Server → Bool
refuses r s =
    not (s.api_key == "") && not (is_ui_path r.path) && not (header "X-API-Key" r == s.api_key)

-- The status of the access log's line.
abbrev pub log_line : Request → Outcome × Server → Outcome × Server
log_line r (done w, s) = (done w, record s { log = (route_for_path r.path, w.status) ∷ s.log })
log_line r (panics h, s) = (panics h, s)

-- recoverMiddleware
abbrev pub recover : Outcome × Server → Response × Server
recover (done w, s) = (w, s)
recover (panics h, s) = (internal_error h, s)

module _ ⦃c : TimeText⦄ ⦃net : Net⦄ where
  -- auth, around securityHeaders and the router
  unfoldable pub auth : Readings → Request → Assoc String → Server → Outcome × Server
  auth t r h s =
      if refuses r s
      then (done (write_error 401 "unauthorized" h), s)
      else route t.store_at r (security_headers h) s

  abbrev pub answer_limit :
      Readings → Request → Assoc String → Server → Bool × ℕ × RateLimiter → Outcome × Server
  answer_limit t r h s (true, wait, rl) = auth t r h (record s { rl = rl })
  answer_limit t r h s (false, wait, rl) = (
    done (record (write_error 429 "rate limited" h) { retry_after = some wait }),
    record s { rl = rl },
  )

  abbrev pub is_empty : List Prefix → Bool
  is_empty [] = true
  is_empty (p ∷ ps) = false

  -- rateLimit
  unfoldable pub rate_limit : Readings → Request → Assoc String → Server → Outcome × Server
  rate_limit t r h s =
      let rl = if is_empty s.trusted_proxies then s.rl else prune t.prune_at s.rl in
      answer_limit t r h s (allow (client_ip r s) t.allow_at rl)

  -- accessLog
  unfoldable pub access_log : Readings → Request → Assoc String → Server → Outcome × Server
  access_log t r h s = log_line r (rate_limit t r h s)

  -- requestID
  unfoldable pub request_id : Readings → Request → Server → Outcome × Server
  request_id t r s =
      let given = header "X-Request-ID" r in
      access_log t r (insert "X-Request-ID" (if given == "" then t.new_id else given) []) s

  -- The handler that `New` returns.
  unfoldable pub handle : Readings → Request → Server → Response × Server
  handle t r s = recover (request_id t r s)
