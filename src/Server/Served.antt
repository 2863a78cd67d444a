-- ===== src/Server/Served.antt =====
-- internal/server: the rate limit through the whole chain of middlewares, for a server without
-- trusted proxies.
use text.Mathlib.Text.{◌==◌}
use Prim.Native.String.{len}
use mathlib.Core.Path.{subst}
use native.Mathlib.Nat.{mul-le-mul_left}
use kvp.Prelude.{
  ℕ, ◌+◌, ◌-◌, ◌*◌, ◌≤◌, String, ◌≡◌, refl, ap, sym, ◌∙◌, Bool, true, false, not, ◌&&◌,
  ◌==◌ as same_number, Option, none, some, List, [], ◌∷◌, arith, inl, inr, ltb, Bool-cases,
  if◌then◌else◌, map,
}
use kvp.Assoc.{Assoc, insert}
use kvp.Store.Clock.{TimeText}
use kvp.Store.Mode.{PutMode}
use kvp.Store.Sql.{Bytes}
use kvp.Store.State.{Error, Store}
use kvp.Server.RateLimit.{RateLimiter, second, new_rate_limiter, allow, prune}
use kvp.Server.RateLimit.Bound.{InOrder, count_if, admitted, admitted_bound}
use kvp.Server.Http.{
  Request, header, Response, Outcome, done, panics, Net, Server, BodyRead, too_large, broken,
  complete, is_ui_path, after_slash,
}
use kvp.Server.Handlers.{
  finish_put, serve_get, serve_post, serve_key_direct, post_body, post_read, route_key, route,
  write_error,
}
use kvp.Server.Middleware.{
  Readings, addr_trusted, peer_trusted, peer_ip, client_ip, refuses, log_line, recover,
  security_headers, auth, answer_limit, is_empty, rate_limit, access_log, request_id, handle,
}

-- The handlers change neither the limiter nor the options.
abbrev Kept : Server → Server → Type 0
Kept s s' = (s'.rl ≡ s.rl) × (s'.trusted_proxies ≡ s.trusted_proxies)

finish_put-Kept :
    (mode : PutMode) (down : Bool) (h : Assoc String) (s : Server) (r : Option Error × Store)
    → Kept s (finish_put mode down h s r).1
finish_put-Kept mode down h s (none, st) = (refl, refl)
finish_put-Kept mode down h s (some e, st) = (refl, refl)

module _ ⦃c : TimeText⦄ where
  post_body-Kept :
      (key : String) (now : ℕ) (bytes : Bytes) (o : Option PutMode) (h : Assoc String) (s : Server)
      → Kept s (post_body key now bytes o h s).1
  post_body-Kept key now bytes none h s = (refl, refl)
  post_body-Kept key now bytes (some mode) h s = finish_put-Kept _ _ h s _

  post_read-Kept :
      (key : String) (now : ℕ) (r : Request) (b : BodyRead) (h : Assoc String) (s : Server)
      → Kept s (post_read key now r b h s).1
  post_read-Kept key now r too_large h s = (refl, refl)
  post_read-Kept key now r broken h s = (refl, refl)
  post_read-Kept key now r (complete bytes) h s = post_body-Kept key now bytes _ h s

  serve_key_direct-Kept :
      (key : String) (now : ℕ) (r : Request) (h : Assoc String) (s : Server)
      → Kept s (serve_key_direct key now r h s).1
  unfolding serve_key_direct serve_get serve_post
  serve_key_direct-Kept key now r h s = elim (Bool-cases (key == "")) [
    | inl empty ↦ rw empty (refl, refl)
    | inr named ↦ elim (Bool-cases (ltb s.max_key_bytes (len key))) [
      | inl long ↦ rw (named, long) (refl, refl)
      | inr short ↦ elim (Bool-cases (r.method == "GET")) [
        | inl read ↦ rw (named, short, read) (refl, refl)
        | inr other ↦ elim (Bool-cases (r.method == "POST")) [
          | inl write ↦ rw (named, short, other, write) (post_read-Kept key now r _ h s)
          | inr neither ↦ rw (named, short, other, neither) (refl, refl)
        ]
      ]
    ]
  ]

  route_key-Kept :
      (o : Option String) (now : ℕ) (r : Request) (h : Assoc String) (s : Server)
      → Kept s (route_key o now r h s).1
  route_key-Kept none now r h s = (refl, refl)
  route_key-Kept (some key) now r h s = serve_key_direct-Kept key now r h s

  route-Kept : (now : ℕ) (r : Request) (h : Assoc String) (s : Server) → Kept s (route now r h s).1
  unfolding route
  route-Kept now r h s = elim (Bool-cases (is_ui_path r.path)) [
    | inr key ↦ rw key (route_key-Kept (after_slash r.path) now r h s)
    | inl ui ↦ elim (Bool-cases (r.method == "GET")) [
      | inl read ↦ rw (ui, read) (refl, refl)
      | inr other ↦ rw (ui, other) (refl, refl)
    ]
  ]

rl-log_line :
    (r : Request) (o : Outcome × Server)
    → ((recover (log_line r o)).1.rl ≡ o.1.rl)
      × ((recover (log_line r o)).1.trusted_proxies ≡ o.1.trusted_proxies)
rl-log_line r (done w, s) = (refl, refl)
rl-log_line r (panics h, s) = (refl, refl)

count_at_most : (b : Bool) (n m : ℕ) → n ≤ m → count_if b n ≤ m + 1
count_at_most b n m h = ground arith

-- A request that is answered with anything but 429 was admitted.
counted_once :
    (mine ok : Bool) (status n m : ℕ)
    → (ok ≡ false → status ≡ 429)
    → n ≤ m
    → count_if (mine && not (same_number status 429)) n ≤ count_if (ok && mine) m
counted_once false true status n m h le = le
counted_once false false status n m h le = le
counted_once true true status n m h le = count_at_most (not (same_number status 429)) n m le
counted_once true false status n m h le = rw (h refl) le

-- The address that a server without trusted proxies takes for the client's.
pub direct_ip : ⦃net : Net⦄ → Request → String
direct_ip ⦃net⦄ r = elim (net.split_host_port r.remote_addr) [
  | none ↦ r.remote_addr
  | some peer ↦ peer
]

module _ ⦃net : Net⦄ where
  addr_trusted-none :
      (a : Option (List ℕ)) (s : Server) → s.trusted_proxies ≡ [] → addr_trusted a s ≡ false
  addr_trusted-none none s h = refl
  addr_trusted-none (some ip) s h = rw h

  peer_ip-direct :
      (o : Option String) (r : Request) (s : Server)
      → s.trusted_proxies ≡ []
      → peer_ip o r s ≡ elim o [ none ↦ r.remote_addr | some peer ↦ peer ]
  unfolding peer_trusted
  peer_ip-direct none r s h = refl
  peer_ip-direct (some peer) r s h = rw (addr_trusted-none (net.parse_addr peer) s h)

  client_ip-direct :
      (r : Request) (s : Server) → s.trusted_proxies ≡ [] → client_ip r s ≡ direct_ip r
  unfolding client_ip direct_ip
  client_ip-direct r s h = peer_ip-direct (net.split_host_port r.remote_addr) r s h

module _ ⦃c : TimeText⦄ ⦃net : Net⦄ where
  answer_limit_lem :
      (t : Readings) (r : Request) (h : Assoc String) (s : Server) (a : Bool × ℕ × RateLimiter)
      → ((answer_limit t r h s a).1.rl ≡ a.2)
        × ((answer_limit t r h s a).1.trusted_proxies ≡ s.trusted_proxies)
        × (a.0 ≡ false → (recover (log_line r (answer_limit t r h s a))).0.status ≡ 429)
  unfolding auth write_error
  answer_limit_lem t r h s (false, wait, rl) = (refl, refl, λ e. refl)
  answer_limit_lem t r h s (true, wait, rl) = elim (Bool-cases (refuses r (record s { rl = rl }))) [
    | inl shut ↦ rw shut (refl, refl, λ e. cc e)
    | inr open' ↦ rw open' (
        let k = route-Kept t.store_at r (security_headers h) (record s { rl = rl }) in
        (k.0, k.1, λ e. cc e))
  ]

  -- Without trusted proxies nothing is pruned, and the peer's address is the client's.
  rate_limit-direct :
      (t : Readings) (r : Request) (h : Assoc String) (s : Server)
      → s.trusted_proxies ≡ []
      → rate_limit t r h s ≡ answer_limit t r h s (allow (direct_ip r) t.allow_at s.rl)
  unfolding rate_limit
  rate_limit-direct t r h s alone =
      let unpruned : (if is_empty s.trusted_proxies then s.rl else prune t.prune_at s.rl) ≡ s.rl =
        ap (λ ps. if is_empty ps then s.rl else prune t.prune_at s.rl) alone in
      ap (λ rl. answer_limit t r h s (allow (client_ip r s) t.allow_at rl)) unpruned
      ∙ ap (λ ip. answer_limit t r h s (allow ip t.allow_at s.rl)) (client_ip-direct r s alone)

  -- What `handle` leaves of the limiter, and what a denied client is answered.
  record Limited (t : Readings) (r : Request) (s : Server) (o : Response × Server) : Type 0 where
    limiter : o.1.rl ≡ (allow (direct_ip r) t.allow_at s.rl).2
    alone_still : o.1.trusted_proxies ≡ []
    denied : (allow (direct_ip r) t.allow_at s.rl).0 ≡ false → o.0.status ≡ 429

  handle-Limited :
      (t : Readings) (r : Request) (s : Server)
      → s.trusted_proxies ≡ []
      → Limited t r s (handle t r s)
  unfolding handle request_id access_log
  handle-Limited t r s alone =
      let h =
        insert "X-Request-ID"
          (if header "X-Request-ID" r == "" then t.new_id else header "X-Request-ID" r) [] in
      let a = allow (direct_ip r) t.allow_at s.rl in
      let l = answer_limit_lem t r h s a in
      let k = rl-log_line r (answer_limit t r h s a) in
      subst (λ o. Limited t r s (recover (log_line r o))) (sym (rate_limit-direct t r h s alone))
        (record { limiter = k.0 ∙ l.0; alone_still = k.1 ∙ l.1 ∙ alone; denied = l.2 })

  -- How many requests of a client a server answers with anything but 429.
  unfoldable pub served : String → List (Readings × Request) → Server → ℕ
  served ip [] s = 0
  served ip ((t, r) ∷ rest) s =
      let (w, s') = handle t r s in
      count_if (direct_ip r == ip && not (same_number w.status 429)) (served ip rest s')

  -- The requests as the limiter sees them.
  abbrev pub arrivals : List (Readings × Request) → List (String × ℕ)
  arrivals reqs = map (λ q. (direct_ip q.1, q.0.allow_at)) reqs

  served-admitted :
      (ip : String) (reqs : List (Readings × Request)) (s : Server)
      → s.trusted_proxies ≡ []
      → served ip reqs s ≤ admitted ip (arrivals reqs) s.rl
  unfolding served admitted
  served-admitted ip [] s alone = omega arith
  served-admitted ip ((t, r) ∷ rest) s alone =
      let l = handle-Limited t r s alone in
      counted_once (direct_ip r == ip) (allow (direct_ip r) t.allow_at s.rl).0
        (handle t r s).0.status _ _ l.denied
        (rw l.limiter at (served-admitted ip rest (handle t r s).1 l.alone_still))

  -- A server without trusted proxies that starts with a fresh limiter answers the requests from one
  -- address, in any history with the clock's readings in order and whatever the other clients send,
  -- with anything but 429 at most `burst` times more than the tokens that the rate adds from the
  -- first request to the last.
  pub served_bound :
      (ip : String) (reqs : List (Readings × Request)) (s : Server) (since until num den burst : ℕ)
      → s.trusted_proxies ≡ []
      → s.rl ≡ new_rate_limiter num den burst
      → InOrder since (arrivals reqs) until
      → den * second * served ip reqs s ≤ burst * (den * second) + num * (until - since)
  served_bound ip reqs s since until num den burst alone fresh order =
      let few : served ip reqs s ≤ admitted ip (arrivals reqs) (new_rate_limiter num den burst) =
        subst (λ rl. served ip reqs s ≤ admitted ip (arrivals reqs) rl) fresh
          (served-admitted ip reqs s alone) in
      omega (
        arith,
        mul-le-mul_left (den * second) few,
        admitted_bound ip (arrivals reqs) since until num den burst order,
      )
