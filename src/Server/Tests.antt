-- ===== src/Server/Tests.antt =====
-- Requests and servers for internal/server, and its theorems at them.
use kvp.Prelude.{
  length, List, ℕ, ◌+◌, ◌*◌, ◌-◌, ◌≤◌, ◌≡◌, refl, true, false, none, some, [], ◌∷◌, arith,
}
use kvp.Prelude.Int.{pos}
use kvp.Examples.{clock, fresh, fresh-IsValid}
use kvp.Assoc.{lookup}
use kvp.Store.Mode.{parse_put_mode}
use kvp.Store.Sql.{exec, upsert, select_row}
use kvp.Store.Write.{put_with_mode}
use kvp.Store.Read.{get, get_db}
use kvp.Store.Valid.{IsValid}
use kvp.Store.View.{view, reply}
use kvp.Server.RateLimit.{hour, RateLimiter, second, allow, new_rate_limiter}
use kvp.Server.RateLimit.Levels.{new-IsLimiter}
use kvp.Server.RateLimit.Bound.{admitted, admitted_bound}
use kvp.Server.RateLimit.Pruned.{Asked, answers, pruned_answers, pruned_answers_lem}
use kvp.Server.Http.{Request, header, Options, Net, Server, octets, new_server, read_body}
use kvp.Server.Handlers.{
  serve_get, serve_post, internal_error, success, resolve_mode, answer_put, write_error,
}
use kvp.Server.Middleware.{Readings, handle}
use kvp.Server.Replies.{answer_to, serve_get_lem, get_after_post, view-serve_post_failed}
use kvp.Server.Recorder.{
  Call, bytes_call, status_call, recorded, unrecorded, new_recorder, logged_status, wire_status,
  recorded_lem,
}
use kvp.Server.Served.{served, served_bound}
use kvp.Server.Safety.{handle-IsValid}

-- A network that splits no address, and parses and trusts none.
instance abbrev no_net : Net
no_net = record { split_host_port = λ v. some v; parse_addr = λ v. none; contains = λ p ip. false }

abbrev options : Options
options = record {
  max_body_bytes = pos 0;
  max_key_bytes = pos 0;
  ttl = pos 7;
  api_key = "secret";
  commit_mode = "async";
  rate_num = pos 0;
  rate_den = 1;
  rate_burst = pos 1;
  trusted_proxies = [];
  ui = [];
  has_after_write = true;
}

abbrev server : Server
server = new_server (fresh (pos 1000)) options

abbrev uncached : Server
uncached = new_server (fresh (pos 0)) options

abbrev post : Request
post = record {
  method = "POST";
  path = "/a";
  headers = ("X-Commit-Mode", "sync") ∷ [];
  remote_addr = "10.0.0.1";
  body = record { sent = 1 ∷ 2 ∷ []; breaks = false };
}

abbrev broken_post : Request
broken_post = record post { body = record { sent = []; breaks = true } }

abbrev readings : Readings
readings = record { prune_at = 3; allow_at = 3; store_at = 3; new_id = "id" }

admitted_bound_example :
    1 * second * admitted "b" (("b", 1) ∷ ("a", 2) ∷ ("b", 5) ∷ []) (new_rate_limiter 10 1 20)
    ≤ 20 * (1 * second) + 10 * (5 - 1)
admitted_bound_example =
    admitted_bound "b" (("b", 1) ∷ ("a", 2) ∷ ("b", 5) ∷ []) 1 5 10 1 20
      (omega arith, (omega arith, (omega arith, omega arith)))

-- A write of which the connection takes one byte, and a status after it.
abbrev calls : List Call
calls = bytes_call (1 ∷ 2 ∷ []) 1 ∷ status_call 500 ∷ []

recorded_lem_example :
    ((recorded calls new_recorder).wire ≡ unrecorded calls (record { header = none; body = [] }))
    × (logged_status (recorded calls new_recorder) ≡ wire_status (recorded calls new_recorder).wire)
    × ((recorded calls new_recorder).bytes ≡ length (recorded calls new_recorder).wire.body)
recorded_lem_example = recorded_lem calls (refl, tt)

-- A limiter of one token, which "b" has taken at the time 1.
abbrev taken : RateLimiter
taken = (allow "b" 1 (new_rate_limiter 10 1 1)).2

-- Two hours later the bucket of "b" is idle.
abbrev later : ℕ
later = 7200000000000

-- Two clients, the second request of the first after more than an hour.
abbrev asked : List Asked
asked =
    record { key = "a"; prune_at = 1; allow_at = 1 }
    ∷ record { key = "b"; prune_at = 2; allow_at = 3 }
    ∷ record { key = "a"; prune_at = 2 * hour; allow_at = 2 * hour + 1 }
    ∷ []

pruned_answers_lem_example :
    pruned_answers asked (new_rate_limiter 10 1 3) ≡ answers asked (new_rate_limiter 10 1 3)
pruned_answers_lem_example =
    pruned_answers_lem 1 asked (new_rate_limiter 10 1 3) (new-IsLimiter 1 10 1 3)
      (omega arith, (omega arith, (omega arith, (omega arith, (omega arith, (omega arith, tt))))))
      (unfold new_rate_limiter in omega arith)

serve_get_lem_example : (serve_get "a" 4 [] server).0 ≡ elim (get "a" 4 server.store).1 [
  | some e ↦ internal_error []
  | none ↦ answer_to [] (reply 4 (view server.store "a"))
]
serve_get_lem_example = serve_get_lem "a" 4 [] server

get_after_post_example :
    (serve_get "a" 9 [] (serve_post "a" 3 post [] uncached).1).0
    ≡ success 200 "application/octet-stream" (octets (1 ∷ 2 ∷ [])) []
unfolding serve_post new_server read_body get get_db resolve_mode header lookup parse_put_mode
    put_with_mode exec answer_put select_row upsert
get_after_post_example =
    get_after_post "a" 3 9 post [] [] (1 ∷ 2 ∷ []) uncached refl refl (omega arith) refl

view-serve_post_failed_example :
    view (serve_post "a" 3 broken_post [] server).1.store "a" ≡ view server.store "a"
unfolding serve_post new_server read_body write_error
view-serve_post_failed_example = view-serve_post_failed "a" 3 broken_post [] server "a" refl

handle-IsValid_example : IsValid (handle readings post server).1.store
handle-IsValid_example =
    handle-IsValid readings post server (unfold new_server in fresh-IsValid (pos 1000))

-- Two requests of one client to a server that admits one at once.
abbrev two_posts : List (Readings × Request)
two_posts = (readings, post) ∷ (readings, broken_post) ∷ []

served_bound_example :
    1 * second * served "10.0.0.1" two_posts server ≤ 1 * (1 * second) + 10 * (3 - 3)
unfolding new_server
served_bound_example =
    served_bound "10.0.0.1" two_posts server 3 3 10 1 1 refl refl
      (omega arith, (omega arith, omega arith))
