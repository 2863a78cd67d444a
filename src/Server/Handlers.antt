-- ===== src/Server/Handlers.antt =====
-- internal/server/server.go: the router and the handlers behind it.
use Prim.Native.String.{len}
use Prim.Native.String.{◌++◌ as join}
use text.Mathlib.Text.{◌==◌}
use kvp.Prelude.{
  ℕ, ◌+◌, String, Bool, true, false, not, ◌&&◌, Option, none, some, List, [], ◌∷◌, ltb,
  if◌then◌else◌,
}
use kvp.Assoc.{Assoc, lookup, insert}
use kvp.Store.Clock.{TimeText}
use kvp.Store.Mode.{PutMode, put_async, mode_text, parse_put_mode}
use kvp.Store.Sql.{Bytes}
use kvp.Store.State.{Error, Store, caching}
use kvp.Store.Write.{put_with_mode, effective_mode, is_sync}
use kvp.Store.Read.{GetResult, get}
use kvp.Server.Http.{
  Request, header, Payload, error_json, plain, octets, Response, Outcome, done, panics, Server,
  BodyRead, too_large, broken, complete, read_body, is_ui_path, after_slash,
}

-- writeError
unfoldable pub write_error : ℕ → String → Assoc String → Response
write_error status msg h = record {
  status = status;
  headers = insert "Content-Type" "application/json" h;
  retry_after = none;
  body = error_json msg;
}

-- internalError, whose log line is left out
unfoldable pub internal_error : Assoc String → Response
unfolding write_error
internal_error h = write_error 500 "internal error" h

-- joinMethods
unfoldable pub join_methods : List String → String
join_methods [] = ""
join_methods (m ∷ []) = m
join_methods (m ∷ n ∷ rest) = join m (join ", " (join_methods (n ∷ rest)))

-- methodNotAllowed
unfoldable pub method_not_allowed : List String → Assoc String → Response
unfolding write_error
method_not_allowed methods h =
    write_error 405 "method not allowed" (insert "Allow" (join_methods methods) h)

abbrev pub success : ℕ → String → Payload → Assoc String → Response
success status ctype body h = record {
  status = status;
  headers = insert "Content-Type" ctype h;
  retry_after = none;
  body = body;
}

-- The answer to the result of Get.
abbrev pub answer_get : Option Error → GetResult → Assoc String → Response
answer_get (some e) res h = internal_error h
answer_get none res h =
    if not res.found
    then write_error 404 "key not found" h
    else if res.expired
    then write_error 404 "key expired" h
    else success 200 "application/octet-stream" (octets res.value) h

-- The commit mode of a request: the header's, or the default where there is none.
unfoldable pub resolve_mode : PutMode → String → Option PutMode
resolve_mode default v = if v == "" then some default else parse_put_mode v

abbrev pub with_warning : Bool → Assoc String → Assoc String
with_warning false h = h
with_warning true h = insert "X-Commit-Mode-Warning" "memory-cache-disabled" h

abbrev pub is_async : PutMode → Bool
is_async put_async = true
is_async _ = false

-- The answer to a write that the store has done in the mode `mode`.
unfoldable pub answer_put : PutMode → Bool → Assoc String → Response
answer_put mode downgraded h =
    let h' = with_warning downgraded (insert "X-Commit-Mode" (mode_text mode) h) in
    if is_async mode
    then success 202 "text/plain; charset=utf-8" (plain "accepted") h'
    else success 201 "text/plain; charset=utf-8" (plain "stored") h'

abbrev pub finish_put :
    PutMode → Bool → Assoc String → Server → Option Error × Store → Response × Server
finish_put mode downgraded h s (some e, st) = (internal_error h, record s { store = st })
finish_put mode downgraded h s (none, st) = (
  answer_put mode downgraded h,
  record s {
    store = st;
    after_writes = if s.has_after_write then s.after_writes + 1 else s.after_writes;
  },
)

-- The file and the content type of a path of the static UI, by its suffix; the router gives the
-- four paths only.
abbrev pub ui_file : String → String × String
ui_file name =
    if name == "/app.js"
    then ("app.js", "application/javascript; charset=utf-8")
    else if name == "/style.css"
    then ("style.css", "text/css; charset=utf-8")
    else ("index.html", "text/html; charset=utf-8")

abbrev pub answer_ui : String → Option Bytes → Assoc String → Response
answer_ui ctype none h = internal_error h
answer_ui ctype (some file) h = success 200 ctype (octets file) h

-- serveUI
unfoldable pub serve_ui : String → Assoc String → Server → Response
serve_ui name h s = let (file, ctype) = ui_file name in answer_ui ctype (lookup file s.ui) h

module _ ⦃c : TimeText⦄ where
  -- serveGet
  unfoldable pub serve_get : String → ℕ → Assoc String → Server → Response × Server
  serve_get key now h s =
      let (res, err, st) = get key now s.store in (answer_get err res h, record s { store = st })

  abbrev pub store_body : String → ℕ → Bytes → PutMode → Assoc String → Server → Response × Server
  store_body key now bytes mode h s =
      let used = effective_mode s.store mode in
      finish_put used (not (is_sync mode) && not (caching s.store)) h s
        (put_with_mode key bytes s.ttl used now s.store)

  abbrev pub post_body :
      String → ℕ → Bytes → Option PutMode → Assoc String → Server → Response × Server
  post_body key now bytes none h s = (write_error 400 "invalid X-Commit-Mode" h, s)
  post_body key now bytes (some mode) h s = store_body key now bytes mode h s

  abbrev pub post_read : String → ℕ → Request → BodyRead → Assoc String → Server → Response × Server
  post_read key now r too_large h s = (write_error 413 "payload too large" h, s)
  post_read key now r broken h s = (write_error 400 "invalid request body" h, s)
  post_read key now r (complete bytes) h s =
      post_body key now bytes (resolve_mode s.default_mode (header "X-Commit-Mode" r)) h s

  -- servePost
  unfoldable pub serve_post : String → ℕ → Request → Assoc String → Server → Response × Server
  serve_post key now r h s = post_read key now r (read_body s.max_body_bytes r.body) h s

  -- serveKeyDirect
  unfoldable pub serve_key_direct : String → ℕ → Request → Assoc String → Server → Response × Server
  serve_key_direct key now r h s =
      if key == ""
      then (write_error 400 "key required" h, s)
      else if ltb s.max_key_bytes (len key)
      then (write_error 400 "key too long" h, s)
      else if r.method == "GET"
      then serve_get key now h s
      else if r.method == "POST"
      then serve_post key now r h s
      else (method_not_allowed ("GET" ∷ "POST" ∷ []) h, s)

  abbrev pub route_key : Option String → ℕ → Request → Assoc String → Server → Outcome × Server
  route_key none now r h s = (panics h, s)
  route_key (some key) now r h s = let (w, s') = serve_key_direct key now r h s in (done w, s')

  -- route
  unfoldable pub route : ℕ → Request → Assoc String → Server → Outcome × Server
  route now r h s =
      if is_ui_path r.path
      then (if r.method == "GET"
          then (done (serve_ui r.path h s), s)
          else (done (method_not_allowed ("GET" ∷ []) h), s))
      else route_key (after_slash r.path) now r h s
