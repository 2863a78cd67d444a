-- ===== src/Server/Http.antt =====
-- internal/server/server.go: the requests, the responses, the options and `newServer`, with the parts
-- of net/http, net/netip and strings that the handlers use.
use Prim.Native.Char.{code}
use text.Mathlib.Text.{◌==◌ as same_text}
use kvp.Prelude.{
  ℕ, String, Bool, ◌&&◌, ◌||◌, Option, none, some, List, [], ltb, leb, ◌==◌, if◌then◌else◌, length,
}
use kvp.Prelude.Int.{ℤ, pos, pos_part, ltb_ℤ}
use kvp.Assoc.{Assoc, lookup}
use kvp.Store.Mode.{PutMode, put_sync, parse_put_mode}
use kvp.Store.Sql.{Bytes}
use kvp.Store.State.{Store}
use kvp.Server.RateLimit.{RateLimiter, new_rate_limiter}

-- What a client sends as the body: the bytes, and whether the connection then breaks.
pub record Body : Type 0 where
  pub sent : Bytes
  pub breaks : Bool

pub record Request : Type 0 where
  pub method : String
  pub path : String
  pub headers : Assoc String
  pub remote_addr : String
  pub body : Body

-- `r.Header.Get(name)`
unfoldable pub header : String → Request → String
header name r = elim (lookup name r.headers) [ none ↦ "" | some v ↦ v ]

-- The bodies that the handlers write; `error_json` is the JSON object with the one field `error`.
pub data Payload : Type 0 where
  error_json plain : String → Payload
  octets : Bytes → Payload

-- `retry_after` is the number in the header Retry-After.
pub record Response : Type 0 where
  pub status : ℕ
  pub headers : Assoc String
  pub retry_after : Option ℕ
  pub body : Payload

-- A handler answers, or panics with the response headers that are set by then.
pub data Outcome : Type 0 where
  done : Response → Outcome
  panics : Assoc String → Outcome

pub record Prefix : Type 0 where
  pub address : List ℕ
  pub bits : ℕ

-- The functions of net and net/netip that `clientIP` calls.
pub record Net : Type 0 where
  pub split_host_port : String → Option String
  pub parse_addr : String → Option (List ℕ)
  pub contains : Prefix → List ℕ → Bool

-- A field that is not positive asks for the default. The rate is `rate_num / rate_den`.
pub record Options : Type 0 where
  pub max_body_bytes : ℤ
  pub max_key_bytes : ℤ
  pub ttl : ℤ
  pub api_key : String
  pub commit_mode : String
  pub rate_num : ℤ
  pub rate_den : ℕ
  pub rate_burst : ℤ
  pub trusted_proxies : List Prefix
  pub ui : Assoc Bytes
  pub has_after_write : Bool

-- `after_writes` counts the calls of AfterWrite that have been started, and `log` holds the route
-- and the status of the access log's lines, the last one first.
pub record Server : Type 0 where
  pub store : Store
  pub max_body_bytes : ℕ
  pub max_key_bytes : ℕ
  pub ttl : ℕ
  pub api_key : String
  pub trusted_proxies : List Prefix
  pub ui : Assoc Bytes
  pub has_after_write : Bool
  pub rl : RateLimiter
  pub default_mode : PutMode
  pub after_writes : ℕ
  pub log : List (String × ℕ)

abbrev pub positive_or : ℤ → ℕ → ℕ
positive_or n default = if ltb_ℤ (pos 0) n then pos_part n else default

abbrev pub mode_or_sync : Option PutMode → PutMode
mode_or_sync none = put_sync
mode_or_sync (some mode) = mode

-- The rate of `newServer`: 10 a second where the option is not positive.
abbrev pub limiter_of : Options → RateLimiter
limiter_of o =
    if ltb_ℤ (pos 0) o.rate_num
    then new_rate_limiter (pos_part o.rate_num) o.rate_den (positive_or o.rate_burst 20)
    else new_rate_limiter 10 1 (positive_or o.rate_burst 20)

-- newServer; times are nanoseconds.
unfoldable pub new_server : Store → Options → Server
new_server st o = record {
  store = st;
  max_body_bytes = positive_or o.max_body_bytes 1048576;
  max_key_bytes = positive_or o.max_key_bytes 256;
  ttl = positive_or o.ttl 86400000000000;
  api_key = o.api_key;
  trusted_proxies = o.trusted_proxies;
  ui = o.ui;
  has_after_write = o.has_after_write;
  rl = limiter_of o;
  default_mode = mode_or_sync (parse_put_mode o.commit_mode);
  after_writes = 0;
  log = [];
}

-- What `io.ReadAll` returns from a `MaxBytesReader`.
pub data BodyRead : Type 0 where
  too_large broken : BodyRead
  complete : Bytes → BodyRead

unfoldable pub read_body : ℕ → Body → BodyRead
read_body limit b =
    if ltb limit (length b.sent) then too_large else if b.breaks then broken else complete b.sent

-- isUIPath
unfoldable pub is_ui_path : String → Bool
is_ui_path path =
    same_text path "/"
    || same_text path "/index.html"
    || same_text path "/style.css"
    || same_text path "/app.js"

-- routeForPath
unfoldable pub route_for_path : String → String
unfolding is_ui_path
route_for_path path = if is_ui_path path then "index" else "kvp"

-- `path[1:]`, which panics on the empty path; elsewhere net/http lets a path begin with one byte.
abbrev pub after_slash : String → Option String
after_slash String.[] = none
after_slash (String.◌∷◌ first rest) = some rest

-- The white space of unicode.IsSpace.
abbrev pub is_space : ℕ → Bool
is_space c =
    (leb 9 c && leb c 13)
    || c == 32
    || c == 133
    || c == 160
    || c == 5760
    || (leb 8192 c && leb c 8202)
    || c == 8232
    || c == 8233
    || c == 8239
    || c == 8287
    || c == 12288

abbrev pub trim_start : String → String
trim_start String.[] = String.[]
trim_start (String.◌∷◌ first rest) =
    let trimmed = trim_start rest in
    if is_space (code first) then trimmed else String.◌∷◌ first rest

abbrev pub trim_end : String → String
trim_end String.[] = String.[]
trim_end (String.◌∷◌ first rest) =
    let trimmed = trim_end rest in
    if is_space (code first) && same_text trimmed "" then String.[] else String.◌∷◌ first trimmed

-- strings.TrimSpace
unfoldable pub trim_space : String → String
trim_space v = trim_end (trim_start v)

-- `strings.Split(v, ",")[0]`
unfoldable pub before_comma : String → String
before_comma String.[] = String.[]
before_comma (String.◌∷◌ first rest) =
    let kept = before_comma rest in if code first == 44 then String.[] else String.◌∷◌ first kept
