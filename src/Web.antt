-- ===== src/Web.antt =====
-- internal/app/web.go: the handlers behind the dashboard. The query parameters of a request are a
-- list of names and values; what the JSON decoder and url.Parse make of a body are arguments. The
-- static files and the headers of a response are not modelled.
pub mod Query
pub mod Ips
use tor_rotating_http_proxy.Prelude.{
  ℕ, String, Bool, true, false, not, ◌&&◌, ◌||◌, Option, none, some, List, [], ◌∷◌, length, ltb,
  if◌then◌else◌, str_eq,
}
use tor_rotating_http_proxy.Prelude.Bytes.{Bytes, codes, bytes_eq}
use tor_rotating_http_proxy.Prelude.Int.{ℤ, pos, lt_nat, gt_nat, atoi}
use tor_rotating_http_proxy.Errors.{GoError, is_some}
use tor_rotating_http_proxy.Store.Listing.{IpPage, Queries, list_ips}
use tor_rotating_http_proxy.Pool.Types.{Pool}
use tor_rotating_http_proxy.Pool.Slots.{is_ready}
use tor_rotating_http_proxy.LoadTest.{
  TestOptions, TestSnapshot, Url, LoadTester, StartError, bad_url, bad_rps, shutting_down,
  test_active, start, stop,
}

pub data Body : Type 0 where
  text : String → Body
  status : String → Body
  page_of : IpPage → Body
  test_of : TestSnapshot → Body

pub record Response : Type 0 where
  pub code : ℕ
  pub body : Body

-- http.Error
abbrev pub refuse : ℕ → String → Response
refuse code message = record { code = code; body = text message }

-- writeJSON
abbrev pub write_json : Body → Response
write_json body = record { code = 200; body = body }

-- GET /healthz, by the answer of Ping
unfoldable pub healthz : Option GoError → Response
healthz none = write_json (status "ok")
healthz (some e) = refuse 503 "database unavailable"

-- GET /readyz
unfoldable pub readyz : {Db : Type 0} → Pool Db → Response
unfolding is_ready
readyz p =
    if is_ready p
    then write_json (status "ready")
    else refuse 503 "no eligible verified IP is ready"

abbrev start_refusal : StartError → Response
start_refusal bad_url =
    refuse 400 "url must be an absolute HTTP(S) URL without credentials or a fragment"
start_refusal bad_rps = refuse 400 "rps must be an integer between 1 and 1000"
start_refusal shutting_down = refuse 400 "application is shutting down"
start_refusal test_active = refuse 409 "a test is already running or stopping"

abbrev started : LoadTester × Option StartError → LoadTester × Response
started (t, none) = (t, write_json (test_of t.stats))
started (t, some e) = (t, start_refusal e)

-- POST /api/test/start: `decoded` is the first JSON value of the body, `more` says that another
-- stands behind it.
unfoldable pub start_test :
    Option TestOptions → Bool → Option Url → ℕ → LoadTester → LoadTester × Response
start_test none more parsed now t = (t, refuse 400 "invalid test options")
start_test (some options) more parsed now t =
    if more
    then (t, refuse 400 "expected one JSON object")
    else started (start options parsed now t)

-- POST /api/test/stop
unfoldable pub stop_test : LoadTester → LoadTester × Response
stop_test t = let s = stop t in (s, write_json (test_of s.stats))

abbrev pub Params : Type 0
Params = List (String × Bytes)

-- url.Values.Get and Has
abbrev pub get : String → Params → Bytes
get name [] = []
get name ((k, v) ∷ ps) = if str_eq k name then v else get name ps

abbrev pub has : String → Params → Bool
has name [] = false
has name ((k, v) ∷ ps) = str_eq k name || has name ps

-- A number among the parameters, or what stands for it
abbrev pub int_param : String → ℕ → Params → Option ℤ
int_param name fallback ps = if has name ps then atoi (get name ps) else some (pos fallback)

abbrev pub is_filter : Bytes → Bool
is_filter v = bytes_eq v [] || (bytes_eq v (codes "true") || bytes_eq v (codes "false"))

abbrev pub listed : IpPage × Option GoError → Response
listed (p, none) = write_json (page_of p)
listed (p, some e) = refuse 503 "database unavailable"

module _ (q : Queries) where
  -- GET /api/ips, with both numbers
  unfoldable pub ips_page : q.Db → Params → ℤ → ℤ → Response
  unfolding list_ips
  ips_page db ps page size =
      if lt_nat page 1
        || (gt_nat page 100000000
            || (lt_nat size 1 || (gt_nat size 100 || ltb 64 (length (get "search" ps)))))
      then refuse 400 "invalid pagination or search"
      else (if not (is_filter (get "used" ps))
          then refuse 400 "used must be true or false"
          else listed (list_ips q db (get "search" ps) (get "used" ps) page size))

  -- GET /api/ips
  unfoldable pub api_ips : q.Db → Params → Response
  unfolding ips_page
  api_ips db ps = elim (int_param "page" 1 ps) [
    | none ↦ refuse 400 "invalid page"
    | some page ↦ elim (int_param "page_size" 50 ps) [
      | none ↦ refuse 400 "invalid page_size"
      | some size ↦ ips_page db ps page size
    ]
  ]
