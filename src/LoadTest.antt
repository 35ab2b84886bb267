-- ===== src/LoadTest.antt =====
-- internal/app/loadtest.go: the built-in load tester. Times are numbers: of milliseconds since the
-- epoch for the clock, of any unit for durations. What url.Parse answers is an argument. The float
-- averages of Snapshot are not modelled.
pub mod Moves
pub mod Accounts
pub mod Buckets
pub mod Rate
use tor_rotating_http_proxy.Prelude.{
  ℕ, zero, suc, ◌+◌, ◌-◌, ◌/◌, ◌%◌, String, Bool, true, false, not, ◌&&◌, ◌||◌, Option, none, some,
  List, [], ◌∷◌, ltb, leb, ◌==◌, str_eq, if◌then◌else◌, incr64, update, get_elem?, set,
}
use tor_rotating_http_proxy.Errors.{GoError, is_some}

pub data TestState : Type 0 where
  idle running stopping stopped : TestState

pub record Url : Type 0 where
  pub scheme : String
  pub hostname : String
  pub has_user : Bool
  pub fragment : String

pub record TestOptions : Type 0 where
  pub url : String
  pub rps : ℕ

pub record TestSnapshot : Type 0 where
  pub state : TestState
  pub url : String
  pub target_rps : ℕ
  pub started : ℕ
  pub stopped_at : ℕ
  pub sent : ℕ
  pub success : ℕ
  pub failed : ℕ
  pub unavailable : ℕ
  pub canceled : ℕ
  pub skipped : ℕ
  pub in_flight : ℕ
  pub last_error : String
  pub status_codes : ℕ → ℕ

pub record RateBucket : Type 0 where
  pub tick : ℕ
  pub count : ℕ

-- `cancelled` is the state of the context of the running test, `parent_done` that of its parent.
pub record LoadTester : Type 0 where
  pub parent_done : Bool
  pub stats : TestSnapshot
  pub total_time : ℕ
  pub success_time : ℕ
  pub cancelled : Bool
  pub buckets : List RateBucket

abbrev pub empty_buckets : ℕ → List RateBucket
empty_buckets zero = []
empty_buckets (suc n) = record { tick = 0; count = 0 } ∷ empty_buckets n

abbrev pub fresh_stats : TestState → String → ℕ → ℕ → TestSnapshot
fresh_stats st url rps now = record {
  state = st;
  url = url;
  target_rps = rps;
  started = now;
  stopped_at = 0;
  sent = 0;
  success = 0;
  failed = 0;
  unavailable = 0;
  canceled = 0;
  skipped = 0;
  in_flight = 0;
  last_error = "";
  status_codes = λ code. 0;
}

-- NewLoadTester, but for the proxy's address
abbrev pub new_load_tester : Bool → String → LoadTester
new_load_tester parent_done check_url = record {
  parent_done = parent_done;
  stats = fresh_stats idle check_url 1 0;
  total_time = 0;
  success_time = 0;
  cancelled = false;
  buckets = empty_buckets 10;
}

pub data StartError : Type 0 where
  bad_url bad_rps shutting_down test_active : StartError

-- Is the URL, as parsed, absolute HTTP(S) with no credentials and no fragment?
unfoldable pub acceptable_url : Option Url → Bool
acceptable_url none = false
acceptable_url (some u) =
    (str_eq u.scheme "http" || str_eq u.scheme "https")
    && (not (str_eq u.hostname "") && (not u.has_user && str_eq u.fragment ""))

abbrev pub is_active : TestState → Bool
is_active idle = false
is_active running = true
is_active stopping = true
is_active stopped = false

abbrev pub is_running : TestState → Bool
is_running idle = false
is_running running = true
is_running stopping = false
is_running stopped = false

-- What Start sets up.
abbrev pub started_with : TestOptions → ℕ → LoadTester → LoadTester
started_with options now t = record t {
  stats = fresh_stats running options.url options.rps now;
  total_time = 0;
  success_time = 0;
  cancelled = false;
  buckets = empty_buckets 10;
}

-- LoadTester.Start
unfoldable pub start : TestOptions → Option Url → ℕ → LoadTester → LoadTester × Option StartError
start options parsed now t =
    if not (acceptable_url parsed)
    then (t, some bad_url)
    else (if ltb options.rps 1 || ltb 1000 options.rps
        then (t, some bad_rps)
        else (if t.parent_done
            then (t, some shutting_down)
            else (if is_active t.stats.state
                then (t, some test_active)
                else (started_with options now t, none))))

-- LoadTester.Stop
unfoldable pub stop : LoadTester → LoadTester
stop t =
    if is_running t.stats.state
    then record t { stats = record t.stats { state = stopping }; cancelled = true }
    else t

-- The bucket of the current tenth of a second, cleared when it still holds an older one.
abbrev bucket_at : Option RateBucket → ℕ → RateBucket
bucket_at none tick = record { tick = tick; count = 0 }
bucket_at (some b) tick = if b.tick == tick then b else record { tick = tick; count = 0 }

abbrev counted : RateBucket → RateBucket
counted b = record b { count = incr64 b.count }

unfoldable pub count_tick : ℕ → List RateBucket → List RateBucket
count_tick tick bs = set bs (tick % 10) (counted (bucket_at (get_elem? bs (tick % 10)) tick))

abbrev error_text : Option GoError → String → String
error_text none http = http
error_text (some e) http = e.message

abbrev pub succeeds : ℕ → Option GoError → Bool
succeeds code err = not (is_some err) && (leb 200 code && ltb code 300)

-- The counters of a response with status `code`; `status` is "HTTP " and its status text.
unfoldable pub count_response : ℕ → String → Option GoError → TestSnapshot → TestSnapshot
count_response code status err s =
    let s1 : TestSnapshot =
      if code == 0
      then s
      else record s { status_codes = update s.status_codes code (incr64 (s.status_codes code)) } in
    let s2 : TestSnapshot =
      if code == 503 then record s1 { unavailable = incr64 s1.unavailable } else s1 in
    if succeeds code err
    then record s2 { success = incr64 s2.success }
    else record s2 { failed = incr64 s2.failed; last_error = error_text err status }

-- LoadTester.record, for a request in flight: `now` is the clock in milliseconds.
unfoldable pub record_result : ℕ → ℕ → ℕ → String → Option GoError → Bool → LoadTester → LoadTester
unfolding count_response count_tick
record_result now elapsed code status err canceled t =
    let s : TestSnapshot = record t.stats { in_flight = t.stats.in_flight - 1 } in
    if canceled then record t { stats = record s { canceled = incr64 s.canceled } } else record t {
      stats = count_response code status err s;
      total_time = t.total_time + elapsed;
      success_time = if succeeds code err then t.success_time + elapsed else t.success_time;
      buckets = count_tick (now / 100) t.buckets;
    }

-- Is a tenth of a second one of the last ten?
abbrev pub in_window : ℕ → ℕ → Bool
in_window now tick = leb tick now && ltb (now - tick) 10

-- ActualRPS of Snapshot, at a tenth of a second; the sum of the counts is exact.
unfoldable pub actual_rps : ℕ → List RateBucket → ℕ
actual_rps now [] = 0
actual_rps now (b ∷ bs) =
    let rest = actual_rps now bs in if in_window now b.tick then b.count + rest else rest
