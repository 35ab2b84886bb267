-- ===== src/Application/Released.antt =====
-- What Run of internal/app/run.go takes and gives back.
use tor_rotating_http_proxy.Prelude.{
  ℕ, Bool, true, false, ◌||◌, Option, none, some, List, [], ◌∷◌, ◌==◌, if◌then◌else◌,
}
use tor_rotating_http_proxy.Application.{
  Resource, lock_file, file_lock, store, runtime_dir, proxy_listener, web_listener, Event, takes,
  gives_back, starts_workers, starts_servers, cancels, closes_proxy_server, closes_web_server,
  closes_proxy_sockets, closes_web_sockets, waits_for_workers, waits_for_tester,
}

abbrev pub number : Resource → ℕ
number lock_file = 0
number file_lock = 1
number store = 2
number runtime_dir = 3
number proxy_listener = 4
number web_listener = 5

-- What is held, the latest first, what runs (the workers, a server, or a test), and whether their
-- context is canceled
pub record Situation : Type 0 where
  pub held : List Resource
  pub workers : Bool
  pub proxy_server : Bool
  pub web_server : Bool
  pub tests : Bool
  pub cancelled : Bool

abbrev pub at_rest : Situation
at_rest = record {
  held = [];
  workers = false;
  proxy_server = false;
  web_server = false;
  tests = false;
  cancelled = false;
}

abbrev pub is_busy : Situation → Bool
is_busy s = s.workers || (s.proxy_server || (s.web_server || s.tests))

-- The latest resource is given back, while nothing runs any more.
abbrev pub without_latest : List Resource → Resource → Situation → Option Situation
without_latest [] r s = none
without_latest (h ∷ hs) r s =
    if is_busy s
    then none
    else (if number h == number r then some (record s { held = hs }) else none)

-- The workers, and a test, end when their context is canceled: a wait for them that comes before
-- would not return, and the replay has no answer.
abbrev pub after_event : Event → Situation → Option Situation
after_event (takes r) s = some (record s { held = r ∷ s.held })
after_event (gives_back r) s = without_latest s.held r s
after_event starts_workers s = some (record s { workers = true })
after_event starts_servers s =
    some (record s { proxy_server = true; web_server = true; tests = true })
after_event cancels s = some (record s { cancelled = true })
after_event closes_proxy_server s = some (record s { proxy_server = false })
after_event closes_web_server s = some (record s { web_server = false })
after_event closes_proxy_sockets s = some s
after_event closes_web_sockets s = some s
after_event waits_for_workers s = if s.cancelled then some (record s { workers = false }) else none
after_event waits_for_tester s =
    if s.cancelled then some (if s.web_server then s else record s { tests = false }) else none

abbrev pub replay : Option Situation → List Event → Option Situation
replay o [] = o
replay none (e ∷ es) = none
replay (some s) (e ∷ es) = replay (after_event e s) es
