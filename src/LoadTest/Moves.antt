-- ===== src/LoadTest/Moves.antt =====
-- The load tester with its goroutines: for each run of a test the loop of `run`, which sends a
-- request on a tick of its clock while one of its 128 slots is free, and one goroutine for each
-- request. A move that is not possible in a state leaves it as it is.
use tor_rotating_http_proxy.Prelude.{
  ℕ, zero, suc, ◌-◌, String, Bool, true, false, ◌&&◌, ◌||◌, Option, none, some, List, [], ◌∷◌, map,
  ltb, ◌==◌, if◌then◌else◌, get_elem?, incr64,
}
use tor_rotating_http_proxy.Errors.{GoError}
use tor_rotating_http_proxy.LoadTest.{
  stopped, Url, TestOptions, LoadTester, StartError, start, stop, record_result,
}

-- A goroutine of `run` that has not returned. `latest` says that no test was started after it: the
-- tester's cancel is its own; otherwise `cancelled` is what its own context was when the next test
-- began. `looping` says that its loop has not returned: its deferred function still has to wait for
-- its requests. `flying` of them have no result yet, `slots` are the slots taken.
pub record Run : Type 0 where
  pub latest : Bool
  pub cancelled : Bool
  pub looping : Bool
  pub flying : ℕ
  pub slots : ℕ

-- The tester, and its goroutines of `run`, the newest first
pub record Tester : Type 0 where
  pub tester : LoadTester
  pub runs : List Run

-- The moves of one run, or of a request of its
pub data Step : Type 0 where
  ticks : Step
  ends : ℕ → ℕ → ℕ → String → Option GoError → Step
  releases : Step
  returns : ℕ → Step

pub data Move : Type 0 where
  starts : TestOptions → Option Url → ℕ → Move
  stops : Move
  shuts_down : Move
  runs_on : ℕ → Step → Move

abbrev is_cancelled : LoadTester → Run → Bool
is_cancelled t r = (if r.latest then t.cancelled else r.cancelled) || t.parent_done

-- A run whose test is no longer the latest one
abbrev overtaken : LoadTester → Run → Run
overtaken t r = if r.latest then record r { latest = false; cancelled = t.cancelled } else r

abbrev new_run : Run
new_run = record { latest = true; cancelled = false; looping = true; flying = 0; slots = 0 }

-- Start, and the goroutine that it starts beside those that live
abbrev pub launched : LoadTester × Option StartError → Tester → Tester
launched (t, none) s = record { tester = t; runs = new_run ∷ map (overtaken s.tester) s.runs }
launched (t, some e) s = record s { tester = t }

-- A tester and one of its runs
abbrev pub Pair : Type 0
Pair = LoadTester × Run

-- One turn of the loop, on a tick.
unfoldable pub send : Pair → Pair
send (t, r) =
    if ltb r.slots 128
    then (
      record t {
        stats = record t.stats { sent = incr64 t.stats.sent; in_flight = suc t.stats.in_flight };
      },
      record r { flying = suc r.flying; slots = suc r.slots },
    )
    else (record t { stats = record t.stats { skipped = incr64 t.stats.skipped } }, r)

-- The deferred function of `run`, after its wait; it calls the tester's cancel, which is that of the
-- latest test.
unfoldable pub settle : ℕ → LoadTester → LoadTester
settle now t = record t {
  cancelled = true;
  stats = record t.stats { state = stopped; stopped_at = now };
}

-- The run after a step of its, or none where it has returned
unfoldable pub step : Step → LoadTester → Run → LoadTester × Option Run
unfolding send settle
step ticks t r =
    if r.looping
    then (if is_cancelled t r
        then (t, some (record r { looping = false }))
        else (let (u, q) = send (t, r) in (u, some q)))
    else (t, some r)
step (ends now elapsed code status err) t r =
    if ltb 0 r.flying
    then (
      record_result now elapsed code status err (is_cancelled t r) t,
      some (record r { flying = r.flying - 1 }),
    )
    else (t, some r)
step releases t r = (t, some (if ltb r.flying r.slots then record r { slots = r.slots - 1 } else r))
step (returns now) t r =
    if is_cancelled t r && r.slots == 0 then (settle now t, none) else (t, some r)

-- The runs with a changed one at its place
abbrev replaced : List Run → ℕ → Option Run → List Run
replaced [] i o = []
replaced (r ∷ rs) zero none = rs
replaced (r ∷ rs) zero (some q) = q ∷ rs
replaced (r ∷ rs) (suc i) o = r ∷ replaced rs i o

abbrev pub stepped : ℕ → LoadTester × Option Run → Tester → Tester
stepped i (t, o) s = record { tester = t; runs = replaced s.runs i o }

unfoldable pub move : Move → Tester → Tester
unfolding step
move (starts options parsed now) s = launched (start options parsed now s.tester) s
move stops s = record s { tester = stop s.tester }
move shuts_down s = record s { tester = record s.tester { parent_done = true } }
move (runs_on i a) s = elim (get_elem? s.runs i) [
  | none ↦ s
  | some r ↦ stepped i (step a s.tester r) s
]

unfoldable pub moves : List Move → Tester → Tester
moves [] s = s
moves (m ∷ ms) s = moves ms (move m s)

abbrev pub at_rest : LoadTester → Tester
at_rest t = record { tester = t; runs = [] }
