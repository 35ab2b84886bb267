-- ===== src/Tests/LoadTest.antt =====
-- Tests of the load tester.
use tor_rotating_http_proxy.Prelude.{
  ℕ, Bool, true, arith, ◌≡◌, refl, false, Option, none, some, List, [], ◌∷◌,
}
use tor_rotating_http_proxy.LoadTest.{
  Url, TestOptions, start, stop, new_load_tester, acceptable_url, record_result, count_response,
  count_tick, actual_rps,
}
use tor_rotating_http_proxy.LoadTest.Buckets.{recent}
use tor_rotating_http_proxy.LoadTest.Rate.{Ended, record_all, ticks_of, record_all-recent}
use tor_rotating_http_proxy.LoadTest.Moves.{
  Tester, Move, starts, stops, ticks, ends, releases, returns, runs_on, moves, move, step, at_rest,
  send, settle,
}
use tor_rotating_http_proxy.LoadTest.Accounts.{Accounted, moves_account}

abbrev check_url : Option Url
check_url =
    some (record { scheme = "https"; hostname = "example.com"; has_user = false; fragment = "" })

abbrev options : TestOptions
options = record { url = "https://example.com/"; rps = 5 }

abbrev day : List Move
day =
    starts options check_url 1000
    ∷ runs_on 0 ticks
    ∷ runs_on 0 ticks
    ∷ starts options check_url 1100
    ∷ runs_on 0 (ends 1250 40 200 "HTTP 200 OK" none)
    ∷ runs_on 0 releases
    ∷ stops
    ∷ runs_on 0 (ends 1300 70 0 "" none)
    ∷ runs_on 0 releases
    ∷ runs_on 0 (returns 1400)
    ∷ []

abbrev final : Tester
final = moves day (at_rest (new_load_tester false ""))

counters :
    (final.tester.stats.sent ≡ 2)
    × (final.tester.stats.success ≡ 1)
    × (final.tester.stats.canceled ≡ 1)
    × (final.runs ≡ [])
unfolding moves move step start stop send settle record_result count_response count_tick
    acceptable_url
counters = (refl, refl, refl, refl)

moves_account_example : Accounted final
moves_account_example = moves_account false "" day

abbrev ended_at : ℕ → Bool → Ended
ended_at now canceled = record {
  now = now;
  elapsed = 70;
  code = 200;
  status = "";
  error = none;
  canceled = canceled;
}

-- Two results in one tenth of a second, a canceled one, and one of more than a second before
abbrev results : List Ended
results =
    ended_at 12350 false ∷ ended_at 12340 false ∷ ended_at 12310 true ∷ ended_at 11290 false ∷ []

record_all-recent_example :
    actual_rps 123 (record_all results (new_load_tester false "")).buckets
    ≡ recent 123 (ticks_of results)
record_all-recent_example =
    record_all-recent false "" results 123 (omega arith, (omega arith, (omega arith, tt)))
      (omega arith)

two_recent : recent 123 (ticks_of results) ≡ 2
two_recent = refl
