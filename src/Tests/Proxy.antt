-- ===== src/Tests/Proxy.antt =====
-- Tests of the proxy.
use tor_rotating_http_proxy.Prelude.{
  ℕ, suc, ◌≡◌, ◌≤◌, ◌<◌, refl, Bool, true, false, ◌&&◌, ◌||◌, none, some, List, [], ◌∷◌, arith, All,
  length, get_elem?, ◌==◌, if◌then◌else◌,
}
use tor_rotating_http_proxy.Errors.{GoError, deadline_exceeded, net_timeout, errors_is, is_some}
use tor_rotating_http_proxy.Proxy.{Try, by_attempt, gateway, serve_forward}
use tor_rotating_http_proxy.Proxy.Failover.{
  serve_forward_safe, serve_forward_fails_over, serve_forward_exhausts,
}
use tor_rotating_http_proxy.Proxy.Listener.{
  Move, accepts, closes_socket, untracks, run, new_bounded_listener, new_server, IsTracked,
}
use tor_rotating_http_proxy.Proxy.Limits.{run_limits}

abbrev timeout_error : GoError
timeout_error = record { message = "i/o timeout"; chain = net_timeout ∷ [] }

abbrev not_first : ℕ → Bool
not_first i = if i == 0 then false else true

-- Instance 0 cannot be reached; the others answer.
abbrev tries : ℕ → Try
tries i = record {
  gone = false;
  acquire = none;
  responded = not_first i;
  dialed = not_first i;
  result = if i == 0 then some timeout_error else none;
}

abbrev unreachable : ℕ → Try
unreachable i = record {
  gone = false;
  acquire = none;
  responded = false;
  dialed = false;
  result = some timeout_error;
}

serve_forward_safe_example :
    (length (serve_forward 3 true tries).finishes ≤ 3)
    × ((j : ℕ)
        → j < length (serve_forward 3 true tries).finishes
        → get_elem? (serve_forward 3 true tries).finishes j ≡ some (tries j).result)
    × ((j : ℕ)
        → suc j < length (serve_forward 3 true tries).finishes
        → (is_some (tries j).result ≡ true)
          × ((tries j).responded ≡ false)
          × ((true && (tries j).dialed) ≡ false))
serve_forward_safe_example = serve_forward_safe 3 true tries

two_leases : length (serve_forward 3 true tries).finishes ≡ 2
unfolding serve_forward
two_leases = refl

serve_forward_fails_over_example :
    ((serve_forward 3 true tries).reply ≡ by_attempt 1)
    × (length (serve_forward 3 true tries).finishes ≡ 2)
serve_forward_fails_over_example =
    serve_forward_fails_over 3 1 true tries (omega arith) (λ j l. (refl, refl))
      (λ j l. (ground (arith, l), ground (arith, l), ground (arith, l))) refl

serve_forward_exhausts_example :
    (serve_forward 2 true unreachable).reply
    ≡ gateway (
        if errors_is (some timeout_error) deadline_exceeded
          || errors_is (some timeout_error) net_timeout
        then 504
        else 502)
serve_forward_exhausts_example =
    serve_forward_exhausts 1 true unreachable timeout_error (λ j l. (refl, refl))
      (λ j l. (refl, refl, refl)) refl

-- The first connection is closed twice, and the second is between the steps of its Close.
abbrev arrivals : List Move
arrivals =
    accepts
    ∷ accepts
    ∷ accepts
    ∷ closes_socket 0
    ∷ closes_socket 0
    ∷ untracks 0
    ∷ untracks 0
    ∷ accepts
    ∷ closes_socket 1
    ∷ []

run_limits_example :
    (length (run arrivals (new_server 2)).listener.connections ≤ 2)
    × All
        (IsTracked (run arrivals (new_server 2)))
        (run arrivals (new_server 2)).listener.connections
run_limits_example = run_limits 2 arrivals

still_tracked :
    ((run arrivals (new_server 2)).listener.connections ≡ 3 ∷ 1 ∷ [])
    × ((run arrivals (new_server 2)).closing ≡ 1 ∷ [])
unfolding run new_bounded_listener
still_tracked = (refl, refl)
