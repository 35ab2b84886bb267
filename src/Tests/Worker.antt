-- ===== src/Tests/Worker.antt =====
-- Tests of the workers.
use tor_rotating_http_proxy.Prelude.{
  ◌≡◌, ◌≤◌, refl, true, false, none, some, List, [], ◌∷◌, ◌++◌, arith,
}
use tor_rotating_http_proxy.Errors.{GoError, Sentinel, used_ip, serve_failures}
use tor_rotating_http_proxy.Pool.Types.{error, stopped}
use tor_rotating_http_proxy.Worker.{
  Policy, Round, Attempt, reports, pauses, supervise, run_worker, needs_fresh_restart,
  fresh_restart_error,
}
use tor_rotating_http_proxy.Worker.Restart.{
  longest_run, IsSmooth, supervise_rebuilds_for_used_ips, serve_failures_never_rebuild,
  supervise_rebuilds_at_limit,
}

abbrev policy : Policy
policy = record { unique_ip = true; max_used_ip_retries = 2 }

abbrev error_with : Sentinel → GoError
error_with s = record { message = "failed"; chain = s ∷ [] }

-- A round that ended with an error of this kind, and went on.
abbrev round : Sentinel → Round
round s = record {
  result = some (error_with s);
  ctx_done = false;
  ctrl_done = false;
  paused = true;
  newnym = none;
}

abbrev used_rounds : List Round
used_rounds = round used_ip ∷ round used_ip ∷ []

abbrev unserved_rounds : List Round
unserved_rounds = round serve_failures ∷ round serve_failures ∷ round serve_failures ∷ []

round-IsSmooth : (s : Sentinel) → IsSmooth (round s)
round-IsSmooth s = record { running = refl; connected = refl; waited = refl; renewed = refl }

supervise_rebuilds_for_used_ips_example :
    (policy.unique_ip ≡ true) × (2 ≤ longest_run 0 used_rounds)
unfolding supervise needs_fresh_restart
supervise_rebuilds_for_used_ips_example =
    supervise_rebuilds_for_used_ips policy 0 10 used_rounds (omega arith) (refl, (refl, tt)) refl

serve_failures_never_rebuild_example :
    needs_fresh_restart (supervise policy 0 10 unserved_rounds).1 ≡ false
unfolding needs_fresh_restart
serve_failures_never_rebuild_example =
    serve_failures_never_rebuild policy 10 unserved_rounds (omega arith) (refl, (refl, (refl, tt)))
      ((refl, refl), ((refl, refl), ((refl, refl), tt)))

supervise_rebuilds_at_limit_example :
    (supervise policy 0 10 (used_rounds ++ unserved_rounds)).1 ≡ some fresh_restart_error
supervise_rebuilds_at_limit_example =
    supervise_rebuilds_at_limit policy 0 10 used_rounds unserved_rounds refl (omega arith)
      (omega arith) refl (round-IsSmooth used_ip, (round-IsSmooth used_ip, tt)) (refl, (refl, tt))

abbrev attempt : Attempt
attempt = record {
  result = some (error_with used_ip);
  ctx_done = false;
  reset_error = none;
  paused = true;
}

backs_off :
    run_worker 10 (attempt ∷ attempt ∷ [])
    ≡ reports error (some (error_with used_ip))
      ∷ pauses 10
      ∷ reports error (some (error_with used_ip))
      ∷ pauses 20
      ∷ reports stopped none
      ∷ []
unfolding run_worker needs_fresh_restart
backs_off = refl
