-- ===== src/Tests/Launch.antt =====
-- Tests of an instance's process and of its bootstrap.
use tor_rotating_http_proxy.Prelude.{◌≡◌, ◌⊎◌, refl, true, false, none, some, [], ◌∷◌}
use tor_rotating_http_proxy.Prelude.Bytes.{codes}
use tor_rotating_http_proxy.Errors.{ok}
use tor_rotating_http_proxy.Worker.{Policy}
use tor_rotating_http_proxy.Worker.Bootstrap.{
  bootstrap_progress, connects, refused, Poll, Startup, stuck, supervise_tor, bootstrapping,
}
use tor_rotating_http_proxy.Worker.Bootstrap.Decided.{GivesUp, GoesOn, supervise_tor_decides}
use tor_rotating_http_proxy.Worker.Process.{
  Launch, removed, not_exist, run_tor, run_instance, makes_dir, removes_socket, writes_torrc,
  starts, terminates, kills, reaps, after_kill, before_kill,
}
use tor_rotating_http_proxy.Worker.Process.Reaped.{replay, run_instance_reaps}

abbrev policy : Policy
policy = record { unique_ip = true; max_used_ip_retries = 2 }

half : bootstrap_progress (codes "NOTICE BOOTSTRAP PROGRESS=50 TAG=x") ≡ 50
unfolding bootstrap_progress
half = refl

beyond : bootstrap_progress (codes "PROGRESS=99999999999999999999") ≡ 100
unfolding bootstrap_progress
beyond = refl

no_number : bootstrap_progress (codes "PROGRESS=x PROGRESS=50") ≡ 0
unfolding bootstrap_progress
no_number = refl

abbrev poll : Poll
poll = record { reply = ok (codes "PROGRESS=50" ∷ []); waited = true }

-- The second pause finds the time of the bootstrap at its end.
abbrev slow : Startup
slow = record {
  process_error = none;
  dials = refused false true ∷ connects ∷ [];
  authenticate = none;
  set_events = none;
  budget = "5m0s";
  polls = poll ∷ record poll { waited = false } ∷ [];
  rounds = [];
}

gave_up : supervise_tor policy slow ≡ (
  bootstrapping 0 ∷ bootstrapping 50 ∷ bootstrapping 50 ∷ [],
  some (stuck "bootstrap did not reach 100% within 5m0s: "),
)
unfolding supervise_tor
gave_up = refl

supervise_tor_decides_example :
    GivesUp (supervise_tor policy slow) ⊎ GoesOn policy slow (supervise_tor policy slow)
supervise_tor_decides_example = supervise_tor_decides policy slow refl refl

abbrev launch : Launch
launch = record {
  data_dir = none;
  socket_dir = none;
  control_socket = removed;
  socks_socket = not_exist;
  torrc = none;
  start = none;
  startup = slow;
  reaped = after_kill;
  timed_out = true;
}

deeds :
    (run_tor policy launch).0
    ≡ makes_dir ∷ makes_dir ∷ removes_socket ∷ removes_socket ∷ writes_torrc ∷ starts ∷ terminates
      ∷ kills ∷ reaps ∷ []
unfolding run_tor
deeds = refl

run_instance_reaps_example :
    replay false (run_instance policy (launch ∷ record launch { reaped = before_kill } ∷ []))
    ≡ some false
unfolding run_tor
run_instance_reaps_example =
    run_instance_reaps policy (launch ∷ record launch { reaped = before_kill } ∷ [])
      (refl, (refl, tt))
