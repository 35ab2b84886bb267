-- ===== src/Tests/Application.antt =====
-- Tests of the start and the end of the program, and of its health check.
use tor_rotating_http_proxy.Prelude.{◌≡◌, refl, false, none, some, [], ◌∷◌, ℕ, if◌then◌else◌}
use tor_rotating_http_proxy.Prelude.Bytes.{Bytes, codes, bytes_eq}
use tor_rotating_http_proxy.Prelude.Int.{pos, atoi}
use tor_rotating_http_proxy.Errors.{Result, ok}
use tor_rotating_http_proxy.Worker.{canceled_error}
use tor_rotating_http_proxy.Config.{
  GoLib, env, positive_int, unique_setting, positive_duration, check_url, check_listen, ◌>>=◌,
}
use tor_rotating_http_proxy.Application.{
  main, Setup, run_application, lock_file, file_lock, store, takes, gives_back, cancels,
  healthcheck, healthy, health_host,
}

abbrev setup : Setup
setup = record {
  data_dir = none;
  open_lock = none;
  flock = none;
  open_store = none;
  temp_dir = none;
  listen_proxy = none;
  listen_web = none;
  ending = none;
  server_closed = false;
}

no_directory :
    (run_application (record setup { temp_dir = some canceled_error })).0
    ≡ takes lock_file
      ∷ takes file_lock
      ∷ takes store
      ∷ gives_back store
      ∷ gives_back file_lock
      ∷ gives_back lock_file
      ∷ cancels
      ∷ []
unfolding run_application
no_directory = refl

any_host : health_host (codes "0.0.0.0") ≡ codes "127.0.0.1"
unfolding health_host
any_host = refl

answered : healthcheck (λ host port. ok 200) (codes ":8080") ≡ healthy
unfolding healthcheck
answered = refl

abbrev lib : GoLib
lib = record {
  parse_duration = λ text. some (pos 1);
  parse_url = λ text.
      some (record { scheme = "http"; hostname = "a.com"; has_user = false; fragment = "" });
  abs = λ path. ok path;
}

-- The health check of an address without a host asks the machine itself.
abbrev local_only : Bytes → Bytes → Result ℕ
local_only host port = if bytes_eq host (codes "127.0.0.1") then ok 200 else ok 503

checked_health :
    (main lib (λ name. none) local_only setup (codes "healthcheck" ∷ []) ≡ 0)
    × (main lib (λ name. none) local_only setup (codes "help" ∷ []) ≡ 2)
unfolding main env positive_int unique_setting positive_duration check_url check_listen ◌>>=◌ atoi
checked_health = (refl, refl)
