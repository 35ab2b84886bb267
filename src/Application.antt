-- ===== src/Application.antt =====
-- Run and Healthcheck of internal/app/run.go, and main of cmd/torproxy/main.go: what the program takes when it starts, and gives back
-- when it ends. What the system answers is an argument; the servers, the workers and the load tester
-- are modelled in modules of their own.
pub mod Released
use Prim.Native.String.{◌++◌ as append_text}
use tor_rotating_http_proxy.Prelude.{
  ℕ, String, Bool, true, false, ◌||◌, Option, none, some, List, [], ◌∷◌, ◌++◌, ◌==◌, if◌then◌else◌,
}
use tor_rotating_http_proxy.Prelude.Bytes.{Bytes, codes, bytes_eq}
use tor_rotating_http_proxy.Errors.{GoError, Result, ok, err}
use tor_rotating_http_proxy.Admission.{split_host_port}
use tor_rotating_http_proxy.Config.{Config, GoLib, Env, Checked, valid, invalid, load_config}

-- What Run takes, in order
pub data Resource : Type 0 where
  lock_file file_lock store runtime_dir proxy_listener web_listener : Resource

pub data Event : Type 0 where
  takes gives_back : Resource → Event
  starts_workers starts_servers : Event
  cancels : Event
  closes_proxy_server closes_web_server : Event
  closes_proxy_sockets closes_web_sockets : Event
  waits_for_workers waits_for_tester : Event

-- What the system answers to Run; `ending` is the error of a server, or none where the context is
-- done, and `server_closed` says that it is http.ErrServerClosed.
pub record Setup : Type 0 where
  pub data_dir : Option GoError
  pub open_lock : Option GoError
  pub flock : Option GoError
  pub open_store : Option GoError
  pub temp_dir : Option GoError
  pub listen_proxy : Option GoError
  pub listen_web : Option GoError
  pub ending : Option GoError
  pub server_closed : Bool

abbrev pub Ran : Type 0
Ran = List Event × Option GoError

-- A resource, the return of its error, and its deferred release
abbrev pub hold : Resource → Option GoError → Ran → Ran
hold r (some e) rest = ([], some e)
hold r none (es, x) = (takes r ∷ es ++ gives_back r ∷ [], x)

abbrev pub wrap : String → Option GoError → Option GoError
wrap before none = none
wrap before (some e) = some (record e { message = append_text before e.message })

abbrev pub final_error : Setup → Option GoError
final_error s = if s.server_closed then none else s.ending

-- From the start of the workers and the servers to the end
unfoldable pub serve_until_done : Setup → Ran
serve_until_done s = (
  starts_workers ∷ starts_servers ∷ cancels ∷ closes_proxy_server ∷ closes_web_server
      ∷ closes_proxy_sockets ∷ closes_web_sockets ∷ waits_for_workers ∷ waits_for_tester ∷ [],
  final_error s,
)

abbrev pub locked_message : String
locked_message = "data directory is already used by another application: "

-- Run, before the deferred cancel of its context
unfoldable pub run_setup : Setup → Ran
unfolding serve_until_done
run_setup s = elim s.data_dir [
  | some e ↦ ([], some e)
  | none ↦ hold lock_file s.open_lock (
      hold file_lock (wrap locked_message s.flock) (
        hold store (wrap "open SQLite: " s.open_store) (
          hold runtime_dir s.temp_dir (
            hold proxy_listener s.listen_proxy
              (hold web_listener s.listen_web (serve_until_done s))))))
]

-- Run
unfoldable pub run_application : Setup → Ran
unfolding run_setup
run_application s = let (es, e) = run_setup s in (es ++ cancels ∷ [], e)

-- The host that Healthcheck asks
unfoldable pub health_host : Bytes → Bytes
health_host host =
    if bytes_eq host [] || (bytes_eq host (codes "0.0.0.0") || bytes_eq host (codes "::"))
    then codes "127.0.0.1"
    else host

pub data Health : Type 0 where
  bad_address : Health
  no_answer : GoError → Health
  bad_status : ℕ → Health
  healthy : Health

abbrev pub of_status : Result ℕ → Health
of_status (err e) = no_answer e
of_status (ok status) = if status == 200 then healthy else bad_status status

-- Healthcheck, where `get` is the status that a host and a port answer
unfoldable pub healthcheck : (Bytes → Bytes → Result ℕ) → Bytes → Health
unfolding split_host_port health_host
healthcheck get address = elim (split_host_port address) [
  | none ↦ bad_address
  | some (host, port) ↦ of_status (get (health_host host) port)
]

abbrev pub exit_health : Health → ℕ
exit_health bad_address = 1
exit_health (no_answer e) = 1
exit_health (bad_status n) = 1
exit_health healthy = 0

abbrev pub exit_run : Option GoError → ℕ
exit_run none = 0
exit_run (some e) = 1

abbrev pub exit_with : (Bytes → Bytes → Result ℕ) → Setup → List Bytes → Config → ℕ
exit_with get s [] c = exit_run (run_application s).1
exit_with get s (a ∷ []) c =
    if bytes_eq a (codes "healthcheck") then exit_health (healthcheck get c.web_addr) else 2
exit_with get s (a ∷ b ∷ args) c = 2

abbrev pub exit_checked : (Bytes → Bytes → Result ℕ) → Setup → List Bytes → Checked Config → ℕ
exit_checked get s args (invalid e) = 1
exit_checked get s args (valid c) = exit_with get s args c

-- main of cmd/torproxy/main.go: the exit status, by the arguments behind the program's name
unfoldable pub main : GoLib → Env → (Bytes → Bytes → Result ℕ) → Setup → List Bytes → ℕ
unfolding load_config healthcheck run_application
main lib vars get s args = exit_checked get s args (load_config lib vars)
