-- ===== src/Worker/Process.antt =====
-- runTor of internal/app/tor.go: the directories, the sockets and the file that an instance needs,
-- its process, and its end. What the system answers is an argument.
pub mod Reaped
use Prim.Native.String.{◌++◌ as append_text}
use tor_rotating_http_proxy.Prelude.{
  Bool, true, false, Option, none, some, List, [], ◌∷◌, ◌++◌, if◌then◌else◌,
}
use tor_rotating_http_proxy.Errors.{GoError, is_some}
use tor_rotating_http_proxy.Worker.{Policy}
use tor_rotating_http_proxy.Worker.Bootstrap.{Startup, supervise_tor}

-- What runTor does to the system: `reaps` is the return of cmd.Wait, which its own goroutine calls;
-- a signal behind it fails with os.ErrProcessDone.
pub data Deed : Type 0 where
  makes_dir removes_socket writes_torrc : Deed
  starts terminates kills reaps : Deed

-- The answer of os.Remove, with os.ErrNotExist apart
pub data Removal : Type 0 where
  removed : Removal
  not_exist : Removal
  fails_to_remove : GoError → Removal

-- When cmd.Wait, in its own goroutine, returns: before the deferred function looks whether the
-- process is done, between that and SIGTERM, between SIGTERM and Kill, or after Kill
pub data Moment : Type 0 where
  before_check before_sigterm before_kill after_kill : Moment

-- `reaped` is the moment of the end of the process, `timed_out` says that the five seconds behind
-- SIGTERM ended first; a process that is sent Kill ends.
pub record Launch : Type 0 where
  pub data_dir : Option GoError
  pub socket_dir : Option GoError
  pub control_socket : Removal
  pub socks_socket : Removal
  pub torrc : Option GoError
  pub start : Option GoError
  pub startup : Startup
  pub reaped : Moment
  pub timed_out : Bool

abbrev pub Deeds : Type 0
Deeds = List Deed × Option GoError

-- A call whose error is returned, before what follows
abbrev pub attempt : Deed → Option GoError → Deeds → Deeds
attempt d (some e) rest = ([], some e)
attempt d none (ds, e) = (d ∷ ds, e)

abbrev pub removal_error : Removal → Option GoError
removal_error removed = none
removal_error not_exist = none
removal_error (fails_to_remove e) = some e

-- fmt.Errorf("start Tor: %w", err)
abbrev pub start_error : Option GoError → Option GoError
start_error none = none
start_error (some e) = some (record e { message = append_text "start Tor: " e.message })

-- The deferred function of runTor, with the return of cmd.Wait where it falls
unfoldable pub end_process : Moment → Bool → List Deed
end_process before_check timed_out = reaps ∷ []
end_process before_sigterm false = reaps ∷ terminates ∷ []
end_process before_sigterm true = reaps ∷ terminates ∷ kills ∷ []
end_process before_kill false = terminates ∷ reaps ∷ []
end_process before_kill true = terminates ∷ reaps ∷ kills ∷ []
end_process after_kill false = terminates ∷ reaps ∷ []
end_process after_kill true = terminates ∷ kills ∷ reaps ∷ []

-- From the start of the process on; no error where superviseTor still waits.
abbrev pub supervised : Launch → Option GoError → Deeds
supervised l none = ([], none)
supervised l (some e) = (end_process l.reaped l.timed_out, some e)

abbrev pub attempt_all : List (Deed × Option GoError) → Deeds → Deeds
attempt_all [] rest = rest
attempt_all ((d, e) ∷ ps) rest = attempt d e (attempt_all ps rest)

-- What runTor does before it starts the process
abbrev pub preparations : Launch → List (Deed × Option GoError)
preparations l =
    (makes_dir, l.data_dir)
    ∷ (makes_dir, l.socket_dir)
    ∷ (removes_socket, removal_error l.control_socket)
    ∷ (removes_socket, removal_error l.socks_socket)
    ∷ (writes_torrc, l.torrc)
    ∷ []

-- runTor
unfoldable pub run_tor : Policy → Launch → Deeds
unfolding end_process supervise_tor
run_tor cfg l =
    attempt_all (preparations l)
      (attempt starts (start_error l.start) (supervised l (supervise_tor cfg l.startup).1))

-- The calls of runTor by the worker of an instance, one after another
unfoldable pub run_instance : Policy → List Launch → List Deed
unfolding run_tor
run_instance cfg [] = []
run_instance cfg (l ∷ ls) = (run_tor cfg l).0 ++ run_instance cfg ls
