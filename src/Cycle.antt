-- ===== src/Cycle.antt =====
-- The service of a verified circuit: the last part of cycle, in unique mode, and cycleReuse, of
-- internal/app/tor.go. A worker publishes its endpoint, waits, and withdraws it; the calls of other
-- goroutines come between, as lists.
pub mod Cleanup
pub mod Ends
pub mod Build
use Prim.Native.String.{◌++◌ as append_text}
use tor_rotating_http_proxy.Prelude.{
  ℕ, String, Bool, true, false, ◌&&◌, Option, none, some, List, [], ◌∷◌, leb, if◌then◌else◌, ◌>>=◌,
}
use tor_rotating_http_proxy.Errors.{GoError, serve_failures, control_closed, is_some}
use tor_rotating_http_proxy.Store.{Sqlite}
use tor_rotating_http_proxy.Pool.Types.{Endpoint}
use tor_rotating_http_proxy.Pool.Slots.{publish, withdraw, consecutive_failures}
use tor_rotating_http_proxy.Pool.System.{System, Call, with_pool, run}
use tor_rotating_http_proxy.Worker.{control_closed_error}

-- What ends the wait: the endpoint's channel, its context, or the control connection.
pub data Woken : Type 0 where
  finished circuit_closed control_lost : Woken

-- The calls of others during the wait, what ends it, and the calls between the look at the
-- failures and the withdrawal, during which cycleReuse drains the leases.
pub record Wait : Type 0 where
  pub during : List Call
  pub woken : Woken
  pub late : List Call

abbrev pub unpublished_error : String → GoError
unpublished_error ip = record {
  message = append_text (append_text "IP " ip) " is used, reserved, or its circuit expired";
  chain = [];
}

abbrev pub circuit_closed_error : GoError
circuit_closed_error = record { message = "verified circuit closed"; chain = [] }

-- fmt.Errorf("%w: %v", errServeFailures, ep.lastErr)
abbrev pub serve_failures_error : GoError → GoError
serve_failures_error last = record {
  message =
      append_text "consecutive serving failures; rebuilding this Tor instance from scratch: "
        last.message;
  chain = serve_failures ∷ [];
}

-- The error of a finished service: `failing` is the look at the failures, before the withdrawal.
abbrev pub service_error : Bool → Option GoError → Option GoError
service_error failing none = none
service_error true (some last) = some (serve_failures_error last)
service_error false (some last) = some last

module _ (sql : Sqlite) where
  -- pool.withdraw(ep), and the return of an error
  unfoldable pub leave :
      ℕ → Option GoError → System sql.Db → Option (System sql.Db × Option GoError)
  leave e err t = do p ← withdraw e t.pool; some (with_pool t p, err)

  -- After the channel of the endpoint closed
  unfoldable pub finish_service :
      ℕ → List Call → System sql.Db → Option (System sql.Db × Option GoError)
  finish_service e late t = do
    n ← consecutive_failures (t.pool.heap e).id t.pool
    u ← run sql late t
    p ← withdraw e u.pool
    some (
      with_pool u p,
      service_error (is_some (t.pool.heap e).last_err && leb 3 n) (p.heap e).last_err,
    )

  unfoldable pub on_woken :
      ℕ → Woken → List Call → System sql.Db → Option (System sql.Db × Option GoError)
  unfolding leave finish_service
  on_woken e finished late t = finish_service e late t
  on_woken e circuit_closed late t = leave e (some circuit_closed_error) t
  on_woken e control_lost late t = leave e (some control_closed_error) t

  -- After the call of publish
  unfoldable pub after_publish :
      ℕ → Wait → Bool × Option GoError → System sql.Db → Option (System sql.Db × Option GoError)
  unfolding on_woken
  after_publish e w (ready, some err) s = some (s, some err)
  after_publish e w (false, none) s = some (s, some (unpublished_error (s.pool.heap e).ip))
  after_publish e w (true, none) s = do t ← run sql w.during s; on_woken e w.woken w.late t

  -- cycle from its call of publish on, and cycleReuse
  unfoldable pub serve_circuit :
      ℕ → ℕ → Wait → System sql.Db → Option (System sql.Db × Option GoError)
  unfolding after_publish
  serve_circuit now e w s = do
    r ← publish sql now e s.pool
    after_publish e w (r.1, r.2) (with_pool s r.0)
