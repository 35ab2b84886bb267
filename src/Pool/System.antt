-- ===== src/Pool/System.antt =====
-- The pool under any sequence of the calls that its clients and its workers make, each a critical
-- section under the pool's lock: the interleavings of the program's goroutines. `leases` are the
-- leases that were handed out, newest first.
use tor_rotating_http_proxy.Prelude.{ℕ, Option, none, some, List, [], ◌∷◌, get_elem?, ◌>>=◌}
use tor_rotating_http_proxy.Errors.{GoError}
use tor_rotating_http_proxy.Store.{Sqlite}
use tor_rotating_http_proxy.Pool.Types.{State, Pool, cancel}
use tor_rotating_http_proxy.Pool.Slots.{set_state, publish, withdraw, count_rejected}
use tor_rotating_http_proxy.Pool.Acquire.{Lease, Acquired, granted, refused, acquire_locked}
use tor_rotating_http_proxy.Pool.Finish.{finish}

pub record System (Db : Type 0) : Type 0 where
  pub pool : Pool Db
  pub leases : List Lease

-- `finishes now i err` ends the lease at index `i`; `cancels e` is the end of an endpoint's context
-- from outside the pool: its circuit closed, or the program shuts down.
pub data Call : Type 0 where
  publishes : ℕ → ℕ → Call
  acquires : ℕ → Call
  finishes : ℕ → ℕ → Option GoError → Call
  withdraws : ℕ → Call
  states : ℕ → ℕ → State → Option ℕ → Option GoError → Call
  cancels : ℕ → Call
  rejects : Call

-- The leases after an acquire.
abbrev pub handed : Acquired → List Lease → List Lease
handed (granted l) ls = l ∷ ls
handed (refused e) ls = ls

module _ {Db : Type 0} where
  abbrev pub with_pool : System Db → Pool Db → System Db
  with_pool s p = record s { pool = p }

  unfoldable pub finish_lease : ℕ → Option Lease → Option GoError → Pool Db → Option (Pool Db)
  finish_lease now none err p = some p
  finish_lease now (some l) err p = finish now l err p

  -- A pool with no lease yet.
  abbrev pub start : Pool Db → System Db
  start p = record { pool = p; leases = [] }

module _ (sql : Sqlite) where
  unfoldable pub step : Call → System sql.Db → Option (System sql.Db)
  step (publishes now e) s = do r ← publish sql now e s.pool; some (with_pool s r.0)
  step (acquires now) s = do
    r ← acquire_locked sql now s.pool
    some (record { pool = r.0; leases = handed r.1 s.leases })
  step (finishes now i err) s = do
    p ← finish_lease now (get_elem? s.leases i) err s.pool
    some (with_pool s p)
  step (withdraws e) s = do p ← withdraw e s.pool; some (with_pool s p)
  step (states now id st n problem) s = do
    p ← set_state now id st n problem s.pool
    some (with_pool s p)
  step (cancels e) s = some (with_pool s (cancel e s.pool))
  step rejects s = some (with_pool s (count_rejected s.pool))

  unfoldable pub run : List Call → System sql.Db → Option (System sql.Db)
  unfolding step
  run [] s = some s
  run (c ∷ cs) s = do t ← step c s; run cs t
