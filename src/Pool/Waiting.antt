-- ===== src/Pool/Waiting.antt =====
-- Pool.Acquire of internal/app/pool.go: the loop that scans for a lease and waits for readiness. It
-- holds the lock only in a scan, so the calls of other goroutines come between its steps: a `Turn`
-- lists those that do in one round of the loop, and how its wait ends.
pub mod Refined
pub mod Ends
use tor_rotating_http_proxy.Prelude.{
  ℕ, Bool, true, false, Option, none, some, List, [], ◌∷◌, ◌||◌, if◌then◌else◌, ◌>>=◌,
}
use tor_rotating_http_proxy.Errors.{GoError, canceled, deadline_exceeded, no_ready, errors_is}
use tor_rotating_http_proxy.Store.{Sqlite}
use tor_rotating_http_proxy.Pool.Slots.{count_rejected}
use tor_rotating_http_proxy.Pool.Acquire.{
  Lease, Acquired, granted, refused, acquire_locked, no_ready_error,
}
use tor_rotating_http_proxy.Pool.System.{System, Call, with_pool, handed, run}

-- `gone` is the end of the caller's context, by its deadline or not.
pub data Wake : Type 0 where
  gone : Bool → Wake
  notified timed_out : Wake

-- `before` the scan, at the time `now`; `expired` says that no time remains after it; `between` the
-- wait and the final scan, at the time `later`; `after` the last scan, before it counts a rejection.
pub record Turn : Type 0 where
  pub before : List Call
  pub now : ℕ
  pub expired : Bool
  pub wake : Wake
  pub between : List Call
  pub later : ℕ
  pub after : List Call

-- The end of Acquire, or `waits` where the turns end and it does not.
pub data Answer : Type 0 where
  got : Lease → Answer
  fails : GoError → Answer
  waits : Answer

-- ctx.Err()
abbrev pub ctx_error : Bool → GoError
ctx_error true = record { message = "context deadline exceeded"; chain = deadline_exceeded ∷ [] }
ctx_error false = record { message = "context canceled"; chain = canceled ∷ [] }

module _ (sql : Sqlite) where
  -- A scan under the lock, with its result; the lease it grants joins the others.
  unfoldable pub take : ℕ → System sql.Db → Option (System sql.Db × Acquired)
  take now s = do
    r ← acquire_locked sql now s.pool
    some (record { pool = r.0; leases = handed r.1 s.leases }, r.1)

  -- countRejected, and the return of ErrNoReady
  unfoldable pub reject : List Call → System sql.Db → Option (System sql.Db × Answer)
  reject cs s = do
    u ← run sql cs s
    some (with_pool u (count_rejected u.pool), fails no_ready_error)

  unfoldable pub after_last_scan :
      List Call → System sql.Db × Acquired → Option (System sql.Db × Answer)
  unfolding reject
  after_last_scan cs (s, granted l) = some (s, got l)
  after_last_scan cs (s, refused e) =
      if errors_is (some e) no_ready then reject cs s else some (s, fails e)

  -- The select statement: the end of the wait.
  unfoldable pub on_wake :
      Turn
      → Wake
      → (System sql.Db → Option (System sql.Db × Answer))
      → System sql.Db
      → Option (System sql.Db × Answer)
  unfolding after_last_scan take
  on_wake t (gone deadline) rest s = some (s, fails (ctx_error deadline))
  on_wake t notified rest s = rest s
  on_wake t timed_out rest s = do
    u ← run sql t.between s
    v ← take t.later u
    after_last_scan t.after v

  unfoldable pub after_scan :
      Turn
      → (System sql.Db → Option (System sql.Db × Answer))
      → System sql.Db × Acquired
      → Option (System sql.Db × Answer)
  unfolding reject on_wake
  after_scan t rest (s, granted l) = some (s, got l)
  after_scan t rest (s, refused e) =
      if errors_is (some e) no_ready
      then (if t.expired then reject t.after s else on_wake t t.wake rest s)
      else some (s, fails e)

  -- Acquire
  unfoldable pub acquire : List Turn → System sql.Db → Option (System sql.Db × Answer)
  unfolding take after_scan
  acquire [] s = some (s, waits)
  acquire (t ∷ ts) s = do
    u ← run sql t.before s
    v ← take t.now u
    after_scan t (λ w. acquire ts w) v
