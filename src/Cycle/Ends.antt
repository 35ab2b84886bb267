-- ===== src/Cycle/Ends.antt =====
-- How a worker's service of a circuit ends.
use tor_rotating_http_proxy.Prelude.{
  ℕ, ◌≡◌, refl, sym, subst, Bool, true, false, Option, none, some, List, All, length,
}
use tor_rotating_http_proxy.Errors.{GoError}
use tor_rotating_http_proxy.Store.{Sqlite, SqliteLaws}
use tor_rotating_http_proxy.Pool.Slots.{consecutive_failures}
use tor_rotating_http_proxy.Pool.Valid.{Valid}
use tor_rotating_http_proxy.Pool.Kept.Publish.{publish-Kept}
use tor_rotating_http_proxy.Pool.System.{System, Call, with_pool, run}
use tor_rotating_http_proxy.Pool.Runs.{run-Kept}
use tor_rotating_http_proxy.Pool.Total.{Succeeds, Succeeds-bind, InRange, found}
use tor_rotating_http_proxy.Pool.Panics.{Names, publish_total, withdraw_total, run_total}
use tor_rotating_http_proxy.Pool.Waiting.Ends.{Sound, Kept-Sound}
use tor_rotating_http_proxy.Cycle.{
  Woken, finished, circuit_closed, control_lost, Wait, leave, finish_service, on_woken,
  after_publish, serve_circuit,
}
use tor_rotating_http_proxy.Cycle.Cleanup.{Absent, serve_circuit-Absent}

module _ (sql : Sqlite) (laws : SqliteLaws sql) where
  ran_total :
      (n : ℕ) (cs : List Call) (s : System sql.Db)
      → Sound sql laws n s.pool
      → All (Names n) cs
      → (u : System sql.Db) × (run sql cs s ≡ some u) × Sound sql laws n u.pool
  ran_total n cs s good names =
      let (u, e) =
        run_total sql laws cs s good.valid good.in_range
          (subst (λ m. All (Names m) cs) (sym good.size) names) in
      (u, e, Kept-Sound sql laws n s.pool u.pool ((run-Kept sql laws cs s).at u e) good)

  leave_total :
      (n e : ℕ) (err : Option GoError) (t : System sql.Db)
      → Sound sql laws n t.pool
      → Succeeds (leave sql e err t)
  unfolding leave
  leave_total n e err t good =
      Succeeds-bind _ _ (withdraw_total e t.pool good.in_range) λ p _. (_, refl)

  finish_service_total :
      (n e : ℕ) (late : List Call) (t : System sql.Db)
      → Sound sql laws n t.pool
      → All (Names n) late
      → Succeeds (finish_service sql e late t)
  unfolding finish_service consecutive_failures
  finish_service_total n e late t good names =
      let (u, ran, after) = ran_total n late t good names in
      Succeeds-bind _ _ (Succeeds-bind _ _ (found e t.pool good.in_range) λ s _. (_, refl))
        λ m _. rw ran (Succeeds-bind _ _ (withdraw_total e u.pool after.in_range) λ p _. (_, refl))

  on_woken_total :
      (n e : ℕ) (w : Woken) (late : List Call) (t : System sql.Db)
      → Sound sql laws n t.pool
      → All (Names n) late
      → Succeeds (on_woken sql e w late t)
  unfolding on_woken
  on_woken_total n e finished late t good names = finish_service_total n e late t good names
  on_woken_total n e circuit_closed late t good names = leave_total n e _ t good
  on_woken_total n e control_lost late t good names = leave_total n e _ t good

  after_publish_total :
      (n e : ℕ) (w : Wait) (ready : Bool) (err : Option GoError) (s : System sql.Db)
      → Sound sql laws n s.pool
      → All (Names n) w.during
      → All (Names n) w.late
      → Succeeds (after_publish sql e w (ready, err) s)
  unfolding after_publish
  after_publish_total n e w ready (some err) s good during late = (_, refl)
  after_publish_total n e w false none s good during late = (_, refl)
  after_publish_total n e w true none s good during late =
      let (u, ran, after) = ran_total n w.during s good during in
      rw ran (on_woken_total n e w.woken w.late u after late)

  serve_circuit_total :
      (n now e : ℕ) (w : Wait) (s : System sql.Db)
      → Sound sql laws n s.pool
      → All (Names n) w.during
      → All (Names n) w.late
      → Succeeds (serve_circuit sql now e w s)
  unfolding serve_circuit
  serve_circuit_total n now e w s good during late =
      Succeeds-bind _ _ (publish_total sql laws now e s.pool good.in_range) λ r h.
        after_publish_total n e w r.1 r.2 (with_pool s r.0)
          (Kept-Sound sql laws n s.pool r.0 ((publish-Kept sql laws now e s.pool).at r h) good)
          during late

  -- On a pool that satisfies the invariant, with endpoints for its instances, where the calls of
  -- others that name an instance name one of the pool, and where the worker's endpoint begins neither
  -- in a slot nor with a reservation: however the service of its circuit ends, and whatever those
  -- calls are, it does not panic, and it leaves the endpoint in no slot of the pool and its address
  -- not reserved for it.
  pub serve_circuit_cleans :
      (now e : ℕ) (w : Wait) (s : System sql.Db)
      → Valid s.pool
      → InRange s.pool
      → Absent e s.pool
      → All (Names (length s.pool.slots)) w.during
      → All (Names (length s.pool.slots)) w.late
      → (r : System sql.Db × Option GoError) × (serve_circuit sql now e w s ≡ some r)
        × Absent e r.0.pool
  serve_circuit_cleans now e w s valid in_range absent during late =
      let good : Sound sql laws (length s.pool.slots) s.pool = record {
        valid = valid;
        in_range = in_range;
        size = refl;
      } in
      let (r, done) = serve_circuit_total (length s.pool.slots) now e w s good during late in
      (r, done, (serve_circuit-Absent sql laws now e w s valid absent).at r done)
