-- ===== src/Cycle/Cleanup.antt =====
-- A worker leaves nothing of its endpoint behind in the pool.
use tor_rotating_http_proxy.Prelude.{
  ℕ, ◌≡◌, ◌≢◌, refl, sym, ap, ◌∙◌, Bool, true, false, Option, none, some, List, arith, Each,
  Each-some, Each-bind, eq_iff,
}
use tor_rotating_http_proxy.Errors.{GoError}
use tor_rotating_http_proxy.Store.{Sqlite, SqliteLaws, Returns, observe}
use tor_rotating_http_proxy.Pool.Types.{Pool, Slot, slot_at}
use tor_rotating_http_proxy.Pool.Slots.{
  publish, publish_at, publish_observed, checked, show_check, withdraw, withdraw_at, withdrawn,
  consecutive_failures,
}
use tor_rotating_http_proxy.Pool.Valid.{Valid, holder, holder-set_slot}
use tor_rotating_http_proxy.Pool.Kept.{Kept}
use tor_rotating_http_proxy.Pool.Kept.Publish.{publish-Kept}
use tor_rotating_http_proxy.Pool.Publication.{Decided, publish_decides}
use tor_rotating_http_proxy.Pool.System.{System, Call, with_pool, run}
use tor_rotating_http_proxy.Pool.Runs.{run-Kept}
use tor_rotating_http_proxy.Cycle.{
  Woken, finished, circuit_closed, control_lost, Wait, leave, finish_service, on_woken,
  after_publish, serve_circuit,
}

-- The endpoint stands in no slot, and its address is not reserved for it.
pub record Absent {Db : Type 0} (e : ℕ) (p : Pool Db) : Type 0 where
  pub nowhere : (id : ℕ) → holder p.slots id ≢ some e
  pub unreserved : p.reserved (p.heap e).ip ≢ some e

module _ {Db : Type 0} where
  withdraw_at-Absent :
      (e : ℕ) (s : Slot) (p : Pool Db)
      → Valid p
      → slot_at p.slots (p.heap e).id ≡ some s
      → Absent e (withdraw_at e s p)
  unfolding withdraw_at
  withdraw_at-Absent e s p v found = record {
    nowhere = λ id h. ground (
      arith,
      v.placed id e,
      found,
      holder-set_slot p.slots (p.heap e).id id (withdrawn s) s found,
      h,
    );
    unreserved = λ h. ground (arith, eq_iff (p.heap e).ip (p.heap e).ip, h);
  }

  withdraw-Absent : (e : ℕ) (p : Pool Db) → Valid p → Each (Absent e) (withdraw e p)
  unfolding withdraw
  withdraw-Absent e p v =
      Each-bind (slot_at p.slots (p.heap e).id) _ λ s at. Each-some (withdraw_at-Absent e s p v at)

module _ (sql : Sqlite) (laws : SqliteLaws sql) where
  -- Of the state and the error that the worker's service comes to
  Left : ℕ → System sql.Db × Option GoError → Type 0
  Left e r = Absent e r.0.pool

  leave-Left :
      (e : ℕ) (err : Option GoError) (t : System sql.Db)
      → Valid t.pool
      → Each (Left e) (leave sql e err t)
  unfolding leave Left
  leave-Left e err t v =
      Each-bind (withdraw e t.pool) _ λ p h. Each-some ((withdraw-Absent e t.pool v).at p h)

  finish_service-Left :
      (e : ℕ) (late : List Call) (t : System sql.Db)
      → Valid t.pool
      → Each (Left e) (finish_service sql e late t)
  unfolding finish_service Left
  finish_service-Left e late t v =
      Each-bind (consecutive_failures (t.pool.heap e).id t.pool) _ λ n _.
        Each-bind (run sql late t) _ λ u h. Each-bind (withdraw e u.pool) _ λ p k.
          Each-some
            ((withdraw-Absent e u.pool (((run-Kept sql laws late t).at u h).valid v)).at p k)

  on_woken-Left :
      (e : ℕ) (w : Woken) (late : List Call) (t : System sql.Db)
      → Valid t.pool
      → Each (Left e) (on_woken sql e w late t)
  unfolding on_woken
  on_woken-Left e finished late t v = finish_service-Left e late t v
  on_woken-Left e circuit_closed late t v = leave-Left e _ t v
  on_woken-Left e control_lost late t v = leave-Left e _ t v

  after_publish-Left :
      (e : ℕ) (w : Wait) (ready : Bool) (err : Option GoError) (s : System sql.Db)
      → Valid s.pool
      → (ready ≡ false → Absent e s.pool)
      → (ready ≡ true → err ≡ none)
      → Each (Left e) (after_publish sql e w (ready, err) s)
  unfolding after_publish Left
  after_publish-Left e w true (some err) s v h k = absurd (cc (k refl))
  after_publish-Left e w false (some err) s v h k = Each-some (h refl)
  after_publish-Left e w false none s v h k = Each-some (h refl)
  after_publish-Left e w true none s v h k =
      Each-bind (run sql w.during s) _
        λ t r. on_woken-Left e w.woken w.late t (((run-Kept sql laws w.during s).at t r).valid v)

  observed_error :
      (now e : ℕ) (s : Slot) (p : Pool sql.Db) (r : Returns sql.Db)
      → (publish_observed now e s p r).1 ≡ true
      → (publish_observed now e s p r).2 ≡ none
  unfolding publish_observed
  observed_error now e s p (db, unused, some err) h = absurd (cc)
  observed_error now e s p (db, unused, none) h = ground arith

  publish_error :
      (now e : ℕ) (p : Pool sql.Db) → Each (λ r. r.1 ≡ true → r.2 ≡ none) (publish sql now e p)
  unfolding publish publish_at
  publish_error now e p = Each-bind (slot_at p.slots (p.heap e).id) _ λ s _. Each-some (
      observed_error now e (checked now (p.heap e) s) (show_check now e s p)
        (observe sql p.store (p.heap e).ip))

  refused-Absent :
      (e : ℕ) (p q : Pool sql.Db) (ready : Bool)
      → Kept sql p q
      → Decided sql laws e p q ready
      → Absent e p
      → ready ≡ false
      → Absent e q
  refused-Absent e p q ready k d a turned = record {
    nowhere = λ id h. a.nowhere id (sym (d.unmoved turned id "").0 ∙ h);
    unreserved = λ h.
        a.unreserved (sym (d.unmoved turned 0 (p.heap e).ip).1 ∙ ap q.reserved (sym (k.ips e)) ∙ h);
  }

  -- Whatever the other goroutines do meanwhile, and however its service of a circuit ends, a worker
  -- that began with its endpoint neither in a slot nor with a reservation leaves it so: the endpoint
  -- stands in no slot of the pool, and its address is not reserved for it.
  pub serve_circuit-Absent :
      (now e : ℕ) (w : Wait) (s : System sql.Db)
      → Valid s.pool
      → Absent e s.pool
      → Each (λ r. Absent e r.0.pool) (serve_circuit sql now e w s)
  unfolding serve_circuit Left
  serve_circuit-Absent now e w s v a = Each-bind (publish sql now e s.pool) _ λ r h.
      let k = (publish-Kept sql laws now e s.pool).at r h in
      after_publish-Left e w r.1 r.2 (with_pool s r.0) (k.valid v)
        (refused-Absent e s.pool r.0 r.1 k (publish_decides sql laws now e s.pool r.0 r.1 r.2 h) a)
        ((publish_error now e s.pool).at r h)
