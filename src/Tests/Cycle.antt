-- ===== src/Tests/Cycle.antt =====
-- Tests of the service of a circuit: endpoint 0 is published, leased, finished and withdrawn.
use tor_rotating_http_proxy.Prelude.{
  ℕ, zero, suc, ◌≡◌, ◌≢◌, refl, true, Option, none, some, [], ◌∷◌,
}
use tor_rotating_http_proxy.Errors.{GoError}
use tor_rotating_http_proxy.Store.{observe, consume}
use tor_rotating_http_proxy.Store.Memory.{memory, memory_laws}
use tor_rotating_http_proxy.Pool.Slots.{new_pool, publish, withdraw, consecutive_failures}
use tor_rotating_http_proxy.Pool.Acquire.{acquire_locked}
use tor_rotating_http_proxy.Pool.Finish.{finish}
use tor_rotating_http_proxy.Pool.Valid.{holder}
use tor_rotating_http_proxy.Pool.System.{System, acquires, finishes, run, start, finish_lease}
use tor_rotating_http_proxy.Cycle.{Wait, finished, serve_circuit}
use tor_rotating_http_proxy.Cycle.Cleanup.{Absent}
use tor_rotating_http_proxy.Cycle.Ends.{serve_circuit_cleans}
use tor_rotating_http_proxy.Tests.Pool.{pool, pool-Valid, ids_in_range}

abbrev one_lease : Wait
one_lease = record { during = acquires 3 ∷ finishes 4 0 none ∷ []; woken = finished; late = [] }

abbrev outcome : Option (System memory.Db × Option GoError) → Option (Option GoError)
outcome none = none
outcome (some r) = some r.1

rotates : outcome (serve_circuit memory 1 0 one_lease (start (pool true))) ≡ some none
unfolding serve_circuit run publish observe acquire_locked consume finish_lease finish withdraw
    consecutive_failures new_pool
rotates = refl

no_holder : (id : ℕ) → holder (pool true).slots id ≢ some 0
unfolding new_pool
no_holder zero h = cc
no_holder (suc zero) h = cc
no_holder (suc (suc zero)) h = cc
no_holder (suc (suc (suc id))) h = cc

pool-Absent : Absent 0 (pool true)
unfolding new_pool
pool-Absent = record { nowhere = no_holder; unreserved = λ h. cc }

serve_circuit_cleans_example :
    (r : System memory.Db × Option GoError) × (serve_circuit memory 1 0 one_lease
        (start (pool true))
      ≡ some r)
    × Absent 0 r.0.pool
unfolding new_pool
serve_circuit_cleans_example =
    serve_circuit_cleans memory memory_laws 1 0 one_lease (start (pool true)) (pool-Valid true)
      ids_in_range pool-Absent (tt, (tt, tt)) tt
