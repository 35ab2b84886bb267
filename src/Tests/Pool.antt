-- ===== src/Tests/Pool.antt =====
-- Tests of the pool: two instances over a table in memory.
use tor_rotating_http_proxy.Prelude.{
  ℕ, ◌≡◌, ◌≢◌, ◌≤◌, refl, Bool, true, false, Option, none, some, List, [], ◌∷◌, arith, All,
  Distinct, length, ◌==◌, if◌then◌else◌,
}
use tor_rotating_http_proxy.Store.{observe, consume}
use tor_rotating_http_proxy.Store.Memory.{memory, memory_laws, empty}
use tor_rotating_http_proxy.Pool.Types.{Pool, Endpoint}
use tor_rotating_http_proxy.Pool.Slots.{new_pool, publish, withdraw}
use tor_rotating_http_proxy.Pool.Acquire.{Lease, acquire_locked}
use tor_rotating_http_proxy.Pool.Finish.{finish}
use tor_rotating_http_proxy.Pool.Valid.{Valid}
use tor_rotating_http_proxy.Pool.System.{
  System, Call, publishes, acquires, finishes, withdraws, finish_lease, run, start,
}
use tor_rotating_http_proxy.Pool.Runs.{new_pool-Valid, run_separates_addresses, run_bounds_events}
use tor_rotating_http_proxy.Pool.History.{addresses, run_never_reuses}
use tor_rotating_http_proxy.Pool.Once.{HasRun, finish_twice}
use tor_rotating_http_proxy.Pool.Owned.{Apart}
use tor_rotating_http_proxy.Pool.Total.{Succeeds}
use tor_rotating_http_proxy.Pool.Panics.{run_total}

-- Endpoint 0 is for instance 1, every other one for instance 2.
abbrev pub endpoint : ℕ → Endpoint
endpoint e = record {
  id = if e == 0 then 1 else 2;
  ip = if e == 0 then "8.8.8.8" else "9.9.9.9";
  circuit = "7";
  token = "ab";
  cancelled = false;
  done = false;
  once = false;
  last_err = none;
  active = 0;
}

abbrev pub pool : Bool → Pool memory.Db
pool unique = new_pool empty unique 3 2 0 endpoint

pub pool-Valid : (unique : Bool) → Valid (pool unique)
pool-Valid unique = new_pool-Valid empty unique 3 2 0 endpoint (λ e. refl)

abbrev calls : List Call
calls =
    publishes 1 0
    ∷ publishes 2 1
    ∷ acquires 3
    ∷ acquires 4
    ∷ finishes 5 0 none
    ∷ withdraws 0
    ∷ publishes 6 0
    ∷ acquires 7
    ∷ []

abbrev reached : Option (System memory.Db) → System memory.Db
reached none = start (pool true)
reached (some s) = s

abbrev final : Bool → System memory.Db
final unique = reached (run memory calls (start (pool unique)))

final_eq : run memory calls (start (pool true)) ≡ some (final true)
unfolding run publish observe acquire_locked consume finish_lease finish withdraw new_pool
final_eq = refl

assigned : addresses (final true).leases ≡ "9.9.9.9" ∷ "8.8.8.8" ∷ []
unfolding run publish observe acquire_locked consume finish_lease finish withdraw new_pool
assigned = refl

run_never_reuses_example :
    Distinct (addresses (final true).leases)
    × All (λ ip. empty ip ≢ some true) (addresses (final true).leases)
    × All (λ ip. (final true).pool.store ip ≡ some true) (addresses (final true).leases)
unfolding new_pool
run_never_reuses_example =
    run_never_reuses memory memory_laws (pool true) calls (final true) refl final_eq

-- Instance 2 holds endpoint 1.
run_separates_addresses_example :
    (◌≡◌ {A = ℕ} 2 2)
    × (◌≡◌ {A = ℕ} 1 1)
    × ((final true).pool.reserved ((final true).pool.heap 1).ip ≡ some 1)
unfolding run publish observe acquire_locked consume finish_lease finish withdraw new_pool
run_separates_addresses_example =
    run_separates_addresses memory memory_laws (pool true) calls (final true) 2 2 1 1
      (pool-Valid true) refl final_eq refl refl refl

run_bounds_events_example :
    (length (final true).pool.events ≤ 100)
    × ((e : ℕ) → ((final true).pool.heap e).done ≡ true → ((final true).pool.heap e).once ≡ true)
run_bounds_events_example =
    run_bounds_events memory memory_laws (pool true) calls (final true) (pool-Valid true) final_eq

pub ids_in_range : (e : ℕ) → (1 ≤ (endpoint e).id) × ((endpoint e).id ≤ 2)
ids_in_range e = ground arith

run_total_example : Succeeds (run memory calls (start (pool false)))
unfolding new_pool
run_total_example =
    run_total memory memory_laws calls (start (pool false)) (pool-Valid false) ids_in_range
      (omega arith)

-- Two leases of one endpoint, in reuse mode; the older one is finished, and other calls follow.
abbrev two_leased : System memory.Db
two_leased =
    reached (run memory (publishes 1 0 ∷ acquires 2 ∷ acquires 3 ∷ []) (start (pool false)))

abbrev older : Lease
older = record { ip = "8.8.8.8"; instance_id = 1; ep = 0; once = some 0 }

abbrev finished : Pool memory.Db
finished = elim (finish 5 older none two_leased.pool) [ none ↦ pool false | some q ↦ q ]

abbrev between : List Call
between = finishes 6 0 none ∷ acquires 7 ∷ []

abbrev later : System memory.Db
later = reached (run memory between (record two_leased { pool = finished }))

finish_twice_example :
    HasRun (some 0) 0 finished
    × (finish 8 older none later.pool ≡ some later.pool)
    × Apart later.leases
unfolding run publish observe acquire_locked consume finish_lease finish new_pool
finish_twice_example =
    finish_twice memory memory_laws (pool false) (publishes 1 0 ∷ acquires 2 ∷ acquires 3 ∷ [])
      between two_leased later finished 1 older 5 8 none none refl refl refl refl

still_active : (later.pool.heap 0).active ≡ 1
unfolding run publish observe acquire_locked consume finish_lease finish new_pool
still_active = refl
