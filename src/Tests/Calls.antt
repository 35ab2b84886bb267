-- ===== src/Tests/Calls.antt =====
-- The theorems about single calls of the pool, on the pool of two instances.
use mathlib.Core.Option.{some-injective}
use tor_rotating_http_proxy.Prelude.{◌+◌, ◌%◌, subst, get_elem?, arith}
use tor_rotating_http_proxy.Pool.Types.{Slot, stopped}
use tor_rotating_http_proxy.Pool.Slots.{can_serve}
use tor_rotating_http_proxy.Pool.RoundRobin.{Skipped, Grants, acquire_locked-Grants}
use tor_rotating_http_proxy.Prelude.{◌≡◌, refl, true, false, Option, none, some}
use tor_rotating_http_proxy.Store.{observe, consume}
use tor_rotating_http_proxy.Store.Memory.{memory, memory_laws}
use tor_rotating_http_proxy.Pool.Types.{Pool}
use tor_rotating_http_proxy.Pool.Slots.{new_pool, publish, is_ready}
use tor_rotating_http_proxy.Pool.Acquire.{Lease, granted, refused, no_ready_error, acquire_locked}
use tor_rotating_http_proxy.Prelude.{Each}
use tor_rotating_http_proxy.Pool.Kept.{Kept}
use tor_rotating_http_proxy.Pool.Claims.{Outcome, acquire_locked-Claimed}
use tor_rotating_http_proxy.Pool.Publication.{Decided, publish_decides}
use tor_rotating_http_proxy.Pool.Ready.{acquire_locked-not_ready}
use tor_rotating_http_proxy.Tests.Pool.{pool}

abbrev reached {ℓ} : {A : Type ℓ} → A → Option A → A
reached x none = x
reached x (some y) = y

-- After the publication of endpoint 0.
abbrev one_ready : Pool memory.Db
one_ready = (reached (pool true, false, none) (publish memory 1 0 (pool true))).0

publish_decides_example : Decided memory memory_laws 0 (pool true) one_ready true
unfolding publish observe new_pool
publish_decides_example =
    publish_decides memory memory_laws 1 0 (pool true) one_ready true none refl

acquire_locked-not_ready_example :
    acquire_locked memory 9 (pool true) ≡ some (pool true, refused no_ready_error)
unfolding is_ready new_pool
acquire_locked-not_ready_example = acquire_locked-not_ready memory 9 (pool true) refl

acquire_locked-Claimed_example :
    Each
      (λ r. Kept memory one_ready r.0 × Outcome memory one_ready r.0 r.1)
      (acquire_locked memory 3 one_ready)
acquire_locked-Claimed_example = acquire_locked-Claimed memory memory_laws 3 one_ready

-- The lease that the scan of this pool grants, and its pool.
abbrev lease : Lease
lease = record { ip = "8.8.8.8"; instance_id = 1; ep = 0; once = none }

abbrev leased : Pool memory.Db
leased = (reached (one_ready, refused no_ready_error) (acquire_locked memory 3 one_ready)).0

lease_granted : acquire_locked memory 3 one_ready ≡ some (leased, granted lease)
unfolding publish observe acquire_locked consume new_pool
lease_granted = refl

-- After the publication of endpoint 1, for instance 2: instance 1 has none.
abbrev second_ready : Pool memory.Db
second_ready = (reached (pool true, false, none) (publish memory 1 1 (pool true))).0

first-Skipped : Skipped second_ready 0
unfolding publish observe new_pool can_serve
first-Skipped s f = subst (λ x. can_serve x second_ready ≡ false) (some-injective _ _ f) refl

abbrev blank : Slot
blank = record {
  view = record {
    id = 0;
    state = stopped;
    bootstrap = 0;
    ip = "";
    circuit = "";
    last_check = 0;
    last_error = "";
    requests = 0;
  };
  ep = none;
  fails = 0;
}

abbrev second_slot : Slot
second_slot = reached blank (get_elem? second_ready.slots 1)

acquire_locked-Grants_example : Grants 1 1 second_ready (acquire_locked memory 3 second_ready)
unfolding publish observe consume new_pool can_serve
acquire_locked-Grants_example =
    acquire_locked-Grants memory 3 1 1 second_ready
      (consume memory second_ready.store "9.9.9.9" true).0 (omega arith)
      (λ i l.
        let zeroth : 0 ≡ i = omega (arith, l) in
        subst (λ m. Skipped second_ready ((0 + m) % 2)) zeroth first-Skipped)
      (second_slot, refl, refl, refl) refl
