-- ===== src/Tests/Waiting.antt =====
-- Tests of Acquire, on the pool of two instances: nothing is ready at first, then an endpoint is
-- published during the wait; and a wait that times out.
use tor_rotating_http_proxy.Prelude.{
  ◌≡◌, refl, true, false, Option, none, some, List, [], ◌∷◌, Each,
}
use tor_rotating_http_proxy.Store.{observe, consume}
use tor_rotating_http_proxy.Store.Memory.{memory, memory_laws}
use tor_rotating_http_proxy.Pool.Slots.{new_pool, publish}
use tor_rotating_http_proxy.Pool.Acquire.{acquire_locked, no_ready_error}
use tor_rotating_http_proxy.Pool.System.{System, publishes, run, start}
use tor_rotating_http_proxy.Pool.Waiting.{Turn, notified, timed_out, Answer, got, fails, acquire}
use tor_rotating_http_proxy.Pool.Waiting.Refined.{Refines, acquire-Refines}
use tor_rotating_http_proxy.Pool.Waiting.Ends.{Answers, acquire_ends}
use tor_rotating_http_proxy.Tests.Pool.{pool, pool-Valid, ids_in_range}

abbrev quiet : Turn
quiet = record {
  before = [];
  now = 3;
  expired = false;
  wake = notified;
  between = [];
  later = 3;
  after = [];
}

-- The second turn begins after the publication of endpoint 0.
abbrev served : List Turn
served = quiet ∷ record quiet { before = publishes 5 0 ∷ []; now = 6 } ∷ []

abbrev late : List Turn
late = quiet ∷ record quiet { wake = timed_out; later = 9 } ∷ []

abbrev answer : Option (System memory.Db × Answer) → Option Answer
answer none = none
answer (some r) = some r.1

served_lease :
    answer (acquire memory served (start (pool true)))
    ≡ some (got (record { ip = "8.8.8.8"; instance_id = 1; ep = 0; once = none }))
unfolding acquire run publish observe acquire_locked consume new_pool
served_lease = refl

late_fails : answer (acquire memory late (start (pool true))) ≡ some (fails no_ready_error)
unfolding acquire run publish observe acquire_locked consume new_pool
late_fails = refl

acquire-Refines_example :
    Each (Refines memory (start (pool true))) (acquire memory served (start (pool true)))
acquire-Refines_example = acquire-Refines memory served (start (pool true))

acquire_ends_example : Answers (acquire memory late (start (pool true)))
unfolding new_pool
acquire_ends_example =
    acquire_ends memory memory_laws late (start (pool true)) (pool-Valid true) ids_in_range
      ((tt, tt, tt), ((tt, tt, tt), tt)) refl
