-- ===== src/Tests/Attempt.antt =====
-- Tests of one attempt of the proxy, and of a connection's deadlines.
use tor_rotating_http_proxy.Prelude.{
  ◌+◌, ◌≡◌, ◌⊎◌, refl, Bool, true, false, not, none, some, List, [], ◌∷◌,
}
use tor_rotating_http_proxy.Prelude.Bytes.{Bytes, codes}
use tor_rotating_http_proxy.Errors.{ok, is_some}
use tor_rotating_http_proxy.Headers.{Field, values}
use tor_rotating_http_proxy.Proxy.Attempt.{
  Upstream, Exchange, new_client, forward_attempt, Tunnel, connect_attempt,
}
use tor_rotating_http_proxy.Proxy.Attempt.Relayed.{
  Untouched, Relayed, end_to_end, forward_attempt_relays,
}
use tor_rotating_http_proxy.Proxy.Idle.{
  Use, reads_or_writes, sets_deadline, sets_write_deadline, new_idle, use_conn, use_all,
}
use tor_rotating_http_proxy.Proxy.Idle.Deadlines.{Within, used, use_all_expires}
use tor_rotating_http_proxy.Proxy.Attempt.Closed.{all_closed, replay, connect_attempt_closes}

abbrev asked : List Field
asked =
    record { name = codes "Accept"; value = codes "x" }
    ∷ record { name = codes "Proxy-Authorization"; value = codes "y" }
    ∷ []

abbrev exchange : Exchange
exchange = record {
  dials = true ∷ [];
  answer = ok (record {
    status = 200;
    header = record { name = codes "Keep-Alive"; value = codes "5" } ∷ [];
    trailer_names = [];
    body = codes "hello";
    cut = none;
    trailer = [];
  });
}

unauthorized :
    values (codes "proxy-authorization") (forward_attempt asked exchange new_client).sent ≡ []
unfolding forward_attempt values
unauthorized = refl

forward_attempt_relays_example :
    let a = forward_attempt asked exchange new_client in
    ((name : Bytes) → values name a.sent ≡ end_to_end name asked)
    × (Untouched exchange a ⊎ ((u : Upstream) × (exchange.answer ≡ ok u) × Relayed u a))
forward_attempt_relays_example = forward_attempt_relays asked exchange

abbrev tunnel : Tunnel
tunnel = record { dial = none; hijackable = true; hijack = none; greeting = none; result = none }

connect_attempt_closes_example :
    ((copied : Bool) × (replay all_closed (connect_attempt tunnel).0
        ≡ some (record all_closed { ended = copied })))
    × ((connect_attempt tunnel).1 ≡ not (is_some tunnel.dial))
connect_attempt_closes_example = connect_attempt_closes tunnel

-- The user's limit comes before the timeout.
abbrev uses : List Use
uses =
    sets_deadline (some 130) true
    ∷ reads_or_writes 100 true true
    ∷ sets_write_deadline none false
    ∷ []

in_force :
    (use_all (reads_or_writes 120 true true ∷ []) (use_all uses (new_idle 60))).read.deadline
    ≡ some 130
unfolding use_all
in_force = refl

use_all_expires_example :
    let c = use_conn (reads_or_writes 120 true true) (used 60 uses) in
    Within (some 130) c.read.deadline
    × Within none c.write.deadline
    × Within (some (120 + 60)) c.read.deadline
    × Within (some (120 + 60)) c.write.deadline
    × Within none (used 60 uses).read.deadline
    × Within none (used 60 uses).write.deadline
use_all_expires_example = use_all_expires 60 120 uses
