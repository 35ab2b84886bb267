-- ===== src/Tests/Build.antt =====
-- Tests of a circuit's life, from its extension to its closing.
use tor_rotating_http_proxy.Prelude.{◌≡◌, ◌⊎◌, refl, true, false, none, some, List, [], ◌∷◌}
use tor_rotating_http_proxy.Prelude.Bytes.{Bytes, codes}
use tor_rotating_http_proxy.Errors.{ok, is_some}
use tor_rotating_http_proxy.Worker.{canceled_error}
use tor_rotating_http_proxy.Cycle.Build.{
  Deed, extends, asks_status, sets_endpoint, clears_endpoint, cancels_endpoint, checks_ip, serves,
  closes_circuit, Status, Circuit, cycle,
}
use tor_rotating_http_proxy.Cycle.Build.Replies.{NotExtended, Extended}
use tor_rotating_http_proxy.Cycle.Build.Tidy.{Tidy, cycle_tidies}

abbrev status : Bytes → Status
status line = record { reply = ok (codes "circuit-status=" ∷ line ∷ []); waited = true }

abbrev circuit : Circuit
circuit = record {
  extended = ok (codes "EXTENDED 7" ∷ []);
  statuses =
      status (codes "7 LAUNCHED")
      ∷ status (codes "7 BUILT x,y")
      ∷ record (status (codes "7 BUILT x,y")) { waited = false }
      ∷ [];
  expiry = canceled_error;
  token = ok (codes "ab12");
  dialer_error = none;
  ip = ok (codes "8.8.8.8");
  service = none;
}

lived : cycle circuit ≡ (
  extends
      ∷ asks_status
      ∷ asks_status
      ∷ sets_endpoint (codes "7") (codes "ab12")
      ∷ checks_ip
      ∷ serves (codes "8.8.8.8")
      ∷ clears_endpoint
      ∷ cancels_endpoint
      ∷ closes_circuit (codes "7")
      ∷ [],
  some none,
)
unfolding cycle
lived = refl

cycle_tidies_example :
    (is_some (cycle circuit).1 ≡ true)
    × ((NotExtended circuit × ((cycle circuit).0 ≡ extends ∷ []))
        ⊎ ((id : Bytes) × (ds : List Deed) × Extended circuit id
            × ((cycle circuit).0 ≡ extends ∷ ds)
            × Tidy circuit id ds))
cycle_tidies_example = cycle_tidies circuit refl
