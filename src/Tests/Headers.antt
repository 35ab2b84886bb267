-- ===== src/Tests/Headers.antt =====
-- Tests of the removal of hop-by-hop fields.
use tor_rotating_http_proxy.Prelude.{◌≡◌, refl, List, [], ◌∷◌}
use tor_rotating_http_proxy.Prelude.Bytes.{codes}
use tor_rotating_http_proxy.Headers.{Field, remove_hop_headers}

abbrev fields : List Field
fields =
    record { name = codes "Accept"; value = codes "x" }
    ∷ record { name = codes "Connection"; value = codes "close, X-Once" }
    ∷ record { name = codes "X-Once"; value = codes "y" }
    ∷ record { name = codes "Te"; value = codes "z" }
    ∷ []

kept : remove_hop_headers fields ≡ record { name = codes "Accept"; value = codes "x" } ∷ []
unfolding remove_hop_headers
kept = refl
