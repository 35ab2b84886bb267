-- ===== src/Tests/Admission.antt =====
-- Tests of the proxy's guards.
use tor_rotating_http_proxy.Prelude.{◌≡◌, ◌↔◌, refl, none, some, true, false, []}
use tor_rotating_http_proxy.Prelude.Int.{atoi}
use tor_rotating_http_proxy.Prelude.Bytes.{codes}
use tor_rotating_http_proxy.Admission.{
  split_host_port, validate_connect, is_onion, onion, invalid_port, Request, serve_http, to_connect,
  to_forward,
}
use tor_rotating_http_proxy.Admission.Guards.{Target, IsPlain, IsAbsolute, serve_http_admits}

plain : split_host_port (codes "example.com:443") ≡ some (codes "example.com", codes "443")
unfolding split_host_port
plain = refl

six : split_host_port (codes "[::1]:80") ≡ some (codes "::1", codes "80")
unfolding split_host_port
six = refl

colons : split_host_port (codes "::1:80") ≡ none
unfolding split_host_port
colons = refl

no_port : split_host_port (codes "[::1]") ≡ none
unfolding split_host_port
no_port = refl

hidden : validate_connect (codes "a.OnioN:443") ≡ some onion
unfolding validate_connect is_onion atoi
hidden = refl

zero_port : validate_connect (codes "a.com:0") ≡ some invalid_port
unfolding validate_connect is_onion atoi
zero_port = refl

fine : validate_connect (codes "a.com:65535") ≡ none
unfolding validate_connect is_onion atoi
fine = refl

abbrev tunnel : Request
tunnel = record {
  connects = true;
  host = codes "a.com:443";
  scheme = "";
  hostname = codes "a.com";
  has_user = false;
  has_fragment = false;
  upgrade = [];
}

let_in : serve_http tunnel ≡ to_connect
unfolding serve_http is_onion atoi
let_in = refl

serve_http_admits_example :
    ((serve_http tunnel ≡ to_connect) ↔ ((true ≡ true) × Target tunnel.host × IsPlain tunnel))
    × ((serve_http tunnel ≡ to_forward) ↔ ((true ≡ false) × IsAbsolute tunnel × IsPlain tunnel))
serve_http_admits_example = serve_http_admits tunnel
