-- ===== src/Tests/CheckIp.antt =====
-- Tests of the check of an exit address.
use tor_rotating_http_proxy.Prelude.{◌≡◌, ◌↔◌, refl, none}
use tor_rotating_http_proxy.Prelude.Bytes.{codes}
use tor_rotating_http_proxy.Errors.{ok}
use tor_rotating_http_proxy.Worker.CheckIp.{
  Answer, Address, check_ip, exit_ip, ip_error, not_public, show_address, parse_ipv4,
}
use tor_rotating_http_proxy.Worker.CheckIp.Public.{Names, check_ip_passes}

abbrev answer : Answer
answer = record { status = 200; body = codes " 185.220.101.4\n"; read_error = none }

passes : check_ip none (ok answer) ≡ exit_ip (codes "185.220.101.4")
unfolding check_ip
passes = refl

private_range :
    check_ip none (ok (record answer { body = codes "172.31.0.1" })) ≡ ip_error not_public
unfolding check_ip
private_range = refl

zero_in_front : parse_ipv4 (codes "8.8.8.08") ≡ none
unfolding parse_ipv4
zero_in_front = refl

six : check_ip none (ok (record answer { body = codes "::1" })) ≡ ip_error not_public
unfolding check_ip
six = refl

check_ip_passes_example :
    (check_ip none (ok answer) ≡ exit_ip (codes "185.220.101.4"))
    ↔ ((x : Address) × (codes "185.220.101.4" ≡ show_address x) × Names answer x)
check_ip_passes_example = check_ip_passes answer (codes "185.220.101.4")
