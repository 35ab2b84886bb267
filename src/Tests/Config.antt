-- ===== src/Tests/Config.antt =====
-- Tests of the configuration: an empty environment, and a port that is too large.
use tor_rotating_http_proxy.Prelude.{
  ◌*◌, ◌^◌, ◌≡◌, refl, true, false, Option, none, some, str_eq, if◌then◌else◌,
}
use tor_rotating_http_proxy.Prelude.Bytes.{Bytes, codes, bytes_eq}
use tor_rotating_http_proxy.Prelude.Int.{ℤ, pos, atoi}
use tor_rotating_http_proxy.Errors.{ok}
use tor_rotating_http_proxy.LoadTest.{Url}
use tor_rotating_http_proxy.Config.{
  Config, GoLib, Env, load_config, valid, invalid, bad_port, env, positive_int, unique_setting,
  positive_duration, check_url, check_listen, ◌>>=◌,
}
use tor_rotating_http_proxy.Config.Usable.{Usable}

abbrev seconds : Bytes → Option ℤ
seconds v =
    if bytes_eq v (codes "30s")
    then some (pos (30 * 10 ^ 9))
    else (if bytes_eq v (codes "120s")
        then some (pos (120 * 10 ^ 9))
        else (if bytes_eq v (codes "5m") then some (pos (300 * 10 ^ 9)) else none))

abbrev checker : Url
checker = record { scheme = "https"; hostname = "api.ipify.org"; has_user = false; fragment = "" }

abbrev lib : GoLib
lib = record { parse_duration = seconds; parse_url = λ url. some checker; abs = λ path. ok path }

abbrev nothing_set : Env
nothing_set name = none

abbrev large_port : Env
large_port name = if str_eq name "WEB_ADDR" then some (codes ":65536") else none

abbrev defaults : Config
defaults = record {
  tor_count = 10;
  unique_ip = true;
  max_used_ip_retries = 3;
  data_dir = codes "/data";
  proxy_addr = codes ":3128";
  web_addr = codes ":8080";
  ip_check_url = codes "https://api.ipify.org";
  connect_timeout = 30 * 10 ^ 9;
  idle_timeout = 120 * 10 ^ 9;
  bootstrap_timeout = 300 * 10 ^ 9;
  max_connections = 1024;
}

by_default : load_config lib nothing_set ≡ valid defaults
unfolding load_config env positive_int unique_setting positive_duration check_url check_listen ◌>>=◌
    atoi
by_default = refl

too_large : load_config lib large_port ≡ invalid (bad_port (codes ":65536"))
unfolding load_config env positive_int unique_setting positive_duration check_url check_listen ◌>>=◌
    atoi
too_large = refl
