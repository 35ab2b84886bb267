-- ===== src/Config/Usable.antt =====
-- What a configuration that LoadConfig accepts is like, and which environments it accepts.
use tor_rotating_http_proxy.Prelude.{
  ℕ, ◌≤◌, ◌≡◌, ◌⊎◌, String, Bool, true, false, Option, none, some,
}
use tor_rotating_http_proxy.Prelude.Bytes.{Bytes, codes}
use tor_rotating_http_proxy.Prelude.Int.{ℤ, pos, atoi}
use tor_rotating_http_proxy.Errors.{ok}
use tor_rotating_http_proxy.Admission.{split_host_port}
use tor_rotating_http_proxy.LoadTest.{acceptable_url}
use tor_rotating_http_proxy.Config.{Config, Env, GoLib}

-- What the environment says under a name, be it empty, or the program's own value where the name is
-- not set
abbrev pub IsSetting : Env → String → Bytes → Bytes → Type 0
IsSetting vars name fallback v = ((vars name ≡ none) × (v ≡ fallback)) ⊎ (vars name ≡ some v)

-- A setting that is a positive int
abbrev pub IsNumber : Env → String → Bytes → ℕ → Type 0
IsNumber vars name fallback n =
    (v : Bytes) × IsSetting vars name fallback v × (atoi v ≡ some (pos n)) × (1 ≤ n)

-- A setting that is a positive duration
abbrev pub IsDuration : GoLib → Env → String → Bytes → ℕ → Type 0
IsDuration lib vars name fallback n =
    (v : Bytes) × IsSetting vars name fallback v × (lib.parse_duration v ≡ some (pos n)) × (1 ≤ n)

-- A setting that is true or false
abbrev pub IsSwitch : Bytes → Bool → Type 0
IsSwitch v true = v ≡ codes "true"
IsSwitch v false = v ≡ codes "false"

abbrev pub IsUnique : Env → Bool → Type 0
IsUnique vars b = (v : Bytes) × IsSetting vars "UNIQUE_IP" (codes "true") v × IsSwitch v b

-- An address with a port from 1 to 65535
abbrev pub Listens : Bytes → Type 0
Listens address =
    (host port : Bytes) × (split_host_port address ≡ some (host, port))
    × ((n : ℕ) × (atoi port ≡ some (pos n)) × (1 ≤ n) × (n ≤ 65535))

-- A configuration that stands for an environment: each field is the setting of its name, or what
-- it is when that one is not set, within the limits of the program.
pub record Usable (lib : GoLib) (vars : Env) (c : Config) : Type 0 where
  pub tor_count : IsNumber vars "TOR_COUNT" (codes "10") c.tor_count
  pub retries : IsNumber vars "MAX_USED_IP_RETRIES" (codes "3") c.max_used_ip_retries
  pub unique : IsUnique vars c.unique_ip
  pub connections : IsNumber vars "MAX_CONNECTIONS" (codes "1024") c.max_connections
  pub connect : IsDuration lib vars "CONNECT_TIMEOUT" (codes "30s") c.connect_timeout
  pub idle : IsDuration lib vars "IDLE_TIMEOUT" (codes "120s") c.idle_timeout
  pub bootstrap : IsDuration lib vars "BOOTSTRAP_TIMEOUT" (codes "5m") c.bootstrap_timeout
  pub check_url_is : IsSetting vars "IP_CHECK_URL" (codes "https://api.ipify.org") c.ip_check_url
  pub absolute_url : acceptable_url (lib.parse_url c.ip_check_url) ≡ true
  pub proxy_is : IsSetting vars "PROXY_ADDR" (codes ":3128") c.proxy_addr
  pub proxy_listens : Listens c.proxy_addr
  pub web_is : IsSetting vars "WEB_ADDR" (codes ":8080") c.web_addr
  pub web_listens : Listens c.web_addr
  pub data_dir :
      (path : Bytes) × IsSetting vars "DATA_DIR" (codes "/data") path
      × (lib.abs path ≡ ok c.data_dir)

-- A check that reads a setting as a positive number
abbrev Reads : (Bytes → Option ℤ) → Env → String → Bytes → ℕ → Type 0
Reads read vars name fallback n =
    (v : Bytes) × IsSetting vars name fallback v × (read v ≡ some (pos n)) × (1 ≤ n)
