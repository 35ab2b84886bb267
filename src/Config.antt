-- ===== src/Config.antt =====
-- LoadConfig of internal/app/config.go, over an environment. What time.ParseDuration (in
-- nanoseconds), url.Parse and filepath.Abs answer are parameters, the record `GoLib`. An int is in
-- the range of 64 bits; the texts are ASCII. The configuration that LoadConfig returns beside an
-- error is not modelled, since its caller drops it.
pub mod Usable
use tor_rotating_http_proxy.Prelude.{
  ℕ, String, Bool, true, false, not, ◌&&◌, ◌||◌, Option, none, some, List, [], ◌∷◌, if◌then◌else◌,
}
use tor_rotating_http_proxy.Prelude.Bytes.{Bytes, codes, bytes_eq}
use tor_rotating_http_proxy.Prelude.Int.{ℤ, pos, negsuc, lt_nat, gt_nat, pos_part, atoi}
use tor_rotating_http_proxy.Errors.{GoError, Result, ok, err}
use tor_rotating_http_proxy.Admission.{split_host_port, valid_port}
use tor_rotating_http_proxy.LoadTest.{Url, acceptable_url}

-- Durations in nanoseconds
pub record Config : Type 0 where
  pub tor_count : ℕ
  pub unique_ip : Bool
  pub max_used_ip_retries : ℕ
  pub data_dir : Bytes
  pub proxy_addr : Bytes
  pub web_addr : Bytes
  pub ip_check_url : Bytes
  pub connect_timeout : ℕ
  pub idle_timeout : ℕ
  pub bootstrap_timeout : ℕ
  pub max_connections : ℕ

pub data ConfigError : Type 0 where
  not_positive : String → ConfigError
  not_bool : ConfigError
  not_duration : String → Bytes → ConfigError
  bad_check_url : ConfigError
  bad_address bad_port : Bytes → ConfigError
  no_path : GoError → ConfigError

pub data Checked (A : Type 0) : Type 0 where
  valid : A → Checked A
  invalid : ConfigError → Checked A

-- A check whose error is returned, before what follows
infixl 20 ◌>>=◌
unfoldable pub ◌>>=◌ : {A B : Type 0} → Checked A → (A → Checked B) → Checked B
valid a >>= k = k a
invalid e >>= k = invalid e

infixl 20 ◌>>◌
abbrev pub ◌>>◌ : {A B : Type 0} → Checked A → Checked B → Checked B
m >> n = m >>= λ a. n

-- os.LookupEnv
abbrev pub Env : Type 0
Env = String → Option Bytes

-- env
unfoldable pub env : Env → String → Bytes → Bytes
env vars name fallback = elim (vars name) [ none ↦ fallback | some value ↦ value ]

abbrev pub positive : ConfigError → Option ℤ → Checked ℕ
positive e none = invalid e
positive e (some n) = if gt_nat n 0 then valid (pos_part n) else invalid e

-- positiveInt, with the fallback as strconv.Itoa writes it
unfoldable pub positive_int : Env → String → Bytes → Checked ℕ
unfolding env
positive_int vars name fallback = positive (not_positive name) (atoi (env vars name fallback))

-- UNIQUE_IP
unfoldable pub unique_setting : Bytes → Checked Bool
unique_setting v =
    if bytes_eq v (codes "true")
    then valid true
    else (if bytes_eq v (codes "false") then valid false else invalid not_bool)

pub record GoLib : Type 0 where
  pub parse_duration : Bytes → Option ℤ
  pub parse_url : Bytes → Option Url
  pub abs : Bytes → Result Bytes

-- The body of the loop over the durations
unfoldable pub positive_duration : GoLib → Env → String → Bytes → Checked ℕ
unfolding env
positive_duration lib vars name fallback =
    positive (not_duration name fallback) (lib.parse_duration (env vars name fallback))

unfoldable pub check_url : GoLib → Bytes → Checked Unit
unfolding acceptable_url
check_url lib url = if acceptable_url (lib.parse_url url) then valid tt else invalid bad_check_url

-- The body of the loop over the listen addresses
unfoldable pub check_listen : Bytes → Checked Unit
unfolding split_host_port
check_listen address = elim (split_host_port address) [
  | none ↦ invalid (bad_address address)
  | some (host, port) ↦ if valid_port (atoi port) then valid tt else invalid (bad_port address)
]

abbrev pub absolute : Result Bytes → Checked Bytes
absolute (ok path) = valid path
absolute (err e) = invalid (no_path e)

-- LoadConfig
unfoldable pub load_config : GoLib → Env → Checked Config
load_config lib vars = do
  tor_count ← positive_int vars "TOR_COUNT" (codes "10")
  retries ← positive_int vars "MAX_USED_IP_RETRIES" (codes "3")
  unique ← unique_setting (env vars "UNIQUE_IP" (codes "true"))
  connections ← positive_int vars "MAX_CONNECTIONS" (codes "1024")
  connect ← positive_duration lib vars "CONNECT_TIMEOUT" (codes "30s")
  idle ← positive_duration lib vars "IDLE_TIMEOUT" (codes "120s")
  bootstrap ← positive_duration lib vars "BOOTSTRAP_TIMEOUT" (codes "5m")
  check_url lib (env vars "IP_CHECK_URL" (codes "https://api.ipify.org"))
  check_listen (env vars "PROXY_ADDR" (codes ":3128"))
  check_listen (env vars "WEB_ADDR" (codes ":8080"))
  dir ← absolute (lib.abs (env vars "DATA_DIR" (codes "/data")))
  valid (record {
    tor_count = tor_count;
    unique_ip = unique;
    max_used_ip_retries = retries;
    data_dir = dir;
    proxy_addr = env vars "PROXY_ADDR" (codes ":3128");
    web_addr = env vars "WEB_ADDR" (codes ":8080");
    ip_check_url = env vars "IP_CHECK_URL" (codes "https://api.ipify.org");
    connect_timeout = connect;
    idle_timeout = idle;
    bootstrap_timeout = bootstrap;
    max_connections = connections;
  })
