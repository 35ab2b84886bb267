-- ===== src/Admission/Guards.antt =====
-- What the guards of the proxy let through.
use tor_rotating_http_proxy.Prelude.{
  ℕ, ◌≤◌, ◌≡◌, ◌≢◌, ◌↔◌, refl, sym, ◌∙◌, true, false, Option, none, some, [], arith, Bool-cases,
  Option-cases, inl, inr, eq_iff,
}
use tor_rotating_http_proxy.Prelude.Bytes.{Bytes, codes, bytes_eq, bytes_eq_iff, has_any, to_lower}
use tor_rotating_http_proxy.Prelude.Affixes.{EndsIn, has_suffix-EndsIn}
use tor_rotating_http_proxy.Prelude.Int.{ℤ, pos, negsuc, atoi}
use tor_rotating_http_proxy.Admission.{
  Request, to_connect, to_forward, split_host_port, is_onion, valid_port, check_connect,
  validate_connect, absolute_http, serve_http, ConnectError, is_none_error,
}

-- An address of an onion service: its name ends so, whatever the case of its letters.
abbrev pub IsOnion : Bytes → Type 0
IsOnion host = EndsIn (to_lower host) (codes ".onion")

is_onion-false : (host : Bytes) → is_onion host ≡ false → ¬ IsOnion host
unfolding is_onion
is_onion-false host h named =
    cc (sym h ∙ (has_suffix-EndsIn (to_lower host) (codes ".onion")).1 named)

not-IsOnion : (host : Bytes) → (¬ IsOnion host) → is_onion host ≡ false
unfolding is_onion
not-IsOnion host h = elim (Bool-cases (is_onion host)) [
  | inl named ↦ absurd (h ((has_suffix-EndsIn (to_lower host) (codes ".onion")).0 named))
  | inr other ↦ other
]

-- A target of CONNECT: a host and a port from 1 to 65535; the host is no onion address, and has none
-- of the bytes that could break up a command or an address.
pub record Reaches (host port : Bytes) : Type 0 where
  pub named : host ≢ []
  pub numbered : (n : ℕ) × (atoi port ≡ some (pos n)) × (1 ≤ n) × (n ≤ 65535)
  pub public : ¬ IsOnion host
  pub clean : has_any host (codes "/\\@ \t\r\n") ≡ false

pub valid_port-cases :
    (o : Option ℤ) → valid_port o ≡ true → (n : ℕ) × (o ≡ some (pos n)) × (1 ≤ n) × (n ≤ 65535)
valid_port-cases none h = cc
valid_port-cases (some (pos n)) h = (n, refl, ground (arith, h), ground (arith, h))
valid_port-cases (some (negsuc n)) h = cc

check_connect-Reaches : (host port : Bytes) → check_connect host port ≡ none → Reaches host port
unfolding check_connect
check_connect-Reaches host port h = record {
  named = λ e. ground (arith, bytes_eq_iff host [], h, e);
  numbered = valid_port-cases (atoi port) (ground (arith, h));
  public = is_onion-false host (ground (arith, h));
  clean = ground (arith, h);
}

pub valid_port-pos :
    (o : Option ℤ) (n : ℕ) → o ≡ some (pos n) → 1 ≤ n → n ≤ 65535 → valid_port o ≡ true
valid_port-pos o n e h k = rw e (ground (arith, h, k))

Reaches-check_connect : (host port : Bytes) → Reaches host port → check_connect host port ≡ none
unfolding check_connect
Reaches-check_connect host port r =
    let (n, e, h, k) = r.numbered in
    let named : bytes_eq host [] ≡ false = elim (Bool-cases (bytes_eq host [])) [
      | inl empty ↦ absurd (r.named ((bytes_eq_iff host []).0 empty))
      | inr named ↦ named
    ] in
    rw (named, valid_port-pos (atoi port) n e h k, not-IsOnion host r.public, r.clean) refl

-- The target of CONNECT, as the address reads
abbrev pub Target : Bytes → Type 0
Target address =
    (host : Bytes) × (port : Bytes) × (split_host_port address ≡ some (host, port))
    × Reaches host port

validate_connect-Target : (address : Bytes) → validate_connect address ≡ none → Target address
unfolding validate_connect
validate_connect-Target address h = elim (Option-cases (split_host_port address)) [
  | inl e ↦ absurd (cc (rw (e, validate_connect) at h))
  | inr ((host, port), e) ↦
      (host, port, e, check_connect-Reaches host port (rw (e, validate_connect) at h))
]

Target-validate_connect : (address : Bytes) → Target address → validate_connect address ≡ none
unfolding validate_connect
Target-validate_connect address (host, port, e, r) =
    rw (e, validate_connect) (Reaches-check_connect host port r)

is_none_error-none : (o : Option ConnectError) → is_none_error o ≡ true → o ≡ none
is_none_error-none none h = refl
is_none_error-none (some e) h = cc

-- The target of a forwarded request: an absolute URL of the scheme http with a host, and with no
-- credentials and no fragment.
pub record IsAbsolute (r : Request) : Type 0 where
  pub scheme : r.scheme ≡ "http"
  pub named : r.hostname ≢ []
  pub anonymous : r.has_user ≡ false
  pub whole : r.has_fragment ≡ false

absolute_http-IsAbsolute : (r : Request) → absolute_http r ≡ true → IsAbsolute r
absolute_http-IsAbsolute r h = record {
  scheme = ground (arith, eq_iff r.scheme "http", h);
  named = λ e. ground (arith, bytes_eq_iff r.hostname [], h, e);
  anonymous = ground (arith, h);
  whole = ground (arith, h);
}

IsAbsolute-absolute_http : (r : Request) → IsAbsolute r → absolute_http r ≡ true
IsAbsolute-absolute_http r a =
    ground (arith, eq_iff r.scheme "http", bytes_eq_iff r.hostname [], a.named, a.scheme)

-- What both kinds of request have to meet
pub record IsPlain (r : Request) : Type 0 where
  pub public : ¬ IsOnion r.hostname
  pub no_upgrade : r.upgrade ≡ []

serve_http-connect :
    (r : Request) → (serve_http r ≡ to_connect) ↔ ((r.connects ≡ true) × Target r.host × IsPlain r)
unfolding serve_http
serve_http-connect r = (
  λ h. (
    ground (arith, h),
    validate_connect-Target r.host
        (is_none_error-none (validate_connect r.host) (ground (arith, h))),
    record {
      public = is_onion-false r.hostname (ground (arith, h));
      no_upgrade = ground (arith, bytes_eq_iff r.upgrade [], h);
    },
  ),
  λ (c, t, p). ground (
    arith,
    bytes_eq_iff r.upgrade [],
    Target-validate_connect r.host t,
    c,
    not-IsOnion r.hostname p.public,
    p,
  ),
)

serve_http-forward :
    (r : Request) → (serve_http r ≡ to_forward) ↔ ((r.connects ≡ false) × IsAbsolute r × IsPlain r)
unfolding serve_http
serve_http-forward r = (
  λ h. (
    ground (arith, h),
    absolute_http-IsAbsolute r (ground (arith, h)),
    record {
      public = is_onion-false r.hostname (ground (arith, h));
      no_upgrade = ground (arith, bytes_eq_iff r.upgrade [], h);
    },
  ),
  λ (c, a, p). ground (
    arith,
    bytes_eq_iff r.upgrade [],
    IsAbsolute-absolute_http r a,
    c,
    not-IsOnion r.hostname p.public,
    p,
  ),
)

-- ServeHTTP goes on to serveConnect exactly for a CONNECT whose Host splits into a host and a port
-- from 1 to 65535, where the host is no onion address and has none of the bytes that could break up
-- an address, and to serveForward exactly for another request with an absolute http URL that has a
-- host, no credentials and no fragment; in both cases the host of the URL is no onion address and no
-- Upgrade is asked for.
pub serve_http_admits :
    (r : Request)
    → ((serve_http r ≡ to_connect) ↔ ((r.connects ≡ true) × Target r.host × IsPlain r))
      × ((serve_http r ≡ to_forward) ↔ ((r.connects ≡ false) × IsAbsolute r × IsPlain r))
serve_http_admits r = (serve_http-connect r, serve_http-forward r)
