-- ===== src/Admission.antt =====
-- Which requests the proxy lets in: ServeHTTP and validateConnect of internal/app/proxy.go. Host
-- names are ASCII, as HTTP has them.
pub mod Guards
use tor_rotating_http_proxy.Prelude.{
  ℕ, suc, ◌+◌, String, Bool, true, false, not, ◌&&◌, ◌||◌, Option, none, some, List, [], ◌∷◌, ◌++◌,
  length, drop, ltb, ◌==◌, if◌then◌else◌, str_eq,
}
use tor_rotating_http_proxy.Prelude.Bytes.{
  Bytes, codes, bytes_eq, has_suffix, has_byte, has_any, to_lower, cut,
}
use tor_rotating_http_proxy.Prelude.Int.{ℤ, pos, lt_nat, gt_nat, atoi}
use tor_rotating_http_proxy.LoadTest.{Url}

-- What stands before the last occurrence of a byte, and behind it
abbrev pub cut_last : ℕ → Bytes → Option (Bytes × Bytes)
cut_last b [] = none
cut_last b (a ∷ s) = elim (cut_last b s) [
  | none ↦ if a == b then some ([], s) else none
  | some (l, r) ↦ some (a ∷ l, r)
]

abbrev no_brackets : Bytes → Bool
no_brackets s = not (has_byte b'[' s) && not (has_byte b']' s)

-- What net.SplitHostPort makes of a text before its last colon: a host with no colon, or one in
-- brackets.
abbrev unbracket : Bytes → Option Bytes
unbracket [] = some []
unbracket (a ∷ s) =
    if a == b'['
    then elim (cut b']' s) [
      | none ↦ none
      | some (host, rest) ↦ if bytes_eq rest [] && not (has_byte b'[' host) then some host else none
    ]
    else (if not (has_byte b':' (a ∷ s)) && no_brackets (a ∷ s) then some (a ∷ s) else none)

abbrev with_port : Bytes → Option Bytes → Option (Bytes × Bytes)
with_port port none = none
with_port port (some host) = if no_brackets port then some (host, port) else none

-- net.SplitHostPort: the host and the port of an address, or an error
unfoldable pub split_host_port : Bytes → Option (Bytes × Bytes)
split_host_port address = elim (cut_last b':' address) [
  | none ↦ none
  | some (before, port) ↦ with_port port (unbracket before)
]

unfoldable pub is_onion : Bytes → Bool
is_onion host = has_suffix (to_lower host) (codes ".onion")

pub data ConnectError : Type 0 where
  no_host_port invalid_port onion invalid_host : ConnectError

abbrev pub valid_port : Option ℤ → Bool
valid_port none = false
valid_port (some n) = not (lt_nat n 1 || gt_nat n 65535)

-- validateConnect, with the host and the port
unfoldable pub check_connect : Bytes → Bytes → Option ConnectError
check_connect host port =
    if bytes_eq host []
    then some no_host_port
    else (if not (valid_port (atoi port))
        then some invalid_port
        else (if is_onion host
            then some onion
            else (if has_any host (codes "/\\@ \t\r\n") then some invalid_host else none)))

-- validateConnect
unfoldable pub validate_connect : Bytes → Option ConnectError
unfolding split_host_port check_connect
validate_connect address = elim (split_host_port address) [
  | none ↦ some no_host_port
  | some (host, port) ↦ check_connect host port
]

-- A request, as net/http has read it: `connects` says that the method is CONNECT, `host` is its
-- Host, `scheme` and what follows are of its URL, and `upgrade` is its header.
pub record Request : Type 0 where
  pub connects : Bool
  pub host : Bytes
  pub scheme : String
  pub hostname : Bytes
  pub has_user : Bool
  pub has_fragment : Bool
  pub upgrade : Bytes

-- What ServeHTTP does: it refuses with a status, or goes on to serveConnect or serveForward.
pub data Admitted : Type 0 where
  refuses : ℕ → Admitted
  to_connect to_forward : Admitted

-- The guard on the target of a request other than CONNECT
abbrev pub absolute_http : Request → Bool
absolute_http r =
    str_eq r.scheme "http"
    && (not (bytes_eq r.hostname []) && (not r.has_user && not r.has_fragment))

abbrev pub is_none_error : Option ConnectError → Bool
is_none_error none = true
is_none_error (some e) = false

abbrev pub target_ok : Request → Bool
target_ok r = if r.connects then is_none_error (validate_connect r.host) else absolute_http r

-- ServeHTTP
unfoldable pub serve_http : Request → Admitted
unfolding validate_connect
serve_http r =
    if not (target_ok r)
    then refuses 400
    else (if is_onion r.hostname
        then refuses 400
        else (if not (bytes_eq r.upgrade [])
            then refuses 501
            else (if r.connects then to_connect else to_forward)))
